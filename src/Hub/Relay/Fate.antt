-- ===== src/Hub/Relay/Fate.antt =====
-- What becomes of one request, as its chunks and those of other requests go through `acceptRespond`.
pub mod Steps
pub mod Own
pub mod Arrivals
use capri_hub.Common.{
  ℕ, zero, suc, ◌+◌, ◌^◌, ◌<◌, ◌≤◌, ◌≡◌, ◌≢◌, ◌⊎◌, refl, sym, ap, ◌∙◌, inl, inr, Bool, true, false,
  Option, none, some, List, [], ◌∷◌, ◌||◌, ◌++◌, ◌==◌, Bool-cases, Option-cases, arith, subst,
}
use capri_hub.Common.Int.{pos}
use capri_hub.Common.Words.{Bytes, IsU64, add64}
use capri_hub.Common.Assoc.{lookup, insert, lookup-insert, insert-Distinct}
use capri_hub.Common.Names.{find}
use capri_hub.Wire.Frame.{Frame, Json}
use capri_hub.Hub.Relay.{
  RelayCodec, RelayLimits, RelayResponse, PendingReq, Relay, Failure, too_many_parked,
}
use capri_hub.Hub.Relay.Table.{answers_of}
use capri_hub.Hub.Relay.Respond.{Applied, waits, fails, answers}
use capri_hub.Hub.Relay.Respond.Stream.{clear, clear_applied, in_order}
use capri_hub.Hub.Relay.Respond.Advance.{Parked, Advanced}

-- The frames of one answer: each carries the id of the request and the number of its place.
pub record IsAnswer (fs : ℕ → Frame) (id : Bytes) : Type 0 where
  pub number : (k : ℕ) → (fs k).chunk_seq ≡ k
  pub name : (k : ℕ) → (fs k).req_id ≡ id

-- Is the number among those that arrived?
unfoldable pub has : ℕ → List ℕ → Bool
has k [] = false
has k (j ∷ js) = (k == j) || has k js

module _ (json : Json) (codec : RelayCodec) (limits : RelayLimits) (fs : ℕ → Frame) where
  -- The replies that a request may get: what its chunks come to in their order, or a failure.
  pub data Verdict : RelayResponse → Type 0 where
    answered :
        (m n : ℕ) (resp : RelayResponse)
        → in_order json codec limits fs m ≡ answers resp n
        → Verdict resp
    failed :
        (m : ℕ) (reason : Failure)
        → in_order json codec limits fs m ≡ fails reason
        → Verdict (record { status = pos 502; body = codec.failure_body reason })
    crowded : Verdict (record { status = pos 502; body = codec.failure_body too_many_parked })

  -- A request that waits: it is where its chunks, up to the next one, bring it, and what arrived
  -- beyond them is parked behind a gap.
  pub record Tracks (seen : List ℕ) (pr : PendingReq) : Type 0 where
    pub stream : in_order json codec limits fs pr.next_chunk ≡ waits (clear pr)
    pub parked_above : Parked fs pr.next_chunk pr.parked
    pub word : IsU64 pr.next_chunk
    pub gap : lookup (add64 pr.next_chunk 1) pr.parked ≡ none
    pub held :
        (k : ℕ) → has k seen ≡ true → (k ≤ pr.next_chunk) ⊎ (lookup k pr.parked ≡ some (fs k))

  pub data Fate (seen : List ℕ) (id : Bytes) (r : Relay) : Type 0 where
    waiting :
        (pr : PendingReq)
        → find id r.pending ≡ some pr
        → Tracks seen pr
        → answers_of id r.replies ≡ []
        → Fate seen id r
    over :
        (resp : RelayResponse)
        → find id r.pending ≡ none
        → answers_of id r.replies ≡ resp ∷ []
        → Verdict resp
        → Fate seen id r

  -- A chunk that came before.
  pub seen-Tracks :
      (seen : List ℕ) (pr : PendingReq) (k : ℕ)
      → Tracks seen pr
      → (k ≤ pr.next_chunk) ⊎ (lookup k pr.parked ≡ some (fs k))
      → Tracks (k ∷ seen) pr
  unfolding has
  seen-Tracks seen pr k t old = record {
    stream = t.stream;
    parked_above = t.parked_above;
    word = t.word;
    gap = t.gap;
    held = held;
  }
    where
      held :
          (j : ℕ)
          → has j (k ∷ seen) ≡ true
          → (j ≤ pr.next_chunk) ⊎ (lookup j pr.parked ≡ some (fs j))
      held j h = elim (Bool-cases (j == k)) [
        | inl same ↦ let q : j ≡ k = ground arith in rw q old
        | inr other ↦ t.held j (rw other at h)
      ]

  -- A chunk that is parked ahead of the gap.
  pub park-Tracks :
      (seen : List ℕ) (pr : PendingReq) (k bytes : ℕ)
      → Tracks seen pr
      → add64 pr.next_chunk 1 < k
      → pr.next_chunk < k
      → IsU64 k
      → Tracks (k ∷ seen) (record pr { parked = insert k (fs k) pr.parked; parked_bytes = bytes })
  unfolding has
  park-Tracks seen pr k bytes t ahead up w = record {
    stream = t.stream;
    parked_above = record {
      distinct = insert-Distinct k (fs k) pr.parked t.parked_above.distinct;
      above = above;
    };
    word = t.word;
    gap =
        (let apart : (k == add64 pr.next_chunk 1) ≡ false = ground arith in
          lookup-insert k (add64 pr.next_chunk 1) (fs k) pr.parked ∙ rw apart t.gap);
    held = held;
  }
    where
      above :
          (j : ℕ) (g : Frame)
          → lookup j (insert k (fs k) pr.parked) ≡ some g
          → (pr.next_chunk < j) × IsU64 j × (g ≡ fs j)
      above j g h = elim (Bool-cases (k == j)) [
        | inl same ↦
            let q : k ≡ j = ground arith in
            let found : some (fs k) ≡ some g =
              rw same at (sym (lookup-insert k j (fs k) pr.parked) ∙ h) in
            let value : g ≡ fs k = cc in (omega arith, omega arith, value ∙ ap fs q)
        | inr other ↦
            t.parked_above.above j g (rw other at (sym (lookup-insert k j (fs k) pr.parked) ∙ h))
      ]

      held :
          (j : ℕ)
          → has j (k ∷ seen) ≡ true
          → (j ≤ pr.next_chunk) ⊎ (lookup j (insert k (fs k) pr.parked) ≡ some (fs j))
      held j h = elim (Bool-cases (k == j)) [
        | inl same ↦ inr (
            let q : k ≡ j = ground arith in
            lookup-insert k j (fs k) pr.parked ∙ rw same (ap (λ x. some (fs x)) q))
        | inr other ↦
            elim (t.held j (let apart : (j == k) ≡ false = ground arith in rw apart at h)) [
              | inl passed ↦ inl passed
              | inr there ↦ inr (lookup-insert k j (fs k) pr.parked ∙ rw other there)
            ]
      ]

  -- The chunk that was next, and those that were parked behind it.
  pub drained-Tracks :
      (seen : List ℕ) (pr pr' : PendingReq)
      → Tracks seen pr
      → Advanced json codec limits fs pr.next_chunk pr.parked (waits pr')
      → Tracks (suc pr.next_chunk ∷ seen) pr'
  unfolding has
  drained-Tracks seen pr pr' t a =
      let (at, gap, parked, kept) = a.open_end pr' refl in
      record {
        stream = ap (in_order json codec limits fs) at ∙ sym a.same;
        parked_above = subst (λ x. Parked fs x pr'.parked) (sym at) parked;
        word = subst IsU64 (sym at) a.word;
        gap = ap (λ x. lookup (add64 x 1) pr'.parked) at ∙ gap;
        held = λ j h.
            subst (λ x. (j ≤ x) ⊎ (lookup j pr'.parked ≡ some (fs j))) (sym at)
              (elim (Bool-cases (j == suc pr.next_chunk)) [
                | inl same ↦ inl (let u = a.up in ground arith)
                | inr other ↦ elim (t.held j (rw other at h)) [
                  | inl passed ↦ inl (omega (arith, a.up))
                  | inr there ↦ kept j (fs j) there
                ]
              ]);
      }
