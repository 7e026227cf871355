-- ===== src/Hub/Relay/Respond/Advance.antt =====
-- The loop of `acceptRespond`: chunks that arrive in any order are applied in theirs.
use capri_hub.Common.{
  ℕ, suc, ◌<◌, ◌≤◌, ◌≡◌, ◌≢◌, ◌⊎◌, sym, ap, ◌∙◌, inl, inr, none, some, List, Bool-cases, arith,
  subst, ◌==◌,
}
use capri_hub.Common.Words.{IsU64, add64}
use capri_hub.Common.Assoc.{
  lookup, erase, Distinct, lookup-erase_ne, lookup-erase_self, erase-Distinct,
}
use capri_hub.Wire.Frame.{Frame, Json}
use capri_hub.Hub.Relay.{RelayCodec, RelayLimits, PendingReq}
use capri_hub.Hub.Relay.Respond.{Applied, waits}
use capri_hub.Hub.Relay.Respond.Stream.{clear, clear_applied, in_order}

-- The frames of a stream carry the numbers of their places.
abbrev pub IsStream : (ℕ → Frame) → Type 0
IsStream fs = (k : ℕ) → (fs k).chunk_seq ≡ k

-- The frames that are parked are those of the stream, all above `n`.
pub record Parked (fs : ℕ → Frame) (n : ℕ) (m : List (ℕ × Frame)) : Type 0 where
  pub distinct : Distinct m
  pub above : (k : ℕ) (g : Frame) → lookup k m ≡ some g → (n < k) × IsU64 k × (g ≡ fs k)

-- What the loop comes to, behind the chunk `n + 1`: `m` is the last chunk that was applied.
pub record Advanced (json : Json) (codec : RelayCodec) (limits : RelayLimits) (fs : ℕ → Frame)
    (n : ℕ) (parked : List (ℕ × Frame)) (out : Applied) : Type 0 where
  pub last : ℕ
  pub up : n < last
  pub word : IsU64 last
  pub same : clear_applied out ≡ in_order json codec limits fs last
  pub open_end :
      (pr : PendingReq)
      → out ≡ waits pr
      → (pr.next_chunk ≡ last)
        × (lookup (add64 last 1) pr.parked ≡ none)
        × Parked fs last pr.parked
        × ((k : ℕ) (g : Frame)
            → lookup k parked ≡ some g
            → (k ≤ last) ⊎ (lookup k pr.parked ≡ some g))

pub unpark-Parked :
    (fs : ℕ → Frame) (n : ℕ) (m : List (ℕ × Frame))
    → Parked fs n m
    → Parked fs (suc n) (erase (suc n) m)
unpark-Parked fs n m p = record { distinct = erase-Distinct (suc n) m p.distinct; above = above }
  where
    above :
        (k : ℕ) (g : Frame)
        → lookup k (erase (suc n) m) ≡ some g
        → (suc n < k) × IsU64 k × (g ≡ fs k)
    above k g h = elim (Bool-cases (suc n == k)) [
      | inl same ↦
          let q : suc n ≡ k = ground arith in
          let gone : none ≡ some g =
            sym (lookup-erase_self (suc n) m p.distinct)
            ∙ ap (λ x. lookup x (erase (suc n) m)) q
            ∙ h in
          absurd (ground arith)
      | inr other ↦
          let apart : suc n ≢ k = (λ q. ground arith) in
          let (low, word, same) = p.above k g (sym (lookup-erase_ne (suc n) k m apart) ∙ h) in
          (ground arith, word, same)
    ]

-- A frame that waits behind the chunk `n` is the next of the stream.
pub next-Parked :
    (fs : ℕ → Frame) (n : ℕ) (m : List (ℕ × Frame)) (g : Frame)
    → Parked fs n m
    → IsU64 n
    → lookup (add64 n 1) m ≡ some g
    → (add64 n 1 ≡ suc n) × IsU64 (suc n) × (g ≡ fs (suc n))
next-Parked fs n m g p w h =
    let (low, word, same) = p.above (add64 n 1) g h in
    let next : add64 n 1 ≡ suc n = omega arith in (next, omega arith, same ∙ ap fs next)

module _ (json : Json) (codec : RelayCodec) (limits : RelayLimits) where
  pub ended-Advanced :
      (fs : ℕ → Frame) (n : ℕ) (parked : List (ℕ × Frame)) (out : Applied)
      → IsU64 (suc n)
      → clear_applied out ≡ in_order json codec limits fs (suc n)
      → ((pr : PendingReq) → out ≢ waits pr)
      → Advanced json codec limits fs n parked out
  ended-Advanced fs n parked out w e over = record {
    last = suc n;
    up = omega arith;
    word = w;
    same = e;
    open_end = λ pr h. absurd (over pr h);
  }

  pub stopped-Advanced :
      (fs : ℕ → Frame) (n : ℕ) (parked : List (ℕ × Frame)) (pr : PendingReq)
      → IsU64 (suc n)
      → waits (clear pr) ≡ in_order json codec limits fs (suc n)
      → pr.next_chunk ≡ suc n
      → pr.parked ≡ parked
      → Parked fs (suc n) parked
      → lookup (add64 (suc n) 1) pr.parked ≡ none
      → Advanced json codec limits fs n parked (waits pr)
  stopped-Advanced fs n parked pr w e at kept p gap = record {
    last = suc n;
    up = omega arith;
    word = w;
    same = e;
    open_end = λ q h.
        let same : pr ≡ q = cc in
        subst
          (λ x.
            (x.next_chunk ≡ suc n)
            × (lookup (add64 (suc n) 1) x.parked ≡ none)
            × Parked fs (suc n) x.parked
            × ((k : ℕ) (g : Frame)
                → lookup k parked ≡ some g
                → (k ≤ suc n) ⊎ (lookup k x.parked ≡ some g)))
          same
          (
            at,
            gap,
            subst (Parked fs (suc n)) (sym kept) p,
            λ k g there. inr (ap (lookup k) kept ∙ there),
          );
  }

  pub more-Advanced :
      (fs : ℕ → Frame) (n : ℕ) (parked : List (ℕ × Frame)) (out : Applied)
      → Advanced json codec limits fs (suc n) (erase (suc (suc n)) parked) out
      → Advanced json codec limits fs n parked out
  more-Advanced fs n parked out a = record {
    last = a.last;
    up = omega (arith, a.up);
    word = a.word;
    same = a.same;
    open_end = λ pr h.
        let (at, gap, p, kept) = a.open_end pr h in
        (at, gap, p, λ k g there. passed_or_kept pr kept k g there);
  }
    where
      passed_or_kept :
          (pr : PendingReq)
          → ((k : ℕ) (g : Frame)
              → lookup k (erase (suc (suc n)) parked) ≡ some g
              → (k ≤ a.last) ⊎ (lookup k pr.parked ≡ some g))
          → (k : ℕ) (g : Frame) → lookup k parked ≡ some g
          → (k ≤ a.last) ⊎ (lookup k pr.parked ≡ some g)
      passed_or_kept pr kept k g there = elim (Bool-cases (suc (suc n) == k)) [
        | inl same ↦ inl (let u = a.up in ground arith)
        | inr other ↦
            let apart : suc (suc n) ≢ k = (λ q. ground arith) in
            kept k g (lookup-erase_ne (suc (suc n)) k parked apart ∙ there)
      ]
