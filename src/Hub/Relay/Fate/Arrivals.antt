-- ===== src/Hub/Relay/Fate/Arrivals.antt =====
-- Any sequence of calls of `acceptRespond`: the chunks of one answer in any order, among others.
use capri_hub.Common.{
  ℕ, zero, suc, ◌<◌, ◌≤◌, ◌≡◌, ◌≢◌, ◌⊎◌, refl, sym, ap, ◌∙◌, inl, inr, true, false, none, some,
  List, [], ◌∷◌, if◌then◌else◌, leb, Bool-cases, arith, subst,
}
use capri_hub.Common.Words.{Bytes, IsU64, add64}
use capri_hub.Common.Text.{bytes_eq, bytes_eq_iff}
use capri_hub.Common.Assoc.{lookup}
use capri_hub.Common.Names.{find, put, DistinctNames, find-put_self, put-DistinctNames}
use capri_hub.Wire.Frame.{Frame, Json}
use capri_hub.Hub.Relay.{RelayCodec, RelayLimits, RelayResponse, PendingReq, fresh_request, Relay}
use capri_hub.Hub.Relay.Table.{answers_of}
use capri_hub.Hub.Relay.Respond.{Applied, waits, fails, answers, accept_respond}
use capri_hub.Hub.Relay.Respond.Stream.{clear, then_apply, in_order}
use capri_hub.Hub.Relay.Fate.{IsAnswer, has, Verdict, Tracks, Fate, waiting, over}
use capri_hub.Hub.Relay.Fate.Steps.{accept_respond-Kept, accept_respond-DistinctNames}
use capri_hub.Hub.Relay.Fate.Own.{accept_respond-Fate}

-- Calls of `acceptRespond`, each at its time.
unfoldable pub arrive : Json → RelayCodec → RelayLimits → Relay → List (ℕ × Frame) → Relay
arrive json codec limits r [] = r
arrive json codec limits r ((now, f) ∷ fs) =
    arrive json codec limits (accept_respond json codec limits now r f).0 fs

-- The frames are chunks of the answer `fs` to the request, or of the answers to others.
abbrev pub Arrivals : (ℕ → Frame) → Bytes → List (ℕ × Frame) → Type 0
Arrivals fs id [] = Unit {0}
Arrivals fs id ((now, f) ∷ gs) =
    ((bytes_eq f.req_id id ≡ false) ⊎ ((f ≡ fs f.chunk_seq) × IsU64 f.chunk_seq))
    × Arrivals fs id gs

-- The numbers of the chunks of the request among the frames, behind those of `seen`.
unfoldable pub numbers : Bytes → List ℕ → List (ℕ × Frame) → List ℕ
numbers id seen [] = seen
numbers id seen ((now, f) ∷ gs) =
    let mine = numbers id (f.chunk_seq ∷ seen) gs in
    let others = numbers id seen gs in if bytes_eq f.req_id id then mine else others

module _ (json : Json) (codec : RelayCodec) (limits : RelayLimits) (fs : ℕ → Frame)
    (id : Bytes) where
  kept-Fate :
      (seen : List ℕ) (r r' : Relay)
      → find id r'.pending ≡ find id r.pending
      → answers_of id r'.replies ≡ answers_of id r.replies
      → Fate json codec limits fs seen id r
      → Fate json codec limits fs seen id r'
  kept-Fate seen r r' p q (waiting pr e t silent) = waiting pr (p ∙ e) t (q ∙ silent)
  kept-Fate seen r r' p q (over resp e told v) = over resp (p ∙ e) (q ∙ told) v

  pub arrive-Fate :
      (seen : List ℕ) (r : Relay) (gs : List (ℕ × Frame))
      → IsAnswer fs id
      → DistinctNames r.pending
      → Arrivals fs id gs
      → Fate json codec limits fs seen id r
      → Fate json codec limits fs (numbers id seen gs) id (arrive json codec limits r gs)
  unfolding arrive numbers
  arrive-Fate seen r [] s d a fate = fate
  arrive-Fate seen r ((now, f) ∷ gs) s d (first, rest) fate =
      let r' = (accept_respond json codec limits now r f).0 in
      let d' = accept_respond-DistinctNames json codec limits now r f d in
      elim (Bool-cases (bytes_eq f.req_id id)) [
        | inr other ↦
            let (p, q) = accept_respond-Kept json codec limits now r id f other in
            rw (numbers, other) (arrive-Fate seen r' gs s d' rest (kept-Fate seen r r' p q fate))
        | inl mine ↦ elim first [
          | inl other ↦ absurd (let h : true ≡ false = sym mine ∙ other in cc)
          | inr (own, w) ↦
              let q : f.req_id ≡ id = (bytes_eq_iff f.req_id id).0 mine in
              rw (numbers, mine)
                (arrive-Fate (f.chunk_seq ∷ seen) r' gs s d' rest (
                  subst (λ x. Fate json codec limits fs (f.chunk_seq ∷ seen) x r') q
                    (accept_respond-Fate json codec limits now fs seen r f d s.number (sym own) w
                      (subst (λ x. Fate json codec limits fs seen x r) (sym q) fate))))
        ]
      ]

  -- A request that `Dispatch` has just registered waits for its first chunk.
  registered-Fate :
      (r : Relay)
      → answers_of id r.replies ≡ []
      → Fate json codec limits fs [] id (record r { pending = put id fresh_request r.pending })
  unfolding in_order has
  registered-Fate r silent =
      waiting fresh_request (find-put_self id fresh_request r.pending)
        (record {
          stream = refl;
          parked_above = record {
            distinct = tt;
            above = λ k g h. absurd (let h' : none ≡ some g = h in cc);
          };
          word = omega arith;
          gap = refl;
          held = λ k h. absurd (let h' : false ≡ true = h in cc);
        })
        silent

  -- A request that was registered gets at most one reply, however its chunks and those of other
  -- requests arrive: while it waits it has none, and the one it gets is what its chunks come to in
  -- their order, or a failure.
  pub arrive-registered :
      (r : Relay) (gs : List (ℕ × Frame))
      → IsAnswer fs id
      → DistinctNames r.pending
      → Arrivals fs id gs
      → answers_of id r.replies ≡ []
      → Fate json codec limits fs
          (numbers id [] gs)
          id
          (arrive json codec limits (record r { pending = put id fresh_request r.pending }) gs)
  arrive-registered r gs s d a silent =
      arrive-Fate [] _ gs s (put-DistinctNames id fresh_request r.pending d) a
        (registered-Fate r silent)

  waits_before :
      (m n : ℕ) (pr : PendingReq)
      → in_order json codec limits fs n ≡ waits pr
      → m ≤ n
      → (q : PendingReq) × (in_order json codec limits fs m ≡ waits q)
  unfolding in_order
  waits_before m zero pr e h =
      (fresh_request, let q : m ≡ 0 = omega arith in ap (in_order json codec limits fs) q)
  waits_before m (suc n) pr e h = elim (Bool-cases (leb m n)) [
    | inr top ↦ (pr, let q : m ≡ suc n = ground arith in ap (in_order json codec limits fs) q ∙ e)
    | inl low ↦ let (q, e') = applied_to _ refl e in waits_before m n q e' (ground arith)
  ]
    where
      applied_to :
          (out : Applied)
          → in_order json codec limits fs n ≡ out
          → then_apply json codec limits out (fs (suc n)) ≡ waits pr
          → (q : PendingReq) × (in_order json codec limits fs n ≡ waits q)
      applied_to (waits q) o e = (q, o)
      applied_to (fails reason) o e = cc
      applied_to (answers resp k) o e = cc

  reached :
      (seen : List ℕ) (pr : PendingReq) (m : ℕ)
      → Tracks json codec limits fs seen pr
      → ((k : ℕ) → 0 < k → k ≤ m → has k seen ≡ true)
      → IsU64 m
      → m ≤ pr.next_chunk
  reached seen pr m t all w = elim (Bool-cases (leb m pr.next_chunk)) [
    | inl e ↦ ground arith
    | inr e ↦
        let next : add64 pr.next_chunk 1 ≡ suc pr.next_chunk = ground arith in
        let up : pr.next_chunk < m = ground arith in
        elim (t.held (suc pr.next_chunk) (all (suc pr.next_chunk) (omega arith) (omega arith))) [
          | inl low ↦ absurd (omega arith)
          | inr there ↦ absurd (
              let h : none ≡ some (fs (suc pr.next_chunk)) =
                sym t.gap ∙ ap (λ x. lookup x pr.parked) next ∙ there in
              cc)
        ]
  ]

  -- Once the chunks up to `m` arrived, in any order and among those of other requests, a request
  -- whose answer they complete, or make fail, has exactly one reply and waits no more.
  pub arrive_complete :
      (r : Relay) (gs : List (ℕ × Frame)) (m : ℕ)
      → IsAnswer fs id
      → DistinctNames r.pending
      → Arrivals fs id gs
      → answers_of id r.replies ≡ []
      → ((k : ℕ) → 0 < k → k ≤ m → has k (numbers id [] gs) ≡ true)
      → IsU64 m
      → ((pr : PendingReq) → in_order json codec limits fs m ≢ waits pr)
      → let r' =
          arrive json codec limits (record r { pending = put id fresh_request r.pending }) gs in
        (resp : RelayResponse) × (find id r'.pending ≡ none)
        × (answers_of id r'.replies ≡ resp ∷ [])
        × Verdict json codec limits fs resp
  arrive_complete r gs m s d a silent all w done = decided _ (arrive-registered r gs s d a silent)
    where
      decided :
          (r' : Relay)
          → Fate json codec limits fs (numbers id [] gs) id r'
          → (resp : RelayResponse) × (find id r'.pending ≡ none)
            × (answers_of id r'.replies ≡ resp ∷ [])
            × Verdict json codec limits fs resp
      decided r' (over resp e told v) = (resp, e, told, v)
      decided r' (waiting pr e t told) =
          let (q, e') = waits_before m pr.next_chunk (clear pr) t.stream (reached _ pr m t all w) in
          absurd (done q e')
