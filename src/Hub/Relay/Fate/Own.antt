-- ===== src/Hub/Relay/Fate/Own.antt =====
-- One call of `acceptRespond` with a frame of the request itself.
use capri_hub.Common.{
  ℕ, suc, ◌<◌, ◌≡◌, sym, ap, ◌∙◌, inl, inr, none, some, List, [], ◌∷◌, ◌++◌, ◌==◌, ltb, leb,
  Bool-cases, Option-cases, arith, subst, length,
}
use capri_hub.Common.Words.{Bytes, IsU64, add64}
use capri_hub.Common.Assoc.{lookup, insert}
use capri_hub.Common.Names.{find, DistinctNames, find-put_self}
use capri_hub.Wire.Frame.{Frame, Json}
use capri_hub.Hub.Relay.{RelayCodec, RelayLimits, RelayResponse, PendingReq, Relay, too_many_parked}
use capri_hub.Hub.Relay.Table.{
  answers_of, Closed, add_abort_tombstone-pending, resolve_pending-Closed,
  fail_relay_request-Closed,
}
use capri_hub.Hub.Relay.Respond.{
  Applied, waits, fails, answers, apply_all, settle, park_chunk, is_crowded, keep_parked,
  accept_respond, weight,
}
use capri_hub.Hub.Relay.Respond.Advance.{Parked, Advanced}
use capri_hub.Hub.Relay.Respond.Drain.{apply_all-Advanced}
use capri_hub.Hub.Relay.Fate.{
  Verdict, answered, failed, crowded, Tracks, Fate, waiting, over, seen-Tracks, park-Tracks,
  drained-Tracks,
}

-- Nothing is parked at the gap itself.
behind_gap :
    (fs : ℕ → Frame) (n : ℕ) (m : List (ℕ × Frame))
    → Parked fs n m
    → IsU64 n
    → lookup (add64 n 1) m ≡ none
    → Parked fs (suc n) m
behind_gap fs n m p w gap = record {
  distinct = p.distinct;
  above = λ k g h.
      let (low, word, same) = p.above k g h in
      (
        elim (Bool-cases (k == suc n)) [
          | inl e ↦
              let q : add64 n 1 ≡ k = ground arith in
              absurd (let h' : none ≡ some g = sym gap ∙ ap (λ x. lookup x m) q ∙ h in cc)
          | inr o ↦ let past : suc n < k = ground arith in past
        ],
        word,
        same,
      );
}

module _ (json : Json) (codec : RelayCodec) (limits : RelayLimits) (now : ℕ) (fs : ℕ → Frame) where
  ends :
      (seen : List ℕ) (id : Bytes) (r r' : Relay) (resp : RelayResponse)
      → answers_of id r.replies ≡ []
      → Closed id resp r r'
      → Verdict json codec limits fs resp
      → Fate json codec limits fs seen id r'
  ends seen id r r' resp e c v = over resp c.0 (c.1 ∙ ap (λ l. l ++ (resp ∷ [])) e) v

  settle-Fate :
      (seen : List ℕ) (id : Bytes) (r : Relay) (pr : PendingReq) (out : Applied)
      → DistinctNames r.pending
      → find id r.pending ≡ some pr
      → Tracks json codec limits fs seen pr
      → answers_of id r.replies ≡ []
      → Advanced json codec limits fs pr.next_chunk pr.parked out
      → Fate json codec limits fs
          (suc pr.next_chunk ∷ seen)
          id
          (settle json codec limits now r id out).0
  settle-Fate seen id r pr (waits pr') d e t silent a =
      waiting pr' (find-put_self id pr' r.pending)
        (drained-Tracks json codec limits fs seen pr pr' t a) silent
  settle-Fate seen id r pr (fails reason) d e t silent a =
      ends _ id r _ _ silent (fail_relay_request-Closed codec limits now r id reason pr d e)
        (failed a.last reason (sym a.same))
  settle-Fate seen id r pr (answers resp n) d e t silent a =
      ends _ id r _ _ silent (resolve_pending-Closed codec limits now r id resp n d)
        (answered a.last n resp (sym a.same))

  keep_parked-Tracks :
      (seen : List ℕ) (pr : PendingReq) (f : Frame)
      → Tracks json codec limits fs seen pr
      → fs f.chunk_seq ≡ f
      → add64 pr.next_chunk 1 < f.chunk_seq
      → pr.next_chunk < f.chunk_seq
      → IsU64 f.chunk_seq
      → Tracks json codec limits fs (f.chunk_seq ∷ seen) (keep_parked pr f)
  keep_parked-Tracks seen pr f t own ahead up w =
      let k = f.chunk_seq in
      elim (Option-cases (lookup k pr.parked)) [
        | inl new ↦
            rw (keep_parked, new)
              (subst
                (λ g. Tracks json codec limits fs (k ∷ seen) (record pr {
                  parked = insert k g pr.parked;
                  parked_bytes = add64 pr.parked_bytes (weight f);
                }))
                own
                (park-Tracks json codec limits fs seen pr k (add64 pr.parked_bytes (weight f)) t
                  ahead up w))
        | inr (g, old) ↦
            let (low, wide, same) = t.parked_above.above k g old in
            rw (keep_parked, old)
              (seen-Tracks json codec limits fs seen pr k t (inr (old ∙ ap some same)))
      ]

  park-Fate :
      (seen : List ℕ) (r : Relay) (pr : PendingReq) (f : Frame)
      → DistinctNames r.pending
      → find f.req_id r.pending ≡ some pr
      → Tracks json codec limits fs (f.chunk_seq ∷ seen) (keep_parked pr f)
      → answers_of f.req_id r.replies ≡ []
      → Fate json codec limits fs
          (f.chunk_seq ∷ seen)
          f.req_id
          (park_chunk json codec limits now r pr f).0
  unfolding park_chunk
  park-Fate seen r pr f d e t silent = elim (Bool-cases (is_crowded limits r.pending f)) [
    | inl full ↦
        rw (park_chunk, full)
          (ends _ f.req_id r _ _ silent
            (fail_relay_request-Closed codec limits now r f.req_id too_many_parked pr d e) crowded)
    | inr room ↦
        rw (park_chunk, room)
          (waiting (keep_parked pr f) (find-put_self f.req_id (keep_parked pr f) r.pending) t
            silent)
  ]

  waiting-Fate :
      (seen : List ℕ) (r : Relay) (pr : PendingReq) (f : Frame)
      → DistinctNames r.pending
      → find f.req_id r.pending ≡ some pr
      → Tracks json codec limits fs seen pr
      → answers_of f.req_id r.replies ≡ []
      → ((k : ℕ) → (fs k).chunk_seq ≡ k)
      → fs f.chunk_seq ≡ f
      → IsU64 f.chunk_seq
      → Fate json codec limits fs
          (f.chunk_seq ∷ seen)
          f.req_id
          (accept_respond json codec limits now r f).0
  unfolding accept_respond
  waiting-Fate seen r pr f d e t silent s own w =
      let top = t.word in
      elim (Bool-cases (leb f.chunk_seq pr.next_chunk)) [
        | inl old ↦
            rw (accept_respond, e, old)
              (waiting pr e
                (seen-Tracks json codec limits fs seen pr f.chunk_seq t (inl (ground arith)))
                silent)
        | inr new ↦ elim (Bool-cases (ltb (add64 pr.next_chunk 1) f.chunk_seq)) [
          | inl ahead ↦
              rw (accept_respond, e, new, ahead)
                (park-Fate seen r pr f d e
                  (keep_parked-Tracks seen pr f t own (ground arith) (ground arith) w) silent)
          | inr next ↦
              let at : suc pr.next_chunk ≡ f.chunk_seq = ground arith in
              rw (accept_respond, e, new, next)
                (subst
                  (λ j.
                    Fate json codec limits fs (j ∷ seen) f.req_id
                      (settle json codec limits now r f.req_id
                        (apply_all json codec limits (length pr.parked) pr f)).0)
                  at
                  (settle-Fate seen f.req_id r pr _ d e t silent (
                    subst
                      (λ g.
                        Advanced json codec limits fs pr.next_chunk pr.parked
                          (apply_all json codec limits (length pr.parked) pr g))
                      (ap fs at ∙ own)
                      (apply_all-Advanced json codec limits fs (length pr.parked) pr.next_chunk pr s
                        t.stream (behind_gap fs pr.next_chunk pr.parked t.parked_above t.word t.gap)
                        (omega arith) (subst IsU64 (sym at) w)))))
        ]
      ]

  -- A frame of the request itself, whether it waits or is over.
  pub accept_respond-Fate :
      (seen : List ℕ) (r : Relay) (f : Frame)
      → DistinctNames r.pending
      → ((k : ℕ) → (fs k).chunk_seq ≡ k)
      → fs f.chunk_seq ≡ f
      → IsU64 f.chunk_seq
      → Fate json codec limits fs seen f.req_id r
      → Fate json codec limits fs
          (f.chunk_seq ∷ seen)
          f.req_id
          (accept_respond json codec limits now r f).0
  unfolding accept_respond
  accept_respond-Fate seen r f d s own w (waiting pr e t silent) =
      waiting-Fate seen r pr f d e t silent s own w
  accept_respond-Fate seen r f d s own w (over resp e told v) =
      let t =
        add_abort_tombstone-pending limits now (record r { late_chunks = add64 r.late_chunks 1 })
          f.req_id in
      rw (accept_respond, e)
        (over resp (ap (find f.req_id) t.0 ∙ e) (ap (answers_of f.req_id) t.1 ∙ told) v)
