-- ===== src/Hub/Relay/Fate/Steps.antt =====
-- One call of `acceptRespond`, and the fate of a request.
use capri_hub.Common.{
  ℕ, ◌≡◌, refl, sym, ap, ◌∙◌, inl, inr, false, ltb, leb, Bool-cases, Option-cases, subst, length,
}
use capri_hub.Common.Words.{Bytes, add64}
use capri_hub.Common.Text.{bytes_eq}
use capri_hub.Common.Names.{find, DistinctNames, find-put, put-DistinctNames}
use capri_hub.Wire.Frame.{Frame, Json}
use capri_hub.Hub.Relay.{RelayCodec, RelayLimits, PendingReq, Relay, too_many_parked}
use capri_hub.Hub.Relay.Table.{
  answers_of, Kept, add_abort_tombstone-pending, resolve_pending-Kept,
  fail_relay_request-DistinctNames, resolve_pending-DistinctNames, fail_relay_request-Kept,
}
use capri_hub.Hub.Relay.Respond.{
  Applied, waits, fails, answers, apply_all, settle, park_chunk, is_crowded, keep_parked,
  accept_respond,
}

module _ (json : Json) (codec : RelayCodec) (limits : RelayLimits) (now : ℕ) where
  -- What the hub's lock lets a frame of another request do.
  settle-Kept :
      (r : Relay) (id k : Bytes) (out : Applied)
      → bytes_eq k id ≡ false
      → Kept id r (settle json codec limits now r k out).0
  settle-Kept r id k (waits pr) o = (find-put k id pr r.pending ∙ rw o refl, refl)
  settle-Kept r id k (fails reason) o = fail_relay_request-Kept codec limits now r id k reason o
  settle-Kept r id k (answers resp n) o = resolve_pending-Kept codec limits now r id k resp n o

  park_chunk-Kept :
      (r : Relay) (id : Bytes) (pr : PendingReq) (f : Frame)
      → bytes_eq f.req_id id ≡ false
      → Kept id r (park_chunk json codec limits now r pr f).0
  unfolding park_chunk
  park_chunk-Kept r id pr f o = elim (Bool-cases (is_crowded limits r.pending f)) [
    | inl full ↦
        rw (park_chunk, full)
          (fail_relay_request-Kept codec limits now r id f.req_id too_many_parked o)
    | inr room ↦
        rw (park_chunk, room) (find-put f.req_id id (keep_parked pr f) r.pending ∙ rw o refl, refl)
  ]

  -- A frame does not touch the requests that it is not about.
  pub accept_respond-Kept :
      (r : Relay) (id : Bytes) (f : Frame)
      → bytes_eq f.req_id id ≡ false
      → Kept id r (accept_respond json codec limits now r f).0
  unfolding accept_respond
  accept_respond-Kept r id f o = elim (Option-cases (find f.req_id r.pending)) [
    | inl e ↦
        let t =
          add_abort_tombstone-pending limits now (record r { late_chunks = add64 r.late_chunks 1 })
            f.req_id in
        rw (accept_respond, e) (ap (find id) t.0, ap (answers_of id) t.1)
    | inr (pr, e) ↦ elim (Bool-cases (leb f.chunk_seq pr.next_chunk)) [
      | inl old ↦ rw (accept_respond, e, old) (refl, refl)
      | inr new ↦ elim (Bool-cases (ltb (add64 pr.next_chunk 1) f.chunk_seq)) [
        | inl ahead ↦ rw (accept_respond, e, new, ahead) (park_chunk-Kept r id pr f o)
        | inr next ↦
            rw (accept_respond, e, new, next)
              (settle-Kept r id f.req_id (apply_all json codec limits (length pr.parked) pr f) o)
      ]
    ]
  ]

  settle-DistinctNames :
      (r : Relay) (k : Bytes) (out : Applied)
      → DistinctNames r.pending
      → DistinctNames (settle json codec limits now r k out).0.pending
  settle-DistinctNames r k (waits pr) d = put-DistinctNames k pr r.pending d
  settle-DistinctNames r k (fails reason) d =
      fail_relay_request-DistinctNames codec limits now r k reason d
  settle-DistinctNames r k (answers resp n) d =
      resolve_pending-DistinctNames codec limits now r k resp n d

  -- No request stands twice, before and after a frame.
  pub accept_respond-DistinctNames :
      (r : Relay) (f : Frame)
      → DistinctNames r.pending
      → DistinctNames (accept_respond json codec limits now r f).0.pending
  unfolding accept_respond
  accept_respond-DistinctNames r f d = elim (Option-cases (find f.req_id r.pending)) [
    | inl e ↦
        let t =
          add_abort_tombstone-pending limits now (record r { late_chunks = add64 r.late_chunks 1 })
            f.req_id in
        rw (accept_respond, e) (subst DistinctNames (sym t.0) d)
    | inr (pr, e) ↦ elim (Bool-cases (leb f.chunk_seq pr.next_chunk)) [
      | inl old ↦ rw (accept_respond, e, old) d
      | inr new ↦ elim (Bool-cases (ltb (add64 pr.next_chunk 1) f.chunk_seq)) [
        | inr next ↦
            rw (accept_respond, e, new, next)
              (settle-DistinctNames r f.req_id (apply_all json codec limits (length pr.parked) pr f)
                d)
        | inl ahead ↦ elim (Bool-cases (is_crowded limits r.pending f)) [
          | inl full ↦
              rw (accept_respond, e, new, ahead, park_chunk, full)
                (fail_relay_request-DistinctNames codec limits now r f.req_id too_many_parked d)
          | inr room ↦
              rw (accept_respond, e, new, ahead, park_chunk, room)
                (put-DistinctNames f.req_id (keep_parked pr f) r.pending d)
        ]
      ]
    ]
  ]
