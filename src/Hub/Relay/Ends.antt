-- ===== src/Hub/Relay/Ends.antt =====
-- internal/hub/hub.go: a request that fails at its deadline, and all the requests of a host at once.
use capri_hub.Common.{ℕ, ◌≡◌, none, some, List, [], ◌∷◌}
use capri_hub.Common.Int.{ℤ}
use capri_hub.Common.Words.{Bytes}
use capri_hub.Common.Names.{find, remove, DistinctNames}
use capri_hub.Hub.Relay.{RelayLimits, PendingReq, Relay, reply, add_abort_tombstone}
use capri_hub.Hub.Relay.Table.{Closed, ended-Closed, add_abort_tombstone-pending}

-- `failRequest`, with the JSON body that tells of the failure
unfoldable fail_request : RelayLimits → ℕ → Relay → Bytes → ℤ → Bytes → Relay
unfolding add_abort_tombstone
fail_request limits now r req_id status body = elim (find req_id r.pending) [
  | none ↦ r
  | some pr ↦
      reply (add_abort_tombstone limits now (record r { pending = remove req_id r.pending }) req_id)
        req_id (record { status = status; body = body })
]

-- `failPendingLocked`: each request leaves a tombstone, and none has a reply.
unfoldable fail_each : RelayLimits → ℕ → Relay → List (Bytes × PendingReq) → Relay
unfolding add_abort_tombstone
fail_each limits now r [] = r
fail_each limits now r ((id, pr) ∷ m) = fail_each limits now (add_abort_tombstone limits now r id) m

unfoldable fail_pending : RelayLimits → ℕ → Relay → Relay
unfolding fail_each
fail_pending limits now r = record (fail_each limits now r r.pending) { pending = [] }

-- A request that misses its deadline has that reply, and waits no more.
fail_request-Closed :
    (limits : RelayLimits) (now : ℕ) (r : Relay) (id : Bytes) (status : ℤ) (body : Bytes)
    (pr : PendingReq)
    → DistinctNames r.pending
    → find id r.pending ≡ some pr
    → Closed id
        (record { status = status; body = body })
        r
        (fail_request limits now r id status body)
unfolding fail_request
fail_request-Closed limits now r id status body pr d h =
    let t =
      add_abort_tombstone-pending limits now (record r { pending = remove id r.pending }) id in
    rw (fail_request, h)
      (ended-Closed id _ r
        (add_abort_tombstone limits now (record r { pending = remove id r.pending }) id) d t.0 t.1)
