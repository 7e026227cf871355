-- ===== src/Hub/Relay/Table.antt =====
-- The tables of the relay plane: how a request ends, and what does not touch the other requests.
use capri_hub.Common.{
  ℕ, ◌≡◌, refl, sym, ap, ◌∙◌, inl, inr, false, none, some, List, [], ◌∷◌, ◌++◌, leb, if◌then◌else◌,
  length, Bool-cases, Option-cases, subst, append-nil,
}
use capri_hub.Common.Int.{pos}
use capri_hub.Common.Words.{Bytes}
use capri_hub.Common.Text.{bytes_eq}
use capri_hub.Common.Names.{
  find, put, remove, DistinctNames, bytes_eq_self, find-remove_other, find-remove_self,
  remove-DistinctNames,
}
use capri_hub.Wire.Frame.{RelayAck}
use capri_hub.Wire.Frame.Validate.{no_text}
use capri_hub.Hub.Relay.{
  RelayCodec, RelayLimits, RelayResponse, PendingReq, Relay, Failure, add_relay_tombstone,
  add_abort_tombstone, add_done_tombstone, resolve_pending, fail_relay_request, reply, is_done,
}

-- The replies to one request, in their order.
unfoldable pub answers_of : Bytes → List (Bytes × RelayResponse) → List RelayResponse
answers_of id [] = []
answers_of id ((k, resp) ∷ rs) =
    let rest = answers_of id rs in if bytes_eq k id then resp ∷ rest else rest

pub answers_of-append :
    (id k : Bytes) (resp : RelayResponse) (rs : List (Bytes × RelayResponse))
    → answers_of id (rs ++ ((k, resp) ∷ []))
      ≡ answers_of id rs ++ (if bytes_eq k id then resp ∷ [] else [])
unfolding answers_of
answers_of-append id k resp [] = elim (Bool-cases (bytes_eq k id)) [
  | inl e ↦ rw e refl
  | inr e ↦ rw e refl
]
answers_of-append id k resp ((j, x) ∷ rs) = elim (Bool-cases (bytes_eq j id)) [
  | inl e ↦ rw e (ap (λ l. x ∷ l) (answers_of-append id k resp rs))
  | inr e ↦ rw e (answers_of-append id k resp rs)
]

-- The step touched neither the request nor its replies.
abbrev pub Kept : Bytes → Relay → Relay → Type 0
Kept id r r' =
    (find id r'.pending ≡ find id r.pending) × (answers_of id r'.replies ≡ answers_of id r.replies)

-- The step ended the request with that reply.
abbrev pub Closed : Bytes → RelayResponse → Relay → Relay → Type 0
Closed id resp r r' =
    (find id r'.pending ≡ none)
    × (answers_of id r'.replies ≡ answers_of id r.replies ++ (resp ∷ []))

-- To add a tombstone leaves the requests and the replies as they are.
pub add_relay_tombstone-pending :
    (limits : RelayLimits) (now : ℕ) (r : Relay) (ack : RelayAck)
    → ((add_relay_tombstone limits now r ack).pending ≡ r.pending)
      × ((add_relay_tombstone limits now r ack).replies ≡ r.replies)
unfolding add_relay_tombstone
add_relay_tombstone-pending limits now r ack = elim (Bool-cases (no_text ack.req_id)) [
  | inl e ↦ rw e (refl, refl)
  | inr e ↦
      elim (Bool-cases (
        leb (length (put ack.req_id (record { ack = ack; at_ms = now }) r.tombstones))
          limits.max_tombstones)) [
            | inl room ↦ rw (e, room) (refl, refl)
            | inr full ↦ rw (e, full) (refl, refl)
          ]
]

pub add_abort_tombstone-pending :
    (limits : RelayLimits) (now : ℕ) (r : Relay) (id : Bytes)
    → ((add_abort_tombstone limits now r id).pending ≡ r.pending)
      × ((add_abort_tombstone limits now r id).replies ≡ r.replies)
unfolding add_abort_tombstone
add_abort_tombstone-pending limits now r id = elim (Bool-cases (is_done (find id r.tombstones))) [
  | inl e ↦ rw e (refl, refl)
  | inr e ↦ rw e (add_relay_tombstone-pending limits now r _)
]

-- A request that is taken out with a reply, whatever tombstone it left.
pub ended-Closed :
    (id : Bytes) (resp : RelayResponse) (r s : Relay)
    → DistinctNames r.pending
    → s.pending ≡ remove id r.pending
    → s.replies ≡ r.replies
    → Closed id resp r (reply s id resp)
ended-Closed id resp r s d e e' = (
  ap (find id) e ∙ find-remove_self id r.pending d,
  answers_of-append id id resp s.replies
      ∙ rw (bytes_eq_self id) (ap (λ l. answers_of id l ++ (resp ∷ [])) e'),
)

ended-Kept :
    (id k : Bytes) (resp : RelayResponse) (r s : Relay)
    → bytes_eq k id ≡ false
    → s.pending ≡ remove k r.pending
    → s.replies ≡ r.replies
    → Kept id r (reply s k resp)
ended-Kept id k resp r s o e e' = (
  ap (find id) e ∙ find-remove_other k id r.pending o,
  answers_of-append id k resp s.replies
      ∙ rw o (append-nil (answers_of id s.replies) ∙ ap (answers_of id) e'),
)

module _ (codec : RelayCodec) (limits : RelayLimits) (now : ℕ) where
  pub resolve_pending-Closed :
      (r : Relay) (id : Bytes) (resp : RelayResponse) (n : ℕ)
      → DistinctNames r.pending
      → Closed id resp r (resolve_pending limits now r id resp n)
  unfolding resolve_pending add_done_tombstone
  resolve_pending-Closed r id resp n d =
      let t =
        add_relay_tombstone-pending limits now (record r { pending = remove id r.pending }) _ in
      ended-Closed id resp r
        (add_done_tombstone limits now (record r { pending = remove id r.pending }) id n) d t.0 t.1

  pub resolve_pending-Kept :
      (r : Relay) (id k : Bytes) (resp : RelayResponse) (n : ℕ)
      → bytes_eq k id ≡ false
      → Kept id r (resolve_pending limits now r k resp n)
  unfolding resolve_pending add_done_tombstone
  resolve_pending-Kept r id k resp n o =
      let t =
        add_relay_tombstone-pending limits now (record r { pending = remove k r.pending }) _ in
      ended-Kept id k resp r
        (add_done_tombstone limits now (record r { pending = remove k r.pending }) k n) o t.0 t.1

  pub fail_relay_request-Closed :
      (r : Relay) (id : Bytes) (reason : Failure) (pr : PendingReq)
      → DistinctNames r.pending
      → find id r.pending ≡ some pr
      → Closed id
          (record { status = pos 502; body = codec.failure_body reason })
          r
          (fail_relay_request codec limits now r id reason)
  unfolding fail_relay_request
  fail_relay_request-Closed r id reason pr d h =
      let t =
        add_abort_tombstone-pending limits now (record r { pending = remove id r.pending }) id in
      rw (fail_relay_request, h)
        (ended-Closed id _ r
          (add_abort_tombstone limits now (record r { pending = remove id r.pending }) id) d t.0
          t.1)

  pub fail_relay_request-Kept :
      (r : Relay) (id k : Bytes) (reason : Failure)
      → bytes_eq k id ≡ false
      → Kept id r (fail_relay_request codec limits now r k reason)
  unfolding fail_relay_request
  fail_relay_request-Kept r id k reason o = elim (Option-cases (find k r.pending)) [
    | inl h ↦ rw (fail_relay_request, h) (refl, refl)
    | inr (pr, h) ↦
        let t =
          add_abort_tombstone-pending limits now (record r { pending = remove k r.pending }) k in
        rw (fail_relay_request, h)
          (ended-Kept id k _ r
            (add_abort_tombstone limits now (record r { pending = remove k r.pending }) k) o t.0
            t.1)
  ]

  -- No request stands twice, however one of them ends.
  pub fail_relay_request-DistinctNames :
      (r : Relay) (k : Bytes) (reason : Failure)
      → DistinctNames r.pending
      → DistinctNames (fail_relay_request codec limits now r k reason).pending
  unfolding fail_relay_request
  fail_relay_request-DistinctNames r k reason d = elim (Option-cases (find k r.pending)) [
    | inl h ↦ rw (fail_relay_request, h) d
    | inr (pr, h) ↦
        let t =
          add_abort_tombstone-pending limits now (record r { pending = remove k r.pending }) k in
        rw (fail_relay_request, h)
          (subst DistinctNames (sym t.0) (remove-DistinctNames k r.pending d))
  ]

  pub resolve_pending-DistinctNames :
      (r : Relay) (k : Bytes) (resp : RelayResponse) (n : ℕ)
      → DistinctNames r.pending
      → DistinctNames (resolve_pending limits now r k resp n).pending
  unfolding resolve_pending add_done_tombstone
  resolve_pending-DistinctNames r k resp n d =
      let t =
        add_relay_tombstone-pending limits now (record r { pending = remove k r.pending }) _ in
      subst DistinctNames (sym t.0) (remove-DistinctNames k r.pending d)
