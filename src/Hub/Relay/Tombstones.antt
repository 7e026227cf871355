-- ===== src/Hub/Relay/Tombstones.antt =====
-- The bound on the tombstones that `addRelayTombstoneLocked` keeps.
use capri_hub.Common.{
  ℕ, suc, ◌≤◌, ◌≡◌, ◌⊎◌, refl, inl, inr, Bool, true, false, ◌||◌, some, List, [], ◌∷◌, ltb, leb,
  if◌then◌else◌, length, Bool-cases, Option-cases, arith,
}
use capri_hub.Common.Words.{Bytes, add64}
use capri_hub.Common.Text.{bytes_eq}
use capri_hub.Common.Names.{find, put, remove, bytes_eq_self, length-put, length-remove}
use capri_hub.Wire.Frame.{RelayAck, Frame, Json}
use capri_hub.Wire.Frame.Validate.{no_text}
use capri_hub.Hub.Relay.{
  RelayCodec, RelayLimits, RelayTombstone, Relay, Failure, too_many_parked, oldest,
  add_relay_tombstone, add_abort_tombstone, is_done, fail_relay_request, resolve_pending,
  add_done_tombstone,
}
use capri_hub.Hub.Relay.Respond.{
  Applied, waits, fails, answers, apply_all, settle, park_chunk, is_crowded, accept_respond,
}

abbrev InTable : Bytes → List (Bytes × RelayTombstone) → Type 0
InTable o m = (x : RelayTombstone) × (find o m ≡ some x)

weaken_InTable :
    (k : Bytes) (t : RelayTombstone) (m : List (Bytes × RelayTombstone)) (o : Bytes)
    → InTable o m
    → InTable o ((k, t) ∷ m)
weaken_InTable k t m o (x, there) = elim (Bool-cases (bytes_eq k o)) [
  | inl e ↦ (t, rw e refl)
  | inr e ↦ (x, rw e there)
]

head_InTable :
    (k : Bytes) (t : RelayTombstone) (m : List (Bytes × RelayTombstone)) (o : Bytes)
    → (o ≡ k) ⊎ InTable o m
    → InTable o ((k, t) ∷ m)
head_InTable k t m o (inl same) = (t, rw (same, bytes_eq_self k) refl)
head_InTable k t m o (inr there) = weaken_InTable k t m o there

either_InTable :
    (b : Bool) (id older same : Bytes) (m : List (Bytes × RelayTombstone))
    → InTable older m
    → (same ≡ id) ⊎ InTable same m
    → ((if b then older else same) ≡ id) ⊎ InTable (if b then older else same) m
either_InTable true id older same m p q = inr p
either_InTable false id older same m p q = q

-- The loop names the tombstone that it started with, or one of the table.
oldest-InTable :
    (id : Bytes) (at_ms : ℕ) (m : List (Bytes × RelayTombstone))
    → (oldest id at_ms m ≡ id) ⊎ InTable (oldest id at_ms m) m
unfolding oldest
oldest-InTable id at_ms [] = inl refl
oldest-InTable id at_ms ((k, t) ∷ m) =
    either_InTable (no_text id || ltb t.at_ms at_ms) id (oldest k t.at_ms m) (oldest id at_ms m)
      ((k, t) ∷ m) (head_InTable k t m _ (oldest-InTable k t.at_ms m))
      (elim (oldest-InTable id at_ms m) [
        | inl same ↦ inl same
        | inr there ↦ inr (weaken_InTable k t m _ there)
      ])

oldest_first :
    (k : Bytes) (t : RelayTombstone) (m : List (Bytes × RelayTombstone))
    → InTable (oldest [] 0 ((k, t) ∷ m)) ((k, t) ∷ m)
unfolding oldest
oldest_first k t m = head_InTable k t m _ (oldest-InTable k t.at_ms m)

evict_oldest :
    (m : List (Bytes × RelayTombstone)) (max : ℕ)
    → length m ≤ suc max
    → length (remove (oldest [] 0 m) m) ≤ max
evict_oldest [] max h = omega arith
evict_oldest ((k, t) ∷ m) max h =
    let found = oldest_first k t m in
    let gone = length-remove (oldest [] 0 ((k, t) ∷ m)) ((k, t) ∷ m) found.0 found.1 in
    omega (arith, gone)

-- The table keeps to its bound.
abbrev pub Few : RelayLimits → Relay → Type 0
Few limits r = length r.tombstones ≤ limits.max_tombstones

module _ (limits : RelayLimits) (now : ℕ) where
  add_relay_tombstone-Few :
      (r : Relay) (ack : RelayAck)
      → Few limits r
      → Few limits (add_relay_tombstone limits now r ack)
  unfolding add_relay_tombstone
  add_relay_tombstone-Few r ack h =
      let m = put ack.req_id (record { ack = ack; at_ms = now }) r.tombstones in
      elim (Bool-cases (no_text ack.req_id)) [
        | inl none_named ↦ rw (add_relay_tombstone, none_named) h
        | inr named ↦ elim (Bool-cases (leb (length m) limits.max_tombstones)) [
          | inl room ↦ rw (add_relay_tombstone, named, room) (ground arith)
          | inr full ↦
              rw (add_relay_tombstone, named, full)
                (evict_oldest m limits.max_tombstones (
                  omega (
                    arith,
                    length-put ack.req_id (record { ack = ack; at_ms = now }) r.tombstones,
                  )))
        ]
      ]

  add_abort_tombstone-Few :
      (r : Relay) (id : Bytes) → Few limits r → Few limits (add_abort_tombstone limits now r id)
  unfolding add_abort_tombstone
  add_abort_tombstone-Few r id h = elim (Bool-cases (is_done (find id r.tombstones))) [
    | inl e ↦ rw (add_abort_tombstone, e) h
    | inr e ↦ rw (add_abort_tombstone, e) (add_relay_tombstone-Few r _ h)
  ]

  fail_relay_request-Few :
      (codec : RelayCodec) (r : Relay) (id : Bytes) (reason : Failure)
      → Few limits r
      → Few limits (fail_relay_request codec limits now r id reason)
  unfolding fail_relay_request
  fail_relay_request-Few codec r id reason h = elim (Option-cases (find id r.pending)) [
    | inl e ↦ rw (fail_relay_request, e) h
    | inr (pr, e) ↦
        rw (fail_relay_request, e)
          (add_abort_tombstone-Few (record r { pending = remove id r.pending }) id h)
  ]

  settle-Few :
      (json : Json) (codec : RelayCodec) (r : Relay) (id : Bytes) (out : Applied)
      → Few limits r
      → Few limits (settle json codec limits now r id out).0
  unfolding resolve_pending add_done_tombstone
  settle-Few json codec r id (waits pr) h = h
  settle-Few json codec r id (fails reason) h = fail_relay_request-Few codec r id reason h
  settle-Few json codec r id (answers resp n) h =
      add_relay_tombstone-Few (record r { pending = remove id r.pending }) _ h

  -- No chunk makes the table of the tombstones exceed its bound.
  pub accept_respond-Few :
      (json : Json) (codec : RelayCodec) (r : Relay) (f : Frame)
      → length r.tombstones ≤ limits.max_tombstones
      → length (accept_respond json codec limits now r f).0.tombstones ≤ limits.max_tombstones
  unfolding accept_respond
  accept_respond-Few json codec r f h = elim (Option-cases (find f.req_id r.pending)) [
    | inl e ↦
        rw (accept_respond, e)
          (add_abort_tombstone-Few (record r { late_chunks = add64 r.late_chunks 1 }) f.req_id h)
    | inr (pr, e) ↦ elim (Bool-cases (leb f.chunk_seq pr.next_chunk)) [
      | inl old ↦ rw (accept_respond, e, old) h
      | inr new ↦ elim (Bool-cases (ltb (add64 pr.next_chunk 1) f.chunk_seq)) [
        | inr next ↦
            rw (accept_respond, e, new, next)
              (settle-Few json codec r f.req_id
                (apply_all json codec limits (length pr.parked) pr f) h)
        | inl ahead ↦ elim (Bool-cases (is_crowded limits r.pending f)) [
          | inl full ↦
              rw (accept_respond, e, new, ahead, park_chunk, full)
                (fail_relay_request-Few codec r f.req_id too_many_parked h)
          | inr room ↦ rw (accept_respond, e, new, ahead, park_chunk, room) h
        ]
      ]
    ]
  ]
