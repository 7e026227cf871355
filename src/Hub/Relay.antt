-- ===== src/Hub/Relay.antt =====
-- internal/hub/hub.go: the relay plane of one host. A browser's request waits in `pending` until
-- the chunks of its answer are there; a tombstone remembers how it ended.
-- The maps `h.pending[hostID]` and `h.relayTombstones[hostID]` are those of the one host; an empty
-- map and a missing one are the same. What is sent on a request's channel is a reply. Each
-- operation holds the hub's lock, so it is one step. The byte count of the parked frames is kept as
-- its 64-bit pattern. `encoding/base64` and `json.Valid` are parameters.
pub mod Table
pub mod Respond
pub mod Tombstones
mod Ends
pub mod Fate
mod Examples
use capri_hub.Common.{
  ℕ, ◌+◌, ◌*◌, ◌/◌, ◌^◌, max, Bool, true, false, not, ◌&&◌, ◌||◌, Option, none, some, List, [], ◌∷◌,
  ◌++◌, ltb, leb, if◌then◌else◌, length,
}
use capri_hub.Common.Int.{ℤ, pos}
use capri_hub.Common.Words.{Bytes, add64}
use capri_hub.Common.Text.{bytes_lt}
use capri_hub.Common.Names.{find, put, remove}
use capri_hub.Wire.Frame.{Frame, RelayAck}
use capri_hub.Wire.Frame.Validate.{no_text}

-- Why a request fails, by the message.
pub data Failure : Type 0 where
  too_many_parked bad_base64 too_large not_json : Failure
  bad_encoding : Bytes → Failure

-- The base64 decoder, `json.Valid`, and the JSON body that tells of a failure.
pub record RelayCodec : Type 0 where
  pub decode_chunk : Bytes → Option Bytes
  pub is_json : Bytes → Bool
  pub failure_body : Failure → Bytes

-- The variables of the package that bound the relay plane; a time is in milliseconds.
pub record RelayLimits : Type 0 where
  pub max_body : ℕ
  pub max_parked : ℕ
  pub max_parked_bytes : ℕ
  pub max_tombstones : ℕ
  pub tombstone_ttl : ℕ

-- `maxChunkedRelayBody`, `hostRelayChunkSize`, and the bounds that follow from them.
abbrev pub default_relay_limits : RelayLimits
default_relay_limits =
    let body = 28 * 2 ^ 20 in
    let chunk = 256 * 2 ^ 10 in
    record {
      max_body = body;
      max_parked = max 256 (2 * (body / chunk + 1));
      max_parked_bytes = 2 * (body * 4 / 3 + chunk);
      max_tombstones = 256;
      tombstone_ttl = 5 * 60 * 1000;
    }

pub record RelayResponse : Type 0 where
  pub status : ℤ
  pub body : Bytes

-- `pendingReq`, without its channels
pub record PendingReq : Type 0 where
  pub next_chunk : ℕ
  pub final_chunk : ℕ
  pub parked : List (ℕ × Frame)
  pub parked_bytes : ℕ
  pub chunks : Bytes
  pub chunk_status : ℤ
  pub chunk_status_set : Bool
  pub chunked : Bool

-- A request that `Dispatch` has just registered.
abbrev pub fresh_request : PendingReq
fresh_request = record {
  next_chunk = 0;
  final_chunk = 0;
  parked = [];
  parked_bytes = 0;
  chunks = [];
  chunk_status = pos 0;
  chunk_status_set = false;
  chunked = false;
}

pub record RelayTombstone : Type 0 where
  pub ack : RelayAck
  pub at_ms : ℕ

-- The relay plane of one host; the newest reply is the last.
pub record Relay : Type 0 where
  pub pending : List (Bytes × PendingReq)
  pub tombstones : List (Bytes × RelayTombstone)
  pub late_chunks : ℕ
  pub replies : List (Bytes × RelayResponse)

-- The loop of `addRelayTombstoneLocked` that looks for the oldest tombstone.
unfoldable pub oldest : Bytes → ℕ → List (Bytes × RelayTombstone) → Bytes
oldest id at_ms [] = id
oldest id at_ms ((k, t) ∷ m) =
    let older = oldest k t.at_ms m in
    let same = oldest id at_ms m in if no_text id || ltb t.at_ms at_ms then older else same

-- `addRelayTombstoneLocked`
unfoldable pub add_relay_tombstone : RelayLimits → ℕ → Relay → RelayAck → Relay
unfolding oldest
add_relay_tombstone limits now r ack =
    let m = put ack.req_id (record { ack = ack; at_ms = now }) r.tombstones in
    if no_text ack.req_id
    then r
    else if leb (length m) limits.max_tombstones
    then record r { tombstones = m }
    else record r { tombstones = remove (oldest [] 0 m) m }

abbrev pub is_done : Option RelayTombstone → Bool
is_done none = false
is_done (some t) = t.ack.done

-- `addAbortTombstoneLocked`
unfoldable pub add_abort_tombstone : RelayLimits → ℕ → Relay → Bytes → Relay
unfolding add_relay_tombstone
add_abort_tombstone limits now r req_id =
    if is_done (find req_id r.tombstones)
    then r
    else add_relay_tombstone limits now r
        (record { req_id = req_id; chunk = 0; done = false; abort = true })

-- `addDoneTombstoneLocked`
unfoldable pub add_done_tombstone : RelayLimits → ℕ → Relay → Bytes → ℕ → Relay
unfolding add_relay_tombstone
add_done_tombstone limits now r req_id chunk =
    add_relay_tombstone limits now r
      (record { req_id = req_id; chunk = chunk; done = true; abort = false })

-- `takePendingLocked`
unfoldable pub take_pending : Relay → Bytes → Relay × Option PendingReq
take_pending r req_id = elim (find req_id r.pending) [
  | none ↦ (r, none)
  | some pr ↦ (record r { pending = remove req_id r.pending }, some pr)
]

-- `dropPending`
unfoldable pub drop_pending : RelayLimits → ℕ → Relay → Bytes → Relay
unfolding add_abort_tombstone
drop_pending limits now r req_id = elim (find req_id r.pending) [
  | none ↦ r
  | some pr ↦ add_abort_tombstone limits now (record r { pending = remove req_id r.pending }) req_id
]

-- `resp <- reply`
abbrev pub reply : Relay → Bytes → RelayResponse → Relay
reply r req_id resp = record r { replies = r.replies ++ ((req_id, resp) ∷ []) }

-- `resolvePendingLocked`; its test of the pointer holds where the entry is the one that was found.
unfoldable pub resolve_pending : RelayLimits → ℕ → Relay → Bytes → RelayResponse → ℕ → Relay
unfolding add_done_tombstone
resolve_pending limits now r req_id resp final_chunk =
    reply
      (add_done_tombstone limits now (record r { pending = remove req_id r.pending }) req_id
        final_chunk)
      req_id resp

-- `failRelayRequestLocked`
unfoldable pub fail_relay_request : RelayCodec → RelayLimits → ℕ → Relay → Bytes → Failure → Relay
unfolding add_abort_tombstone
fail_relay_request codec limits now r req_id reason = elim (find req_id r.pending) [
  | none ↦ r
  | some pr ↦
      reply (add_abort_tombstone limits now (record r { pending = remove req_id r.pending }) req_id)
        req_id (record { status = pos 502; body = codec.failure_body reason })
]

-- The acknowledgements of `relayAcksLocked` for the requests that wait.
abbrev pub pending_acks : List (Bytes × PendingReq) → List RelayAck
pending_acks [] = []
pending_acks ((id, pr) ∷ m) =
    record { req_id = id; chunk = pr.next_chunk; done = false; abort = false } ∷ pending_acks m

-- Is a tombstone older than its time to live?
abbrev pub is_stale : RelayLimits → ℕ → RelayTombstone → Bool
is_stale limits now t = ltb (t.at_ms + limits.tombstone_ttl) now

-- The loop of `relayAcksLocked` over the tombstones: those that stay, and their acknowledgements.
unfoldable pub live_tombstones :
    RelayLimits
    → ℕ
    → List (Bytes × PendingReq)
    → List (Bytes × RelayTombstone)
    → List (Bytes × RelayTombstone) × List RelayAck
live_tombstones limits now pend [] = ([], [])
live_tombstones limits now pend ((id, t) ∷ m) =
    let (kept, acks) = live_tombstones limits now pend m in
    if is_stale limits now t then (kept, acks) else elim (find id pend) [
      | some pr ↦ ((id, t) ∷ kept, acks)
      | none ↦ ((id, t) ∷ kept, t.ack ∷ acks)
    ]

-- `sort.Slice` by the request id
unfoldable pub insert_ack : RelayAck → List RelayAck → List RelayAck
insert_ack a [] = a ∷ []
insert_ack a (b ∷ bs) =
    let rest = insert_ack a bs in if bytes_lt b.req_id a.req_id then b ∷ rest else a ∷ b ∷ bs

unfoldable pub sort_acks : List RelayAck → List RelayAck
unfolding insert_ack
sort_acks [] = []
sort_acks (a ∷ acks) = insert_ack a (sort_acks acks)

-- `relayAcksLocked`
unfoldable pub relay_acks : RelayLimits → ℕ → Relay → Relay × List RelayAck
unfolding live_tombstones sort_acks
relay_acks limits now r =
    let (kept, acks) = live_tombstones limits now r.pending r.tombstones in
    (record r { tombstones = kept }, sort_acks (pending_acks r.pending ++ acks))
