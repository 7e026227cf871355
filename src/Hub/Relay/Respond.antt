-- ===== src/Hub/Relay/Respond.antt =====
-- `acceptRespond` and what it calls: the chunks of an answer, applied in their order.
pub mod Stream
pub mod Advance
pub mod Drain
use capri_hub.Common.{
  ℕ, zero, suc, ◌+◌, Bool, true, false, not, ◌&&◌, ◌||◌, Option, none, some, List, [], ◌∷◌, ◌++◌,
  ltb, leb, ◌==◌, if◌then◌else◌, length,
}
use capri_hub.Common.Int.{ℤ, pos, ltb_ℤ, word_int}
use capri_hub.Common.Words.{Bytes, add64, sub64}
use capri_hub.Common.Text.{codes, bytes_eq}
use capri_hub.Common.Assoc.{lookup, insert, erase}
use capri_hub.Common.Names.{find, put}
use capri_hub.Wire.Frame.{Frame, Json, type_respond}
use capri_hub.Wire.Frame.Validate.{no_text}
use capri_hub.Wire.Frame.Build.{blank_frame, respond_status, set_respond_status}
use capri_hub.Hub.Relay.{
  RelayCodec, RelayLimits, RelayResponse, PendingReq, Relay, Failure, bad_encoding, bad_base64,
  too_large, not_json, too_many_parked, add_abort_tombstone, resolve_pending, fail_relay_request,
}

-- What one chunk does to its request: it waits for more, it failed, or its answer is complete at
-- the chunk of that number.
pub data Applied : Type 0 where
  waits : PendingReq → Applied
  fails : Failure → Applied
  answers : RelayResponse → ℕ → Applied

-- `len(f.Chunk) + len(f.Body)`
abbrev pub weight : Frame → ℕ
weight f = length f.chunk + length f.body

-- The end of `applyRespondLocked`, once the body of the chunk was taken; `status` is the status of
-- the frame.
abbrev pub advance : RelayCodec → ℤ → PendingReq → Frame → Applied
advance codec status pr f =
    let moved = record pr { next_chunk = f.chunk_seq } in
    if f.more
    then waits moved
    else if not pr.chunked && (f.chunk_seq == 1)
    then answers (record { status = status; body = f.body }) f.chunk_seq
    else if not (codec.is_json pr.chunks)
    then fails not_json
    else answers (record { status = pr.chunk_status; body = pr.chunks }) f.chunk_seq

-- The branch of `applyRespondLocked` for a chunk of base64.
abbrev pub take_chunk : RelayCodec → RelayLimits → ℤ → PendingReq → Frame → Applied
take_chunk codec limits status pr f =
    if not (bytes_eq f.encoding (codes "base64"))
    then fails (bad_encoding f.encoding)
    else elim (codec.decode_chunk f.chunk) [
      | none ↦ fails bad_base64
      | some decoded ↦
          if ltb limits.max_body (length pr.chunks + length decoded)
          then fails too_large
          else advance codec status (record pr { chunked = true; chunks = pr.chunks ++ decoded }) f
    ]

-- The status of the first chunk is the one of the answer.
abbrev pub note_status : ℤ → PendingReq → PendingReq
note_status status pr =
    if not pr.chunk_status_set
    then record pr { chunk_status = status; chunk_status_set = true }
    else pr

-- `applyRespondLocked`, up to what it does to the tables
unfoldable pub apply_chunk : Json → RelayCodec → RelayLimits → PendingReq → Frame → Applied
apply_chunk json codec limits pr f =
    let status = respond_status json f in
    let pr₁ = note_status status pr in
    if not (no_text f.chunk) || not (no_text f.encoding)
    then take_chunk codec limits status pr₁ f
    else if f.more || pr₁.chunked || ltb 0 pr₁.next_chunk
    then advance codec status (record pr₁ { chunked = true; chunks = pr₁.chunks ++ f.body }) f
    else advance codec status pr₁ f

-- `hostParkedLocked`: the count of the parked frames, and the sum of the byte counts.
unfoldable pub host_parked : List (Bytes × PendingReq) → ℕ × ℕ
host_parked [] = (0, 0)
host_parked ((id, pr) ∷ m) =
    let (chunks, bytes) = host_parked m in (length pr.parked + chunks, add64 pr.parked_bytes bytes)

-- The parked frame that is next is taken out of the map.
abbrev pub unpark : PendingReq → Frame → PendingReq
unpark pr f = record pr {
  parked = erase (add64 pr.next_chunk 1) pr.parked;
  parked_bytes = sub64 pr.parked_bytes (weight f);
}

-- Does one more parked frame exceed the bounds of the host?
unfoldable pub is_crowded : RelayLimits → List (Bytes × PendingReq) → Frame → Bool
unfolding host_parked
is_crowded limits pend f =
    let (chunks, bytes) = host_parked pend in
    ltb limits.max_parked (chunks + 1)
    || ltb_ℤ (pos limits.max_parked_bytes) (word_int (add64 bytes (weight f)))

-- A frame that is parked already is not parked again.
abbrev pub keep_parked : PendingReq → Frame → PendingReq
keep_parked pr f = elim (lookup f.chunk_seq pr.parked) [
  | some _ ↦ pr
  | none ↦ record pr {
    parked = insert f.chunk_seq f pr.parked;
    parked_bytes = add64 pr.parked_bytes (weight f);
  }
]

module _ (json : Json) (codec : RelayCodec) (limits : RelayLimits) where
  -- `applyRespondLocked` and the loop of `acceptRespond` behind it. Each round takes out a parked
  -- frame, so their number is fuel enough.
  unfoldable pub apply_all : ℕ → PendingReq → Frame → Applied
  unfolding apply_chunk
  apply_all zero pr f = apply_chunk json codec limits pr f
  apply_all (suc fuel) pr f = elim (apply_chunk json codec limits pr f) [
    | fails reason ↦ fails reason
    | answers resp final_chunk ↦ answers resp final_chunk
    | waits pr' ↦ elim (lookup (add64 pr'.next_chunk 1) pr'.parked) [
      | none ↦ waits pr'
      | some g ↦ apply_all fuel (unpark pr' g) g
    ]
  ]

module _ (json : Json) (codec : RelayCodec) (limits : RelayLimits) (now : ℕ) where
  -- What `applyRespondLocked` does to the tables, and whether the request is over.
  abbrev pub settle : Relay → Bytes → Applied → Relay × Bool
  settle r req_id (waits pr) = (record r { pending = put req_id pr r.pending }, false)
  settle r req_id (fails reason) = (fail_relay_request codec limits now r req_id reason, true)
  settle r req_id (answers resp final_chunk) =
      (resolve_pending limits now r req_id resp final_chunk, true)

  -- A chunk ahead of a gap in `acceptRespond`.
  unfoldable pub park_chunk : Relay → PendingReq → Frame → Relay × Bool × Bool
  unfolding is_crowded
  park_chunk r pr f =
      if is_crowded limits r.pending f
      then (fail_relay_request codec limits now r f.req_id too_many_parked, true, true)
      else (record r { pending = put f.req_id (keep_parked pr f) r.pending }, true, false)

  -- `acceptRespond`, with its results `known` and `notify`
  unfoldable pub accept_respond : Relay → Frame → Relay × Bool × Bool
  unfolding apply_all park_chunk
  accept_respond r f = elim (find f.req_id r.pending) [
    | none ↦ (
      add_abort_tombstone limits now (record r { late_chunks = add64 r.late_chunks 1 }) f.req_id,
      false,
      false,
    )
    | some pr ↦
        if leb f.chunk_seq pr.next_chunk
        then (r, true, false)
        else if ltb (add64 pr.next_chunk 1) f.chunk_seq
        then park_chunk r pr f
        else (
          (settle r f.req_id (apply_all json codec limits (length pr.parked) pr f)).0,
          true,
          true,
        )
  ]

  -- The number that `Respond` and `RespondChunk` give to their frame.
  abbrev pub next_number : Relay → Bytes → ℕ
  next_number r req_id = elim (find req_id r.pending) [ none ↦ 1 | some pr ↦ add64 pr.next_chunk 1 ]

  -- `Respond`
  unfoldable pub respond : Relay → Bytes → RelayResponse → Relay × Bool
  unfolding accept_respond
  respond r req_id resp =
      let f =
        set_respond_status json
          (record (blank_frame type_respond) { req_id = req_id; chunk_seq = next_number r req_id })
          resp.status in
      let (r', known, notify) =
        accept_respond r (if ltb 0 (length resp.body) then record f { body = resp.body } else f) in
      (r', known)

  -- `RespondChunk`
  unfoldable pub respond_chunk : Relay → Bytes → ℤ → Bytes → Bytes → Bool → Relay × Bool
  unfolding accept_respond
  respond_chunk r req_id status encoding chunk more =
      let f = record (blank_frame type_respond) {
        req_id = req_id;
        chunk_seq = next_number r req_id;
        encoding = encoding;
        chunk = chunk;
        more = more;
      } in
      let (r', known, notify) = accept_respond r (set_respond_status json f status) in (r', known)
