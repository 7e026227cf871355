-- ===== src/Wire/Frame/Validate.antt =====
-- The validation of a frame: `validate` and what it calls, and `Encode` and `Decode`.
pub mod Audiences
pub mod Batch
pub mod Envelope
pub mod Shape
use capri_hub.Common.{
  ℕ, zero, suc, ◌≡◌, Bool, true, false, not, ◌&&◌, ◌||◌, Option, none, some, List, [], ◌∷◌, ◌==◌,
  ltb, if◌then◌else◌, ◌then_check◌, length,
}
use capri_hub.Common.Int.{ℤ, pos, negsuc, is_neg}
use capri_hub.Common.Words.{Bytes, add64}
use capri_hub.Common.Text.{bytes_eq, bytes_lt}
use capri_hub.Common.Result.{Result, ok, err}
use capri_hub.Wire.Limits.{
  FrameError, protocol, unreadable, unencodable, Liveness, Limits, validate_liveness,
  validate_limits,
}
use capri_hub.Wire.Frame.{
  Frame, Json, Audience, RelayAck, HeartbeatStatus, type_hello, type_hello_ack, type_events,
  type_audience, type_request, type_respond, type_heartbeat, reliable, known_type, audience_state,
  protocol_version,
}

abbrev pub no_text : Bytes → Bool
no_text [] = true
no_text (b ∷ bs) = false

-- The loop of `Audience.Validate` behind its first session: `previous` is the session before.
unfoldable pub check_sessions : Bytes → List Bytes → Option FrameError
check_sessions previous [] = none
check_sessions previous (s ∷ ss) =
    if no_text s
    then some protocol
    else if not (bytes_lt previous s)
    then some protocol
    else check_sessions s ss

-- The loop of `Audience.Validate`.
unfoldable pub check_all_sessions : List Bytes → Option FrameError
unfolding check_sessions
check_all_sessions [] = none
check_all_sessions (s ∷ ss) = if no_text s then some protocol else check_sessions s ss

-- `Audience.Validate`
unfoldable pub validate_audience : Audience → Option FrameError
validate_audience a =
    if a.gen == 0
    then some protocol
    else if is_neg a.watchers
    then some protocol
    else if a.all && ltb 0 (length a.sessions)
    then some protocol
    else check_all_sessions a.sessions

-- `validateRelayAcks`
unfoldable pub validate_relay_acks : List RelayAck → Option FrameError
validate_relay_acks [] = none
validate_relay_acks (a ∷ acks) =
    if no_text a.req_id
    then some protocol
    else if a.done && a.abort
    then some protocol
    else validate_relay_acks acks

abbrev pub is_version : ℤ → Bool
is_version (pos n) = n == protocol_version
is_version (negsuc n) = false

abbrev pub is_none {ℓ} : {A : Type ℓ} → Option A → Bool
is_none none = true
is_none (some a) = false

-- The checks of `validate` on which fields a type may carry, in front of its `switch`.
unfoldable pub validate_shape : Frame → Option FrameError
validate_shape f =
    if not (known_type f.type)
    then some protocol
    else if reliable f.type && (f.seq == 0)
    then some protocol
    else if not (reliable f.type) && not (f.seq == 0)
    then some protocol
    else if not (bytes_eq f.type type_hello)
        && not (bytes_eq f.type type_hello_ack)
        && not (f.epoch == 0)
    then some protocol
    else if not (bytes_eq f.type type_hello_ack) && not (f.hub_boot == 0)
    then some protocol
    else if not (bytes_eq f.type type_heartbeat) && (not (f.probe == 0) || not (f.probe_ack == 0))
    then some protocol
    else if not (bytes_eq f.type type_respond) && not (f.chunk_seq == 0)
    then some protocol
    else if not (bytes_eq f.type type_heartbeat)
        && not (bytes_eq f.type type_hello_ack)
        && ltb 0 (length f.relay_acks)
    then some protocol
    else validate_relay_acks f.relay_acks

-- The parts of a hello_ack, which may not be nil.
unfoldable pub check_ack_parts :
    Option Audience → Option Liveness → Option Limits → Option FrameError
check_ack_parts (some a) (some l) (some m) =
    validate_audience a then_check (validate_liveness l then_check validate_limits m)
check_ack_parts _ _ _ = some protocol

module _ (json : Json) where
  -- The loop of `ValidateEvents`.
  unfoldable pub check_events : ℕ → List Bytes → Option FrameError
  check_events seq [] = none
  check_events seq (raw ∷ raws) =
      let rest = check_events (add64 seq 1) raws in
      elim (json.event_seq raw) [
        | none ↦ some unreadable
        | some n ↦ if not (n == seq) then some unreadable else rest
      ]

  -- `ValidateEvents`
  unfoldable pub validate_events : Frame → Option FrameError
  unfolding check_events
  validate_events f = if length f.events == 0 then some protocol else check_events f.seq f.events

  -- `Heartbeat`
  unfoldable pub heartbeat : Frame → Result FrameError HeartbeatStatus
  heartbeat f =
      if no_text f.status
      then err protocol
      else elim (json.unmarshal_status f.status) [ none ↦ err unreadable | some st ↦ ok st ]

  -- The `switch` of `validate`, on the type `t` of the frame.
  unfoldable pub validate_type : Bytes → Frame → Option FrameError
  validate_type t f =
      if bytes_eq t type_hello
      then (if f.epoch == 0
          then some protocol
          else if is_none f.resume
          then some protocol
          else none)
      else if bytes_eq t type_hello_ack
      then (if f.epoch == 0
          then some protocol
          else if f.hub_boot == 0
          then some protocol
          else check_ack_parts f.audience f.liveness f.limits)
      else if bytes_eq t type_events
      then validate_events f
      else if bytes_eq t type_audience
      then validate_audience (audience_state f)
      else if bytes_eq t type_request
      then (if no_text f.req_id || no_text f.method || no_text f.path then some protocol else none)
      else if bytes_eq t type_respond
      then (if no_text f.req_id
          then some protocol
          else if f.chunk_seq == 0
          then some protocol
          else none)
      else if bytes_eq t type_heartbeat
      then (elim (heartbeat f) [ ok st ↦ none | err e ↦ some e ])
      else none

  -- `validate`
  unfoldable pub validate : Frame → Option FrameError
  validate f =
      if not (is_version f.v)
      then some protocol
      else validate_shape f then_check validate_type f.type f

  -- `Encode`
  unfoldable pub encode : Frame → Result FrameError Bytes
  encode f = elim (validate f) [
    | some e ↦ err e
    | none ↦ elim (json.marshal_frame f) [ none ↦ err unencodable | some b ↦ ok b ]
  ]

  -- `Decode`
  unfoldable pub decode : Bytes → Result FrameError Frame
  decode b = elim (json.unmarshal_frame b) [
    | none ↦ err unreadable
    | some f ↦ elim (validate f) [ some e ↦ err e | none ↦ ok f ]
  ]
