-- ===== src/Wire/Frame/Validate/Envelope.antt =====
-- What `Encode` and `Decode` promise of the frames that they let pass.
use capri_hub.Common.{
  ℕ, ◌*◌, ◌^◌, ◌≡◌, ◌≢◌, refl, subst, ap, ◌∙◌, Bool, true, false, not, Option, none, some, [], ◌==◌,
  if◌then◌else◌, guard-none, then_check-none, arith,
}
use capri_hub.Common.Int.{ℤ, pos, negsuc, pos_part}
use capri_hub.Common.Words.{Bytes}
use capri_hub.Common.Text.{bytes_eq}
use capri_hub.Common.Result.{Result, ok, err}
use capri_hub.Wire.Limits.{FrameError, protocol, unreadable, Liveness, Limits}
use capri_hub.Wire.Limits.Ranges.{InRange, validate_liveness-none, validate_limits-none}
use capri_hub.Wire.Frame.{
  Frame, Json, Audience, HeartbeatStatus, type_hello, type_hello_ack, type_events, type_audience,
  type_request, type_respond, type_heartbeat, audience_state,
}
use capri_hub.Wire.Frame.Validate.{
  no_text, is_none, is_version, check_ack_parts, heartbeat, validate_type, validate, decode,
}
use capri_hub.Wire.Frame.Validate.Shape.{IsShaped, validate_shape-IsShaped, neither}
use capri_hub.Wire.Frame.Validate.Audiences.{
  NonEmpty, no_text-NonEmpty, IsAudience, validate_audience-none,
}
use capri_hub.Wire.Frame.Validate.Batch.{InRun, validate_events-none}

-- The parts of a hello_ack are all there and lie in their ranges.
abbrev pub HasAckParts : Option Audience → Option Liveness → Option Limits → Type 0
HasAckParts (some a) (some l) (some m) =
    IsAudience a
    × InRange 1 60 l.keepalive
    × InRange (2 * pos_part l.keepalive) 300 l.idle
    × InRange (2 ^ 10) (2 ^ 26) m.max_frame
    × InRange (2 ^ 10) (2 ^ 28) m.max_relay_body
    × InRange 1 (2 ^ 20) m.resume_window
HasAckParts _ _ _ = ⊥

check_ack_parts-HasAckParts :
    (a : Option Audience) (l : Option Liveness) (m : Option Limits)
    → check_ack_parts a l m ≡ none
    → HasAckParts a l m
unfolding check_ack_parts
check_ack_parts-HasAckParts none l m h = cc
check_ack_parts-HasAckParts (some a) none m h = cc
check_ack_parts-HasAckParts (some a) (some l) none h = cc
check_ack_parts-HasAckParts (some a) (some l) (some m) h =
    let (audience, rest) = then_check-none _ _ h in
    let (liveness, limits) = then_check-none _ _ rest in
    let (keepalive, idle) = (validate_liveness-none l).0 liveness in
    let (frame, body, window) = (validate_limits-none m).0 limits in
    ((validate_audience-none a).0 audience, keepalive, idle, frame, body, window)

module _ (json : Json) where
  -- What a passed frame of each type carries.
  pub record Passed (f : Frame) : Type 0 where
    pub version : f.v ≡ pos 2
    pub shaped : IsShaped f
    pub hello : f.type ≡ type_hello → (f.epoch ≢ 0) × (is_none f.resume ≡ false)
    pub hello_ack :
        f.type ≡ type_hello_ack
        → (f.epoch ≢ 0) × (f.hub_boot ≢ 0) × HasAckParts f.audience f.liveness f.limits
    pub events : f.type ≡ type_events → (f.events ≢ []) × InRun json f.seq f.events
    pub audience : f.type ≡ type_audience → IsAudience (audience_state f)
    pub request : f.type ≡ type_request → NonEmpty f.req_id × NonEmpty f.method × NonEmpty f.path
    pub respond : f.type ≡ type_respond → NonEmpty f.req_id × (f.chunk_seq ≢ 0)
    pub status :
        f.type ≡ type_heartbeat
        → NonEmpty f.status × ((st : HeartbeatStatus) × (json.unmarshal_status f.status ≡ some st))

  nonzero : (n : ℕ) → (n == 0) ≡ false → n ≢ 0
  nonzero n h e = ground arith

  version_lem : (v : ℤ) → not (is_version v) ≡ false → v ≡ pos 2
  version_lem (pos n) h = ap pos (ground arith)
  version_lem (negsuc n) h = absurd (ground arith)

  events_lem :
      (f : Frame) (t : Bytes)
      → t ≡ type_events
      → validate_type json t f ≡ none
      → (f.events ≢ []) × InRun json f.seq f.events
  unfolding validate_type bytes_eq
  events_lem f t e h = (validate_events-none json f).0 (rw e at h)

  audience_lem :
      (f : Frame) (t : Bytes)
      → t ≡ type_audience
      → validate_type json t f ≡ none
      → IsAudience (audience_state f)
  unfolding validate_type bytes_eq
  audience_lem f t e h = (validate_audience-none (audience_state f)).0 (rw e at h)

  respond_lem :
      (f : Frame) (t : Bytes)
      → t ≡ type_respond
      → validate_type json t f ≡ none
      → NonEmpty f.req_id × (f.chunk_seq ≢ 0)
  unfolding validate_type bytes_eq
  respond_lem f t e h =
      let (named, rest) = guard-none _ _ _ (rw e at h) in
      let (counted, nothing) = guard-none _ _ _ rest in
      (no_text-NonEmpty f.req_id named, nonzero f.chunk_seq counted)

  hello_lem :
      (f : Frame) (t : Bytes)
      → t ≡ type_hello
      → validate_type json t f ≡ none
      → (f.epoch ≢ 0) × (is_none f.resume ≡ false)
  unfolding validate_type bytes_eq
  hello_lem f t e h =
      let (epoch, rest) = guard-none _ _ _ (rw e at h) in
      let (resume, nothing) = guard-none _ _ _ rest in (nonzero f.epoch epoch, resume)

  hello_ack_lem :
      (f : Frame) (t : Bytes)
      → t ≡ type_hello_ack
      → validate_type json t f ≡ none
      → (f.epoch ≢ 0) × (f.hub_boot ≢ 0) × HasAckParts f.audience f.liveness f.limits
  unfolding validate_type bytes_eq
  hello_ack_lem f t e h =
      let (epoch, rest) = guard-none _ _ _ (rw e at h) in
      let (boot, parts) = guard-none _ _ _ rest in
      (
        nonzero f.epoch epoch,
        nonzero f.hub_boot boot,
        check_ack_parts-HasAckParts f.audience f.liveness f.limits parts,
      )

  request_lem :
      (f : Frame) (t : Bytes)
      → t ≡ type_request
      → validate_type json t f ≡ none
      → NonEmpty f.req_id × NonEmpty f.method × NonEmpty f.path
  unfolding validate_type bytes_eq
  request_lem f t e h =
      let (named, nothing) = guard-none _ _ _ (rw e at h) in
      let (first, path) = neither _ _ named in
      let (req_id, method) = neither _ _ first in
      (
        no_text-NonEmpty f.req_id req_id,
        no_text-NonEmpty f.method method,
        no_text-NonEmpty f.path path,
      )

  status_lem :
      (f : Frame) (t : Bytes)
      → t ≡ type_heartbeat
      → validate_type json t f ≡ none
      → NonEmpty f.status × ((st : HeartbeatStatus) × (json.unmarshal_status f.status ≡ some st))
  unfolding validate_type bytes_eq heartbeat
  status_lem f t e h =
      read (no_text f.status) (json.unmarshal_status f.status) refl refl (rw e at h)
    where
      read :
          (b : Bool) (o : Option HeartbeatStatus)
          → no_text f.status ≡ b
          → json.unmarshal_status f.status ≡ o
          → elim (if b then err protocol else elim o as (λ x. Result FrameError HeartbeatStatus) [
            | none ↦ err unreadable
            | some st ↦ ok st
          ])
              as (λ x. Option FrameError) [ ok st ↦ none | err e ↦ some e ]
            ≡ none
          → NonEmpty f.status
            × ((st : HeartbeatStatus) × (json.unmarshal_status f.status ≡ some st))
      read true o b r h = absurd (ground arith)
      read false none b r h = absurd (ground arith)
      read false (some st) b r h = (no_text-NonEmpty f.status b, (st, r))

  validate-Passed : (f : Frame) → validate json f ≡ none → Passed f
  unfolding validate
  validate-Passed f h =
      let (version, checked) = guard-none _ _ _ h in
      let parts = then_check-none _ _ checked in
      record {
        version = version_lem f.v version;
        shaped = validate_shape-IsShaped f parts.0;
        hello = λ e. hello_lem f f.type e parts.1;
        hello_ack = λ e. hello_ack_lem f f.type e parts.1;
        events = λ e. events_lem f f.type e parts.1;
        audience = λ e. audience_lem f f.type e parts.1;
        request = λ e. request_lem f f.type e parts.1;
        respond = λ e. respond_lem f f.type e parts.1;
        status = λ e. status_lem f f.type e parts.1;
      }

  -- A frame that `Decode` returns is what the bytes stand for, and has passed `validate`.
  decode_lem :
      (b : Bytes) (f : Frame)
      → decode json b ≡ ok f
      → (json.unmarshal_frame b ≡ some f) × (validate json f ≡ none)
  unfolding decode
  decode_lem b f h = read (json.unmarshal_frame b) refl h
    where
      checked :
          (g : Frame) (v : Option FrameError)
          → validate json g ≡ v
          → elim v [ some e ↦ err e | none ↦ ok g ] ≡ ok f
          → (g ≡ f) × (validate json f ≡ none)
      checked g none e h =
          let same : g ≡ f = cc in (same, subst (λ x. validate json x ≡ none) same e)
      checked g (some x) e h = absurd (ground arith)

      read :
          (o : Option Frame)
          → json.unmarshal_frame b ≡ o
          → elim o [
            | none ↦ err unreadable
            | some g ↦ elim (validate json g) [ some e ↦ err e | none ↦ ok g ]
          ]
            ≡ ok f
          → (json.unmarshal_frame b ≡ some f) × (validate json f ≡ none)
      read none e h = absurd (ground arith)
      read (some g) e h =
          let (same, v) = checked g (validate json g) refl h in (e ∙ ap some same, v)

  -- A frame that `Decode` returns is of version 2 and of a known type, has a number exactly where
  -- its type is reliable, and carries an epoch, a hub boot, probes, a chunk number and relay
  -- acknowledgements only where its type may; each relay acknowledgement is sound. A hello has an
  -- epoch and a resume state; a hello_ack an epoch, a hub boot, and an audience, liveness and limits
  -- in their ranges; events are the run of the frame's number; an audience state is sound; a request
  -- has an id, a method and a path; an answer names its request and counts its chunk; a heartbeat's
  -- status can be read.
  pub decode-Passed : (b : Bytes) (f : Frame) → decode json b ≡ ok f → Passed f
  decode-Passed b f h = validate-Passed f (decode_lem b f h).1
