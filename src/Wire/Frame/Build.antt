-- ===== src/Wire/Frame/Build.antt =====
-- The frames that the constructors of wire/frame.go build, and their typed views.
use capri_hub.Common.{
  ◌∷◌, refl, length, ℕ, ◌≡◌, ◌≢◌, ◌↔◌, Bool, false, not, Option, none, some, List, [], ◌==◌,
  if◌then◌else◌, then_check-none, arith,
}
use capri_hub.Common.Int.{ℤ, pos}
use capri_hub.Common.Words.{Bytes}
use capri_hub.Common.Text.{bytes_eq}
use capri_hub.Common.Result.{Result, ok, err}
use capri_hub.Wire.Limits.{FrameError, protocol, unencodable, Liveness, Limits}
use capri_hub.Wire.Frame.{
  Frame, Json, Resume, Caps, RelayAck, Audience, HeartbeatStatus, protocol_version, type_hello,
  type_hello_ack, type_audience, type_heartbeat, known_type, reliable,
}
use capri_hub.Wire.Frame.Validate.{validate, validate_shape, validate_type, validate_relay_acks}
use capri_hub.Wire.Frame.Validate.Audiences.{IsAudience, validate_audience-none}

pub record Hello : Type 0 where
  pub epoch : ℕ
  pub token : Bytes
  pub resume : Option Resume
  pub caps : Option Caps

pub record HelloAck : Type 0 where
  pub epoch : ℕ
  pub hub_boot : ℕ
  pub ack_up : ℕ
  pub ack_down : ℕ
  pub audience : Option Audience
  pub liveness : Option Liveness
  pub limits : Option Limits
  pub caps : Option Caps
  pub relay_acks : List RelayAck

-- `Frame{V: ProtocolVersion, Type: t}`: all else is zero.
abbrev pub blank_frame : Bytes → Frame
blank_frame t = record {
  v = pos protocol_version;
  type = t;
  seq = 0;
  ack = 0;
  epoch = 0;
  hub_boot = 0;
  token = [];
  resume = none;
  caps = none;
  ack_up = 0;
  ack_down = 0;
  audience = none;
  liveness = none;
  limits = none;
  events = [];
  gen = 0;
  watchers = pos 0;
  all = false;
  sessions = [];
  req_id = [];
  method = [];
  path = [];
  body = [];
  chunk = [];
  encoding = [];
  more = false;
  chunk_seq = 0;
  relay_acks = [];
  probe = 0;
  probe_ack = 0;
  status = [];
}

-- `NewHello`
abbrev pub new_hello : Hello → Frame
new_hello h = record (blank_frame type_hello) {
  epoch = h.epoch;
  token = h.token;
  resume = h.resume;
  caps = h.caps;
}

-- `NewHelloAck`
abbrev pub new_hello_ack : HelloAck → Frame
new_hello_ack a = record (blank_frame type_hello_ack) {
  epoch = a.epoch;
  hub_boot = a.hub_boot;
  ack_up = a.ack_up;
  ack_down = a.ack_down;
  audience = a.audience;
  liveness = a.liveness;
  limits = a.limits;
  caps = a.caps;
  relay_acks = a.relay_acks;
}

-- `SetAudienceState`
abbrev pub set_audience_state : Frame → Audience → Frame
set_audience_state f a = record f {
  gen = a.gen;
  watchers = a.watchers;
  all = a.all;
  sessions = a.sessions;
}

-- `NewAudience`
abbrev pub new_audience : ℕ → ℕ → Audience → Frame
new_audience seq ack a =
    set_audience_state (record (blank_frame type_audience) { seq = seq; ack = ack }) a

-- `SetHeartbeat`
abbrev pub set_heartbeat : Json → Frame → HeartbeatStatus → Result FrameError Frame
set_heartbeat json f st = elim (json.marshal_status st) [
  | none ↦ err unencodable
  | some b ↦ ok (record f { status = b })
]

-- `NewHeartbeat`
abbrev pub new_heartbeat : Json → ℕ → HeartbeatStatus → Result FrameError Frame
new_heartbeat json ack st =
    set_heartbeat json (record (blank_frame type_heartbeat) { ack = ack }) st

-- The nonce of `NewHeartbeatProbe`.
abbrev pub set_nonce : ℕ → Bool → Frame → Frame
set_nonce nonce ack_probe f =
    if nonce == 0
    then f
    else if ack_probe
    then record f { probe_ack = nonce }
    else record f { probe = nonce }

-- `NewHeartbeatProbe`
abbrev pub new_heartbeat_probe : Json → ℕ → ℕ → HeartbeatStatus → Bool → Result FrameError Frame
new_heartbeat_probe json ack nonce st ack_probe = elim (new_heartbeat json ack st) [
  | err e ↦ err e
  | ok f ↦ ok (set_nonce nonce ack_probe f)
]

-- `Hello`; `none` is the error.
unfoldable pub hello : Frame → Option Hello
hello f =
    if not (bytes_eq f.type type_hello)
    then none
    else some (record { epoch = f.epoch; token = f.token; resume = f.resume; caps = f.caps })

-- `HelloAck`; `none` is the error.
unfoldable pub hello_ack : Frame → Option HelloAck
hello_ack f =
    if not (bytes_eq f.type type_hello_ack)
    then none
    else some (record {
      epoch = f.epoch;
      hub_boot = f.hub_boot;
      ack_up = f.ack_up;
      ack_down = f.ack_down;
      audience = f.audience;
      liveness = f.liveness;
      limits = f.limits;
      caps = f.caps;
      relay_acks = f.relay_acks;
    })

-- `RespondStatus`
unfoldable pub respond_status : Json → Frame → ℤ
respond_status json f =
    if length f.status == 0
    then pos 0
    else elim (json.unmarshal_code f.status) [ none ↦ pos 0 | some code ↦ code ]

-- `SetRespondStatus`
unfoldable pub set_respond_status : Json → Frame → ℤ → Frame
set_respond_status json f code = elim (json.marshal_code code) [
  | none ↦ f
  | some b ↦ record f { status = b }
]

-- `TrimmedEvent`
abbrev pub trimmed_event : Json → Bytes → ℕ → Bytes
trimmed_event json session_id seq = elim (json.marshal_trimmed session_id seq) [
  | none ↦ []
  | some b ↦ b
]

-- The status that is stored is read back, where the codec writes it as text that is not empty and
-- reads that text back.
respond_status_round_trip :
    (json : Json) (f : Frame) (code : ℤ) (b : Bytes)
    → json.marshal_code code ≡ some b
    → b ≢ []
    → json.unmarshal_code b ≡ some code
    → respond_status json (set_respond_status json f code) ≡ code
unfolding respond_status set_respond_status
respond_status_round_trip json f code b written text read =
    rw (set_respond_status, written, respond_status, some_text b text, read) refl
  where
    some_text : (b : Bytes) → b ≢ [] → (length b == 0) ≡ false
    some_text [] text = absurd (text refl)
    some_text (x ∷ xs) text = ground arith

-- An audience frame passes exactly where it has a number and its audience state is sound.
new_audience-none :
    (json : Json) (seq ack : ℕ) (a : Audience)
    → (validate json (new_audience seq ack a) ≡ none) ↔ ((seq ≢ 0) × IsAudience a)
unfolding validate validate_shape validate_type validate_relay_acks bytes_eq known_type reliable
new_audience-none json seq ack a = (
  (λ h.
      let parts = then_check-none _ _ h in
      (numbered seq parts.0, (validate_audience-none a).0 parts.1)),
  (λ h. let (n, sound) = h in rw (unnumbered seq n) ((validate_audience-none a).1 sound)),
)
  where
    numbered : (n : ℕ) → (if n == 0 then some protocol else none) ≡ none → n ≢ 0
    numbered n h z = ground arith

    unnumbered : (n : ℕ) → n ≢ 0 → (n == 0) ≡ false
    unnumbered n h = ground arith
