-- ===== src/Wire/Frame.antt =====
-- wire/frame.go: the envelope, its validation, and the frames that the constructors build.
-- `encoding/json` is a parameter: a raw message is the bytes that it stands for, and `Json` lists
-- the readings that the source takes from it. A nil pointer is `none`, and a nil slice is `[]`.
pub mod Validate
pub mod Build
mod Examples
use capri_hub.Common.{ℕ, Bool, true, false, ◌||◌, Option, List, [], if◌then◌else◌}
use capri_hub.Common.Int.{ℤ}
use capri_hub.Common.Words.{Bytes}
use capri_hub.Common.Text.{codes, bytes_eq}
use capri_hub.Wire.Limits.{Liveness, Limits}

-- `ProtocolVersion`
abbrev pub protocol_version : ℕ
protocol_version = 2

-- The frame types.
abbrev pub type_hello : Bytes
type_hello = codes "hello"

abbrev pub type_hello_ack : Bytes
type_hello_ack = codes "hello_ack"

abbrev pub type_events : Bytes
type_events = codes "events"

abbrev pub type_audience : Bytes
type_audience = codes "audience"

abbrev pub type_request : Bytes
type_request = codes "request"

abbrev pub type_respond : Bytes
type_respond = codes "respond"

abbrev pub type_heartbeat : Bytes
type_heartbeat = codes "hb"

pub record Resume : Type 0 where
  pub up : ℕ
  pub down : ℕ

pub record Caps : Type 0 where
  pub deflate : Bool
  pub transport_units : Bool
  pub relay_ack : Bool

pub record RelayAck : Type 0 where
  pub req_id : Bytes
  pub chunk : ℕ
  pub done : Bool
  pub abort : Bool

pub record Audience : Type 0 where
  pub gen : ℕ
  pub watchers : ℤ
  pub all : Bool
  pub sessions : List Bytes

pub record HeartbeatStatus : Type 0 where
  pub ready : Bool
  pub busy : Bool
  pub booting : Bool
  pub pending_count : ℤ
  pub port : ℤ

pub record Frame : Type 0 where
  pub v : ℤ
  pub type : Bytes
  pub seq : ℕ
  pub ack : ℕ
  pub epoch : ℕ
  pub hub_boot : ℕ
  pub token : Bytes
  pub resume : Option Resume
  pub caps : Option Caps
  pub ack_up : ℕ
  pub ack_down : ℕ
  pub audience : Option Audience
  pub liveness : Option Liveness
  pub limits : Option Limits
  pub events : List Bytes
  pub gen : ℕ
  pub watchers : ℤ
  pub all : Bool
  pub sessions : List Bytes
  pub req_id : Bytes
  pub method : Bytes
  pub path : Bytes
  pub body : Bytes
  pub chunk : Bytes
  pub encoding : Bytes
  pub more : Bool
  pub chunk_seq : ℕ
  pub relay_acks : List RelayAck
  pub probe : ℕ
  pub probe_ack : ℕ
  pub status : Bytes

-- What the source asks of `encoding/json`; `none` is an error.
pub record Json : Type 0 where
  pub marshal_frame : Frame → Option Bytes
  pub unmarshal_frame : Bytes → Option Frame
  pub event_seq : Bytes → Option ℕ
  pub marshal_status : HeartbeatStatus → Option Bytes
  pub unmarshal_status : Bytes → Option HeartbeatStatus
  pub marshal_code : ℤ → Option Bytes
  pub unmarshal_code : Bytes → Option ℤ
  pub marshal_trimmed : Bytes → ℕ → Option Bytes

-- `Reliable`
unfoldable pub reliable : Bytes → Bool
reliable t = bytes_eq t type_events || bytes_eq t type_audience || bytes_eq t type_request

-- `knownType`
unfoldable pub known_type : Bytes → Bool
known_type t =
    bytes_eq t type_hello
    || bytes_eq t type_hello_ack
    || bytes_eq t type_events
    || bytes_eq t type_audience
    || bytes_eq t type_request
    || bytes_eq t type_respond
    || bytes_eq t type_heartbeat

-- `AudienceState`
abbrev pub audience_state : Frame → Audience
audience_state f = record { gen = f.gen; watchers = f.watchers; all = f.all; sessions = f.sessions }
