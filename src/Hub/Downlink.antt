-- ===== src/Hub/Downlink.antt =====
-- internal/hub/writer.go: how the writer puts one logical frame on the transport. `compress/flate`
-- is a parameter, which returns `none` where compression failed.
pub mod Reception
mod Examples
use capri_hub.Common.{
  ℕ, ◌+◌, ◌%◌, ◌^◌, Bool, true, false, ◌&&◌, Option, none, some, List, ltb, leb, if◌then◌else◌,
  length,
}
use capri_hub.Common.Int.{pos}
use capri_hub.Common.Words.{Bytes}
use capri_hub.Common.Result.{Result, ok, err}
use capri_hub.Hub.ControlQueue.{min_down_compress_size}
use capri_hub.Wire.TransportUnit.{UnitError, unit_size, split_frame}

-- What is handed to the transport: one `Send`, a run of `SendFragment`s, or an error.
pub data Plan : Type 0 where
  whole : Bytes → Plan
  fragments : List Bytes → Plan
  refused : UnitError → Plan

abbrev pub plan_of : Result UnitError (List Bytes) → Plan
plan_of (ok units) = fragments units
plan_of (err e) = refused e

-- `nextFrameID`, a `uint32`
abbrev pub next_frame_id : ℕ → ℕ
next_frame_id frame_id = (frame_id + 1) % 2 ^ 32

-- A compressed payload is used where it is shorter.
abbrev pub shorter : Bytes → Option Bytes → Option Bytes
shorter payload none = none
shorter payload (some z) = if ltb (length z) (length payload) then some z else none

-- The payload that `writeFrame` sends compressed, if it does.
unfoldable pub compressed_form : (Bytes → Option Bytes) → Bool → Bytes → Option Bytes
compressed_form deflate enabled payload =
    if enabled && leb min_down_compress_size (length payload)
    then shorter payload (deflate payload)
    else none

-- `writeFrame`, with the frame id of the writer; the control frames in between are not part of it.
unfoldable pub write_frame : (Bytes → Option Bytes) → Bool → ℕ → Bytes → ℕ × Plan
unfolding compressed_form
write_frame deflate enabled frame_id payload =
    let id = next_frame_id frame_id in
    elim (compressed_form deflate enabled payload) [
      | some z ↦ (id, plan_of (split_frame z true id (pos unit_size)))
      | none ↦
          if leb (length payload) unit_size
          then (frame_id, whole payload)
          else (id, plan_of (split_frame payload false id (pos unit_size)))
    ]
