-- ===== src/Hub/Session/Snapshots.antt =====
-- `pushAudience`: one frame in flight carries the latest snapshot of the audience.
pub mod Placing
use capri_hub.Common.{
  ℕ, sym, subst, ◌∙◌, Bool, false, Option, none, List, [], ◌∷◌, ◌++◌, leb, ◌==◌, if◌then◌else◌, All,
}
use capri_hub.Common.Words.{Bytes}
use capri_hub.Common.Result.{Result, ok, err}
use capri_hub.Wire.Limits.{Limits, FrameError}
use capri_hub.Wire.Frame.{Json, Audience}
use capri_hub.Wire.Frame.Build.{new_audience}
use capri_hub.Wire.Frame.Validate.{encode}
use capri_hub.Wire.Sender.{Sender, append, elide}
use capri_hub.Wire.Sender.Log
use capri_hub.Wire.Sender.Log.{append_lem}
use capri_hub.Wire.Sender.Elide.{Exchanged, elide_lem, elide-IsValid}
use capri_hub.Hub.Session.{
  ReqAck, SessionProto, LogError, next_seq, over_budget, append_audience, replace_audience,
}
use capri_hub.Hub.Session.Invariant.{InFlight, Tracked}
use capri_hub.Hub.Session.Logging.{logged, log_payload_lem, logged-IsValid, number}

module _ (json : Json) (limits : Limits) where
  -- What `pushAudience` does with a state whose stale frame is forgotten.
  abbrev place : SessionProto → Audience → SessionProto × (ℕ × Bool) × Option LogError
  place q a =
      if q.audience_seq == 0
      then append_audience json limits q a
      else if leb a.gen q.audience_gen
      then (q, (q.audience_seq, false), none)
      else replace_audience json limits q a
