-- ===== src/Hub/Session/Examples.antt =====
-- A session with a request, and one with an audience frame, in flight.
use capri_hub.Common.{
  ℕ, ◌+◌, ◌≤◌, ◌≡◌, ◌≢◌, ◌⊎◌, refl, inl, max, min, true, none, some, [], ◌∷◌, length, take, leb,
  if◌then◌else◌, arith,
}
use capri_hub.Common.Int.{pos}
use capri_hub.Common.Assoc.{lookup}
use capri_hub.Wire.Limits.{default_liveness, default_limits}
use capri_hub.Wire.Frame.{Frame, Json, Audience, type_request}
use capri_hub.Wire.Frame.Build.{blank_frame}
use capri_hub.Wire.Frame.Validate.{encode}
use capri_hub.Wire.Sender.{new_sender, append, append_entry}
use capri_hub.Wire.Sender.Log.{total}
use capri_hub.Hub.Session.{
  SessionProto, ReqAck, new_session_proto, next_seq, ack_down, dispatch_request, expire_requests,
  next_request_deadline, oldest_unacked,
}
use capri_hub.Hub.Session.Invariant.{IsValid, new_session_proto-IsValid, ack_down_lem}
use capri_hub.Hub.Session.Logging.{Appended, logged, logged-IsValid, dispatch_request_lem}
use capri_hub.Hub.Session.Requests.{
  Expired, Later, effective_window, rewrite_at, expire_requests_lem, note_written_deadline,
}
use capri_hub.Hub.Session.Batches.{oldest_unacked_lem}

-- A codec that writes one byte.
abbrev one_byte : Json
one_byte = record {
  marshal_frame = λ f. some (1 ∷ []);
  unmarshal_frame = λ b. none;
  event_seq = λ b. none;
  marshal_status = λ st. none;
  unmarshal_status = λ b. none;
  marshal_code = λ n. none;
  unmarshal_code = λ b. none;
  marshal_trimmed = λ s n. none;
}

abbrev fresh : SessionProto
fresh = new_session_proto default_liveness 1 0 (pos 1500)

fresh-IsValid : IsValid fresh
fresh-IsValid = new_session_proto-IsValid default_liveness 1 0 (pos 1500)

abbrev request : Frame
request = record (blank_frame type_request) { req_id = 97 ∷ []; method = 71 ∷ []; path = 47 ∷ [] }

abbrev snapshot : Audience
snapshot = record { gen = 3; watchers = pos 1; all = true; sessions = [] }

-- The request waits under the number 1, and its deadline is not armed.
abbrev waiting_request : ReqAck
waiting_request = record { req_id = 97 ∷ []; window = pos 1500; deadline = none }

abbrev requested : SessionProto
requested = record (logged fresh (1 ∷ [])) { req_acks = (1, waiting_request) ∷ [] }

requested-IsValid : IsValid requested
unfolding new_session_proto new_sender append append_entry
requested-IsValid =
    let v = (logged-IsValid fresh (1 ∷ []) fresh-IsValid (omega arith)).0 in
    record {
      down = v.down;
      tracked = ((omega arith, omega arith), tt);
      audience = inl refl;
      newest = omega arith;
    }

-- The audience frame with the number 1 carries generation 3, which is not written yet.
abbrev watched : SessionProto
watched = record (logged fresh (1 ∷ [])) {
  audience_seq = 1;
  audience_gen = 3;
  audience_latest = snapshot;
}

ack_down_lem_example :
    let (p', applied) = ack_down requested 7 in
    (applied ≡ max requested.down.acked (min 7 requested.down.next))
    × (p'.down.acked ≡ applied)
    × ((k : ℕ)
        → lookup k p'.req_acks ≡ (if leb k applied then none else lookup k requested.req_acks))
    × IsValid p'
ack_down_lem_example = ack_down_lem requested 7 requested-IsValid

dispatch_request_lem_example :
    let (p', seq, e) =
      dispatch_request one_byte default_limits fresh (97 ∷ []) request (pos 1500) in
    IsValid p'
    × Appended
        (encode one_byte (record request { seq = next_seq fresh; ack = fresh.up.acked }))
        fresh
        p'
        seq
        e
    × ((p' ≡ fresh) ⊎ (lookup seq p'.req_acks ≡ some waiting_request))
unfolding new_session_proto new_sender
dispatch_request_lem_example =
    dispatch_request_lem one_byte default_limits fresh (97 ∷ []) request (pos 1500) fresh-IsValid
      (omega arith)

-- A newer snapshot takes the place of the one in flight.
abbrev newer_snapshot : Audience
newer_snapshot = record snapshot { gen = 4 }

expire_requests_lem_example :
    let (p', out) = expire_requests requested 20 in
    IsValid p'
    × (p'.down ≡ requested.down)
    × Expired 20 requested.req_acks p'.req_acks out
    × (length p'.req_acks + length out ≡ length requested.req_acks)
    × ((expire_requests p' 20).1 ≡ [])
    × Later 20 (next_request_deadline p')
expire_requests_lem_example = expire_requests_lem requested 20 requested-IsValid

note_written_deadline_example :
    lookup 1 (rewrite_at one_byte requested 1 (1 ∷ []) (100 ∷ 900 ∷ [])).req_acks
    ≡ some (record waiting_request {
      deadline = some (100 + effective_window requested.req_ack_deadline waiting_request);
    })
note_written_deadline_example =
    note_written_deadline one_byte requested 1 (1 ∷ []) waiting_request 100 (900 ∷ []) refl refl
      (omega arith, tt)

oldest_unacked_lem_example :
    let batch = oldest_unacked requested 8 1048576 in
    ((size : ℕ) × (batch ≡ take size requested.down.log))
    × (length batch ≤ 8)
    × ((total batch ≤ 1048576) ⊎ (length batch ≤ 1))
    × ((requested.down.log ≡ []) ⊎ (batch ≢ []))
oldest_unacked_lem_example = oldest_unacked_lem requested 8 1048576 requested-IsValid (omega arith)
