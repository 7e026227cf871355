-- ===== src/Hub/Relay/Examples.antt =====
-- An answer in two chunks, of which the second comes first, with a chunk of another answer between.
use capri_hub.Common.{
  ℕ, ◌<◌, ◌≤◌, ◌≡◌, ◌≢◌, refl, inl, inr, true, none, some, List, [], ◌∷◌, ◌==◌, length, arith,
}
use capri_hub.Common.Int.{pos}
use capri_hub.Common.Words.{Bytes}
use capri_hub.Common.Text.{bytes_eq}
use capri_hub.Common.Names.{find, put}
use capri_hub.Wire.Frame.{Frame, Json, type_respond}
use capri_hub.Wire.Frame.Build.{blank_frame, respond_status}
use capri_hub.Hub.Relay.{
  RelayCodec, RelayResponse, PendingReq, fresh_request, Relay, default_relay_limits,
  add_abort_tombstone, add_relay_tombstone, resolve_pending, add_done_tombstone,
}
use capri_hub.Hub.Relay.Table.{answers_of}
use capri_hub.Hub.Relay.Tombstones.{accept_respond-Few}
use capri_hub.Hub.Relay.Respond.{
  waits, apply_chunk, accept_respond, apply_all, park_chunk, is_crowded, host_parked,
}
use capri_hub.Hub.Relay.Respond.Stream.{in_order}
use capri_hub.Hub.Relay.Fate.{has, Verdict, Fate}
use capri_hub.Hub.Relay.Fate.Arrivals.{
  arrive, Arrivals, numbers, arrive-registered, arrive_complete,
}

abbrev json : Json
json = record {
  marshal_frame = λ f. none;
  unmarshal_frame = λ b. none;
  event_seq = λ b. none;
  marshal_status = λ st. none;
  unmarshal_status = λ b. none;
  marshal_code = λ n. none;
  unmarshal_code = λ b. none;
  marshal_trimmed = λ s n. none;
}

abbrev codec : RelayCodec
codec = record { decode_chunk = λ b. some b; is_json = λ b. true; failure_body = λ reason. [] }

abbrev ours : Bytes
ours = 114 ∷ []

abbrev chunk_at : ℕ → Frame
chunk_at k = record (blank_frame type_respond) {
  req_id = ours;
  chunk_seq = k;
  body = k ∷ [];
  more = k == 1;
}

abbrev stray : Frame
stray = record (blank_frame type_respond) { req_id = 115 ∷ []; chunk_seq = 1 }

abbrev nothing_yet : Relay
nothing_yet = record { pending = []; tombstones = []; late_chunks = 0; replies = [] }

abbrev shuffled : List (ℕ × Frame)
shuffled = (10, chunk_at 2) ∷ (11, stray) ∷ (12, chunk_at 1) ∷ (13, chunk_at 2) ∷ []

abbrev registered : Relay
registered = record nothing_yet { pending = put ours fresh_request [] }

in_shuffled : Arrivals chunk_at ours shuffled
unfolding bytes_eq
in_shuffled =
    (inr (refl, omega arith), (inl refl, (inr (refl, omega arith), (inr (refl, omega arith), tt))))

both_arrived : (k : ℕ) → 0 < k → k ≤ 2 → has k (numbers ours [] shuffled) ≡ true
unfolding has numbers bytes_eq
both_arrived k low high = ground arith

two_suffice : (pr : PendingReq) → in_order json codec default_relay_limits chunk_at 2 ≢ waits pr
unfolding in_order apply_chunk respond_status bytes_eq
two_suffice pr h = cc

arrive-registered_example :
    Fate json codec default_relay_limits chunk_at
      (numbers ours [] shuffled)
      ours
      (arrive json codec default_relay_limits registered shuffled)
unfolding answers_of
arrive-registered_example =
    arrive-registered json codec default_relay_limits chunk_at ours nothing_yet shuffled
      (record { number = λ k. refl; name = λ k. refl }) tt in_shuffled refl

arrive_complete_example :
    (resp : RelayResponse) × (find ours
        (arrive json codec default_relay_limits registered shuffled).pending
      ≡ none)
    × (answers_of ours (arrive json codec default_relay_limits registered shuffled).replies
        ≡ resp ∷ [])
    × Verdict json codec default_relay_limits chunk_at resp
unfolding answers_of
arrive_complete_example =
    arrive_complete json codec default_relay_limits chunk_at ours nothing_yet shuffled 2
      (record { number = λ k. refl; name = λ k. refl }) tt in_shuffled refl both_arrived
      (omega arith) two_suffice

accept_respond-Few_example :
    length (accept_respond json codec default_relay_limits 10 registered stray).0.tombstones
    ≤ default_relay_limits.max_tombstones
accept_respond-Few_example =
    accept_respond-Few default_relay_limits 10 json codec registered stray (omega arith)

-- The reply is the two bodies in their order.
shuffled_run :
    (arrive json codec default_relay_limits registered shuffled).replies
    ≡ (ours, record { status = pos 0; body = 1 ∷ 2 ∷ [] }) ∷ []
unfolding arrive accept_respond apply_all park_chunk is_crowded host_parked apply_chunk
    respond_status bytes_eq resolve_pending add_done_tombstone add_relay_tombstone
    add_abort_tombstone
shuffled_run = refl
