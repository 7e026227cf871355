-- ===== src/Wire/Frame/Examples.antt =====
-- Frames under a toy reading of JSON, which knows one batch of events.
use capri_hub.Common.{ℕ, refl, false, Option, none, some, [], ◌∷◌}
use capri_hub.Common.Int.{ℤ, pos, pos_part}
use capri_hub.Common.Words.{Bytes}
use capri_hub.Common.Text.{bytes_eq}
use capri_hub.Wire.Frame.{Frame, Json, Audience, type_events, known_type, reliable}
use capri_hub.Wire.Frame.Build.{blank_frame}
use capri_hub.Wire.Frame.Validate.{
  check_events, validate_events, validate_shape, validate_relay_acks, validate_type, validate,
  decode,
}
use capri_hub.Wire.Frame.Validate.Envelope.{Passed, decode-Passed}

-- Events 5 and 6.
abbrev batch : Frame
batch = record (blank_frame type_events) { seq = 5; events = (5 ∷ []) ∷ (6 ∷ []) ∷ [] }

abbrev read_frame : Bytes → Option Frame
read_frame [] = none
read_frame (b ∷ bs) = some batch

abbrev read_seq : Bytes → Option ℕ
read_seq [] = none
read_seq (b ∷ bs) = some b

abbrev toy : Json
toy = record {
  marshal_frame = λ f. some (1 ∷ []);
  unmarshal_frame = read_frame;
  event_seq = read_seq;
  marshal_status = λ st. none;
  unmarshal_status = λ b. none;
  marshal_code = λ n. none;
  unmarshal_code = λ b. none;
  marshal_trimmed = λ s n. none;
}

abbrev read_code : Bytes → Option ℤ
read_code [] = none
read_code (b ∷ bs) = some (pos b)

abbrev write_code : ℤ → Option Bytes
write_code n = some (pos_part n ∷ [])

abbrev coded : Json
coded = record toy { marshal_code = write_code; unmarshal_code = read_code }

abbrev two_sessions : Audience
two_sessions = record {
  gen = 3;
  watchers = pos 1;
  all = false;
  sessions = (97 ∷ []) ∷ (97 ∷ 98 ∷ []) ∷ [];
}

decode-Passed_example : Passed toy batch
unfolding decode validate validate_shape validate_relay_acks validate_type validate_events
    check_events bytes_eq known_type reliable
decode-Passed_example = decode-Passed toy (1 ∷ []) batch refl
