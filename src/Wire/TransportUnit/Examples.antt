-- ===== src/Wire/TransportUnit/Examples.antt =====
-- A frame of three bytes, whole and in units of two bytes.
use capri_hub.Common.{◌≡◌, refl, true, false, List, [], ◌∷◌, All, arith}
use capri_hub.Common.Int.{pos}
use capri_hub.Common.Words.{Bytes, IsByte}
use capri_hub.Common.Result.{ok}
use capri_hub.Wire.TransportUnit.{
  TransportUnit, Reassembler, reset, encode_unit, decode_unit, check_unit, read_unit, split_frame,
}
use capri_hub.Wire.TransportUnit.Codec.{IsWellFormed, Fits, decode-encode, encode-decode}
use capri_hub.Wire.TransportUnit.Reassembly.{collect, collect-split_frame}

abbrev whole : TransportUnit
whole = record { flags = 1; frame_id = 9; total = 3; offset = 0; payload = 10 ∷ 11 ∷ 12 ∷ [] }

abbrev half_open : Reassembler
half_open = record { is_open = true; frame_id = 9; total = 5; compressed = false; buf = 1 ∷ [] }

whole-IsWellFormed : IsWellFormed whole
whole-IsWellFormed = record {
  flags = omega arith;
  inside = omega arith;
  fragment = λ e. cc;
  whole = λ e. (refl, refl);
}

whole-Fits : Fits whole
whole-Fits = record { frame_id = omega arith; total = omega arith; offset = omega arith }

decode-encode_example : decode_unit (encode_unit whole) ≡ ok whole
decode-encode_example = decode-encode whole whole-IsWellFormed whole-Fits

collect-split_frame_example :
    (units : List Bytes) × (split_frame (10 ∷ 11 ∷ 12 ∷ []) true 9 (pos 2) ≡ ok units)
    × (collect reset units (pos 64) ≡ (reset, ok ((10 ∷ 11 ∷ 12 ∷ [], true) ∷ [])))
collect-split_frame_example =
    collect-split_frame (10 ∷ 11 ∷ 12 ∷ []) true 9 (pos 2) (pos 64) (omega arith) (omega arith) refl

whole_bytes : All IsByte (encode_unit whole)
unfolding encode_unit
whole_bytes = ground arith

encode-decode_example : (encode_unit whole ≡ encode_unit whole) × IsWellFormed whole × Fits whole
unfolding encode_unit decode_unit check_unit read_unit
encode-decode_example = encode-decode (encode_unit whole) whole whole_bytes refl
