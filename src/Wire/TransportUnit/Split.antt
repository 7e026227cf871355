-- ===== src/Wire/TransportUnit/Split.antt =====
-- The units that `SplitFrame` writes, one by one, at the reassembler.
use Prim.Native.Nat.{bit_or}
use capri_hub.Common.{
  ℕ, zero, suc, ◌+◌, ◌-◌, ◌^◌, ◌≤◌, ◌<◌, ◌≡◌, refl, ap, ap₂, ◌∙◌, Bool, true, false, ◌&&◌, [], ltb,
  ◌==◌, if◌then◌else◌, length, take, drop, length-take, take-append-slice, take_of_length-le, arith,
}
use capri_hub.Common.Int.{ℤ, pos, ltb_ℤ, pos_part}
use capri_hub.Common.Words.{Bytes, IsU32}
use capri_hub.Common.Result.{ok}
use capri_hub.Wire.TransportUnit.{
  TransportUnit, Reassembler, reset, has_flag, encode_unit, unit_fragment, unit_compressed, finish,
  add_fragment, accept_unit, accept, same_flag,
}
use capri_hub.Wire.TransportUnit.Codec.{IsWellFormed, Fits, decode-encode}

abbrev pub frame_flags : Bool → ℕ
frame_flags compressed = if compressed then bit_or 0 unit_compressed else 0

frag_flags :
    (compressed : Bool)
    → let flags = bit_or (frame_flags compressed) unit_fragment in
      (has_flag flags unit_fragment ≡ true)
      × (has_flag flags unit_compressed ≡ compressed)
      × (flags < 4)
frag_flags true = (refl, refl, omega arith)
frag_flags false = (refl, refl, omega arith)

same_flag_refl : (b : Bool) → same_flag b b ≡ true
same_flag_refl true = refl
same_flag_refl false = refl

-- A total that `maxFrame` allows.
abbrev pub Allows : ℤ → ℕ → Type 0
Allows max_frame total = (ltb_ℤ (pos 0) max_frame && ltb (pos_part max_frame) total) ≡ false

module _ (payload : Bytes) (compressed : Bool) (frame_id : ℕ) where
  -- The fragment of the frame that holds `[off, end)`.
  abbrev pub fragment : ℕ → ℕ → TransportUnit
  fragment off end = record {
    flags = bit_or (frame_flags compressed) unit_fragment;
    frame_id = frame_id;
    total = length payload;
    offset = off;
    payload = take (end - off) (drop off payload);
  }

  -- The reassembler that holds the frame up to `off`.
  abbrev pub opened : ℕ → Reassembler
  opened off = record {
    is_open = true;
    frame_id = frame_id;
    total = length payload;
    compressed = compressed;
    buf = take off payload;
  }

  abbrev pub held : ℕ → Reassembler
  held zero = reset
  held (suc off) = opened (suc off)

  module _ (short : length payload < 2 ^ 32) (word : IsU32 frame_id) where
    fragment-IsWellFormed :
        (off end : ℕ) → off < end → end ≤ length payload → IsWellFormed (fragment off end)
    fragment-IsWellFormed off end h e =
        let size = length-take (end - off) (drop off payload) in
        record {
          flags = (frag_flags compressed).2;
          inside = omega (arith, size);
          fragment = λ f z. omega arith;
          whole = λ f. cc ((frag_flags compressed).0, f);
        }

    add_fragment-held :
        (off end : ℕ)
        → off < end
        → end ≤ length payload
        → add_fragment (held off) (fragment off end) ≡ finish (opened end)
    unfolding add_fragment
    add_fragment-held zero end h e =
        let whole : end - 0 ≡ end = omega arith in
        ap₂
          (λ c n. finish (record {
            is_open = true;
            frame_id = frame_id;
            total = length payload;
            compressed = c;
            buf = take n payload;
          }))
          (frag_flags compressed).1 whole
    add_fragment-held (suc off) end h e =
        let same_id : (frame_id == frame_id) ≡ true = ground arith in
        let size = length-take (suc off) payload in
        let in_place : (suc off == length (take (suc off) payload)) ≡ true = ground arith in
        let longer : suc off + (end - suc off) ≡ end = omega arith in
        rw (same_id, (frag_flags compressed).1, same_flag_refl, in_place)
          (ap
            (λ b. finish (record {
              is_open = true;
              frame_id = frame_id;
              total = length payload;
              compressed = compressed;
              buf = b;
            }))
            (take-append-slice (suc off) (end - suc off) payload ∙ ap (λ k. take k payload) longer))

    -- The next fragment extends the frame that the reassembler holds.
    pub accept_fragment :
        (off end : ℕ) (max_frame : ℤ)
        → off < end
        → end ≤ length payload
        → Allows max_frame (length payload)
        → accept (held off) (encode_unit (fragment off end)) max_frame ≡ finish (opened end)
    unfolding accept accept_unit
    accept_fragment off end max_frame h e allowed =
        rw (decode-encode (fragment off end) (fragment-IsWellFormed off end h e) fits, accept)
          (rw (allowed, (frag_flags compressed).0) (add_fragment-held off end h e))
      where
        fits : Fits (fragment off end)
        fits = record { frame_id = word; total = short; offset = omega arith }

  pub finish_more :
      (end : ℕ)
      → end < length payload
      → finish (opened end)
        ≡ (opened end, ok (record { frame = []; compressed = compressed; complete = false }))
  unfolding finish
  finish_more end h =
      let size = length-take end payload in
      let more : ltb (length (take end payload)) (length payload) ≡ true = ground arith in rw more

  pub finish_done :
      finish (opened (length payload))
      ≡ (reset, ok (record { frame = payload; compressed = compressed; complete = true }))
  unfolding finish
  finish_done =
      let size = take_of_length-le (length payload) payload (omega arith) in rw size (ground arith)
