-- ===== src/Wire/TransportUnit/Reassembly.antt =====
-- A frame that `SplitFrame` cuts up is put together again by `Reassembler.Accept`, and complete
-- units pass between its fragments.
use native.Mathlib.Decide.{dec_lt}
use capri_hub.Common.{
  ℕ, zero, suc, ◌+◌, ◌-◌, ◌^◌, ◌≤◌, ◌<◌, ◌≡◌, inl, inr, refl, sym, ap, ◌∙◌, Bool, true, false, ◌&&◌,
  List, [], ◌∷◌, ltb, leb, ◌==◌, if◌then◌else◌, length, Bool-cases, arith,
}
use capri_hub.Common.Int.{ℤ, pos, negsuc, ltb_ℤ, pos_part}
use capri_hub.Common.Words.{Bytes, IsU32}
use capri_hub.Common.Result.{Result, ok, err}
use capri_hub.Wire.TransportUnit.{
  TransportUnit, UnitError, Reassembler, Progress, reset, has_flag, encode_unit, unit_fragment,
  unit_compressed, unit_size, accept_unit, accept, completes_open, split_loop, split_frame,
}
use capri_hub.Wire.TransportUnit.Codec.{IsWellFormed, Fits, decode-encode}
use capri_hub.Wire.TransportUnit.Split.{
  Allows, frame_flags, fragment, held, opened, accept_fragment, finish_more, finish_done,
}

-- A whole frame with its compressed flag.
abbrev pub Frame : Type 0
Frame = Bytes × Bool

abbrev prepend : Progress → Result UnitError (List Frame) → Result UnitError (List Frame)
prepend p (err e) = err e
prepend p (ok frames) = ok (if p.complete then (p.frame, p.compressed) ∷ frames else frames)

-- The whole frames that a reassembler returns for units that arrive in turn, up to an error.
unfoldable pub collect : Reassembler → List Bytes → ℤ → Reassembler × Result UnitError (List Frame)
collect r [] max_frame = (r, ok [])
collect r (u ∷ us) max_frame =
    let rest = collect (accept r u max_frame).0 us max_frame in
    elim (accept r u max_frame).1 [
      | err e ↦ ((accept r u max_frame).0, err e)
      | ok p ↦ (rest.0, prepend p rest.1)
    ]

abbrev joined :
    Reassembler × Result UnitError Progress
    → List Bytes
    → ℤ
    → Reassembler × Result UnitError (List Frame)
joined out us max_frame = elim out.1 [
  | err e ↦ (out.0, err e)
  | ok p ↦ ((collect out.0 us max_frame).0, prepend p (collect out.0 us max_frame).1)
]

collect-accept :
    (r r' : Reassembler) (u : Bytes) (us : List Bytes) (max_frame : ℤ) (p : Progress)
    → accept r u max_frame ≡ (r', ok p)
    → collect r (u ∷ us) max_frame
      ≡ ((collect r' us max_frame).0, prepend p (collect r' us max_frame).1)
unfolding collect
collect-accept r r' u us max_frame p e = ap (λ out. joined out us max_frame) e

module _ (payload : Bytes) (compressed : Bool) (frame_id : ℕ) (size : ℕ) (max_frame : ℤ)
    (short : length payload < 2 ^ 32) (word : IsU32 frame_id) (room : 0 < size)
    (allowed : Allows max_frame (length payload)) where
  abbrev units_from : ℕ → ℕ → List Bytes
  units_from fuel off = split_loop fuel payload (frame_flags compressed) frame_id size off

  units_from_end : (fuel off : ℕ) → length payload ≤ off → units_from fuel off ≡ []
  unfolding split_loop
  units_from_end zero off h = refl
  units_from_end (suc fuel) off h =
      let past : ltb off (length payload) ≡ false = ground arith in rw past

  units_from_more :
      (fuel off : ℕ)
      → off + size < length payload
      → units_from (suc fuel) off
        ≡ encode_unit (fragment payload compressed frame_id off (off + size))
          ∷ units_from fuel (off + size)
  unfolding split_loop
  units_from_more fuel off h =
      let inside : ltb off (length payload) ≡ true = ground arith in
      let full : ltb size (length payload - off) ≡ true = ground arith in rw (inside, full)

  units_from_last :
      (fuel off : ℕ)
      → off < length payload
      → length payload ≤ off + size
      → units_from (suc fuel) off
        ≡ encode_unit (fragment payload compressed frame_id off (length payload)) ∷ []
  unfolding split_loop
  units_from_last fuel off h last =
      let inside : ltb off (length payload) ≡ true = ground arith in
      let partial : ltb size (length payload - off) ≡ false = ground arith in
      rw (inside, partial)
        (ap (◌∷◌ (encode_unit (fragment payload compressed frame_id off (length payload))))
          (units_from_end fuel (off + size) last))

  held_pos :
      (n : ℕ) → 0 < n → held payload compressed frame_id n ≡ opened payload compressed frame_id n
  held_pos zero h = absurd (omega arith)
  held_pos (suc n) h = refl

  -- What is left of a frame that is held up to `off` completes it.
  units_from_collected :
      (fuel off : ℕ)
      → off < length payload
      → length payload ≤ off + fuel
      → collect (held payload compressed frame_id off) (units_from fuel off) max_frame
        ≡ (reset, ok ((payload, compressed) ∷ []))
  units_from_collected zero off h e = absurd (omega arith)
  units_from_collected (suc fuel) off h e = elim (dec_lt (off + size) (length payload)) [
    | yes more ↦
        let next = held_pos (off + size) (omega arith) in
        let step =
          accept_fragment payload compressed frame_id short word off (off + size) max_frame
            (omega arith) (omega arith) allowed
          ∙ finish_more payload compressed frame_id (off + size) more in
        let rest = units_from_collected fuel (off + size) more (omega arith) in
        rw (units_from_more fuel off more) (
          collect-accept _ _ _ (units_from fuel (off + size)) max_frame _ step
          ∙ ap
              (λ out. (
                out.0,
                prepend (record { frame = []; compressed = compressed; complete = false }) out.1,
              ))
              (ap (λ r. collect r (units_from fuel (off + size)) max_frame) (sym next) ∙ rest))
    | no last ↦
        let step =
          accept_fragment payload compressed frame_id short word off (length payload) max_frame h
            (omega arith) allowed
          ∙ finish_done payload compressed frame_id in
        rw (units_from_last fuel off h (omega arith))
          (collect-accept _ _ _ [] max_frame _ step ∙ unfold collect in refl)
  ]

whole_flags :
    (compressed : Bool)
    → (has_flag (frame_flags compressed) unit_fragment ≡ false)
      × (has_flag (frame_flags compressed) unit_compressed ≡ compressed)
      × (frame_flags compressed < 4)
whole_flags true = (refl, refl, omega arith)
whole_flags false = (refl, refl, omega arith)

-- A complete unit is delivered at once and leaves the open frame alone, unless it reuses that
-- frame's id; then it is refused without a change.
accept_complete :
    (r : Reassembler) (u : TransportUnit) (max_frame : ℤ)
    → IsWellFormed u
    → Fits u
    → has_flag u.flags unit_fragment ≡ false
    → Allows max_frame u.total
    → accept r (encode_unit u) max_frame ≡ (
        if r.is_open && (u.frame_id == r.frame_id) then (r, err completes_open) else (
          r,
          ok (record {
            frame = u.payload;
            compressed = has_flag u.flags unit_compressed;
            complete = true;
          }),
        ))
unfolding accept accept_unit
accept_complete r u max_frame w f whole allowed =
    rw (decode-encode u w f, accept) (rw (allowed, whole))

abbrev unit_limit : ℤ → ℕ
unit_limit size = if ltb_ℤ size (pos 1) then unit_size else pos_part size

unit_limit_pos : (size : ℤ) → 0 < unit_limit size
unit_limit_pos (pos n) = ground arith
unit_limit_pos (negsuc n) = ground arith

whole_unit-IsWellFormed :
    (payload : Bytes) (compressed : Bool) (frame_id : ℕ)
    → IsWellFormed (record {
      flags = frame_flags compressed;
      frame_id = frame_id;
      total = length payload;
      offset = 0;
      payload = payload;
    })
whole_unit-IsWellFormed payload compressed frame_id = record {
  flags = (whole_flags compressed).2;
  inside = omega arith;
  fragment = λ f. cc ((whole_flags compressed).0, f);
  whole = λ f. (refl, refl);
}

-- Whatever the unit size, a frame below 2 ^ 32 bytes is split without an error, and its units, in
-- order, make a reassembler with no open frame return exactly that frame with its compressed flag
-- and nothing else, and leave it with no open frame. The frame's length must be one that
-- `maxFrame` allows.
pub collect-split_frame :
    (payload : Bytes) (compressed : Bool) (frame_id : ℕ) (size max_frame : ℤ)
    → length payload < 2 ^ 32
    → IsU32 frame_id
    → Allows max_frame (length payload)
    → (units : List Bytes) × (split_frame payload compressed frame_id size ≡ ok units)
      × (collect reset units max_frame ≡ (reset, ok ((payload, compressed) ∷ [])))
unfolding split_frame
collect-split_frame payload compressed frame_id size max_frame short word allowed =
    elim (Bool-cases (leb (length payload) (unit_limit size))) [
      | inl small ↦ (
        encode_unit whole ∷ [],
        rw (in_range, small),
        collect-accept reset reset (encode_unit whole) [] max_frame
              (record { frame = payload; compressed = compressed; complete = true }) passes
            ∙ unfold collect in refl,
      )
      | inr large ↦ (
        split_loop (length payload) payload (frame_flags compressed) frame_id (unit_limit size) 0,
        rw (in_range, large),
        units_from_collected payload compressed frame_id (unit_limit size) max_frame short word
            (unit_limit_pos size) allowed (length payload) 0 (ground arith) (omega arith),
      )
    ]
  where
    in_range : ltb (2 ^ 32 - 1) (length payload) ≡ false
    in_range = ground arith

    whole : TransportUnit
    whole = record {
      flags = frame_flags compressed;
      frame_id = frame_id;
      total = length payload;
      offset = 0;
      payload = payload;
    }

    passes :
        accept reset (encode_unit whole) max_frame
        ≡ (reset, ok (record { frame = payload; compressed = compressed; complete = true }))
    passes =
        accept_complete reset whole max_frame (whole_unit-IsWellFormed payload compressed frame_id)
          (record { frame_id = word; total = short; offset = omega arith })
          (whole_flags compressed).0 allowed
        ∙ ap (λ c. (reset, ok (record { frame = payload; compressed = c; complete = true })))
            (whole_flags compressed).1
