-- ===== src/Hub/Downlink/Reception.antt =====
-- What a peer gets from a frame that the writer sends.
use capri_hub.Common.{
  ℕ, ◌^◌, ◌<◌, ◌≤◌, ◌≡◌, refl, ap, inl, inr, Bool, true, false, Option, none, some, List, [], ◌∷◌,
  ltb, leb, length, Bool-cases, arith,
}
use capri_hub.Common.Int.{ℤ, pos}
use capri_hub.Common.Words.{Bytes}
use capri_hub.Common.Result.{ok}
use capri_hub.Wire.TransportUnit.{unit_size, reset}
use capri_hub.Wire.TransportUnit.Split.{Allows}
use capri_hub.Wire.TransportUnit.Reassembly.{collect, collect-split_frame}
use capri_hub.Hub.Downlink.{
  Plan, whole, fragments, plan_of, next_frame_id, shorter, compressed_form, write_frame,
}

-- The frame that the plan makes up, for a peer with no open frame: the payload, or, where the
-- connection agreed on it and the payload is long enough, a shorter one that it was compressed to.
pub data Received (deflate : Bytes → Option Bytes) (enabled : Bool) (max_frame : ℤ)
    (payload : Bytes) (plan : Plan) : Type 0 where
  at_once :
      plan ≡ whole payload
      → length payload ≤ unit_size
      → Received deflate enabled max_frame payload plan
  in_units :
      (units : List Bytes)
      → plan ≡ fragments units
      → collect reset units max_frame ≡ (reset, ok ((payload, false) ∷ []))
      → Received deflate enabled max_frame payload plan
  inflated :
      (units : List Bytes) (z : Bytes)
      → plan ≡ fragments units
      → enabled ≡ true
      → 256 ≤ length payload
      → deflate payload ≡ some z
      → length z < length payload
      → collect reset units max_frame ≡ (reset, ok ((z, true) ∷ []))
      → Received deflate enabled max_frame payload plan

shorter_lem :
    (payload : Bytes) (o : Option Bytes) (z : Bytes)
    → shorter payload o ≡ some z
    → (o ≡ some z) × (length z < length payload)
shorter_lem payload none z h = absurd (ground arith)
shorter_lem payload (some y) z h = elim (Bool-cases (ltb (length y) (length payload))) [
  | inl less ↦ let same : some y ≡ some z = rw less at h in (same, ground arith)
  | inr more ↦ absurd (let h' : none ≡ some z = rw more at h in cc)
]

compressed_form_lem :
    (deflate : Bytes → Option Bytes) (enabled : Bool) (payload z : Bytes)
    → compressed_form deflate enabled payload ≡ some z
    → (enabled ≡ true)
      × (256 ≤ length payload)
      × (deflate payload ≡ some z)
      × (length z < length payload)
unfolding compressed_form
compressed_form_lem deflate false payload z h = absurd (ground arith)
compressed_form_lem deflate true payload z h = elim (Bool-cases (leb 256 (length payload))) [
  | inl long ↦
      let (made, less) = shorter_lem payload (deflate payload) z (rw long at h) in
      (refl, ground arith, made, less)
  | inr short ↦ absurd (let h' : none ≡ some z = rw short at h in cc)
]

Allows-less : (max_frame : ℤ) (n m : ℕ) → m ≤ n → Allows max_frame n → Allows max_frame m
Allows-less max_frame n m le a = ground arith

-- A frame below 2 ^ 32 bytes is never refused by the splitter. A peer with no open frame, whose
-- `maxFrame` allows the payload's length, gets the payload itself, at once or from its units, or,
-- only where compression was agreed on and the payload has 256 bytes or more, a shorter payload
-- that it was compressed to, marked as compressed.
pub write_frame-Received :
    (deflate : Bytes → Option Bytes) (enabled : Bool) (frame_id : ℕ) (payload : Bytes)
    (max_frame : ℤ)
    → length payload < 2 ^ 32
    → Allows max_frame (length payload)
    → Received deflate enabled max_frame payload (write_frame deflate enabled frame_id payload).1
unfolding write_frame
write_frame-Received deflate enabled frame_id payload max_frame short allowed =
    sent (compressed_form deflate enabled payload) refl
  where
    sent :
        (o : Option Bytes)
        → compressed_form deflate enabled payload ≡ o
        → Received deflate enabled max_frame payload
            (write_frame deflate enabled frame_id payload).1
    sent (some z) h =
        let (on, long, made, less) = compressed_form_lem deflate enabled payload z h in
        let fits = Allows-less max_frame (length payload) (length z) (omega arith) allowed in
        let (units, split, collected) =
          collect-split_frame z true (next_frame_id frame_id) (pos unit_size) max_frame
            (omega arith) (omega arith) fits in
        rw (write_frame, h) (inflated units z (ap plan_of split) on long made less collected)
    sent none h = elim (Bool-cases (leb (length payload) unit_size)) [
      | inl small ↦ rw (write_frame, h, small) (at_once refl (ground arith))
      | inr large ↦
          let (units, split, collected) =
            collect-split_frame payload false (next_frame_id frame_id) (pos unit_size) max_frame
              short (omega arith) allowed in
          rw (write_frame, h, large) (in_units units (ap plan_of split) collected)
    ]
