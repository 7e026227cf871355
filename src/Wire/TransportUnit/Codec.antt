-- ===== src/Wire/TransportUnit/Codec.antt =====
-- `EncodeUnit` and `DecodeUnit` are inverse to one another on well-formed units.
use capri_hub.Common.{
  ℕ, zero, suc, ◌+◌, ◌*◌, ◌/◌, ◌%◌, ◌^◌, ◌≤◌, ◌<◌, ◌≡◌, ◌≢◌, inl, inr, refl, sym, ap, ap₂, subst,
  ◌∙◌, true, false, [], ◌∷◌, ◌++◌, ltb, length, drop, All, Bool-cases, arith,
}
use capri_hub.Common.Words.{Bytes, IsByte, IsU32}
use capri_hub.Common.Bits.{high_bits}
use capri_hub.Common.Result.{ok}
use capri_hub.Wire.TransportUnit.{
  TransportUnit, put_uint32, uint32_at, byte_at, encode_unit, has_flag, check_unit, read_unit,
  decode_unit, unit_fragment,
}

-- A unit that a receiver accepts: no unknown flag, the slice inside the total; a fragment has
-- a total above 0, and any other unit holds the whole frame.
pub record IsWellFormed (u : TransportUnit) : Type 0 where
  pub flags : u.flags < 4
  pub inside : u.offset + length u.payload ≤ u.total
  pub fragment : has_flag u.flags unit_fragment ≡ true → u.total ≢ 0
  pub whole : has_flag u.flags unit_fragment ≡ false → (u.offset ≡ 0) × (length u.payload ≡ u.total)

-- The header fields fit their width.
pub record Fits (u : TransportUnit) : Type 0 where
  pub frame_id : IsU32 u.frame_id
  pub total : IsU32 u.total
  pub offset : IsU32 u.offset

check-ok : (u : TransportUnit) → IsWellFormed u → check_unit u ≡ ok u
unfolding check_unit
check-ok u w = ground (arith, high_bits u.flags)

check-IsWellFormed :
    (u v : TransportUnit) → u.flags < 256 → check_unit u ≡ ok v → (v ≡ u) × IsWellFormed u
unfolding check_unit
check-IsWellFormed u v b e = (
  ground arith,
  record {
    flags = ground (arith, high_bits u.flags);
    inside = ground arith;
    fragment = λ f. ground arith;
    whole = λ f. ground arith;
  },
)

fields :
    (u : TransportUnit)
    → Fits u
    → (uint32_at (encode_unit u) 1 ≡ u.frame_id)
      × (uint32_at (encode_unit u) 5 ≡ u.total)
      × (uint32_at (encode_unit u) 9 ≡ u.offset)
unfolding encode_unit
fields u f = omega arith

read-encode : (u : TransportUnit) → Fits u → read_unit (encode_unit u) ≡ u
unfolding encode_unit read_unit
read-encode u f = λ i. record {
  flags = u.flags;
  frame_id = (fields u f).0 i;
  total = (fields u f).1 i;
  offset = (fields u f).2 i;
  payload = u.payload;
}

long_enough : (u : TransportUnit) → ltb (length (encode_unit u)) 13 ≡ false
unfolding encode_unit
long_enough u = ground arith

-- `DecodeUnit` reads back every well-formed unit whose header fields fit 32 bits.
pub decode-encode :
    (u : TransportUnit) → IsWellFormed u → Fits u → decode_unit (encode_unit u) ≡ ok u
unfolding decode_unit
decode-encode u w f = rw (long_enough u, decode_unit, read-encode u f) (check-ok u w)

-- The `n` bytes from index `i` on.
abbrev bytes_from : ℕ → ℕ → Bytes → Bytes
bytes_from i zero b = []
bytes_from i (suc n) b = byte_at b i ∷ bytes_from (suc i) n b

drop-cons : (i : ℕ) (b : Bytes) → i < length b → drop i b ≡ byte_at b i ∷ drop (suc i) b
drop-cons i [] h = absurd (omega arith)
drop-cons zero (x ∷ b) h = refl
drop-cons (suc i) (x ∷ b) h = drop-cons i b (omega arith)

drop-bytes_from :
    (i n : ℕ) (b : Bytes) → i + n ≤ length b → drop i b ≡ bytes_from i n b ++ drop (i + n) b
drop-bytes_from i zero b h = ap (λ k. drop k b) same
  where
    same : i ≡ i + 0
    same = omega arith
drop-bytes_from i (suc n) b h =
    drop-cons i b (omega arith)
    ∙ ap (◌∷◌ (byte_at b i)) (
        drop-bytes_from (suc i) n b (omega arith)
        ∙ ap (λ k. bytes_from (suc i) n b ++ drop k b) same)
  where
    same : suc i + n ≡ i + suc n
    same = omega arith

byte_at-IsByte : (b : Bytes) (i : ℕ) → All IsByte b → IsByte (byte_at b i)
byte_at-IsByte [] i h = omega arith
byte_at-IsByte (x ∷ b) zero h = h.0
byte_at-IsByte (x ∷ b) (suc i) h = byte_at-IsByte b i h.1

four_bytes :
    (a b c d n : ℕ)
    → IsByte a
    → IsByte b
    → IsByte c
    → IsByte d
    → n ≡ a * 2 ^ 24 + b * 2 ^ 16 + c * 2 ^ 8 + d
    → put_uint32 n ≡ a ∷ b ∷ c ∷ d ∷ []
four_bytes a b c d n ha hb hc hd e =
    let ea : n / 2 ^ 24 % 256 ≡ a = omega arith in
    let eb : n / 2 ^ 16 % 256 ≡ b = omega arith in
    let ec : n / 2 ^ 8 % 256 ≡ c = omega arith in
    let ed : n % 256 ≡ d = omega arith in ap₂ ◌∷◌ ea (ap₂ ◌∷◌ eb (ap₂ ◌∷◌ ec (ap (λ x. x ∷ []) ed)))

module _ (b : Bytes) (h : All IsByte b) where
  field_bytes :
      (w x y z : ℕ)
      → put_uint32 (byte_at b w * 2 ^ 24 + byte_at b x * 2 ^ 16 + byte_at b y * 2 ^ 8 + byte_at b z)
        ≡ byte_at b w ∷ byte_at b x ∷ byte_at b y ∷ byte_at b z ∷ []
  field_bytes w x y z =
      four_bytes _ _ _ _ _ (byte_at-IsByte b w h) (byte_at-IsByte b x h) (byte_at-IsByte b y h)
        (byte_at-IsByte b z h) refl

  read_unit-Fits : Fits (read_unit b)
  unfolding read_unit
  read_unit-Fits = record {
    frame_id = four_bytes_fit 1 2 3 4;
    total = four_bytes_fit 5 6 7 8;
    offset = four_bytes_fit 9 10 11 12;
  }
    where
      four_bytes_fit :
          (w x y z : ℕ)
          → byte_at b w * 2 ^ 24 + byte_at b x * 2 ^ 16 + byte_at b y * 2 ^ 8 + byte_at b z < 2 ^ 32
      four_bytes_fit w x y z = omega (
        arith,
        byte_at-IsByte b w h,
        byte_at-IsByte b x h,
        byte_at-IsByte b y h,
        byte_at-IsByte b z h,
      )

  encode-read : 13 ≤ length b → encode_unit (read_unit b) ≡ b
  unfolding encode_unit read_unit
  encode-read long =
      ap (◌∷◌ (byte_at b 0)) (
        ap₂ ◌++◌ (field_bytes 1 2 3 4)
          (ap₂ ◌++◌ (field_bytes 5 6 7 8) (ap (λ l. l ++ drop 13 b) (field_bytes 9 10 11 12))))
      ∙ sym (drop-bytes_from 0 13 b long)

-- What `DecodeUnit` accepts is the encoding of the unit that it returns, and that unit is
-- well-formed, with header fields of 32 bits.
pub encode-decode :
    (b : Bytes) (u : TransportUnit)
    → All IsByte b
    → decode_unit b ≡ ok u
    → (encode_unit u ≡ b) × IsWellFormed u × Fits u
unfolding decode_unit read_unit
encode-decode b u h e = elim (Bool-cases (ltb (length b) 13)) [
  | inl short ↦ cc (rw (short, decode_unit) at e)
  | inr long ↦
      let (same, well) =
        check-IsWellFormed (read_unit b) u (byte_at-IsByte b 0 h) (rw (long, decode_unit) at e) in
      (
        ap encode_unit same ∙ encode-read b h (ground arith),
        subst IsWellFormed (sym same) well,
        subst Fits (sym same) (read_unit-Fits b h),
      )
]
