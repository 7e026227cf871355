-- ===== src/Common/Bits.antt =====
-- Facts about the bits of one byte, checked at every value.
use Prim.Native.Nat.{ℕ, zero, suc, ◌<◌, ◌≤◌, bit_and}
use mathlib.Core.Path.{◌≡◌, refl, ap, ◌∙◌}
use mathlib.Core.Logic.{inl, inr}
use mathlib.Core.Bool.{Bool, true, false}
use native.Mathlib.Decide.{dec_le}
use native.Mathlib.Omega.{arith}
use capri_hub.Common.Tests.{ltb, ◌==◌, if◌then◌else◌, Bool-cases}

-- The test passes at each number up to the bound.
passes_to : (ℕ → Bool) → ℕ → Bool
passes_to test zero = test zero
passes_to test (suc n) = let rest = passes_to test n in if test (suc n) then rest else false

passes_at : (test : ℕ → Bool) (n x : ℕ) → x ≤ n → passes_to test n ≡ true → test x ≡ true
unfolding passes_to
passes_at test zero x le h = let lowest : x ≡ 0 = omega arith in rw lowest h
passes_at test (suc n) x le h = elim (Bool-cases (test (suc n))) [
  | inr fails ↦ cc (rw (passes_to, fails) at h)
  | inl top ↦ elim (dec_le x n) [
    | yes below ↦ passes_at test n x below (rw (passes_to, top) at h)
    | no above ↦ ap test (last above) ∙ top
  ]
]
  where
    last : ¬ (x ≤ n) → x ≡ suc n
    last above = omega arith

abbrev same_test : Bool → Bool → Bool
same_test true b = b
same_test b true = b
same_test _ _ = true

same_test_eq : (a b : Bool) → same_test a b ≡ true → a ≡ b
same_test_eq true b h = ground arith
same_test_eq _ b h = ground arith

high_bits_table : passes_to (λ f. same_test (bit_and f 0xfc == 0) (ltb f 4)) 255 ≡ true
unfolding passes_to
high_bits_table = refl

-- No bit but the lowest two is set exactly below 4.
pub high_bits : (f : ℕ) → f < 256 → (bit_and f 0xfc == 0) ≡ ltb f 4
high_bits f h =
    same_test_eq _ _ (
      passes_at (λ f. same_test (bit_and f 0xfc == 0) (ltb f 4)) 255 f (omega arith)
        high_bits_table)
