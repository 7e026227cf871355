-- ===== src/Common/Pigeonhole.antt =====
-- A map that holds every one of some distinct keys is at least as long as their list.
use Prim.Native.Nat.{◌≤◌}
use mathlib.Core.Path.{◌≡◌, ◌∙◌}
use mathlib.Core.Bool.{false}
use mathlib.Core.List.{List, [], ◌∷◌}
use mathlib.Core.Option.{some}
use native.Mathlib.Omega.{arith}
use capri_hub.Common.Lists.{length, All}
use capri_hub.Common.Words.{Bytes}
use capri_hub.Common.Text.{bytes_eq}
use capri_hub.Common.Names.{find, remove, find-remove_other, length-remove}

-- No text stands twice.
abbrev pub DistinctTexts : List Bytes → Type 0
DistinctTexts [] = Unit {0}
DistinctTexts (k ∷ ks) = All (λ j. bytes_eq k j ≡ false) ks × DistinctTexts ks

module _ {ℓ} {V : Type ℓ} where
  abbrev pub Holds : List (Bytes × V) → Bytes → Type ℓ
  Holds m k = (v : V) × (find k m ≡ some v)

  still_Holds :
      (k : Bytes) (ks : List Bytes) (m : List (Bytes × V))
      → All (λ j. bytes_eq k j ≡ false) ks
      → All (Holds m) ks
      → All (Holds (remove k m)) ks
  still_Holds k [] m d h = tt
  still_Holds k (j ∷ ks) m d h =
      ((h.0.0, find-remove_other k j m d.0 ∙ h.0.1), still_Holds k ks m d.1 h.1)

  pub distinct_Holds :
      (ks : List Bytes) (m : List (Bytes × V))
      → DistinctTexts ks
      → All (Holds m) ks
      → length ks ≤ length m
  distinct_Holds [] m d h = omega arith
  distinct_Holds (k ∷ ks) m d h =
      let rest = distinct_Holds ks (remove k m) d.1 (still_Holds k ks m d.0 h.1) in
      omega (arith, length-remove k m h.0.0 h.0.1, rest)
