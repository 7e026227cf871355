-- ===== src/Common/Tests.antt =====
-- Boolean tests on the native numbers, the conditional, and the case splits that keep an equation.
use Prim.Native.Nat.{ℕ, compare, Ordering}
use mathlib.Core.Path.{◌≡◌, refl}
use mathlib.Core.Logic.{◌↔◌, ◌⊎◌, inl, inr}
use mathlib.Core.Bool.{Bool, true, false}
use mathlib.Core.Option.{Option, none, some}
use native.Mathlib.Omega.{arith}

abbrev pub ltb : ℕ → ℕ → Bool
ltb a b = elim (compare a b) [ Ordering.lt ↦ true | _ ↦ false ]

abbrev pub leb : ℕ → ℕ → Bool
leb a b = elim (compare a b) [ Ordering.gt ↦ false | _ ↦ true ]

infix 50 ◌==◌
abbrev pub ◌==◌ : ℕ → ℕ → Bool
a == b = elim (compare a b) [ Ordering.eq ↦ true | _ ↦ false ]

infix 1 if◌then◌else◌
abbrev pub if◌then◌else◌ {ℓ} : {A : Type ℓ} → Bool → A → A → A
if true then x else y = x
if false then x else y = y

pub ==_iff : (a b : ℕ) → ((a == b) ≡ true) ↔ (a ≡ b)
==_iff a b = ground arith

pub Bool-cases : (b : Bool) → (b ≡ true) ⊎ (b ≡ false)
Bool-cases true = inl refl
Bool-cases false = inr refl

pub Option-cases {ℓ} : {A : Type ℓ} (o : Option A) → (o ≡ none) ⊎ ((a : A) × (o ≡ some a))
Option-cases none = inl refl
Option-cases (some a) = inr (a, refl)

-- A chain of checks, each an early return of an error, returns nil only where no check fires.
module _ {ℓ} {E : Type ℓ} where
  pub guard-none :
      (test : Bool) (e : E) (rest : Option E)
      → (if test then some e else rest) ≡ none
      → (test ≡ false) × (rest ≡ none)
  guard-none true e rest h = cc
  guard-none false e rest h = (refl, h)

  -- A step that may fail, followed by the rest.
  infixr 5 ◌then_check◌
  abbrev pub ◌then_check◌ : Option E → Option E → Option E
  none then_check rest = rest
  some e then_check rest = some e

  pub then_check-none :
      (first rest : Option E) → (first then_check rest) ≡ none → (first ≡ none) × (rest ≡ none)
  then_check-none none rest h = (refl, h)
  then_check-none (some e) rest h = cc
