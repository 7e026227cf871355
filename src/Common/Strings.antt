-- ===== src/Common/Strings.antt =====
-- What the code calls of Go's `strings`, on lists of bytes.
use capri_hub.Common.Tests.{ltb, leb, ◌==◌, if◌then◌else◌}
use capri_hub.Common.Words.{Bytes}
use Prim.Native.Nat.{ℕ, zero, suc, ◌+◌, ◌-◌, ◌/◌, ◌%◌}
use mathlib.Core.Bool.{Bool, true, false, ◌&&◌, ◌||◌}
use mathlib.Core.List.{[], ◌∷◌, map}
use mathlib.Core.Option.{Option, none, some}

-- `unicode.IsSpace` on the runes of one, two and three bytes; no longer rune is a space.
unfoldable pub is_space : ℕ → Bool
is_space a = (leb 9 a && leb a 13) || (a == 32)

unfoldable is_space2 : ℕ → ℕ → Bool
is_space2 a b = (a == 194) && ((b == 133) || (b == 160))

unfoldable is_space3 : ℕ → ℕ → ℕ → Bool
is_space3 a b c =
    ((a == 225) && (b == 154) && (c == 128))
    || ((a == 226)
        && (b == 128)
        && ((leb 128 c && leb c 138) || (c == 168) || (c == 169) || (c == 175)))
    || ((a == 226) && (b == 129) && (c == 159))
    || ((a == 227) && (b == 128) && (c == 128))

-- The width of the space that a string starts with, 0 where there is none.
unfoldable front_space : Bytes → ℕ
unfolding is_space is_space2 is_space3
front_space [] = 0
front_space (a ∷ []) = if is_space a then 1 else 0
front_space (a ∷ b ∷ []) = if is_space a then 1 else if is_space2 a b then 2 else 0
front_space (a ∷ b ∷ c ∷ s) =
    if is_space a then 1 else if is_space2 a b then 2 else if is_space3 a b c then 3 else 0

-- The same at the end of a string, which is given in reverse.
unfoldable back_space : Bytes → ℕ
unfolding is_space is_space2 is_space3
back_space [] = 0
back_space (a ∷ []) = if is_space a then 1 else 0
back_space (b ∷ a ∷ []) = if is_space b then 1 else if is_space2 a b then 2 else 0
back_space (c ∷ b ∷ a ∷ s) =
    if is_space c then 1 else if is_space2 b c then 2 else if is_space3 a b c then 3 else 0

-- What is left behind the spaces; the number is of the bytes of a space still to be passed.
unfoldable strip : (Bytes → ℕ) → ℕ → Bytes → Bytes
strip width n [] = []
strip width (suc n) (a ∷ s) = strip width n s
strip width zero (a ∷ s) =
    let rest = strip width (width (a ∷ s) - 1) s in if width (a ∷ s) == 0 then a ∷ s else rest

unfoldable reversed : Bytes → Bytes → Bytes
reversed acc [] = acc
reversed acc (a ∷ s) = reversed (a ∷ acc) s

-- `strings.TrimSpace`
unfoldable pub trim_space : Bytes → Bytes
unfolding strip front_space back_space reversed
trim_space s = reversed [] (strip back_space 0 (reversed [] (strip front_space 0 s)))

-- `strings.ContainsAny` for a set of ASCII characters.
unfoldable pub contains_any : Bytes → Bytes → Bool
contains_any [] set = false
contains_any (a ∷ s) set = is_one_of a set || contains_any s set
  where
    is_one_of : ℕ → Bytes → Bool
    is_one_of a [] = false
    is_one_of a (b ∷ set) = (a == b) || is_one_of a set

unfoldable is_ascii : Bytes → Bool
is_ascii [] = true
is_ascii (a ∷ s) = ltb a 128 && is_ascii s

abbrev upper_byte : ℕ → ℕ
upper_byte a = if leb 97 a && leb a 122 then a - 32 else a

-- `strings.ToUpper`; the case tables of Unicode, for a string that is not ASCII, are the parameter.
unfoldable pub to_upper : (Bytes → Bytes) → Bytes → Bytes
unfolding is_ascii
to_upper unicode s = if is_ascii s then map upper_byte s else unicode s

-- `strings.TrimPrefix`
unfoldable pub trim_prefix : Bytes → Bytes → Bytes
trim_prefix s prefix = elim (behind s prefix) [ none ↦ s | some rest ↦ rest ]
  where
    behind : Bytes → Bytes → Option Bytes
    behind s [] = some s
    behind [] (b ∷ prefix) = none
    behind (a ∷ s) (b ∷ prefix) = let rest = behind s prefix in if a == b then rest else none

-- The decimal digits of a number; each round takes one off, so the number is fuel enough.
unfoldable digits : ℕ → ℕ → Bytes → Bytes
digits zero n acc = acc
digits (suc fuel) n acc =
    let more = digits fuel (n / 10) ((48 + n % 10) ∷ acc) in
    if ltb n 10 then (48 + n) ∷ acc else more

unfoldable pub decimal : ℕ → Bytes
unfolding digits
decimal n = digits (suc n) n []
