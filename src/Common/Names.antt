-- ===== src/Common/Names.antt =====
-- Go's maps with string keys, as association lists in which a key stands at most once.
use capri_hub.Common.Tests.{if◌then◌else◌, Bool-cases}
use capri_hub.Common.Lists.{length}
use capri_hub.Common.Words.{Bytes}
use capri_hub.Common.Text.{bytes_eq, bytes_eq_iff}
use Prim.Native.Nat.{suc, ◌≤◌}
use mathlib.Core.Path.{◌≡◌, refl, sym, ap, ◌∙◌}
use mathlib.Core.Logic.{inl, inr}
use mathlib.Core.Bool.{true, false}
use mathlib.Core.List.{List, [], ◌∷◌}
use mathlib.Core.Option.{Option, none, some}
use native.Mathlib.Omega.{arith}

pub bytes_eq_self : (k : Bytes) → bytes_eq k k ≡ true
bytes_eq_self k = (bytes_eq_iff k k).1 refl

pub bytes_ne_comm : (j k : Bytes) → bytes_eq j k ≡ false → bytes_eq k j ≡ false
bytes_ne_comm j k h = elim (Bool-cases (bytes_eq k j)) [
  | inr e ↦ e
  | inl e ↦
      let q : k ≡ j = (bytes_eq_iff k j).0 e in
      ap (bytes_eq k) (sym q) ∙ ap (λ x. bytes_eq x k) q ∙ h
]

module _ {ℓ} {V : Type ℓ} where
  -- `m[k]`
  abbrev pub find : Bytes → List (Bytes × V) → Option V
  find k [] = none
  find k ((j, v) ∷ m) = if bytes_eq j k then some v else find k m

  -- `m[k] = v`
  abbrev pub put : Bytes → V → List (Bytes × V) → List (Bytes × V)
  put name v [] = (name, v) ∷ []
  put name v ((at, old) ∷ rest) =
      if bytes_eq at name then (name, v) ∷ rest else (at, old) ∷ put name v rest

  -- `delete(m, k)`
  abbrev pub remove : Bytes → List (Bytes × V) → List (Bytes × V)
  remove k [] = []
  remove k ((j, v) ∷ m) = if bytes_eq j k then m else (j, v) ∷ remove k m

  -- No key stands twice.
  abbrev pub DistinctNames : List (Bytes × V) → Type ℓ
  DistinctNames [] = Unit {ℓ}
  DistinctNames ((k, v) ∷ m) = (find k m ≡ none) × DistinctNames m

  pub find-put :
      (k j : Bytes) (v : V) (m : List (Bytes × V))
      → find j (put k v m) ≡ (if bytes_eq k j then some v else find j m)
  find-put k j v [] = refl
  find-put k j v ((i, w) ∷ m) = elim (Bool-cases (bytes_eq i k)) [
    | inl same ↦
        let q : i ≡ k = (bytes_eq_iff i k).0 same in
        elim (Bool-cases (bytes_eq k j)) [
          | inl here ↦ rw (same, here) refl
          | inr away ↦ rw (same, away, q, away) refl
        ]
    | inr other ↦ elim (Bool-cases (bytes_eq k j)) [
      | inl here ↦
          let q : k ≡ j = (bytes_eq_iff k j).0 here in
          let apart : bytes_eq i j ≡ false = ap (bytes_eq i) (sym q) ∙ other in
          rw (other, apart, here) (find-put k j v m ∙ rw here refl)
      | inr away ↦
          rw (other, away)
            (ap (λ o. if bytes_eq i j then some w else o) (find-put k j v m ∙ rw away refl))
    ]
  ]

  pub find-put_self : (k : Bytes) (v : V) (m : List (Bytes × V)) → find k (put k v m) ≡ some v
  find-put_self k v m = find-put k k v m ∙ rw (bytes_eq_self k) refl

  pub find-remove_other :
      (k j : Bytes) (m : List (Bytes × V)) → bytes_eq k j ≡ false → find j (remove k m) ≡ find j m
  find-remove_other k j [] h = refl
  find-remove_other k j ((i, w) ∷ m) h = elim (Bool-cases (bytes_eq i k)) [
    | inl same ↦ let q : i ≡ k = (bytes_eq_iff i k).0 same in rw (same, q, h) refl
    | inr other ↦
        rw other (ap (λ o. if bytes_eq i j then some w else o) (find-remove_other k j m h))
  ]

  pub find-remove_self :
      (k : Bytes) (m : List (Bytes × V)) → DistinctNames m → find k (remove k m) ≡ none
  find-remove_self k [] d = refl
  find-remove_self k ((i, w) ∷ m) d = elim (Bool-cases (bytes_eq i k)) [
    | inl same ↦
        let q : i ≡ k = (bytes_eq_iff i k).0 same in rw same (ap (λ x. find x m) (sym q) ∙ d.0)
    | inr other ↦ rw (other, other) (find-remove_self k m d.1)
  ]

  pub put-DistinctNames :
      (k : Bytes) (v : V) (m : List (Bytes × V)) → DistinctNames m → DistinctNames (put k v m)
  put-DistinctNames k v [] d = (refl, tt)
  put-DistinctNames k v ((i, w) ∷ m) d = elim (Bool-cases (bytes_eq i k)) [
    | inl same ↦
        let q : i ≡ k = (bytes_eq_iff i k).0 same in rw same (ap (λ x. find x m) (sym q) ∙ d.0, d.1)
    | inr other ↦
        rw other (find-put k i v m ∙ rw (bytes_ne_comm i k other) d.0, put-DistinctNames k v m d.1)
  ]

  pub remove-DistinctNames :
      (k : Bytes) (m : List (Bytes × V)) → DistinctNames m → DistinctNames (remove k m)
  remove-DistinctNames k [] d = tt
  remove-DistinctNames k ((i, w) ∷ m) d = elim (Bool-cases (bytes_eq i k)) [
    | inl same ↦ rw same d.1
    | inr other ↦ rw other (still_absent i k m d.0 other, remove-DistinctNames k m d.1)
  ]
    where
      still_absent :
          (i k : Bytes) (m : List (Bytes × V))
          → find i m ≡ none
          → bytes_eq i k ≡ false
          → find i (remove k m) ≡ none
      still_absent i k [] h o = refl
      still_absent i k ((j, x) ∷ m) h o = elim (Bool-cases (bytes_eq j i)) [
        | inl here ↦ absurd (let h' : some x ≡ none = rw here at h in cc)
        | inr away ↦ elim (Bool-cases (bytes_eq j k)) [
          | inl gone ↦ rw gone (rw away at h)
          | inr kept ↦ rw (kept, away) (still_absent i k m (rw away at h) o)
        ]
      ]

  pub length-put : (k : Bytes) (v : V) (m : List (Bytes × V)) → length (put k v m) ≤ suc (length m)
  length-put k v [] = omega arith
  length-put k v ((i, w) ∷ m) = elim (Bool-cases (bytes_eq i k)) [
    | inl same ↦ rw same (omega arith)
    | inr other ↦ rw other (omega (arith, length-put k v m))
  ]

  pub length-remove :
      (k : Bytes) (m : List (Bytes × V)) (v : V)
      → find k m ≡ some v
      → suc (length (remove k m)) ≡ length m
  length-remove k [] v h = cc
  length-remove k ((i, w) ∷ m) v h = elim (Bool-cases (bytes_eq i k)) [
    | inl same ↦ rw same refl
    | inr other ↦ rw other (ap suc (length-remove k m v (rw other at h)))
  ]
