-- ===== src/Hub/Users/Draws.antt =====
-- The loops that draw a text until one is free: with more distinct keys than accounts one is.
use capri_hub.Common.{
  suc, ◌<◌, ◌≡◌, refl, ap, ◌∙◌, inl, inr, Bool, true, false, none, some, List, [], ◌∷◌, map, length,
  All, Bool-cases, Option-cases, arith,
}
use capri_hub.Common.Words.{Bytes}
use capri_hub.Common.Text.{bytes_eq}
use capri_hub.Common.Names.{find}
use capri_hub.Common.Pigeonhole.{DistinctTexts, Holds, distinct_Holds}
use capri_hub.Hub.Users.{User, holder, user_id_taken, token_hash_taken, first_free}

-- The table by a key.
abbrev keyed : (User → Bytes) → List User → List (Bytes × User)
keyed key us = map (λ u. (key u, u)) us

find-keyed :
    (key : User → Bytes) (k : Bytes) (us : List User) → find k (keyed key us) ≡ holder key k us
find-keyed key k [] = refl
find-keyed key k (u ∷ us) = elim (Bool-cases (bytes_eq (key u) k)) [
  | inl e ↦ rw e refl
  | inr e ↦ rw e (find-keyed key k us)
]

length-map {ℓ κ} :
    {A : Type ℓ} {B : Type κ} (g : A → B) (xs : List A) → length (map g xs) ≡ length xs
length-map g [] = refl
length-map g (x ∷ xs) = ap suc (length-map g xs)

first_free-All :
    (taken : Bytes → Bool) (key : Bytes → Bytes) (m : List (Bytes × User)) (ds : List Bytes)
    → ((d : Bytes) → taken d ≡ true → Holds m (key d))
    → first_free taken ds ≡ none
    → All (Holds m) (map key ds)
unfolding first_free
first_free-All taken key m [] held h = tt
first_free-All taken key m (d ∷ ds) held h = elim (Bool-cases (taken d)) [
  | inl e ↦ (held d e, first_free-All taken key m ds held (rw e at h))
  | inr e ↦ absurd (let h' : some d ≡ none = rw e at h in cc)
]

pub first_free_found :
    (taken : Bytes → Bool) (key : Bytes → Bytes) (of_user : User → Bytes) (us : List User)
    (ds : List Bytes)
    → ((d : Bytes) → taken d ≡ true → (u : User) × (holder of_user (key d) us ≡ some u))
    → DistinctTexts (map key ds)
    → length us < length ds
    → (d : Bytes) × (first_free taken ds ≡ some d)
first_free_found taken key of_user us ds held dist more =
    elim (Option-cases (first_free taken ds)) [
      | inr (d, e) ↦ (d, e)
      | inl e ↦
          let full = distinct_Holds (map key ds) (keyed of_user us) dist (
            first_free-All taken key (keyed of_user us) ds
              (λ d h. let (u, there) = held d h in (u, find-keyed of_user (key d) us ∙ there)) e) in
          absurd (
            omega (
              arith,
              full,
              length-map key ds,
              length-map {B = Bytes × User} (λ u. (of_user u, u)) us,
            ))
    ]

pub user_id_taken-holder :
    (id : Bytes) (us : List User)
    → user_id_taken id us ≡ true
    → (u : User) × (holder (λ x. x.id) id us ≡ some u)
unfolding user_id_taken
user_id_taken-holder id [] h = cc
user_id_taken-holder id (u ∷ us) h = elim (Bool-cases (bytes_eq u.id id)) [
  | inl e ↦ (u, rw e refl)
  | inr e ↦ let (v, there) = user_id_taken-holder id us (rw e at h) in (v, rw e there)
]

pub token_hash_taken-holder :
    (hash except : Bytes) (us : List User)
    → token_hash_taken hash except us ≡ true
    → (u : User) × (holder (λ x. x.token_hash) hash us ≡ some u)
unfolding token_hash_taken
token_hash_taken-holder hash except [] h = cc
token_hash_taken-holder hash except (u ∷ us) h = elim (Bool-cases (bytes_eq u.token_hash hash)) [
  | inl e ↦ (u, rw e refl)
  | inr e ↦ elim (Bool-cases (bytes_eq u.id except)) [
    | inl s ↦ later u us e (token_hash_taken-holder hash except us (rw s at h))
    | inr s ↦ later u us e (token_hash_taken-holder hash except us (rw (s, e) at h))
  ]
]
  where
    later :
        (u : User) (us : List User)
        → bytes_eq u.token_hash hash ≡ false
        → (v : User) × (holder (λ x. x.token_hash) hash us ≡ some v)
        → (v : User) × (holder (λ x. x.token_hash) hash (u ∷ us) ≡ some v)
    later u us e (v, there) = (v, rw e there)
