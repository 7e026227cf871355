-- ===== src/Hub/Users/Table.antt =====
-- The table of the accounts: no two accounts share an id or a token.
use capri_hub.Common.{
  ◌≡◌, refl, sym, ap, ◌∙◌, inl, inr, true, false, none, some, List, [], ◌∷◌, ◌++◌, if◌then◌else◌,
  Bool-cases, subst,
}
use capri_hub.Common.Words.{Bytes}
use capri_hub.Common.Text.{bytes_eq, bytes_eq_iff}
use capri_hub.Common.Names.{bytes_ne_comm}
use capri_hub.Wire.Frame.Validate.{no_text}
use capri_hub.Hub.Users.{User, holder, drop_user, user_id_taken, token_hash_taken}

-- No account lacks an id, and none shares its id or its token with another.
abbrev pub IsTable : List User → Type 0
IsTable [] = Unit {0}
IsTable (u ∷ us) =
    (no_text u.id ≡ false)
    × (holder (λ x. x.id) u.id us ≡ none)
    × (holder (λ x. x.token_hash) u.token_hash us ≡ none)
    × IsTable us

module _ (key : User → Bytes) where
  pub holder-append :
      (k : Bytes) (u : User) (us : List User)
      → holder key k us ≡ none
      → holder key k (us ++ (u ∷ [])) ≡ (if bytes_eq (key u) k then some u else none)
  holder-append k u [] h = refl
  holder-append k u (x ∷ us) h = elim (Bool-cases (bytes_eq (key x) k)) [
    | inl e ↦ absurd (let h' : some x ≡ none = rw e at h in cc)
    | inr e ↦ rw e (holder-append k u us (rw e at h))
  ]

  -- What is absent from a table is not its first record.
  pub holder_head :
      (k : Bytes) (x : User) (us : List User)
      → holder key k (x ∷ us) ≡ none
      → (bytes_eq (key x) k ≡ false) × (holder key k us ≡ none)
  holder_head k x us h = elim (Bool-cases (bytes_eq (key x) k)) [
    | inl e ↦ absurd (let h' : some x ≡ none = rw e at h in cc)
    | inr e ↦ (e, rw e at h)
  ]

  append_absent :
      (x u : User) (us : List User)
      → holder key (key x) us ≡ none
      → bytes_eq (key x) (key u) ≡ false
      → holder key (key x) (us ++ (u ∷ [])) ≡ none
  append_absent x u us h o =
      holder-append (key x) u us h ∙ rw (bytes_ne_comm (key x) (key u) o) refl

  pub holder_key : (k : Bytes) (u : User) (us : List User) → holder key k us ≡ some u → key u ≡ k
  holder_key k u [] h = cc
  holder_key k u (x ∷ us) h = elim (Bool-cases (bytes_eq (key x) k)) [
    | inl e ↦
        let h' : some x ≡ some u = rw e at h in
        let same : u ≡ x = cc in ap key same ∙ (bytes_eq_iff (key x) k).0 e
    | inr e ↦ holder_key k u us (rw e at h)
  ]

pub append-IsTable :
    (u : User) (us : List User)
    → IsTable us
    → no_text u.id ≡ false
    → holder (λ x. x.id) u.id us ≡ none
    → holder (λ x. x.token_hash) u.token_hash us ≡ none
    → IsTable (us ++ (u ∷ []))
append-IsTable u [] t named i h = (named, refl, refl, tt)
append-IsTable u (x ∷ us) (x_named, x_id, x_hash, t) named i h =
    let (i₀, i₁) = holder_head (λ y. y.id) u.id x us i in
    let (h₀, h₁) = holder_head (λ y. y.token_hash) u.token_hash x us h in
    (
      x_named,
      append_absent (λ y. y.id) x u us x_id i₀,
      append_absent (λ y. y.token_hash) x u us x_hash h₀,
      append-IsTable u us t named i₁ h₁,
    )

-- A text that is not taken is absent.
pub user_id_taken-none :
    (id : Bytes) (us : List User) → user_id_taken id us ≡ false → holder (λ x. x.id) id us ≡ none
unfolding user_id_taken
user_id_taken-none id [] h = refl
user_id_taken-none id (u ∷ us) h = elim (Bool-cases (bytes_eq u.id id)) [
  | inl e ↦ absurd (let h' : true ≡ false = rw e at h in cc)
  | inr e ↦ rw e (user_id_taken-none id us (rw e at h))
]

pub token_hash_taken-none :
    (hash except : Bytes) (us : List User)
    → token_hash_taken hash except us ≡ false
    → holder (λ x. x.id) except us ≡ none
    → holder (λ x. x.token_hash) hash us ≡ none
unfolding token_hash_taken
token_hash_taken-none hash except [] h a = refl
token_hash_taken-none hash except (u ∷ us) h a =
    let (other, absent) = holder_head (λ x. x.id) except u us a in
    elim (Bool-cases (bytes_eq u.token_hash hash)) [
      | inl e ↦ absurd (let h' : true ≡ false = rw (other, e) at h in cc)
      | inr e ↦ rw e (token_hash_taken-none hash except us (rw (other, e) at h) absent)
    ]

pub unnamed_absent : (us : List User) → IsTable us → holder (λ x. x.id) [] us ≡ none
unnamed_absent [] t = refl
unnamed_absent (u ∷ us) (named, i, h, t) = elim (Bool-cases (bytes_eq u.id [])) [
  | inl e ↦
      let q : u.id ≡ [] = (bytes_eq_iff u.id []).0 e in
      absurd (let h' : true ≡ false = ap no_text (sym q) ∙ named in cc)
  | inr e ↦ rw e (unnamed_absent us t)
]

-- An account that is dropped leaves a table.
drop_user_absent :
    (key : User → Bytes) (k id : Bytes) (us : List User)
    → holder key k us ≡ none
    → holder key k (drop_user id us) ≡ none
drop_user_absent key k id [] h = refl
drop_user_absent key k id (u ∷ us) h =
    let (other, absent) = holder_head key k u us h in
    elim (Bool-cases (bytes_eq u.id id)) [
      | inl e ↦ rw e absent
      | inr e ↦ rw (e, other) (drop_user_absent key k id us absent)
    ]

pub drop_user-IsTable : (id : Bytes) (us : List User) → IsTable us → IsTable (drop_user id us)
drop_user-IsTable id [] t = tt
drop_user-IsTable id (u ∷ us) (named, i, h, t) = elim (Bool-cases (bytes_eq u.id id)) [
  | inl e ↦ rw e t
  | inr e ↦ rw e (
    named,
    drop_user_absent (λ x. x.id) u.id id us i,
    drop_user_absent (λ x. x.token_hash) u.token_hash id us h,
    drop_user-IsTable id us t,
  )
]

pub drop_user-holder :
    (id : Bytes) (us : List User) → IsTable us → holder (λ x. x.id) id (drop_user id us) ≡ none
drop_user-holder id [] t = refl
drop_user-holder id (u ∷ us) (named, i, h, t) = elim (Bool-cases (bytes_eq u.id id)) [
  | inl e ↦
      let q : u.id ≡ id = (bytes_eq_iff u.id id).0 e in
      rw e (subst (λ x. holder (λ y. y.id) x us ≡ none) q i)
  | inr e ↦ rw (e, e) (drop_user-holder id us t)
]
