-- ===== src/Hub/Users/Tokens.antt =====
-- To replace the token of an account.
use capri_hub.Common.{
  ◌≡◌, refl, ap, inl, inr, true, false, not, ◌&&◌, none, some, List, [], ◌∷◌, Bool-cases, subst,
}
use capri_hub.Common.Words.{Bytes}
use capri_hub.Common.Text.{bytes_eq, bytes_eq_iff}
use capri_hub.Common.Names.{bytes_eq_self, bytes_ne_comm}
use capri_hub.Hub.Users.{User, holder, change, token_hash_taken}
use capri_hub.Hub.Users.Table.{IsTable, holder_head, token_hash_taken-none}

-- `hit.TokenHash = hash`
abbrev pub with_hash : Bytes → User → User
with_hash hash u = record u { token_hash = hash }

abbrev pub set_hash : Bytes → Bytes → List User → List User
set_hash id hash us = change (λ u. u.id) id (with_hash hash) us

set_hash_absent :
    (id hash k : Bytes) (us : List User)
    → holder (λ x. x.id) k us ≡ none
    → holder (λ x. x.id) k (set_hash id hash us) ≡ none
set_hash_absent id hash k [] h = refl
set_hash_absent id hash k (u ∷ us) h =
    let (other, absent) = holder_head (λ x. x.id) k u us h in
    elim (Bool-cases (bytes_eq u.id id)) [
      | inl e ↦ rw (e, other) absent
      | inr e ↦ rw (e, other) (set_hash_absent id hash k us absent)
    ]

-- A hash that is not the new one is as absent as it was.
set_hash_other :
    (id hash k : Bytes) (us : List User)
    → bytes_eq hash k ≡ false
    → holder (λ x. x.token_hash) k us ≡ none
    → holder (λ x. x.token_hash) k (set_hash id hash us) ≡ none
set_hash_other id hash k [] o h = refl
set_hash_other id hash k (u ∷ us) o h =
    let (other, absent) = holder_head (λ x. x.token_hash) k u us h in
    elim (Bool-cases (bytes_eq u.id id)) [
      | inl e ↦ rw (e, o) absent
      | inr e ↦ rw (e, other) (set_hash_other id hash k us o absent)
    ]

-- What `tokenHashTakenLocked` says of the first account, and of the others.
taken_head :
    (hash except : Bytes) (u : User) (us : List User)
    → token_hash_taken hash except (u ∷ us) ≡ false
    → bytes_eq u.id except ≡ false
    → bytes_eq u.token_hash hash ≡ false
unfolding token_hash_taken
taken_head hash except u us h o = elim (Bool-cases (bytes_eq u.token_hash hash)) [
  | inr e ↦ e
  | inl e ↦ absurd (let h' : true ≡ false = rw (o, e) at h in cc)
]

taken_tail :
    (hash except : Bytes) (u : User) (us : List User)
    → token_hash_taken hash except (u ∷ us) ≡ false
    → token_hash_taken hash except us ≡ false
unfolding token_hash_taken
taken_tail hash except u us h =
    elim (Bool-cases (not (bytes_eq u.id except) && bytes_eq u.token_hash hash)) [
      | inl e ↦ absurd (let h' : true ≡ false = rw e at h in cc)
      | inr e ↦ rw e at h
    ]

pub set_hash-IsTable :
    (id hash : Bytes) (us : List User)
    → IsTable us
    → token_hash_taken hash id us ≡ false
    → IsTable (set_hash id hash us)
set_hash-IsTable id hash [] t f = tt
set_hash-IsTable id hash (u ∷ us) (named, i, h, t) f = elim (Bool-cases (bytes_eq u.id id)) [
  | inl e ↦
      let q : u.id ≡ id = (bytes_eq_iff u.id id).0 e in
      rw e (
        named,
        i,
        token_hash_taken-none hash id us (taken_tail hash id u us f)
            (subst (λ x. holder (λ y. y.id) x us ≡ none) q i),
        t,
      )
  | inr e ↦
      let apart = bytes_ne_comm u.token_hash hash (taken_head hash id u us f e) in
      rw e (
        named,
        set_hash_absent id hash u.id us i,
        set_hash_other id hash u.token_hash us apart h,
        set_hash-IsTable id hash us t (taken_tail hash id u us f),
      )
]

-- The account has the new token.
pub set_hash_found :
    (id hash : Bytes) (u : User) (us : List User)
    → holder (λ x. x.id) id us ≡ some u
    → token_hash_taken hash id us ≡ false
    → holder (λ x. x.token_hash) hash (set_hash id hash us) ≡ some (with_hash hash u)
set_hash_found id hash u [] h f = cc
set_hash_found id hash u (x ∷ us) h f = elim (Bool-cases (bytes_eq x.id id)) [
  | inl e ↦
      let h' : some x ≡ some u = rw e at h in
      let same : x ≡ u = cc in rw (e, bytes_eq_self hash) (ap (λ y. some (with_hash hash y)) same)
  | inr e ↦
      rw (e, taken_head hash id x us f e)
        (set_hash_found id hash u us (rw e at h) (taken_tail hash id x us f))
]

-- Nobody has the old one.
pub set_hash_gone :
    (id hash : Bytes) (u : User) (us : List User)
    → IsTable us
    → holder (λ x. x.id) id us ≡ some u
    → bytes_eq hash u.token_hash ≡ false
    → holder (λ x. x.token_hash) u.token_hash (set_hash id hash us) ≡ none
set_hash_gone id hash u [] t h o = refl
set_hash_gone id hash u (x ∷ us) (named, i, k, t) h o = elim (Bool-cases (bytes_eq x.id id)) [
  | inl e ↦
      let h' : some x ≡ some u = rw e at h in
      let same : x ≡ u = cc in
      rw (e, o) (subst (λ y. holder (λ z. z.token_hash) y.token_hash us ≡ none) same k)
  | inr e ↦ rw (e, differs x u us k (rw e at h)) (set_hash_gone id hash u us t (rw e at h) o)
]
  where
    -- An account further down the table has another token than the first.
    differs :
        (x u : User) (us : List User)
        → holder (λ y. y.token_hash) x.token_hash us ≡ none
        → holder (λ y. y.id) id us ≡ some u
        → bytes_eq x.token_hash u.token_hash ≡ false
    differs x u [] k h = cc
    differs x u (y ∷ us) k h =
        let (o, k') = holder_head (λ z. z.token_hash) x.token_hash y us k in
        elim (Bool-cases (bytes_eq y.id id)) [
          | inl e ↦
              let h' : some y ≡ some u = rw e at h in
              let same : y ≡ u = cc in
              bytes_ne_comm u.token_hash x.token_hash
                (subst (λ z. bytes_eq z.token_hash x.token_hash ≡ false) same o)
          | inr e ↦ differs x u us k' (rw e at h)
        ]
