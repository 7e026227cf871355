-- ===== src/Hub/Users/Accounts.antt =====
-- What the calls do to the accounts.
use capri_hub.Common.{
  suc, ◌≤◌, ◌≡◌, refl, sym, ap, inl, inr, Bool, false, Option, none, some, List, [], ◌∷◌, ◌++◌, map,
  leb, length, length-append, Bool-cases, Option-cases, subst, arith,
}
use capri_hub.Common.Int.{ℤ}
use capri_hub.Common.Words.{Bytes}
use capri_hub.Common.Text.{bytes_eq}
use capri_hub.Common.Result.{Result, ok, err}
use capri_hub.Common.Strings.{trim_space}
use capri_hub.Wire.Frame.Validate.{no_text}
use capri_hub.Hub.Users.{
  User, UserError, max_users, holder, change, drop_user, user_by_id, user_by_token, user_id_taken,
  token_hash_taken, with_prefix, first_free, normalize_user_token, create_user, reset_user_token,
  set_user_token, delete_user,
}
use capri_hub.Hub.Users.Table.{
  IsTable, holder_head, append-IsTable, user_id_taken-none, token_hash_taken-none, unnamed_absent,
  drop_user-IsTable,
}
use capri_hub.Hub.Users.Tokens.{with_hash, set_hash-IsTable}

-- The table of the accounts is well formed and within its bound.
abbrev pub IsAccounts : List User → Type 0
IsAccounts us = IsTable us × (length us ≤ max_users)

-- The table behind a call that may still be drawing.
abbrev pub after {ℓ} : {R : Type ℓ} → List User → Option (List User × R) → List User
after us none = us
after us (some (us', r)) = us'

pub first_free_free :
    (taken : Bytes → Bool) (ds : List Bytes) (d : Bytes)
    → first_free taken ds ≡ some d
    → taken d ≡ false
unfolding first_free
first_free_free taken [] d h = cc
first_free_free taken (x ∷ ds) d h = elim (Bool-cases (taken x)) [
  | inl e ↦ first_free_free taken ds d (rw e at h)
  | inr e ↦
      let h' : some x ≡ some d = rw e at h in
      let same : x ≡ d = cc in subst (λ y. taken y ≡ false) same e
]

-- A text that was drawn and got its prefix is not empty.
first_free_named :
    (taken : Bytes → Bool) (ds : List Bytes) (d : Bytes)
    → first_free taken (map with_prefix ds) ≡ some d
    → no_text d ≡ false
unfolding first_free
first_free_named taken [] d h = cc
first_free_named taken (x ∷ ds) d h = elim (Bool-cases (taken (with_prefix x))) [
  | inl e ↦ first_free_named taken ds d (rw e at h)
  | inr e ↦
      let h' : some (with_prefix x) ≡ some d = rw e at h in
      let same : with_prefix x ≡ d = cc in subst (λ y. no_text y ≡ false) same refl
]

length-change :
    (key : User → Bytes) (k : Bytes) (g : User → User) (us : List User)
    → length (change key k g us) ≡ length us
length-change key k g [] = refl
length-change key k g (u ∷ us) = elim (Bool-cases (bytes_eq (key u) k)) [
  | inl e ↦ rw e refl
  | inr e ↦ rw e (ap suc (length-change key k g us))
]

length-drop_user : (id : Bytes) (us : List User) → length (drop_user id us) ≤ length us
length-drop_user id [] = omega arith
length-drop_user id (u ∷ us) = elim (Bool-cases (bytes_eq u.id id)) [
  | inl e ↦ rw e (omega arith)
  | inr e ↦ rw e (omega (arith, length-drop_user id us))
]

one_more :
    (u : User) (us : List User)
    → leb max_users (length us) ≡ false
    → length (us ++ (u ∷ [])) ≤ max_users
one_more u us h = ground (arith, length-append us (u ∷ []))

-- A call that only notes the time of a use leaves the keys of the table.
used_absent :
    (now : ℤ) (key : User → Bytes) (h k : Bytes) (us : List User)
    → ((u : User) → key (record u { last_used_at = now }) ≡ key u)
    → holder key k us ≡ none
    → holder key k (change (λ u. u.token_hash) h (λ u. record u { last_used_at = now }) us) ≡ none
used_absent now key h k [] s a = refl
used_absent now key h k (u ∷ us) s a =
    let (other, absent) = holder_head key k u us a in
    elim (Bool-cases (bytes_eq u.token_hash h)) [
      | inl e ↦ rw (e, s u, other) absent
      | inr e ↦ rw (e, other) (used_absent now key h k us s absent)
    ]

used-IsTable :
    (now : ℤ) (h : Bytes) (us : List User)
    → IsTable us
    → IsTable (change (λ u. u.token_hash) h (λ u. record u { last_used_at = now }) us)
used-IsTable now h [] t = tt
used-IsTable now h (u ∷ us) (named, i, k, t) = elim (Bool-cases (bytes_eq u.token_hash h)) [
  | inl e ↦ rw e (named, i, k, t)
  | inr e ↦ rw e (
    named,
    used_absent now (λ x. x.id) h u.id us (λ x. refl) i,
    used_absent now (λ x. x.token_hash) h u.token_hash us (λ x. refl) k,
    used-IsTable now h us t,
  )
]

module _ (hash : Bytes → Bytes) where
  pub create_user-IsAccounts :
      (now : ℤ) (tokens ids : List Bytes) (label : Bytes) (us : List User)
      → IsAccounts us
      → IsAccounts (after us (create_user hash now tokens ids label us))
  unfolding create_user
  create_user-IsAccounts now tokens ids label us (t, n) =
      elim (Bool-cases (leb max_users (length us))) [
        | inl full ↦ rw (create_user, full) (t, n)
        | inr room ↦
            elim (Option-cases
              (first_free (λ t. token_hash_taken (hash t) [] us) (map with_prefix tokens))) [
                | inl e ↦ rw (create_user, room, e) (t, n)
                | inr (token, e) ↦
                    elim (Option-cases
                      (first_free (λ id. user_id_taken id us) (map with_prefix ids))) [
                        | inl e' ↦ rw (create_user, room, e, e') (t, n)
                        | inr (id, e') ↦
                            let fresh =
                              token_hash_taken-none (hash token) [] us
                                (first_free_free (λ t. token_hash_taken (hash t) [] us) _ token e)
                                (unnamed_absent us t) in
                            let absent =
                              user_id_taken-none id us
                                (first_free_free (λ i. user_id_taken i us) _ id e') in
                            rw (create_user, room, e, e')
                              (
                                append-IsTable _ us t
                                    (first_free_named (λ i. user_id_taken i us) ids id e') absent
                                    fresh,
                                one_more _ us room,
                              )
                      ]
              ]
      ]

  pub reset_user_token-IsAccounts :
      (tokens : List Bytes) (id : Bytes) (us : List User)
      → IsAccounts us
      → IsAccounts (after us (reset_user_token hash tokens id us))
  unfolding reset_user_token
  reset_user_token-IsAccounts tokens id us (t, n) = elim (Option-cases (user_by_id id us)) [
    | inl e ↦ rw (reset_user_token, e) (t, n)
    | inr (u, e) ↦
        elim (Option-cases
          (first_free (λ t. token_hash_taken (hash t) id us) (map with_prefix tokens))) [
            | inl e' ↦ rw (reset_user_token, e, e') (t, n)
            | inr (token, e') ↦
                rw (reset_user_token, e, e')
                  (
                    set_hash-IsTable id (hash token) us t
                        (first_free_free (λ t. token_hash_taken (hash t) id us) _ token e'),
                    subst (λ x. x ≤ max_users)
                        (sym (length-change (λ u. u.id) id (with_hash (hash token)) us)) n,
                  )
          ]
  ]

  -- The ways that `SetUserToken` goes.
  pub set_user_token-IsAccounts :
      (id raw : Bytes) (us : List User)
      → IsAccounts us
      → IsAccounts (set_user_token hash id raw us).0
  unfolding set_user_token
  set_user_token-IsAccounts id raw us (t, n) = by_token (normalize_user_token raw) refl
    where
      by_token :
          (r : Result UserError Bytes)
          → normalize_user_token raw ≡ r
          → IsAccounts (set_user_token hash id raw us).0
      by_token (err x) e = rw (set_user_token, e) (t, n)
      by_token (ok token) e = elim (Option-cases (user_by_id id us)) [
        | inl e' ↦ rw (set_user_token, e, e') (t, n)
        | inr (u, e') ↦ elim (Bool-cases (token_hash_taken (hash token) id us)) [
          | inl used ↦ rw (set_user_token, e, e', used) (t, n)
          | inr free ↦
              rw (set_user_token, e, e', free)
                (
                  set_hash-IsTable id (hash token) us t free,
                  subst (λ x. x ≤ max_users)
                      (sym (length-change (λ u. u.id) id (with_hash (hash token)) us)) n,
                )
        ]
      ]

  pub delete_user-IsAccounts :
      (id : Bytes) (us : List User) → IsAccounts us → IsAccounts (delete_user id us).0
  unfolding delete_user
  delete_user-IsAccounts id us (t, n) = elim (Option-cases (user_by_id id us)) [
    | inl e ↦ rw (delete_user, e) (t, n)
    | inr (u, e) ↦
        rw (delete_user, e) (drop_user-IsTable id us t, omega (arith, length-drop_user id us))
  ]

  pub user_by_token-IsAccounts :
      (now : ℤ) (raw : Bytes) (us : List User)
      → IsAccounts us
      → IsAccounts (user_by_token hash now raw us).0
  unfolding user_by_token
  user_by_token-IsAccounts now raw us (t, n) = elim (Bool-cases (no_text (trim_space raw))) [
    | inl e ↦ rw (user_by_token, e) (t, n)
    | inr e ↦ elim (Option-cases (holder (λ u. u.token_hash) (hash (trim_space raw)) us)) [
      | inl e' ↦ rw (user_by_token, e, e') (t, n)
      | inr (u, e') ↦
          rw (user_by_token, e, e')
            (
              used-IsTable now (hash (trim_space raw)) us t,
              subst (λ x. x ≤ max_users)
                  (sym (
                    length-change (λ x. x.token_hash) (hash (trim_space raw))
                      (λ x. record x { last_used_at = now }) us))
                  n,
            )
    ]
  ]
