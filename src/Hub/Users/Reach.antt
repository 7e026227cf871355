-- ===== src/Hub/Users/Reach.antt =====
-- The tables that the calls reach, and who a token belongs to in them.
use capri_hub.Common.{
  ◌<◌, ◌≡◌, refl, ap, ◌∙◌, inl, inr, false, none, some, List, [], ◌∷◌, ◌++◌, map, ltb, leb,
  if◌then◌else◌, length, Bool-cases, Option-cases, subst, arith,
}
use capri_hub.Common.Int.{ℤ, pos}
use capri_hub.Common.Words.{Bytes}
use capri_hub.Common.Text.{bytes_eq}
use capri_hub.Common.Names.{bytes_eq_self}
use capri_hub.Common.Pigeonhole.{DistinctTexts}
use capri_hub.Common.Result.{Result, ok, err}
use capri_hub.Common.Strings.{trim_space, contains_any}
use capri_hub.Wire.Frame.Validate.{no_text}
use capri_hub.Hub.Users.{
  User, UserError, max_users, with_prefix, holder, drop_user, user_by_id, user_by_token,
  user_id_taken, token_hash_taken, create_user, reset_user_token, set_user_token, delete_user,
  normalize_user_token, user_token_weak, default_label,
}
use capri_hub.Hub.Users.Table.{
  IsTable, drop_user-holder, holder-append, holder_head, unnamed_absent, user_id_taken-none,
  token_hash_taken-none,
}
use capri_hub.Hub.Users.Draws.{first_free_found, user_id_taken-holder, token_hash_taken-holder}
use capri_hub.Hub.Users.Tokens.{with_hash, set_hash, set_hash_found, set_hash_gone}
use capri_hub.Hub.Users.Accounts.{
  IsAccounts, after, first_free_free, create_user-IsAccounts, reset_user_token-IsAccounts,
  set_user_token-IsAccounts, delete_user-IsAccounts, user_by_token-IsAccounts,
}

-- One call, with whatever it draws and is given.
pub data UserStep (hash : Bytes → Bytes) : List User → List User → Type 0 where
  creates :
      (now : ℤ) (tokens ids : List Bytes) (label : Bytes) (us : List User)
      → UserStep hash us (after us (create_user hash now tokens ids label us))
  resets :
      (tokens : List Bytes) (id : Bytes) (us : List User)
      → UserStep hash us (after us (reset_user_token hash tokens id us))
  sets : (id raw : Bytes) (us : List User) → UserStep hash us (set_user_token hash id raw us).0
  deletes : (id : Bytes) (us : List User) → UserStep hash us (delete_user id us).0
  looks_up :
      (now : ℤ) (raw : Bytes) (us : List User) → UserStep hash us (user_by_token hash now raw us).0

pub data UserSteps (hash : Bytes → Bytes) : List User → List User → Type 0 where
  none_yet : (us : List User) → UserSteps hash us us
  and_then :
      (us vs ws : List User) → UserSteps hash us vs → UserStep hash vs ws → UserSteps hash us ws

-- The record that one key finds is not the one that another does not find.
holder_apart :
    (k id : Bytes) (u : User) (us : List User)
    → holder (λ x. x.token_hash) k us ≡ some u
    → holder (λ x. x.id) id us ≡ none
    → bytes_eq u.id id ≡ false
holder_apart k id u [] h a = cc
holder_apart k id u (x ∷ us) h a =
    let (other, absent) = holder_head (λ y. y.id) id x us a in
    elim (Bool-cases (bytes_eq x.token_hash k)) [
      | inl e ↦
          let h' : some x ≡ some u = rw e at h in
          let same : x ≡ u = cc in subst (λ y. bytes_eq y.id id ≡ false) same other
      | inr e ↦ holder_apart k id u us (rw e at h) absent
    ]

enough_text : (s : Bytes) → ltb (length s) 16 ≡ false → no_text s ≡ false
enough_text [] h = cc
enough_text (a ∷ s) h = refl

-- What `normalizeUserToken` lets through is what was given, without the spaces around it, and it is
-- not empty.
normalized :
    (raw token : Bytes)
    → normalize_user_token raw ≡ ok token
    → (trim_space raw ≡ token) × (no_text token ≡ false)
unfolding normalize_user_token
normalized raw token h =
    let t = trim_space raw in
    elim (Bool-cases (ltb (length t) 16)) [
      | inl short ↦
          absurd
            (let h' : err user_token_weak ≡ ok token = rw (normalize_user_token, short) at h in cc)
      | inr long ↦ elim (Bool-cases (ltb 256 (length t))) [
        | inl large ↦ absurd (
            let h' : err user_token_weak ≡ ok token = rw (normalize_user_token, long, large) at h in
            cc)
        | inr fits ↦ elim (Bool-cases (contains_any t (32 ∷ 9 ∷ 13 ∷ 10 ∷ []))) [
          | inl spaced ↦ absurd (
              let h' : err user_token_weak ≡ ok token =
                rw (normalize_user_token, long, fits, spaced) at h in
              cc)
          | inr solid ↦
              let h' : Path (Result UserError Bytes) (ok t) (ok token) =
                rw (normalize_user_token, long, fits, solid) at h in
              let same : t ≡ token = cc in
              (same, subst (λ x. no_text x ≡ false) same (enough_text t long))
        ]
      ]
    ]

module _ (hash : Bytes → Bytes) where
  step-IsAccounts : (us vs : List User) → UserStep hash us vs → IsAccounts us → IsAccounts vs
  step-IsAccounts us vs (creates now tokens ids label ts) a =
      create_user-IsAccounts hash now tokens ids label ts a
  step-IsAccounts us vs (resets tokens id ts) a = reset_user_token-IsAccounts hash tokens id ts a
  step-IsAccounts us vs (sets id raw ts) a = set_user_token-IsAccounts hash id raw ts a
  step-IsAccounts us vs (deletes id ts) a = delete_user-IsAccounts hash id ts a
  step-IsAccounts us vs (looks_up now raw ts) a = user_by_token-IsAccounts hash now raw ts a

  -- After any calls from a well-formed table, no account lacks an id, no two share an id or the hash
  -- of a token, and there are at most 256.
  pub steps-IsAccounts : (us vs : List User) → UserSteps hash us vs → IsAccounts us → IsAccounts vs
  steps-IsAccounts us vs (none_yet ts) a = a
  steps-IsAccounts us vs (and_then xs ys zs s t) a =
      step-IsAccounts ys zs t (steps-IsAccounts xs ys s a)

  token_found :
      (now : ℤ) (raw : Bytes) (u : User) (us : List User)
      → no_text (trim_space raw) ≡ false
      → holder (λ x. x.token_hash) (hash (trim_space raw)) us ≡ some u
      → (user_by_token hash now raw us).1 ≡ some (record u { last_used_at = now })
  unfolding user_by_token
  token_found now raw u us n h = rw (user_by_token, n, h) refl

  token_gone :
      (now : ℤ) (raw : Bytes) (us : List User)
      → holder (λ x. x.token_hash) (hash (trim_space raw)) us ≡ none
      → (user_by_token hash now raw us).1 ≡ none
  unfolding user_by_token
  token_gone now raw us h = elim (Bool-cases (no_text (trim_space raw))) [
    | inl e ↦ rw (user_by_token, e) refl
    | inr e ↦ rw (user_by_token, e, h) refl
  ]

  -- An account that sets a token that is long enough, and that no other account has, is the one
  -- that the token is looked up to from then on; its old token is nobody's.
  pub set_user_token_lem :
      (now : ℤ) (id raw old token : Bytes) (u : User) (us : List User)
      → IsTable us
      → user_by_id id us ≡ some u
      → normalize_user_token raw ≡ ok token
      → token_hash_taken (hash token) id us ≡ false
      → hash (trim_space old) ≡ u.token_hash
      → bytes_eq (hash token) u.token_hash ≡ false
      → ((user_by_token hash now raw (set_user_token hash id raw us).0).1
          ≡ some (record u { token_hash = hash token; last_used_at = now }))
        × ((user_by_token hash now old (set_user_token hash id raw us).0).1 ≡ none)
  unfolding set_user_token
  set_user_token_lem now id raw old token u us t e n free o apart =
      let (same, named) = normalized raw token n in
      let found = set_hash_found id (hash token) u us e free in
      let gone = set_hash_gone id (hash token) u us t e apart in
      let us' = set_hash id (hash token) us in
      rw (set_user_token, n, e, free)
        (
          token_found now raw (with_hash (hash token) u) us' (ap no_text same ∙ named)
              (ap (λ x. holder (λ y. y.token_hash) (hash x) us') same ∙ found),
          token_gone now old us' (ap (λ x. holder (λ y. y.token_hash) x us') o ∙ gone),
        )

  -- An account that is deleted is in no table that comes after, so no token is looked up to it.
  delete_user-user_by_token :
      (now : ℤ) (id raw : Bytes) (u v : User) (us : List User)
      → IsTable us
      → user_by_id id us ≡ some u
      → (user_by_token hash now raw (delete_user id us).0).1 ≡ some v
      → bytes_eq v.id id ≡ false
  unfolding delete_user user_by_token
  delete_user-user_by_token now id raw u v us t e h = elim (Bool-cases (no_text (trim_space raw))) [
    | inl n ↦ absurd (let h' : none ≡ some v = rw (user_by_token, n) at h in cc)
    | inr n ↦
        elim (Option-cases (holder (λ x. x.token_hash) (hash (trim_space raw)) (drop_user id us))) [
          | inl gone ↦
              absurd
                (let h' : none ≡ some v = rw (user_by_token, delete_user, e, n, gone) at h in cc)
          | inr (x, there) ↦
              let h' : some (record x { last_used_at = now }) ≡ some v =
                rw (user_by_token, delete_user, e, n, there) at h in
              let same : record x { last_used_at = now } ≡ v = cc in
              subst (λ y. bytes_eq y.id id ≡ false) same
                (holder_apart (hash (trim_space raw)) id x (drop_user id us) there
                  (drop_user-holder id us t))
        ]
  ]

  -- `CreateUser` does not draw for ever: below the bound, where more tokens with distinct hashes are
  -- drawn than there are accounts, and more distinct ids, it makes an account, and the token it
  -- returns is looked up to it.
  pub create_user_found :
      (now : ℤ) (tokens ids : List Bytes) (label : Bytes) (us : List User)
      → IsTable us
      → length us < max_users
      → DistinctTexts (map hash (map with_prefix tokens))
      → length us < length (map with_prefix tokens)
      → DistinctTexts (map (λ d. d) (map with_prefix ids))
      → length us < length (map with_prefix ids)
      → (us' : List User) × (u : User) × (token : Bytes) × (create_user hash now tokens ids label us
          ≡ some (us', ok (u, token)))
        × (holder (λ x. x.token_hash) (hash token) us' ≡ some u)
        × (user_by_id u.id us' ≡ some u)
  unfolding create_user
  create_user_found now tokens ids label us t room dt nt di ni =
      let full : leb max_users (length us) ≡ false = ground arith in
      let (token, e) =
        first_free_found (λ t. token_hash_taken (hash t) [] us) hash (λ u. u.token_hash) us
          (map with_prefix tokens) (λ d h. token_hash_taken-holder (hash d) [] us h) dt nt in
      let (id, e') =
        first_free_found (λ i. user_id_taken i us) (λ d. d) (λ u. u.id) us (map with_prefix ids)
          (λ d h. user_id_taken-holder d us h) di ni in
      let fresh =
        token_hash_taken-none (hash token) [] us
          (first_free_free (λ x. token_hash_taken (hash x) [] us) _ token e)
          (unnamed_absent us t) in
      let absent = user_id_taken-none id us (first_free_free (λ i. user_id_taken i us) _ id e') in
      let u : User = record {
        id = id;
        label = if no_text (trim_space label) then default_label else trim_space label;
        token_hash = hash token;
        created_at = now;
        last_used_at = pos 0;
      } in
      (
        us ++ (u ∷ []),
        u,
        token,
        rw (create_user, full, e, e') refl,
        holder-append (λ x. x.token_hash) (hash token) u us fresh
            ∙ rw (bytes_eq_self (hash token)) refl,
        holder-append (λ x. x.id) id u us absent ∙ rw (bytes_eq_self id) refl,
      )
