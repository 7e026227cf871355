-- ===== src/Hub/Users.antt =====
-- internal/hub/users.go: the accounts, and who a token belongs to.
-- The table is `h.users`; times are in seconds. The random tokens and ids that a call draws are a
-- list, and where the list ends before one is free, the call is still drawing. `sha256` behind
-- `hex`, as `hashUserToken` has them, is a parameter.
pub mod Table
pub mod Tokens
pub mod Accounts
pub mod Draws
pub mod Reach
mod Examples
use capri_hub.Common.{
  ℕ, Bool, true, false, not, ◌&&◌, ◌||◌, Option, none, some, List, [], ◌∷◌, ◌++◌, map, ltb, leb,
  if◌then◌else◌, length,
}
use capri_hub.Common.Int.{ℤ, pos}
use capri_hub.Common.Words.{Bytes}
use capri_hub.Common.Text.{codes, bytes_eq}
use capri_hub.Common.Result.{Result, ok, err}
use capri_hub.Common.Strings.{trim_space, contains_any}
use capri_hub.Common.Names.{find, remove}
use capri_hub.Wire.Frame.Validate.{no_text}

abbrev pub max_users : ℕ
max_users = 256

-- The errors of the calls.
pub data UserError : Type 0 where
  user_unknown user_limit user_token_weak user_token_taken : UserError

pub record User : Type 0 where
  pub id : Bytes
  pub label : Bytes
  pub token_hash : Bytes
  pub created_at : ℤ
  pub last_used_at : ℤ

-- The label of an account without one: "用户".
abbrev default_label : Bytes
default_label = 231 ∷ 148 ∷ 168 ∷ 230 ∷ 136 ∷ 183 ∷ []

-- `normalizeUserToken`
unfoldable pub normalize_user_token : Bytes → Result UserError Bytes
unfolding trim_space contains_any
normalize_user_token raw =
    let token = trim_space raw in
    if ltb (length token) 16 || ltb 256 (length token)
    then err user_token_weak
    else if contains_any token (32 ∷ 9 ∷ 13 ∷ 10 ∷ [])
    then err user_token_weak
    else ok token

-- The first record whose key is `k`, as the loops of the file look for it.
abbrev pub holder : (User → Bytes) → Bytes → List User → Option User
holder key k [] = none
holder key k (u ∷ us) = if bytes_eq (key u) k then some u else holder key k us

-- `UserByID`
abbrev pub user_by_id : Bytes → List User → Option User
user_by_id id us = holder (λ u. u.id) id us

-- The write through the pointer to the record that was found.
abbrev pub change : (User → Bytes) → Bytes → (User → User) → List User → List User
change key k g [] = []
change key k g (u ∷ us) = if bytes_eq (key u) k then g u ∷ us else u ∷ change key k g us

abbrev pub drop_user : Bytes → List User → List User
drop_user id [] = []
drop_user id (u ∷ us) = if bytes_eq u.id id then us else u ∷ drop_user id us

-- `UserByToken`; the table comes back with the time of the use.
unfoldable pub user_by_token : (Bytes → Bytes) → ℤ → Bytes → List User → List User × Option User
unfolding trim_space
user_by_token hash now raw us =
    let token = trim_space raw in
    if no_text token then (us, none) else elim (holder (λ u. u.token_hash) (hash token) us) [
      | none ↦ (us, none)
      | some u ↦ (
        change (λ u. u.token_hash) (hash token) (λ u. record u { last_used_at = now }) us,
        some (record u { last_used_at = now }),
      )
    ]

-- `userIDTakenLocked` and `userExistsLocked`
unfoldable pub user_id_taken : Bytes → List User → Bool
user_id_taken id [] = false
user_id_taken id (u ∷ us) = bytes_eq u.id id || user_id_taken id us

-- `tokenHashTakenLocked`
unfoldable pub token_hash_taken : Bytes → Bytes → List User → Bool
token_hash_taken hash except [] = false
token_hash_taken hash except (u ∷ us) =
    (not (bytes_eq u.id except) && bytes_eq u.token_hash hash) || token_hash_taken hash except us

-- `newUserID` and `newUserToken`, for the text that was drawn.
abbrev pub with_prefix : Bytes → Bytes
with_prefix drawn = codes "u_" ++ drawn

-- The loops that draw until the text is free.
unfoldable pub first_free : (Bytes → Bool) → List Bytes → Option Bytes
first_free taken [] = none
first_free taken (d ∷ draws) = let rest = first_free taken draws in if taken d then rest else some d

-- `CreateUser`, which returns the account and its token.
unfoldable pub create_user :
    (Bytes → Bytes)
    → ℤ
    → List Bytes
    → List Bytes
    → Bytes
    → List User
    → Option (List User × Result UserError (User × Bytes))
unfolding first_free token_hash_taken user_id_taken trim_space
create_user hash now tokens ids raw us =
    let trimmed = trim_space raw in
    let label = if no_text trimmed then default_label else trimmed in
    if leb max_users (length us)
    then some (us, err user_limit)
    else elim (first_free (λ t. token_hash_taken (hash t) [] us) (map with_prefix tokens)) [
      | none ↦ none
      | some token ↦ elim (first_free (λ id. user_id_taken id us) (map with_prefix ids)) [
        | none ↦ none
        | some id ↦
            let u : User = record {
              id = id;
              label = label;
              token_hash = hash token;
              created_at = now;
              last_used_at = pos 0;
            } in
            some (us ++ (u ∷ []), ok (u, token))
      ]
    ]

-- `ResetUserToken`
unfoldable pub reset_user_token :
    (Bytes → Bytes)
    → List Bytes
    → Bytes
    → List User
    → Option (List User × Result UserError (User × Bytes))
unfolding first_free token_hash_taken
reset_user_token hash tokens id us = elim (user_by_id id us) [
  | none ↦ some (us, err user_unknown)
  | some u ↦ elim (first_free (λ t. token_hash_taken (hash t) id us) (map with_prefix tokens)) [
    | none ↦ none
    | some token ↦ some (
      change (λ u. u.id) id (λ u. record u { token_hash = hash token }) us,
      ok (record u { token_hash = hash token }, token),
    )
  ]
]

-- `SetUserToken`
unfoldable pub set_user_token :
    (Bytes → Bytes) → Bytes → Bytes → List User → List User × Result UserError User
unfolding normalize_user_token token_hash_taken
set_user_token hash id raw us = elim (normalize_user_token raw) [
  | err e ↦ (us, err e)
  | ok token ↦ elim (user_by_id id us) [
    | none ↦ (us, err user_unknown)
    | some u ↦ if token_hash_taken (hash token) id us then (us, err user_token_taken) else (
      change (λ u. u.id) id (λ u. record u { token_hash = hash token }) us,
      ok (record u { token_hash = hash token }),
    )
  ]
]

-- `DeleteUser`, as far as the table of the accounts goes.
unfoldable pub delete_user : Bytes → List User → List User × Option UserError
delete_user id us = elim (user_by_id id us) [
  | none ↦ (us, some user_unknown)
  | some u ↦ (drop_user id us, none)
]
