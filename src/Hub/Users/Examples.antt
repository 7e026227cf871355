-- ===== src/Hub/Users/Examples.antt =====
-- Two accounts, under a toy hash that is the text itself.
use capri_hub.Common.{◌≡◌, refl, none, some, List, [], ◌∷◌, arith}
use capri_hub.Common.Int.{pos}
use capri_hub.Common.Words.{Bytes}
use capri_hub.Common.Text.{codes, bytes_eq}
use capri_hub.Common.Strings.{trim_space, contains_any}
use capri_hub.Common.Result.{ok}
use capri_hub.Hub.Users.{
  User, holder, user_by_id, user_by_token, create_user, set_user_token, delete_user,
  normalize_user_token, token_hash_taken,
}
use capri_hub.Hub.Users.Accounts.{IsAccounts, after}
use capri_hub.Hub.Users.Reach.{
  none_yet, and_then, creates, deletes, steps-IsAccounts, set_user_token_lem, create_user_found,
}

abbrev plain_hash : Bytes → Bytes
plain_hash s = s

abbrev ann : User
ann = record {
  id = codes "u_a";
  label = codes "ann";
  token_hash = codes "u_old";
  created_at = pos 1;
  last_used_at = pos 0;
}

abbrev bob : User
bob = record ann { id = codes "u_b"; token_hash = codes "u_bob" }

abbrev two_users : List User
two_users = ann ∷ bob ∷ []

-- A token with a space before it.
abbrev typed : Bytes
typed = codes " 0123456789abcdef"

abbrev new_token : Bytes
new_token = codes "0123456789abcdef"

set_user_token_lem_example :
    ((user_by_token plain_hash
        (pos 9)
        typed
        (set_user_token plain_hash (codes "u_a") typed two_users).0).1
      ≡ some (record ann { token_hash = new_token; last_used_at = pos 9 }))
    × ((user_by_token plain_hash
          (pos 9)
          (codes "u_old")
          (set_user_token plain_hash (codes "u_a") typed two_users).0).1
        ≡ none)
unfolding bytes_eq normalize_user_token trim_space contains_any token_hash_taken
set_user_token_lem_example =
    set_user_token_lem plain_hash (pos 9) (codes "u_a") typed (codes "u_old") new_token ann
      two_users (refl, refl, refl, (refl, refl, refl, tt)) refl refl refl refl refl

steps-IsAccounts_example :
    IsAccounts
      (delete_user (codes "u_a") (
        after []
          (create_user plain_hash (pos 5) (codes "t" ∷ []) (codes "a" ∷ []) (codes "ann") []))).0
steps-IsAccounts_example =
    let made =
      after []
        (create_user plain_hash (pos 5) (codes "t" ∷ []) (codes "a" ∷ []) (codes "ann") []) in
    steps-IsAccounts plain_hash [] (delete_user (codes "u_a") made).0
      (and_then [] made (delete_user (codes "u_a") made).0
        (and_then [] [] made (none_yet [])
          (creates (pos 5) (codes "t" ∷ []) (codes "a" ∷ []) (codes "ann") []))
        (deletes (codes "u_a") made))
      (tt, omega arith)

create_user_found_example :
    (us : List User) × (u : User) × (token : Bytes) × (create_user plain_hash
        (pos 5)
        (codes "old" ∷ codes "x" ∷ [])
        (codes "a" ∷ codes "c" ∷ [])
        (codes "cy")
        (ann ∷ [])
      ≡ some (us, ok (u, token)))
    × (holder (λ x. x.token_hash) (plain_hash token) us ≡ some u)
    × (user_by_id u.id us ≡ some u)
unfolding bytes_eq
create_user_found_example =
    create_user_found plain_hash (pos 5) (codes "old" ∷ codes "x" ∷ []) (codes "a" ∷ codes "c" ∷ [])
      (codes "cy") (ann ∷ []) (refl, refl, refl, tt) (omega arith) ((refl, tt), (tt, tt))
      (omega arith) ((refl, tt), (tt, tt)) (omega arith)

-- Spaces go at both ends, and only there.
trim_space_run : trim_space (codes " \t\r\n x y  ") ≡ codes "x y"
unfolding trim_space
trim_space_run = refl
