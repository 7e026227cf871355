-- ===== src/Hub/Registry.antt =====
-- internal/hub/hub.go: the hosts, their tokens and the pairing codes.
-- The registry is `h.hosts`, `h.tokens` and the codes of `h`; times are in milliseconds. What a call
-- draws at random is given to it: one token, and a list of codes, where a list that ends before a
-- code is free leaves the call drawing. `hs.ownerID` and `hs.info.OwnerID` are written together and
-- are one field here; the session of a host and what is written to disk are not part of it.
-- The case tables of Unicode, which `strings.ToUpper` reads, are a parameter.
pub mod Tokens
pub mod Pairing
pub mod Owners
pub mod Owned
pub mod Credentials
pub mod Others
mod Examples
use capri_hub.Common.{
  ℕ, zero, suc, ◌+◌, ◌-◌, ◌*◌, Bool, true, false, not, ◌&&◌, ◌||◌, Option, none, some, List, [],
  ◌∷◌, ◌++◌, ltb, leb, take, if◌then◌else◌, length,
}
use capri_hub.Common.Int.{ℤ, pos, ltb_ℤ}
use capri_hub.Common.Words.{Bytes}
use capri_hub.Common.Text.{codes, bytes_eq}
use capri_hub.Common.Result.{Result, ok, err, ◌>>=◌}
use capri_hub.Common.Strings.{trim_space, to_upper, trim_prefix, decimal}
use capri_hub.Common.Names.{find, put, remove}
use capri_hub.Wire.Frame.Validate.{no_text}
use capri_hub.Hub.Users.{User, user_id_taken, first_free}

abbrev pub max_hosts : ℕ
max_hosts = 256

abbrev pub max_host_id_len : ℕ
max_host_id_len = 128

abbrev pub max_host_name_len : ℕ
max_host_name_len = 256

abbrev pub pairing_code_ttl : ℕ
pairing_code_ttl = 15 * 60 * 1000

-- The errors of the calls.
pub data PairError : Type 0 where
  code_invalid host_id_empty host_id_long host_name_long host_name_empty host_limit host_unknown :
      PairError

-- A call that does not return: a slice out of range, or a loop that is not at its end.
pub data Fault : Type 0 where
  slice_range still_looking : Fault

-- `hostState`, as far as the registry goes
pub record Host : Type 0 where
  pub owner : Bytes
  pub name : Bytes
  pub port : ℤ
  pub token : Bytes
  pub last_seen : ℕ

pub record UserPairCode : Type 0 where
  pub code_owner : Bytes
  pub expires : ℕ

pub record Registry : Type 0 where
  pub hosts : List (Bytes × Host)
  pub tokens : List (Bytes × Bytes)
  pub pairing_code : Bytes
  pub code_expires : ℕ
  pub user_codes : List (Bytes × UserPairCode)
  pub code_by_owner : List (Bytes × Bytes)

abbrev pub root : Bytes
root = codes "root"

-- `hostOwnerOrDefault`
unfoldable pub owner_or_default : Bytes → Bytes
unfolding trim_space
owner_or_default owner = if no_text (trim_space owner) then root else owner

-- Is the name a key of the map?
abbrev pub has_key {ℓ} : {V : Type ℓ} → Bytes → List (Bytes × V) → Bool
has_key k m = elim (find k m) [ none ↦ false | some v ↦ true ]

-- `rotateCode`
unfoldable pub rotate_code : ℕ → List Bytes → Registry → Option Registry
unfolding first_free
rotate_code now draws r = elim (first_free (λ code. has_key code r.user_codes) draws) [
  | none ↦ none
  | some code ↦ some (record r { pairing_code = code; code_expires = now + pairing_code_ttl })
]

-- `newUniquePairCodeLocked`
abbrev pub new_unique_pair_code : List Bytes → Registry → Option Bytes
new_unique_pair_code draws r =
    first_free (λ code. bytes_eq code r.pairing_code || has_key code r.user_codes) draws

-- `ensureFreshPairingCode`
unfoldable pub ensure_fresh_pairing_code : ℕ → List Bytes → Registry → Option Registry
unfolding rotate_code
ensure_fresh_pairing_code now draws r =
    if ltb r.code_expires now then rotate_code now draws r else some r

-- The suffix of an account, and the one of the round `i`.
unfoldable pub first_suffix : Bytes → Bytes
unfolding trim_prefix
first_suffix owner =
    let trimmed = trim_prefix owner (codes "u_") in if no_text trimmed then root else trimmed

unfoldable pub round_suffix : Bytes → ℕ → Bytes
unfolding trim_prefix decimal
round_suffix owner i =
    let short = trim_prefix owner (codes "u_") ++ codes "-" ++ decimal i in
    if no_text short || bytes_eq short (codes "-") then codes "root-" ++ decimal i else short

-- Do the base and the suffix fit, and does the slice that makes them fit fail?
abbrev pub suffix_fits : Bytes → Bytes → Bool
suffix_fits base suffix = not (ltb max_host_id_len (length base + length suffix + 2))

abbrev pub slice_fails : Bytes → Bool
slice_fails suffix = ltb max_host_id_len (length suffix + 2)

abbrev pub cut_for : Bytes → Bytes → Bytes
cut_for suffix requested = take (max_host_id_len - length suffix - 2) requested

abbrev pub joined : Bytes → Bytes → Bytes
joined base suffix = base ++ codes "-" ++ suffix

-- The loop of `resolveHostIDLocked`, from the round `i`.
unfoldable pub free_host_id :
    ℕ → ℕ → Bytes → Bytes → Bytes → Bytes → List (Bytes × Host) → Result Fault Bytes
unfolding round_suffix
free_host_id zero i owner requested base candidate hosts = err still_looking
free_host_id (suc fuel) i owner requested base candidate hosts =
    let suffix = round_suffix owner i in
    let cut = cut_for suffix requested in
    let with_base = free_host_id fuel (suc i) owner requested base (joined base suffix) hosts in
    let with_cut = free_host_id fuel (suc i) owner requested cut (joined cut suffix) hosts in
    if not (has_key candidate hosts)
    then ok candidate
    else if suffix_fits base suffix
    then with_base
    else if slice_fails suffix
    then err slice_range
    else with_cut

-- `resolveHostIDLocked`; a free id is looked for in as many rounds as there are hosts, and one more.
unfoldable pub resolve_host_id : Bytes → Bytes → List (Bytes × Host) → Result Fault Bytes
unfolding free_host_id first_suffix owner_or_default
resolve_host_id owner requested hosts =
    let suffix = first_suffix owner in
    let cut = cut_for suffix requested in
    let rounds = suc (length hosts) in
    elim (find requested hosts) [
      | none ↦ ok requested
      | some hs ↦
          if bytes_eq (owner_or_default hs.owner) owner
          then ok requested
          else if suffix_fits requested suffix
          then free_host_id rounds 2 owner requested requested (joined requested suffix) hosts
          else if slice_fails suffix
          then err slice_range
          else free_host_id rounds 2 owner requested cut (joined cut suffix) hosts
    ]

-- The tokens that lead elsewhere.
unfoldable pub tokens_without : Bytes → List (Bytes × Bytes) → List (Bytes × Bytes)
tokens_without host_id [] = []
tokens_without host_id ((tok, hid) ∷ m) =
    let rest = tokens_without host_id m in if bytes_eq hid host_id then rest else (tok, hid) ∷ rest

-- `revokeTokensForHostLocked`
unfoldable pub revoke_tokens : Bytes → Registry → Registry
unfolding tokens_without
revoke_tokens host_id r = record r {
  tokens = tokens_without host_id r.tokens;
  hosts = elim (find host_id r.hosts) [
    | none ↦ r.hosts
    | some hs ↦ put host_id (record hs { token = [] }) r.hosts
  ];
}

-- `HostIDForToken`
abbrev pub host_id_for_token : Bytes → Registry → Option Bytes
host_id_for_token token r = find token r.tokens

-- `Unpair`, as far as the registry goes
unfoldable pub unpair : Bytes → Registry → Registry × Option PairError
unfolding revoke_tokens trim_space
unpair raw r =
    let host_id = trim_space raw in
    elim (find host_id r.hosts) [
      | none ↦ (r, some host_unknown)
      | some hs ↦
          let r' = revoke_tokens host_id r in (record r' { hosts = remove host_id r'.hosts }, none)
    ]

-- `RenameHost`
unfoldable pub rename_host : Bytes → Bytes → Registry → Registry × Option PairError
unfolding trim_space
rename_host raw_id raw_name r =
    let host_id = trim_space raw_id in
    let host_name = trim_space raw_name in
    if no_text host_id
    then (r, some host_id_empty)
    else if no_text host_name
    then (r, some host_name_empty)
    else if ltb max_host_name_len (length host_name)
    then (r, some host_name_long)
    else elim (find host_id r.hosts) [
      | none ↦ (r, some host_unknown)
      | some hs ↦ (record r { hosts = put host_id (record hs { name = host_name }) r.hosts }, none)
    ]
