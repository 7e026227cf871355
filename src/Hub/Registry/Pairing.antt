-- ===== src/Hub/Registry/Pairing.antt =====
-- internal/hub/hub.go: what a pairing code gives, and the codes of the users.
use capri_hub.Common.{
  ℕ, ◌+◌, Bool, false, not, ◌&&◌, Option, none, some, List, ltb, leb, if◌then◌else◌, length,
}
use capri_hub.Common.Int.{ℤ, pos, ltb_ℤ}
use capri_hub.Common.Words.{Bytes}
use capri_hub.Common.Text.{bytes_eq}
use capri_hub.Common.Result.{Result, ok, err}
use capri_hub.Common.Strings.{trim_space, to_upper}
use capri_hub.Common.Names.{find, put, remove}
use capri_hub.Wire.Frame.Validate.{no_text}
use capri_hub.Hub.Users.{User, user_id_taken, first_free}
use capri_hub.Hub.Registry.{
  max_hosts, max_host_id_len, max_host_name_len, pairing_code_ttl, PairError, code_invalid,
  host_id_empty, host_id_long, host_name_long, host_limit, Fault, still_looking, Registry, root,
  owner_or_default, rotate_code, new_unique_pair_code, ensure_fresh_pairing_code, resolve_host_id,
  revoke_tokens,
}

-- `strings.ToUpper(strings.TrimSpace(code))`
abbrev pub code_key : (Bytes → Bytes) → Bytes → Bytes
code_key unicode code = to_upper unicode (trim_space code)

-- The checks of `PairAs` on the code.
unfoldable pub code_holds : (Bytes → Bytes) → ℕ → List User → Bytes → Bytes → Registry → Bool
unfolding user_id_taken trim_space to_upper
code_holds unicode now users owner code r =
    if bytes_eq owner root
    then bytes_eq (code_key unicode code) r.pairing_code && not (ltb r.code_expires now)
    else elim (find (code_key unicode code) r.user_codes) [
      | none ↦ false
      | some entry ↦
          bytes_eq entry.code_owner owner
          && not (ltb entry.expires now)
          && user_id_taken owner users
    ]

-- `0 < port <= 65535`
abbrev pub port_or : ℤ → ℤ → ℤ
port_or port old = if ltb_ℤ (pos 0) port && not (ltb_ℤ (pos 65535) port) then port else old

-- The host of `PairAs` with its new token: paired again, or new.
unfoldable pub admit_host :
    ℕ → Bytes → Bytes → Bytes → ℤ → Bytes → Registry → Result PairError Registry
unfolding revoke_tokens
admit_host now owner id name port token r = elim (find id r.hosts) [
  | some hs ↦
      let r' = revoke_tokens id r in
      ok (record r' {
        hosts =
            put id
              (record {
                owner = owner;
                name = name;
                port = port_or port hs.port;
                token = token;
                last_seen = now;
              })
              r'.hosts;
        tokens = put token id r'.tokens;
      })
  | none ↦
      if leb max_hosts (length r.hosts)
      then err host_limit
      else ok (record r {
        hosts =
            put id
              (record {
                owner = owner;
                name = name;
                port = port_or port (pos 0);
                token = token;
                last_seen = now;
              })
              r.hosts;
        tokens = put token id r.tokens;
      })
]

-- A code is good for one pairing: the root's is replaced, a user's is removed.
unfoldable pub consume_code :
    (Bytes → Bytes) → ℕ → List Bytes → Bytes → Bytes → Registry → Option Registry
unfolding rotate_code trim_space to_upper
consume_code unicode now draws owner code r =
    if bytes_eq owner root
    then rotate_code now draws r
    else some (record r {
      user_codes = remove (code_key unicode code) r.user_codes;
      code_by_owner = remove owner r.code_by_owner;
    })

-- `PairAs`, with the token that it draws; an absent port is 0.
unfoldable pub pair_as :
    (Bytes → Bytes)
    → ℕ
    → List User
    → List Bytes
    → Bytes
    → Bytes
    → Bytes
    → Bytes
    → Bytes
    → ℤ
    → Registry
    → Result Fault (Registry × Result PairError (Bytes × Bytes))
unfolding code_holds admit_host consume_code resolve_host_id owner_or_default
pair_as unicode now users draws token raw_owner code raw_id raw_name port r =
    let owner = owner_or_default (trim_space raw_owner) in
    let host_id = trim_space raw_id in
    let host_name = trim_space raw_name in
    if not (code_holds unicode now users owner code r)
    then ok (r, err code_invalid)
    else if no_text host_id
    then ok (r, err host_id_empty)
    else if ltb max_host_id_len (length host_id)
    then ok (r, err host_id_long)
    else if ltb max_host_name_len (length host_name)
    then ok (r, err host_name_long)
    else elim (resolve_host_id owner host_id r.hosts) [
      | err fault ↦ err fault
      | ok id ↦ elim (admit_host now owner id host_name port token r) [
        | err e ↦ ok (r, err e)
        | ok r' ↦ elim (consume_code unicode now draws owner code r') [
          | none ↦ err still_looking
          | some r'' ↦ ok (r'', ok (token, id))
        ]
      ]
    ]

-- The new code that both of the next two calls end with.
abbrev issue_code : ℕ → List Bytes → Bytes → Registry → Option (Registry × Bytes)
issue_code now draws owner r = elim (new_unique_pair_code draws r) [
  | none ↦ none
  | some code ↦ some (
    record r {
      user_codes =
          put code (record { code_owner = owner; expires = now + pairing_code_ttl }) r.user_codes;
      code_by_owner = put owner code r.code_by_owner;
    },
    code,
  )
]

-- The code of the owner that is still live, if there is one.
abbrev pub live_code : ℕ → Bytes → Registry → Option Bytes
live_code now owner r = elim (find owner r.code_by_owner) [
  | none ↦ none
  | some cur ↦ elim (find cur r.user_codes) [
    | none ↦ none
    | some entry ↦
        if not (no_text cur) && bytes_eq entry.code_owner owner && ltb now entry.expires
        then some cur
        else none
  ]
]

-- `UserPairingCode`
unfoldable pub user_pairing_code : ℕ → List Bytes → Bytes → Registry → Option (Registry × Bytes)
unfolding first_free ensure_fresh_pairing_code owner_or_default
user_pairing_code now draws raw_owner r =
    let owner = owner_or_default (trim_space raw_owner) in
    if bytes_eq owner root
    then elim (ensure_fresh_pairing_code now draws r) [
      | none ↦ none
      | some r' ↦ some (r', r'.pairing_code)
    ]
    else elim (live_code now owner r) [
      | some cur ↦ some (r, cur)
      | none ↦ issue_code now draws owner r
    ]

-- What `RotateUserPairingCode` does to the current code.
abbrev drop_current : Bytes → Registry → Registry
drop_current owner r = elim (find owner r.code_by_owner) [
  | none ↦ r
  | some cur ↦ if no_text cur then r else record r {
    user_codes = remove cur r.user_codes;
    code_by_owner = remove owner r.code_by_owner;
  }
]

-- `RotateUserPairingCode`; the root's way is `RotatePairingCode`.
unfoldable pub rotate_user_pairing_code :
    ℕ → List Bytes → Bytes → Registry → Option (Registry × Bytes)
unfolding first_free rotate_code owner_or_default
rotate_user_pairing_code now draws raw_owner r =
    let owner = owner_or_default (trim_space raw_owner) in
    if bytes_eq owner root
    then elim (rotate_code now draws r) [ none ↦ none | some r' ↦ some (r', r'.pairing_code) ]
    else issue_code now draws owner (drop_current owner r)

-- `OwnerForPairCode`
unfoldable pub owner_for_pair_code : (Bytes → Bytes) → ℕ → Bytes → Registry → Option Bytes
unfolding trim_space to_upper
owner_for_pair_code unicode now code r =
    let key = code_key unicode code in
    if bytes_eq key r.pairing_code && ltb now r.code_expires
    then some root
    else elim (find key r.user_codes) [
      | none ↦ none
      | some entry ↦ if ltb entry.expires now then none else some entry.code_owner
    ]
