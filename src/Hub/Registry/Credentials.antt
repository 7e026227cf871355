-- ===== src/Hub/Registry/Credentials.antt =====
-- What `PairAs` leaves: one credential of the host, and nobody else's host.
use capri_hub.Common.{
  ℕ, ◌≤◌, ◌+◌, ◌≡◌, refl, sym, ap, ◌∙◌, inl, inr, true, false, none, some, List, [], length, ltb,
  leb, Bool-cases, Option-cases, subst, arith,
}
use capri_hub.Common.Int.{ℤ, pos}
use capri_hub.Common.Words.{Bytes}
use capri_hub.Common.Text.{bytes_eq, bytes_eq_iff}
use capri_hub.Common.Result.{Result, ok, err, Result-cases}
use capri_hub.Common.Strings.{trim_space}
use capri_hub.Common.Names.{
  find, put, remove, DistinctNames, bytes_eq_self, find-put, find-put_self, put-DistinctNames,
  length-put,
}
use capri_hub.Wire.Frame.Validate.{no_text}
use capri_hub.Hub.Users.{User, first_free}
use capri_hub.Hub.Registry.{
  max_hosts, max_host_id_len, max_host_name_len, Host, Registry, PairError, Fault, code_invalid,
  host_id_empty, host_id_long, host_name_long, host_limit, still_looking, has_key, resolve_host_id,
  owner_or_default, tokens_without, root, host_id_for_token, rotate_code, pairing_code_ttl,
}
use capri_hub.Hub.Registry.Tokens.{
  IsRegistry, Values, put-Values, tokens_without-Values, Values-map, revoked_elsewhere, Paired,
  put-Paired, length-put_same, revoke_tokens_found, find-Values,
}
use capri_hub.Hub.Registry.Owners.{resolve_host_id-owner}
use capri_hub.Hub.Registry.Pairing.{
  code_holds, admit_host, consume_code, pair_as, code_key, port_or,
}

-- The host holds the token, no other token leads to it, and it belongs to the owner.
pub record Admitted (owner id token : Bytes) (r : Registry) : Type 0 where
  pub well_formed : IsRegistry r
  pub leads : host_id_for_token token r ≡ some id
  pub sole : (t : Bytes) → host_id_for_token t r ≡ some id → t ≡ token
  pub owned : (hs : Host) × (find id r.hosts ≡ some hs) × (hs.owner ≡ owner)

sole_token :
    (id token t : Bytes) (m : List (Bytes × Bytes))
    → ((j : Bytes) → find t m ≡ some j → bytes_eq j id ≡ false)
    → find t (put token id m) ≡ some id
    → t ≡ token
sole_token id token t m other h = elim (Bool-cases (bytes_eq token t)) [
  | inl e ↦ sym ((bytes_eq_iff token t).0 e)
  | inr e ↦
      let h' : find t m ≡ some id = sym (find-put token t id m ∙ rw e refl) ∙ h in
      absurd (let h'' : true ≡ false = sym (bytes_eq_self id) ∙ other id h' in cc)
]

-- A host that is paired anew, over tokens that lead to hosts, of which none leads to it.
admitted :
    (owner id token : Bytes) (hs : Host) (r : Registry) (hosts : List (Bytes × Host))
    (tokens : List (Bytes × Bytes))
    → hs.owner ≡ owner
    → DistinctNames hosts
    → length (put id hs hosts) ≤ max_hosts
    → Values (Paired hosts) tokens
    → ((t j : Bytes) → find t tokens ≡ some j → bytes_eq j id ≡ false)
    → Admitted owner id token (record r { hosts = put id hs hosts; tokens = put token id tokens })
admitted owner id token hs r hosts tokens o d n a other = record {
  well_formed = record {
    distinct = put-DistinctNames id hs hosts d;
    few = n;
    anchored =
        put-Values (Paired (put id hs hosts)) token id tokens
          (Values-map (Paired hosts) (Paired (put id hs hosts)) tokens
            (λ j. put-Paired id j hs hosts) a)
          (hs, find-put_self id hs hosts);
  };
  leads = find-put_self token id tokens;
  sole = λ t. sole_token id token t tokens (other t);
  owned = (hs, find-put_self id hs hosts, o);
}

pub leads_elsewhere :
    (id j : Bytes) (hosts : List (Bytes × Host))
    → find id hosts ≡ none
    → Paired hosts j
    → bytes_eq j id ≡ false
leads_elsewhere id j hosts e (hs, there) = elim (Bool-cases (bytes_eq j id)) [
  | inr o ↦ o
  | inl o ↦
      let q : j ≡ id = (bytes_eq_iff j id).0 o in
      absurd (let h : none ≡ some hs = sym e ∙ ap (λ x. find x hosts) (sym q) ∙ there in cc)
]

pub admit_host-Admitted :
    (now : ℕ) (owner id name : Bytes) (port : ℤ) (token : Bytes) (r r' : Registry)
    → IsRegistry r
    → admit_host now owner id name port token r ≡ ok r'
    → Admitted owner id token r'
unfolding admit_host
admit_host-Admitted now owner id name port token r r' w h = elim (Option-cases (find id r.hosts)) [
  | inr (hs, e) ↦
      let q = revoke_tokens_found id hs r e in
      let hosts = put id (record hs { token = [] }) r.hosts in
      let new : Host = record {
        owner = owner;
        name = name;
        port = port_or port hs.port;
        token = token;
        last_seen = now;
      } in
      let made = record r {
        hosts = put id new hosts;
        tokens = put token id (tokens_without id r.tokens);
      } in
      let h' : Path (Result PairError Registry) (ok made) (ok r') = rw (admit_host, e, q) at h in
      let same : made ≡ r' = cc in
      let first = length-put_same id (record hs { token = [] }) hs r.hosts e in
      let second =
        length-put_same id new (record hs { token = [] }) hosts (find-put_self id _ r.hosts) in
      subst (Admitted owner id token) same (
        admitted owner id token new r hosts (tokens_without id r.tokens) refl
          (put-DistinctNames id (record hs { token = [] }) r.hosts w.distinct)
          (let small = w.few in omega (arith, first, second))
          (tokens_without-Values (Paired r.hosts) (Paired hosts) id r.tokens
            (λ j o p. put-Paired id j (record hs { token = [] }) r.hosts p) w.anchored)
          (λ t j k. revoked_elsewhere id t r.tokens j k))
  | inl e ↦ elim (Bool-cases (leb max_hosts (length r.hosts))) [
    | inl full ↦ absurd (let h' : err host_limit ≡ ok r' = rw (admit_host, e, full) at h in cc)
    | inr room ↦
        let new : Host = record {
          owner = owner;
          name = name;
          port = port_or port (pos 0);
          token = token;
          last_seen = now;
        } in
        let made = record r { hosts = put id new r.hosts; tokens = put token id r.tokens } in
        let h' : Path (Result PairError Registry) (ok made) (ok r') =
          rw (admit_host, e, room) at h in
        let same : made ≡ r' = cc in
        subst (Admitted owner id token) same (
          admitted owner id token new r r.hosts r.tokens refl w.distinct
            (ground (arith, length-put id new r.hosts)) w.anchored
            (λ t j k.
              leads_elsewhere id j r.hosts e
                (find-Values (Paired r.hosts) t j r.tokens w.anchored k)))
  ]
]

-- To use up a code changes neither the hosts nor the tokens.
consumed-Admitted :
    (unicode : Bytes → Bytes) (now : ℕ) (draws : List Bytes) (owner code id token : Bytes)
    (r r' : Registry)
    → Admitted owner id token r
    → consume_code unicode now draws owner code r ≡ some r'
    → Admitted owner id token r'
unfolding consume_code rotate_code
consumed-Admitted unicode now draws owner code id token r r' a h =
    elim (Bool-cases (bytes_eq owner root)) [
      | inr user ↦
          let spent = record r {
            user_codes = remove (code_key unicode code) r.user_codes;
            code_by_owner = remove owner r.code_by_owner;
          } in
          let h' : some spent ≡ some r' = rw (consume_code, user) at h in
          let same : spent ≡ r' = cc in
          subst (Admitted owner id token) same (same_hosts r spent a refl refl)
      | inl is_root ↦ elim (Option-cases (first_free (λ c. has_key c r.user_codes) draws)) [
        | inl e ↦
            absurd (let h' : none ≡ some r' = rw (consume_code, is_root, rotate_code, e) at h in cc)
        | inr (c, e) ↦
            let turned = record r { pairing_code = c; code_expires = now + pairing_code_ttl } in
            let h' : some turned ≡ some r' = rw (consume_code, is_root, rotate_code, e) at h in
            let same : turned ≡ r' = cc in
            subst (Admitted owner id token) same (same_hosts r turned a refl refl)
      ]
    ]
  where
    same_hosts :
        (r s : Registry)
        → Admitted owner id token r
        → s.hosts ≡ r.hosts
        → s.tokens ≡ r.tokens
        → Admitted owner id token s
    same_hosts r s a p q = record {
      well_formed = record {
        distinct = subst DistinctNames (sym p) a.well_formed.distinct;
        few = subst (λ x. length x ≤ max_hosts) (sym p) a.well_formed.few;
        anchored =
            subst (λ x. Values (Paired x) s.tokens) (sym p)
              (subst (Values (Paired r.hosts)) (sym q) a.well_formed.anchored);
      };
      leads = ap (find token) q ∙ a.leads;
      sole = λ t h. a.sole t (sym (ap (find t) q) ∙ h);
      owned = (a.owned.0, ap (find id) p ∙ a.owned.1, a.owned.2);
    }

-- A pairing that succeeds gives the host of the owner a token that leads to it, revokes the others,
-- and takes nobody else's host: the id was free, or a host of the same owner had it.
pub pair_as_lem :
    (unicode : Bytes → Bytes) (now : ℕ) (users : List User) (draws : List Bytes)
    (token raw_owner code raw_id raw_name : Bytes) (port : ℤ) (r r' : Registry) (tok id : Bytes)
    → IsRegistry r
    → pair_as unicode now users draws token raw_owner code raw_id raw_name port r
      ≡ ok (r', ok (tok, id))
    → Admitted (owner_or_default (trim_space raw_owner)) id tok r'
      × ((hs : Host)
          → find id r.hosts ≡ some hs
          → owner_or_default hs.owner ≡ owner_or_default (trim_space raw_owner))
unfolding pair_as
pair_as_lem unicode now users draws token raw_owner code raw_id raw_name port r r' tok id w h =
    let owner = owner_or_default (trim_space raw_owner) in
    let host_id = trim_space raw_id in
    let host_name = trim_space raw_name in
    elim (Bool-cases (code_holds unicode now users owner code r)) [
      | inr bad ↦ absurd (refused code_invalid (rw (pair_as, bad) at h))
      | inl good ↦ elim (Bool-cases (no_text host_id)) [
        | inl empty ↦ absurd (refused host_id_empty (rw (pair_as, good, empty) at h))
        | inr named ↦ elim (Bool-cases (ltb max_host_id_len (length host_id))) [
          | inl long ↦ absurd (refused host_id_long (rw (pair_as, good, named, long) at h))
          | inr short ↦ elim (Bool-cases (ltb max_host_name_len (length host_name))) [
            | inl long ↦
                absurd (refused host_name_long (rw (pair_as, good, named, short, long) at h))
            | inr fits ↦ elim (Result-cases (resolve_host_id owner host_id r.hosts)) [
              | inl (fault, e) ↦
                  absurd (stuck fault (rw (pair_as, good, named, short, fits, e) at h))
              | inr (at, e) ↦ elim (Result-cases (admit_host now owner at host_name port token r)) [
                | inl (denied, e') ↦
                    absurd (refused denied (rw (pair_as, good, named, short, fits, e, e') at h))
                | inr (s, e') ↦ elim (Option-cases (consume_code unicode now draws owner code s)) [
                  | inl e'' ↦ absurd (
                      stuck still_looking (rw (pair_as, good, named, short, fits, e, e', e'') at h))
                  | inr (s', e'') ↦
                      let h' : Path (Result Fault (Registry × Result PairError (Bytes × Bytes)))
                          (ok (s', ok (token, at))) (ok (r', ok (tok, id))) =
                        rw (pair_as, good, named, short, fits, e, e', e'') at h in
                      let same_tok : token ≡ tok = cc in
                      let same_id : at ≡ id = cc in
                      let same_r : s' ≡ r' = cc in
                      let a =
                        consumed-Admitted unicode now draws owner code at token s s'
                          (admit_host-Admitted now owner at host_name port token r s w e') e'' in
                      (
                        rw (← same_tok, ← same_id, ← same_r) a,
                        λ hs there.
                            resolve_host_id-owner owner host_id id r.hosts hs
                              (e ∙ ap (λ x. ok x) same_id) there,
                      )
                ]
              ]
            ]
          ]
        ]
      ]
    ]
  where
    refused :
        (e : PairError)
        → Path
            (Result Fault (Registry × Result PairError (Bytes × Bytes)))
            (ok (r, err e))
            (ok (r', ok (tok, id)))
        → ⊥
    refused e k = cc

    stuck :
        (fault : Fault)
        → Path
            (Result Fault (Registry × Result PairError (Bytes × Bytes)))
            (err fault)
            (ok (r', ok (tok, id)))
        → ⊥
    stuck fault k = cc
