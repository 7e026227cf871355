-- ===== src/Hub/Registry/Others.antt =====
-- What a pairing leaves to the other hosts.
use capri_hub.Common.{
  ℕ, ◌≡◌, refl, sym, ap, ◌∙◌, inl, inr, false, none, some, List, [], if◌then◌else◌, leb, length,
  Bool-cases, Option, Option-cases, subst,
}
use capri_hub.Common.Int.{ℤ, pos}
use capri_hub.Common.Words.{Bytes}
use capri_hub.Common.Text.{bytes_eq, bytes_eq_iff}
use capri_hub.Common.Result.{Result, ok, err}
use capri_hub.Common.Names.{find, put, DistinctNames, find-put}
use capri_hub.Hub.Registry.{
  max_hosts, Host, Registry, PairError, host_limit, tokens_without, host_id_for_token,
}
use capri_hub.Hub.Registry.Tokens.{
  IsRegistry, Paired, unless_to, find-tokens_without, find-Values, revoke_tokens_found,
}
use capri_hub.Hub.Registry.Credentials.{leads_elsewhere}
use capri_hub.Hub.Registry.Pairing.{admit_host, port_or}

-- Tokens and hosts of `r'` are those of `r` but for the host `id`, to which only `token` leads.
pub record OthersKept (id token : Bytes) (r r' : Registry) : Type 0 where
  pub tokens :
      (t : Bytes)
      → host_id_for_token t r'
        ≡ (if bytes_eq token t then some id else unless_to id (host_id_for_token t r))
  pub hosts :
      (j : Bytes) → find j r'.hosts ≡ (if bytes_eq id j then find id r'.hosts else find j r.hosts)

-- To put a host in its place, once or twice, keeps the others.
put_beside :
    (id j : Bytes) (hs : Host) (m m' : List (Bytes × Host))
    → (bytes_eq id j ≡ false → find j m' ≡ find j m)
    → find j (put id hs m') ≡ (if bytes_eq id j then find id (put id hs m') else find j m)
put_beside id j hs m m' same = elim (Bool-cases (bytes_eq id j)) [
  | inl here ↦
      let q : id ≡ j = (bytes_eq_iff id j).0 here in
      rw here (ap (λ x. find x (put id hs m')) (sym q))
  | inr away ↦ rw away (find-put id j hs m' ∙ rw away (same away))
]

-- A token that leads to another host is not one of the host's.
unless_elsewhere :
    (id : Bytes) (o : Option Bytes)
    → ((j : Bytes) → o ≡ some j → bytes_eq j id ≡ false)
    → unless_to id o ≡ o
unless_elsewhere id none f = refl
unless_elsewhere id (some j) f = rw (f j refl) refl

-- A pairing in a well-formed registry, in which no token stands twice, leaves the other hosts alone:
-- behind it the new token leads to the host, each other token that led to the host leads nowhere,
-- and each token of another host leads where it led; the other hosts are as they were.
pub admit_host_lem :
    (now : ℕ) (owner id name : Bytes) (port : ℤ) (token : Bytes) (r r' : Registry)
    → IsRegistry r
    → DistinctNames r.tokens
    → admit_host now owner id name port token r ≡ ok r'
    → OthersKept id token r r'
unfolding admit_host
admit_host_lem now owner id name port token r r' w d h = elim (Option-cases (find id r.hosts)) [
  | inr (hs, e) ↦
      let q = revoke_tokens_found id hs r e in
      let hosts = put id (record hs { token = [] }) r.hosts in
      let new : Host = record {
        owner = owner;
        name = name;
        port = port_or port hs.port;
        token = token;
        last_seen = now;
      } in
      let made : Registry = record r {
        hosts = put id new hosts;
        tokens = put token id (tokens_without id r.tokens);
      } in
      let h' : Path (Result PairError Registry) (ok made) (ok r') = rw (admit_host, e, q) at h in
      let same : made ≡ r' = cc in
      subst (OthersKept id token r) same (record {
        tokens = λ t.
            find-put token t id (tokens_without id r.tokens)
            ∙ ap (λ o. if bytes_eq token t then some id else o)
                (find-tokens_without id t r.tokens d);
        hosts = λ j.
            put_beside id j new r.hosts hosts
              (λ away. find-put id j (record hs { token = [] }) r.hosts ∙ rw away refl);
      })
  | inl e ↦ elim (Bool-cases (leb max_hosts (length r.hosts))) [
    | inl full ↦ absurd (let h' : err host_limit ≡ ok r' = rw (admit_host, e, full) at h in cc)
    | inr room ↦
        let new : Host = record {
          owner = owner;
          name = name;
          port = port_or port (pos 0);
          token = token;
          last_seen = now;
        } in
        let made : Registry = record r {
          hosts = put id new r.hosts;
          tokens = put token id r.tokens;
        } in
        let h' : Path (Result PairError Registry) (ok made) (ok r') =
          rw (admit_host, e, room) at h in
        let same : made ≡ r' = cc in
        subst (OthersKept id token r) same (record {
          tokens = λ t.
              find-put token t id r.tokens
              ∙ ap (λ o. if bytes_eq token t then some id else o)
                  (sym (
                    unless_elsewhere id (find t r.tokens) (λ j k.
                      leads_elsewhere id j r.hosts e
                        (find-Values (Paired r.hosts) t j r.tokens w.anchored k))));
          hosts = λ j. put_beside id j new r.hosts r.hosts (λ away. refl);
        })
  ]
]
