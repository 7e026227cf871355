-- ===== src/Hub/Registry/Tokens.antt =====
-- The tokens of the hosts: each leads to a host that is paired, and a host has one at most.
use capri_hub.Common.{
  suc, ◌≤◌, ◌≡◌, refl, sym, ap, ◌∙◌, inl, inr, false, Option, none, some, if◌then◌else◌, List, [],
  ◌∷◌, length, Bool-cases, subst, arith,
}
use capri_hub.Common.Words.{Bytes}
use capri_hub.Common.Text.{bytes_eq, bytes_eq_iff}
use capri_hub.Common.Names.{
  find, put, remove, DistinctNames, bytes_ne_comm, find-put, find-put_self, find-remove_other,
  find-remove_self, put-DistinctNames, remove-DistinctNames, length-remove,
}
use capri_hub.Common.Strings.{trim_space}
use capri_hub.Hub.Registry.{
  max_hosts, Host, Registry, tokens_without, revoke_tokens, unpair, host_id_for_token,
}

-- A predicate that holds of each value of a map.
abbrev pub Values {ℓ κ} : {V : Type ℓ} → (V → Type κ) → List (Bytes × V) → Type κ
Values Q [] = Unit
Values Q ((k, v) ∷ m) = Q v × Values Q m

pub find-Values {ℓ κ} :
    {V : Type ℓ} (Q : V → Type κ) (k : Bytes) (v : V) (m : List (Bytes × V))
    → Values Q m
    → find k m ≡ some v
    → Q v
find-Values Q k v [] a h = cc
find-Values Q k v ((j, w) ∷ m) a h = elim (Bool-cases (bytes_eq j k)) [
  | inl e ↦ let h' : some w ≡ some v = rw e at h in let same : w ≡ v = cc in subst Q same a.0
  | inr e ↦ find-Values Q k v m a.1 (rw e at h)
]

pub put-Values {ℓ κ} :
    {V : Type ℓ} (Q : V → Type κ) (k : Bytes) (v : V) (m : List (Bytes × V))
    → Values Q m
    → Q v
    → Values Q (put k v m)
put-Values Q k v [] a q = (q, tt)
put-Values Q k v ((j, w) ∷ m) a q = elim (Bool-cases (bytes_eq j k)) [
  | inl e ↦ rw e (q, a.1)
  | inr e ↦ rw e (a.0, put-Values Q k v m a.1 q)
]

-- What is left when the tokens of a host are revoked leads elsewhere.
pub tokens_without-Values {κ κ'} :
    (Q : Bytes → Type κ) (Q' : Bytes → Type κ') (id : Bytes) (m : List (Bytes × Bytes))
    → ((j : Bytes) → bytes_eq j id ≡ false → Q j → Q' j)
    → Values Q m
    → Values Q' (tokens_without id m)
unfolding tokens_without
tokens_without-Values Q Q' id [] f a = tt
tokens_without-Values Q Q' id ((t, j) ∷ m) f a = elim (Bool-cases (bytes_eq j id)) [
  | inl e ↦ rw e (tokens_without-Values Q Q' id m f a.1)
  | inr e ↦ rw e (f j e a.0, tokens_without-Values Q Q' id m f a.1)
]

any_value : (m : List (Bytes × Bytes)) → Values (λ j. Unit {0}) m
any_value [] = tt
any_value ((t, j) ∷ m) = (tt, any_value m)

pub revoked_elsewhere :
    (id t : Bytes) (m : List (Bytes × Bytes)) (j : Bytes)
    → find t (tokens_without id m) ≡ some j
    → bytes_eq j id ≡ false
revoked_elsewhere id t m j h =
    find-Values (λ j. bytes_eq j id ≡ false) t j (tokens_without id m)
      (tokens_without-Values (λ j. Unit {0}) (λ j. bytes_eq j id ≡ false) id m (λ j e u. e)
        (any_value m))
      h

-- Where a token that led there leads once the host is gone.
abbrev pub unless_to : Bytes → Option Bytes → Option Bytes
unless_to id none = none
unless_to id (some j) = if bytes_eq j id then none else some j

find-tokens_without-none :
    (id t : Bytes) (m : List (Bytes × Bytes))
    → find t m ≡ none
    → find t (tokens_without id m) ≡ none
unfolding tokens_without
find-tokens_without-none id t [] h = refl
find-tokens_without-none id t ((u, j) ∷ m) h = elim (Bool-cases (bytes_eq u t)) [
  | inl here ↦ absurd (let h' : some j ≡ none = rw here at h in cc)
  | inr away ↦
      let rest = find-tokens_without-none id t m (rw away at h) in
      elim (Bool-cases (bytes_eq j id)) [ inl e ↦ rw e rest | inr e ↦ rw (e, away) rest ]
]

pub find-tokens_without :
    (id t : Bytes) (m : List (Bytes × Bytes))
    → DistinctNames m
    → find t (tokens_without id m) ≡ unless_to id (find t m)
unfolding tokens_without
find-tokens_without id t [] d = refl
find-tokens_without id t ((u, j) ∷ m) d = elim (Bool-cases (bytes_eq u t)) [
  | inl here ↦
      let q : u ≡ t = (bytes_eq_iff u t).0 here in
      let absent : find t m ≡ none = ap (λ x. find x m) (sym q) ∙ d.0 in
      elim (Bool-cases (bytes_eq j id)) [
        | inl e ↦ rw (e, here, e) (find-tokens_without-none id t m absent)
        | inr e ↦ rw (e, here, e) refl
      ]
  | inr away ↦
      let rest = find-tokens_without id t m d.1 in
      elim (Bool-cases (bytes_eq j id)) [ inl e ↦ rw (e, away) rest | inr e ↦ rw (e, away) rest ]
]

-- The host is paired.
abbrev pub Paired : List (Bytes × Host) → Bytes → Type 0
Paired hosts id = (hs : Host) × (find id hosts ≡ some hs)

pub record IsRegistry (r : Registry) : Type 0 where
  pub distinct : DistinctNames r.hosts
  pub few : length r.hosts ≤ max_hosts
  pub anchored : Values (Paired r.hosts) r.tokens

pub put-Paired :
    (id j : Bytes) (hs : Host) (hosts : List (Bytes × Host))
    → Paired hosts j
    → Paired (put id hs hosts) j
put-Paired id j hs hosts (x, there) = elim (Bool-cases (bytes_eq id j)) [
  | inl e ↦ (hs, find-put id j hs hosts ∙ rw e refl)
  | inr e ↦ (x, find-put id j hs hosts ∙ rw e there)
]

pub Values-map {ℓ κ κ'} :
    {V : Type ℓ} (Q : V → Type κ) (Q' : V → Type κ') (m : List (Bytes × V))
    → ((v : V) → Q v → Q' v)
    → Values Q m
    → Values Q' m
Values-map Q Q' [] f a = tt
Values-map Q Q' ((k, v) ∷ m) f a = (f v a.0, Values-map Q Q' m f a.1)

-- To put a host in the place of one that is there keeps the number of the hosts.
pub length-put_same :
    (id : Bytes) (hs old : Host) (hosts : List (Bytes × Host))
    → find id hosts ≡ some old
    → length (put id hs hosts) ≡ length hosts
length-put_same id hs old [] h = cc
length-put_same id hs old ((j, x) ∷ hosts) h = elim (Bool-cases (bytes_eq j id)) [
  | inl e ↦ rw e refl
  | inr e ↦ rw e (ap suc (length-put_same id hs old hosts (rw e at h)))
]

pub revoke_tokens_found :
    (id : Bytes) (hs : Host) (r : Registry)
    → find id r.hosts ≡ some hs
    → revoke_tokens id r ≡ record r {
      tokens = tokens_without id r.tokens;
      hosts = put id (record hs { token = [] }) r.hosts;
    }
unfolding revoke_tokens
revoke_tokens_found id hs r h = rw h refl

removed_put :
    (id j : Bytes) (hs : Host) (hosts : List (Bytes × Host))
    → DistinctNames hosts
    → find j (remove id (put id hs hosts)) ≡ (if bytes_eq id j then none else find j hosts)
removed_put id j hs hosts d = elim (Bool-cases (bytes_eq id j)) [
  | inl here ↦
      let q : id ≡ j = (bytes_eq_iff id j).0 here in
      let gone = find-remove_self id (put id hs hosts) (put-DistinctNames id hs hosts d) in
      rw here (ap (λ x. find x (remove id (put id hs hosts))) (sym q) ∙ gone)
  | inr away ↦
      rw away
        (find-remove_other id j (put id hs hosts) away ∙ find-put id j hs hosts ∙ rw away refl)
]

-- `Unpair` of a paired host, in a well-formed registry in which no token stands twice: the registry
-- stays well formed; the host is gone and each other host is as it was; every token that led to the
-- host leads nowhere, and each other token leads where it led.
pub unpair_lem :
    (raw : Bytes) (r : Registry) (hs : Host)
    → IsRegistry r
    → DistinctNames r.tokens
    → find (trim_space raw) r.hosts ≡ some hs
    → IsRegistry (unpair raw r).0
      × (find (trim_space raw) (unpair raw r).0.hosts ≡ none)
      × ((j : Bytes)
          → find j (unpair raw r).0.hosts
            ≡ (if bytes_eq (trim_space raw) j then none else find j r.hosts))
      × ((t : Bytes)
          → host_id_for_token t (unpair raw r).0
            ≡ unless_to (trim_space raw) (host_id_for_token t r))
      × ((t j : Bytes)
          → host_id_for_token t (unpair raw r).0 ≡ some j
          → bytes_eq j (trim_space raw) ≡ false)
unfolding unpair
unpair_lem raw r hs w dt h =
    let id = trim_space raw in
    let hosts' = put id (record hs { token = [] }) r.hosts in
    let d' = put-DistinctNames id (record hs { token = [] }) r.hosts w.distinct in
    let size = length-put_same id (record hs { token = [] }) hs r.hosts h in
    let gone = length-remove id hosts' (record hs { token = [] }) (find-put_self id _ r.hosts) in
    rw (unpair, h, revoke_tokens_found id hs r h)
      (
        record {
          distinct = remove-DistinctNames id hosts' d';
          few = (let small = w.few in omega arith);
          anchored =
              tokens_without-Values (Paired r.hosts) (Paired (remove id hosts')) id r.tokens
                (λ j e p.
                  let (x, there) = put-Paired id j (record hs { token = [] }) r.hosts p in
                  (x, find-remove_other id j hosts' (bytes_ne_comm j id e) ∙ there))
                w.anchored;
        },
        find-remove_self id hosts' d',
        λ j. removed_put id j (record hs { token = [] }) r.hosts w.distinct,
        λ t. find-tokens_without id t r.tokens dt,
        λ t j k. revoked_elsewhere id t r.tokens j k,
      )
