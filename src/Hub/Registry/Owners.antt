-- ===== src/Hub/Registry/Owners.antt =====
-- The id that `resolveHostIDLocked` gives to a host.
use capri_hub.Common.{
  ℕ, zero, suc, ◌≡◌, refl, sym, ap, ◌∙◌, inl, inr, Bool, true, false, not, none, some, List,
  if◌then◌else◌, length, Bool-cases, Option-cases, subst,
}
use capri_hub.Common.Words.{Bytes}
use capri_hub.Common.Text.{bytes_eq, bytes_eq_iff}
use capri_hub.Common.Result.{Result, ok, err}
use capri_hub.Common.Names.{find}
use capri_hub.Hub.Registry.{
  Host, Fault, slice_range, first_suffix, round_suffix, suffix_fits, slice_fails, cut_for, joined,
  has_key, free_host_id, resolve_host_id, owner_or_default,
}

-- Where the tests of a round lead: what holds of each way on holds of the id.
chosen :
    (P : Bytes → Type 0) (free fits panics : Bool) (candidate id : Bytes) (x y : Result Fault Bytes)
    → (if free then ok candidate else if fits then x else if panics then err slice_range else y)
      ≡ ok id
    → (free ≡ true → P candidate)
    → (x ≡ ok id → P id)
    → (y ≡ ok id → P id)
    → P id
chosen P true fits panics candidate id x y h p q s =
    let same : candidate ≡ id = cc in subst P same (p refl)
chosen P false true panics candidate id x y h p q s = q h
chosen P false false true candidate id x y h p q s = cc
chosen P false false false candidate id x y h p q s = s h

not-has_key :
    (k : Bytes) (hosts : List (Bytes × Host)) → not (has_key k hosts) ≡ true → find k hosts ≡ none
not-has_key k hosts h = elim (Option-cases (find k hosts)) [
  | inl e ↦ e
  | inr (v, e) ↦ absurd (let h' : false ≡ true = rw (not, e) at h in cc)
]

-- The id that the loop finds is free.
free_host_id-none :
    (fuel i : ℕ) (owner requested base candidate id : Bytes) (hosts : List (Bytes × Host))
    → free_host_id fuel i owner requested base candidate hosts ≡ ok id
    → find id hosts ≡ none
unfolding free_host_id
free_host_id-none zero i owner requested base candidate id hosts h = cc
free_host_id-none (suc fuel) i owner requested base candidate id hosts h =
    let suffix = round_suffix owner i in
    let cut = cut_for suffix requested in
    chosen (λ x. find x hosts ≡ none) (not (has_key candidate hosts)) (suffix_fits base suffix)
      (slice_fails suffix) candidate id
      (free_host_id fuel (suc i) owner requested base (joined base suffix) hosts)
      (free_host_id fuel (suc i) owner requested cut (joined cut suffix) hosts) h
      (not-has_key candidate hosts)
      (free_host_id-none fuel (suc i) owner requested base (joined base suffix) id hosts)
      (free_host_id-none fuel (suc i) owner requested cut (joined cut suffix) id hosts)

-- The id that a host is paired under is free, or a host of the same owner has it.
pub resolve_host_id-owner :
    (owner requested id : Bytes) (hosts : List (Bytes × Host)) (hs : Host)
    → resolve_host_id owner requested hosts ≡ ok id
    → find id hosts ≡ some hs
    → owner_or_default hs.owner ≡ owner
unfolding resolve_host_id
resolve_host_id-owner owner requested id hosts hs h e = elim (Option-cases (find requested hosts)) [
  | inl new ↦
      let h' : Path (Result Fault Bytes) (ok requested) (ok id) = rw (resolve_host_id, new) at h in
      let same : requested ≡ id = cc in
      absurd (let h'' : none ≡ some hs = sym new ∙ ap (λ x. find x hosts) same ∙ e in cc)
  | inr (old, there) ↦ elim (Bool-cases (bytes_eq (owner_or_default old.owner) owner)) [
    | inl own ↦
        let h' : Path (Result Fault Bytes) (ok requested) (ok id) =
          rw (resolve_host_id, there, own) at h in
        let same : requested ≡ id = cc in
        let h'' : some old ≡ some hs = sym there ∙ ap (λ x. find x hosts) same ∙ e in
        let it : old ≡ hs = cc in
        ap (λ x. owner_or_default x.owner) (sym it) ∙ (bytes_eq_iff _ owner).0 own
    | inr other ↦ absurd (
        let suffix = first_suffix owner in
        let cut = cut_for suffix requested in
        let rounds = suc (length hosts) in
        let gone : find id hosts ≡ none =
          chosen (λ x. find x hosts ≡ none) false (suffix_fits requested suffix)
            (slice_fails suffix) requested id
            (free_host_id rounds 2 owner requested requested (joined requested suffix) hosts)
            (free_host_id rounds 2 owner requested cut (joined cut suffix) hosts)
            (rw (resolve_host_id, there, other) at h)
            (λ no. absurd (let no' : false ≡ true = no in cc))
            (free_host_id-none rounds 2 owner requested requested (joined requested suffix) id
              hosts)
            (free_host_id-none rounds 2 owner requested cut (joined cut suffix) id hosts) in
        let h'' : none ≡ some hs = sym gone ∙ e in cc)
  ]
]
