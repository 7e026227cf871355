-- ===== src/Hub/Registry/Examples.antt =====
-- A host that its owner pairs again, and one that is unpaired.
use capri_hub.Common.{◌≡◌, refl, false, none, some, if◌then◌else◌, [], ◌∷◌, arith}
use capri_hub.Common.Int.{pos}
use capri_hub.Common.Words.{Bytes}
use capri_hub.Common.Text.{codes, bytes_eq}
use capri_hub.Common.Strings.{trim_space, to_upper, trim_prefix}
use capri_hub.Common.Result.{ok}
use capri_hub.Common.Names.{find}
use capri_hub.Hub.Users.{first_free}
use capri_hub.Hub.Registry.{
  Host, Registry, host_id_for_token, unpair, owner_or_default, resolve_host_id, free_host_id,
  first_suffix, revoke_tokens, tokens_without, rotate_code, root,
}
use capri_hub.Hub.Registry.Tokens.{IsRegistry, unless_to, unpair_lem}
use capri_hub.Hub.Registry.Others.{OthersKept, admit_host_lem}
use capri_hub.Hub.Registry.Pairing.{pair_as, code_holds, admit_host, consume_code}
use capri_hub.Hub.Registry.Credentials.{Admitted, pair_as_lem}

abbrev local_host : Host
local_host = record {
  owner = [];
  name = codes "old name";
  port = pos 0;
  token = codes "t1";
  last_seen = 0;
}

abbrev paired : Registry
paired = record {
  hosts = (codes "local", local_host) ∷ [];
  tokens = (codes "t1", codes "local") ∷ [];
  pairing_code = codes "ABC234";
  code_expires = 1000;
  user_codes = [];
  code_by_owner = [];
}

abbrev paired_again : Registry
paired_again = record paired {
  hosts =
      (
        codes "local",
        record {
          owner = root;
          name = codes "name";
          port = pos 8080;
          token = codes "t2";
          last_seen = 10;
        },
      )
      ∷ [];
  tokens = (codes "t2", codes "local") ∷ [];
  pairing_code = codes "XYZ567";
  code_expires = 900010;
}

paired-IsRegistry : IsRegistry paired
unfolding bytes_eq
paired-IsRegistry = record {
  distinct = (refl, tt);
  few = omega arith;
  anchored = ((local_host, refl), tt);
}

unpair_lem_example :
    IsRegistry (unpair (codes " local") paired).0
    × (find (trim_space (codes " local")) (unpair (codes " local") paired).0.hosts ≡ none)
    × ((j : Bytes)
        → find j (unpair (codes " local") paired).0.hosts
          ≡ (if bytes_eq (trim_space (codes " local")) j then none else find j paired.hosts))
    × ((t : Bytes)
        → host_id_for_token t (unpair (codes " local") paired).0
          ≡ unless_to (trim_space (codes " local")) (host_id_for_token t paired))
    × ((t j : Bytes)
        → host_id_for_token t (unpair (codes " local") paired).0 ≡ some j
        → bytes_eq j (trim_space (codes " local")) ≡ false)
unfolding bytes_eq trim_space
unpair_lem_example = unpair_lem (codes " local") paired local_host paired-IsRegistry (refl, tt) refl

pair_as_lem_example :
    Admitted (owner_or_default (trim_space [])) (codes "local") (codes "t2") paired_again
    × ((hs : Host)
        → find (codes "local") paired.hosts ≡ some hs
        → owner_or_default hs.owner ≡ owner_or_default (trim_space []))
unfolding pair_as code_holds admit_host consume_code resolve_host_id owner_or_default bytes_eq
    trim_space to_upper first_free revoke_tokens tokens_without rotate_code
pair_as_lem_example =
    pair_as_lem (λ s. s) 10 [] (codes "XYZ567" ∷ []) (codes "t2") [] (codes "abc234")
      (codes "local") (codes " name") (pos 8080) paired paired_again (codes "t2") (codes "local")
      paired-IsRegistry refl

-- A second host beside the first.
abbrev two_hosts : Registry
two_hosts = record paired {
  hosts = (codes "local", local_host) ∷ (codes "other", local_host) ∷ [];
  tokens = (codes "t1", codes "local") ∷ (codes "t0", codes "other") ∷ [];
}

two_hosts-IsRegistry : IsRegistry two_hosts
unfolding bytes_eq
two_hosts-IsRegistry = record {
  distinct = (refl, (refl, tt));
  few = omega arith;
  anchored = ((local_host, refl), ((local_host, refl), tt));
}

abbrev local_again : Host
local_again = record {
  owner = root;
  name = codes "name";
  port = pos 8080;
  token = codes "t2";
  last_seen = 10;
}

abbrev local_moved : Registry
local_moved = record two_hosts {
  hosts = (codes "local", local_again) ∷ (codes "other", local_host) ∷ [];
  tokens = (codes "t0", codes "other") ∷ (codes "t2", codes "local") ∷ [];
}

admit_host_lem_example : OthersKept (codes "local") (codes "t2") two_hosts local_moved
unfolding admit_host bytes_eq revoke_tokens tokens_without
admit_host_lem_example =
    admit_host_lem 10 root (codes "local") (codes "name") (pos 8080) (codes "t2") two_hosts
      local_moved two_hosts-IsRegistry (refl, (refl, tt)) refl

-- Another owner's host of the same id gets a suffix.
resolve_host_id_run :
    resolve_host_id (codes "u_12ab") (codes "local") paired.hosts ≡ ok (codes "local-12ab")
unfolding resolve_host_id owner_or_default trim_space bytes_eq first_suffix free_host_id trim_prefix
resolve_host_id_run = refl
