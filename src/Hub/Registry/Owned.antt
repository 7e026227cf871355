-- ===== src/Hub/Registry/Owned.antt =====
-- internal/hub/hub.go: the hosts of an owner.
use capri_hub.Common.{
  ℕ, suc, ◌≡◌, refl, ap, ◌∙◌, inl, inr, Option, none, some, List, [], ◌∷◌, if◌then◌else◌, length,
  Bool-cases,
}
use capri_hub.Common.Words.{Bytes}
use capri_hub.Common.Text.{bytes_eq, bytes_lt}
use capri_hub.Common.Names.{find}
use capri_hub.Hub.Registry.{Host, Registry, owner_or_default}

-- `HostOwner`
unfoldable pub host_owner : Bytes → Registry → Option Bytes
unfolding owner_or_default
host_owner host_id r = elim (find host_id r.hosts) [
  | none ↦ none
  | some hs ↦ some (owner_or_default hs.owner)
]

-- `sort.Strings`, by insertion
unfoldable insert_text : Bytes → List Bytes → List Bytes
insert_text k [] = k ∷ []
insert_text k (j ∷ ks) =
    let rest = insert_text k ks in if bytes_lt j k then j ∷ rest else k ∷ j ∷ ks

-- `HostIDsForUser`
unfoldable pub host_ids_for_user : Bytes → List (Bytes × Host) → List Bytes
unfolding owner_or_default insert_text
host_ids_for_user owner [] = []
host_ids_for_user owner ((id, hs) ∷ hosts) =
    let rest = host_ids_for_user owner hosts in
    if bytes_eq (owner_or_default hs.owner) owner then insert_text id rest else rest

-- `HostCountForUser`
unfoldable pub host_count_for_user : Bytes → List (Bytes × Host) → ℕ
unfolding owner_or_default
host_count_for_user owner [] = 0
host_count_for_user owner ((id, hs) ∷ hosts) =
    let rest = host_count_for_user owner hosts in
    if bytes_eq (owner_or_default hs.owner) owner then suc rest else rest

length-insert_text : (k : Bytes) (ks : List Bytes) → length (insert_text k ks) ≡ suc (length ks)
unfolding insert_text
length-insert_text k [] = refl
length-insert_text k (j ∷ ks) = elim (Bool-cases (bytes_lt j k)) [
  | inl e ↦ rw e (ap suc (length-insert_text k ks))
  | inr e ↦ rw e refl
]

-- The count of an owner's hosts is the length of their list.
length-host_ids_for_user :
    (owner : Bytes) (hosts : List (Bytes × Host))
    → length (host_ids_for_user owner hosts) ≡ host_count_for_user owner hosts
unfolding host_ids_for_user host_count_for_user
length-host_ids_for_user owner [] = refl
length-host_ids_for_user owner ((id, hs) ∷ hosts) =
    elim (Bool-cases (bytes_eq (owner_or_default hs.owner) owner)) [
      | inl e ↦ rw e (
          length-insert_text id (host_ids_for_user owner hosts)
          ∙ ap suc (length-host_ids_for_user owner hosts))
      | inr e ↦ rw e (length-host_ids_for_user owner hosts)
    ]
