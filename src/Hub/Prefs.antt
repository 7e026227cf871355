-- ===== src/Hub/Prefs.antt =====
-- internal/hub/prefs.go: the preference entries, a last-write-wins map.
-- A map is an association list in which a key stands once; Go visits it in some order, which here
-- is the order of the list.
pub mod Merge
pub mod Tombstones
pub mod Migration
mod Examples
use capri_hub.Common.{
  length, ◌++◌, ℕ, ◌≡◌, Bool, true, false, not, ◌&&◌, Option, none, some, List, [], ◌∷◌, ◌==◌,
  if◌then◌else◌,
}
use capri_hub.Common.Int.{ℤ, pos, negsuc, ltb_ℤ}
use capri_hub.Common.Words.{Bytes}
use capri_hub.Common.Text.{codes, bytes_eq, bytes_lt}

pub record PrefsEntry : Type 0 where
  pub v : Bytes
  pub at_ms : ℤ
  pub site : Bytes
  pub del : Bool

abbrev pub PrefsEntries : Type 0
PrefsEntries = List (Bytes × PrefsEntry)

abbrev pub same_time : ℤ → ℤ → Bool
same_time a b = not (ltb_ℤ a b) && not (ltb_ℤ b a)

-- `prefsEntryWins`
unfoldable pub prefs_entry_wins : PrefsEntry → PrefsEntry → Bool
prefs_entry_wins a b =
    if not (same_time a.at_ms b.at_ms) then ltb_ℤ b.at_ms a.at_ms else bytes_lt b.site a.site

-- `m[k]`
unfoldable pub find_key : Bytes → PrefsEntries → Option PrefsEntry
find_key k [] = none
find_key k ((j, e) ∷ m) = let rest = find_key k m in if bytes_eq j k then some e else rest

-- `m[k] = e`
unfoldable pub put_key : Bytes → PrefsEntry → PrefsEntries → PrefsEntries
put_key k e [] = (k, e) ∷ []
put_key k e ((j, d) ∷ m) =
    let rest = put_key k e m in if bytes_eq j k then (k, e) ∷ m else (j, d) ∷ rest

-- The body of the loop of `mergePrefsEntries`.
unfoldable pub merge_entry : PrefsEntries → Bytes → PrefsEntry → PrefsEntries
unfolding find_key put_key
merge_entry dst k e = elim (find_key k dst) [
  | none ↦ put_key k e dst
  | some cur ↦ if prefs_entry_wins e cur then put_key k e dst else dst
]

-- `mergePrefsEntries`
unfoldable pub merge_prefs_entries : PrefsEntries → PrefsEntries → PrefsEntries
unfolding merge_entry
merge_prefs_entries dst [] = dst
merge_prefs_entries dst ((k, e) ∷ src) = merge_prefs_entries (merge_entry dst k e) src

-- `prunePrefsTombstones`, with the time before which a tombstone is dropped
unfoldable pub prune_prefs_tombstones : ℤ → PrefsEntries → PrefsEntries
prune_prefs_tombstones cut [] = []
prune_prefs_tombstones cut ((k, e) ∷ m) =
    let rest = prune_prefs_tombstones cut m in
    if e.del && ltb_ℤ e.at_ms cut then rest else (k, e) ∷ rest

-- `FePrefs`: a value that is not a boolean is `none`.
abbrev pub FePrefs : Type 0
FePrefs = List (Bytes × Option Bool)

pub record BrowserPrefs : Type 0 where
  pub entries : PrefsEntries
  pub pinned_workspaces : List Bytes
  pub pinned_sessions : List Bytes
  pub todos : List (Bytes × Bytes)
  pub fe_prefs : FePrefs

-- `prefsLegacySite`
abbrev pub prefs_legacy_site : Bytes
prefs_legacy_site = codes "hub-legacy"

-- `boolEntryValue`
abbrev pub bool_entry_value : Bool → Bytes
bool_entry_value b = if b then codes "true" else codes "false"

-- `stamp` of `entriesFromSnapshot`
abbrev pub stamp : ℤ → PrefsEntries → Bytes → Bytes → PrefsEntries
stamp at_time out key val =
    put_key key (record { v = val; at_ms = at_time; site = prefs_legacy_site; del = false }) out

abbrev pub stamp_pins : ℤ → Bytes → List Bytes → PrefsEntries → PrefsEntries
stamp_pins at_time prefix [] out = out
stamp_pins at_time prefix (k ∷ ks) out =
    stamp_pins at_time prefix ks (stamp at_time out (prefix ++ k) (codes "1"))

abbrev pub stamp_todos : ℤ → List (Bytes × Bytes) → PrefsEntries → PrefsEntries
stamp_todos at_time [] out = out
stamp_todos at_time ((id, status) ∷ m) out =
    stamp_todos at_time m (stamp at_time out (codes "todo:" ++ id) status)

abbrev pub stamp_fe : ℤ → FePrefs → PrefsEntries → PrefsEntries
stamp_fe at_time [] out = out
stamp_fe at_time ((field, none) ∷ m) out = stamp_fe at_time m out
stamp_fe at_time ((field, some b) ∷ m) out =
    stamp_fe at_time m (stamp at_time out (codes "fe:" ++ field) (bool_entry_value b))

-- `entriesFromSnapshot`
unfoldable pub entries_from_snapshot : BrowserPrefs → ℤ → PrefsEntries
entries_from_snapshot p at_time =
    let workspaces = stamp_pins at_time (codes "ws:") p.pinned_workspaces [] in
    let sessions = stamp_pins at_time (codes "se:") p.pinned_sessions workspaces in
    stamp_fe at_time p.fe_prefs (stamp_todos at_time p.todos sessions)

-- `PrefsEntry{}`, which `m[k]` is where the key is missing
abbrev pub zero_entry : PrefsEntry
zero_entry = record { v = []; at_ms = pos 0; site = []; del = false }

abbrev pub or_zero : Option PrefsEntry → PrefsEntry
or_zero none = zero_entry
or_zero (some e) = e

-- `==` on records
abbrev pub same_entry : PrefsEntry → PrefsEntry → Bool
same_entry a b =
    bytes_eq a.v b.v
    && same_time a.at_ms b.at_ms
    && bytes_eq a.site b.site
    && (if a.del then b.del else not b.del)

-- The loop of `samePrefsEntries`.
unfoldable pub all_same : PrefsEntries → PrefsEntries → Bool
all_same [] b = true
all_same ((k, e) ∷ a) b = same_entry (or_zero (find_key k b)) e && all_same a b

-- `samePrefsEntries`
unfoldable pub same_prefs_entries : PrefsEntries → PrefsEntries → Bool
unfolding all_same
same_prefs_entries a b = (length a == length b) && all_same a b
