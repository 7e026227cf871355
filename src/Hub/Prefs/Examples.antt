-- ===== src/Hub/Prefs/Examples.antt =====
-- A pin that a later tombstone cancels.
use capri_hub.Common.{◌≡◌, refl, true, false, some, [], ◌∷◌}
use capri_hub.Common.Int.{pos}
use capri_hub.Common.Words.{Bytes}
use capri_hub.Common.Text.{codes, bytes_eq, bytes_lt}
use capri_hub.Hub.Prefs.{
  zero_entry, all_same, same_prefs_entries, BrowserPrefs, prefs_legacy_site, PrefsEntry,
  PrefsEntries, prefs_entry_wins, find_key, put_key, merge_entry, merge_prefs_entries,
  prune_prefs_tombstones,
}
use capri_hub.Hub.Prefs.Merge.{Newest, merge_prefs_entries_lem, merge_prefs_entries_comm}
use capri_hub.Hub.Prefs.Tombstones.{unexpired, prune_prefs_tombstones_lem}

abbrev pin_key : Bytes
pin_key = codes "se:1"

abbrev pinned : PrefsEntry
pinned = record { v = codes "1"; at_ms = pos 100; site = codes "a"; del = false }

abbrev cancelled : PrefsEntry
cancelled = record { v = []; at_ms = pos 200; site = codes "b"; del = true }

abbrev stale : PrefsEntries
stale = (pin_key, pinned) ∷ []

abbrev current : PrefsEntries
current = (pin_key, cancelled) ∷ []

merge_prefs_entries_lem_example :
    Newest
      (find_key pin_key current)
      (find_key pin_key stale)
      (find_key pin_key (merge_prefs_entries current stale))
unfolding find_key
merge_prefs_entries_lem_example = merge_prefs_entries_lem current stale pin_key (refl, tt)

no_tie :
    (x y : PrefsEntry)
    → find_key pin_key current ≡ some x
    → find_key pin_key stale ≡ some y
    → prefs_entry_wins x y ≡ false
    → prefs_entry_wins y x ≡ false
    → x ≡ y
unfolding find_key prefs_entry_wins bytes_eq
no_tie x y hx hy a b = absurd (let w : prefs_entry_wins cancelled pinned ≡ true = refl in cc)

merge_prefs_entries_comm_example :
    find_key pin_key (merge_prefs_entries current stale)
    ≡ find_key pin_key (merge_prefs_entries stale current)
unfolding find_key
merge_prefs_entries_comm_example =
    merge_prefs_entries_comm current stale pin_key (refl, tt) (refl, tt) no_tie

prune_prefs_tombstones_lem_example :
    find_key pin_key (prune_prefs_tombstones (pos 300) current)
    ≡ unexpired (pos 300) (find_key pin_key current)
unfolding find_key
prune_prefs_tombstones_lem_example = prune_prefs_tombstones_lem (pos 300) current pin_key (refl, tt)

-- A stale copy does not bring a cancelled pin back.
cancelled_stays : find_key pin_key (merge_prefs_entries current stale) ≡ some cancelled
unfolding find_key put_key merge_entry merge_prefs_entries prefs_entry_wins bytes_eq bytes_lt
cancelled_stays = refl

-- Two records of one time and site: the order of a merge decides.
abbrev other_value : PrefsEntry
other_value = record pinned { v = codes "2" }

tie_depends_on_order :
    (find_key pin_key (merge_prefs_entries ((pin_key, pinned) ∷ []) ((pin_key, other_value) ∷ []))
      ≡ some pinned)
    × (find_key pin_key (merge_prefs_entries ((pin_key, other_value) ∷ []) ((pin_key, pinned) ∷ []))
        ≡ some other_value)
unfolding find_key put_key merge_entry merge_prefs_entries prefs_entry_wins bytes_eq bytes_lt
tie_depends_on_order = (refl, refl)

abbrev old_file : BrowserPrefs
old_file = record {
  entries = [];
  pinned_workspaces = [];
  pinned_sessions = codes "1" ∷ [];
  todos = [];
  fe_prefs = [];
}

-- A migrated record wins a tie against a client whose site sorts before the hub's.
migrated_wins_tie :
    prefs_entry_wins
      (record pinned { site = prefs_legacy_site })
      (record pinned { site = codes "a" })
    ≡ true
unfolding prefs_entry_wins bytes_lt
migrated_wins_tie = refl

-- A zero record counts as the same as a missing one.
zero_records_same :
    (same_prefs_entries ((codes "a", zero_entry) ∷ []) ((codes "b", zero_entry) ∷ []) ≡ true)
    × (same_prefs_entries stale current ≡ false)
unfolding same_prefs_entries all_same find_key bytes_eq
zero_records_same = (refl, refl)
