-- ===== src/Hub/Prefs/Migration.antt =====
-- The migration of a snapshot: its entries come from the snapshot, with the hub's own stamp.
use capri_hub.Common.{◌≡◌, sym, ap, inl, inr, false, none, some, List, [], ◌∷◌, ◌++◌, Bool-cases}
use capri_hub.Common.Int.{ℤ}
use capri_hub.Common.Words.{Bytes}
use capri_hub.Common.Text.{codes, bytes_eq}
use capri_hub.Hub.Prefs.{
  PrefsEntry, PrefsEntries, FePrefs, BrowserPrefs, prefs_legacy_site, find_key, stamp, stamp_pins,
  stamp_todos, stamp_fe, entries_from_snapshot,
}
use capri_hub.Hub.Prefs.Merge.{find_key-put_key}

-- Each record has the hub's site and the time `at_time`, and is no tombstone.
abbrev pub IsStamped : ℤ → PrefsEntries → Type 0
IsStamped at_time m =
    (k : Bytes) (e : PrefsEntry)
    → find_key k m ≡ some e
    → (e.site ≡ prefs_legacy_site) × (e.at_ms ≡ at_time) × (e.del ≡ false)

stamp-IsStamped :
    (at_time : ℤ) (m : PrefsEntries) (key val : Bytes)
    → IsStamped at_time m
    → IsStamped at_time (stamp at_time m key val)
stamp-IsStamped at_time m key val s k e h = elim (Bool-cases (bytes_eq key k)) [
  | inl here ↦
      let found : some made ≡ some e = rw (find_key-put_key key k made m, here) at h in
      let same : made ≡ e = cc in
      (ap (λ x. x.site) (sym same), ap (λ x. x.at_ms) (sym same), ap (λ x. x.del) (sym same))
  | inr away ↦ s k e (rw (find_key-put_key key k made m, away) at h)
]
  where
    made : PrefsEntry
    made = record { v = val; at_ms = at_time; site = prefs_legacy_site; del = false }

stamp_pins-IsStamped :
    (at_time : ℤ) (kind : Bytes) (ks : List Bytes) (m : PrefsEntries)
    → IsStamped at_time m
    → IsStamped at_time (stamp_pins at_time kind ks m)
stamp_pins-IsStamped at_time kind [] m s = s
stamp_pins-IsStamped at_time kind (k ∷ ks) m s =
    stamp_pins-IsStamped at_time kind ks _ (stamp-IsStamped at_time m (kind ++ k) (codes "1") s)

stamp_todos-IsStamped :
    (at_time : ℤ) (todos : List (Bytes × Bytes)) (m : PrefsEntries)
    → IsStamped at_time m
    → IsStamped at_time (stamp_todos at_time todos m)
stamp_todos-IsStamped at_time [] m s = s
stamp_todos-IsStamped at_time ((id, status) ∷ todos) m s =
    stamp_todos-IsStamped at_time todos _ (stamp-IsStamped at_time m (codes "todo:" ++ id) status s)

stamp_fe-IsStamped :
    (at_time : ℤ) (fe : FePrefs) (m : PrefsEntries)
    → IsStamped at_time m
    → IsStamped at_time (stamp_fe at_time fe m)
stamp_fe-IsStamped at_time [] m s = s
stamp_fe-IsStamped at_time ((field, none) ∷ fe) m s = stamp_fe-IsStamped at_time fe m s
stamp_fe-IsStamped at_time ((field, some b) ∷ fe) m s =
    stamp_fe-IsStamped at_time fe _ (stamp-IsStamped at_time m (codes "fe:" ++ field) _ s)

empty-IsStamped : (at_time : ℤ) → IsStamped at_time []
unfolding find_key
empty-IsStamped at_time k e h = absurd (let h' : none ≡ some e = h in cc)

-- Every record that a snapshot is migrated to has the hub's own site and the time of the
-- migration, and is no tombstone.
entries_from_snapshot-IsStamped :
    (p : BrowserPrefs) (at_time : ℤ) → IsStamped at_time (entries_from_snapshot p at_time)
unfolding entries_from_snapshot
entries_from_snapshot-IsStamped p at_time = stamp_fe-IsStamped at_time p.fe_prefs _ (
    stamp_todos-IsStamped at_time p.todos _ (
      stamp_pins-IsStamped at_time (codes "se:") p.pinned_sessions _ (
        stamp_pins-IsStamped at_time (codes "ws:") p.pinned_workspaces []
          (empty-IsStamped at_time))))
