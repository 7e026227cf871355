-- ===== src/Hub/Prefs/Tombstones.antt =====
-- Pruning drops exactly the tombstones that are too old.
use capri_hub.Common.{
  ◌≡◌, refl, sym, ap, ◌∙◌, inl, inr, ◌&&◌, Option, none, some, [], ◌∷◌, if◌then◌else◌, Bool-cases,
}
use capri_hub.Common.Int.{ℤ, ltb_ℤ}
use capri_hub.Common.Words.{Bytes}
use capri_hub.Common.Text.{bytes_eq, bytes_eq_iff}
use capri_hub.Hub.Prefs.{PrefsEntry, PrefsEntries, find_key, prune_prefs_tombstones}
use capri_hub.Hub.Prefs.Merge.{DistinctKeys}

-- A record that is not a tombstone from before `cut`.
abbrev pub unexpired : ℤ → Option PrefsEntry → Option PrefsEntry
unexpired cut none = none
unexpired cut (some e) = if e.del && ltb_ℤ e.at_ms cut then none else some e

pruned_absent :
    (cut : ℤ) (m : PrefsEntries) (j : Bytes)
    → find_key j m ≡ none
    → find_key j (prune_prefs_tombstones cut m) ≡ none
unfolding prune_prefs_tombstones find_key
pruned_absent cut [] j h = refl
pruned_absent cut ((k, e) ∷ m) j h = elim (Bool-cases (bytes_eq k j)) [
  | inl here ↦ absurd (let h' : some e ≡ none = rw (find_key, here) at h in cc)
  | inr away ↦
      let later = pruned_absent cut m j (rw (find_key, away) at h) in
      elim (Bool-cases (e.del && ltb_ℤ e.at_ms cut)) [
        | inl old ↦ rw (prune_prefs_tombstones, old) later
        | inr kept ↦ rw (prune_prefs_tombstones, kept, away) later
      ]
]

-- Pruning drops the tombstones from before `cut`, and changes no other record.
pub prune_prefs_tombstones_lem :
    (cut : ℤ) (m : PrefsEntries) (j : Bytes)
    → DistinctKeys m
    → find_key j (prune_prefs_tombstones cut m) ≡ unexpired cut (find_key j m)
unfolding prune_prefs_tombstones find_key
prune_prefs_tombstones_lem cut [] j d = refl
prune_prefs_tombstones_lem cut ((k, e) ∷ m) j d = elim (Bool-cases (bytes_eq k j)) [
  | inl here ↦
      let q : k ≡ j = (bytes_eq_iff k j).0 here in
      elim (Bool-cases (e.del && ltb_ℤ e.at_ms cut)) [
        | inl old ↦
            rw (prune_prefs_tombstones, old, here)
              (pruned_absent cut m j (ap (λ x. find_key x m) (sym q) ∙ d.0) ∙ rw old refl)
        | inr kept ↦ rw (prune_prefs_tombstones, kept, here) (rw kept refl)
      ]
  | inr away ↦
      let later = prune_prefs_tombstones_lem cut m j d.1 in
      elim (Bool-cases (e.del && ltb_ℤ e.at_ms cut)) [
        | inl old ↦ rw (prune_prefs_tombstones, old, away) later
        | inr kept ↦ rw (prune_prefs_tombstones, kept, away) later
      ]
]
