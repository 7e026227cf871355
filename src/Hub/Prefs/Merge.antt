-- ===== src/Hub/Prefs/Merge.antt =====
-- Merging is per key, and the newer record wins.
use capri_hub.Common.{
  ◌≡◌, refl, sym, ap, ◌∙◌, inl, inr, true, false, Option, none, some, [], ◌∷◌, if◌then◌else◌,
  Bool-cases, arith,
}
use capri_hub.Common.Words.{Bytes}
use capri_hub.Common.Text.{bytes_eq, bytes_eq_iff, bytes_lt, bytes_lt_trans, bytes_lt_irrefl}
use capri_hub.Common.Int.{ltb_ℤ}
use capri_hub.Hub.Prefs.{
  PrefsEntry, PrefsEntries, same_time, prefs_entry_wins, find_key, put_key, merge_entry,
  merge_prefs_entries,
}

-- No key stands twice.
abbrev pub DistinctKeys : PrefsEntries → Type 0
DistinctKeys [] = Unit {0}
DistinctKeys ((k, e) ∷ m) = (find_key k m ≡ none) × DistinctKeys m

-- The record of one key that a merge keeps.
abbrev pub newer : Option PrefsEntry → Option PrefsEntry → Option PrefsEntry
newer none b = b
newer (some a) none = some a
newer (some a) (some b) = if prefs_entry_wins b a then some b else some a

-- Of the records of one key in two maps, the one that is to be kept: the later one, and among two
-- of one time that of the greater site.
pub data Newest : Option PrefsEntry → Option PrefsEntry → Option PrefsEntry → Type 0 where
  nowhere : Newest none none none
  only_left : (a : PrefsEntry) → Newest (some a) none (some a)
  only_right : (b : PrefsEntry) → Newest none (some b) (some b)
  later_left : (a b : PrefsEntry) → ltb_ℤ b.at_ms a.at_ms ≡ true → Newest (some a) (some b) (some a)
  later_right :
      (a b : PrefsEntry) → ltb_ℤ a.at_ms b.at_ms ≡ true → Newest (some a) (some b) (some b)
  greater_right :
      (a b : PrefsEntry)
      → a.at_ms ≡ b.at_ms
      → bytes_lt a.site b.site ≡ true
      → Newest (some a) (some b) (some b)
  kept_left :
      (a b : PrefsEntry)
      → a.at_ms ≡ b.at_ms
      → bytes_lt a.site b.site ≡ false
      → Newest (some a) (some b) (some a)

pub find_key-put_key :
    (k j : Bytes) (e : PrefsEntry) (m : PrefsEntries)
    → find_key j (put_key k e m) ≡ (if bytes_eq k j then some e else find_key j m)
unfolding find_key put_key
find_key-put_key k j e [] = refl
find_key-put_key k j e ((i, d) ∷ m) =
    let later = find_key-put_key k j e m in
    elim (Bool-cases (bytes_eq i k)) [
      | inl same ↦
          let q : i ≡ k = (bytes_eq_iff i k).0 same in
          elim (Bool-cases (bytes_eq k j)) [
            | inl here ↦ rw (put_key, same, q, here) refl
            | inr away ↦ rw (put_key, same, q, away) refl
          ]
      | inr other ↦ elim (Bool-cases (bytes_eq k j)) [
        | inl here ↦
            let q : k ≡ j = (bytes_eq_iff k j).0 here in
            let apart : bytes_eq i j ≡ false = ap (bytes_eq i) (sym q) ∙ other in
            rw (put_key, other, apart, here) (later ∙ rw here refl)
        | inr away ↦
            rw (put_key, other, away)
              (ap (λ o. if bytes_eq i j then some d else o) (later ∙ rw away refl))
      ]
    ]

newer-none : (o : Option PrefsEntry) → newer o none ≡ o
newer-none none = refl
newer-none (some a) = refl

newer_put :
    (o : Option PrefsEntry) (e : PrefsEntry) (dst : PrefsEntries) (k j : Bytes)
    → find_key k dst ≡ o
    → find_key j (elim o [
      | none ↦ put_key k e dst
      | some cur ↦ if prefs_entry_wins e cur then put_key k e dst else dst
    ])
      ≡ newer (find_key j dst) (if bytes_eq k j then some e else none)
newer_put none e dst k j h = elim (Bool-cases (bytes_eq k j)) [
  | inl here ↦
      let q : k ≡ j = (bytes_eq_iff k j).0 here in
      let absent : find_key j dst ≡ none = ap (λ x. find_key x dst) (sym q) ∙ h in
      find_key-put_key k j e dst ∙ rw (here, absent) refl
  | inr away ↦ find_key-put_key k j e dst ∙ rw away (sym (newer-none (find_key j dst)))
]
newer_put (some cur) e dst k j h = elim (Bool-cases (prefs_entry_wins e cur)) [
  | inl wins ↦ elim (Bool-cases (bytes_eq k j)) [
    | inl here ↦
        let q : k ≡ j = (bytes_eq_iff k j).0 here in
        let found : find_key j dst ≡ some cur = ap (λ x. find_key x dst) (sym q) ∙ h in
        rw wins (find_key-put_key k j e dst ∙ rw (here, found, wins) refl)
    | inr away ↦ rw wins (find_key-put_key k j e dst ∙ rw away (sym (newer-none (find_key j dst))))
  ]
  | inr loses ↦ elim (Bool-cases (bytes_eq k j)) [
    | inl here ↦
        let q : k ≡ j = (bytes_eq_iff k j).0 here in
        let found : find_key j dst ≡ some cur = ap (λ x. find_key x dst) (sym q) ∙ h in
        rw loses (found ∙ rw (here, found, loses) refl)
    | inr away ↦ rw loses (rw away (sym (newer-none (find_key j dst))))
  ]
]

merge_entry-find_key :
    (dst : PrefsEntries) (k j : Bytes) (e : PrefsEntry)
    → find_key j (merge_entry dst k e)
      ≡ newer (find_key j dst) (if bytes_eq k j then some e else none)
unfolding merge_entry
merge_entry-find_key dst k j e = newer_put (find_key k dst) e dst k j refl

-- The merged map has, for a key, what `newer` picks.
find_key-merge_prefs_entries :
    (dst src : PrefsEntries) (j : Bytes)
    → DistinctKeys src
    → find_key j (merge_prefs_entries dst src) ≡ newer (find_key j dst) (find_key j src)
unfolding merge_prefs_entries find_key
find_key-merge_prefs_entries dst [] j d = sym (newer-none (find_key j dst))
find_key-merge_prefs_entries dst ((k, e) ∷ src) j d =
    find_key-merge_prefs_entries (merge_entry dst k e) src j d.1
    ∙ ap (λ o. newer o (find_key j src)) (merge_entry-find_key dst k j e)
    ∙ elim (Bool-cases (bytes_eq k j)) [
      | inl here ↦
          let q : k ≡ j = (bytes_eq_iff k j).0 here in
          let absent : find_key j src ≡ none = ap (λ x. find_key x src) (sym q) ∙ d.0 in
          rw (here, absent) (newer-none (newer (find_key j dst) (some e)))
      | inr away ↦ rw away (ap (λ o. newer o (find_key j src)) (newer-none (find_key j dst)))
    ]

newer-Newest : (x y : Option PrefsEntry) → Newest x y (newer x y)
unfolding prefs_entry_wins
newer-Newest none none = nowhere
newer-Newest none (some b) = only_right b
newer-Newest (some a) none = only_left a
newer-Newest (some a) (some b) = elim (Bool-cases (same_time b.at_ms a.at_ms)) [
  | inl same ↦ elim (Bool-cases (bytes_lt a.site b.site)) [
    | inl less ↦ rw (prefs_entry_wins, same, less) (greater_right a b (same_instant same) less)
    | inr more ↦ rw (prefs_entry_wins, same, more) (kept_left a b (same_instant same) more)
  ]
  | inr apart ↦ elim (Bool-cases (ltb_ℤ a.at_ms b.at_ms)) [
    | inl later ↦ rw (prefs_entry_wins, apart, later) (later_right a b later)
    | inr sooner ↦ rw (prefs_entry_wins, apart, sooner) (later_left a b (other_later apart sooner))
  ]
]
  where
    same_instant : same_time b.at_ms a.at_ms ≡ true → a.at_ms ≡ b.at_ms
    same_instant h = ground arith

    other_later :
        same_time b.at_ms a.at_ms ≡ false
        → ltb_ℤ a.at_ms b.at_ms ≡ false
        → ltb_ℤ b.at_ms a.at_ms ≡ true
    other_later h h' = ground arith

-- Provided that no key stands twice in `src`, the merged map keeps, for each key, the record with the
-- later time, and of two with the same time the one with the greater site; where neither is greater,
-- it keeps that of `dst`. A key of one map only keeps its record, and no other key comes in.
pub merge_prefs_entries_lem :
    (dst src : PrefsEntries) (j : Bytes)
    → DistinctKeys src
    → Newest (find_key j dst) (find_key j src) (find_key j (merge_prefs_entries dst src))
merge_prefs_entries_lem dst src j d =
    rw (find_key-merge_prefs_entries dst src j d) (newer-Newest (find_key j dst) (find_key j src))

wins_irrefl : (a : PrefsEntry) → prefs_entry_wins a a ≡ false
unfolding prefs_entry_wins
wins_irrefl a =
    let same : same_time a.at_ms a.at_ms ≡ true = ground arith in rw (same) (bytes_lt_irrefl a.site)

newer_again : (a b : Option PrefsEntry) → newer (newer a b) b ≡ newer a b
newer_again none none = refl
newer_again none (some y) = rw (wins_irrefl y) refl
newer_again (some x) none = refl
newer_again (some x) (some y) = elim (Bool-cases (prefs_entry_wins y x)) [
  | inl wins ↦ rw wins (rw (wins_irrefl y) refl)
  | inr loses ↦ rw loses (rw loses refl)
]

-- To merge the same entries a second time changes no record: a repeated write is harmless.
merge_prefs_entries_again :
    (dst src : PrefsEntries) (j : Bytes)
    → DistinctKeys src
    → find_key j (merge_prefs_entries (merge_prefs_entries dst src) src)
      ≡ find_key j (merge_prefs_entries dst src)
merge_prefs_entries_again dst src j d =
    let once = find_key-merge_prefs_entries dst src j d in
    find_key-merge_prefs_entries (merge_prefs_entries dst src) src j d
    ∙ ap (λ o. newer o (find_key j src)) once
    ∙ newer_again (find_key j dst) (find_key j src)
    ∙ sym once

bytes_lt_asymm : (s t : Bytes) → bytes_lt s t ≡ true → bytes_lt t s ≡ false
bytes_lt_asymm s t h = elim (Bool-cases (bytes_lt t s)) [
  | inr e ↦ e
  | inl e ↦ e ∙ sym (bytes_lt_trans s t s h e) ∙ bytes_lt_irrefl s
]

wins_asymm : (a b : PrefsEntry) → prefs_entry_wins a b ≡ true → prefs_entry_wins b a ≡ false
unfolding prefs_entry_wins
wins_asymm a b h = elim (Bool-cases (same_time a.at_ms b.at_ms)) [
  | inl same ↦
      let same' : same_time b.at_ms a.at_ms ≡ true = ground arith in
      rw same' (bytes_lt_asymm b.site a.site (rw (prefs_entry_wins, same) at h))
  | inr apart ↦
      let apart' : same_time b.at_ms a.at_ms ≡ false = ground arith in
      rw apart' (later_or_not (rw (prefs_entry_wins, apart) at h))
]
  where
    later_or_not : ltb_ℤ b.at_ms a.at_ms ≡ true → ltb_ℤ a.at_ms b.at_ms ≡ false
    later_or_not h = ground arith

newer_comm :
    (a b : Option PrefsEntry)
    → ((x y : PrefsEntry)
        → a ≡ some x
        → b ≡ some y
        → prefs_entry_wins x y ≡ false
        → prefs_entry_wins y x ≡ false
        → x ≡ y)
    → newer a b ≡ newer b a
newer_comm none none tie = refl
newer_comm none (some y) tie = refl
newer_comm (some x) none tie = refl
newer_comm (some x) (some y) tie = elim (Bool-cases (prefs_entry_wins y x)) [
  | inl wins ↦ rw (wins, wins_asymm y x wins) refl
  | inr loses ↦ elim (Bool-cases (prefs_entry_wins x y)) [
    | inl wins ↦ rw (loses, wins) refl
    | inr loses' ↦ rw (loses, loses') (ap some (tie x y refl refl loses' loses))
  ]
]

-- The order of a merge does not matter, provided that two records of a key with the same time and
-- site, of which neither wins, are equal.
pub merge_prefs_entries_comm :
    (a b : PrefsEntries) (j : Bytes)
    → DistinctKeys a
    → DistinctKeys b
    → ((x y : PrefsEntry)
        → find_key j a ≡ some x
        → find_key j b ≡ some y
        → prefs_entry_wins x y ≡ false
        → prefs_entry_wins y x ≡ false
        → x ≡ y)
    → find_key j (merge_prefs_entries a b) ≡ find_key j (merge_prefs_entries b a)
merge_prefs_entries_comm a b j da db tie =
    find_key-merge_prefs_entries a b j db
    ∙ newer_comm (find_key j a) (find_key j b) tie
    ∙ sym (find_key-merge_prefs_entries b a j da)
