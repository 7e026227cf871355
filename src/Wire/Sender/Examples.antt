-- ===== src/Wire/Sender/Examples.antt =====
-- A sender with two entries in its log.
use capri_hub.Common.{ℕ, ◌+◌, ◌<◌, ◌≡◌, refl, ◌≢◌, ◌⊎◌, min, max, none, [], ◌∷◌, ◌++◌, arith}
use capri_hub.Common.Int.{negsuc}
use capri_hub.Wire.Sender.{Sender, append_at, ack, elide_from, drop_covered}
use capri_hub.Wire.Sender.Log.{IsValid, append_at_lem}
use capri_hub.Wire.Sender.Ack.{above, ack_lem}
use capri_hub.Wire.Sender.Elide.{Elided, elide_from_lem}

abbrev number_eight : ℕ
number_eight = 8

abbrev two_entries : Sender
two_entries = record {
  next = 6;
  acked = 4;
  log = record { seq = 5; payload = 1 ∷ 2 ∷ [] } ∷ record { seq = 6; payload = 3 ∷ [] } ∷ [];
  bytes = 3;
}

two_entries-IsValid : IsValid two_entries
two_entries-IsValid = record {
  base = 4;
  run = (refl, (refl, tt));
  top = refl;
  low = omega arith;
  word = omega arith;
  counted = refl;
}

append_at_lem_example :
    let (s', err) = append_at two_entries number_eight (9 ∷ []) in
    IsValid s'
    × ((err ≡ none)
          × (0 < 8)
          × ((two_entries.next ≡ 0) ⊎ (number_eight ≡ two_entries.next + 1))
          × (s'.next ≡ 8)
          × (s'.log ≡ two_entries.log ++ (record { seq = 8; payload = 9 ∷ [] } ∷ []))
        ⊎ (err ≢ none)
          × (s' ≡ two_entries)
          × ((number_eight ≡ 0) ⊎ (two_entries.next ≢ 0) × (number_eight ≢ two_entries.next + 1)))
append_at_lem_example =
    append_at_lem two_entries number_eight (9 ∷ []) two_entries-IsValid (omega arith)

-- The peer confirms more than was sent.
ack_lem_example :
    let s' = ack two_entries 100 in
    (s'.acked ≡ max 4 (min 100 6))
    × (s'.log ≡ above s'.acked two_entries.log)
    × (s'.next ≡ 6)
    × IsValid s'
ack_lem_example = ack_lem two_entries 100 two_entries-IsValid

elide_from_lem_example :
    Elided two_entries (negsuc 0) 6 [] (elide_from two_entries (negsuc 0) 6 [])
    × IsValid (elide_from two_entries (negsuc 0) 6 []).0
elide_from_lem_example = elide_from_lem two_entries (negsuc 0) 6 [] two_entries-IsValid

ack_run : (ack two_entries 5).log ≡ record { seq = 6; payload = 3 ∷ [] } ∷ []
unfolding ack drop_covered
ack_run = refl
