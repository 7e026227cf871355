-- ===== src/Wire/Receiver/Examples.antt =====
-- A receiver that holds frame 7 while it waits for frame 6.
use capri_hub.Common.{ℕ, ◌≤◌, ◌≡◌, refl, inl, inr, [], ◌∷◌, arith}
use capri_hub.Common.Words.{Bytes}
use capri_hub.Wire.Receiver.{Receiver, accept, park, release, drain}
use capri_hub.Wire.Receiver.Accept.{IsValid, Holds, Outcome, accept-Outcome}
use capri_hub.Wire.Receiver.Stream.{Delivers, feed, feed-Delivers, feed_complete}

abbrev payload_of : ℕ → Bytes
payload_of seq = seq ∷ []

abbrev waiting : Receiver
waiting = record { acked = 5; window = 2; buf = (7, 7 ∷ []) ∷ [] }

waiting-IsValid : IsValid waiting
waiting-IsValid = record {
  word = omega arith;
  distinct = (refl, tt);
  ahead = λ k v e. ground arith;
  bounded = omega arith;
}

waiting-Holds : Holds payload_of waiting
waiting-Holds k v e = ground arith

accept-Outcome_example : Outcome payload_of waiting 6 (6 ∷ []) (accept waiting 6 (6 ∷ []))
accept-Outcome_example =
    accept-Outcome payload_of waiting 6 (6 ∷ []) waiting-IsValid waiting-Holds (omega arith)

feed-Delivers_example : Delivers payload_of waiting (feed payload_of (8 ∷ 6 ∷ []) waiting)
feed-Delivers_example =
    feed-Delivers payload_of (8 ∷ 6 ∷ []) waiting waiting-IsValid waiting-Holds
      (omega arith, (omega arith, tt))

feed_complete_example : 6 ≤ (feed payload_of (8 ∷ 6 ∷ []) waiting).receiver.acked
unfolding feed accept park release drain
feed_complete_example =
    feed_complete payload_of (8 ∷ 6 ∷ []) waiting 6 waiting-IsValid waiting-Holds
      (omega arith, (omega arith, tt)) refl (λ k low high. inr (inl (omega arith)))

-- Frame 6 releases frame 7 with it.
accept_run : (accept waiting 6 (6 ∷ [])).1.ready ≡ (6 ∷ []) ∷ (7 ∷ []) ∷ []
unfolding accept park release drain
accept_run = refl
