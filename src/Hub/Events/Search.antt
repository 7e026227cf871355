-- ===== src/Hub/Events/Search.antt =====
-- The binary search in the ring, against a scan of all its events.
use capri_hub.Common.{
  ℕ, zero, suc, ◌+◌, ◌/◌, ◌≤◌, ◌<◌, ◌≡◌, refl, sym, ap, ◌∙◌, inl, inr, Bool, true, false, List, [],
  ◌∷◌, ltb, if◌then◌else◌, length, drop, All, Bool-cases, arith,
}
use capri_hub.Hub.Events.{Event, search_between, search, seq_at, events_after}

-- The events in the order of their numbers.
abbrev pub IsAscending : List Event → Type 0
IsAscending [] = Unit {0}
IsAscending (ev ∷ evs) = All (λ x. ev.ev_seq ≤ x.ev_seq) evs × IsAscending evs

-- The events above `after`, one by one.
unfoldable pub newer : ℕ → List Event → List Event
newer after [] = []
newer after (ev ∷ evs) =
    let rest = newer after evs in if ltb after ev.ev_seq then ev ∷ rest else rest

-- The first place from which on a test holds, among `n`.
pub record Splits (f : ℕ → Bool) (n r : ℕ) : Type 0 where
  pub below : (k : ℕ) → k < r → f k ≡ false
  pub above : (k : ℕ) → r ≤ k → k < n → f k ≡ true

pub search_between-Splits :
    (fuel : ℕ) (f : ℕ → Bool) (n i j : ℕ)
    → ((a b : ℕ) → a ≤ b → b < n → f a ≡ true → f b ≡ true)
    → i ≤ j
    → j ≤ n
    → j ≤ i + fuel
    → ((k : ℕ) → k < i → f k ≡ false)
    → ((k : ℕ) → j ≤ k → k < n → f k ≡ true)
    → Splits f n (search_between fuel f i j)
unfolding search_between
search_between-Splits zero f n i j m ij jn fit lo hi = record {
  below = lo;
  above = λ k a b. hi k (omega arith) b;
}
search_between-Splits (suc fuel) f n i j m ij jn fit lo hi =
    let h = (i + j) / 2 in
    elim (Bool-cases (ltb i j)) [
      | inr met ↦ rw met (record { below = lo; above = λ k a b. hi k (ground arith) b })
      | inl apart ↦
          let wide : i < j = ground arith in
          elim (Bool-cases (f h)) [
            | inl holds ↦
                rw (apart, holds)
                  (search_between-Splits fuel f n i h m (omega arith) (omega arith) (omega arith) lo
                    (λ k a b. m h k a b holds))
            | inr off ↦
                rw (apart, off)
                  (search_between-Splits fuel f n (suc h) j m (omega arith) jn (omega arith)
                    (λ k a. false_below f n h k m off (omega arith) (omega arith)) hi)
          ]
    ]
  where
    false_below :
        (f : ℕ → Bool) (n h k : ℕ)
        → ((a b : ℕ) → a ≤ b → b < n → f a ≡ true → f b ≡ true)
        → f h ≡ false
        → k ≤ h
        → h < n
        → f k ≡ false
    false_below f n h k m e kh hn = elim (Bool-cases (f k)) [
      | inr o ↦ o
      | inl o ↦ absurd (let c : true ≡ false = sym (m k h kh hn o) ∙ e in cc)
    ]

pub seq_at_up :
    (evs : List Event) (a b : ℕ)
    → IsAscending evs
    → a ≤ b
    → b < length evs
    → seq_at a evs ≤ seq_at b evs
seq_at_up [] a b s ab bn = absurd (omega arith)
seq_at_up (ev ∷ evs) zero zero s ab bn = omega arith
seq_at_up (ev ∷ evs) zero (suc b) s ab bn = head_up evs b s.0 (omega arith)
  where
    head_up :
        (evs : List Event) (b : ℕ)
        → All (λ x. ev.ev_seq ≤ x.ev_seq) evs
        → b < length evs
        → ev.ev_seq ≤ seq_at b evs
    head_up [] b s bn = absurd (omega arith)
    head_up (x ∷ evs) zero s bn = s.0
    head_up (x ∷ evs) (suc b) s bn = head_up evs b s.1 (omega arith)
seq_at_up (ev ∷ evs) (suc a) zero s ab bn = absurd (omega arith)
seq_at_up (ev ∷ evs) (suc a) (suc b) s ab bn = seq_at_up evs a b s.1 (omega arith) (omega arith)

newer_all :
    (after : ℕ) (evs : List Event)
    → ((k : ℕ) → k < length evs → ltb after (seq_at k evs) ≡ true)
    → newer after evs ≡ evs
unfolding newer
newer_all after [] h = refl
newer_all after (ev ∷ evs) h =
    rw (h 0 (omega arith)) (ap (◌∷◌ ev) (newer_all after evs (λ k b. h (suc k) (omega arith))))

drop-newer :
    (after r : ℕ) (evs : List Event)
    → Splits (λ k. ltb after (seq_at k evs)) (length evs) r
    → drop r evs ≡ newer after evs
unfolding newer
drop-newer after zero evs s = sym (newer_all after evs (λ k b. s.above k (omega arith) b))
drop-newer after (suc r) [] s = refl
drop-newer after (suc r) (ev ∷ evs) s = rw (s.below 0 (omega arith)) (
    drop-newer after r evs (record {
      below = λ k b. s.below (suc k) (omega arith);
      above = λ k a b. s.above (suc k) (omega arith) (omega arith);
    }))

-- The gap pull finds by binary search exactly the buffered events above the number that the browser
-- has, in their order.
pub events_after_lem :
    (after : ℕ) (evs : List Event) → IsAscending evs → events_after after evs ≡ newer after evs
unfolding events_after search
events_after_lem after evs s = drop-newer after _ evs (
    search_between-Splits (length evs) (λ k. ltb after (seq_at k evs)) (length evs) 0 (length evs)
      (λ a b ab bn h. let up = seq_at_up evs a b s ab bn in ground arith) (omega arith)
      (omega arith) (omega arith) (λ k b. absurd (omega arith)) (λ k a b. absurd (omega arith)))
