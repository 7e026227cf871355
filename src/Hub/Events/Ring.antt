-- ===== src/Hub/Events/Ring.antt =====
-- What `bufferEventLocked` keeps of the ring.
use capri_hub.Common.{
  ℕ, zero, suc, ◌+◌, ◌-◌, ◌≤◌, ◌<◌, ◌≡◌, refl, ap, ◌∙◌, inl, inr, true, ◌||◌, List, [], ◌∷◌, ◌++◌,
  ltb, ◌==◌, length, take, drop, All, length-drop, drop-drop, Bool-cases, arith,
}
use capri_hub.Common.Int.{pos, ltb_ℤ, word_int}
use capri_hub.Common.Words.{add64, sub64}
use capri_hub.Hub.Events.{
  Event, EventBuffer, event_buf_cap, ev_buf_high_water, ev_buf_byte_cap, search, seq_at, cut_point,
  place_event, cut_oldest, events_bytes, buffer_event,
}
use capri_hub.Hub.Events.Search.{IsAscending, Splits, search_between-Splits, seq_at_up}

splice-All :
    (P : Event → Type 0) (r : ℕ) (ev : Event) (evs : List Event)
    → All P evs
    → P ev
    → All P (take r evs ++ (ev ∷ drop r evs))
splice-All P zero ev evs a p = (p, a)
splice-All P (suc r) ev [] a p = (p, tt)
splice-All P (suc r) ev (x ∷ evs) a p = (a.0, splice-All P r ev evs a.1 p)

All-above :
    (s : ℕ) (evs : List Event)
    → ((k : ℕ) → k < length evs → s ≤ seq_at k evs)
    → All (λ x. s ≤ x.ev_seq) evs
All-above s [] h = tt
All-above s (x ∷ evs) h = (h 0 (omega arith), All-above s evs (λ k b. h (suc k) (omega arith)))

splice-IsAscending :
    (r : ℕ) (ev : Event) (evs : List Event)
    → IsAscending evs
    → Splits (λ k. ltb ev.ev_seq (seq_at k evs)) (length evs) r
    → IsAscending (take r evs ++ (ev ∷ drop r evs))
splice-IsAscending zero ev evs a s =
    (All-above ev.ev_seq evs (λ k b. let up = s.above k (omega arith) b in ground arith), a)
splice-IsAscending (suc r) ev [] a s = (tt, tt)
splice-IsAscending (suc r) ev (x ∷ evs) a s = (
  splice-All (λ y. x.ev_seq ≤ y.ev_seq) r ev evs a.0
      (let low = s.below 0 (omega arith) in ground arith),
  splice-IsAscending r ev evs a.1 (record {
    below = λ k b. s.below (suc k) (omega arith);
    above = λ k u b. s.above (suc k) (omega arith) (omega arith);
  }),
)

append-All :
    (P : Event → Type 0) (ev : Event) (evs : List Event)
    → All P evs
    → P ev
    → All P (evs ++ (ev ∷ []))
append-All P ev [] a p = (p, tt)
append-All P ev (x ∷ evs) a p = (a.0, append-All P ev evs a.1 p)

append-IsAscending :
    (ev : Event) (evs : List Event)
    → IsAscending evs
    → ((k : ℕ) → k < length evs → seq_at k evs ≤ ev.ev_seq)
    → IsAscending (evs ++ (ev ∷ []))
append-IsAscending ev [] a h = (tt, tt)
append-IsAscending ev (x ∷ evs) a h = (
  append-All (λ y. x.ev_seq ≤ y.ev_seq) ev evs a.0 (h 0 (omega arith)),
  append-IsAscending ev evs a.1 (λ k b. h (suc k) (omega arith)),
)

place_event-IsAscending :
    (ev : Event) (evs : List Event) → IsAscending evs → IsAscending (place_event ev evs)
unfolding place_event search
place_event-IsAscending ev evs a =
    elim (Bool-cases ((length evs == 0) || ltb (seq_at (length evs - 1) evs) ev.ev_seq)) [
      | inl last ↦ rw last (append-IsAscending ev evs a (λ k b. below_last k b last))
      | inr inside ↦ rw inside (
          splice-IsAscending _ ev evs a (
            search_between-Splits (length evs) (λ k. ltb ev.ev_seq (seq_at k evs)) (length evs) 0
              (length evs) (λ i j ij jn h. let up = seq_at_up evs i j a ij jn in ground arith)
              (omega arith) (omega arith) (omega arith) (λ k b. absurd (omega arith))
              (λ k u b. absurd (omega arith))))
    ]
  where
    below_last :
        (k : ℕ)
        → k < length evs
        → ((length evs == 0) || ltb (seq_at (length evs - 1) evs) ev.ev_seq) ≡ true
        → seq_at k evs ≤ ev.ev_seq
    below_last k b h =
        let up = seq_at_up evs k (length evs - 1) a (omega arith) (omega arith) in ground arith

drop-IsAscending : (n : ℕ) (evs : List Event) → IsAscending evs → IsAscending (drop n evs)
drop-IsAscending zero evs a = a
drop-IsAscending (suc n) [] a = tt
drop-IsAscending (suc n) (x ∷ evs) a = drop-IsAscending n evs a.1

-- What the byte cap leaves: the end of the ring.
record Kept (evs kept : List Event) : Type 0 where
  in_order : IsAscending evs → IsAscending kept
  shorter : length kept ≤ length evs
  suffix : (n : ℕ) × (kept ≡ drop n evs)

cut_oldest-Kept : (bytes : ℕ) (evs : List Event) → Kept evs (cut_oldest bytes evs).0
unfolding cut_oldest
cut_oldest-Kept bytes [] = record { in_order = λ a. a; shorter = omega arith; suffix = (0, refl) }
cut_oldest-Kept bytes (ev ∷ evs) =
    elim (Bool-cases (ltb_ℤ (pos ev_buf_byte_cap) (word_int bytes))) [
      | inr fits ↦ rw fits (record { in_order = λ a. a; shorter = omega arith; suffix = (0, refl) })
      | inl over ↦
          let rest = cut_oldest-Kept (sub64 bytes ev.event_bytes) evs in
          rw over (record {
            in_order = λ a. rest.in_order a.1;
            shorter = (let s = rest.shorter in omega arith);
            suffix = (let (n, e) = rest.suffix in (suc n, e));
          })
    ]

splice_at_end :
    (ev : Event) (evs : List Event)
    → evs ++ (ev ∷ []) ≡ take (length evs) evs ++ (ev ∷ drop (length evs) evs)
splice_at_end ev [] = refl
splice_at_end ev (x ∷ evs) = ap (λ m. x ∷ m) (splice_at_end ev evs)

-- The event is put somewhere between the others.
place_event-splice :
    (ev : Event) (evs : List Event)
    → (i : ℕ) × (place_event ev evs ≡ take i evs ++ (ev ∷ drop i evs))
unfolding place_event
place_event-splice ev evs =
    elim (Bool-cases ((length evs == 0) || ltb (seq_at (length evs - 1) evs) ev.ev_seq)) [
      | inl last ↦ (length evs, rw last (splice_at_end ev evs))
      | inr inside ↦ (cut_point ev.ev_seq evs, rw inside refl)
    ]

-- Of a list that is cut twice, only its front is gone.
cut_twice :
    (k : ℕ) (placed spliced kept : List Event)
    → placed ≡ spliced
    → ((n : ℕ) × (kept ≡ drop n (drop k placed)))
    → (n : ℕ) × (kept ≡ drop n spliced)
cut_twice k placed spliced kept e (n, q) = (k + n, q ∙ drop-drop n k placed ∙ ap (drop (k + n)) e)

-- Buffering an event keeps the ring in the order of the numbers, and within its high-water mark. The
-- event is put between the others, and what goes is the front of the ring: the oldest events.
pub buffer_event_lem :
    (hs : EventBuffer) (ev : Event)
    → IsAscending hs.ev_buf
    → IsAscending (buffer_event hs ev).ev_buf
      × (length (buffer_event hs ev).ev_buf ≤ ev_buf_high_water)
      × ((i : ℕ) × (n : ℕ) × ((buffer_event hs ev).ev_buf
            ≡ drop n (take i hs.ev_buf ++ (ev ∷ drop i hs.ev_buf))))
unfolding buffer_event
buffer_event_lem hs ev a =
    let placed = place_event ev hs.ev_buf in
    let p = place_event-IsAscending ev hs.ev_buf a in
    let (i, spliced) = place_event-splice ev hs.ev_buf in
    let trimmed = drop (length placed - event_buf_cap) placed in
    elim (Bool-cases (ltb ev_buf_high_water (length placed))) [
      | inl full ↦
          let k = cut_oldest-Kept (events_bytes trimmed) trimmed in
          let size = length-drop (length placed - event_buf_cap) placed in
          rw full (
            k.in_order (drop-IsAscending (length placed - event_buf_cap) placed p),
            (let s = k.shorter in ground arith),
            (let (n, cut) = cut_twice (length placed - event_buf_cap) placed _ _ spliced k.suffix in
                (i, n, cut)),
          )
      | inr room ↦
          let k = cut_oldest-Kept (add64 hs.ev_buf_bytes ev.event_bytes) placed in
          rw room (
            k.in_order p,
            (let s = k.shorter in ground arith),
            (let (n, cut) = cut_twice 0 placed _ _ spliced k.suffix in (i, n, cut)),
          )
    ]
