-- ===== src/Hub/Events.antt =====
-- internal/hub/hub.go: the events of one host that are kept for a browser that missed some.
-- Of an event the model keeps what the code reads: its number (`evSeq`) and its weight in bytes
-- (`eventBytes`); a byte count is kept as its 64-bit pattern. `sort.Search` is written out.
pub mod Search
pub mod Ring
mod Examples
use capri_hub.Common.{
  ℕ, zero, suc, ◌+◌, ◌-◌, ◌*◌, ◌/◌, ◌^◌, Bool, true, false, ◌||◌, Option, none, some, List, [], ◌∷◌,
  ◌++◌, ltb, ◌==◌, if◌then◌else◌, length, take, drop, get_elem?,
}
use capri_hub.Common.Int.{pos, ltb_ℤ, word_int}
use capri_hub.Common.Words.{Bytes, add64, sub64}

abbrev pub event_buf_cap : ℕ
event_buf_cap = 1500

abbrev pub ev_buf_high_water : ℕ
ev_buf_high_water = 2 * event_buf_cap

abbrev pub ev_buf_byte_cap : ℕ
ev_buf_byte_cap = 64 * 2 ^ 20

pub record Event : Type 0 where
  pub ev_seq : ℕ
  pub event_bytes : ℕ
  pub wire : Bytes

-- The buffer of `hostState`.
pub record EventBuffer : Type 0 where
  pub ev_buf : List Event
  pub ev_buf_bytes : ℕ
  pub fuse_logged : Bool

-- `sort.Search`, between `i` and `j`
unfoldable pub search_between : ℕ → (ℕ → Bool) → ℕ → ℕ → ℕ
search_between zero f i j = i
search_between (suc fuel) f i j =
    let h = (i + j) / 2 in
    let left = search_between fuel f i h in
    let right = search_between fuel f (suc h) j in
    if ltb i j then (if f h then left else right) else i

-- `sort.Search`; each round halves what is left, so the length is fuel enough.
unfoldable pub search : ℕ → (ℕ → Bool) → ℕ
unfolding search_between
search n f = search_between n f 0 n

-- `evSeq(hs.evBuf[i])`
abbrev pub seq_at : ℕ → List Event → ℕ
seq_at i evs = elim (get_elem? evs i) [ none ↦ 0 | some ev ↦ ev.ev_seq ]

-- The first event whose number is above `after`.
abbrev pub cut_point : ℕ → List Event → ℕ
cut_point after evs = search (length evs) (λ i. ltb after (seq_at i evs))

-- `EventsAfter`, of a host that is paired
unfoldable pub events_after : ℕ → List Event → List Event
unfolding search
events_after after evs = drop (cut_point after evs) evs

-- `eventsBytes`
unfoldable pub events_bytes : List Event → ℕ
events_bytes [] = 0
events_bytes (ev ∷ evs) = add64 ev.event_bytes (events_bytes evs)

-- The place of the event in the ring.
unfoldable pub place_event : Event → List Event → List Event
unfolding search
place_event ev evs =
    let at = cut_point ev.ev_seq evs in
    if (length evs == 0) || ltb (seq_at (length evs - 1) evs) ev.ev_seq
    then evs ++ (ev ∷ [])
    else take at evs ++ (ev ∷ drop at evs)

-- Over the byte cap the oldest events go.
unfoldable pub cut_oldest : ℕ → List Event → List Event × ℕ
cut_oldest bytes [] = ([], bytes)
cut_oldest bytes (ev ∷ evs) =
    let rest = cut_oldest (sub64 bytes ev.event_bytes) evs in
    if ltb_ℤ (pos ev_buf_byte_cap) (word_int bytes) then rest else (ev ∷ evs, bytes)

-- `bufferEventLocked`
unfoldable pub buffer_event : EventBuffer → Event → EventBuffer
unfolding place_event cut_oldest events_bytes
buffer_event hs ev =
    let bytes = add64 hs.ev_buf_bytes ev.event_bytes in
    let placed = place_event ev hs.ev_buf in
    let trimmed = drop (length placed - event_buf_cap) placed in
    let full = ltb ev_buf_high_water (length placed) in
    let buf = if full then trimmed else placed in
    let weight = if full then events_bytes trimmed else bytes in
    let (kept, left) = cut_oldest weight buf in
    record hs {
      ev_buf = kept;
      ev_buf_bytes = left;
      fuse_logged = ltb_ℤ (pos ev_buf_byte_cap) (word_int weight) || hs.fuse_logged;
    }
