-- ===== src/Hub/Events/Examples.antt =====
-- A ring of three events, one of which comes late.
use capri_hub.Common.{take, drop, ◌++◌, ℕ, ◌≤◌, ◌≡◌, refl, false, List, [], ◌∷◌, length, arith}
use capri_hub.Hub.Events.{
  Event, EventBuffer, ev_buf_high_water, events_after, buffer_event, place_event, search,
  search_between, cut_oldest, events_bytes,
}
use capri_hub.Hub.Events.Search.{IsAscending, newer, events_after_lem}
use capri_hub.Hub.Events.Ring.{buffer_event_lem}

abbrev event_at : ℕ → Event
event_at n = record { ev_seq = n; event_bytes = 10; wire = [] }

abbrev ring : List Event
ring = event_at 3 ∷ event_at 4 ∷ event_at 7 ∷ []

abbrev buffer : EventBuffer
buffer = record { ev_buf = ring; ev_buf_bytes = 30; fuse_logged = false }

ring-IsAscending : IsAscending ring
ring-IsAscending = ((omega arith, (omega arith, tt)), ((omega arith, tt), (tt, tt)))

events_after_lem_example : events_after 3 ring ≡ newer 3 ring
events_after_lem_example = events_after_lem 3 ring ring-IsAscending

buffer_event_lem_example :
    IsAscending (buffer_event buffer (event_at 5)).ev_buf
    × (length (buffer_event buffer (event_at 5)).ev_buf ≤ ev_buf_high_water)
    × ((i : ℕ) × (n : ℕ) × ((buffer_event buffer (event_at 5)).ev_buf
          ≡ drop n (take i buffer.ev_buf ++ (event_at 5 ∷ drop i buffer.ev_buf))))
buffer_event_lem_example = buffer_event_lem buffer (event_at 5) ring-IsAscending

late_run :
    (buffer_event buffer (event_at 5)).ev_buf
    ≡ event_at 3 ∷ event_at 4 ∷ event_at 5 ∷ event_at 7 ∷ []
unfolding buffer_event place_event search search_between cut_oldest events_bytes
late_run = refl
