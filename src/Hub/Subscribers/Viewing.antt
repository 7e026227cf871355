-- ===== src/Hub/Subscribers/Viewing.antt =====
-- internal/hub/hub.go: which sessions of a host its subscribers show.
-- The map of the sessions is a list in the order of arrival, and the map of the children is visited
-- in its order. A subscriber has beside it the session that its page shows, and whether the page
-- has declared one.
use capri_hub.Common.{
  ℕ, suc, ◌≤◌, inl, inr, Bool, true, false, not, ◌||◌, Option, none, some, List, [], ◌∷◌, ◌++◌, ltb,
  leb, ◌==◌, if◌then◌else◌, length, length-append, Bool-cases, arith,
}
use capri_hub.Common.Words.{Bytes}
use capri_hub.Common.Text.{bytes_eq}
use capri_hub.Wire.Frame.Validate.{no_text}
use capri_hub.Hub.Guests.Whitelist.{split_guest_session_key}
use capri_hub.Hub.Subscribers.{FeSubscriber, in_set, watches}

record Viewer : Type 0 where
  sub : FeSubscriber
  shown : Bytes
  view_declared : Bool

-- `viewingSet`, while it is gathered
record Viewing : Type 0 where
  widened : Bool
  shown_sessions : List Bytes

abbrev max_viewing_session_id_len : ℕ
max_viewing_session_id_len = 128

abbrev max_viewing_sessions : ℕ
max_viewing_sessions = 64

-- `add` of `viewingSetLocked`
unfoldable add_viewed : Viewing → Bytes → Viewing
unfolding in_set
add_viewed v sid =
    if no_text sid
    then v
    else if ltb max_viewing_session_id_len (length sid)
    then record v { widened = true }
    else if in_set sid v.shown_sessions
    then v
    else if leb max_viewing_sessions (length v.shown_sessions)
    then record v { widened = true }
    else record v { shown_sessions = v.shown_sessions ++ (sid ∷ []) }

-- One subscriber that receives the events of the host.
abbrev view_of : Viewing → Viewer → Viewing
view_of v w = if not w.view_declared then record v { widened = true } else add_viewed v w.shown

-- The loop over the subscribers, with its count of watchers.
unfoldable viewed : Bytes → Viewing → List Viewer → Viewing
unfolding watches add_viewed
viewed host_id v [] = v
viewed host_id v (w ∷ ws) = viewed host_id (if watches w.sub host_id then view_of v w else v) ws

-- `subscriberCountForLocked`
unfoldable subscriber_count_for : Bytes → List Viewer → ℕ
unfolding watches
subscriber_count_for host_id [] = 0
subscriber_count_for host_id (w ∷ ws) =
    let n = subscriber_count_for host_id ws in if watches w.sub host_id then suc n else n

-- One entry of the map of the children.
unfoldable add_child : Bytes → Viewing → Bytes → Bytes → Viewing
unfolding in_set add_viewed split_guest_session_key
add_child host_id v key parent =
    if v.widened || not (in_set parent v.shown_sessions)
    then v
    else elim (split_guest_session_key key) [
      | none ↦ v
      | some (host, sid) ↦ if bytes_eq host host_id then add_viewed v sid else v
    ]

unfoldable with_children : Bytes → Viewing → List (Bytes × Bytes) → Viewing
unfolding add_child
with_children host_id v [] = v
with_children host_id v ((key, parent) ∷ m) =
    with_children host_id (add_child host_id v key parent) m

-- `viewingSetLocked`: nothing without a watcher, and no sessions where the set is widened.
unfoldable viewing_set : Bytes → List Viewer → List (Bytes × Bytes) → Option Viewing
unfolding viewed subscriber_count_for with_children
viewing_set host_id ws kids =
    let v = viewed host_id (record { widened = false; shown_sessions = [] }) ws in
    let all_of = with_children host_id v kids in
    if subscriber_count_for host_id ws == 0
    then none
    else if all_of.widened
    then some (record { widened = true; shown_sessions = [] })
    else some all_of

add_viewed_bound :
    (v : Viewing) (sid : Bytes)
    → length v.shown_sessions ≤ max_viewing_sessions
    → length (add_viewed v sid).shown_sessions ≤ max_viewing_sessions
unfolding add_viewed
add_viewed_bound v sid h = elim (Bool-cases (no_text sid)) [
  | inl e ↦ rw (add_viewed, e) h
  | inr e ↦ elim (Bool-cases (ltb max_viewing_session_id_len (length sid))) [
    | inl long ↦ rw (add_viewed, e, long) h
    | inr short ↦ elim (Bool-cases (in_set sid v.shown_sessions)) [
      | inl old ↦ rw (add_viewed, e, short, old) h
      | inr new ↦ elim (Bool-cases (leb max_viewing_sessions (length v.shown_sessions))) [
        | inl full ↦ rw (add_viewed, e, short, new, full) h
        | inr room ↦
            rw (add_viewed, e, short, new, room)
              (let n = length-append v.shown_sessions (sid ∷ []) in ground arith)
      ]
    ]
  ]
]

-- Pages show no more sessions of a host than the cap.
viewed_bound :
    (host_id : Bytes) (v : Viewing) (ws : List Viewer)
    → length v.shown_sessions ≤ max_viewing_sessions
    → length (viewed host_id v ws).shown_sessions ≤ max_viewing_sessions
unfolding viewed
viewed_bound host_id v [] h = h
viewed_bound host_id v (w ∷ ws) h = elim (Bool-cases (watches w.sub host_id)) [
  | inr off ↦ rw (viewed, off) (viewed_bound host_id v ws h)
  | inl on ↦ elim (Bool-cases w.view_declared) [
    | inr not_yet ↦
        rw (viewed, on, not_yet) (viewed_bound host_id (record v { widened = true }) ws h)
    | inl declared ↦
        rw (viewed, on, declared)
          (viewed_bound host_id (add_viewed v w.shown) ws (add_viewed_bound v w.shown h))
  ]
]
