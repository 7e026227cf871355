-- ===== src/Hub/Subscribers.antt =====
-- internal/hub/hub.go: what a browser's subscriber is sent, and what it drops.
-- Of an event the model keeps what the code reads. The slots of the ring, from its head on, are a
-- list; the pump takes from its front.
pub mod Filter
pub mod Drops
mod Viewing
mod Examples
use capri_hub.Common.{
  ℕ, suc, ◌+◌, ◌*◌, Bool, true, false, not, ◌&&◌, ◌||◌, Option, none, some, List, [], ◌∷◌, ◌++◌,
  ltb, if◌then◌else◌, length,
}
use capri_hub.Common.Words.{Bytes}
use capri_hub.Common.Text.{codes, bytes_eq}
use capri_hub.Wire.Frame.Validate.{no_text}
use capri_hub.Hub.Guests.Whitelist.{guest_session_key}

-- An event as the fan-out reads it; `terminal` is the flag under `terminalToolUpdateKey`.
pub record FeEvent : Type 0 where
  pub event_type : Bytes
  pub event_host : Bytes
  pub event_session : Bytes
  pub fe_seq : ℕ
  pub terminal : Bool

-- `feSubscriber`, with the sets as lists
pub record FeSubscriber : Type 0 where
  pub role : Bytes
  pub host_filter : Bytes
  pub allowed_hosts : List Bytes
  pub user_hosts : Option (List Bytes)
  pub allowed_sessions : List Bytes
  pub guest_parent_of : Option (Bytes → Bytes → Bytes)
  pub queued : List FeEvent
  pub pending_resync : Option FeEvent
  pub dropped : ℕ

abbrev pub sub_ring_cap : ℕ
sub_ring_cap = 2048

abbrev pub sub_ring_critical_slack : ℕ
sub_ring_critical_slack = 512

abbrev pub resync_drop_threshold : ℕ
resync_drop_threshold = 32

-- Is the text in the set?
unfoldable pub in_set : Bytes → List Bytes → Bool
in_set k [] = false
in_set k (j ∷ js) = bytes_eq j k || in_set k js

abbrev pub is_guest : FeSubscriber → Bool
is_guest s = bytes_eq s.role (codes "guest")

abbrev pub is_user : FeSubscriber → Bool
is_user s = bytes_eq s.role (codes "user")

-- A set that is not there lets every host through.
abbrev pub in_user_hosts : Bytes → Option (List Bytes) → Bool
in_user_hosts host none = true
in_user_hosts host (some hosts) = in_set host hosts

-- `feSubscriber.watches`
unfoldable pub watches : FeSubscriber → Bytes → Bool
unfolding in_set
watches s host =
    if no_text host
    then not (is_guest s) && not (is_user s)
    else if is_guest s && not (in_set host s.allowed_hosts)
    then false
    else if not (in_user_hosts host s.user_hosts)
    then false
    else no_text s.host_filter || bytes_eq s.host_filter host

abbrev pub parent_allowed : FeSubscriber → FeEvent → Option (Bytes → Bytes → Bytes) → Bool
parent_allowed s ev none = false
parent_allowed s ev (some parent_of) =
    let parent = parent_of ev.event_host ev.event_session in
    not (no_text parent) && in_set (guest_session_key ev.event_host parent) s.allowed_sessions

-- `feSubscriber.watchesEvent`
unfoldable pub watches_event : FeSubscriber → FeEvent → Bool
unfolding watches in_set
watches_event s ev =
    if no_text ev.event_host && is_user s
    then bytes_eq ev.event_type (codes "hosts_changed")
    else if not (watches s ev.event_host)
    then false
    else if not (is_guest s)
    then true
    else if no_text ev.event_session
    then false
    else if in_set (guest_session_key ev.event_host ev.event_session) s.allowed_sessions
    then true
    else parent_allowed s ev s.guest_parent_of

-- `criticalEventTypes`
abbrev critical_event_types : List Bytes
critical_event_types =
    codes "done"
    ∷ codes "turn_completed"
    ∷ codes "cancelled"
    ∷ codes "prompt_complete"
    ∷ codes "error"
    ∷ codes "client_request"
    ∷ codes "client_request_resolved"
    ∷ []

-- `criticalEvent`
unfoldable pub critical_event : FeEvent → Bool
unfolding in_set
critical_event ev = ev.terminal || in_set ev.event_type critical_event_types

-- `resyncFrame`
abbrev pub resync_frame : FeEvent → FeEvent
resync_frame ev = record {
  event_type = codes "resync";
  event_host = ev.event_host;
  event_session = [];
  fe_seq = ev.fe_seq;
  terminal = false;
}

-- `feSubscriber.noteDrop`, with `queueResync`; the counter is reset at the threshold, so its 32 bits
-- do not wrap.
unfoldable pub note_drop : FeSubscriber → FeEvent → Bool → FeSubscriber
note_drop s ev critical =
    let n = s.dropped + 1 in
    if not critical && ltb n resync_drop_threshold
    then record s { dropped = n }
    else record s { dropped = 0; pending_resync = some (resync_frame ev) }

-- `feSubscriber.enqueue`
unfoldable pub enqueue : FeSubscriber → FeEvent → Bool → FeSubscriber
unfolding note_drop
enqueue s ev critical =
    let limit = if critical then sub_ring_cap + sub_ring_critical_slack else sub_ring_cap in
    if not (ltb (length s.queued) limit)
    then note_drop s ev critical
    else record s { queued = s.queued ++ (ev ∷ []) }

-- `feSubscriber.deliver`
abbrev pub deliver : FeSubscriber → FeEvent → FeSubscriber
deliver s ev = enqueue s ev (critical_event ev)

-- `feSubscriber.setUserHosts`
unfoldable pub named_hosts : List Bytes → List Bytes
named_hosts [] = []
named_hosts (id ∷ hosts) = if no_text id then named_hosts hosts else id ∷ named_hosts hosts

abbrev pub set_user_hosts : FeSubscriber → List Bytes → FeSubscriber
set_user_hosts s hosts = record s { user_hosts = some (named_hosts hosts) }

-- One round of `pump`: what it hands to the browser, whose channel has room or not. A resync and a
-- critical event wait for room, any other event is dropped without.
pub data Pumped : Type 0 where
  idle waiting_room : Pumped
  handed : FeEvent → Pumped
  lost : FeEvent → Pumped

unfoldable pub pump : Bool → FeSubscriber → FeSubscriber × Pumped
unfolding note_drop critical_event
pump room s = elim s.pending_resync [
  | some ev ↦ if room then (record s { pending_resync = none }, handed ev) else (s, waiting_room)
  | none ↦ elim s.queued [
    | [] ↦ (s, idle)
    | ev ∷ evs ↦
        if room
        then (record s { queued = evs }, handed ev)
        else if critical_event ev
        then (s, waiting_room)
        else (record (note_drop s ev false) { queued = evs }, lost ev)
  ]
]
