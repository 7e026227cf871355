-- ===== src/Hub/Guests/Whitelist.antt =====
-- internal/hub/guests.go: the whitelist of a guest token, and what it lets through.
use capri_hub.Common.{
  Bool, false, not, ◌&&◌, ◌||◌, Option, none, some, List, [], ◌∷◌, ◌++◌, ◌==◌, if◌then◌else◌,
}
use capri_hub.Common.Int.{ℤ, pos, ltb_ℤ}
use capri_hub.Common.Words.{Bytes}
use capri_hub.Common.Text.{bytes_eq}
use capri_hub.Common.Result.{Result, ok, err}
use capri_hub.Wire.Frame.Validate.{no_text}
use capri_hub.Hub.Guests.{
  GuestError, guest_unknown, GuestSession, GuestToken, sanitize_guest_session, guest_by_id,
  change_guest,
}

-- `GuestSessionKey`
abbrev pub guest_session_key : Bytes → Bytes → Bytes
guest_session_key host_id session_id = host_id ++ (0 ∷ session_id)

abbrev pub key_of : GuestSession → Bytes
key_of s = guest_session_key s.host_id s.session_id

-- `splitGuestSessionKey`
unfoldable pub split_guest_session_key : Bytes → Option (Bytes × Bytes)
split_guest_session_key [] = none
split_guest_session_key (c ∷ key) =
    let rest = split_guest_session_key key in
    if c == 0
    then some ([], key)
    else elim rest [ none ↦ none | some (host, sid) ↦ some (c ∷ host, sid) ]

-- Do the two entries name one session?
abbrev pub same_session : GuestSession → GuestSession → Bool
same_session a b = bytes_eq a.host_id b.host_id && bytes_eq a.session_id b.session_id

abbrev pub kept_text : Bytes → Bytes → Bytes
kept_text new old = if no_text new then old else new

-- An entry that is there already is refreshed: a text that the new one lacks stays, and so does the
-- time where it was first added.
unfoldable pub refreshed : ℤ → GuestSession → GuestSession → GuestSession
refreshed now old s = record s {
  added_at =
      if not (ltb_ℤ s.added_at now || ltb_ℤ now s.added_at) && ltb_ℤ (pos 0) old.added_at
      then old.added_at
      else s.added_at;
  host_name = kept_text s.host_name old.host_name;
  title = kept_text s.title old.title;
  cwd = kept_text s.cwd old.cwd;
}

-- One entry of `AddGuestSessions`
unfoldable pub add_session : ℤ → GuestSession → List GuestSession → List GuestSession
unfolding refreshed
add_session now s [] = s ∷ []
add_session now s (old ∷ ss) =
    if same_session old s then refreshed now old s ∷ ss else old ∷ add_session now s ss

unfoldable pub add_sessions : ℤ → List GuestSession → List GuestSession → List GuestSession
unfolding add_session sanitize_guest_session
add_sessions now [] ss = ss
add_sessions now (raw ∷ items) ss = elim (sanitize_guest_session raw now) [
  | none ↦ add_sessions now items ss
  | some s ↦ add_sessions now items (add_session now s ss)
]

-- The calls that change the whitelist of the token `id`.
abbrev pub with_sessions :
    (List GuestSession → List GuestSession)
    → Bytes
    → List GuestToken
    → Option GuestToken
    → List GuestToken × Result GuestError GuestToken
with_sessions f id gs none = (gs, err guest_unknown)
with_sessions f id gs (some g) = (
  change_guest (λ g. g.id) id (λ g. record g { sessions = f g.sessions }) gs,
  ok (record g { sessions = f g.sessions }),
)

-- `AddGuestSessions`
unfoldable pub add_guest_sessions :
    ℤ → List GuestSession → Bytes → List GuestToken → List GuestToken × Result GuestError GuestToken
unfolding add_sessions
add_guest_sessions now items id gs =
    with_sessions (add_sessions now items) id gs (guest_by_id id gs)

-- `GuestSessionRef`
pub record GuestSessionRef : Type 0 where
  pub ref_host : Bytes
  pub ref_session : Bytes

-- The set `drop` of `RemoveGuestSessions`
unfoldable pub is_dropped : Bytes → List GuestSessionRef → Bool
is_dropped key [] = false
is_dropped key (r ∷ refs) =
    (not (no_text r.ref_host || no_text r.ref_session)
      && bytes_eq (guest_session_key r.ref_host r.ref_session) key)
    || is_dropped key refs

unfoldable pub without_refs : List GuestSessionRef → List GuestSession → List GuestSession
unfolding is_dropped
without_refs refs [] = []
without_refs refs (s ∷ ss) =
    let rest = without_refs refs ss in if is_dropped (key_of s) refs then rest else s ∷ rest

-- `RemoveGuestSessions`
unfoldable pub remove_guest_sessions :
    List GuestSessionRef → Bytes → List GuestToken → List GuestToken × Result GuestError GuestToken
unfolding without_refs
remove_guest_sessions refs id gs = with_sessions (without_refs refs) id gs (guest_by_id id gs)

-- The map `byKey` of `ReplaceGuestSessionSnapshot`, in which the last entry of a key stands.
unfoldable pub by_key : Bytes → List GuestSession → Option GuestSession
by_key key [] = none
by_key key (s ∷ items) = elim (by_key key items) [
  | some later ↦ some later
  | none ↦ if bytes_eq (key_of s) key then some s else none
]

unfoldable pub with_snapshots : List GuestSession → List GuestSession → List GuestSession
unfolding by_key
with_snapshots items [] = []
with_snapshots items (s ∷ ss) = elim (by_key (key_of s) items) [
  | none ↦ s ∷ with_snapshots items ss
  | some next ↦
      record s {
        title = next.title;
        host_name = next.host_name;
        cwd = next.cwd;
        stale = next.stale;
      }
      ∷ with_snapshots items ss
]

-- `ReplaceGuestSessionSnapshot`
unfoldable pub replace_guest_session_snapshot :
    List GuestSession → Bytes → List GuestToken → List GuestToken × Result GuestError GuestToken
unfolding with_snapshots
replace_guest_session_snapshot items id gs =
    with_sessions (with_snapshots items) id gs (guest_by_id id gs)

-- `GuestAllowsHost`
unfoldable pub guest_allows_host : List GuestSession → Bytes → Bool
guest_allows_host [] host_id = false
guest_allows_host (s ∷ ss) host_id = bytes_eq s.host_id host_id || guest_allows_host ss host_id

-- `GuestAllowsSession`
unfoldable pub guest_allows_session : List GuestSession → Bytes → Bytes → Bool
guest_allows_session [] host_id session_id = false
guest_allows_session (s ∷ ss) host_id session_id =
    (bytes_eq s.host_id host_id && bytes_eq s.session_id session_id)
    || guest_allows_session ss host_id session_id

-- `GuestHostIDs`; `seen` is the map of the loop.
unfoldable pub guest_host_ids : (Bytes → Bool) → List GuestSession → List Bytes
guest_host_ids seen [] = []
guest_host_ids seen (s ∷ ss) =
    if no_text s.host_id || seen s.host_id
    then guest_host_ids seen ss
    else s.host_id ∷ guest_host_ids (λ h. bytes_eq h s.host_id || seen h) ss

-- `GuestDefaultHost`
unfoldable pub guest_default_host : List GuestSession → Bytes
guest_default_host [] = []
guest_default_host (s ∷ ss) =
    let rest = guest_default_host ss in if no_text s.host_id then rest else s.host_id

-- The loop of `GuestSessionFor`, with its pointer `first`.
unfoldable pub session_for : Option GuestSession → List GuestSession → Bytes → Bytes → Bytes × Bytes
session_for none [] host_id session_id = ([], [])
session_for (some s) [] host_id session_id = (s.session_id, s.cwd)
session_for first (s ∷ ss) host_id session_id =
    let skip = session_for first ss host_id session_id in
    let mark = session_for (some (elim first [ none ↦ s | some f ↦ f ])) ss host_id session_id in
    if not (bytes_eq s.host_id host_id)
    then skip
    else if bytes_eq s.session_id session_id && not (no_text session_id)
    then (s.session_id, s.cwd)
    else mark

-- `GuestSessionFor`
abbrev pub guest_session_for : List GuestSession → Bytes → Bytes → Bytes × Bytes
guest_session_for ss host_id session_id = session_for none ss host_id session_id
