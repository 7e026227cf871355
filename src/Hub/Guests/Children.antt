-- ===== src/Hub/Guests/Children.antt =====
-- internal/hub/hub.go: the children that a session spawned, which a guest of the session may read.
use capri_hub.Common.{
  ℕ, ◌-◌, ◌≤◌, inl, inr, Bool, false, not, ◌&&◌, ◌||◌, none, some, List, [], ◌∷◌, ◌++◌, ltb,
  if◌then◌else◌, length, take, drop, length-drop, Bool-cases, arith,
}
use capri_hub.Common.Words.{Bytes}
use capri_hub.Common.Text.{bytes_eq}
use capri_hub.Common.Names.{find, put, remove}
use capri_hub.Wire.Frame.Validate.{no_text}
use capri_hub.Hub.Guests.{GuestSession}
use capri_hub.Hub.Guests.Whitelist.{guest_session_key, guest_allows_session}

abbrev guest_child_cap : ℕ
guest_child_cap = 4096

-- `h.guestChildren` and `h.guestChildKeys`
record GuestChildren : Type 0 where
  parents : List (Bytes × Bytes)
  child_keys : List Bytes

-- One id of the loop of `noteGuestChild`.
unfoldable note_id : Bytes → Bytes → GuestChildren → Bytes → GuestChildren
note_id host_id parent_id t id = elim (find (guest_session_key host_id id) t.parents) [
  | some p ↦ t
  | none ↦ record {
    parents = put (guest_session_key host_id id) parent_id t.parents;
    child_keys = t.child_keys ++ (guest_session_key host_id id ∷ []);
  }
]

unfoldable remove_all : List Bytes → List (Bytes × Bytes) → List (Bytes × Bytes)
remove_all [] m = m
remove_all (k ∷ ks) m = remove_all ks (remove k m)

-- The oldest keys go where there are too many.
unfoldable cap_children : GuestChildren → GuestChildren
unfolding remove_all
cap_children t =
    let over = length t.child_keys - guest_child_cap in
    if ltb 0 over
    then record {
      parents = remove_all (take over t.child_keys) t.parents;
      child_keys = drop over t.child_keys;
    }
    else t

-- `noteGuestChild`
unfoldable note_guest_child : Bytes → Bytes → Bytes → Bytes → GuestChildren → GuestChildren
unfolding note_id cap_children
note_guest_child host_id parent_id child_id subagent_id t =
    let noted = note_id host_id parent_id t child_id in
    let both =
      if not (no_text subagent_id) && not (bytes_eq subagent_id child_id)
      then note_id host_id parent_id noted subagent_id
      else noted in
    if no_text host_id || no_text parent_id || no_text child_id || bytes_eq parent_id child_id
    then t
    else cap_children both

-- `guestParentOf`; the empty text where no parent is known.
unfoldable guest_parent_of : GuestChildren → Bytes → Bytes → Bytes
guest_parent_of t host_id session_id =
    if no_text session_id
    then []
    else elim (find (guest_session_key host_id session_id) t.parents) [ none ↦ [] | some p ↦ p ]

-- `GuestChildAllowed`
unfoldable guest_child_allowed : GuestChildren → List GuestSession → Bytes → Bytes → Bool
unfolding guest_parent_of guest_allows_session
guest_child_allowed t ss host_id session_id =
    let parent = guest_parent_of t host_id session_id in
    if no_text parent then false else guest_allows_session ss host_id parent

length-cap_children : (t : GuestChildren) → length (cap_children t).child_keys ≤ guest_child_cap
unfolding cap_children
length-cap_children t =
    let over = length t.child_keys - guest_child_cap in
    elim (Bool-cases (ltb 0 over)) [
      | inl e ↦ rw (cap_children, e) (omega (arith, length-drop over t.child_keys))
      | inr e ↦ rw (cap_children, e) (ground arith)
    ]

-- The table of the children keeps to its bound.
note_guest_child_bound :
    (host_id parent_id child_id subagent_id : Bytes) (t : GuestChildren)
    → length t.child_keys ≤ guest_child_cap
    → length (note_guest_child host_id parent_id child_id subagent_id t).child_keys
      ≤ guest_child_cap
unfolding note_guest_child
note_guest_child_bound host_id parent_id child_id subagent_id t h =
    elim (Bool-cases
      (no_text host_id || no_text parent_id || no_text child_id || bytes_eq parent_id child_id)) [
        | inl e ↦ rw (note_guest_child, e) h
        | inr e ↦
            rw (note_guest_child, e)
              (length-cap_children (
                if not (no_text subagent_id) && not (bytes_eq subagent_id child_id)
                then note_id host_id parent_id (note_id host_id parent_id t child_id) subagent_id
                else note_id host_id parent_id t child_id))
      ]
