-- ===== src/Hub/Guests.antt =====
-- internal/hub/guests.go: the guest tokens, and the sessions that each of them may see.
-- The table is `h.guests`; times are in seconds, and one call reads the clock once. The random text
-- of an id or a token is given to the call that draws it, as a list where it draws until the id is
-- free. The file of the tokens is not part of the model.
pub mod Whitelist
pub mod Lookup
pub mod Sessions
mod Children
mod Examples
use capri_hub.Common.{
  ℕ, Bool, true, false, not, ◌&&◌, ◌||◌, Option, none, some, List, [], ◌∷◌, ◌++◌, map, ◌==◌,
  if◌then◌else◌,
}
use capri_hub.Common.Int.{ℤ, pos, ltb_ℤ}
use capri_hub.Common.Words.{Bytes}
use capri_hub.Common.Text.{codes, bytes_eq}
use capri_hub.Common.Result.{Result, ok, err}
use capri_hub.Common.Strings.{trim_space}
use capri_hub.Wire.Frame.Validate.{no_text}
use capri_hub.Hub.Users.{first_free}

pub data GuestError : Type 0 where
  guest_unknown : GuestError

pub record GuestSession : Type 0 where
  pub host_id : Bytes
  pub host_name : Bytes
  pub session_id : Bytes
  pub cwd : Bytes
  pub title : Bytes
  pub added_at : ℤ
  pub stale : Bool

pub record GuestToken : Type 0 where
  pub id : Bytes
  pub token : Bytes
  pub label : Bytes
  pub created_at : ℤ
  pub expires_at : ℤ
  pub revoked : Bool
  pub sessions : List GuestSession
  pub last_used_at : ℤ

-- `GuestToken.Expired`
abbrev pub expired : ℤ → GuestToken → Bool
expired now g = ltb_ℤ (pos 0) g.expires_at && not (ltb_ℤ now g.expires_at)

-- `GuestToken.Active`
abbrev pub is_active : ℤ → GuestToken → Bool
is_active now g = not g.revoked && not (expired now g)

-- The label of a token without one: "访客令牌".
abbrev default_guest_label : Bytes
default_guest_label = 232 ∷ 174 ∷ 191 ∷ 229 ∷ 174 ∷ 162 ∷ 228 ∷ 187 ∷ 164 ∷ 231 ∷ 137 ∷ 140 ∷ []

unfoldable pub guest_label : Bytes → Bytes
unfolding trim_space
guest_label raw = if no_text (trim_space raw) then default_guest_label else trim_space raw

-- `sanitizeGuestSession`
unfoldable pub sanitize_guest_session : GuestSession → ℤ → Option GuestSession
unfolding trim_space
sanitize_guest_session in_ now =
    let s : GuestSession = record {
      host_id = trim_space in_.host_id;
      host_name = trim_space in_.host_name;
      session_id = trim_space in_.session_id;
      cwd = trim_space in_.cwd;
      title = trim_space in_.title;
      added_at = if ltb_ℤ (pos 0) in_.added_at then in_.added_at else now;
      stale = in_.stale;
    } in
    if no_text s.host_id || no_text s.session_id then none else some s

-- The entries of `CreateGuestToken` that are in order.
unfoldable pub sanitized : ℤ → List GuestSession → List GuestSession
unfolding sanitize_guest_session
sanitized now [] = []
sanitized now (s ∷ ss) = elim (sanitize_guest_session s now) [
  | none ↦ sanitized now ss
  | some s' ↦ s' ∷ sanitized now ss
]

-- The first token with that text, as the loops of the file look for it.
abbrev pub guest_with : (GuestToken → Bytes) → Bytes → List GuestToken → Option GuestToken
guest_with key k [] = none
guest_with key k (g ∷ gs) = if bytes_eq (key g) k then some g else guest_with key k gs

-- `GuestByID`
abbrev pub guest_by_id : Bytes → List GuestToken → Option GuestToken
guest_by_id id gs = guest_with (λ g. g.id) id gs

-- The write through the pointer to the token that was found.
abbrev pub change_guest :
    (GuestToken → Bytes) → Bytes → (GuestToken → GuestToken) → List GuestToken → List GuestToken
change_guest key k f [] = []
change_guest key k f (g ∷ gs) = if bytes_eq (key g) k then f g ∷ gs else g ∷ change_guest key k f gs

-- `GuestByToken`
unfoldable pub guest_by_token : ℤ → Bytes → List GuestToken → List GuestToken × Option GuestToken
unfolding trim_space
guest_by_token now raw gs =
    if no_text (trim_space raw)
    then (gs, none)
    else elim (guest_with (λ g. g.token) (trim_space raw) gs) [
      | none ↦ (gs, none)
      | some g ↦
          if is_active now g
          then (
            change_guest (λ g. g.token) (trim_space raw) (λ g. record g { last_used_at = now }) gs,
            some (record g { last_used_at = now }),
          )
          else (gs, none)
    ]

-- `newGuestID` and `newGuestToken`, for the text that was drawn.
abbrev pub guest_text : Bytes → Bytes
guest_text drawn = codes "g_" ++ drawn

-- `guestIDTakenLocked`
unfoldable pub guest_id_taken : Bytes → List GuestToken → Bool
guest_id_taken id [] = false
guest_id_taken id (g ∷ gs) = bytes_eq g.id id || guest_id_taken id gs

-- `CreateGuestToken`
unfoldable pub create_guest_token :
    ℤ
    → List Bytes
    → Bytes
    → Bytes
    → ℤ
    → List GuestSession
    → List GuestToken
    → Option (List GuestToken × GuestToken)
unfolding first_free guest_id_taken sanitized guest_label
create_guest_token now ids drawn label expires_at ss gs =
    elim (first_free (λ id. guest_id_taken id gs) (map guest_text ids)) [
      | none ↦ none
      | some id ↦
          let g : GuestToken = record {
            id = id;
            token = guest_text drawn;
            label = guest_label label;
            created_at = now;
            expires_at = expires_at;
            revoked = false;
            sessions = sanitized now ss;
            last_used_at = pos 0;
          } in
          some (gs ++ (g ∷ []), g)
    ]

abbrev or_old {ℓ} : {A : Type ℓ} → Option A → A → A
or_old none old = old
or_old (some new) old = new

-- The writes of `UpdateGuestToken`; a field whose pointer is nil stays.
unfoldable pub updated : Option Bytes → Option ℤ → Option Bool → GuestToken → GuestToken
unfolding guest_label
updated label expires_at revoked g = record g {
  label = elim label [ none ↦ g.label | some l ↦ guest_label l ];
  expires_at = or_old expires_at g.expires_at;
  revoked = or_old revoked g.revoked;
}

-- `UpdateGuestToken`, and whether it closes the sockets of the token.
unfoldable pub update_guest_token :
    ℤ
    → Bytes
    → Option Bytes
    → Option ℤ
    → Option Bool
    → List GuestToken
    → List GuestToken × Result GuestError (GuestToken × Bool)
unfolding updated
update_guest_token now id label expires_at revoked gs = elim (guest_by_id id gs) [
  | none ↦ (gs, err guest_unknown)
  | some g ↦
      let out = updated label expires_at revoked g in
      let expiry_changed = ltb_ℤ out.expires_at g.expires_at || ltb_ℤ g.expires_at out.expires_at in
      (
        change_guest (λ g. g.id) id (updated label expires_at revoked) gs,
        ok (out, is_active now g && (out.revoked || expiry_changed || expired now out)),
      )
]

abbrev drop_guest : Bytes → List GuestToken → List GuestToken
drop_guest id [] = []
drop_guest id (g ∷ gs) = if bytes_eq g.id id then gs else g ∷ drop_guest id gs

-- `DeleteGuestToken`
unfoldable pub delete_guest_token : Bytes → List GuestToken → List GuestToken × Option GuestError
delete_guest_token id gs = elim (guest_by_id id gs) [
  | none ↦ (gs, some guest_unknown)
  | some g ↦ (drop_guest id gs, none)
]
