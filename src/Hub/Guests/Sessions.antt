-- ===== src/Hub/Guests/Sessions.antt =====
-- What the calls on a whitelist leave of it, and which tokens are let in.
use capri_hub.Common.{
  ◌≡◌, refl, ap, ◌∙◌, inl, inr, Bool, true, false, not, ◌&&◌, none, some, List, [], ◌∷◌, Bool-cases,
  Option-cases, subst,
}
use capri_hub.Common.Int.{ℤ}
use capri_hub.Common.Words.{Bytes}
use capri_hub.Common.Text.{bytes_eq, bytes_eq_iff}
use capri_hub.Common.Names.{bytes_ne_comm}
use capri_hub.Common.Strings.{trim_space}
use capri_hub.Wire.Frame.Validate.{no_text}
use capri_hub.Hub.Guests.{
  GuestSession, GuestToken, expired, is_active, guest_with, guest_by_token, sanitize_guest_session,
}
use capri_hub.Hub.Guests.Whitelist.{
  guest_allows_session, same_session, add_session, add_sessions, refreshed,
}

and_false : (b : Bool) → (b && false) ≡ false
and_false true = refl
and_false false = refl

guest_with_token :
    (token : Bytes) (g : GuestToken) (gs : List GuestToken)
    → guest_with (λ x. x.token) token gs ≡ some g
    → g.token ≡ token
guest_with_token token g [] h = cc
guest_with_token token g (x ∷ gs) h = elim (Bool-cases (bytes_eq x.token token)) [
  | inr e ↦ guest_with_token token g gs (rw e at h)
  | inl e ↦
      let h' : some x ≡ some g = rw e at h in
      let same : g ≡ x = cc in ap (λ y. y.token) same ∙ (bytes_eq_iff x.token token).0 e
]

active_parts : (a b : Bool) → (not a && not b) ≡ true → (a ≡ false) × (b ≡ false)
active_parts false false h = (refl, refl)
active_parts false true h = cc
active_parts true b h = cc

-- A guest who is let in has the token, which is neither revoked nor expired.
pub guest_by_token-is_active :
    (now : ℤ) (raw : Bytes) (g : GuestToken) (gs : List GuestToken)
    → (guest_by_token now raw gs).1 ≡ some g
    → (g.token ≡ trim_space raw) × (g.revoked ≡ false) × (expired now g ≡ false)
unfolding guest_by_token
guest_by_token-is_active now raw g gs h = elim (Bool-cases (no_text (trim_space raw))) [
  | inl e ↦ absurd (let h' : none ≡ some g = rw (guest_by_token, e) at h in cc)
  | inr e ↦ elim (Option-cases (guest_with (λ x. x.token) (trim_space raw) gs)) [
    | inl e' ↦ absurd (let h' : none ≡ some g = rw (guest_by_token, e, e') at h in cc)
    | inr (x, e') ↦ elim (Bool-cases (is_active now x)) [
      | inr e'' ↦ absurd (let h' : none ≡ some g = rw (guest_by_token, e, e', e'') at h in cc)
      | inl e'' ↦
          let h' : some (record x { last_used_at = now }) ≡ some g =
            rw (guest_by_token, e, e', e'') at h in
          let same : record x { last_used_at = now } ≡ g = cc in
          subst (λ y. (y.token ≡ trim_space raw) × (y.revoked ≡ false) × (expired now y ≡ false))
            same
            (let parts = active_parts x.revoked (expired now x) e'' in
              (guest_with_token (trim_space raw) x gs e', parts.0, parts.1))
    ]
  ]
]

-- No session stands twice.
abbrev IsWhitelist : List GuestSession → Type 0
IsWhitelist [] = Unit {0}
IsWhitelist (s ∷ ss) = (guest_allows_session ss s.host_id s.session_id ≡ false) × IsWhitelist ss

both_false :
    (a b c d : Bytes)
    → (bytes_eq a c && bytes_eq b d) ≡ false
    → (bytes_eq c a && bytes_eq d b) ≡ false
both_false a b c d h = elim (Bool-cases (bytes_eq a c)) [
  | inr e ↦ rw (bytes_ne_comm a c e) refl
  | inl e ↦ rw (bytes_ne_comm b d (rw e at h)) (and_false (bytes_eq c a))
]

-- A session that is absent stays absent when another is added.
add_session-absent :
    (now : ℤ) (s : GuestSession) (ss : List GuestSession) (h sid : Bytes)
    → guest_allows_session ss h sid ≡ false
    → (bytes_eq s.host_id h && bytes_eq s.session_id sid) ≡ false
    → guest_allows_session (add_session now s ss) h sid ≡ false
unfolding add_session guest_allows_session refreshed
add_session-absent now s [] h sid a o = rw o refl
add_session-absent now s (old ∷ ss) h sid a o =
    elim (Bool-cases (bytes_eq old.host_id h && bytes_eq old.session_id sid)) [
      | inl e ↦ absurd (let a' : true ≡ false = rw e at a in cc)
      | inr e ↦ elim (Bool-cases (same_session old s)) [
        | inl same ↦ rw (same, o) (rw e at a)
        | inr other ↦ rw (other, e) (add_session-absent now s ss h sid (rw e at a) o)
      ]
    ]

add_session-IsWhitelist :
    (now : ℤ) (s : GuestSession) (ss : List GuestSession)
    → IsWhitelist ss
    → IsWhitelist (add_session now s ss)
unfolding add_session guest_allows_session refreshed
add_session-IsWhitelist now s [] w = (refl, tt)
add_session-IsWhitelist now s (old ∷ ss) w = elim (Bool-cases (same_session old s)) [
  | inl same ↦ rw same (same_absent old s ss same w.0, w.1)
  | inr other ↦ rw other (
    add_session-absent now s ss old.host_id old.session_id w.0
        (both_false old.host_id old.session_id s.host_id s.session_id other),
    add_session-IsWhitelist now s ss w.1,
  )
]
  where
    same_absent :
        (old s : GuestSession) (ss : List GuestSession)
        → same_session old s ≡ true
        → guest_allows_session ss old.host_id old.session_id ≡ false
        → guest_allows_session ss s.host_id s.session_id ≡ false
    same_absent old s ss same a = elim (Bool-cases (bytes_eq old.host_id s.host_id)) [
      | inr e ↦ absurd (let h : false ≡ true = rw e at same in cc)
      | inl e ↦
          subst (λ x. guest_allows_session ss s.host_id x ≡ false)
            ((bytes_eq_iff old.session_id s.session_id).0 (rw e at same))
            (subst (λ x. guest_allows_session ss x old.session_id ≡ false)
              ((bytes_eq_iff old.host_id s.host_id).0 e) a)
    ]

-- To add sessions to a whitelist in which none stands twice leaves none twice.
add_sessions-IsWhitelist :
    (now : ℤ) (items ss : List GuestSession)
    → IsWhitelist ss
    → IsWhitelist (add_sessions now items ss)
unfolding add_sessions
add_sessions-IsWhitelist now [] ss w = w
add_sessions-IsWhitelist now (raw ∷ items) ss w =
    elim (Option-cases (sanitize_guest_session raw now)) [
      | inl e ↦ rw (add_sessions, e) (add_sessions-IsWhitelist now items ss w)
      | inr (s, e) ↦
          rw (add_sessions, e)
            (add_sessions-IsWhitelist now items (add_session now s ss)
              (add_session-IsWhitelist now s ss w))
    ]
