-- ===== src/Hub/Guests/Lookup.antt =====
-- Which session a guest's request goes to.
use capri_hub.Common.{
  ◌≡◌, ◌⊎◌, refl, sym, inl, inr, Bool, true, false, not, ◌&&◌, Option, none, some, List, [], ◌∷◌,
  Bool-cases, subst,
}
use capri_hub.Common.Words.{Bytes}
use capri_hub.Common.Text.{bytes_eq, bytes_eq_iff}
use capri_hub.Common.Names.{bytes_eq_self}
use capri_hub.Wire.Frame.Validate.{no_text}
use capri_hub.Hub.Guests.{GuestSession}
use capri_hub.Hub.Guests.Whitelist.{
  guest_allows_host, guest_allows_session, session_for, guest_session_for,
}

-- May the guest have the session that the request names?
abbrev pub granted : List GuestSession → Bytes → Bytes → Bool
granted ss h sid = guest_allows_session ss h sid && not (no_text sid)

module _ (h sid : Bytes) where
  -- The empty name is no session's.
  unnamed : (ss : List GuestSession) → no_text sid ≡ true → granted ss h sid ≡ false
  unnamed ss e = elim (Bool-cases (guest_allows_session ss h sid)) [
    | inl a ↦ rw (a, e) refl
    | inr a ↦ rw a refl
  ]

  session_for-granted :
      (first : Option GuestSession) (ss : List GuestSession)
      → granted ss h sid ≡ true
      → (session_for first ss h sid).0 ≡ sid
  unfolding session_for guest_allows_session
  session_for-granted first [] g = cc
  session_for-granted first (s ∷ ss) g = elim (Bool-cases (bytes_eq s.host_id h)) [
    | inr away ↦ rw away (session_for-granted first ss (rw away at g))
    | inl here ↦ elim (Bool-cases (bytes_eq s.session_id sid)) [
      | inr other ↦
          rw (here, other)
            (session_for-granted (some (elim first [ none ↦ s | some f ↦ f ])) ss
              (rw (here, other) at g))
      | inl same ↦ elim (Bool-cases (no_text sid)) [
        | inl empty ↦ absurd (let g' : false ≡ true = rw (here, same, empty) at g in cc)
        | inr named ↦ rw (here, same, named) ((bytes_eq_iff s.session_id sid).0 same)
      ]
    ]
  ]

  -- Where it may not, a host's first session that was met stays.
  session_for_first :
      (f : GuestSession) (ss : List GuestSession)
      → granted ss h sid ≡ false
      → session_for (some f) ss h sid ≡ (f.session_id, f.cwd)
  unfolding session_for guest_allows_session
  session_for_first f [] g = refl
  session_for_first f (s ∷ ss) g = elim (Bool-cases (bytes_eq s.host_id h)) [
    | inr away ↦ rw away (session_for_first f ss (rw away at g))
    | inl here ↦ elim (Bool-cases (bytes_eq s.session_id sid)) [
      | inr other ↦ rw (here, other) (session_for_first f ss (rw (here, other) at g))
      | inl same ↦ elim (Bool-cases (no_text sid)) [
        | inl empty ↦ rw (here, same, empty) (session_for_first f ss (unnamed ss empty))
        | inr named ↦ absurd (let g' : true ≡ false = rw (here, same, named) at g in cc)
      ]
    ]
  ]

  -- What a whitelist does not grant, its tail does not.
  granted_tail :
      (s : GuestSession) (ss : List GuestSession)
      → granted (s ∷ ss) h sid ≡ false
      → granted ss h sid ≡ false
  unfolding guest_allows_session
  granted_tail s ss g = elim (Bool-cases (bytes_eq s.host_id h && bytes_eq s.session_id sid)) [
    | inr e ↦ rw e at g
    | inl e ↦ elim (Bool-cases (no_text sid)) [
      | inl empty ↦ unnamed ss empty
      | inr named ↦ absurd (let g' : true ≡ false = rw (e, named) at g in cc)
    ]
  ]

  -- The loop at a session of the host that is not the one that was asked for.
  at_first :
      (s : GuestSession) (ss : List GuestSession)
      → granted (s ∷ ss) h sid ≡ false
      → bytes_eq s.host_id h ≡ true
      → session_for none (s ∷ ss) h sid ≡ (s.session_id, s.cwd)
  unfolding session_for guest_allows_session
  at_first s ss g here = elim (Bool-cases (bytes_eq s.session_id sid && not (no_text sid))) [
    | inl e ↦ rw (here, e) refl
    | inr e ↦ rw (here, e) (session_for_first s ss (granted_tail s ss g))
  ]

  first_allowed :
      (ss : List GuestSession)
      → granted ss h sid ≡ false
      → ((guest_allows_host ss h ≡ false) × (session_for none ss h sid ≡ ([], [])))
        ⊎ (guest_allows_session ss h (session_for none ss h sid).0 ≡ true)
  unfolding session_for guest_allows_session guest_allows_host
  first_allowed [] g = inl (refl, refl)
  first_allowed (s ∷ ss) g = elim (Bool-cases (bytes_eq s.host_id h)) [
    | inr away ↦ rw away (first_allowed ss (rw away at g))
    | inl here ↦ inr (
        subst (λ x. guest_allows_session (s ∷ ss) h x.0 ≡ true) (sym (at_first s ss g here))
          (rw (here, bytes_eq_self s.session_id) refl))
  ]

  -- A request goes to the session that it names, where the guest may have it; else it goes to a
  -- session of the host that the guest may have, or, where the guest may not have the host, nowhere.
  pub guest_session_for_lem :
      (ss : List GuestSession)
      → ((granted ss h sid ≡ true) × ((guest_session_for ss h sid).0 ≡ sid))
        ⊎ ((granted ss h sid ≡ false)
            × (((guest_allows_host ss h ≡ false) × (guest_session_for ss h sid ≡ ([], [])))
                ⊎ (guest_allows_session ss h (guest_session_for ss h sid).0 ≡ true)))
  guest_session_for_lem ss = elim (Bool-cases (granted ss h sid)) [
    | inl g ↦ inl (g, session_for-granted none ss g)
    | inr g ↦ inr (g, first_allowed ss g)
  ]
