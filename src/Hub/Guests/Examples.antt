-- ===== src/Hub/Guests/Examples.antt =====
-- A token with two sessions of one host.
use capri_hub.Common.{◌≡◌, ◌⊎◌, refl, false, true, some, List, [], ◌∷◌}
use capri_hub.Common.Int.{pos}
use capri_hub.Common.Words.{Bytes}
use capri_hub.Common.Text.{codes, bytes_eq}
use capri_hub.Common.Strings.{trim_space}
use capri_hub.Hub.Guests.{GuestSession, GuestToken, expired, guest_by_token}
use capri_hub.Hub.Guests.Whitelist.{
  guest_session_key, guest_allows_host, guest_allows_session, guest_session_for, session_for,
  GuestSessionRef, split_guest_session_key,
}
use capri_hub.Hub.Guests.Lookup.{granted, guest_session_for_lem}
use capri_hub.Hub.Guests.Sessions.{guest_by_token-is_active}

abbrev session_named : Bytes → GuestSession
session_named sid = record {
  host_id = codes "local";
  host_name = codes "Local";
  session_id = sid;
  cwd = codes "/work";
  title = [];
  added_at = pos 5;
  stale = false;
}

abbrev two_sessions : List GuestSession
two_sessions = session_named (codes "s1") ∷ session_named (codes "s2") ∷ []

abbrev visitor : GuestToken
visitor = record {
  id = codes "g_1";
  token = codes "g_secret";
  label = codes "visitor";
  created_at = pos 1;
  expires_at = pos 100;
  revoked = false;
  sessions = two_sessions;
  last_used_at = pos 0;
}

abbrev second : List GuestSessionRef
second = record { ref_host = codes "local"; ref_session = codes "s2" } ∷ []

guest_session_for_lem_example :
    ((granted two_sessions (codes "local") (codes "s9") ≡ true)
      × ((guest_session_for two_sessions (codes "local") (codes "s9")).0 ≡ codes "s9"))
    ⊎ ((granted two_sessions (codes "local") (codes "s9") ≡ false)
        × (((guest_allows_host two_sessions (codes "local") ≡ false)
              × (guest_session_for two_sessions (codes "local") (codes "s9") ≡ ([], [])))
            ⊎ (guest_allows_session two_sessions
                  (codes "local")
                  (guest_session_for two_sessions (codes "local") (codes "s9")).0
                ≡ true)))
guest_session_for_lem_example = guest_session_for_lem (codes "local") (codes "s9") two_sessions

guest_by_token-is_active_example :
    (codes "g_secret" ≡ trim_space (codes " g_secret"))
    × (false ≡ false)
    × (expired (pos 99) visitor ≡ false)
unfolding guest_by_token trim_space bytes_eq
guest_by_token-is_active_example =
    guest_by_token-is_active (pos 99) (codes " g_secret") (record visitor { last_used_at = pos 99 })
      (visitor ∷ []) refl

-- A session that the guest may not have becomes the first one of the host, and a key is split again.
guests_run :
    (guest_session_for two_sessions (codes "local") (codes "s9") ≡ (codes "s1", codes "/work"))
    × (split_guest_session_key (guest_session_key (codes "local") (codes "s1"))
        ≡ some (codes "local", codes "s1"))
unfolding session_for bytes_eq split_guest_session_key
guests_run = (refl, refl)
