-- ===== src/Hub/Subscribers/Examples.antt =====
-- The page of a guest, and a page that is slow.
use capri_hub.Common.{◌≡◌, ◌≤◌, ◌+◌, refl, false, none, [], ◌∷◌, length, arith}
use capri_hub.Common.Text.{codes, bytes_eq}
use capri_hub.Hub.Guests.Whitelist.{guest_session_key}
use capri_hub.Hub.Subscribers.{
  FeEvent, FeSubscriber, sub_ring_cap, sub_ring_critical_slack, in_set, watches, watches_event,
  deliver,
}
use capri_hub.Hub.Subscribers.Drops.{Delivered, deliver_lem}

abbrev page : FeSubscriber
page = record {
  role = codes "guest";
  host_filter = [];
  allowed_hosts = codes "local" ∷ [];
  user_hosts = none;
  allowed_sessions = guest_session_key (codes "local") (codes "s1") ∷ [];
  guest_parent_of = none;
  queued = [];
  pending_resync = none;
  dropped = 0;
}

abbrev chunk : FeEvent
chunk = record {
  event_type = codes "chunk";
  event_host = codes "local";
  event_session = codes "s1";
  fe_seq = 7;
  terminal = false;
}

deliver_lem_example :
    Delivered page chunk (deliver page chunk)
    × (length (deliver page chunk).queued ≤ sub_ring_cap + sub_ring_critical_slack)
deliver_lem_example = deliver_lem page chunk (omega arith)

-- A session that is not on the whitelist is not seen.
hidden_run : watches_event page (record chunk { event_session = codes "s2" }) ≡ false
unfolding bytes_eq watches_event watches in_set
hidden_run = refl
