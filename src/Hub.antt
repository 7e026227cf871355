-- ===== src/Hub.antt =====
-- internal/hub: what the hub keeps for a session, for its writer and for the browsers.
pub mod Session
pub mod ControlQueue
pub mod Downlink
pub mod Prefs
pub mod Relay
pub mod Users
pub mod Subscribers
pub mod Events
pub mod Guests
pub mod Registry
