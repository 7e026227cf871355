-- ===== src/Wire.antt =====
-- The wire package: the session protocol that the host and the hub share.
pub mod Receiver
pub mod Sender
pub mod Delivery
pub mod TransportUnit
pub mod Close
pub mod Limits
pub mod Frame
