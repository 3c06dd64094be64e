-- ===== src/Dmx.antt =====
-- The Art-Net DMX receive path of native/src/dmx.
pub mod Binding
pub mod Parser
pub mod Sequence
pub mod Frame
pub mod Subscription
pub mod Mailbox
pub mod Metadata
pub mod Cache
pub mod Monitor
pub mod Receiver
pub mod Latency
mod Tests
