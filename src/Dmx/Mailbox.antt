-- ===== src/Dmx/Mailbox.antt =====
-- native/src/dmx/realtime_universe_mailbox.h and .cpp: the latest state of each subscribed universe,
-- and the ring of dirty tokens.
pub mod State
pub mod Publish
pub mod Consume
pub mod Stats
pub mod Ring
pub mod Agrees
pub mod Valid
pub mod Calls
pub mod Drain
pub mod Latest
