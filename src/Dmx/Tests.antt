-- ===== src/Dmx/Tests.antt =====
-- Runs of the receive path of native/src/dmx at concrete inputs.
mod Streams
mod Mailboxes
mod Tables
mod Receivers
mod Bindings
