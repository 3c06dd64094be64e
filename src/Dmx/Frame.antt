-- ===== src/Dmx/Frame.antt =====
-- The frame that the caches of native/src/dmx hand out (native/src/dmx/dmx_universe_cache.h).
use peraviz.Prelude.{ℕ, List, replicate}

abbrev pub dmx_slot_count : ℕ
dmx_slot_count = 512

abbrev pub art_net_universe_count : ℕ
art_net_universe_count = 32768

-- `data` is called `payload` here.
pub record DmxFrame : Type 0 where
  pub universe_id : ℕ
  pub length : ℕ
  pub payload : List ℕ
  pub last_rx_us : ℕ
  pub counter : ℕ
  pub sequence : ℕ
  pub content_hash : ℕ
  pub source_ipv4 : ℕ
  pub source_port : ℕ

abbrev pub empty_frame : DmxFrame
empty_frame = record {
  universe_id = 0;
  length = 0;
  payload = replicate 512 0;
  last_rx_us = 0;
  counter = 0;
  sequence = 0;
  content_hash = 0;
  source_ipv4 = 0;
  source_port = 0;
}

pub record DmxUniverseMetadata : Type 0 where
  pub universe_id : ℕ
  pub length : ℕ
  pub last_rx_us : ℕ
  pub counter : ℕ
  pub sequence : ℕ
  pub content_hash : ℕ
  pub source_ipv4 : ℕ
  pub source_port : ℕ
