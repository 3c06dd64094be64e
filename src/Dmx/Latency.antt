-- ===== src/Dmx/Latency.antt =====
-- native/src/dmx/latency_histogram.h: latencies counted in 32 buckets, of which bucket `i` ends at
-- 2 ^ i microseconds and the last one has no end.
pub mod Percentiles
use peraviz.Prelude.{
  ℕ, zero, suc, ◌+◌, ◌*◌, ◌/◌, ◌%◌, ◌^◌, min, max, Bool, true, false, ◌&&◌, List, [], ◌∷◌, ltb, leb,
  ◌==◌, if◌then◌else◌, get_or, set, replicate, increment64, add64,
}

pub record LatencyHistogram : Type 0 where
  pub buckets : List ℕ
  pub samples : ℕ
  pub maximum_us : ℕ

abbrev pub bucket_count : ℕ
bucket_count = 32

unfoldable pub new_histogram : LatencyHistogram
new_histogram = record { buckets = replicate bucket_count 0; samples = 0; maximum_us = 0 }

-- The loop of `observe`, with the number of buckets left after this one.
unfoldable pub bucket_from : ℕ → ℕ → ℕ → ℕ
bucket_from zero bucket value_us = bucket
bucket_from (suc left) bucket value_us =
    let next = bucket_from left (bucket + 1) value_us in
    if ltb (2 ^ bucket) value_us then next else bucket

unfoldable pub bucket_of : ℕ → ℕ
bucket_of value_us = bucket_from 31 0 value_us

unfoldable pub observe : LatencyHistogram → ℕ → LatencyHistogram
observe h value_us =
    let bucket = bucket_of value_us in
    record {
      buckets = set h.buckets bucket (increment64 (get_or h.buckets bucket 0));
      samples = increment64 h.samples;
      maximum_us = max h.maximum_us value_us;
    }

-- `percent` is at most 100 where it is called, and the products stay below 2 ^ 64.
unfoldable pub target : ℕ → ℕ → ℕ
target samples percent = samples / 100 * percent + (samples % 100 * percent + 99) / 100

-- The loop of `percentile`, on the buckets from `index` on.
unfoldable pub percentile_from : List ℕ → ℕ → ℕ → ℕ → ℕ → ℕ
percentile_from [] index count wanted maximum = maximum
percentile_from (b ∷ rest) index count wanted maximum =
    let later = percentile_from rest (index + 1) (add64 count b) wanted maximum in
    if leb wanted (add64 count b) then min (2 ^ index) maximum else later

unfoldable pub percentile : LatencyHistogram → ℕ → ℕ
percentile h percent =
    if h.samples == 0
    then 0
    else percentile_from h.buckets 0 0 (target h.samples percent) h.maximum_us

pub record LatencyWindows : Type 0 where
  pub lifetime : LatencyHistogram
  pub interval : LatencyHistogram

unfoldable pub observe_windows : LatencyWindows → ℕ → Bool → LatencyWindows
observe_windows w value_us trace_enabled = record {
  lifetime = observe w.lifetime value_us;
  interval = if trace_enabled then observe w.interval value_us else w.interval;
}

unfoldable pub consume_interval : LatencyWindows → LatencyHistogram × LatencyWindows
consume_interval w = (w.interval, record w { interval = new_histogram })
