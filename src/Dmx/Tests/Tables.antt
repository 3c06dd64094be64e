-- ===== src/Dmx/Tests/Tables.antt =====
-- A monitor cache and a metadata table of eight universes, and a capture budget.
use peraviz.Prelude.{
  false, ◌+◌, ℕ, ◌≤◌, min, ◌≡◌, refl, ◌↔◌, none, some, List, [], ◌∷◌, arith, length, Elem, subst,
  increment64,
}
use peraviz.Dmx.Frame.{DmxFrame}
use peraviz.Dmx.Metadata
use peraviz.Dmx.Metadata.{DmxNetworkMetadataCache, observe, observed, put_new, active}
use peraviz.Dmx.Metadata.Laws.{
  IsValid, Observed, IsRecent, observe-Observed, active_iff, new_cache-IsValid,
}
use peraviz.Dmx.Cache
use peraviz.Dmx.Cache.{
  DmxUniverseCache, UniverseSlot, frame_of, is_dirty, slot_at, payload_changed, same_prefix,
  current_length, new_slot, write_slot, write_frame, merged, buffer_at, get_or_create_slot,
  begin_capture_session, try_get_frame, consume_frame, is_current, exchange_dirty, copy_frame,
}
use peraviz.Dmx.Cache.Slots.{new_slot-IsValidSlot}
use peraviz.Dmx.Cache.Laws.{ReadsBack, target, try_get_frame-write_frame}
use peraviz.Dmx.Cache.Accesses.{Access, perform_all}
use peraviz.Dmx.Cache.Consumers.{consume_frame_once}
use peraviz.Dmx.Latency
use peraviz.Dmx.Latency.{LatencyHistogram, new_histogram, percentile, bucket_of}
use peraviz.Dmx.Latency.Percentiles.{IsCounted, sum, observe-IsCounted}
use peraviz.Dmx.Monitor.{new_budget, begin_drain}
use peraviz.Dmx.Monitor.Limits.{captures, IsSpacedFrom, captures_bounded}

abbrev quiet : DmxNetworkMetadataCache
quiet = Metadata.new_cache 8

observe-Observed_example :
    (c' : DmxNetworkMetadataCache) × (observe quiet 5 20 1 1000 9 6454 ≡ some c')
    × Observed quiet 5 20 1 1000 9 6454 c'
unfolding Metadata.new_cache
observe-Observed_example =
    observe-Observed quiet 5 20 1 1000 9 6454 (omega arith) (new_cache-IsValid 8)

abbrev heard : DmxNetworkMetadataCache
heard = put_new quiet 5 (observed Metadata.new_slot 20 1 1000 9 6454)

heard_observed : observe quiet 5 20 1 1000 9 6454 ≡ some heard
unfolding Metadata.new_cache observe
heard_observed = refl

heard-IsValid : IsValid heard
unfolding Metadata.new_cache
heard-IsValid =
    let (c', e, o) =
      observe-Observed quiet 5 20 1 1000 9 6454 (omega arith) (new_cache-IsValid 8) in
    let same : c' ≡ heard = cc (e, heard_observed) in subst IsValid same o.valid

active_iff_example : (Elem 5 (active heard 1500 1000)) ↔ IsRecent heard 5 1500 1000
active_iff_example = active_iff heard 5 1500 1000 heard-IsValid

abbrev monitored : DmxUniverseCache
monitored = (begin_capture_session (Cache.new_cache 8)).1

monitored-target : target monitored 5 ≡ new_slot
unfolding begin_capture_session get_or_create_slot Cache.new_cache
monitored-target = refl

try_get_frame-write_frame_example :
    (f : DmxFrame) × (try_get_frame
        (write_frame monitored 5
          (some (1 ∷ 2 ∷ 3 ∷ []))
          3
          7
          1000
          monitored.active_capture_generation)
        5
      ≡ some f)
    × ReadsBack
        (target monitored 5)
        5
        (1 ∷ 2 ∷ 3 ∷ [])
        (min 3 512)
        7
        1000
        monitored.active_capture_generation
        f
unfolding begin_capture_session Cache.new_cache
try_get_frame-write_frame_example =
    try_get_frame-write_frame monitored 5 (1 ∷ 2 ∷ 3 ∷ []) 3 7 1000 (omega arith)
      (rw monitored-target new_slot-IsValidSlot) (omega arith)

abbrev filled : DmxUniverseCache
filled =
    write_frame monitored 5 (some (1 ∷ 2 ∷ 3 ∷ [])) 3 7 1000 monitored.active_capture_generation

filled_handed_out :
    (consume_frame filled 5).0 ≡ some (frame_of 5 (write_slot new_slot (1 ∷ 2 ∷ 3 ∷ []) 3 7 1000 1))
unfolding begin_capture_session get_or_create_slot Cache.new_cache write_frame write_slot
    consume_frame is_current exchange_dirty copy_frame slot_at payload_changed same_prefix
    current_length increment64 frame_of
filled_handed_out = refl

-- A packet of another universe, a new session and another consumer.
abbrev later : List Access
later = Access.writes 6 (some (4 ∷ [])) 1 8 2000 1 ∷ Access.begins_session ∷ Access.exchanges 5 ∷ []

consume_frame_once_example :
    let f = frame_of 5 (write_slot new_slot (1 ∷ 2 ∷ 3 ∷ []) 3 7 1000 1) in
    let c' = (consume_frame filled 5).1 in
    (try_get_frame filled 5 ≡ some f)
    × ((try_get_frame c' 5 ≡ some f)
        × (((exchange_dirty (perform_all c' later) 5).0 ≡ false)
            × ((consume_frame (perform_all c' later) 5).0 ≡ none)))
consume_frame_once_example =
    consume_frame_once filled 5 (frame_of 5 (write_slot new_slot (1 ∷ 2 ∷ 3 ∷ []) 3 7 1000 1)) later
      filled_handed_out (omega arith, (tt, (tt, tt)))

abbrev times : List ℕ
times = 5000 ∷ 5200 ∷ 6100 ∷ 7200 ∷ []

captures_bounded_example :
    (length (captures (begin_drain (new_budget 4 1000)) times) ≤ 4)
    × IsSpacedFrom 1000 0 (captures (begin_drain (new_budget 4 1000)) times)
unfolding new_budget
captures_bounded_example =
    captures_bounded (new_budget 4 1000) times
      (omega arith, (omega arith, (omega arith, (omega arith, tt))))

abbrev no_latencies : LatencyHistogram
no_latencies = new_histogram

no_latencies-IsCounted : IsCounted no_latencies
unfolding new_histogram sum
no_latencies-IsCounted = record { size = refl; total = refl }

observe-IsCounted_example :
    IsCounted (Latency.observe no_latencies 1500)
    × ((Latency.observe no_latencies 1500).samples ≡ no_latencies.samples + 1)
    × (1500 ≤ (Latency.observe no_latencies 1500).maximum_us)
    × (no_latencies.maximum_us ≤ (Latency.observe no_latencies 1500).maximum_us)
    × (percentile (Latency.observe no_latencies 1500) 99
        ≤ (Latency.observe no_latencies 1500).maximum_us)
unfolding new_histogram
observe-IsCounted_example =
    observe-IsCounted no_latencies 1500 99 no_latencies-IsCounted (omega arith)
