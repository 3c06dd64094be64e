-- ===== src/Runtime/Coordinator.antt =====
-- native/src/runtime/realtime_dmx_coordinator.h and .cpp: what hands the mailbox's frames to the
-- visual runtime. The runtime is a parameter: its state, what a frame does to it, and the offsets
-- that it wants.
pub mod Pumps
use peraviz.Prelude.{
  ℕ, suc, ◌+◌, Bool, true, false, ◌&&◌, ◌||◌, List, [], ◌∷◌, ltb, ◌==◌, if◌then◌else◌, length, some,
}
use peraviz.Dmx.Frame.{DmxFrame}
use peraviz.Dmx.Subscription.{build}
use peraviz.Dmx.Mailbox.State.{Mailbox, set_subscription}
use peraviz.Dmx.Mailbox.Consume.{consume_dirty_frames, held_states}

pub record RealtimePumpResult : Type 0 where
  pub states_submitted : ℕ
  pub oldest_receive_us : ℕ

-- The parts of `PeravizVisualRuntimeCore` that the coordinator calls.
pub record VisualRuntime (S : Type 0) : Type 0 where
  pub submit_universe_frame : S → ℕ → List ℕ → ℕ → S
  pub realtime_interest_offsets : S → List (ℕ × List ℕ)

unfoldable pub older : ℕ → ℕ → ℕ
older oldest last_rx_us =
    if ltb 0 last_rx_us && (oldest == 0 || ltb last_rx_us oldest) then last_rx_us else oldest

-- The loop of `submit_frames`, from the oldest time so far.
unfoldable pub oldest_of : ℕ → List DmxFrame → ℕ
oldest_of oldest [] = oldest
oldest_of oldest (frame ∷ frames) = oldest_of (older oldest frame.last_rx_us) frames

unfoldable pub submit_all : {S : Type 0} → VisualRuntime S → S → List DmxFrame → S
submit_all runtime s [] = s
submit_all runtime s (frame ∷ frames) =
    submit_all runtime
      (runtime.submit_universe_frame s frame.universe_id frame.payload frame.length) frames

unfoldable pub submit_frames :
    {S : Type 0} → VisualRuntime S → S → List DmxFrame → RealtimePumpResult × S
submit_frames runtime s frames = (
  record { states_submitted = length frames; oldest_receive_us = oldest_of 0 frames },
  submit_all runtime s frames,
)

unfoldable pub install_subscription :
    {S : Type 0} → VisualRuntime S → S → Mailbox → RealtimePumpResult × S × Mailbox
install_subscription runtime s m =
    let m' = set_subscription m (some (build (runtime.realtime_interest_offsets s))) in
    let (result, s') = submit_frames runtime s (held_states m') in (result, s', m')

unfoldable pub pump :
    {S : Type 0} → VisualRuntime S → S → Mailbox → RealtimePumpResult × S × Mailbox
pump runtime s m =
    let (frames, m') = consume_dirty_frames m in
    let (result, s') = submit_frames runtime s frames in (result, s', m')
