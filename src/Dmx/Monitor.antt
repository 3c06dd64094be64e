-- ===== src/Dmx/Monitor.antt =====
-- native/src/dmx/monitor_capture_budget.h and .cpp: how many packets the technical monitor may
-- copy.
pub mod Limits
use peraviz.Prelude.{ℕ, ◌-◌, Bool, true, false, ◌||◌, ltb, ◌==◌, if◌then◌else◌, add64}

pub record MonitorCaptureBudget : Type 0 where
  pub limit : ℕ
  pub remaining : ℕ
  pub minimum_interval_us : ℕ
  pub next_capture_us : ℕ

-- The source's defaults are 4 captures and 1000 microseconds.
unfoldable pub new_budget : ℕ → ℕ → MonitorCaptureBudget
new_budget captures_per_drain minimum_interval_us = record {
  limit = captures_per_drain;
  remaining = captures_per_drain;
  minimum_interval_us = minimum_interval_us;
  next_capture_us = 0;
}

unfoldable pub begin_drain : MonitorCaptureBudget → MonitorCaptureBudget
begin_drain b = record b { remaining = b.limit }

-- `--remaining_` runs only where it is not 0.
unfoldable pub try_acquire : MonitorCaptureBudget → ℕ → Bool × MonitorCaptureBudget
try_acquire b now_us = if b.remaining == 0 || ltb now_us b.next_capture_us then (false, b) else (
  true,
  record b { remaining = b.remaining - 1; next_capture_us = add64 now_us b.minimum_interval_us },
)
