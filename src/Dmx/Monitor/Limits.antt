-- ===== src/Dmx/Monitor/Limits.antt =====
-- What the budget of native/src/dmx/monitor_capture_budget.cpp bounds.
use peraviz.Prelude.{
  ℕ, ◌+◌, ◌-◌, ◌^◌, ◌≤◌, ◌<◌, ◌≡◌, true, false, List, [], ◌∷◌, arith, ltb, ◌==◌, if◌then◌else◌,
  length, All, add64, ◌||◌, ◌⊎◌, inl, inr, Bool-cases,
}
use peraviz.Dmx.Monitor.{MonitorCaptureBudget, begin_drain, try_acquire}

-- The times at which the packets of one drain are captured.
unfoldable pub captures : MonitorCaptureBudget → List ℕ → List ℕ
captures b [] = []
captures b (now ∷ rest) =
    let (granted, b') = try_acquire b now in
    let later = captures b' rest in if granted then now ∷ later else later

-- The first time is not before `low`, and the times are spaced.
abbrev pub IsSpacedFrom : ℕ → ℕ → List ℕ → Type 0
IsSpacedFrom gap low [] = Unit
IsSpacedFrom gap low (x ∷ rest) = (low ≤ x) × IsSpacedFrom gap (x + gap) rest

length-captures_le :
    (b : MonitorCaptureBudget) (times : List ℕ) → length (captures b times) ≤ b.remaining
unfolding captures try_acquire
length-captures_le b [] = omega arith
length-captures_le b (now ∷ rest) = ground (arith, length-captures_le (try_acquire b now).1 rest)

-- The budget after a capture, while the clock is far from the end of its 64 bits.
abbrev captured : MonitorCaptureBudget → ℕ → MonitorCaptureBudget
captured b now = record b {
  remaining = b.remaining - 1;
  next_capture_us = now + b.minimum_interval_us;
}

try_acquire_cases :
    (b : MonitorCaptureBudget) (now : ℕ)
    → now + b.minimum_interval_us < 2 ^ 64
    → (try_acquire b now ≡ (false, b))
      ⊎ ((try_acquire b now ≡ (true, captured b now)) × (b.next_capture_us ≤ now))
unfolding try_acquire add64
try_acquire_cases b now h = elim (Bool-cases (b.remaining == 0 || ltb now b.next_capture_us)) [
  | inl stop ↦ inl (rw stop)
  | inr go ↦ inr (rw go (ground arith), ground arith)
]

captures-IsSpaced :
    (b : MonitorCaptureBudget) (times : List ℕ)
    → All (λ t. t + b.minimum_interval_us < 2 ^ 64) times
    → IsSpacedFrom b.minimum_interval_us b.next_capture_us (captures b times)
unfolding captures
captures-IsSpaced b [] h = tt
captures-IsSpaced b (now ∷ rest) h = elim (try_acquire_cases b now h.0) [
  | inl refused ↦ rw refused (captures-IsSpaced b rest h.1)
  | inr (granted, due) ↦ rw granted (due, captures-IsSpaced (captured b now) rest h.1)
]

-- One drain captures at most `limit` packets, the first not before the time that the drain before
-- it has set, and each at least the minimum interval after the one before, while no sum of a time
-- and that interval exceeds 64 bits.
pub captures_bounded :
    (b : MonitorCaptureBudget) (times : List ℕ)
    → All (λ t. t + b.minimum_interval_us < 2 ^ 64) times
    → (length (captures (begin_drain b) times) ≤ b.limit)
      × IsSpacedFrom b.minimum_interval_us b.next_capture_us (captures (begin_drain b) times)
unfolding begin_drain
captures_bounded b times h =
    (length-captures_le (begin_drain b) times, captures-IsSpaced (begin_drain b) times h)
