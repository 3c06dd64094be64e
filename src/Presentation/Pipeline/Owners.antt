-- ===== src/Presentation/Pipeline/Owners.antt =====
-- Who may touch which bank of native/src/presentation/async_presentation_pipeline.cpp.
pub mod Inputs
pub mod Outputs
pub mod Turns
use peraviz.Prelude.{
  ℕ, zero, suc, ◌+◌, ◌-◌, ◌≤◌, ◌<◌, ◌≡◌, ◌≢◌, refl, sym, ap, ◌∙◌, subst, ◌==◌, if◌then◌else◌,
  Option, none, some, List, [], ◌∷◌, arith, length, ◌⊎◌, inl, inr, Elem, Bool-cases, true,
}
use peraviz.Presentation.Pipeline.{
  Status, Bank, Input, InputValue, no_input, Main, idle, joining, trying, claimed, filled,
  replacing, acquiring, Coordinator, looping, halted, took, reading_bank, choosing, evaluating,
  publishing, System, status_of, content_of, give_back,
}
use peraviz.Presentation.Pipeline.Banks.{busy, holds}

-- The input bank that a thread has for itself.
abbrev pub main_input : Main → Option ℕ
main_input Main.idle = none
main_input Main.joining = none
main_input (Main.trying i) = none
main_input (Main.claimed i) = some i
main_input (Main.filled i) = some i
main_input (Main.replacing i) = some i
main_input (Main.acquiring i) = none

abbrev pub coordinator_input : Coordinator → Option ℕ
coordinator_input Coordinator.looping = none
coordinator_input Coordinator.halted = none
coordinator_input (Coordinator.took i) = some i
coordinator_input (Coordinator.reading_bank i) = some i
coordinator_input (Coordinator.choosing i) = none
coordinator_input (Coordinator.evaluating i) = none
coordinator_input (Coordinator.publishing i) = none

-- And the output bank.
abbrev pub main_output : Main → Option ℕ
main_output Main.idle = none
main_output Main.joining = none
main_output (Main.trying i) = none
main_output (Main.claimed i) = none
main_output (Main.filled i) = none
main_output (Main.replacing i) = none
main_output (Main.acquiring i) = some i

abbrev pub coordinator_output : Coordinator → Option ℕ
coordinator_output Coordinator.looping = none
coordinator_output Coordinator.halted = none
coordinator_output (Coordinator.took i) = none
coordinator_output (Coordinator.reading_bank i) = none
coordinator_output (Coordinator.choosing i) = none
coordinator_output (Coordinator.evaluating i) = some i
coordinator_output (Coordinator.publishing i) = some i

-- How often a caller holds a bank.
abbrev pub leases : List ℕ → ℕ → ℕ
leases [] b = 0
leases (i ∷ leased) b = holds (some i) b + leases leased b

pub leases-give_back :
    (i : ℕ) (leased : List ℕ) (b : ℕ)
    → leases (give_back i leased) b ≡ leases leased b - holds (some i) b
unfolding give_back holds
leases-give_back i [] b = ground arith
leases-give_back i (j ∷ leased) b = elim (Bool-cases (j == i)) [
  | inl e ↦ let same : j ≡ i = ground arith in rw e (rw same (ground arith))
  | inr e ↦ rw e (ground (arith, leases-give_back i leased b))
]

pub leases-Elem : (i : ℕ) (leased : List ℕ) → Elem i leased → 1 ≤ leases leased i
unfolding holds
leases-Elem i [] m = absurd m
leases-Elem i (j ∷ leased) (inl e) = ground arith
leases-Elem i (j ∷ leased) (inr m) = omega (arith, leases-Elem i leased m)

-- An input bank is busy exactly if one of them has it: the main thread, the queue, the coordinator.
abbrev pub InputsOwned : Main → Option ℕ → Coordinator → List (Bank Input) → Type 0
InputsOwned main queue coordinator banks =
    (b : ℕ)
    → holds (main_input main) b + (holds queue b + holds (coordinator_input coordinator) b)
      ≡ busy (status_of banks b)

-- An output bank that the main thread, its caller, the ready index or the coordinator has is busy,
-- and none of the others has it.
abbrev pub OutputsOwned :
    {S : Type 0} → Main → List ℕ → Option ℕ → Coordinator → List (Bank S) → Type 0
OutputsOwned main leased ready coordinator banks =
    (b : ℕ)
    → holds (main_output main) b
        + (leases leased b + (holds ready b + holds (coordinator_output coordinator) b))
      ≤ busy (status_of banks b)

-- `flush_input` still finds a free bank.
abbrev pub HasRoom : ℕ → List (Bank Input) → Type 0
HasRoom i banks = (j : ℕ) × (i ≤ j) × (j < 3) × (busy (status_of banks j) ≡ 0)

pub record IsOwned {C S : Type 0} (s : System C S) : Type 0 where
  pub inputs : InputsOwned s.main s.queued_input s.coordinator s.inputs
  pub outputs : OutputsOwned s.main s.leased s.ready_output s.coordinator s.outputs
  pub input_size : length s.inputs ≡ 3
  pub room : (i : ℕ) → s.main ≡ trying i → HasRoom i s.inputs
  pub copied : (i : ℕ) → s.main ≡ filled i → (content_of s.inputs i no_input).frames ≡ s.latest
  pub ending : s.main ≡ joining → s.stopping ≡ true
