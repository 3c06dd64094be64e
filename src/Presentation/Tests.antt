-- ===== src/Presentation/Tests.antt =====
-- A packet on one universe, flushed into the first bank and taken by the coordinator.
use peraviz.Prelude.{ℕ, refl, false, some, List, [], ◌∷◌, ◌++◌, pos, arith, increment64}
use peraviz.Presentation.Pipeline.{
  InputValue, System, active, is_free, status_of, set_status, index_of, write_frame, submit,
  begin_flush, try_input, fill_input, enqueue_input,
}
use peraviz.Presentation.Pipeline.Evaluation.{Evaluator, take_input}
use peraviz.Presentation.Pipeline.Steps.{Step, Reach, new_system, ones}
use peraviz.Presentation.Pipeline.Channel.{Moves, view}
use peraviz.Presentation.Pipeline.Promises.{
  events, IsExclusive, new_system-IsExclusive, new_system-Moves,
}

-- A core that lists what it is given, and counts its evaluations.
abbrev Core : Type 0
Core = List (ℕ × List ℕ)

abbrev listing : Evaluator Core ℕ
listing = record {
  submit_universe_frame = λ core id bytes. core ++ (id, bytes) ∷ [];
  consume = λ core measured. some core;
  complete = λ core generation submitted measured. (generation, core);
}

abbrev held : List InputValue
held = record { id = 4; size = 2; sequence = 1; received_us = 0; data_bytes = 0 ∷ 0 ∷ [] } ∷ []

abbrev start : System Core ℕ
start = new_system [] 0 held false

abbrev with_packet : System Core ℕ
with_packet = (submit start 4 (some (7 ∷ 9 ∷ [])) (pos 2) 55).1

abbrev flushing : System Core ℕ
flushing = begin_flush with_packet

abbrev with_bank : System Core ℕ
with_bank = try_input flushing 0

abbrev with_frames : System Core ℕ
with_frames = fill_input with_bank 0 0

abbrev flushed : System Core ℕ
flushed = enqueue_input with_frames 0

abbrev last : System Core ℕ
last = take_input listing flushed

is_reached : Reach listing start last
unfolding new_system ones submit write_frame index_of active begin_flush try_input fill_input
    enqueue_input take_input is_free status_of set_status increment64
is_reached =
    Reach.next
      (Reach.next
        (Reach.next
          (Reach.next
            (Reach.next (Reach.next Reach.here (Step.submits 4 (some (7 ∷ 9 ∷ [])) (pos 2) 55 refl))
              (Step.begins_flush refl))
            (Step.tries_input 0 refl (omega arith)))
          (Step.fills 0 0 refl))
        (Step.enqueues 0 refl))
      (Step.takes refl)

new_system-IsExclusive_example : IsExclusive last
new_system-IsExclusive_example = new_system-IsExclusive listing [] 0 held false last is_reached

new_system-Moves_example : Moves (view start) (events is_reached) (view last)
new_system-Moves_example = new_system-Moves listing [] 0 held false last is_reached
