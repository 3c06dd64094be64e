-- ===== src/Runtime/Tests.antt =====
-- A pump into a runtime that lists what it is given, and nominations of eight indices.
use peraviz.Prelude.{
  zero, suc, ◌*◌, ◌≡◌, refl, Option, none, true, false, replicate, inl, inr, ℕ, ◌<◌, ◌↔◌, ◌⊎◌, List,
  [], ◌∷◌, ◌++◌, some, pos, negsuc, arith, length, Elem, IsSorted,
}
use peraviz.Dmx.Subscription.{build}
use peraviz.Dmx.Mailbox.State.{new_mailbox}
use peraviz.Dmx.Mailbox.Valid.{IsValid}
use peraviz.Dmx.Mailbox.Calls.{Call, subscribe, packet, run, run-new_mailbox-IsValid}
use peraviz.Runtime.Dirty.{OrderedDirtyIndices, no_indices, visit, insert}
use peraviz.Runtime.Dirty.Visits
use peraviz.Runtime.Dirty.Visits.{
  size_of, forget, look, batch, after_all, after_all-IsValid, visit-insert,
}
use peraviz.Runtime.Pool.{NativeWorkerPool, process}
use peraviz.Runtime.Pool.Runs.{run-serial}
use peraviz.Runtime.Pool
use peraviz.Runtime.Coordinator.{VisualRuntime, pump}
use peraviz.Runtime.Coordinator.Pumps.{IsPumped, pump-IsPumped}

abbrev calls : List Visits.Call
calls =
    size_of 8
    ∷ batch (pos 5 ∷ pos 3 ∷ pos 5 ∷ negsuc 0 ∷ [])
    ∷ look
    ∷ forget
    ∷ batch (pos 2 ∷ [])
    ∷ []

after_all-IsValid_example : Visits.IsValid (after_all no_indices calls)
after_all-IsValid_example = after_all-IsValid calls

abbrev nominated : OrderedDirtyIndices
nominated = after_all no_indices calls

visit-insert_example :
    IsSorted (visit (insert nominated (pos 1 ∷ pos 9 ∷ []))).0
    × ((j : ℕ)
        → (Elem j (visit (insert nominated (pos 1 ∷ pos 9 ∷ []))).0) ↔ (
            (Elem j nominated.indices)
            ⊎ ((Elem (pos j) (pos 1 ∷ pos 9 ∷ [])) × (j < length nominated.seen))))
visit-insert_example = visit-insert nominated (pos 1 ∷ pos 9 ∷ []) (after_all-IsValid calls)

abbrev listing : VisualRuntime (List (ℕ × List ℕ))
listing = record {
  submit_universe_frame = λ s universe bytes size. s ++ (universe, bytes) ∷ [];
  realtime_interest_offsets = λ s. [];
}

abbrev two_packets : List Call
two_packets =
    subscribe (some (build ((3, 0 ∷ []) ∷ (5, 1 ∷ []) ∷ [])))
    ∷ packet 5 (some (1 ∷ 2 ∷ [])) 2 1 1000
    ∷ packet 3 (some (7 ∷ [])) 1 1 900
    ∷ []

two_packets-IsValid : IsValid (run (new_mailbox 8) two_packets)
two_packets-IsValid = run-new_mailbox-IsValid 8 two_packets (omega arith)

pump-IsPumped_example :
    IsPumped listing []
      (run (new_mailbox 8) two_packets)
      (pump listing [] (run (new_mailbox 8) two_packets))
pump-IsPumped_example =
    pump-IsPumped listing [] (run (new_mailbox 8) two_packets) two_packets-IsValid

-- Seven items for three threads, the second of which throws after an item.
abbrev three_threads : NativeWorkerPool
three_threads = record { threads = 3; force = true; dispatches = 0; decisions = 0 }

abbrev second_throws : ℕ → Option ℕ
second_throws zero = none
second_throws (suc zero) = some 1
second_throws (suc (suc k)) = none

all_three : (k : ℕ) → k < 3 → Elem k (2 ∷ 0 ∷ 1 ∷ [])
all_three zero h = inr (inl refl)
all_three (suc zero) h = inr (inr (inl refl))
all_three (suc (suc zero)) h = inl refl
all_three (suc (suc (suc k))) h = absurd (omega (arith, h))

run-serial_example :
    (Pool.run
      (λ i. i * i)
      three_threads
      7
      100
      false
      second_throws
      (2 ∷ 0 ∷ 1 ∷ [])
      (replicate 7 0)).0.1
    ≡ process (λ i. i * i) 7 0 (replicate 7 0)
run-serial_example =
    run-serial (λ i. i * i) three_threads 7 100 false second_throws (2 ∷ 0 ∷ 1 ∷ []) (replicate 7 0)
      (omega arith) (omega arith) refl all_three
