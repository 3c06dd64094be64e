-- ===== src/Runtime/Pool/Runs.antt =====
-- native/src/runtime/native_worker_pool.cpp: the whole of `run`.
use peraviz.Prelude.{
  ℕ, ◌*◌, ◌^◌, ◌≤◌, ◌<◌, ◌≡◌, refl, Bool, true, ◌||◌, ltb, if-elim, Bool-cases, inl, inr, Option,
  List, arith, Elem, length, increment64,
}
use peraviz.Runtime.Pool.{
  NativeWorkerPool, NativeBatchMetrics, worthwhile, participants, process, run,
}
use peraviz.Runtime.Pool.Batches.{run_parallel-serial}

-- What a decision keeps of the pool, and what it asks for.
record IsDecided (p : NativeWorkerPool) (count : ℕ) (decided : Bool × NativeWorkerPool)
    : Type 0 where
  threads_kept : decided.1.threads ≡ p.threads
  enough : decided.0 ≡ true → (2 ≤ p.threads) × (2 ≤ count)

worthwhile-IsDecided :
    (p : NativeWorkerPool) (count minimum : ℕ) (profitable : Bool)
    → IsDecided p count (worthwhile p count minimum profitable)
unfolding worthwhile
worthwhile-IsDecided p count minimum profitable =
    if-elim (IsDecided p count) (ltb p.threads 2 || ltb count 2) _ _
      (λ t. record { threads_kept = refl; enough = λ e. cc })
      (λ t.
        let both : (2 ≤ p.threads) × (2 ≤ count) = (ground arith, ground arith) in
        if-elim (IsDecided p count) p.force _ _
          (λ u. record { threads_kept = refl; enough = λ e. both })
          (λ u.
            if-elim (IsDecided p count) (ltb count minimum) _ _
              (λ v. record { threads_kept = refl; enough = λ e. both })
              (λ v. record { threads_kept = refl; enough = λ e. both })))

participants-bounds :
    (p : NativeWorkerPool) (count minimum : ℕ)
    → 2 ≤ p.threads
    → 2 ≤ count
    → (1 ≤ participants p count minimum) × (participants p count minimum ≤ p.threads)
unfolding participants
participants-bounds p count minimum threads items = elim (Bool-cases p.force) [
  | inl t ↦ rw t (omega arith, omega arith)
  | inr t ↦ rw t (omega arith, omega arith)
]

-- A batch of items that each write their own slot has the slots of the serial run, whether it is
-- shared out or not, in whatever order its workers come to their ranges, and wherever some of them
-- throw: for a pool of at most four threads that all take part in the order, as many slots as items,
-- and a count of which four times is below 2 ^ 64.
pub run-serial :
    {A : Type 0} (item : ℕ → A) (p : NativeWorkerPool) (count minimum : ℕ) (profitable : Bool)
    (failing : ℕ → Option ℕ) (order : List ℕ) (slots : List A)
    → p.threads ≤ 4
    → count * 4 < 2 ^ 64
    → length slots ≡ count
    → ((k : ℕ) → k < p.threads → Elem k order)
    → (run item p count minimum profitable failing order slots).0.1 ≡ process item count 0 slots
unfolding run
run-serial {A = A} item p count minimum profitable failing order slots few fits size all =
    let before = record p { dispatches = increment64 p.dispatches } in
    let decision = worthwhile before count minimum profitable in
    let decided = worthwhile-IsDecided before count minimum profitable in
    if-elim (λ (r : NativeBatchMetrics × List A). r.1 ≡ process item count 0 slots) decision.0 _ _
      (λ t.
        let (threads, items) = decided.enough t in
        let kept = decided.threads_kept in
        let (low, high) =
          participants-bounds decision.1 count minimum (omega (arith, kept, threads)) items in
        run_parallel-serial item count (participants decision.1 count minimum) failing order slots
          low (omega (arith, high, kept, few)) fits size
          (λ k h. all k (omega (arith, h, high, kept))))
      (λ t. refl)
