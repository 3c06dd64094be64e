-- ===== src/Runtime/Pool.antt =====
-- native/src/runtime/native_worker_pool.cpp: a batch of independent items, shared out to threads. An
-- item writes its own slot of the results. The clock, and the estimates in floating point that come
-- of it, are left out: `profitable` is whether the gain is estimated to exceed the cost.
pub mod Batches
pub mod Runs
use peraviz.Prelude.{
  ℕ, zero, suc, ◌+◌, ◌-◌, ◌*◌, ◌/◌, ◌%◌, ◌^◌, min, max, Bool, true, false, not, ◌&&◌, ◌||◌, ◌==◌,
  ltb, leb, if◌then◌else◌, Option, none, some, List, [], ◌∷◌, set, increment64,
}

pub record NativeWorkerPool : Type 0 where
  pub threads : ℕ
  pub force : Bool
  pub dispatches : ℕ
  pub decisions : ℕ

-- Without the times.
pub record NativeBatchMetrics : Type 0 where
  pub parallel : Bool
  pub tasks : ℕ
  pub workers_used : ℕ
  pub failures : ℕ

-- From the number of processors that the process may use.
unfoldable pub recommended_workers : ℕ → ℕ
recommended_workers available = if ltb 4 available then min 4 (available - 3) else 0

unfoldable pub new_pool : ℕ → Bool → ℕ → NativeWorkerPool
new_pool workers force available = record {
  threads = min 4 (if workers == 0 then recommended_workers available else workers);
  force = force;
  dispatches = 0;
  decisions = 0;
}

unfoldable pub worthwhile : NativeWorkerPool → ℕ → ℕ → Bool → Bool × NativeWorkerPool
worthwhile p count minimum profitable =
    if ltb p.threads 2 || ltb count 2
    then (false, p)
    else (if p.force
        then (true, p)
        else (if ltb count minimum then (false, p) else (
          increment64 p.decisions % 32 == 0 || profitable,
          record p { decisions = increment64 p.decisions },
        )))

unfoldable pub participants : NativeWorkerPool → ℕ → ℕ → ℕ
participants p count minimum =
    min p.threads (if p.force then count else max 2 (count / max 1 minimum))

-- `n*index/used` on `size_t`.
unfoldable pub share_begin : ℕ → ℕ → ℕ → ℕ
share_begin n used index = n * index % 2 ^ 64 / used

-- How many items a worker has done when its function throws.
abbrev pub done_of : Option ℕ → ℕ → ℕ
done_of none size = size
done_of (some k) size = min k size

abbrev pub failed : Option ℕ → ℕ
failed none = 0
failed (some k) = 1

unfoldable pub count_failures : (ℕ → Option ℕ) → ℕ → ℕ
count_failures failing zero = 0
count_failures failing (suc i) = count_failures failing i + failed (failing i)

module _ {A : Type 0} (item : ℕ → A) where
  -- The items of a range, from its begin and its size.
  unfoldable pub process : ℕ → ℕ → List A → List A
  process zero begin slots = slots
  process (suc m) begin slots = process m (suc begin) (set slots begin (item begin))

  -- What a worker does with a batch; `failing` says where it throws.
  unfoldable pub run_worker : ℕ → ℕ → (ℕ → Option ℕ) → ℕ → List A → List A
  run_worker n used failing index slots =
      let begin = share_begin n used index in
      let size = share_begin n used (suc index) - begin in
      if ltb index used then process (done_of (failing index) size) begin slots else slots

  -- The workers, in the order in which they come to their ranges.
  unfoldable pub run_workers : ℕ → ℕ → (ℕ → Option ℕ) → List ℕ → List A → List A
  run_workers n used failing [] slots = slots
  run_workers n used failing (index ∷ order) slots =
      run_workers n used failing order (run_worker n used failing index slots)

  -- After a failure everything is done again.
  unfoldable pub run_parallel :
      ℕ → ℕ → (ℕ → Option ℕ) → List ℕ → List A → NativeBatchMetrics × List A
  run_parallel count used failing order slots =
      let failures = count_failures failing used in
      let slots' = run_workers count used failing order slots in
      (
        record { parallel = true; tasks = used; workers_used = used; failures = failures },
        if failures == 0 then slots' else process count 0 slots',
      )

  unfoldable pub run :
      NativeWorkerPool
      → ℕ
      → ℕ
      → Bool
      → (ℕ → Option ℕ)
      → List ℕ
      → List A
      → (NativeBatchMetrics × List A) × NativeWorkerPool
  run p count minimum profitable failing order slots =
      let (useful, p') =
        worthwhile (record p { dispatches = increment64 p.dispatches }) count minimum profitable in
      (
        if useful then run_parallel count (participants p' count minimum) failing order slots else (
          record { parallel = false; tasks = 0; workers_used = 0; failures = 0 },
          process count 0 slots,
        ),
        p',
      )
