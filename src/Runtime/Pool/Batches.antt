-- ===== src/Runtime/Pool/Batches.antt =====
-- native/src/runtime/native_worker_pool.cpp: a batch has the result of its serial run.
use peraviz.Prelude.{
  ℕ, zero, suc, ◌+◌, ◌-◌, ◌*◌, ◌^◌, ◌≤◌, ◌<◌, ◌≡◌, refl, sym, ap, ◌∙◌, subst, ◌==◌, ltb, if-elim,
  Bool-cases, Option, none, some, List, [], ◌∷◌, arith, inl, inr, Elem, length, length-set,
  get_elem?, get_elem?-set_self, get_elem?-set_ne, get_elem?-bound, set,
}
use peraviz.Runtime.Pool.{
  share_begin, process, done_of, run_worker, run_workers, failed, count_failures, run_parallel,
}

-- The ranges from one bound to the next cover what lies between the first and the last bound.
covering :
    (f : ℕ → ℕ) (m i : ℕ) → f 0 ≤ i → i < f m → (k : ℕ) × (k < m) × (f k ≤ i) × (i < f (suc k))
covering f zero i h k = absurd (omega (arith, h, k))
covering f (suc m) i h k = elim (Bool-cases (ltb i (f m))) [
  | inl t ↦
      let (j, low, from, to) = covering f m i h (ground arith) in (j, omega (arith, low), from, to)
  | inr t ↦ (m, omega arith, ground arith, k)
]

share_end : (n used : ℕ) → 1 ≤ used → used ≤ 4 → n * 4 < 2 ^ 64 → share_begin n used used ≡ n
unfolding share_begin
share_end n zero low high fits = absurd (omega arith)
share_end n (suc zero) low high fits = omega (arith, fits)
share_end n (suc (suc zero)) low high fits = omega (arith, fits)
share_end n (suc (suc (suc zero))) low high fits = omega (arith, fits)
share_end n (suc (suc (suc (suc zero)))) low high fits = omega (arith, fits)
share_end n (suc (suc (suc (suc (suc k))))) low high fits = absurd (omega (arith, high))

share_start : (n used : ℕ) → 1 ≤ used → used ≤ 4 → share_begin n used 0 ≡ 0
unfolding share_begin
share_start n zero low high = absurd (omega arith)
share_start n (suc zero) low high = omega arith
share_start n (suc (suc zero)) low high = omega arith
share_start n (suc (suc (suc zero))) low high = omega arith
share_start n (suc (suc (suc (suc zero)))) low high = omega arith
share_start n (suc (suc (suc (suc (suc k))))) low high = absurd (omega (arith, high))

module _ {A : Type 0} where
  extensional :
      (xs ys : List A)
      → length xs ≡ length ys
      → ((i : ℕ) → i < length xs → get_elem? xs i ≡ get_elem? ys i)
      → xs ≡ ys
  extensional [] [] e h = refl
  extensional [] (y ∷ ys) e h = absurd (omega (arith, e))
  extensional (x ∷ xs) [] e h = absurd (omega (arith, e))
  extensional (x ∷ xs) (y ∷ ys) e h =
      let first = h 0 (omega arith) in
      let same : x ≡ y = cc in
      rw same (
        ap (λ l. y ∷ l)
          (extensional xs ys (omega (arith, e)) (λ i k. h (suc i) (omega (arith, k)))))

module _ {A : Type 0} (item : ℕ → A) where
  -- The item of a slot is done.
  abbrev IsDone : List A → ℕ → Type 0
  IsDone slots i = get_elem? slots i ≡ some (item i)

  IsDone-set : (slots : List A) (b i : ℕ) → IsDone slots i → IsDone (set slots b (item b)) i
  IsDone-set slots b i h = elim (Bool-cases (b == i)) [
    | inl t ↦
        let same : b ≡ i = ground arith in
        subst (λ k. IsDone (set slots k (item k)) i) (sym same)
          (get_elem?-set_self slots i (item i) (get_elem?-bound slots i h))
    | inr t ↦ get_elem?-set_ne slots (item b) (λ e. ground arith) ∙ h
  ]

  length-process : (m b : ℕ) (slots : List A) → length (process item m b slots) ≡ length slots
  unfolding process
  length-process zero b slots = refl
  length-process (suc m) b slots =
      length-process m (suc b) (set slots b (item b)) ∙ length-set slots b (item b)

  IsDone-process :
      (m b : ℕ) (slots : List A) (i : ℕ) → IsDone slots i → IsDone (process item m b slots) i
  unfolding process
  IsDone-process zero b slots i h = h
  IsDone-process (suc m) b slots i h =
      IsDone-process m (suc b) (set slots b (item b)) i (IsDone-set slots b i h)

  process-IsDone :
      (m b : ℕ) (slots : List A) (i : ℕ)
      → i < length slots
      → b ≤ i
      → i < b + m
      → IsDone (process item m b slots) i
  unfolding process
  process-IsDone zero b slots i h low high = absurd (omega (arith, low, high))
  process-IsDone (suc m) b slots i h low high = elim (Bool-cases (b == i)) [
    | inl t ↦
        let same : b ≡ i = ground arith in
        IsDone-process m (suc b) (set slots b (item b)) i (
          subst (λ k. IsDone (set slots k (item k)) i) (sym same)
            (get_elem?-set_self slots i (item i) h))
    | inr t ↦
        let size = length-set slots b (item b) in
        process-IsDone m (suc b) (set slots b (item b)) i (omega (arith, h, size)) (ground arith)
          (omega (arith, high))
  ]

  length-run_workers :
      (n used : ℕ) (failing : ℕ → Option ℕ) (order : List ℕ) (slots : List A)
      → length (run_workers item n used failing order slots) ≡ length slots
  unfolding run_workers run_worker
  length-run_workers n used failing [] slots = refl
  length-run_workers n used failing (k ∷ order) slots =
      let begin = share_begin n used k in
      let size = share_begin n used (suc k) - begin in
      length-run_workers n used failing order _
      ∙ if-elim (λ (s : List A). length s ≡ length slots) (ltb k used) _ _
          (λ t. length-process (done_of (failing k) size) begin slots) (λ t. refl)

  IsDone-run_worker :
      (n used : ℕ) (failing : ℕ → Option ℕ) (k : ℕ) (slots : List A) (i : ℕ)
      → IsDone slots i
      → IsDone (run_worker item n used failing k slots) i
  unfolding run_worker
  IsDone-run_worker n used failing k slots i h =
      let begin = share_begin n used k in
      let size = share_begin n used (suc k) - begin in
      if-elim (λ (s : List A). IsDone s i) (ltb k used) _ _
        (λ t. IsDone-process (done_of (failing k) size) begin slots i h) (λ t. h)

  IsDone-run_workers :
      (n used : ℕ) (failing : ℕ → Option ℕ) (order : List ℕ) (slots : List A) (i : ℕ)
      → IsDone slots i
      → IsDone (run_workers item n used failing order slots) i
  unfolding run_workers
  IsDone-run_workers n used failing [] slots i h = h
  IsDone-run_workers n used failing (k ∷ order) slots i h =
      IsDone-run_workers n used failing order (run_worker item n used failing k slots) i
        (IsDone-run_worker n used failing k slots i h)

  run_worker-IsDone :
      (n used : ℕ) (failing : ℕ → Option ℕ) (k : ℕ) (slots : List A) (i : ℕ)
      → k < used
      → failing k ≡ none
      → share_begin n used k ≤ i
      → i < share_begin n used (suc k)
      → i < length slots
      → IsDone (run_worker item n used failing k slots) i
  unfolding run_worker
  run_worker-IsDone n used failing k slots i inside fine low high h =
      let begin = share_begin n used k in
      let size = share_begin n used (suc k) - begin in
      if-elim (λ (s : List A). IsDone s i) (ltb k used) _ _
        (λ t. rw fine (process-IsDone size begin slots i h low (omega (arith, low, high))))
        (λ t. absurd (ground arith))

  run_workers-IsDone :
      (n used : ℕ) (failing : ℕ → Option ℕ) (order : List ℕ) (slots : List A) (i k : ℕ)
      → Elem k order
      → k < used
      → failing k ≡ none
      → share_begin n used k ≤ i
      → i < share_begin n used (suc k)
      → i < length slots
      → IsDone (run_workers item n used failing order slots) i
  unfolding run_workers
  run_workers-IsDone n used failing [] slots i k m inside fine low high h = absurd m
  run_workers-IsDone n used failing (j ∷ order) slots i k (inl e) inside fine low high h =
      IsDone-run_workers n used failing order (run_worker item n used failing j slots) i (
        subst (λ x. IsDone (run_worker item n used failing x slots) i) (sym e)
          (run_worker-IsDone n used failing k slots i inside fine low high h))
  run_workers-IsDone n used failing (j ∷ order) slots i k (inr m) inside fine low high h =
      let size = length-run_workers n used failing (j ∷ []) slots in
      run_workers-IsDone n used failing order (run_worker item n used failing j slots) i k m inside
        fine low high (omega (arith, h, size))

  no_failure :
      (failing : ℕ → Option ℕ) (used k : ℕ)
      → count_failures failing used ≡ 0
      → k < used
      → failing k ≡ none
  unfolding count_failures
  no_failure failing zero k e h = absurd (omega (arith, h))
  no_failure failing (suc used) k e h = elim (Bool-cases (k == used)) [
    | inl t ↦
        let same : k ≡ used = ground arith in rw same (not_failed (failing used) (omega (arith, e)))
    | inr t ↦ no_failure failing used k (omega (arith, e)) (ground arith)
  ]
    where
      not_failed : (o : Option ℕ) → failed o ≡ 0 → o ≡ none
      not_failed none z = refl
      not_failed (some j) z = absurd (omega (arith, z))

  -- Slots that are all done are those of the serial run.
  serial :
      (count : ℕ) (slots done : List A)
      → length slots ≡ count
      → length done ≡ length slots
      → ((i : ℕ) → i < count → IsDone done i)
      → done ≡ process item count 0 slots
  serial count slots done size same all =
      let length_serial = length-process count 0 slots in
      extensional done (process item count 0 slots) (omega (arith, same, length_serial)) (λ i h.
        all i (omega (arith, h, same, size))
        ∙ sym (
            process-IsDone count 0 slots i (omega (arith, h, same)) (omega arith)
              (omega (arith, h, same, size))))

  pub run_parallel-serial :
      (count used : ℕ) (failing : ℕ → Option ℕ) (order : List ℕ) (slots : List A)
      → 1 ≤ used
      → used ≤ 4
      → count * 4 < 2 ^ 64
      → length slots ≡ count
      → ((k : ℕ) → k < used → Elem k order)
      → (run_parallel item count used failing order slots).1 ≡ process item count 0 slots
  unfolding run_parallel
  run_parallel-serial count used failing order slots low high fits size all =
      let slots' = run_workers item count used failing order slots in
      let size' = length-run_workers count used failing order slots in
      if-elim (λ (s : List A). s ≡ process item count 0 slots) (count_failures failing used == 0) _
        _
        (λ t. serial count slots slots' size size' (λ i h.
          let start = share_start count used low high in
          let end = share_end count used low high fits in
          let (k, inside, from, to) =
            covering (share_begin count used) used i (omega (arith, start))
              (omega (arith, end, h)) in
          run_workers-IsDone count used failing order slots i k (all k inside) inside
            (no_failure failing used k (ground arith) inside) from to (omega (arith, h, size))))
        (λ t.
          let again = length-process count 0 slots' in
          serial count slots (process item count 0 slots') size (again ∙ size') (λ i h.
            process-IsDone count 0 slots' i (omega (arith, h, size, size')) (omega arith)
              (omega (arith, h))))
