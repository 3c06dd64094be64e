-- ===== src/Dmx/Latency/Percentiles.antt =====
-- What the counts of native/src/dmx/latency_histogram.h mean.
use peraviz.Prelude.{
  ℕ, zero, suc, ◌+◌, ◌-◌, ◌^◌, ◌≤◌, ◌<◌, ◌≡◌, refl, ap, ◌∙◌, List, [], ◌∷◌, arith, ltb, get_or, set,
  length, length-set, increment64, add64, Bool-cases, inl, inr, ◌⊎◌,
}
use peraviz.Dmx.Latency.{
  LatencyHistogram, bucket_from, bucket_of, observe, target, percentile_from, percentile,
}

-- Where a value lies, by its bucket.
pub record IsBracketed (value_us bucket : ℕ) : Type 0 where
  pub in_range : bucket < 32
  pub above : (bucket ≡ 0) ⊎ (2 ^ (bucket - 1) < value_us)
  pub below : value_us ≤ 2 ^ bucket

bucket_from-IsBracketed :
    (left bucket v : ℕ)
    → bucket + left ≡ 31
    → (bucket ≡ 0) ⊎ (2 ^ (bucket - 1) < v)
    → v ≤ 2 ^ 31
    → IsBracketed v (bucket_from left bucket v)
unfolding bucket_from
bucket_from-IsBracketed zero bucket v e h top =
    let last : bucket ≡ 31 = omega arith in
    record { in_range = omega arith; above = h; below = rw last top }
bucket_from-IsBracketed (suc left) bucket v e h top = elim (Bool-cases (ltb (2 ^ bucket) v)) [
  | inl up ↦
      let passed : 2 ^ bucket < v = ground arith in
      let back : bucket + 1 - 1 ≡ bucket = omega arith in
      rw up (bucket_from-IsBracketed left (bucket + 1) v (omega arith) (inr (rw back passed)) top)
  | inr here ↦ rw here (record { in_range = omega arith; above = h; below = ground arith })
]

-- A latency of at most 2 ^ 31 microseconds is counted in the bucket of the smallest power of 2
-- that is not below it, which is one of the 32.
pub bucket_of-IsBracketed : (v : ℕ) → v ≤ 2 ^ 31 → IsBracketed v (bucket_of v)
unfolding bucket_of
bucket_of-IsBracketed v top = bucket_from-IsBracketed 31 0 v refl (inl refl) top

bucket_from_le : (left bucket v : ℕ) → bucket_from left bucket v ≤ bucket + left
unfolding bucket_from
bucket_from_le zero bucket v = omega arith
bucket_from_le (suc left) bucket v = ground (arith, bucket_from_le left (bucket + 1) v)

unfoldable pub sum : List ℕ → ℕ
sum [] = 0
sum (x ∷ xs) = x + sum xs

get_le_sum : (xs : List ℕ) (i : ℕ) → get_or xs i 0 ≤ sum xs
unfolding sum
get_le_sum [] i = omega arith
get_le_sum (x ∷ xs) zero = omega arith
get_le_sum (x ∷ xs) (suc i) = omega (arith, get_le_sum xs i)

sum-set : (xs : List ℕ) (i : ℕ) → i < length xs → sum (set xs i (get_or xs i 0 + 1)) ≡ sum xs + 1
unfolding sum
sum-set [] i h = absurd (omega arith)
sum-set (x ∷ xs) zero h = omega arith
sum-set (x ∷ xs) (suc i) h = omega (arith, sum-set xs i (omega arith))

percentile_from_le :
    (bs : List ℕ) (index count wanted maximum : ℕ)
    → percentile_from bs index count wanted maximum ≤ maximum
unfolding percentile_from
percentile_from_le [] index count wanted maximum = omega arith
percentile_from_le (b ∷ bs) index count wanted maximum =
    ground (arith, percentile_from_le bs (index + 1) (add64 count b) wanted maximum)

percentile_le : (h : LatencyHistogram) (percent : ℕ) → percentile h percent ≤ h.maximum_us
unfolding percentile
percentile_le h percent =
    ground (arith, percentile_from_le h.buckets 0 0 (target h.samples percent) h.maximum_us)

-- The buckets hold the samples.
pub record IsCounted (h : LatencyHistogram) : Type 0 where
  pub size : length h.buckets ≡ 32
  pub total : sum h.buckets ≡ h.samples

-- In a histogram whose 32 buckets add up to its samples, fewer than 2 ^ 64 - 1, one more sample
-- keeps that, is counted in the total, the maximum is not below it nor below the maximum before,
-- and no percentile exceeds the maximum.
pub observe-IsCounted :
    (h : LatencyHistogram) (v percent : ℕ)
    → IsCounted h
    → h.samples + 1 < 2 ^ 64
    → IsCounted (observe h v)
      × ((observe h v).samples ≡ h.samples + 1)
      × (v ≤ (observe h v).maximum_us)
      × (h.maximum_us ≤ (observe h v).maximum_us)
      × (percentile (observe h v) percent ≤ (observe h v).maximum_us)
unfolding observe bucket_of
observe-IsCounted h v percent c few =
    let bucket = bucket_from 31 0 v in
    let inside : bucket < length h.buckets = omega (arith, bucket_from_le 31 0 v, c.size) in
    let small : get_or h.buckets bucket 0 + 1 < 2 ^ 64 =
      omega (arith, get_le_sum h.buckets bucket, c.total) in
    let one : increment64 (get_or h.buckets bucket 0) ≡ get_or h.buckets bucket 0 + 1 =
      unfold increment64 in omega arith in
    let more : increment64 h.samples ≡ h.samples + 1 = unfold increment64 in omega arith in
    (
      record {
        size = length-set h.buckets bucket _ ∙ c.size;
        total = rw (one, more) (sum-set h.buckets bucket inside ∙ ap (λ k. k + 1) c.total);
      },
      more,
      omega arith,
      omega arith,
      percentile_le _ percent,
    )
