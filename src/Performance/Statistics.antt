-- ===== src/Performance/Statistics.antt =====
-- Timing summaries of crates/alloyport-core/src/performance.rs as statistics of their samples.
use alloyport.Prelude.{
  ℕ, suc, zero, ◌+◌, ◌-◌, ◌*◌, ◌/◌, ◌<◌, ◌≤◌, ltb, ◌==◌, ◌≡◌, refl, arith, ◌⊎◌, inl, inr, Bool,
  true, false, some, List, [], ◌∷◌, any, length, Bool-cases, ok, err,
}
use alloyport.Prelude.Sorting.{
  sort, index, count, count-sort, length-sort, sort-IsSorted, index-some, index-count_below,
}
use alloyport.Performance.{
  MeasuredDuration, fails, too_few_samples, empty_sample, minimum_timed_samples, billion, to_u64,
  from_samples,
}

abbrev has_zero : List ℕ → Bool
has_zero xs = any (λ x. x == 0) xs

-- The numbers of samples that are smaller and larger than a value.
abbrev pub below : ℕ → List ℕ → ℕ
below v xs = count (λ x. ltb x v) xs

abbrev pub above : ℕ → List ℕ → ℕ
above v xs = count (λ x. ltb v x) xs

-- The summary of samples that hold three places of the sorted samples.
abbrev summary : List ℕ → ℕ → ℕ → ℕ → ℕ → MeasuredDuration
summary xs discarded low high median = record {
  samples_nanos = xs;
  discarded_warmup_samples = discarded;
  min_nanos = low;
  median_nanos = median;
  max_nanos = high;
  relative_spread_ppb = to_u64 ((high - low) * billion / median);
}

count-has_zero : (xs : List ℕ) → has_zero xs ≡ false → count (λ x. x == 0) xs ≡ 0
count-has_zero [] h = refl
count-has_zero (x ∷ xs) h = ground (arith, count-has_zero xs)

index-count :
    (xs : List ℕ) (i v : ℕ) (p : ℕ → Bool) → index xs i ≡ some v → p v ≡ true → 0 < count p xs
index-count [] i v p e h = cc
index-count (x ∷ xs) zero v p e h = ground arith
index-count (x ∷ xs) (suc i) v p e h = ground (arith, index-count xs i v p e h)

-- A place of the sorted samples is no zero.
index-positive : (xs : List ℕ) (i v : ℕ) → has_zero xs ≡ false → index (sort xs) i ≡ some v → 0 < v
index-positive xs i v h e = elim (Bool-cases (v == 0)) [
  | inl z ↦ absurd (
      omega (
        arith,
        index-count (sort xs) i v (λ x. x == 0) e z,
        count-sort (λ x. x == 0) xs,
        count-has_zero xs h,
      ))
  | inr z ↦ ground arith
]

index-sort :
    (xs : List ℕ) (i v : ℕ)
    → index (sort xs) i ≡ some v
    → (below v xs ≤ i) × (above v xs + suc i ≤ length xs)
index-sort xs i v e =
    let (b, a) = index-count_below (sort xs) i v (sort-IsSorted xs) e in
    (
      omega (arith, b, count-sort (λ x. ltb x v) xs),
      omega (arith, a, count-sort (λ x. ltb v x) xs, length-sort xs),
    )

record Places (xs : List ℕ) : Type 0 where
  low : ℕ
  high : ℕ
  median : ℕ
  at_low : index (sort xs) 0 ≡ some low
  at_high : index (sort xs) (length (sort xs) - 1) ≡ some high
  at_median : index (sort xs) (length (sort xs) / 2) ≡ some median

places : (xs : List ℕ) → 0 < length xs → Places xs
places xs h =
    let n = length-sort xs in
    let (low, l) = index-some (sort xs) 0 (omega (arith, h, n)) in
    let (high, u) = index-some (sort xs) (length (sort xs) - 1) (omega (arith, h, n)) in
    let (median, m) = index-some (sort xs) (length (sort xs) / 2) (omega (arith, h, n)) in
    record { low = low; high = high; median = median; at_low = l; at_high = u; at_median = m }

from_samples-Places :
    (xs : List ℕ) (discarded : ℕ) (p : Places xs)
    → ltb (length xs) 5 ≡ false
    → has_zero xs ≡ false
    → from_samples xs discarded ≡ ok (summary xs discarded p.low p.high p.median)
unfolding from_samples
from_samples-Places xs discarded p h z =
    let positive = index-positive xs (length (sort xs) / 2) p.median z p.at_median in
    let d : p.median == 0 ≡ false = ground (arith, positive) in
    rw (h, z, p.at_low, p.at_high, p.at_median, d) refl

-- A timing summary is always returned or refused, and no index and no division panics: fewer than
-- five samples are refused first, then a zero sample.
pub from_samples-total :
    (xs : List ℕ) (discarded : ℕ)
    → (length xs < minimum_timed_samples)
        × (from_samples xs discarded ≡ err (fails too_few_samples))
      ⊎ (minimum_timed_samples ≤ length xs)
        × (any (λ x. x == 0) xs ≡ true)
        × (from_samples xs discarded ≡ err (fails empty_sample))
      ⊎ (minimum_timed_samples ≤ length xs)
        × (any (λ x. x == 0) xs ≡ false)
        × ((d : MeasuredDuration) × (from_samples xs discarded ≡ ok d))
unfolding from_samples
from_samples-total xs discarded = elim (Bool-cases (ltb (length xs) 5)) [
  | inl h ↦ inl (ground arith, rw h refl)
  | inr h ↦ elim (Bool-cases (has_zero xs)) [
    | inl z ↦ inr (inl (ground arith, z, rw (h, z) refl))
    | inr z ↦
        let p = places xs (ground arith) in
        inr (inr (ground arith, z, (_, from_samples-Places xs discarded p h z)))
  ]
]

-- A summary keeps its samples. No sample is below its minimum or above its maximum; at most half of
-- them are below its median, and at most half above.
pub from_samples-above :
    (xs : List ℕ) (discarded : ℕ) (d : MeasuredDuration)
    → from_samples xs discarded ≡ ok d
    → (d.samples_nanos ≡ xs)
      × (below d.min_nanos xs ≡ 0)
      × (above d.max_nanos xs ≡ 0)
      × (2 * below d.median_nanos xs ≤ length xs)
      × (2 * above d.median_nanos xs ≤ length xs)
      × (0 < d.median_nanos)
from_samples-above xs discarded d e = elim (from_samples-total xs discarded) [
  | inl h ↦ absurd (ground arith)
  | inr (inl h) ↦ absurd (ground arith)
  | inr (inr (h, z, _)) ↦
      let p = places xs (omega (arith, h)) in
      let same : d ≡ summary xs discarded p.low p.high p.median =
        ground (arith, from_samples-Places xs discarded p (ground arith) z) in
      let n = length-sort xs in
      let low = index-sort xs 0 p.low p.at_low in
      let high = index-sort xs (length (sort xs) - 1) p.high p.at_high in
      let median = index-sort xs (length (sort xs) / 2) p.median p.at_median in
      rw same (
        refl,
        omega (arith, low),
        omega (arith, high, n, h),
        omega (arith, median, n),
        omega (arith, median, n),
        index-positive xs (length (sort xs) / 2) p.median z p.at_median,
      )
]
