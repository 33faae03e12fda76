-- ===== src/Performance/Judgement.antt =====
-- Judgements of crates/alloyport-core/src/performance.rs: what a verdict says of the two durations.
use alloyport.Prelude.{
  ℕ, ◌+◌, ◌-◌, ◌*◌, ◌/◌, ◌<◌, ◌≤◌, leb, ◌==◌, ◌≡◌, arith, inl, inr, true, false, Bool-cases,
}
use alloyport.Prelude.Integers.{minus, unsigned_abs, is_negative}
use alloyport.Digest.{digest_eq}
use alloyport.Performance.{
  PerformanceComparison, improved, is_proxy, noise_band_nanos, billion, u64_max, to_u64, to_i64,
  ratio_ppb, scale_ppb, median_change_ppb, combined_noise_ppb, judge_performance,
}
use native.Mathlib.Nat.{lt-mul-div-succ, mul-le-mul_left, le-div_iff_mul-le}

-- The bounds on two quotients, whose sum is below a billion, as bounds on what was divided.
bounds-lt :
    (b m n q r : ℕ)
    → n * billion < b * (q + 1)
    → m * billion < b * (r + 1)
    → q < billion - r
    → (m < b) × (n * billion < (b - m) * billion + b)
bounds-lt b m n q r x y h =
    let s : q + r + 1 ≤ billion = omega (arith, h) in
    let k = mul-le-mul_left b s in
    let l : r + 1 ≤ billion = omega (arith, h) in
    let j = mul-le-mul_left b l in
    let m_small : m < b = omega (arith, y, j) in (m_small, omega (arith, x, y, k, m_small))

quotients-lt :
    (b m n : ℕ)
    → 0 < b
    → n * billion / b < billion - m * billion / b
    → (m < b) × (n * billion < (b - m) * billion + b)
quotients-lt b m n p h =
    bounds-lt b m n (n * billion / b) (m * billion / b) (lt-mul-div-succ (n * billion) p)
      (lt-mul-div-succ (m * billion) p) h

-- A reference in the range of u64 is within the scale of what has saturated.
billion-le : (b : ℕ) → 0 < b → b ≤ u64_max → billion ≤ u64_max * billion / b
billion-le b p l = (le-div_iff_mul-le {x = billion} {y = u64_max * billion} p).1 (omega (arith, l))

scale_ppb-lt :
    (n b e : ℕ)
    → 0 < b
    → b ≤ u64_max
    → e ≤ billion
    → scale_ppb (to_u64 n) b < e
    → n * billion / b < e
unfolding scale_ppb
scale_ppb-lt n b e p l k h = elim (Bool-cases (leb n u64_max)) [
  | inl s ↦ ground (arith, s, p)
  | inr s ↦ ground (arith, s, p, billion-le b p l)
]

-- The tests that an improvement has passed.
verdict_of-improved :
    (c : PerformanceComparison)
    → (judge_performance c).verdict ≡ improved
    → (is_proxy c.baseline ≡ false)
      × (digest_eq c.baseline_environment_digest c.candidate_environment_digest ≡ true)
      × (is_negative (median_change_ppb c.baseline_duration c.candidate_duration) ≡ true)
      × (combined_noise_ppb c.baseline_duration c.candidate_duration
          < unsigned_abs (median_change_ppb c.baseline_duration c.candidate_duration))
unfolding judge_performance
verdict_of-improved c h = (ground arith, ground arith, ground arith, ground arith)

-- A negative change is a fall below a billion.
change-lt :
    (r : ℕ)
    → is_negative (to_i64 (minus r billion)) ≡ true
    → unsigned_abs (to_i64 (minus r billion)) ≡ billion - r
change-lt r h = ground arith

-- A candidate is judged improved only against a baseline that is no proxy, in the same environment,
-- with a smaller median, and with a gain that exceeds the two noise bands together, but for less than
-- a billionth of the baseline's median.
pub judge_performance-improved :
    (c : PerformanceComparison)
    → 0 < c.baseline_duration.median_nanos
    → c.baseline_duration.median_nanos ≤ u64_max
    → (judge_performance c).verdict ≡ improved
    → (is_proxy c.baseline ≡ false)
      × (digest_eq c.baseline_environment_digest c.candidate_environment_digest ≡ true)
      × (c.candidate_duration.median_nanos < c.baseline_duration.median_nanos)
      × ((noise_band_nanos c.baseline_duration + noise_band_nanos c.candidate_duration) * billion
          < (c.baseline_duration.median_nanos - c.candidate_duration.median_nanos) * billion
            + c.baseline_duration.median_nanos)
unfolding median_change_ppb combined_noise_ppb ratio_ppb
judge_performance-improved c p l h =
    let b = c.baseline_duration.median_nanos in
    let m = c.candidate_duration.median_nanos in
    let n = noise_band_nanos c.baseline_duration + noise_band_nanos c.candidate_duration in
    let (x, d, s, e) = verdict_of-improved c h in
    let z : b == 0 ≡ false = ground arith in
    let u = change-lt (ratio_ppb m b) s in
    let q : n * billion / b < billion - ratio_ppb m b =
      scale_ppb-lt n b (billion - ratio_ppb m b) p l (omega arith) (omega (arith, e, u)) in
    let (w, y) = quotients-lt b m n p (ground arith) in (x, d, w, y)
