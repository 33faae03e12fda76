-- ===== src/Performance/Examples.antt =====
-- Tests of the timing rules, and the properties at them.
use alloyport.Prelude.{
  ℕ, ◌+◌, ◌-◌, ◌*◌, ◌<◌, ◌≤◌, ◌≡◌, refl, ◌⊎◌, arith, true, false, List, [], ◌∷◌, any, length, ◌==◌,
  ok, err,
}
use alloyport.Digest.{Sha256Digest, digest_eq}
use alloyport.Performance.{
  MeasuredDuration, PerformanceComparison, sibling_candidate, is_proxy, improved, no_result,
  billion, noise_band_nanos, minimum_timed_samples, too_few_samples, empty_sample, fails,
  from_samples, judge_performance,
}
use alloyport.Performance.Statistics.{below, above, from_samples-total, from_samples-above}
use alloyport.Performance.Judgement.{judge_performance-improved}

abbrev samples : List ℕ
samples = 130 ∷ 100 ∷ 110 ∷ 120 ∷ 105 ∷ 108 ∷ []

abbrev baseline : MeasuredDuration
baseline = record {
  samples_nanos = samples;
  discarded_warmup_samples = 2;
  min_nanos = 100;
  median_nanos = 110;
  max_nanos = 130;
  relative_spread_ppb = 272727272;
}

measured : from_samples samples 2 ≡ ok baseline
unfolding from_samples
measured = refl

from_samples-above_example :
    (baseline.samples_nanos ≡ samples)
    × (below baseline.min_nanos samples ≡ 0)
    × (above baseline.max_nanos samples ≡ 0)
    × (2 * below baseline.median_nanos samples ≤ length samples)
    × (2 * above baseline.median_nanos samples ≤ length samples)
    × (0 < baseline.median_nanos)
from_samples-above_example = from_samples-above samples 2 baseline measured

from_samples-total_example :
    (length samples < minimum_timed_samples)
      × (from_samples samples 2 ≡ err (fails too_few_samples))
    ⊎ (minimum_timed_samples ≤ length samples)
      × (any (λ x. x == 0) samples ≡ true)
      × (from_samples samples 2 ≡ err (fails empty_sample))
    ⊎ (minimum_timed_samples ≤ length samples)
      × (any (λ x. x == 0) samples ≡ false)
      × ((d : MeasuredDuration) × (from_samples samples 2 ≡ ok d))
from_samples-total_example = from_samples-total samples 2

abbrev digest : Sha256Digest
digest = record { bytes = [] }

abbrev compared : MeasuredDuration → MeasuredDuration → PerformanceComparison
compared b c = record {
  baseline = sibling_candidate;
  baseline_environment_digest = digest;
  candidate_environment_digest = digest;
  baseline_duration = b;
  candidate_duration = c;
}

abbrev around : ℕ → ℕ → MeasuredDuration
around median band = record {
  samples_nanos = (median - band) ∷ median ∷ median ∷ median ∷ (median + band) ∷ [];
  discarded_warmup_samples = 0;
  min_nanos = median - band;
  median_nanos = median;
  max_nanos = median + band;
  relative_spread_ppb = 0;
}

judged : (judge_performance (compared baseline (around 80 2))).verdict ≡ improved
unfolding judge_performance
judged = refl

within_noise : (judge_performance (compared baseline (around 95 2))).verdict ≡ no_result
unfolding judge_performance
within_noise = refl

-- The gain of one nanosecond is rounded up to one part in a billion of ten seconds, and the noise of
-- two nanoseconds is rounded down to none.
rounded :
    (judge_performance (compared (around 10000000000 1) (around 9999999999 1))).verdict ≡ improved
unfolding judge_performance
rounded = refl

judge_performance-improved_example :
    (is_proxy sibling_candidate ≡ false)
    × (digest_eq digest digest ≡ true)
    × (80 < baseline.median_nanos)
    × ((noise_band_nanos baseline + noise_band_nanos (around 80 2)) * billion
        < (baseline.median_nanos - 80) * billion + baseline.median_nanos)
judge_performance-improved_example =
    judge_performance-improved (compared baseline (around 80 2)) (omega arith) (omega arith) judged
