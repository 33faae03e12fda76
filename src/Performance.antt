-- ===== src/Performance.antt =====
-- crates/alloyport-core/src/performance.rs: timing summaries, and the judgement of a comparison.
-- The receipt's JSON digest is left out.
pub mod Statistics
pub mod Judgement
pub mod Examples
use alloyport.Prelude.{
  ℕ, ◌+◌, ◌-◌, ◌*◌, ◌/◌, ◌%◌, ◌^◌, ltb, leb, ◌==◌, Bool, true, false, not, ◌&&◌, Option, none, some,
  List, [], ◌∷◌, ◌++◌, any, push, length, is_empty, if◌then◌else◌, Result, ok, err, ok_or, ◌>>=◌,
}
use alloyport.Prelude.Integers.{ℤ, minus, pos, negsuc, unsigned_abs, is_negative}
use alloyport.Prelude.Sorting.{sort, index}
use alloyport.Digest.{Sha256Digest, digest_eq}

abbrev pub minimum_timed_samples : ℕ
minimum_timed_samples = 5

abbrev pub u64_max : ℕ
u64_max = 18446744073709551615

abbrev pub i64_max : ℕ
i64_max = 9223372036854775807

-- Parts in a billion.
abbrev pub billion : ℕ
billion = 1000000000

pub data PerformanceError : Type 0 where
  too_few_samples empty_sample serialization : PerformanceError

-- An error that is returned, or the panic of an index or a division.
pub data Stop : Type 0 where
  fails : PerformanceError → Stop
  panics : Stop

pub record MeasuredDuration : Type 0 where
  pub samples_nanos : List ℕ
  pub discarded_warmup_samples : ℕ
  pub min_nanos : ℕ
  pub median_nanos : ℕ
  pub max_nanos : ℕ
  pub relative_spread_ppb : ℕ

-- u64::try_from, with u64::MAX in place of what is too large
abbrev pub to_u64 : ℕ → ℕ
to_u64 n = if leb n u64_max then n else u64_max

-- i64::try_from of what is at least the least i64, with i64::MAX in place of what is too large
abbrev pub to_i64 : ℤ → ℤ
to_i64 (pos n) = if leb n i64_max then pos n else pos i64_max
to_i64 (negsuc n) = negsuc n

-- The division of unsigned integers, which panics at zero.
abbrev divide : ℕ → ℕ → Option ℕ
divide a b = if b == 0 then none else some (a / b)

unfoldable pub from_samples : List ℕ → ℕ → Result Stop MeasuredDuration
unfolding sort
from_samples samples_nanos discarded =
    if ltb (length samples_nanos) minimum_timed_samples
    then err (fails too_few_samples)
    else (if any (λ x. x == 0) samples_nanos then err (fails empty_sample) else (do
      let samples : List ℕ = sort samples_nanos
      min ← ok_or (index samples 0) panics
      max ← ok_or (index samples (length samples - 1)) panics
      median ← ok_or (index samples (length samples / 2)) panics
      spread ← ok_or (divide ((max - min) * billion) median) panics
      ok (record {
        samples_nanos = samples_nanos;
        discarded_warmup_samples = discarded;
        min_nanos = min;
        median_nanos = median;
        max_nanos = max;
        relative_spread_ppb = to_u64 spread;
      })))

-- A release build's subtraction: a record that was read from outside may hold a maximum below its minimum.
unfoldable pub noise_band_nanos : MeasuredDuration → ℕ
noise_band_nanos d = (d.max_nanos + 2 ^ 64 - d.min_nanos) % 2 ^ 64 / 2

pub data PerformanceBaseline : Type 0 where
  previous_revision sibling_candidate measured_roofline proxy : PerformanceBaseline

pub data PerformanceRefusal : Type 0 where
  cross_environment_comparison proxy_cannot_establish_speed : PerformanceRefusal

pub data PerformanceVerdict : Type 0 where
  improved regressed no_result unverifiable : PerformanceVerdict

pub record PerformanceReceipt : Type 0 where
  pub schema_version : ℕ
  pub baseline : PerformanceBaseline
  pub baseline_environment_digest : Sha256Digest
  pub candidate_environment_digest : Sha256Digest
  pub baseline_duration : MeasuredDuration
  pub candidate_duration : MeasuredDuration
  pub verdict : PerformanceVerdict
  pub median_change_ppb : ℤ
  pub combined_noise_ppb : ℕ
  pub refusals : List PerformanceRefusal

pub record PerformanceComparison : Type 0 where
  pub baseline : PerformanceBaseline
  pub baseline_environment_digest : Sha256Digest
  pub candidate_environment_digest : Sha256Digest
  pub baseline_duration : MeasuredDuration
  pub candidate_duration : MeasuredDuration

abbrev pub is_proxy : PerformanceBaseline → Bool
is_proxy proxy = true
is_proxy _ = false

unfoldable pub ratio_ppb : ℕ → ℕ → ℕ
ratio_ppb value reference = if reference == 0 then 0 else value * billion / reference

unfoldable pub scale_ppb : ℕ → ℕ → ℕ
scale_ppb value reference = if reference == 0 then u64_max else to_u64 (value * billion / reference)

-- `saturating_sub` on i128 meets no bound here.
unfoldable pub median_change_ppb : MeasuredDuration → MeasuredDuration → ℤ
unfolding ratio_ppb
median_change_ppb b c = to_i64 (minus (ratio_ppb c.median_nanos b.median_nanos) billion)

unfoldable pub combined_noise_ppb : MeasuredDuration → MeasuredDuration → ℕ
unfolding scale_ppb noise_band_nanos
combined_noise_ppb b c = scale_ppb (to_u64 (noise_band_nanos b + noise_band_nanos c)) b.median_nanos

-- The derived order, in which `cross_environment_comparison` comes first.
abbrev precedes : PerformanceRefusal → PerformanceRefusal → Bool
precedes cross_environment_comparison proxy_cannot_establish_speed = true
precedes _ _ = false

place_refusal : PerformanceRefusal → List PerformanceRefusal → List PerformanceRefusal
place_refusal r [] = r ∷ []
place_refusal r (s ∷ ss) =
    let rest = place_refusal r ss in if precedes s r then s ∷ rest else r ∷ s ∷ ss

-- sort_unstable
sort_refusals : List PerformanceRefusal → List PerformanceRefusal
unfolding place_refusal
sort_refusals [] = []
sort_refusals (r ∷ rs) = place_refusal r (sort_refusals rs)

unfoldable pub refusals_of : PerformanceComparison → List PerformanceRefusal
unfolding digest_eq
refusals_of c =
    let speed = if is_proxy c.baseline then proxy_cannot_establish_speed ∷ [] else [] in
    if not (digest_eq c.baseline_environment_digest c.candidate_environment_digest)
    then push speed cross_environment_comparison
    else speed

unfoldable pub verdict_of : List PerformanceRefusal → ℤ → ℕ → PerformanceVerdict
verdict_of refusals change noise =
    if is_empty refusals
    then (if leb (unsigned_abs change) noise
        then no_result
        else (if is_negative change then improved else regressed))
    else unverifiable

unfoldable pub judge_performance : PerformanceComparison → PerformanceReceipt
unfolding refusals_of sort_refusals verdict_of median_change_ppb combined_noise_ppb
judge_performance c =
    let change = median_change_ppb c.baseline_duration c.candidate_duration in
    let noise = combined_noise_ppb c.baseline_duration c.candidate_duration in
    record {
      schema_version = 1;
      baseline = c.baseline;
      baseline_environment_digest = c.baseline_environment_digest;
      candidate_environment_digest = c.candidate_environment_digest;
      baseline_duration = c.baseline_duration;
      candidate_duration = c.candidate_duration;
      verdict = verdict_of (refusals_of c) change noise;
      median_change_ppb = change;
      combined_noise_ppb = noise;
      refusals = sort_refusals (refusals_of c);
    }
