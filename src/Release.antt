-- ===== src/Release.antt =====
-- crates/alloyport-core/src/lib.rs: the gates of a candidate, their verdicts, and the release
-- manifest. The lifecycle of the migration task is the child Task.
pub mod Task
pub mod Criteria
pub mod Evidence
pub mod Examples
use alloyport.Prelude.{
  ℕ, ◌==◌, Bool, true, false, not, List, [], ◌∷◌, map, any, is_empty, if◌then◌else◌, Result, ok,
  err, ◌>>=◌,
}
use alloyport.Prelude.Text.{Text, text_eq}
use alloyport.Prelude.Sets.{extend}
use alloyport.Digest.{Sha256Digest}

pub data Gate : Type 0 where
  contract source build correctness performance integration : Gate

-- The derived order.
abbrev pub rank : Gate → ℕ
rank contract = 0
rank source = 1
rank build = 2
rank correctness = 3
rank performance = 4
rank integration = 5

abbrev pub gate_eq : Gate → Gate → Bool
gate_eq a b = rank a == rank b

abbrev pub all_gates : List Gate
all_gates = contract ∷ source ∷ build ∷ correctness ∷ performance ∷ integration ∷ []

pub record Verdict : Type 0 where
  pub candidate_id : Text
  pub gate : Gate
  pub passed : Bool
  pub receipt_digests : List Sha256Digest

-- The two sets hold the digests' bytes, whose order is the derived order of the digests.
pub record ReleaseManifest : Type 0 where
  pub candidate_id : Text
  pub supported_domain : Text
  pub dispatch_guard : Text
  pub fallback : Text
  pub source_artifact_digests : List (List ℕ)
  pub evidence_digests : List (List ℕ)

pub data ReleaseError : Type 0 where
  candidate_mismatch : ReleaseError
  duplicate_gate failed_gate missing_evidence missing_gate : Gate → ReleaseError
  missing_source_artifacts : ReleaseError

-- The set `passed`, as the gates inserted so far.
abbrev pub contains : List Gate → Gate → Bool
contains passed g = any (gate_eq g) passed

abbrev pub receipts : Verdict → List (List ℕ)
receipts v = map (λ (d : Sha256Digest). d.bytes) v.receipt_digests

pub record Tally : Type 0 where
  pub passed : List Gate
  pub evidence_digests : List (List ℕ)

-- The insertions of a round that refuses nothing.
abbrev pub accept : Tally → Verdict → Tally
accept t v = record {
  passed = v.gate ∷ t.passed;
  evidence_digests = extend t.evidence_digests (receipts v);
}

-- One round of the loop over the verdicts.
unfoldable pub check_verdict : Text → Tally → Verdict → Result ReleaseError Tally
unfolding text_eq extend
check_verdict candidate t v =
    if not (text_eq v.candidate_id candidate)
    then err candidate_mismatch
    else (if contains t.passed v.gate
        then err (duplicate_gate v.gate)
        else (if not v.passed
            then err (failed_gate v.gate)
            else (if is_empty v.receipt_digests
                then err (missing_evidence v.gate)
                else ok (accept t v))))

unfoldable pub check_verdicts : Text → Tally → List Verdict → Result ReleaseError Tally
unfolding check_verdict
check_verdicts candidate t [] = ok t
check_verdicts candidate t (v ∷ vs) = do
  t' ← check_verdict candidate t v
  check_verdicts candidate t' vs

-- The loop over `Gate::ALL`.
unfoldable pub check_gates : List Gate → List Gate → Result ReleaseError (List Gate)
check_gates passed [] = ok passed
check_gates passed (g ∷ gs) =
    let rest = check_gates passed gs in if contains passed g then rest else err (missing_gate g)

unfoldable pub from_verdicts :
    Text → Text → Text → Text → List (List ℕ) → List Verdict → Result ReleaseError ReleaseManifest
unfolding check_verdicts check_gates
from_verdicts candidate domain guard fallback sources verdicts =
    if is_empty sources then err missing_source_artifacts else (do
      t ← check_verdicts candidate (record { passed = []; evidence_digests = [] }) verdicts
      _ ← check_gates t.passed all_gates
      ok (record {
        candidate_id = candidate;
        supported_domain = domain;
        dispatch_guard = guard;
        fallback = fallback;
        source_artifact_digests = sources;
        evidence_digests = t.evidence_digests;
      }))
