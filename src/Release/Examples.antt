-- ===== src/Release/Examples.antt =====
-- Tests of the release gates and of the task, and the properties at them.
use alloyport.Prelude.{
  ◌≡◌, refl, ◌↔◌, ℕ, true, false, none, List, [], ◌∷◌, map, all, ok, err, is_ok,
}
use alloyport.Prelude.Text.{codes, text_eq}
use alloyport.Prelude.Sets.{has}
use alloyport.Digest.{Sha256Digest}
use alloyport.Release.{Gate, Verdict, ReleaseManifest, all_gates, from_verdicts, build, failed_gate}
use alloyport.Release.Criteria.{IsReleasable, from_verdicts-IsReleasable}
use alloyport.Release.Evidence.{is_receipt, Names, from_verdicts-is_receipt, from_verdicts-Names}
use alloyport.Release.Task
use alloyport.Release.Task.{Task, TaskState}
use alloyport.Release.Task.Stages.{travel, visited, stages, travel-released}

abbrev receipt : Gate → Sha256Digest
receipt build = record { bytes = 7 ∷ [] }
receipt _ = record { bytes = 3 ∷ [] }

abbrev verdict : Gate → Verdict
verdict g = record {
  candidate_id = codes "c";
  gate = g;
  passed = true;
  receipt_digests = receipt g ∷ [];
}

abbrev verdicts : List Verdict
verdicts = map verdict all_gates

abbrev sources : List (List ℕ)
sources = (1 ∷ []) ∷ []

abbrev manifest : ReleaseManifest
manifest = record {
  candidate_id = codes "c";
  supported_domain = codes "n > 0";
  dispatch_guard = codes "n > 0";
  fallback = codes "cpu";
  source_artifact_digests = sources;
  evidence_digests = (3 ∷ []) ∷ (7 ∷ []) ∷ [];
}

built :
    from_verdicts (codes "c") (codes "n > 0") (codes "n > 0") (codes "cpu") sources verdicts
    ≡ ok manifest
unfolding from_verdicts
built = refl

is_releasable : IsReleasable (codes "c") sources verdicts
unfolding text_eq
is_releasable = record {
  generated = refl;
  vouched = refl;
  once = (refl, (refl, (refl, (refl, (refl, (refl, tt))))));
}

from_verdicts-IsReleasable_example :
    (is_ok
        (from_verdicts (codes "c") (codes "n > 0") (codes "n > 0") (codes "cpu") sources verdicts)
      ≡ true)
    ↔ IsReleasable (codes "c") sources verdicts
from_verdicts-IsReleasable_example =
    from_verdicts-IsReleasable (codes "c") (codes "n > 0") (codes "n > 0") (codes "cpu") sources
      verdicts

from_verdicts-is_receipt_example :
    (manifest.candidate_id ≡ codes "c")
    × (manifest.supported_domain ≡ codes "n > 0")
    × (manifest.dispatch_guard ≡ codes "n > 0")
    × (manifest.fallback ≡ codes "cpu")
    × (manifest.source_artifact_digests ≡ sources)
    × (has manifest.evidence_digests (7 ∷ []) ≡ is_receipt (7 ∷ []) verdicts)
from_verdicts-is_receipt_example =
    from_verdicts-is_receipt (codes "c") (codes "n > 0") (codes "n > 0") (codes "cpu") sources
      verdicts manifest (7 ∷ []) built

abbrev slow : Verdict
slow = record (verdict Gate.performance) { passed = false }

refused :
    from_verdicts (codes "c") [] [] [] sources (verdict build ∷ slow ∷ [])
    ≡ err (failed_gate Gate.performance)
unfolding from_verdicts
refused = refl

from_verdicts-Names_example :
    Names (codes "c") sources (verdict build ∷ slow ∷ []) (failed_gate Gate.performance)
from_verdicts-Names_example =
    from_verdicts-Names (codes "c") [] [] [] sources (verdict build ∷ slow ∷ [])
      (failed_gate Gate.performance) refused

abbrev task : Task
task = record {
  id = codes "t";
  source_revision = codes "r";
  migration_spec_digest = none;
  state = TaskState.captured;
  generation_strategy = none;
}

-- The verification sends the task back once, and one call is refused.
abbrev calls : List TaskState
calls =
    TaskState.specified ∷ TaskState.generating ∷ TaskState.building ∷ TaskState.verifying
    ∷ TaskState.generating ∷ TaskState.released ∷ TaskState.building ∷ TaskState.verifying
    ∷ TaskState.optimizing ∷ TaskState.integrating ∷ TaskState.releasable ∷ TaskState.released ∷ []

travelled :
    (travel (record { task = task; history = TaskState.captured ∷ [] }) calls).task.state
    ≡ TaskState.released
unfolding travel Task.transition
travelled = refl

travel-released_example :
    all
      (visited (travel (record { task = task; history = TaskState.captured ∷ [] }) calls).history)
      (stages TaskState.released)
    ≡ true
travel-released_example = travel-released task calls refl travelled
