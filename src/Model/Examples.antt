-- ===== src/Model/Examples.antt =====
-- Tests of an attempt's record, and the properties at them.
use alloyport.Prelude.{◌≡◌, refl, none, List, [], ◌∷◌, ok}
use alloyport.Prelude.Text.{codes}
use alloyport.Digest.{Sha256Digest}
use alloyport.Model.Attempt
use alloyport.Model.Attempt.{ModelAttemptRecord, ModelAttemptSpec, ModelAttemptStatus}
use alloyport.Model.Attempt.Evidence
use alloyport.Model.Attempt.Evidence.{Call, IsEvidenced, run-new-IsEvidenced}

abbrev digest : Sha256Digest
digest = record { bytes = [] }

abbrev spec : ModelAttemptSpec
spec = record {
  id = codes "a";
  episode_id = codes "e";
  attempt_number = 1;
  request_digest = digest;
  resolved_model_digest = digest;
  deployment_digest = digest;
  model_profile_digest = digest;
  request_budget_digest = digest;
  predecessor_attempt_id = none;
  predecessor_continuation_digest = none;
}

abbrev prepared : ModelAttemptRecord
prepared = record {
  schema_version = 1;
  spec = spec;
  status = ModelAttemptStatus.prepared;
  response_digest = none;
  continuation_digest = none;
  diagnostic_digest = none;
  actual_model = none;
  usage = none;
}

prepared-new : Attempt.new spec ≡ ok prepared
unfolding Attempt.new
prepared-new = refl

-- The second call is refused.
abbrev calls : List Call
calls =
    Call.dispatches
    ∷ Call.decodes digest
    ∷ Call.responds digest none none
    ∷ Call.decodes digest
    ∷ []

calls_end : (Evidence.run prepared calls).status ≡ ModelAttemptStatus.decoded
unfolding Evidence.run
calls_end = refl

run-new-IsEvidenced_example : IsEvidenced (Evidence.run prepared calls)
run-new-IsEvidenced_example = run-new-IsEvidenced spec prepared calls prepared-new
