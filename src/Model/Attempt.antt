-- ===== src/Model/Attempt.antt =====
-- crates/alloyport-core/src/model_attempt.rs. A method on `&mut self` returns the new record.
pub mod Evidence
use alloyport.Prelude.{
  ℕ, Bool, true, false, ◌==◌, Option, none, some, if◌then◌else◌, Result, ok, err, ◌>>=◌, ◌>>◌,
}
use alloyport.Prelude.Text.{Text, is_blank}
use alloyport.Digest.{Sha256Digest}

pub data ModelAttemptStatus : Type 0 where
  prepared dispatching responded decoded decode_failed confirmed_not_sent failed ambiguous
        cancelled_ambiguous :
      ModelAttemptStatus

unfoldable pub is_terminal : ModelAttemptStatus → Bool
is_terminal decoded = true
is_terminal decode_failed = true
is_terminal confirmed_not_sent = true
is_terminal failed = true
is_terminal ambiguous = true
is_terminal cancelled_ambiguous = true
is_terminal _ = false

abbrev pub is_prepared : ModelAttemptStatus → Bool
is_prepared prepared = true
is_prepared _ = false

abbrev pub is_dispatching : ModelAttemptStatus → Bool
is_dispatching dispatching = true
is_dispatching _ = false

abbrev is_responded : ModelAttemptStatus → Bool
is_responded responded = true
is_responded _ = false

pub record ModelUsage : Type 0 where
  pub input_tokens : ℕ
  pub output_tokens : ℕ
  pub cached_input_tokens : Option ℕ
  pub cost_micros : Option ℕ

abbrev pub model_attempt_schema_v1 : ℕ
model_attempt_schema_v1 = 1

pub record ModelAttemptSpec : Type 0 where
  pub id : Text
  pub episode_id : Text
  pub attempt_number : ℕ
  pub request_digest : Sha256Digest
  pub resolved_model_digest : Sha256Digest
  pub deployment_digest : Sha256Digest
  pub model_profile_digest : Sha256Digest
  pub request_budget_digest : Sha256Digest
  pub predecessor_attempt_id : Option Text
  pub predecessor_continuation_digest : Option Sha256Digest

-- The record holds the fields of its specification beside its own.
pub record ModelAttemptRecord : Type 0 where
  pub schema_version : ℕ
  pub spec : ModelAttemptSpec
  pub open spec use *
  pub status : ModelAttemptStatus
  pub response_digest : Option Sha256Digest
  pub continuation_digest : Option Sha256Digest
  pub diagnostic_digest : Option Sha256Digest
  pub actual_model : Option Text
  pub usage : Option ModelUsage

pub data ModelAttemptError : Type 0 where
  zero_attempt_number empty_actual_model : ModelAttemptError
  -- from, expected
  invalid_transition : ModelAttemptStatus → ModelAttemptStatus → ModelAttemptError
  invalid_terminal : ModelAttemptStatus → ModelAttemptError

-- ModelAttemptRecord::new
unfoldable pub new : ModelAttemptSpec → Result ModelAttemptError ModelAttemptRecord
new spec =
    if spec.attempt_number == 0
    then err zero_attempt_number
    else ok (record {
      schema_version = model_attempt_schema_v1;
      spec = spec;
      status = prepared;
      response_digest = none;
      continuation_digest = none;
      diagnostic_digest = none;
      actual_model = none;
      usage = none;
    })

-- The comparison of `require_status`, for the three statuses that are required.
status_is : ModelAttemptStatus → ModelAttemptStatus → Bool
status_is prepared s = is_prepared s
status_is dispatching s = is_dispatching s
status_is responded s = is_responded s
status_is _ _ = false

require_status : ModelAttemptRecord → ModelAttemptStatus → Result ModelAttemptError (Unit {0})
unfolding status_is
require_status r expected =
    if status_is expected r.status then ok tt else err (invalid_transition r.status expected)

unfoldable pub mark_dispatching : ModelAttemptRecord → Result ModelAttemptError ModelAttemptRecord
unfolding require_status
mark_dispatching r = do require_status r prepared; ok (record r { status = dispatching })

is_blank_model : Option Text → Bool
is_blank_model none = false
is_blank_model (some model) = is_blank model

unfoldable pub record_response :
    ModelAttemptRecord
    → Sha256Digest
    → Option Text
    → Option ModelUsage
    → Result ModelAttemptError ModelAttemptRecord
unfolding require_status is_blank_model
record_response r response actual_model usage = do
  require_status r dispatching
  if is_blank_model actual_model
      then err empty_actual_model
      else ok (record r {
        response_digest = some response;
        actual_model = actual_model;
        usage = usage;
        status = responded;
      })

unfoldable pub mark_decoded :
    ModelAttemptRecord → Sha256Digest → Result ModelAttemptError ModelAttemptRecord
unfolding require_status
mark_decoded r continuation = do
  require_status r responded
  ok (record r { continuation_digest = some continuation; status = decoded })

unfoldable pub mark_decode_failed :
    ModelAttemptRecord → Option Sha256Digest → Result ModelAttemptError ModelAttemptRecord
unfolding require_status
mark_decode_failed r diagnostic = do
  require_status r responded
  ok (record r { diagnostic_digest = diagnostic; status = decode_failed })

unfoldable pub mark_response_failed :
    ModelAttemptRecord → Option Sha256Digest → Result ModelAttemptError ModelAttemptRecord
unfolding require_status
mark_response_failed r diagnostic = do
  require_status r responded
  ok (record r { diagnostic_digest = diagnostic; status = failed })

ends_without_response : ModelAttemptStatus → Bool
ends_without_response confirmed_not_sent = true
ends_without_response failed = true
ends_without_response ambiguous = true
ends_without_response cancelled_ambiguous = true
ends_without_response _ = false

unfoldable pub finish_without_response :
    ModelAttemptRecord
    → ModelAttemptStatus
    → Option Sha256Digest
    → Result ModelAttemptError ModelAttemptRecord
unfolding require_status ends_without_response
finish_without_response r terminal diagnostic = do
  require_status r dispatching
  if ends_without_response terminal
      then ok (record r { diagnostic_digest = diagnostic; status = terminal })
      else err (invalid_terminal terminal)
