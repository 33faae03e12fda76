-- ===== src/Agent/Episode.antt =====
-- The Agent Episode: its status machine and its record.
use alloyport.Prelude.{
  ℕ, String, Bool, true, false, ◌&&◌, Option, none, some, ◌==◌, if◌then◌else◌, Result, ok, err,
  ◌>>◌,
}
use alloyport.Prelude.Text.{Text, text_eq}
use alloyport.Digest.{Sha256Digest, digest_eq}
use alloyport.AgentError.{AgentRecordError, invalid_transition, require_text}

pub data EpisodeStatus : Type 0 where
  created ready_for_model model_attempt_pending turn_recorded tool_work_pending stop_review
        suspension_requested suspended cancellation_pending succeeded incomplete cancelled
        budget_exhausted failed :
      EpisodeStatus

-- The derived `Debug` form.
unfoldable pub status_name : EpisodeStatus → String
status_name created = "Created"
status_name ready_for_model = "ReadyForModel"
status_name model_attempt_pending = "ModelAttemptPending"
status_name turn_recorded = "TurnRecorded"
status_name tool_work_pending = "ToolWorkPending"
status_name stop_review = "StopReview"
status_name suspension_requested = "SuspensionRequested"
status_name suspended = "Suspended"
status_name cancellation_pending = "CancellationPending"
status_name succeeded = "Succeeded"
status_name incomplete = "Incomplete"
status_name cancelled = "Cancelled"
status_name budget_exhausted = "BudgetExhausted"
status_name failed = "Failed"

unfoldable pub can_transition_to : EpisodeStatus → EpisodeStatus → Bool
can_transition_to created ready_for_model = true
can_transition_to created cancellation_pending = true
can_transition_to ready_for_model model_attempt_pending = true
can_transition_to ready_for_model suspension_requested = true
can_transition_to ready_for_model cancellation_pending = true
can_transition_to ready_for_model budget_exhausted = true
can_transition_to ready_for_model failed = true
can_transition_to model_attempt_pending turn_recorded = true
can_transition_to model_attempt_pending ready_for_model = true
can_transition_to model_attempt_pending suspension_requested = true
can_transition_to model_attempt_pending cancellation_pending = true
can_transition_to model_attempt_pending budget_exhausted = true
can_transition_to model_attempt_pending failed = true
can_transition_to turn_recorded tool_work_pending = true
can_transition_to turn_recorded stop_review = true
can_transition_to turn_recorded cancellation_pending = true
can_transition_to turn_recorded budget_exhausted = true
can_transition_to turn_recorded failed = true
can_transition_to tool_work_pending ready_for_model = true
can_transition_to tool_work_pending suspension_requested = true
can_transition_to tool_work_pending cancellation_pending = true
can_transition_to tool_work_pending budget_exhausted = true
can_transition_to tool_work_pending failed = true
can_transition_to stop_review ready_for_model = true
can_transition_to stop_review succeeded = true
can_transition_to stop_review incomplete = true
can_transition_to stop_review suspension_requested = true
can_transition_to stop_review cancellation_pending = true
can_transition_to stop_review budget_exhausted = true
can_transition_to stop_review failed = true
can_transition_to suspension_requested suspended = true
can_transition_to suspension_requested cancellation_pending = true
can_transition_to suspension_requested failed = true
can_transition_to suspended ready_for_model = true
can_transition_to suspended tool_work_pending = true
can_transition_to suspended cancellation_pending = true
can_transition_to suspended failed = true
can_transition_to cancellation_pending cancelled = true
can_transition_to cancellation_pending suspended = true
can_transition_to _ _ = false

unfoldable pub is_terminal : EpisodeStatus → Bool
is_terminal succeeded = true
is_terminal incomplete = true
is_terminal cancelled = true
is_terminal budget_exhausted = true
is_terminal failed = true
is_terminal _ = false

abbrev pub agent_episode_schema_v1 : ℕ
agent_episode_schema_v1 = 1

-- `prompt_revision` and the identities are texts; `loop_policy_digest` names the Episode's rules.
pub record EpisodeSpec : Type 0 where
  pub id : Text
  pub task_id : Text
  pub search_run_id : Text
  pub parent_candidate_id : Option Text
  pub subtask_contract_digest : Sha256Digest
  pub context_projection_digest : Sha256Digest
  pub input_artifact_root_digest : Sha256Digest
  pub runtime_model_alias : Text
  pub resolved_model_digest : Sha256Digest
  pub prompt_revision : Text
  pub tool_catalog_digest : Sha256Digest
  pub loop_policy_digest : Sha256Digest
  pub data_boundary_policy_digest : Sha256Digest
  pub budget_snapshot_digest : Sha256Digest

-- The record holds the fields of its specification beside its schema version and status.
pub record AgentEpisodeRecord : Type 0 where
  pub schema_version : ℕ
  pub spec : EpisodeSpec
  pub open spec use *
  pub status : EpisodeStatus

-- AgentEpisodeRecord::new
unfoldable pub new : EpisodeSpec → Result AgentRecordError AgentEpisodeRecord
unfolding require_text
new spec = do
  require_text "runtime model alias" spec.runtime_model_alias
  require_text "prompt revision" spec.prompt_revision
  ok (record { schema_version = agent_episode_schema_v1; spec = spec; status = created })

unfoldable pub transition :
    AgentEpisodeRecord → EpisodeStatus → Result AgentRecordError AgentEpisodeRecord
unfolding can_transition_to
transition e next =
    if can_transition_to e.status next
    then ok (record e { status = next })
    else err (invalid_transition "episode" (status_name e.status) (status_name next))

-- Failed | Incomplete | BudgetExhausted
unfoldable pub is_resumable : EpisodeStatus → Bool
is_resumable failed = true
is_resumable incomplete = true
is_resumable budget_exhausted = true
is_resumable _ = false

unfoldable pub resume : AgentEpisodeRecord → Result AgentRecordError AgentEpisodeRecord
unfolding is_resumable
resume e =
    if is_resumable e.status
    then ok (record e { status = ready_for_model })
    else err (invalid_transition "episode" (status_name e.status) (status_name ready_for_model))

unfoldable pub option_text_eq : Option Text → Option Text → Bool
option_text_eq none none = true
option_text_eq (some a) (some b) = text_eq a b
option_text_eq _ _ = false

-- `budget_snapshot_digest` and the status are left out, as the code does.
unfoldable pub matches_immutable : AgentEpisodeRecord → AgentEpisodeRecord → Bool
unfolding option_text_eq digest_eq text_eq
matches_immutable e expected =
    e.schema_version == expected.schema_version
    && text_eq e.id expected.id
    && text_eq e.task_id expected.task_id
    && text_eq e.search_run_id expected.search_run_id
    && option_text_eq e.parent_candidate_id expected.parent_candidate_id
    && digest_eq e.subtask_contract_digest expected.subtask_contract_digest
    && digest_eq e.context_projection_digest expected.context_projection_digest
    && digest_eq e.input_artifact_root_digest expected.input_artifact_root_digest
    && text_eq e.runtime_model_alias expected.runtime_model_alias
    && digest_eq e.resolved_model_digest expected.resolved_model_digest
    && text_eq e.prompt_revision expected.prompt_revision
    && digest_eq e.tool_catalog_digest expected.tool_catalog_digest
    && digest_eq e.loop_policy_digest expected.loop_policy_digest
    && digest_eq e.data_boundary_policy_digest expected.data_boundary_policy_digest
