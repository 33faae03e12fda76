-- ===== src/Runtime/State.antt =====
-- crates/alloyport-core/src/agent_runtime.rs and agent_runtime_state.rs: the persisted state of an
-- Episode, its creation and its recovery check; and the errors of agent_runtime_helpers.rs.
use alloyport.Prelude.{
  ℕ, String, Bool, false, not, ◌&&◌, ◌==◌, ltb, List, [], ◌∷◌, length, if◌then◌else◌, Result, ok,
  err, map_err, ◌>>◌,
}
use alloyport.Prelude.Text.{Text}
use alloyport.Digest.{Sha256Digest, digest_eq}
use alloyport.AgentError.{AgentRecordError}
use alloyport.Agent.Episode.{AgentEpisodeRecord, matches_immutable}
use alloyport.Agent.Tool.{ToolOperationRecord}
use alloyport.Model.Attempt.{ModelAttemptRecord, ModelAttemptError}
use alloyport.Model.Gateway
use alloyport.Model.Gateway.{
  GatewayTurn, GatewayToolCall, TurnRecord, TurnRecordError, ModelGatewayError,
}
use alloyport.Runtime.Policy.{AgentLoopPolicy, AllowanceGrant, is_invalid, rules, rules_eq}

pub data AgentRuntimeFaultPoint : Type 0 where
  after_model_dispatch_commit after_model_outcome_before_commit after_turn_commit
        after_tool_dispatch_commit after_tool_outcome_before_commit after_tool_result_commit :
      AgentRuntimeFaultPoint

pub data EpisodeRepositoryError : Type 0 where
  already_exists not_found : Text → EpisodeRepositoryError
  -- expected, actual
  conflict : ℕ → ℕ → EpisodeRepositoryError
  revision_exhausted : EpisodeRepositoryError
  adapter : Text → EpisodeRepositoryError

pub data ToolGatewayError : Type 0 where
  script_exhausted unexpected_request : ToolGatewayError
  citation adapter : Text → ToolGatewayError

pub data AgentLoopRuntimeError : Type 0 where
  invalid_policy counter_exhausted missing_model_attempt missing_turn derived_identity :
      AgentLoopRuntimeError
  invalid_durable_state : String → AgentLoopRuntimeError
  invalid_tool_outcome untrusted_completion : AgentLoopRuntimeError
  injected_crash : AgentRuntimeFaultPoint → AgentLoopRuntimeError
  repository : EpisodeRepositoryError → AgentLoopRuntimeError
  agent_record : AgentRecordError → AgentLoopRuntimeError
  model_attempt : ModelAttemptError → AgentLoopRuntimeError
  turn_record : TurnRecordError → AgentLoopRuntimeError
  model_gateway : ModelGatewayError → AgentLoopRuntimeError
  tool_gateway : ToolGatewayError → AgentLoopRuntimeError

pub record AgentLoopRuntimeSpec : Type 0 where
  pub episode : AgentEpisodeRecord
  pub policy : AgentLoopPolicy
  pub initial_input_digest : Sha256Digest
  pub resolved_model_digest : Sha256Digest
  pub deployment_digest : Sha256Digest
  pub model_profile_digest : Sha256Digest
  pub request_budget_digest : Sha256Digest

-- `entry` is the field `record` of the code.
pub record DurableTurn : Type 0 where
  pub entry : TurnRecord
  pub semantic_turn : GatewayTurn

-- `entry` is the field `record` of the code.
pub record DurableToolOperation : Type 0 where
  pub entry : ToolOperationRecord
  pub call : GatewayToolCall

pub record DurableEpisodeState : Type 0 where
  pub schema_version : ℕ
  pub episode : AgentEpisodeRecord
  pub policy : AgentLoopPolicy
  pub initial_input_digest : Sha256Digest
  pub next_input_digest : Sha256Digest
  pub resolved_model_digest : Sha256Digest
  pub deployment_digest : Sha256Digest
  pub model_profile_digest : Sha256Digest
  pub request_budget_digest : Sha256Digest
  pub attempts : List ModelAttemptRecord
  pub turns : List DurableTurn
  pub tool_operations : List DurableToolOperation
  pub ambiguous_model_attempts : ℕ
  pub stop_feedback_turns : ℕ
  pub subtask_satisfied : Bool
  pub cancellation_requested : Bool
  pub grants : List AllowanceGrant

abbrev pub durable_episode_state_schema_v2 : ℕ
durable_episode_state_schema_v2 = 2

unfoldable pub validate_policy : AgentLoopPolicy → Result AgentLoopRuntimeError (Unit {0})
unfolding is_invalid
validate_policy p = if is_invalid p then err invalid_policy else ok tt

-- DurableEpisodeState::new
unfoldable pub new : AgentLoopRuntimeSpec → Result AgentLoopRuntimeError DurableEpisodeState
unfolding validate_policy
new spec = do
  validate_policy spec.policy
  ok (record {
    schema_version = durable_episode_state_schema_v2;
    episode = spec.episode;
    policy = spec.policy;
    initial_input_digest = spec.initial_input_digest;
    next_input_digest = spec.initial_input_digest;
    resolved_model_digest = spec.resolved_model_digest;
    deployment_digest = spec.deployment_digest;
    model_profile_digest = spec.model_profile_digest;
    request_budget_digest = spec.request_budget_digest;
    attempts = [];
    turns = [];
    tool_operations = [];
    ambiguous_model_attempts = 0;
    stop_feedback_turns = 0;
    subtask_satisfied = false;
    cancellation_requested = false;
    grants = [];
  })

validate_turns : List DurableTurn → Result AgentLoopRuntimeError (Unit {0})
validate_turns [] = ok tt
validate_turns (t ∷ ts) =
    map_err model_gateway (Gateway.validate t.semantic_turn) >> validate_turns ts

unfoldable pub validate_recovered : DurableEpisodeState → Result AgentLoopRuntimeError (Unit {0})
unfolding validate_turns validate_policy
validate_recovered s =
    if not (s.schema_version == durable_episode_state_schema_v2)
    then err (invalid_durable_state "unsupported durable episode schema")
    else do
      validate_policy s.policy
      if ltb (length s.attempts) (length s.turns)
          then err (invalid_durable_state "episode has more turns than model attempts")
          else validate_turns s.turns

unfoldable pub matches_runtime_spec : DurableEpisodeState → AgentLoopRuntimeSpec → Bool
unfolding matches_immutable rules rules_eq digest_eq
matches_runtime_spec s spec =
    matches_immutable s.episode spec.episode
    && rules_eq (rules s.policy) (rules spec.policy)
    && digest_eq s.initial_input_digest spec.initial_input_digest
    && digest_eq s.resolved_model_digest spec.resolved_model_digest
    && digest_eq s.deployment_digest spec.deployment_digest
    && digest_eq s.model_profile_digest spec.model_profile_digest
    && digest_eq s.request_budget_digest spec.request_budget_digest
