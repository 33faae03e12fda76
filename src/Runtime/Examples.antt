-- ===== src/Runtime/Examples.antt =====
-- Tests of the runner on a small Episode, and the properties at them. Writes holds those of single writes
-- and of the delays.
pub mod Writes
use alloyport.Prelude.{
  is_empty, ◌||◌, if◌then◌else◌, ℕ, ◌≡◌, refl, true, false, none, some, List, [], ◌∷◌, Result, ok,
  err, length, arith, any, ◌≤◌, ◌+◌,
}
use alloyport.Prelude.Text.{Text, codes, text_eq}
use alloyport.Runtime.Exec
use alloyport.Model.Attempt
use alloyport.Model.Gateway
use alloyport.Runtime.ModelTurn.{drive_model, backoff_millis}
use alloyport.Runtime.ToolTurn.{plan_turn_tools, drive_tools}
use alloyport.Runtime.Advance.{checked_u32}
use alloyport.Runtime.Identity.{
  derived_model_attempt_id, derived_turn_id, derived_tool_operation_id,
}
use alloyport.Digest.{Sha256Digest}
use alloyport.Agent.Episode
use alloyport.Agent.Episode.{EpisodeStatus, AgentEpisodeRecord, is_terminal}
use alloyport.Agent.Tool
use alloyport.Agent.Tool.{ToolEffectClass, ToolResultAuthority, ToolOperationStatus}
use alloyport.Model.Gateway.{
  ModelTurnRequest, ModelGatewayOutcome, GatewayTurn, GatewayToolCall, NormalizedStopReason,
}
use alloyport.Runtime.Policy.{AgentLoopPolicy}
use alloyport.Runtime.State
use alloyport.Runtime.State.{
  AgentLoopRuntimeSpec, DurableEpisodeState, EpisodeRepositoryError, matches_runtime_spec, conflict,
}
use alloyport.Runtime.Repository.{VersionedEpisodeState}
use alloyport.Runtime.Repository.InMemory
use alloyport.Runtime.Repository.InMemory.{in_memory, InMemoryEpisodeRepository}
use alloyport.Runtime.Exec.{Ports, World, ToolGatewayOutcome}
use alloyport.Runtime.Run.{Operation, run, Fresh}
use alloyport.Runtime.Run.Invariant.{run-Stored}
use alloyport.Runtime.Run.Safety.{
  run-matches, run-succeeded, run-budget, run-Numbered, run-single, run-cancellable,
}
use alloyport.Runtime.Identity.Distinct.{derived_model_attempt_id-injective}
use alloyport.Runtime.Runner.{cancel_state, is_model_ambiguous, is_tool_ambiguous}
use alloyport.Runtime.Step.Trust.{is_proof}
use alloyport.Runtime.Step.Attempts.{IsAccounted, Numbered, step-IsAccounted, Fresh-IsAccounted}
use alloyport.Runtime.Step.Pending.{count_unresolved}
use alloyport.Runtime.Step.Keeps.{Stored}

-- A stand-in for SHA-256: a digest of one byte.
abbrev stub_sha : List ℕ → Sha256Digest
stub_sha bytes = record { bytes = length bytes ∷ [] }

abbrev digest : ℕ → Sha256Digest
digest n = record { bytes = n ∷ [] }

abbrev episode_id : Text
episode_id = codes "e"

abbrev episode : AgentEpisodeRecord
episode = record {
  schema_version = 1;
  spec = record {
    id = episode_id;
    task_id = codes "t";
    search_run_id = codes "r";
    parent_candidate_id = none;
    subtask_contract_digest = digest 1;
    context_projection_digest = digest 2;
    input_artifact_root_digest = digest 3;
    runtime_model_alias = codes "m";
    resolved_model_digest = digest 4;
    prompt_revision = codes "p";
    tool_catalog_digest = digest 5;
    loop_policy_digest = digest 6;
    data_boundary_policy_digest = digest 7;
    budget_snapshot_digest = digest 8;
  };
  status = EpisodeStatus.created;
}

abbrev policy : AgentLoopPolicy
policy = record {
  max_model_turns = 3;
  max_model_attempts = 4;
  max_ambiguous_model_attempts = 1;
  max_tool_calls_per_turn = 2;
  max_total_tool_operations = 5;
  max_stop_feedback_turns = 1;
}

abbrev spec : AgentLoopRuntimeSpec
spec = record {
  episode = episode;
  policy = policy;
  initial_input_digest = digest 9;
  resolved_model_digest = digest 4;
  deployment_digest = digest 10;
  model_profile_digest = digest 11;
  request_budget_digest = digest 12;
}

abbrev first_state : DurableEpisodeState
first_state = record {
  schema_version = 2;
  episode = episode;
  policy = policy;
  initial_input_digest = digest 9;
  next_input_digest = digest 9;
  resolved_model_digest = digest 4;
  deployment_digest = digest 10;
  model_profile_digest = digest 11;
  request_budget_digest = digest 12;
  attempts = [];
  turns = [];
  tool_operations = [];
  ambiguous_model_attempts = 0;
  stop_feedback_turns = 0;
  subtask_satisfied = false;
  cancellation_requested = false;
  grants = [];
}

abbrev before : World InMemoryEpisodeRepository
before = record {
  repo = record { episodes = (episode_id, record { revision = 0; state = first_state }) ∷ [] };
  calls = [];
}

before-Fresh : Stored in_memory Fresh before
unfolding InMemory.load Fresh State.new
before-Fresh id v e = let same : v.state ≡ first_state = ground arith in rw same (spec, refl, refl)

abbrev call : GatewayToolCall
call = record { native_call_id = codes "c"; name = codes "check"; raw_arguments = [] }

-- The model calls the given tools, and the tool's result satisfies the subtask.
abbrev ports : List GatewayToolCall → Ports
ports calls = record {
  invoke = λ request. ok (
      ModelGatewayOutcome.turn (record {
        turn = record {
          narrative = codes "n" ∷ [];
          tool_calls = calls;
          stop_reason = NormalizedStopReason.stop;
          usage = none;
        };
        raw_exchange_digest = digest 20;
        native_continuation_digest = digest 21;
      }));
  descriptor = λ name. some (record {
    name = name;
    version = codes "1";
    effect_class = ToolEffectClass.read_only;
    result_authority = ToolResultAuthority.verified_reference;
  });
  validate_call = λ c. none;
  execute =
      λ i. ok (ToolGatewayOutcome.completed ToolOperationStatus.succeeded (digest 30) [] true);
  reconcile = λ i. ok (ToolGatewayOutcome.pending (digest 31));
  should_crash = λ point. false;
}

abbrev working : Operation
working = Operation.advance (ports (call ∷ []))

abbrev stopping : Operation
stopping = Operation.advance (ports [])

-- Start, a turn with a tool call, the tool's work, a turn without one, and its review.
abbrev calls_made : List Operation
calls_made =
    working ∷ working ∷ working ∷ working ∷ working ∷ working ∷ stopping ∷ stopping ∷ stopping
    ∷ stopping ∷ []

-- The same until the process ends between the commit of the tool's dispatch and the call.
abbrev interrupted : Operation
interrupted = Operation.advance (record (ports (call ∷ [])) {
  should_crash = λ point. elim point [ State.after_tool_dispatch_commit ↦ true | _ ↦ false ];
})

abbrev calls_cut : List Operation
calls_cut = working ∷ working ∷ working ∷ working ∷ interrupted ∷ []

abbrev after : List Operation → World InMemoryEpisodeRepository
after os = run in_memory stub_sha episode_id os before

abbrev stored : List Operation → VersionedEpisodeState
stored os = elim (in_memory.load (after os).repo episode_id) [
  | ok v ↦ v
  | err e ↦ record { revision = 0; state = first_state }
]

stored_status : (stored calls_made).state.episode.status ≡ EpisodeStatus.succeeded
unfolding run InMemory.load Exec.◌>>=◌ text_eq Exec.lift Episode.transition InMemory.save Exec.pure
    derived_model_attempt_id Attempt.new drive_model Attempt.mark_dispatching
    Attempt.record_response Attempt.mark_decoded derived_turn_id checked_u32 Gateway.new
    plan_turn_tools derived_tool_operation_id Tool.new drive_tools Tool.transition
stored_status = refl

found_made : in_memory.load (after calls_made).repo episode_id ≡ ok (stored calls_made)
unfolding run InMemory.load Exec.◌>>=◌ text_eq Exec.lift Episode.transition InMemory.save Exec.pure
    derived_model_attempt_id Attempt.new drive_model Attempt.mark_dispatching
    Attempt.record_response Attempt.mark_decoded derived_turn_id checked_u32 Gateway.new
    plan_turn_tools derived_tool_operation_id Tool.new drive_tools Tool.transition
found_made = refl

found_cut : in_memory.load (after calls_cut).repo episode_id ≡ ok (stored calls_cut)
unfolding run InMemory.load Exec.◌>>=◌ text_eq Exec.lift Episode.transition InMemory.save Exec.pure
    derived_model_attempt_id Attempt.new drive_model Attempt.mark_dispatching
    Attempt.record_response Attempt.mark_decoded derived_turn_id checked_u32 Gateway.new
    plan_turn_tools derived_tool_operation_id Tool.new drive_tools Tool.transition Exec.raise
found_cut = refl

cut_unresolved : count_unresolved (stored calls_cut).state.tool_operations ≡ 1
unfolding run InMemory.load Exec.◌>>=◌ text_eq Exec.lift Episode.transition InMemory.save Exec.pure
    derived_model_attempt_id Attempt.new drive_model Attempt.mark_dispatching
    Attempt.record_response Attempt.mark_decoded derived_turn_id checked_u32 Gateway.new
    plan_turn_tools derived_tool_operation_id Tool.new drive_tools Tool.transition Exec.raise
    count_unresolved
cut_unresolved = refl

cut_live : is_terminal (stored calls_cut).state.episode.status ≡ false
unfolding run InMemory.load Exec.◌>>=◌ text_eq Exec.lift Episode.transition InMemory.save Exec.pure
    derived_model_attempt_id Attempt.new drive_model Attempt.mark_dispatching
    Attempt.record_response Attempt.mark_decoded derived_turn_id checked_u32 Gateway.new
    plan_turn_tools derived_tool_operation_id Tool.new drive_tools Tool.transition Exec.raise
    is_terminal
cut_live = refl

run-Stored_example : IsAccounted episode_id (stored calls_made).state
run-Stored_example =
    run-Stored in_memory (IsAccounted episode_id) episode_id (step-IsAccounted episode_id) stub_sha
      calls_made before (λ id v e. Fresh-IsAccounted episode_id v.state (before-Fresh id v e))
      episode_id (stored calls_made) found_made

run-matches_example :
    (j : Text) × (u : VersionedEpisodeState) × (in_memory.load before.repo j ≡ ok u)
    × ((stored calls_made).state.episode.id ≡ u.state.episode.id)
    × (matches_runtime_spec (stored calls_made).state spec ≡ matches_runtime_spec u.state spec)
run-matches_example =
    run-matches in_memory stub_sha episode_id calls_made before spec episode_id (stored calls_made)
      found_made

run-succeeded_example :
    ((stored calls_made).state.subtask_satisfied ≡ true)
    × (any is_proof (stored calls_made).state.tool_operations ≡ true)
run-succeeded_example =
    run-succeeded in_memory stub_sha episode_id calls_made before before-Fresh episode_id
      (stored calls_made) found_made stored_status

made_ungranted : is_empty (stored calls_made).state.grants ≡ true
unfolding run InMemory.load Exec.◌>>=◌ text_eq Exec.lift Episode.transition InMemory.save Exec.pure
    derived_model_attempt_id Attempt.new drive_model Attempt.mark_dispatching
    Attempt.record_response Attempt.mark_decoded derived_turn_id checked_u32 Gateway.new
    plan_turn_tools derived_tool_operation_id Tool.new drive_tools Tool.transition Exec.raise
    is_terminal
made_ungranted = refl

run-budget_example :
    (length (stored calls_made).state.attempts
      ≤ (stored calls_made).state.policy.max_model_attempts)
    × (length (stored calls_made).state.turns ≤ (stored calls_made).state.policy.max_model_turns)
    × (length (stored calls_made).state.tool_operations
        ≤ (stored calls_made).state.policy.max_total_tool_operations)
run-budget_example =
    run-budget in_memory stub_sha episode_id calls_made before before-Fresh episode_id
      (stored calls_made) found_made made_ungranted

run-Numbered_example :
    Numbered episode_id 0 (stored calls_made).state.attempts
    × (length (stored calls_made).state.turns ≤ length (stored calls_made).state.attempts)
run-Numbered_example =
    run-Numbered in_memory stub_sha episode_id calls_made before before-Fresh episode_id
      (stored calls_made) found_made

run-single_example : count_unresolved (stored calls_cut).state.tool_operations ≤ 1
run-single_example =
    run-single in_memory stub_sha episode_id calls_cut before before-Fresh episode_id
      (stored calls_cut) found_cut

run-cancellable_example :
    (s' : DurableEpisodeState) × (cancel_state (stored calls_cut).state ≡ ok s')
    × (s'.cancellation_requested ≡ true)
    × (s'.episode.status ≡ (
        if is_model_ambiguous (stored calls_cut).state || is_tool_ambiguous (stored calls_cut).state
        then EpisodeStatus.suspended
        else EpisodeStatus.cancellation_pending))
run-cancellable_example =
    run-cancellable in_memory stub_sha episode_id calls_cut before before-Fresh episode_id
      (stored calls_cut) found_cut cut_live

derived_model_attempt_id-injective_example : 7 + 5 ≡ 12
derived_model_attempt_id-injective_example =
    derived_model_attempt_id-injective episode_id (7 + 5) 12 refl
