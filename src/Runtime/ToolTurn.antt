-- ===== src/Runtime/ToolTurn.antt =====
-- crates/alloyport-core/src/agent_runtime_tools.rs: planning a turn's tool calls, and driving them to
-- a terminal result.
use alloyport.Prelude.{
  ℕ, zero, suc, ◌+◌, ◌++◌, Bool, true, false, not, ◌&&◌, ◌||◌, ltb, Option, none, some, List, [],
  ◌∷◌, last, length, is_empty, is_some, if◌then◌else◌, Result, ok, err, ok_or, map_err,
}
use alloyport.Prelude.Results
use alloyport.Prelude.Text.{Text, codes, text_eq}
use alloyport.Digest.{Sha256Digest}
use alloyport.AgentError.{AgentRecordError}
use alloyport.Agent.Episode.{EpisodeStatus}
use alloyport.Agent.Tool
use alloyport.Agent.Tool.{
  ToolOperationRecord, ToolOperationStatus, ToolResultAuthority, ToolEffectClass, is_terminal,
  finish,
}
use alloyport.Model.Gateway.{GatewayToolCall}
use alloyport.Runtime.State.{
  DurableEpisodeState, DurableToolOperation, AgentLoopRuntimeError, agent_record, missing_turn,
  invalid_durable_state, invalid_tool_outcome, untrusted_completion, after_turn_commit,
  after_tool_dispatch_commit, after_tool_outcome_before_commit, after_tool_result_commit,
}
use alloyport.Runtime.Identity.{
  RuntimeToolDescriptor, digest_label, derived_tool_operation_id,
  derive_model_continuation_input_digest,
}
use alloyport.Runtime.Repository.{EpisodeRepository, VersionedEpisodeState}
use alloyport.Runtime.Exec.{
  Ports, ToolInvocation, ToolGatewayOutcome, M, ◌>>=◌, ◌>>◌, pure, lift, crash_if, call_tool, save,
}
use alloyport.Runtime.Advance.{AgentLoopAdvance, progressed, terminal, checked_u32, settle, suspend}

abbrev pub record_error :
    Result AgentRecordError ToolOperationRecord → Result AgentLoopRuntimeError ToolOperationRecord
record_error = map_err agent_record

-- `position(|operation| !operation.record.status().is_terminal())`, with the operation found there.
unfoldable pub first_pending : List DurableToolOperation → Option (ℕ × DurableToolOperation)
unfolding is_terminal
first_pending [] = none
first_pending (op ∷ ops) =
    if is_terminal op.entry.status
    then elim (first_pending ops) [ none ↦ none | some (i, found) ↦ some (suc i, found) ]
    else some (0, op)

-- A write to `tool_operations[index].record`.
unfoldable pub set_entry :
    List DurableToolOperation → ℕ → ToolOperationRecord → List DurableToolOperation
set_entry [] i r = []
set_entry (op ∷ ops) zero r = record op { entry = r } ∷ ops
set_entry (op ∷ ops) (suc i) r = op ∷ set_entry ops i r

abbrev pub with_entry : DurableEpisodeState → ℕ → ToolOperationRecord → DurableEpisodeState
with_entry s i r = record s { tool_operations = set_entry s.tool_operations i r }

-- Results in operation order of the operations of one turn.
unfoldable pub turn_results : Text → List DurableToolOperation → List Sha256Digest
turn_results turn_id [] = []
turn_results turn_id (op ∷ ops) =
    let rest = turn_results turn_id ops in
    if text_eq op.entry.turn_id turn_id
    then elim op.entry.result_digest [ none ↦ rest | some d ↦ d ∷ rest ]
    else rest

-- The status with which an operation is handed to the gateway.
unfoldable pub prepare_entry :
    ToolOperationRecord → Result AgentLoopRuntimeError ToolOperationRecord
prepare_entry r = elim r.status [
  | ToolOperationStatus.requested ↦ record_error (
      Results.◌>>=◌ (Tool.transition r ToolOperationStatus.authorized)
        (λ r'. Tool.transition r' ToolOperationStatus.dispatching))
  | ToolOperationStatus.dispatching ↦ record_error (
      Results.◌>>=◌ (Tool.transition r ToolOperationStatus.ambiguous)
        (λ r'. Tool.transition r' ToolOperationStatus.reconciling))
  | ToolOperationStatus.ambiguous ↦ record_error (Tool.transition r ToolOperationStatus.reconciling)
  | ToolOperationStatus.reconciling ↦ ok r
  | ToolOperationStatus.running ↦ ok r
  | _ ↦ err (invalid_durable_state "tool work contains an unsupported nonterminal state")
]

abbrev pub is_reconciling : ToolOperationStatus → Bool
is_reconciling ToolOperationStatus.reconciling = true
is_reconciling ToolOperationStatus.running = true
is_reconciling _ = false

abbrev is_running : ToolOperationStatus → Bool
is_running ToolOperationStatus.running = true
is_running _ = false

abbrev still_reconciling : ToolOperationStatus → Bool
still_reconciling ToolOperationStatus.reconciling = true
still_reconciling _ = false

abbrev is_rejected : ToolOperationStatus → Bool
is_rejected ToolOperationStatus.rejected_as_invalid = true
is_rejected _ = false

abbrev pub is_verified : ToolResultAuthority → Bool
is_verified ToolResultAuthority.verified_reference = true
is_verified _ = false

-- The record after an outcome that is not final.
unfoldable pub mark_pending : ToolOperationRecord → Result AgentLoopRuntimeError ToolOperationRecord
mark_pending r =
    if is_running r.status
    then ok r
    else record_error (Tool.transition r ToolOperationStatus.running)

unfoldable pub mark_ambiguous :
    ToolOperationRecord → Result AgentLoopRuntimeError ToolOperationRecord
mark_ambiguous r =
    if still_reconciling r.status
    then ok r
    else record_error (Tool.transition r ToolOperationStatus.ambiguous)

-- The checks on a completed outcome, and the finished record.
unfoldable pub complete :
    ToolOperationRecord
    → ToolOperationStatus
    → Sha256Digest
    → List Sha256Digest
    → Bool
    → Result AgentLoopRuntimeError ToolOperationRecord
unfolding is_terminal finish
complete r status result receipts satisfies =
    if not (is_terminal status) || is_rejected status
    then err invalid_tool_outcome
    else (if satisfies && not (is_verified r.result_authority)
        then err untrusted_completion
        else record_error (finish r status result receipts))

module _ (sha : List ℕ → Sha256Digest) (episode_id : Text) (ports : Ports) where
  unfoldable pub unknown_tool : GatewayToolCall → RuntimeToolDescriptor
  unknown_tool call = record {
    name = call.name;
    version = codes "unknown";
    effect_class = ToolEffectClass.read_only;
    result_authority = ToolResultAuthority.narrative;
  }

  unfoldable pub descriptor_of : GatewayToolCall → RuntimeToolDescriptor
  unfolding unknown_tool
  descriptor_of call = elim (ports.descriptor call.name) [ none ↦ unknown_tool call | some d ↦ d ]

  -- An operation that cannot be carried out is finished as rejected.
  unfoldable pub screen_call :
      GatewayToolCall → ToolOperationRecord → Result AgentLoopRuntimeError ToolOperationRecord
  unfolding finish
  screen_call call r = elim (ports.validate_call call) [
    | some rejection ↦ record_error (finish r ToolOperationStatus.rejected_as_invalid rejection [])
    | none ↦
        if is_some (ports.descriptor call.name)
        then ok r
        else record_error (
            finish r ToolOperationStatus.rejected_as_invalid
              (digest_label sha (codes "unknown-tool")) [])
  ]

  -- One round of the loop over a turn's calls.
  unfoldable pub plan_call :
      Text → Sha256Digest → ℕ → GatewayToolCall → Result AgentLoopRuntimeError DurableToolOperation
  unfolding screen_call descriptor_of
  plan_call turn_id input index call =
      let d = descriptor_of call in
      let arguments = sha call.raw_arguments in
      Results.◌>>=◌ (derived_tool_operation_id sha episode_id turn_id index d arguments input) λ id.
        Results.◌>>=◌
          (record_error (
            Tool.new (record {
              id = id;
              episode_id = episode_id;
              turn_id = turn_id;
              native_call_id = call.native_call_id;
              tool_name = call.name;
              tool_version = d.version;
              effect_class = d.effect_class;
              result_authority = d.result_authority;
              arguments_digest = arguments;
              input_identity_digest = input;
            })))
          λ r. Results.◌>>=◌ (screen_call call r) (λ r'. ok (record { entry = r'; call = call }))

  -- The operations that the loop pushes.
  unfoldable pub plan_calls :
      Text
      → Sha256Digest
      → ℕ
      → List GatewayToolCall
      → Result AgentLoopRuntimeError (List DurableToolOperation)
  unfolding plan_call
  plan_calls turn_id input index [] = ok []
  plan_calls turn_id input index (call ∷ calls) =
      Results.◌>>=◌ (plan_call turn_id input index call)
        λ op. Results.◌>>=◌ (plan_calls turn_id input (suc index) calls) (λ ops. ok (op ∷ ops))

module _ (store : EpisodeRepository) (sha : List ℕ → Sha256Digest) (episode_id : Text)
    (ports : Ports) where
  unfoldable pub plan_turn_tools : VersionedEpisodeState → M store.Repo AgentLoopAdvance
  unfolding plan_calls settle crash_if
  plan_turn_tools v = do
    turn ← lift (ok_or (last v.state.turns) missing_turn)
    let calls = turn.semantic_turn.tool_calls
    if is_empty calls
        then settle store v.revision v.state EpisodeStatus.stop_review
            (progressed EpisodeStatus.stop_review)
        else do
          call_count ← lift (checked_u32 (length calls))
          let total = length v.state.tool_operations + length calls
          if ltb v.state.policy.max_total_tool_operations total
              then settle store v.revision v.state EpisodeStatus.budget_exhausted
                  (terminal EpisodeStatus.budget_exhausted)
              else (if ltb v.state.policy.max_tool_calls_per_turn call_count
                  then settle store v.revision v.state EpisodeStatus.stop_review
                      (progressed EpisodeStatus.stop_review)
                  else do
                    ops ← lift (
                        plan_calls sha episode_id ports turn.entry.id v.state.next_input_digest 0
                          calls)
                    let s = record v.state { tool_operations = v.state.tool_operations ++ ops }
                    report ←
                        settle store v.revision s EpisodeStatus.tool_work_pending
                          (progressed EpisodeStatus.tool_work_pending)
                    crash_if ports after_turn_commit
                    pure report)

  -- No operation is pending: the results of the last turn make the next input.
  unfoldable pub finish_tools : VersionedEpisodeState → M store.Repo AgentLoopAdvance
  unfolding settle turn_results
  finish_tools v = do
    turn ← lift (ok_or (last v.state.turns) missing_turn)
    let results = turn_results turn.entry.id v.state.tool_operations
    let input =
        derive_model_continuation_input_digest sha turn.entry.native_continuation_digest results
    settle store v.revision (record v.state { next_input_digest = input })
        EpisodeStatus.ready_for_model (progressed EpisodeStatus.ready_for_model)

  -- The branches of `drive_tools` on the outcome of the call.
  unfoldable pub commit_tool :
      ℕ
      → DurableEpisodeState
      → ℕ
      → ToolOperationRecord
      → ToolGatewayOutcome
      → M store.Repo AgentLoopAdvance
  unfolding complete mark_pending mark_ambiguous suspend save crash_if set_entry
  commit_tool revision s i r (ToolGatewayOutcome.completed status result receipts satisfies) = do
    r' ← lift (complete r status result receipts satisfies)
    save store revision
        (record (with_entry s i r') { subtask_satisfied = s.subtask_satisfied || satisfies })
    crash_if ports after_tool_result_commit
    pure (progressed EpisodeStatus.tool_work_pending)
  commit_tool revision s i r (ToolGatewayOutcome.pending diagnostic) = do
    r' ← lift (mark_pending r)
    save store revision (with_entry s i r')
    pure (progressed EpisodeStatus.tool_work_pending)
  commit_tool revision s i r (ToolGatewayOutcome.ambiguous diagnostic) = do
    r' ← lift (mark_ambiguous r)
    suspend store revision (with_entry s i r')

  -- The operation is committed as dispatched before the gateway is called.
  unfoldable pub drive_operation :
      VersionedEpisodeState → ℕ → DurableToolOperation → M store.Repo AgentLoopAdvance
  unfolding prepare_entry commit_tool save crash_if call_tool set_entry
  drive_operation v i op = do
    r ← lift (prepare_entry op.entry)
    let s = with_entry v.state i r
    let invocation : ToolInvocation = record {
      operation_id = r.id;
      call = op.call;
      input_identity_digest = v.state.next_input_digest;
    }
    revision ← save store v.revision s
    crash_if ports after_tool_dispatch_commit
    outcome ← call_tool ports (is_reconciling r.status) invocation
    crash_if ports after_tool_outcome_before_commit
    commit_tool revision s i r outcome

  unfoldable pub drive_tools : VersionedEpisodeState → M store.Repo AgentLoopAdvance
  unfolding first_pending finish_tools drive_operation
  drive_tools v = elim (first_pending v.state.tool_operations) [
    | none ↦ finish_tools v
    | some (i, op) ↦ drive_operation v i op
  ]
