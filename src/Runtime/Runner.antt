-- ===== src/Runtime/Runner.antt =====
-- crates/alloyport-core/src/agent_runtime.rs: AgentLoopRunner, the operations of one Episode.
use alloyport.Prelude.{
  ℕ, ◌+◌, Bool, true, false, not, ◌||◌, ltb, leb, Option, none, some, List, [], ◌∷◌, push, last,
  set_last, any, length, if◌then◌else◌, Result, ok, err, map_err,
}
use alloyport.Prelude.Text.{Text}
use alloyport.Digest.{Sha256Digest}
use alloyport.Agent.Episode
use alloyport.Agent.Episode.{EpisodeStatus, is_terminal}
use alloyport.Agent.Tool
use alloyport.Agent.Tool.{ToolOperationRecord, ToolOperationStatus}
use alloyport.Model.Attempt
use alloyport.Model.Attempt.{
  ModelAttemptRecord, ModelAttemptStatus, is_dispatching, finish_without_response,
}
use alloyport.Runtime.Policy.{EpisodeAllowance, AllowanceGrant, allowance, with_allowance}
use alloyport.Runtime.State.{
  DurableEpisodeState, DurableTurn, DurableToolOperation, AgentLoopRuntimeError, agent_record,
  missing_turn, invalid_durable_state, validate_policy, validate_recovered,
}
use alloyport.Runtime.Identity.{derived_model_attempt_id, derive_model_continuation_input_digest}
use alloyport.Runtime.Repository.{EpisodeRepository, VersionedEpisodeState}
use alloyport.Runtime.Exec.{Ports, M, ◌>>=◌, ◌>>◌, pure, raise, lift, load, save}
use alloyport.Runtime.Advance.{
  AgentLoopAdvance, progressed, terminal, suspended, progress, checked_next, transition_state,
  suspend_state, settle,
}
use alloyport.Runtime.ModelTurn.{attempt_error, drive_model}
use alloyport.Runtime.ToolTurn.{record_error, plan_turn_tools, drive_tools}

abbrev attempt_id : Option ModelAttemptRecord → Option Text
attempt_id none = none
attempt_id (some a) = some a.id

abbrev continuation_of : Option DurableTurn → Option Sha256Digest
continuation_of none = none
continuation_of (some t) = some t.entry.native_continuation_digest

-- Whether the turns or the attempts of the allowance are spent.
abbrev pub is_spent : DurableEpisodeState → Bool
is_spent s =
    leb s.policy.max_model_turns (length s.turns)
    || leb s.policy.max_model_attempts (length s.attempts)

-- A call whose effect outside is not known.
abbrev pub is_unresolved : ToolOperationStatus → Bool
is_unresolved ToolOperationStatus.dispatching = true
is_unresolved ToolOperationStatus.running = true
is_unresolved ToolOperationStatus.ambiguous = true
is_unresolved ToolOperationStatus.reconciling = true
is_unresolved _ = false

abbrev pub is_in_dispatch : ToolOperationStatus → Bool
is_in_dispatch ToolOperationStatus.dispatching = true
is_in_dispatch _ = false

-- `find(.. == Dispatching)` and the transition of what it finds to Ambiguous.
unfoldable pub abandon_tool :
    List DurableToolOperation → Result AgentLoopRuntimeError (List DurableToolOperation)
abandon_tool [] = ok []
abandon_tool (op ∷ ops) =
    if is_in_dispatch op.entry.status
    then elim (record_error (Tool.transition op.entry ToolOperationStatus.ambiguous)) [
      | ok r ↦ ok (record op { entry = r } ∷ ops)
      | err e ↦ err e
    ]
    else elim (abandon_tool ops) [ ok ops' ↦ ok (op ∷ ops') | err e ↦ err e ]

-- The last attempt, if it is dispatching, ends without a known outcome.
unfoldable pub abandon_attempt :
    List ModelAttemptRecord → Result AgentLoopRuntimeError (List ModelAttemptRecord)
abandon_attempt attempts = elim (last attempts) [
  | none ↦ ok attempts
  | some a ↦
      if is_dispatching a.status
      then elim (attempt_error
          (finish_without_response a ModelAttemptStatus.cancelled_ambiguous none)) [
            | ok a' ↦ ok (set_last attempts a')
            | err e ↦ err e
          ]
      else ok attempts
]

abbrev pub is_model_ambiguous : DurableEpisodeState → Bool
is_model_ambiguous s = elim (last s.attempts) [ none ↦ false | some a ↦ is_dispatching a.status ]

abbrev pub is_tool_ambiguous : DurableEpisodeState → Bool
is_tool_ambiguous s = any (λ op. is_unresolved op.entry.status) s.tool_operations

abbrev pub is_cancellation_pending : EpisodeStatus → Bool
is_cancellation_pending EpisodeStatus.cancellation_pending = true
is_cancellation_pending _ = false

abbrev pub is_suspended : EpisodeStatus → Bool
is_suspended EpisodeStatus.suspended = true
is_suspended _ = false

-- The state that a cancellation request leaves.
unfoldable pub cancel_state : DurableEpisodeState → Result AgentLoopRuntimeError DurableEpisodeState
unfolding abandon_attempt abandon_tool suspend_state transition_state
cancel_state s = elim (abandon_attempt s.attempts) [
  | err e ↦ err e
  | ok attempts ↦ elim (abandon_tool s.tool_operations) [
    | err e ↦ err e
    | ok ops ↦
        let s' = record s {
          cancellation_requested = true;
          attempts = attempts;
          tool_operations = ops;
        } in
        if is_model_ambiguous s || is_tool_ambiguous s
        then (if is_suspended s.episode.status then ok s' else suspend_state s')
        else (if is_cancellation_pending s.episode.status
            then ok s'
            else transition_state s' EpisodeStatus.cancellation_pending)
  ]
]

-- The status in which a suspended Episode goes on.
unfoldable pub reconciliation_target : DurableEpisodeState → EpisodeStatus
reconciliation_target s =
    if any (λ op. not (Tool.is_terminal op.entry.status)) s.tool_operations
    then EpisodeStatus.tool_work_pending
    else (if s.cancellation_requested
        then EpisodeStatus.cancellation_pending
        else EpisodeStatus.ready_for_model)

-- The state and status after the review of a turn that called no tool.
unfoldable pub review_state :
    (List ℕ → Sha256Digest)
    → DurableEpisodeState
    → Result AgentLoopRuntimeError (DurableEpisodeState × EpisodeStatus)
review_state sha s =
    if s.subtask_satisfied
    then ok (s, EpisodeStatus.succeeded)
    else (if ltb s.stop_feedback_turns s.policy.max_stop_feedback_turns
        then elim (last s.turns) [
          | none ↦ err missing_turn
          | some t ↦ ok (
            record s {
              stop_feedback_turns = s.stop_feedback_turns + 1;
              next_input_digest =
                  derive_model_continuation_input_digest sha t.entry.native_continuation_digest [];
            },
            EpisodeStatus.ready_for_model,
          )
        ]
        else ok (s, EpisodeStatus.incomplete))

module _ (store : EpisodeRepository) (episode_id : Text) where
  unfoldable pub transition_only :
      VersionedEpisodeState → EpisodeStatus → M store.Repo AgentLoopAdvance
  unfolding settle progress
  transition_only v next = settle store v.revision v.state next (progress next)

  unfoldable pub prepare_attempt : VersionedEpisodeState → M store.Repo AgentLoopAdvance
  unfolding transition_only checked_next
  prepare_attempt v =
      if v.state.cancellation_requested
      then transition_only v EpisodeStatus.cancellation_pending
      else (if is_spent v.state then transition_only v EpisodeStatus.budget_exhausted else do
        attempt_number ← lift (checked_next (length v.state.attempts))
        id ← lift (derived_model_attempt_id episode_id attempt_number)
        attempt ← lift (
            attempt_error (
              Attempt.new (record {
                id = id;
                episode_id = episode_id;
                attempt_number = attempt_number;
                request_digest = v.state.next_input_digest;
                resolved_model_digest = v.state.resolved_model_digest;
                deployment_digest = v.state.deployment_digest;
                model_profile_digest = v.state.model_profile_digest;
                request_budget_digest = v.state.request_budget_digest;
                predecessor_attempt_id = attempt_id (last v.state.attempts);
                predecessor_continuation_digest = continuation_of (last v.state.turns);
              })))
        settle store v.revision (record v.state { attempts = push v.state.attempts attempt })
            EpisodeStatus.model_attempt_pending (progressed EpisodeStatus.model_attempt_pending))

  unfoldable pub review_stop :
      (List ℕ → Sha256Digest) → VersionedEpisodeState → M store.Repo AgentLoopAdvance
  unfolding review_state settle progress
  review_stop sha v = do
    (s, next) ← lift (review_state sha v.state)
    settle store v.revision s next (progress next)

  -- The dispatch on the Episode's status; a terminal status has been answered before.
  unfoldable pub advance_from :
      (List ℕ → Sha256Digest)
      → Ports
      → VersionedEpisodeState
      → EpisodeStatus
      → M store.Repo AgentLoopAdvance
  unfolding transition_only prepare_attempt review_stop
  advance_from sha ports v EpisodeStatus.created = transition_only v EpisodeStatus.ready_for_model
  advance_from sha ports v EpisodeStatus.ready_for_model = prepare_attempt v
  advance_from sha ports v EpisodeStatus.model_attempt_pending =
      drive_model store sha episode_id ports v
  advance_from sha ports v EpisodeStatus.turn_recorded =
      plan_turn_tools store sha episode_id ports v
  advance_from sha ports v EpisodeStatus.tool_work_pending =
      drive_tools store sha episode_id ports v
  advance_from sha ports v EpisodeStatus.stop_review = review_stop sha v
  advance_from sha ports v EpisodeStatus.cancellation_pending =
      transition_only v EpisodeStatus.cancelled
  advance_from sha ports v EpisodeStatus.suspended = pure suspended
  advance_from sha ports v EpisodeStatus.suspension_requested = pure suspended
  advance_from sha ports v status = pure (terminal status)

  -- AgentLoopRunner::advance
  unfoldable pub advance : (List ℕ → Sha256Digest) → Ports → M store.Repo AgentLoopAdvance
  unfolding load advance_from
  advance sha ports = do v ← load store episode_id; advance_from sha ports v v.state.episode.status

  -- AgentLoopRunner::resume
  unfoldable pub resume : EpisodeAllowance → M store.Repo EpisodeStatus
  unfolding load save validate_recovered validate_policy
  resume granted = do
    v ← load store episode_id
    lift (validate_recovered v.state)
    let resumed_from = v.state.episode.status
    if not (is_terminal resumed_from) then pure resumed_from else do
      episode ← lift (map_err agent_record (Episode.resume v.state.episode))
      let policy = with_allowance v.state.policy granted
      lift (validate_policy policy)
      let grant : AllowanceGrant = record {
        resumed_from = resumed_from;
        previous = allowance v.state.policy;
        granted = granted;
      }
      save store v.revision (record v.state {
        episode = episode;
        policy = policy;
        grants = push v.state.grants grant;
        cancellation_requested = false;
      })
      pure resumed_from

  -- AgentLoopRunner::request_cancellation
  unfoldable pub request_cancellation : M store.Repo EpisodeStatus
  unfolding load save cancel_state
  request_cancellation = do
    v ← load store episode_id
    if is_terminal v.state.episode.status
        then pure v.state.episode.status
        else do s ← lift (cancel_state v.state); save store v.revision s; pure s.episode.status

  -- AgentLoopRunner::resume_reconciliation
  unfoldable pub resume_reconciliation : M store.Repo EpisodeStatus
  unfolding load save reconciliation_target transition_state
  resume_reconciliation = do
    v ← load store episode_id
    if not (is_suspended v.state.episode.status)
        then raise (invalid_durable_state "only a suspended episode can resume reconciliation")
        else do
          let next = reconciliation_target v.state
          s ← lift (transition_state v.state next)
          save store v.revision s
          pure next
