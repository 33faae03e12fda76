-- ===== src/Runtime/Step.antt =====
-- The transition system of a durable Episode: what each commit of the runner may change, as a step
-- relation on persisted states. `Runtime/Step/Follows` relates
-- the runner to it.
pub mod Keeps
pub mod Facts
pub mod Model
pub mod Tools
pub mod Follows
pub mod Cancel
pub mod Trust
pub mod Identity
pub mod Attempts
pub mod Pending
pub mod Orderly
pub mod Cancellable
pub mod Budget
use alloyport.Prelude.{
  ℕ, suc, ◌+◌, ◌≡◌, ◌≢◌, ◌⊎◌, Bool, true, false, ◌||◌, ltb, Option, none, some, List, [], ◌∷◌, ◌++◌,
  push, last, set_last, any, All, length, Result, ok,
}
use alloyport.Prelude.Text.{Text}
use alloyport.Digest.{Sha256Digest}
use alloyport.Agent.Episode.{EpisodeStatus, is_terminal, is_resumable}
use alloyport.Agent.Tool
use alloyport.Agent.Tool.{ToolOperationRecord, ToolOperationStatus}
use alloyport.Model.Attempt
use alloyport.Model.Attempt.{ModelAttemptRecord, ModelAttemptStatus}
use alloyport.Runtime.Policy.{
  EpisodeAllowance, AllowanceGrant, AgentLoopPolicy, with_allowance, is_invalid,
}
use alloyport.Runtime.State.{DurableEpisodeState, DurableTurn, DurableToolOperation}
use alloyport.Runtime.Identity.{derived_model_attempt_id}
use alloyport.Runtime.ModelTurn.{with_attempt}
use alloyport.Runtime.ToolTurn.{first_pending, set_entry, with_entry, is_reconciling, is_verified}
use alloyport.Runtime.Runner.{is_spent, cancel_state, reconciliation_target}

abbrev pub in_status : DurableEpisodeState → EpisodeStatus → DurableEpisodeState
in_status s next = record s { episode = record s.episode { status = next } }

-- The status moves that change nothing else: the start, the ends by budget, cancellation and stop
-- review, and the passage of a turn with no usable tool calls to the review.
pub data Move (s : DurableEpisodeState) : EpisodeStatus → EpisodeStatus → Type 0 where
  start : Move s EpisodeStatus.created EpisodeStatus.ready_for_model
  spend : is_spent s ≡ true → Move s EpisodeStatus.ready_for_model EpisodeStatus.budget_exhausted
  withdraw :
      s.cancellation_requested ≡ true
      → Move s EpisodeStatus.ready_for_model EpisodeStatus.cancellation_pending
  review : Move s EpisodeStatus.turn_recorded EpisodeStatus.stop_review
  overspend :
      (n : ℕ)
      → ltb s.policy.max_total_tool_operations (length s.tool_operations + n) ≡ true
      → Move s EpisodeStatus.turn_recorded EpisodeStatus.budget_exhausted
  succeed : s.subtask_satisfied ≡ true → Move s EpisodeStatus.stop_review EpisodeStatus.succeeded
  give_up : s.subtask_satisfied ≡ false → Move s EpisodeStatus.stop_review EpisodeStatus.incomplete
  cancel : Move s EpisodeStatus.cancellation_pending EpisodeStatus.cancelled

-- Where an attempt without a usable turn leaves the Episode.
pub data AfterAttempt : EpisodeStatus → Type 0 where
  again : AfterAttempt EpisodeStatus.ready_for_model
  over : AfterAttempt EpisodeStatus.budget_exhausted
  fail : AfterAttempt EpisodeStatus.failed

-- A planned operation waits for dispatch, or is already rejected.
abbrev pub is_planned : ToolOperationStatus → Bool
is_planned ToolOperationStatus.requested = true
is_planned ToolOperationStatus.rejected_as_invalid = true
is_planned _ = false

-- The statuses in which an operation stands while the gateway is asked.
abbrev pub is_active : ToolOperationStatus → Bool
is_active ToolOperationStatus.dispatching = true
is_active ToolOperationStatus.reconciling = true
is_active ToolOperationStatus.running = true
is_active _ = false

pub data Step (episode_id : Text) : DurableEpisodeState → DurableEpisodeState → Type 0 where
  move :
      (s : DurableEpisodeState) (from next : EpisodeStatus)
      → s.episode.status ≡ from
      → Move s from next
      → Step episode_id s (in_status s next)
  -- A prepared attempt is added, numbered by its position.
  prepare :
      (s : DurableEpisodeState) (a : ModelAttemptRecord)
      → s.episode.status ≡ EpisodeStatus.ready_for_model
      → s.cancellation_requested ≡ false
      → is_spent s ≡ false
      → a.status ≡ ModelAttemptStatus.prepared
      → a.attempt_number ≡ suc (length s.attempts)
      → derived_model_attempt_id episode_id a.attempt_number ≡ ok a.id
      → Step episode_id s (
          in_status (record s { attempts = push s.attempts a }) EpisodeStatus.model_attempt_pending)
  -- The prepared attempt is marked before the gateway is asked.
  dispatch :
      (s : DurableEpisodeState) (a : ModelAttemptRecord)
      → s.episode.status ≡ EpisodeStatus.model_attempt_pending
      → last s.attempts ≡ some a
      → a.status ≡ ModelAttemptStatus.prepared
      → Step episode_id s (with_attempt s (record a { status = ModelAttemptStatus.dispatching }))
  -- A dispatched attempt ends without a usable turn.
  conclude :
      (s : DurableEpisodeState) (a a' : ModelAttemptRecord) (k : ℕ) (next : EpisodeStatus)
      → s.episode.status ≡ EpisodeStatus.model_attempt_pending
      → last s.attempts ≡ some a
      → a.status ≡ ModelAttemptStatus.dispatching
      → a'.spec ≡ a.spec
      → Attempt.is_terminal a'.status ≡ true
      → a'.status ≢ ModelAttemptStatus.decoded
      → AfterAttempt next
      → Step episode_id s
          (in_status (record (with_attempt s a') { ambiguous_model_attempts = k }) next)
  -- The same under a cancellation request.
  interrupt :
      (s : DurableEpisodeState) (a a' : ModelAttemptRecord) (k : ℕ)
      → s.episode.status ≡ EpisodeStatus.model_attempt_pending
      → last s.attempts ≡ some a
      → a.status ≡ ModelAttemptStatus.dispatching
      → a'.spec ≡ a.spec
      → a'.status ≡ ModelAttemptStatus.cancelled_ambiguous
      → s.cancellation_requested ≡ true
      → Step episode_id s (
          in_status
            (record (with_attempt s a') { ambiguous_model_attempts = k })
            EpisodeStatus.suspended)
  -- A dispatched attempt is decoded into a turn.
  record_turn :
      (s : DurableEpisodeState) (a a' : ModelAttemptRecord) (t : DurableTurn)
      → s.episode.status ≡ EpisodeStatus.model_attempt_pending
      → last s.attempts ≡ some a
      → a.status ≡ ModelAttemptStatus.dispatching
      → a'.spec ≡ a.spec
      → a'.status ≡ ModelAttemptStatus.decoded
      → Step episode_id s (
          in_status
            (record (with_attempt s a') { turns = push s.turns t })
            EpisodeStatus.turn_recorded)
  plan :
      (s : DurableEpisodeState) (t : DurableTurn) (ops : List DurableToolOperation)
      → s.episode.status ≡ EpisodeStatus.turn_recorded
      → last s.turns ≡ some t
      → All (λ op. is_planned op.entry.status ≡ true) ops
      → length ops ≡ length t.semantic_turn.tool_calls
      → ltb s.policy.max_total_tool_operations (length s.tool_operations + length ops) ≡ false
      → ltb s.policy.max_tool_calls_per_turn (length ops) ≡ false
      → Step episode_id s (
          in_status
            (record s { tool_operations = s.tool_operations ++ ops })
            EpisodeStatus.tool_work_pending)
  -- All operations have ended: their results make the next input.
  collect :
      (s : DurableEpisodeState) (input : Sha256Digest)
      → s.episode.status ≡ EpisodeStatus.tool_work_pending
      → first_pending s.tool_operations ≡ none
      → Step episode_id s
          (in_status (record s { next_input_digest = input }) EpisodeStatus.ready_for_model)
  -- The first pending operation is marked before the gateway is asked.
  engage :
      (s : DurableEpisodeState) (i : ℕ) (op : DurableToolOperation) (r : ToolOperationRecord)
      → s.episode.status ≡ EpisodeStatus.tool_work_pending
      → first_pending s.tool_operations ≡ some (i, op)
      → r.spec ≡ op.entry.spec
      → is_active r.status ≡ true
      → Step episode_id s (with_entry s i r)
  -- An active operation ends with a result; only one of verified authority satisfies the subtask.
  complete :
      (s : DurableEpisodeState) (i : ℕ) (op : DurableToolOperation) (r : ToolOperationRecord)
      (satisfies : Bool)
      → s.episode.status ≡ EpisodeStatus.tool_work_pending
      → first_pending s.tool_operations ≡ some (i, op)
      → is_active op.entry.status ≡ true
      → r.spec ≡ op.entry.spec
      → Tool.is_terminal r.status ≡ true
      → (satisfies ≡ true → is_verified op.entry.result_authority ≡ true)
      → Step episode_id s
          (record (with_entry s i r) { subtask_satisfied = s.subtask_satisfied || satisfies })
  wait :
      (s : DurableEpisodeState) (i : ℕ) (op : DurableToolOperation) (r : ToolOperationRecord)
      → s.episode.status ≡ EpisodeStatus.tool_work_pending
      → first_pending s.tool_operations ≡ some (i, op)
      → is_active op.entry.status ≡ true
      → r.spec ≡ op.entry.spec
      → r.status ≡ ToolOperationStatus.running
      → Step episode_id s (with_entry s i r)
  -- The effect of an active operation is not known.
  lose :
      (s : DurableEpisodeState) (i : ℕ) (op : DurableToolOperation) (r : ToolOperationRecord)
      → s.episode.status ≡ EpisodeStatus.tool_work_pending
      → first_pending s.tool_operations ≡ some (i, op)
      → is_active op.entry.status ≡ true
      → r.spec ≡ op.entry.spec
      → (r.status ≡ ToolOperationStatus.ambiguous) ⊎ (r.status ≡ ToolOperationStatus.reconciling)
      → Step episode_id s (in_status (with_entry s i r) EpisodeStatus.suspended)
  -- The model is asked to go on after it stopped without satisfying its subtask.
  push_back :
      (s : DurableEpisodeState) (input : Sha256Digest)
      → s.episode.status ≡ EpisodeStatus.stop_review
      → s.subtask_satisfied ≡ false
      → ltb s.stop_feedback_turns s.policy.max_stop_feedback_turns ≡ true
      → Step episode_id s (
          in_status
            (record s {
              stop_feedback_turns = s.stop_feedback_turns + 1;
              next_input_digest = input;
            })
            EpisodeStatus.ready_for_model)
  -- `resume` reopens an Episode under a new allowance.
  reopen :
      (s : DurableEpisodeState) (granted : EpisodeAllowance) (grant : AllowanceGrant)
      → is_resumable s.episode.status ≡ true
      → is_invalid (with_allowance s.policy granted) ≡ false
      → Step episode_id s (
          in_status
            (record s {
              policy = with_allowance s.policy granted;
              grants = push s.grants grant;
              cancellation_requested = false;
            })
            EpisodeStatus.ready_for_model)
  request_cancel :
      (s s' : DurableEpisodeState)
      → is_terminal s.episode.status ≡ false
      → cancel_state s ≡ ok s'
      → Step episode_id s s'
  reconcile :
      (s : DurableEpisodeState)
      → s.episode.status ≡ EpisodeStatus.suspended
      → Step episode_id s (in_status s (reconciliation_target s))
