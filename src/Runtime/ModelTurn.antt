-- ===== src/Runtime/ModelTurn.antt =====
-- crates/alloyport-core/src/agent_runtime_model.rs: driving one model request, and what to do when
-- the transport refuses it.
use alloyport.Prelude.{
  ℕ, suc, ◌+◌, ◌*◌, ◌%◌, ◌^◌, Bool, true, false, ◌||◌, ltb, Option, none, some, List, [], ◌∷◌, push,
  last, set_last, length, is_some, if◌then◌else◌, Result, ok_or, map_err,
}
use alloyport.Prelude.Text.{Text}
use alloyport.Digest.{Sha256Digest, digest_eq}
use alloyport.Agent.Episode.{EpisodeStatus}
use alloyport.Model.Attempt
use alloyport.Model.Attempt.{
  ModelAttemptRecord, ModelAttemptStatus, is_prepared, is_dispatching, mark_dispatching,
  record_response, mark_decoded, mark_decode_failed, mark_response_failed, finish_without_response,
}
use alloyport.Model.Gateway
use alloyport.Model.Gateway.{
  ModelTurnRequest, ModelGatewayOutcome, ModelTransportRetryHint, GatewayTurnExchange, TurnRecord,
}
use alloyport.Runtime.State.{
  DurableEpisodeState, DurableTurn, AgentLoopRuntimeError, model_attempt, turn_record,
  missing_model_attempt, invalid_durable_state, after_model_dispatch_commit,
  after_model_outcome_before_commit, after_turn_commit,
}
use alloyport.Runtime.Identity.{derived_turn_id, digest_semantic_turn}
use alloyport.Runtime.Repository.{EpisodeRepository, VersionedEpisodeState}
use alloyport.Runtime.Exec.{Ports, M, ◌>>=◌, ◌>>◌, pure, raise, lift, crash_if, call_model, save}
use alloyport.Runtime.Advance.{
  AgentLoopAdvance, progressed, progressed_after, terminal, progress, u32_max, checked_next,
  checked_u32, settle, suspend,
}

-- `attempts.iter().rev().find_map(diagnostic_digest)`: the last diagnostic on record.
last_diagnostic : List ModelAttemptRecord → Option Sha256Digest
last_diagnostic [] = none
last_diagnostic (a ∷ rest) = elim (last_diagnostic rest) [
  | none ↦ a.diagnostic_digest
  | some d ↦ some d
]

unfoldable pub repeats_the_last_failure : DurableEpisodeState → Option Sha256Digest → Bool
unfolding last_diagnostic
repeats_the_last_failure s none = false
repeats_the_last_failure s (some diagnostic) = elim (last_diagnostic s.attempts) [
  | none ↦ false
  | some previous ↦ digest_eq previous diagnostic
]

count_diagnostics : List ModelAttemptRecord → ℕ
count_diagnostics [] = 0
count_diagnostics (a ∷ rest) =
    let n = count_diagnostics rest in if is_some a.diagnostic_digest then suc n else n

-- A count beyond u32 is reported as the largest u32.
unfoldable pub failed_attempts : DurableEpisodeState → ℕ
unfolding count_diagnostics
failed_attempts s = let n = count_diagnostics s.attempts in if ltb u32_max n then u32_max else n

-- `250 << shift` with a shift of 7 at most stays far below 2^64.
unfoldable pub backoff_millis : ℕ → ℕ
backoff_millis failures =
    let shift = if ltb 7 failures then 7 else failures in
    let delay = 250 * 2 ^ shift in if ltb 30000 delay then 30000 else delay

unfoldable pub retry_delay : DurableEpisodeState → ModelTransportRetryHint → ℕ
unfolding backoff_millis failed_attempts
retry_delay s (ModelTransportRetryHint.after_millis millis) = millis
retry_delay s _ = backoff_millis (failed_attempts s)

unfoldable pub is_never : ModelTransportRetryHint → Bool
is_never ModelTransportRetryHint.never = true
is_never _ = false

-- The attempt at the end of the list is replaced.
abbrev pub with_attempt : DurableEpisodeState → ModelAttemptRecord → DurableEpisodeState
with_attempt s a = record s { attempts = set_last s.attempts a }

abbrev pub attempt_error :
    Result Attempt.ModelAttemptError ModelAttemptRecord
    → Result AgentLoopRuntimeError ModelAttemptRecord
attempt_error = map_err model_attempt

-- A dispatch whose outcome is unknown ends the attempt, and counts against the ambiguity limit.
abbrev pub after_ambiguity : DurableEpisodeState → EpisodeStatus
after_ambiguity s =
    if ltb s.policy.max_ambiguous_model_attempts s.ambiguous_model_attempts
    then EpisodeStatus.budget_exhausted
    else EpisodeStatus.ready_for_model

module _ (store : EpisodeRepository) where
  unfoldable pub after_failed_dispatch :
      ℕ → DurableEpisodeState → ModelTransportRetryHint → Bool → M store.Repo AgentLoopAdvance
  unfolding is_never settle retry_delay
  after_failed_dispatch revision s retry repeated =
      if is_never retry || repeated
      then settle store revision s EpisodeStatus.failed (terminal EpisodeStatus.failed)
      else settle store revision s EpisodeStatus.ready_for_model
          (progressed_after EpisodeStatus.ready_for_model (retry_delay s retry))

  -- The first branch of `drive_model`: the attempt was found dispatching after a crash.
  unfoldable pub recover_dispatch :
      VersionedEpisodeState → ModelAttemptRecord → M store.Repo AgentLoopAdvance
  unfolding settle suspend progress checked_next
  recover_dispatch v attempt = do
    let terminal =
        if v.state.cancellation_requested
        then ModelAttemptStatus.cancelled_ambiguous
        else ModelAttemptStatus.ambiguous
    attempt' ← lift (attempt_error (finish_without_response attempt terminal none))
    ambiguous ← lift (checked_next v.state.ambiguous_model_attempts)
    let s = record (with_attempt v.state attempt') { ambiguous_model_attempts = ambiguous }
    if s.cancellation_requested
        then suspend store v.revision s
        else settle store v.revision s (after_ambiguity s) (progress (after_ambiguity s))

  module _ (sha : List ℕ → Sha256Digest) (episode_id : Text) (ports : Ports) where
    unfoldable pub commit_turn :
        ModelTurnRequest
        → ℕ
        → DurableEpisodeState
        → ModelAttemptRecord
        → GatewayTurnExchange
        → M store.Repo AgentLoopAdvance
    unfolding settle crash_if
    commit_turn request revision s attempt exchange = do
      responded ← lift (
          attempt_error
            (record_response attempt exchange.raw_exchange_digest none exchange.turn.usage))
      decoded ← lift (attempt_error (mark_decoded responded exchange.native_continuation_digest))
      turn_id ← lift (derived_turn_id episode_id request.turn_index)
      tool_call_count ← lift (checked_u32 (length exchange.turn.tool_calls))
      entry ← lift (
          map_err turn_record (
            Gateway.new (record {
              id = turn_id;
              episode_id = episode_id;
              model_attempt_id = request.attempt_id;
              turn_index = request.turn_index;
              decoded_turn_digest = digest_semantic_turn sha exchange.turn;
              raw_exchange_digest = exchange.raw_exchange_digest;
              native_continuation_digest = exchange.native_continuation_digest;
              stop_reason = exchange.turn.stop_reason;
              tool_call_count = tool_call_count;
              usage = exchange.turn.usage;
            })))
      let turn : DurableTurn = record { entry = entry; semantic_turn = exchange.turn }
      report ←
          settle store revision (record (with_attempt s decoded) { turns = push s.turns turn })
            EpisodeStatus.turn_recorded (progressed EpisodeStatus.turn_recorded)
      crash_if ports after_turn_commit
      pure report

    -- The branches of `drive_model` on the outcome of the request.
    unfoldable pub commit_outcome :
        ModelTurnRequest
        → ℕ
        → DurableEpisodeState
        → ModelAttemptRecord
        → ModelGatewayOutcome
        → M store.Repo AgentLoopAdvance
    unfolding commit_turn settle progress
    commit_outcome request revision s attempt (ModelGatewayOutcome.turn exchange) =
        commit_turn request revision s attempt exchange
    commit_outcome request revision s attempt
          (ModelGatewayOutcome.confirmed_not_sent diagnostic retry) =
        do
          let repeated = repeats_the_last_failure s diagnostic
          attempt' ← lift (
              attempt_error
                (finish_without_response attempt ModelAttemptStatus.confirmed_not_sent diagnostic))
          after_failed_dispatch revision (with_attempt s attempt') retry repeated
    commit_outcome request revision s attempt
          (ModelGatewayOutcome.rejected response diagnostic retry) =
        do
          let repeated = repeats_the_last_failure s diagnostic
          responded ← lift (attempt_error (record_response attempt response none none))
          attempt' ← lift (attempt_error (mark_response_failed responded diagnostic))
          after_failed_dispatch revision (with_attempt s attempt') retry repeated
    commit_outcome request revision s attempt
          (ModelGatewayOutcome.decode_failed response diagnostic) =
        do
          responded ← lift (attempt_error (record_response attempt response none none))
          attempt' ← lift (attempt_error (mark_decode_failed responded diagnostic))
          settle store revision (with_attempt s attempt') EpisodeStatus.failed
              (terminal EpisodeStatus.failed)
    commit_outcome request revision s attempt (ModelGatewayOutcome.ambiguous diagnostic retry) = do
      attempt' ←
          lift (
            attempt_error (finish_without_response attempt ModelAttemptStatus.ambiguous diagnostic))
      let s' = record (with_attempt s attempt') {
        ambiguous_model_attempts = (s.ambiguous_model_attempts + 1) % 2 ^ 32;
      }
      settle store revision s' (after_ambiguity s') (progress (after_ambiguity s'))

    -- The request is committed as dispatching before the gateway is called.
    unfoldable pub dispatch :
        VersionedEpisodeState → ModelAttemptRecord → M store.Repo AgentLoopAdvance
    unfolding commit_outcome checked_next crash_if call_model save
    dispatch v attempt = do
      turn_index ← lift (checked_next (length v.state.turns))
      attempt' ← lift (attempt_error (mark_dispatching attempt))
      let request : ModelTurnRequest = record {
        attempt_id = attempt'.id;
        episode_id = episode_id;
        turn_index = turn_index;
        input_digest = v.state.next_input_digest;
      }
      let s = with_attempt v.state attempt'
      revision ← save store v.revision s
      crash_if ports after_model_dispatch_commit
      outcome ← call_model ports request
      crash_if ports after_model_outcome_before_commit
      commit_outcome request revision s attempt' outcome

    unfoldable pub drive_model : VersionedEpisodeState → M store.Repo AgentLoopAdvance
    unfolding dispatch recover_dispatch
    drive_model v = do
      attempt ← lift (ok_or (last v.state.attempts) missing_model_attempt)
      if is_dispatching attempt.status
          then recover_dispatch v attempt
          else (if is_prepared attempt.status
              then dispatch v attempt
              else raise
                  (invalid_durable_state "pending episode has no prepared/dispatching attempt"))
