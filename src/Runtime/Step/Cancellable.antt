-- ===== src/Runtime/Step/Cancellable.antt =====
-- Which transitions `request_cancellation` makes, and whether one is refused.
use alloyport.Prelude.{
  ◌≡◌, ◌⊎◌, refl, Bool, true, false, none, List, last, set_last, arith, ok, Bool-cases,
  Option-cases, inl, inr, if◌then◌else◌,
}
use alloyport.Agent.Episode
use alloyport.Agent.Episode.{EpisodeStatus, is_terminal, is_resumable, can_transition_to}
use alloyport.Model.Attempt.{
  ModelAttemptRecord, ModelAttemptStatus, is_dispatching, finish_without_response,
}
use alloyport.Runtime.State.{DurableEpisodeState}
use alloyport.Runtime.Advance.{suspend_state, transition_state}
use alloyport.Runtime.ModelTurn.{attempt_error}
use alloyport.Runtime.Runner.{
  abandon_attempt, cancel_state, is_model_ambiguous, is_suspended, is_cancellation_pending,
}
use alloyport.Runtime.Step.{in_status}
use alloyport.Runtime.Step.Cancel.{is_uncertain}
use alloyport.Runtime.Step.Pending.{abandon_total}
use alloyport.Runtime.Step.Orderly.{IsOrderly, may_be_unresolved}

abandon_attempt_total :
    (attempts : List ModelAttemptRecord)
    → (left : List ModelAttemptRecord) × (abandon_attempt attempts ≡ ok left)
unfolding abandon_attempt finish_without_response
abandon_attempt_total attempts = elim (Option-cases (last attempts)) [
  | inl none' ↦ (attempts, rw (none', abandon_attempt) refl)
  | inr (a, newest) ↦ elim (Bool-cases (is_dispatching a.status)) [
    | inr other ↦ (attempts, rw (newest, other, abandon_attempt) refl)
    | inl sent ↦ (set_last attempts (finished a sent).0, rw (newest, sent, abandon_attempt) refl)
  ]
]
  where
    finished :
        (a : ModelAttemptRecord)
        → is_dispatching a.status ≡ true
        → (a' : ModelAttemptRecord) × (attempt_error
              (finish_without_response a ModelAttemptStatus.cancelled_ambiguous none)
            ≡ ok a')
    finished a sent = (
      record a { status = ModelAttemptStatus.cancelled_ambiguous; diagnostic_digest = none },
      ground arith,
    )

transition_total :
    (t : DurableEpisodeState) (next : EpisodeStatus)
    → can_transition_to t.episode.status next ≡ true
    → transition_state t next ≡ ok (in_status t next)
unfolding transition_state Episode.transition
transition_total t next e = rw (e, transition_state, Episode.transition) refl

suspend_total :
    (t : DurableEpisodeState)
    → can_transition_to t.episode.status EpisodeStatus.suspension_requested ≡ true
    → suspend_state t ≡ ok (in_status t EpisodeStatus.suspended)
unfolding suspend_state can_transition_to
suspend_total t e =
    rw (transition_total t EpisodeStatus.suspension_requested e, suspend_state)
      (transition_total (in_status t EpisodeStatus.suspension_requested) EpisodeStatus.suspended
        refl)

can_suspend :
    (status : EpisodeStatus)
    → is_suspended status ≡ false
    → (status ≡ EpisodeStatus.model_attempt_pending) ⊎ (may_be_unresolved status ≡ true)
    → can_transition_to status EpisodeStatus.suspension_requested ≡ true
unfolding can_transition_to
can_suspend status free at = ground arith

can_withdraw :
    (status : EpisodeStatus)
    → is_terminal status ≡ false
    → is_cancellation_pending status ≡ false
    → can_transition_to status EpisodeStatus.cancellation_pending ≡ true
unfolding can_transition_to is_terminal
can_withdraw status live free = ground arith

-- The status that ends the request can be reached.
ended_total :
    (t : DurableEpisodeState) (uncertain : Bool)
    → is_terminal t.episode.status ≡ false
    → (uncertain ≡ true
        → (t.episode.status ≡ EpisodeStatus.model_attempt_pending)
          ⊎ (may_be_unresolved t.episode.status ≡ true))
    → (s' : DurableEpisodeState) × ((if uncertain
          then (if is_suspended t.episode.status then ok t else suspend_state t)
          else (if is_cancellation_pending t.episode.status
              then ok t
              else transition_state t EpisodeStatus.cancellation_pending))
        ≡ ok s')
ended_total t true live at = elim (Bool-cases (is_suspended t.episode.status)) [
  | inl held ↦ (t, rw held refl)
  | inr free ↦ (
    in_status t EpisodeStatus.suspended,
    rw free (suspend_total t (can_suspend t.episode.status free (at refl))),
  )
]
ended_total t false live at = elim (Bool-cases (is_cancellation_pending t.episode.status)) [
  | inl held ↦ (t, rw held refl)
  | inr free ↦ (
    in_status t EpisodeStatus.cancellation_pending,
    rw free (
        transition_total t EpisodeStatus.cancellation_pending
          (can_withdraw t.episode.status live free)),
  )
]

pub cancel_total :
    (s : DurableEpisodeState)
    → IsOrderly s
    → is_terminal s.episode.status ≡ false
    → (s' : DurableEpisodeState) × (cancel_state s ≡ ok s')
unfolding cancel_state
cancel_total s h live =
    let (attempts, e₁) = abandon_attempt_total s.attempts in
    let (ops, e₂) = abandon_total s.tool_operations in
    let t : DurableEpisodeState = record s {
      cancellation_requested = true;
      attempts = attempts;
      tool_operations = ops;
    } in
    let (s', e) = ended_total t (is_uncertain s) live (λ unknown.
      elim (Bool-cases (is_model_ambiguous s)) [
        | inl flying ↦ inl (h.in_flight flying)
        | inr grounded' ↦ elim (Bool-cases (may_be_unresolved s.episode.status)) [
          | inl may ↦ inr may
          | inr may_not ↦ let clear = h.resolved may_not in ground arith
        ]
      ]) in
    (s', rw (e₁, e₂, cancel_state) e)
