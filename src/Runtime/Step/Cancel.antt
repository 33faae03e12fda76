-- ===== src/Runtime/Step/Cancel.antt =====
-- What a cancellation request leaves of the attempts and of the tool operations.
use alloyport.Prelude.{
  ◌≡◌, refl, ◌||◌, Bool, true, false, List, arith, ok, Result-cases, Bool-cases, inl, inr,
  if◌then◌else◌,
}
use alloyport.Agent.Episode.{EpisodeStatus}
use alloyport.Model.Attempt.{ModelAttemptRecord}
use alloyport.Runtime.State.{DurableEpisodeState, DurableToolOperation}
use alloyport.Runtime.Advance.{suspend_state, transition_state}
use alloyport.Runtime.Runner.{
  abandon_attempt, abandon_tool, cancel_state, is_model_ambiguous, is_tool_ambiguous, is_suspended,
  is_cancellation_pending,
}
use alloyport.Runtime.Step.{in_status}
use alloyport.Runtime.Step.Facts.{transition_state_ok, suspend_state_ok}

abbrev pub is_uncertain : DurableEpisodeState → Bool
is_uncertain s = is_model_ambiguous s || is_tool_ambiguous s

-- The state that is left, and its status: suspended exactly where an effect is not known.
pub data Withdrawn (s : DurableEpisodeState) : DurableEpisodeState → Type 0 where
  withdrawn :
      (attempts : List ModelAttemptRecord) (ops : List DurableToolOperation) (next : EpisodeStatus)
      → abandon_attempt s.attempts ≡ ok attempts
      → abandon_tool s.tool_operations ≡ ok ops
      → next
        ≡ (if is_uncertain s then EpisodeStatus.suspended else EpisodeStatus.cancellation_pending)
      → Withdrawn s (
          in_status
            (record s { cancellation_requested = true; attempts = attempts; tool_operations = ops })
            next)

-- The status by which `cancel_state` ends, of the state `t` with the calls abandoned.
ended_ok :
    (t s' : DurableEpisodeState) (uncertain : Bool)
    → (if uncertain
        then (if is_suspended t.episode.status then ok t else suspend_state t)
        else (if is_cancellation_pending t.episode.status
            then ok t
            else transition_state t EpisodeStatus.cancellation_pending))
      ≡ ok s'
    → s'
      ≡ in_status t
          (if uncertain then EpisodeStatus.suspended else EpisodeStatus.cancellation_pending)
ended_ok t s' true e = elim (Bool-cases (is_suspended t.episode.status)) [
  | inl held ↦ let here : t.episode.status ≡ EpisodeStatus.suspended = ground arith in ground arith
  | inr free ↦ (suspend_state_ok t s' (ground arith)).0
]
ended_ok t s' false e = elim (Bool-cases (is_cancellation_pending t.episode.status)) [
  | inl held ↦
      let here : t.episode.status ≡ EpisodeStatus.cancellation_pending = ground arith in
      ground arith
  | inr free ↦ (transition_state_ok t s' EpisodeStatus.cancellation_pending (ground arith)).0
]

pub cancel_state_ok : (s s' : DurableEpisodeState) → cancel_state s ≡ ok s' → Withdrawn s s'
unfolding cancel_state
cancel_state_ok s s' e = elim (Result-cases (abandon_attempt s.attempts)) [
  | inr (x, e₁) ↦ ground arith
  | inl (attempts, e₁) ↦ elim (Result-cases (abandon_tool s.tool_operations)) [
    | inr (x, e₂) ↦ ground arith
    | inl (ops, e₂) ↦
        let t : DurableEpisodeState = record s {
          cancellation_requested = true;
          attempts = attempts;
          tool_operations = ops;
        } in
        let same = ended_ok t s' (is_uncertain s) (rw (e₁, e₂, cancel_state) at e) in
        rw same (withdrawn attempts ops _ e₁ e₂ refl)
  ]
]

pub Withdrawn-status :
    (s s' : DurableEpisodeState)
    → Withdrawn s s'
    → (s'.cancellation_requested ≡ true)
      × (s'.episode.status ≡ (
          if is_uncertain s then EpisodeStatus.suspended else EpisodeStatus.cancellation_pending))
Withdrawn-status s _ (withdrawn attempts ops next e₁ e₂ e) = (refl, e)
