-- ===== src/Runtime/Step/Facts.antt =====
-- What the changes of an attempt and of an Episode's status say when they succeed.
use alloyport.Prelude.{
  ◌≡◌, ◌≢◌, Bool, true, false, Option, none, arith, ok, Result-cases, Bool-cases, inl, inr,
  if◌then◌else◌, ltb,
}
use alloyport.Digest.{Sha256Digest}
use alloyport.Agent.Episode
use alloyport.Agent.Episode.{EpisodeStatus, can_transition_to}
use alloyport.Model.Attempt
use alloyport.Model.Attempt.{
  ModelAttemptRecord, ModelAttemptStatus, ModelUsage, is_prepared, mark_dispatching,
  record_response, mark_decoded, mark_decode_failed, mark_response_failed, finish_without_response,
}
use alloyport.Runtime.State.{DurableEpisodeState}
use alloyport.Runtime.Advance.{transition_state, suspend_state}
use alloyport.Runtime.ModelTurn.{attempt_error, after_ambiguity}
use alloyport.Runtime.Step.{AfterAttempt, in_status}

pub transition_state_ok :
    (s s' : DurableEpisodeState) (next : EpisodeStatus)
    → transition_state s next ≡ ok s'
    → (s' ≡ in_status s next) × (can_transition_to s.episode.status next ≡ true)
unfolding transition_state Episode.transition
transition_state_ok s s' next e = elim (Bool-cases (can_transition_to s.episode.status next)) [
  | inl yes' ↦ (ground arith, yes')
  | inr no' ↦ ground arith
]

pub suspend_state_ok :
    (s s' : DurableEpisodeState)
    → suspend_state s ≡ ok s'
    → (s' ≡ in_status s EpisodeStatus.suspended)
      × (can_transition_to s.episode.status EpisodeStatus.suspension_requested ≡ true)
unfolding suspend_state
suspend_state_ok s s' e =
    elim (Result-cases (transition_state s EpisodeStatus.suspension_requested)) [
      | inl (t, e₁) ↦
          let first = transition_state_ok s t _ e₁ in
          let second = transition_state_ok t s' EpisodeStatus.suspended (ground arith) in
          (rw (second.0, first.0), first.1)
      | inr (x, e₁) ↦ ground arith
    ]

-- An attempt that was dispatched has ended with a status of its own.
abbrev pub Ended : ModelAttemptRecord → ModelAttemptRecord → Type 0
Ended a a' =
    (a'.spec ≡ a.spec)
    × (Attempt.is_terminal a'.status ≡ true)
    × (a'.status ≢ ModelAttemptStatus.decoded)

pub finish_ok :
    (a a' : ModelAttemptRecord) (t : ModelAttemptStatus) (d : Option Sha256Digest)
    → attempt_error (finish_without_response a t d) ≡ ok a'
    → Ended a a' × (a'.status ≡ t)
unfolding finish_without_response Attempt.is_terminal
finish_ok a a' t d e = ground arith

pub response_failed_ok :
    (a b a' : ModelAttemptRecord) (r : Sha256Digest) (d : Option Sha256Digest)
    → attempt_error (record_response a r none none) ≡ ok b
    → attempt_error (mark_response_failed b d) ≡ ok a'
    → Ended a a'
unfolding record_response mark_response_failed Attempt.is_terminal
response_failed_ok a b a' r d e₁ e₂ = ground arith

pub decode_failed_ok :
    (a b a' : ModelAttemptRecord) (r : Sha256Digest) (d : Option Sha256Digest)
    → attempt_error (record_response a r none none) ≡ ok b
    → attempt_error (mark_decode_failed b d) ≡ ok a'
    → Ended a a'
unfolding record_response mark_decode_failed Attempt.is_terminal
decode_failed_ok a b a' r d e₁ e₂ = ground arith

pub decoded_ok :
    (a b a' : ModelAttemptRecord) (r c : Sha256Digest) (u : Option ModelUsage)
    → attempt_error (record_response a r none u) ≡ ok b
    → attempt_error (mark_decoded b c) ≡ ok a'
    → (a'.spec ≡ a.spec) × (a'.status ≡ ModelAttemptStatus.decoded)
unfolding record_response mark_decoded
decoded_ok a b a' r c u e₁ e₂ = ground arith

pub dispatching_ok :
    (a a' : ModelAttemptRecord)
    → attempt_error (mark_dispatching a) ≡ ok a'
    → (a.status ≡ ModelAttemptStatus.prepared)
      × (a' ≡ record a { status = ModelAttemptStatus.dispatching })
unfolding mark_dispatching
dispatching_ok a a' e = elim (Bool-cases (is_prepared a.status)) [
  | inl ready ↦ (ground arith, ground arith)
  | inr other ↦ ground arith
]

AfterAttempt-if :
    (b : Bool)
    → AfterAttempt (if b then EpisodeStatus.budget_exhausted else EpisodeStatus.ready_for_model)
AfterAttempt-if true = AfterAttempt.over
AfterAttempt-if false = AfterAttempt.again

pub after_ambiguity-AfterAttempt : (t : DurableEpisodeState) → AfterAttempt (after_ambiguity t)
after_ambiguity-AfterAttempt t =
    AfterAttempt-if (ltb t.policy.max_ambiguous_model_attempts t.ambiguous_model_attempts)
