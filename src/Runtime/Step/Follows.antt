-- ===== src/Runtime/Step/Follows.antt =====
-- The four operations of `AgentLoopRunner` (crates/alloyport-core/src/agent_runtime.rs) against the step
-- relation.
use alloyport.Prelude.{
  ℕ, suc, ◌≡◌, ◌⊎◌, refl, not, true, false, List, [], last, arith, ok, map_err, Bool-cases,
  Option-cases, ◌+◌, inl, inr, length, ltb,
}
use alloyport.Prelude.Text.{Text}
use alloyport.Digest.{Sha256Digest}
use alloyport.Agent.Episode
use alloyport.Agent.Episode.{EpisodeStatus, AgentEpisodeRecord, is_terminal, is_resumable}
use alloyport.Model.Attempt
use alloyport.Model.Attempt.{ModelAttemptRecord, ModelAttemptSpec, ModelAttemptStatus}
use alloyport.Runtime.Policy.{AgentLoopPolicy, EpisodeAllowance, is_invalid, with_allowance}
use alloyport.Runtime.State.{DurableEpisodeState, agent_record, validate_policy}
use alloyport.Runtime.Identity.{derive_model_continuation_input_digest}
use alloyport.Runtime.Repository.{EpisodeRepository, VersionedEpisodeState}
use alloyport.Runtime.Exec.{Ports}
use alloyport.Runtime.Advance.{checked_next, progress}
use alloyport.Runtime.ModelTurn.{attempt_error}
use alloyport.Runtime.Runner.{
  is_spent, is_suspended, review_state, transition_only, prepare_attempt, review_stop, advance_from,
  advance, resume, request_cancellation, resume_reconciliation, reconciliation_target,
}
use alloyport.Runtime.Step.{Step, Move, in_status}
use alloyport.Runtime.Step.Facts.{transition_state_ok}
use alloyport.Runtime.Step.Keeps.{
  Keeps, Keeps-pure, Keeps-raise, Keeps-bind, Keeps-lift, Keeps-if, Keeps-load, Keeps-save,
}
use alloyport.Runtime.Step.Model.{Keeps-settle, Keeps-drive_model}
use alloyport.Runtime.Step.Tools.{Keeps-plan_turn_tools, Keeps-drive_tools}

attempt_new_ok :
    (spec : ModelAttemptSpec) (a : ModelAttemptRecord)
    → attempt_error (Attempt.new spec) ≡ ok a
    → (a.spec ≡ spec) × (a.status ≡ ModelAttemptStatus.prepared)
unfolding Attempt.new
attempt_new_ok spec a e = ground arith

checked_next_ok : (n m : ℕ) → checked_next n ≡ ok m → m ≡ suc n
unfolding checked_next
checked_next_ok n m e = ground arith

resume_ok :
    (e e' : AgentEpisodeRecord)
    → map_err agent_record (Episode.resume e) ≡ ok e'
    → (is_resumable e.status ≡ true) × (e' ≡ record e { status = EpisodeStatus.ready_for_model })
unfolding Episode.resume
resume_ok e e' h = elim (Bool-cases (is_resumable e.status)) [
  | inl yes' ↦ (yes', ground arith)
  | inr no' ↦ ground arith
]

validate_policy_ok :
    (p : AgentLoopPolicy) (u : Unit) → validate_policy p ≡ ok u → is_invalid p ≡ false
unfolding validate_policy
validate_policy_ok p u e = ground arith

-- The three results of the review.
review_state_ok :
    (sha : List ℕ → Sha256Digest) (s t : DurableEpisodeState) (next : EpisodeStatus)
    → review_state sha s ≡ ok (t, next)
    → ((next ≡ EpisodeStatus.succeeded) × (s.subtask_satisfied ≡ true) × (t ≡ s))
      ⊎ (((next ≡ EpisodeStatus.incomplete) × (s.subtask_satisfied ≡ false) × (t ≡ s))
          ⊎ ((next ≡ EpisodeStatus.ready_for_model)
              × (s.subtask_satisfied ≡ false)
              × (ltb s.stop_feedback_turns s.policy.max_stop_feedback_turns ≡ true)
              × ((input : Sha256Digest) × (t ≡ record s {
                stop_feedback_turns = s.stop_feedback_turns + 1;
                next_input_digest = input;
              }))))
unfolding review_state
review_state_ok sha s t next e = elim (Bool-cases s.subtask_satisfied) [
  | inl yes' ↦ inl (ground arith, yes', ground arith)
  | inr no' ↦ elim (Bool-cases (ltb s.stop_feedback_turns s.policy.max_stop_feedback_turns)) [
    | inr spent ↦ inr (inl (ground arith, no', ground arith))
    | inl within ↦ elim (Option-cases (last s.turns)) [
      | inl none' ↦ ground arith
      | inr (turn, e') ↦ inr (
          inr (
            ground arith,
            no',
            within,
            (
              derive_model_continuation_input_digest sha turn.entry.native_continuation_digest [],
              ground arith,
            ),
          ))
    ]
  ]
]

module _ (store : EpisodeRepository) (P : DurableEpisodeState → Type 0) (episode_id : Text)
    (closed : (s s' : DurableEpisodeState) → Step episode_id s s' → P s → P s') where
  module _ (v : VersionedEpisodeState) (p : P v.state) where
    Keeps-transition_only :
        (from next : EpisodeStatus)
        → v.state.episode.status ≡ from
        → Move v.state from next
        → Keeps store P (transition_only store episode_id v next)
    unfolding transition_only
    Keeps-transition_only from next here m =
        Keeps-settle store P episode_id closed v.revision _ _ _
          (closed v.state _ (Step.move v.state from next here m) p)

    Keeps-prepare_attempt :
        v.state.episode.status ≡ EpisodeStatus.ready_for_model
        → Keeps store P (prepare_attempt store episode_id v)
    unfolding prepare_attempt
    Keeps-prepare_attempt ready =
        Keeps-if store P v.state.cancellation_requested _ _
          (λ asked. Keeps-transition_only _ _ ready (Move.withdraw asked))
          λ wanted.
            Keeps-if store P (is_spent v.state) _ _
              (λ spent. Keeps-transition_only _ _ ready (Move.spend spent))
              λ within. Keeps-lift store P _ _ λ number counted.
                Keeps-lift store P _ _ λ id derived. Keeps-lift store P _ _ λ a made.
                  let (same, fresh) = attempt_new_ok _ a made in
                  let next = checked_next_ok (length v.state.attempts) number counted in
                  Keeps-settle store P episode_id closed v.revision _ _ _ (
                    closed v.state _
                      (Step.prepare v.state a ready wanted within fresh (rw same next)
                        (rw same derived))
                      p)

    Keeps-review_stop :
        (sha : List ℕ → Sha256Digest)
        → v.state.episode.status ≡ EpisodeStatus.stop_review
        → Keeps store P (review_stop store episode_id sha v)
    unfolding review_stop
    Keeps-review_stop sha review = Keeps-lift store P _ _ λ (s, next) e.
        Keeps-settle store P episode_id closed v.revision s next (progress next) (reviewed s next e)
      where
        reviewed :
            (s : DurableEpisodeState) (next : EpisodeStatus)
            → review_state sha v.state ≡ ok (s, next)
            → P (in_status s next)
        reviewed s next e = elim (review_state_ok sha v.state s next e) [
          | inl (here, yes', same) ↦
              rw (here, same)
                (closed v.state _ (Step.move v.state _ _ review (Move.succeed yes')) p)
          | inr (inl (here, no', same)) ↦
              rw (here, same) (closed v.state _ (Step.move v.state _ _ review (Move.give_up no')) p)
          | inr (inr (here, no', within, (input, same))) ↦
              rw (here, same) (closed v.state _ (Step.push_back v.state input review no' within) p)
        ]

    Keeps-advance_from :
        (sha : List ℕ → Sha256Digest) (ports : Ports) (status : EpisodeStatus)
        → v.state.episode.status ≡ status
        → Keeps store P (advance_from store episode_id sha ports v status)
    unfolding advance_from
    Keeps-advance_from sha ports EpisodeStatus.created e = Keeps-transition_only _ _ e Move.start
    Keeps-advance_from sha ports EpisodeStatus.ready_for_model e = Keeps-prepare_attempt e
    Keeps-advance_from sha ports EpisodeStatus.model_attempt_pending e =
        Keeps-drive_model store P episode_id closed sha ports v p e
    Keeps-advance_from sha ports EpisodeStatus.turn_recorded e =
        Keeps-plan_turn_tools store P episode_id closed sha ports v p e
    Keeps-advance_from sha ports EpisodeStatus.tool_work_pending e =
        Keeps-drive_tools store P episode_id closed sha ports v p e
    Keeps-advance_from sha ports EpisodeStatus.stop_review e = Keeps-review_stop sha e
    Keeps-advance_from sha ports EpisodeStatus.cancellation_pending e =
        Keeps-transition_only _ _ e Move.cancel
    Keeps-advance_from sha ports EpisodeStatus.suspended e = Keeps-pure store P _
    Keeps-advance_from sha ports EpisodeStatus.suspension_requested e = Keeps-pure store P _
    Keeps-advance_from sha ports EpisodeStatus.cancelled e = Keeps-pure store P _
    Keeps-advance_from sha ports EpisodeStatus.failed e = Keeps-pure store P _
    Keeps-advance_from sha ports EpisodeStatus.budget_exhausted e = Keeps-pure store P _
    Keeps-advance_from sha ports EpisodeStatus.incomplete e = Keeps-pure store P _
    Keeps-advance_from sha ports EpisodeStatus.succeeded e = Keeps-pure store P _

  pub Keeps-advance :
      (sha : List ℕ → Sha256Digest) (ports : Ports)
      → Keeps store P (advance store episode_id sha ports)
  unfolding advance
  Keeps-advance sha ports =
      Keeps-load store P _ _ λ v p. Keeps-advance_from v p sha ports v.state.episode.status refl

  pub Keeps-resume : (granted : EpisodeAllowance) → Keeps store P (resume store episode_id granted)
  unfolding resume
  Keeps-resume granted = Keeps-load store P _ _ λ v p. Keeps-lift store P _ _ λ _ _.
      Keeps-if store P (not (is_terminal v.state.episode.status)) _ _ (λ _. Keeps-pure store P _)
        λ _. Keeps-lift store P _ _ λ episode resumed. Keeps-lift store P _ _ λ u valid.
          let (from, same) = resume_ok v.state.episode episode resumed in
          Keeps-bind store P _ _
            (Keeps-save store P v.revision _ (
              rw same (
                closed v.state _
                  (Step.reopen v.state granted _ from
                    (validate_policy_ok (with_allowance v.state.policy granted) u valid))
                  p)))
            λ _. Keeps-pure store P _

  pub Keeps-request_cancellation : Keeps store P (request_cancellation store episode_id)
  unfolding request_cancellation
  Keeps-request_cancellation = Keeps-load store P _ _ λ v p.
      Keeps-if store P (is_terminal v.state.episode.status) _ _ (λ _. Keeps-pure store P _)
        λ open'. Keeps-lift store P _ _ λ s e.
          Keeps-bind store P _ _
            (Keeps-save store P v.revision s
              (closed v.state s (Step.request_cancel v.state s open' e) p))
            λ _. Keeps-pure store P _

  pub Keeps-resume_reconciliation : Keeps store P (resume_reconciliation store episode_id)
  unfolding resume_reconciliation
  Keeps-resume_reconciliation = Keeps-load store P _ _ λ v p.
      Keeps-if store P (not (is_suspended v.state.episode.status)) _ _ (λ _. Keeps-raise store P _)
        λ held. Keeps-lift store P _ _ λ s e.
          Keeps-bind store P _ _
            (Keeps-save store P v.revision s (
              rw (transition_state_ok v.state s (reconciliation_target v.state) e).0
                (closed v.state _ (Step.reconcile v.state (ground arith)) p)))
            λ _. Keeps-pure store P _
