-- ===== src/Runtime/Step/Model.antt =====
-- `drive_model` (crates/alloyport-core/src/agent_runtime_model.rs) against the step relation.
use alloyport.Prelude.{
  ℕ, ◌+◌, ◌%◌, ◌^◌, ◌≡◌, refl, ◌||◌, Bool, Option, none, some, List, last, last-set_last, arith, ok,
  ok_or,
}
use alloyport.Prelude.Text.{Text}
use alloyport.Digest.{Sha256Digest}
use alloyport.Agent.Episode.{EpisodeStatus}
use alloyport.Model.Attempt.{ModelAttemptRecord, ModelAttemptStatus, is_prepared, is_dispatching}
use alloyport.Model.Gateway.{
  ModelTurnRequest, ModelGatewayOutcome, ModelTransportRetryHint, GatewayTurnExchange,
}
use alloyport.Runtime.State.{DurableEpisodeState, missing_model_attempt}
use alloyport.Runtime.Repository.{EpisodeRepository, VersionedEpisodeState}
use alloyport.Runtime.Exec.{Ports}
use alloyport.Runtime.Advance.{AgentLoopAdvance, settle, suspend}
use alloyport.Runtime.ModelTurn.{
  with_attempt, after_failed_dispatch, recover_dispatch, commit_turn, commit_outcome, dispatch,
  drive_model, is_never,
}
use alloyport.Runtime.Step.{Step, AfterAttempt, in_status}
use alloyport.Runtime.Step.Facts.{
  Ended, transition_state_ok, suspend_state_ok, finish_ok, response_failed_ok, decode_failed_ok,
  decoded_ok, dispatching_ok, after_ambiguity-AfterAttempt,
}
use alloyport.Runtime.Step.Keeps.{
  Keeps, Keeps-pure, Keeps-raise, Keeps-bind, Keeps-lift, Keeps-if, Keeps-save, Keeps-crash_if,
  Keeps-call_model,
}

module _ (store : EpisodeRepository) (P : DurableEpisodeState → Type 0) (episode_id : Text)
    (closed : (s s' : DurableEpisodeState) → Step episode_id s s' → P s → P s') where
  pub Keeps-settle :
      (n : ℕ) (s : DurableEpisodeState) (next : EpisodeStatus) (report : AgentLoopAdvance)
      → P (in_status s next)
      → Keeps store P (settle store n s next report)
  unfolding settle
  Keeps-settle n s next report p = Keeps-lift store P _ _ λ s' e.
      Keeps-bind store P _ _ (Keeps-save store P n s' (rw (transition_state_ok s s' next e).0 p))
        λ _. Keeps-pure store P report

  pub Keeps-suspend :
      (n : ℕ) (s : DurableEpisodeState)
      → P (in_status s EpisodeStatus.suspended)
      → Keeps store P (suspend store n s)
  unfolding suspend
  Keeps-suspend n s p = Keeps-lift store P _ _ λ s' e.
      Keeps-bind store P _ _ (Keeps-save store P n s' (rw (suspend_state_ok s s' e).0 p))
        λ _. Keeps-pure store P _

  -- The state of a dispatched attempt, and what follows from it.
  module _ (s : DurableEpisodeState) (a : ModelAttemptRecord) (p : P s)
      (pending : s.episode.status ≡ EpisodeStatus.model_attempt_pending)
      (newest : last s.attempts ≡ some a) (sent : a.status ≡ ModelAttemptStatus.dispatching) where
    concluded :
        (a' : ModelAttemptRecord) (k : ℕ) (next : EpisodeStatus)
        → Ended a a'
        → AfterAttempt next
        → P (in_status (record (with_attempt s a') { ambiguous_model_attempts = k }) next)
    concluded a' k next ended after =
        closed s _ (Step.conclude s a a' k next pending newest sent ended.0 ended.1 ended.2 after) p

    Keeps-after_failed_dispatch :
        (n : ℕ) (a' : ModelAttemptRecord) (retry : ModelTransportRetryHint) (repeated : Bool)
        → Ended a a'
        → Keeps store P (after_failed_dispatch store n (with_attempt s a') retry repeated)
    unfolding after_failed_dispatch
    Keeps-after_failed_dispatch n a' retry repeated ended =
        Keeps-if store P (is_never retry || repeated) _ _
          (λ _. Keeps-settle n _ _ _ (concluded a' _ _ ended AfterAttempt.fail))
          λ _. Keeps-settle n _ _ _ (concluded a' _ _ ended AfterAttempt.again)

    Keeps-recover_dispatch :
        (v : VersionedEpisodeState) → v.state ≡ s → Keeps store P (recover_dispatch store v a)
    unfolding recover_dispatch
    Keeps-recover_dispatch v same = Keeps-lift store P _ _ λ a' e. Keeps-lift store P _ _ λ k _.
        Keeps-if store P v.state.cancellation_requested _ _
          (λ asked. Keeps-suspend v.revision _ (
            rw same (
              closed s _
                (Step.interrupt s a a' k pending newest sent (finish_ok a a' _ none e).0.0
                  (ground (arith, finish_ok a a' _ none e)) (rw (← same) asked))
                p)))
          λ _. Keeps-settle v.revision _ _ _ (
            rw same (
              concluded a' k _ (finish_ok a a' _ none e).0 (
                after_ambiguity-AfterAttempt
                  (record (with_attempt s a') { ambiguous_model_attempts = k }))))

    Keeps-commit_turn :
        (sha : List ℕ → Sha256Digest) (ports : Ports) (request : ModelTurnRequest) (n : ℕ)
        (x : GatewayTurnExchange)
        → Keeps store P (commit_turn store sha episode_id ports request n s a x)
    unfolding commit_turn
    Keeps-commit_turn sha ports request n x = Keeps-lift store P _ _ λ b e₁.
        Keeps-lift store P _ _ λ a' e₂. Keeps-lift store P _ _ λ id _.
          Keeps-lift store P _ _ λ count _. Keeps-lift store P _ _ λ entry _.
            let decoded = decoded_ok a b a' _ _ _ e₁ e₂ in
            Keeps-bind store P _ _
              (Keeps-settle n _ _ _
                (closed s _ (Step.record_turn s a a' _ pending newest sent decoded.0 decoded.1) p))
              λ report.
                Keeps-bind store P _ _ (Keeps-crash_if store P ports _)
                  λ _. Keeps-pure store P report

    Keeps-commit_outcome :
        (sha : List ℕ → Sha256Digest) (ports : Ports) (request : ModelTurnRequest) (n : ℕ)
        (x : ModelGatewayOutcome)
        → Keeps store P (commit_outcome store sha episode_id ports request n s a x)
    unfolding commit_outcome
    Keeps-commit_outcome sha ports request n (ModelGatewayOutcome.turn x) =
        Keeps-commit_turn sha ports request n x
    Keeps-commit_outcome sha ports request n (ModelGatewayOutcome.confirmed_not_sent d retry) =
        Keeps-lift store P _ _
          λ a' e. Keeps-after_failed_dispatch n a' retry _ (finish_ok a a' _ d e).0
    Keeps-commit_outcome sha ports request n (ModelGatewayOutcome.rejected r d retry) =
        Keeps-lift store P _ _ λ b e₁.
          Keeps-lift store P _ _
            λ a' e₂. Keeps-after_failed_dispatch n a' retry _ (response_failed_ok a b a' r d e₁ e₂)
    Keeps-commit_outcome sha ports request n (ModelGatewayOutcome.decode_failed r d) =
        Keeps-lift store P _ _ λ b e₁. Keeps-lift store P _ _ λ a' e₂.
          Keeps-settle n _ _ _
            (concluded a' _ _ (decode_failed_ok a b a' r d e₁ e₂) AfterAttempt.fail)
    Keeps-commit_outcome sha ports request n (ModelGatewayOutcome.ambiguous d retry) =
        Keeps-lift store P _ _ λ a' e.
          let k = (s.ambiguous_model_attempts + 1) % 2 ^ 32 in
          Keeps-settle n _ _ _ (
            concluded a' k _ (finish_ok a a' ModelAttemptStatus.ambiguous d e).0 (
              after_ambiguity-AfterAttempt
                (record (with_attempt s a') { ambiguous_model_attempts = k })))

  -- A call of `drive_model` on a state that was loaded commits only steps.
  module _ (sha : List ℕ → Sha256Digest) (ports : Ports) (v : VersionedEpisodeState) (p : P v.state)
      (pending : v.state.episode.status ≡ EpisodeStatus.model_attempt_pending) where
    Keeps-dispatch :
        (a : ModelAttemptRecord)
        → last v.state.attempts ≡ some a
        → Keeps store P (dispatch store sha episode_id ports v a)
    unfolding dispatch
    Keeps-dispatch a newest = Keeps-lift store P _ _ λ index _. Keeps-lift store P _ _ λ a' e.
        let ready = dispatching_ok a a' e in
        let sent = closed v.state _ (Step.dispatch v.state a pending newest ready.0) p in
        let kept : P (with_attempt v.state a') = rw ready.1 sent in
        let request : ModelTurnRequest = record {
          attempt_id = a'.id;
          episode_id = episode_id;
          turn_index = index;
          input_digest = v.state.next_input_digest;
        } in
        Keeps-bind store P _ _ (Keeps-save store P v.revision _ kept) λ revision.
          Keeps-bind store P _ _ (Keeps-crash_if store P ports _) λ _.
            Keeps-bind store P _ _ (Keeps-call_model store P ports request) λ outcome.
              Keeps-bind store P _ _ (Keeps-crash_if store P ports _) λ _.
                Keeps-commit_outcome (with_attempt v.state a') a' kept pending
                  (last-set_last v.state.attempts a' a newest) (ground arith) sha ports request
                  revision outcome

    pub Keeps-drive_model : Keeps store P (drive_model store sha episode_id ports v)
    unfolding drive_model
    Keeps-drive_model = Keeps-lift store P _ _ λ a e.
        let newest : last v.state.attempts ≡ some a = newest_of (last v.state.attempts) a e in
        Keeps-if store P (is_dispatching a.status) _ _
          (λ sent. Keeps-recover_dispatch v.state a p pending newest (ground arith) v refl)
          λ _.
            Keeps-if store P (is_prepared a.status) _ _ (λ _. Keeps-dispatch a newest)
              λ _. Keeps-raise store P _
      where
        newest_of :
            (o : Option ModelAttemptRecord) (a : ModelAttemptRecord)
            → ok_or o missing_model_attempt ≡ ok a
            → o ≡ some a
        newest_of o a e = ground arith
