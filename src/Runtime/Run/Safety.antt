-- ===== src/Runtime/Run/Safety.antt =====
-- Persisted Episodes after sequences of calls of the runner.
use alloyport.Prelude.{
  is_empty, ◌||◌, if◌then◌else◌, ℕ, ◌≡◌, refl, ◌∙◌, ◌≤◌, true, false, List, any, length, ok,
}
use alloyport.Prelude.Text.{Text}
use alloyport.Digest.{Sha256Digest}
use alloyport.Agent.Episode.{EpisodeStatus, is_terminal}
use alloyport.Runtime.State.{DurableEpisodeState, AgentLoopRuntimeSpec, matches_runtime_spec}
use alloyport.Runtime.Repository.{EpisodeRepository, VersionedEpisodeState}
use alloyport.Runtime.Exec.{World}
use alloyport.Runtime.Runner.{cancel_state, is_model_ambiguous, is_tool_ambiguous}
use alloyport.Runtime.Step.Cancel.{cancel_state_ok, Withdrawn-status}
use alloyport.Runtime.Step.Keeps.{Stored}
use alloyport.Runtime.Step.Trust.{IsTrusted, is_proof, step-IsTrusted, Fresh-IsTrusted}
use alloyport.Runtime.Step.Identity.{step-id, step-matches}
use alloyport.Runtime.Step.Attempts.{
  IsAccounted, Numbered, step-IsAccounted, Fresh-IsAccounted, turns_le_attempts,
}
use alloyport.Runtime.Step.Pending.{count_unresolved, serial_single}
use alloyport.Runtime.Step.Orderly.{IsOrderly, step-IsOrderly, Fresh-IsOrderly}
use alloyport.Runtime.Step.Budget.{IsWithin, step-IsWithin, Fresh-IsWithin}
use alloyport.Runtime.Step.Cancellable.{cancel_total}
use alloyport.Runtime.Run.{Operation, run, Fresh}
use alloyport.Runtime.Run.Invariant.{run-Stored}

module _ (store : EpisodeRepository) (sha : List ℕ → Sha256Digest) (episode_id : Text)
    (os : List Operation) (w : World store.Repo) where
  -- A persisted Episode never leaves the specification under which it was started. Whatever the
  -- repository holds, after any calls of the runner: every persisted Episode goes back to one of the
  -- same identity that was persisted before the calls, and it matches a specification, in what
  -- `matches_runtime_spec` compares (the immutable fields, the rules of the policy and the digests),
  -- if and only if that one did.
  pub run-matches :
      (spec : AgentLoopRuntimeSpec) (id : Text) (v : VersionedEpisodeState)
      → store.load (run store sha episode_id os w).repo id ≡ ok v
      → (j : Text) × (u : VersionedEpisodeState) × (store.load w.repo j ≡ ok u)
        × (v.state.episode.id ≡ u.state.episode.id)
        × (matches_runtime_spec v.state spec ≡ matches_runtime_spec u.state spec)
  run-matches spec =
      run-Stored store
        (λ s.
          (j : Text) × (u : VersionedEpisodeState) × (store.load w.repo j ≡ ok u)
          × (s.episode.id ≡ u.state.episode.id)
          × (matches_runtime_spec s spec ≡ matches_runtime_spec u.state spec))
        episode_id
        (λ s s' step (j, u, found, same, e). (
          j,
          u,
          found,
          step-id episode_id s s' step ∙ same,
          step-matches spec episode_id s s' step ∙ e,
        ))
        sha os w (λ j u found. (j, u, found, refl, refl))

  module _ (fresh : Stored store Fresh w) (id : Text) (v : VersionedEpisodeState)
      (found : store.load (run store sha episode_id os w).repo id ≡ ok v) where
    trusted : IsTrusted v.state
    trusted =
        run-Stored store IsTrusted episode_id (step-IsTrusted episode_id) sha os w
          (λ j u e. Fresh-IsTrusted u.state (fresh j u e)) id v found

    accounted : IsAccounted episode_id v.state
    accounted =
        run-Stored store (IsAccounted episode_id) episode_id (step-IsAccounted episode_id) sha os w
          (λ j u e. Fresh-IsAccounted episode_id u.state (fresh j u e)) id v found

    orderly : IsOrderly v.state
    orderly =
        run-Stored store IsOrderly episode_id (step-IsOrderly episode_id) sha os w
          (λ j u e. Fresh-IsOrderly u.state (fresh j u e)) id v found

    -- Success rests on evidence. On fresh Episodes, after any calls of the runner: a persisted
    -- Episode that has succeeded has its subtask marked satisfied, and holds a tool operation that
    -- has ended and whose results have the authority `VerifiedReference`.
    pub run-succeeded :
        v.state.episode.status ≡ EpisodeStatus.succeeded
        → (v.state.subtask_satisfied ≡ true) × (any is_proof v.state.tool_operations ≡ true)
    run-succeeded e = (trusted.claimed e, trusted.proved (trusted.claimed e))

    -- On fresh Episodes, after any calls of the runner: a persisted Episode that no call of `resume`
    -- has granted a new allowance has made at most as many attempts, recorded at most as many turns
    -- and planned at most as many tool operations as its policy allows.
    pub run-budget :
        is_empty v.state.grants ≡ true
        → (length v.state.attempts ≤ v.state.policy.max_model_attempts)
          × (length v.state.turns ≤ v.state.policy.max_model_turns)
          × (length v.state.tool_operations ≤ v.state.policy.max_total_tool_operations)
    run-budget ungranted =
        let within : IsWithin v.state =
          run-Stored store IsWithin episode_id (step-IsWithin episode_id) sha os w
            (λ j u e. Fresh-IsWithin u.state (fresh j u e)) id v found in
        let b = within.budgeted ungranted in (b.attempts, b.turns, b.operations)

    -- On fresh Episodes, after any calls of the runner: the attempts of a persisted Episode are
    -- numbered 1, 2, 3, ... under the identities derived from these numbers, and there are at most
    -- as many turns as attempts.
    pub run-Numbered :
        Numbered episode_id 0 v.state.attempts × (length v.state.turns ≤ length v.state.attempts)
    run-Numbered = (accounted.numbered, turns_le_attempts episode_id v.state accounted)

    -- On fresh Episodes, after any calls of the runner: at most one tool operation of a persisted
    -- Episode is in flight or of unknown effect.
    pub run-single : count_unresolved v.state.tool_operations ≤ 1
    run-single = serial_single v.state.tool_operations orderly.serial

    -- A cancellation request cannot get stuck. On fresh Episodes, after any calls of the runner: for
    -- every persisted Episode whose status is not terminal, none of the transitions of
    -- `request_cancellation` is refused, so that the state it saves is defined; it has the request
    -- on record, and is suspended if the effect of a model or tool call is unknown, and pending
    -- cancellation otherwise.
    pub run-cancellable :
        is_terminal v.state.episode.status ≡ false
        → (s' : DurableEpisodeState) × (cancel_state v.state ≡ ok s')
          × (s'.cancellation_requested ≡ true)
          × (s'.episode.status ≡ (
              if is_model_ambiguous v.state || is_tool_ambiguous v.state
              then EpisodeStatus.suspended
              else EpisodeStatus.cancellation_pending))
    run-cancellable live =
        let (s', e) = cancel_total v.state orderly live in
        let (asked, at) = Withdrawn-status v.state s' (cancel_state_ok v.state s' e) in
        (s', e, asked, at)
