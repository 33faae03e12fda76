-- ===== src/Runtime/Run/Invariant.antt =====
-- Invariants of the states that a sequence of calls leaves in the repository.
use alloyport.Prelude.{◌≡◌, ok, ℕ, List, [], ◌∷◌}
use alloyport.Prelude.Text.{Text}
use alloyport.Digest.{Sha256Digest}
use alloyport.Runtime.State.{DurableEpisodeState}
use alloyport.Runtime.Repository.{EpisodeRepository, VersionedEpisodeState}
use alloyport.Runtime.Exec.{World}
use alloyport.Runtime.Step.{Step}
use alloyport.Runtime.Step.Keeps.{Stored}
use alloyport.Runtime.Step.Follows.{
  Keeps-advance, Keeps-resume, Keeps-request_cancellation, Keeps-resume_reconciliation,
}
use alloyport.Runtime.Run.{Operation, perform, run}

module _ (store : EpisodeRepository) (P : DurableEpisodeState → Type 0) (episode_id : Text)
    (closed : (s s' : DurableEpisodeState) → Step episode_id s s' → P s → P s')
    (sha : List ℕ → Sha256Digest) where
  perform-Stored :
      (o : Operation) (w : World store.Repo)
      → Stored store P w
      → Stored store P (perform store sha episode_id o w)
  unfolding perform
  perform-Stored (Operation.advance ports) w h =
      (Keeps-advance store P episode_id closed sha ports).to w h
  perform-Stored (Operation.resume granted) w h =
      (Keeps-resume store P episode_id closed granted).to w h
  perform-Stored Operation.request_cancellation w h =
      (Keeps-request_cancellation store P episode_id closed).to w h
  perform-Stored Operation.resume_reconciliation w h =
      (Keeps-resume_reconciliation store P episode_id closed).to w h

  -- In every repository that meets the interface: a property of persisted states that the steps of
  -- the transition system keep is kept by every sequence of calls of the runner, whatever the calls
  -- return, whatever the gateways answer, and wherever a call is interrupted.
  pub run-Stored :
      (os : List Operation) (w : World store.Repo)
      → Stored store P w
      → (id : Text) (v : VersionedEpisodeState)
      → store.load (run store sha episode_id os w).repo id ≡ ok v
      → P v.state
  unfolding run
  run-Stored [] w h = h
  run-Stored (o ∷ os) w h = run-Stored os _ (perform-Stored o w h)
