-- ===== src/Runtime/Run.antt =====
-- Sequences of calls of `AgentLoopRunner`, each with ports of its own, whose failures and simulated
-- crashes the next call meets in the repository.
pub mod Invariant
pub mod Safety
use alloyport.Prelude.{ℕ, List, [], ◌∷◌, ◌≡◌, ok}
use alloyport.Prelude.Text.{Text}
use alloyport.Digest.{Sha256Digest}
use alloyport.Agent.Episode.{EpisodeStatus}
use alloyport.Runtime.Policy.{EpisodeAllowance}
use alloyport.Runtime.State
use alloyport.Runtime.State.{AgentLoopRuntimeSpec, DurableEpisodeState}
use alloyport.Runtime.Repository.{EpisodeRepository}
use alloyport.Runtime.Exec.{Ports, World}
use alloyport.Runtime.Runner

-- The public operations of the runner.
pub data Operation : Type 0 where
  advance : Ports → Operation
  resume : EpisodeAllowance → Operation
  request_cancellation resume_reconciliation : Operation

module _ (store : EpisodeRepository) (sha : List ℕ → Sha256Digest) (episode_id : Text) where
  unfoldable pub perform : Operation → World store.Repo → World store.Repo
  unfolding Runner.advance Runner.resume Runner.request_cancellation Runner.resume_reconciliation
  perform (Operation.advance ports) w = (Runner.advance store episode_id sha ports w).1
  perform (Operation.resume granted) w = (Runner.resume store episode_id granted w).1
  perform Operation.request_cancellation w = (Runner.request_cancellation store episode_id w).1
  perform Operation.resume_reconciliation w = (Runner.resume_reconciliation store episode_id w).1

  unfoldable pub run : List Operation → World store.Repo → World store.Repo
  unfolding perform
  run [] w = w
  run (o ∷ os) w = run os (perform o w)

-- A state as `DurableEpisodeState::new` makes it, of an Episode as `AgentEpisodeRecord::new` makes it.
unfoldable pub Fresh : DurableEpisodeState → Type 0
Fresh s =
    (spec : AgentLoopRuntimeSpec) × (spec.episode.status ≡ EpisodeStatus.created)
    × (State.new spec ≡ ok s)
