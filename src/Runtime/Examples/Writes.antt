-- ===== src/Runtime/Examples/Writes.antt =====
-- Writes to the repository and the commit of a failed dispatch, and the properties at them.
use alloyport.Prelude.{ℕ, ◌≡◌, ◌<◌, refl, none, some, List, [], ◌∷◌, Result, ok, err}
use alloyport.Prelude.Text.{codes, text_eq}
use alloyport.Agent.Episode
use alloyport.Agent.Episode.{EpisodeStatus}
use alloyport.Model.Attempt.{ModelAttemptRecord, ModelAttemptStatus}
use alloyport.Model.Gateway.{ModelTurnRequest, ModelGatewayOutcome, ModelTransportRetryHint}
use alloyport.Runtime.State.{
  DurableEpisodeState, EpisodeRepositoryError, AgentLoopRuntimeError, conflict,
}
use alloyport.Runtime.Repository.InMemory
use alloyport.Runtime.Repository.InMemory.{in_memory, InMemoryEpisodeRepository}
use alloyport.Runtime.Repository.InMemory.Conflicts.{
  Write, creates, saves, writes, writes-save_stale,
}
use alloyport.Runtime.Exec
use alloyport.Runtime.Exec.{World}
use alloyport.Runtime.Advance.{AgentLoopAdvance}
use alloyport.Runtime.ModelTurn.{commit_outcome}
use alloyport.Runtime.Examples.{stub_sha, digest, episode_id, first_state, before, ports}

abbrev saved_once : Result EpisodeRepositoryError (ℕ × InMemoryEpisodeRepository)
saved_once = in_memory.save before.repo 0 first_state

abbrev repo_after_save : InMemoryEpisodeRepository
repo_after_save = elim saved_once [ ok (n, r) ↦ r | err e ↦ before.repo ]

saved_once_ok : saved_once ≡ ok (1, repo_after_save)
unfolding InMemory.save text_eq
saved_once_ok = refl

-- A second save, which is from the new revision, and one more from the old.
abbrev more_writes : List Write
more_writes = saves 1 first_state ∷ saves 0 first_state ∷ creates first_state ∷ []

conflicting : InMemory.save (writes repo_after_save more_writes) 0 first_state ≡ err (conflict 0 2)
unfolding InMemory.save InMemory.create writes text_eq
conflicting = refl

writes-save_stale_example :
    (k : ℕ) × (0 < k)
    × (InMemory.save (writes repo_after_save more_writes) 0 first_state ≡ err (conflict 0 k))
writes-save_stale_example =
    writes-save_stale before.repo 0 first_state first_state 1 repo_after_save more_writes
      saved_once_ok refl

abbrev dispatching : ModelAttemptRecord
dispatching = record {
  schema_version = 1;
  spec = record {
    id = codes "a";
    episode_id = episode_id;
    attempt_number = 1;
    request_digest = digest 9;
    resolved_model_digest = digest 4;
    deployment_digest = digest 10;
    model_profile_digest = digest 11;
    request_budget_digest = digest 12;
    predecessor_attempt_id = none;
    predecessor_continuation_digest = none;
  };
  status = ModelAttemptStatus.dispatching;
  response_digest = none;
  continuation_digest = none;
  diagnostic_digest = none;
  actual_model = none;
  usage = none;
}

abbrev pending : DurableEpisodeState
pending = record first_state {
  episode = record (first_state.episode) { status = EpisodeStatus.model_attempt_pending };
  attempts = dispatching ∷ [];
}

abbrev request : ModelTurnRequest
request = record {
  attempt_id = codes "a";
  episode_id = episode_id;
  turn_index = 1;
  input_digest = digest 9;
}

abbrev not_sent : ModelGatewayOutcome
not_sent =
    ModelGatewayOutcome.confirmed_not_sent (some (digest 40)) ModelTransportRetryHint.new_attempt

abbrev committed : Result AgentLoopRuntimeError AgentLoopAdvance × World InMemoryEpisodeRepository
committed =
    commit_outcome in_memory stub_sha episode_id (ports []) request 0 pending dispatching not_sent
      before
