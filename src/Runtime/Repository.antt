-- ===== src/Runtime/Repository.antt =====
-- crates/alloyport-core/src/agent_runtime_support.rs: the port `EpisodeRepository`, as operations
-- with the laws that the runner relies on. `InMemory` is the adapter that fills it.
pub mod InMemory
use alloyport.Prelude.{ℕ, suc, ◌≡◌, ◌≢◌, Result, ok}
use alloyport.Prelude.Text.{Text}
use alloyport.Runtime.State.{DurableEpisodeState, EpisodeRepositoryError}

pub record VersionedEpisodeState : Type 0 where
  pub revision : ℕ
  pub state : DurableEpisodeState

-- `save` compares the expected revision with the stored one, and returns the next.
pub record EpisodeRepository : Type 1 where
  pub Repo : Type 0
  pub create : Repo → DurableEpisodeState → Result EpisodeRepositoryError Repo
  pub load : Repo → Text → Result EpisodeRepositoryError VersionedEpisodeState
  pub save : Repo → ℕ → DurableEpisodeState → Result EpisodeRepositoryError (ℕ × Repo)
  -- A saved state is loaded back, under its new revision.
  pub load-save_self :
      (r : Repo) (n : ℕ) (s : DurableEpisodeState) (m : ℕ) (r' : Repo)
      → save r n s ≡ ok (m, r')
      → load r' s.episode.id ≡ ok (record { revision = m; state = s })
  -- Other Episodes are as they were.
  pub load-save_ne :
      (r : Repo) (n : ℕ) (s : DurableEpisodeState) (m : ℕ) (r' : Repo) (id : Text)
      → save r n s ≡ ok (m, r')
      → s.episode.id ≢ id
      → load r' id ≡ load r id
  -- Only the current revision is replaced.
  pub save_current :
      (r : Repo) (n : ℕ) (s : DurableEpisodeState) (m : ℕ) (r' : Repo)
      → save r n s ≡ ok (m, r')
      → (v : VersionedEpisodeState) × (load r s.episode.id ≡ ok v) × (v.revision ≡ n) × (m ≡ suc n)
