-- ===== src/Runtime/Advance.antt =====
-- What one call of the reducer reports (agent_runtime_support.rs, agent_runtime_helpers.rs), and the
-- ways in which its branches end: a status transition, a save, and a report.
use alloyport.Prelude.{ℕ, ◌+◌, Bool, true, false, ltb, if◌then◌else◌, Result, ok, err}
use alloyport.Agent.Episode
use alloyport.Agent.Episode.{EpisodeStatus, is_terminal}
use alloyport.Runtime.State.{
  DurableEpisodeState, AgentLoopRuntimeError, agent_record, counter_exhausted,
}
use alloyport.Runtime.Repository.{EpisodeRepository}
use alloyport.Runtime.Exec.{M, ◌>>=◌, ◌>>◌, pure, lift, save}

pub data AgentLoopAdvance : Type 0 where
  progressed terminal : EpisodeStatus → AgentLoopAdvance
  progressed_after : EpisodeStatus → ℕ → AgentLoopAdvance
  suspended : AgentLoopAdvance

abbrev pub is_suspended : EpisodeStatus → Bool
is_suspended EpisodeStatus.suspended = true
is_suspended _ = false

unfoldable pub progress : EpisodeStatus → AgentLoopAdvance
unfolding is_terminal
progress status =
    if is_terminal status
    then terminal status
    else (if is_suspended status then suspended else progressed status)

abbrev pub u32_max : ℕ
u32_max = 4294967295

-- u32::try_from(count)
unfoldable pub checked_u32 : ℕ → Result AgentLoopRuntimeError ℕ
checked_u32 count = if ltb u32_max count then err counter_exhausted else ok count

-- u32::try_from(count)?.checked_add(1): both overflows are reported as an exhausted counter.
unfoldable pub checked_next : ℕ → Result AgentLoopRuntimeError ℕ
checked_next count = if ltb count u32_max then ok (count + 1) else err counter_exhausted

-- The Episode's status is changed in the state.
unfoldable pub transition_state :
    DurableEpisodeState → EpisodeStatus → Result AgentLoopRuntimeError DurableEpisodeState
transition_state s next = elim (Episode.transition s.episode next) [
  | ok e ↦ ok (record s { episode = e })
  | err e ↦ err (agent_record e)
]

-- SuspensionRequested, then Suspended
unfoldable pub suspend_state :
    DurableEpisodeState → Result AgentLoopRuntimeError DurableEpisodeState
unfolding transition_state
suspend_state s = elim (transition_state s EpisodeStatus.suspension_requested) [
  | ok s' ↦ transition_state s' EpisodeStatus.suspended
  | err e ↦ err e
]

module _ (store : EpisodeRepository) where
  unfoldable pub settle :
      ℕ → DurableEpisodeState → EpisodeStatus → AgentLoopAdvance → M store.Repo AgentLoopAdvance
  settle revision s next report = do
    s' ← lift (transition_state s next)
    save store revision s'
    pure report

  unfoldable pub suspend : ℕ → DurableEpisodeState → M store.Repo AgentLoopAdvance
  suspend revision s = do s' ← lift (suspend_state s); save store revision s'; pure suspended
