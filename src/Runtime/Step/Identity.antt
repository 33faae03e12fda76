-- ===== src/Runtime/Step/Identity.antt =====
-- The specification of an Episode along the steps: what `matches_runtime_spec` compares
-- (crates/alloyport-core/src/agent_runtime_state.rs).
use alloyport.Prelude.{◌≡◌, refl}
use alloyport.Prelude.Text.{Text}
use alloyport.Runtime.State.{DurableEpisodeState, AgentLoopRuntimeSpec, matches_runtime_spec}
use alloyport.Runtime.Policy.{rules, rules_eq, with_allowance}
use alloyport.Agent.Episode.{matches_immutable}
use alloyport.Runtime.Step.{Step}
use alloyport.Runtime.Step.Cancel.{Withdrawn, withdrawn, cancel_state_ok}

Withdrawn-matches :
    (spec : AgentLoopRuntimeSpec) (s s' : DurableEpisodeState)
    → Withdrawn s s'
    → matches_runtime_spec s' spec ≡ matches_runtime_spec s spec
unfolding matches_runtime_spec matches_immutable
Withdrawn-matches spec s _ (withdrawn attempts ops next e₁ e₂ e) = refl

pub step-matches :
    (spec : AgentLoopRuntimeSpec) (episode_id : Text) (s s' : DurableEpisodeState)
    → Step episode_id s s'
    → matches_runtime_spec s' spec ≡ matches_runtime_spec s spec
unfolding matches_runtime_spec matches_immutable rules rules_eq with_allowance
step-matches spec episode_id s _ (Step.move _ _ _ _ _) = refl
step-matches spec episode_id s _ (Step.prepare _ _ _ _ _ _ _ _) = refl
step-matches spec episode_id s _ (Step.dispatch _ _ _ _ _) = refl
step-matches spec episode_id s _ (Step.conclude _ _ _ _ _ _ _ _ _ _ _ _) = refl
step-matches spec episode_id s _ (Step.interrupt _ _ _ _ _ _ _ _ _ _) = refl
step-matches spec episode_id s _ (Step.record_turn _ _ _ _ _ _ _ _ _) = refl
step-matches spec episode_id s _ (Step.plan _ _ _ _ _ _ _ _ _) = refl
step-matches spec episode_id s _ (Step.collect _ _ _ _) = refl
step-matches spec episode_id s _ (Step.engage _ _ _ _ _ _ _ _) = refl
step-matches spec episode_id s _ (Step.complete _ _ _ _ _ _ _ _ _ _ _) = refl
step-matches spec episode_id s _ (Step.wait _ _ _ _ _ _ _ _ _) = refl
step-matches spec episode_id s _ (Step.lose _ _ _ _ _ _ _ _ _) = refl
step-matches spec episode_id s _ (Step.push_back _ _ _ _ _) = refl
step-matches spec episode_id s _ (Step.reopen _ _ _ _ _) = refl
step-matches spec episode_id s s' (Step.request_cancel _ _ _ e) =
    Withdrawn-matches spec s s' (cancel_state_ok s s' e)
step-matches spec episode_id s _ (Step.reconcile _ _) = refl

Withdrawn-id : (s s' : DurableEpisodeState) → Withdrawn s s' → s'.episode.id ≡ s.episode.id
Withdrawn-id s _ (withdrawn attempts ops next e₁ e₂ e) = refl

pub step-id :
    (episode_id : Text) (s s' : DurableEpisodeState)
    → Step episode_id s s'
    → s'.episode.id ≡ s.episode.id
step-id episode_id s _ (Step.move _ _ _ _ _) = refl
step-id episode_id s _ (Step.prepare _ _ _ _ _ _ _ _) = refl
step-id episode_id s _ (Step.dispatch _ _ _ _ _) = refl
step-id episode_id s _ (Step.conclude _ _ _ _ _ _ _ _ _ _ _ _) = refl
step-id episode_id s _ (Step.interrupt _ _ _ _ _ _ _ _ _ _) = refl
step-id episode_id s _ (Step.record_turn _ _ _ _ _ _ _ _ _) = refl
step-id episode_id s _ (Step.plan _ _ _ _ _ _ _ _ _) = refl
step-id episode_id s _ (Step.collect _ _ _ _) = refl
step-id episode_id s _ (Step.engage _ _ _ _ _ _ _ _) = refl
step-id episode_id s _ (Step.complete _ _ _ _ _ _ _ _ _ _ _) = refl
step-id episode_id s _ (Step.wait _ _ _ _ _ _ _ _ _) = refl
step-id episode_id s _ (Step.lose _ _ _ _ _ _ _ _ _) = refl
step-id episode_id s _ (Step.push_back _ _ _ _ _) = refl
step-id episode_id s _ (Step.reopen _ _ _ _ _) = refl
step-id episode_id s s' (Step.request_cancel _ _ _ e) = Withdrawn-id s s' (cancel_state_ok s s' e)
step-id episode_id s _ (Step.reconcile _ _) = refl
