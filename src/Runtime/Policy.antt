-- ===== src/Runtime/Policy.antt =====
-- crates/alloyport-core/src/agent_runtime_policy.rs: what an Episode is allowed to do, and how much
-- it is allowed to spend.
use alloyport.Prelude.{ℕ, Bool, ◌&&◌, ◌||◌, ◌==◌, ltb}
use alloyport.Agent.Episode.{EpisodeStatus}

pub record EpisodeRules : Type 0 where
  pub max_tool_calls_per_turn : ℕ
  pub max_ambiguous_model_attempts : ℕ
  pub max_stop_feedback_turns : ℕ

pub record EpisodeAllowance : Type 0 where
  pub max_model_turns : ℕ
  pub max_model_attempts : ℕ
  pub max_total_tool_operations : ℕ

pub record AgentLoopPolicy : Type 0 where
  pub max_model_turns : ℕ
  pub max_model_attempts : ℕ
  pub max_ambiguous_model_attempts : ℕ
  pub max_tool_calls_per_turn : ℕ
  pub max_total_tool_operations : ℕ
  pub max_stop_feedback_turns : ℕ

unfoldable pub rules : AgentLoopPolicy → EpisodeRules
rules p = record {
  max_tool_calls_per_turn = p.max_tool_calls_per_turn;
  max_ambiguous_model_attempts = p.max_ambiguous_model_attempts;
  max_stop_feedback_turns = p.max_stop_feedback_turns;
}

unfoldable pub allowance : AgentLoopPolicy → EpisodeAllowance
allowance p = record {
  max_model_turns = p.max_model_turns;
  max_model_attempts = p.max_model_attempts;
  max_total_tool_operations = p.max_total_tool_operations;
}

unfoldable pub with_allowance : AgentLoopPolicy → EpisodeAllowance → AgentLoopPolicy
with_allowance p a = record p {
  max_model_turns = a.max_model_turns;
  max_model_attempts = a.max_model_attempts;
  max_total_tool_operations = a.max_total_tool_operations;
}

-- The condition under which `validate` refuses.
unfoldable pub is_invalid : AgentLoopPolicy → Bool
is_invalid p =
    p.max_model_turns == 0
    || p.max_model_attempts == 0
    || p.max_tool_calls_per_turn == 0
    || p.max_total_tool_operations == 0
    || ltb p.max_model_attempts p.max_model_turns

-- `EpisodeRules` is compared field by field.
unfoldable pub rules_eq : EpisodeRules → EpisodeRules → Bool
rules_eq a b =
    a.max_tool_calls_per_turn == b.max_tool_calls_per_turn
    && a.max_ambiguous_model_attempts == b.max_ambiguous_model_attempts
    && a.max_stop_feedback_turns == b.max_stop_feedback_turns

pub record AllowanceGrant : Type 0 where
  pub resumed_from : EpisodeStatus
  pub previous : EpisodeAllowance
  pub granted : EpisodeAllowance
