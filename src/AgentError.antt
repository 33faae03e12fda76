-- ===== src/AgentError.antt =====
-- crates/alloyport-core/src/agent.rs: the errors of the agent records, and the check of required
-- text.
use alloyport.Prelude.{String, Result, ok, err, if◌then◌else◌}
use alloyport.Prelude.Text.{Text, is_blank}

pub data AgentRecordError : Type 0 where
  empty_field : String → AgentRecordError
  -- aggregate, from, to
  invalid_transition : String → String → String → AgentRecordError
  terminal_result_required search_not_running search_cannot_refine : AgentRecordError
  duplicate_candidate unknown_incumbent : Text → AgentRecordError

unfoldable pub require_text : String → Text → Result AgentRecordError (Unit {0})
unfolding is_blank
require_text field value = if is_blank value then err (empty_field field) else ok tt
