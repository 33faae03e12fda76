-- ===== src/Agent/Examples.antt =====
-- Tests of the records, and the properties at them.
use alloyport.Prelude.{◌≡◌, refl, true, none, some, List, [], ◌∷◌, ok}
use alloyport.Prelude.Text.{codes, text_eq}
use alloyport.Digest.{Sha256Digest}
use alloyport.Agent.Tool
use alloyport.Agent.Tool.{
  ToolOperationRecord, ToolOperationSpec, ToolOperationStatus, ToolEffectClass, ToolResultAuthority,
}
use alloyport.Agent.Lifecycle
use alloyport.Agent.Lifecycle.{Call, IsAnswered, run-is_terminal, run-new-IsAnswered}
use alloyport.Agent.Search
use alloyport.Agent.Search.{SearchRunSpec, SearchStatus}
use alloyport.Agent.Search.Frontier
use alloyport.Agent.Search.Frontier.{IsFrontier, run-new-IsFrontier}

abbrev digest : Sha256Digest
digest = record { bytes = [] }

abbrev spec : ToolOperationSpec
spec = record {
  id = codes "o";
  episode_id = codes "e";
  turn_id = codes "t";
  native_call_id = codes "c";
  tool_name = codes "check";
  tool_version = codes "1";
  effect_class = ToolEffectClass.read_only;
  result_authority = ToolResultAuthority.narrative;
  arguments_digest = digest;
  input_identity_digest = digest;
}

abbrev requested : ToolOperationRecord
requested = record {
  schema_version = 1;
  spec = spec;
  status = ToolOperationStatus.requested;
  result_digest = none;
  receipt_digests = [];
}

abbrev done : ToolOperationRecord
done = record requested { status = ToolOperationStatus.succeeded; result_digest = some digest }

-- The third call is refused.
abbrev calls : List Call
calls =
    Call.moves ToolOperationStatus.authorized
    ∷ Call.moves ToolOperationStatus.dispatching
    ∷ Call.moves ToolOperationStatus.requested
    ∷ Call.ends ToolOperationStatus.succeeded digest []
    ∷ []

calls_end : Lifecycle.run requested calls ≡ done
unfolding Lifecycle.run
calls_end = refl

done_is_terminal : Tool.is_terminal ToolOperationStatus.succeeded ≡ true
unfolding Tool.is_terminal
done_is_terminal = refl

new-requested : Tool.new spec ≡ ok requested
unfolding Tool.new
new-requested = refl

run-is_terminal_example : Lifecycle.run done calls ≡ done
run-is_terminal_example = run-is_terminal done calls done_is_terminal

run-new-IsAnswered_example : IsAnswered (Lifecycle.run requested calls)
run-new-IsAnswered_example = run-new-IsAnswered spec requested calls new-requested

abbrev search : SearchRunSpec
search = record {
  id = codes "s";
  task_id = codes "t";
  migration_spec_digest = digest;
  selection_policy_digest = digest;
  budget_snapshot_digest = digest;
}

-- The second record of the same candidate is refused.
abbrev search_calls : List Frontier.Call
search_calls =
    Frontier.Call.moves SearchStatus.running
    ∷ Frontier.Call.records (codes "a")
    ∷ Frontier.Call.records (codes "a")
    ∷ Frontier.Call.refines (codes "a")
    ∷ []

search_calls_end :
    (Frontier.run (Search.new search) search_calls).incumbent_candidate_id ≡ some (codes "a")
unfolding Frontier.run Search.new text_eq
search_calls_end = refl

run-new-IsFrontier_example : IsFrontier (Frontier.run (Search.new search) search_calls)
run-new-IsFrontier_example = run-new-IsFrontier search search_calls
