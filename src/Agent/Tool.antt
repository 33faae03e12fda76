-- ===== src/Agent/Tool.antt =====
-- The tool operation: its status machine and its record.
use alloyport.Prelude.{
  ℕ, String, Bool, true, false, not, ◌||◌, Option, none, some, List, [], if◌then◌else◌, Result, ok,
  err, ◌>>◌,
}
use alloyport.Prelude.Text.{Text}
use alloyport.Digest.{Sha256Digest}
use alloyport.AgentError.{
  AgentRecordError, invalid_transition, terminal_result_required, require_text,
}

pub data ToolEffectClass : Type 0 where
  read_only candidate_write remote_execution authority_request : ToolEffectClass

pub data ToolResultAuthority : Type 0 where
  narrative reported observed verified_reference : ToolResultAuthority

pub data ToolOperationStatus : Type 0 where
  requested awaiting_permission authorized dispatching running ambiguous reconciling
        rejected_as_invalid denied succeeded candidate_failed infra_failed timed_out cancelled :
      ToolOperationStatus

-- The derived `Debug` form.
unfoldable pub status_name : ToolOperationStatus → String
status_name requested = "Requested"
status_name awaiting_permission = "AwaitingPermission"
status_name authorized = "Authorized"
status_name dispatching = "Dispatching"
status_name running = "Running"
status_name ambiguous = "Ambiguous"
status_name reconciling = "Reconciling"
status_name rejected_as_invalid = "RejectedAsInvalid"
status_name denied = "Denied"
status_name succeeded = "Succeeded"
status_name candidate_failed = "CandidateFailed"
status_name infra_failed = "InfraFailed"
status_name timed_out = "TimedOut"
status_name cancelled = "Cancelled"

-- The five results that a dispatched operation can end in.
is_result : ToolOperationStatus → Bool
is_result succeeded = true
is_result candidate_failed = true
is_result infra_failed = true
is_result timed_out = true
is_result cancelled = true
is_result _ = false

unfoldable pub can_transition_to : ToolOperationStatus → ToolOperationStatus → Bool
unfolding is_result
can_transition_to requested awaiting_permission = true
can_transition_to requested authorized = true
can_transition_to requested rejected_as_invalid = true
can_transition_to awaiting_permission authorized = true
can_transition_to awaiting_permission denied = true
can_transition_to authorized dispatching = true
can_transition_to authorized cancelled = true
can_transition_to dispatching running = true
can_transition_to dispatching ambiguous = true
can_transition_to dispatching next = is_result next
can_transition_to running ambiguous = true
can_transition_to running next = is_result next
can_transition_to ambiguous reconciling = true
can_transition_to reconciling running = true
can_transition_to reconciling next = is_result next
can_transition_to _ _ = false

unfoldable pub is_terminal : ToolOperationStatus → Bool
unfolding is_result
is_terminal rejected_as_invalid = true
is_terminal denied = true
is_terminal s = is_result s

abbrev pub tool_operation_schema_v1 : ℕ
tool_operation_schema_v1 = 1

pub record ToolOperationSpec : Type 0 where
  pub id : Text
  pub episode_id : Text
  pub turn_id : Text
  pub native_call_id : Text
  pub tool_name : Text
  pub tool_version : Text
  pub effect_class : ToolEffectClass
  pub result_authority : ToolResultAuthority
  pub arguments_digest : Sha256Digest
  pub input_identity_digest : Sha256Digest

-- The record holds the fields of its specification beside its own.
pub record ToolOperationRecord : Type 0 where
  pub schema_version : ℕ
  pub spec : ToolOperationSpec
  pub open spec use *
  pub status : ToolOperationStatus
  pub result_digest : Option Sha256Digest
  pub receipt_digests : List Sha256Digest

-- ToolOperationRecord::new
unfoldable pub new : ToolOperationSpec → Result AgentRecordError ToolOperationRecord
unfolding require_text
new spec = do
  require_text "native tool call ID" spec.native_call_id
  require_text "tool name" spec.tool_name
  require_text "tool version" spec.tool_version
  ok (record {
    schema_version = tool_operation_schema_v1;
    spec = spec;
    status = requested;
    result_digest = none;
    receipt_digests = [];
  })

unfoldable pub transition :
    ToolOperationRecord → ToolOperationStatus → Result AgentRecordError ToolOperationRecord
unfolding is_terminal can_transition_to
transition r next =
    if is_terminal next
    then err terminal_result_required
    else (if can_transition_to r.status next
        then ok (record r { status = next })
        else err (invalid_transition "tool operation" (status_name r.status) (status_name next)))

unfoldable pub finish :
    ToolOperationRecord
    → ToolOperationStatus
    → Sha256Digest
    → List Sha256Digest
    → Result AgentRecordError ToolOperationRecord
unfolding is_terminal can_transition_to
finish r terminal digest receipts =
    if not (is_terminal terminal) || not (can_transition_to r.status terminal)
    then err (invalid_transition "tool operation" (status_name r.status) (status_name terminal))
    else ok
        (record r { status = terminal; result_digest = some digest; receipt_digests = receipts })
