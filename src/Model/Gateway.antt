-- ===== src/Model/Gateway.antt =====
-- crates/alloyport-core/src/model_gateway.rs: turns, their records, and the outcomes of a request.
use alloyport.Prelude.{
  ℕ, String, ◌&&◌, ◌||◌, ◌==◌, Option, List, [], ◌∷◌, any, is_empty, if◌then◌else◌, Result, ok, err,
}
use alloyport.Prelude.Text.{Text, is_blank, text_eq}
use alloyport.Digest.{Sha256Digest}
use alloyport.Model.Attempt.{ModelUsage}

pub record ModelTurnRequest : Type 0 where
  pub attempt_id : Text
  pub episode_id : Text
  pub turn_index : ℕ
  pub input_digest : Sha256Digest

-- `raw_arguments` are bytes.
pub record GatewayToolCall : Type 0 where
  pub native_call_id : Text
  pub name : Text
  pub raw_arguments : List ℕ

pub data NormalizedStopReason : Type 0 where
  stop tool_calls length refusal content_filter provider_resource unknown : NormalizedStopReason

-- The derived `Debug` form.
unfoldable pub stop_reason_name : NormalizedStopReason → String
stop_reason_name stop = "Stop"
stop_reason_name tool_calls = "ToolCalls"
stop_reason_name length = "Length"
stop_reason_name refusal = "Refusal"
stop_reason_name content_filter = "ContentFilter"
stop_reason_name provider_resource = "ProviderResource"
stop_reason_name unknown = "Unknown"

pub record GatewayTurn : Type 0 where
  pub narrative : List Text
  pub tool_calls : List GatewayToolCall
  pub stop_reason : NormalizedStopReason
  pub usage : Option ModelUsage

pub record GatewayTurnExchange : Type 0 where
  pub turn : GatewayTurn
  pub raw_exchange_digest : Sha256Digest
  pub native_continuation_digest : Sha256Digest

-- The reason that `ModelGatewayError::InvalidTurn` carries as a message.
pub data InvalidTurn : Type 0 where
  empty_turn empty_call_identity : InvalidTurn
  duplicate_call_id : Text → InvalidTurn

pub data ModelGatewayError : Type 0 where
  script_exhausted : ModelGatewayError
  -- expected and actual turn index
  unexpected_request : ℕ → ℕ → ModelGatewayError
  invalid_turn : InvalidTurn → ModelGatewayError
  adapter : Text → ModelGatewayError

-- The loop over the calls, with the identities that it has met.
validate_calls : List Text → List GatewayToolCall → Result ModelGatewayError (Unit {0})
validate_calls call_ids [] = ok tt
validate_calls call_ids (call ∷ calls) =
    if is_blank call.native_call_id || is_blank call.name
    then err (invalid_turn empty_call_identity)
    else (if any (text_eq call.native_call_id) call_ids
        then err (invalid_turn (duplicate_call_id call.native_call_id))
        else validate_calls (call.native_call_id ∷ call_ids) calls)

-- GatewayTurn::validate
unfoldable pub validate : GatewayTurn → Result ModelGatewayError (Unit {0})
unfolding validate_calls
validate turn =
    if is_empty turn.narrative && is_empty turn.tool_calls
    then err (invalid_turn empty_turn)
    else validate_calls [] turn.tool_calls

abbrev pub turn_record_schema_v1 : ℕ
turn_record_schema_v1 = 1

pub record TurnSpec : Type 0 where
  pub id : Text
  pub episode_id : Text
  pub model_attempt_id : Text
  pub turn_index : ℕ
  pub decoded_turn_digest : Sha256Digest
  pub raw_exchange_digest : Sha256Digest
  pub native_continuation_digest : Sha256Digest
  pub stop_reason : NormalizedStopReason
  pub tool_call_count : ℕ
  pub usage : Option ModelUsage

-- The record holds the fields of its specification beside its schema version.
pub record TurnRecord : Type 0 where
  pub schema_version : ℕ
  pub spec : TurnSpec
  pub open spec use *

pub data TurnRecordError : Type 0 where
  zero_turn_index : TurnRecordError

-- TurnRecord::new
unfoldable pub new : TurnSpec → Result TurnRecordError TurnRecord
new spec =
    if spec.turn_index == 0
    then err zero_turn_index
    else ok (record { schema_version = turn_record_schema_v1; spec = spec })

-- ModelTransportRetryHint of model_transport.rs
pub data ModelTransportRetryHint : Type 0 where
  never new_attempt : ModelTransportRetryHint
  after_millis : ℕ → ModelTransportRetryHint

-- The `diagnostic` texts, which nothing here reads, are left out.
pub data ModelGatewayOutcome : Type 0 where
  turn : GatewayTurnExchange → ModelGatewayOutcome
  confirmed_not_sent : Option Sha256Digest → ModelTransportRetryHint → ModelGatewayOutcome
  rejected : Sha256Digest → Option Sha256Digest → ModelTransportRetryHint → ModelGatewayOutcome
  decode_failed : Sha256Digest → Option Sha256Digest → ModelGatewayOutcome
  ambiguous : Option Sha256Digest → ModelTransportRetryHint → ModelGatewayOutcome
