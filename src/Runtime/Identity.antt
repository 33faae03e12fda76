-- ===== src/Runtime/Identity.antt =====
-- crates/alloyport-core/src/agent_runtime_helpers.rs: derived identities and digests. SHA-256 is the
-- parameter `sha`.
pub mod Distinct
use alloyport.Prelude.{
  ℕ, ◌+◌, ◌/◌, ◌%◌, ◌^◌, List, [], ◌∷◌, ◌++◌, length, if◌then◌else◌, Result, ok, err,
}
use alloyport.Prelude.Text.{Text, codes, as_bytes, decimal, is_blank}
use alloyport.Digest.{Sha256Digest, to_string}
use alloyport.Model.Gateway.{GatewayTurn, GatewayToolCall, stop_reason_name}
use alloyport.Runtime.State.{AgentLoopRuntimeError, derived_identity}
use alloyport.Agent.Tool.{ToolEffectClass, ToolResultAuthority}

-- RuntimeToolDescriptor of agent_runtime_support.rs
pub record RuntimeToolDescriptor : Type 0 where
  pub name : Text
  pub version : Text
  pub effect_class : ToolEffectClass
  pub result_authority : ToolResultAuthority

-- The checked conversion of the identity types (identity.rs); the error becomes `DerivedIdentity`.
unfoldable pub try_identity : Text → Result AgentLoopRuntimeError Text
unfolding is_blank
try_identity value = if is_blank value then err derived_identity else ok value

unfoldable pub derived_model_attempt_id : Text → ℕ → Result AgentLoopRuntimeError Text
unfolding try_identity
derived_model_attempt_id episode_id attempt_number =
    try_identity (codes "model-attempt-" ++ episode_id ++ codes "-" ++ decimal attempt_number)

unfoldable pub derived_turn_id : Text → ℕ → Result AgentLoopRuntimeError Text
unfolding try_identity
derived_turn_id episode_id turn_index =
    try_identity (codes "turn-" ++ episode_id ++ codes "-" ++ decimal turn_index)

-- u64::to_be_bytes
unfoldable pub be_bytes : ℕ → List ℕ
be_bytes n =
    (n / 2 ^ 56 % 256)
    ∷ (n / 2 ^ 48 % 256)
    ∷ (n / 2 ^ 40 % 256)
    ∷ (n / 2 ^ 32 % 256)
    ∷ (n / 2 ^ 24 % 256)
    ∷ (n / 2 ^ 16 % 256)
    ∷ (n / 2 ^ 8 % 256)
    ∷ (n % 256)
    ∷ []

-- `push_len`, and the bytes that follow it.
unfoldable pub sized : List ℕ → List ℕ
unfolding be_bytes
sized bytes = be_bytes (length bytes) ++ bytes

unfoldable pub narrative_bytes : List Text → List ℕ
narrative_bytes [] = []
narrative_bytes (t ∷ ts) = sized (as_bytes t) ++ narrative_bytes ts

unfoldable pub call_bytes : List GatewayToolCall → List ℕ
call_bytes [] = []
call_bytes (c ∷ cs) =
    sized (as_bytes c.native_call_id)
    ++ (sized (as_bytes c.name) ++ (sized c.raw_arguments ++ call_bytes cs))

-- The bytes that `digest_semantic_turn` hashes.
unfoldable pub semantic_turn_bytes : GatewayTurn → List ℕ
unfolding narrative_bytes call_bytes
semantic_turn_bytes t =
    codes "alloyport-semantic-turn-v1"
    ++ (narrative_bytes t.narrative
        ++ (call_bytes t.tool_calls ++ codes (stop_reason_name t.stop_reason)))

unfoldable pub results_bytes : List Sha256Digest → List ℕ
results_bytes [] = []
results_bytes (r ∷ rs) = r.bytes ++ results_bytes rs

module _ (sha : List ℕ → Sha256Digest) where
  unfoldable pub digest_label : Text → Sha256Digest
  digest_label label = sha (as_bytes label)

  unfoldable pub digest_semantic_turn : GatewayTurn → Sha256Digest
  unfolding semantic_turn_bytes
  digest_semantic_turn t = sha (semantic_turn_bytes t)

  unfoldable pub derived_tool_operation_id :
      Text
      → Text
      → ℕ
      → RuntimeToolDescriptor
      → Sha256Digest
      → Sha256Digest
      → Result AgentLoopRuntimeError Text
  unfolding try_identity
  derived_tool_operation_id episode_id turn_id call_index d arguments_digest input_digest =
      let identity : Text =
        episode_id
        ++ codes "|"
        ++ turn_id
        ++ codes "|"
        ++ decimal call_index
        ++ codes "|"
        ++ d.name
        ++ codes "|"
        ++ d.version
        ++ codes "|"
        ++ to_string arguments_digest
        ++ codes "|"
        ++ to_string input_digest in
      try_identity (
        codes "tool-"
        ++ decimal (call_index + 1)
        ++ codes "-"
        ++ to_string (sha (as_bytes identity)))

  unfoldable pub derive_model_continuation_input_digest :
      Sha256Digest → List Sha256Digest → Sha256Digest
  unfolding results_bytes
  derive_model_continuation_input_digest continuation results = sha (
      codes "alloyport-model-continuation-input-v1"
      ++ (continuation.bytes ++ results_bytes results))
