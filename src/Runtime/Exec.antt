-- ===== src/Runtime/Exec.antt =====
-- Runs of the reducer: a computation over the repository that may fail, where a failure keeps what
-- was saved before it. The gateways and the fault injector of one call are its parameters, since
-- `advance` asks each of them at most once for each request or point.
use alloyport.Prelude.{ℕ, Bool, Option, List, ◌∷◌, if◌then◌else◌, Result, ok, err, map_err}
use alloyport.Prelude.Text.{Text}
use alloyport.Digest.{Sha256Digest}
use alloyport.Agent.Tool.{ToolOperationStatus}
use alloyport.Model.Gateway.{
  ModelTurnRequest, ModelGatewayOutcome, ModelGatewayError, GatewayToolCall,
}
use alloyport.Runtime.State.{
  DurableEpisodeState, AgentLoopRuntimeError, AgentRuntimeFaultPoint, ToolGatewayError,
  EpisodeRepositoryError, injected_crash, repository, model_gateway, tool_gateway,
}
use alloyport.Runtime.Identity.{RuntimeToolDescriptor}
use alloyport.Runtime.Repository.{EpisodeRepository, VersionedEpisodeState}

-- ToolInvocation of agent_runtime_support.rs
pub record ToolInvocation : Type 0 where
  pub operation_id : Text
  pub call : GatewayToolCall
  pub input_identity_digest : Sha256Digest

-- ToolGatewayOutcome of agent_runtime_support.rs; nothing reads the diagnostics of the last two.
pub data ToolGatewayOutcome : Type 0 where
  -- status, result, receipts, whether it satisfies the subtask
  completed : ToolOperationStatus → Sha256Digest → List Sha256Digest → Bool → ToolGatewayOutcome
  pending ambiguous : Sha256Digest → ToolGatewayOutcome

-- The ports that one call of the runner is given. A refused tool call carries the digest of its
-- explanation.
pub record Ports : Type 0 where
  pub invoke : ModelTurnRequest → Result ModelGatewayError ModelGatewayOutcome
  pub descriptor : Text → Option RuntimeToolDescriptor
  pub validate_call : GatewayToolCall → Option Sha256Digest
  pub execute : ToolInvocation → Result ToolGatewayError ToolGatewayOutcome
  pub reconcile : ToolInvocation → Result ToolGatewayError ToolGatewayOutcome
  pub should_crash : AgentRuntimeFaultPoint → Bool

-- What a gateway has been asked.
pub data GatewayCall : Type 0 where
  invoked : ModelTurnRequest → GatewayCall
  executed reconciled : ToolInvocation → GatewayCall

-- The repository, and the calls that the gateways have received, newest first.
pub record World (R : Type 0) : Type 0 where
  pub repo : R
  pub calls : List GatewayCall

abbrev pub M : Type 0 → Type 0 → Type 0
M R A = World R → Result AgentLoopRuntimeError A × World R

-- An error ends the run, and keeps the world as it is.
abbrev pub continue :
    {R A B : Type 0}
    → Result AgentLoopRuntimeError A
    → World R
    → (A → M R B)
    → Result AgentLoopRuntimeError B × World R
continue (ok a) w f = f a w
continue (err e) w f = (err e, w)

infixl 5 ◌>>=◌ ◌>>◌
unfoldable pub ◌>>=◌ : {R A B : Type 0} → M R A → (A → M R B) → M R B
◌>>=◌ m f w = let (r, w') = m w in continue r w' f

abbrev pub ◌>>◌ : {R A B : Type 0} → M R A → M R B → M R B
◌>>◌ m k = m >>= λ _. k

unfoldable pub pure : {R A : Type 0} → A → M R A
pure a w = (ok a, w)

unfoldable pub raise : {R A : Type 0} → AgentLoopRuntimeError → M R A
raise e w = (err e, w)

unfoldable pub lift : {R A : Type 0} → Result AgentLoopRuntimeError A → M R A
lift r w = (r, w)

unfoldable pub crash_if : {R : Type 0} → Ports → AgentRuntimeFaultPoint → M R (Unit {0})
crash_if ports point = if ports.should_crash point then raise (injected_crash point) else pure tt

abbrev note : {R : Type 0} → GatewayCall → World R → World R
note c w = record w { calls = c ∷ w.calls }

unfoldable pub call_model : {R : Type 0} → Ports → ModelTurnRequest → M R ModelGatewayOutcome
call_model ports request w =
    (map_err model_gateway (ports.invoke request), note (invoked request) w)

unfoldable pub call_tool : {R : Type 0} → Ports → Bool → ToolInvocation → M R ToolGatewayOutcome
call_tool ports reconciling i w =
    if reconciling
    then (map_err tool_gateway (ports.reconcile i), note (reconciled i) w)
    else (map_err tool_gateway (ports.execute i), note (executed i) w)

module _ (store : EpisodeRepository) where
  unfoldable pub load : Text → M store.Repo VersionedEpisodeState
  load id w = (map_err repository (store.load w.repo id), w)

  abbrev commit :
      World store.Repo
      → Result EpisodeRepositoryError (ℕ × store.Repo)
      → Result AgentLoopRuntimeError ℕ × World store.Repo
  commit w (ok (revision, repo)) = (ok revision, record w { repo = repo })
  commit w (err e) = (err (repository e), w)

  -- A save that fails leaves the repository as it was.
  unfoldable pub save : ℕ → DurableEpisodeState → M store.Repo ℕ
  save expected state w = commit w (store.save w.repo expected state)
