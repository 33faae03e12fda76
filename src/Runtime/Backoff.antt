-- ===== src/Runtime/Backoff.antt =====
-- The delays that `drive_model` asks for before a request is tried again (crates/alloyport-core/src/
-- agent_runtime_model.rs).
use alloyport.Prelude.{ℕ, ◌≤◌, ◌≡◌, ◌⊎◌, Bool, false, Option, none, some, ok}
use alloyport.Digest.{Sha256Digest}
use alloyport.Prelude.Text.{Text}
use alloyport.Agent.Episode.{EpisodeStatus}
use alloyport.Model.Gateway.{ModelGatewayOutcome, ModelTransportRetryHint}
use alloyport.Runtime.Exec.{World, M}
use alloyport.Runtime.Advance.{AgentLoopAdvance, progressed, terminal, progressed_after, suspended}
use alloyport.Runtime.ModelTurn.{is_never}

-- What `m` returns, if it returns, satisfies `Q`.
record Replies {R A : Type 0} (Q : A → Type 0) (m : M R A) : Type 0 where
  to : (w w' : World R) (a : A) → m w ≡ (ok a, w') → Q a

-- What an outcome without a usable turn says of trying again, and the diagnostic that it leaves.
abbrev pub hint_of : ModelGatewayOutcome → Option ModelTransportRetryHint
hint_of (ModelGatewayOutcome.confirmed_not_sent diagnostic retry) = some retry
hint_of (ModelGatewayOutcome.rejected response diagnostic retry) = some retry
hint_of _ = none

abbrev pub diagnostic_of : ModelGatewayOutcome → Option Sha256Digest
diagnostic_of (ModelGatewayOutcome.confirmed_not_sent diagnostic retry) = diagnostic
diagnostic_of (ModelGatewayOutcome.rejected response diagnostic retry) = diagnostic
diagnostic_of _ = none

-- A delay as the hint states it, or of a quarter of a second up to half a minute.
abbrev pub IsDelay : ModelTransportRetryHint → ℕ → Type 0
IsDelay retry delay =
    (retry ≡ ModelTransportRetryHint.after_millis delay) ⊎ ((250 ≤ delay) × (delay ≤ 30000))

abbrev IsPaced : Option ModelTransportRetryHint → Bool → AgentLoopAdvance → Type 0
IsPaced hint repeated (progressed_after status delay) =
    (retry : ModelTransportRetryHint) × (hint ≡ some retry)
    × (is_never retry ≡ false)
    × (repeated ≡ false)
    × (status ≡ EpisodeStatus.ready_for_model)
    × IsDelay retry delay
IsPaced hint repeated (progressed status) = Unit {0}
IsPaced hint repeated (terminal status) = Unit {0}
IsPaced hint repeated suspended = Unit {0}
