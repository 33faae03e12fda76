-- ===== src/Runtime.antt =====
-- crates/alloyport-core/src/agent_runtime*.rs: the durable reducer of an Agent Episode.
pub mod Policy
pub mod State
pub mod Identity
pub mod Exec
pub mod Advance
pub mod ModelTurn
pub mod ToolTurn
pub mod Repository
pub mod Runner
pub mod Step
pub mod Run
pub mod Backoff
pub mod Examples
