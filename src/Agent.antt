-- ===== src/Agent.antt =====
-- crates/alloyport-core/src/agent.rs: the durable records of agent episodes, tool operations and
-- candidate searches. A method on `&mut self` returns the new record.
pub mod Episode
pub mod Tool
pub mod Search
pub mod Lifecycle
pub mod Examples
