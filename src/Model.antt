-- ===== src/Model.antt =====
-- crates/alloyport-core/src/model_attempt.rs and model_gateway.rs: the record of one model request,
-- and the port through which a turn is requested.
pub mod Attempt
pub mod Gateway
pub mod Examples
