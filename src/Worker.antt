-- ===== src/Worker.antt =====
-- The worker's durable journal: its records and its store.
pub mod Journal
pub mod Outbox
pub mod Lifecycle
pub mod Leases
pub mod Calls
pub mod Examples
