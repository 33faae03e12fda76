-- ===== src/Worker/Calls.antt =====
-- Sequences of calls on the worker's journal (crates/alloyport-worker/src/adapters/sqlite/attempt_store/).
pub mod Runs
pub mod Announced
pub mod Frames
pub mod Exclusive
pub mod Finished
pub mod Evidence
pub mod Durable
pub mod Delivered
pub mod Acknowledged
use alloyport.Prelude.{ℕ, Option, none, some, List, [], ◌∷◌, Result, ok, err, ◌>>=◌}
use alloyport.Prelude.Text.{Text}
use alloyport.Execution.{AssignmentContract, DeviceObservation}
use alloyport.Worker.Journal.{
  StoredFinished, WorkerOutboxMessage, AttemptStoreError, Json, Journal, Committed,
}
use alloyport.Worker.Outbox.{
  enqueue_outbox_transaction, record_outbox_delivery, acknowledge_outbox, prune_outbox_deliveries,
}
use alloyport.Worker.Lifecycle.{bind_worker, admit, mark_running, mark_finished}
use alloyport.Worker.Leases.{acquire_device_lease, release_device_lease, record_device_preflight}

-- The operations that write.
pub data Call : Type 0 where
  binds : (worker_id : Text) → Call
  admits : (assignment : AssignmentContract) (at_ms : ℕ) → Call
  runs : (attempt_id : Text) (at_ms : ℕ) → Call
  finishes : (attempt_id : Text) (result : StoredFinished) (at_ms : ℕ) → Call
  enqueues : (message : WorkerOutboxMessage) (at_ms : ℕ) → Call
  delivers : (connection_id : Text) (sequence : ℕ) (message_id : Text) (at_ms : ℕ) → Call
  acknowledges : (connection_id : Text) (through : ℕ) → Call
  prunes : (older_than_ms : ℕ) → Call
  acquires : (attempt_id device_id : Text) (at_ms : ℕ) → Call
  releases : (attempt_id : Text) (at_ms : ℕ) → Call
  observes : (attempt_id : Text) (observation : DeviceObservation) → Call

abbrev pub tables {ℓ} :
    {A : Type ℓ} → Result AttemptStoreError (Committed A) → Result AttemptStoreError Journal
tables (ok c) = ok c.journal
tables (err e) = err e

module _ (json : Json) where
  unfoldable pub call : Journal → Call → Result AttemptStoreError Journal
  unfolding bind_worker admit mark_running mark_finished enqueue_outbox_transaction
      record_outbox_delivery acknowledge_outbox prune_outbox_deliveries acquire_device_lease
      release_device_lease record_device_preflight
  call j (binds worker_id) = tables (bind_worker j worker_id)
  call j (admits assignment at_ms) = tables (admit json j assignment at_ms)
  call j (runs attempt_id at_ms) = tables (mark_running json j attempt_id at_ms)
  call j (finishes attempt_id result at_ms) = tables (mark_finished json j attempt_id result at_ms)
  call j (enqueues message at_ms) = tables (enqueue_outbox_transaction json j message at_ms)
  call j (delivers connection_id sequence message_id at_ms) =
      tables (record_outbox_delivery j connection_id sequence message_id at_ms)
  call j (acknowledges connection_id through) = tables (acknowledge_outbox j connection_id through)
  call j (prunes older_than_ms) = tables (prune_outbox_deliveries j older_than_ms)
  call j (acquires attempt_id device_id at_ms) =
      tables (acquire_device_lease j attempt_id device_id at_ms)
  call j (releases attempt_id at_ms) = tables (release_device_lease j attempt_id at_ms)
  call j (observes attempt_id observation) =
      tables (record_device_preflight json j attempt_id observation)

  -- A refused call leaves the journal as it is.
  unfoldable pub run : Journal → List Call → Journal
  unfolding call
  run j [] = j
  run j (c ∷ cs) = run (elim (call j c) [ ok j' ↦ j' | err _ ↦ j ]) cs
