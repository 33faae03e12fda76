-- ===== src/Worker/Journal.antt =====
-- crates/alloyport-worker/src/journal.rs: the attempt records, the outbox messages and the errors; and
-- the tables of the schema in adapters/sqlite/attempt_store.rs. The JSON encodings are parameters.
use alloyport.Prelude.{
  ℕ, ◌==◌, leb, Bool, Option, List, [], ◌++◌, none, if◌then◌else◌, Result, ok, err,
}
use alloyport.Prelude.Text.{Text, codes, decimal}
use alloyport.Prelude.Integers.{ℤ}
use alloyport.Prelude.Maps.{Entry}
use alloyport.Execution.{
  ArtifactDescriptor, AssignmentContract, AttemptOutcome, DeviceObservation, RejectionReason,
}

pub data LocalAttemptPhase : Type 0 where
  accepted running finished : LocalAttemptPhase

abbrev pub phase_number : LocalAttemptPhase → ℕ
phase_number accepted = 1
phase_number running = 2
phase_number finished = 3

pub record StoredFinished : Type 0 where
  pub outcome : AttemptOutcome
  pub exit_code : Option ℤ
  pub elapsed_ms : ℕ
  pub receipt : Option ArtifactDescriptor
  pub stdout : Option ArtifactDescriptor
  pub stderr : Option ArtifactDescriptor
  pub detail : Text

pub data WorkerOutboxPayload : Type 0 where
  assignment_accepted :
      (assignment_id attempt_id : Text) (already_known : Bool) → WorkerOutboxPayload
  assignment_rejected :
      (assignment_id attempt_id : Text) (reason : RejectionReason) (detail : Text)
      → WorkerOutboxPayload
  execution_started : (assignment_id attempt_id : Text) → WorkerOutboxPayload
  execution_finished :
      (assignment_id attempt_id : Text) (result : StoredFinished) → WorkerOutboxPayload
  cancellation_acknowledged :
      (assignment_id attempt_id : Text) (already_terminal : Bool) → WorkerOutboxPayload

pub record WorkerOutboxMessage : Type 0 where
  pub message_id : Text
  pub attempt_id : Text
  pub payload : WorkerOutboxPayload

pub data StoreAdmissionOutcome : Type 0 where
  inserted duplicate : StoreAdmissionOutcome

pub data StoreOutboxOutcome : Type 0 where
  inserted duplicate : StoreOutboxOutcome

pub data DeviceLeaseOutcome : Type 0 where
  acquired duplicate : DeviceLeaseOutcome

pub data DeviceReleaseOutcome : Type 0 where
  released already_released : DeviceReleaseOutcome

pub data DevicePreflightOutcome : Type 0 where
  recorded duplicate : DevicePreflightOutcome

-- `Storage` is here the violation of a constraint of the schema; a poisoned lock does not occur.
pub data AttemptStoreError : Type 0 where
  storage encoding : AttemptStoreError
  not_found conflicting_attempt : Text → AttemptStoreError
  invalid_transition : (from to : LocalAttemptPhase) → AttemptStoreError
  conflicting_finished conflicting_outbox_message : Text → AttemptStoreError
  worker_identity_mismatch : (stored requested : Text) → AttemptStoreError
  device_already_leased : (device_id attempt_id : Text) → AttemptStoreError
  conflicting_device_lease : (attempt_id device_id : Text) → AttemptStoreError
  conflicting_device_preflight corrupt : Text → AttemptStoreError

unfoldable pub phase_from : ℕ → Result AttemptStoreError LocalAttemptPhase
unfolding decimal
phase_from value =
    if value == 1
    then ok accepted
    else (if value == 2
        then ok running
        else (if value == 3
            then ok finished
            else err (corrupt (codes "unknown local attempt phase " ++ decimal value))))

abbrev pub i64_max : ℕ
i64_max = 9223372036854775807

unfoldable pub to_i64 : ℕ → Result AttemptStoreError ℕ
unfolding decimal
to_i64 value =
    if leb value i64_max
    then ok value
    else err (corrupt (codes "timestamp " ++ decimal value ++ codes " exceeds SQLite range"))

-- serde_json::to_string and serde_json::from_str on the types that the journal encodes.
pub record Json : Type 0 where
  pub assignment : AssignmentContract → Text
  pub finished_result : StoredFinished → Text
  pub payload : WorkerOutboxPayload → Text
  pub read_payload : Text → Option WorkerOutboxPayload
  pub observation : DeviceObservation → Text
  pub read_observation : Text → Option DeviceObservation

-- A row of `attempts`, under its attempt_id.
pub record AttemptRow : Type 0 where
  pub assignment_id : Text
  pub assignment_json : Text
  pub phase : ℕ
  pub admitted_at_ms : ℕ
  pub updated_at_ms : ℕ
  pub finished_json : Option Text

-- A row of `worker_outbox_messages`, under its message_id.
pub record MessageRow : Type 0 where
  pub attempt_id : Text
  pub payload_json : Text
  pub created_at_ms : ℕ

-- A row of `worker_outbox_deliveries`.
pub record DeliveryRow : Type 0 where
  pub connection_id : Text
  pub sequence : ℕ
  pub message_id : Text
  pub delivered_at_ms : ℕ

-- A row of `device_leases`, under its attempt_id.
pub record LeaseRow : Type 0 where
  pub device_id : Text
  pub acquired_at_ms : ℕ
  pub released_at_ms : Option ℕ

-- The tables; `preflights` has the observations' JSON under their attempt_id.
pub record Journal : Type 0 where
  pub worker_id : Option Text
  pub attempts : List (Entry AttemptRow)
  pub messages : List (Entry MessageRow)
  pub deliveries : List DeliveryRow
  pub leases : List (Entry LeaseRow)
  pub preflights : List (Entry Text)

abbrev pub new_journal : Journal
new_journal = record {
  worker_id = none;
  attempts = [];
  messages = [];
  deliveries = [];
  leases = [];
  preflights = [];
}

-- What a committed transaction returns, and the tables it leaves.
pub record Committed {ℓ} (A : Type ℓ) : Type ℓ where
  pub outcome : A
  pub journal : Journal
