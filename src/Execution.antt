-- ===== src/Execution.antt =====
-- crates/alloyport-core/src/execution.rs, assignment.rs and device.rs: the execution vocabulary with
-- its numbers on the wire, the assignment contract, and what is observed of a device.
pub mod Numbers
pub mod Examples
use alloyport.Prelude.{
  ℕ, ◌==◌, Bool, true, false, ◌&&◌, Option, none, some, List, [], ◌∷◌, if◌then◌else◌, Result, ok,
  err,
}
use alloyport.Prelude.Text.{Text, text_eq}
use alloyport.Prelude.Integers.{ℤ, pos, negsuc}
use alloyport.Digest.{Sha256Digest}

-- The conversions from a number are matches on its literals.
pub data ExecutionKind : Type 0 where
  process container shell cuda_fixture ascend_fixture ascend_build cuda_correctness
        ascend_correctness :
      ExecutionKind

abbrev pub execution_kind_number : ExecutionKind → ℕ
execution_kind_number process = 1
execution_kind_number container = 2
execution_kind_number shell = 3
execution_kind_number cuda_fixture = 4
execution_kind_number ascend_fixture = 5
execution_kind_number ascend_build = 6
execution_kind_number cuda_correctness = 7
execution_kind_number ascend_correctness = 8

unfoldable pub try_execution_kind : ℤ → Result ℤ ExecutionKind
try_execution_kind (negsuc n) = err (negsuc n)
try_execution_kind (pos n) =
    if n == 1
    then ok process
    else (if n == 2
        then ok container
        else (if n == 3
            then ok shell
            else (if n == 4
                then ok cuda_fixture
                else (if n == 5
                    then ok ascend_fixture
                    else (if n == 6
                        then ok ascend_build
                        else (if n == 7
                            then ok cuda_correctness
                            else (if n == 8 then ok ascend_correctness else err (pos n))))))))

pub data NetworkPolicy : Type 0 where
  unspecified disabled dependency_fetch : NetworkPolicy

abbrev pub network_policy_number : NetworkPolicy → ℕ
network_policy_number unspecified = 0
network_policy_number disabled = 1
network_policy_number dependency_fetch = 2

unfoldable pub try_network_policy : ℤ → Result ℤ NetworkPolicy
try_network_policy (negsuc n) = err (negsuc n)
try_network_policy (pos n) =
    if n == 0
    then ok unspecified
    else (if n == 1 then ok disabled else (if n == 2 then ok dependency_fetch else err (pos n)))

pub data AttemptOutcome : Type 0 where
  succeeded candidate_failed timed_out cancelled infra_error integrity_violation : AttemptOutcome

abbrev pub attempt_outcome_number : AttemptOutcome → ℕ
attempt_outcome_number succeeded = 1
attempt_outcome_number candidate_failed = 2
attempt_outcome_number timed_out = 3
attempt_outcome_number cancelled = 4
attempt_outcome_number infra_error = 5
attempt_outcome_number integrity_violation = 6

unfoldable pub try_attempt_outcome : ℤ → Result ℤ AttemptOutcome
try_attempt_outcome (negsuc n) = err (negsuc n)
try_attempt_outcome (pos n) =
    if n == 1
    then ok succeeded
    else (if n == 2
        then ok candidate_failed
        else (if n == 3
            then ok timed_out
            else (if n == 4
                then ok cancelled
                else (if n == 5
                    then ok infra_error
                    else (if n == 6 then ok integrity_violation else err (pos n))))))

pub data RejectionReason : Type 0 where
  invalid unsupported policy capacity conflict : RejectionReason

abbrev pub rejection_reason_number : RejectionReason → ℕ
rejection_reason_number invalid = 1
rejection_reason_number unsupported = 2
rejection_reason_number policy = 3
rejection_reason_number capacity = 4
rejection_reason_number conflict = 5

unfoldable pub try_rejection_reason : ℤ → Result ℤ RejectionReason
try_rejection_reason (negsuc n) = err (negsuc n)
try_rejection_reason (pos n) =
    if n == 1
    then ok invalid
    else (if n == 2
        then ok unsupported
        else (if n == 3
            then ok policy
            else (if n == 4 then ok capacity else (if n == 5 then ok conflict else err (pos n)))))

pub data DeviceHealth : Type 0 where
  ready degraded unhealthy recovering : DeviceHealth

abbrev pub device_health_number : DeviceHealth → ℕ
device_health_number ready = 1
device_health_number degraded = 2
device_health_number unhealthy = 3
device_health_number recovering = 4

unfoldable pub try_device_health : ℤ → Result ℤ DeviceHealth
try_device_health (negsuc n) = err (negsuc n)
try_device_health (pos n) =
    if n == 1
    then ok ready
    else (if n == 2
        then ok degraded
        else (if n == 3 then ok unhealthy else (if n == 4 then ok recovering else err (pos n))))

pub record ArtifactDescriptor : Type 0 where
  pub digest : Sha256Digest
  pub size_bytes : ℕ
  pub media_type : Text

pub record EnvironmentEntry : Type 0 where
  pub name : Text
  pub value : Text

pub record ResourceContract : Type 0 where
  pub cpu_millis : ℕ
  pub memory_bytes : ℕ
  pub disk_bytes : ℕ
  pub process_count : ℕ
  pub output_bytes : ℕ
  pub device_count : ℕ
  pub network : NetworkPolicy

pub record ExecutionContract : Type 0 where
  pub executor_kind : ExecutionKind
  pub argv : List Text
  pub working_directory : Text
  pub environment : List EnvironmentEntry
  pub timeout_ms : ℕ
  pub bundle : ArtifactDescriptor
  pub image : ArtifactDescriptor
  pub limits : Option ResourceContract

pub record AssignmentContract : Type 0 where
  pub assignment_id : Text
  pub attempt_id : Text
  pub attempt_number : ℕ
  pub idempotency_key : Text
  pub task_id : Text
  pub candidate_id : Text
  pub execution : ExecutionContract
  pub required_features : List Text

pub record DeviceObservation : Type 0 where
  pub device_id : Text
  pub health : DeviceHealth
  pub process_count : ℕ
  pub utilization_percent : ℕ
  pub memory_used_bytes : ℕ
  pub memory_total_bytes : ℕ
  pub temperature_millicelsius : ℕ
  pub power_milliwatts : ℕ
  pub observed_at_ms : ℕ
  pub detail : Text

-- The derived equality.
unfoldable pub observation_eq : DeviceObservation → DeviceObservation → Bool
unfolding text_eq
observation_eq a b =
    text_eq a.device_id b.device_id
    && device_health_number a.health == device_health_number b.health
    && a.process_count == b.process_count
    && a.utilization_percent == b.utilization_percent
    && a.memory_used_bytes == b.memory_used_bytes
    && a.memory_total_bytes == b.memory_total_bytes
    && a.temperature_millicelsius == b.temperature_millicelsius
    && a.power_milliwatts == b.power_milliwatts
    && a.observed_at_ms == b.observed_at_ms
    && text_eq a.detail b.detail

pub record DeviceLease : Type 0 where
  pub attempt_id : Text
  pub device_id : Text
  pub acquired_at_ms : ℕ
