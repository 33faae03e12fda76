-- ===== src/Execution/Numbers.antt =====
-- The numbers of the execution vocabulary (crates/alloyport-core/src/execution.rs and device.rs) and the
-- conversions back.
use alloyport.Prelude.{◌≡◌, arith, ◌↔◌, ok}
use alloyport.Prelude.Integers.{ℤ, pos, negsuc}
use alloyport.Execution.{
  ExecutionKind, NetworkPolicy, AttemptOutcome, RejectionReason, DeviceHealth,
  execution_kind_number, network_policy_number, attempt_outcome_number, rejection_reason_number,
  device_health_number, try_execution_kind, try_network_policy, try_attempt_outcome,
  try_rejection_reason, try_device_health,
}

try_execution_kind-execution_kind_number :
    (v : ℤ) (k : ExecutionKind)
    → (try_execution_kind v ≡ ok k) ↔ (v ≡ pos (execution_kind_number k))
unfolding try_execution_kind
try_execution_kind-execution_kind_number (negsuc n) k = (λ h. cc, λ h. cc)
try_execution_kind-execution_kind_number (pos n) ExecutionKind.process =
    (λ h. ground arith, λ h. ground arith)
try_execution_kind-execution_kind_number (pos n) ExecutionKind.container =
    (λ h. ground arith, λ h. ground arith)
try_execution_kind-execution_kind_number (pos n) ExecutionKind.shell =
    (λ h. ground arith, λ h. ground arith)
try_execution_kind-execution_kind_number (pos n) ExecutionKind.cuda_fixture =
    (λ h. ground arith, λ h. ground arith)
try_execution_kind-execution_kind_number (pos n) ExecutionKind.ascend_fixture =
    (λ h. ground arith, λ h. ground arith)
try_execution_kind-execution_kind_number (pos n) ExecutionKind.ascend_build =
    (λ h. ground arith, λ h. ground arith)
try_execution_kind-execution_kind_number (pos n) ExecutionKind.cuda_correctness =
    (λ h. ground arith, λ h. ground arith)
try_execution_kind-execution_kind_number (pos n) ExecutionKind.ascend_correctness =
    (λ h. ground arith, λ h. ground arith)

try_network_policy-network_policy_number :
    (v : ℤ) (k : NetworkPolicy)
    → (try_network_policy v ≡ ok k) ↔ (v ≡ pos (network_policy_number k))
unfolding try_network_policy
try_network_policy-network_policy_number (negsuc n) k = (λ h. cc, λ h. cc)
try_network_policy-network_policy_number (pos n) NetworkPolicy.unspecified =
    (λ h. ground arith, λ h. ground arith)
try_network_policy-network_policy_number (pos n) NetworkPolicy.disabled =
    (λ h. ground arith, λ h. ground arith)
try_network_policy-network_policy_number (pos n) NetworkPolicy.dependency_fetch =
    (λ h. ground arith, λ h. ground arith)

try_attempt_outcome-attempt_outcome_number :
    (v : ℤ) (k : AttemptOutcome)
    → (try_attempt_outcome v ≡ ok k) ↔ (v ≡ pos (attempt_outcome_number k))
unfolding try_attempt_outcome
try_attempt_outcome-attempt_outcome_number (negsuc n) k = (λ h. cc, λ h. cc)
try_attempt_outcome-attempt_outcome_number (pos n) AttemptOutcome.succeeded =
    (λ h. ground arith, λ h. ground arith)
try_attempt_outcome-attempt_outcome_number (pos n) AttemptOutcome.candidate_failed =
    (λ h. ground arith, λ h. ground arith)
try_attempt_outcome-attempt_outcome_number (pos n) AttemptOutcome.timed_out =
    (λ h. ground arith, λ h. ground arith)
try_attempt_outcome-attempt_outcome_number (pos n) AttemptOutcome.cancelled =
    (λ h. ground arith, λ h. ground arith)
try_attempt_outcome-attempt_outcome_number (pos n) AttemptOutcome.infra_error =
    (λ h. ground arith, λ h. ground arith)
try_attempt_outcome-attempt_outcome_number (pos n) AttemptOutcome.integrity_violation =
    (λ h. ground arith, λ h. ground arith)

try_rejection_reason-rejection_reason_number :
    (v : ℤ) (k : RejectionReason)
    → (try_rejection_reason v ≡ ok k) ↔ (v ≡ pos (rejection_reason_number k))
unfolding try_rejection_reason
try_rejection_reason-rejection_reason_number (negsuc n) k = (λ h. cc, λ h. cc)
try_rejection_reason-rejection_reason_number (pos n) RejectionReason.invalid =
    (λ h. ground arith, λ h. ground arith)
try_rejection_reason-rejection_reason_number (pos n) RejectionReason.unsupported =
    (λ h. ground arith, λ h. ground arith)
try_rejection_reason-rejection_reason_number (pos n) RejectionReason.policy =
    (λ h. ground arith, λ h. ground arith)
try_rejection_reason-rejection_reason_number (pos n) RejectionReason.capacity =
    (λ h. ground arith, λ h. ground arith)
try_rejection_reason-rejection_reason_number (pos n) RejectionReason.conflict =
    (λ h. ground arith, λ h. ground arith)

try_device_health-device_health_number :
    (v : ℤ) (k : DeviceHealth) → (try_device_health v ≡ ok k) ↔ (v ≡ pos (device_health_number k))
unfolding try_device_health
try_device_health-device_health_number (negsuc n) k = (λ h. cc, λ h. cc)
try_device_health-device_health_number (pos n) DeviceHealth.ready =
    (λ h. ground arith, λ h. ground arith)
try_device_health-device_health_number (pos n) DeviceHealth.degraded =
    (λ h. ground arith, λ h. ground arith)
try_device_health-device_health_number (pos n) DeviceHealth.unhealthy =
    (λ h. ground arith, λ h. ground arith)
try_device_health-device_health_number (pos n) DeviceHealth.recovering =
    (λ h. ground arith, λ h. ground arith)

-- Each conversion from a number gives a value exactly at that value's own number, for the executor kinds,
-- the network policies, the attempt outcomes, the rejection reasons and the device healths.
pub try_numbers_iff :
    (v : ℤ) (k : ExecutionKind) (p : NetworkPolicy) (o : AttemptOutcome) (r : RejectionReason)
    (h : DeviceHealth)
    → ((try_execution_kind v ≡ ok k) ↔ (v ≡ pos (execution_kind_number k)))
      × ((try_network_policy v ≡ ok p) ↔ (v ≡ pos (network_policy_number p)))
      × ((try_attempt_outcome v ≡ ok o) ↔ (v ≡ pos (attempt_outcome_number o)))
      × ((try_rejection_reason v ≡ ok r) ↔ (v ≡ pos (rejection_reason_number r)))
      × ((try_device_health v ≡ ok h) ↔ (v ≡ pos (device_health_number h)))
try_numbers_iff v k p o r h = (
  try_execution_kind-execution_kind_number v k,
  try_network_policy-network_policy_number v p,
  try_attempt_outcome-attempt_outcome_number v o,
  try_rejection_reason-rejection_reason_number v r,
  try_device_health-device_health_number v h,
)
