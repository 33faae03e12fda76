-- ===== src/Execution/Examples.antt =====
-- Tests of the execution vocabulary, and the property at them.
use alloyport.Prelude.{◌≡◌, refl, ◌↔◌, ok, err}
use alloyport.Prelude.Integers.{pos}
use alloyport.Execution.{
  ExecutionKind, NetworkPolicy, AttemptOutcome, RejectionReason, DeviceHealth, try_execution_kind,
  try_network_policy, try_attempt_outcome, try_rejection_reason, try_device_health,
}
use alloyport.Execution.Numbers.{try_numbers_iff}

shell_number : try_execution_kind (pos 3) ≡ ok ExecutionKind.shell
unfolding try_execution_kind
shell_number = refl

no_kind : try_execution_kind (pos 9) ≡ err (pos 9)
unfolding try_execution_kind
no_kind = refl

try_numbers_iff_example :
    ((try_execution_kind (pos 2) ≡ ok ExecutionKind.container) ↔ (pos 2 ≡ pos 2))
    × ((try_network_policy (pos 2) ≡ ok NetworkPolicy.dependency_fetch) ↔ (pos 2 ≡ pos 2))
    × ((try_attempt_outcome (pos 2) ≡ ok AttemptOutcome.candidate_failed) ↔ (pos 2 ≡ pos 2))
    × ((try_rejection_reason (pos 2) ≡ ok RejectionReason.unsupported) ↔ (pos 2 ≡ pos 2))
    × ((try_device_health (pos 2) ≡ ok DeviceHealth.degraded) ↔ (pos 2 ≡ pos 2))
try_numbers_iff_example =
    try_numbers_iff (pos 2) ExecutionKind.container NetworkPolicy.dependency_fetch
      AttemptOutcome.candidate_failed RejectionReason.unsupported DeviceHealth.degraded
