-- ===== src/Worker/Leases.antt =====
-- crates/alloyport-worker/src/adapters/sqlite/attempt_store/device_lease.rs: the exclusive lease of a
-- device by an attempt, and the evidence of its preflight.
use alloyport.Prelude.{
  ℕ, ◌==◌, Bool, not, ◌&&◌, Option, none, some, List, [], ◌∷◌, is_some, if◌then◌else◌, Result, ok,
  err, ok_or, ◌>>=◌,
}
use alloyport.Prelude.Text.{Text, text_eq, is_blank}
use alloyport.Prelude.Maps.{Entry, get, put}
use alloyport.Execution.{DeviceObservation, observation_eq}
use alloyport.Worker.Journal.{
  LocalAttemptPhase, DeviceLeaseOutcome, DeviceReleaseOutcome, DevicePreflightOutcome,
  AttemptStoreError, Json, AttemptRow, LeaseRow, Journal, Committed, phase_number, phase_from,
  to_i64, accepted, running, finished, encoding, not_found, invalid_transition,
  device_already_leased, conflicting_device_lease, conflicting_device_preflight,
}

unfoldable pub is_active : LeaseRow → Bool
is_active l = not (is_some l.released_at_ms)

unfoldable pub holds : Text → LeaseRow → Bool
unfolding is_active text_eq
holds device_id l = text_eq l.device_id device_id && is_active l

-- The attempt with the active lease of a device.
unfoldable pub owner : List (Entry LeaseRow) → Text → Option Text
unfolding holds
owner [] device_id = none
owner (e ∷ m) device_id =
    let rest = owner m device_id in if holds device_id e.value then some e.key else rest

abbrev phase_eq : LocalAttemptPhase → LocalAttemptPhase → Bool
phase_eq a b = phase_number a == phase_number b

-- The lease that a successful acquisition leaves, by INSERT or by UPDATE.
abbrev pub grant : Journal → Text → Text → ℕ → Journal
grant j attempt_id device_id acquired = record j {
  leases =
      put attempt_id
        (record { device_id = device_id; acquired_at_ms = acquired; released_at_ms = none })
        j.leases;
}

unfoldable pub take_device :
    Journal → Text → Text → ℕ → Result AttemptStoreError (Committed DeviceLeaseOutcome)
unfolding owner to_i64 put
take_device j attempt_id device_id at_ms = elim (owner j.leases device_id) [
  | some holder ↦ err (device_already_leased device_id holder)
  | none ↦ do
    acquired ← to_i64 at_ms
    ok (record {
      outcome = DeviceLeaseOutcome.acquired;
      journal = grant j attempt_id device_id acquired;
    })
]

unfoldable pub acquire_device_lease :
    Journal → Text → Text → ℕ → Result AttemptStoreError (Committed DeviceLeaseOutcome)
unfolding is_blank get phase_from take_device text_eq is_active
acquire_device_lease j attempt_id device_id at_ms =
    if is_blank device_id then err (conflicting_device_lease attempt_id device_id) else (do
      row ← ok_or (get j.attempts attempt_id) (not_found attempt_id)
      phase ← phase_from row.phase
      (if phase_eq phase finished
          then err (invalid_transition finished running)
          else (elim (get j.leases attempt_id) [
            | none ↦ take_device j attempt_id device_id at_ms
            | some existing ↦
                if text_eq existing.device_id device_id && is_active existing
                then ok (record { outcome = DeviceLeaseOutcome.duplicate; journal = j })
                else (if not (text_eq existing.device_id device_id)
                    then err (conflicting_device_lease attempt_id existing.device_id)
                    else take_device j attempt_id device_id at_ms)
          ])))

unfoldable pub release_device_lease :
    Journal → Text → ℕ → Result AttemptStoreError (Committed DeviceReleaseOutcome)
unfolding get put to_i64 is_active
release_device_lease j attempt_id at_ms = do
  lease ← ok_or (get j.leases attempt_id) (not_found attempt_id)
  (if not (is_active lease)
      then ok (record { outcome = DeviceReleaseOutcome.already_released; journal = j })
      else (do
        released ← to_i64 at_ms
        let lease' : LeaseRow = record lease { released_at_ms = some released }
        ok (record {
          outcome = DeviceReleaseOutcome.released;
          journal = record j { leases = put attempt_id lease' j.leases };
        })))

module _ (json : Json) where
  -- The row that the join of the attempts with their active leases selects.
  unfoldable pub observe_device :
      Journal
      → Text
      → DeviceObservation
      → AttemptRow
      → LeaseRow
      → Result AttemptStoreError (Committed DevicePreflightOutcome)
  unfolding phase_from text_eq put
  observe_device j attempt_id observation row lease = do
    phase ← phase_from row.phase
    (if not (phase_eq phase accepted)
        then err (invalid_transition phase running)
        else (if not (text_eq lease.device_id observation.device_id)
            then err (conflicting_device_lease attempt_id lease.device_id)
            else ok (record {
              outcome = DevicePreflightOutcome.recorded;
              journal = record j {
                preflights = put attempt_id (json.observation observation) j.preflights;
              };
            })))

  unfoldable pub record_device_preflight :
      Journal
      → Text
      → DeviceObservation
      → Result AttemptStoreError (Committed DevicePreflightOutcome)
  unfolding get observation_eq observe_device is_active
  record_device_preflight j attempt_id observation = elim (get j.preflights attempt_id) [
    | some encoded ↦ do
      existing ← ok_or (json.read_observation encoded) encoding
      (if observation_eq existing observation
          then ok (record { outcome = DevicePreflightOutcome.duplicate; journal = j })
          else err (conflicting_device_preflight attempt_id))
    | none ↦ do
      row ← ok_or (get j.attempts attempt_id) (not_found attempt_id)
      lease ← ok_or (get j.leases attempt_id) (not_found attempt_id)
      (if not (is_active lease)
          then err (not_found attempt_id)
          else observe_device j attempt_id observation row lease)
  ]
