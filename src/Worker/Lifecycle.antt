-- ===== src/Worker/Lifecycle.antt =====
-- crates/alloyport-worker/src/adapters/sqlite/attempt_store/lifecycle.rs: the identity of the worker and
-- the life of an attempt. Each operation is one transaction with its outbox message.
use alloyport.Prelude.{
  ℕ, Bool, true, false, not, none, some, ◌++◌, if◌then◌else◌, Result, ok, err, ok_or, ◌>>=◌,
}
use alloyport.Prelude.Text.{Text, codes, text_eq, is_blank}
use alloyport.Prelude.Maps.{get, put}
use alloyport.Execution.{AssignmentContract}
use alloyport.Worker.Journal.{
  StoredFinished, WorkerOutboxMessage, StoreAdmissionOutcome, AttemptStoreError, Json, AttemptRow,
  Journal, Committed, phase_number, phase_from, to_i64, accepted, running, finished,
  assignment_accepted, execution_started, execution_finished, not_found, conflicting_attempt,
  conflicting_finished, invalid_transition, worker_identity_mismatch, corrupt,
}
use alloyport.Worker.Outbox.{enqueue_outbox_transaction}

unfoldable pub bind_worker : Journal → Text → Result AttemptStoreError (Committed (Unit {0}))
unfolding text_eq
bind_worker j worker_id = elim j.worker_id [
  | some stored ↦
      if not (text_eq stored worker_id)
      then err (worker_identity_mismatch stored worker_id)
      else ok (record { outcome = tt; journal = j })
  | none ↦ ok (record { outcome = tt; journal = record j { worker_id = some worker_id } })
]

pub record DurableIdentity : Type 0 where
  pub assignment_id : Text
  pub attempt_id : Text

-- The identities are checked as the identity types are built.
unfoldable pub durable_identity : AttemptRow → Text → Result AttemptStoreError DurableIdentity
unfolding is_blank
durable_identity row attempt_id =
    if is_blank row.assignment_id
    then err
        (corrupt (codes "stored assignment identity is invalid: assignment ID must not be empty"))
    else (if is_blank attempt_id
        then err
            (corrupt (codes "stored attempt identity is invalid: attempt ID must not be empty"))
        else ok (record { assignment_id = row.assignment_id; attempt_id = attempt_id }))

abbrev pub accepted_message : AssignmentContract → Bool → WorkerOutboxMessage
accepted_message a known = record {
  message_id = codes "assignment-accepted:" ++ a.attempt_id;
  attempt_id = a.attempt_id;
  payload = assignment_accepted a.assignment_id a.attempt_id known;
}

abbrev pub started_id : Text → Text
started_id attempt_id = codes "execution-started:" ++ attempt_id

abbrev pub finished_id : Text → Text
finished_id attempt_id = codes "execution-finished:" ++ attempt_id

module _ (json : Json) where
  -- The message that a transaction enqueues last, with the outcome that it returns.
  unfoldable pub announce {ℓ} :
      {A : Type ℓ} → A → Journal → WorkerOutboxMessage → ℕ → Result AttemptStoreError (Committed A)
  unfolding enqueue_outbox_transaction
  announce outcome j m at_ms = do
    c ← enqueue_outbox_transaction json j m at_ms
    ok (record { outcome = outcome; journal = c.journal })

  unfoldable pub admit :
      Journal → AssignmentContract → ℕ → Result AttemptStoreError (Committed StoreAdmissionOutcome)
  unfolding announce get put to_i64 text_eq
  admit j a admitted_at_ms = elim (get j.attempts a.attempt_id) [
    | some row ↦
        if not (text_eq row.assignment_json (json.assignment a))
        then err (conflicting_attempt a.attempt_id)
        else announce StoreAdmissionOutcome.duplicate j (accepted_message a true) admitted_at_ms
    | none ↦ do
      admitted ← to_i64 admitted_at_ms
      let row : AttemptRow = record {
        assignment_id = a.assignment_id;
        assignment_json = json.assignment a;
        phase = phase_number accepted;
        admitted_at_ms = admitted;
        updated_at_ms = admitted;
        finished_json = none;
      }
      let j' : Journal = record j { attempts = put a.attempt_id row j.attempts }
      announce StoreAdmissionOutcome.inserted j' (accepted_message a false) admitted_at_ms
  ]

  -- The UPDATE of `mark_running`, if it is reached.
  unfoldable pub run_row : Journal → Text → AttemptRow → ℕ → Result AttemptStoreError Journal
  unfolding phase_from to_i64 put
  run_row j attempt_id row at_ms = do
    phase ← phase_from row.phase
    elim phase [
      | accepted ↦ do
        updated ← to_i64 at_ms
        let row' : AttemptRow = record row { phase = phase_number running; updated_at_ms = updated }
        ok (record j { attempts = put attempt_id row' j.attempts })
      | running ↦ ok j
      | finished ↦ err (invalid_transition finished running)
    ]

  unfoldable pub mark_running : Journal → Text → ℕ → Result AttemptStoreError (Committed (Unit {0}))
  unfolding get run_row durable_identity announce
  mark_running j attempt_id at_ms = do
    row ← ok_or (get j.attempts attempt_id) (not_found attempt_id)
    j' ← run_row j attempt_id row at_ms
    identity ← durable_identity row attempt_id
    let message : WorkerOutboxMessage = record {
      message_id = started_id attempt_id;
      attempt_id = attempt_id;
      payload = execution_started identity.assignment_id identity.attempt_id;
    }
    announce tt j' message at_ms

  -- The UPDATE of `mark_finished`, or the comparison with the result that is already there.
  unfoldable pub finish_row :
      Journal → Text → AttemptRow → Text → ℕ → Result AttemptStoreError Journal
  unfolding phase_from to_i64 put text_eq
  finish_row j attempt_id row finished_json at_ms = do
    phase ← phase_from row.phase
    let update : Result AttemptStoreError Journal = do
      updated ← to_i64 at_ms
      let row' : AttemptRow = record row {
        phase = phase_number finished;
        updated_at_ms = updated;
        finished_json = some finished_json;
      }
      ok (record j { attempts = put attempt_id row' j.attempts })
    elim phase [
      | finished ↦ elim row.finished_json [
        | some existing ↦
            if not (text_eq existing finished_json)
            then err (conflicting_finished attempt_id)
            else ok j
        | none ↦ err AttemptStoreError.storage
      ]
      | accepted ↦ update
      | running ↦ update
    ]

  unfoldable pub mark_finished :
      Journal → Text → StoredFinished → ℕ → Result AttemptStoreError (Committed (Unit {0}))
  unfolding get finish_row durable_identity announce
  mark_finished j attempt_id result at_ms = do
    row ← ok_or (get j.attempts attempt_id) (not_found attempt_id)
    j' ← finish_row j attempt_id row (json.finished_result result) at_ms
    identity ← durable_identity row attempt_id
    let message : WorkerOutboxMessage = record {
      message_id = finished_id attempt_id;
      attempt_id = attempt_id;
      payload = execution_finished identity.assignment_id identity.attempt_id result;
    }
    announce tt j' message at_ms
