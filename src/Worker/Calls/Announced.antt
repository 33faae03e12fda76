-- ===== src/Worker/Calls/Announced.antt =====
-- What the lifecycle's transactions on the worker's journal write (crates/alloyport-worker/src/adapters/
-- sqlite/attempt_store/lifecycle.rs and outbox.rs): one row of the attempts, one new message.
use alloyport.Prelude.{
  subst, ℕ, ◌≡◌, refl, arith, ◌==◌, Bool, true, false, not, none, some, List, ◌⊎◌, inl, inr,
  Bool-cases, Option-cases, Result-cases, ok,
}
use alloyport.Prelude.Text.{Text, text_eq}
use alloyport.Prelude.Maps.{Entry, get, put}
use alloyport.Execution.{AssignmentContract}
use alloyport.Worker.Journal.{
  Json, execution_started, execution_finished, StoreAdmissionOutcome, AttemptRow, MessageRow,
  Journal, StoredFinished, WorkerOutboxMessage, to_i64, phase_from,
}
use alloyport.Worker.Outbox.{enqueue_outbox_transaction}
use alloyport.Worker.Lifecycle.{
  announce, started_id, finished_id, accepted_message, admit, run_row, mark_running, finish_row,
  mark_finished, durable_identity,
}
use alloyport.Worker.Calls.{tables}

abbrev pub is_unfinished : List (Entry AttemptRow) → Text → Bool
is_unfinished m id = elim (get m id) [ none ↦ true | some row ↦ not (row.phase == 3) ]

abbrev pub Writes : List (Entry AttemptRow) → List (Entry AttemptRow) → Type 0
Writes m m' =
    (m' ≡ m)
    ⊎ ((id : Text) × (row : AttemptRow) × (m' ≡ put id row m) × (is_unfinished m id ≡ true))

abbrev pub Adds : List (Entry MessageRow) → List (Entry MessageRow) → Type 0
Adds m m' = (m' ≡ m) ⊎ ((id : Text) × (row : MessageRow) × (m' ≡ put id row m) × (get m id ≡ none))

pub record Announces (j j' : Journal) : Type 0 where
  pub attempts : Writes j.attempts j'.attempts
  pub messages : Adds j.messages j'.messages
  pub deliveries : j'.deliveries ≡ j.deliveries
  pub leases : j'.leases ≡ j.leases
  pub preflights : j'.preflights ≡ j.preflights

-- The same of the outbox alone.
pub record Enqueues (j j' : Journal) : Type 0 where
  pub attempts : j'.attempts ≡ j.attempts
  pub messages : Adds j.messages j'.messages
  pub deliveries : j'.deliveries ≡ j.deliveries
  pub leases : j'.leases ≡ j.leases
  pub preflights : j'.preflights ≡ j.preflights

module _ (json : Json) where
  pub enqueue-Enqueues :
      (j j' : Journal) (m : WorkerOutboxMessage) (at_ms : ℕ)
      → tables (enqueue_outbox_transaction json j m at_ms) ≡ ok j'
      → Enqueues j j'
  unfolding enqueue_outbox_transaction
  enqueue-Enqueues j j' m at_ms h = elim (Option-cases (get j.messages m.message_id)) [
    | inl o ↦ elim (Result-cases (to_i64 at_ms)) [
      | inl (n, t) ↦
          let row : MessageRow = record {
            attempt_id = m.attempt_id;
            payload_json = json.payload m.payload;
            created_at_ms = n;
          } in
          let e : j' ≡ record j { messages = put m.message_id row j.messages } = ground arith in
          rw e (record {
            attempts = refl;
            messages = inr (m.message_id, row, refl, o);
            deliveries = refl;
            leases = refl;
            preflights = refl;
          })
      | inr (e, t) ↦ absurd (ground arith)
    ]
    | inr (row, o) ↦
        let e : j' ≡ j = ground arith in
        rw e (record {
          attempts = refl;
          messages = inl refl;
          deliveries = refl;
          leases = refl;
          preflights = refl;
        })
  ]

  pub announce-enqueue {ℓ} :
      {A : Type ℓ} (a : A) (j j' : Journal) (m : WorkerOutboxMessage) (at_ms : ℕ)
      → tables (announce json a j m at_ms) ≡ ok j'
      → tables (enqueue_outbox_transaction json j m at_ms) ≡ ok j'
  unfolding announce
  announce-enqueue a j j' m at_ms h =
      elim (Result-cases (enqueue_outbox_transaction json j m at_ms)) [
        | inl (c, e) ↦ ground arith
        | inr (x, e) ↦ ground arith
      ]

  -- A transaction that has written an unfinished attempt, or nothing, before its message.
  announce-Announces {ℓ} :
      {A : Type ℓ} (a : A) (j i j' : Journal) (m : WorkerOutboxMessage) (at_ms : ℕ)
      → (i ≡ j)
        ⊎ ((id : Text) × (row : AttemptRow) × (i ≡ record j { attempts = put id row j.attempts })
            × (is_unfinished j.attempts id ≡ true))
      → tables (announce json a i m at_ms) ≡ ok j'
      → Announces j j'
  announce-Announces a j i j' m at_ms w h =
      let q = enqueue-Enqueues i j' m at_ms (announce-enqueue a i j' m at_ms h) in
      elim w [
        | inl e ↦
            let q' : Enqueues j j' = subst (λ x. Enqueues x j') e q in
            record {
              attempts = inl q'.attempts;
              messages = q'.messages;
              deliveries = q'.deliveries;
              leases = q'.leases;
              preflights = q'.preflights;
            }
        | inr (id, row, e, u) ↦
            let q' : Enqueues (record j { attempts = put id row j.attempts }) j' =
              subst (λ x. Enqueues x j') e q in
            record {
              attempts = inr (id, row, q'.attempts, u);
              messages = q'.messages;
              deliveries = q'.deliveries;
              leases = q'.leases;
              preflights = q'.preflights;
            }
      ]

  pub admit-Announces :
      (j j' : Journal) (a : AssignmentContract) (at_ms : ℕ)
      → tables (admit json j a at_ms) ≡ ok j'
      → Announces j j'
  unfolding admit
  admit-Announces j j' a at_ms h = elim (Option-cases (get j.attempts a.attempt_id)) [
    | inl o ↦ elim (Result-cases (to_i64 at_ms)) [
      | inl (n, t) ↦
          let row : AttemptRow = record {
            assignment_id = a.assignment_id;
            assignment_json = json.assignment a;
            phase = 1;
            admitted_at_ms = n;
            updated_at_ms = n;
            finished_json = none;
          } in
          let i : Journal = record j { attempts = put a.attempt_id row j.attempts } in
          let h' : tables
                (announce json StoreAdmissionOutcome.inserted i (accepted_message a false) at_ms)
              ≡ ok j' =
            ground arith in
          announce-Announces StoreAdmissionOutcome.inserted j i j' (accepted_message a false) at_ms
            (inr (a.attempt_id, row, refl, rw (o, is_unfinished) refl)) h'
      | inr (e, t) ↦ absurd (ground arith)
    ]
    | inr (row, o) ↦ elim (Bool-cases (text_eq row.assignment_json (json.assignment a))) [
      | inl s ↦
          let h' : tables
                (announce json StoreAdmissionOutcome.duplicate j (accepted_message a true) at_ms)
              ≡ ok j' =
            ground arith in
          announce-Announces StoreAdmissionOutcome.duplicate j j j' (accepted_message a true) at_ms
            (inl refl) h'
      | inr s ↦ absurd (ground arith)
    ]
  ]

  -- The row of a running attempt, or the row as it was.
  run_row-put :
      (j i : Journal) (id : Text) (row : AttemptRow) (at_ms : ℕ)
      → get j.attempts id ≡ some row
      → run_row json j id row at_ms ≡ ok i
      → (i ≡ j)
        ⊎ ((k : Text) × (r : AttemptRow) × (i ≡ record j { attempts = put k r j.attempts })
            × (is_unfinished j.attempts k ≡ true))
  unfolding run_row phase_from
  run_row-put j i id row at_ms o h = elim (Bool-cases (row.phase == 1)) [
    | inl p ↦ elim (Result-cases (to_i64 at_ms)) [
      | inl (n, t) ↦ inr (
        id,
        record row { phase = 2; updated_at_ms = n },
        ground arith,
        rw (o, is_unfinished) (ground arith),
      )
      | inr (e, t) ↦ absurd (ground arith)
    ]
    | inr p ↦ inl (ground arith)
  ]

  finish_row-put :
      (j i : Journal) (id : Text) (row : AttemptRow) (text : Text) (at_ms : ℕ)
      → get j.attempts id ≡ some row
      → finish_row json j id row text at_ms ≡ ok i
      → (i ≡ j)
        ⊎ ((k : Text) × (r : AttemptRow) × (i ≡ record j { attempts = put k r j.attempts })
            × (is_unfinished j.attempts k ≡ true))
  unfolding finish_row phase_from
  finish_row-put j i id row text at_ms o h = elim (Bool-cases (row.phase == 3)) [
    | inl p ↦ inl (ground arith)
    | inr p ↦ elim (Result-cases (to_i64 at_ms)) [
      | inl (n, t) ↦ inr (
        id,
        record row { phase = 3; updated_at_ms = n; finished_json = some text },
        ground arith,
        rw (o, is_unfinished) (ground arith),
      )
      | inr (e, t) ↦ absurd (ground arith)
    ]
  ]

  pub mark_running-Announces :
      (j j' : Journal) (id : Text) (at_ms : ℕ)
      → tables (mark_running json j id at_ms) ≡ ok j'
      → Announces j j'
  unfolding mark_running
  mark_running-Announces j j' id at_ms h = elim (Option-cases (get j.attempts id)) [
    | inl o ↦ absurd (ground arith)
    | inr (row, o) ↦ elim (Result-cases (run_row json j id row at_ms)) [
      | inr (e, p) ↦ absurd (ground arith)
      | inl (i, p) ↦ elim (Result-cases (durable_identity row id)) [
        | inr (e, q) ↦ absurd (ground arith)
        | inl (d, q) ↦
            let m : WorkerOutboxMessage = record {
              message_id = started_id id;
              attempt_id = id;
              payload = execution_started d.assignment_id d.attempt_id;
            } in
            let h' : tables (announce json {A = Unit {0}} tt i m at_ms) ≡ ok j' = ground arith in
            announce-Announces tt j i j' m at_ms (run_row-put j i id row at_ms o p) h'
      ]
    ]
  ]

  pub mark_finished-Announces :
      (j j' : Journal) (id : Text) (f : StoredFinished) (at_ms : ℕ)
      → tables (mark_finished json j id f at_ms) ≡ ok j'
      → Announces j j'
  unfolding mark_finished
  mark_finished-Announces j j' id f at_ms h = elim (Option-cases (get j.attempts id)) [
    | inl o ↦ absurd (ground arith)
    | inr (row, o) ↦ elim (Result-cases (finish_row json j id row (json.finished_result f) at_ms)) [
      | inr (e, p) ↦ absurd (ground arith)
      | inl (i, p) ↦ elim (Result-cases (durable_identity row id)) [
        | inr (e, q) ↦ absurd (ground arith)
        | inl (d, q) ↦
            let m : WorkerOutboxMessage = record {
              message_id = finished_id id;
              attempt_id = id;
              payload = execution_finished d.assignment_id d.attempt_id f;
            } in
            let h' : tables (announce json {A = Unit {0}} tt i m at_ms) ≡ ok j' = ground arith in
            announce-Announces tt j i j' m at_ms
              (finish_row-put j i id row (json.finished_result f) at_ms o p) h'
      ]
    ]
  ]
