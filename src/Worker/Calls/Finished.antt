-- ===== src/Worker/Calls/Finished.antt =====
-- What a finished attempt leaves in the worker's journal (crates/alloyport-worker/src/adapters/sqlite/
-- attempt_store/lifecycle.rs).
use alloyport.Prelude.{
  subst, ℕ, ◌≡◌, refl, arith, ◌==◌, true, some, Bool-cases, Option-cases, Result-cases, inl, inr,
  ok,
}
use alloyport.Prelude.Text.{Text, text_eq, text_eq_iff}
use alloyport.Prelude.Maps.{get, put, get-put}
use alloyport.Worker.Journal.{
  Json, AttemptRow, MessageRow, Journal, StoredFinished, WorkerOutboxMessage, execution_finished,
  to_i64, phase_from,
}
use alloyport.Worker.Outbox.{compatible_admission, enqueue_outbox_transaction}
use alloyport.Worker.Lifecycle.{
  announce, finished_id, finish_row, mark_finished, durable_identity, DurableIdentity,
}
use alloyport.Worker.Calls.{tables}
use alloyport.Worker.Calls.Announced.{enqueue-Enqueues, announce-enqueue}

-- In `j'` the row of the attempt that `j` holds is finished with the result, and the outbox holds the
-- message that announces this result of this attempt.
pub record HasFinished (json : Json) (j j' : Journal) (id : Text) (result : StoredFinished)
    : Type 0 where
  pub before : AttemptRow
  pub was : get j.attempts id ≡ some before
  pub row : AttemptRow
  pub stored : get j'.attempts id ≡ some row
  pub assignment_id : row.assignment_id ≡ before.assignment_id
  pub phase : row.phase ≡ 3
  pub finished_json : row.finished_json ≡ some (json.finished_result result)
  pub message : MessageRow
  pub announced : get j'.messages (finished_id id) ≡ some message
  pub payload_json :
      message.payload_json ≡ json.payload (execution_finished before.assignment_id id result)

text_eq_self : (t : Text) → text_eq t t ≡ true
text_eq_self t = (text_eq_iff t t).1 refl

-- An enqueued message that is not an admission is in the outbox with its own payload, also when a
-- message of its identity was there.
enqueue-payload_json :
    (json : Json) (j j' : Journal) (id attempt_id assignment : Text) (f : StoredFinished)
    (at_ms : ℕ)
    → let m : WorkerOutboxMessage = record {
      message_id = id;
      attempt_id = attempt_id;
      payload = execution_finished assignment attempt_id f;
    } in
      tables (enqueue_outbox_transaction json j m at_ms) ≡ ok j'
      → (row : MessageRow) × (get j'.messages id ≡ some row)
        × (row.payload_json ≡ json.payload (execution_finished assignment attempt_id f))
unfolding enqueue_outbox_transaction compatible_admission
enqueue-payload_json json j j' id attempt_id assignment f at_ms h =
    elim (Option-cases (get j.messages id)) [
      | inl o ↦ elim (Result-cases (to_i64 at_ms)) [
        | inl (n, t) ↦
            let row : MessageRow = record {
              attempt_id = attempt_id;
              payload_json = json.payload (execution_finished assignment attempt_id f);
              created_at_ms = n;
            } in
            (row, ground (arith, get-put id id row j.messages, text_eq_self id), refl)
        | inr (e, t) ↦ absurd (ground arith)
      ]
      | inr (row, o) ↦
          let p = json.payload (execution_finished assignment attempt_id f) in
          (row, ground arith, ground (arith, text_eq_iff row.payload_json p))
    ]

-- The row that a finish leaves.
record HasResult (i : Journal) (id : Text) (before : AttemptRow) (result : Text) : Type 0 where
  row : AttemptRow
  stored : get i.attempts id ≡ some row
  assignment_id : row.assignment_id ≡ before.assignment_id
  phase : row.phase ≡ 3
  finished_json : row.finished_json ≡ some result

finish_row-HasResult :
    (json : Json) (j i : Journal) (id : Text) (row : AttemptRow) (text : Text) (at_ms : ℕ)
    → get j.attempts id ≡ some row
    → finish_row json j id row text at_ms ≡ ok i
    → HasResult i id row text
unfolding finish_row phase_from
finish_row-HasResult json j i id row text at_ms o h = elim (Bool-cases (row.phase == 3)) [
  | inl p ↦ record {
    row = row;
    stored = ground arith;
    assignment_id = refl;
    phase = ground arith;
    finished_json = elim (Option-cases row.finished_json) [
      | inl f ↦ absurd (ground arith)
      | inr (existing, f) ↦ ground (arith, text_eq_iff existing text)
    ];
  }
  | inr p ↦ elim (Result-cases (to_i64 at_ms)) [
    | inl (n, t) ↦
        let r : AttemptRow = record row {
          phase = 3;
          updated_at_ms = n;
          finished_json = some text;
        } in
        let e : i ≡ record j { attempts = put id r j.attempts } = ground arith in
        record {
          row = r;
          stored = rw (e, get-put id id r j.attempts, text_eq_self id) refl;
          assignment_id = refl;
          phase = refl;
          finished_json = refl;
        }
    | inr (e, t) ↦ absurd (ground arith)
  ]
]

-- When a finish is accepted, the journal had the attempt, and the journal it commits holds the result in
-- the attempt's row and, in the outbox, the message under the attempt's own identity whose payload is
-- the announcement of this result for this attempt and its assignment. This is so also when the row was
-- finished, or a message with this identity was in the outbox, before.
pub mark_finished-HasFinished :
    (json : Json) (j j' : Journal) (attempt_id : Text) (result : StoredFinished) (at_ms : ℕ)
    → tables (mark_finished json j attempt_id result at_ms) ≡ ok j'
    → HasFinished json j j' attempt_id result
unfolding mark_finished durable_identity
mark_finished-HasFinished json j j' id f at_ms h = elim (Option-cases (get j.attempts id)) [
  | inl o ↦ absurd (ground arith)
  | inr (row, o) ↦ elim (Result-cases (finish_row json j id row (json.finished_result f) at_ms)) [
    | inr (e, p) ↦ absurd (ground arith)
    | inl (i, p) ↦ elim (Result-cases (durable_identity row id)) [
      | inr (e, q) ↦ absurd (ground arith)
      | inl (d, q) ↦
          let m : WorkerOutboxMessage = record {
            message_id = finished_id id;
            attempt_id = id;
            payload = execution_finished d.assignment_id d.attempt_id f;
          } in
          let a : tables (announce json {A = Unit {0}} tt i m at_ms) ≡ ok j' = ground arith in
          let b = announce-enqueue json tt i j' m at_ms a in
          let s = (enqueue-Enqueues json i j' m at_ms b).attempts in
          let w = finish_row-HasResult json j i id row (json.finished_result f) at_ms o p in
          let same : d ≡ record { assignment_id = row.assignment_id; attempt_id = id } =
            ground arith in
          let (x, g, y) =
            enqueue-payload_json json i j' (finished_id id) id row.assignment_id f at_ms (
              subst
                (λ (y : DurableIdentity).
                  tables (
                    enqueue_outbox_transaction json i
                      (record {
                        message_id = finished_id id;
                        attempt_id = id;
                        payload = execution_finished y.assignment_id y.attempt_id f;
                      })
                      at_ms)
                  ≡ ok j')
                same b) in
          record {
            before = row;
            was = o;
            row = w.row;
            stored = rw s w.stored;
            assignment_id = w.assignment_id;
            phase = w.phase;
            finished_json = w.finished_json;
            message = x;
            announced = g;
            payload_json = y;
          }
    ]
  ]
]
