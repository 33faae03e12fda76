-- ===== src/Worker/Examples.antt =====
-- Tests of the worker's journal, and the properties at them.
use alloyport.Prelude.{
  ◌≤◌, ◌≡◌, refl, arith, false, none, some, List, [], ◌∷◌, ◌++◌, any, if◌then◌else◌, ok, err,
}
use alloyport.Prelude.Text.{Text, codes}
use alloyport.Prelude.Maps.{get}
use alloyport.Execution.{
  ArtifactDescriptor, AssignmentContract, ExecutionKind, AttemptOutcome, DeviceObservation,
  DeviceHealth,
}
use alloyport.Worker.Journal.{
  Json, Journal, AttemptRow, MessageRow, StoredFinished, new_journal, device_already_leased,
}
use alloyport.Worker.Outbox.{is_at}
use alloyport.Worker.Lifecycle.{mark_finished}
use alloyport.Worker.Calls.{Call, tables, call, run}
use alloyport.Worker.Calls.Exclusive.{holders, run-holders}
use alloyport.Worker.Calls.Durable.{run-finished, run-preflights}
use alloyport.Worker.Calls.Delivered.{is_settled, call-is_settled}
use alloyport.Worker.Calls.Acknowledged.{run-acknowledges}
use alloyport.Worker.Calls.Finished.{HasFinished, mark_finished-HasFinished}
use alloyport.Worker.Calls.Evidence.{IsObserved, run-IsObserved}

-- Stand-ins for the encodings.
abbrev json : Json
json = record {
  assignment = λ a. a.idempotency_key;
  finished_result = λ f. f.detail;
  payload = λ p. codes "payload";
  read_payload = λ t. none;
  observation = λ o. o.device_id;
  read_observation = λ t. none;
}

abbrev artifact : ArtifactDescriptor
artifact = record { digest = record { bytes = [] }; size_bytes = 8; media_type = codes "tar" }

abbrev assignment : Text → AssignmentContract
assignment id = record {
  assignment_id = codes "s" ++ id;
  attempt_id = id;
  attempt_number = 1;
  idempotency_key = codes "k" ++ id;
  task_id = codes "t";
  candidate_id = codes "c";
  execution = record {
    executor_kind = ExecutionKind.container;
    argv = codes "true" ∷ [];
    working_directory = codes ".";
    environment = [];
    timeout_ms = 1000;
    bundle = artifact;
    image = artifact;
    limits = none;
  };
  required_features = [];
}

abbrev done : StoredFinished
done = record {
  outcome = AttemptOutcome.succeeded;
  exit_code = none;
  elapsed_ms = 12;
  receipt = none;
  stdout = none;
  stderr = none;
  detail = codes "done";
}

abbrev seen : DeviceObservation
seen = record {
  device_id = codes "npu0";
  health = DeviceHealth.ready;
  process_count = 0;
  utilization_percent = 0;
  memory_used_bytes = 0;
  memory_total_bytes = 64;
  temperature_millicelsius = 40;
  power_milliwatts = 90;
  observed_at_ms = 3;
  detail = [];
}

-- The second attempt asks for the device of the first in vain.
abbrev calls : List Call
calls =
    Call.binds (codes "w")
    ∷ Call.admits (assignment (codes "a")) 1
    ∷ Call.admits (assignment (codes "b")) 1
    ∷ Call.acquires (codes "a") (codes "npu0") 2
    ∷ Call.acquires (codes "b") (codes "npu0") 2
    ∷ Call.observes (codes "a") seen
    ∷ Call.runs (codes "a") 4
    ∷ []

abbrev started : Journal
started = run json new_journal calls

contended :
    call json started (Call.acquires (codes "b") (codes "npu0") 5)
    ≡ err (device_already_leased (codes "npu0") (codes "a"))
unfolding run
contended = refl

run-holders_example : holders (codes "npu0") started.leases ≤ 1
run-holders_example = run-holders json calls (codes "npu0")

evidence : get started.preflights (codes "a") ≡ some (codes "npu0")
unfolding run
evidence = refl

run-IsObserved_example : IsObserved json started (codes "a") (codes "npu0")
run-IsObserved_example = run-IsObserved json calls (codes "a") (codes "npu0") evidence

run-preflights_example : get (run json started calls).preflights (codes "a") ≡ some (codes "npu0")
run-preflights_example = run-preflights json started calls (codes "a") (codes "npu0") evidence

abbrev ended : Journal
ended = run json started (Call.finishes (codes "a") done 9 ∷ [])

finish : tables (mark_finished json started (codes "a") done 9) ≡ ok ended
unfolding run
finish = refl

mark_finished-HasFinished_example : HasFinished json started ended (codes "a") done
mark_finished-HasFinished_example =
    mark_finished-HasFinished json started ended (codes "a") done 9 finish

abbrev finished_row : AttemptRow
finished_row = record {
  assignment_id = codes "sa";
  assignment_json = codes "ka";
  phase = 3;
  admitted_at_ms = 1;
  updated_at_ms = 9;
  finished_json = some (codes "done");
}

stored : get ended.attempts (codes "a") ≡ some finished_row
unfolding run
stored = refl

run-finished_example : get (run json ended calls).attempts (codes "a") ≡ some finished_row
run-finished_example = run-finished json ended calls (codes "a") finished_row stored refl

abbrev finished_message : MessageRow
finished_message = record {
  attempt_id = codes "a";
  payload_json = codes "payload";
  created_at_ms = 9;
}

pending : get ended.messages (codes "execution-finished:a") ≡ some finished_message
unfolding run
pending = refl

unused : any (is_at (codes "conn") 4) ended.deliveries ≡ false
unfolding run
unused = refl

run-acknowledges_example :
    get
      (run json ended (
        Call.delivers (codes "conn") 4 (codes "execution-finished:a") 10
        ∷ Call.acknowledges (codes "conn") 6
        ∷ [])).messages
      (codes "execution-finished:a")
    ≡ none
run-acknowledges_example =
    run-acknowledges json ended (codes "conn") (codes "execution-finished:a") 4 10 6
      finished_message pending unused (omega arith) (omega arith) (omega arith)

abbrev sent : Journal
sent = run json ended (Call.delivers (codes "conn") 4 (codes "execution-finished:a") 10 ∷ [])

abbrev early : Journal
early = run json sent (Call.acknowledges (codes "conn") 3 ∷ [])

still_pending : get sent.messages (codes "execution-finished:a") ≡ some finished_message
unfolding run
still_pending = refl

acknowledged : call json sent (Call.acknowledges (codes "conn") 3) ≡ ok early
unfolding run
acknowledged = refl

call-is_settled_example : get early.messages (codes "execution-finished:a") ≡ (
    if is_settled (Call.acknowledges (codes "conn") 3) sent (codes "execution-finished:a")
    then none
    else some finished_message)
call-is_settled_example =
    call-is_settled json sent early (Call.acknowledges (codes "conn") 3)
      (codes "execution-finished:a") finished_message still_pending acknowledged
