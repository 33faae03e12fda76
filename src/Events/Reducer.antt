-- ===== src/Events/Reducer.antt =====
-- crates/alloyport-events/src/reducer.rs: the reducer that validates a run's canonical events. What
-- a refused event has written by then stays written, so a reply carries the reducer either way.
pub mod Stream
pub mod Handled
pub mod Accepted
use alloyport.Prelude.{
  ℕ, ◌==◌, ◌&&◌, ◌||◌, Bool, true, false, not, Option, none, some, List, [], is_empty, is_some,
  if◌then◌else◌, Result, ok, err, ok_or, ◌>>=◌,
}
use alloyport.Prelude.Text.{Text, text_eq}
use alloyport.Prelude.Maps.{Entry, get, put, remove, keys}
use alloyport.Events.{Event, EventEnvelope, event_schema_version, saturating_add}

pub data OperationKind : Type 0 where
  message tool command approval gate : OperationKind

pub record RunReducer : Type 0 where
  pub run_id : Option Text
  pub next_sequence : ℕ
  pub started : Bool
  pub terminal : Bool
  pub active_operations : List (Entry OperationKind)

pub data ReduceError : Type 0 where
  unsupported_schema : ℕ → ReduceError
  unexpected_sequence : (expected actual : ℕ) → ReduceError
  run_mismatch invalid_run_start run_not_started event_after_terminal : ReduceError
  missing_operation_id : ReduceError
  duplicate_operation operation_not_active : Text → ReduceError
  operations_still_active : List Text → ReduceError

abbrev pub new : RunReducer
new = record {
  run_id = none;
  next_sequence = 1;
  started = false;
  terminal = false;
  active_operations = [];
}

abbrev kind_number : OperationKind → ℕ
kind_number message = 0
kind_number tool = 1
kind_number command = 2
kind_number approval = 3
kind_number gate = 4

abbrev pub kind_eq : OperationKind → OperationKind → Bool
kind_eq a b = kind_number a == kind_number b

pub record Reply : Type 0 where
  pub result : Result ReduceError (Unit {0})
  pub reducer : RunReducer

abbrev refuse : RunReducer → ReduceError → Reply
refuse r e = record { result = err e; reducer = r }

abbrev accept : RunReducer → Reply
accept r = record { result = ok tt; reducer = r }

-- The arms of the match on an event.
pub data Arm : Type 0 where
  begins ends notes : Arm
  starts requires finishes : OperationKind → Arm

abbrev pub arm_of : {V : Type 0} → Event V → Arm
arm_of (Event.run_started _) = begins
arm_of (Event.run_completed _) = ends
arm_of (Event.run_failed _) = ends
arm_of (Event.message_started _) = starts message
arm_of (Event.message_delta _) = requires message
arm_of Event.message_completed = finishes message
arm_of (Event.tool_started _ _) = starts tool
arm_of (Event.tool_completed _ _) = finishes tool
arm_of (Event.tool_failed _ _ _) = finishes tool
arm_of (Event.command_started _ _ _ _) = starts command
arm_of (Event.command_output _ _ _ _) = requires command
arm_of (Event.command_completed _ _ _ _) = finishes command
arm_of (Event.approval_requested _ _ _) = starts approval
arm_of (Event.approval_resolved _) = finishes approval
arm_of (Event.gate_started _) = starts gate
arm_of (Event.gate_completed _ _ _) = finishes gate
arm_of (Event.turn_started _) = notes
arm_of (Event.turn_completed _ _) = notes
arm_of (Event.turn_failed _ _) = notes
arm_of (Event.plan_updated _) = notes
arm_of (Event.workspace_delta _ _ _) = notes
arm_of (Event.artifact_produced _) = notes
arm_of (Event.warning _) = notes
arm_of (Event.error _) = notes

abbrev pub is_begin : Arm → Bool
is_begin begins = true
is_begin _ = false

-- `self.next_sequence` advances after an event that is not refused.
abbrev counted : Reply → Reply
counted reply = elim reply.result [
  | err x ↦ refuse reply.reducer x
  | ok _ ↦
      accept (record reply.reducer { next_sequence = saturating_add reply.reducer.next_sequence 1 })
]

module _ {V : Type 0} where
  operation_id : EventEnvelope V → Result ReduceError Text
  operation_id e = ok_or e.operation_id missing_operation_id

  -- The insertion comes before the test of what it replaced.
  start_operation : RunReducer → EventEnvelope V → OperationKind → Reply
  unfolding operation_id get put
  start_operation r e kind = elim (operation_id e) [
    | err x ↦ refuse r x
    | ok id ↦
        let r' : RunReducer = record r { active_operations = put id kind r.active_operations } in
        if is_some (get r.active_operations id)
        then refuse r' (duplicate_operation id)
        else accept r'
  ]

  require_operation : RunReducer → EventEnvelope V → OperationKind → Result ReduceError (Unit {0})
  unfolding operation_id get
  require_operation r e expected = do
    id ← operation_id e
    elim (get r.active_operations id) [
      | some actual ↦ if kind_eq actual expected then ok tt else err (operation_not_active id)
      | none ↦ err (operation_not_active id)
    ]

  finish_operation : RunReducer → EventEnvelope V → OperationKind → Reply
  unfolding operation_id require_operation remove
  finish_operation r e expected = elim (require_operation r e expected >>= λ _. operation_id e) [
    | err x ↦ refuse r x
    | ok id ↦ accept (record r { active_operations = remove id r.active_operations })
  ]

  unfoldable pub handle : RunReducer → EventEnvelope V → Arm → Reply
  unfolding start_operation require_operation finish_operation
  handle r e begins =
      if r.started || not (e.sequence == 1)
      then refuse r invalid_run_start
      else accept (record r { started = true })
  handle r e ends =
      if not r.started
      then refuse r run_not_started
      else (if not (is_empty r.active_operations)
          then refuse r (operations_still_active (keys r.active_operations))
          else accept (record r { terminal = true }))
  handle r e (starts kind) = start_operation r e kind
  handle r e (requires kind) = record { result = require_operation r e kind; reducer = r }
  handle r e (finishes kind) = finish_operation r e kind
  handle r e notes = accept r

  -- The part of `apply` behind the test of the run's identity.
  unfoldable pub apply_known : RunReducer → EventEnvelope V → Reply
  unfolding handle
  apply_known r e =
      if r.terminal
      then refuse r event_after_terminal
      else (if not r.started && not (is_begin (arm_of e.event))
          then refuse r run_not_started
          else counted (handle r e (arm_of e.event)))

  unfoldable pub apply : RunReducer → EventEnvelope V → Reply
  unfolding apply_known text_eq
  apply r e =
      if not (e.schema_version == event_schema_version)
      then refuse r (unsupported_schema e.schema_version)
      else (if not (e.sequence == r.next_sequence)
          then refuse r (unexpected_sequence r.next_sequence e.sequence)
          else (elim r.run_id [
            | none ↦ apply_known (record r { run_id = some e.run_id }) e
            | some id ↦ if not (text_eq id e.run_id) then refuse r run_mismatch else apply_known r e
          ]))
