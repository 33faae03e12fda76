-- ===== src/Events.antt =====
-- crates/alloyport-events/src/lib.rs: the interaction events, the producers' frames, and the
-- sequencer that gives them their canonical order. A `serde_json::Value` is a parameter, `V`.
pub mod Reducer
pub mod Pipeline
pub mod Identity
pub mod Examples
use alloyport.Prelude.{
  ℕ, zero, suc, ◌+◌, ◌-◌, ◌≡◌, ◌==◌, leb, Bool, not, Option, none, List, [], ◌∷◌, ◌++◌, length,
  if◌then◌else◌, Result, ok, err,
}
use alloyport.Prelude.Integers.{ℤ}
use alloyport.Prelude.Text.{Text, codes, text_eq, decimal}

abbrev pub event_schema_version : ℕ
event_schema_version = 1

abbrev pub u64_max : ℕ
u64_max = 18446744073709551615

abbrev pub saturating_add : ℕ → ℕ → ℕ
saturating_add a b = if leb (a + b) u64_max then a + b else u64_max

pub record Producer : Type 0 where
  pub component : Text
  pub instance_name : Text

pub data Authority : Type 0 where
  narrative reported observed verified : Authority

pub data Visibility : Type 0 where
  user diagnostic : Visibility

pub data MessageRole : Type 0 where
  assistant user system : MessageRole

pub data OutputStream : Type 0 where
  stdout stderr : OutputStream

pub data FileChangeKind : Type 0 where
  added modified deleted renamed binary : FileChangeKind

pub record FileChange : Type 0 where
  pub path : Text
  pub kind : FileChangeKind
  pub additions : Option ℕ
  pub deletions : Option ℕ
  pub before_digest : Option Text
  pub after_digest : Option Text

pub record ArtifactRef : Type 0 where
  pub digest : Text
  pub media_type : Text
  pub size_bytes : ℕ
  pub reference : Text

pub data Event (V : Type 0) : Type 0 where
  run_started : (task : Text) → Event V
  turn_started : (turn : ℕ) → Event V
  turn_completed : (turn : ℕ) (outcome : Text) → Event V
  turn_failed : (turn : ℕ) (error : Text) → Event V
  run_completed : (result : Text) → Event V
  run_failed : (error : Text) → Event V
  message_started : (role : MessageRole) → Event V
  message_delta : (text : Text) → Event V
  message_completed : Event V
  plan_updated : (entries : V) → Event V
  tool_started : (name : Text) (arguments : V) → Event V
  tool_completed : (name output : Text) → Event V
  tool_failed : (name error : Text) (output : Option Text) → Event V
  command_started :
      (command : Text) (cwd : Option Text) (execution_site : Text) (description : Option Text)
      → Event V
  command_output :
      (stream : OutputStream) (byte_offset : ℕ) (text : Text) (display_sanitized : Bool) → Event V
  command_completed :
      (exit_code : ℤ) (elapsed_ms : ℕ) (timed_out : Bool) (artifact : Option ArtifactRef) → Event V
  workspace_delta : (changes : List FileChange) (diff commit : Option Text) → Event V
  approval_requested : (action reason risk : Text) → Event V
  approval_resolved : (decision : Text) → Event V
  gate_started : (gate : Text) → Event V
  gate_completed : (gate : Text) (passed : Bool) (evidence : List ArtifactRef) → Event V
  artifact_produced : (artifact : ArtifactRef) → Event V
  warning : (message : Text) → Event V
  error : (message : Text) → Event V

pub record ProducerEvent (V : Type 0) : Type 0 where
  pub schema_version : ℕ
  pub run_id : Text
  pub task_id : Option Text
  pub turn_id : Option Text
  pub operation_id : Option Text
  pub parent_operation_id : Option Text
  pub producer_sequence : Option ℕ
  pub emitted_at_unix_ms : ℕ
  pub producer : Producer
  pub authority : Authority
  pub visibility : Visibility
  pub event : Event V

pub record EventEnvelope (V : Type 0) : Type 0 where
  pub schema_version : ℕ
  pub event_id : Text
  pub run_id : Text
  pub task_id : Option Text
  pub turn_id : Option Text
  pub operation_id : Option Text
  pub parent_operation_id : Option Text
  pub producer_sequence : Option ℕ
  pub sequence : ℕ
  pub emitted_at_unix_ms : ℕ
  pub producer : Producer
  pub authority : Authority
  pub visibility : Visibility
  pub event : Event V

pub record EventSequencer : Type 0 where
  pub run_id : Text
  pub next_sequence : ℕ

pub data ProtocolError : Type 0 where
  unsupported_schema : ℕ → ProtocolError
  run_mismatch : (expected actual : Text) → ProtocolError

-- The format `{sequence:020}`: at least twenty digits, with zeros in front.
zeros : ℕ → Text → Text
zeros zero t = t
zeros (suc n) t = 48 ∷ zeros n t

unfoldable pub padded : ℕ → Text
unfolding zeros decimal
padded n = let digits = decimal n in zeros (20 - length digits) digits

unfoldable pub event_id : Text → ℕ → Text
unfolding padded
event_id run_id sequence = run_id ++ codes ":" ++ padded sequence

module _ {V : Type 0} where
  -- ProducerEvent::new, at the time `now`
  unfoldable pub new_frame : Text → Producer → Event V → ℕ → ProducerEvent V
  new_frame run_id producer event now = record {
    schema_version = event_schema_version;
    run_id = run_id;
    task_id = none;
    turn_id = none;
    operation_id = none;
    parent_operation_id = none;
    producer_sequence = none;
    emitted_at_unix_ms = now;
    producer = producer;
    authority = observed;
    visibility = Visibility.user;
    event = event;
  }

  unfoldable pub envelope : Text → ℕ → ProducerEvent V → EventEnvelope V
  unfolding event_id
  envelope run_id sequence frame = record {
    schema_version = event_schema_version;
    event_id = event_id run_id sequence;
    run_id = run_id;
    task_id = frame.task_id;
    turn_id = frame.turn_id;
    operation_id = frame.operation_id;
    parent_operation_id = frame.parent_operation_id;
    producer_sequence = frame.producer_sequence;
    sequence = sequence;
    emitted_at_unix_ms = frame.emitted_at_unix_ms;
    producer = frame.producer;
    authority = frame.authority;
    visibility = frame.visibility;
    event = frame.event;
  }

unfoldable pub new_sequencer : Text → EventSequencer
new_sequencer run_id = record { run_id = run_id; next_sequence = 1 }

pub record Ingested (V : Type 0) : Type 0 where
  pub sequencer : EventSequencer
  pub result : EventEnvelope V

-- EventSequencer::ingest; a refusal leaves the sequencer as it is.
unfoldable pub ingest :
    {V : Type 0} → EventSequencer → ProducerEvent V → Result ProtocolError (Ingested V)
unfolding envelope text_eq
ingest s frame =
    if not (frame.schema_version == event_schema_version)
    then err (unsupported_schema frame.schema_version)
    else (if not (text_eq frame.run_id s.run_id)
        then err (run_mismatch s.run_id frame.run_id)
        else ok (record {
          sequencer = record s { next_sequence = saturating_add s.next_sequence 1 };
          result = envelope s.run_id s.next_sequence frame;
        }))
