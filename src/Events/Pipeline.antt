-- ===== src/Events/Pipeline.antt =====
-- crates/alloyport-cli/src/events.rs: the loop that reads producers' frames, gives them their order,
-- validates them and writes them. The JSON parser is a parameter, and so is its error type, `J`;
-- the envelopes written stand for their rendered text.
pub mod Written
use alloyport.Prelude.{
  ℕ, suc, Bool, true, false, Option, none, some, List, [], ◌∷◌, if◌then◌else◌, Result, ok, err,
}
use alloyport.Prelude.Text.{Text, is_blank}
use alloyport.Events.{
  ProducerEvent, EventEnvelope, EventSequencer, ProtocolError, new_sequencer, ingest,
}
use alloyport.Events.Reducer.{RunReducer, ReduceError, new, apply}

-- The errors, each with the number of its line.
pub data RenderError (J : Type 0) : Type 0 where
  invalid_producer_event : (line_number : ℕ) → J → RenderError J
  protocol : (line_number : ℕ) → ProtocolError → RenderError J
  reduce : (line_number : ℕ) → ReduceError → RenderError J

pub record Rendered (V J : Type 0) : Type 0 where
  pub written : List (EventEnvelope V)
  pub failure : Option (RenderError J)

-- Option::get_or_insert_with
abbrev pub or_new : {V : Type 0} → Option EventSequencer → ProducerEvent V → EventSequencer
or_new none frame = new_sequencer frame.run_id
or_new (some s) frame = s

module _ {V J : Type 0} where
  abbrev stop : RenderError J → Rendered V J
  stop e = record { written = []; failure = some e }

  abbrev write : EventEnvelope V → Rendered V J → Rendered V J
  write e rest = record rest { written = e ∷ rest.written }

module _ {V J : Type 0} (parse : Text → Result J (ProducerEvent V)) where
  unfoldable pub render_lines : ℕ → Option EventSequencer → RunReducer → List Text → Rendered V J
  unfolding ingest apply is_blank new_sequencer
  render_lines n s r [] = record { written = []; failure = none }
  render_lines n s r (line ∷ lines) =
      let skipped = render_lines (suc n) s r lines in
      if is_blank line then skipped else (elim (parse line) [
        | err j ↦ stop (invalid_producer_event n j)
        | ok frame ↦ elim (ingest (or_new s frame) frame) [
          | err p ↦ stop (protocol n p)
          | ok i ↦ elim (apply r i.result).result [
            | err x ↦ stop (reduce n x)
            | ok _ ↦
                write i.result
                  (render_lines (suc n) (some i.sequencer) (apply r i.result).reducer lines)
          ]
        ]
      ])

  unfoldable pub render_events : List Text → Rendered V J
  unfolding render_lines
  render_events lines = render_lines 1 none new lines
