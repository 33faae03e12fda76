-- ===== src/Events/Examples.antt =====
-- Tests of the events, and the properties at them.
use alloyport.Prelude.{ℕ, ◌+◌, ◌≡◌, refl, true, false, some, List, [], ◌∷◌, Result, ok, err}
use alloyport.Prelude.Text.{Text, codes}
use alloyport.Events.{
  Event, EventEnvelope, ProducerEvent, Producer, MessageRole, run_mismatch, new_frame, envelope,
  event_id,
}
use alloyport.Events.Identity.{event_id-injective}
use alloyport.Events.Reducer.{new}
use alloyport.Events.Reducer.Stream.{is_stream}
use alloyport.Events.Reducer.Accepted.{accepts_all, accepts_all-is_stream}
use alloyport.Events.Pipeline.{protocol, render_events}
use alloyport.Events.Pipeline.Written.{stops_out_of_order, render_events-is_stream}

abbrev producer : Producer
producer = record { component = codes "worker"; instance_name = codes "1" }

abbrev frame : Event ℕ → ProducerEvent ℕ
frame e = record (new_frame (codes "r") producer e 5) { operation_id = some (codes "m") }

abbrev events : List (EventEnvelope ℕ)
events =
    envelope (codes "r") 1 (frame (Event.run_started (codes "t")))
    ∷ envelope (codes "r") 2 (frame (Event.message_started MessageRole.assistant))
    ∷ envelope (codes "r") 3 (frame Event.message_completed)
    ∷ envelope (codes "r") 4 (frame (Event.run_completed (codes "done")))
    ∷ []

accepted : accepts_all new events ≡ true
unfolding accepts_all envelope new_frame
accepted = refl

-- The message is still open when the run ends.
refused :
    accepts_all new (
      envelope (codes "r") 1 (frame (Event.run_started (codes "t")))
      ∷ envelope (codes "r") 2 (frame (Event.message_started MessageRole.assistant))
      ∷ envelope (codes "r") 3 (frame (Event.run_completed (codes "done")))
      ∷ [])
    ≡ false
unfolding accepts_all envelope new_frame
refused = refl

accepts_all-is_stream_example : accepts_all new events ≡ is_stream [] events
accepts_all-is_stream_example = accepts_all-is_stream events

-- A stand-in for the parser: a line of one letter starts the run, a line of two warns, a line of three
-- is of another run.
abbrev parse : Text → Result ℕ (ProducerEvent ℕ)
parse [] = err 0
parse (c ∷ []) = ok (frame (Event.run_started []))
parse (c ∷ d ∷ []) = ok (frame (Event.warning []))
parse (c ∷ d ∷ e ∷ t) = ok (record (frame (Event.warning [])) { run_id = codes "s" })

abbrev lines : List Text
lines = codes "a" ∷ codes " " ∷ codes "bb" ∷ codes "ccc" ∷ codes "d" ∷ []

stopped :
    (render_events parse lines).failure ≡ some (protocol 4 (run_mismatch (codes "r") (codes "s")))
unfolding render_events new_frame
stopped = refl

render_events-is_stream_example :
    (is_stream [] (render_events parse lines).written ≡ true)
    × (stops_out_of_order (render_events parse lines).failure ≡ false)
render_events-is_stream_example = render_events-is_stream parse lines

abbrev seventh : ℕ
seventh = 7

event_id-injective_example : seventh ≡ 3 + 4
event_id-injective_example = event_id-injective (codes "r") seventh (3 + 4) refl

first_id : event_id (codes "r") 1203 ≡ codes "r:00000000000000001203"
unfolding event_id
first_id = refl
