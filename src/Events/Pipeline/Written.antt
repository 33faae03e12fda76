-- ===== src/Events/Pipeline/Written.antt =====
-- What the rendering loop of crates/alloyport-cli/src/events.rs writes, and where it stops.
use alloyport.Prelude.{
  ℕ, suc, ◌≡◌, refl, sym, ap, ◌∙◌, arith, ◌⊎◌, inl, inr, Bool, true, false, Option, none, some,
  List, [], ◌∷◌, Bool-cases, Result-cases, Result, ok, err,
}
use alloyport.Prelude.Text.{Text, text_eq_iff, is_blank}
use alloyport.Events.{
  ProducerEvent, EventEnvelope, EventSequencer, Ingested, event_schema_version, new_sequencer,
  ingest, saturating_add,
}
use alloyport.Events.Reducer.{
  RunReducer, ReduceError, Reply, Arm, arm_of, begins, ends, notes, starts, requires, finishes,
  unsupported_schema, unexpected_sequence, run_mismatch, new, handle, apply_known, apply,
}
use alloyport.Events.Reducer.Stream.{expected, is_stream}
use alloyport.Events.Reducer.Handled.{accepts, expected-suc}
use alloyport.Events.Reducer.Accepted.{
  run_of, Represents, apply-fits, apply-Represents, new-Represents,
}
use alloyport.Events.Pipeline.{RenderError, Rendered, reduce, or_new, render_lines, render_events}

-- The refusals of a reducer that concern the numbering, the run or the schema.
abbrev pub is_order_fault : ReduceError → Bool
is_order_fault (unsupported_schema _) = true
is_order_fault (unexpected_sequence _ _) = true
is_order_fault run_mismatch = true
is_order_fault _ = false

abbrev pub stops_out_of_order : {J : Type 0} → Option (RenderError J) → Bool
stops_out_of_order none = false
stops_out_of_order (some (reduce _ x)) = is_order_fault x
stops_out_of_order (some _) = false

abbrev faults_of : Result ReduceError (Unit {0}) → Bool
faults_of (ok _) = false
faults_of (err x) = is_order_fault x

abbrev faults : Reply → Bool
faults reply = faults_of reply.result

module _ {V : Type 0} where
  handle-faults :
      (r : RunReducer) (e : EventEnvelope V) (arm : Arm) → faults (handle r e arm) ≡ false
  unfolding handle
  handle-faults r e begins = ground arith
  handle-faults r e ends = ground arith
  handle-faults r e notes = refl
  handle-faults r e (starts kind) = ground arith
  handle-faults r e (requires kind) = ground arith
  handle-faults r e (finishes kind) = ground arith

  apply_known-faults : (r : RunReducer) (e : EventEnvelope V) → faults (apply_known r e) ≡ false
  unfolding apply_known
  apply_known-faults r e = ground (arith, handle-faults r e (arm_of e.event))

  -- The sequencer that a history has left behind.
  record Ready (q : EventSequencer) (h : List (EventEnvelope V)) : Type 0 where
    next : q.next_sequence ≡ expected h
    run : (run_of h ≡ none) ⊎ (run_of h ≡ some q.run_id)

  abbrev Tracks : Option EventSequencer → List (EventEnvelope V) → Type 0
  Tracks none h = h ≡ []
  Tracks (some q) h = Ready q h

  or_new-Ready :
      (s : Option EventSequencer) (frame : ProducerEvent V) (h : List (EventEnvelope V))
      → Tracks s h
      → Ready (or_new s frame) h
  unfolding new_sequencer
  or_new-Ready none frame h t = rw t (record { next = refl; run = inl refl })
  or_new-Ready (some q) frame h t = t

  ingest-ok :
      (q : EventSequencer) (frame : ProducerEvent V) (i : Ingested V)
      → ingest q frame ≡ ok i
      → (i.sequencer ≡ record q { next_sequence = saturating_add q.next_sequence 1 })
        × (i.result.sequence ≡ q.next_sequence)
        × (i.result.run_id ≡ q.run_id)
        × (i.result.schema_version ≡ event_schema_version)
  unfolding ingest
  ingest-ok q frame i h = ground arith

  ingested-Ready :
      (q : EventSequencer) (i : Ingested V) (h : List (EventEnvelope V))
      → Ready q h
      → i.sequencer ≡ record q { next_sequence = saturating_add q.next_sequence 1 }
      → i.result.run_id ≡ q.run_id
      → Ready i.sequencer (i.result ∷ h)
  ingested-Ready q i h y e u = record {
    next =
        ap (λ (s : EventSequencer). s.next_sequence) e
        ∙ ap (λ (j : ℕ). saturating_add j 1) y.next
        ∙ expected-suc i.result h;
    run = inr (ground (arith, e));
  }

  apply-faults :
      (r : RunReducer) (q : EventSequencer) (h : List (EventEnvelope V)) (e : EventEnvelope V)
      → Represents r h
      → Ready q h
      → e.sequence ≡ q.next_sequence
      → e.run_id ≡ q.run_id
      → e.schema_version ≡ event_schema_version
      → faults (apply r e) ≡ false
  unfolding apply
  apply-faults r q h e p y s u v = elim y.run [
    | inl n ↦
        ground
          (arith, p.run, p.next, y.next, apply_known-faults (record r { run_id = some e.run_id }) e)
    | inr n ↦
        ground (arith, p.run, p.next, y.next, apply_known-faults r e, text_eq_iff q.run_id e.run_id)
  ]

module _ {V J : Type 0} (parse : Text → Result J (ProducerEvent V)) where
  IsOrderly : List (EventEnvelope V) → Rendered V J → Type 0
  IsOrderly h d = (is_stream h d.written ≡ true) × (stops_out_of_order d.failure ≡ false)

  render_lines-IsOrderly :
      (n : ℕ) (s : Option EventSequencer) (r : RunReducer) (h : List (EventEnvelope V))
      (lines : List Text)
      → Tracks s h
      → Represents r h
      → IsOrderly h (render_lines parse n s r lines)
  unfolding render_lines IsOrderly is_stream
  render_lines-IsOrderly n s r h [] t p = (refl, refl)
  render_lines-IsOrderly n s r h (line ∷ lines) t p = elim (Bool-cases (is_blank line)) [
    | inl b ↦ rw b (render_lines-IsOrderly (suc n) s r h lines t p)
    | inr b ↦ elim (Result-cases (parse line)) [
      | inr (j, f) ↦ rw (b, f) (refl, refl)
      | inl (frame, f) ↦ elim (Result-cases (ingest (or_new s frame) frame)) [
        | inr (x, g) ↦ rw (b, f, g) (refl, refl)
        | inl (i, g) ↦
            let (q, e, u, v) = ingest-ok (or_new s frame) frame i g in
            let y = or_new-Ready s frame h t in
            elim (Result-cases (apply r i.result).result) [
              | inr (x, k) ↦
                  let safe = apply-faults r (or_new s frame) h i.result p y e u v in
                  rw (b, f, g, k) (refl, sym (ap faults_of k) ∙ safe)
              | inl (w, k) ↦
                  let a : accepts (apply r i.result) ≡ true = rw (k, accepts) refl in
                  let rest =
                    render_lines-IsOrderly (suc n) (some i.sequencer) (apply r i.result).reducer
                      (i.result ∷ h) lines (ingested-Ready (or_new s frame) i h y q u)
                      (apply-Represents r h i.result p a) in
                  rw (b, f, g, k, sym (apply-fits r h i.result p), a) rest
            ]
      ]
    ]
  ]

  -- Whatever the lines are, the envelopes that are written form a stream, each fitting those before
  -- it, and the loop never stops because an envelope that it has numbered itself is out of sequence,
  -- of another run or of an unsupported schema.
  pub render_events-is_stream :
      (lines : List Text)
      → (is_stream [] (render_events parse lines).written ≡ true)
        × (stops_out_of_order (render_events parse lines).failure ≡ false)
  unfolding render_events IsOrderly
  render_events-is_stream lines = render_lines-IsOrderly 1 none new [] lines refl new-Represents
