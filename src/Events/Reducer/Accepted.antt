-- ===== src/Events/Reducer/Accepted.antt =====
-- The reducer of crates/alloyport-events/src/reducer.rs beside the description of event streams.
use alloyport.Prelude.{
  ℕ, ◌==◌, ◌≡◌, refl, sym, ◌∙◌, ap, arith, ◌&&◌, ◌||◌, Bool, true, false, not, Option, none, some,
  List, [], ◌∷◌, any, is_empty, Bool-cases, inl, inr,
}
use alloyport.Prelude.Text.{Text, text_eq_iff}
use alloyport.Prelude.Maps.{get}
use alloyport.Events.{EventEnvelope, saturating_add}
use alloyport.Events.Reducer.{
  RunReducer, Reply, new, apply, Arm, arm_of, begins, ends, notes, starts, requires, finishes,
  is_begin, handle, apply_known,
}
use alloyport.Events.Reducer.Stream.{is_end, open_under, expected, fits_arm, fits, is_stream}
use alloyport.Events.Reducer.Handled.{
  accepts, expected-suc, Meets, handle-fits_arm, handle-HasWritten,
}

abbrev counts : Reply → RunReducer
counts reply = record reply.reducer { next_sequence = saturating_add reply.reducer.next_sequence 1 }

module _ {V : Type 0} where
  abbrev pub run_of : List (EventEnvelope V) → Option Text
  run_of [] = none
  run_of (x ∷ h) = some x.run_id

  -- The reducer's fields as the history has them.
  pub record Represents (r : RunReducer) (h : List (EventEnvelope V)) : Type 0 where
    pub run : r.run_id ≡ run_of h
    pub next : r.next_sequence ≡ expected h
    pub started : r.started ≡ not (is_empty h)
    pub terminal : r.terminal ≡ any (λ x. is_end (arm_of x.event)) h
    pub active : (id : Text) → get r.active_operations id ≡ open_under h id

  fits_arm-unbegun :
      (h : List (EventEnvelope V)) (e : EventEnvelope V) (arm : Arm)
      → not (is_empty h) || is_begin arm ≡ false
      → fits_arm h e arm ≡ false
  unfolding fits_arm
  fits_arm-unbegun h e begins b = ground arith
  fits_arm-unbegun h e ends b = ground arith
  fits_arm-unbegun h e notes b = ground arith
  fits_arm-unbegun h e (starts kind) b = ground arith
  fits_arm-unbegun h e (requires kind) b = ground arith
  fits_arm-unbegun h e (finishes kind) b = ground arith

  has_ended : List (EventEnvelope V) → Bool
  has_ended h = any (λ x. is_end (arm_of x.event)) h

  apply_known-fits_arm :
      (r : RunReducer) (h : List (EventEnvelope V)) (e : EventEnvelope V)
      → Meets r h e
      → r.terminal ≡ has_ended h
      → accepts (apply_known r e) ≡ not (has_ended h) && fits_arm h e (arm_of e.event)
  unfolding apply_known
  apply_known-fits_arm r h e m t = elim (Bool-cases (r.started || is_begin (arm_of e.event))) [
    | inl b ↦ ground (arith, handle-fits_arm r h e (arm_of e.event) m b)
    | inr b ↦ ground (arith, m.started, fits_arm-unbegun h e (arm_of e.event))
  ]

  -- An accepted event has been handled, and counted.
  apply_known-handle :
      (r : RunReducer) (e : EventEnvelope V)
      → accepts (apply_known r e) ≡ true
      → (r.started || is_begin (arm_of e.event) ≡ true)
        × (accepts (handle r e (arm_of e.event)) ≡ true)
        × ((apply_known r e).reducer ≡ counts (handle r e (arm_of e.event)))
  unfolding apply_known
  apply_known-handle r e a = ground arith

  apply_known-Represents :
      (r : RunReducer) (h : List (EventEnvelope V)) (e : EventEnvelope V)
      → Meets r h e
      → r.run_id ≡ some e.run_id
      → r.next_sequence ≡ expected h
      → r.terminal ≡ has_ended h
      → accepts (apply_known r e) ≡ true
      → Represents (apply_known r e).reducer (e ∷ h)
  unfolding has_ended open_under
  apply_known-Represents r h e m u n t a =
      let (b, c, k) = apply_known-handle r e a in
      let w = handle-HasWritten r h e (arm_of e.event) m b c in
      rw k (record {
        run = w.run ∙ u;
        next = ap (λ (j : ℕ). saturating_add j 1) (w.next ∙ n) ∙ expected-suc e h;
        started = w.started;
        terminal = w.terminal ∙ ap (λ (j : Bool). is_end (arm_of e.event) || j) t;
        active = w.active;
      })

  -- An event is accepted exactly when it fits the history.
  pub apply-fits :
      (r : RunReducer) (h : List (EventEnvelope V)) (e : EventEnvelope V)
      → Represents r h
      → accepts (apply r e) ≡ fits h e
  unfolding apply fits has_ended
  apply-fits r [] e p = elim (Bool-cases (e.sequence == r.next_sequence)) [
    | inl s ↦
        let m : Meets (record r { run_id = some e.run_id }) [] e = record {
          started = p.started;
          active = p.active;
          sequence = ground (arith, p.next);
        } in
        ground (
          arith,
          p.run,
          p.next,
          apply_known-fits_arm (record r { run_id = some e.run_id }) [] e m p.terminal,
        )
    | inr s ↦ ground (arith, p.next)
  ]
  apply-fits r (x ∷ h) e p = elim (Bool-cases (e.sequence == r.next_sequence)) [
    | inl s ↦
        let m : Meets r (x ∷ h) e = record {
          started = p.started;
          active = p.active;
          sequence = ground (arith, p.next);
        } in
        ground (arith, p.run, p.next, apply_known-fits_arm r (x ∷ h) e m p.terminal)
    | inr s ↦ ground (arith, p.next)
  ]

  pub apply-Represents :
      (r : RunReducer) (h : List (EventEnvelope V)) (e : EventEnvelope V)
      → Represents r h
      → accepts (apply r e) ≡ true
      → Represents (apply r e).reducer (e ∷ h)
  unfolding apply has_ended
  apply-Represents r [] e p a =
      let s : e.sequence == r.next_sequence ≡ true = ground arith in
      let r' : RunReducer = record r { run_id = some e.run_id } in
      let m : Meets r' [] e = record {
        started = p.started;
        active = p.active;
        sequence = ground (arith, p.next);
      } in
      let k : apply r e ≡ apply_known r' e = ground (arith, p.run) in
      rw k (apply_known-Represents r' [] e m refl p.next p.terminal (sym (ap accepts k) ∙ a))
  apply-Represents r (x ∷ h) e p a =
      let s : e.sequence == r.next_sequence ≡ true = ground arith in
      let m : Meets r (x ∷ h) e = record {
        started = p.started;
        active = p.active;
        sequence = ground (arith, p.next);
      } in
      let k : apply r e ≡ apply_known r e = ground (arith, p.run) in
      let u : r.run_id ≡ some e.run_id = ground (arith, p.run, text_eq_iff x.run_id e.run_id) in
      rw k (apply_known-Represents r (x ∷ h) e m u p.next p.terminal (sym (ap accepts k) ∙ a))

  pub new-Represents : Represents new []
  unfolding open_under get
  new-Represents = record {
    run = refl;
    next = refl;
    started = refl;
    terminal = refl;
    active = λ id. refl;
  }

  -- Every event of the sequence is accepted.
  unfoldable pub accepts_all : RunReducer → List (EventEnvelope V) → Bool
  unfolding apply
  accepts_all r [] = true
  accepts_all r (e ∷ es) = accepts (apply r e) && accepts_all (apply r e).reducer es

  accepts_all-Represents :
      (r : RunReducer) (h es : List (EventEnvelope V))
      → Represents r h
      → accepts_all r es ≡ is_stream h es
  unfolding accepts_all is_stream
  accepts_all-Represents r h [] p = refl
  accepts_all-Represents r h (e ∷ es) p = elim (Bool-cases (fits h e)) [
    | inl f ↦
        let a = apply-fits r h e p ∙ f in
        rw (a, f)
          (accepts_all-Represents (apply r e).reducer (e ∷ h) es (apply-Represents r h e p a))
    | inr f ↦ rw (apply-fits r h e p, f) refl
  ]

  -- A fresh reducer accepts all events of a sequence exactly when each of them fits those before it:
  -- its schema is the supported one, its number is the next, its run is the same, the first and only
  -- the first starts the run, none follows an end, an end finds every operation settled, and the
  -- operations start, go on and finish in pairs of one kind and one identity.
  pub accepts_all-is_stream : (es : List (EventEnvelope V)) → accepts_all new es ≡ is_stream [] es
  accepts_all-is_stream es = accepts_all-Represents new [] es new-Represents
