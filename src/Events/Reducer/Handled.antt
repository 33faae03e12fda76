-- ===== src/Events/Reducer/Handled.antt =====
-- The handling of one event by the reducer of crates/alloyport-events/src/reducer.rs beside the description of event streams.
use alloyport.Prelude.{
  ◌≡◌, refl, sym, ◌∙◌, arith, ◌||◌, Bool, true, false, not, none, some, List, [], ◌∷◌, all,
  is_empty, is_some, if◌then◌else◌, Bool-cases, Option-cases, inl, inr, ok, err, is_ok,
}
use alloyport.Prelude.Text.{Text, text_eq_iff}
use alloyport.Prelude.Maps.{Entry, get, get-put, get-remove, get-first}
use alloyport.Events.{EventEnvelope, saturating_add}
use alloyport.Events.Reducer.{
  RunReducer, OperationKind, Reply, Arm, begins, ends, notes, starts, requires, finishes, is_begin,
  require_operation, handle,
}
use alloyport.Events.Reducer.Stream.{
  is_end, after, concerns, open_under, expected, is_settled, is_open_as, fits_arm,
}

abbrev pub accepts : Reply → Bool
accepts reply = elim reply.result [ ok _ ↦ true | err _ ↦ false ]

module _ {V : Type 0} where
  pub expected-suc :
      (e : EventEnvelope V) (h : List (EventEnvelope V))
      → saturating_add (expected h) 1 ≡ expected (e ∷ h)
  expected-suc e h = ground arith

  concerns-is_settled :
      (h : List (EventEnvelope V)) (e : EventEnvelope V) (id : Text)
      → concerns e id ≡ true
      → is_settled h e ≡ not (is_some (open_under h id))
  unfolding concerns is_settled
  concerns-is_settled h e id c = elim (Option-cases e.operation_id) [
    | inl o ↦ ground arith
    | inr (x, o) ↦ let same : x ≡ id = (text_eq_iff x id).0 (ground arith) in rw (o, same) refl
  ]

  -- No operation is open exactly when every event of the history is settled.
  not-is_settled :
      (h g : List (EventEnvelope V)) (id : Text) (k l : OperationKind)
      → open_under h id ≡ some k
      → open_under g id ≡ some l
      → all (is_settled h) g ≡ false
  unfolding open_under concerns is_settled
  not-is_settled h [] id k l o p = cc
  not-is_settled h (e ∷ g) id k l o p = elim (Bool-cases (concerns e id)) [
    | inl c ↦ ground (arith, concerns-is_settled h e id c, o)
    | inr c ↦ ground (arith, not-is_settled h g id k l o, c)
  ]

  all-is_settled :
      (h g : List (EventEnvelope V))
      → ((id : Text) → open_under h id ≡ none)
      → all (is_settled h) g ≡ true
  unfolding is_settled
  all-is_settled h [] n = refl
  all-is_settled h (e ∷ g) n = elim (Option-cases e.operation_id) [
    | inl o ↦ rw o (all-is_settled h g n)
    | inr (id, o) ↦ rw (o, n id) (all-is_settled h g n)
  ]

  is_empty-is_settled :
      (m : List (Entry OperationKind)) (h : List (EventEnvelope V))
      → ((id : Text) → get m id ≡ open_under h id)
      → is_empty m ≡ all (is_settled h) h
  unfolding get
  is_empty-is_settled [] h a = sym (all-is_settled h h (λ id. sym (a id)))
  is_empty-is_settled (x ∷ m) h a =
      let o : open_under h x.key ≡ some x.value = sym (a x.key) ∙ get-first x m in
      sym (not-is_settled h h x.key x.value x.value o o)

  -- The facts about a reducer, its history and the next event that the arms rest on.
  pub record Meets (r : RunReducer) (h : List (EventEnvelope V)) (e : EventEnvelope V)
      : Type 0 where
    pub started : r.started ≡ not (is_empty h)
    pub active : (id : Text) → get r.active_operations id ≡ open_under h id
    pub sequence : e.sequence ≡ expected h

  require_operation-is_open_as :
      (r : RunReducer) (h : List (EventEnvelope V)) (e : EventEnvelope V) (kind : OperationKind)
      → ((id : Text) → get r.active_operations id ≡ open_under h id)
      → is_ok (require_operation r e kind) ≡ is_open_as h e kind
  unfolding require_operation is_open_as
  require_operation-is_open_as r h e kind a = elim (Option-cases e.operation_id) [
    | inl o ↦ ground (arith, o)
    | inr (id, o) ↦ ground (arith, o, a id)
  ]

  require_operation-some :
      (r : RunReducer) (e : EventEnvelope V) (kind : OperationKind)
      → is_ok (require_operation r e kind) ≡ true
      → (id : Text) × (e.operation_id ≡ some id)
  unfolding require_operation
  require_operation-some r e kind a = elim (Option-cases e.operation_id) [
    | inl o ↦ ground (arith, o)
    | inr p ↦ p
  ]

  pub handle-fits_arm :
      (r : RunReducer) (h : List (EventEnvelope V)) (e : EventEnvelope V) (arm : Arm)
      → Meets r h e
      → r.started || is_begin arm ≡ true
      → accepts (handle r e arm) ≡ fits_arm h e arm
  unfolding handle fits_arm
  handle-fits_arm r h e begins m b = ground (arith, m.started, m.sequence)
  handle-fits_arm r h e ends m b =
      ground (arith, m.started, is_empty-is_settled r.active_operations h m.active)
  handle-fits_arm r h e notes m b = ground (arith, m.started)
  handle-fits_arm r h e (starts kind) m b = elim (Option-cases e.operation_id) [
    | inl o ↦ rw o (ground (arith, m.started))
    | inr (id, o) ↦ rw (o, m.active id) (ground (arith, m.started))
  ]
  handle-fits_arm r h e (requires kind) m b =
      ground (arith, m.started, require_operation-is_open_as r h e kind m.active)
  handle-fits_arm r h e (finishes kind) m b = ground (
    arith,
    m.started,
    require_operation-is_open_as r h e kind m.active,
    require_operation-some r e kind,
  )

  -- What an accepted event has written.
  pub record HasWritten (r r' : RunReducer) (h : List (EventEnvelope V)) (e : EventEnvelope V)
      (arm : Arm) : Type 0 where
    pub run : r'.run_id ≡ r.run_id
    pub next : r'.next_sequence ≡ r.next_sequence
    pub started : r'.started ≡ true
    pub terminal : r'.terminal ≡ is_end arm || r.terminal
    pub active :
        (id : Text)
        → get r'.active_operations id
          ≡ (if concerns e id then after arm (open_under h id) else open_under h id)

  pub handle-HasWritten :
      (r : RunReducer) (h : List (EventEnvelope V)) (e : EventEnvelope V) (arm : Arm)
      → Meets r h e
      → r.started || is_begin arm ≡ true
      → accepts (handle r e arm) ≡ true
      → HasWritten r (handle r e arm).reducer h e arm
  unfolding handle concerns
  handle-HasWritten r h e begins m b a = record {
    run = ground arith;
    next = ground arith;
    started = ground arith;
    terminal = ground arith;
    active = λ id. ground (arith, m.active id);
  }
  handle-HasWritten r h e ends m b a = record {
    run = ground arith;
    next = ground arith;
    started = ground arith;
    terminal = ground arith;
    active = λ id. ground (arith, m.active id);
  }
  handle-HasWritten r h e notes m b a = record {
    run = refl;
    next = refl;
    started = ground arith;
    terminal = refl;
    active = λ id. ground (arith, m.active id);
  }
  handle-HasWritten r h e (starts kind) m b a = record {
    run = ground arith;
    next = ground arith;
    started = ground arith;
    terminal = ground arith;
    active = λ id. elim (Option-cases e.operation_id) [
      | inl o ↦ ground (arith, o)
      | inr (x, o) ↦ ground (arith, m.active id, get-put x id kind r.active_operations)
    ];
  }
  handle-HasWritten r h e (requires kind) m b a = record {
    run = refl;
    next = refl;
    started = ground arith;
    terminal = refl;
    active = λ id. ground (arith, m.active id);
  }
  handle-HasWritten r h e (finishes kind) m b a = record {
    run = ground arith;
    next = ground arith;
    started = ground arith;
    terminal = ground arith;
    active = λ id. elim (Option-cases e.operation_id) [
      | inl o ↦ ground (arith, o, require_operation-some r e kind)
      | inr (x, o) ↦ ground (arith, m.active id, get-remove x id r.active_operations)
    ];
  }
