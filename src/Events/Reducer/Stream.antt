-- ===== src/Events/Reducer/Stream.antt =====
-- A reference description of an event stream (crates/alloyport-events/src/reducer.rs): what may
-- follow a history, read off the history itself, the latest event first.
use alloyport.Prelude.{
  ℕ, suc, ◌==◌, ltb, ◌&&◌, Bool, true, false, not, Option, none, some, List, [], ◌∷◌, any, all,
  is_empty, is_some, length, if◌then◌else◌,
}
use alloyport.Prelude.Text.{Text, text_eq}
use alloyport.Events.{EventEnvelope, event_schema_version, u64_max}
use alloyport.Events.Reducer.{
  OperationKind, kind_eq, Arm, arm_of, begins, ends, notes, starts, requires, finishes,
}

abbrev pub is_end : Arm → Bool
is_end ends = true
is_end _ = false

-- What an event does to the operation it is about.
abbrev pub after : Arm → Option OperationKind → Option OperationKind
after begins before = before
after ends before = before
after notes before = before
after (starts kind) before = some kind
after (requires _) before = before
after (finishes _) before = none

module _ {V : Type 0} where
  unfoldable pub concerns : EventEnvelope V → Text → Bool
  unfolding text_eq
  concerns e id = elim e.operation_id [ none ↦ false | some x ↦ text_eq x id ]

  -- The kind of the operation that is open under an identity.
  unfoldable pub open_under : List (EventEnvelope V) → Text → Option OperationKind
  unfolding concerns
  open_under [] id = none
  open_under (e ∷ h) id =
      let before = open_under h id in
      if concerns e id then after (arm_of e.event) before else before

  abbrev pub expected : List (EventEnvelope V) → ℕ
  expected h = if ltb (length h) u64_max then suc (length h) else u64_max

  -- Nothing is open under the identity of an event.
  unfoldable pub is_settled : List (EventEnvelope V) → EventEnvelope V → Bool
  unfolding open_under
  is_settled h e = elim e.operation_id [ none ↦ true | some id ↦ not (is_some (open_under h id)) ]

  unfoldable pub is_open_as : List (EventEnvelope V) → EventEnvelope V → OperationKind → Bool
  unfolding open_under
  is_open_as h e kind = elim e.operation_id [
    | none ↦ false
    | some id ↦ elim (open_under h id) [ none ↦ false | some actual ↦ kind_eq actual kind ]
  ]

  abbrev pub is_same_run : List (EventEnvelope V) → EventEnvelope V → Bool
  is_same_run [] e = true
  is_same_run (x ∷ h) e = text_eq x.run_id e.run_id

  unfoldable pub fits_arm : List (EventEnvelope V) → EventEnvelope V → Arm → Bool
  unfolding is_settled is_open_as
  fits_arm h e begins = is_empty h
  fits_arm h e ends = not (is_empty h) && all (is_settled h) h
  fits_arm h e notes = not (is_empty h)
  fits_arm h e (starts kind) = not (is_empty h) && is_some e.operation_id && is_settled h e
  fits_arm h e (requires kind) = not (is_empty h) && is_open_as h e kind
  fits_arm h e (finishes kind) = not (is_empty h) && is_open_as h e kind

  unfoldable pub fits : List (EventEnvelope V) → EventEnvelope V → Bool
  unfolding fits_arm text_eq
  fits h e =
      e.schema_version == event_schema_version
      && e.sequence == expected h
      && is_same_run h e
      && not (any (λ x. is_end (arm_of x.event)) h)
      && fits_arm h e (arm_of e.event)

  -- Every event of the sequence fits the history before it.
  unfoldable pub is_stream : List (EventEnvelope V) → List (EventEnvelope V) → Bool
  unfolding fits
  is_stream h [] = true
  is_stream h (e ∷ es) = fits h e && is_stream (e ∷ h) es
