-- ===== src/Release/Task/Stages.antt =====
-- Sequences of calls of `Task::transition` (crates/alloyport-core/src/lib.rs), with the states they
-- have passed through.
use alloyport.Prelude.{
  ℕ, ◌==◌, ◌≡◌, refl, arith, Bool, true, List, [], ◌∷◌, any, all, Bool-cases, inl, inr, ok, err,
}
use alloyport.Release.Task.{
  TaskState, Task, transition, can_transition_to, captured, specified, generating, building,
  verifying, optimizing, integrating, releasable, released, failed,
}

abbrev position : TaskState → ℕ
position captured = 0
position specified = 1
position generating = 2
position building = 3
position verifying = 4
position optimizing = 5
position integrating = 6
position releasable = 7
position released = 8
position failed = 9

abbrev pub visited : List TaskState → TaskState → Bool
visited h s = any (λ x. position s == position x) h

-- A task with the states it has been in; a refused call leaves both as they are.
pub record Journey : Type 0 where
  pub task : Task
  pub history : List TaskState

abbrev pub move : Journey → TaskState → Journey
move j next = elim (transition j.task next) [
  | ok t ↦ record { task = t; history = next ∷ j.history }
  | err _ ↦ j
]

unfoldable pub travel : Journey → List TaskState → Journey
travel j [] = j
travel j (s ∷ ss) = travel (move j s) ss

-- The stages that lead to a state.
abbrev pub stages : TaskState → List TaskState
stages captured = captured ∷ []
stages specified = captured ∷ specified ∷ []
stages generating = captured ∷ specified ∷ generating ∷ []
stages building = captured ∷ specified ∷ generating ∷ building ∷ []
stages verifying = captured ∷ specified ∷ generating ∷ building ∷ verifying ∷ []
stages optimizing = captured ∷ specified ∷ generating ∷ building ∷ verifying ∷ optimizing ∷ []
stages integrating =
    captured ∷ specified ∷ generating ∷ building ∷ verifying ∷ optimizing ∷ integrating ∷ []
stages releasable =
    captured ∷ specified ∷ generating ∷ building ∷ verifying ∷ optimizing ∷ integrating ∷ releasable
    ∷ []
stages released =
    captured ∷ specified ∷ generating ∷ building ∷ verifying ∷ optimizing ∷ integrating ∷ releasable
    ∷ released ∷ []
stages failed = failed ∷ []

abbrev pub went_through : List TaskState → TaskState → Bool
went_through h s = all (visited h) (stages s)

step-went_through :
    (h : List TaskState) (a b : TaskState)
    → can_transition_to a b ≡ true
    → went_through h a ≡ true
    → went_through (b ∷ h) b ≡ true
unfolding can_transition_to
step-went_through h a captured c w = ground arith
step-went_through h a specified c w = ground arith
step-went_through h a generating c w = ground arith
step-went_through h a building c w = ground arith
step-went_through h a verifying c w = ground arith
step-went_through h a optimizing c w = ground arith
step-went_through h a integrating c w = ground arith
step-went_through h a releasable c w = ground arith
step-went_through h a released c w = ground arith
step-went_through h a failed c w = ground arith

record Arrived (j : Journey) : Type 0 where
  through : went_through j.history j.task.state ≡ true

move-Arrived : (j : Journey) (s : TaskState) → Arrived j → Arrived (move j s)
unfolding transition
move-Arrived j s a = record {
  through = elim (Bool-cases (can_transition_to j.task.state s)) [
    | inl c ↦ rw (c, move) (step-went_through j.history j.task.state s c a.through)
    | inr c ↦ rw (c, move) a.through
  ];
}

travel-Arrived : (j : Journey) (ss : List TaskState) → Arrived j → Arrived (travel j ss)
unfolding travel
travel-Arrived j [] a = a
travel-Arrived j (s ∷ ss) a = travel-Arrived (move j s) ss (move-Arrived j s a)

-- A task that starts captured and, after any calls, is released has been in every one of the nine
-- stages of the lifecycle.
pub travel-released :
    (t : Task) (calls : List TaskState)
    → t.state ≡ captured
    → (travel (record { task = t; history = captured ∷ [] }) calls).task.state ≡ released
    → all
        (visited (travel (record { task = t; history = captured ∷ [] }) calls).history)
        (stages released)
      ≡ true
travel-released t calls s r =
    let j : Journey = record { task = t; history = captured ∷ [] } in
    let a = travel-Arrived j calls (record { through = rw s refl }) in rw r at a.through
