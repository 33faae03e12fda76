-- ===== src/Runtime/Step/Attempts.antt =====
-- The numbers and identities of the attempts of an Episode, and the turns that they stand for
-- (`prepare_attempt` and `drive_model`).
use alloyport.Prelude.{
  ℕ, suc, ◌+◌, ◌≡◌, ◌≢◌, ◌≤◌, refl, sym, ◌∙◌, ap, Bool, true, false, none, some, List, [], ◌∷◌,
  push, last, set_last, length, length-push, arith, ok, Result-cases, Bool-cases, Option-cases, inl,
  inr, if◌then◌else◌,
}
use alloyport.Prelude.Text.{Text}
use alloyport.Model.Attempt.{
  ModelAttemptRecord, ModelAttemptStatus, is_dispatching, finish_without_response,
}
use alloyport.Runtime.State
use alloyport.Runtime.State.{DurableEpisodeState, DurableTurn}
use alloyport.Runtime.Identity.{derived_model_attempt_id}
use alloyport.Runtime.ModelTurn.{attempt_error}
use alloyport.Runtime.Runner.{abandon_attempt}
use alloyport.Runtime.Run.{Fresh}
use alloyport.Runtime.Step.{Step}
use alloyport.Runtime.Step.Facts.{finish_ok}
use alloyport.Runtime.Step.Cancel.{Withdrawn, withdrawn, cancel_state_ok}

-- The attempts after the first `n` of an Episode.
unfoldable pub Numbered : Text → ℕ → List ModelAttemptRecord → Type 0
Numbered id n [] = Unit
Numbered id n (a ∷ rs) =
    (a.attempt_number ≡ suc n)
    × (derived_model_attempt_id id a.attempt_number ≡ ok a.id)
    × Numbered id (suc n) rs

abbrev is_decoded : ModelAttemptStatus → Bool
is_decoded ModelAttemptStatus.decoded = true
is_decoded _ = false

unfoldable pub count_decoded : List ModelAttemptRecord → ℕ
count_decoded [] = 0
count_decoded (a ∷ rs) =
    let rest = count_decoded rs in if is_decoded a.status then suc rest else rest

pub record IsAccounted (episode_id : Text) (s : DurableEpisodeState) : Type 0 where
  pub numbered : Numbered episode_id 0 s.attempts
  pub accounted : count_decoded s.attempts ≡ length s.turns

Numbered-push :
    (id : Text) (n : ℕ) (rs : List ModelAttemptRecord) (a : ModelAttemptRecord)
    → Numbered id n rs
    → a.attempt_number ≡ suc (n + length rs)
    → derived_model_attempt_id id a.attempt_number ≡ ok a.id
    → Numbered id n (push rs a)
unfolding Numbered
Numbered-push id n [] a h number derived = (ground arith, derived, tt)
Numbered-push id n (b ∷ rs) a (first, named, rest) number derived =
    (first, named, Numbered-push id (suc n) rs a rest (ground arith) derived)

-- The last attempt may change in all but its specification.
Numbered-set_last :
    (id : Text) (n : ℕ) (rs : List ModelAttemptRecord) (a a' : ModelAttemptRecord)
    → last rs ≡ some a
    → a'.spec ≡ a.spec
    → Numbered id n rs
    → Numbered id n (set_last rs a')
unfolding Numbered
Numbered-set_last id n [] a a' newest same h = tt
Numbered-set_last id n (b ∷ []) a a' newest same (first, named, rest) =
    let here : b ≡ a = ground arith in
    let spec : a'.spec ≡ b.spec = rw here same in (rw spec first, rw spec named, tt)
Numbered-set_last id n (b ∷ c ∷ rs) a a' newest same (first, named, rest) =
    (first, named, Numbered-set_last id (suc n) (c ∷ rs) a a' newest same rest)

count-push :
    (rs : List ModelAttemptRecord) (a : ModelAttemptRecord)
    → is_decoded a.status ≡ false
    → count_decoded (push rs a) ≡ count_decoded rs
unfolding count_decoded
count-push [] a h = ground arith
count-push (b ∷ rs) a h = rw (count-push rs a h) refl

-- What changing the last attempt makes of the count.
count-set_last :
    (rs : List ModelAttemptRecord) (a a' : ModelAttemptRecord)
    → last rs ≡ some a
    → is_decoded a.status ≡ false
    → count_decoded (set_last rs a')
      ≡ (if is_decoded a'.status then suc (count_decoded rs) else count_decoded rs)
unfolding count_decoded
count-set_last [] a a' newest h = ground arith
count-set_last (b ∷ []) a a' newest h = ground arith
count-set_last (b ∷ c ∷ rs) a a' newest h = ground (arith, count-set_last (c ∷ rs) a a' newest h)

count_le : (rs : List ModelAttemptRecord) → count_decoded rs ≤ length rs
unfolding count_decoded
count_le [] = ground arith
count_le (a ∷ rs) = ground (arith, count_le rs)

-- An attempt that was abandoned keeps its specification, and was not decoded.
abandon_attempt-keeps :
    (id : Text) (rs rs' : List ModelAttemptRecord)
    → abandon_attempt rs ≡ ok rs'
    → Numbered id 0 rs
    → Numbered id 0 rs' × (count_decoded rs' ≡ count_decoded rs)
unfolding abandon_attempt
abandon_attempt-keeps id rs rs' e h = elim (Option-cases (last rs)) [
  | inl none' ↦ let same : rs ≡ rs' = ground arith in rw (← same) (h, refl)
  | inr (a, newest) ↦ elim (Bool-cases (is_dispatching a.status)) [
    | inr other ↦ let same : rs ≡ rs' = ground arith in rw (← same) (h, refl)
    | inl sent ↦
        elim (Result-cases
          (attempt_error (finish_without_response a ModelAttemptStatus.cancelled_ambiguous none))) [
            | inr (x, e₁) ↦ ground arith
            | inl (a', e₁) ↦
                let same : set_last rs a' ≡ rs' = ground arith in
                let (ended, status) = finish_ok a a' _ _ e₁ in
                let count = count-set_last rs a a' newest (ground arith) in
                rw (← same)
                  (Numbered-set_last id 0 rs a a' newest ended.0 h, count ∙ rw status refl)
          ]
  ]
]

Withdrawn-IsAccounted :
    (id : Text) (s s' : DurableEpisodeState) → Withdrawn s s' → IsAccounted id s → IsAccounted id s'
Withdrawn-IsAccounted id s _ (withdrawn attempts ops next e₁ e₂ e) h =
    let (numbered, count) = abandon_attempt-keeps id s.attempts attempts e₁ h.numbered in
    record { numbered = numbered; accounted = count ∙ h.accounted }

-- A state in which only the last attempt has changed, and is not decoded.
concluded_IsAccounted :
    (id : Text) (s s' : DurableEpisodeState) (a a' : ModelAttemptRecord)
    → last s.attempts ≡ some a
    → is_decoded a.status ≡ false
    → is_decoded a'.status ≡ false
    → a'.spec ≡ a.spec
    → s'.attempts ≡ set_last s.attempts a'
    → s'.turns ≡ s.turns
    → IsAccounted id s
    → IsAccounted id s'
concluded_IsAccounted id s s' a a' newest sent ended same attempts turns h = record {
  numbered = rw attempts (Numbered-set_last id 0 s.attempts a a' newest same h.numbered);
  accounted =
      let count = count-set_last s.attempts a a' newest sent in
      rw (attempts, turns, count, ended) h.accounted;
}

not_decoded : (s : ModelAttemptStatus) → s ≢ ModelAttemptStatus.decoded → is_decoded s ≡ false
not_decoded s h = ground arith

pub step-IsAccounted :
    (episode_id : Text) (s s' : DurableEpisodeState)
    → Step episode_id s s'
    → IsAccounted episode_id s
    → IsAccounted episode_id s'
step-IsAccounted episode_id s _ (Step.move _ _ _ _ _) h = record {
  numbered = h.numbered;
  accounted = h.accounted;
}
step-IsAccounted episode_id s _ (Step.prepare _ a ready wanted within fresh number id) h = record {
  numbered = Numbered-push episode_id 0 s.attempts a h.numbered (ground arith) id;
  accounted = count-push s.attempts a (ground arith) ∙ h.accounted;
}
step-IsAccounted episode_id s _ (Step.dispatch _ a pending newest ready) h =
    concluded_IsAccounted episode_id s _ a _ newest (ground arith) refl refl refl refl h
step-IsAccounted episode_id s _
      (Step.conclude _ a a' k next pending newest sent same ended other after) h =
    concluded_IsAccounted episode_id s _ a a' newest (ground arith) (not_decoded a'.status other)
      same refl refl h
step-IsAccounted episode_id s _ (Step.interrupt _ a a' k pending newest sent same ended asked) h =
    concluded_IsAccounted episode_id s _ a a' newest (ground arith) (ground arith) same refl refl h
step-IsAccounted episode_id s _ (Step.record_turn _ a a' t pending newest sent same decoded) h =
    record {
      numbered = Numbered-set_last episode_id 0 s.attempts a a' newest same h.numbered;
      accounted =
          let count = count-set_last s.attempts a a' newest (ground arith) in
          count ∙ rw decoded (ap suc h.accounted ∙ sym (length-push s.turns t));
    }
step-IsAccounted episode_id s _ (Step.plan _ _ _ _ _ _ _ _ _) h = record {
  numbered = h.numbered;
  accounted = h.accounted;
}
step-IsAccounted episode_id s _ (Step.collect _ _ _ _) h = record {
  numbered = h.numbered;
  accounted = h.accounted;
}
step-IsAccounted episode_id s _ (Step.engage _ _ _ _ _ _ _ _) h = record {
  numbered = h.numbered;
  accounted = h.accounted;
}
step-IsAccounted episode_id s _ (Step.complete _ _ _ _ _ _ _ _ _ _ _) h = record {
  numbered = h.numbered;
  accounted = h.accounted;
}
step-IsAccounted episode_id s _ (Step.wait _ _ _ _ _ _ _ _ _) h = record {
  numbered = h.numbered;
  accounted = h.accounted;
}
step-IsAccounted episode_id s _ (Step.lose _ _ _ _ _ _ _ _ _) h = record {
  numbered = h.numbered;
  accounted = h.accounted;
}
step-IsAccounted episode_id s _ (Step.push_back _ _ _ _ _) h = record {
  numbered = h.numbered;
  accounted = h.accounted;
}
step-IsAccounted episode_id s _ (Step.reopen _ _ _ _ _) h = record {
  numbered = h.numbered;
  accounted = h.accounted;
}
step-IsAccounted episode_id s s' (Step.request_cancel _ _ _ e) h =
    Withdrawn-IsAccounted episode_id s s' (cancel_state_ok s s' e) h
step-IsAccounted episode_id s _ (Step.reconcile _ _) h = record {
  numbered = h.numbered;
  accounted = h.accounted;
}

pub Fresh-IsAccounted : (id : Text) (s : DurableEpisodeState) → Fresh s → IsAccounted id s
unfolding Fresh State.new Numbered count_decoded
Fresh-IsAccounted id s (spec, created, e) =
    let none_yet : s.attempts ≡ [] = ground arith in
    let no_turn : s.turns ≡ [] = ground arith in
    record { numbered = rw none_yet tt; accounted = rw (none_yet, no_turn) refl }

-- No Episode has more turns than attempts.
pub turns_le_attempts :
    (id : Text) (s : DurableEpisodeState) → IsAccounted id s → length s.turns ≤ length s.attempts
turns_le_attempts id s h = rw (← h.accounted) (count_le s.attempts)
