-- ===== src/Runtime/Step/Budget.antt =====
-- What an Episode has spent of its allowance (`prepare_attempt`, `plan_turn_tools`).
use alloyport.Prelude.{
  ℕ, zero, suc, ◌≡◌, ◌≢◌, ◌≤◌, refl, ap, true, none, List, [], ◌∷◌, push, last, set_last, is_empty,
  length, length-push, length-append, arith, ok, Result-cases, Bool-cases, Option-cases, inl, inr,
}
use alloyport.Prelude.Text.{Text}
use alloyport.Agent.Episode.{EpisodeStatus}
use alloyport.Agent.Tool
use alloyport.Model.Attempt.{
  ModelAttemptRecord, ModelAttemptStatus, is_dispatching, finish_without_response,
}
use alloyport.Runtime.Policy.{AllowanceGrant}
use alloyport.Runtime.State
use alloyport.Runtime.State.{DurableEpisodeState, DurableToolOperation}
use alloyport.Runtime.ModelTurn.{attempt_error}
use alloyport.Runtime.ToolTurn.{set_entry}
use alloyport.Runtime.Runner.{abandon_attempt, abandon_tool, reconciliation_target}
use alloyport.Runtime.Run.{Fresh}
use alloyport.Runtime.Step.{Step, Move, AfterAttempt}
use alloyport.Runtime.Step.Cancel.{Withdrawn, withdrawn, cancel_state_ok}

pub record IsBudgeted (s : DurableEpisodeState) : Type 0 where
  pub attempts : length s.attempts ≤ s.policy.max_model_attempts
  pub turns : length s.turns ≤ s.policy.max_model_turns
  pub operations : length s.tool_operations ≤ s.policy.max_total_tool_operations
  -- A turn that an attempt may bring is within the allowance.
  pub room :
      s.episode.status ≡ EpisodeStatus.model_attempt_pending
      → suc (length s.turns) ≤ s.policy.max_model_turns

-- Before the first grant.
pub record IsWithin (s : DurableEpisodeState) : Type 0 where
  pub budgeted : is_empty s.grants ≡ true → IsBudgeted s

length-set_last : {A : Type 0} (xs : List A) (a : A) → length (set_last xs a) ≡ length xs
length-set_last [] a = refl
length-set_last (x ∷ []) a = refl
length-set_last (x ∷ y ∷ xs) a = ap suc (length-set_last (y ∷ xs) a)

length-set_entry :
    (ops : List DurableToolOperation) (i : ℕ) (r : Tool.ToolOperationRecord)
    → length (set_entry ops i r) ≡ length ops
unfolding set_entry
length-set_entry [] i r = refl
length-set_entry (op ∷ ops) zero r = refl
length-set_entry (op ∷ ops) (suc i) r = ap suc (length-set_entry ops i r)

length-abandon_tool :
    (ops ops' : List DurableToolOperation) → abandon_tool ops ≡ ok ops' → length ops' ≡ length ops
unfolding abandon_tool Tool.transition
length-abandon_tool [] ops' e = ground arith
length-abandon_tool (op ∷ ops) ops' e = elim (Result-cases (abandon_tool ops)) [
  | inl (rest, e₁) ↦ let same = length-abandon_tool ops rest e₁ in ground arith
  | inr (x, e₁) ↦ ground arith
]

length-abandon_attempt :
    (attempts left : List ModelAttemptRecord)
    → abandon_attempt attempts ≡ ok left
    → length left ≡ length attempts
unfolding abandon_attempt
length-abandon_attempt attempts left e = elim (Option-cases (last attempts)) [
  | inl none' ↦ let same : attempts ≡ left = ground arith in rw (← same) refl
  | inr (a, newest) ↦ elim (Bool-cases (is_dispatching a.status)) [
    | inr other ↦ let same : attempts ≡ left = ground arith in rw (← same) refl
    | inl sent ↦
        elim (Result-cases
          (attempt_error (finish_without_response a ModelAttemptStatus.cancelled_ambiguous none))) [
            | inr (x, e₁) ↦ ground arith
            | inl (a', e₁) ↦
                let same : set_last attempts a' ≡ left = ground arith in
                rw (← same) (length-set_last attempts a')
          ]
  ]
]

granted_later : (gs : List AllowanceGrant) (g : AllowanceGrant) → is_empty (push gs g) ≢ true
granted_later [] g e = ground arith
granted_later (h ∷ gs) g e = ground arith

-- The state after a step that keeps the policy and the counts, and leaves the pending request.
module _ (s : DurableEpisodeState) (h : IsWithin s) where
  kept :
      (s' : DurableEpisodeState)
      → s'.grants ≡ s.grants
      → s'.policy ≡ s.policy
      → length s'.attempts ≡ length s.attempts
      → s'.turns ≡ s.turns
      → length s'.tool_operations ≡ length s.tool_operations
      → (s'.episode.status ≡ EpisodeStatus.model_attempt_pending
          → s.episode.status ≡ EpisodeStatus.model_attempt_pending)
      → IsWithin s'
  kept s' grants policy attempts turns operations status = record {
    budgeted = λ ungranted.
        let b = h.budgeted (rw (← grants) ungranted) in
        record {
          attempts = rw (attempts, policy) b.attempts;
          turns = rw (turns, policy) b.turns;
          operations = rw (operations, policy) b.operations;
          room = λ e. rw (turns, policy) (b.room (status e));
        };
  }

Move-other :
    (s : DurableEpisodeState) (from next : EpisodeStatus)
    → Move s from next
    → next ≢ EpisodeStatus.model_attempt_pending
Move-other s _ _ Move.start e = ground arith
Move-other s _ _ (Move.spend spent) e = ground arith
Move-other s _ _ (Move.withdraw asked) e = ground arith
Move-other s _ _ Move.review e = ground arith
Move-other s _ _ (Move.overspend n over) e = ground arith
Move-other s _ _ (Move.succeed yes') e = ground arith
Move-other s _ _ (Move.give_up no') e = ground arith
Move-other s _ _ Move.cancel e = ground arith

after_other :
    (next : EpisodeStatus) → AfterAttempt next → next ≢ EpisodeStatus.model_attempt_pending
after_other _ AfterAttempt.again e = ground arith
after_other _ AfterAttempt.over e = ground arith
after_other _ AfterAttempt.fail e = ground arith

target_other :
    (s : DurableEpisodeState) → reconciliation_target s ≢ EpisodeStatus.model_attempt_pending
unfolding reconciliation_target
target_other s e = ground arith

Withdrawn-kept : (s s' : DurableEpisodeState) → Withdrawn s s' → IsWithin s → IsWithin s'
Withdrawn-kept s _ (withdrawn attempts ops next e₁ e₂ e) h =
    kept s h _ refl refl (length-abandon_attempt s.attempts attempts e₁) refl
      (length-abandon_tool s.tool_operations ops e₂) (λ q. ground arith)

pub step-IsWithin :
    (episode_id : Text) (s s' : DurableEpisodeState)
    → Step episode_id s s'
    → IsWithin s
    → IsWithin s'
step-IsWithin episode_id s _ (Step.move _ from next here m) h =
    kept s h _ refl refl refl refl refl (λ e. elim (Move-other s from next m e) [ ])
step-IsWithin episode_id s _ (Step.prepare _ a ready wanted within fresh number id) h = record {
  budgeted = λ ungranted.
      let b = h.budgeted ungranted in
      let count = length-push s.attempts a in
      record {
        attempts = ground arith;
        turns = b.turns;
        operations = b.operations;
        room = λ e. ground arith;
      };
}
step-IsWithin episode_id s _ (Step.dispatch _ a pending newest ready) h =
    kept s h _ refl refl (length-set_last s.attempts _) refl refl (λ e. pending)
step-IsWithin episode_id s _
      (Step.conclude _ a a' k next pending newest sent same ended other after) h =
    kept s h _ refl refl (length-set_last s.attempts a') refl refl
      (λ e. elim (after_other next after e) [ ])
step-IsWithin episode_id s _ (Step.interrupt _ a a' k pending newest sent same ended asked) h =
    kept s h _ refl refl (length-set_last s.attempts a') refl refl (λ e. pending)
step-IsWithin episode_id s _ (Step.record_turn _ a a' t pending newest sent same decoded) h =
    record {
      budgeted = λ ungranted.
          let b = h.budgeted ungranted in
          let count = length-push s.turns t in
          record {
            attempts = rw (length-set_last s.attempts a') b.attempts;
            turns = rw count (b.room pending);
            operations = b.operations;
            room = λ e. ground arith;
          };
    }
step-IsWithin episode_id s _ (Step.plan _ t ops recorded newest planned count within few) h =
    record {
      budgeted = λ ungranted.
          let b = h.budgeted ungranted in
          record {
            attempts = b.attempts;
            turns = b.turns;
            operations = rw (length-append s.tool_operations ops) (ground arith);
            room = λ e. ground arith;
          };
    }
step-IsWithin episode_id s _ (Step.collect _ input working ended) h =
    kept s h _ refl refl refl refl refl (λ e. ground arith)
step-IsWithin episode_id s _ (Step.engage _ i op r working first same active) h =
    kept s h _ refl refl refl refl (length-set_entry s.tool_operations i r) (λ e. e)
step-IsWithin episode_id s _
      (Step.complete _ i op r satisfies working first active same ended verified) h =
    kept s h _ refl refl refl refl (length-set_entry s.tool_operations i r) (λ e. e)
step-IsWithin episode_id s _ (Step.wait _ i op r working first active same running) h =
    kept s h _ refl refl refl refl (length-set_entry s.tool_operations i r) (λ e. e)
step-IsWithin episode_id s _ (Step.lose _ i op r working first active same lost) h =
    kept s h _ refl refl refl refl (length-set_entry s.tool_operations i r) (λ e. ground arith)
step-IsWithin episode_id s _ (Step.push_back _ input review no' within) h =
    kept s h _ refl refl refl refl refl (λ e. ground arith)
step-IsWithin episode_id s _ (Step.reopen _ granted grant from valid) h = record {
  budgeted = λ ungranted. elim (granted_later s.grants grant ungranted) [ ];
}
step-IsWithin episode_id s s' (Step.request_cancel _ _ open' e) h =
    Withdrawn-kept s s' (cancel_state_ok s s' e) h
step-IsWithin episode_id s _ (Step.reconcile _ held) h =
    kept s h _ refl refl refl refl refl (λ e. elim (target_other s e) [ ])

pub Fresh-IsWithin : (s : DurableEpisodeState) → Fresh s → IsWithin s
unfolding Fresh State.new
Fresh-IsWithin s (spec, created, e) = record {
  budgeted = λ ungranted.
      let none_yet : s.attempts ≡ [] = ground arith in
      let no_turn : s.turns ≡ [] = ground arith in
      let no_work : s.tool_operations ≡ [] = ground arith in
      let at : s.episode.status ≡ EpisodeStatus.created = ground arith in
      record {
        attempts = rw none_yet (ground arith);
        turns = rw no_turn (ground arith);
        operations = rw no_work (ground arith);
        room = λ e'. ground arith;
      };
}
