-- ===== src/Runtime/Step/Orderly.antt =====
-- Which statuses of an Episode a call in flight goes with (`advance`, `request_cancellation`).
use alloyport.Prelude.{
  ℕ, ◌≡◌, ◌≢◌, ◌⊎◌, refl, sym, ◌∙◌, not, Bool, true, false, none, some, List, [], last, set_last,
  any, last-set_last, arith, ok, Result-cases, Bool-cases, Option-cases, inl, inr, if◌then◌else◌,
}
use alloyport.Prelude.Text.{Text}
use alloyport.Agent.Episode.{EpisodeStatus, is_resumable}
use alloyport.Agent.Tool
use alloyport.Model.Attempt
use alloyport.Model.Attempt.{
  ModelAttemptRecord, ModelAttemptStatus, is_dispatching, finish_without_response,
}
use alloyport.Runtime.State
use alloyport.Runtime.State.{DurableEpisodeState, DurableToolOperation}
use alloyport.Runtime.ModelTurn.{attempt_error}
use alloyport.Runtime.ToolTurn.{first_pending, set_entry}
use alloyport.Runtime.Runner.{
  abandon_attempt, is_model_ambiguous, is_tool_ambiguous, reconciliation_target,
}
use alloyport.Runtime.Run.{Fresh}
use alloyport.Runtime.Step.{Step, Move, AfterAttempt}
use alloyport.Runtime.Step.Facts.{finish_ok}
use alloyport.Runtime.Step.Cancel.{Withdrawn, withdrawn, cancel_state_ok}
use alloyport.Runtime.Step.Pending.{
  is_serial, serial-plan, serial-set_entry, serial-abandon, resolved-abandon, ended-resolved,
  none-pending,
}

-- The statuses in which tool operations may be pending.
abbrev pub may_pend : EpisodeStatus → Bool
may_pend EpisodeStatus.tool_work_pending = true
may_pend EpisodeStatus.suspended = true
may_pend EpisodeStatus.cancellation_pending = true
may_pend EpisodeStatus.cancelled = true
may_pend _ = false

-- The statuses in which the effect of an operation may be unknown.
abbrev pub may_be_unresolved : EpisodeStatus → Bool
may_be_unresolved EpisodeStatus.tool_work_pending = true
may_be_unresolved EpisodeStatus.suspended = true
may_be_unresolved _ = false

pub record IsOrderly (s : DurableEpisodeState) : Type 0 where
  pub settled : s.episode.status ≢ EpisodeStatus.suspension_requested
  pub serial : is_serial s.tool_operations ≡ true
  pub pending : may_pend s.episode.status ≡ false → first_pending s.tool_operations ≡ none
  pub resolved : may_be_unresolved s.episode.status ≡ false → is_tool_ambiguous s ≡ false
  pub in_flight :
      is_model_ambiguous s ≡ true → s.episode.status ≡ EpisodeStatus.model_attempt_pending

-- The state with other attempts and another status.
module _ (s : DurableEpisodeState) (h : IsOrderly s) where
  moved :
      (s' : DurableEpisodeState)
      → s'.tool_operations ≡ s.tool_operations
      → s'.episode.status ≢ EpisodeStatus.suspension_requested
      → may_pend s.episode.status ≡ false
      → (is_model_ambiguous s' ≡ true → s'.episode.status ≡ EpisodeStatus.model_attempt_pending)
      → IsOrderly s'
  moved s' same settled open' flight = record {
    settled = settled;
    serial = rw same h.serial;
    pending = λ _. rw same (h.pending open');
    resolved = λ _. rw same (h.resolved (ground arith));
    in_flight = flight;
  }

Move-settled :
    (s : DurableEpisodeState) (from next : EpisodeStatus)
    → Move s from next
    → (next ≢ EpisodeStatus.suspension_requested)
      × (from ≢ EpisodeStatus.model_attempt_pending)
      × ((may_pend from ≡ false) ⊎ (next ≡ EpisodeStatus.cancelled))
      × (may_be_unresolved from ≡ false)
Move-settled s _ _ Move.start = ((λ e. ground arith), (λ e. ground arith), inl refl, refl)
Move-settled s _ _ (Move.spend spent) = ((λ e. ground arith), (λ e. ground arith), inl refl, refl)
Move-settled s _ _ (Move.withdraw asked) =
    ((λ e. ground arith), (λ e. ground arith), inl refl, refl)
Move-settled s _ _ Move.review = ((λ e. ground arith), (λ e. ground arith), inl refl, refl)
Move-settled s _ _ (Move.overspend n over) =
    ((λ e. ground arith), (λ e. ground arith), inl refl, refl)
Move-settled s _ _ (Move.succeed yes') = ((λ e. ground arith), (λ e. ground arith), inl refl, refl)
Move-settled s _ _ (Move.give_up no') = ((λ e. ground arith), (λ e. ground arith), inl refl, refl)
Move-settled s _ _ Move.cancel = ((λ e. ground arith), (λ e. ground arith), inr refl, refl)

after_settled :
    (next : EpisodeStatus) → AfterAttempt next → next ≢ EpisodeStatus.suspension_requested
after_settled _ AfterAttempt.again e = ground arith
after_settled _ AfterAttempt.over e = ground arith
after_settled _ AfterAttempt.fail e = ground arith

-- Nothing is in flight behind a last attempt that is not dispatching.
grounded :
    (attempts : List ModelAttemptRecord) (a : ModelAttemptRecord) (status : EpisodeStatus)
    → last attempts ≡ some a
    → is_dispatching a.status ≡ false
    → (elim (last attempts) [ none ↦ false | some a ↦ is_dispatching a.status ]) ≡ true
    → status ≡ EpisodeStatus.model_attempt_pending
grounded attempts a status newest idle e = ground arith

-- A call of the model can only be in flight where one is pending.
module _ (s : DurableEpisodeState) (h : IsOrderly s) where
  none_flying :
      (here status : EpisodeStatus)
      → s.episode.status ≡ here
      → here ≢ EpisodeStatus.model_attempt_pending
      → is_model_ambiguous s ≡ true
      → status ≡ EpisodeStatus.model_attempt_pending
  none_flying here status at other e = elim (other (sym at ∙ h.in_flight e)) [ ]

  -- A change of one operation while tool work is pending.
  worked :
      (s' : DurableEpisodeState) (i : ℕ) (op : DurableToolOperation) (r : Tool.ToolOperationRecord)
      → s.episode.status ≡ EpisodeStatus.tool_work_pending
      → first_pending s.tool_operations ≡ some (i, op)
      → s'.tool_operations ≡ set_entry s.tool_operations i r
      → s'.attempts ≡ s.attempts
      → (s'.episode.status ≡ EpisodeStatus.tool_work_pending)
        ⊎ (s'.episode.status ≡ EpisodeStatus.suspended)
      → IsOrderly s'
  worked s' i op r working first ops attempts at = record {
    settled = λ e. ground arith;
    serial = rw ops (serial-set_entry s.tool_operations i op r first h.serial);
    pending = λ e. ground arith;
    resolved = λ e. ground arith;
    in_flight = λ e. none_flying _ _ working (λ q. ground arith) (rw attempts at e);
  }

-- The last attempt is no longer in flight after a cancellation request.
abandoned_idle :
    (attempts left : List ModelAttemptRecord)
    → abandon_attempt attempts ≡ ok left
    → (elim (last left) [ none ↦ false | some a ↦ is_dispatching a.status ]) ≡ false
unfolding abandon_attempt
abandoned_idle attempts left e = elim (Option-cases (last attempts)) [
  | inl none' ↦ let same : attempts ≡ left = ground arith in rw (← same, none') refl
  | inr (a, newest) ↦ elim (Bool-cases (is_dispatching a.status)) [
    | inr other ↦ let same : attempts ≡ left = ground arith in rw (← same, newest) other
    | inl sent ↦
        elim (Result-cases
          (attempt_error (finish_without_response a ModelAttemptStatus.cancelled_ambiguous none))) [
            | inr (x, e₁) ↦ ground arith
            | inl (a', e₁) ↦
                let same : set_last attempts a' ≡ left = ground arith in
                let (ended, status) = finish_ok a a' _ _ e₁ in
                rw (← same, last-set_last attempts a' a newest, status) refl
          ]
  ]
]

Withdrawn-IsOrderly : (s s' : DurableEpisodeState) → Withdrawn s s' → IsOrderly s → IsOrderly s'
Withdrawn-IsOrderly s _ (withdrawn attempts ops next e₁ e₂ e) h =
    let idle = abandoned_idle s.attempts attempts e₁ in
    let clear : may_be_unresolved next ≡ false → is_tool_ambiguous s ≡ false = λ c. ground arith in
    record {
      settled = λ e'. ground arith;
      serial = serial-abandon s.tool_operations ops e₂ h.serial;
      pending = λ e'. ground arith;
      resolved = λ c. rw (resolved-abandon s.tool_operations ops e₂ (clear c)) (clear c);
      in_flight = λ e'. ground arith;
    }

reconciled_IsOrderly :
    (s s' : DurableEpisodeState)
    → s.episode.status ≡ EpisodeStatus.suspended
    → s'.tool_operations ≡ s.tool_operations
    → s'.attempts ≡ s.attempts
    → s'.episode.status ≡ reconciliation_target s
    → IsOrderly s
    → IsOrderly s'
unfolding reconciliation_target
reconciled_IsOrderly s s' held ops attempts at h =
    elim (Bool-cases (any (λ op. not (Tool.is_terminal op.entry.status)) s.tool_operations)) [
      | inl open' ↦
          let here : s'.episode.status ≡ EpisodeStatus.tool_work_pending = at ∙ rw open' refl in
          record {
            settled = λ e. ground arith;
            serial = rw ops h.serial;
            pending = λ e. ground arith;
            resolved = λ e. ground arith;
            in_flight = λ e. none_flying s h _ _ held (λ q. ground arith) (rw attempts at e);
          }
      | inr closed ↦
          let ended = none-pending s.tool_operations closed in
          let here : s'.episode.status ≡ (
              if s.cancellation_requested
              then EpisodeStatus.cancellation_pending
              else EpisodeStatus.ready_for_model) =
            at ∙ rw closed refl in
          record {
            settled = λ e. ground arith;
            serial = rw ops h.serial;
            pending = λ e. rw ops ended;
            resolved = λ e. rw ops (ended-resolved s.tool_operations ended);
            in_flight = λ e. none_flying s h _ _ held (λ q. ground arith) (rw attempts at e);
          }
    ]

idle_ended :
    (status : ModelAttemptStatus)
    → Attempt.is_terminal status ≡ true
    → is_dispatching status ≡ false
unfolding Attempt.is_terminal
idle_ended status e = ground arith

resumable_idle :
    (status : EpisodeStatus)
    → is_resumable status ≡ true
    → (may_pend status ≡ false) × (status ≢ EpisodeStatus.model_attempt_pending)
unfolding is_resumable
resumable_idle status e = (ground arith, λ q. ground arith)

pub step-IsOrderly :
    (episode_id : Text) (s s' : DurableEpisodeState)
    → Step episode_id s s'
    → IsOrderly s
    → IsOrderly s'
step-IsOrderly episode_id s _ (Step.move _ from next here m) h =
    let (settled, other, pend, resolved) = Move-settled s from next m in
    record {
      settled = settled;
      serial = h.serial;
      pending = λ e. elim pend [ inl open' ↦ h.pending (rw here open') | inr over ↦ ground arith ];
      resolved = λ e. h.resolved (rw here resolved);
      in_flight = none_flying s h from next here other;
    }
step-IsOrderly episode_id s _ (Step.prepare _ a ready wanted within fresh number id) h =
    moved s h _ refl (λ e. ground arith) (rw ready refl) (λ e. refl)
step-IsOrderly episode_id s _ (Step.dispatch _ a pending newest ready) h =
    moved s h _ refl h.settled (rw pending refl) (λ e. pending)
step-IsOrderly episode_id s _
      (Step.conclude _ a a' k next pending newest sent same ended other after) h =
    moved s h _ refl (after_settled next after) (rw pending refl) (
      grounded (set_last s.attempts a') a' next (last-set_last s.attempts a' a newest)
        (idle_ended a'.status ended))
step-IsOrderly episode_id s _ (Step.interrupt _ a a' k pending newest sent same ended asked) h =
    moved s h _ refl (λ e. ground arith) (rw pending refl)
      (grounded (set_last s.attempts a') a' _ (last-set_last s.attempts a' a newest) (ground arith))
step-IsOrderly episode_id s _ (Step.record_turn _ a a' t pending newest sent same decoded) h =
    moved s h _ refl (λ e. ground arith) (rw pending refl)
      (grounded (set_last s.attempts a') a' _ (last-set_last s.attempts a' a newest) (ground arith))
step-IsOrderly episode_id s _ (Step.plan _ t ops recorded newest planned count within few) h =
    record {
      settled = λ e. ground arith;
      serial = serial-plan s.tool_operations ops (h.pending (rw recorded refl)) planned;
      pending = λ e. ground arith;
      resolved = λ e. ground arith;
      in_flight = none_flying s h _ _ recorded (λ q. ground arith);
    }
step-IsOrderly episode_id s _ (Step.collect _ input working ended) h = record {
  settled = λ e. ground arith;
  serial = h.serial;
  pending = λ e. ended;
  resolved = λ e. ended-resolved s.tool_operations ended;
  in_flight = none_flying s h _ _ working (λ q. ground arith);
}
step-IsOrderly episode_id s _ (Step.engage _ i op r working first same active) h =
    worked s h _ i op r working first refl refl (inl working)
step-IsOrderly episode_id s _
      (Step.complete _ i op r satisfies working first active same ended verified) h =
    worked s h _ i op r working first refl refl (inl working)
step-IsOrderly episode_id s _ (Step.wait _ i op r working first active same running) h =
    worked s h _ i op r working first refl refl (inl working)
step-IsOrderly episode_id s _ (Step.lose _ i op r working first active same lost) h =
    worked s h _ i op r working first refl refl (inr refl)
step-IsOrderly episode_id s _ (Step.push_back _ input review no' within) h =
    moved s h _ refl (λ e. ground arith) (rw review refl)
      (none_flying s h _ _ review (λ q. ground arith))
step-IsOrderly episode_id s _ (Step.reopen _ granted grant from valid) h =
    moved s h _ refl (λ e. ground arith) (resumable_idle s.episode.status from).0
      (λ e. elim ((resumable_idle s.episode.status from).1 (h.in_flight e)) [ ])
step-IsOrderly episode_id s s' (Step.request_cancel _ _ open' e) h =
    Withdrawn-IsOrderly s s' (cancel_state_ok s s' e) h
step-IsOrderly episode_id s _ (Step.reconcile _ held) h =
    reconciled_IsOrderly s _ held refl refl refl h

pub Fresh-IsOrderly : (s : DurableEpisodeState) → Fresh s → IsOrderly s
unfolding Fresh State.new is_serial first_pending
Fresh-IsOrderly s (spec, created, e) =
    let none_yet : s.attempts ≡ [] = ground arith in
    let no_work : s.tool_operations ≡ [] = ground arith in
    let at : s.episode.status ≡ EpisodeStatus.created = ground arith in
    record {
      settled = λ e'. ground arith;
      serial = rw no_work refl;
      pending = λ e'. rw no_work refl;
      resolved = λ e'. rw no_work refl;
      in_flight = λ e'. ground arith;
    }
