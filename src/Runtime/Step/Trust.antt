-- ===== src/Runtime/Step/Trust.antt =====
-- The evidence on which a subtask counts as satisfied, and an Episode as succeeded (`drive_tools`,
-- `review_stop`).
use alloyport.Prelude.{
  ℕ, zero, suc, ◌≡◌, ◌≢◌, refl, sym, ap, ◌∙◌, ◌||◌, ◌&&◌, Bool, true, false, some, List, [], ◌∷◌,
  ◌++◌, any, arith, ok, Result-cases, inl, inr,
}
use alloyport.Prelude.Text.{Text}
use alloyport.Agent.Episode.{EpisodeStatus}
use alloyport.Agent.Tool
use alloyport.Agent.Tool.{ToolOperationRecord, ToolOperationStatus}
use alloyport.Runtime.State.{DurableEpisodeState, DurableToolOperation}
use alloyport.Runtime.ToolTurn.{first_pending, set_entry, is_verified}
use alloyport.Runtime.State
use alloyport.Runtime.Runner.{abandon_tool, reconciliation_target}
use alloyport.Runtime.Run.{Fresh}
use alloyport.Runtime.Step.Cancel.{Withdrawn, withdrawn, cancel_state_ok}
use alloyport.Runtime.Step.{Step, Move, AfterAttempt}

-- The operation has ended, and its result is of verified authority.
abbrev pub is_proof : DurableToolOperation → Bool
is_proof op = Tool.is_terminal op.entry.status && is_verified op.entry.result_authority

pub record IsTrusted (s : DurableEpisodeState) : Type 0 where
  pub proved : s.subtask_satisfied ≡ true → any is_proof s.tool_operations ≡ true
  pub claimed : s.episode.status ≡ EpisodeStatus.succeeded → s.subtask_satisfied ≡ true

any_append :
    (ops new : List DurableToolOperation)
    → any is_proof ops ≡ true
    → any is_proof (ops ++ new) ≡ true
any_append [] new h = ground arith
any_append (op ∷ ops) new h = ground (arith, any_append ops new)

first_zero :
    (o : DurableToolOperation) (ops : List DurableToolOperation) (op : DurableToolOperation)
    → first_pending (o ∷ ops) ≡ some (0, op)
    → (o ≡ op) × (Tool.is_terminal o.entry.status ≡ false)
unfolding first_pending
first_zero o ops op e = (ground arith, ground arith)

first_suc :
    (o : DurableToolOperation) (ops : List DurableToolOperation) (i : ℕ) (op : DurableToolOperation)
    → first_pending (o ∷ ops) ≡ some (suc i, op)
    → first_pending ops ≡ some (i, op)
unfolding first_pending
first_suc o ops i op e = ground arith

none_first : (i : ℕ) (op : DurableToolOperation) → first_pending [] ≢ some (i, op)
unfolding first_pending
none_first i op e = ground arith

or_left : (a b c : Bool) → a || b ≡ true → a ≡ false → c || b ≡ true
or_left a b c h e = ground arith

or_right : (a b c : Bool) → a || b ≡ true → (b ≡ true → c ≡ true) → a || c ≡ true
or_right a b c h f = ground arith

-- The first pending operation is no proof, so that its record may change.
any-set_entry :
    (ops : List DurableToolOperation) (i : ℕ) (op : DurableToolOperation) (r : ToolOperationRecord)
    → first_pending ops ≡ some (i, op)
    → any is_proof ops ≡ true
    → any is_proof (set_entry ops i r) ≡ true
unfolding set_entry
any-set_entry [] i op r e h = elim (none_first i op e) [ ]
any-set_entry (o ∷ ops) zero op r e h =
    or_left (is_proof o) (any is_proof ops) (is_proof (record o { entry = r })) h
      (rw (first_zero o ops op e).1 refl)
any-set_entry (o ∷ ops) (suc i) op r e h =
    or_right (is_proof o) (any is_proof ops) _ h (any-set_entry ops i op r (first_suc o ops i op e))

any_here :
    (ops : List DurableToolOperation) (i : ℕ) (op : DurableToolOperation) (r : ToolOperationRecord)
    → first_pending ops ≡ some (i, op)
    → is_proof (record op { entry = r }) ≡ true
    → any is_proof (set_entry ops i r) ≡ true
unfolding set_entry
any_here [] i op r e h = elim (none_first i op e) [ ]
any_here (o ∷ ops) zero op r e h = ap (λ b. b || any is_proof ops) h
any_here (o ∷ ops) (suc i) op r e h =
    or_right (is_proof o) true _ (ground arith)
      (λ _. any_here ops i op r (first_suc o ops i op e) h)

any_abandon :
    (ops ops' : List DurableToolOperation)
    → abandon_tool ops ≡ ok ops'
    → any is_proof ops ≡ true
    → any is_proof ops' ≡ true
unfolding abandon_tool Tool.transition
any_abandon [] ops' e h = ground arith
any_abandon (op ∷ ops) ops' e h = elim (Result-cases (abandon_tool ops)) [
  | inl (rest, e₁) ↦ ground (arith, any_abandon ops rest e₁)
  | inr (x, e₁) ↦ ground arith
]

-- The claims of a state with the same result and the same operations.
unclaimed :
    (s : DurableEpisodeState) (next : EpisodeStatus)
    → IsTrusted s
    → next ≢ EpisodeStatus.succeeded
    → (e : next ≡ EpisodeStatus.succeeded) → s.subtask_satisfied ≡ true
unclaimed s next h ne e = elim (ne e) [ ]

Move-claimed :
    (s : DurableEpisodeState) (from next : EpisodeStatus)
    → Move s from next
    → next ≡ EpisodeStatus.succeeded
    → s.subtask_satisfied ≡ true
Move-claimed s _ _ Move.start e = ground arith
Move-claimed s _ _ (Move.spend spent) e = ground arith
Move-claimed s _ _ (Move.withdraw asked) e = ground arith
Move-claimed s _ _ Move.review e = ground arith
Move-claimed s _ _ (Move.overspend n over) e = ground arith
Move-claimed s _ _ (Move.succeed yes') e = yes'
Move-claimed s _ _ (Move.give_up no') e = ground arith
Move-claimed s _ _ Move.cancel e = ground arith

after_open : (next : EpisodeStatus) → AfterAttempt next → next ≢ EpisodeStatus.succeeded
after_open _ AfterAttempt.again e = ground arith
after_open _ AfterAttempt.over e = ground arith
after_open _ AfterAttempt.fail e = ground arith

Withdrawn-IsTrusted : (s s' : DurableEpisodeState) → Withdrawn s s' → IsTrusted s → IsTrusted s'
Withdrawn-IsTrusted s _ (withdrawn attempts ops next e₁ e₂ e) h = record {
  proved = λ yes'. any_abandon s.tool_operations ops e₂ (h.proved yes');
  claimed = λ c. ground arith;
}

target_open : (s : DurableEpisodeState) → reconciliation_target s ≢ EpisodeStatus.succeeded
unfolding reconciliation_target
target_open s e = ground arith

-- The claim at a status that is not `Succeeded`, of the operations that are left.
with_operations :
    (s : DurableEpisodeState) (i : ℕ) (op : DurableToolOperation) (r : ToolOperationRecord)
    → first_pending s.tool_operations ≡ some (i, op)
    → IsTrusted s
    → s.subtask_satisfied ≡ true
    → any is_proof (set_entry s.tool_operations i r) ≡ true
with_operations s i op r first h yes' = any-set_entry s.tool_operations i op r first (h.proved yes')

completed_proof :
    (s : DurableEpisodeState) (i : ℕ) (op : DurableToolOperation) (r : ToolOperationRecord)
    (satisfies : Bool)
    → first_pending s.tool_operations ≡ some (i, op)
    → r.spec ≡ op.entry.spec
    → Tool.is_terminal r.status ≡ true
    → (satisfies ≡ true → is_verified op.entry.result_authority ≡ true)
    → IsTrusted s
    → s.subtask_satisfied || satisfies ≡ true
    → any is_proof (set_entry s.tool_operations i r) ≡ true
completed_proof s i op r true first same ended verified h yes' =
    any_here s.tool_operations i op r first (rw (ended, same, verified refl) refl)
completed_proof s i op r false first same ended verified h yes' =
    with_operations s i op r first h (ground arith)

-- A claim at one of the other statuses.
elsewhere :
    (s : DurableEpisodeState) (here : EpisodeStatus) (b : Bool)
    → s.episode.status ≡ here
    → here ≢ EpisodeStatus.succeeded
    → s.episode.status ≡ EpisodeStatus.succeeded
    → b ≡ true
elsewhere s here b at other e = elim (other (sym at ∙ e)) [ ]

pub step-IsTrusted :
    (episode_id : Text) (s s' : DurableEpisodeState)
    → Step episode_id s s'
    → IsTrusted s
    → IsTrusted s'
step-IsTrusted episode_id s _ (Step.move _ from next here m) h = record {
  proved = h.proved;
  claimed = Move-claimed s from next m;
}
step-IsTrusted episode_id s _ (Step.prepare _ a ready wanted within fresh number id) h = record {
  proved = h.proved;
  claimed = λ e. ground arith;
}
step-IsTrusted episode_id s _ (Step.dispatch _ a pending newest ready) h = record {
  proved = h.proved;
  claimed = h.claimed;
}
step-IsTrusted episode_id s _
      (Step.conclude _ a a' k next pending newest sent same ended other after) h =
    record { proved = h.proved; claimed = unclaimed s next h (after_open next after) }
step-IsTrusted episode_id s _ (Step.interrupt _ a a' k pending newest sent same ended asked) h =
    record { proved = h.proved; claimed = λ e. ground arith }
step-IsTrusted episode_id s _ (Step.record_turn _ a a' t pending newest sent same decoded) h =
    record { proved = h.proved; claimed = λ e. ground arith }
step-IsTrusted episode_id s _ (Step.plan _ t ops recorded newest planned count within few) h =
    record {
      proved = λ yes'. any_append s.tool_operations ops (h.proved yes');
      claimed = λ e. ground arith;
    }
step-IsTrusted episode_id s _ (Step.collect _ input working ended) h = record {
  proved = h.proved;
  claimed = λ e. ground arith;
}
step-IsTrusted episode_id s _ (Step.engage _ i op r working first same active) h = record {
  proved = with_operations s i op r first h;
  claimed = h.claimed;
}
step-IsTrusted episode_id s _
      (Step.complete _ i op r satisfies working first active same ended verified) h =
    record {
      proved = completed_proof s i op r satisfies first same ended verified h;
      claimed = elsewhere s _ _ working (λ e. ground arith);
    }
step-IsTrusted episode_id s _ (Step.wait _ i op r working first active same running) h = record {
  proved = with_operations s i op r first h;
  claimed = h.claimed;
}
step-IsTrusted episode_id s _ (Step.lose _ i op r working first active same lost) h = record {
  proved = with_operations s i op r first h;
  claimed = λ e. ground arith;
}
step-IsTrusted episode_id s _ (Step.push_back _ input review no' within) h = record {
  proved = h.proved;
  claimed = λ e. ground arith;
}
step-IsTrusted episode_id s _ (Step.reopen _ granted grant from valid) h = record {
  proved = h.proved;
  claimed = λ e. ground arith;
}
step-IsTrusted episode_id s s' (Step.request_cancel _ _ open' e) h =
    Withdrawn-IsTrusted s s' (cancel_state_ok s s' e) h
step-IsTrusted episode_id s _ (Step.reconcile _ held) h = record {
  proved = h.proved;
  claimed = unclaimed s _ h (target_open s);
}

pub Fresh-IsTrusted : (s : DurableEpisodeState) → Fresh s → IsTrusted s
unfolding Fresh State.new
Fresh-IsTrusted s (spec, created, e) = record {
  proved = λ yes'. ground arith;
  claimed = λ e'. ground arith;
}
