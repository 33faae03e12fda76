-- ===== src/Agent/Lifecycle.antt =====
-- Sequences of calls on the record of a tool operation (crates/alloyport-core/src/agent.rs).
use alloyport.Prelude.{
  ◌≡◌, refl, Bool, true, false, List, [], ◌∷◌, arith, is_some, Result, ok, err, Result-cases, inl,
  inr,
}
use alloyport.Digest.{Sha256Digest}
use alloyport.AgentError.{AgentRecordError}
use alloyport.Agent.Tool.{
  ToolOperationRecord, ToolOperationSpec, ToolOperationStatus, new, transition, finish, is_terminal,
  can_transition_to,
}

-- A call of the two operations that change an operation's record.
pub data Call : Type 0 where
  moves : ToolOperationStatus → Call
  ends : ToolOperationStatus → Sha256Digest → List Sha256Digest → Call

unfoldable pub call : ToolOperationRecord → Call → Result AgentRecordError ToolOperationRecord
unfolding transition finish
call r (Call.moves next) = transition r next
call r (Call.ends terminal digest receipts) = finish r terminal digest receipts

-- A refused call leaves the record as it was.
unfoldable pub run : ToolOperationRecord → List Call → ToolOperationRecord
unfolding call
run r [] = r
run r (c ∷ cs) = run (elim (call r c) [ ok r' ↦ r' | err _ ↦ r ]) cs

frozen : (s next : ToolOperationStatus) → is_terminal s ≡ true → can_transition_to s next ≡ false
unfolding is_terminal can_transition_to
frozen s next h = ground arith

call_refused :
    (r : ToolOperationRecord) (c : Call)
    → is_terminal r.status ≡ true
    → (e : AgentRecordError) × (call r c ≡ err e)
unfolding call transition finish
call_refused r (Call.moves next) h = elim (Result-cases (transition r next)) [
  | inl (r', e) ↦ let closed = frozen r.status next h in ground arith
  | inr (x, e) ↦ (x, e)
]
call_refused r (Call.ends terminal digest receipts) h =
    elim (Result-cases (finish r terminal digest receipts)) [
      | inl (r', e) ↦ let closed = frozen r.status terminal h in ground arith
      | inr (x, e) ↦ (x, e)
    ]

-- A tool operation's result is written once: after a record has a terminal status, no sequence of
-- calls of `transition` and `finish` changes any of its fields.
pub run-is_terminal :
    (r : ToolOperationRecord) (cs : List Call) → is_terminal r.status ≡ true → run r cs ≡ r
unfolding run
run-is_terminal r [] h = refl
run-is_terminal r (c ∷ cs) h = let (x, e) = call_refused r c h in rw e (run-is_terminal r cs h)

abbrev pub is_answered : ToolOperationRecord → Bool
is_answered r = is_some r.result_digest

pub record IsAnswered (r : ToolOperationRecord) : Type 0 where
  pub agrees : is_terminal r.status ≡ is_answered r

call-IsAnswered :
    (r r' : ToolOperationRecord) (c : Call) → call r c ≡ ok r' → IsAnswered r → IsAnswered r'
unfolding call transition finish
call-IsAnswered r r' (Call.moves next) e h = record {
  agrees = let before = h.agrees in ground arith;
}
call-IsAnswered r r' (Call.ends terminal digest receipts) e h = record {
  agrees = let before = h.agrees in ground arith;
}

run-IsAnswered : (r : ToolOperationRecord) (cs : List Call) → IsAnswered r → IsAnswered (run r cs)
unfolding run
run-IsAnswered r [] h = h
run-IsAnswered r (c ∷ cs) h = elim (Result-cases (call r c)) [
  | inl (r', e) ↦ rw e (run-IsAnswered r' cs (call-IsAnswered r r' c e h))
  | inr (x, e) ↦ rw e (run-IsAnswered r cs h)
]

-- After any calls of `transition` and `finish`, refused ones included, on an operation that `new`
-- made: it has a result digest exactly if its status is terminal.
pub run-new-IsAnswered :
    (spec : ToolOperationSpec) (r : ToolOperationRecord) (cs : List Call)
    → new spec ≡ ok r
    → IsAnswered (run r cs)
unfolding new is_terminal
run-new-IsAnswered spec r cs e = run-IsAnswered r cs (record { agrees = ground arith })
