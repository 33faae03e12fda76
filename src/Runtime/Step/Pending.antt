-- ===== src/Runtime/Step/Pending.antt =====
-- The order in which the tool operations of an Episode are worked off (`drive_tools`).
use alloyport.Prelude.{
  ℕ, zero, suc, ◌≡◌, ◌≢◌, ◌⊎◌, ◌≤◌, refl, not, Bool, true, false, none, some, List, [], ◌∷◌, ◌++◌,
  any, all, All, arith, ok, Result-cases, Bool-cases, inl, inr, if◌then◌else◌,
}
use alloyport.Agent.Tool
use alloyport.Agent.Tool.{ToolOperationRecord, ToolOperationStatus}
use alloyport.Runtime.State.{DurableToolOperation}
use alloyport.Runtime.ToolTurn.{first_pending, set_entry}
use alloyport.Runtime.Runner.{abandon_tool, is_unresolved, is_in_dispatch}
use alloyport.Runtime.Step.{is_planned}

abbrev pub is_waiting : DurableToolOperation → Bool
is_waiting op = is_planned op.entry.status

-- Behind the first operation that has not ended, no operation has been dispatched.
unfoldable pub is_serial : List DurableToolOperation → Bool
is_serial [] = true
is_serial (op ∷ ops) =
    let rest = is_serial ops in
    if Tool.is_terminal op.entry.status then rest else all is_waiting ops

unfoldable pub count_unresolved : List DurableToolOperation → ℕ
count_unresolved [] = 0
count_unresolved (op ∷ ops) =
    let rest = count_unresolved ops in if is_unresolved op.entry.status then suc rest else rest

pub first_zero :
    (o : DurableToolOperation) (ops : List DurableToolOperation) (op : DurableToolOperation)
    → first_pending (o ∷ ops) ≡ some (0, op)
    → (o ≡ op) × (Tool.is_terminal o.entry.status ≡ false)
unfolding first_pending
first_zero o ops op e = (ground arith, ground arith)

pub first_suc :
    (o : DurableToolOperation) (ops : List DurableToolOperation) (i : ℕ) (op : DurableToolOperation)
    → first_pending (o ∷ ops) ≡ some (suc i, op)
    → (first_pending ops ≡ some (i, op)) × (Tool.is_terminal o.entry.status ≡ true)
unfolding first_pending
first_suc o ops i op e = (ground arith, ground arith)

pub none_first : (i : ℕ) (op : DurableToolOperation) → first_pending [] ≢ some (i, op)
unfolding first_pending
none_first i op e = ground arith

waiting-serial :
    (ops : List DurableToolOperation) → all is_waiting ops ≡ true → is_serial ops ≡ true
unfolding is_serial
waiting-serial [] h = refl
waiting-serial (op ∷ ops) h = ground (arith, waiting-serial ops)

All-waiting :
    (ops : List DurableToolOperation)
    → All (λ op. is_planned op.entry.status ≡ true) ops
    → all is_waiting ops ≡ true
All-waiting [] h = refl
All-waiting (op ∷ ops) (first, rest) = rw (first, All-waiting ops rest) refl

pub serial-plan :
    (ops new : List DurableToolOperation)
    → first_pending ops ≡ none
    → All (λ op. is_planned op.entry.status ≡ true) new
    → is_serial (ops ++ new) ≡ true
unfolding is_serial first_pending
serial-plan [] new e h = waiting-serial new (All-waiting new h)
serial-plan (op ∷ ops) new e h = elim (Bool-cases (Tool.is_terminal op.entry.status)) [
  | inl ended ↦ rw ended (serial-plan ops new (ground arith) h)
  | inr open' ↦ ground arith
]

pub serial-set_entry :
    (ops : List DurableToolOperation) (i : ℕ) (op : DurableToolOperation) (r : ToolOperationRecord)
    → first_pending ops ≡ some (i, op)
    → is_serial ops ≡ true
    → is_serial (set_entry ops i r) ≡ true
unfolding set_entry is_serial
serial-set_entry [] i op r e h = elim (none_first i op e) [ ]
serial-set_entry (o ∷ ops) zero op r e h =
    let open' = (first_zero o ops op e).1 in
    let waiting : all is_waiting ops ≡ true = ground arith in
    elim (Bool-cases (Tool.is_terminal r.status)) [
      | inl ended ↦ rw ended (waiting-serial ops waiting)
      | inr still ↦ rw still waiting
    ]
serial-set_entry (o ∷ ops) (suc i) op r e h =
    let (rest, ended) = first_suc o ops i op e in
    rw ended (serial-set_entry ops i op r rest (ground arith))

unresolved_open : (s : ToolOperationStatus) → Tool.is_terminal s ≡ true → is_unresolved s ≡ false
unfolding Tool.is_terminal
unresolved_open s h = ground arith

waiting_resolved : (s : ToolOperationStatus) → is_planned s ≡ true → is_unresolved s ≡ false
waiting_resolved s h = ground arith

-- Operations that have all ended hold no unknown effect.
pub ended-resolved :
    (ops : List DurableToolOperation)
    → first_pending ops ≡ none
    → any (λ op. is_unresolved op.entry.status) ops ≡ false
unfolding first_pending
ended-resolved [] e = refl
ended-resolved (op ∷ ops) e = elim (Bool-cases (Tool.is_terminal op.entry.status)) [
  | inl ended ↦ rw (unresolved_open op.entry.status ended) (ended-resolved ops (ground arith))
  | inr open' ↦ ground arith
]

pub none-pending :
    (ops : List DurableToolOperation)
    → any (λ op. not (Tool.is_terminal op.entry.status)) ops ≡ false
    → first_pending ops ≡ none
unfolding first_pending
none-pending [] e = refl
none-pending (op ∷ ops) e = elim (Bool-cases (Tool.is_terminal op.entry.status)) [
  | inl ended ↦ rw (ended, none-pending ops (ground arith)) refl
  | inr open' ↦ ground arith
]

waiting_count :
    (ops : List DurableToolOperation) → all is_waiting ops ≡ true → count_unresolved ops ≡ 0
unfolding count_unresolved
waiting_count [] h = refl
waiting_count (op ∷ ops) h =
    rw (waiting_resolved op.entry.status (ground arith)) (waiting_count ops (ground arith))

pub serial_single :
    (ops : List DurableToolOperation) → is_serial ops ≡ true → count_unresolved ops ≤ 1
unfolding is_serial count_unresolved
serial_single [] h = ground arith
serial_single (op ∷ ops) h = elim (Bool-cases (Tool.is_terminal op.entry.status)) [
  | inl ended ↦ rw (unresolved_open op.entry.status ended) (serial_single ops (ground arith))
  | inr open' ↦ let count = waiting_count ops (ground arith) in ground arith
]

nil_abandon : (ops' : List DurableToolOperation) → abandon_tool [] ≡ ok ops' → ops' ≡ []
unfolding abandon_tool
nil_abandon ops' e = ground arith

pub resolved-abandon :
    (ops ops' : List DurableToolOperation)
    → abandon_tool ops ≡ ok ops'
    → any (λ op. is_unresolved op.entry.status) ops ≡ false
    → ops' ≡ ops
unfolding abandon_tool
resolved-abandon [] ops' e h = ground arith
resolved-abandon (op ∷ ops) ops' e h = elim (Result-cases (abandon_tool ops)) [
  | inl (rest, e₁) ↦ let same = resolved-abandon ops rest e₁ (ground arith) in ground arith
  | inr (x, e₁) ↦ ground arith
]

waiting_unresolved :
    (ops : List DurableToolOperation)
    → all is_waiting ops ≡ true
    → any (λ op. is_unresolved op.entry.status) ops ≡ false
waiting_unresolved [] h = refl
waiting_unresolved (op ∷ ops) h =
    rw (waiting_resolved op.entry.status (ground arith)) (waiting_unresolved ops (ground arith))

-- The first operation is in dispatch and becomes ambiguous, or it is left as it is.
abandon_cons :
    (op : DurableToolOperation) (ops ops' : List DurableToolOperation)
    → abandon_tool (op ∷ ops) ≡ ok ops'
    → ((Tool.is_terminal op.entry.status ≡ false)
        × (ops'
            ≡ record op { entry = record op.entry { status = ToolOperationStatus.ambiguous } }
              ∷ ops))
      ⊎ ((rest : List DurableToolOperation) × (abandon_tool ops ≡ ok rest) × (ops' ≡ op ∷ rest))
unfolding abandon_tool Tool.transition Tool.is_terminal
abandon_cons op ops ops' e = elim (Bool-cases (is_in_dispatch op.entry.status)) [
  | inl sent ↦ inl (ground arith, ground arith)
  | inr other ↦ elim (Result-cases (abandon_tool ops)) [
    | inl (rest, e₁) ↦ inr (rest, e₁, ground arith)
    | inr (x, e₁) ↦ ground arith
  ]
]

-- A cancellation request changes the one operation that is in dispatch, if there is one.
pub serial-abandon :
    (ops ops' : List DurableToolOperation)
    → abandon_tool ops ≡ ok ops'
    → is_serial ops ≡ true
    → is_serial ops' ≡ true
unfolding is_serial Tool.is_terminal
serial-abandon [] ops' e h = let same : ops' ≡ [] = nil_abandon ops' e in rw same refl
serial-abandon (op ∷ ops) ops' e h = elim (abandon_cons op ops ops' e) [
  | inl (open', same) ↦ rw same (rw open' at h)
  | inr (rest, e₁, same) ↦ elim (Bool-cases (Tool.is_terminal op.entry.status)) [
    | inl ended ↦ rw (same, ended) (serial-abandon ops rest e₁ (rw ended at h))
    | inr open' ↦
        let waiting : all is_waiting ops ≡ true = rw open' at h in
        rw (same, open', resolved-abandon ops rest e₁ (waiting_unresolved ops waiting)) waiting
  ]
]

pub abandon_total :
    (ops : List DurableToolOperation)
    → (ops' : List DurableToolOperation) × (abandon_tool ops ≡ ok ops')
unfolding abandon_tool Tool.transition
abandon_total [] = ([], refl)
abandon_total (op ∷ ops) = elim (Bool-cases (is_in_dispatch op.entry.status)) [
  | inl sent ↦ (
    record op { entry = record op.entry { status = ToolOperationStatus.ambiguous } } ∷ ops,
    ground arith,
  )
  | inr other ↦ let (rest, e) = abandon_total ops in (op ∷ rest, rw (other, e) refl)
]
