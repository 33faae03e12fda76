-- ===== src/Knowledge/Audit.antt =====
-- The audit of crates/alloyport-core/src/knowledge.rs over entries already stored.
use alloyport.Prelude.{
  ◌≡◌, refl, arith, Bool, List, [], ◌∷◌, all, is_empty, filter_map, Option-cases, is_some, not, inl,
  inr,
}
use alloyport.Knowledge.{Stored, status_eq, audit_one, audit}
use alloyport.Knowledge.Evidence.{granted, admit-granted}

abbrev pub is_current : Stored → Bool
is_current s = status_eq (granted s.entry s.resolved) s.recorded

is_some-audit_one : (s : Stored) → is_some (audit_one s) ≡ not (is_current s)
unfolding audit_one
is_some-audit_one s = ground (arith, admit-granted s.entry s.resolved)

-- The audit reports nothing exactly when every entry is recorded with the status that its evidence
-- grants.
pub audit-is_current : (stored : List Stored) → is_empty (audit stored) ≡ all is_current stored
unfolding audit filter_map
audit-is_current [] = refl
audit-is_current (s ∷ ss) = elim (Option-cases (audit_one s)) [
  | inl n ↦ ground (arith, n, is_some-audit_one s, audit-is_current ss)
  | inr (f, n) ↦ ground (arith, n, is_some-audit_one s)
]
