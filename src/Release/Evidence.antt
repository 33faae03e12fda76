-- ===== src/Release/Evidence.antt =====
-- What a release manifest records, and what a refusal of `from_verdicts` names
-- (crates/alloyport-core/src/lib.rs).
use alloyport.Prelude.{
  subst, ◌+◌, ◌≤◌, ◌≡◌, refl, arith, ℕ, Bool, true, false, not, ◌||◌, ◌&&◌, inl, inr, List, [], ◌∷◌,
  any, is_empty, if◌then◌else◌, Bool-cases, Result-cases, ok, err, >>=-eq_ok,
}
use alloyport.Prelude.Text.{Text, text_eq}
use alloyport.Prelude.Sets.{has, has-extend}
use alloyport.Release.{
  Gate, Verdict, ReleaseManifest, ReleaseError, Tally, gate_eq, all_gates, contains, receipts,
  accept, check_verdict, check_verdicts, check_gates, from_verdicts, missing_source_artifacts,
  candidate_mismatch, duplicate_gate, failed_gate, missing_evidence, missing_gate,
}
use alloyport.Release.Criteria.{count, check_verdicts-ok}

-- The digest is a receipt of one of the verdicts.
abbrev pub is_receipt : List ℕ → List Verdict → Bool
is_receipt d vs = any (λ v. has (receipts v) d) vs

check_verdict-accept :
    (candidate : Text) (t t' : Tally) (v : Verdict)
    → check_verdict candidate t v ≡ ok t'
    → t' ≡ accept t v
unfolding check_verdict
check_verdict-accept candidate t t' v h = ground arith

has-check_verdicts :
    (candidate : Text) (t t' : Tally) (vs : List Verdict) (d : List ℕ)
    → check_verdicts candidate t vs ≡ ok t'
    → has t'.evidence_digests d ≡ has t.evidence_digests d || is_receipt d vs
unfolding check_verdicts
has-check_verdicts candidate t t' [] d h = ground arith
has-check_verdicts candidate t t' (v ∷ vs) d h =
    let (s, m, h') = >>=-eq_ok (check_verdict candidate t v) _ h in
    let e = check_verdict-accept candidate t s v m in
    ground (
      arith,
      e,
      has-check_verdicts candidate s t' vs d h',
      has-extend t.evidence_digests (receipts v) d,
    )

abbrev start : Tally
start = record { passed = []; evidence_digests = [] }

abbrev describe : Text → Text → Text → Text → List (List ℕ) → Tally → ReleaseManifest
describe candidate domain guard fallback sources t = record {
  candidate_id = candidate;
  supported_domain = domain;
  dispatch_guard = guard;
  fallback = fallback;
  source_artifact_digests = sources;
  evidence_digests = t.evidence_digests;
}

from_verdicts-ok :
    (candidate domain guard fallback : Text) (sources : List (List ℕ)) (verdicts : List Verdict)
    (m : ReleaseManifest)
    → from_verdicts candidate domain guard fallback sources verdicts ≡ ok m
    → (t : Tally) × (check_verdicts candidate start verdicts ≡ ok t)
      × (m ≡ describe candidate domain guard fallback sources t)
unfolding from_verdicts
from_verdicts-ok candidate domain guard fallback sources verdicts m h =
    elim (Result-cases (check_verdicts candidate start verdicts)) [
      | inl (t, e) ↦ (t, e, ground arith)
      | inr (x, e) ↦ ground arith
    ]

-- A manifest carries the candidate, the domain, the guard, the fallback and the source artifacts
-- it was asked for, and its evidence is the set of the receipts of all its verdicts.
pub from_verdicts-is_receipt :
    (candidate domain guard fallback : Text) (sources : List (List ℕ)) (verdicts : List Verdict)
    (m : ReleaseManifest) (d : List ℕ)
    → from_verdicts candidate domain guard fallback sources verdicts ≡ ok m
    → (m.candidate_id ≡ candidate)
      × (m.supported_domain ≡ domain)
      × (m.dispatch_guard ≡ guard)
      × (m.fallback ≡ fallback)
      × (m.source_artifact_digests ≡ sources)
      × (has m.evidence_digests d ≡ is_receipt d verdicts)
unfolding has
from_verdicts-is_receipt candidate domain guard fallback sources verdicts m d h =
    let (t, e, m_is) = from_verdicts-ok candidate domain guard fallback sources verdicts m h in
    rw m_is (refl, refl, refl, refl, refl, has-check_verdicts candidate start t verdicts d e)

-- The fact about the input that an error states.
abbrev pub Names : Text → List (List ℕ) → List Verdict → ReleaseError → Type 0
Names candidate sources vs candidate_mismatch =
    any (λ v. not (text_eq v.candidate_id candidate)) vs ≡ true
Names candidate sources vs (duplicate_gate g) = 2 ≤ count g vs
Names candidate sources vs (failed_gate g) = any (λ v. gate_eq g v.gate && not v.passed) vs ≡ true
Names candidate sources vs (missing_evidence g) =
    any (λ v. gate_eq g v.gate && is_empty v.receipt_digests) vs ≡ true
Names candidate sources vs (missing_gate g) = count g vs ≡ 0
Names candidate sources vs missing_source_artifacts = is_empty sources ≡ true

abbrev here : List Gate → Gate → ℕ
here passed g = if contains passed g then 1 else 0

-- The same of the errors of the first loop, whose set may hold gates already.
abbrev Refuses : Text → Tally → List Verdict → ReleaseError → Type 0
Refuses candidate t vs candidate_mismatch =
    any (λ v. not (text_eq v.candidate_id candidate)) vs ≡ true
Refuses candidate t vs (duplicate_gate g) = 2 ≤ here t.passed g + count g vs
Refuses candidate t vs (failed_gate g) = any (λ v. gate_eq g v.gate && not v.passed) vs ≡ true
Refuses candidate t vs (missing_evidence g) =
    any (λ v. gate_eq g v.gate && is_empty v.receipt_digests) vs ≡ true
Refuses candidate t vs (missing_gate g) = ⊥
Refuses candidate t vs missing_source_artifacts = ⊥

check_verdict-Refuses :
    (candidate : Text) (t : Tally) (v : Verdict) (vs : List Verdict) (e : ReleaseError)
    → check_verdict candidate t v ≡ err e
    → Refuses candidate t (v ∷ vs) e
unfolding check_verdict
check_verdict-Refuses candidate t v vs candidate_mismatch h = ground arith
check_verdict-Refuses candidate t v vs (duplicate_gate g) h = ground arith
check_verdict-Refuses candidate t v vs (failed_gate g) h = ground arith
check_verdict-Refuses candidate t v vs (missing_evidence g) h = ground arith
check_verdict-Refuses candidate t v vs (missing_gate g) h = ground arith
check_verdict-Refuses candidate t v vs missing_source_artifacts h = ground arith

accept-Refuses :
    (candidate : Text) (t : Tally) (v : Verdict) (vs : List Verdict) (e : ReleaseError)
    → Refuses candidate (accept t v) vs e
    → Refuses candidate t (v ∷ vs) e
accept-Refuses candidate t v vs candidate_mismatch h = ground arith
accept-Refuses candidate t v vs (duplicate_gate g) h = ground arith
accept-Refuses candidate t v vs (failed_gate g) h = ground arith
accept-Refuses candidate t v vs (missing_evidence g) h = ground arith
accept-Refuses candidate t v vs (missing_gate g) h = h
accept-Refuses candidate t v vs missing_source_artifacts h = h

check_verdicts-Refuses :
    (candidate : Text) (t : Tally) (vs : List Verdict) (e : ReleaseError)
    → check_verdicts candidate t vs ≡ err e
    → Refuses candidate t vs e
unfolding check_verdicts
check_verdicts-Refuses candidate t [] e h = ground arith
check_verdicts-Refuses candidate t (v ∷ vs) e h =
    elim (Result-cases (check_verdict candidate t v)) [
      | inl (s, m) ↦
          let s_is = check_verdict-accept candidate t s v m in
          accept-Refuses candidate t v vs e
            (check_verdicts-Refuses candidate (accept t v) vs e (ground arith))
      | inr (x, m) ↦ check_verdict-Refuses candidate t v vs e (ground arith)
    ]

Refuses-Names :
    (candidate : Text) (sources : List (List ℕ)) (vs : List Verdict) (e : ReleaseError)
    → Refuses candidate start vs e
    → Names candidate sources vs e
Refuses-Names candidate sources vs candidate_mismatch h = h
Refuses-Names candidate sources vs (duplicate_gate g) h = omega arith
Refuses-Names candidate sources vs (failed_gate g) h = h
Refuses-Names candidate sources vs (missing_evidence g) h = h
Refuses-Names candidate sources vs (missing_gate g) h = absurd h
Refuses-Names candidate sources vs missing_source_artifacts h = absurd h

check_gates-err :
    (passed gs : List Gate) (e : ReleaseError)
    → check_gates passed gs ≡ err e
    → (g : Gate) × (e ≡ missing_gate g) × (contains passed g ≡ false)
unfolding check_gates
check_gates-err passed [] e h = cc
check_gates-err passed (g ∷ gs) e h = elim (Bool-cases (contains passed g)) [
  | inl c ↦ check_gates-err passed gs e (ground arith)
  | inr c ↦ (g, ground arith, c)
]

from_verdicts-err :
    (candidate domain guard fallback : Text) (sources : List (List ℕ)) (verdicts : List Verdict)
    (t : Tally) (e : ReleaseError)
    → is_empty sources ≡ false
    → check_verdicts candidate start verdicts ≡ ok t
    → from_verdicts candidate domain guard fallback sources verdicts ≡ err e
    → check_gates t.passed all_gates ≡ err e
unfolding from_verdicts
from_verdicts-err candidate domain guard fallback sources verdicts t e s m h = ground arith

-- Every error of `from_verdicts` is true of what it was given: a verdict of another candidate, two
-- verdicts at the gate it names, a failed one there, one without receipts there, none there, or no
-- source artifact.
pub from_verdicts-Names :
    (candidate domain guard fallback : Text) (sources : List (List ℕ)) (verdicts : List Verdict)
    (e : ReleaseError)
    → from_verdicts candidate domain guard fallback sources verdicts ≡ err e
    → Names candidate sources verdicts e
unfolding from_verdicts
from_verdicts-Names candidate domain guard fallback sources verdicts e h =
    elim (Bool-cases (is_empty sources)) [
      | inl s ↦
          let e_is : missing_source_artifacts ≡ e = ground arith in
          subst (Names candidate sources verdicts) e_is s
      | inr s ↦ elim (Result-cases (check_verdicts candidate start verdicts)) [
        | inl (t, m) ↦
            let f = from_verdicts-err candidate domain guard fallback sources verdicts t e s m h in
            let (g, e_is, c) = check_gates-err t.passed all_gates e f in
            let (w, n) = check_verdicts-ok candidate start t verdicts m in
            rw e_is (ground (arith, n g))
        | inr (x, m) ↦
            Refuses-Names candidate sources verdicts e
              (check_verdicts-Refuses candidate start verdicts e (ground arith))
      ]
    ]
