-- ===== src/Release/Criteria.antt =====
-- The release criteria of crates/alloyport-core/src/lib.rs as a predicate on the verdicts, beside
-- the two loops of `from_verdicts` that test them.
use alloyport.Prelude.{
  ℕ, ◌+◌, ◌==◌, ◌≤◌, ◌≡◌, refl, ap, arith, Bool, true, false, not, ◌&&◌, ◌↔◌, inl, inr, List, [],
  ◌∷◌, All, all, any, is_empty, if◌then◌else◌, Result-cases, is_ok, ok, >>=-eq_ok,
}
use alloyport.Prelude.Text.{Text, text_eq}
use alloyport.Release.{
  contract, source, build, correctness, performance, integration, Gate, Verdict, Tally, rank,
  gate_eq, all_gates, contains, accept, check_verdict, check_verdicts, check_gates, from_verdicts,
}

-- A verdict that speaks for the candidate: its own, passed, with a receipt.
abbrev pub vouches : Text → Verdict → Bool
vouches candidate v =
    text_eq v.candidate_id candidate && v.passed && not (is_empty v.receipt_digests)

-- The number of verdicts at a gate.
abbrev pub count : Gate → List Verdict → ℕ
count g [] = 0
count g (v ∷ vs) = (if gate_eq g v.gate then 1 else 0) + count g vs

pub record IsReleasable (candidate : Text) (sources : List (List ℕ)) (verdicts : List Verdict)
    : Type 0 where
  pub generated : is_empty sources ≡ false
  pub vouched : all (vouches candidate) verdicts ≡ true
  pub once : All (λ g. count g verdicts ≡ 1) all_gates

abbrev here : List Gate → Gate → ℕ
here passed g = if contains passed g then 1 else 0

accepts : Text → Tally → Verdict → Bool
accepts candidate t v = vouches candidate v && not (contains t.passed v.gate)

check_verdict-ok :
    (candidate : Text) (t t' : Tally) (v : Verdict)
    → check_verdict candidate t v ≡ ok t'
    → (accepts candidate t v ≡ true) × (t' ≡ accept t v)
unfolding check_verdict accepts
check_verdict-ok candidate t t' v h = ground arith

check_verdict-accepts :
    (candidate : Text) (t : Tally) (v : Verdict)
    → accepts candidate t v ≡ true
    → check_verdict candidate t v ≡ ok (accept t v)
unfolding check_verdict accepts
check_verdict-accepts candidate t v h = ground arith

-- Equal gates are in the same sets.
contains-gate_eq :
    (passed : List Gate) (g h : Gate) → gate_eq g h ≡ true → contains passed g ≡ contains passed h
contains-gate_eq passed g h e =
    let same : rank g ≡ rank h = ground arith in ap (λ (n : ℕ). any (λ x. n == rank x) passed) same

-- An accepted verdict adds its gate once.
here-accept :
    (candidate : Text) (t : Tally) (v : Verdict) (g : Gate)
    → accepts candidate t v ≡ true
    → here (v.gate ∷ t.passed) g ≡ (if gate_eq g v.gate then 1 else 0) + here t.passed g
unfolding accepts
here-accept candidate t v g a = ground (arith, contains-gate_eq t.passed g v.gate)

-- What an accepted sequence of verdicts has shown, and the gates it has inserted.
pub check_verdicts-ok :
    (candidate : Text) (t t' : Tally) (vs : List Verdict)
    → check_verdicts candidate t vs ≡ ok t'
    → (all (vouches candidate) vs ≡ true)
      × ((g : Gate) → here t'.passed g ≡ here t.passed g + count g vs)
unfolding check_verdicts accepts
check_verdicts-ok candidate t t' [] h = (refl, λ g. ground arith)
check_verdicts-ok candidate t t' (v ∷ vs) h =
    let (s, m, h') = >>=-eq_ok (check_verdict candidate t v) _ h in
    let (a, e) = check_verdict-ok candidate t s v m in
    let (w, n) = check_verdicts-ok candidate s t' vs h' in
    (
      ground arith,
      λ g. omega (arith, n g, here-accept candidate t v g a, ap (λ (x : Tally). here x.passed g) e),
    )

-- Verdicts that vouch, at most one for each gate, are accepted.
check_verdicts-IsAccepted :
    (candidate : Text) (t : Tally) (vs : List Verdict)
    → all (vouches candidate) vs ≡ true
    → ((g : Gate) → here t.passed g + count g vs ≤ 1)
    → (t' : Tally) × (check_verdicts candidate t vs ≡ ok t')
unfolding check_verdicts accepts
check_verdicts-IsAccepted candidate t [] w n = (t, refl)
check_verdicts-IsAccepted candidate t (v ∷ vs) w n =
    let a : accepts candidate t v ≡ true = ground (arith, n v.gate) in
    let c = check_verdict-accepts candidate t v a in
    let still : (g : Gate) → here (v.gate ∷ t.passed) g + count g vs ≤ 1 =
      λ g. omega (arith, n g, here-accept candidate t v g a) in
    let w' : all (vouches candidate) vs ≡ true = ground arith in
    let (t', h) = check_verdicts-IsAccepted candidate (accept t v) vs w' still in (t', rw c h)

-- The second loop asks for the presence of each gate.
check_gates-all : (passed gs : List Gate) → is_ok (check_gates passed gs) ≡ all (contains passed) gs
unfolding check_gates
check_gates-all passed [] = refl
check_gates-all passed (g ∷ gs) = ground (arith, check_gates-all passed gs)

abbrev start : Tally
start = record { passed = []; evidence_digests = [] }

-- The loops, and then the gates, of a manifest that is built.
from_verdicts-is_ok :
    (candidate domain guard fallback : Text) (sources : List (List ℕ)) (verdicts : List Verdict)
    → is_ok (from_verdicts candidate domain guard fallback sources verdicts) ≡ true
    → (t : Tally) × (check_verdicts candidate start verdicts ≡ ok t)
      × (is_empty sources ≡ false)
      × (all (contains t.passed) all_gates ≡ true)
unfolding from_verdicts
from_verdicts-is_ok candidate domain guard fallback sources verdicts h =
    elim (Result-cases (check_verdicts candidate start verdicts)) [
      | inl (t, m) ↦ (t, m, ground arith, ground arith)
      | inr (e, m) ↦ ground arith
    ]

of_once : (vs : List Verdict) → All (λ g. count g vs ≡ 1) all_gates → (g : Gate) → count g vs ≡ 1
of_once vs o contract = o.0
of_once vs o source = o.1.0
of_once vs o build = o.1.1.0
of_once vs o correctness = o.1.1.1.0
of_once vs o performance = o.1.1.1.1.0
of_once vs o integration = o.1.1.1.1.1.0

-- The gates a finished first loop has inserted, in numbers.
once-contains :
    (passed : List Gate) (vs : List Verdict)
    → ((g : Gate) → here passed g ≡ 0 + count g vs)
    → (all (contains passed) all_gates ≡ true) ↔ All (λ g. count g vs ≡ 1) all_gates
once-contains passed vs n = (
  λ c.
      let one : (g : Gate) → contains passed g ≡ true → count g vs ≡ 1 =
        λ g h. ground (arith, n g) in
      (
        one contract (ground arith),
        (
          one source (ground arith),
          (
            one build (ground arith),
            (
              one correctness (ground arith),
              (one performance (ground arith), (one integration (ground arith), tt)),
            ),
          ),
        ),
      ),
  λ o.
      let there : (g : Gate) → contains passed g ≡ true =
        λ g. ground (arith, n g, of_once vs o g) in
      rw
        (
          there contract,
          there source,
          there build,
          there correctness,
          there performance,
          there integration,
        )
        refl,
)

-- A release manifest is built exactly when there is a source artifact, every verdict is a passed one
-- of this candidate with a receipt, and each of the six gates has exactly one verdict.
pub from_verdicts-IsReleasable :
    (candidate domain guard fallback : Text) (sources : List (List ℕ)) (verdicts : List Verdict)
    → (is_ok (from_verdicts candidate domain guard fallback sources verdicts) ≡ true)
      ↔ IsReleasable candidate sources verdicts
unfolding from_verdicts
from_verdicts-IsReleasable candidate domain guard fallback sources verdicts = (
  λ h.
      let (t, m, s, c) = from_verdicts-is_ok candidate domain guard fallback sources verdicts h in
      let (w, n) = check_verdicts-ok candidate start t verdicts m in
      record { generated = s; vouched = w; once = (once-contains t.passed verdicts n).0 c },
  λ r.
      let (t, m) =
        check_verdicts-IsAccepted candidate start verdicts r.vouched
          (λ g. omega (arith, of_once verdicts r.once g)) in
      let (w, n) = check_verdicts-ok candidate start t verdicts m in
      let c = (once-contains t.passed verdicts n).1 r.once in ground arith,
)
