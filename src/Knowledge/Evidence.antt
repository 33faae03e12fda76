-- ===== src/Knowledge/Evidence.antt =====
-- The evidence rules of crates/alloyport-core/src/knowledge.rs as tests on an entry, beside the
-- gate that gathers refusals.
use alloyport.Prelude.{
  true, ◌≡◌, refl, arith, Bool, false, not, ◌&&◌, ◌||◌, none, some, List, [], ◌∷◌, all, push,
  is_empty, if◌then◌else◌, Option-cases, inl, inr,
}
use alloyport.Prelude.Text.{is_blank, text_eq}
use alloyport.Knowledge.{
  KnowledgeEntry, KnowledgeKind, KnowledgeStatus, Citation, ResolvedCitation, AdmissionRefusal,
  find, succeeded, task_id_of, is_foreign, is_failed_route, check_citation, check_citations,
  decided, is_unnamed, admit, proposed, supported, retracted, failed_route, sort_refusals,
  place_refusal, dedup, push_if, unresolved_citation, foreign_evidence, evidence_contradicts_kind,
  no_citations, invalid_scope, unevidenced_retraction,
}

-- The receipt that a citation finds is of this task or of none, and reports the outcome that the kind
-- rests on.
unfoldable pub bears_out : KnowledgeEntry → List ResolvedCitation → KnowledgeKind → Citation → Bool
unfolding find text_eq
bears_out e resolved kind c = elim (find resolved c) [
  | none ↦ false
  | some found ↦
      (elim (task_id_of found) [ none ↦ true | some task ↦ text_eq task e.task_id ])
      && (elim (succeeded found) [
        | none ↦ false
        | some success ↦ if is_failed_route kind then not success else success
      ])
]

-- The status that the evidence grants.
unfoldable pub granted : KnowledgeEntry → List ResolvedCitation → KnowledgeStatus
unfolding bears_out is_unnamed is_blank
granted e resolved = elim e.retracts [
  | none ↦
      if not (is_unnamed e)
        && not (is_empty e.citations)
        && all (bears_out e resolved e.kind) e.citations
      then supported
      else proposed
  | some r ↦
      if not (is_unnamed e)
        && not (is_empty r.citations)
        && not (is_blank r.reason)
        && all (bears_out e resolved failed_route) r.citations
      then retracted
      else proposed
]

is_empty-push : (rs : List AdmissionRefusal) (r : AdmissionRefusal) → is_empty (push rs r) ≡ false
is_empty-push [] r = refl
is_empty-push (s ∷ rs) r = refl

is_empty-place_refusal :
    (r : AdmissionRefusal) (rs : List AdmissionRefusal) → is_empty (place_refusal r rs) ≡ false
unfolding place_refusal
is_empty-place_refusal r [] = refl
is_empty-place_refusal r (s ∷ rs) = ground arith

is_empty-sort_refusals : (rs : List AdmissionRefusal) → is_empty (sort_refusals rs) ≡ is_empty rs
unfolding sort_refusals
is_empty-sort_refusals [] = refl
is_empty-sort_refusals (r ∷ rs) = is_empty-place_refusal r (sort_refusals rs)

is_empty-dedup : (rs : List AdmissionRefusal) → is_empty (dedup rs) ≡ is_empty rs
unfolding dedup
is_empty-dedup [] = refl
is_empty-dedup (r ∷ []) = refl
is_empty-dedup (r ∷ s ∷ ss) = ground (arith, is_empty-dedup (s ∷ ss))

is_empty-check_citation :
    (e : KnowledgeEntry) (c : Citation) (resolved : List ResolvedCitation) (kind : KnowledgeKind)
    (rs : List AdmissionRefusal)
    → is_empty (check_citation e c resolved kind rs) ≡ is_empty rs && bears_out e resolved kind c
unfolding check_citation bears_out is_foreign
is_empty-check_citation e c resolved kind rs = elim (Option-cases (find resolved c)) [
  | inl n ↦ ground (arith, n, is_empty-push rs unresolved_citation)
  | inr (f, n) ↦ elim (Option-cases (succeeded f)) [
    | inl m ↦ ground (arith, n, m, is_empty-push rs unresolved_citation)
    | inr (s, m) ↦ ground (
      arith,
      n,
      m,
      is_empty-push rs foreign_evidence,
      is_empty-push rs evidence_contradicts_kind,
      is_empty-push (push rs foreign_evidence) evidence_contradicts_kind,
    )
  ]
]

is_empty-check_citations :
    (e : KnowledgeEntry) (cs : List Citation) (resolved : List ResolvedCitation)
    (kind : KnowledgeKind) (rs : List AdmissionRefusal)
    → is_empty (check_citations e cs resolved kind rs)
      ≡ is_empty rs && all (bears_out e resolved kind) cs
unfolding check_citations
is_empty-check_citations e [] resolved kind rs = ground arith
is_empty-check_citations e (c ∷ cs) resolved kind rs = ground (
  arith,
  is_empty-check_citation e c resolved kind rs,
  is_empty-check_citations e cs resolved kind (check_citation e c resolved kind rs),
)

decided-status :
    (s : KnowledgeStatus) (rs : List AdmissionRefusal)
    → (decided s rs).status ≡ (if is_empty rs then s else proposed)
unfolding decided
decided-status s rs = ground (arith, is_empty-dedup (sort_refusals rs), is_empty-sort_refusals rs)

-- The gate grants exactly the status that the resolved evidence grants. An entry is supported when it is
-- scoped and named, cites something, and every citation finds a receipt of its own task, or of none,
-- that reports what its kind rests on; a retraction is granted on failures in the same way, with a
-- reason; everything else stays proposed.
pub admit-granted :
    (e : KnowledgeEntry) (resolved : List ResolvedCitation)
    → (admit e resolved).status ≡ granted e resolved
unfolding admit granted
admit-granted e resolved = elim (Option-cases e.retracts) [
  | inl n ↦ rw n (
      let uncited =
        push_if (is_empty e.citations) no_citations (push_if (is_unnamed e) invalid_scope []) in
      ground (
        arith,
        decided-status supported (check_citations e e.citations resolved e.kind uncited),
        is_empty-check_citations e e.citations resolved e.kind uncited,
      ))
  | inr (r, n) ↦ rw n (
      let unevidenced =
        push_if (is_empty r.citations || is_blank r.reason) unevidenced_retraction
          (push_if (is_unnamed e) invalid_scope []) in
      ground (
        arith,
        decided-status retracted (check_citations e r.citations resolved failed_route unevidenced),
        is_empty-check_citations e r.citations resolved failed_route unevidenced,
      ))
]
