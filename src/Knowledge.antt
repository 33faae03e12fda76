-- ===== src/Knowledge.antt =====
-- crates/alloyport-core/src/knowledge.rs: admission of knowledge entries by what their citations
-- resolve to, and the audit of entries already stored.
pub mod Evidence
pub mod Audit
pub mod Examples
use alloyport.Prelude.{
  ℕ, ◌==◌, ltb, Bool, true, false, not, ◌&&◌, ◌||◌, Option, none, some, List, [], ◌∷◌, all, push,
  is_empty, filter_map, if◌then◌else◌,
}
use alloyport.Prelude.Text.{Text, text_eq, is_blank}
use alloyport.Digest.{Sha256Digest, digest_eq}
use alloyport.Performance.{PerformanceVerdict}

pub data CorrectnessVerdict : Type 0 where
  pass fail unverifiable infra_error : CorrectnessVerdict

pub data KnowledgeKind : Type 0 where
  transformation fact failed_route : KnowledgeKind

pub record KnowledgeScope : Type 0 where
  pub soc : Text
  pub cann : Text
  pub operator_family : Text

unfoldable pub is_valid : KnowledgeScope → Bool
unfolding is_blank
is_valid s = all (λ field. not (is_blank field)) (s.soc ∷ s.cann ∷ s.operator_family ∷ [])

pub data Citation : Type 0 where
  correctness performance build : Sha256Digest → Citation

abbrev pub digest : Citation → Sha256Digest
digest (correctness d) = d
digest (performance d) = d
digest (build d) = d

pub data ResolvedCitation : Type 0 where
  unresolved : Sha256Digest → ResolvedCitation
  correctness_receipt :
      (digest : Sha256Digest) (task_id candidate_id : Text) (verdict : CorrectnessVerdict)
      → ResolvedCitation
  performance_receipt : (digest : Sha256Digest) (verdict : PerformanceVerdict) → ResolvedCitation
  build_receipt :
      (digest : Sha256Digest) (task_id candidate_id : Text) (passed : Bool) → ResolvedCitation

abbrev pub resolved_digest : ResolvedCitation → Sha256Digest
resolved_digest (unresolved d) = d
resolved_digest (correctness_receipt d _ _ _) = d
resolved_digest (performance_receipt d _) = d
resolved_digest (build_receipt d _ _ _) = d

abbrev is_pass : CorrectnessVerdict → Bool
is_pass pass = true
is_pass _ = false

abbrev is_improved : PerformanceVerdict → Bool
is_improved PerformanceVerdict.improved = true
is_improved _ = false

abbrev pub succeeded : ResolvedCitation → Option Bool
succeeded (unresolved _) = none
succeeded (correctness_receipt _ _ _ verdict) = some (is_pass verdict)
succeeded (performance_receipt _ verdict) = some (is_improved verdict)
succeeded (build_receipt _ _ _ passed) = some passed

abbrev pub task_id_of : ResolvedCitation → Option Text
task_id_of (unresolved _) = none
task_id_of (correctness_receipt _ task _ _) = some task
task_id_of (performance_receipt _ _) = none
task_id_of (build_receipt _ task _ _) = some task

pub data KnowledgeStatus : Type 0 where
  proposed supported contested retracted : KnowledgeStatus

pub data AdmissionRefusal : Type 0 where
  no_citations invalid_scope unresolved_citation : AdmissionRefusal
  evidence_contradicts_kind foreign_evidence unevidenced_retraction : AdmissionRefusal

pub record Retraction : Type 0 where
  pub entry_id : Text
  pub reason : Text
  pub citations : List Citation

pub record KnowledgeEntry : Type 0 where
  pub schema_version : ℕ
  pub id : Text
  pub kind : KnowledgeKind
  pub scope : KnowledgeScope
  pub task_id : Text
  pub claim : Text
  pub citations : List Citation
  pub retracts : Option Retraction

pub record Admission : Type 0 where
  pub status : KnowledgeStatus
  pub refusals : List AdmissionRefusal

-- The derived order.
abbrev pub refusal_rank : AdmissionRefusal → ℕ
refusal_rank no_citations = 0
refusal_rank invalid_scope = 1
refusal_rank unresolved_citation = 2
refusal_rank evidence_contradicts_kind = 3
refusal_rank foreign_evidence = 4
refusal_rank unevidenced_retraction = 5

place_refusal : AdmissionRefusal → List AdmissionRefusal → List AdmissionRefusal
place_refusal r [] = r ∷ []
place_refusal r (s ∷ ss) =
    let rest = place_refusal r ss in
    if ltb (refusal_rank s) (refusal_rank r) then s ∷ rest else r ∷ s ∷ ss

-- sort_unstable
sort_refusals : List AdmissionRefusal → List AdmissionRefusal
unfolding place_refusal
sort_refusals [] = []
sort_refusals (r ∷ rs) = place_refusal r (sort_refusals rs)

-- Vec::dedup, of neighbours
dedup : List AdmissionRefusal → List AdmissionRefusal
dedup [] = []
dedup (r ∷ []) = r ∷ []
dedup (r ∷ s ∷ ss) =
    let rest = dedup (s ∷ ss) in if refusal_rank r == refusal_rank s then rest else r ∷ rest

-- Iterator::find, by the digest
unfoldable pub find : List ResolvedCitation → Citation → Option ResolvedCitation
unfolding digest_eq
find [] c = none
find (r ∷ rs) c = if digest_eq (resolved_digest r) (digest c) then some r else find rs c

abbrev pub is_failed_route : KnowledgeKind → Bool
is_failed_route failed_route = true
is_failed_route _ = false

abbrev pub bool_eq : Bool → Bool → Bool
bool_eq true b = b
bool_eq false b = not b

unfoldable pub is_foreign : KnowledgeEntry → ResolvedCitation → Bool
unfolding text_eq
is_foreign e r = elim (task_id_of r) [ none ↦ false | some t ↦ not (text_eq t e.task_id) ]

abbrev push_if : Bool → AdmissionRefusal → List AdmissionRefusal → List AdmissionRefusal
push_if test r rs = if test then push rs r else rs

check_citation :
    KnowledgeEntry
    → Citation
    → List ResolvedCitation
    → KnowledgeKind
    → List AdmissionRefusal
    → List AdmissionRefusal
unfolding find is_foreign
check_citation e citation resolved kind rs = elim (find resolved citation) [
  | none ↦ push rs unresolved_citation
  | some found ↦ elim (succeeded found) [
    | none ↦ push rs unresolved_citation
    | some success ↦
        push_if (not (bool_eq success (not (is_failed_route kind)))) evidence_contradicts_kind
          (push_if (is_foreign e found) foreign_evidence rs)
  ]
]

check_citations :
    KnowledgeEntry
    → List Citation
    → List ResolvedCitation
    → KnowledgeKind
    → List AdmissionRefusal
    → List AdmissionRefusal
unfolding check_citation
check_citations e [] resolved kind rs = rs
check_citations e (c ∷ cs) resolved kind rs =
    check_citations e cs resolved kind (check_citation e c resolved kind rs)

decided : KnowledgeStatus → List AdmissionRefusal → Admission
unfolding sort_refusals dedup
decided granted rs =
    let refusals = dedup (sort_refusals rs) in
    record { status = if is_empty refusals then granted else proposed; refusals = refusals }

unfoldable pub is_unnamed : KnowledgeEntry → Bool
unfolding is_valid is_blank
is_unnamed e = not (is_valid e.scope) || is_blank e.claim || is_blank e.id

unfoldable pub admit : KnowledgeEntry → List ResolvedCitation → Admission
unfolding check_citations decided is_unnamed is_blank
admit e resolved =
    let unnamed = push_if (is_unnamed e) invalid_scope [] in
    elim e.retracts [
      | some retraction ↦
          let unevidenced =
            push_if (is_empty retraction.citations || is_blank retraction.reason)
              unevidenced_retraction unnamed in
          decided retracted
            (check_citations e retraction.citations resolved failed_route unevidenced)
      | none ↦
          let uncited = push_if (is_empty e.citations) no_citations unnamed in
          decided supported (check_citations e e.citations resolved e.kind uncited)
    ]

abbrev status_rank : KnowledgeStatus → ℕ
status_rank proposed = 0
status_rank supported = 1
status_rank contested = 2
status_rank retracted = 3

abbrev pub status_eq : KnowledgeStatus → KnowledgeStatus → Bool
status_eq a b = status_rank a == status_rank b

pub record Stored : Type 0 where
  pub entry : KnowledgeEntry
  pub recorded : KnowledgeStatus
  pub resolved : List ResolvedCitation

pub record AuditFinding : Type 0 where
  pub id : Text
  pub recorded : KnowledgeStatus
  pub granted : KnowledgeStatus
  pub refusals : List AdmissionRefusal

audit_one : Stored → Option AuditFinding
unfolding admit
audit_one s =
    let admission = admit s.entry s.resolved in
    if status_eq admission.status s.recorded
    then none
    else some (record {
      id = s.entry.id;
      recorded = s.recorded;
      granted = admission.status;
      refusals = admission.refusals;
    })

unfoldable pub audit : List Stored → List AuditFinding
unfolding audit_one filter_map
audit stored = filter_map audit_one stored
