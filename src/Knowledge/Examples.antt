-- ===== src/Knowledge/Examples.antt =====
-- Tests of the knowledge gate, and the properties at them.
use alloyport.Prelude.{◌≡◌, refl, true, false, none, List, [], ◌∷◌, all, is_empty}
use alloyport.Prelude.Text.{codes}
use alloyport.Digest.{Sha256Digest}
use alloyport.Knowledge.{
  KnowledgeEntry, KnowledgeKind, Citation, ResolvedCitation, CorrectnessVerdict, Stored, proposed,
  supported, foreign_evidence, unresolved_citation, admit, audit,
}
use alloyport.Knowledge.Evidence.{granted, admit-granted}
use alloyport.Knowledge.Audit.{is_current, audit-is_current}

abbrev built : Sha256Digest
built = record { bytes = 1 ∷ [] }

abbrev judged : Sha256Digest
judged = record { bytes = 2 ∷ [] }

abbrev entry : KnowledgeEntry
entry = record {
  schema_version = 1;
  id = codes "k";
  kind = KnowledgeKind.transformation;
  scope = record { soc = codes "910b"; cann = codes "8"; operator_family = codes "reduction" };
  task_id = codes "t";
  claim = codes "tiles by rows";
  citations = Citation.build built ∷ Citation.correctness judged ∷ [];
  retracts = none;
}

abbrev receipts : List ResolvedCitation
receipts =
    ResolvedCitation.build_receipt built (codes "t") (codes "c") true
    ∷ ResolvedCitation.correctness_receipt judged (codes "t") (codes "c") CorrectnessVerdict.pass
    ∷ []

-- The second receipt is missing, and the first one is another task's.
abbrev strangers : List ResolvedCitation
strangers = ResolvedCitation.build_receipt built (codes "u") (codes "c") true ∷ []

admitted : admit entry receipts ≡ record { status = supported; refusals = [] }
unfolding admit
admitted = refl

refused :
    admit entry strangers
    ≡ record { status = proposed; refusals = unresolved_citation ∷ foreign_evidence ∷ [] }
unfolding admit
refused = refl

admit-granted_example : (admit entry strangers).status ≡ granted entry strangers
admit-granted_example = admit-granted entry strangers

abbrev stored : List Stored
stored =
    record { entry = entry; recorded = supported; resolved = receipts }
    ∷ record { entry = entry; recorded = supported; resolved = strangers }
    ∷ []

reported : is_empty (audit stored) ≡ false
unfolding audit
reported = refl

audit-is_current_example : is_empty (audit stored) ≡ all is_current stored
audit-is_current_example = audit-is_current stored
