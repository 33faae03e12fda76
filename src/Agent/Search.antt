-- ===== src/Agent/Search.antt =====
-- The candidate search run: its status machine, and the frontier of candidates it has recorded.
pub mod Frontier
use alloyport.Prelude.{
  ℕ, String, Bool, true, false, not, ◌||◌, Option, none, some, List, [], any, push, if◌then◌else◌,
  Result, ok, err,
}
use alloyport.Prelude.Text.{Text, text_eq}
use alloyport.Digest.{Sha256Digest}
use alloyport.AgentError.{
  AgentRecordError, invalid_transition, search_not_running, duplicate_candidate,
  search_cannot_refine, unknown_incumbent,
}

pub data SearchPhase : Type 0 where
  drafting refining : SearchPhase

pub data SearchStatus : Type 0 where
  created running suspended completed exhausted cancelled failed : SearchStatus

-- The derived `Debug` form.
unfoldable pub status_name : SearchStatus → String
status_name created = "Created"
status_name running = "Running"
status_name suspended = "Suspended"
status_name completed = "Completed"
status_name exhausted = "Exhausted"
status_name cancelled = "Cancelled"
status_name failed = "Failed"

can_transition_to : SearchStatus → SearchStatus → Bool
can_transition_to created running = true
can_transition_to created cancelled = true
can_transition_to created failed = true
can_transition_to running suspended = true
can_transition_to running completed = true
can_transition_to running exhausted = true
can_transition_to running cancelled = true
can_transition_to running failed = true
can_transition_to suspended running = true
can_transition_to suspended cancelled = true
can_transition_to suspended failed = true
can_transition_to _ _ = false

abbrev pub search_run_schema_v1 : ℕ
search_run_schema_v1 = 1

pub record SearchRunSpec : Type 0 where
  pub id : Text
  pub task_id : Text
  pub migration_spec_digest : Sha256Digest
  pub selection_policy_digest : Sha256Digest
  pub budget_snapshot_digest : Sha256Digest

-- The record holds the fields of its specification beside its own.
pub record SearchRunRecord : Type 0 where
  pub schema_version : ℕ
  pub spec : SearchRunSpec
  pub status : SearchStatus
  pub phase : SearchPhase
  pub candidate_ids : List Text
  pub incumbent_candidate_id : Option Text

-- SearchRunRecord::new
unfoldable pub new : SearchRunSpec → SearchRunRecord
new spec = record {
  schema_version = search_run_schema_v1;
  spec = spec;
  status = created;
  phase = drafting;
  candidate_ids = [];
  incumbent_candidate_id = none;
}

unfoldable pub transition : SearchRunRecord → SearchStatus → Result AgentRecordError SearchRunRecord
unfolding can_transition_to
transition r next =
    if can_transition_to r.status next
    then ok (record r { status = next })
    else err (invalid_transition "search run" (status_name r.status) (status_name next))

-- slice::contains
unfoldable pub contains : List Text → Text → Bool
contains ids id = any (text_eq id) ids

abbrev is_running : SearchStatus → Bool
is_running running = true
is_running _ = false

abbrev pub is_drafting : SearchPhase → Bool
is_drafting drafting = true
is_drafting refining = false

unfoldable pub record_candidate : SearchRunRecord → Text → Result AgentRecordError SearchRunRecord
unfolding contains
record_candidate r id =
    if not (is_running r.status)
    then err search_not_running
    else (if contains r.candidate_ids id
        then err (duplicate_candidate id)
        else ok (record r { candidate_ids = push r.candidate_ids id }))

unfoldable pub begin_refining : SearchRunRecord → Text → Result AgentRecordError SearchRunRecord
unfolding contains
begin_refining r incumbent =
    if not (is_running r.status) || not (is_drafting r.phase)
    then err search_cannot_refine
    else (if not (contains r.candidate_ids incumbent)
        then err (unknown_incumbent incumbent)
        else ok (record r { phase = refining; incumbent_candidate_id = some incumbent }))
