-- ===== src/Release/Task.antt =====
-- crates/alloyport-core/src/lib.rs: the migration task and its lifecycle.
pub mod Stages
use alloyport.Prelude.{ℕ, ◌==◌, Bool, true, false, not, Option, if◌then◌else◌, Result, ok, err}
use alloyport.Prelude.Text.{Text}
use alloyport.Digest.{Sha256Digest}

pub data GenerationStrategy : Type 0 where
  direct_ascend_c ascend_simt_bootstrap : GenerationStrategy
  verified_template_adaptation memory_guided_synthesis : GenerationStrategy

pub data TaskState : Type 0 where
  captured specified generating building verifying optimizing : TaskState
  integrating releasable released failed : TaskState

unfoldable pub can_transition_to : TaskState → TaskState → Bool
can_transition_to captured specified = true
can_transition_to captured failed = true
can_transition_to specified generating = true
can_transition_to specified failed = true
can_transition_to generating building = true
can_transition_to generating failed = true
can_transition_to building generating = true
can_transition_to building verifying = true
can_transition_to building failed = true
can_transition_to verifying generating = true
can_transition_to verifying optimizing = true
can_transition_to verifying failed = true
can_transition_to optimizing building = true
can_transition_to optimizing integrating = true
can_transition_to optimizing failed = true
can_transition_to integrating generating = true
can_transition_to integrating releasable = true
can_transition_to integrating failed = true
can_transition_to releasable released = true
can_transition_to releasable failed = true
can_transition_to _ _ = false

pub record Task : Type 0 where
  pub id : Text
  pub source_revision : Text
  pub migration_spec_digest : Option Sha256Digest
  pub state : TaskState
  pub generation_strategy : Option GenerationStrategy

pub record TransitionError : Type 0 where
  pub from : TaskState
  pub to : TaskState

unfoldable pub transition : Task → TaskState → Result TransitionError Task
unfolding can_transition_to
transition t next =
    if not (can_transition_to t.state next)
    then err (record { from = t.state; to = next })
    else ok (record t { state = next })
