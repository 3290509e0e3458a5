-- ===== src/Tasks/Edits.antt =====
-- src/hypershell_reach/tasks.py: what `update`, `close` and `mark_mutation_pending` make of a record.
use hypershell_reach.Base.{
  ℕ, suc, String, Bool, false, not, ◌&&◌, Option, none, some, List, [], ◌∷◌, ◌++◌, keep, is_some,
  if◌then◌else◌,
}
use hypershell_reach.Base.Text.{◌<>◌}
use hypershell_reach.Base.Result.{
  Result, ok, err, value_error, validation_error, refuse, ◌>>=◌, ◌>>◌,
}
use hypershell_reach.Tasks.Record.{
  TaskStatus, TaskSource, TaskAssumption, TaskContinuity, TaskRecord, is_continuity, has_fields,
  is_pending_blocker,
}

-- A `TaskContinuity` with the fields that were set, `model_fields_set`.
pub record ContinuityPatch : Type 0 where
  pub authorization : Option (Option String)
  pub sources : Option (List TaskSource)
  pub completed : Option (List String)
  pub validation : Option (List String)
  pub cleanup : Option (List String)
  pub recovery : Option (Option String)
  pub blockers : Option (List String)
  pub assumptions : Option (List TaskAssumption)

abbrev pub or_kept {ℓ} : {A : Type ℓ} → Option A → A → A
or_kept none kept = kept
or_kept (some value) kept = value

abbrev pub patched : TaskContinuity → ContinuityPatch → TaskContinuity
patched current patch = record {
  authorization = or_kept patch.authorization current.authorization;
  sources = or_kept patch.sources current.sources;
  completed = or_kept patch.completed current.completed;
  validation = or_kept patch.validation current.validation;
  cleanup = or_kept patch.cleanup current.cleanup;
  recovery = or_kept patch.recovery current.recovery;
  blockers = or_kept patch.blockers current.blockers;
  assumptions = or_kept patch.assumptions current.assumptions;
}

-- `TaskContinuity.model_validate`
unfoldable pub validate_continuity : TaskContinuity → Result TaskContinuity
validate_continuity c = if is_continuity c then ok c else err (validation_error "TaskContinuity")

-- `_merge_continuity`
unfoldable pub merge_continuity : TaskContinuity → ContinuityPatch → Result TaskContinuity
unfolding validate_continuity
merge_continuity current patch = validate_continuity (patched current patch)

-- The keyword arguments that `update` and `close` share.
pub record TaskEdits : Type 0 where
  pub title : Option String
  pub objective : Option String
  pub project_ref : Option String
  pub clear_project_ref : Bool
  pub next_action : Option String
  pub clear_next_action : Bool
  pub continuity : Option ContinuityPatch
  pub retained : Option Bool

abbrev pub no_edits : TaskEdits
no_edits = record {
  title = none;
  objective = none;
  project_ref = none;
  clear_project_ref = false;
  next_action = none;
  clear_next_action = false;
  continuity = none;
  retained = none;
}

unfoldable pub validate_edit_args : TaskEdits → Result (Unit {0})
validate_edit_args edits =
    refuse (edits.clear_project_ref && is_some edits.project_ref)
      (value_error "project_ref and clear_project_ref are mutually exclusive")
    >> refuse (edits.clear_next_action && is_some edits.next_action)
        (value_error "next_action and clear_next_action are mutually exclusive")

-- `None if clear else value`, where either is given.
abbrev pub cleared_or : Bool → Option String → Option String → Option String
cleared_or clear (some value) current = if clear then none else some value
cleared_or clear none current = if clear then none else current

abbrev pub or_given {ℓ} : {A : Type ℓ} → Option A → Option A → Option A
or_given none current = current
or_given (some value) current = some value

-- The record with the updates in.
abbrev pub edited :
    TaskRecord → TaskEdits → Option TaskStatus → Option TaskContinuity → Option ℕ → ℕ → TaskRecord
edited self edits status continuity archived_at now = record {
  schema_version = 2;
  revision = suc self.revision;
  id = self.id;
  title = or_kept edits.title self.title;
  objective = or_kept edits.objective self.objective;
  project_ref = cleared_or edits.clear_project_ref edits.project_ref self.project_ref;
  status = or_kept status self.status;
  next_action = cleared_or edits.clear_next_action edits.next_action self.next_action;
  continuity = or_kept continuity self.continuity;
  retained = or_kept edits.retained self.retained;
  created_at = self.created_at;
  updated_at = now;
  archived_at = or_given archived_at self.archived_at;
}

-- `TaskRecord.model_validate`, which takes a continuity that is an object as it is.
abbrev pub validates : Option TaskContinuity → TaskRecord → Bool
validates none self = has_fields self && is_continuity self.continuity
validates (some continuity) self = has_fields self

-- `_build_updated`
unfoldable pub build_updated :
    TaskRecord
    → TaskEdits
    → Option TaskStatus
    → Option TaskContinuity
    → Option ℕ
    → ℕ
    → Result TaskRecord
build_updated self edits status continuity archived_at now =
    if validates continuity (edited self edits status continuity archived_at now)
    then ok (edited self edits status continuity archived_at now)
    else err (validation_error "TaskRecord")

-- The merged continuity, if a patch is given.
unfoldable pub merge_optional :
    TaskContinuity → Option ContinuityPatch → Result (Option TaskContinuity)
unfolding merge_continuity
merge_optional current none = ok none
merge_optional current (some patch) = merge_continuity current patch >>= λ merged. ok (some merged)

-- The blockers but for those of pending mutations.
abbrev pub settled_blockers : TaskContinuity → List String
settled_blockers c = keep (λ blocker. not (is_pending_blocker blocker)) c.blockers

abbrev pub pending_blocker : String → String
pending_blocker purpose =
    "[reach:pending-mutation]"
    <> (" Mutating execution requires postcondition reconciliation before Task completion. Latest purpose: "
        <> purpose)

abbrev pub marked_pending : String → TaskContinuity → TaskContinuity
marked_pending purpose c = record c {
  blockers = settled_blockers c ++ pending_blocker purpose ∷ [];
}

abbrev pub reconciled : String → TaskContinuity → TaskContinuity
reconciled evidence c = record c {
  blockers = settled_blockers c;
  validation = c.validation ++ ("Mutation reconciliation: " <> evidence) ∷ [];
}
