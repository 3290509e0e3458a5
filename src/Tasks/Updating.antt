-- ===== src/Tasks/Updating.antt =====
-- src/hypershell_reach/tasks.py: `mark_mutation_pending` and `update`, with the gate of pending
-- mutations.
use hypershell_reach.Base.{
  ℕ, String, Bool, true, false, not, ◌&&◌, Option, none, some, is_none, is_some, if◌then◌else◌,
}
use hypershell_reach.Base.Text.{◌<>◌}
use hypershell_reach.Base.Result.{Error, Result, ok, value_error, runtime_error}
use hypershell_reach.Base.Action.{Action, pure, raise, lift, gets, raise_if, ◌>>=◌, ◌>>◌}
use hypershell_reach.Tasks.Record.{
  TaskStatus, status_eq, ClosingStatus, closing_of, is_open, TaskRecord, TaskContinuity,
  has_pending_mutation,
}
use hypershell_reach.Tasks.Store.{
  TaskStore, require_writable, lock, directory_exists, read_dir, atomic_write,
}
use hypershell_reach.Tasks.Leases.{require_execution_lease}
use hypershell_reach.Tasks.Edits.{
  TaskEdits, no_edits, validate_edit_args, validate_continuity, merge_continuity, build_updated,
  marked_pending, reconciled, ContinuityPatch,
}
use hypershell_reach.Tasks.Closing.{Readings, close, stale, is_stale, expected_or}

unfoldable pub mark_current :
    String → String → Option String → Readings → Action TaskStore TaskRecord
unfolding read_dir require_execution_lease build_updated atomic_write
mark_current task_id purpose task_lease_id clock = do
  self ← read_dir task_id false
  lease ← require_execution_lease task_id task_lease_id clock.checked
  raise_if (not (is_open self.status)) (value_error ("task is terminal: " <> task_id))
  updated ← lift (
      build_updated self no_edits none (some (marked_pending purpose self.continuity)) none
        clock.now)
  atomic_write false updated
  pure updated

unfoldable pub mark_mutation_pending :
    String → String → Option String → Readings → Action TaskStore TaskRecord
unfolding require_writable lock mark_current
mark_mutation_pending task_id purpose task_lease_id clock = do
  require_writable
  lock task_id (do
    in_current ← gets (directory_exists task_id false)
    in_archive ← gets (directory_exists task_id true)
    raise_if (in_current && in_archive)
        (runtime_error ("task exists in current and archive: " <> task_id))
    raise_if in_archive (value_error ("task is archived: " <> task_id))
    raise_if (not in_current) (value_error ("unknown task: " <> task_id))
    mark_current task_id purpose task_lease_id clock)

-- `status is not None and status != record.status`
abbrev pub changes_status : Option TaskStatus → TaskStatus → Bool
changes_status none current = false
changes_status (some status) current = not (status_eq status current)

abbrev pub status_is_final : Error
status_is_final = value_error "terminal task status cannot be changed"

-- The merge of `update`, which keeps the record's continuity where no patch is given.
unfoldable pub merge_or_keep : TaskContinuity → Option ContinuityPatch → Result TaskContinuity
unfolding merge_continuity
merge_or_keep current none = ok current
merge_or_keep current (some patch) = merge_continuity current patch

-- What evidence of a reconciliation makes of the merged continuity.
unfoldable pub reconcile :
    Option String → TaskContinuity → TaskContinuity → Action TaskStore TaskContinuity
unfolding validate_continuity
reconcile none before merged = pure merged
reconcile (some evidence) before merged = do
  raise_if (not (has_pending_mutation before))
      (value_error "task has no pending mutation to reconcile")
  lift (validate_continuity (reconciled evidence merged))

-- The gate: the mark of a pending mutation goes only with evidence.
abbrev pub drops_mark : Option String → TaskContinuity → TaskContinuity → Bool
drops_mark reconcile_mutation before merged =
    has_pending_mutation before && (not (has_pending_mutation merged) && is_none reconcile_mutation)

abbrev pub if_changed :
    Option ContinuityPatch → Option String → TaskContinuity → Option TaskContinuity
if_changed none none merged = none
if_changed _ _ merged = some merged

unfoldable pub update_current :
    String
    → Option TaskStatus
    → Option ℕ
    → TaskEdits
    → Option String
    → Option String
    → Readings
    → Action TaskStore TaskRecord
unfolding read_dir require_execution_lease merge_or_keep reconcile build_updated atomic_write
update_current task_id status expected_revision edits reconcile_mutation task_lease_id clock = do
  self ← read_dir task_id false
  lease ← require_execution_lease task_id task_lease_id clock.checked
  raise_if (not (is_open self.status) && changes_status status self.status) status_is_final
  raise_if (not (is_open self.status)) (value_error ("task is terminal: " <> task_id))
  raise_if (is_stale expected_revision self.revision)
      (stale (expected_or expected_revision self.revision) self.revision)
  merged ← lift (merge_or_keep self.continuity edits.continuity)
  raise_if (drops_mark reconcile_mutation self.continuity merged)
      (value_error "pending mutation blocker requires explicit reconcile_mutation evidence")
  continuity ← reconcile reconcile_mutation self.continuity merged
  updated ← lift (
      build_updated self edits status (if_changed edits.continuity reconcile_mutation continuity)
        none clock.now)
  atomic_write false updated
  pure updated

unfoldable pub update_archived : String → Option TaskStatus → Action TaskStore TaskRecord
unfolding read_dir
update_archived task_id status = do
  self ← read_dir task_id true
  raise_if (changes_status status self.status) status_is_final
  raise (value_error ("task is archived: " <> task_id))

-- `update` with a status that is not terminal, or none.
unfoldable pub update_open :
    String
    → Option TaskStatus
    → Option ℕ
    → TaskEdits
    → Option String
    → Option String
    → Readings
    → Action TaskStore TaskRecord
unfolding lock update_archived update_current
update_open task_id status expected_revision edits reconcile_mutation task_lease_id clock =
    lock task_id (do
      in_current ← gets (directory_exists task_id false)
      in_archive ← gets (directory_exists task_id true)
      raise_if (in_current && in_archive)
          (runtime_error ("task exists in current and archive: " <> task_id))
      if in_archive then update_archived task_id status else (do
        raise_if (not in_current) (value_error ("unknown task: " <> task_id))
        update_current task_id status expected_revision edits reconcile_mutation task_lease_id
            clock))

abbrev pub optional_closing : Option TaskStatus → Option ClosingStatus
optional_closing none = none
optional_closing (some status) = closing_of status

unfoldable pub update_by :
    Option ClosingStatus
    → String
    → Option TaskStatus
    → Option ℕ
    → TaskEdits
    → Option String
    → Option String
    → Readings
    → Action TaskStore TaskRecord
unfolding close update_open
update_by (some closing) task_id status expected_revision edits reconcile_mutation task_lease_id
      clock =
    do
      raise_if (is_some reconcile_mutation)
          (value_error "reconcile mutation before terminal task close")
      close task_id closing expected_revision edits task_lease_id clock
update_by none task_id status expected_revision edits reconcile_mutation task_lease_id clock =
    update_open task_id status expected_revision edits reconcile_mutation task_lease_id clock

unfoldable pub update :
    String
    → Option TaskStatus
    → Option ℕ
    → TaskEdits
    → Option String
    → Option String
    → Readings
    → Action TaskStore TaskRecord
unfolding require_writable validate_edit_args update_by
update task_id status expected_revision edits reconcile_mutation task_lease_id clock = do
  require_writable
  lift (validate_edit_args edits)
  update_by (optional_closing status) task_id status expected_revision edits reconcile_mutation
      task_lease_id clock
