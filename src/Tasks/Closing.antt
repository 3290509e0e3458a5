-- ===== src/Tasks/Closing.antt =====
-- src/hypershell_reach/tasks.py: `close`, `archive`, `repair` and `cleanup`.
use hypershell_reach.Base.{
  ℕ, suc, ◌+◌, ◌*◌, String, Bool, true, false, not, ◌&&◌, Option, none, some, List, [], ◌∷◌, ◌++◌,
  is_nonempty, is_some, ◌==◌, leb, if◌then◌else◌,
}
use hypershell_reach.Base.Text.{str_eq, show, ◌<>◌}
use hypershell_reach.Base.Result.{
  Error, Result, ok, value_error, runtime_error, refuse, ◌>>=◌ as bind,
}
use hypershell_reach.Base.Action.{
  Action, pure, raise, lift, gets, or_raise, raise_if, modify, transaction, ◌>>=◌, ◌>>◌,
}
use hypershell_reach.Base.Table.{sort_by_key, delete_all}
use hypershell_reach.Base.TableOrder.{keys_of, rows_where}
use hypershell_reach.Tasks.Record.{
  status_eq, ClosingStatus, as_completed, as_cancelled, status_of, closing_of, is_open, TaskRecord,
  has_pending_mutation, decode,
}
use hypershell_reach.Tasks.Store.{
  TaskRow, TaskStore, require_writable, lock, directory_exists, read_dir, atomic_write,
  move_to_archive, get, bool_eq,
}
use hypershell_reach.Tasks.Leases.{require_execution_lease, remove_execution_lease}
use hypershell_reach.Tasks.Edits.{
  TaskEdits, no_edits, validate_edit_args, merge_optional, build_updated,
}
use hypershell_reach.Tasks.Equality.{desired_close_matches}

-- The readings of the clock in a call: for the lease, for `archived_at`, and for `updated_at`.
pub record Readings : Type 0 where
  pub checked : ℕ
  pub archived_at : ℕ
  pub now : ℕ

abbrev pub stale : ℕ → ℕ → Error
stale expected current =
    value_error
      ("stale task revision: expected " <> (show expected <> (", current " <> show current)))

-- `expected_revision is not None and record.revision != expected_revision`
abbrev pub is_stale : Option ℕ → ℕ → Bool
is_stale none current = false
is_stale (some expected) current = not (current == expected)

abbrev pub expected_or : Option ℕ → ℕ → ℕ
expected_or none current = current
expected_or (some expected) current = expected

abbrev pub must_reconcile : Error
must_reconcile =
    value_error "pending mutation requires explicit reconciliation before terminal task close"

-- The task is archived already.
unfoldable pub close_again :
    String → ClosingStatus → TaskRecord → Bool → Action TaskStore TaskRecord
unfolding remove_execution_lease
close_again task_id status self true = do remove_execution_lease task_id; pure self
close_again task_id status self false = do
  raise_if (not (status_eq self.status (status_of status)))
      (value_error "terminal task status cannot be changed")
  raise (value_error ("task is already archived with different final state: " <> task_id))

unfoldable pub close_archived : String → ClosingStatus → TaskEdits → Action TaskStore TaskRecord
unfolding read_dir desired_close_matches close_again
close_archived task_id status edits = do
  self ← read_dir task_id true
  raise_if (has_pending_mutation self.continuity) must_reconcile
  same ← lift (desired_close_matches self status edits)
  close_again task_id status self same

-- The last three calls of a close.
unfoldable pub settle_archive : String → Action TaskStore TaskRecord
unfolding move_to_archive remove_execution_lease read_dir
settle_archive task_id = do
  move_to_archive task_id
  remove_execution_lease task_id
  read_dir task_id true

-- The record has its final state, and its move to the archive was not made.
unfoldable pub close_committed :
    String → ClosingStatus → TaskEdits → TaskRecord → Action TaskStore TaskRecord
unfolding desired_close_matches settle_archive
close_committed task_id status edits self = do
  same ← lift (desired_close_matches self status edits)
  raise_if (not same)
      (value_error ("task has committed terminal state with different final data: " <> task_id))
  settle_archive task_id

abbrev pub is_completed : ClosingStatus → Bool
is_completed as_completed = true
is_completed as_cancelled = false

unfoldable pub close_now :
    String
    → ClosingStatus
    → Option ℕ
    → TaskEdits
    → Readings
    → TaskRecord
    → Action TaskStore TaskRecord
unfolding merge_optional build_updated atomic_write settle_archive
close_now task_id status expected_revision edits clock self = do
  raise_if (is_stale expected_revision self.revision)
      (stale (expected_or expected_revision self.revision) self.revision)
  merged ← lift (merge_optional self.continuity edits.continuity)
  updated ←
      lift (
        build_updated self edits (some (status_of status)) merged (some clock.archived_at)
          clock.now)
  raise_if (has_pending_mutation updated.continuity) must_reconcile
  raise_if (is_completed status && is_some updated.next_action)
      (value_error "completed task cannot retain next_action")
  raise_if (is_completed status && is_nonempty updated.continuity.blockers)
      (value_error "completed task cannot retain blockers")
  atomic_write false updated
  settle_archive task_id

unfoldable pub close_current :
    String
    → ClosingStatus
    → Option ℕ
    → TaskEdits
    → Option String
    → Readings
    → Action TaskStore TaskRecord
unfolding read_dir require_execution_lease close_committed close_now
close_current task_id status expected_revision edits task_lease_id clock = do
  present ← gets (directory_exists task_id false)
  raise_if (not present) (value_error ("unknown task: " <> task_id))
  self ← read_dir task_id false
  lease ← require_execution_lease task_id task_lease_id clock.checked
  raise_if (has_pending_mutation self.continuity) must_reconcile
  raise_if (not (is_open self.status) && not (status_eq self.status (status_of status)))
      (value_error "terminal task status cannot be changed")
  if not (is_open self.status) && is_some self.archived_at
      then close_committed task_id status edits self
      else close_now task_id status expected_revision edits clock self

unfoldable pub close :
    String
    → ClosingStatus
    → Option ℕ
    → TaskEdits
    → Option String
    → Readings
    → Action TaskStore TaskRecord
unfolding require_writable validate_edit_args lock close_archived close_current
close task_id status expected_revision edits task_lease_id clock = do
  require_writable
  lift (validate_edit_args edits)
  lock task_id (do
    in_current ← gets (directory_exists task_id false)
    in_archive ← gets (directory_exists task_id true)
    raise_if (in_current && in_archive)
        (runtime_error ("task exists in current and archive: " <> task_id))
    if in_archive
        then close_archived task_id status edits
        else close_current task_id status expected_revision edits task_lease_id clock)

unfoldable pub archive : String → Readings → Action TaskStore TaskRecord
unfolding require_writable get close
archive task_id clock = do
  require_writable
  self ← get task_id
  status ←
      or_raise (closing_of self.status)
        (value_error "only completed or cancelled tasks can be archived")
  close task_id status none no_edits none clock

-- The loop of `repair`. Each close is a transaction of its own, so that a row that raises leaves
-- those before it repaired.
unfoldable pub repair_row :
    TaskRecord → Readings → Option ClosingStatus → Action TaskStore (List String)
unfolding close
repair_row self clock none = pure []
repair_row self clock (some status) = do
  closed ← close self.id status none no_edits none clock
  pure (self.id ∷ [])

unfoldable pub repair_rows :
    List (String × TaskRow) → (ℕ → Readings) → ℕ → Action TaskStore (List String)
unfolding decode repair_row
repair_rows [] clock n = pure []
repair_rows ((task_id, row) ∷ rows) clock n = do
  self ← lift (decode row.payload)
  raise_if (not (str_eq self.id task_id)) (runtime_error "task ID does not match database key")
  first ← repair_row self (clock n) (closing_of self.status)
  rest ← repair_rows rows clock (suc n)
  pure (first ++ rest)

unfoldable pub repair : (ℕ → Readings) → Action TaskStore (List String)
unfolding require_writable repair_rows
repair clock = do
  require_writable
  rows ← gets (λ s. sort_by_key (rows_where (λ row. not row.archived) s.tasks))
  repair_rows rows clock 0

abbrev pub microseconds_per_day : ℕ
microseconds_per_day = 86_400_000_000

-- `archived=1 AND status IN ('completed','cancelled') AND retained=0 AND archived_at<=?`, for the
-- cutoff `days` before `now`; of a missing `archived_at` no comparison holds.
unfoldable pub is_expired : ℕ → ℕ → TaskRow → Bool
is_expired days now row =
    row.archived
    && (not (is_open row.status)
        && (not row.retained && elim row.archived_at [
          | none ↦ false
          | some archived_at ↦ leb (archived_at + days * microseconds_per_day) now
        ]))

abbrev pub instant_eq : Option ℕ → Option ℕ → Bool
instant_eq (some a) (some b) = a == b
instant_eq _ _ = false

-- The payload says what the columns say.
abbrev pub index_agrees : String → TaskRow → TaskRecord → Bool
index_agrees task_id row self =
    str_eq self.id task_id
    && (status_eq self.status row.status
        && (bool_eq self.retained row.retained && instant_eq self.archived_at row.archived_at))

unfoldable pub check_rows : List (String × TaskRow) → Result (Unit {0})
unfolding decode
check_rows [] = ok tt
check_rows ((task_id, row) ∷ rows) =
    let rest = check_rows rows in
    bind (decode row.payload) (λ self.
      bind
        (refuse (not (index_agrees task_id row self))
          (runtime_error "task cleanup index disagrees with payload"))
        (λ _. rest))

-- The foreign key of `task_leases` cascades.
abbrev pub without : List String → TaskStore → TaskStore
without ids s = record s {
  tasks = delete_all ids s.tasks;
  task_leases = delete_all ids s.task_leases;
}

unfoldable pub cleanup_days : Option ℕ → ℕ → Action TaskStore (List String)
unfolding check_rows
cleanup_days none now = pure []
cleanup_days (some days) now = transaction (do
  rows ← gets (λ s. sort_by_key (rows_where (is_expired days now) s.tasks))
  lift (check_rows rows)
  modify (without (keys_of rows))
  pure (keys_of rows))

unfoldable pub cleanup : ℕ → Action TaskStore (List String)
unfolding require_writable cleanup_days
cleanup now = do require_writable; days ← gets (λ s. s.archived_days); cleanup_days days now
