-- ===== src/Tasks/Valid.antt =====
-- src/hypershell_reach/tasks.py: when the rows of the store are valid, and the ways in which the
-- methods change it.
use mathlib.Core.Path.{subst}
use hypershell_reach.Base.{
  ◌≡◌, refl, sym, ◌∙◌, inl, inr, String, Bool, true, false, not, ◌&&◌, Option, none, some, List,
  arith, if◌then◌else◌, Bool-cases, is_some, is_none, is_nonempty,
}
use hypershell_reach.Base.Text.{str_eq, str_eq_iff}
use hypershell_reach.Base.Result.{ok}
use hypershell_reach.Base.Table.{
  lookup, upsert, delete, is_member, lookup-upsert, lookup-delete, lookup-delete_all, HasUniqueKeys,
  upsert-HasUniqueKeys, delete-HasUniqueKeys, delete_all-HasUniqueKeys,
}
use hypershell_reach.Tasks.Record.{
  completed, status_eq, TaskExecutionLease, TaskRecord, is_open, is_lease, has_pending_mutation,
  decode,
}
use hypershell_reach.Tasks.Store.{TaskRow, LeaseRow, TaskStore, row_of}
use hypershell_reach.Tasks.Leases.{lease_row}
use hypershell_reach.Tasks.Closing.{without}

-- A completed task has no next action and no blockers.
abbrev pub is_finished : TaskRecord → Bool
is_finished self =
    if status_eq self.status completed
    then is_none self.next_action && not (is_nonempty self.continuity.blockers)
    else true

-- A row stands under its record's ID, has the columns of its record, and its record passes the
-- validators. A task is in the archive just when its status is terminal, and then it has the time
-- of its archival and no pending mutation.
pub record TaskIsValid (task_id : String) (row : TaskRow) : Type 0 where
  pub keyed : row.payload.id ≡ task_id
  pub columns : row ≡ row_of row.archived row.payload
  pub accepted : decode row.payload ≡ ok row.payload
  pub placed : row.archived ≡ not (is_open row.payload.status)
  pub dated : is_some row.payload.archived_at ≡ row.archived
  pub settled : (row.archived && has_pending_mutation row.payload.continuity) ≡ false
  pub finished : is_finished row.payload ≡ true

abbrev pub is_current : Option TaskRow → Bool
is_current none = false
is_current (some row) = not row.archived

-- A lease is one of a task that the store has, and that is not archived.
pub record LeaseIsValid (task : Option TaskRow) (row : LeaseRow) : Type 0 where
  pub columns : row ≡ lease_row row.payload
  pub accepted : is_lease row.payload ≡ true
  pub owned : is_current task ≡ true

pub record HasValidTasks (s : TaskStore) : Type 0 where
  pub rows : (k : String) (row : TaskRow) → lookup k s.tasks ≡ some row → TaskIsValid k row
  pub unique : HasUniqueKeys s.tasks
  pub leases :
      (k : String) (row : LeaseRow)
      → lookup k s.task_leases ≡ some row
      → LeaseIsValid (lookup k s.tasks) row
  pub unique_leases : HasUniqueKeys s.task_leases

-- The changes of the store.
abbrev pub with_task : Bool → TaskRecord → TaskStore → TaskStore
with_task archived r s = record s { tasks = upsert r.id (row_of archived r) s.tasks }

abbrev pub with_lease : String → TaskExecutionLease → TaskStore → TaskStore
with_lease task_id lease s = record s {
  task_leases = upsert task_id (lease_row lease) s.task_leases;
}

abbrev pub without_lease : String → TaskStore → TaskStore
without_lease task_id s = record s { task_leases = delete task_id s.task_leases }

pub without_lease-HasValidTasks :
    (task_id : String) (s : TaskStore) → HasValidTasks s → HasValidTasks (without_lease task_id s)
without_lease-HasValidTasks task_id s v = record {
  rows = v.rows;
  unique = v.unique;
  leases = λ k row found. ground (arith, lookup-delete task_id k s.task_leases, v.leases k row);
  unique_leases = delete-HasUniqueKeys task_id s.task_leases v.unique_leases;
}

upserted_row :
    {V : Type 0} (j k : String) (v : V) (t : List (String × V)) {w : V}
    → str_eq j k ≡ true
    → lookup k (upsert j v t) ≡ some w
    → v ≡ w
upserted_row j k v t same found = ground (arith, lookup-upsert j k v t)

moved_lease :
    {a b : Option TaskRow} {row : LeaseRow}
    → LeaseIsValid a row
    → is_current b ≡ true
    → LeaseIsValid b row
moved_lease l current = record { columns = l.columns; accepted = l.accepted; owned = current }

pub with_lease-HasValidTasks :
    (task_id : String) (lease : TaskExecutionLease) (s : TaskStore)
    → is_lease lease ≡ true
    → is_current (lookup task_id s.tasks) ≡ true
    → HasValidTasks s
    → HasValidTasks (with_lease task_id lease s)
with_lease-HasValidTasks task_id lease s accepted current v = record {
  rows = v.rows;
  unique = v.unique;
  leases = λ k row found. elim (Bool-cases (str_eq task_id k)) [
    | inl same ↦
        let written = upserted_row task_id k (lease_row lease) s.task_leases same found in
        subst (λ x. LeaseIsValid (lookup k s.tasks) x) written
          (record {
            columns = refl;
            accepted = accepted;
            owned =
                subst (λ j. is_current (lookup j s.tasks) ≡ true) ((str_eq_iff task_id k).0 same)
                  current;
          })
    | inr other ↦
        ground (arith, lookup-upsert task_id k (lease_row lease) s.task_leases, v.leases k row)
  ];
  unique_leases = upsert-HasUniqueKeys task_id (lease_row lease) s.task_leases v.unique_leases;
}

-- A record that may stand in a row, archived or not.
abbrev pub TaskIsSound : Bool → TaskRecord → Type 0
TaskIsSound archived r = TaskIsValid r.id (row_of archived r)

written_IsValid :
    (archived : Bool) (r : TaskRecord) (k : String) (t : List (String × TaskRow)) {row : TaskRow}
    → TaskIsSound archived r
    → str_eq r.id k ≡ true
    → lookup k (upsert r.id (row_of archived r) t) ≡ some row
    → TaskIsValid k row
written_IsValid archived r k t {row} sound same found =
    subst (λ x. TaskIsValid k x) (upserted_row r.id k (row_of archived r) t same found)
      (subst (λ j. TaskIsValid j (row_of archived r)) ((str_eq_iff r.id k).0 same) sound)

pub with_task-HasValidTasks :
    (r : TaskRecord) (s : TaskStore)
    → TaskIsSound false r
    → HasValidTasks s
    → HasValidTasks (with_task false r s)
with_task-HasValidTasks r s sound v = record {
  rows = λ k row found. elim (Bool-cases (str_eq r.id k)) [
    | inl same ↦ written_IsValid false r k s.tasks sound same found
    | inr other ↦ v.rows k row (ground (arith, lookup-upsert r.id k (row_of false r) s.tasks))
  ];
  unique = upsert-HasUniqueKeys r.id (row_of false r) s.tasks v.unique;
  leases = λ k row found.
      moved_lease (v.leases k row found)
        (ground (arith, lookup-upsert r.id k (row_of false r) s.tasks, v.leases k row found));
  unique_leases = v.unique_leases;
}

pub closed_HasValidTasks :
    (r : TaskRecord) (s : TaskStore)
    → TaskIsSound true r
    → HasValidTasks s
    → HasValidTasks (without_lease r.id (with_task true r s))
closed_HasValidTasks r s sound v = record {
  rows = λ k row found. elim (Bool-cases (str_eq r.id k)) [
    | inl same ↦ written_IsValid true r k s.tasks sound same found
    | inr other ↦ v.rows k row (ground (arith, lookup-upsert r.id k (row_of true r) s.tasks))
  ];
  unique = upsert-HasUniqueKeys r.id (row_of true r) s.tasks v.unique;
  leases = λ k row found.
      let kept : (str_eq r.id k ≡ false) × (lookup k s.task_leases ≡ some row) =
        ground (arith, lookup-delete r.id k s.task_leases) in
      subst (λ o. LeaseIsValid o row)
        (sym (lookup-upsert r.id k (row_of true r) s.tasks ∙ rw kept.0 refl))
        (v.leases k row kept.1);
  unique_leases = delete-HasUniqueKeys r.id s.task_leases v.unique_leases;
}

pub without-HasValidTasks :
    (ids : List String) (s : TaskStore) → HasValidTasks s → HasValidTasks (without ids s)
without-HasValidTasks ids s v = record {
  rows = λ k row found. v.rows k row (ground (arith, lookup-delete_all ids k s.tasks));
  unique = delete_all-HasUniqueKeys ids s.tasks v.unique;
  leases = λ k row found.
      let kept : (is_member k ids ≡ false) × (lookup k s.task_leases ≡ some row) =
        ground (arith, lookup-delete_all ids k s.task_leases) in
      subst (λ o. LeaseIsValid o row) (sym (lookup-delete_all ids k s.tasks ∙ rw kept.0 refl))
        (v.leases k row kept.1);
  unique_leases = delete_all-HasUniqueKeys ids s.task_leases v.unique_leases;
}
