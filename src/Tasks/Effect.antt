-- ===== src/Tasks/Effect.antt =====
-- src/hypershell_reach/tasks.py: what a call may do to the store.
use hypershell_reach.Base.{suc, ◌≡◌, refl, String, Bool, true, false, not, ◌&&◌, none, some, List}
use hypershell_reach.Base.Table.{is_member, lookup}
use hypershell_reach.Tasks.Record.{
  ClosingStatus, status_of, TaskExecutionLease, TaskRecord, is_lease, has_pending_mutation,
}
use hypershell_reach.Tasks.Store.{TaskRow, TaskStore}
use hypershell_reach.Tasks.Closing.{without}
use hypershell_reach.Tasks.Valid.{
  TaskIsSound, HasValidTasks, is_current, with_task, with_lease, without_lease,
  without_lease-HasValidTasks,
}

-- The store with the lease of a task removed, or not.
pub data Pruned (task_id : String) (s : TaskStore) : TaskStore → Type 0 where
  same : Pruned task_id s s
  dropped : {t : TaskStore} → Pruned task_id s t → Pruned task_id s (without_lease task_id t)

pub tasks-Pruned : {task_id : String} {s t : TaskStore} → Pruned task_id s t → t.tasks ≡ s.tasks
tasks-Pruned same = refl
tasks-Pruned (dropped p) = tasks-Pruned p

pub Pruned-HasValidTasks :
    {task_id : String} {s t : TaskStore} → Pruned task_id s t → HasValidTasks s → HasValidTasks t
Pruned-HasValidTasks same v = v
Pruned-HasValidTasks {task_id} (dropped {t} p) v =
    without_lease-HasValidTasks task_id t (Pruned-HasValidTasks p v)

-- An edit of a current task. The mark of a pending mutation goes only where the call may
-- reconcile the task.
pub record IsEdit (may_reconcile : String → Bool) (before after : TaskRecord) : Type 0 where
  pub same_id : after.id ≡ before.id
  pub next_revision : after.revision ≡ suc before.revision
  pub same_creation : after.created_at ≡ before.created_at
  pub sound : TaskIsSound false after
  pub gate :
      (has_pending_mutation before.continuity
        && (not (has_pending_mutation after.continuity) && not (may_reconcile before.id)))
      ≡ false

-- The close of a current task.
pub record IsClose (status : ClosingStatus) (before after : TaskRecord) : Type 0 where
  pub same_id : after.id ≡ before.id
  pub next_revision : after.revision ≡ suc before.revision
  pub same_creation : after.created_at ≡ before.created_at
  pub sound : TaskIsSound true after
  pub closed : after.status ≡ status_of status
  pub no_mutation : has_pending_mutation before.continuity ≡ false

-- What may happen to a task: `reconciling` is an edit that drops the mark of a pending mutation.
pub data Kind : Type 0 where
  adding editing reconciling closing removing : Kind

-- What a call may do to the store, for what it may do to each task.
pub data Effect (may : Kind → String → Bool) (s : TaskStore) : TaskStore → Type 0 where
  nothing : (task_id : String) {t : TaskStore} → Pruned task_id s t → Effect may s t
  leased :
      (task_id : String) (lease : TaskExecutionLease) {u t : TaskStore}
      → Pruned task_id s u
      → is_lease lease ≡ true
      → is_current (lookup task_id s.tasks) ≡ true
      → t ≡ with_lease task_id lease u
      → Effect may s t
  added :
      (r : TaskRecord) {t : TaskStore}
      → may adding r.id ≡ true
      → lookup r.id s.tasks ≡ none
      → r.revision ≡ 1
      → TaskIsSound false r
      → t ≡ with_task false r s
      → Effect may s t
  edited_one :
      (row : TaskRow) (r : TaskRecord) {u t : TaskStore}
      → may editing r.id ≡ true
      → lookup r.id s.tasks ≡ some row
      → row.archived ≡ false
      → IsEdit (may reconciling) row.payload r
      → Pruned r.id s u
      → t ≡ with_task false r u
      → Effect may s t
  closed_one :
      (status : ClosingStatus) (row : TaskRow) (r : TaskRecord) {u t : TaskStore}
      → may closing r.id ≡ true
      → lookup r.id s.tasks ≡ some row
      → row.archived ≡ false
      → IsClose status row.payload r
      → Pruned r.id s u
      → t ≡ without_lease r.id (with_task true r u)
      → Effect may s t
  removed :
      (ids : List String) {t : TaskStore}
      → ((k : String) → is_member k ids ≡ true → may removing k ≡ true)
      → ((k : String) (row : TaskRow)
          → is_member k ids ≡ true
          → lookup k s.tasks ≡ some row
          → (row.archived ≡ true) × (row.retained ≡ false))
      → t ≡ without ids s
      → Effect may s t
