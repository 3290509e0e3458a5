-- ===== src/Tasks/Calls.antt =====
-- src/hypershell_reach/tasks.py: a call of a method of the store, and what it may do to each task.
use hypershell_reach.Base.{ℕ, String, Bool, true, false, ◌&&◌, Option, List, [], ◌∷◌, is_some}
use hypershell_reach.Base.Text.{str_eq}
use hypershell_reach.Tasks.Record.{TaskStatus, ClosingStatus}
use hypershell_reach.Tasks.Store.{TaskStore}
use hypershell_reach.Tasks.Creation.{TaskRequest, create}
use hypershell_reach.Tasks.Leases.{
  acquire_execution_lease, refresh_execution_lease, release_execution_lease,
  authorize_execution_lease,
}
use hypershell_reach.Tasks.Edits.{TaskEdits}
use hypershell_reach.Tasks.Closing.{Readings, close, archive, repair, cleanup}
use hypershell_reach.Tasks.Updating.{mark_mutation_pending, update}
use hypershell_reach.Tasks.Effect.{Kind, adding, editing, reconciling, closing, removing}

-- A call of a method with its arguments, the drawn IDs and the readings of the clock.

pub data Call : Type 0 where
  created : TaskRequest → String → ℕ → Call
  acquired : String → String → String → ℕ → String → ℕ → ℕ → Call
  refreshed : String → String → ℕ → ℕ → ℕ → Call
  released : String → String → ℕ → Call
  authorized : String → Option String → ℕ → Call
  marked : String → String → Option String → Readings → Call
  updated :
      String
      → Option TaskStatus
      → Option ℕ
      → TaskEdits
      → Option String
      → Option String
      → Readings
      → Call
  closed : String → ClosingStatus → Option ℕ → TaskEdits → Option String → Readings → Call
  archived : String → Readings → Call
  repaired : (ℕ → Readings) → Call
  cleaned : ℕ → Call

-- The store after a call, whether it returned or raised.
unfoldable pub perform : Call → TaskStore → TaskStore
perform (created request task_id now) s = (create request task_id now s).1
perform (acquired task_id executor_id scope seconds lease_id checked now) s =
    (acquire_execution_lease task_id executor_id scope seconds lease_id checked now s).1
perform (refreshed task_id lease_id seconds checked now) s =
    (refresh_execution_lease task_id lease_id seconds checked now s).1
perform (released task_id lease_id checked) s =
    (release_execution_lease task_id lease_id checked s).1
perform (authorized task_id task_lease_id checked) s =
    (authorize_execution_lease task_id task_lease_id checked s).1
perform (marked task_id purpose task_lease_id clock) s =
    (mark_mutation_pending task_id purpose task_lease_id clock s).1
perform (updated task_id status expected edits evidence task_lease_id clock) s =
    (update task_id status expected edits evidence task_lease_id clock s).1
perform (closed task_id status expected edits task_lease_id clock) s =
    (close task_id status expected edits task_lease_id clock s).1
perform (archived task_id clock) s = (archive task_id clock s).1
perform (repaired clock) s = (repair clock s).1
perform (cleaned now) s = (cleanup now s).1

unfoldable pub perform_all : List Call → TaskStore → TaskStore
unfolding perform
perform_all [] s = s
perform_all (call ∷ calls) s = perform_all calls (perform call s)

-- The task for which a call brings evidence that its mutation is reconciled.
abbrev pub reconciles : Call → String → Bool
reconciles (updated task_id status expected edits evidence task_lease_id clock) k =
    str_eq task_id k && is_some evidence
reconciles _ k = false

-- What a call may do to a task: `repair` and `cleanup` are about all tasks.
abbrev pub adds : Call → String → Bool
adds (created request task_id now) k = str_eq task_id k
adds _ k = false

abbrev pub edits_one : Call → String → Bool
edits_one (marked task_id purpose task_lease_id clock) k = str_eq task_id k
edits_one (updated task_id status expected edits evidence task_lease_id clock) k = str_eq task_id k
edits_one _ k = false

abbrev pub closes_one : Call → String → Bool
closes_one (updated task_id status expected edits evidence task_lease_id clock) k = str_eq task_id k
closes_one (closed task_id status expected edits task_lease_id clock) k = str_eq task_id k
closes_one (archived task_id clock) k = str_eq task_id k
closes_one (repaired clock) k = true
closes_one _ k = false

abbrev pub removes_one : Call → String → Bool
removes_one (cleaned now) k = true
removes_one _ k = false

abbrev pub permits : Call → Kind → String → Bool
permits call adding = adds call
permits call editing = edits_one call
permits call reconciling = reconciles call
permits call closing = closes_one call
permits call removing = removes_one call
