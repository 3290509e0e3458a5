-- ===== src/Tasks/Atomicity.antt =====
-- src/hypershell_reach/tasks.py: the store after a method that has raised.
use hypershell_reach.Base.{ℕ, ◌≡◌, refl, String, Bool, true, false, not, Option, none, some}
use hypershell_reach.Base.Result.{Error, Result, is_ok}
use hypershell_reach.Base.Action.{Action, pure, lift, gets, or_raise, raise_if}
use hypershell_reach.Base.Keeps.{
  Any, Keeps-then, Keeps-pure, Keeps-gets, Keeps-lift, Keeps-or_raise, Keeps-raise_if,
}
use hypershell_reach.Base.Atomic.{
  IsAtomic, transaction-IsAtomic, OnlyReads, OnlyReads-of_Keeps, IsAtomic-then, IsAtomic-raises,
}
use hypershell_reach.Tasks.Record.{TaskStatus, ClosingStatus, closing_of}
use hypershell_reach.Tasks.Store.{TaskStore, require_writable, validate_task_id, lock, get}
use hypershell_reach.Tasks.Creation.{TaskRequest, create}
use hypershell_reach.Tasks.Leases.{
  acquire_execution_lease, refresh_execution_lease, release_execution_lease,
  authorize_execution_lease,
}
use hypershell_reach.Tasks.Edits.{TaskEdits, no_edits, validate_edit_args}
use hypershell_reach.Tasks.Closing.{Readings, close, archive, repair, cleanup_days, cleanup}
use hypershell_reach.Tasks.Updating.{
  mark_mutation_pending, update_open, optional_closing, update_by, update,
}
use hypershell_reach.Tasks.Parts.{Keeps-require_writable, Keeps-validate_task_id}
use hypershell_reach.Tasks.Calls.{
  Call, created, acquired, refreshed, released, authorized, marked, updated, closed, archived,
  repaired, cleaned, perform,
}

reads_writable : OnlyReads require_writable
reads_writable = OnlyReads-of_Keeps (λ s. Keeps-require_writable (λ t. t ≡ s))

reads_id : (task_id : String) → OnlyReads (validate_task_id task_id)
reads_id task_id = OnlyReads-of_Keeps (λ s. Keeps-validate_task_id (λ t. t ≡ s) task_id)

reads_raise_if : (b : Bool) (e : Error) → OnlyReads {S = TaskStore} (raise_if b e)
reads_raise_if b e = OnlyReads-of_Keeps (λ s. Keeps-raise_if (λ t. t ≡ s) b e)

reads_lift : {A : Type 0} (r : Result A) → OnlyReads {S = TaskStore} (lift r)
reads_lift r = OnlyReads-of_Keeps (λ s. Keeps-lift (λ t. t ≡ s) r)

reads_gets : {A : Type 0} (f : TaskStore → A) → OnlyReads (gets f)
reads_gets f = OnlyReads-of_Keeps (λ s. Keeps-gets (λ t. t ≡ s) f)

reads_or_raise : {A : Type 0} (o : Option A) (e : Error) → OnlyReads {S = TaskStore} (or_raise o e)
reads_or_raise o e = OnlyReads-of_Keeps (λ s. Keeps-or_raise (λ t. t ≡ s) o e)

reads_get : (task_id : String) → OnlyReads (get task_id)
unfolding get
reads_get task_id = OnlyReads-of_Keeps (λ s.
    Keeps-then (Keeps-validate_task_id (λ t. t ≡ s) task_id) (λ _ _.
      Keeps-then (Keeps-gets (λ t. t ≡ s) _) (λ found _.
        Keeps-then (Keeps-or_raise (λ t. t ≡ s) found _) (λ row _.
          Keeps-then (Keeps-lift (λ t. t ≡ s) _) (λ self _.
            Keeps-then (Keeps-raise_if (λ t. t ≡ s) _ _)
              (λ _ _. Keeps-pure (λ t. t ≡ s) Any self tt))))))

lock-IsAtomic :
    {A : Type 0} (task_id : String) (body : Action TaskStore A) → IsAtomic (lock task_id body)
unfolding lock
lock-IsAtomic task_id body =
    IsAtomic-then reads_writable
      (λ _. IsAtomic-then (reads_id task_id) (λ _. transaction-IsAtomic body))

create-IsAtomic :
    (request : TaskRequest) (task_id : String) (now : ℕ) → IsAtomic (create request task_id now)
unfolding create
create-IsAtomic request task_id now = IsAtomic-then reads_writable (λ _. transaction-IsAtomic _)

acquire-IsAtomic :
    (task_id executor_id scope : String) (seconds : ℕ) (lease_id : String) (checked now : ℕ)
    → IsAtomic (acquire_execution_lease task_id executor_id scope seconds lease_id checked now)
unfolding acquire_execution_lease
acquire-IsAtomic task_id executor_id scope seconds lease_id checked now =
    IsAtomic-then reads_writable (λ _. IsAtomic-then (reads_raise_if _ _) (λ _.
      IsAtomic-then (reads_raise_if _ _)
        (λ _. IsAtomic-then (reads_raise_if _ _) (λ _. lock-IsAtomic task_id _))))

refresh-IsAtomic :
    (task_id lease_id : String) (seconds checked now : ℕ)
    → IsAtomic (refresh_execution_lease task_id lease_id seconds checked now)
unfolding refresh_execution_lease
refresh-IsAtomic task_id lease_id seconds checked now = IsAtomic-then reads_writable (λ _.
    IsAtomic-then (reads_raise_if _ _)
      (λ _. IsAtomic-then (reads_raise_if _ _) (λ _. lock-IsAtomic task_id _)))

release-IsAtomic :
    (task_id lease_id : String) (checked : ℕ)
    → IsAtomic (release_execution_lease task_id lease_id checked)
unfolding release_execution_lease
release-IsAtomic task_id lease_id checked =
    IsAtomic-then reads_writable
      (λ _. IsAtomic-then (reads_raise_if _ _) (λ _. lock-IsAtomic task_id _))

pub authorize-IsAtomic :
    (task_id : String) (task_lease_id : Option String) (checked : ℕ)
    → IsAtomic (authorize_execution_lease task_id task_lease_id checked)
unfolding authorize_execution_lease
authorize-IsAtomic task_id task_lease_id checked =
    IsAtomic-then reads_writable (λ _. lock-IsAtomic task_id _)

mark-IsAtomic :
    (task_id purpose : String) (task_lease_id : Option String) (clock : Readings)
    → IsAtomic (mark_mutation_pending task_id purpose task_lease_id clock)
unfolding mark_mutation_pending
mark-IsAtomic task_id purpose task_lease_id clock =
    IsAtomic-then reads_writable (λ _. lock-IsAtomic task_id _)

close-IsAtomic :
    (task_id : String) (status : ClosingStatus) (expected : Option ℕ) (edits : TaskEdits)
    (task_lease_id : Option String) (clock : Readings)
    → IsAtomic (close task_id status expected edits task_lease_id clock)
unfolding close
close-IsAtomic task_id status expected edits task_lease_id clock =
    IsAtomic-then reads_writable
      (λ _. IsAtomic-then (reads_lift (validate_edit_args edits)) (λ _. lock-IsAtomic task_id _))

update_by-IsAtomic :
    (closing : Option ClosingStatus) (task_id : String) (status : Option TaskStatus)
    (expected : Option ℕ) (edits : TaskEdits) (evidence task_lease_id : Option String)
    (clock : Readings)
    → IsAtomic (update_by closing task_id status expected edits evidence task_lease_id clock)
unfolding update_by update_open
update_by-IsAtomic (some closing) task_id status expected edits evidence task_lease_id clock =
    IsAtomic-then (reads_raise_if _ _)
      (λ _. close-IsAtomic task_id closing expected edits task_lease_id clock)
update_by-IsAtomic none task_id status expected edits evidence task_lease_id clock =
    lock-IsAtomic task_id _

update-IsAtomic :
    (task_id : String) (status : Option TaskStatus) (expected : Option ℕ) (edits : TaskEdits)
    (evidence task_lease_id : Option String) (clock : Readings)
    → IsAtomic (update task_id status expected edits evidence task_lease_id clock)
unfolding update
update-IsAtomic task_id status expected edits evidence task_lease_id clock =
    IsAtomic-then reads_writable (λ _. IsAtomic-then (reads_lift (validate_edit_args edits)) (λ _.
      update_by-IsAtomic (optional_closing status) task_id status expected edits evidence
        task_lease_id clock))

archive-IsAtomic : (task_id : String) (clock : Readings) → IsAtomic (archive task_id clock)
unfolding archive
archive-IsAtomic task_id clock = IsAtomic-then reads_writable (λ _.
    IsAtomic-then (reads_get task_id) (λ self.
      IsAtomic-then (reads_or_raise (closing_of self.status) _)
        (λ status. close-IsAtomic task_id status none no_edits none clock)))

cleanup_days-IsAtomic : (days : Option ℕ) (now : ℕ) → IsAtomic (cleanup_days days now)
unfolding cleanup_days pure
cleanup_days-IsAtomic none now = record { at = λ s e h. refl }
cleanup_days-IsAtomic (some days) now = transaction-IsAtomic _

cleanup-IsAtomic : (now : ℕ) → IsAtomic (cleanup now)
unfolding cleanup
cleanup-IsAtomic now =
    IsAtomic-then reads_writable
      (λ _. IsAtomic-then (reads_gets _) (λ days. cleanup_days-IsAtomic days now))

-- Whether a call raises; `repair` is a transaction for each row.
unfoldable pub raises : Call → TaskStore → Bool
raises (created request task_id now) s = not (is_ok (create request task_id now s).0)
raises (acquired task_id executor_id scope seconds lease_id checked now) s =
    not (is_ok (acquire_execution_lease task_id executor_id scope seconds lease_id checked now s).0)
raises (refreshed task_id lease_id seconds checked now) s =
    not (is_ok (refresh_execution_lease task_id lease_id seconds checked now s).0)
raises (released task_id lease_id checked) s =
    not (is_ok (release_execution_lease task_id lease_id checked s).0)
raises (authorized task_id task_lease_id checked) s =
    not (is_ok (authorize_execution_lease task_id task_lease_id checked s).0)
raises (marked task_id purpose task_lease_id clock) s =
    not (is_ok (mark_mutation_pending task_id purpose task_lease_id clock s).0)
raises (updated task_id status expected edits evidence task_lease_id clock) s =
    not (is_ok (update task_id status expected edits evidence task_lease_id clock s).0)
raises (closed task_id status expected edits task_lease_id clock) s =
    not (is_ok (close task_id status expected edits task_lease_id clock s).0)
raises (archived task_id clock) s = not (is_ok (archive task_id clock s).0)
raises (repaired clock) s = not (is_ok (repair clock s).0)
raises (cleaned now) s = not (is_ok (cleanup now s).0)

abbrev pub is_repair : Call → Bool
is_repair (repaired clock) = true
is_repair _ = false

-- Whatever its arguments and the store, a call that raises leaves the store as it was, unless it is
-- `repair`: also an expired lease that it removed on the way is back.
pub raises_cleanly :
    (call : Call) (s : TaskStore)
    → is_repair call ≡ false
    → raises call s ≡ true
    → perform call s ≡ s
unfolding perform raises
raises_cleanly (created request task_id now) s one h =
    IsAtomic-raises (create-IsAtomic request task_id now) s h
raises_cleanly (acquired task_id executor_id scope seconds lease_id checked now) s one h =
    IsAtomic-raises (acquire-IsAtomic task_id executor_id scope seconds lease_id checked now) s h
raises_cleanly (refreshed task_id lease_id seconds checked now) s one h =
    IsAtomic-raises (refresh-IsAtomic task_id lease_id seconds checked now) s h
raises_cleanly (released task_id lease_id checked) s one h =
    IsAtomic-raises (release-IsAtomic task_id lease_id checked) s h
raises_cleanly (authorized task_id task_lease_id checked) s one h =
    IsAtomic-raises (authorize-IsAtomic task_id task_lease_id checked) s h
raises_cleanly (marked task_id purpose task_lease_id clock) s one h =
    IsAtomic-raises (mark-IsAtomic task_id purpose task_lease_id clock) s h
raises_cleanly (updated task_id status expected edits evidence task_lease_id clock) s one h =
    IsAtomic-raises (update-IsAtomic task_id status expected edits evidence task_lease_id clock) s h
raises_cleanly (closed task_id status expected edits task_lease_id clock) s one h =
    IsAtomic-raises (close-IsAtomic task_id status expected edits task_lease_id clock) s h
raises_cleanly (archived task_id clock) s one h =
    IsAtomic-raises (archive-IsAtomic task_id clock) s h
raises_cleanly (repaired clock) s one h = cc
raises_cleanly (cleaned now) s one h = IsAtomic-raises (cleanup-IsAtomic now) s h
