-- ===== src/Examples/Tasks.antt =====
-- src/hypershell_reach/tasks.py on a store with a current task under a lease and an archived one: the
-- theorems at those tasks.
use hypershell_reach.Base.{◌≡◌, refl, String, true, false, none, some, List, [], ◌∷◌, arith}
use hypershell_reach.Base.Text.{strip}
use hypershell_reach.Base.Action.{◌>>=◌}
use hypershell_reach.Base.Result.{ok, is_ok}
use hypershell_reach.Base.Table.{lookup, sort_by_key, AllRows-lookup}
use hypershell_reach.Tasks.Record.{
  active, completed, as_completed, partial, TaskExecutionLease, TaskRecord, decode, is_record,
  has_fields, is_continuity, is_task_id, is_lease, is_lease_id, is_pending_blocker,
  has_pending_mutation,
}
use hypershell_reach.Tasks.Store.{TaskRow, TaskStore, row_of}
use hypershell_reach.Tasks.Creation.{TaskRequest, no_continuity, new_task, create, identity_of}
use hypershell_reach.Tasks.Leases.{lease_row, authorize_execution_lease}
use hypershell_reach.Tasks.Edits.{no_edits}
use hypershell_reach.Tasks.Closing.{Readings, close}
use hypershell_reach.Tasks.Updating.{update, mark_mutation_pending}
use hypershell_reach.Tasks.Valid.{TaskIsValid, HasValidTasks, LeaseIsValid}
use hypershell_reach.Tasks.Calls.{
  Call, created, marked, updated, closed, cleaned, perform, perform_all,
}
use hypershell_reach.Tasks.Steps.{perform_all-HasValidTasks}
use hypershell_reach.Tasks.Gate.{pending_until_reconciled, archive_is_final}
use hypershell_reach.Tasks.Life.{Lives, life_of}
use hypershell_reach.Tasks.Lifecycle.{perform_all-Lives}
use hypershell_reach.Tasks.Atomicity.{raises, raises_cleanly}
use hypershell_reach.Tasks.Exclusion.{lease_excludes}
use hypershell_reach.Tasks.Reuse.{create-create}

abbrev pub work_id : String
work_id = "task-20260101T000000000000Z-0123456789ab"

abbrev done_id : String
done_id = "task-20251231T000000000000Z-0123456789ab"

abbrev pub other_id : String
other_id = "task-20260102T000000000000Z-0123456789ab"

-- A current task with a mutation that is to be reconciled.
abbrev work : TaskRecord
work = record {
  schema_version = 2;
  revision = 3;
  id = work_id;
  title = "rotate keys";
  objective = "every host has the new key";
  project_ref = none;
  status = active;
  next_action = none;
  continuity = record no_continuity { blockers = "[reach:pending-mutation] see the run" ∷ [] };
  retained = false;
  created_at = 1;
  updated_at = 2;
  archived_at = none;
}

abbrev done_work : TaskRecord
done_work = record work {
  id = done_id;
  status = completed;
  continuity = no_continuity;
  retained = true;
  archived_at = some 2;
}

abbrev pub lease : TaskExecutionLease
lease = record {
  schema_version = 1;
  lease_id = "tlease-0123456789abcdef0123456789abcdef";
  executor_id = "peer";
  scope = "keys";
  acquired_at = 2;
  refreshed_at = 2;
  expires_at = 30_000_002;
}

abbrev pub store : TaskStore
store = record {
  tasks = (work_id, row_of false work) ∷ (done_id, row_of true done_work) ∷ [];
  task_leases = (work_id, lease_row lease) ∷ [];
  archived_days = some 30;
  read_only = false;
}

abbrev pub empty : TaskStore
empty = record { tasks = []; task_leases = []; archived_days = some 30; read_only = false }

pub empty-HasValidTasks : HasValidTasks empty
unfolding lookup
empty-HasValidTasks = record {
  rows = λ k row found. cc;
  unique = tt;
  leases = λ k row found. cc;
  unique_leases = tt;
}

work-IsValid : TaskIsValid work_id (row_of false work)
unfolding decode is_record has_fields is_continuity is_task_id
work-IsValid = record {
  keyed = refl;
  columns = refl;
  accepted = refl;
  placed = refl;
  dated = refl;
  settled = refl;
  finished = refl;
}

done_work-IsValid : TaskIsValid done_id (row_of true done_work)
unfolding decode is_record has_fields is_continuity is_task_id
done_work-IsValid = record {
  keyed = refl;
  columns = refl;
  accepted = refl;
  placed = refl;
  dated = refl;
  settled = refl;
  finished = refl;
}

abbrev pub request : TaskRequest
request = record {
  title = "rotate keys";
  objective = "every host has the new key";
  project_ref = none;
  next_action = none;
  continuity = no_continuity;
  retained = false;
}

abbrev pub clock : Readings
clock = record { checked = 5; archived_at = 6; now = 7 }

-- The task is marked, then its close is refused.
abbrev calls : List Call
calls =
    created request other_id 3
    ∷ marked other_id "restart" none clock
    ∷ closed other_id as_completed none no_edits none clock
    ∷ []

perform_all-HasValidTasks_example : HasValidTasks (perform_all calls empty)
perform_all-HasValidTasks_example = perform_all-HasValidTasks calls empty empty-HasValidTasks

pub store-HasValidTasks : HasValidTasks store
unfolding lookup is_lease is_lease_id
store-HasValidTasks = record {
  rows = λ k row found.
      AllRows-lookup TaskIsValid k store.tasks (work-IsValid, (done_work-IsValid, tt)) found;
  unique = (refl, (refl, tt));
  leases = λ k row found.
      AllRows-lookup (λ j r. LeaseIsValid (lookup j store.tasks) r) k store.task_leases
        (record { columns = refl; accepted = refl; owned = refl }, tt) found;
  unique_leases = (refl, tt);
}

work_found : lookup work_id store.tasks ≡ some (row_of false work)
unfolding lookup
work_found = refl

done_found : lookup done_id store.tasks ≡ some (row_of true done_work)
unfolding lookup
done_found = refl

pub lease_found : lookup work_id store.task_leases ≡ some (lease_row lease)
unfolding lookup
lease_found = refl

work-has_pending : has_pending_mutation work.continuity ≡ true
unfolding is_pending_blocker
work-has_pending = refl

-- An edit of the blockers with no evidence, a close, and a cleanup much later.
abbrev unreconciled : List Call
unreconciled =
    updated work_id none none (record no_edits { title = some "keys" }) none (some lease.lease_id)
      clock
    ∷ closed work_id as_completed none no_edits (some lease.lease_id) clock
    ∷ cleaned 99_000_000_000_000
    ∷ []

pending_until_reconciled_example :
    (after : TaskRow) × (lookup work_id (perform_all unreconciled store).tasks ≡ some after)
    × (has_pending_mutation after.payload.continuity ≡ true)
    × (after.archived ≡ false)
pending_until_reconciled_example =
    pending_until_reconciled unreconciled store work_id (row_of false work) store-HasValidTasks
      work_found work-has_pending refl

perform_all-Lives_example :
    Lives work_id unreconciled
      (life_of (lookup work_id store.tasks))
      (life_of (lookup work_id (perform_all unreconciled store).tasks))
perform_all-Lives_example = perform_all-Lives unreconciled store work_id store-HasValidTasks

archive_is_final_example :
    lookup done_id (perform_all unreconciled store).tasks ≡ some (row_of true done_work)
archive_is_final_example =
    archive_is_final unreconciled store done_id (row_of true done_work) store-HasValidTasks
      done_found refl refl

lease_excludes_example :
    (is_ok (update work_id (some partial) none no_edits none none clock store).0 ≡ false)
    × (is_ok (close work_id as_completed none no_edits none clock store).0 ≡ false)
    × (is_ok (mark_mutation_pending work_id "restart" none clock store).0 ≡ false)
    × (is_ok (authorize_execution_lease work_id none 5 store).0 ≡ false)
lease_excludes_example =
    lease_excludes store work_id (lease_row lease) none clock (some partial) as_completed none
      no_edits none "restart" store-HasValidTasks lease_found (omega arith) refl

refused : raises (closed work_id as_completed none no_edits none clock) store ≡ true
unfolding raises close lookup is_task_id is_record has_fields is_continuity is_lease is_lease_id
    ◌>>=◌
refused = refl

raises_cleanly_example :
    perform (closed work_id as_completed none no_edits none clock) store ≡ store
raises_cleanly_example =
    raises_cleanly (closed work_id as_completed none no_edits none clock) store refl refused

created_first :
    create request other_id 3 empty
    ≡ (ok (new_task request other_id 3), (create request other_id 3 empty).1)
unfolding create sort_by_key lookup has_fields is_task_id is_record is_continuity ◌>>=◌
created_first = refl

same_work : identity_of (record request { title = " rotate keys " }) ≡ identity_of request
unfolding strip
same_work = refl

create-create_example :
    create
      (record request { title = " rotate keys " })
      work_id
      9
      (create request other_id 3 empty).1
    ≡ (ok (new_task request other_id 3), (create request other_id 3 empty).1)
create-create_example =
    create-create request (record request { title = " rotate keys " }) other_id work_id 3 9 empty
      (create request other_id 3 empty).1 (new_task request other_id 3) created_first same_work
