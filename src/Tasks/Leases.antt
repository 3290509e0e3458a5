-- ===== src/Tasks/Leases.antt =====
-- src/hypershell_reach/tasks.py: the execution leases of tasks. Each method reads the clock when it
-- looks for an active lease (`checked`), and again for the times that it writes (`now`).
use hypershell_reach.Base.{
  ℕ, ◌+◌, ◌*◌, String, Bool, true, false, not, ◌&&◌, Option, none, some, ltb, leb, if◌then◌else◌,
}
use hypershell_reach.Base.Text.{str_eq, ◌<>◌}
use hypershell_reach.Base.Result.{Result, ok, err, value_error, runtime_error, validation_error}
use hypershell_reach.Base.Action.{Action, pure, lift, gets, raise, raise_if, modify, ◌>>=◌, ◌>>◌}
use hypershell_reach.Base.Table.{lookup, upsert, delete}
use hypershell_reach.Tasks.Record.{TaskExecutionLease, is_lease, is_lease_id, is_text_up_to}
use hypershell_reach.Tasks.Store.{
  LeaseRow, TaskStore, lock, require_writable, read_open, require_open, get,
}

-- `_remove_execution_lease`
unfoldable pub remove_execution_lease : String → Action TaskStore (Unit {0})
remove_execution_lease task_id =
    modify (λ s. record s { task_leases = delete task_id s.task_leases })

abbrev pub lease_row : TaskExecutionLease → LeaseRow
lease_row lease = record {
  executor_id = lease.executor_id;
  expires_at = lease.expires_at;
  payload = lease;
}

-- `_atomic_write_execution_lease`
unfoldable pub write_execution_lease : String → TaskExecutionLease → Action TaskStore (Unit {0})
unfolding require_writable
write_execution_lease task_id lease = do
  require_writable
  modify (λ s. record s { task_leases = upsert task_id (lease_row lease) s.task_leases })

-- What `_read_execution_lease` makes of the row, up to JSON.
abbrev pub decode_lease : String → Option LeaseRow → Result (Option TaskExecutionLease)
decode_lease task_id none = ok none
decode_lease task_id (some row) =
    if is_lease row.payload
    then ok (some row.payload)
    else err (runtime_error ("invalid task execution lease: " <> task_id))

unfoldable pub read_execution_lease : String → Action TaskStore (Option TaskExecutionLease)
read_execution_lease task_id = do
  found ← gets (λ s. lookup task_id s.task_leases)
  lift (decode_lease task_id found)

-- A lease that has expired is removed.
unfoldable pub if_active :
    String → ℕ → Option TaskExecutionLease → Action TaskStore (Option TaskExecutionLease)
unfolding remove_execution_lease
if_active task_id checked none = pure none
if_active task_id checked (some lease) =
    if ltb checked lease.expires_at
    then pure (some lease)
    else (do remove_execution_lease task_id; pure none)

unfoldable pub active_execution_lease : String → ℕ → Action TaskStore (Option TaskExecutionLease)
unfolding read_execution_lease if_active
active_execution_lease task_id checked = do
  lease ← read_execution_lease task_id
  if_active task_id checked lease

-- `task_lease_id != lease.lease_id`
abbrev pub presents : Option String → TaskExecutionLease → Bool
presents none lease = false
presents (some lease_id) lease = str_eq lease_id lease.lease_id

abbrev pub is_presented : Option String → Option TaskExecutionLease → Bool
is_presented task_lease_id none = true
is_presented task_lease_id (some lease) = presents task_lease_id lease

unfoldable pub require_execution_lease :
    String → Option String → ℕ → Action TaskStore (Option TaskExecutionLease)
unfolding active_execution_lease
require_execution_lease task_id task_lease_id checked = do
  lease ← active_execution_lease task_id checked
  raise_if (not (is_presented task_lease_id lease))
      (value_error "active task execution lease requires matching task_lease_id")
  pure lease

-- The dictionary that the methods return.
pub record LeaseGrant : Type 0 where
  pub acquired : Bool
  pub lease_id : Option String
  pub owner_state : Option TaskExecutionLease
  pub handoff_state : String

abbrev pub seconds_from : ℕ → ℕ → ℕ
seconds_from now lease_seconds = now + lease_seconds * 1_000_000

abbrev pub new_lease : String → String → String → ℕ → ℕ → TaskExecutionLease
new_lease lease_id executor_id scope lease_seconds now = record {
  schema_version = 1;
  lease_id = lease_id;
  executor_id = executor_id;
  scope = scope;
  acquired_at = now;
  refreshed_at = now;
  expires_at = seconds_from now lease_seconds;
}

abbrev pub construct_lease : TaskExecutionLease → Result TaskExecutionLease
construct_lease lease =
    if is_lease lease then ok lease else err (validation_error "TaskExecutionLease")

abbrev pub is_duration : ℕ → Bool
is_duration lease_seconds = leb 30 lease_seconds && leb lease_seconds 3_600

abbrev pub is_owner : String → String → TaskExecutionLease → Bool
is_owner executor_id scope current =
    str_eq current.executor_id executor_id && str_eq current.scope scope

abbrev pub owned : TaskExecutionLease → LeaseGrant
owned current = record {
  acquired = true;
  lease_id = some current.lease_id;
  owner_state = some current;
  handoff_state = "owned";
}

abbrev pub busy : TaskExecutionLease → LeaseGrant
busy current = record {
  acquired = false;
  lease_id = none;
  owner_state = some current;
  handoff_state = "busy";
}

abbrev pub granted : String → TaskExecutionLease → LeaseGrant
granted handoff_state lease = record {
  acquired = true;
  lease_id = some lease.lease_id;
  owner_state = some lease;
  handoff_state = handoff_state;
}

-- What `acquire_execution_lease` does by the active lease.
unfoldable pub acquire_unless :
    String → TaskExecutionLease → Option TaskExecutionLease → Action TaskStore LeaseGrant
unfolding write_execution_lease
acquire_unless task_id wanted (some current) =
    if is_owner wanted.executor_id wanted.scope current
    then pure (owned current)
    else pure (busy current)
acquire_unless task_id wanted none = do
  lease ← lift (construct_lease wanted)
  write_execution_lease task_id lease
  pure (granted "acquired" lease)

unfoldable pub acquire_execution_lease :
    String → String → String → ℕ → String → ℕ → ℕ → Action TaskStore LeaseGrant
unfolding require_writable lock read_open active_execution_lease acquire_unless
acquire_execution_lease task_id executor_id scope lease_seconds lease_id checked now = do
  require_writable
  raise_if (not (is_text_up_to 256 executor_id)) (value_error "executor_id length is invalid")
  raise_if (not (is_text_up_to 512 scope)) (value_error "scope length is invalid")
  raise_if (not (is_duration lease_seconds))
      (value_error "lease_seconds must be between 30 and 3600")
  lock task_id (do
    self ← read_open task_id
    current ← active_execution_lease task_id checked
    acquire_unless task_id (new_lease lease_id executor_id scope lease_seconds now) current)

abbrev pub holds : String → TaskExecutionLease → Bool
holds lease_id current = str_eq current.lease_id lease_id

abbrev pub refreshed_lease : ℕ → ℕ → TaskExecutionLease → TaskExecutionLease
refreshed_lease lease_seconds now current = record current {
  refreshed_at = now;
  expires_at = seconds_from now lease_seconds;
}

unfoldable pub refresh_current :
    String → String → ℕ → ℕ → Option TaskExecutionLease → Action TaskStore LeaseGrant
unfolding write_execution_lease
refresh_current task_id lease_id lease_seconds now none =
    raise (value_error "task execution lease is not active")
refresh_current task_id lease_id lease_seconds now (some current) = do
  raise_if (not (holds lease_id current)) (value_error "task execution lease does not match")
  write_execution_lease task_id (refreshed_lease lease_seconds now current)
  pure (granted "refreshed" (refreshed_lease lease_seconds now current))

unfoldable pub refresh_execution_lease : String → String → ℕ → ℕ → ℕ → Action TaskStore LeaseGrant
unfolding require_writable lock require_open active_execution_lease refresh_current
refresh_execution_lease task_id lease_id lease_seconds checked now = do
  require_writable
  raise_if (not (is_lease_id lease_id)) (value_error "invalid task execution lease ID")
  raise_if (not (is_duration lease_seconds))
      (value_error "lease_seconds must be between 30 and 3600")
  lock task_id (do
    self ← require_open task_id
    raise_if (not (str_eq self.id task_id)) (runtime_error "task identity mismatch")
    current ← active_execution_lease task_id checked
    refresh_current task_id lease_id lease_seconds now current)

abbrev pub released : Option TaskExecutionLease → LeaseGrant
released owner_state = record {
  acquired = false;
  lease_id = none;
  owner_state = owner_state;
  handoff_state = "released";
}

unfoldable pub release_current :
    String → String → Option TaskExecutionLease → Action TaskStore LeaseGrant
unfolding remove_execution_lease
release_current task_id lease_id none = pure (released none)
release_current task_id lease_id (some current) = do
  raise_if (not (holds lease_id current)) (value_error "task execution lease does not match")
  remove_execution_lease task_id
  pure (released (some current))

unfoldable pub release_execution_lease : String → String → ℕ → Action TaskStore LeaseGrant
unfolding require_writable lock require_open active_execution_lease release_current
release_execution_lease task_id lease_id checked = do
  require_writable
  raise_if (not (is_lease_id lease_id)) (value_error "invalid task execution lease ID")
  lock task_id (do
    self ← require_open task_id
    raise_if (not (str_eq self.id task_id)) (runtime_error "task identity mismatch")
    current ← active_execution_lease task_id checked
    release_current task_id lease_id current)

unfoldable pub authorize_execution_lease :
    String → Option String → ℕ → Action TaskStore (Option TaskExecutionLease)
unfolding require_writable lock read_open require_execution_lease
authorize_execution_lease task_id task_lease_id checked = do
  require_writable
  lock task_id (do self ← read_open task_id; require_execution_lease task_id task_lease_id checked)

-- `lease_summary`: who holds the task and until when, without the ID that authorises.
pub record LeaseSummary : Type 0 where
  pub executor_id : String
  pub expires_at : ℕ

abbrev pub summary_of : ℕ → Option TaskExecutionLease → Option LeaseSummary
summary_of now none = none
summary_of now (some lease) =
    if leb lease.expires_at now
    then none
    else some (record { executor_id = lease.executor_id; expires_at = lease.expires_at })

unfoldable pub lease_summary : String → ℕ → Action TaskStore (Option LeaseSummary)
unfolding get read_execution_lease
lease_summary task_id now = do
  self ← get task_id
  lease ← read_execution_lease task_id
  pure (summary_of now lease)
