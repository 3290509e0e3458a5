-- ===== src/Tasks/Store.antt =====
-- src/hypershell_reach/tasks.py: `TaskStore` over the unified database (`database` is configured): its
-- rows, reads and writes, `get` and `require_open`. A directory is the ID with the mark
-- whether it is the archived one. The readings of the clock and the drawn IDs are arguments.
use hypershell_reach.Base.{
  ℕ, String, Bool, true, false, not, Option, none, some, is_nonempty, is_some, if◌then◌else◌,
}
use hypershell_reach.Base.Text.{str_eq, ◌<>◌}
use hypershell_reach.Base.Result.{value_error, runtime_error}
use hypershell_reach.Base.Action.{
  Action, pure, lift, gets, or_raise, raise_if, modify, transaction, ◌>>=◌, ◌>>◌,
}
use hypershell_reach.Base.Table.{Table, lookup, upsert}
use hypershell_reach.Tasks.Record.{
  TaskStatus, TaskExecutionLease, TaskRecord, TaskIdentity, continuity_identity, is_open,
  is_task_id, decode,
}

-- A row of the table `tasks`.
pub record TaskRow : Type 0 where
  pub status : TaskStatus
  pub revision : ℕ
  pub archived : Bool
  pub created_at : ℕ
  pub updated_at : ℕ
  pub archived_at : Option ℕ
  pub project_ref : Option String
  pub retained : Bool
  pub blocked : Bool
  pub identity : TaskIdentity
  pub payload : TaskRecord

-- A row of the table `task_leases`.
pub record LeaseRow : Type 0 where
  pub executor_id : String
  pub expires_at : ℕ
  pub payload : TaskExecutionLease

pub record TaskStore : Type 0 where
  pub tasks : Table TaskRow
  pub task_leases : Table LeaseRow
  pub archived_days : Option ℕ
  pub read_only : Bool

unfoldable pub validate_task_id : String → Action TaskStore (Unit {0})
validate_task_id task_id = raise_if (not (is_task_id task_id)) (value_error "invalid task ID")

unfoldable pub require_writable : Action TaskStore (Unit {0})
require_writable = do
  closed ← gets (λ s. s.read_only)
  raise_if closed (runtime_error "task store is read-only")

-- `_lock`
unfoldable pub lock : {A : Type 0} → String → Action TaskStore A → Action TaskStore A
unfolding require_writable validate_task_id
lock task_id body = do require_writable; validate_task_id task_id; transaction body

abbrev pub bool_eq : Bool → Bool → Bool
bool_eq true b = b
bool_eq false b = not b

-- The row of a directory.
abbrev pub row_in : Bool → Option TaskRow → Option TaskRow
row_in archived none = none
row_in archived (some row) = if bool_eq row.archived archived then some row else none

abbrev pub directory_row : String → Bool → TaskStore → Option TaskRow
directory_row task_id archived s = row_in archived (lookup task_id s.tasks)

-- `_directory_exists`
abbrev pub directory_exists : String → Bool → TaskStore → Bool
directory_exists task_id archived s = is_some (directory_row task_id archived s)

-- `_read_dir`
unfoldable pub read_dir : String → Bool → Action TaskStore TaskRecord
unfolding decode
read_dir task_id archived = do
  found ← gets (directory_row task_id archived)
  row ← or_raise found (runtime_error ("invalid task record: " <> task_id))
  self ← lift (decode row.payload)
  raise_if (not (str_eq self.id task_id)) (runtime_error "task ID does not match database key")
  pure self

-- The columns that `_put` writes.
abbrev pub row_of : Bool → TaskRecord → TaskRow
row_of archived self = record {
  status = self.status;
  revision = self.revision;
  archived = archived;
  created_at = self.created_at;
  updated_at = self.updated_at;
  archived_at = self.archived_at;
  project_ref = self.project_ref;
  retained = self.retained;
  blocked = is_nonempty self.continuity.blockers;
  identity = continuity_identity self.title self.objective self.project_ref;
  payload = self;
}

unfoldable pub put : TaskRecord → Bool → Action TaskStore (Unit {0})
unfolding decode
put given archived = do
  self ← lift (decode given)
  modify (λ s. record s { tasks = upsert self.id (row_of archived self) s.tasks })

unfoldable pub atomic_write : Bool → TaskRecord → Action TaskStore (Unit {0})
unfolding require_writable put
atomic_write archived self = do require_writable; put self archived

-- `_move_to_archive`: `UPDATE tasks SET archived=1 WHERE id=? AND archived=0`.
abbrev pub archive_row : String → Option TaskRow → TaskStore → TaskStore
archive_row task_id none s = s
archive_row task_id (some row) s = record s {
  tasks = upsert task_id (record row { archived = true }) s.tasks;
}

unfoldable pub move_to_archive : String → Action TaskStore (Unit {0})
move_to_archive task_id = modify (λ s. archive_row task_id (directory_row task_id false s) s)

unfoldable pub get : String → Action TaskStore TaskRecord
unfolding validate_task_id decode
get task_id = do
  validate_task_id task_id
  found ← gets (λ s. lookup task_id s.tasks)
  row ← or_raise found (value_error ("unknown task: " <> task_id))
  self ← lift (decode row.payload)
  raise_if (not (str_eq self.id task_id)) (runtime_error "task ID does not match database key")
  pure self

unfoldable pub require_open : String → Action TaskStore TaskRecord
unfolding validate_task_id decode
require_open task_id = do
  validate_task_id task_id
  found ← gets (λ s. lookup task_id s.tasks)
  row ← or_raise found (value_error ("unknown task: " <> task_id))
  self ← lift (decode row.payload)
  raise_if (not (str_eq self.id task_id)) (runtime_error "task ID does not match database key")
  raise_if row.archived (value_error ("task is archived: " <> task_id))
  raise_if (not (is_open self.status)) (value_error ("task is terminal: " <> task_id))
  pure self

-- The lock's body starts so in `acquire_execution_lease` and `authorize_execution_lease`.
unfoldable pub read_open : String → Action TaskStore TaskRecord
unfolding read_dir
read_open task_id = do
  in_archive ← gets (directory_exists task_id true)
  raise_if in_archive (value_error ("task is archived: " <> task_id))
  present ← gets (directory_exists task_id false)
  raise_if (not present) (value_error ("unknown task: " <> task_id))
  self ← read_dir task_id false
  raise_if (not (is_open self.status)) (value_error ("task is terminal: " <> task_id))
  pure self
