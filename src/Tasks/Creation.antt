-- ===== src/Tasks/Creation.antt =====
-- src/hypershell_reach/tasks.py: `create` with its search for an equivalent open task.
use hypershell_reach.Base.{
  ℕ, String, Bool, true, false, not, ◌&&◌, ◌||◌, Option, none, some, List, [], ◌∷◌, is_some,
  if◌then◌else◌,
}
use hypershell_reach.Base.Text.{str_eq, ◌<>◌}
use hypershell_reach.Base.Result.{Result, ok, err, runtime_error, validation_error}
use hypershell_reach.Base.Action.{Action, pure, lift, gets, raise_if, transaction, ◌>>=◌, ◌>>◌}
use hypershell_reach.Base.Table.{sort_by_key}
use hypershell_reach.Base.TableOrder.{rows_where}
use hypershell_reach.Tasks.Record.{
  active, TaskContinuity, TaskRecord, TaskIdentity, continuity_identity, identity_eq, is_open,
  has_fields, decode,
}
use hypershell_reach.Tasks.Store.{
  TaskRow, TaskStore, require_writable, validate_task_id, directory_exists, atomic_write,
}

-- `identity=? AND archived=0 AND status IN ('active','partial','blocked')`
abbrev pub is_equivalent : TaskIdentity → TaskRow → Bool
is_equivalent identity row =
    identity_eq row.identity identity && (not row.archived && is_open row.status)

-- `ORDER BY id LIMIT 1`
abbrev pub first_row : List (String × TaskRow) → Option (String × TaskRow)
first_row [] = none
first_row (entry ∷ entries) = some entry

unfoldable pub equivalent_row : TaskIdentity → TaskStore → Option (String × TaskRow)
equivalent_row identity s = first_row (sort_by_key (rows_where (is_equivalent identity) s.tasks))

abbrev pub disagrees : TaskIdentity → String → TaskRecord → Bool
disagrees identity task_id self =
    not (str_eq self.id task_id)
    || (not (is_open self.status)
        || (is_some self.archived_at
            || not (
                identity_eq (continuity_identity self.title self.objective self.project_ref)
                  identity)))

-- What becomes of the row that was found, in `_find_equivalent_open_task`.
abbrev pub equivalent_task :
    TaskIdentity → Option (String × TaskRow) → Action TaskStore (Option TaskRecord)
equivalent_task identity none = pure none
equivalent_task identity (some (task_id, row)) = do
  self ← lift (decode row.payload)
  raise_if (disagrees identity task_id self)
      (runtime_error "task identity does not match database index")
  pure (some self)

unfoldable pub find_equivalent_open_task : TaskIdentity → Action TaskStore (Option TaskRecord)
unfolding equivalent_row decode
find_equivalent_open_task identity = do
  found ← gets (equivalent_row identity)
  equivalent_task identity found

-- The keyword arguments of `create`, with the default of `continuity` filled in.
pub record TaskRequest : Type 0 where
  pub title : String
  pub objective : String
  pub project_ref : Option String
  pub next_action : Option String
  pub continuity : TaskContinuity
  pub retained : Bool

abbrev pub no_continuity : TaskContinuity
no_continuity = record {
  authorization = none;
  sources = [];
  completed = [];
  validation = [];
  cleanup = [];
  recovery = none;
  blockers = [];
  assumptions = [];
}

abbrev pub new_task : TaskRequest → String → ℕ → TaskRecord
new_task request task_id now = record {
  schema_version = 2;
  revision = 1;
  id = task_id;
  title = request.title;
  objective = request.objective;
  project_ref = request.project_ref;
  status = active;
  next_action = request.next_action;
  continuity = request.continuity;
  retained = request.retained;
  created_at = now;
  updated_at = now;
  archived_at = none;
}

abbrev pub identity_of : TaskRequest → TaskIdentity
identity_of request = continuity_identity request.title request.objective request.project_ref

-- `TaskRecord(…)`, with the continuity an object already.
unfoldable pub construct : TaskRecord → Result TaskRecord
construct self = if has_fields self then ok self else err (validation_error "TaskRecord")

-- `create` where no equivalent task is open; the lock of the new ID is nested in that of `create`,
-- so it starts no transaction of its own.
unfoldable pub add_task : TaskRequest → String → ℕ → Action TaskStore TaskRecord
unfolding construct require_writable validate_task_id atomic_write
add_task request task_id now = do
  self ← lift (construct (new_task request task_id now))
  require_writable
  validate_task_id self.id
  current ← gets (directory_exists self.id false)
  archived ← gets (directory_exists self.id true)
  raise_if (current || archived) (runtime_error ("task already exists: " <> self.id))
  atomic_write false self
  pure self

abbrev pub existing_or :
    Option TaskRecord → Action TaskStore TaskRecord → Action TaskStore TaskRecord
existing_or (some existing) make = pure existing
existing_or none make = make

unfoldable pub create : TaskRequest → String → ℕ → Action TaskStore TaskRecord
unfolding require_writable find_equivalent_open_task add_task
create request task_id now = do
  require_writable
  transaction (do
    existing ← find_equivalent_open_task (identity_of request)
    existing_or existing (add_task request task_id now))
