-- ===== src/Server/Model.antt =====
-- src/hypershell_reach/server.py: the state of the server, and the parts that the tools which execute
-- share. `run_ssh` is awaited between `begin_tracked` and `end_tracked`, so each is
-- one turn of the event loop. The service of Executor/Service holds the rows of runs and the locked
-- files that the server's own store and leases share.
use hypershell_reach.Base.{
  ℕ, String, Bool, true, false, ◌&&◌, Option, none, some, List, ◌∷◌, ltb, if◌then◌else◌,
}
use hypershell_reach.Base.Text.{◌<>◌}
use hypershell_reach.Base.Result.{Error, value_error, os_error, type_name, Result, ok, err}
use hypershell_reach.Base.Action.{Action, pure, raise, lift, gets, raise_if, modify, ◌>>=◌, ◌>>◌}
use hypershell_reach.Base.Table.{Table}
use hypershell_reach.Config.Model.{
  Target, enabled_target, resolved_max_timeout, resolved_max_synchronous_timeout,
}
use hypershell_reach.Execution.Lease.{ExecutionLease, Locks, acquire_execution_lease}
use hypershell_reach.Executor.Service.{Executor, release_lease}
use hypershell_reach.Runs.Record.{RunRecord, Unicode, is_running}
use hypershell_reach.Runs.Summary.{Execution}
use hypershell_reach.Runs.Store.{RunStore, RunRequest}
use hypershell_reach.Runs.Operations.{get, create, finish, fail_local, interrupt, mark_unknown}
use hypershell_reach.Tasks.Store.{TaskStore, require_open}
use hypershell_reach.Tasks.Closing.{Readings}
use hypershell_reach.Tasks.Updating.{mark_mutation_pending}
use hypershell_reach.Tools.Model.{Python, ScriptMetadata}

-- The fields of `ManagedScript` that executions read.
module _ ⦃p : Python⦄ where
  pub record ManagedScript : Type 0 where
    pub source_id : String
    pub metadata : ScriptMetadata
    pub content : String
    pub sha256 : String

-- A call of `run_ssh`.
pub record Launch : Type 0 where
  pub run_id : String
  pub target_id : String
  pub remote_command : String
  pub stdin_text : Option String
  pub timeout_seconds : ℕ

module _ ⦃p : Python⦄ where
  pub record Server : Type 0 where
    pub executor : Executor
    pub tasks : TaskStore
    pub scripts : Table ManagedScript
    pub launches : List Launch  -- the latest first

  -- What the components do to their part of the state.
  unfoldable pub on_tasks : {A : Type 0} → Action TaskStore A → Action Server A
  on_tasks m self = ((m self.tasks).0, record self { tasks = (m self.tasks).1 })

  unfoldable pub on_executor : {A : Type 0} → Action Executor A → Action Server A
  on_executor m self = ((m self.executor).0, record self { executor = (m self.executor).1 })

  abbrev pub with_runs : RunStore → Server → Server
  with_runs runs self = record self { executor = record self.executor { store = runs } }

  unfoldable pub on_runs : {A : Type 0} → Action RunStore A → Action Server A
  on_runs m self = ((m self.executor.store).0, with_runs (m self.executor.store).1 self)

  abbrev pub with_locks : Locks → Server → Server
  with_locks locks self = record self { executor = record self.executor { locks = locks } }

  unfoldable pub on_locks : {A : Type 0} → Action Locks A → Action Server A
  on_locks m self = ((m self.executor.locks).0, with_locks (m self.executor.locks).1 self)

  unfoldable pub released : Option ExecutionLease → Server → Server
  released lease self = with_locks (release_lease lease self.executor.locks) self

module _ ⦃p : Python⦄ where
  -- `_target_runtime`, for the target.
  unfoldable pub target_runtime : String → ℕ → Bool → Action Server Target
  target_runtime target_id requested_timeout synchronous = do
    config ← gets (λ (self : Server). self.executor.config)
    target ← lift (enabled_target config target_id)
    raise_if (ltb (resolved_max_timeout config target) requested_timeout)
        (value_error ("timeout_seconds exceeds configured maximum for " <> target_id))
    raise_if (synchronous && ltb (resolved_max_synchronous_timeout config target) requested_timeout)
        (value_error ("timeout_seconds exceeds configured synchronous maximum for " <> target_id))
    pure target

  -- `_prepare_task_execution`
  unfoldable pub prepare_task_execution :
      Option String → Bool → String → Option String → Readings → Action Server (Unit {0})
  prepare_task_execution none may_mutate purpose task_lease_id clock = pure tt
  prepare_task_execution (some task_id) true purpose task_lease_id clock = do
    marked ← on_tasks (mark_mutation_pending task_id purpose task_lease_id clock)
    pure tt
  prepare_task_execution (some task_id) false purpose task_lease_id clock = do
    current ← on_tasks (require_open task_id)
    pure tt

-- The keyword arguments of `_tracked_ssh_run`: those that it hands to `store.create`, and others.
pub record TrackedRun : Type 0 where
  pub request : RunRequest
  pub target : Target
  pub purpose : String
  pub remote_command : String
  pub stdin_text : Option String
  pub task_lease_id : Option String

-- What is held while `run_ssh` is awaited.
pub record Begun : Type 0 where
  pub run : RunRecord
  pub lease : Option ExecutionLease

-- `finally: lease.release()`, for a body that raises.
module _ ⦃p : Python⦄ where
  abbrev pub release_after_error :
      {A : Type 0} → Option ExecutionLease → Result A × Server → Result A × Server
  release_after_error lease (ok a, self) = (ok a, self)
  release_after_error lease (err e, self) = (err e, released lease self)

  unfoldable pub releasing :
      {A : Type 0} → Option ExecutionLease → Action Server A → Action Server A
  unfolding released
  releasing lease m self = release_after_error lease (m self)

  unfoldable pub launch : TrackedRun → RunRecord → Action Server (Unit {0})
  launch call made = modify (λ self. record self {
    launches =
        record {
          run_id = made.id;
          target_id = call.request.target;
          remote_command = call.remote_command;
          stdin_text = call.stdin_text;
          timeout_seconds = call.request.timeout_seconds;
        }
        ∷ self.launches;
  })

  -- `execution_class == "heavy" and target.max_heavy_concurrency is not None` stands before the
  -- call, and `acquire_execution_lease` tests both again.
  abbrev pub lease_for : RunRequest → Target → Action Server (Option ExecutionLease)
  lease_for request target =
      on_locks (
        acquire_execution_lease request.target request.execution_class target.max_heavy_concurrency)

module _ ⦃p : Python⦄ ⦃u : Unicode⦄ where
  -- `_tracked_ssh_run` with the lease, until it awaits `run_ssh`.
  unfoldable pub begin_leased :
      TrackedRun → Option ExecutionLease → String → Readings → ℕ → Action Server Begun
  unfolding prepare_task_execution launch
  begin_leased call lease run_id clock now = do
    prepare_task_execution call.request.task_id call.request.may_mutate call.purpose
        call.task_lease_id clock
    made ← on_runs (create call.request run_id now)
    launch call made
    pure (record { run = made; lease = lease })

  unfoldable pub begin_tracked : TrackedRun → String → Readings → ℕ → Action Server Begun
  unfolding begin_leased releasing
  begin_tracked call run_id clock now = do
    lease ← lease_for call.request call.target
    releasing lease (begin_leased call lease run_id clock now)

-- What comes of `run_ssh`.
pub data SshOutcome : Type 0 where
  returned : Execution → SshOutcome
  cancelled : SshOutcome  -- `asyncio.CancelledError`
  failed : Error → SshOutcome

abbrev pub cancelled_error : Error
cancelled_error = os_error "CancelledError"

-- `finally`: what it raises takes the place of the result.
abbrev pub conclude : {S A : Type 0} → Result A → Result (Unit {0}) × S → Result A × S
conclude result (ok done, s) = (result, s)
conclude result (err e, s) = (err e, s)

unfoldable pub finally_do : {S A : Type 0} → Action S A → Action S (Unit {0}) → Action S A
finally_do m after s = conclude (m s).0 (after (m s).1)

module _ ⦃u : Unicode⦄ where
  -- The handlers and the `else`; an error of a handler replaces the one that is handled.
  unfoldable pub record_ssh_outcome : String → SshOutcome → ℕ → Action RunStore Execution
  record_ssh_outcome run_id (returned execution) now = do
    ended ← finish run_id execution now
    pure execution
  record_ssh_outcome run_id cancelled now = do
    ended ← interrupt run_id "CancelledError" now
    raise cancelled_error
  record_ssh_outcome run_id (failed (os_error name)) now = do
    ended ← mark_unknown run_id name now
    raise (os_error name)
  record_ssh_outcome run_id (failed e) now = do ended ← fail_local run_id (type_name e) now; raise e

  -- The inner `finally`.
  unfoldable pub mark_unowned : String → ℕ → Action RunStore (Unit {0})
  mark_unowned run_id now = do
    current ← get run_id
    if is_running current.status
        then (do lost ← mark_unknown run_id "ServerOwnershipLost" now; pure tt)
        else pure tt

  -- `_tracked_ssh_run` from the end of `run_ssh` on, but for the lease.
  unfoldable pub settle_tracked : String → SshOutcome → ℕ → Action RunStore Execution
  unfolding record_ssh_outcome mark_unowned finally_do
  settle_tracked run_id outcome now =
      finally_do (record_ssh_outcome run_id outcome now) (mark_unowned run_id now)

module _ ⦃p : Python⦄ ⦃u : Unicode⦄ where
  unfoldable pub end_tracked :
      String → Option ExecutionLease → SshOutcome → ℕ → Action Server Execution
  unfolding settle_tracked released
  end_tracked run_id lease outcome now self = (
    (settle_tracked run_id outcome now self.executor.store).0,
    released lease (with_runs (settle_tracked run_id outcome now self.executor.store).1 self),
  )
