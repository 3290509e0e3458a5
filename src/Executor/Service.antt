-- ===== src/Executor/Service.antt =====
-- src/hypershell_reach/executor.py: `ExecutorService`, between two turns of the event loop. A task is in
-- one of three phases, and one turn of the loop is one function. `store` is the database of the runs,
-- and `is_started` tells whether `self._store` is there, so that the property `store` does not raise.
-- Left out: the socket and its framing, and the handler for a `create_task` that raises.
use hypershell_reach.Base.{
  ℕ, suc, String, Bool, true, false, not, Option, none, some, List, [], ◌∷◌, ltb, if◌then◌else◌,
}
use hypershell_reach.Base.Text.{show, str_eq, ◌<>◌}
use hypershell_reach.Base.Result.{
  Error, value_error, runtime_error, os_error, type_name, Result, ok, err,
}
use hypershell_reach.Base.Action.{Action, pure, ◌>>=◌}
use hypershell_reach.Base.Table.{Table, lookup, upsert, delete}
use hypershell_reach.Config.Model.{ReachConfig, Target, enabled_target, resolved_max_timeout}
use hypershell_reach.Execution.Lease.{ExecutionLease, Locks, release, acquire_execution_lease}
use hypershell_reach.Runs.Record.{
  RunRecord, RunStatus, interrupted, RunOperation, async, RunExecutionClass, Unicode, is_running,
  is_sync,
}
use hypershell_reach.Runs.Summary.{Execution}
use hypershell_reach.Runs.Store.{RunStore, RunRequest}
use hypershell_reach.Runs.Operations.{get, create, finish, fail_local, interrupt, mark_unknown}

-- What `_submit` and `_execute` read of a submission.
pub record ExecutionSubmission : Type 0 where
  pub operation : RunOperation
  pub target : String
  pub timeout_seconds : ℕ
  pub purpose : String
  pub result_ref : Option String
  pub execution_class : RunExecutionClass
  pub may_mutate : Bool
  pub idempotent : Option Bool
  pub task_id : Option String
  pub script_id : Option String
  pub script_source : Option String
  pub script_sha256 : Option String
  pub argument_names : List String

abbrev pub request_of : ExecutionSubmission → RunRequest
request_of submission = record {
  operation = submission.operation;
  target = submission.target;
  timeout_seconds = submission.timeout_seconds;
  may_mutate = submission.may_mutate;
  execution_mode = async;
  execution_class = submission.execution_class;
  purpose = some submission.purpose;
  result_ref = submission.result_ref;
  idempotent = submission.idempotent;
  task_id = submission.task_id;
  script_id = submission.script_id;
  script_source = submission.script_source;
  script_sha256 = submission.script_sha256;
  argument_names = submission.argument_names;
}

-- Before `_execute` has the semaphore, inside its `try`, and after it ended (`task.done()`).
pub data Phase : Type 0 where
  waiting executing ended : Phase

abbrev pub is_done : Phase → Bool
is_done ended = true
is_done _ = false

abbrev pub is_executing : Phase → Bool
is_executing executing = true
is_executing _ = false

pub record OwnedTask : Type 0 where
  pub phase : Phase
  pub cancelling : Bool  -- `task.cancel()` was called

pub record Executor : Type 0 where
  pub config : ReachConfig
  pub is_started : Bool  -- `self._store is not None`
  pub store : RunStore
  pub tasks : Table OwnedTask
  pub leases : Table ExecutionLease
  pub cancel_reasons : Table String
  pub locks : Locks

-- A method of the property `store`, which raises unless the service is started.
abbrev pub use_store : {A : Type 0} → Bool → Action RunStore A → Action RunStore A
use_store is_started method store =
    if is_started
    then method store
    else (err (runtime_error "executor service is not started"), store)

abbrev pub with_phase : String → Phase → Bool → Executor → Executor
with_phase run_id phase cancelling self = record self {
  tasks = upsert run_id (record { phase = phase; cancelling = cancelling }) self.tasks;
}

abbrev pub release_lease : Option ExecutionLease → Locks → Locks
release_lease none locks = locks
release_lease (some lease) locks = release lease locks

abbrev pub hold : String → Option ExecutionLease → Table ExecutionLease → Table ExecutionLease
hold run_id none leases = leases
hold run_id (some lease) leases = upsert run_id lease leases

-- The rest of `_submit`, for what `store.create` gave and the lease that it had acquired.
abbrev pub settle_submission :
    Executor → Option ExecutionLease → Result RunRecord × RunStore → Result RunRecord × Executor
settle_submission self lease (err e, store) =
    (err e, record self { store = store; locks = release_lease lease self.locks })
settle_submission self lease (ok made, store) = (
  ok made,
  record self {
    store = store;
    leases = hold made.id lease self.leases;
    tasks = upsert made.id (record { phase = waiting; cancelling = false }) self.tasks;
  },
)

-- What came of `run_ssh` and the lines before it.
pub data Outcome : Type 0 where
  returned : Execution → Outcome
  raised : Error → Outcome

-- `type(exc).__name__`
abbrev pub outcome_name : Outcome → String
outcome_name (returned execution) = ""
outcome_name (raised e) = type_name e

-- What `_cancel` answers at once, or that it awaits the task.
pub data CancelStep : Type 0 where
  answered : RunStatus → CancelStep
  awaiting : CancelStep

module _ ⦃u : Unicode⦄ where
  abbrev pub submit_leased :
      ExecutionSubmission
      → String
      → ℕ
      → Executor
      → Result (Option ExecutionLease) × Locks
      → Result RunRecord × Executor
  submit_leased submission run_id now self (err e, locks) = (err e, record self { locks = locks })
  submit_leased submission run_id now self (ok lease, locks) =
      settle_submission (record self { locks = locks }) lease
        (use_store self.is_started (create (request_of submission) run_id now) self.store)

  abbrev pub submit_to :
      ExecutionSubmission → String → ℕ → Executor → Result Target → Result RunRecord × Executor
  submit_to submission run_id now self (err e) = (err e, self)
  submit_to submission run_id now self (ok target) =
      let max_timeout = resolved_max_timeout self.config target in
      if ltb max_timeout submission.timeout_seconds
      then (
        err (
            value_error (
              "requested timeout "
              <> (show submission.timeout_seconds
                  <> ("s exceeds target limit " <> (show max_timeout <> "s"))))),
        self,
      )
      else submit_leased submission run_id now self (
          acquire_execution_lease submission.target submission.execution_class
            target.max_heavy_concurrency self.locks)

  -- `_submit`
  unfoldable pub submit : ExecutionSubmission → String → ℕ → Action Executor RunRecord
  submit submission run_id now self =
      submit_to submission run_id now self (enabled_target self.config submission.target)

  -- The handlers of `_execute`: `ValidationError` is a `ValueError`.
  abbrev pub record_outcome : String → Outcome → ℕ → Action RunStore RunRecord
  record_outcome run_id (returned execution) now = finish run_id execution now
  record_outcome run_id (raised (os_error name)) now =
      mark_unknown run_id (type_name (os_error name)) now
  record_outcome run_id (raised e) now = fail_local run_id (type_name e) now

  abbrev pub with_store : RunStore → Executor → Executor
  with_store store self = record self { store = store }

  -- `_execute` from the end of `run_ssh` on.
  unfoldable pub complete : String → Outcome → ℕ → Executor → Executor
  complete run_id outcome now self =
      with_phase run_id ended false (
        with_store (use_store self.is_started (record_outcome run_id outcome now) self.store).1
          self)

  -- `self._cancel_reasons.pop(run_id, "ExecutorShutdown")`
  abbrev pub cancel_reason : String → Executor → String
  cancel_reason run_id self = elim (lookup run_id self.cancel_reasons) [
    | none ↦ "ExecutorShutdown"
    | some reason ↦ reason
  ]

  -- `CancelledError` is raised in a task: before the semaphore is acquired no handler sees it.
  unfoldable pub deliver_cancel : String → Phase → ℕ → Executor → Executor
  deliver_cancel run_id executing now self =
      let reason = cancel_reason run_id self in
      with_phase run_id ended true (record self {
        cancel_reasons = delete run_id self.cancel_reasons;
        store = (use_store self.is_started (interrupt run_id reason now) self.store).1;
      })
  deliver_cancel run_id _ now self = with_phase run_id ended true self

  unfoldable pub mark_lost : String → ℕ → Action RunStore (Unit {0})
  mark_lost run_id now = do
    self ← get run_id
    if is_running self.status
        then (do lost ← mark_unknown run_id "ExecutorOwnershipLost" now; pure tt)
        else pure tt

  -- `_reconcile_completed_task`, the callback of an ended task.
  unfoldable pub reconcile_completed_task : String → ℕ → Executor → Executor
  unfolding mark_lost
  reconcile_completed_task run_id now self = record self {
    store = if self.is_started then (mark_lost run_id now self.store).1 else self.store;
    locks = release_lease (lookup run_id self.leases) self.locks;
    leases = delete run_id self.leases;
    tasks = delete run_id self.tasks;
  }

  abbrev pub answer_lost : Result RunRecord × RunStore → Executor → Result CancelStep × Executor
  answer_lost (ok updated, store) self = (ok (answered updated.status), with_store store self)
  answer_lost (err e, store) self = (err e, with_store store self)

  abbrev pub cancel_task : String → ℕ → Option OwnedTask → Action Executor CancelStep
  cancel_task run_id now none self =
      answer_lost (interrupt run_id "ExecutorOwnershipLost" now self.store) self
  cancel_task run_id now (some task) self =
      if is_done task.phase
      then answer_lost (interrupt run_id "ExecutorOwnershipLost" now self.store) self
      else (
        ok awaiting,
        with_phase run_id task.phase true (record self {
          cancel_reasons = upsert run_id "ExplicitCancellation" self.cancel_reasons;
        }),
      )

  abbrev pub cancel_run : String → ℕ → Result RunRecord × RunStore → Action Executor CancelStep
  cancel_run run_id now (err e, store) self = (err e, self)
  cancel_run run_id now (ok current, store) self =
      if is_sync current.execution_mode
      then (err (value_error "only async runs are owned by the executor"), self)
      else if not (is_running current.status)
      then (ok (answered current.status), self)
      else cancel_task run_id now (lookup run_id self.tasks) self

  -- `_cancel` until it awaits the task. `task.cancel()` is refused only by a task that is done.
  unfoldable pub cancel : String → ℕ → Action Executor CancelStep
  cancel run_id now self =
      cancel_run run_id now (use_store self.is_started (get run_id) self.store) self

  abbrev pub is_explicit : RunRecord → Bool
  is_explicit updated = elim updated.status [
    | interrupted ↦ elim updated.error_type [
      | none ↦ false
      | some reason ↦ str_eq reason "ExplicitCancellation"
    ]
    | _ ↦ false
  ]

  -- The end of `_cancel`, once the task is done: the status, and whether the run was cancelled.
  unfoldable pub cancel_answer : String → Bool → Action RunStore (RunStatus × Bool)
  cancel_answer run_id is_started = do
    updated ← use_store is_started (get run_id)
    pure (updated.status, is_explicit updated)

-- The number of tasks that hold the semaphore.
abbrev pub executing_count : Table OwnedTask → ℕ
executing_count [] = 0
executing_count ((run_id, task) ∷ rest) =
    let others = executing_count rest in if is_executing task.phase then suc others else others

-- `async with self._semaphore` is entered.
unfoldable pub may_begin : Executor → Bool
may_begin self = ltb (executing_count self.tasks) self.config.max_concurrency

-- `stop` until it awaits the tasks: every task is cancelled.
abbrev pub cancel_all : Table OwnedTask → Table OwnedTask
cancel_all [] = []
cancel_all ((run_id, task) ∷ rest) = (run_id, record task { cancelling = true }) ∷ cancel_all rest

unfoldable pub stop : Executor → Executor
stop self = record self { tasks = cancel_all self.tasks }

-- The rest of `stop`: `self._store = None`.
unfoldable pub stop_store : Executor → Executor
stop_store self = record self { is_started = false }
