-- ===== src/Server/Events.antt =====
-- src/hypershell_reach/server.py: what the server does, in any order.
use hypershell_reach.Base.{
  ℕ, ◌≡◌, refl, String, Bool, true, false, not, Option, some, List, [], ◌∷◌, all, true-and,
}
use hypershell_reach.Base.Result.{ok}
use hypershell_reach.Base.Table.{lookup}
use hypershell_reach.Execution.Lease.{ExecutionLease}
use hypershell_reach.Executor.Service.{Executor}
use hypershell_reach.Runs.Record.{Unicode}
use hypershell_reach.Tasks.Record.{has_pending_mutation}
use hypershell_reach.Tasks.Store.{TaskRow, row_of}
use hypershell_reach.Tasks.Closing.{Readings}
use hypershell_reach.Tasks.Valid.{HasValidTasks}
use hypershell_reach.Tasks.Calls.{Call, perform, reconciles}
use hypershell_reach.Tools.Model.{Python}
use hypershell_reach.Server.Inputs.{CancelRunInput}
use hypershell_reach.Server.Model.{Server, Begun, SshOutcome, end_tracked, released}
use hypershell_reach.Server.Routes.{ExecutionCall, execute, cancel_run}
use hypershell_reach.Server.Gate.{IsHeld, execute-Holds}
use hypershell_reach.Server.History.{perform-IsHeld, execute-IsHeld, cancel-IsHeld}

module _ ⦃p : Python⦄ where
  -- A tool that executes begins, or its awaited run ends; a run is cancelled; the task store is
  -- called, by a tool or another process; or the service and other processes go on with the
  -- runs and the locked files, in whatever way.
  pub data Event : Type 0 where
    begins : ExecutionCall → String → Readings → ℕ → Event
    ends : String → Option ExecutionLease → SshOutcome → ℕ → Event
    cancels : CancelRunInput → ℕ → ℕ → Event
    tasks_called : Call → Event
    serviced : Executor → Event

  -- The task for which an event brings evidence that its mutation is reconciled.
  abbrev pub brings_evidence : Event → String → Bool
  brings_evidence (tasks_called call) k = reconciles call k
  brings_evidence _ k = false

  module _ ⦃u : Unicode⦄ where
    unfoldable pub happen : Event → Server → Server
    happen (begins call run_id clock now) self = (execute call run_id clock now self).1
    happen (ends run_id lease outcome now) self = (end_tracked run_id lease outcome now self).1
    happen (cancels given checked now) self = (cancel_run given checked now self).1
    happen (tasks_called call) self = record self { tasks = perform call self.tasks }
    happen (serviced executor) self = record self { executor = executor }

    unfoldable pub happen_all : List Event → Server → Server
    unfolding happen
    happen_all [] self = self
    happen_all (event ∷ events) self = happen_all events (happen event self)

    is_false : (b : Bool) → not b ≡ true → b ≡ false
    is_false true h = cc
    is_false false h = refl

    happen-IsHeld :
        (k : String) (event : Event) (self : Server)
        → brings_evidence event k ≡ false
        → IsHeld k self.tasks
        → IsHeld k (happen event self).tasks
    unfolding happen end_tracked released
    happen-IsHeld k (begins call run_id clock now) self unreconciled h =
        (execute-IsHeld k call run_id clock now).at self h
    happen-IsHeld k (ends run_id lease outcome now) self unreconciled h = h
    happen-IsHeld k (cancels given checked now) self unreconciled h =
        (cancel-IsHeld k given checked now).at self h
    happen-IsHeld k (tasks_called call) self unreconciled h =
        perform-IsHeld k call self.tasks unreconciled h
    happen-IsHeld k (serviced executor) self unreconciled h = h

    happen_all-IsHeld :
        (k : String) (events : List Event) (self : Server)
        → all (λ event. not (brings_evidence event k)) events ≡ true
        → IsHeld k self.tasks
        → IsHeld k (happen_all events self).tasks
    unfolding happen_all
    happen_all-IsHeld k [] self unreconciled h = h
    happen_all-IsHeld k (event ∷ events) self unreconciled h =
        let (first, rest) =
          true-and (not (brings_evidence event k)) (all (λ e. not (brings_evidence e k)) events)
            unreconciled in
        happen_all-IsHeld k events (happen event self) rest
          (happen-IsHeld k event self (is_false (brings_evidence event k) first) h)

    -- When a tool that executes begins a run which may mutate and which is linked to a task, on a
    -- server whose task rows are valid, then that task is current and marked with a pending
    -- mutation, and it stays so whatever the server does afterwards, until a call of `update`
    -- brings evidence that its mutation is reconciled: it cannot be closed before.
    pub mutation_is_gated :
        (call : ExecutionCall) (run_id : String) (clock : Readings) (now : ℕ) (self : Server)
        (begun : Begun) (k : String) (events : List Event)
        → HasValidTasks self.tasks
        → (execute call run_id clock now self).0 ≡ ok begun
        → begun.run.may_mutate ≡ true
        → begun.run.task_id ≡ some k
        → all (λ event. not (brings_evidence event k)) events ≡ true
        → (after : TaskRow) × (lookup k
              (happen_all events (execute call run_id clock now self).1).tasks.tasks
            ≡ some after)
          × (has_pending_mutation after.payload.continuity ≡ true)
          × (after.archived ≡ false)
    mutation_is_gated call run_id clock now self begun k events v e mutates linked unreconciled =
        let held = (execute-Holds call run_id clock now).at self v begun e mutates k linked in
        let after =
          happen_all-IsHeld k events (execute call run_id clock now self).1 unreconciled held in
        (row_of false after.task, after.is_marked.there, after.is_marked.marked, refl)
