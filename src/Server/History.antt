-- ===== src/Server/History.antt =====
-- src/hypershell_reach/server.py: a task that waits for the reconciliation of a mutation, over whatever
-- the server does.
use mathlib.Core.Path.{subst}
use hypershell_reach.Base.{
  ℕ, ◌≡◌, refl, sym, ◌∙◌, String, Bool, true, false, Option, none, some, [], ◌∷◌,
}
use hypershell_reach.Base.Result.{Result, ok, err}
use hypershell_reach.Base.Action.{Action}
use hypershell_reach.Base.Keeps.{
  Keeps, Any, Keeps-then, Keeps-pure, Keeps-lift, Keeps-raise_if, Keeps-modify, Keeps-if,
}
use hypershell_reach.Base.Table.{lookup}
use hypershell_reach.Config.Model.{Target}
use hypershell_reach.Execution.Lease.{ExecutionLease}
use hypershell_reach.Runs.Record.{Unicode}
use hypershell_reach.Tasks.Record.{has_pending_mutation}
use hypershell_reach.Tasks.Store.{TaskRow, TaskStore, row_of}
use hypershell_reach.Tasks.Closing.{Readings}
use hypershell_reach.Tasks.Valid.{HasValidTasks}
use hypershell_reach.Tasks.Calls.{Call, marked, authorized, perform, perform_all, reconciles}
use hypershell_reach.Tasks.Steps.{perform-Goes}
use hypershell_reach.Tasks.Gate.{pending_until_reconciled}
use hypershell_reach.Tools.Model.{Python}
use hypershell_reach.Server.Inputs.{CancelRunInput}
use hypershell_reach.Server.Model.{
  Server, TrackedRun, on_tasks, prepare_task_execution, launch, releasing, release_after_error,
  released, begin_leased, begin_tracked,
}
use hypershell_reach.Server.Routes.{
  ExecutionCall, Plan, run_plan, start_plan, execute, tracked_run, is_synchronous, cancel_run,
  authorize_linked,
}
use hypershell_reach.Server.Parts.{
  target_runtime-Keeps, plan_of-Keeps, Keeps-on_locks, Keeps-create, Keeps-submit, Keeps-on_runs,
  Keeps-on_executor,
}
use hypershell_reach.Server.Readonly.{require_open-Keeps}
use hypershell_reach.Server.Gate.{IsHeld}

row-IsHeld :
    (k : String) (t : TaskStore) (row : TaskRow)
    → HasValidTasks t
    → lookup k t.tasks ≡ some row
    → has_pending_mutation row.payload.continuity ≡ true
    → row.archived ≡ false
    → IsHeld k t
row-IsHeld k t row v there pending placed = record {
  valid = v;
  task = row.payload;
  is_marked = record {
    there =
        there
        ∙ subst (λ b. some row ≡ some (row_of b row.payload)) placed
            (subst (λ x. some row ≡ some x) (v.rows k row there).columns refl);
    marked = pending;
  };
}

pub perform-IsHeld :
    (k : String) (call : Call) (s : TaskStore)
    → reconciles call k ≡ false
    → IsHeld k s
    → IsHeld k (perform call s)
unfolding perform_all
perform-IsHeld k call s unreconciled h =
    let (row, there, pending, placed) =
      pending_until_reconciled (call ∷ []) s k (row_of false h.task) h.valid h.is_marked.there
        h.is_marked.marked (rw unreconciled refl) in
    row-IsHeld k (perform call s) row (perform-Goes call s h.valid).valid there pending placed

module _ ⦃p : Python⦄ where
  module _ (k : String) where
    abbrev P : Server → Type 0
    P self = IsHeld k self.tasks

    call-Keeps :
        {A : Type 0} (m : Action TaskStore A) (call : Call)
        → ((s : TaskStore) → (m s).1 ≡ perform call s)
        → reconciles call k ≡ false
        → Keeps P Any (on_tasks m)
    unfolding on_tasks
    call-Keeps m call same unreconciled = record {
      at = λ s h.
          subst (IsHeld k) (sym (same s.tasks)) (perform-IsHeld k call s.tasks unreconciled h);
      returns = λ s h a e. tt;
    }

    prepare-IsHeld :
        (task_id : Option String) (may_mutate : Bool) (purpose : String)
        (task_lease_id : Option String) (clock : Readings)
        → Keeps P Any (prepare_task_execution task_id may_mutate purpose task_lease_id clock)
    unfolding prepare_task_execution on_tasks perform
    prepare-IsHeld none may_mutate purpose task_lease_id clock = Keeps-pure P Any tt tt
    prepare-IsHeld (some task_id) true purpose task_lease_id clock =
        Keeps-then (call-Keeps _ (marked task_id purpose task_lease_id clock) (λ s. refl) refl)
          (λ r (_ : Unit {0}). Keeps-pure P Any tt tt)
    prepare-IsHeld (some task_id) false purpose task_lease_id clock =
        Keeps-then
          (record {
            at = λ s h. (require_open-Keeps (IsHeld k) task_id).at s.tasks h;
            returns = λ s h a e. tt;
          })
          (λ r (_ : Unit {0}). Keeps-pure P Any tt tt)

    after_release :
        {A : Type 0} (lease : Option ExecutionLease) (r : Result A) (t : Server)
        → P t
        → P (release_after_error lease (r, t)).1
    unfolding released
    after_release lease (ok a) t h = h
    after_release lease (err e) t h = h

    releasing-IsHeld :
        {A : Type 0} (lease : Option ExecutionLease) {m : Action Server A}
        → Keeps P Any m
        → Keeps P Any (releasing lease m)
    unfolding releasing released
    releasing-IsHeld lease {m} h = record {
      at = λ s q. after_release lease (m s).0 (m s).1 (h.at s q);
      returns = λ s q a e. tt;
    }

    module _ ⦃u : Unicode⦄ where
      leased-IsHeld :
          (call : TrackedRun) (lease : Option ExecutionLease) (run_id : String) (clock : Readings)
          (now : ℕ)
          → Keeps P Any (begin_leased call lease run_id clock now)
      unfolding begin_leased launch
      leased-IsHeld call lease run_id clock now =
          Keeps-then (prepare-IsHeld _ _ _ _ clock) (λ _ (_ : Unit {0}).
            Keeps-then (Keeps-create P (λ x s h. h) call.request run_id now) (λ made _.
              Keeps-then (Keeps-modify P _ (λ s h. h)) (λ _ (_ : Unit {0}). Keeps-pure P Any _ tt)))

      run-IsHeld :
          (plan : Plan) (target : Target) (run_id : String) (clock : Readings) (now : ℕ)
          → Keeps P Any (run_plan plan target run_id clock now)
      unfolding run_plan begin_tracked
      run-IsHeld plan target run_id clock now = Keeps-then (Keeps-lift P _) (λ command _.
          Keeps-then (Keeps-on_locks P (λ x s h. h) _) (λ lease (_ : Unit {0}).
            releasing-IsHeld lease
              (leased-IsHeld (tracked_run plan target command) lease run_id clock now)))

      start-IsHeld :
          (plan : Plan) (run_id : String) (clock : Readings) (now : ℕ)
          → Keeps P Any (start_plan plan run_id clock now)
      unfolding start_plan
      start-IsHeld plan run_id clock now =
          Keeps-then (prepare-IsHeld _ _ _ _ clock) (λ _ (_ : Unit {0}).
            Keeps-then (Keeps-lift P _) (λ command _. Keeps-then (Keeps-lift P _) (λ submission _.
              Keeps-then (Keeps-submit P (λ x s h. h) submission run_id now)
                (λ made _. Keeps-pure P Any _ tt))))

      pub execute-IsHeld :
          (call : ExecutionCall) (run_id : String) (clock : Readings) (now : ℕ)
          → Keeps P Any (execute call run_id clock now)
      unfolding execute
      execute-IsHeld call run_id clock now =
          Keeps-then (plan_of-Keeps P call) (λ plan (_ : Unit {0}).
            Keeps-then (target_runtime-Keeps P _ _ _) (λ target (_ : Unit {0}).
              Keeps-then (Keeps-lift P _) (λ _ _.
                Keeps-if P Any (is_synchronous call) _ _
                  (λ _. run-IsHeld plan target run_id clock now)
                  (λ _. start-IsHeld plan run_id clock now))))

      authorize-IsHeld :
          (task_id task_lease_id : Option String) (checked : ℕ)
          → Keeps P Any (authorize_linked task_id task_lease_id checked)
      unfolding authorize_linked perform
      authorize-IsHeld none task_lease_id checked = Keeps-pure P Any tt tt
      authorize-IsHeld (some task_id) task_lease_id checked =
          Keeps-then (call-Keeps _ (authorized task_id task_lease_id checked) (λ s. refl) refl)
            (λ r (_ : Unit {0}). Keeps-pure P Any tt tt)

      pub cancel-IsHeld :
          (given : CancelRunInput) (checked now : ℕ) → Keeps P Any (cancel_run given checked now)
      unfolding cancel_run
      cancel-IsHeld given checked now = Keeps-then (Keeps-lift P _) (λ args _.
          Keeps-then (Keeps-raise_if P _ _) (λ _ _.
            Keeps-then (Keeps-on_runs P (λ x s h. h) Any _ (λ s a e. tt)) (λ task_id (_ : Unit {0}).
              Keeps-then (authorize-IsHeld task_id args.task_lease_id checked)
                (λ _ (_ : Unit {0}). Keeps-on_executor P (λ x s h. h) Any _ (λ s a e. tt)))))
