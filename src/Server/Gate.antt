-- ===== src/Server/Gate.antt =====
-- src/hypershell_reach/server.py: the mark of the task in the tools that execute.
use mathlib.Core.Path.{subst}
use mathlib.Core.Option.{some-injective}
use hypershell_reach.Base.{ℕ, ◌≡◌, sym, ◌∙◌, String, Bool, true, false, Option, none, some, arith}
use hypershell_reach.Base.Result.{ok}
use hypershell_reach.Base.Keeps.{Keeps-lift, Keeps-modify}
use hypershell_reach.Base.Ensures.{Ensures, Ensures-after, Ensures-then, Ensures-pure, Ensures-if}
use hypershell_reach.Config.Model.{Target}
use hypershell_reach.Execution.Lease.{ExecutionLease}
use hypershell_reach.Executor.Service.{ExecutionSubmission}
use hypershell_reach.Runs.Record.{RunRecord, Unicode}
use hypershell_reach.Tasks.Record.{TaskRecord}
use hypershell_reach.Tasks.Store.{TaskStore}
use hypershell_reach.Tasks.Closing.{Readings}
use hypershell_reach.Tasks.Updating.{mark_mutation_pending}
use hypershell_reach.Tasks.Valid.{HasValidTasks}
use hypershell_reach.Tasks.Effect.{same}
use hypershell_reach.Tasks.Calls.{marked, perform}
use hypershell_reach.Tasks.Steps.{perform-Goes}
use hypershell_reach.Tasks.Marking.{IsMarked, mark-Marks}
use hypershell_reach.Tools.Model.{Python}
use hypershell_reach.Server.Inputs.{validate_submission}
use hypershell_reach.Server.Model.{
  Server, TrackedRun, Begun, on_tasks, prepare_task_execution, launch, begin_leased, begin_tracked,
}
use hypershell_reach.Server.Routes.{
  ExecutionCall, Plan, run_plan, start_plan, execute, tracked_run, is_synchronous,
}
use hypershell_reach.Server.Parts.{
  target_runtime-Keeps, plan_of-Keeps, Keeps-on_locks, Keeps-create, Keeps-submit,
  Ensures-releasing,
}

-- Valid rows, in which the task is current and marked.
pub record IsHeld (k : String) (t : TaskStore) : Type 0 where
  pub valid : HasValidTasks t
  pub task : TaskRecord
  pub is_marked : IsMarked k task t

-- The task is held, if the run may mutate.
abbrev pub Holds : Bool → Option String → TaskStore → Type 0
Holds may_mutate task_id t = may_mutate ≡ true → (k : String) → task_id ≡ some k → IsHeld k t

mark-IsHeld :
    (k purpose : String) (task_lease_id : Option String) (clock : Readings) (s : TaskStore)
    (r : TaskRecord)
    → HasValidTasks s
    → (mark_mutation_pending k purpose task_lease_id clock s).0 ≡ ok r
    → IsHeld k (mark_mutation_pending k purpose task_lease_id clock s).1
unfolding perform
mark-IsHeld k purpose task_lease_id clock s r v e = record {
  valid = (perform-Goes (marked k purpose task_lease_id clock) s v).valid;
  task = r;
  is_marked = (mark-Marks s v k purpose task_lease_id clock).at s same r e;
}

module _ ⦃p : Python⦄ where
  abbrev pub HasTasks : Server → Type 0
  HasTasks self = HasValidTasks self.tasks

  abbrev HoldsTasks : Bool → Option String → Server → Type 0
  HoldsTasks may_mutate task_id self = Holds may_mutate task_id self.tasks

  mark-Ensures :
      (k purpose : String) (task_lease_id : Option String) (clock : Readings)
      → Ensures HasTasks
          (λ _ t. IsHeld k t.tasks)
          (on_tasks (mark_mutation_pending k purpose task_lease_id clock))
  unfolding on_tasks
  mark-Ensures k purpose task_lease_id clock = record {
    at = λ s v r e. mark-IsHeld k purpose task_lease_id clock s.tasks r v e;
  }

  prepare-Holds :
      (task_id : Option String) (may_mutate : Bool) (purpose : String)
      (task_lease_id : Option String) (clock : Readings)
      → Ensures HasTasks
          (λ _ t. HoldsTasks may_mutate task_id t)
          (prepare_task_execution task_id may_mutate purpose task_lease_id clock)
  unfolding prepare_task_execution
  prepare-Holds none may_mutate purpose task_lease_id clock = Ensures-pure tt (λ s v m k e. cc)
  prepare-Holds (some task_id) true purpose task_lease_id clock =
      Ensures-then (mark-Ensures task_id purpose task_lease_id clock) (λ r.
        Ensures-pure tt (λ s held m k e. subst (λ j. IsHeld j s.tasks) (some-injective _ _ e) held))
  prepare-Holds (some task_id) false purpose task_lease_id clock = record {
    at = λ s v r e m k f. cc;
  }

  -- A run of what was prepared.
  abbrev pub BegunHolds : Begun → Server → Type 0
  BegunHolds begun t = Holds begun.run.may_mutate begun.run.task_id t.tasks

  handed_over :
      {may_mutate : Bool} {task_id : Option String} (r : RunRecord) (t : TaskStore)
      → r.may_mutate ≡ may_mutate
      → r.task_id ≡ task_id
      → Holds may_mutate task_id t
      → Holds r.may_mutate r.task_id t
  handed_over r t m i h mutates k is_k = h (sym m ∙ mutates) k (sym i ∙ is_k)

  module _ ⦃u : Unicode⦄ where
    begin_leased-Holds :
        (call : TrackedRun) (lease : Option ExecutionLease) (run_id : String) (clock : Readings)
        (now : ℕ)
        → Ensures HasTasks BegunHolds (begin_leased call lease run_id clock now)
    unfolding begin_leased launch
    begin_leased-Holds call lease run_id clock now =
        let T = HoldsTasks call.request.may_mutate call.request.task_id in
        Ensures-then
          (prepare-Holds call.request.task_id call.request.may_mutate call.purpose
            call.task_lease_id clock)
          (λ _. Ensures-after (Keeps-create T (λ x s h. h) call.request run_id now) (λ made is_for.
            Ensures-after (Keeps-modify T _ (λ s h. h)) (λ _ _.
              Ensures-pure (record { run = made; lease = lease })
                (λ s h. handed_over made s.tasks is_for.same_mutation is_for.same_task h))))

    begin_tracked-Holds :
        (call : TrackedRun) (run_id : String) (clock : Readings) (now : ℕ)
        → Ensures HasTasks BegunHolds (begin_tracked call run_id clock now)
    unfolding begin_tracked
    begin_tracked-Holds call run_id clock now =
        Ensures-after (Keeps-on_locks HasTasks (λ x s h. h) _) (λ lease _.
          Ensures-releasing BegunHolds lease (begin_leased-Holds call lease run_id clock now))

    run_plan-Holds :
        (plan : Plan) (target : Target) (run_id : String) (clock : Readings) (now : ℕ)
        → Ensures HasTasks BegunHolds (run_plan plan target run_id clock now)
    unfolding run_plan
    run_plan-Holds plan target run_id clock now =
        Ensures-after (Keeps-lift HasTasks _)
          (λ command _. begin_tracked-Holds (tracked_run plan target command) run_id clock now)

    -- The validators keep what the gate reads.
    validated-same :
        (given : ExecutionSubmission) (command : String) (stdin : Option String)
        {submission : ExecutionSubmission}
        → validate_submission given command stdin ≡ ok submission
        → (submission.may_mutate ≡ given.may_mutate) × (submission.task_id ≡ given.task_id)
    unfolding validate_submission
    validated-same given command stdin h = ground arith

    start_plan-Holds :
        (plan : Plan) (run_id : String) (clock : Readings) (now : ℕ)
        → Ensures HasTasks BegunHolds (start_plan plan run_id clock now)
    unfolding start_plan
    start_plan-Holds plan run_id clock now =
        let T = HoldsTasks plan.submission.may_mutate plan.submission.task_id in
        Ensures-then
          (prepare-Holds plan.submission.task_id plan.submission.may_mutate plan.submission.purpose
            plan.task_lease_id clock)
          (λ _. Ensures-after (Keeps-lift T _) (λ command _.
            Ensures-after (Keeps-lift T _) (λ submission accepted.
              Ensures-after (Keeps-submit T (λ x s h. h) submission run_id now) (λ made is_for.
                Ensures-pure (record { run = made; lease = none })
                  (λ s h.
                    let (m, i) = validated-same plan.submission command plan.stdin_text accepted in
                    handed_over made s.tasks (is_for.same_mutation ∙ m) (is_for.same_task ∙ i)
                      h)))))

    pub execute-Holds :
        (call : ExecutionCall) (run_id : String) (clock : Readings) (now : ℕ)
        → Ensures HasTasks BegunHolds (execute call run_id clock now)
    unfolding execute
    execute-Holds call run_id clock now = Ensures-after (plan_of-Keeps HasTasks call) (λ plan _.
        Ensures-after (target_runtime-Keeps HasTasks _ _ _) (λ target _.
          Ensures-after (Keeps-lift HasTasks _) (λ _ _.
            Ensures-if (is_synchronous call) _ _ (λ _. run_plan-Holds plan target run_id clock now)
              (λ _. start_plan-Holds plan run_id clock now))))
