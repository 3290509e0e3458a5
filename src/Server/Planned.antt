-- ===== src/Server/Planned.antt =====
-- src/hypershell_reach/server.py: the plan of a tool and the run that it begins.
use hypershell_reach.Base.{ℕ, ◌≡◌, ◌∙◌, String, Bool, Option, none, arith, if◌then◌else◌}
use hypershell_reach.Base.Result.{ok}
use hypershell_reach.Base.Keeps.{Keeps, Any, Keeps-lift, Keeps-modify}
use hypershell_reach.Base.Ensures.{Ensures, Ensures-after, Ensures-pure, Ensures-if}
use hypershell_reach.Config.Model.{Target}
use hypershell_reach.Execution.Lease.{ExecutionLease}
use hypershell_reach.Executor.Service.{ExecutionSubmission, request_of}
use hypershell_reach.Runs.Record.{RunRecord, Unicode}
use hypershell_reach.Tasks.Store.{TaskStore}
use hypershell_reach.Tasks.Closing.{Readings}
use hypershell_reach.Tools.Model.{Python}
use hypershell_reach.Server.Inputs.{validate_submission}
use hypershell_reach.Server.Model.{
  Server, Begun, prepare_task_execution, launch, begin_leased, begin_tracked,
}
use hypershell_reach.Server.Routes.{Plan, run_plan, start_plan, tracked_run}
use hypershell_reach.Server.Created.{IsFor}
use hypershell_reach.Server.Parts.{Keeps-on_locks, Keeps-create, Keeps-submit, Ensures-releasing}

validated_request :
    ⦃u : Unicode⦄
    → (given : ExecutionSubmission) (command : String) (stdin : Option String)
      {submission : ExecutionSubmission} (r : RunRecord)
    → validate_submission given command stdin ≡ ok submission
    → IsFor (request_of submission) r
    → IsFor (request_of given) r
unfolding validate_submission
validated_request given command stdin {submission} r h f =
    let (m, t, i, n, g) : (submission.may_mutate ≡ given.may_mutate)
        × (submission.task_id ≡ given.task_id)
        × (submission.idempotent ≡ given.idempotent)
        × (submission.timeout_seconds ≡ given.timeout_seconds)
        × (submission.target ≡ given.target) =
      ground arith in
    record {
      same_mutation = f.same_mutation ∙ m;
      same_task = f.same_task ∙ t;
      same_idempotence = f.same_idempotence ∙ i;
      same_timeout = f.same_timeout ∙ n;
      same_target = f.same_target ∙ g;
    }

module _ ⦃p : Python⦄ ⦃u : Unicode⦄ where
  -- A property of the tasks that preparing the run keeps.
  module _ (T : TaskStore → Type 0) (plan : Plan)
      (prepared : (clock : Readings)
        → Keeps
            (λ (s : Server). T s.tasks)
            Any
            (prepare_task_execution plan.submission.task_id plan.submission.may_mutate
              plan.submission.purpose plan.task_lease_id clock)) where
    abbrev P : Server → Type 0
    P self = T self.tasks

    abbrev IsPlanned : Begun → Server → Type 0
    IsPlanned begun t = T t.tasks × IsFor (request_of plan.submission) begun.run

    planned :
        (made : RunRecord) (lease : Option ExecutionLease)
        → IsFor (request_of plan.submission) made
        → (t : Server) → P t
        → IsPlanned (record { run = made; lease = lease }) t
    planned made lease f t h = (h, f)

    leased-IsPlanned :
        (target : Target) (command : String) (lease : Option ExecutionLease) (run_id : String)
        (clock : Readings) (now : ℕ)
        → Ensures P IsPlanned
            (begin_leased (tracked_run plan target command) lease run_id clock now)
    unfolding begin_leased launch
    leased-IsPlanned target command lease run_id clock now = Ensures-after (prepared clock) (λ _ _.
        Ensures-after (Keeps-create P (λ x s h. h) _ run_id now) (λ made f.
          Ensures-after (Keeps-modify P _ (λ s h. h)) (λ _ _.
            Ensures-pure (record { run = made; lease = lease })
              (planned made lease (record {
                same_mutation = f.same_mutation;
                same_task = f.same_task;
                same_idempotence = f.same_idempotence;
                same_timeout = f.same_timeout;
                same_target = f.same_target;
              })))))

    run-IsPlanned :
        (target : Target) (run_id : String) (clock : Readings) (now : ℕ)
        → Ensures P IsPlanned (run_plan plan target run_id clock now)
    unfolding run_plan begin_tracked
    run-IsPlanned target run_id clock now = Ensures-after (Keeps-lift P _) (λ command _.
        Ensures-after (Keeps-on_locks P (λ x s h. h) _) (λ lease _.
          Ensures-releasing IsPlanned lease
            (leased-IsPlanned target command lease run_id clock now)))

    start-IsPlanned :
        (run_id : String) (clock : Readings) (now : ℕ)
        → Ensures P IsPlanned (start_plan plan run_id clock now)
    unfolding start_plan
    start-IsPlanned run_id clock now = Ensures-after (prepared clock) (λ _ _.
        Ensures-after (Keeps-lift P _) (λ command _.
          Ensures-after (Keeps-lift P _) (λ submission accepted.
            Ensures-after (Keeps-submit P (λ x s h. h) submission run_id now) (λ made f.
              Ensures-pure (record { run = made; lease = none })
                (planned made none
                  (validated_request plan.submission command plan.stdin_text made accepted f))))))

    pub begun-IsPlanned :
        (synchronous : Bool) (target : Target) (run_id : String) (clock : Readings) (now : ℕ)
        → Ensures P IsPlanned (
            if synchronous
            then run_plan plan target run_id clock now
            else start_plan plan run_id clock now)
    begun-IsPlanned synchronous target run_id clock now =
        Ensures-if synchronous _ _ (λ _. run-IsPlanned target run_id clock now)
          (λ _. start-IsPlanned run_id clock now)
