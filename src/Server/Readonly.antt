-- ===== src/Server/Readonly.antt =====
-- src/hypershell_reach/server.py: the read-only routes.
use hypershell_reach.Base.{ℕ, ◌≡◌, refl, ◌∙◌, String, Bool, true, false, Option, none, some, arith}
use hypershell_reach.Base.Result.{ok}
use hypershell_reach.Base.Keeps.{
  Keeps, Any, Keeps-then, Keeps-pure, Keeps-gets, Keeps-lift, Keeps-or_raise, Keeps-raise_if,
}
use hypershell_reach.Base.Ensures.{Ensures, Ensures-after, Ensures-weaken}
use hypershell_reach.Runs.Record.{Unicode}
use hypershell_reach.Tasks.Store.{TaskStore, require_open}
use hypershell_reach.Tasks.Parts.{Keeps-validate_task_id}
use hypershell_reach.Tasks.Closing.{Readings}
use hypershell_reach.Tools.Model.{Python}
use hypershell_reach.Server.Inputs.{RunScriptInput}
use hypershell_reach.Server.Model.{Server, Begun, on_tasks, prepare_task_execution}
use hypershell_reach.Server.Routes.{
  ExecutionCall, run_command, start_command, run_shell, start_shell, run_script,
  run_readonly_script, start_script, start_readonly_script, Plan, plan_script, plan_of, execute,
  is_synchronous, is_readonly,
}
use hypershell_reach.Server.Parts.{target_runtime-Keeps, get_script-Keeps}
use hypershell_reach.Server.Planned.{begun-IsPlanned}

pub require_open-Keeps :
    (T : TaskStore → Type 0) (task_id : String) → Keeps T Any (require_open task_id)
unfolding require_open
require_open-Keeps T task_id = Keeps-then (Keeps-validate_task_id T task_id) (λ _ _.
    Keeps-then (Keeps-gets T _) (λ found _. Keeps-then (Keeps-or_raise T found _) (λ row _.
      Keeps-then (Keeps-lift T _) (λ self _. Keeps-then (Keeps-raise_if T _ _) (λ _ _.
        Keeps-then (Keeps-raise_if T _ _)
          (λ _ _. Keeps-then (Keeps-raise_if T _ _) (λ _ _. Keeps-pure T Any self tt)))))))

module _ ⦃p : Python⦄ where
  -- Preparing a run that cannot mutate only reads the task.
  prepare_readonly :
      (T : TaskStore → Type 0) (task_id : Option String) (may_mutate : Bool) (purpose : String)
      (task_lease_id : Option String) (clock : Readings)
      → may_mutate ≡ false
      → Keeps
          (λ (s : Server). T s.tasks)
          Any
          (prepare_task_execution task_id may_mutate purpose task_lease_id clock)
  unfolding prepare_task_execution on_tasks
  prepare_readonly T none may_mutate purpose task_lease_id clock h = Keeps-pure _ Any tt tt
  prepare_readonly T (some task_id) true purpose task_lease_id clock h = cc
  prepare_readonly T (some task_id) false purpose task_lease_id clock h =
      Keeps-then
        (record {
          at = λ s k. (require_open-Keeps T task_id).at s.tasks k;
          returns = λ s k a e. tt;
        })
        (λ r (_ : Unit {0}). Keeps-pure (λ (s : Server). T s.tasks) Any tt tt)

  -- What a read-only route submits.
  pub record IsReadonly (plan : Plan) : Type 0 where
    pub no_mutation : plan.submission.may_mutate ≡ false
    pub may_repeat : plan.submission.idempotent ≡ some true

  module _ ⦃u : Unicode⦄ where
    plan_script-IsReadonly :
        (P : Server → Type 0) (given : RunScriptInput) → Keeps P IsReadonly (plan_script true given)
    unfolding plan_script
    plan_script-IsReadonly P given = Keeps-then (Keeps-lift P _) (λ args _.
        Keeps-then (get_script-Keeps P args.script_id) (λ script _.
          Keeps-then (Keeps-raise_if P _ _) (λ _ allowed.
            Keeps-pure P IsReadonly _
              (record { no_mutation = ground arith; may_repeat = ground arith }))))

    plan_of-IsReadonly :
        (P : Server → Type 0) (call : ExecutionCall)
        → is_readonly call ≡ true
        → Keeps P IsReadonly (plan_of call)
    unfolding plan_of
    plan_of-IsReadonly P (run_readonly_script given) h = plan_script-IsReadonly P given
    plan_of-IsReadonly P (start_readonly_script given) h = plan_script-IsReadonly P given
    plan_of-IsReadonly P (run_command given) h = cc
    plan_of-IsReadonly P (start_command given) h = cc
    plan_of-IsReadonly P (run_shell given) h = cc
    plan_of-IsReadonly P (start_shell given) h = cc
    plan_of-IsReadonly P (run_script given) h = cc
    plan_of-IsReadonly P (start_script given) h = cc

    -- What a read-only route leaves.
    abbrev ReadonlyBegun : (TaskStore → Type 0) → Begun → Server → Type 0
    ReadonlyBegun T begun t =
        (begun.run.may_mutate ≡ false) × (begun.run.idempotent ≡ some true) × T t.tasks

    execute-Readonly :
        (T : TaskStore → Type 0) (call : ExecutionCall) (run_id : String) (clock : Readings)
        (now : ℕ)
        → is_readonly call ≡ true
        → Ensures (λ (s : Server). T s.tasks) (ReadonlyBegun T) (execute call run_id clock now)
    unfolding execute
    execute-Readonly T call run_id clock now readonly =
        let P : Server → Type 0 = λ s. T s.tasks in
        Ensures-after (plan_of-IsReadonly (λ (s : Server). T s.tasks) call readonly)
          (λ plan is_readonly_plan.
            Ensures-after (target_runtime-Keeps (λ (s : Server). T s.tasks) _ _ _) (λ target _.
              Ensures-after (Keeps-lift (λ (s : Server). T s.tasks) _) (λ _ _.
                Ensures-weaken
                  (begun-IsPlanned T plan
                    (λ c. prepare_readonly T _ _ _ _ c is_readonly_plan.no_mutation)
                    (is_synchronous call) target run_id clock now)
                  (λ begun t h. (
                    h.1.same_mutation ∙ is_readonly_plan.no_mutation,
                    h.1.same_idempotence ∙ is_readonly_plan.may_repeat,
                    h.0,
                  )))))

    -- A run that `run_readonly_script` or `start_readonly_script` begins cannot mutate and may be
    -- repeated, and no task has changed.
    pub readonly_route_lem :
        (call : ExecutionCall) (run_id : String) (clock : Readings) (now : ℕ) (self : Server)
        (begun : Begun)
        → is_readonly call ≡ true
        → (execute call run_id clock now self).0 ≡ ok begun
        → (begun.run.may_mutate ≡ false)
          × (begun.run.idempotent ≡ some true)
          × ((execute call run_id clock now self).1.tasks ≡ self.tasks)
    readonly_route_lem call run_id clock now self begun readonly e =
        (execute-Readonly (λ t. t ≡ self.tasks) call run_id clock now readonly).at self refl begun e
