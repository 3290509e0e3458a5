-- ===== src/Server/Parts.antt =====
-- src/hypershell_reach/server.py: the shared parts, for a property of the tasks of the server.
use hypershell_reach.Base.{ℕ, ◌≡◌, String, Bool, true, false, Option}
use hypershell_reach.Base.Result.{Result, ok, err}
use hypershell_reach.Base.Action.{Action}
use hypershell_reach.Base.Keeps.{
  Keeps, Any, Keeps-then, Keeps-pure, Keeps-gets, Keeps-lift, Keeps-or_raise, Keeps-raise_if,
  Keeps-Any,
}
use hypershell_reach.Base.Ensures.{Ensures}
use hypershell_reach.Execution.Lease.{ExecutionLease, Locks}
use hypershell_reach.Executor.Service.{Executor, ExecutionSubmission, request_of, submit}
use hypershell_reach.Runs.Record.{Unicode}
use hypershell_reach.Runs.Store.{RunStore, RunRequest}
use hypershell_reach.Runs.Operations.{create}
use hypershell_reach.Tools.Model.{Python}
use hypershell_reach.Server.Inputs.{CommandInput, ShellInput, RunScriptInput}
use hypershell_reach.Server.Model.{
  Server, on_executor, on_runs, on_locks, releasing, release_after_error, target_runtime,
}
use hypershell_reach.Server.Routes.{
  ExecutionCall, run_command, start_command, run_shell, start_shell, run_script,
  run_readonly_script, start_script, start_readonly_script, get_script, plan_script, plan_command,
  plan_shell, plan_of,
}
use hypershell_reach.Server.Created.{IsFor, create-IsFor, submit-IsFor}

module _ ⦃p : Python⦄ where
  -- The plan of a call, and the choice of the target, only read.
  module _ (P : Server → Type 0) where
    pub target_runtime-Keeps :
        (target_id : String) (requested : ℕ) (synchronous : Bool)
        → Keeps P Any (target_runtime target_id requested synchronous)
    unfolding target_runtime
    target_runtime-Keeps target_id requested synchronous = Keeps-then (Keeps-gets P _) (λ c _.
        Keeps-then (Keeps-lift P _) (λ target _.
          Keeps-then (Keeps-raise_if P _ _)
            (λ _ _. Keeps-then (Keeps-raise_if P _ _) (λ _ _. Keeps-pure P Any target tt))))

    pub get_script-Keeps : (script_id : String) → Keeps P Any (get_script script_id)
    unfolding get_script
    get_script-Keeps script_id =
        Keeps-then (Keeps-gets P _) (λ found _. Keeps-Any (Keeps-or_raise P found _))

  module _ ⦃u : Unicode⦄ (P : Server → Type 0) where
    command-Keeps : (given : CommandInput) → Keeps P Any (plan_command given)
    unfolding plan_command
    command-Keeps given = Keeps-then (Keeps-lift P _) (λ args _. Keeps-pure P Any _ tt)

    shell-Keeps : (given : ShellInput) → Keeps P Any (plan_shell given)
    unfolding plan_shell
    shell-Keeps given = Keeps-then (Keeps-lift P _) (λ args _. Keeps-pure P Any _ tt)

    script-Keeps :
        (readonly : Bool) (given : RunScriptInput) → Keeps P Any (plan_script readonly given)
    unfolding plan_script
    script-Keeps readonly given = Keeps-then (Keeps-lift P _) (λ args _.
        Keeps-then (get_script-Keeps P args.script_id)
          (λ script _. Keeps-then (Keeps-raise_if P _ _) (λ _ _. Keeps-pure P Any _ tt)))

    pub plan_of-Keeps : (call : ExecutionCall) → Keeps P Any (plan_of call)
    unfolding plan_of
    plan_of-Keeps (run_command given) = command-Keeps given
    plan_of-Keeps (start_command given) = command-Keeps given
    plan_of-Keeps (run_shell given) = shell-Keeps given
    plan_of-Keeps (start_shell given) = shell-Keeps given
    plan_of-Keeps (run_script given) = script-Keeps false given
    plan_of-Keeps (run_readonly_script given) = script-Keeps true given
    plan_of-Keeps (start_script given) = script-Keeps false given
    plan_of-Keeps (start_readonly_script given) = script-Keeps true given

  -- A property of the launches and the tasks is kept by what runs and locks do.
  module _ (T : Server → Type 0)
      (free : (e : Executor) (s : Server) → T s → T (record s { executor = e })) where
    pub Keeps-on_locks : {A : Type 0} (m : Action Locks A) → Keeps T Any (on_locks m)
    unfolding on_locks
    Keeps-on_locks m = record { at = λ s h. free _ s h; returns = λ s h a e. tt }

    pub Keeps-on_runs :
        {A : Type 0} (Q : A → Type 0) (m : Action RunStore A)
        → ((s : RunStore) (a : A) → (m s).0 ≡ ok a → Q a)
        → Keeps T Q (on_runs m)
    unfolding on_runs
    Keeps-on_runs Q m q = record {
      at = λ s h. free _ s h;
      returns = λ s h a e. q s.executor.store a e;
    }

    pub Keeps-on_executor :
        {A : Type 0} (Q : A → Type 0) (m : Action Executor A)
        → ((s : Executor) (a : A) → (m s).0 ≡ ok a → Q a)
        → Keeps T Q (on_executor m)
    unfolding on_executor
    Keeps-on_executor Q m q = record {
      at = λ s h. free _ s h;
      returns = λ s h a e. q s.executor a e;
    }

    pub Keeps-create :
        ⦃u : Unicode⦄
        → (request : RunRequest) (run_id : String) (now : ℕ)
        → Keeps T (IsFor request) (on_runs (create request run_id now))
    Keeps-create request run_id now =
        Keeps-on_runs (IsFor request) _ (create-IsFor request run_id now)

    pub Keeps-submit :
        ⦃u : Unicode⦄
        → (submission : ExecutionSubmission) (run_id : String) (now : ℕ)
        → Keeps T (IsFor (request_of submission)) (on_executor (submit submission run_id now))
    Keeps-submit submission run_id now =
        Keeps-on_executor (IsFor (request_of submission)) _ (submit-IsFor submission run_id now)

  module _ {A : Type 0} (R : A → Server → Type 0) where
    released_ensures :
        (lease : Option ExecutionLease) (r : Result A) (t : Server)
        → ((a : A) → r ≡ ok a → R a t)
        → (a : A) → (release_after_error lease (r, t)).0 ≡ ok a
        → R a (release_after_error lease (r, t)).1
    released_ensures lease (ok b) t k a e = k a e
    released_ensures lease (err x) t k a e = cc

    pub Ensures-releasing :
        {P : Server → Type 0} (lease : Option ExecutionLease) {m : Action Server A}
        → Ensures P R m
        → Ensures P R (releasing lease m)
    unfolding releasing
    Ensures-releasing lease {m} k = record {
      at = λ s h a e. released_ensures lease (m s).0 (m s).1 (λ b q. k.at s h b q) a e;
    }
