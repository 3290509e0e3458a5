-- ===== src/Server/Routes.antt =====
-- src/hypershell_reach/server.py: the branches of `call_tool` for the tools that execute. The
-- eight of them that start a run differ in what they check and submit, which is their plan, and in
-- whether they await the run. The text of the answer is left out.
use hypershell_reach.Base.{
  ℕ, String, Bool, true, false, not, ◌&&◌, ◌||◌, Option, none, some, [], if◌then◌else◌,
}
use hypershell_reach.Base.Text.{◌<>◌}
use hypershell_reach.Base.Result.{value_error, validation_error, Result, ok, err}
use hypershell_reach.Base.Action.{Action, pure, lift, gets, or_raise, raise_if, ◌>>=◌, ◌>>◌}
use hypershell_reach.Base.Table.{lookup}
use hypershell_reach.Config.Model.{Target}
use hypershell_reach.Executor.Service.{ExecutionSubmission, request_of, submit, cancel, CancelStep}
use hypershell_reach.Runs.Record.{RunRecord, RunOperation, RunExecutionMode, Unicode}
use hypershell_reach.Runs.Store.{RunStore}
use hypershell_reach.Runs.Operations.{get}
use hypershell_reach.Tasks.Leases.{authorize_execution_lease}
use hypershell_reach.Tasks.Closing.{Readings}
use hypershell_reach.Tools.Model.{Python, ScriptMetadata}
use hypershell_reach.Tools.Arguments.{build_script_command, ensure_target_compatible, keys}
use hypershell_reach.Server.Inputs.{
  CommandInput, ShellInput, RunScriptInput, CancelRunInput, shell_name, validate_command,
  validate_shell, validate_run_script, validate_cancel, validate_submission,
}
use hypershell_reach.Server.Model.{
  ManagedScript, Server, TrackedRun, Begun, on_tasks, on_executor, on_runs, target_runtime,
  prepare_task_execution, begin_tracked,
}

module _ ⦃p : Python⦄ where
  -- The names of the tools, with their arguments.
  pub data ExecutionCall : Type 0 where
    run_command start_command : CommandInput → ExecutionCall
    run_shell start_shell : ShellInput → ExecutionCall
    run_script run_readonly_script start_script start_readonly_script :
        RunScriptInput → ExecutionCall

  abbrev pub is_synchronous : ExecutionCall → Bool
  is_synchronous (run_command args) = true
  is_synchronous (run_shell args) = true
  is_synchronous (run_script args) = true
  is_synchronous (run_readonly_script args) = true
  is_synchronous _ = false

  abbrev pub is_readonly : ExecutionCall → Bool
  is_readonly (run_readonly_script args) = true
  is_readonly (start_readonly_script args) = true
  is_readonly _ = false

  -- What a branch submits. A script's command is built late, and may raise.
  pub record Plan : Type 0 where
    pub submission : ExecutionSubmission
    pub remote_command : Result String
    pub stdin_text : Option String
    pub task_lease_id : Option String
    pub script : Option ScriptMetadata

  abbrev pub command_plan : CommandInput → Plan
  command_plan args = record {
    submission = record {
      operation = RunOperation.run_command;
      target = args.target;
      timeout_seconds = args.timeout_seconds;
      purpose = args.agent.purpose;
      result_ref = args.agent.result_ref;
      execution_class = args.agent.execution_class;
      may_mutate = true;
      idempotent = none;
      task_id = args.task_id;
      script_id = none;
      script_source = none;
      script_sha256 = none;
      argument_names = [];
    };
    remote_command = ok args.command;
    stdin_text = none;
    task_lease_id = args.agent.task_lease_id;
    script = none;
  }

  abbrev pub shell_plan : ShellInput → Plan
  shell_plan args = record {
    submission = record {
      operation = RunOperation.run_shell;
      target = args.target;
      timeout_seconds = args.timeout_seconds;
      purpose = args.agent.purpose;
      result_ref = args.agent.result_ref;
      execution_class = args.agent.execution_class;
      may_mutate = true;
      idempotent = none;
      task_id = args.task_id;
      script_id = none;
      script_source = none;
      script_sha256 = none;
      argument_names = [];
    };
    remote_command = ok (shell_name args.interpreter <> " -s --");
    stdin_text = some args.script;
    task_lease_id = args.agent.task_lease_id;
    script = none;
  }

  abbrev pub script_plan : RunScriptInput → ManagedScript → Plan
  script_plan args script = record {
    submission = record {
      operation = RunOperation.run_script;
      target = args.target;
      timeout_seconds = script.metadata.timeout_seconds;
      purpose = args.agent.purpose;
      result_ref = args.agent.result_ref;
      execution_class = args.agent.execution_class;
      may_mutate = script.metadata.mutating;
      idempotent = some script.metadata.idempotent;
      task_id = args.task_id;
      script_id = some script.metadata.id;
      script_source = some script.source_id;
      script_sha256 = some script.sha256;
      argument_names = keys args.arguments;
    };
    remote_command = build_script_command script.metadata args.arguments;
    stdin_text = some script.content;
    task_lease_id = args.agent.task_lease_id;
    script = some script.metadata;
  }

  -- `ToolRegistry.get`
  unfoldable pub get_script : String → Action Server ManagedScript
  get_script script_id = do
    found ← gets (λ (self : Server). lookup script_id self.scripts)
    or_raise found (value_error ("unknown script: " <> script_id))

  -- `ensure_target_compatible`, in the branches for scripts.
  abbrev pub check_compatible : Option ScriptMetadata → Target → Result (Unit {0})
  check_compatible none target = ok tt
  check_compatible (some metadata) target = ensure_target_compatible metadata target.capabilities

module _ ⦃p : Python⦄ ⦃u : Unicode⦄ where
  unfoldable pub plan_script : Bool → RunScriptInput → Action Server Plan
  unfolding get_script
  plan_script readonly given = do
    args ← lift (validate_run_script given)
    script ← get_script args.script_id
    raise_if (readonly && (script.metadata.mutating || not script.metadata.idempotent))
        (value_error "read-only managed route requires mutating=false and idempotent=true")
    pure (script_plan args script)

  unfoldable pub plan_command : CommandInput → Action Server Plan
  plan_command given = do args ← lift (validate_command given); pure (command_plan args)

  unfoldable pub plan_shell : ShellInput → Action Server Plan
  plan_shell given = do args ← lift (validate_shell given); pure (shell_plan args)

  unfoldable pub plan_of : ExecutionCall → Action Server Plan
  unfolding plan_command plan_shell plan_script
  plan_of (run_command given) = plan_command given
  plan_of (start_command given) = plan_command given
  plan_of (run_shell given) = plan_shell given
  plan_of (start_shell given) = plan_shell given
  plan_of (run_script given) = plan_script false given
  plan_of (run_readonly_script given) = plan_script true given
  plan_of (start_script given) = plan_script false given
  plan_of (start_readonly_script given) = plan_script true given

  abbrev pub tracked_run : Plan → Target → String → TrackedRun
  tracked_run plan target command = record {
    request = record (request_of plan.submission) { execution_mode = RunExecutionMode.sync };
    target = target;
    purpose = plan.submission.purpose;
    remote_command = command;
    stdin_text = plan.stdin_text;
    task_lease_id = plan.task_lease_id;
  }

  unfoldable pub run_plan : Plan → Target → String → Readings → ℕ → Action Server Begun
  unfolding begin_tracked
  run_plan plan target run_id clock now = do
    command ← lift plan.remote_command
    begin_tracked (tracked_run plan target command) run_id clock now

  -- `_prepare_task_execution`, then `_submit_async_execution` to the service of this process.
  unfoldable pub start_plan : Plan → String → Readings → ℕ → Action Server Begun
  unfolding prepare_task_execution validate_submission
  start_plan plan run_id clock now = do
    prepare_task_execution plan.submission.task_id plan.submission.may_mutate
        plan.submission.purpose plan.task_lease_id clock
    command ← lift plan.remote_command
    submission ← lift (validate_submission plan.submission command plan.stdin_text)
    made ← on_executor (submit submission run_id now)
    pure (record { run = made; lease = none })

  unfoldable pub execute : ExecutionCall → String → Readings → ℕ → Action Server Begun
  unfolding plan_of target_runtime run_plan start_plan
  execute call run_id clock now = do
    plan ← plan_of call
    target ←
        target_runtime plan.submission.target plan.submission.timeout_seconds (is_synchronous call)
    lift (check_compatible plan.script target)
    if is_synchronous call
        then run_plan plan target run_id clock now
        else start_plan plan run_id clock now

  -- `get` in `cancel_run`, with its `except ValueError`; `ValidationError` is one.
  abbrev pub task_of : Result RunRecord → Result (Option String)
  task_of (ok run_record) = ok run_record.task_id
  task_of (err (value_error m)) = ok none
  task_of (err (validation_error m)) = ok none
  task_of (err e) = err e

  unfoldable pub linked_task : String → Action RunStore (Option String)
  linked_task run_id s = (task_of (get run_id s).0, (get run_id s).1)

  unfoldable pub authorize_linked : Option String → Option String → ℕ → Action Server (Unit {0})
  authorize_linked none task_lease_id checked = pure tt
  authorize_linked (some task_id) task_lease_id checked = do
    lease ← on_tasks (authorize_execution_lease task_id task_lease_id checked)
    pure tt

  -- `cancel_run`, until the service awaits the task.
  unfoldable pub cancel_run : CancelRunInput → ℕ → ℕ → Action Server CancelStep
  unfolding linked_task authorize_linked
  cancel_run given checked now = do
    args ← lift (validate_cancel given)
    raise_if (not args.confirm) (value_error "cancel_run requires confirm=true")
    task_id ← on_runs (linked_task args.run_id)
    authorize_linked task_id args.task_lease_id checked
    on_executor (cancel args.run_id now)
