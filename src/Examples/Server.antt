-- ===== src/Examples/Server.antt =====
-- src/hypershell_reach/server.py on a server with one host, one script and two tasks.
use hypershell_reach.Base.{
  ◌≤◌, ◌+◌, ◌*◌, ℕ, suc, ◌≡◌, refl, true, false, none, some, List, [], ◌∷◌, arith,
}
use hypershell_reach.Base.Text.{strip, sorted}
use hypershell_reach.Base.Action.{◌>>=◌}
use hypershell_reach.Base.Result.{ok, err, is_ok, value_error}
use hypershell_reach.Base.Table.{lookup, upsert, sort_by_key}
use hypershell_reach.Config.Model.{Target, enabled_target, resolved_max_timeout}
use hypershell_reach.Execution.Lease.{acquire_execution_lease}
use hypershell_reach.Executor.Service.{Executor}
use hypershell_reach.Runs.Record.{
  RunExecutionClass, RunExecutionMode, RunOperation, validate, validate_schema_fields,
  normalize_run_purpose, validate_result_summary, is_running, RunRecord, interrupted,
}
use hypershell_reach.Runs.Store.{
  RunRow, RunRequest, new_record, row_of, is_run_id, ended_internally, serialize,
}
use hypershell_reach.Runs.Summary.{
  internal_result_summary, bounded_result_summary, internal_lead, ambiguity,
}
use hypershell_reach.Runs.Operations.{create, get, finish_without_execution}
use hypershell_reach.Tasks.Record.{
  has_pending_mutation, is_task_id, is_lease_id, has_fields, is_record, is_continuity, as_completed,
  decode,
}
use hypershell_reach.Tasks.Store.{TaskRow, require_open}
use hypershell_reach.Tasks.Leases.{lease_row}
use hypershell_reach.Tasks.Edits.{no_edits}
use hypershell_reach.Tasks.Valid.{HasValidTasks}
use hypershell_reach.Tasks.Updating.{mark_mutation_pending}
use hypershell_reach.Tasks.Calls.{created, closed, cleaned, perform, perform_all}
use hypershell_reach.Tasks.Steps.{perform_all-HasValidTasks}
use hypershell_reach.Tools.Arguments.{build_script_command, ensure_target_compatible}
use hypershell_reach.Server.Inputs.{
  AgentExecutionInput, CommandInput, RunScriptInput, CancelRunInput, validate_command,
  validate_run_script,
}
use hypershell_reach.Server.Model.{
  Server, Begun, ManagedScript, cancelled, end_tracked, prepare_task_execution, on_tasks, on_runs,
  on_locks, begin_tracked, launch, releasing,
}
use hypershell_reach.Server.Routes.{
  run_command, start_command, run_readonly_script, execute, cancel_run,
}
use hypershell_reach.Server.Events.{
  Event, begins, ends, tasks_called, happen_all, mutation_is_gated,
}
use hypershell_reach.Server.Refusal.{raised_begins_nothing}
use hypershell_reach.Server.Settling.{is_held, tracked_run_is_over}
use hypershell_reach.Server.Readonly.{readonly_route_lem}
use hypershell_reach.Server.Limits.{limit_for, begun_within_limits}
use hypershell_reach.Server.Waiting.{sleep_time, await_terminal_execution}
use hypershell_reach.Server.Termination.{HasTold, await_terminates}
use hypershell_reach.Server.Cancelling.{cancel_needs_lease}
use hypershell_reach.Examples.Runs.{ascii, the_id, going, store-IsValid}
use hypershell_reach.Examples.Executor.{config, config_accepted}
use hypershell_reach.Examples.Tasks.{
  request, other_id, empty, empty-HasValidTasks, work_id, store, store-HasValidTasks, lease,
  lease_found, clock,
}
use hypershell_reach.Examples.Tools.{numbers, metadata, values}

abbrev service : Executor
service = record {
  config = config;
  is_started = true;
  store = record { runs = []; completed_days = none; read_only = false; reconciles = λ mode. true };
  tasks = [];
  leases = [];
  cancel_reasons = [];
  locks = [];
}

abbrev script : ManagedScript
script = record { source_id = "local"; metadata = metadata; content = "echo"; sha256 = "ab" }

abbrev server : Server
server = record {
  executor = service;
  tasks = perform_all (created request other_id 3 ∷ []) empty;
  scripts = ("fs.find", script) ∷ [];
  launches = [];
}

abbrev agent : AgentExecutionInput
agent = record {
  purpose = "restart";
  result_ref = none;
  execution_class = RunExecutionClass.heavy;
  task_lease_id = none;
}

abbrev command : CommandInput
command = record {
  agent = agent;
  target = "web";
  command = "reboot";
  timeout_seconds = 30;
  task_id = some other_id;
}

abbrev commanded : RunRequest
commanded = record {
  operation = RunOperation.run_command;
  target = "web";
  timeout_seconds = 30;
  may_mutate = true;
  execution_mode = RunExecutionMode.sync;
  execution_class = RunExecutionClass.heavy;
  purpose = some "restart";
  result_ref = none;
  idempotent = none;
  task_id = some other_id;
  script_id = none;
  script_source = none;
  script_sha256 = none;
  argument_names = [];
}

abbrev begun : Begun
begun = record {
  run = new_record commanded the_id 9;
  lease = some (record { target = "web"; slot = 0 });
}

command_begun : (execute (run_command command) the_id clock 9 server).0 ≡ ok begun
unfolding execute ◌>>=◌ validate_command normalize_run_purpose strip is_lease_id enabled_target
    lookup prepare_task_execution on_tasks on_runs on_locks acquire_execution_lease
    mark_mutation_pending perform_all perform hypershell_reach.Tasks.Creation.create sort_by_key
    has_fields is_task_id is_record is_continuity begin_tracked launch releasing create validate
    validate_schema_fields validate_result_summary is_run_id upsert
command_begun = refl

server-HasValidTasks : HasValidTasks server.tasks
server-HasValidTasks =
    perform_all-HasValidTasks (created request other_id 3 ∷ []) empty empty-HasValidTasks

-- The run ends, and the task is closed and cleaned away in vain.
abbrev events : List Event
events =
    ends the_id begun.lease cancelled 11
    ∷ tasks_called (closed other_id as_completed none no_edits none clock)
    ∷ begins (start_command command) the_id clock 12
    ∷ tasks_called (cleaned 99_000_000_000_000)
    ∷ []

mutation_is_gated_example :
    (after : TaskRow) × (lookup other_id
        (happen_all events (execute (run_command command) the_id clock 9 server).1).tasks.tasks
      ≡ some after)
    × (has_pending_mutation after.payload.continuity ≡ true)
    × (after.archived ≡ false)
mutation_is_gated_example =
    mutation_is_gated (run_command command) the_id clock 9 server begun other_id events
      server-HasValidTasks command_begun refl refl refl

begun_within_limits_example :
    (target : Target) × (enabled_target config "web" ≡ ok target)
    × (30 ≤ resolved_max_timeout config target)
    × (30 ≤ limit_for true config target)
    × (30 ≤ 900)
begun_within_limits_example =
    begun_within_limits (run_command command) the_id clock 9 server begun config_accepted
      command_begun

-- The slot is locked, and the task is unknown.
abbrev astray : CommandInput
astray = record command { task_id = some work_id }

astray_refused :
    (execute (run_command astray) the_id clock 9 server).0
    ≡ err (value_error "unknown task: task-20260101T000000000000Z-0123456789ab")
unfolding execute ◌>>=◌ validate_command normalize_run_purpose strip is_lease_id enabled_target
    lookup prepare_task_execution on_tasks on_runs on_locks acquire_execution_lease
    mark_mutation_pending perform_all perform hypershell_reach.Tasks.Creation.create sort_by_key
    has_fields is_task_id is_record is_continuity begin_tracked launch releasing upsert
astray_refused = refl

raised_begins_nothing_example :
    ((execute (run_command astray) the_id clock 9 server).1.executor ≡ service)
    × ((execute (run_command astray) the_id clock 9 server).1.launches ≡ [])
raised_begins_nothing_example =
    raised_begins_nothing (run_command astray) the_id clock 9 server
      (value_error "unknown task: task-20260101T000000000000Z-0123456789ab") astray_refused

abbrev search : RunScriptInput
search = record {
  agent = record agent { execution_class = RunExecutionClass.normal };
  script_id = "fs.find";
  target = "web";
  arguments = values;
  task_id = some other_id;
}

abbrev searched : RunRequest
searched = record commanded {
  operation = RunOperation.run_script;
  timeout_seconds = 90;
  may_mutate = false;
  execution_class = RunExecutionClass.normal;
  idempotent = some true;
  script_id = some "fs.find";
  script_source = some "local";
  script_sha256 = some "ab";
  argument_names = "the_text" ∷ [];
}

abbrev search_run : Begun
search_run = record { run = new_record searched the_id 9; lease = none }

search_begun : (execute (run_readonly_script search) the_id clock 9 server).0 ≡ ok search_run
unfolding execute ◌>>=◌ validate_run_script normalize_run_purpose strip is_lease_id enabled_target
    lookup prepare_task_execution on_tasks on_runs on_locks acquire_execution_lease require_open
    perform_all perform hypershell_reach.Tasks.Creation.create sort_by_key has_fields is_task_id
    is_record is_continuity begin_tracked launch releasing upsert create validate
    validate_schema_fields validate_result_summary is_run_id ensure_target_compatible
    build_script_command sorted decode
search_begun = refl

readonly_route_lem_example :
    (search_run.run.may_mutate ≡ false)
    × (search_run.run.idempotent ≡ some true)
    × ((execute (run_readonly_script search) the_id clock 9 server).1.tasks ≡ server.tasks)
readonly_route_lem_example =
    readonly_route_lem (run_readonly_script search) the_id clock 9 server search_run refl
      search_begun

-- A run that is cancelled while it is awaited.
abbrev awaiting : Server
awaiting = record server {
  executor = record service {
    store = hypershell_reach.Examples.Runs.store;
    locks = record { target = "web"; slot = 0 } ∷ [];
  };
}

abbrev cut_short : RunRow
cut_short = row_of (ended_internally going interrupted "CancelledError" 9)

cut_short_found :
    lookup the_id (end_tracked the_id begun.lease cancelled 9 awaiting).1.executor.store.runs
    ≡ some cut_short
unfolding end_tracked finish_without_execution get ◌>>=◌ lookup upsert is_run_id validate
    normalize_run_purpose strip validate_schema_fields validate_result_summary ended_internally
    row_of serialize internal_result_summary bounded_result_summary internal_lead ambiguity
cut_short_found = refl

tracked_run_is_over_example :
    (is_running cut_short.payload.status ≡ false)
    × (is_held begun.lease (end_tracked the_id begun.lease cancelled 9 awaiting).1.executor.locks
        ≡ false)
tracked_run_is_over_example =
    tracked_run_is_over the_id begun.lease cancelled 9 awaiting cut_short store-IsValid refl tt
      cut_short_found

-- A run of the task that a peer has leased.
abbrev peer_run : RunRecord
peer_run = record going { task_id = some work_id }

abbrev leased : Server
leased = record server {
  executor = record service {
    store = record service.store { runs = (the_id, row_of peer_run) ∷ [] };
  };
  tasks = store;
}

abbrev cancellation : CancelRunInput
cancellation = record { run_id = the_id; confirm = true; task_lease_id = none }

peer_run_read : (get the_id leased.executor.store).0 ≡ ok peer_run
unfolding get ◌>>=◌ lookup is_run_id validate normalize_run_purpose strip validate_schema_fields
    validate_result_summary row_of serialize
peer_run_read = refl

cancel_needs_lease_example :
    (is_ok (cancel_run cancellation 5 9 leased).0 ≡ false)
    × ((cancel_run cancellation 5 9 leased).1 ≡ leased)
cancel_needs_lease_example =
    cancel_needs_lease leased cancellation peer_run work_id (lease_row lease) 5 9
      store-HasValidTasks peer_run_read refl lease_found (omega arith) refl

ticking : (n : ℕ) → n * 50_000 + sleep_time 2_000_000 (n * 50_000) ≤ suc n * 50_000
ticking n = ground arith

await_terminates_example :
    HasTold the_id 2_000_000
      (λ n. n * 50_000)
      (λ n. awaiting.executor.store)
      (await_terminal_execution the_id 2 0 (λ n. n * 50_000) (λ n. awaiting.executor.store) 41)
await_terminates_example =
    await_terminates the_id 2 0 (λ n. n * 50_000) (λ n. awaiting.executor.store) (omega arith)
      ticking
