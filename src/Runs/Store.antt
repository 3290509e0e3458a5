-- ===== src/Runs/Store.antt =====
-- src/hypershell_reach/runs.py: `RunStore` over the unified database (`database` is configured). A row
-- has the columns that queries read beside the serialised record. Every method takes the reading
-- of the clock; `new_run_id` is an argument, since it holds the time and random digits.
use hypershell_reach.Base.{
  ℕ, String, Bool, true, false, not, ◌&&◌, Option, none, some, List, ◌++◌, leb, ltb, if◌then◌else◌,
}
use hypershell_reach.Base.Text.{str_take, sorted, fits, literal, times, is_digit, is_hex}
use hypershell_reach.Base.Result.{value_error, runtime_error}
use hypershell_reach.Base.Action.{Action, gets, raise_if, modify, transaction, ◌>>=◌, ◌>>◌}
use hypershell_reach.Base.Table.{Table, upsert}
use hypershell_reach.Runs.Record.{
  RunStatus, running, succeeded, remote_error, transport_error, timeout, local_error, interrupted,
  unknown, RunOperation, RunExecutionMode, sync, RunExecutionClass, normal, is_ambiguous,
  run_schema_version, RunRecord,
}
use hypershell_reach.Runs.Summary.{
  Execution, get_bytes, get_truncated, execution_result_summary, internal_result_summary,
}

-- A row of the table `runs`.
pub record RunRow : Type 0 where
  pub status : RunStatus
  pub task_id : Option String
  pub execution_mode : RunExecutionMode
  pub retained : Bool
  pub ambiguous : Bool
  pub ended_at : Option ℕ
  pub target : String
  pub operation : RunOperation
  pub execution_class : RunExecutionClass
  pub started_at : ℕ
  pub payload : RunRecord

pub record RunStore : Type 0 where
  pub runs : Table RunRow
  pub completed_days : Option ℕ
  pub read_only : Bool
  pub reconciles : RunExecutionMode → Bool  -- membership in `reconcile_modes`

-- `_RUN_ID.fullmatch`
unfoldable pub is_run_id : String → Bool
is_run_id run_id =
    fits
      (literal "run-"
        ++ (times 8 is_digit
            ++ (literal "T" ++ (times 12 is_digit ++ (literal "Z-" ++ times 12 is_hex)))))
      run_id

-- `_path`, for its check alone: the database has no file for a run.
unfoldable pub check_id : String → Action RunStore (Unit {0})
check_id run_id = raise_if (not (is_run_id run_id)) (value_error "invalid run ID")

unfoldable pub require_writable : Action RunStore (Unit {0})
require_writable = do
  closed ← gets (λ s. s.read_only)
  raise_if closed (runtime_error "run store is read-only")

-- `_serialize`, up to JSON: the fields that it pops read back as their defaults.
unfoldable pub serialize : RunRecord → RunRecord
serialize self = record self {
  purpose = if leb self.schema_version 1 then none else self.purpose;
  result_summary = if leb self.schema_version 1 then none else self.result_summary;
  execution_mode = if ltb self.schema_version 3 then sync else self.execution_mode;
  result_ref = if ltb self.schema_version 4 then none else self.result_ref;
  execution_class = if ltb self.schema_version 4 then normal else self.execution_class;
}

-- `_put`
unfoldable pub row_of : RunRecord → RunRow
row_of self = record {
  status = self.status;
  task_id = self.task_id;
  execution_mode = self.execution_mode;
  retained = self.retained;
  ambiguous = self.ambiguous;
  ended_at = self.ended_at;
  target = self.target;
  operation = self.operation;
  execution_class = self.execution_class;
  started_at = self.started_at;
  payload = serialize self;
}

unfoldable pub atomic_write : RunRecord → Action RunStore (Unit {0})
unfolding require_writable check_id
atomic_write self = do
  require_writable
  check_id self.id
  modify (λ s. record s { runs = upsert self.id (row_of self) s.runs })

-- `_write_lock`: the check, then a write transaction that the nested connections join.
unfoldable pub write_lock : {A : Type 0} → Action RunStore A → Action RunStore A
unfolding require_writable
write_lock body = do require_writable; transaction body

-- The keyword arguments of `create`.
pub record RunRequest : Type 0 where
  pub operation : RunOperation
  pub target : String
  pub timeout_seconds : ℕ
  pub may_mutate : Bool
  pub execution_mode : RunExecutionMode
  pub execution_class : RunExecutionClass
  pub purpose : Option String
  pub result_ref : Option String
  pub idempotent : Option Bool
  pub task_id : Option String
  pub script_id : Option String
  pub script_source : Option String
  pub script_sha256 : Option String
  pub argument_names : List String

abbrev pub new_record : RunRequest → String → ℕ → RunRecord
new_record request run_id now = record {
  schema_version = run_schema_version;
  id = run_id;
  operation = request.operation;
  target = request.target;
  execution_mode = request.execution_mode;
  execution_class = request.execution_class;
  purpose = request.purpose;
  result_summary = none;
  result_ref = request.result_ref;
  task_id = request.task_id;
  script_id = request.script_id;
  script_source = request.script_source;
  script_sha256 = request.script_sha256;
  argument_names = sorted request.argument_names;
  timeout_seconds = request.timeout_seconds;
  may_mutate = request.may_mutate;
  idempotent = request.idempotent;
  retained = false;
  started_at = now;
  ended_at = none;
  status = running;
  ambiguous = false;
  exit_code = none;
  timed_out = none;
  duration_ms = none;
  stdout_bytes = none;
  stderr_bytes = none;
  stdout_truncated = none;
  stderr_truncated = none;
  error_type = none;
}

-- The statuses that `finish` accepts.
abbrev pub is_execution_status : RunStatus → Bool
is_execution_status succeeded = true
is_execution_status remote_error = true
is_execution_status transport_error = true
is_execution_status timeout = true
is_execution_status _ = false

unfoldable pub finished : RunRecord → Execution → ℕ → RunRecord
finished self execution now = record self {
  ended_at = some now;
  status = execution.status;
  ambiguous = self.may_mutate && is_ambiguous execution.status;
  exit_code = execution.exit_code;
  timed_out = some execution.timed_out;
  duration_ms = execution.duration_ms;
  stdout_bytes = get_bytes execution.stdout;
  stderr_bytes = get_bytes execution.stderr;
  stdout_truncated = get_truncated execution.stdout;
  stderr_truncated = get_truncated execution.stderr;
  result_summary =
      if leb 2 self.schema_version
      then some (execution_result_summary self execution)
      else self.result_summary;
}

-- The outcomes of `_finish_without_execution`.
pub data InternalOutcome : Type 0 where
  failed_locally was_interrupted outcome_unknown : InternalOutcome

abbrev pub internal_status : InternalOutcome → RunStatus
internal_status failed_locally = local_error
internal_status was_interrupted = interrupted
internal_status outcome_unknown = unknown

unfoldable pub ended_internally : RunRecord → RunStatus → String → ℕ → RunRecord
ended_internally self status error_type now =
    let safe_error_type = str_take 200 error_type in
    record self {
      ended_at = some now;
      status = status;
      ambiguous = self.may_mutate && is_ambiguous status;
      error_type = some safe_error_type;
      result_summary =
          if leb 2 self.schema_version
          then some (internal_result_summary self status safe_error_type)
          else self.result_summary;
    }
