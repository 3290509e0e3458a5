-- ===== src/Runs/Record.antt =====
-- src/hypershell_reach/runs.py: the vocabulary, `RunRecord` and its validators.
use hypershell_reach.Base.{
  ℕ, String, Bool, true, false, not, ◌&&◌, ◌||◌, Option, none, some, List, leb, ltb, ◌==◌, ◌≡◌,
  is_some,
}
use hypershell_reach.Base.Text.{strip, str_len, str_all, is_empty}
use hypershell_reach.Base.Int.{ℤ}
use hypershell_reach.Base.Result.{
  value_error, Result, ok, ◌>>=◌, ◌>>◌, refuse, optional, as_validation,
}

pub data RunStatus : Type 0 where
  running succeeded remote_error transport_error timeout local_error interrupted unknown : RunStatus

pub data RunOperation : Type 0 where
  run_command run_shell run_script : RunOperation

pub data RunExecutionMode : Type 0 where
  sync async : RunExecutionMode

pub data RunExecutionClass : Type 0 where
  normal heavy : RunExecutionClass

abbrev pub is_running : RunStatus → Bool
is_running running = true
is_running _ = false

-- `_TERMINAL_CLEANUP_STATUSES`
abbrev pub is_terminal_cleanup : RunStatus → Bool
is_terminal_cleanup succeeded = true
is_terminal_cleanup remote_error = true
is_terminal_cleanup transport_error = true
is_terminal_cleanup timeout = true
is_terminal_cleanup local_error = true
is_terminal_cleanup _ = false

-- `_AMBIGUOUS_STATUSES`
abbrev pub is_ambiguous : RunStatus → Bool
is_ambiguous transport_error = true
is_ambiguous timeout = true
is_ambiguous interrupted = true
is_ambiguous unknown = true
is_ambiguous _ = false

abbrev pub is_sync : RunExecutionMode → Bool
is_sync sync = true
is_sync async = false

abbrev pub is_normal : RunExecutionClass → Bool
is_normal normal = true
is_normal heavy = false

abbrev pub run_schema_version : ℕ
run_schema_version = 4

abbrev pub purpose_max_length : ℕ
purpose_max_length = 512

abbrev pub result_summary_max_length : ℕ
result_summary_max_length = 512

abbrev pub result_ref_max_length : ℕ
result_ref_max_length = 512

-- A timestamp is an instant, in microseconds since the epoch: the precision of
-- `format_timestamp`, which keeps the order of instants.
pub record RunRecord : Type 0 where
  pub schema_version : ℕ
  pub id : String
  pub operation : RunOperation
  pub target : String
  pub execution_mode : RunExecutionMode
  pub execution_class : RunExecutionClass
  pub purpose : Option String
  pub result_summary : Option String
  pub result_ref : Option String
  pub task_id : Option String
  pub script_id : Option String
  pub script_source : Option String
  pub script_sha256 : Option String
  pub argument_names : List String
  pub timeout_seconds : ℕ
  pub may_mutate : Bool
  pub idempotent : Option Bool
  pub retained : Bool
  pub started_at : ℕ
  pub ended_at : Option ℕ
  pub status : RunStatus
  pub ambiguous : Bool
  pub exit_code : Option ℤ
  pub timed_out : Option Bool
  pub duration_ms : Option ℕ
  pub stdout_bytes : Option ℕ
  pub stderr_bytes : Option ℕ
  pub stdout_truncated : Option Bool
  pub stderr_truncated : Option Bool
  pub error_type : Option String

-- `str.isprintable` rests on the Unicode tables, which are a parameter: what is relied on is that
-- the characters of ASCII from the space to the tilde are printable.
pub record Unicode : Type 0 where
  pub is_printable : ℕ → Bool
  pub ascii_printable : (c : ℕ) → (leb 32 c && leb c 126) ≡ true → is_printable c ≡ true

module _ ⦃u : Unicode⦄ where
  unfoldable pub normalize_run_purpose : String → Result String
  normalize_run_purpose value = do
    let normalized = strip value
    refuse (is_empty normalized) (value_error "purpose must not be empty")
    refuse (ltb purpose_max_length (str_len normalized))
        (value_error "purpose must be at most 512 characters")
    refuse (not (str_all u.is_printable normalized))
        (value_error "purpose must be a single printable line")
    ok normalized

  unfoldable pub normalize_result_ref : String → Result String
  normalize_result_ref value = do
    let normalized = strip value
    refuse (is_empty normalized) (value_error "result_ref must not be empty")
    refuse (ltb result_ref_max_length (str_len normalized))
        (value_error "result_ref must be at most 512 characters")
    refuse (not (str_all u.is_printable normalized))
        (value_error "result_ref must be one printable line")
    ok normalized

  -- `max_length`, then `validate_result_summary`.
  unfoldable pub validate_result_summary : Option String → Result (Option String)
  validate_result_summary none = ok none
  validate_result_summary (some value) = do
    refuse (ltb result_summary_max_length (str_len value)) (value_error "string_too_long")
    refuse (is_empty value || not (str_all u.is_printable value))
        (value_error "result_summary must be one printable line when present")
    ok (some value)

-- `Field(max_length=200)`
abbrev pub fits_error_type : Option String → Bool
fits_error_type none = true
fits_error_type (some value) = leb (str_len value) 200

-- Each test is raised in turn; a record that passes is returned as it is.
unfoldable pub validate_schema_fields : RunRecord → Result (Unit {0})
validate_schema_fields self = do
  refuse (self.schema_version == 1 && (is_some self.purpose || is_some self.result_summary))
      (value_error "Run schema v1 cannot contain purpose or result_summary")
  refuse (ltb self.schema_version 3 && not (is_sync self.execution_mode))
      (value_error "Run schemas before v3 cannot contain async execution ownership")
  refuse (ltb self.schema_version 4 && is_some self.result_ref)
      (value_error "Run schemas before v4 cannot contain result_ref")
  refuse (ltb self.schema_version 4 && not (is_normal self.execution_class))
      (value_error "Run schemas before v4 cannot contain a non-default execution_class")

module _ ⦃u : Unicode⦄ where
  -- The fields' constraints and validators, then the model's.
  unfoldable pub validate_fields : RunRecord → Result RunRecord
  validate_fields self = do
    refuse (ltb self.schema_version 1 || ltb 4 self.schema_version) (value_error "literal_error")
    purpose ← optional normalize_run_purpose self.purpose
    result_summary ← validate_result_summary self.result_summary
    result_ref ← optional normalize_result_ref self.result_ref
    refuse (ltb self.timeout_seconds 1 || ltb 900 self.timeout_seconds)
        (value_error "timeout_seconds out of range")
    refuse (not (fits_error_type self.error_type)) (value_error "string_too_long")
    let normalized = record self {
      purpose = purpose;
      result_summary = result_summary;
      result_ref = result_ref;
    }
    validate_schema_fields normalized
    ok normalized

  -- `RunRecord(…)`, `RunRecord.model_validate(…)`
  unfoldable pub validate : RunRecord → Result RunRecord
  unfolding validate_fields
  validate self = as_validation "RunRecord" (validate_fields self)
