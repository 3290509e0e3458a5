-- ===== src/Runs/Summary.antt =====
-- src/hypershell_reach/runs.py: the bounded summaries of results, which hold no output of a command.
use hypershell_reach.Base.{
  ℕ, ◌-◌, ◌≤◌, String, Bool, true, false, ◌&&◌, Option, none, some, leb, if◌then◌else◌, arith,
}
use hypershell_reach.Base.Text.{show, str_len, str_take, ◌<>◌, str_len-append, str_len-take}
use hypershell_reach.Base.Int.{ℤ, show_ℤ}
use hypershell_reach.Runs.Record.{
  RunStatus, running, succeeded, remote_error, transport_error, timeout, local_error, interrupted,
  unknown, is_ambiguous, result_summary_max_length, RunRecord,
}

-- One stream of the result of `run_ssh`, with its number of bytes before truncation.
pub record StreamResult : Type 0 where
  pub text : String
  pub bytes : ℕ
  pub truncated : Bool

-- The dictionary that `run_ssh` returns. A stream that is no dictionary is `none`.
pub record Execution : Type 0 where
  pub target : String
  pub status : RunStatus
  pub exit_code : Option ℤ
  pub timed_out : Bool
  pub duration_ms : Option ℕ
  pub stdout : Option StreamResult
  pub stderr : Option StreamResult

-- `execution.get("stdout") … else {}`, then `.get("bytes")` and `.get("truncated")`.
abbrev pub get_bytes : Option StreamResult → Option ℕ
get_bytes none = none
get_bytes (some stream) = some stream.bytes

abbrev pub get_truncated : Option StreamResult → Option Bool
get_truncated none = none
get_truncated (some stream) = some stream.truncated

unfoldable pub status_name : RunStatus → String
status_name running = "running"
status_name succeeded = "succeeded"
status_name remote_error = "remote_error"
status_name transport_error = "transport_error"
status_name timeout = "timeout"
status_name local_error = "local_error"
status_name interrupted = "interrupted"
status_name unknown = "unknown"

unfoldable pub show_bytes : Option ℕ → String
show_bytes none = "None"
show_bytes (some n) = show n

unfoldable pub show_flag : Option Bool → String
show_flag none = "None"
show_flag (some true) = "True"
show_flag (some false) = "False"

unfoldable pub show_exit_code : Option ℤ → String
show_exit_code none = "None"
show_exit_code (some n) = show_ℤ n

abbrev truncation_suffix : String
truncation_suffix = " [truncated]"

unfoldable pub bounded_result_summary : String → String
bounded_result_summary value =
    if leb (str_len value) result_summary_max_length
    then value
    else str_take (result_summary_max_length - str_len truncation_suffix) value <> truncation_suffix

unfoldable pub stream_metadata : Execution → String
unfolding show_bytes show_flag
stream_metadata execution =
    "Output content was not persisted; observed stdout_bytes="
    <> show_bytes (get_bytes execution.stdout)
    <> ", stderr_bytes="
    <> show_bytes (get_bytes execution.stderr)
    <> ", stdout_truncated="
    <> show_flag (get_truncated execution.stdout)
    <> ", stderr_truncated="
    <> show_flag (get_truncated execution.stderr)
    <> "."

unfoldable pub ambiguity : Bool → RunStatus → String
ambiguity may_mutate status =
    if may_mutate && is_ambiguous status
    then " A mutating operation may have an ambiguous outcome."
    else ""

unfoldable pub execution_lead : RunRecord → Execution → RunStatus → String
unfolding show_exit_code
execution_lead self execution succeeded =
    "Execution succeeded with exit_code=" <> show_exit_code execution.exit_code <> "."
execution_lead self execution remote_error =
    "Remote execution failed with exit_code=" <> show_exit_code execution.exit_code <> "."
execution_lead self execution transport_error =
    "SSH transport failed before a trustworthy remote result was available."
execution_lead self execution timeout =
    "Execution timed out after " <> show self.timeout_seconds <> " seconds."
execution_lead self execution status = "Execution ended with status=" <> status_name status <> "."

unfoldable pub execution_result_summary : RunRecord → Execution → String
execution_result_summary self execution = bounded_result_summary (
    execution_lead self execution execution.status
    <> " "
    <> stream_metadata execution
    <> ambiguity self.may_mutate execution.status)

unfoldable pub internal_lead : RunStatus → String → String
internal_lead local_error error_type =
    "Execution failed locally before a remote result (" <> error_type <> ")."
internal_lead interrupted error_type = "Execution was interrupted (" <> error_type <> ")."
internal_lead status error_type = "Execution outcome is unknown (" <> error_type <> ")."

abbrev pub no_content_persisted : String
no_content_persisted =
    " No command, script, argument values, environment values, or output content were persisted."

unfoldable pub internal_result_summary : RunRecord → RunStatus → String → String
internal_result_summary self status error_type =
    bounded_result_summary
      (internal_lead status error_type <> no_content_persisted <> ambiguity self.may_mutate status)

-- A summary never exceeds its bound, whatever it is made of.
pub str_len-bounded_result_summary :
    (value : String) → str_len (bounded_result_summary value) ≤ result_summary_max_length
unfolding bounded_result_summary
str_len-bounded_result_summary value =
    ground (arith, str_len-append (str_take 500 value) truncation_suffix, str_len-take 500 value)

pub str_len-execution_result_summary :
    (self : RunRecord) (execution : Execution)
    → str_len (execution_result_summary self execution) ≤ result_summary_max_length
unfolding execution_result_summary
str_len-execution_result_summary self execution = str_len-bounded_result_summary _

pub str_len-internal_result_summary :
    (self : RunRecord) (status : RunStatus) (error_type : String)
    → str_len (internal_result_summary self status error_type) ≤ result_summary_max_length
unfolding internal_result_summary
str_len-internal_result_summary self status error_type = str_len-bounded_result_summary _
