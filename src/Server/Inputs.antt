-- ===== src/Server/Inputs.antt =====
-- src/hypershell_reach/server.py: the inputs of the tools that execute, and their validators.
use hypershell_reach.Base.{ℕ, String, Bool, true, not, ◌&&◌, Option, none, some, leb}
use hypershell_reach.Base.Result.{
  value_error, Result, ok, optional, refuse, as_validation, ◌>>=◌, ◌>>◌,
}
use hypershell_reach.Base.Table.{Table}
use hypershell_reach.Candidates.Record.{has_length, optional_has_length}
use hypershell_reach.Executor.Service.{ExecutionSubmission}
use hypershell_reach.Runs.Record.{
  RunExecutionClass, Unicode, normalize_run_purpose, normalize_result_ref,
}
use hypershell_reach.Tasks.Record.{is_lease_id}
use hypershell_reach.Tools.Model.{Python}
use hypershell_reach.Tools.Arguments.{Value}

-- `AgentExecutionInput`
pub record AgentExecutionInput : Type 0 where
  pub purpose : String
  pub result_ref : Option String
  pub execution_class : RunExecutionClass
  pub task_lease_id : Option String

pub record CommandInput : Type 0 where
  pub agent : AgentExecutionInput  -- the fields that it inherits
  pub target : String
  pub command : String
  pub timeout_seconds : ℕ
  pub task_id : Option String

pub data Shell : Type 0 where
  sh bash : Shell

unfoldable pub shell_name : Shell → String
shell_name sh = "sh"
shell_name bash = "bash"

pub record ShellInput : Type 0 where
  pub agent : AgentExecutionInput
  pub target : String
  pub interpreter : Shell
  pub script : String
  pub timeout_seconds : ℕ
  pub task_id : Option String

module _ ⦃p : Python⦄ where
  pub record RunScriptInput : Type 0 where
    pub agent : AgentExecutionInput
    pub script_id : String
    pub target : String
    pub arguments : Table Value
    pub task_id : Option String

pub record CancelRunInput : Type 0 where
  pub run_id : String
  pub confirm : Bool
  pub task_lease_id : Option String

abbrev pub fits_lease_id : Option String → Bool
fits_lease_id none = true
fits_lease_id (some lease_id) = is_lease_id lease_id

abbrev pub is_timeout : ℕ → Bool
is_timeout n = leb 1 n && leb n 900

module _ ⦃u : Unicode⦄ where
  -- The validators that run before the fields' constraints, and those.
  unfoldable pub validate_agent_input : AgentExecutionInput → Result AgentExecutionInput
  validate_agent_input self = do
    purpose ← normalize_run_purpose self.purpose
    result_ref ← optional normalize_result_ref self.result_ref
    refuse (not (has_length 1 512 purpose && optional_has_length 1 512 result_ref))
        (value_error "string length")
    refuse (not (fits_lease_id self.task_lease_id)) (value_error "task_lease_id")
    ok (record self { purpose = purpose; result_ref = result_ref })

  unfoldable pub validate_command : CommandInput → Result CommandInput
  unfolding validate_agent_input
  validate_command self = as_validation "CommandInput" (do
    agent ← validate_agent_input self.agent
    refuse
        (not (
          has_length 1 63 self.target
          && (has_length 1 65_536 self.command
              && (is_timeout self.timeout_seconds && optional_has_length 1 128 self.task_id))))
        (value_error "CommandInput")
    ok (record self { agent = agent }))

  unfoldable pub validate_shell : ShellInput → Result ShellInput
  unfolding validate_agent_input
  validate_shell self = as_validation "ShellInput" (do
    agent ← validate_agent_input self.agent
    refuse
        (not (
          has_length 1 63 self.target
          && (has_length 1 262_144 self.script
              && (is_timeout self.timeout_seconds && optional_has_length 1 128 self.task_id))))
        (value_error "ShellInput")
    ok (record self { agent = agent }))

module _ ⦃p : Python⦄ ⦃u : Unicode⦄ where
  unfoldable pub validate_run_script : RunScriptInput → Result RunScriptInput
  unfolding validate_agent_input
  validate_run_script self = as_validation "RunScriptInput" (do
    agent ← validate_agent_input self.agent
    refuse
        (not (
          has_length 3 190 self.script_id
          && (has_length 1 63 self.target && optional_has_length 1 128 self.task_id)))
        (value_error "RunScriptInput")
    ok (record self { agent = agent }))

unfoldable pub validate_cancel : CancelRunInput → Result CancelRunInput
validate_cancel self = as_validation "CancelRunInput" (do
  refuse (not (has_length 1 128 self.run_id)) (value_error "string length")
  refuse (not (fits_lease_id self.task_lease_id)) (value_error "task_lease_id")
  ok self)

module _ ⦃u : Unicode⦄ where
  -- `ExecutionSubmission`, whose command and standard input stand beside the fields of the model.
  unfoldable pub validate_submission :
      ExecutionSubmission → String → Option String → Result ExecutionSubmission
  validate_submission self remote_command stdin_text = as_validation "ExecutionSubmission" (do
    result_ref ← optional normalize_result_ref self.result_ref
    refuse
        (not (
          has_length 1 63 self.target
          && (has_length 1 262_144 remote_command
              && (optional_has_length 0 1_048_576 stdin_text
                  && (is_timeout self.timeout_seconds
                      && (has_length 1 512 self.purpose
                          && optional_has_length 1 512 result_ref))))))
        (value_error "ExecutionSubmission")
    ok (record self { result_ref = result_ref }))
