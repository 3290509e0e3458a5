-- ===== src/Executor/Await.antt =====
-- src/hypershell_reach/executor.py: `await_terminal` of a service that is started, between
-- two turns of the event loop.
use hypershell_reach.Base.{
  ℕ, ◌≡◌, refl, String, Bool, true, false, not, Option, none, some, ltb, if◌then◌else◌, arith,
}
use hypershell_reach.Base.Result.{ok, value_error, Result, refuse}
use hypershell_reach.Base.Action.{Action, pure, ◌>>=◌}
use hypershell_reach.Base.Table.{lookup}
use hypershell_reach.Runs.Record.{RunRecord, RunStatus, Unicode, is_running, is_sync, unknown}
use hypershell_reach.Runs.Invariant.{IsValid}
use hypershell_reach.Runs.Store.{RunRow, RunStore, outcome_unknown, ended_internally}
use hypershell_reach.Runs.Operations.{get, mark_unknown}
use hypershell_reach.Runs.Ending.{finish_without_execution_lem}
use hypershell_reach.Executor.Service.{OwnedTask, is_done}
use hypershell_reach.Executor.Cancel.{get_row}

pub data Reconciliation : Type 0 where
  not_needed executor_owned not_attempted ownership_lost : Reconciliation

-- The dictionary that is returned.
pub record AwaitAnswer : Type 0 where
  pub run_id : String
  pub status : RunStatus
  pub terminal : Bool
  pub result_summary : Option String
  pub reconciliation : Reconciliation

-- What one turn of the loop comes to: an answer, `asyncio.sleep(0)` for the callback of an ended
-- task, or the sleep before the next turn.
pub data AwaitStep : Type 0 where
  answering : AwaitAnswer → AwaitStep
  yielding sleeping : AwaitStep

unfoldable pub check_wait : ℕ → Result (Unit {0})
check_wait max_wait_seconds =
    refuse (ltb 90 max_wait_seconds) (value_error "max_wait_seconds must be between 0 and 90")

abbrev pub answer : RunRecord → Bool → Reconciliation → AwaitAnswer
answer self terminal reconciliation = record {
  run_id = self.id;
  status = self.status;
  terminal = terminal;
  result_summary = self.result_summary;
  reconciliation = reconciliation;
}

abbrev pub at_deadline : Bool → RunRecord → Reconciliation → AwaitStep
at_deadline out_of_time self reconciliation =
    if out_of_time then answering (answer self false reconciliation) else sleeping

module _ ⦃u : Unicode⦄ where
  unfoldable pub reconcile_lost : String → ℕ → Action RunStore AwaitStep
  reconcile_lost run_id now = do
    lost ← mark_unknown run_id "ExecutorOwnershipLost" now
    pure (answering (answer lost true ownership_lost))

  unfoldable pub await_owned :
      String → ℕ → Bool → RunRecord → Option OwnedTask → Action RunStore AwaitStep
  unfolding reconcile_lost
  await_owned run_id now out_of_time self none = reconcile_lost run_id now
  await_owned run_id now out_of_time self (some task) =
      if is_done task.phase
      then pure yielding
      else pure (at_deadline out_of_time self executor_owned)

  -- One turn, for the run's task if the service has one, and whether the deadline has passed.
  unfoldable pub await_turn : String → ℕ → Bool → Option OwnedTask → Action RunStore AwaitStep
  unfolding await_owned
  await_turn run_id now out_of_time task = do
    self ← get run_id
    if not (is_running self.status)
        then pure (answering (answer self true not_needed))
        else if is_sync self.execution_mode
        then pure (at_deadline out_of_time self not_attempted)
        else await_owned run_id now out_of_time self task

  -- The rest of a turn that yielded.
  unfoldable pub await_after_yield : String → ℕ → Action RunStore AwaitStep
  unfolding reconcile_lost
  await_after_yield run_id now = do
    self ← get run_id
    if is_running self.status
        then reconcile_lost run_id now
        else pure (answering (answer self true not_needed))

  lost_is_over :
      (r : RunRecord) (now : ℕ)
      → is_running (ended_internally r unknown "ExecutorOwnershipLost" now).status ≡ false
  unfolding ended_internally
  lost_is_over r now = refl

  abbrev pub TellsTerminal : Result AwaitStep → Type 0
  TellsTerminal (ok (answering given)) = given.terminal ≡ not (is_running given.status)
  TellsTerminal _ = Unit

  -- In a writable store with valid rows, an answer of `await_terminal` calls a known run terminal
  -- just when the status that it gives is not `running`, in a turn and after a yield.
  pub await-TellsTerminal :
      (run_id : String) (now : ℕ) (out_of_time : Bool) (task : Option OwnedTask) (row : RunRow)
      (s : RunStore)
      → IsValid s
      → s.read_only ≡ false
      → lookup run_id s.runs ≡ some row
      → TellsTerminal (await_turn run_id now out_of_time task s).0
        × TellsTerminal (await_after_yield run_id now s).0
  unfolding await_turn await_after_yield ◌>>=◌
  await-TellsTerminal run_id now out_of_time task row s v open_store found =
      let step =
        finish_without_execution_lem run_id outcome_unknown "ExecutorOwnershipLost" now row s v
          open_store found in
      ground (arith, get_row run_id row s v found, step, lost_is_over row.payload now)
