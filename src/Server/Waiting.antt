-- ===== src/Server/Waiting.antt =====
-- src/hypershell_reach/server.py: the loop of `_await_terminal_execution` where no service runs. The
-- store and the clock of the event loop, in microseconds, are what turn `n` finds.
use hypershell_reach.Base.{
  ℕ, zero, suc, ◌+◌, ◌-◌, ◌*◌, String, true, false, not, Option, none, some, leb, if◌then◌else◌,
}
use hypershell_reach.Base.Result.{Result, ok, err}
use hypershell_reach.Runs.Record.{RunRecord, Unicode, is_running}
use hypershell_reach.Runs.Store.{RunStore}
use hypershell_reach.Runs.Operations.{get}
use hypershell_reach.Executor.Await.{AwaitAnswer, answer, not_needed, not_attempted}

-- An answer, or the time to sleep before the next turn.
pub data Poll : Type 0 where
  replies : AwaitAnswer → Poll
  sleeps : ℕ → Poll

abbrev pub poll_interval : ℕ
poll_interval = 50_000

-- `min(0.05, remaining)`, for a deadline that is not reached.
abbrev pub sleep_time : ℕ → ℕ → ℕ
sleep_time deadline now =
    let remaining = deadline - now in
    if leb poll_interval remaining then poll_interval else remaining

abbrev pub poll_record : ℕ → ℕ → RunRecord → Poll
poll_record deadline now self =
    if not (is_running self.status)
    then replies (answer self true not_needed)
    else if leb deadline now
    then replies (answer self false not_attempted)
    else sleeps (sleep_time deadline now)

abbrev pub poll_read : ℕ → ℕ → Result RunRecord → Result Poll
poll_read deadline now (ok self) = ok (poll_record deadline now self)
poll_read deadline now (err e) = err e

-- What follows a turn: its answer or error, or the rest of the loop.
abbrev pub after_poll : Result Poll → Option (Result AwaitAnswer) → Option (Result AwaitAnswer)
after_poll (err e) rest = some (err e)
after_poll (ok (replies told)) rest = some (ok told)
after_poll (ok (sleeps time)) rest = rest

module _ ⦃u : Unicode⦄ where
  unfoldable pub poll : String → ℕ → ℕ → RunStore → Result Poll
  poll run_id deadline now runs = poll_read deadline now (get run_id runs).0

  -- The loop from turn `n` on, for a number of turns.
  unfoldable pub await_from :
      String → ℕ → (ℕ → ℕ) → (ℕ → RunStore) → ℕ → ℕ → Option (Result AwaitAnswer)
  unfolding poll
  await_from run_id deadline clock runs zero n = none
  await_from run_id deadline clock runs (suc turns) n =
      after_poll (poll run_id deadline (clock n) (runs n))
        (await_from run_id deadline clock runs turns (suc n))

  -- The deadline, for the reading of the clock before the loop.
  abbrev pub deadline_of : ℕ → ℕ → ℕ
  deadline_of started max_wait_seconds = started + max_wait_seconds * 1_000_000

  unfoldable pub await_terminal_execution :
      String → ℕ → ℕ → (ℕ → ℕ) → (ℕ → RunStore) → ℕ → Option (Result AwaitAnswer)
  unfolding await_from
  await_terminal_execution run_id max_wait_seconds started clock runs turns =
      await_from run_id (deadline_of started max_wait_seconds) clock runs turns 0
