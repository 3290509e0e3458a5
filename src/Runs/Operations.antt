-- ===== src/Runs/Operations.antt =====
-- src/hypershell_reach/runs.py: the methods of `RunStore` on the store of Runs/Store.
use hypershell_reach.Base.{
  ℕ, suc, ◌+◌, ◌*◌, String, Bool, false, not, ◌&&◌, Option, none, some, List, [], ◌∷◌, leb,
  if◌then◌else◌,
}
use hypershell_reach.Base.Text.{sorted, ◌<>◌}
use hypershell_reach.Base.Result.{value_error, runtime_error}
use hypershell_reach.Base.Action.{Action, pure, lift, gets, or_raise, raise_if, modify, ◌>>=◌, ◌>>◌}
use hypershell_reach.Base.Table.{Table, lookup, delete_all, ids_where, sort_by_key}
use hypershell_reach.Runs.Record.{
  RunStatus, RunExecutionMode, sync, async, is_running, is_terminal_cleanup, RunRecord, Unicode,
  validate,
}
use hypershell_reach.Runs.Summary.{Execution}
use hypershell_reach.Runs.Store.{
  InternalOutcome, RunRequest, RunRow, RunStore, atomic_write, check_id, ended_internally, finished,
  internal_status, is_execution_status, new_record, require_writable, write_lock, failed_locally,
  was_interrupted, outcome_unknown,
}

abbrev pub microseconds_per_day : ℕ
microseconds_per_day = 86_400_000_000

-- `retained=0 AND ambiguous=0 AND ended_at<=cutoff AND status IN (…)`, for the cutoff `days` before
-- `now`; a missing `ended_at` is NULL, and no comparison holds of it.
unfoldable pub is_expired : ℕ → ℕ → RunRow → Bool
is_expired days now row =
    not row.retained
    && (not row.ambiguous
        && (elim row.ended_at [
          | none ↦ false
          | some ended ↦ leb (ended + days * microseconds_per_day) now
        ]
            && is_terminal_cleanup row.status))

-- The body of `cleanup`, for its `completed_days`.
unfoldable pub cleanup_days : Option ℕ → ℕ → Action RunStore (List String)
cleanup_days none now = pure []
cleanup_days (some days) now = write_lock (do
  expired ← gets (λ s. ids_where (is_expired days now) s.runs)
  modify (λ s. record s { runs = delete_all expired s.runs })
  pure (sorted expired))

unfoldable pub cleanup : ℕ → Action RunStore (List String)
unfolding require_writable cleanup_days
cleanup now = do require_writable; days ← gets (λ s. s.completed_days); cleanup_days days now

abbrev pub restart_reason : RunExecutionMode → String
restart_reason async = "ExecutorRestart"
restart_reason sync = "ServerRestart"

unfoldable pub running_rows : Table RunRow → List (String × RunExecutionMode)
running_rows [] = []
running_rows ((run_id, row) ∷ t) =
    let rest = running_rows t in
    if is_running row.status then (run_id, row.execution_mode) ∷ rest else rest

module _ ⦃u : Unicode⦄ where
  unfoldable pub get : String → Action RunStore RunRecord
  unfolding check_id
  get run_id = do
    check_id run_id
    found ← gets (λ s. lookup run_id s.runs)
    row ← or_raise found (value_error ("unknown run: " <> run_id))
    lift (validate row.payload)

  unfoldable pub create : RunRequest → String → ℕ → Action RunStore RunRecord
  unfolding atomic_write write_lock
  create request run_id now = do
    self ← lift (validate (new_record request run_id now))
    write_lock (atomic_write self)
    pure self

  unfoldable pub finish : String → Execution → ℕ → Action RunStore RunRecord
  unfolding get atomic_write write_lock finished
  finish run_id execution now = write_lock (do
    self ← get run_id
    raise_if (not (is_running self.status)) (runtime_error ("run is not running: " <> run_id))
    raise_if (not (is_execution_status execution.status))
        (runtime_error ("unsupported execution status for run " <> run_id))
    let updated = finished self execution now
    atomic_write updated
    pure updated)

  unfoldable pub end_if_running : RunRecord → RunStatus → String → ℕ → Action RunStore RunRecord
  unfolding atomic_write ended_internally
  end_if_running self status error_type now = if not (is_running self.status) then pure self else do
    let updated = ended_internally self status error_type now
    atomic_write updated
    pure updated

  -- `_finish_without_execution`, which `fail_local`, `interrupt` and `mark_unknown` call.
  unfoldable pub finish_without_execution :
      String → InternalOutcome → String → ℕ → Action RunStore RunRecord
  unfolding get write_lock end_if_running
  finish_without_execution run_id outcome error_type now =
      write_lock
        (do self ← get run_id; end_if_running self (internal_status outcome) error_type now)

  abbrev pub fail_local : String → String → ℕ → Action RunStore RunRecord
  fail_local run_id = finish_without_execution run_id failed_locally

  abbrev pub interrupt : String → String → ℕ → Action RunStore RunRecord
  interrupt run_id = finish_without_execution run_id was_interrupted

  abbrev pub mark_unknown : String → String → ℕ → Action RunStore RunRecord
  mark_unknown run_id = finish_without_execution run_id outcome_unknown

  unfoldable pub set_retained : String → Bool → Action RunStore RunRecord
  unfolding get atomic_write write_lock
  set_retained run_id retained = write_lock (do
    self ← get run_id
    let updated = record self { retained = retained }
    atomic_write updated
    pure updated)

  -- The loop of `reconcile_incomplete`; the clock is read for each run that is interrupted.
  unfoldable pub reconcile_rows : List (String × RunExecutionMode) → (ℕ → ℕ) → ℕ → Action RunStore ℕ
  reconcile_rows [] clock reconciled = pure reconciled
  reconcile_rows ((run_id, mode) ∷ rows) clock reconciled = do
    ours ← gets (λ s. s.reconciles mode)
    let next = reconcile_rows rows clock (suc reconciled)
    let skip = reconcile_rows rows clock reconciled
    if ours
        then (do ended ← interrupt run_id (restart_reason mode) (clock reconciled); next)
        else skip

  -- `SELECT id,execution_mode FROM runs WHERE status='running' ORDER BY id`, and the loop.
  unfoldable pub reconcile_incomplete : (ℕ → ℕ) → Action RunStore ℕ
  unfolding require_writable
  reconcile_incomplete clock = do
    require_writable
    rows ← gets (λ s. sort_by_key (running_rows s.runs))
    reconcile_rows rows clock 0
