-- ===== src/Examples/Runs.antt =====
-- src/hypershell_reach/runs.py on one run: the theorems at a store that has it while it runs.
use Prim.Native.Nat.{min}
use hypershell_reach.Runs.Query.{RunFilters, by_started_at, list_runs, count_runs}
use hypershell_reach.Runs.Reconcile.{reconcile_incomplete_lem}
use hypershell_reach.Runs.Pages.{AllSelected, list_runs-AllSelected}
use hypershell_reach.Base.{
  length, List, ℕ, ◌-◌, ◌≡◌, refl, String, true, false, none, some, [], ◌∷◌, leb, ◌&&◌, not,
  if◌then◌else◌,
}
use hypershell_reach.Base.Text.{strip, ◌<>◌}
use hypershell_reach.Base.Action.{◌>>=◌}
use hypershell_reach.Base.Result.{is_ok, ok, err, value_error, runtime_error}
use hypershell_reach.Base.Table.{sort_by_key, lookup, upsert}
use hypershell_reach.Runs.Record.{
  RunRecord, is_running, timeout, run_command, async, normal, Unicode, validate,
  validate_schema_fields, normalize_run_purpose, validate_result_summary,
}
use hypershell_reach.Runs.Summary.{Execution}
use hypershell_reach.Runs.Valid.{IsWellFormed, validate-IsWellFormed, validate-validate}
use hypershell_reach.Runs.Invariant.{IsValid, row_of-RowIsValid, finished-IsSound}
use hypershell_reach.Runs.Store.{
  ended_internally, internal_status, was_interrupted, RunStore, RunRequest, new_record, finished,
  row_of, serialize, is_run_id, is_execution_status,
}
use hypershell_reach.Runs.Operations.{
  finish_without_execution, reconcile_incomplete, restart_reason, reconcile_rows, running_rows, get,
  finish, cleanup,
}
use hypershell_reach.Runs.Steps.{here, next, finished_run, cleaned, Reach-IsValid}
use hypershell_reach.Runs.Finality.{outcome_is_final, SameOutcome}
use hypershell_reach.Runs.ReadBack.{finish_lem, get-finish}
use hypershell_reach.Runs.Retention.{
  cleanup_lem, remains, evidence_is_kept, may_have_mutated, IsEvidence,
}

-- A text is printable when it is printable ASCII.
instance abbrev pub ascii : Unicode
ascii = record {
  is_printable = λ c. leb 32 c && leb c 126;
  ascii_printable = λ c printable. printable;
}

abbrev pub the_id : String
the_id = "run-20260101T000000000000Z-0123456789ab"

abbrev request : RunRequest
request = record {
  operation = run_command;
  target = "web";
  timeout_seconds = 30;
  may_mutate = true;
  execution_mode = async;
  execution_class = normal;
  purpose = some "check the disk";
  result_ref = none;
  idempotent = some false;
  task_id = none;
  script_id = none;
  script_source = none;
  script_sha256 = none;
  argument_names = "b" ∷ "a" ∷ [];
}

abbrev pub going : RunRecord
going = new_record request the_id 5

going_accepted : validate going ≡ ok going
unfolding validate normalize_run_purpose strip validate_result_summary validate_schema_fields
going_accepted = refl

the_id_fits : is_run_id the_id ≡ true
unfolding is_run_id
the_id_fits = refl

abbrev execution : Execution
execution = record {
  target = "web";
  status = timeout;
  exit_code = none;
  timed_out = true;
  duration_ms = some 30_004;
  stdout = some (record { text = "ok"; bytes = 2; truncated = false });
  stderr = none;
}

abbrev store_of : RunRecord → RunStore
store_of r = record {
  runs = (the_id, row_of r) ∷ [];
  completed_days = some 30;
  read_only = false;
  reconciles = λ mode. true;
}

-- The run while it is running, and after it timed out.
abbrev pub store : RunStore
store = store_of going

going-IsWellFormed : IsWellFormed going
going-IsWellFormed = validate-IsWellFormed going going_accepted

pub store-IsValid : IsValid store
unfolding lookup
store-IsValid = record {
  rows = (row_of-RowIsValid going going-IsWellFormed refl the_id_fits, tt);
  unique = (refl, tt);
}

abbrev over : RunRecord
over = finished going execution 9

over_store-IsValid : IsValid (store_of over)
unfolding lookup finished
over_store-IsValid = record {
  rows = (
    row_of-RowIsValid over (finished-IsSound going execution 9 going-IsWellFormed).0
        (finished-IsSound going execution 9 going-IsWellFormed).1 the_id_fits,
    tt,
  );
  unique = (refl, tt);
}

pub going_found : lookup the_id store.runs ≡ some (row_of going)
unfolding lookup
going_found = refl

over_found : lookup the_id (store_of over).runs ≡ some (row_of over)
unfolding lookup
over_found = refl

validate-validate_example : validate going ≡ ok going
validate-validate_example = validate-validate going going_accepted

Reach-IsValid_example : IsValid (cleanup 99 (finish the_id execution 9 store).1).1
Reach-IsValid_example =
    Reach-IsValid {Drawn = λ run_id. Unit} store-IsValid
      (next (next here (finished_run the_id execution 9)) (cleaned 99))

over_is_over : is_running (row_of over).payload.status ≡ false
unfolding row_of serialize finished
over_is_over = refl

over_may_have_mutated : IsEvidence (row_of over)
unfolding row_of serialize finished
over_may_have_mutated = may_have_mutated refl refl

over_kept : lookup the_id (cleanup 99 (store_of over)).1.runs ≡ some (row_of over)
over_kept =
    evidence_is_kept (store_of over) 99 the_id (row_of over) over_store-IsValid over_found
      over_may_have_mutated

evidence_is_kept_example :
    lookup the_id (cleanup 9_000_000_000_000 (store_of over)).1.runs ≡ some (row_of over)
evidence_is_kept_example =
    evidence_is_kept (store_of over) 9_000_000_000_000 the_id (row_of over) over_store-IsValid
      over_found over_may_have_mutated

outcome_is_final_example : SameOutcome (row_of over).payload (row_of over).payload
outcome_is_final_example =
    outcome_is_final the_id (row_of over) over_store-IsValid over_found over_is_over
      (next here (cleaned 99)) (row_of over) over_kept

cleanup_lem_example :
    lookup the_id (cleanup 99 store).1.runs ≡ remains 30 99 (lookup the_id store.runs)
cleanup_lem_example = cleanup_lem store 30 99 the_id store-IsValid refl refl

pub going-is_running : is_running (row_of going).payload.status ≡ true
unfolding row_of serialize
going-is_running = refl

get-finish_example :
    ((finish the_id execution 9 store).0 ≡ ok (finished (row_of going).payload execution 9))
    × ((get the_id (finish the_id execution 9 store).1).0
        ≡ ok (finished (row_of going).payload execution 9))
get-finish_example =
    get-finish the_id execution 9 (row_of going) store store-IsValid refl going_found
      going-is_running refl

finish_lem_example : finish the_id execution 9 store ≡ (elim (lookup the_id store.runs) [
  | none ↦ (err (value_error ("unknown run: " <> the_id)), store)
  | some row ↦
      if not (is_running row.payload.status)
      then (err (runtime_error ("run is not running: " <> the_id)), store)
      else if not (is_execution_status execution.status)
      then (err (runtime_error ("unsupported execution status for run " <> the_id)), store)
      else (
        ok (finished row.payload execution 9),
        record store {
          runs = upsert the_id (row_of (finished row.payload execution 9)) store.runs;
        },
      )
])
finish_lem_example = finish_lem the_id execution 9 store store-IsValid refl the_id_fits

abbrev no_filters : RunFilters
no_filters = record {
  status = none;
  task_id = none;
  target = some "web";
  operation = none;
  execution_mode = none;
  execution_class = none;
  retained = none;
  ambiguous = none;
  started_after = none;
  started_before = some 9;
  ended_after = none;
  ended_before = none;
  q = some "DISK";
}

disk_found : count_runs no_filters store ≡ ok 1
unfolding count_runs row_of serialize
disk_found = refl

list_runs-AllSelected_example :
    (rs : List RunRecord) × (n : ℕ) × (list_runs no_filters by_started_at true 10 0 store ≡ ok rs)
    × (count_runs no_filters store ≡ ok n)
    × (length rs ≡ min 10 (n - 0))
    × AllSelected no_filters rs
list_runs-AllSelected_example =
    list_runs-AllSelected no_filters by_started_at true 10 0 store store-IsValid refl refl

-- The run after a restart of the server.
abbrev restarted : RunRecord
restarted =
    ended_internally (row_of going).payload (internal_status was_interrupted)
      (restart_reason (row_of going).payload.execution_mode) 50

restarted_found :
    lookup the_id (reconcile_incomplete (λ n. 50) store).1.runs ≡ some (row_of restarted)
unfolding reconcile_incomplete reconcile_rows running_rows finish_without_execution sort_by_key
    lookup upsert row_of serialize is_run_id validate normalize_run_purpose validate_result_summary
    validate_schema_fields strip ◌>>=◌
restarted_found = refl

reconcile_incomplete_lem_example :
    (is_ok (reconcile_incomplete (λ n. 50) store).0 ≡ true)
    × (is_running (row_of restarted).payload.status ≡ false)
reconcile_incomplete_lem_example =
    reconcile_incomplete_lem (λ n. 50) store the_id (row_of restarted) store-IsValid refl
      restarted_found refl
