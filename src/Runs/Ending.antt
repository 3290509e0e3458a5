-- ===== src/Runs/Ending.antt =====
-- src/hypershell_reach/runs.py: `fail_local`, `interrupt` and `mark_unknown` on every branch.
use mathlib.Core.Path.{subst}
use hypershell_reach.Base.{
  ℕ, ◌≡◌, refl, sym, ◌∙◌, String, true, false, not, some, arith, if◌then◌else◌,
}
use hypershell_reach.Base.Result.{ok}
use hypershell_reach.Base.Action.{◌>>=◌}
use hypershell_reach.Base.Table.{lookup, upsert, AllRows-lookup}
use hypershell_reach.Runs.Record.{RunRecord, RunStatus, Unicode, is_running}
use hypershell_reach.Runs.Printable.{is_text}
use hypershell_reach.Runs.Valid.{validate_of_IsWellFormed}
use hypershell_reach.Runs.Invariant.{IsValid, RowIsValid, ended_internally-IsSound}
use hypershell_reach.Runs.ReadBack.{get_found, get_written, atomic_write_lem}
use hypershell_reach.Runs.Store.{
  RunRow, RunStore, row_of, is_run_id, ended_internally, InternalOutcome, internal_status,
  require_writable, write_lock,
}
use hypershell_reach.Runs.Operations.{get, end_if_running, finish_without_execution}

module _ ⦃u : Unicode⦄ where
  ended_id :
      (r : RunRecord) (status : RunStatus) (error_type : String) (now : ℕ)
      → (ended_internally r status error_type now).id ≡ r.id
  unfolding ended_internally
  ended_id r status error_type now = refl

  abbrev pub with_run : String → RunRecord → RunStore → RunStore
  with_run run_id r s = record s { runs = upsert run_id (row_of r) s.runs }

  -- On a run that a writable store with valid rows has, `fail_local`, `interrupt` and
  -- `mark_unknown` return its record as it is if the run has ended, and else record their outcome.
  pub finish_without_execution_lem :
      (run_id : String) (outcome : InternalOutcome) (error_type : String) (now : ℕ) (row : RunRow)
      (s : RunStore)
      → IsValid s
      → s.read_only ≡ false
      → lookup run_id s.runs ≡ some row
      → finish_without_execution run_id outcome error_type now s ≡ (
          if not (is_running row.payload.status) then (ok row.payload, s) else (
            ok (ended_internally row.payload (internal_status outcome) error_type now),
            with_run run_id
                (ended_internally row.payload (internal_status outcome) error_type now)
                s,
          ))
  unfolding finish_without_execution end_if_running write_lock require_writable ended_internally
      ◌>>=◌
  finish_without_execution_lem run_id outcome error_type now row s v open_store found =
      let w = AllRows-lookup RowIsValid run_id s.runs v.rows found in
      let same = sym w.keyed in
      let named = w.named in
      ground (
        arith,
        get_found run_id row s w.named found (validate_of_IsWellFormed row.payload w.well_formed),
        atomic_write_lem (ended_internally row.payload (internal_status outcome) error_type now) s
            open_store,
      )

  -- `get` afterwards, for a run that was running.
  pub get-ended :
      (run_id : String) (status : RunStatus) (error_type : String) (now : ℕ) (row : RunRow)
      (s : RunStore)
      → IsValid s
      → lookup run_id s.runs ≡ some row
      → is_text error_type ≡ true
      → get run_id (with_run run_id (ended_internally row.payload status error_type now) s) ≡ (
        ok (ended_internally row.payload status error_type now),
        with_run run_id (ended_internally row.payload status error_type now) s,
      )
  get-ended run_id status error_type now row s v found printable =
      let w = AllRows-lookup RowIsValid run_id s.runs v.rows found in
      let r = ended_internally row.payload status error_type now in
      let same = ended_id row.payload status error_type now ∙ sym w.keyed in
      subst (λ k. get k (with_run k r s) ≡ (ok r, with_run k r s)) same
        (get_written r s (subst (λ k. is_run_id k ≡ true) (sym same) w.named)
          (ended_internally-IsSound row.payload status error_type now printable w.well_formed).0)
