-- ===== src/Runs/ReadBack.antt =====
-- src/hypershell_reach/runs.py: `finish` and its kind on every branch, and what `get` reads afterwards.
use mathlib.Core.Path.{subst}
use hypershell_reach.Base.{
  ℕ, ◌≡◌, refl, sym, ap, ◌∙◌, String, true, false, not, none, some, arith, if◌then◌else◌, inl, inr,
  Option-cases,
}
use hypershell_reach.Base.Text.{str_eq_refl, ◌<>◌}
use hypershell_reach.Base.Result.{ok, err, value_error, runtime_error}
use hypershell_reach.Base.Action.{◌>>=◌}
use hypershell_reach.Base.Table.{lookup, upsert, AllRows-lookup, lookup-upsert}
use hypershell_reach.Runs.Record.{RunRecord, Unicode, validate, is_running}
use hypershell_reach.Runs.Summary.{Execution}
use hypershell_reach.Runs.Valid.{IsWellFormed, validate_of_IsWellFormed}
use hypershell_reach.Runs.Invariant.{IsValid, RowIsValid, serialize_lem, finished-IsSound}
use hypershell_reach.Runs.Store.{
  RunRow, RunStore, row_of, finished, is_run_id, is_execution_status, require_writable, check_id,
  write_lock, atomic_write,
}
use hypershell_reach.Runs.Operations.{get, finish}

module _ ⦃u : Unicode⦄ where
  -- `get` on a row whose record passes the validators.
  pub get_found :
      (run_id : String) (row : RunRow) (s : RunStore)
      → is_run_id run_id ≡ true
      → lookup run_id s.runs ≡ some row
      → validate row.payload ≡ ok row.payload
      → get run_id s ≡ (ok row.payload, s)
  unfolding get check_id ◌>>=◌
  get_found run_id row s named found accepted = ground arith

  pub atomic_write_lem :
      (r : RunRecord) (s : RunStore)
      → s.read_only ≡ false
      → is_run_id r.id ≡ true
      → atomic_write r s ≡ (ok tt, record s { runs = upsert r.id (row_of r) s.runs })
  unfolding atomic_write require_writable check_id ◌>>=◌
  atomic_write_lem r s open_store named = ground arith

  finish_found :
      (run_id : String) (execution : Execution) (now : ℕ) (row : RunRow) (s : RunStore)
      → s.read_only ≡ false
      → is_run_id run_id ≡ true
      → lookup run_id s.runs ≡ some row
      → IsWellFormed row.payload
      → row.payload.id ≡ run_id
      → finish run_id execution now s ≡ (
          if not (is_running row.payload.status)
          then (err (runtime_error ("run is not running: " <> run_id)), s)
          else if not (is_execution_status execution.status)
          then (err (runtime_error ("unsupported execution status for run " <> run_id)), s)
          else (
            ok (finished row.payload execution now),
            record s { runs = upsert run_id (row_of (finished row.payload execution now)) s.runs },
          ))
  unfolding finish write_lock require_writable finished ◌>>=◌
  finish_found run_id execution now row s open_store named found w same = ground (
    arith,
    get_found run_id row s named found (validate_of_IsWellFormed row.payload w),
    atomic_write_lem (finished row.payload execution now) s open_store,
  )

  -- `finish` on a writable store whose rows are valid, for a name that has the form of an ID, in
  -- each case: it raises and changes nothing for an unknown run, one that is not running or a
  -- status that no execution has, and else writes that run with its outcome and nothing else.
  pub finish_lem :
      (run_id : String) (execution : Execution) (now : ℕ) (s : RunStore)
      → IsValid s
      → s.read_only ≡ false
      → is_run_id run_id ≡ true
      → finish run_id execution now s ≡ (elim (lookup run_id s.runs) [
        | none ↦ (err (value_error ("unknown run: " <> run_id)), s)
        | some row ↦
            if not (is_running row.payload.status)
            then (err (runtime_error ("run is not running: " <> run_id)), s)
            else if not (is_execution_status execution.status)
            then (err (runtime_error ("unsupported execution status for run " <> run_id)), s)
            else (
              ok (finished row.payload execution now),
              record s {
                runs = upsert run_id (row_of (finished row.payload execution now)) s.runs;
              },
            )
      ])
  unfolding finish write_lock require_writable get check_id ◌>>=◌
  finish_lem run_id execution now s v open_store named =
      elim (Option-cases (lookup run_id s.runs)) [
        | inl missing ↦ ground arith
        | inr (row, found) ↦
            let valid_row = AllRows-lookup RowIsValid run_id s.runs v.rows found in
            finish_found run_id execution now row s open_store named found valid_row.well_formed
              (sym valid_row.keyed)
            ∙ rw found refl
      ]

  -- What `get` reads after a run was written.
  pub get_written :
      (r : RunRecord) (s : RunStore)
      → is_run_id r.id ≡ true
      → IsWellFormed r
      → get r.id (record s { runs = upsert r.id (row_of r) s.runs })
        ≡ (ok r, record s { runs = upsert r.id (row_of r) s.runs })
  unfolding row_of
  get_written r s named w =
      let same = serialize_lem r w in
      let stored : lookup r.id (upsert r.id (row_of r) s.runs) ≡ some (row_of r) =
        lookup-upsert r.id r.id (row_of r) s.runs ∙ rw (str_eq_refl r.id) refl in
      get_found r.id (row_of r) (record s { runs = upsert r.id (row_of r) s.runs }) named stored
        (rw same (validate_of_IsWellFormed r w))
      ∙ ap (λ x. (ok x, record s { runs = upsert r.id (row_of r) s.runs })) same

  finished_id :
      (r : RunRecord) (execution : Execution) (now : ℕ) → (finished r execution now).id ≡ r.id
  unfolding finished
  finished_id r execution now = refl

  -- In a store whose rows are valid, when a running run is finished with a status that an
  -- execution may have, `finish` returns the run with its outcome, and `get` reads it back.
  pub get-finish :
      (run_id : String) (execution : Execution) (now : ℕ) (row : RunRow) (s : RunStore)
      → IsValid s
      → s.read_only ≡ false
      → lookup run_id s.runs ≡ some row
      → is_running row.payload.status ≡ true
      → is_execution_status execution.status ≡ true
      → ((finish run_id execution now s).0 ≡ ok (finished row.payload execution now))
        × ((get run_id (finish run_id execution now s).1).0
            ≡ ok (finished row.payload execution now))
  get-finish run_id execution now row s v open_store found going accepted =
      let valid_row = AllRows-lookup RowIsValid run_id s.runs v.rows found in
      let same = sym valid_row.keyed in
      let named = valid_row.named in
      let after = finished row.payload execution now in
      let step : finish run_id execution now s
          ≡ (ok after, record s { runs = upsert run_id (row_of after) s.runs }) =
        rw (going, accepted) at
          (finish_found run_id execution now row s open_store named found valid_row.well_formed
            same) in
      (
        ap (λ x. x.0) step,
        ap (λ x. (get run_id x.1).0) step
            ∙ subst (λ k. (get k (record s { runs = upsert k (row_of after) s.runs })).0 ≡ ok after)
                (finished_id row.payload execution now ∙ same)
                (ap (λ x. x.0)
                  (get_written after s (rw (finished_id row.payload execution now, same, named))
                    (finished-IsSound row.payload execution now valid_row.well_formed).0)),
      )
