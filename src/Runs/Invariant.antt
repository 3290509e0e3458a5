-- ===== src/Runs/Invariant.antt =====
-- src/hypershell_reach/runs.py: what holds of every row of the table `runs` after any method.
use mathlib.Core.Path.{subst}
use hypershell_reach.Base.{
  ℕ, ◌≡◌, refl, sym, ap, ◌∙◌, String, Bool, true, ◌&&◌, some, List, arith, leb, if◌then◌else◌, ◌≤◌,
  Bool-cases, inl, inr,
}
use hypershell_reach.Base.Text.{str_len, str_take, str_all-take, str_len-take}
use hypershell_reach.Base.Result.{ok, ok-injective}
use hypershell_reach.Base.Table.{
  upsert, delete_all, AllRows, AllRows-upsert, AllRows-lookup, AllRows-delete_all, HasUniqueKeys,
  upsert-HasUniqueKeys, delete_all-HasUniqueKeys,
}
use hypershell_reach.Runs.Record.{
  RunRecord, RunStatus, Unicode, validate, validate_fields, validate_schema_fields,
  validate_result_summary, is_ambiguous,
}
use hypershell_reach.Runs.Summary.{
  Execution, str_len-execution_result_summary, str_len-internal_result_summary,
}
use hypershell_reach.Runs.Printable.{
  is_text, IsLine, IsLine-execution_result_summary, IsLine-internal_result_summary,
}
use hypershell_reach.Runs.Valid.{
  IsWellFormed, validate_of_IsWellFormed, validate-IsWellFormed, summary_of_line,
}
use hypershell_reach.Runs.Methods.{MethodLaws}
use hypershell_reach.Runs.Store.{
  RunRow, RunStore, RunRequest, serialize, row_of, new_record, finished, ended_internally,
  is_run_id,
}

module _ ⦃u : Unicode⦄ where
  -- A row stands under its record's ID; its columns are those of the record; the record passes the
  -- validators; and it is ambiguous just when a mutating run ended without a trustworthy result.
  pub record RowIsValid (run_id : String) (row : RunRow) : Type 0 where
    pub keyed : run_id ≡ row.payload.id
    pub named : is_run_id run_id ≡ true
    pub columns : row ≡ row_of row.payload
    pub well_formed : IsWellFormed row.payload
    pub ambiguity :
        row.payload.ambiguous ≡ (row.payload.may_mutate && is_ambiguous row.payload.status)

  pub record IsValid (s : RunStore) : Type 0 where
    pub rows : AllRows RowIsValid s.runs
    pub unique : HasUniqueKeys s.runs

  -- Serialising drops nothing of a record that passes the validators.
  pub serialize_lem : (r : RunRecord) → IsWellFormed r → serialize r ≡ r
  unfolding serialize validate_schema_fields
  serialize_lem r w = ground arith

  pub row_of-RowIsValid :
      (r : RunRecord)
      → IsWellFormed r
      → r.ambiguous ≡ (r.may_mutate && is_ambiguous r.status)
      → is_run_id r.id ≡ true
      → RowIsValid r.id (row_of r)
  unfolding row_of
  row_of-RowIsValid r w a named =
      let same = serialize_lem r w in
      record {
        keyed = rw same refl;
        named = named;
        columns = ap row_of (sym same);
        well_formed = subst IsWellFormed (sym same) w;
        ambiguity = rw same a;
      }

  -- What `get` returns can be written again.
  abbrev pub IsSound : RunRecord → Type 0
  IsSound r = IsWellFormed r × (r.ambiguous ≡ (r.may_mutate && is_ambiguous r.status))

  write-IsValid :
      (r : RunRecord)
      → IsSound r
      → is_run_id r.id ≡ true
      → (s : RunStore) → IsValid s
      → IsValid (record s { runs = upsert r.id (row_of r) s.runs })
  write-IsValid r w named s v = record {
    rows =
        AllRows-upsert RowIsValid r.id (row_of r) s.runs (row_of-RowIsValid r w.0 w.1 named) v.rows;
    unique = upsert-HasUniqueKeys r.id (row_of r) s.runs v.unique;
  }

  IsSound-of_row :
      {run_id : String} {row : RunRow} {r : RunRecord}
      → RowIsValid run_id row
      → validate row.payload ≡ ok r
      → IsSound r
  IsSound-of_row {row = row} v same =
      subst IsSound (ok-injective (sym (validate_of_IsWellFormed row.payload v.well_formed) ∙ same))
        (v.well_formed, v.ambiguity)

  -- The validators leave the outcome of a record alone.
  validate_keeps_outcome :
      (request : RunRequest) (run_id : String) (now : ℕ) {r : RunRecord}
      → validate (new_record request run_id now) ≡ ok r
      → r.ambiguous ≡ (r.may_mutate && is_ambiguous r.status)
  unfolding validate validate_fields
  validate_keeps_outcome request run_id now h = ground arith

  -- A summary that replaces the old one only where the schema has summaries.
  new_summary :
      (r : RunRecord) (line : String)
      → IsLine line
      → str_len line ≤ 512
      → IsWellFormed r
      → validate_result_summary (if leb 2 r.schema_version then some line else r.result_summary)
        ≡ ok (if leb 2 r.schema_version then some line else r.result_summary)
  new_summary r line filled short w = elim (Bool-cases (leb 2 r.schema_version)) [
    | inl modern ↦ rw modern (summary_of_line line filled short)
    | inr old ↦ rw old w.summary_fixed
  ]

  new_schema :
      (r r' : RunRecord) (line : String)
      → validate_schema_fields r ≡ ok tt
      → r'.schema_version ≡ r.schema_version
      → r'.purpose ≡ r.purpose
      → r'.execution_mode ≡ r.execution_mode
      → r'.result_ref ≡ r.result_ref
      → r'.execution_class ≡ r.execution_class
      → r'.result_summary ≡ (if leb 2 r.schema_version then some line else r.result_summary)
      → validate_schema_fields r' ≡ ok tt
  unfolding validate_schema_fields
  new_schema r r' line h e1 e2 e3 e4 e5 e6 = ground arith

  pub finished-IsSound :
      (r : RunRecord) (execution : Execution) (now : ℕ)
      → IsWellFormed r
      → IsSound (finished r execution now)
  unfolding finished
  finished-IsSound r execution now w = (
    record {
      version = w.version;
      purpose_fixed = w.purpose_fixed;
      summary_fixed =
          new_summary r _ (IsLine-execution_result_summary r execution)
            (str_len-execution_result_summary r execution) w;
      ref_fixed = w.ref_fixed;
      timeout_in_range = w.timeout_in_range;
      error_type_fits = w.error_type_fits;
      schema_fixed = new_schema r _ _ w.schema_fixed refl refl refl refl refl refl;
    },
    refl,
  )

  pub ended_internally-IsSound :
      (r : RunRecord) (status : RunStatus) (error_type : String) (now : ℕ)
      → is_text error_type ≡ true
      → IsWellFormed r
      → IsSound (ended_internally r status error_type now)
  unfolding ended_internally
  ended_internally-IsSound r status error_type now printable w = (
    record {
      version = w.version;
      purpose_fixed = w.purpose_fixed;
      summary_fixed =
          new_summary r _
            (IsLine-internal_result_summary r status (str_take 200 error_type)
              (str_all-take u.is_printable 200 error_type printable))
            (str_len-internal_result_summary r status (str_take 200 error_type)) w;
      ref_fixed = w.ref_fixed;
      timeout_in_range = w.timeout_in_range;
      error_type_fits = ground (arith, str_len-take 200 error_type);
      schema_fixed = new_schema r _ _ w.schema_fixed refl refl refl refl refl refl;
    },
    refl,
  )

  retained-IsSound :
      (r : RunRecord) (retained : Bool) → IsSound r → IsSound (record r { retained = retained })
  unfolding validate_schema_fields
  retained-IsSound r retained (w, a) = (
    record {
      version = w.version;
      purpose_fixed = w.purpose_fixed;
      summary_fixed = w.summary_fixed;
      ref_fixed = w.ref_fixed;
      timeout_in_range = w.timeout_in_range;
      error_type_fits = w.error_type_fits;
      schema_fixed = w.schema_fixed;
    },
    a,
  )

  deleted-IsValid :
      (ks : List String) (s : RunStore)
      → IsValid s
      → IsValid (record s { runs = delete_all ks s.runs })
  deleted-IsValid ks s v = record {
    rows = AllRows-delete_all RowIsValid ks s.runs v.rows;
    unique = delete_all-HasUniqueKeys ks s.runs v.unique;
  }

  pub IsValid-laws : MethodLaws IsValid IsSound
  IsValid-laws = record {
    written = write-IsValid;
    read = λ s v run_id row r found same.
        IsSound-of_row (AllRows-lookup RowIsValid run_id s.runs v.rows found) same;
    deleted = deleted-IsValid;
    after_finish = λ r execution now sound going. finished-IsSound r execution now sound.0;
    after_end = λ r status error_type now sound going printable.
        ended_internally-IsSound r status error_type now printable sound.0;
    after_retain = retained-IsSound;
  }

  pub created-IsSound :
      (request : RunRequest) (run_id : String) (now : ℕ) (r : RunRecord)
      → validate (new_record request run_id now) ≡ ok r
      → IsSound r
  created-IsSound request run_id now r made =
      (validate-IsWellFormed _ made, validate_keeps_outcome request run_id now made)
