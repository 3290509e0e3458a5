-- ===== src/Runs/Interrupting.antt =====
-- src/hypershell_reach/runs.py: `interrupt`, as `reconcile_incomplete` calls it.
use mathlib.Core.Path.{subst}
use hypershell_reach.Base.{
  ℕ, ◌≡◌, refl, sym, ap, ◌∙◌, inl, inr, String, true, false, none, some, List, [], ◌∷◌, arith,
  Bool-cases, is_some, Bool, Option,
}
use hypershell_reach.Base.Text.{str_eq, str_eq_iff, str_eq_refl}
use hypershell_reach.Base.Result.{is_ok, Result}
use hypershell_reach.Base.Table.{Table, lookup, AllRows, HasUniqueKeys, lookup-upsert}
use hypershell_reach.Runs.Record.{Unicode, RunExecutionMode, is_running}
use hypershell_reach.Runs.Invariant.{IsValid, IsValid-laws}
use hypershell_reach.Runs.Methods.{restart_reason_text, finish_without_execution-Keeps}
use hypershell_reach.Runs.Ending.{with_run, finish_without_execution_lem}
use hypershell_reach.Runs.Store.{
  RunRow, RunStore, row_of, serialize, ended_internally, internal_status, was_interrupted,
}
use hypershell_reach.Runs.Operations.{interrupt, restart_reason, running_rows}

pub found_of : {A : Type 0} (o : Option A) → is_some o ≡ true → (a : A) × (o ≡ some a)
found_of none h = ground arith
found_of (some a) h = (a, refl)

not_found_running :
    (k : String) (t : Table RunRow) → lookup k t ≡ none → lookup k (running_rows t) ≡ none
unfolding running_rows lookup
not_found_running k [] e = refl
not_found_running k ((j, row) ∷ t) e = ground (arith, not_found_running k t)

pub running_rows-HasUniqueKeys :
    (t : Table RunRow) → HasUniqueKeys t → HasUniqueKeys (running_rows t)
unfolding running_rows lookup
running_rows-HasUniqueKeys [] u = tt
running_rows-HasUniqueKeys ((j, row) ∷ t) u =
    ground (arith, running_rows-HasUniqueKeys t u.1, not_found_running j t u.0)

pub lookup-running_rows :
    (k : String) (row : RunRow) (t : Table RunRow)
    → HasUniqueKeys t
    → lookup k t ≡ some row
    → is_running row.status ≡ true
    → lookup k (running_rows t) ≡ some row.execution_mode
unfolding running_rows lookup
lookup-running_rows k row [] u e going = ground arith
lookup-running_rows k row ((j, other) ∷ t) u e going =
    ground (arith, lookup-running_rows k row t u.1, not_found_running k t)

module _ ⦃u : Unicode⦄ where
  -- What `interrupt` does to a store that has the run.
  pub record IsInterrupted (run_id : String) (s t : RunStore) : Type 0 where
    pub others : (k : String) → str_eq run_id k ≡ false → lookup k t.runs ≡ lookup k s.runs
    pub found : is_some (lookup run_id t.runs) ≡ true
    pub ended :
        (row : RunRow) → lookup run_id t.runs ≡ some row → is_running row.payload.status ≡ false
    pub same_mode : t.read_only ≡ s.read_only
    pub same_reconciles : t.reconciles ≡ s.reconciles

  written_IsInterrupted :
      (run_id error_type : String) (now : ℕ) (row : RunRow) (s : RunStore)
      → IsInterrupted run_id s (
          with_run run_id
            (ended_internally row.payload (internal_status was_interrupted) error_type now)
            s)
  unfolding row_of serialize ended_internally
  written_IsInterrupted run_id error_type now row s =
      let r = ended_internally row.payload (internal_status was_interrupted) error_type now in
      let look = λ (k : String). lookup-upsert run_id k (row_of r) s.runs in
      record {
        others = λ k other. ground (arith, look k);
        found = ground (arith, look run_id, str_eq_refl run_id);
        ended = λ row2 e. ground (arith, look run_id, str_eq_refl run_id);
        same_mode = refl;
        same_reconciles = refl;
      }

  pub interrupt_lem :
      (run_id error_type : String) (now : ℕ) (row : RunRow) (s : RunStore)
      → IsValid s
      → s.read_only ≡ false
      → lookup run_id s.runs ≡ some row
      → (is_ok (interrupt run_id error_type now s).0 ≡ true)
        × IsInterrupted run_id s (interrupt run_id error_type now s).1
  interrupt_lem run_id error_type now row s v open_store found =
      let does =
        finish_without_execution_lem run_id was_interrupted error_type now row s v open_store
          found in
      elim (Bool-cases (is_running row.payload.status)) [
        | inl going ↦ rw (does, going) (refl, written_IsInterrupted run_id error_type now row s)
        | inr over ↦
            rw (does, over)
              (
                refl,
                record {
                  others = λ k other. refl;
                  found = rw found refl;
                  ended = λ row2 e. ground arith;
                  same_mode = refl;
                  same_reconciles = refl;
                },
              )
      ]

  unfoldable pub IsKnown : RunStore → String → RunExecutionMode → Type 0
  IsKnown s run_id mode = is_some (lookup run_id s.runs) ≡ true

  -- The rows that the loop has yet to do hold every run of a reconciled mode that is running.
  pub record IsPending (rows : List (String × RunExecutionMode)) (s : RunStore) : Type 0 where
    pub valid : IsValid s
    pub writable : s.read_only ≡ false
    pub known : AllRows (IsKnown s) rows
    pub listed :
        (k : String) (row : RunRow)
        → lookup k s.runs ≡ some row
        → is_running row.payload.status ≡ true
        → s.reconciles row.payload.execution_mode ≡ true
        → lookup k rows ≡ some row.payload.execution_mode

  AllRows-IsKnown :
      (run_id : String) (s t : RunStore) (rows : List (String × RunExecutionMode))
      → IsInterrupted run_id s t
      → AllRows (IsKnown s) rows
      → AllRows (IsKnown t) rows
  unfolding IsKnown
  AllRows-IsKnown run_id s t [] i h = tt
  AllRows-IsKnown run_id s t ((k, mode) ∷ rows) i h = (
    elim (Bool-cases (str_eq run_id k)) [
      | inl same ↦
          subst (λ j. is_some (lookup j t.runs) ≡ true) ((str_eq_iff run_id k).0 same) i.found
      | inr other ↦ rw (i.others k other) h.0
    ],
    AllRows-IsKnown run_id s t rows i h.1,
  )

  pub interrupt-IsPending :
      (run_id : String) (mode : RunExecutionMode) (rows : List (String × RunExecutionMode))
      (s t : RunStore)
      → IsPending ((run_id, mode) ∷ rows) s
      → IsValid t
      → IsInterrupted run_id s t
      → IsPending rows t
  unfolding lookup
  interrupt-IsPending run_id mode rows s t p v i = record {
    valid = v;
    writable = i.same_mode ∙ p.writable;
    known = AllRows-IsKnown run_id s t rows i p.known.1;
    listed = λ k row found going ours. elim (Bool-cases (str_eq run_id k)) [
      | inl same ↦ let over = i.ended row (rw ((str_eq_iff run_id k).0 same) found) in ground arith
      | inr other ↦
          let before = sym (i.others k other) ∙ found in
          let ours_before = sym (ap (λ f. f row.payload.execution_mode) i.same_reconciles) ∙ ours in
          let first = p.listed k row before going ours_before in ground arith
    ];
  }

  pub IsPending-skip :
      (run_id : String) (mode : RunExecutionMode) (rows : List (String × RunExecutionMode))
      (s : RunStore)
      → IsPending ((run_id, mode) ∷ rows) s
      → s.reconciles mode ≡ false
      → IsPending rows s
  unfolding lookup
  IsPending-skip run_id mode rows s p theirs = record {
    valid = p.valid;
    writable = p.writable;
    known = p.known.1;
    listed = λ k row found going ours. let first = p.listed k row found going ours in ground arith;
  }

  pub interrupt-IsValid :
      (run_id : String) (mode : RunExecutionMode) (now : ℕ) (s : RunStore)
      → IsValid s
      → IsValid (interrupt run_id (restart_reason mode) now s).1
  interrupt-IsValid run_id mode now s v =
      (finish_without_execution-Keeps IsValid-laws run_id was_interrupted (restart_reason mode) now
          (restart_reason_text mode)).at
        s v

  -- What `reconcile_incomplete` leaves: it returned, and its store has nothing pending.
  unfoldable pub IsReconciled : (RunExecutionMode → Bool) → Result ℕ × RunStore → Type 0
  IsReconciled ours (r, t) = (is_ok r ≡ true) × (t.reconciles ≡ ours) × IsPending [] t
