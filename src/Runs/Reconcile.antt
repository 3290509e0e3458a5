-- ===== src/Runs/Reconcile.antt =====
-- src/hypershell_reach/runs.py: `reconcile_incomplete`, which the start of a server calls.
use mathlib.Core.Path.{subst}
use hypershell_reach.Base.{
  ℕ, suc, ◌≡◌, refl, sym, ap, ◌∙◌, inl, inr, String, true, false, some, List, [], ◌∷◌, arith,
  Bool-cases, is_some, Bool,
}
use hypershell_reach.Base.Text.{str_eq_refl}
use hypershell_reach.Base.Result.{is_ok, ok, err, Result}
use hypershell_reach.Base.Action.{Action, follow, ◌>>=◌}
use hypershell_reach.Base.Table.{Table, lookup, sort_by_key, AllRows, AllRows-lookup}
use hypershell_reach.Base.TableOrder.{AllRows-sort_by_key, lookup-sort_by_key}
use hypershell_reach.Runs.Record.{Unicode, RunExecutionMode, is_running}
use hypershell_reach.Runs.Invariant.{IsValid, RowIsValid}
use hypershell_reach.Runs.Store.{RunRow, RunStore, row_of, require_writable}
use hypershell_reach.Runs.Operations.{
  interrupt, restart_reason, running_rows, reconcile_rows, reconcile_incomplete,
}
use hypershell_reach.Runs.Interrupting.{
  IsPending, found_of, running_rows-HasUniqueKeys, lookup-running_rows, interrupt_lem, IsKnown,
  interrupt-IsPending, IsPending-skip, interrupt-IsValid, IsReconciled,
}

module _ ⦃u : Unicode⦄ where
  and_then :
      {A : Type 0} (ours : RunExecutionMode → Bool) (r : Result A) (t : RunStore)
      (rest : Action RunStore ℕ)
      → is_ok r ≡ true
      → IsReconciled ours (rest t)
      → IsReconciled ours (follow (r, t) (λ _. rest))
  and_then ours (ok a) t rest returned h = h
  and_then ours (err e) t rest returned h = ground arith

  reconcile_rows-IsReconciled :
      (rows : List (String × RunExecutionMode)) (clock : ℕ → ℕ) (n : ℕ) (s : RunStore)
      → IsPending rows s
      → IsReconciled s.reconciles (reconcile_rows rows clock n s)
  unfolding reconcile_rows IsReconciled IsKnown ◌>>=◌
  reconcile_rows-IsReconciled [] clock n s p = (refl, refl, p)
  reconcile_rows-IsReconciled ((run_id, mode) ∷ rows) clock n s p =
      elim (Bool-cases (s.reconciles mode)) [
        | inl ours ↦
            let reason = restart_reason mode in
            let (row, found) = found_of (lookup run_id s.runs) p.known.0 in
            let i = interrupt_lem run_id reason (clock n) row s p.valid p.writable found in
            let t = (interrupt run_id reason (clock n) s).1 in
            let v = interrupt-IsValid run_id mode (clock n) s p.valid in
            let rest =
              reconcile_rows-IsReconciled rows clock (suc n) t
                (interrupt-IsPending run_id mode rows s t p v i.1) in
            rw ours (
              and_then s.reconciles (interrupt run_id reason (clock n) s).0 t
                (reconcile_rows rows clock (suc n)) i.0
                (subst (λ f. IsReconciled f (reconcile_rows rows clock (suc n) t))
                  i.1.same_reconciles rest))
        | inr theirs ↦ rw theirs (
            reconcile_rows-IsReconciled rows clock n s (IsPending-skip run_id mode rows s p theirs))
      ]

  running_rows-IsKnown :
      (s : RunStore) (t : Table RunRow)
      → ((k : String) → is_some (lookup k t) ≡ true → is_some (lookup k s.runs) ≡ true)
      → AllRows (IsKnown s) (running_rows t)
  unfolding running_rows lookup IsKnown
  running_rows-IsKnown s [] held = tt
  running_rows-IsKnown s ((k, row) ∷ t) held =
      let here = held k (rw (str_eq_refl k) refl) in
      let rest = running_rows-IsKnown s t (λ j later. held j (ground arith)) in ground arith

  running_rows-IsPending :
      (s : RunStore)
      → IsValid s
      → s.read_only ≡ false
      → IsPending (sort_by_key (running_rows s.runs)) s
  unfolding row_of
  running_rows-IsPending s v open_store = record {
    valid = v;
    writable = open_store;
    known =
        AllRows-sort_by_key (IsKnown s) (running_rows s.runs)
          (running_rows-IsKnown s s.runs (λ k h. h));
    listed = λ k row found going ours.
        let w = AllRows-lookup RowIsValid k s.runs v.rows found in
        let column : row.status ≡ row.payload.status = ap (λ (x : RunRow). x.status) w.columns in
        let mode : row.execution_mode ≡ row.payload.execution_mode =
          ap (λ (x : RunRow). x.execution_mode) w.columns in
        lookup-sort_by_key k (running_rows s.runs) (running_rows-HasUniqueKeys s.runs v.unique)
        ∙ lookup-running_rows k row s.runs v.unique found (ap is_running column ∙ going)
        ∙ ap some mode;
  }

  reconcile_incomplete_open :
      (clock : ℕ → ℕ) (s : RunStore)
      → s.read_only ≡ false
      → reconcile_incomplete clock s ≡ reconcile_rows (sort_by_key (running_rows s.runs)) clock 0 s
  unfolding reconcile_incomplete require_writable ◌>>=◌
  reconcile_incomplete_open clock s open_store = ground arith

  reconcile_incomplete-IsReconciled :
      (clock : ℕ → ℕ) (s : RunStore)
      → IsValid s
      → s.read_only ≡ false
      → IsReconciled s.reconciles (reconcile_incomplete clock s)
  reconcile_incomplete-IsReconciled clock s v open_store =
      subst (IsReconciled s.reconciles) (sym (reconcile_incomplete_open clock s open_store)) (
        reconcile_rows-IsReconciled (sort_by_key (running_rows s.runs)) clock 0 s
          (running_rows-IsPending s v open_store))

  -- On a writable store with valid rows, `reconcile_incomplete` returns, and afterwards no run of
  -- an execution mode that the store reconciles is still running.
  pub reconcile_incomplete_lem :
      (clock : ℕ → ℕ) (s : RunStore) (run_id : String) (row : RunRow)
      → IsValid s
      → s.read_only ≡ false
      → lookup run_id (reconcile_incomplete clock s).1.runs ≡ some row
      → s.reconciles row.payload.execution_mode ≡ true
      → (is_ok (reconcile_incomplete clock s).0 ≡ true) × (is_running row.payload.status ≡ false)
  unfolding IsReconciled lookup
  reconcile_incomplete_lem clock s run_id row v open_store found ours =
      let (returned, same, none_left) = reconcile_incomplete-IsReconciled clock s v open_store in
      (
        returned,
        elim (Bool-cases (is_running row.payload.status)) [
          | inl going ↦
              let left =
                none_left.listed run_id row found going
                  (ap (λ f. f row.payload.execution_mode) same ∙ ours) in
              ground arith
          | inr over ↦ over
        ],
      )
