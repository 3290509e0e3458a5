-- ===== src/Server/Settling.antt =====
-- src/hypershell_reach/server.py: `_tracked_ssh_run` after `run_ssh`, and the run that it leaves.
use mathlib.Core.Path.{subst}
use mathlib.Core.Option.{some-injective}
use hypershell_reach.Base.{
  ℕ, ◌≡◌, refl, sym, ap, ◌∙◌, inl, inr, String, Bool, true, false, Option, none, some, arith, [],
  ◌∷◌, Bool-cases, Option-cases,
}
use hypershell_reach.Base.Text.{str_eq_refl}
use hypershell_reach.Base.Result.{
  Error, Result, ok, err, value_error, runtime_error, validation_error, os_error, type_name,
}
use hypershell_reach.Base.Action.{raise, ◌>>=◌}
use hypershell_reach.Base.Keeps.{Keeps, Any, Keeps-then, Keeps-pure, Keeps-raise}
use hypershell_reach.Base.Table.{lookup, lookup-upsert}
use hypershell_reach.Runs.Record.{RunRecord, Unicode, is_running, unknown}
use hypershell_reach.Runs.Printable.{is_text, printable_of_ascii}
use hypershell_reach.Runs.Invariant.{IsValid}
use hypershell_reach.Runs.Methods.{finish-Keeps, finish_without_execution-Keeps}
use hypershell_reach.Runs.Ending.{with_run, finish_without_execution_lem}
use hypershell_reach.Runs.Store.{
  RunRow, RunStore, row_of, ended_internally, outcome_unknown, failed_locally, was_interrupted,
  InternalOutcome, serialize, check_id,
}
use hypershell_reach.Runs.Operations.{get, finish_without_execution}
use hypershell_reach.Execution.Lease.{ExecutionLease, Locks, is_locked, release}
use hypershell_reach.Executor.Service.{release_lease}
use hypershell_reach.Executor.Cancel.{get_row}
use hypershell_reach.Executor.Owned.{HasOwners, HasOwners-laws}
use hypershell_reach.Tools.Model.{Python}
use hypershell_reach.Server.Model.{
  Server, SshOutcome, returned, cancelled, failed, record_ssh_outcome, mark_unowned, settle_tracked,
  end_tracked, released, conclude, finally_do,
}

is_locked_released :
    (lease : ExecutionLease) (locks : Locks) → is_locked lease (release lease locks) ≡ false
unfolding release
is_locked_released lease [] = refl
is_locked_released lease (x ∷ locks) = ground (arith, is_locked_released lease locks)

module _ ⦃u : Unicode⦄ where
  abbrev IsOpen : RunStore → Type 0
  IsOpen = HasOwners (λ k. Unit {0})

  -- The name of the exception, if another than the expected ones is raised.
  abbrev pub HasName : SshOutcome → Type 0
  HasName (failed (os_error name)) = is_text name ≡ true
  HasName _ = Unit {0}

  ended-IsOpen :
      {A : Type 0} (run_id reason : String) (outcome : InternalOutcome) (now : ℕ) (e : Error)
      → is_text reason ≡ true
      → Keeps IsOpen Any
          (finish_without_execution run_id outcome reason now >>= λ ended. raise {A = A} e)
  ended-IsOpen run_id reason outcome now e printable =
      Keeps-then
        (finish_without_execution-Keeps (HasOwners-laws (λ k. Unit {0})) run_id outcome reason now
          printable)
        (λ _ _. Keeps-raise IsOpen Any e)

  record-IsOpen :
      (run_id : String) (outcome : SshOutcome) (now : ℕ)
      → HasName outcome
      → Keeps IsOpen Any (record_ssh_outcome run_id outcome now)
  unfolding record_ssh_outcome type_name
  record-IsOpen run_id (returned execution) now named =
      Keeps-then (finish-Keeps (HasOwners-laws (λ k. Unit {0})) run_id execution now)
        (λ _ _. Keeps-pure IsOpen Any execution tt)
  record-IsOpen run_id cancelled now named =
      ended-IsOpen run_id "CancelledError" was_interrupted now _
        (printable_of_ascii "CancelledError" refl)
  record-IsOpen run_id (failed (os_error name)) now named =
      ended-IsOpen run_id name outcome_unknown now _ named
  record-IsOpen run_id (failed (value_error m)) now named =
      ended-IsOpen run_id "ValueError" failed_locally now _ (printable_of_ascii "ValueError" refl)
  record-IsOpen run_id (failed (runtime_error m)) now named =
      ended-IsOpen run_id "RuntimeError" failed_locally now _
        (printable_of_ascii "RuntimeError" refl)
  record-IsOpen run_id (failed (validation_error m)) now named =
      ended-IsOpen run_id "ValidationError" failed_locally now _
        (printable_of_ascii "ValidationError" refl)

  -- `mark_unowned` in each case of the row.
  unowned_missing :
      (run_id : String) (now : ℕ) (s : RunStore)
      → lookup run_id s.runs ≡ none
      → (mark_unowned run_id now s).1 ≡ s
  unfolding mark_unowned get check_id ◌>>=◌
  unowned_missing run_id now s missing = ground arith

  unowned_ended :
      (run_id : String) (now : ℕ) (r : RunRecord) (s : RunStore)
      → get run_id s ≡ (ok r, s)
      → is_running r.status ≡ false
      → (mark_unowned run_id now s).1 ≡ s
  unfolding mark_unowned ◌>>=◌
  unowned_ended run_id now r s read over = ground arith

  unowned_running :
      (run_id : String) (now : ℕ) (row : RunRow) (s : RunStore)
      → IsOpen s
      → lookup run_id s.runs ≡ some row
      → is_running row.payload.status ≡ true
      → (mark_unowned run_id now s).1
        ≡ with_run run_id (ended_internally row.payload unknown "ServerOwnershipLost" now) s
  unfolding mark_unowned ◌>>=◌
  unowned_running run_id now row s h found going =
      let step =
        finish_without_execution_lem run_id outcome_unknown "ServerOwnershipLost" now row s h.valid
          h.writable found in
      ground (arith, get_row run_id row s h.valid found, step)

  unowned_row_over :
      (run_id : String) (now : ℕ) (before row : RunRow) (s : RunStore)
      → lookup run_id
          (with_run run_id
            (ended_internally before.payload unknown "ServerOwnershipLost" now)
            s).runs
        ≡ some row
      → is_running row.payload.status ≡ false
  unfolding row_of serialize ended_internally
  unowned_row_over run_id now before row s found =
      let r = ended_internally before.payload unknown "ServerOwnershipLost" now in
      let written : some (row_of r) ≡ some row =
        rw (lookup-upsert run_id run_id (row_of r) s.runs, str_eq_refl run_id) at found in
      subst (λ (x : RunRow). is_running x.payload.status ≡ false) (some-injective _ _ written) refl

  unowned_is_over :
      (run_id : String) (now : ℕ) (s : RunStore) (row : RunRow)
      → IsOpen s
      → lookup run_id (mark_unowned run_id now s).1.runs ≡ some row
      → is_running row.payload.status ≡ false
  unowned_is_over run_id now s row h found = elim (Option-cases (lookup run_id s.runs)) [
    | inl missing ↦
        let never : none ≡ some row =
          sym missing
          ∙ ap (λ (t : RunStore). lookup run_id t.runs) (sym (unowned_missing run_id now s missing))
          ∙ found in
        cc
    | inr (before, there) ↦ elim (Bool-cases (is_running before.payload.status)) [
      | inl going ↦ unowned_row_over run_id now before row s (
          ap (λ (t : RunStore). lookup run_id t.runs)
            (sym (unowned_running run_id now before s h there going))
          ∙ found)
      | inr over ↦
          let same : before ≡ row = some-injective _ _ (
            sym there
            ∙ ap (λ (t : RunStore). lookup run_id t.runs)
                (sym (
                  unowned_ended run_id now before.payload s (get_row run_id before s h.valid there)
                    over))
            ∙ found) in
          subst (λ (x : RunRow). is_running x.payload.status ≡ false) same over
    ]
  ]

  conclude_state :
      {S A : Type 0} (r : Result A) (out : Result (Unit {0}) × S) → (conclude r out).1 ≡ out.1
  conclude_state r (ok done, t) = refl
  conclude_state r (err e, t) = refl

  settled_is_over :
      (run_id : String) (outcome : SshOutcome) (now : ℕ) (s : RunStore) (row : RunRow)
      → IsOpen s
      → HasName outcome
      → lookup run_id (settle_tracked run_id outcome now s).1.runs ≡ some row
      → is_running row.payload.status ≡ false
  unfolding settle_tracked finally_do
  settled_is_over run_id outcome now s row h named found =
      let after = (record_ssh_outcome run_id outcome now s).1 in
      unowned_is_over run_id now after row ((record-IsOpen run_id outcome now named).at s h) (
        ap (λ (t : RunStore). lookup run_id t.runs)
          (sym (
            conclude_state (record_ssh_outcome run_id outcome now s).0
              (mark_unowned run_id now after)))
        ∙ found)

  abbrev pub is_held : Option ExecutionLease → Locks → Bool
  is_held none locks = false
  is_held (some lease) locks = is_locked lease locks

  is_held_released :
      (lease : Option ExecutionLease) (locks : Locks)
      → is_held lease (release_lease lease locks) ≡ false
  is_held_released none locks = refl
  is_held_released (some lease) locks = is_locked_released lease locks

  -- However `run_ssh` ends, a tool that awaited it leaves its run not running and its slot free:
  -- with a result, also one whose status no execution has, with an error whose class has a
  -- printable name, or cancelled. The store of runs is writable and its rows are valid.
  pub tracked_run_is_over :
      ⦃p : Python⦄
      → (run_id : String) (lease : Option ExecutionLease) (outcome : SshOutcome) (now : ℕ)
        (self : Server) (row : RunRow)
      → IsValid self.executor.store
      → self.executor.store.read_only ≡ false
      → HasName outcome
      → lookup run_id (end_tracked run_id lease outcome now self).1.executor.store.runs ≡ some row
      → (is_running row.payload.status ≡ false)
        × (is_held lease (end_tracked run_id lease outcome now self).1.executor.locks ≡ false)
  unfolding end_tracked released
  tracked_run_is_over run_id lease outcome now self row v open_store named found = (
    settled_is_over run_id outcome now self.executor.store row
        (record { valid = v; writable = open_store; owned = λ k r f going. tt }) named found,
    is_held_released lease self.executor.locks,
  )
