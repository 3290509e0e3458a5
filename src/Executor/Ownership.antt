-- ===== src/Executor/Ownership.antt =====
-- src/hypershell_reach/executor.py: the owners of runs over every turn of the event loop.
use mathlib.Core.Path.{subst}
use mathlib.Core.Option.{some-injective}
use hypershell_reach.Base.{
  ℕ, ◌≡◌, refl, sym, ap, ◌∙◌, inl, inr, String, Bool, true, false, none, some, Bool-cases,
  Option-cases, arith,
}
use hypershell_reach.Base.Text.{str_eq, str_eq_iff, str_eq_refl}
use hypershell_reach.Base.Result.{Result, ok, err}
use hypershell_reach.Base.Action.{◌>>=◌}
use hypershell_reach.Base.Table.{lookup, lookup-upsert, lookup-delete}
use hypershell_reach.Config.Model.{enabled_target}
use hypershell_reach.Runs.Record.{Unicode, RunRecord, is_running, is_sync, unknown}
use hypershell_reach.Runs.Printable.{is_text, printable_of_ascii}
use hypershell_reach.Runs.Invariant.{IsValid}
use hypershell_reach.Runs.Store.{
  RunRow, RunStore, was_interrupted, ended_internally, row_of, serialize, check_id,
}
use hypershell_reach.Runs.Operations.{get, interrupt}
use hypershell_reach.Runs.Ending.{with_run}
use hypershell_reach.Executor.Service.{
  Executor, Phase, waiting, executing, ended, with_phase, submit, complete, cancel_reason,
  deliver_cancel, mark_lost, reconcile_completed_task, cancel, cancel_run, use_store,
  record_outcome, stop, stop_store,
}
use hypershell_reach.Executor.Cancel.{get_row, mark_lost_ended, mark_lost_running}
use hypershell_reach.Executor.Leases.{upsert_keeps}
use hypershell_reach.Executor.Limit.{cancel_all_keeps}
use hypershell_reach.Executor.Owned.{HasOwners, mark_lost-Keeps}
use hypershell_reach.Executor.Orphans.{
  HasTask, more_tasks, use_store_keeps, HasReasons, HasNoOrphans, more_owners, interrupt_keeps,
  outcome_keeps, submit_to_no_orphans, fewer_reasons, cancel_task_no_orphans,
}
use hypershell_reach.Executor.Steps.{
  Step, submitted, began, completed, cancel_requested, cancel_delivered, reaped, stopping, stopped,
  stored_elsewhere, locked_elsewhere, released_elsewhere, Reach, here, next,
}

module _ ⦃u : Unicode⦄ where
  cancel_run_no_orphans :
      (run_id : String) (now : ℕ) (read : Result RunRecord) (store : RunStore) (self : Executor)
      → HasNoOrphans self
      → HasNoOrphans (cancel_run run_id now (read, store) self).1
  cancel_run_no_orphans run_id now (err e) store self h = h
  cancel_run_no_orphans run_id now (ok current) store self h =
      elim (Bool-cases (is_sync current.execution_mode)) [
        | inl synchronous ↦ rw synchronous h
        | inr asynchronous ↦ elim (Bool-cases (is_running current.status)) [
          | inr over ↦ rw (asynchronous, over) h
          | inl going ↦
              rw (asynchronous, going)
                (cancel_task_no_orphans run_id now (lookup run_id self.tasks) self h)
        ]
      ]

  cancel_reason_text :
      (run_id : String) (self : Executor)
      → HasReasons self.cancel_reasons
      → is_text (cancel_reason run_id self) ≡ true
  cancel_reason_text run_id self h = elim (Option-cases (lookup run_id self.cancel_reasons)) [
    | inl nothing ↦ rw (nothing, cancel_reason) (printable_of_ascii "ExecutorShutdown" refl)
    | inr (reason, found) ↦ rw (found, cancel_reason) (h run_id reason found)
  ]

  phase_changed :
      (run_id : String) (phase : Phase) (cancelling : Bool) (self : Executor)
      → HasNoOrphans self
      → HasNoOrphans (with_phase run_id phase cancelling self)
  phase_changed run_id phase cancelling self h = record {
    owners =
        more_owners (more_tasks self.is_started self.tasks _ (upsert_keeps run_id _ self.tasks))
          h.owners;
    reasons = h.reasons;
  }

  delivered_no_orphans :
      (run_id : String) (phase : Phase) (now : ℕ) (self : Executor)
      → HasNoOrphans self
      → HasNoOrphans (deliver_cancel run_id phase now self)
  unfolding deliver_cancel
  delivered_no_orphans run_id executing now self h = phase_changed run_id ended true _ (record {
    owners =
        use_store_keeps (HasOwners (HasTask self.is_started self.tasks)) self.is_started
          (interrupt run_id (cancel_reason run_id self) now) self.store
          (interrupt_keeps (HasTask self.is_started self.tasks) run_id was_interrupted
            (cancel_reason run_id self) now self.store (cancel_reason_text run_id self h.reasons)
            h.owners)
          h.owners;
    reasons = fewer_reasons run_id self.cancel_reasons h.reasons;
  })
  delivered_no_orphans run_id waiting now self h = phase_changed run_id ended true self h
  delivered_no_orphans run_id ended now self h = phase_changed run_id ended true self h

  lost_row_over :
      (run_id : String) (now : ℕ) (before row : RunRow) (s : RunStore)
      → lookup run_id
          (with_run run_id
            (ended_internally before.payload unknown "ExecutorOwnershipLost" now)
            s).runs
        ≡ some row
      → is_running row.payload.status ≡ false
  unfolding row_of serialize ended_internally
  lost_row_over run_id now before row s found =
      let r = ended_internally before.payload unknown "ExecutorOwnershipLost" now in
      let written : some (row_of r) ≡ some row =
        rw (lookup-upsert run_id run_id (row_of r) s.runs, str_eq_refl run_id) at found in
      subst (λ (x : RunRow). is_running x.payload.status ≡ false) (some-injective _ _ written) refl

  missing_is_lost :
      (run_id : String) (now : ℕ) (s : RunStore)
      → lookup run_id s.runs ≡ none
      → (mark_lost run_id now s).1 ≡ s
  unfolding mark_lost get check_id ◌>>=◌
  missing_is_lost run_id now s missing = ground arith

  -- While the service is started, with a writable store whose rows are valid, the callback of an
  -- ended task leaves its run not running.
  pub reconciled_run_is_over :
      (run_id : String) (now : ℕ) (self : Executor) (row : RunRow)
      → IsValid self.store
      → self.store.read_only ≡ false
      → self.is_started ≡ true
      → lookup run_id (reconcile_completed_task run_id now self).store.runs ≡ some row
      → is_running row.payload.status ≡ false
  unfolding reconcile_completed_task
  reconciled_run_is_over run_id now self row v open_store started called =
      let found : lookup run_id (mark_lost run_id now self.store).1.runs ≡ some row =
        rw started at called in
      elim (Option-cases (lookup run_id self.store.runs)) [
        | inl missing ↦
            let never : none ≡ some row =
              sym missing
              ∙ ap (λ (s : RunStore). lookup run_id s.runs)
                  (sym (missing_is_lost run_id now self.store missing))
              ∙ found in
            cc
        | inr (before, there) ↦ elim (Bool-cases (is_running before.payload.status)) [
          | inl going ↦ lost_row_over run_id now before row self.store (
              ap (λ (s : RunStore). lookup run_id s.runs)
                (sym (mark_lost_running run_id now before self.store v open_store there going))
              ∙ found)
          | inr over ↦
              let same : before ≡ row = some-injective _ _ (
                sym there
                ∙ ap (λ (s : RunStore). lookup run_id s.runs)
                    (sym (
                      mark_lost_ended run_id now before.payload self.store
                        (get_row run_id before self.store v there) over))
                ∙ found) in
              subst (λ (x : RunRow). is_running x.payload.status ≡ false) same over
        ]
      ]

  reaped_no_orphans :
      (run_id : String) (now : ℕ) (self : Executor)
      → HasNoOrphans self
      → HasNoOrphans (reconcile_completed_task run_id now self)
  unfolding reconcile_completed_task
  reaped_no_orphans run_id now self h = elim (Bool-cases self.is_started) [
    | inr over ↦ record {
      owners = rw over (more_owners (λ k there. refl) h.owners);
      reasons = h.reasons;
    }
    | inl started ↦
        let after =
          (mark_lost-Keeps (HasTask self.is_started self.tasks) run_id now).at self.store
            h.owners in
        record {
          owners = rw started (record {
            valid = after.valid;
            writable = after.writable;
            owned = λ k row found going. elim (Bool-cases (str_eq run_id k)) [
              | inl same ↦
                  let found' =
                    ap (λ i. lookup i (mark_lost run_id now self.store).1.runs)
                      ((str_eq_iff run_id k).0 same)
                    ∙ found in
                  let over =
                    reconciled_run_is_over run_id now self row h.owners.valid h.owners.writable
                      started (rw started found') in
                  let going' = going.0 in cc
              | inr other ↦
                  rw (lookup-delete run_id k self.tasks, other)
                    (rw started at (after.owned k row found going))
            ];
          });
          reasons = h.reasons;
        }
  ]

  -- Other processes start no asynchronous run, and keep the rows valid and the store writable.
  abbrev pub StartsNoAsync : (RunStore → RunStore → Type 0) → Type 1
  StartsNoAsync Elsewhere =
      (Owned : String → Type 0) (s t : RunStore)
      → Elsewhere s t
      → HasOwners Owned s
      → HasOwners Owned t

  Step-HasNoOrphans :
      {Elsewhere : RunStore → RunStore → Type 0} {self other : Executor}
      → StartsNoAsync Elsewhere
      → Step Elsewhere self other
      → HasNoOrphans self
      → HasNoOrphans other
  unfolding submit complete cancel stop stop_store
  Step-HasNoOrphans {self = self} tame (submitted submission run_id now new) h =
      submit_to_no_orphans submission run_id now self (enabled_target self.config submission.target)
        h
  Step-HasNoOrphans {self = self} tame (began run_id there free) h =
      phase_changed run_id executing false self h
  Step-HasNoOrphans {self = self} tame (completed run_id outcome now there named) h =
      phase_changed run_id ended false _ (record {
        owners =
            use_store_keeps (HasOwners (HasTask self.is_started self.tasks)) self.is_started
              (record_outcome run_id outcome now) self.store
              (outcome_keeps (HasTask self.is_started self.tasks) run_id outcome now self.store
                named h.owners)
              h.owners;
        reasons = h.reasons;
      })
  Step-HasNoOrphans {self = self} tame (cancel_requested run_id now) h =
      cancel_run_no_orphans run_id now (use_store self.is_started (get run_id) self.store).0
        (use_store self.is_started (get run_id) self.store).1 self h
  Step-HasNoOrphans {self = self} tame (cancel_delivered run_id task now there asked) h =
      delivered_no_orphans run_id task.phase now self h
  Step-HasNoOrphans {self = self} tame (reaped run_id task now there over) h =
      reaped_no_orphans run_id now self h
  Step-HasNoOrphans {self = self} tame stopping h = record {
    owners =
        more_owners (more_tasks self.is_started self.tasks _ (cancel_all_keeps self.tasks))
          h.owners;
    reasons = h.reasons;
  }
  Step-HasNoOrphans {self = self} tame stopped h = record {
    owners = more_owners (λ k there. refl) h.owners;
    reasons = h.reasons;
  }
  Step-HasNoOrphans {self = self} tame (stored_elsewhere store change) h = record {
    owners = tame (HasTask self.is_started self.tasks) self.store store change h.owners;
    reasons = h.reasons;
  }
  Step-HasNoOrphans {self = self} tame (locked_elsewhere lease free) h = record {
    owners = h.owners;
    reasons = h.reasons;
  }
  Step-HasNoOrphans {self = self} tame (released_elsewhere lease not_ours) h = record {
    owners = h.owners;
    reasons = h.reasons;
  }

  -- If, as long as the service is started, every asynchronous run that is running has a task of the
  -- service, in a writable store with valid rows, and other processes start no asynchronous run and
  -- keep the rows valid and the store writable, then so it is after whatever turns the event loop
  -- takes; once `stop` has dropped the store, the rows stay valid and the store writable, and
  -- nothing is said of the tasks.
  pub Reach-HasNoOrphans :
      {Elsewhere : RunStore → RunStore → Type 0} {self other : Executor}
      → StartsNoAsync Elsewhere
      → HasNoOrphans self
      → Reach Elsewhere self other
      → HasNoOrphans other
  Reach-HasNoOrphans tame h here = h
  Reach-HasNoOrphans tame h (next r step) =
      Step-HasNoOrphans tame step (Reach-HasNoOrphans tame h r)
