-- ===== src/Executor/Cancel.antt =====
-- src/hypershell_reach/executor.py: what cancelling a run leads to, in each phase of its task.
use hypershell_reach.Base.{ℕ, ◌≡◌, refl, ap, ◌∙◌, String, true, false, none, some, arith}
use hypershell_reach.Base.Text.{str_take, str_eq_refl}
use hypershell_reach.Base.Result.{ok}
use hypershell_reach.Base.Action.{◌>>=◌}
use hypershell_reach.Base.Table.{lookup, upsert, lookup-upsert, lookup-delete, AllRows-lookup}
use hypershell_reach.Runs.Record.{
  RunRecord, RunStatus, interrupted, unknown, Unicode, is_running, is_sync,
}
use hypershell_reach.Runs.Printable.{is_text, printable_of_ascii}
use hypershell_reach.Runs.Valid.{validate_of_IsWellFormed}
use hypershell_reach.Runs.Invariant.{IsValid, RowIsValid}
use hypershell_reach.Runs.Store.{
  RunRow, RunStore, was_interrupted, outcome_unknown, ended_internally,
}
use hypershell_reach.Runs.Operations.{get, finish_without_execution, interrupt}
use hypershell_reach.Runs.ReadBack.{get_found}
use hypershell_reach.Runs.Ending.{finish_without_execution_lem, get-ended, with_run}
use hypershell_reach.Executor.Service.{
  Executor, OwnedTask, Phase, waiting, executing, awaiting, with_phase, is_done, cancel_reason,
  deliver_cancel, mark_lost, reconcile_completed_task, cancel, cancel_answer,
}

module _ ⦃u : Unicode⦄ where
  -- `get` in a store with valid rows.
  pub get_row :
      (run_id : String) (row : RunRow) (s : RunStore)
      → IsValid s
      → lookup run_id s.runs ≡ some row
      → get run_id s ≡ (ok row.payload, s)
  get_row run_id row s v found =
      let w = AllRows-lookup RowIsValid run_id s.runs v.rows found in
      get_found run_id row s w.named found (validate_of_IsWellFormed row.payload w.well_formed)

  -- A request to cancel a run whose task is not done waits for it, and notes the reason.
  cancel_live :
      (run_id : String) (now : ℕ) (row : RunRow) (task : OwnedTask) (self : Executor)
      → IsValid self.store
      → self.is_started ≡ true
      → lookup run_id self.store.runs ≡ some row
      → is_sync row.payload.execution_mode ≡ false
      → is_running row.payload.status ≡ true
      → lookup run_id self.tasks ≡ some task
      → is_done task.phase ≡ false
      → cancel run_id now self ≡ (
        ok awaiting,
        with_phase run_id task.phase true (record self {
          cancel_reasons = upsert run_id "ExplicitCancellation" self.cancel_reasons;
        }),
      )
  unfolding cancel
  cancel_live run_id now row task self v started found asynchronous going owned live =
      ground (arith, get_row run_id row self.store v found)

  -- The turns of the loop from a request to cancel to the end of the task.
  abbrev pub after_cancel : String → Phase → ℕ → Executor → Executor
  after_cancel run_id phase now self =
      reconcile_completed_task run_id now
        (deliver_cancel run_id phase now (cancel run_id now self).1)

  -- `mark_lost` on a run that has ended, and on one that is running.
  pub mark_lost_ended :
      (run_id : String) (now : ℕ) (r : RunRecord) (s : RunStore)
      → get run_id s ≡ (ok r, s)
      → is_running r.status ≡ false
      → (mark_lost run_id now s).1 ≡ s
  unfolding mark_lost ◌>>=◌
  mark_lost_ended run_id now r s read over = ground arith

  pub mark_lost_running :
      (run_id : String) (now : ℕ) (row : RunRow) (s : RunStore)
      → IsValid s
      → s.read_only ≡ false
      → lookup run_id s.runs ≡ some row
      → is_running row.payload.status ≡ true
      → (mark_lost run_id now s).1
        ≡ with_run run_id (ended_internally row.payload unknown "ExecutorOwnershipLost" now) s
  unfolding mark_lost ◌>>=◌
  mark_lost_running run_id now row s v open_store found going =
      let step =
        finish_without_execution_lem run_id outcome_unknown "ExecutorOwnershipLost" now row s v
          open_store found in
      ground (arith, get_row run_id row s v found, step)

  -- The parts of a record that was ended.
  ended_parts :
      (r : RunRecord) (status : RunStatus) (reason : String) (now : ℕ)
      → ((ended_internally r status reason now).status ≡ status)
        × ((ended_internally r status reason now).error_type ≡ some (str_take 200 reason))
  unfolding ended_internally
  ended_parts r status reason now = (refl, refl)

  -- The executor while a request to cancel waits for the task.
  abbrev asked_state : String → OwnedTask → Executor → Executor
  asked_state run_id task self =
      with_phase run_id task.phase true
        (record self { cancel_reasons = upsert run_id "ExplicitCancellation" self.cancel_reasons })

  reason_is_explicit :
      (run_id : String) (task : OwnedTask) (self : Executor)
      → cancel_reason run_id (asked_state run_id task self) ≡ "ExplicitCancellation"
  reason_is_explicit run_id task self = ground (
    arith,
    lookup-upsert run_id run_id "ExplicitCancellation" self.cancel_reasons,
    str_eq_refl run_id,
  )

  is_text_explicit : is_text "ExplicitCancellation" ≡ true
  is_text_explicit = printable_of_ascii "ExplicitCancellation" refl

  -- What the end of a cancelled task does to the store of a started service.
  ended_store :
      (run_id : String) (now : ℕ) (asked : Executor)
      → asked.is_started ≡ true
      → (reconcile_completed_task run_id now (deliver_cancel run_id executing now asked)).store
        ≡ (mark_lost run_id now (interrupt run_id (cancel_reason run_id asked) now asked.store).1).1
  unfolding deliver_cancel reconcile_completed_task
  ended_store run_id now asked started = rw started refl

  cancelled_store :
      (run_id : String) (now : ℕ) (row : RunRow) (task : OwnedTask) (self : Executor)
      → IsValid self.store
      → self.store.read_only ≡ false
      → self.is_started ≡ true
      → lookup run_id self.store.runs ≡ some row
      → is_running row.payload.status ≡ true
      → cancel run_id now self ≡ (ok awaiting, asked_state run_id task self)
      → (after_cancel run_id executing now self).store
        ≡ with_run run_id
            (ended_internally row.payload interrupted "ExplicitCancellation" now)
            self.store
  unfolding deliver_cancel reconcile_completed_task
  cancelled_store run_id now row task self v open_store started found going asked =
      let r = ended_internally row.payload interrupted "ExplicitCancellation" now in
      let step : finish_without_execution run_id was_interrupted "ExplicitCancellation" now
            self.store
          ≡ (ok r, with_run run_id r self.store) =
        rw going at (
          finish_without_execution_lem run_id was_interrupted "ExplicitCancellation" now row
            self.store v open_store found) in
      ap
        (λ x. (reconcile_completed_task run_id now (deliver_cancel run_id executing now x.1)).store)
        asked
      ∙ ended_store run_id now (asked_state run_id task self) started
      ∙ ap
          (λ reason.
            (mark_lost run_id now
              (finish_without_execution run_id was_interrupted reason now self.store).1).1)
          (reason_is_explicit run_id task self)
      ∙ ap (λ x. (mark_lost run_id now x.1).1) step
      ∙ mark_lost_ended run_id now r (with_run run_id r self.store)
          (get-ended run_id interrupted "ExplicitCancellation" now row self.store v found
            is_text_explicit)
          (ap is_running (ended_parts row.payload interrupted "ExplicitCancellation" now).0)

  answer_explicit :
      (run_id : String) (now : ℕ) (row : RunRow) (s : RunStore)
      → IsValid s
      → lookup run_id s.runs ≡ some row
      → (cancel_answer run_id true (
          with_run run_id
            (ended_internally row.payload interrupted "ExplicitCancellation" now)
            s)).0
        ≡ ok (interrupted, true)
  unfolding cancel_answer ◌>>=◌
  answer_explicit run_id now row s v found =
      let read =
        get-ended run_id interrupted "ExplicitCancellation" now row s v found is_text_explicit in
      let (status, reason) = ended_parts row.payload interrupted "ExplicitCancellation" now in
      rw (read, status, reason) refl

  -- Cancelling an asynchronous run that is being executed, while the service stays started, on a
  -- writable store with valid rows:
  -- the request waits for the task, and when the task has ended the run is interrupted with the
  -- reason `ExplicitCancellation`, which is answered as cancelled, the task and the reason are
  -- gone.
  pub cancel_executing :
      (run_id : String) (now : ℕ) (row : RunRow) (task : OwnedTask) (self : Executor)
      → IsValid self.store
      → self.store.read_only ≡ false
      → self.is_started ≡ true
      → lookup run_id self.store.runs ≡ some row
      → is_sync row.payload.execution_mode ≡ false
      → is_running row.payload.status ≡ true
      → lookup run_id self.tasks ≡ some task
      → task.phase ≡ executing
      → ((cancel run_id now self).0 ≡ ok awaiting)
        × ((cancel_answer run_id true (after_cancel run_id executing now self).store).0
            ≡ ok (interrupted, true))
        × (lookup run_id (after_cancel run_id executing now self).tasks ≡ none)
        × (lookup run_id (after_cancel run_id executing now self).cancel_reasons ≡ none)
  unfolding deliver_cancel reconcile_completed_task
  cancel_executing run_id now row task self v open_store started found asynchronous going owned
        phase =
      let asked =
        cancel_live run_id now row task self v started found asynchronous going owned
          (ap is_done phase) in
      let explicit =
        cancelled_store run_id now row task self v open_store started found going asked in
      (
        ap (λ x. x.0) asked,
        ap (λ s. (cancel_answer run_id true s).0) explicit
            ∙ answer_explicit run_id now row self.store v found,
        lookup-delete run_id run_id _ ∙ rw (str_eq_refl run_id) refl,
        lookup-delete run_id run_id _ ∙ rw (str_eq_refl run_id) refl,
      )

  waited_store :
      (run_id : String) (now : ℕ) (asked : Executor)
      → asked.is_started ≡ true
      → (reconcile_completed_task run_id now (deliver_cancel run_id waiting now asked)).store
        ≡ (mark_lost run_id now asked.store).1
  unfolding deliver_cancel reconcile_completed_task
  waited_store run_id now asked started = rw started refl

  lost_answer :
      (run_id : String) (now : ℕ) (row : RunRow) (s : RunStore)
      → IsValid s
      → lookup run_id s.runs ≡ some row
      → (cancel_answer run_id true
          (with_run run_id (ended_internally row.payload unknown "ExecutorOwnershipLost" now) s)).0
        ≡ ok (unknown, false)
  unfolding cancel_answer ◌>>=◌
  lost_answer run_id now row s v found =
      let read =
        get-ended run_id unknown "ExecutorOwnershipLost" now row s v found
          (printable_of_ascii "ExecutorOwnershipLost" refl) in
      let (status, _) = ended_parts row.payload unknown "ExecutorOwnershipLost" now in
      rw (read, status) refl

  -- Cancelling an asynchronous run that still waits for the semaphore, under the same conditions:
  -- no handler of `_execute` sees the cancellation, so the run, which was never started, ends as
  -- `unknown` with the reason `ExecutorOwnershipLost`, it is answered as not cancelled, and the
  -- reason that the request noted is left behind.
  pub cancel_waiting :
      (run_id : String) (now : ℕ) (row : RunRow) (task : OwnedTask) (self : Executor)
      → IsValid self.store
      → self.store.read_only ≡ false
      → self.is_started ≡ true
      → lookup run_id self.store.runs ≡ some row
      → is_sync row.payload.execution_mode ≡ false
      → is_running row.payload.status ≡ true
      → lookup run_id self.tasks ≡ some task
      → task.phase ≡ waiting
      → ((after_cancel run_id waiting now self).store
          ≡ with_run run_id
              (ended_internally row.payload unknown "ExecutorOwnershipLost" now)
              self.store)
        × ((cancel_answer run_id true (after_cancel run_id waiting now self).store).0
            ≡ ok (unknown, false))
        × (lookup run_id (after_cancel run_id waiting now self).tasks ≡ none)
        × (lookup run_id (after_cancel run_id waiting now self).cancel_reasons
            ≡ some "ExplicitCancellation")
  unfolding deliver_cancel reconcile_completed_task
  cancel_waiting run_id now row task self v open_store started found asynchronous going owned
        phase =
      let asked =
        cancel_live run_id now row task self v started found asynchronous going owned
          (ap is_done phase) in
      let lost : (after_cancel run_id waiting now self).store
          ≡ with_run run_id (ended_internally row.payload unknown "ExecutorOwnershipLost" now)
              self.store =
        ap
          (λ x. (reconcile_completed_task run_id now (deliver_cancel run_id waiting now x.1)).store)
          asked
        ∙ waited_store run_id now (asked_state run_id task self) started
        ∙ mark_lost_running run_id now row self.store v open_store found going in
      (
        lost,
        ap (λ s. (cancel_answer run_id true s).0) lost
            ∙ lost_answer run_id now row self.store v found,
        lookup-delete run_id run_id _ ∙ rw (str_eq_refl run_id) refl,
        ap (λ x. lookup run_id x.1.cancel_reasons) asked
            ∙ lookup-upsert run_id run_id "ExplicitCancellation" self.cancel_reasons
            ∙ rw (str_eq_refl run_id) refl,
      )
