-- ===== src/Server/Cancelling.antt =====
-- src/hypershell_reach/server.py: `cancel_run` and the lease of the run's task.
use mathlib.Core.Path.{subst}
use hypershell_reach.Base.{
  ℕ, ◌<◌, ◌≡◌, refl, sym, ap, ◌∙◌, String, true, false, Option, none, some, arith,
}
use hypershell_reach.Base.Result.{Result, ok, err, is_ok, ok-injective}
use hypershell_reach.Base.Keeps.{
  Keeps, Keeps-then, Keeps-pure, Keeps-gets, Keeps-lift, Keeps-or_raise, Keeps-raise_if, Keeps-Any,
}
use hypershell_reach.Base.Atomic.{OnlyReads, OnlyReads-of_Keeps, IsAtomic-raises}
use hypershell_reach.Base.Table.{lookup}
use hypershell_reach.Runs.Record.{RunRecord, Unicode}
use hypershell_reach.Runs.Store.{RunStore, check_id}
use hypershell_reach.Runs.Operations.{get}
use hypershell_reach.Tasks.Record.{as_cancelled}
use hypershell_reach.Tasks.Store.{TaskStore, LeaseRow}
use hypershell_reach.Tasks.Leases.{presents, authorize_execution_lease}
use hypershell_reach.Tasks.Edits.{no_edits}
use hypershell_reach.Tasks.Valid.{HasValidTasks}
use hypershell_reach.Tasks.Exclusion.{lease_excludes}
use hypershell_reach.Tasks.Atomicity.{authorize-IsAtomic}
use hypershell_reach.Tools.Model.{Python}
use hypershell_reach.Server.Inputs.{CancelRunInput, validate_cancel}
use hypershell_reach.Server.Model.{Server, on_runs, on_tasks}
use hypershell_reach.Server.Routes.{task_of, linked_task, authorize_linked, cancel_run}

-- What never returns.
abbrev Never : {A : Type 0} → A → Type 0
Never a = true ≡ false

not_returned : {A : Type 0} (r : Result A) → ((a : A) → r ≡ ok a → true ≡ false) → is_ok r ≡ false
not_returned (ok a) k = k a refl
not_returned (err e) k = refl

failed_never : {A : Type 0} (r : Result A) → is_ok r ≡ false → (a : A) → r ≡ ok a → true ≡ false
failed_never (ok b) h a e = h
failed_never (err x) h a e = cc

module _ ⦃u : Unicode⦄ where
  get-OnlyReads : (run_id : String) → OnlyReads (get run_id)
  unfolding get check_id
  get-OnlyReads run_id = OnlyReads-of_Keeps (λ s.
      Keeps-then (Keeps-raise_if (λ t. t ≡ s) _ _) (λ _ _.
        Keeps-then (Keeps-gets (λ t. t ≡ s) _) (λ found _.
          Keeps-then (Keeps-or_raise (λ t. t ≡ s) found _)
            (λ row _. Keeps-Any (Keeps-lift (λ t. t ≡ s) _)))))

  validated : (given args : CancelRunInput) → validate_cancel given ≡ ok args → given ≡ args
  unfolding validate_cancel
  validated given args h = ground arith

module _ ⦃p : Python⦄ ⦃u : Unicode⦄ (self : Server) (given : CancelRunInput)
    (run_record : RunRecord) (task_id : String) (lease : LeaseRow) (checked now : ℕ)
    (v : HasValidTasks self.tasks) (read : (get given.run_id self.executor.store).0 ≡ ok run_record)
    (linked : run_record.task_id ≡ some task_id)
    (leased : lookup task_id self.tasks.task_leases ≡ some lease)
    (active : checked < lease.payload.expires_at)
    (foreign : presents given.task_lease_id lease.payload ≡ false) where
  abbrev P : Server → Type 0
  P t = t ≡ self

  authorize_fails :
      is_ok (authorize_execution_lease task_id given.task_lease_id checked self.tasks).0 ≡ false
  authorize_fails =
      (lease_excludes self.tasks task_id lease given.task_lease_id
        (record { checked = checked; archived_at = now; now = now }) none as_cancelled none no_edits
        none "" v leased active foreign).3

  authorize-Never :
      Keeps P Never (on_tasks (authorize_execution_lease task_id given.task_lease_id checked))
  unfolding on_tasks
  authorize-Never =
      let undone : (authorize_execution_lease task_id given.task_lease_id checked self.tasks).1
          ≡ self.tasks =
        IsAtomic-raises (authorize-IsAtomic task_id given.task_lease_id checked) self.tasks
          (rw authorize_fails refl) in
      record {
        at = λ s h.
            ap
              (λ (t : Server). record t {
                tasks = (authorize_execution_lease task_id given.task_lease_id checked t.tasks).1;
              })
              h
            ∙ ap (λ (x : TaskStore). record self { tasks = x }) undone;
        returns = λ s h a e.
            failed_never
              (authorize_execution_lease task_id given.task_lease_id checked self.tasks).0
              authorize_fails a
              (ap
                  (λ (t : Server).
                    (authorize_execution_lease task_id given.task_lease_id checked t.tasks).0)
                  (sym h)
                ∙ e);
      }

  linked-Keeps : Keeps P (λ o. o ≡ some task_id) (on_runs (linked_task given.run_id))
  unfolding on_runs linked_task
  linked-Keeps = record {
    at = λ s h.
        ap (λ (t : RunStore). record s { executor = record s.executor { store = t } })
          ((get-OnlyReads given.run_id).at s.executor.store)
        ∙ h;
    returns = λ s h o e.
        ok-injective (
          sym e
          ∙ ap (λ (t : Server). task_of (get given.run_id t.executor.store).0) h
          ∙ ap task_of read)
        ∙ linked;
  }

  authorize_linked-Never :
      (o : Option String)
      → o ≡ some task_id
      → Keeps P Never (authorize_linked o given.task_lease_id checked)
  unfolding authorize_linked
  authorize_linked-Never o is_some =
      subst (λ x. Keeps P Never (authorize_linked x given.task_lease_id checked)) (sym is_some)
        (Keeps-then authorize-Never (λ a never. Keeps-pure P Never tt never))

  cancel-Never : Keeps P Never (cancel_run given checked now)
  unfolding cancel_run
  cancel-Never = Keeps-then (Keeps-lift P _) (λ args accepted.
      let same = validated given args accepted in
      Keeps-then (Keeps-raise_if P _ _) (λ _ _.
        Keeps-then
          (subst
            (λ (x : CancelRunInput).
              Keeps P (λ o. o ≡ some task_id) (on_runs (linked_task x.run_id)))
            same linked-Keeps)
          (λ o is_task.
            Keeps-then
              (subst
                (λ (x : CancelRunInput). Keeps P Never (authorize_linked o x.task_lease_id checked))
                same (authorize_linked-Never o is_task))
              (λ _ never. absurd (ground arith)))))

-- While the task of a run has a lease that has not expired, `cancel_run` raises and changes nothing
-- for everyone who does not present the ID of that lease.
pub cancel_needs_lease :
    ⦃p : Python⦄ ⦃u : Unicode⦄
    → (self : Server) (given : CancelRunInput) (run_record : RunRecord) (task_id : String)
      (lease : LeaseRow) (checked now : ℕ)
    → HasValidTasks self.tasks
    → (get given.run_id self.executor.store).0 ≡ ok run_record
    → run_record.task_id ≡ some task_id
    → lookup task_id self.tasks.task_leases ≡ some lease
    → checked < lease.payload.expires_at
    → presents given.task_lease_id lease.payload ≡ false
    → (is_ok (cancel_run given checked now self).0 ≡ false)
      × ((cancel_run given checked now self).1 ≡ self)
cancel_needs_lease self given run_record task_id lease checked now v read linked leased active
      foreign =
    let k =
      cancel-Never self given run_record task_id lease checked now v read linked leased active
        foreign in
    (not_returned (cancel_run given checked now self).0 (k.returns self refl), k.at self refl)
