-- ===== src/Tasks/Steps.antt =====
-- src/hypershell_reach/tasks.py: the store under any sequence of calls of its methods.
use mathlib.Core.Path.{subst}
use hypershell_reach.Base.{
  ℕ, suc, ◌≡◌, refl, sym, String, Bool, true, ◌&&◌, Option, none, some, List, [], ◌∷◌, is_some,
}
use hypershell_reach.Base.Text.{str_eq, str_eq_refl}
use hypershell_reach.Base.Keeps.{
  Keeps, Any, Keeps-then, Keeps-pure, Keeps-gets, Keeps-lift, Keeps-raise_if,
}
use hypershell_reach.Base.Table.{lookup}
use hypershell_reach.Tasks.Record.{ClosingStatus, TaskRecord, closing_of}
use hypershell_reach.Tasks.Store.{TaskRow, TaskStore}
use hypershell_reach.Tasks.Edits.{no_edits}
use hypershell_reach.Tasks.Closing.{Readings, close, repair_row, repair_rows, repair}
use hypershell_reach.Tasks.Valid.{
  HasValidTasks, with_task-HasValidTasks, with_lease-HasValidTasks, closed_HasValidTasks,
  without-HasValidTasks, is_current,
}
use hypershell_reach.Tasks.Effect.{
  Kind, closing, same, tasks-Pruned, Pruned-HasValidTasks, Effect, nothing, leased, added,
  edited_one, closed_one, removed,
}
use hypershell_reach.Tasks.Parts.{Keeps-require_writable}
use hypershell_reach.Tasks.LeaseEffects.{
  acquire-Effect, refresh-Effect, release-Effect, authorize-Effect,
}
use hypershell_reach.Tasks.EditEffects.{mark-Effect}
use hypershell_reach.Tasks.CloseEffects.{close-Leads, update-Effect}
use hypershell_reach.Tasks.StoreEffects.{create-Effect, archive-Effect, cleanup-Effect}
-- A call of a method with its arguments, the drawn IDs and the readings of the clock.
use hypershell_reach.Tasks.Calls.{
  Call, created, acquired, refreshed, released, authorized, marked, updated, closed, archived,
  repaired, cleaned, perform, perform_all, permits,
}

pub Effect-HasValidTasks :
    {may : Kind → String → Bool} {s t : TaskStore}
    → Effect may s t
    → HasValidTasks s
    → HasValidTasks t
Effect-HasValidTasks (nothing task_id p) v = Pruned-HasValidTasks p v
Effect-HasValidTasks (leased task_id lease {u} p accepted current is_t) v =
    subst HasValidTasks (sym is_t) (
      with_lease-HasValidTasks task_id lease u accepted
        (subst (λ x. is_current (lookup task_id x) ≡ true) (sym (tasks-Pruned p)) current)
        (Pruned-HasValidTasks p v))
Effect-HasValidTasks {s} (added r allowed new first sound is_t) v =
    subst HasValidTasks (sym is_t) (with_task-HasValidTasks r s sound v)
Effect-HasValidTasks (edited_one row r {u} allowed found placed is_edit p is_t) v =
    subst HasValidTasks (sym is_t)
      (with_task-HasValidTasks r u is_edit.sound (Pruned-HasValidTasks p v))
Effect-HasValidTasks (closed_one status row r {u} allowed found placed is_close p is_t) v =
    subst HasValidTasks (sym is_t)
      (closed_HasValidTasks r u is_close.sound (Pruned-HasValidTasks p v))
Effect-HasValidTasks {s} (removed ids allowed free is_t) v =
    subst HasValidTasks (sym is_t) (without-HasValidTasks ids s v)

-- A chain of changes; `repair` makes one for each row.
pub data Effects (may : Kind → String → Bool) (s : TaskStore) : TaskStore → Type 0 where
  here : Effects may s s
  then_one :
      {t u : TaskStore} → Effects may s t → HasValidTasks t → Effect may t u → Effects may s u

module _ (may : Kind → String → Bool) (s : TaskStore) where
  pub record Goes (t : TaskStore) : Type 0 where
    pub chain : Effects may s t
    pub valid : HasValidTasks t

  start : HasValidTasks s → Goes s
  start v = record { chain = here; valid = v }

  goes_on : {t u : TaskStore} → Goes t → Effect may t u → Goes u
  goes_on g e = record {
    chain = then_one g.chain g.valid e;
    valid = Effect-HasValidTasks e g.valid;
  }

  close-Goes :
      ((k : String) → may closing k ≡ true)
      → (task_id : String) (status : ClosingStatus) (clock : Readings)
      → Keeps Goes Any (close task_id status none no_edits none clock)
  close-Goes allowed task_id status clock = record {
    at = λ t g. goes_on g (
        (close-Leads may t g.valid task_id status none no_edits none clock (allowed task_id)).at t
          same);
    returns = λ t g a e. tt;
  }

  repair_row-Goes :
      ((k : String) → may closing k ≡ true)
      → (self : TaskRecord) (clock : Readings) (status : Option ClosingStatus)
      → Keeps Goes Any (repair_row self clock status)
  unfolding repair_row
  repair_row-Goes allowed self clock none = Keeps-pure Goes Any _ tt
  repair_row-Goes allowed self clock (some status) =
      Keeps-then (close-Goes allowed self.id status clock) (λ r _. Keeps-pure Goes Any _ tt)

  repair_rows-Goes :
      ((k : String) → may closing k ≡ true)
      → (rows : List (String × TaskRow)) (clock : ℕ → Readings) (n : ℕ)
      → Keeps Goes Any (repair_rows rows clock n)
  unfolding repair_rows
  repair_rows-Goes allowed [] clock n = Keeps-pure Goes Any _ tt
  repair_rows-Goes allowed ((task_id, row) ∷ rows) clock n =
      Keeps-then (Keeps-lift Goes _) (λ self _. Keeps-then (Keeps-raise_if Goes _ _) (λ _ _.
        Keeps-then (repair_row-Goes allowed self (clock n) (closing_of self.status)) (λ first _.
          Keeps-then (repair_rows-Goes allowed rows clock (suc n))
            (λ rest _. Keeps-pure Goes Any _ tt))))

  pub repair-Goes :
      ((k : String) → may closing k ≡ true) → (clock : ℕ → Readings) → Keeps Goes Any (repair clock)
  unfolding repair
  repair-Goes allowed clock =
      Keeps-then (Keeps-require_writable Goes)
        (λ _ _. Keeps-then (Keeps-gets Goes _) (λ rows _. repair_rows-Goes allowed rows clock 0))

evidence_is_on :
    (task_id : String) (given : Bool) → given ≡ true → (str_eq task_id task_id && given) ≡ true
evidence_is_on task_id given is_given = rw (str_eq_refl task_id, is_given) refl

-- A call makes one such change, or is a `repair`, which makes a chain of them.
pub data Performs (call : Call) (s t : TaskStore) : Type 0 where
  once : Effect (permits call) s t → Performs call s t
  repairs :
      (clock : ℕ → Readings)
      → call ≡ repaired clock
      → Goes (permits (repaired clock)) s t
      → Performs call s t

pub perform-Performs :
    (call : Call) (s : TaskStore) → HasValidTasks s → Performs call s (perform call s)
unfolding perform
perform-Performs (created request task_id now) s v =
    once (create-Effect _ s request task_id now (str_eq_refl task_id))
perform-Performs (acquired task_id executor_id scope seconds lease_id checked now) s v =
    once (acquire-Effect _ task_id s executor_id scope seconds lease_id checked now)
perform-Performs (refreshed task_id lease_id seconds checked now) s v =
    once (refresh-Effect _ task_id s lease_id seconds checked now)
perform-Performs (released task_id lease_id checked) s v =
    once (release-Effect _ task_id s lease_id checked)
perform-Performs (authorized task_id task_lease_id checked) s v =
    once (authorize-Effect _ task_id s task_lease_id checked)
perform-Performs (marked task_id purpose task_lease_id clock) s v =
    once (mark-Effect _ s v task_id purpose task_lease_id clock (str_eq_refl task_id))
perform-Performs (updated task_id status expected edits evidence task_lease_id clock) s v = once (
    update-Effect _ s v task_id status expected edits evidence task_lease_id clock
      (str_eq_refl task_id) (str_eq_refl task_id) (evidence_is_on task_id (is_some evidence)))
perform-Performs (closed task_id status expected edits task_lease_id clock) s v = once (
    (close-Leads _ s v task_id status expected edits task_lease_id clock (str_eq_refl task_id)).at s
      same)
perform-Performs (archived task_id clock) s v =
    once (archive-Effect _ s v task_id clock (str_eq_refl task_id))
perform-Performs (repaired clock) s v =
    repairs clock refl ((repair-Goes _ s (λ k. refl) clock).at s (start _ s v))
perform-Performs (cleaned now) s v = once (cleanup-Effect _ s now v.unique (λ k. refl))

Performs-Goes :
    (call : Call) (s : TaskStore) {t : TaskStore}
    → HasValidTasks s
    → Performs call s t
    → Goes (permits call) s t
Performs-Goes call s v (once e) = goes_on _ s (start _ s v) e
Performs-Goes call s {t} v (repairs clock is g) = subst (λ c. Goes (permits c) s t) (sym is) g

-- Every call of a method, in every case, is a chain of such changes.
pub perform-Goes :
    (call : Call) (s : TaskStore) → HasValidTasks s → Goes (permits call) s (perform call s)
perform-Goes call s v = Performs-Goes call s v (perform-Performs call s v)

-- From a store whose rows are valid every sequence of calls, whether they return or raise, leads to
-- one whose rows are valid: each task stands once, under its record's ID, with the columns of its
-- record, which passes the validators; it is archived just when its status is terminal, and then it
-- has the time of its archival, no pending mutation, and no next action or blocker if it is
-- completed; and each lease is one of a task that the store has and that is not archived.
pub perform_all-HasValidTasks :
    (calls : List Call) (s : TaskStore) → HasValidTasks s → HasValidTasks (perform_all calls s)
unfolding perform_all
perform_all-HasValidTasks [] s v = v
perform_all-HasValidTasks (call ∷ calls) s v =
    perform_all-HasValidTasks calls (perform call s) (perform-Goes call s v).valid
