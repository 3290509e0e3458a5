-- ===== src/Executor/Steps.antt =====
-- src/hypershell_reach/executor.py: the service under any sequence of turns of the event loop.
use hypershell_reach.Base.{ℕ, ◌≡◌, ◌≢◌, String, true, false, none, some, ◌∷◌}
use hypershell_reach.Base.Table.{lookup}
use hypershell_reach.Runs.Record.{Unicode}
use hypershell_reach.Runs.Printable.{is_text}
use hypershell_reach.Runs.Store.{RunStore}
use hypershell_reach.Execution.Lease.{ExecutionLease, is_locked, release}
use hypershell_reach.Executor.Service.{
  Executor, OwnedTask, ExecutionSubmission, Outcome, outcome_name, waiting, executing, ended,
  with_phase, submit, complete, deliver_cancel, reconcile_completed_task, cancel, may_begin, stop,
  stop_store,
}

module _ ⦃u : Unicode⦄ where
  -- One turn; `stop` may end at any time, and turns may follow. Other processes write the store, as `Elsewhere` says, and take and free locks, at any
  -- time; a new ID is one that no task has, and a lock that another process frees is not one of the
  -- service's. The name of the type of an exception is printable.
  pub data Step (Elsewhere : RunStore → RunStore → Type 0) (self : Executor)
      : Executor → Type 0 where
    submitted :
        (submission : ExecutionSubmission) (run_id : String) (now : ℕ)
        → lookup run_id self.tasks ≡ none
        → Step Elsewhere self (submit submission run_id now self).1
    began :
        (run_id : String)
        → lookup run_id self.tasks ≡ some (record { phase = waiting; cancelling = false })
        → may_begin self ≡ true
        → Step Elsewhere self (with_phase run_id executing false self)
    completed :
        (run_id : String) (outcome : Outcome) (now : ℕ)
        → lookup run_id self.tasks ≡ some (record { phase = executing; cancelling = false })
        → is_text (outcome_name outcome) ≡ true
        → Step Elsewhere self (complete run_id outcome now self)
    cancel_requested : (run_id : String) (now : ℕ) → Step Elsewhere self (cancel run_id now self).1
    cancel_delivered :
        (run_id : String) (task : OwnedTask) (now : ℕ)
        → lookup run_id self.tasks ≡ some task
        → task.cancelling ≡ true
        → Step Elsewhere self (deliver_cancel run_id task.phase now self)
    reaped :
        (run_id : String) (task : OwnedTask) (now : ℕ)
        → lookup run_id self.tasks ≡ some task
        → task.phase ≡ ended
        → Step Elsewhere self (reconcile_completed_task run_id now self)
    stopping : Step Elsewhere self (stop self)
    stopped : Step Elsewhere self (stop_store self)
    stored_elsewhere :
        (store : RunStore)
        → Elsewhere self.store store
        → Step Elsewhere self (record self { store = store })
    locked_elsewhere :
        (lease : ExecutionLease)
        → is_locked lease self.locks ≡ false
        → Step Elsewhere self (record self { locks = lease ∷ self.locks })
    released_elsewhere :
        (lease : ExecutionLease)
        → ((run_id : String) → lookup run_id self.leases ≢ some lease)
        → Step Elsewhere self (record self { locks = release lease self.locks })

  pub data Reach (Elsewhere : RunStore → RunStore → Type 0) (self : Executor)
      : Executor → Type 0 where
    here : Reach Elsewhere self self
    next :
        {other after : Executor}
        → Reach Elsewhere self other
        → Step Elsewhere other after
        → Reach Elsewhere self after
