-- ===== src/Executor/Limit.antt =====
-- src/hypershell_reach/executor.py: the heavy limit of a target over any sequence of turns.
use mathlib.Core.Path.{subst}
use hypershell_reach.Base.{
  ℕ, ◌≡◌, refl, sym, ap, ◌∙◌, inl, inr, String, true, false, Option, none, some, [], ◌∷◌,
  Bool-cases, is_some,
}
use hypershell_reach.Base.Text.{str_eq}
use hypershell_reach.Base.Result.{Result, ok, err}
use hypershell_reach.Base.Table.{Table, lookup}
use hypershell_reach.Config.Model.{enabled_target}
use hypershell_reach.Config.Limits.{enabled_parts}
use hypershell_reach.Runs.Record.{Unicode, RunRecord, is_sync, is_running}
use hypershell_reach.Runs.Store.{RunStore}
use hypershell_reach.Runs.Operations.{get}
use hypershell_reach.Execution.Lease.{is_locked}
use hypershell_reach.Execution.Locks.{is_locked-release}
use hypershell_reach.Executor.Service.{
  Executor, OwnedTask, Phase, waiting, executing, ended, submit, complete, deliver_cancel,
  use_store, reconcile_completed_task, cancel, cancel_run, cancel_task, answer_lost, cancel_all,
  stop, stop_store, is_done,
}
use hypershell_reach.Executor.Leases.{HoldsLeases, carry, or-true, lease_removed}
use hypershell_reach.Executor.Steps.{
  Step, submitted, began, completed, cancel_requested, cancel_delivered, reaped, stopping, stopped,
  stored_elsewhere, locked_elsewhere, released_elsewhere, Reach, here, next,
}
use hypershell_reach.Executor.LimitedSubmit.{task_changed, submit_to_holds}

module _ ⦃u : Unicode⦄ where
  same_parts :
      (self other : Executor)
      → other.config ≡ self.config
      → other.leases ≡ self.leases
      → other.locks ≡ self.locks
      → other.tasks ≡ self.tasks
      → HoldsLeases self
      → HoldsLeases other
  same_parts self other c l k t = carry (record {
    same_config = c;
    same_leases = l;
    keeps_tasks = λ j there. subst (λ tasks. is_some (lookup j tasks) ≡ true) (sym t) there;
    keeps_locks = λ j lease found held. subst (λ locks. is_locked lease locks ≡ true) (sym k) held;
  })

  answer_lost_holds :
      (run_id : String) (now : ℕ) (self : Executor) (out : Result RunRecord × RunStore)
      → HoldsLeases self
      → HoldsLeases (answer_lost out self).1
  answer_lost_holds run_id now self (ok r, store) h = same_parts self _ refl refl refl refl h
  answer_lost_holds run_id now self (err e, store) h = same_parts self _ refl refl refl refl h

  cancel_task_holds :
      (run_id : String) (now : ℕ) (task : Option OwnedTask) (self : Executor)
      → HoldsLeases self
      → HoldsLeases (cancel_task run_id now task self).1
  cancel_task_holds run_id now none self h = answer_lost_holds run_id now self _ h
  cancel_task_holds run_id now (some task) self h = elim (Bool-cases (is_done task.phase)) [
    | inl over ↦ rw over (answer_lost_holds run_id now self _ h)
    | inr live ↦ rw live (
        task_changed run_id (record { phase = task.phase; cancelling = true }) self _ refl refl refl
          refl h)
  ]

  cancel_run_holds :
      (run_id : String) (now : ℕ) (read : Result RunRecord) (store : RunStore) (self : Executor)
      → HoldsLeases self
      → HoldsLeases (cancel_run run_id now (read, store) self).1
  cancel_run_holds run_id now (err e) store self h = h
  cancel_run_holds run_id now (ok current) store self h =
      elim (Bool-cases (is_sync current.execution_mode)) [
        | inl synchronous ↦ rw synchronous h
        | inr asynchronous ↦ elim (Bool-cases (is_running current.status)) [
          | inr over ↦ rw (asynchronous, over) h
          | inl going ↦
              rw (asynchronous, going)
                (cancel_task_holds run_id now (lookup run_id self.tasks) self h)
        ]
      ]

  pub cancel_all_keeps :
      (t : Table OwnedTask) (k : String)
      → is_some (lookup k t) ≡ true
      → is_some (lookup k (cancel_all t)) ≡ true
  unfolding lookup
  cancel_all_keeps [] k there = there
  cancel_all_keeps ((j, task) ∷ rest) k there = elim (Bool-cases (str_eq j k)) [
    | inl same ↦ rw same refl
    | inr other ↦ rw other (cancel_all_keeps rest k (rw other at there))
  ]

  delivered_holds :
      (run_id : String) (phase : Phase) (now : ℕ) (self : Executor)
      → HoldsLeases self
      → HoldsLeases (deliver_cancel run_id phase now self)
  unfolding deliver_cancel
  delivered_holds run_id executing now self h =
      task_changed run_id (record { phase = ended; cancelling = true }) self _ refl refl refl refl h
  delivered_holds run_id waiting now self h =
      task_changed run_id (record { phase = ended; cancelling = true }) self _ refl refl refl refl h
  delivered_holds run_id ended now self h =
      task_changed run_id (record { phase = ended; cancelling = true }) self _ refl refl refl refl h

  Step-HoldsLeases :
      {Elsewhere : RunStore → RunStore → Type 0} {self other : Executor}
      → Step Elsewhere self other
      → HoldsLeases self
      → HoldsLeases other
  unfolding submit complete cancel stop stop_store reconcile_completed_task
  Step-HoldsLeases {self} (submitted submission run_id now new) h =
      submit_to_holds submission run_id now self (enabled_target self.config submission.target) h
        new (λ target chosen. (enabled_parts self.config submission.target target chosen).0)
  Step-HoldsLeases {self} (began run_id there free) h =
      task_changed run_id (record { phase = executing; cancelling = false }) self _ refl refl refl
        refl h
  Step-HoldsLeases {self} (completed run_id outcome now there named) h =
      task_changed run_id (record { phase = ended; cancelling = false }) self _ refl refl refl refl
        h
  Step-HoldsLeases {self} (cancel_requested run_id now) h =
      cancel_run_holds run_id now (use_store self.is_started (get run_id) self.store).0
        (use_store self.is_started (get run_id) self.store).1 self h
  Step-HoldsLeases {self} (cancel_delivered run_id task now there asked) h =
      delivered_holds run_id task.phase now self h
  Step-HoldsLeases {self} (reaped run_id task now there over) h = lease_removed run_id _ self h
  Step-HoldsLeases {self} stopping h =
      carry
        (record {
          same_config = refl;
          same_leases = refl;
          keeps_tasks = λ j there. cancel_all_keeps self.tasks j there;
          keeps_locks = λ j lease found held. held;
        })
        h
  Step-HoldsLeases {self} stopped h = same_parts self _ refl refl refl refl h
  Step-HoldsLeases {self} (stored_elsewhere store change) h =
      same_parts self _ refl refl refl refl h
  Step-HoldsLeases {self} (locked_elsewhere lease free) h =
      carry
        (record {
          same_config = refl;
          same_leases = refl;
          keeps_tasks = λ j there. there;
          keeps_locks = λ j other found held. rw held (or-true _);
        })
        h
  Step-HoldsLeases {self} (released_elsewhere lease not_ours) h =
      carry
        (record {
          same_config = refl;
          same_leases = refl;
          keeps_tasks = λ j there. there;
          keeps_locks = λ j other found held.
              is_locked-release other lease self.locks (λ same. not_ours j (found ∙ ap some same))
                held;
        })
        h

  -- If each lease of a service belongs to a run that has a task, its file is locked, no two runs
  -- share a file, and its slot is below the heavy limit of its target, then so it is after whatever
  -- turns the event loop takes, and whatever other processes do meanwhile to the store and to locks
  -- that are not the service's.
  pub Reach-HoldsLeases :
      {Elsewhere : RunStore → RunStore → Type 0} {self other : Executor}
      → HoldsLeases self
      → Reach Elsewhere self other
      → HoldsLeases other
  Reach-HoldsLeases h here = h
  Reach-HoldsLeases h (next r step) = Step-HoldsLeases step (Reach-HoldsLeases h r)
