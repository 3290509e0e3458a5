-- ===== src/Server/Submission.antt =====
-- src/hypershell_reach/executor.py: the service after a submission that has raised.
use hypershell_reach.Base.{
  ℕ, ◌≡◌, refl, sym, ap, ◌∙◌, inl, inr, String, false, Option, none, some, [], ◌∷◌, arith,
  Bool-cases, ltb,
}
use hypershell_reach.Base.Result.{Error, Result, ok, err}
use hypershell_reach.Config.Model.{Target, enabled_target, resolved_max_timeout}
use hypershell_reach.Execution.Lease.{
  ExecutionLease, Locks, is_locked, release, acquire_execution_lease,
}
use hypershell_reach.Execution.Locks.{
  same_file_refl, Acquired, refused, unlimited, leased, acquire-Acquired,
}
use hypershell_reach.Execution.Slots.{slot_of}
use hypershell_reach.Executor.Service.{
  Executor, ExecutionSubmission, request_of, release_lease, settle_submission, submit_leased,
  submit_to, submit, use_store,
}
use hypershell_reach.Executor.Orphans.{created_failed}
use hypershell_reach.Runs.Record.{RunRecord, Unicode}
use hypershell_reach.Runs.Store.{RunStore}
use hypershell_reach.Runs.Operations.{create}

released_locks :
    (lease : ExecutionLease) (locks : Locks)
    → is_locked lease locks ≡ false
    → release lease locks ≡ locks
unfolding release
released_locks lease [] free = refl
released_locks lease (x ∷ locks) free = ground (arith, released_locks lease locks)

pub release_first :
    (lease : ExecutionLease) (locks : Locks)
    → is_locked lease locks ≡ false
    → release lease (lease ∷ locks) ≡ locks
unfolding release
release_first lease locks free = rw (same_file_refl lease) (released_locks lease locks free)

module _ ⦃u : Unicode⦄ where
  settled_failed :
      (self : Executor) (lease : Option ExecutionLease) (locks : Locks) (out : Result RunRecord)
      (store : RunStore)
      → release_lease lease locks ≡ self.locks
      → ((e : Error) → out ≡ err e → store ≡ self.store)
      → (e : Error)
      → (settle_submission (record self { locks = locks }) lease (out, store)).0 ≡ err e
      → (settle_submission (record self { locks = locks }) lease (out, store)).1 ≡ self
  settled_failed self lease locks (ok made) store free failed e h = cc
  settled_failed self lease locks (err x) store free failed e h =
      ap (λ (y : Locks). record self { store = store; locks = y }) free
      ∙ ap (λ (y : RunStore). record self { store = y }) (failed x refl)

  leased_failed :
      (submission : ExecutionSubmission) (run_id : String) (now : ℕ) (self : Executor)
      {limit : Option ℕ} (out : Result (Option ExecutionLease) × Locks) (e : Error)
      → Acquired submission.target limit self.locks out
      → (submit_leased submission run_id now self out).0 ≡ err e
      → (submit_leased submission run_id now self out).1 ≡ self
  leased_failed submission run_id now self out e (refused x is) h =
      ap (λ o. (submit_leased submission run_id now self o).1) is
  leased_failed submission run_id now self out e (unlimited is) h =
      ap (λ o. (submit_leased submission run_id now self o).1) is
      ∙ settled_failed self none self.locks
          (use_store self.is_started (create (request_of submission) run_id now) self.store).0
          (use_store self.is_started (create (request_of submission) run_id now) self.store).1 refl
          (created_failed (request_of submission) run_id now self.is_started self.store) e
          (ap (λ o. (submit_leased submission run_id now self o).0) (sym is) ∙ h)
  leased_failed submission run_id now self out e (leased n k l low free is) h =
      let lease = slot_of submission.target k in
      ap (λ o. (submit_leased submission run_id now self o).1) is
      ∙ settled_failed self (some lease) (lease ∷ self.locks)
          (use_store self.is_started (create (request_of submission) run_id now) self.store).0
          (use_store self.is_started (create (request_of submission) run_id now) self.store).1
          (release_first lease self.locks free)
          (created_failed (request_of submission) run_id now self.is_started self.store) e
          (ap (λ o. (submit_leased submission run_id now self o).0) (sym is) ∙ h)

  chosen_failed :
      (submission : ExecutionSubmission) (run_id : String) (now : ℕ) (self : Executor)
      (chosen : Result Target) (e : Error)
      → (submit_to submission run_id now self chosen).0 ≡ err e
      → (submit_to submission run_id now self chosen).1 ≡ self
  chosen_failed submission run_id now self (err x) e h = refl
  chosen_failed submission run_id now self (ok target) e h =
      elim (Bool-cases (ltb (resolved_max_timeout self.config target) submission.timeout_seconds)) [
        | inl above ↦ rw above refl
        | inr within ↦
            let out =
              acquire_execution_lease submission.target submission.execution_class
                target.max_heavy_concurrency self.locks in
            rw within (
              leased_failed submission run_id now self out e
                (acquire-Acquired submission.target submission.execution_class
                  target.max_heavy_concurrency self.locks)
                (rw within at h))
      ]

  -- A submission that raises leaves the service as it was.
  pub submit_failed :
      (submission : ExecutionSubmission) (run_id : String) (now : ℕ) (self : Executor) (e : Error)
      → (submit submission run_id now self).0 ≡ err e
      → (submit submission run_id now self).1 ≡ self
  unfolding submit
  submit_failed submission run_id now self e h =
      chosen_failed submission run_id now self (enabled_target self.config submission.target) e h
