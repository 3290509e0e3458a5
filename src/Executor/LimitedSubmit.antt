-- ===== src/Executor/LimitedSubmit.antt =====
-- src/hypershell_reach/executor.py: the leases of the service after `submit`.
use mathlib.Core.Path.{subst}
use hypershell_reach.Base.{
  ℕ, ◌<◌, ◌≡◌, refl, sym, ap, ◌∙◌, inl, inr, String, Bool, true, false, Option, none, some, ◌∷◌,
  Bool-cases, is_some, ltb, arith,
}
use hypershell_reach.Base.Result.{Result, ok, err, Result-cases}
use hypershell_reach.Base.Action.{◌>>=◌}
use hypershell_reach.Base.Table.{lookup, upsert}
use hypershell_reach.Config.Model.{Target, resolved_max_timeout}
use hypershell_reach.Runs.Record.{Unicode, RunRecord, validate}
use hypershell_reach.Runs.Valid.{validate-id}
use hypershell_reach.Runs.Store.{RunStore, RunRequest, new_record}
use hypershell_reach.Runs.Operations.{create}
use hypershell_reach.Execution.Lease.{ExecutionLease, Locks, is_locked}
use hypershell_reach.Execution.Slots.{slot_of}
use hypershell_reach.Execution.Locks.{
  is_locked-release, acquire-Acquired, Acquired, refused, unlimited, leased,
}
use hypershell_reach.Executor.Service.{
  Executor, OwnedTask, ExecutionSubmission, waiting, settle_submission, submit_leased, submit_to,
  request_of, use_store,
}
use hypershell_reach.Executor.Leases.{HoldsLeases, carry, upsert_keeps, or-true, lease_added}

module _ ⦃u : Unicode⦄ where
  pub created_id :
      (request : RunRequest) (run_id : String) (now : ℕ) (is_started : Bool) (s : RunStore)
      (r : RunRecord)
      → (use_store is_started (create request run_id now) s).0 ≡ ok r
      → r.id ≡ run_id
  unfolding create ◌>>=◌
  created_id request run_id now false s r made = cc
  created_id request run_id now true s r made =
      elim (Result-cases (validate (new_record request run_id now))) [
        | inr (e, refused_it) ↦ ground arith
        | inl (v, accepted) ↦
            let id_is : v.id ≡ run_id = validate-id (new_record request run_id now) accepted in
            ground arith
      ]

  -- A turn that only replaces the store, or the state of a task.
  pub task_changed :
      (run_id : String) (task : OwnedTask) (self other : Executor)
      → other.config ≡ self.config
      → other.leases ≡ self.leases
      → other.locks ≡ self.locks
      → other.tasks ≡ upsert run_id task self.tasks
      → HoldsLeases self
      → HoldsLeases other
  task_changed run_id task self other c l k t = carry (record {
    same_config = c;
    same_leases = l;
    keeps_tasks = λ j there.
        subst (λ tasks. is_some (lookup j tasks) ≡ true) (sym t)
          (upsert_keeps run_id task self.tasks j there);
    keeps_locks = λ j lease found held. subst (λ locks. is_locked lease locks ≡ true) (sym k) held;
  })

  settle_free :
      (run_id : String) (self : Executor) (out : Result RunRecord) (store : RunStore)
      → HoldsLeases self
      → HoldsLeases (settle_submission self none (out, store)).1
  settle_free run_id self (err e) store h =
      carry
        (record {
          same_config = refl;
          same_leases = refl;
          keeps_tasks = λ j there. there;
          keeps_locks = λ j lease found held. held;
        })
        h
  settle_free run_id self (ok made) store h =
      task_changed made.id (record { phase = waiting; cancelling = false }) self _ refl refl refl
        refl h

  settle_leased :
      (run_id : String) (lease : ExecutionLease) (self : Executor) (target : Target) (limit : ℕ)
      (out : Result RunRecord) (store : RunStore)
      → HoldsLeases self
      → lookup run_id self.tasks ≡ none
      → is_locked lease self.locks ≡ false
      → lookup lease.target self.config.targets ≡ some target
      → target.max_heavy_concurrency ≡ some limit
      → lease.slot < limit
      → ((r : RunRecord) → out ≡ ok r → r.id ≡ run_id)
      → HoldsLeases
          (settle_submission
            (record self { locks = lease ∷ self.locks })
            (some lease)
            (out, store)).1
  settle_leased run_id lease self target limit (ok made) store h new free known limited low same =
      lease_added made.id lease (record { phase = waiting; cancelling = false }) store self target
        limit h (ap (λ k. lookup k self.tasks) (same made refl) ∙ new) free known limited low
  settle_leased run_id lease self target limit (err e) store h new free known limited low same =
      carry
        (record {
          same_config = refl;
          same_leases = refl;
          keeps_tasks = λ j there. there;
          keeps_locks = λ j other found held.
              is_locked-release other lease (lease ∷ self.locks)
                (λ equal.
                  let taken : is_locked lease self.locks ≡ true =
                    subst (λ l. is_locked l self.locks ≡ true) equal held in
                  cc)
                (rw held (or-true _));
        })
        h

  submit_leased_holds :
      (submission : ExecutionSubmission) (run_id : String) (now : ℕ) (self : Executor)
      (target : Target) (out : Result (Option ExecutionLease) × Locks)
      → HoldsLeases self
      → lookup run_id self.tasks ≡ none
      → lookup submission.target self.config.targets ≡ some target
      → Acquired submission.target target.max_heavy_concurrency self.locks out
      → HoldsLeases (submit_leased submission run_id now self out).1
  submit_leased_holds submission run_id now self target out h new known (refused e same) =
      subst (λ x. HoldsLeases (submit_leased submission run_id now self x).1) (sym same) h
  submit_leased_holds submission run_id now self target out h new known (unlimited same) =
      subst (λ x. HoldsLeases (submit_leased submission run_id now self x).1) (sym same)
        (settle_free run_id self
          (use_store self.is_started (create (request_of submission) run_id now) self.store).0
          (use_store self.is_started (create (request_of submission) run_id now) self.store).1 h)
  submit_leased_holds submission run_id now self target out h new known
        (leased n k limited low free same) =
      subst (λ x. HoldsLeases (submit_leased submission run_id now self x).1) (sym same)
        (settle_leased run_id (slot_of submission.target k) self target n
          (use_store self.is_started (create (request_of submission) run_id now) self.store).0
          (use_store self.is_started (create (request_of submission) run_id now) self.store).1 h new
          free known limited low
          (created_id (request_of submission) run_id now self.is_started self.store))

  pub submit_to_holds :
      (submission : ExecutionSubmission) (run_id : String) (now : ℕ) (self : Executor)
      (chosen : Result Target)
      → HoldsLeases self
      → lookup run_id self.tasks ≡ none
      → ((target : Target)
          → chosen ≡ ok target
          → lookup submission.target self.config.targets ≡ some target)
      → HoldsLeases (submit_to submission run_id now self chosen).1
  submit_to_holds submission run_id now self (err e) h new known = h
  submit_to_holds submission run_id now self (ok target) h new known =
      elim (Bool-cases (ltb (resolved_max_timeout self.config target) submission.timeout_seconds)) [
        | inl too_long ↦ rw too_long h
        | inr in_time ↦ rw in_time (
            submit_leased_holds submission run_id now self target _ h new (known target refl) (
              acquire-Acquired submission.target submission.execution_class
                target.max_heavy_concurrency self.locks))
      ]
