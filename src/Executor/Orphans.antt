-- ===== src/Executor/Orphans.antt =====
-- src/hypershell_reach/executor.py: running asynchronous runs and the tasks that end them.
use mathlib.Core.Path.{subst}
use mathlib.Core.Option.{some-injective}
use hypershell_reach.Base.{
  ℕ, ◌≡◌, refl, sym, inl, inr, String, Bool, true, false, not, ◌||◌, Option, none, some, Bool-cases,
  is_some, ltb, arith,
}
use hypershell_reach.Base.Text.{str_eq, str_eq_refl}
use hypershell_reach.Base.Result.{
  Error, value_error, runtime_error, validation_error, os_error, Result, ok, err, Result-cases,
}
use hypershell_reach.Base.Action.{Action, ◌>>=◌}
use hypershell_reach.Base.Table.{Table, lookup, upsert, delete, lookup-upsert, lookup-delete}
use hypershell_reach.Config.Model.{Target, resolved_max_timeout}
use hypershell_reach.Runs.Record.{Unicode, RunRecord, validate}
use hypershell_reach.Runs.Printable.{is_text, printable_of_ascii}
use hypershell_reach.Runs.Methods.{finish-Keeps, finish_without_execution-Keeps}
use hypershell_reach.Runs.Store.{
  RunStore, RunRequest, write_lock, require_writable, InternalOutcome, was_interrupted,
  failed_locally, outcome_unknown, new_record,
}
use hypershell_reach.Runs.Operations.{finish_without_execution, create}
use hypershell_reach.Execution.Lease.{ExecutionLease, Locks, acquire_execution_lease}
use hypershell_reach.Executor.Service.{
  Executor, OwnedTask, ExecutionSubmission, Outcome, returned, raised, outcome_name, record_outcome,
  waiting, settle_submission, submit_leased, submit_to, request_of, cancel_task, answer_lost,
  is_done, use_store,
}
use hypershell_reach.Executor.Leases.{upsert_keeps, or-true}
use hypershell_reach.Executor.LimitedSubmit.{created_id}
use hypershell_reach.Executor.Owned.{HasOwners, HasOwners-laws, created-Keeps}

module _ ⦃u : Unicode⦄ where
  -- A run has a task, as long as the service is started.
  abbrev pub HasTask : Bool → Table OwnedTask → String → Type 0
  HasTask is_started tasks k = (not is_started || is_some (lookup k tasks)) ≡ true

  pub more_tasks :
      (is_started : Bool) (t other : Table OwnedTask)
      → ((k : String) → is_some (lookup k t) ≡ true → is_some (lookup k other) ≡ true)
      → (k : String) → HasTask is_started t k
      → HasTask is_started other k
  more_tasks false t other more k there = refl
  more_tasks true t other more k there = more k there

  abbrev pub HasReasons : Table String → Type 0
  HasReasons reasons = (k reason : String) → lookup k reasons ≡ some reason → is_text reason ≡ true

  pub record HasNoOrphans (self : Executor) : Type 0 where
    pub owners : HasOwners (HasTask self.is_started self.tasks) self.store
    pub reasons : HasReasons self.cancel_reasons

  pub more_owners :
      {Owned More : String → Type 0} {s : RunStore}
      → ((k : String) → Owned k → More k)
      → HasOwners Owned s
      → HasOwners More s
  more_owners more h = record {
    valid = h.valid;
    writable = h.writable;
    owned = λ k row found going. more k (h.owned k row found going);
  }

  pub explicit_text : is_text "ExplicitCancellation" ≡ true
  explicit_text = printable_of_ascii "ExplicitCancellation" refl

  pub lost_text : is_text "ExecutorOwnershipLost" ≡ true
  lost_text = printable_of_ascii "ExecutorOwnershipLost" refl

  -- `create` writes nothing if it raises.
  pub created_failed :
      (request : RunRequest) (run_id : String) (now : ℕ) (is_started : Bool) (s : RunStore)
      (e : Error)
      → (use_store is_started (create request run_id now) s).0 ≡ err e
      → (use_store is_started (create request run_id now) s).1 ≡ s
  unfolding create write_lock require_writable ◌>>=◌
  created_failed request run_id now false s e failed = refl
  created_failed request run_id now true s e failed =
      elim (Result-cases (validate (new_record request run_id now))) [
        | inr (e', refused_it) ↦ ground arith
        | inl (r, accepted) ↦ ground arith
      ]

  pub interrupt_keeps :
      (Owned : String → Type 0) (run_id : String) (outcome : InternalOutcome) (reason : String)
      (now : ℕ) (s : RunStore)
      → is_text reason ≡ true
      → HasOwners Owned s
      → HasOwners Owned (finish_without_execution run_id outcome reason now s).1
  interrupt_keeps Owned run_id outcome reason now s printable h =
      (finish_without_execution-Keeps (HasOwners-laws Owned) run_id outcome reason now printable).at
        s h

  -- The property `store` keeps what a method of the store keeps.
  pub use_store_keeps :
      {A : Type 0} (Kept : RunStore → Type 0) (is_started : Bool) (method : Action RunStore A)
      (s : RunStore)
      → Kept (method s).1
      → Kept s
      → Kept (use_store is_started method s).1
  use_store_keeps Kept false method s after h = h
  use_store_keeps Kept true method s after h = after

  pub outcome_keeps :
      (Owned : String → Type 0) (run_id : String) (outcome : Outcome) (now : ℕ) (s : RunStore)
      → is_text (outcome_name outcome) ≡ true
      → HasOwners Owned s
      → HasOwners Owned (record_outcome run_id outcome now s).1
  outcome_keeps Owned run_id (returned execution) now s printable h =
      (finish-Keeps (HasOwners-laws Owned) run_id execution now).at s h
  outcome_keeps Owned run_id (raised (os_error name)) now s printable h =
      interrupt_keeps Owned run_id outcome_unknown _ now s printable h
  outcome_keeps Owned run_id (raised (value_error m)) now s printable h =
      interrupt_keeps Owned run_id failed_locally _ now s printable h
  outcome_keeps Owned run_id (raised (runtime_error m)) now s printable h =
      interrupt_keeps Owned run_id failed_locally _ now s printable h
  outcome_keeps Owned run_id (raised (validation_error m)) now s printable h =
      interrupt_keeps Owned run_id failed_locally _ now s printable h

  settled_no_orphans :
      (run_id : String) (lease : Option ExecutionLease) (self : Executor) (out : Result RunRecord)
      (store : RunStore)
      → ((r : RunRecord)
          → out ≡ ok r
          → HasOwners
              (HasTask self.is_started
                (upsert r.id (record { phase = waiting; cancelling = false }) self.tasks))
              store)
      → ((e : Error) → out ≡ err e → store ≡ self.store)
      → HasNoOrphans self
      → HasNoOrphans (settle_submission self lease (out, store)).1
  settled_no_orphans run_id lease self (ok made) store taken failed h = record {
    owners = taken made refl;
    reasons = h.reasons;
  }
  settled_no_orphans run_id lease self (err e) store taken failed h = record {
    owners = subst (HasOwners (HasTask self.is_started self.tasks)) (sym (failed e refl)) h.owners;
    reasons = h.reasons;
  }

  submit_leased_no_orphans :
      (submission : ExecutionSubmission) (run_id : String) (now : ℕ) (self : Executor)
      (out : Result (Option ExecutionLease)) (locks : Locks)
      → HasNoOrphans self
      → HasNoOrphans (submit_leased submission run_id now self (out, locks)).1
  submit_leased_no_orphans submission run_id now self (err e) locks h = record {
    owners = h.owners;
    reasons = h.reasons;
  }
  submit_leased_no_orphans submission run_id now self (ok lease) locks h =
      let request = request_of submission in
      let task : OwnedTask = record { phase = waiting; cancelling = false } in
      let Tasked : String → Type 0 = HasTask self.is_started (upsert run_id task self.tasks) in
      let taken : Tasked run_id =
        rw (lookup-upsert run_id run_id task self.tasks, str_eq_refl run_id) (or-true _) in
      let with_task =
        let before =
          more_owners
            (more_tasks self.is_started self.tasks _ (upsert_keeps run_id task self.tasks))
            h.owners in
        use_store_keeps (HasOwners Tasked) self.is_started (create request run_id now) self.store
          ((created-Keeps Tasked request run_id now taken).at self.store before) before in
      settled_no_orphans run_id lease (record self { locks = locks })
        (use_store self.is_started (create request run_id now) self.store).0
        (use_store self.is_started (create request run_id now) self.store).1
        (λ r made.
          subst
            (λ k.
              HasOwners (HasTask self.is_started (upsert k task self.tasks))
                (use_store self.is_started (create request run_id now) self.store).1)
            (sym (created_id request run_id now self.is_started self.store r made)) with_task)
        (created_failed request run_id now self.is_started self.store)
        (record { owners = h.owners; reasons = h.reasons })

  pub submit_to_no_orphans :
      (submission : ExecutionSubmission) (run_id : String) (now : ℕ) (self : Executor)
      (chosen : Result Target)
      → HasNoOrphans self
      → HasNoOrphans (submit_to submission run_id now self chosen).1
  submit_to_no_orphans submission run_id now self (err e) h = h
  submit_to_no_orphans submission run_id now self (ok target) h =
      elim (Bool-cases (ltb (resolved_max_timeout self.config target) submission.timeout_seconds)) [
        | inl too_long ↦ rw too_long h
        | inr in_time ↦
            let acquired =
              acquire_execution_lease submission.target submission.execution_class
                target.max_heavy_concurrency self.locks in
            rw in_time (submit_leased_no_orphans submission run_id now self acquired.0 acquired.1 h)
      ]

  lost_no_orphans :
      (self : Executor) (out : Result RunRecord) (store : RunStore)
      → HasOwners (HasTask self.is_started self.tasks) store
      → HasReasons self.cancel_reasons
      → HasNoOrphans (answer_lost (out, store) self).1
  lost_no_orphans self (ok r) store h t = record { owners = h; reasons = t }
  lost_no_orphans self (err e) store h t = record { owners = h; reasons = t }

  explicit_reasons :
      (run_id : String) (t : Table String)
      → HasReasons t
      → HasReasons (upsert run_id "ExplicitCancellation" t)
  explicit_reasons run_id t h k reason found = elim (Bool-cases (str_eq run_id k)) [
    | inl same ↦
        let written : some "ExplicitCancellation" ≡ some reason =
          rw (lookup-upsert run_id k "ExplicitCancellation" t, same) at found in
        subst (λ x. is_text x ≡ true) (some-injective _ _ written) explicit_text
    | inr other ↦ h k reason (rw (lookup-upsert run_id k "ExplicitCancellation" t, other) at found)
  ]

  pub fewer_reasons :
      (run_id : String) (t : Table String) → HasReasons t → HasReasons (delete run_id t)
  fewer_reasons run_id t h k reason found = elim (Bool-cases (str_eq run_id k)) [
    | inl same ↦ let gone : none ≡ some reason = rw (lookup-delete run_id k t, same) at found in cc
    | inr other ↦ h k reason (rw (lookup-delete run_id k t, other) at found)
  ]

  pub cancel_task_no_orphans :
      (run_id : String) (now : ℕ) (task : Option OwnedTask) (self : Executor)
      → HasNoOrphans self
      → HasNoOrphans (cancel_task run_id now task self).1
  cancel_task_no_orphans run_id now none self h =
      lost_no_orphans self _ _
        (interrupt_keeps _ run_id was_interrupted "ExecutorOwnershipLost" now self.store lost_text
          h.owners)
        h.reasons
  cancel_task_no_orphans run_id now (some task) self h = elim (Bool-cases (is_done task.phase)) [
    | inl over ↦ rw over (
        lost_no_orphans self _ _
          (interrupt_keeps _ run_id was_interrupted "ExecutorOwnershipLost" now self.store lost_text
            h.owners)
          h.reasons)
    | inr live ↦ rw live (record {
      owners =
          more_owners (more_tasks self.is_started self.tasks _ (upsert_keeps run_id _ self.tasks))
            h.owners;
      reasons = explicit_reasons run_id self.cancel_reasons h.reasons;
    })
  ]
