-- ===== src/Server/Created.antt =====
-- src/hypershell_reach/server.py and executor.py: the record of a run, and the request that it was made for.
use mathlib.Core.Path.{subst}
use hypershell_reach.Base.{
  ℕ, ◌≡◌, inl, inr, String, Bool, true, false, Option, arith, Bool-cases, ltb,
}
use hypershell_reach.Base.Result.{Result, ok, err, Result-cases}
use hypershell_reach.Base.Action.{◌>>=◌}
use hypershell_reach.Config.Model.{Target, enabled_target, resolved_max_timeout}
use hypershell_reach.Execution.Lease.{ExecutionLease, Locks, acquire_execution_lease}
use hypershell_reach.Executor.Service.{
  Executor, ExecutionSubmission, request_of, settle_submission, submit_leased, submit_to, submit,
  use_store,
}
use hypershell_reach.Runs.Record.{RunRecord, Unicode, validate}
use hypershell_reach.Runs.Store.{RunStore, RunRequest, new_record}
use hypershell_reach.Runs.Operations.{create}
use hypershell_reach.Runs.Valid.{validate-request}

-- The record says of the run what the request says.
pub record IsFor (request : RunRequest) (r : RunRecord) : Type 0 where
  pub same_mutation : r.may_mutate ≡ request.may_mutate
  pub same_task : r.task_id ≡ request.task_id
  pub same_idempotence : r.idempotent ≡ request.idempotent
  pub same_timeout : r.timeout_seconds ≡ request.timeout_seconds
  pub same_target : r.target ≡ request.target

module _ ⦃u : Unicode⦄ where
  accepted-IsFor :
      (request : RunRequest) (run_id : String) (now : ℕ) {r : RunRecord}
      → validate (new_record request run_id now) ≡ ok r
      → IsFor request r
  accepted-IsFor request run_id now accepted =
      let (m, t, i, s, g) = validate-request (new_record request run_id now) accepted in
      record {
        same_mutation = m;
        same_task = t;
        same_idempotence = i;
        same_timeout = s;
        same_target = g;
      }

  pub create-IsFor :
      (request : RunRequest) (run_id : String) (now : ℕ) (s : RunStore) (r : RunRecord)
      → (create request run_id now s).0 ≡ ok r
      → IsFor request r
  unfolding create ◌>>=◌
  create-IsFor request run_id now s r made =
      elim (Result-cases (validate (new_record request run_id now))) [
        | inr (e, refused_it) ↦ ground arith
        | inl (v, accepted) ↦
            let same : v ≡ r = ground arith in
            subst (IsFor request) same (accepted-IsFor request run_id now accepted)
      ]

  use_store-IsFor :
      (request : RunRequest) (run_id : String) (now : ℕ) (is_started : Bool) (s : RunStore)
      (r : RunRecord)
      → (use_store is_started (create request run_id now) s).0 ≡ ok r
      → IsFor request r
  use_store-IsFor request run_id now false s r made = cc
  use_store-IsFor request run_id now true s r made = create-IsFor request run_id now s r made

  settled-IsFor :
      (request : RunRequest) (self : Executor) (lease : Option ExecutionLease)
      (out : Result RunRecord) (store : RunStore)
      → ((r : RunRecord) → out ≡ ok r → IsFor request r)
      → (r : RunRecord) → (settle_submission self lease (out, store)).0 ≡ ok r
      → IsFor request r
  settled-IsFor request self lease (ok made) store k r e = k r e
  settled-IsFor request self lease (err x) store k r e = cc

  leased-IsFor :
      (submission : ExecutionSubmission) (run_id : String) (now : ℕ) (self : Executor)
      (out : Result (Option ExecutionLease)) (locks : Locks) (r : RunRecord)
      → (submit_leased submission run_id now self (out, locks)).0 ≡ ok r
      → IsFor (request_of submission) r
  leased-IsFor submission run_id now self (err x) locks r e = cc
  leased-IsFor submission run_id now self (ok lease) locks r e =
      settled-IsFor (request_of submission) (record self { locks = locks }) lease
        (use_store self.is_started (create (request_of submission) run_id now) self.store).0
        (use_store self.is_started (create (request_of submission) run_id now) self.store).1
        (use_store-IsFor (request_of submission) run_id now self.is_started self.store) r e

  chosen-IsFor :
      (submission : ExecutionSubmission) (run_id : String) (now : ℕ) (self : Executor)
      (chosen : Result Target) (r : RunRecord)
      → (submit_to submission run_id now self chosen).0 ≡ ok r
      → IsFor (request_of submission) r
  chosen-IsFor submission run_id now self (err x) r e = cc
  chosen-IsFor submission run_id now self (ok target) r e =
      elim (Bool-cases (ltb (resolved_max_timeout self.config target) submission.timeout_seconds)) [
        | inl above ↦ ground arith
        | inr within ↦
            let out =
              acquire_execution_lease submission.target submission.execution_class
                target.max_heavy_concurrency self.locks in
            leased-IsFor submission run_id now self out.0 out.1 r (rw within at e)
      ]

  pub submit-IsFor :
      (submission : ExecutionSubmission) (run_id : String) (now : ℕ) (self : Executor)
      (r : RunRecord)
      → (submit submission run_id now self).0 ≡ ok r
      → IsFor (request_of submission) r
  unfolding submit
  submit-IsFor submission run_id now self r e =
      chosen-IsFor submission run_id now self (enabled_target self.config submission.target) r e
