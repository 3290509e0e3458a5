-- ===== src/Server/Refusal.antt =====
-- src/hypershell_reach/server.py: the server after a tool that executes has raised.
use mathlib.Core.Path.{subst}
use hypershell_reach.Base.{
  ℕ, ◌≡◌, refl, sym, ap, ◌∙◌, String, Bool, true, false, Option, none, some, List, ◌∷◌,
}
use hypershell_reach.Base.Result.{Error, Result, ok, err}
use hypershell_reach.Base.Action.{Action, ◌>>=◌}
use hypershell_reach.Base.Keeps.{Keeps, Any, Keeps-then, Keeps-pure, Keeps-lift}
use hypershell_reach.Base.Raises.{
  Raises, Raises-then, Raises-first, Raises-pure, Raises-modify, Raises-if,
}
use hypershell_reach.Config.Model.{Target}
use hypershell_reach.Execution.Lease.{ExecutionLease, Locks, acquire_execution_lease}
use hypershell_reach.Execution.Locks.{Acquired, refused, unlimited, leased, acquire-Acquired}
use hypershell_reach.Execution.Slots.{slot_of}
use hypershell_reach.Executor.Service.{Executor, release_lease}
use hypershell_reach.Executor.Orphans.{created_failed}
use hypershell_reach.Runs.Record.{Unicode}
use hypershell_reach.Runs.Store.{RunStore}
use hypershell_reach.Tasks.Store.{TaskStore}
use hypershell_reach.Tasks.Closing.{Readings}
use hypershell_reach.Tools.Model.{Python}
use hypershell_reach.Server.Model.{
  Server, TrackedRun, Begun, Launch, on_tasks, on_executor, on_runs, on_locks,
  prepare_task_execution, launch, begin_leased, releasing, release_after_error, released,
  begin_tracked,
}
use hypershell_reach.Server.Routes.{
  ExecutionCall, Plan, run_plan, start_plan, execute, tracked_run, is_synchronous,
}
use hypershell_reach.Server.Parts.{target_runtime-Keeps, plan_of-Keeps}
use hypershell_reach.Server.Submission.{release_first, submit_failed}

module _ ⦃p : Python⦄ where
  -- The service and the calls of `run_ssh`.
  abbrev IsAt : Executor → List Launch → Server → Type 0
  IsAt executor launches t = (t.executor ≡ executor) × (t.launches ≡ launches)

  module _ (executor : Executor) (launches : List Launch) where
    abbrev P : Server → Type 0
    P = IsAt executor launches

    on_tasks-Keeps : {A : Type 0} (m : Action TaskStore A) → Keeps P Any (on_tasks m)
    unfolding on_tasks
    on_tasks-Keeps m = record { at = λ s h. h; returns = λ s h a e. tt }

    prepare-Keeps :
        (task_id : Option String) (may_mutate : Bool) (purpose : String)
        (task_lease_id : Option String) (clock : Readings)
        → Keeps P Any (prepare_task_execution task_id may_mutate purpose task_lease_id clock)
    unfolding prepare_task_execution
    prepare-Keeps none may_mutate purpose task_lease_id clock = Keeps-pure P Any tt tt
    prepare-Keeps (some task_id) true purpose task_lease_id clock =
        Keeps-then (on_tasks-Keeps _) (λ r _. Keeps-pure P Any tt tt)
    prepare-Keeps (some task_id) false purpose task_lease_id clock =
        Keeps-then (on_tasks-Keeps _) (λ r _. Keeps-pure P Any tt tt)

  module _ ⦃u : Unicode⦄ (executor : Executor) (launches : List Launch) where
    abbrev Q : Server → Type 0
    Q = IsAt executor launches

    begin_leased-Raises :
        (call : TrackedRun) (lease : Option ExecutionLease) (run_id : String) (clock : Readings)
        (now : ℕ)
        → Raises Q Q (begin_leased call lease run_id clock now)
    unfolding begin_leased launch on_runs
    begin_leased-Raises call lease run_id clock now =
        Raises-then (λ s h. h) (prepare-Keeps executor launches _ _ _ _ _)
          (λ _ _.
            Raises-first
              (record {
                at = λ s h e r. (
                  ap (λ (x : RunStore). record s.executor { store = x })
                        (created_failed call.request run_id now true s.executor.store e r)
                      ∙ h.0,
                  h.1,
                );
              })
              (λ made. Raises-first (Raises-modify _) (λ _. Raises-pure _)))

    start_plan-Raises :
        (plan : Plan) (run_id : String) (clock : Readings) (now : ℕ)
        → Raises Q Q (start_plan plan run_id clock now)
    unfolding start_plan on_executor
    start_plan-Raises plan run_id clock now =
        Raises-then (λ s h. h) (prepare-Keeps executor launches _ _ _ _ _)
          (λ _ _.
            Raises-then (λ s h. h) (Keeps-lift Q _)
              (λ command _.
                Raises-then (λ s h. h) (Keeps-lift Q _)
                  (λ submission _.
                    Raises-first
                      (record {
                        at = λ s h e r.
                            (submit_failed submission run_id now s.executor e r ∙ h.0, h.1);
                      })
                      (λ made. Raises-pure _))))

  -- What `finally` leaves of a body that raised.
  released_back :
      {A : Type 0} (executor : Executor) (launches : List Launch) (lease : Option ExecutionLease)
      (locks : Locks) (r : Result A) (t : Server) (e : Error)
      → release_lease lease locks ≡ executor.locks
      → ((x : Error) → r ≡ err x → IsAt (record executor { locks = locks }) launches t)
      → (release_after_error lease (r, t)).0 ≡ err e
      → IsAt executor launches (release_after_error lease (r, t)).1
  unfolding released
  released_back executor launches lease locks (ok a) t e free raised h = cc
  released_back executor launches lease locks (err x) t e free raised h =
      let (same, none_launched) = raised x refl in
      (
        ap (λ (y : Executor). record y { locks = release_lease lease y.locks }) same
            ∙ ap (λ (y : Locks). record executor { locks = y }) free,
        none_launched,
      )

  module _ ⦃u : Unicode⦄ (call : TrackedRun) (run_id : String) (clock : Readings) (now : ℕ) where
    abbrev body : Option ExecutionLease → Action Server Begun
    body lease = releasing lease (begin_leased call lease run_id clock now)

    abbrev after_lease : Server → Result (Option ExecutionLease) × Locks → Result Begun × Server
    after_lease self out =
        ((λ (s : Server). (out.0, record s { executor = record s.executor { locks = out.1 } }))
            >>= body)
          self

    body_back :
        (self : Server) (lease : Option ExecutionLease) (locks : Locks) (e : Error)
        → release_lease lease locks ≡ self.executor.locks
        → (body lease (record self { executor = record self.executor { locks = locks } })).0 ≡ err e
        → IsAt self.executor self.launches
            (body lease (record self { executor = record self.executor { locks = locks } })).1
    unfolding releasing
    body_back self lease locks e free h =
        let at_locks = record self { executor = record self.executor { locks = locks } } in
        let m = begin_leased call lease run_id clock now in
        released_back self.executor self.launches lease locks (m at_locks).0 (m at_locks).1 e free
          (λ x r.
            (begin_leased-Raises (record self.executor { locks = locks }) self.launches call lease
                run_id clock now).at
              at_locks (refl, refl) x r)
          h

    after_lease_back :
        (self : Server) {limit : Option ℕ} (target : String)
        (out : Result (Option ExecutionLease) × Locks) (e : Error)
        → Acquired target limit self.executor.locks out
        → (after_lease self out).0 ≡ err e
        → IsAt self.executor self.launches (after_lease self out).1
    unfolding ◌>>=◌
    after_lease_back self target out e (refused x is) h =
        subst (λ o. IsAt self.executor self.launches (after_lease self o).1) (sym is) (refl, refl)
    after_lease_back self target out e (unlimited is) h =
        subst (λ o. IsAt self.executor self.launches (after_lease self o).1) (sym is)
          (body_back self none self.executor.locks e refl
            (subst (λ o. (after_lease self o).0 ≡ err e) is h))
    after_lease_back self target out e (leased n k l low free is) h =
        let lease = slot_of target k in
        subst (λ o. IsAt self.executor self.launches (after_lease self o).1) (sym is)
          (body_back self (some lease) (lease ∷ self.executor.locks) e
            (release_first lease self.executor.locks free)
            (subst (λ o. (after_lease self o).0 ≡ err e) is h))

    begin_tracked_back :
        (self : Server) (e : Error)
        → (begin_tracked call run_id clock now self).0 ≡ err e
        → IsAt self.executor self.launches (begin_tracked call run_id clock now self).1
    unfolding begin_tracked on_locks acquire_execution_lease ◌>>=◌
    begin_tracked_back self e h =
        after_lease_back self call.request.target _ e
          (acquire-Acquired call.request.target call.request.execution_class
            call.target.max_heavy_concurrency self.executor.locks)
          h

  module _ ⦃u : Unicode⦄ (executor : Executor) (launches : List Launch) where
    run_plan-Raises :
        (plan : Plan) (target : Target) (run_id : String) (clock : Readings) (now : ℕ)
        → Raises
            (IsAt executor launches)
            (IsAt executor launches)
            (run_plan plan target run_id clock now)
    unfolding run_plan
    run_plan-Raises plan target run_id clock now =
        Raises-then (λ s h. h) (Keeps-lift (IsAt executor launches) _)
          (λ command _. record {
            at = λ s h e r.
                let (same, none_launched) =
                  begin_tracked_back (tracked_run plan target command) run_id clock now s e r in
                (same ∙ h.0, none_launched ∙ h.1);
          })

    execute-Raises :
        (call : ExecutionCall) (run_id : String) (clock : Readings) (now : ℕ)
        → Raises (IsAt executor launches) (IsAt executor launches) (execute call run_id clock now)
    unfolding execute
    execute-Raises call run_id clock now =
        Raises-then (λ s h. h) (plan_of-Keeps (IsAt executor launches) call)
          (λ plan _.
            Raises-then (λ s h. h) (target_runtime-Keeps (IsAt executor launches) _ _ _)
              (λ target _.
                Raises-then (λ s h. h) (Keeps-lift (IsAt executor launches) _)
                  (λ _ _.
                    Raises-if (is_synchronous call) _ _
                      (λ _. run_plan-Raises plan target run_id clock now)
                      (λ _. start_plan-Raises executor launches plan run_id clock now))))

  -- A tool that executes and raises before the run has begun leaves the service as it was, its
  -- runs and the locked files included, and has not called `run_ssh`; only the mark of the task may
  -- stand.
  pub raised_begins_nothing :
      ⦃u : Unicode⦄
      → (call : ExecutionCall) (run_id : String) (clock : Readings) (now : ℕ) (self : Server)
        (e : Error)
      → (execute call run_id clock now self).0 ≡ err e
      → ((execute call run_id clock now self).1.executor ≡ self.executor)
        × ((execute call run_id clock now self).1.launches ≡ self.launches)
  raised_begins_nothing call run_id clock now self e h =
      (execute-Raises self.executor self.launches call run_id clock now).at self (refl, refl) e h
