-- ===== src/Server/Limits.antt =====
-- src/hypershell_reach/server.py: the limits of the runs that tools begin.
use mathlib.Core.Path.{subst}
use hypershell_reach.Base.{
  ℕ, ◌≤◌, ◌≡◌, refl, sym, String, Bool, true, false, ◌&&◌, Option, arith, ltb,
}
use hypershell_reach.Base.Result.{ok}
use hypershell_reach.Base.Keeps.{
  Keeps, Any, Keeps-then, Keeps-pure, Keeps-gets_as, Keeps-lift, Keeps-raise_if,
}
use hypershell_reach.Base.Ensures.{Ensures, Ensures-after, Ensures-weaken, Ensures-from}
use hypershell_reach.Config.Model.{
  ReachConfig, Target, check_config, enabled_target, resolved_max_timeout,
  resolved_max_synchronous_timeout,
}
use hypershell_reach.Config.Limits.{enabled_target-HasLimits}
use hypershell_reach.Runs.Record.{Unicode}
use hypershell_reach.Tasks.Closing.{Readings}
use hypershell_reach.Tools.Model.{Python}
use hypershell_reach.Server.Model.{Server, Begun, prepare_task_execution, target_runtime}
use hypershell_reach.Server.Routes.{ExecutionCall, execute, is_synchronous}
use hypershell_reach.Server.Parts.{plan_of-Keeps}
use hypershell_reach.Server.Planned.{begun-IsPlanned}

module _ ⦃p : Python⦄ where
  prepare_always :
      (task_id : Option String) (may_mutate : Bool) (purpose : String)
      (task_lease_id : Option String) (clock : Readings)
      → Keeps
          (λ (s : Server). Unit {0})
          Any
          (prepare_task_execution task_id may_mutate purpose task_lease_id clock)
  prepare_always task_id may_mutate purpose task_lease_id clock = record {
    at = λ s k. tt;
    returns = λ s k a e. tt;
  }

  -- The target that a call may use, for its timeout.
  pub record IsWithin (config : ReachConfig) (target_id : String) (requested : ℕ)
      (synchronous : Bool) (target : Target) : Type 0 where
    pub chosen : enabled_target config target_id ≡ ok target
    pub in_time : requested ≤ resolved_max_timeout config target
    pub in_synchronous_time :
        synchronous ≡ true → requested ≤ resolved_max_synchronous_timeout config target

  -- The limit of a tool that awaits its run, and of one that does not.
  abbrev pub limit_for : Bool → ReachConfig → Target → ℕ
  limit_for true config target = resolved_max_synchronous_timeout config target
  limit_for false config target = resolved_max_timeout config target

  limit_fits :
      (synchronous : Bool) (config : ReachConfig) (target : Target) (n : ℕ)
      → n ≤ resolved_max_timeout config target
      → (synchronous ≡ true → n ≤ resolved_max_synchronous_timeout config target)
      → n ≤ limit_for synchronous config target
  limit_fits true config target n h k = k refl
  limit_fits false config target n h k = h

  within :
      (config : ReachConfig) (target_id : String) (requested : ℕ) (synchronous : Bool)
      (target : Target)
      → enabled_target config target_id ≡ ok target
      → ltb (resolved_max_timeout config target) requested ≡ false
      → (synchronous && ltb (resolved_max_synchronous_timeout config target) requested) ≡ false
      → IsWithin config target_id requested synchronous target
  within config target_id requested synchronous target chosen h k = record {
    chosen = chosen;
    in_time = ground arith;
    in_synchronous_time = λ s. ground arith;
  }

  target_runtime-IsWithin :
      (config : ReachConfig) (target_id : String) (requested : ℕ) (synchronous : Bool)
      → Keeps
          (λ (s : Server). s.executor.config ≡ config)
          (IsWithin config target_id requested synchronous)
          (target_runtime target_id requested synchronous)
  unfolding target_runtime
  target_runtime-IsWithin config target_id requested synchronous =
      let P : Server → Type 0 = λ s. s.executor.config ≡ config in
      Keeps-then
        (Keeps-gets_as (λ (s : Server). s.executor.config ≡ config) (λ c. c ≡ config) _ (λ s h. h))
        (λ c is_config. Keeps-then (Keeps-lift _ _) (λ target chosen.
          Keeps-then (Keeps-raise_if _ _ _) (λ _ in_time.
            Keeps-then (Keeps-raise_if _ _ _) (λ _ in_synchronous. Keeps-pure _ _ target (
              subst (λ d. IsWithin d target_id requested synchronous target) is_config
                (within c target_id requested synchronous target chosen in_time in_synchronous))))))

  module _ ⦃u : Unicode⦄ where
    execute-IsWithin :
        (config : ReachConfig) (call : ExecutionCall) (run_id : String) (clock : Readings) (now : ℕ)
        → Ensures
            (λ (s : Server). s.executor.config ≡ config)
            (λ begun _.
              (target : Target) × IsWithin config begun.run.target begun.run.timeout_seconds
                (is_synchronous call)
                target)
            (execute call run_id clock now)
    unfolding execute
    execute-IsWithin config call run_id clock now =
        Ensures-after (plan_of-Keeps (λ (s : Server). s.executor.config ≡ config) call) (λ plan _.
          Ensures-after (target_runtime-IsWithin config _ _ _) (λ target w.
            Ensures-after (Keeps-lift (λ (s : Server). s.executor.config ≡ config) _) (λ _ _.
              Ensures-from (λ s h. tt)
                (Ensures-weaken
                  (begun-IsPlanned (λ t. Unit {0}) plan (λ c. prepare_always _ _ _ _ c)
                    (is_synchronous call) target run_id clock now)
                  (λ begun t h. (
                    target,
                    subst
                        (λ g.
                          IsWithin config g begun.run.timeout_seconds (is_synchronous call) target)
                        (sym h.1.same_target)
                        (subst
                          (λ n.
                            IsWithin config plan.submission.target n (is_synchronous call) target)
                          (sym h.1.same_timeout) w),
                  ))))))

    -- On a server whose configuration the validators accept, the target of a run that a tool begins
    -- is configured and enabled, and the timeout of the run is within that target's limit, and for
    -- a tool that awaits the run also within its limit for those, so at most 900 seconds.
    pub begun_within_limits :
        (call : ExecutionCall) (run_id : String) (clock : Readings) (now : ℕ) (self : Server)
        (begun : Begun)
        → check_config self.executor.config ≡ ok tt
        → (execute call run_id clock now self).0 ≡ ok begun
        → (target : Target) × (enabled_target self.executor.config begun.run.target ≡ ok target)
          × (begun.run.timeout_seconds ≤ resolved_max_timeout self.executor.config target)
          × (begun.run.timeout_seconds
              ≤ limit_for (is_synchronous call) self.executor.config target)
          × (begun.run.timeout_seconds ≤ 900)
    begun_within_limits call run_id clock now self begun accepted e =
        let (target, w) =
          (execute-IsWithin self.executor.config call run_id clock now).at self refl begun e in
        let limits =
          enabled_target-HasLimits self.executor.config begun.run.target target accepted w.chosen in
        let (low, high) = limits.execution in
        let in_time = w.in_time in
        (
          target,
          w.chosen,
          in_time,
          limit_fits (is_synchronous call) self.executor.config target _ in_time
              w.in_synchronous_time,
          omega arith,
        )
