-- ===== src/Execution/Lease.antt =====
-- src/hypershell_reach/execution.py: the leases that hold a target's heavy executions to a limit.
use hypershell_reach.Base.{
  ℕ, zero, suc, String, Bool, true, false, ◌&&◌, Option, none, some, List, ◌∷◌, ◌==◌, any, keep,
  not, if◌then◌else◌,
}
use hypershell_reach.Base.Text.{str_eq, ◌<>◌}
use hypershell_reach.Base.Result.{ok, err, runtime_error}
use hypershell_reach.Base.Action.{Action}
use hypershell_reach.Runs.Record.{RunExecutionClass, is_normal}

-- An open file with its lock, by the file's name: `.heavy-{target}-{slot}.lock`.
pub record ExecutionLease : Type 0 where
  pub target : String
  pub slot : ℕ

-- The files that some process holds locked with `flock`.
abbrev pub Locks : Type 0
Locks = List ExecutionLease

abbrev pub same_file : ExecutionLease → ExecutionLease → Bool
same_file a b = str_eq a.target b.target && (a.slot == b.slot)

abbrev pub is_locked : ExecutionLease → Locks → Bool
is_locked lease locks = any (same_file lease) locks

-- `ExecutionLease.release` of a lease that was not released.
unfoldable pub release : ExecutionLease → Locks → Locks
release lease locks = keep (λ other. not (same_file lease other)) locks

-- The loop over the slots, for those that are left from `slot` on. `LOCK_NB` raises
-- `BlockingIOError` just when the file is locked.
unfoldable pub acquire_from : String → ℕ → ℕ → Action Locks (Option ExecutionLease)
acquire_from target zero slot locks =
    (err (runtime_error ("heavy execution limit reached for target " <> target)), locks)
acquire_from target (suc n) slot locks =
    let lease : ExecutionLease = record { target = target; slot = slot } in
    let rest = acquire_from target n (suc slot) locks in
    if is_locked lease locks then rest else (ok (some lease), lease ∷ locks)

unfoldable pub acquire_for : Bool → Option ℕ → String → Action Locks (Option ExecutionLease)
unfolding acquire_from
acquire_for true limit target locks = (ok none, locks)
acquire_for false none target locks = (ok none, locks)
acquire_for false (some limit) target locks = acquire_from target limit 0 locks

unfoldable pub acquire_execution_lease :
    String → RunExecutionClass → Option ℕ → Action Locks (Option ExecutionLease)
unfolding acquire_for
acquire_execution_lease target_id execution_class max_heavy_concurrency =
    acquire_for (is_normal execution_class) max_heavy_concurrency target_id
