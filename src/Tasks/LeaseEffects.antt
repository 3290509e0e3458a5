-- ===== src/Tasks/LeaseEffects.antt =====
-- src/hypershell_reach/tasks.py: what the methods on execution leases do to the store.
use hypershell_reach.Base.{
  ℕ, ◌≡◌, refl, sym, ap, ◌∙◌, String, Bool, true, false, not, Option, none, some, arith,
}
use hypershell_reach.Base.Result.{ok}
use hypershell_reach.Base.Action.{pure}
use hypershell_reach.Base.Keeps.{
  Keeps, Any, Keeps-then, Keeps-pure, Keeps-gets_as, Keeps-lift, Keeps-or_raise, Keeps-raise_if,
  Keeps-raise,
}
use hypershell_reach.Base.Leads.{
  Leads, Keeps-Leads, Leads-then, Leads-if, Leads-after, Leads-modify,
}
use hypershell_reach.Base.Table.{lookup}
use hypershell_reach.Tasks.Record.{TaskExecutionLease, TaskRecord, is_lease}
use hypershell_reach.Tasks.Store.{TaskStore, require_open}
use hypershell_reach.Tasks.Leases.{
  write_execution_lease, construct_lease, acquire_unless, acquire_execution_lease, new_lease,
  refreshed_lease, refresh_current, refresh_execution_lease, release_current,
  release_execution_lease, authorize_execution_lease, is_owner, owned, busy, granted,
  remove_execution_lease,
}
use hypershell_reach.Tasks.Valid.{is_current}
use hypershell_reach.Tasks.Effect.{
  Kind, Pruned, same, dropped, tasks-Pruned, Effect, nothing, leased,
}
use hypershell_reach.Tasks.Parts.{
  IsFound, read_open-IsFound, active-Pruned, is_optional_lease, require_lease-Pruned,
  Keeps-require_writable, Keeps-validate_task_id, Leads-lock,
}

module _ (task_id : String) (s : TaskStore) where
  current_of_found :
      {self : TaskRecord}
      → IsFound task_id false s self
      → is_current (lookup task_id s.tasks) ≡ true
  current_of_found f = rw f.there (ap not f.placed)

construct_lease-eq-ok :
    (wanted : TaskExecutionLease) {lease : TaskExecutionLease}
    → construct_lease wanted ≡ ok lease
    → is_lease lease ≡ true
construct_lease-eq-ok wanted made = ground arith

module _ (may : Kind → String → Bool) (task_id : String) (s : TaskStore) where
  abbrev P : TaskStore → Type 0
  P = Pruned task_id s

  abbrev R : TaskStore → Type 0
  R = Effect may s

  out : (t : TaskStore) → P t → R t
  out t p = nothing task_id p

  write_lease-Leads :
      (lease : TaskExecutionLease)
      → is_lease lease ≡ true
      → is_current (lookup task_id s.tasks) ≡ true
      → Leads P R (write_execution_lease task_id lease)
  unfolding write_execution_lease
  write_lease-Leads lease accepted current =
      Leads-then out (Keeps-require_writable P)
        (λ _ _. Leads-modify _ (λ t p. leased task_id lease p accepted current refl))

  acquire_unless-Leads :
      (wanted : TaskExecutionLease) (current : Option TaskExecutionLease)
      → is_current (lookup task_id s.tasks) ≡ true
      → Leads P R (acquire_unless task_id wanted current)
  unfolding acquire_unless
  acquire_unless-Leads wanted (some current) is_now =
      Leads-if P R (is_owner wanted.executor_id wanted.scope current) _ _
        (λ ours. Keeps-Leads (Keeps-pure P Any (owned current) tt) out)
        (λ theirs. Keeps-Leads (Keeps-pure P Any (busy current) tt) out)
  acquire_unless-Leads wanted none is_now =
      Leads-then out (Keeps-lift P (construct_lease wanted)) (λ lease made.
        Leads-after (write_lease-Leads lease (construct_lease-eq-ok wanted made) is_now)
          (λ _. Keeps-Leads (Keeps-pure R Any (granted "acquired" lease) tt) (λ t r. r)))

  pub acquire-Effect :
      (executor_id scope : String) (lease_seconds : ℕ) (lease_id : String) (checked now : ℕ)
      → Effect may s
          (acquire_execution_lease task_id executor_id scope lease_seconds lease_id checked now s).1
  unfolding acquire_execution_lease
  acquire-Effect executor_id scope lease_seconds lease_id checked now =
      let l = Leads-then out (Keeps-require_writable P) (λ _ _.
        Leads-then out (Keeps-raise_if P _ _) (λ _ _. Leads-then out (Keeps-raise_if P _ _) (λ _ _.
          Leads-then out (Keeps-raise_if P _ _) (λ _ _. Leads-lock P R out task_id _ (
            Leads-then out (read_open-IsFound task_id s (λ t p. tasks-Pruned p)) (λ self found.
              Leads-then out (active-Pruned task_id checked) (λ current _.
                acquire_unless-Leads (new_lease lease_id executor_id scope lease_seconds now)
                  current (current_of_found task_id s found)))))))) in
      l.at s same

  keep_out : {A : Type 0} (a : A) → Leads R R (pure a)
  keep_out a = Keeps-Leads (Keeps-pure R Any a tt) (λ t r. r)

  require_open-IsFound :
      Keeps P (λ self. is_current (lookup task_id s.tasks) ≡ true) (require_open task_id)
  unfolding require_open
  require_open-IsFound = Keeps-then (Keeps-validate_task_id P task_id) (λ _ _.
      Keeps-then
        (Keeps-gets_as P (λ o. o ≡ lookup task_id s.tasks) _
          (λ t p. ap (λ x. lookup task_id x) (tasks-Pruned p)))
        (λ o is_o. Keeps-then (Keeps-or_raise P o _) (λ row is_row.
          Keeps-then (Keeps-lift P _) (λ self _. Keeps-then (Keeps-raise_if P _ _) (λ _ _.
            Keeps-then (Keeps-raise_if P _ _) (λ _ current.
              Keeps-then (Keeps-raise_if P _ _)
                (λ _ _. Keeps-pure P _ self (rw (sym is_o ∙ is_row) (ap not current)))))))))

  refresh_current-Leads :
      (lease_id : String) (lease_seconds now : ℕ) (current : Option TaskExecutionLease)
      → is_current (lookup task_id s.tasks) ≡ true
      → is_optional_lease current ≡ true
      → Leads P R (refresh_current task_id lease_id lease_seconds now current)
  unfolding refresh_current is_lease
  refresh_current-Leads lease_id lease_seconds now none is_now accepted =
      Keeps-Leads (Keeps-raise P Any _) out
  refresh_current-Leads lease_id lease_seconds now (some current) is_now accepted =
      Leads-then out (Keeps-raise_if P _ _) (λ _ _.
        Leads-after (write_lease-Leads (refreshed_lease lease_seconds now current) accepted is_now)
          (λ _. keep_out _))

  pub refresh-Effect :
      (lease_id : String) (lease_seconds checked now : ℕ)
      → Effect may s (refresh_execution_lease task_id lease_id lease_seconds checked now s).1
  unfolding refresh_execution_lease
  refresh-Effect lease_id lease_seconds checked now =
      let l = Leads-then out (Keeps-require_writable P) (λ _ _.
        Leads-then out (Keeps-raise_if P _ _) (λ _ _. Leads-then out (Keeps-raise_if P _ _) (λ _ _.
          Leads-lock P R out task_id _ (
            Leads-then out require_open-IsFound (λ self current.
              Leads-then out (Keeps-raise_if P _ _) (λ _ _.
                Leads-then out (active-Pruned task_id checked) (λ lease accepted.
                  refresh_current-Leads lease_id lease_seconds now lease current accepted))))))) in
      l.at s same

  release_current-Leads :
      (lease_id : String) (current : Option TaskExecutionLease)
      → Leads P R (release_current task_id lease_id current)
  unfolding release_current remove_execution_lease
  release_current-Leads lease_id none = Keeps-Leads (Keeps-pure P Any _ tt) out
  release_current-Leads lease_id (some current) =
      Leads-then out (Keeps-raise_if P _ _)
        (λ _ _. Leads-after (Leads-modify _ (λ t p. nothing task_id (dropped p))) (λ _. keep_out _))

  pub release-Effect :
      (lease_id : String) (checked : ℕ)
      → Effect may s (release_execution_lease task_id lease_id checked s).1
  unfolding release_execution_lease
  release-Effect lease_id checked =
      let l = Leads-then out (Keeps-require_writable P) (λ _ _.
        Leads-then out (Keeps-raise_if P _ _) (λ _ _. Leads-lock P R out task_id _ (
          Leads-then out require_open-IsFound (λ self current.
            Leads-then out (Keeps-raise_if P _ _) (λ _ _.
              Leads-then out (active-Pruned task_id checked)
                (λ lease accepted. release_current-Leads lease_id lease)))))) in
      l.at s same

  pub authorize-Effect :
      (task_lease_id : Option String) (checked : ℕ)
      → Effect may s (authorize_execution_lease task_id task_lease_id checked s).1
  unfolding authorize_execution_lease
  authorize-Effect task_lease_id checked =
      let l = Leads-then out (Keeps-require_writable P) (λ _ _. Leads-lock P R out task_id _ (
        Leads-then out (read_open-IsFound task_id s (λ t p. tasks-Pruned p))
          (λ self found. Keeps-Leads (require_lease-Pruned task_id task_lease_id checked) out))) in
      l.at s same
