-- ===== src/Executor/Leases.antt =====
-- src/hypershell_reach/executor.py: the leases that the service holds.
use mathlib.Core.Path.{subst}
use mathlib.Core.Option.{some-injective}
use hypershell_reach.Base.{
  ℕ, ◌<◌, ◌≡◌, ◌≢◌, refl, sym, ap, ◌∙◌, ◌⊎◌, inl, inr, String, Bool, true, false, ◌||◌, none, some,
  ◌∷◌, Bool-cases, Option-cases, is_some,
}
use hypershell_reach.Base.Text.{str_eq, str_eq_iff, str_eq_refl}
use hypershell_reach.Base.Table.{Table, lookup, upsert, delete, lookup-upsert, lookup-delete}
use hypershell_reach.Config.Model.{ReachConfig, Target}
use hypershell_reach.Runs.Record.{Unicode}
use hypershell_reach.Runs.Store.{RunStore}
use hypershell_reach.Execution.Lease.{ExecutionLease, is_locked}
use hypershell_reach.Execution.Locks.{is_locked-release, same_file_refl}
use hypershell_reach.Executor.Service.{Executor, OwnedTask, release_lease}

module _ ⦃u : Unicode⦄ where
  -- Each lease belongs to a run that has a task, its file is locked, no two runs share a file, and
  -- its slot is below the limit of its target.
  pub record HoldsLeases (self : Executor) : Type 0 where
    pub owned :
        (run_id : String) (lease : ExecutionLease)
        → lookup run_id self.leases ≡ some lease
        → is_some (lookup run_id self.tasks) ≡ true
    pub locked :
        (run_id : String) (lease : ExecutionLease)
        → lookup run_id self.leases ≡ some lease
        → is_locked lease self.locks ≡ true
    pub alone :
        (j k : String) (lease : ExecutionLease)
        → lookup j self.leases ≡ some lease
        → lookup k self.leases ≡ some lease
        → j ≡ k
    pub below :
        (run_id : String) (lease : ExecutionLease)
        → lookup run_id self.leases ≡ some lease
        → (target : Target) × (limit : ℕ) × (lookup lease.target self.config.targets ≡ some target)
          × (target.max_heavy_concurrency ≡ some limit)
          × (lease.slot < limit)

  -- A turn that leaves the leases and no task out.
  pub record Carries (self other : Executor) : Type 0 where
    pub same_config : other.config ≡ self.config
    pub same_leases : other.leases ≡ self.leases
    pub keeps_tasks :
        (k : String) → is_some (lookup k self.tasks) ≡ true → is_some (lookup k other.tasks) ≡ true
    pub keeps_locks :
        (k : String) (lease : ExecutionLease)
        → lookup k self.leases ≡ some lease
        → is_locked lease self.locks ≡ true
        → is_locked lease other.locks ≡ true

  pub carry : {self other : Executor} → Carries self other → HoldsLeases self → HoldsLeases other
  carry {self} {other} c h =
      let back = λ (k : String) (l : ExecutionLease) (found : lookup k other.leases ≡ some l).
        ap (λ t. lookup k t) (sym c.same_leases) ∙ found in
      record {
        owned = λ k l found. c.keeps_tasks k (h.owned k l (back k l found));
        locked = λ k l found. c.keeps_locks k l (back k l found) (h.locked k l (back k l found));
        alone = λ j k l f g. h.alone j k l (back j l f) (back k l g);
        below = λ k l found.
            subst
              (λ (config : ReachConfig).
                (target : Target) × (limit : ℕ) × (lookup l.target config.targets ≡ some target)
                × (target.max_heavy_concurrency ≡ some limit)
                × (l.slot < limit))
              (sym c.same_config) (h.below k l (back k l found));
      }

  pub upsert_keeps :
      (j : String) (task : OwnedTask) (t : Table OwnedTask) (k : String)
      → is_some (lookup k t) ≡ true
      → is_some (lookup k (upsert j task t)) ≡ true
  upsert_keeps j task t k there = elim (Bool-cases (str_eq j k)) [
    | inl same ↦ rw (lookup-upsert j k task t, same) refl
    | inr other ↦ rw (lookup-upsert j k task t, other) there
  ]

  upsert_cases :
      (j k : String) (a b : ExecutionLease) (t : Table ExecutionLease)
      → lookup k (upsert j a t) ≡ some b
      → ((j ≡ k) × (a ≡ b)) ⊎ (lookup k t ≡ some b)
  upsert_cases j k a b t found = elim (Bool-cases (str_eq j k)) [
    | inl same ↦
        let written : some a ≡ some b = rw (lookup-upsert j k a t, same) at found in
        inl ((str_eq_iff j k).0 same, some-injective a b written)
    | inr other ↦ inr (rw (lookup-upsert j k a t, other) at found)
  ]

  delete_cases :
      (j k : String) (b : ExecutionLease) (t : Table ExecutionLease)
      → lookup k (delete j t) ≡ some b
      → (str_eq j k ≡ false) × (lookup k t ≡ some b)
  delete_cases j k b t found = elim (Bool-cases (str_eq j k)) [
    | inl same ↦ let gone : none ≡ some b = rw (lookup-delete j k t, same) at found in cc
    | inr other ↦ (other, rw (lookup-delete j k t, other) at found)
  ]

  pub or-true : (b : Bool) → (b || true) ≡ true
  or-true true = refl
  or-true false = refl

  -- A run is taken on with a lease of its own.
  pub lease_added :
      (run_id : String) (lease : ExecutionLease) (task : OwnedTask) (store : RunStore)
      (self : Executor) (target : Target) (limit : ℕ)
      → HoldsLeases self
      → lookup run_id self.tasks ≡ none
      → is_locked lease self.locks ≡ false
      → lookup lease.target self.config.targets ≡ some target
      → target.max_heavy_concurrency ≡ some limit
      → lease.slot < limit
      → HoldsLeases (record self {
        store = store;
        locks = lease ∷ self.locks;
        leases = upsert run_id lease self.leases;
        tasks = upsert run_id task self.tasks;
      })
  lease_added run_id lease task store self target limit h new free known limited low =
      let split : (k : String) (l : ExecutionLease)
          → lookup k (upsert run_id lease self.leases) ≡ some l
          → ((run_id ≡ k) × (lease ≡ l)) ⊎ (lookup k self.leases ≡ some l) =
        λ k l found. upsert_cases run_id k lease l self.leases found in
      let not_ours : (k : String) → lookup k self.leases ≢ some lease =
        λ k found. let held : is_locked lease self.locks ≡ true = h.locked k lease found in cc in
      record {
        owned = λ k l found. elim (split k l found) [
          | inl (same, _) ↦
              subst (λ i. is_some (lookup i (upsert run_id task self.tasks)) ≡ true) same
                (rw (lookup-upsert run_id run_id task self.tasks, str_eq_refl run_id) refl)
          | inr before ↦ upsert_keeps run_id task self.tasks k (h.owned k l before)
        ];
        locked = λ k l found. elim (split k l found) [
          | inl (_, same) ↦
              subst (λ m. is_locked m (lease ∷ self.locks) ≡ true) same
                (rw (same_file_refl lease) refl)
          | inr before ↦ rw (h.locked k l before) (or-true _)
        ];
        alone = λ j k l f g. elim (split j l f) [
          | inl (ours, same) ↦ elim (split k l g) [
            | inl (ours', _) ↦ sym ours ∙ ours'
            | inr before ↦ absurd (not_ours k (before ∙ ap some (sym same)))
          ]
          | inr before ↦ elim (split k l g) [
            | inl (ours, same) ↦ absurd (not_ours j (before ∙ ap some (sym same)))
            | inr before' ↦ h.alone j k l before before'
          ]
        ];
        below = λ k l found. elim (split k l found) [
          | inl (_, same) ↦
              subst
                (λ (m : ExecutionLease).
                  (target : Target) × (limit : ℕ) × (lookup m.target self.config.targets
                    ≡ some target)
                  × (target.max_heavy_concurrency ≡ some limit)
                  × (m.slot < limit))
                same (target, limit, known, limited, low)
          | inr before ↦ h.below k l before
        ];
      }

  -- The callback of an ended task gives up its lease, and no other.
  pub lease_removed :
      (run_id : String) (store : RunStore) (self : Executor)
      → HoldsLeases self
      → HoldsLeases (record self {
        store = store;
        locks = release_lease (lookup run_id self.leases) self.locks;
        leases = delete run_id self.leases;
        tasks = delete run_id self.tasks;
      })
  lease_removed run_id store self h =
      let split : (k : String) (l : ExecutionLease)
          → lookup k (delete run_id self.leases) ≡ some l
          → (str_eq run_id k ≡ false) × (lookup k self.leases ≡ some l) =
        λ k l found. delete_cases run_id k l self.leases found in
      record {
        owned = λ k l found.
            let (other, before) = split k l found in
            rw (lookup-delete run_id k self.tasks, other) (h.owned k l before);
        locked = λ k l found.
            let (other, before) = split k l found in
            elim (Option-cases (lookup run_id self.leases)) [
              | inl nothing ↦ rw nothing (h.locked k l before)
              | inr (mine, there) ↦ rw there (
                  is_locked-release l mine self.locks
                    (λ same.
                      let ours = h.alone run_id k mine there (before ∙ ap some same) in
                      let equal : str_eq run_id k ≡ true = (str_eq_iff run_id k).1 ours in cc)
                    (h.locked k l before))
            ];
        alone = λ j k l f g. h.alone j k l (split j l f).1 (split k l g).1;
        below = λ k l found. h.below k l (split k l found).1;
      }
