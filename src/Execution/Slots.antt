-- ===== src/Execution/Slots.antt =====
-- src/hypershell_reach/execution.py: the slot that an execution gets.
use hypershell_reach.Base.{
  ℕ, zero, suc, ◌+◌, ◌≤◌, ◌<◌, ◌≡◌, refl, ap, ◌∙◌, ◌⊎◌, inl, inr, String, true, false, some, ◌∷◌,
  arith, Bool-cases, ◌==◌,
}
use hypershell_reach.Base.Text.{◌<>◌}
use hypershell_reach.Base.Result.{ok, err, runtime_error}
use hypershell_reach.Runs.Record.{RunExecutionClass, is_normal}
use hypershell_reach.Execution.Lease.{
  ExecutionLease, Locks, is_locked, acquire_from, acquire_for, acquire_execution_lease,
}

abbrev pub slot_of : String → ℕ → ExecutionLease
slot_of target slot = record { target = target; slot = slot }

-- The slots from `slot` on that are left, `n` of them.
acquire_from-cases :
    (target : String) (n slot : ℕ) (locks : Locks)
    → ((k : ℕ) × (slot ≤ k)
        × (k < slot + n)
        × (is_locked (slot_of target k) locks ≡ false)
        × (acquire_from target n slot locks
            ≡ (ok (some (slot_of target k)), slot_of target k ∷ locks)))
      ⊎ (((k : ℕ) → slot ≤ k → k < slot + n → is_locked (slot_of target k) locks ≡ true)
          × (acquire_from target n slot locks ≡ (
            err (runtime_error ("heavy execution limit reached for target " <> target)),
            locks,
          )))
unfolding acquire_from
acquire_from-cases target zero slot locks = inr ((λ k low high. absurd (omega arith)), refl)
acquire_from-cases target (suc n) slot locks =
    elim (Bool-cases (is_locked (slot_of target slot) locks)) [
      | inr free ↦ inl (slot, omega arith, omega arith, free, rw free refl)
      | inl taken ↦ elim (acquire_from-cases target n (suc slot) locks) [
        | inl (k, low, high, free, made) ↦
            inl (k, omega arith, omega arith, free, rw (taken, made) refl)
        | inr (all_taken, refused) ↦ inr (
          (λ k low high. elim (Bool-cases (k == slot)) [
            | inl first ↦
                let same : k ≡ slot = ground arith in
                ap (λ i. is_locked (slot_of target i) locks) same ∙ taken
            | inr later ↦ all_taken k (ground arith) (omega arith)
          ]),
          rw (taken, refused) refl,
        )
      ]
    ]

-- For a heavy execution on a target with a limit: `acquire_execution_lease` takes a slot below the
-- limit that nobody holds, if there is one, and locks it and nothing else; if all of them are held
-- it raises and locks nothing.
pub acquire_execution_lease-cases :
    (target : String) (execution_class : RunExecutionClass) (limit : ℕ) (locks : Locks)
    → is_normal execution_class ≡ false
    → ((k : ℕ) × (k < limit)
        × (is_locked (slot_of target k) locks ≡ false)
        × (acquire_execution_lease target execution_class (some limit) locks
            ≡ (ok (some (slot_of target k)), slot_of target k ∷ locks)))
      ⊎ (((k : ℕ) → k < limit → is_locked (slot_of target k) locks ≡ true)
          × (acquire_execution_lease target execution_class (some limit) locks ≡ (
            err (runtime_error ("heavy execution limit reached for target " <> target)),
            locks,
          )))
unfolding acquire_execution_lease acquire_for
acquire_execution_lease-cases target execution_class limit locks heavy =
    elim (acquire_from-cases target limit 0 locks) [
      | inl (k, low, high, free, made) ↦ inl (k, omega arith, free, rw (heavy, made) refl)
      | inr (all_taken, refused) ↦
          inr ((λ k high. all_taken k (omega arith) (omega arith)), rw (heavy, refused) refl)
    ]
