-- ===== src/Execution/Locks.antt =====
-- src/hypershell_reach/execution.py: which files stay locked when one is locked or released.
use hypershell_reach.Base.{
  ℕ, ◌≡◌, ◌≢◌, refl, sym, ap, ◌∙◌, inl, inr, String, true, false, Option, none, some, [], ◌∷◌,
  arith, Bool-cases, ◌==◌, true-and, ◌<◌,
}
use hypershell_reach.Base.Text.{str_eq, str_eq_iff, str_eq_refl}
use hypershell_reach.Base.Result.{Error, Result, ok, err}
use hypershell_reach.Runs.Record.{RunExecutionClass}
use hypershell_reach.Execution.Lease.{
  ExecutionLease, Locks, same_file, is_locked, release, acquire_for, acquire_execution_lease,
}
use hypershell_reach.Execution.Slots.{slot_of, acquire_execution_lease-cases}

pub same_file_refl : (a : ExecutionLease) → same_file a a ≡ true
same_file_refl a = ground (arith, str_eq_refl a.target)

pub same_file_eq : (a b : ExecutionLease) → same_file a b ≡ true → a ≡ b
same_file_eq a b h =
    let (targets, slots) = true-and (str_eq a.target b.target) (a.slot == b.slot) h in
    let same_target : a.target ≡ b.target = (str_eq_iff a.target b.target).0 targets in
    let same_slot : a.slot ≡ b.slot = ground arith in
    ap (λ (t : String). slot_of t a.slot) same_target ∙ ap (λ (n : ℕ). slot_of b.target n) same_slot

pub different_file : (a b : ExecutionLease) → a ≢ b → same_file a b ≡ false
different_file a b other = elim (Bool-cases (same_file a b)) [
  | inl same ↦ absurd (other (same_file_eq a b same))
  | inr differs ↦ differs
]

pub is_locked-release :
    (m l : ExecutionLease) (locks : Locks)
    → m ≢ l
    → is_locked m locks ≡ true
    → is_locked m (release l locks) ≡ true
unfolding release
is_locked-release m l [] other h = h
is_locked-release m l (x ∷ locks) other h = elim (Bool-cases (same_file m x)) [
  | inl here ↦
      let is_m : m ≡ x = same_file_eq m x here in
      let kept : same_file l x ≡ false = different_file l x (λ same. other (is_m ∙ sym same)) in
      rw (kept, here) refl
  | inr there ↦
      let rest : is_locked m (release l locks) ≡ true =
        is_locked-release m l locks other (rw there at h) in
      elim (Bool-cases (same_file l x)) [
        | inl gone ↦ rw gone rest
        | inr kept ↦ rw (kept, there) rest
      ]
]

-- What `acquire_execution_lease` may give.
pub data Acquired (target : String) (limit : Option ℕ) (locks : Locks)
    : Result (Option ExecutionLease) × Locks → Type 0 where
  refused :
      {out : Result (Option ExecutionLease) × Locks} (e : Error)
      → out ≡ (err e, locks)
      → Acquired target limit locks out
  unlimited :
      {out : Result (Option ExecutionLease) × Locks}
      → out ≡ (ok none, locks)
      → Acquired target limit locks out
  leased :
      {out : Result (Option ExecutionLease) × Locks} (n k : ℕ)
      → limit ≡ some n
      → k < n
      → is_locked (slot_of target k) locks ≡ false
      → out ≡ (ok (some (slot_of target k)), slot_of target k ∷ locks)
      → Acquired target limit locks out

pub acquire-Acquired :
    (target : String) (execution_class : RunExecutionClass) (limit : Option ℕ) (locks : Locks)
    → Acquired target limit locks (acquire_execution_lease target execution_class limit locks)
unfolding acquire_execution_lease acquire_for
acquire-Acquired target RunExecutionClass.normal limit locks = unlimited refl
acquire-Acquired target RunExecutionClass.heavy none locks = unlimited refl
acquire-Acquired target RunExecutionClass.heavy (some n) locks =
    elim (acquire_execution_lease-cases target RunExecutionClass.heavy n locks refl) [
      | inl (k, low, free, made) ↦ leased n k refl low free made
      | inr (all_taken, none_left) ↦ refused _ none_left
    ]
