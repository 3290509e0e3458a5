-- ===== src/Base/Atomic.antt =====
-- Actions that change nothing when they raise: what reads and checks before a transaction, and the
-- transaction.
use mathlib.Core.Path.{◌≡◌, refl, ◌∙◌}
use mathlib.Core.Bool.{true, not}
use hypershell_reach.Base.Result.{Error, Result, ok, err, is_ok}
use hypershell_reach.Base.Action.{Action, transaction, transaction_rolls_back, follow, ◌>>=◌}
use hypershell_reach.Base.Keeps.{Keeps}

pub record IsAtomic {S A : Type 0} (m : Action S A) : Type 0 where
  pub at : (s : S) (e : Error) → (m s).0 ≡ err e → (m s).1 ≡ s

pub transaction-IsAtomic : {S A : Type 0} (m : Action S A) → IsAtomic (transaction m)
transaction-IsAtomic m = record { at = λ s e h. transaction_rolls_back m s h }

-- An action only reads where it keeps every equation on the state.
pub record OnlyReads {S A : Type 0} (m : Action S A) : Type 0 where
  pub at : (s : S) → (m s).1 ≡ s

pub OnlyReads-of_Keeps :
    {S A : Type 0} {m : Action S A} {Q : A → Type 0}
    → ((s : S) → Keeps (λ t. t ≡ s) Q m)
    → OnlyReads m
OnlyReads-of_Keeps k = record { at = λ s. (k s).at s refl }

follow_undone :
    {S A B : Type 0} (r : Result A) (f : A → Action S B) (t s : S) (e : Error)
    → t ≡ s
    → ((a : A) → IsAtomic (f a))
    → (follow (r, t) f).0 ≡ err e
    → (follow (r, t) f).1 ≡ s
follow_undone (ok a) f t s e same k h = (k a).at t e h ∙ same
follow_undone (err x) f t s e same k h = same

pub IsAtomic-then :
    {S A B : Type 0} {m : Action S A} {f : A → Action S B}
    → OnlyReads m
    → ((a : A) → IsAtomic (f a))
    → IsAtomic (m >>= f)
unfolding ◌>>=◌
IsAtomic-then {m = m} {f = f} reads k = record {
  at = λ s e h. follow_undone (m s).0 f (m s).1 s e (reads.at s) k h;
}

raised_undone :
    {S A : Type 0} (r : Result A) (t s : S)
    → ((e : Error) → r ≡ err e → t ≡ s)
    → not (is_ok r) ≡ true
    → t ≡ s
raised_undone (ok a) t s k h = cc
raised_undone (err e) t s k h = k e refl

pub IsAtomic-raises :
    {S A : Type 0} {m : Action S A}
    → IsAtomic m
    → (s : S) → not (is_ok (m s).0) ≡ true
    → (m s).1 ≡ s
IsAtomic-raises {m = m} k s h = raised_undone (m s).0 (m s).1 s (λ e p. k.at s e p) h
