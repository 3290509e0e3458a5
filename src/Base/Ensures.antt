-- ===== src/Base/Ensures.antt =====
-- What holds after an action that returns: `Ensures P R m` says that from a state with `P`, where
-- `m` returns, its result and the state have `R`.
use mathlib.Core.Path.{◌≡◌, refl, subst}
use mathlib.Core.Bool.{Bool, true, false}
use hypershell_reach.Base.Tests.{if◌then◌else◌}
use hypershell_reach.Base.Result.{Error, Result, ok, err, ok-injective}
use hypershell_reach.Base.Action.{Action, pure, raise, modify, settle, transaction, follow, ◌>>=◌}
use hypershell_reach.Base.Keeps.{Keeps}

pub record Ensures {S A : Type 0} (P : S → Type 0) (R : A → S → Type 0) (m : Action S A)
    : Type 0 where
  pub at : (s : S) → P s → (a : A) → (m s).0 ≡ ok a → R a (m s).1

pub Keeps-Ensures :
    {S A : Type 0} {P : S → Type 0} {Q : A → Type 0} {m : Action S A}
    → Keeps P Q m
    → Ensures P (λ a s. P s × Q a) m
Keeps-Ensures k = record { at = λ s h a e. (k.at s h, k.returns s h a e) }

pub Ensures-pure :
    {S A : Type 0} {P : S → Type 0} {R : A → S → Type 0} (a : A)
    → ((s : S) → P s → R a s)
    → Ensures P R (pure a)
unfolding pure
Ensures-pure {R} a k = record { at = λ s h b e. subst (λ x. R x s) (ok-injective e) (k s h) }

pub Ensures-raise :
    {S A : Type 0} {P : S → Type 0} {R : A → S → Type 0} (e : Error) → Ensures P R (raise e)
unfolding raise
Ensures-raise e = record { at = λ s h b p. cc }

pub Ensures-modify :
    {S : Type 0} {P : S → Type 0} {R : S → Type 0} (f : S → S)
    → ((s : S) → P s → R (f s))
    → Ensures P (λ _ s. R s) (modify f)
unfolding modify
Ensures-modify f k = record { at = λ s h a e. k s h }

module _ {S A B : Type 0} (R : B → S → Type 0) where
  follow_ensures :
      (r : Result A) (f : A → Action S B) (t : S)
      → ((a : A) → r ≡ ok a → (b : B) → (f a t).0 ≡ ok b → R b (f a t).1)
      → (b : B) → (follow (r, t) f).0 ≡ ok b
      → R b (follow (r, t) f).1
  follow_ensures (ok a) f t k b e = k a refl b e
  follow_ensures (err x) f t k b e = cc

-- One action after the other.
pub Ensures-then :
    {S A B : Type 0} {P : S → Type 0} {M : A → S → Type 0} {R : B → S → Type 0} {m : Action S A}
    {f : A → Action S B}
    → Ensures P M m
    → ((a : A) → Ensures (M a) R (f a))
    → Ensures P R (m >>= f)
unfolding ◌>>=◌
Ensures-then {R} {m} {f} km kf = record {
  at = λ s h b e.
      follow_ensures R (m s).0 f (m s).1 (λ a p c q. (kf a).at (m s).1 (km.at s h a p) c q) b e;
}

-- The same after what keeps `P`.
pub Ensures-after :
    {S A B : Type 0} {P : S → Type 0} {Q : A → Type 0} {R : B → S → Type 0} {m : Action S A}
    {f : A → Action S B}
    → Keeps P Q m
    → ((a : A) → Q a → Ensures P R (f a))
    → Ensures P R (m >>= f)
Ensures-after km kf =
    Ensures-then (Keeps-Ensures km) (λ a. record { at = λ s h b e. (kf a h.1).at s h.0 b e })

module _ {S A : Type 0} (R : A → S → Type 0) where
  settle_ensures :
      (s : S) (r : Result A) (t : S)
      → ((a : A) → r ≡ ok a → R a t)
      → (a : A) → (settle s (r, t)).0 ≡ ok a
      → R a (settle s (r, t)).1
  settle_ensures s (ok a) t k b e = subst (λ x. R x t) (ok-injective e) (k a refl)
  settle_ensures s (err x) t k b e = cc

pub Ensures-transaction :
    {S A : Type 0} {P : S → Type 0} {R : A → S → Type 0} {m : Action S A}
    → Ensures P R m
    → Ensures P R (transaction m)
unfolding transaction
Ensures-transaction {R} {m} k = record {
  at = λ s h a e. settle_ensures R s (m s).0 (m s).1 (λ b p. k.at s h b p) a e;
}

pub Ensures-weaken :
    {S A : Type 0} {P : S → Type 0} {R T : A → S → Type 0} {m : Action S A}
    → Ensures P R m
    → ((a : A) (s : S) → R a s → T a s)
    → Ensures P T m
Ensures-weaken {m} k weaker = record { at = λ s h a e. weaker a (m s).1 (k.at s h a e) }

module _ {S A : Type 0} {P : S → Type 0} {R : A → S → Type 0} where
  pub Ensures-if :
      (b : Bool) (m n : Action S A)
      → (b ≡ true → Ensures P R m)
      → (b ≡ false → Ensures P R n)
      → Ensures P R (if b then m else n)
  Ensures-if true m n km kn = km refl
  Ensures-if false m n km kn = kn refl

pub Ensures-from :
    {S A : Type 0} {P O : S → Type 0} {R : A → S → Type 0} {m : Action S A}
    → ((s : S) → P s → O s)
    → Ensures O R m
    → Ensures P R m
Ensures-from into k = record { at = λ s h a e. k.at s (into s h) a e }
