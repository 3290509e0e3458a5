-- ===== src/Base/Fails.antt =====
-- Actions that raise, from every state with a property.
use mathlib.Core.Path.{◌≡◌, refl}
use mathlib.Core.Bool.{Bool, true, false}
use hypershell_reach.Base.Tests.{if◌then◌else◌}
use hypershell_reach.Base.Result.{Error, Result, ok, err, is_ok}
use hypershell_reach.Base.Action.{Action, raise, settle, transaction, follow, ◌>>=◌}
use hypershell_reach.Base.Keeps.{Keeps}

pub record Fails {S A : Type 0} (P : S → Type 0) (m : Action S A) : Type 0 where
  pub at : (s : S) → P s → is_ok (m s).0 ≡ false

pub Fails-raise : {S A : Type 0} {P : S → Type 0} (e : Error) → Fails {A = A} P (raise e)
unfolding raise
Fails-raise e = record { at = λ s p. refl }

follow_failed :
    {S A B : Type 0} (r : Result A) (f : A → Action S B) (s : S)
    → is_ok r ≡ false
    → is_ok (follow (r, s) f).0 ≡ false
follow_failed (ok a) f s h = cc
follow_failed (err e) f s h = refl

module _ {S A B : Type 0} (P : S → Type 0) where
  follow-Fails :
      (r : Result A) (f : A → Action S B) (s : S)
      → ((a : A) → r ≡ ok a → Fails P (f a))
      → P s
      → is_ok (follow (r, s) f).0 ≡ false
  follow-Fails (ok a) f s k p = (k a refl).at s p
  follow-Fails (err e) f s k p = refl

pub Fails-first :
    {S A B : Type 0} {P : S → Type 0} {m : Action S A} (f : A → Action S B)
    → Fails P m
    → Fails P (m >>= f)
unfolding ◌>>=◌
Fails-first {m = m} f k = record { at = λ s p. follow_failed (m s).0 f (m s).1 (k.at s p) }

pub Fails-then :
    {S A B : Type 0} {P : S → Type 0} {Q : A → Type 0} {m : Action S A} {f : A → Action S B}
    → Keeps P Q m
    → ((a : A) → Q a → Fails P (f a))
    → Fails P (m >>= f)
unfolding ◌>>=◌
Fails-then {P = P} {m = m} {f = f} km kf = record {
  at = λ s p. follow-Fails P (m s).0 f (m s).1 (λ a e. kf a (km.returns s p a e)) (km.at s p);
}

settle_failed :
    {S A : Type 0} (s : S) (r : Result A) (t : S)
    → is_ok r ≡ false
    → is_ok (settle s (r, t)).0 ≡ false
settle_failed s (ok a) t h = cc
settle_failed s (err e) t h = refl

module _ {S A : Type 0} (P : S → Type 0) where
  pub Fails-transaction : (m : Action S A) → Fails P m → Fails P (transaction m)
  unfolding transaction
  Fails-transaction m k = record { at = λ s p. settle_failed s (m s).0 (m s).1 (k.at s p) }

  pub Fails-if :
      (b : Bool) (m n : Action S A)
      → (b ≡ true → Fails P m)
      → (b ≡ false → Fails P n)
      → Fails P (if b then m else n)
  Fails-if true m n km kn = km refl
  Fails-if false m n km kn = kn refl
