-- ===== src/Base/Keeps.antt =====
-- Invariants of actions: `Keeps P Q m` says that `m` keeps `P` of the state, whether it returns or
-- raises, and that what it returns satisfies `Q`. One rule for each way to build an action.
use mathlib.Core.Path.{◌≡◌, refl, subst}
use mathlib.Core.Bool.{Bool, true, false}
use mathlib.Core.Option.{Option, none, some}
use hypershell_reach.Base.Tests.{if◌then◌else◌}
use hypershell_reach.Base.Result.{Error, Result, ok, err, ok-injective}
use hypershell_reach.Base.Action.{
  Action, pure, raise, lift, gets, or_raise, raise_if, modify, settle, transaction, follow, ◌>>=◌,
}

pub record Keeps {S A : Type 0} (P : S → Type 0) (Q : A → Type 0) (m : Action S A) : Type 0 where
  pub at : (s : S) → P s → P (m s).1
  pub returns : (s : S) → P s → (a : A) → (m s).0 ≡ ok a → Q a

abbrev pub Any : {A : Type 0} → A → Type 0
Any a = Unit

module _ {S A : Type 0} (P : S → Type 0) where
  pub Keeps-pure : (Q : A → Type 0) (a : A) → Q a → Keeps P Q (pure a)
  unfolding pure
  Keeps-pure Q a q = record { at = λ s h. h; returns = λ s h b e. subst Q (ok-injective e) q }

  pub Keeps-raise : (Q : A → Type 0) (e : Error) → Keeps P Q (raise e)
  unfolding raise
  Keeps-raise Q e = record { at = λ s h. h; returns = λ s h b p. cc }

  pub Keeps-gets : (f : S → A) → Keeps P Any (gets f)
  unfolding gets
  Keeps-gets f = record { at = λ s h. h; returns = λ s h b p. tt }

  pub Keeps-gets_as : (Q : A → Type 0) (f : S → A) → ((s : S) → P s → Q (f s)) → Keeps P Q (gets f)
  unfolding gets
  Keeps-gets_as Q f q = record {
    at = λ s h. h;
    returns = λ s h b e. subst Q (ok-injective e) (q s h);
  }

  pub Keeps-lift : (r : Result A) → Keeps P (λ a. r ≡ ok a) (lift r)
  unfolding lift
  Keeps-lift r = record { at = λ s h. h; returns = λ s h b p. p }

  or_raise_at : (o : Option A) (e : Error) (s : S) → P s → P (or_raise o e s).1
  unfolding or_raise
  or_raise_at none e s h = h
  or_raise_at (some a) e s h = h

  or_raise_returns :
      (o : Option A) (e : Error) (s : S) (a : A) → (or_raise o e s).0 ≡ ok a → o ≡ some a
  unfolding or_raise
  or_raise_returns none e s a p = cc
  or_raise_returns (some b) e s a p = cc

  pub Keeps-or_raise : (o : Option A) (e : Error) → Keeps P (λ a. o ≡ some a) (or_raise o e)
  Keeps-or_raise o e = record {
    at = λ s h. or_raise_at o e s h;
    returns = λ s h a p. or_raise_returns o e s a p;
  }

  settle_at : (s : S) (r : Result A) (s' : S) → P s → P s' → P (settle s (r, s')).1
  settle_at s (ok a) s' h h' = h'
  settle_at s (err e) s' h h' = h

  settle_returns : (s : S) (r : Result A) (s' : S) (a : A) → (settle s (r, s')).0 ≡ ok a → r ≡ ok a
  settle_returns s (ok b) s' a p = p
  settle_returns s (err e) s' a p = cc

  pub Keeps-transaction :
      (Q : A → Type 0) (m : Action S A) → Keeps P Q m → Keeps P Q (transaction m)
  unfolding transaction
  Keeps-transaction Q m k = record {
    at = λ s h. settle_at s (m s).0 (m s).1 h (k.at s h);
    returns = λ s h a p. k.returns s h a (settle_returns s (m s).0 (m s).1 a p);
  }

  pub Keeps-if :
      (Q : A → Type 0) (b : Bool) (m n : Action S A)
      → (b ≡ true → Keeps P Q m)
      → (b ≡ false → Keeps P Q n)
      → Keeps P Q (if b then m else n)
  Keeps-if Q true m n km kn = km refl
  Keeps-if Q false m n km kn = kn refl

module _ {S : Type 0} (P : S → Type 0) where
  raise_if_at : (b : Bool) (e : Error) (s : S) → P s → P (raise_if b e s).1
  unfolding raise_if
  raise_if_at true e s h = h
  raise_if_at false e s h = h

  raise_if_returns :
      (b : Bool) (e : Error) (s : S) (a : Unit {0}) → (raise_if b e s).0 ≡ ok a → b ≡ false
  unfolding raise_if
  raise_if_returns true e s a p = cc
  raise_if_returns false e s a p = refl

  pub Keeps-raise_if : (b : Bool) (e : Error) → Keeps P (λ _. b ≡ false) (raise_if b e)
  Keeps-raise_if b e = record {
    at = λ s h. raise_if_at b e s h;
    returns = λ s h a p. raise_if_returns b e s a p;
  }

  pub Keeps-modify : (f : S → S) → ((s : S) → P s → P (f s)) → Keeps P Any (modify f)
  unfolding modify
  Keeps-modify f k = record { at = k; returns = λ s h a p. tt }

module _ {S A B : Type 0} (P : S → Type 0) (R : B → Type 0) where
  follow_at :
      (r : Result A) (f : A → Action S B) (s : S)
      → ((a : A) → r ≡ ok a → Keeps P R (f a))
      → P s
      → P (follow (r, s) f).1
  follow_at (ok a) f s k h = (k a refl).at s h
  follow_at (err e) f s k h = h

  follow_returns :
      (r : Result A) (f : A → Action S B) (s : S)
      → ((a : A) → r ≡ ok a → Keeps P R (f a))
      → P s
      → (b : B) → (follow (r, s) f).0 ≡ ok b
      → R b
  follow_returns (ok a) f s k h b p = (k a refl).returns s h b p
  follow_returns (err e) f s k h b p = cc

  pub Keeps-bind :
      (Q : A → Type 0) (m : Action S A) (f : A → Action S B)
      → Keeps P Q m
      → ((a : A) → Q a → Keeps P R (f a))
      → Keeps P R (m >>= f)
  unfolding ◌>>=◌
  Keeps-bind Q m f km kf = record {
    at = λ s h. follow_at (m s).0 f (m s).1 (λ a e. kf a (km.returns s h a e)) (km.at s h);
    returns = λ s h b p.
        follow_returns (m s).0 f (m s).1 (λ a e. kf a (km.returns s h a e)) (km.at s h) b p;
  }

-- The rule for bind with all but the two parts inferred, and the rule that forgets the result.
pub Keeps-then :
    {S A B : Type 0} {P : S → Type 0} {Q : A → Type 0} {R : B → Type 0} {m : Action S A}
    {f : A → Action S B}
    → Keeps P Q m
    → ((a : A) → Q a → Keeps P R (f a))
    → Keeps P R (m >>= f)
Keeps-then {P = P} {Q = Q} {R = R} {m = m} {f = f} km kf = Keeps-bind P R Q m f km kf

pub Keeps-Any :
    {S A : Type 0} {P : S → Type 0} {Q : A → Type 0} {m : Action S A} → Keeps P Q m → Keeps P Any m
Keeps-Any k = record { at = k.at; returns = λ s h a p. tt }

pub Keeps-weaken :
    {S A : Type 0} {P : S → Type 0} {Q R : A → Type 0} {m : Action S A}
    → Keeps P Q m
    → ((a : A) → Q a → R a)
    → Keeps P R m
Keeps-weaken k weaker = record { at = k.at; returns = λ s h a p. weaker a (k.returns s h a p) }
