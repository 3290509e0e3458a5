-- ===== src/Base/Raises.antt =====
-- What holds after an action that raises: `Raises P R m` says that from a state with `P`, where `m`
-- raises, the state has `R`.
use mathlib.Core.Path.{◌≡◌, refl}
use mathlib.Core.Bool.{Bool, true, false}
use hypershell_reach.Base.Tests.{if◌then◌else◌}
use hypershell_reach.Base.Result.{Error, Result, ok, err}
use hypershell_reach.Base.Action.{Action, pure, modify, follow, ◌>>=◌}
use hypershell_reach.Base.Keeps.{Keeps}

pub record Raises {S A : Type 0} (P : S → Type 0) (R : S → Type 0) (m : Action S A) : Type 0 where
  pub at : (s : S) → P s → (e : Error) → (m s).0 ≡ err e → R (m s).1

pub Keeps-Raises :
    {S A : Type 0} {P : S → Type 0} {Q : A → Type 0} {m : Action S A} → Keeps P Q m → Raises P P m
Keeps-Raises k = record { at = λ s h e r. k.at s h }

-- `pure` and `modify` never raise.
pub Raises-pure : {S A : Type 0} {P : S → Type 0} {R : S → Type 0} (a : A) → Raises P R (pure a)
unfolding pure
Raises-pure a = record { at = λ s h e r. cc }

pub Raises-modify :
    {S : Type 0} {P : S → Type 0} {R : S → Type 0} (f : S → S) → Raises P R (modify f)
unfolding modify
Raises-modify f = record { at = λ s h e r. cc }

module _ {S A B : Type 0} (R : S → Type 0) where
  follow_raises :
      (r : Result A) (f : A → Action S B) (t : S)
      → ((a : A) → r ≡ ok a → (e : Error) → (f a t).0 ≡ err e → R (f a t).1)
      → ((e : Error) → r ≡ err e → R t)
      → (e : Error) → (follow (r, t) f).0 ≡ err e
      → R (follow (r, t) f).1
  follow_raises (ok a) f t k l e h = k a refl e h
  follow_raises (err x) f t k l e h = l x refl

-- What comes first keeps `P`, from which `R` follows.
pub Raises-then :
    {S A B : Type 0} {P : S → Type 0} {Q : A → Type 0} {R : S → Type 0} {m : Action S A}
    {f : A → Action S B}
    → ((s : S) → P s → R s)
    → Keeps P Q m
    → ((a : A) → Q a → Raises P R (f a))
    → Raises P R (m >>= f)
unfolding ◌>>=◌
Raises-then {R} {m} {f} out km kf = record {
  at = λ s h e.
      follow_raises R (m s).0 f (m s).1
        (λ a q x r. (kf a (km.returns s h a q)).at (m s).1 (km.at s h) x r)
        (λ x q. out (m s).1 (km.at s h)) e;
}

abbrev pub Always : {S : Type 0} → S → Type 0
Always s = Unit

-- The first raises, since what follows never does.
pub Raises-first :
    {S A B : Type 0} {P : S → Type 0} {R : S → Type 0} {m : Action S A} {f : A → Action S B}
    → Raises P R m
    → ((a : A) → Raises (Always {S = S}) R (f a))
    → Raises P R (m >>= f)
unfolding ◌>>=◌
Raises-first {R} {m} {f} km kf = record {
  at = λ s h e.
      follow_raises R (m s).0 f (m s).1 (λ a q x r. (kf a).at (m s).1 tt x r) (λ x q. km.at s h x q)
        e;
}

pub Raises-if :
    {S A : Type 0} {P : S → Type 0} {R : S → Type 0} (b : Bool) (m n : Action S A)
    → (b ≡ true → Raises P R m)
    → (b ≡ false → Raises P R n)
    → Raises P R (if b then m else n)
Raises-if true m n km kn = km refl
Raises-if false m n km kn = kn refl
