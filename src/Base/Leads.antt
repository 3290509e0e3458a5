-- ===== src/Base/Leads.antt =====
-- Where an action leads: `Leads P R m` says that from a state with `P` the action `m` leads to one
-- with `R`, whether it returns or raises. What comes before a write keeps `P`.
use mathlib.Core.Path.{◌≡◌, refl}
use mathlib.Core.Bool.{Bool, true, false}
use hypershell_reach.Base.Tests.{if◌then◌else◌}
use hypershell_reach.Base.Result.{Result, ok, err}
use hypershell_reach.Base.Action.{Action, settle, transaction, modify, follow, ◌>>=◌}
use hypershell_reach.Base.Keeps.{Keeps}

pub record Leads {S A : Type 0} (P : S → Type 0) (R : S → Type 0) (m : Action S A) : Type 0 where
  pub at : (s : S) → P s → R (m s).1

pub Keeps-Leads :
    {S A : Type 0} {P : S → Type 0} {R : S → Type 0} {Q : A → Type 0} {m : Action S A}
    → Keeps P Q m
    → ((s : S) → P s → R s)
    → Leads P R m
Keeps-Leads k out = record { at = λ s h. out (_) (k.at s h) }

module _ {S A B : Type 0} (P : S → Type 0) (R : S → Type 0) where
  follow_to :
      (r : Result A) (f : A → Action S B) (s : S)
      → ((t : S) → P t → R t)
      → ((a : A) → r ≡ ok a → Leads P R (f a))
      → P s
      → R (follow (r, s) f).1
  follow_to (ok a) f s out k h = (k a refl).at s h
  follow_to (err e) f s out k h = out s h

module _ {S A B : Type 0} (R : S → Type 0) where
  keep_to :
      (r : Result A) (f : A → Action S B) (s : S)
      → ((a : A) → Leads R R (f a))
      → R s
      → R (follow (r, s) f).1
  keep_to (ok a) f s k h = (k a).at s h
  keep_to (err e) f s k h = h

pub Leads-then :
    {S A B : Type 0} {P : S → Type 0} {R : S → Type 0} {Q : A → Type 0} {m : Action S A}
    {f : A → Action S B}
    → ((t : S) → P t → R t)
    → Keeps P Q m
    → ((a : A) → Q a → Leads P R (f a))
    → Leads P R (m >>= f)
unfolding ◌>>=◌
Leads-then {P} {R} {m} {f} out km kf = record {
  at = λ s h. follow_to P R (m s).0 f (m s).1 out (λ a e. kf a (km.returns s h a e)) (km.at s h);
}

module _ {S A : Type 0} (P : S → Type 0) (R : S → Type 0) where
  settle_to : (s : S) (r : Result A) (t : S) → R s → R t → R (settle s (r, t)).1
  settle_to s (ok a) t h k = k
  settle_to s (err e) t h k = h

  pub Leads-transaction :
      (m : Action S A) → ((t : S) → P t → R t) → Leads P R m → Leads P R (transaction m)
  unfolding transaction
  Leads-transaction m out l = record {
    at = λ s h. settle_to s (m s).0 (m s).1 (out s h) (l.at s h);
  }

  pub Leads-if :
      (b : Bool) (m n : Action S A)
      → (b ≡ true → Leads P R m)
      → (b ≡ false → Leads P R n)
      → Leads P R (if b then m else n)
  Leads-if true m n km kn = km refl
  Leads-if false m n km kn = kn refl

-- What only returns or raises afterwards changes nothing more.
pub Leads-after :
    {S A B : Type 0} {P : S → Type 0} {R : S → Type 0} {m : Action S A} {f : A → Action S B}
    → Leads P R m
    → ((a : A) → Leads R R (f a))
    → Leads P R (m >>= f)
unfolding ◌>>=◌
Leads-after {R} {m} {f} l k = record { at = λ s h. keep_to R (m s).0 f (m s).1 k (l.at s h) }

pub Leads-modify :
    {S : Type 0} {P : S → Type 0} {R : S → Type 0} (f : S → S)
    → ((s : S) → P s → R (f s))
    → Leads P R (modify f)
unfolding modify
Leads-modify f k = record { at = k }
