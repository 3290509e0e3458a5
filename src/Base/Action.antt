-- ===== src/Base/Action.antt =====
-- Methods that change an object and may raise. What was written before a raise stays written, so
-- the state comes back beside the error too; a database transaction takes it back.
use mathlib.Core.Path.{◌≡◌, refl}
use mathlib.Core.Bool.{Bool, true, false}
use mathlib.Core.Option.{Option, none, some}
use hypershell_reach.Base.Result.{Error, Result, ok, err}

abbrev pub Action : Type 0 → Type 0 → Type 0
Action S A = S → Result A × S

module _ {S A : Type 0} where
  unfoldable pub pure : A → Action S A
  pure a s = (ok a, s)

  unfoldable pub raise : Error → Action S A
  raise e s = (err e, s)

  unfoldable pub lift : Result A → Action S A
  lift r s = (r, s)

  unfoldable pub gets : (S → A) → Action S A
  gets f s = (ok (f s), s)

  unfoldable pub or_raise : Option A → Error → Action S A
  or_raise none e s = (err e, s)
  or_raise (some a) e s = (ok a, s)

  -- `COMMIT` after a return, `ROLLBACK` to `before` after a raise.
  abbrev pub settle : S → Result A × S → Result A × S
  settle before (ok a, after) = (ok a, after)
  settle before (err e, after) = (err e, before)

  -- `BEGIN IMMEDIATE`, the body, and the end of the transaction.
  unfoldable pub transaction : Action S A → Action S A
  transaction m s = settle s (m s)

  settle_error :
      (before : S) (r : Result A) (after : S) {e : Error}
      → (settle before (r, after)).0 ≡ err e
      → (settle before (r, after)).1 ≡ before
  settle_error before (ok a) after h = cc
  settle_error before (err x) after h = refl

  -- A transaction that raises leaves the database as it was.
  pub transaction_rolls_back :
      (m : Action S A) (s : S) {e : Error} → (transaction m s).0 ≡ err e → (transaction m s).1 ≡ s
  unfolding transaction
  transaction_rolls_back m s h = let (r, after) = m s in settle_error s r after h

module _ {S : Type 0} where
  unfoldable pub raise_if : Bool → Error → Action S (Unit {0})
  raise_if true e s = (err e, s)
  raise_if false e s = (ok tt, s)

  unfoldable pub modify : (S → S) → Action S (Unit {0})
  modify f s = (ok tt, f s)

abbrev pub follow : {S A B : Type 0} → Result A × S → (A → Action S B) → Result B × S
follow (ok a, s) f = f a s
follow (err e, s) f = (err e, s)

infixl 5 ◌>>=◌ ◌>>◌
-- Opening this opens the other ways to build an action too.
unfoldable pub ◌>>=◌ : {S A B : Type 0} → Action S A → (A → Action S B) → Action S B
unfolding pure raise lift gets or_raise transaction raise_if modify
◌>>=◌ m f s = follow (m s) f

abbrev pub ◌>>◌ : {S B : Type 0} → Action S (Unit {0}) → Action S B → Action S B
m >> k = m >>= λ _. k
