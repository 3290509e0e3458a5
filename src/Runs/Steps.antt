-- ===== src/Runs/Steps.antt =====
-- src/hypershell_reach/runs.py: the store under any sequence of calls of its methods.
use hypershell_reach.Base.{ℕ, ◌≡◌, String, Bool, true, none}
use hypershell_reach.Base.Result.{ok}
use hypershell_reach.Base.Table.{lookup}
use hypershell_reach.Runs.Record.{RunRecord, Unicode, validate}
use hypershell_reach.Runs.Summary.{Execution}
use hypershell_reach.Runs.Printable.{is_text}
use hypershell_reach.Runs.Invariant.{IsValid, IsValid-laws, created-IsSound}
use hypershell_reach.Runs.Methods.{
  MethodLaws, create-Keeps, finish-Keeps, finish_without_execution-Keeps, set_retained-Keeps,
  cleanup-Keeps, reconcile_incomplete-Keeps,
}
use hypershell_reach.Runs.Store.{RunStore, RunRequest, new_record, InternalOutcome}
use hypershell_reach.Runs.Operations.{
  create, finish, finish_without_execution, set_retained, cleanup, reconcile_incomplete,
}

module _ ⦃u : Unicode⦄ where
  -- One call, whether it returns or raises. A new ID is one that no row has, and one of those that
  -- `new_run_id` may draw: it holds the time to the microsecond and 48 random bits. The name of an
  -- error's type is printable.
  pub data Step (Drawn : String → Type 0) (s : RunStore) : RunStore → Type 0 where
    created :
        (request : RunRequest) (run_id : String) (now : ℕ)
        → Drawn run_id
        → lookup run_id s.runs ≡ none
        → Step Drawn s (create request run_id now s).1
    finished_run :
        (run_id : String) (execution : Execution) (now : ℕ)
        → Step Drawn s (finish run_id execution now s).1
    ended :
        (run_id : String) (outcome : InternalOutcome) (error_type : String) (now : ℕ)
        → is_text error_type ≡ true
        → Step Drawn s (finish_without_execution run_id outcome error_type now s).1
    retained_run :
        (run_id : String) (retained : Bool) → Step Drawn s (set_retained run_id retained s).1
    cleaned : (now : ℕ) → Step Drawn s (cleanup now s).1
    reconciled : (clock : ℕ → ℕ) → Step Drawn s (reconcile_incomplete clock s).1

  pub data Reach (Drawn : String → Type 0) (s : RunStore) : RunStore → Type 0 where
    here : Reach Drawn s s
    next : {t v : RunStore} → Reach Drawn s t → Step Drawn t v → Reach Drawn s v

  module _ {P : RunStore → Type 0} {Good : RunRecord → Type 0} (laws : MethodLaws P Good)
      (Drawn : String → Type 0)
      (fresh : (s : RunStore)
        → P s
        → (request : RunRequest) (run_id : String) (now : ℕ) → Drawn run_id
        → lookup run_id s.runs ≡ none
        → (r : RunRecord) → validate (new_record request run_id now) ≡ ok r
        → Good r) where
    Step-keeps : {s t : RunStore} → Step Drawn s t → P s → P t
    Step-keeps {s = s} (created request run_id now drawn new) h =
        (create-Keeps laws request run_id now (fresh s h request run_id now drawn new)).at s h
    Step-keeps {s = s} (finished_run run_id execution now) h =
        (finish-Keeps laws run_id execution now).at s h
    Step-keeps {s = s} (ended run_id outcome error_type now printable) h =
        (finish_without_execution-Keeps laws run_id outcome error_type now printable).at s h
    Step-keeps {s = s} (retained_run run_id retained) h =
        (set_retained-Keeps laws run_id retained).at s h
    Step-keeps {s = s} (cleaned now) h = (cleanup-Keeps laws now).at s h
    Step-keeps {s = s} (reconciled clock) h = (reconcile_incomplete-Keeps laws clock).at s h

    pub Reach-keeps : {s t : RunStore} → Reach Drawn s t → P s → P t
    Reach-keeps here h = h
    Reach-keeps (next r st) h = Step-keeps st (Reach-keeps r h)

  -- From a store whose rows are valid, every sequence of calls of the methods, whether they return
  -- or raise, leads to a store whose rows are valid: each stands under its record's ID, its columns
  -- are those of its record, the record passes the validators unchanged, and it is marked ambiguous
  -- just when its run may mutate and ended without a trustworthy result; and no ID stands twice.
  pub Reach-IsValid :
      {Drawn : String → Type 0} {s t : RunStore} → IsValid s → Reach Drawn s t → IsValid t
  Reach-IsValid {Drawn} v r =
      Reach-keeps IsValid-laws Drawn
        (λ s h request run_id now drawn new. created-IsSound request run_id now) r v
