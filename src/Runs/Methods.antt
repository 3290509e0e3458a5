-- ===== src/Runs/Methods.antt =====
-- The methods of `RunStore`, for any property of the store: a property is kept by every method if
-- writing back what `get` returned keeps it, for what each method does to the record.
use hypershell_reach.Base.{
  ℕ, suc, ◌≡◌, refl, String, Bool, true, Option, none, some, List, [], ◌∷◌, not-eq_false,
}
use hypershell_reach.Base.Result.{ok}
use hypershell_reach.Base.Action.{Action}
use hypershell_reach.Base.Keeps.{
  Keeps, Any, Keeps-then, Keeps-Any, Keeps-pure, Keeps-gets, Keeps-gets_as, Keeps-lift,
  Keeps-or_raise, Keeps-transaction, Keeps-raise_if, Keeps-modify, Keeps-if, Keeps-weaken,
}
use hypershell_reach.Base.Table.{lookup, upsert, delete_all}
use hypershell_reach.Runs.Record.{
  RunRecord, RunStatus, RunExecutionMode, sync, async, Unicode, validate, is_running,
}
use hypershell_reach.Runs.Summary.{Execution}
use hypershell_reach.Runs.Printable.{is_text, printable_of_ascii}
use hypershell_reach.Runs.Store.{
  RunRow, RunStore, RunRequest, row_of, new_record, finished, ended_internally, InternalOutcome,
  was_interrupted, internal_status, is_run_id, atomic_write, require_writable, check_id, write_lock,
}
use hypershell_reach.Runs.Operations.{
  get, create, finish, end_if_running, finish_without_execution, set_retained, cleanup,
  cleanup_days, restart_reason, reconcile_rows, reconcile_incomplete,
}

module _ ⦃u : Unicode⦄ where
  -- `P` of the store, and `Good` of a record that may be written.
  pub record MethodLaws (P : RunStore → Type 0) (Good : RunRecord → Type 0) : Type 0 where
    pub written :
        (r : RunRecord)
        → Good r
        → is_run_id r.id ≡ true
        → (s : RunStore) → P s
        → P (record s { runs = upsert r.id (row_of r) s.runs })
    pub read :
        (s : RunStore)
        → P s
        → (run_id : String) (row : RunRow) (r : RunRecord) → lookup run_id s.runs ≡ some row
        → validate row.payload ≡ ok r
        → Good r
    pub deleted :
        (ks : List String) (s : RunStore) → P s → P (record s { runs = delete_all ks s.runs })
    pub after_finish :
        (r : RunRecord) (execution : Execution) (now : ℕ)
        → Good r
        → is_running r.status ≡ true
        → Good (finished r execution now)
    pub after_end :
        (r : RunRecord) (status : RunStatus) (error_type : String) (now : ℕ)
        → Good r
        → is_running r.status ≡ true
        → is_text error_type ≡ true
        → Good (ended_internally r status error_type now)
    pub after_retain :
        (r : RunRecord) (retained : Bool) → Good r → Good (record r { retained = retained })

  pub restart_reason_text : (mode : RunExecutionMode) → is_text (restart_reason mode) ≡ true
  restart_reason_text async = printable_of_ascii "ExecutorRestart" refl
  restart_reason_text sync = printable_of_ascii "ServerRestart" refl

  module _ {P : RunStore → Type 0} {Good : RunRecord → Type 0} (laws : MethodLaws P Good) where
    require_writable-Keeps : Keeps P Any require_writable
    unfolding require_writable
    require_writable-Keeps = Keeps-then (Keeps-gets P _) (λ b _. Keeps-Any (Keeps-raise_if P b _))

    atomic_write-Keeps : (r : RunRecord) → Good r → Keeps P Any (atomic_write r)
    unfolding atomic_write check_id
    atomic_write-Keeps r good = Keeps-then require_writable-Keeps λ _ _.
        Keeps-then (Keeps-raise_if P _ _)
          λ _ named. Keeps-modify P _ (laws.written r good (not-eq_false _ named))

    write_lock-Keeps :
        {A : Type 0} {Q : A → Type 0} {body : Action RunStore A}
        → Keeps P Q body
        → Keeps P Q (write_lock body)
    unfolding write_lock
    write_lock-Keeps {Q = Q} k =
        Keeps-then require_writable-Keeps (λ _ _. Keeps-transaction P Q _ k)

    pub get-Keeps : (run_id : String) → Keeps P Good (get run_id)
    unfolding get
    get-Keeps run_id = Keeps-then (Keeps-raise_if P _ _) λ _ _.
        Keeps-then
          (Keeps-gets_as P
            (λ o.
              (row : RunRow) (r : RunRecord) → o ≡ some row → validate row.payload ≡ ok r → Good r)
            _ (λ s h. laws.read s h run_id))
          λ found good.
            Keeps-then (Keeps-or_raise P found _)
              λ row here. Keeps-weaken (Keeps-lift P _) λ r same. good row r here same

    pub create-Keeps :
        (request : RunRequest) (run_id : String) (now : ℕ)
        → ((r : RunRecord) → validate (new_record request run_id now) ≡ ok r → Good r)
        → Keeps P Good (create request run_id now)
    unfolding create
    create-Keeps request run_id now fresh = Keeps-then (Keeps-lift P _) λ r made.
        Keeps-then (write_lock-Keeps (atomic_write-Keeps r (fresh r made)))
          λ _ _. Keeps-pure P Good r (fresh r made)

    pub finish-Keeps :
        (run_id : String) (execution : Execution) (now : ℕ)
        → Keeps P Good (finish run_id execution now)
    unfolding finish
    finish-Keeps run_id execution now = write_lock-Keeps (
        Keeps-then (get-Keeps run_id) λ r good. Keeps-then (Keeps-raise_if P _ _) λ _ going.
          Keeps-then (Keeps-raise_if P _ _) λ _ _.
            let after = laws.after_finish r execution now good (not-eq_false _ going) in
            Keeps-then (atomic_write-Keeps _ after) λ _ _. Keeps-pure P Good _ after)

    pub finish_without_execution-Keeps :
        (run_id : String) (outcome : InternalOutcome) (error_type : String) (now : ℕ)
        → is_text error_type ≡ true
        → Keeps P Good (finish_without_execution run_id outcome error_type now)
    unfolding finish_without_execution end_if_running
    finish_without_execution-Keeps run_id outcome error_type now printable = write_lock-Keeps (
        Keeps-then (get-Keeps run_id) λ r good.
          Keeps-if P Good _ _ _ (λ _. Keeps-pure P Good r good)
            (λ going.
              let after =
                laws.after_end r (internal_status outcome) error_type now good
                  (not-eq_false _ going) printable in
              Keeps-then (atomic_write-Keeps _ after) λ _ _. Keeps-pure P Good _ after))

    pub set_retained-Keeps :
        (run_id : String) (retained : Bool) → Keeps P Good (set_retained run_id retained)
    unfolding set_retained
    set_retained-Keeps run_id retained = write_lock-Keeps (
        Keeps-then (get-Keeps run_id) λ r good.
          let after = laws.after_retain r retained good in
          Keeps-then (atomic_write-Keeps _ after) λ _ _. Keeps-pure P Good _ after)

    cleanup_days-Keeps : (days : Option ℕ) (now : ℕ) → Keeps P Any (cleanup_days days now)
    unfolding cleanup_days
    cleanup_days-Keeps none now = Keeps-pure P Any [] tt
    cleanup_days-Keeps (some days) now = write_lock-Keeps (
        Keeps-then (Keeps-gets P _) λ expired _.
          Keeps-then (Keeps-modify P _ (laws.deleted expired)) λ _ _. Keeps-pure P Any _ tt)

    pub cleanup-Keeps : (now : ℕ) → Keeps P Any (cleanup now)
    unfolding cleanup
    cleanup-Keeps now =
        Keeps-then require_writable-Keeps
          λ _ _. Keeps-then (Keeps-gets P _) λ days _. cleanup_days-Keeps days now

    reconcile_rows-Keeps :
        (rows : List (String × RunExecutionMode)) (clock : ℕ → ℕ) (n : ℕ)
        → Keeps P Any (reconcile_rows rows clock n)
    unfolding reconcile_rows
    reconcile_rows-Keeps [] clock n = Keeps-pure P Any n tt
    reconcile_rows-Keeps ((run_id, mode) ∷ rows) clock n = Keeps-then (Keeps-gets P _) λ ours _.
        Keeps-if P Any ours _ _
          (λ _.
            Keeps-then
              (finish_without_execution-Keeps run_id was_interrupted (restart_reason mode) (clock n)
                (restart_reason_text mode))
              λ _ _. reconcile_rows-Keeps rows clock (suc n))
          (λ _. reconcile_rows-Keeps rows clock n)

    pub reconcile_incomplete-Keeps : (clock : ℕ → ℕ) → Keeps P Any (reconcile_incomplete clock)
    unfolding reconcile_incomplete
    reconcile_incomplete-Keeps clock =
        Keeps-then require_writable-Keeps
          λ _ _. Keeps-then (Keeps-gets P _) λ rows _. reconcile_rows-Keeps rows clock 0
