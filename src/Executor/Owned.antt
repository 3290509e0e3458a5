-- ===== src/Executor/Owned.antt =====
-- src/hypershell_reach/executor.py: the store while a set of runs is owned by tasks.
use mathlib.Core.Path.{subst}
use mathlib.Core.Option.{some-injective}
use hypershell_reach.Base.{
  ℕ, ◌≡◌, refl, sym, ap, ◌∙◌, inl, inr, String, true, false, none, some, List, Bool-cases,
}
use hypershell_reach.Base.Text.{str_eq, str_eq_iff}
use hypershell_reach.Base.Result.{ok, ok-injective}
use hypershell_reach.Base.Keeps.{Keeps, Any, Keeps-then, Keeps-pure, Keeps-if}
use hypershell_reach.Base.Table.{
  lookup, upsert, delete_all, is_member, AllRows-lookup, lookup-upsert, lookup-delete_all,
}
use hypershell_reach.Runs.Record.{RunRecord, Unicode, validate, is_running, is_sync}
use hypershell_reach.Runs.Printable.{printable_of_ascii}
use hypershell_reach.Runs.Valid.{validate_of_IsWellFormed, validate-id}
use hypershell_reach.Runs.Invariant.{
  IsValid, RowIsValid, IsSound, IsValid-laws, serialize_lem, created-IsSound,
}
use hypershell_reach.Runs.Methods.{
  MethodLaws, get-Keeps, create-Keeps, finish_without_execution-Keeps,
}
use hypershell_reach.Runs.Store.{
  RunRow, RunStore, RunRequest, row_of, finished, ended_internally, outcome_unknown, new_record,
}
use hypershell_reach.Runs.Operations.{create}
use hypershell_reach.Executor.Service.{mark_lost}

module _ ⦃u : Unicode⦄ (Owned : String → Type 0) where
  abbrev pub IsAsync : RunRecord → Type 0
  IsAsync r = (is_running r.status ≡ true) × (is_sync r.execution_mode ≡ false)

  -- Every asynchronous run that is running is owned.
  pub record HasOwners (s : RunStore) : Type 0 where
    pub valid : IsValid s
    pub writable : s.read_only ≡ false
    pub owned :
        (k : String) (row : RunRow) → lookup k s.runs ≡ some row → IsAsync row.payload → Owned k

  abbrev pub IsOwned : RunRecord → Type 0
  IsOwned r = IsSound r × (IsAsync r → Owned r.id)

  written_owned :
      (r : RunRecord) (s : RunStore)
      → IsOwned r
      → HasOwners s
      → (k : String) (row : RunRow) → lookup k (upsert r.id (row_of r) s.runs) ≡ some row
      → IsAsync row.payload
      → Owned k
  unfolding row_of
  written_owned r s (sound, own) h k row found going = elim (Bool-cases (str_eq r.id k)) [
    | inl ours ↦
        let written : some (row_of r) ≡ some row =
          rw (lookup-upsert r.id k (row_of r) s.runs, ours) at found in
        let same : row.payload ≡ r =
          ap (λ (x : RunRow). x.payload) (sym (some-injective _ _ written))
          ∙ serialize_lem r sound.0 in
        subst Owned ((str_eq_iff r.id k).0 ours) (own (subst IsAsync same going))
    | inr other ↦ h.owned k row (rw (lookup-upsert r.id k (row_of r) s.runs, other) at found) going
  ]

  deleted_owned :
      (ks : List String) (s : RunStore)
      → HasOwners s
      → (k : String) (row : RunRow) → lookup k (delete_all ks s.runs) ≡ some row
      → IsAsync row.payload
      → Owned k
  deleted_owned ks s h k row found going = elim (Bool-cases (is_member k ks)) [
    | inl gone ↦
        let never : none ≡ some row = rw (lookup-delete_all ks k s.runs, gone) at found in cc
    | inr kept ↦ h.owned k row (rw (lookup-delete_all ks k s.runs, kept) at found) going
  ]

  read-IsOwned :
      (s : RunStore)
      → HasOwners s
      → (k : String) (row : RunRow) (r : RunRecord) → lookup k s.runs ≡ some row
      → validate row.payload ≡ ok r
      → IsOwned r
  read-IsOwned s h k row r found accepted =
      let v = AllRows-lookup RowIsValid k s.runs h.valid.rows found in
      let same : row.payload ≡ r =
        ok-injective (sym (validate_of_IsWellFormed row.payload v.well_formed) ∙ accepted) in
      (
        IsValid-laws.read s h.valid k row r found accepted,
        λ going.
            subst Owned (v.keyed ∙ ap (λ (x : RunRecord). x.id) same)
              (h.owned k row found (subst IsAsync (sym same) going)),
      )

  pub HasOwners-laws : MethodLaws HasOwners IsOwned
  unfolding finished ended_internally
  HasOwners-laws = record {
    written = λ r good named s h. record {
      valid = IsValid-laws.written r good.0 named s h.valid;
      writable = h.writable;
      owned = written_owned r s good h;
    };
    read = read-IsOwned;
    deleted = λ ks s h. record {
      valid = IsValid-laws.deleted ks s h.valid;
      writable = h.writable;
      owned = deleted_owned ks s h;
    };
    after_finish = λ r execution now good going.
        (IsValid-laws.after_finish r execution now good.0 going, λ later. good.1 (going, later.1));
    after_end = λ r status error_type now good going printable. (
      IsValid-laws.after_end r status error_type now good.0 going printable,
      λ later. good.1 (going, later.1),
    );
    after_retain =
        λ r retained good. (IsValid-laws.after_retain r retained good.0, λ later. good.1 later);
  }

  pub mark_lost-Keeps : (run_id : String) (now : ℕ) → Keeps HasOwners Any (mark_lost run_id now)
  unfolding mark_lost
  mark_lost-Keeps run_id now = Keeps-then (get-Keeps HasOwners-laws run_id) λ r good.
      Keeps-if HasOwners Any _ _ _
        (λ going.
          Keeps-then
            (finish_without_execution-Keeps HasOwners-laws run_id outcome_unknown
              "ExecutorOwnershipLost" now (printable_of_ascii "ExecutorOwnershipLost" refl))
            λ _ _. Keeps-pure HasOwners Any tt tt)
        (λ over. Keeps-pure HasOwners Any tt tt)

  pub created-Keeps :
      (request : RunRequest) (run_id : String) (now : ℕ)
      → Owned run_id
      → Keeps HasOwners IsOwned (create request run_id now)
  created-Keeps request run_id now own = create-Keeps HasOwners-laws request run_id now λ r made. (
    created-IsSound request run_id now r made,
    λ going. subst Owned (sym (validate-id (new_record request run_id now) made)) own,
  )
