-- ===== src/Runs/Finality.antt =====
-- src/hypershell_reach/runs.py: the outcome of a run that has ended.
use mathlib.Core.Path.{subst}
use hypershell_reach.Base.{
  ℕ, ◌≡◌, refl, sym, ap, ◌∙◌, ◌≢◌, String, Bool, true, false, some, if◌then◌else◌, Bool-cases, inl,
  inr, Option, none,
}
use mathlib.Core.Option.{some-injective}
use hypershell_reach.Base.Text.{str_eq, str_eq_iff}
use hypershell_reach.Base.Result.{ok, ok-injective}
use hypershell_reach.Base.Table.{
  lookup, AllRows-lookup, lookup-upsert, lookup-delete_all, is_member,
}
use hypershell_reach.Runs.Record.{RunRecord, Unicode, validate, is_running}
use hypershell_reach.Runs.Valid.{validate_of_IsWellFormed, validate-id}
use hypershell_reach.Runs.Invariant.{
  IsValid, RowIsValid, IsSound, IsValid-laws, serialize_lem, created-IsSound,
}
use hypershell_reach.Runs.Methods.{MethodLaws}
use hypershell_reach.Runs.Steps.{Reach, Reach-keeps}
use hypershell_reach.Runs.Store.{
  RunRow, RunStore, RunRequest, row_of, finished, ended_internally, new_record,
}

-- All but the mark that keeps a record from cleanup.
abbrev pub SameOutcome : RunRecord → RunRecord → Type 0
SameOutcome r r0 = r ≡ record r0 { retained = r.retained }

module _ ⦃u : Unicode⦄ (j : String) (r0 : RunRecord) (over : is_running r0.status ≡ false) where
  record IsFinal (s : RunStore) : Type 0 where
    valid : IsValid s
    same : (row : RunRow) → lookup j s.runs ≡ some row → SameOutcome row.payload r0

  abbrev IsFinalRecord : RunRecord → Type 0
  IsFinalRecord r = IsSound r × (r.id ≡ j → SameOutcome r r0)

  -- The row under the ID after a write.
  written_same :
      (r : RunRecord) (before : Option RunRow)
      → IsFinalRecord r
      → ((row : RunRow) → before ≡ some row → SameOutcome row.payload r0)
      → (row : RunRow) → (if str_eq r.id j then some (row_of r) else before) ≡ some row
      → SameOutcome row.payload r0
  unfolding row_of
  written_same r before (sound, same) old row found = elim (Bool-cases (str_eq r.id j)) [
    | inl ours ↦
        let written : some (row_of r) ≡ some row = rw ours at found in
        subst (λ (x : RunRow). SameOutcome x.payload r0) (some-injective _ _ written)
          (subst (λ x. SameOutcome x r0) (sym (serialize_lem r sound.0))
            (same ((str_eq_iff r.id j).0 ours)))
    | inr other ↦ old row (rw other at found)
  ]

  not_over :
      (r : RunRecord) {A : Type 0} → IsFinalRecord r → is_running r.status ≡ true → r.id ≡ j → A
  not_over r (sound, same) going ours =
      let ended : is_running r.status ≡ false =
        ap (λ (x : RunRecord). is_running x.status) (same ours) ∙ over in
      cc

  deleted_same :
      (gone : Bool) (before : Option RunRow)
      → ((row : RunRow) → before ≡ some row → SameOutcome row.payload r0)
      → (row : RunRow) → (if gone then none else before) ≡ some row
      → SameOutcome row.payload r0
  deleted_same true before old row found = cc
  deleted_same false before old row found = old row found

  read_final :
      (s : RunStore)
      → IsFinal s
      → (run_id : String) (row : RunRow) (r : RunRecord) → lookup run_id s.runs ≡ some row
      → validate row.payload ≡ ok r
      → IsFinalRecord r
  read_final s h run_id row r found accepted =
      let v = AllRows-lookup RowIsValid run_id s.runs h.valid.rows found in
      let same : row.payload ≡ r =
        ok-injective (sym (validate_of_IsWellFormed row.payload v.well_formed) ∙ accepted) in
      (
        IsValid-laws.read s h.valid run_id row r found accepted,
        λ ours.
            subst (λ x. SameOutcome x r0) same
              (h.same row (
                subst (λ k. lookup k s.runs ≡ some row)
                  (v.keyed ∙ ap (λ (x : RunRecord). x.id) same ∙ ours) found)),
      )

  IsFinal-laws : MethodLaws IsFinal IsFinalRecord
  unfolding finished ended_internally
  IsFinal-laws = record {
    written = λ r good named s h. record {
      valid = IsValid-laws.written r good.0 named s h.valid;
      same = λ row found.
          written_same r (lookup j s.runs) good h.same row
            (sym (lookup-upsert r.id j (row_of r) s.runs) ∙ found);
    };
    read = λ s h run_id row r found accepted. read_final s h run_id row r found accepted;
    deleted = λ ks s h. record {
      valid = IsValid-laws.deleted ks s h.valid;
      same = λ row found.
          deleted_same (is_member j ks) (lookup j s.runs) h.same row
            (sym (lookup-delete_all ks j s.runs) ∙ found);
    };
    after_finish = λ r execution now good going.
        (IsValid-laws.after_finish r execution now good.0 going, not_over r good going);
    after_end = λ r status error_type now good going printable. (
      IsValid-laws.after_end r status error_type now good.0 going printable,
      not_over r good going,
    );
    after_retain = λ r retained good. (
      IsValid-laws.after_retain r retained good.0,
      λ ours. ap (λ (x : RunRecord). record x { retained = retained }) (good.1 ours),
    );
  }

module _ ⦃u : Unicode⦄ where
  fresh_final :
      (j : String) (r0 : RunRecord) (over : is_running r0.status ≡ false) (s : RunStore)
      → IsFinal j r0 over s
      → (request : RunRequest) (run_id : String) (now : ℕ) → run_id ≢ j
      → lookup run_id s.runs ≡ none
      → (r : RunRecord) → validate (new_record request run_id now) ≡ ok r
      → IsFinalRecord j r0 over r
  fresh_final j r0 over s h request run_id now other new r made = (
    created-IsSound request run_id now r made,
    λ ours. absurd (other (sym (validate-id _ made) ∙ ours)),
  )

  at_first :
      {s : RunStore} (j : String) (row : RunRow)
      → IsValid s
      → lookup j s.runs ≡ some row
      → (over : is_running row.payload.status ≡ false) → IsFinal j row.payload over s
  at_first j row v found over = record {
    valid = v;
    same = λ row' found'.
        let one : row ≡ row' = some-injective _ _ (sym found ∙ found') in
        subst (λ (x : RunRow). SameOutcome x.payload row.payload) one refl;
  }

  -- In a store with valid rows, once a run has ended, no sequence of calls of the store's methods
  -- that does not draw its ID again gives its record another outcome: while the row is there it
  -- has the same status, times, exit code, byte counts, summary and mark of ambiguity, and only its
  -- retention mark may differ.
  pub outcome_is_final :
      {s t : RunStore} (j : String) (row : RunRow)
      → IsValid s
      → lookup j s.runs ≡ some row
      → is_running row.payload.status ≡ false
      → Reach (λ run_id. run_id ≢ j) s t
      → (row' : RunRow) → lookup j t.runs ≡ some row'
      → SameOutcome row'.payload row.payload
  outcome_is_final {s} j row v found over r row' found' =
      (Reach-keeps (IsFinal-laws j row.payload over) (λ run_id. run_id ≢ j)
          (fresh_final j row.payload over) r (at_first j row v found over)).same
        row' found'
