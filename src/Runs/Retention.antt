-- ===== src/Runs/Retention.antt =====
-- src/hypershell_reach/runs.py: what `cleanup` deletes, and what it keeps as evidence.
use hypershell_reach.Base.{
  ℕ, ◌≡◌, refl, ap, ◌∙◌, inl, inr, String, Bool, true, false, not, ◌&&◌, ◌+◌, ◌*◌, leb, Option,
  none, some, arith, if◌then◌else◌, Bool-cases, Option-cases,
}
use hypershell_reach.Base.Action.{◌>>=◌}
use hypershell_reach.Base.Table.{
  lookup, AllRows-lookup, lookup-delete_all, member-ids_where, found_with, ids_where,
}
use hypershell_reach.Runs.Record.{
  Unicode, RunStatus, succeeded, remote_error, transport_error, timeout, local_error, is_running,
  is_ambiguous, is_terminal_cleanup,
}
use hypershell_reach.Runs.Invariant.{IsValid, RowIsValid}
use hypershell_reach.Runs.Store.{RunRow, RunStore, row_of, require_writable, write_lock}
use hypershell_reach.Runs.Operations.{is_expired, cleanup_days, cleanup}

module _ ⦃u : Unicode⦄ where
  cleanup_table :
      (s : RunStore) (days now : ℕ) (run_id : String)
      → IsValid s
      → s.read_only ≡ false
      → s.completed_days ≡ some days
      → lookup run_id (cleanup now s).1.runs ≡ (
          if found_with (is_expired days now) (lookup run_id s.runs)
          then none
          else lookup run_id s.runs)
  unfolding cleanup cleanup_days write_lock require_writable ◌>>=◌
  cleanup_table s days now run_id v open_store kept = ground (
    arith,
    lookup-delete_all (ids_where (is_expired days now) s.runs) run_id s.runs,
    member-ids_where (is_expired days now) run_id s.runs v.unique,
  )

  -- The effect of a run that ended with the status is known, if the run may mutate or not.
  abbrev pub has_known_effect : Bool → RunStatus → Bool
  has_known_effect may_mutate succeeded = true
  has_known_effect may_mutate remote_error = true
  has_known_effect may_mutate local_error = true
  has_known_effect may_mutate timeout = not may_mutate
  has_known_effect may_mutate transport_error = not may_mutate
  has_known_effect may_mutate _ = false

  abbrev pub ended_before : ℕ → ℕ → Option ℕ → Bool
  ended_before days now none = false
  ended_before days now (some ended) = leb (ended + days * 86_400_000_000) now

  -- What a retention of so many days is to leave of a run, by its record.
  abbrev pub remains : ℕ → ℕ → Option RunRow → Option RunRow
  remains days now none = none
  remains days now (some row) =
      if not row.payload.retained
        && (ended_before days now row.payload.ended_at
            && has_known_effect row.payload.may_mutate row.payload.status)
      then none
      else some row

  is_expired_lem :
      (row : RunRow) (run_id : String) (days now : ℕ)
      → RowIsValid run_id row
      → is_expired days now row ≡ (
          not row.payload.retained
          && (ended_before days now row.payload.ended_at
              && has_known_effect row.payload.may_mutate row.payload.status))
  unfolding is_expired row_of
  is_expired_lem row run_id days now v =
      let retained : row.retained ≡ row.payload.retained =
        ap (λ (x : RunRow). x.retained) v.columns in
      let status : row.status ≡ row.payload.status = ap (λ (x : RunRow). x.status) v.columns in
      let ended : row.ended_at ≡ row.payload.ended_at = ap (λ (x : RunRow). x.ended_at) v.columns in
      let ambiguous : row.ambiguous ≡ (row.payload.may_mutate && is_ambiguous row.payload.status) =
        ap (λ (x : RunRow). x.ambiguous) v.columns ∙ v.ambiguity in
      ground arith

  -- In a writable store with valid rows and a retention of `days`, `cleanup` deletes a run just
  -- when its record is not retained, it ended at least `days` ago, and its effect is known: it
  -- succeeded or ended with a remote or a local error, or with a timeout or a transport error and
  -- may not mutate. Every other row is left as it was, and no row is added.
  pub cleanup_lem :
      (s : RunStore) (days now : ℕ) (run_id : String)
      → IsValid s
      → s.read_only ≡ false
      → s.completed_days ≡ some days
      → lookup run_id (cleanup now s).1.runs ≡ remains days now (lookup run_id s.runs)
  cleanup_lem s days now run_id v open_store kept =
      let table = cleanup_table s days now run_id v open_store kept in
      elim (Option-cases (lookup run_id s.runs)) [
        | inl missing ↦ table ∙ rw missing refl
        | inr (row, found) ↦
            let w = AllRows-lookup RowIsValid run_id s.runs v.rows found in
            table ∙ rw (found, is_expired_lem row run_id days now w) refl
      ]

  -- Why a run is evidence that has to stay.
  pub data IsEvidence (row : RunRow) : Type 0 where
    was_retained : row.payload.retained ≡ true → IsEvidence row
    is_going : is_running row.payload.status ≡ true → IsEvidence row
    may_have_mutated :
        row.payload.may_mutate ≡ true → is_ambiguous row.payload.status ≡ true → IsEvidence row

  running_is_not_terminal :
      (status : RunStatus) → is_running status ≡ true → is_terminal_cleanup status ≡ false
  running_is_not_terminal status going = ground arith

  evidence_is_not_expired :
      (row : RunRow) (run_id : String) (days now : ℕ)
      → RowIsValid run_id row
      → IsEvidence row
      → is_expired days now row ≡ false
  unfolding is_expired row_of
  evidence_is_not_expired row run_id days now v (was_retained kept) =
      let column : row.retained ≡ true = ap (λ (x : RunRow). x.retained) v.columns ∙ kept in
      rw column refl
  evidence_is_not_expired row run_id days now v (is_going going) =
      let column : row.status ≡ row.payload.status = ap (λ (x : RunRow). x.status) v.columns in
      let not_over = running_is_not_terminal row.payload.status going in ground arith
  evidence_is_not_expired row run_id days now v (may_have_mutated m a) =
      let column : row.ambiguous ≡ true =
        ap (λ (x : RunRow). x.ambiguous) v.columns ∙ v.ambiguity ∙ rw (m, a) refl in
      ground arith

  -- In a store whose rows are valid, `cleanup` keeps the row of a run that is marked as retained,
  -- of one that is running, and of one that may mutate and ended with a status that leaves its
  -- effect unknown, however old it is.
  pub evidence_is_kept :
      (s : RunStore) (now : ℕ) (run_id : String) (row : RunRow)
      → IsValid s
      → lookup run_id s.runs ≡ some row
      → IsEvidence row
      → lookup run_id (cleanup now s).1.runs ≡ some row
  unfolding cleanup cleanup_days write_lock require_writable ◌>>=◌
  evidence_is_kept s now run_id row v found evidence =
      let fresh = λ (days : ℕ).
        evidence_is_not_expired row run_id days now
          (AllRows-lookup RowIsValid run_id s.runs v.rows found) evidence in
      elim (Option-cases s.completed_days) [
        | inl never ↦ ground arith
        | inr (days, kept) ↦ elim (Bool-cases s.read_only) [
          | inl closed ↦ ground arith
          | inr open_store ↦
              cleanup_table s days now run_id v open_store kept ∙ rw (found, fresh days) refl
        ]
      ]
