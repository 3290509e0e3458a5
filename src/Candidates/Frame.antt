-- ===== src/Candidates/Frame.antt =====
-- src/hypershell_reach/candidates.py: what the store is after `create` and after a revision.
use mathlib.Core.Path.{subst}
use hypershell_reach.Base.{
  ℕ, ◌≡◌, refl, sym, ◌∙◌, inl, inr, String, true, false, not, none, some, arith, if◌then◌else◌,
  Bool-cases, Option-cases, ◌==◌, is_some,
}
use hypershell_reach.Base.Text.{◌<>◌, str_eq_refl}
use hypershell_reach.Base.Result.{Result, ok, err, value_error, runtime_error, Result-cases}
use hypershell_reach.Base.Action.{◌>>=◌}
use hypershell_reach.Base.Table.{
  lookup, upsert, AllRows, AllRows-lookup, AllRows-upsert, HasUniqueKeys, upsert-HasUniqueKeys,
}
use hypershell_reach.Candidates.Record.{CandidateRecord, is_candidate_id, validate}
use hypershell_reach.Candidates.Store.{
  CandidateRow, CandidateStore, row_of, require_writable, validate_id, lock, decode, put,
  atomic_write, read_path, get, CandidateRequest, new_candidate, create_with,
}
use hypershell_reach.Candidates.Changes.{
  Revision, unchanged, rewritten, stale, write_revision, revise,
}
use hypershell_reach.Candidates.Revision.{Revises, validate_same}

-- A row stands under its record's ID, has the columns of its record, and its record passes the
-- validators.
pub record RowIsValid (candidate_id : String) (row : CandidateRow) : Type 0 where
  pub keyed : row.payload.id ≡ candidate_id
  pub columns : row ≡ row_of row.payload
  pub accepted : validate row.payload ≡ ok row.payload

pub record HasValidCandidates (s : CandidateStore) : Type 0 where
  pub rows : AllRows RowIsValid s.candidates
  pub unique : HasUniqueKeys s.candidates

abbrev pub with_row : CandidateRecord → CandidateStore → CandidateStore
with_row r s = record s { candidates = upsert r.id (row_of r) s.candidates }

pub with_row-HasValidCandidates :
    (r : CandidateRecord) (s : CandidateStore)
    → validate r ≡ ok r
    → HasValidCandidates s
    → HasValidCandidates (with_row r s)
with_row-HasValidCandidates r s accepted v = record {
  rows =
      AllRows-upsert RowIsValid r.id (row_of r) s.candidates
        (record { keyed = refl; columns = refl; accepted = accepted }) v.rows;
  unique = upsert-HasUniqueKeys r.id (row_of r) s.candidates v.unique;
}

get_found :
    (candidate_id : String) (row : CandidateRow) (s : CandidateStore)
    → is_candidate_id candidate_id ≡ true
    → lookup candidate_id s.candidates ≡ some row
    → RowIsValid candidate_id row
    → get candidate_id s ≡ (ok row.payload, s)
unfolding get validate_id read_path decode ◌>>=◌
get_found candidate_id row s named found v =
    ground (arith, str_eq_refl candidate_id, v.keyed, v.accepted)

atomic_write_lem :
    (r : CandidateRecord) (s : CandidateStore)
    → s.read_only ≡ false
    → validate r ≡ ok r
    → atomic_write r s ≡ (ok tt, with_row r s)
unfolding atomic_write require_writable put decode ◌>>=◌
atomic_write_lem r s open_store accepted = ground arith

-- What comes of a change of the record that was found.
abbrev pub outcome_of :
    CandidateRecord → CandidateStore → Result Revision → Result CandidateRecord × CandidateStore
outcome_of current s (err e) = (err e, s)
outcome_of current s (ok unchanged) = (ok current, s)
outcome_of current s (ok (rewritten updated)) = (ok updated, with_row updated s)

revise_found :
    (candidate_id : String) (expected : ℕ) (change : CandidateRecord → Result Revision)
    (row : CandidateRow) (s : CandidateStore)
    → Revises change
    → s.read_only ≡ false
    → is_candidate_id candidate_id ≡ true
    → lookup candidate_id s.candidates ≡ some row
    → RowIsValid candidate_id row
    → revise candidate_id expected change s ≡ (
        if row.payload.revision == expected
        then outcome_of row.payload s (change row.payload)
        else (err (stale expected row.payload.revision), s))
unfolding revise lock require_writable validate_id write_revision ◌>>=◌
revise_found candidate_id expected change row s revises open_store named found v =
    let read = get_found candidate_id row s named found v in
    elim (Result-cases (change row.payload)) [
      | inl (unchanged, made) ↦ ground (arith, read, made)
      | inl (rewritten updated, made) ↦ ground (
        arith,
        read,
        made,
        atomic_write_lem updated s open_store (revises row.payload updated made).accepted,
      )
      | inr (e, refused) ↦ ground (arith, read, refused)
    ]

-- `update`, `record_occurrence`, `transition` and `link_task` share one frame. With the store's
-- rows valid it raises and changes nothing if the store is read-only, the ID malformed or
-- unknown, or the revision not the expected one; else the outcome is that of the change: its error
-- with the store unchanged, or the current record, or the revised one, which alone is written.
pub revise_lem :
    (candidate_id : String) (expected : ℕ) (change : CandidateRecord → Result Revision)
    (s : CandidateStore)
    → Revises change
    → HasValidCandidates s
    → revise candidate_id expected change s ≡ (
        if s.read_only
        then (err (runtime_error "candidate store is read-only"), s)
        else if not (is_candidate_id candidate_id)
        then (err (value_error "invalid candidate ID"), s)
        else elim (lookup candidate_id s.candidates) [
          | none ↦ (err (value_error ("unknown candidate: " <> candidate_id)), s)
          | some row ↦
              if row.payload.revision == expected
              then outcome_of row.payload s (change row.payload)
              else (err (stale expected row.payload.revision), s)
        ])
unfolding revise lock require_writable validate_id get ◌>>=◌
revise_lem candidate_id expected change s revises v = elim (Bool-cases s.read_only) [
  | inl closed ↦ ground arith
  | inr open_store ↦ elim (Bool-cases (is_candidate_id candidate_id)) [
    | inr unnamed ↦ ground arith
    | inl named ↦ elim (Option-cases (lookup candidate_id s.candidates)) [
      | inl missing ↦ ground arith
      | inr (row, found) ↦
          revise_found candidate_id expected change row s revises open_store named found
            (AllRows-lookup RowIsValid candidate_id s.candidates v.rows found)
          ∙ simp (open_store, named, found)
    ]
  ]
]

-- What comes of a new record that was validated.
abbrev pub added_to :
    CandidateStore → Result CandidateRecord → Result CandidateRecord × CandidateStore
added_to s (ok r) = (ok r, with_row r s)
added_to s (err e) = (err e, s)

-- `create` for an ID, on every branch: it raises and changes nothing, or writes the new record.
pub create_with_lem :
    (request : CandidateRequest) (candidate_id : String) (now : ℕ) (s : CandidateStore)
    → create_with request candidate_id now s ≡ (
        if s.read_only
        then (err (runtime_error "candidate store is read-only"), s)
        else if not (request.problem.recurrence_count == 1)
        then (err (value_error "new candidate recurrence_count must be 1"), s)
        else if not (is_candidate_id candidate_id)
        then (err (value_error "invalid candidate ID"), s)
        else if is_some (lookup candidate_id s.candidates)
        then (err (value_error ("candidate already exists: " <> candidate_id)), s)
        else added_to s (validate (new_candidate request candidate_id now)))
unfolding create_with lock require_writable validate_id ◌>>=◌
create_with_lem request candidate_id now s = elim (Bool-cases s.read_only) [
  | inl closed ↦ ground arith
  | inr open_store ↦ elim (Result-cases (validate (new_candidate request candidate_id now))) [
    | inr (e, refused) ↦ ground arith
    | inl (r, made) ↦
        let same = validate_same (new_candidate request candidate_id now) made in
        let accepted : validate r ≡ ok r = subst (λ x. validate x ≡ ok r) (sym same) made in
        ground (arith, atomic_write_lem r s open_store accepted)
  ]
]
