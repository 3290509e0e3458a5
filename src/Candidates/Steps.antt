-- ===== src/Candidates/Steps.antt =====
-- src/hypershell_reach/candidates.py: the store under any sequence of calls of its methods.
use mathlib.Core.Path.{subst}
use hypershell_reach.Base.{
  ℕ, zero, suc, ◌≡◌, refl, sym, ap, ◌∙◌, inl, inr, String, Bool, true, false, not, Option, none,
  some, arith, if◌then◌else◌, Option-cases, ◌==◌,
}
use hypershell_reach.Base.Result.{Error, Result, ok, err, value_error, runtime_error, Result-cases}
use hypershell_reach.Base.Action.{Action, ◌>>=◌}
use hypershell_reach.Base.Table.{lookup, AllRows-lookup}
use hypershell_reach.Candidates.Record.{
  CandidateRecord, CandidateState, CandidateReference, is_candidate_id, validate,
}
use hypershell_reach.Candidates.Store.{
  CandidateRow, CandidateStore, require_writable, CandidateRequest, new_candidate, create_with,
  create_generated, create, retry, already_exists,
}
use hypershell_reach.Candidates.Changes.{
  Revision, unchanged, rewritten, revise, CandidateChanges, update, record_occurrence, transition,
  link_task,
}
use hypershell_reach.Candidates.Revision.{
  IsRevision, Revises, validate_same, updated_by-Revises, occurred_again-Revises, moved_to-Revises,
  linked_to-Revises,
}
use hypershell_reach.Candidates.Frame.{
  HasValidCandidates, RowIsValid, with_row, with_row-HasValidCandidates, revise_lem,
  create_with_lem, outcome_of, added_to,
}

-- One call, whether it returns or raises.
pub data Step (s : CandidateStore) : CandidateStore → Type 0 where
  created :
      (candidate_id : Option String) (request : CandidateRequest) (generated : ℕ → String) (now : ℕ)
      → Step s (create candidate_id request generated now s).1
  updated :
      (candidate_id : String) (expected : ℕ) (changes : CandidateChanges) (now : ℕ)
      → Step s (update candidate_id expected changes now s).1
  recurred :
      (candidate_id : String) (expected now : ℕ)
      → Step s (record_occurrence candidate_id expected now s).1
  moved :
      (candidate_id : String) (expected : ℕ) (target : CandidateState) (reason : String)
      (reference : Option CandidateReference) (now : ℕ)
      → Step s (transition candidate_id expected target reason reference now s).1
  linked :
      (candidate_id : String) (expected : ℕ) (task_id : String) (now : ℕ)
      → Step s (link_task candidate_id expected task_id now s).1

pub data Reach (s : CandidateStore) : CandidateStore → Type 0 where
  here : Reach s s
  next : {t v : CandidateStore} → Reach s t → Step t v → Reach s v

-- What a call may do to the store: nothing, add a record, or revise one. No record is deleted.
pub data Effect (s : CandidateStore) : CandidateStore → Type 0 where
  nothing : {t : CandidateStore} → t ≡ s → Effect s t
  added :
      {t : CandidateStore} (r : CandidateRecord)
      → lookup r.id s.candidates ≡ none
      → validate r ≡ ok r
      → t ≡ with_row r s
      → Effect s t
  revised_one :
      {t : CandidateStore} (row : CandidateRow) (r : CandidateRecord)
      → lookup r.id s.candidates ≡ some row
      → IsRevision row.payload r
      → t ≡ with_row r s
      → Effect s t

if-Effect :
    {s : CandidateStore} (b : Bool) (x y : Result CandidateRecord × CandidateStore)
    → Effect s x.1
    → Effect s y.1
    → Effect s (if b then x else y).1
if-Effect true x y p q = p
if-Effect false x y p q = q

outcome_of-Effect :
    (row : CandidateRow) (s : CandidateStore) (change : CandidateRecord → Result Revision)
    → Revises change
    → lookup row.payload.id s.candidates ≡ some row
    → Effect s (outcome_of row.payload s (change row.payload)).1
outcome_of-Effect row s change revises found = elim (Result-cases (change row.payload)) [
  | inl (unchanged, made) ↦ rw made (nothing refl)
  | inl (rewritten r, made) ↦
      let is_one = revises row.payload r made in
      rw made
        (revised_one row r (ap (λ k. lookup k s.candidates) is_one.same_id ∙ found) is_one refl)
  | inr (e, refused) ↦ rw refused (nothing refl)
]

revise-Effect :
    (candidate_id : String) (expected : ℕ) (change : CandidateRecord → Result Revision)
    (s : CandidateStore)
    → Revises change
    → HasValidCandidates s
    → Effect s (revise candidate_id expected change s).1
revise-Effect candidate_id expected change s revises v =
    subst (λ x. Effect s x.1) (sym (revise_lem candidate_id expected change s revises v))
      (if-Effect s.read_only _ _ (nothing refl) (
        if-Effect (not (is_candidate_id candidate_id)) _ _ (nothing refl)
          (elim (Option-cases (lookup candidate_id s.candidates)) [
            | inl missing ↦ rw missing (nothing refl)
            | inr (row, found) ↦
                let keyed =
                  (AllRows-lookup RowIsValid candidate_id s.candidates v.rows found).keyed in
                rw found (
                  if-Effect (row.payload.revision == expected) _ _
                    (outcome_of-Effect row s change revises
                      (ap (λ k. lookup k s.candidates) keyed ∙ found))
                    (nothing refl))
          ])))

made_Effect :
    (request : CandidateRequest) (candidate_id : String) (now : ℕ) (s : CandidateStore)
    → lookup candidate_id s.candidates ≡ none
    → Effect s (added_to s (validate (new_candidate request candidate_id now))).1
made_Effect request candidate_id now s missing =
    elim (Result-cases (validate (new_candidate request candidate_id now))) [
      | inl (r, made) ↦
          let same = validate_same (new_candidate request candidate_id now) made in
          rw made (
            added r (ap (λ (x : CandidateRecord). lookup x.id s.candidates) same ∙ missing)
              (subst (λ x. validate x ≡ ok r) (sym same) made) refl)
      | inr (e, refused) ↦ rw refused (nothing refl)
    ]

create_with-failed :
    (request : CandidateRequest) (candidate_id : String) (now : ℕ) (s : CandidateStore) (e : Error)
    → (create_with request candidate_id now s).0 ≡ err e
    → (create_with request candidate_id now s).1 ≡ s
create_with-failed request candidate_id now s e failed =
    ground (arith, create_with_lem request candidate_id now s)

create_with-Effect :
    (request : CandidateRequest) (candidate_id : String) (now : ℕ) (s : CandidateStore)
    → Effect s (create_with request candidate_id now s).1
create_with-Effect request candidate_id now s =
    subst (λ x. Effect s x.1) (sym (create_with_lem request candidate_id now s))
      (if-Effect s.read_only _ _ (nothing refl) (
        if-Effect (not (request.problem.recurrence_count == 1)) _ _ (nothing refl) (
          if-Effect (not (is_candidate_id candidate_id)) _ _ (nothing refl)
            (elim (Option-cases (lookup candidate_id s.candidates)) [
              | inr (row, found) ↦ rw found (nothing refl)
              | inl missing ↦ rw missing (made_Effect request candidate_id now s missing)
            ]))))

-- What a failed attempt leaves is what it found.
retry-Effect :
    (candidate_id : String) {s : CandidateStore} (tried : Result CandidateRecord × CandidateStore)
    (again : Action CandidateStore CandidateRecord)
    → Effect s tried.1
    → ((e : Error) → tried.0 ≡ err e → tried.1 ≡ s)
    → ((t : CandidateStore) → t ≡ s → Effect s (again t).1)
    → Effect s (retry candidate_id tried again).1
retry-Effect candidate_id (ok r, t) again did failed more = did
retry-Effect candidate_id (err e, t) again did failed more =
    if-Effect (already_exists candidate_id e) _ _ (more t (failed e refl)) did

create_generated-Effect :
    (n : ℕ) (request : CandidateRequest) (generated : ℕ → String) (now : ℕ) (s : CandidateStore)
    → Effect s (create_generated n request generated now s).1
unfolding create_generated
create_generated-Effect zero request generated now s = nothing refl
create_generated-Effect (suc n) request generated now s =
    retry-Effect (generated n) (create_with request (generated n) now s)
      (create_generated n request generated now) (create_with-Effect request (generated n) now s)
      (create_with-failed request (generated n) now s)
      (λ t same.
        subst (λ x. Effect s (create_generated n request generated now x).1) (sym same)
          (create_generated-Effect n request generated now s))

pub create_none_lem :
    (request : CandidateRequest) (generated : ℕ → String) (now : ℕ) (s : CandidateStore)
    → create none request generated now s ≡ (
        if s.read_only
        then (err (runtime_error "candidate store is read-only"), s)
        else if not (request.problem.recurrence_count == 1)
        then (err (value_error "new candidate recurrence_count must be 1"), s)
        else create_generated 32 request generated now s)
unfolding create require_writable ◌>>=◌
create_none_lem request generated now s = ground arith

create-Effect :
    (candidate_id : Option String) (request : CandidateRequest) (generated : ℕ → String) (now : ℕ)
    (s : CandidateStore)
    → Effect s (create candidate_id request generated now s).1
unfolding create
create-Effect (some candidate_id) request generated now s =
    create_with-Effect request candidate_id now s
create-Effect none request generated now s =
    subst (λ x. Effect s x.1) (sym (create_none_lem request generated now s))
      (if-Effect s.read_only _ _ (nothing refl) (
        if-Effect (not (request.problem.recurrence_count == 1)) _ _ (nothing refl)
          (create_generated-Effect 32 request generated now s)))

-- Every call of a method, in every case, adds one record under a new ID, revises one record, or
-- leaves the store as it is.
pub Step-Effect : {s t : CandidateStore} → HasValidCandidates s → Step s t → Effect s t
Step-Effect {s} v (created candidate_id request generated now) =
    create-Effect candidate_id request generated now s
Step-Effect {s} v (updated candidate_id expected changes now) =
    revise-Effect candidate_id expected _ s (updated_by-Revises changes now) v
Step-Effect {s} v (recurred candidate_id expected now) =
    revise-Effect candidate_id expected _ s (occurred_again-Revises now) v
Step-Effect {s} v (moved candidate_id expected target reason reference now) =
    revise-Effect candidate_id expected _ s (moved_to-Revises target reason reference now) v
Step-Effect {s} v (linked candidate_id expected task_id now) =
    revise-Effect candidate_id expected _ s (linked_to-Revises task_id now) v

Effect-HasValidCandidates :
    {s t : CandidateStore} → Effect s t → HasValidCandidates s → HasValidCandidates t
Effect-HasValidCandidates (nothing same) v = subst HasValidCandidates (sym same) v
Effect-HasValidCandidates {s} (added r new accepted same) v =
    subst HasValidCandidates (sym same) (with_row-HasValidCandidates r s accepted v)
Effect-HasValidCandidates {s} (revised_one row r found is_one same) v =
    subst HasValidCandidates (sym same) (with_row-HasValidCandidates r s is_one.accepted v)

-- From a store with valid rows, any sequence of calls leads to one with valid rows: each record
-- passes the validators (so it has a state reason just when it is past the state `candidate`, and
-- a final reference just when it is implemented or automated), stands once, under its own ID, and
-- the columns of its row are its own.
pub Reach-HasValidCandidates :
    {s t : CandidateStore} → HasValidCandidates s → Reach s t → HasValidCandidates t
Reach-HasValidCandidates v here = v
Reach-HasValidCandidates v (next r st) =
    let w = Reach-HasValidCandidates v r in Effect-HasValidCandidates (Step-Effect w st) w
