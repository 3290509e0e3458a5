-- ===== src/Examples/Candidates.antt =====
-- src/hypershell_reach/candidates.py on one candidate: the theorems at a store that has it.
use hypershell_reach.Base.{
  ℕ, ◌<◌, ◌≡◌, refl, String, Bool, true, false, not, none, some, [], ◌∷◌, arith, ◌==◌,
  if◌then◌else◌, is_some,
}
use hypershell_reach.Base.Text.{◌<>◌}
use hypershell_reach.Base.Action.{◌>>=◌}
use hypershell_reach.Base.Result.{ok, err, value_error, runtime_error}
use hypershell_reach.Base.Table.{lookup, upsert}
use hypershell_reach.Candidates.Record.{
  CandidateState, CandidateRecord, is_candidate_id, is_stable_reference, check_problem,
  check_proposal, check_tool_id, check_ownership, check_promotion, check_implementation,
  check_reference, check_lifecycle_shape, validate,
}
use hypershell_reach.Candidates.Store.{
  CandidateStore, CandidateRow, CandidateRequest, new_candidate, row_of, create, create_with,
}
use hypershell_reach.Candidates.Changes.{
  revise, stale, moved_to, revised, occurred_again, transition, record_occurrence,
}
use hypershell_reach.Candidates.Revision.{moved_to-Revises}
use hypershell_reach.Candidates.Frame.{
  HasValidCandidates, with_row, with_row-HasValidCandidates, revise_lem, outcome_of, added_to,
  create_with_lem,
}
use hypershell_reach.Candidates.Steps.{Reach, here, next, moved, recurred, Reach-HasValidCandidates}
use hypershell_reach.Candidates.History.{Later, Reach-Later, stale_is_refused}
use hypershell_reach.Candidates.Creation.{create_finds_free}

abbrev request : CandidateRequest
request = record {
  title = "Disk check";
  problem = record {
    summary = "disks fill up";
    cause = "logs";
    recurrence_count = 1;
    recurrence = none;
    evidence = "df" ∷ [];
  };
  proposal = record {
    capability = "check disks";
    proposed_tool_id = none;
    required_inputs = [];
    expected_outputs = record { name = "report"; description = "usage" } ∷ [];
    safety = record { mutating = false; secret_access = false; boundary = "read only" };
    acceptance = "reports usage" ∷ [];
  };
  ownership = record { owner_id = "ops" };
  promotion_rationale = "saves time";
}

abbrev the_id : String
the_id = "CAN-1"

abbrev the_candidate : CandidateRecord
the_candidate = new_candidate request the_id 5

the_candidate_accepted : validate the_candidate ≡ ok the_candidate
unfolding validate is_candidate_id check_problem check_proposal check_tool_id check_ownership
    is_stable_reference check_promotion check_implementation check_reference check_lifecycle_shape
the_candidate_accepted = refl

abbrev empty_store : CandidateStore
empty_store = record { candidates = []; read_only = false }

-- With the new candidate, and after it was approved and then delivered.
abbrev store : CandidateStore
store = with_row the_candidate empty_store

abbrev row : CandidateRow
row = row_of the_candidate

the_id_fits : is_candidate_id the_id ≡ true
unfolding is_candidate_id
the_id_fits = refl

store-HasValidCandidates : HasValidCandidates store
store-HasValidCandidates =
    with_row-HasValidCandidates the_candidate empty_store the_candidate_accepted
      (record { rows = tt; unique = tt })

row_found : lookup the_id store.candidates ≡ some row
unfolding lookup upsert
row_found = refl

revise_lem_example : transition the_id 1 CandidateState.approved "worth it" none 7 store ≡ (
    if store.read_only
    then (err (runtime_error "candidate store is read-only"), store)
    else if not (is_candidate_id the_id)
    then (err (value_error "invalid candidate ID"), store)
    else elim (lookup the_id store.candidates) [
      | none ↦ (err (value_error ("unknown candidate: " <> the_id)), store)
      | some row ↦
          if row.payload.revision == 1
          then outcome_of row.payload store
              (moved_to CandidateState.approved "worth it" none 7 row.payload)
          else (err (stale 1 row.payload.revision), store)
    ])
revise_lem_example =
    revise_lem the_id 1 (moved_to CandidateState.approved "worth it" none 7) store
      (moved_to-Revises CandidateState.approved "worth it" none 7) store-HasValidCandidates

abbrev later_store : CandidateStore
later_store =
    (record_occurrence the_id 2 8
      (transition the_id 1 CandidateState.approved "worth it" none 7 store).1).1

to_later_store : Reach store later_store
to_later_store =
    next (next here (moved the_id 1 CandidateState.approved "worth it" none 7))
      (recurred the_id 2 8)

Reach-HasValidCandidates_example : HasValidCandidates later_store
Reach-HasValidCandidates_example = Reach-HasValidCandidates store-HasValidCandidates to_later_store

Reach-Later_example :
    (row' : CandidateRow) × (lookup the_id later_store.candidates ≡ some row')
    × Later row.payload row'.payload
Reach-Later_example = Reach-Later the_id row store-HasValidCandidates row_found to_later_store

later_store_open : later_store.read_only ≡ false
unfolding revise occurred_again moved_to revised validate is_candidate_id check_problem
    check_proposal check_tool_id check_ownership is_stable_reference check_promotion
    check_implementation check_reference check_lifecycle_shape lookup upsert ◌>>=◌
later_store_open = refl

stale_is_refused_example :
    (current : ℕ) × (transition the_id 0 CandidateState.blocked "no" none 9 later_store
      ≡ (err (stale 0 current), later_store))
stale_is_refused_example =
    stale_is_refused the_id row 0 (moved_to CandidateState.blocked "no" none 9)
      store-HasValidCandidates row_found (omega arith) to_later_store later_store_open the_id_fits
      (moved_to-Revises CandidateState.blocked "no" none 9)

-- The last of the 32 IDs is taken, which is drawn first.
abbrev drawn : Bool → String
drawn true = "CAN-1"
drawn false = "CAN-2"

abbrev generated : ℕ → String
generated i = drawn (i == 31)

drawn_fits : (last : Bool) → is_candidate_id (drawn last) ≡ true
unfolding is_candidate_id
drawn_fits true = refl
drawn_fits false = refl

drawn_accepted :
    (last : Bool)
    → validate (new_candidate request (drawn last) 9) ≡ ok (new_candidate request (drawn last) 9)
unfolding validate is_candidate_id check_problem check_proposal check_tool_id check_ownership
    is_stable_reference check_promotion check_implementation check_reference check_lifecycle_shape
drawn_accepted true = refl
drawn_accepted false = refl

first_is_free : lookup (generated 0) store.candidates ≡ none
unfolding lookup upsert
first_is_free = refl

create_finds_free_example :
    (j : ℕ) × (j < 32)
    × (lookup (generated j) store.candidates ≡ none)
    × (create none request generated 9 store ≡ (
      ok (new_candidate request (generated j) 9),
      with_row (new_candidate request (generated j) 9) store,
    ))
create_finds_free_example =
    create_finds_free request generated 9 store refl refl (λ i. drawn_fits (i == 31))
      (λ i. drawn_accepted (i == 31)) 0 (omega arith) first_is_free

create_with_lem_example : create_with request the_id 9 store ≡ (
    if store.read_only
    then (err (runtime_error "candidate store is read-only"), store)
    else if not (request.problem.recurrence_count == 1)
    then (err (value_error "new candidate recurrence_count must be 1"), store)
    else if not (is_candidate_id the_id)
    then (err (value_error "invalid candidate ID"), store)
    else if is_some (lookup the_id store.candidates)
    then (err (value_error ("candidate already exists: " <> the_id)), store)
    else added_to store (validate (new_candidate request the_id 9)))
create_with_lem_example = create_with_lem request the_id 9 store
