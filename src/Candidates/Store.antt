-- ===== src/Candidates/Store.antt =====
-- src/hypershell_reach/candidates.py: `CandidateStore` over the unified database (`database` is
-- configured). The readings of the clock and the generated IDs are arguments.
use hypershell_reach.Base.{
  ℕ, zero, suc, String, Bool, true, false, not, Option, none, some, ◌==◌, is_some, if◌then◌else◌,
}
use hypershell_reach.Base.Text.{str_eq, ◌<>◌}
use hypershell_reach.Base.Result.{Error, value_error, runtime_error, Result, ok, err}
use hypershell_reach.Base.Action.{
  Action, pure, lift, gets, or_raise, raise_if, modify, transaction, ◌>>=◌, ◌>>◌,
}
use hypershell_reach.Base.Table.{Table, lookup, upsert}
use hypershell_reach.Candidates.Record.{
  CandidateState, candidate, approved, blocked, not_warranted, implemented, automated,
  CandidateProblem, CandidateProposal, CandidateOwnership, CandidateRecord, is_candidate_id,
  validate,
}

-- A row of the table `candidates`.
pub record CandidateRow : Type 0 where
  pub status : CandidateState
  pub revision : ℕ
  pub recurrence_count : ℕ
  pub owner_id : String
  pub created_at : ℕ
  pub updated_at : ℕ
  pub payload : CandidateRecord

pub record CandidateStore : Type 0 where
  pub candidates : Table CandidateRow
  pub read_only : Bool

-- `_ALLOWED_TRANSITIONS`
abbrev pub is_allowed_transition : CandidateState → CandidateState → Bool
is_allowed_transition candidate approved = true
is_allowed_transition candidate blocked = true
is_allowed_transition candidate not_warranted = true
is_allowed_transition approved blocked = true
is_allowed_transition approved not_warranted = true
is_allowed_transition approved implemented = true
is_allowed_transition approved automated = true
is_allowed_transition blocked approved = true
is_allowed_transition blocked not_warranted = true
is_allowed_transition _ _ = false

unfoldable pub require_writable : Action CandidateStore (Unit {0})
require_writable = do
  closed ← gets (λ s. s.read_only)
  raise_if closed (runtime_error "candidate store is read-only")

-- `_validate_id`, which is all of `_path` that the database needs.
unfoldable pub validate_id : String → Action CandidateStore (Unit {0})
validate_id candidate_id =
    raise_if (not (is_candidate_id candidate_id)) (value_error "invalid candidate ID")

-- `_lock`
unfoldable pub lock : {A : Type 0} → String → Action CandidateStore A → Action CandidateStore A
unfolding require_writable validate_id
lock candidate_id body = do require_writable; validate_id candidate_id; transaction body

-- `_decode`, up to JSON.
unfoldable pub decode : CandidateRecord → Result CandidateRecord
decode payload = elim (validate payload) [
  | ok self ↦ ok self
  | err e ↦ err (runtime_error "invalid candidate record in database")
]

-- The columns that `_put` writes.
abbrev pub row_of : CandidateRecord → CandidateRow
row_of self = record {
  status = self.promotion.state;
  revision = self.revision;
  recurrence_count = self.problem.recurrence_count;
  owner_id = self.ownership.owner_id;
  created_at = self.created_at;
  updated_at = self.updated_at;
  payload = self;
}

unfoldable pub put : CandidateRecord → Action CandidateStore (Unit {0})
unfolding decode
put given = do
  self ← lift (decode given)
  modify (λ s. record s { candidates = upsert self.id (row_of self) s.candidates })

unfoldable pub atomic_write : CandidateRecord → Action CandidateStore (Unit {0})
unfolding require_writable put
atomic_write self = do require_writable; put self

-- `_exists`
abbrev pub exists : String → CandidateStore → Bool
exists candidate_id s = is_some (lookup candidate_id s.candidates)

-- `_read_path`
unfoldable pub read_path : String → Action CandidateStore CandidateRecord
unfolding decode
read_path candidate_id = do
  found ← gets (λ s. lookup candidate_id s.candidates)
  row ← or_raise found (runtime_error ("invalid candidate record: " <> (candidate_id <> ".yaml")))
  self ← lift (decode row.payload)
  raise_if (not (str_eq self.id candidate_id))
      (runtime_error "candidate ID does not match database key")
  pure self

unfoldable pub get : String → Action CandidateStore CandidateRecord
unfolding validate_id read_path
get candidate_id = do
  validate_id candidate_id
  present ← gets (exists candidate_id)
  raise_if (not present) (value_error ("unknown candidate: " <> candidate_id))
  self ← read_path candidate_id
  raise_if (not (str_eq self.id candidate_id))
      (runtime_error ("candidate ID does not match filename: " <> (candidate_id <> ".yaml")))
  pure self

-- The keyword arguments of `create`, but for the ID.
pub record CandidateRequest : Type 0 where
  pub title : String
  pub problem : CandidateProblem
  pub proposal : CandidateProposal
  pub ownership : CandidateOwnership
  pub promotion_rationale : String

abbrev pub new_candidate : CandidateRequest → String → ℕ → CandidateRecord
new_candidate request candidate_id now = record {
  schema_version = 1;
  id = candidate_id;
  revision = 1;
  title = request.title;
  problem = request.problem;
  proposal = request.proposal;
  ownership = request.ownership;
  promotion = record {
    state = candidate;
    rationale = request.promotion_rationale;
    state_reason = none;
  };
  implementation = record { task_id = none; final_reference = none };
  created_at = now;
  updated_at = now;
}

-- `create` with an ID.
unfoldable pub create_with : CandidateRequest → String → ℕ → Action CandidateStore CandidateRecord
unfolding require_writable lock atomic_write
create_with request candidate_id now = do
  require_writable
  raise_if (not (request.problem.recurrence_count == 1))
      (value_error "new candidate recurrence_count must be 1")
  lock candidate_id (do
    present ← gets (exists candidate_id)
    raise_if present (value_error ("candidate already exists: " <> candidate_id))
    self ← lift (validate (new_candidate request candidate_id now))
    atomic_write self
    pure self)

-- `str(exc) == f"candidate already exists: {generated_id}"` of a `ValueError`; the text of
-- pydantic's own is another.
abbrev pub already_exists : String → Error → Bool
already_exists candidate_id (value_error message) =
    str_eq message ("candidate already exists: " <> candidate_id)
already_exists candidate_id _ = false

-- What an attempt gave, and the next attempt.
abbrev pub retry :
    String
    → Result CandidateRecord × CandidateStore
    → Action CandidateStore CandidateRecord
    → Result CandidateRecord × CandidateStore
retry candidate_id (ok self, s) again = (ok self, s)
retry candidate_id (err e, s) again = if already_exists candidate_id e then again s else (err e, s)

-- The loop over `range(32)`, for the attempts that are left; `generated` draws their IDs.
unfoldable pub create_generated :
    ℕ → CandidateRequest → (ℕ → String) → ℕ → Action CandidateStore CandidateRecord
create_generated zero request generated now s =
    (err (runtime_error "unable to allocate unique candidate ID after 32 attempts"), s)
create_generated (suc n) request generated now s =
    let again = create_generated n request generated now in
    retry (generated n) (create_with request (generated n) now s) again

unfoldable pub create :
    Option String → CandidateRequest → (ℕ → String) → ℕ → Action CandidateStore CandidateRecord
create (some candidate_id) request generated now = create_with request candidate_id now
create none request generated now = do
  require_writable
  raise_if (not (request.problem.recurrence_count == 1))
      (value_error "new candidate recurrence_count must be 1")
  create_generated 32 request generated now
