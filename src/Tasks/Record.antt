-- ===== src/Tasks/Record.antt =====
-- src/hypershell_reach/tasks.py: `TaskRecord`, `TaskExecutionLease`, the models they hold, and their
-- validators. A timestamp is an instant, in microseconds since the epoch, so it always has a
-- time zone.
use hypershell_reach.Base.{
  ℕ, String, Bool, true, false, ◌&&◌, ◌||◌, Option, none, some, List, ◌++◌, leb, ◌==◌, length, all,
  any, if◌then◌else◌,
}
use hypershell_reach.Base.Text.{
  str_len, fits, literal, times, is_digit, is_hex, strip, starts_with, str_eq,
}
use hypershell_reach.Base.Result.{Result, ok, err, runtime_error}

pub data TaskStatus : Type 0 where
  active partial blocked completed cancelled : TaskStatus

-- `Literal["completed", "cancelled"]`, the status that `close` takes.
pub data ClosingStatus : Type 0 where
  as_completed as_cancelled : ClosingStatus

abbrev pub status_of : ClosingStatus → TaskStatus
status_of as_completed = completed
status_of as_cancelled = cancelled

pub data EvidenceClass : Type 0 where
  observed configured documented planned unknown : EvidenceClass

pub data AssumptionImpact : Type 0 where
  low medium high : AssumptionImpact

pub record TaskSource : Type 0 where
  pub classification : EvidenceClass
  pub reference : String
  pub purpose : String

pub record TaskAssumption : Type 0 where
  pub statement : String
  pub evidence_class : EvidenceClass
  pub impact_if_wrong : AssumptionImpact
  pub decision : String

pub record TaskContinuity : Type 0 where
  pub authorization : Option String
  pub sources : List TaskSource
  pub completed : List String
  pub validation : List String
  pub cleanup : List String
  pub recovery : Option String
  pub blockers : List String
  pub assumptions : List TaskAssumption

pub record TaskExecutionLease : Type 0 where
  pub schema_version : ℕ
  pub lease_id : String
  pub executor_id : String
  pub scope : String
  pub acquired_at : ℕ
  pub refreshed_at : ℕ
  pub expires_at : ℕ

pub record TaskRecord : Type 0 where
  pub schema_version : ℕ
  pub revision : ℕ
  pub id : String
  pub title : String
  pub objective : String
  pub project_ref : Option String
  pub status : TaskStatus
  pub next_action : Option String
  pub continuity : TaskContinuity
  pub retained : Bool
  pub created_at : ℕ
  pub updated_at : ℕ
  pub archived_at : Option ℕ

-- `_OPEN_STATUSES`
abbrev pub is_open : TaskStatus → Bool
is_open active = true
is_open partial = true
is_open blocked = true
is_open completed = false
is_open cancelled = false

-- `status in _TERMINAL_STATUSES`, with what `close` is then called with.
abbrev pub closing_of : TaskStatus → Option ClosingStatus
closing_of completed = some as_completed
closing_of cancelled = some as_cancelled
closing_of _ = none

abbrev pub status_eq : TaskStatus → TaskStatus → Bool
status_eq active active = true
status_eq partial partial = true
status_eq blocked blocked = true
status_eq completed completed = true
status_eq cancelled cancelled = true
status_eq _ _ = false

-- `_TASK_ID.fullmatch` and `_TASK_LEASE_ID.fullmatch`
unfoldable pub is_task_id : String → Bool
is_task_id = fits (
    literal "task-"
    ++ (times 8 is_digit
        ++ (literal "T" ++ (times 12 is_digit ++ (literal "Z-" ++ times 12 is_hex)))))

unfoldable pub is_lease_id : String → Bool
is_lease_id = fits (literal "tlease-" ++ times 32 is_hex)

-- `Field(min_length=1, max_length=most)` of a text, and of one that may be missing.
abbrev pub is_text_up_to : ℕ → String → Bool
is_text_up_to most s = leb 1 (str_len s) && leb (str_len s) most

abbrev pub is_optional_text_up_to : ℕ → Option String → Bool
is_optional_text_up_to most none = true
is_optional_text_up_to most (some s) = is_text_up_to most s

-- `BoundedTaskText`
abbrev pub is_bounded_text : String → Bool
is_bounded_text = is_text_up_to 1_000

abbrev pub is_list_up_to {ℓ} : {A : Type ℓ} → ℕ → (A → Bool) → List A → Bool
is_list_up_to most p xs = leb (length xs) most && all p xs

abbrev pub is_source : TaskSource → Bool
is_source source = is_text_up_to 512 source.reference && is_text_up_to 1_000 source.purpose

abbrev pub is_assumption : TaskAssumption → Bool
is_assumption a = is_text_up_to 1_000 a.statement && is_text_up_to 1_000 a.decision

-- What pydantic accepts as a `TaskContinuity`.
unfoldable pub is_continuity : TaskContinuity → Bool
is_continuity c =
    is_optional_text_up_to 2_000 c.authorization
    && (is_list_up_to 20 is_source c.sources
        && (is_list_up_to 50 is_bounded_text c.completed
            && (is_list_up_to 50 is_bounded_text c.validation
                && (is_list_up_to 25 is_bounded_text c.cleanup
                    && (is_optional_text_up_to 2_000 c.recovery
                        && (is_list_up_to 25 is_bounded_text c.blockers
                            && is_list_up_to 20 is_assumption c.assumptions))))))

unfoldable pub is_lease : TaskExecutionLease → Bool
is_lease lease =
    (lease.schema_version == 1)
    && (is_lease_id lease.lease_id
        && (is_text_up_to 256 lease.executor_id && is_text_up_to 512 lease.scope))

-- `validate_schema_revision`, of a schema version that the field accepts.
abbrev pub has_schema_revision : TaskRecord → Bool
has_schema_revision self =
    if self.schema_version == 1 then self.revision == 0 else leb 1 self.revision

-- The fields of a `TaskRecord` but for its continuity, which is not looked at again where it is
-- an object already.
unfoldable pub has_fields : TaskRecord → Bool
has_fields self =
    (self.schema_version == 1 || self.schema_version == 2)
    && (is_text_up_to 200 self.title
        && (is_text_up_to 4_000 self.objective
            && (is_optional_text_up_to 256 self.project_ref
                && (is_optional_text_up_to 2_000 self.next_action && has_schema_revision self))))

unfoldable pub is_record : TaskRecord → Bool
is_record self = has_fields self && is_continuity self.continuity

-- `_decode`, up to JSON.
unfoldable pub decode : TaskRecord → Result TaskRecord
decode payload =
    if is_record payload && is_task_id payload.id
    then ok payload
    else err (runtime_error "invalid task record in database")

-- `_continuity_identity`
pub record TaskIdentity : Type 0 where
  pub title : String
  pub objective : String
  pub project_ref : Option String

abbrev pub strip_optional : Option String → Option String
strip_optional none = none
strip_optional (some s) = some (strip s)

abbrev pub continuity_identity : String → String → Option String → TaskIdentity
continuity_identity title objective project_ref = record {
  title = strip title;
  objective = strip objective;
  project_ref = strip_optional project_ref;
}

-- `blocker.startswith(PENDING_MUTATION_BLOCKER_PREFIX)`
unfoldable pub is_pending_blocker : String → Bool
is_pending_blocker blocker = starts_with blocker "[reach:pending-mutation]"

abbrev pub has_pending_mutation : TaskContinuity → Bool
has_pending_mutation c = any is_pending_blocker c.blockers

abbrev pub optional_eq : Option String → Option String → Bool
optional_eq none none = true
optional_eq (some s) (some t) = str_eq s t
optional_eq _ _ = false

abbrev pub identity_eq : TaskIdentity → TaskIdentity → Bool
identity_eq a b =
    str_eq a.title b.title
    && (str_eq a.objective b.objective && optional_eq a.project_ref b.project_ref)
