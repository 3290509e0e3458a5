-- ===== src/Candidates/Record.antt =====
-- src/hypershell_reach/candidates.py: `CandidateRecord`, the models it holds, and their validators.
use Prim.Native.Char.{code}
use hypershell_reach.Base.{
  ℕ, String, Bool, true, false, not, ◌&&◌, ◌||◌, Option, none, some, List, ◌++◌, if◌then◌else◌, leb,
  ltb, ◌==◌, is_some, is_none, all, length,
}
use hypershell_reach.Base.Text.{
  str_len, str_all, fits, literal, times, is_digit, is_hex, is_lower, is_upper, ◌<>◌,
}
use hypershell_reach.Base.Result.{Result, ok, value_error, refuse, as_validation, ◌>>◌}

pub data CandidateState : Type 0 where
  candidate approved blocked not_warranted implemented automated : CandidateState

unfoldable pub state_name : CandidateState → String
state_name candidate = "candidate"
state_name approved = "approved"
state_name blocked = "blocked"
state_name not_warranted = "not-warranted"
state_name implemented = "implemented"
state_name automated = "automated"

pub data CandidateReferenceKind : Type 0 where
  managed_tool capability : CandidateReferenceKind

pub record CandidateProblem : Type 0 where
  pub summary : String
  pub cause : String
  pub recurrence_count : ℕ
  pub recurrence : Option String
  pub evidence : List String

pub record CandidateInterfaceField : Type 0 where
  pub name : String
  pub description : String

pub record CandidateSafety : Type 0 where
  pub mutating : Bool
  pub secret_access : Bool
  pub boundary : String

pub record CandidateProposal : Type 0 where
  pub capability : String
  pub proposed_tool_id : Option String
  pub required_inputs : List CandidateInterfaceField
  pub expected_outputs : List CandidateInterfaceField
  pub safety : CandidateSafety
  pub acceptance : List String

pub record CandidateOwnership : Type 0 where
  pub owner_id : String

pub record CandidatePromotion : Type 0 where
  pub state : CandidateState
  pub rationale : String
  pub state_reason : Option String

pub record CandidateReference : Type 0 where
  pub kind : CandidateReferenceKind
  pub id : String

pub record CandidateImplementation : Type 0 where
  pub task_id : Option String
  pub final_reference : Option CandidateReference

-- A timestamp is an instant, in microseconds since the epoch.
pub record CandidateRecord : Type 0 where
  pub schema_version : ℕ
  pub id : String
  pub revision : ℕ
  pub title : String
  pub problem : CandidateProblem
  pub proposal : CandidateProposal
  pub ownership : CandidateOwnership
  pub promotion : CandidatePromotion
  pub implementation : CandidateImplementation
  pub created_at : ℕ
  pub updated_at : ℕ

-- `Field(min_length=low, max_length=high)` of a text.
abbrev pub has_length : ℕ → ℕ → String → Bool
has_length low high s = leb low (str_len s) && leb (str_len s) high

abbrev pub optional_has_length : ℕ → ℕ → Option String → Bool
optional_has_length low high none = true
optional_has_length low high (some s) = has_length low high s

-- `BoundedCandidateText`
abbrev pub is_bounded_text : String → Bool
is_bounded_text = has_length 1 2_000

abbrev pub is_upper_digit_dash : ℕ → Bool
is_upper_digit_dash c = is_upper c || (is_digit c || (c == b'-'))

abbrev pub is_alphanumeric : ℕ → Bool
is_alphanumeric c = is_upper c || (is_lower c || is_digit c)

abbrev pub is_lower_digit : ℕ → Bool
is_lower_digit c = is_lower c || is_digit c

-- A character of `first`, then from `low` to `high` characters of `rest`.
abbrev pub first_then : (ℕ → Bool) → (ℕ → Bool) → ℕ → ℕ → String → Bool
first_then first rest low high String.[] = false
first_then first rest low high (String.◌∷◌ c s) =
    first (code c) && (has_length low high s && str_all rest s)

-- `_CANDIDATE_ID.fullmatch`, `_STABLE_REFERENCE.fullmatch`, `_TASK_ID.fullmatch`
unfoldable pub is_candidate_id : String → Bool
is_candidate_id = first_then is_upper is_upper_digit_dash 1 63

unfoldable pub is_stable_reference : String → Bool
is_stable_reference =
    first_then is_alphanumeric
      (λ c.
        is_alphanumeric c
        || ((c == b'.') || ((c == b'_') || ((c == b':') || ((c == b'/') || (c == b'-'))))))
      0 189

unfoldable pub is_task_id : String → Bool
is_task_id task_id =
    fits
      (literal "task-"
        ++ (times 8 is_digit
            ++ (literal "T" ++ (times 12 is_digit ++ (literal "Z-" ++ times 12 is_hex)))))
      task_id

-- The text before the first dot and the one after it. The class before the dot in `_TOOL_ID` has
-- no dot, so only the first dot can match it.
abbrev pub at_dot : String → Option (String × String)
at_dot String.[] = none
at_dot (String.◌∷◌ c s) =
    let rest = at_dot s in
    if code c == b'.'
    then some ("", s)
    else (elim rest [ none ↦ none | some (before, after) ↦ some (String.◌∷◌ c before, after) ])

-- `_TOOL_ID.fullmatch`
unfoldable pub is_tool_id : String → Bool
is_tool_id s = elim (at_dot s) [
  | none ↦ false
  | some (before, after) ↦
      first_then is_lower_digit (λ c. is_lower_digit c || ((c == b'_') || (c == b'-'))) 0 62 before
      && first_then is_lower_digit
          (λ c. is_lower_digit c || ((c == b'.') || ((c == b'_') || (c == b'-')))) 0 126 after
]

abbrev pub is_managed_tool : CandidateReferenceKind → Bool
is_managed_tool managed_tool = true
is_managed_tool capability = false

unfoldable pub check_problem : CandidateProblem → Result (Unit {0})
check_problem self = do
  refuse (not (is_bounded_text self.summary && is_bounded_text self.cause))
      (value_error "string length")
  refuse (ltb self.recurrence_count 1) (value_error "greater_than_equal")
  refuse (not (optional_has_length 1 2_000 self.recurrence)) (value_error "string length")
  refuse
      (not (
        leb 1 (length self.evidence)
        && (leb (length self.evidence) 20 && all (has_length 1 1_000) self.evidence)))
      (value_error "evidence")

abbrev pub is_interface_field : CandidateInterfaceField → Bool
is_interface_field self = has_length 1 100 self.name && has_length 1 500 self.description

unfoldable pub check_tool_id : Option String → Result (Unit {0})
check_tool_id none = ok tt
check_tool_id (some value) = do
  refuse (not (has_length 3 190 value)) (value_error "string length")
  refuse (not (is_tool_id value)) (value_error "invalid proposed tool ID")

unfoldable pub check_proposal : CandidateProposal → Result (Unit {0})
check_proposal self = do
  refuse (not (is_bounded_text self.capability)) (value_error "string length")
  check_tool_id self.proposed_tool_id
  refuse (not (leb (length self.required_inputs) 50 && all is_interface_field self.required_inputs))
      (value_error "required_inputs")
  refuse
      (not (
        leb 1 (length self.expected_outputs)
        && (leb (length self.expected_outputs) 50 && all is_interface_field self.expected_outputs)))
      (value_error "expected_outputs")
  refuse (not (is_bounded_text self.safety.boundary)) (value_error "string length")
  refuse
      (not (
        leb 1 (length self.acceptance)
        && (leb (length self.acceptance) 50 && all (has_length 1 1_000) self.acceptance)))
      (value_error "acceptance")

unfoldable pub check_ownership : CandidateOwnership → Result (Unit {0})
check_ownership self = do
  refuse (not (has_length 1 190 self.owner_id)) (value_error "string length")
  refuse (not (is_stable_reference self.owner_id)) (value_error "invalid owner ID")

unfoldable pub check_promotion : CandidatePromotion → Result (Unit {0})
check_promotion self =
    refuse (not (is_bounded_text self.rationale && optional_has_length 1 2_000 self.state_reason))
      (value_error "string length")

unfoldable pub check_reference : Option CandidateReference → Result (Unit {0})
check_reference none = ok tt
check_reference (some self) = do
  refuse (not (has_length 1 190 self.id)) (value_error "string length")
  refuse (not (is_stable_reference self.id)) (value_error "invalid final capability reference")
  refuse (is_managed_tool self.kind && not (is_tool_id self.id))
      (value_error "invalid managed tool reference")

abbrev pub is_optional_task_id : Option String → Bool
is_optional_task_id none = true
is_optional_task_id (some value) = is_task_id value

unfoldable pub check_implementation : CandidateImplementation → Result (Unit {0})
check_implementation self = do
  refuse (not (optional_has_length 1 128 self.task_id)) (value_error "string length")
  refuse (not (is_optional_task_id self.task_id)) (value_error "invalid implementation task ID")
  check_reference self.final_reference

abbrev pub is_initial : CandidateState → Bool
is_initial candidate = true
is_initial _ = false

-- `state in {"implemented", "automated"}`
abbrev pub is_delivered : CandidateState → Bool
is_delivered implemented = true
is_delivered automated = true
is_delivered _ = false

-- `validate_lifecycle_shape`
unfoldable pub check_lifecycle_shape : CandidateRecord → Result (Unit {0})
check_lifecycle_shape self = do
  let state = self.promotion.state
  refuse (is_initial state && is_some self.promotion.state_reason)
      (value_error "candidate state must not have a state reason")
  refuse (not (is_initial state) && is_none self.promotion.state_reason)
      (value_error (state_name state <> " state requires a state reason"))
  refuse (is_delivered state && is_none self.implementation.final_reference)
      (value_error (state_name state <> " state requires a final capability reference"))
  refuse (not (is_delivered state) && is_some self.implementation.final_reference)
      (value_error "final capability reference is allowed only for implemented or automated state")

unfoldable pub check_fields : CandidateRecord → Result (Unit {0})
check_fields self = do
  refuse (not (self.schema_version == 1)) (value_error "literal_error")
  refuse (not (is_candidate_id self.id)) (value_error "invalid candidate ID")
  refuse (ltb self.revision 1) (value_error "greater_than_equal")
  refuse (not (has_length 1 200 self.title)) (value_error "string length")
  check_problem self.problem
  check_proposal self.proposal
  check_ownership self.ownership
  check_promotion self.promotion
  check_implementation self.implementation
  check_lifecycle_shape self

-- `CandidateRecord(…)`, `CandidateRecord.model_validate(…)`: no validator changes a value.
unfoldable pub validate : CandidateRecord → Result CandidateRecord
unfolding check_fields
validate self = as_validation "CandidateRecord" (do check_fields self; ok self)
