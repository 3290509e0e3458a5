-- ===== src/Tools/Model.antt =====
-- src/hypershell_reach/managed_tools.py: `ArgumentSpec`, `ScriptMetadata` and their validators.
use hypershell_reach.Base.{
  ℕ, String, Bool, true, false, not, ◌&&◌, ◌||◌, Option, none, some, List, [], ◌∷◌, leb, ◌==◌,
  if◌then◌else◌, is_some, is_none, any, all,
}
use hypershell_reach.Base.Text.{str_eq, sorted, starts_with, is_digit, is_lower, ◌<>◌}
use hypershell_reach.Base.Int.{ℤ}
use hypershell_reach.Base.Result.{Result, ok, value_error, refuse, ◌>>◌}
use hypershell_reach.Candidates.Record.{
  has_length, optional_has_length, first_then, is_tool_id, is_lower_digit,
}

pub data ArgumentType : Type 0 where
  string string_list integer number boolean : ArgumentType

abbrev pub is_textual : ArgumentType → Bool
is_textual string = true
is_textual string_list = true
is_textual _ = false

abbrev pub is_list : ArgumentType → Bool
is_list string_list = true
is_list _ = false

abbrev pub is_numeric : ArgumentType → Bool
is_numeric integer = true
is_numeric number = true
is_numeric _ = false

abbrev pub is_number : ArgumentType → Bool
is_number number = true
is_number _ = false

-- Python's numbers, floats among them, are a parameter, with what is used of them: the integers,
-- `math.isfinite`, the order, and `str`. So are patterns: `compiles` is whether `re.compile` accepts one, and
-- `matches` is `re.fullmatch`.
pub record Python : Type 1 where
  pub Number : Type 0
  pub of_int : ℤ → Number
  pub is_finite : Number → Bool
  pub less : Number → Number → Bool
  pub show_number : Number → String
  pub compiles : String → Bool
  pub matches : String → String → Bool

module _ ⦃p : Python⦄ where
  pub record ArgumentSpec : Type 0 where
    pub name : String
    pub type : ArgumentType
    pub required : Bool
    pub enum : Option (List String)
    pub pattern : Option String
    pub min_length : Option ℕ
    pub max_length : Option ℕ
    pub min_items : Option ℕ
    pub max_items : Option ℕ
    pub minimum : Option p.Number
    pub maximum : Option p.Number

-- `_ARGUMENT_NAME.fullmatch`, `_DOMAIN.fullmatch`, `_CAPABILITY.fullmatch`
unfoldable pub is_argument_name : String → Bool
is_argument_name = first_then is_lower (λ c. is_lower c || (is_digit c || (c == b'_'))) 0 62

unfoldable pub is_domain : String → Bool
is_domain = first_then is_lower_digit (λ c. is_lower_digit c || ((c == b'_') || (c == b'-'))) 0 62

unfoldable pub is_capability : String → Bool
is_capability =
    first_then is_lower_digit
      (λ c. is_lower_digit c || ((c == b'.') || ((c == b'_') || (c == b'-')))) 0 63

abbrev pub contains : String → List String → Bool
contains value values = any (str_eq value) values

abbrev pub is_unique : List String → Bool
is_unique [] = true
is_unique (value ∷ rest) = not (contains value rest) && is_unique rest

-- `sorted(set(values))`
abbrev pub without_repeats : List String → List String
without_repeats [] = []
without_repeats (value ∷ rest) =
    let others = without_repeats rest in if contains value rest then others else value ∷ others

abbrev pub is_ordered : Option ℕ → Option ℕ → Bool
is_ordered (some low) (some high) = leb low high
is_ordered _ _ = true

abbrev pub optional_between : ℕ → ℕ → Option ℕ → Bool
optional_between low high none = true
optional_between low high (some n) = leb low n && leb n high

abbrev pub is_empty_list : Option (List String) → Bool
is_empty_list (some []) = true
is_empty_list _ = false

abbrev pub has_repeats : Option (List String) → Bool
has_repeats none = false
has_repeats (some values) = not (is_unique values)

module _ ⦃p : Python⦄ where
  abbrev pub is_finite_bound : ArgumentType → Option p.Number → Bool
  is_finite_bound type none = true
  is_finite_bound type (some bound) = not (is_number type) || p.is_finite bound

  abbrev pub is_crossed : Option p.Number → Option p.Number → Bool
  is_crossed (some low) (some high) = p.less high low
  is_crossed _ _ = false

  abbrev pub compiles_pattern : Option String → Bool
  compiles_pattern none = true
  compiles_pattern (some pattern) = p.compiles pattern

  -- `validate_type_options`
  unfoldable pub check_type_options : ArgumentSpec → Result (Unit {0})
  check_type_options self = do
    refuse
        (not (is_textual self.type)
          && (is_some self.enum
              || (is_some self.pattern || (is_some self.min_length || is_some self.max_length))))
        (value_error "enum, pattern and length bounds require type=string or string_list")
    refuse (not (is_list self.type) && (is_some self.min_items || is_some self.max_items))
        (value_error "item-count bounds require type=string_list")
    refuse (not (is_numeric self.type) && (is_some self.minimum || is_some self.maximum))
        (value_error "minimum and maximum require type=integer or number")
    refuse (is_number self.type && (is_none self.minimum || is_none self.maximum))
        (value_error "type=number requires minimum and maximum")
    refuse (is_empty_list self.enum) (value_error "enum must not be empty")
    refuse (has_repeats self.enum) (value_error "enum values must be unique")
    refuse (not (is_ordered self.min_length self.max_length))
        (value_error "min_length must not exceed max_length")
    refuse (not (is_ordered self.min_items self.max_items))
        (value_error "min_items must not exceed max_items")
    refuse (is_crossed self.minimum self.maximum) (value_error "minimum must not exceed maximum")

  unfoldable pub check_argument : ArgumentSpec → Result (Unit {0})
  unfolding check_type_options is_argument_name
  check_argument self = do
    refuse (not (is_argument_name self.name)) (value_error "invalid argument name")
    refuse (not (optional_has_length 0 256 self.pattern)) (value_error "string_too_long")
    refuse (not (compiles_pattern self.pattern)) (value_error "invalid argument pattern")
    refuse
        (not (
          optional_between 0 32_768 self.min_length
          && (optional_between 1 32_768 self.max_length
              && (optional_between 0 256 self.min_items && optional_between 1 256 self.max_items))))
        (value_error "ArgumentSpec")
    refuse (not (is_finite_bound self.type self.minimum && is_finite_bound self.type self.maximum))
        (value_error "number bounds must be finite numbers")
    check_type_options self

pub data Interpreter : Type 0 where
  sh bash python3 : Interpreter

unfoldable pub interpreter_name : Interpreter → String
interpreter_name sh = "sh"
interpreter_name bash = "bash"
interpreter_name python3 = "python3"

module _ ⦃p : Python⦄ where
  pub record ScriptMetadata : Type 0 where
    pub id : String
    pub name : String
    pub description : String
    pub domain : String
    pub interpreter : Interpreter
    pub requires : List String
    pub mutating : Bool
    pub idempotent : Bool
    pub timeout_seconds : ℕ
    pub arguments : List ArgumentSpec

  abbrev pub argument_names : List ArgumentSpec → List String
  argument_names [] = []
  argument_names (argument ∷ rest) = argument.name ∷ argument_names rest

  abbrev pub check_arguments : List ArgumentSpec → Result (Unit {0})
  check_arguments [] = ok tt
  check_arguments (argument ∷ rest) = check_argument argument >> check_arguments rest

  -- The fields' constraints and validators, then `validate_contract`.
  unfoldable pub check_metadata : ScriptMetadata → Result (Unit {0})
  unfolding is_domain is_capability check_argument
  check_metadata self = do
    refuse (not (has_length 3 190 self.id)) (value_error "string length")
    refuse (not (is_tool_id self.id)) (value_error "invalid script ID")
    refuse (not (has_length 1 100 self.name && has_length 1 500 self.description))
        (value_error "string length")
    refuse (not (is_domain self.domain)) (value_error "invalid domain")
    refuse (not (all is_capability self.requires)) (value_error "invalid required capabilities")
    refuse (not (leb 1 self.timeout_seconds && leb self.timeout_seconds 900))
        (value_error "timeout_seconds")
    check_arguments self.arguments
    refuse (not (starts_with self.id (self.domain <> ".")))
        (value_error "script ID must start with '<domain>.'")
    refuse (not (is_unique (argument_names self.arguments)))
        (value_error "duplicate argument names")

  -- `required_capabilities`
  unfoldable pub required_capabilities : ScriptMetadata → List String
  unfolding interpreter_name
  required_capabilities self =
      sorted (without_repeats (interpreter_name self.interpreter ∷ self.requires))
