-- ===== src/Tools/Arguments.antt =====
-- src/hypershell_reach/managed_tools.py: the command line of a managed script.
use Prim.Native.Char.{code}
use hypershell_reach.Base.{
  ℕ, String, Bool, true, false, not, ◌&&◌, ◌||◌, Option, none, some, List, [], ◌∷◌, ◌++◌, ltb, ◌==◌,
  if◌then◌else◌, is_none, keep, map, length,
}
use hypershell_reach.Base.Text.{
  str_len, str_all, str_any, sorted, is_empty, is_digit, is_lower, is_upper, ◌<>◌,
}
use hypershell_reach.Base.Int.{ℤ, show_ℤ}
use hypershell_reach.Base.Result.{Result, ok, err, value_error, refuse, ◌>>=◌, ◌>>◌}
use hypershell_reach.Base.Table.{Table, lookup}
use hypershell_reach.Execution.Ssh.{replace_from}
use hypershell_reach.Tools.Model.{
  ArgumentType, string, string_list, integer, number, boolean, Python, ArgumentSpec, ScriptMetadata,
  Interpreter, sh, bash, python3, argument_names, contains, required_capabilities,
}

-- `", ".join(values)` and `" ".join(values)`
abbrev pub join : String → List String → String
join separator [] = ""
join separator (value ∷ []) = value
join separator (value ∷ other ∷ rest) = value <> (separator <> join separator (other ∷ rest))

-- `shlex._find_unsafe`: what is not in `[\w@%+=:,./-]`, in ASCII.
abbrev pub is_safe : ℕ → Bool
is_safe c =
    is_lower c
    || (is_upper c
        || (is_digit c
            || ((c == b'_')
                || ((c == b'@')
                    || ((c == b'%')
                        || ((c == b'+')
                            || ((c == b'=')
                                || ((c == b':')
                                    || ((c == b',')
                                        || ((c == b'.') || ((c == b'/') || (c == b'-'))))))))))))

-- `s.replace("'", "'\"'\"'")`
abbrev pub escape : String → String
escape String.[] = ""
escape (String.◌∷◌ c s) = if code c == 39 then "'\"'\"'" <> escape s else String.◌∷◌ c (escape s)

-- `shlex.quote`
abbrev pub quote : String → String
quote s = if is_empty s then "''" else if str_all is_safe s then s else "'" <> (escape s <> "'")

module _ ⦃p : Python⦄ where
  -- A value as JSON gives it; an item of a list that is no text is `none`.
  pub data Value : Type 0 where
    text : String → Value
    items : List (Option String) → Value
    whole : ℤ → Value
    fractional : p.Number → Value
    truth : Bool → Value
    other : Value

  abbrev pub complain : ArgumentSpec → String → Result String
  complain spec problem = err (value_error ("argument " <> (spec.name <> problem)))

  abbrev pub or_default : Option ℕ → ℕ → ℕ
  or_default none default = default
  or_default (some n) default = n

  abbrev pub is_allowed : Option (List String) → String → Bool
  is_allowed none value = true
  is_allowed (some values) value = contains value values

  abbrev pub fits_pattern : Option String → String → Bool
  fits_pattern none value = true
  fits_pattern (some pattern) value = p.matches pattern value

  unfoldable pub validate_string : ArgumentSpec → String → Result String
  validate_string spec value =
      if str_any (λ c. c == 0) value
      then complain spec " must not contain NUL bytes"
      else if ltb (str_len value) (or_default spec.min_length 0)
      then complain spec " is shorter than min_length"
      else if ltb (or_default spec.max_length 4_096) (str_len value)
      then complain spec " exceeds max_length"
      else if not (is_allowed spec.enum value)
      then complain spec " is not an allowed value"
      else if not (fits_pattern spec.pattern value)
      then complain spec " does not match its pattern"
      else ok value

  -- `f"--{spec.name.replace('_', '-')}"`
  abbrev pub flag : ArgumentSpec → String
  flag spec = "--" <> replace_from "_" "-" 0 spec.name

  abbrev pub all_texts : List (Option String) → Option (List String)
  all_texts [] = some []
  all_texts (none ∷ rest) = none
  all_texts (some value ∷ rest) = elim (all_texts rest) [
    | none ↦ none
    | some values ↦ some (value ∷ values)
  ]

  abbrev pub flagged : ArgumentSpec → List String → Result (List String)
  flagged spec [] = ok []
  flagged spec (item ∷ rest) = validate_string spec item >>= λ value.
      flagged spec rest >>= λ argv. ok (flag spec ∷ value ∷ argv)

  abbrev pub is_below : p.Number → Option p.Number → Bool
  is_below value none = false
  is_below value (some minimum) = p.less value minimum

  abbrev pub is_above : p.Number → Option p.Number → Bool
  is_above value none = false
  is_above value (some maximum) = p.less maximum value

  abbrev pub bounded : ArgumentSpec → p.Number → String → Result (List String)
  bounded spec value shown =
      if is_below value spec.minimum
      then err (value_error ("argument " <> (spec.name <> " is below minimum")))
      else if is_above value spec.maximum
      then err (value_error ("argument " <> (spec.name <> " exceeds maximum")))
      else ok (flag spec ∷ shown ∷ [])

  abbrev pub reject : ArgumentSpec → String → Result (List String)
  reject spec problem = err (value_error ("argument " <> (spec.name <> problem)))

  abbrev pub listed : ArgumentSpec → Option (List String) → Result (List String)
  listed spec none = reject spec " must be a list of strings"
  listed spec (some values) =
      if ltb (length values) (or_default spec.min_items 1)
      then reject spec " has fewer than min_items"
      else if ltb (or_default spec.max_items 64) (length values)
      then reject spec " exceeds max_items"
      else flagged spec values

  -- One turn of the loop over the arguments, for a value that is given.
  abbrev pub argument_for : ArgumentType → ArgumentSpec → Value → Result (List String)
  argument_for string spec (text value) = flagged spec (value ∷ [])
  argument_for string spec _ = reject spec " must be a string"
  argument_for string_list spec (items values) = listed spec (all_texts values)
  argument_for string_list spec _ = reject spec " must be a list of strings"
  argument_for integer spec (whole n) = bounded spec (p.of_int n) (show_ℤ n)
  argument_for integer spec _ = reject spec " must be an integer"
  argument_for number spec (whole n) = bounded spec (p.of_int n) (show_ℤ n)
  argument_for number spec (fractional x) =
      if not (p.is_finite x)
      then reject spec " must be finite"
      else bounded spec x (p.show_number x)
  argument_for number spec _ = reject spec " must be a number"
  argument_for boolean spec (truth b) = ok (flag spec ∷ (if b then "true" else "false") ∷ [])
  argument_for boolean spec _ = reject spec " must be a boolean"

  abbrev pub argument_of : ArgumentSpec → Option Value → Result (List String)
  argument_of spec none = ok []
  argument_of spec (some value) = argument_for spec.type spec value

  abbrev pub arguments_of : List ArgumentSpec → Table Value → Result (List String)
  arguments_of [] values = ok []
  arguments_of (spec ∷ rest) values = argument_of spec (lookup spec.name values) >>= λ own.
      arguments_of rest values >>= λ argv. ok (own ++ argv)

  abbrev pub keys : Table Value → List String
  keys [] = []
  keys ((name, value) ∷ rest) = name ∷ keys rest

  -- `missing`
  abbrev pub missing_names : List ArgumentSpec → Table Value → List String
  missing_names [] values = []
  missing_names (spec ∷ rest) values =
      let others = missing_names rest values in
      if spec.required && is_none (lookup spec.name values) then spec.name ∷ others else others

  abbrev pub is_nil : List String → Bool
  is_nil [] = true
  is_nil (value ∷ rest) = false

  unfoldable pub validate_script_arguments : ScriptMetadata → Table Value → Result (List String)
  unfolding validate_string
  validate_script_arguments metadata values =
      let unknown =
        sorted
          (keep (λ name. not (contains name (argument_names metadata.arguments))) (keys values)) in
      let missing = missing_names metadata.arguments values in
      refuse (not (is_nil unknown))
        (value_error ("unknown arguments for " <> (metadata.id <> (": " <> join ", " unknown))))
      >> (refuse (not (is_nil missing))
            (value_error ("missing arguments for " <> (metadata.id <> (": " <> join ", " missing))))
          >> arguments_of metadata.arguments values)

  abbrev pub base_of : Interpreter → List String
  base_of sh = "sh" ∷ "-s" ∷ "--" ∷ []
  base_of bash = "bash" ∷ "-s" ∷ "--" ∷ []
  base_of python3 = "python3" ∷ "-" ∷ []

  unfoldable pub build_script_command : ScriptMetadata → Table Value → Result String
  unfolding validate_script_arguments
  build_script_command metadata values = validate_script_arguments metadata values >>= λ argv.
      ok (join " " (map quote (base_of metadata.interpreter ++ argv)))

  unfoldable pub ensure_target_compatible : ScriptMetadata → List String → Result (Unit {0})
  unfolding required_capabilities
  ensure_target_compatible metadata target_capabilities =
      let missing =
        sorted (
          keep (λ name. not (contains name target_capabilities))
            (required_capabilities metadata)) in
      refuse (not (is_nil missing)) (
        value_error (
          "target is missing capabilities required by "
          <> (metadata.id <> (": " <> join ", " missing))))
