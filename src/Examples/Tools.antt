-- ===== src/Examples/Tools.antt =====
-- src/hypershell_reach/managed_tools.py on one script with one argument.
use hypershell_reach.Base.{◌≡◌, refl, ℕ, String, true, false, none, some, List, [], ◌∷◌, ◌++◌, ltb}
use hypershell_reach.Base.Text.{show, sorted}
use hypershell_reach.Base.Int.{ℤ, pos, negsuc}
use hypershell_reach.Base.Result.{ok}
use hypershell_reach.Base.Table.{Table, lookup}
use hypershell_reach.Tools.Model.{Python, ArgumentType, ScriptMetadata, Interpreter}
use hypershell_reach.Tools.Arguments.{
  Value, text, base_of, validate_script_arguments, build_script_command,
}
use hypershell_reach.Tools.Quoting.{shell_read, Mode, read-build_script_command}

abbrev at_least_zero : ℤ → ℕ
at_least_zero (pos n) = n
at_least_zero (negsuc n) = 0

instance abbrev pub numbers : Python
numbers = record {
  Number = ℕ;
  of_int = at_least_zero;
  is_finite = λ n. true;
  less = ltb;
  show_number = show;
  compiles = λ pattern. true;
  matches = λ pattern value. true;
}

abbrev pub metadata : ScriptMetadata
metadata = record {
  id = "fs.find";
  name = "Find";
  description = "Finds a text";
  domain = "fs";
  interpreter = Interpreter.sh;
  requires = [];
  mutating = false;
  idempotent = true;
  timeout_seconds = 90;
  arguments =
      record {
        name = "the_text";
        type = ArgumentType.string;
        required = true;
        enum = none;
        pattern = none;
        min_length = none;
        max_length = none;
        min_items = none;
        max_items = none;
        minimum = none;
        maximum = none;
      }
      ∷ [];
}

abbrev pub values : Table Value
values = ("the_text", text "it's; $HOME") ∷ []

abbrev command : String
command = "sh -s -- --the-text 'it'\"'\"'s; $HOME'"

command_built : build_script_command metadata values ≡ ok command
unfolding build_script_command sorted lookup
command_built = refl

command_read :
    shell_read Mode.between command
    ≡ some ("", "sh" ∷ "-s" ∷ "--" ∷ "--the-text" ∷ "it's; $HOME" ∷ [])
unfolding shell_read
command_read = refl

read-build_script_command_example :
    (argv : List String) × (validate_script_arguments metadata values ≡ ok argv)
    × (shell_read Mode.between command ≡ some ("", base_of Interpreter.sh ++ argv))
read-build_script_command_example = read-build_script_command metadata values command command_built
