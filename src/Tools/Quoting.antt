-- ===== src/Tools/Quoting.antt =====
-- src/hypershell_reach/managed_tools.py: a POSIX shell reads the quoted command line back as the words
-- it was made of.
use Prim.Native.String
use Prim.Native.Char.{code, Char}
use text.Mathlib.TextEquality.{Char-path}
use text.Mathlib.TextLemmas.{append_assoc, append-nil}
use hypershell_reach.Base.{
  ℕ, ◌≡◌, refl, sym, ap, ◌∙◌, inl, inr, String, Bool, true, false, Option, none, some, List, [],
  ◌∷◌, ◌++◌, ◌==◌, map, arith, if◌then◌else◌, Bool-cases, true-and, ◌||◌,
}
use hypershell_reach.Base.Text.{str_all, ◌<>◌}
use hypershell_reach.Base.Result.{ok, ok_parts, ok-injective}
use hypershell_reach.Base.Table.{Table}
use hypershell_reach.Tools.Arguments.{
  is_safe, escape, quote, join, Value, base_of, validate_script_arguments, build_script_command,
}
use hypershell_reach.Tools.Model.{Python, ScriptMetadata}

-- Where the shell is: between words, in a word, or inside quotes.
pub data Mode : Type 0 where
  between word single double : Mode

-- What is left of the current word, and the words after it.
abbrev pub Words : Type 0
Words = Option (String × List String)

abbrev pub start : Words → Words
start none = none
start (some (w, ws)) = some ("", w ∷ ws)

abbrev pub push : Char → Words → Words
push c none = none
push c (some (w, ws)) = some (String.◌∷◌ c w, ws)

abbrev pub push_all : String → Words → Words
push_all String.[] rest = rest
push_all (String.◌∷◌ c s) rest = push c (push_all s rest)

-- Characters that expand inside double quotes.
abbrev pub is_special : ℕ → Bool
is_special c = (c == 36) || ((c == 96) || (c == 92))

-- The tokens of a simple command; what would be an operator or an expansion is refused.
unfoldable pub shell_read : Mode → String → Words
shell_read between String.[] = some ("", [])
shell_read word String.[] = some ("", [])
shell_read single String.[] = none
shell_read double String.[] = none
shell_read between (String.◌∷◌ c s) =
    if code c == 32
    then shell_read between s
    else if code c == 39
    then start (shell_read single s)
    else if code c == 34
    then start (shell_read double s)
    else if is_safe (code c)
    then start (push c (shell_read word s))
    else none
shell_read word (String.◌∷◌ c s) =
    if code c == 32
    then shell_read between s
    else if code c == 39
    then shell_read single s
    else if code c == 34
    then shell_read double s
    else if is_safe (code c)
    then push c (shell_read word s)
    else none
shell_read single (String.◌∷◌ c s) =
    if code c == 39 then shell_read word s else push c (shell_read single s)
shell_read double (String.◌∷◌ c s) =
    if code c == 34
    then shell_read word s
    else if is_special (code c)
    then none
    else push c (shell_read double s)

safe_is_plain :
    (c : ℕ) → is_safe c ≡ true → ((c == 32) ≡ false) × ((c == 39) ≡ false) × ((c == 34) ≡ false)
safe_is_plain c h = ground arith

abbrev mark : Char
mark = "'"

-- A single quote inside single quotes is written as four others around it.
read_mark : (u : String) → shell_read single ("'\"'\"'" <> u) ≡ push mark (shell_read single u)
unfolding shell_read
read_mark u =
    rw
      (
        String.append.cons, String.append.cons, String.append.cons, String.append.cons,
        String.append.cons, String.append.nil,
      )
      refl

is_mark : (c : Char) → (code c == 39) ≡ true → mark ≡ c
is_mark c h = let same : code mark ≡ code c = ground arith in Char-path mark c same

read_escape :
    (s t : String) → shell_read single (escape s <> ("'" <> t)) ≡ push_all s (shell_read word t)
unfolding shell_read
read_escape String.[] t = rw (String.append.nil, String.append.cons, String.append.nil) refl
read_escape (String.◌∷◌ c s) t = elim (Bool-cases (code c == 39)) [
  | inl q ↦
      rw (q, append_assoc "'\"'\"'" (escape s) ("'" <> t), read_mark, read_escape s t)
        (ap (λ d. push d (push_all s (shell_read word t))) (is_mark c q))
  | inr other ↦ simp (other, String.append.cons, read_escape s t)
]

-- A safe text is read as it stands.
read_safe :
    (s t : String)
    → str_all is_safe s ≡ true
    → shell_read word (s <> t) ≡ push_all s (shell_read word t)
unfolding shell_read
read_safe String.[] t h = rw String.append.nil refl
read_safe (String.◌∷◌ c s) t h =
    let (safe, rest) = true-and (is_safe (code c)) (str_all is_safe s) h in
    let (space, single_quote, double_quote) = safe_is_plain (code c) safe in
    rw (String.append.cons, space, single_quote, double_quote, safe, read_safe s t rest) refl

read_quote :
    (s t : String) → shell_read between (quote s <> t) ≡ start (push_all s (shell_read word t))
unfolding shell_read
read_quote String.[] t = rw (String.append.cons, String.append.cons, String.append.nil) refl
read_quote (String.◌∷◌ c s) t = elim (Bool-cases (str_all is_safe (String.◌∷◌ c s))) [
  | inl safe ↦
      let (first, rest) = true-and (is_safe (code c)) (str_all is_safe s) safe in
      let (space, single_quote, double_quote) = safe_is_plain (code c) first in
      rw (safe, String.append.cons, space, single_quote, double_quote, first, read_safe s t rest)
        refl
  | inr unsafe ↦
      rw
        (
          unsafe,
          append_assoc "'" (escape (String.◌∷◌ c s) <> "'") t,
          append_assoc (escape (String.◌∷◌ c s)) "'" t,
          String.append.cons,
          String.append.nil,
          read_escape (String.◌∷◌ c s) t,
        )
        refl
]

push_all-some : (s w : String) (ws : List String) → push_all s (some (w, ws)) ≡ some (s <> w, ws)
push_all-some String.[] w ws = rw String.append.nil refl
push_all-some (String.◌∷◌ c s) w ws = rw (push_all-some s w ws, String.append.cons) refl

read_space : (t : String) → shell_read word (" " <> t) ≡ shell_read between t
unfolding shell_read
read_space t = rw (String.append.cons, String.append.nil) refl

-- A shell reads the quoted words, joined by spaces, as those words.
read_words :
    (words : List String) → shell_read between (join " " (map quote words)) ≡ some ("", words)
unfolding shell_read
read_words [] = refl
read_words (w ∷ []) =
    ap (shell_read between) (sym (append-nil (quote w)))
    ∙ read_quote w ""
    ∙ ap start (push_all-some w "" [])
    ∙ ap (λ v. some ("", v ∷ [])) (append-nil w)
read_words (w ∷ v ∷ rest) =
    read_quote w (" " <> join " " (map quote (v ∷ rest)))
    ∙ ap (λ x. start (push_all w x))
        (read_space (join " " (map quote (v ∷ rest))) ∙ read_words (v ∷ rest))
    ∙ ap start (push_all-some w "" (v ∷ rest))
    ∙ ap (λ x. some ("", x ∷ v ∷ rest)) (append-nil w)

module _ ⦃p : Python⦄ where
  -- The command line of a managed script, where it is given, is one that a POSIX shell reads as the
  -- interpreter with its fixed options and then the validated arguments, whatever texts the caller
  -- gave: each is one word, and nothing in them expands or ends the command.
  pub read-build_script_command :
      (metadata : ScriptMetadata) (values : Table Value) (command : String)
      → build_script_command metadata values ≡ ok command
      → (argv : List String) × (validate_script_arguments metadata values ≡ ok argv)
        × (shell_read between command ≡ some ("", base_of metadata.interpreter ++ argv))
  unfolding build_script_command
  read-build_script_command metadata values command made =
      let (argv, joined, valid) = ok_parts (validate_script_arguments metadata values) _ made in
      (
        argv,
        valid,
        ap (shell_read between) (sym (ok-injective joined))
            ∙ read_words (base_of metadata.interpreter ++ argv),
      )
