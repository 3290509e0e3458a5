-- ===== src/Base/Text.antt =====
-- Python's `str`, as native strings: `len`, slices, `strip`, decimal printing, and identifiers.
use Prim.Native.Nat.{ℕ, zero, suc, ◌+◌, ◌/◌, ◌%◌, ◌≤◌}
use Prim.Native.Char.{code}
use Prim.Native.String
use Prim.Native.String.{String, ◌++◌ as ◌<>◌}
use mathlib.Core.Path.{◌≡◌, refl}
use mathlib.Core.Logic.{inl, inr}
use mathlib.Core.Bool.{Bool, true, false, ◌&&◌, ◌||◌}
use mathlib.Core.List.{List, [], ◌∷◌}
use native.Mathlib.Omega.{arith}
use hypershell_reach.Base.Tests.{leb, ltb, ◌==◌, if◌then◌else◌, Bool-cases, and-true}
use text.Mathlib.Text.{is_le}
pub use text.Mathlib.Text.{◌==◌ as str_eq, starts_with}
pub use text.Mathlib.TextEquality.{eq_iff as str_eq_iff}
pub use text.Mathlib.TextPositions.{eq_refl as str_eq_refl, starts_with-append}
pub use Prim.Native.String.{◌++◌ as ◌<>◌}

-- `len(s)`, in characters.
abbrev pub str_len : String → ℕ
str_len String.[] = 0
str_len (String.◌∷◌ c s) = suc (str_len s)

-- `s[:n]`.
abbrev pub str_take : ℕ → String → String
str_take zero s = ""
str_take (suc n) String.[] = ""
str_take (suc n) (String.◌∷◌ c s) = String.◌∷◌ c (str_take n s)

abbrev pub str_all : (ℕ → Bool) → String → Bool
str_all p String.[] = true
str_all p (String.◌∷◌ c s) = p (code c) && str_all p s

abbrev pub str_any : (ℕ → Bool) → String → Bool
str_any p String.[] = false
str_any p (String.◌∷◌ c s) = p (code c) || str_any p s

abbrev pub is_empty : String → Bool
is_empty String.[] = true
is_empty (String.◌∷◌ c s) = false

-- The characters that `str.isspace` accepts, which `str.strip` takes off.
unfoldable pub is_space : ℕ → Bool
is_space c =
    (leb 9 c && leb c 13)
    || (leb 28 c && leb c 32)
    || (c == 133)
    || (c == 160)
    || (c == 5760)
    || (leb 8192 c && leb c 8202)
    || (c == 8232)
    || (c == 8233)
    || (c == 8239)
    || (c == 8287)
    || (c == 12288)

unfoldable pub lstrip : String → String
lstrip String.[] = ""
lstrip (String.◌∷◌ c s) = let rest = lstrip s in if is_space (code c) then rest else String.◌∷◌ c s

unfoldable pub rstrip : String → String
rstrip String.[] = ""
rstrip (String.◌∷◌ c s) =
    let rest = rstrip s in if is_empty rest && is_space (code c) then "" else String.◌∷◌ c rest

unfoldable pub strip : String → String
unfolding lstrip rstrip is_space
strip s = rstrip (lstrip s)

-- Decimal printing; `fuel` is the number of digits that may still be printed.
digit : ℕ → String
digit zero = "0"
digit (suc zero) = "1"
digit (suc (suc zero)) = "2"
digit (suc (suc (suc zero))) = "3"
digit (suc (suc (suc (suc zero)))) = "4"
digit (suc (suc (suc (suc (suc zero))))) = "5"
digit (suc (suc (suc (suc (suc (suc zero)))))) = "6"
digit (suc (suc (suc (suc (suc (suc (suc zero))))))) = "7"
digit (suc (suc (suc (suc (suc (suc (suc (suc zero)))))))) = "8"
digit _ = "9"

show_digits : ℕ → ℕ → String
show_digits zero n = ""
show_digits (suc fuel) n =
    let rest = show_digits fuel (n / 10) in if ltb n 10 then digit n else rest <> digit (n % 10)

-- `str(n)`: a number has at most `n + 1` digits.
unfoldable pub show : ℕ → String
unfolding digit show_digits
show n = show_digits (suc n) n

abbrev pub is_digit : ℕ → Bool
is_digit c = leb b'0' c && leb c b'9'

abbrev pub is_lower : ℕ → Bool
is_lower c = leb b'a' c && leb c b'z'

abbrev pub is_upper : ℕ → Bool
is_upper c = leb b'A' c && leb c b'Z'

abbrev pub is_hex : ℕ → Bool
is_hex c = is_digit c || (leb b'a' c && leb c b'f')

-- The order of texts, by code points, in which SQLite and Python's `sorted` put them.
abbrev pub str_leb : String → String → Bool
str_leb s t = is_le (String.compare s t)

insert_sorted : String → List String → List String
insert_sorted s [] = s ∷ []
insert_sorted s (t ∷ ts) = if str_leb s t then s ∷ t ∷ ts else t ∷ insert_sorted s ts

-- `sorted(xs)`, and `ORDER BY id`.
unfoldable pub sorted : List String → List String
unfolding insert_sorted
sorted [] = []
sorted (s ∷ ss) = insert_sorted s (sorted ss)

-- A regular expression of fixed length, one test for each character; `fullmatch`.
abbrev pub fits : List (ℕ → Bool) → String → Bool
fits [] String.[] = true
fits [] (String.◌∷◌ c s) = false
fits (p ∷ ps) String.[] = false
fits (p ∷ ps) (String.◌∷◌ c s) = p (code c) && fits ps s

abbrev pub literal : String → List (ℕ → Bool)
literal String.[] = []
literal (String.◌∷◌ c s) = (λ d. d == code c) ∷ literal s

abbrev pub times : ℕ → (ℕ → Bool) → List (ℕ → Bool)
times zero p = []
times (suc n) p = p ∷ times n p

pub str_len-take : (n : ℕ) (s : String) → str_len (str_take n s) ≤ n
str_len-take zero s = omega arith
str_len-take (suc n) String.[] = omega arith
str_len-take (suc n) (String.◌∷◌ c s) = omega (arith, str_len-take n s)

pub str_len-append : (s t : String) → str_len (s <> t) ≡ str_len s + str_len t
str_len-append String.[] t = rw String.append.nil (omega arith)
str_len-append (String.◌∷◌ c s) t = rw String.append.cons (omega (arith, str_len-append s t))

pub is_empty-append : (s t : String) → is_empty (s <> t) ≡ (is_empty s && is_empty t)
is_empty-append String.[] t = rw String.append.nil refl
is_empty-append (String.◌∷◌ c s) t = rw String.append.cons refl

pub str_all-append :
    (p : ℕ → Bool) (s t : String) → str_all p (s <> t) ≡ (str_all p s && str_all p t)
str_all-append p String.[] t = rw String.append.nil refl
str_all-append p (String.◌∷◌ c s) t = rw String.append.cons (ground (arith, str_all-append p s t))

pub str_all-take :
    (p : ℕ → Bool) (n : ℕ) (s : String) → str_all p s ≡ true → str_all p (str_take n s) ≡ true
str_all-take p zero s h = refl
str_all-take p (suc n) String.[] h = refl
str_all-take p (suc n) (String.◌∷◌ c s) h = ground (arith, str_all-take p n s)

rstrip-rstrip : (s : String) → rstrip (rstrip s) ≡ rstrip s
unfolding rstrip
rstrip-rstrip String.[] = refl
rstrip-rstrip (String.◌∷◌ c s) = ground (arith, rstrip-rstrip s)

-- No white space at the left end.
abbrev starts_clean : String → Bool
starts_clean String.[] = true
starts_clean (String.◌∷◌ c s) = if is_space (code c) then false else true

lstrip-clean : (s : String) → starts_clean (lstrip s) ≡ true
unfolding lstrip
lstrip-clean String.[] = refl
lstrip-clean (String.◌∷◌ c s) = ground (arith, lstrip-clean s)

rstrip-clean : (s : String) → starts_clean s ≡ true → starts_clean (rstrip s) ≡ true
unfolding rstrip
rstrip-clean String.[] h = refl
rstrip-clean (String.◌∷◌ c s) h = ground arith

lstrip-of_clean : (s : String) → starts_clean s ≡ true → lstrip s ≡ s
unfolding lstrip
lstrip-of_clean String.[] h = refl
lstrip-of_clean (String.◌∷◌ c s) h = ground arith

-- Stripping twice is stripping once.
pub strip-strip : (s : String) → strip (strip s) ≡ strip s
unfolding strip
strip-strip s =
    rw (lstrip-of_clean (rstrip (lstrip s)) (rstrip-clean (lstrip s) (lstrip-clean s)))
      (rstrip-rstrip (lstrip s))

-- The printable characters of ASCII.
abbrev pub is_ascii : ℕ → Bool
is_ascii c = leb 32 c && leb c 126

ascii-digit : (n : ℕ) → str_all is_ascii (digit n) ≡ true
unfolding digit
ascii-digit zero = refl
ascii-digit (suc zero) = refl
ascii-digit (suc (suc zero)) = refl
ascii-digit (suc (suc (suc zero))) = refl
ascii-digit (suc (suc (suc (suc zero)))) = refl
ascii-digit (suc (suc (suc (suc (suc zero))))) = refl
ascii-digit (suc (suc (suc (suc (suc (suc zero)))))) = refl
ascii-digit (suc (suc (suc (suc (suc (suc (suc zero))))))) = refl
ascii-digit (suc (suc (suc (suc (suc (suc (suc (suc zero)))))))) = refl
ascii-digit _ = refl

ascii-show_digits : (fuel n : ℕ) → str_all is_ascii (show_digits fuel n) ≡ true
unfolding show_digits
ascii-show_digits zero n = refl
ascii-show_digits (suc fuel) n = elim (Bool-cases (ltb n 10)) [
  | inl last ↦ rw last (ascii-digit n)
  | inr more ↦
      rw (more, str_all-append) (and-true (ascii-show_digits fuel (n / 10)) (ascii-digit (n % 10)))
]

pub ascii-show : (n : ℕ) → str_all is_ascii (show n) ≡ true
unfolding show
ascii-show n = ascii-show_digits (suc n) n
