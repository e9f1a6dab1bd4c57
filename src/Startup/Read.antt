-- ===== src/Startup/Read.antt =====
-- `_get_int` and `_get_bool` of app/config.py, and the `int` of a text that they use. The environment is
-- the one after `load_dotenv`.
use Prim.Native.Char.{Char, code}
use Prim.Native.String.{[], ◌∷◌}
use blackbear_edge_bridge.Prelude.{
  ℕ, zero, suc, ◌+◌, ◌-◌, ◌*◌, String, Bool, true, false, ◌&&◌, ◌||◌, Option, none, some, ℤ, pos,
  negsuc, leb, ltb, nat_eq, ◌==◌, if◌then◌else◌,
}
use blackbear_edge_bridge.Errors.{Checked, accept, reject}
use blackbear_edge_bridge.Text.{is_space, strip}

-- the ValueError of a variable, by its name
pub data ConfigError : Type 0 where
  must_be_an_integer : String → ConfigError
  must_be_a_boolean : String → ConfigError

-- the Unicode tables: the value of a decimal digit beyond ASCII, and str.lower and str.upper
pub record Letters : Type 0 where
  pub decimal : Char → Option ℕ
  pub lower : String → String
  pub upper : String → String

abbrev pub Environment : Type 0
Environment = String → Option String

-- white space to `int`: within ASCII, less than str.isspace
unfoldable pub is_int_space : Char → Bool
is_int_space c =
    if ltb (code c) 127
    then nat_eq (code c) 32 || (leb 9 (code c) && leb (code c) 13)
    else is_space c

unfoldable pub int_lstrip : String → String
int_lstrip [] = []
int_lstrip (c ∷ s) = if is_int_space c then int_lstrip s else c ∷ s

abbrev pub unless_space : Char → String → String
unless_space c [] = if is_int_space c then [] else c ∷ []
unless_space c (d ∷ s) = c ∷ d ∷ s

unfoldable pub int_rstrip : String → String
int_rstrip [] = []
int_rstrip (c ∷ s) = unless_space c (int_rstrip s)

abbrev pub is_underscore : Char → Bool
is_underscore c = nat_eq (code c) 95

-- `int` takes no more than 4300 digits
unfoldable pub digit_count : String → ℕ
digit_count [] = 0
digit_count (c ∷ s) = if is_underscore c then digit_count s else suc (digit_count s)

abbrev pub negative : ℕ → ℤ
negative zero = pos 0
negative (suc n) = negsuc n

abbrev pub with_sign : (ℕ → ℤ) → Option ℕ → Option ℤ
with_sign sign none = none
with_sign sign (some n) = some (sign n)

module _ (letters : Letters) where
  unfoldable pub digit_value : Char → Option ℕ
  digit_value c =
      if leb 48 (code c) && leb (code c) 57
      then some (code c - 48)
      else if ltb (code c) 127
      then none
      else letters.decimal c

  abbrev pub after_digit : ℕ → Option ℕ → (ℕ → Option ℕ) → Option ℕ
  after_digit n none rest = none
  after_digit n (some d) rest = rest (n * 10 + d)

  -- single underscores may stand between digits; `after` says that the last character was a digit
  unfoldable pub read_digits : ℕ → Bool → String → Option ℕ
  read_digits n after [] = if after then some n else none
  read_digits n after (c ∷ s) =
      if is_underscore c
      then (if after then read_digits n false s else none)
      else after_digit n (digit_value c) (λ m. read_digits m true s)

  unfoldable pub magnitude : String → Option ℕ
  magnitude s = if leb (digit_count s) 4300 then read_digits 0 false s else none

  abbrev pub signed : String → Option ℤ
  signed [] = none
  signed (c ∷ s) =
      if nat_eq (code c) 45
      then with_sign negative (magnitude s)
      else if nat_eq (code c) 43
      then with_sign pos (magnitude s)
      else with_sign pos (magnitude (c ∷ s))

  -- int(raw_value), when it raises nothing
  unfoldable pub int_of : String → Option ℤ
  int_of s = signed (int_rstrip (int_lstrip s))

  abbrev pub integer_or : String → Option ℤ → Checked ConfigError ℤ
  integer_or name none = reject (must_be_an_integer name)
  integer_or name (some n) = accept n

  abbrev pub read_int : String → ℤ → Option String → Checked ConfigError ℤ
  read_int name default none = accept default
  read_int name default (some raw) =
      if strip raw == "" then accept default else integer_or name (int_of raw)

  unfoldable pub get_int : Environment → String → ℤ → Checked ConfigError ℤ
  get_int env name default = read_int name default (env name)

  abbrev pub is_true : String → Bool
  is_true s = s == "true" || s == "1" || s == "yes" || s == "on"

  abbrev pub is_false : String → Bool
  is_false s = s == "false" || s == "0" || s == "no" || s == "off"

  abbrev pub boolean_or : String → String → Checked ConfigError Bool
  boolean_or name normalized =
      if is_true normalized
      then accept true
      else if is_false normalized
      then accept false
      else reject (must_be_a_boolean name)

  abbrev pub read_bool : String → Bool → Option String → Checked ConfigError Bool
  read_bool name default none = accept default
  read_bool name default (some raw) =
      if strip raw == "" then accept default else boolean_or name (letters.lower (strip raw))

  unfoldable pub get_bool : Environment → String → Bool → Checked ConfigError Bool
  get_bool env name default = read_bool name default (env name)
