-- ===== src/Startup/Numerals.antt =====
-- Which integer `_get_int` of app/config.py reads.
use Prim.Native.Char.{Char, code}
use Prim.Native.String.{[], ◌∷◌, ◌++◌}
use text.Mathlib.TextLemmas.{nil-append, cons-append}
use blackbear_edge_bridge.Prelude.{
  ℕ, suc, ◌+◌, ◌*◌, ◌≤◌, ◌≡◌, ◌∙◌, refl, ap, String, Bool, true, false, ◌&&◌, ◌||◌, Option, none,
  some, ℤ, pos, leb, nat_eq, ◌==◌, arith, if◌then◌else◌,
}
use blackbear_edge_bridge.Errors.{accept}
use blackbear_edge_bridge.Text.{is_space, all, all-cons, strip-all, not_empty, len}
use blackbear_edge_bridge.Startup.Read.{
  Letters, Environment, is_int_space, int_lstrip, int_rstrip, unless_space, is_underscore,
  digit_count, negative, digit_value, after_digit, read_digits, magnitude, signed, int_of, get_int,
}

-- the digits of a number, the least significant one last
pub data Numeral : String → ℕ → Type 0 where
  one : (c : Char) (d : ℕ) → d ≤ 9 → code c ≡ 48 + d → Numeral (c ∷ []) d
  more :
      {s : String} {n : ℕ} (c : Char) (d : ℕ)
      → Numeral s n
      → d ≤ 9
      → code c ≡ 48 + d
      → Numeral (s ++ (c ∷ [])) (n * 10 + d)

abbrev minus : Char
minus = "-"

-- "-" and the digits, or the digits alone
abbrev pub numeral_text : Bool → String → String
numeral_text true s = minus ∷ s
numeral_text false s = s

abbrev pub numeral_value : Bool → ℕ → ℤ
numeral_value true n = negative n
numeral_value false n = pos n

abbrev digit_char : Char → Bool
digit_char c = leb 48 (code c) && leb (code c) 57

abbrev number_char : Char → Bool
number_char c = digit_char c || nat_eq (code c) 45

digit_is_char : (c : Char) (d : ℕ) → d ≤ 9 → code c ≡ 48 + d → digit_char c ≡ true
digit_is_char c d b h = rw h (ground (arith, b))

all-snoc :
    (p : Char → Bool) (s : String) (c : Char)
    → all p s ≡ true
    → p c ≡ true
    → all p (s ++ (c ∷ [])) ≡ true
all-snoc p [] c h k = rw nil-append (rw k refl)
all-snoc p (d ∷ s) c h k =
    let (first, rest) = all-cons p d s h in rw cons-append (rw first (all-snoc p s c rest k))

digits : {s : String} {n : ℕ} → Numeral s n → all digit_char s ≡ true
digits (one c d b h) = rw (digit_is_char c d b h) refl
digits (more {s} c d m b h) = all-snoc digit_char s c (digits m) (digit_is_char c d b h)

numbers : (s : String) → all digit_char s ≡ true → all number_char s ≡ true
numbers [] h = refl
numbers (c ∷ s) h = let (first, rest) = all-cons digit_char c s h in rw first (numbers s rest)

filled : (c : Char) (s : String) → ((c ∷ s) == "") ≡ false
filled c s = not_empty (c ∷ s) (λ e. no (ap len e))
  where
    no : suc (len s) ≡ 0 → ⊥
    no h = omega (arith, h)

module _ (letters : Letters) where
  digit-value : (c : Char) (d : ℕ) → d ≤ 9 → code c ≡ 48 + d → digit_value letters c ≡ some d
  unfolding digit_value
  digit-value c d b h = rw (digit_is_char c d b h) (ap some (omega (arith, h)))

  digit_step :
      (c : Char) (d : ℕ) (s : String) (k : ℕ) (after : Bool)
      → d ≤ 9
      → code c ≡ 48 + d
      → read_digits letters k after (c ∷ s) ≡ read_digits letters (k * 10 + d) true s
  unfolding read_digits
  digit_step c d s k after b h = rw (plain, digit-value c d b h) refl
    where
      plain : is_underscore c ≡ false
      plain = rw h (ground (arith, b))

  read-more :
      (s : String) (k : ℕ) (after : Bool) (c : Char) (d n : ℕ)
      → d ≤ 9
      → code c ≡ 48 + d
      → read_digits letters k after s ≡ some n
      → read_digits letters k after (s ++ (c ∷ [])) ≡ some (n * 10 + d)
  unfolding read_digits
  read-more [] k true c d n b h e =
      rw nil-append (digit_step c d [] k true b h ∙ ap (λ m. some (m * 10 + d)) (some-inj e))
    where
      some-inj : {a b : ℕ} → some a ≡ some b → a ≡ b
      some-inj q = cc
  read-more [] k false c d n b h e = absurd (ground (arith, e))
  read-more (x ∷ s) k after c d n b h e =
      rw cons-append (
        by_char (λ m a. read-more s m a c d n b h) (is_underscore x) after (digit_value letters x)
          e)
    where
      by_char :
          ((m : ℕ) (a : Bool)
            → read_digits letters m a s ≡ some n
            → read_digits letters m a (s ++ (c ∷ [])) ≡ some (n * 10 + d))
          → (u after : Bool) (v : Option ℕ)
          → (if u
              then (if after then read_digits letters k false s else none)
              else after_digit letters k v (λ m. read_digits letters m true s))
            ≡ some n
          → (if u
              then (if after then read_digits letters k false (s ++ (c ∷ [])) else none)
              else after_digit letters k v (λ m. read_digits letters m true (s ++ (c ∷ []))))
            ≡ some (n * 10 + d)
      by_char ih true true v q = ih k false q
      by_char ih true false v q = absurd (ground (arith, q))
      by_char ih false after none q = absurd (ground (arith, q))
      by_char ih false after (some w) q = ih (k * 10 + w) true q

  Numeral-read : {s : String} {n : ℕ} → Numeral s n → read_digits letters 0 false s ≡ some n
  unfolding read_digits
  Numeral-read (one c d b h) = digit_step c d [] 0 false b h ∙ ap some (omega arith)
  Numeral-read (more {s} {n} c d m b h) = read-more s 0 false c d n b h (Numeral-read m)

  -- `int` and `strip` leave the text of a number as it is
  plain : (c : Char) → number_char c ≡ true → is_int_space c ≡ false
  unfolding is_int_space
  plain c h = ground (arith, h)

  not_space : (c : Char) → number_char c ≡ true → is_space c ≡ false
  unfolding is_space
  not_space c h = ground (arith, h)

  int_rstrip-all : (s : String) → all number_char s ≡ true → int_rstrip s ≡ s
  unfolding int_rstrip
  int_rstrip-all [] h = refl
  int_rstrip-all (c ∷ []) h = rw (plain c (all-cons number_char c [] h).0) refl
  int_rstrip-all (c ∷ d ∷ s) h =
      ap (unless_space c) (int_rstrip-all (d ∷ s) (all-cons number_char c (d ∷ s) h).1)

  int_strip-all : (s : String) → all number_char s ≡ true → int_rstrip (int_lstrip s) ≡ s
  unfolding int_lstrip int_rstrip
  int_strip-all [] h = refl
  int_strip-all (c ∷ s) h = rw (plain c (all-cons number_char c s h).0) (int_rstrip-all (c ∷ s) h)

  magnitude_reads :
      (s : String) (n : ℕ)
      → digit_count s ≤ 4300
      → read_digits letters 0 false s ≡ some n
      → magnitude letters s ≡ some n
  unfolding magnitude
  magnitude_reads s n b e =
      let small : leb (digit_count s) 4300 ≡ true = ground (arith, b) in rw small e

  signed_reads :
      (sign : Bool) (s : String) (n : ℕ)
      → all digit_char s ≡ true
      → digit_count s ≤ 4300
      → read_digits letters 0 false s ≡ some n
      → signed letters (numeral_text sign s) ≡ some (numeral_value sign n)
  unfolding read_digits
  signed_reads true s n a b e = rw (magnitude_reads s n b e) refl
  signed_reads false [] n a b e = absurd (ground (arith, e))
  signed_reads false (c ∷ s) n a b e =
      let digit = (all-cons digit_char c s a).0 in
      let no_minus : nat_eq (code c) 45 ≡ false = ground (arith, digit) in
      let no_plus : nat_eq (code c) 43 ≡ false = ground (arith, digit) in
      rw (no_minus, no_plus, magnitude_reads (c ∷ s) n b e) refl

  not_blank :
      (sign : Bool) (s : String) (n : ℕ)
      → read_digits letters 0 false s ≡ some n
      → (numeral_text sign s == "") ≡ false
  unfolding read_digits
  not_blank true s n e = filled minus s
  not_blank false [] n e = absurd (ground (arith, e))
  not_blank false (c ∷ s) n e = filled c s

  text_numbers :
      (sign : Bool) (s : String)
      → all digit_char s ≡ true
      → all number_char (numeral_text sign s) ≡ true
  text_numbers true s a = numbers s a
  text_numbers false s a = numbers s a

  -- A variable that holds the decimal digits of a number, at most 4300 of them, with or without a minus sign,
  -- is read as that number, whatever the default is.
  pub get_int-reads :
      (env : Environment) (name : String) (default : ℤ) (sign : Bool) {s : String} {n : ℕ}
      → Numeral s n
      → digit_count s ≤ 4300
      → env name ≡ some (numeral_text sign s)
      → get_int letters env name default ≡ accept (numeral_value sign n)
  unfolding get_int int_of
  get_int-reads env name default sign {s} {n} m b e =
      let a = digits m in
      let whole = text_numbers sign s a in
      let r = Numeral-read m in
      rw
        (
          e,
          strip-all number_char not_space (numeral_text sign s) whole,
          not_blank sign s n r,
          int_strip-all (numeral_text sign s) whole,
          signed_reads sign s n a b r,
        )
        refl
