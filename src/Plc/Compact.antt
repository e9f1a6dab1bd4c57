-- ===== src/Plc/Compact.antt =====
-- The compact form of a value, `<model>P<three digits><serial><table>`, and how its parts are found.
use Prim.Native.Char.{Char}
use Prim.Native.String.{[], ◌∷◌, ◌++◌}
use text.Mathlib.TextLemmas.{nil-append, cons-append, cons≢nil}
use blackbear_edge_bridge.Prelude.{
  String, ◌≡◌, refl, sym, true, false, ◌||◌, none, some, arith, Bool-cases, inl, inr,
}
use blackbear_edge_bridge.Errors.{accept, ◌>>=◌}
use blackbear_edge_bridge.Text.{len, all, all-cons, is_space, rstrip, has_space, has_space-all}
use blackbear_edge_bridge.Plc.Parser.{
  Unicode, supported_table, split_compact_payload, split_message_value, digits_and_serial, any_char,
  or_here, match_rest, match_compact,
}
use blackbear_edge_bridge.Plc.RoundTrip.{table_cases, parts_accepted, stripped_split, strip_value}

abbrev pub letter_p : Char
letter_p = "P"

has_space-concat : (s t : String) → has_space (s ++ t) ≡ (has_space s || has_space t)
unfolding has_space
has_space-concat [] t = rw nil-append refl
has_space-concat (c ∷ s) t = rw cons-append (rw (has_space-concat s t) (ground arith))

module _ (u : Unicode) where
  open u use {is_decimal, is_digit}

  decimal_digits : (s : String) → all is_decimal s ≡ true → all is_digit s ≡ true
  decimal_digits [] h = refl
  decimal_digits (c ∷ s) h =
      let (first, rest) = all-cons is_decimal c s h in
      rw (u.decimal-digit c first) (decimal_digits s rest)

  -- no P stands among decimals
  match_rest-none : (s : String) → all is_decimal s ≡ true → match_rest u s ≡ none
  unfolding match_rest
  match_rest-none [] h = refl
  match_rest-none (c ∷ s) h =
      let (first, rest) = all-cons is_decimal c s h in
      let none_later = match_rest-none s rest in
      let no_letter = u.decimal-not_letter c first in
      elim (Bool-cases (any_char u c)) [
        | inl e ↦ rw none_later (rw e (rw (no_letter, or_here) refl))
        | inr e ↦ rw none_later (rw e (rw (no_letter, or_here) refl))
      ]

  three_and_serial :
      (x y z d : Char) (n : String)
      → all is_decimal (x ∷ y ∷ z ∷ []) ≡ true
      → all is_decimal (d ∷ n) ≡ true
      → digits_and_serial u (x ∷ y ∷ z ∷ d ∷ n) ≡ some (x ∷ y ∷ z ∷ [], d ∷ n)
  unfolding digits_and_serial
  three_and_serial x y z d n h g = rw h (rw g refl)

  -- the last P of the value is the one before its three digits and its serial
  match_here :
      (x y z d : Char) (n : String)
      → all is_decimal (x ∷ y ∷ z ∷ []) ≡ true
      → all is_decimal (d ∷ n) ≡ true
      → match_rest u (letter_p ∷ x ∷ y ∷ z ∷ d ∷ n) ≡ some (letter_p ∷ x ∷ y ∷ z ∷ [], d ∷ n)
  unfolding match_rest
  match_here x y z d n h g =
      rw (match_rest-none (x ∷ y ∷ z ∷ d ∷ n) (ground (arith, h, g)))
        (rw (three_and_serial x y z d n h g, or_here) refl)

  match_after :
      (m : String) (x y z d : Char) (n : String)
      → all (any_char u) m ≡ true
      → all is_decimal (x ∷ y ∷ z ∷ []) ≡ true
      → all is_decimal (d ∷ n) ≡ true
      → match_rest u (m ++ (letter_p ∷ x ∷ y ∷ z ∷ d ∷ n))
        ≡ some (m ++ (letter_p ∷ x ∷ y ∷ z ∷ []), d ∷ n)
  unfolding match_rest
  match_after [] x y z d n a h g = rw nil-append (rw nil-append (match_here x y z d n h g))
  match_after (c ∷ m) x y z d n a h g =
      let (first, rest) = all-cons (any_char u) c m a in
      rw cons-append
        (rw cons-append (rw (match_after m x y z d n rest h g) (rw (first, or_here) refl)))

  compact_parts :
      (e : Char) (m : String) (x y z d : Char) (n : String)
      → all (any_char u) (e ∷ m) ≡ true
      → all is_decimal (x ∷ y ∷ z ∷ []) ≡ true
      → all is_decimal (d ∷ n) ≡ true
      → split_compact_payload u ((e ∷ m) ++ (letter_p ∷ x ∷ y ∷ z ∷ d ∷ n))
        ≡ accept ((e ∷ m) ++ (letter_p ∷ x ∷ y ∷ z ∷ []), d ∷ n)
  unfolding split_compact_payload match_compact
  compact_parts e m x y z d n w h g =
      let (first, rest) = all-cons (any_char u) e m w in
      rw cons-append (
        rw cons-append (
          rw (first, split_compact_payload, match_compact)
            (rw (match_after m x y z d n rest h g) refl)))

  spaceless :
      (e : Char) (m : String) (x y z d : Char) (n : String)
      → has_space (e ∷ m) ≡ false
      → all is_decimal (x ∷ y ∷ z ∷ []) ≡ true
      → all is_decimal (d ∷ n) ≡ true
      → has_space ((e ∷ m) ++ (letter_p ∷ x ∷ y ∷ z ∷ d ∷ n)) ≡ false
  spaceless e m x y z d n b h g =
      let decimals = decimal_digits (x ∷ y ∷ z ∷ d ∷ n) (ground (arith, h, g)) in
      let tail = has_space-all is_digit u.digit-not_space (x ∷ y ∷ z ∷ d ∷ n) decimals in
      rw (has_space-concat (e ∷ m) (letter_p ∷ x ∷ y ∷ z ∷ d ∷ n)) (rw b (unfold has_space in tail))

  compact_value :
      (e : Char) (m : String) (x y z d : Char) (n : String) (a : Char) (t : String)
      → is_space e ≡ false
      → has_space (e ∷ m) ≡ false
      → all (any_char u) (e ∷ m) ≡ true
      → all is_decimal (x ∷ y ∷ z ∷ []) ≡ true
      → all is_decimal (d ∷ n) ≡ true
      → len (a ∷ t) ≡ 3
      → rstrip (a ∷ t) ≡ a ∷ t
      → supported_table (a ∷ t) ≡ true
      → split_message_value u (((e ∷ m) ++ (letter_p ∷ x ∷ y ∷ z ∷ d ∷ n)) ++ a ∷ t)
        ≡ accept ((e ∷ m) ++ (letter_p ∷ x ∷ y ∷ z ∷ []), d ∷ n, a ∷ t)
  unfolding split_message_value
  compact_value e m x y z d n a t s b w h g l k p =
      let tail = letter_p ∷ x ∷ y ∷ z ∷ d ∷ n in
      let stripped = rw (sym (cons-append e m tail)) at (strip_value u e (m ++ tail) a t s k) in
      rw stripped (
        rw (stripped_split u ((e ∷ m) ++ tail) a t l p) (
          rw (spaceless e m x y z d n b h g) (
            rw (compact_parts e m x y z d n w h g, ◌>>=◌)
              (rw cons-append (
                parts_accepted u (a ∷ t) e (m ++ (letter_p ∷ x ∷ y ∷ z ∷ [])) (d ∷ n) cons≢nil
                  (decimal_digits (d ∷ n) g))))))

  -- A value of a model, P and three decimals, a serial and a supported table is parsed into the model
  -- with its P and decimals, the serial and the table, for a model without a space or a newline that
  -- begins with no white space, and a serial of decimals.
  pub compact_round_trip :
      (e : Char) (m : String) (x y z d : Char) (n table : String)
      → is_space e ≡ false
      → has_space (e ∷ m) ≡ false
      → all (any_char u) (e ∷ m) ≡ true
      → all is_decimal (x ∷ y ∷ z ∷ []) ≡ true
      → all is_decimal (d ∷ n) ≡ true
      → supported_table table ≡ true
      → split_message_value u (((e ∷ m) ++ (letter_p ∷ x ∷ y ∷ z ∷ d ∷ n)) ++ table)
        ≡ accept ((e ∷ m) ++ (letter_p ∷ x ∷ y ∷ z ∷ []), d ∷ n, table)
  compact_round_trip e m x y z d n table s b w h g p =
      let v = (e ∷ m) ++ (letter_p ∷ x ∷ y ∷ z ∷ d ∷ n) in
      table_cases
        (λ t.
          split_message_value u (v ++ t)
          ≡ accept ((e ∷ m) ++ (letter_p ∷ x ∷ y ∷ z ∷ []), d ∷ n, t))
        (compact_value e m x y z d n "T" "01" s b w h g refl (unfold rstrip is_space in refl) refl)
        (compact_value e m x y z d n "T" "02" s b w h g refl (unfold rstrip is_space in refl) refl)
        (compact_value e m x y z d n "T" "03" s b w h g refl (unfold rstrip is_space in refl) refl)
        table p
