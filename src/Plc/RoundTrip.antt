-- ===== src/Plc/RoundTrip.antt =====
-- Values written as the contract says are parsed into the parts that they were made of.
use Prim.Native.Char.{Char}
use Prim.Native.String.{◌∷◌, ◌++◌}
use text.Mathlib.TextLemmas.{cons-append, cons≢nil}
use blackbear_edge_bridge.Prelude.{
  String, ◌≡◌, ◌≢◌, refl, sym, true, false, arith, ◌==◌, eq_iff, Bool-cases, inl, inr,
  if◌then◌else◌,
}
use blackbear_edge_bridge.Errors.{accept, ◌>>=◌}
use blackbear_edge_bridge.Text.{
  len, not_empty, all, blank, is_space, rstrip, strip, has_space, last_three-append, all_but-append,
  rsplit-append, has_space-append, rstrip-append, strip_kept, strip-all, has_space-all,
}
use blackbear_edge_bridge.Plc.Parser.{
  Unicode, supported_table, split_spaced_payload, split_compact_payload, check_parts,
  split_stripped, split_message_value,
}

-- A property of the three table names holds of every supported table.
pub table_cases :
    (P : String → Type 0)
    → P "T01"
    → P "T02"
    → P "T03"
    → (t : String) → supported_table t ≡ true
    → P t
table_cases P p1 p2 p3 t h = elim (Bool-cases (t == "T01")) [
  | inl e ↦ rw ((eq_iff t "T01").0 e) p1
  | inr n1 ↦ elim (Bool-cases (t == "T02")) [
    | inl e ↦ rw ((eq_iff t "T02").0 e) p2
    | inr n2 ↦ rw ((eq_iff t "T03").0 (ground (arith, h, n1, n2))) p3
  ]
]

module _ (u : Unicode) where
  open u use {is_decimal, is_digit}

  pub parts_accepted :
      (table : String) (c : Char) (m : String) (serial : String)
      → serial ≢ ""
      → all is_digit serial ≡ true
      → check_parts u table (c ∷ m, serial) ≡ accept (c ∷ m, serial, table)
  unfolding check_parts
  parts_accepted table c m serial n d =
      rw (not_empty (c ∷ m) cons≢nil) (rw (not_empty serial n) (rw d))

  -- the value before its table
  pub stripped_split :
      (rest : String) (d : Char) (t : String)
      → len (d ∷ t) ≡ 3
      → supported_table (d ∷ t) ≡ true
      → split_stripped u (rest ++ d ∷ t) ≡ (
          (if has_space rest then split_spaced_payload rest else split_compact_payload u rest)
          >>= check_parts u (d ∷ t))
  unfolding split_stripped
  stripped_split rest d t l s =
      rw (last_three-append rest (d ∷ t) l) (rw (all_but-append rest (d ∷ t) l) (rw s))

  pub strip_value :
      (c : Char) (rest : String) (d : Char) (t : String)
      → is_space c ≡ false
      → rstrip (d ∷ t) ≡ d ∷ t
      → strip ((c ∷ rest) ++ d ∷ t) ≡ (c ∷ rest) ++ d ∷ t
  strip_value c rest d t s r =
      let kept = rstrip-append (c ∷ rest) d t r in
      rw (cons-append c rest (d ∷ t))
        (strip_kept c (rest ++ d ∷ t) s (rw (cons-append c rest (d ∷ t)) at kept))

  at_last_space :
      (c : Char) (m serial : String)
      → is_space c ≡ false
      → rstrip (c ∷ m) ≡ c ∷ m
      → all is_digit serial ≡ true
      → split_spaced_payload ((c ∷ m) ++ (blank ∷ serial)) ≡ accept (c ∷ m, serial)
  unfolding split_spaced_payload
  at_last_space c m serial s r g =
      rw
        (
          rsplit-append (c ∷ m) serial (has_space-all is_digit u.digit-not_space serial g),
          split_spaced_payload,
        )
        (rw (strip_kept c m s r) (rw (strip-all is_digit u.digit-not_space serial g) refl))

  spaced_value :
      (c : Char) (m serial : String) (d : Char) (t : String)
      → is_space c ≡ false
      → rstrip (c ∷ m) ≡ c ∷ m
      → serial ≢ ""
      → all is_digit serial ≡ true
      → len (d ∷ t) ≡ 3
      → rstrip (d ∷ t) ≡ d ∷ t
      → supported_table (d ∷ t) ≡ true
      → split_message_value u (((c ∷ m) ++ (blank ∷ serial)) ++ d ∷ t)
        ≡ accept (c ∷ m, serial, d ∷ t)
  unfolding split_message_value
  spaced_value c m serial d t s r n g l k p =
      let rest = (c ∷ m) ++ (blank ∷ serial) in
      let joined = cons-append c m (blank ∷ serial) in
      let stripped = rw (sym joined) at (strip_value c (m ++ (blank ∷ serial)) d t s k) in
      rw stripped (
        rw (stripped_split rest d t l p) (
          rw (has_space-append (c ∷ m) serial)
            (rw (at_last_space c m serial s r g, ◌>>=◌) (parts_accepted (d ∷ t) c m serial n g))))

  -- A value of a model, a space, a serial and a supported table is parsed into these three, for a model
  -- that neither begins nor ends with white space and a serial of digits.
  pub spaced_round_trip :
      (c : Char) (m serial table : String)
      → is_space c ≡ false
      → rstrip (c ∷ m) ≡ c ∷ m
      → serial ≢ ""
      → all is_digit serial ≡ true
      → supported_table table ≡ true
      → split_message_value u (((c ∷ m) ++ (blank ∷ serial)) ++ table)
        ≡ accept (c ∷ m, serial, table)
  spaced_round_trip c m serial table s r n g h =
      table_cases
        (λ t.
          split_message_value u (((c ∷ m) ++ (blank ∷ serial)) ++ t) ≡ accept (c ∷ m, serial, t))
        (spaced_value c m serial "T" "01" s r n g refl (unfold rstrip is_space in refl) refl)
        (spaced_value c m serial "T" "02" s r n g refl (unfold rstrip is_space in refl) refl)
        (spaced_value c m serial "T" "03" s r n g refl (unfold rstrip is_space in refl) refl) table
        h
