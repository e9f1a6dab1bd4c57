-- ===== src/Plc/Parser.antt =====
-- `parse_plc_message` of app/message_parser.py.
-- A payload is what `payload.decode("utf-8")` makes of the bytes. The Unicode tables behind `\d` and
-- `str.isdigit` are a parameter, with what the parser relies on.
use Prim.Native.Char.{Char, code}
use Prim.Native.String.{[], ◌∷◌}
use blackbear_edge_bridge.Prelude.{
  String, ◌≡◌, Bool, true, false, ◌||◌, not, Option, none, some, nat_eq, ◌==◌, if◌then◌else◌,
}
use blackbear_edge_bridge.Errors.{Checked, accept, reject, ◌>>=◌}
use blackbear_edge_bridge.Text.{
  all, is_space, last_three, all_but_last_three, strip, has_space, rsplit_space,
}
use blackbear_edge_bridge.Json.{Json, str, obj, Fields, end, field, Codec}

pub record Unicode : Type 0 where
  -- \d
  pub is_decimal : Char → Bool
  -- str.isdigit of one character
  pub is_digit : Char → Bool
  pub decimal-digit : (c : Char) → is_decimal c ≡ true → is_digit c ≡ true
  pub digit-not_space : (c : Char) → is_digit c ≡ true → is_space c ≡ false
  pub decimal-not_letter : (c : Char) → is_decimal c ≡ true → nat_eq (code c) b'P' ≡ false

pub data Payload : Type 0 where
  utf8 : String → Payload
  -- bytes that do not decode, by their `repr`
  not_utf8 : String → Payload

-- PLCMessageParseError, by its message
pub data ParseError : Type 0 where
  invalid_utf8 : ParseError
  malformed_json : String → ParseError
  not_an_object not_one_field : ParseError
  unsupported_type not_a_string : String → ParseError
  no_table no_separation no_compact_match no_model bad_serial : ParseError

pub record ParsedPlcMessage : Type 0 where
  pub message_type : String
  pub model_number : String
  pub serial_number : String
  pub table_number : String

-- SUPPORTED_MESSAGE_TYPES, SUPPORTED_TABLES
abbrev pub supported_type : String → Bool
supported_type t = t == "MN" || t == "MP"

abbrev pub supported_table : String → Bool
supported_table t = t == "T01" || t == "T02" || t == "T03"

-- `_split_spaced_payload`
unfoldable pub split_spaced_payload : String → Checked ParseError (String × String)
split_spaced_payload text = elim (rsplit_space text) [
  | none ↦ reject no_separation
  | some (model, serial) ↦ accept (strip model, strip serial)
]

module _ (u : Unicode) where
  open u use {is_decimal, is_digit}

  abbrev serial_after : String → Option String
  serial_after [] = none
  serial_after (d ∷ s) = if all is_decimal (d ∷ s) then some (d ∷ s) else none

  -- `P\d{3}` and then `\d+` to the end, after the P: the three digits, and the serial
  unfoldable pub digits_and_serial : String → Option (String × String)
  digits_and_serial (a ∷ b ∷ c ∷ s) =
      if all is_decimal (a ∷ b ∷ c ∷ [])
      then elim (serial_after s) [ none ↦ none | some n ↦ some (a ∷ b ∷ c ∷ [], n) ]
      else none
  digits_and_serial _ = none

  abbrev pub prepend : Char → Option (String × String) → Option (String × String)
  prepend c none = none
  prepend c (some (m, n)) = some (c ∷ m, n)

  -- `.` is any character but a newline
  abbrev pub any_char : Char → Bool
  any_char c = not (nat_eq (code c) 10)

  -- a P at this place, when no later one matches
  abbrev pub or_here : Char → String → Option (String × String) → Option (String × String)
  or_here c s (some r) = some r
  or_here c s none = if nat_eq (code c) b'P' then prepend c (digits_and_serial s) else none

  -- `.*P\d{3}` and `\d+`: the greedy `.*` prefers the latest P
  unfoldable pub match_rest : String → Option (String × String)
  match_rest [] = none
  match_rest (c ∷ s) =
      let later = prepend c (match_rest s) in or_here c s (if any_char c then later else none)

  -- COMPACT_VALUE_PATTERN.fullmatch, whose `.+` takes a character first
  unfoldable pub match_compact : String → Option (String × String)
  match_compact [] = none
  match_compact (c ∷ s) = if any_char c then prepend c (match_rest s) else none

  -- `_split_compact_payload`
  unfoldable pub split_compact_payload : String → Checked ParseError (String × String)
  split_compact_payload text = elim (match_compact text) [
    | none ↦ reject no_compact_match
    | some r ↦ accept r
  ]

  abbrev is_empty : String → Bool
  is_empty s = s == ""

  -- the tests on the model and the serial
  unfoldable pub check_parts :
      String → String × String → Checked ParseError (String × String × String)
  check_parts table (model, serial) =
      if is_empty model
      then reject no_model
      else if is_empty serial || not (all is_digit serial)
      then reject bad_serial
      else accept (model, serial, table)

  -- `_split_message_value`, on the stripped value
  unfoldable pub split_stripped : String → Checked ParseError (String × String × String)
  unfolding check_parts
  split_stripped value =
      let table = last_three value in
      let rest = all_but_last_three value in
      if supported_table table
      then ((if has_space rest then split_spaced_payload rest else split_compact_payload rest)
          >>= check_parts table)
      else reject no_table

  unfoldable pub split_message_value : String → Checked ParseError (String × String × String)
  split_message_value value = split_stripped (strip value)

  unfoldable pub parse_value : String → String → Checked ParseError ParsedPlcMessage
  parse_value message_type value = split_message_value value >>= λ parts. accept (record {
    message_type = message_type;
    model_number = parts.0;
    serial_number = parts.1;
    table_number = parts.2;
  })

  abbrev parse_entry : String → Json → Checked ParseError ParsedPlcMessage
  parse_entry message_type (str value) =
      if supported_type message_type
      then parse_value message_type value
      else reject (unsupported_type message_type)
  parse_entry message_type _ =
      if supported_type message_type
      then reject (not_a_string message_type)
      else reject (unsupported_type message_type)

  abbrev parse_fields : Fields → Checked ParseError ParsedPlcMessage
  parse_fields end = reject not_one_field
  parse_fields (field k v end) = parse_entry k v
  parse_fields (field k v (field k' v' fs)) = reject not_one_field

  -- `_load_json_object` and what follows
  unfoldable pub parse_loaded : Checked String Json → Checked ParseError ParsedPlcMessage
  unfolding parse_value
  parse_loaded (reject message) = reject (malformed_json message)
  parse_loaded (accept (obj fs)) = parse_fields fs
  parse_loaded (accept _) = reject not_an_object

  unfoldable pub parse_plc_message : Codec → Payload → Checked ParseError ParsedPlcMessage
  unfolding parse_loaded
  parse_plc_message codec (not_utf8 shown) = reject invalid_utf8
  parse_plc_message codec (utf8 text) = parse_loaded (codec.loads text)
