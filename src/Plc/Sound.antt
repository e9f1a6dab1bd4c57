-- ===== src/Plc/Sound.antt =====
-- What a parsed PLC message satisfies.
use blackbear_edge_bridge.Prelude.{
  String, ◌≡◌, ◌≢◌, refl, sym, true, arith, eq_iff, Bool-cases, inl, inr, if◌then◌else◌,
}
use blackbear_edge_bridge.Errors.{Checked, accept, reject, >>=-eq-accept}
use blackbear_edge_bridge.Text.{all, last_three, all_but_last_three, strip, has_space}
use blackbear_edge_bridge.Json.{Json, str, obj, end, field, Codec}
use blackbear_edge_bridge.Plc.Parser.{
  Unicode, Payload, utf8, not_utf8, ParseError, ParsedPlcMessage, supported_type, supported_table,
  split_spaced_payload, split_compact_payload, check_parts, split_stripped, split_message_value,
  parse_value, parse_loaded, parse_plc_message,
}

module _ (u : Unicode) where
  open u use {is_digit}

  -- the parts of a parsed value
  pub record IsWellFormed (p : ParsedPlcMessage) : Type 0 where
    pub type_supported : supported_type p.message_type ≡ true
    pub table_supported : supported_table p.table_number ≡ true
    pub has_model : p.model_number ≢ ""
    pub has_serial : p.serial_number ≢ ""
    pub serial_digits : all is_digit p.serial_number ≡ true

  parts_checked :
      (table model serial : String) (r : String × String × String)
      → check_parts u table (model, serial) ≡ accept r
      → (r ≡ (model, serial, table)) × (model ≢ "") × (serial ≢ "") × (all is_digit serial ≡ true)
  unfolding check_parts
  parts_checked table model serial r h = (
    ground (arith, h),
    λ e. ground (arith, eq_iff model "", h),
    λ e. ground (arith, eq_iff serial "", h),
    ground (arith, h),
  )

  value_checked :
      (value : String) (r : String × String × String)
      → split_stripped u value ≡ accept r
      → (r.2 ≡ last_three value)
        × (supported_table r.2 ≡ true)
        × (r.0 ≢ "")
        × (r.1 ≢ "")
        × (all is_digit r.1 ≡ true)
  unfolding split_stripped
  value_checked value r h = elim (Bool-cases (supported_table (last_three value))) [
    | inl t ↦
        let rest = all_but_last_three value in
        let (parts, split, checked) =
          >>=-eq-accept
            (if has_space rest then split_spaced_payload rest else split_compact_payload u rest)
            (check_parts u (last_three value)) (rw t at h) in
        let (same, model, serial, digits) =
          parts_checked (last_three value) parts.0 parts.1 r checked in
        rw same (refl, t, model, serial, digits)
    | inr t ↦ absurd (ground (arith, h, t))
  ]

  value_parsed :
      (t value : String) (p : ParsedPlcMessage)
      → supported_type t ≡ true
      → parse_value u t value ≡ accept p
      → IsWellFormed p
  unfolding parse_value split_message_value
  value_parsed t value p s h =
      let (r, split, made) = >>=-eq-accept (split_stripped u (strip value)) _ h in
      let (_, table, model, serial, digits) = value_checked (strip value) r split in
      as_parsed t r p s (table, model, serial, digits) made
    where
      of_parts : String → String × String × String → ParsedPlcMessage
      of_parts t r = record {
        message_type = t;
        model_number = r.0;
        serial_number = r.1;
        table_number = r.2;
      }

      accepted_eq :
          (a p : ParsedPlcMessage)
          → ◌≡◌ {A = Checked ParseError ParsedPlcMessage} (accept a) (accept p)
          → a ≡ p
      accepted_eq a p e = cc

      as_parsed :
          (t : String) (r : String × String × String) (p : ParsedPlcMessage)
          → supported_type t ≡ true
          → (supported_table r.2 ≡ true) × (r.0 ≢ "") × (r.1 ≢ "") × (all is_digit r.1 ≡ true)
          → ◌≡◌ {A = Checked ParseError ParsedPlcMessage} (accept (of_parts t r)) (accept p)
          → IsWellFormed p
      as_parsed t r p s (table, model, serial, digits) made =
          rw (sym (accepted_eq (of_parts t r) p made)) (record {
            type_supported = s;
            table_supported = table;
            has_model = model;
            has_serial = serial;
            serial_digits = digits;
          })

  loaded_parsed :
      (l : Checked String Json) (p : ParsedPlcMessage)
      → parse_loaded u l ≡ accept p
      → IsWellFormed p
  unfolding parse_loaded
  loaded_parsed (accept (obj (field t (str value) end))) p h =
      elim (Bool-cases (supported_type t)) [
        | inl s ↦ value_parsed t value p s (rw s at h)
        | inr s ↦ absurd (ground (arith, h, s))
      ]
  loaded_parsed (accept (obj (field t v end))) p h = absurd (ground (arith, h))
  loaded_parsed (accept (obj end)) p h = cc
  loaded_parsed (accept (obj (field k v (field k' v' fs)))) p h = cc
  loaded_parsed (accept v) p h = cc
  loaded_parsed (reject m) p h = cc

  -- A message that is parsed has a supported type and table, a model, and a serial of digits.
  pub parse-IsWellFormed :
      (codec : Codec) (payload : Payload) (p : ParsedPlcMessage)
      → parse_plc_message u codec payload ≡ accept p
      → IsWellFormed p
  unfolding parse_plc_message
  parse-IsWellFormed codec (utf8 text) p h = loaded_parsed (codec.loads text) p h
  parse-IsWellFormed codec (not_utf8 shown) p h = cc
