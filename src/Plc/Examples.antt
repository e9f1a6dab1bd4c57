-- ===== src/Plc/Examples.antt =====
-- The parser on concrete payloads, with the ASCII digits.
use Prim.Native.String.{◌∷◌, ◌++◌}
use blackbear_edge_bridge.Prelude.{
  String, ◌≡◌, ◌≢◌, refl, false, arith, eq_iff, ◌==◌, if◌then◌else◌, none,
}
use blackbear_edge_bridge.Errors.{accept, reject}
use blackbear_edge_bridge.Text.{
  is_space, blank, rstrip, last_three, all_but_last_three, strip, has_space, rsplit_space,
}
use blackbear_edge_bridge.Json.{str, obj, end, field, Codec}
use blackbear_edge_bridge.Plc.Parser.{
  utf8, ParsedPlcMessage, split_message_value, parse_plc_message, parse_value, parse_loaded,
  check_parts, split_stripped, split_spaced_payload,
}
use blackbear_edge_bridge.Plc.Ascii.{ascii}
use blackbear_edge_bridge.Plc.Sound.{IsWellFormed, parse-IsWellFormed}
use blackbear_edge_bridge.Plc.RoundTrip.{spaced_round_trip}
use blackbear_edge_bridge.Plc.Compact.{letter_p, compact_round_trip}

-- a decoder that knows one text
abbrev one_text : Codec
one_text = record {
  loads = λ t.
      if t == "m" then accept (obj (field "MN" (str "AB 17T01") end)) else reject "Expecting value";
  dumps = λ v. none;
}

abbrev a_message : ParsedPlcMessage
a_message = record {
  message_type = "MN";
  model_number = "AB";
  serial_number = "17";
  table_number = "T01";
}

parsed : parse_plc_message ascii one_text (utf8 "m") ≡ accept a_message
unfolding parse_plc_message parse_loaded parse_value split_message_value split_stripped check_parts
    strip rstrip last_three has_space split_spaced_payload rsplit_space is_space all_but_last_three
parsed = refl

parse-IsWellFormed_example : IsWellFormed ascii a_message
parse-IsWellFormed_example = parse-IsWellFormed ascii one_text (utf8 "m") a_message parsed

not_empty_serial : ◌≢◌ {A = String} "17" ""
not_empty_serial = ground (arith, eq_iff "17" "")

kept_model : rstrip "AB C" ≡ "AB C"
unfolding rstrip is_space
kept_model = refl

no_space_first : is_space "A" ≡ false
unfolding is_space
no_space_first = refl

spaced_round_trip_example :
    split_message_value ascii (("AB C" ++ (blank ∷ "17")) ++ "T02") ≡ accept ("AB C", "17", "T02")
spaced_round_trip_example =
    spaced_round_trip ascii "A" "B C" "17" "T02" no_space_first kept_model not_empty_serial refl
      refl

no_space : has_space "AB" ≡ false
unfolding has_space
no_space = refl

compact_round_trip_example :
    split_message_value ascii (("AB" ++ (letter_p ∷ "00117")) ++ "T03")
    ≡ accept ("AB" ++ (letter_p ∷ "001"), "17", "T03")
compact_round_trip_example =
    compact_round_trip ascii "A" "B" "0" "0" "1" "1" "7" "T03" no_space_first no_space refl refl
      refl refl
