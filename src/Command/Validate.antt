-- ===== src/Command/Validate.antt =====
-- `validate_plc_command` of app/command_parser.py. The payload is a value that json.loads gave, so
-- its keys are strings.
use blackbear_edge_bridge.Prelude.{String, Bool, false, ◌||◌, List, [], ◌∷◌, ◌==◌, if◌then◌else◌}
use blackbear_edge_bridge.Errors.{Checked, accept, reject}
use blackbear_edge_bridge.Json.{Json, str, obj, Fields, end, field}

-- CommandValidationError, by its message
pub data CommandError : Type 0 where
  not_an_object not_one_key value_not_a_string : CommandError
  empty_value bad_table_value : String → CommandError
  bad_packet_value : CommandError
  unsupported_key : String → CommandError

pub record Command : Type 0 where
  pub key : String
  pub value : String

abbrev pub one_of : List String → String → Bool
one_of [] s = false
one_of (t ∷ ts) s = s == t || one_of ts s

abbrev pub print_job_keys : List String
print_job_keys = "messt01" ∷ "messt02" ∷ "messt03" ∷ []

abbrev pub table_control_keys : List String
table_control_keys = "T01" ∷ "T02" ∷ "T03" ∷ []

abbrev pub table_control_values : List String
table_control_values = "P" ∷ "R" ∷ "D" ∷ []

abbrev pub loose_packet_values : List String
loose_packet_values = "FT01" ∷ "FT02" ∷ "FT03" ∷ []

-- the tests on a key and a string value
unfoldable pub validate_entry : String → String → Checked CommandError Command
validate_entry key value =
    let same : Command = record { key = key; value = value } in
    if one_of print_job_keys key
    then (if value == "" then reject (empty_value key) else accept same)
    else if one_of table_control_keys key
    then (if one_of table_control_values value then accept same else reject (bad_table_value key))
    else if key == "LP"
    then (if one_of loose_packet_values value then accept same else reject bad_packet_value)
    else reject (unsupported_key key)

abbrev validate_value : String → Json → Checked CommandError Command
validate_value key (str value) = validate_entry key value
validate_value key _ = reject value_not_a_string

abbrev validate_fields : Fields → Checked CommandError Command
validate_fields end = reject not_one_key
validate_fields (field key value end) = validate_value key value
validate_fields (field key value (field k v fs)) = reject not_one_key

unfoldable pub validate_plc_command : Json → Checked CommandError Command
unfolding validate_entry
validate_plc_command (obj fs) = validate_fields fs
validate_plc_command _ = reject not_an_object
