-- ===== src/Command/Examples.antt =====
-- The command contract on concrete payloads.
use blackbear_edge_bridge.Prelude.{◌≡◌, refl, ◌↔◌}
use blackbear_edge_bridge.Errors.{accept, reject}
use blackbear_edge_bridge.Json.{str, obj, end, field}
use blackbear_edge_bridge.Command.Validate.{
  bad_table_value, Command, validate_plc_command, validate_entry,
}
use blackbear_edge_bridge.Command.Exact.{IsCommand, validate_exact}

abbrev run_table : Command
run_table = record { key = "T02"; value = "R" }

validate_exact_example :
    (validate_plc_command (obj (field "T02" (str "R") end)) ≡ accept run_table)
    ↔ ((obj (field "T02" (str "R") end) ≡ obj (field "T02" (str "R") end)) × IsCommand run_table)
validate_exact_example = validate_exact (obj (field "T02" (str "R") end)) run_table

unknown_letter :
    validate_plc_command (obj (field "T02" (str "X") end)) ≡ reject (bad_table_value "T02")
unfolding validate_plc_command validate_entry
unknown_letter = refl
