-- ===== src/Mqtt/Examples.antt =====
-- A duplicate of a completed message.
use blackbear_edge_bridge.Prelude.{
  arith, String, true, Option, none, some, [], ◌∷◌, ◌==◌, if◌then◌else◌,
}
use blackbear_edge_bridge.Errors.{accept, reject}
use blackbear_edge_bridge.Json.{Json, bool, str, obj, end, field, Codec}
use blackbear_edge_bridge.Plc.Parser.{utf8, ParsedPlcMessage}
use blackbear_edge_bridge.Plc.Ascii.{ascii}
use blackbear_edge_bridge.Queue.Message.{completed, MessageRecord}
use blackbear_edge_bridge.Queue.Save.{Incoming, new_row}
use blackbear_edge_bridge.Mqtt.Receive.{Receiver, on_message}
use blackbear_edge_bridge.Queue.WellFormed.{IsValid}
use blackbear_edge_bridge.Mqtt.Replays.{Replays, on_message-Replays}

abbrev response : Json
response = obj (field "success" (bool true) (field "result" (obj (field "ACK" (str "A1") end)) end))

-- a decoder that knows a message and a response
abbrev codec : Codec
codec = record {
  loads = λ t.
      if t == "m"
      then accept (obj (field "MN" (str "AB 17T01") end))
      else if t == "response"
      then accept response
      else reject "Expecting value";
  dumps = λ v. none;
}

abbrev no_literal : String → Option Json
no_literal t = none

abbrev identity : String → String
identity t = t

abbrev incoming : Incoming
incoming = record {
  topic = "plc";
  raw_payload = "m";
  message_type = "MN";
  table_no = "T01";
  model = "AB";
  serial = "17";
}

abbrev done : MessageRecord
done = record (new_row 1 "plcm" 5 incoming) { status = completed; odoo_response = some "response" }

abbrev receiver : Receiver
receiver = record { messages = record { rows = done ∷ []; next_id = 2 }; acks = []; handled = [] }

receiver-IsValid : IsValid receiver.messages
receiver-IsValid = record { ordered = (omega arith, omega arith); distinct = (tt, tt) }

abbrev parsed : ParsedPlcMessage
parsed = record {
  message_type = "MN";
  model_number = "AB";
  serial_number = "17";
  table_number = "T01";
}

on_message-Replays_example :
    Replays ascii codec no_literal identity "plc"
      (utf8 "m")
      9000000
      []
      receiver.messages
      (on_message ascii codec no_literal identity "plc" (utf8 "m") 8000000 9000000 receiver).1
on_message-Replays_example =
    on_message-Replays ascii codec no_literal identity "plc" (utf8 "m") 8000000 9000000 receiver
      receiver-IsValid
