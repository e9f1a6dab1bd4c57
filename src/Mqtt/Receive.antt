-- ===== src/Mqtt/Receive.antt =====
-- `_on_message` and `_handle_duplicate_message` of app/mqtt_client.py. ast.literal_eval of a legacy
-- response is a parameter, as are the json module, SHA-256 and the clock.
use blackbear_edge_bridge.Prelude.{
  ℕ, String, Option, none, some, List, [], ◌∷◌, ◌++◌, ◌==◌, if◌then◌else◌,
}
use blackbear_edge_bridge.Errors.{Result, ok, raise, Checked, accept, reject}
use blackbear_edge_bridge.Json.{Json, obj, Fields, get, Codec}
use blackbear_edge_bridge.Plc.Parser.{
  Unicode, Payload, utf8, not_utf8, ParseError, ParsedPlcMessage, parse_plc_message,
}
use blackbear_edge_bridge.Queue.Message.{
  is_completed, SavedMessage, MessageRecord, Messages, get_message_by_id, get_message_by_hash,
}
use blackbear_edge_bridge.Queue.Save.{Incoming, save_message}
use blackbear_edge_bridge.Queue.Replay.{AckReplayAttempt, record_ack_replay_attempt}
use blackbear_edge_bridge.Worker.Response.{is_true, ack_of}

-- the table, the ACKs handed to `publish_ack`, and the messages handed to the handler, oldest first
pub record Receiver : Type 0 where
  pub messages : Messages
  pub acks : List String
  pub handled : List ParsedPlcMessage

abbrev as_object : Option Json → Option Fields
as_object (some (obj fs)) = some fs
as_object _ = none

module _ (unicode : Unicode) (codec : Codec) (literal_eval : String → Option Json)
    (sha256 : String → String) where
  abbrev loaded : Checked String Json → String → Option Json
  loaded (accept v) text = some v
  loaded (reject e) text = literal_eval text

  unfoldable pub parse_stored_odoo_response : Option String → Option Fields
  parse_stored_odoo_response none = none
  parse_stored_odoo_response (some text) =
      if text == "" then none else as_object (loaded (codec.loads text) text)

  -- the ACK of a stored response with success, by `extract_stored_ack`
  abbrev pub ack_of_response : Option Fields → Option String
  ack_of_response none = none
  ack_of_response (some response) =
      if is_true (get "success" response) then ack_of (get "result" response) else none

  abbrev pub publish_if_allowed :
      String → Receiver → Result AckReplayAttempt × Messages → Result (Unit {0}) × Receiver
  publish_if_allowed ack s (raise e, q) = (raise e, record s { messages = q })
  publish_if_allowed ack s (ok attempt, q) =
      let s' : Receiver = record s { messages = q } in
      (ok tt, if attempt.allowed then record s' { acks = s'.acks ++ ack ∷ [] } else s')

  abbrev pub replay_ack :
      MessageRecord → ℕ → Option String → Receiver → Result (Unit {0}) × Receiver
  replay_ack r now none s = (ok tt, s)
  replay_ack r now (some ack) s =
      publish_if_allowed ack s (record_ack_replay_attempt r.message_hash now s.messages)

  abbrev pub replay_record : Option MessageRecord → ℕ → Receiver → Result (Unit {0}) × Receiver
  replay_record none now s = (ok tt, s)
  replay_record (some r) now s =
      if is_completed r.status
      then replay_ack r now (ack_of_response (parse_stored_odoo_response r.odoo_response)) s
      else (ok tt, s)

  abbrev pub by_id_or_hash : Option MessageRecord → Option MessageRecord → Option MessageRecord
  by_id_or_hash none by_hash = by_hash
  by_id_or_hash (some r) by_hash = some r

  unfoldable pub handle_duplicate_message :
      SavedMessage → ℕ → Receiver → Result (Unit {0}) × Receiver
  handle_duplicate_message saved now s =
      replay_record
        (by_id_or_hash (get_message_by_id saved.id s.messages)
          (get_message_by_hash saved.message_hash s.messages))
        now s

  abbrev pub after_save :
      ParsedPlcMessage
      → ℕ
      → Receiver
      → Result SavedMessage × Messages
      → Result (Unit {0}) × Receiver
  after_save parsed now s (raise e, q) = (raise e, record s { messages = q })
  after_save parsed now s (ok saved, q) =
      let s' : Receiver = record s { messages = q } in
      if saved.inserted
      then (ok tt, record s' { handled = s'.handled ++ parsed ∷ [] })
      else handle_duplicate_message saved now s'

  abbrev raw_of : Payload → String
  raw_of (utf8 text) = text
  raw_of (not_utf8 shown) = shown

  abbrev pub incoming_of : String → Payload → ParsedPlcMessage → Incoming
  incoming_of topic payload parsed = record {
    topic = topic;
    raw_payload = raw_of payload;
    message_type = parsed.message_type;
    table_no = parsed.table_number;
    model = parsed.model_number;
    serial = parsed.serial_number;
  }

  abbrev pub after_parse :
      String
      → Payload
      → ℕ
      → ℕ
      → Checked ParseError ParsedPlcMessage
      → Receiver
      → Result (Unit {0}) × Receiver
  after_parse topic payload now later (reject e) s = (ok tt, s)
  after_parse topic payload now later (accept parsed) s =
      after_save parsed later s
        (save_message sha256 now (incoming_of topic payload parsed) s.messages)

  -- `now` is the time of the save and `later` that of a replay
  unfoldable pub on_message : String → Payload → ℕ → ℕ → Receiver → Result (Unit {0}) × Receiver
  on_message topic payload now later s =
      after_parse topic payload now later (parse_plc_message unicode codec payload) s
