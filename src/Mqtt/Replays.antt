-- ===== src/Mqtt/Replays.antt =====
-- When a received message makes the client replay an ACK.
use blackbear_edge_bridge.Prelude.{
  ℕ, ◌≡◌, ◌⊎◌, refl, ap, String, true, Option, none, some, List, [], ◌∷◌, ◌++◌, Bool-cases,
  Option-cases, inl, inr, select_one,
}
use blackbear_edge_bridge.Errors.{Result, ok, raise, Checked, accept, reject}
use blackbear_edge_bridge.Json.{Json, Codec}
use blackbear_edge_bridge.Plc.Parser.{
  Unicode, Payload, ParseError, ParsedPlcMessage, parse_plc_message,
}
use blackbear_edge_bridge.Queue.Message.{
  is_completed, MessageRecord, Messages, has_hash, get_message_by_id, get_message_by_hash,
}
use blackbear_edge_bridge.Queue.Save.{generate_message_hash, save_duplicate, save_fresh}
use blackbear_edge_bridge.Queue.WellFormed.{IsValid}
use blackbear_edge_bridge.Queue.Lookup.{found_by_id}
use blackbear_edge_bridge.Queue.Replay.{AckReplayAttempt, record_ack_replay_attempt}
use blackbear_edge_bridge.Mqtt.Receive.{
  Receiver, parse_stored_odoo_response, ack_of_response, publish_if_allowed, replay_ack,
  replay_record, by_id_or_hash, handle_duplicate_message, after_save, incoming_of, after_parse,
  on_message,
}

module _ (unicode : Unicode) (codec : Codec) (literal_eval : String → Option Json)
    (sha256 : String → String) where
  -- the row that a look-up by the hash of a message finds, and a look-up by its id
  abbrev pub Repeats : String → Payload → Messages → MessageRecord → Type 0
  Repeats topic payload q r =
      ((p : ParsedPlcMessage) × (parse_plc_message unicode codec payload ≡ accept p)
        × (get_message_by_hash
              (generate_message_hash sha256 topic
                (incoming_of unicode codec literal_eval sha256 topic payload p).raw_payload)
              q
            ≡ some r))
      × (get_message_by_id r.id q ≡ some r)

  -- The message repeats a stored one, that is COMPLETED, the ACK is that of its response, and the throttle
  -- allows it.
  pub record IsReplay (topic : String) (payload : Payload) (now : ℕ) (q : Messages) (ack : String)
      : Type 0 where
    pub original : MessageRecord
    pub repeats : Repeats topic payload q original
    pub is_done : is_completed original.status ≡ true
    pub is_stored :
        ack_of_response unicode codec literal_eval sha256
          (parse_stored_odoo_response unicode codec literal_eval sha256 original.odoo_response)
        ≡ some ack
    pub attempt : AckReplayAttempt
    pub is_recorded : (record_ack_replay_attempt original.message_hash now q).0 ≡ ok attempt
    pub is_allowed : attempt.allowed ≡ true

  -- what a message may publish
  abbrev pub Replays : String → Payload → ℕ → List String → Messages → Receiver → Type 0
  Replays topic payload now acks q after =
      (after.acks ≡ acks)
      ⊎ ((ack : String) × (after.acks ≡ acks ++ ack ∷ []) × IsReplay topic payload now q ack)

  module _ (topic : String) (payload : Payload) where
    allowed-Replays :
        (r : MessageRecord) (now : ℕ) (ack : String) (s : Receiver)
        (a : Result AckReplayAttempt × Messages)
        → Repeats topic payload s.messages r
        → is_completed r.status ≡ true
        → ack_of_response unicode codec literal_eval sha256
            (parse_stored_odoo_response unicode codec literal_eval sha256 r.odoo_response)
          ≡ some ack
        → record_ack_replay_attempt r.message_hash now s.messages ≡ a
        → Replays topic payload now s.acks s.messages
            (publish_if_allowed unicode codec literal_eval sha256 ack s a).1
    allowed-Replays r now ack s (raise e, q) w d h k = inl refl
    allowed-Replays r now ack s (ok attempt, q) w d h k = elim (Bool-cases attempt.allowed) [
      | inl t ↦ inr (
        ack,
        simp t refl,
        record {
          original = r;
          repeats = w;
          is_done = d;
          is_stored = h;
          attempt = attempt;
          is_recorded = ap (λ p. p.0) k;
          is_allowed = t;
        },
      )
      | inr f ↦ inl (simp f refl)
    ]

    ack-Replays :
        (r : MessageRecord) (now : ℕ) (a : Option String) (s : Receiver)
        → Repeats topic payload s.messages r
        → is_completed r.status ≡ true
        → ack_of_response unicode codec literal_eval sha256
            (parse_stored_odoo_response unicode codec literal_eval sha256 r.odoo_response)
          ≡ a
        → Replays topic payload now s.acks s.messages
            (replay_ack unicode codec literal_eval sha256 r now a s).1
    ack-Replays r now none s w d h = inl refl
    ack-Replays r now (some ack) s w d h = allowed-Replays r now ack s _ w d h refl

    record-Replays :
        (r : MessageRecord) (now : ℕ) (s : Receiver)
        → Repeats topic payload s.messages r
        → Replays topic payload now s.acks s.messages
            (replay_record unicode codec literal_eval sha256 (some r) now s).1
    record-Replays r now s w = elim (Bool-cases (is_completed r.status)) [
      | inl t ↦ simp t (ack-Replays r now _ s w t refl)
      | inr f ↦ simp f (inl refl)
    ]

    parse-Replays :
        (now later : ℕ) (o : Checked ParseError ParsedPlcMessage) (s : Receiver)
        → IsValid s.messages
        → parse_plc_message unicode codec payload ≡ o
        → Replays topic payload later s.acks s.messages
            (after_parse unicode codec literal_eval sha256 topic payload now later o s).1
    unfolding handle_duplicate_message get_message_by_hash get_message_by_id
    parse-Replays now later (reject e) s v parsed = inl refl
    parse-Replays now later (accept p) s v parsed =
        let m = incoming_of unicode codec literal_eval sha256 topic payload p in
        let h = generate_message_hash sha256 topic m.raw_payload in
        elim (Option-cases (select_one (has_hash h) s.messages.rows)) [
          | inl e ↦ rw (save_fresh sha256 now m s.messages e, after_save) (inl refl)
          | inr (r, e) ↦
              let (by_id, _) =
                found_by_id (has_hash h) 1 s.messages.next_id s.messages.rows r v.ordered e in
              rw (save_duplicate sha256 now m s.messages r e, after_save)
                (rw (by_id, by_id_or_hash) (record-Replays r later s ((p, parsed, e), by_id)))
        ]

  -- In a well-formed table, a received message publishes at most one ACK, and that is the ACK of the stored
  -- response of the message that it repeats: a stored row with its hash, that is COMPLETED, and whose
  -- replay the throttle allows.
  pub on_message-Replays :
      (topic : String) (payload : Payload) (now later : ℕ) (s : Receiver)
      → IsValid s.messages
      → Replays topic payload later s.acks s.messages
          (on_message unicode codec literal_eval sha256 topic payload now later s).1
  unfolding on_message
  on_message-Replays topic payload now later s v =
      parse-Replays topic payload now later (parse_plc_message unicode codec payload) s v refl

  abbrev hash_of : String → String → String
  hash_of = generate_message_hash sha256
