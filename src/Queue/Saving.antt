-- ===== src/Queue/Saving.antt =====
-- What `save_message` promises its caller.
use blackbear_edge_bridge.Prelude.{
  ℕ, String, ◌≡◌, refl, ap, sym, ◌∙◌, false, none, some, [], ◌∷◌, ◌++◌, arith, select_one,
  select_one-append_none, select_one-holds, eq_refl, eq_iff, Option-cases, inl, inr,
}
use blackbear_edge_bridge.Errors.{ok}
use blackbear_edge_bridge.Time.{format_timestamp}
use blackbear_edge_bridge.Queue.Message.{
  SavedMessage, MessageRecord, Messages, has_hash, get_message_by_hash,
}
use blackbear_edge_bridge.Queue.Save.{
  Incoming, generate_message_hash, new_row, save_message, save_fresh, save_duplicate, duplicate_of,
}

-- a row found by a hash has it
found_hash :
    (h : String) (q : Messages) (r : MessageRecord)
    → select_one (has_hash h) q.rows ≡ some r
    → r.message_hash ≡ h
found_hash h q r e = (eq_iff r.message_hash h).0 (select_one-holds (has_hash h) q.rows r e)

module _ (sha256 : String → String) where
  abbrev hash_of : Incoming → String
  hash_of m = generate_message_hash sha256 m.topic m.raw_payload

  -- `save_message` never raises: the unique constraint does not fail after the look-up, and what it
  -- returns is the row that a look-up by the message's hash then finds.
  pub save-stored :
      (now : ℕ) (m : Incoming) (q : Messages)
      → (s : SavedMessage) × (r : MessageRecord) × ((save_message sha256 now m q).0 ≡ ok s)
        × (get_message_by_hash (hash_of m) (save_message sha256 now m q).1 ≡ some r)
        × (s.id ≡ r.id)
        × (s.message_hash ≡ hash_of m)
        × (s.status ≡ r.status)
  unfolding get_message_by_hash
  save-stored now m q = elim (Option-cases (select_one (has_hash (hash_of m)) q.rows)) [
    | inl e ↦ rw (save_fresh sha256 now m q e) (
      _,
      new_row q.next_id (hash_of m) (format_timestamp now) m,
      refl,
      found_after now m q e,
      refl,
      refl,
      refl,
    )
    | inr (r, e) ↦
        rw (save_duplicate sha256 now m q r e)
          (duplicate_of r, r, refl, e, refl, found_hash (hash_of m) q r e, refl)
  ]
    where
      found_after :
          (now : ℕ) (m : Incoming) (q : Messages)
          → select_one (has_hash (hash_of m)) q.rows ≡ none
          → select_one
              (has_hash (hash_of m))
              (q.rows ++ new_row q.next_id (hash_of m) (format_timestamp now) m ∷ [])
            ≡ some (new_row q.next_id (hash_of m) (format_timestamp now) m)
      found_after now m q e =
          rw (select_one-append_none (has_hash (hash_of m)) q.rows _ e) (rw eq_refl)

  -- Saving a message again, with the same topic and payload, whatever the time and the parsed fields,
  -- returns the stored id and hash as a duplicate and leaves the table as it was.
  pub save_again :
      (now later : ℕ) (m m' : Incoming) (q : Messages)
      → m'.topic ≡ m.topic
      → m'.raw_payload ≡ m.raw_payload
      → (s : SavedMessage) × ((save_message sha256 now m q).0 ≡ ok s)
        × (save_message sha256 later m' (save_message sha256 now m q).1
            ≡ (ok (record s { inserted = false }), (save_message sha256 now m q).1))
  unfolding get_message_by_hash
  save_again now later m m' q same_topic same_payload =
      let (s, r, saved, found, same_id, own_hash, same_status) = save-stored now m q in
      let after = (save_message sha256 now m q).1 in
      (
        s,
        saved,
        save_duplicate sha256 later m' after r (rw (same_hash m m' same_topic same_payload) found)
            ∙ ap (λ d. (ok d, after))
                (as_duplicate s r same_id (own_hash ∙ sym (found_hash (hash_of m) after r found))
                  same_status),
      )
    where
      same_hash :
          (m m' : Incoming)
          → m'.topic ≡ m.topic
          → m'.raw_payload ≡ m.raw_payload
          → hash_of m' ≡ hash_of m
      same_hash m m' e f = cc

      as_duplicate :
          (s : SavedMessage) (r : MessageRecord)
          → s.id ≡ r.id
          → s.message_hash ≡ r.message_hash
          → s.status ≡ r.status
          → duplicate_of r ≡ record s { inserted = false }
      as_duplicate s r i h t = ground arith
