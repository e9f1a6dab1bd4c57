-- ===== src/Production/Once.antt =====
-- Completions: a message is completed with its production recorded, or nothing happens; and sequences
-- of completions and reconciliations.
use blackbear_edge_bridge.Prelude.{
  ℕ, Bool, ◌≡◌, ◌⊎◌, refl, sym, String, true, false, Option, none, some, List, [], ◌∷◌, ◌==◌,
  nat_eq, nat_eq_iff, ℤ, pos_part, is_nonpos, Bool-cases, Option-cases, inl, inr, select,
  select_one, select_one-holds, select_one-update, take, count, update,
}
use blackbear_edge_bridge.Errors.{ok, raise, message_not_found}
use blackbear_edge_bridge.Json.{Codec}
use blackbear_edge_bridge.Queue.Message.{completed, MessageRecord, has_id, get_message_by_id}
use blackbear_edge_bridge.Queue.Mark.{Completion, complete_message, completed_row, update_one}
use blackbear_edge_bridge.Production.Tables.{Production}
use blackbear_edge_bridge.Production.Complete.{
  Database, given, written, produced_by, record_ack, after_update, complete_found, mark_completed,
  nothing_reconciled, awaits_summary, reconcile_completed_production_records,
}
use blackbear_edge_bridge.Production.Balance.{IsBalanced}
use blackbear_edge_bridge.Production.Applied.{upsert-IsBalanced}
use blackbear_edge_bridge.Production.Recorded.{IsRecorded, upsert-IsRecorded}
use blackbear_edge_bridge.Production.Reconcile.{rows-IsBalanced}

module _ (codec : Codec) (i : ℕ) (c : Completion) (machine_id : String) (now : ℕ) where
  pub complete_none :
      (db : Database)
      → select_one (has_id i) db.messages.rows ≡ none
      → mark_completed codec i c machine_id now db ≡ (raise (message_not_found i), db)
  unfolding mark_completed
  complete_none db h = rw (h, complete_found) refl

  pub complete_many :
      (db : Database) (source : MessageRecord)
      → select_one (has_id i) db.messages.rows ≡ some source
      → nat_eq (count (has_id i) db.messages.rows) 1 ≡ false
      → mark_completed codec i c machine_id now db ≡ (raise (message_not_found i), db)
  unfolding mark_completed complete_message update_one
  complete_many db source h n = rw (h, complete_found) (rw (n, after_update) refl)

  pub complete_one :
      (db : Database) (source : MessageRecord)
      → select_one (has_id i) db.messages.rows ≡ some source
      → nat_eq (count (has_id i) db.messages.rows) 1 ≡ true
      → mark_completed codec i c machine_id now db ≡ (
        ok tt,
        record {
          messages = record db.messages {
            rows = update (has_id i) (completed_row (written codec c)) db.messages.rows;
          };
          production = record_ack codec source machine_id (written codec c) now c.ack db.production;
        },
      )
  unfolding mark_completed complete_message update_one
  complete_one db source h n = rw (h, complete_found) (rw (n, after_update) refl)

  -- the record of the message, when the completion has an acknowledgement
  recorded :
      (source : MessageRecord) (w : Completion) (a : Option String) (d : Production)
      → source.id ≡ i
      → IsBalanced d
      → ((given a ≡ false) × (record_ack codec source machine_id w now a d ≡ d))
        ⊎ ((ack : String) × (a ≡ some ack)
            × IsRecorded i w.completed_at ack w.odoo_response d
                (record_ack codec source machine_id w now a d))
  recorded source w none d e b = inl (refl, refl)
  recorded source w (some a) d e b = elim (Bool-cases (a == "")) [
    | inl n ↦ rw n (inl (refl, refl))
    | inr n ↦ rw n (
        inr (
          a,
          refl,
          rw (sym e) (upsert-IsRecorded (produced_by codec source machine_id w a) now d b),
        ))
  ]

  -- On balanced tables, either the call raises and the database is as before, or the message is COMPLETED
  -- with the acknowledgement. If there is one, its production record then bears the acknowledgement, the
  -- response and the time of the completion and is marked, and the summaries count one piece more, unless
  -- the message was marked before; if there is none, the production tables are as before.
  pub completed_or_unchanged :
      (db : Database)
      → IsBalanced db.production
      → let (result, after) = mark_completed codec i c machine_id now db in
        ((result ≡ raise (message_not_found i)) × (after ≡ db))
        ⊎ ((result ≡ ok tt)
            × ((m : MessageRecord) × (get_message_by_id i after.messages ≡ some m)
                × (m.status ≡ completed)
                × (m.ack ≡ c.ack))
            × (((given c.ack ≡ false) × (after.production ≡ db.production))
                ⊎ ((ack : String) × (c.ack ≡ some ack)
                    × IsRecorded i c.completed_at ack c.odoo_response db.production
                        after.production)))
  unfolding get_message_by_id
  completed_or_unchanged db b = elim (Option-cases (select_one (has_id i) db.messages.rows)) [
    | inl e ↦ rw (complete_none db e) (inl (refl, refl))
    | inr (source, e) ↦ elim (Bool-cases (nat_eq (count (has_id i) db.messages.rows) 1)) [
      | inr n ↦ rw (complete_many db source e n) (inl (refl, refl))
      | inl n ↦
          let held = select_one-holds (has_id i) db.messages.rows source e in
          let same = (nat_eq_iff source.id i).0 held in
          let row = completed_row (written codec c) in
          let found : select_one (has_id i) (update (has_id i) row db.messages.rows)
              ≡ some (row source) =
            rw (select_one-update (has_id i) (has_id i) row (λ x. refl) db.messages.rows)
              (rw e (rw held refl)) in
          rw (complete_one db source e n) (
            inr (
              refl,
              (row source, found, refl, refl),
              recorded source (written codec c) c.ack db.production same b,
            ))
    ]
  ]

  ack-IsBalanced :
      (source : MessageRecord) (w : Completion) (a : Option String) (d : Production)
      → IsBalanced d
      → IsBalanced (record_ack codec source machine_id w now a d)
  ack-IsBalanced source w none d b = b
  ack-IsBalanced source w (some a) d b = elim (Bool-cases (a == "")) [
    | inl n ↦ rw n b
    | inr n ↦ rw n (upsert-IsBalanced (produced_by codec source machine_id w a) now d b)
  ]

  completed-IsBalanced :
      (db : Database)
      → IsBalanced db.production
      → IsBalanced (mark_completed codec i c machine_id now db).1.production
  completed-IsBalanced db b = elim (Option-cases (select_one (has_id i) db.messages.rows)) [
    | inl e ↦ rw (complete_none db e) b
    | inr (source, e) ↦ elim (Bool-cases (nat_eq (count (has_id i) db.messages.rows) 1)) [
      | inr n ↦ rw (complete_many db source e n) b
      | inl n ↦
          rw (complete_one db source e n)
            (ack-IsBalanced source (written codec c) c.ack db.production b)
    ]
  ]

-- the calls that write the production tables
pub data ProductionCall : Type 0 where
  complete : ℕ → Completion → String → ℕ → ProductionCall
  -- with the rows whose upsert raises
  reconcile : (MessageRecord → Bool) → String → ℤ → ℕ → ProductionCall

abbrev pub call : Codec → ProductionCall → Database → Database
call codec (complete i c machine_id now) db = (mark_completed codec i c machine_id now db).1
call codec (reconcile raises machine_id limit now) db =
    (reconcile_completed_production_records codec raises machine_id limit now db).1

abbrev pub calls : Codec → List ProductionCall → Database → Database
calls codec [] db = db
calls codec (o ∷ os) db = calls codec os (call codec o db)

reconciled-IsBalanced :
    (codec : Codec) (raises : MessageRecord → Bool) (machine_id : String) (limit : ℤ) (now : ℕ)
    (db : Database)
    → IsBalanced db.production
    → IsBalanced
        (reconcile_completed_production_records codec raises machine_id limit now db).1.production
unfolding reconcile_completed_production_records
reconciled-IsBalanced codec raises machine_id limit now db b = elim (Bool-cases (is_nonpos limit)) [
  | inl e ↦ rw e b
  | inr e ↦ rw e (
      rows-IsBalanced codec raises machine_id now
        (take (pos_part limit) (select (awaits_summary codec db.production) db.messages.rows))
        (nothing_reconciled, db.production) b)
]

-- Any sequence of completions and reconciliations keeps a balanced database balanced: the summaries count
-- exactly the records that are marked, each message has at most one record, and summary ids stay apart.
pub calls-IsBalanced :
    (codec : Codec) (os : List ProductionCall) (db : Database)
    → IsBalanced db.production
    → IsBalanced (calls codec os db).production
calls-IsBalanced codec [] db b = b
calls-IsBalanced codec (complete i c machine_id now ∷ os) db b =
    calls-IsBalanced codec os (mark_completed codec i c machine_id now db).1
      (completed-IsBalanced codec i c machine_id now db b)
calls-IsBalanced codec (reconcile raises machine_id limit now ∷ os) db b =
    calls-IsBalanced codec os
      (reconcile_completed_production_records codec raises machine_id limit now db).1
      (reconciled-IsBalanced codec raises machine_id limit now db b)
