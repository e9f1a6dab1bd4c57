-- ===== src/Production/Reconcile.antt =====
-- What a reconciliation scans, marks and leaves.
use blackbear_edge_bridge.Prelude.{
  ◌+◌, count, ℕ, zero, suc, ap, ◌≤◌, ◌≡◌, refl, String, Bool, true, false, Option, none, some, List,
  [], ◌∷◌, arith, ℤ, pos_part, is_nonpos, Bool-cases, inl, inr, select, take, length, All, All-map,
}
use blackbear_edge_bridge.Json.{Codec}
use blackbear_edge_bridge.Queue.Message.{MessageRecord}
use blackbear_edge_bridge.Production.Tables.{Production}
use blackbear_edge_bridge.Production.Upsert.{production_summary_applied}
use blackbear_edge_bridge.Production.Complete.{
  Database, ReconciliationResult, nothing_reconciled, awaits_summary, produced_again, is_set,
  values_of, row_values, reconcile_values, reconcile_row, reconcile_rows,
  reconcile_completed_production_records,
}
use blackbear_edge_bridge.Production.Balance.{IsBalanced}
use blackbear_edge_bridge.Production.Applied.{upsert-IsBalanced}
use blackbear_edge_bridge.Production.Marks.{upsert-applied, upsert-keeps_applied}

module _ (codec : Codec) where
  -- What a scanned row leaves: its message is marked, if the row has its three values.
  row-IsBalanced :
      (machine_id : String) (now : ℕ) (m : MessageRecord) (o : Option (ℕ × String × String))
      (s : ReconciliationResult × Production)
      → IsBalanced s.1
      → IsBalanced (reconcile_values codec machine_id now m o s).1
  row-IsBalanced machine_id now m none s b = b
  row-IsBalanced machine_id now m (some (t, response, ack)) s b =
      upsert-IsBalanced (produced_again codec m machine_id t response ack) now s.1 b

  pub rows-IsBalanced :
      (raises : MessageRecord → Bool) (machine_id : String) (now : ℕ) (ms : List MessageRecord)
      (s : ReconciliationResult × Production)
      → IsBalanced s.1
      → IsBalanced (reconcile_rows codec raises machine_id now ms s).1
  rows-IsBalanced raises machine_id now [] s b = b
  rows-IsBalanced raises machine_id now (m ∷ ms) s b =
      rows-IsBalanced raises machine_id now ms (reconcile_row codec raises machine_id now m s)
        (elim (Bool-cases (raises m)) [
          | inl t ↦ rw t b
          | inr f ↦ rw f (row-IsBalanced machine_id now m (row_values m) s b)
        ])

  -- the marks that the rows keep
  row-keeps :
      (machine_id : String) (now : ℕ) (m : MessageRecord) (o : Option (ℕ × String × String))
      (s : ReconciliationResult × Production) (i : ℕ)
      → production_summary_applied i s.1 ≡ true
      → production_summary_applied i (reconcile_values codec machine_id now m o s).1 ≡ true
  row-keeps machine_id now m none s i h = h
  row-keeps machine_id now m (some (t, response, ack)) s i h =
      upsert-keeps_applied (produced_again codec m machine_id t response ack) now s.1 i h

  rows-keeps :
      (raises : MessageRecord → Bool) (machine_id : String) (now : ℕ) (ms : List MessageRecord)
      (s : ReconciliationResult × Production) (i : ℕ)
      → production_summary_applied i s.1 ≡ true
      → production_summary_applied i (reconcile_rows codec raises machine_id now ms s).1 ≡ true
  rows-keeps raises machine_id now [] s i h = h
  rows-keeps raises machine_id now (m ∷ ms) s i h =
      rows-keeps raises machine_id now ms (reconcile_row codec raises machine_id now m s) i
        (elim (Bool-cases (raises m)) [
          | inl t ↦ rw t h
          | inr f ↦ rw f (row-keeps machine_id now m (row_values m) s i h)
        ])

  -- the values of a row that the scan selects
  all_set :
      (t : Option ℕ) (response ack : Option String)
      → is_set t ≡ true
      → is_set response ≡ true
      → is_set ack ≡ true
      → (v : ℕ × String × String) × (values_of t response ack ≡ some v)
  all_set (some t) (some response) (some ack) h k l = ((t, response, ack), refl)
  all_set none response ack h k l = absurd (ground (arith, h))
  all_set (some t) none ack h k l = absurd (ground (arith, k))
  all_set (some t) (some response) none h k l = absurd (ground (arith, l))

  scanned_values :
      (d : Production) (m : MessageRecord)
      → awaits_summary codec d m ≡ true
      → (v : ℕ × String × String) × (row_values m ≡ some v)
  scanned_values d m h =
      all_set m.completed_at m.odoo_response m.ack (ground (arith, h)) (ground (arith, h))
        (ground (arith, h))

  -- every row that was scanned is marked, or raised
  rows-applied :
      (raises : MessageRecord → Bool) (d : Production) (machine_id : String) (now : ℕ)
      (ms : List MessageRecord) (s : ReconciliationResult × Production)
      → All (λ m. awaits_summary codec d m ≡ true) ms
      → All
          (λ m.
            raises m ≡ false
            → production_summary_applied m.id (reconcile_rows codec raises machine_id now ms s).1
              ≡ true)
          ms
  rows-applied raises d machine_id now [] s h = tt
  rows-applied raises d machine_id now (m ∷ ms) s h =
      let (v, e) = scanned_values d m h.0 in
      let after = reconcile_row codec raises machine_id now m s in
      (
        (λ f.
            let marked : production_summary_applied m.id after.1 ≡ true = rw f (
              rw (e, reconcile_values)
                (upsert-applied (produced_again codec m machine_id v.0 v.1 v.2) now s.1)) in
            rows-keeps raises machine_id now ms after m.id marked),
        rows-applied raises d machine_id now ms after h.1,
      )

  -- the counts of the result
  value-counts :
      (machine_id : String) (now : ℕ) (m : MessageRecord) (o : Option (ℕ × String × String))
      (v : ℕ × String × String) (s : ReconciliationResult × Production)
      → o ≡ some v
      → ((reconcile_values codec machine_id now m o s).0.scanned_rows ≡ s.0.scanned_rows + 1)
        × ((reconcile_values codec machine_id now m o s).0.skipped_rows ≡ s.0.skipped_rows)
  value-counts machine_id now m none v s e = absurd (ground (arith, e))
  value-counts machine_id now m (some (t, response, ack)) v s e = (refl, refl)

  row-counts :
      (raises : MessageRecord → Bool) (machine_id : String) (now : ℕ) (m : MessageRecord)
      (v : ℕ × String × String) (s : ReconciliationResult × Production)
      → row_values m ≡ some v
      → let result = (reconcile_row codec raises machine_id now m s).0 in
        (result.scanned_rows ≡ s.0.scanned_rows + 1)
        × (result.skipped_rows ≡ s.0.skipped_rows + count raises (m ∷ []))
  row-counts raises machine_id now m v s e = elim (Bool-cases (raises m)) [
    | inl t ↦ rw t (refl, omega arith)
    | inr f ↦
        let (scanned, skips) = value-counts machine_id now m (row_values m) v s e in
        rw f (scanned, omega (arith, skips))
  ]

  rows-counts :
      (raises : MessageRecord → Bool) (d : Production) (machine_id : String) (now : ℕ)
      (ms : List MessageRecord) (s : ReconciliationResult × Production)
      → All (λ m. awaits_summary codec d m ≡ true) ms
      → let result = (reconcile_rows codec raises machine_id now ms s).0 in
        (result.scanned_rows ≡ s.0.scanned_rows + length ms)
        × (result.skipped_rows ≡ s.0.skipped_rows + count raises ms)
  rows-counts raises d machine_id now [] s h = (omega arith, omega arith)
  rows-counts raises d machine_id now (m ∷ ms) s h =
      let (v, e) = scanned_values d m h.0 in
      let (scanned, skips) =
        rows-counts raises d machine_id now ms (reconcile_row codec raises machine_id now m s)
          h.1 in
      let (one, one_skip) = row-counts raises machine_id now m v s e in
      (omega (arith, scanned, one), ground (arith, skips, one_skip))

  -- what waited for its summary before a reconciliation and is within its limit does not wait after
  selected :
      (p : MessageRecord → Bool) (ms : List MessageRecord) → All (λ m. p m ≡ true) (select p ms)
  selected p [] = tt
  selected p (m ∷ ms) = elim (Bool-cases (p m)) [
    | inl t ↦ rw t (t, selected p ms)
    | inr f ↦ rw f (selected p ms)
  ]

  of_selected :
      (p : MessageRecord → Bool) (Q : MessageRecord → Type 0) (ms : List MessageRecord)
      → All Q (select p ms)
      → All (λ m. p m ≡ true → Q m) ms
  of_selected p Q [] h = tt
  of_selected p Q (m ∷ ms) h = elim (Bool-cases (p m)) [
    | inl t ↦ let both = rw t at h in (λ e. both.0, of_selected p Q ms both.1)
    | inr f ↦ (λ e. absurd (ground (arith, e, f)), of_selected p Q ms (rw f at h))
  ]

  whole_take : (n : ℕ) (ms : List MessageRecord) → length ms ≤ n → take n ms ≡ ms
  whole_take zero [] h = refl
  whole_take (suc n) [] h = refl
  whole_take zero (m ∷ ms) h = absurd (omega (arith, h))
  whole_take (suc n) (m ∷ ms) h = ap (λ t. m ∷ t) (whole_take n ms (omega (arith, h)))

  settled :
      (raises : MessageRecord → Bool) (d after : Production) (m : MessageRecord)
      → (production_summary_applied m.id d ≡ true → production_summary_applied m.id after ≡ true)
      → (awaits_summary codec d m ≡ true
          → raises m ≡ false
          → production_summary_applied m.id after ≡ true)
      → awaits_summary codec after m ≡ true
      → raises m ≡ true
  settled raises d after m keep mark waits = elim (Bool-cases (raises m)) [
    | inl t ↦ t
    | inr f ↦ elim (Bool-cases (awaits_summary codec d m)) [
      | inl w ↦ absurd (ground (arith, mark w f, waits))
      | inr n ↦ elim (Bool-cases (production_summary_applied m.id d)) [
        | inl b ↦ absurd (ground (arith, keep b, waits))
        | inr u ↦ absurd (ground (arith, n, u, waits))
      ]
    ]
  ]

  to_selected :
      (p : MessageRecord → Bool) (Q : MessageRecord → Type 0) (ms : List MessageRecord)
      → All (λ m. p m ≡ true → Q m) ms
      → All Q (select p ms)
  to_selected p Q [] h = tt
  to_selected p Q (m ∷ ms) h = elim (Bool-cases (p m)) [
    | inl t ↦ rw t (h.0 t, to_selected p Q ms h.1)
    | inr f ↦ rw f (to_selected p Q ms h.1)
  ]

  -- A reconciliation whose limit is at least the number of waiting messages scans each of them, skips those
  -- whose upsert raises, and leaves no message waiting but such.
  pub reconcile-All :
      (raises : MessageRecord → Bool) (machine_id : String) (limit : ℤ) (now : ℕ) (db : Database)
      → is_nonpos limit ≡ false
      → length (select (awaits_summary codec db.production) db.messages.rows) ≤ pos_part limit
      → let waiting = select (awaits_summary codec db.production) db.messages.rows in
        let (result, after) =
          reconcile_completed_production_records codec raises machine_id limit now db in
        (result.scanned_rows ≡ length waiting)
        × (result.skipped_rows ≡ count raises waiting)
        × All
            (λ m. raises m ≡ true)
            (select (awaits_summary codec after.production) after.messages.rows)
  unfolding reconcile_completed_production_records
  reconcile-All raises machine_id limit now db p h =
      let d = db.production in
      let waiting = select (awaits_summary codec d) db.messages.rows in
      let start : ReconciliationResult × Production = (nothing_reconciled, d) in
      let after = (reconcile_rows codec raises machine_id now waiting start).1 in
      let scanned = selected (awaits_summary codec d) db.messages.rows in
      let (all_scanned, all_skipped) = rows-counts raises d machine_id now waiting start scanned in
      let marked =
        of_selected (awaits_summary codec d)
          (λ m. raises m ≡ false → production_summary_applied m.id after ≡ true) db.messages.rows
          (rows-applied raises d machine_id now waiting start scanned) in
      rw p (
        rw (whole_take (pos_part limit) waiting h) (
          omega (arith, all_scanned),
          omega (arith, all_skipped),
          to_selected (awaits_summary codec after) (λ m. raises m ≡ true) db.messages.rows
              (All-map
                (λ m k.
                  settled raises d after m (rows-keeps raises machine_id now waiting start m.id) k)
                db.messages.rows marked),
        ))
