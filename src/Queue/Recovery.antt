-- ===== src/Queue/Recovery.antt =====
-- `reset_stale_processing` and `get_queue_counts` over the whole table.
use blackbear_edge_bridge.Prelude.{
  ℕ, ◌+◌, ◌≡◌, refl, List, [], ◌∷◌, arith, length, count, update, select_one-update, updated,
}
use blackbear_edge_bridge.Time.{format_timestamp}
use blackbear_edge_bridge.Queue.Message.{
  new, processing, completed, failed, is_new, is_processing, is_completed, is_failed, MessageRecord,
  Messages, has_id, get_message_by_id,
}
use blackbear_edge_bridge.Queue.Mark.{is_stale, recovered, reset_stale_processing, get_queue_counts}

counts_of_rows :
    (rows : List MessageRecord)
    → count (λ (r : MessageRecord). is_new r.status) rows
        + count (λ (r : MessageRecord). is_processing r.status) rows
        + count (λ (r : MessageRecord). is_completed r.status) rows
        + count (λ (r : MessageRecord). is_failed r.status) rows
      ≡ length rows
counts_of_rows [] = omega arith
counts_of_rows (r ∷ rows) = ground (arith, counts_of_rows rows)

-- The four counts of the health report add up to the number of rows.
counts-length :
    (q : Messages)
    → get_queue_counts q new
        + get_queue_counts q processing
        + get_queue_counts q completed
        + get_queue_counts q failed
      ≡ length q.rows
unfolding get_queue_counts
counts-length q = counts_of_rows q.rows

module _ (stale_before : ℕ) (excluded : List ℕ) (at : ℕ) where
  counts_after :
      (rows : List MessageRecord)
      → let stale = is_stale stale_before excluded in
        let after = update stale (recovered at) rows in
        (count (λ (r : MessageRecord). is_processing r.status) after + count stale rows
          ≡ count (λ (r : MessageRecord). is_processing r.status) rows)
        × (count (λ (r : MessageRecord). is_failed r.status) after
            ≡ count (λ (r : MessageRecord). is_failed r.status) rows + count stale rows)
        × (count stale after ≡ 0)
  counts_after [] = (omega arith, omega arith, refl)
  counts_after (r ∷ rows) =
      let (p, f, s) = counts_after rows in (ground (arith, p), ground (arith, f), ground (arith, s))

-- The watchdog moves exactly the rows that it reports from PROCESSING to FAILED, and a second run with
-- the same limits recovers none; by id, a row changes if it is stale and not excluded, and then it is
-- FAILED with one more retry.
pub reset_effect :
    (stale_before : ℕ) (excluded : List ℕ) (now later : ℕ) (q : Messages) (i : ℕ)
    → let (n, q') = reset_stale_processing stale_before excluded now q in
      (get_queue_counts q' processing + n ≡ get_queue_counts q processing)
      × (get_queue_counts q' failed ≡ get_queue_counts q failed + n)
      × ((reset_stale_processing stale_before excluded later q').0 ≡ 0)
      × (get_message_by_id i q'
          ≡ updated
              (is_stale stale_before excluded)
              (recovered (format_timestamp now))
              (get_message_by_id i q))
unfolding reset_stale_processing get_queue_counts get_message_by_id
reset_effect stale_before excluded now later q i =
    let (p, f, s) = counts_after stale_before excluded (format_timestamp now) q.rows in
    (
      p,
      f,
      s,
      select_one-update (has_id i) (is_stale stale_before excluded)
          (recovered (format_timestamp now)) (λ r. refl) q.rows,
    )
