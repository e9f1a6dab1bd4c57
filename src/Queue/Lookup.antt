-- ===== src/Queue/Lookup.antt =====
-- What a look-up by id finds after each operation on the queue.
use blackbear_edge_bridge.Prelude.{
  ℕ, zero, suc, ◌≤◌, ◌≡◌, refl, String, Bool, false, Option, none, some, List, [], ◌∷◌, ℤ, arith,
  All, Ascending, Ascending-above, select_one, select_one-update, updated, update_none, count,
  count_of_none, count_pos, nat_eq, nat_eq_refl, Bool-cases, Option-cases, inl, inr,
}
use mathlib.Core.Path.{subst}
use blackbear_edge_bridge.Errors.{Result, ok, raise, message_not_found, transaction}
use blackbear_edge_bridge.Queue.Message.{MessageRecord, Messages, has_id, get_message_by_id}
use blackbear_edge_bridge.Queue.Claim.{ids}
use blackbear_edge_bridge.Queue.Chosen.{change_first}
use blackbear_edge_bridge.Queue.Mark.{
  update_one, update_one_found, update_one_missing, mark_failed, failed_row,
}
use blackbear_edge_bridge.Queue.WellFormed.{IsValid}

pub no_smaller_id :
    (i : ℕ) (rows : List MessageRecord)
    → All (λ j. suc i ≤ j) (ids rows)
    → count (has_id i) rows ≡ 0
no_smaller_id i [] h = refl
no_smaller_id i (r ∷ rows) h = ground (arith, no_smaller_id i rows h.1)

-- an id stands in one row at most
pub count_id :
    (i lo hi : ℕ) (rows : List MessageRecord)
    → Ascending lo (ids rows) hi
    → count (has_id i) rows ≤ 1
count_id i lo hi [] h = omega arith
count_id i lo hi (r ∷ rows) h = ground (
  arith,
  no_smaller_id r.id rows (Ascending-above (suc r.id) (ids rows) hi h.1),
  count_id i (suc r.id) hi rows h.1,
)

-- What an UPDATE by id answers.
abbrev pub marked : ℕ → Option MessageRecord → Result (Unit {0})
marked i none = raise (message_not_found i)
marked i (some r) = ok tt

module _ (i : ℕ) (set : MessageRecord → MessageRecord) (q : Messages) where
  pub update_one_answer :
      IsValid q → (transaction (update_one i set) q).0 ≡ marked i (select_one (has_id i) q.rows)
  update_one_answer v = elim (Option-cases (select_one (has_id i) q.rows)) [
    | inl e ↦
        rw (e, marked)
          (rw (update_one_missing i set q (ground (arith, count_of_none (has_id i) q.rows))))
    | inr (r, e) ↦
        rw (e, marked)
          (rw (
            update_one_found i set q (
              ground
                (arith, count_pos (has_id i) q.rows r, count_id i 1 q.next_id q.rows v.ordered))))
  ]

  pub update_one_rows :
      IsValid q
      → ((r : MessageRecord) → (set r).id ≡ r.id)
      → (j : ℕ)
      → select_one (has_id j) (transaction (update_one i set) q).1.rows
        ≡ updated (has_id i) set (select_one (has_id j) q.rows)
  update_one_rows v keep j =
      let look = select_one-update (has_id j) (has_id i) set (λ r. ground (arith, keep r)) q.rows in
      elim (Bool-cases (nat_eq (count (has_id i) q.rows) 1)) [
        | inl e ↦ rw (update_one_found i set q e) look
        | inr e ↦ rw (update_one_missing i set q e) (
            rw
              (update_none (has_id i) set q.rows
                (ground (arith, e, count_id i 1 q.next_id q.rows v.ordered)))
              at look)
      ]

pub change_first_keeps :
    (p : MessageRecord → Bool) (f : MessageRecord → MessageRecord)
    → ((r : MessageRecord) → (f r).id ≡ r.id)
    → (i n : ℕ) (rows : List MessageRecord) (r : MessageRecord)
    → select_one (has_id i) rows ≡ some r
    → p r ≡ false
    → select_one (has_id i) (change_first n p f rows) ≡ some r
change_first_keeps p f keep i zero rows r e h = e
change_first_keeps p f keep i (suc n) [] r e h = e
change_first_keeps p f keep i (suc n) (x ∷ rows) r e h = ground (
  arith,
  keep x,
  change_first_keeps p f keep i n rows r,
  change_first_keeps p f keep i (suc n) rows r,
)

module _ (i : ℕ) (error : String) (at : ℕ) (response : Option String) (retryable : Bool)
    (max_retries : Option ℤ) (q : Messages) where
  -- On a well-formed table `mark_failed` answers by whether the id is there: it raises, and leaves
  -- every row, when it is not; else the row with the id becomes FAILED with the error, the time,
  -- the raised retry count and the response, if one is given, and every other row is kept.
  pub mark_failed_effect :
      (j : ℕ)
      → IsValid q
      → let (answer, q') = mark_failed i error at response retryable max_retries q in
        (answer ≡ marked i (get_message_by_id i q))
        × (get_message_by_id j q'
            ≡ updated
                (has_id i)
                (failed_row error at response retryable max_retries)
                (get_message_by_id j q))
  unfolding mark_failed get_message_by_id
  mark_failed_effect j v =
      let set = failed_row error at response retryable max_retries in
      (update_one_answer i set q v, update_one_rows i set q v (λ r. refl) j)

-- in a table in the order of its ids, a row that a condition finds is the row of its id
pub found_by_id :
    (p : MessageRecord → Bool) (lo hi : ℕ) (rows : List MessageRecord) (r : MessageRecord)
    → Ascending lo (ids rows) hi
    → select_one p rows ≡ some r
    → (select_one (has_id r.id) rows ≡ some r) × (lo ≤ r.id)
found_by_id p lo hi [] r a h = absurd (ground (arith, h))
found_by_id p lo hi (x ∷ rows) r a h = elim (Bool-cases (p x)) [
  | inl t ↦
      let same : x ≡ r = ground (arith, h, t) in
      subst (λ y. (select_one (has_id y.id) (x ∷ rows) ≡ some y) × (lo ≤ y.id)) same
        (rw (nat_eq_refl x.id) refl, a.0)
  | inr f ↦
      let (e, above) = found_by_id p (suc x.id) hi rows r a.1 (rw f at h) in
      let apart : nat_eq x.id r.id ≡ false = ground (arith, above) in
      (rw apart e, ground (arith, above, a.0))
]
