-- ===== src/Queue/ClaimOrder.antt =====
-- `claim_pending_messages` does in three statements what one pass over the table does.
use blackbear_edge_bridge.Prelude.{
  ℕ, zero, suc, ◌≡◌, refl, ap, Bool, true, false, List, [], ◌∷◌, ℤ, arith, select, update, take,
  drop, select-false, update-false, is_nonpos, pos_part, Bool-cases, inl, inr,
}
use blackbear_edge_bridge.Prelude.{pos, negsuc, ◌+◌, ◌++◌, ◌∙◌}
use blackbear_edge_bridge.Time.{format_timestamp}
use blackbear_edge_bridge.Queue.Message.{MessageRecord, Messages}
use blackbear_edge_bridge.Queue.Claim.{
  is_claimable, ids, claimed, claim_ids, claimable_ids, claim_pending_messages, claim_nothing,
  claim_some,
}
use blackbear_edge_bridge.Queue.WellFormed.{IsValid, claim-IsValid}
use native.Mathlib.Nat.{zero-add, suc-add}
use blackbear_edge_bridge.Queue.Chosen.{
  take_first, change_first, chosen, none_chosen, update-chosen, select-chosen,
}

claim_ids_uniform :
    (at : ℕ) (is : List ℕ) (q : Messages)
    → claim_ids at is q ≡ (
      select (chosen is) (update (chosen is) (claimed at) q.rows),
      record q { rows = update (chosen is) (claimed at) q.rows },
    )
unfolding claim_ids
claim_ids_uniform at [] q =
    let same = update-false (chosen []) (claimed at) q.rows (none_chosen q.rows) in
    rw same (cc (select-false (chosen []) q.rows (none_chosen q.rows)))
claim_ids_uniform at (i ∷ is) q = refl

module _ (batch_size max_retries : ℤ) (now : ℕ) (q : Messages) (v : IsValid q) where
  abbrev one_pass : List MessageRecord × Messages
  one_pass =
      let p = is_claimable max_retries in
      let f = claimed (format_timestamp now) in
      (
        take_first (pos_part batch_size) p f q.rows,
        record q { rows = change_first (pos_part batch_size) p f q.rows },
      )

  claim_all_chosen :
      claim_ids (format_timestamp now) (claimable_ids (pos_part batch_size) max_retries q) q
      ≡ one_pass
  unfolding claimable_ids
  claim_all_chosen =
      let p = is_claimable max_retries in
      let f = claimed (format_timestamp now) in
      let n = pos_part batch_size in
      claim_ids_uniform (format_timestamp now) (claimable_ids n max_retries q) q
      ∙ cc (
        update-chosen p f n 1 q.next_id q.rows v.ordered,
        select-chosen p f (λ r. refl) n 1 q.next_id q.rows v.ordered,
      )

  -- On a well-formed table the SELECT of ids, the UPDATE over them and the second SELECT do what one
  -- pass does: the first `batch_size` claimable rows, in the order of their ids, become PROCESSING
  -- with the time of the call, and these are the rows that are returned; every other row is kept.
  pub claim-eq-one_pass : claim_pending_messages batch_size max_retries now q ≡ one_pass
  claim-eq-one_pass = elim (Bool-cases (is_nonpos batch_size)) [
    | inl e ↦ claim_nothing batch_size max_retries now q e ∙ nothing batch_size e
    | inr e ↦ claim_some batch_size max_retries now q e ∙ claim_all_chosen
  ]
    where
      nothing :
          (b : ℤ)
          → is_nonpos b ≡ true
          → ◌≡◌ {A = List MessageRecord × Messages}
              ([], q)
              (
                take_first
                    (pos_part b)
                    (is_claimable max_retries)
                    (claimed (format_timestamp now))
                    q.rows,
                record q {
                  rows =
                      change_first
                        (pos_part b)
                        (is_claimable max_retries)
                        (claimed (format_timestamp now))
                        q.rows;
                },
              )
      nothing (pos zero) e = refl
      nothing (pos (suc n)) e = absurd (ground arith)
      nothing (negsuc n) e = refl

module _ (p : MessageRecord → Bool) (f : MessageRecord → MessageRecord) where
  select-change_first :
      ((r : MessageRecord) → p (f r) ≡ false)
      → (n : ℕ) (rows : List MessageRecord)
      → select p (change_first n p f rows) ≡ drop n (select p rows)
  select-change_first gone zero rows = refl
  select-change_first gone (suc n) [] = refl
  select-change_first gone (suc n) (r ∷ rows) =
      ground (arith, gone r, select-change_first gone n rows, select-change_first gone (suc n) rows)

  ids-take_first :
      ((r : MessageRecord) → (f r).id ≡ r.id)
      → (n : ℕ) (rows : List MessageRecord)
      → ids (take_first n p f rows) ≡ take n (ids (select p rows))
  ids-take_first keep zero rows = refl
  ids-take_first keep (suc n) [] = refl
  ids-take_first keep (suc n) (r ∷ rows) =
      ground (arith, keep r, ids-take_first keep n rows, ids-take_first keep (suc n) rows)

ids-drop : (n : ℕ) (rows : List MessageRecord) → ids (drop n rows) ≡ drop n (ids rows)
ids-drop zero rows = refl
ids-drop (suc n) [] = refl
ids-drop (suc n) (r ∷ rows) = ids-drop n rows

take-append-take-drop : (n k : ℕ) (is : List ℕ) → take n is ++ take k (drop n is) ≡ take (n + k) is
take-append-take-drop zero k is = rw zero-add
take-append-take-drop (suc n) k [] = rw suc-add (take_nil k)
  where
    take_nil : (k : ℕ) → take {A = ℕ} k [] ≡ []
    take_nil zero = refl
    take_nil (suc k) = refl
take-append-take-drop (suc n) k (i ∷ is) =
    rw suc-add (ap (λ t. i ∷ t) (take-append-take-drop n k is))

-- After a claim the claimable rows are those that were claimable before, less the first
-- `batch_size` of them: no claimed row can be claimed again before it is marked.
pub claim_removes :
    (batch_size max_retries : ℤ) (now : ℕ) (q : Messages)
    → IsValid q
    → select (is_claimable max_retries) (claim_pending_messages batch_size max_retries now q).1.rows
      ≡ drop (pos_part batch_size) (select (is_claimable max_retries) q.rows)
claim_removes batch_size max_retries now q v =
    rw (claim-eq-one_pass batch_size max_retries now q v) (
      select-change_first (is_claimable max_retries) (claimed (format_timestamp now)) (λ r. refl)
        (pos_part batch_size) q.rows)

-- The ids that a claim returns are those of the first `batch_size` claimable rows.
pub claimed_ids :
    (batch_size max_retries : ℤ) (now : ℕ) (q : Messages)
    → IsValid q
    → ids (claim_pending_messages batch_size max_retries now q).0
      ≡ take (pos_part batch_size) (ids (select (is_claimable max_retries) q.rows))
claimed_ids batch_size max_retries now q v = rw (claim-eq-one_pass batch_size max_retries now q v) (
    ids-take_first (is_claimable max_retries) (claimed (format_timestamp now)) (λ r. refl)
      (pos_part batch_size) q.rows)

-- Two claims, one after the other, return the ids of the first `n + k` claimable rows in the order
-- of the ids, each once: first `n` of them, then `k`.
pub claim_claim :
    (n k max_retries : ℤ) (now later : ℕ) (q : Messages)
    → IsValid q
    → let (first, q') = claim_pending_messages n max_retries now q in
      let second = (claim_pending_messages k max_retries later q').0 in
      ids first ++ ids second
      ≡ take (pos_part n + pos_part k) (ids (select (is_claimable max_retries) q.rows))
claim_claim n k max_retries now later q v =
    let p = is_claimable max_retries in
    let q' = (claim_pending_messages n max_retries now q).1 in
    let v' = claim-IsValid n max_retries now q v in
    rw (claimed_ids n max_retries now q v) (
      rw (claimed_ids k max_retries later q' v') (
        rw (claim_removes n max_retries now q v) (
          rw (ids-drop (pos_part n) (select p q.rows))
            (take-append-take-drop (pos_part n) (pos_part k) (ids (select p q.rows))))))
