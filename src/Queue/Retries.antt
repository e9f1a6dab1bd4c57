-- ===== src/Queue/Retries.antt =====
-- Failed messages: who may be claimed again, and who never is.
use blackbear_edge_bridge.Prelude.{
  ℕ, zero, suc, ◌≡◌, refl, String, Bool, false, Option, some, List, [], ◌∷◌, ℤ, arith, All,
  Ascending, Ascending-above, select, take, select_one, select_one-holds, count, pos_part, ◌∙◌, ap,
  updated,
}
use blackbear_edge_bridge.Queue.Message.{MessageRecord, Messages, has_id, get_message_by_id}
use blackbear_edge_bridge.Queue.Claim.{is_claimable, claim_pending_messages, id_in, ids}
use blackbear_edge_bridge.Queue.ClaimOrder.{claimed_ids}
use blackbear_edge_bridge.Queue.Lookup.{update_one_rows, no_smaller_id}
use blackbear_edge_bridge.Queue.Mark.{mark_failed, failed_row}
use blackbear_edge_bridge.Queue.WellFormed.{IsValid, mark_failed-IsValid}
use blackbear_edge_bridge.Queue.Exhausted.{
  ExhaustedAt, Spares, IsExhausted-not_claimable, final_failure-IsExhausted, run_keeps,
}
use blackbear_edge_bridge.Queue.Operations.{Operation, run, run-IsValid}

-- a row that is not claimable is not among the ids of a claim
no_other :
    (p : MessageRecord → Bool) (i n : ℕ) (rows : List MessageRecord)
    → count (has_id i) rows ≡ 0
    → id_in (take n (ids (select p rows))) i ≡ false
no_other p i zero rows h = refl
no_other p i (suc n) [] h = refl
no_other p i (suc n) (r ∷ rows) h = ground (arith, no_other p i n rows, no_other p i (suc n) rows)

pub not_selected :
    (p : MessageRecord → Bool) (i n lo hi : ℕ) (rows : List MessageRecord) (r : MessageRecord)
    → Ascending lo (ids rows) hi
    → select_one (has_id i) rows ≡ some r
    → p r ≡ false
    → id_in (take n (ids (select p rows))) i ≡ false
not_selected p i zero lo hi rows r a e h = refl
not_selected p i (suc n) lo hi [] r a e h = refl
not_selected p i (suc n) lo hi (x ∷ rows) r a e h = ground (
  arith,
  no_smaller_id x.id rows (Ascending-above (suc x.id) (ids rows) hi a.1),
  no_other p i (suc n) rows,
  not_selected p i n (suc x.id) hi rows r a.1,
  not_selected p i (suc n) (suc x.id) hi rows r a.1,
)

module _ (sha256 : String → String) (max_retries : ℤ) (i : ℕ) where
  abbrev fail_finally : String → ℕ → Option String → Messages → Messages
  fail_finally error at response q = (mark_failed i error at response false (some max_retries) q).1

  first_failure :
      (error : String) (at : ℕ) (response : Option String) (q : Messages) (r : MessageRecord)
      → IsValid q
      → select_one (has_id i) q.rows ≡ some r
      → ExhaustedAt max_retries i (fail_finally error at response q)
  unfolding mark_failed
  first_failure error at response q r v e =
      let set = failed_row error at response false (some max_retries) in
      (
        set r,
        update_one_rows i set q v (λ s. refl) i
            ∙ ap (updated (has_id i) set) e
            ∙ rw (select_one-holds (has_id i) q.rows r e),
        final_failure-IsExhausted error at response max_retries r,
      )

  -- A stored message that is marked failed with no retry stays FAILED with no retry left through any
  -- operations of the other parts that do not complete it, and no later claim returns it.
  pub final_failure_stays :
      (error : String) (at : ℕ) (response : Option String) (q : Messages) (r : MessageRecord)
      (os : List Operation) (b : ℤ) (now : ℕ)
      → IsValid q
      → get_message_by_id i q ≡ some r
      → All (Spares i) os
      → let q' = run sha256 max_retries os (fail_finally error at response q) in
        ExhaustedAt max_retries i q'
        × (id_in (ids (claim_pending_messages b max_retries now q').0) i ≡ false)
  unfolding get_message_by_id
  final_failure_stays error at response q r os b now v e s =
      let start = fail_finally error at response q in
      let valid = mark_failed-IsValid i error at response false (some max_retries) q v in
      let (r', e', x) =
        run_keeps sha256 max_retries i os start valid s (first_failure error at response q r v e) in
      let valid' = run-IsValid sha256 max_retries os start valid in
      let q' = run sha256 max_retries os start in
      (
        (r', e', x),
        rw (claimed_ids b max_retries now q' valid') (
            not_selected (is_claimable max_retries) i (pos_part b) 1 q'.next_id q'.rows r'
              valid'.ordered e' (IsExhausted-not_claimable max_retries r' x)),
      )
