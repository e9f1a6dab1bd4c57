-- ===== src/Worker/Claimed.antt =====
-- What a claim of app/database.py gives the worker of app/queue_worker.py: records of distinct ids that
-- stand in the table.
use mathlib.Core.Path.{subst}
use blackbear_edge_bridge.Prelude.{
  ℕ, zero, suc, ◌≤◌, ◌≡◌, refl, Bool, false, some, List, [], ◌∷◌, arith, ℤ, pos_part, nat_eq,
  nat_eq_refl, All, All-map, select, select_one, take, Ascending, Ascending-weaken, Ascending-above,
  Bool-cases, inl, inr,
}
use blackbear_edge_bridge.Time.{format_timestamp}
use blackbear_edge_bridge.Queue.Message.{MessageRecord, Messages, has_id, get_message_by_id}
use blackbear_edge_bridge.Queue.Claim.{ids, is_claimable, claimed, claim_pending_messages}
use blackbear_edge_bridge.Queue.WellFormed.{IsValid}
use blackbear_edge_bridge.Queue.Chosen.{change_first}
use blackbear_edge_bridge.Queue.ClaimOrder.{claimed_ids, claim-eq-one_pass}
use blackbear_edge_bridge.Worker.Pass.{IsStored, AllApart}

All-select_ids :
    (P : ℕ → Type 0) (p : MessageRecord → Bool) (rows : List MessageRecord)
    → All P (ids rows)
    → All P (ids (select p rows))
All-select_ids P p [] a = tt
All-select_ids P p (r ∷ rows) a = elim (Bool-cases (p r)) [
  | inl t ↦ rw t (a.0, All-select_ids P p rows a.1)
  | inr f ↦ rw f (All-select_ids P p rows a.1)
]

All-take : (P : ℕ → Type 0) (n : ℕ) (is : List ℕ) → All P is → All P (take n is)
All-take P zero is a = tt
All-take P (suc n) [] a = tt
All-take P (suc n) (i ∷ is) a = (a.0, All-take P n is a.1)

All-column : (P : ℕ → Type 0) (rs : List MessageRecord) → All P (ids rs) → All (λ r. P r.id) rs
All-column P [] a = tt
All-column P (r ∷ rs) a = (a.0, All-column P rs a.1)

Ascending-select :
    (p : MessageRecord → Bool) (lo hi : ℕ) (rows : List MessageRecord)
    → Ascending lo (ids rows) hi
    → Ascending lo (ids (select p rows)) hi
Ascending-select p lo hi [] a = a
Ascending-select p lo hi (r ∷ rows) a = elim (Bool-cases (p r)) [
  | inl t ↦ rw t (a.0, Ascending-select p (suc r.id) hi rows a.1)
  | inr f ↦ rw f (
      Ascending-weaken (suc r.id) lo (ids (select p rows)) hi (omega (arith, a.0))
        (Ascending-select p (suc r.id) hi rows a.1))
]

Ascending_le : (lo : ℕ) (is : List ℕ) (hi : ℕ) → Ascending lo is hi → lo ≤ hi
Ascending_le lo [] hi a = a
Ascending_le lo (i ∷ is) hi a = omega (arith, a.0, Ascending_le (suc i) is hi a.1)

Ascending-take :
    (n lo : ℕ) (is : List ℕ) (hi : ℕ) → Ascending lo is hi → Ascending lo (take n is) hi
Ascending-take zero lo is hi a = Ascending_le lo is hi a
Ascending-take (suc n) lo [] hi a = a
Ascending-take (suc n) lo (i ∷ is) hi a = (a.0, Ascending-take n (suc i) is hi a.1)

ascending-AllApart : (lo hi : ℕ) (rs : List MessageRecord) → Ascending lo (ids rs) hi → AllApart rs
ascending-AllApart lo hi [] a = tt
ascending-AllApart lo hi (r ∷ rs) a =
    let above = All-column (λ i. suc r.id ≤ i) rs (Ascending-above (suc r.id) (ids rs) hi a.1) in
    (All-map (λ s h. apart r.id s.id h) rs above, ascending-AllApart (suc r.id) hi rs a.1)
  where
    apart : (i j : ℕ) → suc i ≤ j → nat_eq i j ≡ false
    apart i j h = ground (arith, h)

ids-change_first :
    (n : ℕ) (p : MessageRecord → Bool) (at : ℕ) (rows : List MessageRecord)
    → ids (change_first n p (claimed at) rows) ≡ ids rows
ids-change_first zero p at rows = refl
ids-change_first (suc n) p at [] = refl
ids-change_first (suc n) p at (r ∷ rows) =
    ground (arith, ids-change_first n p at rows, ids-change_first (suc n) p at rows)

-- every id of a table is found
found_everywhere :
    (rows rows' : List MessageRecord)
    → ((i : ℕ) (m : MessageRecord)
        → select_one (has_id i) rows ≡ some m
        → (m' : MessageRecord) × (select_one (has_id i) rows' ≡ some m'))
    → All (λ i. (m : MessageRecord) × (select_one (has_id i) rows' ≡ some m)) (ids rows)
found_everywhere [] rows' k = tt
found_everywhere (r ∷ rows) rows' k =
    (k r.id r (rw (nat_eq_refl r.id) refl), found_everywhere rows rows' (λ i m h. later i m h))
  where
    later :
        (i : ℕ) (m : MessageRecord)
        → select_one (has_id i) rows ≡ some m
        → (m' : MessageRecord) × (select_one (has_id i) rows' ≡ some m')
    later i m h = elim (Bool-cases (nat_eq r.id i)) [
      | inl t ↦ k i r (rw t refl)
      | inr f ↦ k i m (rw f h)
    ]

module _ (batch_size max_retries : ℤ) (now : ℕ) (q : Messages) (v : IsValid q) where
  abbrev claim : List MessageRecord × Messages
  claim = claim_pending_messages batch_size max_retries now q

  claim_keeps_ids : ids claim.1.rows ≡ ids q.rows
  claim_keeps_ids = rw (claim-eq-one_pass batch_size max_retries now q v) (
      ids-change_first (pos_part batch_size) (is_claimable max_retries) (format_timestamp now)
        q.rows)

  pub claimed-AllApart : AllApart claim.0
  claimed-AllApart = ascending-AllApart 1 q.next_id claim.0 (
      rw (claimed_ids batch_size max_retries now q v) (
        Ascending-take (pos_part batch_size) 1 (ids (select (is_claimable max_retries) q.rows))
          q.next_id (Ascending-select (is_claimable max_retries) 1 q.next_id q.rows v.ordered)))

  pub claimed-IsStored : All (λ r. IsStored claim.1 r.id) claim.0
  unfolding get_message_by_id
  claimed-IsStored =
      let P = λ (i : ℕ). IsStored claim.1 i in
      let everywhere : All P (ids claim.1.rows) =
        found_everywhere claim.1.rows claim.1.rows (λ i m h. (m, h)) in
      let kept : All P (ids q.rows) = subst (All P) claim_keeps_ids everywhere in
      All-column P claim.0 (
        rw (claimed_ids batch_size max_retries now q v) (
          All-take P (pos_part batch_size) (ids (select (is_claimable max_retries) q.rows))
            (All-select_ids P (is_claimable max_retries) q.rows kept)))
