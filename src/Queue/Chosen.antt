-- ===== src/Queue/Chosen.antt =====
-- The rows that a claim chooses by their ids, and the first rows that satisfy its condition.
use blackbear_edge_bridge.Prelude.{
  ℕ, zero, suc, ◌≤◌, ◌≡◌, refl, Bool, false, List, [], ◌∷◌, arith, All, column-update, select,
  update, take, update_cong, select_cong, select-false, update-false, Ascending, Ascending-above,
  Bool-cases, inl, inr, if◌then◌else◌,
}
use blackbear_edge_bridge.Queue.Message.{MessageRecord}
use blackbear_edge_bridge.Queue.Claim.{id_in, ids}

-- The first n rows that satisfy p, taken through f, and the table after.
abbrev pub take_first :
    ℕ
    → (MessageRecord → Bool)
    → (MessageRecord → MessageRecord)
    → List MessageRecord
    → List MessageRecord
take_first zero p f rows = []
take_first (suc n) p f [] = []
take_first (suc n) p f (r ∷ rows) =
    if p r then f r ∷ take_first n p f rows else take_first (suc n) p f rows

abbrev pub change_first :
    ℕ
    → (MessageRecord → Bool)
    → (MessageRecord → MessageRecord)
    → List MessageRecord
    → List MessageRecord
change_first zero p f rows = rows
change_first (suc n) p f [] = []
change_first (suc n) p f (r ∷ rows) =
    if p r then f r ∷ change_first n p f rows else r ∷ change_first (suc n) p f rows

-- ids from `lo` on hold no smaller id
id_in-above : (is : List ℕ) (i : ℕ) → All (λ j. suc i ≤ j) is → id_in is i ≡ false
id_in-above [] i h = refl
id_in-above (j ∷ is) i h = ground (arith, id_in-above is i h.1)

chosen_above :
    (p : MessageRecord → Bool) (lo n : ℕ) (rows : List MessageRecord)
    → All (λ j. lo ≤ j) (ids rows)
    → All (λ j. lo ≤ j) (ids (take n (select p rows)))
chosen_above p lo zero rows h = tt
chosen_above p lo (suc n) [] h = tt
chosen_above p lo (suc n) (r ∷ rows) h = elim (Bool-cases (p r)) [
  | inl e ↦ rw e (h.0, chosen_above p lo n rows h.1)
  | inr e ↦ rw e (chosen_above p lo (suc n) rows h.1)
]

-- a row's own id makes no difference to the rows with greater ids
skip_head :
    (i : ℕ) (is : List ℕ) (rows : List MessageRecord)
    → All (λ j. suc i ≤ j) (ids rows)
    → All (λ (r : MessageRecord). id_in (i ∷ is) r.id ≡ id_in is r.id) rows
skip_head i is [] h = tt
skip_head i is (r ∷ rows) h = (ground (arith, h.0), skip_head i is rows h.1)

abbrev pub chosen : List ℕ → MessageRecord → Bool
chosen is r = id_in is r.id

pub none_chosen :
    (rows : List MessageRecord) → All (λ (r : MessageRecord). chosen [] r ≡ false) rows
none_chosen [] = tt
none_chosen (r ∷ rows) = (refl, none_chosen rows)

module _ (p : MessageRecord → Bool) (f : MessageRecord → MessageRecord) where
  -- the UPDATE over the chosen ids
  pub update-chosen :
      (n lo hi : ℕ) (rows : List MessageRecord)
      → Ascending lo (ids rows) hi
      → update (chosen (ids (take n (select p rows)))) f rows ≡ change_first n p f rows
  update-chosen zero lo hi rows h = update-false (chosen []) f rows (none_chosen rows)
  update-chosen (suc n) lo hi [] h = refl
  update-chosen (suc n) lo hi (r ∷ rows) h =
      let above = Ascending-above (suc r.id) (ids rows) hi h.1 in
      let is = ids (take n (select p rows)) in
      let more = ids (take (suc n) (select p rows)) in
      ground (
        arith,
        update_cong (chosen (r.id ∷ is)) (chosen is) f rows (skip_head r.id is rows above),
        id_in-above more r.id (chosen_above p (suc r.id) (suc n) rows above),
        update-chosen n (suc r.id) hi rows h.1,
        update-chosen (suc n) (suc r.id) hi rows h.1,
      )

  module _ (keep : (r : MessageRecord) → (f r).id ≡ r.id) where
    -- the changed rows still have greater ids
    skip_head_changed :
        (i : ℕ) (is js : List ℕ) (rows : List MessageRecord)
        → All (λ j. suc i ≤ j) (ids rows)
        → All
            (λ (r : MessageRecord). id_in (i ∷ is) r.id ≡ id_in is r.id)
            (update (chosen js) f rows)
    skip_head_changed i is js rows above =
        skip_head i is (update (chosen js) f rows)
          (rw (column-update (λ (r : MessageRecord). r.id) (chosen js) f keep rows) above)

    -- the SELECT over the chosen ids, after the UPDATE
    pub select-chosen :
        (n lo hi : ℕ) (rows : List MessageRecord)
        → Ascending lo (ids rows) hi
        → let is = ids (take n (select p rows)) in
          select (chosen is) (update (chosen is) f rows) ≡ take_first n p f rows
    select-chosen zero lo hi rows h =
        select-false (chosen []) (update (chosen []) f rows)
          (none_chosen (update (chosen []) f rows))
    select-chosen (suc n) lo hi [] h = refl
    select-chosen (suc n) lo hi (r ∷ rows) h =
        let above = Ascending-above (suc r.id) (ids rows) hi h.1 in
        let is = ids (take n (select p rows)) in
        let more = ids (take (suc n) (select p rows)) in
        ground (
          arith,
          keep r,
          update_cong (chosen (r.id ∷ is)) (chosen is) f rows (skip_head r.id is rows above),
          select_cong (chosen (r.id ∷ is)) (chosen is) (update (chosen is) f rows)
              (skip_head_changed r.id is is rows above),
          id_in-above more r.id (chosen_above p (suc r.id) (suc n) rows above),
          select-chosen n (suc r.id) hi rows h.1,
          select-chosen (suc n) (suc r.id) hi rows h.1,
        )
