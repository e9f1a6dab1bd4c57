-- ===== src/Dashboard/Newest.antt =====
-- Which records the recent-production query of app/database.py returns.
use blackbear_edge_bridge.Prelude.{
  ℕ, zero, suc, ◌+◌, ◌≤◌, ◌≡◌, ◌∙◌, refl, sym, ap, Bool, true, false, List, [], ◌∷◌, ◌++◌, ℤ, arith,
  min, Bool-cases, inl, inr, All, All-map, count, count-append, length, length-select, select, take,
  drop,
}
use blackbear_edge_bridge.Production.Tables.{ProductionRecord, Production}
use blackbear_edge_bridge.Dashboard.Query.{
  Dates, Filters, bounded_limit, insert_row, order_by, newer, record_matches,
  query_recent_production_records,
}

module _ {ℓ} {A : Type ℓ} (before : A → A → Bool) where
  -- no row stands after one that it goes before
  abbrev pub InOrder : List A → Type 0
  InOrder [] = Unit
  InOrder (x ∷ xs) = All (λ y. before y x ≡ false) xs × InOrder xs

  pub count-insert_row :
      (p : A → Bool) (x : A) (xs : List A) → count p (insert_row before x xs) ≡ count p (x ∷ xs)
  count-insert_row p x [] = refl
  count-insert_row p x (y ∷ xs) = ground (arith, count-insert_row p x xs)

  -- Sorting keeps the rows, each as often.
  pub count-order_by : (p : A → Bool) (xs : List A) → count p (order_by before xs) ≡ count p xs
  unfolding order_by
  count-order_by p [] = refl
  count-order_by p (x ∷ xs) =
      omega (arith, count-insert_row p x (order_by before xs), count-order_by p xs)

  pub length-order_by : (xs : List A) → length (order_by before xs) ≡ length xs
  unfolding order_by
  length-order_by [] = refl
  length-order_by (x ∷ xs) =
      omega (arith, length-insert_row x (order_by before xs), length-order_by xs)
    where
      length-insert_row : (x : A) (xs : List A) → length (insert_row before x xs) ≡ suc (length xs)
      length-insert_row x [] = refl
      length-insert_row x (y ∷ xs) = ground (arith, length-insert_row x xs)

  module _ (asym : (a b : A) → before a b ≡ true → before b a ≡ false)
      (trans : (a b c : A) → before b a ≡ false → before c b ≡ false → before c a ≡ false) where
    All-insert_row :
        (z x : A) (xs : List A)
        → before x z ≡ false
        → All (λ y. before y z ≡ false) xs
        → All (λ y. before y z ≡ false) (insert_row before x xs)
    All-insert_row z x [] h a = (h, tt)
    All-insert_row z x (y ∷ xs) h a = elim (Bool-cases (before y x)) [
      | inl t ↦ rw t (a.0, All-insert_row z x xs h a.1)
      | inr f ↦ rw f (h, a)
    ]

    insert_row-InOrder : (x : A) (xs : List A) → InOrder xs → InOrder (insert_row before x xs)
    insert_row-InOrder x [] o = (tt, tt)
    insert_row-InOrder x (y ∷ xs) o = elim (Bool-cases (before y x)) [
      | inl t ↦ rw t (All-insert_row y x xs (asym y x t) o.0, insert_row-InOrder x xs o.1)
      | inr f ↦ rw f ((f, All-map (λ z h. trans x y z f h) xs o.0), o)
    ]

    pub order_by-InOrder : (xs : List A) → InOrder (order_by before xs)
    unfolding order_by
    order_by-InOrder [] = tt
    order_by-InOrder (x ∷ xs) = insert_row-InOrder x (order_by before xs) (order_by-InOrder xs)

  -- the first rows are in order, and no other goes before one of them
  pub take-InOrder :
      (n : ℕ) (xs : List A)
      → InOrder xs
      → InOrder (take n xs) × All (λ x. All (λ y. before y x ≡ false) (drop n xs)) (take n xs)
  take-InOrder zero xs o = (tt, tt)
  take-InOrder (suc n) [] o = (tt, tt)
  take-InOrder (suc n) (x ∷ xs) o =
      let ih = take-InOrder n xs o.1 in ((All-take x n xs o.0, ih.0), (All-drop x n xs o.0, ih.1))
    where
      All-take :
          (x : A) (n : ℕ) (xs : List A)
          → All (λ y. before y x ≡ false) xs
          → All (λ y. before y x ≡ false) (take n xs)
      All-take x zero xs a = tt
      All-take x (suc n) [] a = tt
      All-take x (suc n) (y ∷ xs) a = (a.0, All-take x n xs a.1)

      All-drop :
          (x : A) (n : ℕ) (xs : List A)
          → All (λ y. before y x ≡ false) xs
          → All (λ y. before y x ≡ false) (drop n xs)
      All-drop x zero xs a = a
      All-drop x (suc n) [] a = tt
      All-drop x (suc n) (y ∷ xs) a = All-drop x n xs a.1

take_append_drop {ℓ} : {A : Type ℓ} (n : ℕ) (xs : List A) → take n xs ++ drop n xs ≡ xs
take_append_drop zero xs = refl
take_append_drop (suc n) [] = refl
take_append_drop (suc n) (x ∷ xs) = ap (λ t. x ∷ t) (take_append_drop n xs)

pub length-take {ℓ} : {A : Type ℓ} (n : ℕ) (xs : List A) → length (take n xs) ≡ min n (length xs)
length-take zero xs = omega arith
length-take (suc n) [] = omega arith
length-take (suc n) (x ∷ xs) = omega (arith, length-take n xs)

newer-asym : (r s : ProductionRecord) → newer r s ≡ true → newer s r ≡ false
newer-asym r s h = ground (arith, h)

newer_trans : (r s t : ProductionRecord) → newer s r ≡ false → newer t s ≡ false → newer t r ≡ false
newer_trans r s t h k = ground (arith, h, k)

limit_bounds : (limit : ℤ) → (1 ≤ bounded_limit limit) × (bounded_limit limit ≤ 500)
unfolding bounded_limit
limit_bounds limit = ground arith

-- The recent-production query returns the newest matching records, newest first: it returns as many as
-- match, up to the limit, which is at least 1 and at most 500; what it returns and what it leaves out are
-- together the matching records, each as often as the table has it; and no record that it leaves out is
-- newer than one that it returns.
pub recent_are_newest :
    (dates : Dates) (f : Filters) (limit : ℤ) (d : Production) (p : ProductionRecord → Bool)
    → let rows = query_recent_production_records dates f limit d in
      (left_out : List ProductionRecord) × (length rows
        ≡ min (bounded_limit limit) (count (record_matches dates f) d.records))
      × (1 ≤ bounded_limit limit)
      × (bounded_limit limit ≤ 500)
      × (count p rows + count p left_out ≡ count p (select (record_matches dates f) d.records))
      × InOrder newer rows
      × All (λ r. All (λ s. newer s r ≡ false) left_out) rows
unfolding query_recent_production_records
recent_are_newest dates f limit d p =
    let chosen = select (record_matches dates f) d.records in
    let sorted = order_by newer chosen in
    let n = bounded_limit limit in
    let (ordered, kept) =
      take-InOrder newer n sorted (order_by-InOrder newer newer-asym newer_trans chosen) in
    (
      drop n sorted,
      omega (
        arith,
        length-take n sorted,
        length-order_by newer chosen,
        length-select (record_matches dates f) d.records,
      ),
      (limit_bounds limit).0,
      (limit_bounds limit).1,
      sym (count-append p (take n sorted) (drop n sorted))
          ∙ ap (count p) (take_append_drop n sorted)
          ∙ count-order_by newer p chosen,
      ordered,
      kept,
    )
