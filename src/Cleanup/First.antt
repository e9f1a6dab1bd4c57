-- ===== src/Cleanup/First.antt =====
-- The deletions of `cleanup_raw_operational_data` (app/database.py) in one pass: on a table in the
-- order of its ids, the SELECT of ids and the DELETE over them remove the first rows that satisfy the
-- condition.
use blackbear_edge_bridge.Prelude.{
  ℕ, zero, suc, ◌≤◌, ◌<◌, ◌≡◌, ◌∙◌, ◌⊎◌, refl, sym, ap, Bool, true, false, some, List, [], ◌∷◌,
  arith, nat_eq_refl, Bool-cases, inl, inr, select, select_one, take, delete, count, column, All,
  Ascending, Ascending-above, if◌then◌else◌,
}
use mathlib.Core.Path.{subst}
use blackbear_edge_bridge.Queue.Claim.{id_in}

module _ {ℓ} {A : Type ℓ} (p : A → Bool) where
  -- the rows without the first `n` that satisfy the condition, and how many these are
  abbrev pub drop_first : ℕ → List A → List A
  drop_first zero rows = rows
  drop_first (suc n) [] = []
  drop_first (suc n) (x ∷ rows) = if p x then drop_first n rows else x ∷ drop_first (suc n) rows

  abbrev pub dropped : ℕ → List A → ℕ
  dropped zero rows = 0
  dropped (suc n) [] = 0
  dropped (suc n) (x ∷ rows) = if p x then suc (dropped n rows) else dropped (suc n) rows

  -- When fewer are dropped than may be, all that satisfy the condition are.
  pub drop_all : (n : ℕ) (rows : List A) → dropped n rows < n → drop_first n rows ≡ delete p rows
  drop_all zero rows h = absurd (omega arith)
  drop_all (suc n) [] h = refl
  drop_all (suc n) (x ∷ rows) h = elim (Bool-cases (p x)) [
    | inl t ↦ rw t (drop_all n rows (ground (arith, h, t)))
    | inr f ↦ rw f (ap (λ xs. x ∷ xs) (drop_all (suc n) rows (ground (arith, h, f))))
  ]

  -- A row that is found is found after, or satisfies the condition.
  pub found-drop_first :
      (q : A → Bool) (n : ℕ) (rows : List A)
      → (select_one q (drop_first n rows) ≡ select_one q rows)
        ⊎ ((r : A) × (select_one q rows ≡ some r) × (p r ≡ true))
  found-drop_first q zero rows = inl refl
  found-drop_first q (suc n) [] = inl refl
  found-drop_first q (suc n) (x ∷ rows) = elim (Bool-cases (q x)) [
    | inl t ↦ elim (Bool-cases (p x)) [
      | inl d ↦ inr (x, rw t refl, d)
      | inr k ↦ rw k (rw t (inl refl))
    ]
    | inr f ↦ rw f (elim (Bool-cases (p x)) [
      | inl d ↦ rw d (found-drop_first q n rows)
      | inr k ↦ rw k (rw f (found-drop_first q (suc n) rows))
    ])
  ]

  -- Dropping rows that a selection passes over leaves the selection.
  pub select-drop_first :
      (q : A → Bool)
      → ((x : A) → p x ≡ true → q x ≡ false)
      → (n : ℕ) (rows : List A) → select q (drop_first n rows) ≡ select q rows
  select-drop_first q k zero rows = refl
  select-drop_first q k (suc n) [] = refl
  select-drop_first q k (suc n) (x ∷ rows) =
      ground (arith, k x, select-drop_first q k n rows, select-drop_first q k (suc n) rows)

module _ {ℓ} {A : Type ℓ} (key : A → ℕ) (p : A → Bool) where
  none_smaller :
      (i n : ℕ) (rows : List A)
      → All (λ j. suc i ≤ j) (column key rows)
      → id_in (column key (take n (select p rows))) i ≡ false
  none_smaller i zero rows h = refl
  none_smaller i (suc n) [] h = refl
  none_smaller i (suc n) (x ∷ rows) h =
      ground (arith, h.0, none_smaller i n rows h.1, none_smaller i (suc n) rows h.1)

  delete_cong :
      (q r : A → Bool) (rows : List A) → All (λ x. q x ≡ r x) rows → delete q rows ≡ delete r rows
  delete_cong q r [] h = refl
  delete_cong q r (x ∷ rows) h = ground (arith, h.0, delete_cong q r rows h.1)

  count_cong :
      (q r : A → Bool) (rows : List A) → All (λ x. q x ≡ r x) rows → count q rows ≡ count r rows
  count_cong q r [] h = refl
  count_cong q r (x ∷ rows) h = ground (arith, h.0, count_cong q r rows h.1)

  -- an id before the others selects no other row
  head_apart :
      (i : ℕ) (is : List ℕ) (rows : List A)
      → All (λ j. suc i ≤ j) (column key rows)
      → All (λ x. id_in (i ∷ is) (key x) ≡ id_in is (key x)) rows
  head_apart i is [] h = tt
  head_apart i is (x ∷ rows) h = (ground (arith, h.0), head_apart i is rows h.1)

  delete_none :
      (rows : List A)
      → (delete (λ x. id_in [] (key x)) rows ≡ rows) × (count (λ x. id_in [] (key x)) rows ≡ 0)
  delete_none [] = (refl, refl)
  delete_none (x ∷ rows) =
      (ap (λ xs. x ∷ xs) (delete_none rows).0, ground (arith, (delete_none rows).1))

  -- what a list of ids deletes, and how many rows
  abbrev pub Deletes : List ℕ → List A → List A → ℕ → Type ℓ
  Deletes is rows after n =
      (delete (λ y. id_in is (key y)) rows ≡ after) × (count (λ y. id_in is (key y)) rows ≡ n)

  head_deleted :
      (x : A) (js : List ℕ) (rows after : List A) (n : ℕ)
      → All (λ j. suc (key x) ≤ j) (column key rows)
      → Deletes js rows after n
      → Deletes (key x ∷ js) (x ∷ rows) after (suc n)
  head_deleted x js rows after n above ih =
      let apart = head_apart (key x) js rows above in
      let first = λ (y : A). id_in (key x ∷ js) (key y) in
      let others = λ (y : A). id_in js (key y) in
      rw (nat_eq_refl (key x)) (
        delete_cong first others rows apart ∙ ih.0,
        omega (arith, count_cong first others rows apart, ih.1),
      )

  head_kept :
      (x : A) (js : List ℕ) (rows after : List A) (n : ℕ)
      → id_in js (key x) ≡ false
      → Deletes js rows after n
      → Deletes js (x ∷ rows) (x ∷ after) n
  head_kept x js rows after n spared ih = rw spared (ap (λ xs. x ∷ xs) ih.0, omega (arith, ih.1))

  -- The SELECT and the DELETE do what one pass does.
  pub delete_first-eq-drop_first :
      (n lo hi : ℕ) (rows : List A)
      → Ascending lo (column key rows) hi
      → Deletes (column key (take n (select p rows))) rows (drop_first p n rows) (dropped p n rows)
  delete_first-eq-drop_first zero lo hi rows a = delete_none rows
  delete_first-eq-drop_first (suc n) lo hi [] a = (refl, refl)
  delete_first-eq-drop_first (suc n) lo hi (x ∷ rows) a =
      by_test (delete_first-eq-drop_first n (suc (key x)) hi rows a.1)
        (delete_first-eq-drop_first (suc n) (suc (key x)) hi rows a.1) (p x)
        (column key (take (suc n) (select p (x ∷ rows)))) refl
    where
      by_test :
          Deletes
            (column key (take n (select p rows)))
            rows
            (drop_first p n rows)
            (dropped p n rows)
          → Deletes
              (column key (take (suc n) (select p rows)))
              rows
              (drop_first p (suc n) rows)
              (dropped p (suc n) rows)
          → (b : Bool) (is : List ℕ)
          → is ≡ column key (take (suc n) (if b then x ∷ select p rows else select p rows))
          → Deletes is
              (x ∷ rows)
              (if b then drop_first p n rows else x ∷ drop_first p (suc n) rows)
              (if b then suc (dropped p n rows) else dropped p (suc n) rows)
      by_test one all true is h =
          subst (λ ks. Deletes ks (x ∷ rows) (drop_first p n rows) (suc (dropped p n rows))) (sym h)
            (head_deleted x (column key (take n (select p rows))) rows (drop_first p n rows)
              (dropped p n rows) (Ascending-above (suc (key x)) (column key rows) hi a.1) one)
      by_test one all false is h =
          subst
            (λ ks. Deletes ks (x ∷ rows) (x ∷ drop_first p (suc n) rows) (dropped p (suc n) rows))
            (sym h)
            (head_kept x (column key (take (suc n) (select p rows))) rows
              (drop_first p (suc n) rows) (dropped p (suc n) rows)
              (none_smaller (key x) (suc n) rows
                (Ascending-above (suc (key x)) (column key rows) hi a.1))
              all)
