-- ===== src/Prelude/Rows.antt =====
-- What the statements do to the columns and the look-ups of a table.
use blackbear_edge_bridge.Prelude.Tests.{if◌then◌else◌, Bool-cases}
use blackbear_edge_bridge.Prelude.Lists.{All, All-map, select, select_one, update, count, column}
use Prim.Native.Nat.{ℕ, suc, ◌≤◌, ◌<◌}
use mathlib.Core.Path.{◌≡◌, refl, ap, subst}
use mathlib.Core.Bool.{Bool, true, false}
use mathlib.Core.Logic.{◌≢◌, inl, inr}
use mathlib.Core.List.{List, [], ◌∷◌, ◌++◌}
use mathlib.Core.Option.{Option, none, some}
use native.Mathlib.Omega.{arith}

module _ {ℓ} {A : Type ℓ} where
  -- An update that keeps a column keeps the list of its values.
  pub column-update {κ} :
      {B : Type κ} (key : A → B) (p : A → Bool) (f : A → A)
      → ((x : A) → key (f x) ≡ key x)
      → (xs : List A) → column key (update p f xs) ≡ column key xs
  column-update key p f keep [] = refl
  column-update key p f keep (x ∷ xs) = ground (arith, keep x, column-update key p f keep xs)

  pub column-append {κ} :
      {B : Type κ} (key : A → B) (xs ys : List A)
      → column key (xs ++ ys) ≡ column key xs ++ column key ys
  column-append key [] ys = refl
  column-append key (x ∷ xs) ys = ap (λ t. key x ∷ t) (column-append key xs ys)

  -- the row of a look-up after an update, by conditions that the update keeps
  abbrev pub updated : (A → Bool) → (A → A) → Option A → Option A
  updated p f none = none
  updated p f (some x) = some (if p x then f x else x)

  pub select_one-update :
      (q p : A → Bool) (f : A → A)
      → ((x : A) → q (f x) ≡ q x)
      → (xs : List A) → select_one q (update p f xs) ≡ updated p f (select_one q xs)
  select_one-update q p f keep [] = refl
  select_one-update q p f keep (x ∷ xs) = ground (arith, keep x, select_one-update q p f keep xs)

  pub select_one-append_none :
      (p : A → Bool) (xs : List A) (y : A)
      → select_one p xs ≡ none
      → select_one p (xs ++ y ∷ []) ≡ (if p y then some y else none)
  select_one-append_none p [] y h = refl
  select_one-append_none p (x ∷ xs) y h = ground (arith, select_one-append_none p xs y)

  pub select_one-append_some :
      (p : A → Bool) (xs ys : List A) (r : A)
      → select_one p xs ≡ some r
      → select_one p (xs ++ ys) ≡ some r
  select_one-append_some p [] ys r h = ground arith
  select_one-append_some p (x ∷ xs) ys r h = ground (arith, select_one-append_some p xs ys r)

  pub count_of_none : (p : A → Bool) (xs : List A) → select_one p xs ≡ none → count p xs ≡ 0
  count_of_none p [] h = refl
  count_of_none p (x ∷ xs) h = ground (arith, count_of_none p xs)

  pub none_of_count : (p : A → Bool) (xs : List A) → count p xs ≡ 0 → select_one p xs ≡ none
  none_of_count p [] h = refl
  none_of_count p (x ∷ xs) h = ground (arith, none_of_count p xs)

  pub count_pos : (p : A → Bool) (xs : List A) (r : A) → select_one p xs ≡ some r → 0 < count p xs
  count_pos p [] r h = ground arith
  count_pos p (x ∷ xs) r h = ground (arith, count_pos p xs r)

  -- Two conditions that agree on every row select and update alike.
  pub update_cong :
      (p q : A → Bool) (f : A → A) (xs : List A)
      → All (λ x. p x ≡ q x) xs
      → update p f xs ≡ update q f xs
  update_cong p q f [] h = refl
  update_cong p q f (x ∷ xs) h = ground (arith, update_cong p q f xs h.1)

  pub update-false :
      (p : A → Bool) (f : A → A) (xs : List A) → All (λ x. p x ≡ false) xs → update p f xs ≡ xs
  update-false p f [] h = refl
  update-false p f (x ∷ xs) h = ground (arith, update-false p f xs h.1)

  pub select_cong :
      (p q : A → Bool) (xs : List A) → All (λ x. p x ≡ q x) xs → select p xs ≡ select q xs
  select_cong p q [] h = refl
  select_cong p q (x ∷ xs) h = ground (arith, select_cong p q xs h.1)

  pub select-false : (p : A → Bool) (xs : List A) → All (λ x. p x ≡ false) xs → select p xs ≡ []
  select-false p [] h = refl
  select-false p (x ∷ xs) h = ground (arith, select-false p xs h.1)

  pub select_one-head :
      (p : A → Bool) (x : A) (xs : List A) (r : A)
      → p x ≡ true
      → select_one p (x ∷ xs) ≡ some r
      → x ≡ r
  select_one-head p x xs r t e = ground arith

  -- What holds of every row holds of a row that is found.
  pub select_one-All {κ} :
      (P : A → Type κ) (p : A → Bool) (xs : List A) (r : A)
      → All P xs
      → select_one p xs ≡ some r
      → P r
  select_one-All P p [] r h e = absurd (ground (arith, e))
  select_one-All P p (x ∷ xs) r h e = elim (Bool-cases (p x)) [
    | inl t ↦ subst P (select_one-head p x xs r t e) h.0
    | inr f ↦ select_one-All P p xs r h.1 (rw f at e)
  ]

-- strictly increasing, from `lo` on and below `hi`
abbrev pub Ascending : ℕ → List ℕ → ℕ → Type 0
Ascending lo [] hi = lo ≤ hi
Ascending lo (i ∷ is) hi = (lo ≤ i) × Ascending (suc i) is hi

pub Ascending-append :
    (lo : ℕ) (is : List ℕ) (hi : ℕ) → Ascending lo is hi → Ascending lo (is ++ hi ∷ []) (suc hi)
Ascending-append lo [] hi h = (h, omega arith)
Ascending-append lo (i ∷ is) hi h = (h.0, Ascending-append (suc i) is hi h.1)

pub Ascending-weaken :
    (lo lo' : ℕ) (is : List ℕ) (hi : ℕ) → lo' ≤ lo → Ascending lo is hi → Ascending lo' is hi
Ascending-weaken lo lo' [] hi h a = omega arith
Ascending-weaken lo lo' (i ∷ is) hi h a = (omega arith, a.1)

pub Ascending-above : (lo : ℕ) (is : List ℕ) (hi : ℕ) → Ascending lo is hi → All (λ i. lo ≤ i) is
Ascending-above lo [] hi h = tt
Ascending-above lo (i ∷ is) hi h =
    (h.0, All-map (λ j k. omega (arith, k, h.0)) is (Ascending-above (suc i) is hi h.1))

-- no two are equal
abbrev pub Distinct {ℓ} : {A : Type ℓ} → List A → Type ℓ
Distinct [] = Unit
Distinct (x ∷ xs) = All (λ y. y ≢ x) xs × Distinct xs
