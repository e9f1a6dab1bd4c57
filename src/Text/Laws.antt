-- ===== src/Text/Laws.antt =====
-- Laws of the slices and of `rsplit` that the parsers use.
use Prim.Native.Char.{Char}
use Prim.Native.String.{[], ◌∷◌, ◌++◌}
use text.Mathlib.TextLemmas.{nil-append, cons-append}
use blackbear_edge_bridge.Prelude.{
  ℕ, zero, suc, ◌+◌, ◌-◌, String, ◌≡◌, refl, ap, ◌∙◌, Bool, true, false, ◌||◌, none, some, arith,
  if◌then◌else◌, ◌≢◌, ◌==◌, Bool-cases, inl, inr, eq_iff,
}
use blackbear_edge_bridge.Text.Split.{
  len, take, drop, last_three, all_but_last_three, is_space, rstrip, keep_unless_space, strip,
  is_blank, has_space, rsplit_space,
}

pub len-append : (s t : String) → len (s ++ t) ≡ len s + len t
len-append [] t = rw nil-append (omega arith)
len-append (c ∷ s) t = rw cons-append (omega (arith, len-append s t))

take-append : (s t : String) → take (len s) (s ++ t) ≡ s
take-append [] t = refl
take-append (c ∷ s) t = rw cons-append (ap (λ r. c ∷ r) (take-append s t))

drop-append : (s t : String) → drop (len s) (s ++ t) ≡ t
drop-append [] t = nil-append t
drop-append (c ∷ s) t = rw cons-append (drop-append s t)

-- The slices of a text that ends in three characters.
pub last_three-append : (s t : String) → len t ≡ 3 → last_three (s ++ t) ≡ t
unfolding last_three
last_three-append s t h =
    ap (λ n. drop n (s ++ t)) (omega (arith, len-append s t, h)) ∙ drop-append s t

pub all_but-append : (s t : String) → len t ≡ 3 → all_but_last_three (s ++ t) ≡ s
unfolding all_but_last_three
all_but-append s t h =
    ap (λ n. take n (s ++ t)) (omega (arith, len-append s t, h)) ∙ take-append s t

take-append-drop : (n : ℕ) (s : String) → take n s ++ drop n s ≡ s
take-append-drop zero s = nil-append s
take-append-drop (suc n) [] = nil-append []
take-append-drop (suc n) (c ∷ s) = cons-append c _ _ ∙ ap (λ r. c ∷ r) (take-append-drop n s)

-- The two slices make up the text.
pub slices-append : (s : String) → all_but_last_three s ++ last_three s ≡ s
unfolding all_but_last_three last_three
slices-append s = take-append-drop (len s - 3) s

-- A text that is not empty fails the test for the empty text.
pub not_empty : (v : String) → v ≢ "" → (v == "") ≡ false
not_empty v n = elim (Bool-cases (v == "")) [ inl e ↦ absurd (n ((eq_iff v "").0 e)) | inr e ↦ e ]

-- every character satisfies the test
abbrev pub all : (Char → Bool) → String → Bool
all p [] = true
all p (c ∷ s) = if p c then all p s else false

pub all-cons :
    (p : Char → Bool) (c : Char) (s : String)
    → all p (c ∷ s) ≡ true
    → (p c ≡ true) × (all p s ≡ true)
all-cons p c s h = ground arith

rsplit-none : (s : String) → has_space s ≡ false → rsplit_space s ≡ none
unfolding rsplit_space has_space
rsplit-none [] h = refl
rsplit-none (c ∷ s) h =
    let blank = head_blank (is_blank c) (has_space s) h in rw (rsplit-none s blank.1) (rw blank.0)
  where
    head_blank : (a b : Bool) → (a || b) ≡ false → (a ≡ false) × (b ≡ false)
    head_blank a b e = ground arith

abbrev pub blank : Char
blank = " "

-- A text splits at its last space.
pub rsplit-append :
    (m s : String) → has_space s ≡ false → rsplit_space (m ++ (blank ∷ s)) ≡ some (m, s)
unfolding rsplit_space
rsplit-append [] s h = rw nil-append (rw (rsplit-none s h))
rsplit-append (c ∷ m) s h = rw cons-append (rw (rsplit-append m s h))

pub has_space-append : (m s : String) → has_space (m ++ (blank ∷ s)) ≡ true
unfolding has_space
has_space-append [] s = rw nil-append
has_space-append (c ∷ m) s = rw cons-append (rw (has_space-append m s) (or_true (is_blank c)))
  where
    or_true : (a : Bool) → (a || true) ≡ true
    or_true a = ground arith

-- `rstrip` keeps what stands before an end that it keeps.
pub rstrip-append :
    (s : String) (c : Char) (t : String) → rstrip (c ∷ t) ≡ c ∷ t → rstrip (s ++ c ∷ t) ≡ s ++ c ∷ t
unfolding rstrip
rstrip-append [] c t h = rw nil-append h
rstrip-append (d ∷ s) c t h =
    rw cons-append (ap (keep_unless_space d) (rstrip-append s c t h) ∙ kept d s c t)
  where
    kept :
        (d : Char) (s : String) (c : Char) (t : String)
        → keep_unless_space d (s ++ c ∷ t) ≡ d ∷ (s ++ c ∷ t)
    kept d [] c t = rw nil-append
    kept d (e ∷ s) c t = rw cons-append

-- `strip` keeps a text that begins with no space and ends in what `rstrip` keeps.
pub strip_kept :
    (c : Char) (s : String) → is_space c ≡ false → rstrip (c ∷ s) ≡ c ∷ s → strip (c ∷ s) ≡ c ∷ s
unfolding strip
strip_kept c s h r = rw h r

module _ (p : Char → Bool) (apart : (c : Char) → p c ≡ true → is_space c ≡ false) where
  rstrip-all : (s : String) → all p s ≡ true → rstrip s ≡ s
  unfolding rstrip
  rstrip-all [] h = refl
  rstrip-all (c ∷ []) h = rw (apart c (all-cons p c [] h).0)
  rstrip-all (c ∷ d ∷ s) h =
      ap (keep_unless_space c) (rstrip-all (d ∷ s) (all-cons p c (d ∷ s) h).1)

  -- A text of characters that are no spaces is kept by `strip`, and has no space.
  pub strip-all : (s : String) → all p s ≡ true → strip s ≡ s
  unfolding strip
  strip-all [] h = refl
  strip-all (c ∷ s) h = rw (apart c (all-cons p c s h).0) (rstrip-all (c ∷ s) h)

  pub has_space-all : (s : String) → all p s ≡ true → has_space s ≡ false
  unfolding has_space is_space
  has_space-all [] h = refl
  has_space-all (c ∷ s) h =
      let (first, rest) = all-cons p c s h in
      rw (has_space-all s rest) (not_blank c (apart c first))
    where
      not_blank : (c : Char) → is_space c ≡ false → (is_blank c || false) ≡ false
      not_blank c e = ground arith
