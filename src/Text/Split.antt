-- ===== src/Text/Split.antt =====
-- Slices, `strip` and `rsplit` of Python's `str`.
use Prim.Native.Char.{Char, code}
use Prim.Native.String.{[], ◌∷◌}
use blackbear_edge_bridge.Prelude.{
  ℕ, zero, suc, ◌-◌, String, Bool, false, ◌&&◌, ◌||◌, Option, none, some, nat_eq, leb,
  if◌then◌else◌,
}

abbrev pub len : String → ℕ
len [] = 0
len (c ∷ s) = suc (len s)

abbrev pub take : ℕ → String → String
take zero s = []
take (suc n) [] = []
take (suc n) (c ∷ s) = c ∷ take n s

abbrev pub drop : ℕ → String → String
drop zero s = s
drop (suc n) [] = []
drop (suc n) (c ∷ s) = drop n s

-- value[-3:]
unfoldable pub last_three : String → String
last_three s = drop (len s - 3) s

-- value[:-3]
unfoldable pub all_but_last_three : String → String
all_but_last_three s = take (len s - 3) s

abbrev between : ℕ → ℕ → ℕ → Bool
between lo hi c = leb lo c && leb c hi

-- str.isspace of one character
unfoldable pub is_space : Char → Bool
is_space c =
    let n = code c in
    between 9 13 n
    || between 28 32 n
    || nat_eq n 133
    || nat_eq n 160
    || nat_eq n 5760
    || between 8192 8202 n
    || between 8232 8233 n
    || nat_eq n 8239
    || nat_eq n 8287
    || nat_eq n 12288

unfoldable pub lstrip : String → String
lstrip [] = []
lstrip (c ∷ s) = if is_space c then lstrip s else c ∷ s

-- a character that goes before a stripped rest
abbrev pub keep_unless_space : Char → String → String
keep_unless_space c [] = if is_space c then [] else c ∷ []
keep_unless_space c (d ∷ s) = c ∷ d ∷ s

unfoldable pub rstrip : String → String
rstrip [] = []
rstrip (c ∷ s) = keep_unless_space c (rstrip s)

unfoldable pub strip : String → String
unfolding lstrip rstrip
strip s = rstrip (lstrip s)

abbrev pub is_blank : Char → Bool
is_blank c = nat_eq (code c) 32

-- " " in value
unfoldable pub has_space : String → Bool
has_space [] = false
has_space (c ∷ s) = is_blank c || has_space s

-- value.rsplit(" ", maxsplit=1), `none` when it has one part only
abbrev pub split_before : Char → String → Option (String × String) → Option (String × String)
split_before c s (some (a, b)) = some (c ∷ a, b)
split_before c s none = if is_blank c then some ([], s) else none

unfoldable pub rsplit_space : String → Option (String × String)
rsplit_space [] = none
rsplit_space (c ∷ s) = split_before c s (rsplit_space s)
