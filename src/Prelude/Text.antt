-- ===== src/Prelude/Text.antt =====
-- Python's `str` methods that the program calls: `strip`, membership and joining.
use Prim.Native.Nat.{ℕ, compare as compare_ℕ, Ordering}
use Prim.Native.Char.{Char, code}
use Prim.Native.String.{String, ◌++◌, compare}
use mathlib.Core.Path.{◌≡◌, refl}
use mathlib.Core.Bool.{Bool, true, false, ◌&&◌, ◌||◌}
use mathlib.Core.List.{List}
use text.Mathlib.Text.{◌==◌}

abbrev between : ℕ → ℕ → ℕ → Bool
between lo hi n =
    (elim (compare_ℕ lo n) [ Ordering.gt ↦ false | _ ↦ true ])
    && (elim (compare_ℕ n hi) [ Ordering.gt ↦ false | _ ↦ true ])

-- `str.isspace` of one character: the code points that `str.strip` removes.
pub is_space : Char → Bool
is_space c =
    let n = code c in
    between 9 13 n
    || between 28 32 n
    || between 133 133 n
    || between 160 160 n
    || between 5760 5760 n
    || between 8192 8202 n
    || between 8232 8233 n
    || between 8239 8239 n
    || between 8287 8287 n
    || between 12288 12288 n

lstrip : String → String
lstrip String.[] = String.[]
lstrip (String.◌∷◌ c s) =
    let rest = lstrip s in elim (is_space c) [ true ↦ rest | false ↦ String.◌∷◌ c s ]

-- Drops the spaces at the end: a character is kept if it is no space or something is kept after it.
rstrip : String → String
rstrip String.[] = String.[]
rstrip (String.◌∷◌ c s) = elim (is_space c && rstrip s == "") [
  | true ↦ String.[]
  | false ↦ String.◌∷◌ c (rstrip s)
]

unfoldable pub strip : String → String
unfolding lstrip rstrip is_space
strip s = lstrip (rstrip s)

strip_spaces : strip " \ta b \n" ≡ "a b"
unfolding strip
strip_spaces = refl

-- `x in xs` for a list, tuple or set of texts.
unfoldable pub contains : String → List String → Bool
contains x List.[] = false
contains x (List.◌∷◌ y ys) = y == x || contains x ys

-- No text stands twice.
abbrev pub AreDistinct : List String → Type 0
AreDistinct List.[] = Unit
AreDistinct (List.◌∷◌ x xs) = (contains x xs ≡ false) × AreDistinct xs

-- `set(xs)`
unfoldable pub set_of : List String → List String
set_of List.[] = List.[]
set_of (List.◌∷◌ x xs) =
    let rest = set_of xs in elim (contains x rest) [ true ↦ rest | false ↦ List.◌∷◌ x rest ]

prepend : Char → List String → List String
prepend c List.[] = List.◌∷◌ (String.◌∷◌ c String.[]) List.[]
prepend c (List.◌∷◌ s ss) = List.◌∷◌ (String.◌∷◌ c s) ss

-- `s.split(".")`: never an empty list.
unfoldable pub split_dots : String → List String
unfolding prepend
split_dots String.[] = List.◌∷◌ String.[] List.[]
split_dots (String.◌∷◌ c s) =
    let rest = split_dots s in
    elim (between 46 46 (code c)) [ true ↦ List.◌∷◌ String.[] rest | false ↦ prepend c rest ]

split_words : split_dots "a.#.b" ≡ List.◌∷◌ "a" (List.◌∷◌ "#" (List.◌∷◌ "b" List.[]))
unfolding split_dots
split_words = refl

-- `sep.join(xs)`
unfoldable pub join : String → List String → String
join sep List.[] = ""
join sep (List.◌∷◌ x List.[]) = x
join sep (List.◌∷◌ x xs) = x ++ sep ++ join sep xs

-- `sorted(xs)`: texts in the order of their code points.
insert : String → List String → List String
insert x List.[] = List.◌∷◌ x List.[]
insert x (List.◌∷◌ y ys) =
    let rest = insert x ys in
    elim (compare x y) [ Ordering.gt ↦ List.◌∷◌ y rest | _ ↦ List.◌∷◌ x (List.◌∷◌ y ys) ]

unfoldable pub sorted : List String → List String
unfolding insert
sorted List.[] = List.[]
sorted (List.◌∷◌ x xs) = insert x (sorted xs)
