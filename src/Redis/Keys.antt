-- ===== src/Redis/Keys.antt =====
-- The keys of the program (_redis.py), and when two of them are one.
use Prim.Native.Nat.{Ordering, compare as compare_ℕ}
use Prim.Native.Char.{code}
use Prim.Native.String.append
use Prim.Native.String.compare
use Prim.Native.String.{String, ◌++◌, compare, then}
use mathlib.Core.Path.{◌≡◌, refl, ap, ap₂, ◌∙◌}
use mathlib.Core.Bool.{Bool, true, false}
use mathlib.Core.List.{List}
use text.Mathlib.Text.{◌==◌, is_eq}
use text.Mathlib.TextPositions.{compare_self}
use relayna.Prelude.Text.{join}

-- A common beginning does not matter to the comparison.
compare-append : (s t u : String) → compare (s ++ t) (s ++ u) ≡ compare t u
compare-append String.[] t u = ap₂ compare (append.nil t) (append.nil u)
compare-append (String.◌∷◌ c s) t u =
    ap₂ compare (append.cons c s t) (append.cons c s u)
    ∙ compare.cons-cons c c (s ++ t) (s ++ u)
    ∙ ap (λ o. then o (compare (s ++ t) (s ++ u))) (compare_self (code c))
    ∙ compare-append s t u

pub eq-append : (s t u : String) → ((s ++ t) == (s ++ u)) ≡ (t == u)
eq-append s t u = ap is_eq (compare-append s t u)

-- Whether two beginnings differ in a character that both have.
abbrev differ : Ordering → Bool → Bool
differ Ordering.eq b = b
differ _ b = true

abbrev apart : String → String → Bool
apart (String.◌∷◌ c s) (String.◌∷◌ d t) = differ (compare_ℕ (code c) (code d)) (apart s t)
apart _ _ = false

differ-then :
    (o p : Ordering) (b : Bool)
    → differ o b ≡ true
    → (b ≡ true → is_eq p ≡ false)
    → is_eq (then o p) ≡ false
differ-then Ordering.lt p b h f = refl
differ-then Ordering.eq p b h f = f h
differ-then Ordering.gt p b h f = refl

pub eq-apart : (p q x y : String) → apart p q ≡ true → ((p ++ x) == (q ++ y)) ≡ false
eq-apart String.[] q x y h = absurd (cc h)
eq-apart (String.◌∷◌ c s) String.[] x y h = absurd (cc h)
eq-apart (String.◌∷◌ c s) (String.◌∷◌ d t) x y h =
    ap is_eq (
      ap₂ compare (append.cons c s x) (append.cons d t y) ∙ compare.cons-cons c d (s ++ x) (t ++ y))
    ∙ differ-then _ _ (apart s t) h (eq-apart s t x y)

module _ (hash_tag : String → String → String) where
  -- `hash_tag` is the hash that puts the keys of one slot on one node of a cluster.
  unfoldable pub redis_key : String → String → List String → String
  redis_key prefix slot segments =
      "{relayna:" ++ hash_tag prefix slot ++ "}:" ++ prefix ++ ":" ++ join ":" segments

  pub eq-redis_key :
      (prefix slot : String) (xs ys : List String)
      → (redis_key prefix slot xs == redis_key prefix slot ys) ≡ (join ":" xs == join ":" ys)
  unfolding redis_key
  eq-redis_key prefix slot xs ys =
      eq-append "{relayna:" _ _
      ∙ eq-append (hash_tag prefix slot) _ _
      ∙ eq-append "}:" _ _
      ∙ eq-append prefix _ _
      ∙ eq-append ":" _ _

  -- A common first segment of several does not matter either.
  pub eq-segment :
      (prefix slot a x y : String) (xs ys : List String)
      → (redis_key prefix slot (List.◌∷◌ a (List.◌∷◌ x xs))
          == redis_key prefix slot (List.◌∷◌ a (List.◌∷◌ y ys)))
        ≡ (join ":" (List.◌∷◌ x xs) == join ":" (List.◌∷◌ y ys))
  unfolding join
  eq-segment prefix slot a x y xs ys =
      eq-redis_key prefix slot (List.◌∷◌ a (List.◌∷◌ x xs)) (List.◌∷◌ a (List.◌∷◌ y ys))
      ∙ eq-append a (":" ++ join ":" (List.◌∷◌ x xs)) (":" ++ join ":" (List.◌∷◌ y ys))
      ∙ eq-append ":" (join ":" (List.◌∷◌ x xs)) (join ":" (List.◌∷◌ y ys))
