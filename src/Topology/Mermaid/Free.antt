-- ===== src/Topology/Mermaid/Free.antt =====
-- The search for an unused id ends, with an id that is not used.
use relayna.Topology.Mermaid.{numbered, find_free, free_id}
use mathlib.Core.Path.{subst}
use text.Mathlib.TextLemmas.{append_cancel_left, append-nil, append-eq-nil_iff}
use Prim.Native.String.{◌++◌}
use relayna.Prelude.{
  ◌≡◌, ◌∷◌, String, List, ℕ, ◌≤◌, false, true, sym, count, arith, ◌<◌, not, [], eq_refl, Bool-cases,
  ◌==◌, inl, eq_iff, suc, ◌≢◌, inr, ◌+◌, zero, some, refl, ◌∙◌, ap, length,
}
use relayna.Prelude.Text.{contains}

underscore : ◌≢◌ {A = String} "_" ""
underscore e = cc

not_longer : (base s : String) → base ≢ base ++ ("_" ++ s)
not_longer base s e =
    let h = append_cancel_left base "" ("_" ++ s) (append-nil base ∙ e) in
    underscore ((append-eq-nil_iff {p = "_"} {q = s}).0 (sym h)).0

-- The ids that are in use and not among those tried.
abbrev untried : List String → List String → ℕ
untried tried used = count (λ u. not (contains u tried)) used

untried_le :
    (tried : List String) (c : String) (used : List String)
    → untried (c ∷ tried) used ≤ untried tried used
unfolding contains
untried_le tried c [] = omega arith
untried_le tried c (u ∷ used) = ground (arith, untried_le tried c used)

tried_head :
    (tried : List String) (c : String) (used : List String)
    → contains c tried ≡ false
    → untried (c ∷ tried) (c ∷ used) < untried tried (c ∷ used)
unfolding contains
tried_head tried c used n = ground (arith, eq_refl c, n, untried_le tried c used)

untried_less :
    (tried : List String) (c : String) (used : List String)
    → contains c used ≡ true
    → contains c tried ≡ false
    → untried (c ∷ tried) used < untried tried used
unfolding contains
untried_less tried c [] h n = cc
untried_less tried c (u ∷ used) h n = elim (Bool-cases (u == c)) [
  | inl e ↦
      subst (λ z. untried (c ∷ tried) (z ∷ used) < untried tried (z ∷ used))
        (sym ((eq_iff u c).0 e)) (tried_head tried c used n)
  | inr e ↦ ground (arith, untried_less tried c used (ground (arith, e, h)) n)
]

module _ (str : ℕ → String) (str_injective : (n m : ℕ) → str n ≡ str m → n ≡ m)
    (base : String) where
  -- The candidates in order.
  abbrev candidate : ℕ → String
  candidate zero = base
  candidate (suc k) = numbered str base (k + 2)

  abbrev tried : ℕ → List String
  tried zero = []
  tried (suc k) = candidate k ∷ tried k

  apart : (i k : ℕ) → i < k → candidate i ≢ candidate k
  unfolding numbered
  apart i zero lt e = absurd (omega arith)
  apart zero (suc k) lt e = not_longer base _ e
  apart (suc i) (suc k) lt e =
      let eq =
        str_injective (i + 2) (k + 2)
          (append_cancel_left "_" _ _ (append_cancel_left base _ _ e)) in
      omega arith

  different : (i k : ℕ) → i < k → (candidate i == candidate k) ≡ false
  unfolding numbered
  different i k lt = elim (Bool-cases (candidate i == candidate k)) [
    | inr e ↦ e
    | inl e ↦ absurd (apart i k lt ((eq_iff (candidate i) (candidate k)).0 e))
  ]

  not_tried : (k n : ℕ) → n ≤ k → contains (candidate k) (tried n) ≡ false
  unfolding contains
  not_tried k zero le = refl
  not_tried k (suc n) le = ground (arith, different n k (omega arith), not_tried k n (omega arith))

  next_candidate :
      (fuel : ℕ) (used : List String) (k : ℕ)
      → contains (candidate k) used ≡ true
      → find_free str (suc fuel) used base (candidate k) (k + 2)
        ≡ find_free str fuel used base (candidate (suc k)) (suc k + 2)
  unfolding find_free
  next_candidate fuel used k e =
      rw e (ap (find_free str fuel used base (candidate (suc k))) (omega arith))

  find_free-some :
      (fuel : ℕ) (used : List String) (k : ℕ)
      → untried (tried k) used < fuel
      → (c : String) × (find_free str fuel used base (candidate k) (k + 2) ≡ some c)
        × (contains c used ≡ false)
  unfolding find_free
  find_free-some zero used k h = absurd (omega arith)
  find_free-some (suc fuel) used k h = elim (Bool-cases (contains (candidate k) used)) [
    | inr e ↦ (candidate k, simp e, e)
    | inl e ↦
        let less = untried_less (tried k) (candidate k) used e (not_tried k k (omega arith)) in
        let (c, f, n) = find_free-some fuel used (suc k) (omega arith) in
        (c, next_candidate fuel used k e ∙ f, n)
  ]

  untried_all : (used : List String) → untried [] used ≤ length used
  unfolding contains
  untried_all [] = omega arith
  untried_all (u ∷ used) = ground (arith, untried_all used)

  -- A free id is always found.
  pub free_id-some :
      (used : List String)
      → (c : String) × (free_id str used base ≡ some c) × (contains c used ≡ false)
  unfolding free_id
  free_id-some used = find_free-some (length used + 1) used 0 (omega (arith, untried_all used))
