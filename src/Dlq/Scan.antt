-- ===== src/Dlq/Scan.antt =====
-- The loop over a chunk of dead letters (dlq/store.py).
use relayna.Dlq.{DlqRecord, scan, full_page}
use mathlib.Core.Option.{none, some}
use mathlib.Core.Option
use mathlib.Core.Path.{subst}
use relayna.Prelude.{
  Bool, ℕ, List, Option, ◌≤◌, ◌<◌, ◌++◌, if◌then◌else◌, String, length, ◌≡◌, [], ltb, take,
  get_elem?, ◌∷◌, ap₂, true, suc, arith, ap, ◌-◌, false, zero, refl, Bool-cases, sym, inl, if-cases,
  inr, ◌∙◌, length-append,
}

-- The records that pass, in order.
unfoldable pub matching : (DlqRecord → Bool) → List (Option DlqRecord) → List DlqRecord
matching p [] = []
matching p (none ∷ records) = matching p records
matching p (some r ∷ records) = let rest = matching p records in if p r then r ∷ rest else rest

-- A page of records: all of them and no cursor if they fit.
unfoldable pub page_of : ℕ → List DlqRecord → List DlqRecord × Option String
unfolding full_page
page_of page_size records =
    if ltb page_size (length records) then full_page page_size records else (records, none)

take-append : (k : ℕ) (xs ys : List DlqRecord) → k ≤ length xs → take k (xs ++ ys) ≡ take k xs
take-append zero xs ys h = refl
take-append (suc k) [] ys h = absurd (omega (arith, h))
take-append (suc k) (x ∷ xs) ys h = ap (λ r. x ∷ r) (take-append k xs ys (omega (arith, h)))

get_elem-append :
    (k : ℕ) (xs ys : List DlqRecord) → k < length xs → get_elem? (xs ++ ys) k ≡ get_elem? xs k
get_elem-append k [] ys h = absurd (omega (arith, h))
get_elem-append zero (x ∷ xs) ys h = refl
get_elem-append (suc k) (x ∷ xs) ys h = get_elem-append k xs ys (omega (arith, h))

pub append_assoc : (xs ys zs : List DlqRecord) → ((xs ++ ys) ++ zs) ≡ (xs ++ (ys ++ zs))
append_assoc [] ys zs = refl
append_assoc (x ∷ xs) ys zs = ap (λ r. x ∷ r) (append_assoc xs ys zs)

pub append_nil : (xs : List DlqRecord) → (xs ++ []) ≡ xs
append_nil [] = refl
append_nil (x ∷ xs) = ap (λ r. x ∷ r) (append_nil xs)

pub matching-append :
    (p : DlqRecord → Bool) (xs ys : List (Option DlqRecord))
    → matching p (xs ++ ys) ≡ (matching p xs ++ matching p ys)
unfolding matching
matching-append p [] ys = refl
matching-append p (none ∷ xs) ys = matching-append p xs ys
matching-append p (some r ∷ xs) ys = elim (Bool-cases (p r)) [
  | inl e ↦ rw e (ap (λ l. r ∷ l) (matching-append p xs ys))
  | inr e ↦ rw e (matching-append p xs ys)
]

-- A full page of records is a page of more records too.
full_page-append :
    (k : ℕ) (xs ys : List DlqRecord)
    → 1 ≤ k
    → k ≤ length xs
    → full_page k (xs ++ ys) ≡ full_page k xs
unfolding full_page
full_page-append k xs ys h l =
    ap₂ (λ x y. (x, Option.map (λ (r : DlqRecord). r.dlq_id) y)) (take-append k xs ys l)
      (get_elem-append (k - 1) xs ys (omega (arith, h, l)))

-- What the loop over a chunk makes of the records that follow.
module _ (p : DlqRecord → Bool) (k : ℕ) (pos : 1 ≤ k) where
  abbrev pub Scanned : Bool × List DlqRecord → List DlqRecord → Type 0
  Scanned (true, items) all =
      (k < length all) × ((rest : List DlqRecord) → full_page k (all ++ rest) ≡ full_page k items)
  Scanned (false, items) all = (items ≡ all) × (length items ≤ k)

  branch :
      (b : Bool) (x y : Bool × List DlqRecord) (items a c : List DlqRecord)
      → (b ≡ true → Scanned x (items ++ a))
      → (b ≡ false → Scanned y (items ++ c))
      → Scanned (if b then x else y) (items ++ (if b then a else c))
  branch true x y items a c f g = f refl
  branch false x y items a c f g = g refl

  pub scan-Scanned :
      (records : List (Option DlqRecord)) (items : List DlqRecord)
      → length items ≤ k
      → Scanned (scan p k records items) (items ++ matching p records)
  unfolding scan matching
  scan-Scanned [] items h = (sym (append_nil items), h)
  scan-Scanned (none ∷ records) items h = scan-Scanned records items h
  scan-Scanned (some r ∷ records) items h =
      let longer = items ++ r ∷ [] in
      let m = matching p records in
      branch (p r) _ _ items (r ∷ m) m
        (λ passes.
          subst
            (λ all.
              Scanned (if ltb k (length longer) then (true, longer) else scan p k records longer)
                all)
            (append_assoc items (r ∷ []) m)
            (if-cases (λ x. Scanned x (longer ++ m)) (ltb k (length longer)) (true, longer)
              (scan p k records longer)
              (λ full. (
                ground (arith, full, length-append longer m),
                λ rest.
                    ap (full_page k) (append_assoc longer m rest)
                    ∙ full_page-append k longer (m ++ rest) pos (ground (arith, full)),
              ))
              (λ short. scan-Scanned records longer (ground (arith, short)))))
        (λ fails. scan-Scanned records items h)
