-- ===== src/Dlq/Follow.antt =====
-- A client that follows the cursors of the listing of dead letters (dlq/store.py).
use relayna.Dlq.{
  DlqRecord, DlqStore, Filters, records_key, record_matches, list_records, start_index, full_page,
}
use relayna.Dlq.Scan.{matching, page_of}
use relayna.Dlq.Paging.{IsRead, list_records-page}
use relayna.Dlq.Cursor.{list_records-after, passing-Known}
use relayna.Prelude.Options.{◌>>=◌}
use relayna.Prelude.Text.{AreDistinct}
use mathlib.Core.Option.{none, some}
use mathlib.Core.Option
use relayna.Prelude.{
  List, String, ◌∷◌, ◌==◌, ℕ, Option, ◌≡◌, false, true, map, arith, get_elem?, [], suc, ltb, take,
  length, ◌∙◌, refl, sym, ap, zero, drop, Bool-cases, inl, inr, max, ◌+◌, ◌-◌, ◌<◌, ◌++◌,
}

get_elem-some :
    (k : ℕ) (l : List DlqRecord) → k < length l → (r : DlqRecord) × (get_elem? l k ≡ some r)
get_elem-some k [] h = absurd (omega (arith, h))
get_elem-some zero (x ∷ l) h = (x, refl)
get_elem-some (suc k) (x ∷ l) h = get_elem-some k l (omega (arith, h))

get_elem-nil : (k : ℕ) → get_elem? {A = DlqRecord} [] k ≡ none
get_elem-nil zero = refl
get_elem-nil (suc k) = refl

drop_nil : (k : ℕ) → drop {A = DlqRecord} k [] ≡ []
drop_nil zero = refl
drop_nil (suc k) = refl

get_elem-drop : (j k : ℕ) (l : List DlqRecord) → get_elem? (drop j l) k ≡ get_elem? l (j + k)
get_elem-drop zero k l = ap (get_elem? l) (omega arith)
get_elem-drop (suc j) k [] = get_elem-nil k ∙ sym (get_elem-nil (suc j + k))
get_elem-drop (suc j) k (x ∷ l) =
    get_elem-drop j k l ∙ ap (get_elem? (x ∷ l)) {x = suc (j + k)} {y = suc j + k} (omega arith)

drop-drop : (j k : ℕ) (l : List DlqRecord) → drop k (drop j l) ≡ drop (j + k) l
drop-drop zero k l = ap (λ n. drop n l) (omega arith)
drop-drop (suc j) k [] = drop_nil k ∙ sym (drop_nil (suc j + k))
drop-drop (suc j) k (x ∷ l) =
    drop-drop j k l ∙ ap (λ n. drop n (x ∷ l)) {x = suc (j + k)} {y = suc j + k} (omega arith)

length_dropped : (k : ℕ) (l : List DlqRecord) → length (drop k l) ≡ length l - k
length_dropped zero l = omega arith
length_dropped (suc k) [] = omega arith
length_dropped (suc k) (x ∷ l) = omega (arith, length_dropped k l)

take-drop : (k : ℕ) (l : List DlqRecord) → (take k l ++ drop k l) ≡ l
take-drop zero l = refl
take-drop (suc k) [] = refl
take-drop (suc k) (x ∷ l) = ap (λ r. x ∷ r) (take-drop k l)

-- The rest of the pages after one of them.
unfoldable pub more :
    (String → Option (List DlqRecord)) → List DlqRecord × Option String → Option (List DlqRecord)
more next (items, none) = some items
more next (items, some cursor) = do rest ← next cursor; some (items ++ rest)

page_fits :
    (n : ℕ) (l : List DlqRecord) → ltb (suc n) (length l) ≡ false → page_of (suc n) l ≡ (l, none)
unfolding page_of
page_fits n l h = rw h refl

page_full :
    (n : ℕ) (l : List DlqRecord) (r : DlqRecord)
    → ltb (suc n) (length l) ≡ true
    → get_elem? l n ≡ some r
    → page_of (suc n) l ≡ (take (suc n) l, some r.dlq_id)
unfolding page_of full_page
page_full n l r h e = rw h (
    ap (λ o. (take (suc n) l, Option.map (λ (x : DlqRecord). x.dlq_id) o))
      (ap (get_elem? l) {x = suc n - 1} {y = n} (omega arith) ∙ e))

module _ (t : DlqStore) (filters : Filters) (limit : ℕ) (s : t.redis.State) where
  -- All pages from a cursor on: `none` where one is not read, or out of fuel.
  unfoldable pub follow_cursors : ℕ → Option String → Option (List DlqRecord)
  unfolding more
  follow_cursors zero cursor = none
  follow_cursors (suc fuel) cursor = do
    page ← list_records t filters cursor limit s
    more (λ c. follow_cursors fuel (some c)) page

  module _ (reads : String → Option DlqRecord) (read : IsRead t s reads)
      (keyed : (i : String) (x : DlqRecord) → reads i ≡ some x → x.dlq_id ≡ i)
      (named : (i : String) (x : DlqRecord) → reads i ≡ some x → (x.dlq_id == "") ≡ false)
      (distinct : AreDistinct (t.redis.list s (records_key t))) where
    -- All records that pass, in the order of the list.
    abbrev passing_records : List DlqRecord
    passing_records = matching (record_matches filters) (map reads (t.redis.list s (records_key t)))

    after_page :
        (n k : ℕ)
        → max 1 limit ≡ suc n
        → suc n < length (drop k passing_records)
        → (r : DlqRecord) × (get_elem? (drop k passing_records) n ≡ some r)
          × (list_records t filters (some r.dlq_id) limit s
              ≡ some (page_of (suc n) (drop (k + suc n) passing_records)))
    after_page n k size more_ =
        let (r, e) = get_elem-some n (drop k passing_records) (omega (arith, more_)) in
        let e' = sym (get_elem-drop k n passing_records) ∙ e in
        let (a, b, c) =
          passing-Known (record_matches filters) reads keyed r (t.redis.list s (records_key t))
            (k + n) e' in
        (
          r,
          e,
          list_records-after t filters limit s reads (k + n) r read keyed distinct
                (named r.dlq_id r b) e'
              ∙ ap (λ a. some (page_of a (drop (suc (k + n)) passing_records))) size
              ∙ ap (λ b. some (page_of (suc n) (drop b passing_records))) {x = suc (k + n)}
                  {y = k + suc n} (omega arith),
        )

    follow-page :
        (fuel n k : ℕ) (cursor : Option String)
        → max 1 limit ≡ suc n
        → length passing_records - k < fuel
        → list_records t filters cursor limit s ≡ some (page_of (suc n) (drop k passing_records))
        → follow_cursors fuel cursor ≡ some (drop k passing_records)
    unfolding follow_cursors
    follow-page zero n k cursor size h e = absurd (omega (arith, h))
    follow-page (suc fuel) n k cursor size h e =
        let l = drop k passing_records in
        let next : String → Option (List DlqRecord) = λ c. follow_cursors fuel (some c) in
        ap (λ o. o >>= more next) e ∙ elim (Bool-cases (ltb (suc n) (length l))) [
          | inr fits ↦ ap (more next) (page_fits n l fits)
          | inl long ↦
              let longer : suc n < length l = ground (arith, long) in
              let (r, at, page) = after_page n k size longer in
              ap (more next) (page_full n l r long at)
              ∙ ap (λ o. o >>= λ rest. some (take (suc n) l ++ rest))
                  (follow-page fuel n (k + suc n) (some r.dlq_id) size
                    (omega (arith, h, longer, length_dropped k passing_records)) page)
              ∙ ap (λ rest. some (take (suc n) l ++ rest))
                  (sym (drop-drop k (suc n) passing_records))
              ∙ ap some (take-drop (suc n) l)
        ]

    -- If the ids of the server's list are distinct and have the texts of records with these ids, none of
    -- them empty: a client that lists from the start and goes on after the cursor of each page until
    -- there is none gets every record that passes the filters, once, in the order of the list, within
    -- one page more than there are such records.
    pub follow_cursors-all :
        follow_cursors (suc (length passing_records)) none ≡ some passing_records
    unfolding start_index
    follow_cursors-all =
        follow-page (suc (length passing_records)) (max 1 limit - 1) 0 none (omega arith)
          (omega arith)
          (list_records-page t filters none limit s reads read
            ∙ ap (λ n. some (page_of n passing_records)) (omega arith))
