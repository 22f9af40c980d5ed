-- ===== src/Dlq/Cursor.antt =====
-- Going on after a cursor (dlq/store.py): the pages follow one another.
use relayna.Dlq.{
  DlqRecord, lpos, start_index, DlqStore, Filters, records_key, record_matches, list_records,
}
use relayna.Dlq.Scan.{matching, page_of}
use mathlib.Core.Option.{none, some}
use mathlib.Core.Bool.{true≢false}
use relayna.Prelude.{
  List, String, Bool, ◌∷◌, ◌==◌, ℕ, Option, ◌≡◌, false, true, map, arith, get_elem?, [], suc,
  eq_iff, ◌∙◌, refl, sym, ap, some-eq, zero, Option-cases, drop, Bool-cases, inl, inr, max,
}
use relayna.Prelude.Text.{contains, AreDistinct}
use relayna.Dlq.Paging.{IsRead, list_records-page}

lpos-here :
    (i cursor : String) (ids : List String) → (i == cursor) ≡ true → lpos cursor (i ∷ ids) ≡ some 0
unfolding lpos
lpos-here i cursor ids h = rw h refl

lpos-later :
    (i cursor : String) (ids : List String) (pos : ℕ)
    → (i == cursor) ≡ false
    → lpos cursor ids ≡ some pos
    → lpos cursor (i ∷ ids) ≡ some (suc pos)
unfolding lpos
lpos-later i cursor ids pos h e = rw h (rw e refl)

module _ (p : DlqRecord → Bool) (reads : String → Option DlqRecord)
    (keyed : (i : String) (r : DlqRecord) → reads i ≡ some r → r.dlq_id ≡ i) where
  abbrev pub passing : List String → List DlqRecord
  passing ids = matching p (map reads ids)

  passing-none : (i : String) (ids : List String) → reads i ≡ none → passing (i ∷ ids) ≡ passing ids
  unfolding matching
  passing-none i ids e = rw e refl

  passing-pass :
      (i : String) (ids : List String) (r : DlqRecord)
      → reads i ≡ some r
      → p r ≡ true
      → passing (i ∷ ids) ≡ r ∷ passing ids
  unfolding matching
  passing-pass i ids r e h = rw e (rw h refl)

  passing-fail :
      (i : String) (ids : List String) (r : DlqRecord)
      → reads i ≡ some r
      → p r ≡ false
      → passing (i ∷ ids) ≡ passing ids
  unfolding matching
  passing-fail i ids r e h = rw e (rw h refl)

  -- The id of a record that passes is among the ids, and the record is what is read under it.
  module _ (r : DlqRecord) where
    abbrev pub Known : List String → Type 0
    Known ids = (contains r.dlq_id ids ≡ true) × (reads r.dlq_id ≡ some r) × (p r ≡ true)

    Known-later : (i : String) (ids : List String) → Known ids → Known (i ∷ ids)
    unfolding contains
    Known-later i ids (a, b, c) = (ground (arith, a), b, c)

    Known-here : (i : String) (ids : List String) → reads i ≡ some r → p r ≡ true → Known (i ∷ ids)
    unfolding contains
    Known-here i ids e h =
        (ground (arith, (eq_iff i r.dlq_id).1 (sym (keyed i r e))), ap reads (keyed i r e) ∙ e, h)

    first_or_later :
        (i : String) (ids : List String) (x : DlqRecord) (k : ℕ)
        → reads i ≡ some x
        → p x ≡ true
        → ((k : ℕ) → get_elem? (passing ids) k ≡ some r → Known ids)
        → get_elem? (x ∷ passing ids) k ≡ some r
        → Known (i ∷ ids)
    first_or_later i ids x zero n passes h e =
        Known-here i ids (n ∙ e) (ap p (sym (some-eq e)) ∙ passes)
    first_or_later i ids x (suc k) n passes h e = Known-later i ids (h k e)

    pub passing-Known : (ids : List String) (k : ℕ) → get_elem? (passing ids) k ≡ some r → Known ids
    unfolding matching
    passing-Known [] k e = absurd (cc e)
    passing-Known (i ∷ ids) k e = elim (Option-cases (reads i)) [
      | inl n ↦
          Known-later i ids
            (passing-Known ids k (ap (λ l. get_elem? l k) (sym (passing-none i ids n)) ∙ e))
      | inr (x, n) ↦ elim (Bool-cases (p x)) [
        | inr fails ↦
            Known-later i ids (
              passing-Known ids k
                (ap (λ l. get_elem? l k) (sym (passing-fail i ids x n fails)) ∙ e))
        | inl passes ↦
            first_or_later i ids x k n passes (passing-Known ids)
              (ap (λ l. get_elem? l k) (sym (passing-pass i ids x n passes)) ∙ e)
      ]
    ]

    -- What follows the cursor is what follows its record.
    abbrev Follows : List String → ℕ → Type 0
    Follows ids k =
        (pos : ℕ) × (lpos r.dlq_id ids ≡ some pos)
        × (passing (drop (suc pos) ids) ≡ drop (suc k) (passing ids))

    -- An id that is not the cursor.
    skipped :
        (i : String) (ids : List String) (k j : ℕ)
        → (i == r.dlq_id) ≡ false
        → drop (suc k) (passing ids) ≡ drop (suc j) (passing (i ∷ ids))
        → Follows ids k
        → Follows (i ∷ ids) j
    skipped i ids k j other e (pos, a, b) = (suc pos, lpos-later i r.dlq_id ids pos other a, b ∙ e)

    not_cursor :
        (i : String) (ids : List String) (k : ℕ) (o : Option DlqRecord)
        → get_elem? (passing ids) k ≡ some r
        → reads i ≡ o
        → ((x : DlqRecord) → o ≡ some x → p x ≡ false)
        → (i == r.dlq_id) ≡ false
    not_cursor i ids k o e n fails = elim (Bool-cases (i == r.dlq_id)) [
      | inr other ↦ other
      | inl same ↦
          let (a, b, c) = passing-Known ids k e in
          absurd (true≢false (sym c ∙ fails r (sym n ∙ ap reads ((eq_iff i r.dlq_id).0 same) ∙ b)))
    ]

    first-Follows :
        (i : String) (ids : List String) (x : DlqRecord) (k : ℕ)
        → contains i ids ≡ false
        → reads i ≡ some x
        → p x ≡ true
        → ((k : ℕ) → get_elem? (passing ids) k ≡ some r → Follows ids k)
        → get_elem? (x ∷ passing ids) k ≡ some r
        → Follows (i ∷ ids) k
    first-Follows i ids x zero d n passes h e = (
      0,
      lpos-here i r.dlq_id ids ((eq_iff i r.dlq_id).1 (sym (keyed i r (n ∙ e)))),
      ap (drop 1) (sym (passing-pass i ids x n passes)),
    )
    first-Follows i ids x (suc k) d n passes h e =
        skipped i ids k (suc k) other
          (ap (drop (suc (suc k))) (sym (passing-pass i ids x n passes))) (h k e)
      where
        other : (i == r.dlq_id) ≡ false
        other = elim (Bool-cases (i == r.dlq_id)) [
          | inr o ↦ o
          | inl same ↦ absurd (
              true≢false (
                sym (passing-Known ids k e).0
                ∙ ap (λ j. contains j ids) (sym ((eq_iff i r.dlq_id).0 same))
                ∙ d))
        ]

    passing-Follows :
        (ids : List String) (k : ℕ)
        → AreDistinct ids
        → get_elem? (passing ids) k ≡ some r
        → Follows ids k
    unfolding matching
    passing-Follows [] k d e = absurd (cc e)
    passing-Follows (i ∷ ids) k (d, ds) e = elim (Option-cases (reads i)) [
      | inl n ↦
          let e' = ap (λ l. get_elem? l k) (sym (passing-none i ids n)) ∙ e in
          skipped i ids k k (not_cursor i ids k none e' n (λ x q. absurd (cc q)))
            (ap (drop (suc k)) (sym (passing-none i ids n))) (passing-Follows ids k ds e')
      | inr (x, n) ↦ elim (Bool-cases (p x)) [
        | inr fails ↦
            let e' = ap (λ l. get_elem? l k) (sym (passing-fail i ids x n fails)) ∙ e in
            skipped i ids k k
              (not_cursor i ids k (some x) e' n (λ y q. ap p (sym (some-eq q)) ∙ fails))
              (ap (drop (suc k)) (sym (passing-fail i ids x n fails))) (passing-Follows ids k ds e')
        | inl passes ↦
            first-Follows i ids x k d n passes (λ k. passing-Follows ids k ds)
              (ap (λ l. get_elem? l k) (sym (passing-pass i ids x n passes)) ∙ e)
      ]
    ]

-- If the ids of the server's list are distinct and have the texts of records with these ids, going on
-- after any record that passes the filters, by its id, which is not empty, returns the page of the
-- records that follow it.
pub list_records-after :
    (t : DlqStore) (filters : Filters) (limit : ℕ) (s : t.redis.State)
    (reads : String → Option DlqRecord) (j : ℕ) (r : DlqRecord)
    → IsRead t s reads
    → ((i : String) (x : DlqRecord) → reads i ≡ some x → x.dlq_id ≡ i)
    → AreDistinct (t.redis.list s (records_key t))
    → (r.dlq_id == "") ≡ false
    → get_elem? (matching (record_matches filters) (map reads (t.redis.list s (records_key t)))) j
      ≡ some r
    → list_records t filters (some r.dlq_id) limit s
      ≡ some (
          page_of (max 1 limit) (
            drop
              (suc j)
              (matching (record_matches filters) (map reads (t.redis.list s (records_key t))))))
unfolding start_index
list_records-after t filters limit s reads j r read keyed distinct nonempty e =
    let ids = t.redis.list s (records_key t) in
    let (pos, found, rest) =
      passing-Follows (record_matches filters) reads keyed r ids j distinct e in
    let start : start_index (some r.dlq_id) ids ≡ suc pos = rw nonempty (rw found refl) in
    list_records-page t filters (some r.dlq_id) limit s reads read
    ∙ ap
        (λ n.
          some (page_of (max 1 limit) (matching (record_matches filters) (map reads (drop n ids)))))
        start
    ∙ ap (λ l. some (page_of (max 1 limit) l)) rest
