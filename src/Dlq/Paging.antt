-- ===== src/Dlq/Paging.antt =====
-- The pages of dead letters (dlq/store.py) against the list of all that pass the filters.
use relayna.Dlq.{
  DlqStore, DlqRecord, scan, get_many, get_record, list_chunks, list_records, start_index,
  record_matches, close_chunk, records_key, Filters,
}
use relayna.Dlq.Scan.{
  matching, page_of, scan-Scanned, Scanned, append_nil, matching-append, append_assoc,
}
use mathlib.Core.Option.{none, some}
use mathlib.Core.Path.{subst}
use relayna.Prelude.{
  ℕ, String, List, drop, Option, take, [], ◌≡◌, length, ◌++◌, suc, ◌+◌, ◌-◌, ◌<◌, map, ◌∷◌, zero,
  arith, ap, refl, ◌≤◌, is_nonempty, ◌∙◌, ltb, Bool, false, true, sym, length-append, Bool-cases,
  inl, le→leb, inr, max, ◌*◌, length-take,
}

-- A chunk and what follows it, and a chunk shorter than asked for, which is the last.
chunk_drop : (c : ℕ) (l : List String) → (take c l ++ drop (length (take c l)) l) ≡ l
chunk_drop zero l = refl
chunk_drop (suc c) [] = refl
chunk_drop (suc c) (x ∷ l) = ap (λ r. x ∷ r) (chunk_drop c l)

short_last : (c : ℕ) (l : List String) → length (take c l) < c → drop (length (take c l)) l ≡ []
short_last zero l h = absurd (omega (arith, h))
short_last (suc c) [] h = refl
short_last (suc c) (x ∷ l) h = short_last c l (omega (arith, h))

empty_chunk : (c : ℕ) (l : List String) → 1 ≤ c → is_nonempty (take c l) ≡ false → l ≡ []
empty_chunk zero l h e = absurd (omega (arith, h))
empty_chunk (suc c) [] h e = refl
empty_chunk (suc c) (x ∷ l) h e = absurd (cc e)

length-nonempty : (l : List String) → is_nonempty l ≡ true → 1 ≤ length l
length-nonempty [] h = absurd (cc h)
length-nonempty (x ∷ l) h = omega arith

drop-nil : (k : ℕ) → drop {A = String} k [] ≡ []
drop-nil zero = refl
drop-nil (suc k) = refl

drop-drop : (j k : ℕ) (l : List String) → drop k (drop j l) ≡ drop (j + k) l
drop-drop zero k l = let e : k ≡ 0 + k = omega arith in ap (λ n. drop n l) e
drop-drop (suc j) k [] = drop-nil k ∙ sym (drop-nil (suc j + k))
drop-drop (suc j) k (x ∷ l) =
    let e : suc (j + k) ≡ suc j + k = omega arith in drop-drop j k l ∙ ap (λ n. drop n (x ∷ l)) e

length-drop : (k : ℕ) (l : List String) → length (drop k l) ≡ length l - k
length-drop zero l = omega arith
length-drop (suc k) [] = omega arith
length-drop (suc k) (x ∷ l) = omega (arith, length-drop k l)

map-append :
    (f : String → Option DlqRecord) (xs ys : List String)
    → map f (xs ++ ys) ≡ (map f xs ++ map f ys)
map-append f [] ys = refl
map-append f (x ∷ xs) ys = ap (λ r. f x ∷ r) (map-append f xs ys)

not_more : (k n : ℕ) → n ≤ k → ltb k n ≡ false
not_more k n h = ground arith

more : (k n : ℕ) → k < n → ltb k n ≡ true
more k n h = ground arith

-- Records that fit into a page.
fitting :
    (k : ℕ) (records : List DlqRecord) → length records ≤ k → page_of k records ≡ (records, none)
unfolding page_of
fitting k records h = rw (not_more k (length records) h) refl

module _ (t : DlqStore) where
  open t use {redis}
  open redis use {State, list}

  -- The server has texts of records only.
  abbrev pub IsRead : State → (String → Option DlqRecord) → Type 0
  IsRead s reads = (dlq_id : String) → get_record t dlq_id s ≡ some (reads dlq_id)

  get_many-some :
      (s : State) (reads : String → Option DlqRecord) (ids : List String)
      → IsRead s reads
      → get_many t ids s ≡ some (map reads ids)
  unfolding get_many
  get_many-some s reads [] h = refl
  get_many-some s reads (i ∷ ids) h = rw (h i) (rw (get_many-some s reads ids h) refl)

  module _ (p : DlqRecord → Bool) (k : ℕ) (pos : 1 ≤ k) where
    -- The end of a round, where the next round gives the page of all that follows.
    close_chunk-page :
        (short : Bool) (x : Bool × List DlqRecord) (now later : List DlqRecord)
        → Scanned p k pos x now
        → (short ≡ true → later ≡ [])
        → (next : List DlqRecord → Option (List DlqRecord × Option String))
        → (short ≡ false → length now ≤ k → next now ≡ some (page_of k (now ++ later)))
        → close_chunk t k short x next ≡ some (page_of k (now ++ later))
    unfolding close_chunk page_of
    close_chunk-page short (true, items) now later (long, same) last next f = ap some (
        sym (
          rw (more k (length (now ++ later)) (omega (arith, long, length-append now later)))
            (same later)))
    close_chunk-page true (false, items) now later (e, fits) last next f = ap some (
        sym (
          ap (page_of k) (ap (λ l. now ++ l) (last refl) ∙ append_nil now ∙ sym e)
          ∙ fitting k items fits))
    close_chunk-page false (false, items) now later (e, fits) last next f =
        ap next e ∙ f refl (subst (λ l. length l ≤ k) e fits)

    module _ (c : ℕ) (chunk : 1 ≤ c) (s : State) (reads : String → Option DlqRecord)
        (read : IsRead s reads) where
      abbrev follow : ℕ → List String
      follow offset = drop offset (list s (records_key t))

      -- The records that pass, of these ids.
      abbrev passing : List String → List DlqRecord
      passing ids = matching p (map reads ids)

      passing-chunk :
          (rest : List String)
          → passing rest ≡ (passing (take c rest) ++ passing (drop (length (take c rest)) rest))
      passing-chunk rest =
          ap passing (sym (chunk_drop c rest))
          ∙ ap (matching p) (map-append reads (take c rest) (drop (length (take c rest)) rest))
          ∙ matching-append p (map reads (take c rest))
              (map reads (drop (length (take c rest)) rest))

      list_chunks-page :
          (fuel offset : ℕ) (items : List DlqRecord)
          → length (follow offset) < fuel
          → length items ≤ k
          → list_chunks t fuel p k c offset items s
            ≡ some (page_of k (items ++ passing (follow offset)))
      unfolding list_chunks matching
      list_chunks-page zero offset items f h = absurd (omega (arith, f))
      list_chunks-page (suc fuel) offset items f h =
          let rest = follow offset in
          let ids = take c rest in
          let later = drop (length ids) rest in
          elim (Bool-cases (is_nonempty ids)) [
            | inl there ↦ rw (le→leb (length items) k h) (
                rw there (
                  rw (get_many-some s reads ids read) (
                    close_chunk-page (ltb (length ids) c) (scan p k (map reads ids) items)
                      (items ++ passing ids) (passing later)
                      (scan-Scanned p k pos (map reads ids) items h)
                      (λ short. ap passing (short_last c rest (ground (arith, short)))) _
                      (λ full fits.
                        let q : length (follow (offset + length ids)) ≡ length rest - length ids =
                          ap length (sym (drop-drop offset (length ids) (list s (records_key t))))
                          ∙ length-drop (length ids) rest in
                        list_chunks-page fuel (offset + length ids) (items ++ passing ids)
                          (omega (arith, f, q, length-nonempty ids there, length-take c rest)) fits
                        ∙ ap (λ r. some (page_of k ((items ++ passing ids) ++ passing r)))
                            (sym (drop-drop offset (length ids) (list s (records_key t)))))
                    ∙ ap (λ l. some (page_of k l))
                        (append_assoc items (passing ids) (passing later)
                          ∙ ap (λ l. items ++ l) (sym (passing-chunk rest))))))
            | inr over ↦ rw (le→leb (length items) k h) (
                rw over (
                  ap some (
                    sym (
                      ap (page_of k) (
                        ap (λ r. items ++ passing r) (empty_chunk c rest chunk over)
                        ∙ append_nil items)
                      ∙ fitting k items h))))
          ]

  -- If the server has texts of records only, `list_records` returns the page of all the records after
  -- the cursor that pass the filters, in order, however they fall into chunks, with the cursor to go
  -- on from where more of them follow.
  pub list_records-page :
      (filters : Filters) (cursor : Option String) (limit : ℕ) (s : State)
      (reads : String → Option DlqRecord)
      → IsRead s reads
      → list_records t filters cursor limit s
        ≡ some (
            page_of (max 1 limit) (
              matching (record_matches filters) (
                map reads
                  (drop (start_index cursor (list s (records_key t))) (list s (records_key t))))))
  unfolding list_records
  list_records-page filters cursor limit s reads read =
      let ids = list s (records_key t) in
      let start = start_index cursor ids in
      list_chunks-page (record_matches filters) (max 1 limit) (omega arith)
        (max 100 (max 1 limit * 2)) (omega arith) s reads read (suc (length ids)) start []
        (omega (arith, length-drop start ids)) (omega arith)
