-- ===== src/Dlq/Records.antt =====
-- What dead letters a store has after it was written to (dlq/store.py).
use relayna.Dlq.{
  DlqStore, DlqRecord, get_record, parse_record, record_key, records_key, add_record, Filters,
  failed_tasks_index_key, list_records, record_matches, start_index,
}
use relayna.Dlq.Replay.{update_record, delete_record}
use relayna.Dlq.Scan.{page_of, matching}
use relayna.Dlq.Paging.{IsRead, list_records-page}
use mathlib.Core.Option.{none, some}
use Prim.Native.String.{◌++◌}
use relayna.Prelude.{
  String, List, ◌≡◌, Bool, Option, [], ◌∷◌, ◌==◌, if◌then◌else◌, false, ◌∙◌, true, refl, ap, ℕ,
  eq_refl, max, map, drop, All,
}
use relayna.Prelude.Text.{join}
use relayna.Status.{nonzero}
use relayna.Dlq.Expiries.{values-expire, lists-expire}
use relayna.Redis.{set, delete, value_after, eq-segment, eq-append, eq-apart}
use relayna.Redis.Pipelines.{list-execute, value-execute}

-- The calls that write.
pub data Write : Type 0 where
  add update : DlqRecord → Write
  remove : String → Write

abbrev store_in :
    String → Option DlqRecord → (String → Option DlqRecord) → String → Option DlqRecord
store_in dlq_id r reads i = if dlq_id == i then r else reads i

-- The table of records after the writes, and the ids in the order of the list.
abbrev pub tabled : List Write → (String → Option DlqRecord) → String → Option DlqRecord
tabled [] reads = reads
tabled (add r ∷ ws) reads = tabled ws (store_in r.dlq_id (some r) reads)
tabled (update r ∷ ws) reads = tabled ws (store_in r.dlq_id (some r) reads)
tabled (remove dlq_id ∷ ws) reads = tabled ws (store_in dlq_id none reads)

abbrev pub added : List Write → List String → List String
added [] ids = ids
added (add r ∷ ws) ids = added ws (r.dlq_id ∷ ids)
added (update r ∷ ws) ids = added ws ids
added (remove dlq_id ∷ ws) ids = added ws ids

-- The records that are written.
abbrev pub written : List Write → List DlqRecord
written [] = []
written (add r ∷ ws) = r ∷ written ws
written (update r ∷ ws) = r ∷ written ws
written (remove dlq_id ∷ ws) = written ws

module _ (t : DlqStore) where
  open t use {redis, hash_tag, prefix, ttl_seconds}
  open redis use {State, value, list, exec}

  abbrev write : Write → State → State
  write (add r) s = add_record t r s
  write (update r) s = update_record t r s
  write (remove dlq_id) s = (delete_record t dlq_id s).1

  abbrev pub run_writes : List Write → State → State
  run_writes [] s = s
  run_writes (w ∷ ws) s = run_writes ws (write w s)

  record-record : (a b : String) → (record_key t a == record_key t b) ≡ (a == b)
  unfolding record_key join
  record-record a b =
      eq-segment hash_tag prefix "dlq" "dlq" "record" "record" (a ∷ []) (b ∷ [])
      ∙ eq-append "record" (":" ++ a) (":" ++ b)
      ∙ eq-append ":" a b

  record-records : (a : String) → (record_key t a == records_key t) ≡ false
  unfolding record_key records_key join
  record-records a =
      eq-segment hash_tag prefix "dlq" "dlq" "record" "records" (a ∷ []) []
      ∙ eq-append "record" (":" ++ a) "s"
      ∙ eq-apart ":" "s" a "" refl

  value-add_record :
      (r : DlqRecord) (s : State) (k : String)
      → value (add_record t r s) k
        ≡ value_after (set (record_key t r.dlq_id) (t.model_dump_json r) ttl_seconds) k (value s k)
  unfolding add_record
  value-add_record r s k =
      value-execute redis _ s k
      ∙ values-expire (nonzero ttl_seconds) (records_key t) (failed_tasks_index_key t) k _

  list-add_record :
      (r : DlqRecord) (s : State)
      → list (add_record t r s) (records_key t) ≡ r.dlq_id ∷ list s (records_key t)
  unfolding add_record
  list-add_record r s =
      list-execute redis _ s (records_key t)
      ∙ lists-expire (nonzero ttl_seconds) (records_key t) (failed_tasks_index_key t)
          (records_key t) _
      ∙ rw (record-records r.dlq_id) (rw (eq_refl (records_key t)) refl)

  list-update_record :
      (r : DlqRecord) (s : State)
      → list (update_record t r s) (records_key t) ≡ list s (records_key t)
  unfolding update_record
  list-update_record r s =
      redis.list-exec _ _ (records_key t)
      ∙ redis.list-exec _ s (records_key t)
      ∙ rw (record-records r.dlq_id) refl

  list-delete_record :
      (dlq_id : String) (s : State)
      → list (delete_record t dlq_id s).1 (records_key t) ≡ list s (records_key t)
  unfolding delete_record
  list-delete_record dlq_id s =
      redis.list-exec _ _ (records_key t)
      ∙ redis.list-exec _ s (records_key t)
      ∙ rw (record-records dlq_id) refl

  list-run_writes :
      (ws : List Write) (s : State)
      → list (run_writes ws s) (records_key t) ≡ added ws (list s (records_key t))
  list-run_writes [] s = refl
  list-run_writes (add r ∷ ws) s =
      list-run_writes ws (add_record t r s) ∙ ap (added ws) (list-add_record r s)
  list-run_writes (update r ∷ ws) s =
      list-run_writes ws (update_record t r s) ∙ ap (added ws) (list-update_record r s)
  list-run_writes (remove dlq_id ∷ ws) s =
      list-run_writes ws (delete_record t dlq_id s).1 ∙ ap (added ws) (list-delete_record dlq_id s)

  -- A record under its key, read.
  parse-set :
      (b : Bool) (r : DlqRecord) (old : Option String) (o : Option DlqRecord)
      → t.model_validate_json (t.model_dump_json r) ≡ some r
      → parse_record t old ≡ some o
      → parse_record t (if b then some (t.model_dump_json r) else old)
        ≡ some (if b then some r else o)
  unfolding parse_record
  parse-set true r old o text e = rw text refl
  parse-set false r old o text e = e

  parse-delete :
      (b : Bool) (old : Option String) (o : Option DlqRecord)
      → parse_record t old ≡ some o
      → parse_record t (if b then none else old) ≡ some (if b then none else o)
  unfolding parse_record
  parse-delete true old o e = refl
  parse-delete false old o e = e

  -- A record that is read back from its text.
  abbrev IsReadable : DlqRecord → Type 0
  IsReadable r = t.model_validate_json (t.model_dump_json r) ≡ some r

  set-IsRead :
      (r : DlqRecord) (s s' : State) (reads : String → Option DlqRecord)
      → ((k : String)
          → value s' k
            ≡ value_after
                (set (record_key t r.dlq_id) (t.model_dump_json r) ttl_seconds)
                k
                (value s k))
      → IsReadable r
      → IsRead t s reads
      → IsRead t s' (store_in r.dlq_id (some r) reads)
  unfolding get_record
  set-IsRead r s s' reads h text read i =
      ap (parse_record t) (
        h (record_key t i)
        ∙ ap (λ b. if b then some (t.model_dump_json r) else value s (record_key t i))
            (record-record r.dlq_id i))
      ∙ parse-set (r.dlq_id == i) r (value s (record_key t i)) (reads i) text (read i)

  value-update_record :
      (r : DlqRecord) (s : State) (k : String)
      → value (update_record t r s) k
        ≡ value_after (set (record_key t r.dlq_id) (t.model_dump_json r) ttl_seconds) k (value s k)
  unfolding update_record
  value-update_record r s k = redis.value-exec _ _ k ∙ redis.value-exec _ s k

  delete-IsRead :
      (dlq_id : String) (s : State) (reads : String → Option DlqRecord)
      → IsRead t s reads
      → IsRead t (delete_record t dlq_id s).1 (store_in dlq_id none reads)
  unfolding get_record delete_record
  delete-IsRead dlq_id s reads read i =
      ap (parse_record t) (
        redis.value-exec _ _ (record_key t i)
        ∙ redis.value-exec (delete (record_key t dlq_id)) s (record_key t i)
        ∙ ap (λ b. if b then none else value s (record_key t i)) (record-record dlq_id i))
      ∙ parse-delete (dlq_id == i) (value s (record_key t i)) (reads i) (read i)

  -- The records after any writes are those of the table.
  run_writes-IsRead :
      (ws : List Write) (s : State) (reads : String → Option DlqRecord)
      → All IsReadable (written ws)
      → IsRead t s reads
      → IsRead t (run_writes ws s) (tabled ws reads)
  run_writes-IsRead [] s reads texts read = read
  run_writes-IsRead (add r ∷ ws) s reads (text, texts) read =
      run_writes-IsRead ws (add_record t r s) (store_in r.dlq_id (some r) reads) texts
        (set-IsRead r s (add_record t r s) reads (value-add_record r s) text read)
  run_writes-IsRead (update r ∷ ws) s reads (text, texts) read =
      run_writes-IsRead ws (update_record t r s) (store_in r.dlq_id (some r) reads) texts
        (set-IsRead r s (update_record t r s) reads (value-update_record r s) text read)
  run_writes-IsRead (remove dlq_id ∷ ws) s reads texts read =
      run_writes-IsRead ws (delete_record t dlq_id s).1 (store_in dlq_id none reads) texts
        (delete-IsRead dlq_id s reads read)

  -- If the records that are written are read back from their texts and the server has texts of records only: after any
  -- additions, updates and deletions, a listing is the page of the records that a table kept by id
  -- has after them, in the order of the additions, the newest first.
  pub list_records-run_writes :
      (filters : Filters) (cursor : Option String) (limit : ℕ) (ws : List Write) (s : State)
      (reads : String → Option DlqRecord)
      → All IsReadable (written ws)
      → IsRead t s reads
      → list_records t filters cursor limit (run_writes ws s)
        ≡ some (
            page_of (max 1 limit) (
              matching (record_matches filters) (
                map (tabled ws reads) (
                  drop
                    (start_index cursor (added ws (list s (records_key t))))
                    (added ws (list s (records_key t)))))))
  list_records-run_writes filters cursor limit ws s reads texts read =
      list_records-page t filters cursor limit (run_writes ws s) (tabled ws reads)
        (run_writes-IsRead ws s reads texts read)
      ∙ ap
          (λ ids. some (
            page_of (max 1 limit) (
              matching (record_matches filters)
                (map (tabled ws reads) (drop (start_index cursor ids) ids)))))
          (list-run_writes ws s)
