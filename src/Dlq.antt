-- ===== src/Dlq.antt =====
-- The dead letters (dlq/store.py, dlq/models.py), over the Redis server.
pub mod Scan
pub mod Paging
pub mod Cursor
pub mod Follow
pub mod Replay
pub mod Once
mod Expiries
pub mod Headers
pub mod Records
use relayna.Redis.{Redis, Command, set, delete, lpush, zadd, zrem, expire, redis_key}
use relayna.Redis.Pipelines.{execute}
use relayna.Prelude.Options.{◌>>=◌}
use relayna.Status.{expire_in, nonzero}
use mathlib.Core.Option.{none, some}
use mathlib.Core.Option
use relayna.Prelude.{
  String, ℕ, Option, Bool, ◌∷◌, List, true, ◌&&◌, false, take, if◌then◌else◌, [], ◌++◌, suc, max,
  ◌==◌, ltb, drop, length, ◌||◌, is_nonempty, ◌*◌, ◌+◌, zero, get_elem?, leb, ◌-◌,
}
use relayna.Json.{Json}
use relayna.Prelude.Dict.{Dict}

pub data DlqRecordState : Type 0 where
  dead_lettered replayed : DlqRecordState

pub data FailedTaskInvestigationStatus : Type 0 where
  unreviewed investigated : FailedTaskInvestigationStatus

-- The fields of a `DLQRecord` that the store or the replay reads or writes; `rest` has the others.
pub record DlqRecord : Type 0 where
  pub dlq_id : String
  pub queue_name : String
  pub source_queue_name : String
  pub retry_queue_name : String
  pub headers : Dict Json
  pub task_id : Option String
  pub service_name : Option String
  pub reason : String
  pub exception_type : Option String
  pub dead_lettered_at : ℕ
  pub state : DlqRecordState
  pub replay_count : ℕ
  pub replayed_at : Option ℕ
  pub replay_target_queue_name : Option String
  pub failed_at : Option ℕ
  pub status : String
  pub worker_id : Option String
  pub investigation_status : FailedTaskInvestigationStatus
  pub rest : Json

-- `RedisDLQStore`, with pydantic's texts of a record and `isoformat` of a time.
pub record DlqStore : Type 1 where
  pub redis : Redis
  pub hash_tag : String → String → String
  pub prefix : String
  pub ttl_seconds : Option ℕ
  pub model_dump_json : DlqRecord → String
  pub model_validate_json : String → Option DlqRecord
  pub isoformat : ℕ → String

-- failed_at or dead_lettered_at
unfoldable pub failed_score : DlqRecord → ℕ
failed_score record_ = elim record_.failed_at [ none ↦ record_.dead_lettered_at | some at ↦ at ]

-- `if wanted and actual != wanted: continue`
unfoldable pub passes : Option String → Option String → Bool
passes none actual = true
passes (some wanted) none = wanted == ""
passes (some wanted) (some actual) = wanted == "" || actual == wanted

unfoldable pub same_state : DlqRecordState → DlqRecordState → Bool
same_state dead_lettered dead_lettered = true
same_state replayed replayed = true
same_state _ _ = false

unfoldable pub in_state : Option DlqRecordState → DlqRecordState → Bool
unfolding same_state
in_state none actual = true
in_state (some wanted) actual = same_state actual wanted

-- The filters of `list_records`.
pub record Filters : Type 0 where
  pub queue_name : Option String
  pub task_id : Option String
  pub reason : Option String
  pub source_queue_name : Option String
  pub state : Option DlqRecordState

unfoldable pub record_matches : Filters → DlqRecord → Bool
unfolding passes in_state
record_matches f r =
    passes f.queue_name (some r.queue_name)
    && passes f.task_id r.task_id
    && passes f.reason (some r.reason)
    && passes f.source_queue_name (some r.source_queue_name)
    && in_state f.state r.state

-- The loop over the records of a chunk: whether the page is full, and the items.
unfoldable pub scan :
    (DlqRecord → Bool) → ℕ → List (Option DlqRecord) → List DlqRecord → Bool × List DlqRecord
scan p page_size [] items = (false, items)
scan p page_size (none ∷ records) items = scan p page_size records items
scan p page_size (some r ∷ records) items =
    let more = scan p page_size records (items ++ r ∷ []) in
    let same = scan p page_size records items in
    if p r
    then (if ltb page_size (length (items ++ r ∷ [])) then (true, items ++ r ∷ []) else more)
    else same

-- items[:page_size], items[page_size - 1].dlq_id
unfoldable pub full_page : ℕ → List DlqRecord → List DlqRecord × Option String
full_page page_size items = (
  take page_size items,
  Option.map (λ (r : DlqRecord). r.dlq_id) (get_elem? items (page_size - 1)),
)

-- lpos(key, x): the place of the first element that is x.
unfoldable pub lpos : String → List String → Option ℕ
lpos x [] = none
lpos x (y ∷ ys) = let rest = lpos x ys in if y == x then some 0 else Option.map suc rest

-- Where a listing starts: after the cursor, if it is there.
unfoldable pub start_index : Option String → List String → ℕ
unfolding lpos
start_index none ids = 0
start_index (some cursor) ids =
    if cursor == "" then 0 else elim (lpos cursor ids) [ none ↦ 0 | some position ↦ suc position ]

module _ (t : DlqStore) where
  open t use {redis, hash_tag, prefix, ttl_seconds, model_dump_json, model_validate_json}
  open redis use {State, value, list, exec}

  unfoldable pub record_key : String → String
  record_key dlq_id = redis_key hash_tag prefix "dlq" ("dlq" ∷ "record" ∷ dlq_id ∷ [])

  unfoldable pub records_key : String
  records_key = redis_key hash_tag prefix "dlq" ("dlq" ∷ "records" ∷ [])

  unfoldable pub failed_tasks_index_key : String
  failed_tasks_index_key = redis_key hash_tag prefix "dlq" ("failed_tasks" ∷ "index" ∷ [])

  unfoldable pub replay_lock_key : String → String
  replay_lock_key dlq_id = redis_key hash_tag prefix "dlq" ("dlq" ∷ "replay-lock" ∷ dlq_id ∷ [])

  unfoldable pub add_record : DlqRecord → State → State
  unfolding record_key records_key failed_tasks_index_key failed_score expire_in nonzero
  add_record r s =
      execute redis
        (set (record_key r.dlq_id) (model_dump_json r) ttl_seconds
          ∷ lpush records_key r.dlq_id
          ∷ zadd failed_tasks_index_key r.dlq_id (failed_score r)
          ∷ (expire_in (nonzero ttl_seconds) records_key
              ++ expire_in (nonzero ttl_seconds) failed_tasks_index_key))
        s

  unfoldable pub parse_record : Option String → Option (Option DlqRecord)
  parse_record none = some none
  parse_record (some payload) = do r ← model_validate_json payload; some (some r)

  -- `get`: `none` outside where the text is no record's.
  unfoldable pub get_record : String → State → Option (Option DlqRecord)
  unfolding parse_record record_key
  get_record dlq_id s = parse_record (value s (record_key dlq_id))

  unfoldable pub get_many : List String → State → Option (List (Option DlqRecord))
  unfolding get_record
  get_many [] s = some []
  get_many (dlq_id ∷ dlq_ids) s = do
    r ← get_record dlq_id s
    records ← get_many dlq_ids s
    some (r ∷ records)

  -- The end of a round of the loop of `list_records`.
  unfoldable pub close_chunk :
      ℕ
      → Bool
      → Bool × List DlqRecord
      → (List DlqRecord → Option (List DlqRecord × Option String))
      → Option (List DlqRecord × Option String)
  unfolding full_page
  close_chunk page_size short (true, items) next = some (full_page page_size items)
  close_chunk page_size short (false, items) next = if short then some (items, none) else next items

  -- The loop, from an offset on: `none` where a text is no record's, or out of fuel.
  unfoldable pub list_chunks :
      ℕ
      → (DlqRecord → Bool)
      → ℕ
      → ℕ
      → ℕ
      → List DlqRecord
      → State
      → Option (List DlqRecord × Option String)
  unfolding get_many scan close_chunk records_key
  list_chunks zero p page_size chunk_size offset items s = none
  list_chunks (suc fuel) p page_size chunk_size offset items s =
      let ids = take chunk_size (drop offset (list s records_key)) in
      if leb (length items) page_size && is_nonempty ids
      then (do
        records ← get_many ids s
        close_chunk page_size (ltb (length ids) chunk_size) (scan p page_size records items)
            (λ items'. list_chunks fuel p page_size chunk_size (offset + length ids) items' s))
      else some (items, none)

  unfoldable pub list_records :
      Filters → Option String → ℕ → State → Option (List DlqRecord × Option String)
  unfolding list_chunks record_matches start_index records_key
  list_records filters cursor limit s =
      let ids = list s records_key in
      let page_size = max 1 limit in
      list_chunks (suc (length ids)) (record_matches filters) page_size (max 100 (page_size * 2))
        (start_index cursor ids) [] s
