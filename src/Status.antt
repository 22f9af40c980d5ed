-- ===== src/Status.antt =====
-- The history of a task's statuses (status/store.py), over the Redis server.
pub mod Keys
pub mod Log
pub mod Attempts
pub mod History
pub mod Reads
use Prim.Native.String.{◌++◌}
use relayna.Json.{pos, Items, Fields}
use relayna.Redis.{
  Answer, answered, failed, has_reached, Redis, Command, set, delete, sadd, lpush, ltrim, expire,
  publish, redis_key,
}
use relayna.Redis.Pipelines.{execute}
use relayna.Prelude.Options.{◌>>=◌}
use mathlib.Core.Option.{none, some}
use relayna.Prelude.{
  String, Option, ℕ, List, if◌then◌else◌, suc, [], ◌∷◌, Bool, take, zero, ◌==◌, false, max, ◌||◌,
  true, ◌-◌, ◌+◌, ◌&&◌, not,
}
use relayna.Json.{Json, to_dict}
use relayna.Prelude.Dict.{Dict, get}
use relayna.Prelude.Text.{strip, sorted}

-- `RedisStatusStore`. `dumps`, `loads` and `str` are Python's, `digest` is the SHA-256 of an event's
-- canonical JSON, and `add_status_event` is what the service event store sends, if there is one.
pub record StatusStore : Type 1 where
  pub redis : Redis
  pub hash_tag : String → String → String
  pub prefix : String
  pub ttl_seconds : Option ℕ
  pub history_maxlen : ℕ
  pub dumps : Dict Json → String
  pub loads : String → Option (Dict Json)
  pub digest : Dict Json → String
  pub str : Json → String
  pub add_status_event : Dict Json → List Command

-- The calls of `set_history`, in their order, and how each ends in an attempt to store an event.
-- `delete_marker` is the one in its `except`.
pub data StoreCall : Type 0 where
  insert_marker get_marker push_history delete_marker add_to_parent add_to_feed publish_payload
        set_complete :
      StoreCall

abbrev pub Faults : Type 0
Faults = StoreCall → Answer

abbrev pub calm : Faults
calm c = answered

-- What follows a call that is answered; else the attempt ends in an exception, with the states
-- before and after the call.
unfoldable pub after_call : {S : Type 0} → Answer → S → S → (S → Bool × S) → Bool × S
after_call answered s s' next = next s'
after_call (failed reached cancelled) s s' next = (false, if reached then s' else s)

-- The command EXPIRE, where there is an expiry.
unfoldable pub expire_in : Option ℕ → String → List Command
expire_in none key = []
expire_in (some ttl) key = expire key ttl ∷ []

-- str(x or "")
unfoldable pub str_or_empty : (Json → String) → Json → String
str_or_empty str Json.null = ""
str_or_empty str (Json.boolean false) = ""
str_or_empty str (Json.number (pos zero)) = ""
str_or_empty str (Json.float x) = if x == "0.0" || x == "-0.0" then "" else str (Json.float x)
str_or_empty str (Json.text s) = s
str_or_empty str (Json.array Items.nil) = ""
str_or_empty str (Json.object Fields.end) = ""
str_or_empty str v = str v

-- str(d.get(k) or "").strip()
unfoldable pub stripped_field : (Json → String) → String → Dict Json → String
unfolding str_or_empty
stripped_field str k d = elim (get k d) [ none ↦ "" | some v ↦ strip (str_or_empty str v) ]

-- The `meta` of an event, if it is a dict.
unfoldable pub meta_of : Option Json → Option (Dict Json)
meta_of (some (Json.object fields)) = some (to_dict fields)
meta_of _ = none

-- An `event_id` that is a text of more than spaces, stripped.
unfoldable pub token_of : Option Json → Option String
token_of (some (Json.text s)) = if strip s == "" then none else some (strip s)
token_of _ = none

-- `if self.ttl_seconds`
unfoldable pub nonzero : Option ℕ → Option ℕ
nonzero (some zero) = none
nonzero o = o

-- The stop `n - 1` of LTRIM, where -1 is the last element.
unfoldable pub stop_before : ℕ → Option ℕ
stop_before zero = none
stop_before (suc n) = some n

module _ (t : StatusStore) where
  open t use {redis, hash_tag, prefix, history_maxlen, dumps, loads, digest, str, add_status_event}
  open redis use {State, value, list, smembers, exec}

  unfoldable pub history_key : String → String
  history_key task_id = redis_key hash_tag prefix ("status:" ++ task_id) ("history" ∷ task_id ∷ [])

  unfoldable pub channel_name : String → String
  channel_name task_id = redis_key hash_tag prefix ("status:" ++ task_id) ("channel" ∷ task_id ∷ [])

  -- The token of an event: its id, or the digest of its content.
  unfoldable pub event_token : Dict Json → String
  unfolding token_of
  event_token event = elim (token_of (get "event_id" event)) [
    | none ↦ digest event
    | some token ↦ token
  ]

  unfoldable pub event_key : String → Dict Json → String
  unfolding event_token
  event_key task_id event =
      redis_key hash_tag prefix ("status:" ++ task_id) ("event" ∷ task_id ∷ event_token event ∷ [])

  unfoldable pub child_tasks_key : String → String
  child_tasks_key parent_task_id =
      redis_key hash_tag prefix ("status-children:" ++ parent_task_id)
        ("children" ∷ parent_task_id ∷ [])

  unfoldable pub parent_of : Dict Json → Dict Json → Option String
  unfolding stripped_field
  parent_of event meta =
      let parent_task_id = stripped_field str "parent_task_id" meta in
      if parent_task_id == "" || parent_task_id == stripped_field str "task_id" event
      then none
      else some parent_task_id

  unfoldable pub parent_task_id : Dict Json → Option String
  unfolding meta_of parent_of
  parent_task_id event = do meta ← meta_of (get "meta" event); parent_of event meta

  unfoldable pub expiring : String → List Command
  unfolding expire_in nonzero
  expiring key = expire_in (nonzero t.ttl_seconds) key

  unfoldable pub push_event : String → Dict Json → List Command
  unfolding history_key stop_before expiring
  push_event task_id event =
      lpush (history_key task_id) (dumps event)
      ∷ ltrim (history_key task_id) (stop_before history_maxlen)
      ∷ expiring (history_key task_id)

  unfoldable pub add_child : String → String → List Command
  unfolding child_tasks_key expiring
  add_child parent task_id =
      sadd (child_tasks_key parent) task_id ∷ expiring (child_tasks_key parent)

  unfoldable pub mark_complete : String → Dict Json → State → State
  unfolding event_key nonzero
  mark_complete task_id event s =
      exec (set (event_key task_id event) "complete" (nonzero t.ttl_seconds)) s

  -- The end of `set_history`: whether it returns, and the state.
  unfoldable pub complete : Faults → String → Dict Json → State → Bool × State
  unfolding mark_complete after_call
  complete f task_id event s =
      after_call (f set_complete) s (mark_complete task_id event s) (λ s'. (true, s'))

  unfoldable pub publish_event : Faults → String → Dict Json → State → Bool × State
  unfolding channel_name complete after_call
  publish_event f task_id event s =
      after_call (f publish_payload) s (exec (publish (channel_name task_id) (dumps event)) s)
        (complete f task_id event)

  unfoldable pub feed_event : Faults → String → Dict Json → State → Bool × State
  unfolding publish_event after_call
  feed_event f task_id event s =
      after_call (f add_to_feed) s (execute redis (add_status_event event) s)
        (publish_event f task_id event)

  -- The child set of the parent, if there is one, and what follows.
  unfoldable pub relate : Faults → Option String → String → Dict Json → State → Bool × State
  unfolding add_child feed_event after_call
  relate f none task_id event s = feed_event f task_id event s
  relate f (some parent) task_id event s =
      after_call (f add_to_parent) s (execute redis (add_child parent task_id) s)
        (feed_event f task_id event)

  unfoldable pub announce : Faults → String → Dict Json → State → Bool × State
  unfolding parent_task_id relate
  announce f task_id event s = relate f (parent_task_id event) task_id event s

  -- The end of a push that raised: an exception, not a cancellation, has the marker deleted, if this
  -- call reaches the server.
  unfoldable pub push_raised : Bool → Bool → String → Dict Json → State → Bool × State
  unfolding event_key
  push_raised cancelled undone task_id event s =
      (false, if undone && not cancelled then exec (delete (event_key task_id event)) s else s)

  -- The push of a new event, by the end of its pipeline, which the server executes as a whole.
  unfoldable pub pushing : Faults → Answer → String → Dict Json → State → Bool × State
  unfolding push_event push_raised announce
  pushing f answered task_id event s =
      announce f task_id event (execute redis (push_event task_id event) s)
  pushing f (failed reached cancelled) task_id event s =
      push_raised cancelled (has_reached (f delete_marker)) task_id event
        (if reached then execute redis (push_event task_id event) s else s)

  unfoldable pub mark_pending : String → Dict Json → State → State
  unfolding event_key nonzero
  mark_pending task_id event s =
      exec (set (event_key task_id event) "pending" (nonzero t.ttl_seconds)) s

  -- `set_history`, from the marker on that SET NX finds, if any.
  unfoldable pub resume : Faults → Option String → String → Dict Json → State → Bool × State
  unfolding pushing announce mark_pending after_call
  resume f none task_id event s =
      pushing f (f push_history) task_id event (mark_pending task_id event s)
  resume f (some marker) task_id event s =
      after_call (f get_marker) s s
        (λ s'. if marker == "complete" then (true, s') else announce f task_id event s')

  -- `set_history` by the end of SET NX, which sets the marker where there is none.
  unfoldable pub inserting :
      Faults → Answer → Option String → String → Dict Json → State → Bool × State
  unfolding resume mark_pending
  inserting f answered marker task_id event s = resume f marker task_id event s
  inserting f (failed true cancelled) none task_id event s = (false, mark_pending task_id event s)
  inserting f (failed _ cancelled) marker task_id event s = (false, s)

  unfoldable pub set_history : Faults → String → Dict Json → State → Bool × State
  unfolding inserting event_key
  set_history f task_id event s =
      inserting f (f insert_marker) (value s (event_key task_id event)) task_id event s

  unfoldable pub load_all : List String → Option (List (Dict Json))
  load_all [] = some []
  load_all (item ∷ items) = do event ← loads item; events ← load_all items; some (event ∷ events)

  unfoldable pub limit_of : Option ℕ → ℕ
  limit_of none = history_maxlen
  limit_of (some limit) = limit

  -- lrange(key, 0, max(0, limit - 1)), whose stop is the last element that it takes.
  unfoldable pub get_history : String → Option ℕ → State → Option (List (Dict Json))
  unfolding history_key load_all limit_of
  get_history task_id limit s =
      load_all (take (suc (limit_of limit - 1)) (list s (history_key task_id)))

  unfoldable pub load_first : List String → Option (Option (Dict Json))
  load_first [] = some none
  load_first (item ∷ items) = do event ← loads item; some (some event)

  -- lindex(key, 0); `none` outside where the text is no JSON.
  unfoldable pub get_latest : String → State → Option (Option (Dict Json))
  unfolding history_key load_first
  get_latest task_id s = load_first (list s (history_key task_id))

  -- The limit is not negative here, so `max(0, limit)` is the limit.
  unfoldable pub up_to : Option ℕ → List String → List String
  up_to none ids = ids
  up_to (some limit) ids = take limit ids

  unfoldable pub get_child_task_ids : String → Option ℕ → State → List String
  unfolding child_tasks_key sorted up_to
  get_child_task_ids parent_task_id limit s =
      up_to limit (sorted (smembers s (child_tasks_key parent_task_id)))
