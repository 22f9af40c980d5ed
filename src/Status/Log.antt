-- ===== src/Status/Log.antt =====
-- The history of a task against the log of all its events (status/store.py).
use relayna.Redis.Pipelines.{execute, value_after-other, list_after-other}
use relayna.Status.{
  StatusStore, Faults, insert_marker, push_history, delete_marker, add_to_parent, add_to_feed,
  publish_payload, set_complete, after_call, history_key, event_key, event_token, announce, relate,
  feed_event, publish_event, complete, mark_complete, add_child, expiring, parent_task_id, Json,
  stop_before, nonzero, child_tasks_key, channel_name, expire_in,
}
use relayna.Status.Keys.{event-event, event-history}
use relayna.Redis.{
  Answer, answered, failed, has_reached, set, delete, Command, trim, key_of, value_after,
  list_after, publish,
}
use mathlib.Core.Option.{none, some}
use relayna.Prelude.{
  List, Option, String, Bool, ◌≡◌, false, ◌∷◌, if◌then◌else◌, ◌∙◌, All, ◌==◌, true, ap, [], map,
  sym, Bool-cases, eq_iff, inl, inr, ℕ, All-map, refl,
}
use relayna.Prelude.Dict.{Dict}

-- All the events that were ever pushed, newest first, and the tokens that are marked.
pub record Log : Type 0 where
  pub pushed : List (Dict Json)
  pub known : String → Bool

-- What an attempt at an event without a marker does: nothing, a marker and no push, a push and a
-- marker, or a push that leaves no marker.
pub data Effect : Type 0 where
  nothing marks pushes repeats : Effect

-- By the ends of SET NX and of the push, and whether the marker is deleted where the push raises.
abbrev pub effect_of : Answer → Answer → Bool → Effect
effect_of (failed false c) p undone = nothing
effect_of (failed true c) p undone = marks
effect_of answered answered undone = pushes
effect_of answered (failed true true) undone = pushes
effect_of answered (failed true false) true = repeats
effect_of answered (failed true false) false = pushes
effect_of answered (failed false true) undone = marks
effect_of answered (failed false false) true = nothing
effect_of answered (failed false false) false = marks

abbrev pub effect : Faults → Effect
effect f = effect_of (f insert_marker) (f push_history) (has_reached (f delete_marker))

abbrev pub is_marked : Option String → Bool
is_marked none = false
is_marked (some v) = true

pub set_same :
    (j k v : String) (ex : Option ℕ) (old : Option String)
    → (j == k) ≡ true
    → value_after (set j v ex) k old ≡ some v
set_same j k v ex old h = rw h refl

pub delete_same :
    (j k : String) (old : Option String) → (j == k) ≡ true → value_after (delete j) k old ≡ none
delete_same j k old h = rw h refl

module _ (t : StatusStore) where
  open t use {redis, dumps, history_maxlen}
  open redis use {State, value, list, exec}

  abbrev pub applied : Effect → Dict Json → Log → Log
  applied nothing e l = l
  applied marks e l = record l {
    known = λ token. if event_token t e == token then true else l.known token;
  }
  applied pushes e l = record {
    pushed = e ∷ l.pushed;
    known = λ token. if event_token t e == token then true else l.known token;
  }
  applied repeats e l = record l { pushed = e ∷ l.pushed }

  unfoldable pub attempted : Faults → Dict Json → Log → Log
  attempted f e l = if l.known (event_token t e) then l else applied (effect f) e l

  -- The newest events of the log, as texts.
  abbrev pub window : List (Dict Json) → List String
  window events = trim (stop_before history_maxlen) (map dumps events)

  pub record Tracks (task_id : String) (s : State) (l : Log) : Type 0 where
    pub history : list s (history_key t task_id) ≡ window l.pushed
    pub marked :
        (e : Dict Json) → is_marked (value s (event_key t task_id e)) ≡ l.known (event_token t e)

  module _ (task_id : String) where
    -- Commands that leave the history and the markers alone.
    abbrev IsElsewhere : Command → Type 0
    IsElsewhere c =
        ((old : List String) → list_after c (history_key t task_id) old ≡ old)
        × ((e : Dict Json) (old : Option String) → value_after c (event_key t task_id e) old ≡ old)

    pub exec-Tracks :
        (c : Command) (s : State) (l : Log)
        → IsElsewhere c
        → Tracks task_id s l
        → Tracks task_id (exec c s) l
    exec-Tracks c s l (h, m) r = record {
      history = redis.list-exec c s (history_key t task_id) ∙ h _ ∙ r.history;
      marked =
          λ e. ap is_marked (redis.value-exec c s (event_key t task_id e) ∙ m e _) ∙ r.marked e;
    }

    execute-Tracks :
        (cs : List Command) (s : State) (l : Log)
        → All IsElsewhere cs
        → Tracks task_id s l
        → Tracks task_id (execute redis cs s) l
    unfolding execute
    execute-Tracks [] s l h r = r
    execute-Tracks (c ∷ cs) s l (h, hs) r =
        execute-Tracks cs (exec c s) l hs (exec-Tracks c s l h r)

    pub same_token :
        (e e' : Dict Json) (l : Log) (b : Bool)
        → l.known (event_token t e) ≡ b
        → (event_token t e == event_token t e') ≡ true
        → l.known (event_token t e') ≡ b
    same_token e e' l b k h = ap l.known (sym ((eq_iff _ _).0 h)) ∙ k

    -- Marking an event that is marked.
    mark_complete-Tracks :
        (e : Dict Json) (s : State) (l : Log)
        → l.known (event_token t e) ≡ true
        → Tracks task_id s l
        → Tracks task_id (mark_complete t task_id e s) l
    unfolding mark_complete
    mark_complete-Tracks e s l k r =
        let c = set (event_key t task_id e) "complete" (nonzero t.ttl_seconds) in
        record {
          history =
              redis.list-exec c s (history_key t task_id)
              ∙ list_after-other c _ _ (event-history t task_id e)
              ∙ r.history;
          marked = λ e'. elim (Bool-cases (event_token t e == event_token t e')) [
            | inl same ↦
                ap is_marked (
                  redis.value-exec c s (event_key t task_id e')
                  ∙ set_same (event_key t task_id e) _ "complete" (nonzero t.ttl_seconds)
                      (value s (event_key t task_id e')) (event-event t task_id e e' ∙ same))
                ∙ sym (same_token e e' l true k same)
            | inr other ↦
                ap is_marked (
                  redis.value-exec c s (event_key t task_id e')
                  ∙ value_after-other c _ _ (event-event t task_id e e' ∙ other))
                ∙ r.marked e'
          ];
        }

    -- What the service event store sends is on other keys.
    abbrev pub FeedIsElsewhere : Type 0
    FeedIsElsewhere =
        (event : Dict Json)
        → All
            (λ c.
              ((key_of c == history_key t task_id) ≡ false)
              × ((e : Dict Json) → (key_of c == event_key t task_id e) ≡ false))
            (t.add_status_event event)

    feed-IsElsewhere :
        FeedIsElsewhere → (event : Dict Json) → All IsElsewhere (t.add_status_event event)
    feed-IsElsewhere f event =
        All-map _ IsElsewhere _
          (λ c (h, m). (
            λ old. list_after-other c (history_key t task_id) old h,
            λ e old. value_after-other c (event_key t task_id e) old (m e),
          ))
          (f event)

    expire_in-IsElsewhere : (ttl : Option ℕ) (key : String) → All IsElsewhere (expire_in ttl key)
    unfolding expire_in
    expire_in-IsElsewhere none key = tt
    expire_in-IsElsewhere (some ttl) key = ((λ old. refl, λ e old. refl), tt)

    child-IsElsewhere : (parent : String) → All IsElsewhere (add_child t parent task_id)
    unfolding add_child expiring
    child-IsElsewhere parent = (
      (λ old. refl, λ e old. refl),
      expire_in-IsElsewhere (nonzero t.ttl_seconds) (child_tasks_key t parent),
    )

    -- What follows the push of an event that is marked.
    module _ (feed : FeedIsElsewhere) (e : Dict Json) (l : Log)
        (known : l.known (event_token t e) ≡ true) where
      abbrev Kept : Bool × State → Type 0
      Kept x = Tracks task_id x.1 l

      -- A call that keeps the log's state, and what follows it.
      after_call-Tracks :
          (a : Answer) (s s' : State) (next : State → Bool × State)
          → Tracks task_id s l
          → Tracks task_id s' l
          → Kept (next s')
          → Kept (after_call a s s' next)
      unfolding after_call
      after_call-Tracks answered s s' next r r' k = k
      after_call-Tracks (failed true c) s s' next r r' k = r'
      after_call-Tracks (failed false c) s s' next r r' k = r

      complete-Tracks :
          (f : Faults) (s : State) → Tracks task_id s l → Kept (complete t f task_id e s)
      unfolding complete
      complete-Tracks f s r =
          let r' = mark_complete-Tracks e s l known r in
          after_call-Tracks (f set_complete) s (mark_complete t task_id e s) _ r r' r'

      publish_event-Tracks :
          (f : Faults) (s : State) → Tracks task_id s l → Kept (publish_event t f task_id e s)
      unfolding publish_event
      publish_event-Tracks f s r =
          let c = publish (channel_name t task_id) (dumps e) in
          let r' = exec-Tracks c s l (λ old. refl, λ e old. refl) r in
          after_call-Tracks (f publish_payload) s (exec c s) _ r r'
            (complete-Tracks f (exec c s) r')

      feed_event-Tracks :
          (f : Faults) (s : State) → Tracks task_id s l → Kept (feed_event t f task_id e s)
      unfolding feed_event
      feed_event-Tracks f s r =
          let cs = t.add_status_event e in
          let r' = execute-Tracks cs s l (feed-IsElsewhere feed e) r in
          after_call-Tracks (f add_to_feed) s (execute redis cs s) _ r r'
            (publish_event-Tracks f (execute redis cs s) r')

      relate-Tracks :
          (f : Faults) (parent : Option String) (s : State)
          → Tracks task_id s l
          → Kept (relate t f parent task_id e s)
      unfolding relate
      relate-Tracks f none s r = feed_event-Tracks f s r
      relate-Tracks f (some parent) s r =
          let cs = add_child t parent task_id in
          let r' = execute-Tracks cs s l (child-IsElsewhere parent) r in
          after_call-Tracks (f add_to_parent) s (execute redis cs s) _ r r'
            (feed_event-Tracks f (execute redis cs s) r')

      pub announce-Tracks :
          (f : Faults) (s : State) → Tracks task_id s l → Kept (announce t f task_id e s)
      unfolding announce
      announce-Tracks f s r = relate-Tracks f (parent_task_id t e) s r
