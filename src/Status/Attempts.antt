-- ===== src/Status/Attempts.antt =====
-- Attempts to store events of one task (status/store.py), with failures at any of their calls.
use relayna.Redis.Pipelines.{
  execute, value-execute, list-execute, list_after-other, values_after, lists_after,
}
use relayna.Status.{
  StatusStore, history_key, event_key, event_token, push_event, expire_in, expiring, Json, nonzero,
  stop_before, Faults, announce, pushing, push_raised, mark_pending, inserting, resume, set_history,
  after_call, insert_marker, push_history, get_marker, delete_marker,
}
use relayna.Status.Keys.{event-event, event-history}
use relayna.Status.Log.{
  window, is_marked, FeedIsElsewhere, Log, Tracks, applied, marks, pushes, effect_of,
  announce-Tracks, attempted, same_token,
}
use relayna.Redis.{Answer, answered, failed, has_reached, set, delete, trim}
use mathlib.Core.Option.{none, some}
use relayna.Prelude.{
  ℕ, Option, Bool, String, List, if◌then◌else◌, take, ◌≡◌, suc, ◌∷◌, true, false, ◌∙◌, ◌==◌, refl,
  ap, zero, eq_refl, [], map, Bool-cases, inl, sym, if-cases, inr,
}
use relayna.Prelude.Dict.{Dict}

take-take : (k : ℕ) (l : List String) → take k (take (suc k) l) ≡ take k l
take-take zero l = refl
take-take (suc k) [] = refl
take-take (suc k) (x ∷ l) = ap (λ r. x ∷ r) (take-take k l)

take_twice : (k : ℕ) (v : String) (l : List String) → take k (v ∷ take k l) ≡ take k (v ∷ l)
take_twice zero v l = refl
take_twice (suc k) v l = ap (λ r. v ∷ r) (take-take k l)

-- What is cut off the history before a push would be cut off after it.
trim_twice :
    (stop : Option ℕ) (v : String) (l : List String)
    → trim stop (v ∷ trim stop l) ≡ trim stop (v ∷ l)
trim_twice none v l = refl
trim_twice (some n) v l = take_twice (suc n) v l

if_marked :
    (b : Bool) (v : String) (old : Option String)
    → is_marked (if b then some v else old) ≡ (if b then true else is_marked old)
if_marked true v old = refl
if_marked false v old = refl

if_unmarked :
    (b : Bool) (old : Option String)
    → is_marked (if b then none else old) ≡ (if b then false else is_marked old)
if_unmarked true old = refl
if_unmarked false old = refl

module _ (t : StatusStore) (task_id : String) where
  open t use {redis, dumps, history_maxlen}
  open redis use {State, value, list, exec}

  lists-expire_in :
      (ttl : Option ℕ) (key k : String) (old : List String)
      → lists_after (expire_in ttl key) k old ≡ old
  unfolding expire_in
  lists-expire_in none key k old = refl
  lists-expire_in (some ttl) key k old = refl

  values-expire_in :
      (ttl : Option ℕ) (key k : String) (old : Option String)
      → values_after (expire_in ttl key) k old ≡ old
  unfolding expire_in
  values-expire_in none key k old = refl
  values-expire_in (some ttl) key k old = refl

  pushed-history :
      (e : Dict Json) (s : State) (events : List (Dict Json))
      → list s (history_key t task_id) ≡ window t events
      → list (execute redis (push_event t task_id e) s) (history_key t task_id)
        ≡ window t (e ∷ events)
  unfolding push_event expiring
  pushed-history e s events h =
      let key = history_key t task_id in
      let stop = stop_before history_maxlen in
      list-execute redis (push_event t task_id e) s key
      ∙ lists-expire_in (nonzero t.ttl_seconds) key key _
      ∙ rw (eq_refl key)
          (ap (λ old. trim stop (dumps e ∷ old)) h ∙ trim_twice stop (dumps e) (map dumps events))

  pushed-value :
      (e : Dict Json) (s : State) (k : String)
      → value (execute redis (push_event t task_id e) s) k ≡ value s k
  unfolding push_event expiring
  pushed-value e s k =
      value-execute redis (push_event t task_id e) s k
      ∙ values-expire_in (nonzero t.ttl_seconds) (history_key t task_id) k (value s k)

  abbrev pending : Dict Json → State → State
  pending e s = mark_pending t task_id e s

  pending-history :
      (e : Dict Json) (s : State)
      → list (pending e s) (history_key t task_id) ≡ list s (history_key t task_id)
  unfolding mark_pending
  pending-history e s =
      redis.list-exec _ s (history_key t task_id)
      ∙ list_after-other (set (event_key t task_id e) "pending" (nonzero t.ttl_seconds)) _ _
          (event-history t task_id e)

  -- What the markers are where the event's is `pending`.
  pending-marked :
      (e e' : Dict Json) (s : State)
      → is_marked (value (pending e s) (event_key t task_id e')) ≡ (
          if event_token t e == event_token t e'
          then true
          else is_marked (value s (event_key t task_id e')))
  unfolding mark_pending
  pending-marked e e' s =
      ap is_marked (
        redis.value-exec (set (event_key t task_id e) "pending" (nonzero t.ttl_seconds)) s
          (event_key t task_id e'))
      ∙ rw (event-event t task_id e e') (
          if_marked (event_token t e == event_token t e') "pending"
            (value s (event_key t task_id e')))

  -- Deleting the marker of an event.
  deleted-history :
      (e : Dict Json) (s : State)
      → list (exec (delete (event_key t task_id e)) s) (history_key t task_id)
        ≡ list s (history_key t task_id)
  deleted-history e s =
      redis.list-exec (delete (event_key t task_id e)) s (history_key t task_id)
      ∙ list_after-other (delete (event_key t task_id e)) _ _ (event-history t task_id e)

  deleted-marked :
      (e e' : Dict Json) (s : State)
      → is_marked (value (exec (delete (event_key t task_id e)) s) (event_key t task_id e')) ≡ (
          if event_token t e == event_token t e'
          then false
          else is_marked (value s (event_key t task_id e')))
  deleted-marked e e' s =
      ap is_marked (redis.value-exec (delete (event_key t task_id e)) s (event_key t task_id e'))
      ∙ rw (event-event t task_id e e')
          (if_unmarked (event_token t e == event_token t e') (value s (event_key t task_id e')))

  module _ (feed : FeedIsElsewhere t task_id) (e : Dict Json) (s : State) (l : Log)
      (unknown : l.known (event_token t e) ≡ false) (r : Tracks t task_id s l) where
    -- A push that raised leaves the event unmarked.
    undone :
        (s' : State) (events : List (Dict Json))
        → list s' (history_key t task_id) ≡ window t events
        → ((e' : Dict Json)
            → is_marked (value s' (event_key t task_id e'))
              ≡ is_marked (value (pending e s) (event_key t task_id e')))
        → Tracks t task_id (exec (delete (event_key t task_id e)) s') (record l { pushed = events })
    undone s' events h m = record {
      history = deleted-history e s' ∙ h;
      marked = λ e'. elim (Bool-cases (event_token t e == event_token t e')) [
        | inl same ↦
            deleted-marked e e' s' ∙ rw same (sym (same_token t task_id e e' l false unknown same))
        | inr other ↦
            deleted-marked e e' s'
            ∙ rw other (m e' ∙ pending-marked e e' s ∙ rw other (r.marked e'))
      ];
    }

    done :
        Tracks t task_id
          (execute redis (push_event t task_id e) (pending e s))
          (applied t pushes e l)
    done = record {
      history = pushed-history e (pending e s) l.pushed (pending-history e s ∙ r.history);
      marked = λ e'.
          ap is_marked (pushed-value e (pending e s) (event_key t task_id e'))
          ∙ pending-marked e e' s
          ∙ ap (λ b. if event_token t e == event_token t e' then true else b) (r.marked e');
    }

    known_now : (applied t pushes e l).known (event_token t e) ≡ true
    known_now = rw (eq_refl (event_token t e)) refl

    -- A marker whose push did not reach the server.
    marked_only : Tracks t task_id (pending e s) (applied t marks e l)
    marked_only = record {
      history = pending-history e s ∙ r.history;
      marked = λ e'.
          pending-marked e e' s
          ∙ ap (λ b. if event_token t e == event_token t e' then true else b) (r.marked e');
    }

    announced :
        (f : Faults)
        → Tracks t task_id
            (announce t f task_id e (execute redis (push_event t task_id e) (pending e s))).1
            (applied t pushes e l)
    announced f = announce-Tracks t task_id feed e (applied t pushes e l) known_now f _ done

    raised :
        (reached cancelled undone_ : Bool)
        → Tracks t task_id
            (push_raised t cancelled undone_ task_id e (
              if reached
              then execute redis (push_event t task_id e) (pending e s)
              else pending e s)).1
            (applied t (effect_of answered (failed reached cancelled) undone_) e l)
    unfolding push_raised
    raised true true true = done
    raised true true false = done
    raised true false true =
        undone (execute redis (push_event t task_id e) (pending e s)) (e ∷ l.pushed)
          (pushed-history e (pending e s) l.pushed (pending-history e s ∙ r.history))
          (λ e'. ap is_marked (pushed-value e (pending e s) (event_key t task_id e')))
    raised true false false = done
    raised false true true = marked_only
    raised false true false = marked_only
    raised false false true =
        undone (pending e s) l.pushed (pending-history e s ∙ r.history) (λ e'. refl)
    raised false false false = marked_only

    pushing-Tracks :
        (f : Faults) (a : Answer)
        → Tracks t task_id
            (pushing t f a task_id e (pending e s)).1
            (applied t (effect_of answered a (has_reached (f delete_marker))) e l)
    unfolding pushing
    pushing-Tracks f answered = announced f
    pushing-Tracks f (failed reached cancelled) =
        raised reached cancelled (has_reached (f delete_marker))

    -- An attempt at an event without a marker.
    inserting-Tracks :
        (f : Faults) (a : Answer)
        → Tracks t task_id
            (inserting t f a none task_id e s).1
            (applied t (effect_of a (f push_history) (has_reached (f delete_marker))) e l)
    unfolding inserting resume
    inserting-Tracks f answered = pushing-Tracks f (f push_history)
    inserting-Tracks f (failed true cancelled) = marked_only
    inserting-Tracks f (failed false cancelled) = r

  module _ (feed : FeedIsElsewhere t task_id) (f : Faults) (e : Dict Json) (s : State) (l : Log)
      (r : Tracks t task_id s l) where
    looked_up :
        (a : Answer) (marker : String)
        → l.known (event_token t e) ≡ true
        → Tracks t task_id
            (after_call a s s
              (λ s'. if marker == "complete" then (true, s') else announce t f task_id e s')).1
            l
    unfolding after_call
    looked_up answered marker h =
        if-cases (λ (x : Bool × State). Tracks t task_id x.1 l) (marker == "complete") _ _ (λ _. r)
          (λ _. announce-Tracks t task_id feed e l h f s r)
    looked_up (failed true cancelled) marker h = r
    looked_up (failed false cancelled) marker h = r

    -- An attempt at an event with a marker.
    again-Tracks :
        (a : Answer) (marker : String)
        → l.known (event_token t e) ≡ true
        → Tracks t task_id (inserting t f a (some marker) task_id e s).1 l
    unfolding inserting resume
    again-Tracks answered marker h = looked_up (f get_marker) marker h
    again-Tracks (failed true cancelled) marker h = r
    again-Tracks (failed false cancelled) marker h = r

    attempt-Tracks :
        (o : Option String)
        → is_marked o ≡ l.known (event_token t e)
        → Tracks t task_id (inserting t f (f insert_marker) o task_id e s).1 (attempted t f e l)
    unfolding attempted
    attempt-Tracks none h = rw (sym h) (inserting-Tracks feed e s l (sym h) r f (f insert_marker))
    attempt-Tracks (some marker) h = rw (sym h) (again-Tracks (f insert_marker) marker (sym h))

    pub set_history-Tracks : Tracks t task_id (set_history t f task_id e s).1 (attempted t f e l)
    unfolding set_history
    set_history-Tracks = attempt-Tracks (value s (event_key t task_id e)) (r.marked e)
