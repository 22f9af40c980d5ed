-- ===== src/Examples/Statuses.antt =====
-- The status store over a server in memory.
use relayna.Redis.{answered, failed}
use relayna.Redis.Memory.{memory, no_memory}
use relayna.Status.History.{
  Attempt, nothing_pushed, set_all-once, set_all-Tracks, set_all, attempted_all, times, one_if,
  is_pushed,
}
use mathlib.Core.Option.{none, some}
use relayna.Prelude.Dict.{Dict, get}
use relayna.Prelude.{String, List, [], ◌∷◌, refl, ◌≡◌, take, false, true, ℕ, ◌≤◌}
use relayna.Status.{
  StatusStore, Faults, calm, publish_payload, push_history, insert_marker, stop_before, get_history,
  get_latest, set_history, event_token, token_of,
}
use relayna.Status.Log.{FeedIsElsewhere, Tracks, Log, attempted}
use relayna.Json.{Json}
use relayna.Status.Reads.{get_history-newest, get_latest-set_history}
use relayna.Prelude.Text.{strip}

-- Texts of events with one field, the id.
abbrev dump_event : Dict Json → String
dump_event ((k, Json.text id) ∷ d) = id
dump_event d = ""

abbrev event : String → Dict Json
event id = ("event_id", Json.text id) ∷ []

abbrev statuses : StatusStore
statuses = record {
  redis = memory;
  hash_tag = λ p s. "0";
  prefix = "task";
  ttl_seconds = some 86400;
  history_maxlen = 2;
  dumps = dump_event;
  loads = λ x. some (event x);
  digest = dump_event;
  str = λ v. "";
  add_status_event = λ e. [];
}

no_feed : FeedIsElsewhere statuses "t"
no_feed e = tt

empty-Tracks : Tracks statuses "t" no_memory nothing_pushed
unfolding stop_before
empty-Tracks = record { history = refl; marked = λ e. refl }

-- Attempts in which one call fails: with an exception before it reaches the server, or with its answer
-- lost.
abbrev publish_lost : Faults
publish_lost publish_payload = failed false false
publish_lost _ = answered

abbrev push_lost : Faults
push_lost push_history = failed false false
push_lost _ = answered

abbrev insert_unanswered : Faults
insert_unanswered insert_marker = failed true false
insert_unanswered _ = answered

-- The first attempt fails after the push and is repeated; one push is lost; of the last event the
-- marker is set, which is taken for a push by the second attempt at it.
abbrev attempts : List Attempt
attempts =
    record { faults = publish_lost; event = event "a" }
    ∷ record { faults = calm; event = event "a" }
    ∷ record { faults = push_lost; event = event "b" }
    ∷ record { faults = insert_unanswered; event = event "c" }
    ∷ record { faults = calm; event = event "c" }
    ∷ []

set_all-Tracks_example :
    Tracks statuses "t"
      (set_all statuses "t" attempts no_memory)
      (attempted_all statuses attempts nothing_pushed)
set_all-Tracks_example =
    set_all-Tracks statuses "t" attempts no_memory nothing_pushed no_feed empty-Tracks

set_all-once_example :
    (l : Log) × Tracks statuses "t" (set_all statuses "t" attempts no_memory) l
    × ((token : String)
        → times statuses token l.pushed ≡ one_if statuses (is_pushed statuses token attempts))
set_all-once_example =
    set_all-once statuses "t" attempts no_memory no_feed empty-Tracks
      (refl, (refl, (refl, (refl, (refl, tt)))))

after_attempts :
    Tracks statuses "t"
      (set_all statuses "t" attempts no_memory)
      (attempted_all statuses attempts nothing_pushed)
after_attempts = set_all-Tracks statuses "t" attempts no_memory nothing_pushed no_feed empty-Tracks

get_history-newest_example :
    let s = set_all statuses "t" attempts no_memory in
    let l = attempted_all statuses attempts nothing_pushed in
    (get_history statuses "t" none s ≡ some (take 2 l.pushed))
    × ((m : ℕ) → 1 ≤ m → get_history statuses "t" (some m) s ≡ some (take m (take 2 l.pushed)))
    × (get_history statuses "t" (some 0) s ≡ some (take 1 l.pushed))
unfolding attempted_all attempted event_token token_of strip get
get_history-newest_example =
    get_history-newest statuses "t" 1 (set_all statuses "t" attempts no_memory)
      (attempted_all statuses attempts nothing_pushed) refl after_attempts (refl, tt)

get_latest-set_history_example :
    get_latest statuses "t" (set_history statuses calm "t" (event "a") no_memory).1
    ≡ some (some (event "a"))
get_latest-set_history_example =
    get_latest-set_history statuses "t" (event "a") no_memory nothing_pushed no_feed empty-Tracks
      refl refl
