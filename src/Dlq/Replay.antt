-- ===== src/Dlq/Replay.antt =====
-- The replay of a dead letter (`claim_replay` and its like of dlq/store.py, `replay_message` of
-- dlq/service.py).

use relayna.Redis.{Answer, answered, failed, has_reached, set, delete, zrem, zadd}
use relayna.Dlq.{
  DlqStore, DlqRecord, DlqRecordState, replayed, dead_lettered, get_record, record_key,
  replay_lock_key, failed_tasks_index_key, failed_score, Json,
}
use mathlib.Core.Option.{none, some}
use relayna.Prelude.{Option, String, Bool, ℕ, false, true, ◌+◌, if◌then◌else◌, ◌&&◌, not}
use relayna.Prelude.Dict.{Dict, get, put, pop}
use relayna.Json.{pos}

abbrev is_some : Option String → Bool
is_some none = false
is_some (some v) = true

-- The answer of `claim_replay`: a `DLQReplayConflict`, another exception, or the record, if any.
pub data Claim : Type 0 where
  conflict raised : Claim
  claimed : Option DlqRecord → Claim

-- if old in headers: headers[new] = headers[old]
unfoldable pub keep_original : String → String → Dict Json → Dict Json
keep_original old new headers = elim (get old headers) [
  | none ↦ headers
  | some v ↦ put new v headers
]

-- The headers of the message that is published again, at a time by its ISO text.
unfoldable pub replay_headers : DlqRecord → String → Dict Json
unfolding keep_original
replay_headers r replayed_at =
    let h1 = keep_original "x-relayna-retry-attempt" "x-relayna-original-retry-attempt" r.headers in
    let h2 = keep_original "x-relayna-failure-reason" "x-relayna-original-failure-reason" h1 in
    let h3 = keep_original "x-relayna-exception-type" "x-relayna-original-exception-type" h2 in
    let h4 = put "x-relayna-replayed-from-dlq" (Json.boolean true) h3 in
    let h5 = put "x-relayna-dlq-id" (Json.text r.dlq_id) h4 in
    let h6 = put "x-relayna-replayed-at" (Json.text replayed_at) h5 in
    let h7 = put "x-relayna-retry-attempt" (Json.number (pos 0)) h6 in
    pop "x-relayna-exception-type" (pop "x-relayna-failure-reason" h7)

-- What `publish_raw_to_queue` is given: the queue and the headers, with the record's body.
pub record Publication : Type 0 where
  pub queue_name : String
  pub headers : Dict Json

-- What becomes of a replay: the message that was published, if any, and how the call ends.
pub data Ending : Type 0 where
  conflicted errored not_found : Ending
  returned : DlqRecord → Ending

pub record Outcome (State : Type 0) : Type 0 where
  pub published : Option Publication
  pub ending : Ending
  pub state : State

unfoldable pub is_replayed : DlqRecordState → Bool
is_replayed replayed = true
is_replayed dead_lettered = false

-- model_copy of `mark_replayed`
unfoldable pub replayed_copy : DlqRecord → ℕ → String → DlqRecord
replayed_copy r replayed_at target_queue_name = record r {
  state = replayed;
  replay_count = r.replay_count + 1;
  replayed_at = some replayed_at;
  replay_target_queue_name = some target_queue_name;
}

-- The calls of a replay to the server, in their order, and how each ends. `release_lock` is the one
-- that gives the lock back, wherever that is.
pub data ReplayCall : Type 0 where
  take_lock read_record reread_record store_record release_lock : ReplayCall

abbrev pub ReplayFaults : Type 0
ReplayFaults = ReplayCall → Answer

abbrev pub all_answered : ReplayFaults
all_answered c = answered

-- What is answered, or the other thing.
unfoldable pub if_answered {ℓ} : {A : Type ℓ} → Answer → A → A → A
if_answered answered x y = x
if_answered (failed reached cancelled) x y = y

-- How the call ends by what `mark_replayed` returned, if it did.
unfoldable pub ending_of : Option (Option DlqRecord) → Ending
ending_of none = errored
ending_of (some none) = not_found
ending_of (some (some updated)) = returned updated

module _ (t : DlqStore) where
  open t use {redis, ttl_seconds, model_dump_json, isoformat}
  open redis use {State, value, exec}

  unfoldable pub release_replay_claim : String → State → State
  unfolding replay_lock_key
  release_replay_claim dlq_id s = exec (delete (replay_lock_key t dlq_id)) s

  -- The release of the lock, by how it ends.
  unfoldable pub releasing : Answer → String → State → State
  unfolding release_replay_claim
  releasing a dlq_id s = if has_reached a then release_replay_claim dlq_id s else s

  unfoldable pub lock_replay : String → State → State
  unfolding replay_lock_key
  lock_replay dlq_id s = exec (set (replay_lock_key t dlq_id) "1" (some 30)) s

  -- `update`
  unfoldable pub update_record : DlqRecord → State → State
  unfolding record_key failed_tasks_index_key failed_score
  update_record r s =
      exec (zadd (failed_tasks_index_key t) r.dlq_id (failed_score r))
        (exec (set (record_key t r.dlq_id) (model_dump_json r) ttl_seconds) s)

  -- `delete`
  unfoldable pub delete_record : String → State → Bool × State
  unfolding record_key failed_tasks_index_key
  delete_record dlq_id s = (
    is_some (value s (record_key t dlq_id)),
    exec (zrem (failed_tasks_index_key t) dlq_id) (exec (delete (record_key t dlq_id)) s),
  )

  unfoldable pub store_replayed : DlqRecord → State → State
  unfolding record_key
  store_replayed updated s =
      exec (set (record_key t updated.dlq_id) (model_dump_json updated) ttl_seconds) s

  -- The message that `replay_message` publishes.
  unfoldable pub replay_publication : DlqRecord → ℕ → Publication
  unfolding replay_headers
  replay_publication r replayed_at = record {
    queue_name = r.retry_queue_name;
    headers = replay_headers r (isoformat replayed_at);
  }

  module _ (f : ReplayFaults) where
    -- What `claim_replay` does with the lock, over the record that it reads: `none` outside where the
    -- text is no record's.
    unfoldable pub decide_claim : String → Bool → Option (Option DlqRecord) → State → Claim × State
    unfolding releasing if_answered is_replayed
    decide_claim dlq_id force none s = (raised, releasing (f release_lock) dlq_id s)
    decide_claim dlq_id force (some none) s = (claimed none, s)
    decide_claim dlq_id force (some (some r)) s =
        if is_replayed r.state && not force
        then (if_answered (f release_lock) conflict raised, releasing (f release_lock) dlq_id s)
        else (claimed (some r), s)

    -- The record is read under the lock. An exception has the lock released, a cancellation not.
    unfoldable pub claim_locked : Answer → String → Bool → State → Claim × State
    unfolding decide_claim releasing get_record
    claim_locked answered dlq_id force s = decide_claim dlq_id force (get_record t dlq_id s) s
    claim_locked (failed reached true) dlq_id force s = (raised, s)
    claim_locked (failed reached false) dlq_id force s =
        (raised, releasing (f release_lock) dlq_id s)

    -- `claim_replay`, by the end of SET NX and what it finds under the lock's key.
    unfoldable pub claim_under : Answer → Option String → String → Bool → State → Claim × State
    unfolding lock_replay claim_locked
    claim_under answered (some held) dlq_id force s = (conflict, s)
    claim_under answered none dlq_id force s =
        claim_locked (f read_record) dlq_id force (lock_replay dlq_id s)
    claim_under (failed true cancelled) none dlq_id force s = (raised, lock_replay dlq_id s)
    claim_under (failed _ cancelled) held dlq_id force s = (raised, s)

    unfoldable pub claim_replay : String → Bool → State → Claim × State
    unfolding claim_under replay_lock_key
    claim_replay dlq_id force s =
        claim_under (f take_lock) (value s (replay_lock_key t dlq_id)) dlq_id force s

    unfoldable pub storing : Answer → DlqRecord → State → Option (Option DlqRecord) × State
    unfolding store_replayed
    storing answered updated s = (some (some updated), store_replayed updated s)
    storing (failed reached cancelled) updated s =
        (none, if reached then store_replayed updated s else s)

    -- `mark_replayed`, over the record that it reads; `none` where it raises.
    unfoldable pub marking :
        Answer → Option (Option DlqRecord) → ℕ → String → State → Option (Option DlqRecord) × State
    unfolding storing replayed_copy
    marking answered (some none) replayed_at queue_name s = (some none, s)
    marking answered (some (some r)) replayed_at queue_name s =
        storing (f store_record) (replayed_copy r replayed_at queue_name) s
    marking a r replayed_at queue_name s = (none, s)

    unfoldable pub mark_replayed : String → ℕ → String → State → Option (Option DlqRecord) × State
    unfolding get_record marking
    mark_replayed dlq_id replayed_at target_queue_name s =
        marking (f reread_record) (get_record t dlq_id s) replayed_at target_queue_name s

    -- The `try` of `replay_message` after the publication, and its `finally`.
    unfoldable pub finish_replay :
        Publication → String → Option (Option DlqRecord) × State → Outcome State
    unfolding releasing if_answered ending_of
    finish_replay sent dlq_id (marked, s) = record {
      published = some sent;
      ending = if_answered (f release_lock) (ending_of marked) errored;
      state = releasing (f release_lock) dlq_id s;
    }

    -- `replay_message` after the claim; `publishes` is whether the publication succeeds.
    unfoldable pub replay_claimed : String → Bool → ℕ → Claim → State → Outcome State
    unfolding releasing if_answered mark_replayed finish_replay replay_publication
    replay_claimed dlq_id publishes replayed_at conflict s = record {
      published = none;
      ending = conflicted;
      state = s;
    }
    replay_claimed dlq_id publishes replayed_at raised s = record {
      published = none;
      ending = errored;
      state = s;
    }
    replay_claimed dlq_id publishes replayed_at (claimed none) s = record {
      published = none;
      ending = if_answered (f release_lock) not_found errored;
      state = releasing (f release_lock) dlq_id s;
    }
    replay_claimed dlq_id publishes replayed_at (claimed (some r)) s =
        if publishes
        then finish_replay (replay_publication r replayed_at) dlq_id
            (mark_replayed r.dlq_id replayed_at r.retry_queue_name s)
        else record {
          published = none;
          ending = errored;
          state = releasing (f release_lock) dlq_id s;
        }

    unfoldable pub replay_message : String → Bool → Bool → ℕ → State → Outcome State
    unfolding claim_replay replay_claimed
    replay_message dlq_id force publishes replayed_at s =
        let (c, s') = claim_replay dlq_id force s in
        replay_claimed dlq_id publishes replayed_at c s'
