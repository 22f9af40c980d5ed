-- ===== src/Dlq/Once.antt =====
-- A dead letter is replayed once, under its lock (dlq/store.py, dlq/service.py).
use relayna.Redis.{
  Answer, answered, failed, has_reached, set, delete, eq-segment, eq-apart, value_after,
}
use relayna.Dlq.{DlqStore, DlqRecord, get_record, parse_record, record_key, replay_lock_key}
use relayna.Dlq.Replay.{
  replay_message, replay_claimed, claim_replay, decide_claim, lock_replay, release_replay_claim,
  mark_replayed, finish_replay, replay_publication, Publication, store_replayed, replayed_copy,
  is_replayed, Outcome, Claim, claimed, conflict, raised, ReplayFaults, all_answered, release_lock,
  take_lock, read_record, releasing, if_answered, ending_of, claim_locked, marking, storing,
  returned, conflicted, claim_under,
}
use mathlib.Core.Option.{none, some}
use mathlib.Core.Path.{subst}
use Prim.Native.String.{◌++◌}
use relayna.Prelude.Text.{join}
use relayna.Prelude.{
  String, ◌==◌, ◌≡◌, Option, Bool, false, ◌∙◌, ℕ, ◌∷◌, eq_refl, if-cases, [], ◌&&◌, refl, not, ap,
  true, sym, arith, eq_iff,
}
use relayna.Redis.Pipelines.{value_after-other}

written :
    (j k v : String) (ex : Option ℕ) (old : Option String)
    → (j == k) ≡ true
    → value_after (set j v ex) k old ≡ some v
written j k v ex old h = rw h refl

-- Whether a call that reached the server was not answered, and whether it was cancelled.
abbrev pub is_unanswered : Answer → Bool
is_unanswered (failed true cancelled) = true
is_unanswered _ = false

abbrev pub is_cancelled : Answer → Bool
is_cancelled (failed reached cancelled) = cancelled
is_cancelled _ = false

module _ (t : DlqStore) where
  open t use {redis, hash_tag, prefix}
  open redis use {State, value, exec}

  lock-record : (a b : String) → (replay_lock_key t a == record_key t b) ≡ false
  unfolding replay_lock_key record_key join
  lock-record a b =
      eq-segment hash_tag prefix "dlq" "dlq" "replay-lock" "record" (a ∷ []) (b ∷ [])
      ∙ eq-apart "replay-lock" "record" (":" ++ a) (":" ++ b) refl

  record-lock : (a b : String) → (record_key t a == replay_lock_key t b) ≡ false
  unfolding replay_lock_key record_key join
  record-lock a b =
      eq-segment hash_tag prefix "dlq" "dlq" "record" "replay-lock" (a ∷ []) (b ∷ [])
      ∙ eq-apart "record" "replay-lock" (":" ++ a) (":" ++ b) refl

  released :
      (dlq_id : String) (s : State)
      → value (release_replay_claim t dlq_id s) (replay_lock_key t dlq_id) ≡ none
  unfolding release_replay_claim
  released dlq_id s =
      redis.value-exec (delete (replay_lock_key t dlq_id)) s (replay_lock_key t dlq_id)
      ∙ rw (eq_refl (replay_lock_key t dlq_id)) refl

  module _ (dlq_id : String) where
    -- A replay that took the lock gives it back.
    abbrev IsFreed : Outcome State → Type 0
    IsFreed o = value o.state (replay_lock_key t dlq_id) ≡ none

    module _ (f : ReplayFaults) (reached : has_reached (f release_lock) ≡ true) where
      freed :
          (s : State)
          → value (releasing t (f release_lock) dlq_id s) (replay_lock_key t dlq_id) ≡ none
      unfolding releasing
      freed s = rw reached (released dlq_id s)

      finish_replay-IsFreed :
          (sent : Publication) (m : Option (Option DlqRecord) × State)
          → IsFreed (finish_replay t f sent dlq_id m)
      unfolding finish_replay
      finish_replay-IsFreed sent (m, s) = freed s

      -- A claim that is refused has released the lock.
      refused :
          (a : Answer) (publishes : Bool) (replayed_at : ℕ) (s : State)
          → IsFreed (
              replay_claimed t f dlq_id publishes replayed_at
                (if_answered a conflict raised)
                (releasing t (f release_lock) dlq_id s))
      unfolding if_answered replay_claimed
      refused answered publishes replayed_at s = freed s
      refused (failed r c) publishes replayed_at s = freed s

      decided-IsFreed :
          (force publishes : Bool) (replayed_at : ℕ) (o : Option (Option DlqRecord)) (s : State)
          → let d = decide_claim t f dlq_id force o s in
            IsFreed (replay_claimed t f dlq_id publishes replayed_at d.0 d.1)
      unfolding decide_claim replay_claimed
      decided-IsFreed force publishes replayed_at none s = freed s
      decided-IsFreed force publishes replayed_at (some none) s = freed s
      decided-IsFreed force publishes replayed_at (some (some r)) s =
          if-cases
            (λ (d : Claim × State).
              IsFreed (replay_claimed t f dlq_id publishes replayed_at d.0 d.1))
            (is_replayed r.state && not force) _ _
            (λ e. refused (f release_lock) publishes replayed_at s)
            (λ e.
              if-cases IsFreed publishes _ _
                (λ p.
                  finish_replay-IsFreed (replay_publication t r replayed_at)
                    (mark_replayed t f r.dlq_id replayed_at r.retry_queue_name s))
                (λ p. freed s))

      locked-IsFreed :
          (a : Answer) (force publishes : Bool) (replayed_at : ℕ) (s : State)
          → is_cancelled a ≡ false
          → let d = claim_locked t f a dlq_id force s in
            IsFreed (replay_claimed t f dlq_id publishes replayed_at d.0 d.1)
      unfolding claim_locked replay_claimed
      locked-IsFreed answered force publishes replayed_at s h =
          decided-IsFreed force publishes replayed_at (get_record t dlq_id s) s
      locked-IsFreed (failed r true) force publishes replayed_at s h = absurd (cc h)
      locked-IsFreed (failed r false) force publishes replayed_at s h = freed s

      replayed_under :
          (a : Answer) (marker : Option String) (force publishes : Bool) (replayed_at : ℕ)
          (s : State)
          → is_unanswered a ≡ false
          → is_cancelled (f read_record) ≡ false
          → value s (replay_lock_key t dlq_id) ≡ marker
          → let c = claim_under t f a marker dlq_id force s in
            value
              (replay_claimed t f dlq_id publishes replayed_at c.0 c.1).state
              (replay_lock_key t dlq_id)
            ≡ marker
      unfolding claim_under replay_claimed
      replayed_under answered none force publishes replayed_at s u h e =
          locked-IsFreed (f read_record) force publishes replayed_at (lock_replay t dlq_id s) h
      replayed_under answered (some v) force publishes replayed_at s u h e = e
      replayed_under (failed true c) m force publishes replayed_at s u h e = absurd (cc u)
      replayed_under (failed false c) none force publishes replayed_at s u h e = e
      replayed_under (failed false c) (some v) force publishes replayed_at s u h e = e

      -- If the release of the lock reaches the server, SET NX is answered or does not reach it, and
      -- the replay is not cancelled while it claims the record: whatever else fails in a replay, the
      -- lock is afterwards as it was before, held by another replay or free. The lock does not expire
      -- during the replay, and no other client acts.
      pub replay_message-lock :
          (force publishes : Bool) (replayed_at : ℕ) (s : State)
          → is_unanswered (f take_lock) ≡ false
          → is_cancelled (f read_record) ≡ false
          → value
              (replay_message t f dlq_id force publishes replayed_at s).state
              (replay_lock_key t dlq_id)
            ≡ value s (replay_lock_key t dlq_id)
      unfolding replay_message claim_replay
      replay_message-lock force publishes replayed_at s u h =
          replayed_under (f take_lock) (value s (replay_lock_key t dlq_id)) force publishes
            replayed_at s u h refl

    marked :
        (id : String) (replayed_at : ℕ) (queue : String) (s : State) (r : DlqRecord)
        → get_record t id s ≡ some (some r)
        → mark_replayed t all_answered id replayed_at queue s ≡ (
          some (some (replayed_copy r replayed_at queue)),
          store_replayed t (replayed_copy r replayed_at queue) s,
        )
    unfolding mark_replayed marking storing
    marked id replayed_at queue s r e = rw e refl

    -- Reading a record under the lock.
    locked-record :
        (s : State) → get_record t dlq_id (lock_replay t dlq_id s) ≡ get_record t dlq_id s
    unfolding get_record lock_replay
    locked-record s = ap (parse_record t) (
        redis.value-exec (set (replay_lock_key t dlq_id) "1" (some 30)) s (record_key t dlq_id)
        ∙ value_after-other (set (replay_lock_key t dlq_id) "1" (some 30)) (record_key t dlq_id) _
            (lock-record dlq_id dlq_id))

    -- A free lock, and the record that is there.
    free-eq :
        (force publishes : Bool) (replayed_at : ℕ) (s : State) (r : DlqRecord)
        → value s (replay_lock_key t dlq_id) ≡ none
        → get_record t dlq_id s ≡ some (some r)
        → let d =
            decide_claim t all_answered dlq_id force (some (some r)) (lock_replay t dlq_id s) in
          replay_message t all_answered dlq_id force publishes replayed_at s
          ≡ replay_claimed t all_answered dlq_id publishes replayed_at d.0 d.1
    unfolding replay_message claim_replay claim_under claim_locked
    free-eq force publishes replayed_at s r free e =
        ap
          (λ (m : Option String).
            let c = claim_under t all_answered answered m dlq_id force s in
            replay_claimed t all_answered dlq_id publishes replayed_at c.0 c.1)
          free
        ∙ ap
            (λ (o : Option (Option DlqRecord)).
              let d = decide_claim t all_answered dlq_id force o (lock_replay t dlq_id s) in
              replay_claimed t all_answered dlq_id publishes replayed_at d.0 d.1)
            (locked-record s ∙ e)

    decide-conflict :
        (force : Bool) (s : State) (r : DlqRecord)
        → (is_replayed r.state && not force) ≡ true
        → decide_claim t all_answered dlq_id force (some (some r)) s
          ≡ (conflict, release_replay_claim t dlq_id s)
    unfolding decide_claim releasing if_answered
    decide-conflict force s r h = rw h refl

    decide-claimed :
        (force : Bool) (s : State) (r : DlqRecord)
        → (is_replayed r.state && not force) ≡ false
        → decide_claim t all_answered dlq_id force (some (some r)) s ≡ (claimed (some r), s)
    unfolding decide_claim releasing if_answered
    decide-claimed force s r h = rw h refl

    after_claim : Bool → ℕ → Claim × State → Outcome State
    after_claim publishes replayed_at d =
        replay_claimed t all_answered dlq_id publishes replayed_at d.0 d.1

    -- A record that is marked as replayed is not replayed again, unless this is forced.
    again :
        (publishes : Bool) (replayed_at : ℕ) (s : State) (r : DlqRecord)
        → value s (replay_lock_key t dlq_id) ≡ none
        → get_record t dlq_id s ≡ some (some r)
        → is_replayed r.state ≡ true
        → let o = replay_message t all_answered dlq_id false publishes replayed_at s in
          (o.published ≡ none) × (o.ending ≡ conflicted)
    unfolding replay_claimed after_claim
    again publishes replayed_at s r free e h =
        subst (λ (o : Outcome State). (o.published ≡ none) × (o.ending ≡ conflicted))
          (sym (
            free-eq false publishes replayed_at s r free e
            ∙ ap (after_claim publishes replayed_at)
                (decide-conflict false (lock_replay t dlq_id s) r (ground (arith, h)))))
          (refl, refl)

    -- The state after a replay that publishes.
    replayed_state : DlqRecord → State → State
    replayed_state updated s =
        release_replay_claim t dlq_id (store_replayed t updated (lock_replay t dlq_id s))

    first :
        (force : Bool) (replayed_at : ℕ) (s : State) (r : DlqRecord)
        → value s (replay_lock_key t dlq_id) ≡ none
        → get_record t dlq_id s ≡ some (some r)
        → r.dlq_id ≡ dlq_id
        → (is_replayed r.state && not force) ≡ false
        → let updated = replayed_copy r replayed_at r.retry_queue_name in
          replay_message t all_answered dlq_id force true replayed_at s ≡ record {
            published = some (replay_publication t r replayed_at);
            ending = returned updated;
            state = replayed_state updated s;
          }
    unfolding replay_claimed after_claim replayed_state finish_replay releasing if_answered
        ending_of
    first force replayed_at s r free e same h =
        let s1 = lock_replay t dlq_id s in
        let updated = replayed_copy r replayed_at r.retry_queue_name in
        free-eq force true replayed_at s r free e
        ∙ ap (after_claim true replayed_at) (decide-claimed force s1 r h)
        ∙ ap (λ m. finish_replay t all_answered (replay_publication t r replayed_at) dlq_id m)
            (marked r.dlq_id replayed_at r.retry_queue_name s1 r
              (ap (λ i. get_record t i s1) same ∙ locked-record s ∙ e))
        ∙ refl

    unlocked :
        (updated : DlqRecord) (s : State)
        → value (replayed_state updated s) (replay_lock_key t dlq_id) ≡ none
    unfolding replayed_state
    unlocked updated s = released dlq_id (store_replayed t updated (lock_replay t dlq_id s))

    stored_record :
        (updated : DlqRecord) (s : State)
        → updated.dlq_id ≡ dlq_id
        → t.model_validate_json (t.model_dump_json updated) ≡ some updated
        → get_record t dlq_id (replayed_state updated s) ≡ some (some updated)
    unfolding get_record replayed_state release_replay_claim store_replayed parse_record
    stored_record updated s same text =
        let lock = replay_lock_key t dlq_id in
        let key = record_key t dlq_id in
        let write = set (record_key t updated.dlq_id) (t.model_dump_json updated) t.ttl_seconds in
        let s1 = lock_replay t dlq_id s in
        ap (parse_record t) (
          redis.value-exec (delete lock) (exec write s1) key
          ∙ value_after-other (delete lock) key _ (lock-record dlq_id dlq_id)
          ∙ redis.value-exec write s1 key
          ∙ written (record_key t updated.dlq_id) key (t.model_dump_json updated) t.ttl_seconds
              (value s1 key) ((eq_iff _ _).1 (ap (record_key t) same)))
        ∙ rw text refl

    -- If no call to the server fails, the lock is free, the record is there under its id, is not replayed (or this is forced), and
    -- its updated copy is read back from its text: a replay whose publication succeeds publishes to
    -- the record's retry queue with the headers of a replay and returns the record marked as replayed,
    -- and a later replay that is not forced publishes nothing and reports a conflict.
    pub replay_message-once :
        (force publishes : Bool) (replayed_at later : ℕ) (s : State) (r : DlqRecord)
        → value s (replay_lock_key t dlq_id) ≡ none
        → get_record t dlq_id s ≡ some (some r)
        → r.dlq_id ≡ dlq_id
        → (is_replayed r.state && not force) ≡ false
        → (let updated = replayed_copy r replayed_at r.retry_queue_name in
            t.model_validate_json (t.model_dump_json updated) ≡ some updated)
        → let o = replay_message t all_answered dlq_id force true replayed_at s in
          let o' = replay_message t all_answered dlq_id false publishes later o.state in
          (o.published ≡ some (replay_publication t r replayed_at))
          × (o.ending ≡ returned (replayed_copy r replayed_at r.retry_queue_name))
          × (o'.published ≡ none)
          × (o'.ending ≡ conflicted)
    unfolding replayed_copy is_replayed
    replay_message-once force publishes replayed_at later s r free e same h text =
        let updated = replayed_copy r replayed_at r.retry_queue_name in
        let q = first force replayed_at s r free e same h in
        let (a, b) =
          again publishes later (replayed_state updated s) updated (unlocked updated s)
            (stored_record updated s same text) refl in
        subst
          (λ (o : Outcome State).
            let o' = replay_message t all_answered dlq_id false publishes later o.state in
            (o.published ≡ some (replay_publication t r replayed_at))
            × (o.ending ≡ returned updated)
            × (o'.published ≡ none)
            × (o'.ending ≡ conflicted))
          (sym q) (refl, refl, a, b)
