-- ===== src/Storage.antt =====
-- Task leases (storage/task_lease_store.py): who works on a task, until when, and the scan for the
-- leases that ran out.
pub mod Keys
pub mod Table
pub mod View
pub mod Refinement
pub mod Claims
pub mod Once
pub mod Scores
pub mod Lifetime
pub mod Scan
pub mod Index
pub mod Owners
use relayna.Redis.{Redis, Command, redis_key, srem, set, delete, zrem, sadd, zadd}
use relayna.Prelude.Options.{◌>>=◌}
use relayna.Redis.Pipelines.{execute}
use relayna.Prelude.{
  String, ℕ, Option, List, Bool, ◌≡◌, max, some, ◌∷◌, [], false, ◌-◌, true, if◌then◌else◌, ◌/◌,
  ◌==◌, ltb, none, ◌++◌, ◌&&◌, not,
}

pub data LeaseRecoveryAction : Type 0 where
  observe_only publish_stale_status requeue retry dead_letter : LeaseRecoveryAction

-- Times are in microseconds.
pub record TaskLease : Type 0 where
  pub lease_id : String
  pub task_id : String
  pub owner_id : String
  pub consumer_name : String
  pub acquired_at : ℕ
  pub heartbeat_at : ℕ
  pub expires_at : ℕ
  pub message_id : Option String
  pub task_type : Option String
  pub workflow_id : Option String
  pub stage : Option String
  pub attempt : ℕ
  pub recovery_action : LeaseRecoveryAction

-- pydantic's texts of a lease. `model_validate_json` raises on any other text: `none`.
pub record Codec : Type 0 where
  pub model_dump_json : TaskLease → String
  pub model_validate_json : String → Option TaskLease
  pub validate-dump : (l : TaskLease) → model_validate_json (model_dump_json l) ≡ some l

-- `RedisTaskLeaseStore`: its server, the hash of the keys, the prefix and the texts.
pub record LeaseStore : Type 1 where
  pub redis : Redis
  pub hash_tag : String → String → String
  pub prefix : String
  pub codec : Codec

-- max(1, int((expires_at - now).total_seconds()))
unfoldable pub ttl_seconds : ℕ → ℕ → ℕ
ttl_seconds now expires_at = max 1 ((expires_at - now) / 1000000)

-- model_copy(update={"heartbeat_at": ..., "expires_at": ...})
unfoldable pub extended : TaskLease → ℕ → ℕ → TaskLease
extended lease heartbeat_at expires_at = record lease {
  heartbeat_at = heartbeat_at;
  expires_at = expires_at;
}

-- The lease, if `owner_id` holds it.
unfoldable pub held_by : String → Option TaskLease → Option TaskLease
held_by owner_id none = none
held_by owner_id (some lease) = if lease.owner_id == owner_id then some lease else none

unfoldable pub if_expired : ℕ → Option TaskLease → List TaskLease → List TaskLease
if_expired now none expired = expired
if_expired now (some lease) expired = if ltb now lease.expires_at then expired else lease ∷ expired

unfoldable pub publishes : LeaseRecoveryAction → Bool
publishes observe_only = false
publishes _ = true

module _ (t : LeaseStore) where
  open t use {redis, hash_tag, prefix, codec}
  open redis use {State, value, member, exec, smembers, zrangebyscore}
  open codec use {model_dump_json, model_validate_json}

  unfoldable pub lease_key : String → String
  lease_key lease_id = redis_key hash_tag prefix "task-leases" ("lease" ∷ "task" ∷ lease_id ∷ [])

  unfoldable pub owner_key : String → String
  owner_key owner_id = redis_key hash_tag prefix "task-leases" ("lease" ∷ "owner" ∷ owner_id ∷ [])

  unfoldable pub expiries_key : String
  expiries_key = redis_key hash_tag prefix "task-leases" ("lease" ∷ "expiries" ∷ [])

  unfoldable pub expired_claims_key : String
  expired_claims_key = redis_key hash_tag prefix "task-leases" ("lease" ∷ "expired_claims" ∷ [])

  -- What a payload that was read stands for; `none` outside where it is no lease's text.
  unfoldable pub parsed : Option String → Option (Option TaskLease)
  parsed none = some none
  parsed (some payload) = do lease ← model_validate_json payload; some (some lease)

  -- `get`
  unfoldable pub get_lease : String → State → Option (Option TaskLease)
  unfolding parsed
  get_lease lease_id s = parsed (value s (lease_key lease_id))

  -- The commands of the pipeline of `acquire`, after SET NX has set the payload.
  unfoldable pub record_lease : TaskLease → List Command
  record_lease lease =
      srem expired_claims_key lease.lease_id
      ∷ sadd (owner_key lease.owner_id) lease.lease_id
      ∷ zadd expiries_key lease.lease_id lease.expires_at
      ∷ []

  -- The SET of `acquire` and its pipeline.
  unfoldable pub take_lease : TaskLease → ℕ → List Command
  unfolding ttl_seconds record_lease
  take_lease lease now =
      set (lease_key lease.lease_id) (model_dump_json lease)
        (some (ttl_seconds now lease.expires_at))
      ∷ record_lease lease

  -- SET NX answers whether the key was free; the pipeline only runs where it was.
  unfoldable pub acquire : TaskLease → ℕ → State → Bool × State
  unfolding take_lease
  acquire lease now s = elim (value s (lease_key lease.lease_id)) [
    | some taken ↦ (false, s)
    | none ↦ (true, execute redis (take_lease lease now) s)
  ]

  unfoldable pub extend_lease : String → TaskLease → ℕ → List Command
  unfolding ttl_seconds
  extend_lease lease_id updated now =
      set (lease_key lease_id) (model_dump_json updated) (some (ttl_seconds now updated.expires_at))
      ∷ zadd expiries_key lease_id updated.expires_at
      ∷ []

  -- `none` where reading the lease raises. The clock is read for `heartbeat_at` and for the expiry.
  unfoldable pub heartbeat : String → String → ℕ → ℕ → ℕ → State → Option (Option TaskLease × State)
  unfolding get_lease held_by extended extend_lease
  heartbeat lease_id owner_id expires_at heartbeat_at now s = do
    current ← get_lease lease_id s
    some (elim (held_by owner_id current) [
      | none ↦ (none, s)
      | some lease ↦
          let updated = extended lease heartbeat_at expires_at in
          (some updated, execute redis (extend_lease lease_id updated now) s)
    ])

  unfoldable pub remove_lease : String → String → List Command
  remove_lease lease_id owner_id =
      delete (lease_key lease_id)
      ∷ srem (owner_key owner_id) lease_id
      ∷ zrem expiries_key lease_id
      ∷ srem expired_claims_key lease_id
      ∷ []

  unfoldable pub release : String → String → State → Option (Bool × State)
  unfolding get_lease held_by remove_lease
  release lease_id owner_id s = do
    current ← get_lease lease_id s
    some (elim (held_by owner_id current) [
      | none ↦ (false, s)
      | some lease ↦ (true, execute redis (remove_lease lease_id owner_id) s)
    ])

  -- [TaskLease.model_validate_json(payload) for payload in mget(keys) if payload is not None]
  unfoldable pub read_leases : List String → State → Option (List TaskLease)
  unfolding get_lease
  read_leases [] s = some []
  read_leases (lease_id ∷ lease_ids) s = do
    lease ← get_lease lease_id s
    leases ← read_leases lease_ids s
    some (elim lease [ none ↦ leases | some l ↦ l ∷ leases ])

  unfoldable pub list_by_owner : String → State → Option (List TaskLease)
  unfolding read_leases
  list_by_owner owner_id s = read_leases (smembers s (owner_key owner_id)) s

  -- The pipeline of SADDs: the ids that were not claimed before, and the state.
  unfoldable pub claim : List String → State → List String × State
  claim [] s = ([], s)
  claim (lease_id ∷ lease_ids) s =
      let (claimed, s') = claim lease_ids (exec (sadd expired_claims_key lease_id) s) in
      (if member s expired_claims_key lease_id then claimed else lease_id ∷ claimed, s')

  -- What becomes of one claimed id: its commands, and whether its lease has expired.
  unfoldable pub clean_up : ℕ → String → Option TaskLease → List Command
  clean_up now lease_id none = zrem expiries_key lease_id ∷ srem expired_claims_key lease_id ∷ []
  clean_up now lease_id (some lease) =
      zrem expiries_key lease_id
      ∷ (if ltb now lease.expires_at
          then zadd expiries_key lease_id lease.expires_at ∷ srem expired_claims_key lease_id ∷ []
          else [])

  -- The loop over the claimed ids and their payloads, which are all read before it.
  unfoldable pub sort_out : ℕ → List String → State → Option (List Command × List TaskLease)
  unfolding get_lease clean_up if_expired
  sort_out now [] s = some ([], [])
  sort_out now (lease_id ∷ lease_ids) s = do
    lease ← get_lease lease_id s
    (commands, expired) ← sort_out now lease_ids s
    some (clean_up now lease_id lease ++ commands, if_expired now lease expired)

  -- `none` in place of the leases where a payload raises; the claims stay.
  unfoldable pub claim_expired : ℕ → ℕ → State → Option (List TaskLease) × State
  unfolding claim sort_out
  claim_expired now limit s =
      let (claimed, s') = claim (zrangebyscore s expiries_key now limit) s in
      elim (sort_out now claimed s') [
        | none ↦ (none, s')
        | some (commands, expired) ↦ (some expired, execute redis commands s')
      ]

  unfoldable pub restore : String → Bool → Option TaskLease → List Command
  restore lease_id again none = []
  restore lease_id again (some lease) =
      if again then zadd expiries_key lease_id lease.expires_at ∷ [] else []

  -- `_release_expired_claim`
  unfoldable pub release_expired_claim : String → Bool → State → Option State
  unfolding get_lease restore
  release_expired_claim lease_id again s = do
    current ← get_lease lease_id s
    some (execute redis (restore lease_id again current ++ srem expired_claims_key lease_id ∷ []) s)

  -- The loop of `scan_once`: `publish` answers whether publishing the status succeeds. The claim of
  -- a lease whose status could not be published is given back.
  unfoldable pub publish_all : (TaskLease → Bool) → List TaskLease → State → Option State
  unfolding publishes release_expired_claim
  publish_all publish [] s = some s
  publish_all publish (lease ∷ leases) s = do
    s' ←
        if publishes lease.recovery_action && not (publish lease)
        then release_expired_claim lease.lease_id true s
        else some s
    publish_all publish leases s'

  unfoldable pub scan_once : (TaskLease → Bool) → ℕ → ℕ → State → Option (List TaskLease × State)
  unfolding claim_expired publish_all
  scan_once publish now batch_size s =
      let (expired, s') = claim_expired now batch_size s in
      do leases ← expired; s'' ← publish_all publish leases s'; some (leases, s'')
