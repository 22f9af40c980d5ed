-- ===== src/Examples/Leases.antt =====
-- The lease store over a server in memory.
use relayna.Prelude.Text.{join, contains}
use relayna.Redis.{redis_key}
use relayna.Storage.{
  record_lease, get_lease, parsed, claim, sort_out, clean_up, if_expired, ttl_seconds, lease_key,
  expiries_key, owner_key, expired_claims_key,
}
use relayna.Redis.Memory.{memory, no_memory, Memory}
use relayna.Redis.Pipelines.{execute}
use relayna.Storage.Table.{call, Table, run_calls, assign, acquiring, claiming, answered}
use relayna.Storage.View.{parsed-dump, Refines, assign-Refines}
use relayna.Examples.Serial.{serial, dump, validate}
use relayna.Storage.{
  LeaseStore, TaskLease, take_lease, get_lease, parsed, acquire, claim_expired, record_lease,
  list_by_owner, publish_stale_status,
}
use relayna.Prelude.{
  ℕ, List, none, ◌≡◌, [], refl, some, true, ◌∷◌, ap, false, length, All, IsAmong, sym, ◌≤◌, ◌≢◌,
  some-eq, inl, arith,
}
use relayna.Storage.Once.{IsKeyed, assign-IsKeyed, claim_expired-once}
use relayna.Storage.Index.{IsIndexed, acquired-IsIndexed, run_calls-IsIndexed}
use relayna.Storage.Refinement.{Simulates, call-Simulates}
use relayna.Storage.Owners.{list_by_owner_complete}
use relayna.Storage.Claims.{NewlyClaimed, claim_expired-claims}
use relayna.Storage.Scan.{claim_expired-too_late, passed, called, here}

abbrev store : LeaseStore
store = record { redis = memory; hash_tag = λ p s. "0"; prefix = "relayna"; codec = serial }

abbrev lease_until : ℕ → TaskLease
lease_until n = record {
  lease_id = "t1";
  task_id = "t1";
  owner_id = "w1";
  consumer_name = "worker";
  acquired_at = 0;
  heartbeat_at = 0;
  expires_at = n;
  message_id = none;
  task_type = none;
  workflow_id = none;
  stage = none;
  attempt = 0;
  recovery_action = publish_stale_status;
}

abbrev brief : TaskLease
brief = lease_until 5

abbrev held : Memory
held = execute memory (take_lease store brief 0) no_memory

abbrev nobody : Table
nobody i = none

abbrev one_lease : Table
one_lease = assign "t1" (some brief) nobody

empty-Refines : Refines store no_memory nobody
unfolding get_lease parsed
empty-Refines i = refl

held-Refines : Refines store held one_lease
unfolding parsed take_lease record_lease
held-Refines =
    assign-Refines store (take_lease store brief 0) no_memory nobody "t1" (some (dump brief))
      (some brief) (λ k old. refl) (parsed-dump store brief) empty-Refines

one_lease-IsKeyed : IsKeyed one_lease
one_lease-IsKeyed =
    assign-IsKeyed "t1" (some brief) nobody
      (λ l e. ap (λ (y : TaskLease). y.lease_id) (sym (some-eq e))) (λ i l e. absurd (cc e))

held-IsIndexed : IsIndexed store held one_lease
held-IsIndexed = acquired-IsIndexed store brief 0 no_memory nobody (λ i l e. absurd (cc e))

module _ where
  acquired_once :
      ((acquire store brief 0 no_memory).0 ≡ true) × ((acquire store brief 0 held).0 ≡ false)
  unfolding acquire execute lease_key redis_key join claim_expired take_lease contains expiries_key
      owner_key expired_claims_key validate dump record_lease get_lease parsed claim sort_out
      clean_up if_expired ttl_seconds
  acquired_once = (refl, refl)

call-Simulates_example : Simulates store (acquiring brief 0) no_memory nobody
call-Simulates_example = call-Simulates store (acquiring brief 0) no_memory nobody empty-Refines

scanned : (claim_expired store 10 100 held).0 ≡ some (brief ∷ [])
unfolding acquire execute lease_key redis_key join claim_expired take_lease contains expiries_key
    owner_key expired_claims_key validate dump record_lease get_lease parsed claim sort_out clean_up
    if_expired ttl_seconds
scanned = refl

claim_expired-claims_example :
    let after = claim_expired store 10 100 held in
    (leases : List TaskLease) × (after.0 ≡ some leases)
    × (length leases ≤ 100)
    × All
        (λ (l : TaskLease).
          (one_lease l.lease_id ≡ some l)
          × (l.expires_at ≤ 10)
          × NewlyClaimed store held after.1 l.lease_id)
        leases
claim_expired-claims_example =
    claim_expired-claims store 10 100 held one_lease held-Refines one_lease-IsKeyed

claim_expired-once_example :
    (s' : Memory) × (run_calls store [] (claim_expired store 10 100 held).1 ≡ some s')
    × (later : List TaskLease) × ((claim_expired store 20 100 s').0 ≡ some later)
    × All (λ (l' : TaskLease). l'.lease_id ≢ "t1") later
claim_expired-once_example =
    claim_expired-once store 10 100 20 100 held one_lease [] (brief ∷ []) brief held-Refines
      one_lease-IsKeyed scanned (inl refl) tt

run_calls-IsIndexed_example :
    (s' : Memory) × (m' : Table) × (run_calls store
        (acquiring brief 0 ∷ claiming 10 100 ∷ [])
        no_memory
      ≡ some s')
    × Refines store s' m'
    × IsIndexed store s' m'
run_calls-IsIndexed_example =
    run_calls-IsIndexed store (acquiring brief 0 ∷ claiming 10 100 ∷ []) no_memory nobody
      (refl, (refl, tt)) empty-Refines (λ i l e. absurd (cc e))

list_by_owner_complete_example :
    (leases : List TaskLease) × (list_by_owner store "w1" held ≡ some leases) × IsAmong brief leases
list_by_owner_complete_example =
    list_by_owner_complete store held one_lease "t1" brief held-Refines held-IsIndexed refl

-- A lease of two seconds is acquired at 0 and looked for three seconds later.
abbrev lasting : TaskLease
lasting = lease_until 2000000

abbrev taken : Memory
taken = execute memory (take_lease store lasting 0) no_memory

taking : call store (acquiring lasting 0) no_memory ≡ some (answered true, taken)
unfolding call acquire
taking = refl

claim_expired-too_late_example :
    let later = memory.elapse 3000000 taken in
    (leases : List TaskLease) × ((claim_expired store (memory.clock later) 100 later).0
      ≡ some leases)
    × All (λ (l : TaskLease). l.expires_at ≡ memory.clock later) leases
claim_expired-too_late_example =
    claim_expired-too_late store no_memory (memory.elapse 3000000 taken) 100 empty-Refines (
      passed 3000000 (called (acquiring lasting 0) (answered true) here (refl, omega arith) taking))
