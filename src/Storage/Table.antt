-- ===== src/Storage/Table.antt =====
-- The calls of the lease store (storage/task_lease_store.py) and a table of who holds which task.
use mathlib.Core.Option.{none, some}
use relayna.Prelude.Options.{◌>>=◌}
use relayna.Storage.{
  TaskLease, held_by, LeaseStore, extended, acquire, heartbeat, release, claim_expired,
  release_expired_claim,
}
use relayna.Prelude.{
  Bool, String, ℕ, Option, if◌then◌else◌, false, ◌==◌, true, List, ◌∷◌, [], ◌≡◌, refl,
}

-- A call of the store, with what it reads from the clock.
pub data Operation : Type 0 where
  acquiring : TaskLease → ℕ → Operation
  extending : String → String → ℕ → ℕ → ℕ → Operation
  releasing : String → String → Operation
  claiming : ℕ → ℕ → Operation
  giving_back : String → Bool → Operation

pub data Reply : Type 0 where
  answered : Bool → Reply
  updated : Option TaskLease → Reply
  finished : Reply

-- The table: the lease under each id.
abbrev pub Table : Type 0
Table = String → Option TaskLease

abbrev pub assign : String → Option TaskLease → Table → Table
assign lease_id v m = λ j. if lease_id == j then v else m j

pub assign-same :
    (j i : String) (v : Option TaskLease) (m : Table) → (j == i) ≡ true → assign j v m i ≡ v
assign-same j i v m h = rw h refl

-- What each call does to the table: a task is only acquired when free, and only its owner's calls
-- change the lease of a task that is held.
unfoldable pub tabled : Operation → Table → Reply × Table
unfolding held_by extended
tabled (acquiring lease now) m = elim (m lease.lease_id) [
  | Option.some other ↦ (answered false, m)
  | none ↦ (answered true, assign lease.lease_id (some lease) m)
]
tabled (extending lease_id owner_id expires_at heartbeat_at now) m =
    elim (held_by owner_id (m lease_id)) [
      | none ↦ (updated none, m)
      | some lease ↦
          let l = extended lease heartbeat_at expires_at in
          (updated (some l), assign lease_id (some l) m)
    ]
tabled (releasing lease_id owner_id) m = elim (held_by owner_id (m lease_id)) [
  | none ↦ (answered false, m)
  | some lease ↦ (answered true, assign lease_id none m)
]
tabled (claiming now limit) m = (finished, m)
tabled (giving_back lease_id again) m = (finished, m)

pub tabled-acquired :
    (lease : TaskLease) (now : ℕ) (m : Table)
    → m lease.lease_id ≡ none
    → (tabled (acquiring lease now) m).1 ≡ assign lease.lease_id (some lease) m
unfolding tabled
tabled-acquired lease now m e = rw (e, tabled) refl

pub tabled-prolonged :
    (lease_id owner_id : String) (expires_at heartbeat_at now : ℕ) (l : TaskLease) (m : Table)
    → held_by owner_id (m lease_id) ≡ some l
    → (tabled (extending lease_id owner_id expires_at heartbeat_at now) m).1
      ≡ assign lease_id (some (extended l heartbeat_at expires_at)) m
unfolding tabled
tabled-prolonged lease_id owner_id expires_at heartbeat_at now l m e = rw (e, tabled) refl

pub tabled-released :
    (lease_id owner_id : String) (l : TaskLease) (m : Table)
    → held_by owner_id (m lease_id) ≡ some l
    → (tabled (releasing lease_id owner_id) m).1 ≡ assign lease_id none m
unfolding tabled
tabled-released lease_id owner_id l m e = rw (e, tabled) refl

module _ (t : LeaseStore) where
  open t use {redis, codec}
  open redis use {State, value, exec}

  -- The call on the store; `none` where it raises.
  unfoldable pub call : Operation → State → Option (Reply × State)
  unfolding acquire heartbeat release claim_expired release_expired_claim
  call (acquiring lease now) s = let (ok, s') = acquire t lease now s in some (answered ok, s')
  call (extending lease_id owner_id expires_at heartbeat_at now) s = do
    (lease, s') ← heartbeat t lease_id owner_id expires_at heartbeat_at now s
    some (updated lease, s')
  call (releasing lease_id owner_id) s = do
    (ok, s') ← release t lease_id owner_id s
    some (answered ok, s')
  call (claiming now limit) s =
      let (leases, s') = claim_expired t now limit s in do expired ← leases; some (finished, s')
  call (giving_back lease_id again) s = do
    s' ← release_expired_claim t lease_id again s
    some (finished, s')

  -- Calls one after the other.
  unfoldable pub run_calls : List Operation → State → Option State
  unfolding call
  run_calls [] s = some s
  run_calls (op ∷ ops) s = do (o, s') ← call op s; run_calls ops s'
