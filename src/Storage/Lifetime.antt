-- ===== src/Storage/Lifetime.antt =====
-- How long a lease is kept, and what the scan finds of it (storage/task_lease_store.py).
use mathlib.Core.Path.{subst}
use relayna.Redis.Pipelines.{execute, deadline-execute}
use relayna.Storage.Table.{
  Table, Operation, acquiring, extending, assign, assign-same, tabled, tabled-acquired,
  tabled-prolonged, tabled-released,
}
use relayna.Storage.View.{commands_of, claims_of}
use relayna.Storage.Refinement.{Step, refused, acquired, prolonged, released, claimed, given_back}
use relayna.Storage.{
  ttl_seconds, LeaseStore, TaskLease, lease_key, remove_lease, clean_up, claim, restore, take_lease,
  record_lease, expired_claims_key, extend_lease, extended, owner_key, expiries_key,
}
use relayna.Prelude.{
  ℕ, String, ◌+◌, ◌≡◌, List, ◌≤◌, some, arith, All, ◌==◌, false, ◌∷◌, All-map, Bool-cases, inl, inr,
  ◌∙◌, some-eq, sym, none, Option, All-append, Bool, [], ◌++◌, ap, eq_iff, ltb, true,
}
use relayna.Redis.{seconds, Command, key_of, set, sadd, delete, srem, zrem, zadd}
use relayna.Storage.Keys.{lease-lease, expiries-lease, claims-lease, owner-lease}

-- The server drops the key of a lease no later than the lease expires, if the lease runs for a second.
ttl_seconds-le :
    (now expires_at : ℕ)
    → now + seconds 1 ≤ expires_at
    → now + seconds (ttl_seconds now expires_at) ≤ expires_at
unfolding ttl_seconds
ttl_seconds-le now expires_at h = omega arith

module _ (t : LeaseStore) where
  open t use {redis}
  open redis use {State, clock, deadline, value}

  -- A call that reads the server's clock, and gives its lease at least a second.
  abbrev pub IsTimely : State → Operation → Type 0
  IsTimely s (acquiring lease now) = (clock s ≡ now) × (now + seconds 1 ≤ lease.expires_at)
  IsTimely s (extending lease_id owner_id expires_at heartbeat_at now) =
      (clock s ≡ now) × (now + seconds 1 ≤ expires_at)
  IsTimely s _ = Unit

  -- Every lease's key has a deadline, which is not after the lease's expiry.
  abbrev pub IsKept : State → Table → Type 0
  IsKept s m =
      (i : String) (l : TaskLease)
      → m i ≡ some l
      → (d : ℕ) × (deadline s (lease_key t i) ≡ some d) × (d ≤ l.expires_at)

  set-IsKept :
      (lease_id v : String) (now : ℕ) (l : TaskLease) (cs : List Command) (s : State) (m : Table)
      → All (λ c. (i : String) → (key_of c == lease_key t i) ≡ false) cs
      → clock s ≡ now
      → now + seconds 1 ≤ l.expires_at
      → IsKept s m
      → IsKept
          (execute redis
            (set (lease_key t lease_id) v (some (ttl_seconds now l.expires_at)) ∷ cs)
            s)
          (assign lease_id (some l) m)
  unfolding execute
  set-IsKept lease_id v now l cs s m h c late k i x e =
      let first = set (lease_key t lease_id) v (some (ttl_seconds now l.expires_at)) in
      let rest =
        deadline-execute redis cs (redis.exec first s) (lease_key t i)
          (All-map _ _ cs (λ c f. f i) h) in
      elim (Bool-cases (lease_id == i)) [
        | inl same ↦
            let whole = some-eq (sym (assign-same lease_id i (some l) m same) ∙ e) in
            (
              clock s + seconds (ttl_seconds now l.expires_at),
              rest
                  ∙ ap (λ j. deadline (redis.exec first s) (lease_key t j))
                      (sym ((eq_iff lease_id i).0 same))
                  ∙ redis.deadline-set (lease_key t lease_id) v (ttl_seconds now l.expires_at) s,
              subst
                  (λ (y : TaskLease).
                    clock s + seconds (ttl_seconds now l.expires_at) ≤ y.expires_at)
                  whole (omega (arith, c, ttl_seconds-le now l.expires_at late)),
            )
        | inr other ↦
            let (d, a, b) = k i x (ground (arith, e, other)) in
            (
              d,
              rest
                  ∙ redis.deadline-other first s (lease_key t i) (lease-lease t lease_id i ∙ other)
                  ∙ a,
              b,
            )
      ]

  -- Commands that are not about the lease's keys keep the deadlines.
  same-IsKept :
      (cs : List Command) (s : State) (m : Table)
      → All (λ c. (i : String) → (key_of c == lease_key t i) ≡ false) cs
      → IsKept s m
      → IsKept (execute redis cs s) m
  same-IsKept cs s m h k i x e =
      let (d, a, b) = k i x e in
      (d, deadline-execute redis cs s (lease_key t i) (All-map _ _ cs (λ c f. f i) h) ∙ a, b)

  released-IsKept :
      (lease_id owner_id : String) (s : State) (m : Table)
      → IsKept s m
      → IsKept (execute redis (remove_lease t lease_id owner_id) s) (assign lease_id none m)
  unfolding remove_lease execute
  released-IsKept lease_id owner_id s m k i x e = elim (Bool-cases (lease_id == i)) [
    | inl same ↦ absurd (ground (arith, e, same))
    | inr other ↦
        let first = delete (lease_key t lease_id) in
        let (d, a, b) = k i x (ground (arith, e, other)) in
        (
          d,
          deadline-execute redis
                (srem (owner_key t owner_id) lease_id
                  ∷ zrem (expiries_key t) lease_id
                  ∷ srem (expired_claims_key t) lease_id
                  ∷ [])
                (redis.exec first s) (lease_key t i)
                (owner-lease t owner_id i, (expiries-lease t i, (claims-lease t i, tt)))
              ∙ redis.deadline-other first s (lease_key t i) (lease-lease t lease_id i ∙ other)
              ∙ a,
          b,
        )
  ]

  abbrev IsApart : Command → Type 0
  IsApart c = (i : String) → (key_of c == lease_key t i) ≡ false

  clean_up-IsApart :
      (now : ℕ) (i : String) (o : Option TaskLease) → All IsApart (clean_up t now i o)
  unfolding clean_up
  clean_up-IsApart now i none = (expiries-lease t, (claims-lease t, tt))
  clean_up-IsApart now i (some l) = elim (Bool-cases (ltb now l.expires_at)) [
    | inl e ↦ rw e (expiries-lease t, (expiries-lease t, (claims-lease t, tt)))
    | inr e ↦ rw e (expiries-lease t, tt)
  ]

  commands_of-IsApart :
      (now : ℕ) (ids : List String) (m : Table) → All IsApart (commands_of t now ids m)
  unfolding commands_of
  commands_of-IsApart now [] m = tt
  commands_of-IsApart now (i ∷ ids) m =
      All-append IsApart _ _ (clean_up-IsApart now i (m i)) (commands_of-IsApart now ids m)

  claim-IsKept :
      (ids : List String) (s : State) (m : Table) → IsKept s m → IsKept (claim t ids s).1 m
  unfolding claim execute
  claim-IsKept [] s m k = k
  claim-IsKept (i ∷ ids) s m k =
      claim-IsKept ids _ m
        (same-IsKept (sadd (expired_claims_key t) i ∷ []) s m (claims-lease t, tt) k)

  restore-IsApart :
      (lease_id : String) (again : Bool) (o : Option TaskLease)
      → All IsApart (restore t lease_id again o ++ srem (expired_claims_key t) lease_id ∷ [])
  unfolding restore
  restore-IsApart lease_id again none = (claims-lease t, tt)
  restore-IsApart lease_id true (some l) = (expiries-lease t, (claims-lease t, tt))
  restore-IsApart lease_id false (some l) = (claims-lease t, tt)

  pub Step-IsKept :
      {m : Table} {op : Operation} {s s' : State}
      → Step t m op s s'
      → IsTimely s op
      → IsKept s m
      → IsKept s' (tabled op m).1
  unfolding take_lease record_lease extend_lease extended tabled
  Step-IsKept {m} {op} {s} (refused _ _ e) h k = subst (IsKept s) (sym e) k
  Step-IsKept {m} (acquired lease now s q) (c, late) k =
      subst (IsKept _) (sym (tabled-acquired lease now m q)) (
        set-IsKept lease.lease_id _ now lease (record_lease t lease) s m
          (claims-lease t, (owner-lease t lease.owner_id, (expiries-lease t, tt))) c late k)
  Step-IsKept {m} (prolonged lease_id owner_id expires_at heartbeat_at now l s q) (c, late) k =
      let new = extended l heartbeat_at expires_at in
      subst (IsKept _) (sym (tabled-prolonged lease_id owner_id expires_at heartbeat_at now l m q))
        (set-IsKept lease_id _ now new (zadd (expiries_key t) lease_id expires_at ∷ []) s m
          (expiries-lease t, tt) c late k)
  Step-IsKept {m} (released lease_id owner_id l s q) h k =
      subst (IsKept _) (sym (tabled-released lease_id owner_id l m q))
        (released-IsKept lease_id owner_id s m k)
  Step-IsKept {m} (claimed now limit s) h k =
      let c = claims_of t now limit s in
      same-IsKept (commands_of t now c.0 m) c.1 m (commands_of-IsApart now c.0 m)
        (claim-IsKept (redis.zrangebyscore s (expiries_key t) now limit) s m k)
  Step-IsKept {m} (given_back lease_id again s) h k =
      same-IsKept _ s m (restore-IsApart lease_id again (m lease_id)) k
