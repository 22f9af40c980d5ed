-- ===== src/Storage/Refinement.antt =====
-- The lease store (storage/task_lease_store.py) against a table of who holds which task.
use mathlib.Core.Path.{subst}
use mathlib.Core.Option.{none, some}
use relayna.Storage.Table.{
  call, answered, updated, finished, Table, Operation, tabled, run_calls, Reply, acquiring,
  claiming, extending, releasing, giving_back, assign,
}
use relayna.Storage.View.{
  Refines, free, commands_of, keep-Refines, claim_expired-eq, restore-keeps, assign-Refines,
  commands_of-keeps, parsed-dump, claim-Refines, claims_of,
}
use relayna.Storage.{
  LeaseStore, acquire, heartbeat, release, TaskLease, take_lease, extend_lease, remove_lease,
  release_expired_claim, execute, record_lease, parsed, held_by, get_lease, expiries_key, extended,
  claim, lease_key, restore, srem, expired_claims_key,
}
use relayna.Prelude.{
  ◌≡◌, ℕ, List, ◌∙◌, String, ◌∷◌, ap, Option-cases, Bool, [], sym, inl, refl, inr, false, ◌++◌,
  true,
}

module _ (t : LeaseStore) where
  open t use {redis, codec}
  open redis use {State, value}

  -- What a call does to the server, over the leases `m` that it has: the commands of the branch that
  -- the code takes.
  pub data Step (m : Table) : Operation → State → State → Type 0 where
    refused : (op : Operation) (s : State) → (tabled op m).1 ≡ m → Step m op s s
    acquired :
        (lease : TaskLease) (now : ℕ) (s : State)
        → m lease.lease_id ≡ none
        → Step m (acquiring lease now) s (execute redis (take_lease t lease now) s)
    prolonged :
        (lease_id owner_id : String) (expires_at heartbeat_at now : ℕ) (l : TaskLease) (s : State)
        → held_by owner_id (m lease_id) ≡ some l
        → Step m
            (extending lease_id owner_id expires_at heartbeat_at now)
            s
            (execute redis (extend_lease t lease_id (extended l heartbeat_at expires_at) now) s)
    released :
        (lease_id owner_id : String) (l : TaskLease) (s : State)
        → held_by owner_id (m lease_id) ≡ some l
        → Step m
            (releasing lease_id owner_id)
            s
            (execute redis (remove_lease t lease_id owner_id) s)
    claimed :
        (now limit : ℕ) (s : State)
        → Step m (claiming now limit) s (
            execute redis
              (commands_of t now (claims_of t now limit s).0 m)
              (claims_of t now limit s).1)
    given_back :
        (lease_id : String) (again : Bool) (s : State)
        → Step m (giving_back lease_id again) s (
            execute redis
              (restore t lease_id again (m lease_id) ++ srem (expired_claims_key t) lease_id ∷ [])
              s)

  -- The call does not raise, answers what the table answers, and does to the store what it does to
  -- the table.
  abbrev pub Simulates : Operation → State → Table → Type 0
  Simulates op s m =
      (s' : State) × (call t op s ≡ some ((tabled op m).0, s'))
      × Refines t s' (tabled op m).1
      × Step m op s s'

  simulated :
      (op : Operation) (s s' : State) (m m' : Table) (o : Reply)
      → call t op s ≡ some (o, s')
      → tabled op m ≡ (o, m')
      → Refines t s' m'
      → Step m op s s'
      → Simulates op s m
  simulated op s s' m m' o p q r st = (
    s',
    p ∙ ap (λ (x : Reply × Table). some (x.0, s')) (sym q),
    subst (λ (x : Reply × Table). Refines t s' x.1) (sym q) r,
    st,
  )

  acquiring-Simulates :
      (lease : TaskLease) (now : ℕ) (s : State) (m : Table)
      → Refines t s m
      → Simulates (acquiring lease now) s m
  unfolding call acquire tabled take_lease record_lease get_lease
  acquiring-Simulates lease now s m r =
      elim (free t (value s (lease_key t lease.lease_id)) (m lease.lease_id) (r lease.lease_id)) [
        | inl (e, q) ↦
            simulated (acquiring lease now) s (execute redis (take_lease t lease now) s) m
              (assign lease.lease_id (some lease) m) (answered true) (rw (e, acquire) refl)
              (rw (q, tabled) refl)
              (assign-Refines t _ s m lease.lease_id _ _ (λ k old. refl) (parsed-dump t lease) r)
              (acquired lease now s q)
        | inr (v, l, e, q) ↦
            simulated (acquiring lease now) s s m m (answered false) (rw (e, acquire) refl)
              (rw (q, tabled) refl) r (refused (acquiring lease now) s (rw (q, tabled) refl))
      ]

  extending-Simulates :
      (lease_id owner_id : String) (expires_at heartbeat_at now : ℕ) (s : State) (m : Table)
      → Refines t s m
      → Simulates (extending lease_id owner_id expires_at heartbeat_at now) s m
  unfolding call heartbeat tabled extend_lease
  extending-Simulates lease_id owner_id expires_at heartbeat_at now s m r =
      elim (Option-cases (held_by owner_id (m lease_id))) [
        | inl e ↦
            simulated (extending lease_id owner_id expires_at heartbeat_at now) s s m m
              (updated none) (rw (r lease_id) (rw e refl)) (rw (e, tabled) refl) r
              (refused (extending lease_id owner_id expires_at heartbeat_at now) s
                (rw (e, tabled) refl))
        | inr (l, e) ↦
            simulated (extending lease_id owner_id expires_at heartbeat_at now) s
              (execute redis (extend_lease t lease_id (extended l heartbeat_at expires_at) now) s) m
              (assign lease_id (some (extended l heartbeat_at expires_at)) m)
              (updated (some (extended l heartbeat_at expires_at))) (rw (r lease_id) (rw e refl))
              (rw (e, tabled) refl)
              (assign-Refines t _ s m lease_id _ _ (λ k old. refl)
                (parsed-dump t (extended l heartbeat_at expires_at)) r)
              (prolonged lease_id owner_id expires_at heartbeat_at now l s e)
      ]

  releasing-Simulates :
      (lease_id owner_id : String) (s : State) (m : Table)
      → Refines t s m
      → Simulates (releasing lease_id owner_id) s m
  unfolding call release tabled remove_lease parsed
  releasing-Simulates lease_id owner_id s m r =
      elim (Option-cases (held_by owner_id (m lease_id))) [
        | inl e ↦
            simulated (releasing lease_id owner_id) s s m m (answered false)
              (rw (r lease_id) (rw e refl)) (rw (e, tabled) refl) r
              (refused (releasing lease_id owner_id) s (rw (e, tabled) refl))
        | inr (l, e) ↦
            simulated (releasing lease_id owner_id) s
              (execute redis (remove_lease t lease_id owner_id) s) m (assign lease_id none m)
              (answered true) (rw (r lease_id) (rw e refl)) (rw (e, tabled) refl)
              (assign-Refines t _ s m lease_id none none (λ k old. refl) refl r)
              (released lease_id owner_id l s e)
      ]

  claiming-Simulates :
      (now limit : ℕ) (s : State) (m : Table) → Refines t s m → Simulates (claiming now limit) s m
  unfolding call tabled
  claiming-Simulates now limit s m r =
      let ids = redis.zrangebyscore s (expiries_key t) now limit in
      let c = claim t ids s in
      simulated (claiming now limit) s (execute redis (commands_of t now c.0 m) c.1) m m finished
        (rw (claim_expired-eq t now limit s m r) refl) refl
        (keep-Refines t (commands_of t now c.0 m) c.1 m (commands_of-keeps t now c.0 m)
          (claim-Refines t ids s m r))
        (claimed now limit s)

  giving_back-Simulates :
      (lease_id : String) (again : Bool) (s : State) (m : Table)
      → Refines t s m
      → Simulates (giving_back lease_id again) s m
  unfolding call tabled release_expired_claim
  giving_back-Simulates lease_id again s m r =
      simulated (giving_back lease_id again) s _ m m finished (rw (r lease_id) refl) refl
        (keep-Refines t _ s m (restore-keeps t lease_id again (m lease_id)) r)
        (given_back lease_id again s)

  -- On a server that has leases only, every call succeeds. It answers what the table of holders
  -- answers and the server then has the leases of the table: a lease is acquired only where there is
  -- none, and only its owner's calls extend or release it.
  pub call-Simulates : (op : Operation) (s : State) (m : Table) → Refines t s m → Simulates op s m
  call-Simulates (acquiring lease now) s m r = acquiring-Simulates lease now s m r
  call-Simulates (extending lease_id owner_id expires_at heartbeat_at now) s m r =
      extending-Simulates lease_id owner_id expires_at heartbeat_at now s m r
  call-Simulates (releasing lease_id owner_id) s m r = releasing-Simulates lease_id owner_id s m r
  call-Simulates (claiming now limit) s m r = claiming-Simulates now limit s m r
  call-Simulates (giving_back lease_id again) s m r = giving_back-Simulates lease_id again s m r

  -- Calls one after the other.
  pub run_calls-Refines :
      (ops : List Operation) (s : State) (m : Table)
      → Refines t s m
      → (s' : State) × (m' : Table) × (run_calls t ops s ≡ some s') × Refines t s' m'
  unfolding run_calls
  run_calls-Refines [] s m r = (s, m, refl, r)
  run_calls-Refines (op ∷ ops) s m r =
      let (s1, e, r1, st) = call-Simulates op s m r in
      let (s', m', e', r') = run_calls-Refines ops s1 (tabled op m).1 r1 in (s', m', rw e e', r')
