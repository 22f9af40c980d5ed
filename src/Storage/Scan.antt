-- ===== src/Storage/Scan.antt =====
-- What the scan for expired leases finds (storage/task_lease_store.py).
use mathlib.Core.Option.{none, some}
use mathlib.Core.Path.{subst}
use relayna.Storage.Table.{Table, Operation, Reply, call, tabled}
use relayna.Storage.View.{Refines, free}
use relayna.Storage.Lifetime.{IsKept, IsTimely, Step-IsKept}
use relayna.Storage.Refinement.{call-Simulates}
use relayna.Storage.Claims.{claim_expired-claims}
use relayna.Storage.{LeaseStore, get_lease, lease_key, parsed, TaskLease, claim_expired}
use relayna.Prelude.{
  ℕ, Option-cases, inl, ◌≡◌, inr, ap, ◌∙◌, refl, Option, sym, String, List, some-eq, ◌≤◌, All,
  arith, All-map,
}
use relayna.Storage.Once.{IsKeyed, tabled-IsKeyed}

when_there : Option String → Option TaskLease → Option TaskLease
when_there none o = none
when_there (some v) o = o

when_there-some :
    (v : Option String) (o : Option TaskLease) (l : TaskLease)
    → when_there v o ≡ some l
    → (x : String) × (v ≡ some x) × (o ≡ some l)
unfolding when_there
when_there-some none o l h = absurd (cc h)
when_there-some (some x) o l h = (x, refl, h)

module _ (t : LeaseStore) where
  open t use {redis}
  open redis use {State, clock, deadline, value}

  -- What the program and time make of a server.
  pub data Run (s : State) : State → Type 0 where
    here : Run s s
    called :
        {s1 s2 : State} (op : Operation) (o : Reply)
        → Run s s1
        → IsTimely t s1 op
        → call t op s1 ≡ some (o, s2)
        → Run s s2
    passed : {s1 : State} (n : ℕ) → Run s s1 → Run s (redis.elapse n s1)

  -- The table after some time: the leases whose keys are left.
  left : ℕ → State → Table → Table
  unfolding when_there
  left n s m = λ i. when_there (value (redis.elapse n s) (lease_key t i)) (m i)

  left-Refines :
      (n : ℕ) (s : State) (m : Table) → Refines t s m → Refines t (redis.elapse n s) (left n s m)
  unfolding get_lease parsed left
  left-Refines n s m r i =
      let after = value (redis.elapse n s) (lease_key t i) in
      elim (Option-cases after) [
        | inl gone ↦
            ap (parsed t) gone ∙ sym (ap (λ (v : Option String). some (when_there v (m i))) gone)
        | inr (v, there) ↦ elim (redis.value-elapse n s (lease_key t i)) [
          | inl e ↦
              ap (parsed t) e
              ∙ r i
              ∙ sym (ap (λ (v : Option String). some (when_there v (m i))) there)
          | inr e ↦ absurd (cc (e, there))
        ]
      ]

  left-IsKept :
      (n : ℕ) (s : State) (m : Table) → IsKept t s m → IsKept t (redis.elapse n s) (left n s m)
  unfolding left
  left-IsKept n s m k i l e =
      let (v, there, held) = when_there-some _ (m i) l e in
      let (d, a, b) = k i l held in (d, redis.deadline-elapse n s (lease_key t i) v there ∙ a, b)

  left-IsKeyed : (n : ℕ) (s : State) (m : Table) → IsKeyed m → IsKeyed (left n s m)
  unfolding left
  left-IsKeyed n s m k i l e = let (v, there, held) = when_there-some _ (m i) l e in k i l held

  -- Whatever the program calls, the store has leases only, and their keys end in time.
  Run-IsKept :
      {s0 s : State}
      → Refines t s0 (λ i. none)
      → Run s0 s
      → (m : Table) × Refines t s m × IsKept t s m × IsKeyed m
  Run-IsKept r here = ((λ i. none), r, (λ i l e. absurd (cc e)), (λ i l e. absurd (cc e)))
  Run-IsKept r (called op o run timely e) =
      let (m, r1, k1, keyed) = Run-IsKept r run in
      let (s', e', r', st) = call-Simulates t op _ m r1 in
      let same = some-eq (sym e' ∙ e) in
      subst (λ (x : Reply × State). (m : Table) × Refines t x.1 m × IsKept t x.1 m × IsKeyed m) same
        ((tabled op m).1, r', Step-IsKept t st timely k1, tabled-IsKeyed op m keyed)
  Run-IsKept r (passed n run) =
      let (m, r1, k1, keyed) = Run-IsKept r run in
      (left n _ m, left-Refines n _ m r1, left-IsKept n _ m k1, left-IsKeyed n _ m keyed)

  -- A lease that is still there has not outlived its expiry.
  not_late :
      (s : State) (m : Table) (i : String) (l : TaskLease)
      → Refines t s m
      → IsKept t s m
      → m i ≡ some l
      → clock s ≤ l.expires_at
  unfolding get_lease
  not_late s m i l r k e =
      let (d, a, b) = k i l e in
      elim (free t (value s (lease_key t i)) (m i) (r i)) [
        | inl (x, y) ↦ absurd (cc (e, y))
        | inr (v, l', there, y) ↦
            let c = redis.value_in_time s (lease_key t i) v d there a in omega (arith, b, c)
      ]

  -- On a server that had no leases, after any calls that read the server's clock and give every lease
  -- at least a second, and any time: the scan returns no lease but those that expire at the very
  -- microsecond of the scan.
  pub claim_expired-too_late :
      (s0 s : State) (limit : ℕ)
      → Refines t s0 (λ i. none)
      → Run s0 s
      → (leases : List TaskLease) × ((claim_expired t (clock s) limit s).0 ≡ some leases)
        × All (λ (l : TaskLease). l.expires_at ≡ clock s) leases
  claim_expired-too_late s0 s limit r run =
      let (m, r1, k, keyed) = Run-IsKept r run in
      let (leases, e, short, all) = claim_expired-claims t (clock s) limit s m r1 keyed in
      (
        leases,
        e,
        All-map _ _ leases
            (λ (l : TaskLease) (held, late, n).
              let early = not_late s m l.lease_id l r1 k held in omega (arith, early, late))
            all,
      )
