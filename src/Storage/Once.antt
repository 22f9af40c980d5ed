-- ===== src/Storage/Once.antt =====
-- An expired lease is reported once (storage/task_lease_store.py).
use mathlib.Core.Path.{subst}
use mathlib.Core.Bool.{true≢false}
use relayna.Redis.Pipelines.{execute, member-execute}
use relayna.Storage.Table.{
  tabled, Table, Operation, acquiring, assign, releasing, giving_back, run_calls, extending,
  claiming,
}
use relayna.Storage.View.{Refines, claims_of, commands_of, claim_expired-Refines}
use relayna.Storage.Refinement.{
  Step, call-Simulates, refused, acquired, prolonged, released, claimed, given_back,
}
use relayna.Prelude.{
  String, Option, Bool, ◌≡◌, some, ◌==◌, Bool-cases, inl, arith, inr, false, ◌∙◌, none, eq_iff,
  true, eq_refl, if◌then◌else◌, sym, Option-cases, ◌++◌, List, ℕ, ap, All, ◌∷◌, some-eq, [], ◌≢◌,
  refl, All-map, ◌≤◌, IsAmong, All-IsAmong,
}
use relayna.Storage.{
  held_by, LeaseStore, TaskLease, take_lease, record_lease, extend_lease, remove_lease, restore,
  expired_claims_key, extended, srem, expiries_key, claim_expired, zadd, claim,
}
use relayna.Storage.Claims.{
  is_claimed, NewlyClaimed, claim-is_claimed, commands_of-other, claim_expired-claims,
  claimed-others,
}
use relayna.Storage.Keys.{lease-claims, owner-claims}

-- Whether a call is about this lease, so that it may end its claim.
abbrev pub is_about : String → Operation → Bool
is_about i (acquiring lease now) = lease.lease_id == i
is_about i (releasing lease_id owner_id) = lease_id == i
is_about i (giving_back lease_id again) = lease_id == i
is_about i _ = false

-- Every lease stands under its own id.
abbrev pub IsKeyed : Table → Type 0
IsKeyed m = (i : String) (l : TaskLease) → m i ≡ some l → l.lease_id ≡ i

pub assign-IsKeyed :
    (j : String) (v : Option TaskLease) (m : Table)
    → ((l : TaskLease) → v ≡ some l → l.lease_id ≡ j)
    → IsKeyed m
    → IsKeyed (assign j v m)
assign-IsKeyed j v m h k i l e = elim (Bool-cases (j == i)) [
  | inl same ↦ h l (ground (arith, e, same)) ∙ (eq_iff j i).0 same
  | inr other ↦ k i l (ground (arith, e, other))
]

if_true {ℓ} : {A : Type ℓ} {b : Bool} → b ≡ true → (x y : A) → (if b then x else y) ≡ x
if_true e x y = rw e refl

if_false {ℓ} : {A : Type ℓ} {b : Bool} → b ≡ false → (x y : A) → (if b then x else y) ≡ y
if_false e x y = rw e refl

pub held_by-some :
    (owner_id : String) (o : Option TaskLease) (l : TaskLease)
    → held_by owner_id o ≡ some l
    → (o ≡ some l) × (l.owner_id ≡ owner_id)
unfolding held_by
held_by-some owner_id none l h = absurd (cc h)
held_by-some owner_id (some x) l h = elim (Bool-cases (x.owner_id == owner_id)) [
  | inl same ↦
      let e = sym (if_true same (some x) none) ∙ h in
      (
        e,
        ap (λ (y : TaskLease). y.owner_id) (sym (some-eq e)) ∙ (eq_iff x.owner_id owner_id).0 same,
      )
  | inr other ↦ absurd (cc (sym (if_false other (some x) none) ∙ h))
]

pub tabled-IsKeyed : (op : Operation) (m : Table) → IsKeyed m → IsKeyed (tabled op m).1
unfolding tabled extended
tabled-IsKeyed (acquiring lease now) m k = elim (Option-cases (m lease.lease_id)) [
  | inl e ↦
      rw (e, tabled)
        (assign-IsKeyed lease.lease_id (some lease) m
          (λ l e. ap (λ (y : TaskLease). y.lease_id) (sym (some-eq e))) k)
  | inr (l, e) ↦ rw (e, tabled) k
]
tabled-IsKeyed (extending lease_id owner_id expires_at heartbeat_at now) m k =
    elim (Option-cases (held_by owner_id (m lease_id))) [
      | inl e ↦ rw (e, tabled) k
      | inr (l, e) ↦
          rw (e, tabled)
            (assign-IsKeyed lease_id (some (extended l heartbeat_at expires_at)) m
              (λ x q.
                ap (λ (y : TaskLease). y.lease_id) (sym (some-eq q))
                ∙ k lease_id l (held_by-some owner_id (m lease_id) l e).0)
              k)
    ]
tabled-IsKeyed (releasing lease_id owner_id) m k =
    elim (Option-cases (held_by owner_id (m lease_id))) [
      | inl e ↦ rw (e, tabled) k
      | inr (l, e) ↦ rw (e, tabled) (assign-IsKeyed lease_id none m (λ x q. absurd (cc q)) k)
    ]
tabled-IsKeyed (claiming now limit) m k = k
tabled-IsKeyed (giving_back lease_id again) m k = k

module _ (t : LeaseStore) where
  open t use {redis}
  open redis use {State, member}

  restored-is_claimed :
      (s : State) (lease_id i : String) (again : Bool) (o : Option TaskLease)
      → (lease_id == i) ≡ false
      → is_claimed t s i ≡ true
      → is_claimed t
          (execute redis
            (restore t lease_id again o ++ srem (expired_claims_key t) lease_id ∷ [])
            s)
          i
        ≡ true
  unfolding restore
  restored-is_claimed s lease_id i again none a h =
      member-execute redis (srem (expired_claims_key t) lease_id ∷ []) s (expired_claims_key t) i
      ∙ ground (arith, a, h)
  restored-is_claimed s lease_id i true (some l) a h =
      member-execute redis
        (zadd (expiries_key t) lease_id l.expires_at ∷ srem (expired_claims_key t) lease_id ∷ []) s
        (expired_claims_key t) i
      ∙ ground (arith, a, h)
  restored-is_claimed s lease_id i false (some l) a h =
      member-execute redis (srem (expired_claims_key t) lease_id ∷ []) s (expired_claims_key t) i
      ∙ ground (arith, a, h)

  pub claim-keeps :
      (ids : List String) (s : State) (i : String)
      → is_claimed t s i ≡ true
      → is_claimed t (claim t ids s).1 i ≡ true
  claim-keeps ids s i h = ground (arith, claim-is_claimed t ids s i, h)

  Step-is_claimed :
      (m : Table) {op : Operation} {s s' : State} (i : String)
      → Step t m op s s'
      → is_about i op ≡ false
      → is_claimed t s i ≡ true
      → is_claimed t s' i ≡ true
  unfolding take_lease record_lease extend_lease remove_lease restore
  Step-is_claimed m i (refused op s e) a h = h
  Step-is_claimed m i (acquired lease now s q) a h =
      member-execute redis (take_lease t lease now) s (expired_claims_key t) i
      ∙ ground (
        arith,
        lease-claims t lease.lease_id,
        eq_refl (expired_claims_key t),
        owner-claims t lease.owner_id,
        a,
        h,
      )
  Step-is_claimed m i (prolonged lease_id owner_id expires_at heartbeat_at now l s q) a h =
      member-execute redis (extend_lease t lease_id (extended l heartbeat_at expires_at) now) s
        (expired_claims_key t) i
      ∙ ground (arith, lease-claims t lease_id, h)
  Step-is_claimed m i (released lease_id owner_id l s q) a h =
      member-execute redis (remove_lease t lease_id owner_id) s (expired_claims_key t) i
      ∙ ground (
        arith,
        lease-claims t lease_id,
        eq_refl (expired_claims_key t),
        owner-claims t owner_id,
        a,
        h,
      )
  Step-is_claimed m i (claimed now limit s) a h =
      let c = claims_of t now limit s in
      let ids = redis.zrangebyscore s (expiries_key t) now limit in
      member-execute redis (commands_of t now c.0 m) c.1 (expired_claims_key t) i
      ∙ rw (claim-keeps ids s i h) (commands_of-other t now c.0 m i (claimed-others t ids s i h))
  Step-is_claimed m i (given_back lease_id again s) a h =
      restored-is_claimed s lease_id i again (m lease_id) a h

  -- Calls that are not about a lease keep its claim.
  run_calls-is_claimed :
      (ops : List Operation) (s : State) (m : Table) (i : String)
      → Refines t s m
      → All (λ op. is_about i op ≡ false) ops
      → is_claimed t s i ≡ true
      → IsKeyed m
      → (s' : State) × (m' : Table) × (run_calls t ops s ≡ some s')
        × Refines t s' m'
        × (is_claimed t s' i ≡ true)
        × IsKeyed m'
  unfolding run_calls
  run_calls-is_claimed [] s m i r a h k = (s, m, refl, r, h, k)
  run_calls-is_claimed (op ∷ ops) s m i r (a, rest) h k =
      let (s1, e, r1, st) = call-Simulates t op s m r in
      let (s', m', e', r', h', k') =
        run_calls-is_claimed ops s1 (tabled op m).1 i r1 rest (Step-is_claimed m i st a h)
          (tabled-IsKeyed op m k) in
      (s', m', rw e e', r', h', k')

  -- If every lease stands under its own id, a lease that a scan has returned is not returned by a
  -- later scan, whatever calls come in between that do not acquire, release or give back this lease.
  pub claim_expired-once :
      (now limit now' limit' : ℕ) (s : State) (m : Table) (ops : List Operation)
      (leases : List TaskLease) (l : TaskLease)
      → Refines t s m
      → IsKeyed m
      → (claim_expired t now limit s).0 ≡ some leases
      → IsAmong l leases
      → All (λ op. is_about l.lease_id op ≡ false) ops
      → (s' : State) × (run_calls t ops (claim_expired t now limit s).1 ≡ some s')
        × (later : List TaskLease) × ((claim_expired t now' limit' s').0 ≡ some later)
        × All (λ (l' : TaskLease). l'.lease_id ≢ l.lease_id) later
  claim_expired-once now limit now' limit' s m ops leases l r k e a calls =
      let P = λ (x : TaskLease).
        (m x.lease_id ≡ some x)
        × (x.expires_at ≤ now)
        × NewlyClaimed t s (claim_expired t now limit s).1 x.lease_id in
      let (ls, e', short, all) = claim_expired-claims t now limit s m r k in
      let (held, late, (old, new)) =
        All-IsAmong P l leases (subst (All P) (some-eq (sym e' ∙ e)) all) a in
      let (s', m', runs, r', h, k') =
        run_calls-is_claimed ops (claim_expired t now limit s).1 m l.lease_id
          (claim_expired-Refines t now limit s m r) calls new k in
      let (later, e2, short2, all2) = claim_expired-claims t now' limit' s' m' r' k' in
      (
        s',
        runs,
        later,
        e2,
        All-map _ _ later
            (λ l' (x, y, (n, z)) q. true≢false (sym h ∙ ap (is_claimed t s') (sym q) ∙ n)) all2,
      )
