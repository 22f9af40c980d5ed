-- ===== src/Storage/Index.antt =====
-- The indexes of the lease store (storage/task_lease_store.py): every lease is in its owner's set,
-- and waits for its expiry or is claimed.
use mathlib.Core.Path.{subst}
use mathlib.Core.Bool.{true≢false}
use relayna.Redis.Pipelines.{execute, member-execute, score-execute, members_after, scores_after}
use relayna.Storage.Table.{
  tabled, Table, assign, assign-same, Operation, giving_back, tabled-acquired, run_calls,
  tabled-prolonged, tabled-released,
}
use relayna.Storage.View.{Refines, commands_of, claims_of}
use relayna.Storage.Refinement.{
  Step, call-Simulates, refused, acquired, prolonged, released, claimed, given_back,
}
use relayna.Storage.{
  LeaseStore, take_lease, extend_lease, remove_lease, TaskLease, Command, record_lease, owner_key,
  expiries_key, expired_claims_key, restore, extended, srem, zadd,
}
use relayna.Prelude.{
  String, List, ℕ, ◌≡◌, some, none, Option, Bool, true, Bool-cases, arith, ◌∷◌, All, ltb, ◌⊎◌, ◌∙◌,
  ◌==◌, inl, eq_refl, ap, false, inr, some-eq, [], eq_iff, refl, sym, ◌++◌,
}
use relayna.Storage.Keys.{claims-owner, lease-owner, lease-expiries, lease-claims, owner-claims}
use relayna.Storage.Claims.{
  is_claimed, commands_of-other, claimed-others, unclaimed-others, commands_of-expired,
}
use relayna.Storage.Scores.{
  commands_of-owner, claim-owner, commands_of-unscored, claim-score, commands_of-early,
}
use relayna.Storage.Once.{claim-keeps, held_by-some}

module _ (t : LeaseStore) where
  open t use {redis}
  open redis use {State, member, score}

  -- A lease is in the set of its owner, and scored by its expiry unless it is claimed.
  abbrev pub IsFound : State → String → TaskLease → Type 0
  IsFound s i l =
      (member s (owner_key t l.owner_id) i ≡ true)
      × ((score s (expiries_key t) i ≡ some l.expires_at) ⊎ (is_claimed t s i ≡ true))

  abbrev pub IsIndexed : State → Table → Type 0
  IsIndexed s m = (i : String) (l : TaskLease) → m i ≡ some l → IsFound s i l

  -- A lease is found as before where the commands do not touch it.
  same-IsFound :
      (cs : List Command) (s : State) (i : String) (l : TaskLease)
      → members_after cs (owner_key t l.owner_id) i (member s (owner_key t l.owner_id) i)
        ≡ member s (owner_key t l.owner_id) i
      → scores_after cs (expiries_key t) i (score s (expiries_key t) i) ≡ score s (expiries_key t) i
      → members_after cs (expired_claims_key t) i (is_claimed t s i) ≡ is_claimed t s i
      → IsFound s i l
      → IsFound (execute redis cs s) i l
  same-IsFound cs s i l a b c (x, y) = (
    member-execute redis cs s (owner_key t l.owner_id) i ∙ a ∙ x,
    elim y [
      | inl q ↦ inl (score-execute redis cs s (expiries_key t) i ∙ b ∙ q)
      | inr q ↦ inr (member-execute redis cs s (expired_claims_key t) i ∙ c ∙ q)
    ],
  )

  -- A lease is found after commands that score it by its expiry.
  scored-IsFound :
      (cs : List Command) (s : State) (i : String) (l : TaskLease)
      → members_after cs (owner_key t l.owner_id) i (member s (owner_key t l.owner_id) i) ≡ true
      → scores_after cs (expiries_key t) i (score s (expiries_key t) i) ≡ some l.expires_at
      → IsFound (execute redis cs s) i l
  scored-IsFound cs s i l a b = (
    member-execute redis cs s (owner_key t l.owner_id) i ∙ a,
    inl (score-execute redis cs s (expiries_key t) i ∙ b),
  )

  pub acquired-IsIndexed :
      (lease : TaskLease) (now : ℕ) (s : State) (m : Table)
      → IsIndexed s m
      → IsIndexed (execute redis (take_lease t lease now) s) (assign lease.lease_id (some lease) m)
  unfolding take_lease record_lease
  acquired-IsIndexed lease now s m x i l e = elim (Bool-cases (lease.lease_id == i)) [
    | inl same ↦
        subst (IsFound (execute redis (take_lease t lease now) s) i)
          (some-eq (sym (assign-same lease.lease_id i (some lease) m same) ∙ e))
          (scored-IsFound (take_lease t lease now) s i lease
            (ground (arith, same, eq_refl (owner_key t lease.owner_id)))
            (ground (arith, same, eq_refl (expiries_key t))))
    | inr other ↦
        same-IsFound (take_lease t lease now) s i l
          (ground (arith, other, lease-owner t lease.lease_id l.owner_id))
          (ground (arith, other, lease-expiries t lease.lease_id))
          (ground (arith, other, lease-claims t lease.lease_id)) (x i l (ground (arith, e, other)))
  ]

  prolonged-IsIndexed :
      (lease_id : String) (now : ℕ) (old new : TaskLease) (s : State) (m : Table)
      → m lease_id ≡ some old
      → old.owner_id ≡ new.owner_id
      → IsIndexed s m
      → IsIndexed (execute redis (extend_lease t lease_id new now) s) (assign lease_id (some new) m)
  unfolding extend_lease
  prolonged-IsIndexed lease_id now old new s m h o x i l e = elim (Bool-cases (lease_id == i)) [
    | inl same ↦
        let old_owner = (x lease_id old h).0 in
        subst (IsFound (execute redis (extend_lease t lease_id new now) s) i)
          (some-eq (sym (assign-same lease_id i (some new) m same) ∙ e))
          (scored-IsFound (extend_lease t lease_id new now) s i new
            (ground (
              arith,
              lease-owner t lease_id new.owner_id,
              o,
              old_owner,
              (eq_iff lease_id i).0 same,
            ))
            (ground (arith, same, eq_refl (expiries_key t))))
    | inr other ↦
        same-IsFound (extend_lease t lease_id new now) s i l
          (ground (arith, other, lease-owner t lease_id l.owner_id))
          (ground (arith, other, lease-expiries t lease_id))
          (ground (arith, other, lease-claims t lease_id)) (x i l (ground (arith, e, other)))
  ]

  released-IsIndexed :
      (lease_id owner_id : String) (s : State) (m : Table)
      → IsIndexed s m
      → IsIndexed (execute redis (remove_lease t lease_id owner_id) s) (assign lease_id none m)
  unfolding remove_lease
  released-IsIndexed lease_id owner_id s m x i l e = elim (Bool-cases (lease_id == i)) [
    | inl same ↦ absurd (ground (arith, e, same))
    | inr other ↦
        same-IsFound (remove_lease t lease_id owner_id) s i l
          (ground (arith, other, lease-owner t lease_id l.owner_id, claims-owner t l.owner_id))
          (ground (arith, other, lease-expiries t lease_id))
          (ground (arith, other, lease-claims t lease_id, owner-claims t owner_id))
          (x i l (ground (arith, e, other)))
  ]

  scored :
      (s : State) (i : String) (l : TaskLease)
      → is_claimed t s i ≡ false
      → IsFound s i l
      → score s (expiries_key t) i ≡ some l.expires_at
  scored s i l n (x, inl q) = q
  scored s i l n (x, inr q) = absurd (true≢false (sym q ∙ n))

  claimed-IsIndexed :
      (now limit : ℕ) (s : State) (m : Table)
      → IsIndexed s m
      → IsIndexed
          (execute redis
            (commands_of t now (claims_of t now limit s).0 m)
            (claims_of t now limit s).1)
          m
  claimed-IsIndexed now limit s m x i l e = (
    member-execute redis cs c.1 (owner_key t l.owner_id) i
        ∙ commands_of-owner t now c.0 m i l.owner_id _
        ∙ claim-owner t ids s i l.owner_id
        ∙ (x i l e).0,
    elim (Bool-cases (is_claimed t s i)) [
      | inl old ↦ inr (
          member-execute redis cs c.1 (expired_claims_key t) i
          ∙ rw (claim-keeps t ids s i old)
              (commands_of-other t now c.0 m i (claimed-others t ids s i old)))
      | inr not_old ↦ elim (Bool-cases (is_claimed t c.1 i)) [
        | inr never ↦ inl (
            score-execute redis cs c.1 (expiries_key t) i
            ∙ commands_of-unscored t now c.0 m i _ (unclaimed-others t ids s i never)
            ∙ claim-score t ids s i
            ∙ scored s i l not_old (x i l e))
        | inl new ↦ elim (Bool-cases (ltb now l.expires_at)) [
          | inl early ↦ inl (
              score-execute redis cs c.1 (expiries_key t) i
              ∙ ap (scores_after cs (expiries_key t) i)
                  (claim-score t ids s i ∙ scored s i l not_old (x i l e))
              ∙ commands_of-early t now c.0 m i l e early)
          | inr late ↦ inr (
              member-execute redis cs c.1 (expired_claims_key t) i
              ∙ rw new (commands_of-expired t now c.0 m i l e (ground (arith, late))))
        ]
      ]
    ],
  )
    where
      ids : List String
      ids = redis.zrangebyscore s (expiries_key t) now limit

      c : List String × State
      c = claims_of t now limit s

      cs : List Command
      cs = commands_of t now c.0 m

  restored-IsFound :
      (lease_id : String) (s : State) (o : Option TaskLease) (i : String) (l : TaskLease)
      → ((lease_id == i) ≡ true → o ≡ some l)
      → IsFound s i l
      → IsFound
          (execute redis (restore t lease_id true o ++ srem (expired_claims_key t) lease_id ∷ []) s)
          i
          l
  unfolding restore
  restored-IsFound lease_id s none i l h f = elim (Bool-cases (lease_id == i)) [
    | inl same ↦ absurd (cc (h same))
    | inr other ↦
        same-IsFound (srem (expired_claims_key t) lease_id ∷ []) s i l
          (ground (arith, claims-owner t l.owner_id)) refl (ground (arith, other)) f
  ]
  restored-IsFound lease_id s (some old) i l h f =
      let cs =
        zadd (expiries_key t) lease_id old.expires_at ∷ srem (expired_claims_key t) lease_id ∷ [] in
      elim (Bool-cases (lease_id == i)) [
        | inl same ↦ scored-IsFound cs s i l (ground (arith, claims-owner t l.owner_id, f.0)) (
            ground (
              arith,
              eq_refl (expiries_key t),
              same,
              ap (λ (y : TaskLease). y.expires_at) (some-eq (h same)),
            ))
        | inr other ↦
            same-IsFound cs s i l (ground (arith, claims-owner t l.owner_id))
              (ground (arith, other)) (ground (arith, other)) f
      ]

  -- The calls that the program makes: a claim is only given back to be retried.
  abbrev pub is_made : Operation → Bool
  is_made (giving_back lease_id again) = again
  is_made _ = true

  -- Every call
  pub Step-IsIndexed :
      {m : Table} {op : Operation} {s s' : State}
      → Step t m op s s'
      → is_made op ≡ true
      → IsIndexed s m
      → IsIndexed s' (tabled op m).1
  unfolding tabled extended
  Step-IsIndexed {m} {op} {s} (refused _ _ e) h x = subst (IsIndexed s) (sym e) x
  Step-IsIndexed {m} (acquired lease now s q) h x =
      subst (IsIndexed _) (sym (tabled-acquired lease now m q)) (acquired-IsIndexed lease now s m x)
  Step-IsIndexed {m} (prolonged lease_id owner_id expires_at heartbeat_at now l s q) h x =
      subst (IsIndexed _)
        (sym (tabled-prolonged lease_id owner_id expires_at heartbeat_at now l m q))
        (prolonged-IsIndexed lease_id now l (extended l heartbeat_at expires_at) s m
          (held_by-some owner_id (m lease_id) l q).0 refl x)
  Step-IsIndexed {m} (released lease_id owner_id l s q) h x =
      subst (IsIndexed _) (sym (tabled-released lease_id owner_id l m q))
        (released-IsIndexed lease_id owner_id s m x)
  Step-IsIndexed {m} (claimed now limit s) h x = claimed-IsIndexed now limit s m x
  Step-IsIndexed {m} (given_back lease_id true s) h x = λ i l e.
      restored-IsFound lease_id s (m lease_id) i l (λ same. ap m ((eq_iff lease_id i).0 same) ∙ e)
        (x i l e)
  Step-IsIndexed {m} (given_back lease_id false s) h x = absurd (cc h)

  -- Any calls, where claims are only given back to be retried, succeed and keep every lease in the set
  -- of its owner, and scored by its expiry or claimed.
  pub run_calls-IsIndexed :
      (ops : List Operation) (s : State) (m : Table)
      → All (λ op. is_made op ≡ true) ops
      → Refines t s m
      → IsIndexed s m
      → (s' : State) × (m' : Table) × (run_calls t ops s ≡ some s')
        × Refines t s' m'
        × IsIndexed s' m'
  unfolding run_calls
  run_calls-IsIndexed [] s m h r x = (s, m, refl, r, x)
  run_calls-IsIndexed (op ∷ ops) s m (h, hs) r x =
      let (s1, e, r1, st) = call-Simulates t op s m r in
      let (s', m', e', r', x') =
        run_calls-IsIndexed ops s1 (tabled op m).1 hs r1 (Step-IsIndexed st h x) in
      (s', m', rw e e', r', x')
