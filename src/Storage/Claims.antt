-- ===== src/Storage/Claims.antt =====
-- The claims of expired leases (storage/task_lease_store.py).
use mathlib.Core.Path.{subst}
use mathlib.Core.Bool.{true≢false}
use relayna.Redis.{sadd}
use relayna.Redis.Pipelines.{members_after, members_after-append, member-execute}
use relayna.Storage.{
  LeaseStore, TaskLease, expired_claims_key, claim, clean_up, if_expired, claim_expired,
  expiries_key,
}
use relayna.Storage.Table.{Table}
use relayna.Storage.View.{Refines, commands_of, expired_of, claim_expired-eq}
use relayna.Prelude.{
  String, List, ℕ, Bool, ◌≡◌, All, length, if◌then◌else◌, ◌||◌, false, ◌≤◌, ◌==◌, ◌∷◌, true, arith,
  ◌∙◌, [], Option-cases, eq_refl, inl, refl, inr, All-map, some, Option, if-cases, not, ◌&&◌, ltb,
  none, Bool-cases, ap, eq_iff, sym, ◌≢◌,
}
use relayna.Prelude.Text.{contains}

unequal :
    (j i : String) (f : String → Bool) (a b : Bool) → f j ≡ a → f i ≡ b → a ≢ b → (j == i) ≡ false
unequal j i f a b p q n = elim (Bool-cases (j == i)) [
  | inl same ↦ absurd (n (sym p ∙ ap f ((eq_iff j i).0 same) ∙ q))
  | inr other ↦ other
]

module _ (t : LeaseStore) where
  open t use {redis, codec}
  open redis use {State, value, member, exec}

  abbrev pub is_claimed : State → String → Bool
  is_claimed s lease_id = member s (expired_claims_key t) lease_id

  sadd_claim :
      (i j : String) (s : State)
      → is_claimed (exec (sadd (expired_claims_key t) i) s) j
        ≡ (if i == j then true else is_claimed s j)
  sadd_claim i j s =
      redis.member-exec (sadd (expired_claims_key t) i) s (expired_claims_key t) j
      ∙ rw (eq_refl (expired_claims_key t)) refl

  -- The pipeline of claims claims all the ids, and answers for those that were not claimed before.
  pub claim-is_claimed :
      (ids : List String) (s : State) (j : String)
      → is_claimed (claim t ids s).1 j ≡ (contains j ids || is_claimed s j)
  unfolding claim contains
  claim-is_claimed [] s j = refl
  claim-is_claimed (i ∷ ids) s j =
      ground
        (arith, claim-is_claimed ids (exec (sadd (expired_claims_key t) i) s) j, sadd_claim i j s)

  -- An id that is answered for was not claimed, and is now.
  abbrev pub NewlyClaimed : State → State → String → Type 0
  NewlyClaimed s s' i = (is_claimed s i ≡ false) × (is_claimed s' i ≡ true)

  pub claim-All :
      (ids : List String) (s : State) → All (NewlyClaimed s (claim t ids s).1) (claim t ids s).0
  unfolding claim contains
  claim-All [] s = tt
  claim-All (i ∷ ids) s =
      let s1 = exec (sadd (expired_claims_key t) i) s in
      let c = claim t ids s1 in
      let rest =
        All-map (NewlyClaimed s1 c.1) (NewlyClaimed s c.1) c.0
          (λ j (a, b). (ground (arith, sadd_claim i j s, a), b)) (claim-All ids s1) in
      if-cases (All (NewlyClaimed s c.1)) (is_claimed s i) c.0 (i ∷ c.0) (λ e. rest)
        (λ e. ((e, ground (arith, claim-is_claimed ids s1 i, sadd_claim i i s, eq_refl i)), rest))

  -- An id that was claimed before, or is not claimed now, is not answered for.
  pub claimed-others :
      (ids : List String) (s : State) (i : String)
      → is_claimed s i ≡ true
      → All (λ j. (j == i) ≡ false) (claim t ids s).0
  claimed-others ids s i h =
      All-map (NewlyClaimed s (claim t ids s).1) _ _
        (λ j (n, n'). unequal j i (is_claimed s) false true n h (λ e. true≢false (sym e)))
        (claim-All ids s)

  pub unclaimed-others :
      (ids : List String) (s : State) (i : String)
      → is_claimed (claim t ids s).1 i ≡ false
      → All (λ j. (j == i) ≡ false) (claim t ids s).0
  unclaimed-others ids s i h =
      All-map (NewlyClaimed s (claim t ids s).1) _ _
        (λ j (n, n').
          unequal j i (is_claimed (claim t ids s).1) true false n' h (λ e. true≢false e))
        (claim-All ids s)

  length-claim : (ids : List String) (s : State) → length (claim t ids s).0 ≤ length ids
  unfolding claim
  length-claim [] s = omega arith
  length-claim (i ∷ ids) s =
      ground (arith, length-claim ids (exec (sadd (expired_claims_key t) i) s))

  length-expired_of :
      (now : ℕ) (ids : List String) (m : Table) → length (expired_of t now ids m) ≤ length ids
  unfolding expired_of if_expired
  length-expired_of now [] m = omega arith
  length-expired_of now (i ∷ ids) m = elim (Option-cases (m i)) [
    | inl e ↦ ground (arith, e, length-expired_of now ids m)
    | inr (l, e) ↦ ground (arith, e, length-expired_of now ids m)
  ]

  -- The ids whose lease the scan returns, and what they are.
  expired_of-All :
      (P : TaskLease → Type 0) (now : ℕ) (ids : List String) (m : Table)
      → All (λ i. (l : TaskLease) → m i ≡ some l → l.expires_at ≤ now → P l) ids
      → All P (expired_of t now ids m)
  unfolding expired_of if_expired
  expired_of-All P now [] m h = tt
  expired_of-All P now (i ∷ ids) m (h, hs) = elim (Option-cases (m i)) [
    | inl e ↦ rw e (expired_of-All P now ids m hs)
    | inr (l, e) ↦ rw e (
        if-cases (All P) (ltb now l.expires_at) (expired_of t now ids m)
          (l ∷ expired_of t now ids m) (λ late. expired_of-All P now ids m hs)
          (λ late. (h l e (ground (arith, late)), expired_of-All P now ids m hs)))
  ]

  -- Whether the claim of an id is kept.
  abbrev keeps_claim : ℕ → Option TaskLease → Bool
  keeps_claim now none = false
  keeps_claim now (some l) = not (ltb now l.expires_at)

  clean_up-member :
      (now : ℕ) (i j : String) (o : Option TaskLease) (old : Bool)
      → members_after (clean_up t now i o) (expired_claims_key t) j old
        ≡ (if i == j && not (keeps_claim now o) then false else old)
  unfolding clean_up
  clean_up-member now i j none old = ground (arith, eq_refl (expired_claims_key t))
  clean_up-member now i j (some l) old = ground (arith, eq_refl (expired_claims_key t))

  -- The clean-up keeps the claim of an expired lease, and of an id that it is not about.
  pub commands_of-expired :
      (now : ℕ) (ids : List String) (m : Table) (j : String) (l : TaskLease)
      → m j ≡ some l
      → l.expires_at ≤ now
      → members_after (commands_of t now ids m) (expired_claims_key t) j true ≡ true
  unfolding commands_of
  commands_of-expired now [] m j l e h = refl
  commands_of-expired now (i ∷ ids) m j l e h =
      members_after-append (clean_up t now i (m i)) (commands_of t now ids m) (expired_claims_key t)
        j true
      ∙ ap (members_after (commands_of t now ids m) (expired_claims_key t) j)
          (clean_up-member now i j (m i) true ∙ stays)
      ∙ commands_of-expired now ids m j l e h
    where
      kept : (i == j) ≡ true → keeps_claim now (m i) ≡ true
      kept same = rw (ap m ((eq_iff i j).0 same) ∙ e) (ground (arith, h))

      stays : (if i == j && not (keeps_claim now (m i)) then false else true) ≡ true
      stays = elim (Bool-cases (i == j)) [
        | inl same ↦ ground (arith, same, kept same)
        | inr other ↦ rw other refl
      ]

  pub commands_of-other :
      (now : ℕ) (ids : List String) (m : Table) (j : String)
      → All (λ i. (i == j) ≡ false) ids
      → members_after (commands_of t now ids m) (expired_claims_key t) j true ≡ true
  unfolding commands_of
  commands_of-other now [] m j h = refl
  commands_of-other now (i ∷ ids) m j (h, hs) =
      members_after-append (clean_up t now i (m i)) (commands_of t now ids m) (expired_claims_key t)
        j true
      ∙ ap (members_after (commands_of t now ids m) (expired_claims_key t) j)
          (clean_up-member now i j (m i) true ∙ rw h refl)
      ∙ commands_of-other now ids m j hs

  still_claimed :
      (now limit : ℕ) (s : State) (m : Table)
      → Refines t s m
      → (i : String) (l : TaskLease) → m i ≡ some l
      → l.expires_at ≤ now
      → is_claimed (claim t (redis.zrangebyscore s (expiries_key t) now limit) s).1 i ≡ true
      → is_claimed (claim_expired t now limit s).1 i ≡ true
  still_claimed now limit s m r i l e h b =
      let c = claim t (redis.zrangebyscore s (expiries_key t) now limit) s in
      ap (λ x. is_claimed x.1 i) (claim_expired-eq t now limit s m r)
      ∙ member-execute redis (commands_of t now c.0 m) c.1 (expired_claims_key t) i
      ∙ rw b (commands_of-expired now c.0 m i l e h)

  -- If every lease stands under its own id, a scan returns at most `limit` leases. Each was held, has
  -- expired, was not claimed before the scan and is claimed after it.
  pub claim_expired-claims :
      (now limit : ℕ) (s : State) (m : Table)
      → Refines t s m
      → ((i : String) (l : TaskLease) → m i ≡ some l → l.lease_id ≡ i)
      → let after = claim_expired t now limit s in
        (leases : List TaskLease) × (after.0 ≡ some leases)
        × (length leases ≤ limit)
        × All
            (λ (l : TaskLease).
              (m l.lease_id ≡ some l) × (l.expires_at ≤ now) × NewlyClaimed s after.1 l.lease_id)
            leases
  claim_expired-claims now limit s m r keyed =
      let ids = redis.zrangebyscore s (expiries_key t) now limit in
      let c = claim t ids s in
      (
        expired_of t now c.0 m,
        ap (λ x. x.0) (claim_expired-eq t now limit s m r),
        omega (
          arith,
          length-expired_of now c.0 m,
          length-claim ids s,
          redis.zrangebyscore-bounded s (expiries_key t) now limit,
        ),
        expired_of-All _ now c.0 m (
            All-map (NewlyClaimed s c.1) _ c.0
              (λ i (a, b) l e h.
                subst
                  (λ k.
                    (m k ≡ some l)
                    × (l.expires_at ≤ now)
                    × NewlyClaimed s (claim_expired t now limit s).1 k)
                  (sym (keyed i l e)) (e, h, (a, still_claimed now limit s m r i l e h b)))
              (claim-All ids s)),
      )
