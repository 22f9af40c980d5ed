-- ===== src/Storage/View.antt =====
-- The leases that the store's state has (storage/task_lease_store.py), and what the commands do to them.
use mathlib.Core.Path.{subst}
use relayna.Redis.{Command, value_after, sadd, srem}
use relayna.Redis.Pipelines.{execute, value-execute, values_after}
use relayna.Storage.{
  LeaseStore, TaskLease, lease_key, parsed, get_lease, claim, clean_up, if_expired, sort_out,
  claim_expired, restore, expiries_key, expired_claims_key,
}
use mathlib.Core.Option.{none, some}
use relayna.Prelude.Options.{◌>>=◌}
use relayna.Storage.Keys.{lease-lease}
use relayna.Prelude.{
  ℕ, Bool, String, some, Option, List, if◌then◌else◌, false, ◌≡◌, All, ◌==◌, true, ◌∷◌, ap, ◌∙◌, [],
  Bool-cases, inl, refl, inr, ◌⊎◌, sym, some-eq, ◌++◌, ltb, All-append,
}
use relayna.Storage.Table.{Table, assign}

module _ (t : LeaseStore) where
  open t use {redis, codec}
  open redis use {State, value, exec}

  -- The store has the leases of the table, and no text that is no lease.
  abbrev pub Refines : State → Table → Type 0
  Refines s m = (lease_id : String) → get_lease t lease_id s ≡ some (m lease_id)

  abbrev pub KeepsValues : Command → Type 0
  KeepsValues c = (k : String) (old : Option String) → value_after c k old ≡ old

  values_after-keeps :
      (cs : List Command) (k : String) (old : Option String)
      → All KeepsValues cs
      → values_after cs k old ≡ old
  values_after-keeps [] k old h = refl
  values_after-keeps (c ∷ cs) k old (h, hs) =
      ap (values_after cs k) (h k old) ∙ values_after-keeps cs k old hs

  pub keep-Refines :
      (cs : List Command) (s : State) (m : Table)
      → All KeepsValues cs
      → Refines s m
      → Refines (execute redis cs s) m
  unfolding get_lease
  keep-Refines cs s m h r lease_id =
      ap (parsed t) (value-execute redis cs s (lease_key t lease_id) ∙ values_after-keeps cs _ _ h)
      ∙ r lease_id

  parsed_either :
      (b : Bool) (new old : Option String) (v w : Option TaskLease)
      → parsed t new ≡ some v
      → parsed t old ≡ some w
      → parsed t (if b then new else old) ≡ some (if b then v else w)
  parsed_either true new old v w p q = p
  parsed_either false new old v w p q = q

  -- Commands that write one lease's value.
  pub assign-Refines :
      (cs : List Command) (s : State) (m : Table) (lease_id : String) (new : Option String)
      (v : Option TaskLease)
      → ((k : String) (old : Option String)
          → values_after cs k old ≡ (if lease_key t lease_id == k then new else old))
      → parsed t new ≡ some v
      → Refines s m
      → Refines (execute redis cs s) (assign lease_id v m)
  unfolding get_lease
  assign-Refines cs s m lease_id new v w p r j =
      ap (parsed t) (
        value-execute redis cs s (lease_key t j)
        ∙ w (lease_key t j) (value s (lease_key t j))
        ∙ ap (λ b. if b then new else value s (lease_key t j)) (lease-lease t lease_id j))
      ∙ parsed_either (lease_id == j) new (value s (lease_key t j)) v (m j) p (r j)

  pub parsed-dump : (l : TaskLease) → parsed t (some (codec.model_dump_json l)) ≡ some (some l)
  unfolding parsed
  parsed-dump l = rw (codec.validate-dump l) refl

  validated :
      (w : Option TaskLease) (o : Option TaskLease)
      → (w >>= λ l. some (some l)) ≡ some o
      → (l : TaskLease) × (o ≡ some l)
  validated none o h = absurd (cc h)
  validated (some l) o h = (l, sym (some-eq h))

  -- A key is free exactly when nobody has the lease.
  pub free :
      (payload : Option String) (o : Option TaskLease)
      → parsed t payload ≡ some o
      → ((payload ≡ none) × (o ≡ none))
        ⊎ ((x : String) × (l : TaskLease) × (payload ≡ some x) × (o ≡ some l))
  unfolding parsed
  free none o h = inl (refl, sym (some-eq h))
  free (some x) o h =
      let (l, e) = validated (codec.model_validate_json x) o h in inr (x, l, refl, e)

  -- The claims and the clean-up leave every lease as it is.
  pub claim-Refines :
      (ids : List String) (s : State) (m : Table) → Refines s m → Refines (claim t ids s).1 m
  unfolding claim execute
  claim-Refines [] s m r = r
  claim-Refines (lease_id ∷ ids) s m r =
      claim-Refines ids _ m
        (keep-Refines (sadd (expired_claims_key t) lease_id ∷ []) s m (λ k old. refl, tt) r)

  unfoldable pub commands_of : ℕ → List String → Table → List Command
  commands_of now [] m = []
  commands_of now (lease_id ∷ ids) m = clean_up t now lease_id (m lease_id) ++ commands_of now ids m

  unfoldable pub expired_of : ℕ → List String → Table → List TaskLease
  expired_of now [] m = []
  expired_of now (lease_id ∷ ids) m = if_expired now (m lease_id) (expired_of now ids m)

  pub sort_out-some :
      (now : ℕ) (ids : List String) (s : State) (m : Table)
      → Refines s m
      → sort_out t now ids s ≡ some (commands_of now ids m, expired_of now ids m)
  unfolding sort_out commands_of expired_of
  sort_out-some now [] s m r = refl
  sort_out-some now (lease_id ∷ ids) s m r = rw (r lease_id) (rw (sort_out-some now ids s m r) refl)

  clean_up-keeps :
      (now : ℕ) (lease_id : String) (o : Option TaskLease)
      → All KeepsValues (clean_up t now lease_id o)
  unfolding clean_up
  clean_up-keeps now lease_id none = (λ k old. refl, (λ k old. refl, tt))
  clean_up-keeps now lease_id (some l) = elim (Bool-cases (ltb now l.expires_at)) [
    | inl e ↦ rw e (λ k old. refl, (λ k old. refl, (λ k old. refl, tt)))
    | inr e ↦ rw e (λ k old. refl, tt)
  ]

  pub commands_of-keeps :
      (now : ℕ) (ids : List String) (m : Table) → All KeepsValues (commands_of now ids m)
  unfolding commands_of
  commands_of-keeps now [] m = tt
  commands_of-keeps now (lease_id ∷ ids) m =
      All-append KeepsValues _ _ (clean_up-keeps now lease_id (m lease_id))
        (commands_of-keeps now ids m)

  -- The claims of a scan.
  abbrev pub claims_of : ℕ → ℕ → State → List String × State
  claims_of now limit s = claim t (redis.zrangebyscore s (expiries_key t) now limit) s

  -- What `claim_expired` returns and does, in a store without texts that are no lease.
  pub claim_expired-eq :
      (now limit : ℕ) (s : State) (m : Table)
      → Refines s m
      → let c = claim t (redis.zrangebyscore s (expiries_key t) now limit) s in
        claim_expired t now limit s
        ≡ (some (expired_of now c.0 m), execute redis (commands_of now c.0 m) c.1)
  unfolding claim_expired
  claim_expired-eq now limit s m r =
      let ids = redis.zrangebyscore s (expiries_key t) now limit in
      let c = claim t ids s in
      rw (sort_out-some now c.0 c.1 m (claim-Refines ids s m r), claim_expired) refl

  pub claim_expired-Refines :
      (now limit : ℕ) (s : State) (m : Table)
      → Refines s m
      → Refines (claim_expired t now limit s).1 m
  claim_expired-Refines now limit s m r =
      let c = claims_of now limit s in
      subst (λ x. Refines x m) (sym (ap (λ x. x.1) (claim_expired-eq now limit s m r)))
        (keep-Refines (commands_of now c.0 m) c.1 m (commands_of-keeps now c.0 m)
          (claim-Refines (redis.zrangebyscore s (expiries_key t) now limit) s m r))

  pub restore-keeps :
      (lease_id : String) (again : Bool) (o : Option TaskLease)
      → All KeepsValues (restore t lease_id again o ++ srem (expired_claims_key t) lease_id ∷ [])
  unfolding restore
  restore-keeps lease_id again none = (λ k old. refl, tt)
  restore-keeps lease_id true (some l) = (λ k old. refl, (λ k old. refl, tt))
  restore-keeps lease_id false (some l) = (λ k old. refl, tt)
