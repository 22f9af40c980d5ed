-- ===== src/Storage/Owners.antt =====
-- The leases of an owner (storage/task_lease_store.py).
use mathlib.Core.Path.{subst}
use mathlib.Core.Option.{none, some}
use relayna.Storage.Table.{Table}
use relayna.Storage.View.{Refines}
use relayna.Storage.Index.{IsIndexed}
use relayna.Storage.{LeaseStore, read_leases, list_by_owner, TaskLease, owner_key}
use relayna.Prelude.{
  List, String, ◌≡◌, ◌∷◌, some, [], true, Bool-cases, ◌∙◌, refl, ◌==◌, inl, ap, eq_iff, inr, arith,
  IsAmong, Option, sym,
}
use relayna.Prelude.Text.{contains}

with_lease : Option TaskLease → List TaskLease → List TaskLease
with_lease none leases = leases
with_lease (some l) leases = l ∷ leases

with_lease-IsAmong :
    (o : Option TaskLease) (leases : List TaskLease) (l : TaskLease)
    → IsAmong l leases
    → IsAmong l (with_lease o leases)
unfolding with_lease
with_lease-IsAmong none leases l a = a
with_lease-IsAmong (some x) leases l a = inr a

-- The leases of a table under a list of ids.
leases_of : List String → Table → List TaskLease
unfolding with_lease
leases_of [] m = []
leases_of (i ∷ ids) m = with_lease (m i) (leases_of ids m)

leases_of-IsAmong :
    (ids : List String) (m : Table) (i : String) (l : TaskLease)
    → m i ≡ some l
    → contains i ids ≡ true
    → IsAmong l (leases_of ids m)
unfolding leases_of contains with_lease
leases_of-IsAmong [] m i l e h = absurd (cc h)
leases_of-IsAmong (j ∷ ids) m i l e h = elim (Bool-cases (j == i)) [
  | inl same ↦
      subst (λ o. IsAmong l (with_lease o (leases_of ids m))) (sym (ap m ((eq_iff j i).0 same) ∙ e))
        (inl refl)
  | inr other ↦
      with_lease-IsAmong (m j) (leases_of ids m) l
        (leases_of-IsAmong ids m i l e (ground (arith, h, other)))
]

module _ (t : LeaseStore) where
  open t use {redis}
  open redis use {State}

  with_lease-eq :
      (o : Option TaskLease) (leases : List TaskLease)
      → (elim o [ none ↦ leases | some l ↦ l ∷ leases ]) ≡ with_lease o leases
  unfolding with_lease
  with_lease-eq none leases = refl
  with_lease-eq (some l) leases = refl

  read_leases-some :
      (ids : List String) (s : State) (m : Table)
      → Refines t s m
      → read_leases t ids s ≡ some (leases_of ids m)
  unfolding read_leases leases_of
  read_leases-some [] s m r = refl
  read_leases-some (i ∷ ids) s m r =
      rw (r i) (rw (read_leases-some ids s m r) (ap some (with_lease-eq (m i) (leases_of ids m))))

  -- If every lease is in its owner's set, the leases that `list_by_owner` returns for an owner have
  -- every lease of the owner among them.
  pub list_by_owner_complete :
      (s : State) (m : Table) (i : String) (l : TaskLease)
      → Refines t s m
      → IsIndexed t s m
      → m i ≡ some l
      → (leases : List TaskLease) × (list_by_owner t l.owner_id s ≡ some leases) × IsAmong l leases
  unfolding list_by_owner
  list_by_owner_complete s m i l r x e =
      let ids = redis.smembers s (owner_key t l.owner_id) in
      (
        leases_of ids m,
        read_leases-some ids s m r,
        leases_of-IsAmong ids m i l e
            (redis.smembers-member s (owner_key t l.owner_id) i ∙ (x i l e).0),
      )
