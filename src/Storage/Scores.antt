-- ===== src/Storage/Scores.antt =====
-- What a scan does to the owners' sets and to the scores (storage/task_lease_store.py).
use relayna.Storage.{
  LeaseStore, clean_up, claim, owner_key, expiries_key, TaskLease, sadd, expired_claims_key,
}
use relayna.Storage.View.{commands_of}
use relayna.Prelude.{
  ℕ, List, String, Option, Bool, All, ◌≡◌, ◌==◌, some, ◌∷◌, if◌then◌else◌, arith, false, ltb, ◌∙◌,
  ap, true, none, [], Bool-cases, eq_refl, inl, refl, eq_iff, inr,
}
use relayna.Storage.Table.{Table}
use relayna.Redis.Pipelines.{scores_after, members_after, members_after-append, scores_after-append}
use relayna.Storage.Keys.{claims-owner}

module _ (t : LeaseStore) where
  open t use {redis}
  open redis use {State, member, score}

  -- The clean-up of one id, on the sorted set.
  pub clean_up-score :
      (now : ℕ) (i j : String) (o : Option TaskLease) (old : Option ℕ)
      → scores_after (clean_up t now i o) (expiries_key t) j old ≡ (
          if i == j
          then (elim o [
            | none ↦ none
            | some l ↦ if ltb now l.expires_at then some l.expires_at else none
          ])
          else old)
  unfolding clean_up
  clean_up-score now i j none old = ground (arith, eq_refl (expiries_key t))
  clean_up-score now i j (some l) old = ground (arith, eq_refl (expiries_key t))

  clean_up-owner :
      (now : ℕ) (i j owner_id : String) (o : Option TaskLease) (old : Bool)
      → members_after (clean_up t now i o) (owner_key t owner_id) j old ≡ old
  unfolding clean_up
  clean_up-owner now i j owner_id none old = ground (arith, claims-owner t owner_id)
  clean_up-owner now i j owner_id (some l) old = ground (arith, claims-owner t owner_id)

  pub commands_of-owner :
      (now : ℕ) (ids : List String) (m : Table) (j owner_id : String) (old : Bool)
      → members_after (commands_of t now ids m) (owner_key t owner_id) j old ≡ old
  unfolding commands_of
  commands_of-owner now [] m j owner_id old = refl
  commands_of-owner now (i ∷ ids) m j owner_id old =
      members_after-append (clean_up t now i (m i)) (commands_of t now ids m) (owner_key t owner_id)
        j old
      ∙ ap (members_after (commands_of t now ids m) (owner_key t owner_id) j)
          (clean_up-owner now i j owner_id (m i) old)
      ∙ commands_of-owner now ids m j owner_id old

  -- The score of an id that is not cleaned up, and of a lease that was extended since it was scored.
  pub commands_of-unscored :
      (now : ℕ) (ids : List String) (m : Table) (j : String) (old : Option ℕ)
      → All (λ i. (i == j) ≡ false) ids
      → scores_after (commands_of t now ids m) (expiries_key t) j old ≡ old
  unfolding commands_of
  commands_of-unscored now [] m j old h = refl
  commands_of-unscored now (i ∷ ids) m j old (h, hs) =
      scores_after-append (clean_up t now i (m i)) (commands_of t now ids m) (expiries_key t) j old
      ∙ ap (scores_after (commands_of t now ids m) (expiries_key t) j)
          (clean_up-score now i j (m i) old ∙ rw h refl)
      ∙ commands_of-unscored now ids m j old hs

  pub commands_of-early :
      (now : ℕ) (ids : List String) (m : Table) (j : String) (l : TaskLease)
      → m j ≡ some l
      → ltb now l.expires_at ≡ true
      → scores_after (commands_of t now ids m) (expiries_key t) j (some l.expires_at)
        ≡ some l.expires_at
  unfolding commands_of
  commands_of-early now [] m j l e h = refl
  commands_of-early now (i ∷ ids) m j l e h =
      scores_after-append (clean_up t now i (m i)) (commands_of t now ids m) (expiries_key t) j
        (some l.expires_at)
      ∙ ap (scores_after (commands_of t now ids m) (expiries_key t) j) kept
      ∙ commands_of-early now ids m j l e h
    where
      kept :
          scores_after (clean_up t now i (m i)) (expiries_key t) j (some l.expires_at)
          ≡ some l.expires_at
      kept = elim (Bool-cases (i == j)) [
        | inl same ↦
            clean_up-score now i j (m i) (some l.expires_at)
            ∙ rw (ap m ((eq_iff i j).0 same) ∙ e) (rw same (rw h refl))
        | inr other ↦ clean_up-score now i j (m i) (some l.expires_at) ∙ rw other refl
      ]

  pub claim-owner :
      (ids : List String) (s : State) (j owner_id : String)
      → member (claim t ids s).1 (owner_key t owner_id) j ≡ member s (owner_key t owner_id) j
  unfolding claim
  claim-owner [] s j owner_id = refl
  claim-owner (i ∷ ids) s j owner_id =
      claim-owner ids _ j owner_id
      ∙ redis.member-exec (sadd (expired_claims_key t) i) s (owner_key t owner_id) j
      ∙ rw (claims-owner t owner_id) refl

  pub claim-score :
      (ids : List String) (s : State) (j : String)
      → score (claim t ids s).1 (expiries_key t) j ≡ score s (expiries_key t) j
  unfolding claim
  claim-score [] s j = refl
  claim-score (i ∷ ids) s j =
      claim-score ids _ j ∙ redis.score-exec (sadd (expired_claims_key t) i) s (expiries_key t) j
