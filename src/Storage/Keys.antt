-- ===== src/Storage/Keys.antt =====
-- The four kinds of keys of the lease store (storage/task_lease_store.py) never meet.
use Prim.Native.String.{◌++◌}
use relayna.Redis.{eq-segment, eq-append, eq-apart, redis_key}
use relayna.Storage.{LeaseStore, lease_key, owner_key, expiries_key, expired_claims_key}
use relayna.Prelude.{String, List, ◌==◌, ◌≡◌, ◌∷◌, false, [], ◌∙◌, refl}
use relayna.Prelude.Text.{join}

module _ (t : LeaseStore) where
  open t use {hash_tag, prefix}

  same :
      (x y : String) (xs ys : List String)
      → (redis_key hash_tag prefix "task-leases" ("lease" ∷ x ∷ xs)
          == redis_key hash_tag prefix "task-leases" ("lease" ∷ y ∷ ys))
        ≡ (join ":" (x ∷ xs) == join ":" (y ∷ ys))
  same x y xs ys = eq-segment hash_tag prefix "task-leases" "lease" x y xs ys

  pub lease-lease : (a b : String) → (lease_key t a == lease_key t b) ≡ (a == b)
  unfolding lease_key join
  lease-lease a b =
      same "task" "task" (a ∷ []) (b ∷ [])
      ∙ eq-append "task" (":" ++ a) (":" ++ b)
      ∙ eq-append ":" a b

  pub owner-owner : (a b : String) → (owner_key t a == owner_key t b) ≡ (a == b)
  unfolding owner_key join
  owner-owner a b =
      same "owner" "owner" (a ∷ []) (b ∷ [])
      ∙ eq-append "owner" (":" ++ a) (":" ++ b)
      ∙ eq-append ":" a b

  pub lease-owner : (a b : String) → (lease_key t a == owner_key t b) ≡ false
  unfolding lease_key owner_key join
  lease-owner a b =
      same "task" "owner" (a ∷ []) (b ∷ []) ∙ eq-apart "task" "owner" (":" ++ a) (":" ++ b) refl

  pub lease-expiries : (a : String) → (lease_key t a == expiries_key t) ≡ false
  unfolding expiries_key lease_key join
  lease-expiries a =
      same "task" "expiries" (a ∷ []) [] ∙ eq-apart "task" "expiries" (":" ++ a) "" refl

  pub lease-claims : (a : String) → (lease_key t a == expired_claims_key t) ≡ false
  unfolding expired_claims_key lease_key join
  lease-claims a =
      same "task" "expired_claims" (a ∷ []) [] ∙ eq-apart "task" "expired_claims" (":" ++ a) "" refl

  pub owner-claims : (a : String) → (owner_key t a == expired_claims_key t) ≡ false
  unfolding expired_claims_key owner_key join
  owner-claims a =
      same "owner" "expired_claims" (a ∷ []) []
      ∙ eq-apart "owner" "expired_claims" (":" ++ a) "" refl

  pub owner-expiries : (a : String) → (owner_key t a == expiries_key t) ≡ false
  unfolding expiries_key owner_key join
  owner-expiries a =
      same "owner" "expiries" (a ∷ []) [] ∙ eq-apart "owner" "expiries" (":" ++ a) "" refl

  pub claims-owner : (b : String) → (expired_claims_key t == owner_key t b) ≡ false
  unfolding expired_claims_key owner_key join
  claims-owner b =
      same "expired_claims" "owner" [] (b ∷ [])
      ∙ eq-apart "expired_claims" "owner" "" (":" ++ b) refl

  pub expiries-owner : (b : String) → (expiries_key t == owner_key t b) ≡ false
  unfolding expiries_key owner_key join
  expiries-owner b =
      same "expiries" "owner" [] (b ∷ []) ∙ eq-apart "expiries" "owner" "" (":" ++ b) refl

  pub claims-expiries : (expired_claims_key t == expiries_key t) ≡ false
  unfolding expired_claims_key expiries_key join
  claims-expiries =
      same "expired_claims" "expiries" [] [] ∙ eq-apart "expired_claims" "expiries" "" "" refl

  pub expiries-claims : (expiries_key t == expired_claims_key t) ≡ false
  unfolding expired_claims_key expiries_key join
  expiries-claims =
      same "expiries" "expired_claims" [] [] ∙ eq-apart "expiries" "expired_claims" "" "" refl

  pub owner-lease : (a b : String) → (owner_key t a == lease_key t b) ≡ false
  unfolding lease_key owner_key join
  owner-lease a b =
      same "owner" "task" (a ∷ []) (b ∷ []) ∙ eq-apart "owner" "task" (":" ++ a) (":" ++ b) refl

  pub expiries-lease : (b : String) → (expiries_key t == lease_key t b) ≡ false
  unfolding lease_key expiries_key join
  expiries-lease b =
      same "expiries" "task" [] (b ∷ []) ∙ eq-apart "expiries" "task" "" (":" ++ b) refl

  pub claims-lease : (b : String) → (expired_claims_key t == lease_key t b) ≡ false
  unfolding lease_key expired_claims_key join
  claims-lease b =
      same "expired_claims" "task" [] (b ∷ []) ∙ eq-apart "expired_claims" "task" "" (":" ++ b) refl
