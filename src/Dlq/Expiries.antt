-- ===== src/Dlq/Expiries.antt =====
-- The expiries at the end of a pipeline of the dead letters (dlq/store.py).
use relayna.Status.{expire_in}
use relayna.Redis.Pipelines.{values_after, lists_after}
use mathlib.Core.Option.{none, some}
use relayna.Prelude.{String, ℕ, Option, List, ◌++◌, ◌≡◌, refl}

-- An expiry changes no value and no list.
pub values-expire :
    (ttl : Option ℕ) (a b k : String) (old : Option String)
    → values_after (expire_in ttl a ++ expire_in ttl b) k old ≡ old
unfolding expire_in
values-expire none a b k old = refl
values-expire (some n) a b k old = refl

pub lists-expire :
    (ttl : Option ℕ) (a b k : String) (old : List String)
    → lists_after (expire_in ttl a ++ expire_in ttl b) k old ≡ old
unfolding expire_in
lists-expire none a b k old = refl
lists-expire (some n) a b k old = refl
