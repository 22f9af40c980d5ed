-- ===== src/Redis.antt =====
-- The Redis server that the stores share (_redis.py): its keys, the commands the program sends, and
-- what the program relies on of a server that answers them.
mod Keys
pub mod Pipelines
pub mod Memory
pub use Keys.{eq-append, eq-apart, eq-segment, eq-redis_key}
unfoldable pub use Keys.{redis_key}
use Prim.Native.String.{◌++◌}
use relayna.Prelude.{
  ℕ, ◌+◌, ◌*◌, ◌≤◌, ◌≡◌, ◌⊎◌, String, List, Bool, Option, none, some, true, false, if◌then◌else◌,
  ◌==◌, ◌∷◌, take, ◌≢◌, length, All, keep, leb, suc,
}
use relayna.Prelude.Text.{contains}

-- One command of a connection or of a pipeline. An expiry is in seconds; `ltrim key n` keeps the
-- elements 0 to n, and all of them for `none`, which is the stop -1.
pub data Command : Type 0 where
  set : String → String → Option ℕ → Command
  delete : String → Command
  sadd srem zrem lpush publish : String → String → Command
  zadd : String → String → ℕ → Command
  ltrim : String → Option ℕ → Command
  expire : String → ℕ → Command

-- How a call ends for the program: answered, or not, where `failed reached cancelled` says whether it
-- has reached the server all the same, and whether the program was cancelled in it.
pub data Answer : Type 0 where
  answered : Answer
  failed : Bool → Bool → Answer

abbrev pub has_reached : Answer → Bool
has_reached answered = true
has_reached (failed reached cancelled) = reached

-- The key that a command writes.
abbrev pub key_of : Command → String
key_of (set k v ex) = k
key_of (delete k) = k
key_of (sadd k m) = k
key_of (srem k m) = k
key_of (zrem k m) = k
key_of (lpush k v) = k
key_of (publish k v) = k
key_of (zadd k m n) = k
key_of (ltrim k n) = k
key_of (expire k n) = k

-- What GET, SISMEMBER, ZSCORE and LRANGE 0 -1 answer after a command, from what they answered before.
abbrev pub value_after : Command → String → Option String → Option String
value_after (set j v ex) k old = if j == k then some v else old
value_after (delete j) k old = if j == k then none else old
value_after _ k old = old

abbrev pub member_after : Command → String → String → Bool → Bool
member_after (set j v ex) k m old = if j == k then false else old
member_after (delete j) k m old = if j == k then false else old
member_after (sadd j i) k m old = if j == k then (if i == m then true else old) else old
member_after (srem j i) k m old = if j == k then (if i == m then false else old) else old
member_after _ k m old = old

abbrev pub score_after : Command → String → String → Option ℕ → Option ℕ
score_after (set j v ex) k m old = if j == k then none else old
score_after (delete j) k m old = if j == k then none else old
score_after (zadd j i n) k m old = if j == k then (if i == m then some n else old) else old
score_after (zrem j i) k m old = if j == k then (if i == m then none else old) else old
score_after _ k m old = old

abbrev pub trim : Option ℕ → List String → List String
trim none l = l
trim (some n) l = take (suc n) l

abbrev pub list_after : Command → String → List String → List String
list_after (set j v ex) k old = if j == k then List.[] else old
list_after (delete j) k old = if j == k then List.[] else old
list_after (lpush j v) k old = if j == k then v ∷ old else old
list_after (ltrim j n) k old = if j == k then trim n old else old
list_after _ k old = old

-- Whether a command gives its key an expiry.
abbrev pub is_timed : Command → Bool
is_timed (set k v (some ex)) = true
is_timed (expire k ex) = true
is_timed _ = false

-- Microseconds.
abbrev pub seconds : ℕ → ℕ
seconds n = n * 1000000

-- A server: its state, what it answers, and how a command and the passing of time change the
-- answers. The state's clock is in microseconds.
pub record Redis : Type 1 where
  pub State : Type 0
  pub value : State → String → Option String
  pub member : State → String → String → Bool
  pub score : State → String → String → Option ℕ
  pub list : State → String → List String
  pub smembers : State → String → List String
  pub zrangebyscore : State → String → ℕ → ℕ → List String
  pub clock : State → ℕ
  -- When the key expires, if it does.
  pub deadline : State → String → Option ℕ
  pub exec : Command → State → State
  pub elapse : ℕ → State → State
  pub value-exec :
      (c : Command) (s : State) (k : String) → value (exec c s) k ≡ value_after c k (value s k)
  pub member-exec :
      (c : Command) (s : State) (k m : String)
      → member (exec c s) k m ≡ member_after c k m (member s k m)
  pub score-exec :
      (c : Command) (s : State) (k m : String)
      → score (exec c s) k m ≡ score_after c k m (score s k m)
  pub list-exec :
      (c : Command) (s : State) (k : String) → list (exec c s) k ≡ list_after c k (list s k)
  pub clock-exec : (c : Command) (s : State) → clock (exec c s) ≡ clock s
  pub deadline-set :
      (k v : String) (ex : ℕ) (s : State)
      → deadline (exec (set k v (some ex)) s) k ≡ some (clock s + seconds ex)
  pub deadline-other :
      (c : Command) (s : State) (k : String)
      → (key_of c == k) ≡ false
      → deadline (exec c s) k ≡ deadline s k
  pub deadline_none :
      (c : Command) (s : State) (k : String)
      → is_timed c ≡ false
      → deadline s k ≡ none
      → deadline (exec c s) k ≡ none
  pub deadline_none-elapse :
      (n : ℕ) (s : State) (k : String) → deadline s k ≡ none → deadline (elapse n s) k ≡ none
  -- A value is there no longer than its deadline, and time does nothing but take values away.
  pub value_in_time :
      (s : State) (k v : String) (d : ℕ) → value s k ≡ some v → deadline s k ≡ some d → clock s ≤ d
  pub value-elapse :
      (n : ℕ) (s : State) (k : String)
      → (value (elapse n s) k ≡ value s k) ⊎ (value (elapse n s) k ≡ none)
  pub deadline-elapse :
      (n : ℕ) (s : State) (k v : String)
      → value (elapse n s) k ≡ some v
      → deadline (elapse n s) k ≡ deadline s k
  pub member-elapse :
      (n : ℕ) (s : State) (k m : String)
      → deadline s k ≡ none
      → member (elapse n s) k m ≡ member s k m
  pub score-elapse :
      (n : ℕ) (s : State) (k m : String)
      → deadline s k ≡ none
      → score (elapse n s) k m ≡ score s k m
  -- SMEMBERS lists the members.
  pub smembers-member : (s : State) (k m : String) → contains m (smembers s k) ≡ member s k m
  -- A sorted set's range has at most `limit` members, all of them with a score up to `max`.
  pub zrangebyscore-bounded :
      (s : State) (k : String) (max limit : ℕ) → length (zrangebyscore s k max limit) ≤ limit
  pub zrangebyscore-scored :
      (s : State) (k : String) (max limit : ℕ)
      → All (λ m. (n : ℕ) × (score s k m ≡ some n) × (n ≤ max)) (zrangebyscore s k max limit)
