-- ===== src/Studio/Availability.antt =====
-- studio/backend/src/relayna_studio/_provider_availability.py: the gates of optional telemetry.
-- A time is a number of milliseconds. A run of `run` is cut at its awaits: an `Action` is what one
-- task does between two of them, and nothing else runs meanwhile.
pub mod Bounds
pub mod Steps
pub mod Outage
use relayna.Prelude.{
  ℕ, String, Bool, false, List, Option, ◌∷◌, if◌then◌else◌, true, ◌-◌, min, ◌+◌, some, [], ◌==◌,
  none, nat_eq, ◌++◌, leb, ltb, ◌*◌, not, ◌&&◌, length, ◌||◌, suc, ◌^◌, zero,
}

-- `_Key`: a service and its configuration.
abbrev pub Key : Type 0
Key = String × String

abbrev pub same_key : Key → Key → Bool
same_key (a, b) (c, d) = (a == c) && (b == d)

pub record Availability : Type 0 where
  pub locked : Bool
  pub healthy_until : ℕ
  pub retry_at : ℕ
  pub generation : ℕ
  pub active : ℕ
  pub waiters : ℕ
  pub checked_at : Option ℕ
  pub last_successful_at : Option ℕ
  pub failures : ℕ

abbrev pub unchecked : Availability
unchecked = record {
  locked = false;
  healthy_until = 0;
  retry_at = 0;
  generation = 0;
  active = 0;
  waiters = 0;
  checked_at = none;
  last_successful_at = none;
  failures = 0;
}

abbrev pub cooldown : ℕ
cooldown = 30000

abbrev pub freshness : ℕ
freshness = 30000

abbrev pub max_active : ℕ
max_active = 2

abbrev pub max_waiting : ℕ
max_waiting = 16

abbrev pub max_states : ℕ
max_states = 128

abbrev pub max_delay : ℕ
max_delay = 300000

-- The `OrderedDict`, least recently used first.
abbrev pub States : Type 0
States = List (Key × Availability)

unfoldable pub find : Key → States → Option Availability
find k [] = none
find k ((j, a) ∷ l) = if same_key j k then some a else find k l

unfoldable pub remove : Key → States → States
remove k [] = []
remove k ((j, a) ∷ l) = if same_key j k then l else (j, a) ∷ remove k l

-- A change of the object under `k`.
unfoldable pub modify : Key → (Availability → Availability) → States → States
modify k f [] = []
modify k f ((j, a) ∷ l) = if same_key j k then (j, f a) ∷ l else (j, a) ∷ modify k f l

abbrev pub is_idle : Availability → Bool
is_idle a = nat_eq a.active 0 && nat_eq a.waiters 0 && not a.locked

unfoldable pub behind : Key × Availability → Option States → Option States
behind e none = none
behind e (some l) = some (e ∷ l)

-- The first idle entry goes; `none` if there is none.
unfoldable pub evict : States → Option States
unfolding behind
evict [] = none
evict ((j, a) ∷ l) = let rest = behind (j, a) (evict l) in if is_idle a then some l else rest

-- `_state`: the object under `k` becomes the most recent; `none` where the cache is busy.
unfoldable pub insert_new : Key → Option States → Option (States × Availability)
insert_new k none = none
insert_new k (some l) = some (l ++ (k, unchecked) ∷ [], unchecked)

unfoldable pub touch_or_insert : Key → States → Option Availability → Option (States × Availability)
unfolding insert_new
touch_or_insert k l (some a) = some (remove k l ++ (k, a) ∷ [], a)
touch_or_insert k l none = insert_new k (if leb max_states (length l) then evict l else some l)

unfoldable pub state : Key → States → Option (States × Availability)
unfolding touch_or_insert
state k l = touch_or_insert k l (find k l)

-- Where a call of `run` waits: for the lock, or for its operation, started under a generation and
-- with or without the lock.
pub data Phase : Type 0 where
  waiting : Phase
  running : ℕ → Bool → Phase

pub record Task : Type 0 where
  pub key : Key
  pub phase : Phase

pub record Provider : Type 0 where
  pub states : States
  pub active : ℕ
  pub waiting : ℕ
  pub tasks : List Task

-- How a segment ends: suspended, or with an exception.
pub data Reply : Type 0 where
  suspended paused busy pending : Reply

abbrev add_task : Key → Phase → Provider → Provider
add_task k p s = record s { tasks = record { key = k; phase = p } ∷ s.tasks }

unfoldable pub release_lock : Bool → Availability → Availability
release_lock holds a = if holds then record a { locked = false } else a

-- The start of `_perform`; where it is refused, a lock that the task holds is released.
unfoldable pub perform : Key → Availability → Bool → Provider → Provider × Reply
unfolding release_lock
perform k a holds s =
    if leb max_active s.active
    then (record s { states = modify k (release_lock holds) s.states }, busy)
    else (
      add_task k (running a.generation holds) (record s {
        active = s.active + 1;
        states = modify k (λ b. record b { active = b.active + 1 }) s.states;
      }),
      suspended,
    )

-- Under the lock: the probe, or after a probe of another task its own operation.
unfoldable pub probe : Key → ℕ → Availability → Provider → Provider × Reply
unfolding release_lock
probe k now a s =
    if ltb now a.retry_at
    then (record s { states = modify k (release_lock true) s.states }, paused)
    else if leb a.healthy_until now
    then perform k a true s
    else perform k a false (record s { states = modify k (release_lock true) s.states })

unfoldable pub lock : Availability → Availability
lock a = record a { locked = true }

-- `run` up to its first suspension, after `_state` has given `a`.
unfoldable pub admit : Key → ℕ → Availability → Provider → Provider × Reply
unfolding lock
admit k now a s =
    if ltb now a.retry_at
    then (s, paused)
    else if leb a.healthy_until now
    then (if a.locked || ltb 0 a.waiters
        then (if leb max_waiting s.waiting then (s, busy) else (
          add_task k waiting (record s {
            waiting = s.waiting + 1;
            states = modify k (λ b. record b { waiters = b.waiters + 1 }) s.states;
          }),
          suspended,
        ))
        else probe k now a (record s { states = modify k lock s.states }))
    else perform k a false s

unfoldable pub enter : Key → ℕ → Provider → Option (States × Availability) → Provider × Reply
unfolding admit
enter k now s none = (s, busy)
enter k now s (some (l, a)) = admit k now a (record s { states = l })

unfoldable pub run : Key → ℕ → Provider → Provider × Reply
unfolding enter
run k now s = enter k now s (state k s.states)

unfoldable pub past : Task → Option (Task × List Task) → Option (Task × List Task)
past t none = none
past t (some (u, us)) = some (u, t ∷ us)

-- The task at a position, and the others.
unfoldable pub pick : ℕ → List Task → Option (Task × List Task)
unfolding past
pick i [] = none
pick zero (t ∷ ts) = some (t, ts)
pick (suc i) (t ∷ ts) = past t (pick i ts)

unfoldable pub stop_waiting : Key → Provider → Provider
stop_waiting k s = record s {
  waiting = s.waiting - 1;
  states = modify k (λ b. record b { waiters = b.waiters - 1 }) s.states;
}

-- The lock is free and the event loop gives it to the waiting task.
unfoldable pub acquire : Key → ℕ → Option Availability → Provider → Provider × Reply
unfolding stop_waiting lock
acquire k now none s = (s, pending)
acquire k now (some a) s =
    probe k now a (record (stop_waiting k s) { states = modify k lock (stop_waiting k s).states })

-- What the operation of a running task does.
pub data Ending : Type 0 where
  success cancelled query_rejected : Ending
  failure : ℕ → Ending

-- The delay before the jitter, after `failures` failures in a row.
unfoldable pub delay : ℕ → ℕ
delay failures = min max_delay (cooldown * 2 ^ min (failures - 1) 4)

-- `j` is the delay times `random.uniform(0.8, 1.2)`.
unfoldable pub record_failure : ℕ → ℕ → Availability → Availability
record_failure now j a = record a {
  generation = a.generation + 1;
  failures = a.failures + 1;
  healthy_until = 0;
  retry_at = now + min max_delay j;
  checked_at = some now;
}

unfoldable pub record_success : ℕ → ℕ → Availability → Availability
record_success now generation a =
    let b = record a { checked_at = some now; last_successful_at = some now } in
    if nat_eq generation b.generation
    then record b { failures = 0; retry_at = 0; healthy_until = now + freshness }
    else b

unfoldable pub conclude : ℕ → ℕ → Ending → Availability → Availability
unfolding record_failure record_success
conclude now generation success a = record_success now generation a
conclude now generation (failure j) a = record_failure now j a
conclude now generation _ a = a

unfoldable pub stop_running : Bool → Availability → Availability
unfolding release_lock
stop_running holds a = release_lock holds (record a { active = a.active - 1 })

unfoldable pub finish : ℕ → Ending → Task → Provider → Provider
unfolding stop_running
finish now e t s = elim t.phase [
  | waiting ↦ s
  | running generation holds ↦ record s {
    active = s.active - 1;
    states = modify t.key (λ a. stop_running holds (conclude now generation e a)) s.states;
  }
]

-- What may happen next: a call, a waiting task gets the lock, or gives up after its timeout (or is
-- cancelled), an operation ends. A task is named by its position.
pub data Action : Type 0 where
  call : Key → ℕ → Action
  wake : ℕ → ℕ → Action
  give_up : ℕ → Action
  ends : ℕ → ℕ → Ending → Action

unfoldable pub is_waiting : Task → Bool
is_waiting t = elim t.phase [ waiting ↦ true | running _ _ ↦ false ]

unfoldable pub is_free : Option Availability → Bool
is_free none = false
is_free (some a) = not a.locked

unfoldable pub wake_picked : ℕ → Provider → Option (Task × List Task) → Provider
unfolding acquire is_waiting is_free
wake_picked now s none = s
wake_picked now s (some (t, ts)) =
    if is_waiting t && is_free (find t.key s.states)
    then (acquire t.key now (find t.key s.states) (record s { tasks = ts })).0
    else s

unfoldable pub give_up_picked : Provider → Option (Task × List Task) → Provider
unfolding stop_waiting is_waiting
give_up_picked s none = s
give_up_picked s (some (t, ts)) =
    if is_waiting t then stop_waiting t.key (record s { tasks = ts }) else s

unfoldable pub end_picked : ℕ → Ending → Provider → Option (Task × List Task) → Provider
unfolding is_waiting
end_picked now e s none = s
end_picked now e s (some (t, ts)) =
    if is_waiting t then s else finish now e t (record s { tasks = ts })

unfoldable pub step : Provider → Action → Provider
unfolding wake_picked give_up_picked end_picked
step s (call k now) = (run k now s).0
step s (wake i now) = wake_picked now s (pick i s.tasks)
step s (give_up i) = give_up_picked s (pick i s.tasks)
step s (ends i now e) = end_picked now e s (pick i s.tasks)

unfoldable pub steps : Provider → List Action → Provider
steps s [] = s
steps s (a ∷ as') = steps (step s a) as'

abbrev pub new : Provider
new = record { states = []; active = 0; waiting = 0; tasks = [] }

-- `check`: does it raise?
unfoldable pub check : Key → ℕ → Provider → Bool
check k now s = elim (find k s.states) [ none ↦ false | some a ↦ ltb now a.retry_at ]

pub data Evidence : Type 0 where
  is_ok is_unknown is_unavailable : Evidence

unfoldable pub describe : Key → ℕ → Provider → Evidence
describe k now s = elim (find k s.states) [
  | none ↦ is_unknown
  | some a ↦
      (if ltb now a.retry_at
        then is_unavailable
        else if ltb now a.healthy_until
        then is_ok
        else is_unknown)
]
