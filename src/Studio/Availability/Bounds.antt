-- ===== src/Studio/Availability/Bounds.antt =====
-- What bounds the work of a provider's gate, after any sequence of calls and endings.
use relayna.Studio.Availability.{
  States, Bool, is_waiting, Provider, modify, remove, evict, state, ℕ, List, Key, find, Task,
  Availability, max_active, max_waiting, max_states, is_idle, behind, insert_new, touch_or_insert,
  pick, unchecked, past, perform, probe, waiting,
}
use relayna.Prelude.{
  ◌≡◌, true, ◌≤◌, some, ◌∷◌, length, false, ◌+◌, not, arith, [], Bool-cases, refl, inl, inr,
  if◌then◌else◌, Option, leb, suc, none, ◌<◌, length-append, zero, ltb,
}

abbrev weight : Bool → ℕ
weight true = 1
weight false = 0

unfoldable pub waiting_tasks : List Task → ℕ
unfolding is_waiting
waiting_tasks [] = 0
waiting_tasks (t ∷ ts) = weight (is_waiting t) + waiting_tasks ts

unfoldable pub running_tasks : List Task → ℕ
unfolding is_waiting
running_tasks [] = 0
running_tasks (t ∷ ts) = weight (not (is_waiting t)) + running_tasks ts

-- The counters are the numbers of tasks at their awaits, and with the cache they are bounded.
pub record IsBounded (s : Provider) : Type 0 where
  pub active_exact : s.active ≡ running_tasks s.tasks
  pub waiting_exact : s.waiting ≡ waiting_tasks s.tasks
  pub active_le : s.active ≤ max_active
  pub waiting_le : s.waiting ≤ max_waiting
  pub states_le : length s.states ≤ max_states

pub length-modify :
    (k : Key) (f : Availability → Availability) (l : States) → length (modify k f l) ≡ length l
unfolding modify
length-modify k f [] = refl
length-modify k f ((j, a) ∷ l) = ground (arith, length-modify k f l)

length-remove :
    (k : Key) (l : States) (a : Availability)
    → find k l ≡ some a
    → length (remove k l) + 1 ≡ length l
unfolding remove find
length-remove k [] a h = cc
length-remove k ((j, b) ∷ l) a h = ground (arith, length-remove k l a)

length-behind :
    (e : Key × Availability) (o : Option States) (l m : States)
    → ((m' : States) → o ≡ some m' → length m' + 1 ≡ length l)
    → behind e o ≡ some m
    → length m ≡ length l
unfolding behind
length-behind e none l m ih h = cc
length-behind e (some m') l m ih h = ground (arith, ih m' refl)

length-evict : (l m : States) → evict l ≡ some m → length m + 1 ≡ length l
unfolding evict
length-evict [] m h = cc
length-evict ((j, a) ∷ l) m h = elim (Bool-cases (is_idle a)) [
  | inl idle ↦ ground arith
  | inr used ↦ omega (
    arith,
    length-behind (j, a) (evict l) l m (λ m' e. length-evict l m' e)
        (let h' : (if is_idle a then some l else behind (j, a) (evict l)) ≡ some m = h in
          rw used at h'),
  )
]

insert-le :
    (k : Key) (o : Option States) (m : States) (a : Availability)
    → ((l : States) → o ≡ some l → length l < max_states)
    → insert_new k o ≡ some (m, a)
    → length m ≤ max_states
unfolding insert_new
insert-le k none m a small h = cc
insert-le k (some l) m a small h =
    ground (arith, small l refl, length-append l ((k, unchecked) ∷ []))

room :
    (l m : States)
    → length l ≤ max_states
    → (if leb max_states (length l) then evict l else some l) ≡ some m
    → length m < max_states
room l m b h = elim (Bool-cases (leb max_states (length l))) [
  | inl full ↦ omega (arith, length-evict l m (rw full at h))
  | inr free ↦ ground arith
]

touch-le :
    (k : Key) (l m : States) (o : Option Availability) (a : Availability)
    → find k l ≡ o
    → length l ≤ max_states
    → touch_or_insert k l o ≡ some (m, a)
    → length m ≤ max_states
unfolding touch_or_insert
touch-le k l m none a f b h = insert-le k _ m a (λ l' e. room l l' b e) h
touch-le k l m (some a') a f b h =
    ground (arith, length-remove k l a' f, length-append (remove k l) ((k, a') ∷ []))

-- The cache never holds more than `_max_states` providers.
pub state-le :
    (k : Key) (l m : States) (a : Availability)
    → length l ≤ max_states
    → state k l ≡ some (m, a)
    → length m ≤ max_states
unfolding state
state-le k l m a b h = touch-le k l m (find k l) a refl b h

-- A task that is taken out of the list is counted apart from the others.
abbrev pub Counted : List Task → Task × List Task → Type 0
Counted ts (t, us) =
    (waiting_tasks ts ≡ weight (is_waiting t) + waiting_tasks us)
    × (running_tasks ts ≡ weight (not (is_waiting t)) + running_tasks us)

past-counts :
    (x : Task) (ts : List Task) (o : Option (Task × List Task)) (p : Task × List Task)
    → ((q : Task × List Task) → o ≡ some q → Counted ts q)
    → past x o ≡ some p
    → Counted (x ∷ ts) p
unfolding past waiting_tasks running_tasks
past-counts x ts none p ih h = cc
past-counts x ts (some (u, us)) (t, vs) ih h = let (a, b) = ih (u, us) refl in ground (arith, a, b)

pub pick-counts :
    (i : ℕ) (ts : List Task) (p : Task × List Task) → pick i ts ≡ some p → Counted ts p
unfolding pick waiting_tasks running_tasks
pick-counts i [] p h = cc
pick-counts zero (x ∷ ts) (t, us) h = ground arith
pick-counts (suc i) (x ∷ ts) p h = past-counts x ts (pick i ts) p (λ q e. pick-counts i ts q e) h

ruleset sizes = (arith, length-modify)

pub perform-IsBounded :
    (k : Key) (a : Availability) (holds : Bool) (s : Provider)
    → IsBounded s
    → IsBounded (perform k a holds s).0
unfolding perform waiting_tasks running_tasks is_waiting
perform-IsBounded k a holds s v = elim (Bool-cases (leb max_active s.active)) [
  | inl full ↦ rw full (record {
    active_exact = v.active_exact;
    waiting_exact = v.waiting_exact;
    active_le = v.active_le;
    waiting_le = v.waiting_le;
    states_le = rw length-modify v.states_le;
  })
  | inr free ↦ rw free (record {
    active_exact = omega (arith, v.active_exact);
    waiting_exact = omega (arith, v.waiting_exact);
    active_le = ground arith;
    waiting_le = v.waiting_le;
    states_le = rw length-modify v.states_le;
  })
]

-- Changing an object in the cache counts no task.
pub modify-IsBounded :
    (k : Key) (f : Availability → Availability) (s : Provider)
    → IsBounded s
    → IsBounded (record s { states = modify k f s.states })
modify-IsBounded k f s v = record {
  active_exact = v.active_exact;
  waiting_exact = v.waiting_exact;
  active_le = v.active_le;
  waiting_le = v.waiting_le;
  states_le = rw length-modify v.states_le;
}

module _ (s : Provider) (v : IsBounded s) where
  pub probe-IsBounded : (k : Key) (now : ℕ) (a : Availability) → IsBounded (probe k now a s).0
  unfolding probe
  probe-IsBounded k now a = elim (Bool-cases (ltb now a.retry_at)) [
    | inl p ↦ rw p (modify-IsBounded k _ s v)
    | inr n ↦ rw n (elim (Bool-cases (leb a.healthy_until now)) [
      | inl p ↦ rw p (perform-IsBounded k a true s v)
      | inr q ↦ rw q (perform-IsBounded k a false _ (modify-IsBounded k _ s v))
    ])
  ]

  pub wait-IsBounded :
      (k : Key)
      → leb max_waiting s.waiting ≡ false
      → IsBounded (record s {
        waiting = s.waiting + 1;
        states = modify k (λ b. record b { waiters = b.waiters + 1 }) s.states;
        tasks = record { key = k; phase = waiting } ∷ s.tasks;
      })
  unfolding waiting_tasks running_tasks is_waiting
  wait-IsBounded k room = record {
    active_exact = omega (arith, v.active_exact);
    waiting_exact = omega (arith, v.waiting_exact);
    active_le = v.active_le;
    waiting_le = ground arith;
    states_le = rw length-modify v.states_le;
  }
