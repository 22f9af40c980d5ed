-- ===== src/Studio/Availability/Steps.antt =====
-- Every action keeps the bounds.
use relayna.Studio.Availability.{
  Provider, admit, stop_waiting, finish, Key, ℕ, Availability, Task, Ending, List, pick, is_waiting,
  Reply, enter, run, Phase, is_free, give_up_picked, end_picked, acquire, wake_picked, step, steps,
  Action, state, modify, running, call, new, max_waiting, States, waiting, wake, find, give_up,
  ends, max_states,
}
use relayna.Studio.Availability.Bounds.{
  IsBounded, pick-counts, length-modify, waiting_tasks, running_tasks, state-le, wait-IsBounded,
  probe-IsBounded, modify-IsBounded, perform-IsBounded,
}
use relayna.Prelude.{
  ltb, ◌≡◌, some, leb, true, false, arith, if-cases, ◌-◌, ◌||◌, Option, ◌∷◌, ◌≢◌, none, ◌&&◌, [],
  length, ◌≤◌, refl,
}

abbrev Bounded : Provider × Reply → Type 0
Bounded r = IsBounded r.0

admit-IsBounded :
    (k : Key) (now : ℕ) (a : Availability) (s : Provider)
    → IsBounded s
    → IsBounded (admit k now a s).0
unfolding admit
admit-IsBounded k now a s v =
    if-cases Bounded (ltb now a.retry_at) _ _ (λ _. v)
      (λ _.
        if-cases Bounded (leb a.healthy_until now) _ _
          (λ _.
            if-cases Bounded (a.locked || ltb 0 a.waiters) _ _
              (λ _.
                if-cases Bounded (leb max_waiting s.waiting) _ _ (λ _. v)
                  (λ room. wait-IsBounded s v k room))
              (λ _. probe-IsBounded _ (modify-IsBounded k _ s v) k now a))
          (λ _. perform-IsBounded k a false s v))

enter-IsBounded :
    (k : Key) (now : ℕ) (s : Provider) (o : Option (States × Availability))
    → ((l : States) (a : Availability) → o ≡ some (l, a) → length l ≤ max_states)
    → IsBounded s
    → IsBounded (enter k now s o).0
unfolding enter
enter-IsBounded k now s none small v = v
enter-IsBounded k now s (some (l, a)) small v =
    admit-IsBounded k now a (record s { states = l })
      (record {
        active_exact = v.active_exact;
        waiting_exact = v.waiting_exact;
        active_le = v.active_le;
        waiting_le = v.waiting_le;
        states_le = small l a refl;
      })

run-IsBounded : (k : Key) (now : ℕ) (s : Provider) → IsBounded s → IsBounded (run k now s).0
unfolding run
run-IsBounded k now s v =
    enter-IsBounded k now s (state k s.states) (λ l a e. state-le k s.states l a v.states_le e) v

-- The rest of a list whose head was waiting, with one waiting task less.
stop_waiting-IsBounded :
    (k : Key) (s : Provider) (i : ℕ) (t : Task) (ts : List Task)
    → pick i s.tasks ≡ some (t, ts)
    → is_waiting t ≡ true
    → IsBounded s
    → IsBounded (stop_waiting k (record s { tasks = ts }))
unfolding stop_waiting
stop_waiting-IsBounded k s i t ts p w v =
    let (c, d) = pick-counts i s.tasks (t, ts) p in
    record {
      active_exact = ground (arith, v.active_exact);
      waiting_exact = ground (arith, v.waiting_exact);
      active_le = v.active_le;
      waiting_le = ground (arith, v.waiting_le);
      states_le = rw length-modify v.states_le;
    }

-- What `finish` does for a task that was running.
ended-IsBounded :
    (k : Key) (f : Availability → Availability) (s : Provider) (i : ℕ) (t : Task) (ts : List Task)
    → pick i s.tasks ≡ some (t, ts)
    → is_waiting t ≡ false
    → IsBounded s
    → IsBounded (record s { active = s.active - 1; states = modify k f s.states; tasks = ts })
ended-IsBounded k f s i t ts p w v =
    let (c, d) = pick-counts i s.tasks (t, ts) p in
    record {
      active_exact = ground (arith, v.active_exact);
      waiting_exact = ground (arith, v.waiting_exact);
      active_le = ground (arith, v.active_le);
      waiting_le = v.waiting_le;
      states_le = rw length-modify v.states_le;
    }

finish-IsBounded :
    (now : ℕ) (e : Ending) (k : Key) (ph : Phase) (s : Provider) (i : ℕ) (ts : List Task)
    → pick i s.tasks ≡ some (record { key = k; phase = ph }, ts)
    → is_waiting (record { key = k; phase = ph }) ≡ false
    → IsBounded s
    → IsBounded (finish now e (record { key = k; phase = ph }) (record s { tasks = ts }))
unfolding finish is_waiting
finish-IsBounded now e k waiting s i ts p w v = cc
finish-IsBounded now e k (running g holds) s i ts p w v = ended-IsBounded k _ s i _ ts p w v

free-some : (o : Option Availability) → is_free o ≡ true → o ≢ none
unfolding is_free
free-some none h e = cc
free-some (some a) h e = cc

module _ (s : Provider) (i : ℕ) (v : IsBounded s) where
  give_up-IsBounded :
      (o : Option (Task × List Task)) → pick i s.tasks ≡ o → IsBounded (give_up_picked s o)
  unfolding give_up_picked
  give_up-IsBounded none p = v
  give_up-IsBounded (some (t, ts)) p =
      if-cases IsBounded (is_waiting t) _ _ (λ w. stop_waiting-IsBounded t.key s i t ts p w v)
        (λ _. v)

  end-IsBounded :
      (now : ℕ) (e : Ending) (o : Option (Task × List Task))
      → pick i s.tasks ≡ o
      → IsBounded (end_picked now e s o)
  unfolding end_picked
  end-IsBounded now e none p = v
  end-IsBounded now e (some (t, ts)) p =
      if-cases IsBounded (is_waiting t) _ _ (λ _. v)
        (λ w. finish-IsBounded now e t.key t.phase s i ts p w v)

  acquire-IsBounded :
      (now : ℕ) (t : Task) (ts : List Task) (a : Option Availability)
      → pick i s.tasks ≡ some (t, ts)
      → is_waiting t ≡ true
      → a ≢ none
      → IsBounded (acquire t.key now a (record s { tasks = ts })).0
  unfolding acquire
  acquire-IsBounded now t ts none p w n = absurd (n refl)
  acquire-IsBounded now t ts (some a) p w n =
      probe-IsBounded _ (modify-IsBounded t.key _ _ (stop_waiting-IsBounded t.key s i t ts p w v))
        t.key now a

  wake-IsBounded :
      (now : ℕ) (o : Option (Task × List Task))
      → pick i s.tasks ≡ o
      → IsBounded (wake_picked now s o)
  unfolding wake_picked
  wake-IsBounded now none p = v
  wake-IsBounded now (some (t, ts)) p =
      if-cases IsBounded (is_waiting t && is_free (find t.key s.states)) _ _
        (λ w. acquire-IsBounded now t ts _ p (ground arith) (free-some _ (ground arith))) (λ _. v)

-- Every action keeps the counters exact and the work within its limits.
pub step-IsBounded : (s : Provider) (a : Action) → IsBounded s → IsBounded (step s a)
unfolding step
step-IsBounded s (call k now) v = run-IsBounded k now s v
step-IsBounded s (wake i now) v = wake-IsBounded s i v now (pick i s.tasks) refl
step-IsBounded s (give_up i) v = give_up-IsBounded s i v (pick i s.tasks) refl
step-IsBounded s (ends i now e) v = end-IsBounded s i v now e (pick i s.tasks) refl

steps-IsBounded : (s : Provider) (as' : List Action) → IsBounded s → IsBounded (steps s as')
unfolding steps
steps-IsBounded s [] v = v
steps-IsBounded s (a ∷ as') v = steps-IsBounded (step s a) as' (step-IsBounded s a v)

new-IsBounded : IsBounded new
unfolding waiting_tasks running_tasks
new-IsBounded = omega arith

-- Whatever calls, wake-ups, timeouts and endings come: at most two operations run, at most sixteen
-- calls wait, at most 128 providers are remembered, and both counters are the numbers of calls that
-- run and wait.
pub run_bounds : (as' : List Action) → IsBounded (steps new as')
run_bounds as' = steps-IsBounded new as' new-IsBounded
