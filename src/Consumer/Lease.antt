-- ===== src/Consumer/Lease.antt =====
-- `_process_task_with_lease`: what becomes of a lease.
use relayna.Consumer.Triples.{finished}
use relayna.Consumer.Effects.{
  Env, Trace, Result, acquire_lease, returned, query, perform, ◌>>=◌, continue, answer, finally,
  give_back, Exc, await_heartbeat, raised, fail, Effect, release_lease, absorb_cancelled, pure,
  Outcome, cancelled,
}
use relayna.Consumer.Publish.{Consumer, Message, TaskEnvelope}
use relayna.Consumer.Context.{TaskContext}
use relayna.Consumer.Process.{
  process_task_with_lease, under_lease, release, no_overrides, process_task,
}
use relayna.Prelude.{Bool, ◌∷◌, ◌≡◌, true, Option, ◌≢◌, some, none, [], ◌∙◌, ap, refl}

abbrev pub last_effect : Trace → Option Effect
last_effect [] = none
last_effect (e ∷ t) = some e.effect

trace-continue : (o : Outcome) (u : Trace) → (finished o u).1 ≡ u
unfolding continue answer pure
trace-continue returned u = refl
trace-continue _ u = refl

last-perform : (env : Env) (e : Effect) (t : Trace) → last_effect (perform env e t).1 ≡ some e
unfolding perform query ◌>>=◌
last-perform env e t =
    rw (trace-continue (env.outcome t e) (record { effect = e; outcome = env.outcome t e } ∷ t))

module _ (env : Env) (c : Consumer) (m : Message) (task : TaskEnvelope) (x : TaskContext) where
  abbrev leased : Trace → Result Bool × Trace
  leased = process_task_with_lease env c m task x no_overrides

  -- The trace right after the lease is taken, and the run of the task from there.
  abbrev taken : Trace → Trace
  taken s = record { effect = acquire_lease; outcome = returned } ∷ s

  abbrev ran : Trace → Result Bool × Trace
  ran s = process_task env c m task x no_overrides (taken s)

  abbrev released : Trace → Result (Unit {0}) × Trace
  released = release env c m task x no_overrides

  -- The run of the task and then the release.
  leased-eq :
      (s : Trace)
      → c.lease_enabled ≡ true
      → c.has_lease_store ≡ true
      → env.outcome s acquire_lease ≡ returned
      → leased s ≡ (give_back (ran s).0 (released (ran s).1).0, (released (ran s).1).1)
  unfolding process_task_with_lease under_lease query finally ◌>>=◌ continue answer
  leased-eq s enabled store got = simp (enabled, store, got)

  release_failed :
      (t : Trace) (e : Exc)
      → env.outcome t await_heartbeat ≡ raised e
      → released t ≡ (fail e, record { effect = await_heartbeat; outcome = raised e } ∷ t)
  unfolding release absorb_cancelled perform query ◌>>=◌ continue answer pure
  release_failed t e h = simp h

  release_last :
      (t : Trace) (o : Outcome)
      → env.outcome t await_heartbeat ≡ o
      → ((e : Exc) → o ≢ raised e)
      → last_effect (released t).1 ≡ some release_lease
  unfolding release absorb_cancelled perform query ◌>>=◌ continue answer pure
  release_last t (raised e) h n = absurd (n e refl)
  release_last t cancelled h n = simp h (last-perform env release_lease _)
  release_last t _ h n = simp h (last-perform env release_lease _)

  -- Where a heartbeat has failed, its exception takes the place of the task's result, and the lease
  -- is not released: the trace ends with the `await` of the heartbeat.
  pub heartbeat_failure :
      (s : Trace) (e : Exc)
      → c.lease_enabled ≡ true
      → c.has_lease_store ≡ true
      → env.outcome s acquire_lease ≡ returned
      → env.outcome (ran s).1 await_heartbeat ≡ raised e
      → leased s ≡ (fail e, record { effect = await_heartbeat; outcome = raised e } ∷ (ran s).1)
  unfolding give_back
  heartbeat_failure s e enabled store got beat =
      leased-eq s enabled store got ∙ rw (release_failed (ran s).1 e beat)

  -- Where no heartbeat has failed, the last call of a leased run releases the lease, whatever the
  -- task's result is.
  pub lease_released :
      (s : Trace)
      → c.lease_enabled ≡ true
      → c.has_lease_store ≡ true
      → env.outcome s acquire_lease ≡ returned
      → ((e : Exc) → env.outcome (ran s).1 await_heartbeat ≢ raised e)
      → last_effect (leased s).1 ≡ some release_lease
  lease_released s enabled store got beat =
      ap (λ p. last_effect p.1) (leased-eq s enabled store got) ∙ release_last (ran s).1 _ refl beat
