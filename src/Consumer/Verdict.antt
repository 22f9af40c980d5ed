-- ===== src/Consumer/Verdict.antt =====
-- What `_process_task` answers: `True` for a message that its caller is to acknowledge, `False` for
-- one that is settled.
use relayna.Consumer.Triples.{
  Triple, Handed, IsStable, Done, Handed-IsStable, Fresh, Done-IsStable, bind_triple, after_quiet,
  After, pure_triple, Holds, Fresh-IsStable, Bounded, ack_triple, reject_triple, finally_triple,
  if_triple, quiet_triple, throw_triple, handle_triple, delivery_triple,
}
use relayna.Prelude.{Bool, Option, some, true, none, String, false, ◌∷◌, arith, ℕ, refl}
use relayna.Consumer.Effects.{
  Outcome, Trace, continue, Env, manual_retry, last_outcome, ManualRetryRequest, answer, pure,
  requested, perform, manual_request, raised, query, Result, ◌>>=◌, ok, run_handler, ack, Metric,
  fail, Exc, when, note, metric, returned, refused, cancel, cancelled,
}
use relayna.Consumer.Publish.{Consumer, Message, TaskEnvelope}
use relayna.Consumer.Process.{
  conclude, attempt_task, emit_task_resource_sample, start_task, record_finished, finish_task,
  publish_manual_retry_request, reject_failed, retry_within, dead_letter_failed, follow,
  handle_failure, close_task, attempt_and_close, process_task, release, under_lease,
  process_task_with_lease, retry_failed, no_overrides, lease_conflict,
}
use relayna.Consumer.Hoare.{
  settled, Quiet, no_loss, Quiet-when, Quiet-bind, handed_over, Quiet-emit, Quiet-note, Quiet-pure,
  Quiet-perform, Quiet-catch, Quiet-query, Quiet-absorb,
}
use relayna.Consumer.Context.{TaskContext}
use relayna.Consumer.Settlement.{
  lifecycle-Quiet, dead_letter-Handed, status-Quiet, dead_letter_status-Quiet, retry-Handed,
  retry_status-Quiet,
}
use relayna.Policies.{RetryDecision, RetryDecisionAction}

-- `True` comes with a handed-over message, `False` with a settled one.
abbrev pub Verdict : Bool → Trace → Type 0
Verdict true = Handed
Verdict false = Done

Verdict-IsStable : (b : Bool) → IsStable (Verdict b)
Verdict-IsStable true = Handed-IsStable
Verdict-IsStable false = Done-IsStable

-- After the handler: it has returned, or it has asked for a manual retry.
abbrev HandledBy : Outcome → Trace → Type 0
HandledBy (manual_retry _) = Fresh
HandledBy _ = Handed

abbrev Handled : Trace → Type 0
Handled s = HandledBy (last_outcome s) s

abbrev Requested : Option ManualRetryRequest → Trace → Type 0
Requested none = Handed
Requested (some _) = Fresh

handler-holds :
    (s : Trace) (o : Outcome)
    → Fresh s
    → After Handled Fresh o (record { effect = run_handler; outcome = o } ∷ s)
unfolding continue answer pure settled no_loss handed_over
handler-holds s returned p = ground arith
handler-holds s refused p = ground arith
handler-holds s (manual_retry r) p = ground arith
handler-holds s cancelled p = ground arith
handler-holds s (raised x) p = ground arith

requested-holds :
    (s : Trace) (o : Outcome) (r : Option ManualRetryRequest)
    → HandledBy o s
    → Requested (requested o r) s
requested-holds s (manual_retry r) q h = h
requested-holds s returned none h = h
requested-holds s returned (some _) h = (h.0, h.1)
requested-holds s refused none h = h
requested-holds s refused (some _) h = (h.0, h.1)
requested-holds s cancelled none h = h
requested-holds s cancelled (some _) h = (h.0, h.1)
requested-holds s (raised x) none h = h
requested-holds s (raised x) (some _) h = (h.0, h.1)

module _ (env : Env) (c : Consumer) where
  handler_triple : Triple Fresh (perform env run_handler) (λ _. Handled) Fresh
  unfolding perform query ◌>>=◌
  handler_triple = record { run = λ s p. handler-holds s (env.outcome s run_handler) p }

  request_triple : Triple Handled (manual_request env) Requested Fresh
  unfolding manual_request
  request_triple = record { run = λ s p. requested-holds s (last_outcome s) (env.request s) p }

  conclude_triple :
      (r : Option ManualRetryRequest) → Triple (Requested r) (conclude env c r) Verdict Fresh
  unfolding conclude publish_manual_retry_request
  conclude_triple none =
      after_quiet _ _ _ _ _ Handed-IsStable (λ s h. (h.0, h.1)) (lifecycle-Quiet env c _ _)
        (λ _. pure_triple _ _ _ _ (λ s h. h))
  conclude_triple (some r) =
      bind_triple _ (λ _. Handed) _ _ _ _
        (after_quiet _ _ _ _ _ Fresh-IsStable (λ s h. h)
          (Quiet-catch _ _ (status-Quiet env c _ _) (λ _. Quiet-pure tt))
          (λ _. delivery_triple env _ (record { quiet = (refl, λ _. refl); delivery = λ o. refl })))
        (λ _. pure_triple _ _ _ _ (λ s h. h))

  attempt_triple : Triple Fresh (attempt_task env c) Verdict Fresh
  unfolding attempt_task
  attempt_triple =
      bind_triple _ _ _ _ _ _ handler_triple
        (λ _. bind_triple _ _ _ _ _ _ request_triple conclude_triple)

  sample-Quiet : (kind : String) → Quiet (emit_task_resource_sample env c kind)
  unfolding emit_task_resource_sample
  sample-Quiet kind = Quiet-when _ _ (
      Quiet-bind _ _ (Quiet-emit env _ _)
        (λ _. Quiet-when _ _ (Quiet-note env _ (refl, λ _. refl))))

  start-Quiet : Quiet (start_task env c)
  unfolding start_task
  start-Quiet = Quiet-bind _ _ (lifecycle-Quiet env c _ _) (λ _. Quiet-when _ _ (sample-Quiet _))

  finished-Quiet : (r : Result Bool) → Quiet (record_finished env c r)
  unfolding record_finished
  finished-Quiet (ok _) = Quiet-note env _ (refl, λ _. refl)
  finished-Quiet (fail _) = Quiet-note env _ (refl, λ _. refl)
  finished-Quiet cancel = Quiet-pure tt

  finish-Quiet : (r : Result Bool) → Quiet (finish_task env c r)
  unfolding finish_task
  finish-Quiet r =
      Quiet-bind _ _ (Quiet-when _ _ (sample-Quiet _)) (λ _. Quiet-when _ _ (finished-Quiet r))

module _ (env : Env) (c : Consumer) (m : Message) (task : TaskEnvelope) (x : TaskContext) where
  -- What ends a message whose handler failed, after it is settled.
  settle_then_false : Triple Handed (perform env ack >>= λ _. pure false) Verdict Bounded
  settle_then_false =
      bind_triple _ (λ _. Done) _ _ _ _ (ack_triple env) (λ _. pure_triple _ _ _ _ (λ s h. h))

  reject_triple' :
      (e : Exc) → Triple Fresh (reject_failed env c m task x no_overrides e) Verdict Bounded
  unfolding reject_failed
  reject_triple' e =
      after_quiet _ _ _ _ _ Fresh-IsStable Fresh-IsStable.bounds (lifecycle-Quiet env c _ _) (λ _.
        bind_triple _ (λ _. Done) _ _ _ _
          (bind_triple _ (λ _. Done) _ _ _ _ (reject_triple env _)
            (λ _. quiet_triple _ _ _ Done-IsStable Done-IsStable.bounds (Quiet-emit env _ _)))
          (λ _. pure_triple _ _ _ _ (λ s h. h)))

  counted-Quiet : (b : Bool) (k : Metric) → Quiet (when b (note env (metric k)))
  counted-Quiet b k = Quiet-when _ _ (Quiet-note env _ (refl, λ _. refl))

  retry_within_triple :
      (e : Exc) (d : RetryDecision) (n : Option ℕ)
      → Triple Fresh (retry_within env c m task x no_overrides e d n) Verdict Bounded
  unfolding retry_within
  retry_within_triple e d none = throw_triple _ _ _ _ Fresh-IsStable.bounds
  retry_within_triple e d (some n) =
      after_quiet _ _ _ _ _ Fresh-IsStable Fresh-IsStable.bounds (counted-Quiet _ _) (λ _.
        bind_triple _ (λ _. Handed) _ _ _ _ (retry-Handed env c m _ _)
          (λ _.
            after_quiet _ _ _ _ _ Handed-IsStable Handed-IsStable.bounds
              (retry_status-Quiet env c _ _) (λ _. settle_then_false)))

  dead_letter_triple :
      (e : Exc) (d : RetryDecision)
      → Triple Fresh (dead_letter_failed env c m task x no_overrides e d) Verdict Bounded
  unfolding dead_letter_failed
  dead_letter_triple e d =
      after_quiet _ _ _ _ _ Fresh-IsStable Fresh-IsStable.bounds (counted-Quiet _ _) (λ _.
        bind_triple _ (λ _. Handed) _ _ _ _ (dead_letter-Handed env c m _)
          (λ _.
            after_quiet _ _ _ _ _ Handed-IsStable Handed-IsStable.bounds
              (dead_letter_status-Quiet env c _) (λ _. settle_then_false)))

  follow_triple :
      (e : Exc) (d : RetryDecision) (a : RetryDecisionAction)
      → Triple Fresh (follow env c m task x no_overrides e d a) Verdict Bounded
  unfolding follow retry_failed
  follow_triple e d RetryDecisionAction.reject = reject_triple' e
  follow_triple e d RetryDecisionAction.requeue = reject_triple' e
  follow_triple e d RetryDecisionAction.retry = retry_within_triple e d d.max_retries
  follow_triple e d RetryDecisionAction.dead_letter = dead_letter_triple e d

  failure_triple :
      (e : Exc) → Triple Fresh (handle_failure env c m task x no_overrides e) Verdict Bounded
  unfolding handle_failure
  failure_triple e =
      after_quiet _ _ _ _ _ Fresh-IsStable Fresh-IsStable.bounds (Quiet-emit env _ _)
        (λ _. follow_triple e _ _)

  close_triple :
      (r : Result Bool)
      → Triple (Holds Verdict Fresh r) (close_task env c m task x no_overrides r) Verdict Bounded
  unfolding close_task
  close_triple r =
      finally_triple _ _ _ _ Verdict-IsStable (handle_triple _ _ _ _ failure_triple r)
        (finish-Quiet env c r)

  attempt_and_close_triple :
      Triple Fresh (attempt_and_close env c m task x no_overrides) Verdict Bounded
  unfolding attempt_and_close
  attempt_and_close_triple = record {
    run = λ s p.
        let (r, t) = attempt_task env c s in
        (close_triple r).run t ((attempt_triple env c).run s p);
  }

  process_triple : Triple Fresh (process_task env c m task x no_overrides) Verdict Bounded
  unfolding process_task
  process_triple =
      after_quiet _ _ _ _ _ Fresh-IsStable Fresh-IsStable.bounds (counted-Quiet _ _) (λ _.
        after_quiet _ _ _ _ _ Fresh-IsStable Fresh-IsStable.bounds (start-Quiet env c)
          (λ _. attempt_and_close_triple))

  release-Quiet : Quiet (release env c m task x no_overrides)
  unfolding release
  release-Quiet =
      Quiet-bind _ _ (Quiet-absorb _ (Quiet-perform env _ (refl, λ _. refl)))
        (λ _. Quiet-perform env _ (refl, λ _. refl))

  under_lease_triple :
      (b : Bool) → Triple Fresh (under_lease env c m task x no_overrides b) Verdict Bounded
  unfolding under_lease lease_conflict
  under_lease_triple true = finally_triple _ _ _ _ Verdict-IsStable process_triple release-Quiet
  under_lease_triple false =
      after_quiet _ _ _ _ _ Fresh-IsStable Fresh-IsStable.bounds (Quiet-emit env _ _) (λ _.
        bind_triple _ (λ _. Done) _ _ _ _ (reject_triple env _)
          (λ _. pure_triple _ _ _ _ (λ s h. h)))

  -- A message of its own is handed over, or settled, or both are left to the broker.
  pub leased_triple :
      Triple Fresh (process_task_with_lease env c m task x no_overrides) Verdict Bounded
  unfolding process_task_with_lease
  leased_triple =
      if_triple _ _ _ _ _ _
        (after_quiet _ _ _ _ _ Fresh-IsStable Fresh-IsStable.bounds
          (Quiet-query env _ (refl, λ _. refl)) under_lease_triple)
        process_triple
