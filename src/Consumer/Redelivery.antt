-- ===== src/Consumer/Redelivery.antt =====
-- The deliveries of a message whose handler always fails (consumer/task_consumer.py,
-- consumer/context.py, policies/retry.py): the attempt that a retry writes is read again.
use relayna.Consumer.Effects.{Env, Exc, Publication}
use relayna.Consumer.Context.{RetryPolicy, retry_attempt_from_headers}
use relayna.Consumer.Publish.{
  Consumer, Message, TaskEnvelope, RetryInfrastructure, retry_publication,
}
use relayna.Consumer.Process.{decision_context, failure, no_overrides}
use relayna.Consumer.Handle.{make_task_context}
use relayna.Policies.{
  RetryDecision, RetryDecisionAction, RetryDecisionContext, retry, dead_letter, decide_static_retry,
}
use relayna.Json.{number, pos}
use mathlib.Core.Option.{none, some}
use relayna.Prelude.{ℕ, String, List, [], ◌∷◌, ◌≡◌, suc, zero}

-- What the actions on a message are, each a retry but the last.
unfoldable pub retries : ℕ → List RetryDecisionAction
retries zero = dead_letter ∷ []
retries (suc n) = retry ∷ retries n

-- What follows a decision: nothing but after a retry.
unfoldable pub follow_decision :
    (RetryDecision → ℕ → List RetryDecisionAction) → RetryDecision → List RetryDecisionAction
follow_decision next d = elim d.action [
  | retry ↦ (elim d.max_retries [ none ↦ retry ∷ [] | some limit ↦ retry ∷ next d limit ])
  | other ↦ other ∷ []
]

module _ (env : Env) (c : Consumer) (task : TaskEnvelope) (infra : RetryInfrastructure)
    (exc : Exc) where
  -- The delivery of a publication to the retry queue, which RabbitMQ hands back to the queue it came
  -- from when its delay is over.
  unfoldable pub redelivered : Message → Publication → Message
  redelivered m p = record m {
    body = p.body;
    metadata = record {
      headers = p.headers;
      correlation_id = p.correlation_id;
      content_type = p.content_type;
      retry_attempt = retry_attempt_from_headers c.runtime.int p.headers;
    };
  }

  unfoldable pub decision : Message → RetryDecision
  unfolding decision_context make_task_context
  decision m = c.policy_engine (decision_context env c m task (make_task_context c m task) exc)

  unfoldable pub retried : Message → RetryDecision → ℕ → Message
  unfolding redelivered retry_publication failure make_task_context
  retried m d max_retries = redelivered m (
      retry_publication env c m infra
        (failure env c m task (make_task_context c m task) no_overrides exc d) max_retries)

  -- The actions on a message whose handler raises `exc` at every delivery. Without a limit a retry
  -- raises, and there is no further delivery.
  unfoldable pub redeliver : ℕ → Message → List RetryDecisionAction
  unfolding decision retried follow_decision
  redeliver zero m = []
  redeliver (suc fuel) m =
      follow_decision (λ d max_retries. redeliver fuel (retried m d max_retries)) (decision m)

module _ (env : Env) (c : Consumer) (task : TaskEnvelope) (infra : RetryInfrastructure) (exc : Exc)
    (lower : String → String) (p : RetryPolicy)
    (int : (n : ℕ) → c.runtime.int (number (pos n)) ≡ some (pos n))
    (engine : (x : RetryDecisionContext)
      → c.policy_engine x ≡ decide_static_retry lower x (some p) c.failure_action) where
  abbrev static_decision : Message → RetryDecision
  static_decision m =
      decide_static_retry lower (decision_context env c m task (make_task_context c m task) exc)
        (some p) c.failure_action

  abbrev next_delivery : ℕ → Message → RetryDecision → ℕ → List RetryDecisionAction
  next_delivery fuel m d limit =
      redeliver env c task infra exc fuel (retried env c task infra exc m d limit)
