-- ===== src/Policies/Static.antt =====
-- The static policy: what it decides, and how long a message is retried.
use relayna.Policies.{
  RetryDecisionContext, String, decide_static_retry, RetryPolicy, FailureAction, some, retry, none,
  dead_letter, requeue, reject,
}
use relayna.Prelude.{◌≡◌, ◌<◌, arith, ◌+◌, if◌then◌else◌, ◌≤◌, ◌⊎◌}
use relayna.Consumer.Process.{is_requeue}

module _ (lower : String → String) where
  -- With a limit the static policy retries exactly below it, one attempt further and never past it;
  -- at the limit the attempt is kept and the message is dead-lettered. Nothing else is decided.
  pub decide_static_bounds :
      (c : RetryDecisionContext) (p : RetryPolicy) (a : FailureAction)
      → let d = decide_static_retry lower c (some p) a in
        (d.max_retries ≡ some p.max_retries)
        × (((d.action ≡ retry)
              × (c.retry_attempt < p.max_retries)
              × (d.retry_attempt ≡ c.retry_attempt + 1)
              × (d.retry_attempt ≤ p.max_retries))
            ⊎ ((d.action ≡ dead_letter)
                × (p.max_retries ≤ c.retry_attempt)
                × (d.retry_attempt ≡ c.retry_attempt)))
  unfolding decide_static_retry
  decide_static_bounds c p a = ground arith

  -- Without a retry policy the message is neither retried nor dead-lettered: it is requeued exactly
  -- when the consumer's failure action says so, provided that `lower` keeps the two lower-case words.
  pub decide_static_no_policy :
      (c : RetryDecisionContext) (a : FailureAction)
      → lower "requeue" ≡ "requeue"
      → lower "reject" ≡ "reject"
      → (decide_static_retry lower c none a).action ≡ (if is_requeue a then requeue else reject)
  unfolding decide_static_retry
  decide_static_no_policy c FailureAction.requeue q r = simp q
  decide_static_no_policy c FailureAction.reject q r = simp r
