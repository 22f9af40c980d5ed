-- ===== src/Examples/Decisions.antt =====
-- The static policy and the aliases, at concrete inputs.
use relayna.Prelude.{◌≡◌, String, ℕ, some, none, Option, ◌<◌, ◌≤◌, ◌⊎◌}
use relayna.Consumer.Context.{RetryPolicy, FailureAction}
use relayna.Policies.Static.{decide_static_bounds}
use relayna.Policies.{RetryDecisionContext, retry, RetryDecision, decide_static_retry, dead_letter}

abbrev lower : String → String
lower s = s

abbrev policy : RetryPolicy
policy = record {
  max_retries = 2;
  delay_ms = 30000;
  retry_queue_suffix = ".retry";
  dead_letter_queue_suffix = ".dlq";
  retry_priority_step = none;
}

abbrev context : ℕ → RetryDecisionContext
context n = record {
  worker_type = "task";
  queue_name = "tasks.queue";
  retry_attempt = n;
  reason = "handler_error";
  exception_type = some "ValueError";
  task_id = some "t-1";
  task_type = none;
  max_retries = none;
  failure_action = "reject";
}

abbrev decided : ℕ → Option RetryPolicy → RetryDecision
decided n p = decide_static_retry lower (context n) p FailureAction.requeue

decide_static_bounds_example :
    ((decided 2 (some policy)).max_retries ≡ some 2)
    × ((((decided 2 (some policy)).action ≡ retry)
          × (2 < 2)
          × ((decided 2 (some policy)).retry_attempt ≡ 3)
          × ((decided 2 (some policy)).retry_attempt ≤ 2))
        ⊎ (((decided 2 (some policy)).action ≡ dead_letter)
            × (2 ≤ 2)
            × ((decided 2 (some policy)).retry_attempt ≡ 2)))
decide_static_bounds_example = decide_static_bounds lower (context 2) policy FailureAction.requeue
