-- ===== src/Policies.antt =====
-- src/relayna/policies/retry.py and src/relayna/consumer/_retry_decision.py: what becomes of a
-- message whose handler failed.
pub mod Static
use relayna.Prelude.{ℕ, ◌+◌, String, Option, none, some, ltb, ◌==◌, if◌then◌else◌}
use relayna.Consumer.Context.{FailureAction, RetryPolicy}

pub data RetryDecisionAction : Type 0 where
  retry dead_letter reject requeue : RetryDecisionAction

-- The fields of the context that a policy of the source reads.
pub record RetryDecisionContext : Type 0 where
  pub worker_type : String
  pub queue_name : String
  pub retry_attempt : ℕ
  pub reason : String
  pub exception_type : Option String
  pub task_id : Option String
  pub task_type : Option String
  pub max_retries : Option ℕ
  pub failure_action : String

pub record RetryDecision : Type 0 where
  pub action : RetryDecisionAction
  pub retry_attempt : ℕ
  pub max_retries : Option ℕ
  pub reason : String
  pub policy_name : String

-- `str.lower` of the interpreter.
module _ (lower : String → String) where
  decide_without_policy : RetryDecisionContext → RetryDecision
  decide_without_policy c = record {
    action = if lower c.failure_action == "requeue" then requeue else reject;
    retry_attempt = c.retry_attempt;
    max_retries = none;
    reason = c.reason;
    policy_name = "no_retry_policy";
  }

  decide_with_limit : String → RetryDecisionContext → ℕ → RetryDecision
  decide_with_limit name c limit =
      if ltb c.retry_attempt limit
      then record {
        action = retry;
        retry_attempt = c.retry_attempt + 1;
        max_retries = some limit;
        reason = c.reason;
        policy_name = name;
      }
      else record {
        action = dead_letter;
        retry_attempt = c.retry_attempt;
        max_retries = some limit;
        reason = c.reason;
        policy_name = name;
      }

  -- `StaticRetryDecisionPolicy.decide_retry`
  unfoldable pub decide_retry : String → RetryDecisionContext → RetryDecision
  unfolding decide_without_policy decide_with_limit
  decide_retry name c = elim c.max_retries [
    | none ↦ decide_without_policy c
    | some limit ↦ decide_with_limit name c limit
  ]

abbrev pub value : FailureAction → String
value FailureAction.reject = "reject"
value FailureAction.requeue = "requeue"

abbrev pub limit_of : Option RetryPolicy → Option ℕ
limit_of none = none
limit_of (some policy) = some policy.max_retries

module _ (lower : String → String) where
  -- `consumer/_retry_decision.py`: the limit and the action are the consumer's.
  unfoldable pub decide_static_retry :
      RetryDecisionContext → Option RetryPolicy → FailureAction → RetryDecision
  unfolding decide_retry
  decide_static_retry c policy action =
      decide_retry lower "static_retry_policy"
        (record c { max_retries = limit_of policy; failure_action = value action })
