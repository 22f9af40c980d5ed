-- ===== src/Consumer/Publish.antt =====
-- src/relayna/consumer/task_consumer.py and context.py: the consumer's configuration, and what it
-- publishes for a task that failed.
use relayna.Prelude.{ℕ, String, Bool, Option, none, some, List, [], ◌∷◌, ◌==◌, if◌then◌else◌}
use relayna.Prelude.Dict.{Dict}
use relayna.Json.{Json, ℤ}
use relayna.Contracts.Aliases.{ContractAliasConfig}
use relayna.Policies.{RetryDecisionContext, RetryDecision}
use relayna.Consumer.Effects.{
  plain, scheduling_retry, Exc, Env, M, Publication, throw, catch, skip, when, ◌>>◌, perform,
  publish_raw, add_dlq_record, publish_status, emit_observation, retry_scheduled,
  dead_letter_published, dlq_record_persist_failed, lifecycle_status_published,
}
use relayna.Consumer.Context.{
  FailureAction, LifecycleStatusConfig, RetryPolicy, RetryStatusConfig, MessageMetadata,
  retry_headers, retry_priority, failure_message,
}

pub record TaskEnvelope : Type 0 where
  pub task_id : String
  pub task_type : Option String
  pub correlation_id : Option String

pub record BatchTaskEnvelope : Type 0 where
  pub batch_id : String
  pub tasks : List TaskEnvelope

-- Functions of the interpreter, pydantic and the JSON codec. `none` is an exception.
pub record Runtime : Type 0 where
  pub str : Json → String
  pub int : Json → Option ℤ
  pub parse_transport_json : List ℕ → Option Json
  pub validate_task : Json → Option TaskEnvelope
  pub validate_batch : Json → Option BatchTaskEnvelope
  pub task_bytes : TaskEnvelope → List ℕ

-- The fields of `TaskConsumer`; of an optional collaborator, whether it is there.
pub record Consumer : Type 0 where
  pub runtime : Runtime
  pub retry_policy : Option RetryPolicy
  pub failure_action : FailureAction
  pub lifecycle_statuses : LifecycleStatusConfig
  pub retry_statuses : RetryStatusConfig
  pub alias_config : Option ContractAliasConfig
  pub policy_engine : RetryDecisionContext → RetryDecision
  pub has_sink : Bool
  pub has_metrics : Bool
  pub has_dlq_store : Bool
  pub lease_enabled : Bool
  pub has_lease_store : Bool
  pub can_sample : Bool
  pub routed_topology : Bool
  pub batch_publish_concurrency : ℕ

pub record RetryInfrastructure : Type 0 where
  pub retry_queue_name : String
  pub dead_letter_queue_name : String

pub record Message : Type 0 where
  pub body : List ℕ
  pub metadata : MessageMetadata
  pub source_queue_name : String
  pub retry_infrastructure : Option RetryInfrastructure

abbrev not_initialized : Exc
not_initialized = record {
  name = "RuntimeError";
  message = "Retry infrastructure is not initialized";
}

-- `correlation_id or metadata.correlation_id`
abbrev pub or_else : Option String → Option String → Option String
or_else none other = other
or_else (some s) other = if s == "" then other else some s

-- `body or message.body`; an empty body counts as none.
abbrev body_or : Option (List ℕ) → List ℕ → List ℕ
body_or none other = other
body_or (some []) other = other
body_or (some (b ∷ bs)) other = b ∷ bs

-- What the caller passes on about the failure.
pub record Failure : Type 0 where
  pub task_id : Option String
  pub retry_attempt : ℕ
  pub reason : String
  pub exception_type : Option String
  pub body : Option (List ℕ)
  pub correlation_id : Option String
  pub extra_headers : Dict Json

module _ (env : Env) (c : Consumer) (m : Message) where
  unfoldable pub retry_publication : RetryInfrastructure → Failure → ℕ → Publication
  retry_publication infra f max_retries = record {
    queue = infra.retry_queue_name;
    body = body_or f.body m.body;
    correlation_id = or_else f.correlation_id m.metadata.correlation_id;
    headers =
        retry_headers m.metadata.headers m.source_queue_name f.retry_attempt max_retries f.reason
          f.exception_type f.extra_headers;
    priority = retry_priority c.retry_policy f.retry_attempt;
    content_type = m.metadata.content_type;
  }

  dead_letter_publication : RetryInfrastructure → Failure → ℕ → Publication
  dead_letter_publication infra f max_retries = record {
    queue = infra.dead_letter_queue_name;
    body = body_or f.body m.body;
    correlation_id = or_else f.correlation_id m.metadata.correlation_id;
    headers =
        retry_headers m.metadata.headers m.source_queue_name f.retry_attempt max_retries f.reason
          f.exception_type f.extra_headers;
    priority = none;
    content_type = m.metadata.content_type;
  }

  unfoldable pub retry_through : Option RetryInfrastructure → Failure → ℕ → M (Unit {0})
  unfolding retry_publication
  retry_through none f max_retries = throw not_initialized
  retry_through (some infra) f max_retries =
      perform env (publish_raw (retry_publication infra f max_retries))
      >> emit_observation env c.has_sink
          (retry_scheduled f.task_id infra.retry_queue_name f.retry_attempt max_retries f.reason)

  -- `_publish_retry`
  unfoldable pub publish_retry : Failure → ℕ → M (Unit {0})
  unfolding retry_through
  publish_retry = retry_through m.retry_infrastructure

  -- `_persist_dlq_record`: an `Exception` of the store is observed and dropped.
  unfoldable pub persist_dlq_record : Failure → M (Unit {0})
  persist_dlq_record f = when c.has_dlq_store (
      catch (perform env add_dlq_record)
        (λ exc. emit_observation env c.has_sink (dlq_record_persist_failed f.task_id exc)))

  unfoldable pub dead_letter_through :
      Option RetryInfrastructure → Option RetryPolicy → Failure → M (Unit {0})
  unfolding dead_letter_publication persist_dlq_record
  dead_letter_through (some infra) (some policy) f =
      perform env (publish_raw (dead_letter_publication infra f policy.max_retries))
      >> (emit_observation env c.has_sink (
            dead_letter_published f.task_id infra.dead_letter_queue_name f.retry_attempt
              policy.max_retries f.reason)
          >> persist_dlq_record f)
  dead_letter_through _ _ f = throw not_initialized

  -- `_publish_dead_letter`
  unfoldable pub publish_dead_letter : Failure → M (Unit {0})
  unfolding dead_letter_through
  publish_dead_letter = dead_letter_through m.retry_infrastructure c.retry_policy

-- Statuses are best effort: an `Exception` is dropped.
module _ (env : Env) (c : Consumer) where
  -- `_publish_lifecycle_status`
  unfoldable pub publish_lifecycle_status : String → String → M (Unit {0})
  publish_lifecycle_status status message = when c.lifecycle_statuses.enabled (
      catch
        (perform env (publish_status status (plain message))
          >> emit_observation env c.has_sink (lifecycle_status_published status))
        (λ _. skip))

  -- `_publish_retry_status`
  unfoldable pub publish_retry_status : ℕ → ℕ → M (Unit {0})
  publish_retry_status next_attempt max_retries = when c.retry_statuses.enabled (
      catch
        (perform env (
          publish_status c.retry_statuses.retrying_status
            (scheduling_retry next_attempt max_retries)))
        (λ _. skip))

  -- `_publish_dead_letter_status`
  unfoldable pub publish_dead_letter_status : Exc → M (Unit {0})
  unfolding publish_lifecycle_status
  publish_dead_letter_status exc =
      if c.retry_statuses.enabled
      then catch
          (perform env (
            publish_status c.retry_statuses.dead_lettered_status
              (plain (failure_message exc c.retry_statuses.include_error_message))))
          (λ _. skip)
      else (when c.lifecycle_statuses.enabled (
          publish_lifecycle_status c.lifecycle_statuses.failed_status
            (failure_message exc c.lifecycle_statuses.include_error_message)))
