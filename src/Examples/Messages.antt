-- ===== src/Examples/Messages.antt =====
-- `TaskConsumer` on one message: a handler that fails, one that returns, a lost heartbeat.
use relayna.Consumer.Publish.{RetryInfrastructure}
use relayna.Consumer.Effects.{
  Env, Exc, Effect, Outcome, run_handler, returned, raised, Trace, await_heartbeat, ◌>>=◌,
  emit_observation, catch, handle_exc, perform, query, pure, continue, answer, finally, give_back,
  absorb_cancelled, note, manual_request, ok, Result, fail, release_lease, acquire_lease,
}
use relayna.Consumer.Handle.{handle_message, is_batch, is_batch_task_payload, make_task_context}
use relayna.Prelude.{◌≡◌, none, List, some, Option, ℕ, ◌∷◌, [], true, ◌≤◌, refl, false, ◌≢◌, Bool}
use relayna.Consumer.Context.{
  RetryPolicy, FailureAction, normalize_payload, TaskContext, retry_attempt_from_headers,
  retry_priority, retry_headers,
}
use relayna.Consumer.Publish.{
  TaskEnvelope, Runtime, Consumer, Message, publish_retry, publish_lifecycle_status,
  publish_retry_status,
}
use relayna.Json.{Json, ℤ, object, number, field, text, pos, end, to_dict, of_dict}
use relayna.Consumer.Process.{
  process_task_with_lease, process_task, handle_failure, follow, retry_failed, no_overrides,
  attempt_task,
}
use relayna.Consumer.Hoare.{settled, no_loss}
use relayna.Consumer.Delivery.{handle-settles_once, handle-no_loss}
use relayna.Policies.{decide_static_retry}
use relayna.Prelude.Dict.{get, has, pop, Dict, put}
use relayna.Contracts.Aliases.{
  normalize_contract_aliases, discard_aliases, adopt_aliases, alias_map,
}
use relayna.Consumer.Lease.{last_effect, heartbeat_failure, lease_released}
use relayna.Consumer.Headers.{retry_attempt-headers}

abbrev boom : Exc
boom = record { name = "ValueError"; message = " boom " }

abbrev failing : Trace → Effect → Outcome
failing t run_handler = raised boom
failing t e = returned

abbrev lost : Trace → Effect → Outcome
lost t await_heartbeat = raised boom
lost t e = returned

abbrev all_return : Env
all_return = record { outcome = λ t e. returned; request = λ t. none }

abbrev handler_fails : Env
handler_fails = record { outcome = failing; request = λ t. none }

abbrev heartbeat_fails : Env
heartbeat_fails = record { outcome = lost; request = λ t. none }

abbrev policy : RetryPolicy
policy = record {
  max_retries = 3;
  delay_ms = 30000;
  retry_queue_suffix = ".retry";
  dead_letter_queue_suffix = ".dlq";
  retry_priority_step = some 100;
}

abbrev task : TaskEnvelope
task = record { task_id = "t-1"; task_type = some "thumbnail"; correlation_id = none }

-- `int` of an `int`, and nothing else.
abbrev int_only : Json → Option ℤ
int_only (number n) = some n
int_only v = none

abbrev parse : List ℕ → Option Json
parse [] = none
parse (b ∷ bs) = some (object (field "task_id" (text "t-1") end))

abbrev runtime : Runtime
runtime = record {
  str = λ v. "";
  int = int_only;
  parse_transport_json = parse;
  validate_task = λ v. some task;
  validate_batch = λ v. none;
  task_bytes = λ t. 1 ∷ [];
}

abbrev consumer : Consumer
consumer = record {
  runtime = runtime;
  retry_policy = some policy;
  failure_action = FailureAction.reject;
  lifecycle_statuses = record {
    enabled = true;
    processing_status = "processing";
    completed_status = "completed";
    failed_status = "failed";
    include_error_message = true;
  };
  retry_statuses = record {
    enabled = true;
    retrying_status = "retrying";
    dead_lettered_status = "dead_lettered";
    include_error_message = true;
  };
  alias_config = none;
  policy_engine = λ x. decide_static_retry (λ s. s) x (some policy) FailureAction.reject;
  has_sink = true;
  has_metrics = false;
  has_dlq_store = true;
  lease_enabled = true;
  has_lease_store = true;
  can_sample = false;
  routed_topology = false;
  batch_publish_concurrency = 8;
}

abbrev message : List ℕ → ℕ → Message
message body attempt = record {
  body = body;
  metadata = record {
    headers = ("x-relayna-retry-attempt", number (pos attempt)) ∷ [];
    correlation_id = some "c-1";
    content_type = none;
    retry_attempt = attempt;
  };
  source_queue_name = "tasks.queue";
  retry_infrastructure = some (record {
    retry_queue_name = "tasks.queue.retry";
    dead_letter_queue_name = "tasks.queue.dlq";
  });
}

abbrev effects : Trace → List Effect
effects [] = []
effects (e ∷ t) = e.effect ∷ effects t

abbrev failed_run : Trace
failed_run = (handle_message handler_fails consumer (message (1 ∷ []) 1) []).1

module _ where
  handled : (handle_message handler_fails consumer (message (1 ∷ []) 1) []).0 ≡ ok tt
  unfolding handle_message ◌>>=◌ emit_observation catch handle_exc perform query pure continue
      answer finally give_back absorb_cancelled note manual_request is_batch is_batch_task_payload
      to_dict of_dict get has normalize_payload normalize_contract_aliases discard_aliases
      adopt_aliases alias_map process_task_with_lease process_task handle_failure
      decide_static_retry follow retry_failed make_task_context publish_retry
      publish_lifecycle_status publish_retry_status pop put attempt_task
  handled = refl

handle-settles_once_example : settled failed_run ≡ 1
handle-settles_once_example =
    handle-settles_once handler_fails consumer (message (1 ∷ []) 1) handled

handle-no_loss_example :
    (settled (handle_message handler_fails consumer (message (1 ∷ []) 3) []).1 ≤ 1)
    × (no_loss (handle_message handler_fails consumer (message (1 ∷ []) 3) []).1 ≡ true)
handle-no_loss_example = handle-no_loss handler_fails consumer (message (1 ∷ []) 3)

abbrev delivered : Message
delivered = message (1 ∷ []) 1

abbrev context : TaskContext
context = make_task_context consumer delivered task

-- The run of the task under its lease.
abbrev leased_run : Env → Result Bool × Trace
leased_run env =
    process_task env consumer delivered task context no_overrides
      (record { effect = acquire_lease; outcome = returned } ∷ [])

heartbeat_failure_example :
    process_task_with_lease heartbeat_fails consumer delivered task context no_overrides [] ≡ (
      fail boom,
      record { effect = await_heartbeat; outcome = raised boom } ∷ (leased_run heartbeat_fails).1,
    )
heartbeat_failure_example =
    heartbeat_failure heartbeat_fails consumer delivered task context [] boom refl refl refl refl

never_raised : (e : Exc) → returned ≢ raised e
never_raised e h = cc

lease_released_example :
    last_effect
      (process_task_with_lease all_return consumer delivered task context no_overrides []).1
    ≡ some release_lease
lease_released_example =
    lease_released all_return consumer delivered task context [] refl refl refl never_raised

abbrev extra : Dict Json
extra = ("batch_id", text "b-1") ∷ []

retry_attempt-headers_example :
    retry_attempt_from_headers int_only (
      retry_headers delivered.metadata.headers "tasks.queue" 2 3 "handler_error"
        (some "ValueError")
        extra)
    ≡ 2
retry_attempt-headers_example =
    retry_attempt-headers int_only delivered.metadata.headers extra "tasks.queue" "handler_error" 2
      3 (some "ValueError") refl

module _ where
  high_priority : retry_priority (some policy) 3 ≡ some 255
  unfolding retry_priority
  high_priority = refl

abbrev infra : RetryInfrastructure
infra = record {
  retry_queue_name = "tasks.queue.retry";
  dead_letter_queue_name = "tasks.queue.dlq";
}
