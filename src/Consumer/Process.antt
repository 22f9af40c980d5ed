-- ===== src/Consumer/Process.antt =====
-- src/relayna/consumer/task_consumer.py: `_process_task` and `_process_task_with_lease`.
use relayna.Prelude.{
  ℕ, String, Bool, true, false, ◌&&◌, ◌||◌, not, Option, none, some, List, [], if◌then◌else◌,
}
use relayna.Prelude.Dict.{Dict}
use relayna.Json.{Json}
use relayna.Policies.{
  RetryDecisionAction, RetryDecisionContext, RetryDecision, retry, dead_letter, requeue, value,
  limit_of,
}
use relayna.Consumer.Effects.{
  Result, handle_exc, finally, Exc, Env, M, Effect, ManualRetryRequest, pure, throw, catch, finally,
  skip, when, ◌>>=◌, ◌>>◌, query, perform, note, manual_request, ack, run_handler, acquire_lease,
  await_heartbeat, release_lease, publish_task, publish_status, metric, task_started, task_retry,
  task_dlq, resource_event, emit_observation, message_rejected, handler_failed, resource_sampled,
  plain, task_finished, absorb_cancelled,
}
use relayna.Consumer.Context.{
  FailureAction, RetryPolicy, TaskContext, failure_message, merge_batch_retry_headers,
}
use relayna.Consumer.Publish.{
  TaskEnvelope, Consumer, Message, Failure, publish_retry, publish_dead_letter,
  publish_lifecycle_status, publish_retry_status, publish_dead_letter_status,
}

-- What the caller of `_process_task` overrides; a message of its own overrides nothing.
pub record Overrides : Type 0 where
  pub ack_message : Bool
  pub retry_body : Option (List ℕ)
  pub retry_correlation_id : Option String
  pub retry_headers : Dict Json

abbrev pub no_overrides : Overrides
no_overrides = record {
  ack_message = true;
  retry_body = none;
  retry_correlation_id = none;
  retry_headers = [];
}

abbrev pub is_requeue : FailureAction → Bool
is_requeue FailureAction.requeue = true
is_requeue FailureAction.reject = false

abbrev has_policy : Option RetryPolicy → Bool
has_policy none = false
has_policy (some _) = true

abbrev missing_max_retries : Exc
missing_max_retries = record {
  name = "RuntimeError";
  message = "Retry decision is missing max_retries";
}

module _ (env : Env) (c : Consumer) where
  -- `_emit_task_resource_sample`; `can_sample` is whether `sample_task_resources` finds anything.
  unfoldable pub emit_task_resource_sample : String → M (Unit {0})
  emit_task_resource_sample kind = when ((c.has_sink || c.has_metrics) && c.can_sample) (
      emit_observation env c.has_sink (resource_sampled kind)
      >> when c.has_metrics (note env (metric resource_event)))

  -- `_publish_manual_retry_request`: the status is best effort, the task's publication is not.
  unfoldable pub publish_manual_retry_request : ManualRetryRequest → M (Unit {0})
  publish_manual_retry_request request =
      catch (perform env (publish_status "manual_retrying" (plain request.status_message)))
        (λ _. skip)
      >> perform env (publish_task request.task request.headers)

  -- After the handler: a manual retry is handed over, else the completed status is published.
  unfoldable pub conclude : Option ManualRetryRequest → M Bool
  unfolding publish_manual_retry_request
  conclude (some request) = publish_manual_retry_request request >>= λ _. pure true
  conclude none =
      publish_lifecycle_status env c c.lifecycle_statuses.completed_status
        "Task processing completed."
      >>= λ _. pure true

  -- The first part of the `try`. It raises no `Exception`, so the `except` block sees none of it,
  -- and where it is cancelled the flag `resource_sampling_started` is not set.
  unfoldable pub start_task : M (Unit {0})
  unfolding emit_task_resource_sample
  start_task =
      publish_lifecycle_status env c c.lifecycle_statuses.processing_status
        "Task processing started."
      >> when (c.has_sink || c.has_metrics) (emit_task_resource_sample "start")

  -- The rest of the `try`.
  unfoldable pub attempt_task : M Bool
  unfolding conclude
  attempt_task = perform env run_handler >> (manual_request env >>= conclude)

  -- `record_task_finished`, with `outcome == "completed"`; a cancelled run has no outcome.
  unfoldable pub record_finished : Result Bool → M (Unit {0})
  record_finished (Result.ok _) = note env (metric (task_finished true))
  record_finished (Result.fail _) = note env (metric (task_finished false))
  record_finished Result.cancel = skip

  -- The `finally` block, after the result of the `try`.
  unfoldable pub finish_task : Result Bool → M (Unit {0})
  unfolding emit_task_resource_sample record_finished
  finish_task r =
      when (c.has_sink || c.has_metrics) (emit_task_resource_sample "end")
      >> when c.has_metrics (record_finished r)

module _ (env : Env) (c : Consumer) (m : Message) (task : TaskEnvelope) (x : TaskContext) where
  unfoldable pub decision_context : Exc → RetryDecisionContext
  decision_context exc = record {
    worker_type = "task";
    queue_name = m.source_queue_name;
    retry_attempt = x.retry_attempt;
    reason = "handler_error";
    exception_type = some exc.name;
    task_id = some task.task_id;
    task_type = task.task_type;
    max_retries = limit_of c.retry_policy;
    failure_action = value c.failure_action;
  }

  module _ (o : Overrides) where
    unfoldable pub failure : Exc → RetryDecision → Failure
    failure exc d = record {
      task_id = some task.task_id;
      retry_attempt = d.retry_attempt;
      reason = d.reason;
      exception_type = some exc.name;
      body = o.retry_body;
      correlation_id = o.retry_correlation_id;
      extra_headers = merge_batch_retry_headers x o.retry_headers;
    }

    -- `decision.action in {REJECT, REQUEUE}`: the consumer's own action says whether to requeue.
    unfoldable pub reject_failed : Exc → M Bool
    reject_failed exc =
        let requeue = is_requeue c.failure_action in
        publish_lifecycle_status env c c.lifecycle_statuses.failed_status
          (failure_message exc c.lifecycle_statuses.include_error_message)
        >> (when o.ack_message (
              perform env (Effect.reject requeue)
              >> emit_observation env c.has_sink
                  (message_rejected (some task.task_id) requeue "handler_error"))
            >>= λ _. pure false)

    unfoldable pub retry_within : Exc → RetryDecision → Option ℕ → M Bool
    unfolding failure
    retry_within exc d none = throw missing_max_retries
    retry_within exc d (some max_retries) =
        when c.has_metrics (note env (metric task_retry))
        >> (publish_retry env c m (failure exc d) max_retries
            >> (publish_retry_status env c d.retry_attempt max_retries
                >> (when o.ack_message (perform env ack) >>= λ _. pure false)))

    -- `decision.action is RETRY`
    unfoldable pub retry_failed : Exc → RetryDecision → M Bool
    unfolding retry_within
    retry_failed exc d = retry_within exc d d.max_retries

    -- `decision.action is DEAD_LETTER`
    unfoldable pub dead_letter_failed : Exc → RetryDecision → M Bool
    unfolding failure
    dead_letter_failed exc d =
        when c.has_metrics (note env (metric task_dlq))
        >> (publish_dead_letter env c m (failure exc d)
            >> (publish_dead_letter_status env c exc
                >> (when o.ack_message (perform env ack) >>= λ _. pure false)))

    unfoldable pub follow : Exc → RetryDecision → RetryDecisionAction → M Bool
    follow exc d RetryDecisionAction.reject = reject_failed exc
    follow exc d requeue = reject_failed exc
    follow exc d retry = retry_failed exc d
    follow exc d dead_letter = dead_letter_failed exc d

    -- The `except Exception` block.
    unfoldable pub handle_failure : Exc → M Bool
    unfolding decision_context
    handle_failure exc =
        emit_observation env c.has_sink (
          handler_failed task.task_id exc
            (not (has_policy c.retry_policy) && is_requeue c.failure_action))
        >> (let d = c.policy_engine (decision_context exc) in follow exc d d.action)

    -- The `except` and `finally` blocks, after the result of the `try`.
    unfoldable pub close_task : Result Bool → M Bool
    unfolding finish_task
    close_task r = finally (handle_exc handle_failure r) (finish_task env c r)

    unfoldable pub attempt_and_close : M Bool
    unfolding close_task
    attempt_and_close s = let (r, t) = attempt_task env c s in close_task r t

    unfoldable pub process_task : M Bool
    unfolding start_task attempt_and_close
    process_task =
        when c.has_metrics (note env (metric task_started))
        >> (start_task env c >> attempt_and_close)

    unfoldable pub lease_conflict : M Bool
    lease_conflict =
        emit_observation env c.has_sink (message_rejected (some task.task_id) true "lease_conflict")
        >> (when o.ack_message (perform env (Effect.reject true)) >>= λ _. pure false)

    -- The `finally` of the leased run. `await_heartbeat` stands for `await heartbeat_task`: it
    -- raises what a heartbeat raised before it was cancelled, and then nothing is released.
    unfoldable pub release : M (Unit {0})
    release = absorb_cancelled (perform env await_heartbeat) >> perform env release_lease

    unfoldable pub under_lease : Bool → M Bool
    unfolding lease_conflict release
    under_lease false = lease_conflict
    under_lease true = finally process_task release

    unfoldable pub process_task_with_lease : M Bool
    unfolding under_lease
    process_task_with_lease =
        if c.lease_enabled && c.has_lease_store
        then (query env acquire_lease >>= under_lease)
        else process_task
