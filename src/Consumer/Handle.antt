-- ===== src/Consumer/Handle.antt =====
-- src/relayna/consumer/task_consumer.py: `_handle_message_impl` and `_handle_batch_message`.
use relayna.Prelude.{
  ℕ, ◌+◌, String, Bool, true, false, ◌&&◌, ◌||◌, Option, none, some, List, [], ◌∷◌, length, ltb,
  ◌==◌, if◌then◌else◌,
}
use relayna.Prelude.Dict.{Dict, get}
use relayna.Prelude.Text.{strip, contains}
use relayna.Json.{Json, pos, number, text, array, object, Items, Fields, to_dict}
use relayna.Consumer.Effects.{
  Env, M, Effect, Publication, skip, ◌>>=◌, ◌>>◌, perform, ack, map_bounded, emit_observation,
  message_received, message_acked, message_rejected,
}
use relayna.Consumer.Context.{
  RetryPolicy, TaskContext, coerce_task_id, header_string, header_int, manual_retry_count,
  normalize_payload,
}
use relayna.Policies.{limit_of}
use relayna.Consumer.Publish.{
  TaskEnvelope, BatchTaskEnvelope, Consumer, Message, Failure, publish_dead_letter, or_else,
}
use relayna.Consumer.Process.{no_overrides, process_task_with_lease}

-- contracts/compatibility.py: `is_batch_task_payload`
is_text : Option Json → Bool
is_text (some (text _)) = true
is_text _ = false

is_array : Option Json → Bool
is_array (some (array _)) = true
is_array _ = false

unfoldable pub is_batch_task_payload : Dict Json → Bool
unfolding is_text is_array
is_batch_task_payload d = is_text (get "batch_id" d) && is_array (get "tasks" d)

unfoldable pub is_batch : Json → Bool
is_batch (object fs) = is_batch_task_payload (to_dict fs)
is_batch _ = false

module _ (c : Consumer) (m : Message) where
  -- `_make_task_context` for a message that is no part of a batch envelope.
  unfoldable pub make_task_context : TaskEnvelope → TaskContext
  make_task_context task = record {
    task_id = task.task_id;
    correlation_id = or_else task.correlation_id m.metadata.correlation_id;
    retry_attempt = m.metadata.retry_attempt;
    max_retries = limit_of c.retry_policy;
    source_queue_name = m.source_queue_name;
    batch_id = header_string m.metadata.headers "batch_id";
    batch_index = header_int c.runtime.int m.metadata.headers "batch_index";
    batch_size = header_int c.runtime.int m.metadata.headers "batch_size";
    headers = m.metadata.headers;
    manual_retry_count = manual_retry_count c.runtime.int m.metadata.headers;
  }

  invalid : Option String → String → Option String → Failure
  invalid task_id reason exception_type = record {
    task_id = task_id;
    retry_attempt = m.metadata.retry_attempt;
    reason = reason;
    exception_type = exception_type;
    body = none;
    correlation_id = none;
    extra_headers = [];
  }

  -- `publish_task` of a batch: what is published for the task at `index`.
  member_publication : BatchTaskEnvelope → ℕ → TaskEnvelope → Publication
  member_publication batch index task = record {
    queue = m.source_queue_name;
    body = c.runtime.task_bytes task;
    correlation_id = or_else task.correlation_id (some task.task_id);
    headers =
        ("task_id", text task.task_id)
        ∷ ("batch_id", text batch.batch_id)
        ∷ ("batch_index", number (pos index))
        ∷ ("batch_size", number (pos (length batch.tasks)))
        ∷ [];
    priority = none;
    content_type = m.metadata.content_type;
  }

  unfoldable pub member_publications : BatchTaskEnvelope → ℕ → List TaskEnvelope → List Publication
  unfolding member_publication
  member_publications batch index [] = []
  member_publications batch index (task ∷ tasks) =
      member_publication batch index task ∷ member_publications batch (index + 1) tasks

-- `{str(task.task_type).strip() for task in tasks if ...}`; `str(None)` is "None".
abbrev type_text : Option String → String
type_text none = "None"
type_text (some t) = strip t

unfoldable pub task_types : List TaskEnvelope → List String → List String
task_types [] seen = seen
task_types (task ∷ tasks) seen =
    let t = type_text task.task_type in
    task_types tasks (if t == "" || contains t seen then seen else t ∷ seen)

-- `normalized["tasks"] = [_normalize_payload(task) for task in tasks]`
abbrev normalize_items : (Json → Json) → Items → Items
normalize_items f Items.nil = Items.nil
normalize_items f (Items.cons v vs) = Items.cons (f v) (normalize_items f vs)

normalize_tasks : (Json → Json) → Fields → Fields
normalize_tasks f Fields.end = Fields.end
normalize_tasks f (Fields.field k (array vs) fs) =
    Fields.field k (if k == "tasks" then array (normalize_items f vs) else array vs)
      (normalize_tasks f fs)
normalize_tasks f (Fields.field k v fs) = Fields.field k v (normalize_tasks f fs)

abbrev on_object : (Fields → Fields) → Json → Json
on_object f (object fs) = object (f fs)
on_object f v = v

module _ (c : Consumer) where
  -- `_normalize_batch_payload`
  unfoldable pub normalize_batch_payload : Json → Json
  unfolding normalize_tasks
  normalize_batch_payload v =
      let f = normalize_payload c.runtime.str c.alias_config in on_object (normalize_tasks f) (f v)

module _ (env : Env) (c : Consumer) (m : Message) where
  -- A dead letter for a message that was not processed, and its acknowledgement.
  unfoldable pub dead_letter_and_ack : Failure → M (Unit {0})
  dead_letter_and_ack f = publish_dead_letter env c m f >> perform env ack

  -- Without a retry policy the message is rejected for good.
  unfoldable pub reject_message : Option String → String → M (Unit {0})
  reject_message task_id reason =
      perform env (Effect.reject false)
      >> emit_observation env c.has_sink (message_rejected task_id false reason)

  unfoldable pub refuse_message :
      Option String → String → Option String → Option RetryPolicy → M (Unit {0})
  unfolding invalid
  refuse_message task_id reason exception_type none = reject_message task_id reason
  refuse_message task_id reason exception_type (some _) =
      dead_letter_and_ack (invalid c m task_id reason exception_type)

  unfoldable pub publish_batch : BatchTaskEnvelope → M (Unit {0})
  unfolding invalid
  publish_batch batch =
      if c.routed_topology && ltb 1 (length (task_types batch.tasks []))
      then dead_letter_and_ack (invalid c m none "mixed_task_type_batch" (some "ValueError"))
      else (perform env
            (map_bounded c.batch_publish_concurrency (member_publications c m batch 0 batch.tasks))
          >> (perform env ack >> emit_observation env c.has_sink (message_acked none)))

  unfoldable pub handle_batch : Option BatchTaskEnvelope → M (Unit {0})
  unfolding publish_batch invalid
  handle_batch none =
      dead_letter_and_ack (invalid c m none "invalid_envelope" (some "ValidationError"))
  handle_batch (some batch) = publish_batch batch

  -- `_handle_batch_message`
  unfoldable pub handle_batch_message : Json → M (Unit {0})
  unfolding handle_batch
  handle_batch_message payload =
      handle_batch (c.runtime.validate_batch (normalize_batch_payload c payload))

  -- `if success:`
  unfoldable pub acknowledge : TaskEnvelope → Bool → M (Unit {0})
  acknowledge task false = skip
  acknowledge task true =
      perform env ack >> emit_observation env c.has_sink (message_acked (some task.task_id))

  unfoldable pub handle_task : Json → Option TaskEnvelope → M (Unit {0})
  unfolding acknowledge
  handle_task payload none =
      refuse_message (coerce_task_id payload) "invalid_envelope" (some "ValidationError")
        c.retry_policy
  handle_task payload (some task) =
      process_task_with_lease env c m task (make_task_context c m task) no_overrides
      >>= acknowledge task

  unfoldable pub batch_or_reject : Json → Option RetryPolicy → M (Unit {0})
  batch_or_reject payload none = reject_message none "unsupported_batch_envelope"
  batch_or_reject payload (some _) = handle_batch_message payload

  unfoldable pub handle_payload : Json → M (Unit {0})
  unfolding handle_task batch_or_reject
  handle_payload payload =
      emit_observation env c.has_sink (message_received (coerce_task_id payload))
      >> (if is_batch payload
          then batch_or_reject payload c.retry_policy
          else handle_task payload (c.runtime.validate_task payload))

  unfoldable pub handle_parsed : Option Json → M (Unit {0})
  unfolding handle_payload
  handle_parsed none = refuse_message none "malformed_json" none c.retry_policy
  handle_parsed (some payload) =
      handle_payload (normalize_payload c.runtime.str c.alias_config payload)

  -- `_handle_message_impl`
  unfoldable pub handle_message : M (Unit {0})
  unfolding handle_parsed
  handle_message = handle_parsed (c.runtime.parse_transport_json m.body)
