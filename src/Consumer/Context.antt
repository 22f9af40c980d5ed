-- ===== src/Consumer/Context.antt =====
-- src/relayna/consumer/context.py: configuration, message metadata and headers.
use relayna.Prelude.{ℕ, ◌*◌, min, String, Bool, true, Option, none, some, ◌==◌, if◌then◌else◌}
use relayna.Prelude.Dict.{Dict, get, put, update}
use relayna.Prelude.Text.{strip}
use relayna.Json.{Json, null, number, text, object, ℤ, pos, negsuc, to_dict, of_dict}
use relayna.Contracts.Aliases.{ContractAliasConfig, payload, normalize_contract_aliases}
use relayna.Consumer.Effects.{Exc}

pub data FailureAction : Type 0 where
  reject requeue : FailureAction

pub record LifecycleStatusConfig : Type 0 where
  pub enabled : Bool
  pub processing_status : String
  pub completed_status : String
  pub failed_status : String
  pub include_error_message : Bool

pub record RetryPolicy : Type 0 where
  pub max_retries : ℕ
  pub delay_ms : ℕ
  pub retry_queue_suffix : String
  pub dead_letter_queue_suffix : String
  pub retry_priority_step : Option ℕ

pub record RetryStatusConfig : Type 0 where
  pub enabled : Bool
  pub retrying_status : String
  pub dead_lettered_status : String
  pub include_error_message : Bool

pub record MessageMetadata : Type 0 where
  pub headers : Dict Json
  pub correlation_id : Option String
  pub content_type : Option String
  pub retry_attempt : ℕ

-- The fields of `TaskContext` that the consumer reads.
pub record TaskContext : Type 0 where
  pub task_id : String
  pub correlation_id : Option String
  pub retry_attempt : ℕ
  pub max_retries : Option ℕ
  pub source_queue_name : String
  pub batch_id : Option String
  pub batch_index : Option ℤ
  pub batch_size : Option ℤ
  pub headers : Dict Json
  pub manual_retry_count : ℕ

abbrev clip : ℤ → ℕ
clip (pos n) = n
clip (negsuc _) = 0

abbrev or_zero : Option ℤ → ℕ
or_zero none = 0
or_zero (some n) = clip n

-- `int(value)` of the interpreter; `none` where it raises `TypeError` or `ValueError`.
module _ (int : Json → Option ℤ) where
  abbrev attempt_of : Option Json → ℕ
  attempt_of none = 0
  attempt_of (some null) = 0
  attempt_of (some v) = or_zero (int v)

  unfoldable pub retry_attempt_from_headers : Dict Json → ℕ
  retry_attempt_from_headers headers = attempt_of (get "x-relayna-retry-attempt" headers)

  unfoldable pub header_int : Dict Json → String → Option ℤ
  header_int headers key = elim (get key headers) [
    | none ↦ none
    | some null ↦ none
    | some v ↦ int v
  ]

  unfoldable pub manual_retry_count : Dict Json → ℕ
  manual_retry_count headers = or_zero (header_int headers "x-relayna-manual-retry-count")

unfoldable pub header_string : Dict Json → String → Option String
header_string headers key = elim (get key headers) [
  | some (text s) ↦ (if strip s == "" then none else some (strip s))
  | _ ↦ none
]

abbrev pub exception_type_json : Option String → Json
exception_type_json none = null
exception_type_json (some name) = text name

-- A count is never negative, so `int(...)` of it is itself.
unfoldable pub retry_headers :
    Dict Json → String → ℕ → ℕ → String → Option String → Dict Json → Dict Json
retry_headers message_headers source_queue_name retry_attempt max_retries reason exception_type
      extra_headers =
    let h = update message_headers extra_headers in
    put "x-relayna-exception-type" (exception_type_json exception_type) (
      put "x-relayna-failure-reason" (text reason) (
        put "x-relayna-source-queue" (text source_queue_name) (
          put "x-relayna-max-retries" (number (pos max_retries))
            (put "x-relayna-retry-attempt" (number (pos retry_attempt)) h))))

unfoldable pub retry_priority : Option RetryPolicy → ℕ → Option ℕ
retry_priority none retry_attempt = none
retry_priority (some policy) retry_attempt = elim policy.retry_priority_step [
  | none ↦ none
  | some step ↦ some (min (retry_attempt * step) 255)
]

abbrev put_if {ℓ} : {A : Type ℓ} → String → (A → Json) → Option A → Dict Json → Dict Json
put_if key json none d = d
put_if key json (some v) d = put key (json v) d

unfoldable pub merge_batch_retry_headers : TaskContext → Dict Json → Dict Json
merge_batch_retry_headers context headers = put_if "batch_size" number context.batch_size (
    put_if "batch_index" number context.batch_index
      (put_if "batch_id" text context.batch_id headers))

abbrev task_failed : String
task_failed = "Task processing failed."

unfoldable pub failure_message : Exc → Bool → String
failure_message exc include_error_message =
    let s = strip exc.message in
    if include_error_message then (if s == "" then task_failed else s) else task_failed

unfoldable pub coerce_task_id : Json → Option String
coerce_task_id (object fs) = elim (get "task_id" (to_dict fs)) [
  | some (text id) ↦ some id
  | _ ↦ none
]
coerce_task_id _ = none

module _ (str : Json → String) where
  unfoldable pub normalize_payload : Option ContractAliasConfig → Json → Json
  normalize_payload config (object fs) =
      object (of_dict (normalize_contract_aliases str (to_dict fs) config payload true))
  normalize_payload config v = v
