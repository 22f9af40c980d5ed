-- ===== src/Consumer/Effects.antt =====
-- The calls that a consumer makes, in order, and Python's exceptions over them.
-- A run is a trace, latest call first. What a call does is decided by `Env`, from all that went
-- before it: a theorem for every `Env` covers every broker, store, handler and cancellation.
use relayna.Prelude.{ℕ, String, Bool, true, false, Option, List, ◌∷◌, if◌then◌else◌, [], some}
use relayna.Prelude.Dict.{Dict}
use relayna.Json.{Json}

-- An `Exception`: its class's name and its text.
pub record Exc : Type 0 where
  pub name : String
  pub message : String

-- One call of `publish_raw_to_queue`.
pub record Publication : Type 0 where
  pub queue : String
  pub body : List ℕ
  pub correlation_id : Option String
  pub headers : Dict Json
  pub priority : Option ℕ
  pub content_type : Option String

pub data Observation : Type 0 where
  message_received : Option String → Observation
  message_acked : Option String → Observation
  message_rejected : Option String → Bool → String → Observation
  handler_failed : String → Exc → Bool → Observation
  retry_scheduled : Option String → String → ℕ → ℕ → String → Observation
  dead_letter_published : Option String → String → ℕ → ℕ → String → Observation
  dlq_record_persist_failed : Option String → Exc → Observation
  lifecycle_status_published : String → Observation
  resource_sampled : String → Observation

-- The text of a status. `scheduling_retry a b` is
-- "Task processing failed. Scheduling retry {a}/{b}."
pub data StatusMessage : Type 0 where
  plain : String → StatusMessage
  scheduling_retry : ℕ → ℕ → StatusMessage

pub data Metric : Type 0 where
  task_started task_retry task_dlq resource_event : Metric
  task_finished : Bool → Metric

pub data Effect : Type 0 where
  ack run_handler acquire_lease await_heartbeat release_lease add_dlq_record : Effect
  reject : Bool → Effect
  publish_raw : Publication → Effect
  map_bounded : ℕ → List Publication → Effect
  publish_task : Json → Dict Json → Effect
  publish_status : String → StatusMessage → Effect
  sink : Observation → Effect
  metric : Metric → Effect

-- `_ManualRetryRequest`, which a handler leaves in its context.
pub record ManualRetryRequest : Type 0 where
  pub task : Json
  pub headers : Dict Json
  pub status_message : String

-- `refused` is the answer `False` of a call that answers a `bool`; `manual_retry` is
-- `_ManualRetryRequested`, which only
-- `TaskContext.manual_retry` raises, in the handler, after it has set the request.
pub data Outcome : Type 0 where
  returned refused cancelled : Outcome
  manual_retry : ManualRetryRequest → Outcome
  raised : Exc → Outcome

pub record Event : Type 0 where
  pub effect : Effect
  pub outcome : Outcome

abbrev pub Trace : Type 0
Trace = List Event

pub record Env : Type 0 where
  pub outcome : Trace → Effect → Outcome
  pub request : Trace → Option ManualRetryRequest

pub data Result {ℓ} (A : Type ℓ) : Type ℓ where
  ok : A → Result A
  fail : Exc → Result A
  cancel : Result A

abbrev pub M {ℓ} : Type ℓ → Type ℓ
M A = Trace → Result A × Trace

module _ {ℓ} {A : Type ℓ} where
  unfoldable pub pure : A → M A
  pure a s = (ok a, s)

  unfoldable pub throw : Exc → M A
  throw e s = (fail e, s)

  unfoldable pub handle_exc : (Exc → M A) → Result A → M A
  handle_exc f (ok a) s = (ok a, s)
  handle_exc f (fail e) s = f e s
  handle_exc f cancel s = (cancel, s)

  -- `try: m except Exception as exc: f(exc)`; a `CancelledError` is no `Exception`.
  unfoldable pub catch : M A → (Exc → M A) → M A
  unfolding handle_exc
  catch m f s = let (r, t) = m s in handle_exc f r t

  unfoldable pub give_back : Result A → Result (Unit {0}) → Result A
  give_back r (ok _) = r
  give_back r (fail e) = fail e
  give_back r cancel = cancel

  -- `try: m finally: f`; an exception of `f` takes the place of the result.
  unfoldable pub finally : M A → M (Unit {0}) → M A
  unfolding give_back
  finally m f s = let (r, t) = m s in let (q, u) = f t in (give_back r q, u)

absorb : Result (Unit {0}) → Result (Unit {0})
absorb cancel = ok tt
absorb r = r

-- `try: m except asyncio.CancelledError: pass`
unfoldable pub absorb_cancelled : M (Unit {0}) → M (Unit {0})
unfolding absorb
absorb_cancelled m s = let (r, t) = m s in (absorb r, t)

module _ {ℓ κ} {A : Type ℓ} {B : Type κ} where
  unfoldable pub continue : (A → M B) → Result A → M B
  continue f (ok a) s = f a s
  continue f (fail e) s = (fail e, s)
  continue f cancel s = (cancel, s)

  infixl 5 ◌>>=◌
  unfoldable pub ◌>>=◌ : M A → (A → M B) → M B
  unfolding continue
  ◌>>=◌ m f s = let (r, t) = m s in continue f r t

infixl 5 ◌>>◌
abbrev pub ◌>>◌ {ℓ} : {B : Type ℓ} → M (Unit {0}) → M B → M B
m >> n = m >>= λ _. n

abbrev pub skip : M (Unit {0})
skip = pure tt

abbrev pub when : Bool → M (Unit {0}) → M (Unit {0})
when b m = if b then m else skip

-- The answer to a call that answers nothing or a `bool`.
unfoldable pub answer : Outcome → Result Bool
answer returned = ok true
answer refused = ok false
answer (manual_retry _) = ok true
answer cancelled = cancel
answer (raised e) = fail e

abbrev pub last_outcome : Trace → Outcome
last_outcome [] = returned
last_outcome (e ∷ t) = e.outcome

abbrev pub requested : Outcome → Option ManualRetryRequest → Option ManualRetryRequest
requested (manual_retry r) other = some r
requested _ other = other

module _ (env : Env) where
  unfoldable pub query : Effect → M Bool
  unfolding answer
  query e s = let o = env.outcome s e in (answer o, record { effect = e; outcome = o } ∷ s)

  -- `await` of a call whose answer is not used.
  unfoldable pub perform : Effect → M (Unit {0})
  perform e = query e >>= λ _. skip

  -- Counters of prometheus_client, which do not fail.
  unfoldable pub note : Effect → M (Unit {0})
  note e s = (ok tt, record { effect = e; outcome = returned } ∷ s)

  -- The request in the context after the handler: that of `_ManualRetryRequested`, else the one of
  -- a handler that has dropped this exception, if any.
  unfoldable pub manual_request : M (Option ManualRetryRequest)
  manual_request s = (ok (requested (last_outcome s) (env.request s)), s)

  -- `emit_observation`: no sink, no call; an `Exception` of the sink is dropped.
  unfoldable pub emit_observation : Bool → Observation → M (Unit {0})
  emit_observation has_sink o = when has_sink (catch (perform (sink o)) (λ _. skip))
