-- ===== src/Consumer/Delivery.antt =====
-- `_handle_message_impl`: how a message ends, whatever the broker, the stores and the handler do.
use relayna.Consumer.Triples.{
  Triple, Handed, Fresh, Done, Holds, Bounded, ack_triple, bind_triple, if_triple, pure_triple,
  Done-IsStable, reject_triple, quiet_triple, Bounded-triple, after_quiet, Fresh-IsStable,
  delivery_triple,
}
use relayna.Consumer.Effects.{
  Env, Observation, Result, perform, Trace, ack, ◌>>◌, ok, emit_observation, fail, cancel,
}
use relayna.Consumer.Publish.{Consumer, Message, Failure, BatchTaskEnvelope, TaskEnvelope}
use relayna.Consumer.Handle.{
  dead_letter_and_ack, reject_message, refuse_message, publish_batch, handle_batch, acknowledge,
  handle_task, batch_or_reject, handle_parsed, handle_message, handle_batch_message, handle_payload,
}
use relayna.Consumer.Hoare.{settled, no_loss, Quiet-emit}
use relayna.Prelude.{Option, [], String, Bool, ◌≡◌, ◌≤◌, refl, true, some, none, false}
use relayna.Json.{Json}
use relayna.Consumer.Context.{RetryPolicy}
use relayna.Consumer.Verdict.{Verdict, leased_triple}
use relayna.Consumer.Settlement.{dead_letter-Handed}

module _ (env : Env) (c : Consumer) (m : Message) where
  Handed-ack : Triple Handed (perform env ack) (λ _. Done) Bounded
  Handed-ack = ack_triple env

  dead_letter_and_ack_triple :
      (f : Failure) → Triple Fresh (dead_letter_and_ack env c m f) (λ _. Done) Bounded
  unfolding dead_letter_and_ack
  dead_letter_and_ack_triple f =
      bind_triple _ (λ _. Handed) _ _ _ _ (dead_letter-Handed env c m f) (λ _. ack_triple env)

  reject_message_triple :
      (id : Option String) (reason : String)
      → Triple Fresh (reject_message env c m id reason) (λ _. Done) Bounded
  unfolding reject_message
  reject_message_triple id reason =
      bind_triple _ (λ _. Done) _ _ _ _ (reject_triple env false)
        (λ _. quiet_triple _ _ _ Done-IsStable Done-IsStable.bounds (Quiet-emit env _ _))

  refuse_triple :
      (id : Option String) (reason : String) (x : Option String) (p : Option RetryPolicy)
      → Triple Fresh (refuse_message env c m id reason x p) (λ _. Done) Bounded
  unfolding refuse_message
  refuse_triple id reason x none = reject_message_triple id reason
  refuse_triple id reason x (some p) = dead_letter_and_ack_triple _

  -- The acknowledgement and its observation.
  ack_and_observe :
      (o : Observation)
      → Triple Handed (perform env ack >> emit_observation env c.has_sink o) (λ _. Done) Bounded
  ack_and_observe o =
      bind_triple _ (λ _. Done) _ _ _ _ (ack_triple env)
        (λ _. quiet_triple _ _ _ Done-IsStable Done-IsStable.bounds (Quiet-emit env _ _))

  publish_batch_triple :
      (b : BatchTaskEnvelope) → Triple Fresh (publish_batch env c m b) (λ _. Done) Bounded
  unfolding publish_batch
  publish_batch_triple b = if_triple _ _ _ _ _ _ (dead_letter_and_ack_triple _) (
      bind_triple _ (λ _. Handed) _ _ _ _
        (Bounded-triple _ _ _ Fresh-IsStable
          (delivery_triple env _ (record { quiet = (refl, λ _. refl); delivery = λ o. refl })))
        (λ _. ack_and_observe _))

  handle_batch_triple :
      (b : Option BatchTaskEnvelope) → Triple Fresh (handle_batch env c m b) (λ _. Done) Bounded
  unfolding handle_batch
  handle_batch_triple none = dead_letter_and_ack_triple _
  handle_batch_triple (some b) = publish_batch_triple b

  acknowledge_triple :
      (task : TaskEnvelope) (b : Bool)
      → Triple (Verdict b) (acknowledge env c m task b) (λ _. Done) Bounded
  unfolding acknowledge
  acknowledge_triple task true = ack_and_observe _
  acknowledge_triple task false = pure_triple _ _ _ _ (λ s h. h)

  handle_task_triple :
      (v : Json) (task : Option TaskEnvelope)
      → Triple Fresh (handle_task env c m v task) (λ _. Done) Bounded
  unfolding handle_task
  handle_task_triple v none = refuse_triple _ _ _ _
  handle_task_triple v (some task) =
      bind_triple _ _ _ _ _ _ (leased_triple env c m task _) (acknowledge_triple task)

  batch_or_reject_triple :
      (v : Json) (p : Option RetryPolicy)
      → Triple Fresh (batch_or_reject env c m v p) (λ _. Done) Bounded
  unfolding batch_or_reject handle_batch_message
  batch_or_reject_triple v none = reject_message_triple _ _
  batch_or_reject_triple v (some p) = handle_batch_triple _

  handle_parsed_triple :
      (v : Option Json) → Triple Fresh (handle_parsed env c m v) (λ _. Done) Bounded
  unfolding handle_parsed handle_payload
  handle_parsed_triple none = refuse_triple _ _ _ _
  handle_parsed_triple (some v) =
      after_quiet _ _ _ _ _ Fresh-IsStable Fresh-IsStable.bounds (Quiet-emit env _ _)
        (λ _. if_triple _ _ _ _ _ _ (batch_or_reject_triple _ _) (handle_task_triple _ _))

  handle_triple' : Triple Fresh (handle_message env c m) (λ _. Done) Bounded
  unfolding handle_message
  handle_triple' = handle_parsed_triple (c.runtime.parse_transport_json m.body)

  Fresh-start : Fresh []
  unfolding settled no_loss
  Fresh-start = (refl, refl)

  held : (r : Result (Unit {0})) (t : Trace) → Holds (λ _. Done) Bounded r t → Bounded t
  held (ok _) t h = Done-IsStable.bounds t h
  held (fail _) t h = h
  held cancel t h = h

  settled_of_ok :
      (r : Result (Unit {0})) (t : Trace)
      → Holds (λ _. Done) Bounded r t
      → r ≡ ok tt
      → settled t ≡ 1
  settled_of_ok (ok _) t h e = h.0
  settled_of_ok (fail _) t h e = cc
  settled_of_ok cancel t h e = cc

  -- A message whose handling returns has been acknowledged or rejected exactly once.
  pub handle-settles_once :
      (handle_message env c m []).0 ≡ ok tt → settled (handle_message env c m []).1 ≡ 1
  handle-settles_once e = settled_of_ok _ _ (handle_triple'.run [] Fresh-start) e

  -- In every run, also one that ends in an exception or is cancelled at any call, the message is
  -- acknowledged or rejected at most once, and it is acknowledged only after its handler returned
  -- or a publication of it (to the retry queue, the dead-letter queue, as a manual retry or as the
  -- members of its batch) was answered.
  pub handle-no_loss :
      (settled (handle_message env c m []).1 ≤ 1) × (no_loss (handle_message env c m []).1 ≡ true)
  handle-no_loss = held _ _ (handle_triple'.run [] Fresh-start)
