-- ===== src/Consumer/Settlement.antt =====
-- Every message is settled once, and acknowledged only after it is handed over.
use relayna.Prelude.{ℕ, refl, String, Option, some, none}
use relayna.Consumer.Effects.{
  Exc, Env, publish_status, StatusMessage, perform, Publication, publish_raw,
}
use relayna.Consumer.Hoare.{
  Quiet, Quiet-pure, Quiet-perform, Quiet-emit, Quiet-when, Quiet-catch, Quiet-bind, Quiet-if,
}
use relayna.Consumer.Triples.{
  Triple, Bounded-triple, Fresh, Handed, delivery_triple, Bounded, throw_triple, Fresh-IsStable,
  bind_triple, quiet_triple, Handed-IsStable,
}
use relayna.Consumer.Publish.{
  Consumer, publish_lifecycle_status, publish_retry_status, publish_dead_letter_status, Message,
  persist_dlq_record, Failure, retry_through, RetryInfrastructure, publish_retry,
  dead_letter_through, publish_dead_letter,
}
use relayna.Consumer.Context.{RetryPolicy}

module _ (env : Env) (c : Consumer) where
  pub status-Quiet :
      (status : String) (t : StatusMessage) → Quiet (perform env (publish_status status t))
  status-Quiet status t = Quiet-perform env _ (refl, λ _. refl)

  pub lifecycle-Quiet :
      (status message : String) → Quiet (publish_lifecycle_status env c status message)
  unfolding publish_lifecycle_status
  lifecycle-Quiet status message = Quiet-when _ _ (
      Quiet-catch _ _ (Quiet-bind _ _ (status-Quiet _ _) (λ _. Quiet-emit env _ _))
        (λ _. Quiet-pure tt))

  pub retry_status-Quiet : (a b : ℕ) → Quiet (publish_retry_status env c a b)
  unfolding publish_retry_status
  retry_status-Quiet a b = Quiet-when _ _ (Quiet-catch _ _ (status-Quiet _ _) (λ _. Quiet-pure tt))

  pub dead_letter_status-Quiet : (x : Exc) → Quiet (publish_dead_letter_status env c x)
  unfolding publish_dead_letter_status
  dead_letter_status-Quiet x =
      Quiet-if _ _ _ (Quiet-catch _ _ (status-Quiet _ _) (λ _. Quiet-pure tt))
        (Quiet-when _ _ (lifecycle-Quiet _ _))

module _ (env : Env) (c : Consumer) (m : Message) where
  persist-Quiet : (f : Failure) → Quiet (persist_dlq_record env c m f)
  unfolding persist_dlq_record
  persist-Quiet f =
      Quiet-when _ _
        (Quiet-catch _ _ (Quiet-perform env _ (refl, λ _. refl)) (λ x. Quiet-emit env _ _))

  publication : (p : Publication) → Triple Fresh (perform env (publish_raw p)) (λ _. Handed) Fresh
  publication p = delivery_triple env _ (record { quiet = (refl, λ _. refl); delivery = λ o. refl })

  retry_through-Handed :
      (i : Option RetryInfrastructure) (f : Failure) (n : ℕ)
      → Triple Fresh (retry_through env c m i f n) (λ _. Handed) Bounded
  unfolding retry_through
  retry_through-Handed none f n = throw_triple _ _ _ _ Fresh-IsStable.bounds
  retry_through-Handed (some i) f n =
      bind_triple _ (λ _. Handed) _ _ _ _ (Bounded-triple _ _ _ Fresh-IsStable (publication _))
        (λ _. quiet_triple _ _ _ Handed-IsStable Handed-IsStable.bounds (Quiet-emit env _ _))

  pub retry-Handed :
      (f : Failure) (n : ℕ) → Triple Fresh (publish_retry env c m f n) (λ _. Handed) Bounded
  unfolding publish_retry
  retry-Handed = retry_through-Handed m.retry_infrastructure

  dead_letter_through-Handed :
      (i : Option RetryInfrastructure) (p : Option RetryPolicy) (f : Failure)
      → Triple Fresh (dead_letter_through env c m i p f) (λ _. Handed) Bounded
  unfolding dead_letter_through
  dead_letter_through-Handed (some i) (some p) f =
      bind_triple _ (λ _. Handed) _ _ _ _ (Bounded-triple _ _ _ Fresh-IsStable (publication _))
        (λ _.
          quiet_triple _ _ _ Handed-IsStable Handed-IsStable.bounds
            (Quiet-bind _ _ (Quiet-emit env _ _) (λ _. persist-Quiet f)))
  dead_letter_through-Handed _ _ f = throw_triple _ _ _ _ Fresh-IsStable.bounds

  pub dead_letter-Handed :
      (f : Failure) → Triple Fresh (publish_dead_letter env c m f) (λ _. Handed) Bounded
  unfolding publish_dead_letter
  dead_letter-Handed = dead_letter_through-Handed m.retry_infrastructure c.retry_policy
