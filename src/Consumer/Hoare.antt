-- ===== src/Consumer/Hoare.antt =====
-- What a consumer's run does to its message, as a logic of pre- and postconditions on traces.
use relayna.Prelude.{
  ℕ, ◌+◌, Bool, true, false, ◌&&◌, ◌||◌, ◌≡◌, refl, [], ◌∷◌, arith, if◌then◌else◌,
}
use relayna.Consumer.Effects.{
  Exc, Env, M, Result, ok, fail, cancel, Effect, Trace, Outcome, cancelled, manual_retry, raised,
  Observation, pure, throw, catch, handle_exc, continue, when, ◌>>=◌, query, perform, note, ack,
  reject, run_handler, publish_raw, map_bounded, publish_task, sink, emit_observation,
  absorb_cancelled,
}

-- Acknowledgements and rejections.
abbrev pub settles : Effect → ℕ
settles ack = 1
settles (reject _) = 1
settles _ = 0

unfoldable pub settled : Trace → ℕ
settled [] = 0
settled (e ∷ t) = settles e.effect + settled t

abbrev pub completed : Outcome → Bool
completed cancelled = false
completed (raised _) = false
completed _ = true

-- The handler has returned, or the task is in a queue again (or in the dead-letter queue).
abbrev pub delivers : Effect → Outcome → Bool
delivers run_handler (manual_retry _) = false
delivers run_handler o = completed o
delivers (publish_raw _) o = completed o
delivers (map_bounded _ _) o = completed o
delivers (publish_task _ _) o = completed o
delivers _ _ = false

unfoldable pub handed_over : Trace → Bool
handed_over [] = false
handed_over (e ∷ t) = delivers e.effect e.outcome || handed_over t

abbrev pub allowed : Effect → Bool → Bool
allowed ack handed = handed
allowed _ handed = true

-- Each acknowledgement comes after a delivery.
unfoldable pub no_loss : Trace → Bool
no_loss [] = true
no_loss (e ∷ t) = allowed e.effect (handed_over t) && no_loss t

-- `t` goes on from `s` and settles nothing.
pub record Extends (s t : Trace) : Type 0 where
  pub same : settled t ≡ settled s
  pub handed : handed_over s ≡ true → handed_over t ≡ true
  pub safe : no_loss s ≡ true → no_loss t ≡ true

Extends-refl : (s : Trace) → Extends s s
Extends-refl s = record { same = refl; handed = λ h. h; safe = λ h. h }

Extends-trans : {s t u : Trace} → Extends s t → Extends t u → Extends s u
Extends-trans a b = record {
  same = omega (arith, a.same, b.same);
  handed = λ h. b.handed (a.handed h);
  safe = λ h. b.safe (a.safe h);
}

pub record Quiet {ℓ} {A : Type ℓ} (m : M A) : Type 0 where
  pub run : (s : Trace) → Extends s (m s).1

abbrev IsQuietEffect : Effect → Type 0
IsQuietEffect e = (settles e ≡ 0) × ((b : Bool) → allowed e b ≡ true)

module _ (env : Env) where
  pub Quiet-query : (e : Effect) → IsQuietEffect e → Quiet (query env e)
  unfolding query settled handed_over no_loss
  Quiet-query e q = record {
    run = λ s. record {
      same = ground (arith, q.0);
      handed = λ h. ground arith;
      safe = λ h. ground (arith, q.1 (handed_over s));
    };
  }

  pub Quiet-note : (e : Effect) → IsQuietEffect e → Quiet (note env e)
  unfolding note settled handed_over no_loss
  Quiet-note e q = record {
    run = λ s. record {
      same = ground (arith, q.0);
      handed = λ h. ground arith;
      safe = λ h. ground (arith, q.1 (handed_over s));
    };
  }

module _ {ℓ} {A : Type ℓ} where
  pub Quiet-pure : (a : A) → Quiet (pure a)
  unfolding pure
  Quiet-pure a = record { run = λ s. Extends-refl s }

  Quiet-throw : (e : Exc) → Quiet (throw {A = A} e)
  unfolding throw
  Quiet-throw e = record { run = λ s. Extends-refl s }

  handle-quiet :
      (f : Exc → M A)
      → ((e : Exc) → Quiet (f e))
      → (r : Result A) (t : Trace) → Extends t (handle_exc f r t).1
  unfolding handle_exc
  handle-quiet f q (ok a) t = Extends-refl t
  handle-quiet f q (fail e) t = (q e).run t
  handle-quiet f q cancel t = Extends-refl t

  pub Quiet-catch :
      (m : M A) (f : Exc → M A) → Quiet m → ((e : Exc) → Quiet (f e)) → Quiet (catch m f)
  unfolding catch
  Quiet-catch m f qm qf = record {
    run = λ s. let (r, t) = m s in Extends-trans (qm.run s) (handle-quiet f qf r t);
  }

  pub Quiet-if : (b : Bool) (m n : M A) → Quiet m → Quiet n → Quiet (if b then m else n)
  Quiet-if true m n qm qn = qm
  Quiet-if false m n qm qn = qn

module _ {ℓ κ} {A : Type ℓ} {B : Type κ} where
  continue-quiet :
      (f : A → M B)
      → ((a : A) → Quiet (f a))
      → (r : Result A) (t : Trace) → Extends t (continue f r t).1
  unfolding continue
  continue-quiet f q (ok a) t = (q a).run t
  continue-quiet f q (fail e) t = Extends-refl t
  continue-quiet f q cancel t = Extends-refl t

  pub Quiet-bind : (m : M A) (f : A → M B) → Quiet m → ((a : A) → Quiet (f a)) → Quiet (m >>= f)
  unfolding ◌>>=◌
  Quiet-bind m f qm qf = record {
    run = λ s. let (r, t) = m s in Extends-trans (qm.run s) (continue-quiet f qf r t);
  }

pub Quiet-absorb : (m : M (Unit {0})) → Quiet m → Quiet (absorb_cancelled m)
unfolding absorb_cancelled
Quiet-absorb m q = record { run = q.run }

pub Quiet-when : (b : Bool) (m : M Unit) → Quiet m → Quiet (when b m)
unfolding pure
Quiet-when true m q = q
Quiet-when false m q = Quiet-pure tt

module _ (env : Env) where
  pub Quiet-perform : (e : Effect) → IsQuietEffect e → Quiet (perform env e)
  unfolding perform
  Quiet-perform e q = Quiet-bind _ _ (Quiet-query env e q) (λ _. Quiet-pure tt)

  pub Quiet-emit : (b : Bool) (o : Observation) → Quiet (emit_observation env b o)
  unfolding emit_observation
  Quiet-emit b o =
      Quiet-when b _
        (Quiet-catch _ _ (Quiet-perform (sink o) (refl, λ _. refl)) (λ _. Quiet-pure tt))
