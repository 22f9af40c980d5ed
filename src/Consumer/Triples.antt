-- ===== src/Consumer/Triples.antt =====
-- Pre- and postconditions of the consumer's actions, with one rule for each way to build an action.
use relayna.Prelude.{◌≤◌, Bool, true, false, ◌≡◌, arith, if◌then◌else◌, ◌∷◌}
use relayna.Consumer.Effects.{
  Exc, Env, M, Result, ok, fail, cancel, Effect, Trace, pure, throw, handle_exc, finally, give_back,
  continue, ◌>>=◌, query, perform, answer, ack, reject, Outcome, manual_retry, raised, returned,
  cancelled, refused,
}
use relayna.Consumer.Hoare.{
  settled, handed_over, no_loss, delivers, Extends, Quiet, settles, allowed, completed,
}

-- The message is not settled; so and handed over; settled once; settled at most once.
abbrev pub Fresh : Trace → Type 0
Fresh s = (settled s ≡ 0) × (no_loss s ≡ true)

abbrev pub Handed : Trace → Type 0
Handed s = (settled s ≡ 0) × (no_loss s ≡ true) × (handed_over s ≡ true)

abbrev pub Done : Trace → Type 0
Done s = (settled s ≡ 1) × (no_loss s ≡ true)

abbrev pub Bounded : Trace → Type 0
Bounded s = (settled s ≤ 1) × (no_loss s ≡ true)

-- A condition that a quiet action keeps, and that a cancelled run may end with.
pub record IsStable (P : Trace → Type 0) : Type 0 where
  pub keeps : (s t : Trace) → Extends s t → P s → P t
  pub bounds : (s : Trace) → P s → Bounded s

pub Fresh-IsStable : IsStable Fresh
Fresh-IsStable = record {
  keeps = λ s t e p. (omega (arith, e.same, p.0), e.safe p.1);
  bounds = λ s p. (omega (arith, p.0), p.1);
}

pub Handed-IsStable : IsStable Handed
Handed-IsStable = record {
  keeps = λ s t e p. (omega (arith, e.same, p.0), e.safe p.1, e.handed p.2);
  bounds = λ s p. (omega (arith, p.0), p.1);
}

pub Done-IsStable : IsStable Done
Done-IsStable = record {
  keeps = λ s t e p. (omega (arith, e.same, p.0), e.safe p.1);
  bounds = λ s p. (omega (arith, p.0), p.1);
}

Bounded-IsStable : IsStable Bounded
Bounded-IsStable = record {
  keeps = λ s t e p. (omega (arith, e.same, p.0), e.safe p.1);
  bounds = λ s p. p;
}

-- `Q` after a result, `E` after an `Exception`, at most one settlement after a cancellation.
abbrev pub Holds {ℓ} :
    {A : Type ℓ} → (A → Trace → Type 0) → (Trace → Type 0) → Result A → Trace → Type 0
Holds Q E (ok a) t = Q a t
Holds Q E (fail e) t = E t
Holds Q E cancel t = Bounded t

pub record Triple {ℓ} {A : Type ℓ} (P : Trace → Type 0) (m : M A) (Q : A → Trace → Type 0)
    (E : Trace → Type 0) : Type 0 where
  pub run : (s : Trace) → P s → Holds Q E (m s).0 (m s).1

module _ {ℓ} {A : Type ℓ} where
  held-Bounded :
      (Q : A → Trace → Type 0) (E : Trace → Type 0)
      → ((a : A) (s : Trace) → Q a s → Bounded s)
      → ((s : Trace) → E s → Bounded s)
      → (r : Result A) (t : Trace) → Holds Q E r t
      → Bounded t
  held-Bounded Q E bq be (ok a) t h = bq a t h
  held-Bounded Q E bq be (fail e) t h = be t h
  held-Bounded Q E bq be cancel t h = h

  pub pure_triple :
      (P : Trace → Type 0) (a : A) (Q : A → Trace → Type 0) (E : Trace → Type 0)
      → ((s : Trace) → P s → Q a s)
      → Triple P (pure a) Q E
  unfolding pure
  pure_triple P a Q E h = record { run = h }

  pub throw_triple :
      (P : Trace → Type 0) (e : Exc) (Q : A → Trace → Type 0) (E : Trace → Type 0)
      → ((s : Trace) → P s → E s)
      → Triple P (throw e) Q E
  unfolding throw
  throw_triple P e Q E h = record { run = h }

  quiet-holds :
      (P E : Trace → Type 0)
      → IsStable P
      → ((s : Trace) → P s → E s)
      → (r : Result A) (t : Trace) → P t
      → Holds (λ _. P) E r t
  quiet-holds P E st pe (ok a) t p = p
  quiet-holds P E st pe (fail e) t p = pe t p
  quiet-holds P E st pe cancel t p = st.bounds t p

  -- An action that settles nothing keeps a stable condition.
  pub quiet_triple :
      (P E : Trace → Type 0) (m : M A)
      → IsStable P
      → ((s : Trace) → P s → E s)
      → Quiet m
      → Triple P m (λ _. P) E
  quiet_triple P E m st pe q = record {
    run = λ s p. quiet-holds P E st pe (m s).0 (m s).1 (st.keeps s (m s).1 (q.run s) p);
  }

  weaken-holds :
      (Q : A → Trace → Type 0) (E F : Trace → Type 0)
      → ((s : Trace) → E s → F s)
      → (r : Result A) (t : Trace) → Holds Q E r t
      → Holds Q F r t
  weaken-holds Q E F ef (ok a) t h = h
  weaken-holds Q E F ef (fail e) t h = ef t h
  weaken-holds Q E F ef cancel t h = h

  -- After an `Exception` the message is settled at most once.
  pub Bounded-triple :
      (P : Trace → Type 0) (m : M A) (Q : A → Trace → Type 0) {E : Trace → Type 0}
      → IsStable E
      → Triple P m Q E
      → Triple P m Q Bounded
  Bounded-triple P m Q {E} st h = record {
    run = λ s p. weaken-holds Q E Bounded st.bounds (m s).0 (m s).1 (h.run s p);
  }

  handle-holds :
      (Q : A → Trace → Type 0) (F E : Trace → Type 0) (f : Exc → M A)
      → ((e : Exc) → Triple F (f e) Q E)
      → (r : Result A) (t : Trace) → Holds Q F r t
      → Holds Q E (handle_exc f r t).0 (handle_exc f r t).1
  unfolding handle_exc
  handle-holds Q F E f h (ok a) t p = p
  handle-holds Q F E f h (fail e) t p = (h e).run t p
  handle-holds Q F E f h cancel t p = p

  pub handle_triple :
      (Q : A → Trace → Type 0) (F E : Trace → Type 0) (f : Exc → M A)
      → ((e : Exc) → Triple F (f e) Q E)
      → (r : Result A) → Triple (Holds Q F r) (handle_exc f r) Q E
  handle_triple Q F E f h r = record { run = λ t p. handle-holds Q F E f h r t p }

  give-back-holds :
      (Q : A → Trace → Type 0)
      → ((a : A) → IsStable (Q a))
      → (r : Result A) (q : Result (Unit {0})) (t u : Trace) → Extends t u
      → Holds Q Bounded r t
      → Holds Q Bounded (give_back r q) u
  unfolding give_back
  give-back-holds Q st (ok a) (ok _) t u x h = (st a).keeps t u x h
  give-back-holds Q st (fail e) (ok _) t u x h = Bounded-IsStable.keeps t u x h
  give-back-holds Q st cancel (ok _) t u x h = Bounded-IsStable.keeps t u x h
  give-back-holds Q st r (fail _) t u x h =
      Bounded-IsStable.keeps t u x (held-Bounded Q Bounded (λ a. (st a).bounds) (λ _ b. b) r t h)
  give-back-holds Q st r cancel t u x h =
      Bounded-IsStable.keeps t u x (held-Bounded Q Bounded (λ a. (st a).bounds) (λ _ b. b) r t h)

  -- A `finally` block that settles nothing.
  pub finally_triple :
      (P : Trace → Type 0) (Q : A → Trace → Type 0) (m : M A) (f : M (Unit {0}))
      → ((a : A) → IsStable (Q a))
      → Triple P m Q Bounded
      → Quiet f
      → Triple P (finally m f) Q Bounded
  unfolding finally
  finally_triple P Q m f st h q = record {
    run = λ s p.
        let (r, t) = m s in let (d, u) = f t in give-back-holds Q st r d t u (q.run t) (h.run s p);
  }

  pub if_triple :
      (P : Trace → Type 0) (Q : A → Trace → Type 0) (E : Trace → Type 0) (b : Bool) (m n : M A)
      → Triple P m Q E
      → Triple P n Q E
      → Triple P (if b then m else n) Q E
  if_triple P Q E true m n hm hn = hm
  if_triple P Q E false m n hm hn = hn

module _ {ℓ κ} {A : Type ℓ} {B : Type κ} where
  continue-holds :
      (Q : A → Trace → Type 0) (R : B → Trace → Type 0) (E : Trace → Type 0) (f : A → M B)
      → ((a : A) → Triple (Q a) (f a) R E)
      → (r : Result A) (t : Trace) → Holds Q E r t
      → Holds R E (continue f r t).0 (continue f r t).1
  unfolding continue
  continue-holds Q R E f h (ok a) t p = (h a).run t p
  continue-holds Q R E f h (fail e) t p = p
  continue-holds Q R E f h cancel t p = p

  pub bind_triple :
      (P : Trace → Type 0) (Q : A → Trace → Type 0) (R : B → Trace → Type 0) (E : Trace → Type 0)
      (m : M A) (f : A → M B)
      → Triple P m Q E
      → ((a : A) → Triple (Q a) (f a) R E)
      → Triple P (m >>= f) R E
  unfolding ◌>>=◌
  bind_triple P Q R E m f hm hf = record {
    run = λ s p. let (r, t) = m s in continue-holds Q R E f hf r t (hm.run s p);
  }

-- A quiet action, and what follows it.
module _ {ℓ κ} {A : Type ℓ} {B : Type κ} where
  pub after_quiet :
      (P : Trace → Type 0) (R : B → Trace → Type 0) (E : Trace → Type 0) (m : M A) (f : A → M B)
      → IsStable P
      → ((s : Trace) → P s → E s)
      → Quiet m
      → ((a : A) → Triple P (f a) R E)
      → Triple P (m >>= f) R E
  after_quiet P R E m f st pe q hf = bind_triple P (λ _. P) R E m f (quiet_triple P E m st pe q) hf

-- A call that delivers where it is answered, and settles nothing.
pub record IsDelivery (e : Effect) : Type 0 where
  pub quiet : (settles e ≡ 0) × ((b : Bool) → allowed e b ≡ true)
  pub delivery : (o : Outcome) → delivers e o ≡ completed o

-- What holds after a call with the outcome `o`, whose answer is not used.
abbrev pub finished : Outcome → M (Unit {0})
finished o = continue (λ _. pure tt) (answer o)

abbrev pub After : (Trace → Type 0) → (Trace → Type 0) → Outcome → Trace → Type 0
After P E o t = Holds (λ _. P) E (finished o t).0 (finished o t).1

module _ (e : Effect) (d : IsDelivery e) (s : Trace) (p : Fresh s) where
  delivery-holds : (o : Outcome) → After Handed Fresh o (record { effect = e; outcome = o } ∷ s)
  unfolding continue answer pure settled no_loss handed_over
  delivery-holds returned =
      ground (arith, d.quiet.0, d.quiet.1 (handed_over s), d.delivery returned)
  delivery-holds refused = ground (arith, d.quiet.0, d.quiet.1 (handed_over s), d.delivery refused)
  delivery-holds (manual_retry r) =
      ground (arith, d.quiet.0, d.quiet.1 (handed_over s), d.delivery (manual_retry r))
  delivery-holds cancelled = ground (arith, d.quiet.0, d.quiet.1 (handed_over s))
  delivery-holds (raised x) = ground (arith, d.quiet.0, d.quiet.1 (handed_over s))

module _ (s : Trace) where
  ack-holds :
      (o : Outcome) → Handed s → After Done Bounded o (record { effect = ack; outcome = o } ∷ s)
  unfolding continue answer pure settled no_loss
  ack-holds cancelled p = ground arith
  ack-holds (raised x) p = ground arith
  ack-holds _ p = ground arith

  reject-holds :
      (b : Bool) (o : Outcome)
      → Fresh s
      → After Done Bounded o (record { effect = reject b; outcome = o } ∷ s)
  unfolding continue answer pure settled no_loss
  reject-holds b cancelled p = ground arith
  reject-holds b (raised x) p = ground arith
  reject-holds b _ p = ground arith

module _ (env : Env) where
  -- A delivery that is answered hands the message over.
  pub delivery_triple :
      (e : Effect) → IsDelivery e → Triple Fresh (perform env e) (λ _. Handed) Fresh
  unfolding perform query ◌>>=◌
  delivery_triple e d = record { run = λ s p. delivery-holds e d s p (env.outcome s e) }

  pub ack_triple : Triple Handed (perform env ack) (λ _. Done) Bounded
  unfolding perform query ◌>>=◌
  ack_triple = record { run = λ s p. ack-holds s (env.outcome s ack) p }

  pub reject_triple : (b : Bool) → Triple Fresh (perform env (reject b)) (λ _. Done) Bounded
  unfolding perform query ◌>>=◌
  reject_triple b = record { run = λ s p. reject-holds s b (env.outcome s (reject b)) p }
