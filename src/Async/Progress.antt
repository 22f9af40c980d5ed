-- ===== src/Async/Progress.antt =====
-- `map_bounded` ends: every effective step lowers a measure, and there is one until every worker ends.
use relayna.Async.{
  Worker, ready, done, busy, Pool, Step, is_done, take_step, proceed_worker, return_worker,
  raise_worker, proceed, call_returns, call_raises,
}
use relayna.Prelude.{
  ◌≡◌, ◌∷◌, ℕ, List, ◌+◌, get_elem?, all, ◌*◌, ◌⊎◌, Option, [], some, false, length, true, inl,
  set_at, inr, ◌-◌, ◌<◌, ap, suc, if-cases, arith, none, some-eq, ltb, refl, zero,
}

-- How many steps a worker still takes with the item that it has.
abbrev to_go : Worker → ℕ
to_go done = 0
to_go ready = 1
to_go (busy k) = 2

abbrev total_to_go : List Worker → ℕ
total_to_go [] = 0
total_to_go (w ∷ ws) = to_go w + total_to_go ws

total-set_at :
    (ws : List Worker) (i : ℕ) (w v : Worker)
    → get_elem? ws i ≡ some v
    → total_to_go (set_at i w ws) + to_go v ≡ total_to_go ws + to_go w
total-set_at [] i w v e = cc
total-set_at (x ∷ ws) zero w v e = let eq = ap to_go (some-eq e) in omega arith
total-set_at (x ∷ ws) (suc i) w v e = omega (arith, total-set_at ws i w v e)

-- A worker that has not ended, with its place.
unended :
    (ws : List Worker)
    → all is_done ws ≡ false
    → (i : ℕ) × ((get_elem? ws i ≡ some ready) ⊎ ((k : ℕ) × (get_elem? ws i ≡ some (busy k))))
unended [] h = cc
unended (ready ∷ ws) h = (0, inl refl)
unended (busy k ∷ ws) h = (0, inr (k, refl))
unended (done ∷ ws) h = let (i, e) = unended ws h in (suc i, e)

module _ {ℓ} {A B : Type ℓ} (f : A → B) (items : List A) where
  abbrev pub remaining : Pool B → ℕ
  remaining s = 2 * (length items - s.next_index) + total_to_go s.workers

  -- What a step does: nothing, a failure, or progress.
  abbrev pub Advances : Pool B → Pool B → Type ℓ
  Advances s t = (t ≡ s) ⊎ ((t.failed ≡ true) ⊎ (remaining t < remaining s))

  proceed_less :
      (s : Pool B) (i : ℕ)
      → get_elem? s.workers i ≡ some ready
      → remaining (proceed_worker f items s i (some ready)) < remaining s
  unfolding proceed_worker
  proceed_less s i e =
      if-cases (λ (t : Pool B). remaining t < remaining s) (ltb s.next_index (length items)) _ _
        (λ lt.
          let l : s.next_index < length items = ground (arith, lt) in
          omega (arith, l, total-set_at s.workers i (busy s.next_index) ready e))
        (λ _. omega (arith, total-set_at s.workers i done ready e))

  return_less :
      (s : Pool B) (i k : ℕ)
      → get_elem? s.workers i ≡ some (busy k)
      → remaining (return_worker f items s i (some (busy k))) < remaining s
  unfolding return_worker
  return_less s i k e = omega (arith, total-set_at s.workers i ready (busy k) e)

  proceed-Advances :
      (s : Pool B) (i : ℕ) (w : Option Worker)
      → get_elem? s.workers i ≡ w
      → Advances s (proceed_worker f items s i w)
  unfolding proceed_worker
  proceed-Advances s i none e = inl refl
  proceed-Advances s i (some done) e = inl refl
  proceed-Advances s i (some (busy k)) e = inl refl
  proceed-Advances s i (some ready) e = inr (inr (proceed_less s i e))

  return-Advances :
      (s : Pool B) (i : ℕ) (w : Option Worker)
      → get_elem? s.workers i ≡ w
      → Advances s (return_worker f items s i w)
  unfolding return_worker
  return-Advances s i none e = inl refl
  return-Advances s i (some done) e = inl refl
  return-Advances s i (some ready) e = inl refl
  return-Advances s i (some (busy k)) e = inr (inr (return_less s i k e))

  raise-Advances : (s : Pool B) (w : Option Worker) → Advances s (raise_worker f s w)
  unfolding raise_worker
  raise-Advances s none = inl refl
  raise-Advances s (some done) = inl refl
  raise-Advances s (some ready) = inl refl
  raise-Advances s (some (busy k)) = inr (inl refl)

  each_step : (s : Pool B) (a : Step) → Advances s (take_step f items s a)
  unfolding take_step
  each_step s (proceed i) = proceed-Advances s i (get_elem? s.workers i) refl
  each_step s (call_returns i) = return-Advances s i (get_elem? s.workers i) refl
  each_step s (call_raises i) = raise-Advances s (get_elem? s.workers i)

  next_step :
      (s : Pool B)
      → all is_done s.workers ≡ false
      → (a : Step) × (remaining (take_step f items s a) < remaining s)
  unfolding take_step
  next_step s h =
      let (i, w) = unended s.workers h in
      elim w [
        | inl e ↦ (proceed i, rw e (proceed_less s i e))
        | inr (k, e) ↦ (call_returns i, rw e (return_less s i k e))
      ]

  -- Every step changes nothing, fails the call, or lowers the number of steps that remain; and while
  -- some worker has not ended there is a step that lowers it. So a run whose workers all get their
  -- turn ends.
  pub take_step-Advances :
      (s : Pool B)
      → ((a : Step) → Advances s (take_step f items s a))
        × (all is_done s.workers ≡ false
            → (a : Step) × (remaining (take_step f items s a) < remaining s))
  unfolding take_step
  take_step-Advances s = (each_step s, next_step s)
