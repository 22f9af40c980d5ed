-- ===== src/Async/Gathering.antt =====
-- What `map_bounded` returns, how many calls it awaits at a time, and that it ends.
use relayna.Async.{
  Worker, ready, done, busy, Pool, Step, is_done, answer_of, start, take_step, take_steps, gathered,
  repeat, proceed_worker, return_worker, raise_worker, proceed, call_returns, call_raises,
}
use relayna.Async.Ordering.{IsOrdered, steps-IsOrdered, is_busy, length-set_at}
use relayna.Prelude.{
  ◌≡◌, ◌∷◌, ℕ, Bool, List, length, false, all, ◌<◌, Option, min, suc, any, true, get_elem?, none,
  ap, arith, [], some, zero, map, refl, ap₂, some-eq, if-cases, ◌≤◌, ltb, ◌∙◌, inl, inr, count,
  if◌then◌else◌, not, ◌&&◌, sym,
}

length-repeat {ℓ} : {A : Type ℓ} (n : ℕ) (a : A) → length (repeat n a) ≡ n
unfolding repeat
length-repeat zero a = refl
length-repeat (suc n) a = ap suc (length-repeat n a)

any-repeat : (p : Worker → Bool) (n : ℕ) → p ready ≡ false → any p (repeat n ready) ≡ false
unfolding repeat
any-repeat p zero h = refl
any-repeat p (suc n) h = ground (arith, h, any-repeat p n h)

none_busy : (k : ℕ) (ws : List Worker) → all is_done ws ≡ true → any (is_busy k) ws ≡ false
none_busy k [] h = refl
none_busy k (done ∷ ws) h = none_busy k ws h
none_busy k (ready ∷ ws) h = cc
none_busy k (busy n ∷ ws) h = cc

some_done : (ws : List Worker) → 0 < length ws → all is_done ws ≡ true → any is_done ws ≡ true
some_done [] lt h = absurd (omega arith)
some_done (done ∷ ws) lt h = refl
some_done (ready ∷ ws) lt h = cc
some_done (busy n ∷ ws) lt h = cc

abbrev pub is_awaiting : Worker → Bool
is_awaiting (busy k) = true
is_awaiting _ = false

count-le : (p : Worker → Bool) (ws : List Worker) → count p ws ≤ length ws
count-le p [] = omega arith
count-le p (w ∷ ws) = ground (arith, count-le p ws)

given {ℓ} :
    {A : Type ℓ} (b : Bool) (x y : A) → (if b then some x else none) ≡ some y → (b ≡ true) × (x ≡ y)
given true x y h = (refl, some-eq h)
given false x y h = cc

module _ {ℓ} {A B : Type ℓ} (f : A → B) where
  -- A list that agrees with the answers at every index is the list of the answers.
  all_answered :
      (items : List A) (results : List (Option B))
      → length results ≡ length items
      → ((k : ℕ) → k < length items → get_elem? results k ≡ some (answer_of f (get_elem? items k)))
      → results ≡ map (λ a. some (f a)) items
  all_answered [] [] e h = refl
  all_answered [] (r ∷ rs) e h = absurd (omega arith)
  all_answered (a ∷ items) [] e h = absurd (omega arith)
  all_answered (a ∷ items) (r ∷ rs) e h =
      ap₂ (λ x xs. x ∷ xs) (some-eq (h 0 (omega arith)))
        (all_answered items rs (omega arith) (λ k lt. h (suc k) (omega arith)))

  start-IsOrdered : (items : List A) (c : ℕ) → IsOrdered f items (start f items c)
  unfolding start
  start-IsOrdered items c =
      let m = min c (length items) in
      record {
        results_len = length-repeat (length items) none;
        next_le = omega arith;
        filled = λ k h. absurd (omega arith);
        busy_lt = λ k h. cc (h, any-repeat (is_busy k) m refl);
        ended = λ h. cc (h, any-repeat is_done m refl);
      }

  module _ (items : List A) where
    proceed-workers :
        (s : Pool B) (i : ℕ) (w : Option Worker)
        → length (proceed_worker f items s i w).workers ≡ length s.workers
    unfolding proceed_worker
    proceed-workers s i none = refl
    proceed-workers s i (some done) = refl
    proceed-workers s i (some (busy k)) = refl
    proceed-workers s i (some ready) =
        if-cases (λ (t : Pool B). length t.workers ≡ length s.workers)
          (ltb s.next_index (length items)) _ _ (λ _. length-set_at s.workers i (busy s.next_index))
          (λ _. length-set_at s.workers i done)

    return-workers :
        (s : Pool B) (i : ℕ) (w : Option Worker)
        → length (return_worker f items s i w).workers ≡ length s.workers
    unfolding return_worker
    return-workers s i none = refl
    return-workers s i (some done) = refl
    return-workers s i (some ready) = refl
    return-workers s i (some (busy k)) = length-set_at s.workers i ready

    raise-workers : (s : Pool B) (w : Option Worker) → (raise_worker f s w).workers ≡ s.workers
    unfolding raise_worker
    raise-workers s none = refl
    raise-workers s (some done) = refl
    raise-workers s (some ready) = refl
    raise-workers s (some (busy k)) = refl

    step-workers :
        (s : Pool B) (a : Step) → length (take_step f items s a).workers ≡ length s.workers
    unfolding take_step
    step-workers s (proceed i) = proceed-workers s i (get_elem? s.workers i)
    step-workers s (call_returns i) = return-workers s i (get_elem? s.workers i)
    step-workers s (call_raises i) = ap length (raise-workers s (get_elem? s.workers i))

    steps-workers :
        (s : Pool B) (as' : List Step)
        → length (take_steps f items s as').workers ≡ length s.workers
    unfolding take_steps
    steps-workers s [] = refl
    steps-workers s (a ∷ as') =
        if-cases (λ (t : Pool B). length t.workers ≡ length s.workers) s.failed _ _ (λ _. refl)
          (λ _. steps-workers (take_step f items s a) as' ∙ step-workers s a)

    start-workers : (c : ℕ) → length (start f items c).workers ≡ min c (length items)
    unfolding start
    start-workers c = length-repeat (min c (length items)) ready

    finished :
        (s : Pool B) (c : ℕ)
        → 1 ≤ c
        → length s.workers ≡ min c (length items)
        → IsOrdered f items s
        → all is_done s.workers ≡ true
        → s.results ≡ map (λ a. some (f a)) items
    finished s c one len v over = all_answered items s.results v.results_len (λ k lt.
        let next : length items ≤ s.next_index =
          v.ended (some_done s.workers (omega (arith, len, lt, one)) over) in
        elim (v.filled k (omega arith)) [
          | inl a ↦ a
          | inr b ↦ absurd (cc (b, none_busy k s.workers over))
        ])

    gathered-done :
        (s : Pool B) (rs : List (Option B))
        → gathered f s ≡ some rs
        → (all is_done s.workers ≡ true) × (s.results ≡ rs)
    unfolding gathered
    gathered-done s rs h =
        let (b, e) = given (not s.failed && all is_done s.workers) s.results rs h in
        (ground (arith, b), e)

    -- For every interleaving of the workers that ends with a result, the result is the list of the
    -- answers in the order of the items; and at no time are there more than `concurrency` workers, so
    -- no more than `concurrency` calls are awaited together.
    pub map_bounded-order :
        (concurrency : ℕ) (steps : List Step)
        → 1 ≤ concurrency
        → let s = take_steps f items (start f items concurrency) steps in
          ((rs : List (Option B)) → gathered f s ≡ some rs → rs ≡ map (λ a. some (f a)) items)
          × (count is_awaiting s.workers ≤ concurrency)
    map_bounded-order c steps one =
        let s = take_steps f items (start f items c) steps in
        let len : length s.workers ≡ min c (length items) =
          steps-workers (start f items c) steps ∙ start-workers c in
        let v = steps-IsOrdered f items (start f items c) steps (start-IsOrdered items c) in
        (
          λ rs h. let (over, e) = gathered-done s rs h in sym e ∙ finished s c one len v over,
          omega (arith, len, count-le is_awaiting s.workers),
        )
