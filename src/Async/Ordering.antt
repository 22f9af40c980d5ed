-- ===== src/Async/Ordering.antt =====
-- `map_bounded` returns the answers in the order of the items, whatever the interleaving.
use relayna.Async.{
  Worker, busy, Pool, is_done, answer_of, ready, done, proceed_worker, return_worker, raise_worker,
  take_step, take_steps, Step, proceed, call_returns, call_raises,
}
use relayna.Prelude.{
  ◌≡◌, ◌∷◌, ℕ, Bool, List, nat_eq, get_elem?, length, ◌<◌, false, some, set_at, ◌≤◌, any, suc,
  if◌then◌else◌, ◌⊎◌, ◌||◌, ap, arith, true, some-eq, [], zero, refl, ◌+◌, Bool-cases, ◌∙◌, inl,
  inr, sym, Option, if-cases, none, ltb,
}

abbrev pub is_busy : ℕ → Worker → Bool
is_busy k (busy n) = nat_eq n k
is_busy k _ = false

any-set_at :
    (p : Worker → Bool) (ws : List Worker) (i : ℕ) (w v : Worker)
    → get_elem? ws i ≡ some v
    → p v ≡ false
    → any p (set_at i w ws) ≡ (any p ws || p w)
any-set_at p [] i w v e h = cc
any-set_at p (x ∷ ws) zero w v e h = ground (arith, ap p (some-eq e), h)
any-set_at p (x ∷ ws) (suc i) w v e h = ground (arith, any-set_at p ws i w v e h)

pub length-set_at {ℓ} :
    {A : Type ℓ} (xs : List A) (i : ℕ) (x : A) → length (set_at i x xs) ≡ length xs
length-set_at [] i x = refl
length-set_at (y ∷ xs) zero x = refl
length-set_at (y ∷ xs) (suc i) x = ap suc (length-set_at xs i x)

get-set_at {ℓ} :
    {A : Type ℓ} (xs : List A) (i j : ℕ) (x : A)
    → i < length xs
    → get_elem? (set_at i x xs) j ≡ (if nat_eq i j then some x else get_elem? xs j)
get-set_at [] i j x h = absurd (omega arith)
get-set_at (y ∷ xs) zero zero x h = ground arith
get-set_at (y ∷ xs) zero (suc j) x h = ground arith
get-set_at (y ∷ xs) (suc i) zero x h = ground arith
get-set_at (y ∷ xs) (suc i) (suc j) x h = ground (arith, get-set_at xs i j x (omega arith))

any-get :
    (p : Worker → Bool) (ws : List Worker) (i : ℕ) (v : Worker)
    → get_elem? ws i ≡ some v
    → p v ≡ true
    → any p ws ≡ true
any-get p [] i v e h = cc
any-get p (x ∷ ws) zero v e h = ground (arith, ap p (some-eq e), h)
any-get p (x ∷ ws) (suc i) v e h = ground (arith, any-get p ws i v e h)

or_false : (b : Bool) → (b || false) ≡ true → b ≡ true
or_false true h = refl
or_false false h = h

module _ {ℓ} {A B : Type ℓ} (f : A → B) (items : List A) where
  -- Every index that was handed out has its answer or a worker that awaits it.
  pub record IsOrdered (s : Pool B) : Type ℓ where
    pub results_len : length s.results ≡ length items
    pub next_le : s.next_index ≤ length items
    pub filled :
        (k : ℕ)
        → k < s.next_index
        → (get_elem? s.results k ≡ some (answer_of f (get_elem? items k)))
          ⊎ (any (is_busy k) s.workers ≡ true)
    pub busy_lt : (k : ℕ) → any (is_busy k) s.workers ≡ true → k < s.next_index
    pub ended : any is_done s.workers ≡ true → length items ≤ s.next_index

  took :
      (k : ℕ) (s : Pool B)
      → (any (is_busy k) s.workers || nat_eq s.next_index k) ≡ true
      → IsOrdered s
      → k < s.next_index + 1
  took k s h v = elim (Bool-cases (nat_eq s.next_index k)) [
    | inl q ↦ ground (arith, q)
    | inr q ↦ let lt = v.busy_lt k (ground (arith, q, h)) in omega arith
  ]

  stays :
      (s : Pool B)
      → (any is_done s.workers || false) ≡ true
      → IsOrdered s
      → length items ≤ s.next_index + 1
  stays s h v = let le = v.ended (or_false _ h) in omega arith

  take_item :
      (s : Pool B) (i : ℕ)
      → get_elem? s.workers i ≡ some ready
      → s.next_index < length items
      → IsOrdered s
      → IsOrdered (record s {
        next_index = s.next_index + 1;
        workers = set_at i (busy s.next_index) s.workers;
      })
  take_item s i e lt v = record {
    results_len = v.results_len;
    next_le = omega arith;
    filled = λ k h. elim (Bool-cases (nat_eq s.next_index k)) [
      | inl q ↦
          inr (
            any-set_at (is_busy k) s.workers i (busy s.next_index) ready e refl ∙ ground (arith, q))
      | inr q ↦ elim (v.filled k (ground (arith, q, h))) [
        | inl a ↦ inl a
        | inr b ↦
            inr (any-set_at (is_busy k) s.workers i (busy s.next_index) ready e refl ∙ rw b refl)
      ]
    ];
    busy_lt = λ k h.
        took k s (sym (any-set_at (is_busy k) s.workers i (busy s.next_index) ready e refl) ∙ h) v;
    ended =
        λ h. stays s (sym (any-set_at is_done s.workers i (busy s.next_index) ready e refl) ∙ h) v;
  }

  -- A worker without an item ends its loop.
  end_loop :
      (s : Pool B) (i : ℕ)
      → get_elem? s.workers i ≡ some ready
      → length items ≤ s.next_index
      → IsOrdered s
      → IsOrdered (record s { workers = set_at i done s.workers })
  end_loop s i e le v = record {
    results_len = v.results_len;
    next_le = v.next_le;
    filled = λ k h. elim (v.filled k h) [
      | inl a ↦ inl a
      | inr b ↦ inr (any-set_at (is_busy k) s.workers i done ready e refl ∙ rw b refl)
    ];
    busy_lt = λ k h.
        v.busy_lt k (or_false _ (sym (any-set_at (is_busy k) s.workers i done ready e refl) ∙ h));
    ended = λ h. le;
  }

  store_answer :
      (s : Pool B) (i k : ℕ)
      → get_elem? s.workers i ≡ some (busy k)
      → IsOrdered s
      → IsOrdered (record s {
        results = set_at k (answer_of f (get_elem? items k)) s.results;
        workers = set_at i ready s.workers;
      })
  store_answer s i k e v =
      let lt = v.busy_lt k (any-get (is_busy k) s.workers i (busy k) e (ground arith)) in
      let x = answer_of f (get_elem? items k) in
      let room : k < length s.results = omega (arith, v.results_len, v.next_le, lt) in
      record {
        results_len = length-set_at s.results k x ∙ v.results_len;
        next_le = v.next_le;
        filled = λ j h. elim (Bool-cases (nat_eq k j)) [
          | inl q ↦
              let eq : k ≡ j = ground (arith, q) in
              inl (
                get-set_at s.results k j x room
                ∙ rw q (ap (λ z. some (answer_of f (get_elem? items z))) eq))
          | inr q ↦ elim (v.filled j h) [
            | inl a ↦ inl (get-set_at s.results k j x room ∙ rw q a)
            | inr b ↦ inr (any-set_at (is_busy j) s.workers i ready (busy k) e q ∙ rw b refl)
          ]
        ];
        busy_lt = λ j h. elim (Bool-cases (nat_eq k j)) [
          | inl q ↦ let eq : k ≡ j = ground (arith, q) in omega arith
          | inr q ↦
              v.busy_lt j
                (or_false _ (sym (any-set_at (is_busy j) s.workers i ready (busy k) e q) ∙ h))
        ];
        ended = λ h.
            v.ended (or_false _ (sym (any-set_at is_done s.workers i ready (busy k) e refl) ∙ h));
      }

  proceed-IsOrdered :
      (s : Pool B) (i : ℕ) (w : Option Worker)
      → get_elem? s.workers i ≡ w
      → IsOrdered s
      → IsOrdered (proceed_worker f items s i w)
  unfolding proceed_worker
  proceed-IsOrdered s i none e v = v
  proceed-IsOrdered s i (some done) e v = v
  proceed-IsOrdered s i (some (busy k)) e v = v
  proceed-IsOrdered s i (some ready) e v =
      if-cases IsOrdered (ltb s.next_index (length items)) _ _
        (λ lt. take_item s i e (ground arith) v) (λ ge. end_loop s i e (ground arith) v)

  return-IsOrdered :
      (s : Pool B) (i : ℕ) (w : Option Worker)
      → get_elem? s.workers i ≡ w
      → IsOrdered s
      → IsOrdered (return_worker f items s i w)
  unfolding return_worker
  return-IsOrdered s i none e v = v
  return-IsOrdered s i (some done) e v = v
  return-IsOrdered s i (some ready) e v = v
  return-IsOrdered s i (some (busy k)) e v = store_answer s i k e v

  raise-IsOrdered : (s : Pool B) (w : Option Worker) → IsOrdered s → IsOrdered (raise_worker f s w)
  unfolding raise_worker
  raise-IsOrdered s none v = v
  raise-IsOrdered s (some done) v = v
  raise-IsOrdered s (some ready) v = v
  raise-IsOrdered s (some (busy k)) v = record {
    results_len = v.results_len;
    next_le = v.next_le;
    filled = v.filled;
    busy_lt = v.busy_lt;
    ended = v.ended;
  }

  step-IsOrdered : (s : Pool B) (a : Step) → IsOrdered s → IsOrdered (take_step f items s a)
  unfolding take_step
  step-IsOrdered s (proceed i) v = proceed-IsOrdered s i (get_elem? s.workers i) refl v
  step-IsOrdered s (call_returns i) v = return-IsOrdered s i (get_elem? s.workers i) refl v
  step-IsOrdered s (call_raises i) v = raise-IsOrdered s (get_elem? s.workers i) v

  pub steps-IsOrdered :
      (s : Pool B) (as' : List Step) → IsOrdered s → IsOrdered (take_steps f items s as')
  unfolding take_steps
  steps-IsOrdered s [] v = v
  steps-IsOrdered s (a ∷ as') v =
      if-cases IsOrdered s.failed _ _ (λ _. v)
        (λ _. steps-IsOrdered (take_step f items s a) as' (step-IsOrdered s a v))
