-- ===== src/Status/History.antt =====
-- The history of a task after any attempts to store its events (status/store.py).
use relayna.Status.{StatusStore, Faults, set_history, event_token, Json}
use relayna.Status.Log.{
  Log, Tracks, FeedIsElsewhere, attempted, applied, Effect, nothing, marks, pushes, repeats, effect,
}
use relayna.Status.Attempts.{set_history-Tracks}
use relayna.Prelude.{
  Bool, [], String, List, true, false, ℕ, count, ◌≡◌, ◌==◌, ◌∷◌, Bool-cases, arith, if-cases, All,
  inl, ◌∙◌, refl, ap, sym, eq_iff, inr, if◌then◌else◌,
}
use relayna.Prelude.Dict.{Dict}

pub record Attempt : Type 0 where
  pub faults : Faults
  pub event : Dict Json

abbrev pub nothing_pushed : Log
nothing_pushed = record { pushed = []; known = λ token. false }

module _ (t : StatusStore) where
  open t use {redis, dumps, loads, history_maxlen}
  open redis use {State, value, list}

  -- Attempts one after the other.
  unfoldable pub set_all : String → List Attempt → State → State
  unfolding set_history
  set_all task_id [] s = s
  set_all task_id (a ∷ attempts) s =
      set_all task_id attempts (set_history t a.faults task_id a.event s).1

  unfoldable pub attempted_all : List Attempt → Log → Log
  unfolding attempted
  attempted_all [] l = l
  attempted_all (a ∷ attempts) l = attempted_all attempts (attempted t a.faults a.event l)

  -- If the service event store writes to other keys and the server keeps a log: after any attempts to
  -- store any events of the task, in each of which any calls fail by an exception or a cancellation,
  -- before or after they reach the server, the history on the server is the window of the newest
  -- `history_maxlen` events of the log, and the markers are the log's.
  pub set_all-Tracks :
      (task_id : String) (attempts : List Attempt) (s : State) (l : Log)
      → FeedIsElsewhere t task_id
      → Tracks t task_id s l
      → Tracks t task_id (set_all task_id attempts s) (attempted_all attempts l)
  unfolding set_all attempted_all
  set_all-Tracks task_id [] s l feed r = r
  set_all-Tracks task_id (a ∷ attempts) s l feed r =
      set_all-Tracks task_id attempts _ (attempted t a.faults a.event l) feed
        (set_history-Tracks t task_id feed a.faults a.event s l r)

  -- How often an event with this token was pushed.
  abbrev pub times : String → List (Dict Json) → ℕ
  times token events = count (λ e. event_token t e == token) events

  -- Whether the first attempt at a token that leaves a marker pushes its event.
  abbrev pub pushes_first : Effect → Bool → Bool
  pushes_first nothing later = later
  pushes_first marks later = false
  pushes_first pushes later = true
  pushes_first repeats later = later

  abbrev pub is_pushed : String → List Attempt → Bool
  is_pushed token [] = false
  is_pushed token (a ∷ attempts) =
      let later = is_pushed token attempts in
      if event_token t a.event == token then pushes_first (effect a.faults) later else later

  abbrev pub is_repeated : Effect → Bool
  is_repeated repeats = true
  is_repeated _ = false

  abbrev pub one_if : Bool → ℕ
  one_if true = 1
  one_if false = 0

  -- How often a token is pushed in the end, by whether it is marked and what comes later.
  abbrev ends : Log → String → Bool → ℕ
  ends l token later = if l.known token then times token l.pushed else one_if later

  -- Before its marker, a token was not pushed.
  abbrev IsFresh : Log → String → Type 0
  IsFresh l token = l.known token ≡ false → times token l.pushed ≡ 0

  module _ (e : Dict Json) (l : Log) (token : String) (fresh : IsFresh l token) where
    module _ (unknown : l.known (event_token t e) ≡ false) where
      unmarked : (event_token t e == token) ≡ true → l.known token ≡ false
      unmarked same = ap l.known (sym ((eq_iff (event_token t e) token).0 same)) ∙ unknown

      applied-IsFresh : (x : Effect) → is_repeated x ≡ false → IsFresh (applied t x e l) token
      applied-IsFresh nothing h k = fresh k
      applied-IsFresh repeats h k = absurd (cc h)
      applied-IsFresh marks h k = elim (Bool-cases (event_token t e == token)) [
        | inl same ↦ absurd (ground (arith, same, k))
        | inr other ↦ fresh (ground (arith, other, k))
      ]
      applied-IsFresh pushes h k = elim (Bool-cases (event_token t e == token)) [
        | inl same ↦ absurd (ground (arith, same, k))
        | inr other ↦ ground (arith, other, k, fresh)
      ]

      applied-ends :
          (x : Effect) (later : Bool)
          → is_repeated x ≡ false
          → ends (applied t x e l) token later
            ≡ ends l token (if event_token t e == token then pushes_first x later else later)
      applied-ends x later h = elim (Bool-cases (event_token t e == token)) [
        | inl same ↦ same_ends x h same (unmarked same) (fresh (unmarked same))
        | inr other ↦ other_ends x h other
      ]
        where
          same_ends :
              (x : Effect)
              → is_repeated x ≡ false
              → (event_token t e == token) ≡ true
              → l.known token ≡ false
              → times token l.pushed ≡ 0
              → ends (applied t x e l) token later
                ≡ ends l token (if event_token t e == token then pushes_first x later else later)
          same_ends nothing h same k z = ground (arith, same, k, z)
          same_ends repeats h same k z = absurd (cc h)
          same_ends marks h same k z = ground (arith, same, k, z)
          same_ends pushes h same k z = ground (arith, same, k, z)

          other_ends :
              (x : Effect)
              → is_repeated x ≡ false
              → (event_token t e == token) ≡ false
              → ends (applied t x e l) token later
                ≡ ends l token (if event_token t e == token then pushes_first x later else later)
          other_ends nothing h other = ground (arith, other)
          other_ends repeats h other = absurd (cc h)
          other_ends marks h other = ground (arith, other)
          other_ends pushes h other = ground (arith, other)

    -- One attempt.
    abbrev Attempted : Faults → Log → Type 0
    Attempted f l' =
        IsFresh l' token
        × ((later : Bool)
            → ends l' token later
              ≡ ends l token
                  (if event_token t e == token then pushes_first (effect f) later else later))

    attempted-ends : (f : Faults) → is_repeated (effect f) ≡ false → Attempted f (attempted t f e l)
    unfolding attempted
    attempted-ends f h =
        if-cases (Attempted f) (l.known (event_token t e)) l (applied t (effect f) e l)
          (λ k. (
            fresh,
            λ later. elim (Bool-cases (event_token t e == token)) [
              | inl same ↦
                  let there = ap l.known (sym ((eq_iff (event_token t e) token).0 same)) ∙ k in
                  ground (arith, there)
              | inr other ↦ ground (arith, other)
            ],
          ))
          (λ u. (applied-IsFresh u (effect f) h, λ later. applied-ends u (effect f) later h))

  attempted_all-times :
      (attempts : List Attempt) (l : Log) (token : String)
      → All (λ a. is_repeated (effect a.faults) ≡ false) attempts
      → IsFresh l token
      → times token (attempted_all attempts l).pushed ≡ ends l token (is_pushed token attempts)
  unfolding attempted_all
  attempted_all-times [] l token h fresh = elim (Bool-cases (l.known token)) [
    | inl k ↦ ground (arith, k)
    | inr k ↦ ground (arith, k, fresh k)
  ]
  attempted_all-times (a ∷ attempts) l token (h, hs) fresh =
      let (fresh', e) = attempted-ends a.event l token fresh a.faults h in
      attempted_all-times attempts (attempted t a.faults a.event l) token hs fresh'
      ∙ e (is_pushed token attempts)

  -- If the service event store writes to other keys: from an empty history and no markers, after any attempts, in each of which any calls fail by an
  -- exception or a cancellation, before or after they reach the server, but none whose push reaches
  -- it, raises and then has the marker deleted: the server keeps the newest events of a log that has
  -- an event once if the first attempt at it that leaves a marker pushes it, however often it is
  -- repeated. It does not have the event at all if no attempt leaves a marker, or the first that does
  -- ends between SET NX and the push, or in a push that does not reach the server and whose marker
  -- is not deleted.
  pub set_all-once :
      (task_id : String) (attempts : List Attempt) (s : State)
      → FeedIsElsewhere t task_id
      → Tracks t task_id s nothing_pushed
      → All (λ a. is_repeated (effect a.faults) ≡ false) attempts
      → (l : Log) × Tracks t task_id (set_all task_id attempts s) l
        × ((token : String) → times token l.pushed ≡ one_if (is_pushed token attempts))
  set_all-once task_id attempts s feed r h = (
    attempted_all attempts nothing_pushed,
    set_all-Tracks task_id attempts s nothing_pushed feed r,
    λ token. attempted_all-times attempts nothing_pushed token h (λ k. refl),
  )
