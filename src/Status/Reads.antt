-- ===== src/Status/Reads.antt =====
-- Reading the history of a task back (status/store.py).
use relayna.Status.{
  StatusStore, Faults, calm, set_history, get_history, get_latest, load_all, event_token, limit_of,
  Json, load_first, stop_before, history_key,
}
use relayna.Status.Log.{Log, Tracks, FeedIsElsewhere, attempted, window, applied, effect}
use relayna.Status.Attempts.{set_history-Tracks}
use mathlib.Core.Option.{none, some}
use relayna.Prelude.Dict.{Dict}
use relayna.Prelude.{
  String, ◌≡◌, ℕ, List, false, take, map, Option, ap, suc, ◌∷◌, ◌∙◌, zero, [], ◌-◌, refl, All, ◌≤◌,
  sym, arith,
}
use relayna.Redis.{trim}

take-map :
    (f : Dict Json → String) (k : ℕ) (l : List (Dict Json)) → take k (map f l) ≡ map f (take k l)
take-map f zero l = refl
take-map f (suc k) [] = refl
take-map f (suc k) (x ∷ l) = ap (λ r. f x ∷ r) (take-map f k l)

take-same : (k : ℕ) (l : List (Dict Json)) → take k (take k l) ≡ take k l
take-same zero l = refl
take-same (suc k) [] = refl
take-same (suc k) (x ∷ l) = ap (λ r. x ∷ r) (take-same k l)

take_first : (n : ℕ) (l : List (Dict Json)) → take 1 (take (suc n) l) ≡ take 1 l
take_first n [] = refl
take_first n (x ∷ l) = refl

module _ (t : StatusStore) where
  open t use {redis, dumps, loads, history_maxlen}
  open redis use {State, list}

  -- The event is read back from its text.
  abbrev pub IsLoaded : Dict Json → Type 0
  IsLoaded e = loads (dumps e) ≡ some e

  load_all-dumps :
      (events : List (Dict Json))
      → All IsLoaded events
      → load_all t (map dumps events) ≡ some events
  unfolding load_all
  load_all-dumps [] h = refl
  load_all-dumps (e ∷ events) (h, hs) = rw h (rw (load_all-dumps events hs) refl)

  take-IsLoaded :
      (k : ℕ) (events : List (Dict Json)) → All IsLoaded events → All IsLoaded (take k events)
  take-IsLoaded zero events h = tt
  take-IsLoaded (suc k) [] h = tt
  take-IsLoaded (suc k) (e ∷ events) (h, hs) = (h, take-IsLoaded k events hs)

  read_window :
      (task_id : String) (n k : ℕ) (s : State) (l : Log)
      → history_maxlen ≡ suc n
      → Tracks t task_id s l
      → All IsLoaded l.pushed
      → load_all t (take k (list s (history_key t task_id))) ≡ some (take k (take (suc n) l.pushed))
  unfolding stop_before
  read_window task_id n k s l h r loaded =
      ap (λ items. load_all t (take k items))
        (r.history
          ∙ ap (λ m. trim (stop_before m) (map dumps l.pushed)) h
          ∙ take-map dumps (suc n) l.pushed)
      ∙ ap (load_all t) (take-map dumps k (take (suc n) l.pushed))
      ∙ load_all-dumps (take k (take (suc n) l.pushed))
          (take-IsLoaded k (take (suc n) l.pushed) (take-IsLoaded (suc n) l.pushed loaded))

  -- If the server keeps the newest events of a log, which are read back from their texts, and the
  -- history may be of length 1 at least: without a limit `get_history` returns the newest
  -- `history_maxlen` events; with a limit of 1 at least, the newest of these, as many as the limit;
  -- and with the limit 0, the newest event.
  pub get_history-newest :
      (task_id : String) (n : ℕ) (s : State) (l : Log)
      → history_maxlen ≡ suc n
      → Tracks t task_id s l
      → All IsLoaded l.pushed
      → (get_history t task_id none s ≡ some (take history_maxlen l.pushed))
        × ((m : ℕ)
            → 1 ≤ m
            → get_history t task_id (some m) s ≡ some (take m (take history_maxlen l.pushed)))
        × (get_history t task_id (some 0) s ≡ some (take 1 l.pushed))
  unfolding get_history limit_of
  get_history-newest task_id n s l h r loaded = (
    asked history_maxlen (suc n) (omega (arith, h))
        ∙ read_window task_id n (suc n) s l h r loaded
        ∙ ap some (take-same (suc n) l.pushed)
        ∙ ap (λ m. some (take m l.pushed)) (sym h),
    λ m pos.
        asked m m (omega (arith, pos))
        ∙ read_window task_id n m s l h r loaded
        ∙ ap (λ k. some (take m (take k l.pushed))) (sym h),
    read_window task_id n 1 s l h r loaded ∙ ap some (take_first n l.pushed),
  )
    where
      asked :
          (j k : ℕ)
          → suc (j - 1) ≡ k
          → load_all t (take (suc (j - 1)) (list s (history_key t task_id)))
            ≡ load_all t (take k (list s (history_key t task_id)))
      asked j k e = ap (λ m. load_all t (take m (list s (history_key t task_id)))) e

  attempted-new :
      (f : Faults) (e : Dict Json) (l : Log)
      → l.known (event_token t e) ≡ false
      → attempted t f e l ≡ applied t (effect f) e l
  unfolding attempted
  attempted-new f e l unknown = rw unknown refl

  newest :
      (stop : Option ℕ) (e : Dict Json) (events : List String)
      → IsLoaded e
      → load_first t (trim stop (dumps e ∷ events)) ≡ some (some e)
  unfolding load_first
  newest none e events h = rw h refl
  newest (some n) e events h = rw h refl

  -- An event that is read back from its text, is new to the log and is stored without a failure is what `get_latest` returns,
  -- whatever the bound of the history.
  pub get_latest-set_history :
      (task_id : String) (e : Dict Json) (s : State) (l : Log)
      → FeedIsElsewhere t task_id
      → Tracks t task_id s l
      → l.known (event_token t e) ≡ false
      → IsLoaded e
      → get_latest t task_id (set_history t calm task_id e s).1 ≡ some (some e)
  unfolding get_latest
  get_latest-set_history task_id e s l feed r unknown loaded =
      let tracked = (set_history-Tracks t task_id feed calm e s l r).history in
      ap (load_first t)
        (tracked ∙ ap (λ (l' : Log). window t l'.pushed) (attempted-new calm e l unknown))
      ∙ newest (stop_before history_maxlen) e (map dumps l.pushed) loaded
