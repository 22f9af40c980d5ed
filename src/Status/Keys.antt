-- ===== src/Status/Keys.antt =====
-- The keys of one task's history (status/store.py).
use Prim.Native.String.{◌++◌}
use relayna.Redis.{eq-redis_key, eq-append, eq-apart}
use relayna.Status.{StatusStore, history_key, event_key, event_token, Json}
use relayna.Prelude.{String, ◌==◌, ◌≡◌, ◌∷◌, false, [], ◌∙◌, refl}
use relayna.Prelude.Text.{join}
use relayna.Prelude.Dict.{Dict}

module _ (t : StatusStore) (task_id : String) where
  open t use {hash_tag, prefix}

  pub event-event :
      (a b : Dict Json)
      → (event_key t task_id a == event_key t task_id b) ≡ (event_token t a == event_token t b)
  unfolding event_key join
  event-event a b =
      eq-redis_key hash_tag prefix ("status:" ++ task_id) ("event" ∷ task_id ∷ event_token t a ∷ [])
        ("event" ∷ task_id ∷ event_token t b ∷ [])
      ∙ eq-append "event" (":" ++ task_id ++ ":" ++ event_token t a)
          (":" ++ task_id ++ ":" ++ event_token t b)
      ∙ eq-append ":" (task_id ++ ":" ++ event_token t a) (task_id ++ ":" ++ event_token t b)
      ∙ eq-append task_id (":" ++ event_token t a) (":" ++ event_token t b)
      ∙ eq-append ":" (event_token t a) (event_token t b)

  pub event-history : (a : Dict Json) → (event_key t task_id a == history_key t task_id) ≡ false
  unfolding event_key history_key join
  event-history a =
      eq-redis_key hash_tag prefix ("status:" ++ task_id) ("event" ∷ task_id ∷ event_token t a ∷ [])
        ("history" ∷ task_id ∷ [])
      ∙ eq-apart "event" "history" (":" ++ task_id ++ ":" ++ event_token t a) (":" ++ task_id) refl

  pub history-event : (a : Dict Json) → (history_key t task_id == event_key t task_id a) ≡ false
  unfolding event_key history_key join
  history-event a =
      eq-redis_key hash_tag prefix ("status:" ++ task_id) ("history" ∷ task_id ∷ [])
        ("event" ∷ task_id ∷ event_token t a ∷ [])
      ∙ eq-apart "history" "event" (":" ++ task_id) (":" ++ task_id ++ ":" ++ event_token t a) refl
