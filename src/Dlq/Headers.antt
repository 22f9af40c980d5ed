-- ===== src/Dlq/Headers.antt =====
-- What the consumer reads from the headers of a replayed message (dlq/service.py).
use relayna.Dlq.{DlqRecord}
use relayna.Dlq.Replay.{keep_original, replay_headers}
use relayna.Consumer.Context.{retry_attempt_from_headers}
use relayna.Prelude.Dict.{Dict, get, get-put, dict_laws, put}
use relayna.Json.{Json, ℤ, number, pos}
use mathlib.Core.Option.{none, some}
use relayna.Prelude.{Option, String, ◌≡◌, ◌==◌, if◌then◌else◌, Bool, true, false, refl}

if_same : (b : Bool) (o : Option Json) → o ≡ (if b then o else o)
if_same true o = refl
if_same false o = refl

kept :
    (new j : String) (h : Dict Json) (o : Option Json)
    → get j (elim o as (λ _. Dict Json) [ none ↦ h | some v ↦ put new v h ])
      ≡ (if new == j then (elim o [ none ↦ get j h | some v ↦ some v ]) else get j h)
kept new j h none = if_same (new == j) (get j h)
kept new j h (some v) = get-put new j v h

get-keep_original :
    (old new j : String) (h : Dict Json)
    → get j (keep_original old new h)
      ≡ (if new == j then (elim (get old h) [ none ↦ get j h | some v ↦ some v ]) else get j h)
unfolding keep_original
get-keep_original old new j h = kept new j h (get old h)

-- The replay of a record with the headers of a retry, an attempt, a reason and an exception's type,
-- starts again at attempt 0, provided that `int` returns an `int` as it is, and has the attempt, the
-- reason and the type under the names of the originals.
pub replay_headers-attempt :
    (int : Json → Option ℤ) (r : DlqRecord) (replayed_at : String) (attempt reason exception : Json)
    → int (number (pos 0)) ≡ some (pos 0)
    → get "x-relayna-retry-attempt" r.headers ≡ some attempt
    → get "x-relayna-failure-reason" r.headers ≡ some reason
    → get "x-relayna-exception-type" r.headers ≡ some exception
    → let h = replay_headers r replayed_at in
      (retry_attempt_from_headers int h ≡ 0)
      × (get "x-relayna-original-retry-attempt" h ≡ some attempt)
      × (get "x-relayna-original-failure-reason" h ≡ some reason)
      × (get "x-relayna-original-exception-type" h ≡ some exception)
unfolding replay_headers retry_attempt_from_headers
replay_headers-attempt int r replayed_at attempt reason exception e a b c = (
  simp dict_laws (simp e),
  simp (dict_laws, get-keep_original, a),
  simp (dict_laws, get-keep_original, b),
  simp (dict_laws, get-keep_original, c),
)
