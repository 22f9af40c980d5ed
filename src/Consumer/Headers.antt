-- ===== src/Consumer/Headers.antt =====
-- What the next delivery of a retried message reads from its headers.
use relayna.Consumer.Context.{
  retry_headers, retry_attempt_from_headers, retry_priority, RetryPolicy,
}
use relayna.Prelude.Dict.{Dict, dict_laws}
use relayna.Json.{Json, ℤ, number, pos}
use relayna.Prelude.{Option, String, ℕ, ◌≡◌, some, ◌≤◌, arith, none}

-- The attempt that a retry writes is the attempt that its redelivery reads, whatever headers the
-- message had before, provided that `int` returns an `int` as it is.
pub retry_attempt-headers :
    (int : Json → Option ℤ) (h extra : Dict Json) (queue reason : String) (n limit : ℕ)
    (x : Option String)
    → int (number (pos n)) ≡ some (pos n)
    → retry_attempt_from_headers int (retry_headers h queue n limit reason x extra) ≡ n
unfolding retry_attempt_from_headers retry_headers
retry_attempt-headers int h extra queue reason n limit x e = simp dict_laws (simp e)

-- A priority is never above 255, AMQP's highest.
pub retry_priority-le : (p : Option RetryPolicy) (n k : ℕ) → retry_priority p n ≡ some k → k ≤ 255
unfolding retry_priority
retry_priority-le none n k e = cc
retry_priority-le (some p) n k e = ground arith
