-- ===== src/Examples/Serial.antt =====
-- A text for a lease, to show that pydantic's texts can be what the lease store relies on
-- (storage/task_lease_store.py): every field in turn, a character of a field after an "x".
use relayna.Prelude.Options.{◌>>=◌}
use Prim.Native.Char.{Char, code}
use mathlib.Core.Option.{Option, none, some}
use mathlib.Core.Path.{◌≡◌, refl}
use relayna.Prelude.{Bool, String, ℕ, nat_eq, if◌then◌else◌, suc, zero, ap, ◌∙◌}
use relayna.Storage.{
  LeaseRecoveryAction, TaskLease, Codec, observe_only, publish_stale_status, requeue, retry,
  dead_letter,
}

abbrev mark : Char
mark = "x"

abbrev stop : Char
stop = "."

abbrev is_mark : Char → Bool
is_mark c = nat_eq (code c) (code mark)

-- A text before the rest, and back.
put_text : String → String → String
put_text String.[] rest = String.◌∷◌ stop rest
put_text (String.◌∷◌ c s) rest = String.◌∷◌ mark (String.◌∷◌ c (put_text s rest))

prepend_to : Char → Option (String × String) → Option (String × String)
prepend_to c none = none
prepend_to c (some (s, rest)) = some (String.◌∷◌ c s, rest)

get_text : String → Option (String × String)
unfolding prepend_to
get_text String.[] = none
get_text (String.◌∷◌ m String.[]) = some (String.[], String.[])
get_text (String.◌∷◌ m (String.◌∷◌ c rest)) =
    let more = get_text rest in
    if is_mark m then prepend_to c more else some (String.[], String.◌∷◌ c rest)

get-put_text : (s rest : String) → get_text (put_text s rest) ≡ some (s, rest)
unfolding get_text put_text prepend_to
get-put_text String.[] String.[] = refl
get-put_text String.[] (String.◌∷◌ c rest) = refl
get-put_text (String.◌∷◌ c s) rest = rw (get-put_text s rest) refl

-- A number in unary.
put_number : ℕ → String → String
put_number zero rest = String.◌∷◌ stop rest
put_number (suc n) rest = String.◌∷◌ mark (put_number n rest)

count_one : Option (ℕ × String) → Option (ℕ × String)
count_one none = none
count_one (some (n, rest)) = some (suc n, rest)

get_number : String → Option (ℕ × String)
unfolding count_one
get_number String.[] = none
get_number (String.◌∷◌ m rest) =
    let more = get_number rest in if is_mark m then count_one more else some (0, rest)

get-put_number : (n : ℕ) (rest : String) → get_number (put_number n rest) ≡ some (n, rest)
unfolding get_number put_number count_one
get-put_number zero rest = refl
get-put_number (suc n) rest = rw (get-put_number n rest) refl

then_some :
    {A B : Type 0} {o : Option A} {a : A} (f : A → Option B) {b : Option B}
    → o ≡ some a
    → f a ≡ b
    → (o >>= f) ≡ b
then_some f e h = ap (λ x. x >>= f) e ∙ h

put_option : Option String → String → String
unfolding put_text put_number
put_option none rest = put_number 0 rest
put_option (some s) rest = put_number 1 (put_text s rest)

with_text : ℕ → String → Option (Option String × String)
unfolding get_text
with_text zero rest = some (none, rest)
with_text (suc n) rest = do (s, rest') ← get_text rest; some (some s, rest')

get_option : String → Option (Option String × String)
unfolding with_text get_number
get_option text = do (n, rest) ← get_number text; with_text n rest

get-put_option :
    (o : Option String) (rest : String) → get_option (put_option o rest) ≡ some (o, rest)
unfolding get_option put_option with_text
get-put_option none rest = then_some (λ x. with_text x.0 x.1) (get-put_number 0 rest) refl
get-put_option (some s) rest =
    then_some (λ x. with_text x.0 x.1) (get-put_number 1 (put_text s rest))
      (then_some (λ x. some (some x.0, x.1)) (get-put_text s rest) refl)

number_of : LeaseRecoveryAction → ℕ
number_of observe_only = 0
number_of publish_stale_status = 1
number_of requeue = 2
number_of retry = 3
number_of dead_letter = 4

action_of : ℕ → LeaseRecoveryAction
action_of zero = observe_only
action_of (suc zero) = publish_stale_status
action_of (suc (suc zero)) = requeue
action_of (suc (suc (suc zero))) = retry
action_of (suc (suc (suc (suc n)))) = dead_letter

action_of-number_of : (a : LeaseRecoveryAction) → action_of (number_of a) ≡ a
unfolding action_of number_of
action_of-number_of observe_only = refl
action_of-number_of publish_stale_status = refl
action_of-number_of requeue = refl
action_of-number_of retry = refl
action_of-number_of dead_letter = refl

unfoldable pub dump : TaskLease → String
unfolding put_text put_number put_option number_of
dump l = put_text l.lease_id (
    put_text l.task_id (
      put_text l.owner_id (
        put_text l.consumer_name (
          put_number l.acquired_at (
            put_number l.heartbeat_at (
              put_number l.expires_at (
                put_option l.message_id (
                  put_option l.task_type (
                    put_option l.workflow_id (
                      put_option l.stage (
                        put_number l.attempt
                          (put_number (number_of l.recovery_action) ""))))))))))))

unfoldable pub validate : String → Option TaskLease
unfolding get_text get_number get_option action_of
validate text = do
  (lease_id, t1) ← get_text text
  (task_id, t2) ← get_text t1
  (owner_id, t3) ← get_text t2
  (consumer_name, t4) ← get_text t3
  (acquired_at, t5) ← get_number t4
  (heartbeat_at, t6) ← get_number t5
  (expires_at, t7) ← get_number t6
  (message_id, t8) ← get_option t7
  (task_type, t9) ← get_option t8
  (workflow_id, t10) ← get_option t9
  (stage, t11) ← get_option t10
  (attempt, t12) ← get_number t11
  (action, t13) ← get_number t12
  some (record {
    lease_id = lease_id;
    task_id = task_id;
    owner_id = owner_id;
    consumer_name = consumer_name;
    acquired_at = acquired_at;
    heartbeat_at = heartbeat_at;
    expires_at = expires_at;
    message_id = message_id;
    task_type = task_type;
    workflow_id = workflow_id;
    stage = stage;
    attempt = attempt;
    recovery_action = action_of action;
  })

pub validate-dump_lem : (l : TaskLease) → validate (dump l) ≡ some l
unfolding dump validate
validate-dump_lem l = simp (get-put_text, get-put_number, get-put_option, action_of-number_of) refl

abbrev pub serial : Codec
serial = record {
  model_dump_json = dump;
  model_validate_json = validate;
  validate-dump = validate-dump_lem;
}
