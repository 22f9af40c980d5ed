-- ===== src/Redis/Pipelines.antt =====
-- `pipe.execute()`: the commands of a pipeline, in order, and what the server answers afterwards.
use relayna.Redis.{
  Redis, Command, value_after, member_after, score_after, is_timed, key_of, set, list_after, delete,
  sadd, srem, zrem, lpush, publish, zadd, ltrim, expire,
}
use relayna.Prelude.{
  List, String, ◌∷◌, ◌≡◌, Option, Bool, [], ◌∙◌, All, ℕ, ap, ◌==◌, refl, false, ◌⊎◌, none, inl, inr,
  ◌++◌,
}

-- The answers after all the commands.
abbrev pub values_after : List Command → String → Option String → Option String
values_after [] k old = old
values_after (c ∷ cs) k old = values_after cs k (value_after c k old)

abbrev pub members_after : List Command → String → String → Bool → Bool
members_after [] k m old = old
members_after (c ∷ cs) k m old = members_after cs k m (member_after c k m old)

abbrev pub scores_after : List Command → String → String → Option ℕ → Option ℕ
scores_after [] k m old = old
scores_after (c ∷ cs) k m old = scores_after cs k m (score_after c k m old)

pub members_after-append :
    (xs ys : List Command) (k m : String) (old : Bool)
    → members_after (xs ++ ys) k m old ≡ members_after ys k m (members_after xs k m old)
members_after-append [] ys k m old = refl
members_after-append (c ∷ xs) ys k m old = members_after-append xs ys k m (member_after c k m old)

pub scores_after-append :
    (xs ys : List Command) (k m : String) (old : Option ℕ)
    → scores_after (xs ++ ys) k m old ≡ scores_after ys k m (scores_after xs k m old)
scores_after-append [] ys k m old = refl
scores_after-append (c ∷ xs) ys k m old = scores_after-append xs ys k m (score_after c k m old)

pub value_after-other :
    (c : Command) (k : String) (old : Option String)
    → (key_of c == k) ≡ false
    → value_after c k old ≡ old
value_after-other (set j v ex) k old h = rw h refl
value_after-other (delete j) k old h = rw h refl
value_after-other (sadd j m) k old h = refl
value_after-other (srem j m) k old h = refl
value_after-other (zrem j m) k old h = refl
value_after-other (lpush j m) k old h = refl
value_after-other (publish j m) k old h = refl
value_after-other (zadd j m n) k old h = refl
value_after-other (ltrim j n) k old h = refl
value_after-other (expire j n) k old h = refl

pub list_after-other :
    (c : Command) (k : String) (old : List String)
    → (key_of c == k) ≡ false
    → list_after c k old ≡ old
list_after-other (set j v ex) k old h = rw h refl
list_after-other (delete j) k old h = rw h refl
list_after-other (sadd j m) k old h = refl
list_after-other (srem j m) k old h = refl
list_after-other (zrem j m) k old h = refl
list_after-other (lpush j m) k old h = rw h refl
list_after-other (publish j m) k old h = refl
list_after-other (zadd j m n) k old h = refl
list_after-other (ltrim j n) k old h = rw h refl
list_after-other (expire j n) k old h = refl

abbrev pub lists_after : List Command → String → List String → List String
lists_after [] k old = old
lists_after (c ∷ cs) k old = lists_after cs k (list_after c k old)

module _ (r : Redis) where
  open r use {State, value, member, score, list, deadline, clock, exec}

  unfoldable pub execute : List Command → State → State
  execute [] s = s
  execute (c ∷ cs) s = execute cs (exec c s)

  pub value-execute :
      (cs : List Command) (s : State) (k : String)
      → value (execute cs s) k ≡ values_after cs k (value s k)
  unfolding execute
  value-execute [] s k = refl
  value-execute (c ∷ cs) s k =
      value-execute cs (exec c s) k ∙ ap (values_after cs k) (r.value-exec c s k)

  pub member-execute :
      (cs : List Command) (s : State) (k m : String)
      → member (execute cs s) k m ≡ members_after cs k m (member s k m)
  unfolding execute
  member-execute [] s k m = refl
  member-execute (c ∷ cs) s k m =
      member-execute cs (exec c s) k m ∙ ap (members_after cs k m) (r.member-exec c s k m)

  pub score-execute :
      (cs : List Command) (s : State) (k m : String)
      → score (execute cs s) k m ≡ scores_after cs k m (score s k m)
  unfolding execute
  score-execute [] s k m = refl
  score-execute (c ∷ cs) s k m =
      score-execute cs (exec c s) k m ∙ ap (scores_after cs k m) (r.score-exec c s k m)

  pub clock-execute : (cs : List Command) (s : State) → clock (execute cs s) ≡ clock s
  unfolding execute
  clock-execute [] s = refl
  clock-execute (c ∷ cs) s = clock-execute cs (exec c s) ∙ r.clock-exec c s

  pub deadline_none-execute :
      (cs : List Command) (s : State) (k : String)
      → All (λ c. (key_of c == k) ≡ false ⊎ is_timed c ≡ false) cs
      → deadline s k ≡ none
      → deadline (execute cs s) k ≡ none
  unfolding execute
  deadline_none-execute [] s k h d = d
  deadline_none-execute (c ∷ cs) s k (inl h, hs) d =
      deadline_none-execute cs (exec c s) k hs (r.deadline-other c s k h ∙ d)
  deadline_none-execute (c ∷ cs) s k (inr h, hs) d =
      deadline_none-execute cs (exec c s) k hs (r.deadline_none c s k h d)

  pub deadline-execute :
      (cs : List Command) (s : State) (k : String)
      → All (λ c. (key_of c == k) ≡ false) cs
      → deadline (execute cs s) k ≡ deadline s k
  unfolding execute
  deadline-execute [] s k h = refl
  deadline-execute (c ∷ cs) s k (h, hs) =
      deadline-execute cs (exec c s) k hs ∙ r.deadline-other c s k h

  pub list-execute :
      (cs : List Command) (s : State) (k : String)
      → list (execute cs s) k ≡ lists_after cs k (list s k)
  unfolding execute
  list-execute [] s k = refl
  list-execute (c ∷ cs) s k =
      list-execute cs (exec c s) k ∙ ap (lists_after cs k) (r.list-exec c s k)
