-- ===== src/Redis/Memory.antt =====
-- A server that keeps everything in memory: the assumptions on a server can be met.
use mathlib.Core.Bool.{false≢true}
use mathlib.Core.Path.{subst}
use relayna.Redis.{
  Redis, Command, value_after, member_after, score_after, list_after, is_timed, key_of, seconds,
  set, expire, delete, sadd, srem, zrem, lpush, publish, zadd, ltrim,
}
use relayna.Prelude.{
  String, ℕ, List, Option, if◌then◌else◌, ◌≡◌, Bool, some, ◌==◌, ◌∷◌, true, arith, leb, ◌+◌,
  eq_refl, Bool-cases, none, inl, refl, sym, Option-cases, All, false, ◌≤◌, take, keep, ◌⊎◌, eq_iff,
  inr, suc, leb→le, [], ◌&&◌, length-take, zero, length, All-map,
}
use relayna.Prelude.Text.{contains}

pub record Memory : Type 0 where
  pub raw : String → Option String
  pub members : String → String → Bool
  pub scores : String → String → Option ℕ
  pub lists : String → List String
  pub deadlines : String → Option ℕ
  pub time : ℕ
  -- The members ever added to a set or a sorted set.
  pub names : List String
  pub complete : (k m : String) → members k m ≡ true → contains m names ≡ true

abbrev live : ℕ → Option ℕ → Option String → Option String
live now none v = v
live now (some d) v = if leb now d then v else none

-- An expired key gets no new expiry.
abbrev prolong : ℕ → Option ℕ → ℕ → Option ℕ
prolong now none n = some (now + n)
prolong now (some d) n = if leb now d then some (now + n) else some d

abbrev deadlines_after : Command → ℕ → String → Option ℕ → Option ℕ
deadlines_after (set j v none) now k old = if j == k then none else old
deadlines_after (set j v (some ex)) now k old = if j == k then some (now + seconds ex) else old
deadlines_after (expire j ex) now k old = if j == k then prolong now old (seconds ex) else old
deadlines_after (delete j) now k old = if j == k then none else old
deadlines_after _ now k old = old

abbrev note : String → List String → List String
note m l = if contains m l then l else m ∷ l

abbrev names_after : Command → List String → List String
names_after (sadd j m) l = note m l
names_after (zadd j m n) l = note m l
names_after _ l = l

contains-note :
    (i m : String) (l : List String) → contains m l ≡ true → contains m (note i l) ≡ true
unfolding contains
contains-note i m l h = ground (arith, h)

note-contains : (m : String) (l : List String) → contains m (note m l) ≡ true
unfolding contains
note-contains m l = ground (arith, eq_refl m)

pub complete_after :
    (c : Command) (s : Memory) (k m : String)
    → member_after c k m (s.members k m) ≡ true
    → contains m (names_after c s.names) ≡ true
complete_after (set j v ex) s k m h = s.complete k m (ground arith)
complete_after (delete j) s k m h = s.complete k m (ground arith)
complete_after (sadd j i) s k m h = elim (Bool-cases (i == m)) [
  | inl e ↦
      subst (λ i. contains m (note i s.names) ≡ true) (sym ((eq_iff i m).0 e))
        (note-contains m s.names)
  | inr e ↦ contains-note i m s.names (s.complete k m (ground (arith, e)))
]
complete_after (srem j i) s k m h = s.complete k m (ground arith)
complete_after (zrem j i) s k m h = s.complete k m h
complete_after (lpush j i) s k m h = s.complete k m h
complete_after (publish j i) s k m h = s.complete k m h
complete_after (zadd j i n) s k m h = contains-note i m s.names (s.complete k m h)
complete_after (ltrim j n) s k m h = s.complete k m h
complete_after (expire j n) s k m h = s.complete k m h

abbrev apply : Command → Memory → Memory
apply c s = record {
  raw = λ k. value_after c k (s.raw k);
  members = λ k m. member_after c k m (s.members k m);
  scores = λ k m. score_after c k m (s.scores k m);
  lists = λ k. list_after c k (s.lists k);
  deadlines = λ k. deadlines_after c s.time k (s.deadlines k);
  time = s.time;
  names = names_after c s.names;
  complete = complete_after c s;
}

abbrev value : Memory → String → Option String
value s k = live s.time (s.deadlines k) (s.raw k)

pub value-apply :
    (c : Command) (s : Memory) (k : String) → value (apply c s) k ≡ value_after c k (value s k)
value-apply (set j v none) s k = ground arith
value-apply (set j v (some ex)) s k = ground arith
value-apply (delete j) s k = ground arith
value-apply (sadd j i) s k = refl
value-apply (srem j i) s k = refl
value-apply (zrem j i) s k = refl
value-apply (lpush j i) s k = refl
value-apply (publish j i) s k = refl
value-apply (zadd j i n) s k = refl
value-apply (ltrim j n) s k = refl
value-apply (expire j n) s k = elim (Option-cases (s.deadlines k)) [
  | inl e ↦ ground (arith, e)
  | inr (d, e) ↦ ground (arith, e)
]

take-All : (P : String → Type 0) (n : ℕ) (l : List String) → All P l → All P (take n l)
take-All P zero l h = tt
take-All P (suc n) [] h = tt
take-All P (suc n) (x ∷ l) (h, hs) = (h, take-All P n l hs)

abbrev is_due : ℕ → Option ℕ → Bool
is_due max none = false
is_due max (some n) = leb n max

is_due-some : (max : ℕ) (o : Option ℕ) → is_due max o ≡ true → (n : ℕ) × (o ≡ some n) × (n ≤ max)
is_due-some max none h = absurd (cc h)
is_due-some max (some n) h = (n, refl, leb→le n max h)

keep-All-step :
    (P : String → Type 0) (x : String) (l : List String) (b : Bool)
    → (b ≡ true → P x)
    → All P l
    → All P (elim b [ true ↦ x ∷ l | false ↦ l ])
keep-All-step P x l true h hs = (h refl, hs)
keep-All-step P x l false h hs = hs

keep-All : (p : String → Bool) (l : List String) → All (λ m. p m ≡ true) (keep p l)
keep-All p [] = tt
keep-All p (x ∷ l) = keep-All-step _ x (keep p l) (p x) (λ e. e) (keep-All p l)

abbrev range : Memory → String → ℕ → ℕ → List String
range s k max limit = take limit (keep (λ m. is_due max (s.scores k m)) s.names)

pub range-scored :
    (s : Memory) (k : String) (max limit : ℕ)
    → All (λ m. (n : ℕ) × (s.scores k m ≡ some n) × (n ≤ max)) (range s k max limit)
range-scored s k max limit = take-All _ limit _ (
    All-map _ _ _ (λ m. is_due-some max (s.scores k m))
      (keep-All (λ m. is_due max (s.scores k m)) s.names))

keep-contains :
    (p : String → Bool) (m : String) (l : List String)
    → contains m (keep p l) ≡ (contains m l && p m)
unfolding contains
keep-contains p m [] = refl
keep-contains p m (x ∷ l) = elim (Bool-cases (x == m)) [
  | inl e ↦ ground (arith, (eq_iff x m).0 e, keep-contains p m l)
  | inr e ↦ ground (arith, e, keep-contains p m l)
]

pub smembers_complete :
    (s : Memory) (k m : String) → contains m (keep (s.members k) s.names) ≡ s.members k m
smembers_complete s k m = ground (arith, keep-contains (s.members k) m s.names, s.complete k m)

abbrev pass : ℕ → Memory → Memory
pass n s = record s { time = n + s.time }

pub value-pass :
    (n : ℕ) (s : Memory) (k : String)
    → (value (pass n s) k ≡ value s k) ⊎ (value (pass n s) k ≡ none)
value-pass n s k = elim (Option-cases (s.deadlines k)) [
  | inl e ↦ inl (ground (arith, e))
  | inr (d, e) ↦ elim (Bool-cases (leb (n + s.time) d)) [
    | inl l ↦ inl (ground (arith, e, l))
    | inr l ↦ inr (ground (arith, e, l))
  ]
]

pub value_in_time :
    (s : Memory) (k v : String) (d : ℕ) → value s k ≡ some v → s.deadlines k ≡ some d → s.time ≤ d
value_in_time s k v d h e = ground (arith, h, e)

pub deadline-other :
    (c : Command) (s : Memory) (k : String)
    → (key_of c == k) ≡ false
    → (apply c s).deadlines k ≡ s.deadlines k
deadline-other (set j v none) s k h = ground (arith, h)
deadline-other (set j v (some ex)) s k h = ground (arith, h)
deadline-other (delete j) s k h = ground (arith, h)
deadline-other (sadd j i) s k h = refl
deadline-other (srem j i) s k h = refl
deadline-other (zrem j i) s k h = refl
deadline-other (lpush j i) s k h = refl
deadline-other (publish j i) s k h = refl
deadline-other (zadd j i n) s k h = refl
deadline-other (ltrim j n) s k h = refl
deadline-other (expire j n) s k h = ground (arith, h)

pub deadline_none :
    (c : Command) (s : Memory) (k : String)
    → is_timed c ≡ false
    → s.deadlines k ≡ none
    → (apply c s).deadlines k ≡ none
deadline_none (set j v none) s k t h = ground (arith, h)
deadline_none (set j v (some ex)) s k t h = absurd (cc t)
deadline_none (delete j) s k t h = ground (arith, h)
deadline_none (sadd j i) s k t h = h
deadline_none (srem j i) s k t h = h
deadline_none (zrem j i) s k t h = h
deadline_none (lpush j i) s k t h = h
deadline_none (publish j i) s k t h = h
deadline_none (zadd j i n) s k t h = h
deadline_none (ltrim j n) s k t h = h
deadline_none (expire j n) s k t h = absurd (cc t)

pub deadline-set_lem :
    (k v : String) (ex : ℕ) (s : Memory)
    → (apply (set k v (some ex)) s).deadlines k ≡ some (s.time + seconds ex)
deadline-set_lem k v ex s = ground (arith, eq_refl k)

pub range-bounded : (s : Memory) (k : String) (max limit : ℕ) → length (range s k max limit) ≤ limit
range-bounded s k max limit =
    omega (arith, length-take limit (keep (λ m. is_due max (s.scores k m)) s.names))

abbrev pub memory : Redis
memory = record {
  State = Memory;
  value = value;
  member = λ s. s.members;
  score = λ s. s.scores;
  list = λ s. s.lists;
  smembers = λ s k. keep (s.members k) s.names;
  zrangebyscore = range;
  clock = λ s. s.time;
  deadline = λ s. s.deadlines;
  exec = apply;
  elapse = pass;
  value-exec = value-apply;
  member-exec = λ c s k m. refl;
  score-exec = λ c s k m. refl;
  list-exec = λ c s k. refl;
  clock-exec = λ c s. refl;
  deadline-set = deadline-set_lem;
  deadline-other = deadline-other;
  deadline_none = deadline_none;
  deadline_none-elapse = λ n s k h. h;
  value_in_time = value_in_time;
  value-elapse = value-pass;
  deadline-elapse = λ n s k v h. refl;
  member-elapse = λ n s k m h. refl;
  score-elapse = λ n s k m h. refl;
  smembers-member = smembers_complete;
  zrangebyscore-bounded = range-bounded;
  zrangebyscore-scored = range-scored;
}

abbrev pub no_memory : Memory
no_memory = record {
  raw = λ k. none;
  members = λ k m. false;
  scores = λ k m. none;
  lists = λ k. [];
  deadlines = λ k. none;
  time = 0;
  names = [];
  complete = λ k m h. absurd (false≢true h);
}
