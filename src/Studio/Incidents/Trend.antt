-- ===== src/Studio/Incidents/Trend.antt =====
-- What the numbers of a summary add up to.
use relayna.Studio.Incidents.{
  Evidence, stamps, ℕ, task_ids, List, length, count, String, in_recent, ◌+◌, in_preceding,
  lacks_task, see, truthy, summarize, minimum, maximum, minimum_of, maximum_of,
}
use relayna.Prelude.Text.{contains, AreDistinct}
use relayna.Prelude.{
  ◌≤◌, arith, ◌∷◌, [], Option, some, ◌≡◌, All, none, length-take, Bool, if-cases, false, any, ◌==◌,
  ◌||◌, ◌∙◌, Bool-cases, ap, refl, inl, inr, true, sym, eq_iff,
}

length-stamps : (es : List Evidence) → length (stamps es) ≤ length es
unfolding stamps
length-stamps [] = omega arith
length-stamps (e ∷ es) = ground (arith, length-stamps es)

-- No time is in both hours.
hours_apart :
    (now : ℕ) (ts : List ℕ) → count (in_recent now) ts + count (in_preceding now) ts ≤ length ts
hours_apart now [] = omega arith
hours_apart now (t ∷ ts) = ground (arith, hours_apart now ts)

length-see : (o : Option String) (seen : List String) → length (see o seen) ≤ length seen + 1
unfolding see
length-see none seen = omega arith
length-see (some id) seen = ground arith

task_ids-le :
    (es : List Evidence) (seen : List String)
    → length (task_ids es seen) + count lacks_task es ≤ length seen + length es
unfolding task_ids
task_ids-le [] seen = omega arith
task_ids-le (e ∷ es) seen =
    ground (arith, length-see (truthy e.task_id) seen, task_ids-le es (see (truthy e.task_id) seen))

-- Whether a failure is one of a task, by its id, which is not empty.
abbrev pub is_of_task : String → Evidence → Bool
is_of_task id e = elim (truthy e.task_id) [ none ↦ false | some x ↦ x == id ]

or_false : (b : Bool) → (b || false) ≡ b
or_false true = refl
or_false false = refl

see-AreDistinct :
    (o : Option String) (seen : List String) → AreDistinct seen → AreDistinct (see o seen)
unfolding see
see-AreDistinct none seen d = d
see-AreDistinct (some id) seen d =
    if-cases AreDistinct (contains id seen) seen (id ∷ seen) (λ old. d) (λ new. (new, d))

task_ids-AreDistinct :
    (es : List Evidence) (seen : List String) → AreDistinct seen → AreDistinct (task_ids es seen)
unfolding task_ids
task_ids-AreDistinct [] seen d = d
task_ids-AreDistinct (e ∷ es) seen d =
    task_ids-AreDistinct es (see (truthy e.task_id) seen)
      (see-AreDistinct (truthy e.task_id) seen d)

contains-see :
    (o : Option String) (seen : List String) (id : String)
    → contains id (see o seen) ≡ (elim o [ none ↦ false | some x ↦ x == id ] || contains id seen)
unfolding see contains
contains-see none seen id = refl
contains-see (some x) seen id = elim (Bool-cases (x == id)) [
  | inl same ↦ elim (Bool-cases (contains x seen)) [
    | inl old ↦
        ground (arith, same, old, ap (λ i. contains i seen) (sym ((eq_iff x id).0 same)) ∙ old)
    | inr new ↦ ground (arith, same, new)
  ]
  | inr other ↦ ground (arith, other)
]

contains-task_ids :
    (es : List Evidence) (seen : List String) (id : String)
    → contains id (task_ids es seen) ≡ (any (is_of_task id) es || contains id seen)
unfolding task_ids
contains-task_ids [] seen id = refl
contains-task_ids (e ∷ es) seen id =
    contains-task_ids es (see (truthy e.task_id) seen) id
    ∙ ap (λ b. any (is_of_task id) es || b) (contains-see (truthy e.task_id) seen id)
    ∙ ground arith

-- The four counts of the trend add up to the number of failures: each failure is in one of them, and
-- no subtraction of the summary goes below zero. The affected tasks are as many as there are
-- different ids of tasks, not empty, among the failures, each counted once; and with the failures
-- that have none they are no more than all.
pub summarize_adds_up :
    (es : List Evidence) (now : ℕ)
    → let s = summarize es now in
      (s.recent_hour + s.preceding_hour + s.outside_two_hours + s.unknown_timestamps
        ≡ s.failure_count)
      × ((ids : List String) × AreDistinct ids
          × ((id : String) → contains id ids ≡ any (is_of_task id) es)
          × (s.affected_tasks ≡ length ids))
      × (s.affected_tasks + s.missing_task_ids ≤ s.failure_count)
      × (length s.representative ≤ 3)
unfolding summarize contains
summarize_adds_up es now = (
  omega (arith, hours_apart now (stamps es), length-stamps es),
  (
    task_ids es [],
    task_ids-AreDistinct es [] tt,
    λ id. contains-task_ids es [] id ∙ or_false (any (is_of_task id) es),
    refl,
  ),
  omega (arith, task_ids-le es []),
  omega (arith, length-take 3 es),
)

-- Between a first and a last, which are there.
abbrev pub Within : Option ℕ → Option ℕ → ℕ → Type 0
Within (some lo) (some hi) t = (lo ≤ t) × (t ≤ hi)
Within _ _ t = ⊥

Within-cons :
    (t : ℕ) (lo hi : Option ℕ) (ts : List ℕ)
    → All (Within lo hi) ts
    → All (Within (minimum_of t lo) (maximum_of t hi)) ts
Within-cons t lo hi [] h = tt
Within-cons t (some lo) (some hi) (u ∷ ts) h =
    ((ground (arith, h.0), ground (arith, h.0)), Within-cons t (some lo) (some hi) ts h.1)
Within-cons t none hi (u ∷ ts) h = absurd h.0
Within-cons t (some lo) none (u ∷ ts) h = absurd h.0

Within-head : (t : ℕ) (lo hi : Option ℕ) → Within (minimum_of t lo) (maximum_of t hi) t
Within-head t none none = (omega arith, omega arith)
Within-head t none (some h) = (omega arith, omega arith)
Within-head t (some l) none = (omega arith, omega arith)
Within-head t (some l) (some h) = (omega arith, omega arith)

extremes : (ts : List ℕ) → All (Within (minimum ts) (maximum ts)) ts
unfolding minimum maximum
extremes [] = tt
extremes (t ∷ ts) = (
  Within-head t (minimum ts) (maximum ts),
  Within-cons t (minimum ts) (maximum ts) ts (extremes ts),
)

-- Every dated failure lies between the first and the last that the summary shows.
pub summarize_spans :
    (es : List Evidence) (now : ℕ)
    → let s = summarize es now in All (Within s.first_seen s.last_seen) (stamps es)
unfolding summarize
summarize_spans es now = extremes (stamps es)
