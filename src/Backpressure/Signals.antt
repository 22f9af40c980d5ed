-- ===== src/Backpressure/Signals.antt =====
-- How severe a signal is, and which signals the queues get.
use relayna.Backpressure.{
  queue_depth_high, queue_inspection_unavailable, consumer_count_zero, PressureSeverity,
  severity_for_thresholds, combine, inspected, collect_snapshot, RuntimePressureSignal, Inspection,
  Thresholds, RuntimeQueueObservation, severity_of,
}
use relayna.Prelude.{
  none, some, ◌≡◌, ◌∷◌, ℕ, Option, ◌≤◌, some, arith, List, Bool, String, ◌++◌, false, map,
  Bool-cases, [], true, keep, inl, nat_eq, ap, inr, ◌∙◌, refl, ap₂, if◌then◌else◌, leb,
}

abbrev pub rank : PressureSeverity → ℕ
rank PressureSeverity.normal = 0
rank PressureSeverity.warning = 1
rank PressureSeverity.critical = 2
rank PressureSeverity.unknown = 0

-- More is never less severe, whatever thresholds are set and in whatever order they stand.
pub severity-monotone :
    (value more : ℕ) (warn crit : Option ℕ)
    → value ≤ more
    → rank (severity_for_thresholds (some value) warn crit)
      ≤ rank (severity_for_thresholds (some more) warn crit)
unfolding severity_for_thresholds
severity-monotone value more none none h = omega arith
severity-monotone value more (some w) none h = ground arith
severity-monotone value more none (some c) h = ground arith
severity-monotone value more (some w) (some c) h = ground arith

-- What a list of signals shows of those of some kinds.
abbrev pub shown {ℓ} :
    {B : Type ℓ}
    → (RuntimePressureSignal → Bool)
    → (RuntimePressureSignal → B)
    → List RuntimePressureSignal
    → List B
shown p f l = map f (keep (λ s. p s) l)

abbrev pub is_depth : RuntimePressureSignal → Bool
is_depth s = elim s.kind [ queue_depth_high ↦ true | _ ↦ false ]

abbrev pub is_unavailable : RuntimePressureSignal → Bool
is_unavailable s = elim s.kind [ queue_inspection_unavailable ↦ true | _ ↦ false ]

abbrev pub is_idle : RuntimePressureSignal → Bool
is_idle s = elim s.kind [ consumer_count_zero ↦ true | _ ↦ false ]

-- By the thresholds, of which the critical one has precedence.
abbrev pub level : Thresholds → ℕ → PressureSeverity
level t count_ =
    if leb t.crit count_
    then PressureSeverity.critical
    else if leb t.warn count_
    then PressureSeverity.warning
    else PressureSeverity.normal

-- The queues that could not be inspected, those that could, with what was found, and those without
-- a consumer, in the order of the names.
abbrev pub each {ℓ} :
    {B : Type ℓ}
    → (String → Option Inspection → List B)
    → (String → Option Inspection)
    → List String
    → List B
each g inspect [] = []
each g inspect (n ∷ ns) = g n (inspect n) ++ each g inspect ns

abbrev pub lost : String → Option Inspection → List (Option String)
lost n none = some n ∷ []
lost n (some i) = []

abbrev pub depth :
    Thresholds → String → Option Inspection → List (Option String × (Option ℕ × PressureSeverity))
depth t n none = []
depth t n (some i) = (some n, (some i.message_count, level t i.message_count)) ∷ []

abbrev pub idle : String → Option Inspection → List (Option String)
idle n none = []
idle n (some i) = if nat_eq i.consumer_count 0 then some n ∷ [] else []

abbrev pub observation : String → Option Inspection → List (String × (ℕ × ℕ))
observation n none = []
observation n (some i) = (n, (i.message_count, i.consumer_count)) ∷ []

severity_of-level : (t : Thresholds) (n : ℕ) → severity_of t n ≡ level t n
unfolding severity_of severity_for_thresholds
severity_of-level t n = ground arith

shown-append {ℓ} :
    {B : Type ℓ} (p : RuntimePressureSignal → Bool) (f : RuntimePressureSignal → B)
    (l m : List RuntimePressureSignal)
    → shown p f (l ++ m) ≡ (shown p f l ++ shown p f m)
shown-append p f [] m = refl
shown-append p f (s ∷ l) m = elim (Bool-cases (p s)) [
  | inl e ↦ rw e (ap (λ r. f s ∷ r) (shown-append p f l m))
  | inr e ↦ rw e (shown-append p f l m)
]

-- What a snapshot shows, from what the batch of each queue shows.
shown-snapshot {ℓ} :
    {B : Type ℓ} (p : RuntimePressureSignal → Bool) (f : RuntimePressureSignal → B) (t : Thresholds)
    (g : String → Option Inspection → List B)
    → ((n : String) (o : Option Inspection) → shown p f (inspected t n o).signals ≡ g n o)
    → (inspect : String → Option Inspection) (names : List String)
    → shown p f (collect_snapshot t inspect names).signals ≡ each g inspect names
unfolding collect_snapshot combine
shown-snapshot p f t g h inspect [] = refl
shown-snapshot p f t g h inspect (n ∷ ns) =
    shown-append p f (inspected t n (inspect n)).signals (collect_snapshot t inspect ns).signals
    ∙ ap₂ (λ x y. x ++ y) (h n (inspect n)) (shown-snapshot p f t g h inspect ns)

abbrev pub numbers_of : RuntimeQueueObservation → String × (ℕ × ℕ)
numbers_of q = (q.queue_name, (q.ready, q.consumers))

abbrev pub depth_of : RuntimePressureSignal → Option String × (Option ℕ × PressureSeverity)
depth_of s = (s.scope_id, (s.value, s.severity))

observed_here :
    (t : Thresholds) (n : String) (o : Option Inspection) (qs : List RuntimeQueueObservation)
    → map numbers_of ((inspected t n o).queues ++ qs) ≡ (observation n o ++ map numbers_of qs)
unfolding inspected
observed_here t n none qs = refl
observed_here t n (some i) qs = refl

observed :
    (t : Thresholds) (inspect : String → Option Inspection) (names : List String)
    → map numbers_of (collect_snapshot t inspect names).queues ≡ each observation inspect names
unfolding collect_snapshot combine inspected
observed t inspect [] = refl
observed t inspect (n ∷ ns) =
    observed_here t n (inspect n) _
    ∙ ap (λ l. observation n (inspect n) ++ l) (observed t inspect ns)

shown-lost :
    (t : Thresholds) (n : String) (o : Option Inspection)
    → shown is_unavailable (λ s. s.scope_id) (inspected t n o).signals ≡ lost n o
unfolding inspected
shown-lost t n none = refl
shown-lost t n (some i) = elim (Bool-cases (nat_eq i.consumer_count 0)) [
  | inl e ↦ rw e refl
  | inr e ↦ rw e refl
]

shown-depth :
    (t : Thresholds) (n : String) (o : Option Inspection)
    → shown is_depth depth_of (inspected t n o).signals ≡ depth t n o
unfolding inspected
shown-depth t n none = refl
shown-depth t n (some i) = elim (Bool-cases (nat_eq i.consumer_count 0)) [
  | inl e ↦ rw e (rw (severity_of-level t i.message_count) refl)
  | inr e ↦ rw e (rw (severity_of-level t i.message_count) refl)
]

shown-idle :
    (t : Thresholds) (n : String) (o : Option Inspection)
    → shown is_idle (λ s. s.scope_id) (inspected t n o).signals ≡ idle n o
unfolding inspected
shown-idle t n none = refl
shown-idle t n (some i) = elim (Bool-cases (nat_eq i.consumer_count 0)) [
  | inl e ↦ rw e refl
  | inr e ↦ rw e refl
]

-- A snapshot shows, each in the order of the queues' names: as unavailable the queues that could not
-- be inspected; for every other queue its depth, with the number of its messages and critical from
-- the critical threshold on, else a warning from the warning threshold on, else normal; as idle the
-- queues that were found to have no consumer; and the numbers that were found.
pub collect_snapshot-signals :
    (t : Thresholds) (inspect : String → Option Inspection) (names : List String)
    → let s = collect_snapshot t inspect names in
      (shown is_unavailable (λ s. s.scope_id) s.signals ≡ each lost inspect names)
      × (shown is_depth depth_of s.signals ≡ each (depth t) inspect names)
      × (shown is_idle (λ s. s.scope_id) s.signals ≡ each idle inspect names)
      × (map numbers_of s.queues ≡ each observation inspect names)
collect_snapshot-signals t inspect names = (
  shown-snapshot is_unavailable _ t lost (shown-lost t) inspect names,
  shown-snapshot is_depth _ t (depth t) (shown-depth t) inspect names,
  shown-snapshot is_idle _ t idle (shown-idle t) inspect names,
  observed t inspect names,
)
