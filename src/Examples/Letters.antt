-- ===== src/Examples/Letters.antt =====
-- Dead letters over a server in memory.
use relayna.Redis.Memory.{memory, Memory}
use relayna.Redis.{answered, failed, eq-segment, eq-append, redis_key}
use mathlib.Core.Option.{none, some}
use mathlib.Core.Bool.{false≢true}
use Prim.Native.String.{◌++◌}
use relayna.Dlq.Replay.{
  ReplayFaults, all_answered, read_record, replay_message, returned, conflicted, replayed_copy,
  is_replayed, replay_publication, replay_headers,
}
use relayna.Prelude.{
  String, if◌then◌else◌, false, [], ◌==◌, Option, Bool, ◌≡◌, true, ◌∷◌, ap, refl, ◌∙◌, Bool-cases,
  max, inl, map, drop, sym, some-eq, eq_iff, inr, ap₂, List, ◌⊎◌,
}
use relayna.Dlq.{
  DlqRecord, DlqStore, record_key, parse_record, get_record, replay_lock_key, replayed, Filters,
  dead_lettered, unreviewed, record_matches, passes, in_state, start_index, list_records,
}
use relayna.Json.{null, number, pos, text, ℤ, Json}
use relayna.Dlq.Headers.{replay_headers-attempt}
use relayna.Consumer.Context.{retry_attempt_from_headers}
use relayna.Prelude.Dict.{get}
use relayna.Dlq.Records.{Write, add, remove, run_writes, tabled, list_records-run_writes}
use relayna.Dlq.Follow.{follow_cursors, follow_cursors-all}
use relayna.Dlq.Scan.{page_of, matching}
use relayna.Prelude.Text.{join, contains}
use relayna.Dlq.Paging.{IsRead, list_records-page}
use relayna.Dlq.Once.{replay_message-lock, replay_message-once}
use relayna.Dlq.Cursor.{list_records-after}

abbrev letter : String → DlqRecord
letter id = record {
  dlq_id = id;
  queue_name = "tasks.dlq";
  source_queue_name = "tasks";
  retry_queue_name = "tasks";
  headers = [];
  task_id = some id;
  service_name = none;
  reason = "failed";
  exception_type = none;
  dead_lettered_at = 0;
  state = dead_lettered;
  replay_count = 0;
  replayed_at = none;
  replay_target_queue_name = none;
  failed_at = none;
  status = "DLQ";
  worker_id = none;
  investigation_status = unreviewed;
  rest = null;
}

abbrev replayed_letter : DlqRecord
replayed_letter = record (letter "a") {
  state = replayed;
  replay_count = 1;
  replayed_at = some 9;
  replay_target_queue_name = some "tasks";
}

-- Texts that tell a letter that was replayed from one that was not.
abbrev text_of : DlqRecord → String
text_of r = elim r.state [ dead_lettered ↦ r.dlq_id | replayed ↦ "replayed" ]

abbrev letters : DlqStore
letters = record {
  redis = memory;
  hash_tag = λ p s. "0";
  prefix = "relayna";
  ttl_seconds = none;
  model_dump_json = text_of;
  model_validate_json = λ x. if x == "replayed" then some replayed_letter else some (letter x);
  isoformat = λ n. "now";
}

-- A server with the letters "b" and "a".
abbrev kept : Memory
kept = record {
  raw = λ k.
      if record_key letters "b" == k
      then some "b"
      else if record_key letters "a" == k
      then some "a"
      else none;
  members = λ k m. false;
  scores = λ k m. none;
  lists = λ k. "b" ∷ "a" ∷ [];
  deadlines = λ k. none;
  time = 0;
  names = [];
  complete = λ k m h. absurd (false≢true h);
}

abbrev reads : String → Option DlqRecord
reads i = if "b" == i then some (letter "b") else if "a" == i then some (letter "a") else none

record-record : (a b : String) → (record_key letters a == record_key letters b) ≡ (a == b)
unfolding record_key join
record-record a b =
    eq-segment (λ p s. "0") "relayna" "dlq" "dlq" "record" "record" (a ∷ []) (b ∷ [])
    ∙ eq-append "record" (":" ++ a) (":" ++ b)
    ∙ eq-append ":" a b

read_either :
    (b a : Bool)
    → parse_record letters (if b then some "b" else if a then some "a" else none)
      ≡ some (if b then some (letter "b") else if a then some (letter "a") else none)
unfolding parse_record
read_either true a = refl
read_either false true = refl
read_either false false = refl

kept-IsRead : IsRead letters kept reads
unfolding get_record
kept-IsRead i =
    ap
      (λ x. parse_record letters (
        if x
        then some "b"
        else if record_key letters "a" == record_key letters i
        then some "a"
        else none))
      (record-record "b" i)
    ∙ ap (λ x. parse_record letters (if "b" == i then some "b" else if x then some "a" else none))
        (record-record "a" i)
    ∙ read_either ("b" == i) ("a" == i)

none-some : {x : DlqRecord} {B : Type 0} → none ≡ some x → B
none-some e = cc

reads-keyed : (i : String) (x : DlqRecord) → reads i ≡ some x → x.dlq_id ≡ i
reads-keyed i x e = elim (Bool-cases ("b" == i)) [
  | inl same ↦
      ap (λ (y : DlqRecord). y.dlq_id)
        (sym (
          some-eq (
            sym (
              ap
                (λ c. if c then some (letter "b") else if "a" == i then some (letter "a") else none)
                same)
            ∙ e)))
      ∙ (eq_iff "b" i).0 same
  | inr other ↦ elim (Bool-cases ("a" == i)) [
    | inl same ↦
        ap (λ (y : DlqRecord). y.dlq_id)
          (sym (
            some-eq (
              sym (
                ap₂ (λ c d. if c then some (letter "b") else if d then some (letter "a") else none)
                  other same)
              ∙ e)))
        ∙ (eq_iff "a" i).0 same
    | inr none_ ↦ none-some (
        sym (
          ap₂ (λ c d. if c then some (letter "b") else if d then some (letter "a") else none) other
            none_)
        ∙ e)
  ]
]

abbrev everything : Filters
everything = record {
  queue_name = none;
  task_id = none;
  reason = none;
  source_queue_name = none;
  state = none;
}

list_records-page_example :
    list_records letters everything none 1 kept
    ≡ some (
        page_of (max 1 1) (
          matching
            (record_matches everything)
            (map reads (drop (start_index none ("b" ∷ "a" ∷ [])) ("b" ∷ "a" ∷ [])))))
list_records-page_example = list_records-page letters everything none 1 kept reads kept-IsRead

list_records-after_example :
    list_records letters everything (some "b") 1 kept
    ≡ some (
        page_of
          (max 1 1)
          (drop 1 (matching (record_matches everything) (map reads ("b" ∷ "a" ∷ [])))))
unfolding matching record_matches passes in_state contains
list_records-after_example =
    list_records-after letters everything 1 kept reads 0 (letter "b") kept-IsRead reads-keyed
      (refl, (refl, tt)) refl refl

-- The record cannot be read, so the replay ends in an exception.
abbrev read_lost : ReplayFaults
read_lost read_record = failed false false
read_lost _ = answered

replay_message-lock_example :
    memory.value
      (replay_message letters read_lost "a" false true 9 kept).state
      (replay_lock_key letters "a")
    ≡ memory.value kept (replay_lock_key letters "a")
replay_message-lock_example =
    replay_message-lock letters "a" read_lost refl false true 9 kept refl refl

replay_message-once_example :
    let o = replay_message letters all_answered "a" false true 9 kept in
    let o' = replay_message letters all_answered "a" false true 20 o.state in
    (o.published ≡ some (replay_publication letters (letter "a") 9))
    × (o.ending ≡ returned replayed_letter)
    × (o'.published ≡ none)
    × (o'.ending ≡ conflicted)
unfolding replayed_copy is_replayed replay_lock_key record_key redis_key join
replay_message-once_example =
    replay_message-once letters "a" false true 9 20 kept (letter "a") refl (kept-IsRead "a") refl
      refl refl

abbrev writes : List Write
writes = add (letter "c") ∷ remove "b" ∷ []

list_records-run_writes_example :
    list_records letters everything none 2 (run_writes letters writes kept)
    ≡ some (
        page_of (max 1 2) (
          matching (record_matches everything) (
            map
              (tabled writes reads)
              (drop (start_index none ("c" ∷ "b" ∷ "a" ∷ [])) ("c" ∷ "b" ∷ "a" ∷ [])))))
list_records-run_writes_example =
    list_records-run_writes letters everything none 2 writes kept reads (refl, tt) kept-IsRead

abbrev retried_letter : DlqRecord
retried_letter = record (letter "a") {
  headers =
      ("x-relayna-retry-attempt", number (pos 3))
      ∷ ("x-relayna-failure-reason", text "handler_error")
      ∷ ("x-relayna-exception-type", text "ValueError")
      ∷ [];
}

abbrev int_only : Json → Option ℤ
int_only (number n) = some n
int_only v = none

replay_headers-attempt_example :
    let h = replay_headers retried_letter "now" in
    (retry_attempt_from_headers int_only h ≡ 0)
    × (get "x-relayna-original-retry-attempt" h ≡ some (number (pos 3)))
    × (get "x-relayna-original-failure-reason" h ≡ some (text "handler_error"))
    × (get "x-relayna-original-exception-type" h ≡ some (text "ValueError"))
unfolding get
replay_headers-attempt_example =
    replay_headers-attempt int_only retried_letter "now" (number (pos 3)) (text "handler_error")
      (text "ValueError") refl refl refl refl

either_letter :
    (c d : Bool) (x : DlqRecord)
    → (if c then some (letter "b") else if d then some (letter "a") else none) ≡ some x
    → (x ≡ letter "b") ⊎ (x ≡ letter "a")
either_letter true d x e = inl (sym (some-eq e))
either_letter false true x e = inr (sym (some-eq e))
either_letter false false x e = none-some e

reads-named : (i : String) (x : DlqRecord) → reads i ≡ some x → (x.dlq_id == "") ≡ false
reads-named i x e = elim (either_letter ("b" == i) ("a" == i) x e) [
  | inl b ↦ ap (λ (y : DlqRecord). y.dlq_id == "") b
  | inr a ↦ ap (λ (y : DlqRecord). y.dlq_id == "") a
]

follow_cursors-all_example :
    follow_cursors letters everything 1 kept 3 none ≡ some (letter "b" ∷ letter "a" ∷ [])
unfolding matching record_matches passes in_state contains
follow_cursors-all_example =
    follow_cursors-all letters everything 1 kept reads kept-IsRead reads-keyed reads-named
      (refl, (refl, tt))
