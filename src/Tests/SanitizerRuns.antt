-- ===== src/Tests/SanitizerRuns.antt =====
-- Runs of the sanitizer on a task and its child, and of the identity capsule.

use celery_diagnostics_obser.Sanitizer.Parts.{
  task_event_map, type_of, id_of, task_label, queue_label, route_label, task_worker_label,
  run_ref_for, identity_values, capsule_for, task_metadata, retries_value,
}
use celery_diagnostics_obser.Sanitizer.Coerce.{
  safe_token, optional_non_negative_int, optional_float, datetime_iso,
}
use celery_diagnostics_obser.Text.{
  strip, take_text, length_text, without_nul, has_dot, last_part, is_ident_start, is_word,
  is_dotted, dotted_run,
}
use celery_diagnostics_obser.Prelude.{
  String, Bool-cases, subst, sym, eq_iff, inl, inr, true, false, Option, none, some, ◌≡◌, refl, pos,
  str_eq, arith, All, ◌≤◌,
}
use celery_diagnostics_obser.Result.{Result, ok, ◌>>=◌}
use celery_diagnostics_obser.Values.{str, int, dict, Fields, end, bool}
use celery_diagnostics_obser.Values.Dict.{get?, get}
use celery_diagnostics_obser.Text.Laws.{has_nul}
use celery_diagnostics_obser.Runtime.{stripped}
use celery_diagnostics_obser.Identity.{
  required_key, identity_key_id, prefix_of, keyed_ref, identity_ref, run_ref_of, task_run_ref,
  named_fields, identity_fields, seal_payload, seal_identity, is_ascii, open_parts, open_identity,
}
use celery_diagnostics_obser.Sanitizer.Labels.{
  forbidden_fields, ◌&◌, public_observer_id, label, task_relation_ref,
}
use celery_diagnostics_obser.Sanitizer.Events.{
  sanitize_celery_event, run_part, task_payload, sanitize_task_event, sanitize_fields,
}
use celery_diagnostics_obser.Sanitizer.Exceptions.{
  known_inner_exception_identity, split_exception_identity, is_known_inner, exception_identity,
}
use celery_diagnostics_obser.Sanitizer.Events.Forbidden.{celery_event_clean}
use celery_diagnostics_obser.Sanitizer.Events.Links.{parent_linked}
use celery_diagnostics_obser.Sanitizer.Events.Reads.{is_read, sanitize_depends}
use celery_diagnostics_obser.Sanitizer.Inner.{inner_class_known}
use celery_diagnostics_obser.Identity.Capsule.{CapsuleLaws, IsShort, open-seal}
use celery_diagnostics_obser.Tests.Samples.{sample_config, digits, runtime, local_policy}

abbrev parent : Fields
parent =
    ("type", str "task-sent")
    & ("uuid", str "a-1")
    & ("name", str "mail.send")
    & ("args", str "secret")
    & end

abbrev child : Fields
child =
    ("type", str "task-failed")
    & ("uuid", str "b-2")
    & ("parent_id", str "a-1")
    & ("result", str "x.WorkerLostError('gone')")
    & end

abbrev sent_of : Result (Option Fields) → Fields
sent_of (ok (some out)) = out
sent_of _ = end

abbrev run : Fields → Result (Option Fields)
run raw = sanitize_celery_event (runtime end) sample_config local_policy "now" (dict raw)

task_runs :
    (run parent ≡ ok (some (sent_of (run parent))))
    × (run child ≡ ok (some (sent_of (run child))))
    × (has_nul (id_of (runtime end) parent) ≡ false)
    × (length_text (id_of (runtime end) parent) ≤ 255)
    × (task_event_map (type_of (runtime end) parent) ≡ some ("task_published", "published"))
    × (task_event_map (type_of (runtime end) child) ≡ some ("task_failed", "failed"))
    × (get "parent_id" child ≡ str (id_of (runtime end) parent))
unfolding ◌>>=◌ get? strip take_text length_text without_nul has_nul stripped required_key
    identity_key_id prefix_of keyed_ref identity_ref run_ref_of task_run_ref named_fields
    seal_payload seal_identity safe_token optional_non_negative_int optional_float datetime_iso
    public_observer_id label task_relation_ref task_event_map type_of task_label queue_label
    route_label task_worker_label run_ref_for identity_values capsule_for task_metadata
    retries_value run_part task_payload sanitize_task_event sanitize_fields sanitize_celery_event
task_runs = (refl, refl, refl, omega arith, refl, refl, refl)

celery_event_clean_example :
    All (λ k. get? k (sent_of (run child)) ≡ none) forbidden_fields
    × (get? "payload_redacted" (sent_of (run child)) ≡ some (bool true))
celery_event_clean_example =
    celery_event_clean (runtime end) sample_config local_policy "now" (dict child)
      (sent_of (run child)) (task_runs.1)

parent_linked_example :
    get? "parent_id" (sent_of (run child)) ≡ get? "run_ref" (sent_of (run parent))
parent_linked_example =
    parent_linked (runtime end) sample_config local_policy "now" "now" parent child
      (sent_of (run parent)) (sent_of (run child)) ("task_published", "published")
      ("task_failed", "failed") refl (task_runs.4) (task_runs.5) (task_runs.2) (task_runs.3)
      (task_runs.6) (task_runs.0) (task_runs.1)

-- Two events that differ in their arguments.
abbrev other_args : Fields
other_args =
    ("type", str "task-sent")
    & ("uuid", str "a-1")
    & ("name", str "mail.send")
    & ("kwargs", int (pos 7))
    & end

not_read : (j k : String) → is_read j ≡ false → is_read k ≡ true → str_eq j k ≡ false
not_read j k unread read = elim (Bool-cases (str_eq j k)) [
  | inl same ↦ let at_j = subst (λ i. is_read i ≡ true) (sym ((eq_iff j k).0 same)) read in cc
  | inr other ↦ other
]

agree : (k : String) → is_read k ≡ true → get k parent ≡ get k other_args
unfolding get?
agree k read = rw (not_read "args" k refl read, not_read "kwargs" k refl read) refl

agree_exception :
    exception_identity (runtime end) parent local_policy
    ≡ exception_identity (runtime end) other_args local_policy
unfolding get? known_inner_exception_identity exception_identity
agree_exception = refl

sanitize_depends_example :
    sanitize_celery_event (runtime end) sample_config local_policy "now" (dict parent)
    ≡ sanitize_celery_event (runtime end) sample_config local_policy "now" (dict other_args)
sanitize_depends_example =
    sanitize_depends (runtime end) sample_config local_policy "now" parent other_args agree
      agree_exception

abbrev none_module : Option String
none_module = none

found_inner :
    known_inner_exception_identity (runtime end) child local_policy ≡ (some "WorkerLostError", none)
unfolding get? strip take_text without_nul has_dot last_part is_ident_start is_word is_dotted
    dotted_run stripped safe_token split_exception_identity known_inner_exception_identity
found_inner = refl

inner_class_known_example :
    (is_known_inner "WorkerLostError" ≡ true)
    × (local_policy.collect_exception_module ≡ false → none_module ≡ none)
inner_class_known_example =
    inner_class_known (runtime end) local_policy child "WorkerLostError" none found_inner

abbrev pub identity : Fields
identity = ("task_id", str "a-1") & ("queue", str "mail") & end

abbrev pub payload : Fields
payload = ("queue", str "mail") & ("task_id", str "a-1") & end

abbrev pub key : String
key = "0123456789abcdef"

abbrev pub sealed_text : String
sealed_text = "v1.9f9f5111f7b2.{}"

pub dotless_digits : (k : String) → has_dot (take_text 12 (digits k)) ≡ false
unfolding take_text has_dot
dotless_digits k = elim (Bool-cases (str_eq k key)) [
  | inl same ↦ rw same refl
  | inr other ↦ rw other refl
]

pub ascii_digits : (k : String) → is_ascii (take_text 12 (digits k)) ≡ true
unfolding take_text open_parts
ascii_digits k = elim (Bool-cases (str_eq k key)) [
  | inl same ↦ rw same refl
  | inr other ↦ rw other refl
]

-- The order of the two entries does not matter.
same_entries :
    (k : String) → get k payload ≡ get k (named_fields (runtime payload) identity_fields identity)
unfolding get? strip take_text stripped named_fields
same_entries k = elim (Bool-cases (str_eq "queue" k)) [
  | inl same ↦
      subst (λ i. get i payload ≡ get i (named_fields (runtime payload) identity_fields identity))
        ((eq_iff "queue" k).0 same) refl
  | inr other ↦ rw other refl
]

payload_laws :
    CapsuleLaws (runtime payload) (named_fields (runtime payload) identity_fields identity) payload
unfolding open_parts
payload_laws = record {
  decrypt-encrypt = λ k. refl;
  encrypt_ascii = λ k. refl;
  key_id_dotless = dotless_digits;
  key_id_ascii = ascii_digits;
  loads-dumps = refl;
  get_decoded = same_entries;
}

capsule_runs :
    (seal_identity (runtime payload) identity key ≡ ok sealed_text)
    × (identity_key_id (runtime payload) key ≡ ok "9f9f5111f7b2")
    × (identity_key_id (runtime payload) "fedcba9876543210" ≡ ok "000000000000")
unfolding ◌>>=◌ get? strip take_text stripped required_key identity_key_id named_fields seal_payload
    seal_identity
capsule_runs = (refl, refl, refl)

short_fields : IsShort (runtime payload) identity payload payload_laws
unfolding get? strip length_text stripped
short_fields = (omega arith, (omega arith, (omega arith, (omega arith, (omega arith, tt)))))

open-seal_example :
    open_identity (runtime payload) sealed_text key
    ≡ ok (named_fields (runtime payload) identity_fields identity)
open-seal_example =
    open-seal (runtime payload) identity payload payload_laws key short_fields sealed_text
      (capsule_runs.0)
