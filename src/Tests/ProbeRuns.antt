-- ===== src/Tests/ProbeRuns.antt =====
-- Runs of the probes.
use celery_diagnostics_obser.ActiveProbes.Executor.{resolve_local_identity, execute}
use celery_diagnostics_obser.ActiveProbes.AppFacts.{AppAttributes, uses_default_priority_layout}
use celery_diagnostics_obser.ActiveProbes.Answers.{negative}
use celery_diagnostics_obser.ActiveProbes.Matching.{find_queried_task, matching_attempt_error}
use celery_diagnostics_obser.ActiveProbes.Requests.{
  required, worker_set, privacy_label, worker_name, labels_of, reply_labels,
}
use celery_diagnostics_obser.Sanitizer.Parts.{run_ref_for, identity_values, capsule_for}
use celery_diagnostics_obser.Identity.{
  identity_fields, required_key, identity_key_id, prefix_of, keyed_ref, identity_ref, run_ref_of,
  task_run_ref, named_fields, seal_payload, seal_identity, is_ascii, open_parts, open_identity,
}
use celery_diagnostics_obser.Runtime.{text_or_empty, stripped}
use celery_diagnostics_obser.Text.{strip, take_text, length_text, lower, has_dot, partition_dot}
use celery_diagnostics_obser.Values.Dict.{get, get?, set}
use celery_diagnostics_obser.Prelude.{
  ℕ, List, String, str_eq, Bool-cases, inl, inr, true, false, none, some, ◌≡◌, refl, pos, [], ◌∷◌,
  arith,
}
use celery_diagnostics_obser.Result.{Result, ok, err, value_error, ◌>>=◌}
use celery_diagnostics_obser.Values.{
  null, str, int, bool, list, dict, Items, nil, cons, Fields, end,
}
use celery_diagnostics_obser.Sanitizer.Labels.{◌&◌, public_observer_id}
use celery_diagnostics_obser.Identity.Capsule.{CapsuleLaws, IsShort}
use celery_diagnostics_obser.ActiveProbes.Handlers.{App, query_task, query_with}
use celery_diagnostics_obser.ActiveProbes.Absence.{Absence, absence_justified}
use celery_diagnostics_obser.ActiveProbes.Foreign.{expected_ref, foreign_capsule_refused}
use celery_diagnostics_obser.ActiveProbes.Resolve.{resolve-capsule}
use celery_diagnostics_obser.Tests.Samples.{sample_config, digits, runtime, local_policy}

-- One worker, which has the task in reserve.
abbrev app : App
app = record {
  query_task = λ asked task_id.
      ok (dict (("w@1", dict ((task_id, list (cons (str "reserved") nil)) & end)) & end));
  active = λ asked. ok null;
  stats = λ asked. ok null;
  ping = λ asked. ok null;
  active_queues = λ asked. ok null;
  status_only = false;
  eval_status = λ key. ok null;
  ascii = λ b. none;
  redis = record {
    llen_first = λ key. err value_error;
    lrange = λ key n. err value_error;
    llen_again = λ key. err value_error;
  };
  decoders = record { utf8 = λ b. none; loads = λ s. none };
}

abbrev request : Fields
request =
    ("request_id", str "1")
    & ("capability", str "celery.inspect.query_task")
    & ("task_id", str "b-2")
    & ("worker", str "w@1")
    & ("identity_capsule", str "v1.9f9f5111f7b2.{}")
    & ("run_ref", str "R-run:b-2")
    & end

abbrev out_of : Result Fields → Fields
out_of (ok out) = out
out_of (err e) = end

abbrev answer : Result Fields
answer = query_task (runtime end) sample_config local_policy app request

absent_runs :
    (answer ≡ ok (out_of answer)) × (get? "outcome_id" (out_of answer) ≡ some (str "absent"))
unfolding ◌>>=◌ get? lower stripped required_key prefix_of keyed_ref identity_ref required
    worker_set privacy_label worker_name labels_of reply_labels find_queried_task
    matching_attempt_error negative query_with
absent_runs = (refl, refl)

absence_justified_example : Absence (runtime end) sample_config local_policy app request
absence_justified_example =
    absence_justified (runtime end) sample_config local_policy app request (out_of answer)
      (absent_runs.0) (absent_runs.1)

abbrev child : Fields
child = ("type", str "task-failed") & ("uuid", str "b-2") & end

abbrev decoded : Fields
decoded = ("task_id", str "b-2") & end

abbrev foreign : Fields
foreign =
    ("request_id", str "1")
    & ("capability", str "celery.inspect.query_task")
    & ("task_id", str "R-run:a-1")
    & ("identity_capsule", str "v1.9f9f5111f7b2.{}")
    & end

abbrev execution : Result Fields
execution =
    execute (runtime decoded) sample_config local_policy app (pos 0)
      ("celery.inspect.query_task" ∷ []) "now" 0 foreign

foreign_runs :
    (str_eq (text_or_empty (runtime decoded) (get "identity_capsule" foreign)) "" ≡ false)
    × (open_identity
          (runtime decoded)
          (text_or_empty (runtime decoded) (get "identity_capsule" foreign))
          sample_config.identity_key
        ≡ ok decoded)
    × (get? "task_id" decoded ≡ some (str "b-2"))
    × (task_run_ref (runtime decoded) (str "b-2") sample_config.identity_key ≡ ok "R-run:b-2")
    × (str_eq (expected_ref (runtime decoded) sample_config local_policy foreign) "" ≡ false)
    × (str_eq (expected_ref (runtime decoded) sample_config local_policy foreign) "R-run:b-2"
        ≡ false)
    × (execution ≡ ok (out_of execution))
unfolding ◌>>=◌ get? strip take_text partition_dot stripped required_key identity_key_id run_ref_of
    task_run_ref named_fields open_parts open_identity public_observer_id execute
foreign_runs = (refl, refl, refl, refl, refl, refl, refl)

foreign_capsule_refused_example :
    (get? "complete" (out_of execution) ≡ some (bool false))
    × (get? "outcome_id" (out_of execution) ≡ none)
foreign_capsule_refused_example =
    foreign_capsule_refused (runtime decoded) sample_config local_policy foreign decoded (str "b-2")
      "R-run:b-2" refl (foreign_runs.0) (foreign_runs.1) (foreign_runs.2) (foreign_runs.3)
      (foreign_runs.4) (foreign_runs.5) app (pos 0) ("celery.inspect.query_task" ∷ []) "now" 0
      (out_of execution) (foreign_runs.6)

abbrev values : Fields
values = identity_values (runtime decoded) "task-failed" "b-2" child

plain_digits :
    (k : String)
    → (has_dot (take_text 12 (digits k)) ≡ false) × (is_ascii (take_text 12 (digits k)) ≡ true)
unfolding take_text has_dot is_ascii
plain_digits k = elim (Bool-cases (str_eq k "0123456789abcdef")) [
  | inl same ↦ rw same (refl, refl)
  | inr other ↦ rw other (refl, refl)
]

values_laws :
    CapsuleLaws (runtime decoded) (named_fields (runtime decoded) identity_fields values) decoded
unfolding get? strip take_text stripped named_fields is_ascii identity_values
values_laws = record {
  decrypt-encrypt = λ k. refl;
  encrypt_ascii = λ k. refl;
  key_id_dotless = λ k. (plain_digits k).0;
  key_id_ascii = λ k. (plain_digits k).1;
  loads-dumps = refl;
  get_decoded = λ k. refl;
}

values_short : IsShort (runtime decoded) values decoded values_laws
unfolding get? strip length_text stripped identity_values
values_short = (omega arith, (omega arith, (omega arith, (omega arith, (omega arith, tt)))))

own_runs :
    (capsule_for (runtime decoded) sample_config local_policy "task-failed" "b-2" child
      ≡ ok "v1.9f9f5111f7b2.{}")
    × (run_ref_for (runtime decoded) sample_config local_policy "b-2" ≡ ok "R-run:b-2")
    × (text_or_empty (runtime decoded) (get "identity_capsule" request) ≡ "v1.9f9f5111f7b2.{}")
    × (expected_ref (runtime decoded) sample_config local_policy request ≡ "R-run:b-2")
    × (strip "b-2" ≡ "b-2")
unfolding ◌>>=◌ get? strip take_text stripped required_key identity_key_id run_ref_of task_run_ref
    named_fields seal_payload seal_identity run_ref_for identity_values capsule_for
own_runs = (refl, refl, refl, refl, refl)

resolve-capsule_example :
    resolve_local_identity (runtime decoded) sample_config local_policy request
    ≡ ok (set "task_id" (str "b-2") (set "run_ref" (str "R-run:b-2") request))
resolve-capsule_example =
    resolve-capsule (runtime decoded) sample_config local_policy "task-failed" "b-2" child decoded
      values_laws refl refl (own_runs.4) values_short request "v1.9f9f5111f7b2.{}" "R-run:b-2"
      (own_runs.0) (own_runs.1) refl (own_runs.2) (own_runs.3)

-- An app that sets the default steps itself.
abbrev attributes : AppAttributes
attributes = record {
  result_serializer = str " JSON ";
  has_get_key = true;
  has_eval = true;
  transport_options = dict (("priority_steps", list (steps_of (0 ∷ 3 ∷ 6 ∷ 9 ∷ []))) & end);
}
  where
    steps_of : List ℕ → Items
    steps_of [] = nil
    steps_of (n ∷ ns) = cons (int (pos n)) (steps_of ns)

layout_read : uses_default_priority_layout (runtime end) attributes ≡ ok true
unfolding uses_default_priority_layout get? ◌>>=◌
    celery_diagnostics_obser.Sanitizer.Coerce.parsed_int
layout_read = refl
