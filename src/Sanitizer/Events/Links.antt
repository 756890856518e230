-- ===== src/Sanitizer/Events/Links.antt =====
-- sanitizer.py: events of different tasks that name each other by keyed references.
use celery_diagnostics_obser.Prelude.{
  String, true, false, ◌≤◌, some, ◌≡◌, refl, ◌∙◌, ap, str_eq, Bool-cases, inl, inr,
}
use celery_diagnostics_obser.Result.{ok, Returns, Returns->>=, Returns-ok, Returns_at}
use celery_diagnostics_obser.Values.{Value, str, dict, Fields, ◌or◌}
use celery_diagnostics_obser.Values.Dict.{get, get?, get?-pop_all}
use celery_diagnostics_obser.Config.{ObserverConfig}
use celery_diagnostics_obser.Policy.{TelemetryPolicy, identities_local_only}
use celery_diagnostics_obser.Identity.{task_run_ref}
use celery_diagnostics_obser.Text.{length_text, take_text}
use celery_diagnostics_obser.Text.Laws.{has_nul, strip-strip, take_text_all, without_nul_none}
use celery_diagnostics_obser.Runtime.{Runtime, text_or_empty, stripped}
use celery_diagnostics_obser.Runtime.Laws.{text_or_empty-str, stripped-stripped}
use celery_diagnostics_obser.Sanitizer.Coerce.{safe_token}
use celery_diagnostics_obser.Sanitizer.Labels.{
  task_relation_ref, strip_forbidden, forbidden_fields, no_forbidden,
}
use celery_diagnostics_obser.Sanitizer.Parts.{type_of, id_of, task_event_map, run_ref_for}
use celery_diagnostics_obser.Sanitizer.Events.{
  sanitize_task_event, dispatch, sanitize_fields, sanitize_celery_event,
}
use celery_diagnostics_obser.Sanitizer.Events.Entries.{TaskEntries, task_payload-Returns}
use celery_diagnostics_obser.Sanitizer.Events.Forbidden.{IfSent}

module _ (rt : Runtime) where
  safe_token-stripped :
      (v : Value)
      → has_nul (stripped rt v) ≡ false
      → length_text (stripped rt v) ≤ 255
      → safe_token rt (str (stripped rt v)) 255 ≡ stripped rt v
  unfolding safe_token stripped
  safe_token-stripped v nul short =
      rw (text_or_empty-str rt (stripped rt v), without_nul_none (stripped rt v) nul)
        (ap (take_text 255) (strip-strip (text_or_empty rt v))
          ∙ take_text_all 255 (stripped rt v) short)

  task_run_ref-stripped :
      (v : Value) (key : String) → task_run_ref rt (str (stripped rt v)) key ≡ task_run_ref rt v key
  unfolding task_run_ref
  task_run_ref-stripped v key = rw (stripped-stripped rt v) refl

  module _ (config : ObserverConfig) (policy : TelemetryPolicy) where
    -- what a child says of its parent is what the parent says of itself
    same_reference :
        (parent : Fields)
        → identities_local_only policy ≡ true
        → str_eq (id_of rt parent) "" ≡ false
        → has_nul (id_of rt parent) ≡ false
        → length_text (id_of rt parent) ≤ 255
        → task_relation_ref rt (str (id_of rt parent)) config policy
          ≡ run_ref_for rt config policy (id_of rt parent)
    unfolding task_relation_ref run_ref_for id_of
    same_reference parent local present nul short =
        rw
          (
            safe_token-stripped (get "uuid" parent or get "id" parent or get "task_id" parent) nul
                short,
            local,
            present,
          )
          refl

    -- what the event of a task says of the task and of its parent
    record SentEntries (raw out : Fields) : Type 0 where
      has_id : str_eq (id_of rt raw) "" ≡ false
      run_ref : String
      run_ref_lem : run_ref_for rt config policy (id_of rt raw) ≡ ok run_ref
      run_ref_entry : get? "run_ref" out ≡ some (str run_ref)
      parent_ref : String
      parent_ref_lem : task_relation_ref rt (get "parent_id" raw) config policy ≡ ok parent_ref
      parent_id_entry : get? "parent_id" out ≡ some (str parent_ref)

    stripped_entries :
        (event_type : String) (raw m : Fields)
        → str_eq (id_of rt raw) "" ≡ false
        → TaskEntries rt config policy event_type raw (id_of rt raw) m
        → SentEntries raw (strip_forbidden m)
    unfolding strip_forbidden
    stripped_entries event_type raw m present h = record {
      has_id = present;
      run_ref = h.run_ref;
      run_ref_lem = h.run_ref_lem;
      run_ref_entry =
          rw (get?-pop_all "run_ref" forbidden_fields m (no_forbidden "run_ref" refl))
            (h.run_ref_entry);
      parent_ref = h.run_entries.parent_ref;
      parent_ref_lem = h.run_entries.parent_ref_lem;
      parent_id_entry =
          rw (get?-pop_all "parent_id" forbidden_fields m (no_forbidden "parent_id" refl))
            (h.run_entries.parent_id_lem);
    }

    task_entries :
        (now event_type : String) (mapped : String × String) (raw : Fields)
        → Returns
            (IfSent (SentEntries raw))
            (sanitize_task_event rt config policy now event_type mapped raw)
    unfolding sanitize_task_event
    task_entries now event_type mapped raw = elim (Bool-cases (str_eq (id_of rt raw) "")) [
      | inl empty ↦ rw empty (Returns-ok _ _ tt)
      | inr present ↦ rw present (
          Returns->>= _ _ _ (λ m e. Returns-ok _ _ (
            stripped_entries event_type raw m present (
              Returns_at _ _ m
                (task_payload-Returns rt config policy event_type raw now (id_of rt raw) mapped)
                e))))
    ]

    celery_entries :
        (now : String) (raw out : Fields) (mapped : String × String)
        → task_event_map (type_of rt raw) ≡ some mapped
        → sanitize_celery_event rt config policy now (dict raw) ≡ ok (some out)
        → SentEntries raw out
    unfolding sanitize_celery_event sanitize_fields dispatch
    celery_entries now raw out mapped known h =
        Returns_at (IfSent (SentEntries raw)) _ (some out)
          (task_entries now (type_of rt raw) mapped raw) (rw known at h)

    -- Under the policy `local-only`, the event of a task whose raw event names its parent by the
    -- parent's task id carries as `parent_id` the very `run_ref` of the parent's own event, if that
    -- id has at most 255 characters and no NUL.
    pub parent_linked :
        (now now' : String) (parent child out out' : Fields) (mapped mapped' : String × String)
        → identities_local_only policy ≡ true
        → task_event_map (type_of rt parent) ≡ some mapped
        → task_event_map (type_of rt child) ≡ some mapped'
        → has_nul (id_of rt parent) ≡ false
        → length_text (id_of rt parent) ≤ 255
        → get "parent_id" child ≡ str (id_of rt parent)
        → sanitize_celery_event rt config policy now (dict parent) ≡ ok (some out)
        → sanitize_celery_event rt config policy now' (dict child) ≡ ok (some out')
        → get? "parent_id" out' ≡ get? "run_ref" out
    parent_linked now now' parent child out out' mapped mapped' local known known' nul short names
          sent_parent sent_child =
        let own = celery_entries now parent out mapped known sent_parent in
        let its = celery_entries now' child out' mapped' known' sent_child in
        let equal = same_reference parent local own.has_id nul short in
        let of_child = rw names at its.parent_ref_lem in
        let of_parent = own.run_ref_lem in
        let entry = own.run_ref_entry in let entry' = its.parent_id_entry in cc
