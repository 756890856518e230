-- ===== src/Sanitizer/Events/Forbidden.antt =====
-- sanitizer.py: the forbidden fields and the mark of an event that leaves.
use celery_diagnostics_obser.Prelude.{
  String, true, Option, none, some, ◌≡◌, refl, All, str_eq, Bool-cases, inl, inr,
}
use celery_diagnostics_obser.Result.{
  Result, ok, Returns, Returns->>=, Returns-ok, Returns_at, Returns-weaken,
}
use celery_diagnostics_obser.Values.{
  Value, null, bool, int, float, str, bytes, list, tuple, dict, datetime, Fields,
}
use celery_diagnostics_obser.Values.Dict.{get?, get?-pop_all, pop_all-All}
use celery_diagnostics_obser.Config.{ObserverConfig}
use celery_diagnostics_obser.Policy.{TelemetryPolicy}
use celery_diagnostics_obser.Runtime.{Runtime}
use celery_diagnostics_obser.Sanitizer.Labels.{forbidden_fields, no_forbidden, strip_forbidden}
use celery_diagnostics_obser.Sanitizer.Parts.{type_of, id_of}
use celery_diagnostics_obser.Sanitizer.Events.{
  without_forbidden, sanitize_task_event, sanitize_worker_event, dispatch, sanitize_fields,
  sanitize_celery_event,
}
use celery_diagnostics_obser.Sanitizer.Events.Entries.{
  IsRedacted, task_payload-Returns, worker_payload-Returns,
}

-- no forbidden field, and the mark that says so
abbrev pub IsClean : Fields → Type 0
IsClean out = All (λ k. get? k out ≡ none) forbidden_fields × IsRedacted out

abbrev pub IfSent : (Fields → Type 0) → Option Fields → Type 0
IfSent Q none = Unit
IfSent Q (some out) = Q out

strip_forbidden-IsClean : (m : Fields) → IsRedacted m → IsClean (strip_forbidden m)
unfolding strip_forbidden
strip_forbidden-IsClean m h = (
  pop_all-All forbidden_fields m,
  rw (get?-pop_all "payload_redacted" forbidden_fields m (no_forbidden "payload_redacted" refl)) h,
)

without_forbidden-IsClean :
    (r : Result Fields) → Returns IsRedacted r → Returns (IfSent IsClean) (without_forbidden r)
without_forbidden-IsClean r h =
    Returns->>= _ _ _ (λ out e. Returns-ok _ _ (strip_forbidden-IsClean out (Returns_at _ _ _ h e)))

module _ (rt : Runtime) (config : ObserverConfig) (policy : TelemetryPolicy) (now : String) where
  task-IsClean :
      (event_type : String) (mapped : String × String) (raw : Fields)
      → Returns (IfSent IsClean) (sanitize_task_event rt config policy now event_type mapped raw)
  unfolding sanitize_task_event
  task-IsClean event_type mapped raw = elim (Bool-cases (str_eq (id_of rt raw) "")) [
    | inl empty ↦ rw empty (Returns-ok _ _ tt)
    | inr present ↦ rw present (
        without_forbidden-IsClean _ (
          Returns-weaken _ _ _ (λ out h. h.run_entries.redacted)
            (task_payload-Returns rt config policy event_type raw now (id_of rt raw) mapped)))
  ]

  worker-IsClean :
      (event_type : String) (mapped : String × String) (raw : Fields)
      → Returns (IfSent IsClean) (sanitize_worker_event rt config policy now event_type mapped raw)
  unfolding sanitize_worker_event
  worker-IsClean event_type mapped raw = Returns->>= _ _ _ (λ labelled e.
      elim (Bool-cases (str_eq (labelled.0) "")) [
        | inl empty ↦ rw empty (Returns-ok _ _ tt)
        | inr present ↦ rw present (
            without_forbidden-IsClean _
              (worker_payload-Returns rt config policy event_type raw now mapped labelled))
      ])

  dispatch-IsClean :
      (event_type : String) (t w : Option (String × String)) (raw : Fields)
      → Returns (IfSent IsClean) (dispatch rt config policy now raw event_type t w)
  unfolding dispatch
  dispatch-IsClean event_type (some mapped) w raw = task-IsClean event_type mapped raw
  dispatch-IsClean event_type none (some mapped) raw = worker-IsClean event_type mapped raw
  dispatch-IsClean event_type none none raw = Returns-ok _ _ tt

  celery-IsClean :
      (raw : Value) → Returns (IfSent IsClean) (sanitize_celery_event rt config policy now raw)
  unfolding sanitize_celery_event sanitize_fields
  celery-IsClean (dict raw) = dispatch-IsClean (type_of rt raw) _ _ raw
  celery-IsClean null = Returns-ok _ _ tt
  celery-IsClean (bool b) = Returns-ok _ _ tt
  celery-IsClean (int n) = Returns-ok _ _ tt
  celery-IsClean (float b) = Returns-ok _ _ tt
  celery-IsClean (str s) = Returns-ok _ _ tt
  celery-IsClean (bytes b) = Returns-ok _ _ tt
  celery-IsClean (list vs) = Returns-ok _ _ tt
  celery-IsClean (tuple vs) = Returns-ok _ _ tt
  celery-IsClean (datetime m) = Returns-ok _ _ tt

  -- Whatever the raw event holds, an event that is made from it has none of the ten forbidden
  -- fields, and is marked `payload_redacted`.
  pub celery_event_clean :
      (raw : Value) (out : Fields)
      → sanitize_celery_event rt config policy now raw ≡ ok (some out)
      → All (λ k. get? k out ≡ none) forbidden_fields
        × (get? "payload_redacted" out ≡ some (bool true))
  celery_event_clean raw out h = Returns_at (IfSent IsClean) _ (some out) (celery-IsClean raw) h
