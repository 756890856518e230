-- ===== src/ActiveProbes/Resolve.antt =====
-- active_probes.py: the identity in the capsule of an event, and the one that a probe resolves.
use celery_diagnostics_obser.Prelude.{
  String, Bool, true, false, not, ◌&&◌, some, ◌≡◌, refl, ap, str_eq, eq_refl,
}
use celery_diagnostics_obser.Result.{ok, ◌>>=◌}
use celery_diagnostics_obser.Values.{str, Fields}
use celery_diagnostics_obser.Values.Dict.{get?, get, set}
use celery_diagnostics_obser.Config.{ObserverConfig}
use celery_diagnostics_obser.Policy.{TelemetryPolicy, identities_local_only}
use celery_diagnostics_obser.Text.{strip}
use celery_diagnostics_obser.Text.Laws.{take_text_all}
use celery_diagnostics_obser.Identity.{named_fields, identity_fields, add_field}
use celery_diagnostics_obser.Identity.Capsule.{CapsuleLaws, IsShort, open-seal}
use celery_diagnostics_obser.Runtime.{Runtime, text_or_empty}
use celery_diagnostics_obser.Runtime.Laws.{stripped-str}
use celery_diagnostics_obser.Sanitizer.Parts.{identity_values, capsule_for, run_ref_for}
use celery_diagnostics_obser.ActiveProbes.Executor.{
  same_identity, with_identity, resolve_local_identity,
}
use celery_diagnostics_obser.ActiveProbes.Foreign.{expected_ref}

and_false : (b : Bool) → (b && false) ≡ false
and_false true = refl
and_false false = refl

module _ (rt : Runtime) (config : ObserverConfig) (policy : TelemetryPolicy)
    (event_type task_id : String) (raw decoded : Fields)
    (laws : CapsuleLaws rt
      (named_fields rt identity_fields (identity_values rt event_type task_id raw))
      decoded)
    (local : identities_local_only policy ≡ true) (present : str_eq task_id "" ≡ false)
    (strips : strip task_id ≡ task_id)
    (short : IsShort rt (identity_values rt event_type task_id raw) decoded laws) where
  sealed_id :
      get? "task_id" (named_fields rt identity_fields (identity_values rt event_type task_id raw))
      ≡ some (str task_id)
  unfolding named_fields add_field identity_values get?
  sealed_id =
      rw (stripped-str rt task_id strips, present)
        (ap (λ t. some (str t))
          (take_text_all 255 task_id (rw (stripped-str rt task_id strips) at (short.0))))

  -- Under `local-only`, a probe request that carries the capsule and the run_ref of an event
  -- resolves to the task id that the event was made from, if neither the id nor another identity of
  -- the event is longer than 255 characters, and the id is not empty and has no blanks around it.
  -- What is relied on: decryption undoes encryption, tokens are ASCII, JSON gives back the texts
  -- that it was made of, and a key id has no dot.
  pub resolve-capsule :
      (request : Fields) (capsule run_ref : String)
      → capsule_for rt config policy event_type task_id raw ≡ ok capsule
      → run_ref_for rt config policy task_id ≡ ok run_ref
      → str_eq capsule "" ≡ false
      → text_or_empty rt (get "identity_capsule" request) ≡ capsule
      → expected_ref rt config policy request ≡ run_ref
      → resolve_local_identity rt config policy request
        ≡ ok (set "task_id" (str task_id) (set "run_ref" (str run_ref) request))
  unfolding resolve_local_identity with_identity same_identity capsule_for run_ref_for ◌>>=◌
  resolve-capsule request capsule run_ref sealed refers has_capsule carries expects =
      let opens =
        open-seal rt (identity_values rt event_type task_id raw) decoded laws config.identity_key
          short capsule (rw local at sealed) in
      rw
        (
          local,
          carries,
          has_capsule,
          opens,
          sealed_id,
          rw local at refers,
          expects,
          eq_refl run_ref,
        )
        (rw (and_false (not (str_eq run_ref ""))) refl)
