-- ===== src/ActiveProbes/Foreign.antt =====
-- active_probes.py: requests whose capsule belongs to another task.
use celery_diagnostics_obser.Prelude.{
  ℕ, ℤ, String, true, false, not, ◌||◌, Option, none, some, List, ◌≡◌, refl, inl, inr, Bool-cases,
  str_eq,
}
use celery_diagnostics_obser.Result.{
  Result, ok, err, capsule_error, Returns->>=, Returns-ok, Returns_at, ◌>>=◌,
}
use celery_diagnostics_obser.Values.{Value, bool, Fields, ◌or◌}
use celery_diagnostics_obser.Values.Dict.{get?, get, set}
use celery_diagnostics_obser.Config.{ObserverConfig}
use celery_diagnostics_obser.Policy.{TelemetryPolicy, identities_local_only}
use celery_diagnostics_obser.Identity.{open_identity, task_run_ref}
use celery_diagnostics_obser.Runtime.{Runtime, text_or_empty}
use celery_diagnostics_obser.ActiveProbes.Answers.{is_member, incomplete}
use celery_diagnostics_obser.ActiveProbes.Handlers.{App}
use celery_diagnostics_obser.ActiveProbes.Executor.{
  merge, same_identity, with_identity, resolve_local_identity, handler_of, outcome_of,
  supported_outcome, execute,
}

module _ (rt : Runtime) (config : ObserverConfig) (policy : TelemetryPolicy)
    (request : Fields) where
  -- the reference that a request expects
  abbrev pub expected_ref : String
  expected_ref = text_or_empty rt (get "run_ref" request or get "task_id" request)

  module _ (identity : Fields) (task_id : Value) (actual : String)
      (local : identities_local_only policy ≡ true)
      (has_capsule : str_eq (text_or_empty rt (get "identity_capsule" request)) "" ≡ false)
      (opens : open_identity rt
          (text_or_empty rt (get "identity_capsule" request))
          config.identity_key
        ≡ ok identity)
      (holds : get? "task_id" identity ≡ some task_id)
      (refers : task_run_ref rt task_id config.identity_key ≡ ok actual)
      (present : str_eq expected_ref "" ≡ false)
      (differs : str_eq expected_ref actual ≡ false) where
    mismatch :
        resolve_local_identity rt config policy request
        ≡ err (capsule_error "identity_capsule_mismatch")
    unfolding resolve_local_identity with_identity same_identity ◌>>=◌
    mismatch = rw (local, has_capsule, opens, holds, refers, present, differs) refl

    module _ (app : App) (now : ℤ) where
      IsIncomplete : Fields → Type 0
      IsIncomplete out = (e : String) × (out ≡ incomplete e)

      mismatch_outcome :
          (handler : Option (Fields → Result Fields))
          → IsIncomplete (outcome_of rt config policy app now handler request)
      unfolding outcome_of ◌>>=◌ IsIncomplete
      mismatch_outcome none = ("missing_handler", refl)
      mismatch_outcome (some handler) = ("identity_capsule_mismatch", rw mismatch refl)

      mismatch_supported :
          (capabilities : List String) (request_id capability : String)
          → IsIncomplete (
              supported_outcome rt config policy app now capabilities request_id capability request)
      unfolding supported_outcome IsIncomplete
      mismatch_supported capabilities request_id capability =
          elim (Bool-cases (str_eq request_id "" || not (is_member capability capabilities))) [
            | inl unsupported ↦ ("unsupported_capability", rw unsupported refl)
            | inr supported ↦
                rw supported (mismatch_outcome (handler_of rt config policy app now capability))
          ]

      -- Under local-only, a request whose capsule opens to a task other than the one it names gets no
      -- verdict, whatever its capability is and whatever the workers would reply.
      pub foreign_capsule_refused :
          (capabilities : List String) (observed_at : String) (latency : ℕ) (out : Fields)
          → execute rt config policy app now capabilities observed_at latency request ≡ ok out
          → (get? "complete" out ≡ some (bool false)) × (get? "outcome_id" out ≡ none)
      unfolding execute IsIncomplete merge set get?
      foreign_capsule_refused capabilities observed_at latency out h =
          Returns_at (λ o. (get? "complete" o ≡ some (bool false)) × (get? "outcome_id" o ≡ none)) _
            out
            (Returns->>= _ _ _ (λ observer_id e.
              let (error, same) =
                mismatch_supported capabilities (text_or_empty rt (get "request_id" request))
                  (text_or_empty rt (get "capability" request)) in
              Returns-ok _ _ (rw same (refl, refl))))
            h
