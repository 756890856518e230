-- ===== src/Sanitizer/Labels.antt =====
-- sanitizer.py: the labels of identities, the references between tasks, and the dictionary of an
-- event without its forbidden fields.
use celery_diagnostics_obser.Prelude.{
  String, Bool, true, false, ◌||◌, not, str_eq, All, ◌≡◌, arith, if◌then◌else◌, List, [], ◌∷◌,
}
use celery_diagnostics_obser.Result.{Result, ok, ◌>>=◌}
use celery_diagnostics_obser.Values.{Value, str, Fields, field}
use celery_diagnostics_obser.Values.Dict.{pop_all}
use celery_diagnostics_obser.Config.{ObserverConfig}
use celery_diagnostics_obser.Policy.{TelemetryPolicy, identities_local_only, policy_local_only}
use celery_diagnostics_obser.Identity.{identity_ref, task_run_ref}
use celery_diagnostics_obser.Text.{take_text}
use celery_diagnostics_obser.Runtime.{Runtime, stripped}
use celery_diagnostics_obser.Sanitizer.Coerce.{safe_token}

-- ObserverConfig.public_observer_id of config.py
unfoldable pub public_observer_id : Runtime → ObserverConfig → Result String
public_observer_id rt config =
    if str_eq config.telemetry_policy policy_local_only
    then identity_ref rt "observer" (str config.observer_id) config.identity_key
    else ok (take_text 255 config.observer_id)

abbrev pub reference_label : Runtime → String → String → ObserverConfig → Result (String × Bool)
reference_label rt kind raw config = do
  ref ← identity_ref rt kind (str raw) config.identity_key
  ok (ref, true)

-- _label
unfoldable pub label : Runtime → Value → Bool → String → ObserverConfig → Result (String × Bool)
label rt value allowed kind config =
    let raw = stripped rt value in
    if str_eq raw ""
    then ok ("", false)
    else if allowed
    then ok (safe_token rt (str raw) 255, false)
    else reference_label rt kind raw config

-- _task_relation_ref
unfoldable pub task_relation_ref :
    Runtime → Value → ObserverConfig → TelemetryPolicy → Result String
task_relation_ref rt value config policy =
    let raw = safe_token rt value 255 in
    if str_eq raw "" || not (identities_local_only policy)
    then ok raw
    else task_run_ref rt (str raw) config.identity_key

-- FORBIDDEN_FIELDS
abbrev pub forbidden_fields : List String
forbidden_fields =
    "args" ∷ "kwargs" ∷ "argsrepr" ∷ "kwargsrepr" ∷ "result" ∷ "retval" ∷ "traceback" ∷ "einfo"
    ∷ "request" ∷ "body" ∷ []

-- key in FORBIDDEN_FIELDS
abbrev pub is_forbidden : String → Bool
is_forbidden key =
    str_eq "args" key
    || str_eq "kwargs" key
    || str_eq "argsrepr" key
    || str_eq "kwargsrepr" key
    || str_eq "result" key
    || str_eq "retval" key
    || str_eq "traceback" key
    || str_eq "einfo" key
    || str_eq "request" key
    || str_eq "body" key

pub no_forbidden :
    (key : String) → is_forbidden key ≡ false → All (λ k. str_eq k key ≡ false) forbidden_fields
no_forbidden key h = ground arith

-- _strip_forbidden
unfoldable pub strip_forbidden : Fields → Fields
unfolding pop_all
strip_forbidden payload = pop_all forbidden_fields payload

-- an entry in front of the rest of a dictionary
infixr 3 ◌&◌
abbrev pub ◌&◌ : String × Value → Fields → Fields
(key, value) & rest = field key value rest
