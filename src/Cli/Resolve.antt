-- ===== src/Cli/Resolve.antt =====
-- cli.py: `resolve` and `replay-events`, and the choice of the command.
pub mod Sound
use Prim.Native.Char.{Char, code}
use celery_diagnostics_obser.Prelude.{
  ℕ, zero, suc, String, Bool, true, false, ◌&&◌, ◌||◌, ◌==◌, leb, not, Option, none, some, List,
  str_eq, concat, if◌then◌else◌,
}
use celery_diagnostics_obser.Result.{
  Result, ok, err, Error, value_error, capsule_error, other_error, key_error, class_name, or_raise,
  ◌>>=◌,
}
use celery_diagnostics_obser.Values.{Value, null, str, dict, Moment, Fields, field}
use celery_diagnostics_obser.Values.Dict.{get, get?}
use celery_diagnostics_obser.Text.{upper, starts_with}
use celery_diagnostics_obser.Runtime.{Runtime, stripped, text_or_empty}
use celery_diagnostics_obser.Identity.{
  identity_key_id, open_identity, task_run_ref, reference_token_length,
}
use celery_diagnostics_obser.Config.{ObserverConfig}
use celery_diagnostics_obser.Config.Settings.{identity_resolve_url}
use celery_diagnostics_obser.Replay.{Arithmetic, ReplayExport, export_event_replay}
use celery_diagnostics_obser.Cli.{
  Machine, Printed, attribute, config_from_args, policy_of, identity_config_error, doctor, status,
}
use celery_diagnostics_obser.Cli.Observe.{Observed, ObserveWorld, observe}

-- The backend's answer to a GET of a URL with a bearer token, as JSON, or the exception of the
-- request; and the names of the exceptions that are `requests.RequestException`s.
pub record Http : Type 0 where
  pub get_json : String → String → Result Value
  pub is_request_error : String → Bool

-- [A-Z2-7]
abbrev pub is_base32 : Char → Bool
is_base32 c = (leb b'A' (code c) && leb (code c) b'Z') || (leb b'2' (code c) && leb (code c) b'7')

-- exactly n characters of base32
unfoldable pub is_token : ℕ → String → Bool
is_token zero String.[] = true
is_token zero (String.◌∷◌ c s) = false
is_token (suc n) String.[] = false
is_token (suc n) (String.◌∷◌ c s) = is_base32 c && is_token n s

abbrev pub after_two : String → String
after_two (String.◌∷◌ c (String.◌∷◌ d s)) = s
after_two s = ""

-- RUN_REF_RE.fullmatch
unfoldable pub is_run_ref : String → Bool
unfolding is_token
is_run_ref s = starts_with "R-" s && is_token reference_token_length (after_two s)

-- What `resolve` leaves: its exit code, what it prints as JSON, and what it prints as an error.
pub record Resolved : Type 0 where
  pub code : ℕ
  pub result : Option Fields
  pub message : String

abbrev pub resolve_failed : ℕ → String → Result Resolved
resolve_failed code message = ok (record { code = code; result = none; message = message })

-- payload.get; a list or a text has no such attribute
abbrev pub as_mapping_or_raise : Value → Result Fields
as_mapping_or_raise (dict m) = ok m
as_mapping_or_raise v = err (other_error "AttributeError")

-- (requests.RequestException, ValueError, IdentityCapsuleError)
abbrev pub is_resolve_error : Http → Error → Bool
is_resolve_error http value_error = true
is_resolve_error http (capsule_error message) = true
is_resolve_error http (other_error name) = http.is_request_error name
is_resolve_error http e = false

abbrev pub could_not : String → String → Result Resolved
could_not run_ref why =
    resolve_failed 1 (concat "Could not resolve " (concat run_ref (concat ": " why)))

-- {"run_ref": run_ref, **identity}
abbrev pub resolved_if : String → Fields → String → Result Resolved
resolved_if run_ref identity actual =
    if not (str_eq actual run_ref)
    then could_not run_ref "identity capsule mismatch"
    else ok
        (record { code = 0; result = some (field "run_ref" (str run_ref) identity); message = "" })

module _ (m : Machine) (http : Http) where
  -- ask the backend for the capsule, and open it
  unfoldable pub fetch_identity : ObserverConfig → String → Result Fields
  fetch_identity config run_ref = do
    value ←
        http.get_json (concat (identity_resolve_url config) (concat run_ref "/")) config.project_key
    payload ← as_mapping_or_raise value
    open_identity m.runtime (text_or_empty m.runtime (get "identity_capsule" payload))
        config.identity_key

  -- the identity's task id must have this reference
  unfoldable pub checked_identity : ObserverConfig → String → Fields → Result Resolved
  checked_identity config run_ref identity = do
    task_id ← or_raise (get? "task_id" identity) key_error
    actual ← task_run_ref m.runtime task_id config.identity_key
    resolved_if run_ref identity actual

  abbrev pub check_fetched : ObserverConfig → String → Result Fields → Result Resolved
  check_fetched config run_ref (ok identity) = checked_identity config run_ref identity
  check_fetched config run_ref (err e) =
      if is_resolve_error http e then could_not run_ref (class_name e) else err e

  abbrev pub resolve_keyed : ObserverConfig → String → Result String → Result Resolved
  resolve_keyed config run_ref (ok key_id) =
      check_fetched config run_ref (fetch_identity config run_ref)
  resolve_keyed config run_ref (err (capsule_error message)) =
      resolve_failed 2 (concat "CD_IDENTITY_KEY is required: " message)
  resolve_keyed config run_ref (err e) = err e

  unfoldable pub resolve_with : ObserverConfig → String → Result Resolved
  resolve_with config run_ref =
      if not (is_run_ref run_ref)
      then resolve_failed 2 "RUN_REF must use the R-XXXXXXXXXXXX format"
      else if str_eq config.project_key ""
      then resolve_failed 2 "CD_PROJECT_KEY environment variable is required"
      else resolve_keyed config run_ref (identity_key_id m.runtime config.identity_key)

  -- str(args.run_ref or "").strip().upper()
  abbrev pub run_ref_of_args : Fields → String
  run_ref_of_args args =
      upper m.runtime.upper_wide (stripped m.runtime (attribute (get? "run_ref" args) null))

  -- resolve_identity
  unfoldable pub resolve_identity : Fields → Result Resolved
  unfolding resolve_with
  resolve_identity args = do
    config ← config_from_args m args
    resolve_with config (run_ref_of_args args)

-- What `replay-events` reads besides the settings.
pub record ReplayWorld : Type 0 where
  pub arithmetic : Arithmetic
  pub now : ℕ → String
  pub clock : Moment
  pub lines : List String
  pub cutoff : ℕ
  pub anchor : Option String

-- What it leaves: its exit code, and the export with its rows.
pub record Replayed : Type 0 where
  pub code : ℕ
  pub export : Option (ReplayExport × List Fields)

abbrev pub anchor_of : Runtime → Option String → Result (Option Moment)
anchor_of rt none = ok none
anchor_of rt (some s) =
    if str_eq s ""
    then ok none
    else do moment ← or_raise (rt.from_isoformat s) value_error; ok (some moment)

abbrev pub refuse_replay : Result Replayed
refuse_replay = ok (record { code = 2; export = none })

module _ (m : Machine) (w : ReplayWorld) where
  unfoldable pub replay_keyed : ObserverConfig → Result Replayed
  replay_keyed config = do
    anchor ← anchor_of m.runtime w.anchor
    export ←
        export_event_replay w.arithmetic m.runtime config (policy_of m config) w.now w.clock w.lines
          w.cutoff anchor
    ok (record { code = 0; export = some export })

  abbrev pub replay_if : ObserverConfig → String → Result Replayed
  replay_if config error = if not (str_eq error "") then refuse_replay else replay_keyed config

  unfoldable pub replay_config : ObserverConfig → Result Replayed
  unfolding replay_keyed
  replay_config config = if str_eq config.project_key "" then refuse_replay else do
    error ← identity_config_error m.runtime config (policy_of m config)
    replay_if config error

  -- replay_events
  unfoldable pub replay_events : Fields → Result Replayed
  unfolding replay_config
  replay_events args = do config ← config_from_args m args; replay_config config

-- The commands, and what the interpreter provides for each.
pub data Command : Type 0 where
  observe_command : ObserveWorld → Command
  doctor_command status_command : Command
  replay_command : ReplayWorld → Command
  resolve_command : Http → Command
  no_command : Command

abbrev code_of_printed : Result Printed → Result ℕ
code_of_printed (err e) = err e
code_of_printed (ok printed) = ok printed.code

abbrev code_of_replayed : Result Replayed → Result ℕ
code_of_replayed (err e) = err e
code_of_replayed (ok replayed) = ok replayed.code

abbrev code_of_resolved : Result Resolved → Result ℕ
code_of_resolved (err e) = err e
code_of_resolved (ok resolved) = ok resolved.code

-- main: the exit code of the command
unfoldable pub main : Machine → Command → Fields → Result ℕ
main m (observe_command w) args = (observe m w args).0
main m doctor_command args = code_of_printed (doctor m args)
main m status_command args = code_of_printed (status m args)
main m (replay_command w) args = code_of_replayed (replay_events m w args)
main m (resolve_command http) args = code_of_resolved (resolve_identity m http args)
main m no_command args = ok 2
