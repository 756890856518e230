-- ===== src/AppLoader.antt =====
-- app_loader.py: the app that the observer works with. Modules, their attributes and Celery's own
-- class are parameters.
pub mod Paths
use celery_diagnostics_obser.Prelude.{
  String, Bool, true, ◌&&◌, not, str_eq, if◌then◌else◌, List, [], ◌∷◌,
}
use celery_diagnostics_obser.Prelude.{◌==◌}
use Prim.Native.Char.{code}
use celery_diagnostics_obser.Result.{Result, ok, ◌>>=◌}
use celery_diagnostics_obser.Text.{has_char, has_dot, before_colon, before_last_dot, last_part}
use celery_diagnostics_obser.Config.{ObserverConfig, mode_project_aware}

-- The objects of the interpreter, and what the loader asks of them. `new_celery` makes an app with
-- this name and broker, and sets the named flags of its configuration.
pub record Loader : Type 1 where
  pub Object : Type 0
  pub import_module : String → Result Object
  pub getattr : Object → String → Result Object
  pub new_celery : String → String → List String → Result Object

-- what follows the first colon
unfoldable pub after_colon : String → String
after_colon String.[] = ""
after_colon (String.◌∷◌ c s) = let rest = after_colon s in if code c == b':' then s else rest

-- the module and the attribute of an import path
unfoldable pub app_path : String → String × String
unfolding after_colon
app_path path =
    if has_char b':' path
    then (before_colon path, after_colon path)
    else if has_dot path
    then (before_last_dot path, last_part path)
    else (path, "")

unfoldable pub load_at : (l : Loader) → String × String → Result l.Object
load_at l (module_name, attr) = do
  module_object ← l.import_module module_name
  if str_eq attr "" then ok module_object else l.getattr module_object attr

-- _load_project_app
unfoldable pub load_project_app : (l : Loader) → String → Result l.Object
unfolding load_at app_path
load_project_app l path = load_at l (app_path path)

-- config.mode == MODE_PROJECT_AWARE and config.app
unfoldable pub is_app_aware : ObserverConfig → Bool
is_app_aware config = str_eq config.mode mode_project_aware && not (str_eq config.app "")

-- load_celery_app
unfoldable pub load_celery_app : (l : Loader) → ObserverConfig → Result l.Object
unfolding load_project_app is_app_aware
load_celery_app l config =
    if is_app_aware config
    then load_project_app l config.app
    else l.new_celery "celery_diagnostics_observer" config.broker_url
        ("worker_send_task_events" ∷ "task_send_sent_event" ∷ "task_track_started" ∷ [])
