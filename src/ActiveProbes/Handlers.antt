-- ===== src/ActiveProbes/Handlers.antt =====
-- active_probes.py: the probes, each on one request. Timeouts and the closing of clients are left out.
use celery_diagnostics_obser.Prelude.{
  ℕ, ℤ, pos, int_ltb, String, Bool, true, false, ◌||◌, not, Option, none, some, List, length,
  str_eq, if◌then◌else◌,
}
use celery_diagnostics_obser.Result.{Result, ok, ◌>>=◌}
use celery_diagnostics_obser.Values.{Value, bool, int, str, bytes, dict, Fields, end, ◌or◌}
use celery_diagnostics_obser.Values.Dict.{get}
use celery_diagnostics_obser.Config.{ObserverConfig}
use celery_diagnostics_obser.Policy.{TelemetryPolicy}
use celery_diagnostics_obser.Text.{upper}
use celery_diagnostics_obser.Runtime.{Runtime, stripped}
use celery_diagnostics_obser.MessageProbe.{RedisClient, Decoders, redis_task_message_present}
use celery_diagnostics_obser.Sanitizer.Labels.{◌&◌}
use celery_diagnostics_obser.ActiveProbes.Requests.{
  required, expected_workers, destination, queue_name, reply_labels, configured_queue,
  parse_datetime,
}
use celery_diagnostics_obser.ActiveProbes.Matching.{
  Match, find_queried_task, matching_attempt_error,
}
use celery_diagnostics_obser.ActiveProbes.Answers.{
  is_subset, common_count, has_workers, negative_complete, positive, negative, incomplete,
}

-- The app, as far as the probes call it: the inspect commands, with the workers that are asked, and
-- the result backend, with `status_only` for supports_status_only_result_probe. `ascii` is
-- bytes.decode("ascii"), `none` for `UnicodeDecodeError`.
pub record App : Type 0 where
  pub query_task : Option (List String) → String → Result Value
  pub active : Option (List String) → Result Value
  pub stats : Option (List String) → Result Value
  pub ping : Option (List String) → Result Value
  pub active_queues : Option (List String) → Result Value
  pub status_only : Bool
  pub eval_status : String → Result Value
  pub ascii : List ℕ → Option String
  pub redis : RedisClient
  pub decoders : Decoders

-- the answer to whether the task runs, if no attempt differs
abbrev pub task_answer : Option Match → List String → List String → Fields
task_answer none expected replies =
    negative "absent" "not_active" (negative_complete expected replies) expected replies "" ""
task_answer (some found) expected replies =
    if str_eq found.state "active"
    then positive "active" "active" expected replies
    else negative "absent" (if str_eq found.state "ready" then "scheduled" else "reserved") true
        expected replies "" ""

-- the answer to whether the task is reserved, if no attempt differs
abbrev pub reservation_answer : Option Match → List String → List String → Fields
reservation_answer none expected replies =
    negative "not_reserved" "not_reserved" (negative_complete expected replies) expected replies ""
      ""
reservation_answer (some found) expected replies =
    if str_eq found.state "reserved" || str_eq found.state "ready"
    then positive "reserved" (if str_eq found.state "ready" then "scheduled" else "reserved")
        expected replies
    else negative "not_reserved" "not_reserved" true expected replies "" ""

-- another attempt of the task gives no answer
abbrev pub unless_error : String → List String → List String → Fields → Fields
unless_error error expected replies answer =
    if str_eq error ""
    then answer
    else negative "" "attempt_unverifiable" false expected replies error ""

module _ (rt : Runtime) (config : ObserverConfig) (policy : TelemetryPolicy) (app : App) where
  -- _query_task and _query_reservation, which differ in the answer to what `query_task` finds
  unfoldable pub query_with :
      (Option Match → List String → List String → Fields) → Fields → Result Fields
  query_with answer request = do
    task_id ← required rt request "task_id"
    queried ← app.query_task (destination rt policy request) task_id
    let expected = expected_workers rt request
    let found = find_queried_task rt (queried or dict end) task_id
    replies ← reply_labels rt config policy (queried or dict end)
    error ← matching_attempt_error rt request found
    ok (unless_error error expected replies (answer found expected replies))

  abbrev pub query_task : Fields → Result Fields
  query_task request = query_with task_answer request

  abbrev pub query_reservation : Fields → Result Fields
  query_reservation request = query_with reservation_answer request

  abbrev pub verdict : String → Fields
  verdict outcome =
      ("outcome_id", str outcome) & ("complete", bool true) & ("state", str outcome) & end

  abbrev pub schedule_answer : ℤ → Option ℤ → Fields
  schedule_answer now none = incomplete "schedule_metadata_unavailable"
  schedule_answer now (some target) =
      verdict (if int_ltb now target then "eligibility_future" else "eligibility_due")

  -- _query_schedule at the time `now`, in microseconds since 1970
  unfoldable pub query_schedule : ℤ → Fields → Result Fields
  query_schedule now request = do
    target ← parse_datetime rt (get "scheduled_for" request or get "eta" request)
    ok (schedule_answer now target)

  unfoldable pub query_worker_presence : Fields → Result Fields
  query_worker_presence request =
      let expected = expected_workers rt request in
      if not (has_workers expected) then ok (incomplete "target_worker_unknown") else do
        ping ← app.ping (destination rt policy request)
        replies ← reply_labels rt config policy (ping or dict end)
        let received = int (pos (common_count expected replies))
        let workers = int (pos (length expected))
        ok (
            if is_subset expected replies
            then ("outcome_id", str "online")
              & ("complete", bool true)
              & ("state", str "online")
              & ("worker_replies_expected", workers)
              & ("worker_replies_received", received)
              & end
            else ("complete", bool false)
              & ("error_type", str "worker_presence_unconfirmed")
              & ("state", str "no_ping_reply")
              & ("worker_replies_expected", workers)
              & ("worker_replies_received", received)
              & end)

  -- redis_result_status of redis_result_probe.py: the state of a result, from the status alone
  abbrev pub status_text : Value → Option String
  status_text (bytes b) = app.ascii b
  status_text v = some (stripped rt v)

  unfoldable pub state_of_text : Option String → Option String
  state_of_text none = none
  state_of_text (some text) =
      let state = upper rt.upper_wide (stripped rt (str text)) in
      if str_eq state "__CELERY_DIAGNOSTICS_MISSING__"
      then some "PENDING"
      else if str_eq state "" || str_eq state "__CELERY_DIAGNOSTICS_INVALID__"
      then none
      else some state

  unfoldable pub redis_result_status : String → Result (Option String)
  unfolding state_of_text
  redis_result_status task_id =
      if not app.status_only
      then ok none
      else do value ← app.eval_status task_id; ok (state_of_text (status_text value))

  -- TERMINAL_RESULT_STATES
  abbrev pub is_terminal : String → Bool
  is_terminal s = str_eq s "SUCCESS" || str_eq s "FAILURE" || str_eq s "REVOKED"

  abbrev pub result_answer : Option String → Fields
  result_answer none = incomplete "status_only_result_unavailable"
  result_answer (some state) =
      ("outcome_id", str (if is_terminal state then "terminal" else "non_terminal"))
      & ("complete", bool true)
      & ("state", str state)
      & end

  unfoldable pub query_result_backend : Fields → Result Fields
  unfolding redis_result_status
  query_result_backend request = do
    task_id ← required rt request "task_id"
    state ← redis_result_status task_id
    ok (result_answer state)

  abbrev pub message_answer : Option Bool → String → Fields
  message_answer none queue =
      ("complete", bool false)
      & ("error_type", str "broker_message_identity_unavailable")
      & ("state", str "unverifiable")
      & ("queue", str queue)
      & end
  message_answer (some present) queue =
      let outcome = if present then "present" else "absent" in
      ("outcome_id", str outcome)
      & ("complete", bool true)
      & ("state", str outcome)
      & ("queue", str queue)
      & end

  unfoldable pub scan_queue : String → Option String → Result Fields
  scan_queue task_id none = ok (incomplete "queue_not_configured")
  scan_queue task_id (some queue) = do
    present ←
        redis_task_message_present app.redis app.decoders queue task_id
          (int (pos config.broker_message_scan_limit))
    name ← queue_name rt config policy queue
    ok (message_answer present name)

  unfoldable pub query_broker_message : Fields → Result Fields
  unfolding scan_queue
  query_broker_message request = do
    task_id ← required rt request "task_id"
    requested ← required rt request "queue"
    queue ← configured_queue rt config policy config.queues requested
    scan_queue task_id queue
