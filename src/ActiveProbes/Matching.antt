-- ===== src/ActiveProbes/Matching.antt =====
-- active_probes.py: the task and the attempt that a reply of `query_task` tells of.
use celery_diagnostics_obser.Prelude.{
  ℕ, String, Bool, false, ◌&&◌, ◌||◌, ◌==◌, not, Option, none, some, str_eq, if◌then◌else◌,
}
use celery_diagnostics_obser.Result.{Result, ok, ◌>>=◌}
use celery_diagnostics_obser.Values.{
  Value, bool, list, tuple, dict, Items, nil, cons, Fields, end, field, as_dict,
}
use celery_diagnostics_obser.Values.Dict.{get, get?}
use celery_diagnostics_obser.Runtime.{Runtime, stripped, text_or_empty, lowered}
use celery_diagnostics_obser.Sanitizer.Coerce.{parsed_int, at_least_0}

-- a worker, the state of the task there, and the details
pub record Match : Type 0 where
  pub worker : String
  pub state : String
  pub details : Fields

-- value[1] if it is a dictionary
abbrev pub details_of : Items → Fields
details_of (cons v vs) = as_dict v
details_of nil = end

abbrev pub match_row : Runtime → String → Value → Items → Option Match
match_row rt worker v vs =
    let state = lowered rt (stripped rt v) in
    if str_eq state ""
    then none
    else some (record { worker = worker; state = state; details = details_of vs })

abbrev pub match_value : Runtime → String → Value → Option Match
match_value rt worker (list (cons v vs)) = match_row rt worker v vs
match_value rt worker (tuple (cons v vs)) = match_row rt worker v vs
match_value rt worker _ = none

-- rows[task_id] of a worker
abbrev pub match_rows : Runtime → String → String → Value → Option Match
match_rows rt task_id worker (dict rows) = elim (get? task_id rows) [
  | none ↦ none
  | some value ↦ match_value rt worker value
]
match_rows rt task_id worker _ = none

abbrev pub or_match : Option Match → Option Match → Option Match
or_match (some m) rest = some m
or_match none rest = rest

-- the first worker that knows the task
unfoldable pub find_in : Runtime → String → Fields → Option Match
find_in rt task_id end = none
find_in rt task_id (field worker rows rest) =
    or_match (match_rows rt task_id worker rows) (find_in rt task_id rest)

-- _find_queried_task
unfoldable pub find_queried_task : Runtime → Value → String → Option Match
unfolding find_in
find_queried_task rt payload task_id = find_in rt task_id (as_dict payload)

-- _non_negative_int
unfoldable pub non_negative_int : Runtime → Value → Result (Option ℕ)
non_negative_int rt (bool b) = ok none
non_negative_int rt v = parsed_int rt v >>= λ parsed. ok (at_least_0 parsed)

abbrev pub or_value : Option Value → Value → Value
or_value (some v) d = v
or_value none d = d

-- _task_retry_count
unfoldable pub task_retry_count : Runtime → Fields → Result (Option ℕ)
unfolding non_negative_int
task_retry_count rt details =
    non_negative_int rt
      (or_value (get? "retries" details) (get "retries" (as_dict (get "request" details))))

-- value is True
abbrev pub is_true : Value → Bool
is_true (bool b) = b
is_true _ = false

-- _task_redelivered
unfoldable pub task_redelivered : Fields → Bool
task_redelivered details =
    is_true (get "redelivered" details)
    || is_true (get "redelivered" (as_dict (get "delivery_info" details)))
    || is_true (get "redelivered" (as_dict (get "delivery_info" (as_dict (get "request" details)))))

abbrev pub is_zero : Option ℕ → Bool
is_zero (some n) = n == 0
is_zero none = false

-- the error of a task whose retries are known, or not
unfoldable pub attempt_error : Option ℕ → Option ℕ → Option ℕ → String → Bool → String
attempt_error none actual index origin redelivered = "attempt_identity_unverifiable"
attempt_error (some retry) none index origin redelivered =
    if retry == 0 && (is_zero index && str_eq origin "initial")
    then ""
    else "attempt_identity_unverifiable"
attempt_error (some retry) (some actual) index origin redelivered =
    if actual == retry
    then (if str_eq origin "broker_redelivery" && not redelivered
        then "attempt_identity_mismatch"
        else "")
    else "attempt_identity_mismatch"

unfoldable pub attempt_error_of : Runtime → Fields → Match → Result String
unfolding attempt_error task_retry_count non_negative_int
attempt_error_of rt request found = do
  expected_retry ← non_negative_int rt (get "application_retry_count" request)
  actual_retry ← task_retry_count rt found.details
  expected_index ← non_negative_int rt (get "attempt_index" request)
  ok (
      attempt_error expected_retry actual_retry expected_index
        (text_or_empty rt (get "attempt_origin" request)) (task_redelivered found.details))

-- _matching_attempt_error: no error without a match or without an attempt to match
unfoldable pub matching_attempt_error : Runtime → Fields → Option Match → Result String
matching_attempt_error rt request none = ok ""
matching_attempt_error rt request (some found) =
    if str_eq (text_or_empty rt (get "attempt_ref" request)) ""
    then ok ""
    else attempt_error_of rt request found
