-- ===== src/Sanitizer/Exceptions.antt =====
-- sanitizer.py: the class of an exception, read from the texts of an event.
use Prim.Native.Char.{code}
use celery_diagnostics_obser.Prelude.{
  String, Bool, true, false, ◌&&◌, ◌||◌, ◌==◌, not, Option, none, some, str_eq, if◌then◌else◌,
}
use celery_diagnostics_obser.Values.{Value, str, Fields}
use celery_diagnostics_obser.Values.Dict.{get}
use celery_diagnostics_obser.Policy.{TelemetryPolicy}
use celery_diagnostics_obser.Text.{
  lstrip, has_dot, last_part, before_last_dot, dotted_run, is_ident_start, is_word,
}
use celery_diagnostics_obser.Runtime.{Runtime, stripped, text_or_empty}
use celery_diagnostics_obser.Sanitizer.Coerce.{safe_token}

-- a class name and a module name; either may be `None`
abbrev pub ExceptionIdentity : Type 0
ExceptionIdentity = Option String × Option String

-- not identity[0]
abbrev pub no_type : ExceptionIdentity → Bool
no_type (none, m) = true
no_type (some t, m) = str_eq t ""

-- _WRAPPER_EXCEPTION_TYPES
abbrev pub is_wrapper : ExceptionIdentity → Bool
is_wrapper (none, m) = false
is_wrapper (some t, m) = str_eq t "ExceptionWithTraceback"

-- _split_exception_identity
unfoldable pub split_exception_identity : Runtime → String → TelemetryPolicy → ExceptionIdentity
split_exception_identity rt dotted policy =
    if has_dot dotted && policy.collect_exception_module
    then (
      some (safe_token rt (str (last_part dotted)) 255),
      some (safe_token rt (str (before_last_dot dotted)) 255),
    )
    else (some (safe_token rt (str (last_part dotted)) 255), none)

-- (?:\(|:|$), where $ also stands before a last line feed
unfoldable pub name_ends : String → Bool
name_ends String.[] = true
name_ends (String.◌∷◌ c s) = code c == b'(' || code c == b':' || (code c == 10 && str_eq s "")

starts_ident : String → Bool
starts_ident String.[] = false
starts_ident (String.◌∷◌ c s) = is_ident_start c

match_name : String × String → Option String
unfolding name_ends starts_ident
match_name (run, rest) = if starts_ident run && name_ends rest then some run else none

-- _EXCEPTION_TYPE_RE.match: the longest dotted name, if `(`, `:` or the end follows
unfoldable pub match_exception_type : String → Option String
unfolding match_name
match_exception_type raw = match_name (dotted_run (lstrip raw))

unfoldable pub split_match : Runtime → TelemetryPolicy → Option String → ExceptionIdentity
split_match rt policy none = (none, none)
split_match rt policy (some dotted) = split_exception_identity rt dotted policy

-- _parse_exception_identity
unfoldable pub parse_exception_identity : Runtime → Value → TelemetryPolicy → ExceptionIdentity
unfolding split_match
parse_exception_identity rt value policy =
    let raw = stripped rt value in
    if str_eq raw "" then (none, none) else split_match rt policy (match_exception_type raw)

unfoldable pub is_known_inner : String → Bool
is_known_inner s =
    str_eq s "SoftTimeLimitExceeded" || str_eq s "TimeLimitExceeded" || str_eq s "WorkerLostError"

-- (?:[A-Za-z_][A-Za-z0-9_]*\.)* and a known name, over all of the text; `fresh` at the start of a name
unfoldable pub inner_name : Bool → String → Bool
unfolding is_known_inner
inner_name fresh String.[] = false
inner_name fresh (String.◌∷◌ c s) =
    let dot = code c == b'.' in
    let rest = inner_name (not fresh && dot) s in
    if fresh
    then is_known_inner (String.◌∷◌ c s) || (is_ident_start c && rest)
    else (dot || is_word c) && rest

unfoldable pub match_inner : String × String → Option String
unfolding name_ends inner_name
match_inner (run, rest) = if inner_name true run && name_ends rest then some run else none

-- the match at this place, else the next one
abbrev pub or_later : Option String → Option String → Option String
or_later (some run) later = some run
or_later none later = later

-- _KNOWN_INNER_EXCEPTION_RE.search; `inside` after a character of a name
unfoldable pub search_inner : Bool → String → Option String
unfolding match_inner
search_inner inside String.[] = none
search_inner inside (String.◌∷◌ c s) =
    let later = search_inner (is_word c) s in
    if inside then later else or_later (match_inner (dotted_run (String.◌∷◌ c s))) later

-- the first match in three texts, tried in turn
unfoldable pub first_inner : Option String → Option String → Option String → Option String
first_inner (some a) b c = some a
first_inner none (some b) c = some b
first_inner none none c = c

-- _known_inner_exception_identity
unfoldable pub known_inner_exception_identity :
    Runtime → Fields → TelemetryPolicy → ExceptionIdentity
unfolding split_match search_inner first_inner
known_inner_exception_identity rt raw_event policy = split_match rt policy (
    first_inner (search_inner false (text_or_empty rt (get "exception" raw_event)))
      (search_inner false (text_or_empty rt (get "result" raw_event)))
      (search_inner false (text_or_empty rt (get "traceback" raw_event))))

-- what is left after the two named fields: a known inner class, or the wrapper
inner_or : ExceptionIdentity → ExceptionIdentity → ExceptionIdentity
inner_or inner wrapper = if no_type inner then wrapper else inner

-- the second field: a class that is no wrapper is returned, a wrapper is kept for later
second_field : ExceptionIdentity → ExceptionIdentity → ExceptionIdentity → ExceptionIdentity
unfolding inner_or
second_field parsed wrapper inner =
    if no_type parsed
    then inner_or inner wrapper
    else if is_wrapper parsed
    then inner_or inner parsed
    else parsed

first_field : ExceptionIdentity → ExceptionIdentity → ExceptionIdentity → ExceptionIdentity
unfolding second_field
first_field parsed second inner =
    if no_type parsed
    then second_field second (none, none) inner
    else if is_wrapper parsed
    then second_field second parsed inner
    else parsed

-- _exception_identity
unfoldable pub exception_identity : Runtime → Fields → TelemetryPolicy → ExceptionIdentity
unfolding first_field
exception_identity rt raw_event policy =
    if policy.collect_exception_type
    then first_field (parse_exception_identity rt (get "exception" raw_event) policy)
        (parse_exception_identity rt (get "exc_type" raw_event) policy)
        (known_inner_exception_identity rt raw_event policy)
    else (none, none)
