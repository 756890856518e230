-- ===== src/Sanitizer/Coerce.antt =====
-- sanitizer.py, its last part: single values of an event, made safe.
use celery_diagnostics_obser.Prelude.{
  ℕ, ℤ, pos, negsuc, zero, suc, non_negative, String, Bool, true, false, ◌||◌, Option, none, some,
  str_eq, if◌then◌else◌,
}
use celery_diagnostics_obser.Result.{Result, err, ok, value_error, ◌>>=◌}
use celery_diagnostics_obser.Values.{
  Value, null, bool, int, float, str, bytes, datetime, Moment, Fields, end, field, truth,
}
use celery_diagnostics_obser.Text.{strip, take_text, without_nul, utc_offset}
use celery_diagnostics_obser.Runtime.{Runtime, text_or_empty, stripped, to_text, lowered}

-- _safe_token
unfoldable pub safe_token : Runtime → Value → ℕ → String
safe_token rt value limit = take_text limit (strip (without_nul (text_or_empty rt value)))

-- value in (None, "")
abbrev pub is_blank : Value → Bool
is_blank null = true
is_blank (str s) = str_eq s ""
is_blank _ = false

abbrev pub int_of_bool : Bool → ℤ
int_of_bool true = pos 1
int_of_bool false = pos 0

-- what is left where a `ValueError` is caught and other exceptions pass
abbrev pub but_value_error {ℓ} : {A : Type ℓ} → Result A → Result (Option A)
but_value_error (ok a) = ok (some a)
but_value_error (err value_error) = ok none
but_value_error (err e) = err e

-- int(value), `none` for a `TypeError` or a `ValueError`
unfoldable pub parsed_int : Runtime → Value → Result (Option ℤ)
parsed_int rt (bool b) = ok (some (int_of_bool b))
parsed_int rt (int n) = ok (some n)
parsed_int rt (float b) = but_value_error (rt.int_of_float b)
parsed_int rt (str s) = ok (rt.int_of_text s)
parsed_int rt (bytes b) = ok (rt.int_of_bytes b)
parsed_int rt _ = ok none

abbrev pub at_least_0 : Option ℤ → Option ℕ
at_least_0 none = none
at_least_0 (some n) = non_negative n

unfoldable pub optional_non_negative_int : Runtime → Value → Result (Option ℕ)
unfolding parsed_int
optional_non_negative_int rt value =
    if is_blank value then ok none else do parsed ← parsed_int rt value; ok (at_least_0 parsed)

abbrev pub above_0 : Option ℕ → Option ℕ
above_0 none = none
above_0 (some zero) = none
above_0 (some (suc n)) = some (suc n)

unfoldable pub optional_positive_int : Runtime → Value → Result (Option ℕ)
optional_positive_int rt value = do parsed ← optional_non_negative_int rt value; ok (above_0 parsed)

-- float(value), `none` for a `TypeError` or a `ValueError`
unfoldable pub parsed_float : Runtime → Value → Result (Option ℕ)
parsed_float rt (bool b) = but_value_error (rt.float_of_int (int_of_bool b))
parsed_float rt (int n) = but_value_error (rt.float_of_int n)
parsed_float rt (float b) = ok (some b)
parsed_float rt (str s) = ok (rt.float_of_text s)
parsed_float rt (bytes b) = ok (rt.float_of_bytes b)
parsed_float rt _ = ok none

unfoldable pub optional_float : Runtime → Value → Result (Option ℕ)
unfolding parsed_float
optional_float rt value = if is_blank value then ok none else parsed_float rt value

abbrev pub int_or_none : Option ℕ → Value
int_or_none none = null
int_or_none (some n) = int (pos n)

abbrev pub float_or_none : Option ℕ → Value
float_or_none none = null
float_or_none (some b) = float b

abbrev pub str_or_none : Option String → Value
str_or_none none = null
str_or_none (some s) = str s

-- parsed.replace(tzinfo=timezone.utc) if there is no tzinfo
abbrev pub aware : Moment → Moment
aware m = elim m.offset [ none ↦ record { micros = m.micros; offset = some (pos 0) } | some o ↦ m ]

abbrev pub iso_of : Runtime → Moment → Result (Option String)
iso_of rt m = do text ← rt.iso_utc (aware m); ok (some text)

abbrev pub iso_or_none : Runtime → Option Moment → Result (Option String)
iso_or_none rt none = ok none
iso_or_none rt (some m) = iso_of rt m

-- datetime.fromtimestamp(float(text)), but for a `ValueError` of either
unfoldable pub timestamp_text : Runtime → Option ℕ → Result (Option Moment)
timestamp_text rt none = ok none
timestamp_text rt (some b) = but_value_error (rt.from_timestamp b)

-- an ISO text, else the text of a timestamp
unfoldable pub moment_of_text : Runtime → String → Option Moment → Result (Option Moment)
unfolding timestamp_text
moment_of_text rt text (some m) = ok (some m)
moment_of_text rt text none = timestamp_text rt (rt.float_of_text text)

unfoldable pub iso_of_text : Runtime → String → Result (Option String)
unfolding moment_of_text
iso_of_text rt text = if str_eq text "" then ok none else do
  parsed ← moment_of_text rt text (rt.from_isoformat (utc_offset text))
  iso_or_none rt parsed

unfoldable pub iso_of_number : Runtime → ℕ → Result (Option String)
iso_of_number rt b = do m ← rt.from_timestamp b; iso_of rt m

-- _datetime_iso: of a number, an exception of fromtimestamp passes
unfoldable pub datetime_iso : Runtime → Value → Result (Option String)
unfolding iso_of_text iso_of_number
datetime_iso rt null = ok none
datetime_iso rt (datetime m) = iso_of rt m
datetime_iso rt (bool b) = rt.float_of_int (int_of_bool b) >>= iso_of_number rt
datetime_iso rt (int n) = rt.float_of_int n >>= iso_of_number rt
datetime_iso rt (float b) = iso_of_number rt b
datetime_iso rt (str s) = iso_of_text rt (strip s)
datetime_iso rt v = iso_of_text rt (strip (to_text rt v))

-- _datetime_iso(value) or default
abbrev pub or_text : Option String → String → String
or_text none d = d
or_text (some s) d = if str_eq s "" then d else s

abbrev pub is_yes : String → Bool
is_yes s = str_eq s "1" || str_eq s "true" || str_eq s "yes" || str_eq s "y" || str_eq s "on"

-- _truthy
unfoldable pub truthy : Runtime → Value → Bool
truthy rt (bool b) = b
truthy rt (int n) = truth (int n)
truthy rt (float b) = truth (float b)
truthy rt v = is_yes (lowered rt (stripped rt v))

abbrev pub is_status : String → Bool
is_status s = str_eq s "healthy" || str_eq s "stale" || str_eq s "lost" || str_eq s "unavailable"

-- _safe_status: str(value or "healthy") of a text
unfoldable pub safe_status : Runtime → String → String
safe_status rt value =
    let status = lowered rt (strip (if str_eq value "" then "healthy" else value)) in
    if is_status status then status else "healthy"

abbrev pub detail_limit : String → ℕ
detail_limit key = if str_eq key "active_probe_capabilities" then 1024 else 128

unfoldable pub safe_detail : Runtime → String → Value → Value
safe_detail rt key (bool b) = bool b
safe_detail rt key null = null
safe_detail rt key (int (pos n)) = int (pos n)
safe_detail rt key (int (negsuc n)) = int (pos 0)
safe_detail rt key v = str (safe_token rt v (detail_limit key))

-- _safe_details
unfoldable pub safe_details : Runtime → Fields → Fields
unfolding safe_detail
safe_details rt end = end
safe_details rt (field key item rest) = field key (safe_detail rt key item) (safe_details rt rest)
