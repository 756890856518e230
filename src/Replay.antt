-- ===== src/Replay.antt =====
-- replay.py: a capture of events, shifted in time, through the sanitizer. The lines of the file that
-- is read, the arithmetic of floats and the printing of a row are parameters.
pub mod Export
pub mod Shift
use celery_diagnostics_obser.Prelude.{
  ℕ, suc, ◌+◌, ◌^◌, ◌==◌, String, Bool, true, false, ◌||◌, not, Option, none, some, List, [], ◌∷◌,
  length, str_eq, concat, if◌then◌else◌,
}
use celery_diagnostics_obser.Result.{Result, ok, err, value_error, ◌>>=◌, or_raise}
use celery_diagnostics_obser.Values.{
  Value, null, bool, int, float, str, dict, datetime, Moment, Fields, end, field,
}
use celery_diagnostics_obser.Values.Dict.{get, set, is_some}
use celery_diagnostics_obser.Text.{strip}
use celery_diagnostics_obser.Runtime.{Runtime}
use celery_diagnostics_obser.Config.{ObserverConfig}
use celery_diagnostics_obser.Policy.{TelemetryPolicy}
use celery_diagnostics_obser.Sanitizer.Events.{sanitize_celery_event}

-- Floats are bit patterns. `timestamp` is that of an aware datetime, `isoformat` prints one.
pub record Arithmetic : Type 0 where
  pub add : ℕ → ℕ → ℕ
  pub subtract : ℕ → ℕ → ℕ
  pub at_most : ℕ → ℕ → Bool
  pub is_negative : ℕ → Bool
  pub timestamp : Moment → ℕ
  pub isoformat : Moment → String

pub record ReplayExport : Type 0 where
  pub read : ℕ
  pub before_cutoff : ℕ
  pub exported : ℕ
  pub unsupported : ℕ
  pub shift_seconds : ℕ

-- _number
unfoldable pub number : Runtime → Value → Result (Option ℕ)
number rt (int n) = do b ← rt.float_of_int n; ok (some b)
number rt (float b) = ok (some b)
number rt _ = ok none

-- bool(number): 0.0 and -0.0 are false
abbrev pub is_truthy_number : Option ℕ → Bool
is_truthy_number none = false
is_truthy_number (some b) = not (b == 0 || b == 2 ^ 63)

-- _event_time
unfoldable pub event_time : Runtime → Fields → Result (Option ℕ)
event_time rt row = do
  received ← number rt (get "local_received" row)
  if is_truthy_number received then ok received else number rt (get "timestamp" row)

abbrev pub set_shifted : Arithmetic → ℕ → String → Option ℕ → Fields → Fields
set_shifted fl shift key none row = row
set_shifted fl shift key (some b) row = set key (float (fl.add b shift)) row

unfoldable pub shift_key : Arithmetic → Runtime → ℕ → String → Fields → Result Fields
shift_key fl rt shift key row = do b ← number rt (get key row); ok (set_shifted fl shift key b row)

-- _shifted_event
unfoldable pub shifted_event : Arithmetic → Runtime → ℕ → Fields → Result Fields
unfolding shift_key
shifted_event fl rt shift row = do
  row' ← shift_key fl rt shift "timestamp" row
  shift_key fl rt shift "local_received" row'

-- the research_replay entry
abbrev pub replay_note : Arithmetic → ℕ → Moment → Value
replay_note fl cutoff anchor = dict (
    field "public_cutoff" (float cutoff) (
      field "cutoff_anchor" (str (fl.isoformat anchor))
        (field "event_intervals_preserved" (bool true) end)))

unfoldable pub set_observed : Runtime → Option ℕ → Fields → Result Fields
set_observed rt none payload = ok payload
set_observed rt (some b) payload = do
  moment ← rt.from_timestamp b
  text ← rt.iso_utc moment
  ok (set "observed_at" (str text) payload)

abbrev pub some_result : Fields → Result (Option Fields)
some_result payload = ok (some payload)

-- what a sanitized row becomes in the output
unfoldable pub annotated :
    Arithmetic → Runtime → ℕ → Moment → Fields → Option Fields → Result (Option Fields)
unfolding set_observed
annotated fl rt cutoff anchor shifted none = ok none
annotated fl rt cutoff anchor shifted (some payload) = do
  observed ← number rt (get "local_received" shifted)
  payload' ← set_observed rt observed (set "research_replay" (replay_note fl cutoff anchor) payload)
  some_result payload'

-- What the export is called with.
pub record Request : Type 0 where
  pub config : ObserverConfig
  pub policy : TelemetryPolicy
  pub cutoff : ℕ
  pub anchor : Moment
  pub shift : ℕ

-- the body of the loop; `now` is the time at which the row is sanitized
unfoldable pub replay_row :
    Arithmetic → Runtime → Request → String → Fields → Result (Option Fields)
replay_row fl rt request now row = do
  shifted ← shifted_event fl rt request.shift row
  payload ← sanitize_celery_event rt request.config request.policy now (dict shifted)
  annotated fl rt request.cutoff request.anchor shifted payload

abbrev pub add_row : Option Fields → List Fields × ℕ → List Fields × ℕ
add_row none (output, unsupported) = (output, unsupported + 1)
add_row (some payload) (output, unsupported) = (payload ∷ output, unsupported)

-- the loop; `now n` is the time at the n-th row
unfoldable pub replay_rows :
    Arithmetic → Runtime → Request → (ℕ → String) → ℕ → List Fields → Result (List Fields × ℕ)
replay_rows fl rt request now n [] = ok ([], 0)
replay_rows fl rt request now n (row ∷ rows) = do
  payload ← replay_row fl rt request (now n) row
  rest ← replay_rows fl rt request now (suc n) rows
  ok (add_row payload rest)

abbrev pub is_selected : Arithmetic → ℕ → Option ℕ → Bool
is_selected fl cutoff none = false
is_selected fl cutoff (some b) = fl.at_most b cutoff

abbrev pub cons_if : Bool → Fields → List Fields → List Fields
cons_if true row rows = row ∷ rows
cons_if false row rows = rows

-- the rows up to the cutoff
unfoldable pub select_rows : Arithmetic → Runtime → ℕ → List Fields → Result (List Fields)
select_rows fl rt cutoff [] = ok []
select_rows fl rt cutoff (row ∷ rows) = do
  time ← event_time rt row
  rest ← select_rows fl rt cutoff rows
  ok (cons_if (is_selected fl cutoff time) row rest)

abbrev as_object : Value → Result Fields
as_object (dict row) = ok row
as_object _ = err value_error

-- _read_jsonl, of the lines of the file
unfoldable pub read_jsonl : Runtime → List String → Result (List Fields)
read_jsonl rt [] = ok []
read_jsonl rt (line ∷ lines) =
    let rest = read_jsonl rt lines in
    if str_eq (strip line) "" then rest else do
      value ← or_raise (rt.loads line) value_error
      row ← as_object value
      rows ← rest
      ok (row ∷ rows)

-- _write_jsonl: the text of the file
unfoldable pub write_jsonl : (Fields → String) → List Fields → String
write_jsonl dumps [] = ""
write_jsonl dumps (row ∷ rows) = concat (dumps row) (concat "\n" (write_jsonl dumps rows))

abbrev pub exported :
    Request → List Fields → List Fields → List Fields × ℕ → ReplayExport × List Fields
exported request rows selected (output, unsupported) = (
  record {
    read = length rows;
    before_cutoff = length selected;
    exported = length output;
    unsupported = unsupported;
    shift_seconds = request.shift;
  },
  output,
)

unfoldable pub export_rows :
    Arithmetic
    → Runtime
    → Request
    → (ℕ → String)
    → List Fields
    → Result (ReplayExport × List Fields)
export_rows fl rt request now rows = do
  selected ← select_rows fl rt request.cutoff rows
  loop ← replay_rows fl rt request now 0 selected
  ok (exported request rows selected loop)

abbrev pub anchor_or : Option Moment → Moment → Moment
anchor_or none clock = clock
anchor_or (some anchor) clock = anchor

abbrev pub request_for : Arithmetic → ObserverConfig → TelemetryPolicy → ℕ → Moment → Request
request_for fl config policy cutoff anchor = record {
  config = config;
  policy = policy;
  cutoff = cutoff;
  anchor = anchor;
  shift = fl.subtract (fl.timestamp anchor) cutoff;
}

-- a negative cutoff, or an anchor without an offset
abbrev pub is_refused : Arithmetic → ℕ → Moment → Bool
is_refused fl cutoff anchor = fl.is_negative cutoff || not (is_some anchor.offset)

-- export_event_replay: its result, and the rows that it writes. `clock` is the current time, which
-- has an offset.
unfoldable pub export_event_replay :
    Arithmetic
    → Runtime
    → ObserverConfig
    → TelemetryPolicy
    → (ℕ → String)
    → Moment
    → List String
    → ℕ
    → Option Moment
    → Result (ReplayExport × List Fields)
export_event_replay fl rt config policy now clock lines cutoff given =
    let anchor = anchor_or given clock in
    if is_refused fl cutoff anchor then err value_error else do
      rows ← read_jsonl rt lines
      export_rows fl rt (request_for fl config policy cutoff anchor) now rows
