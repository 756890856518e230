-- ===== src/MessageProbe.antt =====
-- redis_message_probe.py: the bounded scan for a task's message in the four priority lists of a
-- queue. Each list is measured, then read, then measured again.
pub mod Loops
pub mod Verdict
pub mod Complete
use celery_diagnostics_obser.Prelude.{
  ℕ, zero, suc, ◌+◌, String, concat, ℤ, pos, negsuc, Bool, true, false, not, ◌||◌, Option, none,
  some, List, [], ◌∷◌, ltb, ◌==◌, str_eq, if◌then◌else◌,
}
use celery_diagnostics_obser.Result.{Result, ok, err, value_error, ◌>>=◌}
use celery_diagnostics_obser.Values.{
  Value, null, bool, int, float, str, bytes, list, tuple, dict, datetime, Items, nil, cons, Fields,
}
use celery_diagnostics_obser.Values.Dict.{get}

-- The Redis client over one scan: the first `llen` of a key, `lrange(key, 0, depth - 1)`, and the
-- second `llen`. A call may raise.
pub record RedisClient : Type 0 where
  pub llen_first : String → Result Value
  pub lrange : String → ℕ → Result Value
  pub llen_again : String → Result Value

-- bytes.decode("utf-8"), `none` for `UnicodeDecodeError`, and json.loads, `none` for
-- `JSONDecodeError`
pub record Decoders : Type 0 where
  pub utf8 : List ℕ → Option String
  pub loads : String → Option Value

abbrev pub priority_key : String → String → String
priority_key queue step = concat queue (concat "\u{6}\u{16}" step)

-- the key of priority 0 is the queue's name
unfoldable pub keys : String → List String
keys queue = queue ∷ priority_key queue "3" ∷ priority_key queue "6" ∷ priority_key queue "9" ∷ []

-- an `int` that is no `bool` and not negative
unfoldable pub depth_of : Value → Option ℕ
depth_of (int (pos n)) = some n
depth_of _ = none

as_mapping : Option Value → Option Fields
as_mapping (some (dict m)) = some m
as_mapping _ = none

decoded : Decoders → Option String → Option Fields
decoded d none = none
decoded d (some s) = as_mapping (d.loads s)

-- _envelope
unfoldable pub envelope : Decoders → Value → Option Fields
unfolding decoded as_mapping
envelope d (bytes b) = decoded d (d.utf8 b)
envelope d (str s) = decoded d (some s)
envelope d _ = none

candidate : Value → Option String
candidate (str s) = if str_eq s "" then none else some s
candidate _ = none

header_id : Value → Option String
header_id (dict headers) = candidate (get "id" headers)
header_id _ = none

-- envelope["headers"]["id"] of a row, if all of it is there and well-formed
unfoldable pub message_id : Decoders → Value → Option String
unfolding header_id candidate
message_id d row = elim (envelope d row) [ none ↦ none | some m ↦ header_id (get "headers" m) ]

-- What the rows of one list say.
pub data Scan : Type 0 where
  unclear found clear : Scan

scan_row : String → Option String → Scan → Scan
scan_row task_id none rest = unclear
scan_row task_id (some id) rest = if str_eq id task_id then found else rest

unfoldable pub scan_rows : Decoders → String → Items → Scan
unfolding scan_row
scan_rows d task_id nil = clear
scan_rows d task_id (cons row rows) = scan_row task_id (message_id d row) (scan_rows d task_id rows)

unfoldable pub length_items : Items → ℕ
length_items nil = 0
length_items (cons v vs) = suc (length_items vs)

-- a sequence that is no text
unfoldable pub rows_of : Value → Option Items
rows_of (list vs) = some vs
rows_of (tuple vs) = some vs
rows_of _ = none

scan_sequence : Decoders → String → ℕ → Option Items → Scan
scan_sequence d task_id depth none = unclear
scan_sequence d task_id depth (some rows) =
    if length_items rows == depth then scan_rows d task_id rows else unclear

unfoldable pub scan_value : Decoders → String → ℕ → Value → Scan
unfolding scan_sequence
scan_value d task_id depth v = scan_sequence d task_id depth (rows_of v)

-- an empty list is not read
unfoldable pub fetch : RedisClient → String → ℕ → Result Value
fetch r key zero = ok (tuple nil)
fetch r key (suc n) = r.lrange key (suc n)

cons_depth : String → ℕ → Option (List (String × ℕ)) → Option (List (String × ℕ))
cons_depth key depth none = none
cons_depth key depth (some ds) = some ((key, depth) ∷ ds)

-- one round of the first loop; `rest` is the loop from the new sum on
measure_next :
    ℕ
    → ℕ
    → String
    → Option ℕ
    → (ℕ → Result (Option (List (String × ℕ))))
    → Result (Option (List (String × ℕ)))
unfolding cons_depth
measure_next limit sum key none rest = ok none
measure_next limit sum key (some depth) rest =
    if ltb limit (sum + depth)
    then ok none
    else rest (sum + depth) >>= λ ds. ok (cons_depth key depth ds)

-- the first loop: the depth of each list, as long as their sum is at most the limit
unfoldable pub measure : RedisClient → ℕ → ℕ → List String → Result (Option (List (String × ℕ)))
unfolding measure_next
measure r limit sum [] = ok (some [])
measure r limit sum (key ∷ ks) =
    r.llen_first key >>= λ v. measure_next limit sum key (depth_of v) (λ t. measure r limit t ks)

scan_next : Scan → Result Scan → Result Scan
scan_next unclear rest = ok unclear
scan_next found rest = ok found
scan_next clear rest = rest

-- the second loop, up to the first row that decides
unfoldable pub scan : RedisClient → Decoders → String → List (String × ℕ) → Result Scan
unfolding scan_next
scan r d task_id [] = ok clear
scan r d task_id ((key, depth) ∷ ds) =
    fetch r key depth >>= λ v. scan_next (scan_value d task_id depth v) (scan r d task_id ds)

is_depth : Option ℕ → ℕ → Bool
is_depth none depth = false
is_depth (some n) depth = n == depth

-- the third loop: whether every list has the depth that it had
unfoldable pub unchanged : RedisClient → List (String × ℕ) → Result Bool
unfolding is_depth
unchanged r [] = ok true
unchanged r ((key, depth) ∷ ds) = r.llen_again key >>= λ v.
    let rest = unchanged r ds in if is_depth (depth_of v) depth then rest else ok false

conclude : RedisClient → List (String × ℕ) → Scan → Result (Option Bool)
conclude r ds unclear = ok none
conclude r ds found = ok (some true)
conclude r ds clear = unchanged r ds >>= λ same. ok (if same then some false else none)

after_measure : RedisClient → Decoders → String → Option (List (String × ℕ)) → Result (Option Bool)
unfolding conclude
after_measure r d task_id none = ok none
after_measure r d task_id (some ds) = scan r d task_id ds >>= conclude r ds

-- a positive `int` that is no `bool`
unfoldable pub positive_int : Value → Option ℕ
positive_int (int (pos (suc n))) = some (suc n)
positive_int _ = none

-- The three loops.
unfoldable pub run_scan : RedisClient → Decoders → String → String → ℕ → Result (Option Bool)
unfolding after_measure
run_scan r d queue task_id limit = measure r limit 0 (keys queue) >>= after_measure r d task_id

-- redis_task_message_present: the checks of the arguments, and the loops
unfoldable pub redis_task_message_present :
    RedisClient → Decoders → String → String → Value → Result (Option Bool)
redis_task_message_present r d queue task_id max_messages =
    if str_eq queue "" || str_eq task_id ""
    then err value_error
    else elim (positive_int max_messages) [
      | none ↦ err value_error
      | some limit ↦ run_scan r d queue task_id limit
    ]
