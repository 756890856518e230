-- ===== src/ActiveProbes/Answers.antt =====
-- active_probes.py: the answers of a probe.
use celery_diagnostics_obser.Prelude.{
  ℕ, pos, suc, String, Bool, true, false, ◌&&◌, ◌||◌, List, [], ◌∷◌, length, str_eq, if◌then◌else◌,
}
use celery_diagnostics_obser.Values.{Value, bool, int, str, Fields, end}
use celery_diagnostics_obser.Sanitizer.Labels.{◌&◌}

-- s in ss
unfoldable pub is_member : String → List String → Bool
is_member s [] = false
is_member s (t ∷ ts) = str_eq t s || is_member s ts

-- set(expected).issubset(replies)
unfoldable pub is_subset : List String → List String → Bool
unfolding is_member
is_subset [] replies = true
is_subset (s ∷ ss) replies = is_member s replies && is_subset ss replies

-- len(set(expected) & replies); `expected` has no duplicates
unfoldable pub common_count : List String → List String → ℕ
unfolding is_member
common_count [] replies = 0
common_count (s ∷ ss) replies =
    let rest = common_count ss replies in if is_member s replies then suc rest else rest

abbrev pub has_workers : List String → Bool
has_workers [] = false
has_workers (w ∷ ws) = true

-- _negative_complete
unfoldable pub negative_complete : List String → List String → Bool
unfolding is_subset
negative_complete expected replies = has_workers expected && is_subset expected replies

-- _positive
unfoldable pub positive : String → String → List String → List String → Fields
positive outcome_id location expected replies =
    ("outcome_id", str outcome_id)
    & ("complete", bool true)
    & ("matched_location", str location)
    & ("state", str location)
    & ("worker_replies_expected", int (pos (length expected)))
    & ("worker_replies_received", int (pos (length replies)))
    & end

abbrev pub verdict_entry : Bool → String → String → String × Value
verdict_entry true outcome_id error_type =
    if str_eq outcome_id ""
    then ("error_type", str (if str_eq error_type "" then "partial_reply" else error_type))
    else ("outcome_id", str outcome_id)
verdict_entry false outcome_id error_type =
    ("error_type", str (if str_eq error_type "" then "partial_reply" else error_type))

abbrev pub queue_entry : String → Fields
queue_entry queue = if str_eq queue "" then end else ("queue", str queue) & end

-- _negative
unfoldable pub negative :
    String → String → Bool → List String → List String → String → String → Fields
unfolding common_count
negative outcome_id location complete expected replies error_type queue =
    ("complete", bool complete)
    & ("matched_location", str location)
    & ("state", str location)
    & ("worker_replies_expected", int (pos (length expected)))
    & ("worker_replies_received", int (pos (common_count expected replies)))
    & verdict_entry complete outcome_id error_type
    & queue_entry queue

-- an answer that says only why there is none
abbrev pub incomplete : String → Fields
incomplete error_type = ("complete", bool false) & ("error_type", str error_type) & end
