-- ===== src/Tests/MessageProbeRuns.antt =====
-- Runs of the scan for a message.
use celery_diagnostics_obser.Prelude.{
  String, ℕ, ◌≡◌, ◌≢◌, refl, pos, Bool, true, false, none, some, str_eq, eq_iff, leb, if◌then◌else◌,
}
use celery_diagnostics_obser.Result.{◌>>=◌, ok}
use celery_diagnostics_obser.Values.{int, str, list, dict, Items, nil, cons, end, field}
use celery_diagnostics_obser.Values.Dict.{get?}
use celery_diagnostics_obser.MessageProbe.{
  RedisClient, Decoders, keys, message_id, envelope, length_items, positive_int,
  redis_task_message_present, run_scan, measure, scan, scan_rows, scan_value, rows_of, fetch,
  unchanged, depth_of,
}
use celery_diagnostics_obser.MessageProbe.Verdict.{IsAbsent, answer_sound}
use celery_diagnostics_obser.MessageProbe.Complete.{
  take_items, HasIds, has_message, any_list, messages, stable_exact,
}

-- A row is the text of its id.
abbrev decoders : Decoders
decoders = record {
  utf8 = λ b. none;
  loads = λ s. some (dict (field "headers" (dict (field "id" (str s) end)) end));
}

-- Two messages in the list of priority 0.
abbrev lists : String → Items
lists key = if str_eq key "celery" then cons (str "t1") (cons (str "t2") nil) else nil

abbrev client : RedisClient
client = record {
  llen_first = λ key. ok (int (pos (length_items (lists key))));
  lrange = λ key depth. ok (list (take_items depth (lists key)));
  llen_again = λ key. ok (int (pos (length_items (lists key))));
}

lists-HasIds : (key : String) → HasIds decoders (lists key)
unfolding message_id envelope get? ◌>>=◌
lists-HasIds key = two (str_eq key "celery")
  where
    two : (b : Bool) → HasIds decoders (if b then cons (str "t1") (cons (str "t2") nil) else nil)
    two true = (("t1", refl), (("t2", refl), tt))
    two false = tt

not_empty : (s : String) → str_eq s "" ≡ false → s ≢ ""
not_empty s h e = cc ((eq_iff s "").1 e, h)

stable_exact_example :
    redis_task_message_present client decoders "celery" "t2" (int (pos 10))
    ≡ ok (
        if leb (messages lists (keys "celery")) 10
        then some (any_list (λ key. has_message decoders "t2" (lists key)) (keys "celery"))
        else none)
stable_exact_example =
    stable_exact client decoders lists "celery" "t2" 9
      (record { first = λ key. refl; read = λ key n. refl; again = λ key. refl }) lists-HasIds
      (not_empty "celery" refl) (not_empty "t2" refl)

absent_run :
    redis_task_message_present client decoders "celery" "t9" (int (pos 10)) ≡ ok (some false)
unfolding redis_task_message_present run_scan measure scan unchanged fetch scan_value scan_rows
    ◌>>=◌ rows_of length_items depth_of message_id envelope get? keys positive_int
absent_run = refl

over_limit : redis_task_message_present client decoders "celery" "t2" (int (pos 1)) ≡ ok none
unfolding redis_task_message_present run_scan measure keys length_items depth_of positive_int ◌>>=◌
over_limit = refl

answer_sound_example :
    (limit : ℕ) × (positive_int (int (pos 10)) ≡ some limit)
    × IsAbsent client decoders "celery" "t9" limit
answer_sound_example = answer_sound client decoders "celery" "t9" (int (pos 10)) false absent_run
