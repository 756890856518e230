-- ===== src/MessageProbe/Complete.antt =====
-- The scan of a broker whose lists do not change while it runs.
use celery_diagnostics_obser.Prelude.{
  ℕ, zero, suc, ◌+◌, ◌≤◌, ◌<◌, String, pos, ◌≡◌, ◌≢◌, refl, ap, ◌∙◌, Bool, true, false, Bool-cases,
  Option, none, some, inl, inr, List, [], ◌∷◌, ltb, le→ltb, ==_refl, leb, ◌||◌, str_eq, eq_iff,
  arith, tests, if◌then◌else◌, if_cases,
}
use celery_diagnostics_obser.Result.{◌>>=◌, Result, ok}
use celery_diagnostics_obser.Values.{Value, int, list, tuple, Items, nil, cons}
use celery_diagnostics_obser.MessageProbe.{
  RedisClient, Decoders, keys, depth_of, message_id, Scan, found, clear, scan_rows, length_items,
  rows_of, scan_value, fetch, measure, scan_next, scan, unchanged, conclude, after_measure,
  positive_int, run_scan, redis_task_message_present,
}

-- the first `n` items
abbrev pub take_items : ℕ → Items → Items
take_items zero items = nil
take_items (suc n) nil = nil
take_items (suc n) (cons v items) = cons v (take_items n items)

take_items_all : (items : Items) → take_items (length_items items) items ≡ items
unfolding length_items
take_items_all nil = refl
take_items_all (cons v items) = ap (cons v) (take_items_all items)

-- The client tells the truth about fixed lists: their lengths, and their first rows, as many as are
-- asked for.
pub record IsStable (r : RedisClient) (lists : String → Items) : Type 0 where
  pub first : (key : String) → r.llen_first key ≡ ok (int (pos (length_items (lists key))))
  pub read :
      (key : String) (n : ℕ) → r.lrange key (suc n) ≡ ok (list (take_items (suc n) (lists key)))
  pub again : (key : String) → r.llen_again key ≡ ok (int (pos (length_items (lists key))))

-- Every row is a message with an id.
abbrev pub HasIds : Decoders → Items → Type 0
HasIds d nil = Unit
HasIds d (cons row rows) = ((id : String) × (message_id d row ≡ some id)) × HasIds d rows

is_id : Option String → String → Bool
is_id none task_id = false
is_id (some id) task_id = str_eq id task_id

-- Whether a row has the task's id.
pub has_message : Decoders → String → Items → Bool
unfolding is_id ◌>>=◌
has_message d task_id nil = false
has_message d task_id (cons row rows) =
    is_id (message_id d row) task_id || has_message d task_id rows

pub any_list : (String → Bool) → List String → Bool
any_list p [] = false
any_list p (k ∷ ks) = p k || any_list p ks

abbrev depths : (String → Items) → List String → List (String × ℕ)
depths lists [] = []
depths lists (k ∷ ks) = (k, length_items (lists k)) ∷ depths lists ks

-- The number of messages in the lists of some keys.
abbrev pub messages : (String → Items) → List String → ℕ
messages lists [] = 0
messages lists (k ∷ ks) = length_items (lists k) + messages lists ks

abbrev outcome : Bool → Scan
outcome true = found
outcome false = clear

module _ (r : RedisClient) (d : Decoders) (lists : String → Items) (stable : IsStable r lists) where
  measure_within :
      (limit sum : ℕ) (ks : List String)
      → sum + messages lists ks ≤ limit
      → measure r limit sum ks ≡ ok (some (depths lists ks))
  unfolding measure depth_of length_items ◌>>=◌
  measure_within limit sum [] h = refl
  measure_within limit sum (k ∷ ks) h =
      rw (stable.first k, le→ltb limit (sum + length_items (lists k)) (omega arith))
        (rw (measure_within limit (sum + length_items (lists k)) ks (omega arith)))

  measure_beyond :
      (limit sum : ℕ) (ks : List String)
      → sum ≤ limit
      → limit < sum + messages lists ks
      → measure r limit sum ks ≡ ok none
  unfolding measure depth_of length_items ◌>>=◌
  measure_beyond limit sum [] h k = absurd (omega arith)
  measure_beyond limit sum (k ∷ ks) h m =
      let n = sum + length_items (lists k) in
      rw (stable.first k) (elim (Bool-cases (ltb limit n)) [
        | inl over ↦ rw over
        | inr fits ↦ rw fits (rw (measure_beyond limit n ks (ground (arith, fits)) (omega arith)))
      ])

  scan_rows_exact :
      (task_id : String) (rows : Items)
      → HasIds d rows
      → scan_rows d task_id rows ≡ outcome (has_message d task_id rows)
  unfolding scan_rows has_message ◌>>=◌
  scan_rows_exact task_id nil h = refl
  scan_rows_exact task_id (cons row rows) h =
      let (id, e) = h.0 in
      rw e (elim (Bool-cases (str_eq id task_id)) [
        | inl same ↦ rw same
        | inr differs ↦ rw differs (scan_rows_exact task_id rows h.1)
      ])

  list_exact :
      (task_id k : String) (rows : Items)
      → lists k ≡ rows
      → HasIds d rows
      → (v : Value) × (fetch r k (length_items rows) ≡ ok v)
        × (scan_value d task_id (length_items rows) v ≡ outcome (has_message d task_id rows))
  unfolding fetch scan_value rows_of length_items ◌>>=◌
  list_exact task_id k nil e h = (tuple nil, refl, scan_rows_exact task_id nil h)
  list_exact task_id k (cons row rows) e h =
      let all = cons row rows in
      (
        list all,
        stable.read k (length_items rows)
            ∙ ap (λ (vs : Items). ok (list vs))
                (ap (take_items (suc (length_items rows))) e ∙ ap (cons row) (take_items_all rows)),
        rw (==_refl (suc (length_items rows))) (scan_rows_exact task_id all h),
      )

  scan_exact :
      (task_id : String) (ks : List String)
      → ((key : String) → HasIds d (lists key))
      → scan r d task_id (depths lists ks)
        ≡ ok (outcome (any_list (λ k. has_message d task_id (lists k)) ks))
  unfolding scan any_list ◌>>=◌
  scan_exact task_id [] h = refl
  scan_exact task_id (k ∷ ks) h =
      let (v, e, s) = list_exact task_id k (lists k) refl (h k) in
      rw (e, s) (next (has_message d task_id (lists k)) _ (scan_exact task_id ks h))
    where
      next :
          (b : Bool) (rest : Bool) {s : Result Scan}
          → s ≡ ok (outcome rest)
          → scan_next (outcome b) s ≡ ok (outcome (b || rest))
      next true rest e = refl
      next false rest e = e

  unchanged_stable : (ks : List String) → unchanged r (depths lists ks) ≡ ok true
  unfolding unchanged depth_of ◌>>=◌
  unchanged_stable [] = refl
  unchanged_stable (k ∷ ks) =
      rw (stable.again k, ==_refl (length_items (lists k))) (unchanged_stable ks)

  conclude_exact :
      (ks : List String) (b : Bool) → conclude r (depths lists ks) (outcome b) ≡ ok (some b)
  unfolding conclude ◌>>=◌
  conclude_exact ks true = refl
  conclude_exact ks false = rw (unchanged_stable ks)

  run_scan_within :
      (queue task_id : String) (limit : ℕ)
      → ((key : String) → HasIds d (lists key))
      → messages lists (keys queue) ≤ limit
      → run_scan r d queue task_id limit
        ≡ ok (some (any_list (λ k. has_message d task_id (lists k)) (keys queue)))
  unfolding run_scan after_measure ◌>>=◌
  run_scan_within queue task_id limit ids h =
      rw (measure_within limit 0 (keys queue) (omega arith))
        (rw (scan_exact task_id (keys queue) ids) (conclude_exact (keys queue) _))

  run_scan_beyond :
      (queue task_id : String) (limit : ℕ)
      → limit < messages lists (keys queue)
      → run_scan r d queue task_id limit ≡ ok none
  unfolding run_scan after_measure ◌>>=◌
  run_scan_beyond queue task_id limit h =
      rw (measure_beyond limit 0 (keys queue) (omega arith) (omega arith))

-- On a broker whose lists stand still and hold messages with ids only, and which tells their
-- lengths and as many of their first rows as it is asked for, the scan of a named task and queue
-- under a positive limit gives the exact answer, whether the task is in one of the four lists, as
-- long as they hold no more messages than the limit; above that it gives no answer.
pub stable_exact :
    (r : RedisClient) (d : Decoders) (lists : String → Items) (queue task_id : String) (limit : ℕ)
    → IsStable r lists
    → ((key : String) → HasIds d (lists key))
    → queue ≢ ""
    → task_id ≢ ""
    → redis_task_message_present r d queue task_id (int (pos (suc limit)))
      ≡ ok (
          if leb (messages lists (keys queue)) (suc limit)
          then some (any_list (λ key. has_message d task_id (lists key)) (keys queue))
          else none)
unfolding redis_task_message_present positive_int ◌>>=◌
stable_exact r d lists queue task_id limit stable ids q t =
    rw (not_empty queue q, not_empty task_id t)
      (if_cases (λ o. run_scan r d queue task_id (suc limit) ≡ ok o)
        (leb (messages lists (keys queue)) (suc limit))
        (λ fits.
          run_scan_within r d lists stable queue task_id (suc limit) ids (omega (tests, fits)))
        (λ over. run_scan_beyond r d lists stable queue task_id (suc limit) (ground (arith, over))))
  where
    not_empty : (s : String) → s ≢ "" → str_eq s "" ≡ false
    not_empty s n = ground (arith, eq_iff s "")
