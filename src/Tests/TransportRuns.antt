-- ===== src/Tests/TransportRuns.antt =====
-- Runs of the transport and the spool.
use celery_diagnostics_obser.Prelude.{
  ℕ, ◌+◌, ◌*◌, ◌≡◌, ◌≤◌, refl, Bool, true, false, none, some, List, [], ◌∷◌, ◌++◌, All, tally, map,
  arith, length, str_eq,
}
use celery_diagnostics_obser.Values.{null, str, dict, Fields, field}
use celery_diagnostics_obser.Values.Dict.{get, pop}
use celery_diagnostics_obser.Spool.{append_many, pop_many}
use celery_diagnostics_obser.Spool.Contents.{stored, append_many-pop_many}
use celery_diagnostics_obser.Transport.{
  ObserverTransport, RetryState, World, delivered, failed, second, without_project_key, backoff,
  is_waiting, flush_once, enqueue, drain_batch, retry_delay, send,
}
use celery_diagnostics_obser.Transport.Held.{
  held, or_nil, Call, enqueues, flushes, step, run, accepted,
}
use celery_diagnostics_obser.Transport.Delivery.{seen, run-conserves}
use celery_diagnostics_obser.Transport.Fifo.{clean, run-in_order}
use celery_diagnostics_obser.Transport.Batches.{HasNoKey, RetryFits, step-Fits}
use celery_diagnostics_obser.Transport.Drains.{forced, IsReady, drains}
use celery_diagnostics_obser.Transport.Overlap.{overlapped, arrivals, arrived, overlap_loses}
use celery_diagnostics_obser.Transport.Counts.{run-counts}
use celery_diagnostics_obser.Transport.Retry.{
  no_post_before_retry, posted_in, backoff_after_success,
}
use celery_diagnostics_obser.Tests.Samples.{
  sample_config, sample_json, sample_canon, sample_laws, event,
}

abbrev at_time : ℕ → World
at_time now = record { now = now; reply = delivered; can_spool = true }

abbrev down_at : ℕ → World
down_at now = record { now = now; reply = failed "ConnectionError"; can_spool = true }

-- Three events; the post of the first two fails, and a later flush succeeds.
abbrev calls : List (Call × World)
calls =
    (enqueues (dict (event "a")), at_time 1)
    ∷ (enqueues (dict (event "b")), down_at 2)
    ∷ (enqueues (dict (event "c")), at_time 3)
    ∷ (enqueues null, at_time 4)
    ∷ (flushes true, at_time 3_000_000)
    ∷ []

abbrev new_transport : ObserverTransport
new_transport = record {
  buffer = [];
  spool = none;
  failed_send_count = 0;
  dropped_event_count = 0;
  sent_event_count = 0;
  spooled_event_count = 0;
  last_error = "";
  last_flush_at = 0;
  retry_state = none;
}

abbrev spooling : ObserverTransport
spooling = record new_transport { spool = some (record { lines = none }) }

is_event_a : Fields → Bool
is_event_a e = elim (get "uuid" e) [ str s ↦ str_eq s "a" | _ ↦ false ]

run_retries : (run sample_json sample_config calls new_transport).0 ≡ event "a" ∷ event "b" ∷ []
unfolding run step enqueue flush_once drain_batch retry_delay backoff send without_project_key pop
run_retries = refl

run-conserves_example :
    tally (seen sample_json sample_canon sample_laws is_event_a) (
      (run sample_json sample_config calls spooling).0
      ++ held sample_json (run sample_json sample_config calls spooling).1)
    ≡ tally
        (seen sample_json sample_canon sample_laws is_event_a)
        (held sample_json spooling ++ accepted sample_config calls)
run-conserves_example =
    run-conserves sample_json sample_canon sample_laws is_event_a sample_config calls spooling
      (refl, (refl, (refl, (refl, (refl, tt)))))

run-in_order_example :
    clean (
      (run sample_json sample_config calls new_transport).0
      ++ held sample_json (run sample_json sample_config calls new_transport).1)
    ≡ clean (held sample_json new_transport ++ accepted sample_config calls)
run-in_order_example = run-in_order sample_json sample_config calls new_transport refl

-- One event in the buffer has the key.
abbrev loaded : ObserverTransport
loaded = record new_transport { buffer = set_key (event "a") ∷ event "b" ∷ event "c" ∷ [] }
  where
    set_key : Fields → Fields
    set_key e = field "project_key" (str "pk_test") e

step-Fits_example :
    let o = step sample_json sample_config (flushes true) (at_time 2) loaded in
    (length (or_nil o.posted) ≤ 2)
    × All HasNoKey (or_nil o.posted)
    × RetryFits sample_config o.state
step-Fits_example =
    step-Fits sample_json sample_config (flushes true) (at_time 2) loaded (omega arith)

run-counts_example :
    let (gone, t) = run sample_json sample_config calls new_transport in
    (t.sent_event_count ≡ 0 + length gone) × (t.dropped_event_count ≡ 0)
run-counts_example = run-counts sample_json sample_config calls new_transport

abbrev batch_ab : List Fields
batch_ab = event "a" ∷ event "b" ∷ []

abbrev full : ObserverTransport
full = record new_transport { buffer = batch_ab; failed_send_count = 5 }

full_posted : (flush_once sample_json sample_config true (down_at 7) full).posted ≡ some batch_ab
unfolding flush_once drain_batch send without_project_key pop
full_posted = refl

-- An enqueue and two flushes before the minute after the sixth failure is over.
abbrev early_calls : List (Call × World)
early_calls =
    (enqueues (dict (event "c")), at_time 8)
    ∷ (flushes true, at_time 9)
    ∷ (flushes false, down_at 59_000_000)
    ∷ []

no_post_before_retry_example :
    posted_in sample_json sample_config early_calls
      (flush_once sample_json sample_config true (down_at 7) full).state
    ≡ []
no_post_before_retry_example =
    no_post_before_retry sample_json sample_config true (down_at 7) full early_calls refl tt refl
      full_posted (unfold backoff in (omega arith, (omega arith, (omega arith, tt))))

-- Five posts have failed; one of two events succeeds, and that of the third event fails.
abbrev failed_before : ObserverTransport
failed_before = record full { buffer = batch_ab ++ event "c" ∷ [] }

first_posted :
    (flush_once sample_json sample_config true (at_time 7) failed_before).posted ≡ some batch_ab
unfolding flush_once drain_batch send without_project_key pop
first_posted = refl

abbrev after_success : ObserverTransport
after_success = (flush_once sample_json sample_config true (at_time 7) failed_before).state

second_posted :
    (step sample_json sample_config (flushes true) (down_at 8) after_success).posted
    ≡ some (event "c" ∷ [])
unfolding step flush_once drain_batch send without_project_key pop
second_posted = refl

backoff_after_success_example :
    (r : RetryState) × ((step sample_json sample_config
        (flushes true)
        (down_at 8)
        after_success).state.retry_state
      ≡ some r)
    × (r.next_retry_at ≡ 8 + 60 * second)
backoff_after_success_example =
    backoff_after_success sample_json sample_config true (flushes true) (at_time 7) (down_at 8)
      failed_before (omega arith) refl first_posted refl refl second_posted

append_many-pop_many_example :
    let s =
      append_many sample_json
        (append_many sample_json (record { lines = none }) batch_ab)
        (event "c" ∷ []) in
    (pop_many sample_json s 2).0 ++ stored sample_json (pop_many sample_json s 2).1
    ≡ map sample_canon (batch_ab ++ event "c" ∷ [])
append_many-pop_many_example =
    append_many-pop_many sample_json sample_canon sample_laws batch_ab (event "c" ∷ []) 2

-- A batch waits for its retry, a line is in the spool, and an event in the buffer.
abbrev full_transport : ObserverTransport
full_transport = record new_transport {
  buffer = event "c" ∷ [];
  spool = some (record { lines = some ("ub" ∷ []) });
  retry_state = some (record { batch = event "a" ∷ []; attempts = 1; next_retry_at = 5 });
}

abbrev three_flushes : List World
three_flushes = at_time 6 ∷ at_time 7 ∷ at_time 8 ∷ []

retry_over : All (IsReady full_transport.retry_state) three_flushes
unfolding is_waiting
retry_over = ((refl, refl), ((refl, refl), ((refl, refl), tt)))

drains_example :
    held sample_json ((run sample_json sample_config (map forced three_flushes) full_transport).1)
    ≡ []
drains_example =
    drains sample_json sample_config (omega arith) three_flushes full_transport refl retry_over
      (omega arith)

-- The receiver's flush of two events fails slowly, a third one arrives, and the flush at the end of
-- the observer posts it.
abbrev busy_transport : ObserverTransport
busy_transport = record new_transport { buffer = batch_ab }

abbrev late_event : List (Fields × World)
late_event = (event "c", at_time 2) ∷ []

abbrev after_overlap : List Fields × ObserverTransport
after_overlap =
    overlapped sample_json sample_config true true (down_at 1) (at_time 3) (arrivals late_event)
      busy_transport

overlap_loses_example :
    after_overlap.0 ++ held sample_json after_overlap.1
    ≡ map without_project_key (arrived late_event)
overlap_loses_example =
    overlap_loses sample_json sample_config true true (down_at 1) (at_time 3) late_event
      busy_transport refl refl refl refl refl refl (omega arith) (omega arith) (omega arith)
