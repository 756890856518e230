-- ===== src/Beat/Scheduler/Evidence.antt =====
-- beat.py and transport.py: what becomes of the evidence of a publish that failed.

use celery_diagnostics_obser.Prelude.{
  ◌+◌, ◌<◌, String, true, false, Option, none, some, [], ◌∷◌, ◌++◌, map, length, length-append, ◌≡◌,
  ap, ◌∙◌, arith,
}
use celery_diagnostics_obser.Result.{ok, err, other_error}
use celery_diagnostics_obser.Values.{null, dict, Fields}
use celery_diagnostics_obser.Spool.{Json}
use celery_diagnostics_obser.Transport.{
  ObserverTransport, World, delivered, Outcome, enqueue, flush_once, idle, buffered,
  without_project_key, is_waiting, sent,
}
use celery_diagnostics_obser.Transport.Flushes.{
  enqueue_room, enqueue_waiting, flush_waiting, flush_all,
}
use celery_diagnostics_obser.Beat.{ScheduleEntry}
use celery_diagnostics_obser.Beat.Entries.{Adapter, Prepared, prepare_entry, periodic_task_payload}
use celery_diagnostics_obser.Beat.Scheduler.{
  Env, Applied, raised, cd_enqueue, flush_failure_evidence, evidence, enqueued, applied_if,
  handed_if, failed_publish, publish_run, apply_prepared, apply_enabled,
}
use celery_diagnostics_obser.Beat.Runs.{and_then, run_of, flushed, ends}

-- A publish that fails with exception class `class`, of an entry whose events `due` and `failure`
-- can be made.
pub record FailedPublish (a : Adapter) (env : Env) (entry : ScheduleEntry) (class : String)
    (prepared : Prepared) (due failure : Fields) : Type 0 where
  pub live : a.config.dry_run ≡ false
  pub is_prepared : prepare_entry a env.clocks env.fresh entry ≡ ok prepared
  pub has_due : periodic_task_payload a env.clocks "beat-task-due" prepared none ≡ ok (some due)
  pub has_failure :
      periodic_task_payload a env.clocks "beat-publish-failed" prepared (some class)
      ≡ ok (some failure)

module _ (json : Json) (a : Adapter) (env : Env) where
  evidence_kept :
      (event_type : String) (prepared : Prepared) (class : Option String) (e : Fields) (w : World)
      (t : ObserverTransport)
      → periodic_task_payload a env.clocks event_type prepared class ≡ ok (some e)
      → enqueue json a.config (dict e) w t ≡ idle (buffered e t)
      → evidence json a env.clocks event_type prepared class w t ≡ ends (ok null) (buffered e t)
  unfolding evidence cd_enqueue idle
  evidence_kept event_type prepared class e w t made kept =
      ap (λ r. enqueued json a r w t) made ∙ ap run_of kept

module _ (json : Json) (a : Adapter) (env : Env) (entry : ScheduleEntry) (class : String)
    (prepared : Prepared) (due failure : Fields)
    (p : FailedPublish a env entry class prepared due failure) (t : ObserverTransport) where
  -- the transport with both events at the end of its buffer
  abbrev pub both_buffered : ObserverTransport
  both_buffered = buffered failure (buffered due t)

  -- Both calls of `enqueue` put their events into the buffer, and do no more.
  abbrev BothKept : Type 0
  BothKept =
      (enqueue json a.config (dict due) env.due_world t ≡ idle (buffered due t))
      × (enqueue json a.config (dict failure) env.failed_world (buffered due t)
          ≡ idle both_buffered)

  failed_publish_both :
      BothKept
      → failed_publish json a env prepared class (buffered due t)
        ≡ and_then
            (flush_failure_evidence json a env.flush_world both_buffered)
            (λ t''. ends (err (other_error class)) t'')
  unfolding failed_publish and_then buffered
  failed_publish_both kept =
      ap
        (λ r. and_then r (λ t'.
          and_then (flush_failure_evidence json a env.flush_world t')
            λ t''. ends (err (other_error class)) t''))
        (evidence_kept json a env "beat-publish-failed" prepared (some class) failure
          env.failed_world (buffered due t) p.has_failure (kept.1))

  applied_both :
      BothKept
      → apply_enabled json a env entry (raised class) t ≡ record {
        run =
            and_then
              (flush_failure_evidence json a env.flush_world both_buffered)
              (λ t''. ends (err (other_error class)) t'');
        handed = some prepared.entry;
      }
  unfolding apply_enabled apply_prepared publish_run and_then
  applied_both kept =
      ap (applied_if json a env (raised class) t) p.is_prepared
      ∙ (ap
            (λ r. record {
              run = and_then r (failed_publish json a env prepared class);
              handed = handed_if json a r.result prepared.entry;
            })
            (evidence_kept json a env "beat-task-due" prepared none due env.due_world t p.has_due
              (kept.0))
          ∙ ap (λ r. record { run = r; handed = some prepared.entry }) (failed_publish_both kept))

  count : length both_buffered.buffer ≡ length t.buffer + 2
  unfolding buffered
  count = omega (
    arith,
    length-append {0} (t.buffer ++ without_project_key due ∷ []) (without_project_key failure ∷ []),
    length-append {0} t.buffer (without_project_key due ∷ []),
  )

  -- the state after both events and a flush that ended so
  abbrev after : Outcome → Applied
  after o = record {
    run = and_then (flushed o) (λ t''. ends (err (other_error class)) t'');
    handed = some prepared.entry;
  }

  applied_flush :
      (o : Outcome)
      → BothKept
      → flush_once json a.config true env.flush_world both_buffered ≡ o
      → apply_enabled json a env entry (raised class) t ≡ after o
  unfolding flush_failure_evidence
  applied_flush o kept e = applied_both kept ∙ ap after e

  both_room : length t.buffer + 2 < a.config.batch_size → BothKept
  unfolding buffered
  both_room room = (
    enqueue_room json a.config p.live due env.due_world t (omega (arith, room)),
    enqueue_room json a.config p.live failure env.failed_world (buffered due t)
        (omega (arith, length-append {0} t.buffer (without_project_key due ∷ []), room)),
  )

  both_waiting :
      is_waiting env.due_world.now t.retry_state ≡ true
      → is_waiting env.failed_world.now t.retry_state ≡ true
      → BothKept
  unfolding buffered
  both_waiting at_due at_failure = (
    enqueue_waiting json a.config p.live due env.due_world t at_due,
    enqueue_waiting json a.config p.live failure env.failed_world (buffered due t) at_failure,
  )

  -- Where the backend takes the flush, there is neither a spool nor a waiting retry, and the buffer
  -- with both events is below the batch size, a publish that fails posts one batch: what was in the
  -- buffer and then the two events, without project keys. The buffer is empty then, Celery was
  -- handed the prepared entry, and it gets the exception of the publish. It is no dry run, the
  -- entry can be prepared, and both events can be made.
  pub failure_reported :
      length t.buffer + 2 < a.config.batch_size
      → env.flush_world.reply ≡ delivered
      → t.spool ≡ none
      → t.retry_state ≡ none
      → let applied = apply_enabled json a env entry (raised class) t in
        (applied.run.posted ≡ map without_project_key both_buffered.buffer ∷ [])
        × ((applied.run.transport.buffer ≡ [])
            × ((applied.run.result ≡ err (other_error class))
                × (applied.handed ≡ some prepared.entry)))
  unfolding and_then sent buffered
  failure_reported room good no_spool no_retry =
      let posts = applied_flush _ (both_room room) (
        flush_all json a.config p.live env.flush_world both_buffered good no_spool no_retry
          (omega (arith, count)) (omega (arith, count, room))) in
      (
        ap (λ r. r.run.posted) posts,
        (
          ap (λ r. r.run.transport.buffer) posts,
          (ap (λ r. r.run.result) posts, ap (λ r. r.handed) posts),
        ),
      )

  -- While the transport waits for a retry, at both events and at the flush after a publish that
  -- fails, nothing is posted, also if there is a spool or the buffer is full: both events stay at
  -- the end of the buffer, Celery was handed the prepared entry, and it gets the exception of the
  -- publish. It is no dry run, the entry can be prepared, and both events can be made.
  pub failure_kept_in_memory :
      is_waiting env.due_world.now t.retry_state ≡ true
      → is_waiting env.failed_world.now t.retry_state ≡ true
      → is_waiting env.flush_world.now t.retry_state ≡ true
      → apply_enabled json a env entry (raised class) t ≡ record {
        run = ends (err (other_error class)) both_buffered;
        handed = some prepared.entry;
      }
  unfolding and_then idle buffered
  failure_kept_in_memory at_due at_failure waits =
      applied_flush _ (both_waiting at_due at_failure)
        (flush_waiting json a.config p.live env.flush_world both_buffered waits)
