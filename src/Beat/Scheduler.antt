-- ===== src/Beat/Scheduler.antt =====
-- beat.py: the steps of the scheduler with its adapter. What Celery's scheduler does is given from
-- outside: a tick is a list of calls of the adapter's methods and an end.
pub mod Evidence
pub mod Complete
pub mod Options
use celery_diagnostics_obser.Prelude.{
  ℕ, ◌+◌, ltb, String, Bool, true, false, ◌&&◌, not, Option, none, some, List, [], ◌∷◌, ◌++◌,
  if◌then◌else◌,
}
use celery_diagnostics_obser.Result.{Result, ok, err, other_error, Error}
use celery_diagnostics_obser.Values.{Value, null, dict, Fields}
use celery_diagnostics_obser.Spool.{Json}
use celery_diagnostics_obser.Transport.{
  ObserverTransport, World, Outcome, enqueue, flush_once, idle,
}
use celery_diagnostics_obser.Beat.{ScheduleEntry}
use celery_diagnostics_obser.Beat.Errors.{ExceptionObject, is_broker_error}
use celery_diagnostics_obser.Beat.Entries.{
  Adapter, Clocks, Prepared, prepare_entry, periodic_task_payload,
}
use celery_diagnostics_obser.Beat.Snapshots.{Schedule, snapshot_payload, first_due_entry}
use celery_diagnostics_obser.Beat.Runs.{
  Run, carry_on, and_then, ends, batch_list, none_of, run_of, flushed, payload_value,
}

-- What a step meets: the clocks, a new uuid, and what the transport's calls meet.
pub record Env : Type 0 where
  pub clocks : Clocks
  pub monotonic : ℕ
  pub fresh : String
  pub snapshot_world : World
  pub due_world : World
  pub failed_world : World
  pub flush_world : World

-- How Celery's own apply_async ends: with a result, or an exception of this class.
pub data Publish : Type 0 where
  published : Value → Publish
  raised : String → Publish

-- What apply_async does: the run, and the entry that it hands to Celery.
pub record Applied : Type 0 where
  pub run : Run
  pub handed : Option ScheduleEntry

module _ (json : Json) (a : Adapter) where
  -- _cd_enqueue
  unfoldable pub cd_enqueue : Option Fields → World → ObserverTransport → Run
  cd_enqueue payload w t = run_of (enqueue json a.config (payload_value payload) w t)

  -- _cd_flush_failure_evidence: an exception is logged
  unfoldable pub flush_failure_evidence : World → ObserverTransport → Run
  flush_failure_evidence w t = flushed (flush_once json a.config true w t)

  abbrev pub enqueued : Result (Option Fields) → World → ObserverTransport → Run
  enqueued (err e) w t = ends (err e) t
  enqueued (ok payload) w t = cd_enqueue payload w t

  -- make a payload and enqueue it
  unfoldable pub evidence :
      Clocks → String → Prepared → Option String → World → ObserverTransport → Run
  evidence now event_type prepared failure w t =
      enqueued (periodic_task_payload a now event_type prepared failure) w t

  -- the event of the failure, the flush, and the exception
  unfoldable pub failed_publish : Env → Prepared → String → ObserverTransport → Run
  unfolding evidence flush_failure_evidence
  failed_publish env prepared class t =
      and_then (evidence env.clocks "beat-publish-failed" prepared (some class) env.failed_world t)
        λ t'.
          and_then (flush_failure_evidence env.flush_world t')
            λ t''. ends (err (other_error class)) t''

  unfoldable pub publish_run : Env → Prepared → Publish → ObserverTransport → Run
  unfolding failed_publish
  publish_run env prepared (published result) t = ends (ok result) t
  publish_run env prepared (raised class) t = failed_publish env prepared class t

  abbrev pub handed_if : Result Value → ScheduleEntry → Option ScheduleEntry
  handed_if (err e) entry = none
  handed_if (ok v) entry = some entry

  unfoldable pub apply_prepared : Env → Prepared → Publish → ObserverTransport → Applied
  unfolding publish_run evidence
  apply_prepared env prepared publish t =
      let due = evidence env.clocks "beat-task-due" prepared none env.due_world t in
      record {
        run = and_then due (publish_run env prepared publish);
        handed = handed_if due.result prepared.entry;
      }

  abbrev pub applied_if : Env → Publish → ObserverTransport → Result Prepared → Applied
  applied_if env publish t (err e) = record { run = ends (err e) t; handed = none }
  applied_if env publish t (ok prepared) = apply_prepared env prepared publish t

  unfoldable pub apply_enabled : Env → ScheduleEntry → Publish → ObserverTransport → Applied
  apply_enabled env entry publish t =
      applied_if env publish t (prepare_entry a env.clocks env.fresh entry)

  -- The scheduler: the transport is `none` where no project key is configured.
  pub record BeatState : Type 0 where
    pub transport : Option ObserverTransport
    pub last_snapshot_at : ℕ
    pub current_due_entry : Option ScheduleEntry
    pub snapshot_interval : ℕ

  -- What a call of the scheduler did: its result, the batches, the entry handed to Celery, and the
  -- state after it.
  pub record Step : Type 0 where
    pub result : Result Value
    pub posted : List (List Fields)
    pub handed : Option ScheduleEntry
    pub state : BeatState

  abbrev pub publish_result : Publish → Result Value
  publish_result (published result) = ok result
  publish_result (raised class) = err (other_error class)

  abbrev pub of_applied : BeatState → Applied → Step
  of_applied s applied = record {
    result = applied.run.result;
    posted = applied.run.posted;
    handed = applied.handed;
    state = record s { transport = some applied.run.transport };
  }

  -- apply_async
  unfoldable pub apply_async : Env → ScheduleEntry → Publish → BeatState → Step
  unfolding apply_enabled
  apply_async env entry publish s = elim s.transport [
    | none ↦ record { result = publish_result publish; posted = []; handed = some entry; state = s }
    | some t ↦ of_applied s (apply_enabled env entry publish t)
  ]

  -- the payload is enqueued, or an exception is logged; the time is set unless there was one
  abbrev snapshot_taken : ℕ → BeatState → Run → BeatState
  snapshot_taken now s run = elim run.result [
    | err e ↦ record s { transport = some run.transport }
    | ok v ↦ record s { transport = some run.transport; last_snapshot_at = now }
  ]

  snapshot_run : Env → Schedule → ObserverTransport → Run
  snapshot_run env schedule t =
      enqueued (snapshot_payload a env.clocks schedule) env.snapshot_world t

  -- _cd_emit_schedule_snapshot: the batches that it posted, and the state
  unfoldable pub emit_schedule_snapshot :
      Env → Bool → Schedule → BeatState → List (List Fields) × BeatState
  unfolding snapshot_run
  emit_schedule_snapshot env force schedule s = elim s.transport [
    | none ↦ ([], s)
    | some t ↦
        let run = snapshot_run env schedule t in
        if not force && ltb env.monotonic (s.last_snapshot_at + s.snapshot_interval)
        then ([], s)
        else (run.posted, snapshot_taken env.monotonic s run)
  ]

  -- The calls that Celery's tick makes.
  pub data Call : Type 0 where
    reserve : ScheduleEntry → Call
    apply : Env → ScheduleEntry → Publish → Call

  -- How Celery's tick ends: it returns, or raises one of the `count` exceptions of the interpreter.
  pub data TickEnd : Type 0 where
    returns : Value → TickEnd
    raises : (ℕ → ExceptionObject) → (count id : ℕ) → TickEnd

  -- reserve and apply_async, as Celery's tick calls them
  unfoldable pub call : Call → BeatState → List (List Fields) × BeatState
  unfolding apply_async
  call (reserve entry) s = ([], record s { current_due_entry = some entry })
  call (apply env entry publish) s =
      let step = apply_async env entry publish s in (step.posted, step.state)

  unfoldable pub calls : List Call → BeatState → List (List Fields) × BeatState
  unfolding call
  calls [] s = ([], s)
  calls (c ∷ cs) s =
      let (batches, s') = call c s in let (more, s'') = calls cs s' in (batches ++ more, s'')

  -- the evidence of a tick that failed before apply_async
  unfoldable pub failed_tick : Env → ScheduleEntry → String → ObserverTransport → Run
  unfolding evidence failed_publish
  failed_tick env entry class t = elim (prepare_entry a env.clocks env.fresh entry) [
    | err e ↦ ends (err e) t
    | ok prepared ↦
        and_then (evidence env.clocks "beat-task-due" prepared none env.due_world t)
          (failed_publish env prepared class)
  ]

  abbrev or_entry : Option ScheduleEntry → Option ScheduleEntry → Option ScheduleEntry
  or_entry (some entry) other = some entry
  or_entry none other = other

  -- the `except` branch, for an exception that is a failure of the broker or not
  unfoldable pub after_failure : Env → Bool → String → Option ScheduleEntry → BeatState → Step
  unfolding failed_tick
  after_failure env is_broker class (some entry) s = elim s.transport [
    | none ↦ record { result = err (other_error class); posted = []; handed = none; state = s }
    | some t ↦
        let run = failed_tick env entry class t in
        if is_broker
        then record {
          result = run.result;
          posted = run.posted;
          handed = none;
          state = record s { transport = some run.transport };
        }
        else record { result = err (other_error class); posted = []; handed = none; state = s }
  ]
  after_failure env is_broker class none s = record {
    result = err (other_error class);
    posted = [];
    handed = none;
    state = s;
  }

  abbrev is_some_true : Option Bool → Bool
  is_some_true (some b) = b
  is_some_true none = false

  tick_end : Env → TickEnd → Option ScheduleEntry → BeatState → Step
  unfolding after_failure
  tick_end env (returns v) due s = record { result = ok v; posted = []; handed = none; state = s }
  tick_end env (raises heap count id) due s =
      after_failure env (is_some_true (is_broker_error a.runtime heap count id)) (heap id).type_name
        (or_entry s.current_due_entry due) s

  -- tick
  unfoldable pub tick : Env → Schedule → List Call → TickEnd → BeatState → Step
  unfolding emit_schedule_snapshot calls tick_end
  tick env schedule made ended s =
      let (first, s1) = emit_schedule_snapshot env false schedule s in
      let (batches, s2) = calls made (record s1 { current_due_entry = none }) in
      let step = tick_end env ended (first_due_entry schedule) s2 in
      record step { posted = first ++ (batches ++ step.posted) }

  -- _cd_shutdown, after the loop is stopped: the last flush
  unfoldable pub shutdown : World → BeatState → List (List Fields) × BeatState
  shutdown w s = elim s.transport [
    | none ↦ ([], s)
    | some t ↦
        let o = flush_once json a.config true w t in
        (batch_list o.posted, record s { transport = some o.state })
  ]
