-- ===== src/Beat/Scheduler/Options.antt =====
-- beat.py: what an entry keeps when it is prepared, and which task its evidence names.
use celery_diagnostics_obser.Prelude.{ℕ, String, false, Option, none, some, str_eq, ◌≡◌, refl}
use celery_diagnostics_obser.Result.{ok, Returns->>=, Returns-ok, Returns_at}
use celery_diagnostics_obser.Values.{str, dict, Moment, Fields}
use celery_diagnostics_obser.Values.Dict.{get, get?, set, get?-set}
use celery_diagnostics_obser.Beat.{ScheduleEntry}
use celery_diagnostics_obser.Beat.Entries.{
  Adapter, Clocks, Prepared, prepare_entry, context_of, headers_of, with_options, update,
  task_id_of, periodic_event,
}

-- The entry that is handed to Celery, and its evidence.
pub record SameTask (a : Adapter) (fresh : String) (entry : ScheduleEntry) (p : Prepared)
    : Type 0 where
  pub handed_id : get "task_id" p.entry.options ≡ str (task_id_of a entry fresh)
  pub evidence_id :
      (now : Clocks) (event_type : String) (failure : Option String)
      → get "uuid" (periodic_event a now event_type p failure) ≡ str (task_id_of a entry fresh)
  pub headers : Fields
  pub has_headers : get "headers" p.entry.options ≡ dict headers
  pub same_occurrence :
      get "celery_diagnostics_occurrence_key" headers ≡ get "periodic_occurrence_key" p.context
  pub other_options :
      (k : String)
      → str_eq "task_id" k ≡ false
      → str_eq "headers" k ≡ false
      → get? k p.entry.options ≡ get? k entry.options
  pub same_name : p.entry.task ≡ entry.task

module _ (a : Adapter) (entry : ScheduleEntry) where
  uuid_of_event :
      (now then_ : Clocks) (task_id event_type : String) (fire_at : Moment) (count : Option ℕ)
      (entry' : ScheduleEntry) (failure : Option String)
      → get "uuid" (
          periodic_event a now event_type
            (record { entry = entry'; context = context_of a then_ entry task_id fire_at count })
            failure)
        ≡ str task_id
  unfolding periodic_event update context_of set get?
  uuid_of_event now then_ task_id event_type fire_at count entry' none = refl
  uuid_of_event now then_ task_id event_type fire_at count entry' (some class) = refl

  occurrence_of_headers :
      (then_ : Clocks) (task_id : String) (fire_at : Moment) (count : Option ℕ) (headers : Fields)
      → get "celery_diagnostics_occurrence_key"
          (update headers (headers_of a (context_of a then_ entry task_id fire_at count)))
        ≡ get "periodic_occurrence_key" (context_of a then_ entry task_id fire_at count)
  unfolding update headers_of
  occurrence_of_headers then_ task_id fire_at count headers = simp (get?-set) refl

  prepared-SameTask :
      (now : Clocks) (fresh : String) (fire_at : Moment) (count : Option ℕ) (headers : Fields)
      → let context = context_of a now entry (task_id_of a entry fresh) fire_at count in
        SameTask a fresh entry (record {
          entry =
              with_options entry (update headers (headers_of a context)) (task_id_of a entry fresh);
          context = context;
        })
  unfolding with_options
  prepared-SameTask now fresh fire_at count headers =
      let context = context_of a now entry (task_id_of a entry fresh) fire_at count in
      record {
        handed_id = simp (get?-set) refl;
        evidence_id = λ now' event_type failure.
            uuid_of_event now' now (task_id_of a entry fresh) event_type fire_at count _ failure;
        headers = update headers (headers_of a context);
        has_headers = simp (get?-set) refl;
        same_occurrence =
            occurrence_of_headers now (task_id_of a entry fresh) fire_at count headers;
        other_options = λ k t h. simp (get?-set, t, h) refl;
        same_name = refl;
      }

  -- The entry that is handed to Celery has the task id that its events carry, also the occurrence
  -- key of their context among its headers, and its options are otherwise those of the schedule.
  pub prepared_task :
      (now : Clocks) (fresh : String) (p : Prepared)
      → prepare_entry a now fresh entry ≡ ok p
      → SameTask a fresh entry p
  unfolding prepare_entry
  prepared_task now fresh p made =
      Returns_at (SameTask a fresh entry) _ p
        (Returns->>= _ _ _ (λ fire_at e. Returns->>= _ _ _ (λ count e'.
          Returns->>= _ _ _
            (λ headers e''. Returns-ok _ _ (prepared-SameTask now fresh fire_at count headers)))))
        made
