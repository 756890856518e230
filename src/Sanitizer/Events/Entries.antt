-- ===== src/Sanitizer/Events/Entries.antt =====
-- sanitizer.py: entries of the event of a task.
use celery_diagnostics_obser.Prelude.{String, Bool, true, some, ◌≡◌, refl}
use celery_diagnostics_obser.Result.{ok, Returns, Returns->>=, Returns-ok, Returns_at}
use celery_diagnostics_obser.Values.{bool, str, Fields}
use celery_diagnostics_obser.Values.Dict.{get, get?}
use celery_diagnostics_obser.Config.{ObserverConfig}
use celery_diagnostics_obser.Policy.{TelemetryPolicy}
use celery_diagnostics_obser.Runtime.{Runtime}
use celery_diagnostics_obser.Sanitizer.Labels.{task_relation_ref}
use celery_diagnostics_obser.Sanitizer.Parts.{run_ref_for}
use celery_diagnostics_obser.Sanitizer.Events.{
  periodic_part, run_part, task_payload, worker_payload,
}

abbrev pub IsRedacted : Fields → Type 0
IsRedacted out = get? "payload_redacted" out ≡ some (bool true)

module _ (rt : Runtime) (config : ObserverConfig) (policy : TelemetryPolicy) (event_type : String)
    (raw : Fields) where
  -- the parent's reference is the one of the raw event
  pub record RunEntries (out : Fields) : Type 0 where
    pub parent_ref : String
    pub parent_ref_lem : task_relation_ref rt (get "parent_id" raw) config policy ≡ ok parent_ref
    pub parent_id_lem : get? "parent_id" out ≡ some (str parent_ref)
    pub redacted : IsRedacted out

  periodic_part-Returns :
      (schedule_name : String) (metadata : Fields)
      → Returns IsRedacted (periodic_part rt config policy event_type schedule_name raw metadata)
  unfolding periodic_part get?
  periodic_part-Returns schedule_name metadata =
      Returns->>= _ _ _
        (λ a e1. Returns->>= _ _ _ (λ b e2. Returns->>= _ _ _ (λ (c, d) e3. Returns-ok _ _ refl)))

  run_part-Returns :
      (now state schedule_name : String) (metadata : Fields)
      → Returns RunEntries
          (run_part rt config policy now event_type state schedule_name raw metadata)
  unfolding run_part get?
  run_part-Returns now state schedule_name metadata = Returns->>= _ _ _ (λ a e1.
      Returns->>= _ _ _ (λ b e2. Returns->>= _ _ _ (λ parent e3. Returns->>= _ _ _ (λ d e4.
        Returns->>= _ _ _ (λ e e5. Returns->>= _ _ _ (λ f e6. Returns->>= _ _ _ (λ periodic e7.
          Returns-ok _ _ (record {
            parent_ref = parent;
            parent_ref_lem = e3;
            parent_id_lem = refl;
            redacted =
                Returns_at IsRedacted _ periodic (periodic_part-Returns schedule_name metadata) e7;
          }))))))))

  -- the run's reference, the parent's, and the mark
  pub record TaskEntries (task_id : String) (out : Fields) : Type 0 where
    pub run_ref : String
    pub run_ref_lem : run_ref_for rt config policy task_id ≡ ok run_ref
    pub run_ref_entry : get? "run_ref" out ≡ some (str run_ref)
    pub run_entries : RunEntries out

  pub task_payload-Returns :
      (now task_id : String) (mapped : String × String)
      → Returns
          (TaskEntries task_id)
          (task_payload rt config policy now event_type mapped task_id raw)
  unfolding task_payload get?
  task_payload-Returns now task_id (normalized_type, state) = Returns->>= _ _ _ (λ (a, a') e1.
      Returns->>= _ _ _ (λ (b, b') e2. Returns->>= _ _ _ (λ (c, c') e3.
        Returns->>= _ _ _ (λ (d, d') e4. Returns->>= _ _ _ (λ run_ref e5. Returns->>= _ _ _ (λ e e6.
          Returns->>= _ _ _ (λ metadata e7. Returns->>= _ _ _ (λ (g, g') e8.
            Returns->>= _ _ _ (λ h e9. Returns->>= _ _ _ (λ (i, i') e10.
              Returns->>= _ _ _ (λ run e11.
                let entries =
                  Returns_at RunEntries _ run (run_part-Returns now state g metadata) e11 in
                Returns-ok _ _ (record {
                  run_ref = run_ref;
                  run_ref_lem = e5;
                  run_ref_entry = refl;
                  run_entries = record {
                    parent_ref = entries.parent_ref;
                    parent_ref_lem = entries.parent_ref_lem;
                    parent_id_lem = entries.parent_id_lem;
                    redacted = entries.redacted;
                  };
                }))))))))))))

  pub worker_payload-Returns :
      (now : String) (mapped : String × String) (labelled : String × Bool)
      → Returns IsRedacted (worker_payload rt config policy now event_type mapped labelled raw)
  unfolding worker_payload get?
  worker_payload-Returns now (n, s) (w, h) = Returns->>= _ _ _ (λ a e1. Returns->>= _ _ _ (λ b e2.
      Returns->>= _ _ _ (λ c e3.
        Returns->>= _ _ _
          (λ d e4. Returns->>= _ _ _ (λ e e5. Returns->>= _ _ _ (λ f e6. Returns-ok _ _ refl))))))
