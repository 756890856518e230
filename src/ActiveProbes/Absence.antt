-- ===== src/ActiveProbes/Absence.antt =====
-- active_probes.py: what stands behind the answer that a task does not run.
use celery_diagnostics_obser.Prelude.{
  String, Bool, true, false, Option, none, some, List, ◌≡◌, ◌⊎◌, refl, ap, inl, inr, Bool-cases,
  str_eq,
}
use celery_diagnostics_obser.Result.{ok, Returns, Returns->>=, Returns-ok, Returns_at}
use celery_diagnostics_obser.Values.{Value, str, dict, Fields, end, ◌or◌}
use celery_diagnostics_obser.Values.Dict.{get?}
use celery_diagnostics_obser.Config.{ObserverConfig}
use celery_diagnostics_obser.Policy.{TelemetryPolicy}
use celery_diagnostics_obser.Runtime.{Runtime}
use celery_diagnostics_obser.ActiveProbes.Requests.{
  required, expected_workers, destination, reply_labels,
}
use celery_diagnostics_obser.ActiveProbes.Matching.{Match, find_queried_task}
use celery_diagnostics_obser.ActiveProbes.Answers.{negative_complete, negative, positive}
use celery_diagnostics_obser.ActiveProbes.Handlers.{
  App, task_answer, unless_error, query_with, query_task,
}

-- `outcome_id` is "absent"
abbrev pub SaysAbsent : Fields → Type 0
SaysAbsent out = get? "outcome_id" out ≡ some (str "absent")

abbrev is_absent : Option Value → Bool
is_absent (some (str s)) = str_eq s "absent"
is_absent _ = false

module _ (rt : Runtime) (config : ObserverConfig) (policy : TelemetryPolicy) (app : App)
    (request : Fields) where
  -- Every expected worker replied, and there is one; or a worker has the task and does not run it.
  abbrev pub Evidence : Option Match → List String → Type 0
  Evidence found replies =
      (negative_complete (expected_workers rt request) replies ≡ true)
      ⊎ ((m : Match) × (found ≡ some m) × (str_eq m.state "active" ≡ false))

  -- the replies of the workers, and what they show
  pub record Absence : Type 0 where
    pub task_id : String
    pub names_task : required rt request "task_id" ≡ ok task_id
    pub queried : Value
    pub replied : app.query_task (destination rt policy request) task_id ≡ ok queried
    pub replies : List String
    pub labelled : reply_labels rt config policy (queried or dict end) ≡ ok replies
    pub evidence : Evidence (find_queried_task rt (queried or dict end) task_id) replies

  absent_found :
      (found : Option Match) (replies : List String)
      → SaysAbsent (task_answer found (expected_workers rt request) replies)
      → Evidence found replies
  unfolding negative positive get?
  absent_found none replies h =
      elim (Bool-cases (negative_complete (expected_workers rt request) replies)) [
        | inl all ↦ inl all
        | inr partial ↦ let wrong = rw partial at h in cc
      ]
  absent_found (some m) replies h = elim (Bool-cases (str_eq m.state "active")) [
    | inl active ↦ let wrong = ap is_absent (rw active at h) in cc
    | inr other ↦ inr (m, refl, other)
  ]

  absent_unless :
      (error : String) (found : Option Match) (replies : List String)
      → SaysAbsent (
          unless_error error
            (expected_workers rt request)
            replies
            (task_answer found (expected_workers rt request) replies))
      → Evidence found replies
  unfolding negative get?
  absent_unless error found replies h = elim (Bool-cases (str_eq error "")) [
    | inl none_given ↦ absent_found found replies (rw none_given at h)
    | inr given ↦ let wrong = rw given at h in cc
  ]

  query_task-Returns :
      Returns (λ out. SaysAbsent out → Absence) (query_task rt config policy app request)
  unfolding query_with
  query_task-Returns = Returns->>= _ _ _ (λ task_id e1. Returns->>= _ _ _ (λ queried e2.
      Returns->>= _ _ _ (λ replies e3. Returns->>= _ _ _ (λ error e4. Returns-ok _ _ (λ says.
        record {
          task_id = task_id;
          names_task = e1;
          queried = queried;
          replied = e2;
          replies = replies;
          labelled = e3;
          evidence = absent_unless error _ replies says;
        })))))

  -- The probe answers that a task is absent only if every expected worker replied, of at least one,
  -- or if a worker reported the task in a state other than active: never from partial replies.
  pub absence_justified :
      (out : Fields)
      → query_task rt config policy app request ≡ ok out
      → get? "outcome_id" out ≡ some (str "absent")
      → Absence
  absence_justified out h says =
      Returns_at (λ o. SaysAbsent o → Absence) _ out query_task-Returns h says
