-- ===== src/Tests/SamplerRuns.antt =====
-- A sample of two queues, the second of which fails.

use celery_diagnostics_obser.ActiveProbes.Requests.{expected_workers}
use celery_diagnostics_obser.ActiveProbes.Capabilities.{broker_type, active_probe_capabilities}
use celery_diagnostics_obser.Sanitizer.Snapshots.{sanitize_queue_snapshot}
use celery_diagnostics_obser.Sanitizer.Labels.{public_observer_id, label}
use celery_diagnostics_obser.Sanitizer.Coerce.{optional_non_negative_int, datetime_iso}
use celery_diagnostics_obser.Identity.{required_key, prefix_of, keyed_ref, identity_ref}
use celery_diagnostics_obser.Runtime.{stripped}
use celery_diagnostics_obser.Text.{lower, has_char, before_colon}
use celery_diagnostics_obser.Prelude.{String, ◌≡◌, refl, pos, List, [], if◌then◌else◌, str_eq}
use celery_diagnostics_obser.Result.{Result, ok, err, os_error, ◌>>=◌}
use celery_diagnostics_obser.Values.{Value, int, Moment, Fields, end}
use celery_diagnostics_obser.Prelude.{none, true}
use celery_diagnostics_obser.Samplers.Queues.{llen_of, sample_once}
use celery_diagnostics_obser.Samplers.Complete.{TellsAll, every_queue_sampled}
use celery_diagnostics_obser.Tests.Samples.{sample_config, runtime, local_policy}

abbrev sampled_at : Moment
sampled_at = record { micros = pos 0; offset = none }

abbrev client : Result (String → Result Value)
client = ok (λ queue. if str_eq queue "celery" then ok (int (pos 3)) else err os_error)

abbrev list_of : Result (List Fields) → List Fields
list_of (ok snapshots) = snapshots
list_of (err e) = []

abbrev sample : Result (List Fields)
sample = sample_once (runtime end) sample_config local_policy (λ queue. "now") sampled_at client

sampled :
    (sample ≡ ok (list_of sample))
    × (str_eq (broker_type (runtime end) sample_config) "redis" ≡ true)
unfolding ◌>>=◌ lower has_char before_colon stripped required_key prefix_of keyed_ref identity_ref
    optional_non_negative_int datetime_iso public_observer_id label sanitize_queue_snapshot
    active_probe_capabilities expected_workers sample_once
sampled = (refl, refl)

every_queue_sampled_example :
    TellsAll
      (runtime end)
      sample_config
      local_policy
      (λ queue. "now")
      sampled_at
      (llen_of client)
      sample_config.queues
      (list_of sample)
every_queue_sampled_example =
    every_queue_sampled (runtime end) sample_config local_policy (λ queue. "now") sampled_at client
      (list_of sample) (sampled.1) refl (sampled.0)
