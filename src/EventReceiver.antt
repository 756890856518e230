-- ===== src/EventReceiver.antt =====
-- event_receiver.py: events of the broker on their way to the transport, and the reconnections.
pub mod Backoff
pub mod Clean
use celery_diagnostics_obser.Prelude.{ℕ, ◌*◌, min, String, Option, none, some, List, [], ◌∷◌}
use celery_diagnostics_obser.Result.{Result, ok, ◌>>=◌}
use celery_diagnostics_obser.Values.{Value, str, dict, Fields, end}
use celery_diagnostics_obser.Sanitizer.Labels.{◌&◌}
use celery_diagnostics_obser.Sanitizer.Urls.{UrlLibrary, redact_url_credentials}
use celery_diagnostics_obser.Config.{ObserverConfig}
use celery_diagnostics_obser.Policy.{TelemetryPolicy}
use celery_diagnostics_obser.Spool.{Json}
use celery_diagnostics_obser.Runtime.{Runtime}
use celery_diagnostics_obser.Transport.{ObserverTransport, Outcome, World, idle, enqueue}
use celery_diagnostics_obser.Sanitizer.Events.{sanitize_celery_event}

abbrev pub enqueue_if : Json → ObserverConfig → World → ObserverTransport → Option Fields → Outcome
enqueue_if json config w t none = idle t
enqueue_if json config w t (some payload) = enqueue json config (dict payload) w t

-- handle_event: an exception of the sanitizer passes, and the transport stays as it is
unfoldable pub handle_event :
    Runtime
    → Json
    → ObserverConfig
    → TelemetryPolicy
    → String
    → World
    → ObserverTransport
    → Value
    → Result Outcome
handle_event rt json config policy now w t event = do
  payload ← sanitize_celery_event rt config policy now event
  ok (enqueue_if json config w t payload)

-- connection_failure_context, with the class of the exception
unfoldable pub connection_failure_context :
    UrlLibrary → Runtime → ObserverConfig → String → Result Fields
connection_failure_context lib rt config class = do
  safe_broker_url ← redact_url_credentials lib rt config.broker_url
  ok (
      ("broker_url", str safe_broker_url)
      & ("error_type", str class)
      & ("error_detail", str "")
      & end)

-- One round of run_forever that ends in an exception: before the receiver was made, or after.
pub data Round : Type 0 where
  refused lost : Round

-- the seconds that the loop waits after a round that began with `backoff`
unfoldable pub wait_of : ℕ → Round → ℕ
wait_of backoff refused = backoff
wait_of backoff lost = 1

-- the backoff of the next round
unfoldable pub next_backoff : ℕ → Round → ℕ
unfolding wait_of
next_backoff backoff round = min (wait_of backoff round * 2) 60

-- the backoff after some rounds
unfoldable pub backoff_after : ℕ → List Round → ℕ
unfolding next_backoff
backoff_after backoff [] = backoff
backoff_after backoff (round ∷ rounds) = backoff_after (next_backoff backoff round) rounds

-- the waits of some rounds, each after its failure
unfoldable pub waits : ℕ → List Round → List ℕ
unfolding next_backoff
waits backoff [] = []
waits backoff (round ∷ rounds) = wait_of backoff round ∷ waits (next_backoff backoff round) rounds
