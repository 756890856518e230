-- ===== src/EventReceiver/Clean.antt =====
-- event_receiver.py: the events that handle_event hands to the transport.
use celery_diagnostics_obser.Prelude.{
  String, true, Option, none, some, ◌≡◌, ◌⊎◌, inl, inr, refl, All,
}
use celery_diagnostics_obser.Result.{ok, Returns->>=, Returns-ok, Returns_at}
use celery_diagnostics_obser.Values.{Value, bool, dict, Fields}
use celery_diagnostics_obser.Values.Dict.{get?}
use celery_diagnostics_obser.Config.{ObserverConfig}
use celery_diagnostics_obser.Policy.{TelemetryPolicy}
use celery_diagnostics_obser.Spool.{Json}
use celery_diagnostics_obser.Runtime.{Runtime}
use celery_diagnostics_obser.Transport.{ObserverTransport, Outcome, World, idle, enqueue}
use celery_diagnostics_obser.Sanitizer.Labels.{forbidden_fields}
use celery_diagnostics_obser.Sanitizer.Events.{sanitize_celery_event}
use celery_diagnostics_obser.Sanitizer.Events.Forbidden.{celery_event_clean}
use celery_diagnostics_obser.EventReceiver.{enqueue_if, handle_event}

module _ (rt : Runtime) (json : Json) (config : ObserverConfig) (policy : TelemetryPolicy)
    (now : String) (w : World) (t : ObserverTransport) where
  -- the enqueueing of an event without forbidden fields and with the mark
  pub record Enqueues (outcome : Outcome) : Type 0 where
    pub payload : Fields
    pub enqueued : outcome ≡ enqueue json config (dict payload) w t
    pub no_forbidden_field : All (λ k. get? k payload ≡ none) forbidden_fields
    pub redacted : get? "payload_redacted" payload ≡ some (bool true)

  enqueue_if_clean :
      (event : Value) (payload : Option Fields)
      → sanitize_celery_event rt config policy now event ≡ ok payload
      → (enqueue_if json config w t payload ≡ idle t)
        ⊎ Enqueues (enqueue_if json config w t payload)
  enqueue_if_clean event none h = inl refl
  enqueue_if_clean event (some payload) h =
      let clean = celery_event_clean rt config policy now event payload h in
      inr (record {
        payload = payload;
        enqueued = refl;
        no_forbidden_field = clean.0;
        redacted = clean.1;
      })

  -- An event of the broker either leaves the transport as it is, or enqueues one event that has no
  -- forbidden field and is marked `payload_redacted`.
  pub handle_event_clean :
      (event : Value) (outcome : Outcome)
      → handle_event rt json config policy now w t event ≡ ok outcome
      → (outcome ≡ idle t) ⊎ Enqueues outcome
  unfolding handle_event
  handle_event_clean event outcome h =
      Returns_at (λ o. (o ≡ idle t) ⊎ Enqueues o) _ outcome
        (Returns->>= _ _ _ (λ payload e. Returns-ok _ _ (enqueue_if_clean event payload e))) h
