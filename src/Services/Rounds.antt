-- ===== src/Services/Rounds.antt =====
-- The bodies of the loops: what one round of the health loop, of a sampler, of the probes and of
-- beat.py's flushes does, and when each loop may start. What a body raises is logged.
pub mod Delivery
use celery_diagnostics_obser.Prelude.{
  ℕ, suc, Bool, true, false, ◌&&◌, not, Option, none, some, String, str_eq, concat, List, [], ◌∷◌,
  ◌++◌, if◌then◌else◌, ◌==◌,
}
use celery_diagnostics_obser.Result.{Result, ok, err, Error, other_error, ◌>>=◌}
use celery_diagnostics_obser.Values.{Value, dict, Moment, Fields}
use celery_diagnostics_obser.Values.Dict.{is_some}
use celery_diagnostics_obser.Runtime.{Runtime}
use celery_diagnostics_obser.Config.{ObserverConfig}
use celery_diagnostics_obser.Config.Settings.{probe_next_url, probe_result_url}
use celery_diagnostics_obser.Policy.{TelemetryPolicy}
use celery_diagnostics_obser.Sanitizer.Labels.{public_observer_id}
use celery_diagnostics_obser.Sanitizer.Snapshots.{sanitize_observer_heartbeat}
use celery_diagnostics_obser.ActiveProbes.Capabilities.{broker_type}
use celery_diagnostics_obser.Samplers.Queues.{sample_once}
use celery_diagnostics_obser.Samplers.Workers.{Inspector, sample_workers}
use celery_diagnostics_obser.Spool.{Json}
use celery_diagnostics_obser.Transport.{ObserverTransport, World}
use celery_diagnostics_obser.Transport.Held.{Call, enqueues, flushes, acked, step}

-- start of RedisSamplerLoop asks for queues and a Redis broker
unfoldable pub redis_may_start : Runtime → ObserverConfig → Bool
redis_may_start rt config = has_queues config.queues && str_eq (broker_type rt config) "redis"
  where
    has_queues : List String → Bool
    has_queues [] = false
    has_queues (queue ∷ queues) = true

-- start of CeleryInspectSamplerLoop
unfoldable pub inspect_may_start : TelemetryPolicy → Bool
inspect_may_start policy = policy.enable_control_inspect

-- start of ActiveProbeLoop asks for capabilities
unfoldable pub probes_may_start : List String → Bool
probes_may_start [] = false
probes_may_start (capability ∷ capabilities) = true

-- start of _TransportFlushLoop
unfoldable pub flushes_may_start : Option ObserverTransport → Bool
flushes_may_start transport = is_some transport

abbrev pub and_on :
    Result Bool
    → List Fields
    → ObserverTransport
    → (ObserverTransport → List Fields × ObserverTransport)
    → List Fields × ObserverTransport
and_on (err e) reached t rest = (reached, t)
and_on (ok b) reached t rest = let (later, end) = rest t in (reached ++ later, end)

module _ (json : Json) (c : ObserverConfig) where
  -- Calls of the transport, up to the first one that raises: what reached the backend, and the
  -- transport after them.
  unfoldable pub perform : List (Call × World) → ObserverTransport → List Fields × ObserverTransport
  perform [] t = ([], t)
  perform ((call, w) ∷ rest) t =
      let o = step json c call w t in and_on o.result (acked w o) o.state (perform rest)

  -- The calls of a round: each snapshot is enqueued, and then the transport is flushed. `w n` is what
  -- the call number `n` meets.
  unfoldable pub round_calls : (ℕ → World) → ℕ → List Fields → List (Call × World)
  round_calls w n [] = (flushes false, w n) ∷ []
  round_calls w n (snapshot ∷ snapshots) =
      (enqueues (dict snapshot), w n) ∷ round_calls w (suc n) snapshots

  -- A round: nothing of a sample that raises gets to the transport.
  unfoldable pub round :
      (ℕ → World) → Result (List Fields) → ObserverTransport → List Fields × ObserverTransport
  unfolding perform round_calls
  round w (err e) t = ([], t)
  round w (ok snapshots) t = perform (round_calls w 0 snapshots) t

  module _ (rt : Runtime) (policy : TelemetryPolicy) (w : ℕ → World) where
    -- _run of RedisSamplerLoop
    unfoldable pub redis_sampler_round :
        (String → String)
        → Moment
        → Result (String → Result Value)
        → ObserverTransport
        → List Fields × ObserverTransport
    unfolding round
    redis_sampler_round now sampled_at client t =
        round w (sample_once rt c policy now sampled_at client) t

    -- _run of CeleryInspectSamplerLoop
    unfoldable pub inspect_sampler_round :
        (String → String) → Moment → Inspector → ObserverTransport → List Fields × ObserverTransport
    unfolding round
    inspect_sampler_round now sampled_at inspector t =
        round w (sample_workers rt c policy now sampled_at inspector) t

    -- _run of ObserverHealthLoop
    unfoldable pub health_round :
        String → String → Fields → List String → ObserverTransport → List Fields × ObserverTransport
    unfolding round
    health_round now python_version attributes capabilities t =
        round w
          (do
            heartbeat ←
                sanitize_observer_heartbeat rt c policy now python_version attributes "healthy"
                  capabilities
            ok (heartbeat ∷ []))
          t

-- What the session of ActiveProbeLoop answers: the status of a GET or its exception, the exception of
-- raise_for_status if there is one, the JSON of the response, and the exception of the POST of a
-- result, raise_for_status included.
pub record ProbeSession : Type 0 where
  pub get : String → String → Result ℕ
  pub failure : Option Error
  pub json : Result Value
  pub post : String → Fields → Option Error

abbrev unless_raised : Option Error → Result Bool → Result Bool
unless_raised (some e) rest = err e
unless_raised none rest = rest

-- request.get in execute
abbrev as_request : Value → Result Fields
as_request (dict request) = ok request
as_request v = err (other_error "AttributeError")

module _ (rt : Runtime) (c : ObserverConfig) (s : ProbeSession)
    (execute : Fields → Result Fields) where
  abbrev submitted : Result Fields → Result Bool × List Fields
  submitted (err e) = (err e, [])
  submitted (ok result) =
      (unless_raised (s.post (probe_result_url c) result) (ok true), result ∷ [])

  abbrev fetched : Option Error → Result Bool × List Fields
  fetched (some e) = (err e, [])
  fetched none = submitted (s.json >>= as_request >>= execute)

  abbrev answered : Result ℕ → Result Bool × List Fields
  answered (err e) = (err e, [])
  answered (ok status) = if status == 204 then (ok false, []) else fetched s.failure

  -- run_once: whether it worked, and the results that it posted
  unfoldable pub run_once : Result Bool × List Fields
  run_once = answered (public_observer_id rt c >>= s.get (probe_next_url c))

-- the wait of ActiveProbeLoop's _run
unfoldable pub pause_after : ℕ → ℕ → Result Bool → ℕ
pause_after quick interval (ok true) = quick
pause_after quick interval (ok false) = interval
pause_after quick interval (err e) = interval
