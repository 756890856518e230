-- ===== src/Lib.antt =====
-- Celery Diagnostics Observer: a process beside a Celery deployment that reads task events and
-- broker state, strips them of payloads, and sends them to a backend in batches. On request of the
-- backend it also runs read-only probes on the workers, the result backend and the broker. All
-- paths below are of the package celery_diagnostics_observer.
--
-- The parts, and how they interact:
--
-- Events. sanitizer.py turns a raw event into one that may leave the process, or drops it
--   (Sanitizer). Single values are in Sanitizer/Coerce, labels and the list of forbidden fields in
--   Sanitizer/Labels, exception classes in Sanitizer/Exceptions, what is read from a raw event in
--   Sanitizer/Parts, schedule entries in Sanitizer/Beat, sanitize_celery_event in Sanitizer/Events,
--   and the samples and the heartbeat in Sanitizer/Snapshots. utc_now_iso() is an argument. Each
--   exception that a conversion lets through is an error of the result.
--   event_receiver.py (EventReceiver) hands them to the transport, and connects again after failures.
-- Identities. policy.py (Policy) says which identities are readable; under `local-only` the
--   sanitizer replaces them by keyed references and seals them in a capsule, both of identity.py
--   (Identity).
-- Transport. transport.py and spool.py (Transport, Spool) keep events in a buffer, a spool file and
--   a batch that waits for its retry, and post them. A step of the transport takes the time, the
--   outcome of the post and that of the spool's write as arguments; a run is a list of steps. Nothing
--   locks the transport, so that flushes of two threads may overlap (Transport/Overlap).
-- Threads. health.py, the samplers, active_probes.py and beat.py each have a thread that repeats a
--   step. They are alike in how they start, stop and end (Services); the steps, run_once of the probes
--   among them, are in Services/Rounds.
-- Probes. active_probes.py (ActiveProbes) checks a request, opens its capsule, asks the workers and
--   answers; capabilities.py, redis_result_probe.py, redis_message_probe.py (MessageProbe) and what
--   they ask of the app (ActiveProbes/AppFacts) are parts of it. What workers, Redis and the result backend reply is a parameter, as a value or an
--   exception.
-- Samples. redis_sampler.py and inspect_sampler.py (Samplers) sample queues and workers, through the
--   sanitizer.
-- Settings. config.py (Config) is the record of settings that all of them share. The reading of
--   queues is in Config/Queues, of whole numbers in Config/Numbers, of floats in Config/Bounds; the
--   whole of __post_init__, config_from_env and the ingest URL are in Config/Settings.
-- The app. app_loader.py (AppLoader) finds the project's Celery app and app_context.py (AppContext)
--   reads its conf, which is a function from a name to a value or an exception.
-- Reports. coverage.py (Coverage) says which facts are known (Coverage/Sources), what is left to do,
--   and all of that in a report (Coverage/Report), which is rendered as text (Coverage/Render), with
--   the credentials of URLs taken out (Sanitizer/Urls).
-- Beat. beat.py (Beat) is an adapter of Celery's scheduler: it reports the schedule (Beat/Snapshots),
--   and each task that is due or fails to be published (Beat/Scheduler), through a transport of its
--   own (Beat/Startup). Beat/Errors tells failures of the broker from others. What Celery's
--   scheduler does within a tick is a list of calls and the way in which it ends.
-- Replay. replay.py (Replay) sends recorded events up to a cutoff through the sanitizer, moved in time.
-- Commands. cli.py (Cli) runs all of this: observe is in Cli/Observe, replay and resolve in
--   Cli/Resolve. observe is the list of services that it starts and stops, and what they do then is
--   modelled with their parts.
--
-- Shared by all: Prelude, Result (Python exceptions as values), Values (Python objects), Text
-- (methods of str), and Runtime. Runtime holds what is not defined here: the formats of numbers and
-- dates, upper and lower case beyond ASCII, JSON, HMAC, SHA-256 and Fernet. The theorems assume of
-- it only what their hypotheses say, such as that decryption undoes encryption.
--
-- Loops are structural recursion on the list, the text or the dictionary that they read; the scan of
-- a schedule stops after 200 items by its own counter. The walk over the causes and contexts of an
-- exception is on fuel: among n exceptions it visits each once, so that n + 1 is enough, which
-- Beat/Errors/Exact proves. A command's arguments are the dictionary of parsed options. Times in the
-- transport and the settings are natural numbers of microseconds, and floats are their bit patterns.
-- Python's integers have no bound, and neither do those here.
--
-- Not modelled: dictionaries with keys other than texts; lone surrogates in texts; the modes and
-- links of files; console output and logging; timeouts and the closing of connections; the parser of
-- the command line; stable_hash, which calls repr; the closing of beat.py's scheduler; and a round of
-- event_receiver.py, which kombu runs.

pub mod Prelude
pub mod Result
pub mod Values
pub mod Config
pub mod Spool
pub mod Transport
pub mod MessageProbe
pub mod Tests
pub mod Text
pub mod Runtime
pub mod Policy
pub mod Identity
pub mod Sanitizer
pub mod ActiveProbes
pub mod Samplers
pub mod EventReceiver
pub mod AppContext
pub mod AppLoader
pub mod Coverage
pub mod Replay
pub mod Beat
pub mod Cli
pub mod Services
