-- ===== src/Transport.antt =====
-- transport.py: `ObserverTransport`. The clock, the outcome of the HTTP post and of a write to the
-- spool are arguments. Times are microseconds.
pub mod Delays
pub mod Returns
pub mod Overlap
pub mod Held
mod Tally
pub mod Fifo
pub mod Delivery
pub mod Batches
pub mod Counts
pub mod Retry
pub mod Flushes
pub mod Drains
use celery_diagnostics_obser.Prelude.{
  ◌≡◌, refl, ap, if_cases, ℕ, ◌+◌, ◌-◌, ◌*◌, ◌^◌, ◌<◌, min, max, suc, String, Bool, true, false,
  not, ◌&&◌, Option, none, some, List, [], ◌∷◌, ◌++◌, map, take, drop, length, ltb, leb,
  if◌then◌else◌,
}
use celery_diagnostics_obser.Result.{Result, ok, err, os_error}
use celery_diagnostics_obser.Values.{Value, dict, Fields}
use celery_diagnostics_obser.Values.Dict.{pop}
use celery_diagnostics_obser.Config.{ObserverConfig}
use celery_diagnostics_obser.Spool.{Json, JsonlSpool, append_many, pop_many}

pub record RetryState : Type 0 where
  pub batch : List Fields
  pub attempts : ℕ
  pub next_retry_at : ℕ

pub record ObserverTransport : Type 0 where
  pub buffer : List Fields
  pub spool : Option JsonlSpool
  pub failed_send_count : ℕ
  pub dropped_event_count : ℕ
  pub sent_event_count : ℕ
  pub spooled_event_count : ℕ
  pub last_error : String
  pub last_flush_at : ℕ
  pub retry_state : Option RetryState

-- How the post ended: a success status, or an exception, by its class name.
pub data Reply : Type 0 where
  delivered : Reply
  failed : String → Reply

-- What a flush meets: the time, the end of the post, and whether the spool can be written.
pub record World : Type 0 where
  pub now : ℕ
  pub reply : Reply
  pub can_spool : Bool

-- What a call did: its result, the batch that it posted, and the state that it left, also where it
-- raised.
pub record Outcome : Type 0 where
  pub result : Result Bool
  pub posted : Option (List Fields)
  pub state : ObserverTransport

abbrev pub second : ℕ
second = 1_000_000

-- __init__, with the spool's file as it was found
unfoldable pub init : Option JsonlSpool → ObserverTransport
init spool = record {
  buffer = [];
  spool = spool;
  failed_send_count = 0;
  dropped_event_count = 0;
  sent_event_count = 0;
  spooled_event_count = 0;
  last_error = "";
  last_flush_at = 0;
  retry_state = none;
}

unfoldable pub without_project_key : Fields → Fields
without_project_key = pop "project_key"

-- fill the batch from the spool, then from the buffer
unfoldable pub take_buffer :
    ObserverConfig → List Fields → ObserverTransport → List Fields × ObserverTransport
take_buffer c batch t =
    let room = c.batch_size - length batch in
    (batch ++ take room t.buffer, record t { buffer = drop room t.buffer })

take_spool :
    Json → ObserverConfig → Option JsonlSpool → ObserverTransport → List Fields × ObserverTransport
take_spool json c none t = take_buffer c [] t
take_spool json c (some s) t =
    let (batch, rest) = pop_many json s c.batch_size in
    take_buffer c batch (record t { spool = some rest })

-- the batch that waits for its retry
abbrev pub retry_batch : Option RetryState → List Fields
retry_batch none = []
retry_batch (some r) = r.batch

drain_retry :
    Json → ObserverConfig → List Fields → ObserverTransport → List Fields × ObserverTransport
unfolding take_spool take_buffer
drain_retry json c [] t = take_spool json c t.spool t
drain_retry json c (e ∷ es) t = (e ∷ es, t)

-- _drain_batch
unfoldable pub drain_batch :
    Json → ObserverConfig → ObserverTransport → List Fields × ObserverTransport
unfolding drain_retry
drain_batch json c t = drain_retry json c (retry_batch t.retry_state) t

-- min(60.0, 2 ** min(max(attempts, 1), 6)) seconds
unfoldable pub backoff : ℕ → ℕ
backoff attempts = min (60 * second) (2 ^ min (max attempts 1) 6 * second)

attempts_after : Option RetryState → ℕ → ℕ
attempts_after none failures = failures
attempts_after (some r) failures = r.attempts + 1

-- _retry_delay
unfoldable pub retry_delay : ObserverTransport → ℕ
unfolding attempts_after
retry_delay t = backoff (attempts_after t.retry_state t.failed_send_count)

unfoldable pub sent : World → List Fields → ObserverTransport → Outcome
sent w batch t = record {
  result = ok true;
  posted = some batch;
  state = record t {
    last_flush_at = w.now;
    sent_event_count = t.sent_event_count + length batch;
    last_error = "";
    retry_state = none;
  };
}

retry_later : World → List Fields → ℕ → ObserverTransport → ObserverTransport
retry_later w batch delay t = record t {
  retry_state =
      some
        (record { batch = batch; attempts = t.failed_send_count; next_retry_at = w.now + delay });
}

-- the end of the `except` branch: the batch goes to the spool, or is kept for the retry; a spool
-- that cannot be written raises out of the handler
spool_batch : Json → World → List Fields → ℕ → JsonlSpool → ObserverTransport → ObserverTransport
unfolding retry_later
spool_batch json w batch delay s t = retry_later w [] delay (record t {
  spool = some (append_many json s batch);
  spooled_event_count = t.spooled_event_count + length batch;
})

keep_batch :
    Json
    → World
    → List Fields
    → ℕ
    → Option JsonlSpool
    → ObserverTransport
    → Result Bool × ObserverTransport
unfolding spool_batch
keep_batch json w batch delay none t = (ok true, retry_later w batch delay t)
keep_batch json w batch delay (some s) t =
    if w.can_spool then (ok true, spool_batch json w batch delay s t) else (err os_error, t)

counted : String → ObserverTransport → ObserverTransport
counted error t = record t { failed_send_count = t.failed_send_count + 1; last_error = error }

not_sent : Json → World → String → List Fields → ObserverTransport → Outcome
unfolding keep_batch counted retry_delay
not_sent json w error batch t =
    let t' = counted error t in
    let (r, t'') = keep_batch json w batch (retry_delay t') t'.spool t' in
    record { result = r; posted = some batch; state = t'' }

post : Json → World → Reply → List Fields → ObserverTransport → Outcome
unfolding sent not_sent
post json w delivered batch t = sent w batch t
post json w (failed error) batch t = not_sent json w error batch t

unfoldable pub idle : ObserverTransport → Outcome
idle t = record { result = ok false; posted = none; state = t }

unfoldable pub send : Json → World → List Fields × ObserverTransport → Outcome
unfolding post idle
send json w ([], t) = idle t
send json w (e ∷ es, t) = post json w w.reply (map without_project_key (e ∷ es)) t

unfoldable pub is_waiting : ℕ → Option RetryState → Bool
is_waiting now none = false
is_waiting now (some r) = ltb now r.next_retry_at

-- flush_once(force=force)
unfoldable pub flush_once : Json → ObserverConfig → Bool → World → ObserverTransport → Outcome
unfolding idle is_waiting
flush_once json c force w t =
    if c.dry_run
    then idle t
    else if not force && ltb w.now (t.last_flush_at + c.flush_interval)
    then idle t
    else if is_waiting w.now t.retry_state
    then idle t
    else send json w (drain_batch json c t)

-- A flush leaves all as it is, or it sends the drained batch: not in a dry run, not too soon after
-- the last one unless forced, and never while a retry waits.
pub flush_once_cases {ℓ} :
    (P : Outcome → Type ℓ) (json : Json) (c : ObserverConfig) (force : Bool) (w : World)
    (t : ObserverTransport)
    → P (idle t)
    → (c.dry_run ≡ false
        → is_waiting w.now t.retry_state ≡ false
        → P (send json w (drain_batch json c t)))
    → P (flush_once json c force w t)
unfolding flush_once
flush_once_cases P json c force w t quiet sends =
    if_cases P c.dry_run (λ _. quiet)
      (λ live.
        if_cases P _ (λ _. quiet) (λ _. if_cases P _ (λ _. quiet) (λ ready. sends live ready)))

-- self.buffer.append(_without_project_key(event))
unfoldable pub buffered : Fields → ObserverTransport → ObserverTransport
buffered event t = record t { buffer = t.buffer ++ without_project_key event ∷ [] }

-- enqueue(event); in a dry run the event is at most printed. The caller gets no result, so that of
-- the flush stands for it.
unfoldable pub enqueue : Json → ObserverConfig → Value → World → ObserverTransport → Outcome
unfolding idle buffered
enqueue json c (dict event) w t =
    if c.dry_run
    then idle t
    else if leb c.batch_size (length (buffered event t).buffer)
    then flush_once json c true w (buffered event t)
    else idle (buffered event t)
enqueue json c _ w t = idle t

-- The event that a call of `enqueue` takes in: an object, unless in a dry run.
abbrev pub taken_in : Value → Bool → List Fields
taken_in (dict e) dry_run = if dry_run then [] else e ∷ []
taken_in _ dry_run = []

pub enqueue_cases {ℓ} :
    (P : Outcome → Type ℓ) (json : Json) (c : ObserverConfig) (v : Value) (w : World)
    (t : ObserverTransport)
    → (taken_in v c.dry_run ≡ [] → P (idle t))
    → ((e : Fields) → taken_in v c.dry_run ≡ e ∷ [] → P (flush_once json c true w (buffered e t)))
    → ((e : Fields) → taken_in v c.dry_run ≡ e ∷ [] → P (idle (buffered e t)))
    → P (enqueue json c v w t)
unfolding enqueue
enqueue_cases P json c (dict e) w t quiet full room =
    if_cases P c.dry_run (λ h. quiet (ap (λ d. if d then [] else e ∷ []) h))
      λ h.
        let taken : (if c.dry_run then [] else e ∷ []) ≡ e ∷ [] =
          ap (λ d. if d then [] else e ∷ []) h in
        if_cases P _ (λ _. full e taken) (λ _. room e taken)
enqueue_cases P json c _ w t quiet full room = quiet refl
