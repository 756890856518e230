-- ===== src/Transport/Batches.antt =====
-- What a post contains, and what is counted.
use celery_diagnostics_obser.Prelude.{
  ℕ, suc, ◌-◌, ◌≤◌, ◌≡◌, refl, ap, Bool, true, Option, none, some, List, [], ◌∷◌, map, take, length,
  length-append, length-take, All, All-map, arith, if_cases,
}
use celery_diagnostics_obser.Result.{Result}
use celery_diagnostics_obser.Values.{Fields}
use celery_diagnostics_obser.Values.Dict.{get?, get?-pop}
use celery_diagnostics_obser.Config.{ObserverConfig}
use celery_diagnostics_obser.Spool.{Json, JsonlSpool, pop_many}
use celery_diagnostics_obser.Spool.Contents.{length-pop_many}
use celery_diagnostics_obser.Transport.{
  ObserverTransport, World, Reply, delivered, failed, Outcome, retry_batch, drain_batch,
  drain_retry, take_spool, take_buffer, without_project_key, buffered, send, post, keep_batch,
  counted, idle, flush_once, flush_once_cases, enqueue_cases,
}
use celery_diagnostics_obser.Transport.Held.{or_nil, Call, enqueues, flushes, step}

abbrev pub HasNoKey : Fields → Type 0
HasNoKey e = get? "project_key" e ≡ none

-- The batch kept for a retry fits.
abbrev pub RetryFits : ObserverConfig → ObserverTransport → Type 0
RetryFits c t = length (retry_batch t.retry_state) ≤ c.batch_size

-- What a post may contain, and the retry that it may leave.
record Fits (c : ObserverConfig) (o : Outcome) : Type 0 where
  pub size : length (or_nil o.posted) ≤ c.batch_size
  pub no_key : All HasNoKey (or_nil o.posted)
  pub retry : RetryFits c o.state

strip-HasNoKey : (es : List Fields) → All HasNoKey (map without_project_key es)
unfolding without_project_key
strip-HasNoKey es = All-map HasNoKey without_project_key es (λ e. rw get?-pop)

length-strip : (es : List Fields) → length (map without_project_key es) ≡ length es
length-strip [] = refl
length-strip (e ∷ es) = ap suc (length-strip es)

module _ (json : Json) (c : ObserverConfig) where
  take_buffer-length :
      (b : List Fields) (t : ObserverTransport)
      → length b ≤ c.batch_size
      → length (take_buffer c b t).0 ≤ c.batch_size
  unfolding take_buffer
  take_buffer-length b t h = omega (
    arith,
    length-append b (take (c.batch_size - length b) t.buffer),
    length-take (c.batch_size - length b) t.buffer,
  )

  take_spool-length :
      (s : Option JsonlSpool) (t : ObserverTransport)
      → length (take_spool json c s t).0 ≤ c.batch_size
  unfolding take_spool
  take_spool-length none t = take_buffer-length [] t (omega arith)
  take_spool-length (some s) t =
      let popped = pop_many json s c.batch_size in
      take_buffer-length popped.0 (record t { spool = some popped.1 })
        (length-pop_many json s c.batch_size)

  take_spool-retry :
      (s : Option JsonlSpool) (t : ObserverTransport)
      → RetryFits c t
      → RetryFits c (take_spool json c s t).1
  unfolding take_spool take_buffer
  take_spool-retry none t h = h
  take_spool-retry (some s) t h = h

  drain_retry-fits :
      (b : List Fields) (t : ObserverTransport)
      → length b ≤ c.batch_size
      → RetryFits c t
      → (length (drain_retry json c b t).0 ≤ c.batch_size) × RetryFits c (drain_retry json c b t).1
  unfolding drain_retry
  drain_retry-fits [] t h r = (take_spool-length t.spool t, take_spool-retry t.spool t r)
  drain_retry-fits (x ∷ xs) t h r = (h, r)

  keep_batch-RetryFits :
      (w : World) (batch : List Fields) (delay : ℕ) (s : Option JsonlSpool) (t : ObserverTransport)
      → length batch ≤ c.batch_size
      → RetryFits c t
      → RetryFits c (keep_batch json w batch delay s t).1
  unfolding keep_batch
  keep_batch-RetryFits w batch delay none t h r = h
  keep_batch-RetryFits w batch delay (some s) t h r =
      if_cases (λ (o : Result Bool × ObserverTransport). RetryFits c o.1) w.can_spool
        (λ _. omega arith) (λ _. r)

  post-Fits :
      (w : World) (r : Reply) (batch : List Fields) (t : ObserverTransport)
      → length batch ≤ c.batch_size
      → RetryFits c t
      → Fits c (post json w r (map without_project_key batch) t)
  unfolding post
  post-Fits w delivered batch t h r = record {
    size = rw (length-strip batch) h;
    no_key = strip-HasNoKey batch;
    retry = omega arith;
  }
  post-Fits w (failed error) batch t h r = record {
    size = rw (length-strip batch) h;
    no_key = strip-HasNoKey batch;
    retry =
        keep_batch-RetryFits w (map without_project_key batch) _ t.spool (counted error t)
          (rw (length-strip batch) h) r;
  }

  send-Fits :
      (w : World) (batch : List Fields) (t : ObserverTransport)
      → length batch ≤ c.batch_size
      → RetryFits c t
      → Fits c (send json w (batch, t))
  unfolding send
  send-Fits w [] t h r = record { size = omega arith; no_key = tt; retry = r }
  send-Fits w (b ∷ bs) t h r = post-Fits w w.reply (b ∷ bs) t h r

  idle-Fits : (t : ObserverTransport) → RetryFits c t → Fits c (idle t)
  unfolding idle
  idle-Fits t r = record { size = omega arith; no_key = tt; retry = r }

  flush_once-Fits :
      (force : Bool) (w : World) (t : ObserverTransport)
      → RetryFits c t
      → Fits c (flush_once json c force w t)
  unfolding drain_batch
  flush_once-Fits force w t r = flush_once_cases (Fits c) json c force w t (idle-Fits t r) λ _ _.
      let drained = drain_retry-fits (retry_batch t.retry_state) t r r in
      send-Fits w (drain_batch json c t).0 (drain_batch json c t).1 drained.0 drained.1

  -- Whatever a call posts fits the batch size and holds no event with a project key, also where the
  -- spool's file does; and the batch that it leaves for a retry fits again.
  pub step-Fits :
      (call : Call) (w : World) (t : ObserverTransport)
      → RetryFits c t
      → let o = step json c call w t in
        (length (or_nil o.posted) ≤ c.batch_size)
        × All HasNoKey (or_nil o.posted)
        × RetryFits c o.state
  unfolding step buffered
  step-Fits (flushes force) w t r =
      let v = flush_once-Fits force w t r in (v.size, v.no_key, v.retry)
  step-Fits (enqueues v) w t r =
      let f =
        enqueue_cases (Fits c) json c v w t (λ _. idle-Fits t r)
          (λ e _. flush_once-Fits true w (buffered e t) r) (λ e _. idle-Fits (buffered e t) r) in
      (f.size, f.no_key, f.retry)
