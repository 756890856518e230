-- ===== src/Transport/Delays.antt =====
-- When a failed batch may be posted again, after one call of the transport.
use celery_diagnostics_obser.Prelude.{
  ℕ, zero, suc, ◌+◌, ◌*◌, ◌≤◌, ◌<◌, min, max, ◌≡◌, refl, ap, Bool, true, Option, none, some, List,
  [], ◌∷◌, map, arith, String,
}
use celery_diagnostics_obser.Values.{Fields}
use celery_diagnostics_obser.Config.{ObserverConfig}
use celery_diagnostics_obser.Spool.{Json, JsonlSpool}
use celery_diagnostics_obser.Transport.{
  ObserverTransport, RetryState, World, Reply, delivered, failed, Outcome, retry_batch, drain_batch,
  drain_retry, take_spool, take_buffer, second, backoff, retry_delay, attempts_after, is_waiting,
  without_project_key, buffered, send, post, keep_batch, counted, idle, flush_once,
  flush_once_cases, enqueue_cases,
}
use celery_diagnostics_obser.Transport.Held.{Call, enqueues, flushes, step}

-- From the sixth attempt on the delay is a minute.
pub backoff_long : (n : ℕ) → 6 ≤ n → backoff n ≡ 60 * second
unfolding backoff
backoff_long n h = let e : min (max n 1) 6 ≡ 6 = omega arith in rw e

-- The delay doubles from 2 seconds, up to a minute.
pub backoff_bounds : (n : ℕ) → (2 * second ≤ backoff n) × (backoff n ≤ 60 * second)
unfolding backoff
backoff_bounds zero = (omega arith, omega arith)
backoff_bounds (suc zero) = (omega arith, omega arith)
backoff_bounds (suc (suc zero)) = (omega arith, omega arith)
backoff_bounds (suc (suc (suc zero))) = (omega arith, omega arith)
backoff_bounds (suc (suc (suc (suc zero)))) = (omega arith, omega arith)
backoff_bounds (suc (suc (suc (suc (suc zero))))) = (omega arith, omega arith)
backoff_bounds (suc (suc (suc (suc (suc (suc n)))))) =
    let e = backoff_long (suc (suc (suc (suc (suc (suc n)))))) (omega arith) in
    (omega (arith, e), omega (arith, e))

-- The attempts noted with the retry are all the failures that there have been.
abbrev pub CountedIn : Option RetryState → ℕ → Type 0
CountedIn none failures = Unit
CountedIn (some r) failures = r.attempts ≡ failures

abbrev pub IsCounted : ObserverTransport → Type 0
IsCounted t = CountedIn t.retry_state t.failed_send_count

-- The retry is due when the delay after `failures` failures is over.
abbrev pub DueIn : Option RetryState → ℕ → ℕ → Type 0
DueIn none now failures = ⊥
DueIn (some r) now failures = (r.next_retry_at ≡ now + backoff failures) × (r.attempts ≡ failures)

attempts_after-counted :
    (r : Option RetryState) (n : ℕ) → CountedIn r n → attempts_after r (n + 1) ≡ n + 1
unfolding attempts_after
attempts_after-counted none n h = refl
attempts_after-counted (some r) n h = omega arith

-- What a call does to the retry: it keeps the count, and what it fails to post is due later.
pub record Retries (w : World) (t : ObserverTransport) (o : Outcome) : Type 0 where
  pub counted : IsCounted o.state
  pub due :
      {e : String} {b : List Fields}
      → w.reply ≡ failed e
      → o.posted ≡ some b
      → DueIn o.state.retry_state w.now (t.failed_send_count + 1)

module _ (json : Json) (c : ObserverConfig) (w : World) where
  idle-Retries : (t : ObserverTransport) → IsCounted t → Retries w t (idle t)
  unfolding idle
  idle-Retries t h = record { counted = h; due = λ e p. cc }

  keep_batch-Retries :
      (batch : List Fields) (s : Option JsonlSpool) (t : ObserverTransport) (error : String)
      → w.can_spool ≡ true
      → IsCounted t
      → let t' = counted error t in
        let kept = keep_batch json w batch (retry_delay t') s t' in
        IsCounted kept.1 × DueIn kept.1.retry_state w.now (t.failed_send_count + 1)
  unfolding counted keep_batch retry_delay
  keep_batch-Retries batch none t error can h = (
    refl,
    (
      ap (λ n. w.now + backoff n) (attempts_after-counted t.retry_state t.failed_send_count h),
      refl,
    ),
  )
  keep_batch-Retries batch (some s) t error can h = rw can (
    refl,
    (
      ap (λ n. w.now + backoff n) (attempts_after-counted t.retry_state t.failed_send_count h),
      refl,
    ),
  )

  post-Retries :
      (r : Reply) (batch : List Fields) (t : ObserverTransport)
      → w.reply ≡ r
      → w.can_spool ≡ true
      → IsCounted t
      → Retries w t (post json w r batch t)
  unfolding post
  post-Retries delivered batch t e can h = record { counted = tt; due = λ f p. cc (e, f) }
  post-Retries (failed error) batch t e can h =
      let k = keep_batch-Retries batch t.spool t error can h in
      record { counted = k.0; due = λ f p. k.1 }

  send-Retries :
      (batch : List Fields) (t : ObserverTransport)
      → w.can_spool ≡ true
      → IsCounted t
      → Retries w t (send json w (batch, t))
  unfolding send
  send-Retries [] t can h = idle-Retries t h
  send-Retries (b ∷ bs) t can h =
      post-Retries w.reply (map without_project_key (b ∷ bs)) t refl can h

  take_spool_keeps :
      (s : Option JsonlSpool) (t : ObserverTransport)
      → let t' = (take_spool json c s t).1 in
        (t'.retry_state ≡ t.retry_state) × (t'.failed_send_count ≡ t.failed_send_count)
  unfolding take_spool take_buffer
  take_spool_keeps none t = (refl, refl)
  take_spool_keeps (some s) t = (refl, refl)

  drain_retry_keeps :
      (b : List Fields) (t : ObserverTransport)
      → let t' = (drain_retry json c b t).1 in
        (t'.retry_state ≡ t.retry_state) × (t'.failed_send_count ≡ t.failed_send_count)
  unfolding drain_retry
  drain_retry_keeps [] t = take_spool_keeps t.spool t
  drain_retry_keeps (x ∷ xs) t = (refl, refl)

  pub drain_batch_keeps :
      (t : ObserverTransport)
      → let t' = (drain_batch json c t).1 in
        (t'.retry_state ≡ t.retry_state) × (t'.failed_send_count ≡ t.failed_send_count)
  unfolding drain_batch
  drain_batch_keeps t = drain_retry_keeps (retry_batch t.retry_state) t

  pub flush_once-Retries :
      (force : Bool) (t : ObserverTransport)
      → w.can_spool ≡ true
      → IsCounted t
      → Retries w t (flush_once json c force w t)
  flush_once-Retries force t can h =
      flush_once_cases (Retries w t) json c force w t (idle-Retries t h) λ _ _.
        let k = drain_batch_keeps t in
        let t' = (drain_batch json c t).1 in
        let v = send-Retries (drain_batch json c t).0 t' can (rw (k.0, k.1) h) in
        record { counted = v.counted; due = λ f p. rw k.1 at (v.due f p) }

-- The number of failures noted with a retry stays that of all failures.
pub step-IsCounted :
    (json : Json) (c : ObserverConfig) (call : Call) (w : World) (t : ObserverTransport)
    → w.can_spool ≡ true
    → IsCounted t
    → IsCounted (step json c call w t).state
unfolding step buffered idle
step-IsCounted json c (flushes force) w t can h =
    (flush_once-Retries json c w force t can h).counted
step-IsCounted json c (enqueues v) w t can h =
    enqueue_cases (λ o. IsCounted o.state) json c v w t (λ _. h)
      (λ e _. (flush_once-Retries json c w true (buffered e t) can h).counted) (λ e _. h)

pub waiting_idle :
    (json : Json) (c : ObserverConfig) (force : Bool) (w : World) (t : ObserverTransport)
    → is_waiting w.now t.retry_state ≡ true
    → flush_once json c force w t ≡ idle t
waiting_idle json c force w t h =
    flush_once_cases (λ o. o ≡ idle t) json c force w t refl (λ _ free. cc (h, free))

pub due-is_waiting :
    (r : Option RetryState) (now n later : ℕ)
    → DueIn r now n
    → later < now + backoff n
    → is_waiting later r ≡ true
unfolding is_waiting
due-is_waiting none now n later d h = absurd d
due-is_waiting (some r) now n later d h = ground (arith, d)
