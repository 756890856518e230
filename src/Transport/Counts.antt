-- ===== src/Transport/Counts.antt =====
-- transport.py: the counters.
use celery_diagnostics_obser.Prelude.{
  ℕ, ◌+◌, ◌≡◌, refl, ap, ◌∙◌, Bool, true, Option, none, some, List, [], ◌∷◌, map, length,
  length-append, arith, if_cases,
}
use celery_diagnostics_obser.Result.{Result}
use celery_diagnostics_obser.Values.{Fields}
use celery_diagnostics_obser.Config.{ObserverConfig}
use celery_diagnostics_obser.Spool.{Json, JsonlSpool}
use celery_diagnostics_obser.Transport.{
  ObserverTransport, World, Reply, delivered, failed, Outcome, retry_batch, drain_batch,
  drain_retry, take_spool, take_buffer, without_project_key, buffered, send, post, sent, not_sent,
  keep_batch, counted, idle, flush_once, flush_once_cases, enqueue_cases,
}
use celery_diagnostics_obser.Transport.Held.{
  acked, acked_delivered, acked_failed, acked_idle, Call, enqueues, flushes, step, run,
}

-- `o` counts what it delivers, over a state that had sent `n` events and dropped `d`.
record Counts (w : World) (n d : ℕ) (o : Outcome) : Type 0 where
  sent_count : o.state.sent_event_count ≡ n + length (acked w o)
  dropped_count : o.state.dropped_event_count ≡ d

abbrev CountsFrom : World → ObserverTransport → Outcome → Type 0
CountsFrom w t = Counts w t.sent_event_count t.dropped_event_count

module _ (json : Json) (c : ObserverConfig) (w : World) where
  idle-Counts : (t : ObserverTransport) → CountsFrom w t (idle t)
  unfolding idle
  idle-Counts t = record {
    sent_count = omega (arith, ap length (acked_idle w (idle t) refl));
    dropped_count = refl;
  }

  keep_batch_counts :
      (batch : List Fields) (delay : ℕ) (s : Option JsonlSpool) (t : ObserverTransport)
      → let t' = (keep_batch json w batch delay s t).1 in
        (t'.sent_event_count ≡ t.sent_event_count)
        × (t'.dropped_event_count ≡ t.dropped_event_count)
  unfolding keep_batch
  keep_batch_counts batch delay none t = (refl, refl)
  keep_batch_counts batch delay (some s) t =
      if_cases
        (λ (o : Result Bool × ObserverTransport).
          (o.1.sent_event_count ≡ t.sent_event_count)
          × (o.1.dropped_event_count ≡ t.dropped_event_count))
        w.can_spool (λ _. (refl, refl)) (λ _. (refl, refl))

  post-Counts :
      (r : Reply) (batch : List Fields) (t : ObserverTransport)
      → w.reply ≡ r
      → CountsFrom w t (post json w r batch t)
  unfolding post
  post-Counts delivered batch t e =
      let o = sent w batch t in
      record { sent_count = omega (arith, ap length (acked_delivered w o e)); dropped_count = refl }
  post-Counts (failed error) batch t e =
      let o = not_sent json w error batch t in
      let k = keep_batch_counts batch _ t.spool (counted error t) in
      record {
        sent_count = omega (arith, ap length (acked_failed w o e), k.0);
        dropped_count = k.1;
      }

  send-Counts :
      (batch : List Fields) (t : ObserverTransport) → CountsFrom w t (send json w (batch, t))
  unfolding send
  send-Counts [] t = idle-Counts t
  send-Counts (b ∷ bs) t = post-Counts w.reply (map without_project_key (b ∷ bs)) t refl

  take_spool_counts :
      (s : Option JsonlSpool) (t : ObserverTransport)
      → let t' = (take_spool json c s t).1 in
        (t'.sent_event_count ≡ t.sent_event_count)
        × (t'.dropped_event_count ≡ t.dropped_event_count)
  unfolding take_spool take_buffer
  take_spool_counts none t = (refl, refl)
  take_spool_counts (some s) t = (refl, refl)

  drain_retry_counts :
      (b : List Fields) (t : ObserverTransport)
      → let t' = (drain_retry json c b t).1 in
        (t'.sent_event_count ≡ t.sent_event_count)
        × (t'.dropped_event_count ≡ t.dropped_event_count)
  unfolding drain_retry
  drain_retry_counts [] t = take_spool_counts t.spool t
  drain_retry_counts (x ∷ xs) t = (refl, refl)

  flush_once-Counts :
      (force : Bool) (t : ObserverTransport) → CountsFrom w t (flush_once json c force w t)
  unfolding drain_batch
  flush_once-Counts force t =
      flush_once_cases (CountsFrom w t) json c force w t (idle-Counts t) λ _ _.
        let k = drain_retry_counts (retry_batch t.retry_state) t in
        let v = send-Counts (drain_batch json c t).0 (drain_batch json c t).1 in
        record {
          sent_count = omega (arith, v.sent_count, k.0);
          dropped_count = v.dropped_count ∙ k.1;
        }

  step-Counts : (call : Call) (t : ObserverTransport) → CountsFrom w t (step json c call w t)
  unfolding step buffered
  step-Counts (flushes force) t = flush_once-Counts force t
  step-Counts (enqueues v) t =
      enqueue_cases (CountsFrom w t) json c v w t (λ _. idle-Counts t)
        (λ e _. flush_once-Counts true (buffered e t)) (λ e _. idle-Counts (buffered e t))

-- Over any history of calls, `sent_event_count` grows by the number of events delivered, and
-- `dropped_event_count` stays as it is.
pub run-counts :
    (json : Json) (c : ObserverConfig) (calls : List (Call × World)) (t : ObserverTransport)
    → let (gone, t') = run json c calls t in
      (t'.sent_event_count ≡ t.sent_event_count + length gone)
      × (t'.dropped_event_count ≡ t.dropped_event_count)
unfolding run
run-counts json c [] t = (omega arith, refl)
run-counts json c ((call, w) ∷ rest) t =
    let o = step json c call w t in
    let v = step-Counts json c w call t in
    let k = run-counts json c rest o.state in
    (
      omega (arith, v.sent_count, k.0, length-append (acked w o) (run json c rest o.state).0),
      k.1 ∙ v.dropped_count,
    )
