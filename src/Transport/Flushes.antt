-- ===== src/Transport/Flushes.antt =====
-- transport.py: single calls on a transport whose state is known.
use celery_diagnostics_obser.Prelude.{
  ◌+◌, ◌-◌, ◌≤◌, ◌<◌, true, false, none, List, [], ◌∷◌, ◌++◌, map, take_all, drop_all, length,
  length-append, if_cases, if◌then◌else◌, leb, lt→leb, ◌≡◌, refl, ap, ap₂, ◌∙◌, arith,
}
use celery_diagnostics_obser.Values.{dict, Fields}
use celery_diagnostics_obser.Config.{ObserverConfig}
use celery_diagnostics_obser.Spool.{Json}
use celery_diagnostics_obser.Transport.{
  ObserverTransport, World, delivered, enqueue, flush_once, idle, buffered, without_project_key,
  is_waiting, retry_batch, send, drain_batch, drain_retry, take_spool, take_buffer, post, sent,
}

module _ (json : Json) (c : ObserverConfig) (live : c.dry_run ≡ false) where
  -- An event for which there is room is put at the end of the buffer.
  pub enqueue_room :
      (e : Fields) (w : World) (t : ObserverTransport)
      → length t.buffer + 1 < c.batch_size
      → enqueue json c (dict e) w t ≡ idle (buffered e t)
  unfolding enqueue buffered
  enqueue_room e w t room =
      let short : leb c.batch_size (length (t.buffer ++ without_project_key e ∷ [])) ≡ false =
        lt→leb _ _ (omega (arith, length-append {0} t.buffer (without_project_key e ∷ []))) in
      rw (live, short) refl

  -- A forced flush while a retry waits does nothing.
  pub flush_waiting :
      (w : World) (t : ObserverTransport)
      → is_waiting w.now t.retry_state ≡ true
      → flush_once json c true w t ≡ idle t
  unfolding flush_once
  flush_waiting w t waits = rw (live, waits) refl

  -- While a retry waits, an event is put at the end of the buffer, however full that is.
  pub enqueue_waiting :
      (e : Fields) (w : World) (t : ObserverTransport)
      → is_waiting w.now t.retry_state ≡ true
      → enqueue json c (dict e) w t ≡ idle (buffered e t)
  unfolding enqueue buffered
  enqueue_waiting e w t waits =
      let full = leb c.batch_size (length (t.buffer ++ without_project_key e ∷ [])) in
      let sends = if full then flush_once json c true w (buffered e t) else idle (buffered e t) in
      ap (λ dry. if dry then idle t else sends) live
      ∙ if_cases (λ o. o ≡ idle (buffered e t)) full
          (λ reached. flush_waiting w (buffered e t) waits) (λ room. refl)

  -- A forced flush that no retry keeps back sends the drained batch.
  pub flush_ready :
      (w : World) (t : ObserverTransport)
      → is_waiting w.now t.retry_state ≡ false
      → flush_once json c true w t ≡ send json w (drain_batch json c t)
  unfolding flush_once
  flush_ready w t ready = simp (live, ready) refl

  module _ (t : ObserverTransport) where
    drain_all :
        t.spool ≡ none
        → t.retry_state ≡ none
        → length t.buffer ≤ c.batch_size
        → drain_batch json c t ≡ (t.buffer, record t { buffer = [] })
    unfolding drain_batch drain_retry take_spool take_buffer
    drain_all no_spool no_retry fits =
        ap (λ r. drain_retry json c (retry_batch r) t) no_retry
        ∙ (ap (λ s. take_spool json c s t) no_spool
            ∙ ap₂ (λ taken left. (taken, record t { buffer = left }))
                (take_all (c.batch_size - 0) t.buffer (omega arith))
                (drop_all (c.batch_size - 0) t.buffer (omega arith)))

    send_all :
        (w : World) (batch : List Fields)
        → w.reply ≡ delivered
        → 0 < length batch
        → send json w (batch, t) ≡ sent w (map without_project_key batch) t
    unfolding send post
    send_all w [] good some_event = absurd (omega arith)
    send_all w (e ∷ es) good some_event =
        ap (λ r. post json w r (map without_project_key (e ∷ es)) t) good

  -- Without a spool and a waiting retry, a forced flush to a backend that takes it posts the whole
  -- buffer, if it fits a batch.
  pub flush_all :
      (w : World) (t : ObserverTransport)
      → w.reply ≡ delivered
      → t.spool ≡ none
      → t.retry_state ≡ none
      → 0 < length t.buffer
      → length t.buffer ≤ c.batch_size
      → flush_once json c true w t
        ≡ sent w (map without_project_key t.buffer) (record t { buffer = [] })
  unfolding is_waiting
  flush_all w t good no_spool no_retry some_event fits =
      flush_ready w t (ap (is_waiting w.now) no_retry)
      ∙ (ap (send json w) (drain_all t no_spool no_retry fits)
          ∙ send_all (record t { buffer = [] }) w t.buffer good some_event)
