-- ===== src/Transport/Tally.antt =====
-- transport.py: how often each event stands in the transport, through every step.
use celery_diagnostics_obser.Prelude.{
  ℕ, ◌+◌, ◌-◌, ◌≡◌, refl, ap, ◌∙◌, Bool, true, Option, none, some, List, [], ◌∷◌, ◌++◌, map, arith,
  take, drop, length, take-append-drop, tally, one_if, tally-nil, tally-cons, tally-append,
  tally-map,
}
use celery_diagnostics_obser.Values.{Value, Fields}
use celery_diagnostics_obser.Config.{ObserverConfig}
use celery_diagnostics_obser.Spool.{Json, JsonlSpool, append_many, pop_many}
use celery_diagnostics_obser.Spool.Contents.{JsonLaws, stored, stored-pop_many, stored-append_many}
use celery_diagnostics_obser.Transport.{
  buffered, taken_in, flush_once_cases, enqueue_cases, ObserverTransport, World, Reply, delivered,
  failed, retry_batch, flush_once, enqueue, drain_batch, drain_retry, take_spool, take_buffer,
  without_project_key, send, post, sent, not_sent, keep_batch, spool_batch, retry_later, counted,
  retry_delay, idle,
}
use celery_diagnostics_obser.Transport.Held.{
  held, acked, acked_delivered, acked_failed, acked_idle, stored_in,
}

module _ (json : Json) (canon : Fields → Fields) (laws : JsonLaws json canon) (q : Fields → Bool)
    (q-without : (e : Fields) → q (without_project_key e) ≡ q e)
    (q-canon : (e : Fields) → q (canon (without_project_key e)) ≡ q e) where
  take_buffer-tally :
      (c : ObserverConfig) (b : List Fields) (t : ObserverTransport)
      → tally q (take_buffer c b t).0 + tally q (take_buffer c b t).1.buffer
        ≡ tally q b + tally q t.buffer
  unfolding take_buffer
  take_buffer-tally c b t =
      let n = c.batch_size - length b in
      omega (
        arith,
        tally-append q b (take n t.buffer),
        tally-append q (take n t.buffer) (drop n t.buffer),
        ap (tally q) (take-append-drop n t.buffer),
      )

  take_buffer_spool :
      (c : ObserverConfig) (b : List Fields) (t : ObserverTransport)
      → (take_buffer c b t).1.spool ≡ t.spool
  unfolding take_buffer
  take_buffer_spool c b t = refl

  abbrev weight : Option JsonlSpool → List Fields → ℕ
  weight s buffer = tally q (stored_in json s) + tally q buffer

  take_spool-tally :
      (c : ObserverConfig) (s : Option JsonlSpool) (t : ObserverTransport)
      → t.spool ≡ s
      → let (batch, t') = take_spool json c s t in
        tally q batch + weight t'.spool t'.buffer ≡ weight s t.buffer
  unfolding take_spool
  take_spool-tally c none t e = omega (
    arith,
    take_buffer-tally c [] t,
    tally-nil q,
    ap (λ s. tally q (stored_in json s)) (take_buffer_spool c [] t ∙ e),
  )
  take_spool-tally c (some s) t e =
      let popped = pop_many json s c.batch_size in
      let t' = record t { spool = some popped.1 } in
      omega (
        arith,
        take_buffer-tally c popped.0 t',
        ap (λ s. tally q (stored_in json s)) (take_buffer_spool c popped.0 t'),
        tally-append q popped.0 (stored json popped.1),
        ap (tally q) (stored-pop_many json s c.batch_size),
      )

  drain_retry-tally :
      (c : ObserverConfig) (b : List Fields) (t : ObserverTransport)
      → let (batch, t') = drain_retry json c b t in
        tally q batch + weight t'.spool t'.buffer ≡ tally q b + weight t.spool t.buffer
  unfolding drain_retry
  drain_retry-tally c [] t = omega (arith, take_spool-tally c t.spool t refl, tally-nil q)
  drain_retry-tally c (e ∷ es) t = refl

  held-tally :
      (t : ObserverTransport)
      → tally q (held json t) ≡ tally q (retry_batch t.retry_state) + weight t.spool t.buffer
  held-tally t = omega (
    arith,
    tally-append q (retry_batch t.retry_state) (stored_in json t.spool ++ t.buffer),
    tally-append q (stored_in json t.spool) t.buffer,
  )

  drain_batch-tally :
      (c : ObserverConfig) (t : ObserverTransport)
      → let (batch, t') = drain_batch json c t in
        tally q batch + weight t'.spool t'.buffer ≡ tally q (held json t)
  unfolding drain_batch
  drain_batch-tally c t =
      omega (arith, drain_retry-tally c (retry_batch t.retry_state) t, held-tally t)

  take_spool-retry_state :
      (c : ObserverConfig) (s : Option JsonlSpool) (t : ObserverTransport)
      → retry_batch (take_spool json c s t).1.retry_state ≡ retry_batch t.retry_state
  unfolding take_spool take_buffer
  take_spool-retry_state c none t = refl
  take_spool-retry_state c (some s) t = refl

  drain_retry-empty :
      (c : ObserverConfig) (t : ObserverTransport) (b : List Fields)
      → retry_batch t.retry_state ≡ b
      → (drain_retry json c b t).0 ≡ []
      → retry_batch (drain_retry json c b t).1.retry_state ≡ []
  unfolding drain_retry take_spool take_buffer
  drain_retry-empty c t [] e h = take_spool-retry_state c t.spool t ∙ e
  drain_retry-empty c t (x ∷ xs) e h = cc

  -- The batch is empty only if none waits for its retry.
  drain_batch-empty :
      (c : ObserverConfig) (t : ObserverTransport)
      → (drain_batch json c t).0 ≡ []
      → retry_batch (drain_batch json c t).1.retry_state ≡ []
  unfolding drain_batch
  drain_batch-empty c t = drain_retry-empty c t (retry_batch t.retry_state) refl

  stripped-tally : (es : List Fields) → tally q (map without_project_key es) ≡ tally q es
  stripped-tally es = tally-map q without_project_key q-without es

  stored-tally :
      (s : JsonlSpool) (es : List Fields)
      → tally q (stored json (append_many json s (map without_project_key es)))
        ≡ tally q (stored json s) + tally q es
  stored-tally s es = omega (
    arith,
    ap (tally q) (stored-append_many json canon laws s (map without_project_key es)),
    tally-append q (stored json s) (map canon (map without_project_key es)),
    canonical es,
  )
    where
      canonical : (fs : List Fields) → tally q (map canon (map without_project_key fs)) ≡ tally q fs
      canonical [] = refl
      canonical (f ∷ fs) = omega (
        arith,
        tally-cons q f fs,
        tally-cons q (canon (without_project_key f)) (map canon (map without_project_key fs)),
        ap one_if (q-canon f),
        canonical fs,
      )

  keep_batch-tally :
      (w : World) (batch : List Fields) (delay : ℕ) (s : Option JsonlSpool) (t : ObserverTransport)
      → w.can_spool ≡ true
      → t.spool ≡ s
      → tally q (held json (keep_batch json w (map without_project_key batch) delay s t).1)
        ≡ tally q batch + weight t.spool t.buffer
  unfolding keep_batch
  keep_batch-tally w batch delay none t h e = omega (
    arith,
    held-tally (retry_later w (map without_project_key batch) delay t),
    stripped-tally batch,
  )
  keep_batch-tally w batch delay (some s) t h e =
      let batch' = map without_project_key batch in
      rw h (
        omega (
          arith,
          held-tally (spool_batch json w batch' delay s t),
          stored-tally s batch,
          tally-nil q,
          ap (λ (s : Option JsonlSpool). tally q (stored_in json s)) e,
        ))

  post-tally :
      (w : World) (r : Reply) (batch : List Fields) (t : ObserverTransport)
      → w.can_spool ≡ true
      → w.reply ≡ r
      → let o = post json w r (map without_project_key batch) t in
        tally q (acked w o) + tally q (held json o.state) ≡ tally q batch + weight t.spool t.buffer
  unfolding post
  post-tally w delivered batch t h e =
      let o = sent w (map without_project_key batch) t in
      omega (
        arith,
        ap (tally q) (acked_delivered w o e),
        held-tally o.state,
        stripped-tally batch,
        tally-nil q,
      )
  post-tally w (failed error) batch t h e =
      let o = not_sent json w error (map without_project_key batch) t in
      omega (
        arith,
        ap (tally q) (acked_failed w o e),
        tally-nil q,
        keep_batch-tally w batch (retry_delay (counted error t)) t.spool (counted error t) h refl,
      )

  send-tally :
      (w : World) (batch : List Fields) (t : ObserverTransport)
      → w.can_spool ≡ true
      → (batch ≡ [] → retry_batch t.retry_state ≡ [])
      → let o = send json w (batch, t) in
        tally q (acked w o) + tally q (held json o.state) ≡ tally q batch + weight t.spool t.buffer
  unfolding send
  send-tally w [] t h e = omega (
    arith,
    ap (tally q) (acked_idle w (idle t) refl),
    held-tally t,
    ap (tally q) (e refl),
    tally-nil q,
  )
  send-tally w (b ∷ bs) t h e = post-tally w w.reply (b ∷ bs) t h refl

  idle-tally :
      (w : World) (t : ObserverTransport)
      → tally q (acked w (idle t)) + tally q (held json (idle t).state) ≡ tally q (held json t)
  unfolding idle
  idle-tally w t = omega (arith, ap (tally q) (acked_idle w (idle t) refl), tally-nil q)

  -- Whatever a flush does, what it delivers and what is still held is what was held.
  pub flush_once-tally :
      (c : ObserverConfig) (force : Bool) (w : World) (t : ObserverTransport)
      → w.can_spool ≡ true
      → let o = flush_once json c force w t in
        tally q (acked w o) + tally q (held json o.state) ≡ tally q (held json t)
  flush_once-tally c force w t h =
      let (batch, t') = drain_batch json c t in
      flush_once_cases
        (λ o. tally q (acked w o) + tally q (held json o.state) ≡ tally q (held json t)) json c
        force w t (idle-tally w t)
        (λ _ _. send-tally w batch t' h (drain_batch-empty c t) ∙ drain_batch-tally c t)

  buffered-tally :
      (e : Fields) (t : ObserverTransport)
      → tally q (held json (buffered e t)) ≡ tally q (held json t) + tally q (e ∷ [])
  unfolding buffered
  buffered-tally e t = omega (
    arith,
    held-tally t,
    held-tally (buffered e t),
    tally-append q t.buffer (without_project_key e ∷ []),
    tally-cons q e [],
    tally-cons q (without_project_key e) [],
    ap one_if (q-without e),
  )

  -- An event that is taken in is held or delivered.
  pub enqueue-tally :
      (c : ObserverConfig) (v : Value) (w : World) (t : ObserverTransport)
      → w.can_spool ≡ true
      → let o = enqueue json c v w t in
        tally q (acked w o) + tally q (held json o.state)
        ≡ tally q (held json t) + tally q (taken_in v c.dry_run)
  enqueue-tally c v w t h =
      enqueue_cases
        (λ o.
          tally q (acked w o) + tally q (held json o.state)
          ≡ tally q (held json t) + tally q (taken_in v c.dry_run))
        json c v w t (λ e. omega (arith, idle-tally w t, ap (tally q) e, tally-nil q))
        (λ x e.
          omega
            (arith, flush_once-tally c true w (buffered x t) h, buffered-tally x t, ap (tally q) e))
        (λ x e. omega (arith, idle-tally w (buffered x t), buffered-tally x t, ap (tally q) e))
