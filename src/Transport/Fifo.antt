-- ===== src/Transport/Fifo.antt =====
-- transport.py: the order of events in a transport without a spool.
use mathlib.Core.Path.{◌≡⟨◌⟩◌, ◌∎}
use mathlib.Core.List.{append-nil, append_assoc, map-append}
use celery_diagnostics_obser.Prelude.{
  ◌≡◌, refl, sym, ap, ap₂, ◌∙◌, Bool, true, none, List, [], ◌∷◌, ◌++◌, map, take-append-drop,
}
use celery_diagnostics_obser.Values.{Value, Fields}
use celery_diagnostics_obser.Values.Dict.{pop-pop}
use celery_diagnostics_obser.Config.{ObserverConfig}
use celery_diagnostics_obser.Spool.{Json}
use celery_diagnostics_obser.Transport.{
  ObserverTransport, World, Reply, delivered, failed, Outcome, retry_batch, drain_batch,
  drain_retry, take_spool, take_buffer, without_project_key, buffered, taken_in, send, post, sent,
  not_sent, idle, flush_once, enqueue, flush_once_cases, enqueue_cases,
}
use celery_diagnostics_obser.Transport.Held.{
  stored_in, held, acked, acked_delivered, acked_failed, acked_idle, Call, enqueues, flushes, step,
  run, accepted, accepted_from,
}

-- The events without the key, which is how they are sent.
abbrev pub clean : List Fields → List Fields
clean = map without_project_key

clean-clean : (es : List Fields) → clean (clean es) ≡ clean es
unfolding without_project_key
clean-clean [] = refl
clean-clean (e ∷ es) = ap₂ ◌∷◌ (pop-pop "project_key" e) (clean-clean es)

clean-append : (es fs : List Fields) → clean (es ++ fs) ≡ clean es ++ clean fs
clean-append es fs = map-append without_project_key es fs

clean_batch : (es fs : List Fields) → clean (clean es ++ fs) ≡ clean (es ++ fs)
clean_batch es fs =
    clean-append (clean es) fs
    ∙ ap (λ xs. xs ++ clean fs) (clean-clean es)
    ∙ sym (clean-append es fs)

-- `o` delivers what `es` begins with, and holds the rest; there is still no spool.
record Serves (json : Json) (w : World) (es : List Fields) (o : Outcome) : Type 0 where
  no_spool : o.state.spool ≡ none
  in_order : clean (acked w o ++ held json o.state) ≡ clean es

module _ (json : Json) (w : World) where
  Serves-resp :
      {es fs : List Fields} {o : Outcome}
      → clean es ≡ clean fs
      → Serves json w es o
      → Serves json w fs o
  Serves-resp e v = record { no_spool = v.no_spool; in_order = v.in_order ∙ e }

  idle-Serves : (t : ObserverTransport) → t.spool ≡ none → Serves json w (held json t) (idle t)
  unfolding idle
  idle-Serves t h = record {
    no_spool = h;
    in_order = ap (λ xs. clean (xs ++ held json t)) (acked_idle w (idle t) refl);
  }

  post-Serves :
      (r : Reply) (batch : List Fields) (t : ObserverTransport)
      → w.reply ≡ r
      → t.spool ≡ none
      → Serves json w (batch ++ t.buffer) (post json w r (clean batch) t)
  unfolding post
  post-Serves delivered batch t e h =
      let o = sent w (clean batch) t in
      record {
        no_spool = h;
        in_order =
            ap clean (
              ap₂ (λ xs ys. xs ++ (ys ++ t.buffer)) (acked_delivered w o e) (ap (stored_in json) h))
            ∙ clean_batch batch t.buffer;
      }
  post-Serves (failed error) batch t e h =
      let o = not_sent json w error (clean batch) t in
      record {
        no_spool = rw h refl;
        in_order = rw h (
            ap (λ xs. clean (xs ++ (clean batch ++ t.buffer))) (acked_failed w o e)
            ∙ clean_batch batch t.buffer);
      }

  held_no_spool :
      (t : ObserverTransport) → t.spool ≡ none → held json t ≡ retry_batch t.retry_state ++ t.buffer
  held_no_spool t h = ap (λ s. retry_batch t.retry_state ++ (stored_in json s ++ t.buffer)) h

  send-Serves :
      (batch : List Fields) (t : ObserverTransport)
      → t.spool ≡ none
      → (batch ≡ [] → retry_batch t.retry_state ≡ [])
      → Serves json w (batch ++ t.buffer) (send json w (batch, t))
  unfolding send
  send-Serves [] t h e =
      Serves-resp (ap clean (held_no_spool t h ∙ ap (λ b. b ++ t.buffer) (e refl)))
        (idle-Serves t h)
  send-Serves (b ∷ bs) t h e = post-Serves w.reply (b ∷ bs) t refl h

  drain_retry-in_order :
      (c : ObserverConfig) (b : List Fields) (t : ObserverTransport)
      → t.spool ≡ none
      → retry_batch t.retry_state ≡ b
      → let (batch, t') = drain_retry json c b t in
        (batch ++ t'.buffer ≡ b ++ t.buffer)
        × (t'.spool ≡ none)
        × (batch ≡ [] → retry_batch t'.retry_state ≡ [])
  unfolding drain_retry take_spool take_buffer
  drain_retry-in_order c [] t h e = rw h (take-append-drop _ t.buffer, refl, λ _. e)
  drain_retry-in_order c (x ∷ xs) t h e = (refl, h, λ k. cc)

  flush_once-Serves :
      (c : ObserverConfig) (force : Bool) (t : ObserverTransport)
      → t.spool ≡ none
      → Serves json w (held json t) (flush_once json c force w t)
  unfolding drain_batch
  flush_once-Serves c force t h =
      flush_once_cases (Serves json w (held json t)) json c force w t (idle-Serves t h) λ _ _.
        let (batch, t') = drain_batch json c t in
        let drained = drain_retry-in_order c (retry_batch t.retry_state) t h refl in
        Serves-resp (ap clean (drained.0 ∙ sym (held_no_spool t h)))
          (send-Serves batch t' drained.1 drained.2)

  buffered-held :
      (x : Fields) (t : ObserverTransport)
      → clean (held json (buffered x t)) ≡ clean (held json t ++ x ∷ [])
  unfolding buffered
  buffered-held x t =
      let r = retry_batch t.retry_state in
      let s = stored_in json t.spool in
      let x' = without_project_key x ∷ [] in
      ap clean
        (ap (◌++◌ r) (sym (append_assoc s t.buffer x')) ∙ sym (append_assoc r (s ++ t.buffer) x'))
      ∙ clean-append (held json t) x'
      ∙ ap (◌++◌ (clean (held json t))) (clean-clean (x ∷ []))
      ∙ sym (clean-append (held json t) (x ∷ []))

  enqueue-Serves :
      (c : ObserverConfig) (v : Value) (t : ObserverTransport)
      → t.spool ≡ none
      → Serves json w (held json t ++ taken_in v c.dry_run) (enqueue json c v w t)
  enqueue-Serves c v t h =
      enqueue_cases (Serves json w (held json t ++ taken_in v c.dry_run)) json c v w t
        (λ e.
          Serves-resp (ap clean (sym (append-nil _) ∙ ap (◌++◌ (held json t)) (sym e)))
            (idle-Serves t h))
        (λ x e. taking x e (flush_once-Serves c true (buffered x t) (still x)))
        (λ x e. taking x e (idle-Serves (buffered x t) (still x)))
    where
      still : (x : Fields) → (buffered x t).spool ≡ none
      still x = unfold buffered in h

      taking :
          (x : Fields)
          → taken_in v c.dry_run ≡ x ∷ []
          → {o : Outcome} → Serves json w (held json (buffered x t)) o
          → Serves json w (held json t ++ taken_in v c.dry_run) o
      taking x e = Serves-resp (buffered-held x t ∙ ap (λ es. clean (held json t ++ es)) (sym e))

step-Serves :
    (json : Json) (c : ObserverConfig) (call : Call) (w : World) (t : ObserverTransport)
    → t.spool ≡ none
    → Serves json w (held json t ++ accepted_from call c.dry_run) (step json c call w t)
unfolding step
step-Serves json c (enqueues v) w t h = enqueue-Serves json w c v t h
step-Serves json c (flushes force) w t h =
    Serves-resp json w (ap clean (sym (append-nil _))) (flush_once-Serves json w c force t h)

-- Without a spool, over any history of `enqueue` and `flush_once` and whatever posts fail: the
-- events delivered, in the order of delivery, followed by those still held, are exactly the events
-- held at the start followed by those taken in, all without the project key.
pub run-in_order :
    (json : Json) (c : ObserverConfig) (calls : List (Call × World)) (t : ObserverTransport)
    → t.spool ≡ none
    → clean ((run json c calls t).0 ++ held json (run json c calls t).1)
      ≡ clean (held json t ++ accepted c calls)
unfolding run accepted
run-in_order json c [] t h = ap clean (sym (append-nil _))
run-in_order json c ((call, w) ∷ rest) t h =
    let o = step json c call w t in
    let v = step-Serves json c call w t h in
    let later = run json c rest o.state in
    let taken = accepted_from call c.dry_run in
    clean ((acked w o ++ later.0) ++ held json later.1)
    ≡⟨ ap clean (append_assoc (acked w o) later.0 (held json later.1)) ∙ clean-append _ _ ⟩
      clean (acked w o) ++ clean (later.0 ++ held json later.1)
    ≡⟨ ap (◌++◌ (clean (acked w o)))
        (run-in_order json c rest o.state v.no_spool ∙ clean-append _ _) ⟩
      clean (acked w o) ++ (clean (held json o.state) ++ clean (accepted c rest))
    ≡⟨ sym (append_assoc (clean (acked w o)) _ _)
      ∙ ap (λ xs. xs ++ clean (accepted c rest)) (sym (clean-append (acked w o) _) ∙ v.in_order) ⟩
      clean (held json t ++ taken) ++ clean (accepted c rest)
    ≡⟨ sym (clean-append (held json t ++ taken) _) ∙ ap clean (append_assoc (held json t) taken _) ⟩
      clean (held json t ++ (taken ++ accepted c rest)) ∎
