-- ===== src/Transport/Overlap.antt =====
-- transport.py: two flushes of one transport that overlap. The receiver and the loops of cli.py run
-- in threads of their own, share the transport, and nothing locks it, so that a flush may begin while
-- the post of another one lasts.
use celery_diagnostics_obser.Prelude.{
  ℕ, ◌+◌, ◌-◌, ◌<◌, ltb, Bool, true, false, ◌&&◌, not, none, List, [], ◌∷◌, ◌++◌, map, take, drop,
  take_all, drop_all, subst, sym, ap₂, length-append, length, length-take, String, ◌≡◌, refl, ap,
  ◌∙◌, if◌then◌else◌, arith,
}
use celery_diagnostics_obser.Values.{dict, Fields}
use mathlib.Core.List.{append-nil, append_assoc}
use celery_diagnostics_obser.Config.{ObserverConfig}
use celery_diagnostics_obser.Spool.{Json}
use celery_diagnostics_obser.Transport.{
  ObserverTransport, World, Reply, delivered, failed, Outcome, retry_batch, is_waiting, drain_batch,
  drain_retry, take_spool, take_buffer, send, post, sent, not_sent, keep_batch, retry_later,
  counted, idle, buffered, flush_once, without_project_key,
}
use celery_diagnostics_obser.Transport.Held.{
  acked, acked_failed, acked_idle, held, Call, enqueues, step, run,
}
use celery_diagnostics_obser.Transport.Flushes.{enqueue_room}

-- flush_once up to the post: the batch that it takes, none where it returns early.
unfoldable pub begin_flush :
    Json → ObserverConfig → Bool → ℕ → ObserverTransport → List Fields × ObserverTransport
begin_flush json c force now t =
    if c.dry_run
    then ([], t)
    else if not force && ltb now (t.last_flush_at + c.flush_interval)
    then ([], t)
    else if is_waiting now t.retry_state
    then ([], t)
    else drain_batch json c t

-- The flush is forced, or the interval since the last one is over.
abbrev pub IsDue : ObserverConfig → Bool → ℕ → ObserverTransport → Type 0
IsDue c force now t = (not force && ltb now (t.last_flush_at + c.flush_interval)) ≡ false

-- The ends of two flushes, one after the other: what reached the backend, and the transport.
unfoldable pub end_both :
    Json
    → World
    → World
    → List Fields
    → List Fields × ObserverTransport
    → List Fields × ObserverTransport
end_both json w w' batch (batch', t) =
    let o = send json w (batch, t) in
    let o' = send json w' (batch', o.state) in (acked w o ++ acked w' o', o'.state)

-- Two flushes: while the post of the first one lasts, other threads call the transport, and then the
-- second one begins; the first one ends before the second. What reached the backend, and the
-- transport after all that.
unfoldable pub overlapped :
    Json
    → ObserverConfig
    → Bool
    → Bool
    → World
    → World
    → List (Call × World)
    → ObserverTransport
    → List Fields × ObserverTransport
unfolding begin_flush end_both run
overlapped json c force force' w w' calls t =
    let (batch, t') = begin_flush json c force w.now t in
    let (reached, t'') = run json c calls t' in
    let (ended, after) = end_both json w w' batch (begin_flush json c force' w'.now t'') in
    (reached ++ ended, after)

-- the calls of `enqueue` for events that arrive
abbrev pub arrivals : List (Fields × World) → List (Call × World)
arrivals [] = []
arrivals ((event, w) ∷ events) = (enqueues (dict event), w) ∷ arrivals events

-- what they put into the buffer
abbrev pub arrived : List (Fields × World) → List Fields
arrived [] = []
arrived ((event, w) ∷ events) = without_project_key event ∷ arrived events

module _ (json : Json) (c : ObserverConfig) where
  -- A flush is its two parts, one after the other.
  pub begin_flush-send :
      (force : Bool) (w : World) (t : ObserverTransport)
      → flush_once json c force w t ≡ send json w (begin_flush json c force w.now t)
  unfolding flush_once begin_flush send idle
  begin_flush-send force w t = cut c.dry_run _ _ (
      cut (not force && ltb w.now (t.last_flush_at + c.flush_interval)) _ _
        (cut (is_waiting w.now t.retry_state) _ (drain_batch json c t) refl))
    where
      cut :
          (b : Bool) (o : Outcome) (p : List Fields × ObserverTransport)
          → o ≡ send json w p
          → (if b then idle t else o) ≡ send json w (if b then ([], t) else p)
      cut true o p e = refl
      cut false o p e = e

  -- The first part, where neither a spool nor a retry has anything.
  begun :
      (force : Bool) (now : ℕ) (t : ObserverTransport)
      → c.dry_run ≡ false
      → IsDue c force now t
      → t.spool ≡ none
      → t.retry_state ≡ none
      → begin_flush json c force now t
        ≡ (take c.batch_size t.buffer, record t { buffer = drop c.batch_size t.buffer })
  unfolding begin_flush drain_batch drain_retry take_spool take_buffer is_waiting
  begun force now t live due no_spool no_retry =
      let ready : is_waiting now t.retry_state ≡ false = ap (is_waiting now) no_retry in
      let room : c.batch_size - 0 ≡ c.batch_size = omega arith in
      rw (live, due, ready)
        (ap (λ r. drain_retry json c (retry_batch r) t) no_retry
          ∙ (ap (λ s. take_spool json c s t) no_spool
              ∙ ap (λ n. (take n t.buffer, record t { buffer = drop n t.buffer })) room))

module _ (json : Json) (w : World) (t : ObserverTransport) (no_spool : t.spool ≡ none) where
  posted_some :
      (batch : List Fields)
      → 0 < length batch
      → send json w (batch, t) ≡ post json w w.reply (map without_project_key batch) t
  unfolding send
  posted_some [] some_event = absurd (omega arith)
  posted_some (e ∷ es) some_event = refl

  -- What was posted has no effect on the spool and the buffer.
  left_alone :
      (r : Reply) (batch : List Fields)
      → ((post json w r batch t).state.spool ≡ none)
        × ((post json w r batch t).state.buffer ≡ t.buffer)
  unfolding post sent not_sent keep_batch counted retry_later
  left_alone delivered batch = (no_spool, refl)
  left_alone (failed e) batch = rw no_spool (refl, refl)

  accounted :
      (r : Reply) (batch : List Fields)
      → w.reply ≡ r
      → acked w (post json w r batch t) ++ held json (post json w r batch t).state
        ≡ batch ++ t.buffer
  unfolding post sent not_sent keep_batch counted retry_later
  accounted delivered batch reply = rw (reply, no_spool) refl
  accounted (failed e) batch reply = rw (reply, no_spool) refl

  -- Without a spool, the batch reaches the backend or waits for its retry, with the buffer behind.
  all_there :
      (batch : List Fields)
      → 0 < length batch
      → acked w (send json w (batch, t)) ++ held json (send json w (batch, t)).state
        ≡ map without_project_key batch ++ t.buffer
  all_there batch some_event = rw (posted_some batch some_event) (accounted w.reply _ refl)

  left_alone_by :
      (batch : List Fields)
      → 0 < length batch
      → ((send json w (batch, t)).state.spool ≡ none)
        × ((send json w (batch, t)).state.buffer ≡ t.buffer)
  left_alone_by batch some_event = rw (posted_some batch some_event) (left_alone w.reply _)

  nothing_reached :
      (batch : List Fields) {e : String}
      → w.reply ≡ failed e
      → acked w (send json w (batch, t)) ≡ []
  nothing_reached batch fails = acked_failed w (send json w (batch, t)) fails

module _ (json : Json) (w w' : World) (t : ObserverTransport) (no_spool : t.spool ≡ none) where
  -- The end of the second flush replaces the retry that keeps the first batch.
  end_both_second :
      (batch batch' : List Fields) {e : String}
      → w.reply ≡ failed e
      → 0 < length batch
      → 0 < length batch'
      → (end_both json w w' batch (batch', t)).0
          ++ held json (end_both json w w' batch (batch', t)).1
        ≡ map without_project_key batch' ++ t.buffer
  unfolding end_both
  end_both_second batch batch' fails some_event some_event' =
      let (spool, buffer) = left_alone_by json w t no_spool batch some_event in
      rw (nothing_reached json w t no_spool batch fails) (
        all_there json w' (send json w (batch, t)).state spool batch' some_event'
        ∙ ap (λ b. map without_project_key batch' ++ b) buffer)

module _ (json : Json) (c : ObserverConfig) (live : c.dry_run ≡ false) where
  -- Events that leave the buffer below the batch size are put at its end, and nothing is posted.
  run-arrivals :
      (events : List (Fields × World)) (t : ObserverTransport)
      → length (t.buffer ++ arrived events) < c.batch_size
      → run json c (arrivals events) t ≡ ([], record t { buffer = t.buffer ++ arrived events })
  unfolding run step buffered idle
  run-arrivals [] t room = ap (λ es. ([], record t { buffer = es })) (sym (append-nil t.buffer))
  run-arrivals ((e, w) ∷ es) t room =
      let one = without_project_key e ∷ [] in
      let joined = append_assoc t.buffer one (arrived es) in
      let size = length-append t.buffer (without_project_key e ∷ arrived es) in
      ap
        (λ o.
          (acked w o ++ (run json c (arrivals es) o.state).0, (run json c (arrivals es) o.state).1))
        (enqueue_room json c live e w t (omega (arith, room, size)))
      ∙ (ap
            (λ reached. (
              reached ++ (run json c (arrivals es) (buffered e t)).0,
              (run json c (arrivals es) (buffered e t)).1,
            ))
            (acked_idle w (idle (buffered e t)) refl)
          ∙ (run-arrivals es (buffered e t) (subst (λ b. length b < c.batch_size) (sym joined) room)
              ∙ ap (λ b. ([], record t { buffer = b })) joined))

module _ (json : Json) (c : ObserverConfig) (force force' : Bool) (w w' : World)
    (events : List (Fields × World)) (t : ObserverTransport) where
  -- Two overlapping flushes lose events. It is no dry run, there is neither a spool nor a waiting
  -- retry, each of the two flushes is forced or due and finds events to take, those that arrive by
  -- `enqueue` while the first post lasts leave the buffer below the batch size, and the first post
  -- fails and ends before the second flush ends. Then what has reached the backend or is still held
  -- after both is what stood behind the first batch or arrived, without project keys, whether the
  -- second post fails too or succeeds: the first batch is gone, since the end of the second flush
  -- replaces the retry that keeps it.
  pub overlap_loses :
      {e : String}
      → c.dry_run ≡ false
      → w.reply ≡ failed e
      → t.spool ≡ none
      → t.retry_state ≡ none
      → IsDue c force w.now t
      → IsDue c force' w'.now t
      → 0 < length t.buffer
      → 0 < length (drop c.batch_size t.buffer ++ arrived events)
      → length (drop c.batch_size t.buffer ++ arrived events) < c.batch_size
      → let (reached, after) = overlapped json c force force' w w' (arrivals events) t in
        reached ++ held json after
        ≡ map without_project_key (drop c.batch_size t.buffer ++ arrived events)
  unfolding overlapped
  overlap_loses live fails no_spool no_retry due due' some_event some_rest below =
      let left = drop c.batch_size t.buffer in
      let rest = left ++ arrived events in
      let first = begun json c force w.now t live due no_spool no_retry in
      let between = run-arrivals json c live events (record t { buffer = left }) below in
      let second =
        begun json c force' w'.now (record t { buffer = rest }) live due' no_spool no_retry in
      let taken = length-take c.batch_size t.buffer in
      let taken' = length-take c.batch_size rest in
      rw (first, between, second)
        (end_both_second json w w' (record t { buffer = drop c.batch_size rest }) no_spool _ _ fails
            (omega (arith, below, some_event, taken)) (omega (arith, below, some_rest, taken'))
          ∙ (ap₂ (λ batch b. map without_project_key batch ++ b)
                (take_all c.batch_size rest (omega (arith, below)))
                (drop_all c.batch_size rest (omega (arith, below)))
              ∙ append-nil _))
