-- ===== src/Transport/Retry.antt =====
-- When a failed batch is posted again.
use celery_diagnostics_obser.Prelude.{
  ℕ, ◌+◌, ◌++◌, All, sym, subst, ◌*◌, ◌≤◌, ◌<◌, ◌≡◌, refl, ap, ◌∙◌, Bool, true, Option, none, some,
  List, [], ◌∷◌, arith, String,
}
use celery_diagnostics_obser.Values.{Fields}
use celery_diagnostics_obser.Config.{ObserverConfig}
use celery_diagnostics_obser.Spool.{Json}
use celery_diagnostics_obser.Transport.{
  ObserverTransport, RetryState, World, delivered, failed, Outcome, drain_batch, second, backoff,
  is_waiting, buffered, send, post, sent, idle, flush_once, flush_once_cases, enqueue_cases,
}
use celery_diagnostics_obser.Transport.Held.{Call, enqueues, flushes, step}
use celery_diagnostics_obser.Transport.Delays.{
  IsCounted, DueIn, backoff_long, flush_once-Retries, drain_batch_keeps, waiting_idle,
  due-is_waiting,
}

-- all batches that a history of calls posts, whether the posts succeed or fail
unfoldable pub posted_in :
    Json → ObserverConfig → List (Call × World) → ObserverTransport → List (List Fields)
posted_in json c [] t = []
posted_in json c ((call, w) ∷ calls) t =
    let o = step json c call w t in
    elim o.posted [ none ↦ [] | some batch ↦ batch ∷ [] ] ++ posted_in json c calls o.state

-- What a call does while a retry waits: it posts nothing, and keeps the retry.
record Waits (t : ObserverTransport) (o : Outcome) : Type 0 where
  nothing : o.posted ≡ none
  kept : o.state.retry_state ≡ t.retry_state

step-Waits :
    (json : Json) (c : ObserverConfig) (call : Call) (w : World) (t : ObserverTransport)
    → is_waiting w.now t.retry_state ≡ true
    → Waits t (step json c call w t)
unfolding step idle buffered
step-Waits json c (flushes force) w t waits =
    rw (waiting_idle json c force w t waits) (record { nothing = refl; kept = refl })
step-Waits json c (enqueues v) w t waits =
    enqueue_cases (Waits t) json c v w t (λ _. record { nothing = refl; kept = refl })
      (λ e _.
        rw (waiting_idle json c true w (buffered e t) waits)
          (record { nothing = refl; kept = refl }))
      (λ e _. record { nothing = refl; kept = refl })

-- Every call comes before the time.
abbrev pub AllBefore : ℕ → List (Call × World) → Type 0
AllBefore limit = All (λ (cw : Call × World). cw.1.now < limit)

nothing_posted :
    (json : Json) (c : ObserverConfig) (now n : ℕ) (calls : List (Call × World))
    (t : ObserverTransport)
    → DueIn t.retry_state now n
    → AllBefore (now + backoff n) calls
    → posted_in json c calls t ≡ []
unfolding posted_in
nothing_posted json c now n [] t due early = refl
nothing_posted json c now n ((call, w) ∷ calls) t due early =
    let waits = step-Waits json c call w t (due-is_waiting t.retry_state now n w.now due early.0) in
    rw (waits.nothing) (
      nothing_posted json c now n calls (step json c call w t).state
        (subst (λ r. DueIn r now n) (sym waits.kept) due) early.1)

-- After a flush whose post failed, and over any history of `enqueue` and `flush_once`, forced or
-- not, in which each call comes before the delay is over, nothing is posted; the delay is that of
-- the number of failures so far, this one included. It holds where the spool could be written after
-- the post, and a retry that waited before had counted all failures.
pub no_post_before_retry :
    (json : Json) (c : ObserverConfig) (force : Bool) (w : World) (t : ObserverTransport)
    (calls : List (Call × World)) {e : String} {b : List Fields}
    → w.can_spool ≡ true
    → IsCounted t
    → w.reply ≡ failed e
    → (flush_once json c force w t).posted ≡ some b
    → AllBefore (w.now + backoff (t.failed_send_count + 1)) calls
    → posted_in json c calls (flush_once json c force w t).state ≡ []
no_post_before_retry json c force w t calls can h f p early =
    nothing_posted json c w.now (t.failed_send_count + 1) calls (flush_once json c force w t).state
      ((flush_once-Retries json c w force t can h).due f p) early

at_due :
    (r : Option RetryState) (now n : ℕ)
    → DueIn r now n
    → (s : RetryState) × (r ≡ some s) × (s.next_retry_at ≡ now + backoff n)
at_due none now n d = absurd d
at_due (some r) now n d = (r, refl, d.0)

step_due :
    (json : Json) (c : ObserverConfig) (call : Call) (w : World) (t : ObserverTransport)
    {e : String} {b : List Fields}
    → w.can_spool ≡ true
    → IsCounted t
    → w.reply ≡ failed e
    → (step json c call w t).posted ≡ some b
    → DueIn (step json c call w t).state.retry_state w.now (t.failed_send_count + 1)
unfolding step idle buffered
step_due json c (flushes force) w t can h f p = (flush_once-Retries json c w force t can h).due f p
step_due json c (enqueues v) w t {e} {b} can h f p =
    enqueue_cases
      (λ o. o.posted ≡ some b → DueIn o.state.retry_state w.now (t.failed_send_count + 1)) json c v
      w t (λ _ none_posted. cc)
      (λ e _ posted. (flush_once-Retries json c w true (buffered e t) can h).due f posted)
      (λ e _ none_posted. cc) p

-- What a post that succeeds leaves: no retry, and the number of failures as it was.
abbrev Succeeded : ObserverTransport → Outcome → Type 0
Succeeded t o =
    (b : List Fields)
    → o.posted ≡ some b
    → (o.state.retry_state ≡ none) × (o.state.failed_send_count ≡ t.failed_send_count)

module _ (json : Json) (c : ObserverConfig) (w : World) (good : w.reply ≡ delivered) where
  send-Succeeded :
      (batch : List Fields) (t : ObserverTransport) → Succeeded t (send json w (batch, t))
  unfolding send idle post sent
  send-Succeeded [] t batch p = cc
  send-Succeeded (b ∷ bs) t batch p = rw good (refl, refl)

  flush_once-Succeeded :
      (force : Bool) (t : ObserverTransport) → Succeeded t (flush_once json c force w t)
  unfolding idle
  flush_once-Succeeded force t =
      flush_once_cases (Succeeded t) json c force w t (λ batch none_posted. cc)
        λ _ _. λ batch p.
          let k = drain_batch_keeps json c w t in
          let done = send-Succeeded (drain_batch json c t).0 (drain_batch json c t).1 batch p in
          (done.0, done.1 ∙ k.1)

-- The delay does not start over after a success: if posts have failed five times or more in all, a
-- flush posts a batch with success, and the next call posts a batch without success, then that
-- batch waits a minute for its retry. It holds where the spool can be written after the second
-- post.
pub backoff_after_success :
    (json : Json) (c : ObserverConfig) (force : Bool) (call : Call) (w w' : World)
    (t : ObserverTransport) {e : String} {b b' : List Fields}
    → 5 ≤ t.failed_send_count
    → w.reply ≡ delivered
    → (flush_once json c force w t).posted ≡ some b
    → w'.can_spool ≡ true
    → w'.reply ≡ failed e
    → let after = (flush_once json c force w t).state in
      (step json c call w' after).posted ≡ some b'
      → (r : RetryState) × ((step json c call w' after).state.retry_state ≡ some r)
        × (r.next_retry_at ≡ w'.now + 60 * second)
backoff_after_success json c force call w w' t many good first can fails second_posted =
    let after = (flush_once json c force w t).state in
    let (no_retry, count) = flush_once-Succeeded json c w good force t _ first in
    let counted : IsCounted after = rw no_retry tt in
    let (r, e, at) =
      at_due (step json c call w' after).state.retry_state w'.now _
        (step_due json c call w' after can counted fails second_posted) in
    (
      r,
      e,
      at
          ∙ ap (λ d. w'.now + d)
              (backoff_long (after.failed_send_count + 1) (omega (arith, many, count))),
    )
