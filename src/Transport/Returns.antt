-- ===== src/Transport/Returns.antt =====
-- transport.py: what its calls raise.
use celery_diagnostics_obser.Prelude.{
  ℕ, Bool, true, false, Option, none, some, List, [], ◌∷◌, ◌≡◌, refl,
}
use celery_diagnostics_obser.Result.{Result, ok, err}
use celery_diagnostics_obser.Values.{Fields}
use celery_diagnostics_obser.Config.{ObserverConfig}
use celery_diagnostics_obser.Spool.{Json, JsonlSpool}
use celery_diagnostics_obser.Transport.{
  ObserverTransport, World, Reply, delivered, failed, Outcome, idle, send, post, sent, not_sent,
  counted, keep_batch, flush_once, flush_once_cases, enqueue_cases,
}
use celery_diagnostics_obser.Transport.Held.{Call, enqueues, flushes, step}

abbrev pub raised : Result Bool → Bool
raised (err e) = true
raised (ok b) = false

-- A call raises only where the spool cannot be written.
module _ (json : Json) (c : ObserverConfig) (w : World) (can : w.can_spool ≡ true) where
  keep_returns :
      (batch : List Fields) (delay : ℕ) (spool : Option JsonlSpool) (t : ObserverTransport)
      → raised (keep_batch json w batch delay spool t).0 ≡ false
  unfolding keep_batch
  keep_returns batch delay none t = refl
  keep_returns batch delay (some s) t = rw can refl

  post_returns :
      (r : Reply) (batch : List Fields) (t : ObserverTransport)
      → raised (post json w r batch t).result ≡ false
  unfolding post sent not_sent counted
  post_returns delivered batch t = refl
  post_returns (failed e) batch t = keep_returns _ _ _ _

  send_returns :
      (batch : List Fields) (t : ObserverTransport) → raised (send json w (batch, t)).result ≡ false
  unfolding send idle
  send_returns [] t = refl
  send_returns (e ∷ es) t = post_returns w.reply _ t

  flush_returns :
      (force : Bool) (t : ObserverTransport) → raised (flush_once json c force w t).result ≡ false
  unfolding idle
  flush_returns force t =
      flush_once_cases (λ o. raised (Outcome.result o) ≡ false) json c force w t refl
        (λ live ready. send_returns _ _)

  pub step_returns :
      (call : Call) (t : ObserverTransport) → raised (step json c call w t).result ≡ false
  unfolding step idle
  step_returns (flushes force) t = flush_returns force t
  step_returns (enqueues v) t =
      enqueue_cases (λ o. raised (Outcome.result o) ≡ false) json c v w t (λ quiet. refl)
        (λ e taken. flush_returns true _) (λ e taken. refl)
