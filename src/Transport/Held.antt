-- ===== src/Transport/Held.antt =====
-- What the transport still holds, what a call handed over, and histories of calls.
use celery_diagnostics_obser.Prelude.{
  String, ◌≡◌, refl, ap, ◌∙◌, Bool, Option, none, some, List, [], ◌∷◌, ◌++◌,
}
use celery_diagnostics_obser.Values.{Value, Fields}
use celery_diagnostics_obser.Config.{ObserverConfig}
use celery_diagnostics_obser.Spool.{Json, JsonlSpool}
use celery_diagnostics_obser.Spool.Contents.{stored}
use celery_diagnostics_obser.Transport.{
  ObserverTransport, World, Reply, delivered, failed, Outcome, retry_batch, taken_in, flush_once,
  enqueue,
}

abbrev pub stored_in : Json → Option JsonlSpool → List Fields
stored_in json none = []
stored_in json (some s) = stored json s

-- The batch that waits for a retry, the spool, and the buffer.
abbrev pub held : Json → ObserverTransport → List Fields
held json t = retry_batch t.retry_state ++ (stored_in json t.spool ++ t.buffer)

abbrev pub or_nil : Option (List Fields) → List Fields
or_nil none = []
or_nil (some es) = es

abbrev on_delivery : Reply → List Fields → List Fields
on_delivery delivered es = es
on_delivery (failed e) es = []

-- The events that reached the backend: those posted, if the post succeeded.
abbrev pub acked : World → Outcome → List Fields
acked w o = on_delivery w.reply (or_nil o.posted)

pub acked_delivered : (w : World) (o : Outcome) → w.reply ≡ delivered → acked w o ≡ or_nil o.posted
acked_delivered w o e = ap (λ r. on_delivery r (or_nil o.posted)) e

pub acked_failed : (w : World) (o : Outcome) {e : String} → w.reply ≡ failed e → acked w o ≡ []
acked_failed w o e = ap (λ r. on_delivery r (or_nil o.posted)) e

-- Where nothing is posted, nothing reaches the backend.
pub acked_idle : (w : World) (o : Outcome) → o.posted ≡ none → acked w o ≡ []
acked_idle w o e = ap (λ b. on_delivery w.reply (or_nil b)) e ∙ nothing w.reply
  where
    nothing : (r : Reply) → on_delivery r [] ≡ []
    nothing delivered = refl
    nothing (failed e) = refl

pub data Call : Type 0 where
  enqueues : Value → Call
  flushes : Bool → Call

abbrev pub accepted_from : Call → Bool → List Fields
accepted_from (enqueues v) dry_run = taken_in v dry_run
accepted_from (flushes force) dry_run = []

unfoldable pub step : Json → ObserverConfig → Call → World → ObserverTransport → Outcome
step json c (enqueues v) w t = enqueue json c v w t
step json c (flushes force) w t = flush_once json c force w t

-- A history of calls: all that reached the backend, in order, and the state at the end.
unfoldable pub run :
    Json
    → ObserverConfig
    → List (Call × World)
    → ObserverTransport
    → List Fields × ObserverTransport
run json c [] t = ([], t)
run json c ((call, w) ∷ rest) t =
    let o = step json c call w t in
    let (later, end) = run json c rest o.state in (acked w o ++ later, end)

unfoldable pub accepted : ObserverConfig → List (Call × World) → List Fields
accepted c [] = []
accepted c ((call, w) ∷ rest) = accepted_from call c.dry_run ++ accepted c rest
