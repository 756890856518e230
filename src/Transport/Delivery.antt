-- ===== src/Transport/Delivery.antt =====
-- transport.py: the events that go into the transport, and those that come out.
use celery_diagnostics_obser.Prelude.{
  ◌+◌, ◌≡◌, ap, ◌∙◌, Bool, true, List, [], ◌∷◌, ◌++◌, All, arith, tally, tally-nil, tally-append,
}
use celery_diagnostics_obser.Values.{Fields}
use celery_diagnostics_obser.Values.Dict.{pop-pop, pop_absent, get?-pop}
use celery_diagnostics_obser.Config.{ObserverConfig}
use celery_diagnostics_obser.Spool.{Json}
use celery_diagnostics_obser.Spool.Contents.{JsonLaws}
use celery_diagnostics_obser.Transport.{ObserverTransport, World, without_project_key}
use celery_diagnostics_obser.Transport.Tally.{flush_once-tally, enqueue-tally}
use celery_diagnostics_obser.Transport.Held.{
  held, acked, Call, enqueues, flushes, step, run, accepted, accepted_from,
}

-- The spool can be written.
abbrev pub CanSpool : Call × World → Type 0
CanSpool cw = cw.1.can_spool ≡ true

module _ (json : Json) (canon : Fields → Fields) (laws : JsonLaws json canon)
    (p : Fields → Bool) where
  -- What a test sees of an event once it has been through the transport.
  abbrev pub seen : Fields → Bool
  seen e = p (canon (without_project_key e))

  seen-without : (e : Fields) → seen (without_project_key e) ≡ seen e
  unfolding without_project_key
  seen-without e = rw (pop-pop "project_key" e)

  absent :
      (e : Fields)
      → without_project_key (canon (without_project_key e)) ≡ canon (without_project_key e)
  unfolding without_project_key
  absent e = pop_absent "project_key" _ (laws.canon_absent "project_key" _ (rw get?-pop))

  seen-canon : (e : Fields) → seen (canon (without_project_key e)) ≡ seen e
  seen-canon e = ap p (ap canon (absent e) ∙ laws.canon-canon _)

  step-tally :
      (c : ObserverConfig) (call : Call) (w : World) (t : ObserverTransport)
      → w.can_spool ≡ true
      → let o = step json c call w t in
        tally seen (acked w o) + tally seen (held json o.state)
        ≡ tally seen (held json t) + tally seen (accepted_from call c.dry_run)
  unfolding step
  step-tally c (enqueues v) w t h =
      enqueue-tally json canon laws seen seen-without seen-canon c v w t h
  step-tally c (flushes force) w t h = omega (
    arith,
    flush_once-tally json canon laws seen seen-without seen-canon c force w t h,
    tally-nil seen,
  )

  -- Over any history of `enqueue` and `flush_once` in which the spool can be written, and whatever
  -- posts fail: as many events of each kind have reached the backend or are still held as were held
  -- at the start or taken in. The kind of an event is any test of its JSON form without the key.
  pub run-conserves :
      (c : ObserverConfig) (calls : List (Call × World)) (t : ObserverTransport)
      → All CanSpool calls
      → tally seen ((run json c calls t).0 ++ held json (run json c calls t).1)
        ≡ tally seen (held json t ++ accepted c calls)
  unfolding run accepted
  run-conserves c [] t h = omega (arith, tally-append seen (held json t) [], tally-nil seen)
  run-conserves c ((call, w) ∷ rest) t h =
      let o = step json c call w t in
      let later = run json c rest o.state in
      let first = accepted_from call c.dry_run in
      omega (
        arith,
        step-tally c call w t h.0,
        run-conserves c rest o.state h.1,
        tally-append seen (acked w o ++ later.0) (held json later.1),
        tally-append seen (acked w o) later.0,
        tally-append seen later.0 (held json later.1),
        tally-append seen (held json t) (first ++ accepted c rest),
        tally-append seen first (accepted c rest),
        tally-append seen (held json o.state) (accepted c rest),
      )
