-- ===== src/Services/Rounds/Delivery.antt =====
-- The bodies of the loops: what becomes of what a round samples.
use celery_diagnostics_obser.Prelude.{
  ℕ, suc, Bool, true, false, List, [], ◌∷◌, ◌++◌, All, tally, ◌≡◌, refl, ap, ◌∙◌, arith,
}
use celery_diagnostics_obser.Result.{Result, ok, err}
use celery_diagnostics_obser.Values.{Fields}
use celery_diagnostics_obser.Config.{ObserverConfig}
use celery_diagnostics_obser.Spool.{Json}
use celery_diagnostics_obser.Spool.Contents.{JsonLaws}
use celery_diagnostics_obser.Transport.{ObserverTransport, World}
use celery_diagnostics_obser.Transport.Held.{Call, acked, held, step, run, accepted}
use celery_diagnostics_obser.Transport.Delivery.{seen, CanSpool, run-conserves}
use celery_diagnostics_obser.Transport.Returns.{raised, step_returns}
use celery_diagnostics_obser.Services.Rounds.{perform, round, round_calls, and_on}

module _ (json : Json) (c : ObserverConfig) where
  -- Calls of which none raises are a history of the transport.
  perform-run :
      (calls : List (Call × World)) (t : ObserverTransport)
      → All CanSpool calls
      → perform json c calls t ≡ run json c calls t
  unfolding perform run
  perform-run [] t all = refl
  perform-run ((call, w) ∷ calls) t (can, all) =
      let o = step json c call w t in
      goes_on o.result (acked w o) o.state (step_returns json c w can call t)
        (perform-run calls o.state all)
    where
      goes_on :
          (r : Result Bool) (reached : List Fields) (t' : ObserverTransport)
          → raised r ≡ false
          → perform json c calls t' ≡ run json c calls t'
          → and_on r reached t' (perform json c calls)
            ≡ (reached ++ (run json c calls t').0, (run json c calls t').1)
      goes_on (err e) reached t' returns same = absurd (ground arith)
      goes_on (ok b) reached t' returns same = ap (λ later. (reached ++ later.0, later.1)) same

  module _ (w : ℕ → World) where
    round_calls-CanSpool :
        ((n : ℕ) → (w n).can_spool ≡ true)
        → (n : ℕ) (snapshots : List Fields) → All CanSpool (round_calls json c w n snapshots)
    unfolding round_calls
    round_calls-CanSpool can n [] = (can n, tt)
    round_calls-CanSpool can n (s ∷ ss) = (can n, round_calls-CanSpool can (suc n) ss)

    accepted-round_calls :
        c.dry_run ≡ false
        → (n : ℕ) (snapshots : List Fields)
        → accepted c (round_calls json c w n snapshots) ≡ snapshots
    unfolding round_calls accepted
    accepted-round_calls live n [] = refl
    accepted-round_calls live n (s ∷ ss) =
        rw live (ap (◌∷◌ s) (accepted-round_calls live (suc n) ss))

module _ (json : Json) (canon : Fields → Fields) (laws : JsonLaws json canon)
    (p : Fields → Bool) where
  -- A round hands all that it sampled to the transport, whatever posts fail, if the spool can be
  -- written and it is no dry run: as many events of each kind have reached the backend or are still
  -- held after it as were held before it or are in the sample.
  pub round-conserves :
      (c : ObserverConfig) (w : ℕ → World) (snapshots : List Fields) (t : ObserverTransport)
      → c.dry_run ≡ false
      → ((n : ℕ) → (w n).can_spool ≡ true)
      → let (reached, after) = round json c w (ok snapshots) t in
        tally (seen json canon laws p) (reached ++ held json after)
        ≡ tally (seen json canon laws p) (held json t ++ snapshots)
  unfolding round
  round-conserves c w snapshots t live can =
      let calls = round_calls json c w 0 snapshots in
      let all = round_calls-CanSpool json c w can 0 snapshots in
      rw (perform-run json c calls t all) (
        run-conserves json canon laws p c calls t all
        ∙ ap (λ taken. tally (seen json canon laws p) (held json t ++ taken))
            (accepted-round_calls json c w live 0 snapshots))
