-- ===== src/Tests/ServiceRuns.antt =====
-- Runs of a service that is started, stopped, and started too early and too late, and a round.
use celery_diagnostics_obser.Prelude.{
  ℕ, zero, suc, ◌+◌, ◌*◌, ◌≤◌, none, some, Bool, true, false, str_eq, List, [], ◌∷◌, ◌++◌, tally,
  ◌≡◌, refl,
}
use celery_diagnostics_obser.Services.{
  tests_first, ServiceState, in_body, ended, is_alive, new_service, ServiceAction, starts, stops,
  moves, history, start, stop, move, advance, act,
}
use celery_diagnostics_obser.Services.Single.{one_alive}
use celery_diagnostics_obser.Services.Stops.{Stopped, phase_of, stop-Stopped}
use celery_diagnostics_obser.Result.{ok}
use celery_diagnostics_obser.Values.{str, Fields}
use celery_diagnostics_obser.Values.Dict.{get}
use celery_diagnostics_obser.Transport.{ObserverTransport, World, delivered, failed, init}
use celery_diagnostics_obser.Transport.Held.{held}
use celery_diagnostics_obser.Transport.Delivery.{seen}
use celery_diagnostics_obser.Services.Rounds.{round}
use celery_diagnostics_obser.Services.Rounds.Delivery.{round-conserves}
use celery_diagnostics_obser.Tests.Samples.{
  sample_config, sample_json, sample_canon, sample_laws, event,
}

-- The second start comes while the thread lives, and the third after it has ended.
abbrev restarts : List ServiceAction
restarts =
    starts
    ∷ moves 0
    ∷ starts
    ∷ stops
    ∷ moves 0
    ∷ moves 0
    ∷ moves 0
    ∷ starts
    ∷ moves 0
    ∷ moves 1
    ∷ []

restarted :
    history tests_first true restarts new_service
    ≡ record { stop_event = false; threads = in_body ∷ ended ∷ [] }
unfolding history act start stop move advance
restarted = refl

one_alive_example : tally is_alive (history tests_first true restarts new_service).threads ≤ 1
one_alive_example = one_alive tests_first true restarts

-- A service whose thread is in its body.
abbrev at_work : ServiceState
at_work = record { stop_event = false; threads = in_body ∷ [] }

abbrev three_moves : List ServiceAction
three_moves = moves 0 ∷ moves 0 ∷ moves 0 ∷ []

stop-Stopped_example :
    Stopped in_body (phase_of 0 (history tests_first true (stops ∷ three_moves) at_work).threads) 3
stop-Stopped_example = stop-Stopped tests_first true at_work three_moves refl 0

-- The backend fails while the first snapshots are enqueued, and takes the flush.
abbrev recovering : ℕ → World
recovering n = record {
  now = 40_000_000 + 3_000_000 * n;
  reply = elim n [ zero ↦ failed "Timeout" | suc k ↦ delivered ];
  can_spool = true;
}

abbrev empty_transport : ObserverTransport
empty_transport = record (init none) { spool = some (record { lines = none }) }

abbrev three_snapshots : List Fields
three_snapshots = event "a" ∷ event "b" ∷ event "c" ∷ []

is_snapshot_a : Fields → Bool
is_snapshot_a e = elim (get "uuid" e) [ str s ↦ str_eq s "a" | _ ↦ false ]

abbrev after_round : List Fields × ObserverTransport
after_round = round sample_json sample_config recovering (ok three_snapshots) empty_transport

round-conserves_example :
    tally
      (seen sample_json sample_canon sample_laws is_snapshot_a)
      (after_round.0 ++ held sample_json after_round.1)
    ≡ tally
        (seen sample_json sample_canon sample_laws is_snapshot_a)
        (held sample_json empty_transport ++ three_snapshots)
round-conserves_example =
    round-conserves sample_json sample_canon sample_laws is_snapshot_a sample_config recovering
      three_snapshots empty_transport refl (λ n. refl)
