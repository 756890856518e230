-- ===== src/Cli/Observe/Order.antt =====
-- cli.py: the order in which `observe` starts and stops its loops.
use celery_diagnostics_obser.Prelude.{
  ℕ, ◌+◌, one_if, ◌==◌, String, Bool, true, false, List, [], ◌∷◌, ◌≡◌, refl,
}
use celery_diagnostics_obser.Result.{Result, ok, err}
use celery_diagnostics_obser.Cli.{Machine}
use celery_diagnostics_obser.Transport.Returns.{raised}
use celery_diagnostics_obser.Cli.Observe.{
  Service, health, sampler, inspect, probes, exit_of, Action, started, stopped, received, flushed,
  ObserveWorld, serve,
}

abbrev number_of : Service → ℕ
number_of health = 0
number_of sampler = 1
number_of inspect = 2
number_of probes = 3

-- how often a loop is started, and how often it is stopped
abbrev pub starts_of : Service → List Action → ℕ
starts_of s [] = 0
starts_of s (started s' ∷ actions) = one_if (number_of s == number_of s') + starts_of s actions
starts_of s (a ∷ actions) = starts_of s actions

abbrev pub stops_of : Service → List Action → ℕ
stops_of s [] = 0
stops_of s (stopped s' ∷ actions) = one_if (number_of s == number_of s') + stops_of s actions
stops_of s (a ∷ actions) = stops_of s actions

-- what is done until the receiver runs, and what after it
abbrev pub until_received : List Action → List Action
until_received [] = []
until_received (received ∷ actions) = []
until_received (a ∷ actions) = a ∷ until_received actions

abbrev pub since_received : List Action → List Action
since_received [] = []
since_received (received ∷ actions) = actions
since_received (a ∷ actions) = since_received actions

abbrev pub ends_with_flush : List Action → Bool
ends_with_flush [] = false
ends_with_flush (flushed ∷ []) = true
ends_with_flush (a ∷ actions) = ends_with_flush actions

-- Each loop is started once, before the receiver runs, and stopped once, after it has ended; the
-- transport is flushed at last.
pub record InOrder (actions : List Action) : Type 0 where
  pub once : (s : Service) → (starts_of s actions ≡ 1) × (stops_of s actions ≡ 1)
  pub starts_early : (s : Service) → starts_of s (since_received actions) ≡ 0
  pub stops_late : (s : Service) → stops_of s (until_received actions) ≡ 0
  pub flush_last : ends_with_flush actions ≡ true

module _ (m : Machine) (w : ObserveWorld) (summary : String) where
  served_once :
      (s : Service)
      → (starts_of s ((serve m w summary).1) ≡ 1) × (stops_of s ((serve m w summary).1) ≡ 1)
  unfolding serve
  served_once health = (refl, refl)
  served_once sampler = (refl, refl)
  served_once inspect = (refl, refl)
  served_once probes = (refl, refl)

  pub serve-InOrder : InOrder ((serve m w summary).1)
  unfolding serve
  serve-InOrder = record {
    once = served_once;
    starts_early = λ s. refl;
    stops_late = λ s. refl;
    flush_last = refl;
  }

pub exit_of_ok :
    (receiver_end last_flush : Result Bool)
    → exit_of receiver_end last_flush ≡ ok 0
    → (raised receiver_end ≡ false) × (raised last_flush ≡ false)
exit_of_ok receiver_end (err e) h = absurd (cc)
exit_of_ok (err e) (ok b) h = absurd (cc)
exit_of_ok (ok b') (ok b) h = (refl, refl)
