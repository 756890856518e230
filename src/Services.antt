-- ===== src/Services.antt =====
-- The threads that repeat a step: ObserverHealthLoop of health.py, RedisSamplerLoop and
-- CeleryInspectSamplerLoop of the samplers, ActiveProbeLoop of active_probes.py and
-- _TransportFlushLoop of beat.py. They have the same start, the same stop, and nearly the same loop.
pub mod Rounds
pub mod Single
pub mod Stops
use celery_diagnostics_obser.Prelude.{
  ℕ, zero, suc, ◌+◌, Bool, true, false, ◌&&◌, not, List, [], ◌∷◌, String, str_eq, one_if,
  if◌then◌else◌,
}

-- `while not is_set(): body; wait(interval)`, or `while not wait(interval): body`.
pub data LoopKind : Type 0 where
  tests_first waits_first : LoopKind

-- Where a thread stands: at the condition of its loop, in the body, in the wait after the body, or
-- at its end.
pub data Phase : Type 0 where
  at_condition in_body waiting ended : Phase

-- The stop event, and all threads that were ever started, the last one (`self.thread`) first.
pub record ServiceState : Type 0 where
  pub stop_event : Bool
  pub threads : List Phase

abbrev pub is_alive : Phase → Bool
is_alive at_condition = true
is_alive in_body = true
is_alive waiting = true
is_alive ended = false

abbrev pub new_service : ServiceState
new_service = record { stop_event = false; threads = [] }

-- self.thread is not None and self.thread.is_alive()
abbrev pub last_alive : List Phase → Bool
last_alive [] = false
last_alive (phase ∷ phases) = is_alive phase

-- start; `allowed` is what else it asks for, such as a Redis broker for the sampler of queues
unfoldable pub start : Bool → ServiceState → ServiceState
start allowed s =
    if not allowed
    then s
    else if last_alive s.threads
    then s
    else record { stop_event = false; threads = at_condition ∷ s.threads }

-- stop; the join waits for at most two seconds, and changes nothing
unfoldable pub stop : ServiceState → ServiceState
stop s = record { stop_event = true; threads = s.threads }

-- One move of a thread. What the body raises is caught, so that the loop goes on after it.
unfoldable pub advance : LoopKind → Bool → Phase → Phase
advance kind is_set at_condition = if is_set then ended else in_body
advance tests_first is_set in_body = waiting
advance waits_first is_set in_body = at_condition
advance kind is_set waiting = at_condition
advance kind is_set ended = ended

-- The move of the thread number `n`, from the last one on.
unfoldable pub move : LoopKind → Bool → ℕ → List Phase → List Phase
unfolding advance
move kind is_set n [] = []
move kind is_set zero (phase ∷ phases) = advance kind is_set phase ∷ phases
move kind is_set (suc n) (phase ∷ phases) = phase ∷ move kind is_set n phases

pub data ServiceAction : Type 0 where
  starts stops : ServiceAction
  moves : ℕ → ServiceAction

unfoldable pub act : LoopKind → Bool → ServiceAction → ServiceState → ServiceState
unfolding start stop move
act kind allowed starts s = start allowed s
act kind allowed stops s = stop s
act kind allowed (moves n) s = record {
  stop_event = s.stop_event;
  threads = move kind s.stop_event n s.threads;
}

-- A history of calls and moves, in any order.
unfoldable pub history : LoopKind → Bool → List ServiceAction → ServiceState → ServiceState
unfolding act
history kind allowed [] s = s
history kind allowed (action ∷ actions) s = history kind allowed actions (act kind allowed action s)
