-- ===== src/Services/Single.antt =====
-- The threads that repeat a step: a service never has two of them at work.
use celery_diagnostics_obser.Prelude.{
  ℕ, zero, suc, ◌+◌, ◌≤◌, Bool, true, false, not, List, [], ◌∷◌, one_if, tally, tally-nil,
  tally-cons, All, ◌≡◌, refl, if_cases, arith,
}
use celery_diagnostics_obser.Services.{
  LoopKind, tests_first, waits_first, Phase, at_condition, in_body, waiting, ended, ServiceState,
  is_alive, new_service, last_alive, start, stop, advance, move, ServiceAction, starts, stops,
  moves, act, history,
}

-- All threads but the last one are at their ends.
unfoldable OnlyLast : List Phase → Type 0
OnlyLast [] = Unit
OnlyLast (phase ∷ phases) = All (λ p. p ≡ ended) phases

All-ended : (phases : List Phase) → All (λ p. p ≡ ended) phases → tally is_alive phases ≡ 0
All-ended [] h = tally-nil is_alive
All-ended (p ∷ ps) (e, es) = rw (tally-cons is_alive p ps, e, All-ended ps es) refl

one_if_le : (b : Bool) → one_if b + 0 ≤ 1
one_if_le true = omega arith
one_if_le false = omega arith

OnlyLast-tally : (phases : List Phase) → OnlyLast phases → tally is_alive phases ≤ 1
unfolding OnlyLast
OnlyLast-tally [] h = rw (tally-nil is_alive) (omega arith)
OnlyLast-tally (p ∷ ps) h = rw (tally-cons is_alive p ps, All-ended ps h) (one_if_le (is_alive p))

-- A start adds a thread only where the last one has ended.
added-OnlyLast :
    (phase : Phase) (phases : List Phase)
    → last_alive phases ≡ false
    → OnlyLast phases
    → OnlyLast (phase ∷ phases)
unfolding OnlyLast
added-OnlyLast phase [] dead h = tt
added-OnlyLast phase (ended ∷ ps) dead h = (refl, h)
added-OnlyLast phase (at_condition ∷ ps) dead h = absurd (ground arith)
added-OnlyLast phase (in_body ∷ ps) dead h = absurd (ground arith)
added-OnlyLast phase (waiting ∷ ps) dead h = absurd (ground arith)

advance_ended : (kind : LoopKind) (is_set : Bool) → advance kind is_set ended ≡ ended
unfolding advance
advance_ended tests_first is_set = refl
advance_ended waits_first is_set = refl

module _ (kind : LoopKind) (is_set : Bool) where
  move-All_ended :
      (n : ℕ) (phases : List Phase)
      → All (λ p. p ≡ ended) phases
      → All (λ p. p ≡ ended) (move kind is_set n phases)
  unfolding move
  move-All_ended zero [] h = tt
  move-All_ended (suc n) [] h = tt
  move-All_ended zero (p ∷ ps) (e, es) = (rw e (advance_ended kind is_set), es)
  move-All_ended (suc n) (p ∷ ps) (e, es) = (e, move-All_ended n ps es)

  move-OnlyLast :
      (n : ℕ) (phases : List Phase) → OnlyLast phases → OnlyLast (move kind is_set n phases)
  unfolding OnlyLast move
  move-OnlyLast zero [] h = tt
  move-OnlyLast (suc n) [] h = tt
  move-OnlyLast zero (p ∷ ps) h = h
  move-OnlyLast (suc n) (p ∷ ps) h = move-All_ended n ps h

module _ (kind : LoopKind) (allowed : Bool) where
  start-OnlyLast : (s : ServiceState) → OnlyLast s.threads → OnlyLast (start allowed s).threads
  unfolding start
  start-OnlyLast s h =
      if_cases (λ r. OnlyLast (ServiceState.threads r)) (not allowed) (λ forbidden. h)
        (λ permitted.
          if_cases (λ r. OnlyLast (ServiceState.threads r)) (last_alive s.threads) (λ alive. h)
            (λ dead. added-OnlyLast at_condition s.threads dead h))

  act-OnlyLast :
      (action : ServiceAction) (s : ServiceState)
      → OnlyLast s.threads
      → OnlyLast (act kind allowed action s).threads
  unfolding act stop
  act-OnlyLast starts s h = start-OnlyLast s h
  act-OnlyLast stops s h = h
  act-OnlyLast (moves n) s h = move-OnlyLast kind s.stop_event n s.threads h

  history-OnlyLast :
      (actions : List ServiceAction) (s : ServiceState)
      → OnlyLast s.threads
      → OnlyLast (history kind allowed actions s).threads
  unfolding history
  history-OnlyLast [] s h = h
  history-OnlyLast (action ∷ actions) s h =
      history-OnlyLast actions (act kind allowed action s) (act-OnlyLast action s h)

  -- Whatever the order in which a service is started and stopped and its threads move, at most one
  -- of all the threads that it ever started has not ended, also where a stop did not wait for the
  -- end of its thread: two rounds of a service never overlap.
  pub one_alive :
      (actions : List ServiceAction)
      → tally is_alive (history kind allowed actions new_service).threads ≤ 1
  unfolding OnlyLast
  one_alive actions = OnlyLast-tally _ (history-OnlyLast actions new_service tt)
