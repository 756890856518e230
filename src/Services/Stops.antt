-- ===== src/Services/Stops.antt =====
-- The threads that repeat a step: what follows a stop.
use celery_diagnostics_obser.Prelude.{
  ℕ, zero, suc, ◌+◌, ◌-◌, ◌≤◌, Bool, true, false, List, [], ◌∷◌, one_if, ◌≡◌, refl, subst, ap, sym,
  arith,
}
use celery_diagnostics_obser.Services.{
  LoopKind, tests_first, waits_first, Phase, at_condition, in_body, waiting, ended, ServiceState,
  last_alive, start, stop, advance, move, ServiceAction, starts, stops, moves, act, history,
}

-- the phase of the thread number `n`; what was never started has ended
abbrev pub phase_of : ℕ → List Phase → Phase
phase_of n [] = ended
phase_of zero (phase ∷ phases) = phase
phase_of (suc n) (phase ∷ phases) = phase_of n phases

abbrev pub same_thread : ℕ → ℕ → Bool
same_thread zero zero = true
same_thread zero (suc n) = false
same_thread (suc k) zero = false
same_thread (suc k) (suc n) = same_thread k n

-- how many moves of the thread number `n` there are
abbrev pub moves_of : ℕ → List ServiceAction → ℕ
moves_of n [] = 0
moves_of n (starts ∷ actions) = moves_of n actions
moves_of n (stops ∷ actions) = moves_of n actions
moves_of n (moves k ∷ actions) = one_if (same_thread k n) + moves_of n actions

abbrev pub no_start : List ServiceAction → Bool
no_start [] = true
no_start (starts ∷ actions) = false
no_start (stops ∷ actions) = no_start actions
no_start (moves k ∷ actions) = no_start actions

-- The number of moves to the end once the stop event is set.
abbrev rank : Phase → ℕ
rank ended = 0
rank at_condition = 1
rank waiting = 2
rank in_body = 3

advance-rank : (kind : LoopKind) (phase : Phase) → rank (advance kind true phase) ≤ rank phase - 1
unfolding advance
advance-rank tests_first at_condition = omega arith
advance-rank tests_first in_body = omega arith
advance-rank tests_first waiting = omega arith
advance-rank tests_first ended = omega arith
advance-rank waits_first at_condition = omega arith
advance-rank waits_first in_body = omega arith
advance-rank waits_first waiting = omega arith
advance-rank waits_first ended = omega arith

module _ (kind : LoopKind) where
  move-rank :
      (k n : ℕ) (phases : List Phase)
      → rank (phase_of n (move kind true k phases))
        ≤ rank (phase_of n phases) - one_if (same_thread k n)
  unfolding move
  move-rank zero n [] = omega arith
  move-rank (suc k) n [] = omega arith
  move-rank zero zero (p ∷ ps) = advance-rank kind p
  move-rank zero (suc n) (p ∷ ps) = omega arith
  move-rank (suc k) zero (p ∷ ps) = omega arith
  move-rank (suc k) (suc n) (p ∷ ps) = move-rank k n ps

module _ (kind : LoopKind) (allowed : Bool) where
  history-rank :
      (n : ℕ) (actions : List ServiceAction) (s : ServiceState)
      → s.stop_event ≡ true
      → no_start actions ≡ true
      → rank (phase_of n (history kind allowed actions s).threads)
        ≤ rank (phase_of n s.threads) - moves_of n actions
  unfolding history act stop
  history-rank n [] s is_set none = omega arith
  history-rank n (starts ∷ actions) s is_set none = absurd (ground arith)
  history-rank n (stops ∷ actions) s is_set none = history-rank n actions (stop s) refl none
  history-rank n (moves k ∷ actions) s is_set none =
      let later = history-rank n actions (act kind allowed (moves k) s) is_set none in
      let moved =
        subst
          (λ b.
            rank (phase_of n (move kind b k s.threads))
            ≤ rank (phase_of n s.threads) - one_if (same_thread k n))
          (sym is_set) (move-rank kind k n s.threads) in
      omega (arith, later, moved)

-- What a stop leads to for a thread, where its moves after the stop are counted.
pub record Stopped (before after : Phase) (moves_after : ℕ) : Type 0 where
  pub quiet : after ≡ in_body → (before ≡ in_body) × (moves_after ≡ 0)
  pub ends : 3 ≤ moves_after → after ≡ ended

is_at_end : (phase : Phase) → rank phase ≤ 0 → phase ≡ ended
is_at_end ended h = refl
is_at_end at_condition h = absurd (omega arith)
is_at_end waiting h = absurd (omega arith)
is_at_end in_body h = absurd (omega arith)

is_in_body : (phase : Phase) → 3 ≤ rank phase → phase ≡ in_body
is_in_body ended h = absurd (omega arith)
is_in_body at_condition h = absurd (omega arith)
is_in_body waiting h = absurd (omega arith)
is_in_body in_body h = refl

rank_le : (phase : Phase) → rank phase ≤ 3
rank_le ended = omega arith
rank_le at_condition = omega arith
rank_le waiting = omega arith
rank_le in_body = omega arith

rank-Stopped :
    (before after : Phase) (count : ℕ)
    → rank after ≤ rank before - count
    → Stopped before after count
rank-Stopped before after count h =
    let bound = rank_le before in
    record {
      quiet = λ busy.
          let full = ap rank busy in
          (is_in_body before (omega (arith, h, full, bound)), omega (arith, h, full, bound));
      ends = λ many. is_at_end after (omega (arith, h, many, bound));
    }

module _ (kind : LoopKind) (allowed : Bool) (s : ServiceState) (actions : List ServiceAction) where
  -- After a stop, and whatever is called and moves then, but for a start, a thread is in the body of
  -- its loop only if it was there at the stop and has not moved since, so that no round begins; and
  -- each thread has ended once it has moved three times.
  pub stop-Stopped :
      no_start actions ≡ true
      → (n : ℕ)
      → Stopped
          (phase_of n s.threads)
          (phase_of n (history kind allowed (stops ∷ actions) s).threads)
          (moves_of n actions)
  unfolding history act stop
  stop-Stopped none n = rank-Stopped _ _ _ (history-rank kind allowed n actions (stop s) refl none)

  -- A start that comes after a stop, but before the thread has ended, is lost: all goes on as if
  -- there had been none.
  pub start_lost :
      last_alive s.threads ≡ true
      → history kind allowed (stops ∷ starts ∷ actions) s ≡ history kind allowed (stops ∷ actions) s
  unfolding history act stop start
  start_lost alive = ap (history kind allowed actions) (still_stopped allowed)
    where
      still_stopped : (allowed : Bool) → start allowed (stop s) ≡ stop s
      still_stopped true = rw alive refl
      still_stopped false = refl
