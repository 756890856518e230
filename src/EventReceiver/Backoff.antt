-- ===== src/EventReceiver/Backoff.antt =====
-- event_receiver.py: how long the receiver waits before it connects again.
use celery_diagnostics_obser.Prelude.{
  ℕ, zero, suc, ◌*◌, ◌^◌, min, List, [], ◌∷◌, ◌++◌, ◌≡◌, refl, ap, ◌∙◌, arith,
}
use celery_diagnostics_obser.EventReceiver.{
  Round, refused, lost, wait_of, next_backoff, backoff_after, waits,
}

-- `n` refused connections in a row
unfoldable pub refusals : ℕ → List Round
refusals zero = []
refusals (suc n) = refused ∷ refusals n

-- min(2 ** m, 60), min(2 ** (m + 1), 60), and so on, `n` of them
abbrev pub powers : ℕ → ℕ → List ℕ
powers m zero = []
powers m (suc n) = min (2 ^ m) 60 ∷ powers (suc m) n

waits-append :
    (b : ℕ) (xs ys : List Round) → waits b (xs ++ ys) ≡ waits b xs ++ waits (backoff_after b xs) ys
unfolding waits backoff_after
waits-append b [] ys = refl
waits-append b (x ∷ xs) ys = ap (λ ws. wait_of b x ∷ ws) (waits-append (next_backoff b x) xs ys)

doubled : (m : ℕ) → min (min (2 ^ m) 60 * 2) 60 ≡ min (2 ^ suc m) 60
doubled m = omega arith

waits-refusals : (m n : ℕ) → waits (min (2 ^ m) 60) (refusals n) ≡ powers m n
unfolding waits refusals next_backoff wait_of
waits-refusals m zero = refl
waits-refusals m (suc n) =
    ap (λ ws. min (2 ^ m) 60 ∷ ws)
      (ap (λ b. waits b (refusals n)) (doubled m) ∙ waits-refusals (suc m) n)

-- After a connection was lost and then refused `n` times, the last n + 1 waits are 1, 2, 4 and so
-- on, doubled each time and never above 60 seconds, whatever happened before the connection, and
-- the waits before are as they were: a connection resets the backoff.
pub waits_after_connection :
    (backoff n : ℕ) (before : List Round)
    → waits backoff (before ++ (lost ∷ refusals n)) ≡ waits backoff before ++ powers 0 (suc n)
unfolding waits next_backoff wait_of
waits_after_connection backoff n before =
    waits-append backoff before (lost ∷ refusals n)
    ∙ ap (λ ws. waits backoff before ++ 1 ∷ ws) (waits-refusals 1 n)
