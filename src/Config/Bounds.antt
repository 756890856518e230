-- ===== src/Config/Bounds.antt =====
-- config.py: the numbers of the settings that are floats, as bit patterns. Their order is a
-- parameter.
use celery_diagnostics_obser.Prelude.{
  ℕ, Bool, false, Option, none, some, ◌≡◌, refl, sym, ap, ◌∙◌, if◌then◌else◌, if_cases,
}
use celery_diagnostics_obser.Result.{Result, ok, ◌>>=◌, Returns->>=, Returns-ok, Returns_at}
use celery_diagnostics_obser.Values.{Value}
use celery_diagnostics_obser.Runtime.{Runtime}
use celery_diagnostics_obser.Sanitizer.Coerce.{parsed_float}

-- min(max(parsed, minimum), maximum)
unfoldable pub clamp_float : (ℕ → ℕ → Bool) → ℕ → ℕ → ℕ → ℕ
clamp_float less minimum maximum parsed =
    let raised = if less parsed minimum then minimum else parsed in
    if less maximum raised then maximum else raised

abbrev pub or_default : ℕ → Option ℕ → ℕ
or_default default none = default
or_default default (some b) = b

-- _bounded_float
unfoldable pub bounded_float : Runtime → (ℕ → ℕ → Bool) → Value → ℕ → ℕ → ℕ → Result ℕ
bounded_float rt less value default minimum maximum = do
  parsed ← parsed_float rt value
  ok (clamp_float less minimum maximum (or_default default parsed))

module _ (less : ℕ → ℕ → Bool) (minimum maximum : ℕ) where
  abbrev pub InBounds : ℕ → Type 0
  InBounds b = (less b minimum ≡ false) × (less maximum b ≡ false)

  clamp_float_within :
      (parsed : ℕ)
      → less minimum minimum ≡ false
      → less maximum maximum ≡ false
      → less maximum minimum ≡ false
      → InBounds (clamp_float less minimum maximum parsed)
  unfolding clamp_float
  clamp_float_within parsed low high order =
      if_cases (λ raised. InBounds (if less maximum raised then maximum else raised))
        (less parsed minimum)
        (λ below.
          if_cases InBounds (less maximum minimum) (λ wrong. (order, high)) (λ right. (low, right)))
        (λ above.
          if_cases InBounds (less maximum parsed) (λ over. (order, high)) (λ fits. (above, fits)))

  kept :
      (b : ℕ)
      → less b minimum ≡ false
      → less maximum b ≡ false
      → clamp_float less minimum maximum b ≡ b
  unfolding clamp_float
  kept b below above = rw (below, above) refl

  ok_float : (b c : ℕ) → ◌≡◌ {A = Result ℕ} (ok b) (ok c) → b ≡ c
  ok_float b c e = cc

  module _ (rt : Runtime) (value : Value) (default : ℕ) where
    -- A float that is read from a setting is neither below its minimum nor above its maximum, for
    -- any order of floats in which the bounds are no less than themselves and in order. A value that
    -- compares as neither below the minimum nor above the maximum is taken as it is; a NaN, which no
    -- comparison holds of, is such a value.
    pub bounded_float_within :
        (b : ℕ)
        → less minimum minimum ≡ false
        → less maximum maximum ≡ false
        → less maximum minimum ≡ false
        → bounded_float rt less value default minimum maximum ≡ ok b
        → InBounds b
          × ((nan : ℕ)
              → parsed_float rt value ≡ ok (some nan)
              → less nan minimum ≡ false
              → less maximum nan ≡ false
              → b ≡ nan)
    unfolding bounded_float ◌>>=◌
    bounded_float_within b low high order read = (
      Returns_at InBounds _ b
          (Returns->>= _ _ _ (λ parsed e.
            Returns-ok _ _ (clamp_float_within (or_default default parsed) low high order)))
          read,
      λ nan is_nan below above.
          ok_float b _ (
            sym read
            ∙ ap
                (λ r.
                  r >>= λ parsed. ok (clamp_float less minimum maximum (or_default default parsed)))
                is_nan)
          ∙ kept nan below above,
    )
