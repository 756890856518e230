-- ===== src/Config/Numbers.antt =====
-- config.py: the whole numbers of the settings.
use celery_diagnostics_obser.Prelude.{
  ℕ, ℤ, pos, negsuc, min, max, Option, none, some, ◌≤◌, ◌≡◌, arith,
}
use celery_diagnostics_obser.Result.{Result, ok, ◌>>=◌, Returns->>=, Returns-ok, Returns_at}
use celery_diagnostics_obser.Values.{Value}
use celery_diagnostics_obser.Runtime.{Runtime}
use celery_diagnostics_obser.Sanitizer.Coerce.{parsed_int}

-- min(max(parsed, minimum), maximum), for bounds that are not negative
abbrev pub clamp : ℕ → ℕ → ℤ → ℕ
clamp minimum maximum (pos n) = min (max n minimum) maximum
clamp minimum maximum (negsuc n) = min minimum maximum

abbrev pub clamp_or : ℕ → ℕ → ℕ → Option ℤ → ℕ
clamp_or default minimum maximum none = min (max default minimum) maximum
clamp_or default minimum maximum (some n) = clamp minimum maximum n

-- _bounded_int
unfoldable pub bounded_int : Runtime → Value → ℕ → ℕ → ℕ → Result ℕ
bounded_int rt value default minimum maximum = do
  parsed ← parsed_int rt value
  ok (clamp_or default minimum maximum parsed)

clamp_or_within :
    (default minimum maximum : ℕ) (parsed : Option ℤ)
    → minimum ≤ maximum
    → (minimum ≤ clamp_or default minimum maximum parsed)
      × (clamp_or default minimum maximum parsed ≤ maximum)
clamp_or_within default minimum maximum none h = (omega arith, omega arith)
clamp_or_within default minimum maximum (some (pos n)) h = (omega arith, omega arith)
clamp_or_within default minimum maximum (some (negsuc n)) h = (omega arith, omega arith)

-- Whatever a setting holds, the number that is read from it lies between its bounds.
pub bounded_int_within :
    (rt : Runtime) (value : Value) (default minimum maximum n : ℕ)
    → minimum ≤ maximum
    → bounded_int rt value default minimum maximum ≡ ok n
    → (minimum ≤ n) × (n ≤ maximum)
unfolding bounded_int
bounded_int_within rt value default minimum maximum n h read =
    Returns_at (λ m. (minimum ≤ m) × (m ≤ maximum)) _ n
      (Returns->>= _ _ _
        (λ parsed e. Returns-ok _ _ (clamp_or_within default minimum maximum parsed h)))
      read
