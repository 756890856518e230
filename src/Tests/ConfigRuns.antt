-- ===== src/Tests/ConfigRuns.antt =====
-- Settings that are read.
use celery_diagnostics_obser.Prelude.{
  ℕ, Bool, false, some, ltb, ◌==◌, if◌then◌else◌, String, ◌≡◌, refl, pos, List, [], ◌∷◌,
}
use celery_diagnostics_obser.Result.{ok, ◌>>=◌}
use celery_diagnostics_obser.Values.{int, float, str, end}
use celery_diagnostics_obser.Text.{strip, lstrip, rstrip, before_end, is_space}
use celery_diagnostics_obser.Runtime.{stripped, text_or_empty, to_text}
use celery_diagnostics_obser.Sanitizer.Coerce.{parsed_int, parsed_float}
use celery_diagnostics_obser.Config.Queues.{parse_queues, split_comma, collect, is_listed}
use celery_diagnostics_obser.Config.Numbers.{bounded_int}
use celery_diagnostics_obser.Config.Bounds.{
  bounded_float, clamp_float, InBounds, bounded_float_within,
}
use celery_diagnostics_obser.Tests.Samples.{runtime}

abbrev two_queues : List String
two_queues = "celery" ∷ "mail" ∷ []

queues_read : parse_queues (runtime end) (str "celery, mail,,celery ") ≡ ok two_queues
unfolding parse_queues split_comma collect is_listed stripped text_or_empty to_text strip lstrip
    rstrip before_end is_space
queues_read = refl

size_read : bounded_int (runtime end) (int (pos 5000)) 50 1 1000 ≡ ok 1000
unfolding bounded_int parsed_int ◌>>=◌
size_read = refl

abbrev one_nan : ℕ → ℕ → Bool
one_nan a b = if a == 99 then false else if b == 99 then false else ltb a b

float_read :
    (bounded_float (runtime end) one_nan (float 99) 10 5 60 ≡ ok 99)
    × (bounded_float (runtime end) one_nan (float 3) 10 5 60 ≡ ok 5)
unfolding bounded_float parsed_float clamp_float ◌>>=◌
float_read = (refl, refl)

bounded_float_within_example :
    InBounds one_nan 5 60 99
    × ((nan : ℕ)
        → parsed_float (runtime end) (float 99) ≡ ok (some nan)
        → one_nan nan 5 ≡ false
        → one_nan 60 nan ≡ false
        → 99 ≡ nan)
bounded_float_within_example =
    bounded_float_within one_nan 5 60 (runtime end) (float 99) 10 99 refl refl refl (float_read.0)
