-- ===== src/Runtime/Laws.antt =====
-- The text of a value that is a text already.
use celery_diagnostics_obser.Prelude.{
  String, true, ◌≡◌, refl, ap, Bool-cases, inl, inr, str_eq, eq_iff,
}
use celery_diagnostics_obser.Values.{Value, str, ◌or◌, truth}
use celery_diagnostics_obser.Text.{strip}
use celery_diagnostics_obser.Text.Laws.{strip-strip}
use celery_diagnostics_obser.Runtime.{Runtime, to_text, text_or_empty, stripped}

or_true : (a b : Value) → truth a ≡ true → (a or b) ≡ a
or_true a b h = rw (◌or◌, h) refl

text_or : (s : String) → (str s or str "") ≡ str s
text_or s = elim (Bool-cases (str_eq s "")) [
  | inl empty ↦ rw ((eq_iff s "").0 empty) refl
  | inr present ↦ or_true (str s) (str "") (rw present refl)
]

module _ (rt : Runtime) where
  -- A text is its own text, stripped or as a token.
  pub text_or_empty-str : (s : String) → text_or_empty rt (str s) ≡ s
  unfolding text_or_empty to_text
  text_or_empty-str s = ap (to_text rt) (text_or s)

  pub stripped-str : (s : String) → strip s ≡ s → stripped rt (str s) ≡ s
  unfolding stripped
  stripped-str s strips = rw (text_or_empty-str s) strips

  pub stripped-stripped : (v : Value) → stripped rt (str (stripped rt v)) ≡ stripped rt v
  unfolding stripped
  stripped-stripped v = stripped-str (stripped rt v) (strip-strip (text_or_empty rt v))
