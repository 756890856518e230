-- ===== src/AppLoader/Paths.antt =====
-- app_loader.py: the two spellings of an import path.
use Prim.Native.Char.{Char}
use Prim.Native.String.{[], ◌∷◌}
use text.Mathlib.TextLemmas.{nil-append, cons-append}
use celery_diagnostics_obser.Prelude.{concat, String, true, false, ◌≡◌, refl, ap, ◌∙◌, sym, arith}
use celery_diagnostics_obser.Text.{has_char, has_dot, before_colon, before_last_dot, last_part}
use celery_diagnostics_obser.AppLoader.{Loader, after_colon, app_path, load_at, load_project_app}

-- a text, a separator and a text, character by character
joined : String → Char → String → String
joined [] x a = x ∷ a
joined (c ∷ m) x a = c ∷ joined m x a

concat-joined : (m : String) (x : Char) (a : String) → concat m (x ∷ a) ≡ joined m x a
unfolding joined
concat-joined [] x a = nil-append (x ∷ a)
concat-joined (c ∷ m) x a = cons-append c m (x ∷ a) ∙ ap (◌∷◌ c) (concat-joined m x a)

module _ (a : String) where
  before_colon-joined : (m : String) → has_char b':' m ≡ false → before_colon (joined m ":" a) ≡ m
  unfolding before_colon has_char joined
  before_colon-joined [] h = refl
  before_colon-joined (c ∷ m) h = ground (arith, before_colon-joined m)

  after_colon-joined : (m : String) → has_char b':' m ≡ false → after_colon (joined m ":" a) ≡ a
  unfolding after_colon has_char joined
  after_colon-joined [] h = refl
  after_colon-joined (c ∷ m) h = ground (arith, after_colon-joined m)

  has_colon-joined : (m : String) → has_char b':' (joined m ":" a) ≡ true
  unfolding has_char joined
  has_colon-joined [] = refl
  has_colon-joined (c ∷ m) = ground (arith, has_colon-joined m)

  no_colon-joined :
      (m : String)
      → has_char b':' m ≡ false
      → has_char b':' a ≡ false
      → has_char b':' (joined m "." a) ≡ false
  unfolding has_char joined
  no_colon-joined [] h k = k
  no_colon-joined (c ∷ m) h k = ground (arith, no_colon-joined m)

  has_dot-joined : (m : String) → has_dot (joined m "." a) ≡ true
  unfolding has_dot joined
  has_dot-joined [] = refl
  has_dot-joined (c ∷ m) = ground (arith, has_dot-joined m)

  before_last_dot-joined : (m : String) → has_dot a ≡ false → before_last_dot (joined m "." a) ≡ m
  unfolding before_last_dot joined
  before_last_dot-joined [] h = rw h refl
  before_last_dot-joined (c ∷ m) h = rw (has_dot-joined m) (ap (◌∷◌ c) (before_last_dot-joined m h))

  last_part-joined : (m : String) → has_dot a ≡ false → last_part (joined m "." a) ≡ a
  unfolding last_part joined
  last_part-joined [] h = rw h refl
  last_part-joined (c ∷ m) h = rw (has_dot-joined m) (last_part-joined m h)

app_path-colon : (m a : String) → has_char b':' m ≡ false → app_path (joined m ":" a) ≡ (m, a)
unfolding app_path
app_path-colon m a h =
    rw (has_colon-joined a m, before_colon-joined a m h, after_colon-joined a m h) refl

app_path-dot :
    (m a : String)
    → has_char b':' m ≡ false
    → has_char b':' a ≡ false
    → has_dot a ≡ false
    → app_path (joined m "." a) ≡ (m, a)
unfolding app_path
app_path-dot m a h k d =
    rw
      (
        no_colon-joined a m h k,
        has_dot-joined a m,
        before_last_dot-joined a m d,
        last_part-joined a m d,
      )
      refl

-- `package.module:attribute` and `package.module.attribute` load the same app, or raise the same
-- exception, if the module's name has no colon, and the attribute's neither a colon nor a dot.
pub same_app :
    (l : Loader) (m a : String)
    → has_char b':' m ≡ false
    → has_char b':' a ≡ false
    → has_dot a ≡ false
    → load_project_app l (concat m (concat ":" a)) ≡ load_project_app l (concat m (concat "." a))
unfolding load_project_app
same_app l m a h k d = ap (load_at l) (
    ap app_path (colon ":")
    ∙ (app_path-colon m a h ∙ (sym (app_path-dot m a h k d) ∙ ap app_path (sym (colon ".")))))
  where
    colon : (x : Char) → concat m (concat (x ∷ []) a) ≡ joined m x a
    colon x = rw (cons-append x [] a, nil-append a) (concat-joined m x a)
