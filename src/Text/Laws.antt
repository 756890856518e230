-- ===== src/Text/Laws.antt =====
-- Laws of the text functions.
use Prim.Native.Char.{Char, code}
use Prim.Native.String.{[], ◌∷◌}
use text.Mathlib.TextLemmas.{nil-append, cons-append}
use celery_diagnostics_obser.Prelude.{
  concat, ℕ, zero, suc, ◌≤◌, ◌≡◌, refl, ap, ◌∙◌, String, Bool, true, false, Bool-cases, inl, inr,
  ◌==◌, arith, ◌||◌,
}
use celery_diagnostics_obser.Text.{
  is_space, lstrip, before_end, rstrip, strip, take_text, length_text, without_nul, has_dot,
  partition_dot, cons_before,
}

before_end-before_end :
    (c : Char) (s : String) → rstrip s ≡ s → rstrip (before_end c s) ≡ before_end c s
unfolding rstrip
before_end-before_end c [] h = elim (Bool-cases (is_space c)) [
  | inl space ↦ rw space
  | inr solid ↦ rw solid (rw solid)
]
before_end-before_end c (d ∷ s) h = ap (before_end c) h

pub rstrip-rstrip : (s : String) → rstrip (rstrip s) ≡ rstrip s
unfolding rstrip
rstrip-rstrip [] = refl
rstrip-rstrip (c ∷ s) = before_end-before_end c (rstrip s) (rstrip-rstrip s)

-- What starts with no space still does so after `rstrip`.
lstrip-before_end :
    (c : Char) (s : String) → is_space c ≡ false → lstrip (before_end c s) ≡ before_end c s
unfolding lstrip before_end
lstrip-before_end c [] h = rw h (rw h)
lstrip-before_end c (d ∷ s) h = rw h

lstrip-rstrip-lstrip : (s : String) → lstrip (rstrip (lstrip s)) ≡ rstrip (lstrip s)
unfolding lstrip rstrip
lstrip-rstrip-lstrip [] = refl
lstrip-rstrip-lstrip (c ∷ s) = elim (Bool-cases (is_space c)) [
  | inl space ↦ rw space (lstrip-rstrip-lstrip s)
  | inr solid ↦ rw solid (lstrip-before_end c (rstrip s) solid)
]

-- A stripped text has nothing left to strip.
pub strip-strip : (s : String) → strip (strip s) ≡ strip s
unfolding strip
strip-strip s = ap rstrip (lstrip-rstrip-lstrip s) ∙ rstrip-rstrip (lstrip s)

-- A text of no more than `n` code points is not cut.
pub take_text_all : (n : ℕ) (s : String) → length_text s ≤ n → take_text n s ≡ s
unfolding take_text length_text
take_text_all zero [] h = refl
take_text_all zero (c ∷ s) h = elim h [ ]
take_text_all (suc n) [] h = refl
take_text_all (suc n) (c ∷ s) h = ap (◌∷◌ c) (take_text_all n s (omega arith))

pub length-take_text : (n : ℕ) (s : String) → length_text (take_text n s) ≤ n
unfolding take_text length_text
length-take_text zero s = omega arith
length-take_text (suc n) [] = omega arith
length-take_text (suc n) (c ∷ s) = omega (arith, length-take_text n s)

-- "\x00" in s
unfoldable pub has_nul : String → Bool
has_nul [] = false
has_nul (c ∷ s) = code c == 0 || has_nul s

-- A text with no NUL has none to remove.
pub without_nul_none : (s : String) → has_nul s ≡ false → without_nul s ≡ s
unfolding without_nul has_nul
without_nul_none [] h = refl
without_nul_none (c ∷ s) h = elim (Bool-cases (code c == 0)) [
  | inl nul ↦ let wrong = rw nul at h in cc
  | inr other ↦ rw other (ap (◌∷◌ c) (without_nul_none s (rw other at h)))
]

-- The first dot of a text that starts with a dotless one.
pub partition_dot-concat :
    (s r : String) → has_dot s ≡ false → partition_dot (concat s (concat "." r)) ≡ (s, true, r)
unfolding partition_dot has_dot
partition_dot-concat [] r h =
    rw (nil-append (concat "." r), cons-append "." [] r, nil-append r) refl
partition_dot-concat (c ∷ s) r h = elim (Bool-cases (code c == b'.')) [
  | inl dot ↦ let wrong = rw dot at h in cc
  | inr other ↦
      rw (cons-append c s (concat "." r), other)
        (ap (cons_before c) (partition_dot-concat s r (rw other at h)))
]
