-- ===== src/Spool/Contents.antt =====
-- What the spool holds, and what its two operations do to that.
use mathlib.Core.List.{append-nil, map-append}
use celery_diagnostics_obser.Prelude.{
  ℕ, zero, suc, ◌≤◌, String, ◌≡◌, refl, sym, ap, ◌∙◌, Option, none, some, List, [], ◌∷◌, ◌++◌, map,
  arith, take, drop, length, length-take, take-append-drop,
}
use celery_diagnostics_obser.Values.{Value, dict, Fields}
use celery_diagnostics_obser.Values.Dict.{get?}
use celery_diagnostics_obser.Spool.{
  Json, JsonlSpool, lines_or_nil, cons_dict, decode_lines, rewrite, append_many, pop_lines,
  pop_many,
}

-- What the spool relies on: an event that is written comes back with its keys in sorted order and
-- its values as JSON has them, `canon`. No key is made up.
pub record JsonLaws (json : Json) (canon : Fields → Fields) : Type 0 where
  pub loads-dumps : (e : Fields) → json.loads (json.dumps e) ≡ some (dict (canon e))
  pub canon-canon : (e : Fields) → canon (canon e) ≡ canon e
  pub canon_absent : (k : String) (e : Fields) → get? k e ≡ none → get? k (canon e) ≡ none

-- The events in the file, oldest first.
unfoldable pub stored : Json → JsonlSpool → List Fields
stored json s = decode_lines json (lines_or_nil s.lines)

cons_dict-append :
    (v : Option Value) (xs ys : List Fields) → cons_dict v xs ++ ys ≡ cons_dict v (xs ++ ys)
cons_dict-append none xs ys = refl
cons_dict-append (some v) xs ys = ground arith

decode_lines-append :
    (json : Json) (xs ys : List String)
    → decode_lines json (xs ++ ys) ≡ decode_lines json xs ++ decode_lines json ys
unfolding decode_lines
decode_lines-append json [] ys = refl
decode_lines-append json (x ∷ xs) ys =
    rw (decode_lines-append json xs ys) (sym (cons_dict-append (json.loads x) _ _))

length-cons_dict : (v : Option Value) (xs : List Fields) → length (cons_dict v xs) ≤ suc (length xs)
length-cons_dict none xs = omega arith
length-cons_dict (some v) xs = ground arith

length-decode_lines : (json : Json) (ls : List String) → length (decode_lines json ls) ≤ length ls
unfolding decode_lines
length-decode_lines json [] = omega arith
length-decode_lines json (l ∷ ls) =
    omega
      (arith, length-cons_dict (json.loads l) (decode_lines json ls), length-decode_lines json ls)

rewrite_lines : (ls : List String) → lines_or_nil (rewrite ls) ≡ ls
rewrite_lines [] = refl
rewrite_lines (l ∷ ls) = refl

-- A pop takes the oldest events and leaves the others, in order.
pub stored-pop_many :
    (json : Json) (s : JsonlSpool) (limit : ℕ)
    → (pop_many json s limit).0 ++ stored json (pop_many json s limit).1 ≡ stored json s
unfolding pop_many stored
stored-pop_many json s limit = by_lines limit s.lines
  where
    by_lines :
        (n : ℕ) (ls : Option (List String))
        → (pop_lines json n ls).0 ++ decode_lines json (lines_or_nil (pop_lines json n ls).1.lines)
          ≡ decode_lines json (lines_or_nil ls)
    by_lines zero ls = refl
    by_lines (suc n) none = refl
    by_lines (suc n) (some ls) = rw (rewrite_lines (drop (suc n) ls)) (
        sym (decode_lines-append json (take (suc n) ls) (drop (suc n) ls))
        ∙ ap (decode_lines json) (take-append-drop (suc n) ls))

-- It takes no more than it is asked for.
pub length-pop_many :
    (json : Json) (s : JsonlSpool) (limit : ℕ) → length (pop_many json s limit).0 ≤ limit
unfolding pop_many
length-pop_many json s limit = by_lines limit s.lines
  where
    by_lines : (n : ℕ) (ls : Option (List String)) → length (pop_lines json n ls).0 ≤ n
    by_lines zero ls = omega arith
    by_lines (suc n) none = omega arith
    by_lines (suc n) (some ls) =
        omega (arith, length-decode_lines json (take (suc n) ls), length-take (suc n) ls)

module _ (json : Json) (canon : Fields → Fields) (laws : JsonLaws json canon) where
  decode_lines-dumps : (es : List Fields) → decode_lines json (map json.dumps es) ≡ map canon es
  unfolding decode_lines
  decode_lines-dumps [] = refl
  decode_lines-dumps (e ∷ es) = rw (laws.loads-dumps e, decode_lines-dumps es)

  -- An append adds its events at the end, as JSON has them.
  pub stored-append_many :
      (s : JsonlSpool) (es : List Fields)
      → stored json (append_many json s es) ≡ stored json s ++ map canon es
  unfolding append_many stored
  stored-append_many s [] = sym (append-nil _)
  stored-append_many s (e ∷ es) =
      decode_lines-append json (lines_or_nil s.lines) (map json.dumps (e ∷ es))
      ∙ ap (◌++◌ (decode_lines json (lines_or_nil s.lines))) (decode_lines-dumps (e ∷ es))

  -- A spool of one's own comes back in the order in which it was written, batch by batch.
  pub append_many-pop_many :
      (es fs : List Fields) (limit : ℕ)
      → let s = append_many json (append_many json (record { lines = none }) es) fs in
        (pop_many json s limit).0 ++ stored json (pop_many json s limit).1 ≡ map canon (es ++ fs)
  unfolding stored decode_lines
  append_many-pop_many es fs limit =
      stored-pop_many json _ limit
      ∙ stored-append_many _ fs
      ∙ ap (λ xs. xs ++ map canon fs) (stored-append_many (record { lines = none }) es ∙ refl)
      ∙ sym (map-append canon es fs)
