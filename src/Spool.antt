-- ===== src/Spool.antt =====
-- spool.py: a JSONL file of events. The file is its list of lines, or absent.
pub mod Contents
use celery_diagnostics_obser.Prelude.{
  ℕ, zero, suc, String, Option, none, some, List, [], ◌∷◌, ◌++◌, map, take, drop,
}
use celery_diagnostics_obser.Values.{Value, dict, Fields}

-- The `json` module as the spool uses it: `dumps(event, sort_keys=True, default=str)`, and `loads`,
-- which is `none` where it raises `JSONDecodeError`.
pub record Json : Type 0 where
  pub dumps : Fields → String
  pub loads : String → Option Value

pub record JsonlSpool : Type 0 where
  pub lines : Option (List String)

abbrev pub lines_or_nil : Option (List String) → List String
lines_or_nil none = []
lines_or_nil (some ls) = ls

abbrev pub cons_dict : Option Value → List Fields → List Fields
cons_dict (some (dict e)) es = e ∷ es
cons_dict _ es = es

-- lines that are no JSON object are skipped
unfoldable pub decode_lines : Json → List String → List Fields
decode_lines json [] = []
decode_lines json (l ∷ ls) = cons_dict (json.loads l) (decode_lines json ls)

-- the remaining lines are written back; without any the file is removed
abbrev pub rewrite : List String → Option (List String)
rewrite [] = none
rewrite (l ∷ ls) = some (l ∷ ls)

unfoldable pub append_many : Json → JsonlSpool → List Fields → JsonlSpool
append_many json s [] = s
append_many json s (e ∷ es) = record {
  lines = some (lines_or_nil s.lines ++ map json.dumps (e ∷ es));
}

unfoldable pub pop_lines : Json → ℕ → Option (List String) → List Fields × JsonlSpool
pop_lines json zero ls = ([], record { lines = ls })
pop_lines json (suc n) none = ([], record { lines = none })
pop_lines json (suc n) (some ls) =
    (decode_lines json (take (suc n) ls), record { lines = rewrite (drop (suc n) ls) })

unfoldable pub pop_many : Json → JsonlSpool → ℕ → List Fields × JsonlSpool
unfolding pop_lines
pop_many json s limit = pop_lines json limit s.lines
