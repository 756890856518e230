-- ===== src/Identity/Entries.antt =====
-- identity.py: the dictionary of the five texts that a capsule seals.
use celery_diagnostics_obser.Prelude.{
  String, ◌≡◌, Option, none, some, [], ◌∷◌, All, str_eq, if◌then◌else◌, arith,
}
use celery_diagnostics_obser.Values.{Value, str, Fields, end}
use celery_diagnostics_obser.Values.Dict.{get?}
use celery_diagnostics_obser.Text.{take_text}
use celery_diagnostics_obser.Identity.{add_field}

-- the entry of a text
abbrev pub entry : String → Option Value → Option Value
entry text rest = if str_eq text "" then rest else some (str (take_text 255 text))

get?-add_field :
    (k name text : String) (rest : Fields)
    → get? k (add_field name text rest)
      ≡ (if str_eq name k then entry text (get? k rest) else get? k rest)
unfolding get? add_field
get?-add_field k name text rest = ground (arith)

unfoldable pub five : String → String → String → String → String → Fields
five a b c d e = add_field "task_id" a (
    add_field "task_name" b
      (add_field "queue" c (add_field "routing_key" d (add_field "worker" e end))))

-- The values of the five fields.
module _ (a b c d e : String) where
  pub get-five :
      All
        (λ (k, t). get? k (five a b c d e) ≡ entry t none)
        (("task_id", a) ∷ ("task_name", b) ∷ ("queue", c) ∷ ("routing_key", d) ∷ ("worker", e) ∷ [])
  unfolding five get?
  get-five = (
    simp (get?-add_field),
    (
      simp (get?-add_field),
      (simp (get?-add_field), (simp (get?-add_field), (simp (get?-add_field), tt))),
    ),
  )
