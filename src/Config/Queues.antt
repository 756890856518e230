-- ===== src/Config/Queues.antt =====
-- config.py: the queues of the settings, from a text or a list.
use Prim.Native.Char.{Char, code}
use mathlib.Core.List.{append-nil, append_assoc}
use celery_diagnostics_obser.Prelude.{
  ℕ, pos, String, Bool, true, false, ◌||◌, ◌==◌, List, [], ◌∷◌, ◌++◌, str_eq, if◌then◌else◌, ◌≡◌,
  refl, sym, ap, ◌∙◌, subst, inl, inr, arith, Bool-cases,
}
use celery_diagnostics_obser.Result.{Result, ok, err, type_error, Returns, Returns_at}
use celery_diagnostics_obser.Values.{
  Value, null, bool, int, float, str, bytes, list, tuple, dict, datetime, Items, nil, cons, Fields,
  end, field,
}
use celery_diagnostics_obser.Text.{strip}
use celery_diagnostics_obser.Text.Laws.{strip-strip}
use celery_diagnostics_obser.Runtime.{Runtime, stripped, lowered, text_or_empty}
use celery_diagnostics_obser.Runtime.Laws.{stripped-str}

-- q in queues
unfoldable pub is_listed : String → List String → Bool
is_listed q [] = false
is_listed q (p ∷ ps) = str_eq p q || is_listed q ps

-- a character of the first part
abbrev pub in_first : Char → Items → Items
in_first c (cons (str p) ps) = cons (str (String.◌∷◌ c p)) ps
in_first c ps = ps

-- value.split(",")
unfoldable pub split_comma : String → Items
split_comma String.[] = cons (str "") nil
split_comma (String.◌∷◌ c s) =
    let rest = split_comma s in if code c == b',' then cons (str "") rest else in_first c rest

abbrev pub add_queue : String → List String → List String
add_queue q queues = if str_eq q "" || is_listed q queues then queues else queues ++ (q ∷ [])

-- the loop over the items
unfoldable pub collect : Runtime → List String → Items → List String
collect rt queues nil = queues
collect rt queues (cons item items) = collect rt (add_queue (stripped rt item) queues) items

unfoldable pub keys_as_items : Fields → Items
keys_as_items end = nil
keys_as_items (field k v m) = cons (str k) (keys_as_items m)

unfoldable pub bytes_as_items : List ℕ → Items
bytes_as_items [] = nil
bytes_as_items (b ∷ bs) = cons (int (pos b)) (bytes_as_items bs)

-- _parse_queues
unfoldable pub parse_queues : Runtime → Value → Result (List String)
unfolding keys_as_items bytes_as_items
parse_queues rt null = ok []
parse_queues rt (str s) = ok (if str_eq s "" then [] else collect rt [] (split_comma s))
parse_queues rt (list items) = ok (collect rt [] items)
parse_queues rt (tuple items) = ok (collect rt [] items)
parse_queues rt (dict m) = ok (collect rt [] (keys_as_items m))
parse_queues rt (bytes b) = ok (collect rt [] (bytes_as_items b))
parse_queues rt _ = err type_error

-- _boolean
unfoldable pub boolean : Runtime → Value → Bool → Bool
boolean rt (bool b) default = b
boolean rt v default =
    let normalized = lowered rt (stripped rt v) in
    if str_eq normalized "1"
      || (str_eq normalized "true" || (str_eq normalized "yes" || str_eq normalized "on"))
    then true
    else if str_eq normalized "0"
        || (str_eq normalized "false" || (str_eq normalized "no" || str_eq normalized "off"))
    then false
    else default

-- a tuple of texts
unfoldable pub texts : List String → Items
texts [] = nil
texts (q ∷ qs) = cons (str q) (texts qs)

-- Each text is stripped, not empty, and not among those before it.
abbrev pub IsQueueList : List String → List String → Type 0
IsQueueList before [] = Unit
IsQueueList before (q ∷ qs) =
    (strip q ≡ q)
    × ((str_eq q "" ≡ false) × ((is_listed q before ≡ false) × IsQueueList (before ++ (q ∷ [])) qs))

IsQueueList-append :
    (before qs rs : List String)
    → IsQueueList before qs
    → IsQueueList (before ++ qs) rs
    → IsQueueList before (qs ++ rs)
IsQueueList-append before [] rs h k = subst (λ xs. IsQueueList xs rs) (append-nil before) k
IsQueueList-append before (q ∷ qs) rs (h1, (h2, (h3, h4))) k = (
  h1,
  (
    h2,
    (
      h3,
      IsQueueList-append (before ++ (q ∷ [])) qs rs h4
          (subst (λ xs. IsQueueList xs rs) (sym (append_assoc before (q ∷ []) qs)) k),
    ),
  ),
)

or_left : (a b : Bool) → (a || b) ≡ false → a ≡ false
or_left true b h = h
or_left false b h = refl

or_right : (a b : Bool) → (a || b) ≡ false → b ≡ false
or_right a true h = ground arith
or_right a false h = refl

module _ (rt : Runtime) where
  add_queue-IsQueueList :
      (item : Value) (queues : List String)
      → IsQueueList [] queues
      → IsQueueList [] (add_queue (stripped rt item) queues)
  unfolding stripped
  add_queue-IsQueueList item queues h =
      elim (Bool-cases (str_eq (stripped rt item) "" || is_listed (stripped rt item) queues)) [
        | inl known ↦ rw known h
        | inr other ↦ rw other (
            IsQueueList-append [] queues _ h
              (strip-strip (text_or_empty rt item), (or_left _ _ other, (or_right _ _ other, tt))))
      ]

  collect-IsQueueList :
      (queues : List String) (items : Items)
      → IsQueueList [] queues
      → IsQueueList [] (collect rt queues items)
  unfolding collect
  collect-IsQueueList queues nil h = h
  collect-IsQueueList queues (cons item items) h =
      collect-IsQueueList (add_queue (stripped rt item) queues) items
        (add_queue-IsQueueList item queues h)

  new_queue :
      (q : String) (queues : List String)
      → strip q ≡ q
      → str_eq q "" ≡ false
      → is_listed q queues ≡ false
      → add_queue (stripped rt (str q)) queues ≡ queues ++ (q ∷ [])
  new_queue q queues strips present new = rw (stripped-str rt q strips, present, new) refl

  collect-texts :
      (queues qs : List String)
      → IsQueueList queues qs
      → collect rt queues (texts qs) ≡ queues ++ qs
  unfolding collect texts
  collect-texts queues [] h = sym (append-nil queues)
  collect-texts queues (q ∷ qs) (h1, (h2, (h3, h4))) =
      ap (λ found. collect rt found (texts qs)) (new_queue q queues h1 h2 h3)
      ∙ (collect-texts (queues ++ (q ∷ [])) qs h4 ∙ append_assoc queues (q ∷ []) qs)

  parse_queues-Returns : (value : Value) → Returns (IsQueueList []) (parse_queues rt value)
  unfolding parse_queues Returns
  parse_queues-Returns null = tt
  parse_queues-Returns (str s) = elim (Bool-cases (str_eq s "")) [
    | inl empty ↦ rw empty tt
    | inr given ↦ rw given (collect-IsQueueList [] (split_comma s) tt)
  ]
  parse_queues-Returns (list items) = collect-IsQueueList [] items tt
  parse_queues-Returns (tuple items) = collect-IsQueueList [] items tt
  parse_queues-Returns (dict m) = collect-IsQueueList [] (keys_as_items m) tt
  parse_queues-Returns (bytes b) = collect-IsQueueList [] (bytes_as_items b) tt
  parse_queues-Returns (bool b) = tt
  parse_queues-Returns (int n) = tt
  parse_queues-Returns (float b) = tt
  parse_queues-Returns (datetime m) = tt

  -- The queues that are read from a setting are stripped, not empty and without duplicates, and
  -- reading them once more, as the settings do, changes nothing.
  pub parse_queues-parse_queues :
      (value : Value) (queues : List String)
      → parse_queues rt value ≡ ok queues
      → IsQueueList [] queues × (parse_queues rt (list (texts queues)) ≡ ok queues)
  unfolding parse_queues
  parse_queues-parse_queues value queues h =
      let clean = Returns_at (IsQueueList []) _ queues (parse_queues-Returns value) h in
      (clean, ap ok (collect-texts [] queues clean))
