-- ===== src/Values/Dict.antt =====
-- Python's `dict` with string keys, in insertion order.
use celery_diagnostics_obser.Prelude.{
  String, ◌≡◌, refl, Bool, true, false, Option, none, some, str_eq, eq_iff, arith, if◌then◌else◌,
  List, [], ◌∷◌, All, Bool-cases, inl, inr, eq_refl,
}
use celery_diagnostics_obser.Values.{Value, null, Fields, end, field}

-- the entry of key `k`, if there is one
unfoldable pub get? : String → Fields → Option Value
get? k end = none
get? k (field j v m) = if str_eq j k then some v else get? k m

abbrev pub or_null : Option Value → Value
or_null none = null
or_null (some v) = v

-- d.get(k)
abbrev pub get : String → Fields → Value
get k m = or_null (get? k m)

-- k in d
abbrev pub is_some {ℓ} : {A : Type ℓ} → Option A → Bool
is_some none = false
is_some (some a) = true

-- d[k] = v: an entry keeps its place, a new one goes to the end
unfoldable pub set : String → Value → Fields → Fields
set k v end = field k v end
set k v (field j w m) = if str_eq j k then field j v m else field j w (set k v m)

-- d.pop(k, None)
unfoldable pub pop : String → Fields → Fields
pop k end = end
pop k (field j v m) = let rest = pop k m in if str_eq j k then rest else field j v rest

pub get?-set :
    (k j : String) (v : Value) (m : Fields)
    → get? j (set k v m) ≡ (if str_eq k j then some v else get? j m)
unfolding get? set
get?-set k j v end = refl
get?-set k j v (field i w m) = ground (arith, eq_iff k j, eq_iff i k, eq_iff i j, get?-set k j v m)

pub get?-pop :
    (k j : String) (m : Fields) → get? j (pop k m) ≡ (if str_eq k j then none else get? j m)
unfolding get? pop
get?-pop k j end = ground arith
get?-pop k j (field i w m) = ground (arith, eq_iff k j, eq_iff i k, eq_iff i j, get?-pop k j m)

pub ruleset dict_laws = (get?-set, get?-pop)

-- Popping an absent key changes nothing.
pub pop_absent : (k : String) (m : Fields) → get? k m ≡ none → pop k m ≡ m
unfolding get? pop
pop_absent k end h = refl
pop_absent k (field i w m) h = ground (arith, eq_iff i k, pop_absent k m)

pub pop-pop : (k : String) (m : Fields) → pop k (pop k m) ≡ pop k m
unfolding pop
pop-pop k end = refl
pop-pop k (field i w m) = ground (arith, pop-pop k m)

-- for k in ks: d.pop(k, None)
unfoldable pub pop_all : List String → Fields → Fields
pop_all [] payload = payload
pop_all (f ∷ fs) payload = pop_all fs (pop f payload)

-- An entry that is not among those popped stays, the others are gone.
pub get?-pop_all :
    (j : String) (ks : List String) (m : Fields)
    → All (λ k. str_eq k j ≡ false) ks
    → get? j (pop_all ks m) ≡ get? j m
unfolding pop_all
get?-pop_all j [] m h = refl
get?-pop_all j (k ∷ ks) m h =
    rw (get?-pop_all j ks (pop k m) (h.1)) (rw (get?-pop k j m) (rw (h.0)))

absent-pop : (j k : String) (m : Fields) → get? j m ≡ none → get? j (pop k m) ≡ none
absent-pop j k m h = elim (Bool-cases (str_eq k j)) [
  | inl same ↦ rw (get?-pop k j m) (rw same)
  | inr differs ↦ rw (get?-pop k j m) (rw differs h)
]

pub pop_all_absent :
    (j : String) (ks : List String) (m : Fields) → get? j m ≡ none → get? j (pop_all ks m) ≡ none
unfolding pop_all
pop_all_absent j [] m h = h
pop_all_absent j (k ∷ ks) m h = pop_all_absent j ks (pop k m) (absent-pop j k m h)

gone-pop : (k : String) (m : Fields) → get? k (pop k m) ≡ none
gone-pop k m = rw (get?-pop k k m) (rw (eq_refl k))

pub pop_all-All : (ks : List String) (m : Fields) → All (λ k. get? k (pop_all ks m) ≡ none) ks
unfolding pop_all
pop_all-All [] m = tt
pop_all-All (k ∷ ks) m = (pop_all_absent k ks (pop k m) (gone-pop k m), pop_all-All ks (pop k m))
