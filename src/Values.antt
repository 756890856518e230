-- ===== src/Values.antt =====
-- Python objects, as far as the observer looks into them: the JSON values of events and replies,
-- tuples, bytes and datetimes.
pub mod Dict
use celery_diagnostics_obser.Prelude.{
  ℕ, ℤ, is_nonzero, String, Bool, true, false, Option, List, [], ◌∷◌, str_eq, not, ◌==◌, ◌||◌, ◌^◌,
}

-- A datetime: microseconds since 1970 of its own clock face, and the offset from UTC in
-- microseconds; a naive datetime (`tzinfo` is `None`) has no offset.
pub record Moment : Type 0 where
  pub micros : ℤ
  pub offset : Option ℤ

-- A float is its IEEE 754 bit pattern. A dict keeps its order of insertion.
mutual
  pub data Value : Type 0 where
    null : Value
    bool : Bool → Value
    int : ℤ → Value
    float : ℕ → Value
    str : String → Value
    bytes : List ℕ → Value
    list tuple : Items → Value
    dict : Fields → Value
    datetime : Moment → Value

  pub data Items : Type 0 where
    nil : Items
    cons : Value → Items → Items

  pub data Fields : Type 0 where
    end : Fields
    field : String → Value → Fields → Fields

abbrev pub is_empty : Items → Bool
is_empty nil = true
is_empty (cons v vs) = false

abbrev pub is_empty_bytes : List ℕ → Bool
is_empty_bytes [] = true
is_empty_bytes (b ∷ bs) = false

abbrev pub is_empty_dict : Fields → Bool
is_empty_dict end = true
is_empty_dict (field k v m) = false

-- bool(value); a float is false if it is 0.0 or -0.0
abbrev pub truth : Value → Bool
truth null = false
truth (bool b) = b
truth (int n) = is_nonzero n
truth (float b) = not (b == 0 || b == 2 ^ 63)
truth (str s) = not (str_eq s "")
truth (bytes b) = not (is_empty_bytes b)
truth (list vs) = not (is_empty vs)
truth (tuple vs) = not (is_empty vs)
truth (dict m) = not (is_empty_dict m)
truth (datetime t) = true

-- a or b
infixr 30 ◌or◌
abbrev pub ◌or◌ : Value → Value → Value
a or b = elim (truth a) [ true ↦ a | false ↦ b ]

-- x if isinstance(x, dict) else {}
abbrev pub as_dict : Value → Fields
as_dict (dict m) = m
as_dict _ = end
