-- ===== src/Beat/Errors.antt =====
-- beat.py: whether an exception, or one that it stems from, is a failure of the broker.
pub mod Exact
use celery_diagnostics_obser.Prelude.{
  ℕ, zero, suc, ◌==◌, String, Bool, true, false, ◌&&◌, ◌||◌, Option, none, some, List, [], ◌∷◌,
  str_eq, if◌then◌else◌,
}
use celery_diagnostics_obser.Text.{starts_with}
use celery_diagnostics_obser.Runtime.{Runtime, lowered}

-- An exception object: whether it is one of kombu's OperationalError, ConnectionError and OSError,
-- its class, and the exceptions that it was raised from or while handling, by their ids.
pub record ExceptionObject : Type 0 where
  pub is_connection : Bool
  pub module_name : String
  pub type_name : String
  pub cause : Option ℕ
  pub context : Option ℕ

-- current.__cause__ or current.__context__
abbrev pub or_context : Option ℕ → Option ℕ → Option ℕ
or_context (some id) context = some id
or_context none context = context

unfoldable pub next_error : ExceptionObject → Option ℕ
next_error e = or_context e.cause e.context

unfoldable pub is_visited : ℕ → List ℕ → Bool
is_visited id [] = false
is_visited id (x ∷ xs) = x == id || is_visited id xs

-- the tests on one exception
unfoldable pub is_broker_class : Runtime → ExceptionObject → Bool
is_broker_class rt e =
    let module_name = lowered rt e.module_name in
    let name = lowered rt e.type_name in
    e.is_connection
    || ((str_eq name "connectionerror" || str_eq name "timeouterror")
        && (starts_with "redis" module_name || starts_with "kombu" module_name))

-- the loop; `none` if the fuel does not suffice
unfoldable pub broker_loop : Runtime → (ℕ → ExceptionObject) → ℕ → List ℕ → Option ℕ → Option Bool
broker_loop rt heap fuel visited none = some false
broker_loop rt heap zero visited (some id) = none
broker_loop rt heap (suc fuel) visited (some id) =
    let rest = broker_loop rt heap fuel (id ∷ visited) (next_error (heap id)) in
    if is_visited id visited
    then some false
    else if is_broker_class rt (heap id)
    then some true
    else rest

-- _is_broker_error, of an exception among `n` that the interpreter holds
unfoldable pub is_broker_error : Runtime → (ℕ → ExceptionObject) → ℕ → ℕ → Option Bool
is_broker_error rt heap n id = broker_loop rt heap (suc n) [] (some id)
