-- ===== src/Result.antt =====
-- Python exceptions as values: the classes that the observer raises, catches or lets through.
use celery_diagnostics_obser.Prelude.{◌≡◌, refl, String, Option, none, some, subst, ap, fun_ext}

-- `capsule_error` is `IdentityCapsuleError` of identity.py with its message. It is a `ValueError`.
-- `other_error` is any other class, by its name.
pub data Error : Type 0 where
  value_error type_error overflow_error key_error os_error : Error
  capsule_error other_error : String → Error

-- A call that raised, or returned a value.
pub data Result {ℓ} (T : Type ℓ) : Type ℓ where
  err : Error → Result T
  ok : T → Result T

infixl 5 ◌>>=◌
unfoldable pub ◌>>=◌ {ι κ} : {T : Type ι} {S : Type κ} → Result T → (T → Result S) → Result S
err raised >>= rest = err raised
ok value >>= rest = rest value

-- A lookup that raises `e` where it finds nothing.
abbrev pub or_raise {ℓ} : {T : Type ℓ} → Option T → Error → Result T
or_raise (some value) e = ok value
or_raise none e = err e

-- What holds of the error and of each result of the rest holds of the bind.
pub >>=_cases {ι κ ℓ} :
    {T : Type ι} {S : Type κ} (P : Result S → Type ℓ) (m : Result T) (rest : T → Result S)
    → ((e : Error) → m ≡ err e → P (err e))
    → ((value : T) → m ≡ ok value → P (rest value))
    → P (m >>= rest)
unfolding ◌>>=◌
>>=_cases P (err e) rest fails goes = fails e refl
>>=_cases P (ok value) rest fails goes = goes value refl

-- `Q` holds of what the call returns, if it returns.
unfoldable pub Returns {κ ℓ} : {T : Type κ} (Q : T → Type ℓ) → Result T → Type ℓ
Returns Q (err e) = Unit
Returns Q (ok value) = Q value

pub Returns->>= {ι κ ℓ} :
    {T : Type ι} {S : Type κ} (Q : S → Type ℓ) (m : Result T) (rest : T → Result S)
    → ((value : T) → m ≡ ok value → Returns Q (rest value))
    → Returns Q (m >>= rest)
unfolding ◌>>=◌ Returns
Returns->>= Q (err e) rest h = tt
Returns->>= Q (ok value) rest h = h value refl

pub Returns_at {κ ℓ} :
    {T : Type κ} (Q : T → Type ℓ) (r : Result T) (value : T) → Returns Q r → r ≡ ok value → Q value
unfolding Returns
Returns_at Q r value h equal = subst (Returns Q) equal h

pub Returns-ok {κ ℓ} : {T : Type κ} (Q : T → Type ℓ) (value : T) → Q value → Returns Q (ok value)
unfolding Returns
Returns-ok Q value h = h

pub Returns-err {κ ℓ} : {T : Type κ} (Q : T → Type ℓ) (e : Error) → Returns Q (err e)
unfolding Returns
Returns-err Q e = tt

pub Returns-weaken {κ ι ℓ} :
    {T : Type κ} (P : T → Type ι) (Q : T → Type ℓ) (r : Result T)
    → ((value : T) → P value → Q value)
    → Returns P r
    → Returns Q r
unfolding Returns
Returns-weaken P Q (err e) step h = tt
Returns-weaken P Q (ok value) step h = step value h

pub >>=_ext {ι κ} :
    {T : Type ι} {S : Type κ} (m : Result T) (rest rest' : T → Result S)
    → ((value : T) → rest value ≡ rest' value)
    → m >>= rest ≡ m >>= rest'
>>=_ext m rest rest' h = ap (◌>>=◌ m) (fun_ext h)

pub >>=_same {ι κ} :
    {T : Type ι} {S : Type κ} (m m' : Result T) (rest : T → Result S)
    → m ≡ m'
    → m >>= rest ≡ m' >>= rest
>>=_same m m' rest h = ap (λ r. r >>= rest) h

-- type(error).__name__
abbrev pub class_name : Error → String
class_name value_error = "ValueError"
class_name type_error = "TypeError"
class_name overflow_error = "OverflowError"
class_name key_error = "KeyError"
class_name os_error = "OSError"
class_name (capsule_error message) = "IdentityCapsuleError"
class_name (other_error name) = name
