-- ===== src/Replay/Shift.antt =====
-- replay.py: what shifting a row changes.
use celery_diagnostics_obser.Prelude.{
  ℕ, String, false, Option, none, some, str_eq, ◌≡◌, refl, ap, sym, ◌∙◌, eq_refl,
}
use celery_diagnostics_obser.Result.{
  Result, ok, Returns, Returns->>=, Returns-ok, Returns_at, Returns-weaken,
}
use celery_diagnostics_obser.Values.{Value, float, Fields}
use celery_diagnostics_obser.Values.Dict.{get, get?, get?-set, or_null}
use celery_diagnostics_obser.Runtime.{Runtime}
use celery_diagnostics_obser.Replay.{Arithmetic, number, set_shifted, shift_key, shifted_event}

-- a value moved by the shift, if it is a number
abbrev pub moved : Arithmetic → ℕ → Value → Option ℕ → Value
moved fl shift v none = v
moved fl shift v (some b) = float (fl.add b shift)

module _ (fl : Arithmetic) (rt : Runtime) (shift : ℕ) where
  -- `key` is moved by the shift if it is a number.
  abbrev pub IsMoved : String → Fields → Fields → Type 0
  IsMoved key row out =
      (b : Option ℕ) → number rt (get key row) ≡ ok b → get key out ≡ moved fl shift (get key row) b

  get-set_shifted :
      (key j : String) (b : Option ℕ) (row : Fields)
      → str_eq key j ≡ false
      → get? j (set_shifted fl shift key b row) ≡ get? j row
  get-set_shifted key j none row h = refl
  get-set_shifted key j (some b) row h =
      rw (get?-set key j (float (fl.add b shift)) row) (rw h refl)

  moved-set_shifted :
      (key : String) (b : Option ℕ) (row : Fields)
      → get key (set_shifted fl shift key b row) ≡ moved fl shift (get key row) b
  moved-set_shifted key none row = refl
  moved-set_shifted key (some b) row =
      rw (get?-set key key (float (fl.add b shift)) row) (rw (eq_refl key) refl)

  abbrev Shifts : String → Fields → Fields → Type 0
  Shifts key row out =
      ((j : String) → str_eq key j ≡ false → get? j out ≡ get? j row) × IsMoved key row out

  shift_key-Shifts :
      (key : String) (row : Fields) → Returns (Shifts key row) (shift_key fl rt shift key row)
  unfolding shift_key
  shift_key-Shifts key row = Returns->>= _ _ _ (λ b e. Returns-ok _ _ (
    λ j h. get-set_shifted key j b row h,
    λ b' e'.
        moved-set_shifted key b row
        ∙ ap (moved fl shift (get key row)) (ok_number b b' (sym e ∙ e')),
  ))
    where
      ok_number : (x y : Option ℕ) → ◌≡◌ {A = Result (Option ℕ)} (ok x) (ok y) → x ≡ y
      ok_number x y e = cc

  abbrev Moves : Fields → Fields → Type 0
  Moves row out =
      IsMoved "timestamp" row out
      × IsMoved "local_received" row out
      × ((j : String)
          → str_eq "timestamp" j ≡ false
          → str_eq "local_received" j ≡ false
          → get? j out ≡ get? j row)

  -- A shifted row has both its times moved by the same shift, where they are numbers, and every
  -- other entry as it was.
  pub shifts_times_only :
      (row out : Fields)
      → shifted_event fl rt shift row ≡ ok out
      → IsMoved "timestamp" row out
        × IsMoved "local_received" row out
        × ((j : String)
            → str_eq "timestamp" j ≡ false
            → str_eq "local_received" j ≡ false
            → get? j out ≡ get? j row)
  unfolding shifted_event
  shifts_times_only row out h =
      Returns_at (Moves row) _ out
        (Returns->>= (Moves row) _ _ (λ row' e.
          let first =
            Returns_at (Shifts "timestamp" row) _ row' (shift_key-Shifts "timestamp" row) e in
          Returns-weaken (Shifts "local_received" row') (Moves row) _
            (λ out' second. (
              λ b read. ap or_null (second.0 "timestamp" refl) ∙ first.1 b read,
              λ b read.
                  let same : get "local_received" row' ≡ get "local_received" row =
                    ap or_null (first.0 "local_received" refl) in
                  second.1 b (ap (number rt) same ∙ read) ∙ ap (λ v. moved fl shift v b) same,
              λ j t r. second.0 j r ∙ first.0 j t,
            ))
            (shift_key-Shifts "local_received" row')))
        h
