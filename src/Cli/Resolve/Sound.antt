-- ===== src/Cli/Resolve/Sound.antt =====
-- cli.py and identity.py: what `resolve` prints.
use celery_diagnostics_obser.Prelude.{
  ℕ, String, true, false, Option, none, some, str_eq, eq_iff, eq_refl, concat, ◌≡◌, refl, ap, ◌∙◌,
  Bool-cases, inl, inr, arith,
}
use celery_diagnostics_obser.Result.{
  Result, ok, err, value_error, type_error, overflow_error, key_error, os_error, capsule_error,
  other_error, ◌>>=◌, Returns, Returns->>=, Returns-ok, Returns-err, Returns_at, or_raise,
}
use celery_diagnostics_obser.Values.{Value, str, dict, Fields, field}
use celery_diagnostics_obser.Values.Dict.{get, get?}
use celery_diagnostics_obser.Runtime.{text_or_empty}
use celery_diagnostics_obser.Identity.{
  identity_key_id, open_identity, task_run_ref, named_fields, identity_fields, seal_identity,
}
use celery_diagnostics_obser.Identity.Capsule.{CapsuleLaws, IsShort, open-seal}
use celery_diagnostics_obser.Config.{ObserverConfig}
use celery_diagnostics_obser.Config.Settings.{identity_resolve_url}
use celery_diagnostics_obser.Cli.{Machine}
use celery_diagnostics_obser.Cli.Resolve.{
  Http, is_run_ref, Resolved, resolve_failed, is_resolve_error, fetch_identity, resolved_if,
  checked_identity, check_fetched, resolve_keyed, resolve_with, as_mapping_or_raise,
}

module _ (m : Machine) (http : Http) (config : ObserverConfig) (run_ref : String) where
  -- A reference in the right form, and the identities of a capsule that the identity key opens, with
  -- a task id that has this reference.
  pub record IsResolution (resolved : Resolved) : Type 0 where
    pub well_formed : is_run_ref run_ref ≡ true
    pub has_key : str_eq config.project_key "" ≡ false
    pub identity : Fields
    pub fetched : fetch_identity m http config run_ref ≡ ok identity
    pub task_id : Value
    pub has_task : get? "task_id" identity ≡ some task_id
    pub refers : task_run_ref m.runtime task_id config.identity_key ≡ ok run_ref
    pub shown : resolved.result ≡ some (field "run_ref" (str run_ref) identity)

  IfResolved : Resolved → Type 0
  IfResolved resolved = resolved.code ≡ 0 → IsResolution resolved

  failed-IfResolved :
      (code : ℕ) (text : String) → (code ≡ 0 → ⊥) → Returns IfResolved (resolve_failed code text)
  unfolding IfResolved
  failed-IfResolved code text wrong = Returns-ok IfResolved _ (λ h. absurd (wrong h))

  module _ (well_formed : is_run_ref run_ref ≡ true)
      (has_key : str_eq config.project_key "" ≡ false) where
    resolved_if-IfResolved :
        (identity : Fields) (task_id : Value) (actual : String)
        → fetch_identity m http config run_ref ≡ ok identity
        → get? "task_id" identity ≡ some task_id
        → task_run_ref m.runtime task_id config.identity_key ≡ ok actual
        → Returns IfResolved (resolved_if run_ref identity actual)
    unfolding IfResolved
    resolved_if-IfResolved identity task_id actual fetched has_task refers =
        elim (Bool-cases (str_eq actual run_ref)) [
          | inl same ↦ rw same (resolution same)
          | inr other ↦ rw other (failed-IfResolved 1 _ (λ h. omega arith))
        ]
      where
        resolution :
            str_eq actual run_ref ≡ true
            → Returns IfResolved (
                ok (record {
                  code = 0;
                  result = some (field "run_ref" (str run_ref) identity);
                  message = "";
                }))
        resolution same = Returns-ok IfResolved _ (λ h. record {
          well_formed = well_formed;
          has_key = has_key;
          identity = identity;
          fetched = fetched;
          task_id = task_id;
          has_task = has_task;
          refers = refers ∙ ap ok ((eq_iff actual run_ref).0 same);
          shown = refl;
        })

    task_of :
        (o : Option Value) (task_id : Value) → or_raise o key_error ≡ ok task_id → o ≡ some task_id
    task_of none task_id h = cc
    task_of (some v) task_id h = cc

    checked-IfResolved :
        (identity : Fields)
        → fetch_identity m http config run_ref ≡ ok identity
        → Returns IfResolved (checked_identity m http config run_ref identity)
    unfolding checked_identity
    checked-IfResolved identity fetched = Returns->>= IfResolved _ _ (λ task_id e.
        Returns->>= IfResolved _ _ (λ actual e'.
          resolved_if-IfResolved identity task_id actual fetched
            (task_of (get? "task_id" identity) task_id e) e'))

    fetched-IfResolved :
        (got : Result Fields)
        → fetch_identity m http config run_ref ≡ got
        → Returns IfResolved (check_fetched m http config run_ref got)
    fetched-IfResolved (ok identity) h = checked-IfResolved identity h
    fetched-IfResolved (err e) h = elim (Bool-cases (is_resolve_error http e)) [
      | inl caught ↦ rw caught (failed-IfResolved 1 _ (λ h. omega arith))
      | inr other ↦ rw other (Returns-err IfResolved e)
    ]

    keyed-IfResolved :
        (key : Result String) → Returns IfResolved (resolve_keyed m http config run_ref key)
    keyed-IfResolved (ok key_id) = fetched-IfResolved _ refl
    keyed-IfResolved (err (capsule_error text)) = failed-IfResolved 2 _ (λ h. omega arith)
    keyed-IfResolved (err value_error) = Returns-err IfResolved _
    keyed-IfResolved (err type_error) = Returns-err IfResolved _
    keyed-IfResolved (err overflow_error) = Returns-err IfResolved _
    keyed-IfResolved (err key_error) = Returns-err IfResolved _
    keyed-IfResolved (err os_error) = Returns-err IfResolved _
    keyed-IfResolved (err (other_error name)) = Returns-err IfResolved _

  resolve-IfResolved : Returns IfResolved (resolve_with m http config run_ref)
  unfolding resolve_with
  resolve-IfResolved = elim (Bool-cases (is_run_ref run_ref)) [
    | inl well_formed ↦ rw well_formed (elim (Bool-cases (str_eq config.project_key "")) [
      | inl no_key ↦ rw no_key (failed-IfResolved 2 _ (λ h. omega arith))
      | inr has_key ↦ rw has_key (keyed-IfResolved well_formed has_key _)
    ])
    | inr malformed ↦ rw malformed (failed-IfResolved 2 _ (λ h. omega arith))
  ]

  -- If `resolve` ends with exit code 0, then the reference has the right form, there is a project
  -- key, the identity key opens the capsule that the backend answered with, the task id in it has
  -- this very reference, and what is printed are the reference and the capsule's identities.
  pub resolve_sound :
      (resolved : Resolved)
      → resolve_with m http config run_ref ≡ ok resolved
      → resolved.code ≡ 0
      → IsResolution resolved
  unfolding IfResolved
  resolve_sound resolved h exit = Returns_at IfResolved _ resolved resolve-IfResolved h exit

same_ref :
    (run_ref : String) (identity : Fields)
    → resolved_if run_ref identity run_ref
      ≡ ok (record {
        code = 0;
        result = some (field "run_ref" (str run_ref) identity);
        message = "";
      })
same_ref run_ref identity = rw (eq_refl run_ref) refl

module _ (m : Machine) (http : Http) (config : ObserverConfig) (values decoded : Fields)
    (laws : CapsuleLaws m.runtime (named_fields m.runtime identity_fields values) decoded)
    (short : IsShort m.runtime values decoded laws) where
  -- The capsule of a run, sealed with the observer's key, is resolved where the backend answers with
  -- it: `resolve` prints the reference of its task id with the identities that were sealed, and
  -- ends with exit code 0. The settings have a project key, the reference has the right form, and no
  -- identity is longer than 255 characters.
  pub resolve-seal :
      (run_ref capsule key_id : String) (payload : Fields) (task_id : Value)
      → is_run_ref run_ref ≡ true
      → str_eq config.project_key "" ≡ false
      → identity_key_id m.runtime config.identity_key ≡ ok key_id
      → seal_identity m.runtime values config.identity_key ≡ ok capsule
      → http.get_json (concat (identity_resolve_url config) (concat run_ref "/")) config.project_key
        ≡ ok (dict payload)
      → text_or_empty m.runtime (get "identity_capsule" payload) ≡ capsule
      → get? "task_id" (named_fields m.runtime identity_fields values) ≡ some task_id
      → task_run_ref m.runtime task_id config.identity_key ≡ ok run_ref
      → resolve_with m http config run_ref
        ≡ ok (record {
          code = 0;
          result =
              some (field "run_ref" (str run_ref) (named_fields m.runtime identity_fields values));
          message = "";
        })
  unfolding resolve_with fetch_identity checked_identity ◌>>=◌
  resolve-seal run_ref capsule key_id payload task_id formed has_key keyed sealed answers carries
        has_task refers =
      let opens =
        open-seal m.runtime values decoded laws config.identity_key short capsule sealed in
      let named = named_fields m.runtime identity_fields values in
      let fetched : fetch_identity m http config run_ref ≡ ok named =
        ap
          (λ r. r >>= λ value. as_mapping_or_raise value >>= λ got.
            open_identity m.runtime (text_or_empty m.runtime (get "identity_capsule" got))
              config.identity_key)
          answers
        ∙ (ap (λ text. open_identity m.runtime text config.identity_key) carries ∙ opens) in
      let checked =
        ap
          (λ o. or_raise o key_error >>= λ task.
            task_run_ref m.runtime task config.identity_key >>= resolved_if run_ref named)
          has_task
        ∙ ap (λ r. r >>= resolved_if run_ref named) refers in
      rw (formed, has_key)
        (ap (resolve_keyed m http config run_ref) keyed
          ∙ (ap (check_fetched m http config run_ref) fetched ∙ (checked ∙ same_ref run_ref named)))
