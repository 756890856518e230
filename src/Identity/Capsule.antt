-- ===== src/Identity/Capsule.antt =====
-- identity.py: sealed capsules, opened with their own key or with another.
use celery_diagnostics_obser.Prelude.{
  String, concat, true, false, ◌≤◌, ◌≡◌, refl, ap, sym, none, some, All, str_eq, eq_refl, eq_iff,
  Bool-cases, inl, inr, arith,
}
use celery_diagnostics_obser.Result.{
  ok, err, capsule_error, ◌>>=◌, Returns, Returns->>=, Returns-ok, Returns_at,
}
use celery_diagnostics_obser.Values.{dict, Fields, truth}
use celery_diagnostics_obser.Values.Dict.{get, get?, or_null}
use celery_diagnostics_obser.Text.{strip, lstrip, rstrip, take_text, length_text, has_dot}
use celery_diagnostics_obser.Text.Laws.{strip-strip, take_text_all, partition_dot-concat}
use celery_diagnostics_obser.Runtime.{Runtime, text_or_empty, stripped, to_text}
use celery_diagnostics_obser.Runtime.Laws.{stripped-str}
use celery_diagnostics_obser.Identity.Entries.{entry, five, get-five}
use celery_diagnostics_obser.Identity.{
  required_key, identity_key_id, identity_fields, named_fields, capsule_version, seal_payload,
  seal_identity, is_ascii, opened, decrypted, open_token, open_parts, open_identity,
}

-- What the observer relies on, for the dictionary of texts that is sealed: decryption undoes
-- encryption, tokens are ASCII, JSON gives back what each key holds, and a key id has no dot.
pub record CapsuleLaws (rt : Runtime) (payload decoded : Fields) : Type 0 where
  pub decrypt-encrypt :
      (key : String) → rt.decrypt key (rt.encrypt key (rt.dumps payload)) ≡ some (rt.dumps payload)
  pub encrypt_ascii : (key : String) → is_ascii (rt.encrypt key (rt.dumps payload)) ≡ true
  pub key_id_dotless : (key : String) → has_dot (take_text 12 (rt.sha256_hex key)) ≡ false
  pub key_id_ascii : (key : String) → is_ascii (take_text 12 (rt.sha256_hex key)) ≡ true
  pub loads-dumps : rt.loads (rt.dumps payload) ≡ some (dict decoded)
  pub get_decoded : (k : String) → get k decoded ≡ get k payload

dotless_version : has_dot capsule_version ≡ false
unfolding has_dot
dotless_version = refl

module _ (rt : Runtime) (values decoded : Fields)
    (laws : CapsuleLaws rt (named_fields rt identity_fields values) decoded) where
  -- none of the fields is cut
  abbrev pub IsShort : Type 0
  IsShort = All (λ k. length_text (stripped rt (get k values)) ≤ 255) identity_fields

  text_of_field : String → String
  text_of_field k = stripped rt (get k values)

  stripped-entry :
      (t : String) → strip t ≡ t → length_text t ≤ 255 → stripped rt (or_null (entry t none)) ≡ t
  unfolding stripped text_or_empty to_text strip lstrip rstrip
  stripped-entry t strips short = elim (Bool-cases (str_eq t "")) [
    | inl empty ↦ rw empty (sym ((eq_iff t "").0 empty))
    | inr present ↦ rw (present, take_text_all 255 t short) (stripped-str rt t strips)
  ]

  field_same :
      (k : String)
      → get? k (named_fields rt identity_fields values) ≡ entry (text_of_field k) none
      → length_text (stripped rt (get k values)) ≤ 255
      → stripped rt (get k decoded) ≡ stripped rt (get k values)
  unfolding text_of_field stripped strip
  field_same k at_k short =
      rw (laws.get_decoded k, at_k)
        (stripped-entry (stripped rt (get k values)) (strip-strip (text_or_empty rt (get k values)))
          short)

  fields_same :
      IsShort → named_fields rt identity_fields decoded ≡ named_fields rt identity_fields values
  unfolding named_fields five text_of_field
  fields_same (h1, (h2, (h3, (h4, (h5, _))))) =
      let (g1, (g2, (g3, (g4, (g5, _))))) =
        get-five (text_of_field "task_id") (text_of_field "task_name") (text_of_field "queue")
          (text_of_field "routing_key") (text_of_field "worker") in
      rw
        (
          field_same "task_id" g1 h1,
          field_same "task_name" g2 h2,
          field_same "queue" g3 h3,
          field_same "routing_key" g4 h4,
          field_same "worker" g5 h5,
        )
        refl

  key_id_plain :
      (key : String)
      → Returns (λ own. (has_dot own ≡ false) × (is_ascii own ≡ true)) (identity_key_id rt key)
  unfolding identity_key_id
  key_id_plain key =
      Returns->>= _ _ _ (λ own e. Returns-ok _ _ (laws.key_id_dotless own, laws.key_id_ascii own))

  module _ (key : String) (short : IsShort) where
    opened_payload :
        truth (get "task_id" (named_fields rt identity_fields values)) ≡ true
        → opened rt (rt.loads (rt.dumps (named_fields rt identity_fields values)))
          ≡ ok (named_fields rt identity_fields values)
    unfolding opened
    opened_payload has_task =
        rw (laws.loads-dumps, laws.get_decoded "task_id", has_task) (ap ok (fields_same short))

    opened_parts :
        (own : String)
        → truth (get "task_id" (named_fields rt identity_fields values)) ≡ true
        → required_key key ≡ ok key
        → identity_key_id rt key ≡ ok own
        → is_ascii own ≡ true
        → open_parts rt capsule_version true own true
            (rt.encrypt key (rt.dumps (named_fields rt identity_fields values)))
            key
          ≡ ok (named_fields rt identity_fields values)
    unfolding open_parts open_token decrypted ◌>>=◌
    opened_parts own has_task long_key same_key ascii =
        rw
          (same_key, ascii, eq_refl own, long_key, laws.encrypt_ascii key, laws.decrypt-encrypt key)
          (opened_payload has_task)

    opened_capsule :
        (own : String)
        → truth (get "task_id" (named_fields rt identity_fields values)) ≡ true
        → required_key key ≡ ok key
        → identity_key_id rt key ≡ ok own
        → has_dot own ≡ false
        → is_ascii own ≡ true
        → open_identity rt
            (concat capsule_version (
              concat "." (
                concat own (
                  concat "."
                    (rt.encrypt key (rt.dumps (named_fields rt identity_fields values)))))))
            key
          ≡ ok (named_fields rt identity_fields values)
    unfolding open_identity
    opened_capsule own has_task long_key same_key dotless ascii =
        let token = rt.encrypt key (rt.dumps (named_fields rt identity_fields values)) in
        rw
          (
            partition_dot-concat capsule_version (concat own (concat "." token)) dotless_version,
            partition_dot-concat own token dotless,
          )
          (opened_parts own has_task long_key same_key ascii)

    key_same : Returns (λ own. own ≡ key) (required_key key)
    unfolding required_key Returns
    key_same = ground arith

    OpensSame : String → Type 0
    OpensSame capsule = open_identity rt capsule key ≡ ok (named_fields rt identity_fields values)

    sealed_payload :
        truth (get "task_id" (named_fields rt identity_fields values)) ≡ true
        → Returns OpensSame (seal_payload rt (named_fields rt identity_fields values) key)
    unfolding seal_payload OpensSame
    sealed_payload has_task = rw has_task (
        Returns->>= _ _ _ (λ key' long_key. Returns->>= _ _ _ (λ own same_key.
          let same = Returns_at _ _ key' key_same long_key in
          let plain = Returns_at _ _ own (key_id_plain key) same_key in
          Returns-ok _ _ (
            rw same
              (opened_capsule own has_task (rw same at long_key) same_key (plain.0) (plain.1))))))

    refused :
        truth (get "task_id" (named_fields rt identity_fields values)) ≡ false
        → Returns OpensSame (seal_payload rt (named_fields rt identity_fields values) key)
    unfolding seal_payload Returns
    refused no_task = rw no_task tt

    seal-Returns : Returns OpensSame (seal_identity rt values key)
    unfolding seal_identity
    seal-Returns =
        elim (Bool-cases (truth (get "task_id" (named_fields rt identity_fields values)))) [
          | inl has_task ↦ sealed_payload has_task
          | inr no_task ↦ refused no_task
        ]

    -- A capsule that seals the five identities of a task, none longer than 255 characters, opens
    -- with the same key to the same texts.
    pub open-seal :
        (capsule : String)
        → seal_identity rt values key ≡ ok capsule
        → open_identity rt capsule key ≡ ok (named_fields rt identity_fields values)
    unfolding OpensSame
    open-seal capsule sealed = Returns_at OpensSame _ capsule seal-Returns sealed

  module _ (key key' own own' : String) where
    RefusesKey : String → Type 0
    RefusesKey capsule =
        open_identity rt capsule key' ≡ err (capsule_error "identity key does not match capsule")

    refused_capsule :
        (token : String)
        → identity_key_id rt key' ≡ ok own'
        → has_dot own ≡ false
        → is_ascii own ≡ true
        → str_eq own own' ≡ false
        → RefusesKey (concat capsule_version (concat "." (concat own (concat "." token))))
    unfolding open_identity open_parts ◌>>=◌ RefusesKey
    refused_capsule token other_id dotless ascii differs =
        rw
          (
            partition_dot-concat capsule_version (concat own (concat "." token)) dotless_version,
            partition_dot-concat own token dotless,
            other_id,
            ascii,
            differs,
          )
          refl

    seal-RefusesKey :
        identity_key_id rt key ≡ ok own
        → identity_key_id rt key' ≡ ok own'
        → str_eq own own' ≡ false
        → Returns RefusesKey (seal_identity rt values key)
    unfolding seal_identity seal_payload Returns ◌>>=◌ RefusesKey
    seal-RefusesKey own_id other_id differs =
        elim (Bool-cases (truth (get "task_id" (named_fields rt identity_fields values)))) [
          | inl has_task ↦
              let plain = Returns_at _ _ own (key_id_plain key) own_id in
              rw (has_task, own_id)
                (Returns->>= RefusesKey (required_key key) _
                  (λ long_key long. refused_capsule _ other_id (plain.0) (plain.1) differs))
          | inr no_task ↦ rw no_task tt
        ]

    -- A capsule sealed with one key is refused with a key of another key id: that is an error, and
    -- not an empty or a garbled identity.
    pub open_other_key :
        (capsule : String)
        → identity_key_id rt key ≡ ok own
        → identity_key_id rt key' ≡ ok own'
        → str_eq own own' ≡ false
        → seal_identity rt values key ≡ ok capsule
        → open_identity rt capsule key' ≡ err (capsule_error "identity key does not match capsule")
    unfolding RefusesKey
    open_other_key capsule own_id other_id differs sealed =
        Returns_at RefusesKey _ capsule (seal-RefusesKey own_id other_id differs) sealed
