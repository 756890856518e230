-- ===== src/Identity.antt =====
-- identity.py: keyed references to identities, and the sealed capsule that carries them.
pub mod Entries
pub mod Capsule
use Prim.Native.String.{len}
use Prim.Native.Char.{Char, code}
use celery_diagnostics_obser.Prelude.{
  ℕ, String, concat, Bool, true, false, ltb, str_eq, Option, none, some, List, [], ◌∷◌,
  if◌then◌else◌, not, ◌&&◌,
}
use celery_diagnostics_obser.Result.{
  Result, ok, err, value_error, type_error, capsule_error, or_raise, ◌>>=◌,
}
use celery_diagnostics_obser.Values.{Value, str, dict, Fields, end, field, truth}
use celery_diagnostics_obser.Values.Dict.{get}
use celery_diagnostics_obser.Text.{take_text, partition_dot}
use celery_diagnostics_obser.Runtime.{Runtime, text_or_empty, stripped}

-- _required_key: at least 16 bytes in UTF-8
unfoldable pub required_key : String → Result String
required_key key =
    if ltb (len key) 16
    then err (capsule_error "identity key must contain at least 16 characters")
    else ok key

unfoldable pub identity_key_id : Runtime → String → Result String
identity_key_id rt identity_key = do
  key ← required_key identity_key
  ok (take_text 12 (rt.sha256_hex key))

-- _PREFIXES
unfoldable pub prefix_of : String → Option String
prefix_of kind =
    if str_eq kind "task"
    then some "T"
    else if str_eq kind "queue"
    then some "Q"
    else if str_eq kind "route"
    then some "K"
    else if str_eq kind "worker"
    then some "W"
    else if str_eq kind "run"
    then some "R"
    else if str_eq kind "observer"
    then some "O"
    else if str_eq kind "exchange"
    then some "X"
    else none

abbrev pub message : String → String → String
message kind raw = concat "celery-diagnostics:" (concat kind (concat ":" raw))

-- the reference of a text that is stripped and not empty
unfoldable pub keyed_ref : Runtime → String → String → String → Result String
keyed_ref rt kind raw identity_key = do
  prefix ← or_raise (prefix_of kind) value_error
  key ← required_key identity_key
  ok (concat prefix (concat "-" (take_text 12 (rt.hmac_token key (message kind raw)))))

unfoldable pub identity_ref : Runtime → String → Value → String → Result String
identity_ref rt kind value identity_key =
    let raw = stripped rt value in
    if str_eq raw "" then ok "" else keyed_ref rt kind raw identity_key

abbrev pub reference_token_length : ℕ
reference_token_length = 20

unfoldable pub run_ref_of : Runtime → String → String → Result String
run_ref_of rt raw identity_key = do
  key ← required_key identity_key
  ok (concat "R-" (take_text reference_token_length (rt.hmac_token key (message "run" raw))))

unfoldable pub task_run_ref : Runtime → Value → String → Result String
task_run_ref rt task_id identity_key =
    let raw = stripped rt task_id in if str_eq raw "" then ok "" else run_ref_of rt raw identity_key

-- _IDENTITY_FIELDS
abbrev pub identity_fields : List String
identity_fields = "task_id" ∷ "task_name" ∷ "queue" ∷ "routing_key" ∷ "worker" ∷ []

unfoldable pub add_field : String → String → Fields → Fields
add_field name text rest =
    if str_eq text "" then rest else field name (str (take_text 255 text)) rest

-- the named fields that are not empty, stripped and cut
unfoldable pub named_fields : Runtime → List String → Fields → Fields
unfolding add_field
named_fields rt [] values = end
named_fields rt (f ∷ fs) values =
    add_field f (stripped rt (get f values)) (named_fields rt fs values)

abbrev pub capsule_version : String
capsule_version = "v1"

-- the sealed payload, if it has a task id
unfoldable pub seal_payload : Runtime → Fields → String → Result String
seal_payload rt payload identity_key =
    if not (truth (get "task_id" payload))
    then err (capsule_error "identity capsule requires task_id")
    else do
      key ← required_key identity_key
      key_id ← identity_key_id rt identity_key
      ok (
          concat capsule_version
            (concat "." (concat key_id (concat "." (rt.encrypt key (rt.dumps payload))))))

unfoldable pub seal_identity : Runtime → Fields → String → Result String
seal_identity rt values identity_key =
    seal_payload rt (named_fields rt identity_fields values) identity_key

unfoldable pub is_ascii : String → Bool
is_ascii String.[] = true
is_ascii (String.◌∷◌ c s) = if ltb (code c) 128 then is_ascii s else false

unfoldable pub opened : Runtime → Option Value → Result Fields
opened rt (some (dict decoded)) =
    if not (truth (get "task_id" decoded))
    then err (capsule_error "identity capsule has no task_id")
    else ok (named_fields rt identity_fields decoded)
opened rt (some v) = err (capsule_error "identity capsule has no task_id")
opened rt none = err (capsule_error "invalid identity capsule")

-- the token is ASCII, decrypts, and holds JSON; else the capsule is invalid
unfoldable pub decrypted : Runtime → String → Option String → Result Fields
unfolding opened
decrypted rt key none = err (capsule_error "invalid identity capsule")
decrypted rt key (some raw) = opened rt (rt.loads raw)

unfoldable pub open_token : Runtime → String → String → Result Fields
unfolding decrypted
open_token rt identity_key token = do
  key ← required_key identity_key
  if is_ascii token
      then decrypted rt key (rt.decrypt key token)
      else err (capsule_error "invalid identity capsule")

-- the three parts of a capsule, split at its first two dots
unfoldable pub open_parts :
    Runtime → String → Bool → String → Bool → String → String → Result Fields
unfolding open_token is_ascii
open_parts rt version dot key_id dot' token identity_key =
    if not (str_eq version capsule_version && (dot && dot'))
    then err (capsule_error "unsupported identity capsule")
    else do
      own ← identity_key_id rt identity_key
      if not (is_ascii key_id)
          then err type_error
          else if str_eq key_id own
          then open_token rt identity_key token
          else err (capsule_error "identity key does not match capsule")

unfoldable pub open_identity : Runtime → String → String → Result Fields
open_identity rt capsule identity_key =
    let (version, dot, rest) = partition_dot capsule in
    let (key_id, dot', token) = partition_dot rest in
    open_parts rt version dot key_id dot' token identity_key
