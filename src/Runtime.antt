-- ===== src/Runtime.antt =====
-- What the observer's code takes from the interpreter's built-in types and from libraries, and
-- which is not defined here: number and date formats, JSON, and cryptography.
pub mod Laws
use Prim.Native.Char.{Char}
use celery_diagnostics_obser.Prelude.{
  ℕ, ℤ, String, Bool, true, false, List, Option, none, some, str_eq,
}
use celery_diagnostics_obser.Result.{Result}
use celery_diagnostics_obser.Values.{Value, null, bool, str, Moment, Fields, ◌or◌}
use celery_diagnostics_obser.Text.{strip, lower, take_text, without_nul}

-- `text_of` is str(value) of a number, a container, bytes or a datetime. `none` stands for a
-- `ValueError` of int and float of a text or of bytes, of datetime.fromisoformat(text) and json.loads(text), and
-- for `InvalidToken` of `decrypt`. A datetime may lie out of range; `to_utc` gives its microseconds since 1970 in UTC. `hmac_token key message` is the
-- base32 text, without padding, of the HMAC-SHA256; `sha256_hex` is the digest in hexadecimal
-- digits. `encrypt` and `decrypt` are those of a Fernet whose key is derived from the given text.
pub record Runtime : Type 0 where
  pub lower_wide : Char → String
  pub upper_wide : Char → String
  pub text_of : Value → String
  pub int_of_text : String → Option ℤ
  pub int_of_bytes : List ℕ → Option ℤ
  pub int_of_float : ℕ → Result ℤ
  pub float_of_text : String → Option ℕ
  pub float_of_bytes : List ℕ → Option ℕ
  pub float_of_int : ℤ → Result ℕ
  pub from_timestamp : ℕ → Result Moment
  pub from_isoformat : String → Option Moment
  pub iso_utc : Moment → Result String
  pub to_utc : Moment → Result ℤ
  pub hmac_token : String → String → String
  pub sha256_hex : String → String
  pub encrypt : String → String → String
  pub decrypt : String → String → Option String
  pub dumps : Fields → String
  pub loads : String → Option Value

-- str(value)
unfoldable pub to_text : Runtime → Value → String
to_text rt null = "None"
to_text rt (bool true) = "True"
to_text rt (bool false) = "False"
to_text rt (str s) = s
to_text rt v = rt.text_of v

-- str(value or "")
unfoldable pub text_or_empty : Runtime → Value → String
unfolding to_text
text_or_empty rt v = to_text rt (v or str "")

-- str(value or "").strip()
unfoldable pub stripped : Runtime → Value → String
unfolding text_or_empty
stripped rt v = strip (text_or_empty rt v)

abbrev pub lowered : Runtime → String → String
lowered rt s = lower rt.lower_wide s
