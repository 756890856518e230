-- ===== src/Sanitizer/Urls.antt =====
-- sanitizer.py and coverage.py: URLs without credentials. `urllib.parse` is a parameter.
use celery_diagnostics_obser.Prelude.{
  ℕ, suc, pos, String, Bool, ◌&&◌, ◌||◌, not, Option, none, some, List, [], ◌∷◌, str_eq, concat,
  if◌then◌else◌,
}
use celery_diagnostics_obser.Result.{Result, ok, ◌>>=◌}
use celery_diagnostics_obser.Values.{int}
use celery_diagnostics_obser.Text.{ends_with}
use celery_diagnostics_obser.Runtime.{Runtime, to_text, lowered}

-- What urlsplit finds in a text. `port` raises `ValueError` where it is out of range.
pub record SplitUrl : Type 0 where
  pub scheme : String
  pub netloc : String
  pub hostname : Option String
  pub username : Option String
  pub port : Result (Option ℕ)
  pub path : String
  pub query : String
  pub fragment : String

-- `urlsplit` gives `none` for its `ValueError`; `parse_qsl` keeps blank values; `urlunsplit` takes
-- the scheme, the net location, the path, the query and the fragment.
pub record UrlLibrary : Type 0 where
  pub urlsplit : String → Option SplitUrl
  pub parse_qsl : String → List (String × String)
  pub urlencode : List (String × String) → String
  pub urlunsplit : String → String → String → String → String → String

abbrev pub some_text : Option String → String
some_text none = ""
some_text (some s) = s

-- key in _SECRET_QUERY_KEYS
abbrev pub is_secret_key : String → Bool
is_secret_key key =
    str_eq key "access_token"
    || (str_eq key "api_key"
        || (str_eq key "apikey"
            || (str_eq key "auth"
                || (str_eq key "key"
                    || (str_eq key "password"
                        || (str_eq key "project_key"
                            || (str_eq key "secret" || str_eq key "token")))))))

-- the pairs of a query, with the values of those keys redacted that the test takes
unfoldable pub redact_items : (String → Bool) → List (String × String) → List (String × String)
redact_items secret [] = []
redact_items secret ((key, item) ∷ items) =
    (key, (if secret key then "[redacted]" else item)) ∷ redact_items secret items

-- the host, or a placeholder for it where a user is named
unfoldable pub public_host : SplitUrl → String
public_host parsed =
    let host = some_text parsed.hostname in
    if not (str_eq (some_text parsed.username) "") && str_eq host ""
    then "[redacted-host]"
    else host

-- f"{host}:{parsed.port}" if there is a port other than 0
unfoldable pub with_port : Runtime → String → Option ℕ → String
unfolding to_text
with_port rt host (some (suc n)) = concat host (concat ":" (to_text rt (int (pos (suc n)))))
with_port rt host _ = host

unfoldable pub redact_parsed : UrlLibrary → Runtime → SplitUrl → Result String
unfolding redact_items public_host with_port
redact_parsed lib rt parsed = do
  port ← parsed.port
  ok (
      lib.urlunsplit parsed.scheme (with_port rt (public_host parsed) port) parsed.path
        (lib.urlencode
          (redact_items (λ key. is_secret_key (lowered rt key)) (lib.parse_qsl parsed.query)))
        parsed.fragment)

unfoldable pub redact_split : UrlLibrary → Runtime → Option SplitUrl → Result String
unfolding redact_parsed
redact_split lib rt none = ok "[invalid-url]"
redact_split lib rt (some parsed) = redact_parsed lib rt parsed

-- redact_url_credentials
unfoldable pub redact_url_credentials : UrlLibrary → Runtime → String → Result String
unfolding redact_split
redact_url_credentials lib rt value =
    if str_eq value "" then ok "" else redact_split lib rt (lib.urlsplit value)

-- key in SECRET_QUERY_KEYS of coverage.py, or one that ends so
abbrev pub is_report_secret : String → Bool
is_report_secret key =
    str_eq key "access_token"
    || (str_eq key "api_key"
        || (str_eq key "auth"
            || (str_eq key "key"
                || (str_eq key "password"
                    || (str_eq key "project_key"
                        || (str_eq key "secret"
                            || (str_eq key "signature"
                                || (str_eq key "token" || ends_with "_key" key))))))))

unfoldable pub redact_again : UrlLibrary → Runtime → Option SplitUrl → String
unfolding redact_items
redact_again lib rt none = "[invalid-url]"
redact_again lib rt (some parsed) =
    lib.urlunsplit parsed.scheme parsed.netloc parsed.path
      (lib.urlencode
        (redact_items (λ key. is_report_secret (lowered rt key)) (lib.parse_qsl parsed.query)))
      parsed.fragment

-- _redact_url of coverage.py
unfoldable pub redact_url : UrlLibrary → Runtime → String → Result String
unfolding redact_again
redact_url lib rt value = if str_eq value "" then ok "" else do
  redacted ← redact_url_credentials lib rt value
  ok (redact_again lib rt (lib.urlsplit redacted))
