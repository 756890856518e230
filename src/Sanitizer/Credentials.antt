-- ===== src/Sanitizer/Credentials.antt =====
-- sanitizer.py and coverage.py: what the printed form of a URL depends on.
use celery_diagnostics_obser.Prelude.{
  String, Bool, false, not, ◌&&◌, some, List, [], ◌∷◌, str_eq, ◌≡◌, refl, ap, ap₂, inl, inr,
  Bool-cases, if◌then◌else◌,
}
use celery_diagnostics_obser.Result.{ok, ◌>>=◌}
use celery_diagnostics_obser.Runtime.{Runtime, lowered}
use celery_diagnostics_obser.Sanitizer.Urls.{
  SplitUrl, UrlLibrary, is_secret_key, redact_items, public_host, redact_parsed, redact_split,
  redact_url_credentials, redact_again, redact_url, some_text,
}

-- The same keys in the same order, and the same values at the keys that the test does not take.
abbrev pub SameItems : (String → Bool) → List (String × String) → List (String × String) → Type 0
SameItems secret [] [] = Unit
SameItems secret [] (y ∷ ys) = ⊥
SameItems secret (x ∷ xs) [] = ⊥
SameItems secret ((k, v) ∷ xs) ((j, w) ∷ ys) =
    (k ≡ j) × ((secret k ≡ false → v ≡ w) × SameItems secret xs ys)

-- Two URLs that differ at most in the name of a user whom both or neither name, in what else of the
-- net location is neither host nor port, such as the password, and in the values of secret keys.
pub record SameBarCredentials (lib : UrlLibrary) (rt : Runtime) (u v : SplitUrl) : Type 0 where
  pub schemes : u.scheme ≡ v.scheme
  pub hosts : u.hostname ≡ v.hostname
  pub named : str_eq (some_text u.username) "" ≡ str_eq (some_text v.username) ""
  pub ports : u.port ≡ v.port
  pub paths : u.path ≡ v.path
  pub queries :
      SameItems
        (λ key. is_secret_key (lowered rt key))
        (lib.parse_qsl u.query)
        (lib.parse_qsl v.query)
  pub fragments : u.fragment ≡ v.fragment

redact_items-same :
    (secret : String → Bool) (xs ys : List (String × String))
    → SameItems secret xs ys
    → redact_items secret xs ≡ redact_items secret ys
unfolding redact_items
redact_items-same secret [] [] h = refl
redact_items-same secret [] (y ∷ ys) h = absurd h
redact_items-same secret (x ∷ xs) [] h = absurd h
redact_items-same secret ((k, v) ∷ xs) ((j, w) ∷ ys) (same, (value, rest)) =
    ap₂ (λ x items. x ∷ items) (ap₂ (λ key item. (key, item)) same (item-same k j v w same value))
      (redact_items-same secret xs ys rest)
  where
    item-same :
        (k j v w : String)
        → k ≡ j
        → (secret k ≡ false → v ≡ w)
        → (if secret k then "[redacted]" else v) ≡ (if secret j then "[redacted]" else w)
    item-same k j v w same value = elim (Bool-cases (secret k)) [
      | inl hidden ↦ rw (← same) (rw hidden)
      | inr shown ↦ rw (← same) (rw (shown, value shown))
    ]

module _ (lib : UrlLibrary) (rt : Runtime) (u v : SplitUrl)
    (same : SameBarCredentials lib rt u v) where
  public_host-same : public_host u ≡ public_host v
  unfolding public_host
  public_host-same =
      ap₂
        (λ (named : Bool) (host : String).
          if not named && str_eq host "" then "[redacted-host]" else host)
        same.named (ap some_text same.hosts)

  redact_parsed-same : redact_parsed lib rt u ≡ redact_parsed lib rt v
  unfolding redact_parsed
  redact_parsed-same =
      rw
        (
          same.ports,
          public_host-same,
          same.schemes,
          same.paths,
          same.fragments,
          redact_items-same _ _ _ same.queries,
        )
        refl

module _ (lib : UrlLibrary) (rt : Runtime) (s t : String) (u v : SplitUrl) where
  credentials-same :
      lib.urlsplit s ≡ some u
      → lib.urlsplit t ≡ some v
      → str_eq s "" ≡ false
      → str_eq t "" ≡ false
      → SameBarCredentials lib rt u v
      → redact_url_credentials lib rt s ≡ redact_url_credentials lib rt t
  unfolding redact_url_credentials redact_split
  credentials-same hs ht s_given t_given same =
      rw (hs, ht, s_given, t_given) (redact_parsed-same lib rt u v same)

  -- Two URLs that urlsplit takes apart, and that differ at most in credentials (the name of a user
  -- whom both or neither name, the password, the values of secret keys of the query), are redacted
  -- to the same text, for an error message and for a report alike; or both raise the same
  -- exception.
  pub credentials_hidden :
      lib.urlsplit s ≡ some u
      → lib.urlsplit t ≡ some v
      → str_eq s "" ≡ false
      → str_eq t "" ≡ false
      → SameBarCredentials lib rt u v
      → (redact_url_credentials lib rt s ≡ redact_url_credentials lib rt t)
        × (redact_url lib rt s ≡ redact_url lib rt t)
  unfolding redact_url
  credentials_hidden hs ht s_given t_given same =
      let equal = credentials-same hs ht s_given t_given same in
      (
        equal,
        rw (s_given, t_given)
            (ap (λ r. r >>= λ redacted. ok (redact_again lib rt (lib.urlsplit redacted))) equal),
      )
