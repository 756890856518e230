-- ===== src/Sanitizer/Inner.antt =====
-- sanitizer.py: what the class of an exception can take from the payload.

use celery_diagnostics_obser.Prelude.{
  String, Bool, true, false, ◌&&◌, Option, none, some, ◌≡◌, refl, sym, subst, str_eq, eq_iff, arith,
  Bool-cases, inl, inr,
}
use celery_diagnostics_obser.Values.{str, Fields}
use celery_diagnostics_obser.Values.Dict.{get}
use celery_diagnostics_obser.Policy.{TelemetryPolicy}
use celery_diagnostics_obser.Text.{
  strip, lstrip, rstrip, before_end, is_space, without_nul, take_text, has_dot, last_part,
  dotted_run, is_word,
}
use celery_diagnostics_obser.Runtime.{Runtime, text_or_empty, to_text}
use celery_diagnostics_obser.Sanitizer.Coerce.{safe_token}
use celery_diagnostics_obser.Sanitizer.Exceptions.{
  is_known_inner, inner_name, match_inner, name_ends, or_later, search_inner, first_inner,
  split_match, split_exception_identity, known_inner_exception_identity, ExceptionIdentity,
}

last_part_whole : (s : String) → has_dot s ≡ false → last_part s ≡ s
unfolding has_dot last_part
last_part_whole String.[] h = refl
last_part_whole (String.◌∷◌ c s) h = ground arith

inner_name-has_dot : (s : String) → inner_name false s ≡ true → has_dot s ≡ true
unfolding inner_name has_dot
inner_name-has_dot String.[] h = ground arith
inner_name-has_dot (String.◌∷◌ c s) h = ground (arith, inner_name-has_dot s)

known_literal :
    (s : String) (t : String) → has_dot t ≡ false → str_eq s t ≡ true → has_dot s ≡ false
known_literal s t h equal = rw ((eq_iff s t).0 equal) h

is_known_inner-has_dot : (s : String) → is_known_inner s ≡ true → has_dot s ≡ false
unfolding is_known_inner has_dot
is_known_inner-has_dot s h = ground (
  arith,
  known_literal s "SoftTimeLimitExceeded" refl,
  known_literal s "TimeLimitExceeded" refl,
  known_literal s "WorkerLostError" refl,
)

is_known_inner-last_part :
    (s : String) → is_known_inner s ≡ true → is_known_inner (last_part s) ≡ true
is_known_inner-last_part s h =
    subst (λ t. is_known_inner t ≡ true) (sym (last_part_whole s (is_known_inner-has_dot s h))) h

-- A text that starts a known name, after names with dots, ends in one.
inner_name-last_part :
    (fresh : Bool) (s : String) → inner_name fresh s ≡ true → is_known_inner (last_part s) ≡ true
unfolding inner_name last_part
inner_name-last_part fresh String.[] h = ground arith
inner_name-last_part true (String.◌∷◌ c s) h = elim (Bool-cases (is_known_inner (String.◌∷◌ c s))) [
  | inl known ↦ is_known_inner-last_part (String.◌∷◌ c s) known
  | inr other ↦ ground (arith, inner_name-has_dot s, inner_name-last_part false s)
]
inner_name-last_part false (String.◌∷◌ c s) h = ground (
  arith,
  inner_name-has_dot s,
  inner_name-last_part false s,
  inner_name-last_part true s,
  last_part_whole s,
)

-- what holds of a match, if there is one
abbrev IfFound : (String → Type 0) → Option String → Type 0
IfFound Q none = Unit
IfFound Q (some run) = Q run

EndsKnown : String → Type 0
EndsKnown run = is_known_inner (last_part run) ≡ true

and_left : (a b : Bool) → (a && b) ≡ true → a ≡ true
and_left true b h = refl
and_left false b h = h

match_inner-EndsKnown : (parts : String × String) → IfFound EndsKnown (match_inner parts)
unfolding match_inner EndsKnown
match_inner-EndsKnown (run, rest) = elim (Bool-cases (inner_name true run && name_ends rest)) [
  | inl hit ↦ rw hit (inner_name-last_part true run (and_left _ _ hit))
  | inr miss ↦ rw miss tt
]

or_later-EndsKnown :
    (here later : Option String)
    → IfFound EndsKnown here
    → IfFound EndsKnown later
    → IfFound EndsKnown (or_later here later)
or_later-EndsKnown (some run) later h k = h
or_later-EndsKnown none later h k = k

search_inner-EndsKnown : (inside : Bool) (s : String) → IfFound EndsKnown (search_inner inside s)
unfolding search_inner
search_inner-EndsKnown inside String.[] = tt
search_inner-EndsKnown true (String.◌∷◌ c s) = search_inner-EndsKnown (is_word c) s
search_inner-EndsKnown false (String.◌∷◌ c s) =
    or_later-EndsKnown (match_inner (dotted_run (String.◌∷◌ c s))) (search_inner (is_word c) s)
      (match_inner-EndsKnown (dotted_run (String.◌∷◌ c s))) (search_inner-EndsKnown (is_word c) s)

first_inner-EndsKnown :
    (a b c : Option String)
    → IfFound EndsKnown a
    → IfFound EndsKnown b
    → IfFound EndsKnown c
    → IfFound EndsKnown (first_inner a b c)
unfolding first_inner
first_inner-EndsKnown (some a) b c ha hb hc = ha
first_inner-EndsKnown none (some b) c ha hb hc = hb
first_inner-EndsKnown none none c ha hb hc = hc

-- a known class; a module only if the policy asks for modules
abbrev IsInner : TelemetryPolicy → ExceptionIdentity → Type 0
IsInner policy (none, m) = m ≡ none
IsInner policy (some t, m) =
    (is_known_inner t ≡ true) × (policy.collect_exception_module ≡ false → m ≡ none)

-- What holds of the three names holds of a known name.
known_elim :
    (P : String → Type 0)
    → P "SoftTimeLimitExceeded"
    → P "TimeLimitExceeded"
    → P "WorkerLostError"
    → (s : String) → is_known_inner s ≡ true
    → P s
unfolding is_known_inner
known_elim P soft hard lost s h = elim (Bool-cases (str_eq s "SoftTimeLimitExceeded")) [
  | inl is_soft ↦ subst P (sym ((eq_iff s _).0 is_soft)) soft
  | inr not_soft ↦ elim (Bool-cases (str_eq s "TimeLimitExceeded")) [
    | inl is_hard ↦ subst P (sym ((eq_iff s _).0 is_hard)) hard
    | inr not_hard ↦ subst P (sym ((eq_iff s "WorkerLostError").0 (ground arith))) lost
  ]
]

absurd_module : (a b : Bool) (m : Option String) → (a && b) ≡ true → b ≡ false → m ≡ none
absurd_module a b m h k = ground arith

module _ (rt : Runtime) (policy : TelemetryPolicy) where
  safe_token-known :
      (s : String) → is_known_inner s ≡ true → is_known_inner (safe_token rt (str s) 255) ≡ true
  unfolding is_known_inner safe_token text_or_empty to_text strip lstrip rstrip before_end is_space
      without_nul take_text
  safe_token-known s h =
      known_elim (λ t. is_known_inner (safe_token rt (str t) 255) ≡ true) refl refl refl s h

  split-IsInner :
      (run : String) → EndsKnown run → IsInner policy (split_exception_identity rt run policy)
  unfolding split_exception_identity EndsKnown
  split-IsInner run h = elim (Bool-cases (has_dot run && policy.collect_exception_module)) [
    | inl with_module ↦
        rw with_module (
          safe_token-known (last_part run) h,
          λ no_module. absurd_module _ _ _ with_module no_module,
        )
    | inr no_module ↦ rw no_module (safe_token-known (last_part run) h, λ e. refl)
  ]

  split_match-IsInner :
      (found : Option String)
      → IfFound EndsKnown found
      → IsInner policy (split_match rt policy found)
  unfolding split_match
  split_match-IsInner none h = refl
  split_match-IsInner (some run) h = split-IsInner run h

  found_in_payload : (raw : Fields) → IsInner policy (known_inner_exception_identity rt raw policy)
  unfolding known_inner_exception_identity
  found_in_payload raw = split_match-IsInner _ (
      first_inner-EndsKnown _ _ _
        (search_inner-EndsKnown false (text_or_empty rt (get "exception" raw)))
        (search_inner-EndsKnown false (text_or_empty rt (get "result" raw)))
        (search_inner-EndsKnown false (text_or_empty rt (get "traceback" raw))))

  -- From an event's exception text, result and traceback, the search for an inner exception takes
  -- at most the name of one of three classes, and a module before it only if the policy collects
  -- modules.
  pub inner_class_known :
      (raw : Fields) (name : String) (module_name : Option String)
      → known_inner_exception_identity rt raw policy ≡ (some name, module_name)
      → (is_known_inner name ≡ true)
        × (policy.collect_exception_module ≡ false → module_name ≡ none)
  inner_class_known raw name module_name h = subst (IsInner policy) h (found_in_payload raw)
