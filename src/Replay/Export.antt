-- ===== src/Replay/Export.antt =====
-- replay.py: what the rows of an export are, and what its counts say.
use celery_diagnostics_obser.Prelude.{
  ℕ, suc, ◌+◌, ◌≤◌, String, true, false, Option, none, some, List, [], ◌∷◌, length, str_eq, ◌≡◌,
  refl, ◌⊎◌, inl, inr, All, arith, Bool-cases, eq_refl, subst, sym, ◌∙◌, if_cases,
}
use celery_diagnostics_obser.Result.{
  Result, ok, value_error, Returns, Returns->>=, Returns-ok, Returns-err, Returns_at,
  Returns-weaken,
}
use celery_diagnostics_obser.Values.{Value, dict, str, Moment, Fields}
use celery_diagnostics_obser.Values.Dict.{get?, set, get?-set}
use celery_diagnostics_obser.Runtime.{Runtime}
use celery_diagnostics_obser.Config.{ObserverConfig}
use celery_diagnostics_obser.Policy.{TelemetryPolicy}
use celery_diagnostics_obser.Sanitizer.Labels.{forbidden_fields}
use celery_diagnostics_obser.Sanitizer.Events.{sanitize_celery_event}
use celery_diagnostics_obser.Sanitizer.Events.Forbidden.{IsClean, celery_event_clean}
use celery_diagnostics_obser.Replay.{
  Arithmetic, ReplayExport, Request, event_time, replay_note, set_observed, annotated, replay_row,
  add_row, replay_rows, is_selected, cons_if, select_rows, export_rows, export_event_replay,
  anchor_or, is_refused, request_for, read_jsonl,
}

-- a row is among the rows
abbrev pub In : Fields → List Fields → Type 0
In row [] = ⊥
In row (x ∷ xs) = (row ≡ x) ⊎ In row xs

-- An exported row: clean, marked as a replay of this cutoff, and made from a row of the capture
-- whose time is known and not after the cutoff.
pub record Exported (fl : Arithmetic) (rt : Runtime) (request : Request) (rows : List Fields)
    (out : Fields) : Type 0 where
  pub clean : IsClean out
  pub marked : get? "research_replay" out ≡ some (replay_note fl request.cutoff request.anchor)
  pub row : Fields
  pub found : In row rows
  pub time : ℕ
  pub timed : event_time rt row ≡ ok (some time)
  pub before : fl.at_most time request.cutoff ≡ true
  pub now : String
  pub made : replay_row fl rt request now row ≡ ok (some out)

-- The row is in the capture, and its time is known and not after the cutoff.
record Selected (fl : Arithmetic) (rt : Runtime) (cutoff : ℕ) (rows : List Fields) (row : Fields)
    : Type 0 where
  found : In row rows
  time : ℕ
  timed : event_time rt row ≡ ok (some time)
  before : fl.at_most time cutoff ≡ true

-- Setting a field that is neither forbidden nor the mark of redaction keeps an event clean.
set-IsClean :
    (key : String) (v : Value) (out : Fields)
    → All (λ k. str_eq key k ≡ false) forbidden_fields
    → str_eq key "payload_redacted" ≡ false
    → IsClean out
    → IsClean (set key v out)
set-IsClean key v out other unmarked (absent, redacted) = (
  absent_all forbidden_fields other absent,
  rw (get?-set key "payload_redacted" v out) (rw unmarked redacted),
)
  where
    absent_all :
        (ks : List String)
        → All (λ k. str_eq key k ≡ false) ks
        → All (λ k. get? k out ≡ none) ks
        → All (λ k. get? k (set key v out) ≡ none) ks
    absent_all [] h a = tt
    absent_all (k ∷ ks) h a =
        (rw (get?-set key k v out) (rw (h.0) (a.0)), absent_all ks (h.1) (a.1))

module _ (fl : Arithmetic) (rt : Runtime) (request : Request) where
  abbrev Marked : Fields → Type 0
  Marked out =
      IsClean out
      × (get? "research_replay" out ≡ some (replay_note fl request.cutoff request.anchor))

  abbrev IfMarked : Option Fields → Type 0
  IfMarked none = Unit
  IfMarked (some out) = Marked out

  set_observed-Marked :
      (observed : Option ℕ) (out : Fields)
      → Marked out
      → Returns Marked (set_observed rt observed out)
  unfolding set_observed
  set_observed-Marked none out h = Returns-ok _ _ h
  set_observed-Marked (some b) out (clean, note) = Returns->>= _ _ _ (λ moment e.
      Returns->>= _ _ _ (λ text e'. Returns-ok _ _ (
        set-IsClean "observed_at" (str text) out refl_all refl clean,
        rw (get?-set "observed_at" "research_replay" (str text) out) note,
      )))
    where
      refl_all : All (λ k. str_eq "observed_at" k ≡ false) forbidden_fields
      refl_all = ground arith

  annotated-Marked :
      (shifted : Fields) (payload : Option Fields)
      → ((out : Fields) → payload ≡ some out → IsClean out)
      → Returns IfMarked (annotated fl rt request.cutoff request.anchor shifted payload)
  unfolding annotated
  annotated-Marked shifted none clean = Returns-ok _ _ tt
  annotated-Marked shifted (some out) clean = Returns->>= _ _ _ (λ observed e.
      Returns->>= _ _ _ (λ out' e'. Returns-ok _ _ (
        Returns_at _ _ _
          (set_observed-Marked observed _ (
            set-IsClean "research_replay" _ out (ground arith) refl (clean out refl),
            rw
                (get?-set "research_replay" "research_replay"
                  (replay_note fl request.cutoff request.anchor) out)
                (rw (eq_refl "research_replay") refl),
          ))
          e')))

  replay_row-Marked :
      (now : String) (row : Fields) → Returns IfMarked (replay_row fl rt request now row)
  unfolding replay_row
  replay_row-Marked now row = Returns->>= _ _ _ (λ shifted e. Returns->>= _ _ _ (λ payload e'.
      annotated-Marked shifted payload (λ out same.
        celery_event_clean rt request.config request.policy now (dict shifted) out (
          subst
            (λ o. sanitize_celery_event rt request.config request.policy now (dict shifted) ≡ ok o)
            same e'))))

  module _ (now : ℕ → String) where
    -- What the loop gives for the selected rows: each output is exported from a row of the capture,
    -- and each row is exported or unsupported.
    abbrev Loop : List Fields → List Fields → List Fields × ℕ → Type 0
    Loop rows selected (output, unsupported) =
        All (Exported fl rt request rows) output × (length output + unsupported ≡ length selected)

    add_row-Loop :
        (rows : List Fields) (row : Fields) (selected : List Fields) (n : ℕ)
        (payload : Option Fields) (rest : List Fields × ℕ)
        → Selected fl rt request.cutoff rows row
        → replay_row fl rt request (now n) row ≡ ok payload
        → Loop rows selected rest
        → Loop rows (row ∷ selected) (add_row payload rest)
    add_row-Loop rows row selected n none (output, unsupported) s made (all, count) =
        (all, omega (arith, count))
    add_row-Loop rows row selected n (some out) (output, unsupported) s made (all, count) =
        let marked = Returns_at IfMarked _ (some out) (replay_row-Marked (now n) row) made in
        (
          (
            record {
              clean = marked.0;
              marked = marked.1;
              row = row;
              found = s.found;
              time = s.time;
              timed = s.timed;
              before = s.before;
              now = now n;
              made = made;
            },
            all,
          ),
          omega (arith, count),
        )

    replay_rows-Loop :
        (rows selected : List Fields) (n : ℕ)
        → All (Selected fl rt request.cutoff rows) selected
        → Returns (Loop rows selected) (replay_rows fl rt request now n selected)
    unfolding replay_rows
    replay_rows-Loop rows [] n h = Returns-ok _ _ (tt, omega arith)
    replay_rows-Loop rows (row ∷ selected) n (s, h) = Returns->>= _ _ _ (λ payload e.
        Returns->>= _ _ _ (λ rest e'. Returns-ok _ _ (
          add_row-Loop rows row selected n payload rest s e (
            Returns_at (Loop rows selected) _ rest (replay_rows-Loop rows selected (suc n) h) e'))))

module _ (fl : Arithmetic) (rt : Runtime) (cutoff : ℕ) where
  weaken :
      (x : Fields) (rows : List Fields) (ys : List Fields)
      → All (Selected fl rt cutoff rows) ys
      → All (Selected fl rt cutoff (x ∷ rows)) ys
  weaken x rows [] h = tt
  weaken x rows (y ∷ ys) (s, h) = (
    record { found = inr s.found; time = s.time; timed = s.timed; before = s.before },
    weaken x rows ys h,
  )

  abbrev Chosen : List Fields → List Fields → Type 0
  Chosen rows selected = All (Selected fl rt cutoff rows) selected × (length selected ≤ length rows)

  cons_if-Chosen :
      (row : Fields) (rows rest : List Fields) (time : Option ℕ)
      → event_time rt row ≡ ok time
      → Chosen rows rest
      → Chosen (row ∷ rows) (cons_if (is_selected fl cutoff time) row rest)
  cons_if-Chosen row rows rest none timed (all, short) =
      (weaken row rows rest all, omega (arith, short))
  cons_if-Chosen row rows rest (some b) timed (all, short) =
      elim (Bool-cases (fl.at_most b cutoff)) [
        | inl before ↦ rw before (
          (
            record { found = inl refl; time = b; timed = timed; before = before },
            weaken row rows rest all,
          ),
          omega (arith, short),
        )
        | inr later ↦ rw later (weaken row rows rest all, omega (arith, short))
      ]

  select_rows-Chosen : (rows : List Fields) → Returns (Chosen rows) (select_rows fl rt cutoff rows)
  unfolding select_rows
  select_rows-Chosen [] = Returns-ok _ _ (tt, omega arith)
  select_rows-Chosen (row ∷ rows) = Returns->>= _ _ _ (λ time timed. Returns->>= _ _ _ (λ rest e.
      Returns-ok _ _ (
        cons_if-Chosen row rows rest time timed
          (Returns_at (Chosen rows) _ rest (select_rows-Chosen rows) e))))

-- The counts of an export add up.
pub record Accounts (result : ReplayExport) (rows output : List Fields) : Type 0 where
  pub all_read : result.read ≡ length rows
  pub all_written : result.exported ≡ length output
  pub none_lost : result.exported + result.unsupported ≡ result.before_cutoff
  pub some_selected : result.before_cutoff ≤ result.read

module _ (fl : Arithmetic) (rt : Runtime) (request : Request) (now : ℕ → String) where
  export_rows-Returns :
      (rows : List Fields)
      → Returns
          (λ (done : ReplayExport × List Fields).
            All (Exported fl rt request rows) (done.1) × Accounts (done.0) rows (done.1))
          (export_rows fl rt request now rows)
  unfolding export_rows
  export_rows-Returns rows = Returns->>= _ _ _ (λ selected e.
      let chosen =
        Returns_at (Chosen fl rt request.cutoff rows) _ selected
          (select_rows-Chosen fl rt request.cutoff rows) e in
      Returns->>= _ _ _ (λ loop e'.
        let looped =
          Returns_at (Loop fl rt request now rows selected) _ loop
            (replay_rows-Loop fl rt request now rows selected 0 (chosen.0)) e' in
        Returns-ok _ _ (
          looped.0,
          record {
            all_read = refl;
            all_written = refl;
            none_lost = looped.1;
            some_selected = chosen.1;
          },
        )))

ok_rows : (xs ys : List Fields) → ◌≡◌ {A = Result (List Fields)} (ok xs) (ok ys) → xs ≡ ys
ok_rows xs ys e = cc

module _ (fl : Arithmetic) (rt : Runtime) (config : ObserverConfig) (policy : TelemetryPolicy)
    (now : ℕ → String) (clock : Moment) (lines : List String) (cutoff : ℕ)
    (given : Option Moment) where
  abbrev pub the_request : Request
  the_request = request_for fl config policy cutoff (anchor_or given clock)

  abbrev Done : List Fields → ReplayExport × List Fields → Type 0
  Done rows (result, output) =
      All (Exported fl rt the_request rows) output × Accounts result rows output

  abbrev Sound : ReplayExport × List Fields → Type 0
  Sound (result, output) =
      (rows : List Fields)
      → read_jsonl rt lines ≡ ok rows
      → All (Exported fl rt the_request rows) output × Accounts result rows output

  export-Sound :
      Returns Sound (export_event_replay fl rt config policy now clock lines cutoff given)
  unfolding export_event_replay
  export-Sound =
      if_cases (Returns Sound) (is_refused fl cutoff (anchor_or given clock))
        (λ refused. Returns-err Sound value_error)
        (λ accepted. Returns->>= _ _ _ (λ rows e.
          Returns-weaken (Done rows) Sound _
            (λ done h rows' e'. subst (λ xs. Done xs done) (ok_rows rows rows' (sym e ∙ e')) h)
            (export_rows-Returns fl rt the_request now rows)))

  -- Each row that an export writes has none of the ten forbidden fields, is marked
  -- `payload_redacted` and as a replay of this cutoff, and is made by the loop's body from a row of
  -- the capture whose time is known and not after the cutoff. The counts add up: every row is
  -- counted as read, every output as exported, and each row up to the cutoff is exported or
  -- unsupported.
  pub export_sound :
      (rows : List Fields) (result : ReplayExport) (output : List Fields)
      → read_jsonl rt lines ≡ ok rows
      → export_event_replay fl rt config policy now clock lines cutoff given ≡ ok (result, output)
      → All (Exported fl rt the_request rows) output × Accounts result rows output
  export_sound rows result output read h =
      Returns_at Sound _ (result, output) export-Sound h rows read
