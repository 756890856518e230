-- ===== src/MessageProbe/Verdict.antt =====
-- What an answer of the scan says about the four lists, and when it is given.
use celery_diagnostics_obser.Prelude.{
  ℕ, ◌≤◌, String, pos, ◌≡◌, subst, ap, ◌∙◌, inl, inr, Bool, true, false, Bool-cases, Option, none,
  some, Option-cases, if_cases, List, [], ◌∷◌, ◌||◌, str_eq, All, arith, if◌then◌else◌,
}
use celery_diagnostics_obser.Result.{◌>>=◌, Result, ok, err, >>=_cases}
use celery_diagnostics_obser.Values.{Value, int}
use celery_diagnostics_obser.MessageProbe.{
  RedisClient, Decoders, keys, depth_of, Scan, unclear, found, clear, measure, scan, is_depth,
  unchanged, conclude, after_measure, positive_int, run_scan, redis_task_message_present,
}
use celery_diagnostics_obser.MessageProbe.Loops.{
  total, names, NoneIs, IsRead, FoundIn, Measured, measure-Measured, ScanSays, scan-ScanSays,
  depth_of-eq,
}

abbrev pub HadDepth : RedisClient → String × ℕ → Type 0
HadDepth r kd = r.llen_first kd.0 ≡ ok (int (pos kd.1))

abbrev pub HasDepth : RedisClient → String × ℕ → Type 0
HasDepth r kd = r.llen_again kd.0 ≡ ok (int (pos kd.1))

-- The four lists were measured, within the limit; every row was read and has another id; and every
-- list had its length again afterwards.
pub record IsAbsent (r : RedisClient) (d : Decoders) (queue task_id : String) (limit : ℕ)
    : Type 0 where
  pub depths : List (String × ℕ)
  pub named : names depths ≡ keys queue
  pub first : All (HadDepth r) depths
  pub bounded : total depths ≤ limit
  pub read : All (IsRead (NoneIs d task_id) r) depths
  pub again : All (HasDepth r) depths

-- The four lists were measured, within the limit, and a row of one of them has the task's id.
pub record IsPresent (r : RedisClient) (d : Decoders) (queue task_id : String) (limit : ℕ)
    : Type 0 where
  pub depths : List (String × ℕ)
  pub named : names depths ≡ keys queue
  pub first : All (HadDepth r) depths
  pub bounded : total depths ≤ limit
  pub found_in : FoundIn r d task_id depths

abbrev Answers : RedisClient → Decoders → String → String → ℕ → Result (Option Bool) → Type 0
Answers r d queue task_id limit (ok (some true)) = IsPresent r d queue task_id limit
Answers r d queue task_id limit (ok (some false)) = IsAbsent r d queue task_id limit
Answers r d queue task_id limit _ = Unit

abbrev Unchanged : RedisClient → List (String × ℕ) → Result Bool → Type 0
Unchanged r ds (ok true) = All (HasDepth r) ds
Unchanged r ds _ = Unit

is_depth-eq : (o : Option ℕ) (n : ℕ) → is_depth o n ≡ true → o ≡ some n
unfolding is_depth ◌>>=◌
is_depth-eq none n h = cc
is_depth-eq (some m) n h = ground arith

unchanged-Unchanged : (r : RedisClient) (ds : List (String × ℕ)) → Unchanged r ds (unchanged r ds)
unfolding unchanged ◌>>=◌
unchanged-Unchanged r [] = tt
unchanged-Unchanged r ((key, depth) ∷ ds) =
    >>=_cases (Unchanged r ((key, depth) ∷ ds)) (r.llen_again key) _ (λ _ _. tt)
      λ v e.
        if_cases (Unchanged r ((key, depth) ∷ ds)) (is_depth (depth_of v) depth)
          (λ same. go v e same (unchanged r ds) (unchanged-Unchanged r ds)) (λ _. tt)
  where
    go :
        (v : Value)
        → r.llen_again key ≡ ok v
        → is_depth (depth_of v) depth ≡ true
        → (rest : Result Bool) → Unchanged r ds rest
        → Unchanged r ((key, depth) ∷ ds) rest
    go v e same (ok true) h =
        (e ∙ ap ok (depth_of-eq v depth (is_depth-eq (depth_of v) depth same)), h)
    go v e same (ok false) h = tt
    go v e same (err x) h = tt

module _ (r : RedisClient) (d : Decoders) (queue task_id : String) (limit : ℕ) where
  after_measure-Answers :
      (o : Option (List (String × ℕ)))
      → Measured r limit 0 (keys queue) (ok o)
      → Answers r d queue task_id limit (after_measure r d task_id o)
  unfolding after_measure ◌>>=◌
  after_measure-Answers none m = tt
  after_measure-Answers (some ds) m =
      >>=_cases (Answers r d queue task_id limit) (scan r d task_id ds) _ (λ _ _. tt)
        λ s e. concluded s (subst (ScanSays r d task_id ds) e (scan-ScanSays r d task_id ds))
    where
      kept :
          (b : Bool)
          → Unchanged r ds (ok b)
          → All (IsRead (NoneIs d task_id) r) ds
          → Answers r d queue task_id limit (ok (if b then some false else none))
      kept true u h = record {
        depths = ds;
        named = m.0;
        first = m.1;
        bounded = omega arith;
        read = h;
        again = u;
      }
      kept false u h = tt

      concluded :
          (s : Scan)
          → ScanSays r d task_id ds (ok s)
          → Answers r d queue task_id limit (conclude r ds s)
      concluded unclear h = tt
      concluded found h = record {
        depths = ds;
        named = m.0;
        first = m.1;
        bounded = omega arith;
        found_in = h;
      }
      concluded clear h =
          >>=_cases (Answers r d queue task_id limit) (unchanged r ds) _ (λ _ _. tt)
            λ b e. kept b (subst (Unchanged r ds) e (unchanged-Unchanged r ds)) h

  run_scan-Answers : Answers r d queue task_id limit (run_scan r d queue task_id limit)
  unfolding run_scan ◌>>=◌
  run_scan-Answers =
      >>=_cases (Answers r d queue task_id limit) (measure r limit 0 (keys queue)) _ (λ _ _. tt)
        λ o e. after_measure-Answers o (
          subst (Measured r limit 0 (keys queue)) e
            (measure-Measured r limit 0 (keys queue) (omega arith)))

-- The answer comes from the loops, under the limit that was given.
answer-run_scan :
    (r : RedisClient) (d : Decoders) (queue task_id : String) (max_messages : Value) (b : Bool)
    → redis_task_message_present r d queue task_id max_messages ≡ ok (some b)
    → (limit : ℕ) × (positive_int max_messages ≡ some limit)
      × (run_scan r d queue task_id limit ≡ ok (some b))
unfolding redis_task_message_present ◌>>=◌
answer-run_scan r d queue task_id max_messages b h =
    elim (Bool-cases (str_eq queue "" || str_eq task_id "")) [
      | inl bad ↦ let wrong = rw bad at h in cc
      | inr good ↦ elim (Option-cases (positive_int max_messages)) [
        | inl e ↦ let wrong = rw (good, e) at h in cc
        | inr (limit, e) ↦ (limit, e, rw (good, e) at h)
      ]
    ]

-- An answer `False` says that the task is absent: all four lists were measured within the limit,
-- read in full with another id in every row, and found with their lengths unchanged afterwards. An
-- answer `True` says that a row of one of them has the id of the task.
pub answer_sound :
    (r : RedisClient) (d : Decoders) (queue task_id : String) (max_messages : Value) (b : Bool)
    → redis_task_message_present r d queue task_id max_messages ≡ ok (some b)
    → (limit : ℕ) × (positive_int max_messages ≡ some limit)
      × (if b then IsPresent r d queue task_id limit else IsAbsent r d queue task_id limit)
answer_sound r d queue task_id max_messages b h =
    let (limit, e, ran) = answer-run_scan r d queue task_id max_messages b h in
    (
      limit,
      e,
      of_answer b limit
          (subst (Answers r d queue task_id limit) ran (run_scan-Answers r d queue task_id limit)),
    )
  where
    of_answer :
        (b : Bool) (limit : ℕ)
        → Answers r d queue task_id limit (ok (some b))
        → if b then IsPresent r d queue task_id limit else IsAbsent r d queue task_id limit
    of_answer true limit a = a
    of_answer false limit a = a
