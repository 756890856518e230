-- ===== src/MessageProbe/Loops.antt =====
-- What each loop of the scan says about the lists that it went through.
use celery_diagnostics_obser.Prelude.{
  ℕ, ◌+◌, ◌≤◌, String, pos, ◌≡◌, ◌≢◌, ◌⊎◌, refl, subst, ap, ◌∙◌, inl, inr, Option, none, some,
  if_cases, List, [], ◌∷◌, ltb, ◌==◌, str_eq, eq_iff, All, arith,
}
use celery_diagnostics_obser.Result.{◌>>=◌, Result, ok, err, >>=_cases}
use celery_diagnostics_obser.Values.{Value, int, Items, nil, cons}
use celery_diagnostics_obser.MessageProbe.{
  RedisClient, Decoders, depth_of, message_id, Scan, unclear, found, clear, scan_rows, length_items,
  rows_of, scan_sequence, scan_value, fetch, cons_depth, measure_next, measure, scan_row, scan_next,
  scan,
}

abbrev pub total : List (String × ℕ) → ℕ
total [] = 0
total ((key, depth) ∷ ds) = depth + total ds

abbrev pub names : List (String × ℕ) → List String
names [] = []
names ((key, depth) ∷ ds) = key ∷ names ds

-- Every row has an id, and none is the task's.
abbrev pub NoneIs : Decoders → String → Items → Type 0
NoneIs d task_id nil = Unit
NoneIs d task_id (cons row rows) =
    ((id : String) × (message_id d row ≡ some id) × (id ≢ task_id)) × NoneIs d task_id rows

pub depth_of-eq : (v : Value) (n : ℕ) → depth_of v ≡ some n → v ≡ int (pos n)
unfolding depth_of ◌>>=◌
depth_of-eq (int (pos m)) n h = ap (λ k. int (pos k)) (ground arith)
depth_of-eq _ n h = cc

-- The first loop: the depths are those of the keys, in order, and stay within the limit.
abbrev pub Measured :
    RedisClient → ℕ → ℕ → List String → Result (Option (List (String × ℕ))) → Type 0
Measured r limit sum ks (ok (some ds)) =
    (names ds ≡ ks)
    × All (λ kd. r.llen_first kd.0 ≡ ok (int (pos kd.1))) ds
    × (sum + total ds ≤ limit)
Measured r limit sum ks _ = Unit {0}

module _ (r : RedisClient) (limit : ℕ) where
  cons_depth-Measured :
      (sum : ℕ) (key : String) (ks : List String) (depth : ℕ) (o : Option (List (String × ℕ)))
      → r.llen_first key ≡ ok (int (pos depth))
      → Measured r limit (sum + depth) ks (ok o)
      → Measured r limit sum (key ∷ ks) (ok (cons_depth key depth o))
  unfolding cons_depth ◌>>=◌
  cons_depth-Measured sum key ks depth none h m = tt
  cons_depth-Measured sum key ks depth (some ds) h m =
      (ap (◌∷◌ key) m.0, (h, m.1), omega (arith, m.2))

  measure_next-Measured :
      (sum : ℕ) (key : String) (ks : List String) (v : Value) (o : Option ℕ)
      → r.llen_first key ≡ ok v
      → depth_of v ≡ o
      → (rest : ℕ → Result (Option (List (String × ℕ))))
      → ((t : ℕ) → t ≤ limit → Measured r limit t ks (rest t))
      → Measured r limit sum (key ∷ ks) (measure_next limit sum key o rest)
  unfolding measure_next ◌>>=◌
  measure_next-Measured sum key ks v none e n rest h = tt
  measure_next-Measured sum key ks v (some depth) e n rest h =
      if_cases (Measured r limit sum (key ∷ ks)) (ltb limit (sum + depth)) (λ _. tt)
        λ fits.
          >>=_cases (Measured r limit sum (key ∷ ks)) (rest (sum + depth)) _ (λ _ _. tt)
            λ o done. cons_depth-Measured sum key ks depth o (e ∙ ap ok (depth_of-eq v depth n)) (
              subst (Measured r limit (sum + depth) ks) done
                (h (sum + depth) (ground (arith, fits))))

  pub measure-Measured :
      (sum : ℕ) (ks : List String) → sum ≤ limit → Measured r limit sum ks (measure r limit sum ks)
  unfolding measure ◌>>=◌
  measure-Measured sum [] h = (refl, tt, omega arith)
  measure-Measured sum (key ∷ ks) h =
      >>=_cases (Measured r limit sum (key ∷ ks)) (r.llen_first key) _ (λ _ _. tt)
        λ v e.
          measure_next-Measured sum key ks v (depth_of v) e refl (λ t. measure r limit t ks)
            (λ t fits. measure-Measured t ks fits)

-- Some row has the task's id.
abbrev pub HasId : Decoders → String → Items → Type 0
HasId d task_id nil = ⊥
HasId d task_id (cons row rows) = (message_id d row ≡ some task_id) ⊎ HasId d task_id rows

-- A list as it was read: its rows, as many as measured, of which `P` holds.
pub record IsRead (P : Items → Type 0) (r : RedisClient) (kd : String × ℕ) : Type 0 where
  pub value : Value
  pub rows : Items
  pub fetched : fetch r kd.0 kd.1 ≡ ok value
  pub is_rows : rows_of value ≡ some rows
  pub all_rows : length_items rows ≡ kd.1
  pub holds : P rows

-- A row of one of the lists has the task's id.
abbrev pub FoundIn : RedisClient → Decoders → String → List (String × ℕ) → Type 0
FoundIn r d task_id [] = ⊥
FoundIn r d task_id (kd ∷ ds) = IsRead (HasId d task_id) r kd ⊎ FoundIn r d task_id ds

abbrev RowsSay : Decoders → String → Items → Scan → Type 0
RowsSay d task_id rows unclear = Unit
RowsSay d task_id rows found = HasId d task_id rows
RowsSay d task_id rows clear = NoneIs d task_id rows

abbrev ListSays : RedisClient → Decoders → String → String × ℕ → Scan → Type 0
ListSays r d task_id kd unclear = Unit
ListSays r d task_id kd found = IsRead (HasId d task_id) r kd
ListSays r d task_id kd clear = IsRead (NoneIs d task_id) r kd

abbrev pub ScanSays : RedisClient → Decoders → String → List (String × ℕ) → Result Scan → Type 0
ScanSays r d task_id ds (ok found) = FoundIn r d task_id ds
ScanSays r d task_id ds (ok clear) = All (IsRead (NoneIs d task_id) r) ds
ScanSays r d task_id ds _ = Unit

module _ (r : RedisClient) (d : Decoders) (task_id : String) where
  scan_row-RowsSay :
      (row : Value) (rows : Items) (o : Option String) (rest : Scan)
      → message_id d row ≡ o
      → RowsSay d task_id rows rest
      → RowsSay d task_id (cons row rows) (scan_row task_id o rest)
  unfolding scan_row ◌>>=◌
  scan_row-RowsSay row rows none rest e h = tt
  scan_row-RowsSay row rows (some id) rest e h =
      if_cases (RowsSay d task_id (cons row rows)) (str_eq id task_id)
        (λ same. inl (e ∙ ap some ((eq_iff id task_id).0 same)))
        (λ differs. go rest (id, e, λ p. cc ((eq_iff id task_id).1 p, differs)) h)
    where
      go :
          (rest : Scan)
          → (id : String) × (message_id d row ≡ some id) × (id ≢ task_id)
          → RowsSay d task_id rows rest
          → RowsSay d task_id (cons row rows) rest
      go unclear n h = tt
      go found n h = inr h
      go clear n h = (n, h)

  scan_rows-RowsSay : (rows : Items) → RowsSay d task_id rows (scan_rows d task_id rows)
  unfolding scan_rows ◌>>=◌
  scan_rows-RowsSay nil = tt
  scan_rows-RowsSay (cons row rows) =
      scan_row-RowsSay row rows (message_id d row) (scan_rows d task_id rows) refl
        (scan_rows-RowsSay rows)

  scan_sequence-ListSays :
      (key : String) (depth : ℕ) (v : Value) (o : Option Items)
      → fetch r key depth ≡ ok v
      → rows_of v ≡ o
      → ListSays r d task_id (key, depth) (scan_sequence d task_id depth o)
  unfolding scan_sequence ◌>>=◌
  scan_sequence-ListSays key depth v none e h = tt
  scan_sequence-ListSays key depth v (some rows) e h =
      if_cases (ListSays r d task_id (key, depth)) (length_items rows == depth)
        (λ all. go (scan_rows d task_id rows) (ground (arith, all)) (scan_rows-RowsSay rows))
        (λ _. tt)
    where
      read : {P : Items → Type 0} → length_items rows ≡ depth → P rows → IsRead P r (key, depth)
      read all p = record {
        value = v;
        rows = rows;
        fetched = e;
        is_rows = h;
        all_rows = all;
        holds = p;
      }

      go :
          (s : Scan)
          → length_items rows ≡ depth
          → RowsSay d task_id rows s
          → ListSays r d task_id (key, depth) s
      go unclear all p = tt
      go found all p = read all p
      go clear all p = read all p

  pub scan-ScanSays : (ds : List (String × ℕ)) → ScanSays r d task_id ds (scan r d task_id ds)
  unfolding scan scan_value ◌>>=◌
  scan-ScanSays [] = tt
  scan-ScanSays ((key, depth) ∷ ds) =
      >>=_cases (ScanSays r d task_id ((key, depth) ∷ ds)) (fetch r key depth) _ (λ _ _. tt)
        λ v e.
          next (scan_sequence d task_id depth (rows_of v)) (scan r d task_id ds)
            (scan_sequence-ListSays key depth v (rows_of v) e refl) (scan-ScanSays ds)
    where
      next :
          (s : Scan) (rest : Result Scan)
          → ListSays r d task_id (key, depth) s
          → ScanSays r d task_id ds rest
          → ScanSays r d task_id ((key, depth) ∷ ds) (scan_next s rest)
      next unclear rest l h = unfold scan_next in tt
      next found rest l h = unfold scan_next in inl l
      next clear (err e) l h = unfold scan_next in tt
      next clear (ok unclear) l h = unfold scan_next in tt
      next clear (ok found) l h = unfold scan_next in inr h
      next clear (ok clear) l h = unfold scan_next in (l, h)
