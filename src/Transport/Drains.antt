-- ===== src/Transport/Drains.antt =====
-- transport.py: flushes to a backend that takes each batch empty the transport.
use celery_diagnostics_obser.Prelude.{
  ℕ, zero, suc, ◌+◌, ◌-◌, ◌≤◌, String, true, false, Option, none, some, List, [], ◌∷◌, ◌++◌, map,
  drop, length, ◌≡◌, refl, ap, ap₂, sym, ◌∙◌, All, ◌⊎◌, inl, inr, arith, subst,
}
use celery_diagnostics_obser.Values.{Fields}
use celery_diagnostics_obser.Config.{ObserverConfig}
use celery_diagnostics_obser.Spool.{
  Json, JsonlSpool, lines_or_nil, rewrite, decode_lines, pop_lines, pop_many,
}
use celery_diagnostics_obser.Spool.Contents.{stored}
use celery_diagnostics_obser.Transport.{
  ObserverTransport, RetryState, World, delivered, Outcome, flush_once, idle, sent, send, post,
  retry_batch, is_waiting, drain_batch, drain_retry, take_spool, take_buffer, without_project_key,
}
use celery_diagnostics_obser.Transport.Flushes.{flush_ready}
use celery_diagnostics_obser.Transport.Held.{Call, flushes, step, run, held, stored_in}

abbrev pub spool_length : Option JsonlSpool → ℕ
spool_length none = 0
spool_length (some s) = length (lines_or_nil s.lines)

-- The lines of the spool and the events of the buffer.
abbrev pub rest : ObserverTransport → ℕ
rest t = spool_length t.spool + length t.buffer

-- With the batch that waits for a retry.
abbrev pub left : ObserverTransport → ℕ
left t = length (retry_batch t.retry_state) + rest t

length-drop {ℓ} : {A : Type ℓ} (n : ℕ) (xs : List A) → length (drop n xs) ≡ length xs - n
length-drop zero xs = omega arith
length-drop (suc n) [] = omega arith
length-drop (suc n) (x ∷ xs) = omega (arith, length-drop n xs)

length-rewrite : (xs : List String) → length (lines_or_nil (rewrite xs)) ≡ length xs
length-rewrite [] = refl
length-rewrite (x ∷ xs) = refl

nil_of : (xs : List Fields) → length xs ≡ 0 → xs ≡ []
nil_of [] h = refl
nil_of (x ∷ xs) h = absurd (omega (arith, h))

module _ (json : Json) where
  no_lines :
      (ls : Option (List String))
      → length (lines_or_nil ls) ≡ 0
      → decode_lines json (lines_or_nil ls) ≡ []
  unfolding decode_lines
  no_lines none h = refl
  no_lines (some []) h = refl
  no_lines (some (l ∷ ls)) h = absurd (omega (arith, h))

  stored_none : (s : Option JsonlSpool) → spool_length s ≡ 0 → stored_in json s ≡ []
  unfolding stored
  stored_none none h = refl
  stored_none (some s) h = no_lines s.lines h

  -- What counts as nothing left holds nothing.
  none_held : (t : ObserverTransport) → left t ≡ 0 → held json t ≡ []
  none_held t h =
      let retry = nil_of (retry_batch t.retry_state) (omega (arith, h)) in
      let spool = stored_none t.spool (omega (arith, h)) in
      let buffer = nil_of t.buffer (omega (arith, h)) in
      ap₂ (λ waits others. waits ++ others) retry
        (ap₂ (λ stored_events buffered_events. stored_events ++ buffered_events) spool buffer)

-- The backend takes the post, and this retry does not wait.
abbrev pub IsReady : Option RetryState → World → Type 0
IsReady r w = (w.reply ≡ delivered) × (is_waiting w.now r ≡ false)

still-IsReady :
    (r r' : Option RetryState) (ws : List World)
    → (r' ≡ none) ⊎ (r' ≡ r)
    → All (IsReady r) ws
    → All (IsReady r') ws
unfolding is_waiting
still-IsReady r r' [] h all = tt
still-IsReady r r' (w ∷ ws) (inl e) ((good, ready), all) =
    ((good, ap (is_waiting w.now) e), still-IsReady r r' ws (inl e) all)
still-IsReady r r' (w ∷ ws) (inr e) ((good, ready), all) =
    ((good, ap (is_waiting w.now) e ∙ ready), still-IsReady r r' ws (inr e) all)

abbrev pub forced : World → Call × World
forced w = (flushes true, w)

module _ (json : Json) (c : ObserverConfig) (some_size : 1 ≤ c.batch_size) where
  take_buffer-rest :
      (batch : List Fields) (t : ObserverTransport)
      → rest ((take_buffer c batch t).1)
        ≡ spool_length t.spool + (length t.buffer - (c.batch_size - length batch))
  unfolding take_buffer
  take_buffer-rest batch t =
      ap (λ (n : ℕ). spool_length t.spool + n) (length-drop (c.batch_size - length batch) t.buffer)

  -- What is popped from a spool leaves at least one line less in it; an empty one gives nothing.
  abbrev Pops : Option (List String) → List Fields × JsonlSpool → Type 0
  Pops ls (batch, s) =
      (length (lines_or_nil s.lines) ≤ length (lines_or_nil ls) - 1)
      × ((length (lines_or_nil ls) ≡ 0) → batch ≡ [])

  pop_lines-Pops : (n : ℕ) (ls : Option (List String)) → 1 ≤ n → Pops ls (pop_lines json n ls)
  unfolding pop_lines decode_lines
  pop_lines-Pops zero ls h = absurd (omega arith)
  pop_lines-Pops (suc n) none h = (omega arith, λ e. refl)
  pop_lines-Pops (suc n) (some []) h = (omega arith, λ e. refl)
  pop_lines-Pops (suc n) (some (l ∷ ls)) h =
      (omega (arith, length-rewrite (drop n ls), length-drop n ls), λ e. absurd (omega (arith, e)))

  -- Draining without a batch that waits leaves less than before, if there is anything.
  drained-rest :
      (batch : List Fields) (t : ObserverTransport) (lines : ℕ)
      → spool_length t.spool ≤ lines - 1
      → ((lines ≡ 0) → batch ≡ [])
      → rest ((take_buffer c batch t).1) ≤ (lines + length t.buffer) - 1
  drained-rest batch t zero less empty =
      let none_popped = ap length (empty refl) in
      omega (arith, less, none_popped, some_size, take_buffer-rest batch t)
  drained-rest batch t (suc n) less empty = omega (arith, less, take_buffer-rest batch t)

  pop_many-Pops : (s : JsonlSpool) → Pops s.lines (pop_many json s c.batch_size)
  unfolding pop_many pop_lines
  pop_many-Pops s = pop_lines-Pops c.batch_size s.lines some_size

  take_spool-rest :
      (t : ObserverTransport) (s : Option JsonlSpool)
      → t.spool ≡ s
      → rest ((take_spool json c s t).1) ≤ (spool_length s + length t.buffer) - 1
  unfolding take_spool
  take_spool-rest t none e =
      let no_spool = ap spool_length e in drained-rest [] t 0 (omega (arith, no_spool)) (λ z. refl)
  take_spool-rest t (some s) e =
      let pops = pop_many-Pops s in
      drained-rest ((pop_many json s c.batch_size).0)
        (record t { spool = some ((pop_many json s c.batch_size).1) })
        (length (lines_or_nil s.lines)) (pops.0) (pops.1)

  take_spool-retry :
      (t : ObserverTransport) (s : Option JsonlSpool)
      → (take_spool json c s t).1.retry_state ≡ t.retry_state
  unfolding take_spool take_buffer
  take_spool-retry t none = refl
  take_spool-retry t (some s) = refl

  -- What a flush that is not kept back leaves.
  abbrev Less : ObserverTransport → Outcome → Type 0
  Less t o =
      (left o.state ≤ left t - 1)
      × ((o.state.retry_state ≡ none) ⊎ (o.state.retry_state ≡ t.retry_state))

  module _ (w : World) (good : w.reply ≡ delivered) where
    sent-Less :
        (batch : List Fields) (t t' : ObserverTransport)
        → t'.retry_state ≡ t.retry_state
        → rest t' ≤ left t - 1
        → (length batch ≡ 0 → length (retry_batch t.retry_state) ≡ 0)
        → Less t (send json w (batch, t'))
    unfolding send post sent idle
    sent-Less [] t t' same less none_waits =
        let none_waits' = none_waits refl in
        let same_batch = ap (λ r. length (retry_batch r)) same in
        (omega (arith, less, none_waits', same_batch), inr same)
    sent-Less (e ∷ es) t t' same less none_waits =
        subst (λ r. Less t (post json w r (map without_project_key (e ∷ es)) t')) (sym good)
          (omega (arith, less), inl refl)

    drained-Less :
        (t : ObserverTransport) (waiting : List Fields)
        → retry_batch t.retry_state ≡ waiting
        → Less t (send json w (drain_retry json c waiting t))
    unfolding drain_retry
    drained-Less t [] e =
        let none_waits = ap length e in
        sent-Less _ t _ (take_spool-retry t t.spool)
          (omega (arith, none_waits, take_spool-rest t t.spool refl)) (λ h. none_waits)
    drained-Less t (x ∷ xs) e =
        let some_wait = ap length e in
        sent-Less (x ∷ xs) t t refl (omega (arith, some_wait)) (λ h. absurd (omega (arith, h)))

    flush-Less :
        (t : ObserverTransport)
        → c.dry_run ≡ false
        → is_waiting w.now t.retry_state ≡ false
        → Less t (flush_once json c true w t)
    unfolding drain_batch
    flush-Less t live ready =
        subst (Less t) (sym (flush_ready json c live w t ready))
          (drained-Less t (retry_batch t.retry_state) refl)

  none_left :
      (ws : List World) (t : ObserverTransport)
      → c.dry_run ≡ false
      → All (IsReady t.retry_state) ws
      → left t ≤ length ws
      → left ((run json c (map forced ws) t).1) ≡ 0
  unfolding run step
  none_left [] t live all enough = omega (arith, enough)
  none_left (w ∷ ws) t live ((good, ready), all) enough =
      let less = flush-Less w good t live ready in
      none_left ws (flush_once json c true w t).state live (still-IsReady _ _ ws (less.1) all)
        (omega (arith, less.0, enough))

  -- As many forced flushes as there are events and lines left (the batch that waits for a retry, the
  -- lines of the spool and the buffer) empty the transport, if the backend takes each post, each
  -- flush comes no sooner than the retry may, it is no dry run, and the batch size is not 0: nothing
  -- is held any more.
  pub drains :
      (ws : List World) (t : ObserverTransport)
      → c.dry_run ≡ false
      → All (IsReady t.retry_state) ws
      → left t ≤ length ws
      → held json ((run json c (map forced ws) t).1) ≡ []
  drains ws t live all enough =
      none_held json ((run json c (map forced ws) t).1) (none_left ws t live all enough)
