-- ===== src/Beat/Scheduler/Complete.antt =====
-- beat.py: when a snapshot says that it holds the whole schedule.
use celery_diagnostics_obser.Prelude.{
  ℕ, ◌≤◌, Bool, true, false, some, List, [], ◌∷◌, take, length, length-take, leb→le, str_eq, ◌≡◌,
  refl, ap, sym, ◌∙◌, All, arith, subst, take_all, inl, inr, Bool-cases,
}
use celery_diagnostics_obser.Result.{
  Result, ok, Returns, Returns->>=, Returns-ok, Returns_at, Returns-weaken,
}
use celery_diagnostics_obser.Values.{Value, bool, list, Fields}
use celery_diagnostics_obser.Values.Dict.{get, get?}
use celery_diagnostics_obser.Runtime.{text_or_empty}
use celery_diagnostics_obser.Beat.{ScheduleEntry}
use celery_diagnostics_obser.Beat.Entries.{Adapter, Clocks}
use celery_diagnostics_obser.Beat.Snapshots.{
  Schedule, schedule_items, schedule_entries, entries_of, schedule_entry_count, snapshot_event,
  snapshot_raw, as_items, max_schedule_snapshot_entries,
}

module _ (a : Adapter) where
  -- The entry has a task.
  abbrev pub HasTask : Value × ScheduleEntry → Type 0
  HasTask (name, entry) = str_eq (text_or_empty a.runtime entry.task) "" ≡ false

  -- At most one item for each entry, and one for each only if every entry has a task.
  record Itemised (items : List (Value × ScheduleEntry)) (entries : List Fields) : Type 0 where
    at_most : length entries ≤ length items
    all_named : length items ≤ length entries → All HasTask items

  module _ (now : Clocks) where
    skip_unnamed :
        (name : Value) (entry : ScheduleEntry) (items : List (Value × ScheduleEntry))
        (entries : List Fields)
        → Itemised items entries
        → Itemised ((name, entry) ∷ items) entries
    skip_unnamed name entry items entries h = record {
      at_most = omega (arith, h.at_most);
      all_named = λ k. absurd (omega (arith, k, h.at_most));
    }

    add_named :
        (name : Value) (entry : ScheduleEntry) (items : List (Value × ScheduleEntry))
        (item : Fields) (entries : List Fields)
        → str_eq (text_or_empty a.runtime entry.task) "" ≡ false
        → Itemised items entries
        → Itemised ((name, entry) ∷ items) (item ∷ entries)
    add_named name entry items item entries named h = record {
      at_most = omega (arith, h.at_most);
      all_named = λ k. (named, h.all_named (omega (arith, k)));
    }

    schedule_items-Itemised :
        (items : List (Value × ScheduleEntry))
        → Returns (Itemised items) (schedule_items a now items)
    unfolding schedule_items
    schedule_items-Itemised [] =
        Returns-ok _ _ (record { at_most = omega arith; all_named = λ k. tt })
    schedule_items-Itemised ((name, entry) ∷ items) =
        elim (Bool-cases (str_eq (text_or_empty a.runtime entry.task) "")) [
          | inl unnamed ↦ rw unnamed (
              Returns-weaken (Itemised items) (Itemised ((name, entry) ∷ items)) _
                (λ entries h. skip_unnamed name entry items entries h)
                (schedule_items-Itemised items))
          | inr named ↦ rw named (
              Returns->>= _ _ _ (λ item e. Returns->>= _ _ _ (λ entries e'. Returns-ok _ _ (
                add_named name entry items item entries named
                  (Returns_at (Itemised items) _ entries (schedule_items-Itemised items) e')))))
        ]

  -- The schedule has at most 200 entries, each with a task, and the snapshot holds an item for each.
  pub record IsComplete (items : List (Value × ScheduleEntry)) (raw : Fields) : Type 0 where
    pub within : length items ≤ max_schedule_snapshot_entries
    pub named : All HasTask items
    pub entries : List Fields
    pub held : get "beat_schedule_entries" raw ≡ list (as_items entries)
    pub every : length entries ≡ length items

  module _ (now : Clocks) (schedule : Schedule) (items : List (Value × ScheduleEntry))
      (listed : schedule.items ≡ some items) (sized : schedule.size ≡ ok (length items)) where
    abbrev first_items : List (Value × ScheduleEntry)
    first_items = take max_schedule_snapshot_entries items

    abbrev IfFlagged : Fields → Type 0
    IfFlagged raw = get "beat_schedule_snapshot_complete" raw ≡ bool true → IsComplete items raw

    entries-Itemised : Returns (Itemised first_items) (schedule_entries a now schedule)
    unfolding schedule_entries
    entries-Itemised =
        subst (λ o. Returns (Itemised first_items) (entries_of a now o)) (sym listed)
          (schedule_items-Itemised now first_items)

    total_is :
        (fallback total : ℕ)
        → schedule_entry_count schedule.size fallback ≡ ok total
        → length items ≡ total
    unfolding schedule_entry_count
    total_is fallback total h =
        ok_count _ _ (ap (λ r. schedule_entry_count r fallback) (sym sized) ∙ h)
      where
        ok_count : (m n : ℕ) → ◌≡◌ {A = Result ℕ} (ok m) (ok n) → m ≡ n
        ok_count m n e = cc

    IsComplete-if :
        (entries : List Fields)
        → Itemised first_items entries
        → length items ≤ length entries
        → IsComplete items (snapshot_event a now entries (length items))
    unfolding snapshot_event get?
    IsComplete-if entries h enough =
        let short = length-take max_schedule_snapshot_entries items in
        let within : length items ≤ max_schedule_snapshot_entries =
          omega (arith, short, h.at_most, enough) in
        let whole = take_all max_schedule_snapshot_entries items within in
        record {
          within = within;
          named = subst (All HasTask) whole (h.all_named (omega (arith, short, enough)));
          entries = entries;
          held = refl;
          every = omega (arith, short, h.at_most, enough);
        }

    flagged :
        (entries : List Fields) (total : ℕ)
        → get "beat_schedule_snapshot_complete" (snapshot_event a now entries total) ≡ bool true
        → total ≤ length entries
    unfolding snapshot_event get?
    flagged entries total h = leb→le _ _ (bool_same _ _ h)
      where
        bool_same : (b c : Bool) → ◌≡◌ {A = Value} (bool b) (bool c) → b ≡ c
        bool_same b c e = cc

    snapshot-IfFlagged : Returns IfFlagged (snapshot_raw a now schedule)
    unfolding snapshot_raw
    snapshot-IfFlagged = Returns->>= _ _ _ (λ entries e. Returns->>= _ _ _ (λ total e'.
        let itemised = Returns_at (Itemised first_items) _ entries entries-Itemised e in
        let same = total_is (length entries) total e' in
        Returns-ok IfFlagged _ (λ flag.
          subst (λ n. IsComplete items (snapshot_event a now entries n)) same
            (IsComplete-if entries itemised (omega (arith, same, flagged entries total flag))))))

    -- A snapshot that says it is complete is so: if the schedule lists its entries and its length is
    -- their number, there are at most 200, each has a task, and the snapshot holds an item for each.
    pub snapshot-IsComplete :
        (raw : Fields)
        → snapshot_raw a now schedule ≡ ok raw
        → get "beat_schedule_snapshot_complete" raw ≡ bool true
        → IsComplete items raw
    snapshot-IsComplete raw made flag = Returns_at IfFlagged _ raw snapshot-IfFlagged made flag
