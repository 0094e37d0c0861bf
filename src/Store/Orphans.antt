-- ===== src/Store/Orphans.antt =====
-- core/src/store/mod.rs: what opening a store does to the rows that stopped runs left behind.
use core_tempo.Common.{
  ◌≡◌, refl, ◌∙◌, inl, inr, true, false, not, ◌||◌, List, [], ◌∷◌, Option, none, some, arith, any,
  all, string_eq, option_eq, Bool-cases, if◌then◌else◌,
}
use core_tempo.Types.Ids.{MessageId, Timestamp}
use core_tempo.Store.{
  Row, Run, Store, has_id, is_pending, is_orphan, of_stopped_run, fail_orphan, sweep_rows,
  reconcile_orphans,
}
use core_tempo.Store.Rows.{Unique}

any-sweep_rows :
    (id : MessageId) (runs : List Run) (now : Timestamp) (rows : List Row)
    → any (has_id id) (sweep_rows runs now rows) ≡ any (has_id id) rows
unfolding sweep_rows
any-sweep_rows id runs now [] = refl
any-sweep_rows id runs now (row ∷ rows) = ground (arith, any-sweep_rows id runs now rows)

pub sweep_rows-Unique :
    (runs : List Run) (now : Timestamp) (rows : List Row)
    → Unique rows
    → Unique (sweep_rows runs now rows)
unfolding sweep_rows
sweep_rows-Unique runs now [] u = tt
sweep_rows-Unique runs now (row ∷ rows) u = elim (Bool-cases (is_orphan runs row)) [
  | inl orphan ↦
      rw orphan
        (any-sweep_rows row.message.id runs now rows ∙ u.0, sweep_rows-Unique runs now rows u.1)
  | inr other ↦
      rw other
        (any-sweep_rows row.message.id runs now rows ∙ u.0, sweep_rows-Unique runs now rows u.1)
]

-- The row that a sweep leaves for one.
abbrev pub swept : List Run → Timestamp → Option Row → Option Row
swept runs now none = none
swept runs now (some row) = some (if is_orphan runs row then fail_orphan now row else row)

sweep_rows_clean :
    (runs : List Run) (now : Timestamp) (rows : List Row)
    → any (is_orphan runs) rows ≡ false
    → sweep_rows runs now rows ≡ rows
unfolding sweep_rows
sweep_rows_clean runs now [] h = refl
sweep_rows_clean runs now (row ∷ rows) h = ground (arith, sweep_rows_clean runs now rows)

-- The check before the update changes nothing.
pub reconcile_orphans-rows :
    (s : Store) (now : Timestamp)
    → reconcile_orphans s now ≡ record s { rows = sweep_rows s.runs now s.rows }
unfolding reconcile_orphans
reconcile_orphans-rows s now = elim (Bool-cases (any (is_orphan s.runs) s.rows)) [
  | inl some_left ↦ rw some_left refl
  | inr clean ↦ rw (clean, sweep_rows_clean s.runs now s.rows clean) refl
]

-- Where each message that has not ended is of a stopped run, none is left.
pub sweep_rows-ended :
    (runs : List Run) (now : Timestamp) (rows : List Row)
    → all (λ row. not (is_pending row) || of_stopped_run runs row.run_id) rows ≡ true
    → any is_pending (sweep_rows runs now rows) ≡ false
unfolding sweep_rows is_orphan
sweep_rows-ended runs now [] h = refl
sweep_rows-ended runs now (row ∷ rows) h = ground (arith, sweep_rows-ended runs now rows)
