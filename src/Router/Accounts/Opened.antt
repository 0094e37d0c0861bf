-- ===== src/Router/Accounts/Opened.antt =====
-- core/src/router/mod.rs and core/src/store/mod.rs: a run that begins on a store just opened, beside runs
-- that are still live in it.
use core_tempo.Common.{
  ◌≡◌, refl, Bool, false, ◌&&◌, List, [], ◌∷◌, arith, find, any, count, string_eq, option_eq, All,
  Bool-cases, inl, inr,
}
use core_tempo.Common.Dict
use core_tempo.Common.KeySet
use core_tempo.Types.Ids.{MessageId, Timestamp, RunId}
use core_tempo.Types.Message.{kind_eq, origin_eq}
use core_tempo.Types.Config.{FrozenWorkflow}
use core_tempo.Bus.{Bus}
use core_tempo.Store.{
  Row, Run, Store, has_id, in_run, is_pending, is_orphan, reconcile_orphans, sweep_rows,
}
use core_tempo.Store.Rows.{Unique, test}
use core_tempo.Store.Orphans.{reconcile_orphans-rows, sweep_rows-Unique}
use core_tempo.Router.State.{Moment, Router}
use core_tempo.Router.State
use core_tempo.Router.Steps.{Call, run}
use core_tempo.Router.Accounts.{Accounts, is_foreign, is_open, asked_by, owed_by}
use core_tempo.Router.Accounts.Run.{NamesOwn, run-Accounts}

-- A message of the run that has not ended.
abbrev pub is_going : RunId → Row → Bool
is_going run row = is_pending row && in_run run row

-- The live messages of other runs.
abbrev pub peers_of : Store → MessageId → Bool
peers_of db id = test (is_foreign db.run_id) (find (has_id id) db.rows)

count_of_ended :
    (going p : Row → Bool) (rows : List Row)
    → ((row : Row) → going row ≡ false → p row ≡ false)
    → any going rows ≡ false
    → count p rows ≡ 0
count_of_ended going p [] only h = refl
count_of_ended going p (row ∷ rows) only h =
    ground (arith, only row, count_of_ended going p rows only)

test_of_ended :
    (going p : Row → Bool) (id : MessageId) (rows : List Row)
    → ((row : Row) → going row ≡ false → p row ≡ false)
    → any going rows ≡ false
    → test p (find (has_id id) rows) ≡ false
test_of_ended going p id [] only h = refl
test_of_ended going p id (row ∷ rows) only h =
    ground (arith, only row, test_of_ended going p id rows only)

sweep_rows-none_going :
    (run : RunId) (runs : List Run) (now : Timestamp) (rows : List Row)
    → any (is_going run) rows ≡ false
    → any (is_going run) (sweep_rows runs now rows) ≡ false
unfolding sweep_rows
sweep_rows-none_going run runs now [] h = refl
sweep_rows-none_going run runs now (row ∷ rows) h =
    let rest = sweep_rows-none_going run runs now rows (ground (arith, h)) in
    elim (Bool-cases (is_orphan runs row)) [
      | inl orphan ↦ rw (orphan, rest) (ground arith)
      | inr kept ↦ rw (kept, rest) (ground (arith, h))
    ]

new-Accounts :
    (db : Store) (bus : Bus) (workflow : FrozenWorkflow) (now : Timestamp)
    → Unique db.rows
    → any (is_going db.run_id) db.rows ≡ false
    → Accounts
        (peers_of (reconcile_orphans db now))
        (State.new (reconcile_orphans db now) bus workflow)
unfolding State.new KeySet.member Dict.lookup
new-Accounts db bus workflow now unique fresh =
    let rows = sweep_rows db.runs now db.rows in
    let none_going = sweep_rows-none_going db.run_id db.runs now db.rows fresh in
    let going = is_going db.run_id in
    rw (reconcile_orphans-rows db now) (record {
      unique = sweep_rows-Unique db.runs now db.rows unique;
      counted = λ a.
          rw
            (count_of_ended going (asked_by db.run_id a) rows (λ row h. ground (arith, h))
              none_going)
            refl;
      owing = λ a id.
          rw
            (test_of_ended going (owed_by db.run_id a) id rows (λ row h. ground (arith, h))
              none_going)
            refl;
      timed = λ id.
          rw
            (test_of_ended going (is_open db.run_id) id rows (λ row h. ground (arith, h))
              none_going)
            refl;
      apart = λ id. refl;
      mine = tt;
    })

-- A run is begun on a store just opened, in which it has nothing going yet and identifiers are unique, as
-- the primary key has it; other runs may be live in it, or have left live rows that opening does not fail.
-- Then anything happens in any order: messages are made, answered, delivered, swept, and agents restarted
-- and woken; each call is one step, and those that are given an identifier, replies and deliveries, are not
-- given one of another run's live messages. At every moment the count of each agent is the number of the
-- run's asks by it in the table that have not ended, the set of what it owes holds just the run's asks to
-- it that have not ended, just these have a deadline, and the live messages of other runs are those that
-- they were at first.
pub opened_run-Accounts :
    (db : Store) (bus : Bus) (workflow : FrozenWorkflow) (now : Timestamp)
    (calls : List (Moment × Call))
    → Unique db.rows
    → any (is_going db.run_id) db.rows ≡ false
    → All (NamesOwn (peers_of (reconcile_orphans db now))) calls
    → Accounts
        (peers_of (reconcile_orphans db now))
        (run (State.new (reconcile_orphans db now) bus workflow) calls)
opened_run-Accounts db bus workflow now calls unique fresh own =
    run-Accounts (peers_of (reconcile_orphans db now))
      (State.new (reconcile_orphans db now) bus workflow) calls own
      (new-Accounts db bus workflow now unique fresh)
