-- ===== src/Router/Watchdog/Deadlines.antt =====
-- core/src/router/ttl.rs: what the sweeper's first pass does to an ask whose time has run out.
use core_tempo.Common.{
  Bool, is_some, ℕ, ◌≡◌, refl, ap, sym, ◌∙◌, inl, inr, true, false, List, [], ◌∷◌, some, arith,
  find, any, leb, ◌==◌, ==_iff, string_eq, Bool-cases,
}
use core_tempo.Common.Dict
use core_tempo.Common.Dict.{Dict}
use core_tempo.Types.Ids.{MessageId}
use core_tempo.Types.Message.{is_terminal, status_eq}
use core_tempo.Types.Message.RoundTrip.{HasPayload}
use core_tempo.Store.{Row, has_id, code_allowed, update_rows, update_message}
use core_tempo.Store.Rows.{test, find-has_id, find-update_rows}
use core_tempo.Router.State.{
  Moment, Router, FailReason, timeout, fail_message, transition, transit, set_failed, not_terminal,
  among,
}
use core_tempo.Router.Transitions.{stays, moves, transition-Outcome, with_record}
use core_tempo.Router.Gate.{StateSource}
use core_tempo.Router.Watchdog.{fail_all, due, sweep, sweep_expired, sweep_owed}
use core_tempo.Router.Accounts.{Accounts, is_open}
use core_tempo.Router.Accounts.Settle.{settle-store}
use core_tempo.Router.Accounts.Moves.{settle_refused}
use core_tempo.Router.History.Run.{fail_all-Keeps, sweep_agents-Keeps}
use core_tempo.Router.Reply.Once.{get_message_readable}

-- A message that has not ended, whose row can be read and meets the table's checks.
pub record IsGoing (rows : List Row) (id : MessageId) (row : Row) : Type 0 where
  pub found : find (has_id id) rows ≡ some row
  pub payload : HasPayload row.message.from
  pub checked : code_allowed row.message.code ≡ true
  pub unended : is_terminal row.message.status ≡ false

-- The row of a message that was failed.
abbrev pub failed_row : Moment → FailReason → Row → Row
failed_row now reason row = record row { message = set_failed now reason row.message }

fail_message-rows :
    (s : Router) (now : Moment) (id : MessageId) (reason : FailReason) (row : Row)
    → IsGoing s.store.rows id row
    → (fail_message s now id reason).store.rows
      ≡ update_rows (set_failed now reason row.message) s.store.rows
unfolding fail_message transition update_message
fail_message-rows s now id reason row g =
    let got = get_message_readable s.store id row g.found g.payload in
    let going : among row.message.status not_terminal ≡ true = ground (arith, g.unended) in
    rw (got, transit, going, g.checked)
      (ground (
        arith,
        settle-store (with_record s now (set_failed now reason row.message))
            (set_failed now reason row.message),
      ))

pub fail_message_going :
    (s : Router) (now : Moment) (id : MessageId) (reason : FailReason) (row : Row)
    → IsGoing s.store.rows id row
    → find (has_id id) (fail_message s now id reason).store.rows ≡ some (failed_row now reason row)
fail_message_going s now id reason row g =
    let name = find-has_id id s.store.rows row g.found in
    rw
      (
        fail_message-rows s now id reason row g,
        find-update_rows id (set_failed now reason row.message) s.store.rows,
        g.found,
      )
      (ground (arith, name, ==_iff row.message.id id))

-- A failure of one message touches no other.
fail_message_other :
    (s : Router) (now : Moment) (id other : MessageId) (reason : FailReason)
    → (other == id) ≡ false
    → find (has_id id) (fail_message s now other reason).store.rows ≡ find (has_id id) s.store.rows
unfolding fail_message
fail_message_other s now id other reason apart =
    elim (transition-Outcome s now other not_terminal (set_failed now reason)) [
      | stays res refusal e ↦ rw e (rw (settle_refused s res refusal) refl)
      | moves row found allow e ↦
          let r = set_failed now reason row.message in
          let name = find-has_id other s.store.rows row found in
          rw e (
            rw (settle-store (with_record s now r) r)
              (rw (find-update_rows id r s.store.rows, name, apart) refl))
    ]

-- In a series of failures, a message that is named and going is failed with its own reason.
pub fail_all_named :
    (s : Router) (now : Moment) (reason : MessageId → FailReason) (ids : List MessageId)
    (id : MessageId) (row : Row)
    → any (λ j. j == id) ids ≡ true
    → IsGoing s.store.rows id row
    → find (has_id id) (fail_all s now reason ids).store.rows
      ≡ some (failed_row now (reason id) row)
unfolding fail_all
fail_all_named s now reason [] id row named g = absurd (ground (arith, named))
fail_all_named s now reason (j ∷ ids) id row named g = elim (Bool-cases (j == id)) [
  | inr apart ↦
      let t = fail_message s now j (reason j) in
      let same = fail_message_other s now id j (reason j) apart in
      fail_all_named (fail_message s now j (reason j)) now reason ids id row (rw apart at named)
        (record {
          found = same ∙ g.found;
          payload = g.payload;
          checked = g.checked;
          unended = g.unended;
        })
  | inl hit ↦
      let same : j ≡ id = (==_iff j id).0 hit in
      rw same (
        let t = fail_message s now id (reason id) in
        let kept =
          fail_all-Keeps t now reason ids id (failed_row now (reason id) row)
            (fail_message_going s now id (reason id) row g) in
        kept.found ∙ ap some (kept.follows.final refl))
]

due-lookup :
    (now : ℕ) (deadlines : Dict MessageId ℕ) (id : MessageId) (d : ℕ)
    → Dict.lookup id deadlines ≡ some d
    → leb d now ≡ true
    → any (λ j. j == id) (due now deadlines) ≡ true
unfolding Dict.lookup
due-lookup now [] id d found passed = absurd (ground (arith, found))
due-lookup now ((j, e) ∷ deadlines) id d found passed = elim (Bool-cases (j == id)) [
  | inl hit ↦ let same : e ≡ d = ground (arith, rw hit at found) in rw (same, passed, hit) refl
  | inr miss ↦
      let rest = due-lookup now deadlines id d (rw miss at found) passed in
      elim (Bool-cases (leb e now)) [ inl late ↦ rw (late, miss) rest | inr early ↦ rw early rest ]
]

-- A sweep fails every ask of the run whose deadline has passed, with the code `timeout`, and nothing that
-- the same sweep does afterwards changes that. The books agree with the table, and the row of the ask can
-- be read and meets the table's check on its code.
pub sweep_times_out :
    {peers : MessageId → Bool} (s : Router) (obs : StateSource) (now : Moment) (id : MessageId)
    (d : ℕ) (row : Row)
    → Accounts peers s
    → Dict.lookup id s.deadlines ≡ some d
    → leb d now.instant ≡ true
    → find (has_id id) s.store.rows ≡ some row
    → HasPayload row.message.from
    → code_allowed row.message.code ≡ true
    → find (has_id id) (sweep s obs now).store.rows
      ≡ some (failed_row now (timeout id s.workflow.ask_timeout) row)
unfolding sweep sweep_expired sweep_owed
sweep_times_out s obs now id d row books timed passed found payload checked =
    let listed : is_some (Dict.lookup id s.deadlines) ≡ true = rw timed refl in
    let live : test (is_open s.store.run_id) (find (has_id id) s.store.rows) ≡ true =
      sym (books.timed id) ∙ listed in
    let unended : is_terminal row.message.status ≡ false = ground (arith, rw found at live) in
    let reason : MessageId → FailReason = λ j. timeout j s.workflow.ask_timeout in
    let t = fail_all s now reason (due now.instant s.deadlines) in
    let there =
      fail_all_named s now reason (due now.instant s.deadlines) id row
        (due-lookup now.instant s.deadlines id d timed passed)
        (record { found = found; payload = payload; checked = checked; unended = unended }) in
    let kept =
      sweep_agents-Keeps t obs now t.owed id
        (failed_row now (timeout id s.workflow.ask_timeout) row) there in
    kept.found ∙ ap some (kept.follows.final refl)
