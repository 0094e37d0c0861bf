-- ===== src/Router/Watchdog/Restarts.antt =====
-- core/src/router/mod.rs: what a restart of an agent does to the messages it had not finished.
use core_tempo.Common.{
  ◌≡◌, refl, inl, inr, Bool, true, false, ◌&&◌, List, [], ◌∷◌, map, some, arith, find, filter, any,
  All, ◌==◌, ==_refl, string_eq, option_eq, Bool-cases,
}
use core_tempo.Types.Ids.{MessageId, AgentId}
use core_tempo.Types.Message.{is_terminal, kind_eq}
use core_tempo.Types.Message.RoundTrip.{HasPayload}
use core_tempo.Store.{
  Row, Store, has_id, in_run, is_pending, code_allowed, query_records, pending_to_agent,
}
use core_tempo.Store
use core_tempo.Store.Reads.{to_record-raw_row}
use core_tempo.Router.State.{Moment, Router, restarted}
use core_tempo.Router.Accounts.Run.{suppress_pending-SameBooks}
use core_tempo.Router.Watchdog.{on_agent_restarted, forget_turn, suppress_pending}
use core_tempo.Router.Watchdog.Deadlines.{failed_row, fail_all_named}

-- A row that can be read.
abbrev pub IsReadable : Row → Type 0
IsReadable row = HasPayload row.message.from

query_records-readable :
    (p : Row → Bool) (rows : List Row)
    → All IsReadable rows
    → query_records (filter p rows) ≡ Store.ok (map (λ row. row.message) (filter p rows))
unfolding query_records
query_records-readable p [] h = refl
query_records-readable p (row ∷ rows) h = elim (Bool-cases (p row)) [
  | inl kept ↦ rw (kept, to_record-raw_row row h.0, query_records-readable p rows h.1) refl
  | inr left ↦ rw left (query_records-readable p rows h.1)
]

named_of_found :
    (p : Row → Bool) (id : MessageId) (rows : List Row) (row : Row)
    → find (has_id id) rows ≡ some row
    → p row ≡ true
    → any (λ j. j == id) (map (λ r. r.id) (map (λ x. x.message) (filter p rows))) ≡ true
named_of_found p id [] row found chosen = absurd (ground (arith, found))
named_of_found p id (x ∷ rows) row found chosen = elim (Bool-cases (has_id id x)) [
  | inl hit ↦
      let same : x ≡ row = ground (arith, rw hit at found) in rw (same, chosen, rw same at hit) refl
  | inr miss ↦
      let rest = named_of_found p id rows row (rw miss at found) chosen in
      elim (Bool-cases (p x)) [ inl kept ↦ rw (kept, miss) rest | inr left ↦ rw left rest ]
]

-- A restart of an agent fails each message to it, of this run, that has not ended, with the code
-- `agent_restarted`. The rows of the table can be read, and the message's own row meets the table's check.
pub restart_fails_pending :
    (s : Router) (now : Moment) (a : AgentId) (id : MessageId) (row : Row)
    → All IsReadable s.store.rows
    → find (has_id id) s.store.rows ≡ some row
    → HasPayload row.message.from
    → code_allowed row.message.code ≡ true
    → row.message.to ≡ a
    → in_run s.store.run_id row ≡ true
    → is_terminal row.message.status ≡ false
    → find (has_id id) (on_agent_restarted s now a).store.rows
      ≡ some (failed_row now (restarted a) row)
unfolding on_agent_restarted pending_to_agent
restart_fails_pending s now a id row readable found payload checked addressee ours unended =
    let t = forget_turn s a in
    let u = suppress_pending a (Store.pending_asks t.store) t in
    let same = suppress_pending-SameBooks a (Store.pending_asks t.store) t in
    let p : Row → Bool = λ x. x.message.to == a && in_run s.store.run_id x && is_pending x in
    let chosen : p row ≡ true = rw (addressee, ==_refl a, ours, unended) refl in
    let listed : pending_to_agent u.store a
        ≡ Store.ok (map (λ x. x.message) (filter p s.store.rows)) =
      rw same.store (query_records-readable p s.store.rows readable) in
    rw listed (
      fail_all_named u now (λ j. restarted a)
        (map (λ r. r.id) (map (λ x. x.message) (filter p s.store.rows))) id row
        (named_of_found p id s.store.rows row found chosen)
        (record {
          found = rw same.store found;
          payload = payload;
          checked = checked;
          unended = unended;
        }))
