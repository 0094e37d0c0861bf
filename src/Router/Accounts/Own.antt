-- ===== src/Router/Accounts/Own.antt =====
-- core/src/router: the messages that the sweeper and a restart fail are none of another run's.
use core_tempo.Common.{
  All, any, ◌==◌, ==_iff, subst, ==_refl, sym, ◌∙◌, ◌≡◌, refl, leb, find, map, filter, is_some, ℕ,
  inl, inr, Bool, true, false, List, [], ◌∷◌, string_eq, Option, none, some, arith, Bool-cases,
}
use core_tempo.Common.Dict.{Dict}
use core_tempo.Common.Dict
use core_tempo.Types.Ids.{MessageId, RunId}
use core_tempo.Types.Message.{MessageRecord}
use core_tempo.Store
use core_tempo.Router.State.{Router}
use core_tempo.Router.Watchdog.{due}
use core_tempo.Router.Steps.{run}
use core_tempo.Store.{Row, has_id, in_run}
use core_tempo.Store.Rows.{Unique, test, find_of_absent}
use core_tempo.Store.Reads.{to_record-cases}
use core_tempo.Router.Accounts.{Accounts, is_open, is_foreign}

-- A message that the run has going is none of another run's.
pub open-own :
    (peers : MessageId → Bool) (s : Router) (id : MessageId)
    → Accounts peers s
    → is_some (Dict.lookup id s.deadlines) ≡ true
    → peers id ≡ false
open-own peers s id books listed =
    let going : test (is_open s.store.run_id) (find (has_id id) s.store.rows) ≡ true =
      sym (books.timed id) ∙ listed in
    sym (books.apart id) ∙ at (find (has_id id) s.store.rows) going
  where
    at :
        (found : Option Row)
        → test (is_open s.store.run_id) found ≡ true
        → test (is_foreign s.store.run_id) found ≡ false
    at none h = refl
    at (some row) h = ground (arith, h)

pub due-own :
    (peers : MessageId → Bool) (now : ℕ) (deadlines : Dict MessageId ℕ)
    → ((id : MessageId) → is_some (Dict.lookup id deadlines) ≡ true → peers id ≡ false)
    → All (λ id. peers id ≡ false) (due now deadlines)
unfolding Dict.lookup
due-own peers now [] own = tt
due-own peers now ((id, d) ∷ deadlines) own =
    let first : peers id ≡ false = own id (rw (==_refl id) refl) in
    let rest = due-own peers now deadlines (λ j h. own j (ground (arith, h))) in
    elim (Bool-cases (leb d now)) [ inl late ↦ rw late (first, rest) | inr early ↦ rw early rest ]

cons-own :
    (peers : MessageId → Bool) (rec : MessageRecord) (rest : Store.Result (List MessageRecord))
    (records : List MessageRecord)
    → peers rec.id ≡ false
    → ((rs : List MessageRecord)
        → rest ≡ Store.ok rs
        → All (λ id. peers id ≡ false) (map (λ r. r.id) rs))
    → Store.◌>>=◌ rest (λ rs. Store.ok (rec ∷ rs)) ≡ Store.ok records
    → All (λ id. peers id ≡ false) (map (λ r. r.id) records)
cons-own peers rec (Store.ok rs) records own rest h =
    let same : rec ∷ rs ≡ records = cc h in
    subst (λ t. All (λ id. peers id ≡ false) (map (λ r. r.id) t)) same (own, rest rs refl)
cons-own peers rec (Store.err e) records own rest h = cc h

-- The records that a query reads are none of another run's, if its rows are not.
pub query_records-own :
    (peers : MessageId → Bool) (rows : List Row) (records : List MessageRecord)
    → All (λ row. peers row.message.id ≡ false) rows
    → Store.query_records rows ≡ Store.ok records
    → All (λ id. peers id ≡ false) (map (λ rec. rec.id) records)
unfolding Store.query_records
query_records-own peers [] [] own h = tt
query_records-own peers [] (rec ∷ records) own h = cc
query_records-own peers (row ∷ rows) records own h =
    let ih = query_records-own peers rows in
    elim (to_record-cases row) [
      | inl read ↦
          cons-own peers row.message (Store.query_records rows) records own.0
            (λ rs e. ih rs own.1 e) (rw read at h)
      | inr bad ↦ cc (rw bad at h)
    ]

found_later :
    (row : Row) (rows : List Row) (id : MessageId) (other : Row)
    → any (has_id row.message.id) rows ≡ false
    → find (has_id id) rows ≡ some other
    → find (has_id id) (row ∷ rows) ≡ some other
found_later row rows id other new h = elim (Bool-cases (row.message.id == id)) [
  | inl same ↦
      let e : row.message.id ≡ id = (==_iff row.message.id id).0 same in
      cc (find_of_absent row.message.id rows new, e, h)
  | inr differs ↦ rw differs h
]

-- What is found with the run's mark is none of another run's, and so is each row with it.
pub marked-own :
    (peers : MessageId → Bool) (run : RunId) (rows : List Row) (p : Row → Bool)
    → Unique rows
    → ((id : MessageId) (row : Row)
        → find (has_id id) rows ≡ some row
        → in_run run row ≡ true
        → peers id ≡ false)
    → ((row : Row) → p row ≡ true → in_run run row ≡ true)
    → All (λ row. peers row.message.id ≡ false) (filter p rows)
marked-own peers run [] p unique own mark = tt
marked-own peers run (row ∷ rows) p unique own mark =
    let rest =
      marked-own peers run rows p unique.1
        (λ id other h m. own id other (found_later row rows id other unique.0 h) m) mark in
    elim (Bool-cases (p row)) [
      | inl kept ↦
          rw kept
            (own row.message.id row (ground (arith, ==_refl row.message.id)) (mark row kept), rest)
      | inr dropped ↦ rw dropped rest
    ]
