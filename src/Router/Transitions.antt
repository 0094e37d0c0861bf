-- ===== src/Router/Transitions.antt =====
-- core/src/router/mod.rs: the two outcomes of `transition` and of `fail_message`.
use core_tempo.Common.{
  ◌≡◌, refl, inl, inr, Bool, true, false, List, Option, none, some, arith, Bool-cases, find,
}
use core_tempo.Types.Ids.{MessageId}
use core_tempo.Types.Message.{MessageRecord, MessageStatus, is_terminal, status_eq}
use core_tempo.Types.Event.{message_status_changed}
use core_tempo.Store.{Row, Store, has_id, update_rows, update_message, corrupt_row}
use core_tempo.Store
use core_tempo.Store.Rows.{update_message-eq_ok}
use core_tempo.Store.Reads.{missing, present, corrupt, get_message-Lookup}
use core_tempo.Router.State
use core_tempo.Router.State.{
  Moment, Router, Result, ok, err, FailReason, transition, transit, updated, among, publish, settle,
  settle_updated, fail_message, not_terminal, set_failed,
}

-- No record was changed.
abbrev pub IsRefusal : Result (Option MessageRecord) → Type 0
IsRefusal (ok none) = Unit {0}
IsRefusal (ok (some rec)) = ⊥
IsRefusal (err e) = Unit {0}

-- The state after one row took the record `r`, and the change was told.
abbrev pub with_record : Router → Moment → MessageRecord → Router
with_record s now r =
    publish (record s { store = record (s.store) { rows = update_rows r s.store.rows } }) now
      (message_status_changed r)

module _ (s : Router) (now : Moment) (id : MessageId) (allowed : List MessageStatus)
    (mutate : MessageRecord → MessageRecord) where
  -- Either nothing happens, or the row under the identifier, in one of the allowed states, takes the
  -- changed record.
  pub data Outcome : Type 0 where
    stays :
        (res : Result (Option MessageRecord))
        → IsRefusal res
        → transition s now id allowed mutate ≡ (s, res)
        → Outcome
    moves :
        (row : Row)
        → find (has_id id) s.store.rows ≡ some row
        → among row.message.status allowed ≡ true
        → transition s now id allowed mutate
          ≡ (with_record s now (mutate row.message), ok (some (mutate row.message)))
        → Outcome

  updated_Outcome :
      (row : Row)
      → find (has_id id) s.store.rows ≡ some row
      → among row.message.status allowed ≡ true
      → Store.get_message s.store id ≡ Store.ok (some row.message)
      → (res : Store.Result (Store × Bool)) → update_message s.store (mutate row.message) ≡ res
      → Outcome
  unfolding transition
  updated_Outcome row found allow got (Store.err e) tried =
      stays (err (State.store e)) tt (rw (got, transit, allow, tried, updated))
  updated_Outcome row found allow got (Store.ok (st, matched)) tried = moves row found allow (
      rw (
        got,
        transit,
        allow,
        tried,
        updated,
        update_message-eq_ok s.store (mutate row.message) tried,
      ))

  pub transition-Outcome : Outcome
  unfolding transition
  transition-Outcome = elim (get_message-Lookup s.store id) [
    | missing e got ↦ stays (ok none) tt (rw (got, transit))
    | corrupt row got ↦
        stays (err (State.store (corrupt_row row.message.id))) tt (rw (got, transit))
    | present row found got ↦ elim (Bool-cases (among row.message.status allowed)) [
      | inr other ↦ stays (ok none) tt (rw (got, transit, other))
      | inl allow ↦ updated_Outcome row found allow got _ refl
    ]
  ]

-- The states that `fail_message` acts on are those that have not ended.
pub among-not_terminal : (m : MessageStatus) → among m not_terminal ≡ true → is_terminal m ≡ false
among-not_terminal m h = ground arith
