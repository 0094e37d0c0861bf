-- ===== src/Router/Reply/Delivery.antt =====
-- core/src/router/mod.rs: what an accepted reply to an agent's ask does to the table, the books and the
-- asker's queue.
use core_tempo.Common.{
  ℕ, ◌-◌, ◌≡◌, refl, ◌∙◌, inl, inr, true, false, ◌||◌, [], ◌∷◌, ◌++◌, some, arith, find, ltb, ◌==◌,
  ==_iff, ==_refl, string_eq, option_eq, nat_eq, Bool-cases, Option-cases, if◌then◌else◌, String,
}
use core_tempo.Common.KeySet
use core_tempo.Types.Ids.{MessageId, AgentId}
use core_tempo.Types.Message.{MessageRecord, ask, kind_eq, agent, replied, status_eq}
use core_tempo.Types.Event.{message_status_changed}
use core_tempo.Store.{Row, has_id, update_rows, update_message}
use core_tempo.Store.Rows.{find-has_id, find-update_rows}
use core_tempo.Router.State.{Moment, Router, ok, settle, publish}
use core_tempo.Router.Loops.{loop_edge, rearm_loop_after_reply}
use core_tempo.Router.Sinks.{render_reply}
use core_tempo.Router.Reply.{
  reject_off_schema, fire_to, fire_reply_sink, set_replied, reply_found, reply,
}
use core_tempo.Router.Gate.{pending_asks}
use core_tempo.Router.Accounts.Settle.{settle-store, settle-counts}
use core_tempo.Router.Accounts.Replies.{fire_to-SameBooks}
use core_tempo.Router.Watchdog.Deadlines.{IsGoing}
use core_tempo.Router.Reply.Once.{get_message_readable}

-- Settling leaves the queue alone, and the suppressed asks too when the message was replied to.
settle_sides :
    (s : Router) (rec : MessageRecord)
    → (rec.status == replied) ≡ true
    → ((settle s rec).enqueued ≡ s.enqueued) × ((settle s rec).suppressed ≡ s.suppressed)
unfolding settle
settle_sides s rec h = (ground arith, ground (arith, h))

rearm-enqueued :
    (s : Router) (owner replier : AgentId)
    → (rearm_loop_after_reply s owner replier).enqueued ≡ s.enqueued
unfolding rearm_loop_after_reply
rearm-enqueued s owner replier = elim (Option-cases (loop_edge s owner replier)) [
  | inl absent ↦ ground arith
  | inr (edge, found) ↦ ground arith
]

fire_to-enqueued :
    (s : Router) (rec : MessageRecord) (replier asker : AgentId) (code : ℕ) (body : String)
    → (fire_to s rec replier code body (agent asker)).enqueued ≡ (
        if KeySet.member rec.id s.suppressed
        then s.enqueued
        else s.enqueued ++ (asker, render_reply rec.id replier code body) ∷ [])
fire_to-enqueued s rec replier asker code body =
    elim (Bool-cases (KeySet.member rec.id s.suppressed)) [
      | inl hushed ↦ rw hushed refl
      | inr heard ↦ rw heard (rearm-enqueued _ asker replier)
    ]

module _ (s : Router) (now : Moment) (id : MessageId) (row : Row) (asker : AgentId) (code : ℕ)
    (body : String) (g : IsGoing s.store.rows id row) (is_ask : (row.message.kind == ask) ≡ true)
    (sender : row.message.from ≡ agent asker) (valid : ltb 1 code ≡ false) where
  answer : MessageRecord
  answer = set_replied now code body row.message

  written : Router
  unfolding answer
  written = record s { store = record (s.store) { rows = update_rows answer s.store.rows } }

  told : Router
  unfolding answer written
  told = publish (settle written answer) now (message_status_changed answer)

  -- No contract is over an agent's ask, so the reply is taken.
  reply-told :
      reply s now (agent row.message.to) id code body
      ≡ (fire_to told answer row.message.to code body (agent asker), ok answer)
  unfolding reply reject_off_schema fire_reply_sink update_message answer written told
  reply-told =
      let got = get_message_readable s.store id row g.found g.payload in
      let whole : (code == 0 || code == 1) ≡ true = ground (arith, valid) in
      rw (valid, got, reply_found, ==_refl row.message.to, g.unended, sender)
        (ground (arith, is_ask, whole))

  -- A valid reply by the addressee to an agent's ask that has not ended is accepted: the row becomes the
  -- replied record, the asker waits for one answer less, and the reply is put in the asker's queue exactly
  -- once, or not at all if the ask was suppressed by the asker's restart. The row can be read.
  pub reply_delivers :
      ((reply s now (agent row.message.to) id code body).1
        ≡ ok (set_replied now code body row.message))
      × (find (has_id id) (reply s now (agent row.message.to) id code body).0.store.rows
          ≡ some (record row { message = set_replied now code body row.message }))
      × (pending_asks (reply s now (agent row.message.to) id code body).0 asker
          ≡ pending_asks s asker - 1)
      × ((reply s now (agent row.message.to) id code body).0.enqueued ≡ (
          if KeySet.member id s.suppressed
          then s.enqueued
          else s.enqueued ++ (asker, render_reply id row.message.to code body) ∷ []))
  unfolding answer written told
  reply_delivers =
      let name = find-has_id id s.store.rows row g.found in
      let fired = fire_to-SameBooks told answer row.message.to code body (agent asker) in
      let sides = settle_sides written answer refl in
      rw reply-told (
        refl,
        rw
            (
              fired.store,
              settle-store written answer,
              find-update_rows id answer s.store.rows,
              g.found,
            )
            (ground (arith, name, ==_iff row.message.id id)),
        rw (fired.counts) (
            rw (settle-counts written answer asker)
              (rw sender (ground (arith, is_ask, ==_refl asker)))),
        fire_to-enqueued told answer row.message.to asker code body
            ∙ rw (sides.0, sides.1, name) refl,
      )
