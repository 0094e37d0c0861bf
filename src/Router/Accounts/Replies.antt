-- ===== src/Router/Accounts/Replies.antt =====
-- core/src/router/mod.rs: `reply` keeps the books on every branch.
use core_tempo.Common.{
  ℕ, ◌≡◌, refl, inl, inr, Bool, true, false, not, ◌||◌, List, Option, none, some, arith, ◌==◌,
  string_eq, nat_eq, option_eq, if◌then◌else◌, ltb, Bool-cases, find, String,
}
use core_tempo.Common.Dict
use core_tempo.Common.KeySet
use core_tempo.Types.Ids.{AgentId, MessageId}
use core_tempo.Types.Message.{
  MessageRecord, ask, send, Origin, agent, user, http, trigger, is_terminal, kind_eq, status_eq,
}
use core_tempo.Store.{Row, Store, has_id, update_message, update_rows}
use core_tempo.Store
use core_tempo.Store.Reads.{missing, present, corrupt, get_message-Lookup}
use core_tempo.Store.Rows.{update_message-eq_ok}
use core_tempo.Router.State.{
  Moment, Router, RouterError, Result, already_replied, ok, err, OutputContract, enqueue,
}
use core_tempo.Router.Sinks.{render_reply}
use core_tempo.Router.Reply.{
  reject, gate_contract, gate_origin, reject_off_schema, fire_to, fire_reply_sink, set_replied,
  persisted, accept_reply, reply_by, reply_from, reply_found, reply, is_identical,
}
use core_tempo.Router.Accounts.{Accounts}
use core_tempo.Router.Accounts.Same.{
  SameBooks, Accounts-of_SameBooks, rearm_loop_after_reply-SameBooks,
}
use core_tempo.Router.Accounts.Steps.{IsLive, settle-Accounts}
use core_tempo.Router.Accounts.Moves.{IsLive-of_found}

pub reject-SameBooks :
    (s : Router) (now : Moment) (rec : MessageRecord) (c : OutputContract)
    (v : Option (List String))
    → SameBooks s (reject s now rec c v).0
reject-SameBooks s now rec c none = ground arith
reject-SameBooks s now rec c (some errors) = ground arith

gate_contract-SameBooks :
    (s : Router) (now : Moment) (rec : MessageRecord) (code : ℕ) (body : String)
    (c : Option OutputContract)
    → SameBooks s (gate_contract s now rec code body c).0
gate_contract-SameBooks s now rec code body none = ground arith
gate_contract-SameBooks s now rec code body (some c) =
    elim (Bool-cases (not (code == 0) || not (rec.kind == ask))) [
      | inl ungated ↦ rw ungated (ground arith)
      | inr gated ↦ rw gated (reject-SameBooks s now rec c (c.check body))
    ]

pub gate_origin-SameBooks :
    (s : Router) (now : Moment) (rec : MessageRecord) (code : ℕ) (body : String) (from : Origin)
    → SameBooks s (gate_origin s now rec code body from).0
gate_origin-SameBooks s now rec code body (trigger origin) =
    gate_contract-SameBooks s now rec code body (Dict.lookup origin s.contracts)
gate_origin-SameBooks s now rec code body user = ground arith
gate_origin-SameBooks s now rec code body (agent a) = ground arith
gate_origin-SameBooks s now rec code body (http req) = ground arith

pub fire_to-SameBooks :
    (s : Router) (rec : MessageRecord) (replier : AgentId) (code : ℕ) (body : String)
    (from : Origin)
    → SameBooks s (fire_to s rec replier code body from)
fire_to-SameBooks s rec replier code body user = ground arith
fire_to-SameBooks s rec replier code body (http req) = ground arith
fire_to-SameBooks s rec replier code body (trigger origin) = ground arith
fire_to-SameBooks s rec replier code body (agent asker) =
    elim (Bool-cases (KeySet.member rec.id s.suppressed)) [
      | inl hushed ↦ rw hushed (ground arith)
      | inr heard ↦
          let b =
            rearm_loop_after_reply-SameBooks
              (enqueue s asker (render_reply rec.id replier code body)) asker replier in
          rw heard
            (record { store = b.store; counts = b.counts; owed = b.owed; deadlines = b.deadlines })
    ]

module _ (peers : MessageId → Bool) (now : Moment) (row : Row) (replier : AgentId) (code : ℕ)
    (body : String) where
  answered : MessageRecord
  answered = set_replied now code body row.message

  persisted-Accounts :
      (s : Router)
      → Accounts peers s
      → IsLive s row
      → (res : Store.Result (Store × Bool)) → update_message s.store answered ≡ res
      → Accounts peers (persisted s now answered replier code body res).0
  unfolding answered fire_reply_sink
  persisted-Accounts s books live (Store.err e) tried = books
  persisted-Accounts s books live (Store.ok (st, matched)) tried =
      let settled =
        settle-Accounts peers s s.bus row answered books live
          (record { id = refl; kind = refl; from = refl; to = refl }) refl in
      rw (update_message-eq_ok s.store answered tried) (
        Accounts-of_SameBooks peers _ _
          (fire_to-SameBooks _ answered replier code body row.message.from) settled)

  accept_reply-Accounts :
      (s : Router) (rejection : Option RouterError)
      → Accounts peers s
      → IsLive s row
      → Accounts peers (accept_reply now row.message replier code body (s, rejection)).0
  unfolding answered
  accept_reply-Accounts s (some rejection) books live = books
  accept_reply-Accounts s none books live = persisted-Accounts s books live _ refl

  again : Bool → Router → Router × Result MessageRecord
  again identical s =
      if identical then (s, ok row.message) else (s, err (already_replied row.message.id))

  repeated-Accounts :
      (s : Router) (identical : Bool) → Accounts peers s → Accounts peers (again identical s).0
  unfolding again
  repeated-Accounts s true books = books
  repeated-Accounts s false books = books

  reply_by-Accounts :
      (s : Router) (id : MessageId)
      → peers id ≡ false
      → Accounts peers s
      → find (has_id id) s.store.rows ≡ some row
      → Accounts peers (reply_by s now row.message replier code body).0
  unfolding reject_off_schema again
  reply_by-Accounts s id own books found = elim (Bool-cases (replier == row.message.to)) [
    | inr stranger ↦ rw stranger books
    | inl addressee ↦ elim (Bool-cases (is_terminal row.message.status)) [
      | inl ended ↦
          rw (addressee, ended) (repeated-Accounts s (is_identical row.message code body) books)
      | inr going ↦
          let gated = gate_origin s now row.message code body row.message.from in
          let same = gate_origin-SameBooks s now row.message code body row.message.from in
          let live = IsLive-of_found peers s id row books own found going in
          rw (addressee, going)
            (accept_reply-Accounts gated.0 gated.1
              (Accounts-of_SameBooks peers s gated.0 same books)
              (record {
                found = rw same.store live.found;
                ours = rw same.store live.ours;
                unended = going;
              }))
    ]
  ]

reply_from-Accounts :
    (peers : MessageId → Bool) (s : Router) (now : Moment) (replier : Origin) (id : MessageId)
    (row : Row) (code : ℕ) (body : String)
    → peers id ≡ false
    → Accounts peers s
    → find (has_id id) s.store.rows ≡ some row
    → Accounts peers (reply_from s now replier row.message code body).0
reply_from-Accounts peers s now (agent a) id row code body own books found =
    reply_by-Accounts peers now row a code body s id own books found
reply_from-Accounts peers s now user id row code body own books found = books
reply_from-Accounts peers s now (http req) id row code body own books found = books
reply_from-Accounts peers s now (trigger origin) id row code body own books found = books

-- A reply, accepted or refused for whatever reason, leaves the books right.
pub reply-Accounts :
    (peers : MessageId → Bool) (s : Router) (now : Moment) (replier : Origin) (id : MessageId)
    (code : ℕ) (body : String)
    → peers id ≡ false
    → Accounts peers s
    → Accounts peers (reply s now replier id code body).0
unfolding reply
reply-Accounts peers s now replier id code body own books = elim (Bool-cases (ltb 1 code)) [
  | inl bad ↦ rw bad books
  | inr good ↦ elim (get_message-Lookup s.store id) [
    | missing e got ↦ rw (good, got, reply_found) books
    | corrupt row got ↦ rw (good, got, reply_found) books
    | present row found got ↦ elim (Bool-cases (row.message.kind == send)) [
      | inl is_send ↦ rw (good, got, reply_found, is_send) books
      | inr is_ask ↦
          rw (good, got, reply_found, is_ask)
            (reply_from-Accounts peers s now replier id row code body own books found)
    ]
  ]
]
