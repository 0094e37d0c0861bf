-- ===== src/Router/Accounts/Run.antt =====
-- core/src/router/mod.rs and ttl.rs: every call keeps the books, and so does every history of calls.
use core_tempo.Common.{
  All, sym, ◌∙◌, ◌≡◌, refl, inl, inr, Bool, false, List, [], ◌∷◌, string_eq, arith, Bool-cases,
}
use core_tempo.Common.Dict.{Dict}
use core_tempo.Types.Ids.{AgentId, MessageId}
use core_tempo.Types.Message.{MessageRecord}
use core_tempo.Store
use core_tempo.Router.State.{Moment, Router, FailReason, fail_message, timeout}
use core_tempo.Router.Gate.{StateSource}
use core_tempo.Router.Watchdog.{
  fail_all, due, sweep, sweep_expired, sweep_owed, sweep_agent, sweep_agents, on_agent_restarted,
  suppress_pending, fail_pending, forget_turn, past_grace, is_exited, poke_is_due,
}
use core_tempo.Router.Reply.{bind_kickoff_contract, unbind_kickoff_contract}
use core_tempo.Router.Steps.{
  Call, creates, replies, drives, sweeps, restarts, rests, ends_loop, binds, unbinds, step, run,
}
use core_tempo.Store.{Row, has_id, in_run}
use core_tempo.Router.Accounts.{Accounts}
use core_tempo.Router.Accounts.Own.{open-own, due-own, query_records-own, marked-own}
use core_tempo.Router.Accounts.Rests.{on_stable_idle-SameBooks}
use core_tempo.Router.Accounts.Same.{SameBooks, Accounts-of_SameBooks, mark_loop_done-SameBooks}
use core_tempo.Router.Accounts.Creation.{create-Accounts}
use core_tempo.Router.Accounts.Replies.{reply-Accounts}
use core_tempo.Router.Accounts.Moves.{fail_message-Accounts, drive-Accounts}

fail_all-Accounts :
    (peers : MessageId → Bool) (s : Router) (now : Moment) (reason : MessageId → FailReason)
    (ids : List MessageId)
    → All (λ id. peers id ≡ false) ids
    → Accounts peers s
    → Accounts peers (fail_all s now reason ids)
unfolding fail_all
fail_all-Accounts peers s now reason [] own books = books
fail_all-Accounts peers s now reason (id ∷ ids) own books =
    fail_all-Accounts peers (fail_message s now id (reason id)) now reason ids own.1
      (fail_message-Accounts peers s now id (reason id) own.0 books)

sweep_agent-Accounts :
    (peers : MessageId → Bool) (s : Router) (obs : StateSource) (now : Moment) (a : AgentId)
    (ids : List MessageId)
    → All (λ id. peers id ≡ false) ids
    → Accounts peers s
    → Accounts peers (sweep_agent s obs now a ids)
unfolding sweep_agent
sweep_agent-Accounts peers s obs now a ids own books =
    elim (Bool-cases (past_grace s now.instant (obs.blocked_since a))) [
      | inl stuck ↦ rw stuck (fail_all-Accounts peers s now _ ids own books)
      | inr free ↦ elim (Bool-cases (is_exited obs a)) [
        | inl gone ↦ rw (free, gone) (fail_all-Accounts peers s now _ ids own books)
        | inr here ↦ elim (Bool-cases (poke_is_due s obs now.instant a ids)) [
          | inl poke ↦ rw (free, here, poke) books
          | inr quiet ↦ rw (free, here, quiet) books
        ]
      ]
    ]

sweep_agents-Accounts :
    (peers : MessageId → Bool) (s : Router) (obs : StateSource) (now : Moment)
    (owed : Dict AgentId (List MessageId))
    → All (λ e. All (λ id. peers id ≡ false) e.1) owed
    → Accounts peers s
    → Accounts peers (sweep_agents s obs now owed)
unfolding sweep_agents
sweep_agents-Accounts peers s obs now [] own books = books
sweep_agents-Accounts peers s obs now ((a, ids) ∷ owed) own books =
    sweep_agents-Accounts peers (sweep_agent s obs now a ids) obs now owed own.1
      (sweep_agent-Accounts peers s obs now a ids own.0 books)

sweep-Accounts :
    (peers : MessageId → Bool) (s : Router) (obs : StateSource) (now : Moment)
    → Accounts peers s
    → Accounts peers (sweep s obs now)
unfolding sweep sweep_expired sweep_owed
sweep-Accounts peers s obs now books =
    let t = sweep_expired s now in
    let swept =
      fail_all-Accounts peers s now (λ id. timeout id s.workflow.ask_timeout)
        (due now.instant s.deadlines)
        (due-own peers now.instant s.deadlines (λ id h. open-own peers s id books h)) books in
    sweep_agents-Accounts peers t obs now t.owed swept.mine swept

pub suppress_pending-SameBooks :
    (a : AgentId) (res : Store.Result (List MessageRecord)) (s : Router)
    → SameBooks s (suppress_pending a res s)
suppress_pending-SameBooks a (Store.ok asks) s = ground arith
suppress_pending-SameBooks a (Store.err e) s = ground arith

fail_pending-Accounts :
    (peers : MessageId → Bool) (now : Moment) (a : AgentId) (s : Router)
    → Accounts peers s
    → (res : Store.Result (List MessageRecord)) → Store.pending_to_agent s.store a ≡ res
    → Accounts peers (fail_pending now a res s)
unfolding Store.pending_to_agent
fail_pending-Accounts peers now a s books (Store.ok records) h =
    fail_all-Accounts peers s now _ _
      (query_records-own peers _ records
        (marked-own peers s.store.run_id s.store.rows _ books.unique
          (λ id row found m. sym (books.apart id) ∙ rw found (ground (arith, m)))
          (λ row h. ground (arith, h)))
        h)
      books
fail_pending-Accounts peers now a s books (Store.err e) h = books

on_agent_restarted-Accounts :
    (peers : MessageId → Bool) (s : Router) (now : Moment) (a : AgentId)
    → Accounts peers s
    → Accounts peers (on_agent_restarted s now a)
unfolding on_agent_restarted
on_agent_restarted-Accounts peers s now a books =
    let t = forget_turn s a in
    let told = Store.pending_asks t.store in
    let u = suppress_pending a told t in
    fail_pending-Accounts peers now a u
      (Accounts-of_SameBooks peers t u (suppress_pending-SameBooks a told t) books)
      (Store.pending_to_agent u.store a) refl

-- The message that a call names is none of another run's.
abbrev pub NamesOwn : (MessageId → Bool) → Moment × Call → Type 0
NamesOwn peers (now, replies from id code body) = peers id ≡ false
NamesOwn peers (now, drives d signal) = peers d.id ≡ false
NamesOwn peers _ = Unit {0}

pub step-Accounts :
    (peers : MessageId → Bool) (s : Router) (call : Moment × Call)
    → NamesOwn peers call
    → Accounts peers s
    → Accounts peers (step s call)
unfolding step bind_kickoff_contract unbind_kickoff_contract
step-Accounts peers s (now, creates id from to kind body flow) own books =
    create-Accounts peers s now id from to kind body flow books
step-Accounts peers s (now, replies from id code body) own books =
    reply-Accounts peers s now from id code body own books
step-Accounts peers s (now, drives d signal) own books =
    drive-Accounts peers s now d signal own books
step-Accounts peers s (now, sweeps obs) own books = sweep-Accounts peers s obs now books
step-Accounts peers s (now, restarts a) own books = on_agent_restarted-Accounts peers s now a books
step-Accounts peers s (now, rests obs a) own books =
    Accounts-of_SameBooks peers s _ (on_stable_idle-SameBooks s obs now a) books
step-Accounts peers s (now, ends_loop owner target) own books =
    Accounts-of_SameBooks peers s _ (mark_loop_done-SameBooks s owner target) books
step-Accounts peers s (now, binds origin contract) own books = books
step-Accounts peers s (now, unbinds origin) own books = books

pub run-Accounts :
    (peers : MessageId → Bool) (s : Router) (calls : List (Moment × Call))
    → All (NamesOwn peers) calls
    → Accounts peers s
    → Accounts peers (run s calls)
unfolding run
run-Accounts peers s [] own books = books
run-Accounts peers s (call ∷ calls) own books =
    run-Accounts peers (step s call) calls own.1 (step-Accounts peers s call own.0 books)
