-- ===== src/Router/History/Run.antt =====
-- core/src/router/mod.rs and ttl.rs: no call loses a message or takes one back.
use core_tempo.Common.{◌≡◌, ap, ◌∙◌, inl, inr, true, List, [], ◌∷◌, some, find, Bool-cases}
use core_tempo.Common.Dict.{Dict}
use core_tempo.Types.Ids.{AgentId, MessageId}
use core_tempo.Types.Message.{MessageRecord, is_terminal}
use core_tempo.Store.{Row, has_id}
use core_tempo.Store
use core_tempo.Router.State.{Moment, Router, FailReason, fail_message, timeout}
use core_tempo.Router.Reply.{bind_kickoff_contract, unbind_kickoff_contract}
use core_tempo.Router.Gate.{StateSource}
use core_tempo.Router.Watchdog.{
  fail_all, due, sweep, sweep_expired, sweep_owed, sweep_agent, sweep_agents, on_agent_restarted,
  suppress_pending, fail_pending, forget_turn, past_grace, is_exited, poke_is_due,
}
use core_tempo.Router.Steps.{
  Call, creates, replies, drives, sweeps, restarts, rests, ends_loop, binds, unbinds, step, run,
}
use core_tempo.Router.Accounts.Same.{mark_loop_done-SameBooks}
use core_tempo.Router.Accounts.Rests.{on_stable_idle-SameBooks}
use core_tempo.Router.Accounts.Run.{suppress_pending-SameBooks}
use core_tempo.Router.History.{Advances, Extends, Extends-refl, Extends-trans}
use core_tempo.Router.History.Paths.{
  Keeps, Keeps-of_SameBooks, fail_message-Keeps, drive-Keeps, create-Keeps, reply-Keeps,
}

then : (s t u : Router) → Keeps s t → Keeps t u → Keeps s u
then s t u = Extends-trans u.store.rows t.store.rows s.store.rows

pub fail_all-Keeps :
    (s : Router) (now : Moment) (reason : MessageId → FailReason) (ids : List MessageId)
    → Keeps s (fail_all s now reason ids)
unfolding fail_all
fail_all-Keeps s now reason [] = Extends-refl s.store.rows
fail_all-Keeps s now reason (id ∷ ids) =
    let t = fail_message s now id (reason id) in
    then s t (fail_all t now reason ids) (fail_message-Keeps s now id (reason id))
      (fail_all-Keeps (fail_message s now id (reason id)) now reason ids)

pub sweep_agent-Keeps :
    (s : Router) (obs : StateSource) (now : Moment) (a : AgentId) (ids : List MessageId)
    → Keeps s (sweep_agent s obs now a ids)
unfolding sweep_agent
sweep_agent-Keeps s obs now a ids =
    elim (Bool-cases (past_grace s now.instant (obs.blocked_since a))) [
      | inl stuck ↦ rw stuck (fail_all-Keeps s now _ ids)
      | inr free ↦ elim (Bool-cases (is_exited obs a)) [
        | inl gone ↦ rw (free, gone) (fail_all-Keeps s now _ ids)
        | inr here ↦ elim (Bool-cases (poke_is_due s obs now.instant a ids)) [
          | inl poke ↦ rw (free, here, poke) (Extends-refl s.store.rows)
          | inr quiet ↦ rw (free, here, quiet) (Extends-refl s.store.rows)
        ]
      ]
    ]

pub sweep_agents-Keeps :
    (s : Router) (obs : StateSource) (now : Moment) (owed : Dict AgentId (List MessageId))
    → Keeps s (sweep_agents s obs now owed)
unfolding sweep_agents
sweep_agents-Keeps s obs now [] = Extends-refl s.store.rows
sweep_agents-Keeps s obs now ((a, ids) ∷ owed) =
    let t = sweep_agent s obs now a ids in
    then s t (sweep_agents t obs now owed) (sweep_agent-Keeps s obs now a ids)
      (sweep_agents-Keeps (sweep_agent s obs now a ids) obs now owed)

pub sweep-Keeps : (s : Router) (obs : StateSource) (now : Moment) → Keeps s (sweep s obs now)
unfolding sweep sweep_expired sweep_owed
sweep-Keeps s obs now =
    let t = sweep_expired s now in
    then s t (sweep_agents t obs now t.owed)
      (fail_all-Keeps s now (λ id. timeout id s.workflow.ask_timeout) (due now.instant s.deadlines))
      (sweep_agents-Keeps t obs now t.owed)

fail_pending-Keeps :
    (now : Moment) (a : AgentId) (res : Store.Result (List MessageRecord)) (s : Router)
    → Keeps s (fail_pending now a res s)
fail_pending-Keeps now a (Store.ok records) s = fail_all-Keeps s now _ _
fail_pending-Keeps now a (Store.err e) s = Extends-refl s.store.rows

pub on_agent_restarted-Keeps :
    (s : Router) (now : Moment) (a : AgentId) → Keeps s (on_agent_restarted s now a)
unfolding on_agent_restarted
on_agent_restarted-Keeps s now a =
    let t = forget_turn s a in
    let u = suppress_pending a (Store.pending_asks t.store) t in
    let listed = Store.pending_to_agent u.store a in
    then s u (fail_pending now a listed u)
      (Keeps-of_SameBooks t u (suppress_pending-SameBooks a (Store.pending_asks t.store) t))
      (fail_pending-Keeps now a listed u)

step-Keeps : (s : Router) (call : Moment × Call) → Keeps s (step s call)
unfolding step bind_kickoff_contract unbind_kickoff_contract
step-Keeps s (now, creates id from to kind body flow) = create-Keeps s now id from to kind body flow
step-Keeps s (now, replies from id code body) = reply-Keeps s now from id code body
step-Keeps s (now, drives d signal) = drive-Keeps s now d signal
step-Keeps s (now, sweeps obs) = sweep-Keeps s obs now
step-Keeps s (now, restarts a) = on_agent_restarted-Keeps s now a
step-Keeps s (now, rests obs a) = Keeps-of_SameBooks s _ (on_stable_idle-SameBooks s obs now a)
step-Keeps s (now, ends_loop owner target) =
    Keeps-of_SameBooks s _ (mark_loop_done-SameBooks s owner target)
step-Keeps s (now, binds origin contract) = Extends-refl s.store.rows
step-Keeps s (now, unbinds origin) = Extends-refl s.store.rows

pub run-Extends :
    (s : Router) (calls : List (Moment × Call)) → Extends (run s calls).store.rows s.store.rows
unfolding run
run-Extends s [] = Extends-refl s.store.rows
run-Extends s (call ∷ calls) =
    then s (step s call) (run (step s call) calls) (step-Keeps s call)
      (run-Extends (step s call) calls)

-- The later form of a row in a table.
pub record IsAdvanced (id : MessageId) (row : Row) (rows : List Row) : Type 0 where
  pub later : Row
  pub found : find (has_id id) rows ≡ some later
  pub advances : Advances row later

-- Whatever calls are made, a message that the table holds is held ever after, with its kind, sender,
-- addressee, body, creation time and run, and its status never goes back in the order queued, injected,
-- working, ended.
pub run-Advances :
    (s : Router) (calls : List (Moment × Call)) (id : MessageId) (row : Row)
    → find (has_id id) s.store.rows ≡ some row
    → IsAdvanced id row (run s calls).store.rows
run-Advances s calls id row found =
    let kept = run-Extends s calls id row found in
    record { later = kept.later; found = kept.found; advances = kept.follows.advances }

-- Once a message is done, replied or failed, no call and no sequence of calls changes any column of it.
pub run_ended :
    (s : Router) (calls : List (Moment × Call)) (id : MessageId) (row : Row)
    → find (has_id id) s.store.rows ≡ some row
    → is_terminal row.message.status ≡ true
    → find (has_id id) (run s calls).store.rows ≡ some row
run_ended s calls id row found ended =
    let kept = run-Extends s calls id row found in kept.found ∙ ap some (kept.follows.final ended)
