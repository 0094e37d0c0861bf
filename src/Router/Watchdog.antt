-- ===== src/Router/Watchdog.antt =====
-- core/src/router/ttl.rs and mod.rs: the sweeper's two passes, a restart, and the wake-ups of the idle
-- gate. A pass takes its snapshot first and then acts on the live state.
pub mod Deadlines
pub mod Restarts
use Prim.Native.Nat.{max}
use core_tempo.Common.{
  is_some, ℕ, zero, suc, ◌+◌, ◌-◌, String, Bool, true, false, not, ◌&&◌, ◌||◌, List, [], ◌∷◌, ◌++◌,
  map, Option, none, some, ◌==◌, string_eq, if◌then◌else◌, leb, ltb, filter, unwrap_or, option_eq,
}
use core_tempo.Common.Dict.{Dict}
use core_tempo.Common.Dict
use core_tempo.Common.KeySet
use core_tempo.Types.Ids.{AgentId, MessageId}
use core_tempo.Types.Message.{Origin, agent, MessageRecord, origin_eq}
use core_tempo.Types.Config.{AgentState, idle, exited, state_eq}
use core_tempo.Store
use core_tempo.Router.State.{
  Moment, Router, FailReason, timeout, restarted, blocked, ReplyNudgeState, backoff_after,
  fail_message,
}
use core_tempo.Router.State
use core_tempo.Router.Gate.{Blocked, StateSource, pending_asks}

unfoldable pub fail_all : Router → Moment → (MessageId → FailReason) → List MessageId → Router
fail_all s now reason [] = s
fail_all s now reason (id ∷ ids) = fail_all (fail_message s now id (reason id)) now reason ids

abbrev pub due : ℕ → Dict MessageId ℕ → List MessageId
due now deadlines = map (λ x. x.0) (filter (λ x. leb x.1 now) deadlines)

unfoldable pub sweep_expired : Router → Moment → Router
unfolding fail_all
sweep_expired s now =
    fail_all s now (λ id. timeout id s.workflow.ask_timeout) (due now.instant s.deadlines)

unfoldable pub is_exited : StateSource → AgentId → Bool
is_exited obs a = obs.debounced a == some exited

-- The age of an ask is read off its deadline; an id without one counts nothing.
unfoldable pub oldest_owed_age : Router → ℕ → List MessageId → ℕ
oldest_owed_age s now [] = 0
oldest_owed_age s now (id ∷ ids) = elim (Dict.lookup id s.deadlines) [
  | none ↦ oldest_owed_age s now ids
  | some deadline ↦ max (s.workflow.ask_timeout - (deadline - now)) (oldest_owed_age s now ids)
]

abbrev pub round_is_due : Router → ℕ → List MessageId → Option ReplyNudgeState → Bool
round_is_due s now ids (some n) = leb (backoff_after s.timing n.nudges) (now - n.last_nudge_at)
round_is_due s now ids none = leb (backoff_after s.timing 0) (oldest_owed_age s now ids)

unfoldable pub poke_is_due : Router → StateSource → ℕ → AgentId → List MessageId → Bool
unfolding oldest_owed_age
poke_is_due s obs now a ids =
    if is_some (obs.blocked_since a) || ltb 0 (pending_asks s a)
    then false
    else if not (obs.debounced a == some idle)
    then false
    else round_is_due s now ids (Dict.lookup a s.owed_nudges)

-- A dialog that has stood for the grace.
abbrev pub past_grace : Router → ℕ → Option Blocked → Bool
past_grace s now none = false
past_grace s now (some b) = leb s.timing.blocked_grace (now - b.since)

abbrev pub dialog_tool : Option Blocked → Option String
dialog_tool none = none
dialog_tool (some b) = b.tool

unfoldable pub sweep_agent : Router → StateSource → Moment → AgentId → List MessageId → Router
unfolding is_exited poke_is_due
sweep_agent s obs now a ids =
    if past_grace s now.instant (obs.blocked_since a)
    then fail_all s now (λ id. blocked a (dialog_tool (obs.blocked_since a)) s.timing.blocked_grace)
        ids
    else if is_exited obs a
    then fail_all s now (λ id. State.exited a) ids
    else if poke_is_due s obs now.instant a ids
    then record s { reconsidered = s.reconsidered ++ a ∷ [] }
    else s

unfoldable pub sweep_agents : Router → StateSource → Moment → Dict AgentId (List MessageId) → Router
sweep_agents s obs now [] = s
sweep_agents s obs now ((a, ids) ∷ owed) = sweep_agents (sweep_agent s obs now a ids) obs now owed

unfoldable pub sweep_owed : Router → StateSource → Moment → Router
unfolding sweep_agents sweep_agent
sweep_owed s obs now = sweep_agents s obs now s.owed

-- One tick of the sweeper.
unfoldable pub sweep : Router → StateSource → Moment → Router
unfolding sweep_expired sweep_owed
sweep s obs now = sweep_owed (sweep_expired s now) obs now

abbrev pub suppress_asks : AgentId → List MessageRecord → List MessageId → List MessageId
suppress_asks a [] suppressed = suppressed
suppress_asks a (rec ∷ recs) suppressed =
    suppress_asks a recs
      (if rec.from == agent a then KeySet.insert rec.id suppressed else suppressed)

-- A query that fails is logged, and its sweep left out.
abbrev pub suppress_pending : AgentId → Store.Result (List MessageRecord) → Router → Router
suppress_pending a (Store.ok asks) s = record s { suppressed = suppress_asks a asks s.suppressed }
suppress_pending a (Store.err e) s = s

abbrev pub fail_pending : Moment → AgentId → Store.Result (List MessageRecord) → Router → Router
fail_pending now a (Store.ok records) s =
    fail_all s now (λ id. restarted a) (map (λ rec. rec.id) records)
fail_pending now a (Store.err e) s = s

-- The turn the agent was in, and the nudges it had, went with its context.
abbrev pub forget_turn : Router → AgentId → Router
forget_turn s a = record s {
  turns = Dict.remove a s.turns;
  owed_nudges = Dict.remove a s.owed_nudges;
}

unfoldable pub on_agent_restarted : Router → Moment → AgentId → Router
unfolding fail_all
on_agent_restarted s now a =
    let t = forget_turn s a in
    let u = suppress_pending a (Store.pending_asks t.store) t in
    fail_pending now a (Store.pending_to_agent u.store a) u
