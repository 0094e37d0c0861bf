-- ===== src/Trigger/Watch.antt =====
-- core/src/trigger.rs: `watch_completion`. What a watcher awaits comes as lists: the answers of the
-- store, what the event channel gives, the passes of the quiescence loop. `none` is a watcher that
-- still waits when they end.
pub mod Quiet
pub mod Arrivals
pub mod Ends
pub mod Reports
use core_tempo.Common.{
  ℕ, String, Bool, true, false, not, ◌&&◌, ◌||◌, List, [], ◌∷◌, Option, none, some, ◌==◌, nat_eq,
  string_eq, ltb, if◌then◌else◌, or_else, find, concat, show, map,
}
use core_tempo.Common.KeySet.{member}
use core_tempo.Types.Ids.{AgentId, MessageId}
use core_tempo.Types.Json.{Json}
use core_tempo.Types.Config.{AgentState, state_eq}
use core_tempo.Types.Config
use core_tempo.Types.Event.{EventPayload, agent_lifecycle, message_status_changed, LifecyclePhase}
use core_tempo.Types.Event
use core_tempo.Types.Message.{MessageRecord, MessageKind, kind_eq}
use core_tempo.Types.Message
use core_tempo.Router.State.{Router}
use core_tempo.Router.Gate.{total_pending_asks_among, open_turns_among}
use core_tempo.Schema.Check.{OutputContract}
use core_tempo.Workflow.Validate.{Outcome, ok, err}
use core_tempo.Trigger.Outcome.{
  Completion, quiesced, timeout, exited, bus_closed, channel_closed, store_failed, completion_event,
  terminal_completion, Arming, armed, never, arming,
}

-- A fresh read of the kickoff's record.
abbrev pub Fetch : Type 0
Fetch = Outcome MessageRecord String

-- What the event channel gives; after a lag the record is read again.
pub data Received : Type 0 where
  event : EventPayload → Received
  lagged : Fetch → Received
  closed : Received

-- An exit of an agent of the roster.
abbrev pub exit_of : List AgentId → AgentId → LifecyclePhase → Option Completion
exit_of roster agent LifecyclePhase.exited =
    if member agent roster then some (exited agent) else none
exit_of roster agent _ = none

module _ (parse : List ℕ → Outcome Json String) (roster : List AgentId) (id : MessageId)
    (contract : Option OutputContract) where
  abbrev pub recheck : Fetch → Option Completion
  recheck (err e) = some (store_failed e)
  recheck (ok rec) = terminal_completion parse rec contract

  abbrev pub ask_event : EventPayload → Option Completion
  ask_event (message_status_changed message) =
      if message.id == id then terminal_completion parse message contract else none
  ask_event (agent_lifecycle agent phase exit) = exit_of roster agent phase
  ask_event _ = none

  abbrev pub ask_received : Received → Option Completion
  ask_received (event payload) = ask_event payload
  ask_received (lagged fetch) = recheck fetch
  ask_received closed = some bus_closed

  pub await_events : List Received → Option Completion
  await_events [] = none
  await_events (r ∷ rs) = or_else (ask_received r) (await_events rs)

  pub await_reply : Fetch → List Received → Option Completion
  unfolding await_events
  await_reply fetch events = or_else (recheck fetch) (await_events events)

-- Phase 1 of a send.
abbrev pub arming_fetched : Fetch → Option Arming
arming_fetched (err e) = some (never (store_failed e))
arming_fetched (ok rec) = arming rec

abbrev pub never_after : Option Completion → Option Arming
never_after none = none
never_after (some c) = some (never c)

module _ (roster : List AgentId) (id : MessageId) where
  abbrev pub arming_event : EventPayload → Option Arming
  arming_event (message_status_changed message) = if message.id == id then arming message else none
  arming_event (agent_lifecycle agent phase exit) = never_after (exit_of roster agent phase)
  arming_event _ = none

  abbrev pub arming_received : Received → Option Arming
  arming_received (event payload) = arming_event payload
  arming_received (lagged fetch) = arming_fetched fetch
  arming_received closed = some (never bus_closed)

  pub await_arming_events : List Received → Option Arming
  await_arming_events [] = none
  await_arming_events (r ∷ rs) = or_else (arming_received r) (await_arming_events rs)

  pub await_arming : Fetch → List Received → Option Arming
  unfolding await_arming_events
  await_arming fetch events = or_else (arming_fetched fetch) (await_arming_events events)

-- What `check` reads: each agent's debounced state and the depth of its queue, and the router.
pub record Observed : Type 0 where
  pub debounced : AgentId → AgentState
  pub depth : AgentId → Outcome ℕ String
  pub router : Router

-- The states of the agents subscribed to, which are the roster's, in its order.
abbrev pub observed_states : List AgentId → Observed → List (AgentId × AgentState)
observed_states roster o = map (λ agent. (agent, o.debounced agent)) roster

pub data Verdict : Type 0 where
  quiescent : Verdict
  blocked : String → Verdict
  gone : AgentId → Verdict

abbrev pub depth_verdict : AgentId → Outcome ℕ String → Option Verdict
depth_verdict agent (ok n) =
    if n == 0
    then none
    else some (blocked (concat ("agent '" ∷ agent ∷ "' has " ∷ show n ∷ " queued" ∷ [])))
depth_verdict agent (err e) =
    some (blocked (concat ("agent '" ∷ agent ∷ "' queue depth: " ∷ e ∷ [])))

unfoldable pub check_depths :
    (AgentId → Outcome ℕ String) → List (AgentId × AgentState) → Option Verdict
check_depths depth [] = none
check_depths depth ((agent, state) ∷ states) =
    or_else (depth_verdict agent (depth agent)) (check_depths depth states)

unfoldable pub router_verdict : Router → List AgentId → Verdict
unfolding total_pending_asks_among open_turns_among
router_verdict router roster =
    let asks = total_pending_asks_among router roster in
    let turns = open_turns_among router roster in
    if ltb 0 asks
    then blocked (concat (show asks ∷ " ask(s) awaiting a reply" ∷ []))
    else if ltb 0 turns
    then blocked (concat (show turns ∷ " agent(s) mid-turn" ∷ []))
    else quiescent

abbrev pub or_verdict : Option Verdict → Verdict → Verdict
or_verdict none v = v
or_verdict (some w) v = w

abbrev state_name : AgentState → String
state_name Config.starting = "Starting"
state_name Config.idle = "Idle"
state_name Config.working = "Working"
state_name Config.exited = "Exited"
state_name Config.restarting = "Restarting"

abbrev pub busy_verdict : Option (AgentId × AgentState) → Option Verdict
busy_verdict none = none
busy_verdict (some (agent, state)) =
    some (blocked (concat ("agent '" ∷ agent ∷ "' is " ∷ state_name state ∷ [])))

abbrev pub gone_verdict : Option (AgentId × AgentState) → Option Verdict
gone_verdict none = none
gone_verdict (some (agent, state)) = some (gone agent)

pub check : List AgentId → Observed → Verdict
unfolding check_depths router_verdict
check roster o =
    let states = observed_states roster o in
    or_verdict (gone_verdict (find (λ s. s.1 == Config.exited) states)) (
      or_verdict (busy_verdict (find (λ s. not (s.1 == Config.idle)) states))
        (or_verdict (check_depths o.depth states) (router_verdict o.router roster)))

-- One pass: the first look; the channel that closed while a blocked look waited for a change; for each
-- agent whether its state changed in the dwell, or `none` where its channel closed; the second look.
pub record Pass : Type 0 where
  pub first : Observed
  pub wait : Option AgentId
  pub has_changed : AgentId → Option Bool
  pub second : Observed

abbrev pub moved_with : AgentId → Option Bool → Outcome Bool AgentId → Outcome Bool AgentId
moved_with agent none rest = err agent
moved_with agent (some changed) (ok moved) = ok (changed || moved)
moved_with agent (some changed) (err closed_one) = err closed_one

unfoldable pub moved_during_dwell : (AgentId → Option Bool) → List AgentId → Outcome Bool AgentId
moved_during_dwell has_changed [] = ok false
moved_during_dwell has_changed (agent ∷ roster) =
    moved_with agent (has_changed agent) (moved_during_dwell has_changed roster)

abbrev pub waited : Option AgentId → Option Completion
waited none = none
waited (some agent) = some (channel_closed agent)

abbrev pub second_look : Verdict → Option Completion
second_look (gone agent) = some (exited agent)
second_look (blocked reason) = none
second_look quiescent = some quiesced

abbrev pub after_dwell : Outcome Bool AgentId → Verdict → Option Completion
after_dwell (err agent) v = some (channel_closed agent)
after_dwell (ok true) v = none
after_dwell (ok false) v = second_look v

module _ (roster : List AgentId) where
  abbrev pub settle_at : Verdict → Pass → Option Completion
  settle_at (gone agent) p = some (exited agent)
  settle_at (blocked reason) p = waited p.wait
  settle_at quiescent p =
      after_dwell (moved_during_dwell p.has_changed roster) (check roster p.second)

  pub settle_once : Pass → Option Completion
  unfolding check moved_during_dwell
  settle_once p = settle_at (check roster p.first) p

  -- The loop, once every agent's state could be subscribed to.
  pub settle_passes : List Pass → Option Completion
  unfolding settle_once
  settle_passes [] = none
  settle_passes (p ∷ ps) = or_else (settle_once p) (settle_passes ps)

-- `subscribe_debounced` gives an error, or a channel.
abbrev pub refused : AgentId → Option String → Option Completion
refused agent none = none
refused agent (some error) =
    some
      (Completion.failed (concat ("cannot watch agent '" ∷ agent ∷ "': " ∷ error ∷ [])) "internal")

unfoldable pub subscribe_all : (AgentId → Option String) → List AgentId → Option Completion
subscribe_all refuses [] = none
subscribe_all refuses (agent ∷ roster) =
    or_else (refused agent (refuses agent)) (subscribe_all refuses roster)

pub await_quiescence : List AgentId → (AgentId → Option String) → List Pass → Option Completion
unfolding settle_passes subscribe_all
await_quiescence roster refuses passes =
    or_else (subscribe_all refuses roster) (settle_passes roster passes)

abbrev pub exit_event : List AgentId → EventPayload → Option Completion
exit_event roster (agent_lifecycle agent phase exit) = exit_of roster agent phase
exit_event roster _ = none

abbrev pub exit_received : List AgentId → Received → Option Completion
exit_received roster (event payload) = exit_event roster payload
exit_received roster (lagged fetch) = none
exit_received roster closed = some bus_closed

pub await_exit : List AgentId → List Received → Option Completion
await_exit roster [] = none
await_exit roster (r ∷ rs) = or_else (exit_received roster r) (await_exit roster rs)

-- All that one watch meets. `exit_wins` is the choice of the `select!` where both branches are ready.
pub record Course : Type 0 where
  pub fetch : Fetch
  pub events : List Received
  pub refuses : AgentId → Option String
  pub passes : List Pass
  pub later_events : List Received
  pub exit_wins : Bool

module _ (parse : List ℕ → Outcome Json String) (roster : List AgentId)
    (contract : Option OutputContract) (kickoff : MessageRecord) where
  abbrev pub watch_send : Course → Option Arming → Option Completion
  watch_send c none = none
  watch_send c (some (never completion)) = some completion
  watch_send c (some armed) =
      let settled = await_quiescence roster c.refuses c.passes in
      let left = await_exit roster c.later_events in
      if c.exit_wins then or_else left settled else or_else settled left

  pub drive : Course → Option Completion
  unfolding await_reply await_arming await_quiescence await_exit
  drive c =
      if kickoff.kind == Message.ask
      then await_reply parse roster kickoff.id contract c.fetch c.events
      else watch_send c (await_arming roster kickoff.id c.fetch c.events)

  -- A watch that still waits at its deadline has timed out.
  pub outcome : Course → Completion
  unfolding drive
  outcome c = elim (drive c) [ none ↦ timeout | some completion ↦ completion ]

  -- The completion, and the event that is published with it.
  unfoldable pub watch_completion : Option String → Course → Completion × EventPayload
  unfolding outcome completion_event
  watch_completion trigger_id c = (outcome c, completion_event (outcome c) trigger_id kickoff.id)
