-- ===== src/Router/Gate.antt =====
-- core/src/router/mod.rs: what an agent that has come to rest is told (`ClearGate for Router`), and the
-- counts that quiescence reads. The debounced states and the permission dialogs come from the terminal
-- side through `StateSource`.
pub mod Safety
pub mod Reminders
pub mod Rounds
use core_tempo.Common.{
  is_some, ℕ, zero, suc, ◌+◌, ◌-◌, String, Bool, true, false, not, ◌&&◌, ◌||◌, List, [], ◌∷◌,
  Option, none, some, ◌==◌, string_eq, pair_eq, if◌then◌else◌, leb, ltb, filter, unwrap_or, str_leb,
}
use core_tempo.Common.Dict
use core_tempo.Common.KeySet
use core_tempo.Types.Ids.{AgentId, MessageId}
use core_tempo.Types.Message.{MessageKind, kind_eq}
use core_tempo.Types.Config.{
  Edge, EdgeKind, AgentConfig, AgentState, message_kind, effective_max_rounds,
}
use core_tempo.Types.Event.{agent_nudged, agent_stalled}
use core_tempo.Router.State.{
  Moment, Router, TurnState, ReplyNudgeState, WatchdogTiming, backoff_after, publish,
}
use core_tempo.Router.Loops.{loop_edge}
use core_tempo.Router.Sinks.{render_nudge, render_reply_nudge, render_cap_nudge}

-- core/src/pty/mod.rs: a dialog, and what the gate wants done.
pub record Blocked : Type 0 where
  pub since : ℕ
  pub tool : Option String

pub data IdleDecision : Type 0 where
  allow_clear : IdleDecision
  nudge : String → IdleDecision
  hold_quiet : IdleDecision

-- What the terminal side reports at the moment of a call.
pub record StateSource : Type 0 where
  pub debounced : AgentId → Option AgentState
  pub blocked_since : AgentId → Option Blocked

abbrev pub pending_asks : Router → AgentId → ℕ
pending_asks s a = unwrap_or 0 (Dict.lookup a s.counts)

unfoldable pub total_pending_asks_among : Router → List AgentId → ℕ
total_pending_asks_among s [] = 0
total_pending_asks_among s (a ∷ as') = pending_asks s a + total_pending_asks_among s as'

unfoldable pub open_turns_among : Router → List AgentId → ℕ
open_turns_among s [] = 0
open_turns_among s (a ∷ as') =
    (if is_some (Dict.lookup a s.turns) then 1 else 0) + open_turns_among s as'

abbrev pub owed_of : Router → AgentId → List MessageId
owed_of s a = unwrap_or [] (Dict.lookup a s.owed)

-- `sort_by` on the texts.
insert_sorted : MessageId → List MessageId → List MessageId
insert_sorted id [] = id ∷ []
insert_sorted id (j ∷ ids) = if str_leb id j then id ∷ j ∷ ids else j ∷ insert_sorted id ids

unfoldable pub sort : List MessageId → List MessageId
unfolding insert_sorted
sort [] = []
sort (id ∷ ids) = insert_sorted id (sort ids)

abbrev pub put_nudges : AgentId → ReplyNudgeState → Router → Router
put_nudges a n s = record s { owed_nudges = Dict.insert a n s.owed_nudges }

-- `duration_since` is 0 where the clock has not moved.
abbrev pub nudge_round : Router → ℕ → AgentId → Option ReplyNudgeState → Router × Option ℕ × Bool
nudge_round s now a none =
    (put_nudges a (record { nudges = 1; last_nudge_at = now; stalled = false }) s, some 1, false)
nudge_round s now a (some n) =
    if ltb (now - n.last_nudge_at) (backoff_after s.timing n.nudges)
    then (put_nudges a (record n { stalled = true }) s, none, not n.stalled)
    else (
      put_nudges a (record { nudges = n.nudges + 1; last_nudge_at = now; stalled = false }) s,
      some (n.nudges + 1),
      false,
    )

-- The round to nudge, if one is due, and whether the stall is still to be told.
unfoldable pub advance_nudge_round : Router → ℕ → AgentId → Router × Option ℕ × Bool
advance_nudge_round s now a = nudge_round s now a (Dict.lookup a s.owed_nudges)

abbrev pub tell_round :
    Moment → AgentId → List MessageId → Router × Option ℕ × Bool → Router × Option IdleDecision
tell_round now a owed (s, some round, stall) =
    (publish s now (agent_nudged a), some (nudge (render_reply_nudge owed round)))
tell_round now a owed (s, none, true) = (publish s now (agent_stalled a), some hold_quiet)
tell_round now a owed (s, none, false) = (s, some hold_quiet)

abbrev pub owed_decision :
    Router → StateSource → Moment → AgentId → List MessageId → Router × Option IdleDecision
owed_decision s obs now a [] = (s, none)
owed_decision s obs now a (id ∷ ids) =
    if is_some (obs.blocked_since a)
    then (s, some hold_quiet)
    else tell_round now a (sort (id ∷ ids)) (advance_nudge_round s now.instant a)

-- `none`: nothing is owed.
unfoldable pub owed_reply_decision :
    Router → StateSource → Moment → AgentId → Router × Option IdleDecision
unfolding advance_nudge_round
owed_reply_decision s obs now a = owed_decision s obs now a (owed_of s a)

abbrev pub is_unmet_kind : Router → AgentId → TurnState → AgentId → EdgeKind → Bool
is_unmet_kind s a turn to EdgeKind.ask = not (KeySet.member (to, MessageKind.ask) turn.met)
is_unmet_kind s a turn to EdgeKind.send = not (KeySet.member (to, MessageKind.send) turn.met)
is_unmet_kind s a turn to EdgeKind.loop =
    not (KeySet.member (to, MessageKind.ask) turn.met)
    && not (KeySet.member (a, to) s.loops_done)
    && not (KeySet.member to turn.capped)

abbrev pub is_unmet : Router → AgentId → TurnState → Edge → Bool
is_unmet s a turn e = is_unmet_kind s a turn e.to e.kind

unfoldable pub unmet_edges : Router → AgentId → TurnState → List Edge → List Edge
unmet_edges s a turn = filter (is_unmet s a turn)

abbrev pub put_turn : AgentId → TurnState → Router → Router
put_turn a turn s = record s { turns = Dict.insert a turn s.turns }

unfoldable pub capped_loops : Router → AgentId → List AgentId → List (AgentId × ℕ)
capped_loops s a [] = []
capped_loops s a (to ∷ tos) = elim (loop_edge s a to) [
  | none ↦ capped_loops s a tos
  | some e ↦ (to, effective_max_rounds e) ∷ capped_loops s a tos
]

-- Nothing unmet: a capped loop is told once, then the turn closes.
abbrev pub close_turn : Router → Moment → AgentId → TurnState → List AgentId → Router × IdleDecision
close_turn s now a turn [] = (record s { turns = Dict.remove a s.turns }, allow_clear)
close_turn s now a turn (to ∷ tos) =
    if turn.nudged then (record s { turns = Dict.remove a s.turns }, allow_clear) else (
      publish (put_turn a (record turn { nudged = true }) s) now (agent_nudged a),
      nudge (render_cap_nudge (capped_loops s a (to ∷ tos))),
    )

abbrev pub hold_turn : Router → Moment → AgentId → TurnState → List Edge → Router × IdleDecision
hold_turn s now a turn [] = close_turn s now a turn turn.capped
hold_turn s now a turn (e ∷ es) =
    if turn.nudged
    then (let t = put_turn a (record turn { stalled = true }) s in
        if turn.stalled then (t, hold_quiet) else (publish t now (agent_stalled a), hold_quiet))
    else (
      publish (put_turn a (record turn { nudged = true }) s) now (agent_nudged a),
      nudge (render_nudge (e ∷ es)),
    )

abbrev pub turn_decision :
    Router → Moment → AgentId → Option AgentConfig → Option TurnState → Router × IdleDecision
turn_decision s now a none turn = (s, allow_clear)
turn_decision s now a (some cfg) none = (s, allow_clear)
turn_decision s now a (some cfg) (some turn) =
    hold_turn s now a turn (unmet_edges s a turn cfg.edges)

abbrev pub after_owed :
    StateSource → Moment → AgentId → Router × Option IdleDecision → Router × IdleDecision
after_owed obs now a (s, some decision) = (s, decision)
after_owed obs now a (s, none) =
    if is_some (obs.blocked_since a)
    then (s, hold_quiet)
    else turn_decision s now a (Dict.lookup a s.workflow.agents) (Dict.lookup a s.turns)

unfoldable pub on_stable_idle : Router → StateSource → Moment → AgentId → Router × IdleDecision
unfolding owed_reply_decision unmet_edges
on_stable_idle s obs now a =
    if ltb 0 (pending_asks s a)
    then (s, hold_quiet)
    else after_owed obs now a (owed_reply_decision s obs now a)
