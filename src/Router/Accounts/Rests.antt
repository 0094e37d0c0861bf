-- ===== src/Router/Accounts/Rests.antt =====
-- core/src/router/mod.rs: an agent that comes to rest touches neither the table nor the books.
use core_tempo.Common.{
  is_some, ℕ, inl, inr, Bool, true, false, List, [], ◌∷◌, ◌-◌, string_eq, Option, none, some, arith,
  ltb, Bool-cases,
}
use core_tempo.Common.Dict.{Dict}
use core_tempo.Common.Dict
use core_tempo.Types.Ids.{AgentId, MessageId}
use core_tempo.Types.Config.{Edge, AgentConfig}
use core_tempo.Router.State.{Moment, Router, TurnState, ReplyNudgeState, backoff_after}
use core_tempo.Router.Gate.{
  StateSource, IdleDecision, on_stable_idle, owed_of, owed_decision, owed_reply_decision,
  after_owed, tell_round, nudge_round, turn_decision, hold_turn, close_turn, unmet_edges,
  pending_asks, advance_nudge_round,
}
use core_tempo.Router.Watchdog.{due}
use core_tempo.Router.Accounts.Same.{SameBooks, SameBooks-trans}

tell_round-SameBooks :
    (s : Router) (now : Moment) (a : AgentId) (owed : List MessageId)
    (told : Router × Option ℕ × Bool)
    → SameBooks s told.0
    → SameBooks s (tell_round now a owed told).0
tell_round-SameBooks s now a owed (t, some round, stall) b = record {
  store = b.store;
  counts = b.counts;
  owed = b.owed;
  deadlines = b.deadlines;
}
tell_round-SameBooks s now a owed (t, none, true) b = record {
  store = b.store;
  counts = b.counts;
  owed = b.owed;
  deadlines = b.deadlines;
}
tell_round-SameBooks s now a owed (t, none, false) b = b

nudge_round-SameBooks :
    (s : Router) (now : ℕ) (a : AgentId) (nudges : Option ReplyNudgeState)
    → SameBooks s (nudge_round s now a nudges).0
nudge_round-SameBooks s now a none = ground arith
nudge_round-SameBooks s now a (some n) =
    elim (Bool-cases (ltb (now - n.last_nudge_at) (backoff_after s.timing n.nudges))) [
      | inl early ↦ rw early (ground arith)
      | inr due ↦ rw due (ground arith)
    ]

owed_decision-SameBooks :
    (s : Router) (obs : StateSource) (now : Moment) (a : AgentId) (ids : List MessageId)
    → SameBooks s (owed_decision s obs now a ids).0
unfolding advance_nudge_round
owed_decision-SameBooks s obs now a [] = ground arith
owed_decision-SameBooks s obs now a (id ∷ ids) = elim (Bool-cases (is_some (obs.blocked_since a))) [
  | inl stuck ↦ rw stuck (ground arith)
  | inr free ↦ rw free (tell_round-SameBooks s now a _ _ (nudge_round-SameBooks s now.instant a _))
]

hold_turn-SameBooks :
    (s : Router) (now : Moment) (a : AgentId) (turn : TurnState) (unmet : List Edge)
    → SameBooks s (hold_turn s now a turn unmet).0
hold_turn-SameBooks s now a turn [] = closed turn.capped
  where
    closed : (capped : List AgentId) → SameBooks s (close_turn s now a turn capped).0
    closed [] = ground arith
    closed (to ∷ tos) = ground arith
hold_turn-SameBooks s now a turn (e ∷ es) = ground arith

turn_decision-SameBooks :
    (s : Router) (now : Moment) (a : AgentId) (cfg : Option AgentConfig) (turn : Option TurnState)
    → SameBooks s (turn_decision s now a cfg turn).0
unfolding unmet_edges
turn_decision-SameBooks s now a none turn = ground arith
turn_decision-SameBooks s now a (some cfg) none = ground arith
turn_decision-SameBooks s now a (some cfg) (some turn) = hold_turn-SameBooks s now a turn _

after_owed-SameBooks :
    (s t : Router) (obs : StateSource) (now : Moment) (a : AgentId) (told : Option IdleDecision)
    → SameBooks s t
    → SameBooks s (after_owed obs now a (t, told)).0
after_owed-SameBooks s t obs now a (some d) b = b
after_owed-SameBooks s t obs now a none b = elim (Bool-cases (is_some (obs.blocked_since a))) [
  | inl stuck ↦ rw stuck b
  | inr free ↦
      let c =
        turn_decision-SameBooks t now a (Dict.lookup a t.workflow.agents) (Dict.lookup a t.turns) in
      rw free (SameBooks-trans s t _ b c)
]

pub on_stable_idle-SameBooks :
    (s : Router) (obs : StateSource) (now : Moment) (a : AgentId)
    → SameBooks s (on_stable_idle s obs now a).0
unfolding on_stable_idle owed_reply_decision
on_stable_idle-SameBooks s obs now a = elim (Bool-cases (ltb 0 (pending_asks s a))) [
  | inl waits ↦ rw waits (ground arith)
  | inr free ↦
      let owed = owed_decision s obs now a (owed_of s a) in
      rw free (
        after_owed-SameBooks s owed.0 obs now a owed.1
          (owed_decision-SameBooks s obs now a (owed_of s a)))
]
