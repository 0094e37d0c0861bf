-- ===== src/Router/Gate/Safety.antt =====
-- core/src/router/mod.rs: when `on_stable_idle` lets an agent's context be cleared, and how often it speaks.
use core_tempo.Common.{
  ℕ, ◌≡◌, ◌≢◌, refl, inl, inr, Bool, true, false, List, [], ◌∷◌, Option, none, some, arith, find,
  ltb, string_eq, Bool-cases, Option-cases, count,
}
use core_tempo.Common.Dict.{lookup-insert, lookup-remove}
use core_tempo.Common.Dict
use core_tempo.Common.KeySet
use core_tempo.Types.Ids.{AgentId, MessageId}
use core_tempo.Types.Config.{AgentConfig, Edge}
use core_tempo.Store.{has_id}
use core_tempo.Store.Rows.{test}
use core_tempo.Router.State.{Moment, Router, TurnState}
use core_tempo.Router.Gate.{
  StateSource, allow_clear, on_stable_idle, owed_of, owed_decision, owed_reply_decision, after_owed,
  tell_round, turn_decision, hold_turn, unmet_edges, pending_asks, advance_nudge_round, sort,
}
use core_tempo.Router.Accounts.{Accounts, asked_by, owed_by}

-- What must hold for the context of `a` to be cleared.
pub record IsClear (s : Router) (obs : StateSource) (a : AgentId) : Type 0 where
  pub waits_for_none : pending_asks s a ≡ 0
  pub owes_none : owed_of s a ≡ []
  pub unblocked : obs.blocked_since a ≡ none
  pub met :
      (cfg : AgentConfig) (turn : TurnState)
      → Dict.lookup a s.workflow.agents ≡ some cfg
      → Dict.lookup a s.turns ≡ some turn
      → unmet_edges s a turn cfg.edges ≡ []

hold_turn-unmet :
    (s t : Router) (now : Moment) (a : AgentId) (turn : TurnState) (unmet : List Edge)
    → hold_turn s now a turn unmet ≡ (t, allow_clear)
    → unmet ≡ []
hold_turn-unmet s t now a turn [] h = refl
hold_turn-unmet s t now a turn (e ∷ es) h = ground (arith, h)

turn_decision-met :
    (s t : Router) (now : Moment) (a : AgentId) (found : Option AgentConfig)
    (opened : Option TurnState)
    → turn_decision s now a found opened ≡ (t, allow_clear)
    → (cfg : AgentConfig) (turn : TurnState) → found ≡ some cfg
    → opened ≡ some turn
    → unmet_edges s a turn cfg.edges ≡ []
turn_decision-met s t now a none opened h cfg turn f o = absurd (ground (arith, f))
turn_decision-met s t now a (some c) none h cfg turn f o = absurd (ground (arith, o))
turn_decision-met s t now a (some c) (some u) h cfg turn f o =
    let same : (c ≡ cfg) × (u ≡ turn) = ground (arith, f, o) in
    rw⁻¹ (same.0, same.1) (hold_turn-unmet s t now a u _ h)

tell_round-quiet :
    (now : Moment) (a : AgentId) (owed : List MessageId) (told : Router × Option ℕ × Bool)
    (obs : StateSource) (t : Router)
    → after_owed obs now a (tell_round now a owed told) ≢ (t, allow_clear)
tell_round-quiet now a owed (s, some round, stall) obs t h = ground (arith, h)
tell_round-quiet now a owed (s, none, true) obs t h = ground (arith, h)
tell_round-quiet now a owed (s, none, false) obs t h = ground (arith, h)

IsClear-of_owed :
    (s t : Router) (obs : StateSource) (now : Moment) (a : AgentId) (ids : List MessageId)
    → owed_of s a ≡ ids
    → pending_asks s a ≡ 0
    → after_owed obs now a (owed_decision s obs now a ids) ≡ (t, allow_clear)
    → IsClear s obs a
IsClear-of_owed s t obs now a (id ∷ ids) owes waits h = elim (Option-cases (obs.blocked_since a)) [
  | inr (b, stuck) ↦ absurd (ground (arith, rw stuck at h))
  | inl free ↦ absurd (
      tell_round-quiet now a (sort (id ∷ ids)) (advance_nudge_round s now.instant a) obs t
        (rw free at h))
]
IsClear-of_owed s t obs now a [] owes waits h = elim (Option-cases (obs.blocked_since a)) [
  | inr (b, stuck) ↦ absurd (ground (arith, rw stuck at h))
  | inl free ↦ record {
    waits_for_none = waits;
    owes_none = owes;
    unblocked = free;
    met = turn_decision-met s t now a _ _ (rw free at h);
  }
]

on_stable_idle-IsClear :
    (s t : Router) (obs : StateSource) (now : Moment) (a : AgentId)
    → on_stable_idle s obs now a ≡ (t, allow_clear)
    → IsClear s obs a
unfolding on_stable_idle owed_reply_decision
on_stable_idle-IsClear s t obs now a h = elim (Bool-cases (ltb 0 (pending_asks s a))) [
  | inl waits ↦ absurd (ground (arith, rw waits at h))
  | inr free ↦
      IsClear-of_owed s t obs now a (owed_of s a) refl (ground (arith, free)) (rw free at h)
]

-- The steps that the open turn of `a`, if it has one, still asks of it.
abbrev pub unmet_of : Router → AgentId → Option AgentConfig → Option TurnState → List Edge
unmet_of s a (some cfg) (some turn) = unmet_edges s a turn cfg.edges
unmet_of s a (some cfg) none = []
unmet_of s a none turn = []

unmet_of_met :
    (s : Router) (a : AgentId) (found : Option AgentConfig) (opened : Option TurnState)
    → ((cfg : AgentConfig) (turn : TurnState)
        → found ≡ some cfg
        → opened ≡ some turn
        → unmet_edges s a turn cfg.edges ≡ [])
    → unmet_of s a found opened ≡ []
unmet_of_met s a (some cfg) (some turn) met = met cfg turn refl refl
unmet_of_met s a (some cfg) none met = refl
unmet_of_met s a none turn met = refl

-- If an agent that has come to rest is told that its context may be cleared, and the books agree with the
-- table, then no ask by it and none to it is going in the run, no permission dialog stands in its pane, and
-- each step that its open turn asks of it has been taken, ended or capped.
pub clear_is_safe :
    {peers : MessageId → Bool} (s t : Router) (obs : StateSource) (now : Moment) (a : AgentId)
    → Accounts peers s
    → on_stable_idle s obs now a ≡ (t, allow_clear)
    → (count (asked_by s.store.run_id a) s.store.rows ≡ 0)
      × ((id : MessageId) → test (owed_by s.store.run_id a) (find (has_id id) s.store.rows) ≡ false)
      × (obs.blocked_since a ≡ none)
      × (unmet_of s a (Dict.lookup a s.workflow.agents) (Dict.lookup a s.turns) ≡ [])
unfolding KeySet.member
clear_is_safe s t obs now a books h =
    let c = on_stable_idle-IsClear s t obs now a h in
    (
      ground (arith, books.counted a, c.waits_for_none),
      (λ id. rw⁻¹ (books.owing a id) (rw c.owes_none refl)),
      c.unblocked,
      unmet_of_met s a (Dict.lookup a s.workflow.agents) (Dict.lookup a s.turns) c.met,
    )
