-- ===== src/Router/Loops.antt =====
-- core/src/router/mod.rs: loop edges, their rounds and their end.
use core_tempo.Common.{
  ℕ, String, Bool, true, false, ◌&&◌, List, [], ◌∷◌, map, Option, none, some, ◌==◌, string_eq,
  pair_eq, if◌then◌else◌, leb, find, join, concat, unwrap_or,
}
use core_tempo.Common.Dict
use core_tempo.Common.KeySet
use core_tempo.Types.Ids.{AgentId}
use core_tempo.Types.Message.{MessageKind, kind_eq}
use core_tempo.Types.Config.{
  Edge, EdgeKind, AgentConfig, edge_kind_eq, edge_as_str, effective_max_rounds,
}
use core_tempo.Router.State.{Router, no_loop_edge, Result, ok, err, TurnState, default_turn}

abbrev pub edges_of : Option AgentConfig → List Edge
edges_of none = []
edges_of (some cfg) = cfg.edges

-- The owner's loop edge to `target`, if there is one.
unfoldable pub loop_edge : Router → AgentId → AgentId → Option Edge
loop_edge s owner target =
    find (λ e. e.kind == EdgeKind.loop && e.to == target)
      (edges_of (Dict.lookup owner s.workflow.agents))

abbrev edge_list : Option AgentConfig → String
edge_list none = "(unknown agent)"
edge_list (some cfg) = elim cfg.edges [
  | [] ↦ "(none)"
  | e ∷ es ↦ join ", " (map (λ x. concat (edge_as_str x.kind ∷ " " ∷ x.to ∷ [])) (e ∷ es))
]

-- An open turn is changed, none is opened (`get_mut`).
abbrev pub update_turn : (TurnState → TurnState) → AgentId → Router → Router
update_turn f a s = elim (Dict.lookup a s.turns) [
  | none ↦ s
  | some turn ↦ record s { turns = Dict.insert a (f turn) s.turns }
]

unfoldable pub mark_loop_done : Router → AgentId → AgentId → Router × Result (Unit {0})
unfolding loop_edge
mark_loop_done s owner target = elim (loop_edge s owner target) [
  | none ↦ (s, err (no_loop_edge owner target (edge_list (Dict.lookup owner s.workflow.agents))))
  | some edge ↦ (
    update_turn (λ turn. record turn { capped = KeySet.remove target turn.capped }) owner
        (record s { loops_done = KeySet.insert (owner, target) s.loops_done }),
    ok tt,
  )
]

abbrev pub open_turn : Router → AgentId → TurnState
open_turn s a = unwrap_or default_turn (Dict.lookup a s.turns)

abbrev pub rounds_of : Router → AgentId → AgentId → ℕ
rounds_of s owner target = unwrap_or 0 (Dict.lookup (owner, target) s.loop_rounds)

-- At the cap the target is marked; below it the ask of the round just ended no longer counts.
abbrev pub next_round : Bool → AgentId → TurnState → TurnState
next_round true replier turn = record turn {
  capped = KeySet.insert replier turn.capped;
  nudged = false;
  stalled = false;
}
next_round false replier turn = record turn {
  met = KeySet.remove (replier, MessageKind.ask) turn.met;
  nudged = false;
  stalled = false;
}

abbrev pub rearm : Router → AgentId → AgentId → Option Edge → Router
rearm s owner replier none = s
rearm s owner replier (some edge) =
    if KeySet.member (owner, replier) s.loops_done then s else record s {
      turns =
          Dict.insert owner
            (next_round (leb (effective_max_rounds edge) (rounds_of s owner replier)) replier
              (open_turn s owner))
            s.turns;
    }

-- A reply from a loop's target brings the round back to its owner.
unfoldable pub rearm_loop_after_reply : Router → AgentId → AgentId → Router
unfolding loop_edge
rearm_loop_after_reply s owner replier = rearm s owner replier (loop_edge s owner replier)
