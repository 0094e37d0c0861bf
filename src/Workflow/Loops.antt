-- ===== src/Workflow/Loops.antt =====
-- core/src/workflow.rs: the search for cycles of loop edges, `validate_loop_cycles` and `walk_loops`.
pub mod Walk
pub mod Search
pub mod Cycles
use core_tempo.Common.{
  ℕ, zero, suc, String, Bool, true, false, List, [], ◌∷◌, ◌++◌, Option, none, some, ◌==◌, string_eq,
  if◌then◌else◌, length, ◌>>=◌,
}
use core_tempo.Common.Dict.{Dict, lookup, keys}
use core_tempo.Common.KeySet.{member, insert}
use core_tempo.Types.Ids.{AgentId}
use core_tempo.Types.Config.{Edge, EdgeKind, loop, edge_kind_eq, AgentConfig}
use core_tempo.Workflow.Issues.{ValidationIssue, loop_cycle}
use core_tempo.Common.{concat}

-- `done` and `issues`, which the walk changes; `visiting` is as before at its return.
pub record Walked : Type 0 where
  pub done : List AgentId
  pub issues : List ValidationIssue

-- `visiting[pos..]`, from the agent on.
abbrev pub from_agent : AgentId → List AgentId → List AgentId
from_agent at [] = []
from_agent at (v ∷ visiting) = if v == at then v ∷ visiting else from_agent at visiting

abbrev pub report : AgentId → List AgentId → Walked → Walked
report at visiting w = record w {
  issues =
      w.issues
      ++ record {
        path = concat ("agents." ∷ at ∷ ".edges" ∷ []);
        problem = loop_cycle (from_agent at visiting ++ at ∷ []);
      }
        ∷ [];
}

-- The targets of an agent's loop edges.
abbrev pub targets : List Edge → List AgentId
targets [] = []
targets (edge ∷ edges) = if edge.kind == loop then edge.to ∷ targets edges else targets edges

abbrev pub loop_targets : Option AgentConfig → List AgentId
loop_targets none = []
loop_targets (some cfg) = targets cfg.edges

-- The loop over the edges; the call for one target is a parameter.
pub walk_targets : (AgentId → Walked → Option Walked) → List AgentId → Walked → Option Walked
walk_targets walk [] w = some w
walk_targets walk (to ∷ tos) w = walk to w >>= walk_targets walk tos

abbrev pub finish : AgentId → Walked → Option Walked
finish at w = some (record w { done = insert at w.done })

module _ (agents : Dict AgentId AgentConfig) where
  -- Each call goes one agent deeper; `none` means that the fuel ran out, which it does not.
  pub walk_loops : ℕ → List AgentId → AgentId → Walked → Option Walked
  walk_loops zero visiting at w = none
  walk_loops (suc fuel) visiting at w =
      let deeper =
        walk_targets (walk_loops fuel (visiting ++ at ∷ [])) (loop_targets (lookup at agents)) w in
      if member at visiting
      then some (report at visiting w)
      else if member at w.done
      then some w
      else deeper >>= finish at

  pub walk_starts : ℕ → List AgentId → Walked → Option Walked
  walk_starts fuel [] w = some w
  walk_starts fuel (start ∷ starts) w =
      if member start w.done
      then walk_starts fuel starts w
      else (walk_loops fuel [] start w >>= walk_starts fuel starts)

  -- The issues that `validate_loop_cycles` adds.
  pub search_cycles : Option Walked
  unfolding walk_loops walk_targets walk_starts
  search_cycles =
      walk_starts (suc (length agents)) (keys agents) (record { done = []; issues = [] })

  unfoldable pub validate_loop_cycles : List ValidationIssue
  unfolding search_cycles
  validate_loop_cycles = elim search_cycles [ none ↦ [] | some w ↦ w.issues ]
