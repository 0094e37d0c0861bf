-- ===== src/Workflow/Issues.antt =====
-- core/src/workflow.rs: the issues of a validation. The wording of an issue's message is kept as a
-- constructor with the values that the message names.
use Prim.Native.Char.{code}
use Prim.Native.String.{String}
use core_tempo.Common.{Bool, true, ◌&&◌, List, [], ◌∷◌, concat, if◌then◌else◌, is_whitespace}
use core_tempo.Types.Ids.{AgentId, FlowName}
use core_tempo.Types.Config.{EdgeKind}

pub data Problem : Type 0 where
  not_toml : String → Problem
  blank_name zero_port zero_ask_timeout bad_debounce no_agents : Problem
  bad_agent_id : AgentId → Problem
  blank_prompt empty_dir : Problem
  self_edge max_rounds_not_loop zero_max_rounds : Problem
  unknown_target : AgentId → Problem
  duplicate_edge : AgentId → EdgeKind → Problem
  bad_tool blank_allow blank_mcp repeated_mcp : String → Problem
  skills_not_isolated empty_skill : Problem
  nameless_skill : String → Problem
  same_skill_name : String → String → String → Problem
  loop_cycle : List AgentId → Problem
  too_many_runs : Problem
  bad_flow_name : FlowName → Problem
  no_members : Problem
  unknown_member repeated_member : AgentId → Problem
  not_edge_closed : FlowName → AgentId → AgentId → Problem
  trigger_not_member : AgentId → Problem
  loop_trigger no_kickoff webhook_message : Problem
  output_of_send output_on_start schema_sources empty_schema_file too_many_repairs : Problem

pub record ValidationIssue : Type 0 where
  pub path : String
  pub problem : Problem

-- `push`, and an issue pushed at a path that the code formats: the issues that the call appends.
abbrev pub push : Bool → String → Problem → List ValidationIssue
push test path problem = if test then record { path = path; problem = problem } ∷ [] else []

abbrev pub agent_path : AgentId → String
agent_path agent = concat ("agents." ∷ agent ∷ [])

-- `push2`.
abbrev pub push2 : Bool → AgentId → String → Problem → List ValidationIssue
push2 test agent field problem = push test (concat ("agents." ∷ agent ∷ "." ∷ field ∷ [])) problem

abbrev pub flow_path : FlowName → String → String
flow_path flow field = concat ("flows." ∷ flow ∷ "." ∷ field ∷ [])

-- `s.trim().is_empty()`.
unfoldable pub is_blank : String → Bool
is_blank String.[] = true
is_blank (String.◌∷◌ c s) = is_whitespace (code c) && is_blank s
