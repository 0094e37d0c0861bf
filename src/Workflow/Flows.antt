-- ===== src/Workflow/Flows.antt =====
-- core/src/workflow.rs: the checks of one flow's table.
pub mod Closed
use core_tempo.Common.{
  ℕ, String, Bool, true, false, not, ◌&&◌, ◌||◌, List, [], ◌∷◌, ◌++◌, Option, none, some, ◌==◌,
  string_eq, if◌then◌else◌, ltb, codes, concat, is_some, is_empty,
}
use core_tempo.Common.Dict.{Dict, lookup}
use core_tempo.Common.KeySet.{member}
use core_tempo.Types.Ids.{AgentId, FlowName, is_valid}
use core_tempo.Types.Json.{Json}
use core_tempo.Types.Config.{
  Edge, EdgeKind, send, loop, edge_kind_eq, AgentConfig, FlowConfig, TriggerConfig, TriggerType,
  on_start, webhook, OutputConfig,
}
use core_tempo.Workflow.Issues.{
  ValidationIssue, push, flow_path, is_blank, bad_flow_name, no_members, unknown_member,
  repeated_member, not_edge_closed, trigger_not_member, loop_trigger, no_kickoff, webhook_message,
  output_of_send, output_on_start, schema_sources, empty_schema_file, too_many_repairs,
}

abbrev pub edges_of : Option AgentConfig → List Edge
edges_of none = []
edges_of (some config) = config.edges

module _ (pool : Dict AgentId AgentConfig) (name : FlowName) where
  -- The members are in the pool, each once; `seen` are those before.
  pub validate_members : List AgentId → List AgentId → List ValidationIssue
  validate_members [] seen = []
  validate_members (id ∷ ids) seen =
      push (not (is_some (lookup id pool))) (flow_path name "agents") (unknown_member id)
      ++ (push (member id seen) (flow_path name "agents") (repeated_member id)
          ++ validate_members ids (id ∷ seen))

  -- Edge closure of one member.
  pub validate_targets : List AgentId → AgentId → List Edge → List ValidationIssue
  validate_targets members id [] = []
  validate_targets members id (edge ∷ edges) =
      push (not (member edge.to members)) (flow_path name "agents")
        (not_edge_closed name id edge.to)
      ++ validate_targets members id edges

  pub validate_closure : List AgentId → List AgentId → List ValidationIssue
  validate_closure members [] = []
  validate_closure members (id ∷ ids) =
      validate_targets members id (edges_of (lookup id pool)) ++ validate_closure members ids

  pub validate_flow_members : FlowConfig → List ValidationIssue
  unfolding validate_members validate_closure validate_targets
  validate_flow_members flow =
      push (elim flow.agents [ [] ↦ true | _ ∷ _ ↦ false ]) (flow_path name "agents") no_members
      ++ (validate_members flow.agents [] ++ validate_closure flow.agents flow.agents)

-- `declare exactly one of 'schema' or 'schema_file'`.
abbrev pub validate_sources : String → Option Json → Option String → List ValidationIssue
validate_sources path (some schema) (some file) = push true path schema_sources
validate_sources path none none = push true path schema_sources
validate_sources path none (some file) = push (is_empty file) path empty_schema_file
validate_sources path (some schema) none = []

abbrev pub is_on_start : TriggerType → Bool
is_on_start on_start = true
is_on_start webhook = false

unfoldable pub validate_output_shape : String → TriggerConfig → OutputConfig → List ValidationIssue
validate_output_shape path trigger output =
    push (trigger.edge.kind == send) path output_of_send
    ++ (push (is_on_start trigger.trigger_type) path output_on_start
        ++ (validate_sources path output.schema output.schema_file
            ++ push (ltb 5 output.max_repairs) path too_many_repairs))

-- A kickoff text: absent and blank are refused alike.
abbrev pub is_no_text : Option String → Bool
is_no_text none = true
is_no_text (some text) = is_blank text

abbrev pub validate_message : String → TriggerType → Option String → List ValidationIssue
validate_message path on_start message = push (is_no_text message) path no_kickoff
validate_message path webhook message = push (is_some message) path webhook_message

abbrev pub validate_output : String → TriggerConfig → Option OutputConfig → List ValidationIssue
validate_output path trigger none = []
validate_output path trigger (some output) = validate_output_shape path trigger output

unfoldable pub validate_flow_trigger : FlowName → FlowConfig → List ValidationIssue
unfolding validate_output_shape
validate_flow_trigger name flow =
    let trigger = flow.trigger in
    push (not (member trigger.edge.to flow.agents)) (flow_path name "trigger.edge")
      (trigger_not_member trigger.edge.to)
    ++ (push (trigger.edge.kind == loop) (flow_path name "trigger.edge") loop_trigger
        ++ (validate_message (flow_path name "trigger.message") trigger.trigger_type trigger.message
            ++ validate_output (flow_path name "output") trigger flow.output))

unfoldable pub validate_flow :
    Dict AgentId AgentConfig → FlowName → FlowConfig → List ValidationIssue
unfolding validate_flow_members validate_flow_trigger
validate_flow pool name flow =
    push (not (is_valid (codes name))) (concat ("flows." ∷ name ∷ [])) (bad_flow_name name)
    ++ (validate_flow_members pool name flow ++ validate_flow_trigger name flow)

unfoldable pub validate_flows :
    Dict AgentId AgentConfig → Dict FlowName FlowConfig → List ValidationIssue
unfolding validate_flow
validate_flows pool [] = []
validate_flows pool ((name, flow) ∷ flows) =
    validate_flow pool name flow ++ validate_flows pool flows
