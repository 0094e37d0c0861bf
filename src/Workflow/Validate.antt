-- ===== src/Workflow/Validate.antt =====
-- core/src/workflow.rs: `validate_workflow`, and the flows of a workflow at rest.
pub mod Accepted
use Prim.Native.Nat.{◌*◌, ◌%◌, ◌^◌}
use core_tempo.Common.{
  ℕ, String, Bool, true, false, not, ◌&&◌, List, [], ◌∷◌, ◌++◌, Option, none, some, ◌==◌, nat_eq,
  leb, ltb, str_leb, string_eq, if◌then◌else◌, map, ◌>>=◌,
}
use core_tempo.Common.Dict.{Dict}
use core_tempo.Types.Ids.{AgentId, FlowName}
use core_tempo.Types.Config.{
  AgentConfig, FlowConfig, WorkflowFile, Seconds, not_finite, not_positive, nanoseconds, FrozenFlow,
  FrozenWorkflow,
}
use core_tempo.Workflow.Issues.{
  ValidationIssue, push, is_blank, not_toml, blank_name, zero_port, zero_ask_timeout, bad_debounce,
  no_agents, too_many_runs,
}
use core_tempo.Workflow.Agents.{validate_agent}
use core_tempo.Workflow.Loops.{validate_loop_cycles}
use core_tempo.Workflow.Flows.{validate_flows}

pub data Outcome {ℓ κ} (A : Type ℓ) (E : Type κ) : Type (ℓ ⊔ κ) where
  ok : A → Outcome A E
  err : E → Outcome A E

abbrev pub bad_seconds : Seconds → Bool
bad_seconds not_finite = true
bad_seconds not_positive = true
bad_seconds (nanoseconds n) = ltb (60 * 10 ^ 9) n

unfoldable pub validate_agents :
    Dict AgentId AgentConfig → Dict AgentId AgentConfig → List ValidationIssue
unfolding validate_agent
validate_agents pool [] = []
validate_agents pool ((id, agent) ∷ agents) =
    validate_agent pool id agent ++ validate_agents pool agents

-- The checks of [workflow], and that there is an agent.
pub section_issues : WorkflowFile → List ValidationIssue
section_issues file =
    push (is_blank file.workflow.name) "workflow.name" blank_name
    ++ (push (file.workflow.port == 0) "workflow.port" zero_port
        ++ (push (file.workflow.ask_timeout_minutes == 0) "workflow.ask_timeout_minutes"
              zero_ask_timeout
            ++ (push (bad_seconds file.workflow.idle_debounce_seconds)
                  "workflow.idle_debounce_seconds" bad_debounce
                ++ push (elim file.agents [ [] ↦ true | _ ∷ _ ↦ false ]) "agents" no_agents)))

pub server_issues : WorkflowFile → List ValidationIssue
server_issues file =
    push (not (leb 1 file.server.max_concurrent_runs && leb file.server.max_concurrent_runs 16))
      "server.max_concurrent_runs" too_many_runs

-- Every issue of a file that parses, in the order of the checks.
unfoldable pub issues_of : WorkflowFile → List ValidationIssue
unfolding section_issues server_issues validate_agents validate_flows validate_loop_cycles
issues_of file =
    section_issues file
    ++ (validate_agents file.agents file.agents
        ++ (validate_loop_cycles file.agents
            ++ (server_issues file ++ validate_flows file.agents file.flows)))

abbrev pub accept :
    WorkflowFile → List ValidationIssue → Outcome WorkflowFile (List ValidationIssue)
accept file [] = ok file
accept file (issue ∷ issues) = err (issue ∷ issues)

-- The TOML parser is a parameter; its error is explained by `explain_parse_error`, whose text is kept
-- as the parser's.
module _ (parse : String → Outcome WorkflowFile String) where
  abbrev pub validate_parsed :
      Outcome WorkflowFile String → Outcome WorkflowFile (List ValidationIssue)
  validate_parsed (err e) = err (record { path = ""; problem = not_toml e } ∷ [])
  validate_parsed (ok file) = accept file (issues_of file)

  unfoldable pub validate_workflow : String → Outcome WorkflowFile (List ValidationIssue)
  unfolding issues_of
  validate_workflow text = validate_parsed (parse text)

-- `BTreeSet`, as a list without a repetition in the order of the texts.
unfoldable pub insert_sorted : AgentId → List AgentId → List AgentId
insert_sorted id [] = id ∷ []
insert_sorted id (other ∷ ids) =
    let rest = insert_sorted id ids in
    if other == id then other ∷ ids else if str_leb id other then id ∷ other ∷ ids else other ∷ rest

unfoldable pub sorted_set : List AgentId → List AgentId
unfolding insert_sorted
sorted_set [] = []
sorted_set (id ∷ ids) = insert_sorted id (sorted_set ids)

-- `freeze_flows`, without the compiled contracts.
unfoldable pub freeze_flow : FlowConfig → FrozenFlow
unfolding sorted_set
freeze_flow flow = record {
  members = sorted_set flow.agents;
  trigger_type = flow.trigger.trigger_type;
  edge = flow.trigger.edge;
  message = flow.trigger.message;
}

unfoldable pub freeze_flows : Dict FlowName FlowConfig → Dict FlowName FrozenFlow
unfolding freeze_flow
freeze_flows = map (λ entry. (entry.0, freeze_flow entry.1))

-- The loop of `load_workflow` over the agents, and the frozen workflow that it makes. What
-- `expand_tilde` and `resolve_skills` find in the file system is a parameter. The minutes become seconds
-- in 64 bits, which wrap in a release build.
module _ (expand_tilde : AgentId → String → Option String)
    (resolve_skills : AgentId → List String → Option (List String)) where
  pub freeze_agents : Dict AgentId AgentConfig → Option (Dict AgentId AgentConfig)
  freeze_agents [] = some []
  freeze_agents ((id, cfg) ∷ agents) = do
    dir ← expand_tilde id cfg.dir
    skills ← resolve_skills id cfg.skills
    rest ← freeze_agents agents
    some ((id, record cfg { dir = dir; skills = skills }) ∷ rest)

  unfoldable pub freeze : WorkflowFile → Option FrozenWorkflow
  unfolding freeze_agents freeze_flows
  freeze file = do
    agents ← freeze_agents file.agents
    some (record {
      name = file.workflow.name;
      ask_timeout = file.workflow.ask_timeout_minutes * 60 % 2 ^ 64 * 1000;
      scrollback = file.workflow.scrollback;
      agents = agents;
      flows = freeze_flows file.flows;
    })
