-- ===== src/Workflow/Validate/Accepted.antt =====
-- core/src/workflow.rs: what the run of a flow of an accepted file can rely on.
use mathlib.Core.Option
use core_tempo.Common.{
  String, ◌≡◌, ◌||◌, ==_iff, arith, refl, true, List, [], ◌∷◌, Option, none, some, inl, inr, ◌==◌,
  string_eq, if◌then◌else◌, Bool-cases, is_some, append-eq-nil, >>=-eq-some, some-inj, sym, ap, ◌∙◌,
}
use core_tempo.Common.Dict.{Dict, lookup, lookup-retain, retain}
use core_tempo.Common.KeySet.{member}
use core_tempo.Types.Ids.{AgentId, FlowName}
use core_tempo.Types.Config.{Edge, AgentConfig, FlowConfig, WorkflowFile, FrozenWorkflow, for_flow}
use core_tempo.Workflow.Issues.{ValidationIssue}
use core_tempo.Workflow.Loops.{loop_targets, validate_loop_cycles}
use core_tempo.Workflow.Loops.Search.{LoopPath, one, more, Acyclic}
use core_tempo.Workflow.Loops.Cycles.{validate_loop_cycles_iff}
use core_tempo.Workflow.Flows.{validate_flows, edges_of}
use core_tempo.Workflow.Flows.Closed.{targets_of, validate_flows-IsClosedFlow}
use core_tempo.Workflow.Validate.{
  Outcome, ok, err, issues_of, accept, validate_parsed, validate_workflow, validate_agents,
  section_issues, server_issues, freeze_flow, insert_sorted, sorted_set, freeze_flows,
  freeze_agents, freeze,
}

-- An accepted file has no issue.
accepted :
    (parse : String → Outcome WorkflowFile String) (text : String) (file : WorkflowFile)
    → validate_workflow parse text ≡ ok file
    → issues_of file ≡ []
unfolding validate_workflow
accepted parse text file h = at (parse text) h
  where
    accepts :
        (other : WorkflowFile) (issues : List ValidationIssue)
        → accept other issues ≡ ok file
        → (other ≡ file) × (issues ≡ [])
    accepts other [] h = (cc, refl)
    accepts other (i ∷ is) h = cc

    at :
        (parsed : Outcome WorkflowFile String)
        → validate_parsed parse parsed ≡ ok file
        → issues_of file ≡ []
    at (err e) h = cc
    at (ok other) h = let (same, empty) = accepts other (issues_of other) h in rw (← same) empty

-- The two checks of a file that are about its graph.
graph_checks :
    (file : WorkflowFile)
    → issues_of file ≡ []
    → (validate_loop_cycles file.agents ≡ []) × (validate_flows file.agents file.flows ≡ [])
unfolding issues_of
graph_checks file h =
    let rest = (append-eq-nil (section_issues file) _ h).1 in
    let graph = (append-eq-nil (validate_agents file.agents file.agents) _ rest).1 in
    let (loops, others) = append-eq-nil (validate_loop_cycles file.agents) _ graph in
    (loops, (append-eq-nil (server_issues file) _ others).1)

abbrev edges_at : AgentId → Dict AgentId AgentConfig → Option (List Edge)
edges_at a d = Option.map (λ c. c.edges) (lookup a d)

module _ (expand : AgentId → String → Option String)
    (resolve : AgentId → List String → Option (List String)) where
  freeze_agents-edges :
      (agents frozen : Dict AgentId AgentConfig)
      → freeze_agents expand resolve agents ≡ some frozen
      → (a : AgentId) → edges_at a frozen ≡ edges_at a agents
  unfolding freeze_agents lookup
  freeze_agents-edges [] frozen h a = let e : [] ≡ frozen = cc in rw (← e)
  freeze_agents-edges ((id, cfg) ∷ agents) frozen h a =
      let (dir, e1, h1) = >>=-eq-some (expand id cfg.dir) _ h in
      let (skills, e2, h2) = >>=-eq-some (resolve id cfg.skills) _ h1 in
      let (rest, e3, h3) = >>=-eq-some (freeze_agents expand resolve agents) _ h2 in
      let e : (id, record cfg { dir = dir; skills = skills }) ∷ rest ≡ frozen = cc in
      rw (← e) (elim (Bool-cases (id == a)) [
        | inl same ↦ rw same
        | inr other ↦ rw other (freeze_agents-edges agents rest e3 a)
      ])

lookup-freeze_flows :
    (name : FlowName) (flows : Dict FlowName FlowConfig)
    → lookup name (freeze_flows flows) ≡ Option.map freeze_flow (lookup name flows)
unfolding freeze_flows lookup
lookup-freeze_flows name [] = refl
lookup-freeze_flows name ((key, flow) ∷ flows) = elim (Bool-cases (key == name)) [
  | inl same ↦ rw same
  | inr other ↦ rw other (lookup-freeze_flows name flows)
]

is_some-edges : (o : Option AgentConfig) → is_some (Option.map (λ c. c.edges) o) ≡ is_some o
is_some-edges none = refl
is_some-edges (some cfg) = refl

edges-member :
    (b : AgentId) (o : Option AgentConfig) (edges : List Edge)
    → Option.map (λ c. c.edges) o ≡ some edges
    → member b (targets_of edges) ≡ true
    → member b (targets_of (edges_of o)) ≡ true
edges-member b none edges h m = cc
edges-member b (some cfg) edges h m = rw (some-inj h) m

-- Agents that name none but their own, with the target of the kickoff among them, and no cycle of loops.
pub record IsSelfContained (agents : Dict AgentId AgentConfig) (target : AgentId) : Type 0 where
  pub closed :
      (a b : AgentId) (cfg : AgentConfig)
      → lookup a agents ≡ some cfg
      → member b (targets_of cfg.edges) ≡ true
      → is_some (lookup b agents) ≡ true
  pub aimed : is_some (lookup target agents) ≡ true
  pub acyclic : Acyclic agents

-- Fewer agents with the same edges have fewer paths.
paths :
    (small large : Dict AgentId AgentConfig)
    → ((a : AgentId) (cfg : AgentConfig)
        → lookup a small ≡ some cfg
        → edges_at a large ≡ some cfg.edges)
    → {a b : AgentId} → LoopPath small a b
    → LoopPath large a b
paths small large sub {a} p = go p
  where
    edge :
        (x y : AgentId) (found : Option AgentConfig) (known : Option AgentConfig)
        → ((cfg : AgentConfig)
            → found ≡ some cfg
            → Option.map (λ c. c.edges) known ≡ some cfg.edges)
        → member y (loop_targets found) ≡ true
        → member y (loop_targets known) ≡ true
    edge x y none known s m = unfold member in cc
    edge x y (some cfg) none s m = cc (s cfg refl)
    edge x y (some cfg) (some other) s m =
        let e : other.edges ≡ cfg.edges = cc (s cfg refl) in rw e m

    go : {b : AgentId} → LoopPath small a b → LoopPath large a b
    go (one {b} m) = one (edge a b (lookup a small) (lookup a large) (sub a) m)
    go (more {b = x} {c = y} p m) =
        more (go p) (edge x y (lookup x small) (lookup x large) (sub x) m)

member-insert_sorted :
    (id other : AgentId) (ids : List AgentId)
    → member other (insert_sorted id ids) ≡ (id == other || member other ids)
unfolding insert_sorted member
member-insert_sorted id other [] = ground arith
member-insert_sorted id other (first ∷ ids) =
    ground (arith, ==_iff first id, member-insert_sorted id other ids)

member-sorted_set :
    (other : AgentId) (ids : List AgentId) → member other (sorted_set ids) ≡ member other ids
unfolding sorted_set member
member-sorted_set other [] = refl
member-sorted_set other (id ∷ ids) =
    rw (member-insert_sorted id other (sorted_set ids), member-sorted_set other ids) refl

module _ (expand : AgentId → String → Option String)
    (resolve : AgentId → List String → Option (List String)) (file : WorkflowFile)
    (frozen : FrozenWorkflow) (clean : issues_of file ≡ [])
    (loaded : freeze expand resolve file ≡ some frozen) where
  frozen_parts :
      ((a : AgentId) → edges_at a frozen.agents ≡ edges_at a file.agents)
      × (frozen.flows ≡ freeze_flows file.flows)
  unfolding freeze
  frozen_parts =
      let (agents, e, h) = >>=-eq-some (freeze_agents expand resolve file.agents) _ loaded in
      let agents_same = ap {A = FrozenWorkflow} (λ w. w.agents) (some-inj h) in
      (
        λ a. rw (← agents_same) (freeze_agents-edges expand resolve file.agents agents e a),
        sym (ap (λ w. w.flows) (some-inj h)),
      )

  -- Within the members, the run has the agents of the file.
  run_agents :
      (members : List AgentId) (a : AgentId)
      → edges_at a (retain (λ id. member id members) frozen.agents)
        ≡ (if member a members then edges_at a file.agents else none)
  run_agents members a = elim (Bool-cases (member a members)) [
    | inl inside ↦
        rw (lookup-retain (λ id. member id members) a frozen.agents, inside) (frozen_parts.0 a)
    | inr outside ↦ rw (lookup-retain (λ id. member id members) a frozen.agents, outside)
  ]

  module _ (members : List AgentId) where
    abbrev kept : Dict AgentId AgentConfig
    kept = retain (λ id. member id members) frozen.agents

    kept_inside :
        (a : AgentId) (cfg : AgentConfig)
        → lookup a kept ≡ some cfg
        → (member a members ≡ true) × (edges_at a file.agents ≡ some cfg.edges)
    kept_inside a cfg l =
        let e : edges_at a kept ≡ some cfg.edges = rw l refl in
        elim (Bool-cases (member a members)) [
          | inl m ↦ (m, cc (rw m at (run_agents members a)))
          | inr n ↦ cc (rw n at (run_agents members a))
        ]

    kept_present :
        (b : AgentId)
        → member b members ≡ true
        → is_some (lookup b file.agents) ≡ true
        → is_some (lookup b kept) ≡ true
    kept_present b m h =
        sym (is_some-edges (lookup b kept))
        ∙ ap is_some (rw m at (run_agents members b))
        ∙ is_some-edges (lookup b file.agents)
        ∙ h

  for_flow-IsSelfContained :
      (name : FlowName) (flow : FlowConfig) (run : FrozenWorkflow)
      → lookup name file.flows ≡ some flow
      → for_flow frozen name ≡ some run
      → IsSelfContained run.agents flow.trigger.edge.to
  unfolding for_flow freeze_flow
  for_flow-IsSelfContained name flow run found h =
      let (loops, flows) = graph_checks file clean in
      let c = validate_flows-IsClosedFlow file.agents file.flows flows name flow found in
      let members = sorted_set flow.agents in
      let e : lookup name frozen.flows ≡ some (freeze_flow flow) =
        rw (frozen_parts.1, lookup-freeze_flows name file.flows, found) in
      let agents : kept members ≡ run.agents = ap (λ w. w.agents) (some-inj (rw e at h)) in
      rw (← agents) (record {
        closed = λ a b cfg l m.
            let (inside, edges) = kept_inside members a cfg l in
            let within =
              c.closed a (sym (member-sorted_set a flow.agents) ∙ inside) b
                (edges-member b (lookup a file.agents) cfg.edges edges m) in
            kept_present members b (member-sorted_set b flow.agents ∙ within) (c.known b within);
        aimed =
            kept_present members flow.trigger.edge.to
              (member-sorted_set flow.trigger.edge.to flow.agents ∙ c.aimed) (c.known _ c.aimed);
        acyclic = λ a p.
            (validate_loop_cycles_iff file.agents).0 loops a
              (paths (kept members) file.agents (λ x cfg l. (kept_inside members x cfg l).1) p);
      })

-- The run of a flow of an accepted and loaded file is self-contained.
pub accepted_runs :
    (parse : String → Outcome WorkflowFile String) (expand : AgentId → String → Option String)
    (resolve : AgentId → List String → Option (List String)) (text : String) (file : WorkflowFile)
    (frozen run : FrozenWorkflow) (name : FlowName) (flow : FlowConfig)
    → validate_workflow parse text ≡ ok file
    → freeze expand resolve file ≡ some frozen
    → lookup name file.flows ≡ some flow
    → for_flow frozen name ≡ some run
    → IsSelfContained run.agents flow.trigger.edge.to
accepted_runs parse expand resolve text file frozen run name flow h loaded found r =
    for_flow-IsSelfContained expand resolve file frozen (accepted parse text file h) loaded name
      flow run found r
