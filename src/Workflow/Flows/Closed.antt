-- ===== src/Workflow/Flows/Closed.antt =====
-- core/src/workflow.rs: a flow that passes its checks names only its own members.
use core_tempo.Common.{
  ◌≡◌, refl, Bool, true, false, not, List, [], ◌∷◌, map, arith, inl, inr, ◌==◌, ==_iff, string_eq,
  Bool-cases, is_some, some, append-eq-nil, String,
}
use core_tempo.Common.Dict.{Dict, lookup}
use core_tempo.Common.KeySet.{member}
use core_tempo.Types.Ids.{AgentId, FlowName}
use core_tempo.Types.Config.{Edge, AgentConfig, FlowConfig}
use core_tempo.Workflow.Issues.{Problem, push}
use core_tempo.Workflow.Flows.{
  edges_of, validate_members, validate_targets, validate_closure, validate_flow_members,
  validate_flow_trigger, validate_flow, validate_flows,
}

pub push-eq-nil : (test : Bool) (path : String) (p : Problem) → push test path p ≡ [] → test ≡ false
push-eq-nil true path p h = cc
push-eq-nil false path p h = refl

abbrev pub targets_of : List Edge → List AgentId
targets_of = map (λ e. e.to)

-- What the checks of the members say, member by member.
module _ (pool : Dict AgentId AgentConfig) (name : FlowName) where
  members_known :
      (ids seen : List AgentId)
      → validate_members pool name ids seen ≡ []
      → (id : AgentId) → member id ids ≡ true
      → is_some (lookup id pool) ≡ true
  unfolding validate_members member
  members_known [] seen h id m = cc
  members_known (x ∷ ids) seen h id m =
      let (known, others) = append-eq-nil (push _ _ _) _ h in
      let (once, rest) = append-eq-nil (push _ _ _) _ others in
      elim (Bool-cases (x == id)) [
        | inl same ↦
            let e = (==_iff x id).0 same in
            let k = push-eq-nil (not (is_some (lookup x pool))) _ _ known in
            rw (← e) (ground (arith, k))
        | inr other ↦ members_known ids (x ∷ seen) rest id (rw other at m)
      ]

  targets_inside :
      (members : List AgentId) (id : AgentId) (edges : List Edge)
      → validate_targets pool name members id edges ≡ []
      → (b : AgentId) → member b (targets_of edges) ≡ true
      → member b members ≡ true
  unfolding validate_targets member
  targets_inside members id [] h b m = cc
  targets_inside members id (e ∷ edges) h b m =
      let (inside, rest) = append-eq-nil (push _ _ _) _ h in
      elim (Bool-cases (e.to == b)) [
        | inl same ↦
            let k = push-eq-nil (not (member e.to members)) _ _ inside in
            rw (← (==_iff e.to b).0 same) (ground (arith, k))
        | inr other ↦ targets_inside members id edges rest b (rw other at m)
      ]

  closure_inside :
      (members ids : List AgentId)
      → validate_closure pool name members ids ≡ []
      → (id : AgentId) → member id ids ≡ true
      → (b : AgentId) → member b (targets_of (edges_of (lookup id pool))) ≡ true
      → member b members ≡ true
  unfolding validate_closure member
  closure_inside members [] h id m b k = cc
  closure_inside members (x ∷ ids) h id m b k =
      let (own, rest) = append-eq-nil (validate_targets pool name members x _) _ h in
      elim (Bool-cases (x == id)) [
        | inl same ↦ targets_inside members x _ own b (rw ((==_iff x id).0 same) k)
        | inr other ↦ closure_inside members ids rest id (rw other at m) b k
      ]

  -- A flow without an issue.
  pub record IsClosedFlow (flow : FlowConfig) : Type 0 where
    pub known : (id : AgentId) → member id flow.agents ≡ true → is_some (lookup id pool) ≡ true
    pub closed :
        (id : AgentId)
        → member id flow.agents ≡ true
        → (b : AgentId) → member b (targets_of (edges_of (lookup id pool))) ≡ true
        → member b flow.agents ≡ true
    pub aimed : member flow.trigger.edge.to flow.agents ≡ true

  pub validate_flow-IsClosedFlow :
      (flow : FlowConfig) → validate_flow pool name flow ≡ [] → IsClosedFlow flow
  unfolding validate_flow validate_flow_members validate_flow_trigger
  validate_flow-IsClosedFlow flow h =
      let (named, checks) = append-eq-nil (push _ _ _) _ h in
      let (ms, trigger) = append-eq-nil (validate_flow_members pool name flow) _ checks in
      let (some_members, rest) = append-eq-nil (push _ _ _) _ ms in
      let (members, closure) = append-eq-nil (validate_members pool name flow.agents []) _ rest in
      let (aim, others) = append-eq-nil (push _ _ _) _ trigger in
      let k = push-eq-nil (not (member flow.trigger.edge.to flow.agents)) _ _ aim in
      record {
        known = members_known flow.agents [] members;
        closed = closure_inside flow.agents flow.agents closure;
        aimed = ground (arith, k);
      }

pub validate_flows-IsClosedFlow :
    (pool : Dict AgentId AgentConfig) (flows : Dict FlowName FlowConfig)
    → validate_flows pool flows ≡ []
    → (name : FlowName) (flow : FlowConfig) → lookup name flows ≡ some flow
    → IsClosedFlow pool name flow
unfolding validate_flows lookup
validate_flows-IsClosedFlow pool [] h name flow e = cc
validate_flows-IsClosedFlow pool ((key, first) ∷ flows) h name flow e =
    let (own, rest) = append-eq-nil (validate_flow pool key first) _ h in
    elim (Bool-cases (key == name)) [
      | inl same ↦
          let k = (==_iff key name).0 same in
          let f : first ≡ flow = cc (rw same at e) in
          rw (← k, ← f) (validate_flow-IsClosedFlow pool key first own)
      | inr other ↦ validate_flows-IsClosedFlow pool flows rest name flow (rw other at e)
    ]
