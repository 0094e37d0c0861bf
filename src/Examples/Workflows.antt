-- ===== src/Examples/Workflows.antt =====
-- The theorems on workflow files, schemas and locks, at small values.
use Prim.Native.String.{String}
use core_tempo.Common.{
  ℕ, ◌⊎◌, ◌≡◌, ◌↔◌, ◌≤◌, refl, true, false, List, [], ◌∷◌, map, Option, none, some, arith,
  string_eq, nat_eq, All, length,
}
use core_tempo.Common.Dict.{Dict, lookup}
use core_tempo.Common.KeySet.{member, insert}
use core_tempo.Types.Ids.{AgentId, is_valid}
use core_tempo.Workflow.Issues.{is_blank}
use core_tempo.Types.Config.{
  Edge, AgentConfig, FlowConfig, WorkflowFile, FrozenWorkflow, new_agent, for_flow, nanoseconds,
}
use core_tempo.Types.Config
use core_tempo.Examples.{config}
use core_tempo.Workflow.Loops.{Walked, search_cycles, validate_loop_cycles}
use core_tempo.Workflow.Loops.Search.{Acyclic}
use core_tempo.Workflow.Loops.Cycles.{search_cycles_total, validate_loop_cycles_iff}
use core_tempo.Workflow.Validate.{
  Outcome, ok, validate_workflow, freeze, freeze_flow, sorted_set, insert_sorted,
}
use core_tempo.Workflow.Validate.Accepted.{IsSelfContained, accepted_runs}
use core_tempo.Workflow.Server.{
  ServerOverrides, ResolvedServer, resolve_server, resolve_server-generated,
}
use core_tempo.Types.Net.{localhost, is_loopback}
use core_tempo.Locks
use core_tempo.Locks.{Flow, AgentLocks, Step, Reach, here, next, takes, wanted, acquire, mode_at}
use core_tempo.Locks.Holders.{holders}
use core_tempo.Locks.Order.{Ascending}
use core_tempo.Locks.Served.{flows_served, work, steps}

abbrev loops_to : AgentId → Edge
loops_to to = record { to = to; kind = Config.loop; max_rounds = none }

abbrev pool : Dict AgentId AgentConfig
pool = ("editor", config []) ∷ ("writer", config (loops_to "editor" ∷ [])) ∷ []

abbrev ring : Dict AgentId AgentConfig
ring =
    ("editor", config (loops_to "writer" ∷ [])) ∷ ("writer", config (loops_to "editor" ∷ [])) ∷ []

-- Two agents that loop to each other are reported once.
ring_reported : length (validate_loop_cycles ring) ≡ 1
unfolding validate_loop_cycles member insert lookup
ring_reported = refl

validate_loop_cycles_iff_example : (validate_loop_cycles ring ≡ []) ↔ Acyclic ring
validate_loop_cycles_iff_example = validate_loop_cycles_iff ring

search_cycles_total_example : (v : Walked) × (search_cycles ring ≡ some v)
search_cycles_total_example = search_cycles_total ring

abbrev review : FlowConfig
review = record {
  agents = "editor" ∷ "writer" ∷ [];
  trigger = record {
    trigger_type = Config.on_start;
    edge = record { to = "writer"; kind = Config.send; max_rounds = none };
    message = some "Write the chapter.";
  };
  output = none;
}

abbrev sample : WorkflowFile
sample = record {
  workflow = record {
    name = "book";
    db = "./tempo.db";
    port = 4820;
    ask_timeout_minutes = 30;
    idle_debounce_seconds = nanoseconds 2000000000;
    scrollback = 5000;
  };
  server = record {
    bind = none;
    token_file = none;
    log = none;
    max_concurrent_runs = 2;
    trust_agent_dirs = false;
  };
  agents = pool;
  flows = ("review", review) ∷ [];
}

abbrev parses : String → Outcome WorkflowFile String
parses text = ok sample

abbrev same_dir : AgentId → String → Option String
same_dir id dir = some dir

abbrev no_skills : AgentId → List String → Option (List String)
no_skills id skills = some []

abbrev loaded : FrozenWorkflow
loaded = record {
  name = "book";
  ask_timeout = 1800000;
  scrollback = 5000;
  agents = pool;
  flows = ("review", freeze_flow review) ∷ [];
}

accepts : validate_workflow parses "tempo.toml" ≡ ok sample
unfolding validate_workflow is_blank is_valid lookup member insert
accepts = refl

loads : freeze same_dir no_skills sample ≡ some loaded
unfolding freeze
loads = refl

runs : for_flow loaded "review" ≡ some loaded
unfolding for_flow freeze_flow sorted_set insert_sorted lookup member
runs = refl

accepted_runs_example : IsSelfContained loaded.agents "writer"
accepted_runs_example =
    accepted_runs parses same_dir no_skills "tempo.toml" sample loaded loaded "review" review
      accepts loads (unfold lookup in refl) runs

abbrev nothing : ServerOverrides
nothing = record {
  bind = none;
  port = none;
  db = none;
  token = none;
  token_file = none;
  log = none;
}

abbrev served : ResolvedServer
served = record {
  bind = localhost;
  port = 4820;
  db = "./tempo.db";
  token = "drawn";
  token_provisioned = false;
  log = "info";
}

resolves : resolve_server (λ path. none) "drawn" nothing nothing sample ≡ ok served
unfolding resolve_server
resolves = refl

resolve_server-generated_example :
    (is_loopback served.bind ≡ true)
    × (served.token ≡ "drawn")
    × (nothing.token ≡ none)
    × (nothing.token_file ≡ none)
    × (nothing.token_file ≡ none)
    × (sample.server.token_file ≡ none)
resolve_server-generated_example =
    resolve_server-generated (λ path. none) "drawn" nothing nothing sample served resolves refl

abbrev pool_locks : AgentLocks
pool_locks = ("editor", Config.exclusive) ∷ ("writer", Config.exclusive) ∷ []

abbrev two_flows : List (List AgentId)
two_flows = ("editor" ∷ "writer" ∷ []) ∷ ("writer" ∷ []) ∷ []

-- The second flow takes the writer while the first waits for both.
abbrev after_first : List Flow
after_first =
    record { wants = 0 ∷ 1 ∷ []; held = []; done = false }
    ∷ record { wants = []; held = 1 ∷ []; done = false }
    ∷ []

first_step : Reach pool_locks (map (acquire pool_locks) two_flows) after_first
unfolding acquire Locks.mem
first_step = next here (
    takes (record { wants = 0 ∷ 1 ∷ []; held = []; done = false } ∷ []) []
      (record { wants = 1 ∷ []; held = []; done = false }) 1 [] refl refl refl refl)

members_ascend : All (λ members. Ascending (wanted pool_locks members)) two_flows
unfolding wanted
members_ascend = omega arith

flows_served_example :
    (All (λ f. f.done ≡ true) after_first ⊎ ((u : List Flow) × Step pool_locks after_first u))
    × ((n : ℕ) → mode_at pool_locks n ≡ Config.exclusive → holders n after_first ≤ 1)
    × (steps first_step ≤ work (map (acquire pool_locks) two_flows))
flows_served_example = flows_served pool_locks two_flows after_first members_ascend first_step
