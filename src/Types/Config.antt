-- ===== src/Types/Config.antt =====
-- core/src/types/config.rs and agent.rs: the tables of a workflow file, and of the frozen workflow what
-- the router and a flow's run read. A path is its text.
use core_tempo.Common.{
  ℕ, String, Bool, true, false, Option, none, List, [], ◌∷◌, arith, ◌≡◌, ◌↔◌, Eq, unwrap_or, filter,
  string_eq,
}
use core_tempo.Common.KeySet.{member}
use mathlib.Core.Option
use core_tempo.Types.Net.{IpAddr}
use core_tempo.Types.Json.{Json}
use core_tempo.Common.Dict.{Dict, lookup}
use core_tempo.Types.Ids.{AgentId, FlowName}
use core_tempo.Types.Message.{MessageKind}

pub data EdgeKind : Type 0 where
  ask send loop : EdgeKind

unfoldable pub edge_as_str : EdgeKind → String
edge_as_str ask = "ask"
edge_as_str send = "send"
edge_as_str loop = "loop"

-- A loop round travels as an ask.
abbrev pub message_kind : EdgeKind → MessageKind
message_kind ask = MessageKind.ask
message_kind send = MessageKind.send
message_kind loop = MessageKind.ask

abbrev pub default_loop_rounds : ℕ
default_loop_rounds = 10

pub record Edge : Type 0 where
  pub to : AgentId
  pub kind : EdgeKind
  pub max_rounds : Option ℕ

abbrev pub effective_max_rounds : Edge → ℕ
effective_max_rounds e = unwrap_or default_loop_rounds e.max_rounds

pub data AgentConcurrency : Type 0 where
  exclusive shared : AgentConcurrency

pub data PermissionPrompt : Type 0 where
  deny wait : PermissionPrompt

pub record AgentConfig : Type 0 where
  pub dir : String
  pub prompt : String
  pub model : Option String
  pub permission_mode : Option String
  pub auto_clear : Bool
  pub edges : List Edge
  pub tools : List String
  pub allow : List String
  pub mcp : List String
  pub concurrency : AgentConcurrency
  pub isolated_config : Bool
  pub skills : List String
  pub on_permission_prompt : PermissionPrompt

-- `AgentConfig::new`.
abbrev pub new_agent : String → String → AgentConfig
new_agent dir prompt = record {
  dir = dir;
  prompt = prompt;
  model = none;
  permission_mode = none;
  auto_clear = true;
  edges = [];
  tools = [];
  allow = [];
  mcp = [];
  concurrency = exclusive;
  isolated_config = false;
  skills = [];
  on_permission_prompt = deny;
}

pub data TriggerType : Type 0 where
  on_start webhook : TriggerType

pub record TriggerConfig : Type 0 where
  pub trigger_type : TriggerType
  pub edge : Edge
  pub message : Option String

pub record OutputConfig : Type 0 where
  pub schema : Option Json
  pub schema_file : Option String
  pub max_repairs : ℕ

pub record FlowConfig : Type 0 where
  pub agents : List AgentId
  pub trigger : TriggerConfig
  pub output : Option OutputConfig

-- What the code reads of an `f64` number of seconds: that it is not finite, that it is not above 0, or
-- its nanoseconds, rounded up.
pub data Seconds : Type 0 where
  not_finite not_positive : Seconds
  nanoseconds : ℕ → Seconds

pub record WorkflowSection : Type 0 where
  pub name : String
  pub db : String
  pub port : ℕ
  pub ask_timeout_minutes : ℕ
  pub idle_debounce_seconds : Seconds
  pub scrollback : ℕ

pub record ServerSection : Type 0 where
  pub bind : Option IpAddr
  pub token_file : Option String
  pub log : Option String
  pub max_concurrent_runs : ℕ
  pub trust_agent_dirs : Bool

pub record WorkflowFile : Type 0 where
  pub workflow : WorkflowSection
  pub server : ServerSection
  pub agents : Dict AgentId AgentConfig
  pub flows : Dict FlowName FlowConfig

-- A flow at rest; its compiled output contract is handed to the router on its own.
pub record FrozenFlow : Type 0 where
  pub members : List AgentId
  pub trigger_type : TriggerType
  pub edge : Edge
  pub message : Option String

-- Times are in milliseconds. The hash, the resolved servers and the path serve the comparison of files,
-- and are not kept.
pub record FrozenWorkflow : Type 0 where
  pub name : String
  pub ask_timeout : ℕ
  pub scrollback : ℕ
  pub agents : Dict AgentId AgentConfig
  pub flows : Dict FlowName FrozenFlow

unfoldable pub for_flow : FrozenWorkflow → FlowName → Option FrozenWorkflow
for_flow frozen name =
    Option.map
      (λ flow. record frozen {
        agents = filter (λ entry. member entry.0 flow.members) frozen.agents;
        flows = (name, flow) ∷ [];
      })
      (lookup name frozen.flows)

pub data AgentState : Type 0 where
  starting idle working exited restarting : AgentState

pub data AgentExit : Type 0 where
  code : ℕ → AgentExit
  signal : String → AgentExit

abbrev pub edge_kind_beq : EdgeKind → EdgeKind → Bool
edge_kind_beq ask ask = true
edge_kind_beq send send = true
edge_kind_beq loop loop = true
edge_kind_beq _ _ = false

pub edge_kind_beq_iff : (a b : EdgeKind) → (edge_kind_beq a b ≡ true) ↔ (a ≡ b)
edge_kind_beq_iff a b = (λ h. ground arith, λ h. ground arith)

instance abbrev pub edge_kind_eq : Eq EdgeKind
edge_kind_eq = record { same = edge_kind_beq; same_iff = edge_kind_beq_iff }

abbrev pub state_beq : AgentState → AgentState → Bool
state_beq starting starting = true
state_beq idle idle = true
state_beq working working = true
state_beq exited exited = true
state_beq restarting restarting = true
state_beq _ _ = false

pub state_beq_iff : (a b : AgentState) → (state_beq a b ≡ true) ↔ (a ≡ b)
state_beq_iff a b = (λ h. ground arith, λ h. ground arith)

instance abbrev pub state_eq : Eq AgentState
state_eq = record { same = state_beq; same_iff = state_beq_iff }
