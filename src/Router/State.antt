-- ===== src/Router/State.antt =====
-- core/src/router/mod.rs: the router's state, its errors and failure reasons, and the two primitives
-- `transition` and `settle` that every status change goes through.
use core_tempo.Common.{
  ℕ, zero, suc, ◌-◌, ◌/◌, String, Bool, false, not, List, [], ◌∷◌, ◌++◌, Option, none, some, ◌==◌,
  string_eq, pair_eq, if◌then◌else◌, any, concat, show, unwrap_or,
}
use core_tempo.Common.Dict.{Dict}
use core_tempo.Common.Dict
use core_tempo.Common.KeySet
use core_tempo.Types.Ids.{AgentId, MessageId, FlowName, Timestamp}
use core_tempo.Types.Message.{
  MessageKind, MessageStatus, ask, queued, injected, working, replied, failed, Origin, agent,
  trigger, MessageRecord, kind_eq, status_eq,
}
use core_tempo.Types.Config.{FrozenWorkflow}
use core_tempo.Types.Event.{EventPayload, message_status_changed}
use core_tempo.Store.{Store, StoreError}
use core_tempo.Store
use core_tempo.Bus.{Bus}
use core_tempo.Bus

-- The moment of a call: the monotonic clock in milliseconds, and the wall clock as text.
pub record Moment : Type 0 where
  pub instant : ℕ
  pub stamp : Timestamp

pub data RouterError : Type 0 where
  unknown_agent : AgentId → RouterError
  unknown_message : MessageId → RouterError
  already_replied : MessageId → RouterError
  not_an_ask : MessageId → RouterError
  wrong_replier : MessageId → RouterError
  invalid_code : ℕ → RouterError
  output_schema : String → RouterError
  no_loop_edge : AgentId → AgentId → String → RouterError
  store : StoreError → RouterError

pub data Result {ℓ} (A : Type ℓ) : Type ℓ where
  ok : A → Result A
  err : RouterError → Result A

pub record FailReason : Type 0 where
  pub code : String
  pub reason : String

-- Milliseconds as whole seconds (`Duration::as_secs`).
abbrev pub as_secs : ℕ → ℕ
as_secs ms = ms / 1000

unfoldable pub timeout : MessageId → ℕ → FailReason
timeout id ttl = record {
  code = "timeout";
  reason = concat (
      "ask '"
      ∷ id
      ∷ "' got no reply within ask_timeout ("
      ∷ show (as_secs ttl)
      ∷ " s); the target never replied — check its pane, then fire again or raise [workflow] ask_timeout_minutes"
      ∷ []);
}

unfoldable pub restarted : AgentId → FailReason
restarted a = record {
  code = "agent_restarted";
  reason =
      concat ("agent '" ∷ a ∷ "' was restarted before it completed this message; fire again" ∷ []);
}

unfoldable pub exited : AgentId → FailReason
exited a = record {
  code = "agent_exited";
  reason = concat (
      "agent '" ∷ a
      ∷ "' exited before it completed this message; check its pane, restart it, then fire again"
      ∷ []);
}

unfoldable pub blocked : AgentId → Option String → ℕ → FailReason
blocked a tool grace = record {
  code = "blocked_on_permission";
  reason = concat (
      "agent '"
      ∷ a
      ∷ "' has been waiting on a Claude Code permission dialog for "
      ∷ unwrap_or "an undeclared tool" tool
      ∷ " for "
      ∷ show (as_secs grace)
      ∷ " s and cannot reply; add `tools = [...]`/`allow = [...]` for it in tempo.toml (or answer the dialog in the pane) and fire again"
      ∷ []);
}

-- core/src/pty/mod.rs: why an injection failed.
pub data InjectError : Type 0 where
  agent_exited : AgentId → InjectError
  blocked_for : AgentId → Option String → ℕ → InjectError
  agent_restarted : AgentId → InjectError
  unknown : AgentId → InjectError

unfoldable pub from_inject : InjectError → FailReason
unfolding restarted exited blocked
from_inject (agent_restarted a) = restarted a
from_inject (agent_exited a) = exited a
from_inject (blocked_for a tool waited) = blocked a tool waited
from_inject (unknown a) = record {
  code = "agent_exited";
  reason = concat ("agent '" ∷ a ∷ "' is not in this run's roster" ∷ []);
}

-- One open obligation turn.
pub record TurnState : Type 0 where
  pub met : List (AgentId × MessageKind)
  pub capped : List AgentId
  pub nudged : Bool
  pub stalled : Bool

abbrev pub default_turn : TurnState
default_turn = record { met = []; capped = []; nudged = false; stalled = false }

pub record ReplyNudgeState : Type 0 where
  pub nudges : ℕ
  pub last_nudge_at : ℕ
  pub stalled : Bool

pub record WatchdogTiming : Type 0 where
  pub first : ℕ
  pub second : ℕ
  pub third : ℕ
  pub fourth : ℕ
  pub blocked_grace : ℕ

abbrev pub default_timing : WatchdogTiming
default_timing = record {
  first = 60000;
  second = 120000;
  third = 240000;
  fourth = 240000;
  blocked_grace = 90000;
}

-- The four-entry table at `min(max(nudges, 1), 4) - 1`.
unfoldable pub backoff_after : WatchdogTiming → ℕ → ℕ
backoff_after t zero = t.first
backoff_after t (suc zero) = t.first
backoff_after t (suc (suc zero)) = t.second
backoff_after t (suc (suc (suc zero))) = t.third
backoff_after t (suc (suc (suc (suc n)))) = t.fourth

-- core/src/schema.rs: a flow's output contract, seen through its check. `none` is a body that conforms;
-- otherwise the violations, one a line. Parsing and validation are the JSON libraries'.
pub record OutputContract : Type 0 where
  pub flow : FlowName
  pub target : AgentId
  pub max_repairs : ℕ
  pub check : String → Option (List String)

-- `enqueued` and `reconsidered` are the calls made to the injection queue, in order.
pub record Router : Type 0 where
  pub store : Store
  pub bus : Bus
  pub workflow : FrozenWorkflow
  pub enqueued : List (AgentId × String)
  pub reconsidered : List AgentId
  pub counts : Dict AgentId ℕ
  pub suppressed : List MessageId
  pub deadlines : Dict MessageId ℕ
  pub turns : Dict AgentId TurnState
  pub owed : Dict AgentId (List MessageId)
  pub owed_nudges : Dict AgentId ReplyNudgeState
  pub timing : WatchdogTiming
  pub loops_done : List (AgentId × AgentId)
  pub loop_rounds : Dict (AgentId × AgentId) ℕ
  pub repairs : Dict MessageId ℕ
  pub contracts : Dict String OutputContract

-- `Router::new`: a run begins with nothing but its store, its bus and its workflow.
unfoldable pub new : Store → Bus → FrozenWorkflow → Router
new db events workflow = record {
  store = db;
  bus = events;
  workflow = workflow;
  enqueued = [];
  reconsidered = [];
  counts = [];
  suppressed = [];
  deadlines = [];
  turns = [];
  owed = [];
  owed_nudges = [];
  timing = default_timing;
  loops_done = [];
  loop_rounds = [];
  repairs = [];
  contracts = [];
}

abbrev pub publish : Router → Moment → EventPayload → Router
publish s now payload = record s { bus = (Bus.publish s.bus now.stamp payload).0 }

abbrev pub enqueue : Router → AgentId → String → Router
enqueue s target text = record s { enqueued = s.enqueued ++ (target, text) ∷ [] }

-- `allowed_from.contains(&rec.status)`.
abbrev pub among : MessageStatus → List MessageStatus → Bool
among status = any (λ a. a == status)

abbrev pub updated :
    Router
    → Moment
    → MessageRecord
    → Store.Result (Store × Bool)
    → Router × Result (Option MessageRecord)
updated s now rec (Store.err e) = (s, err (store e))
updated s now rec (Store.ok (st, matched)) =
    (publish (record s { store = st }) now (message_status_changed rec), ok (some rec))

abbrev pub transit :
    Router
    → Moment
    → List MessageStatus
    → (MessageRecord → MessageRecord)
    → Store.Result (Option MessageRecord)
    → Router × Result (Option MessageRecord)
transit s now allowed mutate (Store.err e) = (s, err (store e))
transit s now allowed mutate (Store.ok none) = (s, ok none)
transit s now allowed mutate (Store.ok (some rec)) =
    if not (among rec.status allowed)
    then (s, ok none)
    else updated s now (mutate rec) (Store.update_message s.store (mutate rec))

-- `Router::transition`, under its lock.
unfoldable pub transition :
    Router
    → Moment
    → MessageId
    → List MessageStatus
    → (MessageRecord → MessageRecord)
    → Router × Result (Option MessageRecord)
transition s now id allowed mutate = transit s now allowed mutate (Store.get_message s.store id)

-- `settle`, one clause of it each.
abbrev pub drop_contract : Origin → Dict String OutputContract → Dict String OutputContract
drop_contract (trigger origin) contracts = Dict.remove origin contracts
drop_contract _ contracts = contracts

abbrev pub decrement : AgentId → Option ℕ → Dict AgentId ℕ → Dict AgentId ℕ
decrement asker none counts = counts
decrement asker (some n) counts = Dict.insert asker (n - 1) counts

abbrev pub settle_count : Origin → Dict AgentId ℕ → Dict AgentId ℕ
settle_count (agent asker) counts = decrement asker (Dict.lookup asker counts) counts
settle_count _ counts = counts

-- A set that has become empty goes, and with it the nudges about it.
abbrev pub keep_owed : AgentId → List MessageId → Router → Router
keep_owed to [] s = record s {
  owed = Dict.remove to s.owed;
  owed_nudges = Dict.remove to s.owed_nudges;
}
keep_owed to (id ∷ ids) s = record s { owed = Dict.insert to (id ∷ ids) s.owed }

abbrev pub settle_owed : AgentId → MessageId → Option (List MessageId) → Router → Router
settle_owed to id none s = s
settle_owed to id (some ids) s = keep_owed to (KeySet.remove id ids) s

unfoldable pub settle : Router → MessageRecord → Router
settle s rec =
    let t = record s {
      deadlines = Dict.remove rec.id s.deadlines;
      repairs = Dict.remove rec.id s.repairs;
      contracts = drop_contract rec.from s.contracts;
      suppressed =
          if not (rec.status == replied) then KeySet.remove rec.id s.suppressed else s.suppressed;
      counts = if rec.kind == ask then settle_count rec.from s.counts else s.counts;
    } in
    if rec.kind == ask then settle_owed rec.to rec.id (Dict.lookup rec.to t.owed) t else t

abbrev pub not_terminal : List MessageStatus
not_terminal = queued ∷ injected ∷ working ∷ []

abbrev pub set_failed : Moment → FailReason → MessageRecord → MessageRecord
set_failed now reason rec = record rec {
  status = failed;
  completed_at = some now.stamp;
  reason = some reason.reason;
  reason_code = some reason.code;
}

abbrev pub settle_updated : Router × Result (Option MessageRecord) → Router
settle_updated (s, ok (some rec)) = settle s rec
settle_updated (s, ok none) = s
settle_updated (s, err e) = s

-- Idempotent: nothing happens to a message that is missing or has ended.
unfoldable pub fail_message : Router → Moment → MessageId → FailReason → Router
unfolding transition settle
fail_message s now id reason =
    settle_updated (transition s now id not_terminal (set_failed now reason))
