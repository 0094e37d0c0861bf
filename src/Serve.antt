-- ===== src/Serve.antt =====
-- daemon/src/serve.rs: the scheduler of serve mode. A flow's ingress carries its worker and its live run
-- tasks. What every caller was told and every settlement are kept in lists; locks are granted by the
-- environment, and a run's end gives its permit back in the same step.
pub mod Accounts
pub mod Drained
use core_tempo.Common.{
  ℕ, ◌+◌, ◌-◌, String, Bool, true, false, not, ◌||◌, List, [], ◌∷◌, ◌++◌, map, filter, Option, none,
  some, ◌==◌, string_eq, nat_eq, if◌then◌else◌, leb, length, any, is_empty,
}
use core_tempo.Common.Dict.{Dict, lookup, insert}
use core_tempo.Types.Ids.{AgentId, FlowName}
use core_tempo.Types.Config.{TriggerType, on_start, webhook, FrozenWorkflow, FrozenFlow}
use core_tempo.Workflow.Validate.{Outcome, ok, err}
use core_tempo.Trigger.Hub.{
  TriggerStatus, TriggerHub, queued, register, begin, finish, TaskEnd, settled, dropped,
}
use core_tempo.Trigger.Hub

pub record Job : Type 0 where
  pub id : String
  pub payload : String

-- Where a flow's worker awaits: the next job; a check of the flag; the locks; a permit.
pub data Worker : Type 0 where
  receiving stopped : Worker
  dequeued locking permitting : Job → Worker

-- `closed` is the receiver's: it was closed, or is gone.
pub record FlowIngress : Type 0 where
  pub jobs : List Job
  pub closed : Bool
  pub is_open : Bool
  pub outstanding : ℕ
  pub running : ℕ
  pub worker : Worker
  pub runs : List String

-- What the flows share.
pub record Shared : Type 0 where
  pub hub : TriggerHub
  pub shutdown : Bool
  pub permits : ℕ
  pub accepted : List String
  pub settlements : List String

abbrev pub Desk : Type 0
Desk = FlowIngress × Shared

abbrev pub queue_cap : ℕ
queue_cap = 32

abbrev pub interrupted : TriggerStatus
interrupted =
    Hub.failed
      "daemon_shutdown: the daemon was interrupted before this trigger completed; restart it and fire the trigger again"
      "internal"

-- `flow_loads`, of one flow: waiting and running.
abbrev pub flow_load : FlowIngress → ℕ × ℕ
flow_load f = (f.outstanding - f.running, f.running)

abbrev pub release : ℕ → ℕ
release counter = counter - 1

abbrev pub settle_in_hub : String → TriggerStatus → Shared → Shared
settle_in_hub id status s = record s {
  hub = finish id status s.hub;
  settlements = s.settlements ++ id ∷ [];
}

unfoldable pub settle_queued : String → TriggerStatus → Desk → Desk
settle_queued id status (f, s) =
    (record f { outstanding = release f.outstanding }, settle_in_hub id status s)

unfoldable pub settle_running : String → TriggerStatus → Desk → Desk
settle_running id status (f, s) = (
  record f { outstanding = release f.outstanding; running = release f.running },
  settle_in_hub id status s,
)

pub data Refusal : Type 0 where
  shutting_down : Refusal
  queue_full : ℕ → Refusal

-- A channel that is closed says so, whether or not it is full.
unfoldable pub admit : String → String → Desk → Desk × Outcome (String × ℕ) Refusal
admit id payload (f, s) =
    if not f.is_open || f.closed
    then ((f, s), err shutting_down)
    else if leb queue_cap (length f.jobs)
    then ((f, s), err (queue_full (flow_load f).0))
    else (
      (
        record f {
          outstanding = f.outstanding + 1;
          jobs = f.jobs ++ record { id = id; payload = payload } ∷ [];
        },
        record s {
          hub = register id (queued f.outstanding) s.hub;
          accepted = s.accepted ++ id ∷ [];
        },
      ),
      ok (id, f.outstanding),
    )

unfoldable pub settle_drained : List Job → Desk → Desk
unfolding settle_queued
settle_drained [] desk = desk
settle_drained (job ∷ drained) desk = settle_drained drained (settle_queued job.id interrupted desk)

unfoldable pub close_queue : Desk → Desk
unfolding settle_drained
close_queue (f, s) =
    settle_drained f.jobs (record f { is_open = false; closed = true; jobs = [] }, s)

-- The loop's `break`, and what follows it.
unfoldable pub stop_worker : Desk → Desk
unfolding close_queue
stop_worker (f, s) = close_queue (record f { worker = stopped }, s)

unfoldable pub abandon : Job → Desk → Desk
unfolding settle_queued stop_worker
abandon job desk = stop_worker (settle_queued job.id interrupted desk)

abbrev pub receive : List Job → Desk → Desk
receive [] desk = desk
receive (job ∷ jobs) (f, s) = (record f { jobs = jobs; worker = dequeued job }, s)

unfoldable pub spawn_run : FlowName → Job → Desk → Desk
spawn_run flow job (f, s) = (
  record f { running = f.running + 1; worker = receiving; runs = job.id ∷ f.runs },
  record s { hub = begin flow job.id s.hub; permits = s.permits - 1 },
)

-- What the worker does next: each wait looks at the flag first. `granted` says that the locks are there.
abbrev pub work_at : FlowName → Bool → Worker → Desk → Desk
work_at flow granted stopped desk = desk
work_at flow granted receiving (f, s) =
    if s.shutdown then stop_worker (f, s) else receive f.jobs (f, s)
work_at flow granted (dequeued job) (f, s) =
    if s.shutdown then abandon job (f, s) else (record f { worker = locking job }, s)
work_at flow granted (locking job) (f, s) =
    if s.shutdown
    then abandon job (f, s)
    else if granted
    then (record f { worker = permitting job }, s)
    else (f, s)
work_at flow granted (permitting job) (f, s) =
    if s.shutdown
    then abandon job (f, s)
    else if leb 1 s.permits
    then spawn_run flow job (f, s)
    else (f, s)

unfoldable pub work : FlowName → Bool → Desk → Desk
unfolding stop_worker abandon spawn_run
work flow granted (f, s) = work_at flow granted f.worker (f, s)

-- Takes one live run out.
unfoldable pub take_run : String → List String → List String
take_run id [] = []
take_run id (run ∷ runs) = if run == id then runs else run ∷ take_run id runs

abbrev pub status_of : TaskEnd → TriggerStatus
status_of (settled status) = status
status_of dropped =
    Hub.failed "internal: the trigger task ended without settling this trigger; report this"
      "internal"

unfoldable pub end_run : String → TaskEnd → Desk → Desk
unfolding settle_running take_run
end_run id how (f, s) =
    let (g, t) = settle_running id (status_of how) (f, s) in
    if any (λ run. run == id) f.runs
    then (record g { runs = take_run id f.runs }, record t { permits = t.permits + 1 })
    else (f, s)

pub record ServeState : Type 0 where
  pub flows : Dict FlowName FlowIngress
  pub shared : Shared

pub data Call : Type 0 where
  posts : FlowName → String → String → Call
  works : FlowName → Bool → Call
  ends : FlowName → String → TaskEnd → Call
  interrupts : Call

abbrev pub put_back : FlowName → ServeState → Desk → ServeState
put_back flow s (f, shared) = record { flows = insert flow f s.flows; shared = shared }

abbrev pub on_flow : FlowName → (Desk → Desk) → ServeState → Option FlowIngress → ServeState
on_flow flow act s none = s
on_flow flow act s (some f) = put_back flow s (act (f, s.shared))

unfoldable pub step : Call → ServeState → ServeState
unfolding admit work end_run
step (posts flow id payload) s =
    on_flow flow (λ desk. (admit id payload desk).0) s (lookup flow s.flows)
step (works flow granted) s = on_flow flow (work flow granted) s (lookup flow s.flows)
step (ends flow id how) s = on_flow flow (end_run id how) s (lookup flow s.flows)
step interrupts s = record s { shared = record s.shared { shutdown = true } }

unfoldable pub run : List Call → ServeState → ServeState
unfolding step
run [] s = s
run (c ∷ cs) s = run cs (step c s)

abbrev pub new_ingress : FlowIngress
new_ingress = record {
  jobs = [];
  closed = false;
  is_open = true;
  outstanding = 0;
  running = 0;
  worker = receiving;
  runs = [];
}

-- `webhook_flows`; an empty result refuses to serve.
abbrev pub is_webhook : TriggerType → Bool
is_webhook webhook = true
is_webhook on_start = false

unfoldable pub webhook_flows : FrozenWorkflow → List FlowName
webhook_flows frozen =
    map (λ flow. flow.0) (filter (λ flow. is_webhook flow.1.trigger_type) frozen.flows)

-- A daemon at its start, with an ingress for every webhook flow.
unfoldable pub serve : FrozenWorkflow → ℕ → ServeState
unfolding webhook_flows
serve frozen max_concurrent_runs = record {
  flows = map (λ name. (name, new_ingress)) (webhook_flows frozen);
  shared = record {
    hub = Hub.new;
    shutdown = false;
    permits = max_concurrent_runs;
    accepted = [];
    settlements = [];
  };
}
