-- ===== src/Examples.antt =====
-- Small workflows, tables and runs, at which the theorems are applied.
pub mod Routing
pub mod Watching
pub mod Parts
pub mod Workflows
pub mod Triggers
pub mod Guards
pub mod Serving
use core_tempo.Common.{
  ℕ, ◌-◌, ◌≡◌, ◌≢◌, refl, Bool, true, false, List, [], ◌∷◌, ◌++◌, Option, none, some, String, find,
  count, length, all, any, drop, ◌==◌, string_eq, nat_eq, ◌&&◌, if◌then◌else◌, arith,
}
use core_tempo.Common.Dict.{Dict}
use core_tempo.Common.Dict
use core_tempo.Common.KeySet
use core_tempo.Types.Ids.{AgentId, MessageId}
use core_tempo.Types.Message.{
  MessageRecord, MessageKind, ask, send, queued, injected, replied, MessageStatus, Origin, agent,
  user, trigger,
}
use core_tempo.Types.Config.{Edge, AgentConfig, FrozenWorkflow}
use core_tempo.Types.Config
use core_tempo.Types.Message
use core_tempo.Common
use core_tempo.Bus
use core_tempo.Bus.Replay.{publish_all, stamped, replay_since-publish_all}
use core_tempo.Common.{ltb}
use core_tempo.Terminal.Queue
use core_tempo.Terminal.Queue.Order.{answered, in_hand, tickets}
use core_tempo.Terminal.Queue.Whole.{fresh, answers_in_order}
use core_tempo.Terminal.Queue.Silence.{dialog_gets_nothing}
use core_tempo.Terminal.Coalesce
use core_tempo.Terminal.Coalesce.Stream.{joined, Held, coalesce_lem}
use core_tempo.Terminal.Stripper
use core_tempo.Terminal.Stripper.Chunks.{feed_all, feed_again}
use core_tempo.Ring
use core_tempo.Ring.Window.{pushes, read_since-pushes, read_since_resumes}
use core_tempo.Types.Ids.{Timestamp}
use core_tempo.Types.Event.{EventPayload, agent_nudged, agent_stalled}
use core_tempo.Types.Message.{parse_origin, origin_text, parse_status, status_as_str}
use core_tempo.Router.Sinks.{render_reply_nudge}
use core_tempo.Common.{leb, suc}
use core_tempo.Store.{Row, Run, Store, has_id, reconcile_orphans, is_orphan}
use core_tempo.Store
use core_tempo.Store.Orphans.{swept}
use core_tempo.Store.Rows.{test}
use core_tempo.Router.State.{
  Moment, Router, Result, ok, err, already_replied, OutputContract, timeout, restarted,
  backoff_after, transition, settle, fail_message,
}
use core_tempo.Router.State
use core_tempo.Router.Sinks.{render_reply}
use core_tempo.Router.Create.{create}
use core_tempo.Router.Reply.{reply, reject_off_schema, fire_reply_sink, set_replied}
use core_tempo.Router.Reply.Once.{reply_again}
use core_tempo.Router.Reply.Budget.{reply_after_repairs, attempt_all, is_rejection, is_ok}
use core_tempo.Router.Reply.Delivery.{reply_delivers}
use core_tempo.Router.Gate.{
  StateSource, on_stable_idle, hold_quiet, pending_asks, owed_of, sort, owed_reply_decision,
}
use core_tempo.Router.Gate.Safety.{clear_is_safe, unmet_of}
use core_tempo.Router.Gate.Reminders.{reminders_spaced, rounds}
use core_tempo.Router.Drive.{acked, awaiting_injection}
use core_tempo.Router.Watchdog.{sweep, on_agent_restarted}
use core_tempo.Router.Watchdog.Deadlines.{sweep_times_out, failed_row}
use core_tempo.Router.Watchdog.Restarts.{restart_fails_pending}
use core_tempo.Router.Steps.{Call, creates, replies, drives, sweeps, step, run}
use core_tempo.Router.Accounts.{Accounts, asked_by, owed_by}
use core_tempo.Router.Accounts.Opened.{opened_run-Accounts}
use core_tempo.Router.History.Run.{run-Advances, run_ended, IsAdvanced}

abbrev pub config : List Edge → AgentConfig
config edges = record (Config.new_agent "/repo" "Work.") { edges = edges }

-- A writer that has to ask a critic.
abbrev pub workflow : FrozenWorkflow
workflow = record {
  name = "review";
  scrollback = 5000;
  flows = [];
  agents =
      ("writer", config (record { to = "critic"; kind = Config.ask; max_rounds = none } ∷ []))
      ∷ ("critic", config [])
      ∷ [];
  ask_timeout = 60000;
}

abbrev pub at_time : ℕ → Moment
at_time ms = record { instant = ms; stamp = "2026-01-01T00:00:00Z" }

abbrev pub message : MessageId → Origin → AgentId → MessageStatus → MessageRecord
message id from to status = record {
  id = id;
  kind = ask;
  from = from;
  to = to;
  body = "look";
  status = status;
  code = none;
  reply = none;
  created_at = "2026-01-01T00:00:00Z";
  injected_at = none;
  completed_at = none;
  reason = none;
  reason_code = none;
}

-- The database that a stopped run left with one message going.
abbrev pub left_row : Row
left_row = record { message = message "msg_0" user "writer" injected; run_id = some "run_0" }

abbrev pub stopped_run : Run
stopped_run = record {
  run_id = "run_0";
  workflow_name = "review";
  workflow_hash = "00";
  started_at = "2025-12-31T00:00:00Z";
  stopped_at = some "2025-12-31T01:00:00Z";
}

abbrev pub database : Store
database = record { run_id = "run_1"; rows = left_row ∷ []; runs = stopped_run ∷ [] }

abbrev pub silent : StateSource
silent = record { debounced = λ a. none; blocked_since = λ a. none }

-- The writer asks, the ask is delivered, the critic answers, and a sweep comes by.
abbrev pub calls : List (Moment × Call)
calls =
    (at_time 10, creates "msg_1" (agent "writer") "critic" ask "look" none)
    ∷ (
      at_time 20,
      drives (record { id = "msg_1"; to = "critic"; kind = ask; phase = awaiting_injection })
          (acked "2026-01-01T00:00:01Z"),
    )
    ∷ (at_time 30, replies (agent "critic") "msg_1" 0 "fine")
    ∷ (at_time 40, sweeps silent)
    ∷ []

-- A run with one ask of the writer's to the critic, under way.
abbrev pub asked_row : Row
asked_row = record {
  message = message "msg_1" (agent "writer") "critic" injected;
  run_id = some "run_1";
}

abbrev pub asked : Router
unfolding State.new
asked =
    record (State.new (record { run_id = "run_1"; rows = asked_row ∷ []; runs = [] }) Bus.new
      workflow) {
        counts = ("writer", 1) ∷ [];
        owed = ("critic", "msg_1" ∷ []) ∷ [];
        deadlines = ("msg_1", 60010) ∷ [];
      }

abbrev pub answer : MessageRecord
answer = set_replied (at_time 30) 0 "fine" asked_row.message

-- A run on the opened database, in which the writer has asked the critic.
abbrev pub opened : List (Moment × Call) → Router
opened = run (State.new (reconcile_orphans database "2026-01-01T00:00:00Z") Bus.new workflow)

abbrev pub one_ask : List (Moment × Call)
one_ask = (at_time 10, creates "msg_1" (agent "writer") "critic" ask "look" none) ∷ []

abbrev pub queued_row : Row
queued_row = record {
  message = message "msg_1" (agent "writer") "critic" queued;
  run_id = some "run_1";
}

-- A note to the critic asks nothing of it, so it may be cleared.
abbrev pub one_send : List (Moment × Call)
one_send = (at_time 10, creates "msg_3" user "critic" send "for your information" none) ∷ []

-- A kick-off under a contract that takes one answer only, with one repair.
abbrev pub contract : OutputContract
contract = record {
  flow = "review";
  target = "critic";
  max_repairs = 1;
  check = λ body. if ◌==◌ {K = String} body "{}" then none else some ("(root): not an object" ∷ []);
}

abbrev pub kicked_row : Row
kicked_row = record {
  message = message "msg_2" (trigger "aa") "critic" injected;
  run_id = some "run_1";
}

abbrev pub kicked : Router
unfolding State.new
kicked =
    record (State.new (record { run_id = "run_1"; rows = kicked_row ∷ []; runs = [] }) Bus.new
      workflow) { contracts = ("aa", contract) ∷ [] }
