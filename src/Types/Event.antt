-- ===== src/Types/Event.antt =====
-- core/src/types/event.rs: the event payloads, and core/src/api/sse.rs: which events a subscriber's
-- filter passes.
use core_tempo.Common.{ℕ, String, Bool, Option}
use core_tempo.Types.Ids.{AgentId, MessageId, RunId, ProjectId, Timestamp}
use core_tempo.Types.Json.{Json}
use core_tempo.Types.Message.{MessageRecord}
use core_tempo.Types.Config.{AgentState, AgentExit}

pub data LifecyclePhase : Type 0 where
  spawned exited restarting : LifecyclePhase

pub data CompletionResult : Type 0 where
  replied quiesced failed timeout : CompletionResult

pub data EventPayload : Type 0 where
  run_started : RunId → String → Timestamp → EventPayload
  agent_state_changed : AgentId → AgentState → EventPayload
  agent_lifecycle : AgentId → LifecyclePhase → Option AgentExit → EventPayload
  agent_nudged : AgentId → EventPayload
  agent_stalled : AgentId → EventPayload
  agent_blocked : AgentId → Bool → Option String → EventPayload
  agent_permission_refused : AgentId → Option String → Option String → EventPayload
  message_created : MessageRecord → EventPayload
  message_status_changed : MessageRecord → EventPayload
  bus_reset : EventPayload
  reply_rejected : MessageId → AgentId → String → EventPayload
  workflow_completed :
      CompletionResult
      → Option ℕ
      → Option String
      → Option String
      → MessageId
      → Option Json
      → Option String
      → Option String
      → EventPayload
  session_created : AgentId → EventPayload
  session_stopped : AgentId → EventPayload
  session_resumed : AgentId → Bool → EventPayload
  session_deleted : AgentId → EventPayload
  project_registered : ProjectId → EventPayload
  project_forgotten : ProjectId → EventPayload

pub record Event : Type 0 where
  pub seq : ℕ
  pub ts : Timestamp
  pub payload : EventPayload
