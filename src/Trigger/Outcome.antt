-- ===== src/Trigger/Outcome.antt =====
-- core/src/trigger.rs: how a kickoff can end, and what a record of it says.
use core_tempo.Common.{
  ℕ, ◌-◌, String, List, [], ◌∷◌, Option, none, some, ◌==◌, nat_eq, string_eq, if◌then◌else◌, concat,
  join, show, unwrap_or, ltb,
}
use core_tempo.Types.Ids.{AgentId, MessageId}
use core_tempo.Types.Json.{Json}
use core_tempo.Types.Event.{CompletionResult, EventPayload, workflow_completed}
use core_tempo.Types.Message.{
  MessageRecord, MessageStatus, queued, injected, working, done, status_as_str,
}
use core_tempo.Types.Message
use core_tempo.Schema.Check.{OutputContract, check}
use core_tempo.Workflow.Validate.{Outcome, ok, err}
use core_tempo.Trigger.Hub.{TriggerStatus, completed}
use core_tempo.Trigger.Hub

pub data Completion : Type 0 where
  replied : ℕ → String → Option Json → Completion
  quiesced : Completion
  failed : String → String → Completion
  timeout : Completion

abbrev pub result : Completion → CompletionResult
result (replied code reply output) = CompletionResult.replied
result quiesced = CompletionResult.quiesced
result (failed reason reason_code) = CompletionResult.failed
result timeout = CompletionResult.timeout

-- The status a finished kickoff is recorded under.
unfoldable pub completion_status : Completion → TriggerStatus
completion_status (replied code reply output) =
    completed CompletionResult.replied (some code) (some reply) output
completion_status quiesced = completed CompletionResult.quiesced none none none
completion_status (failed reason reason_code) = Hub.failed reason reason_code
completion_status timeout =
    Hub.failed
      "the kickoff did not complete before ask_timeout_minutes elapsed; check the target agent's pane for a stalled turn, then raise [workflow] ask_timeout_minutes or fire the trigger again"
      "timeout"

unfoldable pub completion_event : Completion → Option String → MessageId → EventPayload
completion_event (replied code reply output) id message =
    workflow_completed CompletionResult.replied (some code) (some reply) id message output none none
completion_event quiesced id message =
    workflow_completed CompletionResult.quiesced none none id message none none none
completion_event (failed reason reason_code) id message =
    workflow_completed CompletionResult.failed none none id message none (some reason)
      (some reason_code)
completion_event timeout id message =
    workflow_completed CompletionResult.timeout none none id message none none none

-- Milliseconds: two seconds under `ask_timeout`, and at least one.
unfoldable pub watcher_deadline : ℕ → ℕ
watcher_deadline ask_timeout = if ltb (ask_timeout - 2000) 1000 then 1000 else ask_timeout - 2000

abbrev pub exited : AgentId → Completion
exited agent =
    failed
      (concat (
        "agent '" ∷ agent
        ∷ "' exited before the kickoff completed; check its pane, then restart it and fire the trigger again"
        ∷ []))
      "agent_exited"

abbrev pub bus_closed : Completion
bus_closed =
    failed "the event bus closed before the kickoff completed; the run is shutting down" "internal"

abbrev pub channel_closed : AgentId → Completion
channel_closed agent =
    failed
      (concat (
        "the state channel for agent '" ∷ agent
        ∷ "' closed before the kickoff completed; the run is shutting down" ∷ []))
      "internal"

-- The error of the store, as its text.
abbrev pub store_failed : String → Completion
store_failed error =
    failed (concat ("could not read the kickoff message: " ∷ error ∷ [])) "internal"

unfoldable pub published : Option String → String
published none = "agent_failed"
published (some code) =
    if code == "blocked_on_permission"
    then "blocked_on_permission"
    else if code == "timeout"
    then "timeout"
    else if code == "agent_restarted"
    then "agent_restarted"
    else if code == "agent_exited"
    then "agent_exited"
    else "agent_failed"

unfoldable pub failed_completion : MessageRecord → String → Completion
unfolding published
failed_completion rec fallback = failed (unwrap_or fallback rec.reason) (published rec.reason_code)

unfoldable pub render_trigger_failure : List String → ℕ → String
render_trigger_failure errors attempts_used = concat (
    "the agent's reply did not match the output schema after "
    ∷ show attempts_used
    ∷ " rejection(s):\n- "
    ∷ join "\n- " errors
    ∷ [])

module _ (parse : List ℕ → Outcome Json String) where
  abbrev pub checked : ℕ → String → ℕ → Outcome Json (List String) → Completion
  checked code reply max_repairs (ok value) = replied code reply (some value)
  checked code reply max_repairs (err errors) =
      failed (render_trigger_failure errors max_repairs) "schema_validation_failed"

  abbrev pub replied_completion : ℕ → String → Option OutputContract → Completion
  replied_completion code reply none = replied code reply none
  replied_completion code reply (some contract) =
      if code == 0
      then checked code reply contract.max_repairs (check parse contract reply)
      else replied code reply none

  abbrev pub terminal_at : MessageStatus → MessageRecord → Option OutputContract → Option Completion
  terminal_at Message.replied rec contract =
      some (replied_completion (unwrap_or 1 rec.code) (unwrap_or "" rec.reply) contract)
  terminal_at queued rec contract = none
  terminal_at injected rec contract = none
  terminal_at working rec contract = none
  terminal_at status rec contract = some (
      failed_completion rec (
        concat (
          "kickoff ask '"
          ∷ rec.id
          ∷ "' ended at status '"
          ∷ status_as_str rec.status
          ∷ "' without a reply"
          ∷ [])))

  unfoldable pub terminal_completion : MessageRecord → Option OutputContract → Option Completion
  unfolding failed_completion
  terminal_completion rec contract = terminal_at rec.status rec contract

pub data Arming : Type 0 where
  armed : Arming
  never : Completion → Arming

abbrev pub arming_at : MessageStatus → MessageRecord → Option Arming
arming_at working rec = some armed
arming_at done rec = some armed
arming_at Message.replied rec = some armed
arming_at Message.failed rec = some (
    never (
      failed_completion rec
        (concat ("kickoff send '" ∷ rec.id ∷ "' failed before the agent saw it" ∷ []))))
arming_at queued rec = none
arming_at injected rec = none

unfoldable pub arming : MessageRecord → Option Arming
unfolding failed_completion
arming rec = arming_at rec.status rec
