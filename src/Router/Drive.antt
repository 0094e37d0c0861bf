-- ===== src/Router/Drive.antt =====
-- core/src/router/mod.rs: `drive_message`, the task that follows one message, as a state machine over
-- what it waits for: the injection, then the target's debounced states.
use core_tempo.Common.{[], ◌∷◌, Option, none, some, ◌==◌, if◌then◌else◌}
use core_tempo.Types.Ids.{AgentId, MessageId, Timestamp}
use core_tempo.Types.Message.{
  MessageKind, send, queued, injected, working, done, MessageRecord, kind_eq,
}
use core_tempo.Types.Config.{AgentState, starting, idle, exited, restarting}
use core_tempo.Router.State.{
  Moment, Router, Result, ok, err, InjectError, from_inject, transition, fail_message,
  settle_updated,
}
use core_tempo.Router.State

-- What a driver is waiting for: the injection's acknowledgement, the turn's start, its end, or nothing.
pub data Phase : Type 0 where
  awaiting_injection awaiting_work awaiting_idle finished : Phase

-- The acknowledgement, or the loss of its channel.
pub data Signal : Type 0 where
  acked : Timestamp → Signal
  refused : InjectError → Signal
  dropped : Signal
  state : AgentState → Signal
  state_closed : Signal

pub record Driver : Type 0 where
  pub id : MessageId
  pub to : AgentId
  pub kind : MessageKind
  pub phase : Phase

abbrev pub set_injected : Timestamp → MessageRecord → MessageRecord
set_injected at rec = record rec { status = injected; injected_at = some at }

abbrev pub set_working : MessageRecord → MessageRecord
set_working rec = record rec { status = working }

abbrev pub set_done : Moment → MessageRecord → MessageRecord
set_done now rec = record rec { status = done; completed_at = some now.stamp }

abbrev pub at_phase : Driver → Phase → Driver
at_phase d p = record d { phase = p }

abbrev pub watch_if_marked : Driver → Router × Result (Option MessageRecord) → Router × Driver
watch_if_marked d (s, ok (some rec)) = (s, at_phase d awaiting_work)
watch_if_marked d (s, ok none) = (s, at_phase d finished)
watch_if_marked d (s, err e) = (s, at_phase d finished)

-- An ask is left to its reply once the target works on it.
abbrev pub after_working : Driver → Router × Result (Option MessageRecord) → Router × Driver
after_working d (s, ok marked) =
    (s, at_phase d (if d.kind == send then awaiting_idle else finished))
after_working d (s, err e) = (s, at_phase d finished)

abbrev pub fail : Router → Moment → Driver → Router × Driver
fail s now d = (fail_message s now d.id (State.exited d.to), at_phase d finished)

-- The states that the first loop passes over: it looks at the current one first.
abbrev pub start_of_turn : Router → Moment → Driver → AgentState → Router × Driver
start_of_turn s now d AgentState.working =
    after_working d (transition s now d.id (injected ∷ []) set_working)
start_of_turn s now d exited = fail s now d
start_of_turn s now d starting = (s, d)
start_of_turn s now d idle = (s, d)
start_of_turn s now d restarting = (s, d)

abbrev pub end_of_turn : Router → Moment → Driver → AgentState → Router × Driver
end_of_turn s now d idle = (
  settle_updated (transition s now d.id (injected ∷ working ∷ []) (set_done now)),
  at_phase d finished,
)
end_of_turn s now d exited = fail s now d
end_of_turn s now d starting = (s, d)
end_of_turn s now d AgentState.working = (s, d)
end_of_turn s now d restarting = (s, d)

abbrev pub drive_phase : Phase → Router → Moment → Driver → Signal → Router × Driver
drive_phase awaiting_injection s now d (acked at) =
    watch_if_marked d (transition s now d.id (queued ∷ []) (set_injected at))
drive_phase awaiting_injection s now d (refused e) =
    (fail_message s now d.id (from_inject e), at_phase d finished)
drive_phase awaiting_injection s now d dropped = fail s now d
drive_phase awaiting_work s now d (state st) = start_of_turn s now d st
drive_phase awaiting_work s now d state_closed = (s, at_phase d finished)
drive_phase awaiting_idle s now d (state st) = end_of_turn s now d st
drive_phase awaiting_idle s now d state_closed = (s, at_phase d finished)
drive_phase _ s now d _ = (s, d)

unfoldable pub drive : Router → Moment → Driver → Signal → Router × Driver
unfolding transition fail_message
drive s now d signal = drive_phase d.phase s now d signal
