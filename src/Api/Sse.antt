-- ===== src/Api/Sse.antt =====
-- core/src/api/sse.rs: the events of a subscriber. The client's channel takes all that is sent; a client
-- that hangs up gets no more of it.
pub mod Rising
pub mod Seam
use core_tempo.Common.{
  ℕ, zero, suc, String, Bool, true, false, not, ◌&&◌, ◌||◌, List, [], ◌∷◌, ◌++◌, map, Option, none,
  some, ◌==◌, string_eq, nat_eq, if◌then◌else◌, leb, ltb, any, filter, codes, starts_with,
  ends_with, strip, trim, length, take, ◌-◌, or_else,
}
use mathlib.Core.Option
use core_tempo.Types.Ids.{AgentId, Timestamp}
use core_tempo.Types.Message.{MessageRecord, Origin, agent, user, http, trigger}
use core_tempo.Types.Event.{
  Event, EventPayload, run_started, agent_state_changed, agent_lifecycle, agent_nudged,
  agent_stalled, agent_blocked, agent_permission_refused, message_created, message_status_changed,
  bus_reset, reply_rejected, workflow_completed, session_created, session_stopped, session_resumed,
  session_deleted, project_registered, project_forgotten,
}

unfoldable pub event_type : EventPayload → String
event_type (run_started run name at) = "run.started"
event_type (agent_state_changed a state) = "agent.state"
event_type (agent_lifecycle a phase exit) = "agent.lifecycle"
event_type (agent_nudged a) = "agent.nudged"
event_type (agent_stalled a) = "agent.stalled"
event_type (agent_blocked a blocked tool) = "agent.blocked"
event_type (agent_permission_refused a tool detail) = "agent.permission_refused"
event_type (message_created message) = "message.created"
event_type (message_status_changed message) = "message.status"
event_type (reply_rejected id a text) = "reply.rejected"
event_type bus_reset = "bus.reset"
event_type (workflow_completed result code reply id message output reason reason_code) =
    "workflow.completed"
event_type (session_created a) = "session.created"
event_type (session_stopped a) = "session.stopped"
event_type (session_resumed a resumed) = "session.resumed"
event_type (session_deleted a) = "session.deleted"
event_type (project_registered p) = "project.registered"
event_type (project_forgotten p) = "project.forgotten"

-- Patterns are kept as characters.
pub record EventFilterSpec : Type 0 where
  pub types : Option (List (List ℕ))
  pub agent : Option AgentId

split_comma : List ℕ → List ℕ × List (List ℕ)
split_comma [] = ([], [])
split_comma (c ∷ s) =
    let (part, parts) = split_comma s in if c == b',' then ([], part ∷ parts) else (c ∷ part, parts)

abbrev is_nonempty : List ℕ → Bool
is_nonempty [] = false
is_nonempty (c ∷ s) = true

unfoldable pub parse_types : String → List (List ℕ)
unfolding split_comma
parse_types t =
    let (part, parts) = split_comma (codes t) in filter is_nonempty (map trim (part ∷ parts))

unfoldable pub parse : Option String → Option String → EventFilterSpec
unfolding parse_types
parse types name = record { types = Option.map parse_types types; agent = name }

abbrev pub always : EventPayload → Bool
always (run_started run name at) = true
always bus_reset = true
always (workflow_completed result code reply id message output reason reason_code) = true
always (project_registered p) = true
always (project_forgotten p) = true
always _ = false

abbrev is_exact : Option (List ℕ) → Bool
is_exact (some []) = true
is_exact _ = false

-- A trailing `*` matches any rest.
abbrev pub pattern_matches : List ℕ → List ℕ → Bool
pattern_matches ty p =
    if ends_with (codes "*") p
    then starts_with (take (length p - 1) p) ty
    else is_exact (strip p ty)

abbrev pub types_match : String → Option (List (List ℕ)) → Bool
types_match ty none = true
types_match ty (some patterns) = any (pattern_matches (codes ty)) patterns

abbrev pub is_from : AgentId → Origin → Bool
is_from want (agent a) = a == want
is_from want user = false
is_from want (http req) = false
is_from want (trigger hex) = false

abbrev pub concerns : AgentId → EventPayload → Bool
concerns want (agent_state_changed a state) = a == want
concerns want (agent_lifecycle a phase exit) = a == want
concerns want (agent_nudged a) = a == want
concerns want (agent_stalled a) = a == want
concerns want (agent_blocked a blocked tool) = a == want
concerns want (agent_permission_refused a tool detail) = a == want
concerns want (reply_rejected id a text) = a == want
concerns want (session_created a) = a == want
concerns want (session_stopped a) = a == want
concerns want (session_resumed a resumed) = a == want
concerns want (session_deleted a) = a == want
concerns want (message_created message) = message.to == want || is_from want message.from
concerns want (message_status_changed message) = message.to == want || is_from want message.from
concerns want _ = true

abbrev pub agent_matches : Option AgentId → EventPayload → Bool
agent_matches none payload = true
agent_matches (some want) payload = concerns want payload

unfoldable pub matches : EventFilterSpec → Event → Bool
unfolding event_type
matches spec e =
    always e.payload
    || (types_match (event_type e.payload) spec.types && agent_matches spec.agent e.payload)

-- What the subscription gives: an event, or that some were missed, with the number and the time of the
-- reset that is sent then.
pub data Received : Type 0 where
  got : Event → Received
  lagged : ℕ → Timestamp → Received

abbrev pub reset : ℕ → Timestamp → Event
reset seq now = record { seq = seq; ts = now; payload = bus_reset }

abbrev pub forward : EventFilterSpec → Event → List Event → List Event
forward spec e rest = if matches spec e then e ∷ rest else rest

abbrev pub larger : ℕ → ℕ → ℕ
larger m n = if ltb m n then n else m

-- The loop over the live events, after `last_seq`.
pub pump_live : EventFilterSpec → ℕ → List Received → List Event
pump_live spec last_seq [] = []
pump_live spec last_seq (got e ∷ live) =
    let next = forward spec e (pump_live spec e.seq live) in
    let same = pump_live spec last_seq live in if leb e.seq last_seq then same else next
pump_live spec last_seq (lagged seq now ∷ live) =
    reset seq now ∷ pump_live spec (larger last_seq seq) live

unfoldable pub last_of : ℕ → List Event → ℕ
last_of last [] = last
last_of last (e ∷ events) = last_of e.seq events

-- `none` is a replay that the ring cannot give; the reset that is sent instead carries `seq`.
abbrev pub pump_events :
    EventFilterSpec → Option (List Event) → ℕ → Timestamp → List Received → List Event
pump_events spec (some events) seq now live =
    filter (matches spec) events ++ pump_live spec (last_of 0 events) live
pump_events spec none seq now live = reset seq now ∷ pump_live spec seq live
