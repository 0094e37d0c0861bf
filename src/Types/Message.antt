-- ===== src/Types/Message.antt =====
-- core/src/types/message.rs: message kinds, statuses, origins with their text form, and the record.
pub mod RoundTrip
use mathlib.Core.Option
use core_tempo.Common.{
  ℕ, String, Bool, true, false, Option, none, some, arith, ◌≡◌, ◌↔◌, refl, Eq, ◌==◌, string_eq,
  if◌then◌else◌, str_append, strip_prefix, is_empty, or_else, ==_iff,
}
use core_tempo.Types.Ids.{AgentId, MessageId, Timestamp}

pub data MessageKind : Type 0 where
  ask send : MessageKind

pub data MessageStatus : Type 0 where
  queued injected working replied done failed : MessageStatus

unfoldable pub kind_as_str : MessageKind → String
kind_as_str ask = "ask"
kind_as_str send = "send"

-- `FromStr for MessageKind`; the error carries the text.
unfoldable pub parse_kind : String → Option MessageKind
parse_kind s = if s == "ask" then some ask else if s == "send" then some send else none

abbrev pub is_terminal : MessageStatus → Bool
is_terminal queued = false
is_terminal injected = false
is_terminal working = false
is_terminal replied = true
is_terminal done = true
is_terminal failed = true

unfoldable pub status_as_str : MessageStatus → String
status_as_str queued = "queued"
status_as_str injected = "injected"
status_as_str working = "working"
status_as_str replied = "replied"
status_as_str done = "done"
status_as_str failed = "failed"

unfoldable pub parse_status : String → Option MessageStatus
parse_status s =
    if s == "queued"
    then some queued
    else if s == "injected"
    then some injected
    else if s == "working"
    then some working
    else if s == "replied"
    then some replied
    else if s == "done"
    then some done
    else if s == "failed"
    then some failed
    else none

pub data Origin : Type 0 where
  agent : AgentId → Origin
  user : Origin
  http : String → Origin
  trigger : String → Origin

-- `Display for Origin`.
unfoldable pub origin_text : Origin → String
origin_text (agent id) = str_append "agent:" id
origin_text user = "user"
origin_text (http req) = str_append "http:" req
origin_text (trigger hex) = str_append "trigger:" hex

-- `strip_prefix(p)` with something left over.
unfoldable pub nonempty_after : String → String → Option String
nonempty_after p s = elim (strip_prefix p s) [
  | none ↦ none
  | some rest ↦ if is_empty rest then none else some rest
]

-- `FromStr for Origin`.
unfoldable pub parse_origin : String → Option Origin
parse_origin s =
    if s == "user"
    then some user
    else or_else (Option.map agent (nonempty_after "agent:" s)) (
        or_else (Option.map http (nonempty_after "http:" s))
          (Option.map trigger (nonempty_after "trigger:" s)))

pub record MessageRecord : Type 0 where
  pub id : MessageId
  pub kind : MessageKind
  pub from : Origin
  pub to : AgentId
  pub body : String
  pub status : MessageStatus
  pub code : Option ℕ
  pub reply : Option String
  pub created_at : Timestamp
  pub injected_at : Option Timestamp
  pub completed_at : Option Timestamp
  pub reason : Option String
  pub reason_code : Option String

abbrev pub kind_beq : MessageKind → MessageKind → Bool
kind_beq ask ask = true
kind_beq send send = true
kind_beq _ _ = false

pub kind_beq_iff : (a b : MessageKind) → (kind_beq a b ≡ true) ↔ (a ≡ b)
kind_beq_iff a b = (λ h. ground arith, λ h. ground arith)

abbrev pub status_beq : MessageStatus → MessageStatus → Bool
status_beq queued queued = true
status_beq injected injected = true
status_beq working working = true
status_beq replied replied = true
status_beq done done = true
status_beq failed failed = true
status_beq _ _ = false

pub status_beq_iff : (a b : MessageStatus) → (status_beq a b ≡ true) ↔ (a ≡ b)
status_beq_iff a b = (λ h. ground arith, λ h. ground arith)

abbrev pub origin_beq : Origin → Origin → Bool
origin_beq (agent a) (agent b) = a == b
origin_beq user user = true
origin_beq (http a) (http b) = a == b
origin_beq (trigger a) (trigger b) = a == b
origin_beq _ _ = false

pub origin_beq_iff : (a b : Origin) → (origin_beq a b ≡ true) ↔ (a ≡ b)
origin_beq_iff (agent a) (agent b) =
    (λ h. ground (arith, ==_iff a b), λ h. ground (arith, ==_iff a b))
origin_beq_iff (http a) (http b) =
    (λ h. ground (arith, ==_iff a b), λ h. ground (arith, ==_iff a b))
origin_beq_iff (trigger a) (trigger b) =
    (λ h. ground (arith, ==_iff a b), λ h. ground (arith, ==_iff a b))
origin_beq_iff _ _ = (λ h. ground arith, λ h. ground arith)

instance abbrev pub kind_eq : Eq MessageKind
kind_eq = record { same = kind_beq; same_iff = kind_beq_iff }

instance abbrev pub status_eq : Eq MessageStatus
status_eq = record { same = status_beq; same_iff = status_beq_iff }

instance abbrev pub origin_eq : Eq Origin
origin_eq = record { same = origin_beq; same_iff = origin_beq_iff }
