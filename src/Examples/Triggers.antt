-- ===== src/Examples/Triggers.antt =====
-- The theorems on triggers, at a hub with one flow and at two short watches.
use core_tempo.Common.{
  ℕ, ◌≡◌, ◌≢◌, refl, true, false, List, [], ◌∷◌, map, none, some, All, String, ==_iff, string_eq,
}
use core_tempo.Common.Dict.{lookup}
use core_tempo.Types.Ids.{AgentId}
use core_tempo.Types.Json.{Json, object, end}
use core_tempo.Types.Config
use core_tempo.Types.Message.{MessageRecord, send, user, working}
use core_tempo.Types.Message
use core_tempo.Types.Event.{message_status_changed}
use core_tempo.Schema.Refs.{get}
use core_tempo.Schema.Check.{OutputContract, check}
use core_tempo.Workflow.Validate.{Outcome, ok, err}
use core_tempo.Router.State.{Router}
use core_tempo.Router.State
use core_tempo.Examples.{message}
use core_tempo.Examples
use core_tempo.Trigger.Hub.{
  TriggerStatus, busy, begun, Call, tries, sets, finishes, registers, run, try_begin, new,
}
use core_tempo.Trigger.Hub.Claims.{claim_held}
use core_tempo.Trigger.Hub.History.{ids, drawn, newest, records_newest}
use core_tempo.Trigger.Payload.{
  is_utf8, bytes, read_payload, normalize_payload, joined, whole, read_payload_lem,
}
use core_tempo.Trigger.Outcome.{Completion, quiesced, arming, terminal_completion}
use core_tempo.Trigger.Watch.{Course, Observed, Pass, event, watch_completion}
use core_tempo.Trigger.Watch.Arrivals.{Seen, HasArrived, Some}
use core_tempo.Trigger.Watch.Ends.{IsStill, IsAnswer}
use core_tempo.Trigger.Watch.Reports.{quiesced_is_real, replied_is_real}

-- Another trigger of the flow, a status, and the end of a trigger of another flow.
abbrev others : List Call
others =
    tries "review" "bb" ∷ sets "aa" TriggerStatus.running ∷ finishes "bb" TriggerStatus.running ∷ []

claims : (try_begin "review" "aa" new).1 ≡ begun "aa"
unfolding try_begin lookup
claims = refl

claim_held_example :
    try_begin "review" "cc" (run others (try_begin "review" "aa" new).0)
    ≡ (run others (try_begin "review" "aa" new).0, busy "aa")
claim_held_example =
    claim_held "review" "aa" "cc" new others claims
      (tt, (tt, ((λ h. cc ((==_iff {A = String} "aa" "bb").1 h)), tt)))

abbrev history : List Call
history = registers "aa" (TriggerStatus.queued 1) ∷ tries "review" "bb" ∷ tries "review" "cc" ∷ []

records_newest_example : ids (run history new).records ≡ newest (drawn history new)
records_newest_example = records_newest history

-- A line break that two chunks share.
abbrev body : List (List ℕ)
body = (72 ∷ 105 ∷ 13 ∷ []) ∷ (10 ∷ 13 ∷ []) ∷ []

read_payload_lem_example :
    (read_payload (map bytes body) ≡ whole (joined body))
    × All (λ b. b ≢ 13) (normalize_payload (joined body))
read_payload_lem_example = read_payload_lem body

abbrev no_json : List ℕ → Outcome Json String
no_json text = err "no value"

abbrev roster : List AgentId
roster = "writer" ∷ "critic" ∷ []

abbrev kickoff : MessageRecord
kickoff = record (message "msg_1" user "writer" Message.queued) { kind = send }

-- A run in which nobody awaits a reply, and one in which the writer has asked the critic.
abbrev resting : Router
resting = record Examples.asked { counts = ("writer", 0) ∷ [] }

abbrev at_rest : Observed
at_rest = record { debounced = λ a. Config.idle; depth = λ a. ok 0; router = resting }

abbrev busy_pass : Pass
busy_pass = record {
  first = record at_rest { router = Examples.asked };
  wait = none;
  has_changed = λ a. some false;
  second = at_rest;
}

abbrev still_pass : Pass
still_pass = record {
  first = at_rest;
  wait = none;
  has_changed = λ a. some false;
  second = at_rest;
}

-- The writer takes the kickoff up, works through one pass, and is at rest in the next.
abbrev course : Course
course = record {
  fetch = ok kickoff;
  events = event (message_status_changed (record kickoff { status = working })) ∷ [];
  refuses = λ a. none;
  passes = busy_pass ∷ still_pass ∷ [];
  later_events = [];
  exit_wins = true;
}

settles : (watch_completion no_json roster none kickoff (some "aa") course).0 ≡ quiesced
unfolding watch_completion arming lookup State.new
settles = refl

quiesced_is_real_example :
    (kickoff.kind ≢ Message.ask)
    × Seen kickoff.id course.fetch course.events HasArrived
    × Some (IsStill roster) course.passes
quiesced_is_real_example = quiesced_is_real no_json roster none kickoff (some "aa") course settles

abbrev any_object : List ℕ → Outcome Json String
any_object text = ok (object end)

abbrev takes_all : OutputContract
takes_all = record {
  schema = object end;
  flow = "review";
  target = "writer";
  max_repairs = 1;
  iter_errors = λ v. [];
}

abbrev asked : MessageRecord
asked = message "msg_1" user "writer" Message.queued

abbrev answered : MessageRecord
answered = record asked { status = Message.replied; code = some 0; reply = some "{}" }

-- The answer comes with an event.
abbrev answer_course : Course
answer_course = record course {
  fetch = ok asked;
  events = event (message_status_changed answered) ∷ [];
  passes = [];
}

replies :
    (watch_completion any_object roster (some takes_all) asked none answer_course).0
    ≡ Completion.replied 0 "{}" (some (object end))
unfolding watch_completion terminal_completion check get
replies = refl

replied_is_real_example :
    (asked.kind ≡ Message.ask)
    × Seen asked.id answer_course.fetch answer_course.events
        (IsAnswer any_object (some takes_all) 0 "{}" (some (object end)))
replied_is_real_example =
    replied_is_real any_object roster (some takes_all) asked none answer_course 0 "{}"
      (some (object end)) replies

-- A euro sign is whole, and half a surrogate pair is not.
euro_is_whole :
    (is_utf8 (0xe2 ∷ 0x82 ∷ 0xac ∷ []) ≡ true) × (is_utf8 (0xed ∷ 0xa0 ∷ 0x80 ∷ []) ≡ false)
unfolding is_utf8
euro_is_whole = (refl, refl)
