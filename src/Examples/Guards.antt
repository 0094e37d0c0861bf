-- ===== src/Examples/Guards.antt =====
-- The theorems on schemas, event streams and tokens, at small texts and requests.
use core_tempo.Common.{
  ℕ, ◌≡◌, ◌↔◌, ◌⊎◌, refl, true, false, List, [], ◌∷◌, ◌++◌, map, filter, Option, none, some, String,
  is_some, arith, strip, concat, starts_with, ends_with, trim,
}
use core_tempo.Common.Dict.{Dict}
use core_tempo.Types.Ids.{AgentId}
use core_tempo.Types.Json.{Json, null, object, string, array, cons, nil, field, end}
use core_tempo.Types.Net.{IpAddr, localhost}
use core_tempo.Types.Message.{agent}
use core_tempo.Types.Event.{Event, EventPayload, agent_nudged, agent_stalled}
use core_tempo.Bus.{newer}
use core_tempo.Workflow.Validate.{Outcome, ok}
use core_tempo.Schema.Repair.{balanced_span}
use core_tempo.Schema.Repair.Spans.{Body, balanced_span-append}
use core_tempo.Schema.Repair.Spans
use core_tempo.Schema.Refs.{find_external_ref, RefersTo, find_external_ref_lem}
use core_tempo.Schema.Check.{OutputContract, check}
use core_tempo.Schema.Check.Verdicts.{Promised, check_lem}
use core_tempo.Api.Sse.{EventFilterSpec, matches, got, lagged, last_of, pump_events, reset}
use core_tempo.Api.Sse.Seam.{events_once}
use core_tempo.Api.Auth.{
  Request, Header, host_ok, absent, text, header_text, caller_origin, classify_session,
  token_matches, bearer_of, state_route,
}
use core_tempo.Api.Auth
use core_tempo.Api.Auth.Scope.{Allowed, SpeaksAs, check-Allowed, caller_origin-SpeaksAs}

-- `"a":1`, between braces.
abbrev inner : List ℕ
inner = 34 ∷ 97 ∷ 34 ∷ 58 ∷ 49 ∷ []

inner-Body : Body inner
inner-Body =
    Spans.literal 34 (97 ∷ 34 ∷ []) (58 ∷ 49 ∷ []) refl
      (Spans.plain 97 refl refl (Spans.closing 34 refl refl))
      (Spans.char 58 refl refl refl (Spans.char 49 refl refl refl Spans.done)) refl

balanced_span-append_example :
    balanced_span ((79 ∷ 75 ∷ []) ++ (123 ∷ (inner ++ 125 ∷ 33 ∷ [])))
    ≡ some (123 ∷ (inner ++ 125 ∷ []))
balanced_span-append_example =
    balanced_span-append (79 ∷ 75 ∷ []) (33 ∷ []) inner 123 125 (refl, (refl, tt)) refl inner-Body
      refl

-- A list of two schemas, one of which refers outside.
abbrev schema : Json
schema = object (
    field "anyOf"
      (array (
        cons (object (field "$ref" (string "#/here") end))
          (cons (object (field "$ref" (string "http://x") end)) nil)))
      end)

find_external_ref_lem_example :
    ((r : String) → find_external_ref schema ≡ some r → RefersTo r schema)
    × ((r : String) → RefersTo r schema → is_some (find_external_ref schema) ≡ true)
find_external_ref_lem_example = find_external_ref_lem schema

abbrev wrapped : List ℕ → Outcome Json String
wrapped chars = ok (object (field "output" null end))

-- A schema of objects that declares no `output`, and takes all but objects.
abbrev takes_inner : OutputContract
takes_inner = record {
  schema = object (field "type" (string "object") end);
  flow = "review";
  target = "writer";
  max_repairs = 1;
  iter_errors = λ v. elim v [ object fs ↦ "(root): no" ∷ [] | _ ↦ [] ];
}

check_lem_example :
    (check wrapped takes_inner "{}" ≡ ok null) ↔ Promised wrapped takes_inner "{}" (ok null)
check_lem_example = check_lem wrapped takes_inner "{}" (ok null)

abbrev numbered : ℕ → EventPayload → Event
numbered seq payload = record { seq = seq; ts = "2026-01-01T00:00:00Z"; payload = payload }

abbrev of_writer : EventFilterSpec
of_writer = record { types = none; agent = some "writer" }

abbrev before : List Event
before = numbered 1 (agent_nudged "writer") ∷ numbered 2 (agent_nudged "critic") ∷ []

abbrev between : List Event
between = numbered 3 (agent_stalled "writer") ∷ []

abbrev later : List Event
later = numbered 4 (agent_nudged "writer") ∷ []

-- What the client still receives after it has lagged: an old event, and a new one.
abbrev kept : List Event
kept = numbered 5 (agent_nudged "writer") ∷ []

abbrev rest : List Event
rest = numbered 8 (agent_nudged "writer") ∷ []

events_once_example :
    (pump_events of_writer
        (some (newer 1 (before ++ between)))
        0
        "2026-01-01T00:00:00Z"
        (map got (between ++ later))
      ≡ filter (matches of_writer) (newer 1 (before ++ (between ++ later))))
    × ((pump_events of_writer
            (some (newer 1 (before ++ between)))
            0
            "2026-01-01T00:00:00Z"
            (map got (between ++ later) ++ lagged 7 "2026-01-01T00:00:01Z" ∷ map got (kept ++ rest))
          ≡ filter (matches of_writer) (newer 1 (before ++ (between ++ later)))
            ++ reset 7 "2026-01-01T00:00:01Z" ∷ filter (matches of_writer) rest)
        × (pump_events of_writer none
              (last_of 0 (before ++ between))
              "2026-01-01T00:00:00Z"
              (map got (between ++ later))
            ≡ reset (last_of 0 (before ++ between)) "2026-01-01T00:00:00Z"
              ∷ filter (matches of_writer) later))
unfolding last_of
events_once_example =
    events_once of_writer 1 0 7 "2026-01-01T00:00:00Z" "2026-01-01T00:00:01Z" before between later
      kept rest (omega arith) (omega arith) (omega arith) (omega arith) (omega arith) (omega arith)

abbrev tokens : Dict AgentId String
tokens = ("critic", "c0") ∷ ("writer", "f1") ∷ []

-- The writer's hook reports the writer's state.
abbrev report : Request
report = record {
  is_post = true;
  path = "/v1/agents/writer/state";
  host = text "localhost:4820";
  authorization = text "Bearer f1";
  content_type = text "application/json";
  transfer_encoding = false;
  content_length = absent;
  claimed = absent;
}

abbrev no_address : List ℕ → Option IpAddr
no_address chars = none

passes : Auth.check no_address localhost (classify_session "f0" tokens) report ≡ Auth.ok tt
unfolding Auth.check classify_session strip concat starts_with ends_with trim
passes = refl

check-Allowed_example :
    (host_ok no_address localhost (header_text report.host) ≡ true)
    × ((report.path ≡ "/v1/health") ⊎ Allowed "f0" tokens report)
check-Allowed_example = check-Allowed no_address localhost "f0" tokens report passes

abbrev roster : List AgentId
roster = "critic" ∷ "writer" ∷ []

is_writer :
    caller_origin roster "r1" (classify_session "f0" tokens) report ≡ Auth.ok (agent "writer")
unfolding caller_origin classify_session strip bearer_of
is_writer = refl

caller_origin-SpeaksAs_example : SpeaksAs roster tokens report "writer"
caller_origin-SpeaksAs_example =
    caller_origin-SpeaksAs roster "r1" "f0" tokens report "writer" is_writer
