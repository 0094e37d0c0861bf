-- ===== src/Trigger/Hub.antt =====
-- core/src/trigger.rs: `TriggerHub`, and the guard `SettleOnDrop`. An update that is sent is appended to
-- `updates`, and the random id is a parameter of the call that draws it.
pub mod History
pub mod Claims
use core_tempo.Common.{
  ℕ, zero, suc, ◌-◌, String, Bool, true, false, not, List, [], ◌∷◌, ◌++◌, map, Option, none, some,
  ◌==◌, string_eq, if◌then◌else◌, filter, length, drop,
}
use core_tempo.Common.Dict.{Dict, lookup, insert}
use core_tempo.Types.Ids.{FlowName}
use core_tempo.Types.Json.{Json}
use core_tempo.Types.Event.{CompletionResult}

pub data TriggerStatus : Type 0 where
  queued : ℕ → TriggerStatus
  running : TriggerStatus
  completed : CompletionResult → Option ℕ → Option String → Option Json → TriggerStatus
  failed : String → String → TriggerStatus

abbrev pub is_terminal : TriggerStatus → Bool
is_terminal (completed result code reply output) = true
is_terminal (failed reason reason_code) = true
is_terminal (queued position) = false
is_terminal running = false

abbrev pub history_cap : ℕ
history_cap = 100

pub record TriggerHub : Type 0 where
  pub records : List (String × TriggerStatus)
  pub in_flight : Dict FlowName String
  pub updates : List (String × TriggerStatus)

abbrev pub new : TriggerHub
new = record { records = []; in_flight = []; updates = [] }

-- `push_back`, and `pop_front` while there are more than the cap.
unfoldable pub push_record : String → TriggerStatus → TriggerHub → TriggerHub
push_record id status hub =
    let records = hub.records ++ (id, status) ∷ [] in
    record hub { records = drop (length records - history_cap) records }

unfoldable pub register : String → TriggerStatus → TriggerHub → TriggerHub
register id status hub = push_record id status hub

pub data Begun : Type 0 where
  begun busy : String → Begun

abbrev pub begin_at : FlowName → String → TriggerHub → Option String → TriggerHub × Begun
begin_at flow id hub (some active) = (hub, busy active)
begin_at flow id hub none =
    let pushed = push_record id running hub in
    (record pushed { in_flight = insert flow id pushed.in_flight }, begun id)

unfoldable pub try_begin : FlowName → String → TriggerHub → TriggerHub × Begun
try_begin flow id hub = begin_at flow id hub (lookup flow hub.in_flight)

-- The first record of an id.
unfoldable pub get : String → List (String × TriggerStatus) → Option TriggerStatus
get id records = lookup id records

unfoldable pub update_record :
    String → TriggerStatus → List (String × TriggerStatus) → List (String × TriggerStatus)
update_record id status [] = []
update_record id status ((known, old) ∷ records) =
    if known == id
    then (known, status) ∷ records
    else (known, old) ∷ update_record id status records

abbrev pub set_found : String → TriggerStatus → TriggerHub → Option TriggerStatus → TriggerHub
set_found id status hub none = hub
set_found id status hub (some old) = record hub {
  records = update_record id status hub.records;
  updates = hub.updates ++ (id, status) ∷ [];
}

unfoldable pub set_status : String → TriggerStatus → TriggerHub → TriggerHub
unfolding get
set_status id status hub = set_found id status hub (get id hub.records)

unfoldable pub begin : FlowName → String → TriggerHub → TriggerHub
begin flow id hub = set_status id running (record hub { in_flight = insert flow id hub.in_flight })

unfoldable pub finish : String → TriggerStatus → TriggerHub → TriggerHub
finish id status hub =
    set_status id status
      (record hub { in_flight = filter (λ entry. not (entry.1 == id)) hub.in_flight })

-- `SettleOnDrop`: a task ends by `settle` or, on every other way out, by the drop of its guard. The
-- sink is the hub itself.
pub data TaskEnd : Type 0 where
  settled : TriggerStatus → TaskEnd
  dropped : TaskEnd

unfoldable pub end_task : String → TaskEnd → TriggerHub → TriggerHub
end_task id (settled status) hub = finish id status hub
end_task id dropped hub =
    finish id
      (failed "internal: the trigger task ended without settling this trigger; report this"
        "internal")
      hub

-- One call of the hub, by anyone.
pub data Call : Type 0 where
  registers : String → TriggerStatus → Call
  tries : FlowName → String → Call
  begins : FlowName → String → Call
  sets : String → TriggerStatus → Call
  finishes : String → TriggerStatus → Call
  ends : String → TaskEnd → Call

pub call : Call → TriggerHub → TriggerHub
unfolding register try_begin begin set_status finish end_task
call (registers id status) hub = register id status hub
call (tries flow id) hub = (try_begin flow id hub).0
call (begins flow id) hub = begin flow id hub
call (sets id status) hub = set_status id status hub
call (finishes id status) hub = finish id status hub
call (ends id how) hub = end_task id how hub

pub run : List Call → TriggerHub → TriggerHub
unfolding call
run [] hub = hub
run (c ∷ cs) hub = run cs (call c hub)
