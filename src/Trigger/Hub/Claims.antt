-- ===== src/Trigger/Hub/Claims.antt =====
-- core/src/trigger.rs: a claimed flow stays claimed until its trigger ends.
use core_tempo.Common.{
  String, ◌≡◌, ◌≢◌, refl, not, List, [], ◌∷◌, Option, none, some, arith, ◌==◌, ==_iff, string_eq,
  filter,
}
use core_tempo.Common.Dict.{Dict, lookup, insert, lookup-insert}
use core_tempo.Types.Ids.{FlowName}
use core_tempo.Trigger.Hub.{
  TriggerStatus, TriggerHub, begun, busy, begin_at, try_begin, push_record, get, set_found,
  set_status, begin, finish, register, TaskEnd, settled, dropped, end_task, Call, registers, tries,
  begins, sets, finishes, ends, call, run,
}

set_found-in_flight :
    (id : String) (status : TriggerStatus) (hub : TriggerHub) (found : Option TriggerStatus)
    → (set_found id status hub found).in_flight ≡ hub.in_flight
set_found-in_flight id status hub none = refl
set_found-in_flight id status hub (some old) = refl

set_status-in_flight :
    (id : String) (status : TriggerStatus) (hub : TriggerHub)
    → (set_status id status hub).in_flight ≡ hub.in_flight
unfolding set_status
set_status-in_flight id status hub = set_found-in_flight id status hub (get id hub.records)

-- An entry that the filter keeps is still found.
lookup-filter :
    (flow : FlowName) (id other : String) (d : Dict FlowName String)
    → lookup flow d ≡ some id
    → id ≢ other
    → lookup flow (filter (λ entry. not (entry.1 == other)) d) ≡ some id
unfolding lookup
lookup-filter flow id other [] h n = cc
lookup-filter flow id other ((f, i) ∷ d) h n =
    ground (arith, ==_iff i other, lookup-filter flow id other d)

lookup_filtered :
    (flow : FlowName) (id : String) (d : Dict FlowName String)
    → lookup flow (filter (λ entry. not (entry.1 == id)) d) ≢ some id
unfolding lookup
lookup_filtered flow id [] h = cc
lookup_filtered flow id ((f, i) ∷ d) h = ground (arith, ==_iff i id, lookup_filtered flow id d)

-- A call that does not end trigger `id`, nor begin another one in `flow` without asking.
abbrev pub LeavesClaim : FlowName → String → Call → Type 0
LeavesClaim flow id (registers i status) = Unit {0}
LeavesClaim flow id (tries f i) = Unit {0}
LeavesClaim flow id (begins f i) = f ≢ flow
LeavesClaim flow id (sets i status) = Unit {0}
LeavesClaim flow id (finishes i status) = id ≢ i
LeavesClaim flow id (ends i how) = id ≢ i

abbrev pub LeaveClaim : FlowName → String → List Call → Type 0
LeaveClaim flow id [] = Unit {0}
LeaveClaim flow id (c ∷ cs) = LeavesClaim flow id c × LeaveClaim flow id cs

module _ (flow : FlowName) (id : String) where
  abbrev Claimed : TriggerHub → Type 0
  Claimed hub = lookup flow hub.in_flight ≡ some id

  begin_at-Claimed :
      (f : FlowName) (i : String) (hub : TriggerHub) (found : Option String)
      → lookup f hub.in_flight ≡ found
      → Claimed hub
      → Claimed (begin_at f i hub found).0
  unfolding push_record
  begin_at-Claimed f i hub (some active) e h = h
  begin_at-Claimed f i hub none e h =
      ground (arith, lookup-insert f flow i hub.in_flight, ==_iff f flow)

  finish-Claimed :
      (i : String) (status : TriggerStatus) (hub : TriggerHub)
      → id ≢ i
      → Claimed hub
      → Claimed (finish i status hub)
  unfolding finish
  finish-Claimed i status hub n h =
      rw
        (set_status-in_flight i status
          (record hub { in_flight = filter (λ entry. not (entry.1 == i)) hub.in_flight }))
        (lookup-filter flow id i hub.in_flight h n)

  call-Claimed :
      (c : Call) (hub : TriggerHub) → LeavesClaim flow id c → Claimed hub → Claimed (call c hub)
  unfolding call register push_record try_begin begin end_task
  call-Claimed (registers i status) hub k h = h
  call-Claimed (tries f i) hub k h = begin_at-Claimed f i hub (lookup f hub.in_flight) refl h
  call-Claimed (begins f i) hub k h =
      rw
        (set_status-in_flight i TriggerStatus.running
          (record hub { in_flight = insert f i hub.in_flight }))
        (ground (arith, lookup-insert f flow i hub.in_flight, ==_iff f flow))
  call-Claimed (sets i status) hub k h = rw (set_status-in_flight i status hub) h
  call-Claimed (finishes i status) hub k h = finish-Claimed i status hub k h
  call-Claimed (ends i (settled status)) hub k h = finish-Claimed i status hub k h
  call-Claimed (ends i dropped) hub k h = finish-Claimed i _ hub k h

  run-Claimed :
      (cs : List Call) (hub : TriggerHub)
      → LeaveClaim flow id cs
      → Claimed hub
      → Claimed (run cs hub)
  unfolding run
  run-Claimed [] hub k h = h
  run-Claimed (c ∷ cs) hub k h = run-Claimed cs (call c hub) k.1 (call-Claimed c hub k.0 h)

  begun-Claimed :
      (hub : TriggerHub) (i : String) (found : Option String)
      → (begin_at flow i hub found).1 ≡ begun id
      → Claimed (begin_at flow i hub found).0
  unfolding push_record
  begun-Claimed hub i (some active) h = cc
  begun-Claimed hub i none h =
      ground (arith, lookup-insert flow flow i hub.in_flight, ==_iff flow flow)

-- A flow that a trigger has claimed refuses every other trigger, and names the one that runs, whatever
-- calls follow, until that trigger ends or serve mode begins one in the flow itself.
pub claim_held :
    (flow : FlowName) (id next : String) (hub : TriggerHub) (calls : List Call)
    → (try_begin flow id hub).1 ≡ begun id
    → LeaveClaim flow id calls
    → try_begin flow next (run calls (try_begin flow id hub).0)
      ≡ (run calls (try_begin flow id hub).0, busy id)
unfolding try_begin
claim_held flow id next hub calls h leave = rw (
    run-Claimed flow id calls (begin_at flow id hub (lookup flow hub.in_flight)).0 leave
      (begun-Claimed flow id hub id (lookup flow hub.in_flight) h))

-- However its task ends, a trigger holds no flow afterwards.
pub end_task_releases :
    (id : String) (how : TaskEnd) (hub : TriggerHub) (flow : FlowName)
    → lookup flow (end_task id how hub).in_flight ≢ some id
unfolding end_task finish
end_task_releases id (settled status) hub flow h =
    lookup_filtered flow id hub.in_flight (rw (set_status-in_flight id status _) at h)
end_task_releases id dropped hub flow h =
    lookup_filtered flow id hub.in_flight (rw (set_status-in_flight id _ _) at h)
