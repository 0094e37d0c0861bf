-- ===== src/Examples/Routing.antt =====
-- The theorems on messages and replies, at small runs.
use core_tempo.Common.{
  ℕ, ◌-◌, ◌≡◌, ◌≢◌, refl, Bool, true, List, [], ◌∷◌, ◌++◌, Option, none, some, String, find, count,
  length, all, drop, ◌==◌, string_eq, nat_eq, ◌&&◌, if◌then◌else◌, arith,
}
use core_tempo.Common.KeySet
use core_tempo.Types.Message.{
  MessageRecord, MessageKind, ask, send, queued, injected, replied, MessageStatus, Origin, agent,
  user, trigger,
}
use core_tempo.Types.Message
use core_tempo.Common
use core_tempo.Bus
use core_tempo.Common.{ltb}
use core_tempo.Types.Message.{parse_origin, origin_text, parse_status, status_as_str}
use core_tempo.Common.{leb, suc}
use core_tempo.Store.{Row, Run, Store, has_id, reconcile_orphans}
use core_tempo.Store
use core_tempo.Router.State.{
  Moment, Router, Result, ok, err, already_replied, OutputContract, timeout, restarted,
  backoff_after, transition, settle, fail_message,
}
use core_tempo.Router.State
use core_tempo.Router.Sinks.{render_reply}
use core_tempo.Router.Reply.{reply, reject_off_schema, fire_reply_sink}
use core_tempo.Router.Reply.Once.{reply_again}
use core_tempo.Router.Reply.Delivery.{reply_delivers}
use core_tempo.Router.Gate.{pending_asks}
use core_tempo.Router.Steps.{sweeps, run}
use core_tempo.Router.Accounts.{Accounts}
use core_tempo.Router.Accounts.Opened.{opened_run-Accounts, peers_of}
use core_tempo.Router.History.Run.{run-Advances, run_ended, IsAdvanced}
use core_tempo.Examples.{
  workflow, at_time, message, left_row, stopped_run, silent, calls, asked_row, asked, answer,
}

-- The same database, with a message of a run that is still live.
abbrev peer_row : Row
peer_row = record { message = message "msg_9" user "writer" injected; run_id = some "run_9" }

abbrev shared_database : Store
shared_database = record {
  run_id = "run_1";
  rows = left_row ∷ peer_row ∷ [];
  runs = stopped_run ∷ record stopped_run { run_id = "run_9"; stopped_at = none } ∷ [];
}

opened_run-Accounts_example :
    Accounts (peers_of (reconcile_orphans shared_database "2026-01-01T00:00:00Z")) (
      run
        (State.new (reconcile_orphans shared_database "2026-01-01T00:00:00Z") Bus.new workflow)
        calls)
unfolding reconcile_orphans
opened_run-Accounts_example =
    opened_run-Accounts shared_database Bus.new workflow "2026-01-01T00:00:00Z" calls
      (refl, (refl, tt)) refl (tt, (refl, (refl, (tt, tt))))

peer_is_live : peers_of (reconcile_orphans shared_database "2026-01-01T00:00:00Z") "msg_9" ≡ true
unfolding reconcile_orphans
peer_is_live = refl

reply_delivers_example :
    ((reply asked (at_time 30) (agent "critic") "msg_1" 0 "fine").1 ≡ ok answer)
    × (find
          (has_id "msg_1")
          (reply asked (at_time 30) (agent "critic") "msg_1" 0 "fine").0.store.rows
        ≡ some (record asked_row { message = answer }))
    × (pending_asks (reply asked (at_time 30) (agent "critic") "msg_1" 0 "fine").0 "writer"
        ≡ pending_asks asked "writer" - 1)
    × ((reply asked (at_time 30) (agent "critic") "msg_1" 0 "fine").0.enqueued
        ≡ ("writer", render_reply "msg_1" "critic" 0 "fine") ∷ [])
unfolding State.new KeySet.member
reply_delivers_example =
    reply_delivers asked (at_time 30) "msg_1" asked_row "writer" 0 "fine"
      (record { found = refl; payload = refl; checked = refl; unended = refl }) refl refl refl

reply_again_example :
    reply
      (run
        (reply asked (at_time 30) (agent "critic") "msg_1" 0 "fine").0
        ((at_time 40, sweeps silent) ∷ []))
      (at_time 50)
      (agent "critic")
      "msg_1"
      0
      "better"
    ≡ (
      run
          (reply asked (at_time 30) (agent "critic") "msg_1" 0 "fine").0
          ((at_time 40, sweeps silent) ∷ []),
      err (already_replied "msg_1"),
    )
unfolding reply reject_off_schema fire_reply_sink State.new Store.get_message Store.to_record
    Message.parse_kind Message.kind_as_str Message.parse_status Message.status_as_str
    Message.parse_origin Message.origin_text Message.nonempty_after Common.strip_prefix
    Store.update_message
reply_again_example =
    reply_again asked (reply asked (at_time 30) (agent "critic") "msg_1" 0 "fine").0 (at_time 30)
      (at_time 50) "critic" "msg_1" 0 0 "fine" "better" answer ((at_time 40, sweeps silent) ∷ [])
      refl refl refl

run-Advances_example : IsAdvanced "msg_1" asked_row (run asked calls).store.rows
unfolding State.new
run-Advances_example = run-Advances asked calls "msg_1" asked_row refl

run_ended_example :
    find
      (has_id "msg_1")
      (run
        (record asked {
          store = record {
            run_id = "run_1";
            rows = record asked_row { message = answer } ∷ [];
            runs = [];
          };
        })
        calls).store.rows
    ≡ some (record asked_row { message = answer })
run_ended_example =
    run_ended
      (record asked {
        store = record {
          run_id = "run_1";
          rows = record asked_row { message = answer } ∷ [];
          runs = [];
        };
      })
      calls "msg_1" (record asked_row { message = answer }) refl refl
