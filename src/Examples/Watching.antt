-- ===== src/Examples/Watching.antt =====
-- The theorems on the gate, the sweeper, restarts and contracts, at small runs.
use core_tempo.Common.{
  ◌≡◌, ◌≢◌, refl, true, false, List, [], ◌∷◌, none, some, find, count, all, string_eq, nat_eq,
  arith,
}
use core_tempo.Common.Dict.{Dict}
use core_tempo.Common.Dict
use core_tempo.Types.Ids.{MessageId}
use core_tempo.Types.Message.{agent}
use core_tempo.Bus
use core_tempo.Router.Sinks.{render_reply_nudge}
use core_tempo.Common.{suc}
use core_tempo.Store.{Row, Run, Store, has_id, reconcile_orphans, is_orphan}
use core_tempo.Store
use core_tempo.Store.Rows.{test}
use core_tempo.Router.State.{
  Moment, Router, Result, ok, err, already_replied, OutputContract, timeout, restarted,
  backoff_after, transition, settle, fail_message,
}
use core_tempo.Router.State
use core_tempo.Router.Create.{create}
use core_tempo.Router.Reply.{reply}
use core_tempo.Router.Reply.Budget.{reply_after_repairs, attempt_all, is_rejection, is_ok}
use core_tempo.Router.Gate.{on_stable_idle, hold_quiet, owed_of, sort, owed_reply_decision}
use core_tempo.Router.Gate.Safety.{clear_is_safe, unmet_of}
use core_tempo.Router.Gate.Reminders.{reminders_spaced, rounds}
use core_tempo.Common.{==_iff, String}
use core_tempo.Router.Gate.Rounds.{Rest, rest_all}
use core_tempo.Router.Watchdog.{sweep, on_agent_restarted}
use core_tempo.Router.Watchdog.Deadlines.{sweep_times_out, failed_row}
use core_tempo.Router.Watchdog.Restarts.{restart_fails_pending}
use core_tempo.Router.Steps.{Call, step, run}
use core_tempo.Router.Accounts.{Accounts, asked_by, owed_by}
use core_tempo.Router.Accounts.Opened.{opened_run-Accounts, peers_of}
use core_tempo.Router.Accounts.Run.{NamesOwn}
use core_tempo.Common.{All}
use core_tempo.Examples.{
  workflow, at_time, database, silent, asked_row, asked, opened, one_ask, queued_row, one_send,
  contract, kicked_row, kicked,
}

opened-Accounts :
    (cs : List (Moment × Call))
    → All (NamesOwn (peers_of (reconcile_orphans database "2026-01-01T00:00:00Z"))) cs
    → Accounts (peers_of (reconcile_orphans database "2026-01-01T00:00:00Z")) (opened cs)
opened-Accounts cs own =
    opened_run-Accounts database Bus.new workflow "2026-01-01T00:00:00Z" cs (refl, tt) refl own

sweep_times_out_example :
    find (has_id "msg_1") (sweep (opened one_ask) silent (at_time 70000)).store.rows
    ≡ some (failed_row (at_time 70000) (timeout "msg_1" 60000) queued_row)
unfolding State.new Dict.lookup run step create Store.insert_message reconcile_orphans Dict.insert
sweep_times_out_example =
    sweep_times_out (opened one_ask) silent (at_time 70000) "msg_1" 60010 queued_row
      (opened-Accounts one_ask (tt, tt)) refl refl refl refl refl

clear_is_safe_example :
    (count (asked_by "run_1" "critic") (opened one_send).store.rows ≡ 0)
    × ((id : MessageId)
        → test (owed_by "run_1" "critic") (find (has_id id) (opened one_send).store.rows) ≡ false)
    × (silent.blocked_since "critic" ≡ none)
    × (unmet_of
          (opened one_send)
          "critic"
          (Dict.lookup "critic" (opened one_send).workflow.agents)
          (Dict.lookup "critic" (opened one_send).turns)
        ≡ [])
unfolding State.new Dict.lookup run step create Store.insert_message reconcile_orphans
    on_stable_idle owed_reply_decision Dict.insert
clear_is_safe_example =
    clear_is_safe (opened one_send) (opened one_send) silent (at_time 90) "critic"
      (opened-Accounts one_send (tt, tt)) refl

owes : owed_of asked "critic" ≢ []
unfolding State.new Dict.lookup
owes e = ground (arith, e)

others : ◌≡◌ {A = String} "writer" "critic" → ⊥
others same = absurd (ground (arith, ==_iff {A = String} "writer" "critic", same))

-- The critic rests again, and then the writer.
abbrev two_rests : List Rest
two_rests =
    record { moment = at_time 25000; obs = silent; agent = "critic" }
    ∷ record { moment = at_time 90000; obs = silent; agent = "writer" }
    ∷ []

reminders_spaced_example :
    (rounds
        (Dict.lookup "critic" (on_stable_idle asked silent (at_time 20000) "critic").0.owed_nudges)
      ≡ suc (rounds (Dict.lookup "critic" asked.owed_nudges)))
    × ((on_stable_idle
          (rest_all (on_stable_idle asked silent (at_time 20000) "critic").0 two_rests)
          silent
          (at_time 30000)
          "critic").1
        ≡ hold_quiet)
unfolding State.new Dict.lookup on_stable_idle owed_reply_decision sort backoff_after Dict.insert
reminders_spaced_example =
    reminders_spaced asked (on_stable_idle asked silent (at_time 20000) "critic").0 silent silent
      (at_time 20000) (at_time 30000) "critic" (render_reply_nudge ("msg_1" ∷ []) 1) two_rests owes
      refl ((λ own. omega arith), ((λ own. absurd (others own)), tt)) (omega arith)

restart_fails_pending_example :
    find (has_id "msg_1") (on_agent_restarted asked (at_time 30) "critic").store.rows
    ≡ some (failed_row (at_time 30) (restarted "critic") asked_row)
unfolding State.new
restart_fails_pending_example =
    restart_fails_pending asked (at_time 30) "critic" "msg_1" asked_row (refl, tt) refl refl refl
      refl refl refl

reply_after_repairs_example :
    (all is_rejection (attempt_all kicked "critic" "msg_2" ((at_time 30, "no") ∷ [])).1 ≡ true)
    × (is_ok
          (reply
            (attempt_all kicked "critic" "msg_2" ((at_time 30, "no") ∷ [])).0
            (at_time 40)
            (agent "critic")
            "msg_2"
            0
            "still no").1
        ≡ true)
unfolding State.new Dict.lookup
reply_after_repairs_example =
    reply_after_repairs kicked "msg_2" kicked_row contract ((at_time 30, "no") ∷ []) (at_time 40)
      "still no"
      (record {
        found = refl;
        payload = refl;
        is_ask = refl;
        unended = refl;
        bound = refl;
        rejections = refl;
      })
      ((λ e. ground (arith, e)), tt) refl
