-- ===== src/Router/Steps.antt =====
-- core/src/router/mod.rs and ttl.rs: everything that can happen to a router, as one step relation. The
-- environment chooses the call, its arguments, the moment and what the terminal side reports.
use core_tempo.Common.{ℕ, String, Option, List}
use core_tempo.Types.Ids.{AgentId, MessageId, FlowName}
use core_tempo.Types.Message.{MessageKind, Origin}
use core_tempo.Router.State.{Moment, Router, OutputContract}
use core_tempo.Router.Loops.{mark_loop_done}
use core_tempo.Router.Reply.{reply, bind_kickoff_contract, unbind_kickoff_contract}
use core_tempo.Router.Create.{create}
use core_tempo.Router.Gate.{StateSource, on_stable_idle}
use core_tempo.Router.Watchdog.{sweep, on_agent_restarted}
use core_tempo.Router.Drive.{Driver, Signal, drive}

pub data Call : Type 0 where
  creates : MessageId → Origin → AgentId → MessageKind → String → Option FlowName → Call
  replies : Origin → MessageId → ℕ → String → Call
  drives : Driver → Signal → Call
  sweeps : StateSource → Call
  restarts : AgentId → Call
  rests : StateSource → AgentId → Call
  ends_loop : AgentId → AgentId → Call
  binds : String → OutputContract → Call
  unbinds : String → Call

unfoldable pub step : Router → Moment × Call → Router
step s (now, creates id from to kind body flow) = (create s now id from to kind body flow).0
step s (now, replies from id code body) = (reply s now from id code body).0
step s (now, drives d signal) = (drive s now d signal).0
step s (now, sweeps obs) = sweep s obs now
step s (now, restarts a) = on_agent_restarted s now a
step s (now, rests obs a) = (on_stable_idle s obs now a).0
step s (now, ends_loop owner target) = (mark_loop_done s owner target).0
step s (now, binds origin contract) = bind_kickoff_contract s origin contract
step s (now, unbinds origin) = unbind_kickoff_contract s origin

unfoldable pub run : Router → List (Moment × Call) → Router
run s List.[] = s
run s (List.◌∷◌ c cs) = run (step s c) cs
