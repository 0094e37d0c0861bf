-- ===== src/Router/Create.antt =====
-- core/src/router/mod.rs: `create`, behind `create_message` and `create_kickoff`. The identifier is the
-- random one that `MessageId::generate` returns.
use core_tempo.Common.{
  is_some, ℕ, ◌+◌, String, Bool, true, false, not, ◌&&◌, List, [], ◌∷◌, Option, none, some, ◌==◌,
  string_eq, pair_eq, if◌then◌else◌, any, filter, unwrap_or,
}
use core_tempo.Common.Dict.{Dict}
use core_tempo.Common.Dict
use core_tempo.Common.KeySet
use core_tempo.Types.Ids.{AgentId, MessageId, FlowName}
use core_tempo.Types.Message.{
  MessageKind, ask, queued, Origin, agent, user, http, trigger, MessageRecord, kind_eq,
}
use core_tempo.Types.Config.{Edge, AgentConfig}
use core_tempo.Types.Event.{message_created}
use core_tempo.Store.{Store}
use core_tempo.Store
use core_tempo.Router.State.{
  Moment, Router, unknown_agent, store, Result, ok, err, publish, enqueue,
}
use core_tempo.Router.Loops.{loop_edge, update_turn, open_turn, rounds_of}
use core_tempo.Router.Sinks.{render_ask, render_send}

-- The sender has done a step of its own turn.
abbrev pub record_met : Origin → AgentId → MessageKind → Router → Router
record_met (agent sender) to kind s =
    update_turn (λ turn. record turn { met = KeySet.insert (to, kind) turn.met }) sender s
record_met user to kind s = s
record_met (http req) to kind s = s
record_met (trigger hex) to kind s = s

-- Every ask along a loop edge is a round.
abbrev pub count_round : Origin → AgentId → MessageKind → Router → Router
count_round (agent sender) to kind s =
    if kind == ask && is_some (loop_edge s sender to)
    then record s {
      loop_rounds = Dict.insert (sender, to) (rounds_of s sender to + 1) s.loop_rounds;
    }
    else s
count_round user to kind s = s
count_round (http req) to kind s = s
count_round (trigger hex) to kind s = s

abbrev pub new_record : MessageId → Moment → Origin → AgentId → MessageKind → String → MessageRecord
new_record id now from to kind body = record {
  id = id;
  kind = kind;
  from = from;
  to = to;
  body = body;
  status = queued;
  code = none;
  reply = none;
  created_at = now.stamp;
  injected_at = none;
  completed_at = none;
  reason = none;
  reason_code = none;
}

abbrev pub increment : Origin → Dict AgentId ℕ → Dict AgentId ℕ
increment (agent asker) counts =
    Dict.insert asker (unwrap_or 0 (Dict.lookup asker counts) + 1) counts
increment user counts = counts
increment (http req) counts = counts
increment (trigger hex) counts = counts

abbrev pub account : Moment → MessageRecord → Router → Router
account now rec s =
    if rec.kind == ask
    then record s {
      counts = increment rec.from s.counts;
      deadlines = Dict.insert rec.id (now.instant + s.workflow.ask_timeout) s.deadlines;
    }
    else s

unfoldable pub render : MessageRecord → Option FlowName → String
render rec flow =
    if rec.kind == ask
    then render_ask rec.id rec.from flow rec.body
    else render_send rec.id rec.from flow rec.body

abbrev pub owe : MessageRecord → Router → Router
owe rec s =
    if rec.kind == ask
    then record s {
      owed =
          Dict.insert rec.to (KeySet.insert rec.id (unwrap_or [] (Dict.lookup rec.to s.owed)))
            s.owed;
    }
    else s

abbrev pub is_downstream_of : Origin → AgentConfig → Bool
is_downstream_of (agent sender) cfg = any (λ e. e.to == sender) cfg.edges
is_downstream_of user cfg = false
is_downstream_of (http req) cfg = false
is_downstream_of (trigger hex) cfg = false

abbrev pub no_edges : List Edge → Bool
no_edges [] = true
no_edges (e ∷ es) = false

-- The target's turn opens, or is merged into, and its loops start again.
abbrev pub arm_with : MessageRecord → Option AgentConfig → Router → Router
arm_with rec none s = s
arm_with rec (some cfg) s =
    if not (no_edges cfg.edges) && not (is_downstream_of rec.from cfg)
    then record s {
      turns =
          Dict.insert rec.to
            (record (open_turn s rec.to) { nudged = false; stalled = false; capped = [] }) s.turns;
      loops_done = filter (λ x. not (x.0 == rec.to)) s.loops_done;
      loop_rounds = Dict.retain (λ x. not (x.0 == rec.to)) s.loop_rounds;
    }
    else s

abbrev pub arm : MessageRecord → Router → Router
arm rec s = arm_with rec (Dict.lookup rec.to s.workflow.agents) s

-- All that follows the insertion.
unfoldable pub admit : Router → Moment → MessageRecord → Option FlowName → Router
unfolding render
admit s now rec flow = arm rec (
    owe rec
      (enqueue (publish (account now rec s) now (message_created rec)) rec.to (render rec flow)))

abbrev pub inserted :
    Router
    → Moment
    → MessageRecord
    → Option FlowName
    → Store.Result Store
    → Router × Result MessageRecord
inserted s now rec flow (Store.err e) = (s, err (store e))
inserted s now rec flow (Store.ok st) = (admit (record s { store = st }) now rec flow, ok rec)

unfoldable pub create :
    Router
    → Moment
    → MessageId
    → Origin
    → AgentId
    → MessageKind
    → String
    → Option FlowName
    → Router × Result MessageRecord
unfolding loop_edge admit
create s now id from to kind body flow =
    if not (is_some (Dict.lookup to s.workflow.agents))
    then (s, err (unknown_agent to))
    else let rec = new_record id now from to kind body in
      let t = count_round from to kind (record_met from to kind s) in
      inserted t now rec flow (Store.insert_message t.store rec)
