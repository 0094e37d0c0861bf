-- ===== src/Router/Reply.antt =====
-- core/src/router/mod.rs: `reply`, its output-schema gate and its sink.
pub mod Once
pub mod Delivery
pub mod Budget
use core_tempo.Common.{
  ℕ, suc, ◌+◌, ◌-◌, String, Bool, true, false, not, ◌&&◌, ◌||◌, List, [], ◌∷◌, Option, none, some,
  ◌==◌, string_eq, nat_eq, option_eq, if◌then◌else◌, leb, ltb, unwrap_or,
}
use core_tempo.Common.Dict
use core_tempo.Common.KeySet
use core_tempo.Types.Ids.{AgentId, MessageId}
use core_tempo.Types.Message.{
  MessageKind, MessageStatus, ask, send, replied, Origin, agent, user, http, trigger, MessageRecord,
  is_terminal, kind_eq, status_eq,
}
use core_tempo.Types.Event.{reply_rejected, message_status_changed}
use core_tempo.Store.{Store}
use core_tempo.Store
use core_tempo.Router.State.{
  Moment, Router, RouterError, unknown_message, already_replied, not_an_ask, wrong_replier,
  invalid_code, output_schema, store, Result, ok, err, OutputContract, publish, enqueue, settle,
}
use core_tempo.Router.Loops.{rearm_loop_after_reply}
use core_tempo.Router.Sinks.{render_reply, render_rejection}

abbrev pub count_rejection : Router → MessageId → ℕ
count_rejection s id = unwrap_or 0 (Dict.lookup id s.repairs) + 1

-- A violation is sent back while the budget lasts, and counted in any case.
abbrev pub reject :
    Router
    → Moment
    → MessageRecord
    → OutputContract
    → Option (List String)
    → Router × Option RouterError
reject s now rec contract none = (s, none)
reject s now rec contract (some errors) =
    let rejections = count_rejection s rec.id in
    let counted = record s { repairs = Dict.insert rec.id rejections s.repairs } in
    let rendered = render_rejection errors (contract.max_repairs - rejections) contract.flow in
    if ltb contract.max_repairs rejections then (counted, none) else (
      publish counted now (reply_rejected rec.id rec.to rendered),
      some (output_schema rendered),
    )

abbrev pub gate_contract :
    Router
    → Moment
    → MessageRecord
    → ℕ
    → String
    → Option OutputContract
    → Router × Option RouterError
gate_contract s now rec code body none = (s, none)
gate_contract s now rec code body (some contract) =
    if not (code == 0) || not (rec.kind == ask)
    then (s, none)
    else reject s now rec contract (contract.check body)

abbrev pub gate_origin :
    Router → Moment → MessageRecord → ℕ → String → Origin → Router × Option RouterError
gate_origin s now rec code body (trigger origin) =
    gate_contract s now rec code body (Dict.lookup origin s.contracts)
gate_origin s now rec code body (agent a) = (s, none)
gate_origin s now rec code body user = (s, none)
gate_origin s now rec code body (http req) = (s, none)

unfoldable pub reject_off_schema :
    Router → Moment → MessageRecord → ℕ → String → Router × Option RouterError
reject_off_schema s now rec code body = gate_origin s now rec code body rec.from

abbrev pub fire_to : Router → MessageRecord → AgentId → ℕ → String → Origin → Router
fire_to s rec replier code body (agent asker) =
    if KeySet.member rec.id s.suppressed
    then record s { suppressed = KeySet.remove rec.id s.suppressed }
    else rearm_loop_after_reply (enqueue s asker (render_reply rec.id replier code body)) asker
        replier
fire_to s rec replier code body user = s
fire_to s rec replier code body (http req) = s
fire_to s rec replier code body (trigger origin) = s

unfoldable pub fire_reply_sink : Router → MessageRecord → AgentId → ℕ → String → Router
fire_reply_sink s rec replier code body = fire_to s rec replier code body rec.from

abbrev pub set_replied : Moment → ℕ → String → MessageRecord → MessageRecord
set_replied now code body rec = record rec {
  status = replied;
  code = some code;
  reply = some body;
  completed_at = some now.stamp;
}

abbrev pub persisted :
    Router
    → Moment
    → MessageRecord
    → AgentId
    → ℕ
    → String
    → Store.Result (Store × Bool)
    → Router × Result MessageRecord
persisted s now rec replier code body (Store.err e) = (s, err (store e))
persisted s now rec replier code body (Store.ok (st, matched)) = (
  fire_reply_sink (publish (settle (record s { store = st }) rec) now (message_status_changed rec))
      rec replier code body,
  ok rec,
)

abbrev pub accept_reply :
    Moment
    → MessageRecord
    → AgentId
    → ℕ
    → String
    → Router × Option RouterError
    → Router × Result MessageRecord
accept_reply now rec replier code body (s, some rejection) = (s, err rejection)
accept_reply now rec replier code body (s, none) =
    let updated = set_replied now code body rec in
    persisted s now updated replier code body (Store.update_message s.store updated)

-- The same code and body as the reply already given.
abbrev pub is_identical : MessageRecord → ℕ → String → Bool
is_identical rec code body =
    rec.status == replied && rec.code == some code && rec.reply == some body

abbrev pub reply_by :
    Router → Moment → MessageRecord → AgentId → ℕ → String → Router × Result MessageRecord
reply_by s now rec replier code body =
    if not (replier == rec.to)
    then (s, err (wrong_replier rec.id))
    else if is_terminal rec.status
    then (if is_identical rec code body then (s, ok rec) else (s, err (already_replied rec.id)))
    else accept_reply now rec replier code body (reject_off_schema s now rec code body)

abbrev pub reply_from :
    Router → Moment → Origin → MessageRecord → ℕ → String → Router × Result MessageRecord
reply_from s now (agent replier) rec code body = reply_by s now rec replier code body
reply_from s now user rec code body = (s, err (wrong_replier rec.id))
reply_from s now (http req) rec code body = (s, err (wrong_replier rec.id))
reply_from s now (trigger origin) rec code body = (s, err (wrong_replier rec.id))

abbrev pub reply_found :
    Router
    → Moment
    → Origin
    → MessageId
    → ℕ
    → String
    → Store.Result (Option MessageRecord)
    → Router × Result MessageRecord
reply_found s now replier id code body (Store.err e) = (s, err (store e))
reply_found s now replier id code body (Store.ok none) = (s, err (unknown_message id))
reply_found s now replier id code body (Store.ok (some rec)) =
    if rec.kind == send then (s, err (not_an_ask id)) else reply_from s now replier rec code body

-- `Router::reply`; the guard is held until the sink is fired, which takes only locks of its own.
unfoldable pub reply :
    Router → Moment → Origin → MessageId → ℕ → String → Router × Result MessageRecord
unfolding reject_off_schema fire_reply_sink
reply s now replier id code body =
    if ltb 1 code
    then (s, err (invalid_code code))
    else reply_found s now replier id code body (Store.get_message s.store id)

unfoldable pub bind_kickoff_contract : Router → String → OutputContract → Router
bind_kickoff_contract s origin contract = record s {
  contracts = Dict.insert origin contract s.contracts;
}

unfoldable pub unbind_kickoff_contract : Router → String → Router
unbind_kickoff_contract s origin = record s { contracts = Dict.remove origin s.contracts }
