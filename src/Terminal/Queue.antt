-- ===== src/Terminal/Queue.antt =====
-- core/src/pty/queue.rs: `QueueWorker`, the one writer of text into an agent's terminal, as a state machine
-- over what its task awaits. The environment sends commands, moves the three watched values, and chooses
-- which ready branch of a `select!` the task takes; between two awaits a step is whole. The gate's
-- answer comes with the step that asks for it. The channels stay open while the worker runs.
pub mod Order
pub mod Answers
pub mod Dialogs
pub mod Silence
pub mod Whole
use core_tempo.Common.{
  ℕ, suc, ◌+◌, ◌-◌, String, Bool, true, false, not, ◌&&◌, ◌||◌, List, [], ◌∷◌, ◌++◌, Option, none,
  some, is_some, ◌==◌, if◌then◌else◌, leb, ltb,
}
use core_tempo.Types.Ids.{AgentId}
use core_tempo.Types.Config.{AgentState, starting, idle, working, exited, restarting, state_eq}
use core_tempo.Router.State.{InjectError, agent_exited, blocked_for, agent_restarted}
use core_tempo.Router.Gate.{Blocked, IdleDecision, allow_clear, nudge, hold_quiet}

abbrev pub max_enter_resends : ℕ
max_enter_resends = 2

abbrev pub blocked_grace : ℕ
blocked_grace = 90000

-- An injection, with the number of the channel that its answer goes to.
pub data QueueCmd : Type 0 where
  inject : ℕ → String → QueueCmd
  reconsider : QueueCmd

pub data GateEntry : Type 0 where
  transition poke : GateEntry

-- Who handles an injection: the loop, or the drain on a transition.
pub data Caller : Type 0 where
  from_loop from_drain : Caller

-- What the task awaits: the `select!` of its loop; in `wait_debounced_idle`; the delay before Enter, of an
-- injection and of a nudge; the confirmation of a submit, before the given resend; or the settling after
-- an unblock.
pub data Phase : Type 0 where
  selecting : Phase
  parked : ℕ → String → Caller → Phase
  typed : ℕ → Caller → Phase
  nudge_typed : Phase
  confirming : ℕ → Caller → Phase
  settling : Phase

pub data Ack : Type 0 where
  injected : Ack
  failed : InjectError → Ack

-- Each watched value has a flag for a change not seen yet. `written` and `acks` are what was sent, in order.
pub record QueueWorker : Type 0 where
  pub agent : AgentId
  pub cmds : List QueueCmd
  pub debounced : AgentState
  pub state_unseen : Bool
  pub epoch_unseen : Bool
  pub blocked : Option Blocked
  pub blocked_unseen : Bool
  pub writer_open : Bool
  pub auto_clear : Bool
  pub prev : AgentState
  pub depth : ℕ
  pub served_inject_since_idle : Bool
  pub phase : Phase
  pub written : List String
  pub acks : List (ℕ × Ack)

abbrev pub at_phase : Phase → QueueWorker → QueueWorker
at_phase p w = record w { phase = p }

abbrev pub write : String → QueueWorker → QueueWorker
write text w = record w { written = w.written ++ text ∷ [] }

-- `depth` goes down before the channel is answered.
abbrev pub resolve : ℕ → Ack → QueueWorker → QueueWorker
resolve ticket ack w = record w { depth = w.depth - 1; acks = w.acks ++ (ticket, ack) ∷ [] }

unfoldable pub fail_each : InjectError → List QueueCmd → QueueWorker → QueueWorker
fail_each e [] w = record w { cmds = [] }
fail_each e (inject ticket text ∷ cmds) w = fail_each e cmds (resolve ticket (failed e) w)
fail_each e (reconsider ∷ cmds) w = fail_each e cmds w

abbrev pub fail_queued : InjectError → QueueWorker → QueueWorker
fail_queued e w = fail_each e w.cmds w

-- What became of an injection when its task next awaits: it is on its way, it failed with all that was
-- queued, or its text could not be written.
pub data Progress : Type 0 where
  under_way failed_all unwritten : Progress

abbrev pub fail_inject : ℕ → InjectError → QueueWorker → QueueWorker × Progress
fail_inject ticket e w =
    (at_phase selecting (fail_queued e (resolve ticket (failed e) w)), failed_all)

abbrev pub park : ℕ → String → Caller → QueueWorker → QueueWorker × Progress
park ticket text k w =
    (record w { blocked_unseen = false; phase = parked ticket text k }, under_way)

abbrev pub type_text : ℕ → String → Caller → QueueWorker → QueueWorker × Progress
type_text ticket text k w =
    if w.writer_open
    then (at_phase (typed ticket k) (write text w), under_way)
    else (at_phase selecting (resolve ticket (failed (agent_exited w.agent)) w), unwritten)

abbrev pub wait_unblocked :
    ℕ → ℕ → String → Caller → QueueWorker → Option Blocked → QueueWorker × Progress
wait_unblocked now ticket text k w none =
    if w.debounced == idle then type_text ticket text k w else park ticket text k w
wait_unblocked now ticket text k w (some dialog) =
    if leb blocked_grace (now - dialog.since)
    then fail_inject ticket (blocked_for w.agent dialog.tool (now - dialog.since)) w
    else park ticket text k w

-- One turn of the loop in `wait_debounced_idle`, and the write that follows it.
unfoldable pub wait_debounced_idle : ℕ → ℕ → String → Caller → QueueWorker → QueueWorker × Progress
unfolding fail_each
wait_debounced_idle now ticket text k w =
    let seen = record w { prev = w.debounced; state_unseen = false } in
    if w.debounced == exited
    then fail_inject ticket (agent_exited w.agent) seen
    else if w.debounced == restarting
    then fail_inject ticket (agent_restarted w.agent) seen
    else wait_unblocked now ticket text k seen w.blocked

-- The loop of `drain_then_consult` from the first injection on: what is handled ends it or goes on.
unfoldable pub drain : ℕ → List QueueCmd → QueueWorker → QueueWorker
unfolding wait_debounced_idle
drain now [] w = record w { phase = selecting; cmds = [] }
drain now (reconsider ∷ cmds) w = drain now cmds w
drain now (inject ticket text ∷ cmds) w =
    let handled = wait_debounced_idle now ticket text from_drain (record w { cmds = cmds }) in
    let rest = drain now cmds handled.0 in
    elim handled.1 [ under_way ↦ handled.0 | failed_all ↦ handled.0 | unwritten ↦ rest ]

abbrev pub resume : ℕ → Caller → QueueWorker → QueueWorker
resume now from_loop w = at_phase selecting w
resume now from_drain w = drain now w.cmds w

abbrev pub resume_after : ℕ → Caller → QueueWorker × Progress → QueueWorker
resume_after now k (w, under_way) = w
resume_after now k (w, failed_all) = w
resume_after now k (w, unwritten) = resume now k w

abbrev pub handle_inject : ℕ → ℕ → String → Caller → QueueWorker → QueueWorker
handle_inject now ticket text k w = resume_after now k (wait_debounced_idle now ticket text k w)

abbrev pub act_on : GateEntry → IdleDecision → QueueWorker → QueueWorker
act_on entry (nudge text) w = if w.writer_open then at_phase nudge_typed (write text w) else w
act_on transition allow_clear w = if w.auto_clear && w.writer_open then write "/clear\r" w else w
act_on poke allow_clear w = w
act_on entry hold_quiet w = w

abbrev pub is_poke : GateEntry → Bool
is_poke transition = false
is_poke poke = true

-- `none`: no gate is wired.
unfoldable pub consult_gate : GateEntry → Option IdleDecision → QueueWorker → QueueWorker
consult_gate entry none w = w
consult_gate entry (some decision) w =
    if not (w.debounced == idle)
    then w
    else if is_some w.blocked
    then w
    else if is_poke entry && w.served_inject_since_idle
    then w
    else act_on entry decision w

abbrev pub has_injection : List QueueCmd → Bool
has_injection [] = false
has_injection (reconsider ∷ cmds) = has_injection cmds
has_injection (inject ticket text ∷ cmds) = true

unfoldable pub drain_then_consult : ℕ → GateEntry → Option IdleDecision → QueueWorker → QueueWorker
unfolding drain consult_gate
drain_then_consult now entry gate w =
    if has_injection w.cmds
    then drain now w.cmds w
    else consult_gate entry gate (record w { cmds = []; phase = selecting })

-- `press_enter` at the end of the delay.
abbrev pub press_past : ℕ → QueueWorker → Option Blocked → Option InjectError
press_past now w (some dialog) = some (blocked_for w.agent dialog.tool (now - dialog.since))
press_past now w none = if w.writer_open then none else some (agent_exited w.agent)

abbrev pub press_enter : ℕ → QueueWorker → Option InjectError
press_enter now w = press_past now w w.blocked

abbrev pub submit : ℕ → Caller → Option InjectError → QueueWorker → QueueWorker
submit ticket k (some e) w = at_phase selecting (fail_queued e (resolve ticket (failed e) w))
submit ticket k none w =
    at_phase (confirming 1 k)
      (record (resolve ticket injected (write "\r" w)) { served_inject_since_idle = true })

abbrev pub submit_nudge : Option InjectError → QueueWorker → QueueWorker
submit_nudge (some e) w = at_phase selecting w
submit_nudge none w = at_phase (confirming 1 from_loop) (write "\r" w)

abbrev pub resend : ℕ → ℕ → Caller → QueueWorker → QueueWorker
resend now n k w =
    if ltb max_enter_resends n || not w.writer_open
    then resume now k w
    else at_phase (confirming (n + 1) k) (write "\r" w)

pub data Event : Type 0 where
  arrives : QueueCmd → Event
  state_changes : AgentState → Event
  epoch_changes : Event
  blocked_changes : Option Blocked → Event
  pty_goes : Event
  takes_command : Option IdleDecision → Event
  sees_state : Option IdleDecision → Event
  sees_epoch : Event
  sees_blocked : Event
  elapses : Option IdleDecision → Event

abbrev pub take_command : ℕ → Option IdleDecision → QueueWorker → List QueueCmd → QueueWorker
take_command now gate w [] = w
take_command now gate w (inject ticket text ∷ cmds) =
    handle_inject now ticket text from_loop (record w { cmds = cmds })
take_command now gate w (reconsider ∷ cmds) = consult_gate poke gate (record w { cmds = cmds })

-- The branch of the loop for a change of state, by the state before and the state now.
abbrev pub react : ℕ → Option IdleDecision → AgentState → AgentState → QueueWorker → QueueWorker
react now gate working idle w = drain_then_consult now transition gate w
react now gate was exited w = fail_queued (agent_exited w.agent) w
react now gate was restarting w = fail_queued (agent_restarted w.agent) w
react now gate was state w = w

abbrev pub see_state : ℕ → Option IdleDecision → QueueWorker → Phase → QueueWorker
see_state now gate w selecting =
    react now gate w.prev w.debounced
      (record w { prev = w.debounced; served_inject_since_idle = false; state_unseen = false })
see_state now gate w (parked ticket text k) =
    handle_inject now ticket text k
      (record w { served_inject_since_idle = false; state_unseen = false })
see_state now gate w (confirming n k) = resume now k w
see_state now gate w phase = w

abbrev pub see_epoch : ℕ → QueueWorker → Phase → QueueWorker
see_epoch now w selecting =
    fail_queued (agent_restarted w.agent) (record w { epoch_unseen = false })
see_epoch now w (parked ticket text k) =
    (fail_inject ticket (agent_restarted w.agent) (record w { epoch_unseen = false })).0
see_epoch now w (confirming n k) = resume now k w
see_epoch now w phase = w

abbrev pub see_blocked : ℕ → QueueWorker → Phase → QueueWorker
see_blocked now w selecting = record w {
  blocked_unseen = false;
  phase = if is_some w.blocked then selecting else settling;
}
see_blocked now w (parked ticket text k) =
    handle_inject now ticket text k (record w { blocked_unseen = false })
see_blocked now w (confirming n k) = resume now k w
see_blocked now w phase = w

abbrev pub elapse : ℕ → Option IdleDecision → QueueWorker → Phase → QueueWorker
elapse now gate w selecting = w
elapse now gate w (parked ticket text k) = handle_inject now ticket text k w
elapse now gate w (typed ticket k) = submit ticket k (press_enter now w) w
elapse now gate w nudge_typed = submit_nudge (press_enter now w) w
elapse now gate w (confirming n k) = resend now n k w
elapse now gate w settling =
    if w.state_unseen then at_phase selecting w else drain_then_consult now poke gate w

abbrev pub take_when_selecting : ℕ → Option IdleDecision → QueueWorker → Phase → QueueWorker
take_when_selecting now gate w selecting = take_command now gate w w.cmds
take_when_selecting now gate w phase = w

abbrev pub enqueue : QueueCmd → QueueWorker → QueueWorker
enqueue (inject ticket text) w = record w {
  depth = w.depth + 1;
  cmds = w.cmds ++ inject ticket text ∷ [];
}
enqueue reconsider w = record w { cmds = w.cmds ++ reconsider ∷ [] }

unfoldable pub step : QueueWorker → ℕ × Event → QueueWorker
unfolding drain_then_consult
step w (now, arrives cmd) = enqueue cmd w
step w (now, state_changes s) = record w { debounced = s; state_unseen = true }
step w (now, epoch_changes) = record w { epoch_unseen = true }
step w (now, blocked_changes b) = record w { blocked = b; blocked_unseen = true }
step w (now, pty_goes) = record w { writer_open = false }
step w (now, takes_command gate) = take_when_selecting now gate w w.phase
step w (now, sees_state gate) = if w.state_unseen then see_state now gate w w.phase else w
step w (now, sees_epoch) = if w.epoch_unseen then see_epoch now w w.phase else w
step w (now, sees_blocked) = if w.blocked_unseen then see_blocked now w w.phase else w
step w (now, elapses gate) = elapse now gate w w.phase

unfoldable pub run : QueueWorker → List (ℕ × Event) → QueueWorker
unfolding step
run w [] = w
run w (event ∷ events) = run (step w event) events
