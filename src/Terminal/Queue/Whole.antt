-- ===== src/Terminal/Queue/Whole.antt =====
-- core/src/pty/queue.rs: a whole run of the worker keeps the line of injections.
use core_tempo.Common.{
  ℕ, ◌≡◌, refl, ap, sym, ◌∙◌, Bool, true, false, List, [], ◌∷◌, ◌++◌, Option, none, is_some, length,
  length-append, inl, inr, Bool-cases,
}
use core_tempo.Types.Ids.{AgentId}
use core_tempo.Types.Config.{AgentState, state_eq}
use core_tempo.Router.State.{agent_restarted}
use core_tempo.Router.Gate.{IdleDecision}
use core_tempo.Terminal.Queue.{
  QueueCmd, inject, reconsider, poke, Phase, selecting, parked, typed, nudge_typed, confirming,
  settling, QueueWorker, press_enter, Event, arrives, state_changes, epoch_changes, blocked_changes,
  pty_goes, takes_command, sees_state, sees_epoch, sees_blocked, elapses, see_state, see_epoch,
  see_blocked, elapse, take_when_selecting, enqueue, step, run,
}
use core_tempo.Terminal.Queue.Order.{
  tickets, in_hand, answered, IsLine, InOrder, fail_inject-InOrder,
}
use core_tempo.Terminal.Queue.Answers.{
  resume-InOrder, handle_inject-InOrder, drain_then_consult-InOrder, fail_queued-InOrder,
  submit-InOrder, submit_nudge-InOrder, resend-InOrder, take_command-InOrder, react-InOrder,
}

-- Nothing in hand: the line is what is queued.
free_of :
    (w : QueueWorker) (p : Phase) (arrived : List ℕ)
    → w.phase ≡ p
    → InOrder w arrived
    → IsLine w.acks w.depth (in_hand p ++ tickets w.cmds) arrived
free_of w p arrived here l = rw⁻¹ here l

see_state-InOrder :
    (now : ℕ) (gate : Option IdleDecision) (w : QueueWorker) (p : Phase) (arrived : List ℕ)
    → w.phase ≡ p
    → InOrder w arrived
    → InOrder (see_state now gate w p) arrived
see_state-InOrder now gate w selecting arrived here l =
    react-InOrder now gate w.prev w.debounced
      (record w { prev = w.debounced; served_inject_since_idle = false; state_unseen = false })
      arrived here (free_of w selecting arrived here l)
see_state-InOrder now gate w (parked ticket text k) arrived here l =
    handle_inject-InOrder now ticket text k
      (record w { served_inject_since_idle = false; state_unseen = false }) arrived
      (free_of w (parked ticket text k) arrived here l)
see_state-InOrder now gate w (confirming n k) arrived here l =
    resume-InOrder now k w arrived (free_of w (confirming n k) arrived here l)
see_state-InOrder now gate w (typed ticket k) arrived here l = l
see_state-InOrder now gate w nudge_typed arrived here l = l
see_state-InOrder now gate w settling arrived here l = l

see_epoch-InOrder :
    (now : ℕ) (w : QueueWorker) (p : Phase) (arrived : List ℕ)
    → w.phase ≡ p
    → InOrder w arrived
    → InOrder (see_epoch now w p) arrived
see_epoch-InOrder now w selecting arrived here l =
    fail_queued-InOrder (agent_restarted w.agent) (record w { epoch_unseen = false }) arrived here
      (free_of w selecting arrived here l)
see_epoch-InOrder now w (parked ticket text k) arrived here l =
    fail_inject-InOrder (record w { epoch_unseen = false }) ticket (agent_restarted w.agent) arrived
      (free_of w (parked ticket text k) arrived here l)
see_epoch-InOrder now w (confirming n k) arrived here l =
    resume-InOrder now k w arrived (free_of w (confirming n k) arrived here l)
see_epoch-InOrder now w (typed ticket k) arrived here l = l
see_epoch-InOrder now w nudge_typed arrived here l = l
see_epoch-InOrder now w settling arrived here l = l

see_blocked-InOrder :
    (now : ℕ) (w : QueueWorker) (p : Phase) (arrived : List ℕ)
    → w.phase ≡ p
    → InOrder w arrived
    → InOrder (see_blocked now w p) arrived
see_blocked-InOrder now w selecting arrived here l = elim (Bool-cases (is_some w.blocked)) [
  | inl dialog ↦ rw dialog (free_of w selecting arrived here l)
  | inr clear ↦ rw clear (free_of w selecting arrived here l)
]
see_blocked-InOrder now w (parked ticket text k) arrived here l =
    handle_inject-InOrder now ticket text k (record w { blocked_unseen = false }) arrived
      (free_of w (parked ticket text k) arrived here l)
see_blocked-InOrder now w (confirming n k) arrived here l =
    resume-InOrder now k w arrived (free_of w (confirming n k) arrived here l)
see_blocked-InOrder now w (typed ticket k) arrived here l = l
see_blocked-InOrder now w nudge_typed arrived here l = l
see_blocked-InOrder now w settling arrived here l = l

elapse-InOrder :
    (now : ℕ) (gate : Option IdleDecision) (w : QueueWorker) (p : Phase) (arrived : List ℕ)
    → w.phase ≡ p
    → InOrder w arrived
    → InOrder (elapse now gate w p) arrived
elapse-InOrder now gate w selecting arrived here l = l
elapse-InOrder now gate w (parked ticket text k) arrived here l =
    handle_inject-InOrder now ticket text k w arrived
      (free_of w (parked ticket text k) arrived here l)
elapse-InOrder now gate w (typed ticket k) arrived here l =
    submit-InOrder ticket k (press_enter now w) w arrived
      (free_of w (typed ticket k) arrived here l)
elapse-InOrder now gate w nudge_typed arrived here l =
    submit_nudge-InOrder (press_enter now w) w arrived (free_of w nudge_typed arrived here l)
elapse-InOrder now gate w (confirming n k) arrived here l =
    resend-InOrder now n k w arrived (free_of w (confirming n k) arrived here l)
elapse-InOrder now gate w settling arrived here l = elim (Bool-cases w.state_unseen) [
  | inl woke ↦ rw woke (free_of w settling arrived here l)
  | inr still ↦
      simp still
        (drain_then_consult-InOrder now poke gate w arrived (free_of w settling arrived here l))
]

take_when_selecting-InOrder :
    (now : ℕ) (gate : Option IdleDecision) (w : QueueWorker) (p : Phase) (arrived : List ℕ)
    → w.phase ≡ p
    → InOrder w arrived
    → InOrder (take_when_selecting now gate w p) arrived
take_when_selecting-InOrder now gate w selecting arrived here l =
    take_command-InOrder now gate w w.cmds arrived here refl (free_of w selecting arrived here l)
take_when_selecting-InOrder now gate w (parked ticket text k) arrived here l = l
take_when_selecting-InOrder now gate w (typed ticket k) arrived here l = l
take_when_selecting-InOrder now gate w nudge_typed arrived here l = l
take_when_selecting-InOrder now gate w (confirming n k) arrived here l = l
take_when_selecting-InOrder now gate w settling arrived here l = l

tickets-append : (cmds more : List QueueCmd) → tickets (cmds ++ more) ≡ tickets cmds ++ tickets more
tickets-append [] more = refl
tickets-append (inject ticket text ∷ cmds) more = ap (λ l. ticket ∷ l) (tickets-append cmds more)
tickets-append (reconsider ∷ cmds) more = tickets-append cmds more

append_assoc : (xs ys zs : List ℕ) → (xs ++ ys) ++ zs ≡ xs ++ (ys ++ zs)
append_assoc [] ys zs = refl
append_assoc (x ∷ xs) ys zs = ap (λ l. x ∷ l) (append_assoc xs ys zs)

append_nil : (xs : List ℕ) → xs ++ [] ≡ xs
append_nil [] = refl
append_nil (x ∷ xs) = ap (λ l. x ∷ l) (append_nil xs)

-- The injections that arrive, in order.
abbrev pub arrival : Event → List ℕ
arrival (arrives cmd) = tickets (cmd ∷ [])
arrival _ = []

abbrev pub arrivals : List (ℕ × Event) → List ℕ
arrivals [] = []
arrivals ((now, event) ∷ events) = arrival event ++ arrivals events

enqueue-InOrder :
    (cmd : QueueCmd) (w : QueueWorker) (arrived : List ℕ)
    → InOrder w arrived
    → InOrder (enqueue cmd w) (arrived ++ tickets (cmd ∷ []))
enqueue-InOrder (inject ticket text) w arrived l =
    let held = in_hand w.phase in
    rw (tickets-append w.cmds (inject ticket text ∷ [])) (record {
      served =
          ap (λ x. answered w.acks ++ x) (sym (append_assoc held (tickets w.cmds) (ticket ∷ [])))
          ∙ sym (append_assoc (answered w.acks) (held ++ tickets w.cmds) (ticket ∷ []))
          ∙ ap (λ x. x ++ ticket ∷ []) l.served;
      counted =
          rw
            (
              l.counted,
              ← append_assoc held (tickets w.cmds) (ticket ∷ []),
              length-append (held ++ tickets w.cmds) (ticket ∷ []),
            )
            refl;
    })
enqueue-InOrder reconsider w arrived l =
    rw (tickets-append w.cmds (reconsider ∷ []), append_nil (tickets w.cmds), append_nil arrived) l

-- A step in which nothing arrives.
quiet : (w : QueueWorker) (arrived : List ℕ) → InOrder w arrived → InOrder w (arrived ++ [])
quiet w arrived l = rw (append_nil arrived) l

step-InOrder :
    (w : QueueWorker) (now : ℕ) (event : Event) (arrived : List ℕ)
    → InOrder w arrived
    → InOrder (step w (now, event)) (arrived ++ arrival event)
unfolding step
step-InOrder w now (arrives cmd) arrived l = enqueue-InOrder cmd w arrived l
step-InOrder w now (state_changes s) arrived l = quiet w arrived l
step-InOrder w now epoch_changes arrived l = quiet w arrived l
step-InOrder w now (blocked_changes b) arrived l = quiet w arrived l
step-InOrder w now pty_goes arrived l = quiet w arrived l
step-InOrder w now (takes_command gate) arrived l =
    quiet (take_when_selecting now gate w w.phase) arrived
      (take_when_selecting-InOrder now gate w w.phase arrived refl l)
step-InOrder w now (elapses gate) arrived l =
    quiet (elapse now gate w w.phase) arrived (elapse-InOrder now gate w w.phase arrived refl l)
step-InOrder w now (sees_state gate) arrived l = elim (Bool-cases w.state_unseen) [
  | inl new ↦ simp new (
      quiet (see_state now gate w w.phase) arrived
        (see_state-InOrder now gate w w.phase arrived refl l))
  | inr old ↦ simp old (quiet w arrived l)
]
step-InOrder w now sees_epoch arrived l = elim (Bool-cases w.epoch_unseen) [
  | inl new ↦
      simp new
        (quiet (see_epoch now w w.phase) arrived (see_epoch-InOrder now w w.phase arrived refl l))
  | inr old ↦ simp old (quiet w arrived l)
]
step-InOrder w now sees_blocked arrived l = elim (Bool-cases w.blocked_unseen) [
  | inl new ↦
      simp new (
        quiet (see_blocked now w w.phase) arrived
          (see_blocked-InOrder now w w.phase arrived refl l))
  | inr old ↦ simp old (quiet w arrived l)
]

run-InOrder :
    (events : List (ℕ × Event)) (w : QueueWorker) (arrived : List ℕ)
    → InOrder w arrived
    → InOrder (run w events) (arrived ++ arrivals events)
unfolding run
run-InOrder [] w arrived l = quiet w arrived l
run-InOrder ((now, event) ∷ events) w arrived l =
    rw⁻¹ (append_assoc arrived (arrival event) (arrivals events)) (
      run-InOrder events (step w (now, event)) (arrived ++ arrival event)
        (step-InOrder w now event arrived l))

-- A worker with nothing to do yet.
abbrev pub fresh : AgentId → AgentState → Bool → QueueWorker
fresh agent state auto_clear = record {
  agent = agent;
  cmds = [];
  debounced = state;
  state_unseen = false;
  epoch_unseen = false;
  blocked = none;
  blocked_unseen = false;
  writer_open = true;
  auto_clear = auto_clear;
  prev = state;
  depth = 0;
  served_inject_since_idle = false;
  phase = selecting;
  written = [];
  acks = [];
}

-- Whatever arrives and whatever happens to the agent, its dialogs, its restarts and its terminal, in any
-- order: the answers given so far, the injection in hand and those queued are the injections that arrived,
-- each once and in the order of arrival; and `depth` is the number of those not answered.
pub answers_in_order :
    (agent : AgentId) (state : AgentState) (auto_clear : Bool) (events : List (ℕ × Event))
    → (answered (run (fresh agent state auto_clear) events).acks
          ++ (in_hand (run (fresh agent state auto_clear) events).phase
              ++ tickets (run (fresh agent state auto_clear) events).cmds)
        ≡ arrivals events)
      × ((run (fresh agent state auto_clear) events).depth
          ≡ length (
              in_hand (run (fresh agent state auto_clear) events).phase
              ++ tickets (run (fresh agent state auto_clear) events).cmds))
answers_in_order agent state auto_clear events =
    let l =
      run-InOrder events (fresh agent state auto_clear) []
        (record { served = refl; counted = refl }) in
    (l.served, l.counted)
