-- ===== src/Terminal/Queue/Answers.antt =====
-- core/src/pty/queue.rs: each step of the worker keeps the line of injections.
use core_tempo.Common.{
  ℕ, ◌≡◌, refl, String, false, not, ◌&&◌, ◌||◌, List, [], ◌∷◌, Option, none, some, is_some, ◌==◌,
  ltb, arith, inl, inr, Bool-cases,
}
use core_tempo.Types.Config.{AgentState, idle, working, exited, restarting, state_eq}
use core_tempo.Router.State.{InjectError, agent_exited, agent_restarted}
use core_tempo.Router.Gate.{IdleDecision, allow_clear, nudge, hold_quiet}
use core_tempo.Terminal.Queue.{
  QueueCmd, inject, reconsider, GateEntry, transition, poke, Caller, from_loop, from_drain,
  selecting, injected, QueueWorker, write, fail_queued, Progress, under_way, failed_all, unwritten,
  wait_debounced_idle, drain, resume, resume_after, handle_inject, act_on, is_poke, consult_gate,
  has_injection, drain_then_consult, submit, submit_nudge, resend, take_command, react,
  max_enter_resends,
}
use core_tempo.Terminal.Queue.Order.{
  tickets, IsLine, InOrder, Handled, resolve-IsLine, fail_each-IsLine, fail_each-phase,
  fail_inject-InOrder, wait_debounced_idle-Handled,
}

pub drain-InOrder :
    (now : ℕ) (cmds : List QueueCmd) (w : QueueWorker) (arrived : List ℕ)
    → IsLine w.acks w.depth (tickets cmds) arrived
    → InOrder (drain now cmds w) arrived
unfolding drain
drain-InOrder now [] w arrived l = l
drain-InOrder now (reconsider ∷ cmds) w arrived l = drain-InOrder now cmds w arrived l
drain-InOrder now (inject ticket text ∷ cmds) w arrived l =
    next (wait_debounced_idle now ticket text from_drain (record w { cmds = cmds }))
      (drain-InOrder now cmds)
      (wait_debounced_idle-Handled now (record w { cmds = cmds }) ticket text from_drain arrived l)
  where
    next :
        (handled : QueueWorker × Progress)
        → ((w : QueueWorker) (arrived : List ℕ)
            → IsLine w.acks w.depth (tickets cmds) arrived
            → InOrder (drain now cmds w) arrived)
        → Handled cmds arrived handled
        → InOrder
            (elim handled.1 [
              | under_way ↦ handled.0
              | failed_all ↦ handled.0
              | unwritten ↦ drain now cmds handled.0
            ])
            arrived
    next (v, under_way) rest h = h
    next (v, failed_all) rest h = h
    next (v, unwritten) rest h = rest v arrived h.0

pub resume-InOrder :
    (now : ℕ) (k : Caller) (w : QueueWorker) (arrived : List ℕ)
    → IsLine w.acks w.depth (tickets w.cmds) arrived
    → InOrder (resume now k w) arrived
resume-InOrder now from_loop w arrived l = l
resume-InOrder now from_drain w arrived l = drain-InOrder now w.cmds w arrived l

pub resume_after-InOrder :
    (now : ℕ) (k : Caller) (handled : QueueWorker × Progress) (cmds : List QueueCmd)
    (arrived : List ℕ)
    → Handled cmds arrived handled
    → InOrder (resume_after now k handled) arrived
resume_after-InOrder now k (w, under_way) cmds arrived h = h
resume_after-InOrder now k (w, failed_all) cmds arrived h = h
resume_after-InOrder now k (w, unwritten) cmds arrived h =
    resume-InOrder now k w arrived (rw h.1 h.0)

pub handle_inject-InOrder :
    (now : ℕ) (ticket : ℕ) (text : String) (k : Caller) (w : QueueWorker) (arrived : List ℕ)
    → IsLine w.acks w.depth (ticket ∷ tickets w.cmds) arrived
    → InOrder (handle_inject now ticket text k w) arrived
handle_inject-InOrder now ticket text k w arrived l =
    resume_after-InOrder now k (wait_debounced_idle now ticket text k w) w.cmds arrived
      (wait_debounced_idle-Handled now w ticket text k arrived l)

-- The gate's verdict types at most; it takes nothing from the line. It is reached only with nothing in hand.
abbrev pub Free : QueueWorker → List ℕ → Type 0
Free w arrived = IsLine w.acks w.depth (tickets w.cmds) arrived

pub act_on-InOrder :
    (entry : GateEntry) (d : IdleDecision) (w : QueueWorker) (arrived : List ℕ)
    → w.phase ≡ selecting
    → Free w arrived
    → InOrder (act_on entry d w) arrived
act_on-InOrder entry (nudge text) w arrived here l = elim (Bool-cases w.writer_open) [
  | inl up ↦ rw up l
  | inr gone ↦ rw gone (simp here l)
]
act_on-InOrder transition allow_clear w arrived here l =
    elim (Bool-cases (w.auto_clear && w.writer_open)) [
      | inl clears ↦ rw clears (simp here l)
      | inr stays ↦ rw stays (simp here l)
    ]
act_on-InOrder poke allow_clear w arrived here l = simp here l
act_on-InOrder transition hold_quiet w arrived here l = simp here l
act_on-InOrder poke hold_quiet w arrived here l = simp here l

pub consult_gate-InOrder :
    (entry : GateEntry) (gate : Option IdleDecision) (w : QueueWorker) (arrived : List ℕ)
    → w.phase ≡ selecting
    → Free w arrived
    → InOrder (consult_gate entry gate w) arrived
unfolding consult_gate
consult_gate-InOrder entry none w arrived here l = simp here l
consult_gate-InOrder entry (some d) w arrived here l =
    let kept : InOrder w arrived = simp here l in
    elim (Bool-cases (w.debounced == idle)) [
      | inr moving ↦ rw moving kept
      | inl still ↦ elim (Bool-cases (is_some w.blocked)) [
        | inl dialog ↦ rw (still, dialog) kept
        | inr clear ↦ elim (Bool-cases (is_poke entry && w.served_inject_since_idle)) [
          | inl early ↦ rw (still, clear, early) kept
          | inr due ↦ rw (still, clear, due) (act_on-InOrder entry d w arrived here l)
        ]
      ]
    ]

tickets_of_none : (cmds : List QueueCmd) → has_injection cmds ≡ false → tickets cmds ≡ []
tickets_of_none [] h = refl
tickets_of_none (reconsider ∷ cmds) h = tickets_of_none cmds h
tickets_of_none (inject ticket text ∷ cmds) h = absurd (ground (arith, h))

pub drain_then_consult-InOrder :
    (now : ℕ) (entry : GateEntry) (gate : Option IdleDecision) (w : QueueWorker) (arrived : List ℕ)
    → Free w arrived
    → InOrder (drain_then_consult now entry gate w) arrived
unfolding drain_then_consult
drain_then_consult-InOrder now entry gate w arrived l = elim (Bool-cases (has_injection w.cmds)) [
  | inl queued ↦ rw queued (drain-InOrder now w.cmds w arrived l)
  | inr empty ↦ rw empty (
      consult_gate-InOrder entry gate (record w { cmds = []; phase = selecting }) arrived refl
        (rw (tickets_of_none w.cmds empty) at l))
]

pub fail_queued-InOrder :
    (e : InjectError) (w : QueueWorker) (arrived : List ℕ)
    → w.phase ≡ selecting
    → Free w arrived
    → InOrder (fail_queued e w) arrived
fail_queued-InOrder e w arrived here l =
    rw (fail_each-phase e w.cmds w) (simp here (fail_each-IsLine e w.cmds w arrived l))

pub submit-InOrder :
    (ticket : ℕ) (k : Caller) (e : Option InjectError) (w : QueueWorker) (arrived : List ℕ)
    → IsLine w.acks w.depth (ticket ∷ tickets w.cmds) arrived
    → InOrder (submit ticket k e w) arrived
submit-InOrder ticket k (some e) w arrived l = fail_inject-InOrder w ticket e arrived l
submit-InOrder ticket k none w arrived l =
    resolve-IsLine (write "\r" w) ticket injected (tickets w.cmds) arrived l

pub submit_nudge-InOrder :
    (e : Option InjectError) (w : QueueWorker) (arrived : List ℕ)
    → Free w arrived
    → InOrder (submit_nudge e w) arrived
submit_nudge-InOrder (some e) w arrived l = l
submit_nudge-InOrder none w arrived l = l

pub resend-InOrder :
    (now n : ℕ) (k : Caller) (w : QueueWorker) (arrived : List ℕ)
    → Free w arrived
    → InOrder (resend now n k w) arrived
resend-InOrder now n k w arrived l =
    elim (Bool-cases (ltb max_enter_resends n || not w.writer_open)) [
      | inl over ↦ rw over (resume-InOrder now k w arrived l)
      | inr again ↦ rw again l
    ]

pub take_command-InOrder :
    (now : ℕ) (gate : Option IdleDecision) (w : QueueWorker) (cmds : List QueueCmd)
    (arrived : List ℕ)
    → w.phase ≡ selecting
    → w.cmds ≡ cmds
    → IsLine w.acks w.depth (tickets cmds) arrived
    → InOrder (take_command now gate w cmds) arrived
take_command-InOrder now gate w [] arrived here same l = simp (here, same) l
take_command-InOrder now gate w (inject ticket text ∷ cmds) arrived here same l =
    handle_inject-InOrder now ticket text from_loop (record w { cmds = cmds }) arrived l
take_command-InOrder now gate w (reconsider ∷ cmds) arrived here same l =
    consult_gate-InOrder poke gate (record w { cmds = cmds }) arrived here l

pub react-InOrder :
    (now : ℕ) (gate : Option IdleDecision) (was state : AgentState) (w : QueueWorker)
    (arrived : List ℕ)
    → w.phase ≡ selecting
    → Free w arrived
    → InOrder (react now gate was state w) arrived
react-InOrder now gate working idle w arrived here l =
    drain_then_consult-InOrder now transition gate w arrived l
react-InOrder now gate was exited w arrived here l =
    fail_queued-InOrder (agent_exited w.agent) w arrived here l
react-InOrder now gate was restarting w arrived here l =
    fail_queued-InOrder (agent_restarted w.agent) w arrived here l
react-InOrder now gate _ _ w arrived here l = simp here l
