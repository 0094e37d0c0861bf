-- ===== src/Terminal/Queue/Order.antt =====
-- core/src/pty/queue.rs: every injection is answered once, in the order of arrival, and `depth` counts those
-- that have not been.
use core_tempo.Common.{
  ℕ, ◌-◌, ◌≡◌, refl, ap, ◌∙◌, String, false, List, [], ◌∷◌, ◌++◌, map, Option, none, some, ◌==◌,
  leb, length, arith, inl, inr, Bool-cases,
}
use core_tempo.Types.Config.{idle, exited, restarting, state_eq}
use core_tempo.Router.State.{InjectError, agent_exited, agent_restarted}
use core_tempo.Router.Gate.{Blocked}
use core_tempo.Terminal.Queue.{
  QueueCmd, inject, reconsider, Caller, Phase, selecting, parked, typed, nudge_typed, confirming,
  settling, Ack, failed, QueueWorker, resolve, fail_each, Progress, under_way, failed_all,
  unwritten, fail_inject, type_text, wait_unblocked, wait_debounced_idle, blocked_grace,
}

abbrev pub tickets : List QueueCmd → List ℕ
tickets [] = []
tickets (inject ticket text ∷ cmds) = ticket ∷ tickets cmds
tickets (reconsider ∷ cmds) = tickets cmds

-- The injection that the task is on, not answered yet.
abbrev pub in_hand : Phase → List ℕ
in_hand (parked ticket text k) = ticket ∷ []
in_hand (typed ticket k) = ticket ∷ []
in_hand selecting = []
in_hand nudge_typed = []
in_hand (confirming n k) = []
in_hand settling = []

abbrev pub answered : List (ℕ × Ack) → List ℕ
answered = map (λ x. x.0)

-- The answered, then the pending, are those that arrived, and `depth` counts the pending.
pub record IsLine (acks : List (ℕ × Ack)) (depth : ℕ) (pending : List ℕ) (arrived : List ℕ)
    : Type 0 where
  pub served : answered acks ++ pending ≡ arrived
  pub counted : depth ≡ length pending

abbrev pub InOrder : QueueWorker → List ℕ → Type 0
InOrder w arrived = IsLine w.acks w.depth (in_hand w.phase ++ tickets w.cmds) arrived

pub answered-snoc :
    (acks : List (ℕ × Ack)) (ticket : ℕ) (ack : Ack) (pending : List ℕ)
    → answered (acks ++ (ticket, ack) ∷ []) ++ pending ≡ answered acks ++ ticket ∷ pending
answered-snoc [] ticket ack pending = refl
answered-snoc (x ∷ acks) ticket ack pending =
    ap (λ l. x.0 ∷ l) (answered-snoc acks ticket ack pending)

pub resolve-IsLine :
    (w : QueueWorker) (ticket : ℕ) (ack : Ack) (pending arrived : List ℕ)
    → IsLine w.acks w.depth (ticket ∷ pending) arrived
    → IsLine (resolve ticket ack w).acks (resolve ticket ack w).depth pending arrived
resolve-IsLine w ticket ack pending arrived l = record {
  served = answered-snoc w.acks ticket ack pending ∙ l.served;
  counted = rw l.counted (omega arith);
}

pub fail_each-IsLine :
    (e : InjectError) (cmds : List QueueCmd) (w : QueueWorker) (arrived : List ℕ)
    → IsLine w.acks w.depth (tickets cmds) arrived
    → IsLine
        (fail_each e cmds w).acks
        (fail_each e cmds w).depth
        (tickets (fail_each e cmds w).cmds)
        arrived
unfolding fail_each
fail_each-IsLine e [] w arrived l = l
fail_each-IsLine e (inject ticket text ∷ cmds) w arrived l =
    fail_each-IsLine e cmds (resolve ticket (failed e) w) arrived
      (resolve-IsLine w ticket (failed e) (tickets cmds) arrived l)
fail_each-IsLine e (reconsider ∷ cmds) w arrived l = fail_each-IsLine e cmds w arrived l

pub fail_each-phase :
    (e : InjectError) (cmds : List QueueCmd) (w : QueueWorker)
    → (fail_each e cmds w).phase ≡ w.phase
unfolding fail_each
fail_each-phase e [] w = refl
fail_each-phase e (inject ticket text ∷ cmds) w =
    fail_each-phase e cmds (resolve ticket (failed e) w)
fail_each-phase e (reconsider ∷ cmds) w = fail_each-phase e cmds w

pub fail_inject-InOrder :
    (w : QueueWorker) (ticket : ℕ) (e : InjectError) (arrived : List ℕ)
    → IsLine w.acks w.depth (ticket ∷ tickets w.cmds) arrived
    → InOrder (fail_inject ticket e w).0 arrived
fail_inject-InOrder w ticket e arrived l =
    fail_each-IsLine e w.cmds (resolve ticket (failed e) w) arrived
      (resolve-IsLine w ticket (failed e) (tickets w.cmds) arrived l)

-- How an injection in hand leaves the line.
abbrev pub Handled : List QueueCmd → List ℕ → QueueWorker × Progress → Type 0
Handled cmds arrived (w, under_way) = InOrder w arrived
Handled cmds arrived (w, failed_all) = InOrder w arrived
Handled cmds arrived (w, unwritten) = IsLine w.acks w.depth (tickets cmds) arrived × (w.cmds ≡ cmds)

pub type_text-Handled :
    (w : QueueWorker) (ticket : ℕ) (text : String) (k : Caller) (arrived : List ℕ)
    → IsLine w.acks w.depth (ticket ∷ tickets w.cmds) arrived
    → Handled w.cmds arrived (type_text ticket text k w)
type_text-Handled w ticket text k arrived l = elim (Bool-cases w.writer_open) [
  | inl up ↦ rw up l
  | inr gone ↦ rw gone (resolve-IsLine w ticket _ (tickets w.cmds) arrived l, refl)
]

pub wait_unblocked-Handled :
    (now : ℕ) (w : QueueWorker) (ticket : ℕ) (text : String) (k : Caller) (b : Option Blocked)
    (arrived : List ℕ)
    → IsLine w.acks w.depth (ticket ∷ tickets w.cmds) arrived
    → Handled w.cmds arrived (wait_unblocked now ticket text k w b)
wait_unblocked-Handled now w ticket text k none arrived l =
    elim (Bool-cases (w.debounced == idle)) [
      | inl still ↦ rw still (type_text-Handled w ticket text k arrived l)
      | inr moving ↦ rw moving l
    ]
wait_unblocked-Handled now w ticket text k (some dialog) arrived l =
    elim (Bool-cases (leb blocked_grace (now - dialog.since))) [
      | inl over ↦ rw over (fail_inject-InOrder w ticket _ arrived l)
      | inr within ↦ rw within l
    ]

pub wait_debounced_idle-Handled :
    (now : ℕ) (w : QueueWorker) (ticket : ℕ) (text : String) (k : Caller) (arrived : List ℕ)
    → IsLine w.acks w.depth (ticket ∷ tickets w.cmds) arrived
    → Handled w.cmds arrived (wait_debounced_idle now ticket text k w)
unfolding wait_debounced_idle
wait_debounced_idle-Handled now w ticket text k arrived l =
    let seen = record w { prev = w.debounced; state_unseen = false } in
    elim (Bool-cases (w.debounced == exited)) [
      | inl gone ↦ rw gone (fail_inject-InOrder seen ticket (agent_exited w.agent) arrived l)
      | inr here ↦ elim (Bool-cases (w.debounced == restarting)) [
        | inl anew ↦
            rw (here, anew) (fail_inject-InOrder seen ticket (agent_restarted w.agent) arrived l)
        | inr up ↦ rw (here, up) (wait_unblocked-Handled now seen ticket text k w.blocked arrived l)
      ]
    ]
