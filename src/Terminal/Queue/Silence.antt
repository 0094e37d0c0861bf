-- ===== src/Terminal/Queue/Silence.antt =====
-- core/src/pty/queue.rs: no step of the worker types into a standing dialog.
use core_tempo.Common.{
  ℕ, ◌≡◌, refl, String, Bool, true, false, List, [], ◌∷◌, Option, none, some, arith, inl, inr,
  Bool-cases,
}
use core_tempo.Types.Config.{AgentState, idle, working, exited, restarting, state_eq}
use core_tempo.Router.State.{agent_exited, agent_restarted}
use core_tempo.Router.Gate.{Blocked, IdleDecision}
use core_tempo.Terminal.Queue.{
  QueueCmd, inject, reconsider, transition, poke, Caller, from_loop, Phase, selecting, parked,
  typed, nudge_typed, confirming, settling, QueueWorker, press_past, submit, submit_nudge, Event,
  arrives, state_changes, epoch_changes, blocked_changes, pty_goes, takes_command, sees_state,
  sees_epoch, sees_blocked, elapses, take_command, react, see_state, see_epoch, see_blocked, elapse,
  take_when_selecting, enqueue, step,
}
use core_tempo.Terminal.Queue.Dialogs.{
  IsSilent, fail_each-IsSilent, at_phase-IsSilent, fail_inject-IsSilent, resume-IsSilent,
  handle_inject-IsSilent, consult_gate-IsSilent, drain_then_consult-IsSilent,
}

abbrev pub is_confirming : Phase → Bool
is_confirming (confirming n k) = true
is_confirming _ = false

module _ (dialog : Blocked) (texts : List String) where
  submit-IsSilent :
      (now ticket : ℕ) (k : Caller) (w : QueueWorker) (b : Option Blocked)
      → w.blocked ≡ b
      → IsSilent dialog texts w
      → IsSilent dialog texts (submit ticket k (press_past now w b) w)
  submit-IsSilent now ticket k w none e s = absurd (ground (arith, e, s.stands))
  submit-IsSilent now ticket k w (some d) e s = fail_inject-IsSilent dialog texts ticket _ w s

  submit_nudge-IsSilent :
      (now : ℕ) (w : QueueWorker) (b : Option Blocked)
      → w.blocked ≡ b
      → IsSilent dialog texts w
      → IsSilent dialog texts (submit_nudge (press_past now w b) w)
  submit_nudge-IsSilent now w none e s = absurd (ground (arith, e, s.stands))
  submit_nudge-IsSilent now w (some d) e s = at_phase-IsSilent dialog texts selecting w s

  take_command-IsSilent :
      (now : ℕ) (gate : Option IdleDecision) (w : QueueWorker) (cmds : List QueueCmd)
      → IsSilent dialog texts w
      → IsSilent dialog texts (take_command now gate w cmds)
  take_command-IsSilent now gate w [] s = s
  take_command-IsSilent now gate w (inject ticket text ∷ cmds) s =
      handle_inject-IsSilent dialog texts now ticket text from_loop (record w { cmds = cmds })
        (record { same = s.same; stands = s.stands })
  take_command-IsSilent now gate w (reconsider ∷ cmds) s =
      consult_gate-IsSilent dialog texts poke gate (record w { cmds = cmds })
        (record { same = s.same; stands = s.stands })

  react-IsSilent :
      (now : ℕ) (gate : Option IdleDecision) (was state : AgentState) (w : QueueWorker)
      → IsSilent dialog texts w
      → IsSilent dialog texts (react now gate was state w)
  react-IsSilent now gate working idle w s =
      drain_then_consult-IsSilent dialog texts now transition gate w s
  react-IsSilent now gate was exited w s =
      fail_each-IsSilent dialog texts (agent_exited w.agent) w.cmds w s
  react-IsSilent now gate was restarting w s =
      fail_each-IsSilent dialog texts (agent_restarted w.agent) w.cmds w s
  react-IsSilent now gate _ _ w s = s

  see_state-IsSilent :
      (now : ℕ) (gate : Option IdleDecision) (w : QueueWorker) (p : Phase)
      → IsSilent dialog texts w
      → IsSilent dialog texts (see_state now gate w p)
  see_state-IsSilent now gate w selecting s =
      react-IsSilent now gate w.prev w.debounced
        (record w { prev = w.debounced; served_inject_since_idle = false; state_unseen = false })
        (record { same = s.same; stands = s.stands })
  see_state-IsSilent now gate w (parked ticket text k) s =
      handle_inject-IsSilent dialog texts now ticket text k
        (record w { served_inject_since_idle = false; state_unseen = false })
        (record { same = s.same; stands = s.stands })
  see_state-IsSilent now gate w (confirming n k) s = resume-IsSilent dialog texts now k w s
  see_state-IsSilent now gate w (typed ticket k) s = s
  see_state-IsSilent now gate w nudge_typed s = s
  see_state-IsSilent now gate w settling s = s

  see_epoch-IsSilent :
      (now : ℕ) (w : QueueWorker) (p : Phase)
      → IsSilent dialog texts w
      → IsSilent dialog texts (see_epoch now w p)
  see_epoch-IsSilent now w selecting s =
      fail_each-IsSilent dialog texts (agent_restarted w.agent) w.cmds
        (record w { epoch_unseen = false }) (record { same = s.same; stands = s.stands })
  see_epoch-IsSilent now w (parked ticket text k) s =
      fail_inject-IsSilent dialog texts ticket (agent_restarted w.agent)
        (record w { epoch_unseen = false }) (record { same = s.same; stands = s.stands })
  see_epoch-IsSilent now w (confirming n k) s = resume-IsSilent dialog texts now k w s
  see_epoch-IsSilent now w (typed ticket k) s = s
  see_epoch-IsSilent now w nudge_typed s = s
  see_epoch-IsSilent now w settling s = s

  see_blocked-IsSilent :
      (now : ℕ) (w : QueueWorker) (p : Phase)
      → IsSilent dialog texts w
      → IsSilent dialog texts (see_blocked now w p)
  see_blocked-IsSilent now w selecting s = record { same = s.same; stands = s.stands }
  see_blocked-IsSilent now w (parked ticket text k) s =
      handle_inject-IsSilent dialog texts now ticket text k (record w { blocked_unseen = false })
        (record { same = s.same; stands = s.stands })
  see_blocked-IsSilent now w (confirming n k) s = resume-IsSilent dialog texts now k w s
  see_blocked-IsSilent now w (typed ticket k) s = s
  see_blocked-IsSilent now w nudge_typed s = s
  see_blocked-IsSilent now w settling s = s

  elapse-IsSilent :
      (now : ℕ) (gate : Option IdleDecision) (w : QueueWorker) (p : Phase)
      → is_confirming p ≡ false
      → IsSilent dialog texts w
      → IsSilent dialog texts (elapse now gate w p)
  elapse-IsSilent now gate w selecting c s = s
  elapse-IsSilent now gate w (parked ticket text k) c s =
      handle_inject-IsSilent dialog texts now ticket text k w s
  elapse-IsSilent now gate w (typed ticket k) c s = submit-IsSilent now ticket k w w.blocked refl s
  elapse-IsSilent now gate w nudge_typed c s = submit_nudge-IsSilent now w w.blocked refl s
  elapse-IsSilent now gate w (confirming n k) c s = absurd (ground (arith, c))
  elapse-IsSilent now gate w settling c s = elim (Bool-cases w.state_unseen) [
    | inl woke ↦ rw woke (record { same = s.same; stands = s.stands })
    | inr still ↦ simp still (drain_then_consult-IsSilent dialog texts now poke gate w s)
  ]

  take_when_selecting-IsSilent :
      (now : ℕ) (gate : Option IdleDecision) (w : QueueWorker) (p : Phase)
      → IsSilent dialog texts w
      → IsSilent dialog texts (take_when_selecting now gate w p)
  take_when_selecting-IsSilent now gate w selecting s = take_command-IsSilent now gate w w.cmds s
  take_when_selecting-IsSilent now gate w (parked ticket text k) s = s
  take_when_selecting-IsSilent now gate w (typed ticket k) s = s
  take_when_selecting-IsSilent now gate w nudge_typed s = s
  take_when_selecting-IsSilent now gate w (confirming n k) s = s
  take_when_selecting-IsSilent now gate w settling s = s

enqueue_written : (cmd : QueueCmd) (w : QueueWorker) → (enqueue cmd w).written ≡ w.written
enqueue_written (inject ticket text) w = refl
enqueue_written reconsider w = refl

-- While a permission dialog stands and the worker is not waiting for a submit to be confirmed, no step types
-- anything into the terminal, whatever reaches the worker and whatever the gate says.
pub dialog_gets_nothing :
    (w : QueueWorker) (now : ℕ) (event : Event) (dialog : Blocked)
    → w.blocked ≡ some dialog
    → is_confirming w.phase ≡ false
    → (step w (now, event)).written ≡ w.written
unfolding step
dialog_gets_nothing w now (arrives cmd) dialog b c = enqueue_written cmd w
dialog_gets_nothing w now (state_changes s) dialog b c = refl
dialog_gets_nothing w now epoch_changes dialog b c = refl
dialog_gets_nothing w now (blocked_changes x) dialog b c = refl
dialog_gets_nothing w now pty_goes dialog b c = refl
dialog_gets_nothing w now (takes_command gate) dialog b c =
    (take_when_selecting-IsSilent dialog w.written now gate w w.phase
      (record { same = refl; stands = b })).same
dialog_gets_nothing w now (elapses gate) dialog b c =
    (elapse-IsSilent dialog w.written now gate w w.phase c
      (record { same = refl; stands = b })).same
dialog_gets_nothing w now (sees_state gate) dialog b c = elim (Bool-cases w.state_unseen) [
  | inl new ↦ simp new (
      (see_state-IsSilent dialog w.written now gate w w.phase
        (record { same = refl; stands = b })).same)
  | inr old ↦ simp old refl
]
dialog_gets_nothing w now sees_epoch dialog b c = elim (Bool-cases w.epoch_unseen) [
  | inl new ↦ simp new (
      (see_epoch-IsSilent dialog w.written now w w.phase (record { same = refl; stands = b })).same)
  | inr old ↦ simp old refl
]
dialog_gets_nothing w now sees_blocked dialog b c = elim (Bool-cases w.blocked_unseen) [
  | inl new ↦ simp new (
      (see_blocked-IsSilent dialog w.written now w w.phase
        (record { same = refl; stands = b })).same)
  | inr old ↦ simp old refl
]
