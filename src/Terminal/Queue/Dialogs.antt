-- ===== src/Terminal/Queue/Dialogs.antt =====
-- core/src/pty/queue.rs: what is typed while a permission dialog stands.
use core_tempo.Common.{
  ℕ, ◌-◌, ◌≡◌, refl, String, false, List, [], ◌∷◌, Option, none, some, ◌==◌, leb, arith, inl, inr,
  Bool-cases,
}
use core_tempo.Types.Config.{idle, exited, restarting, state_eq}
use core_tempo.Router.State.{InjectError, agent_exited, agent_restarted}
use core_tempo.Router.Gate.{Blocked, IdleDecision}
use core_tempo.Terminal.Queue.{
  QueueCmd, inject, reconsider, GateEntry, Caller, from_loop, from_drain, Phase, selecting, failed,
  QueueWorker, at_phase, resolve, fail_each, fail_queued, Progress, under_way, failed_all,
  unwritten, fail_inject, wait_unblocked, wait_debounced_idle, drain, resume, resume_after,
  handle_inject, consult_gate, has_injection, drain_then_consult, blocked_grace,
}

-- The worker has written nothing, and the dialog stands.
pub record IsSilent (dialog : Blocked) (texts : List String) (w : QueueWorker) : Type 0 where
  pub same : w.written ≡ texts
  pub stands : w.blocked ≡ some dialog

module _ (dialog : Blocked) (texts : List String) where
  pub fail_each-IsSilent :
      (e : InjectError) (cmds : List QueueCmd) (w : QueueWorker)
      → IsSilent dialog texts w
      → IsSilent dialog texts (fail_each e cmds w)
  unfolding fail_each
  fail_each-IsSilent e [] w s = record { same = s.same; stands = s.stands }
  fail_each-IsSilent e (inject ticket text ∷ cmds) w s =
      fail_each-IsSilent e cmds (resolve ticket (failed e) w)
        (record { same = s.same; stands = s.stands })
  fail_each-IsSilent e (reconsider ∷ cmds) w s = fail_each-IsSilent e cmds w s

  pub at_phase-IsSilent :
      (p : Phase) (w : QueueWorker) → IsSilent dialog texts w → IsSilent dialog texts (at_phase p w)
  at_phase-IsSilent p w s = record { same = s.same; stands = s.stands }

  pub fail_inject-IsSilent :
      (ticket : ℕ) (e : InjectError) (w : QueueWorker)
      → IsSilent dialog texts w
      → IsSilent dialog texts (fail_inject ticket e w).0
  fail_inject-IsSilent ticket e w s =
      at_phase-IsSilent selecting (fail_queued e (resolve ticket (failed e) w)) (
        fail_each-IsSilent e w.cmds (resolve ticket (failed e) w)
          (record { same = s.same; stands = s.stands }))

  pub wait_unblocked-IsSilent :
      (now : ℕ) (ticket : ℕ) (text : String) (k : Caller) (w : QueueWorker) (b : Option Blocked)
      → w.blocked ≡ b
      → IsSilent dialog texts w
      → IsSilent dialog texts (wait_unblocked now ticket text k w b).0
  wait_unblocked-IsSilent now ticket text k w none e s = absurd (ground (arith, e, s.stands))
  wait_unblocked-IsSilent now ticket text k w (some d) e s =
      elim (Bool-cases (leb blocked_grace (now - d.since))) [
        | inl over ↦ rw over (fail_inject-IsSilent ticket _ w s)
        | inr within ↦ rw within (record { same = s.same; stands = s.stands })
      ]

  pub wait_debounced_idle-IsSilent :
      (now : ℕ) (ticket : ℕ) (text : String) (k : Caller) (w : QueueWorker)
      → IsSilent dialog texts w
      → IsSilent dialog texts (wait_debounced_idle now ticket text k w).0
  unfolding wait_debounced_idle
  wait_debounced_idle-IsSilent now ticket text k w s =
      let seen = record w { prev = w.debounced; state_unseen = false } in
      let quiet : IsSilent dialog texts seen = record { same = s.same; stands = s.stands } in
      elim (Bool-cases (w.debounced == exited)) [
        | inl gone ↦ simp gone (fail_inject-IsSilent ticket (agent_exited w.agent) seen quiet)
        | inr here ↦ elim (Bool-cases (w.debounced == restarting)) [
          | inl anew ↦
              simp (here, anew) (fail_inject-IsSilent ticket (agent_restarted w.agent) seen quiet)
          | inr up ↦
              simp (here, up) (wait_unblocked-IsSilent now ticket text k seen w.blocked refl quiet)
        ]
      ]

  pub drain-IsSilent :
      (now : ℕ) (cmds : List QueueCmd) (w : QueueWorker)
      → IsSilent dialog texts w
      → IsSilent dialog texts (drain now cmds w)
  unfolding drain
  drain-IsSilent now [] w s = record { same = s.same; stands = s.stands }
  drain-IsSilent now (reconsider ∷ cmds) w s = drain-IsSilent now cmds w s
  drain-IsSilent now (inject ticket text ∷ cmds) w s =
      let v = record w { cmds = cmds } in
      let handled =
        wait_debounced_idle-IsSilent now ticket text from_drain v
          (record { same = s.same; stands = s.stands }) in
      next (wait_debounced_idle now ticket text from_drain v) handled (drain-IsSilent now cmds)
    where
      next :
          (handled : QueueWorker × Progress)
          → IsSilent dialog texts handled.0
          → ((w : QueueWorker) → IsSilent dialog texts w → IsSilent dialog texts (drain now cmds w))
          → IsSilent dialog texts (elim handled.1 [
            | under_way ↦ handled.0
            | failed_all ↦ handled.0
            | unwritten ↦ drain now cmds handled.0
          ])
      next (v, under_way) h rest = h
      next (v, failed_all) h rest = h
      next (v, unwritten) h rest = rest v h

  pub resume-IsSilent :
      (now : ℕ) (k : Caller) (w : QueueWorker)
      → IsSilent dialog texts w
      → IsSilent dialog texts (resume now k w)
  resume-IsSilent now from_loop w s = at_phase-IsSilent selecting w s
  resume-IsSilent now from_drain w s = drain-IsSilent now w.cmds w s

  pub resume_after-IsSilent :
      (now : ℕ) (k : Caller) (handled : QueueWorker × Progress)
      → IsSilent dialog texts handled.0
      → IsSilent dialog texts (resume_after now k handled)
  resume_after-IsSilent now k (w, under_way) s = s
  resume_after-IsSilent now k (w, failed_all) s = s
  resume_after-IsSilent now k (w, unwritten) s = resume-IsSilent now k w s

  pub handle_inject-IsSilent :
      (now : ℕ) (ticket : ℕ) (text : String) (k : Caller) (w : QueueWorker)
      → IsSilent dialog texts w
      → IsSilent dialog texts (handle_inject now ticket text k w)
  handle_inject-IsSilent now ticket text k w s =
      resume_after-IsSilent now k (wait_debounced_idle now ticket text k w)
        (wait_debounced_idle-IsSilent now ticket text k w s)

  pub consult_gate-IsSilent :
      (entry : GateEntry) (gate : Option IdleDecision) (w : QueueWorker)
      → IsSilent dialog texts w
      → IsSilent dialog texts (consult_gate entry gate w)
  unfolding consult_gate
  consult_gate-IsSilent entry none w s = s
  consult_gate-IsSilent entry (some d) w s = elim (Bool-cases (w.debounced == idle)) [
    | inr moving ↦ simp moving s
    | inl still ↦ simp (still, s.stands) s
  ]

  pub drain_then_consult-IsSilent :
      (now : ℕ) (entry : GateEntry) (gate : Option IdleDecision) (w : QueueWorker)
      → IsSilent dialog texts w
      → IsSilent dialog texts (drain_then_consult now entry gate w)
  unfolding drain_then_consult
  drain_then_consult-IsSilent now entry gate w s = elim (Bool-cases (has_injection w.cmds)) [
    | inl queued ↦ simp queued (drain-IsSilent now w.cmds w s)
    | inr empty ↦ simp empty (
        consult_gate-IsSilent entry gate (record w { cmds = []; phase = selecting })
          (record { same = s.same; stands = s.stands }))
  ]
