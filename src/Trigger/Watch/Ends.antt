-- ===== src/Trigger/Watch/Ends.antt =====
-- core/src/trigger.rs: a kickoff is reported as over only where it was seen to be.
use core_tempo.Common.{
  ℕ, ◌⊎◌, ◌≡◌, ◌≢◌, refl, String, Bool, true, false, List, [], ◌∷◌, Option, none, some, arith, inl,
  inr, ◌==◌, ==_iff, nat_eq, string_eq, or_else, Bool-cases, unwrap_or, some-inj, sym, ◌∙◌,
}
use core_tempo.Common.{All}
use core_tempo.Types.Ids.{AgentId}
use core_tempo.Types.Json.{Json}
use core_tempo.Types.Config.{state_eq}
use core_tempo.Types.Event.{agent_lifecycle}
use core_tempo.Types.Message.{
  MessageRecord, MessageKind, kind_eq, MessageStatus, queued, injected, working, done,
}
use core_tempo.Types.Message
use core_tempo.Schema.Check.{OutputContract}
use core_tempo.Workflow.Validate.{Outcome, ok, err}
use core_tempo.Trigger.Outcome.{
  Completion, quiesced, failed_completion, terminal_completion, terminal_at,
}
use core_tempo.Trigger.Watch.{
  Received, event, lagged, closed, Verdict, quiescent, blocked, gone, check, Pass, second_look,
  moved_with, moved_during_dwell, after_dwell, settle_at, settle_once, settle_passes, waited,
  exit_received, await_exit,
}
use core_tempo.Schema.Check.{check as conforms}
use core_tempo.Trigger.Outcome.{checked, replied_completion}
use core_tempo.Trigger.Watch.Quiet.{IsQuiet, check-IsQuiet}
use core_tempo.Trigger.Watch.Arrivals.{Some, is_failed, Fails, exit_of-Fails}

-- A pass through which nothing moved: at rest, still for the dwell, and at rest again.
pub record IsStill (roster : List AgentId) (p : Pass) : Type 0 where
  pub before : IsQuiet roster p.first
  pub dwell : All (λ agent. p.has_changed agent ≡ some false) roster
  pub after : IsQuiet roster p.second

moved_during_dwell-still :
    (has_changed : AgentId → Option Bool) (roster : List AgentId)
    → moved_during_dwell has_changed roster ≡ ok false
    → All (λ agent. has_changed agent ≡ some false) roster
unfolding moved_during_dwell
moved_during_dwell-still has_changed [] h = tt
moved_during_dwell-still has_changed (a ∷ roster) h =
    let (first, rest) = parts (has_changed a) (moved_during_dwell has_changed roster) h in
    (first, moved_during_dwell-still has_changed roster rest)
  where
    parts :
        (changed : Option Bool) (moved : Outcome Bool AgentId)
        → moved_with a changed moved ≡ ok false
        → (changed ≡ some false) × (moved ≡ ok false)
    parts none moved h = cc
    parts (some changed) (err closed_one) h = cc
    parts (some true) (ok moved) h = cc
    parts (some false) (ok moved) h = (refl, h)

pub either :
    (a b : Option Completion) {c : Completion}
    → or_else a b ≡ some c
    → ((a ≡ some c) ⊎ (b ≡ some c))
either none b h = inr h
either (some a) b h = inl h

module _ (roster : List AgentId) where
  settle_once-IsStill : (p : Pass) → settle_once roster p ≡ some quiesced → IsStill roster p
  unfolding settle_once
  settle_once-IsStill p h = at (check roster p.first) refl h
    where
      second : (v : Verdict) → second_look v ≡ some quiesced → v ≡ quiescent
      second quiescent h = refl
      second (gone a) h = cc
      second (blocked r) h = cc

      dwell :
          (moved : Outcome Bool AgentId)
          → check roster p.first ≡ quiescent
          → moved_during_dwell p.has_changed roster ≡ moved
          → after_dwell moved (check roster p.second) ≡ some quiesced
          → IsStill roster p
      dwell (err a) q e h = cc
      dwell (ok true) q e h = cc
      dwell (ok false) q e h = record {
        before = check-IsQuiet roster p.first q;
        dwell = moved_during_dwell-still p.has_changed roster e;
        after = check-IsQuiet roster p.second (second (check roster p.second) h);
      }

      wait : (o : Option AgentId) → waited o ≡ some quiesced → ⊥
      wait none h = cc
      wait (some a) h = cc

      at :
          (v : Verdict)
          → check roster p.first ≡ v
          → settle_at roster v p ≡ some quiesced
          → IsStill roster p
      at (gone a) q h = cc
      at (blocked r) q h = absurd (wait p.wait h)
      at quiescent q h = dwell (moved_during_dwell p.has_changed roster) q refl h

  settle_once-no_reply :
      (p : Pass) (code : ℕ) (reply : String) (output : Option Json)
      → settle_once roster p ≢ some (Completion.replied code reply output)
  unfolding settle_once
  settle_once-no_reply p code reply output h = at (check roster p.first) h
    where
      second : (v : Verdict) → second_look v ≢ some (Completion.replied code reply output)
      second quiescent h = cc
      second (gone a) h = cc
      second (blocked r) h = cc

      dwell :
          (m : Outcome Bool AgentId)
          → after_dwell m (check roster p.second) ≢ some (Completion.replied code reply output)
      dwell (err a) h = cc
      dwell (ok true) h = cc
      dwell (ok false) h = second (check roster p.second) h

      wait : (o : Option AgentId) → waited o ≢ some (Completion.replied code reply output)
      wait none h = cc
      wait (some a) h = cc

      at : (v : Verdict) → settle_at roster v p ≢ some (Completion.replied code reply output)
      at (gone a) h = cc
      at (blocked r) h = wait p.wait h
      at quiescent h = dwell (moved_during_dwell p.has_changed roster) h

  pub settle_passes-Some :
      (ps : List Pass) → settle_passes roster ps ≡ some quiesced → Some (IsStill roster) ps
  unfolding settle_passes
  settle_passes-Some [] h = cc
  settle_passes-Some (p ∷ ps) h = elim (either (settle_once roster p) _ h) [
    | inl first ↦ inl (settle_once-IsStill p first)
    | inr rest ↦ inr (settle_passes-Some ps rest)
  ]

  pub settle_passes-no_reply :
      (ps : List Pass) (code : ℕ) (reply : String) (output : Option Json)
      → settle_passes roster ps ≢ some (Completion.replied code reply output)
  unfolding settle_passes
  settle_passes-no_reply [] code reply output h = cc
  settle_passes-no_reply (p ∷ ps) code reply output h = elim (either (settle_once roster p) _ h) [
    | inl first ↦ settle_once-no_reply p code reply output first
    | inr rest ↦ settle_passes-no_reply ps code reply output rest
  ]

pub await_exit-Fails : (roster : List AgentId) (rs : List Received) → Fails (await_exit roster rs)
unfolding await_exit
await_exit-Fails roster [] = tt
await_exit-Fails roster (r ∷ rs) = join (exit_received roster r) (at r) (await_exit-Fails roster rs)
  where
    join :
        (o : Option Completion)
        → Fails o
        → Fails (await_exit roster rs)
        → Fails (or_else o (await_exit roster rs))
    join none h k = k
    join (some c) h k = h

    at : (r : Received) → Fails (exit_received roster r)
    at (event (agent_lifecycle a phase exit)) = exit_of-Fails roster a phase
    at (event _) = tt
    at (lagged fetch) = tt
    at closed = refl

pub Fails-ne : (o : Option Completion) {c : Completion} → Fails o → is_failed c ≡ false → o ≢ some c
Fails-ne none f n h = cc
Fails-ne (some d) f n h = cc

-- What an output says, where a contract binds the kickoff: a value that the contract takes, for code 0.
abbrev pub Conforms :
    (List ℕ → Outcome Json String) → Option OutputContract → ℕ → String → Option Json → Type 0
Conforms parse none code reply output = output ≡ none
Conforms parse (some contract) code reply output =
    (code ≡ 0 → (v : Json) × (output ≡ some v) × (conforms parse contract reply ≡ ok v))
    × (code ≢ 0 → output ≡ none)

module _ (parse : List ℕ → Outcome Json String) (contract : Option OutputContract) where
  -- A record that says so.
  pub record IsAnswer (code : ℕ) (reply : String) (output : Option Json) (rec : MessageRecord)
      : Type 0 where
    pub status : rec.status ≡ Message.replied
    pub same_code : unwrap_or 1 rec.code ≡ code
    pub same_reply : unwrap_or "" rec.reply ≡ reply
    pub conforming : Conforms parse contract code reply output

  checked-Conforms :
      (k : OutputContract) (zero_code : ℕ) (text : String) (code : ℕ) (reply : String)
      (output : Option Json)
      → zero_code ≡ 0
      → checked parse zero_code text k.max_repairs (conforms parse k text)
        ≡ Completion.replied code reply output
      → (zero_code ≡ code) × (text ≡ reply) × Conforms parse (some k) code reply output
  checked-Conforms k n text code reply output z h = at (conforms parse k text) refl h
    where
      at :
          (o : Outcome Json (List String))
          → conforms parse k text ≡ o
          → checked parse n text k.max_repairs o ≡ Completion.replied code reply output
          → (n ≡ code) × (text ≡ reply) × Conforms parse (some k) code reply output
      at (ok v) e h =
          let c : n ≡ code = ground arith in
          let r : text ≡ reply = ground arith in
          let o : output ≡ some v = ground arith in
          (c, r, (λ _. (v, o, rw (← r) e), λ n. absurd (n (sym c ∙ z))))
      at (err es) e h = cc

  replied-Conforms :
      (k : Option OutputContract) (n : ℕ) (text : String) (code : ℕ) (reply : String)
      (output : Option Json)
      → replied_completion parse n text k ≡ Completion.replied code reply output
      → (n ≡ code) × (text ≡ reply) × Conforms parse k code reply output
  replied-Conforms none n text code reply output h = (ground arith, ground arith, ground arith)
  replied-Conforms (some k) n text code reply output h = elim (Bool-cases (n == 0)) [
    | inl z ↦ checked-Conforms k n text code reply output ((==_iff n 0).0 z) (rw z at h)
    | inr nz ↦
        let e : Completion.replied n text none ≡ Completion.replied code reply output =
          rw nz at h in
        let c : n ≡ code = ground arith in
        (c, ground arith, (λ z. absurd (ground arith), λ _. ground arith))
  ]

  pub terminal-IsAnswer :
      (rec : MessageRecord) (code : ℕ) (reply : String) (output : Option Json)
      → terminal_completion parse rec contract ≡ some (Completion.replied code reply output)
      → IsAnswer code reply output rec
  unfolding terminal_completion failed_completion
  terminal-IsAnswer rec code reply output h = at rec.status refl h
    where
      at :
          (s : MessageStatus)
          → rec.status ≡ s
          → terminal_at parse s rec contract ≡ some (Completion.replied code reply output)
          → IsAnswer code reply output rec
      at Message.replied e h =
          let (c, r, k) =
            replied-Conforms contract (unwrap_or 1 rec.code) (unwrap_or "" rec.reply) code reply
              output (some-inj h) in
          record { status = e; same_code = c; same_reply = r; conforming = k }
      at working e h = cc
      at done e h = cc
      at Message.failed e h = cc
      at queued e h = cc
      at injected e h = cc
