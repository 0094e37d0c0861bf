-- ===== src/Trigger/Watch/Reports.antt =====
-- core/src/trigger.rs: a kickoff is reported as replied or quiesced only where it was seen to be.
use core_tempo.Common.{
  ℕ, ◌≡◌, ◌≢◌, refl, String, false, List, [], ◌∷◌, Option, none, some, arith, inl, inr, ◌==◌,
  ==_iff, nat_eq, string_eq, Bool-cases, unwrap_or, some-inj, sym,
}
use core_tempo.Common.{or_else}
use core_tempo.Types.Ids.{AgentId, MessageId}
use core_tempo.Types.Json.{Json}
use core_tempo.Types.Config.{state_eq}
use core_tempo.Types.Event.{agent_lifecycle, message_status_changed}
use core_tempo.Types.Message.{
  MessageRecord, MessageKind, kind_eq, MessageStatus, queued, injected, working, done,
}
use core_tempo.Types.Message
use core_tempo.Schema.Check.{OutputContract}
use core_tempo.Workflow.Validate.{Outcome, ok, err}
use core_tempo.Trigger.Outcome.{
  Completion, quiesced, timeout, failed_completion, terminal_completion, terminal_at, Arming, armed,
  never,
}
use core_tempo.Trigger.Watch.{
  Fetch, Received, event, lagged, closed, exit_of, await_arming, Pass, settle_passes,
  await_quiescence, subscribe_all, refused, await_exit, Course, watch_send, drive, outcome,
  watch_completion, await_reply, await_events, ask_received,
}
use core_tempo.Schema.Check.{check as conforms}
use core_tempo.Trigger.Outcome.{checked, replied_completion}
use core_tempo.Trigger.Watch.Arrivals.{
  Some, Seen, Shows, HasArrived, Fails, is_failed, exit_of-Fails, await_arming-Seen,
  await_arming-NeverFails,
}
use core_tempo.Trigger.Watch.Ends.{
  IsStill, settle_passes-Some, settle_passes-no_reply, await_exit-Fails, Fails-ne, either, IsAnswer,
  terminal-IsAnswer,
}

module _ (parse : List ℕ → Outcome Json String) (contract : Option OutputContract) where
  checked-ne :
      (n : ℕ) (text : String) (repairs : ℕ) (o : Outcome Json (List String))
      → checked parse n text repairs o ≢ quiesced
  checked-ne n text repairs (ok v) h = cc
  checked-ne n text repairs (err es) h = cc

  replied-ne :
      (k : Option OutputContract) (n : ℕ) (text : String)
      → replied_completion parse n text k ≢ quiesced
  replied-ne none n text h = cc
  replied-ne (some k) n text h = elim (Bool-cases (n == 0)) [
    | inl z ↦ checked-ne n text k.max_repairs (conforms parse k text) (rw z at h)
    | inr nz ↦ cc (rw nz at h)
  ]

  terminal-ne : (rec : MessageRecord) → terminal_completion parse rec contract ≢ some quiesced
  unfolding terminal_completion failed_completion
  terminal-ne rec h = at rec.status h
    where
      at : (s : MessageStatus) → terminal_at parse s rec contract ≢ some quiesced
      at Message.replied h =
          replied-ne contract (unwrap_or 1 rec.code) (unwrap_or "" rec.reply) (some-inj h)
      at working h = cc
      at done h = cc
      at Message.failed h = cc
      at queued h = cc
      at injected h = cc

  module _ (roster : List AgentId) (id : MessageId) where
    received-ne : (r : Received) → ask_received parse roster id contract r ≢ some quiesced
    received-ne (event (message_status_changed message)) h = elim (Bool-cases (message.id == id)) [
      | inl mine ↦ terminal-ne message (rw mine at h)
      | inr other ↦ cc (rw other at h)
    ]
    received-ne (event (agent_lifecycle a phase exit)) h =
        Fails-ne (exit_of roster a phase) (exit_of-Fails roster a phase) refl h
    received-ne (event _) h = cc
    received-ne (lagged (ok rec)) h = terminal-ne rec h
    received-ne (lagged (err e)) h = cc
    received-ne closed h = cc

    events-ne : (rs : List Received) → await_events parse roster id contract rs ≢ some quiesced
    unfolding await_events
    events-ne [] h = cc
    events-ne (r ∷ rs) h = elim (either (ask_received parse roster id contract r) _ h) [
      | inl first ↦ received-ne r first
      | inr rest ↦ events-ne rs rest
    ]

    await_reply-ne :
        (fetch : Fetch) (rs : List Received)
        → await_reply parse roster id contract fetch rs ≢ some quiesced
    unfolding await_reply
    await_reply-ne (ok rec) rs h = elim (either (terminal_completion parse rec contract) _ h) [
      | inl first ↦ terminal-ne rec first
      | inr rest ↦ events-ne rs rest
    ]
    await_reply-ne (err e) rs h = cc

    module _ (code : ℕ) (reply : String) (output : Option Json) where
      abbrev Answers : MessageRecord → Type 0
      Answers = IsAnswer parse contract code reply output

      abbrev Reply : Completion
      Reply = Completion.replied code reply output

      received-Answers :
          (r : Received) → ask_received parse roster id contract r ≡ some Reply → Shows id r Answers
      received-Answers (event (message_status_changed message)) h =
          elim (Bool-cases (message.id == id)) [
            | inl mine ↦ (
              (==_iff message.id id).0 mine,
              terminal-IsAnswer parse contract message code reply output (rw mine at h),
            )
            | inr other ↦ cc (rw other at h)
          ]
      received-Answers (event (agent_lifecycle a phase exit)) h =
          Fails-ne (exit_of roster a phase) (exit_of-Fails roster a phase) refl h
      received-Answers (event _) h = cc
      received-Answers (lagged (ok rec)) h =
          terminal-IsAnswer parse contract rec code reply output h
      received-Answers (lagged (err e)) h = cc
      received-Answers closed h = cc

      events-answer :
          (rs : List Received)
          → await_events parse roster id contract rs ≡ some Reply
          → Some (λ r. Shows id r Answers) rs
      unfolding await_events
      events-answer [] h = cc
      events-answer (r ∷ rs) h = elim (either (ask_received parse roster id contract r) _ h) [
        | inl first ↦ inl (received-Answers r first)
        | inr rest ↦ inr (events-answer rs rest)
      ]

      await_reply-Seen :
          (fetch : Fetch) (rs : List Received)
          → await_reply parse roster id contract fetch rs ≡ some Reply
          → Seen id fetch rs Answers
      unfolding await_reply
      await_reply-Seen (ok rec) rs h = elim (either (terminal_completion parse rec contract) _ h) [
        | inl first ↦ inl (terminal-IsAnswer parse contract rec code reply output first)
        | inr rest ↦ inr (events-answer rs rest)
      ]
      await_reply-Seen (err e) rs h = cc

outcome-some :
    (o : Option Completion) (c : Completion)
    → elim o [ none ↦ timeout | some completion ↦ completion ] ≡ c
    → c ≢ timeout
    → o ≡ some c
outcome-some none c h n = absurd (n (sym h))
outcome-some (some d) c h n = rw h

refused-Fails :
    (a : AgentId) (refusal : Option String) (rest : Option Completion)
    → Fails rest
    → Fails (or_else (refused a refusal) rest)
refused-Fails a none rest h = h
refused-Fails a (some error) rest h = refl

subscribe_all-Fails :
    (refuses : AgentId → Option String) (roster : List AgentId)
    → Fails (subscribe_all refuses roster)
unfolding subscribe_all
subscribe_all-Fails refuses [] = tt
subscribe_all-Fails refuses (a ∷ roster) =
    refused-Fails a (refuses a) (subscribe_all refuses roster) (subscribe_all-Fails refuses roster)

quiescence-passes :
    (roster : List AgentId) (refuses : AgentId → Option String) (ps : List Pass) (x : Completion)
    → await_quiescence roster refuses ps ≡ some x
    → is_failed x ≡ false
    → settle_passes roster ps ≡ some x
unfolding await_quiescence
quiescence-passes roster refuses ps x h n = elim (either (subscribe_all refuses roster) _ h) [
  | inl refused ↦
      absurd
        (Fails-ne (subscribe_all refuses roster) (subscribe_all-Fails refuses roster) n refused)
  | inr passed ↦ passed
]

module _ (parse : List ℕ → Outcome Json String) (roster : List AgentId)
    (contract : Option OutputContract) (kickoff : MessageRecord) (c : Course) where
  -- What a send's second phase gives is what the passes gave, or a failure.
  send-settled :
      (o : Option Arming) (x : Completion)
      → await_arming roster kickoff.id c.fetch c.events ≡ o
      → watch_send parse roster contract kickoff c o ≡ some x
      → is_failed x ≡ false
      → Seen kickoff.id c.fetch c.events HasArrived × (settle_passes roster c.passes ≡ some x)
  send-settled none x e h n = cc
  send-settled (some (never y)) x e h n =
      let f = rw e at (await_arming-NeverFails roster kickoff.id c.fetch c.events) in
      absurd (ground (arith, some-inj h))
  send-settled (some armed) x e h n =
      let left =
        Fails-ne (await_exit roster c.later_events) (await_exit-Fails roster c.later_events) n in
      let pick = λ (s : await_quiescence roster c.refuses c.passes ≡ some x).
        quiescence-passes roster c.refuses c.passes x s n in
      (
        await_arming-Seen roster kickoff.id c.fetch c.events e,
        elim (Bool-cases c.exit_wins) [
          | inl w ↦ elim (either (await_exit roster c.later_events) _ (rw w at h)) [
            | inl l ↦ absurd (left l)
            | inr s ↦ pick s
          ]
          | inr w ↦ elim (either (await_quiescence roster c.refuses c.passes) _ (rw w at h)) [
            | inl s ↦ pick s
            | inr l ↦ absurd (left l)
          ]
        ],
      )

-- A kickoff is reported as quiesced only where it is no ask, a record of it was seen that shows it taken
-- up, and in one pass every agent of the roster was idle with an empty queue, awaited no reply and had no
-- turn open, none of their states changed in the dwell, and all of that held again.
pub quiesced_is_real :
    (parse : List ℕ → Outcome Json String) (roster : List AgentId)
    (contract : Option OutputContract) (kickoff : MessageRecord) (trigger_id : Option String)
    (c : Course)
    → (watch_completion parse roster contract kickoff trigger_id c).0 ≡ quiesced
    → (kickoff.kind ≢ Message.ask)
      × Seen kickoff.id c.fetch c.events HasArrived
      × Some (IsStill roster) c.passes
unfolding watch_completion outcome drive
quiesced_is_real parse roster contract kickoff trigger_id c h =
    let e = outcome-some (drive parse roster contract kickoff c) quiesced h (λ q. cc) in
    elim (Bool-cases (kickoff.kind == Message.ask)) [
      | inl ask ↦
          absurd (await_reply-ne parse contract roster kickoff.id c.fetch c.events (rw ask at e))
      | inr other ↦
          let (seen, settled) =
            send-settled parse roster contract kickoff c _ quiesced refl (rw other at e) refl in
          (
            λ k. cc (rw ((==_iff kickoff.kind Message.ask).1 k) at other),
            seen,
            settle_passes-Some roster c.passes settled,
          )
    ]

-- A kickoff is reported as replied only where it is an ask and a record of it was seen with this reply;
-- under a contract, a reply with code 0 carries the value that the contract takes, and any other none.
pub replied_is_real :
    (parse : List ℕ → Outcome Json String) (roster : List AgentId)
    (contract : Option OutputContract) (kickoff : MessageRecord) (trigger_id : Option String)
    (c : Course) (code : ℕ) (reply : String) (output : Option Json)
    → (watch_completion parse roster contract kickoff trigger_id c).0
      ≡ Completion.replied code reply output
    → (kickoff.kind ≡ Message.ask)
      × Seen kickoff.id c.fetch c.events (IsAnswer parse contract code reply output)
unfolding watch_completion outcome drive
replied_is_real parse roster contract kickoff trigger_id c code reply output h =
    let e =
      outcome-some (drive parse roster contract kickoff c) (Completion.replied code reply output) h
        (λ q. cc) in
    elim (Bool-cases (kickoff.kind == Message.ask)) [
      | inl ask ↦ (
        (==_iff kickoff.kind Message.ask).0 ask,
        await_reply-Seen parse contract roster kickoff.id code reply output c.fetch c.events
            (rw ask at e),
      )
      | inr other ↦
          let (seen, settled) =
            send-settled parse roster contract kickoff c _ (Completion.replied code reply output)
              refl (rw other at e) refl in
          absurd (settle_passes-no_reply roster c.passes code reply output settled)
    ]
