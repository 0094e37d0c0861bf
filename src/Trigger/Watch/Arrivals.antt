-- ===== src/Trigger/Watch/Arrivals.antt =====
-- core/src/trigger.rs: phase 1 of a send ends when the agent has seen the kickoff, or in a failure.
use core_tempo.Common.{
  ◌⊎◌, ◌≡◌, refl, Bool, true, false, List, [], ◌∷◌, Option, none, some, inl, inr, ◌==◌, ==_iff,
  nat_eq, string_eq, or_else, Bool-cases,
}
use core_tempo.Common.KeySet.{member}
use core_tempo.Types.Ids.{AgentId, MessageId}
use core_tempo.Types.Config.{state_eq}
use core_tempo.Types.Event.{agent_lifecycle, message_status_changed, LifecyclePhase}
use core_tempo.Types.Message.{
  MessageRecord, MessageKind, kind_eq, MessageStatus, queued, injected, working, done,
}
use core_tempo.Types.Message
use core_tempo.Workflow.Validate.{ok, err}
use core_tempo.Trigger.Outcome.{
  Completion, quiesced, timeout, failed_completion, Arming, armed, never, arming, arming_at,
}
use core_tempo.Trigger.Watch.{
  Fetch, Received, event, lagged, closed, exit_of, never_after, arming_received,
  await_arming_events, await_arming,
}

abbrev pub Some {ℓ} : {A : Type ℓ} → (A → Type 0) → List A → Type 0
Some P [] = ⊥
Some P (x ∷ xs) = P x ⊎ Some P xs

-- A record of the kickoff that shows that the agent has seen it.
abbrev pub HasArrived : MessageRecord → Type 0
HasArrived rec = (rec.status ≡ working) ⊎ ((rec.status ≡ done) ⊎ (rec.status ≡ Message.replied))

-- Such a record was read, or came with an event.
abbrev pub Shows : MessageId → Received → (MessageRecord → Type 0) → Type 0
Shows id (event (message_status_changed message)) P = (message.id ≡ id) × P message
Shows id (lagged (ok rec)) P = P rec
Shows id _ P = ⊥

abbrev pub Fetched : Fetch → (MessageRecord → Type 0) → Type 0
Fetched (ok rec) P = P rec
Fetched (err e) P = ⊥

abbrev pub Seen : MessageId → Fetch → List Received → (MessageRecord → Type 0) → Type 0
Seen id fetch events P = Fetched fetch P ⊎ Some (λ r. Shows id r P) events

abbrev pub is_failed : Completion → Bool
is_failed (Completion.failed reason code) = true
is_failed (Completion.replied code reply output) = false
is_failed quiesced = false
is_failed timeout = false

-- What is found, if anything, is a failure.
abbrev pub Fails : Option Completion → Type 0
Fails none = Unit {0}
Fails (some c) = is_failed c ≡ true

abbrev pub NeverFails : Option Arming → Type 0
NeverFails none = Unit {0}
NeverFails (some armed) = Unit {0}
NeverFails (some (never c)) = is_failed c ≡ true

pub exit_of-Fails :
    (roster : List AgentId) (a : AgentId) (phase : LifecyclePhase) → Fails (exit_of roster a phase)
exit_of-Fails roster a LifecyclePhase.exited = elim (Bool-cases (member a roster)) [
  | inl m ↦ rw m refl
  | inr n ↦ rw n tt
]
exit_of-Fails roster a LifecyclePhase.spawned = tt
exit_of-Fails roster a LifecyclePhase.restarting = tt

arming-arrived : (rec : MessageRecord) → arming rec ≡ some armed → HasArrived rec
unfolding arming
arming-arrived rec h = at rec.status refl h
  where
    at : (s : MessageStatus) → rec.status ≡ s → arming_at s rec ≡ some armed → HasArrived rec
    at working e h = inl e
    at done e h = inr (inl e)
    at Message.replied e h = inr (inr e)
    at Message.failed e h = cc
    at queued e h = cc
    at injected e h = cc

arming-NeverFails : (rec : MessageRecord) → NeverFails (arming rec)
unfolding arming failed_completion
arming-NeverFails rec = at rec.status
  where
    at : (s : MessageStatus) → NeverFails (arming_at s rec)
    at working = tt
    at done = tt
    at Message.replied = tt
    at Message.failed = refl
    at queued = tt
    at injected = tt

never_after-NeverFails : (o : Option Completion) → Fails o → NeverFails (never_after o)
never_after-NeverFails none h = tt
never_after-NeverFails (some c) h = h

or_else-NeverFails : (e f : Option Arming) → NeverFails e → NeverFails f → NeverFails (or_else e f)
or_else-NeverFails none f a b = b
or_else-NeverFails (some x) f a b = a

module _ (roster : List AgentId) (id : MessageId) where
  abbrev Arrives : Received → Type 0
  Arrives r = Shows id r HasArrived

  received-Arrives : (r : Received) → arming_received roster id r ≡ some armed → Arrives r
  received-Arrives (event (message_status_changed message)) h =
      elim (Bool-cases (message.id == id)) [
        | inl mine ↦ ((==_iff message.id id).0 mine, arming-arrived message (rw mine at h))
        | inr other ↦ cc (rw other at h)
      ]
  received-Arrives (event (agent_lifecycle a phase exit)) h = go (exit_of roster a phase) h
    where
      go : (o : Option Completion) → never_after o ≡ some armed → ⊥
      go none h = cc
      go (some c) h = cc
  received-Arrives (event _) h = cc
  received-Arrives (lagged (ok rec)) h = arming-arrived rec h
  received-Arrives (lagged (err e)) h = cc
  received-Arrives closed h = cc

  arms :
      (e : Option Arming) (f : Option Arming)
      → or_else e f ≡ some armed
      → ((e ≡ some armed) ⊎ (f ≡ some armed))
  arms none f h = inr h
  arms (some a) f h = inl h

  events-arrive :
      (rs : List Received) → await_arming_events roster id rs ≡ some armed → Some Arrives rs
  unfolding await_arming_events
  events-arrive [] h = cc
  events-arrive (r ∷ rs) h = elim (arms (arming_received roster id r) _ h) [
    | inl first ↦ inl (received-Arrives r first)
    | inr rest ↦ inr (events-arrive rs rest)
  ]

  pub await_arming-Seen :
      (fetch : Fetch) (rs : List Received)
      → await_arming roster id fetch rs ≡ some armed
      → Seen id fetch rs HasArrived
  unfolding await_arming
  await_arming-Seen (ok rec) rs h = elim (arms (arming rec) _ h) [
    | inl first ↦ inl (arming-arrived rec first)
    | inr rest ↦ inr (events-arrive rs rest)
  ]
  await_arming-Seen (err e) rs h = cc

  received-NeverFails : (r : Received) → NeverFails (arming_received roster id r)
  received-NeverFails (event (message_status_changed message)) =
      elim (Bool-cases (message.id == id)) [
        | inl mine ↦ rw mine (arming-NeverFails message)
        | inr other ↦ rw other tt
      ]
  received-NeverFails (event (agent_lifecycle a phase exit)) =
      never_after-NeverFails (exit_of roster a phase) (exit_of-Fails roster a phase)
  received-NeverFails (event _) = tt
  received-NeverFails (lagged (ok rec)) = arming-NeverFails rec
  received-NeverFails (lagged (err e)) = refl
  received-NeverFails closed = refl

  events-NeverFails : (rs : List Received) → NeverFails (await_arming_events roster id rs)
  unfolding await_arming_events
  events-NeverFails [] = tt
  events-NeverFails (r ∷ rs) =
      or_else-NeverFails (arming_received roster id r) (await_arming_events roster id rs)
        (received-NeverFails r) (events-NeverFails rs)

  -- Phase 1 ends a watch only by a failure.
  pub await_arming-NeverFails :
      (fetch : Fetch) (rs : List Received) → NeverFails (await_arming roster id fetch rs)
  unfolding await_arming
  await_arming-NeverFails (ok rec) rs =
      or_else-NeverFails (arming rec) _ (arming-NeverFails rec) (events-NeverFails rs)
  await_arming-NeverFails (err e) rs = refl
