-- ===== src/Router/Accounts/Moves.antt =====
-- core/src/router/mod.rs: each path of a message to its end, and on its way, keeps the books.
use core_tempo.Common.{Bool, ◌≡◌, refl, true, false, List, [], ◌∷◌, Option, none, some, arith, find}
use core_tempo.Types.Ids.{MessageId, Timestamp}
use core_tempo.Types.Message.{
  MessageRecord, MessageStatus, is_terminal, queued, injected, working, status_eq,
}
use core_tempo.Store.{Row, has_id}
use core_tempo.Store.Rows.{find-has_id}
use core_tempo.Router.State
use core_tempo.Router.State.{
  Moment, Router, Result, ok, err, FailReason, transition, among, settle, settle_updated,
  fail_message, not_terminal, set_failed, from_inject,
}
use core_tempo.Router.Transitions.{
  stays, moves, IsRefusal, transition-Outcome, with_record, among-not_terminal,
}
use core_tempo.Router.Drive.{
  Driver, Signal, acked, refused, dropped, state, drive, drive_phase, Phase, awaiting_injection,
  awaiting_work, awaiting_idle, set_injected, set_working, set_done, watch_if_marked, after_working,
}
use core_tempo.Types.Config.{AgentState, idle, exited}
use core_tempo.Router.Accounts.{Accounts}
use core_tempo.Router.Accounts.Steps.{SameMessage, IsLive, settle-Accounts, update-Accounts}

pub IsLive-of_found :
    (peers : MessageId → Bool) (s : Router) (id : MessageId) (row : Row)
    → Accounts peers s
    → peers id ≡ false
    → find (has_id id) s.store.rows ≡ some row
    → is_terminal row.message.status ≡ false
    → IsLive s row
IsLive-of_found peers s id row books own found going =
    let name = find-has_id id s.store.rows row found in
    record {
      found = simp name found;
      ours = ground (arith, books.apart id, own, found);
      unended = going;
    }

-- A refused change leaves the state alone, and nothing is settled.
pub settle_refused :
    (s : Router) (res : Result (Option MessageRecord)) → IsRefusal res → settle_updated (s, res) ≡ s
settle_refused s (ok none) h = refl
settle_refused s (ok (some rec)) h = absurd h
settle_refused s (err e) h = refl

-- A change that leaves a message's identity alone.
abbrev pub KeepsMessage : (MessageRecord → MessageRecord) → Type 0
KeepsMessage mutate = (rec : MessageRecord) → SameMessage (mutate rec) rec

module _ (peers : MessageId → Bool) (s : Router) (now : Moment) (id : MessageId)
    (own : peers id ≡ false) (allowed : List MessageStatus) (mutate : MessageRecord → MessageRecord)
    (books : Accounts peers s)
    (going : (m : MessageStatus) → among m allowed ≡ true → is_terminal m ≡ false)
    (same : KeepsMessage mutate) where
  pub ends-Accounts :
      ((rec : MessageRecord) → is_terminal (mutate rec).status ≡ true)
      → Accounts peers (settle_updated (transition s now id allowed mutate))
  ends-Accounts ended = elim (transition-Outcome s now id allowed mutate) [
    | stays res refusal e ↦ rw e (rw (settle_refused s res refusal) books)
    | moves row found allow e ↦ rw e (
        settle-Accounts peers s (with_record s now (mutate row.message)).bus row
          (mutate row.message) books
          (IsLive-of_found peers s id row books own found (going row.message.status allow))
          (same row.message) (ended row.message))
  ]

  pub keeps-Accounts :
      ((rec : MessageRecord) → is_terminal (mutate rec).status ≡ false)
      → Accounts peers (transition s now id allowed mutate).0
  keeps-Accounts open_still = elim (transition-Outcome s now id allowed mutate) [
    | stays res refusal e ↦ rw e books
    | moves row found allow e ↦ rw e (
        update-Accounts peers s (with_record s now (mutate row.message)).bus row
          (mutate row.message) books
          (IsLive-of_found peers s id row books own found (going row.message.status allow))
          (same row.message) (open_still row.message))
  ]

pub fail_message-Accounts :
    (peers : MessageId → Bool) (s : Router) (now : Moment) (id : MessageId) (reason : FailReason)
    → peers id ≡ false
    → Accounts peers s
    → Accounts peers (fail_message s now id reason)
unfolding fail_message
fail_message-Accounts peers s now id reason own books =
    ends-Accounts peers s now id own not_terminal (set_failed now reason) books among-not_terminal
      (λ rec. record { id = refl; kind = refl; from = refl; to = refl }) (λ rec. refl)

pub watch_if_marked-state :
    (d : Driver) (r : Router × Result (Option MessageRecord)) → (watch_if_marked d r).0 ≡ r.0
watch_if_marked-state d (s, ok none) = refl
watch_if_marked-state d (s, ok (some rec)) = refl
watch_if_marked-state d (s, err e) = refl

pub after_working-state :
    (d : Driver) (r : Router × Result (Option MessageRecord)) → (after_working d r).0 ≡ r.0
after_working-state d (s, ok marked) = refl
after_working-state d (s, err e) = refl

module _ (peers : MessageId → Bool) (s : Router) (now : Moment) (d : Driver)
    (own : peers d.id ≡ false) (books : Accounts peers s) where
  marked_Accounts :
      (at : Timestamp) → Accounts peers (transition s now d.id (queued ∷ []) (set_injected at)).0
  marked_Accounts at =
      keeps-Accounts peers s now d.id own (queued ∷ []) (set_injected at) books
        (λ m h. ground arith) (λ rec. record { id = refl; kind = refl; from = refl; to = refl })
        (λ rec. refl)

  working_Accounts : Accounts peers (transition s now d.id (injected ∷ []) set_working).0
  working_Accounts =
      keeps-Accounts peers s now d.id own (injected ∷ []) set_working books (λ m h. ground arith)
        (λ rec. record { id = refl; kind = refl; from = refl; to = refl }) (λ rec. refl)

  done_Accounts :
      Accounts peers
        (settle_updated (transition s now d.id (injected ∷ working ∷ []) (set_done now)))
  done_Accounts =
      ends-Accounts peers s now d.id own (injected ∷ working ∷ []) (set_done now) books
        (λ m h. ground arith) (λ rec. record { id = refl; kind = refl; from = refl; to = refl })
        (λ rec. refl)

  drive_phase-Accounts :
      (p : Phase) (signal : Signal) → Accounts peers (drive_phase p s now d signal).0
  drive_phase-Accounts awaiting_injection (acked at) =
      rw (watch_if_marked-state d (transition s now d.id (queued ∷ []) (set_injected at)))
        (marked_Accounts at)
  drive_phase-Accounts awaiting_injection (refused e) =
      fail_message-Accounts peers s now d.id (from_inject e) own books
  drive_phase-Accounts awaiting_injection dropped =
      fail_message-Accounts peers s now d.id (State.exited d.to) own books
  drive_phase-Accounts awaiting_work (state AgentState.working) =
      rw (after_working-state d (transition s now d.id (injected ∷ []) set_working))
        working_Accounts
  drive_phase-Accounts awaiting_work (state exited) =
      fail_message-Accounts peers s now d.id (State.exited d.to) own books
  drive_phase-Accounts awaiting_idle (state idle) = done_Accounts
  drive_phase-Accounts awaiting_idle (state exited) =
      fail_message-Accounts peers s now d.id (State.exited d.to) own books
  drive_phase-Accounts _ _ = books

-- Whatever a driver is waiting for and whatever reaches it, the books stay right.
pub drive-Accounts :
    (peers : MessageId → Bool) (s : Router) (now : Moment) (d : Driver) (signal : Signal)
    → peers d.id ≡ false
    → Accounts peers s
    → Accounts peers (drive s now d signal).0
unfolding drive
drive-Accounts peers s now d signal own books =
    drive_phase-Accounts peers s now d own books d.phase signal
