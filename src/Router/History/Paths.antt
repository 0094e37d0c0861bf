-- ===== src/Router/History/Paths.antt =====
-- core/src/router/mod.rs: the calls that write to the table, and what they leave of its rows.
use core_tempo.Common.{
  is_some, ℕ, ◌≡◌, refl, ◌∙◌, inl, inr, Bool, true, false, List, [], ◌∷◌, ◌++◌, Option, none, some,
  arith, find, leb, ltb, ◌==◌, string_eq, ==_iff, Bool-cases, if◌then◌else◌, String, any,
}
use core_tempo.Common.Dict
use core_tempo.Types.Ids.{AgentId, MessageId, FlowName}
use core_tempo.Types.Message.{
  MessageRecord, MessageKind, send, kind_eq, MessageStatus, Origin, agent, user, http, trigger,
  is_terminal, queued, injected, working, status_eq,
}
use core_tempo.Store.{Row, Store, has_id, update_rows, update_message, insert_message}
use core_tempo.Store
use core_tempo.Store.Rows.{
  find-has_id, find-append, find_of_absent, update_message-eq_ok, insert_message-eq_ok,
}
use core_tempo.Store.Reads.{missing, present, corrupt, get_message-Lookup}
use core_tempo.Types.Config.{AgentState, idle, exited}
use core_tempo.Router.State
use core_tempo.Router.State.{
  Moment, Router, Result, ok, err, RouterError, FailReason, transition, among, settle,
  settle_updated, already_replied, fail_message, not_terminal, set_failed, from_inject,
}
use core_tempo.Router.Transitions.{stays, moves, transition-Outcome, with_record}
use core_tempo.Router.Drive.{
  Driver, Signal, acked, refused, dropped, state, drive, drive_phase, Phase, awaiting_injection,
  awaiting_work, awaiting_idle, set_injected, set_working, set_done,
}
use core_tempo.Router.Create.{record_met, count_round, new_record, inserted, create, admit}
use core_tempo.Router.Reply.{
  gate_origin, reject_off_schema, fire_reply_sink, set_replied, persisted, accept_reply, reply_by,
  reply_from, reply_found, reply, is_identical,
}
use core_tempo.Router.Accounts.Settle.{settle-store}
use core_tempo.Router.Accounts.Same.{
  SameBooks, record_met-SameBooks, count_round-SameBooks, arm-SameBooks,
}
use core_tempo.Router.Accounts.Replies.{gate_origin-SameBooks, fire_to-SameBooks}
use core_tempo.Router.Accounts.Moves.{watch_if_marked-state, after_working-state, settle_refused}
use core_tempo.Router.History.{
  Extends, Extends-refl, Extends-trans, Follows-refl, rank, update-Extends,
}

abbrev pub Keeps : Router → Router → Type 0
Keeps s t = Extends t.store.rows s.store.rows

pub Keeps-of_SameBooks : (s t : Router) → SameBooks s t → Keeps s t
Keeps-of_SameBooks s t b = rw b.store (Extends-refl s.store.rows)

-- The status that a mutation sets is one that the allowed states may go to.
abbrev pub Onward : List MessageStatus → (MessageRecord → MessageRecord) → Type 0
Onward allowed mutate =
    (r : MessageRecord)
    → among r.status allowed ≡ true
    → (is_terminal r.status ≡ false) × (leb (rank r.status) (rank (mutate r).status) ≡ true)

module _ (s : Router) (now : Moment) (id : MessageId) (allowed : List MessageStatus)
    (mutate : MessageRecord → MessageRecord) (onward : Onward allowed mutate)
    (same_id : (r : MessageRecord) → (mutate r).id ≡ r.id) where
  changed_Keeps :
      (row : Row)
      → find (has_id id) s.store.rows ≡ some row
      → among row.message.status allowed ≡ true
      → Extends (update_rows (mutate row.message) s.store.rows) s.store.rows
  changed_Keeps row found allow =
      let name = find-has_id id s.store.rows row found in
      update-Extends (mutate row.message) s.store.rows row
        (rw (same_id row.message) (simp name found)) (onward row.message allow).0
        (onward row.message allow).1

  pub transition-Keeps : Keeps s (transition s now id allowed mutate).0
  transition-Keeps = elim (transition-Outcome s now id allowed mutate) [
    | stays res refusal e ↦ rw e (Extends-refl s.store.rows)
    | moves row found allow e ↦ rw e (changed_Keeps row found allow)
  ]

  pub settle_transition-Keeps : Keeps s (settle_updated (transition s now id allowed mutate))
  settle_transition-Keeps = elim (transition-Outcome s now id allowed mutate) [
    | stays res refusal e ↦ rw e (rw (settle_refused s res refusal) (Extends-refl s.store.rows))
    | moves row found allow e ↦ rw e (
        rw (settle-store (with_record s now (mutate row.message)) (mutate row.message))
          (changed_Keeps row found allow))
  ]

pub fail_message-Keeps :
    (s : Router) (now : Moment) (id : MessageId) (reason : FailReason)
    → Keeps s (fail_message s now id reason)
unfolding fail_message
fail_message-Keeps s now id reason =
    settle_transition-Keeps s now id not_terminal (set_failed now reason) (λ r h. ground arith)
      (λ r. refl)

module _ (s : Router) (now : Moment) (d : Driver) where
  drive_phase-Keeps : (p : Phase) (signal : Signal) → Keeps s (drive_phase p s now d signal).0
  drive_phase-Keeps awaiting_injection (acked at) =
      rw (watch_if_marked-state d (transition s now d.id (queued ∷ []) (set_injected at))) (
        transition-Keeps s now d.id (queued ∷ []) (set_injected at) (λ r h. ground arith)
          (λ r. refl))
  drive_phase-Keeps awaiting_injection (refused e) = fail_message-Keeps s now d.id (from_inject e)
  drive_phase-Keeps awaiting_injection dropped = fail_message-Keeps s now d.id (State.exited d.to)
  drive_phase-Keeps awaiting_work (state AgentState.working) =
      rw (after_working-state d (transition s now d.id (injected ∷ []) set_working))
        (transition-Keeps s now d.id (injected ∷ []) set_working (λ r h. ground arith) (λ r. refl))
  drive_phase-Keeps awaiting_work (state exited) = fail_message-Keeps s now d.id (State.exited d.to)
  drive_phase-Keeps awaiting_idle (state idle) =
      settle_transition-Keeps s now d.id (injected ∷ working ∷ []) (set_done now)
        (λ r h. ground arith) (λ r. refl)
  drive_phase-Keeps awaiting_idle (state exited) = fail_message-Keeps s now d.id (State.exited d.to)
  drive_phase-Keeps _ _ = Extends-refl s.store.rows

pub drive-Keeps :
    (s : Router) (now : Moment) (d : Driver) (signal : Signal) → Keeps s (drive s now d signal).0
unfolding drive
drive-Keeps s now d signal = drive_phase-Keeps s now d d.phase signal

append-Extends :
    (rows : List Row) (row : Row)
    → any (has_id row.message.id) rows ≡ false
    → Extends (rows ++ row ∷ []) rows
append-Extends rows row new id old found = record {
  later = old;
  found =
      rw (find-append id rows row new)
        (ground (arith, ==_iff row.message.id id, find_of_absent row.message.id rows new));
  follows = Follows-refl old;
}

admit-store :
    (s : Router) (now : Moment) (rec : MessageRecord) (flow : Option FlowName)
    → (admit s now rec flow).store ≡ s.store
unfolding admit
admit-store s now rec flow = (arm-SameBooks rec _).store ∙ ground arith

inserted-Keeps :
    (s : Router) (now : Moment) (rec : MessageRecord) (flow : Option FlowName)
    (res : Store.Result Store)
    → insert_message s.store rec ≡ res
    → Keeps s (inserted s now rec flow res).0
inserted-Keeps s now rec flow (Store.err e) tried = Extends-refl s.store.rows
inserted-Keeps s now rec flow (Store.ok st) tried =
    let (new, grown) = insert_message-eq_ok s.store rec tried in
    rw grown (
      rw
        (admit-store
          (record s {
            store = record (s.store) {
              rows = s.store.rows ++ record { message = rec; run_id = some s.store.run_id } ∷ [];
            };
          })
          now rec flow)
        (append-Extends s.store.rows (record { message = rec; run_id = some s.store.run_id }) new))

pub create-Keeps :
    (s : Router) (now : Moment) (id : MessageId) (from : Origin) (to : AgentId) (kind : MessageKind)
    (body : String) (flow : Option FlowName)
    → Keeps s (create s now id from to kind body flow).0
unfolding create
create-Keeps s now id from to kind body flow =
    let rec = new_record id now from to kind body in
    let met = record_met from to kind s in
    let t = count_round from to kind met in
    elim (Bool-cases (is_some (Dict.lookup to s.workflow.agents))) [
      | inr unknown ↦ rw unknown (Extends-refl s.store.rows)
      | inl known ↦
          let kept = inserted-Keeps t now rec flow (insert_message t.store rec) refl in
          rw known (
            Extends-trans _ t.store.rows s.store.rows
              (Extends-trans t.store.rows met.store.rows s.store.rows
                (Keeps-of_SameBooks s met (record_met-SameBooks from to kind s))
                (Keeps-of_SameBooks met t (count_round-SameBooks from to kind met)))
              kept)
    ]

module _ (now : Moment) (row : Row) (replier : AgentId) (code : ℕ) (body : String) where
  answered : MessageRecord
  answered = set_replied now code body row.message

  persisted-Keeps :
      (s : Router) (id : MessageId)
      → find (has_id id) s.store.rows ≡ some row
      → is_terminal row.message.status ≡ false
      → (res : Store.Result (Store × Bool)) → update_message s.store answered ≡ res
      → Keeps s (persisted s now answered replier code body res).0
  unfolding answered fire_reply_sink
  persisted-Keeps s id found going (Store.err e) tried = Extends-refl s.store.rows
  persisted-Keeps s id found going (Store.ok (st, matched)) tried =
      let t = record s { store = record (s.store) { rows = update_rows answered s.store.rows } } in
      let name = find-has_id id s.store.rows row found in
      rw (update_message-eq_ok s.store answered tried) (
        rw ((fire_to-SameBooks _ answered replier code body row.message.from).store) (
          rw (settle-store t answered) (
            update-Extends answered s.store.rows row (simp name found) going
              (ground (arith, going)))))

  accept_reply-Keeps :
      (s : Router) (id : MessageId) (rejection : Option RouterError)
      → find (has_id id) s.store.rows ≡ some row
      → is_terminal row.message.status ≡ false
      → Keeps s (accept_reply now row.message replier code body (s, rejection)).0
  unfolding answered
  accept_reply-Keeps s id (some rejection) found going = Extends-refl s.store.rows
  accept_reply-Keeps s id none found going = persisted-Keeps s id found going _ refl

  again : Bool → Router → Router × Result MessageRecord
  again identical s =
      if identical then (s, ok row.message) else (s, err (already_replied row.message.id))

  repeated-Keeps : (s : Router) (identical : Bool) → Keeps s (again identical s).0
  unfolding again
  repeated-Keeps s true = Extends-refl s.store.rows
  repeated-Keeps s false = Extends-refl s.store.rows

  reply_by-Keeps :
      (s : Router) (id : MessageId)
      → find (has_id id) s.store.rows ≡ some row
      → Keeps s (reply_by s now row.message replier code body).0
  unfolding reject_off_schema again
  reply_by-Keeps s id found = elim (Bool-cases (replier == row.message.to)) [
    | inr stranger ↦ rw stranger (Extends-refl s.store.rows)
    | inl addressee ↦ elim (Bool-cases (is_terminal row.message.status)) [
      | inl ended ↦ rw (addressee, ended) (repeated-Keeps s (is_identical row.message code body))
      | inr going ↦
          let gated = gate_origin s now row.message code body row.message.from in
          let same = gate_origin-SameBooks s now row.message code body row.message.from in
          rw (addressee, going)
            (Extends-trans _ gated.0.store.rows s.store.rows (Keeps-of_SameBooks s gated.0 same)
              (accept_reply-Keeps gated.0 id gated.1 (rw same.store found) going))
    ]
  ]

reply_from-Keeps :
    (s : Router) (now : Moment) (replier : Origin) (id : MessageId) (row : Row) (code : ℕ)
    (body : String)
    → find (has_id id) s.store.rows ≡ some row
    → Keeps s (reply_from s now replier row.message code body).0
reply_from-Keeps s now (agent a) id row code body found =
    reply_by-Keeps now row a code body s id found
reply_from-Keeps s now user id row code body found = Extends-refl s.store.rows
reply_from-Keeps s now (http req) id row code body found = Extends-refl s.store.rows
reply_from-Keeps s now (trigger origin) id row code body found = Extends-refl s.store.rows

pub reply-Keeps :
    (s : Router) (now : Moment) (replier : Origin) (id : MessageId) (code : ℕ) (body : String)
    → Keeps s (reply s now replier id code body).0
unfolding reply
reply-Keeps s now replier id code body = elim (Bool-cases (ltb 1 code)) [
  | inl bad ↦ rw bad (Extends-refl s.store.rows)
  | inr good ↦ elim (get_message-Lookup s.store id) [
    | missing e got ↦ rw (good, got, reply_found) (Extends-refl s.store.rows)
    | corrupt row got ↦ rw (good, got, reply_found) (Extends-refl s.store.rows)
    | present row found got ↦ elim (Bool-cases (row.message.kind == send)) [
      | inl is_send ↦ rw (good, got, reply_found, is_send) (Extends-refl s.store.rows)
      | inr is_ask ↦
          rw (good, got, reply_found, is_ask)
            (reply_from-Keeps s now replier id row code body found)
    ]
  ]
]
