-- ===== src/Router/Reply/Once.antt =====
-- core/src/router/mod.rs: an ask is answered once. What a reply does that comes again, at once or after
-- any other calls.
use core_tempo.Common.{
  ℕ, ◌≡◌, refl, ap, ◌∙◌, inl, inr, Bool, true, false, List, Option, none, some, arith, find, ltb,
  ◌==◌, string_eq, nat_eq, option_eq, ==_iff, ==_refl, Bool-cases, if◌then◌else◌, String, ◌&&◌,
}
use core_tempo.Types.Ids.{AgentId, MessageId}
use core_tempo.Types.Message.{
  MessageRecord, ask, send, kind_eq, agent, is_terminal, replied, status_eq,
}
use core_tempo.Types.Message.RoundTrip.{HasPayload}
use core_tempo.Store.{Row, Store, has_id, update_rows, set_columns, update_message, get_message}
use core_tempo.Store
use core_tempo.Store.Rows.{find-has_id, find-update_rows, update_message-eq_ok}
use core_tempo.Store.Reads.{missing, present, corrupt, get_message-Lookup, to_record-raw_row}
use core_tempo.Router.State
use core_tempo.Types.Event
use core_tempo.Router.State.{Moment, Router, Result, ok, err, RouterError, already_replied, settle}
use core_tempo.Router.Reply.{
  gate_origin, reject_off_schema, fire_reply_sink, set_replied, persisted, accept_reply, reply_by,
  reply_found, reply, is_identical,
}
use core_tempo.Router.Steps.{Call, run}
use core_tempo.Router.Accounts.Settle.{settle-store}
use core_tempo.Router.Accounts.Same.{SameBooks}
use core_tempo.Router.Accounts.Replies.{gate_origin-SameBooks, fire_to-SameBooks}
use core_tempo.Router.History.Run.{run-Extends}

-- The table holds the answer: an ask to the replier, under the identifier, replied with this code and body.
pub record Answered (s : Router) (replier : AgentId) (id : MessageId) (code : ℕ) (body : String)
    (rec : MessageRecord) : Type 0 where
  pub row : Row
  pub found : find (has_id id) s.store.rows ≡ some row
  pub same : row.message ≡ rec
  pub is_ask : (rec.kind == ask) ≡ true
  pub addressee : (replier == rec.to) ≡ true
  pub given : is_identical rec code body ≡ true

pub get_message_readable :
    (s : Store) (id : MessageId) (row : Row)
    → find (has_id id) s.rows ≡ some row
    → HasPayload row.message.from
    → get_message s id ≡ Store.ok (some row.message)
unfolding get_message
get_message_readable s id row found payload = rw (found, get_message, to_record-raw_row row payload)

-- An ended ask, replied to by its addressee with a code of 0 or 1: the state stays, and the answer is the
-- record itself if it was replied with this very code and body, else `already_replied`.
pub reply_ended :
    (s : Router) (now : Moment) (id : MessageId) (row : Row) (code : ℕ) (body : String)
    → find (has_id id) s.store.rows ≡ some row
    → HasPayload row.message.from
    → (row.message.kind == ask) ≡ true
    → is_terminal row.message.status ≡ true
    → ltb 1 code ≡ false
    → reply s now (agent row.message.to) id code body
      ≡ (s, if is_identical row.message code body then ok row.message else err (already_replied id))
unfolding reply
reply_ended s now id row code body found payload is_ask ended valid =
    let got = get_message_readable s.store id row found payload in
    let name = find-has_id id s.store.rows row found in
    rw (valid, got, reply_found, ==_refl row.message.to, ended) (ground (arith, is_ask, name))

module _ (now : Moment) (row : Row) (replier : AgentId) (id : MessageId) (code : ℕ) (body : String)
    (addressee : (replier == row.message.to) ≡ true)
    (is_ask : (row.message.kind == ask) ≡ true) where
  answered : MessageRecord
  answered = set_replied now code body row.message

  fired : Router → Router
  unfolding answered
  fired s =
      fire_reply_sink
        (State.publish
          (settle
            (record s { store = record (s.store) { rows = update_rows answered s.store.rows } })
            answered)
          now (Event.message_status_changed answered))
        answered replier code body

  fired-Answered :
      (s : Router)
      → find (has_id id) s.store.rows ≡ some row
      → Answered (fired s) replier id code body answered
  unfolding fired answered fire_reply_sink
  fired-Answered s found =
      let name = find-has_id id s.store.rows row found in
      let t = record s { store = record (s.store) { rows = update_rows answered s.store.rows } } in
      record {
        row = set_columns answered row;
        found = rw ((fire_to-SameBooks _ answered replier code body row.message.from).store) (
            rw (settle-store t answered) (
              rw (find-update_rows id answered s.store.rows, found)
                (ground (arith, name, ==_iff row.message.id id))));
        same = refl;
        is_ask = is_ask;
        addressee = addressee;
        given = ground (arith, ==_refl code, ==_refl body);
      }

  persisted-Answered :
      (s t : Router) (rec : MessageRecord)
      → find (has_id id) s.store.rows ≡ some row
      → (res : Store.Result (Store × Bool)) → update_message s.store answered ≡ res
      → persisted s now answered replier code body res ≡ (t, ok rec)
      → Answered t replier id code body rec
  unfolding fired answered
  persisted-Answered s t rec found (Store.err e) tried h = absurd (ground (arith, h))
  persisted-Answered s t rec found (Store.ok (st, matched)) tried h =
      let e = update_message-eq_ok s.store answered tried in
      let told : (fired s, ok answered) ≡ (t, ok rec) = rw e at h in
      let same : (fired s ≡ t) × (answered ≡ rec) = ground (arith, told) in
      rw⁻¹ (same.0, same.1) (fired-Answered s found)

  reply_by-Answered :
      (s t : Router) (rec : MessageRecord)
      → find (has_id id) s.store.rows ≡ some row
      → reply_by s now row.message replier code body ≡ (t, ok rec)
      → Answered t replier id code body rec
  unfolding reject_off_schema answered
  reply_by-Answered s t rec found h = elim (Bool-cases (is_terminal row.message.status)) [
    | inl ended ↦ elim (Bool-cases (is_identical row.message code body)) [
      | inr other ↦ absurd (ground (arith, rw (addressee, ended, other) at h))
      | inl given ↦
          let told : (s, ok row.message) ≡ (t, ok rec) = rw (addressee, ended, given) at h in
          let same : (s ≡ t) × (row.message ≡ rec) = ground (arith, told) in
          rw⁻¹ (same.0, same.1)
            (record {
              row = row;
              found = found;
              same = refl;
              is_ask = is_ask;
              addressee = addressee;
              given = given;
            })
    ]
    | inr going ↦
        let b = gate_origin-SameBooks s now row.message code body row.message.from in
        gated (gate_origin s now row.message code body row.message.from).0
          (gate_origin s now row.message code body row.message.from).1 b
          (rw (addressee, going) at h)
  ]
    where
      gated :
          (u : Router) (rejection : Option RouterError)
          → SameBooks s u
          → accept_reply now row.message replier code body (u, rejection) ≡ (t, ok rec)
          → Answered t replier id code body rec
      gated u (some e) b h = absurd (ground (arith, h))
      gated u none b h = persisted-Answered u t rec (rw b.store found) _ refl h

-- An accepted reply is in the table afterwards.
pub reply-Answered :
    (s t : Router) (now : Moment) (replier : AgentId) (id : MessageId) (code : ℕ) (body : String)
    (rec : MessageRecord)
    → reply s now (agent replier) id code body ≡ (t, ok rec)
    → Answered t replier id code body rec
unfolding reply
reply-Answered s t now replier id code body rec h = elim (Bool-cases (ltb 1 code)) [
  | inl bad ↦ absurd (ground (arith, rw bad at h))
  | inr good ↦ elim (get_message-Lookup s.store id) [
    | missing e got ↦ absurd (ground (arith, rw (good, got, reply_found) at h))
    | corrupt row got ↦ absurd (ground (arith, rw (good, got, reply_found) at h))
    | present row found got ↦ elim (Bool-cases (row.message.kind == send)) [
      | inl is_send ↦ absurd (ground (arith, rw (good, got, reply_found, is_send) at h))
      | inr is_ask ↦ elim (Bool-cases (replier == row.message.to)) [
        | inr stranger ↦ absurd (ground (arith, rw (good, got, reply_found, is_ask, stranger) at h))
        | inl addressee ↦
            reply_by-Answered now row replier id code body addressee (ground (arith, is_ask)) s t
              rec found (rw (good, got, reply_found, is_ask) at h)
      ]
    ]
  ]
]

run-Answered :
    (t : Router) (calls : List (Moment × Call)) (replier : AgentId) (id : MessageId) (code : ℕ)
    (body : String) (rec : MessageRecord)
    → Answered t replier id code body rec
    → Answered (run t calls) replier id code body rec
run-Answered t calls replier id code body rec a =
    let kept = run-Extends t calls id a.row a.found in
    let given = a.given in
    let ended : is_terminal rec.status ≡ true = ground (arith, given) in
    record {
      row = a.row;
      found = kept.found ∙ ap some (kept.follows.final (rw a.same ended));
      same = a.same;
      is_ask = a.is_ask;
      addressee = a.addressee;
      given = a.given;
    }

identical_to :
    (rec : MessageRecord) (code again : ℕ) (body text : String)
    → is_identical rec code body ≡ true
    → is_identical rec again text ≡ (code == again && body == text)
identical_to rec code again body text h =
    let same : (rec.code ≡ some code) × (rec.reply ≡ some body) × (rec.status == replied ≡ true) =
      ground (arith, ==_iff rec.code (some code), ==_iff rec.reply (some body), h) in
    rw (same.0, same.1, same.2) refl

-- A reply that was accepted, and then comes again from the same agent under the same identifier after any
-- further calls, changes nothing: it gets the record of the first one if it has its code and body, and
-- `already_replied` otherwise. The sender of the ask is one whose origin names someone, and the second
-- code is 0 or 1.
pub reply_again :
    (s t : Router) (now later : Moment) (replier : AgentId) (id : MessageId) (code again : ℕ)
    (body text : String) (rec : MessageRecord) (calls : List (Moment × Call))
    → reply s now (agent replier) id code body ≡ (t, ok rec)
    → HasPayload rec.from
    → ltb 1 again ≡ false
    → reply (run t calls) later (agent replier) id again text
      ≡ (run t calls, if code == again && body == text then ok rec else err (already_replied id))
reply_again s t now later replier id code again body text rec calls h payload valid =
    let a =
      run-Answered t calls replier id code body rec
        (reply-Answered s t now replier id code body rec h) in
    let given = a.given in
    let ended : is_terminal rec.status ≡ true = ground (arith, given) in
    let told =
      reply_ended (run t calls) later id a.row again text a.found (rw a.same payload)
        (rw a.same a.is_ask) (rw a.same ended) valid in
    let to : replier ≡ rec.to = (==_iff replier rec.to).0 a.addressee in
    rw (to, ← identical_to rec code again body text given) (rw a.same at told)
