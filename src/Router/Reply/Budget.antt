-- ===== src/Router/Reply/Budget.antt =====
-- core/src/router/mod.rs: the output-schema gate (`reject_off_schema`) over several attempts at one ask.
use core_tempo.Common.{
  ℕ, suc, ◌+◌, ◌≤◌, ◌≡◌, ◌≢◌, refl, inl, inr, Bool, true, false, List, [], ◌∷◌, Option, none, some,
  arith, find, ltb, ◌==◌, string_eq, nat_eq, option_eq, ==_refl, Option-cases, ◌⊎◌, String, length,
  all, All, unwrap_or,
}
use core_tempo.Common.Dict.{lookup-insert}
use core_tempo.Common.Dict
use core_tempo.Types.Ids.{AgentId, MessageId}
use core_tempo.Types.Message.{
  MessageRecord, ask, kind_eq, Origin, agent, user, http, trigger, is_terminal, status_eq,
}
use core_tempo.Types.Message.RoundTrip.{HasPayload}
use core_tempo.Store.{Row, has_id, update_message}
use core_tempo.Store.Rows.{find-has_id}
use core_tempo.Router.State.{Moment, Router, Result, ok, err, output_schema, OutputContract}
use core_tempo.Router.Reply.{
  gate_origin, gate_contract, reject, reject_off_schema, accept_reply, reply_found, reply,
}
use core_tempo.Router.Reply.Once.{get_message_readable}

-- The contract that a record's origin is under.
abbrev pub contract_of : Router → Origin → Option OutputContract
contract_of s (trigger origin) = Dict.lookup origin s.contracts
contract_of s (agent a) = none
contract_of s user = none
contract_of s (http req) = none

-- An ask of a kick-off that has a contract, not ended, with `spent` rejections so far.
pub record IsGated (s : Router) (id : MessageId) (row : Row) (c : OutputContract) (spent : ℕ)
    : Type 0 where
  pub found : find (has_id id) s.store.rows ≡ some row
  pub payload : HasPayload row.message.from
  pub is_ask : (row.message.kind == ask) ≡ true
  pub unended : is_terminal row.message.status ≡ false
  pub bound : contract_of s row.message.from ≡ some c
  pub rejections : unwrap_or 0 (Dict.lookup id s.repairs) ≡ spent

-- One reply with code 0 after another.
unfoldable pub attempt_all :
    Router → AgentId → MessageId → List (Moment × String) → Router × List (Result MessageRecord)
attempt_all s replier id [] = (s, [])
attempt_all s replier id ((now, body) ∷ bodies) =
    let (t, result) = reply s now (agent replier) id 0 body in
    let (u, results) = attempt_all t replier id bodies in (u, result ∷ results)

abbrev pub is_rejection : Result MessageRecord → Bool
is_rejection (err (output_schema text)) = true
is_rejection _ = false

abbrev pub is_ok : Result MessageRecord → Bool
is_ok (ok rec) = true
is_ok (err e) = false

abbrev pub Violates : OutputContract → Moment × String → Type 0
Violates c x = c.check x.1 ≢ none

gate_origin-eq :
    (s : Router) (now : Moment) (rec : MessageRecord) (code : ℕ) (body : String) (from : Origin)
    → gate_origin s now rec code body from ≡ gate_contract s now rec code body (contract_of s from)
gate_origin-eq s now rec code body (trigger origin) = refl
gate_origin-eq s now rec code body (agent a) = refl
gate_origin-eq s now rec code body user = refl
gate_origin-eq s now rec code body (http req) = refl

module _ (s : Router) (now : Moment) (id : MessageId) (row : Row) (c : OutputContract) (spent : ℕ)
    (body : String) (g : IsGated s id row c spent) where
  -- To a live ask, only the gate stands between the addressee and an accepted reply.
  reply-gated :
      reply s now (agent row.message.to) id 0 body
      ≡ accept_reply now row.message row.message.to 0 body
          (reject s now row.message c (c.check body))
  unfolding reply reject_off_schema
  reply-gated =
      rw
        (
          get_message_readable s.store id row g.found g.payload,
          reply_found,
          ==_refl row.message.to,
          g.unended,
          gate_origin-eq s now row.message 0 body row.message.from,
          g.bound,
          g.is_ask,
        )
        (ground (arith, g.is_ask))

  -- An off-schema body is refused while the budget lasts, and the ask stays as it is, one rejection on.
  rejected :
      Violates c (now, body)
      → suc spent ≤ c.max_repairs
      → IsGated (reply s now (agent row.message.to) id 0 body).0 id row c (suc spent)
        × (is_rejection (reply s now (agent row.message.to) id 0 body).1 ≡ true)
  rejected bad within = elim (Option-cases (c.check body)) [
    | inl fine ↦ absurd (bad fine)
    | inr (errors, off) ↦
        let name = find-has_id id s.store.rows row g.found in
        let low : ltb c.max_repairs (unwrap_or 0 (Dict.lookup row.message.id s.repairs) + 1)
            ≡ false =
          rw name (rw g.rejections (ground (arith, within))) in
        rw (reply-gated, off, low)
          (
            record {
              found = g.found;
              payload = g.payload;
              is_ask = g.is_ask;
              unended = g.unended;
              bound = g.bound;
              rejections = rw name (
                  rw (lookup-insert id id _ s.repairs, ==_refl id) (rw g.rejections (omega arith)));
            },
            refl,
          )
  ]

  -- A body that conforms, or that comes when the budget is spent, is accepted.
  accepted :
      (c.check body ≡ none) ⊎ (c.max_repairs ≤ spent)
      → is_ok (reply s now (agent row.message.to) id 0 body).1 ≡ true
  unfolding update_message
  accepted (inl fine) = rw (reply-gated, fine) (ground arith)
  accepted (inr over) = elim (Option-cases (c.check body)) [
    | inl fine ↦ rw (reply-gated, fine) (ground arith)
    | inr (errors, off) ↦
        let name = find-has_id id s.store.rows row g.found in
        let high : ltb c.max_repairs (unwrap_or 0 (Dict.lookup row.message.id s.repairs) + 1)
            ≡ true =
          rw name (rw g.rejections (ground (arith, over))) in
        rw (reply-gated, off, high) (ground arith)
  ]

attempt_all-rejected :
    (attempts : List (Moment × String)) (s : Router) (id : MessageId) (row : Row)
    (c : OutputContract) (spent total : ℕ)
    → IsGated s id row c spent
    → All (Violates c) attempts
    → spent + length attempts ≡ total
    → total ≤ c.max_repairs
    → (all is_rejection (attempt_all s row.message.to id attempts).1 ≡ true)
      × IsGated (attempt_all s row.message.to id attempts).0 id row c total
unfolding attempt_all
attempt_all-rejected [] s id row c spent total g bad sum within =
    let same : spent ≡ total = omega (arith, sum) in (refl, rw⁻¹ same g)
attempt_all-rejected ((now, body) ∷ bodies) s id row c spent total g bad sum within =
    let one = rejected s now id row c spent body g bad.0 (omega arith) in
    let rest =
      attempt_all-rejected bodies (reply s now (agent row.message.to) id 0 body).0 id row c
        (suc spent) total one.0 bad.1 (omega (arith, sum)) within in
    (rw (one.1, rest.0) refl, rest.1)

-- An ask under an output contract, replied to by its addressee with code 0: as many off-schema replies as
-- the contract has repairs are each sent back with `output_schema`, and then the next reply is accepted
-- whatever its body is. So the budget is exact and no schema keeps an ask from ever being answered. The
-- ask is live, its row is readable, and no rejection has been counted for it.
pub reply_after_repairs :
    (s : Router) (id : MessageId) (row : Row) (c : OutputContract)
    (attempts : List (Moment × String)) (now : Moment) (body : String)
    → IsGated s id row c 0
    → All (Violates c) attempts
    → length attempts ≡ c.max_repairs
    → (all is_rejection (attempt_all s row.message.to id attempts).1 ≡ true)
      × (is_ok
            (reply
              (attempt_all s row.message.to id attempts).0
              now
              (agent row.message.to)
              id
              0
              body).1
          ≡ true)
reply_after_repairs s id row c attempts now body g bad whole =
    let (refused, gated) =
      attempt_all-rejected attempts s id row c 0 (length attempts) g bad (omega arith)
        (omega arith) in
    (
      refused,
      accepted (attempt_all s row.message.to id attempts).0 now id row c (length attempts) body
          gated (inr (omega arith)),
    )
