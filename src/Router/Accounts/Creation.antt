-- ===== src/Router/Accounts/Creation.antt =====
-- core/src/router/mod.rs: `create` enters the new message in the table and in the books alike.
use core_tempo.Common.{
  Bool, All, is_some, ℕ, ◌+◌, ◌≡◌, refl, inl, inr, false, [], ◌∷◌, ◌++◌, Option, some, arith, ◌==◌,
  ==_iff, ==_refl, string_eq, option_eq, if◌then◌else◌, Bool-cases, unwrap_or, count, count-append,
  find, any, String,
}
use core_tempo.Common.Dict.{lookup-insert, Dict}
use core_tempo.Common.Dict
use core_tempo.Common.KeySet.{member-insert}
use core_tempo.Common.KeySet
use core_tempo.Types.Ids.{AgentId, MessageId, FlowName}
use core_tempo.Types.Message.{
  MessageRecord, MessageKind, ask, Origin, agent, user, http, trigger, is_terminal, kind_eq,
  origin_eq,
}
use core_tempo.Types.Event.{message_created}
use core_tempo.Store.{Row, Store, has_id, insert_message, in_run, is_pending}
use core_tempo.Store
use core_tempo.Store.Rows.{test, insert_message-eq_ok, append-Unique, find-append, find_of_absent}
use core_tempo.Router.State.{Moment, Router, enqueue, publish}
use core_tempo.Router.Create.{
  record_met, count_round, new_record, increment, account, owe, admit, inserted, create, render,
}
use core_tempo.Router.Gate.{pending_asks, owed_of}
use core_tempo.Router.Accounts.{Accounts, is_open, is_foreign, asked_by, owed_by}
use core_tempo.Router.Accounts.Settle.{lookup-OwedAll, insert-OwedAll, insert-All}
use core_tempo.Router.Accounts.Same.{
  Accounts-of_SameBooks, record_met-SameBooks, count_round-SameBooks, arm-SameBooks,
}

module _ (peers : MessageId → Bool) (s : Router) (now : Moment) (rec : MessageRecord)
    (text : String) (books : Accounts peers s) (new : any (has_id rec.id) s.store.rows ≡ false)
    (open_at_first : is_terminal rec.status ≡ false) where
  row : Row
  row = record { message = rec; run_id = some s.store.run_id }

  grown : Router
  unfolding row
  grown = record s { store = record (s.store) { rows = s.store.rows ++ row ∷ [] } }

  entered : Router
  unfolding grown
  entered =
      owe rec (enqueue (publish (account now rec grown) now (message_created rec)) rec.to text)

  increment-lookup :
      (from : Origin) (counts : Dict AgentId ℕ) (a : AgentId)
      → unwrap_or 0 (Dict.lookup a (increment from counts)) ≡ (
          if from == agent a
          then unwrap_or 0 (Dict.lookup a counts) + 1
          else unwrap_or 0 (Dict.lookup a counts))
  increment-lookup user counts a = refl
  increment-lookup (http req) counts a = refl
  increment-lookup (trigger hex) counts a = refl
  increment-lookup (agent asker) counts a = ground (
    arith,
    ==_iff asker a,
    lookup-insert asker a (unwrap_or 0 (Dict.lookup asker counts) + 1) counts,
  )

  entered_counted :
      (a : AgentId)
      → pending_asks entered a ≡ count (asked_by s.store.run_id a) (s.store.rows ++ row ∷ [])
  unfolding entered row
  entered_counted a = elim (Bool-cases (rec.kind == ask)) [
    | inl is_ask ↦
        rw
          (
            is_ask,
            increment-lookup rec.from s.counts a,
            count-append (asked_by s.store.run_id a) s.store.rows (row ∷ []),
          )
          (ground (arith, books.counted a, ==_refl s.store.run_id))
    | inr is_send ↦
        rw (is_send, count-append (asked_by s.store.run_id a) s.store.rows (row ∷ []))
          (ground (arith, books.counted a))
  ]

  entered_owing :
      (a : AgentId) (id : MessageId)
      → KeySet.member id (owed_of entered a)
        ≡ test (owed_by s.store.run_id a) (find (has_id id) (s.store.rows ++ row ∷ []))
  unfolding entered row
  entered_owing a id = rw (find-append id s.store.rows row new) (
      ground (
        arith,
        books.owing a id,
        ==_iff rec.id id,
        ==_iff rec.to a,
        ==_refl s.store.run_id,
        find_of_absent rec.id s.store.rows new,
        lookup-insert rec.to a (KeySet.insert rec.id (unwrap_or [] (Dict.lookup rec.to s.owed)))
            s.owed,
        member-insert rec.id id (unwrap_or [] (Dict.lookup rec.to s.owed)),
      ))

  entered_timed :
      (id : MessageId)
      → is_some (Dict.lookup id entered.deadlines)
        ≡ test (is_open s.store.run_id) (find (has_id id) (s.store.rows ++ row ∷ []))
  unfolding entered row
  entered_timed id = rw (find-append id s.store.rows row new) (
      ground (
        arith,
        books.timed id,
        ==_iff rec.id id,
        ==_refl s.store.run_id,
        find_of_absent rec.id s.store.rows new,
        lookup-insert rec.id id (now.instant + s.workflow.ask_timeout) s.deadlines,
      ))

  entered_apart :
      (id : MessageId)
      → test (is_foreign s.store.run_id) (find (has_id id) (s.store.rows ++ row ∷ [])) ≡ peers id
  unfolding row
  entered_apart id = rw (find-append id s.store.rows row new) (
      ground (
        arith,
        books.apart id,
        find_of_absent rec.id s.store.rows new,
        ==_iff rec.id id,
        ==_refl s.store.run_id,
      ))

  own : peers rec.id ≡ false
  own = rw⁻¹ (books.apart rec.id) (rw (find_of_absent rec.id s.store.rows new) refl)

  entered_mine : All (λ e. All (λ id. peers id ≡ false) e.1) entered.owed
  unfolding entered
  entered_mine = elim (Bool-cases (rec.kind == ask)) [
    | inl is_ask ↦ rw is_ask (
        insert-OwedAll (λ id. peers id ≡ false) rec.to _ s.owed
          (insert-All (λ id. peers id ≡ false) rec.id _ own
            (lookup-OwedAll (λ id. peers id ≡ false) rec.to s.owed books.mine))
          books.mine)
    | inr is_send ↦ rw is_send books.mine
  ]

  entered_same :
      (entered.store.run_id ≡ s.store.run_id) × (entered.store.rows ≡ s.store.rows ++ row ∷ [])
  unfolding entered
  entered_same = (ground arith, ground arith)

  entered-Accounts : Accounts peers entered
  unfolding row
  entered-Accounts =
      rw (entered_same.0, entered_same.1)
        (record {
          unique = append-Unique s.store.rows row new books.unique;
          counted = entered_counted;
          owing = entered_owing;
          timed = entered_timed;
          apart = entered_apart;
          mine = entered_mine;
        })

inserted-Accounts :
    (peers : MessageId → Bool) (s : Router) (now : Moment) (rec : MessageRecord)
    (flow : Option FlowName)
    → Accounts peers s
    → is_terminal rec.status ≡ false
    → (res : Store.Result Store) → insert_message s.store rec ≡ res
    → Accounts peers (inserted s now rec flow res).0
unfolding admit entered grown row
inserted-Accounts peers s now rec flow books going (Store.err e) tried = books
inserted-Accounts peers s now rec flow books going (Store.ok st) tried =
    let (new, grown_store) = insert_message-eq_ok s.store rec tried in
    let e = entered-Accounts peers s now rec (render rec flow) books new going in
    rw grown_store (Accounts-of_SameBooks peers _ _ (arm-SameBooks rec _) e)

-- A message, accepted or not, leaves the books right.
pub create-Accounts :
    (peers : MessageId → Bool) (s : Router) (now : Moment) (id : MessageId) (from : Origin)
    (to : AgentId) (kind : MessageKind) (body : String) (flow : Option FlowName)
    → Accounts peers s
    → Accounts peers (create s now id from to kind body flow).0
unfolding create
create-Accounts peers s now id from to kind body flow books =
    let rec = new_record id now from to kind body in
    let met = record_met from to kind s in
    let t = count_round from to kind met in
    let same_met = Accounts-of_SameBooks peers s met (record_met-SameBooks from to kind s) books in
    let same_t =
      Accounts-of_SameBooks peers met t (count_round-SameBooks from to kind met) same_met in
    elim (Bool-cases (is_some (Dict.lookup to s.workflow.agents))) [
      | inr unknown ↦ rw unknown books
      | inl known ↦
          rw known
            (inserted-Accounts peers t now rec flow same_t refl (insert_message t.store rec) refl)
    ]
