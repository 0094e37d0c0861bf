-- ===== src/Router/Accounts/Settle.antt =====
-- core/src/router/mod.rs: what `settle` does to each book.
use core_tempo.Common.{
  All, Option, none, some, is_some, ℕ, ◌-◌, ◌≡◌, refl, not, ◌&&◌, List, [], ◌∷◌, arith, ◌==◌,
  ==_iff, string_eq, if◌then◌else◌, Bool-cases, Option-cases, inl, inr, unwrap_or,
}
use core_tempo.Common.Dict.{lookup-insert, lookup-remove}
use core_tempo.Common.Dict
use core_tempo.Common.Dict.{Dict}
use core_tempo.Common.KeySet.{member-remove}
use core_tempo.Common.KeySet
use core_tempo.Types.Ids.{AgentId, MessageId}
use core_tempo.Types.Message.{
  ask, Origin, agent, user, http, trigger, MessageRecord, kind_eq, origin_eq, status_eq,
}
use core_tempo.Router.State.{Router, settle, settle_owed, keep_owed, settle_count, decrement}
use core_tempo.Router.Gate.{pending_asks, owed_of}

keep_owed-store :
    (to : AgentId) (ids : List MessageId) (s : Router) → (keep_owed to ids s).store ≡ s.store
keep_owed-store to [] s = refl
keep_owed-store to (id ∷ ids) s = refl

pub settle-store : (s : Router) (rec : MessageRecord) → (settle s rec).store ≡ s.store
unfolding settle
settle-store s rec = ground arith

pub settle-deadlines :
    (s : Router) (rec : MessageRecord) (id : MessageId)
    → is_some (Dict.lookup id (settle s rec).deadlines)
      ≡ (not (rec.id == id) && is_some (Dict.lookup id s.deadlines))
unfolding settle
settle-deadlines s rec id = ground (arith, lookup-remove rec.id id s.deadlines)

settle_count-lookup :
    (from : Origin) (counts : Dict AgentId ℕ) (a : AgentId)
    → unwrap_or 0 (Dict.lookup a (settle_count from counts)) ≡ (
        if from == agent a
        then unwrap_or 0 (Dict.lookup a counts) - 1
        else unwrap_or 0 (Dict.lookup a counts))
settle_count-lookup user counts a = refl
settle_count-lookup (http req) counts a = refl
settle_count-lookup (trigger hex) counts a = refl
settle_count-lookup (agent asker) counts a = elim (Option-cases (Dict.lookup asker counts)) [
  | inl absent ↦ rw (absent, decrement) (ground (arith, ==_iff asker a))
  | inr (n, found) ↦
      rw (found, decrement) (ground (arith, ==_iff asker a, lookup-insert asker a (n - 1) counts))
]

settle-counts_field :
    (s : Router) (rec : MessageRecord)
    → (settle s rec).counts ≡ (if rec.kind == ask then settle_count rec.from s.counts else s.counts)
unfolding settle
settle-counts_field s rec = ground arith

-- The asker of an ask waits for one answer less.
pub settle-counts :
    (s : Router) (rec : MessageRecord) (a : AgentId)
    → pending_asks (settle s rec) a
      ≡ (if rec.kind == ask && rec.from == agent a then pending_asks s a - 1 else pending_asks s a)
settle-counts s rec a = elim (Bool-cases (rec.kind == ask)) [
  | inl is_ask ↦ rw (settle-counts_field s rec, is_ask) (settle_count-lookup rec.from s.counts a)
  | inr is_send ↦ rw (settle-counts_field s rec, is_send)
]

keep_owed-owed :
    (to : AgentId) (ids : List MessageId) (s : Router) (a : AgentId)
    → owed_of (keep_owed to ids s) a ≡ (if to == a then ids else owed_of s a)
keep_owed-owed to [] s a = ground (arith, lookup-remove to a s.owed)
keep_owed-owed to (id ∷ ids) s a = ground (arith, lookup-insert to a (id ∷ ids) s.owed)

settle_owed-owed :
    (s : Router) (to : AgentId) (rid : MessageId) (a : AgentId) (id : MessageId)
    → KeySet.member id (owed_of (settle_owed to rid (Dict.lookup to s.owed) s) a)
      ≡ (not (to == a && rid == id) && KeySet.member id (owed_of s a))
unfolding KeySet.member
settle_owed-owed s to rid a id = elim (Option-cases (Dict.lookup to s.owed)) [
  | inl absent ↦ rw (absent, settle_owed) (ground (arith, ==_iff to a))
  | inr (ids, found) ↦
      rw (found, settle_owed)
        (rw (keep_owed-owed to (KeySet.remove rid ids) s a)
          (ground (arith, ==_iff to a, member-remove rid id ids)))
]

-- The addressee of an ask owes it no longer.
pub settle-owed :
    (s : Router) (rec : MessageRecord) (a : AgentId) (id : MessageId)
    → KeySet.member id (owed_of (settle s rec) a)
      ≡ (not (rec.kind == ask && rec.to == a && rec.id == id) && KeySet.member id (owed_of s a))
unfolding settle
settle-owed s rec a id = elim (Bool-cases (rec.kind == ask)) [
  | inl is_ask ↦ rw is_ask (settle_owed-owed _ rec.to rec.id a id)
  | inr is_send ↦ rw is_send refl
]

-- What holds of every ask that is owed.
module _ (P : MessageId → Type 0) where
  abbrev pub OwedAll : Dict AgentId (List MessageId) → Type 0
  OwedAll owed = All (λ e. All P e.1) owed

  pub lookup-OwedAll :
      (a : AgentId) (owed : Dict AgentId (List MessageId))
      → OwedAll owed
      → All P (unwrap_or [] (Dict.lookup a owed))
  unfolding Dict.lookup
  lookup-OwedAll a [] h = tt
  lookup-OwedAll a ((b, ids) ∷ owed) h = elim (Bool-cases (b == a)) [
    | inl same ↦ rw same h.0
    | inr other ↦ rw other (lookup-OwedAll a owed h.1)
  ]

  pub insert-OwedAll :
      (a : AgentId) (ids : List MessageId) (owed : Dict AgentId (List MessageId))
      → All P ids
      → OwedAll owed
      → OwedAll (Dict.insert a ids owed)
  unfolding Dict.insert
  insert-OwedAll a ids [] new h = (new, tt)
  insert-OwedAll a ids ((b, old) ∷ owed) new h = elim (Bool-cases (b == a)) [
    | inl same ↦ rw same (new, h.1)
    | inr other ↦ rw other (h.0, insert-OwedAll a ids owed new h.1)
  ]

  remove-OwedAll :
      (a : AgentId) (owed : Dict AgentId (List MessageId))
      → OwedAll owed
      → OwedAll (Dict.remove a owed)
  unfolding Dict.remove
  remove-OwedAll a [] h = tt
  remove-OwedAll a ((b, ids) ∷ owed) h = elim (Bool-cases (b == a)) [
    | inl same ↦ rw same (remove-OwedAll a owed h.1)
    | inr other ↦ rw other (h.0, remove-OwedAll a owed h.1)
  ]

  pub insert-All :
      (id : MessageId) (ids : List MessageId) → P id → All P ids → All P (KeySet.insert id ids)
  unfolding KeySet.insert
  insert-All id [] p h = (p, tt)
  insert-All id (j ∷ ids) p h = elim (Bool-cases (j == id)) [
    | inl same ↦ rw same h
    | inr other ↦ rw other (h.0, insert-All id ids p h.1)
  ]

  remove-All : (id : MessageId) (ids : List MessageId) → All P ids → All P (KeySet.remove id ids)
  unfolding KeySet.remove
  remove-All id [] h = tt
  remove-All id (j ∷ ids) h = elim (Bool-cases (j == id)) [
    | inl same ↦ rw same (remove-All id ids h.1)
    | inr other ↦ rw other (h.0, remove-All id ids h.1)
  ]

  keep_owed-OwedAll :
      (to : AgentId) (ids : List MessageId) (s : Router)
      → All P ids
      → OwedAll s.owed
      → OwedAll (keep_owed to ids s).owed
  keep_owed-OwedAll to [] s new h = remove-OwedAll to s.owed h
  keep_owed-OwedAll to (id ∷ ids) s new h = insert-OwedAll to (id ∷ ids) s.owed new h

  settle_owed-OwedAll :
      (to : AgentId) (id : MessageId) (found : Option (List MessageId)) (s : Router)
      → All P (unwrap_or [] found)
      → OwedAll s.owed
      → OwedAll (settle_owed to id found s).owed
  settle_owed-OwedAll to id none s new h = h
  settle_owed-OwedAll to id (some ids) s new h =
      keep_owed-OwedAll to (KeySet.remove id ids) s (remove-All id ids new) h

  pub settle-mine :
      (s : Router) (rec : MessageRecord) → OwedAll s.owed → OwedAll (settle s rec).owed
  unfolding settle
  settle-mine s rec h = elim (Bool-cases (rec.kind == ask)) [
    | inl is_ask ↦ rw is_ask (
        settle_owed-OwedAll rec.to rec.id (Dict.lookup rec.to s.owed) _
          (lookup-OwedAll rec.to s.owed h) h)
    | inr is_send ↦ rw is_send h
  ]
