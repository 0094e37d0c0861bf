-- ===== src/Router/Accounts/Same.antt =====
-- core/src/router/mod.rs: what touches neither the table nor the books, and `create`, which adds to both.
use core_tempo.Common.{Bool, ◌≡◌, ◌∙◌, inl, inr, arith, string_eq, option_eq, Option-cases}
use core_tempo.Common.Dict.{lookup-insert}
use core_tempo.Common.Dict
use core_tempo.Types.Ids.{AgentId, MessageId}
use core_tempo.Types.Message.{
  MessageRecord, MessageKind, Origin, agent, user, http, trigger, kind_eq, origin_eq,
}
use core_tempo.Router.State.{Router, TurnState}
use core_tempo.Router.Loops.{update_turn, rearm_loop_after_reply, mark_loop_done, loop_edge}
use core_tempo.Router.Create.{record_met, count_round, arm, arm_with}
use core_tempo.Router.Accounts.{Accounts}

-- The table and the books of `t` are those of `s`.
pub record SameBooks (s : Router) (t : Router) : Type 0 where
  pub store : t.store ≡ s.store
  pub counts : t.counts ≡ s.counts
  pub owed : t.owed ≡ s.owed
  pub deadlines : t.deadlines ≡ s.deadlines

pub Accounts-of_SameBooks :
    (peers : MessageId → Bool) (s t : Router) → SameBooks s t → Accounts peers s → Accounts peers t
Accounts-of_SameBooks peers s t b books = rw (b.store, b.counts, b.owed, b.deadlines) books

pub SameBooks-trans : (s t u : Router) → SameBooks s t → SameBooks t u → SameBooks s u
SameBooks-trans s t u b c = record {
  store = c.store ∙ b.store;
  counts = c.counts ∙ b.counts;
  owed = c.owed ∙ b.owed;
  deadlines = c.deadlines ∙ b.deadlines;
}

pub update_turn-SameBooks :
    (f : TurnState → TurnState) (a : AgentId) (s : Router) → SameBooks s (update_turn f a s)
update_turn-SameBooks f a s = elim (Option-cases (Dict.lookup a s.turns)) [
  | inl absent ↦ ground arith
  | inr (turn, found) ↦ ground arith
]

pub record_met-SameBooks :
    (from : Origin) (to : AgentId) (kind : MessageKind) (s : Router)
    → SameBooks s (record_met from to kind s)
record_met-SameBooks (agent a) to kind s = update_turn-SameBooks _ a s
record_met-SameBooks user to kind s = ground arith
record_met-SameBooks (http req) to kind s = ground arith
record_met-SameBooks (trigger hex) to kind s = ground arith

pub count_round-SameBooks :
    (from : Origin) (to : AgentId) (kind : MessageKind) (s : Router)
    → SameBooks s (count_round from to kind s)
count_round-SameBooks (agent a) to kind s = ground arith
count_round-SameBooks user to kind s = ground arith
count_round-SameBooks (http req) to kind s = ground arith
count_round-SameBooks (trigger hex) to kind s = ground arith

pub arm-SameBooks : (rec : MessageRecord) (s : Router) → SameBooks s (arm rec s)
arm-SameBooks rec s = elim (Option-cases (Dict.lookup rec.to s.workflow.agents)) [
  | inl absent ↦ rw (absent, arm_with) (ground arith)
  | inr (cfg, found) ↦ ground arith
]

pub rearm_loop_after_reply-SameBooks :
    (s : Router) (owner replier : AgentId) → SameBooks s (rearm_loop_after_reply s owner replier)
unfolding rearm_loop_after_reply
rearm_loop_after_reply-SameBooks s owner replier = elim (Option-cases (loop_edge s owner replier)) [
  | inl absent ↦ ground arith
  | inr (edge, found) ↦ ground arith
]

pub mark_loop_done-SameBooks :
    (s : Router) (owner target : AgentId) → SameBooks s (mark_loop_done s owner target).0
unfolding mark_loop_done
mark_loop_done-SameBooks s owner target = elim (Option-cases (loop_edge s owner target)) [
  | inl absent ↦ ground arith
  | inr (edge, found) ↦ ground arith
]
