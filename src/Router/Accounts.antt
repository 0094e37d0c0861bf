-- ===== src/Router/Accounts.antt =====
-- core/src/router/mod.rs: the books that the router keeps in memory beside the table. What an agent
-- waits for (`counts`), what it owes (`owed`) and which asks can still run out (`deadlines`) are at all
-- times what the rows of the run say.
pub mod Settle
pub mod Steps
pub mod Same
pub mod Creation
pub mod Replies
pub mod Moves
pub mod Own
pub mod Rests
pub mod Run
pub mod Opened
use core_tempo.Common.{
  All, is_some, ℕ, ◌≡◌, ◌≢◌, Bool, false, not, ◌&&◌, List, [], Option, none, some, ◌==◌, string_eq,
  option_eq, count, find, unwrap_or,
}
use core_tempo.Common.Dict
use core_tempo.Common.Dict.{Dict}
use core_tempo.Common.KeySet
use core_tempo.Types.Ids.{AgentId, MessageId, RunId}
use core_tempo.Types.Message.{ask, Origin, agent, is_terminal, kind_eq, origin_eq}
use core_tempo.Store.{Row, in_run, is_pending, has_id}
use core_tempo.Store.Rows.{Unique, test}
use core_tempo.Router.State.{Router}
use core_tempo.Router.Gate.{pending_asks, owed_of}

-- An ask of the run that has not ended.
abbrev pub is_open : RunId → Row → Bool
is_open run row = row.message.kind == ask && in_run run row && is_pending row

abbrev pub asked_by : RunId → AgentId → Row → Bool
asked_by run a row = is_open run row && row.message.from == agent a

abbrev pub owed_by : RunId → AgentId → Row → Bool
owed_by run a row = is_open run row && row.message.to == a

-- A message of another run that has not ended.
abbrev pub is_foreign : RunId → Row → Bool
is_foreign run row = is_pending row && not (in_run run row)

-- The rows of a run against the books kept in memory, beside the live messages of other runs, `peers`.
pub record Balanced (peers : MessageId → Bool) (run : RunId) (rows : List Row)
    (counts : Dict AgentId ℕ) (owed : Dict AgentId (List MessageId)) (deadlines : Dict MessageId ℕ)
    : Type 0 where
  pub unique : Unique rows
  pub counted : (a : AgentId) → unwrap_or 0 (Dict.lookup a counts) ≡ count (asked_by run a) rows
  pub owing :
      (a : AgentId) (id : MessageId)
      → KeySet.member id (unwrap_or [] (Dict.lookup a owed))
        ≡ test (owed_by run a) (find (has_id id) rows)
  pub timed :
      (id : MessageId)
      → is_some (Dict.lookup id deadlines) ≡ test (is_open run) (find (has_id id) rows)
  pub apart : (id : MessageId) → test (is_foreign run) (find (has_id id) rows) ≡ peers id
  pub mine : All (λ e. All (λ id. peers id ≡ false) e.1) owed

abbrev pub Accounts : (MessageId → Bool) → Router → Type 0
Accounts peers s = Balanced peers s.store.run_id s.store.rows s.counts s.owed s.deadlines
