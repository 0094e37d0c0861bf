-- ===== src/Router/Accounts/Steps.antt =====
-- core/src/router/mod.rs: an update of one row, with `settle` if it ends the message, keeps the books.
use core_tempo.Common.{
  Bool, is_some, ◌≡◌, true, false, List, some, arith, ==_iff, string_eq, option_eq, count, find,
}
use core_tempo.Common.Dict
use core_tempo.Common.KeySet
use core_tempo.Types.Ids.{AgentId, MessageId}
use core_tempo.Types.Message.{MessageRecord, is_terminal, kind_eq, origin_eq}
use core_tempo.Bus.{Bus}
use core_tempo.Store.{Row, in_run, has_id, update_rows}
use core_tempo.Store.Rows.{test, update_rows-Unique, find-update_rows, count-update_rows}
use core_tempo.Router.State.{Router, settle}
use core_tempo.Router.Gate.{pending_asks, owed_of}
use core_tempo.Router.Accounts.{Accounts, is_open, is_foreign, asked_by, owed_by}
use core_tempo.Router.Accounts.Settle.{
  settle-store, settle-deadlines, settle-counts, settle-owed, settle-mine,
}

-- A row's record with other status columns.
pub record SameMessage (r : MessageRecord) (m : MessageRecord) : Type 0 where
  pub id : r.id ≡ m.id
  pub kind : r.kind ≡ m.kind
  pub from : r.from ≡ m.from
  pub to : r.to ≡ m.to

-- A row of the run, found under its identifier, whose message has not ended.
pub record IsLive (s : Router) (row : Row) : Type 0 where
  pub found : find (has_id row.message.id) s.store.rows ≡ some row
  pub ours : in_run s.store.run_id row ≡ true
  pub unended : is_terminal row.message.status ≡ false

abbrev pub with_rows : Router → Bus → List Row → Router
with_rows s bus rows = record s { store = record (s.store) { rows = rows }; bus = bus }

module _ (peers : MessageId → Bool) (s : Router) (bus : Bus) (row : Row) (r : MessageRecord)
    (books : Accounts peers s) (live : IsLive s row) (same : SameMessage r row.message) where
  after : Router
  after = with_rows s bus (update_rows r s.store.rows)

  found_r : find (has_id r.id) s.store.rows ≡ some row
  found_r = rw same.id live.found

  still_apart :
      (id : MessageId)
      → test (is_foreign s.store.run_id) (find (has_id id) (update_rows r s.store.rows)) ≡ peers id
  still_apart id =
      rw (find-update_rows id r s.store.rows)
        (ground (arith, books.apart id, found_r, live, same, ==_iff r.id id))

  -- A change of the row that ends it takes it from the count of its asker.
  ended_counted :
      is_terminal r.status ≡ true
      → (a : AgentId)
      → pending_asks (settle after r) a
        ≡ count (asked_by s.store.run_id a) (update_rows r s.store.rows)
  unfolding after
  ended_counted ended a = rw (settle-counts after r a) (
      ground (
        arith,
        same,
        live,
        books.counted a,
        count-update_rows (asked_by s.store.run_id a) r s.store.rows row books.unique found_r,
      ))

  ended_owing :
      is_terminal r.status ≡ true
      → (a : AgentId) (id : MessageId)
      → KeySet.member id (owed_of (settle after r) a)
        ≡ test (owed_by s.store.run_id a) (find (has_id id) (update_rows r s.store.rows))
  unfolding after
  ended_owing ended a id =
      rw (settle-owed after r a id, find-update_rows id r s.store.rows)
        (ground (arith, books.owing a id, found_r, live, same, ==_iff r.id id))

  ended_timed :
      is_terminal r.status ≡ true
      → (id : MessageId)
      → is_some (Dict.lookup id (settle after r).deadlines)
        ≡ test (is_open s.store.run_id) (find (has_id id) (update_rows r s.store.rows))
  unfolding after
  ended_timed ended id =
      rw (settle-deadlines after r id, find-update_rows id r s.store.rows)
        (ground (arith, books.timed id, found_r, live, same, ==_iff r.id id))

  -- An update that ends the message, followed by `settle`, keeps the books.
  pub settle-Accounts :
      is_terminal r.status ≡ true
      → Accounts peers (settle (with_rows s bus (update_rows r s.store.rows)) r)
  unfolding after
  settle-Accounts ended = rw (settle-store after r) (record {
    unique = update_rows-Unique r s.store.rows books.unique;
    counted = ended_counted ended;
    owing = ended_owing ended;
    timed = ended_timed ended;
    apart = still_apart;
    mine = settle-mine (λ id. peers id ≡ false) after r books.mine;
  })

  -- An update that leaves it going needs no settling.
  pub update-Accounts :
      is_terminal r.status ≡ false → Accounts peers (with_rows s bus (update_rows r s.store.rows))
  unfolding after
  update-Accounts going = record {
    unique = update_rows-Unique r s.store.rows books.unique;
    counted = λ a. ground (
      arith,
      same,
      live,
      books.counted a,
      count-update_rows (asked_by s.store.run_id a) r s.store.rows row books.unique found_r,
    );
    owing = λ a id.
        rw (find-update_rows id r s.store.rows)
          (ground (arith, books.owing a id, found_r, live, same, ==_iff r.id id));
    timed = λ id.
        rw (find-update_rows id r s.store.rows)
          (ground (arith, books.timed id, found_r, live, same, ==_iff r.id id));
    apart = still_apart;
    mine = books.mine;
  }
