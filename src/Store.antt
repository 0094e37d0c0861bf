-- ===== src/Store.antt =====
-- core/src/store/mod.rs and store/schema.rs: the two tables, as lists of rows in `rowid` order, and the
-- commands that the writer thread runs one at a time. A row is what this code wrote; its text columns
-- are parsed again whenever it is read. That SQLite runs a statement as documented is taken for
-- granted; a statement that it could not run at all (a closed store, a full disk) is left out.
pub mod Reads
pub mod Rows
pub mod Orphans
use core_tempo.Common.{
  ℕ, ◌+◌, String, ◌≡◌, Bool, true, false, not, ◌&&◌, ◌||◌, List, [], ◌∷◌, ◌++◌, map, Option, none,
  some, Eq, ◌==◌, string_eq, nat_eq, if◌then◌else◌, leb, ltb, find, filter, any, take, str_leb,
  option_eq,
}
use core_tempo.Types.Ids.{AgentId, MessageId, RunId, Timestamp}
use core_tempo.Types.Message.{
  MessageKind, MessageStatus, ask, failed, Origin, MessageRecord, kind_as_str, parse_kind,
  status_as_str, parse_status, origin_text, parse_origin, is_terminal, kind_eq, status_eq,
  origin_eq,
}

pub data StoreError : Type 0 where
  sqlite : String → StoreError
  closed : StoreError
  corrupt_row : MessageId → StoreError

pub data Result {ℓ} (A : Type ℓ) : Type ℓ where
  ok : A → Result A
  err : StoreError → Result A

pub record Row : Type 0 where
  pub message : MessageRecord
  pub run_id : Option RunId

pub record Run : Type 0 where
  pub run_id : RunId
  pub workflow_name : String
  pub workflow_hash : String
  pub started_at : Timestamp
  pub stopped_at : Option Timestamp

-- A handle on the file: `run_id` scopes what it writes and sweeps.
pub record Store : Type 0 where
  pub run_id : RunId
  pub rows : List Row
  pub runs : List Run

abbrev pub has_id : MessageId → Row → Bool
has_id id row = row.message.id == id

-- `id TEXT PRIMARY KEY` and `CHECK (code IN (0, 1))`.
abbrev pub code_allowed : Option ℕ → Bool
code_allowed none = true
code_allowed (some c) = c == 0 || c == 1

unfoldable pub insert_message : Store → MessageRecord → Result Store
insert_message s r =
    if any (has_id r.id) s.rows
    then err (sqlite "UNIQUE constraint failed: messages.id")
    else if not (code_allowed r.code)
    then err (sqlite "CHECK constraint failed")
    else ok (record s { rows = s.rows ++ record { message = r; run_id = some s.run_id } ∷ [] })

-- The columns that the UPDATE sets.
abbrev pub set_columns : MessageRecord → Row → Row
set_columns r row = record row {
  message = record (row.message) {
    status = r.status;
    code = r.code;
    reply = r.reply;
    injected_at = r.injected_at;
    completed_at = r.completed_at;
    reason = r.reason;
    reason_code = r.reason_code;
  };
}

unfoldable pub update_rows : MessageRecord → List Row → List Row
update_rows r [] = []
update_rows r (row ∷ rows) =
    (if has_id r.id row then set_columns r row else row) ∷ update_rows r rows

-- The flag says whether a row matched.
unfoldable pub update_message : Store → MessageRecord → Result (Store × Bool)
update_message s r =
    if any (has_id r.id) s.rows && not (code_allowed r.code)
    then err (sqlite "CHECK constraint failed")
    else ok (record s { rows = update_rows r s.rows }, any (has_id r.id) s.rows)

-- The columns that are stored as text and parsed again.
pub record RawMessageRow : Type 0 where
  pub stored : MessageRecord
  pub kind : String
  pub from_origin : String
  pub status : String

abbrev pub raw_row : Row → RawMessageRow
raw_row row = record {
  stored = row.message;
  kind = kind_as_str row.message.kind;
  from_origin = origin_text row.message.from;
  status = status_as_str row.message.status;
}

infixl 5 ◌>>=◌
abbrev pub ◌>>=◌ {ℓ κ} : {A : Type ℓ} {B : Type κ} → Result A → (A → Result B) → Result B
ok a >>= f = f a
err e >>= f = err e

abbrev pub or_corrupt {ℓ} : {A : Type ℓ} → MessageId → Option A → Result A
or_corrupt id none = err (corrupt_row id)
or_corrupt id (some a) = ok a

unfoldable pub to_record : RawMessageRow → Result MessageRecord
to_record raw = do
  kind ← or_corrupt raw.stored.id (parse_kind raw.kind)
  status ← or_corrupt raw.stored.id (parse_status raw.status)
  from ← or_corrupt raw.stored.id (parse_origin raw.from_origin)
  ok (record (raw.stored) { kind = kind; status = status; from = from })

abbrev pub read_found : Option Row → Result (Option MessageRecord)
read_found none = ok none
read_found (some row) = to_record (raw_row row) >>= λ r. ok (some r)

unfoldable pub get_message : Store → MessageId → Result (Option MessageRecord)
get_message s id = read_found (find (has_id id) s.rows)

-- One corrupt row fails the whole query.
unfoldable pub query_records : List Row → Result (List MessageRecord)
query_records [] = ok []
query_records (row ∷ rows) = do
  r ← to_record (raw_row row)
  rest ← query_records rows
  ok (r ∷ rest)

abbrev pub in_run : RunId → Row → Bool
in_run run row = row.run_id == some run

abbrev pub is_pending : Row → Bool
is_pending row = not (is_terminal row.message.status)

unfoldable pub pending_to_agent : Store → AgentId → Result (List MessageRecord)
unfolding query_records
pending_to_agent s agent =
    query_records
      (filter (λ row. row.message.to == agent && in_run s.run_id row && is_pending row) s.rows)

unfoldable pub pending_asks : Store → Result (List MessageRecord)
unfolding query_records
pending_asks s =
    query_records
      (filter (λ row. row.message.kind == ask && in_run s.run_id row && is_pending row) s.rows)

pub record MessageFilter : Type 0 where
  pub to : Option AgentId
  pub from : Option Origin
  pub status : Option MessageStatus
  pub kind : Option MessageKind
  pub since : Option Timestamp
  pub limit : ℕ

abbrev pub default_list_limit : ℕ
default_list_limit = 100

abbrev pub max_list_limit : ℕ
max_list_limit = 1000

abbrev equals {ℓ} : {A : Type ℓ} ⦃e : Eq A⦄ → Option A → A → Bool
equals none b = true
equals (some a) b = b == a

abbrev at_least : Option Timestamp → Timestamp → Bool
at_least none t = true
at_least (some since) t = str_leb since t

unfoldable pub selects : MessageFilter → Row → Bool
selects f row =
    equals f.to m.to
    && equals f.from m.from
    && equals f.status m.status
    && equals f.kind m.kind
    && at_least f.since m.created_at
  where
    m : MessageRecord
    m = row.message

unfoldable pub effective_limit : ℕ → ℕ
effective_limit limit =
    if limit == 0
    then default_list_limit
    else if leb limit max_list_limit
    then limit
    else max_list_limit

-- `ORDER BY created_at DESC, rowid DESC`: each row, oldest first, goes before those no younger.
insert_newest : Row → List Row → List Row
insert_newest row [] = row ∷ []
insert_newest row (other ∷ rows) =
    if str_leb other.message.created_at row.message.created_at
    then row ∷ other ∷ rows
    else other ∷ insert_newest row rows

unfoldable pub newest_first : List Row → List Row → List Row
unfolding insert_newest
newest_first sorted [] = sorted
newest_first sorted (row ∷ rows) = newest_first (insert_newest row sorted) rows

unfoldable pub list_messages : Store → MessageFilter → Result (List MessageRecord)
unfolding query_records newest_first selects effective_limit
list_messages s f =
    query_records (take (effective_limit f.limit) (newest_first [] (filter (selects f) s.rows)))

unfoldable pub insert_run : Store → RunId → String → String → Timestamp → Result Store
insert_run s run name hash started =
    if any (λ r. r.run_id == run) s.runs
    then err (sqlite "UNIQUE constraint failed: runs.run_id")
    else ok (record s {
      runs =
          s.runs
          ++ record {
            run_id = run;
            workflow_name = name;
            workflow_hash = hash;
            started_at = started;
            stopped_at = none;
          }
            ∷ [];
    })

unfoldable pub mark_run_stopped : Store → RunId → Timestamp → Store
mark_run_stopped s run stopped = record s {
  runs = map (λ r. if r.run_id == run then record r { stopped_at = some stopped } else r) s.runs;
}

-- A run that has stopped.
abbrev pub has_stopped : RunId → Run → Bool
has_stopped run r = elim r.stopped_at [ none ↦ false | some t ↦ r.run_id == run ]

abbrev pub of_stopped_run : List Run → Option RunId → Bool
of_stopped_run runs none = true
of_stopped_run runs (some run) = any (has_stopped run) runs

-- `orphan_predicate`.
unfoldable pub is_orphan : List Run → Row → Bool
is_orphan runs row = is_pending row && of_stopped_run runs row.run_id

abbrev pub fail_orphan : Timestamp → Row → Row
fail_orphan now row = record row {
  message = record (row.message) {
    status = failed;
    completed_at = some now;
    reason_code = some "orphaned";
    reason = some "left non-terminal by a run that stopped without settling it; fire again";
  };
}

unfoldable pub sweep_rows : List Run → Timestamp → List Row → List Row
unfolding is_orphan
sweep_rows runs now [] = []
sweep_rows runs now (row ∷ rows) =
    (if is_orphan runs row then fail_orphan now row else row) ∷ sweep_rows runs now rows

-- Run when a store is opened.
unfoldable pub reconcile_orphans : Store → Timestamp → Store
unfolding sweep_rows
reconcile_orphans s now =
    if not (any (is_orphan s.runs) s.rows)
    then s
    else record s { rows = sweep_rows s.runs now s.rows }
