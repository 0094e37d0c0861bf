-- ===== src/Store/Reads.antt =====
-- core/src/store/mod.rs: what a read returns of what was written.
use core_tempo.Common.{◌≡◌, ◌⊎◌, inl, inr, none, some, find, Option-cases}
use core_tempo.Types.Ids.{MessageId}
use core_tempo.Types.Message.RoundTrip.{
  parse_kind-kind_as_str, parse_status-status_as_str, parse_origin-cases, parse_origin-origin_text,
  HasPayload,
}
use core_tempo.Store.{Row, Store, corrupt_row, ok, err, raw_row, to_record, get_message, has_id}

-- A row is read as it stands, or the read fails.
pub to_record-cases :
    (row : Row)
    → (to_record (raw_row row) ≡ ok row.message)
      ⊎ (to_record (raw_row row) ≡ err (corrupt_row row.message.id))
unfolding to_record
to_record-cases row = elim (parse_origin-cases row.message.from) [
  | inl read ↦ inl (
      rw (
        parse_kind-kind_as_str row.message.kind,
        parse_status-status_as_str row.message.status,
        read,
      ))
  | inr bad ↦ inr (
      rw (
        parse_kind-kind_as_str row.message.kind,
        parse_status-status_as_str row.message.status,
        bad,
      ))
]

-- A row whose origin names someone is read as it stands.
pub to_record-raw_row :
    (row : Row) → HasPayload row.message.from → to_record (raw_row row) ≡ ok row.message
unfolding to_record
to_record-raw_row row h = rw (
  parse_kind-kind_as_str row.message.kind,
  parse_status-status_as_str row.message.status,
  parse_origin-origin_text row.message.from h,
)

-- The three answers of a lookup: no row, the row's record, or a row that cannot be read.
pub data Lookup (s : Store) (id : MessageId) : Type 0 where
  missing : find (has_id id) s.rows ≡ none → get_message s id ≡ ok none → Lookup s id
  present :
      (row : Row)
      → find (has_id id) s.rows ≡ some row
      → get_message s id ≡ ok (some row.message)
      → Lookup s id
  corrupt : (row : Row) → get_message s id ≡ err (corrupt_row row.message.id) → Lookup s id

pub get_message-Lookup : (s : Store) (id : MessageId) → Lookup s id
unfolding get_message
get_message-Lookup s id = elim (Option-cases (find (has_id id) s.rows)) [
  | inl none_found ↦ missing none_found (rw (none_found, get_message))
  | inr (row, found) ↦ elim (to_record-cases row) [
    | inl read ↦ present row found (rw (found, get_message, read))
    | inr bad ↦ corrupt row (rw (found, get_message, bad))
  ]
]
