-- ===== src/Store/Rows.antt =====
-- core/src/store/mod.rs: what an insertion and an update do to the rows.
use core_tempo.Common.{
  ℕ, ◌+◌, ◌≡◌, refl, ◌∙◌, Bool, true, false, List, [], ◌∷◌, ◌++◌, Option, none, some, arith, ◌==◌,
  ==_iff, string_eq, if◌then◌else◌, Bool-cases, inl, inr, any, count, find,
}
use core_tempo.Types.Ids.{MessageId}
use core_tempo.Types.Message.{MessageRecord}
use core_tempo.Store.{
  Row, Store, ok, has_id, set_columns, update_rows, update_message, insert_message,
}

-- No two rows have one identifier.
abbrev pub Unique : List Row → Type 0
Unique [] = Unit {0}
Unique (row ∷ rows) = (any (has_id row.message.id) rows ≡ false) × Unique rows

-- A test on the row found, false where there is none.
abbrev pub test : (Row → Bool) → Option Row → Bool
test p none = false
test p (some row) = p row

abbrev pub one_if : Bool → ℕ
one_if b = if b then 1 else 0

pub find-has_id :
    (id : MessageId) (rows : List Row) (row : Row)
    → find (has_id id) rows ≡ some row
    → row.message.id ≡ id
find-has_id id [] row h = cc
find-has_id id (x ∷ rows) row h = elim (Bool-cases (has_id id x)) [
  | inl hit ↦ ground (arith, ==_iff x.message.id id)
  | inr miss ↦ find-has_id id rows row (rw miss at h)
]

pub find_of_absent :
    (id : MessageId) (rows : List Row) → any (has_id id) rows ≡ false → find (has_id id) rows ≡ none
find_of_absent id [] h = refl
find_of_absent id (x ∷ rows) h = ground (arith, find_of_absent id rows)

pub any_of_find :
    (id : MessageId) (rows : List Row) (row : Row)
    → find (has_id id) rows ≡ some row
    → any (has_id id) rows ≡ true
any_of_find id [] row h = cc
any_of_find id (x ∷ rows) row h = ground (arith, any_of_find id rows row)

pub find-append :
    (id : MessageId) (rows : List Row) (row : Row)
    → any (has_id row.message.id) rows ≡ false
    → find (has_id id) (rows ++ row ∷ [])
      ≡ (if row.message.id == id then some row else find (has_id id) rows)
find-append id [] row h = refl
find-append id (x ∷ rows) row h = ground (
  arith,
  find-append id rows row,
  ==_iff x.message.id id,
  ==_iff row.message.id id,
  ==_iff x.message.id row.message.id,
)

update_rows_absent :
    (r : MessageRecord) (rows : List Row)
    → any (has_id r.id) rows ≡ false
    → update_rows r rows ≡ rows
unfolding update_rows
update_rows_absent r [] h = refl
update_rows_absent r (x ∷ rows) h = ground (arith, update_rows_absent r rows)

any-update_rows :
    (id : MessageId) (r : MessageRecord) (rows : List Row)
    → any (has_id id) (update_rows r rows) ≡ any (has_id id) rows
unfolding update_rows
any-update_rows id r [] = refl
any-update_rows id r (x ∷ rows) = ground (arith, any-update_rows id r rows)

pub update_rows-Unique :
    (r : MessageRecord) (rows : List Row) → Unique rows → Unique (update_rows r rows)
unfolding update_rows
update_rows-Unique r [] h = tt
update_rows-Unique r (x ∷ rows) h = elim (Bool-cases (has_id r.id x)) [
  | inl hit ↦ rw hit (any-update_rows x.message.id r rows ∙ h.0, update_rows-Unique r rows h.1)
  | inr miss ↦ rw miss (any-update_rows x.message.id r rows ∙ h.0, update_rows-Unique r rows h.1)
]

any-append :
    (id : MessageId) (rows : List Row) (row : Row)
    → any (has_id id) (rows ++ row ∷ [])
      ≡ (if row.message.id == id then true else any (has_id id) rows)
any-append id [] row = ground arith
any-append id (x ∷ rows) row = ground (arith, any-append id rows row)

pub append-Unique :
    (rows : List Row) (row : Row)
    → any (has_id row.message.id) rows ≡ false
    → Unique rows
    → Unique (rows ++ row ∷ [])
append-Unique [] row h u = (refl, tt)
append-Unique (x ∷ rows) row h u = (
  ground (
    arith,
    any-append x.message.id rows row,
    ==_iff row.message.id x.message.id,
    ==_iff x.message.id row.message.id,
  ),
  append-Unique rows row (ground arith) u.1,
)

pub find-update_rows :
    (id : MessageId) (r : MessageRecord) (rows : List Row)
    → find (has_id id) (update_rows r rows) ≡ (
        if r.id == id
        then (elim (find (has_id id) rows) [ none ↦ none | some row ↦ some (set_columns r row) ])
        else find (has_id id) rows)
unfolding update_rows
find-update_rows id r [] = ground arith
find-update_rows id r (x ∷ rows) = ground (
  arith,
  find-update_rows id r rows,
  ==_iff x.message.id id,
  ==_iff x.message.id r.id,
  ==_iff r.id id,
)

-- A count changes by what the one row changes.
pub count-update_rows :
    (p : Row → Bool) (r : MessageRecord) (rows : List Row) (row : Row)
    → Unique rows
    → find (has_id r.id) rows ≡ some row
    → count p (update_rows r rows) + one_if (p row) ≡ count p rows + one_if (p (set_columns r row))
unfolding update_rows
count-update_rows p r [] row u h = cc
count-update_rows p r (x ∷ rows) row u h = elim (Bool-cases (has_id r.id x)) [
  | inl hit ↦
      let same : row ≡ x = ground arith in
      let absent : any (has_id r.id) rows ≡ false = rw ((==_iff x.message.id r.id).0 hit) at u.0 in
      rw (hit, update_rows_absent r rows absent, same) (omega arith)
  | inr miss ↦ rw miss (omega (arith, count-update_rows p r rows row u.1 (rw miss at h)))
]

-- An accepted insertion adds one row, under a new identifier.
pub insert_message-eq_ok :
    (s : Store) (r : MessageRecord) {t : Store}
    → insert_message s r ≡ ok t
    → (any (has_id r.id) s.rows ≡ false)
      × (t ≡ record s { rows = s.rows ++ record { message = r; run_id = some s.run_id } ∷ [] })
unfolding insert_message
insert_message-eq_ok s r h = ground arith

-- An accepted update changes the rows as `update_rows` says.
pub update_message-eq_ok :
    (s : Store) (r : MessageRecord) {t : Store} {matched : Bool}
    → update_message s r ≡ ok (t, matched)
    → t ≡ record s { rows = update_rows r s.rows }
unfolding update_message
update_message-eq_ok s r h = ground arith
