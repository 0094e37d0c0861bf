-- ===== src/Router/History.antt =====
-- core/src/router/mod.rs: the life of a message, across all calls. `Kept` is what later states hold of a row.
pub mod Paths
pub mod Run
use core_tempo.Common.{
  ℕ, ◌≡◌, refl, ◌∙◌, Bool, true, false, Option, none, some, arith, leb, find, ==_iff, ==_refl, ◌==◌,
  string_eq, List, [], ◌∷◌, Bool-cases, inl, inr,
}
use core_tempo.Types.Ids.{AgentId, MessageId, RunId, Timestamp}
use core_tempo.Types.Message.{
  MessageRecord, MessageKind, MessageStatus, queued, injected, working, done, replied, failed,
  Origin, is_terminal, status_eq,
}
use core_tempo.Store.{Row, has_id, update_rows, set_columns}
use core_tempo.Store.Rows.{find-update_rows, find-has_id}
use core_tempo.Router.State.{Router}

-- How far a message has come.
abbrev pub rank : MessageStatus → ℕ
rank queued = 0
rank injected = 1
rank working = 2
rank done = 3
rank replied = 3
rank failed = 3

-- `later` is the same message, no less far on its way.
pub record Advances (row : Row) (later : Row) : Type 0 where
  pub id : later.message.id ≡ row.message.id
  pub kind : later.message.kind ≡ row.message.kind
  pub from : later.message.from ≡ row.message.from
  pub to : later.message.to ≡ row.message.to
  pub body : later.message.body ≡ row.message.body
  pub created_at : later.message.created_at ≡ row.message.created_at
  pub run_id : later.run_id ≡ row.run_id
  pub forward : leb (rank row.message.status) (rank later.message.status) ≡ true

-- And it is unchanged once it has ended.
pub record Follows (row : Row) (later : Row) : Type 0 where
  pub advances : Advances row later
  pub final : is_terminal row.message.status ≡ true → later ≡ row

-- The row has a later form under the identifier.
pub record Kept (id : MessageId) (row : Row) (rows : List Row) : Type 0 where
  pub later : Row
  pub found : find (has_id id) rows ≡ some later
  pub follows : Follows row later

-- No row of `old` is lost in `new`, and none changes but forward.
abbrev pub Extends : List Row → List Row → Type 0
Extends new old = (id : MessageId) (row : Row) → find (has_id id) old ≡ some row → Kept id row new

pub Follows-refl : (row : Row) → Follows row row
Follows-refl row = record {
  advances = record {
    id = refl;
    kind = refl;
    from = refl;
    to = refl;
    body = refl;
    created_at = refl;
    run_id = refl;
    forward = ground arith;
  };
  final = λ ended. refl;
}

Follows-trans : (a b c : Row) → Follows a b → Follows b c → Follows a c
Follows-trans a b c f g =
    let x = f.advances in
    let y = g.advances in
    record {
      advances = record {
        id = y.id ∙ x.id;
        kind = y.kind ∙ x.kind;
        from = y.from ∙ x.from;
        to = y.to ∙ x.to;
        body = y.body ∙ x.body;
        created_at = y.created_at ∙ x.created_at;
        run_id = y.run_id ∙ x.run_id;
        forward = ground (arith, x.forward, y.forward);
      };
      final = λ ended. let same = f.final ended in g.final (rw same ended) ∙ same;
    }

pub Extends-refl : (rows : List Row) → Extends rows rows
Extends-refl rows id row found = record { later = row; found = found; follows = Follows-refl row }

pub Extends-trans : (new mid old : List Row) → Extends mid old → Extends new mid → Extends new old
Extends-trans new mid old f g id row found =
    let k = f id row found in
    let l = g id k.later k.found in
    record {
      later = l.later;
      found = l.found;
      follows = Follows-trans row k.later l.later k.follows l.follows;
    }

-- The update of a row that has not ended, to a status no less far on.
pub update-Extends :
    (r : MessageRecord) (rows : List Row) (row : Row)
    → find (has_id r.id) rows ≡ some row
    → is_terminal row.message.status ≡ false
    → leb (rank row.message.status) (rank r.status) ≡ true
    → Extends (update_rows r rows) rows
update-Extends r rows row found going onward id old old_found = elim (Bool-cases (r.id == id)) [
  | inr other ↦ record {
    later = old;
    found = rw (find-update_rows id r rows, other) old_found;
    follows = Follows-refl old;
  }
  | inl hit ↦
      let same : old ≡ row = ground (arith, ==_iff r.id id) in
      record {
        later = set_columns r row;
        found = rw (find-update_rows id r rows, hit, old_found, same) refl;
        follows = rw same (record {
          advances = record {
            id = refl;
            kind = refl;
            from = refl;
            to = refl;
            body = refl;
            created_at = refl;
            run_id = refl;
            forward = onward;
          };
          final = λ ended. absurd (ground (arith, ended, going));
        });
      }
]
