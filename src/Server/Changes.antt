-- ===== src/Server/Changes.antt =====
-- `changes_since` of apps/server/src/sync_repository.rs: a page of the user's change log.
pub mod Order
pub mod Page
use lvos.Base.{
  ℕ, String, Bool, Option, List, [], ◌∷◌, take, leb, ltb, ◌==◌, string_eq, if◌then◌else◌, ok, ◌>>=◌,
  ok_or, i64_try_from,
}
use lvos.Base.Table.{Table}
use lvos.Protocol.{SyncChange, ChangesResponse}
use lvos.Server.Database.{Database, SyncResult, ChangeRow, invalid_event}
use lvos.Server.Rows.{user_revision, favorite_record, parse_operation}

-- The rows of one user, each under its revision.
unfoldable pub user_changes : Table (String × ℕ) ChangeRow → String → List (ℕ × ChangeRow)
user_changes [] user_id = []
user_changes (((user, revision), row) ∷ log) user_id =
    let rest = user_changes log user_id in if user == user_id then (revision, row) ∷ rest else rest

-- AND revision > ?2
unfoldable pub changes_after : ℕ → List (ℕ × ChangeRow) → List (ℕ × ChangeRow)
changes_after since [] = []
changes_after since ((revision, row) ∷ rows) =
    let rest = changes_after since rows in
    if ltb since revision then (revision, row) ∷ rest else rest

-- ORDER BY revision
unfoldable pub insert_ordered : ℕ × ChangeRow → List (ℕ × ChangeRow) → List (ℕ × ChangeRow)
insert_ordered change [] = change ∷ []
insert_ordered change (head ∷ rows) =
    if leb change.0 head.0 then change ∷ head ∷ rows else head ∷ insert_ordered change rows

unfoldable pub order_by_revision : List (ℕ × ChangeRow) → List (ℕ × ChangeRow)
order_by_revision [] = []
order_by_revision (change ∷ rows) = insert_ordered change (order_by_revision rows)

unfoldable pub read_change : Database → String → ℕ × ChangeRow → SyncResult SyncChange
read_change db user_id (revision, row) = do
  found ← favorite_record db user_id row.content_key
  favorite ← ok_or found invalid_event
  operation ← parse_operation row.operation
  ok (record { revision = revision; operation = operation; favorite = favorite })

unfoldable pub read_changes :
    Database → String → List (ℕ × ChangeRow) → SyncResult (List SyncChange)
read_changes db user_id [] = ok []
read_changes db user_id (row ∷ rows) = do
  change ← read_change db user_id row
  changes ← read_changes db user_id rows
  ok (change ∷ changes)

-- `changes.last().map_or(since, |change| change.revision)`
unfoldable pub last_revision : ℕ → List SyncChange → ℕ
last_revision since [] = since
last_revision since (change ∷ changes) = last_revision change.revision changes

-- The SELECT with its ORDER BY and LIMIT.
unfoldable pub select_changes : Database → String → ℕ → ℕ → List (ℕ × ChangeRow)
select_changes db user_id since limit =
    take limit (order_by_revision (changes_after since (user_changes db.change_log user_id)))

unfoldable pub changes_since : Database → String → ℕ → ℕ → SyncResult ChangesResponse
changes_since db user_id since limit = do
  latest_revision ← user_revision db user_id
  since_database ← ok_or (i64_try_from since) invalid_event
  limit_database ← ok_or (i64_try_from limit) invalid_event
  changes ← read_changes db user_id (select_changes db user_id since_database limit_database)
  let next_revision = last_revision since changes
  ok (record {
    changes = changes;
    next_revision = next_revision;
    latest_revision = latest_revision;
    has_more = ltb next_revision latest_revision;
  })
