-- ===== src/Server/Rows.antt =====
-- The reads and the change record that the sync repository shares
-- (apps/server/src/sync_repository.rs). A statement that SQLite refuses is a `database` error:
-- a key that is taken, a foreign key with no row, a CHECK that fails, a SUM or a sum past `i64`.
use lvos.Base.{
  ℕ, ◌+◌, String, Bool, true, false, ◌&&◌, Option, none, some, List, [], ◌∷◌, ltb, ◌==◌, string_eq,
  nat_eq, pair_eq, if◌then◌else◌, ok, err, ◌>>=◌, ◌>>◌, guard, ok_or, i64_limit, i64_try_from,
}
use lvos.Base.Int.{ℤ, min_ℤ, max_ℤ}
use lvos.Base.Table.{Table, get, put, insert}
use lvos.Protocol.{
  SyncOperation, favorite_upsert, favorite_delete, query_stats_upsert, AggregateQueryStats,
  FavoriteRecord,
}
use lvos.Server.Database.{
  Database, SyncResult, FavoriteRow, UserRow, StatsRow, repository, database, invalid_event,
}

abbrev pub failed {ℓ} : {A : Type ℓ} → SyncResult A
failed = err (repository database)

unfoldable pub operation_name : SyncOperation → String
operation_name favorite_upsert = "favorite_upsert"
operation_name favorite_delete = "favorite_delete"
operation_name query_stats_upsert = "query_stats_upsert"

unfoldable pub parse_operation : String → SyncResult SyncOperation
parse_operation value =
    if value == "favorite_upsert"
    then ok favorite_upsert
    else if value == "favorite_delete"
    then ok favorite_delete
    else if value == "query_stats_upsert"
    then ok query_stats_upsert
    else err invalid_event

-- SELECT sync_revision FROM users WHERE user_id = ?1
unfoldable pub user_revision : Database → String → SyncResult ℕ
user_revision db user_id = elim (get db.users user_id) [
  | none ↦ failed
  | some user ↦ ok user.sync_revision
]

-- The rows of `device_query_stats` for one user and content, over all devices.
unfoldable pub content_stats :
    Table (String × (String × String)) StatsRow → String → String → List StatsRow
content_stats [] user_id content_key = []
content_stats (((user, (content, device)), row) ∷ rows) user_id content_key =
    let rest = content_stats rows user_id content_key in
    if user == user_id && content == content_key then row ∷ rest else rest

-- SUM(query_count), MIN(first_queried_at), MAX(last_queried_at); NULL over no row.
unfoldable pub summarize : List StatsRow → Option AggregateQueryStats
summarize [] = none
summarize (row ∷ rows) = elim (summarize rows) [
  | none ↦ some (record {
    query_count = row.query_count;
    first_queried_at = row.first_queried_at;
    last_queried_at = row.last_queried_at;
  })
  | some total ↦ some (record {
    query_count = row.query_count + total.query_count;
    first_queried_at = min_ℤ row.first_queried_at total.first_queried_at;
    last_queried_at = max_ℤ row.last_queried_at total.last_queried_at;
  })
]

-- SQLite's SUM refuses a total past `i64`.
unfoldable pub checked_total : Option AggregateQueryStats → SyncResult (Option AggregateQueryStats)
checked_total none = ok none
checked_total (some total) = if ltb total.query_count i64_limit then ok (some total) else failed

unfoldable pub aggregate_stats :
    Database → String → String → SyncResult (Option AggregateQueryStats)
unfolding content_stats summarize checked_total
aggregate_stats db user_id content_key =
    checked_total (summarize (content_stats db.device_query_stats user_id content_key))

abbrev pub to_record : String → FavoriteRow → Option AggregateQueryStats → FavoriteRecord
to_record content_key row aggregate = record {
  content_key = content_key;
  key_version = row.key_version;
  favorite = row.favorite;
  deleted_at = row.deleted_at;
  entity_revision = row.entity_revision;
  server_received_at = row.server_received_at;
  aggregate_query_stats = aggregate;
}

unfoldable pub favorite_record : Database → String → String → SyncResult (Option FavoriteRecord)
favorite_record db user_id content_key = elim (get db.favorites (user_id, content_key)) [
  | none ↦ ok none
  | some row ↦ aggregate_stats db user_id content_key >>= λ aggregate.
      ok (some (to_record content_key row aggregate))
]

-- `favorites` has a row for the foreign key.
unfoldable pub has_favorite : Database → String → String → Bool
has_favorite db user_id content_key = elim (get db.favorites (user_id, content_key)) [
  | none ↦ false
  | some row ↦ true
]

-- INSERT INTO change_log, with its keys and CHECKs.
unfoldable pub log_change :
    Database → String → ℕ → String → ℕ → SyncOperation → ℤ → SyncResult Database
log_change db user_id revision content_key entity_revision operation now = do
  stored ← ok_or (i64_try_from entity_revision) invalid_event
  guard (ltb 0 stored && has_favorite db user_id content_key) (repository database)
  log ←
      ok_or
        (insert db.change_log (user_id, revision)
          (record {
            content_key = content_key;
            entity_revision = stored;
            operation = operation_name operation;
            changed_at = now;
          }))
        (repository database)
  ok (record db { change_log = log })

-- The row of `users` counts up, and the change is logged under the new revision. A revision past
-- `i64` becomes a REAL in SQLite, which the read back refuses.
unfoldable pub log_next :
    Database → String → UserRow → String → ℕ → SyncOperation → ℤ → SyncResult (ℕ × Database)
log_next db user_id user content_key entity_revision operation now = do
  revision ← ok_or (i64_try_from (user.sync_revision + 1)) (repository database)
  db' ←
      log_change
        (record db { users = put db.users user_id (record user { sync_revision = revision }) })
        user_id revision content_key entity_revision operation now
  ok (revision, db')

unfoldable pub record_change :
    Database → String → String → ℕ → SyncOperation → ℤ → SyncResult (ℕ × Database)
record_change db user_id content_key entity_revision operation now = elim (get db.users user_id) [
  | none ↦ failed
  | some user ↦ log_next db user_id user content_key entity_revision operation now
]
