-- ===== src/Server/Stats.antt =====
-- `merge_query_stats` of apps/server/src/sync_repository.rs: a device's own counters only grow.
use lvos.Base.{
  ℕ, String, Bool, true, false, ◌&&◌, Option, none, some, ◌==◌, nat_eq, int_eq, string_eq, pair_eq,
  if◌then◌else◌, max, ok, ◌>>=◌, ◌>>◌, guard, ok_or, i64_try_from,
}
use lvos.Base.Int.{min_ℤ, max_ℤ}
use lvos.Base.Table.{get, put}
use lvos.Protocol.{QueryStatsSnapshot}
use lvos.Server.Database.{Database, SyncResult, StatsRow, repository, database, invalid_event}
use lvos.Server.Rows.{has_favorite}

-- The counters that a device reports, as a row.
abbrev pub reported : ℕ → QueryStatsSnapshot → StatsRow
reported query_count stats = record {
  query_count = query_count;
  first_queried_at = stats.first_queried_at;
  last_queried_at = stats.last_queried_at;
  updated_at = stats.updated_at;
}

-- The closure that merges the stored row with the reported one.
unfoldable pub merged_row : StatsRow → StatsRow → StatsRow
merged_row value stats = record {
  query_count = max value.query_count stats.query_count;
  first_queried_at = min_ℤ value.first_queried_at stats.first_queried_at;
  last_queried_at = max_ℤ value.last_queried_at stats.last_queried_at;
  updated_at = max_ℤ value.updated_at stats.updated_at;
}

unfoldable pub stats_row_beq : StatsRow → StatsRow → Bool
stats_row_beq a b =
    a.query_count == b.query_count
    && (a.first_queried_at == b.first_queried_at
        && (a.last_queried_at == b.last_queried_at && a.updated_at == b.updated_at))

-- The device of the foreign key is registered.
unfoldable pub has_device : Database → String → String → Bool
has_device db user_id device_id = elim (get db.devices (user_id, device_id)) [
  | none ↦ false
  | some device ↦ true
]

-- Whether a row changed, and the database after. The foreign keys of a new row are checked; those
-- of a row that is there were checked when it was new.
unfoldable pub store_stats :
    Database → String → String → String → StatsRow → Option StatsRow → SyncResult (Bool × Database)
unfolding merged_row stats_row_beq has_device has_favorite
store_stats db user_id device_id content_key stats none = do
  guard (has_device db user_id device_id && has_favorite db user_id content_key)
      (repository database)
  ok (
    true,
    record db {
      device_query_stats = put db.device_query_stats (user_id, (content_key, device_id)) stats;
    },
  )
store_stats db user_id device_id content_key stats (some value) =
    let merged = merged_row value stats in
    if stats_row_beq value merged
    then ok (false, db)
    else ok (
      true,
      record db {
        device_query_stats = put db.device_query_stats (user_id, (content_key, device_id)) merged;
      },
    )

unfoldable pub merge_query_stats :
    Database → String → String → String → QueryStatsSnapshot → SyncResult (Bool × Database)
unfolding store_stats
merge_query_stats db user_id device_id content_key stats = do
  query_count ← ok_or (i64_try_from stats.query_count) invalid_event
  store_stats db user_id device_id content_key (reported query_count stats)
      (get db.device_query_stats (user_id, (content_key, device_id)))
