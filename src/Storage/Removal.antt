-- ===== src/Storage/Removal.antt =====
-- The operations of crates/storage/src/profile.rs that take favorites and history away, and
-- `acknowledge_favorite`.
use lvos.Base.{
  ℕ, String, Bool, not, Option, none, some, List, [], ◌∷◌, ok, err, ◌>>=◌, ◌>>◌, guard, ok_or, ◌==◌,
  nat_eq, string_eq, if◌then◌else◌,
}
use lvos.Base.Int.{ℤ}
use lvos.Base.Table.{Table, get, put}
use lvos.Core.Content.{key_text}
use lvos.Storage.Model.{
  StorageResult, invalid_data, QueryStats, Favorite, FavoriteColumns, favorite_delete,
  ProfileDatabase, Libraries,
}
use lvos.Storage.Codec.{favorite_tx, sqlite_i64}
use lvos.Storage.Outbox.{
  upsert_favorite_event, favorite_coalesce_key, query_stats_coalesce_key, delete_rows, is_coalesced,
}
use lvos.Storage.Profile.{transact, in_sync_domain}

-- UPDATE favorites SET ... WHERE content_key = ?1: no row is no error.
unfoldable pub update_favorite :
    Table String FavoriteColumns
    → String
    → (FavoriteColumns → FavoriteColumns)
    → Table String FavoriteColumns
unfolding get put
update_favorite favorites content_key change = elim (get favorites content_key) [
  | none ↦ favorites
  | some row ↦ put favorites content_key (change row)
]

abbrev pub buried : ℤ → FavoriteColumns → FavoriteColumns
buried now row = record row { updated_at = now; deleted_at = some now }

-- The tombstone, and the query counter that is no longer sent.
unfoldable pub bury : ProfileDatabase → List ℕ → ℤ → ProfileDatabase
unfolding update_favorite query_stats_coalesce_key delete_rows
bury db key now = record db {
  favorites = update_favorite db.favorites (key_text key) (buried now);
  sync_outbox =
      delete_rows (is_coalesced (query_stats_coalesce_key key db.profile_meta.device_id))
        db.sync_outbox;
}

-- DELETE FROM sync_outbox WHERE coalesce_key = ?1
unfoldable pub forget_favorite_event : ProfileDatabase → List ℕ → ProfileDatabase
unfolding favorite_coalesce_key delete_rows
forget_favorite_event db key = record db {
  sync_outbox = delete_rows (is_coalesced (favorite_coalesce_key key)) db.sync_outbox;
}

unfoldable pub unfavorite_active :
    Libraries → String → ProfileDatabase → List ℕ → ℕ → ℤ → StorageResult ProfileDatabase
unfolding bury forget_favorite_event upsert_favorite_event
unfavorite_active libraries event_id db key entity_revision now = do
  stats ←
      ok_or (get db.query_stats (key_text key)) (invalid_data "favorite query stats are missing")
  (if entity_revision == 0
      then ok (forget_favorite_event (bury db key now) key)
      else upsert_favorite_event libraries event_id (bury db key now) key "deleted" entity_revision
          stats now favorite_delete)

-- The transaction gives the favorite that is returned at once, where it is a tombstone already.
unfoldable pub unfavorite_transaction :
    Libraries
    → String
    → ProfileDatabase
    → List ℕ
    → ℤ
    → StorageResult (Option Favorite × ProfileDatabase)
unfolding favorite_tx unfavorite_active
unfavorite_transaction libraries event_id db key now = do
  found ← favorite_tx db key
  favorite ← ok_or found (invalid_data "favorite does not exist")
  elim favorite.deleted_at [
    | some time ↦ ok (some favorite, db)
    | none ↦ unfavorite_active libraries event_id db key favorite.entity_revision now >>= λ written.
        ok (none, written)
  ]

abbrev pub read_tombstone :
    List ℕ
    → StorageResult (Option Favorite) × ProfileDatabase
    → StorageResult Favorite × ProfileDatabase
read_tombstone key (err e, db) = (err e, db)
read_tombstone key (ok (some favorite), db) = (ok favorite, db)
read_tombstone key (ok none, db) = (
  favorite_tx db key >>= λ found. ok_or found (invalid_data "favorite tombstone disappeared"),
  db,
)

unfoldable pub unfavorite :
    Libraries
    → String
    → Bool
    → ProfileDatabase
    → List ℕ
    → ℤ
    → StorageResult Favorite × ProfileDatabase
unfolding unfavorite_transaction
unfavorite libraries event_id committed db key now =
    read_tombstone key
      (transact committed db (unfavorite_transaction libraries event_id db key now))

abbrev pub set_revision : ℕ → FavoriteColumns → FavoriteColumns
set_revision revision row = record row { entity_revision = revision }

unfoldable pub acknowledge_statements : ProfileDatabase → List ℕ → ℕ → StorageResult ProfileDatabase
unfolding in_sync_domain update_favorite forget_favorite_event
acknowledge_statements db key entity_revision = do
  guard (not (entity_revision == 0)) (invalid_data "acknowledged entity revision is zero")
  revision ← sqlite_i64 entity_revision
  guard (in_sync_domain db (key_text key)) (invalid_data "favorite does not exist")
  ok (
      forget_favorite_event
        (record db {
          favorites = update_favorite db.favorites (key_text key) (set_revision revision);
        })
        key)

-- Statements with no transaction: the database after them, or the one from before an error.
abbrev pub settle :
    ProfileDatabase → StorageResult ProfileDatabase → StorageResult (Unit {0}) × ProfileDatabase
settle db (err e) = (err e, db)
settle db (ok db') = (ok tt, db')

-- The second statement is not reached where the first changed no row.
unfoldable pub acknowledge_favorite :
    ProfileDatabase → List ℕ → ℕ → StorageResult (Unit {0}) × ProfileDatabase
unfolding acknowledge_statements
acknowledge_favorite db key entity_revision =
    settle db (acknowledge_statements db key entity_revision)

-- DELETE FROM query_stats WHERE content_key NOT IN (SELECT content_key FROM favorites)
unfoldable pub keep_favorites : ProfileDatabase → Table String QueryStats → Table String QueryStats
unfolding in_sync_domain
keep_favorites db [] = []
keep_favorites db ((content_key, stats) ∷ rows) =
    let rest = keep_favorites db rows in
    if in_sync_domain db content_key then (content_key, stats) ∷ rest else rest

unfoldable pub clear_history : Bool → ProfileDatabase → StorageResult (Unit {0}) × ProfileDatabase
unfolding keep_favorites
clear_history committed db =
    transact committed db
      (ok (tt, record db { history_entries = []; query_stats = keep_favorites db db.query_stats }))
