-- ===== src/Storage/Profile.antt =====
-- The operations of a profile (crates/storage/src/profile.rs). A transaction is a function to an
-- error or to a result with the new database. The printed form of a fresh UUID is an argument.
use lvos.Base.{
  ◌≡◌, refl, ℕ, ◌+◌, String, Bool, true, false, Option, none, some, List, ok, err, ◌>>=◌, ok_or,
  ltb, string_eq, nat_eq, list_eq, if◌then◌else◌, i64_limit,
}
use lvos.Base.Int.{ℤ}
use lvos.Base.Text.{ascii}
use lvos.Base.Table.{get, put}
use lvos.Core.Content.{protocol_name, key_text}
use lvos.Storage.Model.{
  StorageResult, StorageError, sqlite, missing_history, invalid_data, HistoryEntry, QueryStats,
  Favorite, FavoriteColumns, ContentColumns, StoredContent, TranslationSnapshot, favorite_upsert,
  ProfileDatabase, Libraries,
}
use lvos.Storage.Codec.{parse_history, favorite_tx, sqlite_i64}
use lvos.Storage.Outbox.{upsert_query_stats_event, upsert_favorite_event}

-- A transaction that returns early, or whose COMMIT fails, is rolled back.
abbrev pub transact {ℓ} :
    {A : Type ℓ}
    → Bool
    → ProfileDatabase
    → StorageResult (A × ProfileDatabase)
    → StorageResult A × ProfileDatabase
transact committed db (err e) = (err e, db)
transact true db (ok (a, db')) = (ok a, db')
transact false db (ok (a, db')) = (err sqlite, db)

-- What holds after an error, where nothing changed, and after a commit holds after the transaction.
pub transact-cases {ℓ κ} :
    {A : Type ℓ} (P : StorageResult A × ProfileDatabase → Type κ) (committed : Bool)
    (db : ProfileDatabase) (m : StorageResult (A × ProfileDatabase))
    → ((e : StorageError) → P (err e, db))
    → ((done : A × ProfileDatabase) → m ≡ ok done → P (ok done.0, done.1))
    → P (transact committed db m)
transact-cases P committed db (err e) failure success = failure e
transact-cases P true db (ok (a, db')) failure success = success (a, db') refl
transact-cases P false db (ok (a, db')) failure success = failure sqlite

pub transact-ok {ℓ} :
    {A : Type ℓ} (committed : Bool) (db : ProfileDatabase) (m : StorageResult (A × ProfileDatabase))
    {a : A} {db' : ProfileDatabase}
    → transact committed db m ≡ (ok a, db')
    → m ≡ ok (a, db')
transact-ok true db (ok (a, db')) h = cc
transact-ok false db (ok (a, db')) h = cc
transact-ok committed db (err e) h = cc

abbrev pub columns_of : StoredContent → TranslationSnapshot → ContentColumns
columns_of content translation = record {
  key_version = content.key_version;
  kind = protocol_name content.kind;
  source_lang = ascii content.source_lang;
  target_lang = ascii translation.target_lang;
  source_text = content.source_text;
  canonical_text = content.canonical_text;
  translation = translation.translation;
  provider = translation.provider;
}

unfoldable pub upsert_history : ProfileDatabase → HistoryEntry → ProfileDatabase
unfolding put
upsert_history db entry = record db {
  history_entries = put db.history_entries (key_text entry.content.content_key) (record {
    content = columns_of entry.content entry.translation;
    last_queried_at = entry.last_queried_at;
    translation_updated_at = entry.translation.updated_at;
  });
}

abbrev pub first_query : ℤ → QueryStats
first_query time = record {
  device_query_count = 1;
  first_queried_at = time;
  last_queried_at = time;
  last_synced_device_query_count = 0;
  server_total_query_count = 0;
  server_first_queried_at = none;
  server_last_queried_at = none;
  server_snapshot_at = none;
}

-- INSERT ... ON CONFLICT DO UPDATE of a counter. A count past `i64` becomes a REAL, which the read
-- back refuses.
unfoldable pub counted_query : Option QueryStats → ℤ → StorageResult QueryStats
counted_query none time = ok (first_query time)
counted_query (some stats) time =
    if ltb (stats.device_query_count + 1) i64_limit
    then ok
        (record stats { device_query_count = stats.device_query_count + 1; last_queried_at = time })
    else err sqlite

-- EXISTS(SELECT 1 FROM favorites WHERE content_key = ?1)
unfoldable pub in_sync_domain : ProfileDatabase → String → Bool
unfolding get
in_sync_domain db content_key = elim (get db.favorites content_key) [
  | none ↦ false
  | some row ↦ true
]

abbrev pub count_query : ProfileDatabase → HistoryEntry → QueryStats → ProfileDatabase
count_query db entry stats =
    let recorded = upsert_history db entry in
    record recorded {
      query_stats = put recorded.query_stats (key_text entry.content.content_key) stats;
    }

unfoldable pub record_transaction :
    Libraries
    → String
    → ProfileDatabase
    → HistoryEntry
    → StorageResult (QueryStats × ProfileDatabase)
unfolding upsert_history counted_query in_sync_domain upsert_query_stats_event
record_transaction libraries event_id db entry = do
  stats ←
      counted_query (get db.query_stats (key_text entry.content.content_key)) entry.last_queried_at
  let recorded = count_query db entry stats
  db' ←
      if in_sync_domain recorded (key_text entry.content.content_key)
      then upsert_query_stats_event libraries event_id recorded entry.content.content_key stats
          entry.last_queried_at
      else ok recorded
  ok (stats, db')

unfoldable pub record_successful_query :
    Libraries
    → String
    → Bool
    → ProfileDatabase
    → HistoryEntry
    → StorageResult QueryStats × ProfileDatabase
unfolding record_transaction
record_successful_query libraries event_id committed db entry =
    transact committed db (record_transaction libraries event_id db entry)

-- The row that a favorite gets; one that was there keeps its revision.
abbrev pub activated : HistoryEntry → ℕ → ℤ → FavoriteColumns
activated history entity_revision now = record {
  content = columns_of history.content history.translation;
  created_at = now;
  updated_at = now;
  deleted_at = none;
  entity_revision = entity_revision;
}

unfoldable pub stored_history : ProfileDatabase → List ℕ → StorageResult HistoryEntry
unfolding get parse_history
stored_history db key = elim (get db.history_entries (key_text key)) [
  | none ↦ err missing_history
  | some row ↦ parse_history (key_text key) row
]

abbrev pub revision_of : Option Favorite → ℕ
revision_of none = 0
revision_of (some favorite) = favorite.entity_revision

abbrev pub active : Option Favorite → Option Favorite
active none = none
active (some favorite) = elim favorite.deleted_at [ none ↦ some favorite | some time ↦ none ]

unfoldable pub activate :
    Libraries
    → String
    → ProfileDatabase
    → List ℕ
    → HistoryEntry
    → ℕ
    → QueryStats
    → ℤ
    → StorageResult (Favorite × ProfileDatabase)
unfolding put upsert_favorite_event favorite_tx
activate libraries event_id db key history entity_revision stats now = do
  revision ← sqlite_i64 entity_revision
  let written = record db {
    favorites = put db.favorites (key_text key) (activated history revision now);
  }
  db' ←
      upsert_favorite_event libraries event_id written key "active" entity_revision stats now
        favorite_upsert
  found ← favorite_tx db' key
  favorite ← ok_or found (invalid_data "favorite upsert disappeared")
  ok (favorite, db')

unfoldable pub favorite_from_history_tx :
    Libraries → String → ProfileDatabase → List ℕ → ℤ → StorageResult (Favorite × ProfileDatabase)
unfolding stored_history favorite_tx activate
favorite_from_history_tx libraries event_id db key now = do
  history ← stored_history db key
  stats ←
      ok_or (get db.query_stats (key_text key)) (invalid_data "favorite query stats are missing")
  existing ← favorite_tx db key
  elim (active existing) [
    | some favorite ↦ ok (favorite, db)
    | none ↦ activate libraries event_id db key history (revision_of existing) stats now
  ]

-- The read that follows the commit.
abbrev pub read_back :
    String
    → List ℕ
    → StorageResult Favorite × ProfileDatabase
    → StorageResult Favorite × ProfileDatabase
read_back message key (err e, db) = (err e, db)
read_back message key (ok done, db) =
    (favorite_tx db key >>= λ found. ok_or found (invalid_data message), db)

unfoldable pub favorite :
    Libraries
    → String
    → Bool
    → ProfileDatabase
    → List ℕ
    → ℤ
    → StorageResult Favorite × ProfileDatabase
unfolding favorite_from_history_tx
favorite libraries event_id committed db key now =
    read_back "favorite upsert disappeared" key
      (transact committed db (favorite_from_history_tx libraries event_id db key now))
