-- ===== src/Storage/Outbox.antt =====
-- The rows of `sync_outbox`: `upsert_outbox` and the coalesce keys of crates/storage/src/profile.rs,
-- and the statements that other functions run on this table.
pub mod Unique
pub mod Upsert
pub mod Pending
use lvos.Base.{
  ℕ, ◌+◌, String, Bool, true, false, ◌||◌, Option, none, some, List, [], ◌∷◌, ◌++◌, ok, err, ◌>>=◌,
  ◌>>◌, ◌==◌, string_eq, if◌then◌else◌,
}
use Prim.Native.String
use lvos.Base.Int.{ℤ}
use lvos.Core.Content.{key_text}
use lvos.Storage.Model.{
  StorageResult, sqlite, json, OutboxOperation, query_stats_upsert, OutboxRow, QueryStats,
  ProfileDatabase, Libraries, QueryStatsPayload, FavoritePayload,
}
use lvos.Storage.Codec.{as_str, sqlite_i64}

unfoldable pub favorite_coalesce_key : List ℕ → String
unfolding key_text
favorite_coalesce_key key = String.◌++◌ "favorite:" (key_text key)

unfoldable pub query_stats_coalesce_key : List ℕ → String → String
unfolding key_text
query_stats_coalesce_key key device_id =
    String.◌++◌ "query_stats:" (String.◌++◌ device_id (String.◌++◌ ":" (key_text key)))

-- WHERE coalesce_key = ?1, which no NULL satisfies.
abbrev pub is_coalesced : String → OutboxRow → Bool
is_coalesced key row = elim row.coalesce_key [ none ↦ false | some own ↦ own == key ]

abbrev pub is_event : String → OutboxRow → Bool
is_event event_id row = row.event_id == event_id

-- EXISTS(SELECT 1 ... WHERE ...)
unfoldable pub exists_row : (OutboxRow → Bool) → List OutboxRow → Bool
exists_row test [] = false
exists_row test (row ∷ rows) = test row || exists_row test rows

-- The first row that a SELECT gives.
unfoldable pub find_row : (OutboxRow → Bool) → List OutboxRow → Option OutboxRow
find_row test [] = none
find_row test (row ∷ rows) = let rest = find_row test rows in if test row then some row else rest

-- UPDATE ... WHERE ...
unfoldable pub update_rows :
    (OutboxRow → Bool) → (OutboxRow → OutboxRow) → List OutboxRow → List OutboxRow
update_rows test change [] = []
update_rows test change (row ∷ rows) =
    (if test row then change row else row) ∷ update_rows test change rows

-- DELETE ... WHERE ...
unfoldable pub delete_rows : (OutboxRow → Bool) → List OutboxRow → List OutboxRow
delete_rows test [] = []
delete_rows test (row ∷ rows) =
    let rest = delete_rows test rows in if test row then rest else row ∷ rest

pub record PendingOutbox : Type 0 where
  pub event_id : String
  pub key : List ℕ
  pub operation : OutboxOperation
  pub payload : String
  pub coalesce_key : String
  pub revision : Option ℕ
  pub now : ℤ

abbrev pub fresh_row : PendingOutbox → Option ℕ → OutboxRow
fresh_row event revision = record {
  event_id = event.event_id;
  content_key = key_text event.key;
  operation = as_str event.operation;
  payload_json = some event.payload;
  coalesce_key = some event.coalesce_key;
  base_entity_revision = revision;
  created_at = event.now;
  updated_at = event.now;
  attempt_count = 0;
  next_retry_at = none;
  last_error = none;
  conflict_replay_count = 0;
}

-- DO UPDATE SET ...: the row keeps its content key, its creation and its count of replays.
abbrev pub coalesced_row : PendingOutbox → Option ℕ → OutboxRow → OutboxRow
coalesced_row event revision row = record row {
  event_id = event.event_id;
  operation = as_str event.operation;
  payload_json = some event.payload;
  base_entity_revision = revision;
  updated_at = event.now;
  attempt_count = 0;
  next_retry_at = none;
  last_error = none;
}

-- `event.revision.map(to_i64).transpose()`
unfoldable pub optional_sqlite : Option ℕ → StorageResult (Option ℕ)
optional_sqlite none = ok none
optional_sqlite (some n) = sqlite_i64 n >>= λ value. ok (some value)

-- INSERT ... ON CONFLICT(coalesce_key) DO UPDATE. A primary key that is taken is an error, also
-- where the coalesce key is taken.
unfoldable pub write_outbox :
    PendingOutbox → Option ℕ → List OutboxRow → StorageResult (List OutboxRow)
unfolding exists_row update_rows
write_outbox event revision rows =
    if exists_row (is_event event.event_id) rows
    then err sqlite
    else if exists_row (is_coalesced event.coalesce_key) rows
    then ok (update_rows (is_coalesced event.coalesce_key) (coalesced_row event revision) rows)
    else ok (rows ++ fresh_row event revision ∷ [])

unfoldable pub upsert_outbox : PendingOutbox → ProfileDatabase → StorageResult ProfileDatabase
unfolding optional_sqlite write_outbox
upsert_outbox event db = do
  revision ← optional_sqlite event.revision
  rows ← write_outbox event revision db.sync_outbox
  ok (record db { sync_outbox = rows })

abbrev pub stats_payload : List ℕ → QueryStats → QueryStatsPayload
stats_payload key stats = record {
  content_key = key_text key;
  device_query_count = stats.device_query_count;
  first_queried_at = stats.first_queried_at;
  last_queried_at = stats.last_queried_at;
}

-- `?` on the result of serde_json.
abbrev pub to_string : Option String → StorageResult String
to_string none = err json
to_string (some value) = ok value

-- `event_id` is the fresh UUID, printed.
abbrev pub stats_event : String → String → List ℕ → String → ℤ → PendingOutbox
stats_event event_id device_id key payload now = record {
  event_id = event_id;
  key = key;
  operation = query_stats_upsert;
  payload = payload;
  coalesce_key = query_stats_coalesce_key key device_id;
  revision = none;
  now = now;
}

unfoldable pub upsert_query_stats_event :
    Libraries → String → ProfileDatabase → List ℕ → QueryStats → ℤ → StorageResult ProfileDatabase
unfolding upsert_outbox
upsert_query_stats_event libraries event_id db key stats now = do
  payload ← to_string (libraries.query_stats_json (stats_payload key stats))
  upsert_outbox (stats_event event_id db.profile_meta.device_id key payload now) db

abbrev pub favorite_payload : List ℕ → String → ℕ → QueryStats → FavoritePayload
favorite_payload key desired_state revision stats = record {
  content_key = key_text key;
  desired_state = desired_state;
  base_entity_revision = revision;
  query_stats = stats_payload key stats;
}

abbrev pub favorite_event : String → List ℕ → String → ℕ → ℤ → OutboxOperation → PendingOutbox
favorite_event event_id key payload revision now operation = record {
  event_id = event_id;
  key = key;
  operation = operation;
  payload = payload;
  coalesce_key = favorite_coalesce_key key;
  revision = some revision;
  now = now;
}

unfoldable pub upsert_favorite_event :
    Libraries
    → String
    → ProfileDatabase
    → List ℕ
    → String
    → ℕ
    → QueryStats
    → ℤ
    → OutboxOperation
    → StorageResult ProfileDatabase
unfolding upsert_outbox
upsert_favorite_event libraries event_id db key desired_state revision stats now operation = do
  payload ← to_string (libraries.favorite_json (favorite_payload key desired_state revision stats))
  upsert_outbox (favorite_event event_id key payload revision now operation) db
