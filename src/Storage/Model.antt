-- ===== src/Storage/Model.antt =====
-- The data of a profile: crates/storage/src/model.rs, the errors of src/lib.rs, and the tables of
-- MIGRATION_1 and MIGRATION_2 in src/profile.rs. An INTEGER column with a CHECK that it is not
-- negative is a number; a key and a UUID are lists of bytes, and columns hold their printed forms.
use lvos.Base.{ℕ, ◌-◌, String, Bool, Option, none, some, List, Result, saturating_add}
use lvos.Base.Int.{ℤ}
use lvos.Base.Table.{Table}
use lvos.Protocol.{PushAck}
use lvos.Core.Content.{TextKind, Unicode}

-- What an error of SQLite, of a file or of JSON says is left out.
pub data StorageError : Type 0 where
  io json sqlite missing_history : StorageError
  invalid_identifier invalid_data : String → StorageError

abbrev pub StorageResult {ℓ} : Type ℓ → Type ℓ
StorageResult A = Result StorageError A

pub record StoredContent : Type 0 where
  pub content_key : List ℕ
  pub key_version : ℕ
  pub kind : TextKind
  pub source_lang : List ℕ
  pub source_text : String
  pub canonical_text : String

pub record TranslationSnapshot : Type 0 where
  pub target_lang : List ℕ
  pub translation : String
  pub provider : String
  pub updated_at : ℤ

pub record HistoryEntry : Type 0 where
  pub content : StoredContent
  pub translation : TranslationSnapshot
  pub last_queried_at : ℤ

-- Also a row of `query_stats`, whose columns are these.
pub record QueryStats : Type 0 where
  pub device_query_count : ℕ
  pub first_queried_at : ℤ
  pub last_queried_at : ℤ
  pub last_synced_device_query_count : ℕ
  pub server_total_query_count : ℕ
  pub server_first_queried_at : Option ℤ
  pub server_last_queried_at : Option ℤ
  pub server_snapshot_at : Option ℤ

-- The subtraction on `u64` saturates as that of numbers does.
unfoldable pub effective_total : QueryStats → ℕ
effective_total stats = elim stats.server_snapshot_at [
  | none ↦ stats.device_query_count
  | some time ↦
      saturating_add stats.server_total_query_count
        (stats.device_query_count - stats.last_synced_device_query_count)
]

pub record Favorite : Type 0 where
  pub content : StoredContent
  pub translation : TranslationSnapshot
  pub created_at : ℤ
  pub updated_at : ℤ
  pub deleted_at : Option ℤ
  pub entity_revision : ℕ

pub data OutboxOperation : Type 0 where
  favorite_upsert favorite_delete query_stats_upsert : OutboxOperation

pub record OutboxEvent : Type 0 where
  pub event_id : List ℕ
  pub content_key : List ℕ
  pub operation : OutboxOperation
  pub payload_json : String
  pub coalesce_key : String
  pub base_entity_revision : Option ℕ
  pub created_at : ℤ
  pub updated_at : ℤ
  pub attempt_count : ℕ
  pub next_retry_at : Option ℤ
  pub last_error : Option String
  pub conflict_replay_count : ℕ

pub record AcknowledgedEvent : Type 0 where
  pub event : OutboxEvent
  pub acknowledgement : PushAck
  pub sent_query_count : Option ℕ

pub record SyncDiagnostics : Type 0 where
  pub last_server_revision : ℕ
  pub pending_outbox : ℕ
  pub last_successful_sync_at : Option ℤ
  pub last_error : Option String
  pub sse_connected : Bool

pub record QueryStatsPayload : Type 0 where
  pub content_key : String
  pub device_query_count : ℕ
  pub first_queried_at : ℤ
  pub last_queried_at : ℤ

pub record FavoritePayload : Type 0 where
  pub content_key : String
  pub desired_state : String
  pub base_entity_revision : ℕ
  pub query_stats : QueryStatsPayload

-- The columns from `key_version` to `provider`, which two tables share.
pub record ContentColumns : Type 0 where
  pub key_version : ℕ
  pub kind : String
  pub source_lang : String
  pub target_lang : String
  pub source_text : String
  pub canonical_text : String
  pub translation : String
  pub provider : String

-- `history_entries`
pub record HistoryRow : Type 0 where
  pub content : ContentColumns
  pub last_queried_at : ℤ
  pub translation_updated_at : ℤ

-- `favorites`
pub record FavoriteColumns : Type 0 where
  pub content : ContentColumns
  pub created_at : ℤ
  pub updated_at : ℤ
  pub deleted_at : Option ℤ
  pub entity_revision : ℕ

-- `sync_outbox`
pub record OutboxRow : Type 0 where
  pub event_id : String
  pub content_key : String
  pub operation : String
  pub payload_json : Option String
  pub coalesce_key : Option String
  pub base_entity_revision : Option ℕ
  pub created_at : ℤ
  pub updated_at : ℤ
  pub attempt_count : ℕ
  pub next_retry_at : Option ℤ
  pub last_error : Option String
  pub conflict_replay_count : ℕ

-- The row of `profile_meta`.
pub record ProfileMeta : Type 0 where
  pub profile_id : String
  pub user_id : Option String
  pub username : Option String
  pub device_id : String
  pub platform : String
  pub server_origin : Option String
  pub last_server_revision : ℕ
  pub created_at : ℤ
  pub updated_at : ℤ
  pub last_successful_sync_at : Option ℤ
  pub last_sync_error : Option String
  pub sse_connected : Bool

-- An open profile, which always has its row of `profile_meta`.
pub record ProfileDatabase : Type 0 where
  pub profile_meta : ProfileMeta
  pub history_entries : Table String HistoryRow
  pub query_stats : Table String QueryStats
  pub favorites : Table String FavoriteColumns
  pub sync_outbox : List OutboxRow

-- What other libraries do: the Unicode tables, UUIDs as text, and JSON.
pub record Libraries : Type 0 where
  pub unicode : Unicode
  pub uuid_text : List ℕ → String
  pub parse_uuid : String → Option (List ℕ)
  pub favorite_json : FavoritePayload → Option String
  pub query_stats_json : QueryStatsPayload → Option String
