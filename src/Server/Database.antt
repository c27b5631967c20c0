-- ===== src/Server/Database.antt =====
-- The server's database: the tables of the schema in apps/server/src/storage.rs, and the errors of
-- apps/server/src/repository.rs and sync_repository.rs. An INTEGER column with a CHECK that it is
-- not negative is a number. The rows of a table are in insertion order.
use lvos.Base.{ℕ, String, Option, List, Result}
use lvos.Base.Int.{ℤ}
use lvos.Base.Table.{Table}
use lvos.Protocol.{FavoriteSnapshot, FavoriteRecord}

pub data RepositoryError : Type 0 where
  database migration backup restore integrity not_found session_invalid access_expired :
      RepositoryError
  refresh_expired session_revoked device_revoked user_disabled : RepositoryError

pub record SyncConflict : Type 0 where
  pub event_id : Option String
  pub current : Option FavoriteRecord
  pub latest_revision : ℕ

pub data SyncRepositoryError : Type 0 where
  repository : RepositoryError → SyncRepositoryError
  conflict : SyncConflict → SyncRepositoryError
  invalid_event : SyncRepositoryError

abbrev pub SyncResult {ℓ} : Type ℓ → Type ℓ
SyncResult A = Result SyncRepositoryError A

pub record UserRow : Type 0 where
  pub username : String
  pub password_hash : String
  pub sync_revision : ℕ
  pub created_at : ℤ
  pub disabled_at : Option ℤ

pub record DeviceRow : Type 0 where
  pub platform : String
  pub device_name : Option String
  pub created_at : ℤ
  pub last_seen_at : ℤ
  pub revoked_at : Option ℤ

pub record SessionRow : Type 0 where
  pub user_id : String
  pub device_id : String
  pub access_token_hash : String
  pub refresh_token_hash : String
  pub access_expires_at : ℤ
  pub created_at : ℤ
  pub last_refreshed_at : ℤ
  pub last_seen_at : ℤ
  pub revoked_at : Option ℤ

-- `favorite` holds the nine columns from `kind` to `updated_at`.
pub record FavoriteRow : Type 0 where
  pub key_version : ℕ
  pub favorite : FavoriteSnapshot
  pub deleted_at : Option ℤ
  pub entity_revision : ℕ
  pub server_received_at : ℤ

pub record StatsRow : Type 0 where
  pub query_count : ℕ
  pub first_queried_at : ℤ
  pub last_queried_at : ℤ
  pub updated_at : ℤ

pub record ProcessedRow : Type 0 where
  pub event_fingerprint : List ℕ
  pub operation : String
  pub ack_status : String
  pub entity_revision : Option ℕ
  pub user_revision : ℕ
  pub aggregate_query_count : Option ℕ
  pub aggregate_first_queried_at : Option ℤ
  pub aggregate_last_queried_at : Option ℤ
  pub processed_at : ℤ

pub record ChangeRow : Type 0 where
  pub content_key : String
  pub entity_revision : ℕ
  pub operation : String
  pub changed_at : ℤ

-- Each table under its primary key: `devices` by user and device, `favorites` by user and content,
-- `device_query_stats` by user, content and device, `processed` (processed_sync_events) by user and
-- event, `change_log` by user and revision.
pub record Database : Type 0 where
  pub users : Table String UserRow
  pub devices : Table (String × String) DeviceRow
  pub sessions : Table String SessionRow
  pub favorites : Table (String × String) FavoriteRow
  pub device_query_stats : Table (String × (String × String)) StatsRow
  pub processed : Table (String × String) ProcessedRow
  pub change_log : Table (String × ℕ) ChangeRow
