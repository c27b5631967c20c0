-- ===== src/Storage/Identity.antt =====
-- Whose profile it is: the operations of crates/storage/src/profile.rs on `profile_meta`.
pub mod Moves
use lvos.Base.{
  ℕ, ◌-◌, String, Bool, true, false, ◌&&◌, ◌||◌, not, Option, none, some, List, [], ◌∷◌, ◌++◌, ok,
  err, ◌>>=◌, ◌>>◌, guard, leb, ◌==◌, nat_eq, string_eq, list_eq, if◌then◌else◌, ok_or,
}
use Prim.Native.String
use lvos.Base.Int.{ℤ}
use lvos.Base.Table.{Table}
use lvos.Storage.Model.{
  StorageResult, sqlite, invalid_data, invalid_identifier, QueryStats, OutboxRow, ProfileMeta,
  ProfileDatabase, Libraries,
}
use lvos.Storage.Outbox.{exists_row, is_coalesced}
use lvos.Storage.Profile.{transact}

-- `Uuid::is_nil`
unfoldable pub is_nil : List ℕ → Bool
is_nil [] = true
is_nil (byte ∷ bytes) = byte == 0 && is_nil bytes

abbrev pub bound : String → String → String → ℤ → ProfileMeta → ProfileMeta
bound user_id username server_origin now meta = record meta {
  user_id = some user_id;
  username = some username;
  server_origin = some server_origin;
  updated_at = now;
}

abbrev pub is_other : Option String → String → Bool
is_other none user_id = false
is_other (some existing) user_id = not (existing == user_id)

unfoldable pub bind_user :
    Libraries → ProfileDatabase → List ℕ → String → String → ℤ → StorageResult ProfileDatabase
unfolding is_nil
bind_user libraries db user_id username server_origin now = do
  guard (not (is_nil user_id)) (invalid_identifier "user")
  guard (not (is_other db.profile_meta.user_id (libraries.uuid_text user_id)))
      (invalid_data "Profile is already bound to another User")
  ok (record db {
    profile_meta = bound (libraries.uuid_text user_id) username server_origin now db.profile_meta;
  })

-- `parse_uuid`
abbrev pub parse_identity : Libraries → String → String → StorageResult (List ℕ)
parse_identity libraries value kind = ok_or (libraries.parse_uuid value) (invalid_identifier kind)

unfoldable pub parse_user : Libraries → Option String → StorageResult (Option (List ℕ))
parse_user libraries none = ok none
parse_user libraries (some value) =
    parse_identity libraries value "user" >>= λ user_id. ok (some user_id)

pub record ProfileMetadata : Type 0 where
  pub profile_id : List ℕ
  pub user_id : Option (List ℕ)
  pub username : Option String
  pub device_id : List ℕ
  pub platform : String
  pub server_origin : Option String
  pub last_server_revision : ℕ
  pub created_at : ℤ
  pub updated_at : ℤ

unfoldable pub read_profile_metadata : Libraries → ProfileMeta → StorageResult ProfileMetadata
unfolding parse_user
read_profile_metadata libraries meta = do
  profile_id ← parse_identity libraries meta.profile_id "profile"
  user_id ← parse_user libraries meta.user_id
  device_id ← parse_identity libraries meta.device_id "device"
  ok (record {
    profile_id = profile_id;
    user_id = user_id;
    username = meta.username;
    device_id = device_id;
    platform = meta.platform;
    server_origin = meta.server_origin;
    last_server_revision = meta.last_server_revision;
    created_at = meta.created_at;
    updated_at = meta.updated_at;
  })

abbrev pub is_user : Option (List ℕ) → List ℕ → Bool
is_user none user_id = false
is_user (some existing) user_id = existing == user_id

unfoldable pub update_account_identity :
    Libraries → ProfileDatabase → List ℕ → String → String → ℤ → StorageResult ProfileDatabase
unfolding read_profile_metadata
update_account_identity libraries db user_id username server_origin now = do
  existing ← read_profile_metadata libraries db.profile_meta
  guard (is_user existing.user_id user_id) (invalid_data "Profile User identity does not match")
  ok (record db {
    profile_meta = record db.profile_meta {
      username = some username;
      server_origin = some server_origin;
      updated_at = now;
    };
  })

abbrev pub coalesce_key_for : String → String → String
coalesce_key_for device_id content_key =
    String.◌++◌ "query_stats:" (String.◌++◌ device_id (String.◌++◌ ":" content_key))

abbrev pub moved_row : String → ℤ → OutboxRow → OutboxRow
moved_row device_id now row = record row {
  coalesce_key = some (coalesce_key_for device_id row.content_key);
  updated_at = now;
}

abbrev pub is_stats_event : OutboxRow → Bool
is_stats_event row = row.operation == "query_stats_upsert"

-- UPDATE sync_outbox SET coalesce_key = ... WHERE operation = 'query_stats_upsert', row by row,
-- under the unique index; the first list holds the rows that are done.
unfoldable pub move_events :
    String → ℤ → List OutboxRow → List OutboxRow → StorageResult (List OutboxRow)
unfolding exists_row
move_events device_id now done [] = ok done
move_events device_id now done (row ∷ rows) =
    let moved = moved_row device_id now row in
    let kept = if is_stats_event row then moved else row in
    let rest = move_events device_id now (done ++ kept ∷ []) rows in
    if is_stats_event row
      && exists_row (is_coalesced (coalesce_key_for device_id row.content_key)) (done ++ rows)
    then err sqlite
    else rest

-- The counters start again at what was not sent yet. A negative count breaks the CHECK.
unfoldable pub restart_counters : Table String QueryStats → StorageResult (Table String QueryStats)
restart_counters [] = ok []
restart_counters ((content_key, stats) ∷ rows) = do
  guard (leb stats.last_synced_device_query_count stats.device_query_count) sqlite
  rest ← restart_counters rows
  ok (
      (
        content_key,
        record stats {
          device_query_count = stats.device_query_count - stats.last_synced_device_query_count;
          last_synced_device_query_count = 0;
        },
      )
      ∷ rest)

unfoldable pub replace_transaction :
    Libraries → ProfileDatabase → List ℕ → List ℕ → ℤ → StorageResult (Unit {0} × ProfileDatabase)
unfolding is_nil move_events restart_counters
replace_transaction libraries db expected_current replacement now = do
  guard (not (is_nil expected_current || (is_nil replacement || expected_current == replacement)))
      (invalid_identifier "device")
  guard (db.profile_meta.device_id == libraries.uuid_text expected_current)
      (invalid_data "Profile Device identity does not match")
  rows ← move_events (libraries.uuid_text replacement) now [] db.sync_outbox
  stats ← restart_counters db.query_stats
  ok (
    tt,
    record db {
      profile_meta = record db.profile_meta {
        device_id = libraries.uuid_text replacement;
        updated_at = now;
      };
      sync_outbox = rows;
      query_stats = stats;
    },
  )

unfoldable pub replace_device_identity :
    Libraries
    → Bool
    → ProfileDatabase
    → List ℕ
    → List ℕ
    → ℤ
    → StorageResult (Unit {0}) × ProfileDatabase
unfolding replace_transaction
replace_device_identity libraries committed db expected_current replacement now =
    transact committed db (replace_transaction libraries db expected_current replacement now)
