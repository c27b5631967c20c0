-- ===== src/Storage/Page.antt =====
-- How a page of remote changes is applied (crates/storage/src/sync.rs).
pub mod Applies
pub mod Cursor
pub mod Mirror
use lvos.Base.{
  ℕ, ◌+◌, max, String, Bool, true, false, ◌&&◌, ◌||◌, not, Option, none, some, List, [], ◌∷◌, ok,
  err, ◌>>=◌, ◌>>◌, guard, ok_or, ltb, leb, ◌==◌, nat_eq, string_eq, if◌then◌else◌, checked_add_one,
}
use Prim.Native.String
use lvos.Base.Int.{ℤ}
use lvos.Base.Text.{ascii}
use lvos.Base.Table.{Table, get, put}
use lvos.Protocol.{FavoriteSnapshot, FavoriteRecord, SyncChange, AggregateQueryStats, snapshot_eq}
use lvos.Core.Content.{
  PreparedContent, content_key_version, prepare_content, protocol_name, key_text,
}
use lvos.Storage.Model.{
  StorageResult, sqlite, invalid_data, QueryStats, Favorite, FavoriteColumns, ContentColumns,
  OutboxOperation, favorite_upsert, favorite_delete, query_stats_upsert, OutboxEvent, OutboxRow,
  ProfileDatabase, ProfileMeta, Libraries,
}
use lvos.Storage.Codec.{
  or_else, parse_content_key, parse_outbox_operation, parse_language, sqlite_i64, local_favorite,
}
use lvos.Storage.Outbox.{favorite_coalesce_key, is_coalesced, find_row, update_rows, delete_rows}
use lvos.Storage.Remote.{
  validate_remote, desired_converged, write_remote_favorite, update_aggregate_from_record,
}
use lvos.Storage.Profile.{transact}
use lvos.Storage.Removal.{update_favorite, set_revision, forget_favorite_event}

abbrev pub rebased_row : ℕ → ℤ → OutboxRow → OutboxRow
rebased_row revision now row = record row { base_entity_revision = some revision; updated_at = now }

-- The local intent stays, and is based on the revision that the server has now.
unfoldable pub rebase_pending :
    ProfileDatabase → List ℕ → FavoriteRecord → ℤ → StorageResult ProfileDatabase
unfolding update_favorite update_rows favorite_coalesce_key update_aggregate_from_record
rebase_pending db key remote now = do
  revision ← sqlite_i64 remote.entity_revision
  update_aggregate_from_record
      (record db {
        favorites = update_favorite db.favorites (key_text key) (set_revision revision);
        sync_outbox =
            update_rows (is_coalesced (favorite_coalesce_key key)) (rebased_row revision now)
              db.sync_outbox;
      })
      remote now

unfoldable pub settle_pending :
    ProfileDatabase → List ℕ → OutboxRow → FavoriteRecord → ℤ → StorageResult ProfileDatabase
unfolding local_favorite desired_converged write_remote_favorite rebase_pending
settle_pending db key pending remote now = do
  operation ← parse_outbox_operation pending.operation
  found ← local_favorite db key
  local ← ok_or found (invalid_data "pending Favorite is missing")
  (if desired_converged operation local remote
      then (write_remote_favorite db remote now >>= λ written.
          ok (forget_favorite_event written key))
      else rebase_pending db key remote now)

unfoldable pub apply_remote_change :
    Libraries → ProfileDatabase → SyncChange → ℤ → StorageResult ProfileDatabase
unfolding validate_remote parse_content_key find_row settle_pending write_remote_favorite
apply_remote_change libraries db change now = do
  valid ← validate_remote libraries change.favorite
  key ← parse_content_key change.favorite.content_key
  elim (find_row (is_coalesced (favorite_coalesce_key key)) db.sync_outbox) [
    | some pending ↦ settle_pending db key pending change.favorite now
    | none ↦ write_remote_favorite db change.favorite now
  ]

-- The loop over a page; `expected` is the revision of the change before.
unfoldable pub apply_changes :
    Libraries → ProfileDatabase → ℕ → List SyncChange → ℕ → ℤ → StorageResult (ℕ × ProfileDatabase)
unfolding apply_remote_change
apply_changes libraries db expected [] next_revision now = ok (expected, db)
apply_changes libraries db expected (change ∷ changes) next_revision now = do
  next_expected ← ok_or (checked_add_one expected) (invalid_data "remote revision overflow")
  guard (change.revision == next_expected && leb change.revision next_revision)
      (invalid_data "remote change revision is invalid")
  db' ← apply_remote_change libraries db change now
  apply_changes libraries db' change.revision changes next_revision now

abbrev pub synced : ℕ → ℤ → ProfileMeta → ProfileMeta
synced revision now meta = record meta {
  last_server_revision = revision;
  last_successful_sync_at = some now;
  last_sync_error = none;
  updated_at = now;
}

unfoldable pub page_transaction :
    Libraries
    → ProfileDatabase
    → List SyncChange
    → ℕ
    → ℤ
    → StorageResult (Unit {0} × ProfileDatabase)
unfolding apply_changes
page_transaction libraries db changes next_revision now = do
  guard (leb db.profile_meta.last_server_revision next_revision)
      (invalid_data "remote cursor moved backwards")
  reached ←
      apply_changes libraries db db.profile_meta.last_server_revision changes next_revision now
  guard (reached.0 == next_revision) (invalid_data "remote page cursor is inconsistent")
  revision ← sqlite_i64 next_revision
  ok (tt, record reached.1 { profile_meta = synced revision now reached.1.profile_meta })

unfoldable pub apply_remote_page :
    Libraries
    → Bool
    → ProfileDatabase
    → List SyncChange
    → ℕ
    → ℤ
    → StorageResult (Unit {0}) × ProfileDatabase
unfolding page_transaction
apply_remote_page libraries committed db changes next_revision now =
    transact committed db (page_transaction libraries db changes next_revision now)
