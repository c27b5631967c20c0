-- ===== src/Storage/Conflict.antt =====
-- `resolve_conflict` of crates/storage/src/sync.rs: what becomes of a local favorite intent that the
-- server refused.
pub mod Keeps
pub mod Decision
pub mod Resolution
use lvos.Base.{
  ℕ, String, Bool, true, false, ◌&&◌, Option, none, some, List, ok, err, ◌>>=◌, ◌>>◌, guard, ok_or,
  ◌==◌, nat_eq, string_eq, if◌then◌else◌,
}
use lvos.Base.Int.{ℤ}
use lvos.Protocol.{FavoriteRecord}
use lvos.Core.Content.{key_text}
use lvos.Storage.Model.{
  StorageResult, invalid_data, Favorite, OutboxOperation, query_stats_upsert, OutboxEvent,
  OutboxRow, ProfileDatabase, ProfileMeta,
}
use lvos.Storage.Codec.{local_favorite, sqlite_i64}
use lvos.Storage.Outbox.{favorite_coalesce_key, is_coalesced, find_row, update_rows}
use lvos.Storage.Profile.{transact}
use lvos.Storage.Removal.{update_favorite, set_revision, forget_favorite_event}
use lvos.Storage.Remote.{
  desired_converged, write_remote_favorite, update_aggregate_from_record, conflict_error,
}
use lvos.Storage.Sync.{failed_sync, is_stats}

pub data ConflictResolution : Type 0 where
  converged replay_prepared manual_retry_required : ConflictResolution

abbrev pub manual_row : ℤ → OutboxRow → OutboxRow
manual_row now row = record row {
  last_error = some conflict_error;
  next_retry_at = none;
  updated_at = now;
}

unfoldable pub mark_manual_conflict : ProfileDatabase → List ℕ → ℤ → ProfileDatabase
unfolding update_rows favorite_coalesce_key
mark_manual_conflict db key now = record db {
  sync_outbox =
      update_rows (is_coalesced (favorite_coalesce_key key)) (manual_row now) db.sync_outbox;
  profile_meta = failed_sync conflict_error now db.profile_meta;
}

abbrev pub replayed_row : ℕ → ℤ → OutboxRow → OutboxRow
replayed_row revision now row = record row {
  base_entity_revision = some revision;
  conflict_replay_count = 1;
  attempt_count = 0;
  next_retry_at = none;
  last_error = none;
  updated_at = now;
}

unfoldable pub prepare_replay :
    ProfileDatabase → List ℕ → FavoriteRecord → ℤ → StorageResult ProfileDatabase
unfolding update_favorite update_rows favorite_coalesce_key
prepare_replay db key remote now = do
  revision ← sqlite_i64 remote.entity_revision
  ok (record db {
    favorites = update_favorite db.favorites (key_text key) (set_revision revision);
    sync_outbox =
        update_rows (is_coalesced (favorite_coalesce_key key)) (replayed_row revision now)
          db.sync_outbox;
  })

-- The server has another state: the intent is sent once more, and after that it is the user's turn.
unfoldable pub replay_or_stop :
    ProfileDatabase
    → List ℕ
    → FavoriteRecord
    → ℤ
    → StorageResult (ConflictResolution × ProfileDatabase)
unfolding find_row update_aggregate_from_record prepare_replay mark_manual_conflict
replay_or_stop db key remote now = do
  pending ←
      ok_or (find_row (is_coalesced (favorite_coalesce_key key)) db.sync_outbox)
        (invalid_data "conflicted Outbox intent is missing")
  aggregated ← update_aggregate_from_record db remote now
  (if pending.conflict_replay_count == 0
      then (prepare_replay aggregated key remote now >>= λ replayed. ok (replay_prepared, replayed))
      else ok (manual_retry_required, mark_manual_conflict aggregated key now))

unfoldable pub resolve_remote :
    ProfileDatabase
    → OutboxEvent
    → Favorite
    → FavoriteRecord
    → ℤ
    → StorageResult (ConflictResolution × ProfileDatabase)
unfolding desired_converged write_remote_favorite replay_or_stop
resolve_remote db event local remote now =
    if desired_converged event.operation local remote
    then (write_remote_favorite db remote now >>= λ written.
        ok (converged, forget_favorite_event written event.content_key))
    else replay_or_stop db event.content_key remote now

unfoldable pub conflict_transaction :
    ProfileDatabase
    → OutboxEvent
    → Option FavoriteRecord
    → ℤ
    → StorageResult (ConflictResolution × ProfileDatabase)
unfolding local_favorite resolve_remote mark_manual_conflict
conflict_transaction db event current now = do
  found ← local_favorite db event.content_key
  local ← ok_or found (invalid_data "conflicted Favorite is missing")
  elim current [
    | none ↦ ok (manual_retry_required, mark_manual_conflict db event.content_key now)
    | some remote ↦ resolve_remote db event local remote now
  ]

unfoldable pub resolve_conflict :
    Bool
    → ProfileDatabase
    → OutboxEvent
    → Option FavoriteRecord
    → ℤ
    → StorageResult ConflictResolution × ProfileDatabase
unfolding conflict_transaction
resolve_conflict committed db event current now =
    if is_stats event.operation
    then (err (invalid_data "QueryStats cannot have a Favorite conflict"), db)
    else transact committed db (conflict_transaction db event current now)
