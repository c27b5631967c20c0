-- ===== src/Storage/Remote.antt =====
-- How a favorite of the server is validated, compared and written (crates/storage/src/sync.rs).
pub mod Keeps
use lvos.Base.{
  ℕ, ◌+◌, max, String, Bool, true, false, ◌&&◌, ◌||◌, not, Option, none, some, List, [], ◌∷◌, ok,
  err, ◌>>=◌, ◌>>◌, guard, ok_or, ltb, leb, ◌==◌, nat_eq, string_eq, if◌then◌else◌, checked_add_one,
}
use Prim.Native.String
use lvos.Base.Int.{ℤ}
use lvos.Base.Text.{ascii}
use lvos.Base.Table.{Table, get, put}
use lvos.Protocol.{FavoriteSnapshot, FavoriteRecord, SyncChange, AggregateQueryStats, snapshot_eq}
use lvos.Core.Content.{
  PreparedContent, content_key_version, prepare_content, protocol_name, key_text,
}
use lvos.Storage.Model.{
  StorageResult, sqlite, invalid_data, QueryStats, Favorite, FavoriteColumns, ContentColumns,
  OutboxOperation, favorite_upsert, favorite_delete, query_stats_upsert, OutboxEvent, OutboxRow,
  ProfileDatabase, ProfileMeta, Libraries,
}
use lvos.Storage.Codec.{
  or_else, parse_content_key, parse_outbox_operation, parse_language, sqlite_i64, local_favorite,
}
use lvos.Storage.Outbox.{favorite_coalesce_key, is_coalesced, find_row, update_rows, delete_rows}
use lvos.Storage.Profile.{transact}
use lvos.Storage.Removal.{update_favorite, set_revision, forget_favorite_event}

abbrev pub max_remote_content_characters : ℕ
max_remote_content_characters = 16384

abbrev pub conflict_error : String
conflict_error = "favorite_conflict"

unfoldable pub protocol_snapshot : Favorite → FavoriteSnapshot
unfolding protocol_name ascii
protocol_snapshot favorite = record {
  kind = protocol_name favorite.content.kind;
  source_lang = ascii favorite.content.source_lang;
  target_lang = ascii favorite.translation.target_lang;
  source_text = favorite.content.source_text;
  canonical_text = favorite.content.canonical_text;
  translation = favorite.translation.translation;
  provider = favorite.translation.provider;
  favorited_at = favorite.created_at;
  updated_at = favorite.updated_at;
}

abbrev pub is_some {ℓ} : {A : Type ℓ} → Option A → Bool
is_some none = false
is_some (some a) = true

unfoldable pub desired_converged : OutboxOperation → Favorite → FavoriteRecord → Bool
unfolding protocol_snapshot
desired_converged favorite_delete local remote = is_some remote.deleted_at
desired_converged favorite_upsert local remote =
    not (is_some remote.deleted_at) && protocol_snapshot local == remote.favorite
desired_converged query_stats_upsert local remote = false

unfoldable pub is_identity : PreparedContent → FavoriteRecord → Bool
unfolding key_text protocol_name
is_identity prepared remote =
    key_text prepared.content_key == remote.content_key
    && (prepared.canonical.text == remote.favorite.canonical_text
        && protocol_name prepared.canonical.kind == remote.favorite.kind)

unfoldable pub validate_remote : Libraries → FavoriteRecord → StorageResult (Unit {0})
unfolding parse_language prepare_content is_identity
validate_remote libraries remote = do
  guard (remote.key_version == content_key_version && not (remote.entity_revision == 0))
      (invalid_data "remote Favorite version is invalid")
  source_lang ← parse_language remote.favorite.source_lang "remote source language"
  target_lang ← parse_language remote.favorite.target_lang "remote target language"
  prepared ←
      or_else
        (prepare_content libraries.unicode remote.favorite.source_text source_lang
          max_remote_content_characters)
        (invalid_data "remote source content")
  guard (is_identity prepared remote) (invalid_data "remote content identity mismatch")

abbrev pub unqueried : ℤ → ℤ → QueryStats
unqueried first last = record {
  device_query_count = 0;
  first_queried_at = first;
  last_queried_at = last;
  last_synced_device_query_count = 0;
  server_total_query_count = 0;
  server_first_queried_at = none;
  server_last_queried_at = none;
  server_snapshot_at = none;
}

abbrev pub or_default {ℓ} : {A : Type ℓ} → Option A → A → A
or_default none default = default
or_default (some a) default = a

abbrev pub aggregated : AggregateQueryStats → ℕ → ℕ → ℤ → QueryStats → QueryStats
aggregated aggregate sent total now stats = record stats {
  last_synced_device_query_count = max stats.last_synced_device_query_count sent;
  server_total_query_count = total;
  server_first_queried_at = some aggregate.first_queried_at;
  server_last_queried_at = some aggregate.last_queried_at;
  server_snapshot_at = some now;
}

unfoldable pub update_aggregate :
    ProfileDatabase → List ℕ → AggregateQueryStats → Option ℕ → ℤ → StorageResult ProfileDatabase
unfolding get put key_text
update_aggregate db key aggregate sent_query_count now = do
  let stats =
      or_default (get db.query_stats (key_text key))
        (unqueried aggregate.first_queried_at aggregate.last_queried_at)
  sent ← sqlite_i64 (or_default sent_query_count 0)
  total ← sqlite_i64 aggregate.query_count
  ok (record db {
    query_stats = put db.query_stats (key_text key) (aggregated aggregate sent total now stats);
  })

unfoldable pub update_aggregate_from_record :
    ProfileDatabase → FavoriteRecord → ℤ → StorageResult ProfileDatabase
unfolding update_aggregate
update_aggregate_from_record db remote now = elim remote.aggregate_query_stats [
  | none ↦ ok db
  | some aggregate ↦
      parse_content_key remote.content_key >>= λ key. update_aggregate db key aggregate none now
]

abbrev pub remote_columns : FavoriteRecord → ℕ → FavoriteColumns
remote_columns remote entity_revision = record {
  content = record {
    key_version = remote.key_version;
    kind = remote.favorite.kind;
    source_lang = remote.favorite.source_lang;
    target_lang = remote.favorite.target_lang;
    source_text = remote.favorite.source_text;
    canonical_text = remote.favorite.canonical_text;
    translation = remote.favorite.translation;
    provider = remote.favorite.provider;
  };
  created_at = remote.favorite.favorited_at;
  updated_at = remote.favorite.updated_at;
  deleted_at = remote.deleted_at;
  entity_revision = entity_revision;
}

abbrev pub baseline : FavoriteRecord → ℤ
baseline remote = elim remote.aggregate_query_stats [
  | none ↦ remote.favorite.favorited_at
  | some aggregate ↦ aggregate.first_queried_at
]

-- A favorite with no counter gets one that counts nothing.
unfoldable pub ensure_stats :
    ProfileDatabase → List ℕ → FavoriteRecord → ℤ → StorageResult ProfileDatabase
unfolding get put key_text update_aggregate_from_record
ensure_stats db key remote now = elim (get db.query_stats (key_text key)) [
  | some stats ↦ ok db
  | none ↦
      update_aggregate_from_record
        (record db {
          query_stats =
              put db.query_stats (key_text key) (unqueried (baseline remote) (baseline remote));
        })
        remote now
]

-- The CHECK on `kind` is the guard.
unfoldable pub write_remote_favorite :
    ProfileDatabase → FavoriteRecord → ℤ → StorageResult ProfileDatabase
unfolding parse_content_key update_aggregate_from_record ensure_stats put
write_remote_favorite db remote now = do
  key ← parse_content_key remote.content_key
  entity_revision ← sqlite_i64 remote.entity_revision
  guard (remote.favorite.kind == "word" || remote.favorite.kind == "text") sqlite
  let written = record db {
    favorites = put db.favorites remote.content_key (remote_columns remote entity_revision);
  }
  aggregated ← update_aggregate_from_record written remote now
  ensure_stats aggregated key remote now
