-- ===== src/Storage/Examples.antt =====
-- A small profile, on which the models are run.
pub mod Batches
pub mod Conflicts
pub mod Renewing
pub mod Mirroring
pub mod Syncing
pub mod Favorites
use Prim.Native.Char.{Char, code}
use lvos.Base.{
  ℕ, ◌+◌, String, ◌≡◌, ◌≢◌, refl, Bool, true, false, ◌&&◌, ◌||◌, Option, none, some, List, [], ◌∷◌,
  arith, ok, err, ltb, leb, ◌==◌, nat_eq, string_eq, eq_iff, if◌then◌else◌,
}
use lvos.Base.Int.{ℤ, pos}
use lvos.Base.Text.{chars, utf8, encode_all, ascii}
use lvos.Base.Table.{Table, get, put}
use lvos.Protocol
use lvos.Protocol.{
  PushAck, applied, AggregateQueryStats, FavoriteRecord, FavoriteSnapshot, SyncChange,
}
use lvos.Core.ContentKey.{to_hex, hex_digit, from_str, decode_pairs, decode_hex}
use lvos.Core.LanguageCode
use lvos.Core.Content.{Unicode, PreparedContent, prepare_content, key_text, text, word}
use lvos.Storage.Model.{
  ProfileDatabase, ProfileMeta, OutboxRow, OutboxEvent, AcknowledgedEvent, QueryStats, HistoryEntry,
  HistoryRow, FavoriteColumns, ContentColumns, Favorite, Libraries, effective_total,
  favorite_upsert, favorite_delete, query_stats_upsert,
}
use lvos.Storage.Outbox.{
  exists_row, is_event, find_row, update_rows, delete_rows, favorite_coalesce_key,
  query_stats_coalesce_key, upsert_outbox, optional_sqlite, write_outbox, upsert_favorite_event,
  upsert_query_stats_event,
}
use lvos.Storage.Outbox.Unique.{AllDistinct}
use lvos.Storage.Outbox.Pending.{pending}
use lvos.Storage.Profile.{
  record_successful_query, record_transaction, counted_query, upsert_history, in_sync_domain,
  favorite,
}
use lvos.Storage.Counting.{record_successful_query-total, IsStored}
use lvos.Storage.Identity.{replace_device_identity}
use lvos.Storage.Identity.Moves.{replace_device_identity-total, total_of}
use lvos.Storage.Page.{apply_remote_page}
use lvos.Storage.Page.Cursor.{Synced, apply_remote_page-Synced, apply_remote_page_no_event}
use lvos.Storage.Sync.{
  acknowledge_events, acknowledge_transaction, acknowledge_loop, acknowledge_event,
  acknowledge_revision, acknowledge_stats,
}
use lvos.Storage.Sync.Acknowledged.{acknowledge_events-found, unbased, answered}
use lvos.Storage.Invariant.Reached
use lvos.Storage.Invariant.Reached.{Reached-AllDistinct}

abbrev pub latin : Char → Bool
latin c = leb 65 (code c) && leb (code c) 122

-- Thirty-two bytes, for any text.
abbrev pub digest : List ℕ → List ℕ
digest bytes =
    7 ∷ 7 ∷ 7 ∷ 7 ∷ 7 ∷ 7 ∷ 7 ∷ 7 ∷ 7 ∷ 7 ∷ 7 ∷ 7 ∷ 7 ∷ 7 ∷ 7 ∷ 7 ∷ 7 ∷ 7 ∷ 7 ∷ 7 ∷ 7 ∷ 7 ∷ 7 ∷ 7
    ∷ 7 ∷ 7 ∷ 7 ∷ 7 ∷ 7 ∷ 7 ∷ 7 ∷ 7 ∷ []

abbrev pub unicode : Unicode
unicode = record {
  is_control = λ c. ltb (code c) 32;
  is_whitespace = λ c. code c == 32;
  is_alphabetic = latin;
  is_alphanumeric = latin;
  is_combining_mark = λ c. false;
  is_latin = latin;
  nfc = λ cs. cs;
  case_fold = λ cs. cs;
  sha256 = digest;
}

abbrev pub named : List ℕ → String
named [] = "e0"
named (byte ∷ bytes) = if byte == 1 then "e1" else "e2"

abbrev pub libraries : Libraries
libraries = record {
  unicode = unicode;
  uuid_text = named;
  parse_uuid = λ value. if value == "e1" then some (1 ∷ []) else some (2 ∷ []);
  favorite_json = λ payload. some "{}";
  query_stats_json = λ payload. some "{}";
}

abbrev pub key : List ℕ
key = digest []

abbrev pub meta : ProfileMeta
meta = record {
  profile_id = "p";
  user_id = some "ada";
  username = some "ada";
  device_id = "e1";
  platform = "macos";
  server_origin = none;
  last_server_revision = 0;
  created_at = pos 1;
  updated_at = pos 1;
  last_successful_sync_at = none;
  last_sync_error = none;
  sse_connected = false;
}

abbrev pub columns : ContentColumns
columns = record {
  key_version = 1;
  kind = "word";
  source_lang = "en";
  target_lang = "zh";
  source_text = "run";
  canonical_text = "run";
  translation = "跑";
  provider = "p";
}

abbrev pub counter : QueryStats
counter = record {
  device_query_count = 3;
  first_queried_at = pos 1;
  last_queried_at = pos 2;
  last_synced_device_query_count = 2;
  server_total_query_count = 10;
  server_first_queried_at = some (pos 1);
  server_last_queried_at = some (pos 2);
  server_snapshot_at = some (pos 2);
}

abbrev pub queued : OutboxRow
queued = record {
  event_id = "e1";
  content_key = key_text key;
  operation = "favorite_upsert";
  payload_json = some "{}";
  coalesce_key = some (favorite_coalesce_key key);
  base_entity_revision = some 0;
  created_at = pos 3;
  updated_at = pos 3;
  attempt_count = 0;
  next_retry_at = none;
  last_error = none;
  conflict_replay_count = 0;
}

abbrev pub row : FavoriteColumns
row = record {
  content = columns;
  created_at = pos 3;
  updated_at = pos 3;
  deleted_at = none;
  entity_revision = 0;
}

abbrev pub empty_profile : ProfileDatabase
empty_profile = record {
  profile_meta = meta;
  history_entries = [];
  query_stats = [];
  favorites = [];
  sync_outbox = [];
}

abbrev pub profile : ProfileDatabase
profile = record empty_profile {
  history_entries =
      (
        key_text key,
        record { content = columns; last_queried_at = pos 2; translation_updated_at = pos 2 },
      )
      ∷ [];
  query_stats = (key_text key, counter) ∷ [];
}

abbrev pub favored : ProfileDatabase
favored = record profile { favorites = (key_text key, row) ∷ []; sync_outbox = queued ∷ [] }

abbrev pub change : SyncChange
change = record {
  revision = 1;
  operation = lvos.Protocol.favorite_upsert;
  favorite = record {
    content_key = "0707070707070707070707070707070707070707070707070707070707070707";
    key_version = 1;
    favorite = record {
      kind = "word";
      source_lang = "en";
      target_lang = "zh";
      source_text = "run";
      canonical_text = "run";
      translation = "跑";
      provider = "p";
      favorited_at = pos 3;
      updated_at = pos 3;
    };
    deleted_at = none;
    entity_revision = 1;
    server_received_at = pos 4;
    aggregate_query_stats = none;
  };
}
