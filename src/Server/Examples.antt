-- ===== src/Server/Examples.antt =====
-- A database with two users and two devices of one of them, and runs on it.
mod Push
pub mod Pages
mod Apply
mod Sessions
use lvos.Base.{
  ℕ, suc, ◌<◌, ◌≤◌, ◌≡◌, ◌≢◌, refl, String, Bool, true, false, Option, none, some, List, [], ◌∷◌,
  arith, ok, err, i64_limit, length, inl, inr, string_eq, pair_eq, nat_eq,
}
use lvos.Base.Int.{ℤ, pos}
use lvos.Base.Table.{get, put, insert}
use lvos.Protocol.{
  FavoriteSnapshot, QueryStatsSnapshot, PushEvent, PushAck, SyncOperation, favorite_upsert,
  favorite_delete, AggregateQueryStats, PushResponse, FavoriteRecord, applied, ChangesResponse,
  SyncChange,
}
use lvos.Server.Database.{Database, UserRow, DeviceRow, FavoriteRow}
use lvos.Server.Rows.{
  user_revision, favorite_record, operation_name, has_favorite, aggregate_stats, content_stats,
  summarize, checked_total, record_change, log_next, log_change,
}
use lvos.Core.ContentKey.{to_hex, hex_digit}
use lvos.Server.Stats.{merge_query_stats, store_stats, merged_row, stats_row_beq, has_device}
use lvos.Server.Ack.{
  Digest, event_fingerprint, processed_ack, read_ack, stored_aggregate, store_ack, ack_row,
}
use lvos.Server.Apply.{
  apply_event, check_base, refuse, apply_operation, apply_upsert, upsert_favorite, valid_columns,
  has_user, merge_reported, reported_aggregate, next_user_revision,
}
use lvos.Server.Push.{
  push_events, push_transaction, push_loop, push_event, process_event, Batch, opened,
}
use lvos.Server.Push.Replay.{replay}

abbrev pub key : String
key = "00112233445566778899aabbccddeeff00112233445566778899aabbccddeeff"

abbrev pub digest : Digest
digest = record {
  serialize = λ event. some (event.key_version ∷ event.base_entity_revision ∷ []);
  sha256 = λ bytes. bytes;
}

abbrev pub user : UserRow
user = record {
  username = "ada";
  password_hash = "hash";
  sync_revision = 0;
  created_at = pos 1;
  disabled_at = none;
}

abbrev pub device : DeviceRow
device = record {
  platform = "macos";
  device_name = none;
  created_at = pos 1;
  last_seen_at = pos 1;
  revoked_at = none;
}

abbrev pub start : Database
start = record {
  users = ("ada", user) ∷ ("bob", user) ∷ [];
  devices = (("ada", "laptop"), device) ∷ (("ada", "desk"), device) ∷ [];
  sessions = [];
  favorites = [];
  device_query_stats = [];
  processed = [];
  change_log = [];
}

abbrev pub snapshot : FavoriteSnapshot
snapshot = record {
  kind = "word";
  source_lang = "en";
  target_lang = "zh-CN";
  source_text = "run";
  canonical_text = "run";
  translation = "pao";
  provider = "hub";
  favorited_at = pos 2;
  updated_at = pos 2;
}

abbrev pub asked : QueryStatsSnapshot
asked = record {
  query_count = 3;
  first_queried_at = pos 1;
  last_queried_at = pos 2;
  updated_at = pos 2;
}

abbrev pub added : PushEvent
added = record {
  event_id = "e1";
  operation = favorite_upsert;
  content_key = key;
  key_version = 1;
  base_entity_revision = 0;
  favorite = some snapshot;
  query_stats = some asked;
}

abbrev pub ack : PushAck
ack = record {
  event_id = "e1";
  status = applied;
  entity_revision = some 1;
  user_revision = 1;
  aggregate_query_stats =
      some (record { query_count = 3; first_queried_at = pos 1; last_queried_at = pos 2 });
}

abbrev pub response : PushResponse
response = record { acknowledgements = ack ∷ []; latest_revision = 1 }

-- The row that the push writes, and its event's outcome.
abbrev pub row : FavoriteRow
row = record {
  key_version = 1;
  favorite = snapshot;
  deleted_at = none;
  entity_revision = 1;
  server_received_at = pos 5;
}

abbrev pub counters : AggregateQueryStats
counters = record { query_count = 3; first_queried_at = pos 1; last_queried_at = pos 2 }

-- The database after the first push.
abbrev pub after : Database
after = record start {
  users = ("ada", record user { sync_revision = 1 }) ∷ ("bob", user) ∷ [];
  favorites = (("ada", key), row) ∷ [];
  device_query_stats =
      (
        ("ada", (key, "laptop")),
        record {
          query_count = 3;
          first_queried_at = pos 1;
          last_queried_at = pos 2;
          updated_at = pos 2;
        },
      )
      ∷ [];
  processed =
      (
        ("ada", "e1"),
        record {
          event_fingerprint = b'0' ∷ b'1' ∷ b'0' ∷ b'0' ∷ [];
          operation = "favorite_upsert";
          ack_status = "applied";
          entity_revision = some 1;
          user_revision = 1;
          aggregate_query_count = some 3;
          aggregate_first_queried_at = some (pos 1);
          aggregate_last_queried_at = some (pos 2);
          processed_at = pos 5;
        },
      )
      ∷ [];
  change_log =
      (
        ("ada", 1),
        record {
          content_key = key;
          entity_revision = 1;
          operation = "favorite_upsert";
          changed_at = pos 5;
        },
      )
      ∷ [];
}

-- The database before the acknowledgement is stored.
abbrev pub changed : Database
changed = record after { processed = [] }

pub first_push :
    push_events digest true start "ada" "laptop" (added ∷ []) (pos 5)
    ≡ (ok (record { value = response; changed_revision = some 1 }), after)
unfolding push_events push_transaction push_loop push_event process_event event_fingerprint to_hex
    hex_digit processed_ack read_ack stored_aggregate store_ack ack_row operation_name apply_event
    favorite_record check_base refuse apply_operation apply_upsert upsert_favorite valid_columns
    has_user merge_reported merge_query_stats store_stats merged_row stats_row_beq has_device
    has_favorite reported_aggregate aggregate_stats content_stats summarize checked_total
    next_user_revision record_change log_next log_change user_revision get put insert
first_push = refl

pub added_alone :
    apply_event start "ada" "laptop" added (pos 5)
    ≡ ok (record { ack = ack; changed_revision = some 1 }, changed)
unfolding push_events push_transaction push_loop push_event process_event event_fingerprint to_hex
    hex_digit processed_ack read_ack stored_aggregate store_ack ack_row operation_name apply_event
    favorite_record check_base refuse apply_operation apply_upsert upsert_favorite valid_columns
    has_user merge_reported merge_query_stats store_stats merged_row stats_row_beq has_device
    has_favorite reported_aggregate aggregate_stats content_stats summarize checked_total
    next_user_revision record_change log_next log_change user_revision get put insert
added_alone = refl
