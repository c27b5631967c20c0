-- ===== src/Server/Examples/Apply.antt =====
-- Events that are applied one at a time.
use lvos.Base.{◌+◌, ◌≤◌, ◌≡◌, refl, none, some, [], ◌∷◌, ok, string_eq, pair_eq}
use lvos.Base.Int.{ℤ, pos}
use lvos.Protocol.{PushEvent, applied, no_change, favorite_delete}
use lvos.Server.Database.{Database, FavoriteRow}
use lvos.Server.Rows.{user_revision, favorite_record}
use lvos.Server.Apply.{EventOutcome}
use lvos.Server.Apply.Upsert.{apply_event-upsert}
use lvos.Server.Apply.Delete.{apply_event-delete}
use lvos.Server.Apply.Unchanged.{apply_event-no_change}
use lvos.Base.Table.{get, put, insert}
use lvos.Server.Rows.{
  operation_name, has_favorite, aggregate_stats, content_stats, summarize, checked_total,
  record_change, log_next, log_change,
}
use lvos.Server.Stats.{merge_query_stats, store_stats, merged_row, stats_row_beq, has_device}
use lvos.Server.Apply.{
  apply_event, check_base, refuse, apply_operation, apply_upsert, upsert_favorite, valid_columns,
  has_user, merge_reported, reported_aggregate, next_user_revision, apply_delete, delete_active,
  update_state,
}
use lvos.Server.Examples.{
  start, after, changed, added, ack, key, user, row, counters, added_alone, snapshot,
}

apply_event-upsert_example :
    (r : FavoriteRow) × (get changed.favorites ("ada", key) ≡ some r)
    × (some snapshot ≡ some r.favorite)
    × (r.deleted_at ≡ none)
    × (some 1 ≡ some r.entity_revision)
    × (0 ≤ r.entity_revision)
    × (r.entity_revision ≤ 0 + 1)
apply_event-upsert_example =
    apply_event-upsert start "ada" "laptop" added (pos 5)
      {applied = (record { ack = ack; changed_revision = some 1 }, changed)} refl added_alone

abbrev removed : PushEvent
removed = record {
  event_id = "e3";
  operation = favorite_delete;
  content_key = key;
  key_version = 1;
  base_entity_revision = 1;
  favorite = none;
  query_stats = none;
}

abbrev removal : EventOutcome
removal = record {
  ack = record {
    event_id = "e3";
    status = applied;
    entity_revision = some 2;
    user_revision = 2;
    aggregate_query_stats = none;
  };
  changed_revision = some 2;
}

abbrev gone : Database
gone = record after {
  users = ("ada", record user { sync_revision = 2 }) ∷ ("bob", user) ∷ [];
  favorites =
      (
        ("ada", key),
        record row {
          favorite = record snapshot { updated_at = pos 7 };
          deleted_at = some (pos 7);
          entity_revision = 2;
          server_received_at = pos 7;
        },
      )
      ∷ [];
  change_log =
      (
        ("ada", 1),
        record {
          content_key = key;
          entity_revision = 1;
          operation = "favorite_upsert";
          changed_at = pos 5;
        },
      )
      ∷ (
        ("ada", 2),
        record {
          content_key = key;
          entity_revision = 2;
          operation = "favorite_delete";
          changed_at = pos 7;
        },
      )
      ∷ [];
}

removed_alone : apply_event after "ada" "desk" removed (pos 7) ≡ ok (removal, gone)
unfolding operation_name apply_event favorite_record check_base refuse apply_operation apply_upsert
    upsert_favorite valid_columns has_user merge_reported merge_query_stats store_stats merged_row
    stats_row_beq has_device has_favorite reported_aggregate aggregate_stats content_stats summarize
    checked_total next_user_revision record_change log_next log_change user_revision get put insert
    apply_delete delete_active update_state
removed_alone = refl

apply_event-delete_example :
    (r : FavoriteRow) × (get gone.favorites ("ada", key) ≡ some r)
    × ((at : ℤ) × (r.deleted_at ≡ some at))
    × (some 2 ≡ some r.entity_revision)
    × (1 ≤ r.entity_revision)
    × (r.entity_revision ≤ 1 + 1)
apply_event-delete_example =
    apply_event-delete after "ada" "desk" removed (pos 7) {applied = (removal, gone)} refl
      removed_alone

-- The same favorite and counters, sent again on the revision that they have.
abbrev repeated : PushEvent
repeated = record added { event_id = "e4"; base_entity_revision = 1 }

abbrev idle : EventOutcome
idle = record {
  ack = record {
    event_id = "e4";
    status = no_change;
    entity_revision = some 1;
    user_revision = 1;
    aggregate_query_stats = some counters;
  };
  changed_revision = none;
}

repeated_alone : apply_event after "ada" "laptop" repeated (pos 7) ≡ ok (idle, after)
unfolding operation_name apply_event favorite_record check_base refuse apply_operation apply_upsert
    upsert_favorite valid_columns has_user merge_reported merge_query_stats store_stats merged_row
    stats_row_beq has_device has_favorite reported_aggregate aggregate_stats content_stats summarize
    checked_total next_user_revision record_change log_next log_change user_revision get put insert
    apply_delete delete_active update_state
repeated_alone = refl

apply_event-no_change_example : (after ≡ after) × (user_revision after "ada" ≡ ok 1)
apply_event-no_change_example =
    apply_event-no_change after "ada" "laptop" repeated (pos 7) {applied = (idle, after)}
      repeated_alone refl
