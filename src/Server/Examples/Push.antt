-- ===== src/Server/Examples/Push.antt =====
-- Runs of the push.
use lvos.Base.{
  ◌≡◌, ◌≢◌, refl, ok, err, some, none, [], ◌∷◌, eq_iff, arith, ℕ, String, true, string_eq, pair_eq,
}
use lvos.Base.Int.{pos}
use lvos.Protocol.{PushEvent}
use lvos.Server.Database.{Database, conflict}
use lvos.Server.Rows.{user_revision, favorite_record, to_record}
use lvos.Server.Changes.{changes_since}
use lvos.Server.Push.{push_events}
use lvos.Server.Push.Replay.{replay}
use lvos.Server.Push.Isolation.{isolation}
use lvos.Server.Push.Answers.{push_events-answers, ack_ids}
use lvos.Server.Push.Conflict.{push_events-stale}
use lvos.Server.Apply.Revision.{push_events-Tracks, Tracks}
use lvos.Base.Table.{get, put, insert}
use lvos.Server.Rows.{
  operation_name, has_favorite, aggregate_stats, content_stats, summarize, checked_total,
  record_change, log_next, log_change,
}
use lvos.Core.ContentKey.{to_hex, hex_digit}
use lvos.Server.Stats.{merge_query_stats, store_stats, merged_row, stats_row_beq, has_device}
use lvos.Server.Ack.{
  event_fingerprint, processed_ack, read_ack, stored_aggregate, store_ack, ack_row,
}
use lvos.Server.Apply.{
  apply_event, check_base, refuse, apply_operation, apply_upsert, upsert_favorite, valid_columns,
  has_user, merge_reported, reported_aggregate, next_user_revision,
}
use lvos.Server.Push.{push_transaction, push_loop, push_event, process_event}
use lvos.Server.Examples.{
  digest, start, after, added, response, first_push, key, row, counters, ack,
}

replay_example :
    push_events digest true after "ada" "desk" (added ∷ []) (pos 9)
    ≡ (ok (record { value = response; changed_revision = none }), after)
replay_example = replay digest start "ada" "laptop" "desk" (added ∷ []) (pos 5) (pos 9) first_push

bob_other : ◌≢◌ {A = String} "bob" "ada"
bob_other p = ground (arith, p, eq_iff "bob" "ada")

abbrev pushed : Database
pushed = (push_events digest true start "ada" "laptop" (added ∷ []) (pos 5)).1

isolation_example :
    (user_revision pushed "bob" ≡ user_revision start "bob")
    × ((k : String) → favorite_record pushed "bob" k ≡ favorite_record start "bob" k)
    × ((since limit : ℕ)
        → changes_since pushed "bob" since limit ≡ changes_since start "bob" since limit)
isolation_example = isolation digest true start "ada" "bob" "laptop" (added ∷ []) (pos 5) bob_other

push_events-answers_example : ack_ids response.acknowledgements ≡ "e1" ∷ []
push_events-answers_example =
    push_events-answers digest start "ada" "laptop" (added ∷ []) (pos 5) first_push

start_revision : user_revision start "ada" ≡ ok 0
unfolding user_revision get
start_revision = refl

push_events-Tracks_example : (user_revision after "ada" ≡ ok 1) × Tracks 0 1 (some 1)
push_events-Tracks_example =
    push_events-Tracks digest start "ada" "laptop" (added ∷ []) (pos 5) 0 first_push start_revision

-- The same favorite, added again by a device that does not know that it is there.
abbrev stale : PushEvent
stale = record added { event_id = "e2"; query_stats = none }

push_events-stale_example :
    push_events digest true start "ada" "laptop" (added ∷ stale ∷ []) (pos 5) ≡ (
      err (
          conflict (record {
            event_id = some "e2";
            current = some (to_record key row (some counters));
            latest_revision = 1;
          })),
      start,
    )
unfolding push_events push_transaction push_loop push_event process_event event_fingerprint to_hex
    hex_digit processed_ack read_ack stored_aggregate store_ack ack_row operation_name apply_event
    favorite_record check_base refuse apply_operation apply_upsert upsert_favorite valid_columns
    has_user merge_reported merge_query_stats store_stats merged_row stats_row_beq has_device
    has_favorite reported_aggregate aggregate_stats content_stats summarize checked_total
    next_user_revision record_change log_next log_change user_revision get put insert
push_events-stale_example =
    push_events-stale digest true start "ada" "laptop" (added ∷ []) stale [] (pos 5)
      {batch = record { acknowledgements = ack ∷ []; changed_revision = some 1; db = after }}
      {current = some (to_record key row (some counters))} {latest = 1} refl refl refl refl refl
      refl (λ p. ground (arith, p))
