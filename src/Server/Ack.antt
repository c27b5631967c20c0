-- ===== src/Server/Ack.antt =====
-- The record of processed events in apps/server/src/sync_repository.rs: an event that comes again
-- is answered from here.
use lvos.Base.{
  ℕ, String, Option, none, some, List, ◌==◌, nat_eq, list_eq, string_eq, pair_eq, if◌then◌else◌, ok,
  err, ◌>>=◌, ◌>>◌, guard, ok_or, i64_try_from,
}
use lvos.Base.Int.{ℤ}
use lvos.Base.Table.{get, insert}
use lvos.Core.ContentKey.{to_hex}
use lvos.Protocol.{AckStatus, applied, no_change, PushAck, PushEvent, AggregateQueryStats}
use lvos.Server.Database.{Database, SyncResult, ProcessedRow, repository, database, invalid_event}
use lvos.Server.Rows.{operation_name}

-- The libraries that make a fingerprint: serde_json's bytes of an event, and SHA-256.
pub record Digest : Type 0 where
  pub serialize : PushEvent → Option (List ℕ)
  pub sha256 : List ℕ → List ℕ

unfoldable pub event_fingerprint : Digest → PushEvent → SyncResult (List ℕ)
event_fingerprint digest event = do
  bytes ← ok_or (digest.serialize event) invalid_event
  ok (to_hex (digest.sha256 bytes))

-- The three nullable columns of an aggregate: all or none.
unfoldable pub stored_aggregate :
    Option ℕ → Option ℤ → Option ℤ → SyncResult (Option AggregateQueryStats)
stored_aggregate (some count) (some first) (some last) =
    ok (some (record { query_count = count; first_queried_at = first; last_queried_at = last }))
stored_aggregate none none none = ok none
stored_aggregate _ _ _ = err invalid_event

abbrev pub status_name : AckStatus → String
status_name applied = "applied"
status_name no_change = "no_change"

unfoldable pub read_ack : PushEvent → ProcessedRow → SyncResult PushAck
unfolding stored_aggregate
read_ack event row = do
  aggregate ←
      stored_aggregate row.aggregate_query_count row.aggregate_first_queried_at
        row.aggregate_last_queried_at
  ok (record {
    event_id = event.event_id;
    status = if row.ack_status == "applied" then applied else no_change;
    entity_revision = row.entity_revision;
    user_revision = row.user_revision;
    aggregate_query_stats = aggregate;
  })

unfoldable pub processed_ack : Database → String → PushEvent → List ℕ → SyncResult (Option PushAck)
unfolding read_ack
processed_ack db user_id event fingerprint = elim (get db.processed (user_id, event.event_id)) [
  | none ↦ ok none
  | some row ↦
      guard (row.event_fingerprint == fingerprint) invalid_event
      >> (read_ack event row >>= λ ack. ok (some ack))
]

-- `.map(i64::try_from).transpose()`
abbrev pub optional_i64 : Option ℕ → SyncResult (Option ℕ)
optional_i64 none = ok none
optional_i64 (some n) = ok_or (i64_try_from n) invalid_event >>= λ m. ok (some m)

abbrev aggregate_count : Option AggregateQueryStats → Option ℕ
aggregate_count none = none
aggregate_count (some aggregate) = some aggregate.query_count

abbrev aggregate_first : Option AggregateQueryStats → Option ℤ
aggregate_first none = none
aggregate_first (some aggregate) = some aggregate.first_queried_at

abbrev aggregate_last : Option AggregateQueryStats → Option ℤ
aggregate_last none = none
aggregate_last (some aggregate) = some aggregate.last_queried_at

-- The row that `store_ack` inserts.
unfoldable pub ack_row : PushEvent → List ℕ → PushAck → ℤ → SyncResult ProcessedRow
unfolding operation_name
ack_row event fingerprint ack now = do
  entity_revision ← optional_i64 ack.entity_revision
  user_revision ← ok_or (i64_try_from ack.user_revision) invalid_event
  count ← optional_i64 (aggregate_count ack.aggregate_query_stats)
  ok (record {
    event_fingerprint = fingerprint;
    operation = operation_name event.operation;
    ack_status = status_name ack.status;
    entity_revision = entity_revision;
    user_revision = user_revision;
    aggregate_query_count = count;
    aggregate_first_queried_at = aggregate_first ack.aggregate_query_stats;
    aggregate_last_queried_at = aggregate_last ack.aggregate_query_stats;
    processed_at = now;
  })

unfoldable pub store_ack :
    Database → String → PushEvent → List ℕ → PushAck → ℤ → SyncResult Database
unfolding ack_row
store_ack db user_id event fingerprint ack now = do
  row ← ack_row event fingerprint ack now
  processed ← ok_or (insert db.processed (user_id, event.event_id) row) (repository database)
  ok (record db { processed = processed })
