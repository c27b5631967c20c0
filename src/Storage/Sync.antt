-- ===== src/Storage/Sync.antt =====
-- The outbox as the sync engine uses it (crates/storage/src/sync.rs): the batch to send, its events
-- for the protocol, acknowledgements, retries and diagnostics.
pub mod Acknowledged
pub mod Ready
pub mod Retry
use lvos.Base.{
  ℕ, ◌+◌, min, String, Bool, true, false, ◌&&◌, ◌||◌, not, Option, none, some, List, [], ◌∷◌, map,
  ok, err, ◌>>=◌, ◌>>◌, guard, ok_or, ltb, ◌==◌, nat_eq, string_eq, int_eq, if◌then◌else◌, length,
  take,
}
use Prim.Native.Nat.{Ordering}
use Prim.Native.String.{len, slice, compare}
use lvos.Base.Int.{ℤ, leb_ℤ}
use lvos.Base.Table.{Table, get, put}
use lvos.Protocol
use lvos.Protocol.{PushEvent, SyncOperation, QueryStatsSnapshot, FavoriteSnapshot}
use lvos.Core.Content.{content_key_version, key_text}
use lvos.Storage.Model.{
  StorageResult, sqlite, invalid_data, QueryStats, Favorite, OutboxOperation, favorite_upsert,
  favorite_delete, query_stats_upsert, OutboxEvent, OutboxRow, AcknowledgedEvent, SyncDiagnostics,
  ProfileDatabase, ProfileMeta, Libraries,
}
use lvos.Storage.Codec.{parse_outbox, favorite_tx, sqlite_i64}
use lvos.Storage.Outbox.{is_event, update_rows, delete_rows}
use lvos.Storage.Profile.{transact}
use lvos.Storage.Removal.{update_favorite, set_revision}
use lvos.Storage.Remote.{protocol_snapshot, conflict_error, update_aggregate, is_some}

-- next_retry_at IS NULL OR next_retry_at <= ?1
abbrev pub is_due : ℤ → Option ℤ → Bool
is_due now none = true
is_due now (some time) = leb_ℤ time now

-- last_error IS NULL OR last_error != ?2
abbrev pub is_open : Option String → Bool
is_open none = true
is_open (some message) = not (message == conflict_error)

abbrev pub is_ready : ℤ → OutboxRow → Bool
is_ready now row = is_due now row.next_retry_at && is_open row.last_error

unfoldable pub ready_rows : ℤ → List OutboxRow → List OutboxRow
ready_rows now [] = []
ready_rows now (row ∷ rows) =
    let rest = ready_rows now rows in if is_ready now row then row ∷ rest else rest

abbrev pub text_leb : String → String → Bool
text_leb a b = elim (compare a b) [ Ordering.gt ↦ false | _ ↦ true ]

-- ORDER BY created_at, event_id
abbrev pub is_before : OutboxRow → OutboxRow → Bool
is_before a b =
    if a.created_at == b.created_at
    then text_leb a.event_id b.event_id
    else leb_ℤ a.created_at b.created_at

unfoldable pub insert_row : OutboxRow → List OutboxRow → List OutboxRow
insert_row row [] = row ∷ []
insert_row row (head ∷ rows) =
    let rest = insert_row row rows in if is_before row head then row ∷ head ∷ rows else head ∷ rest

unfoldable pub order_rows : List OutboxRow → List OutboxRow
unfolding insert_row
order_rows [] = []
order_rows (row ∷ rows) = insert_row row (order_rows rows)

unfoldable pub parse_rows : Libraries → List OutboxRow → StorageResult (List OutboxEvent)
unfolding parse_outbox
parse_rows libraries [] = ok []
parse_rows libraries (row ∷ rows) = do
  event ← parse_outbox libraries row
  events ← parse_rows libraries rows
  ok (event ∷ events)

unfoldable pub ready_outbox_events :
    Libraries → ProfileDatabase → ℤ → ℕ → StorageResult (List OutboxEvent)
unfolding ready_rows order_rows parse_rows
ready_outbox_events libraries db now limit = do
  guard (not (limit == 0)) (invalid_data "Outbox batch limit is zero")
  parse_rows libraries (take limit (order_rows (ready_rows now db.sync_outbox)))

unfoldable pub outbox_events : Libraries → ProfileDatabase → StorageResult (List OutboxEvent)
unfolding order_rows parse_rows
outbox_events libraries db = parse_rows libraries (order_rows db.sync_outbox)

unfoldable pub protocol_operation : OutboxOperation → SyncOperation
protocol_operation favorite_upsert = lvos.Protocol.favorite_upsert
protocol_operation favorite_delete = lvos.Protocol.favorite_delete
protocol_operation query_stats_upsert = lvos.Protocol.query_stats_upsert

abbrev pub stats_snapshot : Option QueryStats → Option QueryStatsSnapshot
stats_snapshot none = none
stats_snapshot (some stats) =
    if ltb 0 stats.device_query_count
    then some (record {
      query_count = stats.device_query_count;
      first_queried_at = stats.first_queried_at;
      last_queried_at = stats.last_queried_at;
      updated_at = stats.last_queried_at;
    })
    else none

-- `filter(|value| value.deleted_at.is_none())`, and the snapshot of what is left.
abbrev pub active_snapshot : Option Favorite → Option FavoriteSnapshot
active_snapshot none = none
active_snapshot (some favorite) = elim favorite.deleted_at [
  | none ↦ some (protocol_snapshot favorite)
  | some time ↦ none
]

unfoldable pub snapshot_for :
    OutboxOperation → Option Favorite → StorageResult (Option FavoriteSnapshot)
snapshot_for favorite_upsert favorite =
    ok_or (active_snapshot favorite) (invalid_data "active Favorite is missing") >>= λ snapshot.
    ok (some snapshot)
snapshot_for favorite_delete favorite = ok none
snapshot_for query_stats_upsert favorite = ok none

abbrev pub is_stats : OutboxOperation → Bool
is_stats query_stats_upsert = true
is_stats _ = false

abbrev pub key_version_of : Option Favorite → ℕ
key_version_of none = content_key_version
key_version_of (some favorite) = favorite.content.key_version

abbrev pub base_revision : Option ℕ → ℕ
base_revision none = 0
base_revision (some revision) = revision

unfoldable pub push_event : Libraries → ProfileDatabase → OutboxEvent → StorageResult PushEvent
unfolding favorite_tx get key_text snapshot_for protocol_operation
push_event libraries db event = do
  favorite ← favorite_tx db event.content_key
  let query_stats = stats_snapshot (get db.query_stats (key_text event.content_key))
  snapshot ← snapshot_for event.operation favorite
  guard (not (is_stats event.operation && not (is_some query_stats)))
      (invalid_data "sync QueryStats are missing")
  ok (record {
    event_id = libraries.uuid_text event.event_id;
    operation = protocol_operation event.operation;
    content_key = key_text event.content_key;
    key_version = key_version_of favorite;
    base_entity_revision = base_revision event.base_entity_revision;
    favorite = snapshot;
    query_stats = query_stats;
  })

abbrev pub is_favorite_row : OutboxRow → Bool
is_favorite_row row = row.operation == "favorite_upsert" || row.operation == "favorite_delete"

abbrev pub is_newer_intent : String → String → OutboxRow → Bool
is_newer_intent content_key event_id row =
    row.content_key == content_key && (not (row.event_id == event_id) && is_favorite_row row)

abbrev pub based_row : ℕ → OutboxRow → OutboxRow
based_row revision row = record row { base_entity_revision = some revision }

-- The acknowledged revision is taken by the favorite and by a newer intent for it.
unfoldable pub acknowledge_revision :
    ProfileDatabase → List ℕ → String → Option ℕ → StorageResult ProfileDatabase
unfolding update_favorite update_rows key_text
acknowledge_revision db key event_id none = ok db
acknowledge_revision db key event_id (some entity_revision) = do
  revision ← sqlite_i64 entity_revision
  ok (record db {
    favorites = update_favorite db.favorites (key_text key) (set_revision revision);
    sync_outbox =
        update_rows (is_newer_intent (key_text key) event_id) (based_row revision) db.sync_outbox;
  })

unfoldable pub acknowledge_stats :
    ProfileDatabase → AcknowledgedEvent → ℤ → StorageResult ProfileDatabase
unfolding update_aggregate
acknowledge_stats db item now = elim item.acknowledgement.aggregate_query_stats [
  | none ↦ ok db
  | some aggregate ↦ update_aggregate db item.event.content_key aggregate item.sent_query_count now
]

unfoldable pub acknowledge_event :
    Libraries → ProfileDatabase → AcknowledgedEvent → ℤ → StorageResult ProfileDatabase
unfolding acknowledge_revision acknowledge_stats delete_rows
acknowledge_event libraries db item now = do
  let event_id = libraries.uuid_text item.event.event_id
  guard (item.acknowledgement.event_id == event_id) (invalid_data "acknowledgement event mismatch")
  based ←
      acknowledge_revision db item.event.content_key event_id item.acknowledgement.entity_revision
  counted ← acknowledge_stats based item now
  ok (record counted { sync_outbox = delete_rows (is_event event_id) counted.sync_outbox })

unfoldable pub acknowledge_loop :
    Libraries → ProfileDatabase → List AcknowledgedEvent → ℤ → StorageResult ProfileDatabase
unfolding acknowledge_event
acknowledge_loop libraries db [] now = ok db
acknowledge_loop libraries db (item ∷ items) now =
    acknowledge_event libraries db item now >>= λ db'. acknowledge_loop libraries db' items now

abbrev pub succeeded : ℤ → ProfileMeta → ProfileMeta
succeeded now meta = record meta {
  last_successful_sync_at = some now;
  last_sync_error = none;
  updated_at = now;
}

unfoldable pub acknowledge_transaction :
    Libraries
    → ProfileDatabase
    → List AcknowledgedEvent
    → ℤ
    → StorageResult (Unit {0} × ProfileDatabase)
unfolding acknowledge_loop
acknowledge_transaction libraries db items now = do
  db' ← acknowledge_loop libraries db items now
  ok (tt, record db' { profile_meta = succeeded now db'.profile_meta })

unfoldable pub acknowledge_events :
    Libraries
    → Bool
    → ProfileDatabase
    → List AcknowledgedEvent
    → ℤ
    → StorageResult (Unit {0}) × ProfileDatabase
unfolding acknowledge_transaction
acknowledge_events libraries committed db items now =
    transact committed db (acknowledge_transaction libraries db items now)

-- `error.get(..error.len().min(512)).unwrap_or(error)`: a cut inside a character is none.
unfoldable pub bounded_error : String → String
bounded_error error =
    let cut = slice error 0 (min (len error) 512) in
    if len cut == min (len error) 512 then cut else error

abbrev pub retried_row : ℤ → String → ℤ → OutboxRow → OutboxRow
retried_row next_retry_at message now row = record row {
  attempt_count = row.attempt_count + 1;
  next_retry_at = some next_retry_at;
  last_error = some message;
  updated_at = now;
}

unfoldable pub retry_loop :
    Libraries → List OutboxRow → List OutboxEvent → ℤ → String → ℤ → List OutboxRow
unfolding update_rows
retry_loop libraries rows [] next_retry_at message now = rows
retry_loop libraries rows (event ∷ events) next_retry_at message now =
    retry_loop libraries
      (update_rows (is_event (libraries.uuid_text event.event_id))
        (retried_row next_retry_at message now) rows)
      events next_retry_at message now

abbrev pub failed_sync : String → ℤ → ProfileMeta → ProfileMeta
failed_sync message now meta = record meta { last_sync_error = some message; updated_at = now }

unfoldable pub mark_retry :
    Libraries
    → Bool
    → ProfileDatabase
    → List OutboxEvent
    → ℤ
    → String
    → ℤ
    → StorageResult (Unit {0}) × ProfileDatabase
unfolding retry_loop bounded_error
mark_retry libraries committed db events next_retry_at error now = transact committed db (
    ok (
      tt,
      record db {
        sync_outbox =
            retry_loop libraries db.sync_outbox events next_retry_at (bounded_error error) now;
        profile_meta = failed_sync (bounded_error error) now db.profile_meta;
      },
    ))

unfoldable pub set_sse_connected : ProfileDatabase → Bool → ℤ → ProfileDatabase
set_sse_connected db connected now = record db {
  profile_meta = record db.profile_meta { sse_connected = connected; updated_at = now };
}

unfoldable pub set_sync_error : ProfileDatabase → String → ℤ → ProfileDatabase
unfolding bounded_error
set_sync_error db error now = record db {
  profile_meta = failed_sync (bounded_error error) now db.profile_meta;
}

unfoldable pub sync_diagnostics : ProfileDatabase → SyncDiagnostics
sync_diagnostics db = record {
  last_server_revision = db.profile_meta.last_server_revision;
  pending_outbox = length db.sync_outbox;
  last_successful_sync_at = db.profile_meta.last_successful_sync_at;
  last_error = db.profile_meta.last_sync_error;
  sse_connected = db.profile_meta.sse_connected;
}
