-- ===== src/Server/Apply.antt =====
-- `apply_event` of apps/server/src/sync_repository.rs: one new event against the database.
pub mod Effect
pub mod Upsert
pub mod Delete
pub mod Revision
pub mod Unchanged
use Prim.Native.String.{count}
use lvos.Base.{
  ℕ, String, Bool, true, false, ◌&&◌, ◌||◌, not, Option, none, some, ltb, ◌==◌, nat_eq, string_eq,
  pair_eq, if◌then◌else◌, ok, err, ◌>>=◌, ◌>>◌, guard, ok_or, i64_try_from, checked_add_one,
}
use lvos.Base.Int.{ℤ}
use lvos.Base.Table.{get, put}
use lvos.Protocol.{
  SyncOperation, favorite_upsert, favorite_delete, query_stats_upsert, FavoriteSnapshot,
  AggregateQueryStats, PushEvent, PushAck, applied, no_change, FavoriteRecord, snapshot_eq,
}
use lvos.Server.Database.{
  Database, SyncResult, FavoriteRow, repository, database, conflict, invalid_event,
}
use lvos.Server.Rows.{user_revision, favorite_record, aggregate_stats, record_change}
use lvos.Server.Stats.{merge_query_stats}

pub record EventOutcome : Type 0 where
  pub ack : PushAck
  pub changed_revision : Option ℕ

-- What the operation did to the favorite: whether it changed, and its revision after.
pub record Entity : Type 0 where
  pub changed : Bool
  pub revision : Option ℕ
  pub db : Database

-- The refusal of a stale base revision, with what the client needs to recover.
unfoldable pub refuse {ℓ} :
    {A : Type ℓ} → Database → String → Option String → Option FavoriteRecord → SyncResult A
refuse db user_id event_id current = do
  latest_revision ← user_revision db user_id
  err (
      conflict
        (record { event_id = event_id; current = current; latest_revision = latest_revision }))

abbrev pub is_favorite_operation : SyncOperation → Bool
is_favorite_operation favorite_upsert = true
is_favorite_operation favorite_delete = true
is_favorite_operation query_stats_upsert = false

-- 0 stands for a favorite that the server does not have.
abbrev pub actual_revision : Option FavoriteRecord → ℕ
actual_revision none = 0
actual_revision (some favorite) = favorite.entity_revision

unfoldable pub check_base :
    Database → String → PushEvent → Option FavoriteRecord → SyncResult (Unit {0})
unfolding refuse
check_base db user_id event current =
    if is_favorite_operation event.operation
      && not (actual_revision current == event.base_entity_revision)
    then refuse db user_id (some event.event_id) current
    else ok tt

-- The CHECKs of the table `favorites`.
unfoldable pub valid_columns : PushEvent → FavoriteSnapshot → Bool
valid_columns event snapshot =
    count event.content_key == 64
    && (ltb 0 event.key_version && (snapshot.kind == "word" || snapshot.kind == "text"))

unfoldable pub has_user : Database → String → Bool
has_user db user_id = elim (get db.users user_id) [ none ↦ false | some user ↦ true ]

-- The row that the upsert writes.
abbrev pub upserted_row : PushEvent → FavoriteSnapshot → ℕ → ℤ → FavoriteRow
upserted_row event snapshot entity_revision now = record {
  key_version = event.key_version;
  favorite = snapshot;
  deleted_at = none;
  entity_revision = entity_revision;
  server_received_at = now;
}

unfoldable pub upsert_favorite :
    Database → String → PushEvent → FavoriteSnapshot → ℕ → ℤ → SyncResult Database
unfolding valid_columns has_user
upsert_favorite db user_id event snapshot entity_revision now = do
  stored ← ok_or (i64_try_from entity_revision) invalid_event
  guard (ltb 0 stored && (valid_columns event snapshot && has_user db user_id))
      (repository database)
  ok (record db {
    favorites =
        put db.favorites (user_id, event.content_key) (upserted_row event snapshot stored now);
  })

-- The row that the update of the state writes.
abbrev pub switched_row : FavoriteRow → Option ℤ → ℕ → ℤ → FavoriteRow
switched_row row deleted_at entity_revision now = record row {
  favorite = record row.favorite { updated_at = now };
  deleted_at = deleted_at;
  entity_revision = entity_revision;
  server_received_at = now;
}

-- UPDATE favorites SET deleted_at, updated_at, entity_revision, server_received_at.
unfoldable pub update_state : Database → String → String → Option ℤ → ℕ → ℤ → SyncResult Database
update_state db user_id content_key deleted_at entity_revision now = do
  stored ← ok_or (i64_try_from entity_revision) invalid_event
  elim (get db.favorites (user_id, content_key)) [
    | none ↦ ok db
    | some row ↦ ok (record db {
      favorites = put db.favorites (user_id, content_key) (switched_row row deleted_at stored now);
    })
  ]

abbrev pub is_active : FavoriteRecord → Bool
is_active value = elim value.deleted_at [ none ↦ true | some at ↦ false ]

abbrev pub matches_current : Option FavoriteRecord → FavoriteSnapshot → Bool
matches_current none snapshot = false
matches_current (some value) snapshot = value.favorite == snapshot && is_active value

abbrev pub current_revision : Option FavoriteRecord → Option ℕ
current_revision none = none
current_revision (some favorite) = some favorite.entity_revision

abbrev pub changed_to : ℕ → SyncResult Database → SyncResult Entity
changed_to revision written =
    written >>= λ db. ok (record { changed = true; revision = some revision; db = db })

unfoldable pub apply_upsert :
    Database → String → PushEvent → Option FavoriteRecord → ℤ → SyncResult Entity
apply_upsert db user_id event current now = do
  snapshot ← ok_or event.favorite invalid_event
  next_revision ← ok_or (checked_add_one (actual_revision current)) invalid_event
  if matches_current current snapshot
      then ok (record { changed = false; revision = current_revision current; db = db })
      else changed_to next_revision (upsert_favorite db user_id event snapshot next_revision now)

abbrev pub absent {ℓ} : {A : Type ℓ} → Option A → Bool
absent none = true
absent (some a) = false

unfoldable pub delete_active :
    Database → String → PushEvent → FavoriteRecord → ℤ → SyncResult Entity
delete_active db user_id event value now = do
  next_revision ← ok_or (checked_add_one value.entity_revision) invalid_event
  changed_to next_revision (update_state db user_id event.content_key (some now) next_revision now)

unfoldable pub apply_delete :
    Database → String → PushEvent → Option FavoriteRecord → ℤ → SyncResult Entity
apply_delete db user_id event current now = do
  guard (absent event.favorite) invalid_event
  value ← ok_or current invalid_event
  if is_active value
      then delete_active db user_id event value now
      else ok (record { changed = false; revision = some value.entity_revision; db = db })

-- The `match` on the operation.
unfoldable pub apply_operation :
    SyncOperation → Database → String → PushEvent → Option FavoriteRecord → ℤ → SyncResult Entity
apply_operation favorite_upsert db user_id event current now =
    apply_upsert db user_id event current now
apply_operation favorite_delete db user_id event current now =
    apply_delete db user_id event current now
apply_operation query_stats_upsert db user_id event current now = do
  guard (absent event.favorite && not (absent current)) invalid_event
  ok (record { changed = false; revision = current_revision current; db = db })

unfoldable pub merge_reported :
    Database → String → String → PushEvent → SyncResult (Bool × Database)
merge_reported db user_id device_id event = elim event.query_stats [
  | none ↦ ok (false, db)
  | some stats ↦ merge_query_stats db user_id device_id event.content_key stats
]

unfoldable pub reported_aggregate :
    Database → String → PushEvent → SyncResult (Option AggregateQueryStats)
reported_aggregate db user_id event = elim event.query_stats [
  | none ↦ ok none
  | some stats ↦ aggregate_stats db user_id event.content_key
]

-- A change takes the user's next revision; an event without effect reports the current one.
unfoldable pub next_user_revision :
    Bool → Database → String → PushEvent → Option ℕ → ℤ → SyncResult (ℕ × Database)
next_user_revision true db user_id event entity_revision now = do
  revision ← ok_or entity_revision invalid_event
  record_change db user_id event.content_key revision event.operation now
next_user_revision false db user_id event entity_revision now = do
  revision ← user_revision db user_id
  ok (revision, db)

abbrev pub outcome_of : PushEvent → Bool → Option ℕ → ℕ → Option AggregateQueryStats → EventOutcome
outcome_of event changed entity_revision revision aggregate = record {
  ack = record {
    event_id = event.event_id;
    status = if changed then applied else no_change;
    entity_revision = if is_favorite_operation event.operation then entity_revision else none;
    user_revision = revision;
    aggregate_query_stats = aggregate;
  };
  changed_revision = if changed then some revision else none;
}

unfoldable pub apply_event :
    Database → String → String → PushEvent → ℤ → SyncResult (EventOutcome × Database)
apply_event db user_id device_id event now = do
  current ← favorite_record db user_id event.content_key
  check_base db user_id event current
  entity ← apply_operation event.operation db user_id event current now
  merged ← merge_reported entity.db user_id device_id event
  guard (is_favorite_operation event.operation || not (absent event.query_stats)) invalid_event
  aggregate ← reported_aggregate merged.1 user_id event
  let changed = entity.changed || merged.0
  next ← next_user_revision changed merged.1 user_id event entity.revision now
  ok (outcome_of event changed entity.revision next.0 aggregate, next.1)
