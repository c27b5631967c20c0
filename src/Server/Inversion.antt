-- ===== src/Server/Inversion.antt =====
-- What a successful `apply_event` and a successful round of the push loop went through.
use lvos.Base.{
  ◌+◌, ◌<◌, i64_limit, i64_try_from, ok_or, string_eq, pair_eq, nat_eq, ℕ, String, Bool, ◌||◌, not,
  ◌≡◌, inl, inr, Option, some, arith, ok, guard, >>=-eq-ok, Option-cases,
}
use lvos.Base.Int.{ℤ}
use lvos.Protocol.{SyncOperation, PushEvent, FavoriteRecord, AggregateQueryStats}
use lvos.Server.Database.{
  Database, ChangeRow, UserRow, FavoriteRow, repository, database, invalid_event,
}
use lvos.Base.Table.{Table, get, put, insert}
use lvos.Server.Rows.{
  favorite_record, record_change, log_next, log_change, operation_name, has_favorite,
}
use lvos.Server.Apply.{
  Entity, EventOutcome, apply_event, apply_operation, check_base, merge_reported,
  reported_aggregate, next_user_revision, is_favorite_operation, absent, outcome_of,
}

pub record Applied (db : Database) (user_id device_id : String) (event : PushEvent) (now : ℤ)
    (applied : EventOutcome × Database) : Type 0 where
  pub current : Option FavoriteRecord
  pub read : favorite_record db user_id event.content_key ≡ ok current
  pub based : check_base db user_id event current ≡ ok tt
  pub entity : Entity
  pub operated : apply_operation event.operation db user_id event current now ≡ ok entity
  pub merged : Bool × Database
  pub stored : merge_reported entity.db user_id device_id event ≡ ok merged
  pub aggregate : Option AggregateQueryStats
  pub summed : reported_aggregate merged.1 user_id event ≡ ok aggregate
  pub next : ℕ × Database
  pub advanced :
      next_user_revision (entity.changed || merged.0) merged.1 user_id event entity.revision now
      ≡ ok next
  pub outcome :
      applied
      ≡ (outcome_of event (entity.changed || merged.0) entity.revision next.0 aggregate, next.1)

pub apply_event-Applied :
    (db : Database) (user_id device_id : String) (event : PushEvent) (now : ℤ)
    {applied : EventOutcome × Database}
    → apply_event db user_id device_id event now ≡ ok applied
    → Applied db user_id device_id event now applied
unfolding apply_event
apply_event-Applied db user_id device_id event now h =
    let (current, read, h1) = >>=-eq-ok (favorite_record db user_id event.content_key) _ h in
    let (_, based, h2) = >>=-eq-ok (check_base db user_id event current) _ h1 in
    let (entity, operated, h3) =
      >>=-eq-ok (apply_operation event.operation db user_id event current now) _ h2 in
    let (merged, stored, h4) = >>=-eq-ok (merge_reported entity.db user_id device_id event) _ h3 in
    let (_, _, h5) =
      >>=-eq-ok
        (guard (is_favorite_operation event.operation || not (absent event.query_stats))
          invalid_event)
        _ h4 in
    let (aggregate, summed, h6) = >>=-eq-ok (reported_aggregate merged.1 user_id event) _ h5 in
    let (next, advanced, h7) =
      >>=-eq-ok
        (next_user_revision (entity.changed || merged.0) merged.1 user_id event entity.revision now)
        _ h6 in
    record {
      current = current;
      read = read;
      based = based;
      entity = entity;
      operated = operated;
      merged = merged;
      stored = stored;
      aggregate = aggregate;
      summed = summed;
      next = next;
      advanced = advanced;
      outcome = ground arith;
    }

abbrev pub change_row : String → ℕ → SyncOperation → ℤ → ChangeRow
change_row content_key entity_revision operation now = record {
  content_key = content_key;
  entity_revision = entity_revision;
  operation = operation_name operation;
  changed_at = now;
}

-- A successful `record_change`: the user's next revision, and one row more in the log.
pub record Logged (db : Database) (user_id content_key : String) (entity_revision : ℕ)
    (operation : SyncOperation) (now : ℤ) (next : ℕ × Database) : Type 0 where
  pub user : UserRow
  pub found : get db.users user_id ≡ some user
  pub fits : user.sync_revision + 1 < i64_limit
  pub positive : 0 < entity_revision
  pub favorite : FavoriteRow
  pub referenced : get db.favorites (user_id, content_key) ≡ some favorite
  pub log : Table (String × ℕ) ChangeRow
  pub inserted :
      insert db.change_log
        (user_id, user.sync_revision + 1)
        (change_row content_key entity_revision operation now)
      ≡ some log
  pub result : next ≡ (
    user.sync_revision + 1,
    record db {
      users = put db.users user_id (record user { sync_revision = user.sync_revision + 1 });
      change_log = log;
    },
  )

log_change-inv :
    (db : Database) (user_id : String) (revision : ℕ) (content_key : String) (entity_revision : ℕ)
    (operation : SyncOperation) (now : ℤ) {db' : Database}
    → log_change db user_id revision content_key entity_revision operation now ≡ ok db'
    → (0 < entity_revision)
      × (favorite : FavoriteRow) × (get db.favorites (user_id, content_key) ≡ some favorite)
      × (log : Table (String × ℕ) ChangeRow) × (insert db.change_log
            (user_id, revision)
            (change_row content_key entity_revision operation now)
          ≡ some log)
      × (db' ≡ record db { change_log = log })
unfolding log_change has_favorite
log_change-inv db user_id revision content_key entity_revision operation now h =
    elim (Option-cases (get db.favorites (user_id, content_key))) [
      | inl missing ↦ absurd (ground arith)
      | inr (favorite, referenced) ↦
          elim (Option-cases (
            insert db.change_log (user_id, revision)
              (change_row content_key entity_revision operation now))) [
                | inl clash ↦ absurd (ground arith)
                | inr (log, inserted) ↦
                    (ground arith, favorite, referenced, log, inserted, ground arith)
              ]
    ]

log_next-Logged :
    (db : Database) (user_id : String) (user : UserRow) (content_key : String) (entity_revision : ℕ)
    (operation : SyncOperation) (now : ℤ) {next : ℕ × Database}
    → get db.users user_id ≡ some user
    → log_next db user_id user content_key entity_revision operation now ≡ ok next
    → Logged db user_id content_key entity_revision operation now next
unfolding log_next
log_next-Logged db user_id user content_key entity_revision operation now found h =
    let counted = λ (revision : ℕ). record db {
      users = put db.users user_id (record user { sync_revision = revision });
    } in
    let (revision, fits, h1) =
      >>=-eq-ok (ok_or (i64_try_from (user.sync_revision + 1)) (repository database)) _ h in
    let (db', logged, h2) =
      >>=-eq-ok
        (log_change (counted revision) user_id revision content_key entity_revision operation now) _
        h1 in
    let same : revision ≡ user.sync_revision + 1 = ground arith in
    let (positive, favorite, referenced, log, inserted, result) =
      log_change-inv (counted revision) user_id revision content_key entity_revision operation now
        logged in
    record {
      user = user;
      found = found;
      fits = ground arith;
      positive = positive;
      favorite = favorite;
      referenced = referenced;
      log = log;
      inserted = rw same at inserted;
      result = cc;
    }

pub record_change-Logged :
    (db : Database) (user_id content_key : String) (entity_revision : ℕ) (operation : SyncOperation)
    (now : ℤ) {next : ℕ × Database}
    → record_change db user_id content_key entity_revision operation now ≡ ok next
    → Logged db user_id content_key entity_revision operation now next
unfolding record_change
record_change-Logged db user_id content_key entity_revision operation now h =
    elim (Option-cases (get db.users user_id)) [
      | inl missing ↦ absurd (ground arith)
      | inr (user, found) ↦
          log_next-Logged db user_id user content_key entity_revision operation now found
            (ground arith)
    ]
