-- ===== src/Server/Touches.antt =====
-- What the writes of one user leave alone: every row of every other user, and the tables that the
-- synchronization never writes.
use lvos.Base.{
  ◌+◌, ◌||◌, Option-cases, inl, inr, sym, ap, ℕ, String, Bool, true, false, ◌≡◌, ◌≢◌, refl, ◌∙◌,
  Option, none, some, [], ◌∷◌, arith, ok, eq_iff, string_eq, nat_eq, pair_eq,
}
use lvos.Base.Int.{ℤ}
use lvos.Base.Table.{Table, get, put, insert, get-put_other}
use lvos.Protocol.{
  PushEvent, FavoriteSnapshot, SyncOperation, favorite_upsert, favorite_delete, query_stats_upsert,
  FavoriteRecord,
}
use lvos.Server.Database.{Database, StatsRow, FavoriteRow, UserRow, ChangeRow}
use lvos.Server.Rows.{record_change, content_stats}
use lvos.Server.Stats.{merged_row, merge_query_stats, store_stats}
use lvos.Server.Apply.{
  upserted_row, switched_row, Entity, EventOutcome, apply_event, apply_operation, apply_upsert,
  apply_delete, delete_active, upsert_favorite, update_state, merge_reported, next_user_revision,
}
use lvos.Server.Changes.{user_changes}
use lvos.Server.Inversion.{apply_event-Applied, record_change-Logged, change_row}

-- A write under another user's key leaves the rows that are summed for `v`.
pub content_stats-put :
    (rows : Table (String × (String × String)) StatsRow) (user key device v k : String)
    (row : StatsRow)
    → v ≢ user
    → content_stats (put rows (user, (key, device)) row) v k ≡ content_stats rows v k
unfolding content_stats put
content_stats-put [] user key device v k row h = ground (arith, eq_iff user v)
content_stats-put (((u, (c, d)), r) ∷ rows) user key device v k row h =
    ground (arith, content_stats-put rows user key device v k row, eq_iff u user, eq_iff u v)

pub user_changes-insert :
    (log : Table (String × ℕ) ChangeRow) (user : String) (revision : ℕ) (row : ChangeRow)
    (v : String) {log' : Table (String × ℕ) ChangeRow}
    → insert log (user, revision) row ≡ some log'
    → v ≢ user
    → user_changes log' v ≡ user_changes log v
unfolding user_changes insert
user_changes-insert [] user revision row v i h = ground (arith, eq_iff user v)
user_changes-insert (((u, n), r) ∷ log) user revision row v {log'} i h =
    elim (Option-cases (insert log (user, revision) row)) [
      | inl clash ↦ ground arith
      | inr (r', found) ↦
          ground (
            arith,
            user_changes-insert log user revision row v found h,
            eq_iff u user,
            eq_iff user v,
          )
    ]

pub record Touches (user_id : String) (db db' : Database) : Type 0 where
  pub devices : db'.devices ≡ db.devices
  pub sessions : db'.sessions ≡ db.sessions
  pub processed : db'.processed ≡ db.processed
  pub users : (v : String) → v ≢ user_id → get db'.users v ≡ get db.users v
  pub favorites : (v k : String) → v ≢ user_id → get db'.favorites (v, k) ≡ get db.favorites (v, k)
  pub stats :
      (v k : String)
      → v ≢ user_id
      → content_stats db'.device_query_stats v k ≡ content_stats db.device_query_stats v k
  pub changes :
      (v : String) → v ≢ user_id → user_changes db'.change_log v ≡ user_changes db.change_log v

pub Touches-refl : (user_id : String) (db : Database) → Touches user_id db db
Touches-refl user_id db = record {
  devices = refl;
  sessions = refl;
  processed = refl;
  users = λ v h. refl;
  favorites = λ v k h. refl;
  stats = λ v k h. refl;
  changes = λ v h. refl;
}

pub Touches-trans :
    {user_id : String} {a b c : Database}
    → Touches user_id a b
    → Touches user_id b c
    → Touches user_id a c
Touches-trans s t = record {
  devices = t.devices ∙ s.devices;
  sessions = t.sessions ∙ s.sessions;
  processed = t.processed ∙ s.processed;
  users = λ v h. t.users v h ∙ s.users v h;
  favorites = λ v k h. t.favorites v k h ∙ s.favorites v k h;
  stats = λ v k h. t.stats v k h ∙ s.stats v k h;
  changes = λ v h. t.changes v h ∙ s.changes v h;
}

-- Rows under keys of different users are different rows.
pub pair_ne : {u v k j : String} → v ≢ u → ¬ (◌≡◌ {A = String × String} (u, k) (v, j))
pair_ne h p = h (sym (ap (λ (x : String × String). x.0) p))

module _ (db : Database) (user_id : String) where
  pub put_favorite-Touches :
      (key : String) (row : FavoriteRow)
      → Touches user_id db (record db { favorites = put db.favorites (user_id, key) row })
  put_favorite-Touches key row = record {
    devices = refl;
    sessions = refl;
    processed = refl;
    users = λ v h. refl;
    favorites = λ v k h. get-put_other db.favorites (user_id, key) (v, k) row (pair_ne h);
    stats = λ v k h. refl;
    changes = λ v h. refl;
  }

  pub put_stats-Touches :
      (key device : String) (row : StatsRow)
      → Touches user_id db (record db {
        device_query_stats = put db.device_query_stats (user_id, (key, device)) row;
      })
  put_stats-Touches key device row = record {
    devices = refl;
    sessions = refl;
    processed = refl;
    users = λ v h. refl;
    favorites = λ v k h. refl;
    stats = λ v k h. content_stats-put db.device_query_stats user_id key device v k row h;
    changes = λ v h. refl;
  }

  pub put_user-Touches :
      (row : UserRow) → Touches user_id db (record db { users = put db.users user_id row })
  put_user-Touches row = record {
    devices = refl;
    sessions = refl;
    processed = refl;
    users = λ v h. get-put_other db.users user_id v row (λ p. h (sym p));
    favorites = λ v k h. refl;
    stats = λ v k h. refl;
    changes = λ v h. refl;
  }

  pub insert_change-Touches :
      (revision : ℕ) (row : ChangeRow) {log : Table (String × ℕ) ChangeRow}
      → insert db.change_log (user_id, revision) row ≡ some log
      → Touches user_id db (record db { change_log = log })
  insert_change-Touches revision row {log} i = record {
    devices = refl;
    sessions = refl;
    processed = refl;
    users = λ v h. refl;
    favorites = λ v k h. refl;
    stats = λ v k h. refl;
    changes = λ v h. user_changes-insert db.change_log user_id revision row v i h;
  }

  upsert_favorite-Touches :
      (event : PushEvent) (snapshot : FavoriteSnapshot) (revision : ℕ) (now : ℤ) {db' : Database}
      → upsert_favorite db user_id event snapshot revision now ≡ ok db'
      → Touches user_id db db'
  unfolding upsert_favorite
  upsert_favorite-Touches event snapshot revision now h =
      ground
        (arith, put_favorite-Touches event.content_key (upserted_row event snapshot revision now))

  pub update_state-Touches :
      (key : String) (deleted_at : Option ℤ) (revision : ℕ) (now : ℤ) {db' : Database}
      → update_state db user_id key deleted_at revision now ≡ ok db'
      → Touches user_id db db'
  unfolding update_state
  update_state-Touches key deleted_at revision now h =
      elim (Option-cases (get db.favorites (user_id, key))) [
        | inl missing ↦ ground (arith, Touches-refl user_id db)
        | inr (row, found) ↦
            ground (arith, put_favorite-Touches key (switched_row row deleted_at revision now))
      ]

  upsert-Touches :
      (event : PushEvent) (current : Option FavoriteRecord) (now : ℤ) {entity : Entity}
      → apply_upsert db user_id event current now ≡ ok entity
      → Touches user_id db entity.db
  unfolding apply_upsert
  upsert-Touches event current now h =
      grind (arith, upsert_favorite-Touches, Touches-refl user_id db)

  delete-Touches :
      (event : PushEvent) (current : Option FavoriteRecord) (now : ℤ) {entity : Entity}
      → apply_delete db user_id event current now ≡ ok entity
      → Touches user_id db entity.db
  unfolding apply_delete delete_active
  delete-Touches event current now h = grind (arith, update_state-Touches, Touches-refl user_id db)

  operation-Touches :
      (operation : SyncOperation) (event : PushEvent) (current : Option FavoriteRecord) (now : ℤ)
      {entity : Entity}
      → apply_operation operation db user_id event current now ≡ ok entity
      → Touches user_id db entity.db
  unfolding apply_operation
  operation-Touches favorite_upsert event current now h = upsert-Touches event current now h
  operation-Touches favorite_delete event current now h = delete-Touches event current now h
  operation-Touches query_stats_upsert event current now h = grind (arith, Touches-refl user_id db)

  store_stats-Touches :
      (device_id key : String) (stats : StatsRow) (stored : Option StatsRow)
      {merged : Bool × Database}
      → store_stats db user_id device_id key stats stored ≡ ok merged
      → Touches user_id db merged.1
  unfolding store_stats
  store_stats-Touches device_id key stats none h =
      ground (arith, put_stats-Touches key device_id stats)
  store_stats-Touches device_id key stats (some value) h =
      ground
        (arith, put_stats-Touches key device_id (merged_row value stats), Touches-refl user_id db)

  merge-Touches :
      (device_id : String) (event : PushEvent) {merged : Bool × Database}
      → merge_reported db user_id device_id event ≡ ok merged
      → Touches user_id db merged.1
  unfolding merge_reported merge_query_stats
  merge-Touches device_id event h = grind (arith, store_stats-Touches, Touches-refl user_id db)

module _ (db : Database) (user_id : String) where
  pub record_change-Touches :
      (key : String) (entity_revision : ℕ) (operation : SyncOperation) (now : ℤ)
      {next : ℕ × Database}
      → record_change db user_id key entity_revision operation now ≡ ok next
      → Touches user_id db next.1
  record_change-Touches key entity_revision operation now {next} h =
      let l = record_change-Logged db user_id key entity_revision operation now h in
      let row : UserRow = record l.user { sync_revision = l.user.sync_revision + 1 } in
      let counted : Database = record db { users = put db.users user_id row } in
      rw l.result (
        Touches-trans (put_user-Touches db user_id row) (
          insert_change-Touches counted user_id (l.user.sync_revision + 1)
            (change_row key entity_revision operation now) l.inserted))

  next-Touches :
      (changed : Bool) (event : PushEvent) (revision : Option ℕ) (now : ℤ) {next : ℕ × Database}
      → next_user_revision changed db user_id event revision now ≡ ok next
      → Touches user_id db next.1
  unfolding next_user_revision
  next-Touches true event revision now h = grind (arith, record_change-Touches)
  next-Touches false event revision now h = grind (arith, Touches-refl user_id db)

-- An event of a user touches no row of another user, and no processed event.
pub apply_event-Touches :
    (db : Database) (user_id device_id : String) (event : PushEvent) (now : ℤ)
    {applied : EventOutcome × Database}
    → apply_event db user_id device_id event now ≡ ok applied
    → Touches user_id db applied.1
apply_event-Touches db user_id device_id event now {applied} h =
    let a = apply_event-Applied db user_id device_id event now h in
    rw a.outcome (
      Touches-trans (operation-Touches db user_id event.operation event a.current now a.operated) (
        Touches-trans (merge-Touches a.entity.db user_id device_id event a.stored) (
          next-Touches a.merged.1 user_id (a.entity.changed || a.merged.0) event a.entity.revision
            now a.advanced)))
