-- ===== src/Server/Grows.antt =====
-- What the operation and the counters of one event leave alone: the users and the change log; no
-- favorite is ever removed.
use lvos.Base.{
  ℕ, String, Bool, true, ◌≡◌, refl, ◌∙◌, Option, none, some, arith, ok, inl, inr, Option-cases,
  string_eq, pair_eq,
}
use lvos.Base.Int.{ℤ}
use lvos.Base.Table.{get, put, get-put}
use lvos.Protocol.{
  PushEvent, SyncOperation, favorite_upsert, favorite_delete, query_stats_upsert, FavoriteSnapshot,
  FavoriteRecord,
}
use lvos.Server.Database.{Database, FavoriteRow, StatsRow}
use lvos.Server.Rows.{has_favorite}
use lvos.Server.Stats.{merge_query_stats, store_stats}
use lvos.Server.Apply.{
  upserted_row, switched_row, Entity, apply_operation, apply_upsert, apply_delete, delete_active,
  upsert_favorite, update_state, merge_reported,
}

pub record Grows (db db' : Database) : Type 0 where
  pub users : db'.users ≡ db.users
  pub change_log : db'.change_log ≡ db.change_log
  pub favorites :
      (user key : String) → has_favorite db user key ≡ true → has_favorite db' user key ≡ true

pub Grows-refl : (db : Database) → Grows db db
Grows-refl db = record { users = refl; change_log = refl; favorites = λ user key h. h }

pub Grows-trans : {a b c : Database} → Grows a b → Grows b c → Grows a c
Grows-trans s t = record {
  users = t.users ∙ s.users;
  change_log = t.change_log ∙ s.change_log;
  favorites = λ user key h. t.favorites user key (s.favorites user key h);
}

module _ (db : Database) (user_id : String) where
  put_favorite-Grows :
      (key : String) (row : FavoriteRow)
      → Grows db (record db { favorites = put db.favorites (user_id, key) row })
  unfolding has_favorite
  put_favorite-Grows key row = record {
    users = refl;
    change_log = refl;
    favorites = λ user k h. ground (arith, get-put db.favorites (user_id, key) (user, k) row);
  }

  upsert_favorite-Grows :
      (event : PushEvent) (snapshot : FavoriteSnapshot) (revision : ℕ) (now : ℤ) {db' : Database}
      → upsert_favorite db user_id event snapshot revision now ≡ ok db'
      → Grows db db'
  unfolding upsert_favorite
  upsert_favorite-Grows event snapshot revision now h =
      ground
        (arith, put_favorite-Grows event.content_key (upserted_row event snapshot revision now))

  pub update_state-Grows :
      (key : String) (deleted_at : Option ℤ) (revision : ℕ) (now : ℤ) {db' : Database}
      → update_state db user_id key deleted_at revision now ≡ ok db'
      → Grows db db'
  unfolding update_state
  update_state-Grows key deleted_at revision now h =
      elim (Option-cases (get db.favorites (user_id, key))) [
        | inl missing ↦ ground (arith, Grows-refl db)
        | inr (row, found) ↦
            ground (arith, put_favorite-Grows key (switched_row row deleted_at revision now))
      ]

  upsert-Grows :
      (event : PushEvent) (current : Option FavoriteRecord) (now : ℤ) {entity : Entity}
      → apply_upsert db user_id event current now ≡ ok entity
      → Grows db entity.db
  unfolding apply_upsert
  upsert-Grows event current now h = grind (arith, upsert_favorite-Grows, Grows-refl db)

  delete-Grows :
      (event : PushEvent) (current : Option FavoriteRecord) (now : ℤ) {entity : Entity}
      → apply_delete db user_id event current now ≡ ok entity
      → Grows db entity.db
  unfolding apply_delete delete_active
  delete-Grows event current now h = grind (arith, update_state-Grows, Grows-refl db)

  pub operation-Grows :
      (operation : SyncOperation) (event : PushEvent) (current : Option FavoriteRecord) (now : ℤ)
      {entity : Entity}
      → apply_operation operation db user_id event current now ≡ ok entity
      → Grows db entity.db
  unfolding apply_operation
  operation-Grows favorite_upsert event current now h = upsert-Grows event current now h
  operation-Grows favorite_delete event current now h = delete-Grows event current now h
  operation-Grows query_stats_upsert event current now h = grind (arith, Grows-refl db)

  put_stats-Grows :
      (key : String × (String × String)) (row : StatsRow)
      → Grows db (record db { device_query_stats = put db.device_query_stats key row })
  unfolding has_favorite
  put_stats-Grows key row = record { users = refl; change_log = refl; favorites = λ user k h. h }

  store_stats-Grows :
      (device_id key : String) (stats : StatsRow) (stored : Option StatsRow)
      {merged : Bool × Database}
      → store_stats db user_id device_id key stats stored ≡ ok merged
      → Grows db merged.1
  unfolding store_stats
  store_stats-Grows device_id key stats none h = grind (arith, put_stats-Grows)
  store_stats-Grows device_id key stats (some value) h =
      grind (arith, put_stats-Grows, Grows-refl db)

  pub merge-Grows :
      (device_id : String) (event : PushEvent) {merged : Bool × Database}
      → merge_reported db user_id device_id event ≡ ok merged
      → Grows db merged.1
  unfolding merge_reported merge_query_stats
  merge-Grows device_id event h = grind (arith, store_stats-Grows, Grows-refl db)
