-- ===== src/Server/Apply/Delete.antt =====
-- What an accepted delete did to its favorite.
use lvos.Base.{
  ◌+◌, ◌≤◌, String, ◌≡◌, refl, ap, ◌∙◌, inl, inr, false, Option, none, some, arith, ok,
  Option-cases, Bool-cases, string_eq, pair_eq, nat_eq,
}
use lvos.Base.Int.{ℤ}
use lvos.Base.Table.{get, get-put_self}
use lvos.Protocol.{PushEvent, FavoriteRecord, favorite_delete, snapshot_eq}
use lvos.Server.Database.{Database, FavoriteRow}
use lvos.Server.Rows.{favorite_record}
use lvos.Server.Apply.{
  EventOutcome, Entity, apply_event, apply_operation, apply_delete, delete_active, update_state,
  switched_row, actual_revision, is_active,
}
use lvos.Server.Inversion.{apply_event-Applied}
use lvos.Server.Apply.Effect.{
  check_base-based, favorite_record-row, favorite_record-favorites, settled, acknowledged,
}

module _ (db : Database) (user_id : String) where
  -- The row of the favorite after an accepted delete: a tombstone.
  pub record Deleted (event : PushEvent) (current : Option FavoriteRecord) (entity : Entity)
      : Type 0 where
    pub silent : event.favorite ≡ none
    pub row : FavoriteRow
    pub found : get entity.db.favorites (user_id, event.content_key) ≡ some row
    pub deleted_at : ℤ
    pub deleted : row.deleted_at ≡ some deleted_at
    pub revision : entity.revision ≡ some row.entity_revision
    pub low : actual_revision current ≤ row.entity_revision
    pub high : row.entity_revision ≤ actual_revision current + 1

  delete_active-Deleted :
      (event : PushEvent) (value : FavoriteRecord) (now : ℤ) {entity : Entity}
      → event.favorite ≡ none
      → favorite_record db user_id event.content_key ≡ ok (some value)
      → delete_active db user_id event value now ≡ ok entity
      → Deleted event (some value) entity
  unfolding delete_active update_state
  delete_active-Deleted event value now {entity} silent read h =
      let (row, found, favorite, deleted, revision) =
        favorite_record-row db user_id event.content_key read in
      let written = switched_row row (some now) (value.entity_revision + 1) now in
      let stored = get-put_self db.favorites (user_id, event.content_key) written in
      record {
        silent = silent;
        row = written;
        found = ground (arith, h, found, stored);
        deleted_at = now;
        deleted = refl;
        revision = ground (arith, h, found);
        low = omega arith;
        high = omega arith;
      }

  delete_again-Deleted :
      (event : PushEvent) (value : FavoriteRecord) {entity : Entity}
      → event.favorite ≡ none
      → favorite_record db user_id event.content_key ≡ ok (some value)
      → is_active value ≡ false
      → entity ≡ record { changed = false; revision = some value.entity_revision; db = db }
      → Deleted event (some value) entity
  delete_again-Deleted event value {entity} silent read gone kept =
      let (row, found, favorite, deleted, revision) =
        favorite_record-row db user_id event.content_key read in
      let stays : entity.db ≡ db = ap (λ (x : Entity). x.db) kept in
      elim (Option-cases value.deleted_at) [
        | inl active ↦ absurd (ground (arith, gone, active))
        | inr (at, tombstone) ↦ record {
          silent = silent;
          row = row;
          found = ground (arith, found, stays);
          deleted_at = at;
          deleted = deleted ∙ tombstone;
          revision = ground (arith, kept, revision);
          low = ground (arith, revision);
          high = ground (arith, revision);
        }
      ]

  delete-Deleted :
      (event : PushEvent) (current : Option FavoriteRecord) (now : ℤ) {entity : Entity}
      → favorite_record db user_id event.content_key ≡ ok current
      → apply_delete db user_id event current now ≡ ok entity
      → Deleted event current entity
  unfolding apply_delete
  delete-Deleted event none now read h = absurd (ground (arith, h))
  delete-Deleted event (some value) now {entity} read h =
      let silent : event.favorite ≡ none = ground (arith, h) in
      elim (Bool-cases (is_active value)) [
        | inl active ↦
            delete_active-Deleted event value now {entity = entity} silent read
              (ground (arith, h, active, silent))
        | inr gone ↦
            delete_again-Deleted event value {entity = entity} silent read gone
              (ground (arith, h, gone, silent))
      ]

-- An accepted delete leaves a tombstone, whose revision, which the acknowledgement gives, is the
-- event's base revision or the one after.
pub apply_event-delete :
    (db : Database) (user_id device_id : String) (event : PushEvent) (now : ℤ)
    {applied : EventOutcome × Database}
    → event.operation ≡ favorite_delete
    → apply_event db user_id device_id event now ≡ ok applied
    → (row : FavoriteRow) × (get applied.1.favorites (user_id, event.content_key) ≡ some row)
      × ((at : ℤ) × (row.deleted_at ≡ some at))
      × (applied.0.ack.entity_revision ≡ some row.entity_revision)
      × (event.base_entity_revision ≤ row.entity_revision)
      × (row.entity_revision ≤ event.base_entity_revision + 1)
unfolding apply_operation
apply_event-delete db user_id device_id event now {applied} op h =
    let a = apply_event-Applied db user_id device_id event now h in
    let u =
      delete-Deleted db user_id event a.current now {entity = a.entity} a.read
        (ground (arith, a.operated, op)) in
    let based = check_base-based db user_id event a.current (ground (arith, op)) a.based in
    let kept =
      favorite_record-favorites a.entity.db user_id event.content_key applied.1
        (settled db user_id device_id event now a) in
    let told = acknowledged db user_id device_id event now a (ground (arith, op)) in
    (
      u.row,
      kept ∙ u.found,
      (u.deleted_at, u.deleted),
      told ∙ u.revision,
      omega (arith, based, u.low),
      omega (arith, based, u.high),
    )
