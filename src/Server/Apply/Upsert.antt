-- ===== src/Server/Apply/Upsert.antt =====
-- What an accepted upsert did to its favorite.
use lvos.Base.{
  ◌+◌, ◌≤◌, String, ◌≡◌, refl, sym, ap, ◌∙◌, inl, inr, true, false, Option, none, some, arith, ok,
  >>=-eq-ok, Bool-cases, string_eq, pair_eq, nat_eq, ok_or, checked_add_one,
}
use lvos.Base.Int.{ℤ}
use lvos.Base.Table.{get, get-put_self}
use lvos.Protocol.{PushEvent, FavoriteSnapshot, FavoriteRecord, favorite_upsert, snapshot_eq}
use lvos.Server.Database.{Database, FavoriteRow, invalid_event}
use lvos.Server.Rows.{favorite_record}
use lvos.Server.Apply.{
  EventOutcome, Entity, apply_event, apply_operation, apply_upsert, upsert_favorite, upserted_row,
  actual_revision, matches_current, current_revision, changed_to,
}
use lvos.Server.Inversion.{apply_event-Applied}
use lvos.Server.Apply.Effect.{
  check_base-based, favorite_record-row, favorite_record-favorites, settled, acknowledged,
}

module _ (db : Database) (user_id : String) where
  -- The row of the favorite after an accepted upsert.
  pub record Upserted (event : PushEvent) (current : Option FavoriteRecord) (entity : Entity)
      : Type 0 where
    pub snapshot : FavoriteSnapshot
    pub sent : event.favorite ≡ some snapshot
    pub row : FavoriteRow
    pub found : get entity.db.favorites (user_id, event.content_key) ≡ some row
    pub same : row.favorite ≡ snapshot
    pub active : row.deleted_at ≡ none
    pub revision : entity.revision ≡ some row.entity_revision
    pub low : actual_revision current ≤ row.entity_revision
    pub high : row.entity_revision ≤ actual_revision current + 1

  upsert_new-Upserted :
      (event : PushEvent) (current : Option FavoriteRecord) (snapshot : FavoriteSnapshot) (now : ℤ)
      {entity : Entity}
      → event.favorite ≡ some snapshot
      → changed_to
          (actual_revision current + 1)
          (upsert_favorite db user_id event snapshot (actual_revision current + 1) now)
        ≡ ok entity
      → Upserted event current entity
  unfolding upsert_favorite
  upsert_new-Upserted event current snapshot now {entity} sent h =
      let row = upserted_row event snapshot (actual_revision current + 1) now in
      let stored = get-put_self db.favorites (user_id, event.content_key) row in
      record {
        snapshot = snapshot;
        sent = sent;
        row = row;
        found = ground (arith, h, stored);
        same = refl;
        active = refl;
        revision = ground (arith, h);
        low = omega arith;
        high = omega arith;
      }

  upsert_same-Upserted :
      (event : PushEvent) (current : Option FavoriteRecord) (snapshot : FavoriteSnapshot)
      {entity : Entity}
      → event.favorite ≡ some snapshot
      → favorite_record db user_id event.content_key ≡ ok current
      → matches_current current snapshot ≡ true
      → entity ≡ record { changed = false; revision = current_revision current; db = db }
      → Upserted event current entity
  upsert_same-Upserted event none snapshot sent read same kept = cc
  upsert_same-Upserted event (some value) snapshot {entity} sent read same kept =
      let (row, found, favorite, deleted, revision) =
        favorite_record-row db user_id event.content_key read in
      let stays : entity.db ≡ db = ap (λ (x : Entity). x.db) kept in
      record {
        snapshot = snapshot;
        sent = sent;
        row = row;
        found = ground (arith, found, stays);
        same = ground (arith, favorite, same, snapshot_eq.beq_iff value.favorite snapshot);
        active = ground (arith, deleted, same);
        revision = ground (arith, kept, revision);
        low = ground (arith, revision);
        high = ground (arith, revision);
      }

  upsert-Upserted :
      (event : PushEvent) (current : Option FavoriteRecord) (now : ℤ) {entity : Entity}
      → favorite_record db user_id event.content_key ≡ ok current
      → apply_upsert db user_id event current now ≡ ok entity
      → Upserted event current entity
  unfolding apply_upsert
  upsert-Upserted event current now {entity} read h =
      let (snapshot, sent, h1) = >>=-eq-ok (ok_or event.favorite invalid_event) _ h in
      let (next, counted, h2) =
        >>=-eq-ok (ok_or (checked_add_one (actual_revision current)) invalid_event) _ h1 in
      elim (Bool-cases (matches_current current snapshot)) [
        | inl same ↦
            upsert_same-Upserted event current snapshot {entity = entity} (ground (arith, sent))
              read same (ground (arith, h2, same))
        | inr differ ↦
            upsert_new-Upserted event current snapshot now {entity = entity} (ground (arith, sent))
              (ground (arith, h2, differ, counted))
      ]

-- An accepted upsert leaves an active favorite that shows what the event sent. Its revision, which
-- the acknowledgement gives, is the event's base revision or the one after.
pub apply_event-upsert :
    (db : Database) (user_id device_id : String) (event : PushEvent) (now : ℤ)
    {applied : EventOutcome × Database}
    → event.operation ≡ favorite_upsert
    → apply_event db user_id device_id event now ≡ ok applied
    → (row : FavoriteRow) × (get applied.1.favorites (user_id, event.content_key) ≡ some row)
      × (event.favorite ≡ some row.favorite)
      × (row.deleted_at ≡ none)
      × (applied.0.ack.entity_revision ≡ some row.entity_revision)
      × (event.base_entity_revision ≤ row.entity_revision)
      × (row.entity_revision ≤ event.base_entity_revision + 1)
unfolding apply_operation
apply_event-upsert db user_id device_id event now {applied} op h =
    let a = apply_event-Applied db user_id device_id event now h in
    let u =
      upsert-Upserted db user_id event a.current now {entity = a.entity} a.read
        (ground (arith, a.operated, op)) in
    let based = check_base-based db user_id event a.current (ground (arith, op)) a.based in
    let kept =
      favorite_record-favorites a.entity.db user_id event.content_key applied.1
        (settled db user_id device_id event now a) in
    let told = acknowledged db user_id device_id event now a (ground (arith, op)) in
    (
      u.row,
      kept ∙ u.found,
      u.sent ∙ ap some (sym u.same),
      u.active,
      told ∙ u.revision,
      omega (arith, based, u.low),
      omega (arith, based, u.high),
    )
