-- ===== src/Server/Apply/Effect.antt =====
-- What an accepted event did to its favorite (`apply_event` of apps/server/src/sync_repository.rs).
use lvos.Base.{
  ℕ, String, ◌≡◌, ap, ◌∙◌, inl, inr, Bool, true, false, ◌||◌, Option, none, some, arith, ok,
  >>=-eq-ok, Option-cases, string_eq, pair_eq, nat_eq,
}
use lvos.Base.Int.{ℤ}
use lvos.Base.Table.{get}
use lvos.Protocol.{PushEvent, FavoriteRecord, snapshot_eq}
use lvos.Server.Database.{Database, FavoriteRow}
use lvos.Server.Rows.{favorite_record, to_record, aggregate_stats}
use lvos.Server.Stats.{merge_query_stats, store_stats}
use lvos.Server.Apply.{
  EventOutcome, check_base, refuse, actual_revision, is_favorite_operation, merge_reported,
  next_user_revision,
}
use lvos.Server.Inversion.{Applied, record_change-Logged}

module _ (db : Database) (user_id : String) where
  -- An accepted operation on a favorite was based on the favorite's revision.
  pub check_base-based :
      (event : PushEvent) (current : Option FavoriteRecord)
      → is_favorite_operation event.operation ≡ true
      → check_base db user_id event current ≡ ok tt
      → actual_revision current ≡ event.base_entity_revision
  unfolding check_base refuse
  check_base-based event current favorite h = ground arith

  -- The counters leave the favorites alone, and so does the log.
  pub merge-favorites :
      (device_id : String) (event : PushEvent) {merged : Bool × Database}
      → merge_reported db user_id device_id event ≡ ok merged
      → merged.1.favorites ≡ db.favorites
  unfolding merge_reported merge_query_stats store_stats
  merge-favorites device_id event h = ground arith

  pub next-favorites :
      (changed : Bool) (event : PushEvent) (revision : Option ℕ) (now : ℤ) {next : ℕ × Database}
      → next_user_revision changed db user_id event revision now ≡ ok next
      → next.1.favorites ≡ db.favorites
  unfolding next_user_revision
  next-favorites true event (some revision) now h =
      ap (λ (n : ℕ × Database). n.1.favorites)
        (record_change-Logged db user_id event.content_key revision event.operation now h).result
  next-favorites true event none now h = cc
  next-favorites false event revision now h = ground arith

  pub favorite_record-row :
      (key : String) {value : FavoriteRecord}
      → favorite_record db user_id key ≡ ok (some value)
      → (row : FavoriteRow) × (get db.favorites (user_id, key) ≡ some row)
        × (row.favorite ≡ value.favorite)
        × (row.deleted_at ≡ value.deleted_at)
        × (row.entity_revision ≡ value.entity_revision)
  unfolding favorite_record
  favorite_record-row key {value} h = elim (Option-cases (get db.favorites (user_id, key))) [
    | inl missing ↦ absurd (ground arith)
    | inr (row, found) ↦
        let (total, summed, same) =
          >>=-eq-ok (aggregate_stats db user_id key) (λ total. ok (some (to_record key row total)))
            {value = some value} (ground (arith, h, found)) in
        (row, found, ground (arith, same), ground (arith, same), ground (arith, same))
  ]

  pub favorite_record-favorites :
      (key : String) (db' : Database)
      → db'.favorites ≡ db.favorites
      → get db'.favorites (user_id, key) ≡ get db.favorites (user_id, key)
  favorite_record-favorites key db' same = ap (λ rows. get rows (user_id, key)) same

module _ (db : Database) (user_id device_id : String) (event : PushEvent) (now : ℤ) where
  -- Past the operation, no step of an event writes a favorite.
  pub settled :
      {applied : EventOutcome × Database} (a : Applied db user_id device_id event now applied)
      → applied.1.favorites ≡ a.entity.db.favorites
  settled a =
      ap (λ (x : EventOutcome × Database). x.1.favorites) a.outcome
      ∙ next-favorites a.merged.1 user_id (a.entity.changed || a.merged.0) event a.entity.revision
          now a.advanced
      ∙ merge-favorites a.entity.db user_id device_id event a.stored

  pub acknowledged :
      {applied : EventOutcome × Database} (a : Applied db user_id device_id event now applied)
      → is_favorite_operation event.operation ≡ true
      → applied.0.ack.entity_revision ≡ a.entity.revision
  acknowledged a favorite =
      ap (λ (x : EventOutcome × Database). x.0.ack.entity_revision) a.outcome
      ∙ ground (arith, favorite)
