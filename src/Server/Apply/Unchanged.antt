-- ===== src/Server/Apply/Unchanged.antt =====
-- An event without effect (`apply_event` of apps/server/src/sync_repository.rs).
use lvos.Base.{
  ℕ, String, ◌≡◌, sym, ap, ◌∙◌, Bool, false, Option, none, some, arith, ok, string_eq, pair_eq,
  nat_eq,
}
use lvos.Base.Int.{ℤ}
use lvos.Protocol.{
  PushEvent, SyncOperation, favorite_upsert, favorite_delete, query_stats_upsert, FavoriteRecord,
  no_change,
}
use lvos.Server.Database.{Database, StatsRow}
use lvos.Server.Rows.{user_revision}
use lvos.Server.Stats.{merge_query_stats, store_stats}
use lvos.Server.Apply.{
  EventOutcome, Entity, apply_event, apply_operation, apply_upsert, apply_delete, delete_active,
  merge_reported, next_user_revision,
}
use lvos.Server.Inversion.{apply_event-Applied}

module _ (db : Database) (user_id : String) where
  operation-unchanged :
      (operation : SyncOperation) (event : PushEvent) (current : Option FavoriteRecord) (now : ℤ)
      {entity : Entity}
      → apply_operation operation db user_id event current now ≡ ok entity
      → entity.changed ≡ false
      → entity.db ≡ db
  unfolding apply_operation apply_upsert apply_delete delete_active
  operation-unchanged favorite_upsert event current now h same = ground arith
  operation-unchanged favorite_delete event current now h same = ground arith
  operation-unchanged query_stats_upsert event current now h same = ground arith

  store_stats-unchanged :
      (device_id key : String) (stats : StatsRow) (stored : Option StatsRow)
      {merged : Bool × Database}
      → store_stats db user_id device_id key stats stored ≡ ok merged
      → merged.0 ≡ false
      → merged.1 ≡ db
  unfolding store_stats
  store_stats-unchanged device_id key stats none h same = ground arith
  store_stats-unchanged device_id key stats (some value) h same = ground arith

  merge-unchanged :
      (device_id : String) (event : PushEvent) {merged : Bool × Database}
      → merge_reported db user_id device_id event ≡ ok merged
      → merged.0 ≡ false
      → merged.1 ≡ db
  unfolding merge_reported merge_query_stats
  merge-unchanged device_id event h same = grind (arith, store_stats-unchanged)

next-false :
    (db : Database) (user_id : String) (event : PushEvent) (revision : Option ℕ) (now : ℤ)
    {next : ℕ × Database}
    → next_user_revision false db user_id event revision now ≡ ok next
    → (next.1 ≡ db) × (user_revision db user_id ≡ ok next.0)
unfolding next_user_revision
next-false db user_id event revision now h = ground arith

-- Applying an event that turns out to be without effect gives back the database as it was, before
-- its acknowledgement is stored; the acknowledgement names the user's revision as it is.
pub apply_event-no_change :
    (db : Database) (user_id device_id : String) (event : PushEvent) (now : ℤ)
    {applied : EventOutcome × Database}
    → apply_event db user_id device_id event now ≡ ok applied
    → applied.0.ack.status ≡ no_change
    → (applied.1 ≡ db) × (user_revision db user_id ≡ ok applied.0.ack.user_revision)
unfolding next_user_revision
apply_event-no_change db user_id device_id event now {applied} h idle =
    let a = apply_event-Applied db user_id device_id event now h in
    let status = ap (λ (x : EventOutcome × Database). x.0.ack.status) a.outcome in
    let e : a.entity.changed ≡ false = ground (arith, status, idle) in
    let m : a.merged.0 ≡ false = ground (arith, status, idle) in
    let first = operation-unchanged db user_id event.operation event a.current now a.operated e in
    let second = merge-unchanged a.entity.db user_id device_id event a.stored m in
    let (after, read) =
      next-false a.merged.1 user_id event a.entity.revision now (rw (e, m) at a.advanced) in
    let kept = second ∙ first in
    (
      ap (λ (x : EventOutcome × Database). x.1) a.outcome ∙ after ∙ kept,
      ap (λ (d : Database). user_revision d user_id) (sym kept)
          ∙ read
          ∙ ap (λ (x : EventOutcome × Database). ok x.0.ack.user_revision) (sym a.outcome),
    )
