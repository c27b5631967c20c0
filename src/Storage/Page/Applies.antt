-- ===== src/Storage/Page/Applies.antt =====
-- A remote change settles the outbox and leaves the profile's own row alone.
use lvos.Base.{
  ℕ, ◌≡◌, refl, ◌∙◌, inl, inr, List, arith, ok, ok_or, nat_eq, string_eq, >>=-eq-ok, ◌>>=◌,
  Bool-cases, Option-cases,
}
use lvos.Base.Int.{ℤ}
use lvos.Protocol.{FavoriteRecord, SyncChange}
use lvos.Core.Content.{key_text}
use lvos.Storage.Model.{ProfileDatabase, OutboxRow, invalid_data, Libraries}
use lvos.Storage.Codec.{sqlite_i64, parse_content_key, parse_outbox_operation, local_favorite}
use lvos.Storage.Outbox.{favorite_coalesce_key, is_coalesced, find_row, update_rows}
use lvos.Storage.Outbox.Unique.{
  Settles, Settles-refl, Settles-trans, Settles-same, delete_rows-Settles, update_rows-Settles,
}
use lvos.Storage.Removal.{update_favorite, set_revision, forget_favorite_event}
use lvos.Storage.Remote.{validate_remote, desired_converged, write_remote_favorite}
use lvos.Storage.Remote.Keeps.{
  Keeps, Writes, update_aggregate_from_record-Keeps, write_remote_favorite-Writes,
}
use lvos.Storage.Page.{rebased_row, rebase_pending, settle_pending, apply_remote_change}

-- The databases before and after a remote change: the outbox settles, the profile's row stays.
pub record Applies (db db' : ProfileDatabase) : Type 0 where
  pub settles : Settles db.sync_outbox db'.sync_outbox
  pub meta : db'.profile_meta ≡ db.profile_meta

pub Applies-refl : (db : ProfileDatabase) → Applies db db
Applies-refl db = record { settles = Settles-refl db.sync_outbox; meta = refl }

pub Applies-trans :
    {first second third : ProfileDatabase}
    → Applies first second
    → Applies second third
    → Applies first third
Applies-trans a b = record { settles = Settles-trans a.settles b.settles; meta = b.meta ∙ a.meta }

Keeps-Applies : {db db' : ProfileDatabase} → Keeps db db' → Applies db db'
Keeps-Applies k = record { settles = Settles-same k.outbox; meta = k.meta }

Writes-Applies :
    {db db' : ProfileDatabase} {remote : FavoriteRecord} → Writes db remote db' → Applies db db'
Writes-Applies w = record { settles = Settles-same w.outbox; meta = w.meta }

forget_favorite_event-Applies :
    (db : ProfileDatabase) (key : List ℕ) → Applies db (forget_favorite_event db key)
unfolding forget_favorite_event
forget_favorite_event-Applies db key = record {
  settles = delete_rows-Settles (is_coalesced (favorite_coalesce_key key)) db.sync_outbox;
  meta = refl;
}

rebase_pending-Applies :
    (db : ProfileDatabase) (key : List ℕ) (remote : FavoriteRecord) (now : ℤ)
    {db' : ProfileDatabase}
    → rebase_pending db key remote now ≡ ok db'
    → Applies db db'
unfolding rebase_pending
rebase_pending-Applies db key remote now h =
    let (revision, fits, h1) = >>=-eq-ok (sqlite_i64 remote.entity_revision) _ h in
    let test = is_coalesced (favorite_coalesce_key key) in
    let rebased = record db {
      favorites = update_favorite db.favorites (key_text key) (set_revision revision);
      sync_outbox = update_rows test (rebased_row revision now) db.sync_outbox;
    } in
    Applies-trans
      (record {
        settles =
            update_rows-Settles (rebased_row revision now) (λ row. (refl, refl)) test
              db.sync_outbox;
        meta = refl;
      })
      (Keeps-Applies (update_aggregate_from_record-Keeps rebased remote now h1))

converge-Applies :
    (db : ProfileDatabase) (key : List ℕ) (remote : FavoriteRecord) (now : ℤ)
    {db' : ProfileDatabase}
    → (write_remote_favorite db remote now >>= λ written. ok (forget_favorite_event written key))
      ≡ ok db'
    → Applies db db'
converge-Applies db key remote now {db'} h =
    let (written, done, h1) = >>=-eq-ok (write_remote_favorite db remote now) _ h in
    let same : db' ≡ forget_favorite_event written key = ground (arith, h1) in
    rw same (
      Applies-trans (Writes-Applies (write_remote_favorite-Writes db remote now done))
        (forget_favorite_event-Applies written key))

settle_pending-Applies :
    (db : ProfileDatabase) (key : List ℕ) (pending : OutboxRow) (remote : FavoriteRecord) (now : ℤ)
    {db' : ProfileDatabase}
    → settle_pending db key pending remote now ≡ ok db'
    → Applies db db'
unfolding settle_pending
settle_pending-Applies db key pending remote now h =
    let (operation, parsed, h1) = >>=-eq-ok (parse_outbox_operation pending.operation) _ h in
    let (found, there, h2) = >>=-eq-ok (local_favorite db key) _ h1 in
    let (local, one, h3) =
      >>=-eq-ok (ok_or found (invalid_data "pending Favorite is missing")) _ h2 in
    elim (Bool-cases (desired_converged operation local remote)) [
      | inl same ↦ converge-Applies db key remote now (ground (arith, h3, same))
      | inr differ ↦ rebase_pending-Applies db key remote now (ground (arith, h3, differ))
    ]

pub apply_remote_change-Applies :
    (libraries : Libraries) (db : ProfileDatabase) (change : SyncChange) (now : ℤ)
    {db' : ProfileDatabase}
    → apply_remote_change libraries db change now ≡ ok db'
    → Applies db db'
unfolding apply_remote_change
apply_remote_change-Applies libraries db change now h =
    let (valid, checked, h1) = >>=-eq-ok (validate_remote libraries change.favorite) _ h in
    let (key, parsed, h2) = >>=-eq-ok (parse_content_key change.favorite.content_key) _ h1 in
    elim (Option-cases (find_row (is_coalesced (favorite_coalesce_key key)) db.sync_outbox)) [
      | inl absent ↦
          Writes-Applies
            (write_remote_favorite-Writes db change.favorite now (ground (arith, h2, absent)))
      | inr (pending, present) ↦
          settle_pending-Applies db key pending change.favorite now (ground (arith, h2, present))
    ]
