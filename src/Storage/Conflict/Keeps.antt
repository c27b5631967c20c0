-- ===== src/Storage/Conflict/Keeps.antt =====
-- A conflict makes no event, and keeps the events apart.
use lvos.Base.{
  ℕ, ◌≡◌, refl, ap, ◌∙◌, inl, inr, Bool, Option, List, arith, ok, ok_or, ◌==◌, nat_eq, string_eq,
  >>=-eq-ok, Bool-cases, Option-cases,
}
use lvos.Base.Int.{ℤ}
use lvos.Protocol.{FavoriteRecord}
use lvos.Storage.Model.{
  ProfileDatabase, OutboxRow, OutboxEvent, StorageResult, invalid_data, Favorite,
}
use lvos.Storage.Codec.{sqlite_i64, local_favorite}
use lvos.Storage.Outbox.{favorite_coalesce_key, is_coalesced, update_rows}
use lvos.Storage.Outbox.Unique.{
  Settles, Settles-refl, Settles-trans, Settles-same, delete_rows-Settles, update_rows-Settles,
}
use lvos.Storage.Outbox.Pending.{pending}
use lvos.Storage.Profile.{transact-cases}
use lvos.Storage.Removal.{forget_favorite_event}
use lvos.Storage.Remote.{desired_converged, write_remote_favorite, update_aggregate_from_record}
use lvos.Storage.Remote.Keeps.{update_aggregate_from_record-Keeps, write_remote_favorite-Writes}
use lvos.Storage.Sync.{is_stats}
use lvos.Storage.Conflict.{
  ConflictResolution, converged, replay_prepared, manual_retry_required, manual_row, replayed_row,
  mark_manual_conflict, prepare_replay, replay_or_stop, resolve_remote, conflict_transaction,
  resolve_conflict,
}

mark_manual_conflict-Settles :
    (db written : ProfileDatabase) (key : List ℕ) (now : ℤ)
    → written.sync_outbox ≡ db.sync_outbox
    → Settles db.sync_outbox (mark_manual_conflict written key now).sync_outbox
unfolding mark_manual_conflict
mark_manual_conflict-Settles db written key now same = Settles-trans (Settles-same same) (
    update_rows-Settles (manual_row now) (λ row. (refl, refl))
      (is_coalesced (favorite_coalesce_key key)) written.sync_outbox)

prepare_replay-Settles :
    (db written : ProfileDatabase) (key : List ℕ) (remote : FavoriteRecord) (now : ℤ)
    {db' : ProfileDatabase}
    → written.sync_outbox ≡ db.sync_outbox
    → prepare_replay written key remote now ≡ ok db'
    → Settles db.sync_outbox db'.sync_outbox
unfolding prepare_replay
prepare_replay-Settles db written key remote now {db'} same h =
    let text = favorite_coalesce_key key in
    let (revision, fits, h1) = >>=-eq-ok (sqlite_i64 remote.entity_revision) _ h in
    let change = replayed_row revision now in
    let result : db'.sync_outbox ≡ update_rows (is_coalesced text) change db.sync_outbox =
      ground (arith, h1)
      ∙ ap (λ (rows : List OutboxRow). update_rows (is_coalesced text) change rows) same in
    rw result (update_rows-Settles change (λ r. (refl, refl)) (is_coalesced text) db.sync_outbox)

replay_or_stop-Settles :
    (db : ProfileDatabase) (key : List ℕ) (remote : FavoriteRecord) (now : ℤ)
    {done : ConflictResolution × ProfileDatabase}
    → replay_or_stop db key remote now ≡ ok done
    → Settles db.sync_outbox done.1.sync_outbox
unfolding replay_or_stop
replay_or_stop-Settles db key remote now {done} h =
    let (row, there, h1) =
      >>=-eq-ok (ok_or (pending db key) (invalid_data "conflicted Outbox intent is missing")) _ h in
    let (aggregated, second, h2) = >>=-eq-ok (update_aggregate_from_record db remote now) _ h1 in
    let same = (update_aggregate_from_record-Keeps db remote now second).outbox in
    elim (Bool-cases (row.conflict_replay_count == 0)) [
      | inl first ↦
          let (replayed, prepared, h3) =
            >>=-eq-ok (prepare_replay aggregated key remote now)
              (λ replayed. ok (replay_prepared, replayed)) {value = done}
              (ground (arith, h2, first)) in
          let result : done ≡ (replay_prepared, replayed) = ground (arith, h3) in
          rw result (prepare_replay-Settles db aggregated key remote now same prepared)
      | inr again ↦
          let result : done ≡ (manual_retry_required, mark_manual_conflict aggregated key now) =
            ground (arith, h2, again) in
          rw result (mark_manual_conflict-Settles db aggregated key now same)
    ]

resolve_remote-Settles :
    (db : ProfileDatabase) (event : OutboxEvent) (local : Favorite) (remote : FavoriteRecord)
    (now : ℤ) {done : ConflictResolution × ProfileDatabase}
    → resolve_remote db event local remote now ≡ ok done
    → Settles db.sync_outbox done.1.sync_outbox
unfolding resolve_remote forget_favorite_event
resolve_remote-Settles db event local remote now {done} h =
    let key = event.content_key in
    let text = favorite_coalesce_key key in
    elim (Bool-cases (desired_converged event.operation local remote)) [
      | inl same ↦
          let (written, wrote, h1) =
            >>=-eq-ok (write_remote_favorite db remote now)
              (λ written. ok (converged, forget_favorite_event written key)) {value = done}
              (ground (arith, h, same)) in
          let result : done ≡ (converged, forget_favorite_event written key) = ground (arith, h1) in
          rw result (
            Settles-trans (Settles-same (write_remote_favorite-Writes db remote now wrote).outbox)
              (delete_rows-Settles (is_coalesced text) written.sync_outbox))
      | inr differ ↦
          replay_or_stop-Settles db key remote now {done = done} (ground (arith, h, differ))
    ]

conflict_transaction-Settles :
    (db : ProfileDatabase) (event : OutboxEvent) (current : Option FavoriteRecord) (now : ℤ)
    {done : ConflictResolution × ProfileDatabase}
    → conflict_transaction db event current now ≡ ok done
    → Settles db.sync_outbox done.1.sync_outbox
unfolding conflict_transaction
conflict_transaction-Settles db event current now {done} h =
    let (found, read, h1) = >>=-eq-ok (local_favorite db event.content_key) _ h in
    let (local, there, h2) =
      >>=-eq-ok (ok_or found (invalid_data "conflicted Favorite is missing")) _ h1 in
    elim (Option-cases current) [
      | inl absent ↦
          let result : done
              ≡ (manual_retry_required, mark_manual_conflict db event.content_key now) =
            ground (arith, h2, absent) in
          rw result (mark_manual_conflict-Settles db db event.content_key now refl)
      | inr (remote, present) ↦
          resolve_remote-Settles db event local remote now {done = done}
            (ground (arith, h2, present))
    ]

pub resolve_conflict-Settles :
    (committed : Bool) (db : ProfileDatabase) (event : OutboxEvent)
    (current : Option FavoriteRecord) (now : ℤ)
    → Settles db.sync_outbox (resolve_conflict committed db event current now).1.sync_outbox
unfolding resolve_conflict
resolve_conflict-Settles committed db event current now =
    elim (Bool-cases (is_stats event.operation)) [
      | inl stats ↦ rw stats (Settles-refl db.sync_outbox)
      | inr favorite ↦ rw favorite (
          transact-cases
            (λ (r : StorageResult ConflictResolution × ProfileDatabase).
              Settles db.sync_outbox r.1.sync_outbox)
            committed db (conflict_transaction db event current now)
            (λ e. Settles-refl db.sync_outbox)
            (λ done h. conflict_transaction-Settles db event current now h))
    ]
