-- ===== src/Storage/Conflict/Resolution.antt =====
-- What each resolution of a conflict means, and when it is given.
use lvos.Base.{
  ℕ, ◌≡◌, ◌≢◌, ◌⊎◌, refl, ap, ◌∙◌, inl, inr, true, false, Option, none, some, List, arith, ok, ◌==◌,
  nat_eq, string_eq, eq_iff, Bool-cases,
}
use lvos.Base.Int.{ℤ}
use lvos.Base.Table.{get, get-put}
use lvos.Protocol.{FavoriteRecord}
use lvos.Storage.Model.{
  ProfileDatabase, OutboxRow, OutboxEvent, StorageResult, Favorite, FavoriteColumns,
}
use lvos.Storage.Codec.{local_favorite}
use lvos.Storage.Outbox.{favorite_coalesce_key, is_coalesced, find_row, update_rows}
use lvos.Storage.Outbox.Pending.{pending, changed, find_row-update_rows, find_row-delete_rows-none}
use lvos.Storage.Removal.{forget_favorite_event, update_favorite, set_revision}
use lvos.Core.Content.{key_text}
use lvos.Storage.Remote.{desired_converged, remote_columns}
use lvos.Storage.Remote.Keeps.{update_aggregate_from_record-Keeps, write_remote_favorite-Writes}
use lvos.Storage.Page.Mirror.{IsCopy, remote_columns-IsCopy}
use lvos.Storage.Sync.{is_stats}
use lvos.Storage.Sync.Ready.{IsWaiting}
use lvos.Storage.Conflict.{
  ConflictResolution, converged, replay_prepared, manual_retry_required, manual_row, replayed_row,
  mark_manual_conflict, prepare_replay, replay_or_stop, resolve_remote, conflict_transaction,
  resolve_conflict,
}
use lvos.Storage.Conflict.Decision.{
  IsConverged, IsStorable, desired_converged-IsConverged, desired_converged-differs,
  update_aggregate_from_record-total, write_remote_favorite-total,
}

-- The intent counts one replay, is based on the revision of the server, and is ready at any time.
pub record IsReplayed (remote : FavoriteRecord) (row next : OutboxRow) : Type 0 where
  pub count : next.conflict_replay_count ≡ 1
  pub base : next.base_entity_revision ≡ some remote.entity_revision
  pub event_id : next.event_id ≡ row.event_id
  pub operation : next.operation ≡ row.operation
  pub payload : next.payload_json ≡ row.payload_json
  pub waiting : (time : ℤ) → IsWaiting time next

-- The intent is as it was, and is ready at no time.
pub record IsStopped (row next : OutboxRow) : Type 0 where
  pub count : next.conflict_replay_count ≡ row.conflict_replay_count
  pub event_id : next.event_id ≡ row.event_id
  pub operation : next.operation ≡ row.operation
  pub payload : next.payload_json ≡ row.payload_json
  pub held : (time : ℤ) → ¬ IsWaiting time next

-- When each resolution is given, for an intent with its row and the server's favorite, and what it
-- leaves in the outbox and the favorites. The conditions exclude each other.
abbrev pub Decided :
    OutboxEvent
    → Favorite
    → OutboxRow
    → Option FavoriteRecord
    → ProfileDatabase
    → ConflictResolution
    → Type 0
Decided event local row current db converged =
    (remote : FavoriteRecord) × (current ≡ some remote)
    × IsConverged event.operation local remote
    × (pending db event.content_key ≡ none)
    × (columns : FavoriteColumns) × (get db.favorites remote.content_key ≡ some columns)
    × IsCopy remote columns
Decided event local row current db replay_prepared =
    (remote : FavoriteRecord) × (current ≡ some remote)
    × (¬ IsConverged event.operation local remote)
    × (row.conflict_replay_count ≡ 0)
    × (next : OutboxRow) × (pending db event.content_key ≡ some next)
    × IsReplayed remote row next
Decided event local row current db manual_retry_required =
    ((current ≡ none)
      ⊎ ((remote : FavoriteRecord) × (current ≡ some remote)
          × (¬ IsConverged event.operation local remote)
          × (row.conflict_replay_count ≢ 0)))
    × (next : OutboxRow) × (pending db event.content_key ≡ some next)
    × IsStopped row next

manual_row-IsStopped : (now : ℤ) (row : OutboxRow) → IsStopped row (manual_row now row)
manual_row-IsStopped now row = record {
  count = refl;
  event_id = refl;
  operation = refl;
  payload = refl;
  held = λ time waiting. waiting.1 refl;
}

replayed_row-IsReplayed :
    (remote : FavoriteRecord) (now : ℤ) (row : OutboxRow)
    → IsReplayed remote row (replayed_row remote.entity_revision now row)
replayed_row-IsReplayed remote now row = record {
  count = refl;
  base = refl;
  event_id = refl;
  operation = refl;
  payload = refl;
  waiting = λ time. (inl refl, λ same. cc);
}

mark_manual_conflict-pending :
    (db written : ProfileDatabase) (key : List ℕ) (now : ℤ) (row : OutboxRow)
    → written.sync_outbox ≡ db.sync_outbox
    → pending db key ≡ some row
    → pending (mark_manual_conflict written key now) key ≡ some (manual_row now row)
unfolding mark_manual_conflict
mark_manual_conflict-pending db written key now row same there =
    let text = favorite_coalesce_key key in
    find_row-update_rows text (manual_row now) (λ r. refl) written.sync_outbox
    ∙ ap (λ (rows : List OutboxRow). changed (manual_row now) (find_row (is_coalesced text) rows))
        same
    ∙ ap (changed (manual_row now)) there

-- The database after a replay was prepared.
prepare_replay-pending :
    (db written : ProfileDatabase) (key : List ℕ) (remote : FavoriteRecord) (now : ℤ)
    (row : OutboxRow)
    → written.sync_outbox ≡ db.sync_outbox
    → pending db key ≡ some row
    → IsStorable remote
    → (db' : ProfileDatabase) × (prepare_replay written key remote now ≡ ok db')
      × (pending db' key ≡ some (replayed_row remote.entity_revision now row))
unfolding prepare_replay
prepare_replay-pending db written key remote now row same there storable =
    let text = favorite_coalesce_key key in
    let change = replayed_row remote.entity_revision now in
    (
      record written {
        favorites =
            update_favorite written.favorites (key_text key) (set_revision remote.entity_revision);
        sync_outbox = update_rows (is_coalesced text) change written.sync_outbox;
      },
      ground (arith, storable.revision),
      find_row-update_rows text change (λ r. refl) written.sync_outbox
          ∙ ap (λ (rows : List OutboxRow). changed change (find_row (is_coalesced text) rows)) same
          ∙ ap (changed change) there,
    )

module _ (event : OutboxEvent) (local : Favorite) (row : OutboxRow) (now : ℤ) where
  abbrev Outcome :
      Option FavoriteRecord → StorageResult (ConflictResolution × ProfileDatabase) → Type 0
  Outcome current run =
      (resolution : ConflictResolution) × (db' : ProfileDatabase) × (run ≡ ok (resolution, db'))
      × Decided event local row current db' resolution

  replay_or_stop-Decided :
      (db : ProfileDatabase) (remote : FavoriteRecord)
      → pending db event.content_key ≡ some row
      → IsStorable remote
      → ¬ IsConverged event.operation local remote
      → Outcome (some remote) (replay_or_stop db event.content_key remote now)
  unfolding replay_or_stop
  replay_or_stop-Decided db remote there storable differs =
      let key = event.content_key in
      let (aggregated, done) = update_aggregate_from_record-total db remote now storable in
      let same = (update_aggregate_from_record-Keeps db remote now done).outbox in
      elim (Bool-cases (row.conflict_replay_count == 0)) [
        | inl first ↦
            let (db', replayed, found) =
              prepare_replay-pending db aggregated key remote now row same there storable in
            (
              replay_prepared,
              db',
              ground (arith, there, done, first, replayed),
              (
                remote,
                refl,
                differs,
                ground (arith, first),
                replayed_row remote.entity_revision now row,
                found,
                replayed_row-IsReplayed remote now row,
              ),
            )
        | inr again ↦ (
          manual_retry_required,
          mark_manual_conflict aggregated key now,
          ground (arith, there, done, again),
          (
            inr (remote, refl, differs, ground (arith, again)),
            manual_row now row,
            mark_manual_conflict-pending db aggregated key now row same there,
            manual_row-IsStopped now row,
          ),
        )
      ]

  resolve_remote-Decided :
      (db : ProfileDatabase) (remote : FavoriteRecord)
      → pending db event.content_key ≡ some row
      → IsStorable remote
      → Outcome (some remote) (resolve_remote db event local remote now)
  unfolding resolve_remote forget_favorite_event
  resolve_remote-Decided db remote there storable =
      let key = event.content_key in
      elim (Bool-cases (desired_converged event.operation local remote)) [
        | inl same ↦
            let (written, wrote) = write_remote_favorite-total db remote now storable in
            let w = write_remote_favorite-Writes db remote now wrote in
            let columns = remote_columns remote remote.entity_revision in
            (
              converged,
              forget_favorite_event written key,
              ground (arith, same, wrote),
              (
                remote,
                refl,
                desired_converged-IsConverged event.operation local remote same,
                find_row-delete_rows-none (favorite_coalesce_key key) written.sync_outbox,
                columns,
                ap (λ t. get t remote.content_key) w.favorites
                    ∙ get-put db.favorites remote.content_key remote.content_key columns
                    ∙ ground (arith, eq_iff remote.content_key remote.content_key),
                remote_columns-IsCopy remote,
              ),
            )
        | inr differ ↦ rw differ (
            replay_or_stop-Decided db remote there storable
              (desired_converged-differs event.operation local remote differ))
      ]

-- The server's favorite, if there is one, can be written.
abbrev pub AllStorable : Option FavoriteRecord → Type 0
AllStorable none = Unit
AllStorable (some remote) = IsStorable remote

conflict_transaction-Decided :
    (db : ProfileDatabase) (event : OutboxEvent) (current : Option FavoriteRecord) (now : ℤ)
    (local : Favorite) (row : OutboxRow)
    → local_favorite db event.content_key ≡ ok (some local)
    → pending db event.content_key ≡ some row
    → AllStorable current
    → Outcome event local row now current (conflict_transaction db event current now)
unfolding conflict_transaction
conflict_transaction-Decided db event none now local row read there storable = (
  manual_retry_required,
  mark_manual_conflict db event.content_key now,
  ground (arith, read),
  (
    inl refl,
    manual_row now row,
    mark_manual_conflict-pending db db event.content_key now row refl there,
    manual_row-IsStopped now row,
  ),
)
conflict_transaction-Decided db event (some remote) now local row read there storable =
    rw read (resolve_remote-Decided event local row now db remote there storable)

-- A refused favorite intent that is still pending gets the resolution that its state calls for, if
-- the local favorite is read, the server's can be written and the transaction commits. Where the
-- server is where the intent wants it, the intent is gone and the row is a copy of the server's
-- favorite. Else an intent that was never replayed stays, counts one replay, is based on the
-- server's revision and is ready at any time; one that was replayed, and any intent that the server
-- has no favorite for, stays as it is but is ready at no time.
pub resolve_conflict-Decided :
    (db : ProfileDatabase) (event : OutboxEvent) (current : Option FavoriteRecord) (now : ℤ)
    (local : Favorite) (row : OutboxRow)
    → is_stats event.operation ≡ false
    → local_favorite db event.content_key ≡ ok (some local)
    → pending db event.content_key ≡ some row
    → AllStorable current
    → (resolution : ConflictResolution) × (db' : ProfileDatabase) × (resolve_conflict true db event
          current now
        ≡ (ok resolution, db'))
      × Decided event local row current db' resolution
unfolding resolve_conflict
resolve_conflict-Decided db event current now local row favorite read there storable =
    let (resolution, db', run, decided) =
      conflict_transaction-Decided db event current now local row read there storable in
    (resolution, db', rw (favorite, run) refl, decided)
