-- ===== src/Storage/Invariant/Reached.antt =====
-- The outbox of a profile, however its operations follow each other.
use lvos.Base.{
  ℕ, String, ◌≡◌, refl, inl, inr, Bool, true, false, Option, none, some, List, [], arith, ok, err,
  ok_or, guard, not, ◌==◌, nat_eq, >>=-eq-ok, Option-cases, Result-cases,
}
use lvos.Base.Int.{ℤ}
use lvos.Protocol.{FavoriteRecord, SyncChange}
use lvos.Storage.Model.{
  ProfileDatabase, OutboxEvent, AcknowledgedEvent, HistoryEntry, Favorite, StorageResult, Libraries,
  invalid_data,
}
use lvos.Core.Content.{key_text}
use lvos.Storage.Codec.{favorite_tx, sqlite_i64}
use lvos.Storage.Outbox.{is_coalesced, favorite_coalesce_key, delete_rows}
use lvos.Storage.Outbox.Unique.{AllDistinct, delete_rows-Settles}
use lvos.Storage.Profile.{
  transact, transact-cases, record_transaction, record_successful_query, favorite_from_history_tx,
  favorite, read_back, in_sync_domain,
}
use lvos.Storage.Removal.{
  forget_favorite_event, unfavorite_active, unfavorite_transaction, unfavorite, read_tombstone,
  acknowledge_statements, acknowledge_favorite, clear_history,
}
use lvos.Storage.Identity.{replace_device_identity}
use lvos.Storage.Identity.Moves.{replace_device_identity-AllDistinct}
use lvos.Storage.Page.{apply_remote_page}
use lvos.Storage.Page.Cursor.{apply_remote_page-Settles}
use lvos.Storage.Sync.{acknowledge_events, mark_retry}
use lvos.Storage.Sync.Acknowledged.{acknowledge_events-Settles, mark_retry-Settles}
use lvos.Storage.Conflict.{resolve_conflict}
use lvos.Storage.Conflict.Keeps.{resolve_conflict-Settles}
use lvos.Storage.Invariant.{
  record_transaction-AllDistinct, favorite_from_history_tx-AllDistinct,
  unfavorite_active-AllDistinct,
}

-- The databases that a profile goes through, from one with an empty outbox. Each operation may be
-- refused, fail or commit.
pub data Reached (libraries : Libraries) : ProfileDatabase → Type 0 where
  opened : {db : ProfileDatabase} → db.sync_outbox ≡ [] → Reached libraries db
  queried :
      {db : ProfileDatabase} (event_id : String) (committed : Bool) (entry : HistoryEntry)
      → Reached libraries db
      → Reached libraries (record_successful_query libraries event_id committed db entry).1
  favorited :
      {db : ProfileDatabase} (event_id : String) (committed : Bool) (key : List ℕ) (now : ℤ)
      → Reached libraries db
      → Reached libraries (favorite libraries event_id committed db key now).1
  unfavorited :
      {db : ProfileDatabase} (event_id : String) (committed : Bool) (key : List ℕ) (now : ℤ)
      → Reached libraries db
      → Reached libraries (unfavorite libraries event_id committed db key now).1
  confirmed :
      {db : ProfileDatabase} (key : List ℕ) (entity_revision : ℕ)
      → Reached libraries db
      → Reached libraries (acknowledge_favorite db key entity_revision).1
  cleared :
      {db : ProfileDatabase} (committed : Bool)
      → Reached libraries db
      → Reached libraries (clear_history committed db).1
  moved :
      {db : ProfileDatabase} (committed : Bool) (expected_current replacement : List ℕ) (now : ℤ)
      → Reached libraries db
      → Reached libraries
          (replace_device_identity libraries committed db expected_current replacement now).1
  acknowledged :
      {db : ProfileDatabase} (committed : Bool) (items : List AcknowledgedEvent) (now : ℤ)
      → Reached libraries db
      → Reached libraries (acknowledge_events libraries committed db items now).1
  retried :
      {db : ProfileDatabase} (committed : Bool) (events : List OutboxEvent) (next_retry_at : ℤ)
      (error : String) (now : ℤ)
      → Reached libraries db
      → Reached libraries (mark_retry libraries committed db events next_retry_at error now).1
  paged :
      {db : ProfileDatabase} (committed : Bool) (changes : List SyncChange) (next_revision : ℕ)
      (now : ℤ)
      → Reached libraries db
      → Reached libraries (apply_remote_page libraries committed db changes next_revision now).1
  resolved :
      {db : ProfileDatabase} (committed : Bool) (event : OutboxEvent)
      (current : Option FavoriteRecord) (now : ℤ)
      → Reached libraries db
      → Reached libraries (resolve_conflict committed db event current now).1

-- The outbox of the second component.
abbrev Distinct {ℓ} : {A : Type ℓ} → StorageResult A × ProfileDatabase → Type 0
Distinct r = AllDistinct r.1.sync_outbox

read_back-database :
    (message : String) (key : List ℕ) (r : StorageResult Favorite × ProfileDatabase)
    → (read_back message key r).1 ≡ r.1
read_back-database message key (ok done, db) = refl
read_back-database message key (err e, db) = refl

read_tombstone-database :
    (key : List ℕ) (r : StorageResult (Option Favorite) × ProfileDatabase)
    → (read_tombstone key r).1 ≡ r.1
read_tombstone-database key (ok none, db) = refl
read_tombstone-database key (ok (some favorite), db) = refl
read_tombstone-database key (err e, db) = refl

module _ (libraries : Libraries) (event_id : String) (committed : Bool) (db : ProfileDatabase)
    (h : AllDistinct db.sync_outbox) where
  record_successful_query-Distinct :
      (entry : HistoryEntry)
      → Distinct (record_successful_query libraries event_id committed db entry)
  unfolding record_successful_query
  record_successful_query-Distinct entry =
      transact-cases Distinct committed db (record_transaction libraries event_id db entry) (λ e. h)
        (λ done whole. record_transaction-AllDistinct libraries event_id db entry whole h)

  favorite-Distinct :
      (key : List ℕ) (now : ℤ) → Distinct (favorite libraries event_id committed db key now)
  unfolding favorite
  favorite-Distinct key now =
      let body = favorite_from_history_tx libraries event_id db key now in
      rw (read_back-database "favorite upsert disappeared" key (transact committed db body)) (
        transact-cases Distinct committed db body (λ e. h)
          (λ done whole.
            favorite_from_history_tx-AllDistinct libraries event_id db key now whole h))

  unfavorite_transaction-Distinct :
      (key : List ℕ) (now : ℤ) {done : Option Favorite × ProfileDatabase}
      → unfavorite_transaction libraries event_id db key now ≡ ok done
      → AllDistinct done.1.sync_outbox
  unfolding unfavorite_transaction
  unfavorite_transaction-Distinct key now {done} whole =
      let (found, read, h1) = >>=-eq-ok (favorite_tx db key) _ whole in
      let (one, there, h2) =
        >>=-eq-ok (ok_or found (invalid_data "favorite does not exist")) _ h1 in
      elim (Option-cases one.deleted_at) [
        | inr (time, buried) ↦
            let result : done ≡ (some one, db) = ground (arith, h2, buried) in rw result h
        | inl active ↦
            let (written, wrote, h3) =
              >>=-eq-ok (unfavorite_active libraries event_id db key one.entity_revision now)
                (λ written. ok (none, written)) {value = done} (ground (arith, h2, active)) in
            let result : done ≡ (none, written) = ground (arith, h3) in
            rw result (
              unfavorite_active-AllDistinct libraries event_id db key one.entity_revision now wrote
                h)
      ]

  unfavorite-Distinct :
      (key : List ℕ) (now : ℤ) → Distinct (unfavorite libraries event_id committed db key now)
  unfolding unfavorite
  unfavorite-Distinct key now =
      let body = unfavorite_transaction libraries event_id db key now in
      rw (read_tombstone-database key (transact committed db body)) (
        transact-cases Distinct committed db body (λ e. h)
          (λ done whole. unfavorite_transaction-Distinct key now whole))

acknowledge_statements-AllDistinct :
    (db : ProfileDatabase) (key : List ℕ) (entity_revision : ℕ) {db' : ProfileDatabase}
    → acknowledge_statements db key entity_revision ≡ ok db'
    → AllDistinct db.sync_outbox
    → AllDistinct db'.sync_outbox
unfolding acknowledge_statements forget_favorite_event
acknowledge_statements-AllDistinct db key entity_revision {db'} whole h =
    let test = is_coalesced (favorite_coalesce_key key) in
    let (a, positive, h1) =
      >>=-eq-ok
        (guard (not (entity_revision == 0)) (invalid_data "acknowledged entity revision is zero")) _
        whole in
    let (revision, fits, h2) = >>=-eq-ok (sqlite_i64 entity_revision) _ h1 in
    let (b, there, h3) =
      >>=-eq-ok (guard (in_sync_domain db (key_text key)) (invalid_data "favorite does not exist"))
        _ h2 in
    let result : db'.sync_outbox ≡ delete_rows test db.sync_outbox = ground (arith, h3) in
    rw result ((delete_rows-Settles test db.sync_outbox).distinct h)

acknowledge_favorite-Distinct :
    (db : ProfileDatabase) (key : List ℕ) (entity_revision : ℕ)
    → AllDistinct db.sync_outbox
    → Distinct (acknowledge_favorite db key entity_revision)
unfolding acknowledge_favorite
acknowledge_favorite-Distinct db key entity_revision h =
    elim (Result-cases (acknowledge_statements db key entity_revision)) [
      | inl (db', whole) ↦
          rw whole (acknowledge_statements-AllDistinct db key entity_revision whole h)
      | inr (e, failed) ↦ rw failed h
    ]

clear_history-Distinct :
    (committed : Bool) (db : ProfileDatabase)
    → AllDistinct db.sync_outbox
    → Distinct (clear_history committed db)
unfolding clear_history
clear_history-Distinct true db h = h
clear_history-Distinct false db h = h

-- However the operations of a profile follow each other, and whether they are refused, fail or
-- commit, no event and no coalesce key stands twice in the outbox.
pub Reached-AllDistinct :
    (libraries : Libraries) {db : ProfileDatabase}
    → Reached libraries db
    → AllDistinct db.sync_outbox
Reached-AllDistinct libraries {db} (opened empty) = rw empty tt
Reached-AllDistinct libraries (queried {db} event_id committed entry r) =
    record_successful_query-Distinct libraries event_id committed db
      (Reached-AllDistinct libraries r) entry
Reached-AllDistinct libraries (favorited {db} event_id committed key now r) =
    favorite-Distinct libraries event_id committed db (Reached-AllDistinct libraries r) key now
Reached-AllDistinct libraries (unfavorited {db} event_id committed key now r) =
    unfavorite-Distinct libraries event_id committed db (Reached-AllDistinct libraries r) key now
Reached-AllDistinct libraries (confirmed {db} key entity_revision r) =
    acknowledge_favorite-Distinct db key entity_revision (Reached-AllDistinct libraries r)
Reached-AllDistinct libraries (cleared {db} committed r) =
    clear_history-Distinct committed db (Reached-AllDistinct libraries r)
Reached-AllDistinct libraries (moved {db} committed expected_current replacement now r) =
    replace_device_identity-AllDistinct libraries committed db expected_current replacement now
      (Reached-AllDistinct libraries r)
Reached-AllDistinct libraries (acknowledged {db} committed items now r) =
    (acknowledge_events-Settles libraries committed db items now).distinct
      (Reached-AllDistinct libraries r)
Reached-AllDistinct libraries (retried {db} committed events next_retry_at error now r) =
    (mark_retry-Settles libraries committed db events next_retry_at error now).distinct
      (Reached-AllDistinct libraries r)
Reached-AllDistinct libraries (paged {db} committed changes next_revision now r) =
    (apply_remote_page-Settles libraries committed db changes next_revision now).distinct
      (Reached-AllDistinct libraries r)
Reached-AllDistinct libraries (resolved {db} committed event current now r) =
    (resolve_conflict-Settles committed db event current now).distinct
      (Reached-AllDistinct libraries r)
