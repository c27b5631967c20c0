-- ===== src/Storage/Invariant.antt =====
-- The outbox of a profile, over all operations: no two rows share an event or a coalesce key.
pub mod Reached
pub mod Renewed
use lvos.Base.{
  ℕ, String, ◌≡◌, refl, sym, ap, ◌∙◌, inl, inr, Bool, true, false, not, Option, none, some, List,
  [], ◌∷◌, arith, ok, err, guard, ok_or, ◌==◌, nat_eq, string_eq, if◌then◌else◌, >>=-eq-ok, ◌>>=◌,
  Bool-cases, Option-cases,
}
use lvos.Base.Int.{ℤ}
use lvos.Base.Table.{get, put}
use lvos.Protocol.{FavoriteRecord, SyncChange}
use lvos.Core.Content.{key_text}
use lvos.Storage.Model.{
  ProfileDatabase, OutboxRow, OutboxEvent, OutboxOperation, AcknowledgedEvent, QueryStats,
  HistoryEntry, Favorite, StorageResult, StorageError, Libraries, invalid_data, favorite_upsert,
  favorite_delete,
}
use lvos.Storage.Codec.{sqlite_i64, favorite_tx}
use lvos.Storage.Outbox.{
  upsert_query_stats_event, upsert_favorite_event, stats_payload, favorite_payload, stats_event,
  favorite_event, to_string, is_coalesced, query_stats_coalesce_key, favorite_coalesce_key,
  delete_rows,
}
use lvos.Storage.Outbox.Unique.{AllDistinct, Settles, delete_rows-Settles}
use lvos.Storage.Outbox.Upsert.{upsert_outbox-AllDistinct}
use lvos.Storage.Profile.{
  transact, transact-cases, counted_query, count_query, in_sync_domain, record_transaction,
  upsert_history, record_successful_query, activated, activate, active, revision_of, stored_history,
  favorite_from_history_tx, favorite, read_back,
}
use lvos.Storage.Removal.{
  bury, forget_favorite_event, unfavorite_active, unfavorite_transaction, unfavorite,
  read_tombstone, acknowledge_statements, acknowledge_favorite, clear_history, set_revision,
  update_favorite, settle,
}
use lvos.Storage.Identity.{replace_device_identity}
use lvos.Storage.Identity.Moves.{replace_device_identity-AllDistinct}
use lvos.Storage.Page.{apply_remote_page}
use lvos.Storage.Page.Cursor.{apply_remote_page-Settles}
use lvos.Storage.Sync.{acknowledge_events, mark_retry}
use lvos.Storage.Sync.Acknowledged.{acknowledge_events-Settles, mark_retry-Settles}
use lvos.Storage.Conflict.{resolve_conflict}
use lvos.Storage.Conflict.Keeps.{resolve_conflict-Settles}

module _ (libraries : Libraries) (event_id : String) where
  upsert_query_stats_event-AllDistinct :
      (db : ProfileDatabase) (key : List ℕ) (stats : QueryStats) (now : ℤ) {db' : ProfileDatabase}
      → upsert_query_stats_event libraries event_id db key stats now ≡ ok db'
      → AllDistinct db.sync_outbox
      → AllDistinct db'.sync_outbox
  unfolding upsert_query_stats_event
  upsert_query_stats_event-AllDistinct db key stats now h distinct =
      let (payload, written, h1) =
        >>=-eq-ok (to_string (libraries.query_stats_json (stats_payload key stats))) _ h in
      upsert_outbox-AllDistinct (stats_event event_id db.profile_meta.device_id key payload now) db
        h1 distinct

  upsert_favorite_event-AllDistinct :
      (db : ProfileDatabase) (key : List ℕ) (state : String) (revision : ℕ) (stats : QueryStats)
      (now : ℤ) (operation : OutboxOperation) {db' : ProfileDatabase}
      → upsert_favorite_event libraries event_id db key state revision stats now operation ≡ ok db'
      → AllDistinct db.sync_outbox
      → AllDistinct db'.sync_outbox
  unfolding upsert_favorite_event
  upsert_favorite_event-AllDistinct db key state revision stats now operation h distinct =
      let (payload, written, h1) =
        >>=-eq-ok (to_string (libraries.favorite_json (favorite_payload key state revision stats)))
          _ h in
      upsert_outbox-AllDistinct (favorite_event event_id key payload revision now operation) db h1
        distinct

  pub record_transaction-AllDistinct :
      (db : ProfileDatabase) (entry : HistoryEntry) {done : QueryStats × ProfileDatabase}
      → record_transaction libraries event_id db entry ≡ ok done
      → AllDistinct db.sync_outbox
      → AllDistinct done.1.sync_outbox
  unfolding record_transaction upsert_history
  record_transaction-AllDistinct db entry {done} h distinct =
      let key = key_text entry.content.content_key in
      let (stats, one, h1) =
        >>=-eq-ok (counted_query (get db.query_stats key) entry.last_queried_at) _ h in
      let recorded = count_query db entry stats in
      elim (Bool-cases (in_sync_domain recorded key)) [
        | inl shared ↦
            let (db', written, h2) =
              >>=-eq-ok
                (upsert_query_stats_event libraries event_id recorded entry.content.content_key
                  stats entry.last_queried_at)
                (λ db'. ok (stats, db')) {value = done} (ground (arith, h1, shared)) in
            let result : done ≡ (stats, db') = ground (arith, h2) in
            rw result (
              upsert_query_stats_event-AllDistinct recorded entry.content.content_key stats
                entry.last_queried_at written distinct)
        | inr private ↦
            let result : done ≡ (stats, recorded) = ground (arith, h1, private) in
            rw result distinct
      ]

  activate-AllDistinct :
      (db : ProfileDatabase) (key : List ℕ) (history : HistoryEntry) (entity_revision : ℕ)
      (stats : QueryStats) (now : ℤ) {done : Favorite × ProfileDatabase}
      → activate libraries event_id db key history entity_revision stats now ≡ ok done
      → AllDistinct db.sync_outbox
      → AllDistinct done.1.sync_outbox
  unfolding activate
  activate-AllDistinct db key history entity_revision stats now {done} h distinct =
      let (revision, fits, h1) = >>=-eq-ok (sqlite_i64 entity_revision) _ h in
      let written = record db {
        favorites = put db.favorites (key_text key) (activated history revision now);
      } in
      let (db', sent, h2) =
        >>=-eq-ok
          (upsert_favorite_event libraries event_id written key "active" entity_revision stats now
            favorite_upsert)
          _ h1 in
      let (found, read, h3) = >>=-eq-ok (favorite_tx db' key) _ h2 in
      let (one, there, h4) =
        >>=-eq-ok (ok_or found (invalid_data "favorite upsert disappeared")) _ h3 in
      let result : done ≡ (one, db') = ground (arith, h4) in
      rw result (
        upsert_favorite_event-AllDistinct written key "active" entity_revision stats now
          favorite_upsert sent distinct)

  pub favorite_from_history_tx-AllDistinct :
      (db : ProfileDatabase) (key : List ℕ) (now : ℤ) {done : Favorite × ProfileDatabase}
      → favorite_from_history_tx libraries event_id db key now ≡ ok done
      → AllDistinct db.sync_outbox
      → AllDistinct done.1.sync_outbox
  unfolding favorite_from_history_tx
  favorite_from_history_tx-AllDistinct db key now {done} h distinct =
      let (history, read, h1) = >>=-eq-ok (stored_history db key) _ h in
      let (stats, counted, h2) =
        >>=-eq-ok
          (ok_or (get db.query_stats (key_text key))
            (invalid_data "favorite query stats are missing"))
          _ h1 in
      let (existing, found, h3) = >>=-eq-ok (favorite_tx db key) _ h2 in
      elim (Option-cases (active existing)) [
        | inl absent ↦
            activate-AllDistinct db key history (revision_of existing) stats now {done = done}
              (ground (arith, h3, absent)) distinct
        | inr (one, present) ↦
            let result : done ≡ (one, db) = ground (arith, h3, present) in rw result distinct
      ]

  pub unfavorite_active-AllDistinct :
      (db : ProfileDatabase) (key : List ℕ) (entity_revision : ℕ) (now : ℤ) {db' : ProfileDatabase}
      → unfavorite_active libraries event_id db key entity_revision now ≡ ok db'
      → AllDistinct db.sync_outbox
      → AllDistinct db'.sync_outbox
  unfolding unfavorite_active bury forget_favorite_event
  unfavorite_active-AllDistinct db key entity_revision now {db'} h distinct =
      let (stats, counted, h1) =
        >>=-eq-ok
          (ok_or (get db.query_stats (key_text key))
            (invalid_data "favorite query stats are missing"))
          _ h in
      let buried = bury db key now in
      let kept =
        (delete_rows-Settles (is_coalesced (query_stats_coalesce_key key db.profile_meta.device_id))
            db.sync_outbox).distinct
          distinct in
      elim (Bool-cases (entity_revision == 0)) [
        | inl fresh ↦
            let result : db' ≡ forget_favorite_event buried key = ground (arith, h1, fresh) in
            rw result (
              (delete_rows-Settles (is_coalesced (favorite_coalesce_key key))
                  buried.sync_outbox).distinct
                kept)
        | inr known ↦
            upsert_favorite_event-AllDistinct buried key "deleted" entity_revision stats now
              favorite_delete {db' = db'} (ground (arith, h1, known)) kept
      ]
