-- ===== src/Storage/Intents.antt =====
-- What adding and removing a favorite leaves: the row, and the intent that will be sent.
use lvos.Base.{
  ℕ, zero, suc, String, ◌≡◌, refl, ap, ◌∙◌, Bool, true, false, Option, none, some, List, arith, ok,
  err, ok_or, ◌==◌, nat_eq, string_eq, if◌then◌else◌, >>=-eq-ok,
}
use mathlib.Core.Path.{subst}
use lvos.Base.Int.{ℤ}
use lvos.Base.Table.{Table, get, get-put_self}
use lvos.Core.Content.{key_text}
use lvos.Storage.Model.{
  ProfileDatabase, Favorite, FavoriteColumns, QueryStats, OutboxRow, OutboxOperation, StorageResult,
  Libraries, invalid_data, favorite_delete,
}
use lvos.Storage.Codec.{parse_favorite, parse_content_key, parse_content, favorite_tx, as_str}
use lvos.Storage.Outbox.{
  favorite_coalesce_key, upsert_favorite_event, favorite_event, favorite_payload, to_string,
}
use lvos.Storage.Outbox.Pending.{
  pending, upsert_outbox-Pends, upsert_outbox-stats, find_row-delete_rows-none,
}
use lvos.Storage.Profile.{transact, favorite}
use lvos.Storage.Removal.{
  update_favorite, buried, bury, forget_favorite_event, unfavorite_active, unfavorite_transaction,
  unfavorite, read_tombstone,
}

-- A read that follows a transaction and succeeds follows one that was committed.
read_tombstone-ok :
    (key : List ℕ) (committed : Bool) (db : ProfileDatabase)
    (body : StorageResult (Option Favorite × ProfileDatabase)) {favorite : Favorite}
    {db' : ProfileDatabase}
    → read_tombstone key (transact committed db body) ≡ (ok favorite, db')
    → (done : Option Favorite × ProfileDatabase) × (body ≡ ok done) × (db' ≡ done.1)
read_tombstone-ok key committed db (err e) h = cc
read_tombstone-ok key false db (ok done) h = cc
read_tombstone-ok key true db (ok (none, written)) h = ((none, written), refl, ground (arith, h))
read_tombstone-ok key true db (ok (some found, written)) h =
    ((some found, written), refl, ground (arith, h))

-- A favorite that is read has the tombstone and the revision of its row.
favorite_tx_lem :
    (db : ProfileDatabase) (key : List ℕ) (row : FavoriteColumns) {found : Option Favorite}
    → get db.favorites (key_text key) ≡ some row
    → favorite_tx db key ≡ ok found
    → (one : Favorite) × (found ≡ some one)
      × (one.deleted_at ≡ row.deleted_at)
      × (one.entity_revision ≡ row.entity_revision)
unfolding favorite_tx parse_favorite
favorite_tx_lem db key row {found} there h =
    let (one, parsed, h1) =
      >>=-eq-ok (parse_favorite (key_text key) row) (λ one. ok (some one)) {value = found}
        (ground (arith, h, there)) in
    let (own, read, p1) = >>=-eq-ok (parse_content_key (key_text key)) _ parsed in
    let (content, whole, p2) =
      >>=-eq-ok (parse_content own row.content "language code" "language code") _ p1 in
    (one, ground (arith, h1), ground (arith, p2), ground (arith, p2))

-- The intent that is pending: one event of the given operation and base revision.
abbrev pub Intends : String → OutboxOperation → ℕ → Option OutboxRow → Type 0
Intends event_id operation revision found =
    (row : OutboxRow) × (found ≡ some row)
    × (row.event_id ≡ event_id)
    × (row.operation ≡ as_str operation)
    × (row.base_entity_revision ≡ some revision)

upsert_favorite_event-Intends :
    (libraries : Libraries) (event_id : String) (db : ProfileDatabase) (key : List ℕ)
    (state : String) (revision : ℕ) (stats : QueryStats) (now : ℤ) (operation : OutboxOperation)
    {db' : ProfileDatabase}
    → upsert_favorite_event libraries event_id db key state revision stats now operation ≡ ok db'
    → Intends event_id operation revision (pending db' key) × (db'.favorites ≡ db.favorites)
unfolding upsert_favorite_event
upsert_favorite_event-Intends libraries event_id db key state revision stats now operation h =
    let (payload, written, h1) =
      >>=-eq-ok (to_string (libraries.favorite_json (favorite_payload key state revision stats))) _
        h in
    let event = favorite_event event_id key payload revision now operation in
    let p = upsert_outbox-Pends event db h1 in
    ((p.row, p.there, p.event_id, p.operation, p.base), (upsert_outbox-stats event db h1).1)

-- What a removal leaves pending: nothing where the server never knew the favorite, and else a
-- deletion that is based on the revision that the server gave.
abbrev pub Withdraws : String → ℕ → Option OutboxRow → Type 0
Withdraws event_id zero found = found ≡ none
Withdraws event_id (suc n) found = Intends event_id favorite_delete (suc n) found

update_favorite-found :
    (favorites : Table String FavoriteColumns) (content_key : String)
    (change : FavoriteColumns → FavoriteColumns) (row : FavoriteColumns)
    → get favorites content_key ≡ some row
    → get (update_favorite favorites content_key change) content_key ≡ some (change row)
unfolding update_favorite
update_favorite-found favorites content_key change row there =
    ground (arith, there, get-put_self favorites content_key (change row))

-- The second half of a removal, by the revision.
removal_lem :
    (libraries : Libraries) (event_id : String) (removed : ProfileDatabase) (key : List ℕ)
    (row : FavoriteColumns) (revision : ℕ) (stats : QueryStats) (now : ℤ) {db' : ProfileDatabase}
    → get removed.favorites (key_text key) ≡ some row
    → (if revision == 0
        then ok (forget_favorite_event removed key)
        else upsert_favorite_event libraries event_id removed key "deleted" revision stats now
            favorite_delete)
      ≡ ok db'
    → (get db'.favorites (key_text key) ≡ some row) × Withdraws event_id revision (pending db' key)
unfolding forget_favorite_event
removal_lem libraries event_id removed key row zero stats now {db'} dead h =
    let text = favorite_coalesce_key key in
    let same : db' ≡ forget_favorite_event removed key = ground (arith, h) in
    rw same (dead, find_row-delete_rows-none text removed.sync_outbox)
removal_lem libraries event_id removed key row (suc n) stats now {db'} dead h =
    let written : upsert_favorite_event libraries event_id removed key "deleted" (suc n) stats now
          favorite_delete
        ≡ ok db' =
      ground (arith, h) in
    let (intent, kept) =
      upsert_favorite_event-Intends libraries event_id removed key "deleted" (suc n) stats now
        favorite_delete written in
    (rw kept dead, intent)

unfavorite_active-Withdraws :
    (libraries : Libraries) (event_id : String) (db : ProfileDatabase) (key : List ℕ)
    (row : FavoriteColumns) (revision : ℕ) (now : ℤ) {db' : ProfileDatabase}
    → get db.favorites (key_text key) ≡ some row
    → unfavorite_active libraries event_id db key revision now ≡ ok db'
    → (get db'.favorites (key_text key) ≡ some (buried now row))
      × Withdraws event_id revision (pending db' key)
unfolding unfavorite_active bury
unfavorite_active-Withdraws libraries event_id db key row revision now there h =
    let (stats, counted, h1) =
      >>=-eq-ok
        (ok_or (get db.query_stats (key_text key))
          (invalid_data "favorite query stats are missing"))
        _ h in
    removal_lem libraries event_id (bury db key now) key (buried now row) revision stats now
      (update_favorite-found db.favorites (key_text key) (buried now) row there) h1

unfavorite_transaction-Withdraws :
    (libraries : Libraries) (event_id : String) (db : ProfileDatabase) (key : List ℕ)
    (row : FavoriteColumns) (now : ℤ) {done : Option Favorite × ProfileDatabase}
    → get db.favorites (key_text key) ≡ some row
    → row.deleted_at ≡ none
    → unfavorite_transaction libraries event_id db key now ≡ ok done
    → (get done.1.favorites (key_text key) ≡ some (buried now row))
      × Withdraws event_id row.entity_revision (pending done.1 key)
unfolding unfavorite_transaction
unfavorite_transaction-Withdraws libraries event_id db key row now {done} there alive h =
    let (found, read, h1) = >>=-eq-ok (favorite_tx db key) _ h in
    let (own, one, h2) = >>=-eq-ok (ok_or found (invalid_data "favorite does not exist")) _ h1 in
    let (same, is_found, deleted, revision) = favorite_tx_lem db key row there read in
    let whole : own ≡ same = ground (arith, one, is_found) in
    let open_one : own.deleted_at ≡ none =
      ap (λ (f : Favorite). f.deleted_at) whole ∙ deleted ∙ alive in
    let known : own.entity_revision ≡ row.entity_revision =
      ap (λ (f : Favorite). f.entity_revision) whole ∙ revision in
    let (written, wrote, h3) =
      >>=-eq-ok (unfavorite_active libraries event_id db key own.entity_revision now)
        (λ written. ok (none, written)) {value = done} (ground (arith, h2, open_one)) in
    let result : done.1 ≡ written = ground (arith, h3) in
    let (dead, left) =
      unfavorite_active-Withdraws libraries event_id db key row own.entity_revision now there
        wrote in
    (
      ap (λ (d : ProfileDatabase). get d.favorites (key_text key)) result ∙ dead,
      subst (λ (n : ℕ). Withdraws event_id n (pending done.1 key)) known (rw result left),
    )

-- Removing an active favorite leaves its tombstone with the time of the removal. If the server
-- never knew the favorite, nothing is pending for it any more; else a deletion is pending, under the
-- fresh event identifier, which is based on the revision that the server gave.
pub unfavorite-Withdraws :
    (libraries : Libraries) (event_id : String) (committed : Bool) (db : ProfileDatabase)
    (key : List ℕ) (row : FavoriteColumns) (now : ℤ) {favorite : Favorite} {db' : ProfileDatabase}
    → get db.favorites (key_text key) ≡ some row
    → row.deleted_at ≡ none
    → unfavorite libraries event_id committed db key now ≡ (ok favorite, db')
    → (get db'.favorites (key_text key) ≡ some (buried now row))
      × Withdraws event_id row.entity_revision (pending db' key)
unfolding unfavorite
unfavorite-Withdraws libraries event_id committed db key row now {favorite} {db'} there alive h =
    let body = unfavorite_transaction libraries event_id db key now in
    let (done, whole, same) = read_tombstone-ok key committed db body h in
    rw same (unfavorite_transaction-Withdraws libraries event_id db key row now there alive whole)
