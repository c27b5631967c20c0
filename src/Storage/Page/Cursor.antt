-- ===== src/Storage/Page/Cursor.antt =====
-- What a page of remote changes does to the cursor and to the outbox.
use lvos.Base.{
  ℕ, ◌+◌, String, ◌≡◌, refl, sym, ap, ◌∙◌, Bool, false, ◌&&◌, List, [], ◌∷◌, arith, ok, err, guard,
  ok_or, leb, ◌==◌, nat_eq, string_eq, nat_beq_iff, length, >>=-eq-ok, checked_add_one,
}
use lvos.Base.Int.{ℤ}
use lvos.Protocol.{SyncChange}
use lvos.Storage.Model.{ProfileDatabase, StorageResult, invalid_data, Libraries}
use lvos.Storage.Codec.{sqlite_i64}
use lvos.Storage.Outbox.{exists_row, is_event}
use lvos.Storage.Outbox.Unique.{Settles, Settles-refl}
use lvos.Storage.Profile.{transact-cases}
use lvos.Storage.Page.{
  apply_remote_change, apply_changes, page_transaction, apply_remote_page, synced,
}
use lvos.Storage.Page.Applies.{Applies, Applies-refl, Applies-trans, apply_remote_change-Applies}

-- The revisions from + 1, from + 2, ...
abbrev pub IsRun : ℕ → List SyncChange → Type 0
IsRun from [] = Unit
IsRun from (change ∷ changes) = (change.revision ≡ from + 1) × IsRun (from + 1) changes

pub record Page (db : ProfileDatabase) (from : ℕ) (changes : List SyncChange)
    (reached : ℕ × ProfileDatabase) : Type 0 where
  pub run : IsRun from changes
  pub last : reached.0 ≡ from + length changes
  pub applies : Applies db reached.1

apply_changes-Page :
    (libraries : Libraries) (db : ProfileDatabase) (from : ℕ) (changes : List SyncChange)
    (next_revision : ℕ) (now : ℤ) {reached : ℕ × ProfileDatabase}
    → apply_changes libraries db from changes next_revision now ≡ ok reached
    → Page db from changes reached
unfolding apply_changes
apply_changes-Page libraries db from [] next_revision now {reached} h =
    let same : reached ≡ (from, db) = ground (arith, h) in
    rw same (record { run = tt; last = omega arith; applies = Applies-refl db })
apply_changes-Page libraries db from (change ∷ changes) next_revision now {reached} h =
    let (next, counted, h1) =
      >>=-eq-ok (ok_or (checked_add_one from) (invalid_data "remote revision overflow")) _ h in
    let (valid, tested, h2) =
      >>=-eq-ok
        (guard (change.revision == next && leb change.revision next_revision)
          (invalid_data "remote change revision is invalid"))
        _ h1 in
    let (db', first, h3) = >>=-eq-ok (apply_remote_change libraries db change now) _ h2 in
    let page = apply_changes-Page libraries db' change.revision changes next_revision now h3 in
    let own : change.revision ≡ from + 1 =
      ground (arith, counted, tested, nat_beq_iff change.revision next) in
    record {
      run = (own, rw⁻¹ own page.run);
      last = page.last ∙ omega (arith, own);
      applies =
          Applies-trans (apply_remote_change-Applies libraries db change now first) page.applies;
    }

-- What a page that was applied leaves: the page runs from the cursor to the next revision, which is
-- the cursor now. After an error the database is the one from before.
abbrev pub Synced :
    ProfileDatabase → List SyncChange → ℕ → ℤ → StorageResult (Unit {0}) × ProfileDatabase → Type 0
Synced db changes next_revision now (err e, db') = db' ≡ db
Synced db changes next_revision now (ok done, db') =
    IsRun db.profile_meta.last_server_revision changes
    × (next_revision ≡ db.profile_meta.last_server_revision + length changes)
    × (db'.profile_meta ≡ synced next_revision now db.profile_meta)

record Committed (db : ProfileDatabase) (changes : List SyncChange) (next_revision : ℕ) (now : ℤ)
    (db' : ProfileDatabase) : Type 0 where
  page : Synced db changes next_revision now (ok tt, db')
  settles : Settles db.sync_outbox db'.sync_outbox

page_transaction-Committed :
    (libraries : Libraries) (db : ProfileDatabase) (changes : List SyncChange) (next_revision : ℕ)
    (now : ℤ) {done : Unit {0} × ProfileDatabase}
    → page_transaction libraries db changes next_revision now ≡ ok done
    → Committed db changes next_revision now done.1
unfolding page_transaction
page_transaction-Committed libraries db changes next_revision now {done} h =
    let cursor = db.profile_meta.last_server_revision in
    let (forwards, ahead, h1) =
      >>=-eq-ok (guard (leb cursor next_revision) (invalid_data "remote cursor moved backwards")) _
        h in
    let (reached, looped, h2) =
      >>=-eq-ok (apply_changes libraries db cursor changes next_revision now) _ h1 in
    let (complete, tested, h3) =
      >>=-eq-ok
        (guard (reached.0 == next_revision) (invalid_data "remote page cursor is inconsistent")) _
        h2 in
    let (revision, fits, h4) = >>=-eq-ok (sqlite_i64 next_revision) _ h3 in
    let page = apply_changes-Page libraries db cursor changes next_revision now looped in
    let same : revision ≡ next_revision = ground (arith, fits) in
    let last : reached.0 ≡ next_revision =
      ground (arith, tested, nat_beq_iff reached.0 next_revision) in
    let result : done.1
        ≡ record reached.1 { profile_meta = synced revision now reached.1.profile_meta } =
      ground (arith, h4) in
    rw result (record {
      page = (
        page.run,
        sym last ∙ page.last,
        ap (λ (r : ℕ). synced r now reached.1.profile_meta) same
            ∙ ap (synced next_revision now) page.applies.meta,
      );
      settles = page.applies.settles;
    })

-- A page that is applied holds the revisions that follow the profile's cursor, without a gap and
-- up to the next revision, which becomes the cursor; the profile's last error is cleared. A page
-- that is refused, or whose COMMIT fails, changes nothing.
pub apply_remote_page-Synced :
    (libraries : Libraries) (committed : Bool) (db : ProfileDatabase) (changes : List SyncChange)
    (next_revision : ℕ) (now : ℤ)
    → Synced db changes next_revision now
        (apply_remote_page libraries committed db changes next_revision now)
unfolding apply_remote_page
apply_remote_page-Synced libraries committed db changes next_revision now =
    transact-cases (Synced db changes next_revision now) committed db
      (page_transaction libraries db changes next_revision now) (λ e. refl)
      (λ done h. (page_transaction-Committed libraries db changes next_revision now h).page)

pub apply_remote_page-Settles :
    (libraries : Libraries) (committed : Bool) (db : ProfileDatabase) (changes : List SyncChange)
    (next_revision : ℕ) (now : ℤ)
    → Settles db.sync_outbox
        (apply_remote_page libraries committed db changes next_revision now).1.sync_outbox
unfolding apply_remote_page
apply_remote_page-Settles libraries committed db changes next_revision now =
    transact-cases
      (λ (r : StorageResult (Unit {0}) × ProfileDatabase). Settles db.sync_outbox r.1.sync_outbox)
      committed db (page_transaction libraries db changes next_revision now)
      (λ e. Settles-refl db.sync_outbox)
      (λ done h. (page_transaction-Committed libraries db changes next_revision now h).settles)

-- Applying a page, whatever it holds and however it ends, makes no new event: an event that was not
-- in the outbox before is not in it afterwards.
pub apply_remote_page_no_event :
    (libraries : Libraries) (committed : Bool) (db : ProfileDatabase) (changes : List SyncChange)
    (next_revision : ℕ) (now : ℤ) (event_id : String)
    → exists_row (is_event event_id) db.sync_outbox ≡ false
    → exists_row
        (is_event event_id)
        (apply_remote_page libraries committed db changes next_revision now).1.sync_outbox
      ≡ false
apply_remote_page_no_event libraries committed db changes next_revision now =
    (apply_remote_page-Settles libraries committed db changes next_revision now).shrinks
