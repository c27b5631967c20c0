-- ===== src/Storage/Page/Mirror.antt =====
-- A profile with nothing pending shows what the server has.
use lvos.Base.{
  sym, true, false, ℕ, String, ◌≡◌, refl, ap, ◌∙◌, Bool, ◌&&◌, Option, none, some, List, [], ◌∷◌,
  arith, ok, guard, ok_or, leb, ◌==◌, nat_eq, string_eq, if◌then◌else◌, >>=-eq-ok, checked_add_one,
}
use lvos.Base.Int.{ℤ}
use lvos.Base.Table.{get, get-put}
use lvos.Protocol.{SyncChange, FavoriteRecord}
use mathlib.Core.Path.{subst}
use lvos.Storage.Model.{ProfileDatabase, FavoriteColumns, Libraries, invalid_data}
use lvos.Storage.Codec.{parse_content_key, sqlite_i64}
use lvos.Storage.Outbox.{favorite_coalesce_key, is_coalesced, find_row}
use lvos.Storage.Profile.{transact-ok}
use lvos.Storage.Remote.{validate_remote, write_remote_favorite, remote_columns}
use lvos.Storage.Remote.Keeps.{Writes, write_remote_favorite-Writes}
use lvos.Storage.Page.{apply_remote_change, apply_changes, page_transaction, apply_remote_page}

-- The specification: what counts is the last change that a page has for a content.
unfoldable pub last_change : String → List SyncChange → Option FavoriteRecord
last_change content_key [] = none
last_change content_key (change ∷ changes) = elim (last_change content_key changes) [
  | some later ↦ some later
  | none ↦ if change.favorite.content_key == content_key then some change.favorite else none
]

-- A row holds what a favorite of the server says, field for field.
pub record IsCopy (remote : FavoriteRecord) (row : FavoriteColumns) : Type 0 where
  pub key_version : row.content.key_version ≡ remote.key_version
  pub kind : row.content.kind ≡ remote.favorite.kind
  pub source_lang : row.content.source_lang ≡ remote.favorite.source_lang
  pub target_lang : row.content.target_lang ≡ remote.favorite.target_lang
  pub source_text : row.content.source_text ≡ remote.favorite.source_text
  pub canonical_text : row.content.canonical_text ≡ remote.favorite.canonical_text
  pub translation : row.content.translation ≡ remote.favorite.translation
  pub provider : row.content.provider ≡ remote.favorite.provider
  pub favorited_at : row.created_at ≡ remote.favorite.favorited_at
  pub updated_at : row.updated_at ≡ remote.favorite.updated_at
  pub deleted_at : row.deleted_at ≡ remote.deleted_at
  pub entity_revision : row.entity_revision ≡ remote.entity_revision

pub remote_columns-IsCopy :
    (remote : FavoriteRecord) → IsCopy remote (remote_columns remote remote.entity_revision)
remote_columns-IsCopy remote = record {
  key_version = refl;
  kind = refl;
  source_lang = refl;
  target_lang = refl;
  source_text = refl;
  canonical_text = refl;
  translation = refl;
  provider = refl;
  favorited_at = refl;
  updated_at = refl;
  deleted_at = refl;
  entity_revision = refl;
}

-- The row of a content before and after a page, where the last change is the first argument.
abbrev pub Mirrors :
    Option FavoriteRecord → Option FavoriteColumns → Option FavoriteColumns → Type 0
Mirrors none before after = after ≡ before
Mirrors (some remote) before after =
    (row : FavoriteColumns) × (after ≡ some row) × IsCopy remote row

copied : FavoriteRecord → FavoriteColumns
copied remote = remote_columns remote remote.entity_revision

-- The change that comes first counts only where no later one has its content.
Mirrors-first :
    (remote : FavoriteRecord) (hit : Bool) (later : Option FavoriteRecord)
    (before between after : Option FavoriteColumns)
    → between ≡ (if hit then some (copied remote) else before)
    → Mirrors later between after
    → Mirrors
        (elim later [ some r ↦ some r | none ↦ if hit then some remote else none ])
        before
        after
unfolding copied
Mirrors-first remote hit (some r) before between after own h = h
Mirrors-first remote true none before between after own h =
    (copied remote, h ∙ own, remote_columns-IsCopy remote)
Mirrors-first remote false none before between after own h = h ∙ own

apply_remote_change-Writes :
    (libraries : Libraries) (db : ProfileDatabase) (change : SyncChange) (now : ℤ)
    {db' : ProfileDatabase}
    → db.sync_outbox ≡ []
    → apply_remote_change libraries db change now ≡ ok db'
    → Writes db change.favorite db'
unfolding apply_remote_change find_row
apply_remote_change-Writes libraries db change now {db'} empty h =
    let (valid, checked, h1) = >>=-eq-ok (validate_remote libraries change.favorite) _ h in
    let (key, parsed, h2) = >>=-eq-ok (parse_content_key change.favorite.content_key) _ h1 in
    let absent : find_row (is_coalesced (favorite_coalesce_key key)) db.sync_outbox ≡ none =
      ap (find_row (is_coalesced (favorite_coalesce_key key))) empty in
    let wrote : write_remote_favorite db change.favorite now ≡ ok db' =
      ground (arith, h2, absent) in
    write_remote_favorite-Writes db change.favorite now wrote

apply_changes-Mirrors :
    (libraries : Libraries) (db : ProfileDatabase) (from : ℕ) (changes : List SyncChange)
    (next_revision : ℕ) (now : ℤ) (content_key : String) {reached : ℕ × ProfileDatabase}
    → db.sync_outbox ≡ []
    → apply_changes libraries db from changes next_revision now ≡ ok reached
    → Mirrors
        (last_change content_key changes)
        (get db.favorites content_key)
        (get reached.1.favorites content_key)
      × (reached.1.sync_outbox ≡ [])
unfolding apply_changes last_change copied
apply_changes-Mirrors libraries db from [] next_revision now content_key {reached} empty h =
    let same : reached ≡ (from, db) = ground (arith, h) in rw same (refl, empty)
apply_changes-Mirrors libraries db from (change ∷ changes) next_revision now content_key {reached}
      empty h =
    let (next, counted, h1) =
      >>=-eq-ok (ok_or (checked_add_one from) (invalid_data "remote revision overflow")) _ h in
    let (valid, tested, h2) =
      >>=-eq-ok
        (guard (change.revision == next && leb change.revision next_revision)
          (invalid_data "remote change revision is invalid"))
        _ h1 in
    let (db', first, h3) = >>=-eq-ok (apply_remote_change libraries db change now) _ h2 in
    let w = apply_remote_change-Writes libraries db change now empty first in
    let (rest, left) =
      apply_changes-Mirrors libraries db' change.revision changes next_revision now content_key
        (w.outbox ∙ empty) h3 in
    let remote = change.favorite in
    let own : get db'.favorites content_key ≡ (
        if remote.content_key == content_key
        then some (remote_columns remote remote.entity_revision)
        else get db.favorites content_key) =
      ap (λ t. get t content_key) w.favorites
      ∙ get-put db.favorites remote.content_key content_key
          (remote_columns remote remote.entity_revision) in
    (
      Mirrors-first remote (remote.content_key == content_key) (last_change content_key changes)
          (get db.favorites content_key) (get db'.favorites content_key)
          (get reached.1.favorites content_key) own rest,
      left,
    )

-- A page that is applied to a profile with an empty outbox makes every favorite what the page says:
-- where it has changes of the content, the row holds every field of the last one's favorite, the
-- tombstone and the revision included, and else the row is as before. The outbox stays empty.
pub apply_remote_page-Mirrors :
    (libraries : Libraries) (committed : Bool) (db : ProfileDatabase) (changes : List SyncChange)
    (next_revision : ℕ) (now : ℤ) (content_key : String) {db' : ProfileDatabase}
    → db.sync_outbox ≡ []
    → apply_remote_page libraries committed db changes next_revision now ≡ (ok tt, db')
    → Mirrors
        (last_change content_key changes)
        (get db.favorites content_key)
        (get db'.favorites content_key)
      × (db'.sync_outbox ≡ [])
unfolding apply_remote_page page_transaction
apply_remote_page-Mirrors libraries committed db changes next_revision now content_key {db'} empty
      h =
    let whole =
      transact-ok committed db (page_transaction libraries db changes next_revision now) h in
    let cursor = db.profile_meta.last_server_revision in
    let (forwards, ahead, h1) =
      >>=-eq-ok (guard (leb cursor next_revision) (invalid_data "remote cursor moved backwards")) _
        whole in
    let (reached, looped, h2) =
      >>=-eq-ok (apply_changes libraries db cursor changes next_revision now) _ h1 in
    let (complete, tested, h3) =
      >>=-eq-ok
        (guard (reached.0 == next_revision) (invalid_data "remote page cursor is inconsistent")) _
        h2 in
    let (revision, fits, h4) = >>=-eq-ok (sqlite_i64 next_revision) _ h3 in
    let favorites : db'.favorites ≡ reached.1.favorites = ground (arith, h4) in
    let outbox : db'.sync_outbox ≡ reached.1.sync_outbox = ground (arith, h4) in
    let (shown, left) =
      apply_changes-Mirrors libraries db cursor changes next_revision now content_key empty
        looped in
    (
      subst (Mirrors (last_change content_key changes) (get db.favorites content_key))
          (sym (ap (λ t. get t content_key) favorites)) shown,
      outbox ∙ left,
    )
