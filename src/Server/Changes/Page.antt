-- ===== src/Server/Changes/Page.antt =====
-- What a page of changes holds, for a user whose rows are consistent.
use lvos.Base.{
  ℕ, ◌+◌, ◌-◌, ◌<◌, ◌≤◌, min, String, ◌≡◌, refl, ap, ◌∙◌, inl, inr, true, some, List, [], ◌∷◌,
  arith, length, length-take, take, All, ltb, ok, Option-cases, i64_limit, string_eq, pair_eq,
}
use lvos.Base.Table.{get}
use lvos.Protocol.{
  FavoriteRecord, SyncChange, ChangesResponse, SyncOperation, favorite_upsert, favorite_delete,
  query_stats_upsert,
}
use lvos.Server.Database.{Database, ChangeRow}
use lvos.Server.Rows.{
  favorite_record, to_record, has_favorite, operation_name, parse_operation, user_revision,
}
use lvos.Server.Invariant.{IsConsistent, IsDense, IsSound, Fits}
use lvos.Server.Changes.{
  changes_since, read_change, read_changes, select_changes, last_revision, user_changes,
  changes_after,
}
use lvos.Server.Changes.Order.{
  changes_after-IsDense, length-changes_after, changes_after-All, order_by_revision-IsDense,
  take-IsDense, take-All,
}

-- The name that is stored for an operation is read as that operation.
pub parse_operation-operation_name :
    (operation : SyncOperation) → parse_operation (operation_name operation) ≡ ok operation
unfolding parse_operation operation_name
parse_operation-operation_name favorite_upsert = refl
parse_operation-operation_name favorite_delete = refl
parse_operation-operation_name query_stats_upsert = refl

-- The changes have the revisions from + 1, from + 2, ..., and each shows the favorite as it is now.
abbrev pub IsPage : Database → String → ℕ → List SyncChange → Type 0
IsPage db user_id from [] = Unit
IsPage db user_id from (change ∷ changes) =
    (change.revision ≡ from + 1)
    × (favorite_record db user_id change.favorite.content_key ≡ ok (some change.favorite))
    × IsPage db user_id (from + 1) changes

pub last_revision-IsPage :
    (db : Database) (user_id : String) (from : ℕ) (changes : List SyncChange)
    → IsPage db user_id from changes
    → last_revision from changes ≡ from + length changes
unfolding last_revision
last_revision-IsPage db user_id from [] h = omega arith
last_revision-IsPage db user_id from (change ∷ changes) h =
    rw h.0 (omega (arith, last_revision-IsPage db user_id (from + 1) changes h.2))

module _ (db : Database) (user_id : String) (fits : Fits db user_id) where
  favorite_record-found :
      (key : String)
      → has_favorite db user_id key ≡ true
      → (record' : FavoriteRecord) × (favorite_record db user_id key ≡ ok (some record'))
        × (record'.content_key ≡ key)
  unfolding favorite_record has_favorite
  favorite_record-found key h = elim (Option-cases (get db.favorites (user_id, key))) [
    | inl missing ↦ absurd (ground (arith, h))
    | inr (row, found) ↦
        let (total, summed) = fits key in
        (to_record key row total, ground (arith, found, summed), refl)
  ]

  read_change-IsSound :
      (change : ℕ × ChangeRow)
      → IsSound db user_id change
      → (read : SyncChange) × (read_change db user_id change ≡ ok read)
        × (read.revision ≡ change.0)
        × (favorite_record db user_id read.favorite.content_key ≡ ok (some read.favorite))
  unfolding read_change
  read_change-IsSound (revision, row) (there, (operation, named)) =
      let (favorite, found, own) = favorite_record-found row.content_key there in
      (
        record { revision = revision; operation = operation; favorite = favorite },
        rw (found, named, parse_operation-operation_name operation) refl,
        refl,
        rw own found,
      )

  read_changes-IsPage :
      (from : ℕ) (rows : List (ℕ × ChangeRow))
      → IsDense from rows
      → All (IsSound db user_id) rows
      → (changes : List SyncChange) × (read_changes db user_id rows ≡ ok changes)
        × (length changes ≡ length rows)
        × IsPage db user_id from changes
  unfolding read_changes
  read_changes-IsPage from [] dense sound = ([], refl, refl, tt)
  read_changes-IsPage from (change ∷ rows) dense sound =
      let (read, first, own, there) = read_change-IsSound change sound.0 in
      let (changes, rest, count, page) = read_changes-IsPage (from + 1) rows dense.1 sound.1 in
      (read ∷ changes, rw (first, rest) refl, omega (arith, count), (own ∙ dense.0, there, page))

-- A user whose rows are consistent is given a page for every revision and limit that fit `i64`,
-- where the revision is not past the latest. The changes on it have the revisions that follow the
-- one asked for, without a gap, up to the limit or the latest revision, and each shows the favorite
-- as it is now. The next revision is that of the last change, the latest is the user's own, and
-- there is more exactly when the next revision is below the latest.
pub changes_since-IsPage :
    (db : Database) (user_id : String) (since limit : ℕ) (c : IsConsistent db user_id)
    → since ≤ c.user.sync_revision
    → limit < i64_limit
    → (page : ChangesResponse) × (changes_since db user_id since limit ≡ ok page)
      × IsPage db user_id since page.changes
      × (length page.changes ≡ min limit (c.user.sync_revision - since))
      × (page.next_revision ≡ since + length page.changes)
      × (page.latest_revision ≡ c.user.sync_revision)
      × (page.has_more ≡ ltb page.next_revision page.latest_revision)
unfolding changes_since select_changes user_revision
changes_since-IsPage db user_id since limit c below fits =
    let all = user_changes db.change_log user_id in
    let after = changes_after since all in
    let dense = changes_after-IsDense since 0 all (omega arith) c.dense in
    let ordered = order_by_revision-IsDense since after dense in
    let (changes, read, count, page) =
      read_changes-IsPage db user_id c.fits since (take limit after)
        (take-IsDense limit since after dense)
        (take-All (IsSound db user_id) limit after
          (changes_after-All (IsSound db user_id) since all c.sound)) in
    let number = length-changes_after since 0 all (omega arith) c.dense in
    let last = last_revision-IsPage db user_id since changes page in
    (
      record {
        changes = changes;
        next_revision = last_revision since changes;
        latest_revision = c.user.sync_revision;
        has_more = ltb (last_revision since changes) c.user.sync_revision;
      },
      ground (arith, c.found, c.bounded, ordered, read),
      page,
      count ∙ length-take limit after ∙ ap (min limit) (number ∙ omega (arith, c.counted)),
      last,
      refl,
      refl,
    )
