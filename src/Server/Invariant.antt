-- ===== src/Server/Invariant.antt =====
-- What holds of a user's rows between two requests, and that an event keeps it.
pub mod Preserved
pub mod State
use lvos.Base.{
  ℕ, zero, suc, ◌+◌, ◌<◌, String, Bool, true, false, ◌||◌, ◌≡◌, ◌≢◌, refl, sym, ap, ◌∙◌, inl, inr,
  Option, none, some, List, [], ◌∷◌, ◌++◌, arith, ok, length, length-append, All, All-append,
  Option-cases, Bool-cases, i64_limit, eq_iff, string_eq, pair_eq, nat_eq, ==_cases, ==_refl,
  >>=-eq-ok, ok_or, i64_try_from,
}
use lvos.Base.Int.{ℤ}
use lvos.Base.Table.{Table, get, put, insert, get-put_self}
use lvos.Protocol.{
  PushEvent, SyncOperation, favorite_upsert, favorite_delete, query_stats_upsert,
  AggregateQueryStats, FavoriteRecord, QueryStatsSnapshot,
}
use lvos.Server.Database.{Database, UserRow, StatsRow, ChangeRow, invalid_event}
use lvos.Server.Rows.{content_stats, aggregate_stats, has_favorite, operation_name, record_change}
use lvos.Server.Stats.{merge_query_stats, store_stats, merged_row, reported}
use lvos.Server.Apply.{
  Entity, EventOutcome, apply_event, apply_operation, apply_upsert, apply_delete, delete_active,
  upsert_favorite, update_state, merge_reported, reported_aggregate, next_user_revision,
}
use lvos.Server.Changes.{user_changes}
use lvos.Server.Inversion.{Applied, apply_event-Applied, Logged, record_change-Logged, change_row}
use lvos.Server.Grows.{
  Grows, Grows-refl, Grows-trans, operation-Grows, merge-Grows, update_state-Grows,
}

-- The rows carry the revisions from + 1, from + 2, ... in their order.
abbrev pub IsDense : ℕ → List (ℕ × ChangeRow) → Type 0
IsDense from [] = Unit
IsDense from ((revision, row) ∷ rows) = (revision ≡ from + 1) × IsDense (from + 1) rows

IsDense-append :
    (from : ℕ) (rows : List (ℕ × ChangeRow)) (revision : ℕ) (row : ChangeRow)
    → IsDense from rows
    → revision ≡ from + length rows + 1
    → IsDense from (rows ++ (revision, row) ∷ [])
IsDense-append from [] revision row h e = (omega arith, tt)
IsDense-append from ((r, c) ∷ rows) revision row h e =
    (h.0, IsDense-append (from + 1) rows revision row h.1 (omega arith))

-- A change names a favorite that is there, and an operation of the protocol.
abbrev pub IsSound : Database → String → ℕ × ChangeRow → Type 0
IsSound db user_id change =
    (has_favorite db user_id change.1.content_key ≡ true)
    × ((operation : SyncOperation) × (change.1.operation ≡ operation_name operation))

pub record IsConsistent (db : Database) (user_id : String) : Type 0 where
  pub user : UserRow
  pub found : get db.users user_id ≡ some user
  pub bounded : user.sync_revision < i64_limit
  pub dense : IsDense 0 (user_changes db.change_log user_id)
  pub counted : length (user_changes db.change_log user_id) ≡ user.sync_revision
  pub sound : All (IsSound db user_id) (user_changes db.change_log user_id)
  pub fits :
      (key : String)
      → (total : Option AggregateQueryStats) × (aggregate_stats db user_id key ≡ ok total)

All-IsSound :
    (db db' : Database) (user_id : String) (rows : List (ℕ × ChangeRow))
    → ((key : String) → has_favorite db user_id key ≡ true → has_favorite db' user_id key ≡ true)
    → All (IsSound db user_id) rows
    → All (IsSound db' user_id) rows
All-IsSound db db' user_id [] keep h = tt
All-IsSound db db' user_id (change ∷ rows) keep h =
    ((keep change.1.content_key h.0.0, h.0.1), All-IsSound db db' user_id rows keep h.1)

All-IsSound_eq :
    (db db' : Database) (user_id : String) {rows rows' : List (ℕ × ChangeRow)}
    → rows' ≡ rows
    → ((key : String) → has_favorite db user_id key ≡ true → has_favorite db' user_id key ≡ true)
    → All (IsSound db user_id) rows
    → All (IsSound db' user_id) rows'
All-IsSound_eq db db' user_id {rows} same keep h = rw same (All-IsSound db db' user_id rows keep h)

All-IsSound_next :
    (db : Database) (user_id : String) (rows : List (ℕ × ChangeRow)) (change : ℕ × ChangeRow)
    {rows' : List (ℕ × ChangeRow)}
    → rows' ≡ rows ++ change ∷ []
    → All (IsSound db user_id) rows
    → IsSound db user_id change
    → All (IsSound db user_id) rows'
All-IsSound_next db user_id rows change same h k =
    rw same (All-append (IsSound db user_id) rows (change ∷ []) h (k, tt))

-- The aggregates of a user can be read, for every content.
abbrev pub Fits : Database → String → Type 0
Fits db user_id =
    (key : String)
    → (total : Option AggregateQueryStats) × (aggregate_stats db user_id key ≡ ok total)

pub Fits-eq :
    (db db' : Database) (user_id : String)
    → db'.device_query_stats ≡ db.device_query_stats
    → Fits db user_id
    → Fits db' user_id
unfolding aggregate_stats
Fits-eq db db' user_id same h key = ((h key).0, rw same (h key).1)

content_stats-put_key :
    (rows : Table (String × (String × String)) StatsRow) (user key device j : String)
    (row : StatsRow)
    → ¬ (key ≡ j)
    → content_stats (put rows (user, (key, device)) row) user j ≡ content_stats rows user j
unfolding content_stats put
content_stats-put_key [] user key device j row h = ground (arith, eq_iff key j)
content_stats-put_key (((u, (c, d)), r) ∷ rows) user key device j row h = ground (
  arith,
  content_stats-put_key rows user key device j row,
  eq_iff c key,
  eq_iff c j,
  eq_iff u user,
)

module _ (db : Database) (user_id : String) where
  put_stats-aggregate :
      (key device j : String) (row : StatsRow)
      → ¬ (key ≡ j)
      → aggregate_stats
          (record db {
            device_query_stats = put db.device_query_stats (user_id, (key, device)) row;
          })
          user_id
          j
        ≡ aggregate_stats db user_id j
  unfolding aggregate_stats
  put_stats-aggregate key device j row h =
      rw (content_stats-put_key db.device_query_stats user_id key device j row h)

  store_stats-aggregate :
      (device_id key j : String) (stats : StatsRow) (stored : Option StatsRow)
      {merged : Bool × Database}
      → store_stats db user_id device_id key stats stored ≡ ok merged
      → ¬ (key ≡ j)
      → aggregate_stats merged.1 user_id j ≡ aggregate_stats db user_id j
  unfolding store_stats
  store_stats-aggregate device_id key j stats none h other =
      ground (arith, put_stats-aggregate key device_id j stats other)
  store_stats-aggregate device_id key j stats (some value) h other =
      ground (arith, put_stats-aggregate key device_id j (merged_row value stats) other)

  merge-other :
      (device_id : String) (event : PushEvent) (key : String) (stats : QueryStatsSnapshot)
      {merged : Bool × Database}
      → merge_query_stats db user_id device_id event.content_key stats ≡ ok merged
      → ¬ (event.content_key ≡ key)
      → aggregate_stats merged.1 user_id key ≡ aggregate_stats db user_id key
  unfolding merge_query_stats
  merge-other device_id event key stats m other =
      let (query_count, fits, stored) =
        >>=-eq-ok (ok_or (i64_try_from stats.query_count) invalid_event) _ m in
      store_stats-aggregate device_id event.content_key key (reported query_count stats)
        (get db.device_query_stats (user_id, (event.content_key, device_id))) stored other

  -- The total of the content that the event reports has just been read; the others are the same.
  pub merge-Fits :
      (device_id : String) (event : PushEvent) {merged : Bool × Database}
      {aggregate : Option AggregateQueryStats}
      → merge_reported db user_id device_id event ≡ ok merged
      → reported_aggregate merged.1 user_id event ≡ ok aggregate
      → Fits db user_id
      → Fits merged.1 user_id
  unfolding merge_reported reported_aggregate merge_query_stats
  merge-Fits device_id event {merged} {aggregate} m r h key =
      elim (Option-cases event.query_stats) [
        | inl silent ↦ Fits-eq db merged.1 user_id (ground arith) h key
        | inr (stats, told) ↦ elim (==_cases event.content_key key) [
          | inl (_, same) ↦ (aggregate, rw (← same) (ground arith))
          | inr (_, other) ↦ (
            (h key).0,
            merge-other device_id event key stats {merged = merged} (ground arith) other
                ∙ (h key).1,
          )
        ]
      ]

  pub operation-stats :
      (operation : SyncOperation) (event : PushEvent) (current : Option FavoriteRecord) (now : ℤ)
      {entity : Entity}
      → apply_operation operation db user_id event current now ≡ ok entity
      → entity.db.device_query_stats ≡ db.device_query_stats
  unfolding apply_operation apply_upsert apply_delete delete_active upsert_favorite update_state
  operation-stats favorite_upsert event current now h = ground arith
  operation-stats favorite_delete event current now h = ground arith
  operation-stats query_stats_upsert event current now h = ground arith

user_changes-insert_self :
    (log : Table (String × ℕ) ChangeRow) (user : String) (revision : ℕ) (row : ChangeRow)
    {log' : Table (String × ℕ) ChangeRow}
    → insert log (user, revision) row ≡ some log'
    → user_changes log' user ≡ user_changes log user ++ (revision, row) ∷ []
unfolding user_changes insert
user_changes-insert_self [] user revision row i = ground (arith, ==_refl user)
user_changes-insert_self (((u, n), r) ∷ log) user revision row {log'} i =
    elim (Option-cases (insert log (user, revision) row)) [
      | inl clash ↦ ground arith
      | inr (r', found) ↦ ground (arith, user_changes-insert_self log user revision row found)
    ]

module _ (db : Database) (user_id : String) where
  pub Grows-IsConsistent :
      (db' : Database)
      → Grows db db'
      → Fits db' user_id
      → IsConsistent db user_id
      → IsConsistent db' user_id
  Grows-IsConsistent db' g fits c = record {
    user = c.user;
    found = ap (λ users. get users user_id) g.users ∙ c.found;
    bounded = c.bounded;
    dense = rw g.change_log c.dense;
    counted = rw g.change_log c.counted;
    sound =
        All-IsSound_eq db db' user_id (ap (λ log. user_changes log user_id) g.change_log)
          (λ key h. g.favorites user_id key h) c.sound;
    fits = fits;
  }

  pub record_change-IsConsistent :
      (key : String) (entity_revision : ℕ) (operation : SyncOperation) (now : ℤ)
      {next : ℕ × Database}
      → record_change db user_id key entity_revision operation now ≡ ok next
      → IsConsistent db user_id
      → IsConsistent next.1 user_id
  unfolding has_favorite
  record_change-IsConsistent key entity_revision operation now {next} h c =
      let l = record_change-Logged db user_id key entity_revision operation now h in
      let revision = l.user.sync_revision + 1 in
      let row = change_row key entity_revision operation now in
      let before = user_changes db.change_log user_id in
      let grown = user_changes-insert_self db.change_log user_id revision row l.inserted in
      let same : c.user ≡ l.user = ground (arith, c.found, l.found) in
      let counted : length before ≡ l.user.sync_revision =
        c.counted ∙ ap (λ (u : UserRow). u.sync_revision) same in
      let log' = ap (λ (n : ℕ × Database). user_changes n.1.change_log user_id) l.result ∙ grown in
      let kept : (k : String) → has_favorite next.1 user_id k ≡ has_favorite db user_id k =
        λ k. ap (λ (n : ℕ × Database). has_favorite n.1 user_id k) l.result in
      record {
        user = record l.user { sync_revision = revision };
        found =
            ap (λ (n : ℕ × Database). get n.1.users user_id) l.result
            ∙ get-put_self db.users user_id (record l.user { sync_revision = revision });
        bounded = l.fits;
        dense = rw log' (IsDense-append 0 before revision row c.dense (ground (arith, counted)));
        counted = rw log' (ground (arith, length-append before ((revision, row) ∷ []), counted));
        sound =
            All-IsSound_next next.1 user_id before (revision, row) log'
              (All-IsSound db next.1 user_id before (λ k h. kept k ∙ h) c.sound)
              (kept key ∙ ground (arith, l.referenced), (operation, refl));
        fits =
            Fits-eq db next.1 user_id (ap (λ (n : ℕ × Database). n.1.device_query_stats) l.result)
              c.fits;
      }
