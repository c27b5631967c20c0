-- ===== src/Storage/Remote/Keeps.antt =====
-- Writing a remote favorite leaves the outbox and the profile's own row alone.
use lvos.Base.{
  ℕ, ◌≡◌, refl, sym, ap, ◌∙◌, inl, inr, none, Option, List, arith, ok, >>=-eq-ok, Option-cases,
  string_eq, ◌||◌, ◌==◌, guard,
}
use lvos.Base.Int.{ℤ}
use lvos.Base.Table.{get, put}
use lvos.Protocol.{FavoriteRecord, AggregateQueryStats}
use lvos.Core.Content.{key_text}
use lvos.Storage.Model.{ProfileDatabase, StorageResult, sqlite}
use lvos.Storage.Codec.{sqlite_i64, parse_content_key}
use lvos.Storage.Remote.{
  or_default, update_aggregate, update_aggregate_from_record, ensure_stats, write_remote_favorite,
  remote_columns, unqueried, baseline,
}

-- Only the counters differ.
pub record Keeps (db db' : ProfileDatabase) : Type 0 where
  pub outbox : db'.sync_outbox ≡ db.sync_outbox
  pub meta : db'.profile_meta ≡ db.profile_meta
  pub favorites : db'.favorites ≡ db.favorites

pub Keeps-refl : (db : ProfileDatabase) → Keeps db db
Keeps-refl db = record { outbox = refl; meta = refl; favorites = refl }

pub Keeps-trans :
    {first second third : ProfileDatabase}
    → Keeps first second
    → Keeps second third
    → Keeps first third
Keeps-trans a b = record {
  outbox = b.outbox ∙ a.outbox;
  meta = b.meta ∙ a.meta;
  favorites = b.favorites ∙ a.favorites;
}

Keeps-same : {db db' : ProfileDatabase} → db' ≡ db → Keeps db db'
Keeps-same same = record {
  outbox = ap (λ (d : ProfileDatabase). d.sync_outbox) same;
  meta = ap (λ (d : ProfileDatabase). d.profile_meta) same;
  favorites = ap (λ (d : ProfileDatabase). d.favorites) same;
}

ok_inj : {a b : ProfileDatabase} → ◌≡◌ {A = StorageResult ProfileDatabase} (ok a) (ok b) → a ≡ b
ok_inj h = cc

pub update_aggregate-Keeps :
    (db : ProfileDatabase) (key : List ℕ) (aggregate : AggregateQueryStats) (sent : Option ℕ)
    (now : ℤ) {db' : ProfileDatabase}
    → update_aggregate db key aggregate sent now ≡ ok db'
    → Keeps db db'
unfolding update_aggregate
update_aggregate-Keeps db key aggregate sent now h =
    let (a, first, h1) = >>=-eq-ok (sqlite_i64 (or_default sent 0)) _ h in
    let (b, second, h2) = >>=-eq-ok (sqlite_i64 aggregate.query_count) _ h1 in
    Keeps-trans (record { outbox = refl; meta = refl; favorites = refl })
      (Keeps-same (ok_inj (sym h2)))

pub update_aggregate_from_record-Keeps :
    (db : ProfileDatabase) (remote : FavoriteRecord) (now : ℤ) {db' : ProfileDatabase}
    → update_aggregate_from_record db remote now ≡ ok db'
    → Keeps db db'
unfolding update_aggregate_from_record
update_aggregate_from_record-Keeps db remote now {db'} h =
    elim (Option-cases remote.aggregate_query_stats) [
      | inl absent ↦ Keeps-same (ground (arith, h, absent))
      | inr (aggregate, present) ↦
          let (key, parsed, h1) =
            >>=-eq-ok (parse_content_key remote.content_key)
              (λ key. update_aggregate db key aggregate none now) {value = db'}
              (ground (arith, h, present)) in
          update_aggregate-Keeps db key aggregate none now h1
    ]

ensure_stats-Keeps :
    (db : ProfileDatabase) (key : List ℕ) (remote : FavoriteRecord) (now : ℤ)
    {db' : ProfileDatabase}
    → ensure_stats db key remote now ≡ ok db'
    → Keeps db db'
unfolding ensure_stats
ensure_stats-Keeps db key remote now h = elim (Option-cases (get db.query_stats (key_text key))) [
  | inl absent ↦
      Keeps-trans (record { outbox = refl; meta = refl; favorites = refl })
        (update_aggregate_from_record-Keeps
          (record db {
            query_stats =
                put db.query_stats (key_text key) (unqueried (baseline remote) (baseline remote));
          })
          remote now (ground (arith, h, absent)))
  | inr (stats, present) ↦ Keeps-same (ground (arith, h, present))
]

-- The favorite of the server stands in the table, and nothing is pending that was not.
pub record Writes (db : ProfileDatabase) (remote : FavoriteRecord) (db' : ProfileDatabase)
    : Type 0 where
  pub outbox : db'.sync_outbox ≡ db.sync_outbox
  pub meta : db'.profile_meta ≡ db.profile_meta
  pub favorites :
      db'.favorites
      ≡ put db.favorites remote.content_key (remote_columns remote remote.entity_revision)

pub write_remote_favorite-Writes :
    (db : ProfileDatabase) (remote : FavoriteRecord) (now : ℤ) {db' : ProfileDatabase}
    → write_remote_favorite db remote now ≡ ok db'
    → Writes db remote db'
unfolding write_remote_favorite
write_remote_favorite-Writes db remote now h =
    let (key, parsed, h1) = >>=-eq-ok (parse_content_key remote.content_key) _ h in
    let (revision, fits, h2) = >>=-eq-ok (sqlite_i64 remote.entity_revision) _ h1 in
    let (allowed, kind, h3) =
      >>=-eq-ok (guard (remote.favorite.kind == "word" || remote.favorite.kind == "text") sqlite) _
        h2 in
    let written = record db {
      favorites = put db.favorites remote.content_key (remote_columns remote revision);
    } in
    let (aggregated, second, h4) =
      >>=-eq-ok (update_aggregate_from_record written remote now) _ h3 in
    let kept =
      Keeps-trans (update_aggregate_from_record-Keeps written remote now second)
        (ensure_stats-Keeps aggregated key remote now h4) in
    let same : revision ≡ remote.entity_revision = ground (arith, fits) in
    record {
      outbox = kept.outbox;
      meta = kept.meta;
      favorites =
          kept.favorites
          ∙ ap (λ (r : ℕ). put db.favorites remote.content_key (remote_columns remote r)) same;
    }
