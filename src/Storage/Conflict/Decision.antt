-- ===== src/Storage/Conflict/Decision.antt =====
-- Which resolution a conflict gets, and what it leaves.
use lvos.Base.{
  ℕ, ◌<◌, ◌≡◌, ◌≢◌, ◌||◌, ap, inl, inr, true, false, none, some, List, arith, ok, ◌==◌, nat_eq,
  string_eq, eq_iff, i64_limit, Option-cases, Result-cases,
}
use lvos.Base.Int.{ℤ, int_beq_iff}
use lvos.Base.Text.{ascii}
use lvos.Base.Table.{get, put}
use lvos.Protocol.{
  snapshot_eq, snapshot_beq_iff, FavoriteRecord, FavoriteSnapshot, AggregateQueryStats,
}
use lvos.Core.Content.{protocol_name, key_text}
use lvos.Storage.Model.{
  ProfileDatabase, Favorite, OutboxOperation, favorite_upsert, favorite_delete, query_stats_upsert,
}
use lvos.Storage.Codec.{parse_content_key}
use lvos.Storage.Remote.{
  desired_converged, protocol_snapshot, write_remote_favorite, update_aggregate,
  update_aggregate_from_record, ensure_stats, unqueried, baseline, remote_columns,
}

-- The favorite as it is stored shows what the server shows.
pub record SaysSame (local : Favorite) (remote : FavoriteSnapshot) : Type 0 where
  pub kind : protocol_name local.content.kind ≡ remote.kind
  pub source_lang : ascii local.content.source_lang ≡ remote.source_lang
  pub target_lang : ascii local.translation.target_lang ≡ remote.target_lang
  pub source_text : local.content.source_text ≡ remote.source_text
  pub canonical_text : local.content.canonical_text ≡ remote.canonical_text
  pub translation : local.translation.translation ≡ remote.translation
  pub provider : local.translation.provider ≡ remote.provider
  pub favorited_at : local.created_at ≡ remote.favorited_at
  pub updated_at : local.updated_at ≡ remote.updated_at

-- The server is where the intent wants it: the favorite is deleted there, or it is active and the
-- same.
abbrev pub IsConverged : OutboxOperation → Favorite → FavoriteRecord → Type 0
IsConverged favorite_delete local remote = remote.deleted_at ≢ none
IsConverged favorite_upsert local remote =
    (remote.deleted_at ≡ none) × SaysSame local remote.favorite
IsConverged query_stats_upsert local remote = ⊥

SaysSame-snapshot :
    (local : Favorite) (remote : FavoriteSnapshot)
    → protocol_snapshot local ≡ remote
    → SaysSame local remote
unfolding protocol_snapshot
SaysSame-snapshot local remote h = record {
  kind = ap (λ (s : FavoriteSnapshot). s.kind) h;
  source_lang = ap (λ (s : FavoriteSnapshot). s.source_lang) h;
  target_lang = ap (λ (s : FavoriteSnapshot). s.target_lang) h;
  source_text = ap (λ (s : FavoriteSnapshot). s.source_text) h;
  canonical_text = ap (λ (s : FavoriteSnapshot). s.canonical_text) h;
  translation = ap (λ (s : FavoriteSnapshot). s.translation) h;
  provider = ap (λ (s : FavoriteSnapshot). s.provider) h;
  favorited_at = ap (λ (s : FavoriteSnapshot). s.favorited_at) h;
  updated_at = ap (λ (s : FavoriteSnapshot). s.updated_at) h;
}

snapshot-SaysSame :
    (local : Favorite) (remote : FavoriteSnapshot)
    → SaysSame local remote
    → protocol_snapshot local ≡ remote
unfolding protocol_snapshot
snapshot-SaysSame local remote s = (snapshot_beq_iff (protocol_snapshot local) remote).0 (
    ground (
      arith,
      eq_iff (protocol_name local.content.kind) remote.kind,
      eq_iff (ascii local.content.source_lang) remote.source_lang,
      eq_iff (ascii local.translation.target_lang) remote.target_lang,
      eq_iff local.content.source_text remote.source_text,
      eq_iff local.content.canonical_text remote.canonical_text,
      eq_iff local.translation.translation remote.translation,
      eq_iff local.translation.provider remote.provider,
      s.kind,
      s.source_lang,
      s.target_lang,
      s.source_text,
      s.canonical_text,
      s.translation,
      s.provider,
      s.favorited_at,
      s.updated_at,
      int_beq_iff local.created_at remote.favorited_at,
      int_beq_iff local.updated_at remote.updated_at,
    ))

pub desired_converged-IsConverged :
    (operation : OutboxOperation) (local : Favorite) (remote : FavoriteRecord)
    → desired_converged operation local remote ≡ true
    → IsConverged operation local remote
unfolding desired_converged
desired_converged-IsConverged favorite_delete local remote h =
    λ none_left. absurd (ground (arith, h, none_left))
desired_converged-IsConverged favorite_upsert local remote h = (
  ground (arith, h),
  SaysSame-snapshot local remote.favorite
      (ground (arith, h, snapshot_beq_iff (protocol_snapshot local) remote.favorite)),
)
desired_converged-IsConverged query_stats_upsert local remote h = absurd (ground (arith, h))

pub desired_converged-differs :
    (operation : OutboxOperation) (local : Favorite) (remote : FavoriteRecord)
    → desired_converged operation local remote ≡ false
    → ¬ IsConverged operation local remote
unfolding desired_converged
desired_converged-differs favorite_delete local remote h buried =
    elim (Option-cases remote.deleted_at) [
      | inl missing ↦ buried missing
      | inr (time, at) ↦ absurd (ground (arith, h, at))
    ]
desired_converged-differs favorite_upsert local remote h (active, same) = absurd (
    ground (
      arith,
      h,
      active,
      snapshot-SaysSame local remote.favorite same,
      snapshot_beq_iff (protocol_snapshot local) remote.favorite,
    ))
desired_converged-differs query_stats_upsert local remote h never = never

-- A favorite that can be written: its key is read, and its kind and numbers fit the columns.
pub record IsStorable (remote : FavoriteRecord) : Type 0 where
  pub key : List ℕ
  pub parsed : parse_content_key remote.content_key ≡ ok key
  pub named : (remote.favorite.kind == "word" || remote.favorite.kind == "text") ≡ true
  pub revision : remote.entity_revision < i64_limit
  pub count :
      (aggregate : AggregateQueryStats)
      → remote.aggregate_query_stats ≡ some aggregate
      → aggregate.query_count < i64_limit

update_aggregate-total :
    (db : ProfileDatabase) (key : List ℕ) (aggregate : AggregateQueryStats) (now : ℤ)
    → aggregate.query_count < i64_limit
    → (db' : ProfileDatabase) × (update_aggregate db key aggregate none now ≡ ok db')
unfolding update_aggregate
update_aggregate-total db key aggregate now fits =
    elim (Result-cases (update_aggregate db key aggregate none now)) [
      | inl done ↦ done
      | inr (e, failed) ↦ absurd (ground (arith, failed, fits))
    ]

pub update_aggregate_from_record-total :
    (db : ProfileDatabase) (remote : FavoriteRecord) (now : ℤ)
    → IsStorable remote
    → (db' : ProfileDatabase) × (update_aggregate_from_record db remote now ≡ ok db')
unfolding update_aggregate_from_record
update_aggregate_from_record-total db remote now s =
    elim (Option-cases remote.aggregate_query_stats) [
      | inl absent ↦ (db, ground (arith, absent))
      | inr (aggregate, present) ↦
          let (db', done) =
            update_aggregate-total db s.key aggregate now (s.count aggregate present) in
          (db', ground (arith, present, s.parsed, done))
    ]

ensure_stats-total :
    (db : ProfileDatabase) (key : List ℕ) (remote : FavoriteRecord) (now : ℤ)
    → IsStorable remote
    → (db' : ProfileDatabase) × (ensure_stats db key remote now ≡ ok db')
unfolding ensure_stats
ensure_stats-total db key remote now s = elim (Option-cases (get db.query_stats (key_text key))) [
  | inl absent ↦
      let counted = record db {
        query_stats =
            put db.query_stats (key_text key) (unqueried (baseline remote) (baseline remote));
      } in
      let (db', done) = update_aggregate_from_record-total counted remote now s in
      (db', ground (arith, absent, done))
  | inr (stats, present) ↦ (db, ground (arith, present))
]

pub write_remote_favorite-total :
    (db : ProfileDatabase) (remote : FavoriteRecord) (now : ℤ)
    → IsStorable remote
    → (db' : ProfileDatabase) × (write_remote_favorite db remote now ≡ ok db')
unfolding write_remote_favorite
write_remote_favorite-total db remote now s =
    let written = record db {
      favorites =
          put db.favorites remote.content_key (remote_columns remote remote.entity_revision);
    } in
    let (aggregated, first) = update_aggregate_from_record-total written remote now s in
    let (db', second) = ensure_stats-total aggregated s.key remote now s in
    (db', ground (arith, s.parsed, s.revision, s.named, first, second))
