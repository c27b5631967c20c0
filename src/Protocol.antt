-- ===== src/Protocol.antt =====
-- The synchronization protocol (crates/sync/src/lib.rs): the messages that the desktop and the
-- server exchange. A `u64` is a number below 2^64; an `i64` timestamp is an integer.
use lvos.Base.{
  true, string_eq, int_eq, ℕ, String, Bool, Option, List, ◌≡◌, ◌↔◌, ◌&&◌, ◌==◌, Eq, arith, eq_iff,
}
use lvos.Base.Int.{ℤ, int_beq_iff}

pub data SyncOperation : Type 0 where
  favorite_upsert favorite_delete query_stats_upsert : SyncOperation

pub record FavoriteSnapshot : Type 0 where
  pub kind : String
  pub source_lang : String
  pub target_lang : String
  pub source_text : String
  pub canonical_text : String
  pub translation : String
  pub provider : String
  pub favorited_at : ℤ
  pub updated_at : ℤ

-- The derived `PartialEq` of `FavoriteSnapshot`.
abbrev snapshot_texts_eq : FavoriteSnapshot → FavoriteSnapshot → Bool
snapshot_texts_eq a b =
    a.kind == b.kind
    && (a.source_lang == b.source_lang
        && (a.target_lang == b.target_lang
            && (a.source_text == b.source_text
                && (a.canonical_text == b.canonical_text
                    && (a.translation == b.translation && a.provider == b.provider)))))

abbrev pub snapshot_beq : FavoriteSnapshot → FavoriteSnapshot → Bool
snapshot_beq a b =
    snapshot_texts_eq a b && (a.favorited_at == b.favorited_at && a.updated_at == b.updated_at)

pub snapshot_beq_iff : (a b : FavoriteSnapshot) → (snapshot_beq a b ≡ true) ↔ (a ≡ b)
snapshot_beq_iff a b = ground (
  arith,
  eq_iff a.kind b.kind,
  eq_iff a.source_lang b.source_lang,
  eq_iff a.target_lang b.target_lang,
  eq_iff a.source_text b.source_text,
  eq_iff a.canonical_text b.canonical_text,
  eq_iff a.translation b.translation,
  eq_iff a.provider b.provider,
  int_beq_iff a.favorited_at b.favorited_at,
  int_beq_iff a.updated_at b.updated_at,
)

instance abbrev pub snapshot_eq : Eq FavoriteSnapshot
snapshot_eq = record { beq = snapshot_beq; beq_iff = snapshot_beq_iff }

pub record QueryStatsSnapshot : Type 0 where
  pub query_count : ℕ
  pub first_queried_at : ℤ
  pub last_queried_at : ℤ
  pub updated_at : ℤ

pub record PushEvent : Type 0 where
  pub event_id : String
  pub operation : SyncOperation
  pub content_key : String
  pub key_version : ℕ
  pub base_entity_revision : ℕ
  pub favorite : Option FavoriteSnapshot
  pub query_stats : Option QueryStatsSnapshot

pub data AckStatus : Type 0 where
  applied no_change : AckStatus

pub record AggregateQueryStats : Type 0 where
  pub query_count : ℕ
  pub first_queried_at : ℤ
  pub last_queried_at : ℤ

pub record PushAck : Type 0 where
  pub event_id : String
  pub status : AckStatus
  pub entity_revision : Option ℕ
  pub user_revision : ℕ
  pub aggregate_query_stats : Option AggregateQueryStats

pub record PushResponse : Type 0 where
  pub acknowledgements : List PushAck
  pub latest_revision : ℕ

pub record FavoriteRecord : Type 0 where
  pub content_key : String
  pub key_version : ℕ
  pub favorite : FavoriteSnapshot
  pub deleted_at : Option ℤ
  pub entity_revision : ℕ
  pub server_received_at : ℤ
  pub aggregate_query_stats : Option AggregateQueryStats

pub record SyncChange : Type 0 where
  pub revision : ℕ
  pub operation : SyncOperation
  pub favorite : FavoriteRecord

pub record ChangesResponse : Type 0 where
  pub changes : List SyncChange
  pub next_revision : ℕ
  pub latest_revision : ℕ
  pub has_more : Bool
