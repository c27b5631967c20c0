-- ===== src/Storage/Codec.antt =====
-- Values that cross the boundary to SQLite: crates/storage/src/codec.rs, the parsing functions of
-- src/profile.rs, and the reads of one favorite in src/profile.rs and src/sync.rs. A column that
-- holds a number is not negative, so that reading it as a `u64` does not fail.
use lvos.Base.{
  ℕ, String, Option, none, some, List, ok, err, Result, ◌>>=◌, ok_or, ◌==◌, string_eq,
  if◌then◌else◌, leb, i64_try_from, u32_max,
}
use lvos.Base.Text.{utf8}
use lvos.Base.Table.{get}
use lvos.Core.ContentKey.{from_str}
use lvos.Core.LanguageCode.{parse}
use lvos.Core.Content.{TextKind, word, text, key_text}
use lvos.Storage.Model.{
  StorageError, StorageResult, invalid_data, invalid_identifier, OutboxOperation, favorite_upsert,
  favorite_delete, query_stats_upsert, OutboxEvent, OutboxRow, StoredContent, HistoryEntry,
  HistoryRow, Favorite, FavoriteColumns, ContentColumns, ProfileDatabase, Libraries,
}

-- `map_err` to one error.
abbrev pub or_else {ℓ κ} : {A : Type ℓ} {E : Type κ} → Result E A → StorageError → StorageResult A
or_else (ok a) e = ok a
or_else (err d) e = err e

unfoldable pub parse_content_key : String → StorageResult (List ℕ)
unfolding utf8 from_str
parse_content_key value = or_else (from_str (utf8 value)) (invalid_data "content key")

unfoldable pub as_str : OutboxOperation → String
as_str favorite_upsert = "favorite_upsert"
as_str favorite_delete = "favorite_delete"
as_str query_stats_upsert = "query_stats_upsert"

unfoldable pub parse_outbox_operation : String → StorageResult OutboxOperation
parse_outbox_operation value =
    if value == "favorite_upsert"
    then ok favorite_upsert
    else if value == "favorite_delete"
    then ok favorite_delete
    else if value == "query_stats_upsert"
    then ok query_stats_upsert
    else err (invalid_data "outbox operation")

abbrev pub sqlite_i64 : ℕ → StorageResult ℕ
sqlite_i64 value = ok_or (i64_try_from value) (invalid_data "integer exceeds SQLite range")

-- `u32::try_from`
abbrev pub u32_try_from : ℕ → String → StorageResult ℕ
u32_try_from value message = if leb value u32_max then ok value else err (invalid_data message)

-- A language code is its canonical tag.
unfoldable pub parse_language : String → String → StorageResult (List ℕ)
unfolding utf8 parse
parse_language value message = or_else (parse (utf8 value)) (invalid_data message)

unfoldable pub parse_kind : String → StorageResult TextKind
parse_kind value =
    if value == "word"
    then ok word
    else if value == "text"
    then ok text
    else err (invalid_data "text kind")

-- What the columns of a content say, with the errors for its two languages.
unfoldable pub parse_content :
    List ℕ → ContentColumns → String → String → StorageResult (StoredContent × List ℕ)
unfolding parse_kind parse_language
parse_content key columns source target = do
  key_version ← u32_try_from columns.key_version "key version"
  kind ← parse_kind columns.kind
  source_lang ← parse_language columns.source_lang source
  target_lang ← parse_language columns.target_lang target
  ok (
    record {
      content_key = key;
      key_version = key_version;
      kind = kind;
      source_lang = source_lang;
      source_text = columns.source_text;
      canonical_text = columns.canonical_text;
    },
    target_lang,
  )

unfoldable pub parse_history : String → HistoryRow → StorageResult HistoryEntry
unfolding parse_content_key parse_content
parse_history content_key row = do
  key ← parse_content_key content_key
  content ← parse_content key row.content "language code" "language code"
  ok (record {
    content = content.0;
    translation = record {
      target_lang = content.1;
      translation = row.content.translation;
      provider = row.content.provider;
      updated_at = row.translation_updated_at;
    };
    last_queried_at = row.last_queried_at;
  })

abbrev pub favorite_of : StoredContent × List ℕ → FavoriteColumns → Favorite
favorite_of content row = record {
  content = content.0;
  translation = record {
    target_lang = content.1;
    translation = row.content.translation;
    provider = row.content.provider;
    updated_at = row.updated_at;
  };
  created_at = row.created_at;
  updated_at = row.updated_at;
  deleted_at = row.deleted_at;
  entity_revision = row.entity_revision;
}

unfoldable pub parse_favorite : String → FavoriteColumns → StorageResult Favorite
unfolding parse_content_key parse_content
parse_favorite content_key row = do
  key ← parse_content_key content_key
  content ← parse_content key row.content "language code" "language code"
  ok (favorite_of content row)

-- The read in a transaction of src/profile.rs, and the one on the connection.
unfoldable pub favorite_tx : ProfileDatabase → List ℕ → StorageResult (Option Favorite)
unfolding get key_text parse_favorite
favorite_tx db key = elim (get db.favorites (key_text key)) [
  | none ↦ ok none
  | some row ↦ parse_favorite (key_text key) row >>= λ favorite. ok (some favorite)
]

unfoldable pub parse_local : List ℕ → FavoriteColumns → StorageResult Favorite
unfolding parse_content
parse_local key row = do
  content ← parse_content key row.content "source language" "target language"
  ok (favorite_of content row)

-- The read in a transaction of src/sync.rs.
unfoldable pub local_favorite : ProfileDatabase → List ℕ → StorageResult (Option Favorite)
unfolding get key_text parse_local
local_favorite db key = elim (get db.favorites (key_text key)) [
  | none ↦ ok none
  | some row ↦ parse_local key row >>= λ favorite. ok (some favorite)
]

unfoldable pub parse_outbox : Libraries → OutboxRow → StorageResult OutboxEvent
unfolding parse_content_key parse_outbox_operation
parse_outbox libraries row = do
  event_id ← ok_or (libraries.parse_uuid row.event_id) (invalid_identifier "event")
  content_key ← parse_content_key row.content_key
  operation ← parse_outbox_operation row.operation
  payload_json ← ok_or row.payload_json (invalid_data "outbox payload is null")
  coalesce_key ← ok_or row.coalesce_key (invalid_data "outbox coalesce key is null")
  attempt_count ← u32_try_from row.attempt_count "negative attempt count"
  conflict_replay_count ← u32_try_from row.conflict_replay_count "negative conflict replay count"
  ok (record {
    event_id = event_id;
    content_key = content_key;
    operation = operation;
    payload_json = payload_json;
    coalesce_key = coalesce_key;
    base_entity_revision = row.base_entity_revision;
    created_at = row.created_at;
    updated_at = row.updated_at;
    attempt_count = attempt_count;
    next_retry_at = row.next_retry_at;
    last_error = row.last_error;
    conflict_replay_count = conflict_replay_count;
  })
