-- ===== src/Storage/Examples/Favorites.antt =====
-- Runs of the operations on favorites and lookups, and of the preparation of content.
use lvos.Base.{
  ◌+◌, ◌≡◌, ◌≢◌, refl, true, Option, some, [], ◌∷◌, arith, ok, nat_eq, string_eq, eq_iff,
}
use lvos.Base.Int.{ℤ, pos}
use lvos.Base.Text.{chars, utf8, encode_all, ascii}
use lvos.Base.Table.{get, put}
use lvos.Core.ContentKey.{to_hex, hex_digit, from_str, decode_pairs, decode_hex}
use lvos.Core.Content.{PreparedContent, prepare_content, key_text, word}
use lvos.Storage.Model.{ProfileDatabase, QueryStats, HistoryEntry, Favorite, effective_total}
use lvos.Storage.Outbox.{
  exists_row, update_rows, delete_rows, favorite_coalesce_key, query_stats_coalesce_key,
  upsert_outbox, optional_sqlite, write_outbox, upsert_query_stats_event,
}
use lvos.Storage.Outbox.Pending.{pending}
use lvos.Storage.Profile.{
  record_successful_query, record_transaction, counted_query, upsert_history, in_sync_domain,
  favorite,
}
use lvos.Storage.Counting.{record_successful_query-total, IsStored}
use lvos.Storage.Identity.{replace_device_identity}
use lvos.Storage.Identity.Moves.{replace_device_identity-total, total_of}
use lvos.Storage.Examples.{unicode, libraries, key, counter, row, profile, favored}
use lvos.Core.Content.Stable.{prepare_content-source_text}
use lvos.Core.Content.{
  prepare, trim, trim_start, trim_end, clean_control_characters, filter_chars, any_char, all_chars,
  classify, canonicalize, collapse_whitespace, split_chars, nonempty, join_words,
  trim_terminal_word_punctuation, content_key, decimal, protocol_name,
}
use lvos.Core.LanguageCode.{
  parse, canonicalize_tag, split, join, valid_primary, valid_subtag, valid_subtags, is_alphabetic,
  is_alphanumeric, to_lower, to_upper, all_bytes,
}
use lvos.Storage.Model.{StorageResult}
use lvos.Storage.Codec.{
  favorite_tx, parse_favorite, parse_content_key, parse_content, parse_kind, parse_language,
}
use lvos.Storage.Removal.{
  unfavorite, unfavorite_transaction, unfavorite_active, bury, forget_favorite_event,
  update_favorite,
}
use lvos.Storage.Intents.{unfavorite-Withdraws, Withdraws}

abbrev entry : HistoryEntry
entry = record {
  content = record {
    content_key = key;
    key_version = 1;
    kind = word;
    source_lang = 101 ∷ 110 ∷ [];
    source_text = "run";
    canonical_text = "run";
  };
  translation = record {
    target_lang = 122 ∷ 104 ∷ [];
    translation = "跑";
    provider = "p";
    updated_at = pos 8;
  };
  last_queried_at = pos 8;
}

abbrev counted_profile : ProfileDatabase
counted_profile = (record_successful_query libraries "e2" true favored entry).1

abbrev counted_stats : QueryStats
counted_stats = record counter { device_query_count = 4; last_queried_at = pos 8 }

counter-IsStored : IsStored (get favored.query_stats (key_text key))
unfolding get key_text to_hex hex_digit ascii
counter-IsStored = omega arith

counted_run :
    record_successful_query libraries "e2" true favored entry ≡ (ok counted_stats, counted_profile)
unfolding record_successful_query record_transaction counted_query upsert_history in_sync_domain get
    put upsert_query_stats_event upsert_outbox optional_sqlite write_outbox exists_row update_rows
    key_text to_hex hex_digit ascii favorite_coalesce_key query_stats_coalesce_key
counted_run = refl

key_other : key_text key ≢ "other"
unfolding key_text to_hex hex_digit ascii
key_other p = ground (arith, p, eq_iff (key_text key) "other")

record_successful_query-total_example :
    (get counted_profile.query_stats (key_text key) ≡ some counted_stats)
    × (effective_total counted_stats ≡ total_of (get favored.query_stats (key_text key)) + 1)
    × (counted_stats.last_queried_at ≡ pos 8)
    × (get counted_profile.query_stats "other" ≡ get favored.query_stats "other")
    × (counted_profile.favorites ≡ favored.favorites)
record_successful_query-total_example =
    record_successful_query-total libraries "e2" true favored entry "other" counter-IsStored
      counted_run key_other

counter_there : get favored.query_stats (key_text key) ≡ some counter
unfolding get key_text to_hex hex_digit ascii
counter_there = refl

replace_device_identity-total_example :
    total_of (
      get
        (replace_device_identity libraries true favored (1 ∷ []) (2 ∷ []) (pos 9)).1.query_stats
        (key_text key))
    ≡ effective_total counter
replace_device_identity-total_example =
    replace_device_identity-total libraries true favored (1 ∷ []) (2 ∷ []) (pos 9) (key_text key)
      counter_there (λ h. cc h)

abbrev removed : StorageResult Favorite × ProfileDatabase
removed = unfavorite libraries "e2" true favored key (pos 9)

row_there : get favored.favorites (key_text key) ≡ some row
unfolding get key_text to_hex hex_digit ascii
row_there = refl

abbrev shown : ℤ → Option ℤ → Favorite
shown time deleted = record {
  content = record entry.content { kind = word };
  translation = record entry.translation { updated_at = time };
  created_at = pos 3;
  updated_at = time;
  deleted_at = deleted;
  entity_revision = 0;
}

removed_run : removed ≡ (ok (shown (pos 9) (some (pos 9))), removed.1)
unfolding unfavorite unfavorite_transaction favorite_tx get key_text to_hex hex_digit ascii
    parse_favorite parse_content_key parse_content parse_kind parse_language unfavorite_active bury
    forget_favorite_event update_favorite put delete_rows from_str decode_pairs decode_hex utf8
    encode_all chars parse canonicalize_tag split join valid_primary valid_subtag valid_subtags
    is_alphabetic is_alphanumeric to_lower to_upper all_bytes
removed_run = refl

unfavorite-Withdraws_example :
    (get removed.1.favorites (key_text key)
      ≡ some (record row { updated_at = pos 9; deleted_at = some (pos 9) }))
    × Withdraws "e2" 0 (pending removed.1 key)
unfavorite-Withdraws_example =
    unfavorite-Withdraws libraries "e2" true favored key row (pos 9) row_there refl removed_run

abbrev added : StorageResult Favorite × ProfileDatabase
added = favorite libraries "e1" true profile key (pos 3)

abbrev stored_entry : HistoryEntry
stored_entry = record {
  content = entry.content;
  translation = record entry.translation { updated_at = pos 2 };
  last_queried_at = pos 2;
}

abbrev prepared : PreparedContent
prepared = record {
  source_text = "Run!";
  canonical = record {
    key_version = 1;
    normalization_version = 1;
    kind = word;
    source_lang = 101 ∷ 110 ∷ [];
    text = "Run";
  };
  content_key = key;
}

prepared_run : prepare_content unicode " Run! " (101 ∷ 110 ∷ []) 9 ≡ ok prepared
unfolding prepare_content prepare trim trim_start trim_end clean_control_characters filter_chars
    any_char all_chars classify canonicalize collapse_whitespace split_chars nonempty join_words
    trim_terminal_word_punctuation content_key decimal protocol_name chars utf8 encode_all
prepared_run = refl

prepare_content-source_text_example :
    prepare_content unicode "Run!" (101 ∷ 110 ∷ []) 9 ≡ ok prepared
prepare_content-source_text_example =
    prepare_content-source_text unicode " Run! " (101 ∷ 110 ∷ []) 9 prepared_run
