-- ===== src/Desktop/Examples/Pulling.antt =====
-- A pull that catches up with the server.
use lvos.Base.{
  List, ap, ℕ, Result, err, some, none, arith, pair_eq, ◌≡◌, refl, true, ok, [], ◌∷◌, nat_eq,
  string_eq,
}
use lvos.Base.Int.{pos}
use lvos.Base.Text.{chars, utf8, encode_all, ascii}
use lvos.Base.Table.{get, put}
use lvos.Core.ContentKey.{to_hex, hex_digit, from_str, decode_pairs, decode_hex}
use lvos.Core.LanguageCode.{
  parse, canonicalize_tag, split, join, valid_primary, valid_subtag, valid_subtags, is_alphabetic,
  is_alphanumeric, to_lower, to_upper, all_bytes,
}
use lvos.Core.Content.{
  protocol_name, filter_chars, any_char, all_chars, trim_start, trim_end, split_chars, nonempty,
  join_words, decimal, trim_terminal_word_punctuation, trim, collapse_whitespace,
  clean_control_characters, classify, canonicalize, content_key, prepare, prepare_content, key_text,
}
use lvos.Storage.Model.{ProfileDatabase}
use lvos.Storage.Codec.{parse_content_key, parse_language}
use lvos.Storage.Outbox.{find_row, favorite_coalesce_key}
use lvos.Storage.Remote.{
  validate_remote, is_identity, update_aggregate_from_record, ensure_stats, write_remote_favorite,
}
use lvos.Storage.Page.{apply_remote_page, page_transaction, apply_changes, apply_remote_change}
use lvos.Protocol.{ChangesResponse, SyncChange, favorite_upsert}
use lvos.Storage.Model.{Libraries}
use lvos.Storage.Remote.{update_aggregate}
use lvos.Storage.Examples.{libraries, unicode, empty_profile}
use lvos.Server.Examples.{after, key, snapshot, counters}
use lvos.Server.Examples.Pages.{after_consistent}
use lvos.Server.Changes.{
  changes_since, user_changes, changes_after, insert_ordered, order_by_revision, read_change,
  read_changes, last_revision, select_changes,
}
use lvos.Server.Rows.{
  user_revision, favorite_record, aggregate_stats, content_stats, summarize, checked_total,
  parse_operation,
}
use lvos.Desktop.SyncEngine.{SessionError, transport, offline, rejected}
use lvos.Desktop.SyncEngine.Cycle.{Surroundings, Run, pull_all}
use lvos.Desktop.SyncEngine.Cycle.Ends.{Serves, EndsAt, pull_all-EndsAt}

-- The digest of the text whose favorite the server has.
abbrev digest : List ℕ → List ℕ
digest bytes =
    0 ∷ 17 ∷ 34 ∷ 51 ∷ 68 ∷ 85 ∷ 102 ∷ 119 ∷ 136 ∷ 153 ∷ 170 ∷ 187 ∷ 204 ∷ 221 ∷ 238 ∷ 255 ∷ 0 ∷ 17
    ∷ 34 ∷ 51 ∷ 68 ∷ 85 ∷ 102 ∷ 119 ∷ 136 ∷ 153 ∷ 170 ∷ 187 ∷ 204 ∷ 221 ∷ 238 ∷ 255 ∷ []

abbrev own_libraries : Libraries
own_libraries = record libraries { unicode = record unicode { sha256 = digest } }

-- The transport asks the server at once.
abbrev answered_by : {E : Type 0} → Result E ChangesResponse → Result SessionError ChangesResponse
answered_by (ok page) = ok page
answered_by (err e) = err (transport rejected)

abbrev surroundings : Surroundings
surroundings = record {
  libraries = own_libraries;
  push = λ events. err (transport offline);
  changes = λ round since limit. answered_by (changes_since after "ada" since limit);
  committed = λ transaction. true;
  error_text = λ e. "error";
  push_batch = 100;
  pull_page = 200;
}

served : Serves surroundings after "ada"
served round since page h = ap answered_by h

abbrev change : SyncChange
change = record {
  revision = 1;
  operation = favorite_upsert;
  favorite = record {
    content_key = key;
    key_version = 1;
    favorite = snapshot;
    deleted_at = none;
    entity_revision = 1;
    server_received_at = pos 5;
    aggregate_query_stats = some counters;
  };
}

abbrev caught_up : ProfileDatabase
caught_up = (apply_remote_page own_libraries true empty_profile (change ∷ []) 1 (pos 9)).1

pull_run : pull_all surroundings 2 0 empty_profile (pos 9) ≡ some (ok tt, caught_up)
unfolding pull_all changes_since user_changes changes_after insert_ordered order_by_revision
    read_change read_changes last_revision select_changes user_revision favorite_record
    aggregate_stats content_stats summarize checked_total parse_operation update_aggregate
    apply_remote_page page_transaction apply_changes apply_remote_change validate_remote is_identity
    update_aggregate_from_record ensure_stats write_remote_favorite find_row favorite_coalesce_key
    parse_content_key parse_language get put chars utf8 encode_all ascii to_hex hex_digit from_str
    decode_pairs decode_hex parse canonicalize_tag split join valid_primary valid_subtag
    valid_subtags is_alphabetic is_alphanumeric to_lower to_upper all_bytes protocol_name
    filter_chars any_char all_chars trim_start trim_end split_chars nonempty join_words decimal
    trim_terminal_word_punctuation trim collapse_whitespace clean_control_characters classify
    canonicalize content_key prepare prepare_content key_text
pull_run = refl

-- The profile's cursor is the revision of the server.
caught_up_run : caught_up.profile_meta.last_server_revision ≡ 1
unfolding changes_since user_changes changes_after insert_ordered order_by_revision read_change
    read_changes last_revision select_changes user_revision favorite_record aggregate_stats
    content_stats summarize checked_total parse_operation update_aggregate apply_remote_page
    page_transaction apply_changes apply_remote_change validate_remote is_identity
    update_aggregate_from_record ensure_stats write_remote_favorite find_row favorite_coalesce_key
    parse_content_key parse_language get put chars utf8 encode_all ascii to_hex hex_digit from_str
    decode_pairs decode_hex parse canonicalize_tag split join valid_primary valid_subtag
    valid_subtags is_alphabetic is_alphanumeric to_lower to_upper all_bytes protocol_name
    filter_chars any_char all_chars trim_start trim_end split_chars nonempty join_words decimal
    trim_terminal_word_punctuation trim collapse_whitespace clean_control_characters classify
    canonicalize content_key prepare prepare_content key_text
caught_up_run = refl

pull_all-EndsAt_example :
    (run : Run (Unit {0})) × (pull_all surroundings 2 0 empty_profile (pos 9) ≡ some run)
    × EndsAt 1 run
pull_all-EndsAt_example =
    pull_all-EndsAt surroundings after "ada" after_consistent empty_profile (pos 9) 2 served
      (omega arith) (omega arith) (omega arith) (omega arith)
