-- ===== src/Storage/Examples/Mirroring.antt =====
-- A page that is applied in full.
use lvos.Base.{◌≡◌, refl, true, ok, [], ◌∷◌, nat_eq, string_eq}
use lvos.Base.Int.{pos}
use lvos.Base.Text.{chars, utf8, encode_all, ascii}
use lvos.Base.Table.{get, put}
use lvos.Core.ContentKey.{to_hex, hex_digit, from_str, decode_pairs, decode_hex}
use lvos.Core.LanguageCode.{
  parse, canonicalize_tag, split, join, valid_primary, valid_subtag, valid_subtags, is_alphabetic,
  is_alphanumeric, to_lower, to_upper, all_bytes,
}
use lvos.Core.Content.{
  protocol_name, filter_chars, any_char, all_chars, trim_start, trim_end, split_chars, nonempty,
  join_words, decimal, trim_terminal_word_punctuation, trim, collapse_whitespace,
  clean_control_characters, classify, canonicalize, content_key, prepare, prepare_content, key_text,
}
use lvos.Storage.Model.{ProfileDatabase}
use lvos.Storage.Codec.{parse_content_key, parse_language}
use lvos.Storage.Outbox.{find_row, favorite_coalesce_key}
use lvos.Storage.Remote.{
  validate_remote, is_identity, update_aggregate_from_record, ensure_stats, write_remote_favorite,
}
use lvos.Storage.Page.{apply_remote_page, page_transaction, apply_changes, apply_remote_change}
use lvos.Storage.Page.Mirror.{Mirrors, last_change, apply_remote_page-Mirrors}
use lvos.Storage.Examples.{libraries, key, empty_profile, change}

abbrev paged : ProfileDatabase
paged = (apply_remote_page libraries true empty_profile (change ∷ []) 1 (pos 9)).1

paged_run : apply_remote_page libraries true empty_profile (change ∷ []) 1 (pos 9) ≡ (ok tt, paged)
unfolding apply_remote_page page_transaction apply_changes apply_remote_change validate_remote
    is_identity update_aggregate_from_record ensure_stats write_remote_favorite find_row
    favorite_coalesce_key parse_content_key parse_language get put chars utf8 encode_all ascii
    to_hex hex_digit from_str decode_pairs decode_hex parse canonicalize_tag split join
    valid_primary valid_subtag valid_subtags is_alphabetic is_alphanumeric to_lower to_upper
    all_bytes protocol_name filter_chars any_char all_chars trim_start trim_end split_chars nonempty
    join_words decimal trim_terminal_word_punctuation trim collapse_whitespace
    clean_control_characters classify canonicalize content_key prepare prepare_content key_text
paged_run = refl

apply_remote_page-Mirrors_example :
    Mirrors
      (last_change (key_text key) (change ∷ []))
      (get empty_profile.favorites (key_text key))
      (get paged.favorites (key_text key))
    × (paged.sync_outbox ≡ [])
apply_remote_page-Mirrors_example =
    apply_remote_page-Mirrors libraries true empty_profile (change ∷ []) 1 (pos 9) (key_text key)
      refl paged_run
