-- ===== src/Storage/Examples/Renewing.antt =====
-- A new intent takes the place of one that waits.
use lvos.Base.{false, ◌≡◌, refl, true, arith, ok, nat_eq, string_eq}
use lvos.Base.Int.{pos}
use lvos.Base.Text.{chars, utf8, encode_all, ascii}
use lvos.Base.Table.{get, put}
use lvos.Core.ContentKey.{to_hex, hex_digit, from_str, decode_pairs, decode_hex}
use lvos.Core.Content.{key_text}
use lvos.Storage.Model.{ProfileDatabase, favorite_delete}
use lvos.Storage.Outbox.{
  exists_row, favorite_coalesce_key, upsert_outbox, optional_sqlite, write_outbox, is_event,
  is_coalesced, upsert_favorite_event,
}
use lvos.Storage.Profile.{favorite}
use lvos.Storage.Examples.{libraries, key, counter, profile}
use lvos.Core.Content.{protocol_name}
use lvos.Core.LanguageCode.{
  parse, canonicalize_tag, split, join, valid_primary, valid_subtag, valid_subtags, is_alphabetic,
  is_alphanumeric, to_lower, to_upper, all_bytes,
}
use lvos.Storage.Codec.{
  favorite_tx, parse_favorite, parse_content_key, parse_content, parse_kind, parse_language,
  parse_history,
}
use lvos.Storage.Profile.{favorite_from_history_tx, stored_history, activate}
use lvos.Storage.Invariant.Renewed.{Renewed, upsert_favorite_event-Renewed}
use lvos.Storage.Invariant.Reached

-- The favorite was added, and its intent has not been sent.
abbrev waiting : ProfileDatabase
waiting = (favorite libraries "e1" true profile key (pos 3)).1

fresh_run : exists_row (is_event "e2") waiting.sync_outbox ≡ false
unfolding favorite favorite_from_history_tx stored_history parse_history favorite_tx get key_text
    to_hex hex_digit ascii parse_favorite parse_content_key parse_content parse_kind parse_language
    activate put upsert_favorite_event upsert_outbox optional_sqlite write_outbox exists_row
    from_str decode_pairs decode_hex utf8 encode_all chars parse canonicalize_tag split join
    valid_primary valid_subtag valid_subtags is_alphabetic is_alphanumeric to_lower to_upper
    all_bytes protocol_name
fresh_run = refl

-- There is an intent that the new one meets.
waiting_run : exists_row (is_coalesced (favorite_coalesce_key key)) waiting.sync_outbox ≡ true
unfolding favorite favorite_from_history_tx stored_history parse_history favorite_tx get key_text
    to_hex hex_digit ascii parse_favorite parse_content_key parse_content parse_kind parse_language
    activate put upsert_favorite_event upsert_outbox optional_sqlite write_outbox exists_row
    from_str decode_pairs decode_hex utf8 encode_all chars parse canonicalize_tag split join
    valid_primary valid_subtag valid_subtags is_alphabetic is_alphanumeric to_lower to_upper
    all_bytes protocol_name favorite_coalesce_key
waiting_run = refl

upsert_favorite_event-Renewed_example :
    (db' : ProfileDatabase) × (upsert_favorite_event libraries "e2" waiting key "deleted" 0 counter
        (pos 9)
        favorite_delete
      ≡ ok db')
    × Renewed key "e2" "{}" favorite_delete 0 waiting.sync_outbox db'.sync_outbox
upsert_favorite_event-Renewed_example =
    upsert_favorite_event-Renewed libraries "e2" key "deleted" 0 counter (pos 9) favorite_delete
      (Reached.favorited "e1" true key (pos 3) (Reached.opened {db = profile} refl)) fresh_run refl
      (omega arith)
