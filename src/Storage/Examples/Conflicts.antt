-- ===== src/Storage/Examples/Conflicts.antt =====
-- A refused intent meets another translation on the server.
use lvos.Base.{◌≡◌, refl, true, none, some, ◌∷◌, [], ok, arith, string_eq, nat_eq}
use lvos.Base.Int.{pos}
use lvos.Base.Text.{chars, utf8, encode_all, ascii}
use lvos.Base.Table.{get}
use lvos.Protocol.{FavoriteRecord}
use lvos.Core.ContentKey.{to_hex, hex_digit, from_str, decode_pairs, decode_hex}
use lvos.Core.LanguageCode.{
  parse, canonicalize_tag, split, join, valid_primary, valid_subtag, valid_subtags, is_alphabetic,
  is_alphanumeric, to_lower, to_upper, all_bytes,
}
use lvos.Core.Content.{key_text, word}
use lvos.Storage.Model.{ProfileDatabase, Favorite}
use lvos.Storage.Codec.{
  local_favorite, parse_local, parse_content, parse_kind, parse_language, parse_content_key,
}
use lvos.Storage.Outbox.{find_row, favorite_coalesce_key}
use lvos.Storage.Outbox.Pending.{pending}
use lvos.Storage.Conflict.{ConflictResolution, resolve_conflict}
use lvos.Storage.Conflict.Decision.{IsStorable}
use lvos.Storage.Conflict.Resolution.{Decided, resolve_conflict-Decided}
use lvos.Storage.Examples.{key, favored, queued, change}
use lvos.Storage.Examples.Syncing.{event}

abbrev remote : FavoriteRecord
remote = record change.favorite { favorite = record change.favorite.favorite { translation = "走" } }

abbrev local : Favorite
local = record {
  content = record {
    content_key = key;
    key_version = 1;
    kind = word;
    source_lang = b'e' ∷ b'n' ∷ [];
    source_text = "run";
    canonical_text = "run";
  };
  translation = record {
    target_lang = b'z' ∷ b'h' ∷ [];
    translation = "跑";
    provider = "p";
    updated_at = pos 3;
  };
  created_at = pos 3;
  updated_at = pos 3;
  deleted_at = none;
  entity_revision = 0;
}

local_run : local_favorite favored key ≡ ok (some local)
unfolding local_favorite get key_text to_hex hex_digit ascii parse_local parse_content parse_kind
    parse_language chars utf8 encode_all parse canonicalize_tag split join valid_primary
    valid_subtag valid_subtags is_alphabetic is_alphanumeric to_lower to_upper all_bytes
local_run = refl

pending_run : pending favored key ≡ some queued
unfolding find_row favorite_coalesce_key key_text to_hex hex_digit ascii
pending_run = refl

remote-IsStorable : IsStorable remote
unfolding parse_content_key from_str decode_pairs decode_hex chars utf8 encode_all
remote-IsStorable = record {
  key = key;
  parsed = refl;
  named = refl;
  revision = omega arith;
  count = λ aggregate none_left. absurd (ground (arith, none_left));
}

resolve_conflict-Decided_example :
    (resolution : ConflictResolution) × (db' : ProfileDatabase) × (resolve_conflict true favored
        event
        (some remote)
        (pos 9)
      ≡ (ok resolution, db'))
    × Decided event local queued (some remote) db' resolution
resolve_conflict-Decided_example =
    resolve_conflict-Decided favored event (some remote) (pos 9) local queued refl local_run
      pending_run remote-IsStorable
