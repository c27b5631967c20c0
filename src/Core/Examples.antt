-- ===== src/Core/Examples.antt =====
-- A key and a code, printed and read.
use lvos.Base.{ℕ, ◌≤◌, ◌≡◌, refl, [], ◌∷◌, List, ok, length, arith, nat_eq}
use lvos.Core.ContentKey.{to_hex, from_str, hex_digit, decode_hex, decode_pairs}
use lvos.Core.ContentKey.RoundTrip.{IsBytes, from_str-to_hex, to_hex-from_str}
use lvos.Core.LanguageCode.{
  parse, canonicalize_tag, split, join, all_bytes, is_alphabetic, is_alphanumeric, to_lower,
  to_upper, valid_primary, valid_subtag, valid_subtags,
}
use lvos.Core.LanguageCode.Canonical.{parse-canonical}

abbrev eight : List ℕ → List ℕ
eight rest = 0 ∷ 17 ∷ 34 ∷ 51 ∷ 68 ∷ 170 ∷ 187 ∷ 255 ∷ rest

abbrev content_key : List ℕ
content_key = eight (eight (eight (eight [])))

content_key-IsBytes : IsBytes content_key
content_key-IsBytes = ground arith

from_str-to_hex_example : from_str (to_hex content_key) ≡ ok content_key
from_str-to_hex_example = from_str-to_hex content_key content_key-IsBytes refl

read_key : from_str (to_hex content_key) ≡ ok content_key
unfolding from_str to_hex hex_digit decode_hex decode_pairs
read_key = refl

to_hex-from_str_example :
    (to_hex content_key ≡ to_hex content_key) × (length content_key ≡ 32) × IsBytes content_key
to_hex-from_str_example = to_hex-from_str (to_hex content_key) read_key

-- ZH-cn
abbrev typed : List ℕ
typed = b'Z' ∷ b'H' ∷ b'-' ∷ b'c' ∷ b'n' ∷ []

-- zh-CN
abbrev canonical : List ℕ
canonical = b'z' ∷ b'h' ∷ b'-' ∷ b'C' ∷ b'N' ∷ []

parse-canonical_example :
    (length canonical ≡ 5) × (length canonical ≤ 35) × (parse canonical ≡ ok canonical)
unfolding parse canonicalize_tag split join all_bytes is_alphabetic is_alphanumeric to_lower
    to_upper valid_primary valid_subtag valid_subtags
parse-canonical_example = parse-canonical typed {code = canonical} refl
