-- ===== src/Core/LanguageCode.antt =====
-- Language codes (crates/core/src/language.rs). A text is the list of its UTF-8 bytes.
pub mod Parts
pub mod Canonical
use lvos.Base.{
  ℕ, ◌+◌, ◌-◌, Bool, true, false, ◌&&◌, ◌||◌, not, List, [], ◌∷◌, ◌++◌, map, ltb, leb, ◌==◌, nat_eq,
  if◌then◌else◌, length, Result, ok, err, ◌>>=◌, ◌>>◌, guard,
}

pub data LanguageCodeError : Type 0 where
  empty too_long invalid_character invalid_primary_subtag invalid_subtag : LanguageCodeError

abbrev pub is_upper : ℕ → Bool
is_upper byte = leb b'A' byte && leb byte b'Z'

abbrev pub is_lower : ℕ → Bool
is_lower byte = leb b'a' byte && leb byte b'z'

abbrev pub is_digit : ℕ → Bool
is_digit byte = leb b'0' byte && leb byte b'9'

unfoldable pub is_alphabetic : ℕ → Bool
is_alphabetic byte = is_upper byte || is_lower byte

unfoldable pub is_alphanumeric : ℕ → Bool
unfolding is_alphabetic
is_alphanumeric byte = is_alphabetic byte || is_digit byte

unfoldable pub to_lower : ℕ → ℕ
to_lower byte = if is_upper byte then byte + 32 else byte

unfoldable pub to_upper : ℕ → ℕ
to_upper byte = if is_lower byte then byte - 32 else byte

-- `bytes().all(...)`
unfoldable pub all_bytes : (ℕ → Bool) → List ℕ → Bool
all_bytes test [] = true
all_bytes test (byte ∷ bytes) = test byte && all_bytes test bytes

-- The part before the first separator, and the parts after it.
pub record Split : Type 0 where
  pub first : List ℕ
  pub rest : List (List ℕ)

-- `value.split('-')`
unfoldable pub split : List ℕ → Split
split [] = record { first = []; rest = [] }
split (byte ∷ bytes) =
    let parts = split bytes in
    if byte == b'-'
    then record { first = []; rest = parts.first ∷ parts.rest }
    else record { first = byte ∷ parts.first; rest = parts.rest }

-- `join("-")`
unfoldable pub join : List ℕ → List (List ℕ) → List ℕ
join first [] = first
join first (part ∷ rest) = first ++ b'-' ∷ join part rest

abbrev pub canonical_part : List ℕ → List ℕ
canonical_part part =
    if length part == 2 && all_bytes is_alphabetic part
    then map to_upper part
    else map to_lower part

unfoldable pub canonicalize_tag : List ℕ → List ℕ
canonicalize_tag value =
    let parts = split value in join (map to_lower parts.first) (map canonical_part parts.rest)

abbrev pub is_ascii : ℕ → Bool
is_ascii byte = ltb byte 128

unfoldable pub valid_primary : List ℕ → Bool
valid_primary primary =
    leb 2 (length primary) && (leb (length primary) 8 && all_bytes is_alphabetic primary)

unfoldable pub valid_subtag : List ℕ → Bool
valid_subtag part =
    not (length part == 0) && (leb (length part) 8 && all_bytes is_alphanumeric part)

unfoldable pub valid_subtags : List (List ℕ) → Bool
valid_subtags [] = true
valid_subtags (part ∷ parts) = valid_subtag part && valid_subtags parts

unfoldable pub parse : List ℕ → Result LanguageCodeError (List ℕ)
parse value = do
  guard (not (length value == 0)) empty
  guard (leb (length value) 35) too_long
  guard (all_bytes is_ascii value) invalid_character
  guard (valid_primary (split value).first) invalid_primary_subtag
  guard (valid_subtags (split value).rest) invalid_subtag
  ok (canonicalize_tag value)
