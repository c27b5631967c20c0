-- ===== src/Core/ContentKey.antt =====
-- Content keys and their hexadecimal form (crates/core/src/content.rs). A key is a list of 32
-- bytes; a text is the list of its UTF-8 bytes.
pub mod RoundTrip
use Prim.Native.Nat.{bit_or}
use lvos.Base.{
  ℕ, ◌+◌, ◌-◌, ◌*◌, ◌/◌, ◌%◌, ◌&&◌, List, [], ◌∷◌, ltb, leb, ◌==◌, nat_eq, if◌then◌else◌, length,
  Result, ok, err, ◌>>=◌, ◌>>◌, guard,
}

pub data ContentKeyParseError : Type 0 where
  invalid_length invalid_hex : ContentKeyParseError

-- The digit that `{:02x}` prints for a value below 16.
unfoldable pub hex_digit : ℕ → ℕ
hex_digit n = if ltb n 10 then b'0' + n else b'a' + (n - 10)

-- `ContentKey::to_hex`, and the loop that prints a digest.
unfoldable pub to_hex : List ℕ → List ℕ
unfolding hex_digit
to_hex [] = []
to_hex (byte ∷ bytes) = hex_digit (byte / 16) ∷ hex_digit (byte % 16) ∷ to_hex bytes

unfoldable pub decode_hex : ℕ → Result ContentKeyParseError ℕ
decode_hex byte =
    if leb b'0' byte && leb byte b'9'
    then ok (byte - b'0')
    else if leb b'a' byte && leb byte b'f'
    then ok (byte - b'a' + 10)
    else err invalid_hex

-- The loop over `chunks_exact(2)`; a last byte with no partner is dropped.
unfoldable pub decode_pairs : List ℕ → Result ContentKeyParseError (List ℕ)
unfolding decode_hex
decode_pairs [] = ok []
decode_pairs (a ∷ []) = ok []
decode_pairs (a ∷ b ∷ rest) = do
  high ← decode_hex a
  low ← decode_hex b
  bytes ← decode_pairs rest
  ok (bit_or (high * 16) low ∷ bytes)

unfoldable pub from_str : List ℕ → Result ContentKeyParseError (List ℕ)
unfolding decode_pairs
from_str value = do guard (length value == 64) invalid_length; decode_pairs value
