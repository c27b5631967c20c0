-- ===== src/Core/ContentKey/RoundTrip.antt =====
-- A content key and its hexadecimal form are each recovered from the other.
use Prim.Native.Nat.{bit_or}
use lvos.Base.{
  ℕ, ◌+◌, ◌-◌, sym, ◌*◌, ◌/◌, ◌%◌, ◌<◌, ◌≡◌, refl, ap, ◌∙◌, Bool, List, [], ◌∷◌, arith, length, All,
  ok, ◌==◌, nat_eq, >>=-eq-ok, all_below, all_below-holds, guard,
}
use lvos.Core.ContentKey.{
  ContentKeyParseError, hex_digit, to_hex, decode_hex, decode_pairs, from_str, invalid_length,
}

abbrev pub IsBytes : List ℕ → Type 0
IsBytes bytes = All (λ byte. byte < 256) bytes

joined_test : ℕ → Bool
joined_test high = all_below (λ low. bit_or (high * 16) low == high * 16 + low) 16

bit_or-nibbles : (high low : ℕ) → high < 16 → low < 16 → bit_or (high * 16) low ≡ high * 16 + low
unfolding joined_test all_below
bit_or-nibbles high low h l =
    let row = all_below-holds joined_test 16 high refl h in
    let cell = all_below-holds (λ j. bit_or (high * 16) j == high * 16 + j) 16 low row l in
    (nat_eq.beq_iff (bit_or (high * 16) low) (high * 16 + low)).0 cell

decode_hex-hex_digit : (n : ℕ) → n < 16 → decode_hex (hex_digit n) ≡ ok n
unfolding decode_hex hex_digit
decode_hex-hex_digit n h = ground arith

hex_digit-decode_hex : (byte : ℕ) {n : ℕ} → decode_hex byte ≡ ok n → (n < 16) × (hex_digit n ≡ byte)
unfolding decode_hex hex_digit
hex_digit-decode_hex byte h = ground arith

length-to_hex : (bytes : List ℕ) → length (to_hex bytes) ≡ 2 * length bytes
unfolding to_hex
length-to_hex [] = refl
length-to_hex (byte ∷ bytes) = omega (arith, length-to_hex bytes)

decode_pairs-to_hex : (bytes : List ℕ) → IsBytes bytes → decode_pairs (to_hex bytes) ≡ ok bytes
unfolding decode_pairs to_hex
decode_pairs-to_hex [] h = refl
decode_pairs-to_hex (byte ∷ bytes) h =
    let high = decode_hex-hex_digit (byte / 16) (omega (arith, h.0)) in
    let low = decode_hex-hex_digit (byte % 16) (omega arith) in
    let sum : byte / 16 * 16 + byte % 16 ≡ byte = omega arith in
    let whole = bit_or-nibbles (byte / 16) (byte % 16) (omega (arith, h.0)) (omega arith) ∙ sum in
    rw (high, low, decode_pairs-to_hex bytes h.1) (ap (λ b. ok (b ∷ bytes)) whole)

to_hex-decode_pairs :
    (value : List ℕ) (half : ℕ) {bytes : List ℕ}
    → length value ≡ 2 * half
    → decode_pairs value ≡ ok bytes
    → (to_hex bytes ≡ value) × (length bytes ≡ half) × IsBytes bytes
unfolding decode_pairs to_hex
to_hex-decode_pairs [] half {bytes} even h =
    let empty : bytes ≡ [] = ground (arith, h) in rw empty (refl, omega (arith, even), tt)
to_hex-decode_pairs (a ∷ []) half even h = absurd (omega arith)
to_hex-decode_pairs (a ∷ b ∷ rest) half {bytes} even h =
    let (high, h1, k1) = >>=-eq-ok (decode_hex a) _ h in
    let (low, h2, k2) = >>=-eq-ok (decode_hex b) _ k1 in
    let (others, h3, k3) = >>=-eq-ok (decode_pairs rest) _ k2 in
    let (low_high, same_high) = hex_digit-decode_hex a h1 in
    let (low_low, same_low) = hex_digit-decode_hex b h2 in
    let (same, count, small) = to_hex-decode_pairs rest (half - 1) (omega (arith, even)) h3 in
    let byte = high * 16 + low in
    let whole : bytes ≡ byte ∷ others =
      sym (ground (arith, k3)) ∙ ap (λ x. x ∷ others) (bit_or-nibbles high low low_high low_low) in
    let first : byte / 16 ≡ high = omega (arith, low_low) in
    let second : byte % 16 ≡ low = omega (arith, low_low) in
    rw whole (
      rw (first, second, same_high, same_low, same) refl,
      omega (arith, count, even),
      (omega (arith, low_high, low_low), small),
    )

guard-64 : (n : ℕ) (e : ContentKeyParseError) → guard (n == 64) e ≡ ok tt → n ≡ 2 * 32
guard-64 n e h = ground arith

-- The printed form of a key of 32 bytes is read as the same key.
pub from_str-to_hex :
    (key : List ℕ) → IsBytes key → length key ≡ 32 → from_str (to_hex key) ≡ ok key
unfolding from_str
from_str-to_hex key h size =
    let count : length (to_hex key) ≡ 64 = omega (arith, length-to_hex key, size) in
    rw count (decode_pairs-to_hex key h)

-- A text that is read as a key is the printed form of that key, which has 32 bytes: a key has one
-- text only.
pub to_hex-from_str :
    (value : List ℕ) {key : List ℕ}
    → from_str value ≡ ok key
    → (to_hex key ≡ value) × (length key ≡ 32) × IsBytes key
unfolding from_str
to_hex-from_str value h =
    let (_, size, decoded) = >>=-eq-ok (guard (length value == 64) invalid_length) _ h in
    to_hex-decode_pairs value 32 (guard-64 (length value) invalid_length size) decoded
