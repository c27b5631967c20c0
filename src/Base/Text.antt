-- ===== src/Base/Text.antt =====
-- Texts as lists of characters, and their UTF-8 bytes.
use Prim.Native.Char.{Char, char, code, IsScalar}
use Prim.Native.Nat.{ℕ, ◌+◌, ◌/◌, ◌%◌, ◌<◌}
use Prim.Native.String.{String}
use mathlib.Core.Path.{◌≡◌, refl, ap}
use mathlib.Core.List.{List, [], ◌∷◌, map}
use native.Mathlib.Omega.{arith}
use lvos.Base.Tests.{ltb, if◌then◌else◌}

-- `str::chars`
unfoldable pub chars : String → List Char
chars String.[] = []
chars (String.◌∷◌ c s) = c ∷ chars s

-- `collect::<String>`
abbrev pub collect_text : List Char → String
collect_text [] = String.[]
collect_text (c ∷ cs) = String.◌∷◌ c (collect_text cs)

pub chars-collect_text : (cs : List Char) → chars (collect_text cs) ≡ cs
unfolding chars
chars-collect_text [] = refl
chars-collect_text (c ∷ cs) = ap (λ rest. c ∷ rest) (chars-collect_text cs)

-- The bytes of a character's number in UTF-8, in front of further bytes.
abbrev pub encode : ℕ → List ℕ → List ℕ
encode n rest =
    if ltb n 128
    then n ∷ rest
    else if ltb n 2048
    then (192 + n / 64) ∷ (128 + n % 64) ∷ rest
    else if ltb n 65536
    then (224 + n / 4096) ∷ (128 + n / 64 % 64) ∷ (128 + n % 64) ∷ rest
    else (240 + n / 262144) ∷ (128 + n / 4096 % 64) ∷ (128 + n / 64 % 64) ∷ (128 + n % 64) ∷ rest

unfoldable pub encode_all : List Char → List ℕ
encode_all [] = []
encode_all (c ∷ cs) = encode (code c) (encode_all cs)

-- `str::as_bytes`
unfoldable pub utf8 : String → List ℕ
unfolding encode_all chars
utf8 value = encode_all (chars value)

pub small-IsScalar : (n : ℕ) → n < 128 → IsScalar n
small-IsScalar n less = ground arith

pub mod_small : (n : ℕ) → n % 128 < 128
mod_small n = omega arith

abbrev pub ascii_char : ℕ → Char
ascii_char n = char (n % 128) (small-IsScalar (n % 128) (mod_small n))

-- The text of a list of bytes below 128.
unfoldable pub ascii : List ℕ → String
ascii bytes = collect_text (map ascii_char bytes)

utf8_test : utf8 "aé€" ≡ 97 ∷ 195 ∷ 169 ∷ 226 ∷ 130 ∷ 172 ∷ []
unfolding utf8 encode_all chars
utf8_test = refl

ascii_test : ascii (101 ∷ 110 ∷ []) ≡ "en"
unfolding ascii
ascii_test = refl
