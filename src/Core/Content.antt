-- ===== src/Core/Content.antt =====
-- Captured text becomes a content with its identity (crates/core/src/content.rs). What Rust's
-- `char` methods, the Unicode crates and SHA-256 answer is the argument Unicode; a text is walked
-- as the list of its characters.
pub mod Stable
use Prim.Native.Char.{Char, code}
use lvos.Base.{
  ℕ, zero, suc, ◌+◌, ◌/◌, ◌%◌, String, Bool, true, false, ◌&&◌, ◌||◌, not, List, [], ◌∷◌, ◌++◌, map,
  leb, ltb, ◌==◌, nat_eq, if◌then◌else◌, length, Result, ok, err, ◌>>=◌, ◌>>◌, guard,
}
use lvos.Base.Text.{chars, collect_text, utf8, ascii, ascii_char}
use lvos.Core.ContentKey.{to_hex}

pub record Unicode : Type 0 where
  pub is_control : Char → Bool
  pub is_whitespace : Char → Bool
  pub is_alphabetic : Char → Bool
  pub is_alphanumeric : Char → Bool
  pub is_combining_mark : Char → Bool
  pub is_latin : Char → Bool
  pub nfc : List Char → List Char
  pub case_fold : List Char → List Char
  pub sha256 : List ℕ → List ℕ

pub data TextKind : Type 0 where
  word text : TextKind

unfoldable pub protocol_name : TextKind → String
protocol_name word = "word"
protocol_name text = "text"

pub data ValidationError : Type 0 where
  empty : ValidationError
  too_long : ℕ → ValidationError
  no_latin_text : ValidationError

abbrev pub content_key_version : ℕ
content_key_version = 1

abbrev pub normalization_version : ℕ
normalization_version = 1

-- `source_lang` is the canonical tag.
pub record CanonicalContent : Type 0 where
  pub key_version : ℕ
  pub normalization_version : ℕ
  pub kind : TextKind
  pub source_lang : List ℕ
  pub text : String

pub record PreparedContent : Type 0 where
  pub source_text : String
  pub canonical : CanonicalContent
  pub content_key : List ℕ

unfoldable pub filter_chars : (Char → Bool) → List Char → List Char
filter_chars test [] = []
filter_chars test (c ∷ cs) = let rest = filter_chars test cs in if test c then c ∷ rest else rest

unfoldable pub any_char : (Char → Bool) → List Char → Bool
any_char test [] = false
any_char test (c ∷ cs) = test c || any_char test cs

unfoldable pub all_chars : (Char → Bool) → List Char → Bool
all_chars test [] = true
all_chars test (c ∷ cs) = test c && all_chars test cs

abbrev pub is_empty : List Char → Bool
is_empty [] = true
is_empty (c ∷ cs) = false

-- `trim_start_matches`
unfoldable pub trim_start : (Char → Bool) → List Char → List Char
trim_start test [] = []
trim_start test (c ∷ cs) = let rest = trim_start test cs in if test c then rest else c ∷ cs

-- `trim_end_matches`
unfoldable pub trim_end : (Char → Bool) → List Char → List Char
trim_end test [] = []
trim_end test (c ∷ cs) =
    let rest = trim_end test cs in if is_empty rest && test c then [] else c ∷ rest

-- What stands before the first separator, and the parts after it.
pub record Words : Type 0 where
  pub first : List Char
  pub rest : List (List Char)

unfoldable pub split_chars : (Char → Bool) → List Char → Words
split_chars test [] = record { first = []; rest = [] }
split_chars test (c ∷ cs) =
    let parts = split_chars test cs in
    if test c
    then record { first = []; rest = parts.first ∷ parts.rest }
    else record { first = c ∷ parts.first; rest = parts.rest }

unfoldable pub nonempty : List (List Char) → List (List Char)
nonempty [] = []
nonempty (part ∷ parts) = let rest = nonempty parts in if is_empty part then rest else part ∷ rest

unfoldable pub join_words : List (List Char) → List Char
join_words [] = []
join_words (part ∷ []) = part
join_words (part ∷ next ∷ parts) = part ++ ascii_char b' ' ∷ join_words (next ∷ parts)

-- `to_string` of a `u32`, which has at most ten digits; the argument counts them.
unfoldable pub decimal : ℕ → ℕ → List ℕ
decimal zero n = []
decimal (suc digits) n =
    let front = decimal digits (n / 10) in
    if ltb n 10 then (b'0' + n) ∷ [] else front ++ (b'0' + n % 10) ∷ []

-- Text that stands for the trailing bytes `.`, `,`, `!`, `?`, `:` and `;`.
abbrev pub is_terminal : Char → Bool
is_terminal c =
    code c == b'.'
    || (code c == b','
        || (code c == b'!' || (code c == b'?' || (code c == b':' || code c == b';'))))

unfoldable pub trim_terminal_word_punctuation : List Char → List Char
unfolding trim_end
trim_terminal_word_punctuation value = trim_end is_terminal value

-- 8217 is the right single quotation mark.
abbrev pub is_word_character : Unicode → Char → Bool
is_word_character unicode c =
    unicode.is_alphanumeric c
    || (unicode.is_combining_mark c || (code c == b'-' || (code c == 39 || code c == 8217)))

module _ (unicode : Unicode) where
  -- `str::trim`
  unfoldable pub trim : List Char → List Char
  unfolding trim_start trim_end
  trim value = trim_end unicode.is_whitespace (trim_start unicode.is_whitespace value)

  -- `split_whitespace` skips the empty parts.
  unfoldable pub collapse_whitespace : List Char → List Char
  unfolding split_chars nonempty join_words
  collapse_whitespace value =
      let parts = split_chars unicode.is_whitespace value in
      join_words (nonempty (parts.first ∷ parts.rest))

  abbrev pub is_kept : Char → Bool
  is_kept c = not (unicode.is_control c) || unicode.is_whitespace c

  unfoldable pub clean_control_characters : List Char → List Char
  unfolding filter_chars
  clean_control_characters value = filter_chars is_kept value

  unfoldable pub classify : List Char → TextKind
  unfolding trim_terminal_word_punctuation any_char all_chars
  classify value =
      let token = trim_terminal_word_punctuation value in
      if not (is_empty token)
        && (any_char unicode.is_alphabetic token && all_chars (is_word_character unicode) token)
      then word
      else text

  unfoldable pub canonicalize : List Char → TextKind → List Char
  unfolding trim trim_terminal_word_punctuation collapse_whitespace
  canonicalize value word = unicode.nfc (
      unicode.case_fold
        (unicode.nfc (collapse_whitespace (trim (trim_terminal_word_punctuation value)))))
  canonicalize value text = unicode.nfc (collapse_whitespace value)

  -- `CanonicalContent::content_key`
  unfoldable pub content_key : CanonicalContent → List ℕ
  unfolding decimal protocol_name utf8
  content_key canonical = unicode.sha256 (
      decimal 10 canonical.key_version
      ++ 0
        ∷ (utf8 (protocol_name canonical.kind)
            ++ 0 ∷ (canonical.source_lang ++ 0 ∷ utf8 canonical.text)))

  abbrev pub canonical_content : List Char → List ℕ → CanonicalContent
  canonical_content source_text source_lang =
      let kind = classify source_text in
      record {
        key_version = content_key_version;
        normalization_version = normalization_version;
        kind = kind;
        source_lang = source_lang;
        text = collect_text (canonicalize source_text kind);
      }

  unfoldable pub prepare : List Char → List ℕ → ℕ → Result ValidationError PreparedContent
  unfolding any_char
  prepare source_text source_lang max_characters = do
    guard (not (is_empty source_text)) empty
    guard (leb (length source_text) max_characters) (too_long max_characters)
    guard (any_char (λ c. unicode.is_latin c && unicode.is_alphabetic c) source_text) no_latin_text
    let canonical = canonical_content source_text source_lang
    ok (record {
      source_text = collect_text source_text;
      canonical = canonical;
      content_key = content_key canonical;
    })

  unfoldable pub prepare_content : String → List ℕ → ℕ → Result ValidationError PreparedContent
  unfolding trim clean_control_characters chars
  prepare_content raw_text source_lang max_characters =
      prepare (trim (clean_control_characters (chars raw_text))) source_lang max_characters

-- A key as it is printed into columns, messages and coalesce keys.
unfoldable pub key_text : List ℕ → String
unfolding to_hex ascii
key_text key = ascii (to_hex key)
