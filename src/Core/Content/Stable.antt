-- ===== src/Core/Content/Stable.antt =====
-- Prepared text is a fixed point of the preparation: what is stored or sent can be prepared again.
use Prim.Native.Char.{Char}
use lvos.Base.{
  ℕ, String, ◌≡◌, refl, ap, ◌∙◌, Bool, true, List, [], ◌∷◌, arith, ok, >>=-eq-ok, guard, length,
  leb, not, ◌&&◌,
}
use lvos.Base.Text.{chars, collect_text, chars-collect_text}
use lvos.Core.Content.{
  Unicode, PreparedContent, empty, too_long, no_latin_text, filter_chars, all_chars, any_char,
  is_empty, trim_start, trim_end, trim, is_kept, clean_control_characters, prepare, prepare_content,
}

module _ (test : Char → Bool) where
  filter_chars-all_chars : (cs : List Char) → all_chars test (filter_chars test cs) ≡ true
  unfolding filter_chars all_chars
  filter_chars-all_chars [] = refl
  filter_chars-all_chars (c ∷ cs) = ground (arith, filter_chars-all_chars cs)

  filter_chars_kept : (cs : List Char) → all_chars test cs ≡ true → filter_chars test cs ≡ cs
  unfolding filter_chars all_chars
  filter_chars_kept [] h = refl
  filter_chars_kept (c ∷ cs) h = ground (arith, filter_chars_kept cs)

module _ (space test : Char → Bool) where
  all_chars-trim_start :
      (cs : List Char) → all_chars test cs ≡ true → all_chars test (trim_start space cs) ≡ true
  unfolding all_chars trim_start
  all_chars-trim_start [] h = refl
  all_chars-trim_start (c ∷ cs) h = ground (arith, all_chars-trim_start cs)

  all_chars-trim_end :
      (cs : List Char) → all_chars test cs ≡ true → all_chars test (trim_end space cs) ≡ true
  unfolding all_chars trim_end
  all_chars-trim_end [] h = refl
  all_chars-trim_end (c ∷ cs) h = ground (arith, all_chars-trim_end cs)

module _ (space : Char → Bool) where
  -- A text with no space in front.
  abbrev begins_clean : List Char → Bool
  begins_clean [] = true
  begins_clean (c ∷ cs) = not (space c)

  trim_start-begins_clean : (cs : List Char) → begins_clean (trim_start space cs) ≡ true
  unfolding trim_start
  trim_start-begins_clean [] = refl
  trim_start-begins_clean (c ∷ cs) = ground (arith, trim_start-begins_clean cs)

  trim_end-begins_clean :
      (cs : List Char) → begins_clean cs ≡ true → begins_clean (trim_end space cs) ≡ true
  unfolding trim_end
  trim_end-begins_clean [] h = refl
  trim_end-begins_clean (c ∷ cs) h = ground arith

  trim_start_kept : (cs : List Char) → begins_clean cs ≡ true → trim_start space cs ≡ cs
  unfolding trim_start
  trim_start_kept [] h = refl
  trim_start_kept (c ∷ cs) h = ground arith

  trim_end_kept : (cs : List Char) → trim_end space (trim_end space cs) ≡ trim_end space cs
  unfolding trim_end
  trim_end_kept [] = refl
  trim_end_kept (c ∷ cs) = ground (arith, trim_end_kept cs)

module _ (unicode : Unicode) where
  cleaned : List Char → List Char
  unfolding trim clean_control_characters
  cleaned raw = trim unicode (clean_control_characters unicode raw)

  cleaned_kept : (raw : List Char) → cleaned (cleaned raw) ≡ cleaned raw
  unfolding cleaned trim clean_control_characters
  cleaned_kept raw =
      let space = unicode.is_whitespace in
      let kept = is_kept unicode in
      let begun = trim_start space (filter_chars kept raw) in
      let all : all_chars kept (trim_end space begun) ≡ true = all_chars-trim_end space kept begun (
        all_chars-trim_start space kept (filter_chars kept raw)
          (filter_chars-all_chars kept raw)) in
      let clean =
        trim_end-begins_clean space begun (trim_start-begins_clean space (filter_chars kept raw)) in
      rw
        (
          filter_chars_kept kept (trim_end space begun) all,
          trim_start_kept space (trim_end space begun) clean,
        )
        (trim_end_kept space begun)

  prepare-source_text :
      (source : List Char) (source_lang : List ℕ) (max_characters : ℕ) {prepared : PreparedContent}
      → prepare unicode source source_lang max_characters ≡ ok prepared
      → prepared.source_text ≡ collect_text source
  unfolding prepare
  prepare-source_text source source_lang max_characters h =
      let (a, first, h1) = >>=-eq-ok (guard (not (is_empty source)) empty) _ h in
      let (b, second, h2) =
        >>=-eq-ok (guard (leb (length source) max_characters) (too_long max_characters)) _ h1 in
      let (c, third, h3) =
        >>=-eq-ok
          (guard (any_char (λ (c : Char). unicode.is_latin c && unicode.is_alphabetic c) source)
            no_latin_text)
          _ h2 in
      ground arith

-- The source text of a prepared content can be prepared again, for the same language and limit: it
-- gives the same content, with the same text and key.
pub prepare_content-source_text :
    (unicode : Unicode) (raw_text : String) (source_lang : List ℕ) (max_characters : ℕ)
    {prepared : PreparedContent}
    → prepare_content unicode raw_text source_lang max_characters ≡ ok prepared
    → prepare_content unicode prepared.source_text source_lang max_characters ≡ ok prepared
unfolding prepare_content cleaned
prepare_content-source_text unicode raw_text source_lang max_characters {prepared} h =
    let source = cleaned unicode (chars raw_text) in
    let same = prepare-source_text unicode source source_lang max_characters h in
    ap (λ (value : String). prepare_content unicode value source_lang max_characters) same
    ∙ rw (chars-collect_text source, cleaned_kept unicode (chars raw_text)) h
