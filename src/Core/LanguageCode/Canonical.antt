-- ===== src/Core/LanguageCode/Canonical.antt =====
-- A parsed code is canonical: it is parsed as itself (crates/core/src/language.rs).
use lvos.Base.{
  ℕ, ◌≤◌, ◌≡◌, refl, ap, ◌∙◌, not, List, [], ◌∷◌, map, arith, ok, >>=-eq-ok, guard, length, nat_eq,
  ◌==◌, leb,
}
use lvos.Core.LanguageCode.{
  is_alphabetic, is_alphanumeric, to_lower, all_bytes, Split, split, join, canonical_part,
  canonicalize_tag, is_ascii, valid_primary, valid_subtag, valid_subtags, parse, empty, too_long,
  invalid_character, invalid_primary_subtag, invalid_subtag,
}
use lvos.Core.LanguageCode.Parts.{
  AllNoDash, all_bytes-map, canonical_part-all, canonical_part-length, canonical_part-twice,
  join-all, join-split, length-join, length-map, map-twice, not_dash, split-NoDash, split-join,
  to_lower-alphabetic, to_lower-alphanumeric, to_lower-ascii, to_lower-dash, to_lower-twice,
  to_upper-alphanumeric, to_upper-ascii, to_upper-dash,
}

map-NoDash : (rest : List (List ℕ)) → AllNoDash rest → AllNoDash (map canonical_part rest)
map-NoDash [] h = tt
map-NoDash (part ∷ rest) h = (
  canonical_part-all not_dash (λ b. ap not (to_lower-dash b)) (λ b. ap not (to_upper-dash b)) part
      ∙ h.0,
  map-NoDash rest h.1,
)

map-valid_subtags :
    (rest : List (List ℕ)) → valid_subtags (map canonical_part rest) ≡ valid_subtags rest
unfolding valid_subtags valid_subtag
map-valid_subtags [] = refl
map-valid_subtags (part ∷ rest) =
    rw
      (
        canonical_part-length part,
        canonical_part-all is_alphanumeric to_lower-alphanumeric to_upper-alphanumeric part,
        map-valid_subtags rest,
      )
      refl

map-canonical_part :
    (rest : List (List ℕ)) → map canonical_part (map canonical_part rest) ≡ map canonical_part rest
map-canonical_part [] = refl
map-canonical_part (part ∷ rest) = rw (canonical_part-twice part, map-canonical_part rest) refl

split-canonicalize_tag :
    (value : List ℕ)
    → split (canonicalize_tag value) ≡ record {
      first = map to_lower (split value).first;
      rest = map canonical_part (split value).rest;
    }
unfolding canonicalize_tag
split-canonicalize_tag value =
    let (h, hs) = split-NoDash value in
    split-join (map to_lower (split value).first) (map canonical_part (split value).rest)
      (all_bytes-map to_lower not_dash (λ b. ap not (to_lower-dash b)) (split value).first ∙ h)
      (map-NoDash (split value).rest hs)

canonicalize_tag-twice :
    (value : List ℕ) → canonicalize_tag (canonicalize_tag value) ≡ canonicalize_tag value
unfolding canonicalize_tag
canonicalize_tag-twice value =
    let parts = split-canonicalize_tag value in
    ap (λ (s : Split). join (map to_lower s.first) (map canonical_part s.rest)) parts
    ∙ rw
        (
          map-twice to_lower to_lower-twice (split value).first,
          map-canonical_part (split value).rest,
        )
        refl

length-canonicalize_tag : (value : List ℕ) → length (canonicalize_tag value) ≡ length value
unfolding canonicalize_tag
length-canonicalize_tag value =
    length-join (split value).first (map to_lower (split value).first) (split value).rest
      (length-map to_lower (split value).first)
    ∙ ap length (join-split value)

ascii-canonicalize_tag :
    (value : List ℕ) → all_bytes is_ascii (canonicalize_tag value) ≡ all_bytes is_ascii value
unfolding canonicalize_tag
ascii-canonicalize_tag value =
    join-all is_ascii to_lower-ascii to_upper-ascii (split value).first
      (map to_lower (split value).first) (split value).rest
      (all_bytes-map to_lower is_ascii to_lower-ascii (split value).first)
    ∙ ap (all_bytes is_ascii) (join-split value)

primary-canonicalize_tag :
    (value : List ℕ)
    → valid_primary (split (canonicalize_tag value)).first ≡ valid_primary (split value).first
unfolding valid_primary
primary-canonicalize_tag value =
    let first = (split value).first in
    ap (λ (s : Split). valid_primary s.first) (split-canonicalize_tag value)
    ∙ rw (length-map to_lower first, all_bytes-map to_lower is_alphabetic to_lower-alphabetic first)
        refl

subtags-canonicalize_tag :
    (value : List ℕ)
    → valid_subtags (split (canonicalize_tag value)).rest ≡ valid_subtags (split value).rest
subtags-canonicalize_tag value =
    ap (λ (s : Split). valid_subtags s.rest) (split-canonicalize_tag value)
    ∙ map-valid_subtags (split value).rest

-- A code that is parsed is canonical: it has the length of the text, at most 35 bytes, and it is
-- itself parsed, as the same code.
pub parse-canonical :
    (value : List ℕ) {code : List ℕ}
    → parse value ≡ ok code
    → (length code ≡ length value) × (length code ≤ 35) × (parse code ≡ ok code)
unfolding parse
parse-canonical value {code} h =
    let (_, h1, k1) = >>=-eq-ok (guard (not (length value == 0)) empty) _ h in
    let (_, h2, k2) = >>=-eq-ok (guard (leb (length value) 35) too_long) _ k1 in
    let (_, h3, k3) = >>=-eq-ok (guard (all_bytes is_ascii value) invalid_character) _ k2 in
    let (_, h4, k4) =
      >>=-eq-ok (guard (valid_primary (split value).first) invalid_primary_subtag) _ k3 in
    let (_, h5, k5) = >>=-eq-ok (guard (valid_subtags (split value).rest) invalid_subtag) _ k4 in
    let own : code ≡ canonicalize_tag value = ground (arith, k5) in
    let same = length-canonicalize_tag value in
    rw own (
      same,
      ground (arith, same, h2),
      rw
          (
            same,
            ascii-canonicalize_tag value,
            primary-canonicalize_tag value,
            subtags-canonicalize_tag value,
            h1,
            h2,
            h3,
            h4,
            h5,
            canonicalize_tag-twice value,
          )
          refl,
    )
