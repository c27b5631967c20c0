-- ===== src/Core/LanguageCode/Parts.antt =====
-- The parts of a code, and what the change of case keeps of them.
use lvos.Base.{
  ℕ, suc, ◌≡◌, refl, sym, ap, ◌∙◌, inl, inr, Bool, true, ◌&&◌, not, List, [], ◌∷◌, ◌++◌, map, arith,
  length, length-append, All, Bool-cases, nat_eq, ◌==◌, ==_cases,
}
use lvos.Core.LanguageCode.{
  is_alphabetic, is_alphanumeric, to_lower, to_upper, all_bytes, split, join, canonical_part,
  is_ascii,
}

pub to_lower-alphabetic : (b : ℕ) → is_alphabetic (to_lower b) ≡ is_alphabetic b
unfolding to_lower is_alphabetic
to_lower-alphabetic b = ground arith

pub to_upper-alphabetic : (b : ℕ) → is_alphabetic (to_upper b) ≡ is_alphabetic b
unfolding to_upper is_alphabetic
to_upper-alphabetic b = ground arith

pub to_lower-alphanumeric : (b : ℕ) → is_alphanumeric (to_lower b) ≡ is_alphanumeric b
unfolding to_lower is_alphanumeric
to_lower-alphanumeric b = ground arith

pub to_upper-alphanumeric : (b : ℕ) → is_alphanumeric (to_upper b) ≡ is_alphanumeric b
unfolding to_upper is_alphanumeric
to_upper-alphanumeric b = ground arith

pub to_lower-twice : (b : ℕ) → to_lower (to_lower b) ≡ to_lower b
unfolding to_lower
to_lower-twice b = ground arith

pub to_upper-twice : (b : ℕ) → to_upper (to_upper b) ≡ to_upper b
unfolding to_upper
to_upper-twice b = ground arith

pub to_lower-ascii : (b : ℕ) → is_ascii (to_lower b) ≡ is_ascii b
unfolding to_lower
to_lower-ascii b = ground arith

pub to_upper-ascii : (b : ℕ) → is_ascii (to_upper b) ≡ is_ascii b
unfolding to_upper
to_upper-ascii b = ground arith

pub to_lower-dash : (b : ℕ) → (to_lower b == b'-') ≡ (b == b'-')
unfolding to_lower
to_lower-dash b = ground arith

pub to_upper-dash : (b : ℕ) → (to_upper b == b'-') ≡ (b == b'-')
unfolding to_upper
to_upper-dash b = ground arith

module _ (f : ℕ → ℕ) where
  pub length-map : (bs : List ℕ) → length (map f bs) ≡ length bs
  length-map [] = refl
  length-map (b ∷ bs) = ap suc (length-map bs)

  pub all_bytes-map :
      (test : ℕ → Bool)
      → ((b : ℕ) → test (f b) ≡ test b)
      → (bs : List ℕ) → all_bytes test (map f bs) ≡ all_bytes test bs
  unfolding all_bytes
  all_bytes-map test same [] = refl
  all_bytes-map test same (b ∷ bs) = rw (same b, all_bytes-map test same bs) refl

  pub map-twice : ((b : ℕ) → f (f b) ≡ f b) → (bs : List ℕ) → map f (map f bs) ≡ map f bs
  map-twice same [] = refl
  map-twice same (b ∷ bs) = rw (same b, map-twice same bs) refl

abbrev pub not_dash : ℕ → Bool
not_dash byte = not (byte == b'-')

abbrev pub NoDash : List ℕ → Type 0
NoDash part = all_bytes not_dash part ≡ true

abbrev pub AllNoDash : List (List ℕ) → Type 0
AllNoDash parts = All NoDash parts

pub split-single :
    (first : List ℕ) → NoDash first → split first ≡ record { first = first; rest = [] }
unfolding split all_bytes
split-single [] h = refl
split-single (b ∷ first) h = ground (arith, split-single first)

pub split-append :
    (first tail : List ℕ)
    → NoDash first
    → split (first ++ b'-' ∷ tail)
      ≡ record { first = first; rest = (split tail).first ∷ (split tail).rest }
unfolding split all_bytes
split-append [] tail h = refl
split-append (b ∷ first) tail h = ground (arith, split-append first tail)

pub split-join :
    (first : List ℕ) (rest : List (List ℕ))
    → NoDash first
    → AllNoDash rest
    → split (join first rest) ≡ record { first = first; rest = rest }
unfolding join
split-join first [] h hs = split-single first h
split-join first (part ∷ rest) h hs =
    let tail = split-join part rest hs.0 hs.1 in
    split-append first (join part rest) h ∙ rw tail refl

pub split-NoDash : (value : List ℕ) → NoDash (split value).first × AllNoDash (split value).rest
unfolding split all_bytes
split-NoDash [] = (refl, tt)
split-NoDash (b ∷ value) =
    let (h, hs) = split-NoDash value in
    elim (Bool-cases (b == b'-')) [
      | inl dash ↦ rw dash (refl, (h, hs))
      | inr other ↦ rw other (rw other h, hs)
    ]

pub join-cons :
    (b : ℕ) (first : List ℕ) (rest : List (List ℕ)) → join (b ∷ first) rest ≡ b ∷ join first rest
unfolding join
join-cons b first [] = refl
join-cons b first (part ∷ rest) = refl

pub join-split : (value : List ℕ) → join (split value).first (split value).rest ≡ value
unfolding split join
join-split [] = refl
join-split (b ∷ value) = elim (==_cases b b'-') [
  | inl (dash, same) ↦
      rw dash (ap (λ bytes. b'-' ∷ bytes) (join-split value) ∙ ap (λ x. x ∷ value) (sym same))
  | inr (other, _) ↦ rw other (
      join-cons b (split value).first (split value).rest
      ∙ ap (λ bytes. b ∷ bytes) (join-split value))
]

-- A change of each byte of the parts that keeps every test of a byte and every length.
pub canonical_part-length : (part : List ℕ) → length (canonical_part part) ≡ length part
canonical_part-length part = elim (Bool-cases (length part == 2 && all_bytes is_alphabetic part)) [
  | inl region ↦ rw region (length-map to_upper part)
  | inr other ↦ rw other (length-map to_lower part)
]

module _ (test : ℕ → Bool) (lower : (b : ℕ) → test (to_lower b) ≡ test b)
    (upper : (b : ℕ) → test (to_upper b) ≡ test b) where
  pub canonical_part-all :
      (part : List ℕ) → all_bytes test (canonical_part part) ≡ all_bytes test part
  canonical_part-all part = elim (Bool-cases (length part == 2 && all_bytes is_alphabetic part)) [
    | inl region ↦ rw region (all_bytes-map to_upper test upper part)
    | inr other ↦ rw other (all_bytes-map to_lower test lower part)
  ]

  pub all_bytes-append :
      (a b : List ℕ) → all_bytes test (a ++ b) ≡ (all_bytes test a && all_bytes test b)
  unfolding all_bytes
  all_bytes-append [] b = refl
  all_bytes-append (x ∷ a) b = ground (arith, all_bytes-append a b)

  pub join-step :
      (a a' c c' : List ℕ)
      → all_bytes test a' ≡ all_bytes test a
      → all_bytes test c' ≡ all_bytes test c
      → (all_bytes test c' && all_bytes test (b'-' ∷ a'))
        ≡ (all_bytes test c && all_bytes test (b'-' ∷ a))
  unfolding all_bytes
  join-step a a' c c' e e' = rw (e, e') refl

  pub join-all :
      (first first' : List ℕ) (rest : List (List ℕ))
      → all_bytes test first' ≡ all_bytes test first
      → all_bytes test (join first' (map canonical_part rest)) ≡ all_bytes test (join first rest)
  unfolding join
  join-all first first' [] h = h
  join-all first first' (part ∷ rest) h =
      let tail = join-all part (canonical_part part) rest (canonical_part-all part) in
      all_bytes-append first' (b'-' ∷ join (canonical_part part) (map canonical_part rest))
      ∙ join-step (join part rest) (join (canonical_part part) (map canonical_part rest)) first
          first' tail h
      ∙ sym (all_bytes-append first (b'-' ∷ join part rest))

pub length-join :
    (first first' : List ℕ) (rest : List (List ℕ))
    → length first' ≡ length first
    → length (join first' (map canonical_part rest)) ≡ length (join first rest)
unfolding join
length-join first first' [] h = h
length-join first first' (part ∷ rest) h =
    let tail = length-join part (canonical_part part) rest (canonical_part-length part) in
    omega (
      arith,
      length-append first' (b'-' ∷ join (canonical_part part) (map canonical_part rest)),
      length-append first (b'-' ∷ join part rest),
      tail,
    )

pub canonical_part-twice :
    (part : List ℕ) → canonical_part (canonical_part part) ≡ canonical_part part
canonical_part-twice part = elim (Bool-cases (length part == 2 && all_bytes is_alphabetic part)) [
  | inl region ↦
      rw
        (
          region,
          length-map to_upper part,
          all_bytes-map to_upper is_alphabetic to_upper-alphabetic part,
          region,
        )
        (map-twice to_upper to_upper-twice part)
  | inr other ↦
      rw
        (
          other,
          length-map to_lower part,
          all_bytes-map to_lower is_alphabetic to_lower-alphabetic part,
          other,
        )
        (map-twice to_lower to_lower-twice part)
]
