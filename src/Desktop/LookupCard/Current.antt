-- ===== src/Desktop/LookupCard/Current.antt =====
-- A card never shows a completion of another generation.
use lvos.Base.{
  ℕ, ◌≡◌, refl, ◌∙◌, inl, inr, true, Option, none, some, List, [], ◌∷◌, arith, nat_eq, Bool-cases,
}
use lvos.Desktop.LookupCard.{
  LookupCardState, generation, same_generation, apply_if_current, apply_all,
}

same_generation_iff : (a b : Option ℕ) → same_generation a b ≡ true → b ≡ a
same_generation_iff none b h = absurd (ground (arith, h))
same_generation_iff (some a) none h = absurd (ground (arith, h))
same_generation_iff (some a) (some b) h = ground (arith, h)

apply_if_current-generation :
    (state completion : LookupCardState)
    → generation (apply_if_current state completion).1 ≡ generation state
unfolding apply_if_current
apply_if_current-generation state completion =
    elim (Bool-cases (same_generation (generation state) (generation completion))) [
      | inl same ↦ rw same (same_generation_iff (generation state) (generation completion) same)
      | inr other ↦ rw other refl
    ]

-- Whatever completions arrive, and in whatever order, what a card shows is of the generation that it
-- showed before, and a card that is hidden, which has none, stays so.
pub apply_all-generation :
    (state : LookupCardState) (completions : List LookupCardState)
    → generation (apply_all state completions) ≡ generation state
unfolding apply_all
apply_all-generation state [] = refl
apply_all-generation state (completion ∷ completions) =
    apply_all-generation (apply_if_current state completion).1 completions
    ∙ apply_if_current-generation state completion
