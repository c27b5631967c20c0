-- ===== src/Server/Changes/Order.antt =====
-- The rows that the SELECT of `changes_since` takes from a dense change log.
use lvos.Base.{
  ℕ, zero, suc, ◌+◌, ◌-◌, ◌≤◌, ◌≡◌, refl, inl, inr, List, [], ◌∷◌, arith, length, take, All, ltb,
  Bool-cases,
}
use lvos.Server.Database.{ChangeRow}
use lvos.Server.Changes.{changes_after, insert_ordered, order_by_revision}
use lvos.Server.Invariant.{IsDense}

changes_after-all :
    (since from : ℕ) (rows : List (ℕ × ChangeRow))
    → since ≤ from
    → IsDense from rows
    → changes_after since rows ≡ rows
unfolding changes_after
changes_after-all since from [] le h = refl
changes_after-all since from ((revision, row) ∷ rows) le h =
    ground (arith, changes_after-all since (from + 1) rows (omega arith) h.1)

pub changes_after-IsDense :
    (since from : ℕ) (rows : List (ℕ × ChangeRow))
    → from ≤ since
    → IsDense from rows
    → IsDense since (changes_after since rows)
unfolding changes_after
changes_after-IsDense since from [] le h = tt
changes_after-IsDense since from ((revision, row) ∷ rows) le h =
    elim (Bool-cases (ltb since revision)) [
      | inl more ↦
          let same : since ≡ from = ground arith in
          rw (more, changes_after-all since (from + 1) rows (omega (arith, same)) h.1)
            (omega (arith, same, h.0), rw same h.1)
      | inr less ↦ rw less (changes_after-IsDense since (from + 1) rows (ground arith) h.1)
    ]

pub length-changes_after :
    (since from : ℕ) (rows : List (ℕ × ChangeRow))
    → from ≤ since
    → IsDense from rows
    → length (changes_after since rows) ≡ from + length rows - since
unfolding changes_after
length-changes_after since from [] le h = omega arith
length-changes_after since from ((revision, row) ∷ rows) le h =
    elim (Bool-cases (ltb since revision)) [
      | inl more ↦
          let same : since ≡ from = ground arith in
          ground (arith, changes_after-all since (from + 1) rows (omega (arith, same)) h.1)
      | inr less ↦ ground (arith, length-changes_after since (from + 1) rows)
    ]

pub order_by_revision-IsDense :
    (from : ℕ) (rows : List (ℕ × ChangeRow)) → IsDense from rows → order_by_revision rows ≡ rows
unfolding order_by_revision insert_ordered
order_by_revision-IsDense from [] h = refl
order_by_revision-IsDense from (change ∷ []) h = refl
order_by_revision-IsDense from (change ∷ next ∷ rows) h =
    let rest = order_by_revision-IsDense (from + 1) (next ∷ rows) h.1 in ground (arith, rest)

pub take-IsDense :
    (n from : ℕ) (rows : List (ℕ × ChangeRow)) → IsDense from rows → IsDense from (take n rows)
take-IsDense zero from rows h = tt
take-IsDense (suc n) from [] h = tt
take-IsDense (suc n) from (change ∷ rows) h = (h.0, take-IsDense n (from + 1) rows h.1)

module _ {ℓ} (P : ℕ × ChangeRow → Type ℓ) where
  pub take-All : (n : ℕ) (rows : List (ℕ × ChangeRow)) → All P rows → All P (take n rows)
  take-All zero rows h = tt
  take-All (suc n) [] h = tt
  take-All (suc n) (change ∷ rows) h = (h.0, take-All n rows h.1)

  pub changes_after-All :
      (since : ℕ) (rows : List (ℕ × ChangeRow)) → All P rows → All P (changes_after since rows)
  unfolding changes_after
  changes_after-All since [] h = tt
  changes_after-All since ((revision, row) ∷ rows) h = elim (Bool-cases (ltb since revision)) [
    | inl more ↦ rw more (h.0, changes_after-All since rows h.1)
    | inr less ↦ rw less (changes_after-All since rows h.1)
  ]
